-- ===== src/Phrases/Between.antt =====
-- A path phrase from its text to the path in the workspace.
use network_analytics_predic.Phrases.Split.{
  IsEnd, append-front, first_matched-between, front, has_joint,
}
use network_analytics_predic.Phrases.Parse.{
  clean_label, execute_graph_phrase, find_node_by_phrase, parse_graph_phrase, parse_words, path_of,
}
use network_analytics_predic.Phrases.Execute.{execute_parsed, execute_path}
use network_analytics_predic.Workspace.Path.{FoundPath, no_path, set_path}
use network_analytics_predic.Workspace.Path.Correct.{shortest_path_correct}
use network_analytics_predic.Workspace.Path.Round.{IsShortestPath}
use network_analytics_predic.Workspace.Path.Walk.{Walk}
use network_analytics_predic.Workspace.State.{Workspace, normalized}
use network_analytics_predic.Graph.{Node, Settings, Source}
use network_analytics_predic.Prelude.{
  refl, ℕ, ◌⊎◌, ap, ◌≢◌, is_empty, ◌∙◌, ◌≡◌, ◌⧺◌, String, true, false, some,
}

abbrev pub path_phrase : String → String → String
path_phrase a b = "paths between " ⧺ a ⧺ " and " ⧺ b

path_phrase-front :
    (a b : String) → path_phrase a b ≡ front "paths between " (front a (front " and " b))
path_phrase-front a b =
    append-front "paths between " (a ⧺ " and " ⧺ b)
    ∙ ap (front "paths between ")
        (append-front a (" and " ⧺ b) ∙ ap (front a) (append-front " and " b))

abbrev pub path_in : Workspace → FoundPath
path_in w = record { node_ids = w.path_node_ids; relationship_ids = w.path_relationship_ids }

-- A phrase that reads "paths between a and b", but for its case, outer white space and final marks.
module _ (phrase a b : String) (source : Source)
    (reads : normalized (clean_label phrase) ≡ path_phrase a b) (from : IsEnd a) (to : IsEnd b)
    (split : has_joint a ≡ false) where
  parse_graph_phrase-between :
      parse_graph_phrase phrase source
      ≡ path_of (find_node_by_phrase source a) (find_node_by_phrase source b)
  unfolding parse_graph_phrase parse_words
  parse_graph_phrase-between =
      rw (parse_graph_phrase, reads ∙ path_phrase-front a b)
        (rw (parse_words, first_matched-between a b from to split))

  -- When a phrase reads "paths between a and b", but for its case, outer white space and final marks, neither end starts
  -- with white space or has a line break, no white space of a is followed by "and" or by the end of a, and the ends name
  -- two different nodes, then the phrase is executed: the workspace has a shortest path between the two nodes through the
  -- visible relationships, or there is no walk between them and it has the empty path.
  pub execute_graph_phrase-path :
      (w : Workspace) (settings : Settings) (n m : Node)
      → find_node_by_phrase source a ≡ some n
      → find_node_by_phrase source b ≡ some m
      → is_empty n.id ≡ false
      → is_empty m.id ≡ false
      → n.id ≢ m.id
      → let result = execute_graph_phrase w phrase source settings in
        let visible = source.visible_relationships settings in
        let path = path_in result.workspace in
        (result.ok ≡ true)
        × (IsShortestPath visible n.id m.id path
            ⊎ ((path ≡ no_path) × ((k : ℕ) → ¬ Walk visible n.id k m.id)))
  unfolding execute_graph_phrase execute_parsed execute_path set_path
  execute_graph_phrase-path w settings n m hn hm en em differ =
      let parsed =
        parse_graph_phrase-between
        ∙ ap (λ o. path_of o (find_node_by_phrase source b)) hn
        ∙ ap (path_of (some n)) hm in
      rw (execute_graph_phrase, parsed)
        (refl, shortest_path_correct source settings n.id m.id en em differ)

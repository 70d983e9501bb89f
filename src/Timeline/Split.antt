-- ===== src/Timeline/Split.antt =====
-- packages/graph-renderer/graph-model.mjs: `visibleEdgesWithNodes`, `modelFromEdges`, `buildUnifiedModel`,
-- `recommendSplit` and `buildChronologicalSplitModels`. The times that `Date.parse` reads and the order of
-- `localeCompare` are parameters; percentages are exact quotients of whole numbers.
use network_analytics_predic.Graph.{Node, Relationship, Settings, Source}
use network_analytics_predic.Timeline.Period.{end_ids, graph_edge, GraphEdge}
use network_analytics_predic.Prelude.{
  get_or, replace_part, hyphenate, zero, drop, has, not, filter, take, ◌&&◌, eqb, lebℤ, lower, show,
  ◌-◌, ◌/◌, false, foldl, length, none, sub_ℕ, ◌+◌, ◌==◌, ◌||◌, ◌⧺◌, Option, if◌then◌else◌, ltb,
  map, max, min, negsuc, some, suc, unique, ℤ, ◌*◌, Bool, List, String, ℕ, ◌∷◌, [],
}

-- What `Date.parse` reads, none where it is not finite, and whether one id sorts before another or with it.
pub record Clock : Type 0 where
  pub parse_date : String → Option ℕ
  pub id_before : String → String → Bool

pub record TimedEdge : Type 0 where
  pub edge : GraphEdge
  pub open edge use *
  pub at_ms : ℕ

unfoldable pub event_millis : Clock → Relationship → ℕ
unfolding replace_part
event_millis clock r =
    get_or (clock.parse_date (replace_part " " "T" (replace_part " UTC" "Z" r.event_time))) 0

abbrev pub timed_edge : Clock → Source → Relationship → TimedEdge
timed_edge clock source r = record { edge = graph_edge source r; at_ms = event_millis clock r }

-- `a.atMs - b.atMs || a.id.localeCompare(b.id)`, not above zero
abbrev pub comes_before : Clock → TimedEdge → TimedEdge → Bool
comes_before clock a b =
    ltb a.at_ms b.at_ms || (eqb a.at_ms b.at_ms && clock.id_before a.edge.id b.edge.id)

unfoldable pub insert_edge : Clock → TimedEdge → List TimedEdge → List TimedEdge
insert_edge clock e [] = e ∷ []
insert_edge clock e (x ∷ xs) =
    let rest = insert_edge clock e xs in if comes_before clock e x then e ∷ x ∷ xs else x ∷ rest

unfoldable pub sort_edges : Clock → List TimedEdge → List TimedEdge
unfolding insert_edge
sort_edges clock [] = []
sort_edges clock (x ∷ xs) = insert_edge clock x (sort_edges clock xs)

unfoldable pub visible_edges : Clock → Settings → Source → List TimedEdge
unfolding sort_edges
visible_edges clock settings source =
    sort_edges clock (map (timed_edge clock source) (source.visible_relationships settings))

pub record SplitModel : Type 0 where
  pub period : String
  pub label : String
  pub nodes : List Node
  pub edges : List TimedEdge

-- `map.set(node.id, node)`, then the values of the map in the order of their keys.
unfoldable pub put_node : List Node → Node → List Node
put_node [] n = n ∷ []
put_node (x ∷ xs) n = let rest = put_node xs n in if x.id == n.id then n ∷ xs else x ∷ rest

abbrev put_end : List Node → Option Node → List Node
put_end nodes none = nodes
put_end nodes (some n) = put_node nodes n

abbrev pub end_nodes : List TimedEdge → List Node
end_nodes edges = foldl (λ nodes e. put_end (put_end nodes e.source_node) e.target_node) [] edges

abbrev pub ids_at_ends : List TimedEdge → List String
ids_at_ends edges = unique (end_ids (map (λ e. e.edge) edges))

unfoldable pub model_from_edges : String → List TimedEdge → Option Source → SplitModel
unfolding hyphenate put_node
model_from_edges label edges given = record {
  period = hyphenate false (lower label);
  label = label;
  nodes = elim given [
    | none ↦ end_nodes edges
    | some source ↦ filter (λ n. has (ids_at_ends edges) n.id) source.nodes
  ];
  edges = edges;
}

unfoldable pub build_unified_model : Clock → Settings → Source → SplitModel
build_unified_model clock settings source =
    model_from_edges "Unified graph" (visible_edges clock settings source) (some source)

-- The loop of `recommendSplit`: the index of the largest gap so far, and that gap, which starts at -1.
unfoldable pub widest_gap : ℕ → ℕ × ℤ → List TimedEdge → ℕ × ℤ
widest_gap index best [] = best
widest_gap index best (a ∷ []) = best
widest_gap index best (a ∷ b ∷ rest) =
    let gap = sub_ℕ b.at_ms a.at_ms in
    widest_gap (suc index) (if lebℤ gap best.1 then best else (index, gap)) (b ∷ rest)

pub record Recommendation : Type 0 where
  pub percent : ℕ
  pub label : String
  pub reason : String

-- `Math.round(count / total * 100)`
abbrev pub rounded_percent : ℕ → ℕ → ℕ
rounded_percent count total = (200 * count + total) / (2 * total)

unfoldable pub recommend_split : Clock → Settings → Source → Recommendation
unfolding widest_gap
recommend_split clock settings source =
    let visible = visible_edges clock settings source in
    let (best_index, best_gap) = widest_gap 0 (0, negsuc 0) visible in
    if ltb (length visible) 2
    then record {
      percent = 50;
      label = "Single visible cluster";
      reason = "Not enough dated relationships to infer a split.";
    }
    else record {
      percent = min 90 (max 10 (rounded_percent (best_index + 1) (length visible)));
      label =
          "After "
          ⧺ show (best_index + 1)
          ⧺ " of "
          ⧺ show (length visible)
          ⧺ " dated relationships";
      reason =
          "Default split uses the largest chronological gap in visible evidence as a starting point.";
    }

-- `Array.from({ length: count }, (_, index) => …)`, from an index on.
unfoldable pub slices : ℕ → ℕ → ℕ → List TimedEdge → List SplitModel
slices chunk_size index zero visible = []
slices chunk_size index (suc count) visible =
    model_from_edges ("Slice " ⧺ show (index + 1))
      (take chunk_size (drop (index * chunk_size) visible)) none
    ∷ slices chunk_size (suc index) count visible

abbrev pub has_edges : SplitModel → Bool
has_edges model = ltb 0 (length model.edges)

-- `Math.round(total * percent / 100)` between 1 and the last place that leaves an edge after it.
abbrev pub boundary_index : ℕ → ℕ → ℕ
boundary_index total percent = min (max 1 ((2 * total * percent + 100) / 200)) (max 1 (total - 1))

unfoldable pub build_chronological_split_models : Clock → Settings → Source → ℕ → List SplitModel
unfolding slices
build_chronological_split_models clock settings source split_count =
    let visible = visible_edges clock settings source in
    let count = max 1 split_count in
    let boundary = boundary_index (length visible) settings.split_boundary_percent in
    let chunk_size = max 1 ((length visible + count - 1) / count) in
    if eqb count 1
    then build_unified_model clock settings source ∷ []
    else if eqb count 2 && not (settings.split_strategy == "equal")
    then filter has_edges (
        model_from_edges "Before split" (take boundary visible) none
        ∷ model_from_edges "After split" (drop boundary visible) none
        ∷ [])
    else filter has_edges (slices chunk_size 0 count visible)

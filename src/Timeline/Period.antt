-- ===== src/Timeline/Period.antt =====
-- packages/graph-renderer/graph-model.mjs: `buildPeriodModel` and `graphSummary`.
use mathlib.Core.List.{Memᴰ}
use network_analytics_predic.Graph.{Node, Relationship, Settings, Source}
use network_analytics_predic.Prelude.{
  filter-Mem, All-map, has-unique, All, Bool, subst, filter-Mem_iff, none, true, some, ◌≡◌, ◌==◌,
  ◌↔◌, has, if◌then◌else◌, not, Option, filter, map, unique, List, String, ◌∷◌, [],
}

-- `CHANGE_LABELS[status]`
abbrev pub change_label_of : String → Option String
change_label_of status =
    if status == "appeared"
    then some "Appeared later"
    else if status == "no-longer-observed"
    then some "No longer observed"
    else if status == "uncertain"
    then some "Uncertain"
    else if status == "observed"
    then some "Observed in both"
    else none

-- `{ ...relationship, sourceNode, targetNode, changeLabel }`
pub record GraphEdge : Type 0 where
  pub relationship : Relationship
  pub open relationship use *
  pub source_node : Option Node
  pub target_node : Option Node
  pub change_label : Option String

abbrev pub graph_edge : Source → Relationship → GraphEdge
graph_edge source r = record {
  relationship = r;
  source_node = source.node_by_id r.subject;
  target_node = source.node_by_id r.object;
  change_label = change_label_of r.status;
}

pub record PeriodModel : Type 0 where
  pub period : String
  pub nodes : List Node
  pub edges : List GraphEdge

abbrev pub end_ids : List GraphEdge → List String
end_ids [] = []
end_ids (e ∷ edges) = e.subject ∷ e.object ∷ end_ids edges

unfoldable pub build_period_model : String → Settings → Source → PeriodModel
build_period_model period settings source =
    let edges =
      map (graph_edge source)
        (filter (λ r. has r.periods period) (source.visible_relationships settings)) in
    let node_ids = unique (end_ids edges) in
    record { period = period; nodes = filter (λ n. has node_ids n.id) source.nodes; edges = edges }

pub record Summary : Type 0 where
  pub before : PeriodModel
  pub after : PeriodModel
  pub appeared : List GraphEdge
  pub no_longer_observed : List GraphEdge
  pub persistent : List GraphEdge

abbrev edge_ids : List GraphEdge → List String
edge_ids edges = unique (map (λ e. e.id) edges)

unfoldable pub graph_summary : Settings → Source → Summary
graph_summary settings source =
    let before = build_period_model "before" settings source in
    let after = build_period_model "after" settings source in
    let before_ids = edge_ids before.edges in
    let after_ids = edge_ids after.edges in
    record {
      before = before;
      after = after;
      appeared = filter (λ e. not (has before_ids e.id)) after.edges;
      no_longer_observed = filter (λ e. not (has after_ids e.id)) before.edges;
      persistent = filter (λ e. has before_ids e.id) after.edges;
    }

-- Every edge of a period model is a visible relationship of the period, and a node is drawn exactly when it is a
-- node of the source at an end of an edge of the model.
pub build_period_model-Mem :
    (period : String) (settings : Settings) (source : Source) (n : Node)
    → let model = build_period_model period settings source in
      All
        (λ e.
          Memᴰ e.relationship (source.visible_relationships settings)
          × (has e.relationship.periods period ≡ true))
        model.edges
      × (Memᴰ n model.nodes ↔ (Memᴰ n source.nodes × (has (end_ids model.edges) n.id ≡ true)))
unfolding build_period_model
build_period_model-Mem period settings source n =
    let visible = source.visible_relationships settings in
    let test : Relationship → Bool = λ r. has r.periods period in
    let edges = map (graph_edge source) (filter test visible) in
    (
      All-map (λ r. Memᴰ r visible × (test r ≡ true))
          (λ e. Memᴰ e.relationship visible × (has e.relationship.periods period ≡ true))
          (graph_edge source) (filter test visible) (λ r h. h) (filter-Mem test visible),
      subst
          (λ b.
            Memᴰ n (filter (λ n. has (unique (end_ids edges)) n.id) source.nodes)
            ↔ (Memᴰ n source.nodes × (b ≡ true)))
          (has-unique (end_ids edges) n.id)
          (filter-Mem_iff (λ n. has (unique (end_ids edges)) n.id) source.nodes n),
    )

abbrev in_ids : List GraphEdge → GraphEdge → Bool
in_ids edges e = has (map (λ x. x.id) edges) e.id

pick_iff :
    (others edges : List GraphEdge) (e : GraphEdge)
    → Memᴰ e (filter (λ e. has (edge_ids others) e.id) edges)
      ↔ (Memᴰ e edges × (in_ids others e ≡ true))
pick_iff others edges e =
    subst
      (λ b. Memᴰ e (filter (λ e. has (edge_ids others) e.id) edges) ↔ (Memᴰ e edges × (b ≡ true)))
      (has-unique (map (λ x. x.id) others) e.id)
      (filter-Mem_iff (λ e. has (edge_ids others) e.id) edges e)

drop_iff :
    (others edges : List GraphEdge) (e : GraphEdge)
    → Memᴰ e (filter (λ e. not (has (edge_ids others) e.id)) edges)
      ↔ (Memᴰ e edges × (not (in_ids others e) ≡ true))
drop_iff others edges e =
    subst
      (λ b.
        Memᴰ e (filter (λ e. not (has (edge_ids others) e.id)) edges)
        ↔ (Memᴰ e edges × (not b ≡ true)))
      (has-unique (map (λ x. x.id) others) e.id)
      (filter-Mem_iff (λ e. not (has (edge_ids others) e.id)) edges e)

-- The summary's three lists are what their names say: the edges of the second period whose ids the first has not,
-- those of the first whose ids the second has not, and those of the second whose ids the first has.
pub graph_summary-Mem :
    (settings : Settings) (source : Source) (e : GraphEdge)
    → let s = graph_summary settings source in
      (Memᴰ e s.appeared
        ↔ (Memᴰ e s.after.edges × (not (has (map (λ x. x.id) s.before.edges) e.id) ≡ true)))
      × (Memᴰ e s.no_longer_observed
          ↔ (Memᴰ e s.before.edges × (not (has (map (λ x. x.id) s.after.edges) e.id) ≡ true)))
      × (Memᴰ e s.persistent
          ↔ (Memᴰ e s.after.edges × (has (map (λ x. x.id) s.before.edges) e.id ≡ true)))
unfolding graph_summary
graph_summary-Mem settings source e =
    let before = (build_period_model "before" settings source).edges in
    let after = (build_period_model "after" settings source).edges in
    (drop_iff before after e, drop_iff after before e, pick_iff before after e)

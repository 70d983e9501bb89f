-- ===== src/Timeline/Rows.antt =====
-- packages/graph-renderer/graph-model.mjs: `semanticRows`, which reads the label of a node without asking whether
-- the node is there: none stands for the exception.
use network_analytics_predic.Timeline.Period.{change_label_of}
use network_analytics_predic.Graph.{Node, Relationship, Settings, Source}
use mathlib.Core.Option
use network_analytics_predic.Prelude.{
  ◌==◌, ap, length, eqb, map, if◌then◌else◌, ◌≡◌, All, Option, String, List, ◌∷◌, [], none, some,
  refl,
}

pub record SemanticEdge : Type 0 where
  pub relationship : Relationship
  pub subject_label : String
  pub object_label : String
  pub period_label : String
  pub change_label : Option String

-- The text of the periods; `periods[0]` of an empty list is no period.
abbrev pub period_label_of : List String → String
period_label_of periods = if eqb (length periods) 2 then "Both periods" else elim periods [
  | [] ↦ "Before only"
  | p ∷ _ ↦ if p == "after" then "After only" else "Before only"
]

abbrev pub semantic_edge : Relationship → Node → Node → SemanticEdge
semantic_edge r subject object = record {
  relationship = r;
  subject_label = subject.label;
  object_label = object.label;
  period_label = period_label_of r.periods;
  change_label = change_label_of r.status;
}

unfoldable pub semantic_row : Source → Relationship → Option SemanticEdge
semantic_row source r = elim (source.node_by_id r.subject) [
  | none ↦ none
  | some subject ↦ Option.map (semantic_edge r subject) (source.node_by_id r.object)
]

unfoldable pub rows_of : Source → List Relationship → Option (List SemanticEdge)
unfolding semantic_row
rows_of source [] = some []
rows_of source (r ∷ rs) = elim (semantic_row source r) [
  | none ↦ none
  | some row ↦ Option.map (row ∷◌) (rows_of source rs)
]

unfoldable pub semantic_rows : Settings → Source → Option (List SemanticEdge)
unfolding rows_of
semantic_rows settings source = rows_of source (source.visible_relationships settings)

-- Both ends of a relationship are nodes of the source.
pub record Connected (source : Source) (r : Relationship) : Type 0 where
  pub subject : Node
  pub object : Node
  pub from : source.node_by_id r.subject ≡ some subject
  pub to : source.node_by_id r.object ≡ some object

semantic_row-some :
    (source : Source) (r : Relationship) (h : Connected source r)
    → semantic_row source r ≡ some (semantic_edge r h.subject h.object)
unfolding semantic_row
semantic_row-some source r h = rw (semantic_row, h.from, h.to) refl

rows_of-all :
    (source : Source) (rs : List Relationship)
    → All (Connected source) rs
    → (rows : List SemanticEdge) × (rows_of source rs ≡ some rows)
      × (map (λ x. x.relationship) rows ≡ rs)
unfolding rows_of
rows_of-all source [] h = ([], refl, refl)
rows_of-all source (r ∷ rs) h =
    let (rows, same, all_rows) = rows_of-all source rs h.1 in
    (
      semantic_edge r h.0.subject h.0.object ∷ rows,
      rw (rows_of, semantic_row-some source r h.0, same) refl,
      ap (r ∷◌) all_rows,
    )

-- When both ends of every visible relationship are nodes of the source, no row raises an exception, and there is one row
-- for each visible relationship, in order.
pub semantic_rows-all :
    (settings : Settings) (source : Source)
    → All (Connected source) (source.visible_relationships settings)
    → (rows : List SemanticEdge) × (semantic_rows settings source ≡ some rows)
      × (map (λ x. x.relationship) rows ≡ source.visible_relationships settings)
unfolding semantic_rows
semantic_rows-all settings source h = rows_of-all source (source.visible_relationships settings) h

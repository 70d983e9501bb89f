-- ===== src/Workspace/Redaction.antt =====
-- packages/graph-renderer/chart-workspace.mjs: what `exportBriefingChart` and `exportCasePacket` tell.
use network_analytics_predic.Graph.{Settings, Source}
use network_analytics_predic.Workspace.Export.{
  explain_path, export_annotation, export_briefing_chart, export_edge, export_entity,
}
use network_analytics_predic.Workspace.State.{Workspace, Annotation, ManualEdge, ManualEntity}
use network_analytics_predic.Prelude.{
  ap, ◌∷◌, [], suc, refl, map-Pairwise, length, unique, Pairwise, true, inr, inl, Bool-cases, false,
  has, String, List, ◌≡◌,
}

module _ (redacted_ids : List String) where
  -- Entities that differ at most in what a redaction hides, edges and notes likewise.
  pub record SameEntity (a b : ManualEntity) : Type 0 where
    pub same_id : a.id ≡ b.id
    pub same_type : a.type ≡ b.type
    pub same_evidence : a.evidence_status ≡ b.evidence_status
    pub shown :
        has redacted_ids a.id ≡ false
        → (a.label ≡ b.label) × (a.x ≡ b.x) × (a.y ≡ b.y) × (a.style ≡ b.style)

  pub record SameEdge (a b : ManualEdge) : Type 0 where
    pub same_id : a.id ≡ b.id
    pub same_source : a.source_id ≡ b.source_id
    pub same_target : a.target_id ≡ b.target_id
    pub same_style : a.style ≡ b.style
    pub same_evidence : a.evidence_status ≡ b.evidence_status
    pub shown : has redacted_ids a.id ≡ false → a.label ≡ b.label

  pub record SameNote (a b : Annotation) : Type 0 where
    pub same_id : a.id ≡ b.id
    pub same_target : a.target_id ≡ b.target_id
    pub same_classification : a.classification ≡ b.classification
    pub shown : has redacted_ids a.target_id ≡ false → a.text ≡ b.text

  export_entity-same :
      (a b : ManualEntity)
      → SameEntity a b
      → export_entity redacted_ids a ≡ export_entity redacted_ids b
  export_entity-same a b h = elim (Bool-cases (has redacted_ids a.id)) [
    | inl e ↦
        let other : has redacted_ids b.id ≡ true = cc in
        rw (h.same_id, h.same_type, h.same_evidence, other)
    | inr e ↦
        let other : has redacted_ids b.id ≡ false = cc in
        let s = h.shown e in rw (h.same_id, h.same_type, h.same_evidence, s.0, s.1, s.2, s.3, other)
  ]

  export_edge-same :
      (a b : ManualEdge) → SameEdge a b → export_edge redacted_ids a ≡ export_edge redacted_ids b
  export_edge-same a b h = elim (Bool-cases (has redacted_ids a.id)) [
    | inl e ↦
        let other : has redacted_ids b.id ≡ true = cc in
        rw (h.same_id, h.same_source, h.same_target, h.same_style, h.same_evidence, other)
    | inr e ↦
        let other : has redacted_ids b.id ≡ false = cc in
        rw
          (h.same_id, h.same_source, h.same_target, h.same_style, h.same_evidence, h.shown e, other)
  ]

  export_annotation-same :
      (a b : Annotation)
      → SameNote a b
      → export_annotation redacted_ids a ≡ export_annotation redacted_ids b
  export_annotation-same a b h = elim (Bool-cases (has redacted_ids a.target_id)) [
    | inl e ↦
        let other : has redacted_ids b.target_id ≡ true = cc in
        rw (h.same_id, h.same_target, h.same_classification, other)
    | inr e ↦
        let other : has redacted_ids b.target_id ≡ false = cc in
        rw (h.same_id, h.same_target, h.same_classification, h.shown e, other)
  ]

-- Two workspaces that show the same to someone who does not see the redacted items.
pub record Alike (w v : Workspace) : Type 0 where
  pub redacted : w.redacted_item_ids ≡ v.redacted_item_ids
  pub path : w.path_relationship_ids ≡ v.path_relationship_ids
  pub entities :
      Pairwise (SameEntity (unique w.redacted_item_ids)) w.manual_entities v.manual_entities
  pub edges : Pairwise (SameEdge (unique w.redacted_item_ids)) w.manual_edges v.manual_edges
  pub notes : Pairwise (SameNote (unique w.redacted_item_ids)) w.annotations v.annotations

length-Pairwise {ℓ} :
    {A : Type ℓ} (R : A → A → Type 0) (xs ys : List A) → Pairwise R xs ys → length xs ≡ length ys
length-Pairwise R [] [] h = refl
length-Pairwise R [] (y ∷ ys) h = absurd h
length-Pairwise R (x ∷ xs) [] h = absurd h
length-Pairwise R (x ∷ xs) (y ∷ ys) h = ap suc (length-Pairwise R xs ys h.1)

-- Two workspaces with the same redactions and the same path, whose chart items differ at most in the
-- label, place and style of redacted entities, the label of redacted edges and the text of notes on
-- redacted items, have the same briefing chart.
pub export_briefing_chart-Alike :
    (w v : Workspace) (source : Source) (settings : Settings)
    → Alike w v
    → export_briefing_chart w source settings ≡ export_briefing_chart v source settings
unfolding export_briefing_chart explain_path
export_briefing_chart-Alike w v source settings h =
    let r = unique w.redacted_item_ids in
    let entities =
      map-Pairwise (SameEntity r) (export_entity r) w.manual_entities v.manual_entities
        (export_entity-same r) h.entities in
    let edges =
      map-Pairwise (SameEdge r) (export_edge r) w.manual_edges v.manual_edges (export_edge-same r)
        h.edges in
    let notes =
      map-Pairwise (SameNote r) (export_annotation r) w.annotations v.annotations
        (export_annotation-same r) h.notes in
    let count = length-Pairwise (SameNote r) w.annotations v.annotations h.notes in
    rw (entities, edges, notes, count, h.redacted, h.path)

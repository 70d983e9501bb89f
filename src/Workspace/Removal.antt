-- ===== src/Workspace/Removal.antt =====
-- packages/graph-renderer/chart-workspace.mjs: what `removeManualEntity` leaves, and what a number given
-- by `nextId` means after a removal.
use network_analytics_predic.Workspace.State.{ManualEdge, ManualEntity, Workspace}
use network_analytics_predic.Workspace.Manual.{remove_manual_entity}
use network_analytics_predic.Prelude.{
  ◌&&◌, filter-All, All-imp, has-filter, arith, not, find-filter, inr, ◌∙◌, eq_iff, sym, inl,
  Bool-cases, ◌||◌, false, find, true, has, ◌==◌, All, Option, ◌≢◌, String, ◌≡◌,
}

abbrev pub entity_with : String → Workspace → Option ManualEntity
entity_with id w = find (λ e. e.id == id) w.manual_entities

-- No entity of that id, no edge that ends at it and no redaction of it.
pub record Cleared (id : String) (w : Workspace) : Type 0 where
  pub entities : All (λ e. (e.id == id) ≡ false) w.manual_entities
  pub edges : All (λ e. (e.source_id == id || e.target_id == id) ≡ false) w.manual_edges
  pub redactions : has w.redacted_item_ids id ≡ false

-- After the removal of an entity, no entity has its id, no edge ends at it and it is not redacted.
remove_manual_entity-Cleared :
    (w : Workspace) (id : String) → Cleared id (remove_manual_entity w id)
unfolding remove_manual_entity
remove_manual_entity-Cleared w id = record {
  entities =
      All-imp _ _ _ (λ e h. ground arith)
        (filter-All (λ (e : ManualEntity). not (e.id == id)) w.manual_entities);
  edges =
      All-imp _ _ _ (λ e h. ground arith)
        (filter-All (λ (e : ManualEdge). not (e.source_id == id) && not (e.target_id == id))
          w.manual_edges);
  redactions = ground (arith, has-filter (λ x. not (x == id)) w.redacted_item_ids id, eq_iff id id);
}

-- The removal of an entity keeps every other entity, and the redaction of every other item.
remove_manual_entity-others :
    (w : Workspace) (id other : String)
    → other ≢ id
    → (entity_with other (remove_manual_entity w id) ≡ entity_with other w)
      × (has (remove_manual_entity w id).redacted_item_ids other ≡ has w.redacted_item_ids other)
unfolding remove_manual_entity
remove_manual_entity-others w id other apart = (
  find-filter (λ (e : ManualEntity). e.id == other) (λ e. not (e.id == id)) w.manual_entities
      (λ e h. ground (arith, eq_iff e.id other, eq_iff e.id id, apart_at e h)),
  ground (arith, has-filter (λ x. not (x == id)) w.redacted_item_ids other, eq_iff other id),
)
  where
    apart_at : (e : ManualEntity) → (e.id == other) ≡ true → (e.id == id) ≡ false
    apart_at e h = elim (Bool-cases (e.id == id)) [
      | inl t ↦ absurd (apart (sym ((eq_iff e.id other).0 h) ∙ (eq_iff e.id id).0 t))
      | inr f ↦ f
    ]

-- After the removal of an entity, no entity has its id, no edge ends at it and it is not redacted; every other
-- entity is kept, and so is the redaction of every other item.
pub remove_manual_entity-removes :
    (w : Workspace) (id other : String)
    → let after = remove_manual_entity w id in
      Cleared id after
      × (other ≢ id
          → (entity_with other after ≡ entity_with other w)
            × (has after.redacted_item_ids other ≡ has w.redacted_item_ids other))
remove_manual_entity-removes w id other =
    (remove_manual_entity-Cleared w id, remove_manual_entity-others w id other)

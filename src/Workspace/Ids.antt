-- ===== src/Workspace/Ids.antt =====
-- packages/graph-renderer/chart-workspace.mjs: `nextId` numbers an item by the length of its list. In the
-- audit log, which only grows, the numbers are distinct; in the list of manual entities, which
-- `removeManualEntity` shortens, a number can come twice. And the places that `addManualEntity` gives.
use network_analytics_predic.Workspace.Manual.{new_entity, remove_manual_entity, add_manual_entity}
use network_analytics_predic.Workspace.Reach.{Reachable-WorkspaceOk, Reachable}
use network_analytics_predic.Workspace.Valid.{NumberedFrom, WorkspaceOk}
use network_analytics_predic.Workspace.State.{
  clean_text, next_id, ManualEntity, clamp_coordinate, Workspace,
}
use mathlib.Core.List.{map-append}
use network_analytics_predic.Prelude.{
  eq_refl, length-append, subst, ◌↔◌, pos, is_empty, ◌≤ℤ◌, ap, none, ℤ, ◌+◌, length, not, Option,
  filter, ◌++◌, refl, inr, eq_iff, ◌∙◌, sym, inl, Bool-cases, [], arith, ◌==◌, append_cancel_left,
  false, suc, has, show_inj, ◌∷◌, map, show, ◌<◌, Distinct, List, ◌⧺◌, ℕ, String, ◌≡◌,
}

numbered_inj :
    (prefix : String) (a b : ℕ) → (prefix ⧺ "-" ⧺ show a) ≡ (prefix ⧺ "-" ⧺ show b) → a ≡ b
numbered_inj prefix a b h = show_inj a b (
    append_cancel_left "-" (show a) (show b)
      (append_cancel_left prefix ("-" ⧺ show a) ("-" ⧺ show b) h))

fresh_number :
    (prefix : String) (n k : ℕ) (ids : List String)
    → n < k
    → NumberedFrom prefix k ids
    → has ids (prefix ⧺ "-" ⧺ show n) ≡ false
fresh_number prefix n k [] lt h = refl
fresh_number prefix n k (id ∷ ids) lt h =
    ground (arith, fresh_number prefix n (suc k) ids (omega arith) h.1, differ)
  where
    differ : (id == (prefix ⧺ "-" ⧺ show n)) ≡ false
    differ = elim (Bool-cases (id == (prefix ⧺ "-" ⧺ show n))) [
      | inl e ↦
          let same = numbered_inj prefix k n (sym h.0 ∙ (eq_iff id (prefix ⧺ "-" ⧺ show n)).0 e) in
          absurd (omega arith)
      | inr e ↦ e
    ]

NumberedFrom-Distinct :
    (prefix : String) (k : ℕ) (ids : List String) → NumberedFrom prefix k ids → Distinct ids
NumberedFrom-Distinct prefix k [] h = tt
NumberedFrom-Distinct prefix k (id ∷ ids) h = (
  rw h.0 (fresh_number prefix k (suc k) ids (omega arith) h.1),
  NumberedFrom-Distinct prefix (suc k) ids h.1,
)

-- No two entries of the audit log of a well-formed workspace have the same id.
pub audit_log-Distinct : (w : Workspace) → WorkspaceOk w → Distinct (map (λ x. x.id) w.audit_log)
audit_log-Distinct w h =
    NumberedFrom-Distinct "audit" 1 (map (λ x. x.id) w.audit_log) h.body.content.audit

-- No two entries of the audit log have the same id, in any workspace that the controls can bring about from
-- a new one, if the snapshots restored from outside are well formed.
pub Reachable-audit_log-Distinct :
    {w : Workspace} → Reachable w → Distinct (map (λ x. x.id) w.audit_log)
Reachable-audit_log-Distinct {w = w} r = audit_log-Distinct w (Reachable-WorkspaceOk r).0

abbrev pub entity_ids : List ManualEntity → List String
entity_ids = map (λ e. e.id)

filter_absent :
    (id : String) (es : List ManualEntity)
    → has (entity_ids es) id ≡ false
    → filter (λ e. not (e.id == id)) es ≡ es
filter_absent id [] h = refl
filter_absent id (e ∷ es) h = elim (Bool-cases (e.id == id)) [
  | inl t ↦ absurd (ground arith)
  | inr f ↦ rw f (ap (e ∷◌) (filter_absent id es (ground arith)))
]

last-number :
    (k : ℕ) (es : List ManualEntity) (l : ManualEntity)
    → NumberedFrom "manual-entity" k (entity_ids (es ++ l ∷ []))
    → l.id ≡ "manual-entity" ⧺ "-" ⧺ show (length es + k)
last-number k [] l h = h.0 ∙ ap (λ n. "manual-entity" ⧺ "-" ⧺ show n) (omega arith)
last-number k (e ∷ es) l h =
    last-number (suc k) es l h.1 ∙ ap (λ n. "manual-entity" ⧺ "-" ⧺ show n) (omega arith)

-- When the entities of a workspace are numbered in order and there are at least two, then the removal of the
-- first and the addition of another one give the new entity the id of the last: two entities have it.
pub add_manual_entity-repeats_id :
    (w : Workspace) (e l : ManualEntity) (es : List ManualEntity) (label : String)
    (type : Option String) (x y : Option ℤ) (style : Option String)
    → w.manual_entities ≡ e ∷ (es ++ l ∷ [])
    → NumberedFrom "manual-entity" 1 (entity_ids w.manual_entities)
    → is_empty (clean_text label "") ≡ false
    → entity_ids
        (add_manual_entity (remove_manual_entity w e.id) label type x y style).manual_entities
      ≡ entity_ids (es ++ l ∷ []) ++ l.id ∷ []
unfolding add_manual_entity remove_manual_entity next_id
add_manual_entity-repeats_id w e l es label type x y style entities numbered named =
    let n : NumberedFrom "manual-entity" 1 (entity_ids (e ∷ (es ++ l ∷ []))) =
      subst (λ s. NumberedFrom "manual-entity" 1 (entity_ids s)) entities numbered in
    let absent = (NumberedFrom-Distinct "manual-entity" 1 (entity_ids (e ∷ (es ++ l ∷ []))) n).0 in
    let rest = filter_absent e.id (es ++ l ∷ []) absent in
    let number : length (es ++ l ∷ []) + 1 ≡ length es + 2 =
      omega (arith, length-append es (l ∷ [])) in
    rw (named, entities, eq_refl e.id, rest, map-append, number, last-number 2 es l n.1) refl

-- An entity added without a place is put on the chart, at most 95 down, exactly when there are fewer than
-- twenty entities before it.
pub new_entity-default_place :
    (w : Workspace) (clean : String) (type style : Option String)
    → ((new_entity w clean type none none style).y ≤ℤ pos 95) ↔ (length w.manual_entities < 20)
unfolding clamp_coordinate
new_entity-default_place w clean type style = (λ h. omega arith, λ h. omega arith)

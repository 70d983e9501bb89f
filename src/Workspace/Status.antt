-- ===== src/Workspace/Status.antt =====
-- packages/graph-renderer/chart-workspace.mjs: when `exportBriefingChart` and `exportCasePacket` call a
-- chart ready, and where the path dependencies of a briefing come from.
use network_analytics_predic.Graph.{Relationship, Settings, Source}
use network_analytics_predic.Workspace.Valid.{EdgeOk, EntityOk, IsValid}
use network_analytics_predic.Workspace.State.{Task, ManualEdge, ManualEntity, Content, Workspace}
use network_analytics_predic.Workspace.Export.{
  dependency_of, PathStep, hidden_step, explain_path, step_for, open_tasks, relationship_with,
  Dependency, ExportedEdge, ExportedEntity, export_case_packet, export_edge, export_entity,
  export_briefing_chart, unsupported_claims_of,
}
use network_analytics_predic.Prelude.{
  filter-All, All-filter, All-both, sym, has-unique, subst, Option-cases, All-imp, ◌∷◌, filter, inr,
  eq_iff, none, inl, Bool-cases, false, ap, eqb, has, ◌&&◌, All, Bool, if◌then◌else◌, ℕ, refl, [],
  length-map, length-append, All-map, arith, true, filter_all, unique, ◌==◌, ◌+◌, map, not, ◌↔◌,
  length, String, List, ◌≡◌,
}

not_evidence_entity :
    (r : List String) (e : ManualEntity)
    → EntityOk e
    → not ((export_entity r e).evidence_status == "evidence") ≡ true
not_evidence_entity r e h = rw (h.not_evidence)

not_evidence_edge :
    (r : List String) (e : ManualEdge)
    → EdgeOk e
    → not ((export_edge r e).evidence_status == "evidence") ≡ true
not_evidence_edge r e h = rw (h.not_evidence)

abbrev supported : ExportedEntity → Bool
supported e = not (e.evidence_status == "evidence")

abbrev supported_edge : ExportedEdge → Bool
supported_edge e = not (e.evidence_status == "evidence")

length-unsupported :
    (c : Content) (r : List String)
    → IsValid c
    → length (
        unsupported_claims_of
          (map (export_entity r) c.manual_entities)
          (map (export_edge r) c.manual_edges))
      ≡ length c.manual_entities + length c.manual_edges
unfolding unsupported_claims_of
length-unsupported c r v =
    let entities = filter_all supported _ (
      All-map EntityOk (λ x. supported x ≡ true) (export_entity r) c.manual_entities
        (not_evidence_entity r) v.entities) in
    let edges = filter_all supported_edge _ (
      All-map EdgeOk (λ x. supported_edge x ≡ true) (export_edge r) c.manual_edges
        (not_evidence_edge r) v.edges) in
    simp (entities, edges, length-append, length-map)

abbrev chart_status : ℕ → String
chart_status n = if eqb n 0 then "ready" else "blocked-for-factual-claims"

chart_status-ready : (n : ℕ) → (chart_status n ≡ "ready") ↔ (n ≡ 0)
chart_status-ready n = elim (Bool-cases (eqb n 0)) [
  | inl e ↦ rw (chart_status, e) (λ _. ground arith, λ _. refl)
  | inr e ↦
      rw (chart_status, e) (λ same. cc (ap (λ s. s == "ready") same), λ h. absurd (ground arith))
]

-- In a well-formed workspace the briefing chart is "ready" exactly when the chart has no manual item,
-- entity or edge.
pub export_briefing_chart-ready :
    (w : Workspace) (source : Source) (settings : Settings)
    → IsValid w.content
    → ((export_briefing_chart w source settings).status ≡ "ready")
      ↔ (length w.manual_entities + length w.manual_edges ≡ 0)
unfolding export_briefing_chart
export_briefing_chart-ready w source settings v =
    rw (length-unsupported w.content (unique w.redacted_item_ids) v) (chart_status-ready _)

-- In a well-formed workspace the case packet is "ready-for-review" exactly when the chart has no manual
-- item and every task is done, whatever the review status says.
pub export_case_packet-ready :
    (w : Workspace) (source : Source) (settings : Settings)
    → IsValid w.content
    → ((export_case_packet w source settings).status ≡ "ready-for-review") ↔ (
        (length w.manual_entities + length w.manual_edges ≡ 0)
        × All (λ t. t.status ≡ "done") w.task_states)
unfolding export_case_packet
export_case_packet-ready w source settings v =
    let chart = export_briefing_chart-ready w source settings v in
    let ready =
      packet_status-ready (export_briefing_chart w source settings).status
        (length (open_tasks w)) in
    let tasks = no_open w.task_states in
    (λ e. (chart.0 (ready.0 e).0, tasks.0 (ready.0 e).1), λ h. ready.1 (chart.1 h.0, tasks.1 h.1))
  where
    packet_status-ready :
        (status : String) (n : ℕ)
        → Path String
            (if status == "ready" && eqb n 0 then "ready-for-review" else "needs-review")
            "ready-for-review"
          ↔ ((status ≡ "ready") × (n ≡ 0))
    packet_status-ready status n = elim (Bool-cases (status == "ready" && eqb n 0)) [
      | inl e ↦ rw e (λ _. (ground (arith, eq_iff status "ready"), ground arith), λ _. refl)
      | inr e ↦ rw e (
        λ same. cc (ap (λ s. s == "ready-for-review") same),
        λ h. cc (e, ap (λ s. s == "ready") h.0, h.1),
      )
    ]

    no_open :
        (tasks : List Task)
        → (length (filter (λ task. not (task.status == "done")) tasks) ≡ 0)
          ↔ All (λ t. t.status ≡ "done") tasks
    no_open [] = (λ e. tt, λ e. refl)
    no_open (t ∷ tasks) = elim (Bool-cases (t.status == "done")) [
      | inl e ↦
          rw e
            (λ h. ((eq_iff t.status "done").0 e, (no_open tasks).0 h), λ h. (no_open tasks).1 h.1)
      | inr e ↦
          rw e (λ h. absurd (omega arith), λ h. absurd (ground (arith, eq_iff t.status "done")))
    ]

-- What a briefing may say of a dependency: it is on the path, it is not redacted, and when its
-- relationship is not visible, nothing but its id and that it is hidden.
pub record Disclosed (w : Workspace) (visible : List Relationship) (d : Dependency) : Type 0 where
  pub not_redacted : has w.redacted_item_ids d.id ≡ false
  pub on_path : has w.path_relationship_ids d.id ≡ true
  pub hidden :
      relationship_with d.id visible ≡ none
      → (d.label ≡ d.id)
        × (d.confidence ≡ none)
        × (d.source ≡ "Relationship is not visible in the current authorized projection")

step_for-hidden :
    (source : Source) (visible : List Relationship) (id : String)
    → relationship_with id visible ≡ none
    → step_for source visible id ≡ hidden_step id
step_for-hidden source visible id e = rw (e, step_for)

step_for-id :
    (source : Source) (visible : List Relationship) (id : String)
    → (step_for source visible id).id ≡ id
step_for-id source visible id = elim (Option-cases (relationship_with id visible)) [
  | inl e ↦ rw (e, step_for)
  | inr (r, e) ↦ rw (e, step_for)
]

has_self : (ids : List String) → All (λ id. has ids id ≡ true) ids
has_self [] = tt
has_self (x ∷ ids) =
    (ground (arith, eq_iff x x), All-imp _ _ ids (λ a h. ground arith) (has_self ids))

disclose :
    (w : Workspace) (source : Source) (visible : List Relationship) (id : String)
    → has w.path_relationship_ids id ≡ true
    → not (has (unique w.redacted_item_ids) (step_for source visible id).id) ≡ true
    → Disclosed w visible (dependency_of (step_for source visible id))
disclose w source visible id known shown =
    let same = step_for-id source visible id in
    record {
      not_redacted = rw same (ground (arith, has-unique w.redacted_item_ids id, rw same at shown));
      on_path = rw same known;
      hidden = λ none_visible.
          rw (step_for-hidden source visible id (rw same at none_visible)) (refl, refl, refl);
    }

-- Every path dependency of a briefing chart is on the workspace's path and not redacted, and where its
-- relationship is not visible under the settings, the dependency shows only its id and the text that it
-- is hidden.
pub path_dependencies-Disclosed :
    (w : Workspace) (source : Source) (settings : Settings)
    → All
        (Disclosed w (source.visible_relationships settings))
        (export_briefing_chart w source settings).path_dependencies
unfolding export_briefing_chart explain_path
path_dependencies-Disclosed w source settings =
    let visible = source.visible_relationships settings in
    let redacted = unique w.redacted_item_ids in
    let steps = map (step_for source visible) w.path_relationship_ids in
    let open_step : PathStep → Type 0 = λ s.
      (id : String) × (s ≡ step_for source visible id) × (has w.path_relationship_ids id ≡ true) in
    let known : All open_step steps =
      All-map (λ id. has w.path_relationship_ids id ≡ true) open_step (step_for source visible)
        w.path_relationship_ids (λ id h. (id, refl, h)) (has_self w.path_relationship_ids) in
    All-map (λ s. open_step s × (not (has redacted s.id) ≡ true)) (Disclosed w visible)
      dependency_of (filter (λ s. not (has redacted s.id)) steps)
      (λ s h.
        let (id, same, on_path) = h.0 in
        subst (λ t. Disclosed w visible (dependency_of t)) (sym same)
          (disclose w source visible id on_path
            (subst (λ t. not (has redacted t.id) ≡ true) same h.1)))
      (All-both open_step (λ s. not (has redacted s.id) ≡ true)
        (filter (λ s. not (has redacted s.id)) steps)
        (All-filter open_step (λ s. not (has redacted s.id)) steps known)
        (filter-All (λ s. not (has redacted s.id)) steps))

-- ===== src/Copilot/Blocked.antt =====
-- What is saved as a note: the drafts that pass the red-team review, and no answer.
use network_analytics_predic.Copilot.Policy.{ai_audit, classify_prompt}
use network_analytics_predic.Copilot.Evidence.{
  Retrieval, Question, ReportText, retrieve_graph_evidence,
}
use network_analytics_predic.Copilot.Answer.{
  evidence_for, GraphAnswer, answer_graph_question, answer_of, answer_text, review_aid, Support,
  given_answer, refused_answer, question_of,
}
use network_analytics_predic.Copilot.Review.{
  Draft, check_cited_factual_claims, draft_text, has_citation, is_certain, is_factual, is_hedged,
  overclaims, prepare_assistant_note, red_team_review, review_checks, sentences_of,
}
use network_analytics_predic.Timeline.Rows.{SemanticEdge, semantic_rows}
use network_analytics_predic.Graph.{Settings, Source}
use network_analytics_predic.Prelude.{
  subst, get_or, ap, ◌⧺◌, includes-lower_append_front, includes-lower_append, messages-none_of,
  Bool-cases, Option-cases, includes, messages-none, arith, refl, All, if◌then◌else◌, not, filter,
  ◌<◌, ◌↔◌, Option, length, lower, ◌≡◌, Bool, List, String, ℕ, true, false, none, some, [], ◌∷◌,
  inl, inr,
}

-- What the review asks of a text.
pub record Sober (words : String) (citation_ids : List String) : Type 0 where
  pub no_accusation : overclaims (lower words) ≡ false
  pub no_certainty : is_certain (lower words) ≡ false
  pub hedged : is_hedged (lower words) ≡ true
  pub with_citations : 0 < length citation_ids
  pub supported :
      All (λ s. is_factual s ≡ true → has_citation citation_ids s ≡ true) (sentences_of words)

filters-none :
    {A : Type 0} (p q : A → Bool) (xs : List A)
    → length (filter (λ x. not (q x)) (filter p xs)) ≡ 0 ↔ All (λ x. p x ≡ true → q x ≡ true) xs
filters-none p q [] = (λ h. tt, λ h. refl)
filters-none p q (x ∷ xs) =
    let rest = filters-none p q xs in
    elim (Bool-cases (p x)) [
      | inr e ↦ rw e (λ h. (λ k. absurd (cc k), rest.0 h), λ h. rest.1 h.1)
      | inl e ↦ elim (Bool-cases (q x)) [
        | inl k ↦ rw (e, k) (λ h. (λ _. refl, rest.0 h), λ h. rest.1 h.1)
        | inr k ↦ rw (e, k) (λ h. absurd (omega (arith, h)), λ h. absurd (cc (h.0 refl)))
      ]
    ]

checked_claims :
    (words : String) (citation_ids : List String)
    → ((check_cited_factual_claims words citation_ids).passed ≡ true)
      ↔ All (λ s. is_factual s ≡ true → has_citation citation_ids s ≡ true) (sentences_of words)
unfolding check_cited_factual_claims
checked_claims words citation_ids =
    let both = filters-none is_factual (has_citation citation_ids) (sentences_of words) in
    (λ h. both.0 (ground (arith, h)), λ h. ground (arith, both.1 h))

red_team_review-Sober :
    (words : String) (citation_ids : List String)
    → ((red_team_review words citation_ids).passed ≡ true) ↔ Sober words citation_ids
unfolding red_team_review review_checks
red_team_review-Sober words citation_ids = (
  λ h.
      let fails = messages-none (review_checks words citation_ids) (ground (arith, h)) in
      record {
        no_accusation = fails.0;
        no_certainty = fails.1.0;
        hedged = ground (arith, fails.1.1.1.0);
        with_citations = ground (arith, fails.1.1.0);
        supported = (checked_claims words citation_ids).0 (ground (arith, fails.1.1.1.1.0));
      },
  λ s.
      let checked = (checked_claims words citation_ids).1 s.supported in
      let none_of = messages-none_of (review_checks words citation_ids) (
        s.no_accusation,
        (
          s.no_certainty,
          (ground (arith, s.with_citations), (rw s.hedged refl, (rw checked refl, tt))),
        ),
      ) in
      ground (arith, none_of),
)

-- A draft may be saved exactly when its text has no word of accusation and none of certainty, speaks of
-- uncertainty or review, has a citation, and cites one in each sentence that states a fact. The audit records
-- the decision, the ids and whether it was saved.
pub prepare_assistant_note-allowed :
    (hex : ℕ → String) (draft : Draft) (citation_ids : List String)
    → let note = prepare_assistant_note hex draft citation_ids in
      ((note.allowed ≡ true) ↔ Sober (draft_text draft) citation_ids)
      × (note.audit.saved ≡ note.allowed)
      × (note.audit.policy_decision ≡ (if note.allowed then "allowed" else "refused"))
      × (note.audit.retrieved_source_ids ≡ citation_ids)
unfolding prepare_assistant_note ai_audit
prepare_assistant_note-allowed hex draft citation_ids =
    (red_team_review-Sober (draft_text draft) citation_ids, refl, refl, refl)

accuses_anyway :
    (words : String) → includes (lower words) "criminal" ≡ true → overclaims (lower words) ≡ true
unfolding overclaims
accuses_anyway words h = ground (arith, h)

review_aid_accuses : includes (lower review_aid) "criminal" ≡ true
unfolding includes lower
review_aid_accuses = refl

answer_text-overclaims :
    (evidence : List Support) → overclaims (lower (answer_text evidence)) ≡ true
unfolding answer_text
answer_text-overclaims evidence =
    let skip : (s t : String)
        → includes (lower t) "criminal" ≡ true
        → includes (lower (s ⧺ t)) "criminal" ≡ true =
      λ s t. includes-lower_append s t "criminal" in
    accuses_anyway _ (
      skip _ _ (
        skip _ _ (
          skip _ _ (
            skip _ _ (
              skip _ _ (
                skip _ _
                  (includes-lower_append_front review_aid _ "criminal" review_aid_accuses)))))))

abbrev pub draft_of_answer : GraphAnswer → Draft
draft_of_answer answer = record {
  text = none;
  answer = some answer.answer;
  prompt = some answer.audit.prompt;
}

module _ (hex : ℕ → String) (citation_ids : List String) where
  not-Sober :
      (draft : Draft)
      → ¬ Sober (draft_text draft) citation_ids
      → (prepare_assistant_note hex draft citation_ids).allowed ≡ false
  not-Sober draft h = elim (Bool-cases (prepare_assistant_note hex draft citation_ids).allowed) [
    | inl e ↦ absurd (h ((prepare_assistant_note-allowed hex draft citation_ids).0.0 e))
    | inr e ↦ e
  ]

  answer_of-blocked :
      (id_before : String → String → Bool) (q : Question) (rows : List SemanticEdge)
      (retrieval : Retrieval)
      → (prepare_assistant_note hex
          (draft_of_answer (answer_of id_before hex q rows retrieval))
          citation_ids).allowed
        ≡ false
  unfolding answer_of given_answer refused_answer is_hedged lower includes
  answer_of-blocked id_before q rows retrieval =
      not-Sober _ (elim (Bool-cases (classify_prompt q.prompt).allowed) [
        | inl e ↦ rw e (λ s.
            cc (s.no_accusation, answer_text-overclaims (evidence_for id_before rows retrieval)))
        | inr e ↦ rw e (λ s. cc s.hedged)
      ])

  -- No answer to a question can be saved as a note, whatever ids are cited for it.
  pub prepare_assistant_note-answer :
      (id_before : String → String → Bool) (prompt : String) (source : Source) (settings : Settings)
      (report : Option ReportText) (answer : GraphAnswer)
      → answer_graph_question id_before hex prompt source settings report ≡ some answer
      → (prepare_assistant_note hex (draft_of_answer answer) citation_ids).allowed ≡ false
  unfolding answer_graph_question
  prepare_assistant_note-answer id_before prompt source settings report answer h =
      let q = question_of prompt source settings report in
      elim (Option-cases (semantic_rows settings source)) [
        | inl e ↦ absurd (cc (rw (answer_graph_question, e) at h))
        | inr (rows, e) ↦ elim (Option-cases (retrieve_graph_evidence id_before q)) [
          | inl k ↦ absurd (cc (rw (answer_graph_question, e, k) at h))
          | inr (retrieval, k) ↦
              let same : answer_of id_before hex q rows retrieval ≡ answer =
                ap (λ o. get_or o answer) (rw (answer_graph_question, e, k) at h) in
              subst
                (λ a. (prepare_assistant_note hex (draft_of_answer a) citation_ids).allowed ≡ false)
                same (answer_of-blocked id_before q rows retrieval)
        ]
      ]

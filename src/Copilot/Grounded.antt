-- ===== src/Copilot/Grounded.antt =====
-- The answers of the copilot cite visible relationships only.
use network_analytics_predic.Copilot.Policy.{ai_audit, classify_prompt}
use network_analytics_predic.Copilot.Evidence.{
  Question, Ranked, ReportText, RetrievedRow, insert_ranked, outranks, ranked_rows, retrieved_row,
  retrieval_of, retrieve_graph_evidence, row_importance, scored, sort_ranked, top_rows,
}
use network_analytics_predic.Copilot.Answer.{
  Citation, GraphAnswer, Support, answer_graph_question, answer_of, evidence_for, question_of,
  support_of, support_or, unlabeled, refused_answer, given_answer,
}
use network_analytics_predic.Timeline.Rows.{Connected, SemanticEdge, semantic_rows-all}
use network_analytics_predic.Graph.{Relationship, Settings, Source}
use mathlib.Core.List.{Memᴰ}
use mathlib.Core.Option
use network_analytics_predic.Prelude.{
  Bool-cases, ◌⊎◌, Option, All-take, All_of_map, get_or, if_keeps, length-take, refl, ◌∙◌,
  length-map, All_self, suc, ap, sym, arith, subst, All-map, min, length, map, All, Bool, ℕ, List,
  String, ◌≡◌, true, false, none, some, [], ◌∷◌, inl, inr,
}

abbrev pub citation_of : Relationship → Citation
citation_of r = record {
  id = r.id;
  source = r.source;
  event_time = r.event_time;
  known_at = r.known_at;
}

abbrev pub Cites : List Relationship → Citation → Type 0
Cites visible c = (r : Relationship) × Memᴰ r visible × (c ≡ citation_of r)

pub record Grounded (visible : List Relationship) (a : GraphAnswer) : Type 0 where
  pub given : a.refused ≡ false
  pub cites : All (Cites visible) a.citations
  pub count : length a.citations ≡ min 5 (length visible)
  pub audited : a.audit.retrieved_source_ids ≡ map (λ c. c.id) a.citations
  pub decided : a.audit.policy_decision ≡ "allowed"

pub record Refused (a : GraphAnswer) : Type 0 where
  pub refused : a.refused ≡ true
  pub silent : a.answer ≡ ""
  pub uncited : a.citations ≡ []
  pub audited : a.audit.retrieved_source_ids ≡ []
  pub decided : a.audit.policy_decision ≡ "refused"

module _ (id_before : String → String → Bool) where
  insert_ranked-All {κ} :
      (P : Ranked → Type κ) (a : Ranked) (ranked : List Ranked)
      → P a
      → All P ranked
      → All P (insert_ranked id_before a ranked)
  unfolding insert_ranked
  insert_ranked-All P a [] p h = (p, tt)
  insert_ranked-All P a (b ∷ ranked) p h =
      if_keeps (All P) (outranks id_before b a) _ _ (h.0, insert_ranked-All P a ranked p h.1) (p, h)

  sort_ranked-All {κ} :
      (P : Ranked → Type κ) (ranked : List Ranked)
      → All P ranked
      → All P (sort_ranked id_before ranked)
  unfolding sort_ranked
  sort_ranked-All P [] h = tt
  sort_ranked-All P (a ∷ ranked) h =
      insert_ranked-All P a (sort_ranked id_before ranked) h.0 (sort_ranked-All P ranked h.1)

  length-insert_ranked :
      (a : Ranked) (ranked : List Ranked)
      → length (insert_ranked id_before a ranked) ≡ suc (length ranked)
  unfolding insert_ranked
  length-insert_ranked a [] = refl
  length-insert_ranked a (b ∷ ranked) =
      if_keeps (λ (rs : List Ranked). length rs ≡ suc (suc (length ranked)))
        (outranks id_before b a) _ _ (ap suc (length-insert_ranked a ranked)) refl

  length-sort_ranked :
      (ranked : List Ranked) → length (sort_ranked id_before ranked) ≡ length ranked
  unfolding sort_ranked
  length-sort_ranked [] = refl
  length-sort_ranked (a ∷ ranked) =
      length-insert_ranked a (sort_ranked id_before ranked) ∙ ap suc (length-sort_ranked ranked)

support_or-All {κ} :
    (P : Support → Type κ) (top : List Support) (rows : List RetrievedRow)
    → All P top
    → All P (map support_of rows)
    → All P (support_or top rows)
support_or-All P top [] t h = t
support_or-All P top (row ∷ rows) t h = h

length-support_or :
    (top : List Support) (rows : List RetrievedRow) (n : ℕ)
    → length top ≡ min 4 n
    → length rows ≡ min 5 n
    → length (support_or top rows) ≡ min 5 n
length-support_or top [] n t h = omega (arith, t, h)
length-support_or top (row ∷ rows) n t h = ap suc (length-map support_of rows) ∙ h

ids_of_citations :
    (evidence : List Support)
    → map (λ s. s.citation.id) evidence ≡ map (λ c. c.id) (map (λ s. s.citation) evidence)
ids_of_citations [] = refl
ids_of_citations (s ∷ evidence) = ap (s.citation.id ∷◌) (ids_of_citations evidence)

-- The row is of a visible relationship.
abbrev Shown : List Relationship → Ranked → Type 0
Shown visible ranked = Memᴰ ranked.row.relationship visible

module _ (id_before : String → String → Bool) (q : Question) (visible : List Relationship)
    (rows : List SemanticEdge) where
  rows-Shown :
      (score : SemanticEdge → ℕ)
      → map (λ row. row.relationship) rows ≡ visible
      → All (Shown visible) (map (λ row. record { row = row; score = score row }) rows)
  rows-Shown score same =
      All-map (λ row. Memᴰ row.relationship visible) (Shown visible) _ rows (λ row m. m)
        (All_of_map (λ r. Memᴰ r visible) (λ row. Memᴰ row.relationship visible)
          (λ row. row.relationship) rows (λ row m. m)
          (subst (All (λ r. Memᴰ r visible)) (sym same) (All_self visible)))

  evidence_for-Cites :
      map (λ row. row.relationship) rows ≡ visible
      → All
          (λ s. Cites visible s.citation)
          (evidence_for id_before rows (retrieval_of id_before q rows))
  unfolding evidence_for top_rows ranked_rows retrieval_of scored
  evidence_for-Cites same =
      let best = get_or q.limit 5 in
      support_or-All (λ s. Cites visible s.citation) _ _
        (All-map (Shown visible) (λ s. Cites visible s.citation) unlabeled _
          (λ r m. (r.row.relationship, m, refl))
          (All-take (Shown visible) 4 _
            (sort_ranked-All id_before (Shown visible) _ (rows-Shown row_importance same))))
        (All-map (λ row. Cites visible (support_of row).citation) (λ s. Cites visible s.citation)
          support_of _ (λ row c. c)
          (All-map (Shown visible) (λ row. Cites visible (support_of row).citation) retrieved_row _
            (λ r m. (r.row.relationship, m, refl))
            (All-take (Shown visible) best _
              (sort_ranked-All id_before (Shown visible) _ (rows-Shown _ same)))))

  length-evidence_for :
      q.limit ≡ none
      → map (λ row. row.relationship) rows ≡ visible
      → length (evidence_for id_before rows (retrieval_of id_before q rows))
        ≡ min 5 (length visible)
  unfolding evidence_for top_rows ranked_rows retrieval_of scored
  length-evidence_for unlimited same =
      let size : length rows ≡ length visible = sym (length-map _ rows) ∙ ap length same in
      length-support_or _ _ (length visible)
        (length-map _ _
          ∙ length-take 4 _
          ∙ ap (min 4) (length-sort_ranked id_before _ ∙ length-map _ rows ∙ size))
        (length-map _ _
          ∙ length-take _ _
          ∙ ap (λ o. min (get_or o 5) (length (sort_ranked id_before (map (scored q.prompt) rows))))
              unlimited
          ∙ ap (min 5) (length-sort_ranked id_before _ ∙ length-map _ rows ∙ size))

module _ (id_before : String → String → Bool) (hex : ℕ → String) (prompt : String) (source : Source)
    (settings : Settings) (report : Option ReportText) where
  abbrev visible : List Relationship
  visible = source.visible_relationships settings

  abbrev question : Question
  question = question_of prompt source settings report

  answer_of-Grounded :
      (rows : List SemanticEdge)
      → map (λ row. row.relationship) rows ≡ visible
      → let answer = answer_of id_before hex question rows (retrieval_of id_before question rows) in
        (((classify_prompt prompt).allowed ≡ true) × Grounded visible answer)
        ⊎ (((classify_prompt prompt).allowed ≡ false) × Refused answer)
  unfolding answer_of given_answer refused_answer ai_audit
  answer_of-Grounded rows same = elim (Bool-cases (classify_prompt prompt).allowed) [
    | inl e ↦ inl (
      e,
      rw e (record {
        given = refl;
        cites =
            All-map (λ s. Cites visible s.citation) (Cites visible) (λ s. s.citation) _ (λ s c. c)
              (evidence_for-Cites id_before question visible rows same);
        count = length-map _ _ ∙ length-evidence_for id_before question visible rows refl same;
        audited = ids_of_citations _;
        decided = refl;
      }),
    )
    | inr e ↦ inr (
      e,
      rw e (record {
        refused = refl;
        silent = refl;
        uncited = refl;
        audited = refl;
        decided = refl;
      }),
    )
  ]

  -- Where both ends of each visible relationship are nodes, a question has an answer. If the policy allows the prompt,
  -- the answer cites visible relationships only, five or as many as there are, and its audit lists the citations;
  -- otherwise there is neither a text nor a citation, and the audit says that it was refused.
  pub answer_graph_question-Grounded :
      All (Connected source) (source.visible_relationships settings)
      → (answer : GraphAnswer) × (answer_graph_question id_before hex prompt source settings report
          ≡ some answer)
        × ((((classify_prompt prompt).allowed ≡ true)
              × Grounded (source.visible_relationships settings) answer)
            ⊎ (((classify_prompt prompt).allowed ≡ false) × Refused answer))
  unfolding answer_graph_question
  answer_graph_question-Grounded connected =
      let (rows, ends, same) = semantic_rows-all settings source connected in
      let retrieved : retrieve_graph_evidence id_before question
          ≡ some (retrieval_of id_before question rows) =
        unfold retrieve_graph_evidence in ap (Option.map (retrieval_of id_before question)) ends in
      (
        answer_of id_before hex question rows (retrieval_of id_before question rows),
        rw (answer_graph_question, ends, retrieved) refl,
        answer_of-Grounded rows same,
      )

-- ===== src/Assistant/Allowed.antt =====
-- packages/ai-assistant/production-readiness.mjs: when a request may go to an external model.
use network_analytics_predic.Assistant.Retrieval.{isolate_retrieved_sources, RetrievedSource}
use network_analytics_predic.Assistant.Provider.{
  is_approved, privacy_review_ai_action, ProviderConfig, validate_external_model_provider_request,
}
use network_analytics_predic.Prelude.{
  ◌∙◌, not_counted, eqb_iff, length-when, length-append, ◌+◌, count_of, ◌++◌, when, map, arith, ltb,
  ℕ, eq_iff, ap, ◌==◌, get_or, not, Option, length, false, ◌↔◌, true, ◌≡◌, String, List, Bool, none,
  some, refl,
}

-- A request is allowed exactly when the provider is approved and keeps its secrets off the client, the retrieval was
-- authorized, no source was quarantined for an injection pattern, and the privacy review passed.
pub external_request-allowed :
    (config : ProviderConfig) (authorized : Bool) (sources : List RetrievedSource) (prompt : String)
    → let gate = validate_external_model_provider_request config authorized sources prompt in
      (gate.allowed ≡ true) ↔ (
        (config.status ≡ some "approved")
        × (config.secrets_in_client ≡ false)
        × (authorized ≡ true)
        × (length gate.isolated.quarantined_sources ≡ 0)
        × (gate.privacy.passed ≡ true))
unfolding validate_external_model_provider_request
external_request-allowed config authorized sources prompt =
    let isolated = isolate_retrieved_sources sources in
    let privacy =
      privacy_review_ai_action prompt "" (map (λ s. s.retrieved) isolated.allowed_sources) in
    let held = ltb 0 (length isolated.quarantined_sources) in
    let failures =
      when (not (is_approved config)) "provider is not approved"
      ++ when config.secrets_in_client "provider secrets cannot be exposed to client"
      ++ when (not authorized) "retrieval authorization failed"
      ++ when held "retrieved source failed prompt-injection scan"
      ++ when (not privacy.passed) "privacy review failed" in
    let sum : length failures
        ≡ count_of (not (is_approved config))
          + count_of config.secrets_in_client
          + count_of (not authorized)
          + count_of held
          + count_of (not privacy.passed) =
      simp (length-append, length-when) (omega arith) in
    (
      λ h.
          let none_left : length failures ≡ 0 = (eqb_iff (length failures) 0).0 h in
          (
            approved config.status
                (not_counted (not (is_approved config)) (omega (arith, sum, none_left))),
            not_counted config.secrets_in_client (omega (arith, sum, none_left)),
            double (not_counted (not authorized) (omega (arith, sum, none_left))),
            none_held (length isolated.quarantined_sources)
                (not_counted held (omega (arith, sum, none_left))),
            double (not_counted (not privacy.passed) (omega (arith, sum, none_left))),
          ),
      λ h.
          let a : is_approved config ≡ true = rw h.0 refl in
          let q : held ≡ false = rw h.3 refl in
          let none_left : length failures ≡ 0 = sum ∙ rw (a, h.1, h.2, q, h.4) (omega arith) in
          (eqb_iff (length failures) 0).1 none_left,
    )
  where
    double : {b : Bool} → not b ≡ false → b ≡ true
    double {b = true} h = refl
    double {b = false} h = cc h

    approved :
        (status : Option String)
        → not (get_or status "" == "approved") ≡ false
        → status ≡ some "approved"
    approved none h = cc h
    approved (some s) h = ap some ((eq_iff s "approved").0 (double h))

    none_held : (n : ℕ) → ltb 0 n ≡ false → n ≡ 0
    none_held n h = ground arith

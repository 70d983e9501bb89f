-- ===== src/Assistant/Provider.antt =====
-- packages/ai-assistant/production-readiness.mjs: `privacyReviewAiAction` and
-- `validateExternalModelProviderRequest`.
use network_analytics_predic.Assistant.Patterns.{word, Alternative}
use network_analytics_predic.Assistant.Retrieval.{
  flags_in, isolate_retrieved_sources, Isolation, Pattern, RetrievedSource,
}
use network_analytics_predic.Prelude.{
  if◌then◌else◌, ltb, length, ◌++◌, eqb, not, when, map, ◌==◌, get_or, ◌⧺◌, Bool, List, Option,
  String, ◌∷◌, [],
}

abbrev pub words_of : List String → List Alternative
words_of = map word

abbrev pub privacy_patterns : List Pattern
privacy_patterns =
    record {
      source = "\\b(race|religion|ethnicity|nationality|health|disability|sexual orientation)\\b";
      alternatives = words_of (
          "race" ∷ "religion" ∷ "ethnicity" ∷ "nationality" ∷ "health" ∷ "disability"
          ∷ "sexual orientation" ∷ []);
    }
    ∷ record {
      source = "\\b(ssn|social security|passport|credential|password|api key|secret)\\b";
      alternatives = words_of (
          "ssn" ∷ "social security" ∷ "passport" ∷ "credential" ∷ "password" ∷ "api key" ∷ "secret"
          ∷ []);
    }
    ∷ record {
      source = "\\b(arrest|detain|raid|freeze assets|surveil)\\b";
      alternatives = words_of ("arrest" ∷ "detain" ∷ "raid" ∷ "freeze assets" ∷ "surveil" ∷ []);
    }
    ∷ []

pub record Review : Type 0 where
  pub passed : Bool
  pub flags : List String
  pub decision : String

-- `[…].join("\n")`
abbrev pub lines : List String → String
lines [] = ""
lines (x ∷ []) = x
lines (x ∷ y ∷ rest) = x ⧺ "\n" ⧺ lines (y ∷ rest)

unfoldable pub privacy_review_ai_action : String → String → List RetrievedSource → Review
privacy_review_ai_action prompt output sources =
    let combined =
      lines (prompt ∷ output ∷ map (λ s. get_or s.source "" ⧺ " " ⧺ get_or s.text "") sources) in
    let flags = flags_in privacy_patterns combined in
    record {
      passed = eqb (length flags) 0;
      flags = flags;
      decision =
          if eqb (length flags) 0
          then "privacy-review-clear-for-training"
          else "requires-privacy-review";
    }

pub record ProviderConfig : Type 0 where
  pub status : Option String
  pub secrets_in_client : Bool
  pub provider : Option String

pub record ProviderGate : Type 0 where
  pub allowed : Bool
  pub failures : List String
  pub isolated : Isolation
  pub privacy : Review
  pub provider : String

abbrev pub is_approved : ProviderConfig → Bool
is_approved config = get_or config.status "" == "approved"

-- `authorized` is `retrievalAuthorization.authorized === true`.
unfoldable pub validate_external_model_provider_request :
    ProviderConfig → Bool → List RetrievedSource → String → ProviderGate
validate_external_model_provider_request config authorized sources prompt =
    let isolated = isolate_retrieved_sources sources in
    let privacy =
      privacy_review_ai_action prompt "" (map (λ s. s.retrieved) isolated.allowed_sources) in
    let failures =
      when (not (is_approved config)) "provider is not approved"
      ++ when config.secrets_in_client "provider secrets cannot be exposed to client"
      ++ when (not authorized) "retrieval authorization failed"
      ++ when (ltb 0 (length isolated.quarantined_sources))
          "retrieved source failed prompt-injection scan"
      ++ when (not privacy.passed) "privacy review failed" in
    record {
      allowed = eqb (length failures) 0;
      failures = failures;
      isolated = isolated;
      privacy = privacy;
      provider = get_or config.provider "unconfigured";
    }

-- ===== src/Assistant/Retrieval.antt =====
-- packages/ai-assistant/production-readiness.mjs: `detectPromptInjection`, `isolateRetrievedSources` and
-- `authorizeServerRetrievalRequest`.
use network_analytics_predic.Assistant.Patterns.{alternative_matches, part_then, Alternative, part}
use mathlib.Core.List.{Memᴰ}
use network_analytics_predic.Prelude.{
  inr, inl, Bool-cases, length-when, length-append, count_of, when, filter-Mem, All-imp, length-map,
  arith, lower, ◌||◌, false, filter, if◌then◌else◌, not, ◌+◌, ◌≡◌, any, eqb, has, is_empty, length,
  map, true, ◌⧺◌, All, Bool, List, Option, String, get_or, ◌++◌, ◌∷◌, [], none, some, refl,
}

pub record Pattern : Type 0 where
  pub source : String
  pub alternatives : List Alternative

abbrev pub injection_patterns : List Pattern
injection_patterns =
    record {
      source = "ignore (all )?(previous|prior|above) instructions";
      alternatives =
          part "ignore previous instructions"
          ∷ part "ignore prior instructions"
          ∷ part "ignore above instructions"
          ∷ part "ignore all previous instructions"
          ∷ part "ignore all prior instructions"
          ∷ part "ignore all above instructions"
          ∷ [];
    }
    ∷ record {
      source = "reveal|print|exfiltrate.*(system|developer|prompt|secret)";
      alternatives =
          part "reveal"
          ∷ part "print"
          ∷ part_then "exfiltrate" ("system" ∷ "developer" ∷ "prompt" ∷ "secret" ∷ [])
          ∷ [];
    }
    ∷ record {
      source = "hidden (node|edge|relationship|source|neighbor)";
      alternatives =
          part "hidden node"
          ∷ part "hidden edge"
          ∷ part "hidden relationship"
          ∷ part "hidden source"
          ∷ part "hidden neighbor"
          ∷ [];
    }
    ∷ record {
      source = "bypass|jailbreak|override.*policy";
      alternatives = part "bypass" ∷ part "jailbreak" ∷ part_then "override" ("policy" ∷ []) ∷ [];
    }
    ∷ record {
      source = "tool output|developer message|system message";
      alternatives = part "tool output" ∷ part "developer message" ∷ part "system message" ∷ [];
    }
    ∷ []

-- `pattern.test(text)` with the flag `i`
unfoldable pub matches : String → Pattern → Bool
matches words p = any (alternative_matches (lower words)) p.alternatives

abbrev pub flags_in : List Pattern → String → List String
flags_in patterns words = map (λ p. p.source) (filter (matches words) patterns)

pub record Scan : Type 0 where
  pub passed : Bool
  pub flags : List String
  pub action : String

unfoldable pub detect_prompt_injection : String → Scan
detect_prompt_injection content =
    let flags = flags_in injection_patterns content in
    record {
      passed = eqb (length flags) 0;
      flags = flags;
      action = if eqb (length flags) 0 then "allow-source" else "quarantine-source";
    }

pub record RetrievedSource : Type 0 where
  pub id : String
  pub text : Option String
  pub source : Option String
  pub caveat : Option String

pub record ScannedSource : Type 0 where
  pub retrieved : RetrievedSource
  pub injection_scan : Scan

abbrev pub scan_source : RetrievedSource → ScannedSource
scan_source s = record {
  retrieved = s;
  injection_scan =
      detect_prompt_injection
        (get_or s.text "" ⧺ " " ⧺ get_or s.source "" ⧺ " " ⧺ get_or s.caveat "");
}

pub record Isolation : Type 0 where
  pub allowed_sources : List ScannedSource
  pub quarantined_sources : List ScannedSource

unfoldable pub isolate_retrieved_sources : List RetrievedSource → Isolation
isolate_retrieved_sources sources =
    let scanned = map scan_source sources in
    record {
      allowed_sources = filter (λ s. s.injection_scan.passed) scanned;
      quarantined_sources = filter (λ s. not s.injection_scan.passed) scanned;
    }

-- `requestedSourceIds` is none where it is no array.
pub record Request : Type 0 where
  pub actor_id : Option String
  pub purpose : Option String
  pub projection_id : Option String
  pub requested_source_ids : Option (List String)
  pub allowed_source_ids : List String

pub record Authorization : Type 0 where
  pub authorized : Bool
  pub failures : List String
  pub projection_id : Option String
  pub returned_source_ids : List String

-- `!value` of a text that may be absent
abbrev pub is_missing : Option String → Bool
is_missing o = is_empty (get_or o "")

abbrev pub is_no_array : Option (List String) → Bool
is_no_array none = true
is_no_array (some _) = false

abbrev pub outside_projection : Request → Bool
outside_projection r =
    any (λ id. not (has r.allowed_source_ids id)) (get_or r.requested_source_ids [])

unfoldable pub authorize_server_retrieval_request : Request → Authorization
authorize_server_retrieval_request r =
    let failures =
      when (is_missing r.actor_id) "actor is required"
      ++ when (is_missing r.purpose) "purpose is required"
      ++ when (is_missing r.projection_id) "authorized projection is required"
      ++ when (is_no_array r.requested_source_ids) "requested source ids are required"
      ++ when (outside_projection r) "requested source outside authorized projection" in
    record {
      authorized = eqb (length failures) 0;
      failures = failures;
      projection_id = r.projection_id;
      returned_source_ids =
          if eqb (length failures) 0 then get_or r.requested_source_ids [] else [];
    }

no_outside :
    (allowed ids : List String)
    → any (λ id. not (has allowed id)) ids ≡ false
    → All (λ id. has allowed id ≡ true) ids
no_outside allowed [] h = tt
no_outside allowed (id ∷ ids) h = (ground arith, no_outside allowed ids (ground arith))

-- A retrieval returns only sources that the projection allows, and none at all unless the request names an actor,
-- a purpose and a projection.
pub authorize-returned :
    (r : Request)
    → let a = authorize_server_retrieval_request r in
      All (λ id. has r.allowed_source_ids id ≡ true) a.returned_source_ids
      × ((is_missing r.actor_id || is_missing r.purpose || is_missing r.projection_id) ≡ true
          → (a.authorized ≡ false) × (a.returned_source_ids ≡ []))
unfolding authorize_server_retrieval_request
authorize-returned r =
    let failures =
      when (is_missing r.actor_id) "actor is required"
      ++ when (is_missing r.purpose) "purpose is required"
      ++ when (is_missing r.projection_id) "authorized projection is required"
      ++ when (is_no_array r.requested_source_ids) "requested source ids are required"
      ++ when (outside_projection r) "requested source outside authorized projection" in
    let sum : length failures
        ≡ count_of (is_missing r.actor_id)
          + count_of (is_missing r.purpose)
          + count_of (is_missing r.projection_id)
          + count_of (is_no_array r.requested_source_ids)
          + count_of (outside_projection r) =
      simp (length-append, length-when) (omega arith) in
    elim (Bool-cases (eqb (length failures) 0)) [
      | inl e ↦
          let inside : outside_projection r ≡ false = ground (arith, sum, e) in
          rw e (
            no_outside r.allowed_source_ids (get_or r.requested_source_ids []) inside,
            λ h. absurd (ground (arith, sum, e, h)),
          )
      | inr e ↦ rw e (tt, λ h. (refl, refl))
    ]

length-partition {ℓ} :
    {A : Type ℓ} (p : A → Bool) (xs : List A)
    → length (filter p xs) + length (filter (λ x. not (p x)) xs) ≡ length xs
length-partition p [] = refl
length-partition p (x ∷ xs) = ground (arith, length-partition p xs)

-- The isolation sorts each source into one of its two lists, by the result of its scan.
pub isolate_retrieved_sources-partition :
    (sources : List RetrievedSource)
    → let i = isolate_retrieved_sources sources in
      (length i.allowed_sources + length i.quarantined_sources ≡ length sources)
      × All
          (λ s. (s.injection_scan.passed ≡ true) × Memᴰ s (map scan_source sources))
          i.allowed_sources
      × All
          (λ s. (s.injection_scan.passed ≡ false) × Memᴰ s (map scan_source sources))
          i.quarantined_sources
unfolding isolate_retrieved_sources
isolate_retrieved_sources-partition sources =
    let scanned = map scan_source sources in
    let ok : ScannedSource → Bool = λ s. s.injection_scan.passed in
    (
      omega (arith, length-partition ok scanned, length-map scan_source sources),
      All-imp _ _ (filter ok scanned) (λ s h. (h.1, h.0)) (filter-Mem ok scanned),
      All-imp _ _ (filter (λ s. not (ok s)) scanned) (λ s h. (ground arith, h.0))
          (filter-Mem (λ s. not (ok s)) scanned),
    )

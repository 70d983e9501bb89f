-- ===== src/Assistant/Audit.antt =====
-- packages/ai-assistant/production-readiness.mjs: `stableHash` and `createPersistentAiAuditRecord`. What
-- `JSON.stringify` writes is a parameter. The hash is a signed 32-bit number, here by its remainder modulo 2 ^ 32.
use Prim.Native.String.{[], ◌∷◌}
use Prim.Native.Char.{code}
use network_analytics_predic.Prelude.{
  ltb→le, inr, ltb→lt, inl, ◌/◌, Bool-cases, ◌%◌, ◌-◌, Bool, arith, ltb, ◌+◌, List, get_or,
  if◌then◌else◌, ◌*◌, ◌<◌, ◌≤◌, ◌⧺◌, Option, String, ℕ,
}

abbrev pub wrap : ℕ
wrap = 4294967296

abbrev pub half : ℕ
half = 2147483648

-- `character.charCodeAt(0)`: above the basic plane, the first of two surrogates
abbrev char_code : ℕ → ℕ
char_code c = if ltb c 65536 then c else 55296 + (c - 65536) / 1024

-- `hash = ((hash << 5) - hash + code) | 0` for each character
unfoldable pub hash_from : ℕ → String → ℕ
hash_from hash [] = hash
hash_from hash (c ∷ words) = hash_from ((31 * hash + char_code (code c)) % wrap) words

-- `Math.abs(hash)`
unfoldable pub hash_of : String → ℕ
unfolding hash_from
hash_of words = let hash = hash_from 0 words in if ltb hash half then hash else wrap - hash

-- The actor, the purpose and the audited action; a hash or a field that is not given is none.
pub record Audit : Type 0 where
  pub actor_id : Option String
  pub purpose : Option String
  pub action : Option String
  pub policy_decision : Option String
  pub retrieved_source_ids : List String
  pub model : Option String
  pub config_version : Option String
  pub user_decision : Option String
  pub is_saved : Bool
  pub prompt : Option String
  pub output_hash : Option String
  pub output : Option String

pub record AuditBody : Type 0 where
  pub actor_id : Option String
  pub purpose : Option String
  pub action : Option String
  pub policy_decision : Option String
  pub retrieved_source_ids : List String
  pub model : Option String
  pub config_version : Option String
  pub user_decision : Option String
  pub is_saved : Bool
  pub prompt_hash : String
  pub output_hash : String

pub record AuditRecord : Type 0 where
  pub previous_hash : String
  pub record_hash : String
  pub body : AuditBody

-- `JSON.stringify` of a text, and of an object with a previous hash and a body; the hexadecimal text of a number.
pub record Json : Type 0 where
  pub text_json : String → String
  pub link_json : String → AuditBody → String
  pub hex : ℕ → String

abbrev pub stable_hash : Json → String → String
stable_hash json written = "audit-" ⧺ json.hex (hash_of written)

unfoldable pub create_persistent_ai_audit_record : Json → Option String → Audit → AuditRecord
create_persistent_ai_audit_record json previous_hash audit =
    let previous = get_or previous_hash "genesis" in
    let body : AuditBody = record {
      actor_id = audit.actor_id;
      purpose = audit.purpose;
      action = audit.action;
      policy_decision = audit.policy_decision;
      retrieved_source_ids = audit.retrieved_source_ids;
      model = audit.model;
      config_version = audit.config_version;
      user_decision = audit.user_decision;
      is_saved = audit.is_saved;
      prompt_hash = stable_hash json (json.text_json (get_or audit.prompt ""));
      output_hash =
          get_or audit.output_hash (stable_hash json (json.text_json (get_or audit.output "")));
    } in
    record {
      previous_hash = previous;
      record_hash = stable_hash json (json.link_json previous body);
      body = body;
    }

hash_from-bound : (hash : ℕ) (words : String) → hash < wrap → hash_from hash words < wrap
unfolding hash_from
hash_from-bound hash [] h = h
hash_from-bound hash (c ∷ words) h =
    hash_from-bound ((31 * hash + char_code (code c)) % wrap) words (omega arith)

-- The magnitude of a hash fits in a signed 32-bit number, 2 ^ 31 included.
pub hash_of-bound : (words : String) → hash_of words ≤ half
unfolding hash_of
hash_of-bound words =
    let bound : hash_from 0 words < wrap = hash_from-bound 0 words (omega arith) in
    elim (Bool-cases (ltb (hash_from 0 words) half)) [
      | inl e ↦ rw e (omega (arith, ltb→lt (hash_from 0 words) half e))
      | inr e ↦ rw e (omega (arith, ltb→le (hash_from 0 words) half e, bound))
    ]

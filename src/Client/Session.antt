-- ===== src/Client/Session.antt =====
-- What a login leaves in the storage, and what a logout takes out of it.
use network_analytics_predic.Client.Login.{
  Address, Login, LoginPayload, LoginReply, LoginRequest, Storage, Url, accepted, address, answered,
  denied, failed, get_item, is_valid, logged_in, login_demo, logout_demo, normalize_demo_base_url,
  refused, rejected, remove_item, sent, set_item, stored, unreadable,
}
use network_analytics_predic.Prelude.{
  true, ◌||◌, ◌⧺◌, Option, Bool-cases, refl, is_empty, ◌⊎◌, eq_iff, arith, ◌==◌, get_or, has,
  if◌then◌else◌, Bool, ◌≡◌, String, false, none, some, [], ◌∷◌, inl, inr,
}

get_item-set_item :
    (key other value : String) (storage : Storage)
    → get_item other (set_item key value storage)
      ≡ (if key == other then some value else get_item other storage)
get_item-set_item key other value [] = ground arith
get_item-set_item key other value (e ∷ storage) = ground (
  arith,
  eq_iff key other,
  eq_iff e.key key,
  eq_iff e.key other,
  get_item-set_item key other value storage,
)

get_item-remove_item :
    (key other : String) (storage : Storage)
    → get_item other (remove_item key storage)
      ≡ (if key == other then none else get_item other storage)
get_item-remove_item key other [] = ground arith
get_item-remove_item key other (e ∷ storage) = ground (
  arith,
  eq_iff key other,
  eq_iff e.key key,
  eq_iff e.key other,
  get_item-remove_item key other storage,
)

abbrev pub is_session_key : String → Bool
is_session_key key = has ("nappDemoApiBaseUrl" ∷ "nappDemoToken" ∷ "nappDemoActorId" ∷ []) key

-- The storage holds the session, and is otherwise the one before.
pub record Holds (url : String) (p : LoginPayload) (before after : Storage) : Type 0 where
  pub at : get_item "nappDemoApiBaseUrl" after ≡ some url
  pub token : get_item "nappDemoToken" after ≡ some p.token
  pub actor : get_item "nappDemoActorId" after ≡ some (get_or p.actor_id "")
  pub others :
      (key : String) → (is_session_key key ≡ true) ⊎ (get_item key after ≡ get_item key before)

stored-Holds :
    (url : String) (p : LoginPayload) (storage : Storage)
    → Holds url p storage (stored url p storage)
stored-Holds url p storage = record {
  at = simp get_item-set_item;
  token = simp get_item-set_item;
  actor = simp get_item-set_item;
  others = λ key. elim (Bool-cases (is_session_key key)) [
    | inl e ↦ inl e
    | inr h ↦ inr (
        ground (
          arith,
          h,
          get_item-set_item "nappDemoActorId" key (get_or p.actor_id "")
              (set_item "nappDemoToken" p.token (set_item "nappDemoApiBaseUrl" url storage)),
          get_item-set_item "nappDemoToken" key p.token (set_item "nappDemoApiBaseUrl" url storage),
          get_item-set_item "nappDemoApiBaseUrl" key url storage,
        ))
  ];
}

Address-cases :
    (a : Address)
    → ((message : String) × (a ≡ refused message)) ⊎ ((url : String) × (a ≡ address url))
Address-cases (address url) = inr (url, refl)
Address-cases (refused message) = inl (message, refl)

-- A failed login throws and leaves the storage alone.
abbrev pub Fails : Storage → Login × Storage → Type 0
Fails storage result = (message : String) × (result ≡ (failed message, storage))

-- A login succeeds with an accepted payload of the demo's contract and a token.
pub record Succeeds (url : String) (reply : LoginReply) (storage : Storage)
    (result : Login × Storage) : Type 0 where
  pub payload : LoginPayload
  pub from_reply : reply ≡ accepted payload
  pub contract : payload.contract ≡ "HybridDemoLoginV1"
  pub with_token : is_empty payload.token ≡ false
  pub returned : result.0 ≡ logged_in payload
  pub holds : Holds url payload storage result.1

answered-cases :
    (url : String) (reply : LoginReply) (storage : Storage)
    → Fails storage (answered url reply storage)
      ⊎ Succeeds url reply storage (answered url reply storage)
unfolding answered
answered-cases url (rejected message) storage = inl (message, refl)
answered-cases url (denied status) storage = inl (_, refl)
answered-cases url (unreadable message) storage = inl (message, refl)
answered-cases url (accepted p) storage = elim (Bool-cases (is_valid p)) [
  | inl e ↦ inr (
      rw (answered, e)
        (record {
          payload = p;
          from_reply = refl;
          contract = (eq_iff p.contract "HybridDemoLoginV1").0 (ground (arith, e));
          with_token = ground (arith, e);
          returned = refl;
          holds = stored-Holds url p storage;
        }))
  | inr e ↦ inl ("Demo login response is invalid", rw (answered, e) refl)
]

-- A login throws and leaves the storage as it was; or the base address is accepted, the reply is of the demo's contract
-- with a token, and the storage then holds the normalized address, the token and the actor, with every other key as
-- before. A logout after it takes out the token and the actor and keeps every other key.
pub login_demo-cases :
    (read_url : String → Option Url) (fetch : String → String → String → LoginReply)
    (r : LoginRequest) (storage : Storage)
    → let result = login_demo read_url fetch r storage in
      Fails storage result
      ⊎ ((url : String) × (normalize_demo_base_url read_url r.base_url ≡ address url)
          × Succeeds url (fetch (url ⧺ "/v1/demo/login") r.username r.password) storage result
          × ((key : String)
              → get_item key (logout_demo result.1) ≡ (
                  if "nappDemoActorId" == key || "nappDemoToken" == key
                  then none
                  else get_item key result.1)))
unfolding login_demo sent logout_demo
login_demo-cases read_url fetch r storage =
    let result = login_demo read_url fetch r storage in
    elim (Address-cases (normalize_demo_base_url read_url r.base_url)) [
      | inl (message, e) ↦ inl (message, rw (login_demo, e) refl)
      | inr (url, e) ↦
          let reply = fetch (url ⧺ "/v1/demo/login") r.username r.password in
          elim (answered-cases url reply storage) [
            | inl f ↦ inl (rw (login_demo, e) f)
            | inr s ↦
                let done : Succeeds url reply storage (login_demo read_url fetch r storage) =
                  rw (login_demo, e) s in
                inr (
                  url,
                  e,
                  done,
                  λ key. ground (
                    arith,
                    get_item-remove_item "nappDemoActorId" key
                        (remove_item "nappDemoToken" result.1),
                    get_item-remove_item "nappDemoToken" key result.1,
                  ),
                )
          ]
    ]

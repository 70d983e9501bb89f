-- ===== src/Client/Signed.antt =====
-- Loading the workbench after a login, and after the logout that follows it.
use network_analytics_predic.Client.Loaded.{load_workbench_bootstrap-demo, Throws, FromApi}
use network_analytics_predic.Client.Session.{login_demo-cases, Holds}
use network_analytics_predic.Client.Login.{
  logout_demo, get_item, address, logged_in, normalize_demo_base_url, Url, LoginPayload, LoginReply,
  LoginRequest, login_demo, demo_api_base_url, Storage,
}
use network_analytics_predic.Client.Load.{
  load_workbench_bootstrap, Loader, WorkbenchRequest, Reply, request_of, demo_base_url,
}
use network_analytics_predic.Client.Bootstrap.{StaticFixture}
use network_analytics_predic.Prelude.{
  ◌||◌, ◌==◌, ◌⊎◌, if◌then◌else◌, ◌∙◌, ◌≡◌, ◌⧺◌, Option, String, none, some, refl, Bool, ap, ◌∷◌,
  [], List, ◌++◌, is_empty, false, inl, inr,
}

abbrev pub plain_headers : List (String × String)
plain_headers =
    ("X-Actor-Id", "guided-training-user")
    ∷ ("X-Purpose", "training")
    ∷ ("X-Authorization-Id", "guided-training-session")
    ∷ ("X-Allowed-Fields", "device_signature,precise_location")
    ∷ []

-- The request for the workbench at a demo address, with some more headers.
abbrev pub request_to : String → List (String × String) → WorkbenchRequest
request_to url more = record {
  url = url ⧺ "/v1/cases/harbor-lantern/workbench";
  mode = "cors";
  headers = plain_headers ++ more;
}

-- A page that was not given an endpoint.
abbrev pub page :
    StaticFixture → (String → Option Url) → Bool → (WorkbenchRequest → Reply) → Storage → Loader
page fixture read_url deployed fetch storage = record {
  fixture = fixture;
  read_url = read_url;
  storage = storage;
  endpoint = none;
  static_deployment = deployed;
  fetch = some fetch;
}

module _ (read_url : String → Option Url) (ask : String → String → String → LoginReply)
    (r : LoginRequest) (before : Storage) (p : LoginPayload) (url : String)
    (done : (login_demo read_url ask r before).0 ≡ logged_in p)
    (at : normalize_demo_base_url read_url r.base_url ≡ address url) where
  abbrev after : Storage
  after = (login_demo read_url ask r before).1

  session :
      Holds url p before after
      × (is_empty p.token ≡ false)
      × ((key : String)
          → get_item key (logout_demo after) ≡ (
              if "nappDemoActorId" == key || "nappDemoToken" == key
              then none
              else get_item key after))
  session = elim (login_demo-cases read_url ask r before) [
    | inl (message, e) ↦ absurd (cc (done, ap (λ x. x.0) e))
    | inr (found, e, s, left) ↦
        let one : found ≡ url = cc (at, e) in
        let same : s.payload ≡ p = cc (done, s.returned) in
        let found_session : Holds found s.payload before after = s.holds in
        let found_token : is_empty s.payload.token ≡ false = s.with_token in
        (rw same at (rw one at found_session), rw same at found_token, left)
  ]

  module _ (fixture : StaticFixture) (deployed : Bool) (fetch : WorkbenchRequest → Reply)
      (open_url : is_empty url ≡ false)
      (again : normalize_demo_base_url read_url url ≡ address url) where
    page_address :
        (storage : Storage)
        → get_item "nappDemoApiBaseUrl" storage ≡ some url
        → demo_base_url (page fixture read_url deployed fetch storage) ≡ url
    unfolding demo_api_base_url
    page_address storage e = rw (demo_api_base_url, e, again) refl

    signed_request :
        request_of (page fixture read_url deployed fetch after)
        ≡ request_to url (("Authorization", "Bearer " ⧺ p.token) ∷ [])
    signed_request = rw (page_address after session.0.at, open_url, session.0.token, session.1) refl

    left_at : get_item "nappDemoApiBaseUrl" (logout_demo after) ≡ some url
    left_at = session.2 "nappDemoApiBaseUrl" ∙ session.0.at

    unsigned_request :
        request_of (page fixture read_url deployed fetch (logout_demo after)) ≡ request_to url []
    unsigned_request =
        rw (page_address (logout_demo after) left_at, open_url, session.2 "nappDemoToken") refl

    loaded :
        (storage : Storage) (request : WorkbenchRequest)
        → get_item "nappDemoApiBaseUrl" storage ≡ some url
        → request_of (page fixture read_url deployed fetch storage) ≡ request
        → let result = load_workbench_bootstrap (page fixture read_url deployed fetch storage) in
          FromApi (fetch request) result ⊎ Throws result
    loaded storage request e f =
        let l = page fixture read_url deployed fetch storage in
        rw f at (
          load_workbench_bootstrap-demo l fetch (ap is_empty (page_address storage e) ∙ open_url)
            refl)

    -- After a login that returns a payload, at an address that is not empty and that its normalization leaves as it is, a page
    -- without an endpoint of its own asks that address for the workbench with the payload's token as its bearer, and
    -- after the logout that follows it asks the same address without a token. Both times it returns the payload of the
    -- reply, which passed the validation, or throws a bootstrap error: it never falls back to the static fixture.
    pub load_workbench_bootstrap-login_demo :
        let load = λ (storage : Storage).
          load_workbench_bootstrap (page fixture read_url deployed fetch storage) in
        let signed = fetch (request_to url (("Authorization", "Bearer " ⧺ p.token) ∷ [])) in
        (FromApi signed (load after) ⊎ Throws (load after))
        × (FromApi (fetch (request_to url [])) (load (logout_demo after))
            ⊎ Throws (load (logout_demo after)))
    load_workbench_bootstrap-login_demo = (
      loaded after _ session.0.at signed_request,
      loaded (logout_demo after) _ left_at unsigned_request,
    )

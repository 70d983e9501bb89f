-- ===== src/Client/Examples.antt =====
-- A login at a demo address, and the page that loads the workbench after it.
use network_analytics_predic.Client.Loaded.{Throws, FromApi}
use network_analytics_predic.Client.Signed.{load_workbench_bootstrap-login_demo, page}
use network_analytics_predic.Client.Bootstrap.{
  validate_workbench_bootstrap, static_workbench_bootstrap, bootstrap_error, thrown, returned,
  Bootstrap, StaticFixture,
}
use network_analytics_predic.Client.Load.{
  refuses, payload, replies, Reply, WorkbenchRequest, load_workbench_bootstrap,
}
use network_analytics_predic.Client.Session.{login_demo-cases, Succeeds, Fails}
use network_analytics_predic.Client.Login.{
  demo_api_base_url, Storage, logout_demo, get_item, address, logged_in, normalize_demo_base_url,
  Url, accepted, LoginPayload, LoginReply, LoginRequest, login_demo,
}
use network_analytics_predic.Prelude.{
  show, length, eqb, true, ◌∷◌, ◌||◌, ◌==◌, if◌then◌else◌, ◌≡◌, ◌⧺◌, [], Option, ◌⊎◌, String, none,
  some, refl,
}

abbrev read_demo_url : String → Option Url
read_demo_url written =
    some (record { protocol = "https:"; hostname = "demo.example"; href = written ⧺ "/" })

abbrev grant : LoginPayload
grant = record { contract = "HybridDemoLoginV1"; token = "t-1"; actor_id = some "analyst" }

abbrev let_in : String → String → String → LoginReply
let_in url username password = accepted grant

abbrev request : LoginRequest
request = record { base_url = " https://demo.example/ "; username = "ana"; password = "secret" }

login_demo-cases_example :
    let result = login_demo read_demo_url let_in request [] in
    Fails [] result
    ⊎ ((url : String) × (normalize_demo_base_url read_demo_url request.base_url ≡ address url)
        × Succeeds url (accepted grant) [] result
        × ((key : String)
            → get_item key (logout_demo result.1) ≡ (
                if "nappDemoActorId" == key || "nappDemoToken" == key
                then none
                else get_item key result.1)))
login_demo-cases_example = login_demo-cases read_demo_url let_in request []

login_test : (login_demo read_demo_url let_in request []).0 ≡ logged_in grant
unfolding login_demo
login_test = refl

abbrev body : Bootstrap
body = record {
  contract = some "WorkbenchBootstrapV1";
  fixture_schema = some "HarborLanternInterchangeV1";
  fixture_version = some "1.0.0";
  case_part = some "{}";
  guided_steps = some "[]";
  nodes = some "[]";
  relationships = some "[]";
  defaults = some "{}";
  prioritization = some "[]";
  transport = none;
}

abbrev fixture : StaticFixture
fixture = record {
  schema = "HarborLanternInterchangeV1";
  version = "1.0.0";
  case_text = "{}";
  guided_steps = "[]";
  nodes = "[]";
  relationships = "[]";
  defaults = "{}";
}

-- The API wants a token.
abbrev api : WorkbenchRequest → Reply
api q = if eqb (length q.headers) 5 then replies (payload (some body)) else refuses 401 none

abbrev stored_session : Storage
stored_session =
    record { key = "nappDemoApiBaseUrl"; value = "https://demo.example" }
    ∷ record { key = "nappDemoToken"; value = "t-1" }
    ∷ record { key = "nappDemoActorId"; value = "analyst" }
    ∷ []

load_workbench_bootstrap-login_demo_example :
    let load = λ (storage : Storage).
      load_workbench_bootstrap (page fixture read_demo_url true api storage) in
    (FromApi (replies (payload (some body))) (load stored_session) ⊎ Throws (load stored_session))
    × (FromApi (refuses 401 none) (load (logout_demo stored_session))
        ⊎ Throws (load (logout_demo stored_session)))
unfolding login_demo
load_workbench_bootstrap-login_demo_example =
    load_workbench_bootstrap-login_demo read_demo_url let_in request [] grant "https://demo.example"
      refl refl fixture true api refl refl

load_test :
    (load_workbench_bootstrap (page fixture read_demo_url true api stored_session)
      ≡ returned (record body { transport = some "authorized-api" }))
    × (load_workbench_bootstrap (page fixture read_demo_url true api (logout_demo stored_session))
        ≡ thrown (
            bootstrap_error "Workbench API returned 401" "workbench_api_error"
              (some 401)
              "https://demo.example/v1/cases/harbor-lantern/workbench"))
    × (load_workbench_bootstrap (page fixture read_demo_url true api [])
        ≡ returned (static_workbench_bootstrap fixture))
unfolding load_workbench_bootstrap demo_api_base_url validate_workbench_bootstrap logout_demo show
load_test = (refl, refl, refl)

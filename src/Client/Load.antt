-- ===== src/Client/Load.antt =====
-- packages/api-client/workbench-client.mjs: `loadWorkbenchBootstrap`. The demo address and the token are read
-- from the storage; `new URL` and `fetch` are parameters.
use network_analytics_predic.Client.Login.{get_item, Storage, Url, demo_api_base_url}
use network_analytics_predic.Client.Bootstrap.{
  validate_workbench_bootstrap, bootstrap_error, static_workbench_bootstrap, plain, returned,
  thrown, Bootstrap, Failure, Result, StaticFixture,
}
use network_analytics_predic.Prelude.{
  [], ◌∷◌, List, show, ◌&&◌, ◌||◌, ◌⧺◌, if◌then◌else◌, is_empty, Option, get_or, not, ℕ, Bool,
  String, none, some,
}

-- The body of a successful reply: unreadable, with the error's message, or a payload.
pub data Body : Type 0 where
  unreadable : String → Body
  payload : Option Bootstrap → Body

-- What `fetch` does: it fails with a message, or replies with an error status and perhaps a code in the body, or with
-- a body.
pub data Reply : Type 0 where
  fails : String → Reply
  refuses : ℕ → Option String → Reply
  replies : Body → Reply

-- What `fetch` is asked for: the address, the mode and the headers with their values.
pub record WorkbenchRequest : Type 0 where
  pub url : String
  pub mode : String
  pub headers : List (String × String)

pub record Loader : Type 0 where
  pub fixture : StaticFixture
  pub read_url : String → Option Url
  pub storage : Storage
  pub endpoint : Option String
  pub static_deployment : Bool
  pub fetch : Option (WorkbenchRequest → Reply)

abbrev pub demo_base_url : Loader → String
demo_base_url l = demo_api_base_url l.read_url l.storage

abbrev pub workbench_path : String
workbench_path = "/v1/cases/harbor-lantern/workbench"

abbrev pub target_endpoint : Loader → String
target_endpoint l =
    get_or l.endpoint
      (if is_empty (demo_base_url l) then workbench_path else demo_base_url l ⧺ workbench_path)

abbrev pub token_of : Storage → String
token_of storage = get_or (get_item "nappDemoToken" storage) ""

abbrev pub headers_of : String → List (String × String)
headers_of token =
    ("X-Actor-Id", "guided-training-user")
    ∷ ("X-Purpose", "training")
    ∷ ("X-Authorization-Id", "guided-training-session")
    ∷ ("X-Allowed-Fields", "device_signature,precise_location")
    ∷ (if is_empty token then [] else ("Authorization", "Bearer " ⧺ token) ∷ [])

abbrev pub request_of : Loader → WorkbenchRequest
request_of l = record {
  url = target_endpoint l;
  mode = if is_empty (demo_base_url l) then "same-origin" else "cors";
  headers = headers_of (token_of l.storage);
}

abbrev authorized : Result Bootstrap → Result Bootstrap
authorized (returned b) = returned (record b { transport = some "authorized-api" })
authorized (thrown e) = thrown e

-- The body of the `try`.
unfoldable pub attempt : String → Reply → Result Bootstrap
attempt target (fails message) = thrown (plain message)
attempt target (refuses status code) = thrown (
    bootstrap_error ("Workbench API returned " ⧺ show status) (get_or code "workbench_api_error")
      (some status) target)
attempt target (replies (unreadable message)) = thrown (plain message)
attempt target (replies (payload p)) = authorized (validate_workbench_bootstrap p)

-- `if (demoBaseUrl || endpoint)`
abbrev pub is_remote : Loader → Bool
is_remote l = not (is_empty (demo_base_url l)) || not (is_empty (get_or l.endpoint ""))

abbrev rethrown : String → Failure → Failure
rethrown target (plain message) = bootstrap_error message "workbench_bootstrap_failed" none target
rethrown target (bootstrap_error message code status at) = bootstrap_error message code status at

-- The `catch`.
unfoldable pub recover : Loader → Result Bootstrap → Result Bootstrap
recover l (returned b) = returned b
recover l (thrown e) =
    if is_remote l
    then thrown (rethrown (target_endpoint l) e)
    else returned (static_workbench_bootstrap l.fixture)

unfoldable pub load_workbench_bootstrap : Loader → Result Bootstrap
unfolding attempt recover
load_workbench_bootstrap l =
    if l.static_deployment && is_empty (demo_base_url l)
    then returned (static_workbench_bootstrap l.fixture)
    else elim l.fetch [
      | none ↦ returned (static_workbench_bootstrap l.fixture)
      | some fetch ↦ recover l (attempt (target_endpoint l) (fetch (request_of l)))
    ]

-- ===== src/Client/Login.antt =====
-- packages/api-client/workbench-client.mjs: `normalizeDemoBaseUrl`, `demoApiBaseUrl`, `loginDemo` and `logoutDemo`. The
-- storage is a list of keys with their texts; `new URL` and `fetch` are parameters.
use Prim.Native.Char.{code}
use network_analytics_predic.Prelude.{
  eqb, is_empty, not, ◌&&◌, filter, get_or, has, if◌then◌else◌, ℕ, ◌==◌, ◌⧺◌, Bool, List, Option,
  String, show, trim, none, some, [], ◌∷◌,
}

-- What `new URL` gives for a text that it can read.
pub record Url : Type 0 where
  pub protocol : String
  pub hostname : String
  pub href : String

-- `replace(/\/+$/g, "")`
unfoldable pub without_slashes : String → String
without_slashes String.[] = ""
without_slashes (String.◌∷◌ c s) =
    let rest = without_slashes s in
    if is_empty rest && eqb (code c) 47 then "" else String.◌∷◌ c rest

pub data Address : Type 0 where
  address : String → Address
  refused : String → Address

abbrev pub is_local : Url → Bool
is_local url = has ("localhost" ∷ "127.0.0.1" ∷ "::1" ∷ []) url.hostname

unfoldable pub address_of : Option Url → Address
unfolding without_slashes
address_of none = refused "Invalid URL"
address_of (some url) =
    if not (url.protocol == "https:") && not (is_local url)
    then refused "Demo API must use HTTPS unless it is loopback-only"
    else address (without_slashes url.href)

unfoldable pub normalize_demo_base_url : (String → Option Url) → String → Address
unfolding without_slashes trim address_of
normalize_demo_base_url read_url value =
    let clean = without_slashes (trim value) in
    if is_empty clean then address "" else address_of (read_url clean)

pub record Entry : Type 0 where
  pub key : String
  pub value : String

abbrev pub Storage : Type 0
Storage = List Entry

abbrev pub get_item : String → Storage → Option String
get_item key [] = none
get_item key (e ∷ storage) = if e.key == key then some e.value else get_item key storage

abbrev pub set_item : String → String → Storage → Storage
set_item key value [] = record { key = key; value = value } ∷ []
set_item key value (e ∷ storage) =
    let rest = set_item key value storage in
    if e.key == key then record { key = key; value = value } ∷ storage else e ∷ rest

abbrev pub remove_item : String → Storage → Storage
remove_item key storage = filter (λ e. not (e.key == key)) storage

abbrev url_key : String
url_key = "nappDemoApiBaseUrl"

-- The address, or none at all where it is refused.
abbrev pub or_nothing : Address → String
or_nothing (address url) = url
or_nothing (refused message) = ""

unfoldable pub demo_api_base_url : (String → Option Url) → Storage → String
unfolding normalize_demo_base_url
demo_api_base_url read_url storage =
    or_nothing (normalize_demo_base_url read_url (get_or (get_item url_key storage) ""))

pub record LoginPayload : Type 0 where
  pub contract : String
  pub token : String
  pub actor_id : Option String

-- A rejected request or unreadable JSON throws with its own message.
pub data LoginReply : Type 0 where
  rejected : String → LoginReply
  denied : ℕ → LoginReply
  unreadable : String → LoginReply
  accepted : LoginPayload → LoginReply

pub data Login : Type 0 where
  logged_in : LoginPayload → Login
  failed : String → Login

abbrev pub stored : String → LoginPayload → Storage → Storage
stored url p storage =
    set_item "nappDemoActorId" (get_or p.actor_id "")
      (set_item "nappDemoToken" p.token (set_item url_key url storage))

abbrev pub is_valid : LoginPayload → Bool
is_valid p = p.contract == "HybridDemoLoginV1" && not (is_empty p.token)

unfoldable pub answered : String → LoginReply → Storage → Login × Storage
unfolding show
answered url (rejected message) storage = (failed message, storage)
answered url (denied status) storage = (failed ("Demo login failed: " ⧺ show status), storage)
answered url (unreadable message) storage = (failed message, storage)
answered url (accepted p) storage =
    if is_valid p
    then (logged_in p, stored url p storage)
    else (failed "Demo login response is invalid", storage)

-- `fetch` takes the address, and the user and the password that the body holds.
pub record LoginRequest : Type 0 where
  pub base_url : String
  pub username : String
  pub password : String

unfoldable pub sent :
    (String → String → String → LoginReply) → LoginRequest → Address → Storage → Login × Storage
unfolding answered
sent fetch r (refused message) storage = (failed message, storage)
sent fetch r (address url) storage =
    answered url (fetch (url ⧺ "/v1/demo/login") r.username r.password) storage

unfoldable pub login_demo :
    (String → Option Url)
    → (String → String → String → LoginReply)
    → LoginRequest
    → Storage
    → Login × Storage
unfolding normalize_demo_base_url sent
login_demo read_url fetch r storage =
    sent fetch r (normalize_demo_base_url read_url r.base_url) storage

unfoldable pub logout_demo : Storage → Storage
logout_demo storage = remove_item "nappDemoActorId" (remove_item "nappDemoToken" storage)

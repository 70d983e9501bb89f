-- ===== src/Harbor/Configure.antt =====
-- packages/guided-workflow/harbor-lantern.mjs: the module's variables, `configureWorkbenchBootstrap`, `nodeById` and
-- `relationshipById`, and the graph source that the module makes.
use network_analytics_predic.Graph.{Settings, Node, Relationship, Source}
use mathlib.Core.List.{Memᴰ}
use network_analytics_predic.Harbor.State.{visible_relationships}
use network_analytics_predic.Prelude.{
  eq_iff, All_self, All-find, get_or, ◌==◌, false, find, ◌||◌, ◌≡◌, Bool, List, not, Option, String,
  if◌then◌else◌, none, some,
}

-- `CASE.question`, `NODES`, `RELATIONSHIPS`, `DEFAULT_SETTINGS` and `WORKBENCH_TRANSPORT`.
pub record Constants : Type 0 where
  pub question : String
  pub nodes : List Node
  pub relationships : List Relationship
  pub defaults : Settings
  pub transport : String

pub record Bootstrap : Type 0 where
  pub contract : Option String
  pub fixture_schema : Option String
  pub fixture_version : Option String
  pub question : String
  pub nodes : List Node
  pub relationships : List Relationship
  pub defaults : Settings
  pub transport : Option String

pub data Configured : Type 0 where
  failed : String → Configured
  configured : Constants → Configured

abbrev is_value : Option String → String → Bool
is_value none value = false
is_value (some s) value = s == value

-- A failure leaves the variables as they were.
unfoldable pub configure_workbench_bootstrap : Bootstrap → Configured
configure_workbench_bootstrap b =
    if not (is_value b.contract "WorkbenchBootstrapV1")
    then failed "Expected WorkbenchBootstrapV1"
    else if not (is_value b.fixture_schema "HarborLanternInterchangeV1")
        || not (is_value b.fixture_version "1.0.0")
    then failed "Workbench bootstrap does not match the supported fixture contract"
    else configured (record {
      question = b.question;
      nodes = b.nodes;
      relationships = b.relationships;
      defaults = b.defaults;
      transport = get_or b.transport "authorized-api";
    })

unfoldable pub node_by_id : Constants → String → Option Node
node_by_id constants id = find (λ n. n.id == id) constants.nodes

unfoldable pub relationship_by_id : Constants → String → Option Relationship
relationship_by_id constants id = find (λ r. r.id == id) constants.relationships

abbrev pub source_of : Constants → Source
source_of constants = record {
  nodes = constants.nodes;
  node_by_id = node_by_id constants;
  visible_relationships = visible_relationships constants.relationships;
}

-- A node that the source finds under an id is one of its nodes and has the id.
pub source_of-node_by_id :
    (constants : Constants) (id : String) (n : Node)
    → (source_of constants).node_by_id id ≡ some n
    → Memᴰ n constants.nodes × (n.id ≡ id)
unfolding node_by_id
source_of-node_by_id constants id n h =
    let found =
      All-find (λ x. Memᴰ x constants.nodes) (λ x. x.id == id) constants.nodes
        (All_self constants.nodes) h in
    (found.0, (eq_iff n.id id).0 found.1)

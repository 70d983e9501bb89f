-- ===== src/Fraud/Case.antt =====
-- packages/guided-workflow/financial-fraud.mjs: the constants `CASE`, `NODES`, `TRANSACTIONS` and `RELATIONSHIPS`.
use Prim.Native.Char.{code}
use network_analytics_predic.Graph.{Node, Relationship}
use network_analytics_predic.Fraud.Flow.{Transaction, Clock}
use network_analytics_predic.Prelude.{
  pos, show, includes, find, if◌then◌else◌, ltb, eqb, ◌==◌, ◌||◌, ◌⧺◌, ◌/◌, ℕ, suc, String, Option,
  some, List, [], ◌∷◌,
}

pub record FraudCase : Type 0 where
  pub id : String
  pub name : String
  pub question : String
  pub event_range : String
  pub known_at : String

abbrev pub fraud_case : FraudCase
fraud_case = record {
  id = "FR-TRAIN-002";
  name = "Cuentas mulas and fraud-ring detection";
  question =
      "Which accounts show possible mule-account review indicators and how does money move through the transaction-flow hypothesis?";
  event_range = "2026-04-01/2026-04-04";
  known_at = "2026-04-04T18:00:00Z";
}

unfoldable pub nodes : List Node
nodes =
    record {
      id = "p-v1";
      type = "person";
      label = "Victim A";
      role = some "origin";
      x = pos 10;
      y = pos 22;
    }
    ∷ record {
      id = "p-v2";
      type = "person";
      label = "Victim B";
      role = some "origin";
      x = pos 9;
      y = pos 44;
    }
    ∷ record {
      id = "p-v3";
      type = "person";
      label = "Victim C";
      role = some "origin";
      x = pos 13;
      y = pos 66;
    }
    ∷ record {
      id = "a-100";
      type = "account";
      label = "Acct 100";
      role = some "collection";
      x = pos 34;
      y = pos 24;
    }
    ∷ record {
      id = "a-101";
      type = "account";
      label = "Acct 101";
      role = some "collection";
      x = pos 35;
      y = pos 61;
    }
    ∷ record {
      id = "a-777";
      type = "account";
      label = "Acct 777";
      role = some "possible mule";
      x = pos 56;
      y = pos 43;
    }
    ∷ record {
      id = "a-901";
      type = "account";
      label = "Acct 901";
      role = some "cash-out";
      x = pos 78;
      y = pos 25;
    }
    ∷ record {
      id = "a-902";
      type = "account";
      label = "Acct 902";
      role = some "cash-out";
      x = pos 82;
      y = pos 57;
    }
    ∷ record {
      id = "d-7";
      type = "device";
      label = "Device D7";
      role = some "infrastructure";
      x = pos 57;
      y = pos 75;
    }
    ∷ record {
      id = "ip-44";
      type = "place";
      label = "IP 44.18";
      role = some "infrastructure";
      x = pos 72;
      y = pos 77;
    }
    ∷ []

unfoldable pub transactions : List Transaction
transactions =
    record {
      id = "tx-001";
      at = "2026-04-01T09:12:00Z";
      origin = "p-v1";
      destination = "a-100";
      amount = 980000;
      currency = "USD";
      type = "fraud complaint transfer";
      description = "Invoice callback payment";
    }
    ∷ record {
      id = "tx-002";
      at = "2026-04-01T09:27:00Z";
      origin = "p-v2";
      destination = "a-100";
      amount = 1000000;
      currency = "USD";
      type = "fraud complaint transfer";
      description = "Supplier update";
    }
    ∷ record {
      id = "tx-003";
      at = "2026-04-01T10:05:00Z";
      origin = "p-v3";
      destination = "a-101";
      amount = 1250000;
      currency = "USD";
      type = "fraud complaint transfer";
      description = "Urgent settlement";
    }
    ∷ record {
      id = "tx-004";
      at = "2026-04-01T10:41:00Z";
      origin = "a-100";
      destination = "a-777";
      amount = 1950000;
      currency = "USD";
      type = "internal transfer";
      description = "Consolidation";
    }
    ∷ record {
      id = "tx-005";
      at = "2026-04-01T11:06:00Z";
      origin = "a-101";
      destination = "a-777";
      amount = 1200000;
      currency = "USD";
      type = "internal transfer";
      description = "Consolidation";
    }
    ∷ record {
      id = "tx-006";
      at = "2026-04-01T12:18:00Z";
      origin = "a-777";
      destination = "a-901";
      amount = 1500000;
      currency = "USD";
      type = "cash-out transfer";
      description = "ATM pre-load";
    }
    ∷ record {
      id = "tx-007";
      at = "2026-04-01T12:26:00Z";
      origin = "a-777";
      destination = "a-902";
      amount = 1480000;
      currency = "USD";
      type = "cash-out transfer";
      description = "Wallet cash-out";
    }
    ∷ record {
      id = "tx-008";
      at = "2026-04-02T08:14:00Z";
      origin = "d-7";
      destination = "a-777";
      amount = 0;
      currency = "N/A";
      type = "login event";
      description = "Same device controls bridge account";
    }
    ∷ record {
      id = "tx-009";
      at = "2026-04-02T08:19:00Z";
      origin = "ip-44";
      destination = "a-901";
      amount = 0;
      currency = "N/A";
      type = "login event";
      description = "Shared IP with cash-out account";
    }
    ∷ []

-- `text.replace(letter, words)`: the first occurrence only
abbrev pub replace_first : ℕ → String → String → String
replace_first letter words String.[] = ""
replace_first letter words (String.◌∷◌ c s) =
    let rest = replace_first letter words s in
    if eqb (code c) letter then words ⧺ s else String.◌∷◌ c rest

-- `at.replace("T", " ").replace("Z", " UTC")`
abbrev pub shown_time : String → String
shown_time at = replace_first 90 " UTC" (replace_first 84 " " at)

abbrev pub amount_text : ℕ → String
amount_text amount = show (amount / 1000)

unfoldable pub relationship_of : Clock → ℕ → Transaction → Relationship
unfolding show includes
relationship_of clock index tx =
    let infrastructure = eqb tx.amount 0 in
    let before = ltb (clock.ms tx.at) (clock.ms "2026-04-01T11:30:00Z") in
    record {
      id = tx.id;
      subject = tx.origin;
      object = tx.destination;
      predicate = if infrastructure then "accesses" else "transfers to";
      relation =
          if infrastructure
          then "infrastructure"
          else if includes tx.type "cash-out"
          then "cashout"
          else "transfers";
      periods = (if before then "before" else "after") ∷ [];
      status = if before then "observed" else "appeared";
      event_time = shown_time tx.at;
      known_at = shown_time fraud_case.known_at;
      evidence_class = if infrastructure then "derived result" else "financial transaction";
      confidence = if infrastructure then "moderate" else "high";
      reliability = if infrastructure then "system-derived" else "bank ledger";
      credibility = if infrastructure then "B2" else "A1";
      source = tx.id ⧺ " · " ⧺ tx.type ⧺ " · " ⧺ amount_text tx.amount ⧺ " " ⧺ tx.currency;
      reasoning =
          if infrastructure
          then tx.description
            ⧺ ". Shared infrastructure can support a coordination hypothesis but is not proof of common control."
          else amount_text tx.amount
            ⧺ " "
            ⧺ tx.currency
            ⧺ " moved from "
            ⧺ tx.origin
            ⧺ " to "
            ⧺ tx.destination
            ⧺ " at "
            ⧺ tx.at
            ⧺ ". Timing and direction are used in pass-through analysis.";
      caveat =
          "Legitimate shared devices, family accounts, business processors, refunds, chargebacks, or bank batch timing can mimic parts of this pattern.";
      community_before = if ltb index 5 then "collection" else "not observed";
      community_after =
          if tx.destination == "a-777" || tx.origin == "a-777"
          then "mule bridge"
          else "cash-out/support";
    }

abbrev pub relationships_from : Clock → ℕ → List Transaction → List Relationship
relationships_from clock index [] = []
relationships_from clock index (tx ∷ txs) =
    relationship_of clock index tx ∷ relationships_from clock (suc index) txs

unfoldable pub relationships : Clock → List Relationship
unfolding relationship_of transactions
relationships clock = relationships_from clock 0 transactions

unfoldable pub node_by_id : String → Option Node
unfolding nodes
node_by_id id = find (λ n. n.id == id) nodes

unfoldable pub relationship_by_id : Clock → String → Option Relationship
unfolding relationships
relationship_by_id clock id = find (λ r. r.id == id) (relationships clock)

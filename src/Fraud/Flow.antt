-- ===== src/Fraud/Flow.antt =====
-- packages/guided-workflow/financial-fraud.mjs and transaction-import.mjs: the money that an account receives and
-- sends on (`inboundFor`, `outboundFor`, `hoursBetween`), the measures of `detectFraudRings` on it, the order of the
-- scores, and the filter of `visibleRelationships`. A ratio of amounts is kept as the two amounts, hours as milliseconds.
use network_analytics_predic.Graph.{Relationship}
use network_analytics_predic.Prelude.{
  unique, length, map, filter, ltb, leb, eqb, ◌++◌, ◌==◌, ◌&&◌, ◌||◌, not, if◌then◌else◌, get_or, ℕ,
  ◌+◌, ◌-◌, ◌*◌, ◌%◌, min, String, Bool, true, false, Option, none, some, List, [], ◌∷◌,
}

pub record Clock : Type 0 where
  pub ms : String → ℕ
  pub id_before : String → String → Bool

pub record Transaction : Type 0 where
  pub id : String
  pub at : String
  pub origin : String
  pub destination : String
  pub amount : ℕ
  pub currency : String
  pub type : String
  pub description : String

-- The settings that the two workflows read; some are missing in the states of other workflows.
pub record FraudSettings : Type 0 where
  pub relation_filter : String
  pub include_infrastructure : Option Bool
  pub alias_included : Option Bool
  pub priority_threshold : Option ℕ
  pub risk_threshold : Option ℕ

abbrev pub default_settings : FraudSettings
default_settings = record {
  relation_filter = "all";
  include_infrastructure = some true;
  alias_included = some true;
  priority_threshold = some 70;
  risk_threshold = none;
}

abbrev pub includes_infrastructure : FraudSettings → Bool
includes_infrastructure s = get_or s.include_infrastructure (get_or s.alias_included true)

-- `Number(settings.priorityThreshold ?? settings.riskThreshold ?? 70)`
abbrev pub threshold_of : FraudSettings → ℕ
threshold_of s = get_or s.priority_threshold (get_or s.risk_threshold 70)

unfoldable pub outbound_for : List Transaction → String → List Transaction
outbound_for transactions account_id =
    filter (λ tx. tx.origin == account_id && ltb 0 tx.amount) transactions

unfoldable pub inbound_for : List Transaction → String → List Transaction
inbound_for transactions account_id =
    filter (λ tx. tx.destination == account_id && ltb 0 tx.amount) transactions

-- `Math.abs(b - a)`, in milliseconds
abbrev pub ms_between : Clock → Transaction → Transaction → ℕ
ms_between clock a b = (clock.ms b.at - clock.ms a.at) + (clock.ms a.at - clock.ms b.at)

abbrev pub total_amount : List Transaction → ℕ
total_amount [] = 0
total_amount (tx ∷ txs) = tx.amount + total_amount txs

abbrev smallest : Option ℕ → List ℕ → Option ℕ
smallest best [] = best
smallest none (n ∷ ns) = smallest (some n) ns
smallest (some m) (n ∷ ns) = smallest (some (min m n)) ns

abbrev gaps : Clock → List Transaction → List Transaction → List ℕ
gaps clock [] outbound = []
gaps clock (tx ∷ inbound) outbound =
    map (ms_between clock tx) outbound ++ gaps clock inbound outbound

-- `fastestPassThroughHours`, in milliseconds; none where nothing comes in or nothing goes out
abbrev pub fastest_pass_through : Clock → List Transaction → List Transaction → Option ℕ
fastest_pass_through clock inbound outbound = smallest none (gaps clock inbound outbound)

-- `inboundAmount ? outboundAmount / inboundAmount : 0`, at least 0.75
abbrev pub passes_through : List Transaction → List Transaction → Bool
passes_through inbound outbound =
    not (eqb (total_amount inbound) 0) && leb (3 * total_amount inbound) (4 * total_amount outbound)

-- At most three hours.
abbrev pub is_rapid : Option ℕ → Bool
is_rapid none = false
is_rapid (some ms) = leb ms (3 * 3600000)

-- `amount % 100 === 0 || amount % 50 === 0`
abbrev pub is_round : Transaction → Bool
is_round tx = eqb (tx.amount % 100000) 0 || eqb (tx.amount % 50000) 0

abbrev pub origins_of : List Transaction → ℕ
origins_of inbound = length (unique (map (λ tx. tx.origin) inbound))

abbrev pub destinations_of : List Transaction → ℕ
destinations_of outbound = length (unique (map (λ tx. tx.destination) outbound))

pub record Score : Type 0 where
  pub account_id : String
  pub label : String
  pub role : Option String
  pub score : ℕ
  pub status : String
  pub indicators : List String
  pub inbound_amount : ℕ
  pub outbound_amount : ℕ
  pub fastest_ms : Option ℕ
  pub contrary_evidence : List String
  pub dependencies : List String

abbrev pub status_of : ℕ → ℕ → String
status_of threshold score =
    if leb threshold score
    then "review-priority"
    else if leb 45 score
    then "watch"
    else "background"

-- `b.score - a.score || a.accountId.localeCompare(b.accountId)`
abbrev pub ranks_before : Clock → Score → Score → Bool
ranks_before clock a b =
    ltb b.score a.score || (eqb a.score b.score && clock.id_before a.account_id b.account_id)

-- A stable sort by that order.
unfoldable pub insert_score : Clock → Score → List Score → List Score
insert_score clock a [] = a ∷ []
insert_score clock a (b ∷ scores) =
    let rest = insert_score clock a scores in
    if ranks_before clock b a then b ∷ rest else a ∷ b ∷ scores

unfoldable pub sort_scores : Clock → List Score → List Score
unfolding insert_score
sort_scores clock [] = []
sort_scores clock (a ∷ scores) = insert_score clock a (sort_scores clock scores)

-- `scores.flatMap((score) => score.dependencies)`
abbrev pub dependencies_of : List Score → List String
dependencies_of [] = []
dependencies_of (s ∷ scores) = s.dependencies ++ dependencies_of scores

unfoldable pub visible_among : List Relationship → FraudSettings → List Relationship
visible_among relationships settings =
    filter
      (λ r.
        not (not (includes_infrastructure settings) && r.relation == "infrastructure")
        && (settings.relation_filter == "all" || r.relation == settings.relation_filter))
      relationships

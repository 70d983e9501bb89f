-- ===== src/Gates/Folds.antt =====
-- packages/predictive/model-gates.mjs: `buildTemporalFolds`. The time that `Date.parse` reads, the text that
-- `toISOString` writes and the order of `localeCompare` are parameters; the loop over the training times takes fuel.
use Prim.Native.String.{compare}
use Prim.Native.Nat.{Ordering}
use mathlib.Core.Option
use network_analytics_predic.Prelude.{
  leb, length, ◌&&◌, ◌/◌, eqb, false, filter, show, ◌*◌, ◌||◌, get_or, if◌then◌else◌, last?, ltb,
  map, true, ◌+◌, ◌⧺◌, Bool, List, Option, String, ℕ, ◌∷◌, [], none, some, zero, suc,
}

pub record FoldClock : Type 0 where
  pub parse_time : String → Option ℕ
  pub iso : ℕ → String
  pub id_before : String → String → Bool

pub record Event : Type 0 where
  pub id : String
  pub at : Option String
  pub event_time : Option String
  pub known_at : Option String

pub record TimedEvent : Type 0 where
  pub id : String
  pub at_ms : ℕ

pub record FoldOptions : Type 0 where
  pub horizon_ms : Option ℕ
  pub step_ms : Option ℕ
  pub train_window_ms : Option ℕ

-- `event.at ?? event.eventTime ?? event.knownAt`
abbrev first_given : List (Option String) → Option String
first_given [] = none
first_given (none ∷ rest) = first_given rest
first_given (some s ∷ rest) = some s

unfoldable pub timed_events : FoldClock → List Event → List TimedEvent
timed_events clock [] = []
timed_events clock (e ∷ events) =
    let rest = timed_events clock events in
    elim (Option.bind (first_given (e.at ∷ e.event_time ∷ e.known_at ∷ [])) clock.parse_time) [
      | none ↦ rest
      | some at ↦ record { id = e.id; at_ms = at } ∷ rest
    ]

abbrev earlier : FoldClock → TimedEvent → TimedEvent → Bool
earlier clock a b = ltb a.at_ms b.at_ms || (eqb a.at_ms b.at_ms && clock.id_before a.id b.id)

unfoldable pub insert_event : FoldClock → TimedEvent → List TimedEvent → List TimedEvent
insert_event clock e [] = e ∷ []
insert_event clock e (x ∷ xs) =
    let rest = insert_event clock e xs in if earlier clock e x then e ∷ x ∷ xs else x ∷ rest

unfoldable pub sort_events : FoldClock → List TimedEvent → List TimedEvent
unfolding insert_event
sort_events clock [] = []
sort_events clock (x ∷ xs) = insert_event clock x (sort_events clock xs)

-- `ids.sort()`, exact where no character lies outside the basic plane
abbrev pub sorts_after : String → String → Bool
sorts_after a b = elim (compare a b) [ Ordering.gt ↦ true | _ ↦ false ]

unfoldable pub insert_id : String → List String → List String
insert_id id [] = id ∷ []
insert_id id (x ∷ xs) =
    let rest = insert_id id xs in if sorts_after id x then x ∷ rest else id ∷ x ∷ xs

unfoldable pub sort_ids : List String → List String
unfolding insert_id
sort_ids [] = []
sort_ids (x ∷ xs) = insert_id x (sort_ids xs)

pub record TemporalFold : Type 0 where
  pub id : String
  pub train_until : String
  pub validate_from : String
  pub validate_until : String
  pub horizon : String
  pub candidate_population : List String
  pub replay_seed : String

-- `DEFAULT_FOLDS`, for a case without dated events.
abbrev default_fold : ℕ → String → String → String → TemporalFold
default_fold n train_until validate_from validate_until = record {
  id = "fold-" ⧺ show n;
  train_until = train_until;
  validate_from = validate_from;
  validate_until = validate_until;
  horizon = "24h";
  candidate_population = [];
  replay_seed = "temporal-replay-" ⧺ show n;
}

unfoldable pub default_folds : List TemporalFold
default_folds =
    default_fold 1 "2026-04-01T11:30:00Z" "2026-04-01T11:30:00Z" "2026-04-02T11:30:00Z"
    ∷ default_fold 2 "2026-04-02T11:30:00Z" "2026-04-02T11:30:00Z" "2026-04-03T11:30:00Z"
    ∷ default_fold 3 "2026-04-03T11:30:00Z" "2026-04-03T11:30:00Z" "2026-04-04T11:30:00Z"
    ∷ []

-- The values of `trainUntilMs` in the loop; none when the fuel is used up.
unfoldable pub training_times : ℕ → ℕ → ℕ → ℕ → Option (List ℕ)
training_times zero time end step = if ltb time end then none else some []
training_times (suc fuel) time end step =
    let later = training_times fuel (time + step) end step in
    if ltb time end then Option.map (time ∷◌) later else some []

abbrev pub population_at : List TimedEvent → ℕ → List String
population_at sorted time = sort_ids (map (λ e. e.id) (filter (λ e. leb e.at_ms time) sorted))

abbrev pub fold_at : FoldClock → ℕ → List TimedEvent → ℕ → ℕ → TemporalFold
fold_at clock horizon sorted index time = record {
  id = "fold-" ⧺ show (index + 1);
  train_until = clock.iso time;
  validate_from = clock.iso time;
  validate_until = clock.iso (time + horizon);
  horizon = show ((2 * horizon + 3600000) / 7200000) ⧺ "h";
  candidate_population = population_at sorted time;
  replay_seed = "temporal-replay-" ⧺ show (index + 1) ⧺ "-" ⧺ show (length sorted);
}

unfoldable pub folds_from : FoldClock → ℕ → List TimedEvent → ℕ → List ℕ → List TemporalFold
folds_from clock horizon sorted index [] = []
folds_from clock horizon sorted index (time ∷ times) =
    fold_at clock horizon sorted index time ∷ folds_from clock horizon sorted (suc index) times

-- The first time of training and the last event's time, of the events in order.
abbrev pub first_training : ℕ → List TimedEvent → ℕ
first_training window [] = window
first_training window (e ∷ _) = e.at_ms + window

abbrev pub last_time : List TimedEvent → ℕ
last_time sorted = elim (last? sorted) [ none ↦ 0 | some e ↦ e.at_ms ]

abbrev pub horizon_of : FoldOptions → ℕ
horizon_of options = get_or options.horizon_ms 86400000

abbrev pub step_of : FoldOptions → ℕ
step_of options = get_or options.step_ms (horizon_of options)

abbrev pub window_of : FoldOptions → ℕ
window_of options = get_or options.train_window_ms (horizon_of options * 2)

abbrev pub dated : FoldClock → List Event → List TimedEvent
dated clock events = sort_events clock (timed_events clock events)

unfoldable pub build_temporal_folds :
    FoldClock → List Event → FoldOptions → Option (List TemporalFold)
unfolding default_folds training_times folds_from
build_temporal_folds clock events options =
    let sorted = dated clock events in
    let start = first_training (window_of options) sorted in
    if eqb (length sorted) 0
    then some default_folds
    else Option.map (folds_from clock (horizon_of options) sorted 0)
        (training_times (last_time sorted) start (last_time sorted) (step_of options))

-- ===== src/Gates/Replay.antt =====
-- packages/predictive/model-gates.mjs: the folds of `buildTemporalFolds` look only at the past.
use network_analytics_predic.Gates.Folds.{
  default_folds, sorts_after, last_time, window_of, first_training, horizon_of, dated, step_of,
  FoldOptions, TemporalFold, Event, TimedEvent, FoldClock, build_temporal_folds, folds_from,
  insert_id, sort_ids, training_times,
}
use mathlib.Core.List.{Memᴰ}
use network_analytics_predic.Prelude.{
  eqb, All-imp, leb→le, eq_iff, ltb→lt, inl, inr, Bool-cases, arith, leb, ap, false, filter, length,
  true, ◌||◌, ltb, map, ◌+◌, ◌==◌, ◌∙◌, All, has, ◌<◌, ◌≡◌, ◌≤◌, String, ℕ, List, ◌∷◌, [], none,
  some, refl, zero, suc,
}

training_times_end :
    (fuel time end step : ℕ)
    → 1 ≤ step
    → end ≤ time + fuel
    → (times : List ℕ) × (training_times fuel time end step ≡ some times)
      × All (λ t. (time ≤ t) × (t < end)) times
unfolding training_times
training_times_end zero time end step forward enough =
    let done : ltb time end ≡ false = ground (arith, enough) in ([], rw done refl, tt)
training_times_end (suc fuel) time end step forward enough = elim (Bool-cases (ltb time end)) [
  | inr e ↦ ([], rw e refl, tt)
  | inl e ↦
      let (times, same, within) =
        training_times_end fuel (time + step) end step forward (omega arith) in
      (
        time ∷ times,
        rw (e, same) refl,
        (
          (omega arith, ltb→lt time end e),
          All-imp (λ t. (time + step ≤ t) × (t < end)) (λ t. (time ≤ t) × (t < end)) times
              (λ t h. (omega (arith, h.0), h.1)) within,
        ),
      )
]

has-insert_id :
    (id : String) (ids : List String) (a : String)
    → has (insert_id id ids) a ≡ (id == a || has ids a)
unfolding insert_id
has-insert_id id [] a = refl
has-insert_id id (x ∷ ids) a = elim (Bool-cases (sorts_after id x)) [
  | inl e ↦ rw (e, has-insert_id id ids a) (ground arith)
  | inr e ↦ rw e refl
]

has-sort_ids : (ids : List String) (a : String) → has (sort_ids ids) a ≡ has ids a
unfolding sort_ids
has-sort_ids [] a = refl
has-sort_ids (x ∷ ids) a =
    has-insert_id x (sort_ids ids) a ∙ ap (λ b. x == a || b) (has-sort_ids ids a)

-- An id of the population is the id of an event that has happened by the time.
abbrev Happened : List TimedEvent → ℕ → String → Type 0
Happened sorted time id = (e : TimedEvent) × Memᴰ e sorted × (e.id ≡ id) × (e.at_ms ≤ time)

Happened-by :
    (sorted : List TimedEvent) (time : ℕ) (id : String)
    → has (map (λ e. e.id) (filter (λ e. leb e.at_ms time) sorted)) id ≡ true
    → Happened sorted time id
Happened-by [] time id h = cc h
Happened-by (e ∷ sorted) time id h = elim (Bool-cases (leb e.at_ms time)) [
  | inr f ↦
      let (x, m, same, past) = Happened-by sorted time id (rw f at h) in
      (x, Memᴰ.tail m, same, past)
  | inl f ↦ elim (Bool-cases (e.id == id)) [
    | inl k ↦ (e, Memᴰ.head refl, (eq_iff e.id id).0 k, leb→le e.at_ms time f)
    | inr k ↦
        let (x, m, same, past) = Happened-by sorted time id (rw (f, k) at h) in
        (x, Memᴰ.tail m, same, past)
  ]
]

-- A fold that trains until a time within the events' span, validates from then on for the horizon, and has as
-- candidates only events that have happened by then.
pub record PastOnly (clock : FoldClock) (horizon : ℕ) (sorted : List TimedEvent) (start end : ℕ)
    (f : TemporalFold) : Type 0 where
  pub time : ℕ
  pub after_start : start ≤ time
  pub before_end : time < end
  pub trained : f.train_until ≡ clock.iso time
  pub validated :
      (f.validate_from ≡ clock.iso time) × (f.validate_until ≡ clock.iso (time + horizon))
  pub past : (id : String) → has f.candidate_population id ≡ true → Happened sorted time id

folds_from-PastOnly :
    (clock : FoldClock) (horizon : ℕ) (sorted : List TimedEvent) (start end index : ℕ)
    (times : List ℕ)
    → All (λ t. (start ≤ t) × (t < end)) times
    → All (PastOnly clock horizon sorted start end) (folds_from clock horizon sorted index times)
unfolding folds_from
folds_from-PastOnly clock horizon sorted start end index [] h = tt
folds_from-PastOnly clock horizon sorted start end index (time ∷ times) h = (
  record {
    time = time;
    after_start = h.0.0;
    before_end = h.0.1;
    trained = refl;
    validated = (refl, refl);
    past = λ id k. Happened-by sorted time id (rw has-sort_ids at k);
  },
  folds_from-PastOnly clock horizon sorted start end (suc index) times h.1,
)

-- With a step above zero and at least one dated event, the folds are built, and each trains until a time between the
-- first training time and the last event, validates from then on, and has only candidates that have happened by then.
pub build_temporal_folds-PastOnly :
    (clock : FoldClock) (events : List Event) (options : FoldOptions)
    → 1 ≤ step_of options
    → 1 ≤ length (dated clock events)
    → let sorted = dated clock events in
      (folds : List TemporalFold) × (build_temporal_folds clock events options ≡ some folds)
      × All
          (PastOnly clock
            (horizon_of options)
            sorted
            (first_training (window_of options) sorted)
            (last_time sorted))
          folds
unfolding build_temporal_folds
build_temporal_folds-PastOnly clock events options forward some_event =
    let sorted = dated clock events in
    let start = first_training (window_of options) sorted in
    let end = last_time sorted in
    let filled : eqb (length sorted) 0 ≡ false = ground (arith, some_event) in
    let (times, same, within) =
      training_times_end end start end (step_of options) forward (omega arith) in
    (
      folds_from clock (horizon_of options) sorted 0 times,
      rw (filled, same) refl,
      folds_from-PastOnly clock (horizon_of options) sorted start end 0 times within,
    )

-- With a step above zero the folds are built, whatever the events.
pub build_temporal_folds-total :
    (clock : FoldClock) (events : List Event) (options : FoldOptions)
    → 1 ≤ step_of options
    → (folds : List TemporalFold) × (build_temporal_folds clock events options ≡ some folds)
unfolding build_temporal_folds
build_temporal_folds-total clock events options forward =
    elim (Bool-cases (eqb (length (dated clock events)) 0)) [
      | inl e ↦ (default_folds, rw e refl)
      | inr e ↦
          let built =
            build_temporal_folds-PastOnly clock events options forward (ground (arith, e)) in
          (built.0, built.1)
    ]

-- With the step 0 the loop has no end: no fuel is enough once it has started.
pub training_times-stuck : (fuel time end : ℕ) → time < end → training_times fuel time end 0 ≡ none
unfolding training_times
training_times-stuck zero time end h =
    let going : ltb time end ≡ true = ground (arith, h) in rw going refl
training_times-stuck (suc fuel) time end h =
    let going : ltb time end ≡ true = ground (arith, h) in
    let later : training_times fuel (time + 0) end 0 ≡ none =
      training_times-stuck fuel (time + 0) end (omega arith) in
    rw (going, later) refl

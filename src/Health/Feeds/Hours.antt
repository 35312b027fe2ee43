-- ===== src/Health/Feeds/Hours.antt =====
-- Over all calls of a GhostFeedHealth of price_collector/ghost_twap_health.py, its hours stay
-- consecutive and few.
use pythonbtccollector.Common.{
  ℕ, ◌+◌, ◌*◌, ◌≤◌, ◌≡◌, refl, String, List, [], ◌∷◌, map, length, length-map, arith, inl, inr,
  Bool-cases, ◌==◌,
}
use pythonbtccollector.Ghost.Types.{Feed, spot, twap, PriceEvent, received_ms}
use pythonbtccollector.Health.Hours.{
  Hour, Health, FeedCounts, hour_ms, max_hours, hour_of, new_health, fill_hours, change_hour,
  returned_start,
}
use pythonbtccollector.Health.Hours.Accounts.{
  Consecutive, IsFilled, fill_first, fill_again, fill_some_hour,
}
use pythonbtccollector.Health.Feeds.{
  observe, note_gap, health_snapshot, note_last, change_returned, change_feed, close_hour,
  closed_hours, revise,
}

pub data Call : Type 0 where
  observing : PriceEvent → Call
  losing : Feed → String → ℕ → Call
  showing : ℕ → ℕ → Call

unfoldable pub step : Call → Health → Health
unfolding fill_hours observe note_gap health_snapshot
step (observing event) s = observe event s
step (losing feed reason wall_ms) s = note_gap feed reason wall_ms s
step (showing now_ms mono_ns) s = (health_snapshot now_ms mono_ns s).1

unfoldable pub run : List Call → Health → Health
unfolding step
run [] s = s
run (c ∷ calls) s = run calls (step c s)

-- The clock of a call.
abbrev pub time_of : Call → ℕ
time_of (observing event) = received_ms event
time_of (losing feed reason wall_ms) = wall_ms
time_of (showing now_ms mono_ns) = now_ms

change_hour-Consecutive :
    (start at : ℕ) (f : Hour → Hour)
    → ((h : Hour) → (f h).hour_start_ms ≡ h.hour_start_ms)
    → (xs : List Hour) → Consecutive start xs
    → Consecutive start (change_hour at f xs)
change_hour-Consecutive start at f keeps [] v = tt
change_hour-Consecutive start at f keeps (x ∷ xs) v = elim (Bool-cases (x.hour_start_ms == at)) [
  | inl here ↦ rw here (ground (arith, keeps x, v.0), v.1)
  | inr there ↦ rw there (v.0, change_hour-Consecutive (start + hour_ms) at f keeps xs v.1)
]

length-change_hour :
    (at : ℕ) (f : Hour → Hour) (xs : List Hour) → length (change_hour at f xs) ≡ length xs
length-change_hour at f [] = refl
length-change_hour at f (x ∷ xs) = ground (arith, length-change_hour at f xs)

close_hour-start :
    (started now : ℕ) (h : Hour) → (close_hour started now h).hour_start_ms ≡ h.hour_start_ms
close_hour-start started now h = ground arith

map-Consecutive :
    (start started now : ℕ) (xs : List Hour)
    → Consecutive start xs
    → Consecutive start (map (close_hour started now) xs)
map-Consecutive start started now [] v = tt
map-Consecutive start started now (x ∷ xs) v = (
  ground (arith, close_hour-start started now x, v.0),
  map-Consecutive (start + hour_ms) started now xs v.1,
)

change_feed-start :
    (feed : Feed) (f : FeedCounts → FeedCounts) (h : Hour)
    → (revise (change_feed feed f h)).hour_start_ms ≡ h.hour_start_ms
change_feed-start spot f h = refl
change_feed-start twap f h = refl

abbrev Filled : ℕ → Health → Type 0
Filled base s = IsFilled base s × 1 ≤ length s.hours

change_returned-Filled :
    (base now : ℕ) (feed : Feed) (f : FeedCounts → FeedCounts) (s : Health)
    → Filled base s
    → Filled base (change_returned now (change_feed feed f) s)
change_returned-Filled base now feed f s v =
    let at = returned_start now s in
    let g = λ (h : Hour). revise (change_feed feed f h) in
    let same = length-change_hour at g s.hours in
    (
      record {
        aligned = v.0.aligned;
        consecutive =
            change_hour-Consecutive _ at g (change_feed-start feed f) s.hours v.0.consecutive;
        few = omega (arith, same, v.0.few);
      },
      omega (arith, same, v.1),
    )

note_last-Filled :
    (base : ℕ) (feed : Feed) (event : PriceEvent) (s : Health)
    → Filled base s
    → Filled base (note_last feed event s)
note_last-Filled base spot event s v = v
note_last-Filled base twap event s v = v

closed_hours-Filled : (base now : ℕ) (s : Health) → Filled base s → Filled base (closed_hours now s)
closed_hours-Filled base now s v =
    let same = length-map (close_hour s.started_ms now) s.hours in
    (
      record {
        aligned = v.0.aligned;
        consecutive = map-Consecutive _ s.started_ms now s.hours v.0.consecutive;
        few = omega (arith, same, v.0.few);
      },
      omega (arith, same, v.1),
    )

-- A call keeps what its filling of the hours establishes.
call_Filled :
    (base : ℕ) (c : Call) (s : Health)
    → Filled base (fill_hours (time_of c) s)
    → Filled base (step c s)
unfolding step observe note_gap health_snapshot
call_Filled base (observing event) s v = note_last-Filled base event.feed event _ (
    change_returned-Filled base (received_ms event) event.feed _ (fill_hours (received_ms event) s)
      v)
call_Filled base (losing feed reason wall_ms) s v =
    change_returned-Filled base wall_ms feed _ (fill_hours wall_ms s) v
call_Filled base (showing now_ms mono_ns) s v =
    closed_hours-Filled base now_ms (fill_hours now_ms s) v

run_Filled : (base : ℕ) (calls : List Call) (s : Health) → Filled base s → Filled base (run calls s)
unfolding run
run_Filled base [] s v = v
run_Filled base (c ∷ calls) s v =
    run_Filled base calls (step c s)
      (call_Filled base c s (fill_again base (time_of c) s v.0 v.1, fill_some_hour (time_of c) s))

-- After a first call and any more calls, whatever their clocks: the hours that are held are one to
-- forty-nine, and follow on one another without a break, beginning as many hours after that of the
-- first call as were dropped or evicted.
pub hours_accounted :
    (run_id : String) (started : ℕ) (first : Call) (calls : List Call)
    → let s = run (first ∷ calls) (new_health run_id started) in
      (1 ≤ length s.hours)
      × (length s.hours ≤ max_hours)
      × Consecutive
          (hour_of (time_of first) + (s.dropped_hours + s.history_evictions) * hour_ms)
          s.hours
unfolding run new_health
hours_accounted run_id started first calls =
    let s = new_health run_id started in
    let v = run_Filled (hour_of (time_of first)) calls (step first s) (
      call_Filled (hour_of (time_of first)) first s
        (fill_first (time_of first) s refl refl refl, fill_some_hour (time_of first) s)) in
    (v.1, v.0.few, v.0.consecutive)

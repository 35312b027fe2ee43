-- ===== src/Health/Hours.antt =====
-- GhostFeedHealth of price_collector/ghost_twap_health.py: its state, and `_hour`, which fills the
-- silent hours and keeps at most forty-nine.
pub mod Accounts
use pythonbtccollector.Common.{
  ℕ, zero, suc, ◌+◌, ◌-◌, ◌*◌, ◌/◌, String, Bool, true, false, Option, none, some, List, [], ◌∷◌,
  ◌++◌, ltb, leb, ◌==◌, if◌then◌else◌, length, drop, max,
}
use pythonbtccollector.Ghost.Types.{Feed}

abbrev pub hour_ms : ℕ
hour_ms = 3_600_000

abbrev pub max_hours : ℕ
max_hours = 49

pub record FeedCounts : Type 0 where
  pub events : ℕ
  pub gap_events : ℕ
  pub connection_ends : ℕ
  pub max_receipt_gap_ns : ℕ
  pub gaps_over_3s : ℕ
  pub gaps_over_5s : ℕ
  pub gap_over_3s_total_ns : ℕ
  pub gap_over_5s_total_ns : ℕ
  pub source_stamp_holes : ℕ
  pub late_source_events : ℕ
  pub duplicate_source_events : ℕ
  pub future_source_events : ℕ
  pub max_source_age_ms : ℕ

-- The counts of a feed are None until its first event or gap of the hour.
pub record Hour : Type 0 where
  pub hour_start_ms : ℕ
  pub revision : ℕ
  pub observed_from_ms : ℕ
  pub observed_until_ms : ℕ
  pub complete : Bool
  pub spot_counts : Option FeedCounts
  pub twap_counts : Option FeedCounts

-- What is kept of the last event of a feed.
pub record LastEvent : Type 0 where
  pub monotonic_ns : ℕ
  pub wall_ns : ℕ
  pub source_ms : ℕ

pub record Health : Type 0 where
  pub run_id : String
  pub started_ms : ℕ
  pub hours : List Hour
  pub last_spot : Option LastEvent
  pub last_twap : Option LastEvent
  pub source_max_spot : Option ℕ
  pub source_max_twap : Option ℕ
  pub dropped_hours : ℕ
  pub history_evictions : ℕ

unfoldable pub new_health : String → ℕ → Health
new_health run_id started_ms = record {
  run_id = run_id;
  started_ms = started_ms;
  hours = [];
  last_spot = none;
  last_twap = none;
  source_max_spot = none;
  source_max_twap = none;
  dropped_hours = 0;
  history_evictions = 0;
}

abbrev pub hour_of : ℕ → ℕ
hour_of now_ms = now_ms / hour_ms * hour_ms

-- `next(reversed(self.hours))`, the start of the last hour; `start` where there is none.
abbrev pub last_start : ℕ → List Hour → ℕ
last_start start [] = start
last_start start (h ∷ hours) = last_start h.hour_start_ms hours

-- `previous + HOUR_MS`
abbrev pub next_start : ℕ → List Hour → ℕ
next_start hour [] = hour
next_start hour (h ∷ hours) = last_start h.hour_start_ms hours + hour_ms

abbrev pub new_hour : ℕ → ℕ → Hour
new_hour started_ms stamp = record {
  hour_start_ms = stamp;
  revision = 0;
  observed_from_ms = max stamp started_ms;
  observed_until_ms = stamp;
  complete = false;
  spot_counts = none;
  twap_counts = none;
}

-- The hours from a stamp on, as many as the count.
unfoldable pub new_hours : ℕ → ℕ → ℕ → List Hour
new_hours started_ms stamp zero = []
new_hours started_ms stamp (suc count) =
    new_hour started_ms stamp ∷ new_hours started_ms (stamp + hour_ms) count

-- How many stamps `range(first, hour + HOUR_MS, HOUR_MS)` has.
abbrev pub stamp_count : ℕ → ℕ → ℕ
stamp_count first hour = (hour + hour_ms - first + hour_ms - 1) / hour_ms

-- `max(previous + HOUR_MS, hour - (MAX_HOURS - 1) * HOUR_MS)`: the first is not negative.
abbrev pub first_start : ℕ → List Hour → ℕ
first_start hour hours = max (next_start hour hours) (hour - (max_hours - 1) * hour_ms)

-- The loop that pops the first hours while there are too many.
abbrev pub evict_hours : Health → Health
evict_hours s = record s {
  hours = drop (length s.hours - max_hours) s.hours;
  history_evictions = s.history_evictions + (length s.hours - max_hours);
}

-- `_hour`, but for the hour that it returns.
unfoldable pub fill_hours : ℕ → Health → Health
unfolding new_hours
fill_hours now_ms s =
    let hour = hour_of now_ms in
    let first = first_start hour s.hours in
    evict_hours (record s {
      dropped_hours = s.dropped_hours + (first - next_start hour s.hours) / hour_ms;
      hours = s.hours ++ new_hours s.started_ms first (stamp_count first hour);
    })

abbrev pub has_start : ℕ → List Hour → Bool
has_start start [] = false
has_start start (h ∷ hours) =
    let rest = has_start start hours in if h.hour_start_ms == start then true else rest

-- The start of the hour that `_hour` returns.
abbrev pub returned_start : ℕ → Health → ℕ
returned_start now_ms s =
    if has_start (hour_of now_ms) s.hours then hour_of now_ms else last_start 0 s.hours

-- A change of the hour that starts then.
abbrev pub change_hour : ℕ → (Hour → Hour) → List Hour → List Hour
change_hour start f [] = []
change_hour start f (h ∷ hours) =
    let rest = change_hour start f hours in
    if h.hour_start_ms == start then f h ∷ hours else h ∷ rest

-- ===== src/Health/Feeds.antt =====
-- What GhostFeedHealth of price_collector/ghost_twap_health.py counts: `observe`, `note_gap` and
-- `snapshot`.
pub mod Hours
use text.Mathlib.Text.{◌==◌ as str_eq}
use pythonbtccollector.Common.{
  ℕ, ◌+◌, ◌-◌, ◌*◌, ◌/◌, String, Bool, true, false, Option, none, some, List, [], ◌∷◌, map, ltb,
  leb, ◌==◌, ◌&&◌, ◌||◌, not, if◌then◌else◌, min, max,
}
use pythonbtccollector.Common.Int.{ℤ, sub_ℕ}
use pythonbtccollector.Ghost.Types.{Feed, spot, twap, PriceEvent, received_ms}
use pythonbtccollector.Health.Hours.{
  FeedCounts, Hour, LastEvent, Health, hour_ms, fill_hours, returned_start, change_hour,
}

abbrev pub no_counts : FeedCounts
no_counts = record {
  events = 0;
  gap_events = 0;
  connection_ends = 0;
  max_receipt_gap_ns = 0;
  gaps_over_3s = 0;
  gaps_over_5s = 0;
  gap_over_3s_total_ns = 0;
  gap_over_5s_total_ns = 0;
  source_stamp_holes = 0;
  late_source_events = 0;
  duplicate_source_events = 0;
  future_source_events = 0;
  max_source_age_ms = 0;
}

-- `_feed`, with the change of the counts that it returns.
abbrev pub or_no_counts : Option FeedCounts → FeedCounts
or_no_counts none = no_counts
or_no_counts (some c) = c

abbrev pub change_feed : Feed → (FeedCounts → FeedCounts) → Hour → Hour
change_feed spot f h = record h { spot_counts = some (f (or_no_counts h.spot_counts)) }
change_feed twap f h = record h { twap_counts = some (f (or_no_counts h.twap_counts)) }

abbrev pub revise : Hour → Hour
revise h = record h { revision = h.revision + 1 }

abbrev pub note_over_3s : ℕ → FeedCounts → FeedCounts
note_over_3s elapsed c =
    if ltb 3_000_000_000 elapsed
    then record c {
      gaps_over_3s = c.gaps_over_3s + 1;
      gap_over_3s_total_ns = c.gap_over_3s_total_ns + elapsed;
    }
    else c

abbrev pub note_over_5s : ℕ → FeedCounts → FeedCounts
note_over_5s elapsed c =
    if ltb 5_000_000_000 elapsed
    then record c {
      gaps_over_5s = c.gaps_over_5s + 1;
      gap_over_5s_total_ns = c.gap_over_5s_total_ns + elapsed;
    }
    else c

abbrev pub note_elapsed : ℕ → FeedCounts → FeedCounts
note_elapsed elapsed c =
    note_over_5s elapsed
      (note_over_3s elapsed (record c { max_receipt_gap_ns = max c.max_receipt_gap_ns elapsed }))

abbrev pub note_receipt : Option LastEvent → ℕ → FeedCounts → FeedCounts
note_receipt none mono c = c
note_receipt (some last) mono c =
    if leb last.monotonic_ns mono then note_elapsed (mono - last.monotonic_ns) c else c

abbrev pub note_order : Option ℕ → ℕ → FeedCounts → FeedCounts
note_order none source c = c
note_order (some old) source c =
    if ltb source old
    then record c { late_source_events = c.late_source_events + 1 }
    else if source == old
    then record c { duplicate_source_events = c.duplicate_source_events + 1 }
    else record c { source_stamp_holes = c.source_stamp_holes + ((source - old) / 1000 - 1) }

abbrev pub note_source : ℕ → Option ℕ → ℕ → FeedCounts → FeedCounts
note_source wall_ms old source c =
    if ltb wall_ms source
    then record c { future_source_events = c.future_source_events + 1 }
    else note_order old source
        (record c { max_source_age_ms = max c.max_source_age_ms (wall_ms - source) })

-- An old maximum of 0 counts as none, which gives the same.
abbrev pub source_max_after : ℕ → Option ℕ → ℕ → Option ℕ
source_max_after wall_ms none source = if ltb wall_ms source then none else some source
source_max_after wall_ms (some old) source =
    if ltb wall_ms source then some old else some (max source old)

abbrev pub counts_after : PriceEvent → Option LastEvent → Option ℕ → FeedCounts → FeedCounts
counts_after event last old c =
    note_source (received_ms event) old event.source_timestamp_ms
      (note_receipt last event.received_monotonic_ns (record c { events = c.events + 1 }))

abbrev pub last_of : PriceEvent → LastEvent
last_of event = record {
  monotonic_ns = event.received_monotonic_ns;
  wall_ns = event.received_wall_ns;
  source_ms = event.source_timestamp_ms;
}

abbrev pub change_returned : ℕ → (Hour → Hour) → Health → Health
change_returned now_ms f s = record s {
  hours = change_hour (returned_start now_ms s) (λ h. revise (f h)) s.hours;
}

abbrev pub note_last : Feed → PriceEvent → Health → Health
note_last spot event s = record s {
  last_spot = some (last_of event);
  source_max_spot =
      source_max_after (received_ms event) s.source_max_spot event.source_timestamp_ms;
}
note_last twap event s = record s {
  last_twap = some (last_of event);
  source_max_twap =
      source_max_after (received_ms event) s.source_max_twap event.source_timestamp_ms;
}

abbrev pub last_event_of : Feed → Health → Option LastEvent
last_event_of spot s = s.last_spot
last_event_of twap s = s.last_twap

abbrev pub source_max_of : Feed → Health → Option ℕ
source_max_of spot s = s.source_max_spot
source_max_of twap s = s.source_max_twap

unfoldable pub observe : PriceEvent → Health → Health
unfolding fill_hours
observe event s = note_last event.feed event (
    change_returned (received_ms event)
      (change_feed event.feed
        (counts_after event (last_event_of event.feed s) (source_max_of event.feed s)))
      (fill_hours (received_ms event) s))

abbrev pub count_gap_event : Bool → FeedCounts → FeedCounts
count_gap_event ends c = record c {
  gap_events = c.gap_events + 1;
  connection_ends = if ends then c.connection_ends + 1 else c.connection_ends;
}

unfoldable pub note_gap : Feed → String → ℕ → Health → Health
unfolding fill_hours
note_gap feed reason wall_ms s =
    change_returned wall_ms (change_feed feed (count_gap_event (str_eq reason "connection_end")))
      (fill_hours wall_ms s)

abbrev pub bool_eq : Bool → Bool → Bool
bool_eq true b = b
bool_eq false b = not b

-- An hour as a snapshot leaves it.
abbrev pub close_hour : ℕ → ℕ → Hour → Hour
close_hour started_ms now_ms h =
    let until = min (max now_ms h.hour_start_ms) (h.hour_start_ms + hour_ms) in
    let complete = leb started_ms h.hour_start_ms && leb (h.hour_start_ms + hour_ms) now_ms in
    if not (h.observed_until_ms == until) || not (bool_eq h.complete complete)
    then record h { observed_until_ms = until; complete = complete; revision = h.revision + 1 }
    else h

pub record FeedAge : Type 0 where
  pub receipt_age_ns : ℕ
  pub source_age_ms : ℤ

pub record HealthSnapshot : Type 0 where
  pub run_id : String
  pub hours : List Hour
  pub dropped_hours : ℕ
  pub history_evictions : ℕ
  pub spot_age : Option FeedAge
  pub twap_age : Option FeedAge

abbrev pub age_of : ℕ → ℕ → Option LastEvent → Option FeedAge
age_of now_ms mono_ns none = none
age_of now_ms mono_ns (some last) = some (record {
  receipt_age_ns = mono_ns - last.monotonic_ns;
  source_age_ms = sub_ℕ now_ms last.source_ms;
})

abbrev pub closed_hours : ℕ → Health → Health
closed_hours now_ms s = record s { hours = map (close_hour s.started_ms now_ms) s.hours }

unfoldable pub health_snapshot : ℕ → ℕ → Health → HealthSnapshot × Health
unfolding fill_hours
health_snapshot now_ms mono_ns s =
    let s' = closed_hours now_ms (fill_hours now_ms s) in
    (
      record {
        run_id = s'.run_id;
        hours = s'.hours;
        dropped_hours = s'.dropped_hours;
        history_evictions = s'.history_evictions;
        spot_age = age_of now_ms mono_ns s'.last_spot;
        twap_age = age_of now_ms mono_ns s'.last_twap;
      },
      s',
    )

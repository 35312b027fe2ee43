-- ===== src/Ghost/Types.antt =====
-- The data of price_collector/ghost_twap.py: policy, price events, slots, gaps, forecasts and
-- decisions. Clocks are naturals. A price is a natural in units of 1E-18: every accepted price is a
-- multiple of that quantum (Checks.antt). Messages are constructors, where the source has texts.
use pythonbtccollector.Common.{ℕ, ◌*◌, ◌/◌, String, Bool, Option, List}
use pythonbtccollector.Common.Int.{ℤ}
use pythonbtccollector.Market.{MarketWindow}

abbrev pub ns_per_ms : ℕ
ns_per_ms = 1_000_000

abbrev pub ns_per_second : ℕ
ns_per_second = 1_000_000_000

pub data Feed : Type 0 where
  spot twap : Feed

pub record GhostPolicy : Type 0 where
  pub enabled : Bool
  pub source_max_age_ms : ℕ
  pub receipt_max_age_ms : ℕ
  pub max_carry_ms : ℕ
  pub history_ms : ℕ
  pub max_events : ℕ
  pub spot_reconnect_max_gap_ms : ℕ

pub record PriceEvent : Type 0 where
  pub feed : Feed
  pub value : ℕ
  pub source_timestamp_ms : ℕ
  pub received_wall_ns : ℕ
  pub received_monotonic_ns : ℕ
  pub sequence : ℕ
  pub event_id : String
  pub window_s : Option ℕ

abbrev pub received_ms : PriceEvent → ℕ
received_ms e = e.received_wall_ns / ns_per_ms

-- The source stamp in nanoseconds, `event.source_timestamp_ms * NS_PER_MS`.
abbrev pub source_ns : PriceEvent → ℕ
source_ns e = e.source_timestamp_ms * ns_per_ms

pub data Category : Type 0 where
  observed carried pending future missing : Category

pub record Slot : Type 0 where
  pub slot_timestamp_ms : ℤ
  pub value : Option ℕ
  pub input : Option PriceEvent
  pub category : Category
  pub carry_age_ms : Option ℕ

pub record SlotCounts : Type 0 where
  pub observed : ℕ
  pub carried : ℕ
  pub pending : ℕ
  pub future : ℕ
  pub missing : ℕ

-- The reason of a gap; `other` is any text that the engine does not itself name.
pub data GapReason : Type 0 where
  connection_end sequence_gap capacity : GapReason
  other : String → GapReason

pub record GapMarker : Type 0 where
  pub feed : Feed
  pub reason : GapReason
  pub ordinal : ℕ
  pub after_sequence : Option ℕ

-- `_fault`
pub data Fault : Type 0 where
  gap_order acceptance_order backlogged_event : Fault

-- The texts that `_current_reasons`, `snapshot` and its forecasts give.
pub data Reason : Type 0 where
  disabled twap_regression twap_conflict missing_slots target_already_received : Reason
  fault : Fault → Reason
  missing_feed future_feed stale_feed : Feed → Reason

pub data ReconnectStatus : Type 0 where
  waiting cleared retained : ReconnectStatus

-- `SpotReconnect.reason`; of `hard_gap` the source keeps the first 256 characters of the text.
pub data ReconnectReason : Type 0 where
  policy_disabled missing_gap_clocks pre_gap_source_regression : ReconnectReason
  awaiting_fresh_advancing_spot source_not_advanced reconnect_limit_exceeded : ReconnectReason
  bounded_carry_estimates reconnect_timeout : ReconnectReason
  pre_gap post_gap : Reason → ReconnectReason
  hard_gap : GapReason → ReconnectReason

pub record SpotReconnect : Type 0 where
  pub gap_ordinal : ℕ
  pub gap_wall_ns : Option ℕ
  pub gap_monotonic_ns : Option ℕ
  pub previous_spot : Option PriceEvent
  pub first_post_gap_spot : Option PriceEvent
  pub status : ReconnectStatus
  pub reason : ReconnectReason

pub data Quality : Type 0 where
  unavailable degraded healthy : Quality

pub record Forecast : Type 0 where
  pub horizon_s : ℕ
  pub target_source_timestamp_ms : Option ℕ
  pub market : Option MarketWindow
  pub slot_start_index : Option ℕ
  pub price : Option ℕ
  pub quality : Quality
  pub reasons : List Reason
  pub counts : SlotCounts
  pub estimated_arrival_wall_ns : Option ℕ
  pub estimated_remaining_ns : Option ℤ
  pub estimate_overdue : Bool

pub record Decision : Type 0 where
  pub run_id : String
  pub decision_id : String
  pub decision_wall_ns : ℕ
  pub decision_monotonic_ns : ℕ
  pub included_sequence : Option ℕ
  pub policy : GhostPolicy
  pub current_spot : Option PriceEvent
  pub current_twap : Option PriceEvent
  pub slots : List Slot
  pub forecasts : List Forecast
  pub reasons : List Reason
  pub gap_count : ℕ
  pub last_gaps : List GapMarker
  pub valid_until_wall_ns : ℤ
  pub spot_reconnect : Option SpotReconnect

-- What the source raises; `type_error` is Python's own, on a comparison with None.
pub data GhostError : Type 0 where
  not_an_integer not_a_text bad_price excess_precision : GhostError
  unsupported_feed not_sixty_seconds spot_has_no_window unaligned_source : GhostError
  reconnect_too_long short_history : GhostError
  gap_predates receipt_regressed predates_decision post_gap_predates : GhostError
  backdated_snapshot snapshot_predates_gap type_error : GhostError

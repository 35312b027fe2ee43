-- ===== src/Capture/Types.antt =====
-- The records of price_collector/raw_capture.py. A UUID is a number, a price the number of its
-- quanta of 10 ** -18. The type of every field is what the `isinstance` tests ask for.
use pythonbtccollector.Common.{ℕ, ◌^◌, String, Bool, Option}
use pythonbtccollector.Common.Int.{ℤ}

abbrev pub futures_bucket_ms : ℕ
futures_bucket_ms = 100

abbrev pub futures_bucket_ns : ℕ
futures_bucket_ns = 100_000_000

abbrev pub postgres_bigint_max : ℕ
postgres_bigint_max = 9_223_372_036_854_775_807

abbrev pub postgres_integer_max : ℕ
postgres_integer_max = 2_147_483_647

-- 1e20 in quanta.
abbrev pub postgres_numeric_limit : ℕ
postgres_numeric_limit = 10 ^ 38

abbrev pub sealed_connection_history_max : ℕ
sealed_connection_history_max = 1_024

pub data FeedSessionSource : Type 0 where
  binance_futures_agg_trade : FeedSessionSource
  polymarket_chainlink_rtds : FeedSessionSource

pub data CloseReason : Type 0 where
  remote_close : CloseReason
  error : CloseReason
  proactive_reconnect : CloseReason
  cancelled : CloseReason
  shutdown : CloseReason

-- The exceptions raised, by their messages.
pub data CaptureError : Type 0 where
  not_positive : CaptureError
  negative_integer : CaptureError
  exceeds_bigint : CaptureError
  exceeds_integer : CaptureError
  price_not_positive : CaptureError
  price_too_large : CaptureError
  price_too_fine : CaptureError
  unaligned_bucket : CaptureError
  last_precedes_first : CaptureError
  outside_bucket : CaptureError
  bad_high : CaptureError
  bad_low : CaptureError
  unpaired_ready : CaptureError
  ready_precedes_connection : CaptureError
  unpaired_disconnect : CaptureError
  open_with_reason : CaptureError
  bad_close_reason : CaptureError
  disconnect_precedes_connection : CaptureError
  disconnect_precedes_ready : CaptureError
  too_many_outcomes : CaptureError
  sequence_mismatch : CaptureError
  depth_above_high_water : CaptureError
  negative_duration : CaptureError
  rows_mismatch : CaptureError
  session_closed : CaptureError
  already_ready : CaptureError
  now_precedes_pending : CaptureError
  bad_limit : CaptureError
  dropped_not_bool : CaptureError
  accepted_on_closed_buffer : CaptureError

pub record ReceiveStamp : Type 0 where
  pub connection_id : ℕ
  pub receive_sequence : ℕ
  pub received_wall_ns : ℕ
  pub received_monotonic_ns : ℕ

pub record FuturesTradeObservation : Type 0 where
  pub connection_id : ℕ
  pub received_wall_ns : ℕ
  pub received_monotonic_ns : ℕ
  pub trade_time_ms : ℕ
  pub event_time_ms : ℕ
  pub price : ℕ
  pub agg_trade_id : ℕ

-- BinanceFuturesPriceTrace, and _PendingFuturesBucket, which has the same fields.
pub record BinanceFuturesPriceTrace : Type 0 where
  pub bucket_start_ms : ℕ
  pub connection_id : ℕ
  pub first_received_wall_ns : ℕ
  pub last_received_wall_ns : ℕ
  pub first_received_monotonic_ns : ℕ
  pub last_received_monotonic_ns : ℕ
  pub first_trade_time_ms : ℕ
  pub last_trade_time_ms : ℕ
  pub first_event_time_ms : ℕ
  pub last_event_time_ms : ℕ
  pub open_price : ℕ
  pub high_price : ℕ
  pub low_price : ℕ
  pub close_price : ℕ
  pub event_count : ℕ
  pub first_agg_trade_id : ℕ
  pub last_agg_trade_id : ℕ

pub record ChainlinkPriceEvent : Type 0 where
  pub received_wall_ns : ℕ
  pub received_monotonic_ns : ℕ
  pub connection_id : ℕ
  pub receive_sequence : ℕ
  pub provider_event_ms : ℕ
  pub provider_message_ms : Option ℕ
  pub price : ℕ

pub record FeedSessionRecord : Type 0 where
  pub source : FeedSessionSource
  pub connection_id : ℕ
  pub connected_wall_ns : ℕ
  pub connected_monotonic_ns : ℕ
  pub ready_wall_ns : Option ℕ
  pub ready_monotonic_ns : Option ℕ
  pub disconnected_wall_ns : Option ℕ
  pub disconnected_monotonic_ns : Option ℕ
  pub close_reason : Option CloseReason
  pub messages_received_total : ℕ
  pub messages_accepted_total : ℕ
  pub parse_errors_total : ℕ
  pub records_dropped_total : ℕ
  pub last_receive_sequence : ℕ

-- A duration is a whole number of nanoseconds.
pub record CaptureCounterSnapshot : Type 0 where
  pub messages_received_total : ℕ
  pub messages_accepted_total : ℕ
  pub parse_errors_total : ℕ
  pub records_coalesced_total : ℕ
  pub records_enqueued_total : ℕ
  pub records_persisted_total : ℕ
  pub records_dropped_total : ℕ
  pub batches_failed_total : ℕ
  pub maintenance_runs_total : ℕ
  pub maintenance_failures_total : ℕ
  pub capture_suspended : Bool
  pub queue_depth : ℕ
  pub queue_high_water : ℕ
  pub last_batch_rows : ℕ
  pub last_batch_duration_ns : ℤ
  pub current_partition : Option String
  pub raw_table_bytes : Option ℕ
  pub connection_id : Option ℕ

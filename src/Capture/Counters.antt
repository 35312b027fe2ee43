-- ===== src/Capture/Counters.antt =====
-- CaptureCounters of price_collector/raw_capture.py. One object is shared by the sessions, the
-- coalescer, the buffer and the writer of a runtime, which all take it and give it back.
pub mod Totals
use pythonbtccollector.Common.{
  ℕ, zero, suc, ◌+◌, ◌≡◌, refl, Bool, true, false, Option, none, some, List, [], ◌∷◌, ◌++◌, ◌==◌,
  String, max, not, if◌then◌else◌,
}
use pythonbtccollector.Common.Int.{ℤ, pos, neg_part}
use pythonbtccollector.Common.Result.{Result, ok, err, ◌>>=◌, ◌>>◌}
use pythonbtccollector.Capture.Checks.{
  Test, Checked, require, require_int, require_all, require_positive_count,
}
use pythonbtccollector.Capture.Records.{counter_snapshot}
use pythonbtccollector.Capture.Types.{
  futures_bucket_ms, futures_bucket_ns, postgres_bigint_max, postgres_integer_max,
  postgres_numeric_limit, sealed_connection_history_max, FeedSessionSource, CloseReason,
  CaptureError, ReceiveStamp, FuturesTradeObservation, BinanceFuturesPriceTrace,
  ChainlinkPriceEvent, FeedSessionRecord, CaptureCounterSnapshot, binance_futures_agg_trade,
  polymarket_chainlink_rtds, remote_close, error, proactive_reconnect, cancelled, shutdown,
  not_positive, negative_integer, exceeds_bigint, exceeds_integer, price_not_positive,
  price_too_large, price_too_fine, unaligned_bucket, last_precedes_first, outside_bucket, bad_high,
  bad_low, unpaired_ready, ready_precedes_connection, unpaired_disconnect, open_with_reason,
  bad_close_reason, disconnect_precedes_connection, disconnect_precedes_ready, too_many_outcomes,
  sequence_mismatch, depth_above_high_water, negative_duration, rows_mismatch, session_closed,
  already_ready, now_precedes_pending, bad_limit, dropped_not_bool, accepted_on_closed_buffer,
}

pub record CaptureCounters : Type 0 where
  pub messages_received_total : ℕ
  pub messages_accepted_total : ℕ
  pub parse_errors_total : ℕ
  pub records_coalesced_total : ℕ
  pub records_enqueued_total : ℕ
  pub records_persisted_total : ℕ
  pub records_dropped_total : ℕ
  pub batches_failed_total : ℕ
  pub maintenance_runs_total : ℕ
  pub maintenance_failures_total : ℕ
  pub capture_suspended : Bool
  pub queue_high_water : ℕ
  pub last_batch_rows : ℕ
  pub last_batch_duration_ns : ℤ
  pub current_partition : Option String
  pub raw_table_bytes : Option ℕ

-- `if self._counters is not None: self._counters....`
unfoldable pub when_counted :
    (CaptureCounters → Checked CaptureCounters)
    → Option CaptureCounters
    → Checked (Option CaptureCounters)
when_counted note none = ok none
when_counted note (some c) = note c >>= λ c. ok (some c)

-- CaptureCounters()
unfoldable pub new_counters : CaptureCounters
new_counters = record {
  messages_received_total = 0;
  messages_accepted_total = 0;
  parse_errors_total = 0;
  records_coalesced_total = 0;
  records_enqueued_total = 0;
  records_persisted_total = 0;
  records_dropped_total = 0;
  batches_failed_total = 0;
  maintenance_runs_total = 0;
  maintenance_failures_total = 0;
  capture_suspended = false;
  queue_high_water = 0;
  last_batch_rows = 0;
  last_batch_duration_ns = pos 0;
  current_partition = none;
  raw_table_bytes = none;
}

unfoldable pub message_received : CaptureCounters → CaptureCounters
message_received c = record c { messages_received_total = c.messages_received_total + 1 }

unfoldable pub message_accepted : ℕ → CaptureCounters → Checked CaptureCounters
unfolding require_positive_count
message_accepted count c =
    require (require_positive_count count)
      (record c { messages_accepted_total = c.messages_accepted_total + count })

unfoldable pub parse_error : ℕ → CaptureCounters → Checked CaptureCounters
unfolding require_positive_count
parse_error count c =
    require (require_positive_count count)
      (record c { parse_errors_total = c.parse_errors_total + count })

unfoldable pub record_coalesced : CaptureCounters → CaptureCounters
record_coalesced c = record c { records_coalesced_total = c.records_coalesced_total + 1 }

unfoldable pub record_enqueued : CaptureCounters → CaptureCounters
record_enqueued c = record c { records_enqueued_total = c.records_enqueued_total + 1 }

unfoldable pub record_persisted : ℕ → CaptureCounters → Checked CaptureCounters
unfolding require_positive_count
record_persisted zero c = ok c
record_persisted (suc n) c =
    require (require_positive_count (suc n))
      (record c { records_persisted_total = c.records_persisted_total + suc n })

unfoldable pub record_dropped : ℕ → CaptureCounters → Checked CaptureCounters
unfolding require_positive_count
record_dropped zero c = ok c
record_dropped (suc n) c =
    require (require_positive_count (suc n))
      (record c { records_dropped_total = c.records_dropped_total + suc n })

unfoldable pub observe_queue_depth : ℕ → CaptureCounters → Checked CaptureCounters
unfolding require_int
observe_queue_depth depth c =
    require (require_int false (pos depth))
      (record c { queue_high_water = max c.queue_high_water depth })

unfoldable pub note_failed : Bool → CaptureCounters → CaptureCounters
note_failed failed c =
    if failed then record c { batches_failed_total = c.batches_failed_total + 1 } else c

unfoldable pub record_batch_result :
    ℕ → ℕ → ℕ → Bool → ℤ → CaptureCounters → Checked CaptureCounters
unfolding require_all require_int record_persisted record_dropped note_failed
record_batch_result rows persisted dropped failed duration_ns c = do
  noted ←
      require
        (require_all false (rows ∷ persisted ∷ dropped ∷ [])
          ++ (persisted + dropped == rows, rows_mismatch)
            ∷ (neg_part duration_ns == 0, negative_duration)
            ∷ [])
        (record c { last_batch_rows = rows; last_batch_duration_ns = duration_ns })
  stored ← record_persisted persisted noted
  counted ← record_dropped dropped stored
  ok (note_failed failed counted)

-- record_maintenance(succeeded=..., permitted=...)
unfoldable pub record_maintenance : Bool → Bool → CaptureCounters → CaptureCounters
record_maintenance succeeded permitted c = record c {
  maintenance_runs_total = c.maintenance_runs_total + 1;
  maintenance_failures_total =
      if succeeded then c.maintenance_failures_total else c.maintenance_failures_total + 1;
  capture_suspended = not permitted;
}

unfoldable pub record_storage_state : Option String → Option ℕ → CaptureCounters → CaptureCounters
record_storage_state partition bytes c = record c {
  current_partition = partition;
  raw_table_bytes = bytes;
}

-- The snapshot before its checks.
unfoldable pub counter_fields : ℕ → Option ℕ → CaptureCounters → CaptureCounterSnapshot
counter_fields depth connection c = record {
  messages_received_total = c.messages_received_total;
  messages_accepted_total = c.messages_accepted_total;
  parse_errors_total = c.parse_errors_total;
  records_coalesced_total = c.records_coalesced_total;
  records_enqueued_total = c.records_enqueued_total;
  records_persisted_total = c.records_persisted_total;
  records_dropped_total = c.records_dropped_total;
  batches_failed_total = c.batches_failed_total;
  maintenance_runs_total = c.maintenance_runs_total;
  maintenance_failures_total = c.maintenance_failures_total;
  capture_suspended = c.capture_suspended;
  queue_depth = depth;
  queue_high_water = c.queue_high_water;
  last_batch_rows = c.last_batch_rows;
  last_batch_duration_ns = c.last_batch_duration_ns;
  current_partition = c.current_partition;
  raw_table_bytes = c.raw_table_bytes;
  connection_id = connection;
}

-- snapshot(queue_depth=..., connection_id=...)
unfoldable pub snapshot_counters : ℕ → Option ℕ → CaptureCounters → Checked CaptureCounterSnapshot
unfolding counter_fields counter_snapshot require_int
snapshot_counters depth connection c = do
  require (require_int false (pos depth)) c
  counter_snapshot (counter_fields depth connection c)

-- ===== src/Capture/Records.antt =====
-- The `__post_init__` of the records of price_collector/raw_capture.py, each as the list of its
-- tests in their order.
use pythonbtccollector.Common.{
  ℕ, ◌+◌, ◌*◌, ◌/◌, ◌%◌, Bool, true, false, Option, none, some, List, [], ◌∷◌, ◌++◌, ltb, leb, ◌==◌,
  ◌&&◌, not, max, min,
}
use pythonbtccollector.Common.Int.{pos, neg_part}
use pythonbtccollector.Capture.Checks.{
  Test, Checked, require, require_int, require_all, require_optional, require_price,
}
use pythonbtccollector.Capture.Types.{
  futures_bucket_ms, futures_bucket_ns, postgres_integer_max, ReceiveStamp,
  BinanceFuturesPriceTrace, FeedSessionRecord, CaptureCounterSnapshot, exceeds_integer,
  unaligned_bucket, last_precedes_first, outside_bucket, bad_high, bad_low, unpaired_ready,
  ready_precedes_connection, unpaired_disconnect, open_with_reason, bad_close_reason,
  disconnect_precedes_connection, disconnect_precedes_ready, too_many_outcomes, sequence_mismatch,
  depth_above_high_water, negative_duration,
}

-- ReceiveStamp
unfoldable pub stamp_tests : ReceiveStamp → List Test
unfolding require_all require_int
stamp_tests s =
    require_all true (s.receive_sequence ∷ s.received_wall_ns ∷ s.received_monotonic_ns ∷ [])

unfoldable pub receive_stamp : ReceiveStamp → Checked ReceiveStamp
unfolding stamp_tests
receive_stamp s = require (stamp_tests s) s

-- stamp_received_ms
unfoldable pub stamp_received_ms : ReceiveStamp → ℕ
stamp_received_ms s = s.received_wall_ns / 1_000_000

-- BinanceFuturesPriceTrace
unfoldable pub in_bucket : ℕ → ℕ → Bool
in_bucket start_ms wall_ns =
    let start_ns = start_ms * 1_000_000 in
    leb start_ns wall_ns && ltb wall_ns (start_ns + futures_bucket_ns)

unfoldable pub trace_tests : BinanceFuturesPriceTrace → List Test
unfolding require_all require_int require_price in_bucket
trace_tests t =
    require_int true (pos t.bucket_start_ms)
    ++ (t.bucket_start_ms % futures_bucket_ms == 0, unaligned_bucket)
      ∷ require_all true (
          t.first_received_wall_ns ∷ t.last_received_wall_ns ∷ t.first_received_monotonic_ns
          ∷ t.last_received_monotonic_ns ∷ t.first_trade_time_ms ∷ t.last_trade_time_ms
          ∷ t.first_event_time_ms ∷ t.last_event_time_ms ∷ [])
    ++ (leb t.first_received_monotonic_ns t.last_received_monotonic_ns, last_precedes_first)
      ∷ (
        in_bucket t.bucket_start_ms t.first_received_wall_ns
            && in_bucket t.bucket_start_ms t.last_received_wall_ns,
        outside_bucket,
      )
      ∷ require_price t.open_price
    ++ require_price t.high_price
    ++ require_price t.low_price
    ++ require_price t.close_price
    ++ (leb (max t.open_price (max t.low_price t.close_price)) t.high_price, bad_high)
      ∷ (leb t.low_price (min t.open_price (min t.high_price t.close_price)), bad_low)
      ∷ require_int true (pos t.event_count)
    ++ (leb t.event_count postgres_integer_max, exceeds_integer)
      ∷ require_all false (t.first_agg_trade_id ∷ t.last_agg_trade_id ∷ [])

unfoldable pub price_trace : BinanceFuturesPriceTrace → Checked BinanceFuturesPriceTrace
unfolding trace_tests
price_trace t = require (trace_tests t) t

-- FeedSessionRecord
unfoldable pub is_present : {A : Type 0} → Option A → Bool
is_present none = false
is_present (some a) = true

unfoldable pub same_presence : {A : Type 0} → Option A → Option A → Bool
same_presence none none = true
same_presence (some a) (some b) = true
same_presence _ _ = false

-- `later is None or later >= earlier`
unfoldable pub not_before : Option ℕ → ℕ → Bool
not_before none earlier = true
not_before (some later) earlier = leb earlier later

-- `earlier is None or later >= earlier`
unfoldable pub not_after : Option ℕ → ℕ → Bool
not_after none later = true
not_after (some earlier) later = leb earlier later

unfoldable pub closing_tests : FeedSessionRecord → Option ℕ → List Test
unfolding is_present not_after
closing_tests r none = (not (is_present r.close_reason), open_with_reason) ∷ []
closing_tests r (some disconnected) =
    (is_present r.close_reason, bad_close_reason)
    ∷ (leb r.connected_monotonic_ns disconnected, disconnect_precedes_connection)
    ∷ (not_after r.ready_monotonic_ns disconnected, disconnect_precedes_ready)
    ∷ []

-- The tests that follow those of the ready clocks' own values.
unfoldable pub total_tests : FeedSessionRecord → List Test
unfolding require_all require_int
total_tests r =
    require_all false (
      r.messages_received_total ∷ r.messages_accepted_total ∷ r.parse_errors_total
      ∷ r.records_dropped_total ∷ r.last_receive_sequence ∷ [])
    ++ ((
      leb (r.messages_accepted_total + r.parse_errors_total) r.messages_received_total,
      too_many_outcomes,
    )
        ∷ (r.last_receive_sequence == r.messages_received_total, sequence_mismatch)
        ∷ [])

unfoldable pub disconnect_tests : FeedSessionRecord → List Test
unfolding require_optional same_presence not_before closing_tests total_tests
disconnect_tests r =
    (not_before r.ready_monotonic_ns r.connected_monotonic_ns, ready_precedes_connection)
    ∷ (same_presence r.disconnected_wall_ns r.disconnected_monotonic_ns, unpaired_disconnect)
    ∷ (require_optional r.disconnected_wall_ns
        ++ (require_optional r.disconnected_monotonic_ns
            ++ (closing_tests r r.disconnected_monotonic_ns ++ total_tests r)))

unfoldable pub session_tests : FeedSessionRecord → List Test
unfolding require_all require_int require_optional same_presence disconnect_tests
session_tests r =
    require_all true (r.connected_wall_ns ∷ r.connected_monotonic_ns ∷ [])
    ++ ((same_presence r.ready_wall_ns r.ready_monotonic_ns, unpaired_ready)
        ∷ (require_optional r.ready_wall_ns
            ++ (require_optional r.ready_monotonic_ns ++ disconnect_tests r)))

unfoldable pub feed_session_record : FeedSessionRecord → Checked FeedSessionRecord
unfolding session_tests
feed_session_record r = require (session_tests r) r

-- CaptureCounterSnapshot
unfoldable pub snapshot_tests : CaptureCounterSnapshot → List Test
unfolding require_all require_int
snapshot_tests c =
    require_all false (
      c.messages_received_total ∷ c.messages_accepted_total ∷ c.parse_errors_total
      ∷ c.records_coalesced_total ∷ c.records_enqueued_total ∷ c.records_persisted_total
      ∷ c.records_dropped_total ∷ c.batches_failed_total ∷ c.maintenance_runs_total
      ∷ c.maintenance_failures_total ∷ c.queue_depth ∷ c.queue_high_water ∷ c.last_batch_rows ∷ [])
    ++ (leb c.queue_depth c.queue_high_water, depth_above_high_water)
      ∷ (neg_part c.last_batch_duration_ns == 0, negative_duration)
      ∷ optional_bigint c.raw_table_bytes
  where
    optional_bigint : Option ℕ → List Test
    optional_bigint none = []
    optional_bigint (some n) = require_int false (pos n)

unfoldable pub counter_snapshot : CaptureCounterSnapshot → Checked CaptureCounterSnapshot
unfolding snapshot_tests
counter_snapshot c = require (snapshot_tests c) c

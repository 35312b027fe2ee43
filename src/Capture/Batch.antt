-- ===== src/Capture/Batch.antt =====
-- `_write_batch` and `_run_maintenance` of price_collector/raw_capture.py. The storage backend is
-- not under this file: what each of its calls did is an argument.
pub mod Rows
use pythonbtccollector.Common.{
  ℕ, ◌+◌, ◌-◌, ◌≡◌, refl, Bool, true, false, not, Option, none, some, List, [], ◌∷◌, ◌++◌, String,
  if◌then◌else◌, length, filter,
}
use pythonbtccollector.Common.Int.{ℤ}
use pythonbtccollector.Common.Result.{Result, ok, err, ◌>>=◌, ◌>>◌}
use pythonbtccollector.Capture.Checks.{Checked}
use pythonbtccollector.Capture.Counters.{
  CaptureCounters, record_batch_result, record_storage_state, record_maintenance,
}
use pythonbtccollector.Capture.Types.{
  futures_bucket_ms, futures_bucket_ns, postgres_bigint_max, postgres_integer_max,
  postgres_numeric_limit, sealed_connection_history_max, FeedSessionSource, CloseReason,
  CaptureError, ReceiveStamp, FuturesTradeObservation, BinanceFuturesPriceTrace,
  ChainlinkPriceEvent, FeedSessionRecord, CaptureCounterSnapshot, binance_futures_agg_trade,
  polymarket_chainlink_rtds, remote_close, error, proactive_reconnect, shutdown, not_positive,
  negative_integer, exceeds_bigint, exceeds_integer, price_not_positive, price_too_large,
  price_too_fine, unaligned_bucket, last_precedes_first, outside_bucket, bad_high, bad_low,
  unpaired_ready, ready_precedes_connection, unpaired_disconnect, open_with_reason,
  bad_close_reason, disconnect_precedes_connection, disconnect_precedes_ready, too_many_outcomes,
  sequence_mismatch, depth_above_high_water, negative_duration, rows_mismatch, session_closed,
  already_ready, now_precedes_pending, bad_limit, dropped_not_bool, accepted_on_closed_buffer,
}

pub data CaptureRecord : Type 0 where
  futures : BinanceFuturesPriceTrace → CaptureRecord
  chainlink : ChainlinkPriceEvent → CaptureRecord
  feed_session : FeedSessionRecord → CaptureRecord

unfoldable pub is_futures : CaptureRecord → Bool
is_futures (futures r) = true
is_futures _ = false

unfoldable pub is_chainlink : CaptureRecord → Bool
is_chainlink (chainlink r) = true
is_chainlink _ = false

unfoldable pub is_feed_session : CaptureRecord → Bool
is_feed_session (feed_session r) = true
is_feed_session _ = false

-- How an awaited call of the backend ended.
pub data WriteOutcome : Type 0 where
  returned : WriteOutcome
  raised : WriteOutcome
  cancelled : WriteOutcome

pub record Outcomes : Type 0 where
  pub creation : WriteOutcome
  pub copy_futures_traces : WriteOutcome
  pub copy_chainlink_events : WriteOutcome
  pub upsert_feed_sessions : WriteOutcome

pub record Tally : Type 0 where
  pub persisted : ℕ
  pub dropped : ℕ
  pub failed : Bool
  pub is_cancelled : Bool

-- One group of the loop; nothing is written after a cancellation, and an empty group is skipped.
unfoldable pub write_group : List CaptureRecord → WriteOutcome → Tally → Tally
write_group [] outcome t = t
write_group (r ∷ rs) WriteOutcome.returned t =
    if t.is_cancelled then t else record t { persisted = t.persisted + length (r ∷ rs) }
write_group (r ∷ rs) WriteOutcome.raised t =
    if t.is_cancelled then t else record t { dropped = t.dropped + length (r ∷ rs); failed = true }
write_group (r ∷ rs) WriteOutcome.cancelled t = record t { is_cancelled = true }

unfoldable pub write_groups : Outcomes → List CaptureRecord → Tally → Tally
unfolding write_group is_futures is_chainlink is_feed_session
write_groups o batch t = write_group (filter is_feed_session batch) o.upsert_feed_sessions (
    write_group (filter is_chainlink batch) o.copy_chainlink_events
      (write_group (filter is_futures batch) o.copy_futures_traces t))

abbrev pub empty_tally : Tally
empty_tally = record { persisted = 0; dropped = 0; failed = false; is_cancelled = false }

-- The body of the outer `try`, by how `_ensure_backend` ended.
unfoldable pub tally_batch : WriteOutcome → Outcomes → List CaptureRecord → Tally
unfolding write_groups
tally_batch WriteOutcome.returned o batch = write_groups o batch empty_tally
tally_batch WriteOutcome.raised o batch = record empty_tally {
  dropped = length batch;
  failed = true;
}
tally_batch WriteOutcome.cancelled o batch = record empty_tally { is_cancelled = true }

-- What a cancelled write has left is dropped.
unfoldable pub settle_tally : ℕ → Tally → Tally
settle_tally rows t =
    if t.is_cancelled
    then record t { dropped = t.dropped + (rows - t.persisted - t.dropped); failed = true }
    else t

-- _write_batch: the counters after it, and whether the cancellation goes on.
unfoldable pub write_batch :
    Outcomes → ℤ → List CaptureRecord → CaptureCounters → Checked (Bool × CaptureCounters)
unfolding tally_batch settle_tally record_batch_result
write_batch o duration_ns batch c = do
  let t = settle_tally (length batch) (tally_batch o.creation o batch)
  counted ← record_batch_result (length batch) t.persisted t.dropped t.failed duration_ns c
  ok (t.is_cancelled, counted)

-- What a maintenance that was not cancelled saw: an exception, or what `maintain` answered and the
-- two attributes of the backend.
pub data Maintained : Type 0 where
  maintenance_failed : Maintained
  maintained : Bool → Option String → Option ℕ → Maintained

-- What `_run_maintenance` makes of it: whether storage is permitted, and the counters before the
-- buffer is discarded.
unfoldable pub note_maintenance : Maintained → CaptureCounters → Bool × CaptureCounters
unfolding record_storage_state record_maintenance
note_maintenance maintenance_failed c = (false, record_maintenance false false c)
note_maintenance (maintained permitted partition bytes) c =
    (permitted, record_maintenance true permitted (record_storage_state partition bytes c))

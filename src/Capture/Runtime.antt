-- ===== src/Capture/Runtime.antt =====
-- RawCaptureRuntime of price_collector/raw_capture.py. Between two waits of the event loop each
-- task does one of the functions below; where the writer task stands is a field of the state. The
-- clock decides when maintenance is due and when a wait ends: both ways are steps.
pub mod Steps
use pythonbtccollector.Common.{
  ℕ, ◌+◌, ◌-◌, ◌≡◌, refl, Bool, true, false, not, Option, none, some, List, [], ◌∷◌, ◌++◌, leb, ltb,
  ◌&&◌, ◌||◌, if◌then◌else◌, length,
}
use pythonbtccollector.Common.Int.{ℤ}
use pythonbtccollector.Common.Result.{Result, ok, err, ◌>>=◌, ◌>>◌}
use pythonbtccollector.Capture.Checks.{Test, Checked, require, require_all}
use pythonbtccollector.Capture.Counters.{CaptureCounters, new_counters, record_dropped}
use pythonbtccollector.Capture.Buffer.{
  Buffer, OfferResult, offer_result, new_buffer, push_nowait, drain_nowait, discard_all, wake,
  no_items,
}
use pythonbtccollector.Capture.Batch.{
  CaptureRecord, Outcomes, write_batch, Maintained, note_maintenance,
}
use pythonbtccollector.Capture.Types.{
  futures_bucket_ms, futures_bucket_ns, postgres_bigint_max, postgres_integer_max,
  postgres_numeric_limit, sealed_connection_history_max, FeedSessionSource, CloseReason,
  CaptureError, ReceiveStamp, FuturesTradeObservation, BinanceFuturesPriceTrace,
  ChainlinkPriceEvent, FeedSessionRecord, CaptureCounterSnapshot, binance_futures_agg_trade,
  polymarket_chainlink_rtds, remote_close, error, proactive_reconnect, cancelled, shutdown,
  not_positive, negative_integer, exceeds_bigint, exceeds_integer, price_not_positive,
  price_too_large, price_too_fine, unaligned_bucket, last_precedes_first, outside_bucket, bad_high,
  bad_low, unpaired_ready, ready_precedes_connection, unpaired_disconnect, open_with_reason,
  bad_close_reason, disconnect_precedes_connection, disconnect_precedes_ready, too_many_outcomes,
  sequence_mismatch, depth_above_high_water, negative_duration, rows_mismatch, session_closed,
  already_ready, now_precedes_pending, bad_limit, dropped_not_bool, accepted_on_closed_buffer,
}

-- Where `_writer_loop` stands: not begun; at the top; past its maintenance; waiting while storage
-- is suspended; in `_take_batch` with the batch so far; with a batch before and after the second
-- maintenance; ended.
pub data Writer : Type 0 where
  not_started : Writer
  at_top : Writer
  deciding : Writer
  suspended : Writer
  taking : List CaptureRecord → Writer
  holding : List CaptureRecord → Writer
  deciding_batch : List CaptureRecord → Writer
  ended : Writer

pub record RawCaptureRuntime : Type 0 where
  pub counters : CaptureCounters
  pub buffer : Buffer CaptureRecord
  pub batch_max_rows : ℕ
  pub writer : Writer
  pub stop_requested : Bool
  pub accepting_offers : Bool
  pub storage_permitted : Bool
  pub shutdown_buffer_accounted : Bool

-- RawCaptureRuntime(queue_max_events=..., batch_max_rows=...)
unfoldable pub new_runtime : ℕ → ℕ → CaptureCounters → Checked RawCaptureRuntime
unfolding require_all new_buffer
new_runtime queue_max_events batch_max_rows c = do
  require
      (require_all true (queue_max_events ∷ batch_max_rows ∷ [])
        ++ (leb batch_max_rows queue_max_events, bad_limit) ∷ [])
      c
  buffer ← new_buffer queue_max_events
  ok (record {
    counters = c;
    buffer = buffer;
    batch_max_rows = batch_max_rows;
    writer = not_started;
    stop_requested = false;
    accepting_offers = true;
    storage_permitted = true;
    shutdown_buffer_accounted = false;
  })

abbrev pub Offered : Type 0
Offered = Checked (OfferResult CaptureRecord × RawCaptureRuntime)

-- offer_nowait of a runtime that is closed or suspended
unfoldable pub refuse_record : RawCaptureRuntime → Offered
unfolding record_dropped offer_result
refuse_record r = do
  counted ← record_dropped 1 r.counters
  result ← offer_result (record {
    accepted = false;
    dropped_oldest = false;
    dropped_record = none;
    queue_depth = length r.buffer.items;
    queue_high_water = r.buffer.high_water;
  })
  ok (result, record r { counters = counted })

unfoldable pub push_record : CaptureRecord → RawCaptureRuntime → Offered
unfolding push_nowait
push_record x r = do
  (result, buffer, counted) ← push_nowait x r.buffer r.counters
  ok (result, record r { buffer = buffer; counters = counted })

unfoldable pub offer_record : CaptureRecord → RawCaptureRuntime → Offered
unfolding refuse_record push_record
offer_record x r =
    if not r.accepting_offers || not r.storage_permitted then refuse_record r else push_record x r

-- Discard the buffer and count what it held.
unfoldable pub discard_counted : RawCaptureRuntime → Checked RawCaptureRuntime
unfolding discard_all record_dropped
discard_counted r = do
  let (discarded, buffer) = discard_all r.buffer
  counted ← record_dropped discarded r.counters
  ok (record r { buffer = buffer; counters = counted })

-- _discard_shutdown_buffer_once
unfoldable pub discard_once : RawCaptureRuntime → Checked RawCaptureRuntime
unfolding discard_counted
discard_once r =
    if r.shutdown_buffer_accounted
    then ok r
    else discard_counted r >>= λ r. ok (record r { shutdown_buffer_accounted = true })

-- close up to its first wait
unfoldable pub request_stop : RawCaptureRuntime → RawCaptureRuntime
unfolding wake
request_stop r =
    if r.stop_requested
    then r
    else record r { accepting_offers = false; stop_requested = true; buffer = wake r.buffer }

-- The rest of `_run_maintenance` once the backend has answered.
unfoldable pub run_maintenance : Maintained → RawCaptureRuntime → Checked RawCaptureRuntime
unfolding note_maintenance discard_counted
run_maintenance answer r =
    let (permitted, counted) = note_maintenance answer r.counters in
    let noted = record r { storage_permitted = permitted; counters = counted } in
    if permitted then ok noted else discard_counted noted

abbrev pub move_to : Writer → RawCaptureRuntime → RawCaptureRuntime
move_to w r = record r { writer = w }

-- The writer after the maintenance at the top of its loop.
unfoldable pub decide_turn : RawCaptureRuntime → RawCaptureRuntime
unfolding no_items
decide_turn r =
    if r.stop_requested && no_items r.buffer.items
    then move_to ended r
    else if r.storage_permitted
    then move_to (taking []) r
    else move_to suspended r

-- After the wait of a suspended writer.
unfoldable pub resume_suspended : RawCaptureRuntime → Checked RawCaptureRuntime
unfolding discard_counted no_items
resume_suspended r =
    if no_items r.buffer.items
    then ok (move_to at_top r)
    else discard_counted r >>= λ r. ok (move_to at_top r)

-- The writer with the batch of `_take_batch`, which may be empty.
unfoldable pub hold_batch : List CaptureRecord → Writer
hold_batch [] = at_top
hold_batch (x ∷ batch) = holding (x ∷ batch)

-- One pass of the loop of `_take_batch`: the batch grows, and is full, or the writer is asked to
-- stop, or it waits for more.
unfoldable pub take_more : List CaptureRecord → RawCaptureRuntime → Checked RawCaptureRuntime
unfolding drain_nowait hold_batch
take_more batch r = do
  (drained, buffer) ← drain_nowait (r.batch_max_rows - length batch) r.buffer
  let taken = batch ++ drained
  let full = leb r.batch_max_rows (length taken) || r.stop_requested
  ok (record r { buffer = buffer; writer = if full then hold_batch taken else taking taken })

-- A batch in hand that is not written.
unfoldable pub drop_batch :
    Writer → List CaptureRecord → RawCaptureRuntime → Checked RawCaptureRuntime
unfolding record_dropped
drop_batch w batch r = do
  counted ← record_dropped (length batch) r.counters
  ok (record r { counters = counted; writer = w })

unfoldable pub store_batch :
    Outcomes → ℤ → List CaptureRecord → RawCaptureRuntime → Checked RawCaptureRuntime
unfolding write_batch
store_batch outcomes duration_ns batch r = do
  (is_cancelled, counted) ← write_batch outcomes duration_ns batch r.counters
  ok (record r { counters = counted; writer = if is_cancelled then ended else at_top })

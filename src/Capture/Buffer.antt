-- ===== src/Capture/Buffer.antt =====
-- DropOldestCaptureBuffer of price_collector/raw_capture.py, with the counters a runtime gives it.
-- The warning about a drop and its hook are left out.
pub mod Refines
pub mod Bounds
use pythonbtccollector.Common.{
  ℕ, zero, suc, ◌+◌, ◌≡◌, refl, Bool, true, false, Option, none, some, List, [], ◌∷◌, ◌++◌, leb,
  max, if◌then◌else◌, length,
}
use pythonbtccollector.Common.Int.{pos}
use pythonbtccollector.Common.Result.{Result, ok, err, ◌>>=◌, ◌>>◌}
use pythonbtccollector.Capture.Checks.{Test, Checked, require, require_int, require_all}
use pythonbtccollector.Capture.Counters.{
  CaptureCounters, record_dropped, record_enqueued, observe_queue_depth,
}
use pythonbtccollector.Capture.Types.{
  futures_bucket_ms, futures_bucket_ns, postgres_bigint_max, postgres_integer_max,
  postgres_numeric_limit, sealed_connection_history_max, FeedSessionSource, CloseReason,
  CaptureError, ReceiveStamp, FuturesTradeObservation, BinanceFuturesPriceTrace,
  ChainlinkPriceEvent, FeedSessionRecord, CaptureCounterSnapshot, binance_futures_agg_trade,
  polymarket_chainlink_rtds, remote_close, error, proactive_reconnect, cancelled, shutdown,
  not_positive, negative_integer, exceeds_bigint, exceeds_integer, price_not_positive,
  price_too_large, price_too_fine, unaligned_bucket, last_precedes_first, outside_bucket, bad_high,
  bad_low, unpaired_ready, ready_precedes_connection, unpaired_disconnect, open_with_reason,
  bad_close_reason, disconnect_precedes_connection, disconnect_precedes_ready, too_many_outcomes,
  sequence_mismatch, depth_above_high_water, negative_duration, rows_mismatch, session_closed,
  already_ready, now_precedes_pending, bad_limit, dropped_not_bool, accepted_on_closed_buffer,
}

pub record OfferResult (A : Type 0) : Type 0 where
  pub accepted : Bool
  pub dropped_oldest : Bool
  pub dropped_record : Option A
  pub queue_depth : ℕ
  pub queue_high_water : ℕ

-- OfferResult.__post_init__
unfoldable pub offer_result : {A : Type 0} → OfferResult A → Checked (OfferResult A)
unfolding require_all require_int
offer_result r =
    require
      (require_all false (r.queue_depth ∷ r.queue_high_water ∷ [])
        ++ (leb r.queue_depth r.queue_high_water, depth_above_high_water) ∷ [])
      r

-- `available` is the asyncio.Event, and whether it is set, once someone has waited.
pub record Buffer (A : Type 0) : Type 0 where
  pub items : List A
  pub max_events : ℕ
  pub high_water : ℕ
  pub available : Option Bool

unfoldable pub new_buffer : {A : Type 0} → ℕ → Checked (Buffer A)
new_buffer max_events =
    require ((leb 1 max_events, bad_limit) ∷ [])
      (record { items = []; max_events = max_events; high_water = 0; available = none })

-- set() and clear() of the event, if there is one
unfoldable pub signal : Bool → Option Bool → Option Bool
signal b none = none
signal b (some old) = some b

unfoldable pub no_items : {A : Type 0} → List A → Bool
no_items [] = true
no_items (x ∷ xs) = false

-- The oldest item, and the others.
unfoldable pub pop_left : {A : Type 0} → List A → Option A × List A
pop_left [] = (none, [])
pop_left (x ∷ xs) = (some x, xs)

-- The items after an offer, and the item that made room.
unfoldable pub push_item : {A : Type 0} → A → ℕ → List A → Option A × List A
unfolding pop_left
push_item x max_events items =
    if leb max_events (length items)
    then ((pop_left items).0, (pop_left items).1 ++ x ∷ [])
    else (none, items ++ x ∷ [])

-- What an offer counts.
unfoldable pub count_offer : Bool → ℕ → CaptureCounters → Checked CaptureCounters
unfolding record_dropped record_enqueued observe_queue_depth
count_offer dropped depth c = do
  counted ← (if dropped then record_dropped 1 c else ok c)
  observe_queue_depth depth (record_enqueued counted)

-- offer_nowait
unfoldable pub push_nowait :
    {A : Type 0}
    → A
    → Buffer A
    → CaptureCounters
    → Checked (OfferResult A × Buffer A × CaptureCounters)
unfolding push_item count_offer offer_result signal
push_nowait x b c = do
  let (dropped, items) = push_item x b.max_events b.items
  let high_water = max b.high_water (length items)
  counted ← count_offer (leb b.max_events (length b.items)) (length items) c
  result ← offer_result (record {
    accepted = true;
    dropped_oldest = leb b.max_events (length b.items);
    dropped_record = dropped;
    queue_depth = length items;
    queue_high_water = high_water;
  })
  ok (
    result,
    record b { items = items; high_water = high_water; available = signal true b.available },
    counted,
  )

-- The loop of drain_nowait: what is drained, and what stays.
unfoldable pub drain_loop : {A : Type 0} → ℕ → List A → List A × List A
drain_loop zero items = ([], items)
drain_loop (suc limit) [] = ([], [])
drain_loop (suc limit) (x ∷ xs) = let (drained, rest) = drain_loop limit xs in (x ∷ drained, rest)

unfoldable pub after_drain : {A : Type 0} → List A → Option Bool → Option Bool
unfolding signal no_items
after_drain items available = if no_items items then signal false available else available

unfoldable pub drain_nowait : {A : Type 0} → ℕ → Buffer A → Checked (List A × Buffer A)
unfolding drain_loop after_drain
drain_nowait limit b =
    let (drained, rest) = drain_loop limit b.items in
    require ((leb 1 limit, bad_limit) ∷ [])
      (drained, record b { items = rest; available = after_drain rest b.available })

-- discard_all: how many, and the buffer after it
unfoldable pub discard_all : {A : Type 0} → Buffer A → ℕ × Buffer A
unfolding signal
discard_all b = (length b.items, record b { items = []; available = signal false b.available })

-- wait_for_item up to its wait: whether there is an item at once, and the event it waits for
unfoldable pub begin_wait : {A : Type 0} → Buffer A → Bool × Buffer A
unfolding no_items
begin_wait b = if no_items b.items then (false, record b { available = some false }) else (true, b)

-- wait_for_item after its wait, by whether that timed out
unfoldable pub finish_wait : {A : Type 0} → Bool → Buffer A → Bool
unfolding no_items
finish_wait true b = false
finish_wait false b = if no_items b.items then false else true

unfoldable pub wake : {A : Type 0} → Buffer A → Buffer A
unfolding signal
wake b = record b { available = signal true b.available }

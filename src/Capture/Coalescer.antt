-- ===== src/Capture/Coalescer.antt =====
-- _PendingFuturesBucket and FuturesPriceTraceCoalescer of price_collector/raw_capture.py: the
-- trades of one connection that arrive in the same 100 ms become one trace. A call returns the
-- trace it seals, the coalescer and the counters. The warnings of the log are left out.
pub mod Valid
pub mod Groups
pub mod Runs
pub mod Accounts
use pythonbtccollector.Common.{
  ℕ, ◌+◌, ◌-◌, ◌*◌, ◌/◌, ◌≡◌, refl, Bool, true, false, Option, none, some, List, [], ◌∷◌, ◌++◌,
  ◌==◌, leb, ltb, not, ◌&&◌, ◌||◌, if◌then◌else◌, min, max, length, drop,
}
use pythonbtccollector.Common.Int.{pos}
use pythonbtccollector.Common.Dict.{Dict, lookup, remove, nat_Eq}
use pythonbtccollector.Common.Result.{Result, ok, err, ◌>>=◌, ◌>>◌}
use pythonbtccollector.Capture.Checks.{Test, Checked, require, require_int}
use pythonbtccollector.Capture.Records.{price_trace}
use pythonbtccollector.Capture.Counters.{
  CaptureCounters, record_dropped, record_coalesced, when_counted,
}
use pythonbtccollector.Capture.Types.{
  futures_bucket_ms, futures_bucket_ns, postgres_bigint_max, postgres_integer_max,
  postgres_numeric_limit, sealed_connection_history_max, FeedSessionSource, CloseReason,
  CaptureError, ReceiveStamp, FuturesTradeObservation, BinanceFuturesPriceTrace,
  ChainlinkPriceEvent, FeedSessionRecord, CaptureCounterSnapshot, binance_futures_agg_trade,
  polymarket_chainlink_rtds, remote_close, error, proactive_reconnect, cancelled, shutdown,
  not_positive, negative_integer, exceeds_bigint, exceeds_integer, price_not_positive,
  price_too_large, price_too_fine, unaligned_bucket, last_precedes_first, outside_bucket, bad_high,
  bad_low, unpaired_ready, ready_precedes_connection, unpaired_disconnect, open_with_reason,
  bad_close_reason, disconnect_precedes_connection, disconnect_precedes_ready, too_many_outcomes,
  sequence_mismatch, depth_above_high_water, negative_duration, rows_mismatch, session_closed,
  already_ready, now_precedes_pending, bad_limit, dropped_not_bool, accepted_on_closed_buffer,
}

-- (received_wall_ns // FUTURES_BUCKET_NS) * FUTURES_BUCKET_MS
unfoldable pub bucket_of : ℕ → ℕ
bucket_of wall_ns = wall_ns / futures_bucket_ns * futures_bucket_ms

-- _PendingFuturesBucket(observation)
unfoldable pub open_bucket : FuturesTradeObservation → BinanceFuturesPriceTrace
unfolding bucket_of
open_bucket o = record {
  bucket_start_ms = bucket_of o.received_wall_ns;
  connection_id = o.connection_id;
  first_received_wall_ns = o.received_wall_ns;
  last_received_wall_ns = o.received_wall_ns;
  first_received_monotonic_ns = o.received_monotonic_ns;
  last_received_monotonic_ns = o.received_monotonic_ns;
  first_trade_time_ms = o.trade_time_ms;
  last_trade_time_ms = o.trade_time_ms;
  first_event_time_ms = o.event_time_ms;
  last_event_time_ms = o.event_time_ms;
  open_price = o.price;
  high_price = o.price;
  low_price = o.price;
  close_price = o.price;
  event_count = 1;
  first_agg_trade_id = o.agg_trade_id;
  last_agg_trade_id = o.agg_trade_id;
}

-- _PendingFuturesBucket.add
unfoldable pub add_to_bucket :
    FuturesTradeObservation → BinanceFuturesPriceTrace → BinanceFuturesPriceTrace
add_to_bucket o p = record p {
  last_received_wall_ns = o.received_wall_ns;
  last_received_monotonic_ns = o.received_monotonic_ns;
  last_trade_time_ms = o.trade_time_ms;
  last_event_time_ms = o.event_time_ms;
  high_price = max p.high_price o.price;
  low_price = min p.low_price o.price;
  close_price = o.price;
  event_count = p.event_count + 1;
  last_agg_trade_id = o.agg_trade_id;
}

pub record Coalescer : Type 0 where
  pub pending : Option BinanceFuturesPriceTrace
  -- the last sealed bucket of each connection, the latest sealed last
  pub sealed : Dict ℕ ℕ

-- FuturesPriceTraceCoalescer()
unfoldable pub new_coalescer : Coalescer
new_coalescer = record { pending = none; sealed = [] }

abbrev pub Emitted : Type 0
Emitted = Checked (Option BinanceFuturesPriceTrace × Coalescer × Option CaptureCounters)

-- Assign a key and move it to the end.
unfoldable pub put_newest : ℕ → ℕ → Dict ℕ ℕ → Dict ℕ ℕ
put_newest k v d = remove k d ++ (k, v) ∷ []

unfoldable pub is_full : Option ℕ → Dict ℕ ℕ → Bool
is_full none d = leb sealed_connection_history_max (length d)
is_full (some previous) d = false

unfoldable pub is_later : ℕ → Option ℕ → Bool
is_later bucket none = true
is_later bucket (some previous) = ltb previous bucket

-- The history after a sealing, with its entry for the connection before.
unfoldable pub note_sealed : ℕ → ℕ → Dict ℕ ℕ → Dict ℕ ℕ
unfolding put_newest is_full is_later
note_sealed connection bucket d =
    let previous = lookup connection d in
    if is_later bucket previous
    then put_newest connection bucket (if is_full previous d then drop 1 d else d)
    else d

-- _seal_pending, of a pending bucket; the caller sets what is pending next
unfoldable pub seal_pending :
    BinanceFuturesPriceTrace → Coalescer → Checked (BinanceFuturesPriceTrace × Coalescer)
unfolding price_trace note_sealed
seal_pending p c = do
  finished ← price_trace p
  ok (
    finished,
    record c { sealed = note_sealed finished.connection_id finished.bucket_start_ms c.sealed },
  )

-- _drop_out_of_sequence
unfoldable pub drop_out_of_sequence : Coalescer → Option CaptureCounters → Emitted
unfolding when_counted record_dropped
drop_out_of_sequence c counters = do
  counted ← when_counted (record_dropped 1) counters
  ok (none, c, counted)

unfoldable pub join_bucket :
    FuturesTradeObservation
    → BinanceFuturesPriceTrace
    → Coalescer
    → Option CaptureCounters
    → Emitted
unfolding add_to_bucket when_counted record_coalesced
join_bucket o p c counters = do
  counted ← when_counted (λ n. ok (record_coalesced n)) counters
  ok (none, record c { pending = some (add_to_bucket o p) }, counted)

unfoldable pub seal_and_open :
    FuturesTradeObservation
    → BinanceFuturesPriceTrace
    → Coalescer
    → Option CaptureCounters
    → Emitted
unfolding seal_pending open_bucket
seal_and_open o p c counters = do
  (finished, sealed) ← seal_pending p c
  ok (some finished, record sealed { pending = some (open_bucket o) }, counters)

unfoldable pub already_sealed : ℕ → Option ℕ → Bool
already_sealed bucket none = false
already_sealed bucket (some last) = leb bucket last

-- add_trade of a bucket that is not sealed, by what is pending
unfoldable pub add_open :
    FuturesTradeObservation
    → Option BinanceFuturesPriceTrace
    → Coalescer
    → Option CaptureCounters
    → Emitted
unfolding bucket_of open_bucket drop_out_of_sequence join_bucket seal_and_open
add_open o none c counters = ok (none, record c { pending = some (open_bucket o) }, counters)
add_open o (some p) c counters =
    let same = p.connection_id == o.connection_id in
    let bucket = bucket_of o.received_wall_ns in
    if same && (p.bucket_start_ms == bucket)
    then (if ltb o.received_monotonic_ns p.last_received_monotonic_ns
        then drop_out_of_sequence c counters
        else join_bucket o p c counters)
    else if same && ltb bucket p.bucket_start_ms
    then drop_out_of_sequence c counters
    else seal_and_open o p c counters

unfoldable pub add_trade : FuturesTradeObservation → Coalescer → Option CaptureCounters → Emitted
unfolding bucket_of already_sealed drop_out_of_sequence add_open
add_trade o c counters =
    if already_sealed (bucket_of o.received_wall_ns) (lookup o.connection_id c.sealed)
    then drop_out_of_sequence c counters
    else add_open o c.pending c counters

unfoldable pub finish_by_pending :
    Option BinanceFuturesPriceTrace → Coalescer → Option CaptureCounters → Emitted
unfolding seal_pending
finish_by_pending none c counters = ok (none, c, counters)
finish_by_pending (some p) c counters = do
  (finished, sealed) ← seal_pending p c
  ok (some finished, record sealed { pending = none }, counters)

-- finish
unfoldable pub finish_bucket : Coalescer → Option CaptureCounters → Emitted
unfolding finish_by_pending
finish_bucket c counters = finish_by_pending c.pending c counters

unfoldable pub clock_tests : Option ℕ → BinanceFuturesPriceTrace → List Test
unfolding require_int
clock_tests none p = []
clock_tests (some now) p =
    require_int true (pos now) ++ (leb p.last_received_monotonic_ns now, now_precedes_pending) ∷ []

unfoldable pub has_elapsed : ℕ → Option ℕ → BinanceFuturesPriceTrace → Bool
has_elapsed wall_ns none p = leb ((p.bucket_start_ms + futures_bucket_ms) * 1_000_000) wall_ns
has_elapsed wall_ns (some now) p =
    leb ((p.bucket_start_ms + futures_bucket_ms) * 1_000_000) wall_ns
    || leb futures_bucket_ns (now - p.last_received_monotonic_ns)

unfoldable pub elapsed_by_pending :
    ℕ → Option ℕ → Option BinanceFuturesPriceTrace → Coalescer → Option CaptureCounters → Emitted
unfolding clock_tests has_elapsed finish_bucket
elapsed_by_pending wall_ns monotonic_ns none c counters = ok (none, c, counters)
elapsed_by_pending wall_ns monotonic_ns (some p) c counters =
    require (clock_tests monotonic_ns p) c
    >> (if has_elapsed wall_ns monotonic_ns p
        then finish_bucket c counters
        else ok (none, c, counters))

unfoldable pub finish_if_elapsed : ℕ → Option ℕ → Coalescer → Option CaptureCounters → Emitted
unfolding require_int elapsed_by_pending
finish_if_elapsed wall_ns monotonic_ns c counters =
    require (require_int true (pos wall_ns)) c
    >> elapsed_by_pending wall_ns monotonic_ns c.pending c counters

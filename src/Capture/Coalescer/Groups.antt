-- ===== src/Capture/Coalescer/Groups.antt =====
-- The traces of price_collector/raw_capture.py against a description of their own: consecutive
-- trades of one bucket are a group, and a trace is the summary of a group.
use pythonbtccollector.Common.{
  ℕ, ◌+◌, ◌≡◌, refl, Option, none, some, List, [], ◌∷◌, ◌++◌, ◌==◌, max, min, arith, if◌then◌else◌,
  length, length-append,
}
use pythonbtccollector.Common.Dict.{nat_Eq}
use pythonbtccollector.Common.Result.{ok, ◌>>=◌}
use pythonbtccollector.Capture.Checks.{Checked}
use pythonbtccollector.Capture.Counters.{CaptureCounters}
use pythonbtccollector.Capture.Coalescer.{
  bucket_of, add_to_bucket, Coalescer, add_trade, finish_bucket,
}
use pythonbtccollector.Capture.Types.{FuturesTradeObservation, BinanceFuturesPriceTrace}

abbrev pub Group : Type 0
Group = FuturesTradeObservation × List FuturesTradeObservation

-- The groups of the trades, after a group that has begun.
unfoldable pub groups_from : Group → List FuturesTradeObservation → List Group
unfolding bucket_of
groups_from g [] = g ∷ []
groups_from g (o ∷ os) =
    if bucket_of g.0.received_wall_ns == bucket_of o.received_wall_ns
    then groups_from (g.0, g.1 ++ o ∷ []) os
    else g ∷ groups_from (o, []) os

unfoldable pub last_trade : Group → FuturesTradeObservation
last_trade (o, []) = o
last_trade (o, x ∷ xs) = last_trade (x, xs)

unfoldable pub highest : ℕ → List FuturesTradeObservation → ℕ
highest price [] = price
highest price (o ∷ os) = max o.price (highest price os)

unfoldable pub lowest : ℕ → List FuturesTradeObservation → ℕ
lowest price [] = price
lowest price (o ∷ os) = min o.price (lowest price os)

-- The trace of a group: its first and last trade, its extreme prices, and how many trades it has.
unfoldable pub summarise : Group → BinanceFuturesPriceTrace
unfolding bucket_of last_trade highest lowest
summarise (first, others) =
    let last = last_trade (first, others) in
    record {
      bucket_start_ms = bucket_of first.received_wall_ns;
      connection_id = first.connection_id;
      first_received_wall_ns = first.received_wall_ns;
      last_received_wall_ns = last.received_wall_ns;
      first_received_monotonic_ns = first.received_monotonic_ns;
      last_received_monotonic_ns = last.received_monotonic_ns;
      first_trade_time_ms = first.trade_time_ms;
      last_trade_time_ms = last.trade_time_ms;
      first_event_time_ms = first.event_time_ms;
      last_event_time_ms = last.event_time_ms;
      open_price = first.price;
      high_price = highest first.price others;
      low_price = lowest first.price others;
      close_price = last.price;
      event_count = 1 + length others;
      first_agg_trade_id = first.agg_trade_id;
      last_agg_trade_id = last.agg_trade_id;
    }

pub last_trade-snoc :
    (f : FuturesTradeObservation) (os : List FuturesTradeObservation) (o : FuturesTradeObservation)
    → last_trade (f, os ++ o ∷ []) ≡ o
unfolding last_trade
last_trade-snoc f [] o = refl
last_trade-snoc f (x ∷ os) o = last_trade-snoc x os o

highest-snoc :
    (price : ℕ) (os : List FuturesTradeObservation) (o : FuturesTradeObservation)
    → highest price (os ++ o ∷ []) ≡ max (highest price os) o.price
unfolding highest
highest-snoc price [] o = omega arith
highest-snoc price (x ∷ os) o = omega (arith, highest-snoc price os o)

lowest-snoc :
    (price : ℕ) (os : List FuturesTradeObservation) (o : FuturesTradeObservation)
    → lowest price (os ++ o ∷ []) ≡ min (lowest price os) o.price
unfolding lowest
lowest-snoc price [] o = omega arith
lowest-snoc price (x ∷ os) o = omega (arith, lowest-snoc price os o)

-- Adding a trade to the summary of a group summarises the longer group.
pub summarise-snoc :
    (f : FuturesTradeObservation) (os : List FuturesTradeObservation) (o : FuturesTradeObservation)
    → summarise (f, os ++ o ∷ []) ≡ add_to_bucket o (summarise (f, os))
unfolding summarise add_to_bucket
summarise-snoc f os o =
    rw
      (
        last_trade-snoc f os o,
        highest-snoc f.price os o,
        lowest-snoc f.price os o,
        count (length os) (length (os ++ o ∷ [])) (length-append os (o ∷ [])),
      )
      refl
  where
    count : (a b : ℕ) → b ≡ a + 1 → 1 + b ≡ 1 + a + 1
    count a b h = omega (arith, h)

-- Every trade is added, and the last bucket is finished: all the traces.
unfoldable pub emit :
    Option BinanceFuturesPriceTrace → List BinanceFuturesPriceTrace → List BinanceFuturesPriceTrace
emit none traces = traces
emit (some t) traces = t ∷ traces

unfoldable pub coalesce :
    List FuturesTradeObservation
    → Coalescer
    → Option CaptureCounters
    → Checked (List BinanceFuturesPriceTrace)
unfolding add_trade finish_bucket emit
coalesce [] c counters = finish_bucket c counters >>= λ r. ok (emit r.0 [])
coalesce (o ∷ os) c counters = do
  added ← add_trade o c counters
  traces ← coalesce os added.1 added.2
  ok (emit added.0 traces)

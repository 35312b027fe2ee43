-- ===== src/Capture/Coalescer/Valid.antt =====
-- That what _PendingFuturesBucket of price_collector/raw_capture.py has gathered passes the checks of
-- BinanceFuturesPriceTrace.
use pythonbtccollector.Common.{
  ℕ, ◌%◌, ◌≡◌, ◌≤◌, ◌<◌, refl, Bool, true, false, List, [], ◌∷◌, ◌++◌, leb, ◌&&◌, max, min, arith,
  All,
}
use pythonbtccollector.Common.Int.{pos}
use pythonbtccollector.Common.Result.{ok}
use pythonbtccollector.Capture.Checks.{
  Test, Holds, require-ok, require_all, require_int, require_price, All-append, positive-Holds,
  bigint-Holds, price-Holds, IsPositive, IsBigint, IsPrice,
}
use pythonbtccollector.Capture.Records.{price_trace, trace_tests, in_bucket}
use pythonbtccollector.Capture.Coalescer.{bucket_of, open_bucket, add_to_bucket}
use pythonbtccollector.Capture.Types.{
  futures_bucket_ns, postgres_bigint_max, postgres_integer_max, postgres_numeric_limit,
  FuturesTradeObservation, BinanceFuturesPriceTrace, exceeds_integer, last_precedes_first,
  outside_bucket, bad_high, bad_low,
}

-- A trade that FuturesTradeObservation accepts, received at least 100 ms after the epoch.
pub record IsTrade (wall mono trade event price id : ℕ) : Type 0 where
  pub after_epoch : futures_bucket_ns ≤ wall
  pub wall_stored : wall ≤ postgres_bigint_max
  pub mono_stored : IsPositive mono
  pub trade_stored : IsPositive trade
  pub event_stored : IsPositive event
  pub price_stored : IsPrice price
  pub id_stored : IsBigint id

abbrev pub IsObservation : FuturesTradeObservation → Type 0
IsObservation o =
    IsTrade o.received_wall_ns o.received_monotonic_ns o.trade_time_ms o.event_time_ms o.price
      o.agg_trade_id

-- What holds of a pending bucket: its first and last trade are trades, in the order of the monotonic
-- clock, of the bucket; its prices have one order.
pub record IsBucket
    (bucket first_wall last_wall first_mono last_mono opened high low closed count : ℕ)
    : Type 0 where
  pub first_in : bucket ≡ bucket_of first_wall
  pub last_in : bucket ≡ bucket_of last_wall
  pub in_order : first_mono ≤ last_mono
  pub opened_between : (low ≤ opened) × (opened ≤ high)
  pub closed_between : (low ≤ closed) × (closed ≤ high)
  pub some_events : 0 < count
  pub high_stored : high < postgres_numeric_limit
  pub low_positive : 0 < low

abbrev pub IsPending : BinanceFuturesPriceTrace → Type 0
IsPending p =
    IsBucket p.bucket_start_ms p.first_received_wall_ns p.last_received_wall_ns
      p.first_received_monotonic_ns p.last_received_monotonic_ns p.open_price p.high_price
      p.low_price p.close_price p.event_count
    × IsTrade p.first_received_wall_ns p.first_received_monotonic_ns p.first_trade_time_ms
        p.first_event_time_ms p.open_price p.first_agg_trade_id
    × IsTrade p.last_received_wall_ns p.last_received_monotonic_ns p.last_trade_time_ms
        p.last_event_time_ms p.close_price p.last_agg_trade_id

in_bucket-bucket_of : (wall bucket : ℕ) → bucket ≡ bucket_of wall → in_bucket bucket wall ≡ true
unfolding in_bucket bucket_of
in_bucket-bucket_of wall bucket e = ground (arith, e)

bucket_of-IsPositive :
    (wall bucket : ℕ)
    → bucket ≡ bucket_of wall
    → futures_bucket_ns ≤ wall
    → wall ≤ postgres_bigint_max
    → (bucket % 100 ≡ 0) × IsPositive bucket
unfolding bucket_of
bucket_of-IsPositive wall bucket e low high =
    (omega (arith, e), (omega (arith, e, low), omega (arith, e, high)))

pub price_trace-ok :
    (p : BinanceFuturesPriceTrace)
    → IsPending p
    → p.event_count ≤ postgres_integer_max
    → price_trace p ≡ ok p
unfolding price_trace trace_tests require_all require_int
price_trace-ok p (b, f, l) few =
    let (aligned, start) =
      bucket_of-IsPositive p.first_received_wall_ns p.bucket_start_ms b.first_in f.after_epoch
        f.wall_stored in
    let times =
      p.first_received_wall_ns ∷ p.last_received_wall_ns ∷ p.first_received_monotonic_ns
      ∷ p.last_received_monotonic_ns ∷ p.first_trade_time_ms ∷ p.last_trade_time_ms
      ∷ p.first_event_time_ms ∷ p.last_event_time_ms ∷ [] in
    let ids = p.first_agg_trade_id ∷ p.last_agg_trade_id ∷ [] in
    let counts : List Test =
      (require_int true (pos p.event_count)
        ++ (leb p.event_count postgres_integer_max, exceeds_integer) ∷ require_all false ids) in
    let order : List Test =
      ((leb (max p.open_price (max p.low_price p.close_price)) p.high_price, bad_high)
        ∷ (leb p.low_price (min p.open_price (min p.high_price p.close_price)), bad_low)
        ∷ counts) in
    let closes : List Test = require_price p.close_price ++ order in
    let lows : List Test = require_price p.low_price ++ closes in
    let highs : List Test = require_price p.high_price ++ lows in
    let opens : List Test = require_price p.open_price ++ highs in
    let places : List Test =
      ((leb p.first_received_monotonic_ns p.last_received_monotonic_ns, last_precedes_first)
        ∷ (
          in_bucket p.bucket_start_ms p.first_received_wall_ns
              && in_bucket p.bucket_start_ms p.last_received_wall_ns,
          outside_bucket,
        )
        ∷ opens) in
    let counts_hold : All Holds counts = (
      ground (arith, b.some_events),
      (
        ground (arith, few),
        (ground (arith, few), bigint-Holds ids (f.id_stored, (l.id_stored, tt))),
      ),
    ) in
    let order_holds : All Holds order = (
      ground (arith, b.opened_between, b.closed_between),
      (ground (arith, b.opened_between, b.closed_between), counts_hold),
    ) in
    let high_price : IsPrice p.high_price =
      (omega (arith, b.low_positive, b.opened_between), b.high_stored) in
    let low_price : IsPrice p.low_price =
      (b.low_positive, omega (arith, b.high_stored, b.opened_between)) in
    let prices_hold : All Holds opens =
      All-append Holds (require_price p.open_price) highs (price-Holds p.open_price f.price_stored)
        (All-append Holds (require_price p.high_price) lows (price-Holds p.high_price high_price) (
          All-append Holds (require_price p.low_price) closes (price-Holds p.low_price low_price) (
            All-append Holds (require_price p.close_price) order
              (price-Holds p.close_price l.price_stored) order_holds))) in
    let inside : (in_bucket p.bucket_start_ms p.first_received_wall_ns
          && in_bucket p.bucket_start_ms p.last_received_wall_ns
        ≡ true) =
      both (in_bucket-bucket_of p.first_received_wall_ns p.bucket_start_ms b.first_in)
        (in_bucket-bucket_of p.last_received_wall_ns p.bucket_start_ms b.last_in) in
    let times_hold = positive-Holds times (
      (omega (arith, f.after_epoch), f.wall_stored),
      (
        (omega (arith, l.after_epoch), l.wall_stored),
        (
          f.mono_stored,
          (
            l.mono_stored,
            (f.trade_stored, (l.trade_stored, (f.event_stored, (l.event_stored, tt)))),
          ),
        ),
      ),
    ) in
    let places_hold : All Holds places = (ground (arith, b.in_order), (inside, prices_hold)) in
    require-ok (trace_tests p) p (
      ground (arith, start),
      (
        ground (arith, start),
        (
          ground (arith, aligned),
          All-append Holds (require_all true times) places times_hold places_hold,
        ),
      ),
    )
  where
    both : {a b : Bool} → a ≡ true → b ≡ true → a && b ≡ true
    both p q = ground (arith, p, q)

-- A trade opens a bucket, and a later one of its bucket joins it.
pub open_bucket-IsPending :
    (o : FuturesTradeObservation) → IsObservation o → IsPending (open_bucket o)
unfolding open_bucket
open_bucket-IsPending o h = (
  record {
    first_in = refl;
    last_in = refl;
    in_order = omega arith;
    opened_between = (omega arith, omega arith);
    closed_between = (omega arith, omega arith);
    some_events = omega arith;
    high_stored = h.price_stored.1;
    low_positive = h.price_stored.0;
  },
  h,
  h,
)

pub add_to_bucket-IsPending :
    (o : FuturesTradeObservation) (p : BinanceFuturesPriceTrace)
    → IsObservation o
    → p.bucket_start_ms ≡ bucket_of o.received_wall_ns
    → p.last_received_monotonic_ns ≤ o.received_monotonic_ns
    → IsPending p
    → IsPending (add_to_bucket o p)
unfolding add_to_bucket
add_to_bucket-IsPending o p h same later (b, f, l) = (
  record {
    first_in = b.first_in;
    last_in = same;
    in_order = omega (arith, b.in_order, later);
    opened_between = (omega (arith, b.opened_between), omega (arith, b.opened_between));
    closed_between = (omega arith, omega arith);
    some_events = omega arith;
    high_stored = omega (arith, b.high_stored, h.price_stored);
    low_positive = omega (arith, b.low_positive, h.price_stored);
  },
  f,
  h,
)

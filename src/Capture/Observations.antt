-- ===== src/Capture/Observations.antt =====
-- FuturesTradeObservation and ChainlinkPriceEvent of price_collector/raw_capture.py, from the
-- integers and the Decimal of a message. The digits of a Decimal stand last digit first.
use pythonbtccollector.Common.{
  ℕ, suc, ◌+◌, ◌-◌, ◌*◌, ◌/◌, ◌^◌, Bool, true, false, Option, none, some, List, [], ◌∷◌, ◌++◌, ltb,
  leb, ◌==◌, ◌||◌, not, if◌then◌else◌, any, take, length,
}
use pythonbtccollector.Common.Int.{ℤ, pos, negsuc, pos_part}
use pythonbtccollector.Common.Result.{ok, err, ◌>>=◌, ◌>>◌}
use pythonbtccollector.Capture.Checks.{Test, Checked, require, require_int}
use pythonbtccollector.Capture.Types.{
  FuturesTradeObservation, ChainlinkPriceEvent, price_not_positive, price_too_large, price_too_fine,
}

-- NaN or an infinity, or (-1) ** is_negative * digits * 10 ** exponent.
pub data Decimal : Type 0 where
  special : Decimal
  finite : Bool → List ℕ → ℤ → Decimal

abbrev pub coefficient : List ℕ → ℕ
coefficient [] = 0
coefficient (d ∷ ds) = d + 10 * coefficient ds

-- `value >= POSTGRES_NUMERIC_38_18_LIMIT`
unfoldable pub too_large : ℕ → ℤ → Bool
too_large c (pos e) = leb (10 ^ 20) (c * 10 ^ e)
too_large c (negsuc e) = leb (10 ^ 20 * 10 ^ suc e) c

-- `extra_places > len(digits) or any(digits[-extra_places:])`
unfoldable pub too_fine : ℕ → List ℕ → Bool
too_fine extra digits = ltb (length digits) extra || any (λ d. not (d == 0)) (take extra digits)

-- The quanta of a price, and whether it has a part below a quantum.
unfoldable pub read_price : List ℕ → ℤ → Checked ℕ
unfolding too_fine
read_price digits (pos e) = ok (coefficient digits * 10 ^ (e + 18))
read_price digits (negsuc e) =
    if leb (suc e) 18
    then ok (coefficient digits * 10 ^ (18 - suc e))
    else if too_fine (suc e - 18) digits
    then err price_too_fine
    else ok (coefficient digits / 10 ^ (suc e - 18))

-- _require_price
unfoldable pub decimal_price : Decimal → Checked ℕ
unfolding too_large read_price
decimal_price special = err price_not_positive
decimal_price (finite is_negative digits e) =
    if is_negative || (coefficient digits == 0)
    then err price_not_positive
    else if too_large (coefficient digits) e
    then err price_too_large
    else read_price digits e

pub record RawObservation : Type 0 where
  pub connection_id : ℕ
  pub received_wall_ns : ℤ
  pub received_monotonic_ns : ℤ
  pub trade_time_ms : ℤ
  pub event_time_ms : ℤ
  pub price : Decimal
  pub agg_trade_id : ℤ

-- FuturesTradeObservation.__post_init__
unfoldable pub trade_observation : RawObservation → Checked FuturesTradeObservation
unfolding require_int decimal_price
trade_observation raw = do
  require
      (require_int true raw.received_wall_ns
        ++ require_int true raw.received_monotonic_ns
        ++ require_int true raw.trade_time_ms
        ++ require_int true raw.event_time_ms)
      raw
  price ← decimal_price raw.price
  require (require_int false raw.agg_trade_id) raw
  ok (record {
    connection_id = raw.connection_id;
    received_wall_ns = pos_part raw.received_wall_ns;
    received_monotonic_ns = pos_part raw.received_monotonic_ns;
    trade_time_ms = pos_part raw.trade_time_ms;
    event_time_ms = pos_part raw.event_time_ms;
    price = price;
    agg_trade_id = pos_part raw.agg_trade_id;
  })

pub record RawChainlink : Type 0 where
  pub received_wall_ns : ℤ
  pub received_monotonic_ns : ℤ
  pub connection_id : ℕ
  pub receive_sequence : ℤ
  pub provider_event_ms : ℤ
  pub provider_message_ms : Option ℤ
  pub price : Decimal

unfoldable pub optional_positive : Option ℤ → List Test
unfolding require_int
optional_positive none = []
optional_positive (some n) = require_int true n

unfoldable optional_part : Option ℤ → Option ℕ
optional_part none = none
optional_part (some n) = some (pos_part n)

-- ChainlinkPriceEvent.__post_init__
unfoldable pub chainlink_price_event : RawChainlink → Checked ChainlinkPriceEvent
unfolding require_int decimal_price optional_positive optional_part
chainlink_price_event raw = do
  require
      (require_int true raw.received_wall_ns
        ++ require_int true raw.received_monotonic_ns
        ++ require_int true raw.receive_sequence
        ++ require_int true raw.provider_event_ms
        ++ optional_positive raw.provider_message_ms)
      raw
  price ← decimal_price raw.price
  ok (record {
    received_wall_ns = pos_part raw.received_wall_ns;
    received_monotonic_ns = pos_part raw.received_monotonic_ns;
    connection_id = raw.connection_id;
    receive_sequence = pos_part raw.receive_sequence;
    provider_event_ms = pos_part raw.provider_event_ms;
    provider_message_ms = optional_part raw.provider_message_ms;
    price = price;
  })

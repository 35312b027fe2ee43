-- ===== src/Ghost/Checks.antt =====
-- The validations of price_collector/ghost_twap.py: `_integer`, `_text`, `_price`, and the
-- `__post_init__` of GhostPolicy and PriceEvent. What they take may be any integer, text or Decimal.
pub mod Price
use Prim.Native.String.{count}
use text.Mathlib.Text.{◌==◌ as str_eq}
use pythonbtccollector.Common.{
  ℕ, ◌+◌, ◌*◌, ◌/◌, ◌%◌, ◌^◌, String, Bool, true, false, Option, none, some, ltb, leb, ◌==◌, ◌&&◌,
  if◌then◌else◌, not,
}
use pythonbtccollector.Common.Int.{ℤ, pos, negsuc}
use pythonbtccollector.Common.Result.{Result, ok, err, ◌>>=◌, ◌>>◌}
use pythonbtccollector.Ghost.Types.{
  Feed, spot, twap, GhostPolicy, PriceEvent, GhostError, not_an_integer, not_a_text, bad_price,
  excess_precision, unsupported_feed, not_sixty_seconds, spot_has_no_window, unaligned_source,
  reconnect_too_long, short_history,
}

abbrev pub Checked : Type 0 → Type 0
Checked A = Result GhostError A

-- A Decimal: NaN or an infinity, or `coefficient * 10 ** -places`.
pub data Decimal : Type 0 where
  special : Decimal
  finite : ℤ → ℕ → Decimal

abbrev raise_unless : Bool → GhostError → Checked (Unit {0})
raise_unless true e = ok tt
raise_unless false e = err e

unfoldable pub integer : ℤ → ℕ → Checked ℕ
integer (pos n) minimum = if ltb n minimum then err not_an_integer else ok n
integer (negsuc n) minimum = err not_an_integer

unfoldable pub is_text : String → Bool
is_text value = ltb 0 (count value) && leb (count value) 256

-- Division with ROUND_HALF_EVEN to a whole number of quanta.
unfoldable pub round_half_even : ℕ → ℕ → ℕ
round_half_even n d =
    let q = n / d in
    let r = n % d in
    if ltb (2 * r) d then q else if ltb d (2 * r) then q + 1 else if q % 2 == 0 then q else q + 1

abbrev pub price_limit_e18 : ℕ
price_limit_e18 = 10 ^ 38

-- `value.quantize(PRICE_QUANTUM)`, in quanta.
unfoldable pub quantize : ℕ → ℕ → ℕ
unfolding round_half_even
quantize coefficient places = round_half_even (coefficient * 10 ^ 18) (10 ^ places)

-- An accepted price is returned in quanta.
unfoldable pub price : Decimal → Checked ℕ
unfolding quantize
price special = err bad_price
price (finite (negsuc c) places) = err bad_price
price (finite (pos c) places) =
    if ltb 0 c && ltb c (10 ^ 20 * 10 ^ places)
    then (if quantize c places * 10 ^ places == c * 10 ^ 18
        then ok (quantize c places)
        else err excess_precision)
    else err bad_price

pub record RawPolicy : Type 0 where
  pub enabled : Bool
  pub source_max_age_ms : ℤ
  pub receipt_max_age_ms : ℤ
  pub max_carry_ms : ℤ
  pub history_ms : ℤ
  pub max_events : ℤ
  pub spot_reconnect_max_gap_ms : ℤ

-- GhostPolicy.__post_init__
unfoldable pub ghost_policy : RawPolicy → Checked GhostPolicy
unfolding integer
ghost_policy raw = do
  source ← integer raw.source_max_age_ms 1
  receipt ← integer raw.receipt_max_age_ms 1
  carry ← integer raw.max_carry_ms 1
  history ← integer raw.history_ms 1
  events ← integer raw.max_events 1
  gap ← integer raw.spot_reconnect_max_gap_ms 0
  raise_unless (leb gap 10_000) reconnect_too_long
  raise_unless (leb (62_000 + source) history) short_history
  ok (record {
    enabled = raw.enabled;
    source_max_age_ms = source;
    receipt_max_age_ms = receipt;
    max_carry_ms = carry;
    history_ms = history;
    max_events = events;
    spot_reconnect_max_gap_ms = gap;
  })

pub record RawEvent : Type 0 where
  pub feed : String
  pub value : Decimal
  pub source_timestamp_ms : ℤ
  pub received_wall_ns : ℤ
  pub received_monotonic_ns : ℤ
  pub sequence : ℤ
  pub event_id : String
  pub window_s : Option ℕ

unfoldable pub feed_of : String → Checked Feed
feed_of name =
    if str_eq name "spot"
    then ok spot
    else if str_eq name "twap"
    then ok twap
    else err unsupported_feed

unfoldable pub check_window : Feed → Option ℕ → Checked (Unit {0})
check_window twap none = err not_sixty_seconds
check_window twap (some w) = raise_unless (w == 60) not_sixty_seconds
check_window spot none = ok tt
check_window spot (some w) = err spot_has_no_window

-- PriceEvent.__post_init__
unfoldable pub price_event : RawEvent → Checked PriceEvent
unfolding feed_of check_window price integer
price_event raw = do
  feed ← feed_of raw.feed
  check_window feed raw.window_s
  value ← price raw.value
  source ← integer raw.source_timestamp_ms 0
  wall ← integer raw.received_wall_ns 0
  mono ← integer raw.received_monotonic_ns 0
  sequence ← integer raw.sequence 0
  raise_unless (source % 1000 == 0) unaligned_source
  raise_unless (is_text raw.event_id) not_a_text
  ok (record {
    feed = feed;
    value = value;
    source_timestamp_ms = source;
    received_wall_ns = wall;
    received_monotonic_ns = mono;
    sequence = sequence;
    event_id = raw.event_id;
    window_s = raw.window_s;
  })

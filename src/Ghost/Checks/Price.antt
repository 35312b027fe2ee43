-- ===== src/Ghost/Checks/Price.antt =====
-- Which prices and price events the validations of price_collector/ghost_twap.py let through.
use native.Mathlib.Decide.{dec_lt}
use native.Mathlib.Nat.{mul-div_cancel, mul-mod_left, mul-le-mul_right, one-le-pow}
use pythonbtccollector.Common.{
  ℕ, zero, suc, ◌*◌, ◌%◌, ◌^◌, ◌≤◌, ◌<◌, ◌≡◌, ◌↔◌, ◌⊎◌, none, some, arith,
}
use pythonbtccollector.Common.Int.{pos, negsuc}
use pythonbtccollector.Common.Result.{ok}
use pythonbtccollector.Ghost.Types.{spot, twap, PriceEvent}
use pythonbtccollector.Ghost.Checks.{
  Decimal, finite, round_half_even, quantize, price, price_limit_e18, RawEvent, price_event,
}

-- Half-even rounding of a multiple is exact.
round_half_even-exact : (n d : ℕ) → 0 < d → round_half_even (n * d) d ≡ n
unfolding round_half_even
round_half_even-exact n d h = rw (mul-div_cancel n h, mul-mod_left n d) (ground arith)

-- An equation of quanta bounds the coefficient.
exact_bounds :
    (c n p : ℕ)
    → 0 < p
    → n * p ≡ c * 10 ^ 18
    → 0 < n
    → n < price_limit_e18
    → (0 < c) × (c < 10 ^ 20 * p)
exact_bounds c n p power e low high =
    (omega (arith, mul-le-mul_right p low), omega (arith, mul-le-mul_right p high))

quantize-exact : (c places n : ℕ) → n * 10 ^ places ≡ c * 10 ^ 18 → quantize c places ≡ n
unfolding quantize
quantize-exact c places n e =
    rw (← e) (round_half_even-exact n (10 ^ places) (one-le-pow places 10 (omega arith)))

price-of_exact :
    (c places n : ℕ)
    → n * 10 ^ places ≡ c * 10 ^ 18
    → 0 < n
    → n < price_limit_e18
    → price (finite (pos c) places) ≡ ok n
unfolding price
price-of_exact c places n e p q =
    let power = one-le-pow places 10 (omega arith) in
    let (some_coin, below) = exact_bounds c n (10 ^ places) power e p q in
    ground (arith, quantize-exact c places n e)

lt_of_mul-lt : (a b p : ℕ) → a * p < b * p → a < b
lt_of_mul-lt a b p h = elim (dec_lt a b) [
  | yes l ↦ l
  | no n ↦ absurd (omega (arith, mul-le-mul_right p (at_least a b n)))
]
  where
    at_least : (a b : ℕ) → ¬ (a < b) → b ≤ a
    at_least a b n = omega arith

-- What the tests of `_price` say of an accepted coefficient.
accepted :
    (c places n : ℕ)
    → price (finite (pos c) places) ≡ ok n
    → (n * 10 ^ places ≡ c * 10 ^ 18) × (0 < c) × (c < 10 ^ 20 * 10 ^ places)
unfolding price
accepted c places n h = ground arith

exact-of_price :
    (c places n : ℕ)
    → price (finite (pos c) places) ≡ ok n
    → (n * 10 ^ places ≡ c * 10 ^ 18) × (0 < n) × (n < price_limit_e18)
exact-of_price c places n h =
    let (e, some_coin, below) = accepted c places n h in
    (
      e,
      positive n (10 ^ places) c e some_coin,
      lt_of_mul-lt n price_limit_e18 (10 ^ places) (omega arith),
    )
  where
    positive : (n p c : ℕ) → n * p ≡ c * 10 ^ 18 → 0 < c → 0 < n
    positive zero p c e h = absurd (omega arith)
    positive (suc n) p c e h = omega arith

-- A nonnegative Decimal is accepted, as a number of quanta, exactly when it is that number of
-- quanta, which is positive and below the limit.
pub price_exact :
    (c places n : ℕ)
    → (price (finite (pos c) places) ≡ ok n)
      ↔ (n * 10 ^ places ≡ c * 10 ^ 18) × (0 < n) × (n < price_limit_e18)
price_exact c places n =
    (λ h. exact-of_price c places n h, λ (e, p, q). price-of_exact c places n e p q)

price_range : (d : Decimal) (n : ℕ) → price d ≡ ok n → (0 < n) × (n < price_limit_e18)
unfolding price
price_range Decimal.special n h = absurd (ground arith)
price_range (finite (negsuc c) places) n h = absurd (ground arith)
price_range (finite (pos c) places) n h = let r = exact-of_price c places n h in (r.1, r.2)

-- An accepted event has a source stamp of a whole second, a positive price below the limit, and the
-- window of its feed: sixty seconds for the TWAP, none for spot.
pub price_event_valid :
    (raw : RawEvent) {e : PriceEvent}
    → price_event raw ≡ ok e
    → (e.source_timestamp_ms % 1000 ≡ 0)
      × ((0 < e.value) × (e.value < price_limit_e18))
      × ((e.feed ≡ twap) × (e.window_s ≡ some 60) ⊎ (e.feed ≡ spot) × (e.window_s ≡ none))
unfolding price_event
price_event_valid raw {e} h = ground (arith, price_range raw.value e.value)

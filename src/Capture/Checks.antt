-- ===== src/Capture/Checks.antt =====
-- The checks of price_collector/raw_capture.py: `_require_int` and its kin, and the `__post_init__`
-- of each record. A record is accepted when every test of the list holds, and the first test that
-- fails says what is raised.
use pythonbtccollector.Common.{
  ℕ, ◌≡◌, refl, Bool, true, false, Option, none, some, List, [], ◌∷◌, ◌++◌, ltb, leb, ◌==◌, All,
  arith, ◌≤◌, ◌<◌,
}
use pythonbtccollector.Common.Int.{ℤ, pos, pos_part, neg_part}
use pythonbtccollector.Common.Result.{Result, ok, err, ok_inj, err-ne-ok}
use pythonbtccollector.Capture.Types.{
  postgres_bigint_max, postgres_numeric_limit, CaptureError, not_positive, negative_integer,
  exceeds_bigint, price_not_positive, price_too_large,
}

abbrev pub Checked : Type 0 → Type 0
Checked A = Result CaptureError A

-- A test, and what is raised when it fails.
abbrev pub Test : Type 0
Test = Bool × CaptureError

abbrev pub Holds : Test → Type 0
Holds test = test.0 ≡ true

abbrev pub require : {A : Type 0} → List Test → A → Checked A
require [] a = ok a
require ((true, e) ∷ tests) a = require tests a
require ((false, e) ∷ tests) a = err e

-- Tests that hold accept.
pub require-ok : {A : Type 0} (tests : List Test) (a : A) → All Holds tests → require tests a ≡ ok a
require-ok [] a h = refl
require-ok ((true, e) ∷ tests) a h = require-ok tests a h.1
require-ok ((false, e) ∷ tests) a h = absurd (ground (arith, h.0))

pub All-append :
    {A : Type 0} (P : A → Type 0) (xs ys : List A) → All P xs → All P ys → All P (xs ++ ys)
All-append P [] ys p q = q
All-append P (x ∷ xs) ys p q = (p.0, All-append P xs ys p.1 q)

-- _require_int(value, positive=positive)
unfoldable pub require_int : Bool → ℤ → List Test
require_int true value =
    (ltb 0 (pos_part value), not_positive)
    ∷ (leb (pos_part value) postgres_bigint_max, exceeds_bigint)
    ∷ []
require_int false value =
    (neg_part value == 0, negative_integer)
    ∷ (leb (pos_part value) postgres_bigint_max, exceeds_bigint)
    ∷ []

unfoldable pub require_all : Bool → List ℕ → List Test
unfolding require_int
require_all positive [] = []
require_all positive (n ∷ ns) = require_int positive (pos n) ++ require_all positive ns

-- What a stored BIGINT may be.
abbrev pub IsPositive : ℕ → Type 0
IsPositive n = (0 < n) × (n ≤ postgres_bigint_max)

abbrev pub IsBigint : ℕ → Type 0
IsBigint n = n ≤ postgres_bigint_max

pub positive-Holds : (ns : List ℕ) → All IsPositive ns → All Holds (require_all true ns)
unfolding require_all require_int
positive-Holds [] h = tt
positive-Holds (n ∷ ns) ((low, high), h) =
    (ground (arith, low), (ground (arith, high), positive-Holds ns h))

pub bigint-Holds : (ns : List ℕ) → All IsBigint ns → All Holds (require_all false ns)
unfolding require_all require_int
bigint-Holds [] h = tt
bigint-Holds (n ∷ ns) (high, h) = (refl, (ground (arith, high), bigint-Holds ns h))

-- _require_optional_positive_int(value)
unfoldable pub require_optional : Option ℕ → List Test
unfolding require_int
require_optional none = []
require_optional (some n) = require_int true (pos n)

-- _require_price(value), of a price that is a whole number of quanta
unfoldable pub require_price : ℕ → List Test
require_price value =
    (ltb 0 value, price_not_positive) ∷ (ltb value postgres_numeric_limit, price_too_large) ∷ []

-- _require_positive_count(value)
unfoldable pub require_positive_count : ℕ → List Test
unfolding require_int
require_positive_count value = require_int true (pos value)

abbrev pub IsPrice : ℕ → Type 0
IsPrice n = (0 < n) × (n < postgres_numeric_limit)

pub price-Holds : (n : ℕ) → IsPrice n → All Holds (require_price n)
unfolding require_price
price-Holds n h = (ground (arith, h.0), (ground (arith, h.1), tt))

-- Tests that accept hold.
pub require-Holds :
    {A : Type 0} (tests : List Test) (a b : A) → require tests a ≡ ok b → All Holds tests × (a ≡ b)
require-Holds [] a b h = (tt, ok_inj h)
require-Holds ((true, e) ∷ tests) a b h =
    let (holds, same) = require-Holds tests a b h in ((refl, holds), same)
require-Holds ((false, e) ∷ tests) a b h = absurd (err-ne-ok h)

pub All-append_inv :
    {A : Type 0} (P : A → Type 0) (xs ys : List A) → All P (xs ++ ys) → All P xs × All P ys
All-append_inv P [] ys h = (tt, h)
All-append_inv P (x ∷ xs) ys h = let (p, q) = All-append_inv P xs ys h.1 in ((h.0, p), q)

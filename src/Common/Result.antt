-- ===== src/Common/Result.antt =====
-- What a call that may raise returns.
use mathlib.Core.Path.{◌≡◌, refl, sym, ap, subst}
use mathlib.Core.Bool.{Bool, true, false}
use native.Mathlib.Omega.{arith}
use pythonbtccollector.Common.Tests.{if◌then◌else◌}

pub data Result {ℓ} (E A : Type ℓ) : Type ℓ where
  ok : A → Result E A
  err : E → Result E A

infixl 5 ◌>>=◌ ◌>>◌
abbrev pub ◌>>=◌ {ℓ} : {E A B : Type ℓ} → Result E A → (A → Result E B) → Result E B
ok a >>= f = f a
err e >>= f = err e

abbrev pub ◌>>◌ {ℓ} : {E A B : Type ℓ} → Result E A → Result E B → Result E B
m >> k = m >>= λ _. k

module _ {ℓ} {E A : Type ℓ} where
  ok_or : A → Result E A → A
  ok_or a (ok b) = b
  ok_or a (err e) = a

  pub ok_inj : {a b : A} → ◌≡◌ {A = Result E A} (ok a) (ok b) → a ≡ b
  unfolding ok_or
  ok_inj {a} e = ap (ok_or a) e

  is_ok : Result E A → Bool
  is_ok (ok a) = true
  is_ok (err e) = false

  pub err-ne-ok : {e : E} {a : A} → ¬ (◌≡◌ {A = Result E A} (err e) (ok a))
  unfolding is_ok
  err-ne-ok h = ground (arith, ap is_ok h)

-- What a chain of calls that returns went through.
pub >>=_inv {ℓ} :
    {E A B : Type ℓ} (m : Result E A) (f : A → Result E B) {b : B}
    → (m >>= f) ≡ ok b
    → (a : A) × (m ≡ ok a) × (f a ≡ ok b)
>>=_inv (ok a) f h = (a, refl, h)
>>=_inv (err e) f h = absurd (err-ne-ok h)

-- A chain of calls, of which the first returns.
pub >>=_ok {ℓ} :
    {E A B : Type ℓ} (m : Result E A) (f : A → Result E B) {a : A} {r : Result E B}
    → m ≡ ok a
    → f a ≡ r
    → (m >>= f) ≡ r
>>=_ok m f {a} {r} e h = subst (λ k. (k >>= f) ≡ r) (sym e) h

-- A test before a call, which raises when it holds.
pub if_err_inv {ℓ} :
    {E A : Type ℓ} (b : Bool) (e : E) (m : Result E A) {a : A}
    → (if b then err e else m) ≡ ok a
    → (b ≡ false) × (m ≡ ok a)
if_err_inv true e m h = absurd (err-ne-ok h)
if_err_inv false e m h = (refl, h)

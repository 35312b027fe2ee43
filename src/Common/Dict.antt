-- ===== src/Common/Dict.antt =====
-- A Python `dict` as the list of its entries in insertion order, each key once.
use Prim.Native.Nat.{ℕ, ◌≤◌, ◌+◌}
use mathlib.Core.Path.{◌≡◌}
use mathlib.Core.Logic.{◌↔◌, inl, inr}
use mathlib.Core.Bool.{Bool, true, false}
use mathlib.Core.Option.{Option, none, some}
use mathlib.Core.List.{List, [], ◌∷◌}
use native.Mathlib.Omega.{arith}
use pythonbtccollector.Common.Tests.{if◌then◌else◌, Bool-cases, ◌==◌, ==_iff}
use pythonbtccollector.Common.Lists.{length}

-- Equality of keys.
pub record Eq {ℓ} (K : Type ℓ) : Type ℓ where
  pub beq : K → K → Bool
  pub beq_iff : (a b : K) → (beq a b ≡ true) ↔ (a ≡ b)

abbrev pub Dict {ℓ} : Type ℓ → Type ℓ → Type ℓ
Dict K V = List (K × V)

module _ {ℓ} {K V : Type ℓ} ⦃e : Eq K⦄ where
  -- d.get(k)
  abbrev pub lookup : K → Dict K V → Option V
  lookup k [] = none
  lookup k ((j, v) ∷ d) = if e.beq k j then some v else lookup k d

  -- d[k] = v
  abbrev pub insert : K → V → Dict K V → Dict K V
  insert k v [] = (k, v) ∷ []
  insert k v ((j, w) ∷ d) = if e.beq k j then (j, v) ∷ d else (j, w) ∷ insert k v d

  pub lookup-insert_self : (k : K) (v : V) (d : Dict K V) → lookup k (insert k v d) ≡ some v
  lookup-insert_self k v [] = ground (arith, e.beq_iff k k)
  lookup-insert_self k v ((j, w) ∷ d) = ground (arith, e.beq_iff k j, lookup-insert_self k v d)

  pub lookup-insert_ne :
      (j k : K) (v : V) (d : Dict K V) → e.beq j k ≡ false → lookup j (insert k v d) ≡ lookup j d
  lookup-insert_ne j k v [] h = ground arith
  lookup-insert_ne j k v ((i, w) ∷ d) h =
      ground (arith, e.beq_iff k i, e.beq_iff j k, e.beq_iff j i, lookup-insert_ne j k v d h)

  pub length-insert : (k : K) (v : V) (d : Dict K V) → length (insert k v d) ≤ length d + 1
  length-insert k v [] = omega arith
  length-insert k v (x ∷ d) = ground (arith, length-insert k v d)

  -- d.pop(k), for a key that may be absent
  abbrev pub remove : K → Dict K V → Dict K V
  remove k [] = []
  remove k ((j, v) ∷ d) = let rest = remove k d in if e.beq k j then d else (j, v) ∷ rest

  pub lookup-remove_ne :
      (j k : K) (d : Dict K V) → e.beq j k ≡ false → lookup j (remove k d) ≡ lookup j d
  lookup-remove_ne j k [] h = ground arith
  lookup-remove_ne j k ((i, w) ∷ d) h =
      ground (arith, e.beq_iff k i, e.beq_iff j k, e.beq_iff j i, lookup-remove_ne j k d h)

  pub length-remove :
      (k : K) (d : Dict K V) {v : V} → lookup k d ≡ some v → length (remove k d) + 1 ≡ length d
  length-remove k [] h = ground (arith, h)
  length-remove k ((j, w) ∷ d) {v} h = elim (Bool-cases (e.beq k j)) [
    | inl same ↦ rw same (omega arith)
    | inr other ↦ rw other (omega (arith, length-remove k d {v = v} (rw other at h)))
  ]

  pub length-insert_new :
      (k : K) (v : V) (d : Dict K V) → lookup k d ≡ none → length (insert k v d) ≡ length d + 1
  length-insert_new k v [] h = omega arith
  length-insert_new k v ((j, w) ∷ d) h = elim (Bool-cases (e.beq k j)) [
    | inl same ↦ absurd (ground (arith, rw same at h))
    | inr other ↦ rw other (omega (arith, length-insert_new k v d (rw other at h)))
  ]

instance abbrev pub nat_Eq : Eq ℕ
nat_Eq = record { beq = ◌==◌; beq_iff = ==_iff }

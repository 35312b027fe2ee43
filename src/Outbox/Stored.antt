-- ===== src/Outbox/Stored.antt =====
-- That every file of the outbox of price_collector/ghost_twap_spool.py can be read back, after any
-- calls and crashes.
use pythonbtccollector.Common.{
  ℕ, ◌≡◌, ◌≤◌, ◌<◌, ◌⊎◌, inl, inr, refl, sym, ap, subst, true, Option, none, some, List, [], ◌∷◌,
  ltb, leb, ◌==◌, ◌&&◌, not, if_elim, length, map, All, arith, Bool-cases, Option-cases, ==_to,
  some_inj,
}
use pythonbtccollector.Common.Dict.{Dict, Eq, lookup, insert, remove, nat_Eq}
use pythonbtccollector.Common.Result.{ok, ok_inj, err-ne-ok, if_err_inv}
use pythonbtccollector.Outbox.{
  Row, Directory, Progress, row_eq, path_of, replace_to, atomic_to, write_over, write_by, write_to,
}

-- An item of a list.
unfoldable pub IsIn : {A : Type 0} → A → List A → Type 0
IsIn a [] = ⊥
IsIn a (x ∷ xs) = (a ≡ x) ⊎ IsIn a xs

module _ {V : Type 0} (P : ℕ × V → Type 0) where
  pub All-insert : (k : ℕ) (v : V) (d : Dict ℕ V) → P (k, v) → All P d → All P (insert k v d)
  All-insert k v [] p h = (p, tt)
  All-insert k v ((j, w) ∷ d) p h =
      if_elim (All P) (k == j) (λ same. (subst (λ i. P (i, v)) (==_to same) p, h.1))
        (λ other. (h.0, All-insert k v d p h.1))

  pub All-remove : (k : ℕ) (d : Dict ℕ V) → All P d → All P (remove k d)
  All-remove k [] h = tt
  All-remove k ((j, v) ∷ d) h =
      if_elim (All P) (k == j) (λ same. h.1) (λ other. (h.0, All-remove k d h.1))

pub length-insert_old :
    {V : Type 0} (k : ℕ) (v : V) (d : Dict ℕ V) {w : V}
    → lookup k d ≡ some w
    → length (insert k v d) ≡ length d
length-insert_old k v [] h = absurd (ground (arith, h))
length-insert_old k v ((j, u) ∷ d) {w} h = elim (Bool-cases (k == j)) [
  | inl same ↦ rw same refl
  | inr other ↦ rw other (omega (arith, length-insert_old k v d {w = w} (rw other at h)))
]

pub IsIn-All : {A : Type 0} (P : A → Type 0) (xs : List A) (a : A) → All P xs → IsIn a xs → P a
unfolding IsIn
IsIn-All P [] a h held = absurd held
IsIn-All P (x ∷ xs) a h (inl q) = subst P (sym q) h.0
IsIn-All P (x ∷ xs) a h (inr held) = IsIn-All P xs a h.1 held

pub IsIn-lookup : {V : Type 0} (k : ℕ) (d : Dict ℕ V) (v : V) → lookup k d ≡ some v → IsIn (k, v) d
unfolding IsIn
IsIn-lookup k [] v h = absurd (ground (arith, h))
IsIn-lookup k ((j, w) ∷ d) v h = elim (Bool-cases (k == j)) [
  | inl same ↦ inl (pair_eq (==_to same) (some_inj (sym (rw same at h))))
  | inr other ↦ inr (IsIn-lookup k d v (rw other at h))
]
  where
    pair_eq : {V : Type 0} {k j : ℕ} {v w : V} → k ≡ j → v ≡ w → ◌≡◌ {A = ℕ × V} (k, v) (j, w)
    pair_eq p q = rw (p, q) refl

pub IsIn-map : {A B : Type 0} (f : A → B) (a : A) (xs : List A) → IsIn a xs → IsIn (f a) (map f xs)
unfolding IsIn
IsIn-map f a (x ∷ xs) (inl e) = inl (ap f e)
IsIn-map f a (x ∷ xs) (inr h) = inr (IsIn-map f a xs h)
IsIn-map f a [] h = absurd h

row_cong :
    {T : Type 0} {a b c f : T} {v : ℕ} (x : Row T)
    → x.run_id ≡ a
    → x.decision_id ≡ b
    → x.frozen_json ≡ c
    → x.version ≡ v
    → x.others ≡ f
    → x ≡ record { run_id = a; decision_id = b; frozen_json = c; version = v; others = f }
row_cong x p q r s t = rw (← p, ← q, ← r, ← s, ← t) refl

-- Equal records have equal fields.
row_eq-same : {T : Type 0} ⦃e : Eq T⦄ → (a b : Row T) → row_eq a b ≡ true → a ≡ b
unfolding row_eq
row_eq-same ⦃e⦄ a b h =
    let same : ((a.run_id ≡ b.run_id)
        × (a.decision_id ≡ b.decision_id)
        × (a.frozen_json ≡ b.frozen_json)
        × (a.version ≡ b.version)
        × (a.others ≡ b.others)) =
      ground (
        arith,
        e.beq_iff a.run_id b.run_id,
        e.beq_iff a.decision_id b.decision_id,
        e.beq_iff a.frozen_json b.frozen_json,
        e.beq_iff a.others b.others,
        h,
      ) in
    row_cong a same.0 same.1 same.2 same.3 same.4

-- The file of that name says the record.
abbrev pub Stores : {T : Type 0} → (List ℕ → Option (Row T)) → ℕ → Row T → Directory → Type 0
Stores loads path s d = (raw : List ℕ) × (lookup path d.rows ≡ some raw) × (loads raw ≡ some s)

module _ {T : Type 0} ⦃e : Eq T⦄ (digest : T → T → ℕ) (dumps : Row T → List ℕ)
    (loads : List ℕ → Option (Row T)) (max_records max_record_bytes : ℕ) where
  -- What read_all asks of a file.
  abbrev pub IsReadable : ℕ × List ℕ → Type 0
  IsReadable file =
      (r : Row T) × (loads file.1 ≡ some r)
      × (digest r.run_id r.decision_id ≡ file.0)
      × (length file.1 ≤ max_record_bytes)

  abbrev pub IsSpool : Directory → Type 0
  IsSpool d = All IsReadable d.rows × (length d.rows ≤ max_records)

  -- A record may be written: it has no file and there is room, or its file says an older version
  -- with the same frozen part.
  unfoldable pub IsNext : Row T → Directory → Type 0
  IsNext r d =
      ((lookup (digest r.run_id r.decision_id) d.rows ≡ none) × (length d.rows < max_records))
      ⊎ ((s : Row T) × Stores loads (digest r.run_id r.decision_id) s d
          × (e.beq s.frozen_json r.frozen_json ≡ true)
          × (s.version < r.version))

  -- What a write that returns did, as far as it came.
  unfoldable pub WriteDid : Progress → Row T → Directory → Directory → Type 0
  unfolding IsNext
  WriteDid progress r d next =
      ((s : Row T) × Stores loads (digest r.run_id r.decision_id) s d
        × (e.beq s.frozen_json r.frozen_json ≡ true)
        × (d ≡ next)
        × ((s ≡ r) ⊎ (r.version < s.version)))
      ⊎ (IsNext r d
          × (length (dumps r) ≤ max_record_bytes)
          × (replace_to progress (digest r.run_id r.decision_id) (dumps r) d ≡ next))

  written_over :
      (progress : Progress) (r s : Row T) (d next : Directory)
      → Stores loads (digest r.run_id r.decision_id) s d
      → write_over digest dumps loads max_records max_record_bytes progress
          (digest r.run_id r.decision_id)
          r
          (some s)
          d
        ≡ ok next
      → WriteDid progress r d next
  unfolding WriteDid IsNext write_over atomic_to
  written_over progress r s d next stored h =
      let (frozen, h₁) = if_err_inv (not (e.beq s.frozen_json r.frozen_json)) _ _ h in
      let same_frozen : (e.beq s.frozen_json r.frozen_json ≡ true) = ground (arith, frozen) in
      elim (Bool-cases (ltb r.version s.version)) [
        | inl older ↦
            inl (s, stored, same_frozen, ok_inj (rw older at h₁), inr (ground (arith, older)))
        | inr newer ↦
            let h₂ = rw newer at h₁ in
            let (agree, h₃) = if_err_inv ((s.version == r.version) && not (row_eq s r)) _ _ h₂ in
            elim (Bool-cases (row_eq s r)) [
              | inl equal ↦
                  inl (s, stored, same_frozen, ok_inj (rw equal at h₃), inl (row_eq-same s r equal))
              | inr differs ↦
                  let (fits, h₄) =
                    if_err_inv (ltb max_record_bytes (length (dumps r))) _ _ (rw differs at h₃) in
                  inr (
                    inr (s, stored, same_frozen, ground (arith, newer, agree, differs)),
                    ground (arith, fits),
                    ok_inj h₄,
                  )
            ]
      ]

  -- The file of the record exists.
  written_by :
      (progress : Progress) (r : Row T) (d next : Directory) (raw : List ℕ) (read : Option (Row T))
      → lookup (digest r.run_id r.decision_id) d.rows ≡ some raw
      → loads raw ≡ read
      → write_over digest dumps loads max_records max_record_bytes progress
          (digest r.run_id r.decision_id)
          r
          read
          d
        ≡ ok next
      → WriteDid progress r d next
  unfolding write_over
  written_by progress r d next raw none found says h = absurd (err-ne-ok h)
  written_by progress r d next raw (some s) found says h =
      written_over progress r s d next (raw, found, says) h

  pub written :
      (progress : Progress) (r : Row T) (d next : Directory)
      → write_to digest dumps loads max_records max_record_bytes progress r d ≡ ok next
      → WriteDid progress r d next
  unfolding write_to write_by atomic_to path_of WriteDid IsNext
  written progress r d next h =
      elim (Option-cases (lookup (digest r.run_id r.decision_id) d.rows)) [
        | inl absent ↦
            let (room, h₁) = if_err_inv (leb max_records (length d.rows)) _ _ (rw absent at h) in
            let (fits, h₂) = if_err_inv (ltb max_record_bytes (length (dumps r))) _ _ h₁ in
            inr (inl (absent, ground (arith, room)), ground (arith, fits), ok_inj h₂)
        | inr (raw, found) ↦ written_by progress r d next raw (loads raw) found refl (rw found at h)
      ]

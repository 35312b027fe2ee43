-- ===== src/Outbox/Versions.antt =====
-- How the records of the outbox of price_collector/ghost_twap_spool.py change: their frozen part never
-- does, and their versions only rise, through crashes too.
use pythonbtccollector.Common.{
  ℕ, ◌≡◌, ◌<◌, ◌⊎◌, inl, inr, refl, sym, ◌∙◌, subst, Option, none, some, List, [], ◌∷◌, ◌==◌, All,
  arith, Bool-cases, ==_to, some_inj,
}
use pythonbtccollector.Common.Dict.{
  Dict, Eq, lookup, insert, remove, nat_Eq, lookup-insert_self, lookup-insert_ne,
}
use pythonbtccollector.Common.Result.{Result, ok, err}
use pythonbtccollector.Outbox.{
  SpoolError, Row, Directory, Progress, unopened, partial, replaced, SpoolCall, writes, removes,
  crashes, reopens, replace_to, write_to, write_row, open_spool, kept_or, spool_call, spool_calls,
}
use pythonbtccollector.Outbox.Stored.{IsIn, Stores, IsNext, WriteDid, written}

-- A call that is no removal.
unfoldable pub IsUpdate : {T : Type 0} → SpoolCall T → Type 0
IsUpdate (removes r) = ⊥
IsUpdate _ = Unit

-- The records that the writes bring, also those that crash.
unfoldable pub brought : {T : Type 0} → List (SpoolCall T) → List (Row T)
brought [] = []
brought (writes r ∷ calls) = r ∷ brought calls
brought (crashes progress r ∷ calls) = r ∷ brought calls
brought (_ ∷ calls) = brought calls

brought-head :
    {T : Type 0} (call : SpoolCall T) (calls : List (SpoolCall T)) (t : Row T)
    → IsIn t (brought (call ∷ []))
    → IsIn t (brought (call ∷ calls))
unfolding brought IsIn
brought-head (writes r) calls t (inl q) = inl q
brought-head (writes r) calls t (inr h) = absurd h
brought-head (crashes progress r) calls t (inl q) = inl q
brought-head (crashes progress r) calls t (inr h) = absurd h
brought-head (removes r) calls t h = absurd h
brought-head reopens calls t h = absurd h

brought-tail :
    {T : Type 0} (call : SpoolCall T) (calls : List (SpoolCall T)) (t : Row T)
    → IsIn t (brought calls)
    → IsIn t (brought (call ∷ calls))
unfolding brought IsIn
brought-tail (writes r) calls t h = inr h
brought-tail (crashes progress r) calls t h = inr h
brought-tail (removes r) calls t h = h
brought-tail reopens calls t h = h

none-ne-some : {A : Type 0} {a : A} → ¬ (◌≡◌ {A = Option A} none (some a))
none-ne-some h = ground (arith, h)

-- A record, and what its file says later: the same, or a newer version that was brought.
abbrev pub IsSuccessor : {T : Type 0} → List (Row T) → Row T → Row T → Type 0
IsSuccessor rs s t = (s ≡ t) ⊎ (s.version < t.version) × (s.frozen_json ≡ t.frozen_json) × IsIn t rs

module _ {T : Type 0} where
  IsSuccessor-more :
      (rs us : List (Row T)) (s t : Row T)
      → ((x : Row T) → IsIn x rs → IsIn x us)
      → IsSuccessor rs s t
      → IsSuccessor us s t
  IsSuccessor-more rs us s t more (inl p) = inl p
  IsSuccessor-more rs us s t more (inr (p, f, h)) = inr (p, f, more t h)

  IsSuccessor-trans :
      (rs : List (Row T)) (s t u : Row T)
      → IsSuccessor rs s t
      → IsSuccessor rs t u
      → IsSuccessor rs s u
  IsSuccessor-trans rs s t u (inl p) q = subst (λ k. IsSuccessor rs k u) (sym p) q
  IsSuccessor-trans rs s t u (inr p) (inl q) = subst (λ k. IsSuccessor rs s k) q (inr p)
  IsSuccessor-trans rs s t u (inr (p, f, h)) (inr (q, g, k)) = inr (omega (arith, p, q), f ∙ g, k)

-- The hypothesis: json.loads reads what json.dumps wrote.
module _ {T : Type 0} ⦃e : Eq T⦄ (digest : T → T → ℕ) (dumps : Row T → List ℕ)
    (loads : List ℕ → Option (Row T)) (max_records max_record_bytes : ℕ)
    (parses : (r : Row T) → loads (dumps r) ≡ some r) where
  Rises : List (Row T) → Directory → Directory → Type 0
  Rises rs d next =
      (path : ℕ) (s : Row T)
      → Stores loads path s d
      → (t : Row T) × Stores loads path t next × IsSuccessor rs s t

  Rises-same : (rs : List (Row T)) (d : Directory) → Rises rs d d
  unfolding Rises
  Rises-same rs d path s stored = (s, stored, inl refl)

  -- A record that takes the place of its predecessor, or a new one.
  insert-Rises :
      (rs : List (Row T)) (r : Row T) (d : Directory) (temporaries : Dict ℕ (List ℕ)) (own : ℕ)
      → ((s : Row T) → Stores loads own s d → IsSuccessor rs s r)
      → Rises rs d (record d { rows = insert own (dumps r) d.rows; temporaries = temporaries })
  unfolding Rises
  insert-Rises rs r d temporaries own older path s (raw, found, says) =
      elim (Bool-cases (path == own)) [
        | inl same ↦
            let here = subst (λ k. lookup k d.rows ≡ some raw) (==_to same) found in
            (
              r,
              (
                dumps r,
                subst (λ k. lookup k (insert own (dumps r) d.rows) ≡ some (dumps r))
                    (sym (==_to same)) (lookup-insert_self own (dumps r) d.rows),
                parses r,
              ),
              older s (raw, here, says),
            )
        | inr other ↦
            (s, (raw, lookup-insert_ne path own (dumps r) d.rows other ∙ found, says), inl refl)
      ]

  replace_to-Rises :
      (rs : List (Row T)) (progress : Progress) (r : Row T) (d : Directory)
      → ((s : Row T) → Stores loads (digest r.run_id r.decision_id) s d → IsSuccessor rs s r)
      → Rises rs d (replace_to progress (digest r.run_id r.decision_id) (dumps r) d)
  unfolding replace_to Rises
  replace_to-Rises rs unopened r d older = Rises-same rs d
  replace_to-Rises rs (partial n) r d older = Rises-same rs d
  replace_to-Rises rs replaced r d older =
      insert-Rises rs r d (remove (digest r.run_id r.decision_id) d.temporaries)
        (digest r.run_id r.decision_id) older

  -- What a record that may be written follows.
  follows :
      (rs : List (Row T)) (r : Row T) (d : Directory)
      → IsIn r rs
      → IsNext digest dumps loads max_records max_record_bytes r d
      → (s : Row T) → Stores loads (digest r.run_id r.decision_id) s d
      → IsSuccessor rs s r
  unfolding IsNext
  follows rs r d held (inl (absent, room)) s (raw, found, says) =
      absurd (none-ne-some (sym absent ∙ found))
  follows rs r d held (inr (old, (before, at, reads), frozen, newer)) s (raw, found, says) =
      let same_raw = some_inj (sym at ∙ found) in
      let same = some_inj (sym reads ∙ (subst (λ k. loads k ≡ some s) (sym same_raw) says)) in
      subst (λ k. IsSuccessor rs k r) same
        (inr (newer, (e.beq_iff old.frozen_json r.frozen_json).0 frozen, held))

  written-Rises :
      (rs : List (Row T)) (progress : Progress) (r : Row T) (d next : Directory)
      → IsIn r rs
      → WriteDid digest dumps loads max_records max_record_bytes progress r d next
      → Rises rs d next
  unfolding WriteDid
  written-Rises rs progress r d next held (inl (s, stored, frozen, same, how)) =
      subst (Rises rs d) same (Rises-same rs d)
  written-Rises rs progress r d next held (inr (how, fits, same)) =
      subst (Rises rs d) same (replace_to-Rises rs progress r d (follows rs r d held how))

  kept_or-Rises :
      (rs : List (Row T)) (d : Directory) (m : Result SpoolError Directory)
      → ((next : Directory) → m ≡ ok next → Rises rs d next)
      → Rises rs d (kept_or d m)
  unfolding kept_or
  kept_or-Rises rs d (ok next) f = f next refl
  kept_or-Rises rs d (err x) f = Rises-same rs d

  opened-Rises : (rs : List (Row T)) (d x : Directory) → Rises rs d x → Rises rs d (open_spool x)
  unfolding Rises open_spool
  opened-Rises rs d x h = h

  spool_call-Rises :
      (call : SpoolCall T) (d : Directory)
      → IsUpdate call
      → Rises
          (brought (call ∷ []))
          d
          (spool_call digest dumps loads max_records max_record_bytes call d)
  unfolding spool_call write_row IsUpdate brought IsIn
  spool_call-Rises (writes r) d u =
      kept_or-Rises (r ∷ []) d
        (write_to digest dumps loads max_records max_record_bytes replaced r d)
        (λ next q.
          written-Rises (r ∷ []) replaced r d next (inl refl)
            (written digest dumps loads max_records max_record_bytes replaced r d next q))
  spool_call-Rises (removes r) d u = absurd u
  spool_call-Rises (crashes progress r) d u =
      let m = write_to digest dumps loads max_records max_record_bytes progress r d in
      opened-Rises (r ∷ []) d (kept_or d m) (
        kept_or-Rises (r ∷ []) d m (λ next q.
          written-Rises (r ∷ []) progress r d next (inl refl)
            (written digest dumps loads max_records max_record_bytes progress r d next q)))
  spool_call-Rises reopens d u = opened-Rises [] d d (Rises-same [] d)

  Rises-trans :
      (rs us vs : List (Row T)) (d x next : Directory)
      → ((t : Row T) → IsIn t rs → IsIn t vs)
      → ((t : Row T) → IsIn t us → IsIn t vs)
      → Rises rs d x
      → Rises us x next
      → Rises vs d next
  unfolding Rises
  Rises-trans rs us vs d x next first then f g path s stored =
      let (t, at, p) = f path s stored in
      let (u, there, q) = g path t at in
      (
        u,
        there,
        IsSuccessor-trans vs s t u (IsSuccessor-more rs vs s t first p)
            (IsSuccessor-more us vs t u then q),
      )

  spool_calls-Rises :
      (calls : List (SpoolCall T)) (d : Directory)
      → All IsUpdate calls
      → Rises
          (brought calls)
          d
          (spool_calls digest dumps loads max_records max_record_bytes calls d)
  unfolding spool_calls
  spool_calls-Rises [] d u = Rises-same (brought []) d
  spool_calls-Rises (call ∷ calls) d u =
      let x = spool_call digest dumps loads max_records max_record_bytes call d in
      Rises-trans (brought (call ∷ [])) (brought calls) (brought (call ∷ calls)) d x
        (spool_calls digest dumps loads max_records max_record_bytes calls x)
        (brought-head call calls) (brought-tail call calls) (spool_call-Rises call d u.0)
        (spool_calls-Rises calls x u.1)

  -- When json.loads reads what json.dumps wrote: through writes, crashes at any byte of a write, and
  -- openings, without a removal, a file that can be read stays and can be read. It says the same
  -- record, or a record that one of these writes brought, whole, with the same frozen part and a
  -- higher version.
  pub row_versions_rise :
      (calls : List (SpoolCall T)) (d : Directory) (path : ℕ) (s : Row T)
      → All IsUpdate calls
      → Stores loads path s d
      → (t : Row T) × Stores loads path t
          (spool_calls digest dumps loads max_records max_record_bytes calls d)
        × IsSuccessor (brought calls) s t
  unfolding Rises
  row_versions_rise calls d path s updates stored = spool_calls-Rises calls d updates path s stored

-- ===== src/Outbox/Readable.antt =====
-- That every file of the outbox of price_collector/ghost_twap_spool.py can be read back, after any
-- calls and crashes.
use pythonbtccollector.Common.{
  ℕ, ◌≡◌, ◌≤◌, inl, inr, refl, subst, Option, none, some, List, [], ◌∷◌, ◌==◌, length, arith,
  Bool-cases,
}
use pythonbtccollector.Common.Dict.{Eq, lookup, nat_Eq, length-insert_new, length-remove}
use pythonbtccollector.Common.Result.{Result, ok, err, ok_inj, err-ne-ok}
use pythonbtccollector.Outbox.{
  SpoolError, Row, Directory, Progress, unopened, partial, replaced, SpoolCall, writes, removes,
  crashes, reopens, path_of, replace_to, write_to, write_row, open_spool, remove_over, remove_by,
  remove_row, kept_or, spool_call, spool_calls,
}
use pythonbtccollector.Outbox.Stored.{
  All-insert, All-remove, length-insert_old, IsReadable, IsSpool, IsNext, WriteDid, written,
}

-- The hypothesis: json.loads reads what json.dumps wrote.
module _ {T : Type 0} ⦃e : Eq T⦄ (digest : T → T → ℕ) (dumps : Row T → List ℕ)
    (loads : List ℕ → Option (Row T)) (max_records max_record_bytes : ℕ)
    (parses : (r : Row T) → loads (dumps r) ≡ some r) where
  abbrev pub IsOutbox : Directory → Type 0
  IsOutbox d = IsSpool digest dumps loads max_records max_record_bytes d

  -- However far a write comes, the files can be read.
  replace_to-IsOutbox :
      (progress : Progress) (r : Row T) (d : Directory)
      → length (dumps r) ≤ max_record_bytes
      → IsNext digest dumps loads max_records max_record_bytes r d
      → IsOutbox d
      → IsOutbox (replace_to progress (digest r.run_id r.decision_id) (dumps r) d)
  unfolding replace_to IsNext
  replace_to-IsOutbox unopened r d fits how h = h
  replace_to-IsOutbox (partial n) r d fits how h = h
  replace_to-IsOutbox replaced r d fits how (rows, short) =
      let path = digest r.run_id r.decision_id in
      (
        All-insert (IsReadable digest dumps loads max_records max_record_bytes) path (dumps r)
            d.rows (r, parses r, refl, fits) rows,
        elim how [
          | inl (absent, room) ↦ omega (arith, length-insert_new path (dumps r) d.rows absent, room)
          | inr (s, (raw, found, says), frozen, newer) ↦
              omega (arith, length-insert_old path (dumps r) d.rows found, short)
        ],
      )

  pub write_to-IsOutbox :
      (progress : Progress) (r : Row T) (d next : Directory)
      → IsOutbox d
      → WriteDid digest dumps loads max_records max_record_bytes progress r d next
      → IsOutbox next
  unfolding WriteDid
  write_to-IsOutbox progress r d next h (inl (s, stored, frozen, same, how)) = subst IsOutbox same h
  write_to-IsOutbox progress r d next h (inr (how, fits, same)) =
      subst IsOutbox same (replace_to-IsOutbox progress r d fits how h)

  kept_or-IsOutbox :
      (d : Directory) (m : Result SpoolError Directory)
      → IsOutbox d
      → ((next : Directory) → m ≡ ok next → IsOutbox next)
      → IsOutbox (kept_or d m)
  unfolding kept_or
  kept_or-IsOutbox d (ok next) h f = f next refl
  kept_or-IsOutbox d (err x) h f = h

  remove_over-IsOutbox :
      (path : ℕ) (r : Row T) (raw : List ℕ) (read : Option (Row T)) (d next : Directory)
      → lookup path d.rows ≡ some raw
      → IsOutbox d
      → remove_over digest dumps loads max_records max_record_bytes path r read d ≡ ok next
      → IsOutbox next
  unfolding remove_over
  remove_over-IsOutbox path r raw none d next at h q = absurd (err-ne-ok q)
  remove_over-IsOutbox path r raw (some s) d next at (rows, short) q =
      elim (Bool-cases (s.version == r.version)) [
        | inl same ↦ subst IsOutbox (ok_inj (rw same at q)) (
          All-remove (IsReadable digest dumps loads max_records max_record_bytes) path d.rows rows,
          omega (arith, length-remove path d.rows at, short),
        )
        | inr other ↦ absurd (err-ne-ok (rw other at q))
      ]

  remove_by-IsOutbox :
      (path : ℕ) (r : Row T) (found : Option (List ℕ)) (d next : Directory)
      → lookup path d.rows ≡ found
      → IsOutbox d
      → remove_by digest dumps loads max_records max_record_bytes path r found d ≡ ok next
      → IsOutbox next
  unfolding remove_by
  remove_by-IsOutbox path r none d next at h q = subst IsOutbox (ok_inj q) h
  remove_by-IsOutbox path r (some raw) d next at h q =
      remove_over-IsOutbox path r raw (loads raw) d next at h q

  spool_call-IsOutbox :
      (call : SpoolCall T) (d : Directory)
      → IsOutbox d
      → IsOutbox (spool_call digest dumps loads max_records max_record_bytes call d)
  unfolding spool_call write_row remove_row path_of open_spool
  spool_call-IsOutbox (writes r) d h =
      kept_or-IsOutbox d (write_to digest dumps loads max_records max_record_bytes replaced r d) h
        (λ next q.
          write_to-IsOutbox replaced r d next h
            (written digest dumps loads max_records max_record_bytes replaced r d next q))
  spool_call-IsOutbox (removes r) d h =
      let path = digest r.run_id r.decision_id in
      kept_or-IsOutbox d
        (remove_by digest dumps loads max_records max_record_bytes path r (lookup path d.rows) d) h
        (λ next q. remove_by-IsOutbox path r (lookup path d.rows) d next refl h q)
  spool_call-IsOutbox (crashes progress r) d h =
      kept_or-IsOutbox d (write_to digest dumps loads max_records max_record_bytes progress r d) h
        (λ next q.
          write_to-IsOutbox progress r d next h
            (written digest dumps loads max_records max_record_bytes progress r d next q))
  spool_call-IsOutbox reopens d h = h

  pub spool_calls-IsOutbox :
      (calls : List (SpoolCall T)) (d : Directory)
      → IsOutbox d
      → IsOutbox (spool_calls digest dumps loads max_records max_record_bytes calls d)
  unfolding spool_calls
  spool_calls-IsOutbox [] d h = h
  spool_calls-IsOutbox (call ∷ calls) d h =
      spool_calls-IsOutbox calls (spool_call digest dumps loads max_records max_record_bytes call d)
        (spool_call-IsOutbox call d h)

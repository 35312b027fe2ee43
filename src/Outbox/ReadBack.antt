-- ===== src/Outbox/ReadBack.antt =====
-- The round trip of the outbox of price_collector/ghost_twap_spool.py: what is written is read back.
use pythonbtccollector.Common.{
  ℕ, ◌≡◌, ◌<◌, ◌⊎◌, inl, inr, refl, subst, sym, ◌∙◌, true, false, Option, some, List, [], ◌∷◌, ltb,
  leb, ◌==◌, not, if_elim, length, All, arith, some_inj,
}
use pythonbtccollector.Common.Dict.{Eq, nat_Eq, lookup-insert_self}
use pythonbtccollector.Common.Result.{ok}
use pythonbtccollector.Outbox.{
  Row, Directory, replaced, SpoolCall, path_of, replace_to, write_row, insert_path, sort_paths,
  read_row, read_rows, read_all, spool_calls,
}
use pythonbtccollector.Outbox.Stored.{
  IsIn, IsIn-All, IsIn-lookup, Stores, IsReadable, IsSpool, WriteDid, written,
}
use pythonbtccollector.Outbox.Readable.{write_to-IsOutbox, spool_calls-IsOutbox}

-- Sorting keeps the files.
module _ (P : ℕ × List ℕ → Type 0) where
  All-insert_path :
      (row : ℕ × List ℕ) (rows : List (ℕ × List ℕ))
      → P row
      → All P rows
      → All P (insert_path row rows)
  unfolding insert_path
  All-insert_path row [] p h = (p, tt)
  All-insert_path row (next ∷ rows) p h =
      if_elim (All P) (leb row.0 next.0) (λ before. (p, h))
        (λ after. (h.0, All-insert_path row rows p h.1))

  All-sort_paths : (rows : List (ℕ × List ℕ)) → All P rows → All P (sort_paths rows)
  unfolding sort_paths
  All-sort_paths [] h = tt
  All-sort_paths (row ∷ rows) h =
      All-insert_path row (sort_paths rows) h.0 (All-sort_paths rows h.1)

IsIn-insert_path :
    (row : ℕ × List ℕ) (rows : List (ℕ × List ℕ)) (x : ℕ × List ℕ)
    → (x ≡ row) ⊎ IsIn x rows
    → IsIn x (insert_path row rows)
unfolding insert_path IsIn
IsIn-insert_path row [] x h = h
IsIn-insert_path row (next ∷ rows) x h =
    if_elim (IsIn x) (leb row.0 next.0) (λ before. h)
      (λ after. later row next rows x h (IsIn-insert_path row rows x))
  where
    later :
        (row next : ℕ × List ℕ) (rows : List (ℕ × List ℕ)) (x : ℕ × List ℕ)
        → (x ≡ row) ⊎ ((x ≡ next) ⊎ IsIn x rows)
        → ((x ≡ row) ⊎ IsIn x rows → IsIn x (insert_path row rows))
        → (x ≡ next) ⊎ IsIn x (insert_path row rows)
    later row next rows x (inl q) f = inr (f (inl q))
    later row next rows x (inr (inl q)) f = inl q
    later row next rows x (inr (inr h)) f = inr (f (inr h))

IsIn-sort_paths :
    (rows : List (ℕ × List ℕ)) (x : ℕ × List ℕ) → IsIn x rows → IsIn x (sort_paths rows)
unfolding sort_paths IsIn
IsIn-sort_paths [] x h = absurd h
IsIn-sort_paths (row ∷ rows) x (inl q) = IsIn-insert_path row (sort_paths rows) x (inl q)
IsIn-sort_paths (row ∷ rows) x (inr h) =
    IsIn-insert_path row (sort_paths rows) x (inr (IsIn-sort_paths rows x h))

-- The hypothesis: json.loads reads what json.dumps wrote.
module _ {T : Type 0} ⦃e : Eq T⦄ (digest : T → T → ℕ) (dumps : Row T → List ℕ)
    (loads : List ℕ → Option (Row T)) (max_records max_record_bytes : ℕ)
    (parses : (r : Row T) → loads (dumps r) ≡ some r) where
  -- The records are what the files say.
  Says : List (ℕ × List ℕ) → List (Row T) → Type 0
  Says rows records =
      (file : ℕ × List ℕ) (s : Row T) → IsIn file rows → loads file.1 ≡ some s → IsIn s records

  read_rows-ok :
      (rows : List (ℕ × List ℕ))
      → All (IsReadable digest dumps loads max_records max_record_bytes) rows
      → (records : List (Row T)) × (read_rows digest dumps loads max_records max_record_bytes rows
          ≡ ok records)
        × Says rows records
  unfolding read_rows read_row path_of Says IsIn
  read_rows-ok [] h = ([], refl, λ file s held says. absurd held)
  read_rows-ok ((path, raw) ∷ rows) ((r, says, same, fits), h) =
      let short : (ltb max_record_bytes (length raw) ≡ false) = ground (arith, fits) in
      let identity : (not (digest r.run_id r.decision_id == path) ≡ false) = ground (arith, same) in
      let (records, read, all) = read_rows-ok rows h in
      (r ∷ records, rw (short, says, identity, read) refl, here path raw r rows records says all)
    where
      here :
          (path : ℕ) (raw : List ℕ) (r : Row T) (rows : List (ℕ × List ℕ)) (records : List (Row T))
          → loads raw ≡ some r
          → Says rows records
          → Says ((path, raw) ∷ rows) (r ∷ records)
      here path raw r rows records says all file s (inl q) h = inl (some_inj (sym h ∙ (rw q says)))
      here path raw r rows records says all file s (inr held) h = inr (all file s held h)

  -- Every file of an outbox is read.
  read_all-ok :
      (d : Directory)
      → IsSpool digest dumps loads max_records max_record_bytes d
      → (records : List (Row T)) × (read_all digest dumps loads max_records max_record_bytes d
          ≡ ok records)
        × Says d.rows records
  unfolding read_all Says
  read_all-ok d (rows, short) =
      let few : (ltb max_records (length d.rows) ≡ false) = ground (arith, short) in
      let (records, read, all) =
        read_rows-ok (sort_paths d.rows) (
          All-sort_paths (IsReadable digest dumps loads max_records max_record_bytes) d.rows
            rows) in
      (records, rw few read, λ file s held says. all file s (IsIn-sort_paths d.rows file held) says)

  -- The file of a record after a write that returns.
  stored_row :
      (r : Row T) (d next : Directory)
      → WriteDid digest dumps loads max_records max_record_bytes replaced r d next
      → (s : Row T) × Stores loads (digest r.run_id r.decision_id) s next
        × ((s ≡ r) ⊎ (r.version < s.version) × (e.beq s.frozen_json r.frozen_json ≡ true))
  unfolding WriteDid replace_to
  stored_row r d next (inl (s, stored, frozen, same, inl equal)) =
      (s, subst (Stores loads (digest r.run_id r.decision_id) s) same stored, inl equal)
  stored_row r d next (inl (s, stored, frozen, same, inr newer)) =
      (s, subst (Stores loads (digest r.run_id r.decision_id) s) same stored, inr (newer, frozen))
  stored_row r d next (inr (how, fits, same)) = (
    r,
    subst (Stores loads (digest r.run_id r.decision_id) r) same
        (dumps r, lookup-insert_self (digest r.run_id r.decision_id) (dumps r) d.rows, parses r),
    inl refl,
  )

  -- A file of an outbox has the name of its record.
  path_of-Stores :
      (path : ℕ) (s : Row T) (d : Directory)
      → IsSpool digest dumps loads max_records max_record_bytes d
      → Stores loads path s d
      → digest s.run_id s.decision_id ≡ path
  path_of-Stores path s d (rows, short) (raw, found, says) =
      let (r, reads, same, fits) =
        IsIn-All (IsReadable digest dumps loads max_records max_record_bytes) d.rows (path, raw)
          rows (IsIn-lookup path d.rows raw found) in
      subst (λ (x : Row T). digest x.run_id x.decision_id ≡ path) (some_inj (sym reads ∙ says)) same

  -- When json.loads reads what json.dumps wrote: after any writes, removals, crashes in a write, also
  -- within the bytes of its temporary file, and openings, of an outbox that began empty, a write that
  -- returns is followed by a reading that returns. Among the records read is the one that was written,
  -- or one whose identity names the same file, with the same frozen part and a newer version.
  pub written_row_reads_back :
      (calls : List (SpoolCall T)) (r : Row T) (next : Directory)
      → write_row digest dumps loads max_records max_record_bytes r (
          spool_calls digest dumps loads max_records max_record_bytes calls
            (record { rows = []; temporaries = [] }))
        ≡ ok next
      → (s : Row T) × (records : List (Row T)) × (read_all digest dumps loads max_records
            max_record_bytes next
          ≡ ok records)
        × IsIn s records
        × (digest s.run_id s.decision_id ≡ digest r.run_id r.decision_id)
        × ((s ≡ r) ⊎ (r.version < s.version) × (e.beq s.frozen_json r.frozen_json ≡ true))
  unfolding write_row Says
  written_row_reads_back calls r next h =
      let none_yet : Directory = record { rows = []; temporaries = [] } in
      let d = spool_calls digest dumps loads max_records max_record_bytes calls none_yet in
      let good =
        spool_calls-IsOutbox digest dumps loads max_records max_record_bytes parses calls none_yet
          (tt, omega arith) in
      let w = written digest dumps loads max_records max_record_bytes replaced r d next h in
      let kept =
        write_to-IsOutbox digest dumps loads max_records max_record_bytes parses replaced r d next
          good w in
      let (s, (raw, found, says), how) = stored_row r d next w in
      let path = digest r.run_id r.decision_id in
      let (records, read, all) = read_all-ok next kept in
      (
        s,
        records,
        read,
        all (path, raw) s (IsIn-lookup path next.rows raw found) says,
        path_of-Stores path s next kept (raw, found, says),
        how,
      )

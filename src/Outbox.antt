-- ===== src/Outbox.antt =====
-- GhostSpool of price_collector/ghost_twap_spool.py, the outbox of a directory with one file for
-- each record. The directory keeps the bytes of its files, by the digest that names a file, and the
-- temporary files of interrupted writes, which hold a part of their bytes. The digest of an identity
-- and `json.dumps` and `json.loads` are parameters. A file that was synced keeps its bytes. Locks,
-- symbolic links and file modes are left out.
pub mod Stored
pub mod Campaign
pub mod Readable
pub mod ReadBack
pub mod Versions
pub mod Tests
use pythonbtccollector.Common.{
  ℕ, ◌+◌, Bool, true, false, Option, none, some, List, [], ◌∷◌, ltb, leb, ◌==◌, ◌&&◌, not,
  if◌then◌else◌, length, take,
}
use pythonbtccollector.Common.Dict.{Dict, Eq, lookup, insert, remove, nat_Eq}
use pythonbtccollector.Common.Result.{Result, ok, err, ◌>>=◌}

-- The exceptions raised, by their messages.
pub data SpoolError : Type 0 where
  record_too_long : SpoolError
  capacity_exhausted : SpoolError
  frozen_changed : SpoolError
  version_conflict : SpoolError
  oversized_outbox : SpoolError
  oversized_record : SpoolError
  invalid_identity : SpoolError
  newer_version : SpoolError
  unreadable : SpoolError

-- A record: its identity, the frozen part, its version, and everything else that it says.
pub record Row (T : Type 0) : Type 0 where
  pub run_id : T
  pub decision_id : T
  pub frozen_json : T
  pub version : ℕ
  pub others : T

-- The bytes of the files named `.row` and `.tmp`.
pub record Directory : Type 0 where
  pub rows : Dict ℕ (List ℕ)
  pub temporaries : Dict ℕ (List ℕ)

-- How far `_atomic` comes: not to opening the temporary file, to so many of its bytes, or to the end.
pub data Progress : Type 0 where
  unopened : Progress
  partial : ℕ → Progress
  replaced : Progress

-- What the worker does with its outbox; a crash in a write is followed by an opening.
pub data SpoolCall (T : Type 0) : Type 0 where
  writes : Row T → SpoolCall T
  removes : Row T → SpoolCall T
  crashes : Progress → Row T → SpoolCall T
  reopens : SpoolCall T

-- The writing of `_atomic`: the temporary file is opened and takes the bytes, then it replaces the
-- file.
unfoldable pub replace_to : Progress → ℕ → List ℕ → Directory → Directory
replace_to unopened path raw d = d
replace_to (partial n) path raw d = record d {
  temporaries = insert path (take n raw) d.temporaries;
}
replace_to replaced path raw d = record d {
  rows = insert path raw d.rows;
  temporaries = remove path d.temporaries;
}

-- open, which clears what interrupted writes left
unfoldable pub open_spool : Directory → Directory
open_spool d = record d { temporaries = [] }

-- sorted(paths)
unfoldable pub insert_path : ℕ × List ℕ → List (ℕ × List ℕ) → List (ℕ × List ℕ)
insert_path row [] = row ∷ []
insert_path row (next ∷ rows) =
    let rest = insert_path row rows in if leb row.0 next.0 then row ∷ next ∷ rows else next ∷ rest

unfoldable pub sort_paths : List (ℕ × List ℕ) → List (ℕ × List ℕ)
unfolding insert_path
sort_paths [] = []
sort_paths (row ∷ rows) = insert_path row (sort_paths rows)

-- A call that raises changes nothing.
unfoldable pub kept_or : Directory → Result SpoolError Directory → Directory
kept_or d (ok next) = next
kept_or d (err x) = d

-- `==` of two records
unfoldable pub row_eq : {T : Type 0} ⦃e : Eq T⦄ → Row T → Row T → Bool
row_eq ⦃e⦄ a b =
    e.beq a.run_id b.run_id
    && e.beq a.decision_id b.decision_id
    && e.beq a.frozen_json b.frozen_json
    && (a.version == b.version)
    && e.beq a.others b.others

module _ {T : Type 0} ⦃e : Eq T⦄ (digest : T → T → ℕ) (dumps : Row T → List ℕ)
    (loads : List ℕ → Option (Row T)) (max_records max_record_bytes : ℕ) where
  -- _path
  unfoldable pub path_of : Row T → ℕ
  path_of r = digest r.run_id r.decision_id

  -- _atomic
  unfoldable pub atomic_to : Progress → ℕ → List ℕ → Directory → Result SpoolError Directory
  unfolding replace_to
  atomic_to progress path raw d =
      if ltb max_record_bytes (length raw)
      then err record_too_long
      else ok (replace_to progress path raw d)

  -- write, of a record whose file exists and was read
  unfoldable pub write_over :
      Progress → ℕ → Row T → Option (Row T) → Directory → Result SpoolError Directory
  unfolding row_eq atomic_to
  write_over progress path r none d = err unreadable
  write_over progress path r (some existing) d =
      if not (e.beq existing.frozen_json r.frozen_json)
      then err frozen_changed
      else if ltb r.version existing.version
      then ok d
      else if (existing.version == r.version) && not (row_eq existing r)
      then err version_conflict
      else if row_eq existing r
      then ok d
      else atomic_to progress path (dumps r) d

  unfoldable pub write_by :
      Progress → ℕ → Row T → Option (List ℕ) → Directory → Result SpoolError Directory
  unfolding write_over atomic_to
  write_by progress path r (some raw) d = write_over progress path r (loads raw) d
  write_by progress path r none d =
      if leb max_records (length d.rows)
      then err capacity_exhausted
      else atomic_to progress path (dumps r) d

  -- write, as far as it comes
  unfoldable pub write_to : Progress → Row T → Directory → Result SpoolError Directory
  unfolding path_of write_by
  write_to progress r d = write_by progress (path_of r) r (lookup (path_of r) d.rows) d

  -- write
  unfoldable pub write_row : Row T → Directory → Result SpoolError Directory
  unfolding write_to
  write_row r d = write_to replaced r d

  -- The loop of read_all.
  unfoldable pub read_row :
      ℕ → Result SpoolError (List (Row T)) → Option (Row T) → Result SpoolError (List (Row T))
  unfolding path_of
  read_row path rest none = err unreadable
  read_row path rest (some r) =
      if not (path_of r == path) then err invalid_identity else rest >>= λ others. ok (r ∷ others)

  unfoldable pub read_rows : List (ℕ × List ℕ) → Result SpoolError (List (Row T))
  unfolding read_row
  read_rows [] = ok []
  read_rows ((path, raw) ∷ rows) =
      let rest = read_rows rows in
      if ltb max_record_bytes (length raw)
      then err oversized_record
      else read_row path rest (loads raw)

  -- read_all
  unfoldable pub read_all : Directory → Result SpoolError (List (Row T))
  unfolding sort_paths read_rows
  read_all d =
      if ltb max_records (length d.rows)
      then err oversized_outbox
      else read_rows (sort_paths d.rows)

  -- remove, of a record whose file exists and was read
  unfoldable pub remove_over : ℕ → Row T → Option (Row T) → Directory → Result SpoolError Directory
  remove_over path r none d = err unreadable
  remove_over path r (some current) d =
      if current.version == r.version
      then ok (record d { rows = remove path d.rows })
      else err newer_version

  unfoldable pub remove_by : ℕ → Row T → Option (List ℕ) → Directory → Result SpoolError Directory
  unfolding remove_over
  remove_by path r none d = ok d
  remove_by path r (some raw) d = remove_over path r (loads raw) d

  -- remove
  unfoldable pub remove_row : Row T → Directory → Result SpoolError Directory
  unfolding path_of remove_by
  remove_row r d = remove_by (path_of r) r (lookup (path_of r) d.rows) d

  unfoldable pub spool_call : SpoolCall T → Directory → Directory
  unfolding write_row remove_row write_to open_spool kept_or
  spool_call (writes r) d = kept_or d (write_row r d)
  spool_call (removes r) d = kept_or d (remove_row r d)
  spool_call (crashes progress r) d = open_spool (kept_or d (write_to progress r d))
  spool_call reopens d = open_spool d

  unfoldable pub spool_calls : List (SpoolCall T) → Directory → Directory
  unfolding spool_call
  spool_calls [] d = d
  spool_calls (call ∷ calls) d = spool_calls calls (spool_call call d)

-- ===== src/Outbox/Tests.antt =====
-- Runs of the outbox of price_collector/ghost_twap_spool.py, and its theorems at concrete inputs.
use pythonbtccollector.Common.{
  ℕ, ◌+◌, ◌*◌, ◌≡◌, ◌<◌, ◌⊎◌, refl, true, Option, none, some, List, [], ◌∷◌, ◌==◌,
}
use pythonbtccollector.Common.Dict.{nat_Eq}
use pythonbtccollector.Common.Result.{ok, err}
use pythonbtccollector.Outbox.{
  Row, Directory, partial, SpoolCall, writes, crashes, reopens, write_to, kept_or, write_row,
  read_all, spool_calls, capacity_exhausted, version_conflict, unreadable,
}
use pythonbtccollector.Outbox.Stored.{IsIn, Stores}
use pythonbtccollector.Outbox.ReadBack.{written_row_reads_back}
use pythonbtccollector.Outbox.Versions.{IsUpdate, brought, IsSuccessor, row_versions_rise}

-- Texts are numbers here, and a record is the list of its five.
abbrev digest : ℕ → ℕ → ℕ
digest run decision = run * 1000 + decision

abbrev dumps : Row ℕ → List ℕ
dumps r = r.run_id ∷ r.decision_id ∷ r.frozen_json ∷ r.version ∷ r.others ∷ []

abbrev loads : List ℕ → Option (Row ℕ)
loads (a ∷ b ∷ c ∷ v ∷ o ∷ []) =
    some (record { run_id = a; decision_id = b; frozen_json = c; version = v; others = o })
loads _ = none

parses : (r : Row ℕ) → loads (dumps r) ≡ some r
parses r = refl

abbrev row : ℕ → ℕ → ℕ → Row ℕ
row decision version others = record {
  run_id = 1;
  decision_id = decision;
  frozen_json = 5;
  version = version;
  others = others;
}

abbrev empty : Directory
empty = record { rows = []; temporaries = [] }

-- A crash in the second write, after three bytes.
abbrev calls : List (SpoolCall ℕ)
calls = writes (row 1 1 0) ∷ crashes (partial 3) (row 1 2 0) ∷ writes (row 2 1 0) ∷ []

abbrev after_calls : Directory
after_calls = record {
  rows = (1001, dumps (row 1 1 0)) ∷ (1002, dumps (row 2 1 0)) ∷ [];
  temporaries = [];
}

calls_end : spool_calls digest dumps loads 2 200 calls empty ≡ after_calls
unfolding spool_calls
calls_end = refl

-- What the crash leaves before the outbox is opened again.
torn_temporary :
    kept_or after_calls (write_to digest dumps loads 2 200 (partial 3) (row 1 2 0) after_calls)
    ≡ record { rows = after_calls.rows; temporaries = (1001, 1 ∷ 1 ∷ 5 ∷ []) ∷ [] }
unfolding write_to kept_or
torn_temporary = refl

full_refuses : write_row digest dumps loads 2 200 (row 3 1 0) after_calls ≡ err capacity_exhausted
unfolding write_row
full_refuses = refl

same_version_refuses :
    write_row digest dumps loads 2 200 (row 2 1 9) after_calls ≡ err version_conflict
unfolding write_row
same_version_refuses = refl

-- A file that json.loads refuses.
torn_file_refuses :
    read_all digest dumps loads 2 200
      (record { rows = (1001, 1 ∷ 1 ∷ 5 ∷ []) ∷ []; temporaries = [] })
    ≡ err unreadable
unfolding read_all
torn_file_refuses = refl

abbrev rewritten : Directory
rewritten = record {
  rows = (1001, dumps (row 1 1 0)) ∷ (1002, dumps (row 2 4 0)) ∷ [];
  temporaries = [];
}

written_row_reads_back_example :
    (s : Row ℕ) × (records : List (Row ℕ)) × (read_all digest dumps loads 2 200 rewritten
      ≡ ok records)
    × IsIn s records
    × (digest s.run_id s.decision_id ≡ 1002)
    × ((s ≡ row 2 4 0) ⊎ (4 < s.version) × ((s.frozen_json == 5) ≡ true))
unfolding write_row spool_calls
written_row_reads_back_example =
    written_row_reads_back digest dumps loads 2 200 parses calls (row 2 4 0) rewritten refl

-- A new version, then a crash in writing the next.
abbrev updates : List (SpoolCall ℕ)
updates = writes (row 2 4 0) ∷ crashes (partial 2) (row 2 5 0) ∷ reopens ∷ []

row_versions_rise_example :
    (t : Row ℕ) × Stores loads 1002 t (spool_calls digest dumps loads 2 200 updates after_calls)
    × IsSuccessor (brought updates) (row 2 1 0) t
unfolding IsUpdate
row_versions_rise_example =
    row_versions_rise digest dumps loads 2 200 parses updates after_calls 1002 (row 2 1 0)
      (tt, (tt, (tt, tt))) (dumps (row 2 1 0), refl, refl)

-- ===== src/Ghost/Trace/Valid/Runs.antt =====
-- The invariant of the engine of price_collector/ghost_twap.py under `snapshot` and along every run.
use pythonbtccollector.Common.{ℕ, ◌/◌, String, some, List, [], ◌∷◌, arith, Bool-cases, inl, inr}
use pythonbtccollector.Common.Result.{ok, err}
use pythonbtccollector.Ghost.Types.{GhostPolicy, ns_per_ms}
use pythonbtccollector.Ghost.Checks.{is_text}
use pythonbtccollector.Ghost.Engine.{predates, Engine, new_engine, key_Eq}
use pythonbtccollector.Ghost.Gap.{Outcome}
use pythonbtccollector.Ghost.Snapshot.{snapshot, finish_snapshot, expire_reconnect}
use pythonbtccollector.Ghost.Trace.{Call, accepting, losing, deciding, step, run}
use pythonbtccollector.Ghost.Trace.Valid.{
  IsValid, prune-IsValid, record_gap-IsValid, clear_spot_reconnect-IsValid,
}
use pythonbtccollector.Ghost.Trace.Valid.Accepting.{accept-IsValid}

expire_reconnect-IsValid :
    (wall mono : ℕ) (s : Engine) → IsValid s → IsValid (expire_reconnect wall mono s).1
unfolding expire_reconnect
expire_reconnect-IsValid wall mono s v = grind (arith, clear_spot_reconnect-IsValid)

finish_snapshot-IsValid :
    (id : String) (wall mono : ℕ) (o : Outcome (Unit {0}))
    → IsValid o.1
    → IsValid (finish_snapshot id wall mono o).1
finish_snapshot-IsValid id wall mono (ok done, s) v = prune-IsValid (wall / ns_per_ms) s v
finish_snapshot-IsValid id wall mono (err e, s) v = v

decided-IsValid :
    (wall mono : ℕ) (s : Engine)
    → IsValid s
    → IsValid (record s { last_decision = some (wall, mono) })
decided-IsValid wall mono s v = ground arith

pub snapshot-IsValid :
    (id : String) (wall mono : ℕ) (s : Engine) → IsValid s → IsValid (snapshot id wall mono s).1
unfolding snapshot
snapshot-IsValid id wall mono s v = elim (Bool-cases (is_text id)) [
  | inr blank ↦ rw blank v
  | inl text ↦ elim (Bool-cases (predates wall mono s)) [
    | inl early ↦ rw (text, early) v
    | inr late ↦
        rw (text, late)
          (finish_snapshot-IsValid id wall mono _
            (expire_reconnect-IsValid wall mono _ (decided-IsValid wall mono s v)))
  ]
]

pub new_engine-IsValid :
    (run_id : String) (policy : GhostPolicy) → IsValid (new_engine run_id policy)
unfolding new_engine
new_engine-IsValid run_id policy = ground arith

pub run-IsValid : (calls : List Call) (s : Engine) → IsValid s → IsValid (run calls s)
unfolding run step
run-IsValid [] s v = v
run-IsValid (accepting event ∷ calls) s v = run-IsValid calls _ (accept-IsValid event s v)
run-IsValid (losing feed reason wall mono ∷ calls) s v =
    run-IsValid calls _ (record_gap-IsValid feed reason wall mono s v)
run-IsValid (deciding id wall mono ∷ calls) s v =
    run-IsValid calls _ (snapshot-IsValid id wall mono s v)

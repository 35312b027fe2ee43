-- ===== src/Ghost/Snapshot/Inversion.antt =====
-- What a successful `snapshot` of price_collector/ghost_twap.py has done.
use pythonbtccollector.Common.{
  ℕ, ◌/◌, String, ◌≡◌, refl, false, true, some, inl, inr, arith, Bool-cases,
}
use pythonbtccollector.Common.Result.{ok, err}
use pythonbtccollector.Ghost.Types.{ns_per_ms, Decision}
use pythonbtccollector.Ghost.Engine.{Engine, predates, prune}
use pythonbtccollector.Ghost.Gap.{Outcome}
use pythonbtccollector.Ghost.Checks.{is_text}
use pythonbtccollector.Ghost.Snapshot.{decide, expire_reconnect, finish_snapshot, snapshot}

finish_snapshot-ok :
    (id : String) (wall mono : ℕ) (o : Outcome (Unit {0})) {d : Decision}
    → (finish_snapshot id wall mono o).0 ≡ ok d
    → ((finish_snapshot id wall mono o).1 ≡ prune (wall / ns_per_ms) o.1)
      × (decide id wall mono (finish_snapshot id wall mono o).1 ≡ d)
      × (o.0 ≡ ok tt)
finish_snapshot-ok id wall mono (ok done, s) h = ground arith
finish_snapshot-ok id wall mono (err e, s) h = cc

-- The engine at a cutoff: the decision noted, an expired reconnect cleared.
abbrev pub cut : ℕ → ℕ → Engine → Outcome (Unit {0})
cut wall mono s = expire_reconnect wall mono (record s { last_decision = some (wall, mono) })

pub snapshot_ok :
    (id : String) (wall mono : ℕ) (s : Engine) {d : Decision}
    → (snapshot id wall mono s).0 ≡ ok d
    → ((snapshot id wall mono s).1 ≡ prune (wall / ns_per_ms) (cut wall mono s).1)
      × (decide id wall mono (snapshot id wall mono s).1 ≡ d)
      × ((cut wall mono s).0 ≡ ok tt)
      × (predates wall mono s ≡ false)
unfolding snapshot
snapshot_ok id wall mono s {d} h = elim (Bool-cases (is_text id)) [
  | inl text ↦ elim (Bool-cases (predates wall mono s)) [
    | inl early ↦ absurd (ground arith)
    | inr late ↦ ground (arith, finish_snapshot-ok id wall mono (cut wall mono s) {d = d})
  ]
  | inr blank ↦ absurd (ground arith)
]

finish_snapshot-succeeds :
    (id : String) (wall mono : ℕ) (o : Outcome (Unit {0}))
    → o.0 ≡ ok tt
    → (finish_snapshot id wall mono o).0
      ≡ ok (decide id wall mono (finish_snapshot id wall mono o).1)
finish_snapshot-succeeds id wall mono (ok done, s) h = refl
finish_snapshot-succeeds id wall mono (err e, s) h = absurd (ground arith)

-- Where its guards pass, `snapshot` returns what is decided from the engine that it leaves.
pub snapshot-succeeds :
    (id : String) (wall mono : ℕ) (s : Engine)
    → is_text id ≡ true
    → predates wall mono s ≡ false
    → (cut wall mono s).0 ≡ ok tt
    → (snapshot id wall mono s).0 ≡ ok (decide id wall mono (snapshot id wall mono s).1)
unfolding snapshot
snapshot-succeeds id wall mono s text late ready =
    rw (text, late) (finish_snapshot-succeeds id wall mono (cut wall mono s) ready)

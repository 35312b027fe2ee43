-- ===== src/Health/Tests.antt =====
-- A run of the diagnostics of price_collector/ghost_twap_health.py.
use pythonbtccollector.Common.{◌+◌, ◌*◌, ◌≤◌, ◌≡◌, refl, List, [], ◌∷◌, length}
use pythonbtccollector.Ghost.Types.{spot, twap}
use pythonbtccollector.Health.Hours.{Health, hour_ms, max_hours, new_health}
use pythonbtccollector.Health.Hours.Accounts.{Consecutive}
use pythonbtccollector.Health.Feeds.Hours.{Call, losing, showing, run, hours_accounted}

-- Two silent hours, then two hundred.
abbrev first_gap : Call
first_gap = losing spot "connection_end" 36_000_005

abbrev later_calls : List Call
later_calls = showing 46_800_000 0 ∷ losing twap "capacity" 766_800_000 ∷ []

abbrev filled : Health
filled = run (first_gap ∷ later_calls) (new_health "run" 0)

filled_counts :
    (length filled.hours ≡ 49) × (filled.dropped_hours ≡ 151) × (filled.history_evictions ≡ 4)
unfolding run new_health
filled_counts = (refl, refl, refl)

hours_accounted_example :
    (1 ≤ length filled.hours)
    × (length filled.hours ≤ max_hours)
    × Consecutive
        (36_000_000 + (filled.dropped_hours + filled.history_evictions) * hour_ms)
        filled.hours
hours_accounted_example = hours_accounted "run" 0 first_gap later_calls

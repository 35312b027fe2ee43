-- ===== src/Ghost/Trace/Scenario.antt =====
-- A run of the engine: spot reports ten seconds apart, a TWAP report, a decision; then a connection
-- end, a late and an early report.
use pythonbtccollector.Common.{ℕ, ◌+◌, ◌*◌, ◌≡◌, refl, true, Option, none, some, List, [], ◌∷◌}
use pythonbtccollector.Ghost.Types.{Feed, spot, twap, GhostPolicy, PriceEvent, Forecast}
use pythonbtccollector.Ghost.Engine.{Engine, new_engine}
use pythonbtccollector.Ghost.Snapshot.{decide}
use pythonbtccollector.Ghost.Trace.{Call, accepting, run}

abbrev pub policy : GhostPolicy
policy = record {
  enabled = true;
  source_max_age_ms = 5_000;
  receipt_max_age_ms = 3_000;
  max_carry_ms = 10_000;
  history_ms = 120_000;
  max_events = 12;
  spot_reconnect_max_gap_ms = 10_000;
}

abbrev pub event_window : Feed → Option ℕ
event_window spot = none
event_window twap = some 60

-- A report of a second, received 100 ms later on both clocks.
abbrev pub report : Feed → ℕ → ℕ → ℕ → PriceEvent
report feed second value sequence = record {
  feed = feed;
  value = value;
  source_timestamp_ms = second * 1000;
  received_wall_ns = second * 1_000_000_000 + 100_000_000;
  received_monotonic_ns = second * 1_000_000_000 + 100_000_000;
  sequence = sequence;
  event_id = "e";
  window_s = event_window feed;
}

abbrev pub reports : List Call
reports =
    accepting (report spot 930 100 1)
    ∷ accepting (report spot 940 101 2)
    ∷ accepting (report spot 950 102 3)
    ∷ accepting (report spot 960 103 4)
    ∷ accepting (report spot 970 104 5)
    ∷ accepting (report spot 980 105 6)
    ∷ accepting (report spot 990 106 7)
    ∷ accepting (report spot 1000 107 8)
    ∷ accepting (report twap 1000 104 9)
    ∷ []

abbrev pub fresh : Engine
fresh = new_engine "run" policy

abbrev pub ready : Engine
ready = run reports fresh

-- 1000.5 s
abbrev pub cutoff_ns : ℕ
cutoff_ns = 1_000_500_000_000

abbrev pub reported_twap : PriceEvent
reported_twap = report twap 1000 104 9

abbrev pub prices : List Forecast → List (Option ℕ)
prices [] = []
prices (f ∷ l) = f.price ∷ prices l

abbrev decided_prices : Engine → List (Option ℕ)
decided_prices s = prices (decide "d" cutoff_ns cutoff_ns s).forecasts

all_horizons_priced :
    decided_prices ready ≡ some 103 ∷ some 104 ∷ some 104 ∷ some 104 ∷ some 104 ∷ some 106 ∷ []
unfolding run new_engine decide
all_horizons_priced = refl

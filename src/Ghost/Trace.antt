-- ===== src/Ghost/Trace.antt =====
-- Sequences of calls on a GhostTwapEngine of price_collector/ghost_twap.py, as its owner makes them.
pub mod Valid
pub mod Faults
pub mod Causality
pub mod Capacity
pub mod Scenario
use pythonbtccollector.Common.{ℕ, Option, String, List, [], ◌∷◌}
use pythonbtccollector.Ghost.Types.{Feed, PriceEvent, GapReason}
use pythonbtccollector.Ghost.Engine.{Engine, prune, drop_feed, latest_source, current_reasons}
use pythonbtccollector.Ghost.Gap.{
  record_gap, apply_gap, end_connection, lose_feed, clear_spot_reconnect, resolve_spot_reconnect,
}
use pythonbtccollector.Ghost.Accept.{
  accept, sequence_gaps, capacity_gaps, note_twap, remember, enforce_capacity, store_event,
}
use pythonbtccollector.Ghost.Snapshot.{snapshot, expire_reconnect, decide}

-- A call of the engine; a raised error leaves the engine as the call left it.
pub data Call : Type 0 where
  accepting : PriceEvent → Call
  losing : Feed → GapReason → Option ℕ → Option ℕ → Call
  deciding : String → ℕ → ℕ → Call

unfoldable pub step : Call → Engine → Engine
unfolding record_gap apply_gap end_connection lose_feed drop_feed latest_source current_reasons
    clear_spot_reconnect resolve_spot_reconnect sequence_gaps capacity_gaps note_twap remember prune
    enforce_capacity store_event accept expire_reconnect decide snapshot
step (accepting event) s = (accept event s).1
step (losing feed reason wall mono) s = (record_gap feed reason wall mono s).1
step (deciding id wall mono) s = (snapshot id wall mono s).1

unfoldable pub run : List Call → Engine → Engine
unfolding step
run [] s = s
run (c ∷ calls) s = run calls (step c s)

-- ===== src/Ghost/Snapshot.antt =====
-- `snapshot` of GhostTwapEngine in price_collector/ghost_twap.py: the cutoff, an expired reconnect,
-- the pruned engine and what is decided from it.
pub mod Inversion
pub mod Deadline
use pythonbtccollector.Common.{
  ℕ, ◌+◌, ◌-◌, ◌*◌, ◌/◌, String, Option, none, some, List, [], ◌∷◌, ◌++◌, map, max, ltb, ◌||◌, not,
  if◌then◌else◌,
}
use pythonbtccollector.Common.Int.{ℤ, pos, sub_ℕ, min_ℤ}
use pythonbtccollector.Common.Result.{ok, err}
use pythonbtccollector.Ghost.Types.{
  GhostPolicy, PriceEvent, ns_per_ms, Slot, Reason, reconnect_timeout, SpotReconnect, Forecast,
  Decision, not_a_text, backdated_snapshot, snapshot_predates_gap, type_error,
}
use pythonbtccollector.Ghost.Checks.{is_text}
use pythonbtccollector.Ghost.Engine.{Engine, predates, prune}
use pythonbtccollector.Ghost.Gap.{Outcome, is_waiting, reconnect_limit_ns, clear_spot_reconnect}
use pythonbtccollector.Ghost.Slots.{slots_for, second_slot, admissible_spots}
use pythonbtccollector.Ghost.Forecast.{
  horizons, is_empty, when, option_list, decision_reasons, anchored_forecast, unanchored_forecast,
}

-- The deadlines of one event; the last counts from the decision by the monotonic clock.
abbrev pub event_deadlines : GhostPolicy → ℕ → ℕ → Option PriceEvent → List ℤ
event_deadlines policy wall mono none = []
event_deadlines policy wall mono (some e) =
    let receipt = policy.receipt_max_age_ms * ns_per_ms in
    pos (e.received_wall_ns + receipt)
    ∷ pos ((e.source_timestamp_ms + policy.source_max_age_ms) * ns_per_ms)
    ∷ sub_ℕ (wall + receipt + e.received_monotonic_ns) mono
    ∷ []

abbrev pub least : ℤ → List ℤ → ℤ
least d [] = d
least d (x ∷ l) = least (min_ℤ d x) l

-- `min(deadlines, default=decision_wall_ns)`
abbrev pub min_deadline : ℕ → List ℤ → ℤ
min_deadline wall [] = pos wall
min_deadline wall (d ∷ l) = least d l

-- The forecasts of all horizons, with the current TWAP report as their anchor.
abbrev pub forecasts_around :
    Engine → ℕ → List Reason → List Slot → Option PriceEvent → List Forecast
forecasts_around s wall reasons slots none = map (unanchored_forecast reasons) horizons
forecasts_around s wall reasons slots (some anchor) =
    map (anchored_forecast s.history reasons slots wall anchor) horizons

abbrev pub slots_around : Engine → ℕ → ℕ → Option PriceEvent → List Slot
slots_around s wall mono none = []
slots_around s wall mono (some anchor) = slots_for s wall mono anchor

-- What `snapshot` computes from the pruned engine.
unfoldable pub decide : String → ℕ → ℕ → Engine → Decision
unfolding slots_for second_slot admissible_spots decision_reasons anchored_forecast
    unanchored_forecast
decide decision_id wall mono s =
    let reasons = decision_reasons s wall mono in
    let slots = slots_around s wall mono s.current_twap in
    record {
      run_id = s.run_id;
      decision_id = decision_id;
      decision_wall_ns = wall;
      decision_monotonic_ns = mono;
      included_sequence = elim s.last_event [ none ↦ none | some e ↦ some e.sequence ];
      policy = s.policy;
      current_spot = s.current_spot;
      current_twap = s.current_twap;
      slots = slots;
      forecasts = forecasts_around s wall reasons slots s.current_twap;
      reasons = reasons;
      gap_count = s.gap_count;
      last_gaps = option_list s.last_gap_spot ++ option_list s.last_gap_twap;
      valid_until_wall_ns = min_deadline wall (
          when (not (is_empty reasons)) (pos wall)
          ++ (event_deadlines s.policy wall mono s.current_spot
              ++ event_deadlines s.policy wall mono s.current_twap));
      spot_reconnect = s.spot_reconnect;
    }

-- A waiting reconnect at a decision: it may have run out, or lie after the decision.
abbrev pub expire_waiting :
    Option ℕ → Option ℕ → Option PriceEvent → SpotReconnect → ℕ → ℕ → Engine → Outcome (Unit {0})
expire_waiting (some gap_wall) (some gap_mono) (some previous) r wall mono s =
    if ltb wall gap_wall || ltb mono gap_mono
    then (err snapshot_predates_gap, s)
    else if ltb (reconnect_limit_ns s)
        (max (wall - previous.received_wall_ns) (mono - previous.received_monotonic_ns))
    then (ok tt, clear_spot_reconnect r reconnect_timeout none s)
    else (ok tt, s)
expire_waiting _ _ _ r wall mono s = (err type_error, s)

unfoldable pub expire_reconnect : ℕ → ℕ → Engine → Outcome (Unit {0})
expire_reconnect wall mono s = elim s.spot_reconnect [
  | none ↦ (ok tt, s)
  | some r ↦
      if is_waiting r.status
      then expire_waiting r.gap_wall_ns r.gap_monotonic_ns r.previous_spot r wall mono s
      else (ok tt, s)
]

abbrev pub finish_snapshot : String → ℕ → ℕ → Outcome (Unit {0}) → Outcome Decision
finish_snapshot decision_id wall mono (ok done, s) =
    let s' = prune (wall / ns_per_ms) s in (ok (decide decision_id wall mono s'), s')
finish_snapshot decision_id wall mono (err e, s) = (err e, s)

unfoldable pub snapshot : String → ℕ → ℕ → Engine → Outcome Decision
snapshot decision_id wall mono s =
    if not (is_text decision_id)
    then (err not_a_text, s)
    else if predates wall mono s
    then (err backdated_snapshot, s)
    else finish_snapshot decision_id wall mono
        (expire_reconnect wall mono (record s { last_decision = some (wall, mono) }))

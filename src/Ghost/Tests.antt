-- ===== src/Ghost/Tests.antt =====
-- The theorems on the engine of price_collector/ghost_twap.py at the run of Scenario.antt.
use pythonbtccollector.Common.{
  ℕ, ◌+◌, ◌*◌, ◌%◌, ◌≤◌, ◌<◌, ◌≡◌, ◌≢◌, ◌^◌, ◌*◌, ◌%◌, ◌↔◌, ◌⊎◌, refl, true, none, some, List, [],
  ◌∷◌, arith, All, length,
}
use pythonbtccollector.Common.Dict.{lookup}
use pythonbtccollector.Common.Int.{pos, ◌≤ℤ◌}
use pythonbtccollector.Common.Result.{ok, err}
use pythonbtccollector.Ghost.Types.{
  spot, twap, PriceEvent, connection_end, observed, carried, pending, Decision, unavailable,
  type_error, Slot, Forecast, retained, cleared, waiting, awaiting_fresh_advancing_spot,
  SpotReconnect,
}
use pythonbtccollector.Ghost.Checks.{is_text, finite, price, price_limit_e18, RawEvent, price_event}
use pythonbtccollector.Ghost.Checks.Price.{price_exact, price_event_valid}
use pythonbtccollector.Ghost.Engine.{
  Engine, new_engine, key_Eq, is_some, current_reasons, drop_feed,
}
use pythonbtccollector.Ghost.Gap.{is_admissible_spot, record_gap, apply_gap, resolve_spot_reconnect}
use pythonbtccollector.Ghost.Gap.Isolation.{spot_gap_isolates, twap_gap_isolates}
use pythonbtccollector.Ghost.Gap.Reconnect.{Bridges, status_of, reconnect_settles}
use pythonbtccollector.Ghost.Accept.{accept}
use pythonbtccollector.Ghost.Slots.{slot_at, slots_for, admissible_spots}
use pythonbtccollector.Ghost.Slots.Sorted.{Reaches}
use pythonbtccollector.Ghost.Slots.Selection.{Holds, slot_selection}
use pythonbtccollector.Ghost.Slots.Categories.{AllBefore, slot_category}
use pythonbtccollector.Ghost.Forecast.{anchored_forecast, is_empty, sum_values}
use pythonbtccollector.Ghost.Forecast.Price.{
  selected, Within, forecast_price_iff, forecast_price_between, forecast_price_nearest,
}
use pythonbtccollector.Ghost.Snapshot.{snapshot, decide}
use pythonbtccollector.Ghost.Snapshot.Inversion.{snapshot-succeeds}
use pythonbtccollector.Ghost.Snapshot.Deadline.{deadline_keeps_current}
use pythonbtccollector.Ghost.Trace.{Call, accepting, step, run}
use pythonbtccollector.Ghost.Trace.Faults.{fault_latches}
use pythonbtccollector.Ghost.Trace.Causality.{IsCausal, snapshot-IsCausal, no_type_error}
use pythonbtccollector.Ghost.Trace.Capacity.{history_bounded}
use pythonbtccollector.Ghost.Trace.Scenario.{
  policy, report, reports, ready, cutoff_ns, reported_twap,
}

-- A report of an old sequence puts the engine in fault.
abbrev faulty : List Call
faulty = accepting (report spot 1001 1 5) ∷ []

abbrev faulted : Engine
faulted = run faulty ready

abbrev faulted_decision : Decision
faulted_decision = decide "d" cutoff_ns cutoff_ns (snapshot "d" cutoff_ns cutoff_ns faulted).1

faulted_decided : (snapshot "d" cutoff_ns cutoff_ns faulted).0 ≡ ok faulted_decision
unfolding run new_engine is_text
faulted_decided = snapshot-succeeds "d" cutoff_ns cutoff_ns faulted refl refl refl

faulted_has_fault : is_some faulted.fault ≡ true
unfolding run new_engine
faulted_has_fault = refl

fault_latches_example :
    (is_some (run [] faulted).fault ≡ true)
    × All (λ f. (f.price ≡ none) × (f.quality ≡ unavailable)) faulted_decision.forecasts
unfolding run
fault_latches_example =
    fault_latches [] faulted "d" cutoff_ns cutoff_ns {d = faulted_decision} faulted_has_fault
      faulted_decided

abbrev decision : Decision
decision = decide "d" cutoff_ns cutoff_ns (snapshot "d" cutoff_ns cutoff_ns ready).1

decided : (snapshot "d" cutoff_ns cutoff_ns ready).0 ≡ ok decision
unfolding run new_engine is_text
decided = snapshot-succeeds "d" cutoff_ns cutoff_ns ready refl refl refl

snapshot-IsCausal_example : IsCausal decision
snapshot-IsCausal_example =
    snapshot-IsCausal "run" policy reports "d" cutoff_ns cutoff_ns {d = decision} decided

no_type_error_example :
    ((accept reported_twap ready).0 ≢ err type_error)
    × ((snapshot "d" cutoff_ns cutoff_ns ready).0 ≢ err type_error)
no_type_error_example = no_type_error "run" policy reports reported_twap "d" cutoff_ns cutoff_ns

history_bounded_example : length ready.history ≤ 12
history_bounded_example = history_bounded "run" policy reports (omega arith)

abbrev slots : List Slot
slots = slots_for ready cutoff_ns cutoff_ns reported_twap

abbrev forecast : Forecast
forecast = anchored_forecast ready.history [] slots cutoff_ns reported_twap 2

forecast_priced : forecast.price ≡ some 104
unfolding run decide new_engine
forecast_priced = refl

forecast_price_iff_example : is_some forecast.price ≡ is_empty forecast.reasons
forecast_price_iff_example =
    forecast_price_iff ready [] cutoff_ns cutoff_ns reported_twap 2 (omega arith)

slots-Within : All (Within 100 107) (selected slots 2)
unfolding run decide new_engine
slots-Within = omega arith

forecast_price_between_example : (100 ≤ 104) × (104 ≤ 107)
forecast_price_between_example =
    forecast_price_between ready [] cutoff_ns cutoff_ns reported_twap 2 100 107 {p = 104}
      (omega arith) forecast_priced slots-Within

forecast_price_nearest_example :
    (total : ℕ) × (sum_values (selected slots 2) ≡ some total)
    × ((60 * 104 ≤ total + 30)
        × (total ≤ 60 * 104 + 30)
        × ((60 * 104 ≡ total + 30) ⊎ (total ≡ 60 * 104 + 30) → 104 % 2 ≡ 0))
forecast_price_nearest_example =
    forecast_price_nearest ready [] slots cutoff_ns reported_twap 2 {p = 104} forecast_priced

-- The slot of 996 s, which carries the report of 990 s.
abbrev carrying : Slot
carrying =
    slot_at ready.policy ready.current_spot cutoff_ns cutoff_ns (admissible_spots ready.history)
      (pos 996_000)

slot_selection_example :
    ((e : PriceEvent)
      → carrying.input ≡ some e
      → (carrying.value ≡ some e.value)
        × Holds ready.history e
        × Reaches (pos 996_000) e
        × (996_000 ≤ e.source_timestamp_ms + ready.policy.max_carry_ms)
        × All
            (λ y.
              is_admissible_spot y ≡ true
              → Reaches (pos 996_000) y.1
              → y.1.source_timestamp_ms ≤ e.source_timestamp_ms)
            ready.history)
    × (carrying.input ≡ none
        → All
            (λ y.
              is_admissible_spot y ≡ true
              → Reaches (pos 996_000) y.1
              → y.1.source_timestamp_ms + ready.policy.max_carry_ms < 996_000)
            ready.history)
slot_selection_example =
    slot_selection ready.policy ready.current_spot cutoff_ns cutoff_ns ready.history (pos 996_000)
      refl

carrying_input : carrying.input ≡ some (report spot 990 106 7)
unfolding run decide new_engine
carrying_input = refl

slot_category_example :
    ((carrying.category ≡ observed) ↔ ((report spot 990 106 7).source_timestamp_ms ≡ 996_000))
    × ((carrying.category ≡ pending)
        ↔ ((report spot 990 106 7).source_timestamp_ms ≢ 996_000)
          × AllBefore (pos 996_000) ready.history)
    × ((carrying.category ≡ carried)
        ↔ ((report spot 990 106 7).source_timestamp_ms ≢ 996_000)
          × (¬ AllBefore (pos 996_000) ready.history))
slot_category_example =
    slot_category ready.policy ready.current_spot cutoff_ns cutoff_ns ready.history (pos 996_000)
      (report spot 990 106 7) refl carrying_input

deadline_keeps_current_example :
    let d = decide "d" cutoff_ns cutoff_ns ready in
    (d.reasons ≡ []
      → pos (cutoff_ns + 1_000_000_000) ≤ℤ d.valid_until_wall_ns
      → (current_reasons ready.policy ready.current_spot spot
            (cutoff_ns + 1_000_000_000)
            (cutoff_ns + 1_000_000_000)
          ≡ none)
        × (current_reasons ready.policy ready.current_twap twap
              (cutoff_ns + 1_000_000_000)
              (cutoff_ns + 1_000_000_000)
            ≡ none))
    × (d.reasons ≢ [] → d.valid_until_wall_ns ≤ℤ pos cutoff_ns)
deadline_keeps_current_example = deadline_keeps_current "d" cutoff_ns cutoff_ns 1_000_000_000 ready

deadline_is_receipt :
    (decide "d" cutoff_ns cutoff_ns ready).valid_until_wall_ns ≡ pos 1_003_100_000_000
unfolding run decide new_engine
deadline_is_receipt = refl

spot_gap_isolates_example :
    let t = (record_gap spot connection_end none none ready).1 in
    (lookup (twap, 1_000_000) t.history ≡ lookup (twap, 1_000_000) ready.history)
    × (t.current_twap ≡ ready.current_twap)
    × (t.conflicts ≡ ready.conflicts)
    × (t.twap_high_water ≡ ready.twap_high_water)
    × (t.twap_regressed ≡ ready.twap_regressed)
spot_gap_isolates_example = spot_gap_isolates connection_end none none ready 1_000_000

twap_gap_isolates_example :
    let t = (record_gap twap connection_end none none ready).1 in
    (lookup (twap, 1_000_000) t.history ≡ none)
    × (t.current_twap ≡ none)
    × (t.conflicts ≡ [])
    × (lookup (spot, 1_000_000) t.history ≡ lookup (spot, 1_000_000) ready.history)
    × (t.current_spot ≡ ready.current_spot)
    × (t.spot_reconnect ≡ ready.spot_reconnect)
unfolding record_gap apply_gap
twap_gap_isolates_example = twap_gap_isolates connection_end none none ready 1_000_000 refl

-- A connection end at 1001 s, met by the report of 1002 s.
abbrev gap_ns : ℕ
gap_ns = 1_001_000_000_000

abbrev gapped : Engine
gapped = (record_gap spot connection_end (some gap_ns) (some gap_ns) ready).1

abbrev gap_reconnect : SpotReconnect
gap_reconnect = record {
  gap_ordinal = 1;
  gap_wall_ns = some gap_ns;
  gap_monotonic_ns = some gap_ns;
  previous_spot = some (report spot 1000 107 8);
  first_post_gap_spot = none;
  status = waiting;
  reason = awaiting_fresh_advancing_spot;
}

gapped_waits : gapped.spot_reconnect ≡ some gap_reconnect
unfolding run step new_engine
gapped_waits = refl

reconnect_settles_example :
    let t = (resolve_spot_reconnect (report spot 1002 108 10) gapped).1 in
    (Bridges gapped (report spot 1000 107 8) (report spot 1002 108 10)
      → (status_of t.spot_reconnect ≡ some retained) × (t.history ≡ gapped.history))
    × (¬ Bridges gapped (report spot 1000 107 8) (report spot 1002 108 10)
        → (status_of t.spot_reconnect ≡ some cleared)
          × (t.history ≡ drop_feed spot gapped.history)
          × (t.current_spot ≡ none))
reconnect_settles_example =
    reconnect_settles gap_reconnect (report spot 1000 107 8) (report spot 1002 108 10) gap_ns gap_ns
      gapped gapped_waits refl refl refl refl refl (omega arith) (omega arith)

reconnect_retains :
    status_of (accept (report spot 1002 108 10) gapped).1.spot_reconnect ≡ some retained
unfolding run step new_engine
reconnect_retains = refl

-- 0.25, a quarter of 1E18 quanta.
price_exact_example :
    (price (finite (pos 25) 2) ≡ ok 250_000_000_000_000_000)
    ↔ (250_000_000_000_000_000 * 10 ^ 2 ≡ 25 * 10 ^ 18)
      × (0 < 250_000_000_000_000_000)
      × (250_000_000_000_000_000 < price_limit_e18)
price_exact_example = price_exact 25 2 250_000_000_000_000_000

abbrev raw : RawEvent
raw = record {
  feed = "twap";
  value = finite (pos 25) 2;
  source_timestamp_ms = pos 5_000;
  received_wall_ns = pos 5_100_000_000;
  received_monotonic_ns = pos 77;
  sequence = pos 1;
  event_id = "e";
  window_s = some 60;
}

abbrev checked : PriceEvent
checked = record {
  feed = twap;
  value = 250_000_000_000_000_000;
  source_timestamp_ms = 5_000;
  received_wall_ns = 5_100_000_000;
  received_monotonic_ns = 77;
  sequence = 1;
  event_id = "e";
  window_s = some 60;
}

raw-checked : price_event raw ≡ ok checked
unfolding price_event is_text
raw-checked = refl

price_event_valid_example :
    (checked.source_timestamp_ms % 1000 ≡ 0)
    × ((0 < checked.value) × (checked.value < price_limit_e18))
    × ((checked.feed ≡ twap) × (checked.window_s ≡ some 60)
        ⊎ (checked.feed ≡ spot) × (checked.window_s ≡ none))
price_event_valid_example = price_event_valid raw {e = checked} raw-checked

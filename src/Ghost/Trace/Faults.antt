-- ===== src/Ghost/Trace/Faults.antt =====
-- A fault of the engine in price_collector/ghost_twap.py latches: only a new engine recovers.
use mathlib.Core.Bool.{true≢false}
use pythonbtccollector.Common.{
  ℕ, String, ◌≡◌, refl, true, false, Option, none, some, List, [], ◌∷◌, arith, All,
}
use pythonbtccollector.Common.Result.{ok}
use pythonbtccollector.Ghost.Types.{
  Feed, spot, twap, PriceEvent, GapReason, connection_end, Forecast, Decision, unavailable, Reason,
  Slot,
}
use pythonbtccollector.Ghost.Engine.{Engine, History, is_some, prune}
use pythonbtccollector.Ghost.Gap.{
  record_gap, apply_gap, end_connection, lose_feed, clear_spot_reconnect, resolve_spot_reconnect,
}
use pythonbtccollector.Ghost.Accept.{
  accept, store_event, sequence_gaps, capacity_gaps, note_twap, remember, enforce_capacity,
}
use pythonbtccollector.Ghost.Snapshot.{
  snapshot, decide, expire_reconnect, forecasts_around, slots_around,
}
use pythonbtccollector.Ghost.Forecast.{
  decision_reasons, anchored_forecast, unanchored_forecast, is_empty,
}
use pythonbtccollector.Ghost.Snapshot.Inversion.{snapshot_ok}
use pythonbtccollector.Ghost.Trace.{Call, accepting, losing, deciding, run}

abbrev pub Faulted : Engine → Type 0
Faulted s = is_some s.fault ≡ true

record_gap-Faulted :
    (feed : Feed) (reason : GapReason) (wall mono : Option ℕ) (s : Engine)
    → Faulted s
    → Faulted (record_gap feed reason wall mono s).1
unfolding record_gap apply_gap end_connection lose_feed
record_gap-Faulted spot connection_end wall mono s h = ground arith
record_gap-Faulted spot reason wall mono s h = ground arith
record_gap-Faulted twap reason wall mono s h = ground arith

sequence_gaps-Faulted : (s : Engine) → Faulted s → Faulted (sequence_gaps s)
unfolding sequence_gaps record_gap apply_gap end_connection lose_feed
sequence_gaps-Faulted s h = ground arith

store_event-Faulted : (event : PriceEvent) (s : Engine) → Faulted s → Faulted (store_event event s)
unfolding store_event note_twap remember prune enforce_capacity capacity_gaps record_gap apply_gap
    end_connection lose_feed
store_event-Faulted event s h = ground arith

resolve-Faulted :
    (event : PriceEvent) (s : Engine) → Faulted s → Faulted (resolve_spot_reconnect event s).1
unfolding resolve_spot_reconnect clear_spot_reconnect lose_feed
resolve-Faulted event s h = ground arith

accept-Faulted : (event : PriceEvent) (s : Engine) → Faulted s → Faulted (accept event s).1
unfolding accept
accept-Faulted event s h =
    grind (arith, sequence_gaps-Faulted, resolve-Faulted, store_event-Faulted)

snapshot-Faulted :
    (id : String) (wall mono : ℕ) (s : Engine) → Faulted s → Faulted (snapshot id wall mono s).1
unfolding snapshot expire_reconnect clear_spot_reconnect lose_feed prune
snapshot-Faulted id wall mono s h = ground arith

run-Faulted : (calls : List Call) (s : Engine) → Faulted s → Faulted (run calls s)
unfolding run
run-Faulted [] s h = h
run-Faulted (accepting event ∷ calls) s h = run-Faulted calls _ (accept-Faulted event s h)
run-Faulted (losing feed reason wall mono ∷ calls) s h =
    run-Faulted calls _ (record_gap-Faulted feed reason wall mono s h)
run-Faulted (deciding id wall mono ∷ calls) s h =
    run-Faulted calls _ (snapshot-Faulted id wall mono s h)

abbrev pub Unpriced : Forecast → Type 0
Unpriced f = (f.price ≡ none) × (f.quality ≡ unavailable)

anchored-Unpriced :
    (h : History) (r : Reason) (reasons : List Reason) (slots : List Slot) (wall : ℕ)
    (e : PriceEvent) (n : ℕ)
    → Unpriced (anchored_forecast h (r ∷ reasons) slots wall e n)
unfolding anchored_forecast
anchored-Unpriced h r reasons slots wall e n = (refl, refl)

forecasts-Unpriced :
    (s : Engine) (wall : ℕ) (reasons : List Reason) (slots : List Slot) (anchor : Option PriceEvent)
    → is_empty reasons ≡ false
    → All Unpriced (forecasts_around s wall reasons slots anchor)
unfolding unanchored_forecast
forecasts-Unpriced s wall [] slots anchor h = absurd (true≢false h)
forecasts-Unpriced s wall (r ∷ reasons) slots none h = ground arith
forecasts-Unpriced s wall (r ∷ reasons) slots (some a) h =
    let u = λ (n : ℕ). anchored-Unpriced s.history r reasons slots wall a n in
    (u 1, (u 2, (u 3, (u 5, (u 10, (u 30, tt))))))

decision_reasons-Faulted :
    (s : Engine) (wall mono : ℕ) → Faulted s → is_empty (decision_reasons s wall mono) ≡ false
unfolding decision_reasons
decision_reasons-Faulted s wall mono h = ground arith

decide-Unpriced :
    (id : String) (wall mono : ℕ) (s : Engine)
    → Faulted s
    → All Unpriced (decide id wall mono s).forecasts
unfolding decide
decide-Unpriced id wall mono s h =
    forecasts-Unpriced s wall _ (slots_around s wall mono s.current_twap) s.current_twap
      (decision_reasons-Faulted s wall mono h)

-- A decision of a faulted engine has no price.
snapshot-Unpriced :
    (id : String) (wall mono : ℕ) (s : Engine) {d : Decision}
    → Faulted s
    → (snapshot id wall mono s).0 ≡ ok d
    → All Unpriced d.forecasts
snapshot-Unpriced id wall mono s h p =
    rw (snapshot_ok id wall mono s p).1 at
      (decide-Unpriced id wall mono (snapshot id wall mono s).1 (snapshot-Faulted id wall mono s h))

-- Once an engine has a fault, it keeps one through every sequence of calls, and each forecast of
-- each later decision is unavailable and has no price.
pub fault_latches :
    (calls : List Call) (s : Engine) (id : String) (wall mono : ℕ) {d : Decision}
    → is_some s.fault ≡ true
    → (snapshot id wall mono (run calls s)).0 ≡ ok d
    → (is_some (run calls s).fault ≡ true)
      × All (λ f. (f.price ≡ none) × (f.quality ≡ unavailable)) d.forecasts
fault_latches calls s id wall mono h p =
    (run-Faulted calls s h, snapshot-Unpriced id wall mono (run calls s) (run-Faulted calls s h) p)

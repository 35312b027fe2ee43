-- ===== src/Ghost/Trace/Causality.antt =====
-- A decision of the engine of price_collector/ghost_twap.py rests only on events received up to its
-- clocks, and no call compares a missing clock.
use pythonbtccollector.Common.{
  ℕ, ◌+◌, ◌*◌, ◌≤◌, ◌≡◌, ◌≢◌, ap, ◌/◌, String, false, Option, none, some, List, arith, All, All-map,
  All-imp, Bool-cases, Option-cases, inl, inr, range_from, ◌∙◌, subst,
}
use pythonbtccollector.Common.Int.{ℤ, sub_ℕ}
use pythonbtccollector.Common.Result.{ok, err}
use pythonbtccollector.Ghost.Types.{
  GhostPolicy, PriceEvent, Reason, Decision, ns_per_ms, type_error,
}
use pythonbtccollector.Ghost.Engine.{Engine, new_engine, predates}
use pythonbtccollector.Ghost.Gap.{resolve_spot_reconnect, clear_spot_reconnect, lose_feed}
use pythonbtccollector.Ghost.Accept.{accept, sequence_gaps}
use pythonbtccollector.Ghost.Slots.{
  slot_at, second_slot, slots_for, admissible_spots, select_spot, past_slot, future_slot, is_after,
}
use pythonbtccollector.Ghost.Slots.Sorted.{select_spot-All, All-admissible_spots}
use pythonbtccollector.Ghost.Snapshot.{snapshot, decide, slots_around, expire_reconnect}
use pythonbtccollector.Ghost.Snapshot.Inversion.{cut, snapshot_ok}
use pythonbtccollector.Ghost.Trace.{Call, run}
use pythonbtccollector.Ghost.Trace.Valid.{
  OptionAll, Received, Entry, IsReady, IsValid, sequence_gaps-IsValid,
}
use pythonbtccollector.Ghost.Trace.Valid.Accepting.{last_event-prune}
use pythonbtccollector.Ghost.Trace.Valid.Runs.{new_engine-IsValid, run-IsValid, snapshot-IsValid}

-- The event was received at or before a pair of clocks.
abbrev pub Upto : ℕ → ℕ → PriceEvent → Type 0
Upto wall mono e = (e.received_wall_ns ≤ wall) × (e.received_monotonic_ns ≤ mono)

module _ (P : PriceEvent → Type 0) (s : Engine) (wall mono : ℕ) (held : All (λ x. P x.1) s.history)
    (spot_held : OptionAll P s.current_spot) where
  past_slot-All :
      (carry : ℕ) (stamp : ℤ) (spots : List PriceEvent) (o : Option PriceEvent)
      → OptionAll P o
      → OptionAll P (past_slot carry stamp spots o).input
  past_slot-All carry stamp spots none h = tt
  past_slot-All carry stamp spots (some e) h = ground arith

  selected-All : (stamp : ℤ) → OptionAll P (select_spot stamp (admissible_spots s.history))
  selected-All stamp = elim (Option-cases (select_spot stamp (admissible_spots s.history))) [
    | inl q ↦ rw q tt
    | inr (e, q) ↦ rw q (
        select_spot-All P stamp (admissible_spots s.history) e
          (All-admissible_spots P s.history (All-imp (λ x. P x.1) _ (λ x h a. h) s.history held)) q)
  ]

  future_slot-All :
      (stamp : ℤ) (o : Option PriceEvent) (r : Option Reason)
      → OptionAll P o
      → OptionAll P (future_slot stamp o r).input
  future_slot-All stamp none r h = tt
  future_slot-All stamp (some e) none h = h
  future_slot-All stamp (some e) (some r) h = tt

  slot_at-All :
      (stamp : ℤ)
      → OptionAll P
          (slot_at s.policy s.current_spot wall mono (admissible_spots s.history) stamp).input
  unfolding slot_at
  slot_at-All stamp = elim (Bool-cases (is_after stamp wall)) [
    | inl t ↦ rw t (future_slot-All stamp s.current_spot _ spot_held)
    | inr t ↦ rw t (
        past_slot-All s.policy.max_carry_ms stamp (admissible_spots s.history)
          (select_spot stamp (admissible_spots s.history)) (selected-All stamp))
  ]

  second_slot-All :
      (anchor : PriceEvent) (index : ℕ)
      → OptionAll P (second_slot s wall mono anchor (admissible_spots s.history) index).input
  unfolding second_slot
  second_slot-All anchor index =
      slot_at-All (sub_ℕ (anchor.source_timestamp_ms + index * 1000) 61_000)

  slots_for-All :
      (anchor : PriceEvent) → All (λ x. OptionAll P x.input) (slots_for s wall mono anchor)
  unfolding slots_for
  slots_for-All anchor =
      All-map (λ x. OptionAll P x.input)
        (second_slot s wall mono anchor (admissible_spots s.history)) (second_slot-All anchor)
        (range_from 0 89)

last_event-expire_reconnect :
    (wall mono : ℕ) (s : Engine) → (expire_reconnect wall mono s).1.last_event ≡ s.last_event
unfolding expire_reconnect clear_spot_reconnect lose_feed
last_event-expire_reconnect wall mono s = ground arith

Received-Upto :
    (wall mono : ℕ) (s : Engine) (e : PriceEvent)
    → predates wall mono s ≡ false
    → Received s.last_event e
    → Upto wall mono e
Received-Upto wall mono s e h r = ground arith

-- What a decision shows of the events that it used.
abbrev pub IsCausal : Decision → Type 0
IsCausal d =
    OptionAll (Upto d.decision_wall_ns d.decision_monotonic_ns) d.current_spot
    × OptionAll (Upto d.decision_wall_ns d.decision_monotonic_ns) d.current_twap
    × All (λ x. OptionAll (Upto d.decision_wall_ns d.decision_monotonic_ns) x.input) d.slots

OptionAll-imp :
    (P Q : PriceEvent → Type 0) (o : Option PriceEvent)
    → ((e : PriceEvent) → P e → Q e)
    → OptionAll P o
    → OptionAll Q o
OptionAll-imp P Q none f h = tt
OptionAll-imp P Q (some e) f h = f e h

slots_around-All :
    (P : PriceEvent → Type 0) (s : Engine) (wall mono : ℕ) (anchor : Option PriceEvent)
    → All (λ x. P x.1) s.history
    → OptionAll P s.current_spot
    → All (λ x. OptionAll P x.input) (slots_around s wall mono anchor)
slots_around-All P s wall mono none held spot_held = tt
slots_around-All P s wall mono (some anchor) held spot_held =
    slots_for-All P s wall mono held spot_held anchor

decide-IsCausal :
    (id : String) (wall mono : ℕ) (s : Engine)
    → IsValid s
    → ((e : PriceEvent) → Received s.last_event e → Upto wall mono e)
    → IsCausal (decide id wall mono s)
unfolding decide
decide-IsCausal id wall mono s v seen = (
  OptionAll-imp (Received s.last_event) (Upto wall mono) s.current_spot seen v.spot_received,
  OptionAll-imp (Received s.last_event) (Upto wall mono) s.current_twap seen v.twap_received,
  slots_around-All (Upto wall mono) s wall mono s.current_twap
      (All-imp (Entry s.last_event) _ (λ x q. seen x.1 q.1) s.history v.entries)
      (OptionAll-imp (Received s.last_event) (Upto wall mono) s.current_spot seen v.spot_received),
)

-- After any calls of a new engine, each event that a decision shows, as current report or as the
-- input of a slot, was received at or before the decision's clocks.
pub snapshot-IsCausal :
    (run_id : String) (policy : GhostPolicy) (calls : List Call) (id : String) (wall mono : ℕ)
    {d : Decision}
    → (snapshot id wall mono (run calls (new_engine run_id policy))).0 ≡ ok d
    → IsCausal d
snapshot-IsCausal run_id policy calls id wall mono p =
    let s = run calls (new_engine run_id policy) in
    let v = run-IsValid calls (new_engine run_id policy) (new_engine-IsValid run_id policy) in
    let (after, decided, _, late) = snapshot_ok id wall mono s p in
    let same =
      ap (λ (t : Engine). t.last_event) after
      ∙ last_event-prune (wall / ns_per_ms) (cut wall mono s).1
      ∙ last_event-expire_reconnect wall mono (record s { last_decision = some (wall, mono) }) in
    subst IsCausal decided (
      decide-IsCausal id wall mono (snapshot id wall mono s).1 (snapshot-IsValid id wall mono s v)
        (λ e r. Received-Upto wall mono s e late (subst (λ last. Received last e) same r)))

resolve-ne-type_error :
    (event : PriceEvent) (s : Engine)
    → OptionAll IsReady s.spot_reconnect
    → (resolve_spot_reconnect event s).0 ≢ err type_error
unfolding resolve_spot_reconnect
resolve-ne-type_error event s h = ground arith

expire-ne-type_error :
    (wall mono : ℕ) (s : Engine)
    → OptionAll IsReady s.spot_reconnect
    → (expire_reconnect wall mono s).0 ≢ err type_error
unfolding expire_reconnect
expire-ne-type_error wall mono s h = ground arith

accept-ne-type_error :
    (event : PriceEvent) (s : Engine) → IsValid s → (accept event s).0 ≢ err type_error
unfolding accept
accept-ne-type_error event s v = ground (
  arith,
  resolve-ne-type_error event s v.reconnect_ready,
  resolve-ne-type_error event (sequence_gaps s) (sequence_gaps-IsValid s v).reconnect_ready,
)

snapshot-ne-type_error :
    (id : String) (wall mono : ℕ) (s : Engine)
    → IsValid s
    → (snapshot id wall mono s).0 ≢ err type_error
unfolding snapshot
snapshot-ne-type_error id wall mono s v = ground (
  arith,
  expire-ne-type_error wall mono (record s { last_decision = some (wall, mono) }) v.reconnect_ready,
)

-- After any calls of a new engine, no call meets a missing clock or report of a waiting reconnect.
pub no_type_error :
    (run_id : String) (policy : GhostPolicy) (calls : List Call) (event : PriceEvent) (id : String)
    (wall mono : ℕ)
    → let s = run calls (new_engine run_id policy) in
      ((accept event s).0 ≢ err type_error) × ((snapshot id wall mono s).0 ≢ err type_error)
no_type_error run_id policy calls event id wall mono =
    let v = run-IsValid calls (new_engine run_id policy) (new_engine-IsValid run_id policy) in
    (accept-ne-type_error event _ v, snapshot-ne-type_error id wall mono _ v)

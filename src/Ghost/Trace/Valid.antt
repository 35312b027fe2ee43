-- ===== src/Ghost/Trace/Valid.antt =====
-- What holds of the engine of price_collector/ghost_twap.py between its calls.
pub mod Accepting
pub mod Runs
use pythonbtccollector.Common.{
  ℕ, ◌/◌, ◌≤◌, ◌≡◌, refl, String, Bool, true, false, Option, none, some, List, [], ◌∷◌, arith, All,
  length, not, All-filter, All-imp, Bool-cases, inl, inr, ltb, subst, sym, ◌∙◌,
}
use pythonbtccollector.Common.Dict.{insert}
use pythonbtccollector.Common.Result.{ok, err}
use pythonbtccollector.Ghost.Types.{
  Feed, spot, twap, PriceEvent, GhostPolicy, ns_per_ms, received_ms, GapReason, connection_end,
  SpotReconnect, ReconnectReason, waiting,
}
use pythonbtccollector.Ghost.Checks.{is_text}
use pythonbtccollector.Ghost.Engine.{
  predates, Engine, new_engine, Key, key_Eq, key_eq_iff, History, key_of, is_some, is_feed,
  drop_feed, pruned, prune,
}
use pythonbtccollector.Ghost.Gap.{
  Outcome, record_gap, apply_gap, end_connection, assess_gap, lose_feed, clear_spot_reconnect,
  resolve_spot_reconnect,
}
use pythonbtccollector.Ghost.Accept.{
  accept, store_event, sequence_gaps, capacity_gaps, note_twap, remember, enforce_capacity,
  regresses, finish_accept,
}
use pythonbtccollector.Ghost.Snapshot.{snapshot, finish_snapshot, expire_reconnect}
use pythonbtccollector.Ghost.Trace.{Call, accepting, losing, deciding, step, run}

abbrev pub OptionAll {ℓ} : {A : Type ℓ} → (A → Type 0) → Option A → Type 0
OptionAll P none = Unit
OptionAll P (some a) = P a

-- The event was received no later than the last accepted one.
abbrev pub Received : Option PriceEvent → PriceEvent → Type 0
Received none e = ⊥
Received (some last) e =
    (e.received_wall_ns ≤ last.received_wall_ns)
    × (e.received_monotonic_ns ≤ last.received_monotonic_ns)

abbrev pub Entry : Option PriceEvent → Key × PriceEvent → Type 0
Entry last x = (x.0 ≡ key_of x.1) × Received last x.1

-- A waiting reconnect has its clocks and the spot event before the gap.
abbrev pub IsReady : SpotReconnect → Type 0
IsReady r = elim r.status [
  | waiting ↦
      (is_some r.gap_wall_ns ≡ true)
      × (is_some r.gap_monotonic_ns ≡ true)
      × (is_some r.previous_spot ≡ true)
  | _ ↦ Unit
]

pub record IsValid (s : Engine) : Type 0 where
  pub entries : All (Entry s.last_event) s.history
  pub spot_received : OptionAll (Received s.last_event) s.current_spot
  pub twap_received : OptionAll (Received s.last_event) s.current_twap
  pub reconnect_ready : OptionAll IsReady s.spot_reconnect

pub lose_feed-IsValid : (feed : Feed) (s : Engine) → IsValid s → IsValid (lose_feed feed s)
unfolding lose_feed drop_feed
lose_feed-IsValid spot s v =
    ground (arith, All-filter (Entry s.last_event) (λ x. not (is_feed spot x)) s.history v.entries)
lose_feed-IsValid twap s v =
    ground (arith, All-filter (Entry s.last_event) (λ x. not (is_feed twap x)) s.history v.entries)

pruned-All :
    (P : Key × PriceEvent → Type 0) (cutoff carry : ℕ) (h : History)
    → All P h
    → All P (pruned cutoff carry h)
unfolding pruned
pruned-All P cutoff carry h a = All-filter P _ h a

pub prune-IsValid : (wall_ms : ℕ) (s : Engine) → IsValid s → IsValid (prune wall_ms s)
unfolding prune
prune-IsValid wall_ms s v = record {
  entries = pruned-All (Entry s.last_event) _ s.policy.max_carry_ms s.history v.entries;
  spot_received = v.spot_received;
  twap_received = v.twap_received;
  reconnect_ready = v.reconnect_ready;
}

pub assess_gap-ready :
    (wall mono : Option ℕ) (s : Engine) {x : ReconnectReason × Bool}
    → assess_gap wall mono s ≡ ok x
    → x.1 ≡ true
    → (is_some wall ≡ true) × (is_some mono ≡ true) × (is_some s.current_spot ≡ true)
assess_gap-ready wall mono s h e = ground arith

pub end_connection-IsValid :
    (wall mono : Option ℕ) (s : Engine) → IsValid s → IsValid (end_connection wall mono s).1
unfolding end_connection
end_connection-IsValid wall mono s v = grind (arith, lose_feed-IsValid, assess_gap-ready)

pub record_gap-IsValid :
    (feed : Feed) (reason : GapReason) (wall mono : Option ℕ) (s : Engine)
    → IsValid s
    → IsValid (record_gap feed reason wall mono s).1
unfolding record_gap apply_gap
record_gap-IsValid spot connection_end wall mono s v = grind (arith, end_connection-IsValid)
record_gap-IsValid spot reason wall mono s v = grind (arith, lose_feed-IsValid)
record_gap-IsValid twap reason wall mono s v = grind (arith, lose_feed-IsValid)

pub clear_spot_reconnect-IsValid :
    (r : SpotReconnect) (reason : ReconnectReason) (event : Option PriceEvent) (s : Engine)
    → IsValid s
    → IsValid (clear_spot_reconnect r reason event s)
unfolding clear_spot_reconnect
clear_spot_reconnect-IsValid r reason event s v = ground (arith, lose_feed-IsValid spot s v)

pub resolve_spot_reconnect-IsValid :
    (event : PriceEvent) (s : Engine) → IsValid s → IsValid (resolve_spot_reconnect event s).1
unfolding resolve_spot_reconnect
resolve_spot_reconnect-IsValid event s v = grind (arith, clear_spot_reconnect-IsValid)

pub sequence_gaps-IsValid : (s : Engine) → IsValid s → IsValid (sequence_gaps s)
unfolding sequence_gaps
sequence_gaps-IsValid s v = grind (arith, record_gap-IsValid)

pub capacity_gaps-IsValid : (s : Engine) → IsValid s → IsValid (capacity_gaps s)
unfolding capacity_gaps
capacity_gaps-IsValid s v = grind (arith, record_gap-IsValid)

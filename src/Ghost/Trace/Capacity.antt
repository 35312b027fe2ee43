-- ===== src/Ghost/Trace/Capacity.antt =====
-- The bound on the history of the engine of price_collector/ghost_twap.py, `max_events`.
use pythonbtccollector.Common.{
  ℕ, ◌-◌, ◌/◌, ◌≤◌, ◌≡◌, refl, ap, String, Option, none, some, List, [], ◌∷◌, arith, length, not,
  length-filter,
}
use pythonbtccollector.Common.Result.{ok, err}
use pythonbtccollector.Ghost.Types.{
  Feed, spot, twap, PriceEvent, ns_per_ms, GhostPolicy, GapReason, connection_end, sequence_gap,
}
use pythonbtccollector.Ghost.Engine.{Engine, History, new_engine, is_feed, drop_feed, pruned, prune}
use pythonbtccollector.Ghost.Gap.{
  Outcome, record_gap, apply_gap, end_connection, lose_feed, clear_spot_reconnect,
  resolve_spot_reconnect,
}
use pythonbtccollector.Ghost.Accept.{
  accept, store_event, sequence_gaps, capacity_gaps, note_twap, remember, enforce_capacity,
  finish_accept,
}
use pythonbtccollector.Ghost.Snapshot.{snapshot, expire_reconnect}
use pythonbtccollector.Ghost.Trace.{Call, accepting, losing, deciding, step, run}

abbrev pub IsBounded : ℕ → Engine → Type 0
IsBounded n s = (length s.history ≤ n) × (s.policy.max_events ≡ n) × (1 ≤ n)

-- Both feeds lost: nothing is left.
drop_both : (h : History) → drop_feed twap (drop_feed spot h) ≡ []
unfolding drop_feed
drop_both [] = refl
drop_both (((spot, n), e) ∷ h) = drop_both h
drop_both (((twap, n), e) ∷ h) = drop_both h

length-drop_feed : (feed : Feed) (h : History) → length (drop_feed feed h) ≤ length h
unfolding drop_feed
length-drop_feed feed h = length-filter (λ x. not (is_feed feed x)) h

length-pruned : (cutoff carry : ℕ) (h : History) → length (pruned cutoff carry h) ≤ length h
unfolding pruned
length-pruned cutoff carry h = length-filter _ h

record_gap-IsBounded :
    (n : ℕ) (feed : Feed) (reason : GapReason) (wall mono : Option ℕ) (s : Engine)
    → IsBounded n s
    → IsBounded n (record_gap feed reason wall mono s).1
unfolding record_gap apply_gap end_connection lose_feed
record_gap-IsBounded n spot connection_end wall mono s b =
    ground (arith, length-drop_feed spot s.history)
record_gap-IsBounded n spot reason wall mono s b = ground (arith, length-drop_feed spot s.history)
record_gap-IsBounded n twap reason wall mono s b = ground (arith, length-drop_feed twap s.history)

resolve-IsBounded :
    (n : ℕ) (event : PriceEvent) (s : Engine)
    → IsBounded n s
    → IsBounded n (resolve_spot_reconnect event s).1
unfolding resolve_spot_reconnect clear_spot_reconnect lose_feed
resolve-IsBounded n event s b = ground (arith, length-drop_feed spot s.history)

sequence_gaps-IsBounded : (n : ℕ) (s : Engine) → IsBounded n s → IsBounded n (sequence_gaps s)
unfolding sequence_gaps
sequence_gaps-IsBounded n s b =
    record_gap-IsBounded n twap sequence_gap none none _
      (record_gap-IsBounded n spot sequence_gap none none s b)

history-capacity_gaps : (s : Engine) → (capacity_gaps s).history ≡ []
unfolding capacity_gaps record_gap apply_gap lose_feed
history-capacity_gaps s = ground (arith, drop_both s.history)

policy-capacity_gaps : (s : Engine) → (capacity_gaps s).policy ≡ s.policy
unfolding capacity_gaps record_gap apply_gap lose_feed
policy-capacity_gaps s = ground arith

-- The bound is restored, whatever the history was.
enforce_capacity-IsBounded :
    (n : ℕ) (event : PriceEvent) (s : Engine)
    → s.policy.max_events ≡ n
    → 1 ≤ n
    → IsBounded n (enforce_capacity event s)
unfolding enforce_capacity remember
enforce_capacity-IsBounded n event s e b =
    ground (arith, history-capacity_gaps s, policy-capacity_gaps s)

policy-store :
    (event : PriceEvent) (s : Engine) → (remember event (note_twap event s)).policy ≡ s.policy
unfolding remember note_twap
policy-store event s = ground arith

store_event-IsBounded :
    (n : ℕ) (event : PriceEvent) (s : Engine) → IsBounded n s → IsBounded n (store_event event s)
unfolding store_event prune
store_event-IsBounded n event s b =
    enforce_capacity-IsBounded n event _
      (omega (arith, ap (λ (p : GhostPolicy). p.max_events) (policy-store event s))) b.2

finish_accept-IsBounded :
    (n : ℕ) (event : PriceEvent) (o : Outcome (Unit {0}))
    → IsBounded n o.1
    → IsBounded n (finish_accept event o).1
finish_accept-IsBounded n event (ok done, s) b = store_event-IsBounded n event s b
finish_accept-IsBounded n event (err e, s) b = b

admit-IsBounded :
    (n : ℕ) (event : PriceEvent) (s : Engine)
    → IsBounded n s
    → IsBounded n (finish_accept event (resolve_spot_reconnect event s)).1
admit-IsBounded n event s b = finish_accept-IsBounded n event _ (resolve-IsBounded n event s b)

accept-IsBounded :
    (n : ℕ) (event : PriceEvent) (s : Engine) → IsBounded n s → IsBounded n (accept event s).1
unfolding accept
accept-IsBounded n event s b = ground (
  arith,
  admit-IsBounded n event s b,
  admit-IsBounded n event (sequence_gaps s) (sequence_gaps-IsBounded n s b),
)

prune-IsBounded : (n wall_ms : ℕ) (s : Engine) → IsBounded n s → IsBounded n (prune wall_ms s)
unfolding prune
prune-IsBounded n wall_ms s b =
    ground (arith, length-pruned (wall_ms - s.policy.history_ms) s.policy.max_carry_ms s.history)

expire-IsBounded :
    (n wall mono : ℕ) (s : Engine) → IsBounded n s → IsBounded n (expire_reconnect wall mono s).1
unfolding expire_reconnect clear_spot_reconnect lose_feed
expire-IsBounded n wall mono s b = ground (arith, length-drop_feed spot s.history)

snapshot-IsBounded :
    (n : ℕ) (id : String) (wall mono : ℕ) (s : Engine)
    → IsBounded n s
    → IsBounded n (snapshot id wall mono s).1
unfolding snapshot
snapshot-IsBounded n id wall mono s b = ground (
  arith,
  expire-IsBounded n wall mono (record s { last_decision = some (wall, mono) }) b,
  prune-IsBounded n (wall / ns_per_ms)
      (expire_reconnect wall mono (record s { last_decision = some (wall, mono) })).1,
)

run-IsBounded : (n : ℕ) (calls : List Call) (s : Engine) → IsBounded n s → IsBounded n (run calls s)
unfolding run step
run-IsBounded n [] s b = b
run-IsBounded n (accepting event ∷ calls) s b =
    run-IsBounded n calls _ (accept-IsBounded n event s b)
run-IsBounded n (losing feed reason wall mono ∷ calls) s b =
    run-IsBounded n calls _ (record_gap-IsBounded n feed reason wall mono s b)
run-IsBounded n (deciding id wall mono ∷ calls) s b =
    run-IsBounded n calls _ (snapshot-IsBounded n id wall mono s b)

-- A new engine whose policy allows at least one event never holds more events than it allows.
pub history_bounded :
    (run_id : String) (policy : GhostPolicy) (calls : List Call)
    → 1 ≤ policy.max_events
    → let s = run calls (new_engine run_id policy) in length s.history ≤ policy.max_events
history_bounded run_id policy calls h =
    (run-IsBounded policy.max_events calls (new_engine run_id policy)
      (unfold new_engine in (omega arith, refl, h))).0

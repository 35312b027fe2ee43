-- ===== src/Chainlink/Trace/Runs.antt =====
-- The accounts of a ChainlinkDeliveryState of
-- price_collector/polymarket_chainlink_collector.py over all calls.
use pythonbtccollector.Common.{
  ℕ, ◌≡◌, refl, ◌+◌, ap, subst, Option, none, some, List, [], ◌∷◌, arith, ◌==◌, if_elim, length,
}
use pythonbtccollector.Common.Dict.{lookup, nat_Eq}
use pythonbtccollector.Chainlink.Types.{Sequenced}
use pythonbtccollector.Chainlink.Delivery.{
  Delivery, new_delivery, empty_delivery, take_ready, next_history_ready, pick, mark_live_attempted,
  mark_history_failed, mark_history_succeeded, release_history_inflight, raw_connection_opened,
  raw_connection_closed, observe_raw_event, note_interarrival, is_connection, close_delivery,
}
use pythonbtccollector.Chainlink.Trace.{
  Call, offering, attempting, taking, writing, failing, releasing, opening, losing, observing,
  closing, step, run, with_item,
}
use pythonbtccollector.Chainlink.Trace.Accounts.{
  Accounts, IsAccounted, is_current, settled_of, offering-IsAccounted, writing-IsAccounted,
}

-- The samples that a call settles: one, when it marks as written an item that is still pending.
unfoldable pub settled_by : Call → Delivery → ℕ
settled_by (writing now) s = elim s.history_inflight [
  | none ↦ 0
  | some item ↦ settled_of (is_current item (lookup item.sample.sample_second_ms s.history_pending))
]
settled_by _ s = 0

unfoldable pub settled : List Call → Delivery → ℕ
unfolding step settled_by
settled [] s = 0
settled (c ∷ calls) s = settled_by c s + settled calls (step c s)

abbrev Sums : ℕ → Delivery → Type 0
Sums k s = IsAccounted s.sequence k s

pick-Sums : (item : Option Sequenced) (k : ℕ) (s : Delivery) → Sums k s → Sums k (pick item s).1
pick-Sums none k s a = a
pick-Sums (some item) k s a = a

take_ready-Sums :
    (inflight : Option Sequenced) (now : ℕ) (k : ℕ) (s : Delivery)
    → Sums k s
    → Sums k (take_ready inflight now s).1
take_ready-Sums (some item) now k s a = a
take_ready-Sums none now k s a = pick-Sums _ k s a

taking-Sums : (now k : ℕ) (s : Delivery) → Sums k s → Sums k (next_history_ready now s).1
unfolding next_history_ready
taking-Sums now k s a = take_ready-Sums s.history_inflight now k s a

with_item-Sums :
    (inflight : Option Sequenced) (f : Sequenced → Delivery → Delivery) (k : ℕ) (s : Delivery)
    → ((item : Sequenced) → Sums k (f item s))
    → Sums k s
    → Sums k (with_item inflight f s)
with_item-Sums none f k s each a = a
with_item-Sums (some item) f k s each a = each item

note_interarrival-Sums :
    (last : Option ℕ) (now : ℕ) (k : ℕ) (s : Delivery)
    → Sums k s
    → Sums k (note_interarrival last now s)
note_interarrival-Sums none now k s a = a
note_interarrival-Sums (some last) now k s a = a

same_sum : {m n : ℕ} (s : Delivery) → m ≡ n → Sums m s → Sums n s
same_sum s p a = subst (λ k. Sums k s) p a

writing-Sums :
    (now k : ℕ) (s : Delivery) (inflight : Option Sequenced)
    → s.history_inflight ≡ inflight
    → Sums k s
    → Sums (k + settled_by (writing now) s) (step (writing now) s)
unfolding step settled_by mark_history_succeeded
writing-Sums now k s none at a = rw at (same_sum s (omega arith) a)
writing-Sums now k s (some item) at a = rw at (writing-IsAccounted item now s.sequence k s a)

step-Sums : (c : Call) (k : ℕ) (s : Delivery) → Sums k s → Sums (k + settled_by c s) (step c s)
unfolding step settled_by mark_live_attempted mark_history_failed mark_history_succeeded
    release_history_inflight raw_connection_opened raw_connection_closed observe_raw_event
    close_delivery
step-Sums (offering sample) k s a =
    same_sum (step (offering sample) s) (omega arith) (offering-IsAccounted sample k s a)
step-Sums (attempting item succeeded now) k s a =
    same_sum (step (attempting item succeeded now) s) (omega arith) a
step-Sums (taking now) k s a = same_sum (step (taking now) s) (omega arith) (taking-Sums now k s a)
step-Sums (writing now) k s a = writing-Sums now k s s.history_inflight refl a
step-Sums failing k s a =
    same_sum (step failing s) (omega arith)
      (with_item-Sums s.history_inflight mark_history_failed k s (λ item. a) a)
step-Sums releasing k s a =
    same_sum (step releasing s) (omega arith)
      (with_item-Sums s.history_inflight release_history_inflight k s (λ item. a) a)
step-Sums (opening id) k s a =
    same_sum (step (opening id) s) (omega arith)
      (if_elim (Sums k) (is_connection s.current_connection_id id) (λ same. a) (λ other. a))
step-Sums (losing id) k s a =
    same_sum (step (losing id) s) (omega arith)
      (if_elim (Sums k) (is_connection s.current_connection_id id) (λ same. a) (λ other. a))
step-Sums (observing event) k s a =
    same_sum (step (observing event) s) (omega arith)
      (note_interarrival-Sums s.last_raw_monotonic_ns _ k s a)
step-Sums closing k s a = same_sum (step closing s) (omega arith) a

run-Sums :
    (calls : List Call) (k : ℕ) (s : Delivery) → Sums k s → Sums (k + settled calls s) (run calls s)
unfolding run settled
run-Sums [] k s a = same_sum s (omega arith) a
run-Sums (c ∷ calls) k s a =
    same_sum (run calls (step c s)) (omega arith)
      (run-Sums calls (k + settled_by c s) (step c s) (step-Sums c k s a))

abbrev or_else : Delivery → Option Delivery → Delivery
or_else d none = d
or_else d (some s) = s

new_delivery-Sums :
    (capacity settle : ℕ) (s : Delivery) → new_delivery capacity settle ≡ some s → Sums 0 s
unfolding new_delivery
new_delivery-Sums capacity settle s p =
    if_elim (λ o. o ≡ some s → Sums 0 s) (capacity == 0) (λ zero e. absurd (ground (arith, e)))
      (λ more e. subst (Sums 0) (ap (or_else (empty_delivery capacity settle)) e) (record {
        total = omega arith;
        written = omega arith;
        bounded = omega arith;
        below_high = omega arith;
        high_bounded = omega arith;
      }))
      p

-- After any calls of a new state, as many samples were taken in as are pending, are counted as
-- replaced, are counted as dropped, and were found pending by the write that stored them, together: a
-- write of a sample that was replaced meanwhile takes none away. No more were so found than are
-- counted as persisted, no more seconds are pending than the capacity, and the high-water mark lies
-- between both.
pub history_accounted :
    (capacity settle : ℕ) (calls : List Call) {s : Delivery}
    → new_delivery capacity settle ≡ some s
    → let t = run calls s in
      Accounts t.sequence
        (length t.history_pending)
        t.history_collapsed_total
        t.history_pending_dropped_total
        (settled calls s)
        t.history_persisted_total
        t.history_pending_high_water
        t.history_capacity_seconds
history_accounted capacity settle calls {s} p =
    same_sum (run calls s) (omega arith)
      (run-Sums calls 0 s (new_delivery-Sums capacity settle s p))

-- ===== src/Chainlink/Trace/Accounts.antt =====
-- Where the samples of a ChainlinkDeliveryState of
-- price_collector/polymarket_chainlink_collector.py are counted.
use pythonbtccollector.Common.{
  ℕ, ◌+◌, ◌≤◌, ◌≡◌, refl, ◌∙◌, sym, subst, Bool, true, false, Option, none, some, [], ◌∷◌, arith,
  inl, inr, Bool-cases, length, length-append, ◌<◌, ltb, ◌==◌, if_elim, not,
}
use pythonbtccollector.Common.Dict.{lookup, remove, nat_Eq, length-remove}
use pythonbtccollector.Chainlink.Types.{Sample, Sequenced}
use pythonbtccollector.Chainlink.Delivery.{
  Delivery, Pending, update_latest, make_history_capacity, drop_for, drop_second, is_inflight,
  offer_history, offer_by, add_pending, replace_pending, mark_history_succeeded, pending_after,
}
use pythonbtccollector.Chainlink.Trace.{offer_sample}

-- The pending entry of the item's second is that very item.
abbrev pub is_current : Sequenced → Option Sequenced → Bool
is_current item none = false
is_current item (some current) = current.sequence == item.sequence

-- Where the samples that were offered are: pending, replaced by a later one of their second,
-- dropped, or settled by a write that found them pending. A write that found them replaced counts
-- as persisted too.
pub record Accounts (offered pending collapsed dropped settled persisted high_water capacity : ℕ)
    : Type 0 where
  pub total : offered ≡ pending + collapsed + dropped + settled
  pub written : settled ≤ persisted
  pub bounded : pending ≤ capacity
  pub below_high : pending ≤ high_water
  pub high_bounded : high_water ≤ capacity

abbrev pub IsAccounted : ℕ → ℕ → Delivery → Type 0
IsAccounted offered settled s =
    Accounts offered (length s.history_pending) s.history_collapsed_total
      s.history_pending_dropped_total settled s.history_persisted_total s.history_pending_high_water
      s.history_capacity_seconds

drop_second-lookup :
    (inflight : Option Sequenced) (pending : Pending) (second : ℕ)
    → drop_second inflight pending ≡ some second
    → (x : Sequenced) × (lookup second pending ≡ some x)
drop_second-lookup inflight [] second p = absurd (ground (arith, p))
drop_second-lookup inflight ((k, item) ∷ pending) second p = elim (Bool-cases (second == k)) [
  | inl same ↦ rw same (item, refl)
  | inr other ↦ elim (Bool-cases (is_inflight inflight k)) [
    | inl busy ↦ rw other (drop_second-lookup inflight pending second (rw busy at p))
    | inr free ↦ absurd (ground (arith, rw free at p, other))
  ]
]

put_last-IsAccounted :
    (n k : ℕ) (item : Sequenced) (s : Delivery)
    → IsAccounted n k s
    → length s.history_pending < s.history_capacity_seconds
    → IsAccounted (n + 1) k (add_pending item (true, s))
put_last-IsAccounted n k item s a room =
    let added = length-append s.history_pending ((item.sample.sample_second_ms, item) ∷ []) in
    record {
      total = omega (arith, a.total, added);
      written = a.written;
      bounded = omega (arith, room, added);
      below_high = omega (arith, added);
      high_bounded = omega (arith, a.high_bounded, room, added);
    }

replace_pending-IsAccounted :
    (n k : ℕ) (item old : Sequenced) (s : Delivery)
    → lookup item.sample.sample_second_ms s.history_pending ≡ some old
    → IsAccounted n k s
    → IsAccounted (n + 1) k (replace_pending item s)
replace_pending-IsAccounted n k item old s held a =
    let second = item.sample.sample_second_ms in
    let added = length-append (remove second s.history_pending) ((second, item) ∷ []) in
    let gone = length-remove second s.history_pending {v = old} held in
    record {
      total = omega (arith, a.total, added, gone);
      written = a.written;
      bounded = omega (arith, a.bounded, added, gone);
      below_high = omega (arith, added, gone);
      high_bounded = omega (arith, a.high_bounded, a.bounded, added, gone);
    }

drop_for-IsAccounted :
    (n k : ℕ) (item : Sequenced) (s : Delivery) (second : Option ℕ)
    → drop_second s.history_inflight s.history_pending ≡ second
    → IsAccounted n k s
    → IsAccounted (n + 1) k (add_pending item (drop_for second s))
drop_for-IsAccounted n k item s none found a = record {
  total = omega (arith, a.total);
  written = a.written;
  bounded = a.bounded;
  below_high = a.below_high;
  high_bounded = a.high_bounded;
}
drop_for-IsAccounted n k item s (some second) found a =
    let (x, held) = drop_second-lookup s.history_inflight s.history_pending second found in
    let gone = length-remove second s.history_pending {v = x} held in
    put_last-IsAccounted n k item (drop_for (some second) s).1
      (record {
        total = omega (arith, a.total, gone);
        written = a.written;
        bounded = omega (arith, a.bounded, gone);
        below_high = omega (arith, a.below_high, gone);
        high_bounded = a.high_bounded;
      })
      (omega (arith, a.bounded, gone))

offer_by-IsAccounted :
    (n k : ℕ) (item : Sequenced) (s : Delivery) (old : Option Sequenced)
    → lookup item.sample.sample_second_ms s.history_pending ≡ old
    → IsAccounted n k s
    → IsAccounted (n + 1) k (offer_by old item s)
unfolding make_history_capacity
offer_by-IsAccounted n k item s (some old) held a =
    replace_pending-IsAccounted n k item old s held a
offer_by-IsAccounted n k item s none held a =
    if_elim (λ (o : Bool × Delivery). IsAccounted (n + 1) k (add_pending item o))
      (ltb (length s.history_pending) s.history_capacity_seconds)
      (λ room. put_last-IsAccounted n k item s a (ground (arith, room)))
      (λ full. drop_for-IsAccounted n k item s _ refl a)

drop_for-sequence : (s : Delivery) (second : Option ℕ) → (drop_for second s).1.sequence ≡ s.sequence
drop_for-sequence s none = refl
drop_for-sequence s (some second) = refl

add_pending-sequence :
    (item : Sequenced) (o : Bool × Delivery) → (add_pending item o).sequence ≡ o.1.sequence
add_pending-sequence item (true, s) = refl
add_pending-sequence item (false, s) = refl

offer_by-sequence :
    (item : Sequenced) (s : Delivery) (old : Option Sequenced)
    → (offer_by old item s).sequence ≡ s.sequence
unfolding make_history_capacity
offer_by-sequence item s (some old) = refl
offer_by-sequence item s none =
    add_pending-sequence item (make_history_capacity s)
    ∙ if_elim (λ (o : Bool × Delivery). o.1.sequence ≡ s.sequence)
        (ltb (length s.history_pending) s.history_capacity_seconds) (λ room. refl)
        (λ full. drop_for-sequence s (drop_second s.history_inflight s.history_pending))

offer_history-IsAccounted :
    (item : Sequenced) (n k : ℕ) (s : Delivery)
    → s.sequence ≡ n + 1
    → not s.accepting ≡ false
    → IsAccounted n k s
    → let t = (offer_history item s).1 in IsAccounted t.sequence k t
unfolding offer_history
offer_history-IsAccounted item n k s p live a =
    if_elim (λ (o : Bool × Delivery). IsAccounted o.1.sequence k o.1) (not s.accepting)
      (λ dead. absurd (ground (arith, live, dead)))
      (λ live.
        let old = lookup item.sample.sample_second_ms s.history_pending in
        subst (λ m. IsAccounted m k (offer_by old item s)) (sym (offer_by-sequence item s old ∙ p))
          (offer_by-IsAccounted n k item s old refl a))

pub offering-IsAccounted :
    (sample : Sample) (k : ℕ) (s : Delivery)
    → IsAccounted s.sequence k s
    → let t = offer_sample (update_latest sample s) in IsAccounted t.sequence k t
unfolding update_latest
offering-IsAccounted sample k s a =
    if_elim
      (λ (o : Option Sequenced × Delivery).
        IsAccounted (offer_sample o).sequence k (offer_sample o))
      (not s.accepting) (λ dead. a)
      (λ live.
        let item : Sequenced = record { sequence = s.sequence + 1; sample = sample } in
        offer_history-IsAccounted item s.sequence k
          (record s { sequence = s.sequence + 1; latest = some item }) refl live a)

-- What a write of the item settles.
abbrev pub settled_of : Bool → ℕ
settled_of true = 1
settled_of false = 0

pending_after-length :
    (item : Sequenced) (pending : Pending) (current : Option Sequenced)
    → lookup item.sample.sample_second_ms pending ≡ current
    → length (pending_after current item pending) + settled_of (is_current item current)
      ≡ length pending
pending_after-length item pending none held = omega arith
pending_after-length item pending (some x) held =
    let gone = length-remove item.sample.sample_second_ms pending {v = x} held in
    elim (Bool-cases (x.sequence == item.sequence)) [
      | inl same ↦ rw same gone
      | inr newer ↦ rw newer (omega arith)
    ]

settled_of-le : (b : Bool) → settled_of b ≤ 1
settled_of-le true = omega arith
settled_of-le false = omega arith

pub writing-IsAccounted :
    (item : Sequenced) (now n k : ℕ) (s : Delivery)
    → IsAccounted n k s
    → IsAccounted n
        (k + settled_of (is_current item (lookup item.sample.sample_second_ms s.history_pending)))
        (mark_history_succeeded item now s)
unfolding mark_history_succeeded
writing-IsAccounted item now n k s a =
    let current = lookup item.sample.sample_second_ms s.history_pending in
    let after = pending_after-length item s.history_pending current refl in
    let one = settled_of-le (is_current item current) in
    record {
      total = omega (arith, a.total, after);
      written = omega (arith, a.written, one);
      bounded = omega (arith, a.bounded, after);
      below_high = omega (arith, a.below_high, after);
      high_bounded = a.high_bounded;
    }

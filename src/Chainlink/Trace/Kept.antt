-- ===== src/Chainlink/Trace/Kept.antt =====
-- How a pending second of price_collector/polymarket_chainlink_collector.py may leave the history.
use pythonbtccollector.Common.{
  ℕ, ◌+◌, ◌≡◌, refl, ◌⊎◌, inl, inr, Bool, false, Option, none, some, [], ◌∷◌, arith, Bool-cases,
  ltb, ◌==◌, not, if_elim, length, ==_iff, sym, subst, ◌∙◌,
}
use pythonbtccollector.Common.Dict.{lookup, remove, nat_Eq, lookup-remove_ne}
use pythonbtccollector.Chainlink.Types.{Sequenced}
use pythonbtccollector.Chainlink.Delivery.{
  Delivery, Pending, put_last, drop_for, drop_second, add_pending, make_history_capacity, offer_by,
  offer_history, mark_history_succeeded, pending_after, is_inflight,
}

lookup-put_last_ne :
    (k : ℕ) (item : Sequenced) (d : Pending)
    → (k == item.sample.sample_second_ms) ≡ false
    → lookup k (put_last item d) ≡ lookup k d
lookup-put_last_ne k item [] h = ground (arith, h)
lookup-put_last_ne k item ((j, x) ∷ d) h = ground (arith, lookup-put_last_ne k item d h)

drop_second-free :
    (inflight : Option Sequenced) (pending : Pending) (second : ℕ)
    → drop_second inflight pending ≡ some second
    → is_inflight inflight second ≡ false
drop_second-free inflight [] second p = absurd (ground (arith, p))
drop_second-free inflight ((k, item) ∷ pending) second p =
    elim (Bool-cases (is_inflight inflight k)) [
      | inl busy ↦ drop_second-free inflight pending second (rw busy at p)
      | inr free ↦ subst (λ n. is_inflight inflight n ≡ false) (ground (arith, rw free at p)) free
    ]

pending_after-kept :
    (item x : Sequenced) (k : ℕ) (pending : Pending) (current : Option Sequenced)
    → lookup item.sample.sample_second_ms pending ≡ current
    → lookup k pending ≡ some x
    → (lookup k (pending_after current item pending) ≡ some x)
      ⊎ ((k ≡ item.sample.sample_second_ms) × (x.sequence ≡ item.sequence))
pending_after-kept item x k pending none held h = inl h
pending_after-kept item x k pending (some y) held h =
    if_elim
      (λ (p : Pending).
        (lookup k p ≡ some x) ⊎ ((k ≡ item.sample.sample_second_ms) × (x.sequence ≡ item.sequence)))
      (y.sequence == item.sequence)
      (λ same. elim (Bool-cases (k == item.sample.sample_second_ms)) [
        | inl here ↦ inr (
          ground (arith, here),
          ground (
            arith,
            same,
            held,
            subst (λ n. lookup n pending ≡ some x) ((==_iff k item.sample.sample_second_ms).0 here)
                h,
          ),
        )
        | inr there ↦ inl (lookup-remove_ne k item.sample.sample_second_ms pending there ∙ h)
      ])
      (λ newer. inl h)

-- Which seconds an offer may take from the history.
Keeps : ℕ → Sequenced → Delivery → Delivery → Type 0
Keeps k x s t =
    (lookup k t.history_pending ≡ some x)
    ⊎ ((t.history_pending_dropped_total ≡ s.history_pending_dropped_total + 1)
        × (is_inflight s.history_inflight k ≡ false))

drop_for-Keeps :
    (k : ℕ) (x item : Sequenced) (s : Delivery) (second : Option ℕ)
    → (k == item.sample.sample_second_ms) ≡ false
    → drop_second s.history_inflight s.history_pending ≡ second
    → lookup k s.history_pending ≡ some x
    → Keeps k x s (add_pending item (drop_for second s))
unfolding Keeps
drop_for-Keeps k x item s none other found h = inl h
drop_for-Keeps k x item s (some second) other found h = elim (Bool-cases (k == second)) [
  | inl here ↦ inr (
    refl,
    subst (λ n. is_inflight s.history_inflight n ≡ false) (sym ((==_iff k second).0 here))
        (drop_second-free s.history_inflight s.history_pending second found),
  )
  | inr there ↦ inl (
      lookup-put_last_ne k item (remove second s.history_pending) other
      ∙ lookup-remove_ne k second s.history_pending there
      ∙ h)
]

offer_by-Keeps :
    (k : ℕ) (x item : Sequenced) (s : Delivery) (old : Option Sequenced)
    → (k == item.sample.sample_second_ms) ≡ false
    → lookup k s.history_pending ≡ some x
    → Keeps k x s (offer_by old item s)
unfolding make_history_capacity Keeps
offer_by-Keeps k x item s (some old) other h =
    let second = item.sample.sample_second_ms in
    inl (
      lookup-put_last_ne k item (remove second s.history_pending) other
      ∙ lookup-remove_ne k second s.history_pending other
      ∙ h)
offer_by-Keeps k x item s none other h =
    if_elim (λ (o : Bool × Delivery). Keeps k x s (add_pending item o))
      (ltb (length s.history_pending) s.history_capacity_seconds)
      (λ room. inl (lookup-put_last_ne k item s.history_pending other ∙ h))
      (λ full. drop_for-Keeps k x item s _ other refl h)

-- How a pending sample of a second may leave through the two calls that remove any. An offered sample
-- leaves it, or is of the same second, or one more drop is counted and the second is not in flight; a
-- write leaves it, unless it is the written second and the pending sample is the written one.
pub history_kept :
    (k now : ℕ) (x item : Sequenced) (s : Delivery)
    → lookup k s.history_pending ≡ some x
    → ((k ≡ item.sample.sample_second_ms)
        ⊎ ((lookup k (offer_history item s).1.history_pending ≡ some x)
            ⊎ (((offer_history item s).1.history_pending_dropped_total
                  ≡ s.history_pending_dropped_total + 1)
                × (is_inflight s.history_inflight k ≡ false))))
      × ((lookup k (mark_history_succeeded item now s).history_pending ≡ some x)
          ⊎ ((k ≡ item.sample.sample_second_ms) × (x.sequence ≡ item.sequence)))
unfolding mark_history_succeeded offer_history Keeps
history_kept k now x item s h = (
  elim (Bool-cases (k == item.sample.sample_second_ms)) [
    | inl here ↦ inl ((==_iff k item.sample.sample_second_ms).0 here)
    | inr other ↦ inr (
        if_elim (λ (o : Bool × Delivery). Keeps k x s o.1) (not s.accepting) (λ closed. inl h)
          (λ live. offer_by-Keeps k x item s _ other h))
  ],
  pending_after-kept item x k s.history_pending _ refl h,
)

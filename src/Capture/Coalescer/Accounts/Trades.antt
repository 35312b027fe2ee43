-- ===== src/Capture/Coalescer/Accounts/Trades.antt =====
-- What a trade and the end of a bucket leave of the coalescer of price_collector/raw_capture.py.
use pythonbtccollector.Common.{
  ℕ, ◌+◌, ◌≡◌, ◌≤◌, refl, sym, ap, subst, Option, none, some, ◌∷◌, ltb, ◌==◌, ◌&&◌, arith, if_elim,
}
use pythonbtccollector.Common.Dict.{lookup, nat_Eq}
use pythonbtccollector.Common.Result.{ok, >>=_ok}
use pythonbtccollector.Capture.Records.{price_trace}
use pythonbtccollector.Capture.Counters.{record_coalesced}
use pythonbtccollector.Capture.Coalescer.{
  bucket_of, open_bucket, add_to_bucket, Coalescer, Emitted, note_sealed, seal_pending, join_bucket,
  seal_and_open, already_sealed, add_open, add_trade, finish_by_pending, drop_out_of_sequence,
}
use pythonbtccollector.Capture.Coalescer.Valid.{
  IsObservation, price_trace-ok, open_bucket-IsPending, add_to_bucket-IsPending,
}
use pythonbtccollector.Capture.Coalescer.Groups.{emit}
use pythonbtccollector.Capture.Types.{
  BinanceFuturesPriceTrace, FuturesTradeObservation, postgres_integer_max,
}
use pythonbtccollector.Capture.Coalescer.Accounts.Calls.{
  Coalescing, after_call, traced, pending_event_count, IsPendingOption, IsCoalescing, Leaves,
}

drops :
    (n : ℕ) (s : Coalescing)
    → IsCoalescing n s
    → Leaves (n + 1) s (drop_out_of_sequence s.coalescer (some s.counters))
unfolding Leaves IsCoalescing drop_out_of_sequence after_call emit
drops n s (balance, pending, valid) = (omega (arith, balance), pending, valid)

joins :
    (n : ℕ) (s : Coalescing) (o : FuturesTradeObservation) (p : BinanceFuturesPriceTrace)
    → s.coalescer.pending ≡ some p
    → IsObservation o
    → p.bucket_start_ms ≡ bucket_of o.received_wall_ns
    → p.last_received_monotonic_ns ≤ o.received_monotonic_ns
    → IsCoalescing n s
    → Leaves (n + 1) s (join_bucket o p s.coalescer (some s.counters))
unfolding Leaves IsCoalescing join_bucket after_call emit record_coalesced pending_event_count
    IsPendingOption add_to_bucket
joins n s o p at h here later (balance, pending, valid) =
    let count : (pending_event_count s.coalescer.pending ≡ p.event_count) =
      ap pending_event_count at in
    (
      omega (arith, balance, count),
      add_to_bucket-IsPending o p h here later (subst IsPendingOption at pending),
      valid,
    )

sealed_by : BinanceFuturesPriceTrace → Coalescer → Coalescer
unfolding note_sealed
sealed_by p c = record c { sealed = note_sealed p.connection_id p.bucket_start_ms c.sealed }

seal_pending-ok :
    (p : BinanceFuturesPriceTrace) (c : Coalescer)
    → price_trace p ≡ ok p
    → seal_pending p c ≡ ok (p, sealed_by p c)
unfolding seal_pending sealed_by
seal_pending-ok p c valid = >>=_ok (price_trace p) _ valid refl

-- A pending bucket has few enough trades to be sealed.
pending-valid :
    (n : ℕ) (s : Coalescing) (p : BinanceFuturesPriceTrace)
    → s.coalescer.pending ≡ some p
    → n ≤ postgres_integer_max
    → IsCoalescing n s
    → price_trace p ≡ ok p
unfolding IsCoalescing IsPendingOption pending_event_count
pending-valid n s p at few (balance, pending, valid) =
    let count : (pending_event_count s.coalescer.pending ≡ p.event_count) =
      ap pending_event_count at in
    price_trace-ok p (subst IsPendingOption at pending) (omega (arith, balance, count, few))

-- The pending bucket becomes a trace, and something else is pending.
sealing :
    (n m : ℕ) (s : Coalescing) (p : BinanceFuturesPriceTrace) (next : Coalescer)
    → s.coalescer.pending ≡ some p
    → price_trace p ≡ ok p
    → m ≡ n + pending_event_count next.pending
    → IsPendingOption next.pending
    → IsCoalescing n s
    → IsCoalescing m (record { traces = p ∷ s.traces; coalescer = next; counters = s.counters })
unfolding IsCoalescing traced pending_event_count
sealing n m s p next at valid total pending (balance, before, traces) =
    let count : (pending_event_count s.coalescer.pending ≡ p.event_count) =
      ap pending_event_count at in
    (omega (arith, balance, count, total), pending, (valid, traces))

opens_after :
    (n : ℕ) (s : Coalescing) (o : FuturesTradeObservation) (p : BinanceFuturesPriceTrace)
    → s.coalescer.pending ≡ some p
    → IsObservation o
    → n ≤ postgres_integer_max
    → IsCoalescing n s
    → Leaves (n + 1) s (seal_and_open o p s.coalescer (some s.counters))
unfolding Leaves seal_and_open after_call emit IsPendingOption pending_event_count open_bucket
opens_after n s o p at h few k =
    let valid = pending-valid n s p at few k in
    let next : Coalescer = record (sealed_by p s.coalescer) { pending = some (open_bucket o) } in
    subst (λ (m : Emitted). IsCoalescing (n + 1) (after_call s m))
      (sym (>>=_ok (seal_pending p s.coalescer) _ (seal_pending-ok p s.coalescer valid) refl))
      (sealing n (n + 1) s p next at valid refl (open_bucket-IsPending o h) k)

opens_first :
    (n : ℕ) (s : Coalescing) (o : FuturesTradeObservation)
    → s.coalescer.pending ≡ none
    → IsObservation o
    → IsCoalescing n s
    → Leaves
        (n + 1)
        s
        (ok (none, record s.coalescer { pending = some (open_bucket o) }, some s.counters))
unfolding Leaves IsCoalescing after_call emit pending_event_count IsPendingOption open_bucket
opens_first n s o at h (balance, pending, valid) =
    let count : (pending_event_count s.coalescer.pending ≡ 0) = ap pending_event_count at in
    (omega (arith, balance, count), open_bucket-IsPending o h, valid)

pub finishes :
    (n : ℕ) (s : Coalescing) (pending : Option BinanceFuturesPriceTrace)
    → s.coalescer.pending ≡ pending
    → n ≤ postgres_integer_max
    → IsCoalescing n s
    → Leaves n s (finish_by_pending pending s.coalescer (some s.counters))
unfolding Leaves finish_by_pending after_call emit IsPendingOption pending_event_count
finishes n s none at few k = k
finishes n s (some p) at few k =
    let valid = pending-valid n s p at few k in
    let next : Coalescer = record (sealed_by p s.coalescer) { pending = none } in
    subst (λ (m : Emitted). IsCoalescing n (after_call s m))
      (sym (>>=_ok (seal_pending p s.coalescer) _ (seal_pending-ok p s.coalescer valid) refl))
      (sealing n n s p next at valid (omega arith) tt k)

adds_open :
    (n : ℕ) (s : Coalescing) (o : FuturesTradeObservation)
    (pending : Option BinanceFuturesPriceTrace)
    → s.coalescer.pending ≡ pending
    → IsObservation o
    → n ≤ postgres_integer_max
    → IsCoalescing n s
    → Leaves (n + 1) s (add_open o pending s.coalescer (some s.counters))
unfolding add_open
adds_open n s o none at h few k = opens_first n s o at h k
adds_open n s o (some p) at h few k =
    if_elim (Leaves (n + 1) s)
      ((p.connection_id == o.connection_id) && (p.bucket_start_ms == bucket_of o.received_wall_ns))
      (λ here.
        if_elim (Leaves (n + 1) s) (ltb o.received_monotonic_ns p.last_received_monotonic_ns)
          (λ earlier. drops n s k)
          (λ later. joins n s o p at h (ground (arith, here)) (ground (arith, later)) k))
      (λ elsewhere.
        if_elim (Leaves (n + 1) s)
          ((p.connection_id == o.connection_id)
            && ltb (bucket_of o.received_wall_ns) p.bucket_start_ms)
          (λ backwards. drops n s k) (λ forwards. opens_after n s o p at h few k))

pub adds :
    (n : ℕ) (s : Coalescing) (o : FuturesTradeObservation)
    → IsObservation o
    → n ≤ postgres_integer_max
    → IsCoalescing n s
    → Leaves (n + 1) s (add_trade o s.coalescer (some s.counters))
unfolding add_trade
adds n s o h few k =
    if_elim (Leaves (n + 1) s)
      (already_sealed (bucket_of o.received_wall_ns) (lookup o.connection_id s.coalescer.sealed))
      (λ closed. drops n s k) (λ fresh. adds_open n s o s.coalescer.pending refl h few k)

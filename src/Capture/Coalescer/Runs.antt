-- ===== src/Capture/Coalescer/Runs.antt =====
-- That the coalescer of price_collector/raw_capture.py gives the summary of each group of the trades
-- of a connection that arrive in order.
use pythonbtccollector.Common.{
  ==_to, ℕ, ◌+◌, ◌≡◌, ◌≤◌, ◌<◌, refl, sym, ◌∙◌, true, false, Option, none, some, List, [], ◌∷◌,
  ◌++◌, leb, ltb, ◌==◌, arith, map, length, length-append, Bool-cases, inl, inr, subst,
}
use pythonbtccollector.Common.Dict.{Dict, lookup, nat_Eq}
use pythonbtccollector.Common.Result.{ok}
use pythonbtccollector.Capture.Records.{price_trace}
use pythonbtccollector.Capture.Counters.{CaptureCounters, record_coalesced, when_counted}
use pythonbtccollector.Capture.Coalescer.{
  bucket_of, open_bucket, add_to_bucket, Coalescer, new_coalescer, note_sealed, put_newest, is_full,
  is_later, seal_pending, join_bucket, seal_and_open, already_sealed, add_open, add_trade,
  finish_by_pending, finish_bucket,
}
use pythonbtccollector.Capture.Coalescer.Valid.{
  IsObservation, IsPending, price_trace-ok, open_bucket-IsPending, add_to_bucket-IsPending,
}
use pythonbtccollector.Capture.Types.{
  postgres_integer_max, FuturesTradeObservation, BinanceFuturesPriceTrace,
}
use pythonbtccollector.Capture.Coalescer.Groups.{
  Group, groups_from, last_trade, highest, lowest, summarise, summarise-snoc, last_trade-snoc, emit,
  coalesce,
}

-- Trades of one connection, after one trade: their buckets and their monotonic times never fall.
unfoldable pub IsOrdered : ℕ → FuturesTradeObservation → List FuturesTradeObservation → Type 0
unfolding bucket_of
IsOrdered c previous [] = Unit
IsOrdered c previous (o ∷ os) =
    IsObservation o
    × (o.connection_id ≡ c)
    × (bucket_of previous.received_wall_ns ≤ bucket_of o.received_wall_ns)
    × (previous.received_monotonic_ns ≤ o.received_monotonic_ns)
    × IsOrdered c o os

-- What is sealed of one connection.
abbrev sealed_of : ℕ → Option ℕ → Dict ℕ ℕ
sealed_of c none = []
sealed_of c (some b) = (c, b) ∷ []

abbrev IsBefore : Option ℕ → ℕ → Type 0
IsBefore none bucket = Unit
IsBefore (some b) bucket = b < bucket

==_refl : (n : ℕ) → (n == n) ≡ true
==_refl n = ground arith

==_of : {n m : ℕ} → n ≡ m → (n == m) ≡ true
==_of e = ground (arith, e)

note_sealed_lem :
    (c bucket : ℕ) (previous : Option ℕ)
    → IsBefore previous bucket
    → note_sealed c bucket (sealed_of c previous) ≡ sealed_of c (some bucket)
unfolding note_sealed put_newest is_full is_later
note_sealed_lem c bucket none h = refl
note_sealed_lem c bucket (some b) h = rw (==_refl c, later, ==_refl c) refl
  where
    later : ltb b bucket ≡ true
    later = ground (arith, h)

not_sealed :
    (c bucket now : ℕ) (previous : Option ℕ)
    → IsBefore previous bucket
    → bucket ≤ now
    → already_sealed now (lookup c (sealed_of c previous)) ≡ false
unfolding already_sealed
not_sealed c bucket now none h le = refl
not_sealed c bucket now (some b) h le = rw (==_refl c) (after b bucket now h le)
  where
    after : (b bucket now : ℕ) → b < bucket → bucket ≤ now → leb now b ≡ false
    after b bucket now h le = ground (arith, h, le)

coalesced :
    (counters : Option CaptureCounters)
    → (n : Option CaptureCounters) × (when_counted (λ c. ok (record_coalesced c)) counters ≡ ok n)
unfolding when_counted
coalesced none = (none, refl)
coalesced (some c) = (some (record_coalesced c), refl)

-- What is pending of a connection, and what was sealed of it.
abbrev holding : ℕ → BinanceFuturesPriceTrace → Option ℕ → Coalescer
holding c p previous = record { pending = some p; sealed = sealed_of c previous }

module _ (o : FuturesTradeObservation) (p : BinanceFuturesPriceTrace) (previous : Option ℕ)
    (counters : Option CaptureCounters) (same : p.connection_id ≡ o.connection_id)
    (before : IsBefore previous p.bucket_start_ms) where
  joins_own :
      p.bucket_start_ms ≡ bucket_of o.received_wall_ns
      → p.last_received_monotonic_ns ≤ o.received_monotonic_ns
      → (n : Option CaptureCounters) × (add_trade o (holding o.connection_id p previous) counters
          ≡ ok (none, holding o.connection_id (add_to_bucket o p) previous, n))
  unfolding add_trade add_open join_bucket
  joins_own here later =
      let (n, e) = coalesced counters in
      let in_time : (ltb o.received_monotonic_ns p.last_received_monotonic_ns ≡ false) =
        ground (arith, later) in
      (
        n,
        rw
            (
              not_sealed o.connection_id p.bucket_start_ms (bucket_of o.received_wall_ns) previous
                  before (omega (arith, here)),
              ==_of same,
              ==_of here,
              in_time,
              e,
            )
            refl,
      )

  seals_own :
      p.bucket_start_ms < bucket_of o.received_wall_ns
      → price_trace p ≡ ok p
      → add_trade o (holding o.connection_id p previous) counters
        ≡ ok (some p, holding o.connection_id (open_bucket o) (some p.bucket_start_ms), counters)
  unfolding add_trade add_open seal_and_open seal_pending
  seals_own later valid =
      let other : ((p.bucket_start_ms == bucket_of o.received_wall_ns) ≡ false) =
        ground (arith, later) in
      let forward : (ltb (bucket_of o.received_wall_ns) p.bucket_start_ms ≡ false) =
        ground (arith, later) in
      rw
        (
          not_sealed o.connection_id p.bucket_start_ms (bucket_of o.received_wall_ns) previous
              before (omega (arith, later)),
          ==_of same,
          other,
          forward,
          valid,
          same,
          note_sealed_lem o.connection_id p.bucket_start_ms previous before,
        )
        refl

open_bucket-summarise : (o : FuturesTradeObservation) → open_bucket o ≡ summarise (o, [])
unfolding open_bucket summarise last_trade highest lowest
open_bucket-summarise o = refl

module _ (c : ℕ) where
  -- The traces that are still to come, of a group that is pending.
  Coalesces : Group → List FuturesTradeObservation → Option ℕ → Option CaptureCounters → Type 0
  Coalesces g os previous counters =
      coalesce os (holding c (summarise g) previous) counters
      ≡ ok (map summarise (groups_from g os))

  finishes :
      (g : Group) (previous : Option ℕ) (counters : Option CaptureCounters)
      → price_trace (summarise g) ≡ ok (summarise g)
      → Coalesces g [] previous counters
  unfolding Coalesces coalesce finish_bucket finish_by_pending seal_pending emit groups_from
  finishes g previous counters valid = rw valid refl

  joins :
      (g : Group) (o : FuturesTradeObservation) (os : List FuturesTradeObservation)
      (previous : Option ℕ) (counters : Option CaptureCounters)
      → g.0.connection_id ≡ c
      → o.connection_id ≡ c
      → IsBefore previous (bucket_of g.0.received_wall_ns)
      → bucket_of g.0.received_wall_ns ≡ bucket_of o.received_wall_ns
      → (last_trade g).received_monotonic_ns ≤ o.received_monotonic_ns
      → ((n : Option CaptureCounters) → Coalesces (g.0, g.1 ++ o ∷ []) os previous n)
      → Coalesces g (o ∷ os) previous counters
  unfolding Coalesces coalesce groups_from emit summarise
  joins (f, acc) o os previous counters same_f same_o before here later rest =
      let p = summarise (f, acc) in
      let (n, e) = joins_own o p previous counters (same_f ∙ sym same_o) before here later in
      let moved =
        subst
          (λ k.
            add_trade o (holding k p previous) counters
            ≡ ok (none, holding k (add_to_bucket o p) previous, n))
          same_o e in
      let joined : (add_trade o (holding c p previous) counters
          ≡ ok (none, holding c (summarise (f, acc ++ o ∷ [])) previous, n)) =
        subst
          (λ (q : BinanceFuturesPriceTrace).
            add_trade o (holding c p previous) counters ≡ ok (none, holding c q previous, n))
          (sym (summarise-snoc f acc o)) moved in
      rw (joined, rest n, ==_of here) refl

  opens :
      (g : Group) (o : FuturesTradeObservation) (os : List FuturesTradeObservation)
      (previous : Option ℕ) (counters : Option CaptureCounters)
      → g.0.connection_id ≡ c
      → o.connection_id ≡ c
      → IsBefore previous (bucket_of g.0.received_wall_ns)
      → bucket_of g.0.received_wall_ns < bucket_of o.received_wall_ns
      → price_trace (summarise g) ≡ ok (summarise g)
      → Coalesces (o, []) os (some (bucket_of g.0.received_wall_ns)) counters
      → Coalesces g (o ∷ os) previous counters
  unfolding Coalesces coalesce groups_from emit summarise
  opens (f, acc) o os previous counters same_f same_o before later valid rest =
      let p = summarise (f, acc) in
      let b = bucket_of f.received_wall_ns in
      let sealed : (add_trade o (holding c p previous) counters
          ≡ ok (some p, holding c (summarise (o, [])) (some b), counters)) =
        subst
          (λ k.
            add_trade o (holding k p previous) counters
            ≡ ok (some p, holding k (summarise (o, [])) (some b), counters))
          same_o
          (subst
            (λ (q : BinanceFuturesPriceTrace).
              add_trade o (holding o.connection_id p previous) counters
              ≡ ok (some p, holding o.connection_id q (some b), counters))
            (open_bucket-summarise o)
            (seals_own o p previous counters (same_f ∙ sym same_o) before later valid)) in
      let other : ((b == bucket_of o.received_wall_ns) ≡ false) = ground (arith, later) in
      rw (sealed, rest, other) refl

  coalesces :
      (os : List FuturesTradeObservation) (g : Group) (previous : Option ℕ)
      (counters : Option CaptureCounters)
      → IsPending (summarise g)
      → g.0.connection_id ≡ c
      → IsBefore previous (bucket_of g.0.received_wall_ns)
      → IsOrdered c (last_trade g) os
      → 1 + length g.1 + length os ≤ postgres_integer_max
      → Coalesces g os previous counters
  unfolding summarise IsOrdered
  coalesces [] g previous counters pending same before ordered few =
      finishes g previous counters (price_trace-ok (summarise g) pending (omega (arith, few)))
  coalesces (o ∷ os) g previous counters pending same before (ho, same_o, le, later, ordered) few =
      elim (Bool-cases (bucket_of g.0.received_wall_ns == bucket_of o.received_wall_ns)) [
        | inl here ↦
            let e = ==_to here in
            joins g o os previous counters same same_o before e later (λ n.
              coalesces os (g.0, g.1 ++ o ∷ []) previous n
                (subst IsPending (sym (summarise-snoc g.0 g.1 o))
                  (add_to_bucket-IsPending o (summarise g) ho e later pending))
                same before
                (subst (λ (l : FuturesTradeObservation). IsOrdered c l os)
                  (sym (last_trade-snoc g.0 g.1 o)) ordered)
                (omega (arith, few, length-append g.1 (o ∷ []))))
        | inr other ↦
            let after : (bucket_of g.0.received_wall_ns < bucket_of o.received_wall_ns) =
              ground (arith, other, le, pending.0.last_in) in
            opens g o os previous counters same same_o before after
              (price_trace-ok (summarise g) pending (omega (arith, few)))
              (coalesces os (o, []) (some (bucket_of g.0.received_wall_ns)) counters
                (subst IsPending (open_bucket-summarise o) (open_bucket-IsPending o ho)) same_o
                after ordered (omega (arith, few)))
      ]

-- The trades of one connection that come in order, each with a bucket and a monotonic time not before
-- the last, each acceptable and received at least 100 ms after the epoch, become without any error
-- the summary of each group of consecutive trades of one bucket: its first and last trade, highest
-- and lowest price, and count; there are at most 2,147,483,647 trades.
pub coalesces_groups :
    (o : FuturesTradeObservation) (os : List FuturesTradeObservation)
    (counters : Option CaptureCounters)
    → IsObservation o
    → IsOrdered o.connection_id o os
    → 1 + length os ≤ postgres_integer_max
    → coalesce (o ∷ os) new_coalescer counters ≡ ok (map summarise (groups_from (o, []) os))
unfolding coalesce Coalesces add_trade add_open new_coalescer already_sealed emit last_trade
    open_bucket summarise highest lowest
coalesces_groups o os counters h ordered few =
    let first : IsPending (summarise (o, [])) =
      subst IsPending (open_bucket-summarise o) (open_bucket-IsPending o h) in
    let rest : (coalesce os (holding o.connection_id (summarise (o, [])) none) counters
        ≡ ok (map summarise (groups_from (o, []) os))) =
      coalesces o.connection_id os (o, []) none counters first refl tt ordered
        (omega (arith, few)) in
    rw rest refl

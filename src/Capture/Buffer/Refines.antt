-- ===== src/Capture/Buffer/Refines.antt =====
-- The buffer of price_collector/raw_capture.py against a queue without bounds, counters or marks:
-- of everything offered, it keeps the latest max_events, and gives them out in their order.
use pythonbtccollector.Common.{
  ℕ, zero, suc, ◌-◌, ◌≡◌, ◌≤◌, ◌<◌, refl, ap, ◌∙◌, true, false, Option, none, some, List, [], ◌∷◌,
  ◌++◌, leb, if◌then◌else◌, length, length-append, arith, Bool-cases, inl, inr, take, drop,
}
use pythonbtccollector.Common.Result.{ok, ◌>>=◌}
use pythonbtccollector.Capture.Types.{postgres_bigint_max}
use pythonbtccollector.Capture.Checks.{Checked}
use pythonbtccollector.Capture.Counters.{CaptureCounters}
use pythonbtccollector.Capture.Buffer.{
  Buffer, new_buffer, pop_left, push_item, push_nowait, drain_loop, drain_nowait, discard_all,
  after_drain, signal,
}
use pythonbtccollector.Capture.Buffer.Bounds.{IsBounded, push_nowait-ok, drain_loop-length}

pub data Call (A : Type 0) : Type 0 where
  offer : A → Call A
  -- drain_nowait(limit + 1)
  drain : ℕ → Call A
  discard : Call A

-- What a caller sees.
pub data Answer (A : Type 0) : Type 0 where
  offered : Option A → ℕ → Answer A
  drained : List A → Answer A
  discarded : ℕ → Answer A

abbrev pub BufferState : Type 0 → Type 0
BufferState A = Buffer A × CaptureCounters

unfoldable call_buffer : {A : Type 0} → Call A → BufferState A → Checked (Answer A × BufferState A)
unfolding push_nowait drain_nowait discard_all
call_buffer (offer x) (b, c) = do
  (result, next, counted) ← push_nowait x b c
  ok (offered result.dropped_record result.queue_depth, (next, counted))
call_buffer (drain limit) (b, c) = do
  (items, next) ← drain_nowait (suc limit) b
  ok (drained items, (next, c))
call_buffer discard (b, c) = let (count, next) = discard_all b in ok (discarded count, (next, c))

unfoldable pub run_buffer :
    {A : Type 0} → List (Call A) → BufferState A → Checked (List (Answer A) × BufferState A)
unfolding call_buffer
run_buffer [] s = ok ([], s)
run_buffer (call ∷ calls) s = do
  (answer, next) ← call_buffer call s
  (answers, final) ← run_buffer calls next
  ok (answer ∷ answers, final)

-- The last n items.
unfoldable pub keep_last : {A : Type 0} → ℕ → List A → List A
keep_last n xs = drop (length xs - n) xs

-- The first item, when there are more than n.
unfoldable pub evicted : {A : Type 0} → ℕ → List A → Option A
evicted n [] = none
evicted n (x ∷ xs) = if leb (suc (length xs)) n then none else some x

unfoldable call_queue : {A : Type 0} → ℕ → Call A → List A → Answer A × List A
unfolding keep_last evicted
call_queue n (offer x) q =
    let kept = keep_last n (q ++ x ∷ []) in (offered (evicted n (q ++ x ∷ [])) (length kept), kept)
call_queue n (drain limit) q = (drained (take (suc limit) q), drop (suc limit) q)
call_queue n discard q = (discarded (length q), [])

unfoldable pub run_queue : {A : Type 0} → ℕ → List (Call A) → List A → List (Answer A) × List A
unfolding call_queue
run_queue n [] q = ([], q)
run_queue n (call ∷ calls) q =
    let (answer, next) = call_queue n call q in
    let (answers, final) = run_queue n calls next in (answer ∷ answers, final)

drain_loop-splits : {A : Type 0} (n : ℕ) (xs : List A) → drain_loop n xs ≡ (take n xs, drop n xs)
unfolding drain_loop
drain_loop-splits zero xs = refl
drain_loop-splits (suc n) [] = refl
drain_loop-splits (suc n) (x ∷ xs) =
    ap (λ (p : List _ × List _). (x ∷ p.0, p.1)) (drain_loop-splits n xs)

keep_last-short : {A : Type 0} (n : ℕ) (xs : List A) → length xs ≤ n → keep_last n xs ≡ xs
unfolding keep_last
keep_last-short n xs h = rw (zero_sub (length xs) n h) refl
  where
    zero_sub : (a b : ℕ) → a ≤ b → a - b ≡ 0
    zero_sub a b h = omega arith

keep_last-over :
    {A : Type 0} (n : ℕ) (x : A) (xs : List A) → length xs ≡ n → keep_last n (x ∷ xs) ≡ xs
unfolding keep_last
keep_last-over n x xs h = rw (one_sub (length xs) n h) refl
  where
    one_sub : (a b : ℕ) → a ≡ b → suc a - b ≡ 1
    one_sub a b h = omega arith

evicted-short : {A : Type 0} (n : ℕ) (xs : List A) → length xs ≤ n → evicted n xs ≡ none
unfolding evicted
evicted-short n [] h = refl
evicted-short n (x ∷ xs) h = ground (arith, h)

evicted-over :
    {A : Type 0} (n : ℕ) (x : A) (xs : List A) → length xs ≡ n → evicted n (x ∷ xs) ≡ some x
unfolding evicted
evicted-over n x xs h = ground (arith, h)

-- An offer keeps the latest.
push_item-keeps :
    {A : Type 0} (x : A) (n : ℕ) (items : List A)
    → 0 < n
    → length items ≤ n
    → push_item x n items ≡ (evicted n (items ++ x ∷ []), keep_last n (items ++ x ∷ []))
unfolding push_item pop_left
push_item-keeps x n [] positive short =
    rw
      (
        no_room n positive,
        evicted-short n (x ∷ []) (omega (arith, positive)),
        keep_last-short n (x ∷ []) (omega (arith, positive)),
      )
      refl
  where
    no_room : (n : ℕ) → 0 < n → leb n 0 ≡ false
    no_room n h = ground (arith, h)
push_item-keeps x n (y ∷ ys) positive short = elim (Bool-cases (leb n (suc (length ys)))) [
  | inl full ↦
      let size : (length (ys ++ x ∷ []) ≡ n) =
        ground (arith, length-append ys (x ∷ []), full, short) in
      rw (full, evicted-over n y (ys ++ x ∷ []) size, keep_last-over n y (ys ++ x ∷ []) size) refl
  | inr room ↦
      let size : (length (y ∷ (ys ++ x ∷ [])) ≤ n) =
        ground (arith, length-append ys (x ∷ []), room) in
      rw
        (
          room,
          evicted-short n (y ∷ (ys ++ x ∷ [])) size,
          keep_last-short n (y ∷ (ys ++ x ∷ [])) size,
        )
        refl
]

module _ {A : Type 0} (n : ℕ) where
  -- A bounded buffer of n places that holds these items.
  abbrev Holding : BufferState A → List A → Type 0
  Holding s q = IsBounded s.0 × (s.0.max_events ≡ n) × (s.0.items ≡ q)

  call-refines :
      (call : Call A) (s : BufferState A) (q : List A)
      → Holding s q
      → (t : BufferState A) × (call_buffer call s ≡ ok ((call_queue n call q).0, t))
        × Holding t (call_queue n call q).1
  unfolding call_buffer call_queue
  call-refines (offer x) (b, c) q (bounded, size, same) =
      let (result, next, counted, e, bounded', size', mark, count, balance, items, oldest, depth) =
        push_nowait-ok x b c bounded in
      let kept = push_item-keeps x b.max_events b.items bounded.0 bounded.2 in
      let latest : (next.items ≡ keep_last n (q ++ x ∷ [])) =
        items
        ∙ ap (λ (p : Option A × List A). p.1) kept
        ∙ ap (λ m. keep_last m (b.items ++ x ∷ [])) size
        ∙ ap (λ l. keep_last n (l ++ x ∷ [])) same in
      let first : (result.dropped_record ≡ evicted n (q ++ x ∷ [])) =
        oldest
        ∙ ap (λ (p : Option A × List A). p.0) kept
        ∙ ap (λ m. evicted m (b.items ++ x ∷ [])) size
        ∙ ap (λ l. evicted n (l ++ x ∷ [])) same in
      (
        (next, counted),
        rw (e, first, depth ∙ ap length latest) refl,
        (bounded', size' ∙ size, latest),
      )
  call-refines (drain limit) (b, c) q ((some_room, storable, short, low, high), size, same) =
      let rest = (drain_loop (suc limit) b.items).1 in
      let splits : (drain_loop (suc limit) b.items ≡ (take (suc limit) q, drop (suc limit) q)) =
        drain_loop-splits (suc limit) b.items
        ∙ ap (λ l. (take (suc limit) l, drop (suc limit) l)) same in
      let taken : ((drain_loop (suc limit) b.items).0 ≡ take (suc limit) q) =
        ap (λ (p : List A × List A). p.0) splits in
      let sizes = drain_loop-length (suc limit) b.items in
      (
        (record b { items = rest; available = after_drain rest b.available }, c),
        rw (taken, some_limit limit) refl,
        (
          (some_room, storable, omega (arith, short, sizes), omega (arith, low, sizes), high),
          size,
          ap (λ (p : List A × List A). p.1) splits,
        ),
      )
    where
      some_limit : (limit : ℕ) → leb 1 (suc limit) ≡ true
      some_limit limit = ground arith
  call-refines discard (b, c) q ((some_room, storable, short, low, high), size, same) = (
    (record b { items = []; available = signal false b.available }, c),
    rw same refl,
    ((some_room, storable, omega arith, omega arith, high), size, refl),
  )

  runs-refine :
      (calls : List (Call A)) (s : BufferState A) (q : List A)
      → Holding s q
      → (t : BufferState A) × (run_buffer calls s ≡ ok ((run_queue n calls q).0, t))
        × Holding t (run_queue n calls q).1
  unfolding run_buffer run_queue
  runs-refine [] s q h = (s, refl, h)
  runs-refine (call ∷ calls) s q h =
      let (t, e, k) = call-refines call s q h in
      let (u, es, l) = runs-refine calls t (call_queue n call q).1 k in (u, rw (e, es) refl, l)

  -- Any calls of a new buffer raise nothing and answer as a plain queue does that keeps the latest
  -- max_events items: what each offer evicts, the depth, what is drained and what is discarded; and
  -- the buffer ends with the queue's items; max_events is positive and storable.
  pub buffer_refines_queue :
      0 < n
      → n ≤ postgres_bigint_max
      → (calls : List (Call A)) (c : CaptureCounters)
      → (b : Buffer A) × (new_buffer n ≡ ok b)
        × (t : BufferState A) × (run_buffer calls (b, c) ≡ ok ((run_queue n calls []).0, t))
        × (t.0.items ≡ (run_queue n calls []).1)
  unfolding new_buffer
  buffer_refines_queue positive storable calls c =
      let b : Buffer A = record { items = []; max_events = n; high_water = 0; available = none } in
      let empty : Holding (b, c) [] =
        ((positive, storable, omega arith, omega arith, omega arith), refl, refl) in
      let (t, e, (bounded, size, same)) = runs-refine calls (b, c) [] empty in
      (b, ground (arith, positive), t, e, same)

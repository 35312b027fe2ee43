-- ===== src/Capture/Buffer/Bounds.antt =====
-- That an offer to the buffer of price_collector/raw_capture.py raises nothing, keeps the buffer
-- within its bounds and counts what it drops.
use pythonbtccollector.Common.{
  ℕ, zero, suc, ◌+◌, ◌≡◌, ◌≤◌, ◌<◌, refl, Bool, true, false, List, [], ◌∷◌, ◌++◌, leb, max,
  if◌then◌else◌, length, length-append, arith, All, Bool-cases, inl, inr,
}
use pythonbtccollector.Common.Result.{ok}
use pythonbtccollector.Capture.Checks.{
  Holds, Test, require_all, require-ok, bigint-Holds, All-append,
}
use pythonbtccollector.Capture.Counters.{CaptureCounters, record_enqueued}
use pythonbtccollector.Capture.Counters.Totals.{observe_queue_depth_lem}
use pythonbtccollector.Capture.Buffer.{
  Buffer, OfferResult, offer_result, pop_left, push_item, count_offer, push_nowait, drain_loop,
  signal,
}
use pythonbtccollector.Capture.Types.{postgres_bigint_max, depth_above_high_water}

abbrev pub IsBounded : {A : Type 0} → Buffer A → Type 0
IsBounded b =
    (0 < b.max_events)
    × (b.max_events ≤ postgres_bigint_max)
    × (length b.items ≤ b.max_events)
    × (length b.items ≤ b.high_water)
    × (b.high_water ≤ b.max_events)

-- An offer result whose depth is at most its high-water mark is accepted.
pub offer_result-ok :
    {A : Type 0} (r : OfferResult A)
    → r.queue_depth ≤ r.queue_high_water
    → r.queue_high_water ≤ postgres_bigint_max
    → offer_result r ≡ ok r
unfolding offer_result
offer_result-ok r low high =
    let ranges = require_all false (r.queue_depth ∷ r.queue_high_water ∷ []) in
    let order : List Test = ((leb r.queue_depth r.queue_high_water, depth_above_high_water) ∷ []) in
    let in_range =
      bigint-Holds (r.queue_depth ∷ r.queue_high_water ∷ [])
        (omega (arith, low, high), (high, tt)) in
    let in_order : All Holds order = (ground (arith, low), tt) in
    require-ok (ranges ++ order) r (All-append Holds ranges order in_range in_order)

length-pop_left :
    {A : Type 0} (items : List A) → 0 < length items → length (pop_left items).1 + 1 ≡ length items
unfolding pop_left
length-pop_left [] h = absurd (omega (arith, h))
length-pop_left (x ∷ xs) h = omega arith

-- The length after an offer.
pub length-push_item :
    {A : Type 0} (x : A) (m : ℕ) (items : List A)
    → 0 < m
    → length (push_item x m items).1
      ≡ (if leb m (length items) then length items else length items + 1)
unfolding push_item
length-push_item x m items positive = elim (Bool-cases (leb m (length items))) [
  | inl full ↦ rw full (
      omega (
        arith,
        length-append (pop_left items).1 (x ∷ []),
        length-pop_left items (ground (arith, full, positive)),
      ))
  | inr room ↦ rw room (omega (arith, length-append items (x ∷ [])))
]

abbrev IsOffered : Bool → ℕ → CaptureCounters → CaptureCounters → Type 0
IsOffered dropped depth c counted =
    (counted.records_dropped_total ≡ c.records_dropped_total + (if dropped then 1 else 0))
    × (counted.records_enqueued_total ≡ c.records_enqueued_total + 1)
    × (counted.records_persisted_total ≡ c.records_persisted_total)
    × (counted.queue_high_water ≡ max c.queue_high_water depth)

count_offer-ok :
    (dropped : Bool) (depth : ℕ) (c : CaptureCounters)
    → depth ≤ postgres_bigint_max
    → (counted : CaptureCounters) × (count_offer dropped depth c ≡ ok counted)
      × IsOffered dropped depth c counted
unfolding count_offer record_enqueued
count_offer-ok true depth c small =
    let dropped = record c { records_dropped_total = c.records_dropped_total + 1 } in
    let enqueued = record dropped { records_enqueued_total = c.records_enqueued_total + 1 } in
    (
      record enqueued { queue_high_water = max c.queue_high_water depth },
      observe_queue_depth_lem depth enqueued small,
      (refl, refl, refl, refl),
    )
count_offer-ok false depth c small =
    (_, observe_queue_depth_lem depth _ small, (omega arith, refl, refl, refl))

-- What an offer does to a bounded buffer.
pub push_nowait-ok :
    {A : Type 0} (x : A) (b : Buffer A) (c : CaptureCounters)
    → IsBounded b
    → (result : OfferResult A) × (next : Buffer A) × (counted : CaptureCounters) × (push_nowait x b
          c
        ≡ ok (result, next, counted))
      × IsBounded next
      × (next.max_events ≡ b.max_events)
      × (next.high_water ≡ max b.high_water (length next.items))
      × IsOffered (leb b.max_events (length b.items)) (length next.items) c counted
      × (counted.records_dropped_total + length next.items
          ≡ c.records_dropped_total + length b.items + 1)
      × (next.items ≡ (push_item x b.max_events b.items).1)
      × (result.dropped_record ≡ (push_item x b.max_events b.items).0)
      × (result.queue_depth ≡ length next.items)
unfolding push_nowait
push_nowait-ok {A} x b c (positive, storable, short, low, high) =
    let items = (push_item x b.max_events b.items).1 in
    let size = length-push_item x b.max_events b.items positive in
    let bounds : (length items ≤ b.max_events) = ground (arith, size, short) in
    let (counted, e, h) =
      count_offer-ok (leb b.max_events (length b.items)) (length items) c
        (omega (arith, bounds, storable)) in
    let result : OfferResult A = record {
      accepted = true;
      dropped_oldest = leb b.max_events (length b.items);
      dropped_record = (push_item x b.max_events b.items).0;
      queue_depth = length items;
      queue_high_water = max b.high_water (length items);
    } in
    let next = record b {
      items = items;
      high_water = max b.high_water (length items);
      available = signal true b.available;
    } in
    (
      result,
      next,
      counted,
      rw (e, offer_result-ok result (omega arith) (omega (arith, bounds, high, storable))) refl,
      (positive, storable, bounds, omega arith, omega (arith, bounds, high)),
      refl,
      refl,
      h,
      ground (arith, size, h.0),
      refl,
      refl,
      refl,
    )

pub drain_loop-length :
    {A : Type 0} (limit : ℕ) (items : List A)
    → length (drain_loop limit items).0 + length (drain_loop limit items).1 ≡ length items
unfolding drain_loop
drain_loop-length zero items = omega arith
drain_loop-length (suc limit) [] = omega arith
drain_loop-length (suc limit) (x ∷ xs) = omega (arith, drain_loop-length limit xs)

pub drain_loop-limit :
    {A : Type 0} (limit : ℕ) (items : List A) → length (drain_loop limit items).0 ≤ limit
unfolding drain_loop
drain_loop-limit zero items = omega arith
drain_loop-limit (suc limit) [] = omega arith
drain_loop-limit (suc limit) (x ∷ xs) = omega (arith, drain_loop-limit limit xs)

-- ===== src/Capture/Batch/Rows.antt =====
-- That `_write_batch` of price_collector/raw_capture.py counts each row of its batch once, however
-- the calls of the backend end.
use pythonbtccollector.Common.{
  ℕ, ◌+◌, ◌≡◌, ◌≤◌, refl, Bool, true, false, List, [], ◌∷◌, ◌++◌, length, filter, arith, All, ◌==◌,
  if_elim, ap,
}
use pythonbtccollector.Common.Int.{ℤ, pos, neg_part}
use pythonbtccollector.Common.Result.{ok}
use pythonbtccollector.Capture.Types.{postgres_bigint_max, rows_mismatch, negative_duration}
use pythonbtccollector.Capture.Checks.{
  Holds, require_all, require-ok, bigint-Holds, All-append, Test,
}
use pythonbtccollector.Capture.Counters.{CaptureCounters, record_batch_result, note_failed}
use pythonbtccollector.Capture.Counters.Totals.{record_persisted_lem, record_dropped_lem}
use pythonbtccollector.Capture.Batch.{
  CaptureRecord, futures, chainlink, feed_session, is_futures, is_chainlink, is_feed_session,
  WriteOutcome, Outcomes, Tally, write_group, write_groups, tally_batch, settle_tally, write_batch,
  empty_tally,
}

-- The rows counted so far, of those tried.
abbrev IsTally : ℕ → Tally → Type 0
IsTally rows t =
    (t.persisted + t.dropped ≤ rows) × (t.is_cancelled ≡ false → t.persisted + t.dropped ≡ rows)

write_group-IsTally :
    (g : List CaptureRecord) (o : WriteOutcome) (t : Tally) (rows total : ℕ)
    → rows + length g ≡ total
    → IsTally rows t
    → IsTally total (write_group g o t)
unfolding write_group
write_group-IsTally [] o t rows total e h = (omega (arith, h.0), λ k. omega (arith, h.1 k))
write_group-IsTally (r ∷ rs) WriteOutcome.returned t rows total e h =
    if_elim (IsTally total) t.is_cancelled
      (λ c. (omega (arith, h.0), λ k. absurd (ground (arith, c, k))))
      (λ c. (omega (arith, h.1 c), λ k. omega (arith, h.1 c)))
write_group-IsTally (r ∷ rs) WriteOutcome.raised t rows total e h =
    if_elim (IsTally total) t.is_cancelled
      (λ c. (omega (arith, h.0), λ k. absurd (ground (arith, c, k))))
      (λ c. (omega (arith, h.1 c), λ k. omega (arith, h.1 c)))
write_group-IsTally (r ∷ rs) WriteOutcome.cancelled t rows total e h =
    (omega (arith, h.0), λ k. absurd (ground (arith, k)))

-- The three groups are the batch.
length-groups :
    (batch : List CaptureRecord)
    → length (filter is_futures batch)
        + length (filter is_chainlink batch)
        + length (filter is_feed_session batch)
      ≡ length batch
unfolding is_futures is_chainlink is_feed_session
length-groups [] = refl
length-groups (futures r ∷ batch) = omega (arith, length-groups batch)
length-groups (chainlink r ∷ batch) = omega (arith, length-groups batch)
length-groups (feed_session r ∷ batch) = omega (arith, length-groups batch)

tally_batch-IsTally :
    (created : WriteOutcome) (o : Outcomes) (batch : List CaptureRecord)
    → IsTally (length batch) (tally_batch created o batch)
unfolding tally_batch write_groups
tally_batch-IsTally WriteOutcome.returned o batch =
    let a = filter is_futures batch in
    let b = filter is_chainlink batch in
    let c = filter is_feed_session batch in
    let ta = write_group a o.copy_futures_traces empty_tally in
    let tb = write_group b o.copy_chainlink_events ta in
    rw (← length-groups batch) (
      write_group-IsTally c o.upsert_feed_sessions tb (length a + length b) _ refl (
        write_group-IsTally b o.copy_chainlink_events ta (length a) _ refl (
          write_group-IsTally a o.copy_futures_traces empty_tally 0 _ (omega arith)
            (omega arith, λ e. refl))))
tally_batch-IsTally WriteOutcome.raised o batch = (omega arith, λ e. omega arith)
tally_batch-IsTally WriteOutcome.cancelled o batch = (omega arith, λ e. absurd (ground (arith, e)))

settle_tally-sum :
    (rows : ℕ) (t : Tally)
    → IsTally rows t
    → (settle_tally rows t).persisted + (settle_tally rows t).dropped ≡ rows
unfolding settle_tally
settle_tally-sum rows t h =
    if_elim (λ (k : Tally). k.persisted + k.dropped ≡ rows) t.is_cancelled (λ c. omega (arith, h.0))
      h.1

-- A batch result whose rows add up.
record_batch_result_lem :
    (rows persisted dropped : ℕ) (failed : Bool) (duration : ℤ) (c : CaptureCounters)
    → persisted + dropped ≡ rows
    → rows ≤ postgres_bigint_max
    → neg_part duration ≡ 0
    → record_batch_result rows persisted dropped failed duration c
      ≡ ok (
          note_failed failed (record c {
            last_batch_rows = rows;
            last_batch_duration_ns = duration;
            records_persisted_total = c.records_persisted_total + persisted;
            records_dropped_total = c.records_dropped_total + dropped;
          }))
unfolding record_batch_result
record_batch_result_lem rows persisted dropped failed duration c sum small nonnegative =
    let noted = record c { last_batch_rows = rows; last_batch_duration_ns = duration } in
    let stored = record noted { records_persisted_total = c.records_persisted_total + persisted } in
    let ranges = require_all false (rows ∷ persisted ∷ dropped ∷ []) in
    let sums : List Test =
      ((persisted + dropped == rows, rows_mismatch)
        ∷ (neg_part duration == 0, negative_duration)
        ∷ []) in
    let in_range =
      bigint-Holds (rows ∷ persisted ∷ dropped ∷ [])
        (small, (omega (arith, small, sum), (omega (arith, small, sum), tt))) in
    let summed : All Holds sums = (ground (arith, sum), (ground (arith, nonnegative), tt)) in
    rw
      (
        require-ok (ranges ++ sums) noted (All-append Holds ranges sums in_range summed),
        record_persisted_lem persisted noted (omega (arith, small, sum)),
        record_dropped_lem dropped stored (omega (arith, small, sum)),
      )
      refl

-- The counters after a batch.
abbrev pub AddsUp : ℕ → CaptureCounters → CaptureCounters → Type 0
AddsUp rows c counted =
    (counted.records_persisted_total + counted.records_dropped_total
      ≡ c.records_persisted_total + c.records_dropped_total + rows)
    × (c.records_persisted_total ≤ counted.records_persisted_total)
    × (c.records_dropped_total ≤ counted.records_dropped_total)
    × (counted.queue_high_water ≡ c.queue_high_water)

count_result :
    (rows persisted dropped : ℕ) (failed : Bool) (duration : ℤ) (c : CaptureCounters)
    → persisted + dropped ≡ rows
    → rows ≤ postgres_bigint_max
    → neg_part duration ≡ 0
    → (counted : CaptureCounters) × (record_batch_result rows persisted dropped failed duration c
        ≡ ok counted)
      × AddsUp rows c counted
unfolding note_failed
count_result rows persisted dropped true duration c sum small nonnegative = (
  _,
  record_batch_result_lem rows persisted dropped true duration c sum small nonnegative,
  (omega (arith, sum), omega arith, omega arith, refl),
)
count_result rows persisted dropped false duration c sum small nonnegative = (
  _,
  record_batch_result_lem rows persisted dropped false duration c sum small nonnegative,
  (omega (arith, sum), omega arith, omega arith, refl),
)

-- Whatever the calls of the backend do, and even when the write is cancelled, `_write_batch` raises
-- nothing of its own, every row of its batch becomes one stored or one dropped record, no row is
-- counted twice, and the high-water mark stays; the batch has a storable length and its duration is
-- not negative.
pub every_row_counted_once :
    (o : Outcomes) (duration : ℤ) (batch : List CaptureRecord) (c : CaptureCounters)
    → length batch ≤ postgres_bigint_max
    → neg_part duration ≡ 0
    → (is_cancelled : Bool) × (counted : CaptureCounters) × (write_batch o duration batch c
        ≡ ok (is_cancelled, counted))
      × AddsUp (length batch) c counted
unfolding write_batch
every_row_counted_once o duration batch c small nonnegative =
    let t = settle_tally (length batch) (tally_batch o.creation o batch) in
    let sum =
      settle_tally-sum (length batch) (tally_batch o.creation o batch)
        (tally_batch-IsTally o.creation o batch) in
    let (counted, e, h) =
      count_result (length batch) t.persisted t.dropped t.failed duration c sum small nonnegative in
    (t.is_cancelled, counted, rw e refl, h)

abbrev pub all_returned : Outcomes
all_returned = record {
  creation = WriteOutcome.returned;
  copy_futures_traces = WriteOutcome.returned;
  copy_chainlink_events = WriteOutcome.returned;
  upsert_feed_sessions = WriteOutcome.returned;
}

abbrev stored_tally : ℕ → Tally
stored_tally n = record { persisted = n; dropped = 0; failed = false; is_cancelled = false }

write_group-returned :
    (g : List CaptureRecord) (n total : ℕ)
    → n + length g ≡ total
    → write_group g WriteOutcome.returned (stored_tally n) ≡ stored_tally total
unfolding write_group
write_group-returned [] n total e = ap stored_tally (omega (arith, e))
write_group-returned (r ∷ rs) n total e = ap stored_tally e

tally_batch-returned :
    (batch : List CaptureRecord)
    → tally_batch WriteOutcome.returned all_returned batch ≡ stored_tally (length batch)
unfolding tally_batch write_groups
tally_batch-returned batch =
    let a = filter is_futures batch in
    let b = filter is_chainlink batch in
    let c = filter is_feed_session batch in
    rw
      (
        write_group-returned a 0 (length a) (omega arith),
        write_group-returned b (length a) (length a + length b) refl,
        write_group-returned c (length a + length b) (length batch) (length-groups batch),
      )
      refl

-- A batch whose calls all return is stored.
pub write_batch-returned :
    (batch : List CaptureRecord) (c : CaptureCounters)
    → length batch ≤ postgres_bigint_max
    → (counted : CaptureCounters) × (write_batch all_returned (pos 0) batch c ≡ ok (false, counted))
      × (counted.records_persisted_total ≡ c.records_persisted_total + length batch)
      × (counted.records_dropped_total ≡ c.records_dropped_total)
unfolding write_batch settle_tally note_failed
write_batch-returned batch c small =
    let counted = record c {
      last_batch_rows = length batch;
      last_batch_duration_ns = pos 0;
      records_persisted_total = c.records_persisted_total + length batch;
      records_dropped_total = c.records_dropped_total + 0;
    } in
    (
      counted,
      rw
          (
            tally_batch-returned batch,
            record_batch_result_lem (length batch) (length batch) 0 false (pos 0) c (omega arith)
                small refl,
          )
          refl,
      refl,
      omega arith,
    )

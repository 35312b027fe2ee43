-- ===== src/Capture/Runtime/Steps/Keeps.antt =====
-- What each function of the runtime of price_collector/raw_capture.py keeps: the balance of its
-- records, the bounds of its queue and of the batch in hand, and what a stop and a suspension mean.
use pythonbtccollector.Common.{
  ℕ, ◌+◌, ◌≡◌, ◌≤◌, ◌<◌, refl, Bool, true, false, List, [], length, arith,
}
use pythonbtccollector.Common.Result.{ok}
use pythonbtccollector.Capture.Checks.{Checked}
use pythonbtccollector.Capture.Counters.{CaptureCounters, record_maintenance, record_storage_state}
use pythonbtccollector.Capture.Counters.Totals.{record_dropped_lem}
use pythonbtccollector.Capture.Buffer.{signal}
use pythonbtccollector.Capture.Batch.{
  CaptureRecord, Maintained, maintenance_failed, maintained, note_maintenance,
}
use pythonbtccollector.Capture.Runtime.{
  RawCaptureRuntime, Writer, taking, holding, deciding_batch, discard_counted, run_maintenance,
}
use pythonbtccollector.Capture.Types.{postgres_bigint_max}

-- The records of the batch that the writer holds.
unfoldable pub in_hand : Writer → List CaptureRecord
in_hand (taking batch) = batch
in_hand (holding batch) = batch
in_hand (deciding_batch batch) = batch
in_hand _ = []

-- A batch is never longer than batch_max_rows, and none is held that is empty.
unfoldable pub IsHand : ℕ → Writer → Type 0
IsHand rows (taking batch) = length batch < rows
IsHand rows (holding batch) = (0 < length batch) × (length batch ≤ rows)
IsHand rows (deciding_batch batch) = (0 < length batch) × (length batch ≤ rows)
IsHand rows _ = Unit

-- The configuration, which stays.
pub record IsFixed (queue rows capacity limit : ℕ) : Type 0 where
  pub full_size : capacity ≡ queue
  pub full_batch : limit ≡ rows
  pub some_rows : 0 < rows
  pub rows_fit : rows ≤ queue
  pub storable : queue ≤ postgres_bigint_max

pub record IsBalanced (queue rows brought persisted dropped mark capacity depth high limit hand : ℕ)
    (stopped accepting permitted accounted : Bool) : Type 0 where
  pub fixed : IsFixed queue rows capacity limit
  pub balance : brought ≡ persisted + dropped + depth + hand
  pub short : depth ≤ queue
  pub below_mark : depth ≤ high
  pub mark_short : high ≤ queue
  pub same_mark : mark ≡ high
  pub hand_short : hand ≤ rows
  pub gate : stopped ≡ true → accepting ≡ false
  pub quiet : permitted ≡ false → depth ≡ 0
  pub settled : accounted ≡ true → (depth ≡ 0) × (accepting ≡ false)

-- The invariant, of a runtime whose writer stands at `w`.
abbrev pub IsSound : ℕ → ℕ → ℕ → Writer → RawCaptureRuntime → Type 0
IsSound queue rows n w r =
    IsBalanced queue rows n r.counters.records_persisted_total r.counters.records_dropped_total
      r.counters.queue_high_water r.buffer.max_events (length r.buffer.items) r.buffer.high_water
      r.batch_max_rows (length (in_hand w)) r.stop_requested r.accepting_offers r.storage_permitted
      r.shutdown_buffer_accounted
    × IsHand rows w

unfoldable pub discarded : RawCaptureRuntime → RawCaptureRuntime
unfolding signal
discarded r = record r {
  buffer = record r.buffer { items = []; available = signal false r.buffer.available };
  counters = record r.counters {
    records_dropped_total = r.counters.records_dropped_total + length r.buffer.items;
  };
}

pub discard_counted_lem :
    (r : RawCaptureRuntime)
    → length r.buffer.items ≤ postgres_bigint_max
    → discard_counted r ≡ ok (discarded r)
unfolding discard_counted discarded
discard_counted_lem r h = rw (record_dropped_lem (length r.buffer.items) r.counters h) refl

module _ (queue rows n : ℕ) where
  -- The call returns a sound runtime, whose writer stands at `v`, counted as if it stood at `w`.
  abbrev pub ReturnsSound : Writer → Writer → Checked RawCaptureRuntime → Type 0
  ReturnsSound v w m =
      (r : RawCaptureRuntime) × (m ≡ ok r) × (r.writer ≡ v) × IsSound queue rows n w r

  pub discarded-IsSound :
      (w : Writer) (r : RawCaptureRuntime)
      → IsSound queue rows n w r
      → IsSound queue rows n w (discarded r)
  unfolding discarded
  discarded-IsSound w r (h, k) = (
    record {
      fixed = h.fixed;
      balance = omega (arith, h.balance);
      short = omega arith;
      below_mark = omega arith;
      mark_short = h.mark_short;
      same_mark = h.same_mark;
      hand_short = h.hand_short;
      gate = h.gate;
      quiet = λ e. refl;
      settled = λ e. (refl, (h.settled e).1);
    },
    k,
  )

  pub discard_counted-keeps :
      (w : Writer) (r : RawCaptureRuntime)
      → IsSound queue rows n w r
      → ReturnsSound r.writer w (discard_counted r)
  unfolding discarded
  discard_counted-keeps w r (h, k) = (
    discarded r,
    discard_counted_lem r (omega (arith, h.short, h.fixed.storable)),
    refl,
    discarded-IsSound w r (h, k),
  )

  -- Storage is no longer permitted, once the buffer is discarded.
  suspended-IsSound :
      (w : Writer) (r : RawCaptureRuntime) (c : CaptureCounters)
      → c.records_persisted_total ≡ r.counters.records_persisted_total
      → c.records_dropped_total ≡ r.counters.records_dropped_total
      → c.queue_high_water ≡ r.counters.queue_high_water
      → IsSound queue rows n w r
      → ReturnsSound r.writer w
          (discard_counted (record r { storage_permitted = false; counters = c }))
  unfolding discarded
  suspended-IsSound w r c p d m (h, k) = (
    discarded (record r { storage_permitted = false; counters = c }),
    discard_counted_lem (record r { storage_permitted = false; counters = c })
        (omega (arith, h.short, h.fixed.storable)),
    refl,
    (
      record {
        fixed = h.fixed;
        balance = omega (arith, h.balance, p, d);
        short = omega arith;
        below_mark = omega arith;
        mark_short = h.mark_short;
        same_mark = omega (arith, h.same_mark, m);
        hand_short = h.hand_short;
        gate = h.gate;
        quiet = λ e. refl;
        settled = λ e. (refl, (h.settled e).1);
      },
      k,
    ),
  )

  pub run_maintenance-keeps :
      (answer : Maintained) (w : Writer) (r : RawCaptureRuntime)
      → IsSound queue rows n w r
      → ReturnsSound r.writer w (run_maintenance answer r)
  unfolding run_maintenance note_maintenance record_maintenance record_storage_state
  run_maintenance-keeps maintenance_failed w r h = suspended-IsSound w r _ refl refl refl h
  run_maintenance-keeps (maintained false partition bytes) w r h =
      suspended-IsSound w r _ refl refl refl h
  run_maintenance-keeps (maintained true partition bytes) w r (h, k) = (
    _,
    refl,
    refl,
    (
      record {
        fixed = h.fixed;
        balance = h.balance;
        short = h.short;
        below_mark = h.below_mark;
        mark_short = h.mark_short;
        same_mark = h.same_mark;
        hand_short = h.hand_short;
        gate = h.gate;
        quiet = λ e. absurd (ground (arith, e));
        settled = h.settled;
      },
      k,
    ),
  )

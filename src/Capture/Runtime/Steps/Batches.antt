-- ===== src/Capture/Runtime/Steps/Batches.antt =====
-- That the steps of the writer of price_collector/raw_capture.py keep what Keeps states: what it
-- takes from the queue is in its hand, and from its hand stored or dropped.
use pythonbtccollector.Common.{
  ℕ, ◌+◌, ◌-◌, ◌≡◌, ◌≤◌, ◌<◌, refl, Bool, true, Option, List, [], ◌∷◌, ◌++◌, leb, ◌&&◌, ◌||◌,
  if◌then◌else◌, if_elim, length, length-append, arith, Bool-cases, inl, inr, ap,
}
use pythonbtccollector.Common.Int.{ℤ, neg_part}
use pythonbtccollector.Common.Result.{ok}
use pythonbtccollector.Capture.Counters.{CaptureCounters}
use pythonbtccollector.Capture.Counters.Totals.{record_dropped_lem}
use pythonbtccollector.Capture.Buffer.{no_items, drain_loop, drain_nowait, after_drain}
use pythonbtccollector.Capture.Buffer.Bounds.{drain_loop-length, drain_loop-limit}
use pythonbtccollector.Capture.Batch.{CaptureRecord, Outcomes}
use pythonbtccollector.Capture.Batch.Rows.{every_row_counted_once}
use pythonbtccollector.Capture.Runtime.{
  RawCaptureRuntime, Writer, at_top, deciding, suspended, taking, deciding_batch, ended,
  decide_turn, resume_suspended, take_more, hold_batch, drop_batch, store_batch, move_to,
}
use pythonbtccollector.Capture.Runtime.Steps.Keeps.{
  IsSound, IsHand, in_hand, ReturnsSound, discard_counted-keeps,
}

module _ (queue rows n : ℕ) where
  -- The writer moves on, with as many records in its hand.
  pub moved-IsSound :
      (w w' : Writer) (r : RawCaptureRuntime)
      → length (in_hand w) ≡ length (in_hand w')
      → IsHand rows w'
      → IsSound queue rows n w r
      → IsSound queue rows n w' (move_to w' r)
  moved-IsSound w w' r e k' (h, k) = (
    record {
      fixed = h.fixed;
      balance = omega (arith, h.balance, e);
      short = h.short;
      below_mark = h.below_mark;
      mark_short = h.mark_short;
      same_mark = h.same_mark;
      hand_short = omega (arith, h.hand_short, e);
      gate = h.gate;
      quiet = h.quiet;
      settled = h.settled;
    },
    k',
  )

  -- The writer with a batch that it stops taking.
  pub hold_batch-IsHand :
      (batch : List CaptureRecord)
      → length batch ≤ rows
      → IsHand rows (hold_batch batch) × (in_hand (hold_batch batch) ≡ batch)
  unfolding hold_batch IsHand in_hand
  hold_batch-IsHand [] h = (tt, refl)
  hold_batch-IsHand (x ∷ batch) h = ((omega arith, h), refl)

  pub decide_turn-IsSound :
      (r : RawCaptureRuntime)
      → IsSound queue rows n deciding r
      → IsSound queue rows n (decide_turn r).writer (decide_turn r)
  unfolding decide_turn IsHand in_hand
  decide_turn-IsSound r h =
      if_elim (λ (s : RawCaptureRuntime). IsSound queue rows n s.writer s)
        (r.stop_requested && no_items r.buffer.items)
        (λ e. moved-IsSound deciding ended r refl tt h)
        (λ e.
          if_elim (λ (s : RawCaptureRuntime). IsSound queue rows n s.writer s) r.storage_permitted
            (λ p. moved-IsSound deciding (taking []) r refl h.0.fixed.some_rows h)
            (λ p. moved-IsSound deciding suspended r refl tt h))

  pub resume_suspended-keeps :
      (r : RawCaptureRuntime)
      → IsSound queue rows n suspended r
      → ReturnsSound queue rows n at_top at_top (resume_suspended r)
  unfolding resume_suspended IsHand in_hand
  resume_suspended-keeps r h = elim (Bool-cases (no_items r.buffer.items)) [
    | inl e ↦ (move_to at_top r, rw e refl, refl, moved-IsSound suspended at_top r refl tt h)
    | inr e ↦
        let (s, q, at, k) = discard_counted-keeps queue rows n suspended r h in
        (move_to at_top s, rw (e, q) refl, refl, moved-IsSound suspended at_top s refl tt k)
  ]

  -- A batch in hand that is dropped.
  pub drop_batch-keeps :
      (w w' : Writer) (r : RawCaptureRuntime)
      → in_hand w' ≡ []
      → IsHand rows w'
      → IsSound queue rows n w r
      → ReturnsSound queue rows n w' w' (drop_batch w' (in_hand w) r)
  unfolding drop_batch
  drop_batch-keeps w w' r e k' (h, k) =
      let batch = in_hand w in
      let none_left : (length (in_hand w') ≡ 0) = rw e refl in
      (
        record r {
          counters = record r.counters {
            records_dropped_total = r.counters.records_dropped_total + length batch;
          };
          writer = w';
        },
        rw
            (record_dropped_lem (length batch) r.counters
              (omega (arith, h.hand_short, h.fixed.rows_fit, h.fixed.storable)))
            refl,
        refl,
        (
          record {
            fixed = h.fixed;
            balance = omega (arith, h.balance, none_left);
            short = h.short;
            below_mark = h.below_mark;
            mark_short = h.mark_short;
            same_mark = h.same_mark;
            hand_short = omega (arith, none_left);
            gate = h.gate;
            quiet = h.quiet;
            settled = h.settled;
          },
          k',
        ),
      )

  -- The counters after a batch that is out of the writer's hand.
  counted-IsSound :
      (batch : List CaptureRecord) (w : Writer) (r : RawCaptureRuntime) (v : Writer)
      (c : CaptureCounters)
      → length (in_hand w) ≡ 0
      → IsHand rows w
      → c.records_persisted_total + c.records_dropped_total
        ≡ r.counters.records_persisted_total + r.counters.records_dropped_total + length batch
      → c.queue_high_water ≡ r.counters.queue_high_water
      → IsSound queue rows n (deciding_batch batch) r
      → IsSound queue rows n w (record r { counters = c; writer = v })
  unfolding in_hand
  counted-IsSound batch w r v c q l balance mark (h, k) = (
    record {
      fixed = h.fixed;
      balance = omega (arith, h.balance, balance, q);
      short = h.short;
      below_mark = h.below_mark;
      mark_short = h.mark_short;
      same_mark = omega (arith, h.same_mark, mark);
      hand_short = omega (arith, q);
      gate = h.gate;
      quiet = h.quiet;
      settled = h.settled;
    },
    l,
  )

  pub store_batch-keeps :
      (o : Outcomes) (duration : ℤ) (batch : List CaptureRecord) (r : RawCaptureRuntime)
      → neg_part duration ≡ 0
      → IsSound queue rows n (deciding_batch batch) r
      → (s : RawCaptureRuntime) × (store_batch o duration batch r ≡ ok s)
        × IsSound queue rows n s.writer s
        × (r.counters.records_persisted_total ≤ s.counters.records_persisted_total)
  unfolding store_batch IsHand in_hand
  store_batch-keeps o duration batch r nonnegative (h, k) =
      let (is_cancelled, counted, e, (balance, stored, dropped, mark)) =
        every_row_counted_once o duration batch r.counters
          (omega (arith, h.hand_short, h.fixed.rows_fit, h.fixed.storable)) nonnegative in
      let next = record r { counters = counted; writer = if is_cancelled then ended else at_top } in
      (
        next,
        rw e refl,
        if_elim (λ w. IsSound queue rows n w next) is_cancelled
            (λ e. counted-IsSound batch ended r next.writer counted refl tt balance mark (h, k))
            (λ e. counted-IsSound batch at_top r next.writer counted refl tt balance mark (h, k)),
        stored,
      )

  -- Records from the queue that are in the writer's hand.
  taken-IsSound :
      (batch drained rest : List CaptureRecord) (w v : Writer) (available : Option Bool)
      (r : RawCaptureRuntime)
      → in_hand w ≡ batch ++ drained
      → length drained + length rest ≡ length r.buffer.items
      → length (batch ++ drained) ≤ rows
      → IsHand rows w
      → IsSound queue rows n (taking batch) r
      → IsSound queue rows n w (record r {
        buffer = record r.buffer { items = rest; available = available };
        writer = v;
      })
  unfolding in_hand
  taken-IsSound batch drained rest w v available r e sizes bound l (h, k) =
      let size = length-append batch drained in
      let hand : (length (in_hand w) ≡ length (batch ++ drained)) = ap length e in
      (
        record {
          fixed = h.fixed;
          balance = omega (arith, h.balance, size, sizes, hand);
          short = omega (arith, h.short, sizes);
          below_mark = omega (arith, h.below_mark, sizes);
          mark_short = h.mark_short;
          same_mark = h.same_mark;
          hand_short = omega (arith, hand, bound);
          gate = h.gate;
          quiet = λ p. omega (arith, h.quiet p, sizes);
          settled = λ p. (omega (arith, (h.settled p).0, sizes), (h.settled p).1);
        },
        l,
      )

  positive : (limit size : ℕ) → size < limit → leb 1 (limit - size) ≡ true
  positive limit size h = ground (arith, h)

  -- One pass of the loop of `_take_batch` moves records from the queue into the hand.
  pub take_more-keeps :
      (batch : List CaptureRecord) (r : RawCaptureRuntime)
      → IsSound queue rows n (taking batch) r
      → (s : RawCaptureRuntime) × (take_more batch r ≡ ok s)
        × IsSound queue rows n s.writer s
        × (length s.buffer.items
              + length (drain_loop (r.batch_max_rows - length batch) r.buffer.items).0
            ≡ length r.buffer.items)
  unfolding take_more drain_nowait in_hand IsHand
  take_more-keeps batch r (h, k) =
      let limit = r.batch_max_rows - length batch in
      let drained = (drain_loop limit r.buffer.items).0 in
      let rest = (drain_loop limit r.buffer.items).1 in
      let taken = batch ++ drained in
      let sizes = drain_loop-length limit r.buffer.items in
      let size = length-append batch drained in
      let bound = drain_loop-limit limit r.buffer.items in
      let full = leb r.batch_max_rows (length taken) || r.stop_requested in
      let next = record r {
        buffer = record r.buffer { items = rest; available = after_drain rest r.buffer.available };
        writer = if full then hold_batch taken else taking taken;
      } in
      let fits : (length taken ≤ rows) = omega (arith, size, bound, h.fixed.full_batch, k) in
      let (hand, held) = hold_batch-IsHand taken fits in
      (
        next,
        rw (positive r.batch_max_rows (length batch) (omega (arith, h.fixed.full_batch, k))) refl,
        if_elim (λ w. IsSound queue rows n w next) full
            (λ e.
              taken-IsSound batch drained rest (hold_batch taken) next.writer next.buffer.available
                r held sizes fits hand (h, k))
            (λ e.
              taken-IsSound batch drained rest (taking taken) next.writer next.buffer.available r
                refl sizes fits (ground (arith, e, h.fixed.full_batch)) (h, k)),
        omega (arith, sizes),
      )

-- ===== src/Capture/Runtime/Steps/Accounts.antt =====
-- The balance of the records of a runtime of price_collector/raw_capture.py, in every state that its
-- tasks can bring it to.
use pythonbtccollector.Common.{
  ℕ, ◌+◌, ◌≡◌, ◌≤◌, ◌<◌, refl, true, false, none, [], length, arith, subst, sym, ◌∙◌, ap,
}
use pythonbtccollector.Common.Result.{ok, ok_inj}
use pythonbtccollector.Capture.Checks.{Checked, require_all, require_int}
use pythonbtccollector.Capture.Counters.{new_counters}
use pythonbtccollector.Capture.Counters.Totals.{record_dropped_lem}
use pythonbtccollector.Capture.Buffer.{OfferResult, new_buffer}
use pythonbtccollector.Capture.Batch.{CaptureRecord, Maintained}
use pythonbtccollector.Capture.Runtime.{
  RawCaptureRuntime, Writer, not_started, at_top, deciding, suspended, taking, holding,
  deciding_batch, ended, new_runtime, refuse_record, offer_record, request_stop, run_maintenance,
  hold_batch, move_to,
}
use pythonbtccollector.Capture.Types.{postgres_bigint_max}
use pythonbtccollector.Capture.Runtime.Steps.Keeps.{
  IsSound, IsHand, in_hand, ReturnsSound, run_maintenance-keeps,
}
use pythonbtccollector.Capture.Runtime.Steps.Offers.{
  dropped-IsSound, offer_record-keeps, discard_once-keeps, request_stop-IsSound,
}
use pythonbtccollector.Capture.Runtime.Steps.Batches.{
  moved-IsSound, hold_batch-IsHand, decide_turn-IsSound, resume_suspended-keeps, drop_batch-keeps,
  store_batch-keeps, take_more-keeps,
}
use pythonbtccollector.Capture.Runtime.Steps.{
  WriterStep, maintains, skips_maintenance, decides, resumes, takes, stops_taking,
  maintains_holding, keeps_holding, drops_suspended, stores, Cancellation, cancels_top,
  cancels_suspended, cancels_taking, cancels_holding, Step, offers, drops_trade, starts, stops,
  discards, writes, cancels, Reach, begins, goes,
}

module _ (queue rows : ℕ) where
  abbrev new_state : RawCaptureRuntime
  new_state = record {
    counters = new_counters;
    buffer = record { items = []; max_events = queue; high_water = 0; available = none };
    batch_max_rows = rows;
    writer = not_started;
    stop_requested = false;
    accepting_offers = true;
    storage_permitted = true;
    shutdown_buffer_accounted = false;
  }

  -- The configurations that are accepted, and the state they begin in.
  pub configured :
      (r : RawCaptureRuntime)
      → new_runtime queue rows new_counters ≡ ok r
      → ((0 < rows) × (rows ≤ queue) × (queue ≤ postgres_bigint_max)) × (new_state ≡ r)
  unfolding new_runtime new_buffer require_all require_int
  configured r h =
      let small : ((0 < rows) × (rows ≤ queue) × (queue ≤ postgres_bigint_max)) =
        ground (arith, h) in
      let made : (new_runtime queue rows new_counters ≡ ok new_state) = ground (arith, small) in
      (small, ok_inj (sym made ∙ h))

  begins-IsSound :
      (r : RawCaptureRuntime)
      → new_runtime queue rows new_counters ≡ ok r
      → IsSound queue rows 0 r.writer r
  unfolding new_counters in_hand IsHand
  begins-IsSound r h =
      let ((some_rows, rows_fit, storable), e) = configured r h in
      subst (λ (k : RawCaptureRuntime). IsSound queue rows 0 k.writer k) e
        (
          record {
            fixed = record {
              full_size = refl;
              full_batch = refl;
              some_rows = some_rows;
              rows_fit = rows_fit;
              storable = storable;
            };
            balance = refl;
            short = omega arith;
            below_mark = omega arith;
            mark_short = omega arith;
            same_mark = refl;
            hand_short = omega arith;
            gate = λ e. absurd (ground (arith, e));
            quiet = λ e. refl;
            settled = λ e. absurd (ground (arith, e));
          },
          tt,
        )

  module _ (n : ℕ) where
    -- The runtime that a call returned is the one that the call is known to return.
    kept :
        (v w : Writer) {m : Checked RawCaptureRuntime} {r : RawCaptureRuntime}
        → ReturnsSound queue rows n v w m
        → m ≡ ok r
        → (r.writer ≡ v) × IsSound queue rows n w r
    kept v w {m} {r} (s, e, at, h) e' =
        subst (λ (k : RawCaptureRuntime). (k.writer ≡ v) × IsSound queue rows n w k)
          (ok_inj (sym e ∙ e')) (at, h)

    -- A runtime whose writer stands where it is counted.
    at_writer :
        (w : Writer) (r : RawCaptureRuntime)
        → (r.writer ≡ w) × IsSound queue rows n w r
        → IsSound queue rows n r.writer r
    at_writer w r (at, h) = subst (λ k. IsSound queue rows n k r) (sym at) h

    as_at :
        (w : Writer) (r : RawCaptureRuntime)
        → r.writer ≡ w
        → IsSound queue rows n r.writer r
        → IsSound queue rows n w r
    as_at w r at h = subst (λ k. IsSound queue rows n k r) at h

    WriterStep-IsSound :
        {r r' : RawCaptureRuntime}
        → WriterStep r r'
        → IsSound queue rows n r.writer r
        → IsSound queue rows n r'.writer r'
    unfolding in_hand IsHand
    WriterStep-IsSound {r} (maintains {r' = s} answer at e) h =
        moved-IsSound queue rows n at_top deciding s refl tt
          (kept r.writer at_top
            (run_maintenance-keeps queue rows n answer at_top r (as_at at_top r at h)) e).1
    WriterStep-IsSound {r} (skips_maintenance at) h =
        moved-IsSound queue rows n at_top deciding r refl tt (as_at at_top r at h)
    WriterStep-IsSound {r} (decides at) h =
        decide_turn-IsSound queue rows n r (as_at deciding r at h)
    WriterStep-IsSound {r} {r'} (resumes at e) h =
        at_writer at_top r'
          (kept at_top at_top (resume_suspended-keeps queue rows n r (as_at suspended r at h)) e)
    WriterStep-IsSound {r} {r'} (takes {batch = batch} at some_item e) h =
        let (s, q, k, size) = take_more-keeps queue rows n batch r (as_at (taking batch) r at h) in
        subst (λ (t : RawCaptureRuntime). IsSound queue rows n t.writer t) (ok_inj (sym q ∙ e)) k
    WriterStep-IsSound {r} (stops_taking {batch = batch} at) h =
        let held = as_at (taking batch) r at h in
        let (hand, same) = hold_batch-IsHand queue rows n batch held.0.hand_short in
        moved-IsSound queue rows n (taking batch) (hold_batch batch) r (ap length (sym same)) hand
          held
    WriterStep-IsSound {r} (maintains_holding {r' = s} {batch = batch} answer at e) h =
        let held = as_at (holding batch) r at h in
        moved-IsSound queue rows n (holding batch) (deciding_batch batch) s refl held.1
          (kept r.writer (holding batch)
            (run_maintenance-keeps queue rows n answer (holding batch) r held) e).1
    WriterStep-IsSound {r} (keeps_holding {batch = batch} at) h =
        let held = as_at (holding batch) r at h in
        moved-IsSound queue rows n (holding batch) (deciding_batch batch) r refl held.1 held
    WriterStep-IsSound {r} {r'} (drops_suspended {batch = batch} at off e) h = at_writer at_top r' (
        kept at_top at_top
          (drop_batch-keeps queue rows n (deciding_batch batch) at_top r refl tt
            (as_at (deciding_batch batch) r at h))
          e)
    WriterStep-IsSound {r} {r'} (stores {batch = batch} o duration nonnegative at on e) h =
        let (s, q, k, grows) =
          store_batch-keeps queue rows n o duration batch r nonnegative
            (as_at (deciding_batch batch) r at h) in
        subst (λ (t : RawCaptureRuntime). IsSound queue rows n t.writer t) (ok_inj (sym q ∙ e)) k

    Cancellation-IsSound :
        {r r' : RawCaptureRuntime}
        → Cancellation r r'
        → IsSound queue rows n r.writer r
        → IsSound queue rows n r'.writer r'
    unfolding in_hand IsHand
    Cancellation-IsSound {r} (cancels_top at) h =
        moved-IsSound queue rows n at_top ended r refl tt (as_at at_top r at h)
    Cancellation-IsSound {r} (cancels_suspended at) h =
        moved-IsSound queue rows n suspended ended r refl tt (as_at suspended r at h)
    Cancellation-IsSound {r} {r'} (cancels_taking {batch = batch} at e) h = at_writer ended r' (
        kept ended ended
          (drop_batch-keeps queue rows n (taking batch) ended r refl tt
            (as_at (taking batch) r at h))
          e)
    Cancellation-IsSound {r} {r'} (cancels_holding {batch = batch} at e) h = at_writer ended r' (
        kept ended ended
          (drop_batch-keeps queue rows n (holding batch) ended r refl tt
            (as_at (holding batch) r at h))
          e)

  -- One more record, and none.
  one_more :
      (n : ℕ) (w : Writer) (r : RawCaptureRuntime)
      → IsSound queue rows n w r
      → IsSound queue rows (n + 0) w r
  one_more n w r h = subst (λ k. IsSound queue rows k w r) (omega arith) h

  Step-IsSound :
      (n : ℕ) {m : ℕ} {r r' : RawCaptureRuntime}
      → Step r m r'
      → IsSound queue rows n r.writer r
      → IsSound queue rows (n + m) r'.writer r'
  unfolding in_hand IsHand request_stop
  Step-IsSound n {r = r} {r'} (offers x e) h =
      let (result, s, q, at, k) = offer_record-keeps queue rows n x r.writer r h in
      at_writer (n + 1) r.writer r' (
        subst
          (λ (t : OfferResult CaptureRecord × RawCaptureRuntime).
            (t.1.writer ≡ r.writer) × IsSound queue rows (n + 1) r.writer t.1)
          (ok_inj (sym q ∙ e)) (at, k))
  Step-IsSound n {r = r} (drops_trade e) h =
      subst (λ c. IsSound queue rows (n + 1) r.writer (record r { counters = c }))
        (ok_inj (sym (record_dropped_lem 1 r.counters (omega arith)) ∙ e))
        (dropped-IsSound queue rows n r.writer r h)
  Step-IsSound n {r = r} (starts going at) h =
      one_more n at_top (move_to at_top r)
        (moved-IsSound queue rows n not_started at_top r refl tt (as_at n not_started r at h))
  Step-IsSound n {r = r} stops h =
      one_more n (request_stop r).writer (request_stop r)
        (at_writer n r.writer (request_stop r) (request_stop-IsSound queue rows n r.writer r h))
  Step-IsSound n {r = r} {r'} (discards stopped e) h = one_more n r'.writer r' (
      at_writer n r.writer r'
        (kept n r.writer r.writer (discard_once-keeps queue rows n r.writer r stopped h) e))
  Step-IsSound n {r' = r'} (writes s) h = one_more n r'.writer r' (WriterStep-IsSound n s h)
  Step-IsSound n {r' = r'} (cancels s) h = one_more n r'.writer r' (Cancellation-IsSound n s h)

  pub Reach-IsSound :
      {n : ℕ} {r : RawCaptureRuntime} → Reach queue rows n r → IsSound queue rows n r.writer r
  Reach-IsSound {r = r} (begins e) = begins-IsSound r e
  Reach-IsSound (goes {n = n} reached s) = Step-IsSound n s (Reach-IsSound reached)

  -- In every state that offers, dropped trades, `close`, cancellations and the writer bring a runtime
  -- to, the records it was brought are the stored ones, the dropped ones, those of the queue and
  -- those of the batch in the writer's hand; the queue holds at most its maximum, the batch at most
  -- batch_max_rows, and the high-water mark of the counters lies between the depth and the maximum.
  pub no_record_lost :
      {n : ℕ} {r : RawCaptureRuntime}
      → Reach queue rows n r
      → (n
          ≡ r.counters.records_persisted_total
            + r.counters.records_dropped_total
            + length r.buffer.items
            + length (in_hand r.writer))
        × (length r.buffer.items ≤ queue)
        × (length (in_hand r.writer) ≤ rows)
        × (length r.buffer.items ≤ r.counters.queue_high_water)
        × (r.counters.queue_high_water ≤ queue)
  no_record_lost {n} {r} reached =
      let (h, k) = Reach-IsSound reached in
      (
        h.balance,
        h.short,
        h.hand_short,
        omega (arith, h.below_mark, h.same_mark),
        omega (arith, h.mark_short, h.same_mark),
      )

  -- In every state a runtime can come to, offering a record raises nothing, and neither does
  -- maintenance, whatever the backend answers.
  pub nothing_raised :
      {n : ℕ} {r : RawCaptureRuntime}
      → Reach queue rows n r
      → ((x : CaptureRecord)
          → (result : OfferResult CaptureRecord) × (s : RawCaptureRuntime) × (offer_record x r
              ≡ ok (result, s)))
        × ((answer : Maintained) → (s : RawCaptureRuntime) × (run_maintenance answer r ≡ ok s))
  nothing_raised {n} {r} reached =
      let h = Reach-IsSound reached in
      (
        λ x. let k = offer_record-keeps queue rows n x r.writer r h in (k.0, k.1, k.2),
        λ answer. let k = run_maintenance-keeps queue rows n answer r.writer r h in (k.0, k.1),
      )

  -- When the writer has ended and the buffer is accounted for, every record that the runtime was
  -- brought is stored or counted as dropped, and a record that is offered now is refused.
  pub closed_runtime_settled :
      {n : ℕ} {r : RawCaptureRuntime}
      → Reach queue rows n r
      → r.writer ≡ ended
      → r.shutdown_buffer_accounted ≡ true
      → (n ≡ r.counters.records_persisted_total + r.counters.records_dropped_total)
        × ((x : CaptureRecord) → offer_record x r ≡ refuse_record r)
  unfolding offer_record in_hand
  closed_runtime_settled {n} {r} reached at accounted =
      let (h, k) = as_at n ended r at (Reach-IsSound reached) in
      let (empty, closed) = h.settled accounted in
      (omega (arith, h.balance, empty), λ x. rw closed refl)

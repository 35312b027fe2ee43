-- ===== src/Capture/Runtime/Steps/Offers.antt =====
-- That offers, `close` and the discarding after it keep what Keeps states of the runtime of
-- price_collector/raw_capture.py.
use pythonbtccollector.Common.{
  ℕ, ◌+◌, ◌≡◌, refl, true, false, not, none, ◌||◌, if_elim, length, arith, ap,
}
use pythonbtccollector.Common.Result.{ok, ◌>>=◌}
use pythonbtccollector.Capture.Checks.{Checked}
use pythonbtccollector.Capture.Buffer.{OfferResult, wake}
use pythonbtccollector.Capture.Buffer.Bounds.{offer_result-ok, push_nowait-ok}
use pythonbtccollector.Capture.Batch.{CaptureRecord}
use pythonbtccollector.Capture.Runtime.{
  RawCaptureRuntime, Writer, refuse_record, push_record, offer_record, discard_counted,
  discard_once, request_stop,
}
use pythonbtccollector.Capture.Runtime.Steps.Keeps.{
  IsSound, ReturnsSound, discarded, discard_counted_lem, discarded-IsSound,
}

module _ (queue rows n : ℕ) where
  -- A brought record is counted once, whatever is done with it.
  abbrev pub Accepts :
      Writer → Writer → Checked (OfferResult CaptureRecord × RawCaptureRuntime) → Type 0
  Accepts v w m =
      (result : OfferResult CaptureRecord) × (r : RawCaptureRuntime) × (m ≡ ok (result, r))
      × (r.writer ≡ v)
      × IsSound queue rows (n + 1) w r

  -- One more dropped record.
  pub dropped-IsSound :
      (w : Writer) (r : RawCaptureRuntime)
      → IsSound queue rows n w r
      → IsSound queue rows (n + 1) w (record r {
        counters = record r.counters {
          records_dropped_total = r.counters.records_dropped_total + 1;
        };
      })
  dropped-IsSound w r (h, k) = (
    record {
      fixed = h.fixed;
      balance = omega (arith, h.balance);
      short = h.short;
      below_mark = h.below_mark;
      mark_short = h.mark_short;
      same_mark = h.same_mark;
      hand_short = h.hand_short;
      gate = h.gate;
      quiet = h.quiet;
      settled = h.settled;
    },
    k,
  )

  refuse_record-keeps :
      (w : Writer) (r : RawCaptureRuntime)
      → IsSound queue rows n w r
      → Accepts r.writer w (refuse_record r)
  unfolding refuse_record
  refuse_record-keeps w r (h, k) =
      let result : OfferResult CaptureRecord = record {
        accepted = false;
        dropped_oldest = false;
        dropped_record = none;
        queue_depth = length r.buffer.items;
        queue_high_water = r.buffer.high_water;
      } in
      let counted = record r.counters {
        records_dropped_total = r.counters.records_dropped_total + 1;
      } in
      (
        result,
        record r { counters = counted },
        rw (offer_result-ok result h.below_mark (omega (arith, h.mark_short, h.fixed.storable)))
            refl,
        refl,
        dropped-IsSound w r (h, k),
      )

  push_record-keeps :
      (x : CaptureRecord) (w : Writer) (r : RawCaptureRuntime)
      → r.accepting_offers ≡ true
      → r.storage_permitted ≡ true
      → IsSound queue rows n w r
      → Accepts r.writer w (push_record x r)
  unfolding push_record
  push_record-keeps x w r accepting permitted (h, k) =
      let (result, next, counted, e, bounded, size, mark, count, balance, same, oldest, depth) =
        push_nowait-ok x r.buffer r.counters (
          omega (arith, h.fixed.full_size, h.fixed.some_rows, h.fixed.rows_fit),
          omega (arith, h.fixed.full_size, h.fixed.storable),
          omega (arith, h.fixed.full_size, h.short),
          h.below_mark,
          omega (arith, h.fixed.full_size, h.mark_short),
        ) in
      (
        result,
        record r { buffer = next; counters = counted },
        rw e refl,
        refl,
        (
          record {
            fixed = record {
              full_size = omega (arith, h.fixed.full_size, size);
              full_batch = h.fixed.full_batch;
              some_rows = h.fixed.some_rows;
              rows_fit = h.fixed.rows_fit;
              storable = h.fixed.storable;
            };
            balance = omega (arith, h.balance, balance, count.2);
            short = omega (arith, bounded, size, h.fixed.full_size);
            below_mark = omega (arith, bounded);
            mark_short = omega (arith, bounded, size, h.fixed.full_size);
            same_mark = omega (arith, h.same_mark, mark, count.3);
            hand_short = h.hand_short;
            gate = h.gate;
            quiet = λ e. absurd (ground (arith, e, permitted));
            settled = λ e. absurd (ground (arith, (h.settled e).1, accepting));
          },
          k,
        ),
      )

  pub offer_record-keeps :
      (x : CaptureRecord) (w : Writer) (r : RawCaptureRuntime)
      → IsSound queue rows n w r
      → Accepts r.writer w (offer_record x r)
  unfolding offer_record
  offer_record-keeps x w r h =
      if_elim (Accepts r.writer w) (not r.accepting_offers || not r.storage_permitted)
        (λ e. refuse_record-keeps w r h)
        (λ e. push_record-keeps x w r (ground (arith, e)) (ground (arith, e)) h)

  pub discard_once-keeps :
      (w : Writer) (r : RawCaptureRuntime)
      → r.stop_requested ≡ true
      → IsSound queue rows n w r
      → ReturnsSound queue rows n r.writer w (discard_once r)
  unfolding discard_once discarded
  discard_once-keeps w r stopped (h, k) =
      let (g, l) = discarded-IsSound queue rows n w r (h, k) in
      let settled_by = record (discarded r) { shutdown_buffer_accounted = true } in
      let e : (discard_counted r ≡ ok (discarded r)) =
        discard_counted_lem r (omega (arith, h.short, h.fixed.storable)) in
      if_elim (ReturnsSound queue rows n r.writer w) r.shutdown_buffer_accounted
        (λ done. (r, refl, refl, (h, k)))
        (λ pending. (
          settled_by,
          ap
              (λ (m : Checked RawCaptureRuntime).
                m >>= λ (s : RawCaptureRuntime). ok (record s { shutdown_buffer_accounted = true }))
              e,
          refl,
          (
            record {
              fixed = g.fixed;
              balance = g.balance;
              short = g.short;
              below_mark = g.below_mark;
              mark_short = g.mark_short;
              same_mark = g.same_mark;
              hand_short = g.hand_short;
              gate = g.gate;
              quiet = g.quiet;
              settled = λ e. (refl, h.gate stopped);
            },
            l,
          ),
        ))

  pub request_stop-IsSound :
      (w : Writer) (r : RawCaptureRuntime)
      → IsSound queue rows n w r
      → ((request_stop r).writer ≡ r.writer) × IsSound queue rows n w (request_stop r)
  unfolding request_stop wake
  request_stop-IsSound w r (h, k) =
      if_elim (λ (s : RawCaptureRuntime). (s.writer ≡ r.writer) × IsSound queue rows n w s)
        r.stop_requested (λ e. (refl, (h, k)))
        (λ e. (
          refl,
          (
            record {
              fixed = h.fixed;
              balance = h.balance;
              short = h.short;
              below_mark = h.below_mark;
              mark_short = h.mark_short;
              same_mark = h.same_mark;
              hand_short = h.hand_short;
              gate = λ e. refl;
              quiet = h.quiet;
              settled = λ e. ((h.settled e).0, refl);
            },
            k,
          ),
        ))

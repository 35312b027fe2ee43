-- ===== src/Capture/Runtime/Steps.antt =====
-- What may happen to one RawCaptureRuntime of price_collector/raw_capture.py, one step of a task at
-- a time: offers, `close`, the end of the writer task, and the writer between its waits. The steps
-- allow every order that the event loop may choose, and every answer of the backend.
pub mod Keeps
pub mod Offers
pub mod Batches
pub mod Accounts
pub mod Progress
use pythonbtccollector.Common.{ℕ, ◌+◌, ◌≡◌, Bool, true, false, List, [], ◌∷◌}
use pythonbtccollector.Common.Int.{ℤ, neg_part}
use pythonbtccollector.Common.Result.{ok}
use pythonbtccollector.Capture.Counters.{CaptureCounters, new_counters, record_dropped}
use pythonbtccollector.Capture.Buffer.{no_items, OfferResult}
use pythonbtccollector.Capture.Batch.{CaptureRecord, Outcomes, Maintained}
use pythonbtccollector.Capture.Runtime.{
  RawCaptureRuntime, Writer, not_started, at_top, deciding, suspended, taking, holding,
  deciding_batch, ended, new_runtime, offer_record, discard_once, request_stop, run_maintenance,
  decide_turn, resume_suspended, take_more, hold_batch, drop_batch, store_batch, move_to,
}

-- The steps of the writer task.
pub data WriterStep : RawCaptureRuntime → RawCaptureRuntime → Type 0 where
  maintains :
      {r r' : RawCaptureRuntime} (answer : Maintained)
      → r.writer ≡ at_top
      → run_maintenance answer r ≡ ok r'
      → WriterStep r (move_to deciding r')
  skips_maintenance :
      {r : RawCaptureRuntime} → r.writer ≡ at_top → WriterStep r (move_to deciding r)
  decides : {r : RawCaptureRuntime} → r.writer ≡ deciding → WriterStep r (decide_turn r)
  resumes :
      {r r' : RawCaptureRuntime}
      → r.writer ≡ suspended
      → resume_suspended r ≡ ok r'
      → WriterStep r r'
  takes :
      {r r' : RawCaptureRuntime} {batch : List CaptureRecord}
      → r.writer ≡ taking batch
      → no_items r.buffer.items ≡ false
      → take_more batch r ≡ ok r'
      → WriterStep r r'
  stops_taking :
      {r : RawCaptureRuntime} {batch : List CaptureRecord}
      → r.writer ≡ taking batch
      → WriterStep r (move_to (hold_batch batch) r)
  maintains_holding :
      {r r' : RawCaptureRuntime} {batch : List CaptureRecord} (answer : Maintained)
      → r.writer ≡ holding batch
      → run_maintenance answer r ≡ ok r'
      → WriterStep r (move_to (deciding_batch batch) r')
  keeps_holding :
      {r : RawCaptureRuntime} {batch : List CaptureRecord}
      → r.writer ≡ holding batch
      → WriterStep r (move_to (deciding_batch batch) r)
  drops_suspended :
      {r r' : RawCaptureRuntime} {batch : List CaptureRecord}
      → r.writer ≡ deciding_batch batch
      → r.storage_permitted ≡ false
      → drop_batch at_top batch r ≡ ok r'
      → WriterStep r r'
  stores :
      {r r' : RawCaptureRuntime} {batch : List CaptureRecord} (o : Outcomes) (duration : ℤ)
      → neg_part duration ≡ 0
      → r.writer ≡ deciding_batch batch
      → r.storage_permitted ≡ true
      → store_batch o duration batch r ≡ ok r'
      → WriterStep r r'

-- The cancellation of the writer task at a wait outside of `_write_batch`.
pub data Cancellation : RawCaptureRuntime → RawCaptureRuntime → Type 0 where
  cancels_top : {r : RawCaptureRuntime} → r.writer ≡ at_top → Cancellation r (move_to ended r)
  cancels_suspended :
      {r : RawCaptureRuntime} → r.writer ≡ suspended → Cancellation r (move_to ended r)
  cancels_taking :
      {r r' : RawCaptureRuntime} {batch : List CaptureRecord}
      → r.writer ≡ taking batch
      → drop_batch ended batch r ≡ ok r'
      → Cancellation r r'
  cancels_holding :
      {r r' : RawCaptureRuntime} {batch : List CaptureRecord}
      → r.writer ≡ holding batch
      → drop_batch ended batch r ≡ ok r'
      → Cancellation r r'

-- A step, and how many records it brings.
pub data Step : RawCaptureRuntime → ℕ → RawCaptureRuntime → Type 0 where
  offers :
      {r r' : RawCaptureRuntime} {result : OfferResult CaptureRecord} (x : CaptureRecord)
      → offer_record x r ≡ ok (result, r')
      → Step r 1 r'
  -- the coalescer shares the counters and drops a trade
  drops_trade :
      {r : RawCaptureRuntime} {c : CaptureCounters}
      → record_dropped 1 r.counters ≡ ok c
      → Step r 1 (record r { counters = c })
  starts :
      {r : RawCaptureRuntime}
      → r.stop_requested ≡ false
      → r.writer ≡ not_started
      → Step r 0 (move_to at_top r)
  stops : {r : RawCaptureRuntime} → Step r 0 (request_stop r)
  discards :
      {r r' : RawCaptureRuntime} → r.stop_requested ≡ true → discard_once r ≡ ok r' → Step r 0 r'
  writes : {r r' : RawCaptureRuntime} → WriterStep r r' → Step r 0 r'
  cancels : {r r' : RawCaptureRuntime} → Cancellation r r' → Step r 0 r'

-- A runtime, and how many records it has been brought.
pub data Reach (queue rows : ℕ) : ℕ → RawCaptureRuntime → Type 0 where
  begins :
      {r : RawCaptureRuntime} → new_runtime queue rows new_counters ≡ ok r → Reach queue rows 0 r
  goes :
      {n m : ℕ} {r r' : RawCaptureRuntime}
      → Reach queue rows n r
      → Step r m r'
      → Reach queue rows (n + m) r'

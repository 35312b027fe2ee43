-- ===== src/Capture/Runtime/Steps/Progress.antt =====
-- That a writer of price_collector/raw_capture.py which is asked to stop can end by itself with what
-- is in the queue stored: there is a run of its steps that does so.
use pythonbtccollector.Common.{
  ℕ, zero, suc, ◌+◌, ◌-◌, ◌≡◌, ◌≤◌, ◌<◌, refl, Bool, true, false, List, [], ◌∷◌, leb, ◌||◌, length,
  arith, Bool-cases, inl, inr, subst,
}
use pythonbtccollector.Common.Int.{pos}
use pythonbtccollector.Common.Result.{ok}
use pythonbtccollector.Capture.Buffer.{no_items, drain_loop, drain_nowait, after_drain}
use pythonbtccollector.Capture.Buffer.Bounds.{drain_loop-length}
use pythonbtccollector.Capture.Batch.{CaptureRecord}
use pythonbtccollector.Capture.Batch.Rows.{all_returned, write_batch-returned}
use pythonbtccollector.Capture.Runtime.{
  RawCaptureRuntime, Writer, at_top, deciding, taking, holding, deciding_batch, ended, decide_turn,
  take_more, hold_batch, store_batch, move_to,
}
use pythonbtccollector.Capture.Types.{postgres_bigint_max}
use pythonbtccollector.Capture.Runtime.Steps.Accounts.{Reach-IsSound}
use pythonbtccollector.Capture.Runtime.Steps.{
  WriterStep, skips_maintenance, decides, takes, keeps_holding, stores, Reach,
}

pub data Runs : RawCaptureRuntime → RawCaptureRuntime → Type 0 where
  ends : {r : RawCaptureRuntime} → Runs r r
  follows : {r s t : RawCaptureRuntime} → WriterStep r s → Runs s t → Runs r t

length-no_items : {A : Type 0} (xs : List A) → no_items xs ≡ false → 0 < length xs
unfolding no_items
length-no_items [] h = absurd (ground (arith, h))
length-no_items (x ∷ xs) h = omega arith

empty-no_items : {A : Type 0} (xs : List A) → no_items xs ≡ true → length xs ≡ 0
unfolding no_items
empty-no_items [] h = refl
empty-no_items (x ∷ xs) h = absurd (ground (arith, h))

some_drained :
    {A : Type 0} (limit : ℕ) (items : List A)
    → 0 < limit
    → 0 < length items
    → 0 < length (drain_loop limit items).0
unfolding drain_loop
some_drained zero items p q = absurd (omega (arith, p))
some_drained (suc limit) [] p q = absurd (omega (arith, q))
some_drained (suc limit) (x ∷ xs) p q = omega arith

held : (batch : List CaptureRecord) → 0 < length batch → hold_batch batch ≡ holding batch
unfolding hold_batch
held [] h = absurd (omega (arith, h))
held (x ∷ batch) h = refl

decide_turn-ends :
    (r : RawCaptureRuntime)
    → r.stop_requested ≡ true
    → no_items r.buffer.items ≡ true
    → decide_turn r ≡ move_to ended r
unfolding decide_turn
decide_turn-ends r stopped empty = rw (stopped, empty) refl

decide_turn-takes :
    (r : RawCaptureRuntime)
    → r.stop_requested ≡ true
    → no_items r.buffer.items ≡ false
    → r.storage_permitted ≡ true
    → decide_turn r ≡ move_to (taking []) r
unfolding decide_turn
decide_turn-takes r stopped some_item permitted = rw (stopped, some_item, permitted) refl

-- The queue is drained into a batch in hand.
abbrev drained : RawCaptureRuntime → List CaptureRecord
drained r = (drain_loop (r.batch_max_rows - 0) r.buffer.items).0

abbrev after_taking : Writer → RawCaptureRuntime → RawCaptureRuntime
after_taking w r =
    let rest = (drain_loop (r.batch_max_rows - 0) r.buffer.items).1 in
    record r {
      buffer = record r.buffer { items = rest; available = after_drain rest r.buffer.available };
      writer = w;
    }

take_more-stopped :
    (r : RawCaptureRuntime)
    → r.stop_requested ≡ true
    → 0 < r.batch_max_rows
    → 0 < length r.buffer.items
    → take_more [] r ≡ ok (after_taking (holding (drained r)) r)
unfolding take_more drain_nowait
take_more-stopped r stopped positive some_item =
    let limit : (leb 1 (r.batch_max_rows - 0) ≡ true) = ground (arith, positive) in
    let full : ((leb r.batch_max_rows (length (drained r)) || r.stop_requested) ≡ true) =
      ground (arith, stopped) in
    rw
      (
        limit,
        full,
        held (drained r) (
            some_drained (r.batch_max_rows - 0) r.buffer.items (omega (arith, positive)) some_item),
      )
      refl

-- The writer is asked to stop while storage is permitted.
record IsStopping (stopped permitted : Bool) (limit depth : ℕ) : Type 0 where
  stopping : stopped ≡ true
  allowed : permitted ≡ true
  some_rows : 0 < limit
  storable : depth ≤ postgres_bigint_max

abbrev Stopping : RawCaptureRuntime → Type 0
Stopping r =
    IsStopping r.stop_requested r.storage_permitted r.batch_max_rows (length r.buffer.items)

-- One turn of the loop stores a batch.
drains_batch :
    (r : RawCaptureRuntime)
    → Stopping r
    → r.writer ≡ at_top
    → no_items r.buffer.items ≡ false
    → (s : RawCaptureRuntime) × ((t : RawCaptureRuntime) → Runs s t → Runs r t)
      × Stopping s
      × (s.writer ≡ at_top)
      × (length s.buffer.items < length r.buffer.items)
      × (s.counters.records_persisted_total + length s.buffer.items
          ≡ r.counters.records_persisted_total + length r.buffer.items)
      × (s.counters.records_dropped_total ≡ r.counters.records_dropped_total)
unfolding store_batch
drains_batch r h at some_item =
    let size = length-no_items r.buffer.items some_item in
    let sizes = drain_loop-length (r.batch_max_rows - 0) r.buffer.items in
    let some_taken =
      some_drained (r.batch_max_rows - 0) r.buffer.items (omega (arith, h.some_rows)) size in
    let (counted, e, persisted, dropped) =
      write_batch-returned (drained r) r.counters (omega (arith, h.storable, sizes)) in
    let r₁ = move_to deciding r in
    let r₂ = move_to (taking []) r₁ in
    let r₃ = after_taking (holding (drained r)) r₂ in
    let r₄ = move_to (deciding_batch (drained r)) r₃ in
    let s = record r₄ { counters = counted; writer = at_top } in
    let step₂ : WriterStep r₁ r₂ =
      subst (WriterStep r₁) (decide_turn-takes r₁ h.stopping some_item h.allowed) (decides refl) in
    let step₃ : WriterStep r₂ r₃ =
      takes refl some_item (take_more-stopped r₂ h.stopping h.some_rows size) in
    let step₅ : WriterStep r₄ s = stores all_returned (pos 0) refl refl h.allowed (rw e refl) in
    (
      s,
      λ t runs.
          follows (skips_maintenance at)
            (follows step₂ (follows step₃ (follows (keeps_holding refl) (follows step₅ runs)))),
      record {
        stopping = h.stopping;
        allowed = h.allowed;
        some_rows = h.some_rows;
        storable = omega (arith, h.storable, sizes);
      },
      refl,
      omega (arith, sizes, some_taken),
      omega (arith, sizes, persisted),
      dropped,
    )

drains :
    (fuel : ℕ) (r : RawCaptureRuntime)
    → length r.buffer.items < fuel
    → Stopping r
    → r.writer ≡ at_top
    → (s : RawCaptureRuntime) × Runs r s
      × (s.writer ≡ ended)
      × (s.counters.records_persisted_total
          ≡ r.counters.records_persisted_total + length r.buffer.items)
      × (s.counters.records_dropped_total ≡ r.counters.records_dropped_total)
drains zero r short h at = absurd (omega (arith, short))
drains (suc fuel) r short h at = elim (Bool-cases (no_items r.buffer.items)) [
  | inl empty ↦
      let r₁ = move_to deciding r in
      let last : WriterStep r₁ (move_to ended r₁) =
        subst (WriterStep r₁) (decide_turn-ends r₁ h.stopping empty) (decides refl) in
      (
        move_to ended r₁,
        follows (skips_maintenance at) (follows last ends),
        refl,
        omega (arith, empty-no_items r.buffer.items empty),
        refl,
      )
  | inr some_item ↦
      let (s, runs, k, at_s, shorter, persisted, dropped) = drains_batch r h at some_item in
      let (t, rest, ended_t, persisted_t, dropped_t) =
        drains fuel s (omega (arith, short, shorter)) k at_s in
      (
        t,
        runs t rest,
        ended_t,
        omega (arith, persisted, persisted_t),
        omega (arith, dropped, dropped_t),
      )
]

-- Whatever a runtime has come to, when it is asked to stop while storage is permitted and its writer
-- is at the top of its loop, then a run of writer steps ends the writer with every record of the
-- queue stored and none dropped.
pub stopped_writer_drains :
    (queue rows : ℕ) {n : ℕ} {r : RawCaptureRuntime}
    → Reach queue rows n r
    → r.stop_requested ≡ true
    → r.storage_permitted ≡ true
    → r.writer ≡ at_top
    → (s : RawCaptureRuntime) × Runs r s
      × (s.writer ≡ ended)
      × (s.counters.records_persisted_total
          ≡ r.counters.records_persisted_total + length r.buffer.items)
      × (s.counters.records_dropped_total ≡ r.counters.records_dropped_total)
stopped_writer_drains queue rows {n} {r} reached stopped permitted at =
    let h = (Reach-IsSound queue rows reached).0 in
    drains (suc (length r.buffer.items)) r (omega arith)
      (record {
        stopping = stopped;
        allowed = permitted;
        some_rows = omega (arith, h.fixed.full_batch, h.fixed.some_rows);
        storable = omega (arith, h.short, h.fixed.storable);
      })
      at

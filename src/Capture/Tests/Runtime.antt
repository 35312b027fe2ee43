-- ===== src/Capture/Tests/Runtime.antt =====
-- The theorems on the runtime of price_collector/raw_capture.py at a small run of it.
use pythonbtccollector.Common.{◌≡◌, ◌≤◌, refl, true, false, none, [], ◌∷◌, length, ◌+◌}
use pythonbtccollector.Common.Result.{ok}
use pythonbtccollector.Capture.Counters.{new_counters}
use pythonbtccollector.Capture.Coalescer.Groups.{summarise}
use pythonbtccollector.Capture.Buffer.{OfferResult}
use pythonbtccollector.Capture.Batch.{CaptureRecord, futures, Maintained}
use pythonbtccollector.Capture.Runtime.{
  RawCaptureRuntime, not_started, at_top, ended, new_runtime, offer_record, refuse_record,
  request_stop, run_maintenance, move_to, discard_once,
}
use pythonbtccollector.Capture.Runtime.Steps.{
  Reach, begins, goes, offers, starts, stops, discards, cancels, cancels_top,
}
use pythonbtccollector.Capture.Runtime.Steps.Keeps.{in_hand}
use pythonbtccollector.Capture.Runtime.Steps.Accounts.{
  no_record_lost, nothing_raised, closed_runtime_settled,
}
use pythonbtccollector.Capture.Runtime.Steps.Progress.{stopped_writer_drains, Runs}
use pythonbtccollector.Capture.Tests.{trade}

abbrev one_record : CaptureRecord
unfolding summarise
one_record = futures (summarise (trade 10 25 1, []))

-- A queue of two places, and batches of one row.
abbrev made_runtime : RawCaptureRuntime
unfolding new_counters
made_runtime = record {
  counters = new_counters;
  buffer = record { items = []; max_events = 2; high_water = 0; available = none };
  batch_max_rows = 1;
  writer = not_started;
  stop_requested = false;
  accepting_offers = true;
  storage_permitted = true;
  shutdown_buffer_accounted = false;
}

abbrev started_runtime : RawCaptureRuntime
started_runtime = move_to at_top made_runtime

-- After an offer.
abbrev fed_runtime : RawCaptureRuntime
unfolding new_counters
fed_runtime = record started_runtime {
  counters = record new_counters { records_enqueued_total = 1; queue_high_water = 1 };
  buffer = record { items = one_record ∷ []; max_events = 2; high_water = 1; available = none };
}

abbrev stopped_runtime : RawCaptureRuntime
unfolding fed_runtime
stopped_runtime = record fed_runtime { stop_requested = true; accepting_offers = false }

abbrev settled_runtime : RawCaptureRuntime
unfolding fed_runtime
settled_runtime = record fed_runtime {
  counters = record fed_runtime.counters { records_dropped_total = 1 };
  buffer = record fed_runtime.buffer { items = [] };
  writer = ended;
  stop_requested = true;
  accepting_offers = false;
  shutdown_buffer_accounted = true;
}

made : Reach 2 1 0 made_runtime
unfolding new_runtime made_runtime
made = begins refl

fed : Reach 2 1 1 fed_runtime
unfolding offer_record fed_runtime
fed = goes (goes made (starts refl refl)) (offers one_record refl)

stopped : Reach 2 1 1 stopped_runtime
unfolding request_stop stopped_runtime
stopped = goes fed stops

settled : Reach 2 1 1 settled_runtime
unfolding request_stop discard_once settled_runtime
settled = goes (goes (goes fed (cancels (cancels_top refl))) stops) (discards refl refl)

no_record_lost_example :
    (1
      ≡ fed_runtime.counters.records_persisted_total
        + fed_runtime.counters.records_dropped_total
        + length fed_runtime.buffer.items
        + length (in_hand fed_runtime.writer))
    × (length fed_runtime.buffer.items ≤ 2)
    × (length (in_hand fed_runtime.writer) ≤ 1)
    × (length fed_runtime.buffer.items ≤ fed_runtime.counters.queue_high_water)
    × (fed_runtime.counters.queue_high_water ≤ 2)
no_record_lost_example = no_record_lost 2 1 fed

nothing_raised_example :
    ((x : CaptureRecord)
      → (result : OfferResult CaptureRecord) × (s : RawCaptureRuntime) × (offer_record x fed_runtime
          ≡ ok (result, s)))
    × ((answer : Maintained)
        → (s : RawCaptureRuntime) × (run_maintenance answer fed_runtime ≡ ok s))
nothing_raised_example = nothing_raised 2 1 fed

closed_runtime_settled_example :
    (1
      ≡ settled_runtime.counters.records_persisted_total
        + settled_runtime.counters.records_dropped_total)
    × ((x : CaptureRecord) → offer_record x settled_runtime ≡ refuse_record settled_runtime)
unfolding settled_runtime
closed_runtime_settled_example = closed_runtime_settled 2 1 settled refl refl

stopped_writer_drains_example :
    (s : RawCaptureRuntime) × Runs stopped_runtime s
    × (s.writer ≡ ended)
    × (s.counters.records_persisted_total
        ≡ stopped_runtime.counters.records_persisted_total + length stopped_runtime.buffer.items)
    × (s.counters.records_dropped_total ≡ stopped_runtime.counters.records_dropped_total)
unfolding stopped_runtime fed_runtime
stopped_writer_drains_example = stopped_writer_drains 2 1 stopped refl refl refl

-- ===== src/Capture/Tests.antt =====
-- Runs of the models of price_collector/raw_capture.py, and the theorems at concrete inputs.
mod Runtime
use pythonbtccollector.Common.{
  All, none, ℕ, ◌≡◌, ◌≤◌, ◌<◌, refl, Bool, true, false, Option, none, some, List, [], ◌∷◌, map,
  arith, length, ◌+◌, ◌*◌,
}
use pythonbtccollector.Common.Int.{pos, negsuc}
use pythonbtccollector.Common.Result.{ok, err}
use pythonbtccollector.Capture.Types.{
  FuturesTradeObservation, BinanceFuturesPriceTrace, FeedSessionSource, CloseReason,
  FeedSessionRecord, futures_bucket_ns,
}
use pythonbtccollector.Capture.Observations.{Decimal, finite, decimal_price}
use pythonbtccollector.Capture.Counters.{CaptureCounters, new_counters}
use pythonbtccollector.Capture.Session.{FeedSession, new_session, opened_record, finish_session}
use pythonbtccollector.Capture.Session.Valid.{
  SessionCall, readies, receives, accepts, session_calls,
}
use pythonbtccollector.Capture.Session.Finish.{IsLater, session_records}
use pythonbtccollector.Capture.Coalescer.{new_coalescer}
use pythonbtccollector.Capture.Coalescer.Valid.{IsObservation}
use pythonbtccollector.Capture.Records.{price_trace}
use pythonbtccollector.Capture.Coalescer.Accounts.{every_trade_counted}
use pythonbtccollector.Capture.Coalescer.Accounts.Calls.{
  CoalescerCall, trades, elapses, ends_capture, after_all, traded, traced, pending_event_count,
  IsAcceptable,
}
use pythonbtccollector.Capture.Coalescer.Groups.{coalesce, groups_from, summarise}
use pythonbtccollector.Capture.Coalescer.Runs.{IsOrdered, coalesces_groups}
use pythonbtccollector.Capture.Buffer.{Buffer, new_buffer}
use pythonbtccollector.Capture.Buffer.Refines.{
  Call, offer, drain, discard, Answer, offered, drained, run_buffer, run_queue,
  buffer_refines_queue, BufferState,
}
use pythonbtccollector.Capture.Batch.{
  CaptureRecord, futures, WriteOutcome, Outcomes, write_batch, Maintained, maintained,
}
use pythonbtccollector.Capture.Batch.Rows.{every_row_counted_once, all_returned, AddsUp}
use pythonbtccollector.Capture.Runtime.{
  RawCaptureRuntime, at_top, ended, taking, new_runtime, offer_record, refuse_record, request_stop,
  run_maintenance, move_to, discard_once,
}
use pythonbtccollector.Capture.Runtime.Steps.{
  Reach, begins, goes, offers, starts, stops, discards, writes, cancels, cancels_top,
}
use pythonbtccollector.Capture.Runtime.Steps.Keeps.{in_hand}
use pythonbtccollector.Capture.Runtime.Steps.Accounts.{
  no_record_lost, nothing_raised, closed_runtime_settled,
}
use pythonbtccollector.Capture.Runtime.Steps.Progress.{stopped_writer_drains, Runs}

-- A trade after so many ms, at a price in quanta.
abbrev pub trade : ℕ → ℕ → ℕ → FuturesTradeObservation
trade ms price id = record {
  connection_id = 7;
  received_wall_ns = 1_000_000_000 + ms * 1_000_000;
  received_monotonic_ns = 1 + ms * 1_000_000;
  trade_time_ms = 1000 + ms;
  event_time_ms = 1000 + ms;
  price = price;
  agg_trade_id = id;
}

abbrev later_trades : List FuturesTradeObservation
later_trades = trade 40 30 2 ∷ trade 90 20 3 ∷ trade 110 25 4 ∷ []

-- Two buckets of 100 ms.
groups_found : length (groups_from (trade 10 25 1, []) later_trades) ≡ 2
unfolding groups_from
groups_found = refl

highest_found :
    map (λ t. t.high_price) (map summarise (groups_from (trade 10 25 1, []) later_trades))
    ≡ 30 ∷ 25 ∷ []
unfolding groups_from summarise
highest_found = refl

trade_is_acceptable :
    (ms price id : ℕ)
    → ms ≤ 1000
    → 0 < price
    → price ≤ 1000
    → id ≤ 1000
    → IsObservation (trade ms price id)
trade_is_acceptable ms price id h low high small = record {
  after_epoch = omega arith;
  wall_stored = omega arith;
  mono_stored = omega arith;
  trade_stored = omega arith;
  event_stored = omega arith;
  price_stored = omega arith;
  id_stored = omega arith;
}

trades-IsOrdered : IsOrdered 7 (trade 10 25 1) later_trades
unfolding IsOrdered
trades-IsOrdered = (
  trade_is_acceptable 40 30 2 (omega arith) (omega arith) (omega arith) (omega arith),
  refl,
  omega arith,
  omega arith,
  (
    trade_is_acceptable 90 20 3 (omega arith) (omega arith) (omega arith) (omega arith),
    refl,
    omega arith,
    omega arith,
    (
      trade_is_acceptable 110 25 4 (omega arith) (omega arith) (omega arith) (omega arith),
      refl,
      omega arith,
      omega arith,
      tt,
    ),
  ),
)

coalesces_groups_example :
    coalesce (trade 10 25 1 ∷ later_trades) new_coalescer (some new_counters)
    ≡ ok (map summarise (groups_from (trade 10 25 1, []) later_trades))
coalesces_groups_example =
    coalesces_groups (trade 10 25 1) later_trades (some new_counters)
      (trade_is_acceptable 10 25 1 (omega arith) (omega arith) (omega arith) (omega arith))
      trades-IsOrdered (omega arith)

-- 27.5, and a price below a quantum.
price_read :
    decimal_price (finite false (5 ∷ 7 ∷ 2 ∷ []) (negsuc 0)) ≡ ok 27_500_000_000_000_000_000
unfolding decimal_price
price_read = refl

-- A trade, one of the same bucket that the clocks put before it, and one of the next bucket.
abbrev coalescer_input : List CoalescerCall
coalescer_input =
    trades (trade 40 30 2)
    ∷ trades (trade 10 25 1)
    ∷ elapses 0 none
    ∷ trades (trade 110 25 4)
    ∷ ends_capture
    ∷ []

one_dropped : (after_all coalescer_input).counters.records_dropped_total ≡ 1
unfolding after_all
one_dropped = refl

every_trade_counted_example :
    (traded coalescer_input
      ≡ traced (after_all coalescer_input).traces
        + pending_event_count (after_all coalescer_input).coalescer.pending
        + (after_all coalescer_input).counters.records_dropped_total)
    × All (λ t. price_trace t ≡ ok t) (after_all coalescer_input).traces
unfolding IsAcceptable traded
every_trade_counted_example =
    every_trade_counted coalescer_input
      (
        trade_is_acceptable 40 30 2 (omega arith) (omega arith) (omega arith) (omega arith),
        (
          trade_is_acceptable 10 25 1 (omega arith) (omega arith) (omega arith) (omega arith),
          (
            tt,
            (
              trade_is_acceptable 110 25 4 (omega arith) (omega arith) (omega arith) (omega arith),
              (tt, tt),
            ),
          ),
        ),
      )
      (omega arith)

buffer_refines_queue_example :
    (b : Buffer ℕ) × (new_buffer 2 ≡ ok b)
    × (t : BufferState ℕ) × (run_buffer
          (offer 1 ∷ offer 2 ∷ offer 3 ∷ drain 0 ∷ [])
          (b, new_counters)
        ≡ ok ((run_queue 2 (offer 1 ∷ offer 2 ∷ offer 3 ∷ drain 0 ∷ []) []).0, t))
    × (t.0.items ≡ (run_queue 2 (offer 1 ∷ offer 2 ∷ offer 3 ∷ drain 0 ∷ []) []).1)
buffer_refines_queue_example =
    buffer_refines_queue 2 (omega arith) (omega arith) (offer 1 ∷ offer 2 ∷ offer 3 ∷ drain 0 ∷ [])
      new_counters

-- The queue of two places gives up the first offer for the third.
queue_answers :
    run_queue {A = ℕ} 2 (offer 1 ∷ offer 2 ∷ offer 3 ∷ drain 0 ∷ []) []
    ≡ (offered none 1 ∷ offered none 2 ∷ offered (some 1) 2 ∷ drained (2 ∷ []) ∷ [], 3 ∷ [])
unfolding run_queue
queue_answers = refl

abbrev two_records : List CaptureRecord
unfolding summarise
two_records =
    futures (summarise (trade 10 25 1, [])) ∷ futures (summarise (trade 110 25 4, [])) ∷ []

-- The first write fails.
abbrev failing : Outcomes
failing = record {
  creation = WriteOutcome.returned;
  copy_futures_traces = WriteOutcome.raised;
  copy_chainlink_events = WriteOutcome.returned;
  upsert_feed_sessions = WriteOutcome.cancelled;
}

every_row_counted_once_example :
    (is_cancelled : Bool) × (counted : CaptureCounters) × (write_batch failing
        (pos 5)
        two_records
        new_counters
      ≡ ok (is_cancelled, counted))
    × AddsUp (length two_records) new_counters counted
unfolding two_records
every_row_counted_once_example =
    every_row_counted_once failing (pos 5) two_records new_counters (omega arith) refl

-- A session that is made ready, receives a message and accepts it.
abbrev session_calls_made : List SessionCall
session_calls_made = readies 20 12 ∷ receives 30 13 ∷ accepts 1 ∷ accepts 1 ∷ []

abbrev new_feed_session : FeedSession
new_feed_session = record {
  source = FeedSessionSource.polymarket_chainlink_rtds;
  connection_id = 7;
  connected_wall_ns = 10;
  connected_monotonic_ns = 11;
  ready_wall_ns = none;
  ready_monotonic_ns = none;
  messages_received_total = 0;
  messages_accepted_total = 0;
  parse_errors_total = 0;
  records_dropped_total = 0;
  receive_sequence = 0;
  closed_record = none;
}

abbrev called : FeedSession
called = (session_calls session_calls_made (new_feed_session, none)).0

session_records_example :
    (opening : FeedSessionRecord) × (closing : FeedSessionRecord) × (last : FeedSession)
    × (opened_record called ≡ ok opening)
    × (finish_session CloseReason.remote_close 40 14 called ≡ ok (closing, last))
    × (closing.messages_accepted_total + closing.parse_errors_total
        ≤ closing.messages_received_total)
    × (closing.last_receive_sequence ≡ closing.messages_received_total)
    × (finish_session CloseReason.shutdown 1 1 last ≡ ok (closing, last))
unfolding new_session session_calls IsLater
session_records_example =
    session_records FeedSessionSource.polymarket_chainlink_rtds 7 10 11 new_feed_session
      session_calls_made none CloseReason.remote_close CloseReason.shutdown 40 14 1 1 refl refl
      (omega arith) (omega arith) (omega arith) (omega arith) (omega arith)

-- ===== src/Capture/Session.antt =====
-- FeedSession of price_collector/raw_capture.py, the account of one connection. The clock readings
-- that the caller may leave out are arguments, and so are the shared counters.
pub mod Valid
pub mod Finish
use pythonbtccollector.Common.{
  ℕ, ◌+◌, ◌≡◌, refl, Bool, true, false, Option, none, some, List, [], ◌∷◌, ◌++◌, ◌==◌, leb, ltb,
  not, if◌then◌else◌,
}
use pythonbtccollector.Common.Int.{pos}
use pythonbtccollector.Common.Result.{Result, ok, err, ◌>>=◌, ◌>>◌}
use pythonbtccollector.Capture.Checks.{
  Test, Checked, require, require_int, require_all, require_positive_count,
}
use pythonbtccollector.Capture.Records.{receive_stamp, feed_session_record, not_before, not_after}
use pythonbtccollector.Capture.Counters.{
  CaptureCounters, message_received, message_accepted, parse_error, when_counted,
}
use pythonbtccollector.Capture.Types.{
  futures_bucket_ms, futures_bucket_ns, postgres_bigint_max, postgres_integer_max,
  postgres_numeric_limit, sealed_connection_history_max, FeedSessionSource, CloseReason,
  CaptureError, ReceiveStamp, FuturesTradeObservation, BinanceFuturesPriceTrace,
  ChainlinkPriceEvent, FeedSessionRecord, CaptureCounterSnapshot, binance_futures_agg_trade,
  polymarket_chainlink_rtds, remote_close, error, proactive_reconnect, cancelled, shutdown,
  not_positive, negative_integer, exceeds_bigint, exceeds_integer, price_not_positive,
  price_too_large, price_too_fine, unaligned_bucket, last_precedes_first, outside_bucket, bad_high,
  bad_low, unpaired_ready, ready_precedes_connection, unpaired_disconnect, open_with_reason,
  bad_close_reason, disconnect_precedes_connection, disconnect_precedes_ready, too_many_outcomes,
  sequence_mismatch, depth_above_high_water, negative_duration, rows_mismatch, session_closed,
  already_ready, now_precedes_pending, bad_limit, dropped_not_bool, accepted_on_closed_buffer,
}

pub record FeedSession : Type 0 where
  pub source : FeedSessionSource
  pub connection_id : ℕ
  pub connected_wall_ns : ℕ
  pub connected_monotonic_ns : ℕ
  pub ready_wall_ns : Option ℕ
  pub ready_monotonic_ns : Option ℕ
  pub messages_received_total : ℕ
  pub messages_accepted_total : ℕ
  pub parse_errors_total : ℕ
  pub records_dropped_total : ℕ
  pub receive_sequence : ℕ
  pub closed_record : Option FeedSessionRecord

-- FeedSession(source=..., connection_id=..., connected_wall_ns=..., connected_monotonic_ns=...)
unfoldable pub new_session : FeedSessionSource → ℕ → ℕ → ℕ → Checked FeedSession
unfolding require_all require_int
new_session source connection wall_ns monotonic_ns =
    require (require_all true (wall_ns ∷ monotonic_ns ∷ [])) (record {
      source = source;
      connection_id = connection;
      connected_wall_ns = wall_ns;
      connected_monotonic_ns = monotonic_ns;
      ready_wall_ns = none;
      ready_monotonic_ns = none;
      messages_received_total = 0;
      messages_accepted_total = 0;
      parse_errors_total = 0;
      records_dropped_total = 0;
      receive_sequence = 0;
      closed_record = none;
    })

unfoldable pub is_none : {A : Type 0} → Option A → Bool
is_none none = true
is_none (some a) = false

unfoldable pub mark_ready : ℕ → ℕ → FeedSession → Checked FeedSession
unfolding require_all require_int is_none
mark_ready wall_ns monotonic_ns s =
    require
      ((is_none s.closed_record, session_closed)
          ∷ (is_none s.ready_wall_ns, already_ready)
          ∷ require_all true (wall_ns ∷ monotonic_ns ∷ [])
        ++ (leb s.connected_monotonic_ns monotonic_ns, ready_precedes_connection) ∷ [])
      (record s { ready_wall_ns = some wall_ns; ready_monotonic_ns = some monotonic_ns })

-- The stamp, the session after it, and the counters after it.
unfoldable pub next_receive_stamp :
    ℕ
    → ℕ
    → FeedSession
    → Option CaptureCounters
    → Checked (ReceiveStamp × FeedSession × Option CaptureCounters)
unfolding is_none receive_stamp when_counted message_received
next_receive_stamp wall_ns monotonic_ns s counters = do
  require ((is_none s.closed_record, session_closed) ∷ []) s
  stamp ← receive_stamp (record {
    connection_id = s.connection_id;
    receive_sequence = s.receive_sequence + 1;
    received_wall_ns = wall_ns;
    received_monotonic_ns = monotonic_ns;
  })
  counted ← when_counted (λ c. ok (message_received c)) counters
  ok (
    stamp,
    record s {
      receive_sequence = s.receive_sequence + 1;
      messages_received_total = s.messages_received_total + 1;
    },
    counted,
  )

-- The tests of mark_accepted and mark_parse_error.
unfoldable pub outcome_tests : ℕ → FeedSession → List Test
unfolding is_none require_positive_count
outcome_tests count s =
    (is_none s.closed_record, session_closed) ∷ require_positive_count count
    ++ (
      leb (s.messages_accepted_total + s.parse_errors_total + count) s.messages_received_total,
      too_many_outcomes,
    )
      ∷ []

unfoldable pub mark_accepted :
    ℕ → FeedSession → Option CaptureCounters → Checked (FeedSession × Option CaptureCounters)
unfolding outcome_tests when_counted message_accepted
mark_accepted count s counters = do
  require (outcome_tests count s) s
  counted ← when_counted (message_accepted count) counters
  ok (record s { messages_accepted_total = s.messages_accepted_total + count }, counted)

unfoldable pub mark_parse_error :
    ℕ → FeedSession → Option CaptureCounters → Checked (FeedSession × Option CaptureCounters)
unfolding outcome_tests when_counted parse_error
mark_parse_error count s counters = do
  require (outcome_tests count s) s
  counted ← when_counted (parse_error count) counters
  ok (record s { parse_errors_total = s.parse_errors_total + count }, counted)

unfoldable pub mark_record_dropped : ℕ → FeedSession → Checked FeedSession
unfolding is_none require_positive_count
mark_record_dropped count s =
    require ((is_none s.closed_record, session_closed) ∷ require_positive_count count)
      (record s { records_dropped_total = s.records_dropped_total + count })

-- The record before its checks.
unfoldable pub session_fields :
    Option ℕ → Option ℕ → Option CloseReason → FeedSession → FeedSessionRecord
session_fields wall_ns monotonic_ns reason s = record {
  source = s.source;
  connection_id = s.connection_id;
  connected_wall_ns = s.connected_wall_ns;
  connected_monotonic_ns = s.connected_monotonic_ns;
  ready_wall_ns = s.ready_wall_ns;
  ready_monotonic_ns = s.ready_monotonic_ns;
  disconnected_wall_ns = wall_ns;
  disconnected_monotonic_ns = monotonic_ns;
  close_reason = reason;
  messages_received_total = s.messages_received_total;
  messages_accepted_total = s.messages_accepted_total;
  parse_errors_total = s.parse_errors_total;
  records_dropped_total = s.records_dropped_total;
  last_receive_sequence = s.receive_sequence;
}

unfoldable pub opened_record : FeedSession → Checked FeedSessionRecord
unfolding is_none session_fields feed_session_record
opened_record s =
    require ((is_none s.closed_record, session_closed) ∷ []) s
    >> feed_session_record (session_fields none none none s)

-- finish of an open session
unfoldable pub finish_open :
    CloseReason → ℕ → ℕ → FeedSession → Checked (FeedSessionRecord × FeedSession)
unfolding not_after session_fields feed_session_record
finish_open reason wall_ns monotonic_ns s = do
  require
      ((leb s.connected_monotonic_ns monotonic_ns, disconnect_precedes_connection)
        ∷ (not_after s.ready_monotonic_ns monotonic_ns, disconnect_precedes_ready)
        ∷ [])
      s
  r ← feed_session_record (session_fields (some wall_ns) (some monotonic_ns) (some reason) s)
  ok (r, record s { closed_record = some r })

unfoldable pub finish_by :
    CloseReason
    → ℕ
    → ℕ
    → FeedSession
    → Option FeedSessionRecord
    → Checked (FeedSessionRecord × FeedSession)
unfolding finish_open
finish_by reason wall_ns monotonic_ns s (some r) = ok (r, s)
finish_by reason wall_ns monotonic_ns s none = finish_open reason wall_ns monotonic_ns s

unfoldable pub finish_session :
    CloseReason → ℕ → ℕ → FeedSession → Checked (FeedSessionRecord × FeedSession)
unfolding finish_by
finish_session reason wall_ns monotonic_ns s =
    finish_by reason wall_ns monotonic_ns s s.closed_record

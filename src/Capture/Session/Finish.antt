-- ===== src/Capture/Session/Finish.antt =====
-- That the record of a session of price_collector/raw_capture.py is accepted, and is given once.
use pythonbtccollector.Common.{
  ℕ, ◌+◌, ◌≡◌, ◌≤◌, refl, subst, sym, true, false, Option, none, some, List, [], ◌∷◌, ◌++◌, leb,
  ◌==◌, arith, All,
}
use pythonbtccollector.Common.Result.{ok, >>=_ok}
use pythonbtccollector.Capture.Checks.{
  Test, Holds, require, require-ok, require-Holds, require_all, require_int, require_optional,
  All-append, positive-Holds, bigint-Holds, IsPositive,
}
use pythonbtccollector.Capture.Records.{
  feed_session_record, session_tests, disconnect_tests, total_tests, closing_tests, same_presence,
  not_before, not_after, is_present,
}
use pythonbtccollector.Capture.Counters.{CaptureCounters}
use pythonbtccollector.Capture.Session.{
  FeedSession, new_session, is_none, session_fields, opened_record, finish_open, finish_by,
  finish_session,
}
use pythonbtccollector.Capture.Types.{
  postgres_bigint_max, FeedSessionSource, CloseReason, FeedSessionRecord, unpaired_ready,
  ready_precedes_connection, unpaired_disconnect, disconnect_precedes_connection,
  disconnect_precedes_ready, too_many_outcomes, sequence_mismatch,
}
use pythonbtccollector.Capture.Session.Valid.{
  IsReady, IsSession, SessionCall, session_calls, session_calls-keeps,
}

-- The time of a close, against the clocks before it.
unfoldable pub IsLater : ℕ → Option ℕ → Type 0
IsLater mono none = Unit
IsLater mono (some ready) = ready ≤ mono

ready-Holds :
    (connected : ℕ) (wall mono : Option ℕ)
    → IsReady connected wall mono
    → (same_presence wall mono ≡ true)
      × All Holds (require_optional wall)
      × All Holds (require_optional mono)
      × (not_before mono connected ≡ true)
unfolding IsReady same_presence require_optional require_int not_before
ready-Holds connected none none h = (refl, tt, tt, refl)
ready-Holds connected (some wall) (some mono) (w, m, late) = (
  refl,
  (ground (arith, w), (ground (arith, w), tt)),
  (ground (arith, m), (ground (arith, m), tt)),
  ground (arith, late),
)
ready-Holds connected none (some mono) h = absurd h
ready-Holds connected (some wall) none h = absurd h

not_after-Holds : (ready : Option ℕ) (mono : ℕ) → IsLater mono ready → not_after ready mono ≡ true
unfolding IsLater not_after
not_after-Holds none mono h = refl
not_after-Holds (some ready) mono h = ground (arith, h)

new_session-IsSession :
    (source : FeedSessionSource) (connection wall mono : ℕ) (s : FeedSession)
    → new_session source connection wall mono ≡ ok s
    → IsSession s
unfolding new_session IsReady require_all require_int
new_session-IsSession source connection wall mono s e =
    let fresh : FeedSession = record {
      source = source;
      connection_id = connection;
      connected_wall_ns = wall;
      connected_monotonic_ns = mono;
      ready_wall_ns = none;
      ready_monotonic_ns = none;
      messages_received_total = 0;
      messages_accepted_total = 0;
      parse_errors_total = 0;
      records_dropped_total = 0;
      receive_sequence = 0;
      closed_record = none;
    } in
    let (holds, same) = require-Holds (require_all true (wall ∷ mono ∷ [])) fresh s e in
    let (w₀, (w₁, (m₀, (m₁, u)))) = holds in
    subst IsSession same (record {
      wall_stored = (ground (arith, w₀), ground (arith, w₁));
      mono_stored = (ground (arith, m₀), ground (arith, m₁));
      ready = tt;
      outcomes = omega arith;
      sequential = refl;
      received_stored = omega arith;
    })

module _ (s : FeedSession) (h : IsSession s)
    (few : s.records_dropped_total ≤ postgres_bigint_max) where
  -- The record of a session passes its checks when those of the disconnect hold.
  record-ok :
      (wall mono : Option ℕ) (reason : Option CloseReason)
      → same_presence wall mono ≡ true
      → All Holds (require_optional wall)
      → All Holds (require_optional mono)
      → All Holds (closing_tests (session_fields wall mono reason s) mono)
      → feed_session_record (session_fields wall mono reason s)
        ≡ ok (session_fields wall mono reason s)
  unfolding feed_session_record session_tests disconnect_tests total_tests session_fields
  record-ok wall mono reason paired wall_holds mono_holds closing =
      let fields = session_fields wall mono reason s in
      let totals =
        s.messages_received_total ∷ s.messages_accepted_total ∷ s.parse_errors_total
        ∷ s.records_dropped_total ∷ s.receive_sequence ∷ [] in
      let sums : List Test =
        ((
          leb (s.messages_accepted_total + s.parse_errors_total) s.messages_received_total,
          too_many_outcomes,
        )
          ∷ (s.receive_sequence == s.messages_received_total, sequence_mismatch)
          ∷ []) in
      let counts : List Test = require_all false totals ++ sums in
      let closes : List Test = closing_tests fields mono ++ counts in
      let monos : List Test = require_optional mono ++ closes in
      let walls : List Test = require_optional wall ++ monos in
      let pairs : List Test =
        ((not_before s.ready_monotonic_ns s.connected_monotonic_ns, ready_precedes_connection)
          ∷ (same_presence wall mono, unpaired_disconnect)
          ∷ walls) in
      let ready_mono : List Test = require_optional s.ready_monotonic_ns ++ pairs in
      let ready_wall : List Test = require_optional s.ready_wall_ns ++ ready_mono in
      let clocks = s.connected_wall_ns ∷ s.connected_monotonic_ns ∷ [] in
      let readies : List Test =
        ((same_presence s.ready_wall_ns s.ready_monotonic_ns, unpaired_ready) ∷ ready_wall) in
      let (together, w, m, late) =
        ready-Holds s.connected_monotonic_ns s.ready_wall_ns s.ready_monotonic_ns h.ready in
      let sums_hold : All Holds sums =
        (ground (arith, h.outcomes), (ground (arith, h.sequential), tt)) in
      let totals_hold = bigint-Holds totals (
        h.received_stored,
        (
          omega (arith, h.outcomes, h.received_stored),
          (
            omega (arith, h.outcomes, h.received_stored),
            (few, (omega (arith, h.sequential, h.received_stored), tt)),
          ),
        ),
      ) in
      let closes_hold : All Holds closes =
        All-append Holds (closing_tests fields mono) counts closing
          (All-append Holds (require_all false totals) sums totals_hold sums_hold) in
      let pairs_hold : All Holds pairs = (
        late,
        (
          paired,
          All-append Holds (require_optional wall) monos wall_holds
              (All-append Holds (require_optional mono) closes mono_holds closes_hold),
        ),
      ) in
      let readies_hold : All Holds readies = (
        together,
        All-append Holds (require_optional s.ready_wall_ns) ready_mono w
            (All-append Holds (require_optional s.ready_monotonic_ns) pairs m pairs_hold),
      ) in
      require-ok (require_all true clocks ++ readies) fields (
        All-append Holds (require_all true clocks) readies
          (positive-Holds clocks (h.wall_stored, (h.mono_stored, tt))) readies_hold)

  opened-ok : s.closed_record ≡ none → opened_record s ≡ ok (session_fields none none none s)
  unfolding opened_record is_none closing_tests is_present same_presence require_optional
  opened-ok e = rw e (record-ok none none none refl tt tt (refl, tt))

  finish-ok :
      (reason : CloseReason) (wall mono : ℕ)
      → s.closed_record ≡ none
      → IsPositive wall
      → IsPositive mono
      → s.connected_monotonic_ns ≤ mono
      → IsLater mono s.ready_monotonic_ns
      → finish_session reason wall mono s
        ≡ ok (
          session_fields (some wall) (some mono) (some reason) s,
          record s {
            closed_record = some (session_fields (some wall) (some mono) (some reason) s);
          },
        )
  unfolding finish_session finish_by finish_open closing_tests is_present same_presence
      require_optional require_int session_fields
  finish-ok reason wall mono open_now w m later after_ready =
      let fields = session_fields (some wall) (some mono) (some reason) s in
      let in_order : (leb s.connected_monotonic_ns mono ≡ true) = ground (arith, later) in
      let after : (not_after s.ready_monotonic_ns mono ≡ true) =
        not_after-Holds s.ready_monotonic_ns mono after_ready in
      let made =
        record-ok (some wall) (some mono) (some reason) refl
          (ground (arith, w), (ground (arith, w), tt)) (ground (arith, m), (ground (arith, m), tt))
          (refl, (in_order, (after, tt))) in
      let tests : List Test =
        ((leb s.connected_monotonic_ns mono, disconnect_precedes_connection)
          ∷ (not_after s.ready_monotonic_ns mono, disconnect_precedes_ready)
          ∷ []) in
      let ended = record s { closed_record = some fields } in
      let finished : (finish_open reason wall mono s ≡ ok (fields, ended)) =
        >>=_ok (require tests s) _ (require-ok tests s (in_order, (after, tt)))
          (>>=_ok (feed_session_record fields) _ made refl) in
      subst (λ o. finish_by reason wall mono s o ≡ ok (fields, ended)) (sym open_now) finished

-- After any calls, whether they raise or not, on a new session, an
-- open session gives its record, and finishes, without an error: when its dropped records are
-- storable, and the time of the close is positive, storable, and not before the connection nor
-- before it was ready. In the record the messages accepted and failed are at most those received, as
-- many as the last receive sequence; and to finish again, for any reason and at any time, gives the
-- same record and changes nothing.
pub session_records :
    (source : FeedSessionSource) (connection connected_wall connected_mono : ℕ) (s₀ : FeedSession)
    (calls : List SessionCall) (counters : Option CaptureCounters)
    (reason later_reason : CloseReason) (wall mono later_wall later_mono : ℕ)
    → new_session source connection connected_wall connected_mono ≡ ok s₀
    → (session_calls calls (s₀, counters)).0.closed_record ≡ none
    → (session_calls calls (s₀, counters)).0.records_dropped_total ≤ postgres_bigint_max
    → IsPositive wall
    → IsPositive mono
    → (session_calls calls (s₀, counters)).0.connected_monotonic_ns ≤ mono
    → IsLater mono (session_calls calls (s₀, counters)).0.ready_monotonic_ns
    → (opening : FeedSessionRecord) × (closing : FeedSessionRecord) × (ended : FeedSession)
      × (opened_record (session_calls calls (s₀, counters)).0 ≡ ok opening)
      × (finish_session reason wall mono (session_calls calls (s₀, counters)).0
          ≡ ok (closing, ended))
      × (closing.messages_accepted_total + closing.parse_errors_total
          ≤ closing.messages_received_total)
      × (closing.last_receive_sequence ≡ closing.messages_received_total)
      × (finish_session later_reason later_wall later_mono ended ≡ ok (closing, ended))
unfolding finish_session finish_by session_fields
session_records source connection connected_wall connected_mono s₀ calls counters reason
      later_reason wall mono later_wall later_mono made open_now few w m later after_ready =
    let s = (session_calls calls (s₀, counters)).0 in
    let h : IsSession s =
      session_calls-keeps calls (s₀, counters)
        (new_session-IsSession source connection connected_wall connected_mono s₀ made) in
    let closing = session_fields (some wall) (some mono) (some reason) s in
    (
      session_fields none none none s,
      closing,
      record s { closed_record = some closing },
      opened-ok s h few open_now,
      finish-ok s h few reason wall mono open_now w m later after_ready,
      h.outcomes,
      h.sequential,
      refl,
    )

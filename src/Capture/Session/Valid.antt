-- ===== src/Capture/Session/Valid.antt =====
-- That the account of a connection, FeedSession of price_collector/raw_capture.py, gives a record
-- that passes the checks of FeedSessionRecord, after any calls, and gives it again when it is asked
-- again.
use pythonbtccollector.Common.{
  ℕ, ◌+◌, ◌≡◌, ◌≤◌, refl, subst, true, Option, none, some, List, [], ◌∷◌, ◌++◌, leb, arith,
}
use pythonbtccollector.Common.Result.{ok, err, ◌>>=◌, >>=_inv, ok_inj}
use pythonbtccollector.Capture.Checks.{
  Checked, Test, require, require-Holds, require_all, require_int, require_positive_count,
  IsPositive,
}
use pythonbtccollector.Capture.Records.{receive_stamp, stamp_tests, feed_session_record, not_after}
use pythonbtccollector.Capture.Counters.{
  CaptureCounters, when_counted, message_received, message_accepted, parse_error,
}
use pythonbtccollector.Capture.Session.{
  FeedSession, is_none, mark_ready, next_receive_stamp, outcome_tests, mark_accepted,
  mark_parse_error, mark_record_dropped, session_fields, finish_open, finish_by, finish_session,
}
use pythonbtccollector.Capture.Types.{
  postgres_bigint_max, CloseReason, ReceiveStamp, FeedSessionRecord, ready_precedes_connection,
  disconnect_precedes_connection, disconnect_precedes_ready, session_closed, already_ready,
}

-- The clocks of `mark_ready`, when it was called.
unfoldable pub IsReady : ℕ → Option ℕ → Option ℕ → Type 0
IsReady connected none none = Unit
IsReady connected (some wall) (some mono) = IsPositive wall × IsPositive mono × (connected ≤ mono)
IsReady connected _ _ = ⊥

pub record IsCounting (wall mono : ℕ) (ready_wall ready_mono : Option ℕ)
    (received accepted errors sequence : ℕ) : Type 0 where
  pub wall_stored : IsPositive wall
  pub mono_stored : IsPositive mono
  pub ready : IsReady mono ready_wall ready_mono
  pub outcomes : accepted + errors ≤ received
  pub sequential : sequence ≡ received
  pub received_stored : received ≤ postgres_bigint_max

abbrev pub IsSession : FeedSession → Type 0
IsSession s =
    IsCounting s.connected_wall_ns s.connected_monotonic_ns s.ready_wall_ns s.ready_monotonic_ns
      s.messages_received_total s.messages_accepted_total s.parse_errors_total s.receive_sequence

pub data SessionCall : Type 0 where
  readies : ℕ → ℕ → SessionCall
  receives : ℕ → ℕ → SessionCall
  accepts : ℕ → SessionCall
  fails_parsing : ℕ → SessionCall
  drops_records : ℕ → SessionCall
  finishes : CloseReason → ℕ → ℕ → SessionCall

-- A call that raises changes nothing.
unfoldable pub or_unchanged : {A : Type 0} → A → Checked A → A
or_unchanged s (ok t) = t
or_unchanged s (err e) = s

abbrev pub Counted : Type 0
Counted = FeedSession × Option CaptureCounters

-- `(session, counters)` after a call.
unfoldable pub session_call : SessionCall → Counted → Counted
unfolding mark_ready next_receive_stamp mark_accepted mark_parse_error mark_record_dropped
    finish_session or_unchanged
session_call (readies wall mono) (s, c) = (or_unchanged s (mark_ready wall mono s), c)
session_call (receives wall mono) (s, c) =
    or_unchanged (s, c) (next_receive_stamp wall mono s c >>= λ r. ok (r.1, r.2))
session_call (accepts count) (s, c) = or_unchanged (s, c) (mark_accepted count s c)
session_call (fails_parsing count) (s, c) = or_unchanged (s, c) (mark_parse_error count s c)
session_call (drops_records count) (s, c) = (or_unchanged s (mark_record_dropped count s), c)
session_call (finishes reason wall mono) (s, c) =
    (or_unchanged s (finish_session reason wall mono s >>= λ r. ok r.1), c)

unfoldable pub session_calls : List SessionCall → Counted → Counted
unfolding session_call
session_calls [] s = s
session_calls (call ∷ calls) s = session_calls calls (session_call call s)

-- A predicate on what a call leaves, when it holds of the state before and of what the call returns.
or_unchanged-keeps :
    {A : Type 0} (P : A → Type 0) (s : A) (m : Checked A)
    → P s
    → ((t : A) → m ≡ ok t → P t)
    → P (or_unchanged s m)
unfolding or_unchanged
or_unchanged-keeps P s (ok t) p f = f t refl
or_unchanged-keeps P s (err e) p f = p

mark_ready-keeps :
    (wall mono : ℕ) (s t : FeedSession) → IsSession s → mark_ready wall mono s ≡ ok t → IsSession t
unfolding mark_ready IsReady require_all require_int
mark_ready-keeps wall mono s t h e =
    let (holds, same) =
      require-Holds
        ((is_none s.closed_record, session_closed)
            ∷ (is_none s.ready_wall_ns, already_ready)
            ∷ require_all true (wall ∷ mono ∷ [])
          ++ (leb s.connected_monotonic_ns mono, ready_precedes_connection) ∷ [])
        (record s { ready_wall_ns = some wall; ready_monotonic_ns = some mono }) t e in
    let (open_now, (first, (w₀, (w₁, (m₀, (m₁, (late, u))))))) = holds in
    subst IsSession same (record {
      wall_stored = h.wall_stored;
      mono_stored = h.mono_stored;
      ready = (
        (ground (arith, w₀), ground (arith, w₁)),
        (ground (arith, m₀), ground (arith, m₁)),
        ground (arith, late),
      );
      outcomes = h.outcomes;
      sequential = h.sequential;
      received_stored = h.received_stored;
    })

receive-keeps :
    (wall mono : ℕ) (s : FeedSession) (c : Option CaptureCounters) (t : Counted)
    → IsSession s
    → (next_receive_stamp wall mono s c >>= λ r. ok (r.1, r.2)) ≡ ok t
    → IsSession t.0
unfolding next_receive_stamp receive_stamp stamp_tests require_all require_int
receive-keeps wall mono s c t h e =
    let st : ReceiveStamp = record {
      connection_id = s.connection_id;
      receive_sequence = s.receive_sequence + 1;
      received_wall_ns = wall;
      received_monotonic_ns = mono;
    } in
    let (r, e₁, e₂) = >>=_inv (next_receive_stamp wall mono s c) _ e in
    let (u, tested, e₃) =
      >>=_inv (require ((is_none s.closed_record, session_closed) ∷ []) s) _ e₁ in
    let (stamp, stamped, e₄) = >>=_inv (receive_stamp st) _ e₃ in
    let (counted, q, e₅) = >>=_inv (when_counted (λ n. ok (message_received n)) c) _ e₄ in
    let (s₀, (s₁, others)) = (require-Holds (stamp_tests st) st stamp stamped).0 in
    let next = record s {
      receive_sequence = s.receive_sequence + 1;
      messages_received_total = s.messages_received_total + 1;
    } in
    let after : IsSession next = record {
      wall_stored = h.wall_stored;
      mono_stored = h.mono_stored;
      ready = h.ready;
      outcomes = omega (arith, h.outcomes);
      sequential = omega (arith, h.sequential);
      received_stored = ground (arith, s₁, h.sequential);
    } in
    subst (λ (k : Counted). IsSession k.0) (ok_inj e₂)
      (subst (λ (k : ReceiveStamp × FeedSession × Option CaptureCounters). IsSession k.1)
        (ok_inj e₅) after)

outcome-fits :
    (count : ℕ) (s u : FeedSession)
    → require (outcome_tests count s) s ≡ ok u
    → s.messages_accepted_total + s.parse_errors_total + count ≤ s.messages_received_total
unfolding outcome_tests require_positive_count require_int
outcome-fits count s u e =
    let (open_now, (c₀, (c₁, (fits, v)))) = (require-Holds (outcome_tests count s) s u e).0 in
    ground (arith, fits)

accept-keeps :
    (count : ℕ) (s : FeedSession) (c : Option CaptureCounters) (t : Counted)
    → IsSession s
    → mark_accepted count s c ≡ ok t
    → IsSession t.0
unfolding mark_accepted
accept-keeps count s c t h e =
    let (u, tested, e₁) = >>=_inv (require (outcome_tests count s) s) _ e in
    let (counted, q, e₂) = >>=_inv (when_counted (message_accepted count) c) _ e₁ in
    subst (λ (k : Counted). IsSession k.0) (ok_inj e₂)
      (record {
        wall_stored = h.wall_stored;
        mono_stored = h.mono_stored;
        ready = h.ready;
        outcomes = omega (arith, outcome-fits count s u tested);
        sequential = h.sequential;
        received_stored = h.received_stored;
      })

parse_error-keeps :
    (count : ℕ) (s : FeedSession) (c : Option CaptureCounters) (t : Counted)
    → IsSession s
    → mark_parse_error count s c ≡ ok t
    → IsSession t.0
unfolding mark_parse_error
parse_error-keeps count s c t h e =
    let (u, tested, e₁) = >>=_inv (require (outcome_tests count s) s) _ e in
    let (counted, q, e₂) = >>=_inv (when_counted (parse_error count) c) _ e₁ in
    subst (λ (k : Counted). IsSession k.0) (ok_inj e₂)
      (record {
        wall_stored = h.wall_stored;
        mono_stored = h.mono_stored;
        ready = h.ready;
        outcomes = omega (arith, outcome-fits count s u tested);
        sequential = h.sequential;
        received_stored = h.received_stored;
      })

drop-keeps :
    (count : ℕ) (s t : FeedSession) → IsSession s → mark_record_dropped count s ≡ ok t → IsSession t
unfolding mark_record_dropped
drop-keeps count s t h e =
    let tests : List Test =
      ((is_none s.closed_record, session_closed) ∷ require_positive_count count) in
    let next = record s { records_dropped_total = s.records_dropped_total + count } in
    subst IsSession (require-Holds tests next t e).1 h

finish-keeps :
    (reason : CloseReason) (wall mono : ℕ) (s : FeedSession) (closed : Option FeedSessionRecord)
    (r : FeedSessionRecord × FeedSession)
    → IsSession s
    → finish_by reason wall mono s closed ≡ ok r
    → IsSession r.1
unfolding finish_by finish_open
finish-keeps reason wall mono s (some closed) r h e =
    subst (λ (k : FeedSessionRecord × FeedSession). IsSession k.1) (ok_inj e) h
finish-keeps reason wall mono s none r h e =
    let tests : List Test =
      ((leb s.connected_monotonic_ns mono, disconnect_precedes_connection)
        ∷ (not_after s.ready_monotonic_ns mono, disconnect_precedes_ready)
        ∷ []) in
    let (u, tested, e₁) = >>=_inv (require tests s) _ e in
    let (made, q, e₂) =
      >>=_inv (feed_session_record (session_fields (some wall) (some mono) (some reason) s)) _ e₁ in
    subst (λ (k : FeedSessionRecord × FeedSession). IsSession k.1) (ok_inj e₂) h

session_call-keeps :
    (call : SessionCall) (s : Counted) → IsSession s.0 → IsSession (session_call call s).0
unfolding session_call finish_session
session_call-keeps (readies wall mono) (s, c) h =
    or_unchanged-keeps IsSession s (mark_ready wall mono s) h
      (λ t e. mark_ready-keeps wall mono s t h e)
session_call-keeps (receives wall mono) (s, c) h =
    or_unchanged-keeps (λ (k : Counted). IsSession k.0) (s, c)
      (next_receive_stamp wall mono s c >>= λ r. ok (r.1, r.2)) h
      (λ t e. receive-keeps wall mono s c t h e)
session_call-keeps (accepts count) (s, c) h =
    or_unchanged-keeps (λ (k : Counted). IsSession k.0) (s, c) (mark_accepted count s c) h
      (λ t e. accept-keeps count s c t h e)
session_call-keeps (fails_parsing count) (s, c) h =
    or_unchanged-keeps (λ (k : Counted). IsSession k.0) (s, c) (mark_parse_error count s c) h
      (λ t e. parse_error-keeps count s c t h e)
session_call-keeps (drops_records count) (s, c) h =
    or_unchanged-keeps IsSession s (mark_record_dropped count s) h (λ t e. drop-keeps count s t h e)
session_call-keeps (finishes reason wall mono) (s, c) h =
    or_unchanged-keeps IsSession s (finish_session reason wall mono s >>= λ r. ok r.1) h (λ t e.
      let (r, q, e₁) = >>=_inv (finish_session reason wall mono s) _ e in
      subst IsSession (ok_inj e₁) (finish-keeps reason wall mono s s.closed_record r h q))

pub session_calls-keeps :
    (calls : List SessionCall) (s : Counted) → IsSession s.0 → IsSession (session_calls calls s).0
unfolding session_calls
session_calls-keeps [] s h = h
session_calls-keeps (call ∷ calls) s h =
    session_calls-keeps calls (session_call call s) (session_call-keeps call s h)

-- ===== src/Stream/Source.antt =====
-- Where GhostStreamHub of price_collector/ghost_twap_stream.py takes its reads from: the cached value
-- (`_authoritative`), the messages of a subscription (`_pump`, `_connection`) and the restarts of
-- `_supervise`. Redis answers and failures are arguments, and so is the parser that the hub is given.
pub mod Lifetime
pub mod Buffer
use pythonbtccollector.Common.{
  ℕ, ◌+◌, ◌-◌, ◌*◌, Bool, true, false, Option, none, some, List, [], ◌∷◌, ◌++◌, zero, suc, ltb, leb,
  ◌||◌, not, if◌then◌else◌, length, min, max, String,
}
use pythonbtccollector.Common.Int.{ℤ, pos, negsuc}
use pythonbtccollector.Common.Result.{Result, ok, err}
use text.Mathlib.Text.{◌==◌ as str_eq}
use pythonbtccollector.Ghost.Types.{ns_per_ms}
use pythonbtccollector.Stream.Types.{
  Bytes, GhostPayload, GhostRead, Clock, StreamReason, absent, inconsistent_cache,
  invalid_cache_ttl, invalid_payload, resyncing, connecting, redis_unavailable,
  api_clock_regression, subscriber_reconnected, subscriber_buffer_overflow, StreamError,
  resync_error, Raising, invalid_ghost_payload,
}
use pythonbtccollector.Stream.Read.{bind_read_clock}
use pythonbtccollector.Stream.Hub.{Hub, Outcome, Producer, emit}
use pythonbtccollector.Stream.Hub.Accept.{accept_read}

-- `parse_payload` of the hub: None where it raises InvalidGhostPayload.
abbrev pub Parser : Type 0
Parser = Bytes → Option GhostPayload

abbrev pub parse_and_bind : Parser → Bytes → Clock → Raising GhostRead
parse_and_bind parse raw now = elim (parse raw) [
  | none ↦ err invalid_ghost_payload
  | some p ↦ bind_read_clock p now
]

abbrev pub refuse : StreamReason → Bool → Clock → Hub → Outcome (Unit {0})
refuse reason resync stamp hub =
    (ok tt, emit none reason resync stamp (record hub { needs_authoritative = true }))

-- The lifetime that the cache leaves: a negative one counts as 0.
abbrev pub ttl_deadline : Clock → Clock → ℕ → ℕ
ttl_deadline start finish ttl =
    finish.mono
    + (ttl * ns_per_ms - max (finish.wall - start.wall) (finish.mono - start.mono) - ns_per_ms)

abbrev pub bound_by_ttl : Clock → Clock → ℕ → GhostRead → GhostRead
bound_by_ttl start finish ttl r = record r {
  api_deadline_monotonic_ns = min r.api_deadline_monotonic_ns (ttl_deadline start finish ttl);
}

abbrev pub accept_bound :
    Raising GhostRead → Clock → Clock → ℕ → Bool → Clock → Clock → Hub → Outcome (Unit {0})
accept_bound (err e) start finish ttl resync now stamp hub = refuse invalid_payload resync stamp hub
accept_bound (ok r) start finish ttl resync now stamp hub =
    accept_read true resync now stamp (bound_by_ttl start finish ttl r) hub

abbrev pub is_gone : ℤ → Bool
is_gone (negsuc (suc zero)) = true
is_gone _ = false

-- The answers to GET and PTTL.
pub record CacheAnswer : Type 0 where
  pub raw : Option Bytes
  pub ttl : ℤ

abbrev pub read_answer :
    Parser → Clock → Clock → Option Bytes → ℤ → Bool → Clock → Clock → Hub → Outcome (Unit {0})
read_answer parse start finish none ttl resync now stamp hub =
    refuse (if is_gone ttl then absent else inconsistent_cache) resync stamp hub
read_answer parse start finish (some raw) (negsuc n) resync now stamp hub =
    refuse invalid_cache_ttl resync stamp hub
read_answer parse start finish (some raw) (pos ttl) resync now stamp hub =
    if leb ttl 0
    then refuse invalid_cache_ttl resync stamp hub
    else accept_bound (parse_and_bind parse raw finish) start finish ttl resync now stamp hub

-- `_authoritative` from the answer of its request on; a fault of the pump is raised first.
unfoldable pub authoritative :
    Parser
    → Clock
    → Clock
    → CacheAnswer
    → List StreamError
    → Bool
    → Clock
    → Clock
    → Hub
    → Outcome (Unit {0})
unfolding emit accept_read bind_read_clock
authoritative parse start finish answer (fault ∷ faults) resync now stamp hub = (err fault, hub)
authoritative parse start finish answer [] resync now stamp hub =
    if ltb finish.wall start.wall || ltb finish.mono start.mono
    then (err (resync_error api_clock_regression), hub)
    else read_answer parse start finish answer.raw answer.ttl resync now stamp hub

-- An item between `_pump` and `_connection`: a publication with its clocks, or the fault of the pump.
-- The bytes are None where the message held none or too many.
pub data Received : Type 0 where
  publication : Option Bytes → Clock → Received
  failure : StreamError → Received

-- The two variables that the tasks of one connection share.
pub record Connection : Type 0 where
  pub queue : List Received
  pub faults : List StreamError

abbrev pub new_connection : Connection
new_connection = record { queue = []; faults = [] }

-- The end of `_pump` by a fault: the fault replaces all that waits.
abbrev pub fail_pump : StreamError → Connection → Connection
fail_pump e c = record { queue = failure e ∷ []; faults = c.faults ++ e ∷ [] }

abbrev pub max_payload_bytes : ℕ
max_payload_bytes = 65_536

-- The data of a message: None for what is no bytes, or for too many.
abbrev pub bounded_bytes : Option Bytes → Option Bytes
bounded_bytes none = none
bounded_bytes (some raw) = if ltb max_payload_bytes (length raw) then none else some raw

-- A publication in `_pump`: a full buffer is a fault.
unfoldable pub receive_publication : ℕ → Option Bytes → Clock → Connection → Connection
receive_publication buffer_size raw at c =
    if leb buffer_size (length c.queue)
    then fail_pump (resync_error subscriber_buffer_overflow) c
    else record c { queue = c.queue ++ publication (bounded_bytes raw) at ∷ [] }

-- The messages of a subscription in their order, up to the first fault, which ends `_pump`.
unfoldable pub receive_all : ℕ → List (Option Bytes × Clock) → Connection → Connection
unfolding receive_publication
receive_all buffer_size [] c = c
receive_all buffer_size ((raw, at) ∷ messages) c =
    let rest = receive_all buffer_size messages (receive_publication buffer_size raw at c) in
    elim c.faults [ [] ↦ rest | e ∷ faults ↦ c ]

-- A later acknowledgement in `_pump`: a connection was lost and made again.
unfoldable pub receive_acknowledgement : Clock → Connection → Hub → Connection × Hub
unfolding emit
receive_acknowledgement stamp c hub = (
  fail_pump (resync_error subscriber_reconnected) c,
  emit none subscriber_reconnected true stamp (record hub { needs_authoritative = true }),
)

abbrev pub is_other_producer : Option Producer → String → Bool
is_other_producer none run = true
is_other_producer (some p) run = not (str_eq run p.run)

-- What `_connection` does with a publication: it reads the cache next where the result is true.
abbrev pub without_request : Outcome (Unit {0}) → Outcome Bool
without_request (ok done, hub) = (ok false, hub)
without_request (err e, hub) = (err e, hub)

abbrev pub consume_read : Raising GhostRead → Clock → Clock → Hub → Outcome Bool
consume_read (err e) now stamp hub = (ok false, emit none invalid_payload false stamp hub)
consume_read (ok r) now stamp hub =
    if hub.needs_authoritative || is_other_producer hub.producer r.payload.run_id
    then (ok true, emit none resyncing true stamp hub)
    else without_request (accept_read false false now stamp r hub)

abbrev pub parse_publication : Parser → Option Bytes → Clock → Raising GhostRead
parse_publication parse none at = err invalid_ghost_payload
parse_publication parse (some raw) at = parse_and_bind parse raw at

unfoldable pub consume : Parser → Received → Clock → Clock → Hub → Outcome Bool
unfolding emit accept_read bind_read_clock
consume parse (failure e) now stamp hub = (err e, hub)
consume parse (publication raw at) now stamp hub =
    consume_read (parse_publication parse raw at) now stamp hub

-- `_supervise`: the start of a connection, and the end of one by an error.
unfoldable pub begin_connection : Clock → Hub → Hub
unfolding emit
begin_connection stamp hub =
    emit none connecting true stamp (record hub { generation = hub.generation + 1 })

abbrev pub reason_of : StreamError → StreamReason
reason_of (resync_error reason) = reason
reason_of _ = redis_unavailable

unfoldable pub fail_connection : StreamError → Clock → Hub → Hub
unfolding emit
fail_connection e stamp hub = emit none (reason_of e) true stamp hub

-- `_health`: a heartbeat repeats the snapshot with its own bound.
unfoldable pub heartbeat : Clock → Hub → Hub
unfolding emit
heartbeat stamp hub = emit hub.snapshot.read hub.snapshot.reason false stamp hub

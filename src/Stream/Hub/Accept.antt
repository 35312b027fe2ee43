-- ===== src/Stream/Hub/Accept.antt =====
-- `_accept` of GhostStreamHub in price_collector/ghost_twap_stream.py: which reads become the
-- snapshot. The readings are those of its last check and of the update it emits.
use text.Mathlib.Text.{◌==◌ as str_eq}
use pythonbtccollector.Common.{
  ℕ, ◌+◌, Bool, true, false, Option, none, some, ltb, ◌==◌, if◌then◌else◌, not, min,
}
use pythonbtccollector.Common.Result.{ok, err}
use pythonbtccollector.Stream.Types.{
  GhostRead, GhostPayload, Clock, expired, conflicting_payload, regressed_snapshot, fresh,
  no_eligible_horizons, unconfirmed_producer, resync_error, Raising, bytes_eq, Identity,
  identity_of, identity_eq,
}
use pythonbtccollector.Stream.Read.{is_fresh, has_eligible_prices}
use pythonbtccollector.Stream.Hub.{Hub, Producer, Outcome, emit}

abbrev pub is_conflicted : Option Identity → GhostPayload → Bool
is_conflicted none p = false
is_conflicted (some identity) p = identity_eq identity (identity_of p)

abbrev pub producer_of : GhostRead → Producer
producer_of r = record {
  run = r.payload.run_id;
  sequence = r.payload.decision_id;
  raw = r.payload.raw;
  deadline = r.api_deadline_monotonic_ns;
}

abbrev pub show_by : GhostRead → Raising Bool → Bool → Clock → Hub → Outcome (Unit {0})
show_by r (err e) resync stamp hub = (err e, hub)
show_by r (ok false) resync stamp hub = (ok tt, emit none expired resync stamp hub)
show_by r (ok true) resync stamp hub = (
  ok tt,
  emit (some r) (if has_eligible_prices r.payload then fresh else no_eligible_horizons) resync stamp
      hub,
)

-- The read becomes the producer's, and is shown if it is still fresh.
unfoldable pub install : GhostRead → Bool → Clock → Clock → Hub → Outcome (Unit {0})
unfolding is_fresh emit
install r resync now stamp hub =
    show_by r (is_fresh r now) resync stamp
      (record hub { producer = some (producer_of r); needs_authoritative = false })

abbrev pub shorten : GhostRead → ℕ → GhostRead
shorten r deadline = record r {
  api_deadline_monotonic_ns = min r.api_deadline_monotonic_ns deadline;
}

-- The decision that the hub already holds.
abbrev pub accept_again :
    Producer → Bool → Bool → Clock → Clock → GhostRead → Hub → Outcome (Unit {0})
accept_again p authoritative resync now stamp r hub =
    if not (bytes_eq r.payload.raw p.raw)
    then (
      ok tt,
      emit none conflicting_payload resync stamp
          (record hub { conflicted_identity = some (identity_of r.payload) }),
    )
    else if not authoritative
    then (ok tt, hub)
    else install (shorten r p.deadline) resync now stamp hub

abbrev pub accept_same_run :
    Producer → Bool → Bool → Clock → Clock → GhostRead → Hub → Outcome (Unit {0})
accept_same_run p authoritative resync now stamp r hub =
    if ltb r.payload.decision_id p.sequence
    then (ok tt, if authoritative then emit none regressed_snapshot resync stamp hub else hub)
    else if r.payload.decision_id == p.sequence
    then accept_again p authoritative resync now stamp r hub
    else install r resync now stamp hub

abbrev pub accept_other_run : ℕ → Bool → Bool → Clock → Clock → GhostRead → Hub → Outcome (Unit {0})
accept_other_run generation authoritative resync now stamp r hub =
    if not authoritative
    then (err (resync_error unconfirmed_producer), hub)
    else install r resync now stamp
        (record hub { generation = generation; conflicted_identity = none })

abbrev pub accept_from :
    Option Producer → Bool → Bool → Clock → Clock → GhostRead → Hub → Outcome (Unit {0})
accept_from none authoritative resync now stamp r hub =
    accept_other_run hub.generation authoritative resync now stamp r hub
accept_from (some p) authoritative resync now stamp r hub =
    if str_eq r.payload.run_id p.run
    then accept_same_run p authoritative resync now stamp r hub
    else accept_other_run (hub.generation + 1) authoritative resync now stamp r hub

unfoldable pub accept_read : Bool → Bool → Clock → Clock → GhostRead → Hub → Outcome (Unit {0})
unfolding emit install
accept_read authoritative resync now stamp r hub =
    if is_conflicted hub.conflicted_identity r.payload
    then (ok tt, emit none conflicting_payload resync stamp hub)
    else accept_from hub.producer authoritative resync now stamp r hub

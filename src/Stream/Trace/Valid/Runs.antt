-- ===== src/Stream/Trace/Valid/Runs.antt =====
-- Sequences of steps keep what holds of a hub, and what clients therefore see.
use pythonbtccollector.Common.{ℕ, ◌+◌, ◌≡◌, String, true, false, none, some, List, [], ◌∷◌, All}
use pythonbtccollector.Stream.Types.{Clock, GhostRead}
use pythonbtccollector.Stream.Read.{is_clock}
use pythonbtccollector.Stream.Hub.{Hub, new_hub}
use pythonbtccollector.Stream.Hub.Accept.{producer_of, is_conflicted}
use pythonbtccollector.Stream.Source.{
  Parser, heartbeat, begin_connection, fail_connection, receive_acknowledgement,
}
use pythonbtccollector.Stream.Trace.{
  Event, registering, unregistering, closing_hub, waiting_next, taking_next, expiring, beating,
  reading_cache, acknowledged, consuming, connected, failed, step, run,
}
use pythonbtccollector.Stream.Trace.Valid.{IsValid, IsServed, emit-IsValid}
use pythonbtccollector.Stream.Trace.Valid.Clients.{
  new_hub-IsValid, expire-IsValid, unregister-IsValid, close-IsValid, register-IsValid,
  begin_next-IsValid, finish_next-IsValid,
}
use pythonbtccollector.Stream.Trace.Valid.Sources.{authoritative-IsValid, consume-IsValid}

-- The clocks at the check of an accepted read are in range.
abbrev pub IsTimed : Event → Type 0
IsTimed (reading_cache start finish answer faults resync now stamp) = is_clock now ≡ true
IsTimed (consuming item now stamp) = is_clock now ≡ true
IsTimed _ = Unit

module _ (parse : Parser) where
  step-IsValid : (e : Event) (hub : Hub) → IsTimed e → IsValid hub → IsValid (step parse e hub)
  unfolding step heartbeat begin_connection fail_connection receive_acknowledgement
  step-IsValid (registering now stamp) hub timed v = register-IsValid now stamp hub v
  step-IsValid (unregistering i) hub timed v = unregister-IsValid i hub v
  step-IsValid closing_hub hub timed v = close-IsValid hub v
  step-IsValid (waiting_next i now stamp) hub timed v = begin_next-IsValid i now stamp hub v
  step-IsValid (taking_next i t) hub timed v = finish_next-IsValid i t hub v
  step-IsValid (expiring now stamp) hub timed v = expire-IsValid now stamp hub v
  step-IsValid (beating stamp) hub timed v =
      emit-IsValid hub.snapshot.read hub.snapshot.reason false stamp hub hub.snapshot v.served
        v.shown
  step-IsValid (reading_cache start finish answer faults resync now stamp) hub timed v =
      authoritative-IsValid parse start finish answer faults resync now stamp hub timed v
  step-IsValid (acknowledged stamp) hub timed v =
      emit-IsValid none _ true stamp (record hub { needs_authoritative = true }) hub.snapshot
        v.served tt
  step-IsValid (consuming item now stamp) hub timed v =
      consume-IsValid parse item now stamp hub timed v
  step-IsValid (connected stamp) hub timed v =
      emit-IsValid none _ true stamp (record hub { generation = hub.generation + 1 }) hub.snapshot
        v.served tt
  step-IsValid (failed e stamp) hub timed v =
      emit-IsValid none _ true stamp hub hub.snapshot v.served tt

  pub run-IsValid :
      (events : List Event) (hub : Hub)
      → All IsTimed events
      → IsValid hub
      → IsValid (run parse events hub)
  unfolding run
  run-IsValid [] hub timed v = v
  run-IsValid (e ∷ events) hub timed v =
      run-IsValid events (step parse e hub) timed.1 (step-IsValid e hub timed.0 v)

-- After any interleaving of steps of a new hub in which the clocks are in range at each check of a
-- read that came from the cache or a publication, the hub holds just the clients that are not closed,
-- and such a client waits for the very snapshot of the hub, which has the latest sequence number, or
-- for nothing; a closed client waits for nothing or for the mark of its end.
pub latest_only :
    (parse : Parser) (max : ℕ) (id : String) (start : Clock) (events : List Event)
    → All IsTimed events
    → let hub = run parse events (new_hub max id start) in
      (hub.snapshot.sequence ≡ hub.sequence) × All (IsServed hub.snapshot) hub.clients
latest_only parse max id start events timed =
    let v = run-IsValid parse events _ timed (new_hub-IsValid max id start) in
    (v.numbered, v.served)

-- After any interleaving of steps of a new hub in which the clocks are in range at each check of a
-- read that came from the cache or a publication, a read that it shows has the run, the decision, the
-- bytes and the local deadline that the hub last accepted, the hub awaits no authoritative read, and
-- no conflict is known of the decision.
pub shown_read :
    (parse : Parser) (max : ℕ) (id : String) (start : Clock) (events : List Event) {r : GhostRead}
    → All IsTimed events
    → let hub = run parse events (new_hub max id start) in
      hub.snapshot.read ≡ some r
      → (hub.needs_authoritative ≡ false)
        × (hub.producer ≡ some (producer_of r))
        × (is_conflicted hub.conflicted_identity r.payload ≡ false)
shown_read parse max id start events timed p =
    rw p at (run-IsValid parse events _ timed (new_hub-IsValid max id start)).shown

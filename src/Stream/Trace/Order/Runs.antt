-- ===== src/Stream/Trace/Order/Runs.antt =====
-- Every step of a hub of price_collector/ghost_twap_stream.py follows on the steps before it.
use pythonbtccollector.Common.{◌+◌, true, false, none, List, [], ◌∷◌, arith}
use pythonbtccollector.Stream.Client.{at_index}
use pythonbtccollector.Stream.Hub.{Hub, unregister, begin_next, finish_next, waiting_item}
use pythonbtccollector.Stream.Source.{
  Parser, heartbeat, begin_connection, fail_connection, receive_acknowledgement,
}
use pythonbtccollector.Stream.Trace.{
  Event, registering, unregistering, closing_hub, waiting_next, taking_next, expiring, beating,
  reading_cache, acknowledged, consuming, connected, failed, step, run,
}
use pythonbtccollector.Stream.Trace.Order.{
  Follows, Follows-refl, Follows-trans, emit-Follows, kept-Follows, changed-Follows,
}
use pythonbtccollector.Stream.Trace.Order.Clients.{
  expire-Follows, clients-Follows, register-Follows, close-Follows, begin_at-Follows,
  take_item-Follows,
}
use pythonbtccollector.Stream.Trace.Order.Sources.{authoritative-Follows, consume-Follows}

module _ (parse : Parser) where
  step-Follows : (e : Event) (h : Hub) → Follows h (step parse e h)
  unfolding step heartbeat begin_connection fail_connection receive_acknowledgement unregister
      begin_next finish_next
  step-Follows (registering now stamp) h = register-Follows now stamp h
  step-Follows (unregistering i) h = clients-Follows _ h
  step-Follows closing_hub h = close-Follows h
  step-Follows (waiting_next i now stamp) h = begin_at-Follows (at_index i h.clients) now stamp h
  step-Follows (taking_next i t) h = take_item-Follows i (waiting_item i h) t h
  step-Follows (expiring now stamp) h = expire-Follows now stamp h
  step-Follows (beating stamp) h =
      emit-Follows h.snapshot.read h.snapshot.reason false stamp h h (Follows-refl h)
  step-Follows (reading_cache start finish answer faults resync now stamp) h =
      authoritative-Follows parse start finish answer faults resync now stamp h
  step-Follows (acknowledged stamp) h =
      emit-Follows none _ true stamp h (record h { needs_authoritative = true })
        (kept-Follows h h.clients h.closed true h.conflicted_identity)
  step-Follows (consuming item now stamp) h = consume-Follows parse item now stamp h
  step-Follows (connected stamp) h =
      emit-Follows none _ true stamp h (record h { generation = h.generation + 1 })
        (changed-Follows h (h.generation + 1) h.clients h.closed h.needs_authoritative h.producer
          h.conflicted_identity (omega arith) (λ e. absurd (omega (arith, e))))
  step-Follows (failed e stamp) h = emit-Follows none _ true stamp h h (Follows-refl h)

  -- Over every sequence of steps of a hub: the sequence numbers and the generation do not fall, a
  -- sequence number names one update, and as long as the generation is the same, the run of the
  -- producer, once there is one, stays the same, its accepted decision does not fall, and for the
  -- same decision the bytes are the same and the local deadline is no later.
  pub run-Follows : (events : List Event) (h : Hub) → Follows h (run parse events h)
  unfolding run
  run-Follows [] h = Follows-refl h
  run-Follows (e ∷ events) h =
      Follows-trans h (step parse e h) _ (step-Follows e h) (run-Follows events (step parse e h))

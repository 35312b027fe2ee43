-- ===== src/Stream/Trace.antt =====
-- Sequences of what happens to one GhostStreamHub of price_collector/ghost_twap_stream.py: its tasks
-- and the requests of its clients interleave between the waits of the event loop, so each constructor
-- is the work between two waits.
pub mod Valid
pub mod Order
use pythonbtccollector.Common.{ℕ, ◌+◌, Bool, Option, List, [], ◌∷◌}
use pythonbtccollector.Stream.Types.{Bytes, Clock, StreamError}
use pythonbtccollector.Stream.Read.{is_fresh, bind_read_clock}
use pythonbtccollector.Stream.Hub.{
  Hub, emit, expire, Readings, register, unregister, close, begin_next, finish_next,
}
use pythonbtccollector.Stream.Hub.Accept.{install, accept_read}
use pythonbtccollector.Stream.Source.{
  Parser, CacheAnswer, Received, Connection, new_connection, authoritative, receive_publication,
  receive_acknowledgement, consume, begin_connection, fail_connection, heartbeat,
}

pub data Event : Type 0 where
  registering : Clock → Clock → Event
  unregistering : ℕ → Event
  closing_hub : Event
  waiting_next : ℕ → Clock → Clock → Event
  taking_next : ℕ → Readings → Event
  expiring : Clock → Clock → Event
  beating : Clock → Event
  reading_cache : Clock → Clock → CacheAnswer → List StreamError → Bool → Clock → Clock → Event
  acknowledged : Clock → Event
  consuming : Received → Clock → Clock → Event
  connected : Clock → Event
  failed : StreamError → Clock → Event

module _ (parse : Parser) where
  unfoldable pub step : Event → Hub → Hub
  unfolding emit is_fresh expire register unregister close begin_next finish_next install
      accept_read bind_read_clock authoritative consume begin_connection fail_connection heartbeat
      receive_acknowledgement
  step (registering now stamp) hub = (register now stamp hub).1
  step (unregistering i) hub = unregister i hub
  step closing_hub hub = close hub
  step (waiting_next i now stamp) hub = (begin_next i now stamp hub).1
  step (taking_next i t) hub = (finish_next i t hub).1
  step (expiring now stamp) hub = (expire now stamp hub).1
  step (beating stamp) hub = heartbeat stamp hub
  step (reading_cache start finish answer faults resync now stamp) hub =
      (authoritative parse start finish answer faults resync now stamp hub).1
  step (acknowledged stamp) hub = (receive_acknowledgement stamp new_connection hub).1
  step (consuming item now stamp) hub = (consume parse item now stamp hub).1
  step (connected stamp) hub = begin_connection stamp hub
  step (failed e stamp) hub = fail_connection e stamp hub

  unfoldable pub run : List Event → Hub → Hub
  unfolding step
  run [] hub = hub
  run (e ∷ events) hub = run events (step e hub)

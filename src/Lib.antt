-- ===== src/Lib.antt =====
-- The price collector: forecasts of the sixty-second Chainlink TWAP from live spot reports, and the
-- market windows and history floor that they share with the collectors.
--
-- Parts, and the file of price_collector/ that each models:
--   Market.antt            market.py, retention_policy.py: five-minute windows, the ten-day floor.
--   Ghost/Types.antt       ghost_twap.py: its dataclasses, with enumerations for its texts.
--   Ghost/Checks.antt      ghost_twap.py: _integer, _text, _price, the __post_init__ methods.
--   Ghost/Engine.antt      ghost_twap.py: the fields of GhostTwapEngine, _current_reasons, _prune.
--   Ghost/Gap.antt         ghost_twap.py: record_gap, _clear_ and _resolve_spot_reconnect.
--   Ghost/Accept.antt      ghost_twap.py: accept.
--   Ghost/Slots.antt, Ghost/Forecast.antt, Ghost/Snapshot.antt
--                          ghost_twap.py: snapshot, in the order in which it works.
--   Ghost/Trace.antt       sequences of calls on one engine.
--   Stream/Types.antt, Stream/Read.antt
--                          ghost_twap_payload.py: the payload, GhostRead, bind_read_clock; the data of
--                          ghost_twap_stream.py.
--   Stream/Client.antt, Stream/Hub.antt, Stream/Hub/Accept.antt
--                          ghost_twap_stream.py: StreamClient, and GhostStreamHub with its _emit,
--                          expire, register, unregister, close and _accept.
--   Stream/Source.antt     ghost_twap_stream.py: _authoritative, _pump, _connection, _supervise.
--   Stream/Trace.antt      interleavings of the tasks of one hub.
--   Health/Hours.antt, Health/Feeds.antt
--                          ghost_twap_health.py: the hours of GhostFeedHealth, and its methods.
--   Chainlink/Types.antt   polymarket_chainlink_collector.py: ticks, samples, and the sample of a tick.
--   Chainlink/Delivery.antt
--                          polymarket_chainlink_collector.py: ChainlinkDeliveryState.
--   Chainlink/Trace.antt   the calls of its reader and its workers, in any order.
--   Capture/Types.antt, Capture/Records.antt, Capture/Observations.antt, Capture/Checks.antt
--                          raw_capture.py: the records, their __post_init__ methods, _require_*.
--   Capture/Counters.antt, Capture/Session.antt
--                          raw_capture.py: CaptureCounters and FeedSession.
--   Capture/Coalescer.antt raw_capture.py: _PendingFuturesBucket, FuturesPriceTraceCoalescer.
--   Capture/Buffer.antt    raw_capture.py: OfferResult, DropOldestCaptureBuffer.
--   Capture/Batch.antt, Capture/Runtime.antt, Capture/Runtime/Steps.antt
--                          raw_capture.py: _write_batch and _run_maintenance; the other methods of
--                          RawCaptureRuntime; their steps in any order.
--   Outbox.antt, Outbox/Campaign.antt
--                          ghost_twap_spool.py: GhostSpool, its files of records and its campaign.
--   Common.antt and below  lists, dictionaries, integers, results and tests of numbers.
-- The proofs of a file stand in the modules below it; concrete runs and instances in the Tests
-- modules and in Ghost/Trace/Scenario.antt.
--
-- An engine is a record of the source's private fields. A method takes it and returns its result, or
-- the error that it raises, beside the engine as it was left: what a method wrote before it raised
-- stays written. The dictionary of events is the list of its entries, keyed by feed and source stamp;
-- a dictionary by feed is a field for each of the two feeds. Texts that the source compares or emits
-- are constructors, and a free text of a gap is kept as a text. Clocks and counters of accepted data
-- are naturals, and a difference that may be negative is an integer.
--
-- A price is its number of quanta of 1E-18: the validation lets through no other Decimal, and sums of
-- such prices are exact. The mean is rounded once, half to even. The source divides at eighty digits
-- first and then rounds to the quantum; since a sum has at most forty digits, and a sixtieth is no
-- half unless it is one exactly, both give the same number.
--
-- The hub takes what the engine decided, by way of Redis: its payload carries the deadline of a
-- decision, which the hub binds to its own clocks. Each operation of the hub takes the clock readings
-- that it makes and the answers of Redis as arguments, and what runs between two waits of the event
-- loop is one step, so that every order of steps is an interleaving of its tasks. The parser of the
-- payload's bytes is a parameter, as it is in the source. A client is its index in the list of all
-- clients that were ever registered; the set that the hub iterates over is a flag of each.
--
-- The Chainlink collector hands each sample to two workers through one state. Its wake-up events are
-- left out: a worker that waits takes no step. The pending history is the list of the entries of its
-- dictionary in their order.
--
-- Raw capture shares one object of counters between its sessions, its coalescer, its buffer and its
-- writer, and so a function that counts takes the counters and returns them. Each validation of a
-- record is the list of its tests in their order, with what each raises. The writer task is a field
-- that says where it stands between two waits, with the batch it has in hand, and each piece of work
-- between waits is a function; a relation has one constructor for each piece and each cancellation,
-- so that it allows every order of the tasks and every answer of the storage backend, which is not
-- modelled. Durations are whole nanoseconds.
--
-- The outbox is a directory as a dictionary from the digest that names a file to the bytes that the
-- file holds. A write goes by way of a temporary file, which takes the bytes before it replaces the
-- file, and a crash stops it before, after any number of those bytes, or at the end; what was synced
-- is kept. The digest, json.dumps and json.loads are parameters; where a theorem says so, json.loads
-- is assumed to read what json.dumps wrote.
--
-- No fuel is used: each loop runs over a list, over the 89 slots, over the six horizons or over a
-- number of hours that is computed first.
--
-- Not modelled: the JSON encodings of a decision; the parsers of payloads and of feed messages; the
-- timing of pings, heartbeats and warnings, and the fields for logs; and the other modules of
-- price_collector, which are networking, storage and the HTTP interface around these parts, or feeds
-- of their own.
pub mod Common
pub mod Market
pub mod Ghost
pub mod Stream
pub mod Chainlink
pub mod Capture
pub mod Health
pub mod Outbox

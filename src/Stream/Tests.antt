-- ===== src/Stream/Tests.antt =====
-- Runs of the hub of price_collector/ghost_twap_stream.py on concrete payloads.
use pythonbtccollector.Common.{
  ℕ, ◌≡◌, refl, ◌⊎◌, ◌<◌, ◌≤◌, ◌*◌, true, false, none, some, Option, List, [], ◌∷◌, All, map,
}
use pythonbtccollector.Common.Int.{pos}
use pythonbtccollector.Common.Result.{ok}
use pythonbtccollector.Stream.Types.{
  Bytes, GhostPayload, GhostRead, Clock, StreamDelivery, StreamError,
}
use pythonbtccollector.Stream.Read.{bind_read_clock, is_fresh, bound_read_lifetime}
use pythonbtccollector.Stream.Hub.{Hub, new_hub, finish_next, Readings}
use pythonbtccollector.Stream.Hub.Accept.{producer_of, is_conflicted}
use pythonbtccollector.Stream.Hub.Freshness.{delivered_read_fresh}
use pythonbtccollector.Stream.Source.{
  Parser, CacheAnswer, publication, failure, authoritative, new_connection, receive_all,
}
use pythonbtccollector.Stream.Source.Buffer.{received_of, overflow, buffer_exact}
use pythonbtccollector.Stream.Trace.{Event, registering, reading_cache, consuming, connected, run}
use pythonbtccollector.Stream.Trace.Valid.{IsServed}
use pythonbtccollector.Stream.Trace.Valid.Runs.{latest_only, shown_read}
use pythonbtccollector.Stream.Trace.Order.{Follows}
use pythonbtccollector.Stream.Trace.Order.Runs.{run-Follows}

abbrev at_ms : ℕ → Clock
at_ms ms = record { wall = ms * 1_000_000; mono = ms * 1_000_000 }

abbrev payload : ℕ → GhostPayload
payload id = record {
  raw = id ∷ [];
  run_id = "run";
  decision_id = id;
  decision_wall_ns = 1_000_000;
  producer_decision_monotonic_ns = 1_000_000;
  publication_attempt_wall_ns = 1_000_000;
  producer_publication_attempt_monotonic_ns = 2_000_000;
  valid_until_wall_ns = 900_000_000;
  source_max_age_ms = 1000;
  receipt_max_age_ms = 1000;
  current_spot = none;
  current_twap = none;
  forecasts = [];
  eligible_horizons = 1 ∷ [];
}

abbrev parser : Parser
parser (id ∷ []) = some (payload id)
parser _ = none

abbrev bound : GhostRead
bound = record {
  payload = payload 7;
  received_wall_ns = 10_000_000;
  received_monotonic_ns = 10_000_000;
  api_deadline_monotonic_ns = 899_000_000;
}

bound_at : bind_read_clock (payload 7) (at_ms 10) ≡ ok bound
unfolding bind_read_clock
bound_at = refl

bound_fresh : is_fresh bound (at_ms 20) ≡ ok true
unfolding is_fresh
bound_fresh = refl

bound_read_lifetime_example :
    (20_000_000 < 900_000_000) × (20_000_000 < 1_010_000_000) × (33_000_000 < 912_000_000)
bound_read_lifetime_example =
    bound_read_lifetime (payload 7) (at_ms 10) (at_ms 20) {r = bound} bound_at bound_fresh

abbrev answer : CacheAnswer
answer = record { raw = some (7 ∷ []); ttl = pos 500 }

abbrev cached : GhostRead
cached = record bound { api_deadline_monotonic_ns = 507_000_000 }

-- A client registers, the cache is read, and a publication of the next decision arrives.
abbrev morning : List Event
morning =
    connected (at_ms 1)
    ∷ reading_cache (at_ms 8) (at_ms 10) answer [] true (at_ms 10) (at_ms 10)
    ∷ registering (at_ms 11) (at_ms 11)
    ∷ consuming (publication (some (8 ∷ [])) (at_ms 12)) (at_ms 12) (at_ms 12)
    ∷ []

abbrev start : Hub
start = new_hub 8 "hub" (at_ms 0)

abbrev published : GhostRead
published = record {
  payload = payload 8;
  received_wall_ns = 12_000_000;
  received_monotonic_ns = 12_000_000;
  api_deadline_monotonic_ns = 899_000_000;
}

abbrev hub : Hub
hub = run parser morning start

hub_shows : hub.snapshot.read ≡ some published
unfolding run new_hub
hub_shows = refl

-- The client lost the first update to the second.
abbrev readings : Readings
readings = record {
  now = at_ms 20;
  stamp = at_ms 20;
  later = at_ms 21;
  again = at_ms 22;
  last_stamp = at_ms 22;
}

abbrev delivery : StreamDelivery
delivery = record { update = hub.snapshot; skipped_updates = 1 }

hub_delivers : (finish_next 0 readings hub).0 ≡ ok (some delivery)
unfolding run new_hub finish_next
hub_delivers = refl

delivered_read_fresh_example :
    (is_fresh published (at_ms 21) ≡ ok true) ⊎ (is_fresh published (at_ms 22) ≡ ok true)
delivered_read_fresh_example =
    delivered_read_fresh 0 readings hub {d = delivery} {r = published} hub_delivers hub_shows

latest_only_example :
    (hub.snapshot.sequence ≡ hub.sequence) × All (IsServed hub.snapshot) hub.clients
latest_only_example = latest_only parser 8 "hub" (at_ms 0) morning (tt, (refl, (tt, (refl, tt))))

shown_read_example :
    (hub.needs_authoritative ≡ false)
    × (hub.producer ≡ some (producer_of published))
    × (is_conflicted hub.conflicted_identity (payload 8) ≡ false)
shown_read_example =
    shown_read parser 8 "hub" (at_ms 0) morning {r = published} (tt, (refl, (tt, (refl, tt))))
      hub_shows

run-Follows_example : Follows start hub
run-Follows_example = run-Follows parser morning start

abbrev request : Hub
request = (authoritative parser (at_ms 8) (at_ms 10) answer [] true (at_ms 10) (at_ms 10) start).1

abbrev no_faults : List StreamError
no_faults = []

abbrev two_messages : List (Option Bytes × Clock)
two_messages = (some (7 ∷ []), at_ms 1) ∷ (none, at_ms 2) ∷ []

buffer_exact_example :
    (2 ≤ 1
      → ((receive_all 1 two_messages new_connection).queue ≡ map received_of two_messages)
        × ((receive_all 1 two_messages new_connection).faults ≡ []))
    × (1 < 2
        → ((receive_all 1 two_messages new_connection).queue ≡ failure overflow ∷ [])
          × ((receive_all 1 two_messages new_connection).faults ≡ overflow ∷ []))
buffer_exact_example = buffer_exact 1 two_messages

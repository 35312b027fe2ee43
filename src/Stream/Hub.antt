-- ===== src/Stream/Hub.antt =====
-- GhostStreamHub of price_collector/ghost_twap_stream.py: its state, the updates it emits, expiry,
-- the clients, and `_accept`. Each operation takes the clock readings that it makes, in their order,
-- and gives the hub back beside its result, as it was left when it raised.
pub mod Accept
pub mod Freshness
use text.Mathlib.Text.{◌==◌ as str_eq}
use pythonbtccollector.Common.{
  ℕ, ◌+◌, String, Bool, true, false, Option, none, some, List, [], ◌∷◌, ◌++◌, map, leb,
  if◌then◌else◌, length, not,
}
use pythonbtccollector.Common.Result.{Result, ok, err}
use pythonbtccollector.Stream.Types.{
  Bytes, GhostRead, Clock, StreamReason, awaiting_data, expired, StreamState, unavailable,
  StreamError, client_closed, hub_closed, too_many_clients, Raising, StreamUpdate, StreamDelivery,
  Identity,
}
use pythonbtccollector.Stream.Read.{is_fresh}
use pythonbtccollector.Stream.Client.{
  Item, update, closing, StreamClient, new_client, offer, close_client, at_index, change_at,
}

-- `_producer_run`, `_producer_sequence`, `_producer_raw` and `_producer_deadline`, which are set
-- together and are None together.
pub record Producer : Type 0 where
  pub run : String
  pub sequence : ℕ
  pub raw : Bytes
  pub deadline : ℕ

pub record Hub : Type 0 where
  pub max_clients : ℕ
  pub instance_id : String
  pub generation : ℕ
  pub sequence : ℕ
  pub clients : List StreamClient
  pub closed : Bool
  pub producer : Option Producer
  pub needs_authoritative : Bool
  pub conflicted_identity : Option Identity
  pub snapshot : StreamUpdate

abbrev pub Outcome : Type 0 → Type 0
Outcome A = Raising A × Hub

-- The constructor, after its checks of the bounds.
unfoldable pub new_hub : ℕ → String → Clock → Hub
new_hub max_clients instance_id now = record {
  max_clients = max_clients;
  instance_id = instance_id;
  generation = 0;
  sequence = 0;
  clients = [];
  closed = false;
  producer = none;
  needs_authoritative = true;
  conflicted_identity = none;
  snapshot = record {
    read = none;
    state = unavailable;
    reason = awaiting_data;
    instance_id = instance_id;
    generation = 0;
    sequence = 0;
    wall_ns = now.wall;
    monotonic_ns = now.mono;
    resync = true;
  };
}

abbrev pub offer_registered : StreamUpdate → StreamClient → StreamClient
offer_registered u c = elim c.registered [ true ↦ offer u c | false ↦ c ]

-- `_emit`
unfoldable pub emit : Option GhostRead → StreamReason → Bool → Clock → Hub → Hub
emit read reason resync stamp hub =
    let u : StreamUpdate = record {
      read = read;
      state = elim read [ none ↦ unavailable | some r ↦ StreamState.snapshot ];
      reason = reason;
      instance_id = hub.instance_id;
      generation = hub.generation;
      sequence = hub.sequence + 1;
      wall_ns = stamp.wall;
      monotonic_ns = stamp.mono;
      resync = resync;
    } in
    record hub {
      sequence = hub.sequence + 1;
      snapshot = u;
      clients = map (offer_registered u) hub.clients;
    }

abbrev pub expire_by : Raising Bool → Clock → Hub → Outcome Bool
expire_by (ok true) stamp hub = (ok false, hub)
expire_by (ok false) stamp hub = (ok true, emit none expired false stamp hub)
expire_by (err e) stamp hub = (err e, hub)

abbrev pub expire_read : Option GhostRead → Clock → Clock → Hub → Outcome Bool
expire_read none now stamp hub = (ok false, hub)
expire_read (some r) now stamp hub = expire_by (is_fresh r now) stamp hub

unfoldable pub expire : Clock → Clock → Hub → Outcome Bool
unfolding is_fresh emit
expire now stamp hub = expire_read hub.snapshot.read now stamp hub

abbrev pub count_registered : List StreamClient → ℕ
count_registered [] = 0
count_registered (c ∷ l) = let rest = count_registered l in if c.registered then rest + 1 else rest

-- The new client is the last of the list.
abbrev pub add_client : Hub → Hub
add_client hub = record hub { clients = hub.clients ++ offer hub.snapshot new_client ∷ [] }

abbrev pub finish_register : Outcome Bool → Outcome ℕ
finish_register (ok changed, hub) = (ok (length hub.clients), add_client hub)
finish_register (err e, hub) = (err e, hub)

unfoldable pub register : Clock → Clock → Hub → Outcome ℕ
unfolding expire
register now stamp hub =
    if hub.closed
    then (err hub_closed, hub)
    else if leb hub.max_clients (count_registered hub.clients)
    then (err too_many_clients, hub)
    else finish_register (expire now stamp hub)

abbrev pub unregister_client : StreamClient → StreamClient
unregister_client c = elim c.registered [
  | true ↦ close_client (record c { registered = false })
  | false ↦ c
]

unfoldable pub unregister : ℕ → Hub → Hub
unregister i hub = record hub { clients = change_at i unregister_client hub.clients }

-- `close`; what it does before and after its wait for the tasks to end is one step here.
unfoldable pub close : Hub → Hub
close hub =
    if hub.closed
    then hub
    else record hub { closed = true; clients = map unregister_client hub.clients }

-- `next` of a client up to its wait for the queue.
abbrev pub begin_at : Option StreamClient → Clock → Clock → Hub → Outcome Bool
begin_at none now stamp hub = (ok false, hub)
begin_at (some c) now stamp hub =
    if c.closed then (err client_closed, hub) else expire now stamp hub

unfoldable pub begin_next : ℕ → Clock → Clock → Hub → Outcome Bool
unfolding expire
begin_next i now stamp hub = begin_at (at_index i hub.clients) now stamp hub

abbrev pub empty_queue : StreamClient → StreamClient
empty_queue c = record c { queue = none }

abbrev pub skipped_at : ℕ → List StreamClient → ℕ
skipped_at i l = elim (at_index i l) [ none ↦ 0 | some c ↦ c.skipped_updates ]

abbrev pub deliver : ℕ → StreamUpdate → Hub → Outcome (Option StreamDelivery)
deliver i u hub =
    (ok (some (record { update = u; skipped_updates = skipped_at i hub.clients })), hub)

-- `update = self._hub.snapshot`, and the queue is emptied.
abbrev pub replace_stale : ℕ → Outcome Bool → Outcome (Option StreamDelivery)
replace_stale i (err e, hub) = (err e, hub)
replace_stale i (ok changed, hub) =
    deliver i hub.snapshot (record hub { clients = change_at i empty_queue hub.clients })

-- The second check of an update, at `later`; `again` and `stamp` are read by `snapshot`.
abbrev pub check_by :
    ℕ → StreamUpdate → Raising Bool → Clock → Clock → Hub → Outcome (Option StreamDelivery)
check_by i u (ok true) again stamp hub = deliver i u hub
check_by i u (ok false) again stamp hub = replace_stale i (expire again stamp hub)
check_by i u (err e) again stamp hub = (err e, hub)

abbrev pub check_update :
    ℕ
    → StreamUpdate
    → Option GhostRead
    → Clock
    → Clock
    → Clock
    → Outcome Bool
    → Outcome (Option StreamDelivery)
check_update i u read later again stamp (err e, hub) = (err e, hub)
check_update i u none later again stamp (ok changed, hub) = deliver i u hub
check_update i u (some r) later again stamp (ok changed, hub) =
    check_by i u (is_fresh r later) again stamp hub

-- The readings of `next` after its wait.
pub record Readings : Type 0 where
  pub now : Clock
  pub stamp : Clock
  pub later : Clock
  pub again : Clock
  pub last_stamp : Clock

-- `next` of a client from the item it took: with an empty queue it still waits.
abbrev pub take_item : ℕ → Option Item → Readings → Hub → Outcome (Option StreamDelivery)
take_item i none t hub = (ok none, hub)
take_item i (some closing) t hub =
    (err client_closed, record hub { clients = change_at i empty_queue hub.clients })
take_item i (some (update u)) t hub =
    check_update i u u.read t.later t.again t.last_stamp
      (expire t.now t.stamp (record hub { clients = change_at i empty_queue hub.clients }))

abbrev pub waiting_item : ℕ → Hub → Option Item
waiting_item i hub = elim (at_index i hub.clients) [ none ↦ none | some c ↦ c.queue ]

unfoldable pub finish_next : ℕ → Readings → Hub → Outcome (Option StreamDelivery)
unfolding expire is_fresh
finish_next i t hub = take_item i (waiting_item i hub) t hub

-- ===== src/Stream/Trace/Valid.antt =====
-- What holds of a GhostStreamHub of price_collector/ghost_twap_stream.py between its steps.
pub mod Clients
pub mod Sources
pub mod Runs
use pythonbtccollector.Common.{
  ℕ, ◌+◌, ◌≡◌, refl, Bool, true, false, Option, none, some, List, [], ◌∷◌, ◌++◌, map, arith, All,
  not, All-imp,
}
use pythonbtccollector.Stream.Types.{GhostRead, Clock, StreamReason, StreamUpdate, Identity}
use pythonbtccollector.Stream.Client.{
  Item, update, closing, StreamClient, new_client, offer, change_at,
}
use pythonbtccollector.Stream.Hub.{
  Hub, Producer, emit, offer_registered, unregister_client, empty_queue, add_client,
}
use pythonbtccollector.Stream.Hub.Accept.{producer_of, is_conflicted}

-- What may wait in the queue of a client, by whether the client is closed.
abbrev pub Waits : StreamUpdate → Bool → Option Item → Type 0
Waits u closed none = Unit
Waits u closed (some (update v)) = (closed ≡ false) × (v ≡ u)
Waits u closed (some closing) = closed ≡ true

-- The hub holds just the clients that are not closed, and such a client waits for the snapshot `u`
-- or has taken it.
abbrev pub IsServed : StreamUpdate → StreamClient → Type 0
IsServed u c = (c.registered ≡ not c.closed) × Waits u c.closed c.queue

-- A read that is shown is that of the producer, and no conflict is known of it.
abbrev pub IsShown : Option GhostRead → Bool → Option Producer → Option Identity → Type 0
IsShown none needs producer conflicted = Unit
IsShown (some r) needs producer conflicted =
    (needs ≡ false)
    × (producer ≡ some (producer_of r))
    × (is_conflicted conflicted r.payload ≡ false)

pub record IsValid (hub : Hub) : Type 0 where
  pub numbered : hub.snapshot.sequence ≡ hub.sequence
  pub served : All (IsServed hub.snapshot) hub.clients
  pub shown : IsShown hub.snapshot.read hub.needs_authoritative hub.producer hub.conflicted_identity

offer_registered-IsServed :
    (u v : StreamUpdate) (c : StreamClient) → IsServed v c → IsServed u (offer_registered u c)
offer_registered-IsServed u v c h = ground arith

offers-IsServed :
    (u v : StreamUpdate) (l : List StreamClient)
    → All (IsServed v) l
    → All (IsServed u) (map (offer_registered u) l)
offers-IsServed u v [] h = tt
offers-IsServed u v (c ∷ l) h = (offer_registered-IsServed u v c h.0, offers-IsServed u v l h.1)

pub emit-IsValid :
    (read : Option GhostRead) (reason : StreamReason) (resync : Bool) (stamp : Clock) (hub : Hub)
    (v : StreamUpdate)
    → All (IsServed v) hub.clients
    → IsShown read hub.needs_authoritative hub.producer hub.conflicted_identity
    → IsValid (emit read reason resync stamp hub)
unfolding emit
emit-IsValid read reason resync stamp hub v served shown = record {
  numbered = refl;
  served = offers-IsServed _ v hub.clients served;
  shown = shown;
}

pub change_at-IsServed :
    (i : ℕ) (u : StreamUpdate) (f : StreamClient → StreamClient)
    → ((c : StreamClient) → IsServed u c → IsServed u (f c))
    → (l : List StreamClient) → All (IsServed u) l
    → All (IsServed u) (change_at i f l)
change_at-IsServed i u f each [] h = tt
change_at-IsServed ℕ.zero u f each (c ∷ l) h = (each c h.0, h.1)
change_at-IsServed (ℕ.suc i) u f each (c ∷ l) h = (h.0, change_at-IsServed i u f each l h.1)

pub unregister_client-IsServed :
    (u : StreamUpdate) (c : StreamClient) → IsServed u c → IsServed u (unregister_client c)
unregister_client-IsServed u c h = ground arith

pub empty_queue-IsServed :
    (u : StreamUpdate) (c : StreamClient) → IsServed u c → IsServed u (empty_queue c)
empty_queue-IsServed u c h = (h.0, tt)

pub add_client-IsServed :
    (u : StreamUpdate) (l : List StreamClient)
    → All (IsServed u) l
    → All (IsServed u) (l ++ offer u new_client ∷ [])
add_client-IsServed u [] h = ((refl, (refl, refl)), tt)
add_client-IsServed u (c ∷ l) h = (h.0, add_client-IsServed u l h.1)

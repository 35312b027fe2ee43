-- ===== src/Stream/Trace/Valid/Clients.antt =====
-- The operations of the clients keep what holds of a hub.
use pythonbtccollector.Common.{
  ℕ, refl, Option, none, some, List, [], ◌∷◌, All, Bool, true, false, map, inl, inr, Bool-cases,
  Option-cases, leb, if_elim,
}
use pythonbtccollector.Common.Result.{ok, err}
use pythonbtccollector.Stream.Types.{GhostRead, Clock, Raising, StreamUpdate}
use pythonbtccollector.Stream.Read.{is_fresh}
use pythonbtccollector.Stream.Client.{StreamClient, Item, update, closing, at_index, change_at}
use pythonbtccollector.Stream.Hub.{
  Hub, Outcome, finish_register, count_registered, new_hub, expire, expire_by, expire_read,
  register, unregister, close, begin_next, finish_next, Readings, unregister_client, empty_queue,
  take_item, check_update, check_by, replace_stale,
}
use pythonbtccollector.Stream.Trace.Valid.{
  IsValid, IsServed, emit-IsValid, change_at-IsServed, unregister_client-IsServed,
  empty_queue-IsServed, add_client-IsServed,
}

pub new_hub-IsValid : (max : ℕ) (id : _) (now : Clock) → IsValid (new_hub max id now)
unfolding new_hub
new_hub-IsValid max id now = record { numbered = refl; served = tt; shown = tt }

expire_by-IsValid :
    (fresh : Raising Bool) (stamp : Clock) (hub : Hub)
    → IsValid hub
    → IsValid (expire_by fresh stamp hub).1
expire_by-IsValid (ok true) stamp hub v = v
expire_by-IsValid (ok false) stamp hub v =
    emit-IsValid none _ false stamp hub hub.snapshot v.served tt
expire_by-IsValid (err e) stamp hub v = v

expire_read-IsValid :
    (read : Option GhostRead) (now stamp : Clock) (hub : Hub)
    → IsValid hub
    → IsValid (expire_read read now stamp hub).1
expire_read-IsValid none now stamp hub v = v
expire_read-IsValid (some r) now stamp hub v = expire_by-IsValid (is_fresh r now) stamp hub v

pub expire-IsValid :
    (now stamp : Clock) (hub : Hub) → IsValid hub → IsValid (expire now stamp hub).1
unfolding expire
expire-IsValid now stamp hub v = expire_read-IsValid hub.snapshot.read now stamp hub v

-- The clients may change on their own.
pub clients-IsValid :
    (l : List StreamClient) (hub : Hub)
    → IsValid hub
    → All (IsServed hub.snapshot) l
    → IsValid (record hub { clients = l })
clients-IsValid l hub v served = record { numbered = v.numbered; served = served; shown = v.shown }

unregisters-IsServed :
    (u : StreamUpdate) (l : List StreamClient)
    → All (IsServed u) l
    → All (IsServed u) (map unregister_client l)
unregisters-IsServed u [] h = tt
unregisters-IsServed u (c ∷ l) h =
    (unregister_client-IsServed u c h.0, unregisters-IsServed u l h.1)

pub unregister-IsValid : (i : ℕ) (hub : Hub) → IsValid hub → IsValid (unregister i hub)
unfolding unregister
unregister-IsValid i hub v = clients-IsValid _ hub v (
    change_at-IsServed i hub.snapshot unregister_client (unregister_client-IsServed hub.snapshot)
      hub.clients v.served)

pub close-IsValid : (hub : Hub) → IsValid hub → IsValid (close hub)
unfolding close
close-IsValid hub v =
    if_elim IsValid hub.closed (λ c. v)
      (λ c. record {
        numbered = v.numbered;
        served = unregisters-IsServed hub.snapshot hub.clients v.served;
        shown = v.shown;
      })

finish_register-IsValid : (o : Outcome Bool) → IsValid o.1 → IsValid (finish_register o).1
finish_register-IsValid (ok changed, hub) v =
    clients-IsValid _ hub v (add_client-IsServed hub.snapshot hub.clients v.served)
finish_register-IsValid (err e, hub) v = v

pub register-IsValid :
    (now stamp : Clock) (hub : Hub) → IsValid hub → IsValid (register now stamp hub).1
unfolding register
register-IsValid now stamp hub v =
    if_elim (λ (o : Outcome ℕ). IsValid o.1) hub.closed (λ c. v)
      (λ c.
        if_elim (λ (o : Outcome ℕ). IsValid o.1)
          (leb hub.max_clients (count_registered hub.clients)) (λ full. v)
          (λ free. finish_register-IsValid (expire now stamp hub) (expire-IsValid now stamp hub v)))

pub begin_next-IsValid :
    (i : ℕ) (now stamp : Clock) (hub : Hub) → IsValid hub → IsValid (begin_next i now stamp hub).1
unfolding begin_next
begin_next-IsValid i now stamp hub v = elim (Option-cases (at_index i hub.clients)) [
  | inl gone ↦ rw gone v
  | inr (c, here) ↦ elim (Bool-cases c.closed) [
    | inl closed ↦ rw (here, closed) v
    | inr live ↦ rw (here, live) (expire-IsValid now stamp hub v)
  ]
]

pub emptied-IsValid :
    (i : ℕ) (hub : Hub)
    → IsValid hub
    → IsValid (record hub { clients = change_at i empty_queue hub.clients })
emptied-IsValid i hub v = clients-IsValid _ hub v (
    change_at-IsServed i hub.snapshot empty_queue (empty_queue-IsServed hub.snapshot) hub.clients
      v.served)

replace_stale-IsValid : (i : ℕ) (o : Outcome Bool) → IsValid o.1 → IsValid (replace_stale i o).1
replace_stale-IsValid i (ok changed, hub) v = emptied-IsValid i hub v
replace_stale-IsValid i (err e, hub) v = v

check_by-IsValid :
    (i : ℕ) (u : StreamUpdate) (fresh : Raising Bool) (again stamp : Clock) (hub : Hub)
    → IsValid hub
    → IsValid (check_by i u fresh again stamp hub).1
check_by-IsValid i u (ok true) again stamp hub v = v
check_by-IsValid i u (ok false) again stamp hub v =
    replace_stale-IsValid i (expire again stamp hub) (expire-IsValid again stamp hub v)
check_by-IsValid i u (err e) again stamp hub v = v

check_update-IsValid :
    (i : ℕ) (u : StreamUpdate) (read : Option GhostRead) (later again stamp : Clock)
    (o : Outcome Bool)
    → IsValid o.1
    → IsValid (check_update i u read later again stamp o).1
check_update-IsValid i u read later again stamp (err e, hub) v = v
check_update-IsValid i u none later again stamp (ok changed, hub) v = v
check_update-IsValid i u (some r) later again stamp (ok changed, hub) v =
    check_by-IsValid i u (is_fresh r later) again stamp hub v

take_item-IsValid :
    (i : ℕ) (item : Option Item) (t : Readings) (hub : Hub)
    → IsValid hub
    → IsValid (take_item i item t hub).1
take_item-IsValid i none t hub v = v
take_item-IsValid i (some closing) t hub v = emptied-IsValid i hub v
take_item-IsValid i (some (update u)) t hub v =
    check_update-IsValid i u u.read t.later t.again t.last_stamp _
      (expire-IsValid t.now t.stamp _ (emptied-IsValid i hub v))

pub finish_next-IsValid :
    (i : ℕ) (t : Readings) (hub : Hub) → IsValid hub → IsValid (finish_next i t hub).1
unfolding finish_next
finish_next-IsValid i t hub v = take_item-IsValid i _ t hub v

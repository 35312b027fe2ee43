-- ===== src/Stream/Trace/Order/Clients.antt =====
-- The operations of the clients follow on the steps before them.
use pythonbtccollector.Common.{ℕ, Bool, true, false, Option, none, some, List, leb, if_elim, map}
use pythonbtccollector.Common.Result.{ok, err}
use pythonbtccollector.Stream.Types.{Clock, GhostRead, Raising, StreamUpdate}
use pythonbtccollector.Stream.Read.{is_fresh}
use pythonbtccollector.Stream.Client.{Item, update, closing, change_at, StreamClient}
use pythonbtccollector.Stream.Hub.{
  Hub, Outcome, expire, expire_by, expire_read, register, finish_register, count_registered,
  unregister_client, close, begin_at, take_item, check_update, check_by, replace_stale, empty_queue,
  Readings,
}
use pythonbtccollector.Stream.Trace.Order.{
  Follows, Follows-refl, Follows-trans, emit-Follows, kept-Follows,
}

expire_by-Follows :
    (fresh : Raising Bool) (stamp : Clock) (h : Hub) → Follows h (expire_by fresh stamp h).1
expire_by-Follows (ok true) stamp h = Follows-refl h
expire_by-Follows (ok false) stamp h = emit-Follows none _ false stamp h h (Follows-refl h)
expire_by-Follows (err e) stamp h = Follows-refl h

expire_read-Follows :
    (read : Option GhostRead) (now stamp : Clock) (h : Hub)
    → Follows h (expire_read read now stamp h).1
expire_read-Follows none now stamp h = Follows-refl h
expire_read-Follows (some r) now stamp h = expire_by-Follows (is_fresh r now) stamp h

pub expire-Follows : (now stamp : Clock) (h : Hub) → Follows h (expire now stamp h).1
unfolding expire
expire-Follows now stamp h = expire_read-Follows h.snapshot.read now stamp h

pub clients-Follows : (l : List StreamClient) (h : Hub) → Follows h (record h { clients = l })
clients-Follows l h = kept-Follows h l h.closed h.needs_authoritative h.conflicted_identity

finish_register-Follows :
    (h : Hub) (o : Outcome Bool) → Follows h o.1 → Follows h (finish_register o).1
finish_register-Follows h (ok changed, k) f = Follows-trans h k _ f (clients-Follows _ k)
finish_register-Follows h (err e, k) f = f

pub register-Follows : (now stamp : Clock) (h : Hub) → Follows h (register now stamp h).1
unfolding register
register-Follows now stamp h =
    if_elim (λ (o : Outcome ℕ). Follows h o.1) h.closed (λ c. Follows-refl h)
      (λ c.
        if_elim (λ (o : Outcome ℕ). Follows h o.1) (leb h.max_clients (count_registered h.clients))
          (λ full. Follows-refl h)
          (λ free. finish_register-Follows h (expire now stamp h) (expire-Follows now stamp h)))

pub close-Follows : (h : Hub) → Follows h (close h)
unfolding close
close-Follows h =
    if_elim (Follows h) h.closed (λ c. Follows-refl h)
      (λ c.
        kept-Follows h (map unregister_client h.clients) true h.needs_authoritative
          h.conflicted_identity)

pub begin_at-Follows :
    (c : Option StreamClient) (now stamp : Clock) (h : Hub) → Follows h (begin_at c now stamp h).1
begin_at-Follows none now stamp h = Follows-refl h
begin_at-Follows (some c) now stamp h =
    if_elim (λ (o : Outcome Bool). Follows h o.1) c.closed (λ closed. Follows-refl h)
      (λ live. expire-Follows now stamp h)

replace_stale-Follows :
    (i : ℕ) (h : Hub) (o : Outcome Bool) → Follows h o.1 → Follows h (replace_stale i o).1
replace_stale-Follows i h (ok changed, k) f = Follows-trans h k _ f (clients-Follows _ k)
replace_stale-Follows i h (err e, k) f = f

check_by-Follows :
    (i : ℕ) (u : StreamUpdate) (fresh : Raising Bool) (again stamp : Clock) (h k : Hub)
    → Follows h k
    → Follows h (check_by i u fresh again stamp k).1
check_by-Follows i u (ok true) again stamp h k f = f
check_by-Follows i u (ok false) again stamp h k f =
    replace_stale-Follows i h (expire again stamp k)
      (Follows-trans h k _ f (expire-Follows again stamp k))
check_by-Follows i u (err e) again stamp h k f = f

check_update-Follows :
    (i : ℕ) (u : StreamUpdate) (read : Option GhostRead) (later again stamp : Clock) (h : Hub)
    (o : Outcome Bool)
    → Follows h o.1
    → Follows h (check_update i u read later again stamp o).1
check_update-Follows i u read later again stamp h (err e, k) f = f
check_update-Follows i u none later again stamp h (ok changed, k) f = f
check_update-Follows i u (some r) later again stamp h (ok changed, k) f =
    check_by-Follows i u (is_fresh r later) again stamp h k f

pub take_item-Follows :
    (i : ℕ) (item : Option Item) (t : Readings) (h : Hub) → Follows h (take_item i item t h).1
take_item-Follows i none t h = Follows-refl h
take_item-Follows i (some closing) t h = clients-Follows _ h
take_item-Follows i (some (update u)) t h =
    let k = record h { clients = change_at i empty_queue h.clients } in
    check_update-Follows i u u.read t.later t.again t.last_stamp h _
      (Follows-trans h k _ (clients-Follows _ h) (expire-Follows t.now t.stamp k))

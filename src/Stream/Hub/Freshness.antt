-- ===== src/Stream/Hub/Freshness.antt =====
-- What `next` of a client of price_collector/ghost_twap_stream.py delivers.
use pythonbtccollector.Common.{ℕ, ◌≡◌, refl, ◌⊎◌, inl, inr, Bool, true, false, Option, none, some}
use pythonbtccollector.Common.Result.{ok, err}
use pythonbtccollector.Stream.Types.{GhostRead, Clock, Raising, StreamUpdate, StreamDelivery}
use pythonbtccollector.Stream.Read.{is_fresh}
use pythonbtccollector.Stream.Client.{Item, update, closing}
use pythonbtccollector.Stream.Hub.{
  Hub, Outcome, emit, expire, expire_read, expire_by, Readings, finish_next, take_item,
  check_update, check_by, replace_stale, waiting_item,
}

-- A read of the update is fresh at one of two readings.
abbrev pub IsFreshAt : Clock → Clock → Option GhostRead → Type 0
IsFreshAt later again none = Unit
IsFreshAt later again (some r) = (is_fresh r later ≡ ok true) ⊎ (is_fresh r again ≡ ok true)

abbrev pub DeliversFresh : Clock → Clock → Raising (Option StreamDelivery) → Type 0
DeliversFresh later again (ok (some d)) = IsFreshAt later again d.update.read
DeliversFresh later again _ = Unit

-- Where expiry does not raise, what the hub then shows is fresh.
abbrev AfterExpiry : Clock → Outcome Bool → Type 0
AfterExpiry now (ok changed, hub) = IsFreshAt now now hub.snapshot.read
AfterExpiry now (err e, hub) = Unit

expire_by-Fresh :
    (r : GhostRead) (now stamp : Clock) (hub : Hub) (fresh : Raising Bool)
    → hub.snapshot.read ≡ some r
    → is_fresh r now ≡ fresh
    → AfterExpiry now (expire_by fresh stamp hub)
unfolding emit
expire_by-Fresh r now stamp hub (ok true) shown f = rw shown (inl f)
expire_by-Fresh r now stamp hub (ok false) shown f = tt
expire_by-Fresh r now stamp hub (err e) shown f = tt

expire_read-Fresh :
    (read : Option GhostRead) (now stamp : Clock) (hub : Hub)
    → hub.snapshot.read ≡ read
    → AfterExpiry now (expire_read read now stamp hub)
expire_read-Fresh none now stamp hub shown = rw shown tt
expire_read-Fresh (some r) now stamp hub shown =
    expire_by-Fresh r now stamp hub (is_fresh r now) shown refl

expire-Fresh : (now stamp : Clock) (hub : Hub) → AfterExpiry now (expire now stamp hub)
unfolding expire
expire-Fresh now stamp hub = expire_read-Fresh hub.snapshot.read now stamp hub refl

either_reading :
    (later again : Clock) (read : Option GhostRead)
    → IsFreshAt again again read
    → IsFreshAt later again read
either_reading later again none h = tt
either_reading later again (some r) h = elim h [ inl f ↦ inr f | inr f ↦ inr f ]

replace_stale-Fresh :
    (i : ℕ) (later again : Clock) (o : Outcome Bool)
    → AfterExpiry again o
    → DeliversFresh later again (replace_stale i o).0
replace_stale-Fresh i later again (ok changed, hub) h =
    either_reading later again hub.snapshot.read h
replace_stale-Fresh i later again (err e, hub) h = tt

check_by-Fresh :
    (i : ℕ) (u : StreamUpdate) (r : GhostRead) (fresh : Raising Bool) (later again stamp : Clock)
    (hub : Hub)
    → u.read ≡ some r
    → is_fresh r later ≡ fresh
    → DeliversFresh later again (check_by i u fresh again stamp hub).0
check_by-Fresh i u r (ok true) later again stamp hub p f = rw p (inl f)
check_by-Fresh i u r (ok false) later again stamp hub p f =
    replace_stale-Fresh i later again (expire again stamp hub) (expire-Fresh again stamp hub)
check_by-Fresh i u r (err e) later again stamp hub p f = tt

check_update-Fresh :
    (i : ℕ) (u : StreamUpdate) (read : Option GhostRead) (later again stamp : Clock)
    (o : Outcome Bool)
    → u.read ≡ read
    → DeliversFresh later again (check_update i u read later again stamp o).0
check_update-Fresh i u read later again stamp (err e, hub) p = tt
check_update-Fresh i u none later again stamp (ok changed, hub) p = rw p tt
check_update-Fresh i u (some r) later again stamp (ok changed, hub) p =
    check_by-Fresh i u r (is_fresh r later) later again stamp hub p refl

take_item-Fresh :
    (i : ℕ) (item : Option Item) (t : Readings) (hub : Hub)
    → DeliversFresh t.later t.again (take_item i item t hub).0
take_item-Fresh i none t hub = tt
take_item-Fresh i (some closing) t hub = tt
take_item-Fresh i (some (update u)) t hub =
    check_update-Fresh i u u.read t.later t.again t.last_stamp _ refl

-- Whatever waits in a client's queue, an update that `next` delivers has no read, or one that is
-- fresh at the check after the wait, or, where the snapshot of the hub took its place, at the last
-- check of that snapshot.
pub delivered_read_fresh :
    (i : ℕ) (t : Readings) (hub : Hub) {d : StreamDelivery} {r : GhostRead}
    → (finish_next i t hub).0 ≡ ok (some d)
    → d.update.read ≡ some r
    → (is_fresh r t.later ≡ ok true) ⊎ (is_fresh r t.again ≡ ok true)
unfolding finish_next
delivered_read_fresh i t hub p q = rw q at (rw p at (take_item-Fresh i (waiting_item i hub) t hub))

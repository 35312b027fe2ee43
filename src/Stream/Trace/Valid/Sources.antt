-- ===== src/Stream/Trace/Valid/Sources.antt =====
-- The reads that a hub accepts, and the other steps, keep what holds of it.
use pythonbtccollector.Common.{
  ℕ, ◌+◌, ◌≡◌, refl, Option, none, some, List, [], ◌∷◌, arith, All, Bool, true, false, not, ltb,
  leb, ◌==◌, ◌≢◌, ◌||◌, if_elim,
}
use pythonbtccollector.Common.Int.{ℤ, pos, negsuc}
use pythonbtccollector.Common.Result.{ok, err}
use text.Mathlib.Text.{◌==◌ as str_eq}
use pythonbtccollector.Stream.Types.{
  Bytes, GhostRead, Clock, Raising, bytes_eq, StreamError, StreamReason,
}
use pythonbtccollector.Stream.Read.{is_clock, is_fresh}
use pythonbtccollector.Stream.Hub.{Hub, Outcome, Producer}
use pythonbtccollector.Stream.Hub.Accept.{
  install, show_by, accept_read, accept_from, accept_same_run, accept_again, accept_other_run,
  is_conflicted, producer_of, shorten,
}
use pythonbtccollector.Stream.Source.{
  Parser, CacheAnswer, Received, publication, failure, authoritative, accept_bound, refuse,
  read_answer, bound_by_ttl, parse_and_bind, consume, consume_read, parse_publication,
  without_request, is_other_producer,
}
use pythonbtccollector.Stream.Trace.Valid.{IsValid, IsServed, emit-IsValid}

-- With clocks in range, the check of a read does not raise.
is_fresh-ne-err :
    (r : GhostRead) (now : Clock) (e : StreamError) → is_clock now ≡ true → is_fresh r now ≢ err e
unfolding is_fresh
is_fresh-ne-err r now e h = ground arith

show_by-IsValid :
    (r : GhostRead) (fresh : Raising Bool) (resync : Bool) (stamp : Clock) (hub : Hub)
    → ((e : StreamError) → fresh ≢ err e)
    → All (IsServed hub.snapshot) hub.clients
    → is_conflicted hub.conflicted_identity r.payload ≡ false
    → IsValid
        (show_by r fresh resync stamp
          (record hub { producer = some (producer_of r); needs_authoritative = false })).1
show_by-IsValid r (err e) resync stamp hub calm v c = absurd (calm e refl)
show_by-IsValid r (ok false) resync stamp hub calm v c =
    emit-IsValid none _ resync stamp _ hub.snapshot v tt
show_by-IsValid r (ok true) resync stamp hub calm v c =
    emit-IsValid (some r) _ resync stamp _ hub.snapshot v (refl, refl, c)

install-IsValid :
    (r : GhostRead) (resync : Bool) (now stamp : Clock) (hub : Hub)
    → is_clock now ≡ true
    → All (IsServed hub.snapshot) hub.clients
    → is_conflicted hub.conflicted_identity r.payload ≡ false
    → IsValid (install r resync now stamp hub).1
unfolding install
install-IsValid r resync now stamp hub timed v c =
    show_by-IsValid r (is_fresh r now) resync stamp hub (λ e. is_fresh-ne-err r now e timed) v c

module _ (authoritative resync : Bool) (now stamp : Clock) (r : GhostRead)
    (timed : is_clock now ≡ true) where
  accept_again-IsValid :
      (p : Producer) (hub : Hub)
      → IsValid hub
      → is_conflicted hub.conflicted_identity r.payload ≡ false
      → IsValid (accept_again p authoritative resync now stamp r hub).1
  accept_again-IsValid p hub v c =
      if_elim (λ (o : Outcome (Unit {0})). IsValid o.1) (not (bytes_eq r.payload.raw p.raw))
        (λ other. emit-IsValid none _ resync stamp _ hub.snapshot v.served tt)
        (λ same.
          if_elim (λ (o : Outcome (Unit {0})). IsValid o.1) (not authoritative) (λ a. v)
            (λ a. install-IsValid (shorten r p.deadline) resync now stamp hub timed v.served c))

  accept_same_run-IsValid :
      (p : Producer) (hub : Hub)
      → IsValid hub
      → is_conflicted hub.conflicted_identity r.payload ≡ false
      → IsValid (accept_same_run p authoritative resync now stamp r hub).1
  accept_same_run-IsValid p hub v c =
      if_elim (λ (o : Outcome (Unit {0})). IsValid o.1) (ltb r.payload.decision_id p.sequence)
        (λ old.
          if_elim IsValid authoritative
            (λ a. emit-IsValid none _ resync stamp hub hub.snapshot v.served tt) (λ a. v))
        (λ n.
          if_elim (λ (o : Outcome (Unit {0})). IsValid o.1) (r.payload.decision_id == p.sequence)
            (λ same. accept_again-IsValid p hub v c)
            (λ newer. install-IsValid r resync now stamp hub timed v.served c))

  accept_other_run-IsValid :
      (generation : ℕ) (hub : Hub)
      → IsValid hub
      → IsValid (accept_other_run generation authoritative resync now stamp r hub).1
  accept_other_run-IsValid generation hub v =
      if_elim (λ (o : Outcome (Unit {0})). IsValid o.1) (not authoritative) (λ a. v)
        (λ a.
          install-IsValid r resync now stamp
            (record hub { generation = generation; conflicted_identity = none }) timed v.served
            refl)

  accept_from-IsValid :
      (producer : Option Producer) (hub : Hub)
      → IsValid hub
      → is_conflicted hub.conflicted_identity r.payload ≡ false
      → IsValid (accept_from producer authoritative resync now stamp r hub).1
  accept_from-IsValid none hub v c = accept_other_run-IsValid hub.generation hub v
  accept_from-IsValid (some p) hub v c =
      if_elim (λ (o : Outcome (Unit {0})). IsValid o.1) (str_eq r.payload.run_id p.run)
        (λ same. accept_same_run-IsValid p hub v c)
        (λ other. accept_other_run-IsValid (hub.generation + 1) hub v)

  pub accept_read-IsValid :
      (hub : Hub) → IsValid hub → IsValid (accept_read authoritative resync now stamp r hub).1
  unfolding accept_read
  accept_read-IsValid hub v =
      if_elim (λ (o : Outcome (Unit {0})). IsValid o.1)
        (is_conflicted hub.conflicted_identity r.payload)
        (λ c. emit-IsValid none _ resync stamp hub hub.snapshot v.served tt)
        (λ c. accept_from-IsValid hub.producer hub v c)

module _ (parse : Parser) where
  refuse-IsValid :
      (reason : StreamReason) (resync : Bool) (stamp : Clock) (hub : Hub)
      → IsValid hub
      → IsValid (refuse reason resync stamp hub).1
  refuse-IsValid reason resync stamp hub v =
      emit-IsValid none reason resync stamp _ hub.snapshot v.served tt

  accept_bound-IsValid :
      (bound : Raising GhostRead) (start finish : Clock) (ttl : ℕ) (resync : Bool)
      (now stamp : Clock) (hub : Hub)
      → is_clock now ≡ true
      → IsValid hub
      → IsValid (accept_bound bound start finish ttl resync now stamp hub).1
  accept_bound-IsValid (err e) start finish ttl resync now stamp hub timed v =
      refuse-IsValid _ resync stamp hub v
  accept_bound-IsValid (ok r) start finish ttl resync now stamp hub timed v =
      accept_read-IsValid true resync now stamp (bound_by_ttl start finish ttl r) timed hub v

  read_answer-IsValid :
      (start finish : Clock) (raw : Option Bytes) (ttl : ℤ) (resync : Bool) (now stamp : Clock)
      (hub : Hub)
      → is_clock now ≡ true
      → IsValid hub
      → IsValid (read_answer parse start finish raw ttl resync now stamp hub).1
  read_answer-IsValid start finish none ttl resync now stamp hub timed v =
      refuse-IsValid _ resync stamp hub v
  read_answer-IsValid start finish (some raw) (negsuc n) resync now stamp hub timed v =
      refuse-IsValid _ resync stamp hub v
  read_answer-IsValid start finish (some raw) (pos ttl) resync now stamp hub timed v =
      if_elim (λ (o : Outcome (Unit {0})). IsValid o.1) (leb ttl 0)
        (λ z. refuse-IsValid _ resync stamp hub v)
        (λ z.
          accept_bound-IsValid (parse_and_bind parse raw finish) start finish ttl resync now stamp
            hub timed v)

  pub authoritative-IsValid :
      (start finish : Clock) (answer : CacheAnswer) (faults : List StreamError) (resync : Bool)
      (now stamp : Clock) (hub : Hub)
      → is_clock now ≡ true
      → IsValid hub
      → IsValid (authoritative parse start finish answer faults resync now stamp hub).1
  unfolding authoritative
  authoritative-IsValid start finish answer (fault ∷ faults) resync now stamp hub timed v = v
  authoritative-IsValid start finish answer [] resync now stamp hub timed v =
      if_elim (λ (o : Outcome (Unit {0})). IsValid o.1)
        (ltb finish.wall start.wall || ltb finish.mono start.mono) (λ b. v)
        (λ b. read_answer-IsValid start finish answer.raw answer.ttl resync now stamp hub timed v)

  without_request-IsValid : (o : Outcome (Unit {0})) → IsValid o.1 → IsValid (without_request o).1
  without_request-IsValid (ok done, hub) v = v
  without_request-IsValid (err e, hub) v = v

  consume_read-IsValid :
      (bound : Raising GhostRead) (now stamp : Clock) (hub : Hub)
      → is_clock now ≡ true
      → IsValid hub
      → IsValid (consume_read bound now stamp hub).1
  consume_read-IsValid (err e) now stamp hub timed v =
      emit-IsValid none _ false stamp hub hub.snapshot v.served tt
  consume_read-IsValid (ok r) now stamp hub timed v =
      if_elim (λ (o : Outcome Bool). IsValid o.1)
        (hub.needs_authoritative || is_other_producer hub.producer r.payload.run_id)
        (λ b. emit-IsValid none _ true stamp hub hub.snapshot v.served tt)
        (λ b. without_request-IsValid _ (accept_read-IsValid false false now stamp r timed hub v))

  pub consume-IsValid :
      (item : Received) (now stamp : Clock) (hub : Hub)
      → is_clock now ≡ true
      → IsValid hub
      → IsValid (consume parse item now stamp hub).1
  unfolding consume
  consume-IsValid (failure e) now stamp hub timed v = v
  consume-IsValid (publication raw at) now stamp hub timed v =
      consume_read-IsValid (parse_publication parse raw at) now stamp hub timed v

-- ===== src/Stream/Trace/Order/Sources.antt =====
-- The reads of the cache and of the subscription follow on the steps before them.
use pythonbtccollector.Common.{
  ℕ, Bool, true, false, Option, none, some, List, [], ◌∷◌, ltb, leb, ◌||◌, if_elim,
}
use pythonbtccollector.Common.Int.{ℤ, pos, negsuc}
use pythonbtccollector.Common.Result.{ok, err}
use pythonbtccollector.Stream.Types.{Bytes, Clock, GhostRead, Raising, StreamError, StreamReason}
use pythonbtccollector.Stream.Hub.{Hub, Outcome}
use pythonbtccollector.Stream.Source.{
  Parser, CacheAnswer, Received, publication, failure, authoritative, accept_bound, refuse,
  read_answer, bound_by_ttl, parse_and_bind, consume, consume_read, parse_publication,
  without_request, is_other_producer,
}
use pythonbtccollector.Stream.Trace.Order.{Follows, Follows-refl, emit-Follows, kept-Follows}
use pythonbtccollector.Stream.Trace.Order.Accepting.{accept_read-Follows}

refuse-Follows :
    (reason : StreamReason) (resync : Bool) (stamp : Clock) (h : Hub)
    → Follows h (refuse reason resync stamp h).1
refuse-Follows reason resync stamp h =
    emit-Follows none reason resync stamp h _
      (kept-Follows h h.clients h.closed true h.conflicted_identity)

accept_bound-Follows :
    (bound : Raising GhostRead) (start finish : Clock) (ttl : ℕ) (resync : Bool) (now stamp : Clock)
    (h : Hub)
    → Follows h (accept_bound bound start finish ttl resync now stamp h).1
accept_bound-Follows (err e) start finish ttl resync now stamp h = refuse-Follows _ resync stamp h
accept_bound-Follows (ok r) start finish ttl resync now stamp h =
    accept_read-Follows true resync now stamp (bound_by_ttl start finish ttl r) h

module _ (parse : Parser) where
  read_answer-Follows :
      (start finish : Clock) (raw : Option Bytes) (ttl : ℤ) (resync : Bool) (now stamp : Clock)
      (h : Hub)
      → Follows h (read_answer parse start finish raw ttl resync now stamp h).1
  read_answer-Follows start finish none ttl resync now stamp h = refuse-Follows _ resync stamp h
  read_answer-Follows start finish (some raw) (negsuc n) resync now stamp h =
      refuse-Follows _ resync stamp h
  read_answer-Follows start finish (some raw) (pos ttl) resync now stamp h =
      if_elim (λ (o : Outcome (Unit {0})). Follows h o.1) (leb ttl 0)
        (λ z. refuse-Follows _ resync stamp h)
        (λ z.
          accept_bound-Follows (parse_and_bind parse raw finish) start finish ttl resync now stamp
            h)

  pub authoritative-Follows :
      (start finish : Clock) (answer : CacheAnswer) (faults : List StreamError) (resync : Bool)
      (now stamp : Clock) (h : Hub)
      → Follows h (authoritative parse start finish answer faults resync now stamp h).1
  unfolding authoritative
  authoritative-Follows start finish answer (fault ∷ faults) resync now stamp h = Follows-refl h
  authoritative-Follows start finish answer [] resync now stamp h =
      if_elim (λ (o : Outcome (Unit {0})). Follows h o.1)
        (ltb finish.wall start.wall || ltb finish.mono start.mono) (λ b. Follows-refl h)
        (λ b. read_answer-Follows start finish answer.raw answer.ttl resync now stamp h)

  without_request-Follows :
      (h : Hub) (o : Outcome (Unit {0})) → Follows h o.1 → Follows h (without_request o).1
  without_request-Follows h (ok done, k) f = f
  without_request-Follows h (err e, k) f = f

  consume_read-Follows :
      (bound : Raising GhostRead) (now stamp : Clock) (h : Hub)
      → Follows h (consume_read bound now stamp h).1
  consume_read-Follows (err e) now stamp h = emit-Follows none _ false stamp h h (Follows-refl h)
  consume_read-Follows (ok r) now stamp h =
      if_elim (λ (o : Outcome Bool). Follows h o.1)
        (h.needs_authoritative || is_other_producer h.producer r.payload.run_id)
        (λ b. emit-Follows none _ true stamp h h (Follows-refl h))
        (λ b. without_request-Follows h _ (accept_read-Follows false false now stamp r h))

  pub consume-Follows :
      (item : Received) (now stamp : Clock) (h : Hub) → Follows h (consume parse item now stamp h).1
  unfolding consume
  consume-Follows (failure e) now stamp h = Follows-refl h
  consume-Follows (publication raw at) now stamp h =
      consume_read-Follows (parse_publication parse raw at) now stamp h

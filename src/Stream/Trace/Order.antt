-- ===== src/Stream/Trace/Order.antt =====
-- The order in which a GhostStreamHub of price_collector/ghost_twap_stream.py accepts decisions.
pub mod Accepting
pub mod Clients
pub mod Sources
pub mod Runs
use pythonbtccollector.Common.{
  ℕ, ◌+◌, ◌≤◌, ◌≡◌, refl, ◌∙◌, Bool, true, false, Option, none, some, List, [], ◌∷◌, arith, All,
  inl, inr, ltb, leb, ◌==◌, not, if_elim, ◌||◌,
}
use text.Mathlib.Text.{◌==◌ as str_eq}
use text.Mathlib.TextEquality.{eq_iff}
use pythonbtccollector.Common.Int.{ℤ, pos, negsuc}
use pythonbtccollector.Common.Result.{Result, ok, err}
use pythonbtccollector.Stream.Types.{Bytes, Clock, GhostRead, Raising, StreamReason, Identity}
use pythonbtccollector.Stream.Client.{StreamClient}
use pythonbtccollector.Stream.Read.{is_fresh}
use pythonbtccollector.Stream.Hub.{Hub, Producer, Outcome, emit, expire, expire_by, expire_read}
use pythonbtccollector.Stream.Hub.Accept.{
  install, show_by, accept_read, accept_from, accept_same_run, accept_again, accept_other_run,
  producer_of, shorten, is_conflicted,
}

-- The producer of a hub later in the same generation: the same run, no earlier decision, and for the
-- same decision the same bytes and no later deadline.
abbrev pub ProducerFollows : Option Producer → Option Producer → Type 0
ProducerFollows none q = Unit
ProducerFollows (some p) none = ⊥
ProducerFollows (some p) (some q) =
    (p.run ≡ q.run)
    × (p.sequence ≤ q.sequence)
    × (p.sequence ≡ q.sequence → (p.raw ≡ q.raw) × (q.deadline ≤ p.deadline))

pub record Follows (h k : Hub) : Type 0 where
  pub sequence_le : h.sequence ≤ k.sequence
  pub same_update : h.sequence ≡ k.sequence → h.snapshot ≡ k.snapshot
  pub generation_le : h.generation ≤ k.generation
  pub same_generation : h.generation ≡ k.generation → ProducerFollows h.producer k.producer

ProducerFollows-refl : (p : Option Producer) → ProducerFollows p p
ProducerFollows-refl none = tt
ProducerFollows-refl (some p) = (refl, omega arith, λ e. (refl, omega arith))

ProducerFollows-trans :
    (p q r : Option Producer) → ProducerFollows p q → ProducerFollows q r → ProducerFollows p r
ProducerFollows-trans none q r a b = tt
ProducerFollows-trans (some p) none r a b = absurd a
ProducerFollows-trans (some p) (some q) none a b = absurd b
ProducerFollows-trans (some p) (some q) (some r) a b = ground arith

pub Follows-refl : (h : Hub) → Follows h h
Follows-refl h = record {
  sequence_le = omega arith;
  same_update = λ e. refl;
  generation_le = omega arith;
  same_generation = λ e. ProducerFollows-refl h.producer;
}

pub Follows-trans : (h k l : Hub) → Follows h k → Follows k l → Follows h l
Follows-trans h k l a b = record {
  sequence_le = omega (arith, a.sequence_le, b.sequence_le);
  same_update = λ e.
      a.same_update (omega (arith, a.sequence_le, b.sequence_le, e))
      ∙ b.same_update (omega (arith, a.sequence_le, b.sequence_le, e));
  generation_le = omega (arith, a.generation_le, b.generation_le);
  same_generation = λ e.
      ProducerFollows-trans h.producer k.producer l.producer
        (a.same_generation (omega (arith, a.generation_le, b.generation_le, e)))
        (b.same_generation (omega (arith, a.generation_le, b.generation_le, e)));
}

-- What else a step may change in a hub, with its snapshot as it was.
pub changed-Follows :
    (h : Hub) (generation : ℕ) (clients : List StreamClient) (closed needs : Bool)
    (producer : Option Producer) (conflicted : Option Identity)
    → h.generation ≤ generation
    → (h.generation ≡ generation → ProducerFollows h.producer producer)
    → Follows h (record h {
      generation = generation;
      clients = clients;
      closed = closed;
      producer = producer;
      needs_authoritative = needs;
      conflicted_identity = conflicted;
    })
changed-Follows h generation clients closed needs producer conflicted g p = record {
  sequence_le = omega arith;
  same_update = λ e. refl;
  generation_le = g;
  same_generation = p;
}

-- The clients and what is known of conflicts do not matter.
pub kept-Follows :
    (h : Hub) (clients : List StreamClient) (closed needs : Bool) (conflicted : Option Identity)
    → Follows h (record h {
      clients = clients;
      closed = closed;
      needs_authoritative = needs;
      conflicted_identity = conflicted;
    })
kept-Follows h clients closed needs conflicted =
    changed-Follows h h.generation clients closed needs h.producer conflicted (omega arith)
      (λ e. ProducerFollows-refl h.producer)

-- An update is emitted by a hub whose generation and producer have moved on from those of `h`.
pub emit-Follows :
    (read : Option GhostRead) (reason : StreamReason) (resync : Bool) (stamp : Clock) (h k : Hub)
    → Follows h k
    → Follows h (emit read reason resync stamp k)
unfolding emit
emit-Follows read reason resync stamp h k f = record {
  sequence_le = omega (arith, f.sequence_le);
  same_update = λ e. absurd (omega (arith, f.sequence_le, e));
  generation_le = f.generation_le;
  same_generation = f.same_generation;
}

pub install-Follows :
    (r : GhostRead) (resync : Bool) (now stamp : Clock) (h k : Hub)
    → Follows h k
    → (h.generation ≡ k.generation → ProducerFollows h.producer (some (producer_of r)))
    → Follows h (install r resync now stamp k).1
unfolding install
install-Follows r resync now stamp h k f p =
    elim (is_fresh r now)
      as (λ x.
        Follows h
          (show_by r x resync stamp
            (record k { producer = some (producer_of r); needs_authoritative = false })).1) [
              | ok true ↦ emit-Follows _ _ resync stamp h _ moved
              | ok false ↦ emit-Follows _ _ resync stamp h _ moved
              | err e ↦ moved
            ]
  where
    moved : Follows h (record k { producer = some (producer_of r); needs_authoritative = false })
    moved = record {
      sequence_le = f.sequence_le;
      same_update = f.same_update;
      generation_le = f.generation_le;
      same_generation = p;
    }

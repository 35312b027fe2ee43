-- ===== src/Stream/Trace/Order/Accepting.antt =====
-- What `_accept` of price_collector/ghost_twap_stream.py takes follows what the hub held.
use pythonbtccollector.Common.{
  ℕ, ◌+◌, ◌≤◌, ◌≡◌, refl, sym, Bool, Option, none, some, arith, ltb, ◌==◌, not, if_elim,
}
use text.Mathlib.Text.{◌==◌ as str_eq}
use text.Mathlib.TextEquality.{eq_iff}
use pythonbtccollector.Stream.Types.{Clock, GhostRead, identity_of, bytes_eq, bytes_eq_iff}
use pythonbtccollector.Stream.Hub.{Hub, Producer, Outcome}
use pythonbtccollector.Stream.Hub.Accept.{
  accept_read, accept_from, accept_same_run, accept_again, accept_other_run, shorten, is_conflicted,
}
use pythonbtccollector.Stream.Trace.Order.{
  Follows, Follows-refl, emit-Follows, install-Follows, kept-Follows, changed-Follows,
}

module _ (authoritative resync : Bool) (now stamp : Clock) (r : GhostRead) (hub : Hub) where
  accept_again-Follows :
      (p : Producer)
      → hub.producer ≡ some p
      → p.run ≡ r.payload.run_id
      → p.sequence ≡ r.payload.decision_id
      → Follows hub (accept_again p authoritative resync now stamp r hub).1
  accept_again-Follows p held same_run same =
      if_elim (λ (o : Outcome (Unit {0})). Follows hub o.1) (not (bytes_eq r.payload.raw p.raw))
        (λ other. emit-Follows none _ resync stamp hub _ (
          kept-Follows hub hub.clients hub.closed hub.needs_authoritative
            (some (identity_of r.payload))))
        (λ equal.
          if_elim (λ (o : Outcome (Unit {0})). Follows hub o.1) (not authoritative)
            (λ a. Follows-refl hub)
            (λ a.
              install-Follows (shorten r p.deadline) resync now stamp hub hub (Follows-refl hub)
                (λ e. rw held (
                  same_run,
                  ground (arith, same),
                  λ s. (ground (arith, equal, bytes_eq_iff r.payload.raw p.raw), omega arith),
                ))))

  accept_same_run-Follows :
      (p : Producer)
      → hub.producer ≡ some p
      → p.run ≡ r.payload.run_id
      → Follows hub (accept_same_run p authoritative resync now stamp r hub).1
  accept_same_run-Follows p held same_run =
      if_elim (λ (o : Outcome (Unit {0})). Follows hub o.1) (ltb r.payload.decision_id p.sequence)
        (λ old.
          if_elim (Follows hub) authoritative
            (λ a. emit-Follows none _ resync stamp hub hub (Follows-refl hub))
            (λ a. Follows-refl hub))
        (λ n.
          if_elim (λ (o : Outcome (Unit {0})). Follows hub o.1)
            (r.payload.decision_id == p.sequence)
            (λ s. accept_again-Follows p held same_run (ground (arith, s)))
            (λ m.
              install-Follows r resync now stamp hub hub (Follows-refl hub)
                (λ e. rw held (same_run, ground (arith, n), λ s. absurd (ground (arith, m, s))))))

  accept_other_run-Follows :
      (generation : ℕ)
      → hub.generation ≤ generation
      → (hub.generation ≡ generation → hub.producer ≡ none)
      → Follows hub (accept_other_run generation authoritative resync now stamp r hub).1
  accept_other_run-Follows generation le first =
      if_elim (λ (o : Outcome (Unit {0})). Follows hub o.1) (not authoritative)
        (λ a. Follows-refl hub)
        (λ a.
          install-Follows r resync now stamp hub _
            (changed-Follows hub generation hub.clients hub.closed hub.needs_authoritative
              hub.producer none le (λ e. rw (first e) tt))
            (λ e. rw (first e) tt))

  accept_from-Follows :
      (producer : Option Producer)
      → hub.producer ≡ producer
      → Follows hub (accept_from producer authoritative resync now stamp r hub).1
  accept_from-Follows none held = accept_other_run-Follows hub.generation (omega arith) (λ e. held)
  accept_from-Follows (some p) held =
      if_elim (λ (o : Outcome (Unit {0})). Follows hub o.1) (str_eq r.payload.run_id p.run)
        (λ same. accept_same_run-Follows p held (sym ((eq_iff r.payload.run_id p.run).0 same)))
        (λ other.
          accept_other_run-Follows (hub.generation + 1) (omega arith)
            (λ e. absurd (omega (arith, e))))

  pub accept_read-Follows : Follows hub (accept_read authoritative resync now stamp r hub).1
  unfolding accept_read
  accept_read-Follows =
      if_elim (λ (o : Outcome (Unit {0})). Follows hub o.1)
        (is_conflicted hub.conflicted_identity r.payload)
        (λ c. emit-Follows none _ resync stamp hub hub (Follows-refl hub))
        (λ c. accept_from-Follows hub.producer refl)

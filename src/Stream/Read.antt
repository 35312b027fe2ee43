-- ===== src/Stream/Read.antt =====
-- A payload bound to the local clocks, in price_collector/ghost_twap_payload.py: `bind_read_clock`,
-- `GhostRead.remaining_ns` and `GhostRead.is_fresh`. Clocks are naturals here, so the check of their
-- range is that of the upper bound.
use pythonbtccollector.Common.{
  ℕ, ◌+◌, ◌-◌, ◌*◌, ◌<◌, ◌≡◌, Bool, true, [], ◌∷◌, ltb, leb, ◌&&◌, ◌||◌, not, if◌then◌else◌, min,
  arith,
}
use pythonbtccollector.Common.Result.{ok, err, ◌>>=◌}
use pythonbtccollector.Ghost.Types.{ns_per_ms}
use pythonbtccollector.Stream.Types.{
  max_integer, GhostPayload, Clock, GhostRead, Raising, invalid_ghost_payload,
}

abbrev pub has_eligible_prices : GhostPayload → Bool
has_eligible_prices p = elim p.eligible_horizons [ [] ↦ Bool.false | h ∷ hs ↦ true ]

abbrev pub is_clock : Clock → Bool
is_clock now = leb now.wall max_integer && leb now.mono max_integer

-- `max(0, min(a - b, c - d))`: subtraction stops at 0.
unfoldable pub remaining_ns : GhostRead → Clock → Raising ℕ
remaining_ns r now =
    if not (is_clock now)
    then err invalid_ghost_payload
    else if ltb now.wall r.received_wall_ns || ltb now.mono r.received_monotonic_ns
    then ok 0
    else ok
        (min (r.payload.valid_until_wall_ns - now.wall) (r.api_deadline_monotonic_ns - now.mono))

unfoldable pub is_fresh : GhostRead → Clock → Raising Bool
unfolding remaining_ns
is_fresh r now = remaining_ns r now >>= λ remaining. ok (ltb 0 remaining)

-- The remaining lifetime at the read; the terms of `producer_remaining` are sorted by their sign.
abbrev pub remaining_at : GhostPayload → ℕ → ℕ
remaining_at p wall = min (p.valid_until_wall_ns - wall) (
    min
      (p.publication_attempt_wall_ns
        + p.valid_until_wall_ns
        + p.producer_decision_monotonic_ns
        - (p.decision_wall_ns + p.producer_publication_attempt_monotonic_ns + wall))
      (p.receipt_max_age_ms * ns_per_ms))

unfoldable pub bind_read_clock : GhostPayload → Clock → Raising GhostRead
bind_read_clock p now =
    if not (is_clock now) || ltb now.wall p.publication_attempt_wall_ns
    then err invalid_ghost_payload
    else let remaining = remaining_at p now.wall in
      if ltb max_integer (now.mono + remaining)
      then err invalid_ghost_payload
      else ok (record {
        payload = p;
        received_wall_ns = now.wall;
        received_monotonic_ns = now.mono;
        api_deadline_monotonic_ns = now.mono + remaining;
      })

is_fresh-before :
    (r : GhostRead) (now : Clock)
    → is_fresh r now ≡ ok true
    → (now.wall < r.payload.valid_until_wall_ns) × (now.mono < r.api_deadline_monotonic_ns)
unfolding is_fresh
is_fresh-before r now h = ground arith

-- A read bound to the local clocks is fresh only while the wall clock is before the payload's
-- expiry, while less time than the receipt age has passed since the read by the monotonic clock, and
-- while the producer's own monotonic lifetime, counted from the attempted publication, has not run
-- out.
pub bound_read_lifetime :
    (p : GhostPayload) (at now : Clock) {r : GhostRead}
    → bind_read_clock p at ≡ ok r
    → is_fresh r now ≡ ok true
    → (now.wall < p.valid_until_wall_ns)
      × (now.mono < at.mono + p.receipt_max_age_ms * ns_per_ms)
      × (at.wall + p.decision_wall_ns + p.producer_publication_attempt_monotonic_ns + now.mono
          < at.mono + p.publication_attempt_wall_ns + p.valid_until_wall_ns
            + p.producer_decision_monotonic_ns)
unfolding bind_read_clock is_fresh
bound_read_lifetime p at now b h = ground arith

-- ===== src/Ghost/Gap/Reconnect.antt =====
-- When a spot reconnect of price_collector/ghost_twap.py keeps the history.
use pythonbtccollector.Common.{
  ℕ, ◌+◌, ◌≤◌, ◌<◌, ◌≡◌, refl, Option, none, some, arith, Option-cases, inl, inr,
}
use pythonbtccollector.Ghost.Types.{
  spot, PriceEvent, source_ns, SpotReconnect, waiting, cleared, retained, ReconnectStatus,
}
use pythonbtccollector.Ghost.Engine.{Engine, drop_feed}
use pythonbtccollector.Ghost.Gap.{
  lose_feed, clear_spot_reconnect, reconnect_limit_ns, resolve_spot_reconnect, settle_reconnect,
  receipt_reasons,
}

abbrev pub status_of : Option SpotReconnect → Option ReconnectStatus
status_of none = none
status_of (some r) = some r.status

-- The event is current, its source is later than the previous event's, and none of the three
-- distances from that event is above the limit.
abbrev pub Bridges : Engine → PriceEvent → PriceEvent → Type 0
Bridges s previous event =
    (receipt_reasons s event ≡ none)
    × (previous.source_timestamp_ms < event.source_timestamp_ms)
    × (source_ns event ≤ source_ns previous + reconnect_limit_ns s)
    × (event.received_wall_ns ≤ previous.received_wall_ns + reconnect_limit_ns s)
    × (event.received_monotonic_ns ≤ previous.received_monotonic_ns + reconnect_limit_ns s)

settle_bridged :
    (r : SpotReconnect) (previous event : PriceEvent) (s : Engine)
    → Bridges s previous event
    → let t = settle_reconnect r previous event s in
      (status_of t.spot_reconnect ≡ some retained) × (t.history ≡ s.history)
settle_bridged r previous event s b = rw b.0 (ground arith)

settle_broken :
    (r : SpotReconnect) (previous event : PriceEvent) (s : Engine)
    → ¬ Bridges s previous event
    → let t = settle_reconnect r previous event s in
      (status_of t.spot_reconnect ≡ some cleared)
      × (t.history ≡ drop_feed spot s.history)
      × (t.current_spot ≡ none)
unfolding clear_spot_reconnect lose_feed
settle_broken r previous event s n = elim (Option-cases (receipt_reasons s event)) [
  | inl c ↦ rw c (ground (arith, n))
  | inr (reason, c) ↦ rw c (refl, refl, refl)
]

-- A spot event that meets a waiting reconnect at or after the gap's clocks settles it. Where the
-- event bridges the gap, the reconnect is retained and the history stays as it is; otherwise the reconnect is
-- cleared, and the spot history and the current spot report are dropped.
pub reconnect_settles :
    (r : SpotReconnect) (previous event : PriceEvent) (gap_wall gap_mono : ℕ) (s : Engine)
    → s.spot_reconnect ≡ some r
    → r.status ≡ waiting
    → r.gap_wall_ns ≡ some gap_wall
    → r.gap_monotonic_ns ≡ some gap_mono
    → r.previous_spot ≡ some previous
    → event.feed ≡ spot
    → gap_wall ≤ event.received_wall_ns
    → gap_mono ≤ event.received_monotonic_ns
    → let t = (resolve_spot_reconnect event s).1 in
      (Bridges s previous event
        → (status_of t.spot_reconnect ≡ some retained) × (t.history ≡ s.history))
      × (¬ Bridges s previous event
          → (status_of t.spot_reconnect ≡ some cleared)
            × (t.history ≡ drop_feed spot s.history)
            × (t.current_spot ≡ none))
unfolding resolve_spot_reconnect
reconnect_settles r previous event gap_wall gap_mono s e w gw gm p f aw am =
    ground (arith, settle_bridged r previous event s, settle_broken r previous event s)

-- ===== src/Ghost/Gap.antt =====
-- Gaps and reconnects of GhostTwapEngine in price_collector/ghost_twap.py: `record_gap`,
-- `_clear_spot_reconnect` and `_resolve_spot_reconnect`. What a call wrote before it raised stays
-- written, so the engine comes back beside the result.
pub mod Isolation
pub mod Reconnect
use pythonbtccollector.Common.{
  ℕ, ◌+◌, ◌-◌, ◌*◌, Bool, true, false, Option, none, some, [], ltb, leb, ◌==◌, ◌&&◌, ◌||◌, not,
  if◌then◌else◌, min, max,
}
use pythonbtccollector.Common.Result.{Result, ok, err}
use pythonbtccollector.Ghost.Types.{
  Feed, spot, twap, PriceEvent, source_ns, ns_per_ms, GapReason, connection_end, other, GapMarker,
  gap_order, Reason, SpotReconnect, ReconnectStatus, waiting, cleared, retained, ReconnectReason,
  policy_disabled, missing_gap_clocks, pre_gap_source_regression, awaiting_fresh_advancing_spot,
  source_not_advanced, reconnect_limit_exceeded, bounded_carry_estimates, pre_gap, post_gap,
  hard_gap, GhostError, not_a_text, gap_predates, post_gap_predates, type_error,
}
use pythonbtccollector.Ghost.Checks.{is_text}
use pythonbtccollector.Ghost.Engine.{
  Engine, Key, is_feed, is_some, predates, drop_feed, current_reasons, latest_source,
}

abbrev pub Outcome : Type 0 → Type 0
Outcome A = Result GhostError A × Engine

abbrev pub is_reason_text : GapReason → Bool
is_reason_text (other reason) = is_text reason
is_reason_text _ = true

-- `_gap_count` and `_last_gaps[feed]`
abbrev pub count_gap : Feed → GapReason → Engine → Engine
count_gap feed reason s =
    let marker : GapMarker = record {
      feed = feed;
      reason = reason;
      ordinal = s.gap_count + 1;
      after_sequence = elim s.last_event [ none ↦ none | some e ↦ some e.sequence ];
    } in
    elim feed [
      | spot ↦ record s { gap_count = s.gap_count + 1; last_gap_spot = some marker }
      | twap ↦ record s { gap_count = s.gap_count + 1; last_gap_twap = some marker }
    ]

-- The observed spot events whose source stamp does not lie beyond their receipt.
abbrev pub is_admissible_spot : Key × PriceEvent → Bool
is_admissible_spot (k, e) = is_feed spot (k, e) && leb (source_ns e) e.received_wall_ns

-- `previous.source_timestamp_ms == frontier`
abbrev pub is_frontier : Option PriceEvent → Option PriceEvent → Bool
is_frontier (some previous) (some frontier) =
    previous.source_timestamp_ms == frontier.source_timestamp_ms
is_frontier _ _ = false

-- Whether a spot transport gap may keep the history, and the reason that is noted.
abbrev pub retention : ℕ → ℕ → Engine → ReconnectReason × Bool
retention wall mono s = elim (current_reasons s.policy s.current_spot spot wall mono) [
  | some invalid ↦ (pre_gap invalid, false)
  | none ↦
      if is_frontier s.current_spot (latest_source is_admissible_spot s.history)
      then (awaiting_fresh_advancing_spot, true)
      else (pre_gap_source_regression, false)
]

abbrev pub assess_clocks : Option ℕ → Option ℕ → Engine → Result GhostError (ReconnectReason × Bool)
assess_clocks (some wall) (some mono) s =
    if predates wall mono s then err gap_predates else ok (retention wall mono s)
assess_clocks _ _ s = ok (missing_gap_clocks, false)

abbrev pub assess_gap : Option ℕ → Option ℕ → Engine → Result GhostError (ReconnectReason × Bool)
assess_gap wall mono s =
    if s.policy.enabled && not (s.policy.spot_reconnect_max_gap_ms == 0) && not (is_some s.fault)
    then assess_clocks wall mono s
    else ok (policy_disabled, false)

-- `_history` and `_current` after a loss of a feed.
unfoldable pub lose_feed : Feed → Engine → Engine
unfolding drop_feed
lose_feed spot s = record s { history = drop_feed spot s.history; current_spot = none }
lose_feed twap s = record s {
  history = drop_feed twap s.history;
  current_twap = none;
  conflicts = [];
  twap_regressed = is_some s.twap_high_water;
}

abbrev pub new_reconnect : Option ℕ → Option ℕ → ReconnectReason × Bool → Engine → SpotReconnect
new_reconnect wall mono (exclusion, retain) s = record {
  gap_ordinal = s.gap_count;
  gap_wall_ns = wall;
  gap_monotonic_ns = mono;
  previous_spot = s.current_spot;
  first_post_gap_spot = none;
  status = if retain then waiting else cleared;
  reason = exclusion;
}

abbrev pub keep_or_lose_spot : Bool → Engine → Engine
keep_or_lose_spot true s = record s { current_spot = none }
keep_or_lose_spot false s = lose_feed spot s

-- The branch of a spot `connection_end`.
unfoldable pub end_connection : Option ℕ → Option ℕ → Engine → Outcome (Unit {0})
end_connection wall mono s = elim (assess_gap wall mono s) [
  | err e ↦ (err e, record s { fault = some gap_order })
  | ok assessed ↦ (
    ok tt,
    keep_or_lose_spot assessed.1
        (record s { spot_reconnect = some (new_reconnect wall mono assessed s) }),
  )
]

-- The reason `hard_gap:...` keeps the reason of the gap itself, and is not cut at 256 characters.
abbrev pub clear_by_hard_gap : Feed → GapReason → Engine → Engine
clear_by_hard_gap twap reason s = s
clear_by_hard_gap spot reason s = elim s.spot_reconnect [
  | none ↦ s
  | some r ↦ record s {
    spot_reconnect = some (record r { status = cleared; reason = hard_gap reason });
  }
]

unfoldable pub apply_gap : Feed → GapReason → Option ℕ → Option ℕ → Engine → Outcome (Unit {0})
apply_gap spot connection_end wall mono s = end_connection wall mono s
apply_gap feed reason wall mono s = (ok tt, lose_feed feed (clear_by_hard_gap feed reason s))

-- `record_gap`; its clocks are observed ones, or None.
unfoldable pub record_gap : Feed → GapReason → Option ℕ → Option ℕ → Engine → Outcome (Unit {0})
record_gap feed reason wall mono s =
    if is_reason_text reason
    then apply_gap feed reason wall mono (count_gap feed reason s)
    else (err not_a_text, s)

abbrev pub reconnect_limit_ns : Engine → ℕ
reconnect_limit_ns s = min s.policy.spot_reconnect_max_gap_ms s.policy.max_carry_ms * ns_per_ms

-- `_clear_spot_reconnect`, which is called only where there is a reconnect.
unfoldable pub clear_spot_reconnect :
    SpotReconnect → ReconnectReason → Option PriceEvent → Engine → Engine
clear_spot_reconnect r reason event s = record (lose_feed spot s) {
  spot_reconnect =
      some (record r { status = cleared; reason = reason; first_post_gap_spot = event });
}

-- The last branches of `_resolve_spot_reconnect`. The differences are of accepted receipts, and a
-- truncated one that should be negative does not decide the test: the source difference is positive.
abbrev pub settle_by : Option Reason → SpotReconnect → PriceEvent → PriceEvent → Engine → Engine
settle_by (some invalid) r previous event s =
    clear_spot_reconnect r (post_gap invalid) (some event) s
settle_by none r previous event s =
    if leb event.source_timestamp_ms previous.source_timestamp_ms
    then clear_spot_reconnect r source_not_advanced (some event) s
    else if ltb (reconnect_limit_ns s) (
        max (source_ns event - source_ns previous) (
          max (event.received_wall_ns - previous.received_wall_ns)
            (event.received_monotonic_ns - previous.received_monotonic_ns)))
    then clear_spot_reconnect r reconnect_limit_exceeded (some event) s
    else record s {
      spot_reconnect = some (record r {
        first_post_gap_spot = some event;
        status = retained;
        reason = bounded_carry_estimates;
      });
    }

-- `_current_reasons` of an event at its own receipt.
abbrev pub receipt_reasons : Engine → PriceEvent → Option Reason
receipt_reasons s event =
    current_reasons s.policy (some event) spot event.received_wall_ns event.received_monotonic_ns

abbrev pub settle_reconnect : SpotReconnect → PriceEvent → PriceEvent → Engine → Engine
settle_reconnect r previous event s = settle_by (receipt_reasons s event) r previous event s

abbrev pub resolve_waiting :
    Option ℕ
    → Option ℕ
    → Option PriceEvent
    → SpotReconnect
    → PriceEvent
    → Engine
    → Outcome (Unit {0})
resolve_waiting (some wall) (some mono) (some previous) r event s =
    if ltb event.received_wall_ns wall || ltb event.received_monotonic_ns mono
    then (err post_gap_predates, record s { fault = some gap_order })
    else (ok tt, settle_reconnect r previous event s)
resolve_waiting _ _ _ r event s = (err type_error, s)

abbrev pub is_waiting : ReconnectStatus → Bool
is_waiting waiting = true
is_waiting _ = false

-- `_resolve_spot_reconnect`
unfoldable pub resolve_spot_reconnect : PriceEvent → Engine → Outcome (Unit {0})
resolve_spot_reconnect event s = elim s.spot_reconnect [
  | none ↦ (ok tt, s)
  | some r ↦
      if is_feed spot ((event.feed, event.source_timestamp_ms), event) && is_waiting r.status
      then resolve_waiting r.gap_wall_ns r.gap_monotonic_ns r.previous_spot r event s
      else (ok tt, s)
]

-- ===== src/Ghost/Accept.antt =====
-- `accept` of GhostTwapEngine in price_collector/ghost_twap.py: the order of receipts, gaps in the
-- sequence, the high-water mark of the TWAP, the bound on the history.
use pythonbtccollector.Common.{
  ℕ, ◌+◌, Bool, true, false, Option, none, some, List, ◌∷◌, ltb, leb, ◌==◌, ◌||◌, not,
  if◌then◌else◌, any, length,
}
use pythonbtccollector.Common.Result.{ok, err}
use pythonbtccollector.Common.Dict.{lookup, insert}
use pythonbtccollector.Ghost.Types.{
  spot, twap, PriceEvent, source_ns, received_ms, sequence_gap, capacity, acceptance_order,
  backlogged_event, receipt_regressed, predates_decision,
}
use pythonbtccollector.Ghost.Engine.{Engine, key_Eq, key_of, before_pair, prune}
use pythonbtccollector.Ghost.Gap.{Outcome, record_gap, resolve_spot_reconnect}

abbrev pub regresses : PriceEvent → Option PriceEvent → Bool
regresses event none = false
regresses event (some previous) =
    leb event.sequence previous.sequence
    || ltb event.received_wall_ns previous.received_wall_ns
    || ltb event.received_monotonic_ns previous.received_monotonic_ns

abbrev pub skips_sequence : PriceEvent → Option PriceEvent → Bool
skips_sequence event none = false
skips_sequence event (some previous) = ltb (previous.sequence + 1) event.sequence

-- `record_gap` on both feeds, for a reason that is no connection end; such a call does not raise.
unfoldable pub sequence_gaps : Engine → Engine
sequence_gaps s =
    (record_gap twap sequence_gap none none (record_gap spot sequence_gap none none s).1).1

unfoldable pub capacity_gaps : Engine → Engine
capacity_gaps s = (record_gap twap capacity none none (record_gap spot capacity none none s).1).1

abbrev pub add_conflict : ℕ → List ℕ → List ℕ
add_conflict source conflicts =
    if any (λ c. c == source) conflicts then conflicts else source ∷ conflicts

-- A stored TWAP event of the same stamp and another price is a conflict.
abbrev pub conflicts_after : PriceEvent → Option PriceEvent → List ℕ → List ℕ
conflicts_after event none conflicts = conflicts
conflicts_after event (some old) conflicts =
    if old.value == event.value then conflicts else add_conflict event.source_timestamp_ms conflicts

-- `_twap_high_water` and `_twap_regressed`
abbrev pub water_after : PriceEvent → Option ℕ → Bool → Option ℕ × Bool
water_after event none regressed = (some event.source_timestamp_ms, false)
water_after event (some mark) regressed =
    if ltb mark event.source_timestamp_ms
    then (some event.source_timestamp_ms, false)
    else (some mark, if ltb event.source_timestamp_ms mark then true else regressed)

unfoldable pub note_twap : PriceEvent → Engine → Engine
note_twap event s = elim event.feed [
  | spot ↦ s
  | twap ↦
      let water =
        if leb (source_ns event) event.received_wall_ns
        then water_after event s.twap_high_water s.twap_regressed
        else (s.twap_high_water, s.twap_regressed) in
      record s {
        conflicts = conflicts_after event (lookup (key_of event) s.history) s.conflicts;
        twap_high_water = water.0;
        twap_regressed = water.1;
      }
]

abbrev pub set_current : PriceEvent → Engine → Engine
set_current event s = elim event.feed [
  | spot ↦ record s { current_spot = some event }
  | twap ↦ record s { current_twap = some event }
]

unfoldable pub remember : PriceEvent → Engine → Engine
remember event s =
    let s' = set_current event s in record s' { history = insert (key_of event) event s'.history }

-- Hard bounded loss: past the bound both feeds are lost, and only the event is kept.
unfoldable pub enforce_capacity : PriceEvent → Engine → Engine
enforce_capacity event s =
    if ltb s.policy.max_events (length s.history) then remember event (capacity_gaps s) else s

unfoldable pub store_event : PriceEvent → Engine → Engine
store_event event s =
    let s' = remember event (note_twap event s) in
    enforce_capacity event (prune (received_ms event) (record s' { last_event = some event }))

abbrev pub finish_accept : PriceEvent → Outcome (Unit {0}) → Outcome Bool
finish_accept event (ok done, s) = (ok true, store_event event s)
finish_accept event (err e, s) = (err e, s)

unfoldable pub accept : PriceEvent → Engine → Outcome Bool
accept event s =
    if not s.policy.enabled
    then (ok false, s)
    else if regresses event s.last_event
    then (err receipt_regressed, record s { fault = some acceptance_order })
    else if before_pair event.received_wall_ns event.received_monotonic_ns s.last_decision
    then (err predates_decision, record s { fault = some backlogged_event })
    else finish_accept event (
        resolve_spot_reconnect event
          (if skips_sequence event s.last_event then sequence_gaps s else s))

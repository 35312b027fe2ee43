-- ===== src/Ghost/Engine.antt =====
-- The state of GhostTwapEngine in price_collector/ghost_twap.py, and the parts of it that every
-- operation uses: the history by feed, `_current_reasons` and `_prune`.
use pythonbtccollector.Common.{
  ℕ, ◌-◌, ◌*◌, String, Bool, true, false, not, Option, none, some, List, [], ◌∷◌, ltb, leb, ◌==◌,
  ◌&&◌, ◌||◌, ◌≡◌, ◌↔◌, if◌then◌else◌, filter, arith,
}
use pythonbtccollector.Common.Dict.{Dict, Eq, lookup}
use pythonbtccollector.Ghost.Types.{
  Feed, spot, twap, GhostPolicy, PriceEvent, source_ns, ns_per_ms, GapMarker, Fault, Reason,
  missing_feed, future_feed, stale_feed, SpotReconnect,
}

abbrev pub feed_eq : Feed → Feed → Bool
feed_eq spot spot = true
feed_eq twap twap = true
feed_eq _ _ = false

-- `(feed, source_timestamp_ms)`, the key of `_history`.
abbrev pub Key : Type 0
Key = Feed × ℕ

abbrev pub key_eq : Key → Key → Bool
key_eq (f, s) (g, t) = feed_eq f g && s == t

pub key_eq_iff : (a b : Key) → (key_eq a b ≡ true) ↔ (a ≡ b)
key_eq_iff (spot, s) (spot, t) = ground arith
key_eq_iff (spot, s) (twap, t) = ground arith
key_eq_iff (twap, s) (spot, t) = ground arith
key_eq_iff (twap, s) (twap, t) = ground arith

instance abbrev pub key_Eq : Eq Key
key_Eq = record { beq = key_eq; beq_iff = key_eq_iff }

abbrev pub History : Type 0
History = Dict Key PriceEvent

abbrev pub key_of : PriceEvent → Key
key_of e = (e.feed, e.source_timestamp_ms)

pub record Engine : Type 0 where
  pub run_id : String
  pub policy : GhostPolicy
  pub history : History
  pub current_spot : Option PriceEvent
  pub current_twap : Option PriceEvent
  pub conflicts : List ℕ
  pub twap_high_water : Option ℕ
  pub twap_regressed : Bool
  pub fault : Option Fault
  pub last_event : Option PriceEvent
  pub last_decision : Option (ℕ × ℕ)
  pub gap_count : ℕ
  pub last_gap_spot : Option GapMarker
  pub last_gap_twap : Option GapMarker
  pub spot_reconnect : Option SpotReconnect

-- `GhostTwapEngine(run_id, policy)`, after the check of `run_id`.
unfoldable pub new_engine : String → GhostPolicy → Engine
new_engine run_id policy = record {
  run_id = run_id;
  policy = policy;
  history = [];
  current_spot = none;
  current_twap = none;
  conflicts = [];
  twap_high_water = none;
  twap_regressed = false;
  fault = none;
  last_event = none;
  last_decision = none;
  gap_count = 0;
  last_gap_spot = none;
  last_gap_twap = none;
  spot_reconnect = none;
}

abbrev pub is_some {ℓ} : {A : Type ℓ} → Option A → Bool
is_some none = false
is_some (some _) = true

-- A clock pair that lies before the last decision or the last accepted event.
abbrev pub before_pair : ℕ → ℕ → Option (ℕ × ℕ) → Bool
before_pair wall mono none = false
before_pair wall mono (some (w, m)) = ltb wall w || ltb mono m

abbrev pub before_event : ℕ → ℕ → Option PriceEvent → Bool
before_event wall mono none = false
before_event wall mono (some e) = ltb wall e.received_wall_ns || ltb mono e.received_monotonic_ns

abbrev pub predates : ℕ → ℕ → Engine → Bool
predates wall mono s = before_pair wall mono s.last_decision || before_event wall mono s.last_event

abbrev pub is_feed : Feed → Key × PriceEvent → Bool
is_feed feed (k, _) = feed_eq k.0 feed

-- `_history` without the entries of a feed.
unfoldable pub drop_feed : Feed → History → History
drop_feed feed = filter (λ x. not (is_feed feed x))

-- The ages are integers in the source; where the second test is made, none of them is negative.
unfoldable pub current_reasons : GhostPolicy → Option PriceEvent → Feed → ℕ → ℕ → Option Reason
current_reasons policy none feed wall mono = some (missing_feed feed)
current_reasons policy (some e) feed wall mono =
    if ltb wall (source_ns e)
      || ltb wall e.received_wall_ns
      || ltb mono e.received_monotonic_ns
      || ltb e.received_wall_ns (source_ns e)
    then some (future_feed feed)
    else if ltb (policy.source_max_age_ms * ns_per_ms) (wall - source_ns e)
        || ltb (policy.receipt_max_age_ms * ns_per_ms) (wall - e.received_wall_ns)
        || ltb (policy.receipt_max_age_ms * ns_per_ms) (mono - e.received_monotonic_ns)
    then some (stale_feed feed)
    else none

-- The event with the greatest source stamp; the first of equal ones, as `max` takes it.
abbrev pub later_source : PriceEvent → Option PriceEvent → PriceEvent
later_source e none = e
later_source e (some f) = if ltb e.source_timestamp_ms f.source_timestamp_ms then f else e

unfoldable pub latest_source : (Key × PriceEvent → Bool) → History → Option PriceEvent
latest_source p [] = none
latest_source p (x ∷ h) =
    let rest = latest_source p h in if p x then some (later_source x.1 rest) else rest

-- A cutoff before the epoch is 0 here: no stamp lies below either.
abbrev pub is_predecessor : ℕ → ℕ → Key × PriceEvent → Bool
is_predecessor cutoff carry (k, _) = feed_eq k.0 spot && leb (cutoff - carry) k.1 && ltb k.1 cutoff

-- `event is seed`: the history holds one event under each key.
abbrev pub is_seed : Option PriceEvent → Key × PriceEvent → Bool
is_seed none x = false
is_seed (some seed) (k, _) = key_eq k (key_of seed)

unfoldable pub pruned : ℕ → ℕ → History → History
unfolding latest_source
pruned cutoff carry h =
    let seed = latest_source (is_predecessor cutoff carry) h in
    filter (λ x. leb cutoff x.0.1 || is_seed seed x) h

abbrev pub holds_twap : History → ℕ → Bool
holds_twap h source = is_some (lookup (twap, source) h)

unfoldable pub prune : ℕ → Engine → Engine
unfolding pruned
prune wall_ms s =
    let kept = pruned (wall_ms - s.policy.history_ms) s.policy.max_carry_ms s.history in
    record s { history = kept; conflicts = filter (holds_twap kept) s.conflicts }

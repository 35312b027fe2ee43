-- ===== src/Stream/Types.antt =====
-- The data of price_collector/ghost_twap_payload.py and price_collector/ghost_twap_stream.py, with
-- enumerations for the texts of states and reasons.
use text.Mathlib.Text.{◌==◌ as str_eq}
use text.Mathlib.TextEquality.{eq_iff}
use pythonbtccollector.Common.{
  ℕ, String, Bool, true, false, Option, List, [], ◌∷◌, ◌==◌, ◌&&◌, ◌≡◌, ◌↔◌, arith,
}
use pythonbtccollector.Common.Int.{ℤ}
use pythonbtccollector.Common.Result.{Result}

abbrev pub Bytes : Type 0
Bytes = List ℕ

abbrev pub bytes_eq : Bytes → Bytes → Bool
bytes_eq [] [] = true
bytes_eq (a ∷ x) (b ∷ y) = a == b && bytes_eq x y
bytes_eq _ _ = false

pub bytes_eq_iff : (x y : Bytes) → (bytes_eq x y ≡ true) ↔ (x ≡ y)
bytes_eq_iff [] [] = ground arith
bytes_eq_iff [] (b ∷ y) = ground arith
bytes_eq_iff (a ∷ x) [] = ground arith
bytes_eq_iff (a ∷ x) (b ∷ y) = ground (arith, bytes_eq_iff x y)

abbrev pub max_integer : ℕ
max_integer = 9_223_372_036_854_775_807

-- A price is kept as its text.
pub record InputPrice : Type 0 where
  pub feed : String
  pub value : String
  pub source_timestamp_ms : ℕ
  pub received_wall_ns : ℕ
  pub producer_received_monotonic_ns : ℕ
  pub sequence : ℕ
  pub event_id : String
  pub window_s : Option ℕ

pub record PayloadCounts : Type 0 where
  pub observed : ℕ
  pub carried : ℕ
  pub pending : ℕ
  pub future : ℕ
  pub missing : ℕ

pub record GhostForecast : Type 0 where
  pub horizon_s : ℕ
  pub target_source_timestamp_ms : Option ℕ
  pub price : Option String
  pub quality : String
  pub reasons : List String
  pub counts : PayloadCounts
  pub estimated_arrival_wall_ns : Option ℕ
  pub estimated_remaining_ns : Option ℤ
  pub max_interior_carry_ms : ℕ

pub record GhostPayload : Type 0 where
  pub raw : Bytes
  pub run_id : String
  pub decision_id : ℕ
  pub decision_wall_ns : ℕ
  pub producer_decision_monotonic_ns : ℕ
  pub publication_attempt_wall_ns : ℕ
  pub producer_publication_attempt_monotonic_ns : ℕ
  pub valid_until_wall_ns : ℕ
  pub source_max_age_ms : ℕ
  pub receipt_max_age_ms : ℕ
  pub current_spot : Option InputPrice
  pub current_twap : Option InputPrice
  pub forecasts : List GhostForecast
  pub eligible_horizons : List ℕ

-- A reading of `wall_ns()` and `monotonic_ns()`.
pub record Clock : Type 0 where
  pub wall : ℕ
  pub mono : ℕ

pub record GhostRead : Type 0 where
  pub payload : GhostPayload
  pub received_wall_ns : ℕ
  pub received_monotonic_ns : ℕ
  pub api_deadline_monotonic_ns : ℕ

-- `reason` of an update; the texts of `_Resync` are among them.
pub data StreamReason : Type 0 where
  awaiting_data : StreamReason
  expired : StreamReason
  absent : StreamReason
  inconsistent_cache : StreamReason
  invalid_cache_ttl : StreamReason
  invalid_payload : StreamReason
  conflicting_payload : StreamReason
  regressed_snapshot : StreamReason
  fresh : StreamReason
  no_eligible_horizons : StreamReason
  resyncing : StreamReason
  connecting : StreamReason
  redis_unavailable : StreamReason
  api_clock_regression : StreamReason
  unconfirmed_producer : StreamReason
  subscriber_reconnected : StreamReason
  subscriber_buffer_overflow : StreamReason
  subscriber_health_timeout : StreamReason
  subscription_ack_timeout : StreamReason

pub data StreamState : Type 0 where
  snapshot : StreamState
  unavailable : StreamState

-- What a call raises; `other_failure` stands for the failures of Redis and of the event loop.
pub data StreamError : Type 0 where
  invalid_ghost_payload : StreamError
  client_closed : StreamError
  hub_closed : StreamError
  too_many_clients : StreamError
  resync_error : StreamReason → StreamError
  other_failure : StreamError

abbrev pub Raising : Type 0 → Type 0
Raising A = Result StreamError A

pub record StreamUpdate : Type 0 where
  pub read : Option GhostRead
  pub state : StreamState
  pub reason : StreamReason
  pub instance_id : String
  pub generation : ℕ
  pub sequence : ℕ
  pub wall_ns : ℕ
  pub monotonic_ns : ℕ
  pub resync : Bool

pub record StreamDelivery : Type 0 where
  pub update : StreamUpdate
  pub skipped_updates : ℕ

-- `(run_id, decision_id)` of a payload.
abbrev pub Identity : Type 0
Identity = String × ℕ

abbrev pub identity_of : GhostPayload → Identity
identity_of p = (p.run_id, p.decision_id)

abbrev pub identity_eq : Identity → Identity → Bool
identity_eq (r, i) (q, j) = str_eq r q && i == j

pub identity_eq_iff : (a b : Identity) → (identity_eq a b ≡ true) ↔ (a ≡ b)
identity_eq_iff (r, i) (q, j) = ground (arith, eq_iff r q)

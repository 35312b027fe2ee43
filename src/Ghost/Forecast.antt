-- ===== src/Ghost/Forecast.antt =====
-- The reasons and the forecasts of a decision, in `snapshot` of price_collector/ghost_twap.py.
pub mod Price
use pythonbtccollector.Common.{
  ℕ, ◌+◌, ◌-◌, ◌*◌, Bool, true, false, Option, none, some, List, [], ◌∷◌, ◌++◌, ltb, ◌==◌, not,
  if◌then◌else◌, any, take, drop,
}
use pythonbtccollector.Common.Int.{sub_ℕ}
use pythonbtccollector.Market.{market_for_sample_second}
use pythonbtccollector.Ghost.Types.{
  spot, twap, PriceEvent, ns_per_second, Category, observed, carried, pending, future, missing,
  Slot, SlotCounts, Fault, Reason, disabled, twap_regression, twap_conflict, missing_slots,
  target_already_received, fault, Quality, unavailable, degraded, healthy, Forecast,
}
use pythonbtccollector.Ghost.Checks.{round_half_even}
use pythonbtccollector.Ghost.Engine.{Engine, History, current_reasons, holds_twap}

abbrev pub horizons : List ℕ
horizons = 1 ∷ 2 ∷ 3 ∷ 5 ∷ 10 ∷ 30 ∷ []

abbrev pub category_eq : Category → Category → Bool
category_eq observed observed = true
category_eq carried carried = true
category_eq pending pending = true
category_eq future future = true
category_eq missing missing = true
category_eq _ _ = false

unfoldable pub count_category : Category → List Slot → ℕ
count_category c [] = 0
count_category c (x ∷ l) = (if category_eq x.category c then 1 else 0) + count_category c l

unfoldable pub slot_counts : List Slot → SlotCounts
unfolding count_category
slot_counts [] = record { observed = 0; carried = 0; pending = 0; future = 0; missing = 60 }
slot_counts (x ∷ l) = record {
  observed = count_category observed (x ∷ l);
  carried = count_category carried (x ∷ l);
  pending = count_category pending (x ∷ l);
  future = count_category future (x ∷ l);
  missing = count_category missing (x ∷ l);
}

-- `sum(slot.value ...)`; `none` is the TypeError of a slot with no value.
unfoldable pub sum_values : List Slot → Option ℕ
sum_values [] = some 0
sum_values (x ∷ l) = elim x.value [
  | none ↦ none
  | some v ↦ elim (sum_values l) [ none ↦ none | some total ↦ some (v + total) ]
]

-- The mean of sixty values in quanta, rounded half to even. The source divides at 80 digits first;
-- a sixtieth that is no half is not rounded to a half there, so rounding once gives the same.
unfoldable pub mean_price : List Slot → Option ℕ
unfolding sum_values round_half_even
mean_price selected = elim (sum_values selected) [
  | none ↦ none
  | some total ↦ some (round_half_even total 60)
]

abbrev pub is_empty {ℓ} : {A : Type ℓ} → List A → Bool
is_empty [] = true
is_empty (x ∷ l) = false

abbrev pub when {ℓ} : {A : Type ℓ} → Bool → A → List A
when true x = x ∷ []
when false x = []

abbrev pub option_list {ℓ} : {A : Type ℓ} → Option A → List A
option_list none = []
option_list (some x) = x ∷ []

abbrev pub fault_list : Option Fault → List Reason
fault_list none = []
fault_list (some f) = fault f ∷ []

abbrev pub has_conflict : Option PriceEvent → List ℕ → Bool
has_conflict none conflicts = false
has_conflict (some anchor) conflicts = any (λ c. c == anchor.source_timestamp_ms) conflicts

-- `reasons` of a decision.
unfoldable pub decision_reasons : Engine → ℕ → ℕ → List Reason
unfolding current_reasons
decision_reasons s wall mono =
    when (not s.policy.enabled) disabled
    ++ (fault_list s.fault
        ++ (option_list (current_reasons s.policy s.current_spot spot wall mono)
            ++ (option_list (current_reasons s.policy s.current_twap twap wall mono)
                ++ (when s.twap_regressed twap_regression
                    ++ when (has_conflict s.current_twap s.conflicts) twap_conflict))))

abbrev pub quality_of : Bool → ℕ → Quality
quality_of false n = unavailable
quality_of true n = if n == 0 then healthy else degraded

abbrev pub forecast_issues : List Reason → SlotCounts → Bool → List Reason
forecast_issues reasons counts received =
    reasons
    ++ (when (not (counts.missing == 0)) missing_slots ++ when received target_already_received)

-- A forecast with an anchor. Its target is a whole second, so its market is known.
unfoldable pub anchored_forecast : History → List Reason → List Slot → ℕ → PriceEvent → ℕ → Forecast
unfolding slot_counts mean_price market_for_sample_second
anchored_forecast h reasons slots wall anchor horizon =
    let target = anchor.source_timestamp_ms + horizon * 1000 in
    let selected = take 60 (drop (horizon - 1) slots) in
    let counts = slot_counts selected in
    let issues = forecast_issues reasons counts (holds_twap h target) in
    let eta = anchor.received_wall_ns + horizon * ns_per_second in
    record {
      horizon_s = horizon;
      target_source_timestamp_ms = some target;
      market = market_for_sample_second target;
      slot_start_index = some (horizon - 1);
      price = if is_empty issues then mean_price selected else none;
      quality = quality_of (is_empty issues) counts.carried;
      reasons = issues;
      counts = counts;
      estimated_arrival_wall_ns = some eta;
      estimated_remaining_ns = some (sub_ℕ eta wall);
      estimate_overdue = ltb eta wall;
    }

-- A forecast with no anchor: sixty slots are missing.
unfoldable pub unanchored_forecast : List Reason → ℕ → Forecast
unfolding slot_counts
unanchored_forecast reasons horizon = record {
  horizon_s = horizon;
  target_source_timestamp_ms = none;
  market = none;
  slot_start_index = none;
  price = none;
  quality = unavailable;
  reasons = forecast_issues reasons (slot_counts []) false;
  counts = slot_counts [];
  estimated_arrival_wall_ns = none;
  estimated_remaining_ns = none;
  estimate_overdue = false;
}

-- ===== src/Ghost/Forecast/Price.antt =====
-- The price of a forecast of price_collector/ghost_twap.py against its sixty slots.
use pythonbtccollector.Common.{
  ℕ, ◌+◌, ◌-◌, ◌*◌, ◌≤◌, ◌<◌, ◌≡◌, ◌↔◌, refl, Bool, true, false, not, Option, none, some, List, [],
  ◌∷◌, arith, length, take, drop, All, length-take, length-drop, All-take, All-drop, All-map, inl,
  inr, Option-cases, range_from, if◌then◌else◌, length-map, length-range_from, ◌∙◌, ◌⊎◌, ◌%◌,
}
use pythonbtccollector.Common.Int.{ℤ, sub_ℕ}
use pythonbtccollector.Ghost.Types.{GhostPolicy, PriceEvent, Slot, missing, Reason}
use pythonbtccollector.Ghost.Checks.{round_half_even}
use pythonbtccollector.Ghost.Engine.{Engine, History, is_some, holds_twap}
use pythonbtccollector.Ghost.Slots.{slot_at, slots_for, second_slot, admissible_spots}
use pythonbtccollector.Ghost.Forecast.{
  category_eq, count_category, slot_counts, sum_values, mean_price, is_empty, forecast_issues,
  anchored_forecast,
}

-- A slot has a value exactly when it is not missing.
abbrev IsValued : Slot → Type 0
IsValued x = is_some x.value ≡ not (category_eq x.category missing)

slot_at-IsValued :
    (policy : GhostPolicy) (current : Option PriceEvent) (wall mono : ℕ) (spots : List PriceEvent)
    (stamp : ℤ)
    → IsValued (slot_at policy current wall mono spots stamp)
unfolding slot_at
slot_at-IsValued policy current wall mono spots stamp = ground arith

second_slot-IsValued :
    (s : Engine) (wall mono : ℕ) (anchor : PriceEvent) (spots : List PriceEvent) (index : ℕ)
    → IsValued (second_slot s wall mono anchor spots index)
unfolding second_slot
second_slot-IsValued s wall mono anchor spots index =
    slot_at-IsValued s.policy s.current_spot wall mono spots
      (sub_ℕ (anchor.source_timestamp_ms + index * 1000) 61_000)

slots_for-IsValued :
    (s : Engine) (wall mono : ℕ) (anchor : PriceEvent) → All IsValued (slots_for s wall mono anchor)
unfolding slots_for
slots_for-IsValued s wall mono anchor =
    let spots = admissible_spots s.history in
    All-map IsValued (second_slot s wall mono anchor spots)
      (second_slot-IsValued s wall mono anchor spots) (range_from 0 89)

sum_values-some :
    (l : List Slot)
    → All IsValued l
    → (is_some (sum_values l) ≡ true) ↔ (count_category missing l ≡ 0)
unfolding sum_values count_category
sum_values-some [] h = ground arith
sum_values-some (x ∷ l) h = ground (arith, sum_values-some l h.1)

-- The value of a slot, if it has one, lies between two bounds.
abbrev pub Within : ℕ → ℕ → Slot → Type 0
Within low high x = elim x.value [ none ↦ Unit | some v ↦ (low ≤ v) × (v ≤ high) ]

sum_values_bounds :
    (low high : ℕ) (l : List Slot) {total : ℕ}
    → All (Within low high) l
    → sum_values l ≡ some total
    → (low * length l ≤ total) × (total ≤ high * length l)
unfolding sum_values
sum_values_bounds low high [] h p = ground arith
sum_values_bounds low high (x ∷ l) h p = elim (Option-cases x.value) [
  | inl e ↦ ground arith
  | inr (v, e) ↦ elim (Option-cases (sum_values l)) [
    | inl q ↦ ground arith
    | inr (t, q) ↦ ground (arith, h.0, sum_values_bounds low high l h.1 q)
  ]
]

round_half_even_bounds :
    (low high total : ℕ)
    → low * 60 ≤ total
    → total ≤ high * 60
    → (low ≤ round_half_even total 60) × (round_half_even total 60 ≤ high)
unfolding round_half_even
round_half_even_bounds low high total p q = ground arith

abbrev pub selected : List Slot → ℕ → List Slot
selected slots horizon = take 60 (drop (horizon - 1) slots)

length-selected :
    (slots : List Slot) (horizon : ℕ)
    → length slots ≡ 89
    → horizon ≤ 30
    → length (selected slots horizon) ≡ 60
length-selected slots horizon e h =
    omega (arith, length-take 60 (drop (horizon - 1) slots), length-drop (horizon - 1) slots)

length-slots_for :
    (s : Engine) (wall mono : ℕ) (anchor : PriceEvent) → length (slots_for s wall mono anchor) ≡ 89
unfolding slots_for
length-slots_for s wall mono anchor =
    length-map (second_slot s wall mono anchor (admissible_spots s.history)) (range_from 0 89)
    ∙ length-range_from 0 89

mean_price-some :
    (l : List Slot) → All IsValued l → count_category missing l ≡ 0 → is_some (mean_price l) ≡ true
unfolding mean_price
mean_price-some l h e = ground (arith, (sum_values-some l h).1 e)

-- The price and the reasons of a forecast over a list of slots.
price-eq-issues :
    (reasons : List Reason) (l : List Slot) (received : Bool)
    → 0 < length l
    → All IsValued l
    → let issues = forecast_issues reasons (slot_counts l) received in
      is_some (if is_empty issues then mean_price l else none) ≡ is_empty issues
unfolding slot_counts
price-eq-issues (r ∷ reasons) l received p h = refl
price-eq-issues [] [] received p h = absurd (omega arith)
price-eq-issues [] (x ∷ l) true p h = ground arith
price-eq-issues [] (x ∷ l) false p h = ground (arith, mean_price-some (x ∷ l) h)

-- For a horizon of at most thirty seconds, a forecast over the slots of an anchor has a price
-- exactly when no reason stands against it.
pub forecast_price_iff :
    (s : Engine) (reasons : List Reason) (wall mono : ℕ) (anchor : PriceEvent) (horizon : ℕ)
    → horizon ≤ 30
    → let f =
        anchored_forecast s.history reasons (slots_for s wall mono anchor) wall anchor horizon in
      (is_some f.price ≡ is_empty f.reasons)
unfolding anchored_forecast
forecast_price_iff s reasons wall mono anchor horizon h =
    let slots = slots_for s wall mono anchor in
    price-eq-issues reasons (selected slots horizon)
      (holds_twap s.history (anchor.source_timestamp_ms + horizon * 1000))
      (omega (arith, length-selected slots horizon (length-slots_for s wall mono anchor) h))
      (All-take IsValued 60 _
        (All-drop IsValued (horizon - 1) _ (slots_for-IsValued s wall mono anchor)))

round_half_even-nearest :
    (total p : ℕ)
    → p ≡ round_half_even total 60
    → (60 * p ≤ total + 30)
      × (total ≤ 60 * p + 30)
      × ((60 * p ≡ total + 30) ⊎ (total ≡ 60 * p + 30) → p % 2 ≡ 0)
unfolding round_half_even
round_half_even-nearest total p h = ground arith

-- The price of a priced forecast over the selected slots, and the total that it comes from.
priced-total :
    (l : List Slot) (p : ℕ)
    → mean_price l ≡ some p
    → (total : ℕ) × (sum_values l ≡ some total) × (p ≡ round_half_even total 60)
unfolding mean_price
priced-total l p h = elim (Option-cases (sum_values l)) [
  | inl e ↦ absurd (ground arith)
  | inr (t, e) ↦ (t, e, ground arith)
]

mean_price_bounds :
    (low high : ℕ) (l : List Slot) (p : ℕ)
    → length l ≡ 60
    → mean_price l ≡ some p
    → All (Within low high) l
    → (low ≤ p) × (p ≤ high)
mean_price_bounds low high l p len h w =
    let (total, sums, rounds) = priced-total l p h in
    let (above, below) = sum_values_bounds low high l w sums in
    let (a, b) = round_half_even_bounds low high total (rw len at above) (rw len at below) in
    rw rounds (a, b)

forecast-mean :
    (h : History) (reasons : List Reason) (slots : List Slot) (wall : ℕ) (anchor : PriceEvent)
    (horizon : ℕ) {p : ℕ}
    → (anchored_forecast h reasons slots wall anchor horizon).price ≡ some p
    → mean_price (selected slots horizon) ≡ some p
unfolding anchored_forecast
forecast-mean h reasons slots wall anchor horizon e = ground arith

-- The price of a forecast of at most thirty seconds lies between any two bounds on the values of
-- its sixty slots.
pub forecast_price_between :
    (s : Engine) (reasons : List Reason) (wall mono : ℕ) (anchor : PriceEvent)
    (horizon low high : ℕ) {p : ℕ}
    → horizon ≤ 30
    → let slots = slots_for s wall mono anchor in
      (anchored_forecast s.history reasons slots wall anchor horizon).price ≡ some p
      → All (Within low high) (selected slots horizon)
      → (low ≤ p) × (p ≤ high)
forecast_price_between s reasons wall mono anchor horizon low high {p} h e w =
    let slots = slots_for s wall mono anchor in
    mean_price_bounds low high (selected slots horizon) p
      (length-selected slots horizon (length-slots_for s wall mono anchor) h)
      (forecast-mean s.history reasons slots wall anchor horizon e) w

-- The price of a forecast is the mean of its sixty values, rounded half to even: sixty times the
-- price is within thirty of the total, and where it is off by thirty the price is even.
pub forecast_price_nearest :
    (s : Engine) (reasons : List Reason) (slots : List Slot) (wall : ℕ) (anchor : PriceEvent)
    (horizon : ℕ) {p : ℕ}
    → (anchored_forecast s.history reasons slots wall anchor horizon).price ≡ some p
    → (total : ℕ) × (sum_values (selected slots horizon) ≡ some total)
      × ((60 * p ≤ total + 30)
          × (total ≤ 60 * p + 30)
          × ((60 * p ≡ total + 30) ⊎ (total ≡ 60 * p + 30) → p % 2 ≡ 0))
forecast_price_nearest s reasons slots wall anchor horizon {p} e =
    let (total, sums, rounds) =
      priced-total (selected slots horizon) p
        (forecast-mean s.history reasons slots wall anchor horizon e) in
    (total, sums, round_half_even-nearest total p rounds)

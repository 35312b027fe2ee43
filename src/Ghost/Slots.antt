-- ===== src/Ghost/Slots.antt =====
-- The slots of a decision, in `snapshot` of price_collector/ghost_twap.py: for each second around the
-- anchor the admissible spot event that it takes, and its category.
pub mod Sorted
pub mod Selection
pub mod Categories
use pythonbtccollector.Common.{
  ℕ, ◌+◌, ◌-◌, ◌*◌, Bool, false, Option, none, some, List, [], ◌∷◌, map, ltb, leb, ◌==◌,
  if◌then◌else◌, range_from,
}
use pythonbtccollector.Common.Int.{ℤ, pos, negsuc, pos_part, sub_ℕ, ltb_ℤ, leb_ℤ}
use pythonbtccollector.Ghost.Types.{
  spot, GhostPolicy, PriceEvent, ns_per_ms, Category, observed, carried, pending, future, missing,
  Slot, Reason,
}
use pythonbtccollector.Ghost.Engine.{Engine, History, current_reasons}
use pythonbtccollector.Ghost.Gap.{is_admissible_spot}

-- `sorted(..., key=source_timestamp_ms)`: stable insertion.
unfoldable pub insert_by_source : PriceEvent → List PriceEvent → List PriceEvent
insert_by_source e [] = e ∷ []
insert_by_source e (f ∷ l) =
    if leb e.source_timestamp_ms f.source_timestamp_ms then e ∷ f ∷ l else f ∷ insert_by_source e l

-- The admissible spot events of the history, by source stamp.
unfoldable pub admissible_spots : History → List PriceEvent
unfolding insert_by_source
admissible_spots [] = []
admissible_spots (x ∷ h) =
    let rest = admissible_spots h in
    if is_admissible_spot x then insert_by_source x.1 rest else rest

-- `spots[bisect_right(sources, stamp) - 1]`, or None at index -1.
unfoldable pub select_spot : ℤ → List PriceEvent → Option PriceEvent
select_spot stamp [] = none
select_spot stamp (e ∷ l) =
    let rest = select_spot stamp l in
    if leb_ℤ (pos e.source_timestamp_ms) stamp
    then (elim rest [ none ↦ some e | some f ↦ some f ])
    else none

-- `sources[-1]`
unfoldable pub newest_source : List PriceEvent → ℕ
newest_source [] = 0
newest_source (e ∷ []) = e.source_timestamp_ms
newest_source (e ∷ f ∷ l) = newest_source (f ∷ l)

abbrev pub missing_slot : ℤ → Option ℕ → Slot
missing_slot stamp age = record {
  slot_timestamp_ms = stamp;
  value = none;
  input = none;
  category = missing;
  carry_age_ms = age;
}

abbrev pub filled_slot : ℤ → PriceEvent → Category → Option ℕ → Slot
filled_slot stamp e category age = record {
  slot_timestamp_ms = stamp;
  value = some e.value;
  input = some e;
  category = category;
  carry_age_ms = age;
}

-- A stamp after the decision takes the current spot, if that has no reason against it.
abbrev pub future_slot : ℤ → Option PriceEvent → Option Reason → Slot
future_slot stamp (some e) none = filled_slot stamp e future none
future_slot stamp _ _ = missing_slot stamp none

-- The stamp of a selected event is not negative.
abbrev pub past_slot : ℕ → ℤ → List PriceEvent → Option PriceEvent → Slot
past_slot max_carry_ms stamp spots none = missing_slot stamp none
past_slot max_carry_ms stamp spots (some e) =
    let age = pos_part stamp - e.source_timestamp_ms in
    if ltb max_carry_ms age
    then missing_slot stamp (some age)
    else filled_slot stamp e
        (if age == 0
          then observed
          else if ltb_ℤ (pos (newest_source spots)) stamp
          then pending
          else carried)
        (some age)

abbrev pub is_after : ℤ → ℕ → Bool
is_after (pos stamp) wall = ltb wall (stamp * ns_per_ms)
is_after (negsuc stamp) wall = false

unfoldable pub slot_at : GhostPolicy → Option PriceEvent → ℕ → ℕ → List PriceEvent → ℤ → Slot
unfolding select_spot newest_source current_reasons
slot_at policy current wall mono spots stamp =
    if is_after stamp wall
    then future_slot stamp current (current_reasons policy current spot wall mono)
    else past_slot policy.max_carry_ms stamp spots (select_spot stamp spots)

-- The slot of the second `index - 61` after the anchor.
unfoldable pub second_slot : Engine → ℕ → ℕ → PriceEvent → List PriceEvent → ℕ → Slot
unfolding slot_at
second_slot s wall mono anchor spots index =
    slot_at s.policy s.current_spot wall mono spots
      (sub_ℕ (anchor.source_timestamp_ms + index * 1000) 61_000)

-- The slots of `range(-61, 28)` seconds around the anchor.
unfoldable pub slots_for : Engine → ℕ → ℕ → PriceEvent → List Slot
slots_for s wall mono anchor =
    map (second_slot s wall mono anchor (admissible_spots s.history)) (range_from 0 89)

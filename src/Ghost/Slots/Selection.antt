-- ===== src/Ghost/Slots/Selection.antt =====
-- Which spot event a slot of price_collector/ghost_twap.py takes, and its category, against the
-- history itself.
use pythonbtccollector.Common.{
  ℕ, ◌+◌, ◌≤◌, ◌<◌, ◌≡◌, ◌↔◌, ◌⊎◌, ◌≢◌, inl, inr, refl, true, false, Option, none, some, List, [],
  ◌∷◌, arith, All, All-imp,
}
use pythonbtccollector.Common.Int.{ℤ, pos_part, neg_part}
use pythonbtccollector.Ghost.Types.{GhostPolicy, PriceEvent, Slot, observed, carried, pending}
use pythonbtccollector.Ghost.Engine.{History}
use pythonbtccollector.Ghost.Gap.{is_admissible_spot}
use pythonbtccollector.Ghost.Slots.{
  admissible_spots, past_slot, select_spot, newest_source, is_after, slot_at,
}
use pythonbtccollector.Ghost.Slots.Sorted.{
  Reaches, admissible_spots-IsSorted, of_All-admissible_spots, select_spot-none, select_spot-All,
  All-admissible_spots, select_spot-IsLatest,
}

-- The event is that of an admissible spot entry of the history.
unfoldable pub Holds : History → PriceEvent → Type 0
Holds [] e = ⊥
Holds (x ∷ h) e = (is_admissible_spot x ≡ true) × (x.1 ≡ e) ⊎ Holds h e

All-Holds : (h : History) → All (λ x. is_admissible_spot x ≡ true → Holds h x.1) h
unfolding Holds
All-Holds [] = tt
All-Holds (x ∷ h) = (
  λ a. inl (a, refl),
  All-imp (λ y. is_admissible_spot y ≡ true → Holds h y.1)
      (λ y. is_admissible_spot y ≡ true → Holds (x ∷ h) y.1) (λ y held a. inr (held a)) h
      (All-Holds h),
)

-- A filled slot has the selected event and an age within the bound.
pub past_slot-input :
    (carry : ℕ) (stamp : ℤ) (spots : List PriceEvent) (o : Option PriceEvent) (e : PriceEvent)
    → (past_slot carry stamp spots o).input ≡ some e
    → (o ≡ some e)
      × ((past_slot carry stamp spots o).value ≡ some e.value)
      × (pos_part stamp ≤ e.source_timestamp_ms + carry)
past_slot-input carry stamp spots none e h = absurd (ground arith)
past_slot-input carry stamp spots (some f) e h = ground arith

past_slot-missing :
    (carry : ℕ) (stamp : ℤ) (spots : List PriceEvent) (o : Option PriceEvent)
    → (past_slot carry stamp spots o).input ≡ none
    → (o ≡ none)
      ⊎ ((e : PriceEvent) × (o ≡ some e) × (e.source_timestamp_ms + carry < pos_part stamp))
past_slot-missing carry stamp spots none h = inl refl
past_slot-missing carry stamp spots (some f) h = inr (f, refl, ground arith)

pub past_slot-category :
    (carry : ℕ) (stamp : ℤ) (spots : List PriceEvent) (e : PriceEvent)
    → Reaches stamp e
    → (past_slot carry stamp spots (some e)).input ≡ some e
    → let c = (past_slot carry stamp spots (some e)).category in
      ((c ≡ observed) ↔ (e.source_timestamp_ms ≡ pos_part stamp))
      × ((c ≡ pending)
          ↔ (e.source_timestamp_ms ≢ pos_part stamp)
            × (newest_source spots + neg_part stamp < pos_part stamp))
      × ((c ≡ carried)
          ↔ (e.source_timestamp_ms ≢ pos_part stamp)
            × (pos_part stamp ≤ newest_source spots + neg_part stamp))
past_slot-category carry stamp spots e r h = ground arith

module _ (policy : GhostPolicy) (current : Option PriceEvent) (wall mono : ℕ) (h : History)
    (stamp : ℤ) (reached : is_after stamp wall ≡ false) where
  abbrev pub slot : Slot
  slot = slot_at policy current wall mono (admissible_spots h) stamp

  abbrev pub selection : Option PriceEvent
  selection = select_spot stamp (admissible_spots h)

  -- The slot by cases on what is selected.
  pub slot-of-selection : slot ≡ past_slot policy.max_carry_ms stamp (admissible_spots h) selection
  unfolding slot_at
  slot-of-selection = rw reached

  pub selected-Holds : (e : PriceEvent) → selection ≡ some e → Holds h e
  selected-Holds e p =
      select_spot-All (Holds h) stamp (admissible_spots h) e
        (All-admissible_spots (Holds h) h (All-Holds h)) p

  pub selected-in-history :
      (e : PriceEvent)
      → selection ≡ some e
      → Reaches stamp e
        × All
            (λ y.
              is_admissible_spot y ≡ true
              → Reaches stamp y.1
              → y.1.source_timestamp_ms ≤ e.source_timestamp_ms)
            h
  selected-in-history e p =
      let (r, rest) =
        select_spot-IsLatest stamp (admissible_spots h) e (admissible_spots-IsSorted h) p in
      (
        r,
        of_All-admissible_spots
            (λ f. Reaches stamp f → f.source_timestamp_ms ≤ e.source_timestamp_ms) h rest,
      )

  none-in-history :
      selection ≡ none → All (λ y. is_admissible_spot y ≡ true → ¬ Reaches stamp y.1) h
  none-in-history p =
      of_All-admissible_spots (λ f. ¬ Reaches stamp f) h
        (select_spot-none stamp (admissible_spots h) (admissible_spots-IsSorted h) p)

-- The input of a slot at or before the decision is an admissible spot event of the history, no later
-- than the stamp and no more than the carry bound before it, with the latest source among the
-- admissible ones up to the stamp, and the value is its price. When there is no input, every
-- admissible spot event of the history up to the stamp is further before it than the carry bound.
pub slot_selection :
    (policy : GhostPolicy) (current : Option PriceEvent) (wall mono : ℕ) (h : History) (stamp : ℤ)
    → is_after stamp wall ≡ false
    → let x = slot_at policy current wall mono (admissible_spots h) stamp in
      ((e : PriceEvent)
        → x.input ≡ some e
        → (x.value ≡ some e.value)
          × Holds h e
          × Reaches stamp e
          × (pos_part stamp ≤ e.source_timestamp_ms + policy.max_carry_ms)
          × All
              (λ y.
                is_admissible_spot y ≡ true
                → Reaches stamp y.1
                → y.1.source_timestamp_ms ≤ e.source_timestamp_ms)
              h)
      × (x.input ≡ none
          → All
              (λ y.
                is_admissible_spot y ≡ true
                → Reaches stamp y.1
                → y.1.source_timestamp_ms + policy.max_carry_ms < pos_part stamp)
              h)
slot_selection policy current wall mono h stamp reached = (
  λ e p.
      let (chosen, value, fits) =
        past_slot-input policy.max_carry_ms stamp (admissible_spots h) _ e (rw same at p) in
      let (r, latest) = in_history e chosen in (rw same value, held e chosen, r, fits, latest),
  λ p. elim (past_slot-missing policy.max_carry_ms stamp (admissible_spots h) _ (rw same at p)) [
    | inl nothing ↦
        All-imp (λ y. is_admissible_spot y ≡ true → ¬ Reaches stamp y.1) _
          (λ y n a r. absurd (n a r)) h (none_in_history nothing)
    | inr (e, chosen, old) ↦
        All-imp
          (λ y.
            is_admissible_spot y ≡ true
            → Reaches stamp y.1
            → y.1.source_timestamp_ms ≤ e.source_timestamp_ms)
          _ (λ y n a r. omega (arith, n a r)) h (in_history e chosen).1
  ],
)
  where
    held : (e : PriceEvent) → select_spot stamp (admissible_spots h) ≡ some e → Holds h e
    held = selected-Holds policy current wall mono h stamp reached

    same :
        slot_at policy current wall mono (admissible_spots h) stamp
        ≡ past_slot policy.max_carry_ms stamp
            (admissible_spots h)
            (select_spot stamp (admissible_spots h))
    same = slot-of-selection policy current wall mono h stamp reached

    in_history :
        (e : PriceEvent)
        → select_spot stamp (admissible_spots h) ≡ some e
        → Reaches stamp e
          × All
              (λ y.
                is_admissible_spot y ≡ true
                → Reaches stamp y.1
                → y.1.source_timestamp_ms ≤ e.source_timestamp_ms)
              h
    in_history = selected-in-history policy current wall mono h stamp reached

    none_in_history :
        select_spot stamp (admissible_spots h) ≡ none
        → All (λ y. is_admissible_spot y ≡ true → ¬ Reaches stamp y.1) h
    none_in_history = none-in-history policy current wall mono h stamp reached

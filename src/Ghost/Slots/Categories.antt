-- ===== src/Ghost/Slots/Categories.antt =====
-- The category of a slot of price_collector/ghost_twap.py that holds a spot event.
use pythonbtccollector.Common.{
  ℕ, ◌+◌, ◌≤◌, ◌<◌, ◌≡◌, ◌↔◌, ◌≢◌, ◌∙◌, ap, true, false, Option, some, List, [], ◌∷◌, arith, All,
  All-imp,
}
use pythonbtccollector.Common.Int.{ℤ, pos_part, neg_part}
use pythonbtccollector.Ghost.Types.{GhostPolicy, PriceEvent, observed, carried, pending}
use pythonbtccollector.Ghost.Engine.{History}
use pythonbtccollector.Ghost.Gap.{is_admissible_spot}
use pythonbtccollector.Ghost.Slots.{
  admissible_spots, past_slot, select_spot, newest_source, is_after, slot_at,
}
use pythonbtccollector.Ghost.Slots.Sorted.{
  Reaches, admissible_spots-IsSorted, of_All-admissible_spots, newest_source-max, newest_source-All,
  All-admissible_spots,
}
use pythonbtccollector.Ghost.Slots.Selection.{
  past_slot-input, past_slot-category, selected-in-history, slot-of-selection,
}

-- An observation of the history that may be used lies before the stamp.
abbrev pub AllBefore : ℤ → History → Type 0
AllBefore stamp h =
    All
      (λ y. is_admissible_spot y ≡ true → y.1.source_timestamp_ms + neg_part stamp < pos_part stamp)
      h

newest_below :
    (P : ℕ → Type 0) (stamp : ℤ) (l : List PriceEvent) (e : PriceEvent)
    → select_spot stamp l ≡ some e
    → All (λ f. P f.source_timestamp_ms) l
    → P (newest_source l)
unfolding select_spot
newest_below P stamp [] e p h = absurd (ground arith)
newest_below P stamp (f ∷ l) e p h = newest_source-All P f l h

at_most : {a b : ℕ} → ¬ (a < b) → b ≤ a
at_most h = omega arith

newest-AllBefore :
    (stamp : ℤ) (h : History) (e : PriceEvent)
    → select_spot stamp (admissible_spots h) ≡ some e
    → (newest_source (admissible_spots h) + neg_part stamp < pos_part stamp) ↔ AllBefore stamp h
newest-AllBefore stamp h e p = (
  λ below.
      of_All-admissible_spots (λ f. f.source_timestamp_ms + neg_part stamp < pos_part stamp) h
        (All-imp (λ f. f.source_timestamp_ms ≤ newest_source (admissible_spots h)) _
          (λ f le. omega arith) (admissible_spots h)
          (newest_source-max (admissible_spots h) (admissible_spots-IsSorted h))),
  λ before.
      newest_below (λ n. n + neg_part stamp < pos_part stamp) stamp (admissible_spots h) e p
        (All-admissible_spots (λ f. f.source_timestamp_ms + neg_part stamp < pos_part stamp) h
          before),
)

-- A slot at or before the decision that has an input is observed exactly when the event has the
-- slot's stamp; otherwise it is pending exactly when each admissible spot event of the history lies
-- before the stamp, and carried exactly when one does not.
pub slot_category :
    (policy : GhostPolicy) (current : Option PriceEvent) (wall mono : ℕ) (h : History) (stamp : ℤ)
    (e : PriceEvent)
    → is_after stamp wall ≡ false
    → (slot_at policy current wall mono (admissible_spots h) stamp).input ≡ some e
    → let c = (slot_at policy current wall mono (admissible_spots h) stamp).category in
      ((c ≡ observed) ↔ (e.source_timestamp_ms ≡ pos_part stamp))
      × ((c ≡ pending) ↔ (e.source_timestamp_ms ≢ pos_part stamp) × AllBefore stamp h)
      × ((c ≡ carried) ↔ (e.source_timestamp_ms ≢ pos_part stamp) × (¬ AllBefore stamp h))
slot_category policy current wall mono h stamp e reached p = rw full (
  cases.0,
  ((λ c. ((cases.1.0 c).0, bridge.0 (cases.1.0 c).1)), λ (ne, b). cases.1.1 (ne, bridge.1 b)),
  (
    λ c. ((cases.2.0 c).0, λ b. absurd (omega (arith, (cases.2.0 c).1, bridge.1 b))),
    λ (ne, n). cases.2.1 (ne, at_most (λ below. n (bridge.0 below))),
  ),
)
  where
    spots : List PriceEvent
    spots = admissible_spots h

    same :
        slot_at policy current wall mono spots stamp
        ≡ past_slot policy.max_carry_ms stamp spots (select_spot stamp spots)
    same = slot-of-selection policy current wall mono h stamp reached

    input_of : (past_slot policy.max_carry_ms stamp spots (select_spot stamp spots)).input ≡ some e
    input_of = rw same at p

    chosen : select_spot stamp spots ≡ some e
    chosen =
        (past_slot-input policy.max_carry_ms stamp spots (select_spot stamp spots) e input_of).0

    full :
        slot_at policy current wall mono spots stamp
        ≡ past_slot policy.max_carry_ms stamp spots (some e)
    full = same ∙ ap (past_slot policy.max_carry_ms stamp spots) chosen

    bridge : (newest_source spots + neg_part stamp < pos_part stamp) ↔ AllBefore stamp h
    bridge = newest-AllBefore stamp h e chosen

    reaches : Reaches stamp e
    reaches = (selected-in-history policy current wall mono h stamp reached e chosen).0

    cases :
        let c = (past_slot policy.max_carry_ms stamp spots (some e)).category in
        ((c ≡ observed) ↔ (e.source_timestamp_ms ≡ pos_part stamp))
        × ((c ≡ pending)
            ↔ (e.source_timestamp_ms ≢ pos_part stamp)
              × (newest_source spots + neg_part stamp < pos_part stamp))
        × ((c ≡ carried)
            ↔ (e.source_timestamp_ms ≢ pos_part stamp)
              × (pos_part stamp ≤ newest_source spots + neg_part stamp))
    cases = past_slot-category policy.max_carry_ms stamp spots e reaches (rw full at p)

-- ===== src/Chainlink/Delivery/Order.antt =====
-- Which pending sample the history worker of
-- price_collector/polymarket_chainlink_collector.py takes next.
use pythonbtccollector.Common.{
  ℕ, ◌+◌, ◌≤◌, ◌<◌, ◌≡◌, refl, subst, ◌⊎◌, inl, inr, Bool, true, Option, none, some, [], ◌∷◌, arith,
  All, All-imp, Bool-cases, leb, ◌&&◌, not,
}
use pythonbtccollector.Chainlink.Types.{Sequenced}
use pythonbtccollector.Chainlink.Delivery.{
  Delivery, Pending, newest_second, insert_by_second, sorted_pending, is_settled, first_ready,
  take_ready, next_history_ready,
}

-- An entry of the dictionary.
abbrev pub Holds : ℕ × Sequenced → Pending → Type 0
Holds x [] = ⊥
Holds x (y ∷ l) = (x ≡ y) ⊎ Holds x l

abbrev IsSorted : Pending → Type 0
IsSorted [] = Unit
IsSorted (x ∷ l) = All (λ y. x.0 ≤ y.0) l × IsSorted l

module _ (P : ℕ × Sequenced → Type 0) where
  All-insert_by_second :
      (x : ℕ × Sequenced) (l : Pending) → P x → All P l → All P (insert_by_second x l)
  unfolding insert_by_second
  All-insert_by_second x [] p h = (p, tt)
  All-insert_by_second x (y ∷ l) p h = elim (Bool-cases (leb x.0 y.0)) [
    | inl le ↦ rw le (p, h)
    | inr gt ↦ rw gt (h.0, All-insert_by_second x l p h.1)
  ]

  All-sorted_pending : (l : Pending) → All P l → All P (sorted_pending l)
  unfolding sorted_pending
  All-sorted_pending [] h = tt
  All-sorted_pending (x ∷ l) h =
      All-insert_by_second x (sorted_pending l) h.0 (All-sorted_pending l h.1)

  of_All-insert_by_second :
      (x : ℕ × Sequenced) (l : Pending) → All P (insert_by_second x l) → P x × All P l
  unfolding insert_by_second
  of_All-insert_by_second x [] h = h
  of_All-insert_by_second x (y ∷ l) h = elim (Bool-cases (leb x.0 y.0)) [
    | inl le ↦ rw le at h
    | inr gt ↦
        let k = rw gt at h in let (p, rest) = of_All-insert_by_second x l k.1 in (p, (k.0, rest))
  ]

  of_All-sorted_pending : (l : Pending) → All P (sorted_pending l) → All P l
  unfolding sorted_pending
  of_All-sorted_pending [] h = tt
  of_All-sorted_pending (x ∷ l) h =
      let (p, rest) = of_All-insert_by_second x (sorted_pending l) h in
      (p, of_All-sorted_pending l rest)

insert_by_second-IsSorted :
    (x : ℕ × Sequenced) (l : Pending) → IsSorted l → IsSorted (insert_by_second x l)
unfolding insert_by_second
insert_by_second-IsSorted x [] h = (tt, tt)
insert_by_second-IsSorted x (y ∷ l) h = elim (Bool-cases (leb x.0 y.0)) [
  | inl le ↦ rw le (
    (
      (ground (arith, le)),
      All-imp (λ z. y.0 ≤ z.0) (λ z. x.0 ≤ z.0) (λ z q. ground (arith, le, q)) l h.0,
    ),
    h,
  )
  | inr gt ↦ rw gt (
    All-insert_by_second (λ z. y.0 ≤ z.0) x l (ground (arith, gt)) h.0,
    insert_by_second-IsSorted x l h.1,
  )
]

sorted_pending-IsSorted : (l : Pending) → IsSorted (sorted_pending l)
unfolding sorted_pending
sorted_pending-IsSorted [] = tt
sorted_pending-IsSorted (x ∷ l) =
    insert_by_second-IsSorted x (sorted_pending l) (sorted_pending-IsSorted l)

newest_second-All : (l : Pending) → All (λ y. y.0 ≤ newest_second l) l
newest_second-All [] = tt
newest_second-All (x ∷ l) = (
  omega arith,
  All-imp (λ y. y.0 ≤ newest_second l) (λ y. y.0 ≤ newest_second (x ∷ l)) (λ y q. omega (arith, q))
      l (newest_second-All l),
)

-- All entries are entries.
Holds-self : (l : Pending) → All (λ y. Holds y l) l
Holds-self [] = tt
Holds-self (x ∷ l) =
    (inl refl, All-imp (λ y. Holds y l) (λ y. Holds y (x ∷ l)) (λ y q. inr q) l (Holds-self l))

-- The item that is found, with its second `k`, in a sorted list of entries that all satisfy `P`.
module _ (accepting : Bool) (settle now newest : ℕ) (P : ℕ × Sequenced → Type 0) where
  Found : Pending → Sequenced → Type 0
  Found l item =
      (k : ℕ) × P (k, item)
      × (k ≤ newest)
      × All (λ y. k ≤ y.0) l
      × (accepting ≡ true → (k < newest) ⊎ (item.sample.received_ms + settle ≤ now))

  first_ready-Found :
      (l : Pending) (item : Sequenced)
      → All P l
      → IsSorted l
      → All (λ y. y.0 ≤ newest) l
      → first_ready accepting settle now newest l ≡ some item
      → Found l item
  unfolding Found
  first_ready-Found [] item p sorted le e = absurd (ground (arith, e))
  first_ready-Found ((k, x) ∷ l) item p sorted le e =
      elim (Bool-cases (accepting && not (is_settled settle now newest (k, x)))) [
        | inl skip ↦
            let (j, q, small, least, why) =
              first_ready-Found l item p.1 sorted.1 le.1 (rw skip at e) in
            (j, q, small, (ground (arith, skip, small), least), why)
        | inr take ↦
            subst (Found ((k, x) ∷ l)) (ground (arith, rw take at e)) (
              k,
              p.0,
              le.0,
              (omega arith, sorted.0),
              λ open_state. ground (arith, take, open_state),
            )
      ]

take_ready-taken :
    (inflight : Option Sequenced) (now : ℕ) (s : Delivery) (item : Sequenced)
    → (take_ready inflight now s).0 ≡ some item
    → (inflight ≡ none)
      × (first_ready s.accepting s.history_settle_ms now
            (newest_second s.history_pending)
            (sorted_pending s.history_pending)
          ≡ some item)
      × ((take_ready inflight now s).1.history_inflight ≡ some item)
take_ready-taken (some other) now s item e = absurd (ground (arith, e))
take_ready-taken none now s item e = ground (arith, e)

-- The item that the history worker takes is a pending one, and was taken while none was in flight;
-- it is of the least pending second. While the state accepts samples, either a later second is
-- pending too, or the settle delay has passed since the sample was received. The item is then in
-- flight.
pub history_in_order :
    (now : ℕ) (s : Delivery) {item : Sequenced}
    → (next_history_ready now s).0 ≡ some item
    → (s.history_inflight ≡ none)
      × ((next_history_ready now s).1.history_inflight ≡ some item)
      × ((k : ℕ) × Holds (k, item) s.history_pending
          × All (λ y. k ≤ y.0) s.history_pending
          × (s.accepting ≡ true
              → (k < newest_second s.history_pending)
                ⊎ (item.sample.received_ms + s.history_settle_ms ≤ now)))
unfolding next_history_ready Found
history_in_order now s {item} e =
    let pending = s.history_pending in
    let (idle, first, taken) = take_ready-taken s.history_inflight now s item e in
    let (k, held, small, least, why) =
      first_ready-Found s.accepting s.history_settle_ms now (newest_second pending)
        (λ y. Holds y pending) (sorted_pending pending) item
        (All-sorted_pending (λ y. Holds y pending) pending (Holds-self pending))
        (sorted_pending-IsSorted pending)
        (All-sorted_pending (λ y. y.0 ≤ newest_second pending) pending (newest_second-All pending))
        first in
    (idle, taken, (k, held, of_All-sorted_pending (λ y. k ≤ y.0) pending least, why))

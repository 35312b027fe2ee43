-- ===== src/Ghost/Slots/Sorted.antt =====
-- The sorted spot events of price_collector/ghost_twap.py and the bisection among them.
use pythonbtccollector.Common.{
  ℕ, ◌+◌, ◌≤◌, ◌≡◌, inl, inr, subst, true, none, some, List, [], ◌∷◌, arith, All, All-imp, leb,
  Bool-cases, Option-cases,
}
use pythonbtccollector.Common.Int.{ℤ, pos, leb_ℤ, pos_part, neg_part}
use pythonbtccollector.Ghost.Types.{PriceEvent}
use pythonbtccollector.Ghost.Engine.{History}
use pythonbtccollector.Ghost.Gap.{is_admissible_spot}
use pythonbtccollector.Ghost.Slots.{insert_by_source, admissible_spots, select_spot, newest_source}

-- The source stamp of an event is at most a slot's stamp.
abbrev pub Reaches : ℤ → PriceEvent → Type 0
Reaches stamp e = e.source_timestamp_ms + neg_part stamp ≤ pos_part stamp

abbrev pub IsSorted : List PriceEvent → Type 0
IsSorted [] = Unit
IsSorted (e ∷ l) = All (λ f. e.source_timestamp_ms ≤ f.source_timestamp_ms) l × IsSorted l

module _ (P : PriceEvent → Type 0) where
  All-insert_by_source :
      (e : PriceEvent) (l : List PriceEvent) → P e → All P l → All P (insert_by_source e l)
  unfolding insert_by_source
  All-insert_by_source e [] p h = (p, tt)
  All-insert_by_source e (f ∷ l) p h = ground (arith, All-insert_by_source e l p h.1)

  pub All-admissible_spots :
      (h : History) → All (λ x. is_admissible_spot x ≡ true → P x.1) h → All P (admissible_spots h)
  unfolding admissible_spots
  All-admissible_spots [] a = tt
  All-admissible_spots (x ∷ h) a = elim (Bool-cases (is_admissible_spot x)) [
    | inl e ↦
        rw e (All-insert_by_source x.1 (admissible_spots h) (a.0 e) (All-admissible_spots h a.1))
    | inr e ↦ rw e (All-admissible_spots h a.1)
  ]

  of_All-insert_by_source :
      (e : PriceEvent) (l : List PriceEvent) → All P (insert_by_source e l) → P e × All P l
  unfolding insert_by_source
  of_All-insert_by_source e [] a = (a.0, tt)
  of_All-insert_by_source e (f ∷ l) a =
      elim (Bool-cases (leb e.source_timestamp_ms f.source_timestamp_ms)) [
        | inl t ↦ rw t at a
        | inr t ↦
            let b : P f × All P (insert_by_source e l) = rw t at a in
            let (p, rest) = of_All-insert_by_source e l b.1 in (p, (b.0, rest))
      ]

  pub of_All-admissible_spots :
      (h : History) → All P (admissible_spots h) → All (λ x. is_admissible_spot x ≡ true → P x.1) h
  unfolding admissible_spots
  of_All-admissible_spots [] a = tt
  of_All-admissible_spots (x ∷ h) a = elim (Bool-cases (is_admissible_spot x)) [
    | inl e ↦
        let (p, rest) = of_All-insert_by_source x.1 (admissible_spots h) (rw e at a) in
        (λ _. p, of_All-admissible_spots h rest)
    | inr e ↦ (λ q. absurd (ground arith), of_All-admissible_spots h (rw e at a))
  ]

insert_by_source-IsSorted :
    (e : PriceEvent) (l : List PriceEvent) → IsSorted l → IsSorted (insert_by_source e l)
unfolding insert_by_source
insert_by_source-IsSorted e [] h = (tt, tt)
insert_by_source-IsSorted e (f ∷ l) h =
    elim (Bool-cases (leb e.source_timestamp_ms f.source_timestamp_ms)) [
      | inl t ↦ rw t (
        (
          ground arith,
          All-imp (λ g. f.source_timestamp_ms ≤ g.source_timestamp_ms)
              (λ g. e.source_timestamp_ms ≤ g.source_timestamp_ms) (λ g q. ground arith) l h.0,
        ),
        h,
      )
      | inr t ↦ rw t (
        All-insert_by_source (λ g. f.source_timestamp_ms ≤ g.source_timestamp_ms) e l (ground arith)
            h.0,
        insert_by_source-IsSorted e l h.1,
      )
    ]

pub admissible_spots-IsSorted : (h : History) → IsSorted (admissible_spots h)
unfolding admissible_spots
admissible_spots-IsSorted [] = tt
admissible_spots-IsSorted (x ∷ h) = ground (
  arith,
  admissible_spots-IsSorted h,
  insert_by_source-IsSorted x.1 (admissible_spots h) (admissible_spots-IsSorted h),
)

pub select_spot-none :
    (stamp : ℤ) (l : List PriceEvent)
    → IsSorted l
    → select_spot stamp l ≡ none
    → All (λ f. ¬ Reaches stamp f) l
unfolding select_spot
select_spot-none stamp [] h p = tt
select_spot-none stamp (e ∷ l) h p = elim (Bool-cases (leb_ℤ (pos e.source_timestamp_ms) stamp)) [
  | inl t ↦ absurd (ground arith)
  | inr t ↦ (
    λ r. ground arith,
    All-imp (λ f. e.source_timestamp_ms ≤ f.source_timestamp_ms) (λ f. ¬ Reaches stamp f)
        (λ f q r. ground arith) l h.0,
  )
]

-- What holds of each event holds of the selected one.
pub select_spot-All :
    (P : PriceEvent → Type 0) (stamp : ℤ) (l : List PriceEvent) (e : PriceEvent)
    → All P l
    → select_spot stamp l ≡ some e
    → P e
unfolding select_spot
select_spot-All P stamp [] e h p = absurd (ground arith)
select_spot-All P stamp (f ∷ l) e h p =
    elim (Bool-cases (leb_ℤ (pos f.source_timestamp_ms) stamp)) [
      | inr t ↦ absurd (ground arith)
      | inl t ↦ elim (Option-cases (select_spot stamp l)) [
        | inl q ↦ subst P (ground arith) h.0
        | inr (g, q) ↦ subst P (ground arith) (select_spot-All P stamp l g h.1 q)
      ]
    ]

-- The event reaches the stamp, and no event of the list that does has a later source.
abbrev pub IsLatest : ℤ → List PriceEvent → PriceEvent → Type 0
IsLatest stamp l e =
    Reaches stamp e × All (λ f. Reaches stamp f → f.source_timestamp_ms ≤ e.source_timestamp_ms) l

pub select_spot-IsLatest :
    (stamp : ℤ) (l : List PriceEvent) (e : PriceEvent)
    → IsSorted l
    → select_spot stamp l ≡ some e
    → IsLatest stamp l e
unfolding select_spot
select_spot-IsLatest stamp [] e h p = absurd (ground arith)
select_spot-IsLatest stamp (f ∷ l) e h p =
    elim (Bool-cases (leb_ℤ (pos f.source_timestamp_ms) stamp)) [
      | inr t ↦ absurd (ground arith)
      | inl t ↦ elim (Option-cases (select_spot stamp l)) [
        | inl q ↦ subst (IsLatest stamp (f ∷ l)) {x = f} {y = e} (ground arith) (
          ground arith,
          (
            λ r. omega arith,
            All-imp (λ g. ¬ Reaches stamp g)
                (λ g. Reaches stamp g → g.source_timestamp_ms ≤ f.source_timestamp_ms)
                (λ g n r. absurd (n r)) l (select_spot-none stamp l h.1 q),
          ),
        )
        | inr (g, q) ↦
            let (reached, rest) = select_spot-IsLatest stamp l g h.1 q in
            let above =
              select_spot-All (λ g. f.source_timestamp_ms ≤ g.source_timestamp_ms) stamp l g h.0
                q in
            subst (IsLatest stamp (f ∷ l)) {x = g} {y = e} (ground arith)
              (reached, (λ r. above, rest))
      ]
    ]

-- The newest source of a sorted list bounds the others.
pub newest_source-max :
    (l : List PriceEvent) → IsSorted l → All (λ f. f.source_timestamp_ms ≤ newest_source l) l
unfolding newest_source
newest_source-max [] h = tt
newest_source-max (e ∷ []) h = (omega arith, tt)
newest_source-max (e ∷ f ∷ l) h =
    let rest = newest_source-max (f ∷ l) h.1 in (omega (arith, h.0.0, rest.0), rest)

-- What holds of each event of a list holds of its newest source, if there is one.
pub newest_source-All :
    (P : ℕ → Type 0) (e : PriceEvent) (l : List PriceEvent)
    → All (λ f. P f.source_timestamp_ms) (e ∷ l)
    → P (newest_source (e ∷ l))
unfolding newest_source
newest_source-All P e [] h = h.0
newest_source-All P e (f ∷ l) h = newest_source-All P f l h.1

-- ===== src/Ghost/Snapshot/Deadline.antt =====
-- The deadline of a decision of price_collector/ghost_twap.py.
use pythonbtccollector.Common.{
  ℕ, ◌+◌, ◌*◌, ◌≤◌, ◌≡◌, ◌≢◌, ◌↔◌, refl, String, not, Option, none, some, List, [], ◌∷◌, ◌++◌,
  arith, All, All-imp,
}
use pythonbtccollector.Common.Int.{ℤ, pos, ◌≤ℤ◌, ≤ℤ_trans, min_ℤ, min_ℤ-le}
use pythonbtccollector.Ghost.Types.{
  ns_per_ms, source_ns, spot, twap, Feed, GhostPolicy, PriceEvent, Reason,
}
use pythonbtccollector.Ghost.Engine.{Engine, current_reasons}
use pythonbtccollector.Ghost.Forecast.{decision_reasons, is_empty, when}
use pythonbtccollector.Ghost.Snapshot.{event_deadlines, least, min_deadline, decide}

least-le : (d : ℤ) (l : List ℤ) → (least d l ≤ℤ d) × All (λ x. least d l ≤ℤ x) l
least-le d [] = (omega arith, tt)
least-le d (x ∷ l) =
    let (at, rest) = least-le (min_ℤ d x) l in
    let (left, right) = min_ℤ-le d x in
    (
      ≤ℤ_trans (least (min_ℤ d x) l) (min_ℤ d x) d at left,
      (≤ℤ_trans (least (min_ℤ d x) l) (min_ℤ d x) x at right, rest),
    )

min_deadline-le : (wall : ℕ) (l : List ℤ) → All (λ x. min_deadline wall l ≤ℤ x) l
min_deadline-le wall [] = tt
min_deadline-le wall (d ∷ l) = least-le d l

-- When no reason stands against a report.
abbrev IsCurrent : GhostPolicy → PriceEvent → ℕ → ℕ → Type 0
IsCurrent policy e wall mono =
    (source_ns e ≤ e.received_wall_ns)
    × (e.received_wall_ns ≤ wall)
    × (e.received_monotonic_ns ≤ mono)
    × (wall ≤ source_ns e + policy.source_max_age_ms * ns_per_ms)
    × (wall ≤ e.received_wall_ns + policy.receipt_max_age_ms * ns_per_ms)
    × (mono ≤ e.received_monotonic_ns + policy.receipt_max_age_ms * ns_per_ms)

IsCurrent-iff :
    (policy : GhostPolicy) (feed : Feed) (e : PriceEvent) (wall mono : ℕ)
    → (current_reasons policy (some e) feed wall mono ≡ none) ↔ IsCurrent policy e wall mono
unfolding current_reasons
IsCurrent-iff policy feed e wall mono = ground arith

after_bounds :
    (policy : GhostPolicy) (e : PriceEvent) (wall mono elapsed : ℕ)
    → IsCurrent policy e wall mono
    → All (λ x. pos (wall + elapsed) ≤ℤ x) (event_deadlines policy wall mono (some e))
    → IsCurrent policy e (wall + elapsed) (mono + elapsed)
after_bounds policy e wall mono elapsed c d = ground arith

-- A report that is current stays so while its three deadlines are ahead.
stays_current :
    (policy : GhostPolicy) (feed : Feed) (o : Option PriceEvent) (wall mono elapsed : ℕ)
    → current_reasons policy o feed wall mono ≡ none
    → All (λ x. pos (wall + elapsed) ≤ℤ x) (event_deadlines policy wall mono o)
    → current_reasons policy o feed (wall + elapsed) (mono + elapsed) ≡ none
stays_current policy feed none wall mono elapsed c d = unfold current_reasons in c
stays_current policy feed (some e) wall mono elapsed c d =
    let now = (IsCurrent-iff policy feed e wall mono).0 c in
    (IsCurrent-iff policy feed e (wall + elapsed) (mono + elapsed)).1
      (after_bounds policy e wall mono elapsed now d)

All-append {ℓ κ} :
    {A : Type ℓ} (P : A → Type κ) (xs ys : List A) → All P (xs ++ ys) → All P xs × All P ys
All-append P [] ys h = (tt, h)
All-append P (x ∷ xs) ys h = let (left, right) = All-append P xs ys h.1 in ((h.0, left), right)

no_reasons :
    (s : Engine) (wall mono : ℕ)
    → decision_reasons s wall mono ≡ []
    → (current_reasons s.policy s.current_spot spot wall mono ≡ none)
      × (current_reasons s.policy s.current_twap twap wall mono ≡ none)
unfolding decision_reasons
no_reasons s wall mono h = ground arith

abbrev deadlines : Engine → ℕ → ℕ → List ℤ
deadlines s wall mono =
    when (not (is_empty (decision_reasons s wall mono))) (pos wall)
    ++ (event_deadlines s.policy wall mono s.current_spot
        ++ event_deadlines s.policy wall mono s.current_twap)

-- The deadline against each part of the list.
deadline_parts :
    (s : Engine) (wall mono : ℕ)
    → let m = min_deadline wall (deadlines s wall mono) in
      All (λ x. m ≤ℤ x) (when (not (is_empty (decision_reasons s wall mono))) (pos wall))
      × All (λ x. m ≤ℤ x) (event_deadlines s.policy wall mono s.current_spot)
      × All (λ x. m ≤ℤ x) (event_deadlines s.policy wall mono s.current_twap)
deadline_parts s wall mono =
    let m = min_deadline wall (deadlines s wall mono) in
    let (own, events) =
      All-append (λ x. m ≤ℤ x) _ _ (min_deadline-le wall (deadlines s wall mono)) in
    let (of_spot, of_twap) = All-append (λ x. m ≤ℤ x) _ _ events in (own, of_spot, of_twap)

own_deadline :
    (reasons : List Reason) (m : ℤ) (wall : ℕ)
    → All (λ x. m ≤ℤ x) (when (not (is_empty reasons)) (pos wall))
    → reasons ≢ []
    → m ≤ℤ pos wall
own_deadline [] m wall h against = absurd (against refl)
own_deadline (r ∷ reasons) m wall h against = h.0

-- A decision with no reasons against it is good until its deadline: at every later pair of clocks,
-- both advanced alike and the wall clock not past the deadline, both of its reports are current. A
-- decision with a reason is good at most until its own wall clock.
pub deadline_keeps_current :
    (id : String) (wall mono elapsed : ℕ) (s : Engine)
    → let d = decide id wall mono s in
      (d.reasons ≡ []
        → pos (wall + elapsed) ≤ℤ d.valid_until_wall_ns
        → (current_reasons s.policy s.current_spot spot (wall + elapsed) (mono + elapsed) ≡ none)
          × (current_reasons s.policy s.current_twap twap (wall + elapsed) (mono + elapsed) ≡ none))
      × (d.reasons ≢ [] → d.valid_until_wall_ns ≤ℤ pos wall)
unfolding decide
deadline_keeps_current id wall mono elapsed s = (
  λ clear ahead.
      let m = min_deadline wall (deadlines s wall mono) in
      let (spot_ok, twap_ok) = no_reasons s wall mono clear in
      let later = λ (x : ℤ) (le : m ≤ℤ x). ≤ℤ_trans (pos (wall + elapsed)) m x ahead le in
      (
        stays_current s.policy spot s.current_spot wall mono elapsed spot_ok
            (All-imp (λ x. m ≤ℤ x) _ later _ (deadline_parts s wall mono).1),
        stays_current s.policy twap s.current_twap wall mono elapsed twap_ok
            (All-imp (λ x. m ≤ℤ x) _ later _ (deadline_parts s wall mono).2),
      ),
  own_deadline (decision_reasons s wall mono) (min_deadline wall (deadlines s wall mono)) wall
      (deadline_parts s wall mono).0,
)

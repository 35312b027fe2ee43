-- ===== src/Health/Hours/Accounts.antt =====
-- The hours of price_collector/ghost_twap_health.py are consecutive, few, and accounted for.
use pythonbtccollector.Common.{
  ℕ, zero, suc, ◌+◌, ◌-◌, ◌*◌, ◌%◌, ◌≤◌, ◌<◌, ◌≡◌, refl, subst, sym, ap, ◌∙◌, List, [], ◌∷◌, ◌++◌,
  length, drop, arith, inl, inr, ◌⊎◌, Bool-cases, ltb, length-append, length-drop,
}
use pythonbtccollector.Health.Hours.{
  Hour, Health, hour_ms, max_hours, hour_of, last_start, next_start, new_hours, stamp_count,
  first_start, fill_hours,
}

-- The starts of the hours follow on one another, the first at the given time.
abbrev pub Consecutive : ℕ → List Hour → Type 0
Consecutive start [] = Unit
Consecutive start (h ∷ hours) = (h.hour_start_ms ≡ start) × Consecutive (start + hour_ms) hours

new_hours-Consecutive :
    (started stamp count : ℕ) → Consecutive stamp (new_hours started stamp count)
unfolding new_hours
new_hours-Consecutive started stamp zero = tt
new_hours-Consecutive started stamp (suc count) =
    (refl, new_hours-Consecutive started (stamp + hour_ms) count)

length-new_hours : (started stamp count : ℕ) → length (new_hours started stamp count) ≡ count
unfolding new_hours
length-new_hours started stamp zero = refl
length-new_hours started stamp (suc count) =
    omega (arith, length-new_hours started (stamp + hour_ms) count)

Consecutive-append :
    (start : ℕ) (xs ys : List Hour)
    → Consecutive start xs
    → Consecutive (start + length xs * hour_ms) ys
    → Consecutive start (xs ++ ys)
Consecutive-append start [] ys h k = subst (λ n. Consecutive n ys) (omega arith) k
Consecutive-append start (x ∷ xs) ys h k = (
  h.0,
  Consecutive-append (start + hour_ms) xs ys h.1 (subst (λ n. Consecutive n ys) (omega arith) k),
)

Consecutive-drop :
    (start n : ℕ) (xs : List Hour)
    → Consecutive start xs
    → Consecutive (start + n * hour_ms) (drop n xs)
Consecutive-drop start zero xs h = subst (λ n. Consecutive n xs) (omega arith) h
Consecutive-drop start (suc n) [] h = tt
Consecutive-drop start (suc n) (x ∷ xs) h =
    subst (λ m. Consecutive m (drop n xs)) (omega arith)
      (Consecutive-drop (start + hour_ms) n xs h.1)

drop-append_self : (xs ys : List Hour) → drop (length xs) (xs ++ ys) ≡ ys
drop-append_self [] ys = refl
drop-append_self (x ∷ xs) ys = drop-append_self xs ys

last_start-Consecutive :
    (start : ℕ) (x : Hour) (xs : List Hour)
    → Consecutive start (x ∷ xs)
    → last_start x.hour_start_ms xs ≡ start + length xs * hour_ms
last_start-Consecutive start x [] h = omega (arith, h.0)
last_start-Consecutive start x (y ∷ xs) h =
    omega (arith, last_start-Consecutive (start + hour_ms) y xs h.1)

-- Either an hour is held, or the next one is that of the call.
next_or_held : (hour : ℕ) (xs : List Hour) → (1 ≤ length xs) ⊎ (next_start hour xs ≡ hour)
next_or_held hour [] = inr refl
next_or_held hour (x ∷ xs) = inl (omega arith)

-- From the hour `base` on, each hour is dropped, evicted or held; those held are at most forty-nine.
pub record IsHeld (base gone : ℕ) (hours : List Hour) : Type 0 where
  pub aligned : base % hour_ms ≡ 0
  pub consecutive : Consecutive (base + gone * hour_ms) hours
  pub few : length hours ≤ max_hours

abbrev pub IsFilled : ℕ → Health → Type 0
IsFilled base s = IsHeld base (s.dropped_hours + s.history_evictions) s.hours

next_start-Consecutive :
    (start hour : ℕ) (xs : List Hour)
    → Consecutive start xs
    → 1 ≤ length xs
    → next_start hour xs ≡ start + length xs * hour_ms
next_start-Consecutive start hour [] h some_hour = absurd (omega (arith, some_hour))
next_start-Consecutive start hour (x ∷ xs) h some_hour =
    omega (arith, last_start-Consecutive start x xs h)

-- No hour is skipped.
fill_near :
    (base now : ℕ) (s : Health)
    → IsFilled base s
    → next_start (hour_of now) s.hours
      ≡ base + (s.dropped_hours + s.history_evictions) * hour_ms + length s.hours * hour_ms
    → hour_of now - 48 * hour_ms ≤ next_start (hour_of now) s.hours
    → IsFilled base (fill_hours now s)
unfolding fill_hours
fill_near base now s v next near =
    let start = base + (s.dropped_hours + s.history_evictions) * hour_ms in
    let hour = hour_of now in
    let first = first_start hour s.hours in
    let count = stamp_count first hour in
    let fresh = new_hours s.started_ms first count in
    let all_hours = Consecutive-append start s.hours fresh v.consecutive (
      subst (λ n. Consecutive n fresh) (omega (arith, next, near))
        (new_hours-Consecutive s.started_ms first count)) in
    record {
      aligned = v.aligned;
      consecutive =
          subst
            (λ n. Consecutive n (drop (length (s.hours ++ fresh) - max_hours) (s.hours ++ fresh)))
            (omega (arith, near))
            (Consecutive-drop start (length (s.hours ++ fresh) - max_hours) (s.hours ++ fresh)
              all_hours);
      few = omega (arith, length-drop (length (s.hours ++ fresh) - max_hours) (s.hours ++ fresh));
    }

-- Hours are skipped, and all that were held are evicted.
fill_far :
    (base now : ℕ) (s : Health)
    → IsFilled base s
    → 1 ≤ length s.hours
    → next_start (hour_of now) s.hours < hour_of now - 48 * hour_ms
    → IsFilled base (fill_hours now s)
unfolding fill_hours
fill_far base now s v some_hour far =
    let start = base + (s.dropped_hours + s.history_evictions) * hour_ms in
    let hour = hour_of now in
    let first = first_start hour s.hours in
    let count = stamp_count first hour in
    let fresh = new_hours s.started_ms first count in
    let next = next_start-Consecutive start hour s.hours v.consecutive some_hour in
    let total = length-append s.hours fresh in
    let size = length-new_hours s.started_ms first count in
    let gone : length (s.hours ++ fresh) - max_hours ≡ length s.hours =
      omega (arith, total, size, far) in
    let kept : drop (length (s.hours ++ fresh) - max_hours) (s.hours ++ fresh) ≡ fresh =
      ap (λ n. drop n (s.hours ++ fresh)) gone ∙ drop-append_self s.hours fresh in
    record {
      aligned = v.aligned;
      consecutive = subst (Consecutive _) (sym kept) (
          subst (λ n. Consecutive n fresh) (omega (arith, gone, next, far, v.aligned))
            (new_hours-Consecutive s.started_ms first count));
      few = omega (arith, length-drop (length (s.hours ++ fresh) - max_hours) (s.hours ++ fresh));
    }

-- A first call starts the count at its hour.
pub fill_first :
    (now : ℕ) (s : Health)
    → s.hours ≡ []
    → s.dropped_hours ≡ 0
    → s.history_evictions ≡ 0
    → IsFilled (hour_of now) (fill_hours now s)
fill_first now s none_yet dropped evicted =
    fill_near (hour_of now) now s
      (record {
        aligned = omega arith;
        consecutive = subst (Consecutive _) (sym none_yet) tt;
        few = rw none_yet (omega arith);
      })
      (rw (none_yet, dropped, evicted) (omega arith)) (rw none_yet (omega arith))

-- A later call goes on from the hours that are held.
pub fill_again :
    (base now : ℕ) (s : Health)
    → IsFilled base s
    → 1 ≤ length s.hours
    → IsFilled base (fill_hours now s)
fill_again base now s v some_hour =
    elim (Bool-cases (ltb (next_start (hour_of now) s.hours) (hour_of now - 48 * hour_ms))) [
      | inl far ↦ fill_far base now s v some_hour (ground (arith, far))
      | inr near ↦
          fill_near base now s v
            (next_start-Consecutive _ (hour_of now) s.hours v.consecutive some_hour)
            (ground (arith, near))
    ]

pub fill_some_hour : (now : ℕ) (s : Health) → 1 ≤ length (fill_hours now s).hours
unfolding fill_hours
fill_some_hour now s =
    let hour = hour_of now in
    let first = first_start hour s.hours in
    let count = stamp_count first hour in
    let fresh = new_hours s.started_ms first count in
    omega (
      arith,
      length-drop (length (s.hours ++ fresh) - max_hours) (s.hours ++ fresh),
      length-append s.hours fresh,
      length-new_hours s.started_ms first count,
      next_or_held hour s.hours,
    )

-- ===== src/Cohort/Timing/Intervals.antt =====
-- The bounds of `age_growth_interval` and `effective_interval`.
use books_of_time.Base.{
  ℕ, ◌+◌, ◌≤◌, ◌≡◌, refl, ap, inl, inr, Option, some, Bool-cases, if◌then◌else◌, any, arith, ok,
}
use books_of_time.Base.Int.{ℤ, pos, pos_part, sub_ℕ, min_ℤ, max_ℤ, ◌≤ℤ◌}
use books_of_time.Base.Time.{aware, minutes}
use books_of_time.Cohort.Types.{CollectionTier, CohortPolicy, at}
use books_of_time.Cohort.Timing.{
  or_zero, interval_for, age_growth_interval, is_activity_window, with_checkpoint, time_in_window,
  local_time, effective_interval,
}

-- The interval grows with the age and shrinks with the growth of the views.
pub interval_for-mono :
    (age age' growth growth' : ℤ)
    → age ≤ℤ age'
    → growth' ≤ℤ growth
    → interval_for age growth ≤ℤ interval_for age' growth'
unfolding interval_for
interval_for-mono age age' growth growth' h k = ground arith

interval_for_bounds :
    (age growth : ℤ)
    → (minutes 1 ≤ℤ interval_for age growth) × (interval_for age growth ≤ℤ minutes 120)
unfolding interval_for
interval_for_bounds age growth = ground arith

-- A later time never gives a shorter interval, and a greater growth of the views in the last hour
-- never a longer one; every interval lies between one minute and two hours.
pub age_growth_interval_mono :
    (a t t' : ℕ) (growth growth' : Option ℤ)
    → t ≤ t'
    → or_zero growth' ≤ℤ or_zero growth
    → (i j : ℤ) × (age_growth_interval (aware a) (aware t) growth ≡ ok i)
      × (age_growth_interval (aware a) (aware t') growth' ≡ ok j)
      × (minutes 1 ≤ℤ i)
      × (i ≤ℤ j)
      × (j ≤ℤ minutes 120)
unfolding age_growth_interval
age_growth_interval_mono a t t' growth growth' h k =
    let age = max_ℤ (sub_ℕ t a) (pos 0) in
    let age' = max_ℤ (sub_ℕ t' a) (pos 0) in
    (
      interval_for age (or_zero growth),
      interval_for age' (or_zero growth'),
      refl,
      refl,
      (interval_for_bounds age (or_zero growth)).0,
      interval_for-mono age age' (or_zero growth) (or_zero growth') (ground arith) k,
      (interval_for_bounds age' (or_zero growth')).1,
    )

-- The ceiling that the tier sets on the interval at an instant.
pub tier_ceiling : CohortPolicy → CollectionTier → ℕ → ℤ
tier_ceiling policy tier t =
    let in_window = any (time_in_window (local_time policy.timezone t)) policy.activity_windows in
    let i = at policy.tier_intervals tier in if in_window then i.active else i.normal

tier_ceiling_nonneg :
    (policy : CohortPolicy) (tier : CollectionTier) (t : ℕ)
    → pos 0 ≤ℤ (at policy.tier_intervals tier).active
    → pos 0 ≤ℤ (at policy.tier_intervals tier).normal
    → pos 0 ≤ℤ tier_ceiling policy tier t
unfolding tier_ceiling
tier_ceiling_nonneg policy tier t h k =
    elim (Bool-cases
      (any (time_in_window (local_time policy.timezone t)) policy.activity_windows)) [
        | inl e ↦ rw e h
        | inr e ↦ rw e k
      ]

min_of_three :
    (g ceiling : ℤ) (t c : ℕ)
    → pos 0 ≤ℤ g
    → pos 0 ≤ℤ ceiling
    → t ≤ c
    → let m = min_ℤ (min_ℤ g ceiling) (max_ℤ (sub_ℕ c t) (pos 0)) in
      (m ≡ pos (pos_part m))
      × (t + pos_part m ≤ c)
      × (pos (pos_part m) ≤ℤ ceiling)
      × (pos (pos_part m) ≤ℤ g)
min_of_three g ceiling t c h k l = ground arith

-- The interval in effect is neither negative nor above the ceiling of the tier, two hours, or the
-- time up to a checkpoint that is still ahead: a checkpoint is never slept through.
pub effective_interval_bounds :
    (a t c : ℕ) (tier : CollectionTier) (policy : CohortPolicy) (growth : Option ℤ)
    → pos 0 ≤ℤ (at policy.tier_intervals tier).active
    → pos 0 ≤ℤ (at policy.tier_intervals tier).normal
    → t ≤ c
    → (i : ℕ) × (effective_interval (aware a) (aware t) tier policy growth (some (aware c))
        ≡ ok (pos i))
      × (t + i ≤ c)
      × (pos i ≤ℤ tier_ceiling policy tier t)
      × (pos i ≤ℤ minutes 120)
unfolding effective_interval age_growth_interval is_activity_window with_checkpoint tier_ceiling
effective_interval_bounds a t c tier policy growth h k l =
    let g = interval_for (max_ℤ (sub_ℕ t a) (pos 0)) (or_zero growth) in
    let (low, high) = interval_for_bounds (max_ℤ (sub_ℕ t a) (pos 0)) (or_zero growth) in
    let ceiling = tier_ceiling policy tier t in
    let m = min_ℤ (min_ℤ g ceiling) (max_ℤ (sub_ℕ c t) (pos 0)) in
    let (whole, ahead, below, short) =
      min_of_three g ceiling t c (omega arith) (tier_ceiling_nonneg policy tier t h k) l in
    (pos_part m, ap ok whole, ahead, omega arith, omega arith)

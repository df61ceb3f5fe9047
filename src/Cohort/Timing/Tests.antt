-- ===== src/Cohort/Timing/Tests.antt =====
-- Times under the default policy, and the theorems at concrete inputs.
use books_of_time.Base.{
  ℕ, ◌+◌, ◌-◌, ◌*◌, ◌%◌, ◌≤◌, ◌<◌, ◌≡◌, ◌↔◌, ◌⊎◌, refl, true, none, some, arith, ok, err,
}
use books_of_time.Base.Int.{pos, ◌≤ℤ◌}
use books_of_time.Base.Time.{naive, aware, minute, minutes, hour, day}
use books_of_time.Cohort.Types.{CollectionTier, ActivityWindow}
use books_of_time.Cohort.Samples.{default_policy}
use books_of_time.Cohort.Timing.{
  time_in_window, effective_interval, next_aligned_slot, not_aware, interval_not_positive,
}
use books_of_time.Cohort.Timing.Slots.{next_aligned_slot-lt}
use books_of_time.Cohort.Timing.Intervals.{tier_ceiling, effective_interval_bounds}
use books_of_time.Cohort.Timing.Windows.{time_in_window_iff}

slots :
    (next_aligned_slot (aware 100) (aware 250) (pos 50) ≡ ok (aware 300))
    × (next_aligned_slot (aware 100) (aware 99) (pos 50) ≡ ok (aware 100))
    × (next_aligned_slot (aware 100) (naive 250) (pos 0) ≡ err not_aware)
    × (next_aligned_slot (aware 100) (aware 250) (pos 0) ≡ err interval_not_positive)
unfolding next_aligned_slot
slots = (refl, refl, refl, refl)

next_aligned_slot-lt_example :
    (r k : ℕ) × (next_aligned_slot (aware 100) (aware 250) (pos 50) ≡ ok (aware r))
    × (r ≡ 100 + 50 * k)
    × (250 < r)
    × ((r ≡ 100) ⊎ (r ≤ 250 + 50))
next_aligned_slot-lt_example = next_aligned_slot-lt 100 250 50 (omega arith)

effective_interval_bounds_example :
    (i : ℕ) × (effective_interval
        (aware 0)
        (aware hour)
        CollectionTier.s
        default_policy
        none
        (some (aware (hour + 7)))
      ≡ ok (pos i))
    × (hour + i ≤ hour + 7)
    × (pos i ≤ℤ tier_ceiling default_policy CollectionTier.s hour)
    × (pos i ≤ℤ minutes 120)
effective_interval_bounds_example =
    effective_interval_bounds 0 hour (hour + 7) CollectionTier.s default_policy none (omega arith)
      (omega arith) (omega arith)

-- The default window of the night, 21:30 to 00:30.
abbrev night : ActivityWindow
night = record { name = "night"; start = 1290; end = 30 }

time_in_window_iff_example : (time_in_window hour night ≡ true) ↔ (
    (hour + day - night.start * minute) % day
    < (night.end * minute + day - night.start * minute) % day)
time_in_window_iff_example =
    time_in_window_iff hour night (omega arith) (omega arith) (omega arith) (omega arith)

-- ===== src/Cohort/Timing.antt =====
-- The times of domain/cohort_policy.py: `is_activity_window`, `age_growth_interval`,
-- `effective_interval`, `next_aligned_slot` and `checkpoint_times`.
pub mod Slots
pub mod Intervals
pub mod Windows
mod Tests
use books_of_time.Base.{
  ℕ, ◌+◌, ◌-◌, ◌*◌, ◌/◌, ◌%◌, Bool, ◌&&◌, ◌||◌, Option, none, some, List, map, any, ltb, leb,
  if◌then◌else◌, Result, ok, err, ◌>>=◌, ◌>>◌, raise_if,
}
use books_of_time.Base.Int.{ℤ, pos, pos_part, sub_ℕ, ltb_ℤ, leb_ℤ, max_ℤ, min_ℤ}
use books_of_time.Base.Time.{Datetime, naive, aware, minute, minutes, hours, hour, day}
use books_of_time.Cohort.Types.{
  CollectionTier, TierInterval, ActivityWindow, Zone, CohortPolicy, at,
}

-- The ValueErrors of these functions.
pub data TimeError : Type 0 where
  not_aware interval_not_positive : TimeError

-- `_require_aware`; the instant is what the callers go on with.
abbrev pub require_aware : Datetime → Result TimeError ℕ
require_aware (naive t) = err not_aware
require_aware (aware t) = ok t

-- `_time_in_window`, on times of the day in microseconds.
pub time_in_window : ℕ → ActivityWindow → Bool
time_in_window value window =
    let start = window.start * minute in
    let end = window.end * minute in
    if ltb start end then leb start value && ltb value end else leb start value || ltb value end

-- `now.astimezone(timezone).time()`
abbrev pub local_time : Zone → ℕ → ℕ
local_time zone t = (t + zone.offset t) % day

pub is_activity_window : Datetime → CohortPolicy → Result TimeError Bool
unfolding time_in_window
is_activity_window now policy = do
  t ← require_aware now
  let local = local_time policy.timezone t
  ok (any (time_in_window local) policy.activity_windows)

-- `value or 0`
abbrev pub or_zero : Option ℤ → ℤ
or_zero none = pos 0
or_zero (some n) = n

-- What follows the checks in `age_growth_interval`, on the age and the growth.
pub interval_for : ℤ → ℤ → ℤ
interval_for age growth =
    if ltb_ℤ age (minutes 30)
    then minutes 1
    else if ltb_ℤ age (hours 6)
    then minutes 5
    else if ltb_ℤ (pos 30_000) growth
    then minutes 5
    else if ltb_ℤ (pos 6_000) growth
    then minutes 15
    else if ltb_ℤ (pos 1_200) growth
    then minutes 30
    else minutes 120

pub age_growth_interval : Datetime → Datetime → Option ℤ → Result TimeError ℤ
unfolding interval_for
age_growth_interval anchor now growth = do
  a ← require_aware anchor
  t ← require_aware now
  ok (interval_for (max_ℤ (sub_ℕ t a) (pos 0)) (or_zero growth))

-- `min(candidates)`, with the candidate of the next checkpoint where there is one.
pub with_checkpoint : ℤ → ℕ → Option Datetime → Result TimeError ℤ
with_checkpoint interval now none = ok interval
with_checkpoint interval now (some at) = do
  c ← require_aware at
  ok (min_ℤ interval (max_ℤ (sub_ℕ c now) (pos 0)))

pub effective_interval :
    (anchor now : Datetime) (tier : CollectionTier)
    → CohortPolicy
    → (recent_view_growth_last_hour : Option ℤ) → (next_checkpoint_at : Option Datetime)
    → Result TimeError ℤ
unfolding age_growth_interval is_activity_window with_checkpoint
effective_interval anchor now tier policy growth next_checkpoint_at = do
  age_interval ← age_growth_interval anchor now growth
  in_window ← is_activity_window now policy
  let tier_interval = at policy.tier_intervals tier
  let ceiling = if in_window then tier_interval.active else tier_interval.normal
  t ← require_aware now
  with_checkpoint (min_ℤ age_interval ceiling) t next_checkpoint_at

-- The slot behind `now`, for a positive interval.
abbrev pub slot_after : (anchor now interval : ℕ) → ℕ
slot_after anchor now interval = anchor + interval * ((now - anchor) / interval + 1)

pub next_aligned_slot : Datetime → Datetime → ℤ → Result TimeError Datetime
next_aligned_slot anchor now interval = do
  a ← require_aware anchor
  t ← require_aware now
  raise_if (leb_ℤ interval (pos 0)) interval_not_positive
  ok (if ltb t a then anchor else aware (slot_after a t (pos_part interval)))

pub checkpoint_times : Datetime → CohortPolicy → Result TimeError (List (ℕ × Datetime))
checkpoint_times anchor policy = do
  a ← require_aware anchor
  ok (map (λ h. (h, aware (a + h * hour))) policy.checkpoint_hours)

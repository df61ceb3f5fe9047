-- ===== src/Cohort/Timing/Windows.antt =====
-- A window of the day as an arc of the clock: what `_time_in_window` tests.
use books_of_time.Base.{ℕ, ◌+◌, ◌-◌, ◌*◌, ◌%◌, ◌<◌, ◌≡◌, ◌≢◌, ◌↔◌, true, arith}
use books_of_time.Base.Time.{minute, day}
use books_of_time.Cohort.Types.{ActivityWindow}
use books_of_time.Cohort.Timing.{time_in_window}

-- For a window with two different ends, and across midnight too, a time of the day lies in the
-- window exactly when the way round the clock from the start to the time is shorter than the way
-- from the start to the end.
pub time_in_window_iff :
    (value : ℕ) (window : ActivityWindow)
    → value < day
    → window.start < 1440
    → window.end < 1440
    → window.start ≢ window.end
    → (time_in_window value window ≡ true) ↔ (
        (value + day - window.start * minute) % day
        < (window.end * minute + day - window.start * minute) % day)
unfolding time_in_window
time_in_window_iff value window v s e ne = (ground arith, ground arith)

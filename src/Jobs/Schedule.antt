-- ===== src/Jobs/Schedule.antt =====
-- When a job runs next.

use books_of_time.Base.{
  ℕ, ◌+◌, ◌-◌, ◌*◌, ◌/◌, ◌≤◌, ◌<◌, ◌≡◌, refl, ◌⊎◌, inl, inr, leb, Bool-cases, arith,
}
use books_of_time.Base.Int.{ℤ, pos, negsuc}
use books_of_time.Base.Time.{second}
use books_of_time.Jobs.Rows.{ScheduledJob, JobTable, Session}
use books_of_time.Jobs.{at_least_one, next_run, succeeded, mark_succeeded}

at_least_one_pos : (z : ℤ) → 0 < at_least_one z
unfolding at_least_one
at_least_one_pos (pos n) = ground arith
at_least_one_pos (negsuc n) = omega arith

-- What is missed is skipped: with n of the interval i between the slots.
caught_up :
    (n i t : ℕ)
    → 0 < i
    → n + i ≤ t
    → (n + i + i * ((t - (n + i)) / i + 1) ≡ n + i * ((t - (n + i)) / i + 2))
      × (t < n + i + i * ((t - (n + i)) / i + 1))
      × (n + i + i * ((t - (n + i)) / i + 1) ≤ t + i)
caught_up n i t p h = (grind arith, grind arith, grind arith)

-- After a success the job runs next on a later slot of its own schedule, after now, and with no
-- more than one interval to wait behind now, or behind the slot it ran on.
pub mark_succeeded-next_run :
    (s : Session) (job : ScheduledJob) (now : ℕ) (t : JobTable)
    → (k : ℕ) × (0 < k)
      × ((mark_succeeded s job now t).0.next_run_at
          ≡ job.next_run_at + at_least_one job.schedule_seconds * second * k)
      × (now < (mark_succeeded s job now t).0.next_run_at)
      × (((mark_succeeded s job now t).0.next_run_at
            ≤ now + at_least_one job.schedule_seconds * second)
          ⊎ (k ≡ 1))
unfolding mark_succeeded succeeded next_run
mark_succeeded-next_run s job now t =
    let i = at_least_one job.schedule_seconds * second in
    let p : 0 < i = omega (arith, at_least_one_pos job.schedule_seconds) in
    elim (Bool-cases (leb (job.next_run_at + i) now)) [
      | inl e ↦
          let late : job.next_run_at + i ≤ now = ground arith in
          let (a, b, c) = caught_up job.next_run_at i now p late in
          ((now - (job.next_run_at + i)) / i + 2, omega arith, rw e a, rw e b, inl (rw e c))
      | inr e ↦ (1, omega arith, ground arith, ground arith, inr refl)
    ]

caught_up_least :
    (n i t k : ℕ)
    → 0 < i
    → n + i ≤ t
    → t < n + i * k
    → n + i + i * ((t - (n + i)) / i + 1) ≤ n + i * k
caught_up_least n i t k p h l = let below : (t - (n + i)) / i + 1 < k = grind arith in grind arith

-- A success skips no slot that is still ahead: every later slot of the job that lies after now is
-- the next one or comes behind it.
pub mark_succeeded_least :
    (s : Session) (job : ScheduledJob) (now : ℕ) (t : JobTable) (k : ℕ)
    → 0 < k
    → now < job.next_run_at + at_least_one job.schedule_seconds * second * k
    → (mark_succeeded s job now t).0.next_run_at
      ≤ job.next_run_at + at_least_one job.schedule_seconds * second * k
unfolding mark_succeeded succeeded next_run
mark_succeeded_least s job now t k p l =
    let i = at_least_one job.schedule_seconds * second in
    let q : 0 < i = omega (arith, at_least_one_pos job.schedule_seconds) in
    elim (Bool-cases (leb (job.next_run_at + i) now)) [
      | inl e ↦
          let late : job.next_run_at + i ≤ now = ground arith in
          rw e (caught_up_least job.next_run_at i now k q late l)
      | inr e ↦ rw e (grind arith)
    ]

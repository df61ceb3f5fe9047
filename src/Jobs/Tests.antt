-- ===== src/Jobs/Tests.antt =====
-- Jobs with concrete schedules.
use mathlib.Core.List.Memᴰ
use books_of_time.Base.{
  ℕ, ◌+◌, ◌*◌, ◌≤◌, ◌<◌, ◌≡◌, ◌≢◌, refl, ◌⊎◌, true, false, none, some, [], ◌∷◌, arith, ok, err,
}
use books_of_time.Base.Int.{pos, negsuc, ◌<ℤ◌}
use books_of_time.Base.Rows.{pick}
use books_of_time.Base.Time.{second}
use books_of_time.Jobs.Rows.{ScheduledJob, JobTable, Session, uid_discovery, set_rows}
use books_of_time.Jobs.{
  at_least_one, JobRequest, ensure, redefined, lease_due, leased_job, PyError, mark_succeeded,
  mark_failed, integrity_error, insert_job, new_job, is_due_job, goes_first, runs_earlier,
  succeeded, next_run, failed,
}
use books_of_time.Jobs.Lease.{lease_due-goes_first}
use books_of_time.Jobs.Exclusive.{stop, fails, lease_due_exclusive, mark_failed-lease_due}
use books_of_time.Jobs.Schedule.{mark_succeeded-next_run}
use books_of_time.Jobs.Ensure.{IsUniqueKey}

abbrev alone : Session
alone = record { clock = 500; uncommitted = λ r. false; locked = λ r. false }

-- A session that another one's uncommitted rows hide everything from.
abbrev blind : Session
blind = record { clock = 500; uncommitted = λ r. true; locked = λ r. false }

abbrev job : ScheduledJob
job = record {
  id = 1;
  job_key = "discovery";
  job_kind = uid_discovery;
  schedule_seconds = pos 60;
  priority = pos 3;
  payload = "{}";
  enabled = true;
  next_run_at = 10;
  lease_owner = none;
  lease_until = none;
  last_started_at = none;
  last_succeeded_at = none;
  last_failed_at = none;
  consecutive_failures = 2;
  last_error_type = none;
  last_error_message = none;
  created_at = 1;
  updated_at = 1;
}

abbrev other : ScheduledJob
other = record job { id = 2; job_key = "sweep"; priority = negsuc 0 }

abbrev table : JobTable
table = record { rows = other ∷ job ∷ []; next_id = 3 }

abbrev request : JobRequest
request = record {
  job_key = "discovery";
  job_kind = uid_discovery;
  schedule_seconds = pos 0;
  priority = pos 7;
  payload = "[]";
  next_run_at = 99;
  enabled = false;
}

abbrev failure : PyError
failure = record { type_name = "ValueError"; message = "no" }

-- A job whose insert is not committed is not found, and its key is refused.
refused : ensure blind request table ≡ err integrity_error
unfolding ensure insert_job new_job at_least_one
refused = refl

unique : IsUniqueKey table.rows
unique = (refl, (refl, tt))

-- The jobs that a lease at instant 20 gives, by the table it leaves.
abbrev first_lease : JobTable
first_lease = (lease_due alone "worker-a" 20 (pos 30) table).1

lease_due-goes_first_example :
    (given : ScheduledJob) × (t' : JobTable) × (lease_due alone "worker-a" 20 (pos 30) table
      ≡ (some given, t'))
    × (given.lease_owner ≡ some "worker-a")
    × (given.lease_until ≡ some (20 + at_least_one (pos 30) * second))
    × (given.last_started_at ≡ some 20)
    × ((job.priority <ℤ given.priority)
        ⊎ ((job.priority ≡ given.priority) × (given.next_run_at ≤ job.next_run_at)))
lease_due-goes_first_example =
    lease_due-goes_first alone "worker-a" 20 (pos 30) table job (Memᴰ.tail (Memᴰ.head refl)) refl
      (omega arith) refl refl refl

-- The other job fails meanwhile.
abbrev meanwhile : JobTable
meanwhile = (mark_failed alone other 30 (pos 1) failure first_lease).1

leased_twice :
    (lease_due alone "worker-a" 20 (pos 30) table
      ≡ (some (leased_job alone "worker-a" 20 (pos 30) job), first_lease))
    × (lease_due alone "worker-b" 2_000_000 (pos 30) meanwhile ≡ (
      some (
          leased_job alone "worker-b" 2_000_000
            (pos 30)
            (failed alone 30 (pos 1) failure other other)),
      (lease_due alone "worker-b" 2_000_000 (pos 30) meanwhile).1,
    ))
unfolding mark_failed failed lease_due is_due_job goes_first runs_earlier leased_job at_least_one
    pick set_rows
leased_twice = (refl, refl)

one_not_two : job.id ≢ other.id
one_not_two h = absurd (omega (arith, h))

lease_due_exclusive_example : job.id ≢ other.id
unfolding leased_job at_least_one failed
lease_due_exclusive_example =
    lease_due_exclusive alone alone "worker-a" "worker-b" 20 2_000_000 (pos 30) (pos 30) table
      leased_twice.0 (omega arith)
      (fails alone other 30 (pos 1) failure (stop first_lease) one_not_two) (omega arith)
      leased_twice.1

abbrev finished : JobTable
finished = (mark_succeeded alone job 200_000_000 table).1

after_success : lease_due alone "worker-b" 210_000_000 (pos 30) finished ≡ (
  some (leased_job alone "worker-b" 210_000_000 (pos 30) other),
  (lease_due alone "worker-b" 210_000_000 (pos 30) finished).1,
)
unfolding mark_succeeded succeeded next_run lease_due is_due_job goes_first runs_earlier leased_job
    at_least_one pick set_rows
after_success = refl

success_next : (mark_succeeded alone job 200_000_000 table).0.next_run_at ≡ 240_000_010
unfolding mark_succeeded succeeded next_run at_least_one
success_next = refl

abbrev broken : JobTable
broken = (mark_failed alone job 200 (negsuc 4) failure table).1

after_failure : lease_due alone "worker-b" 300 (pos 30) broken ≡ (
  some (leased_job alone "worker-b" 300 (pos 30) other),
  (lease_due alone "worker-b" 300 (pos 30) broken).1,
)
unfolding mark_failed failed lease_due is_due_job goes_first runs_earlier leased_job at_least_one
    pick set_rows
after_failure = refl

mark_failed-lease_due_example : job.id ≢ other.id
unfolding leased_job at_least_one
mark_failed-lease_due_example =
    mark_failed-lease_due alone alone "worker-b" 200 300 (negsuc 4) (pos 30) failure job table
      (omega arith) (stop broken) (omega arith) after_failure

mark_succeeded-next_run_example :
    (k : ℕ) × (0 < k)
    × ((mark_succeeded alone job 200_000_000 table).0.next_run_at
        ≡ job.next_run_at + at_least_one job.schedule_seconds * second * k)
    × (200_000_000 < (mark_succeeded alone job 200_000_000 table).0.next_run_at)
    × (((mark_succeeded alone job 200_000_000 table).0.next_run_at
          ≤ 200_000_000 + at_least_one job.schedule_seconds * second)
        ⊎ (k ≡ 1))
mark_succeeded-next_run_example = mark_succeeded-next_run alone job 200_000_000 table

abbrev ensured : JobTable
ensured = set_rows job.id (redefined alone request) table

ensures : ensure alone request table ≡ ok (redefined alone request job, ensured)
unfolding ensure redefined at_least_one
ensures = refl

-- ===== src/Jobs.antt =====
-- `ScheduledJobRepository` of db/repositories.py over the table `ScheduledJob` of db/models.py.
pub mod Rows
pub mod Lease
pub mod Schedule
pub mod Ensure
pub mod Exclusive
mod Tests
use books_of_time.Base.{
  ℕ, zero, suc, ◌+◌, ◌-◌, ◌*◌, ◌/◌, Bool, true, false, not, ◌&&◌, ◌||◌, Option, none, some, String,
  List, [], ◌∷◌, ◌++◌, map, filter, any, ltb, leb, ◌==◌, if◌then◌else◌, Result, ok, err,
}
use books_of_time.Base.Int.{ℤ, pos, negsuc, pos_part, neg_part, ltb_ℤ}
use books_of_time.Base.Rows.{pick}
use books_of_time.Base.Text.{str_eq, cut}
use books_of_time.Base.Time.{second}
use books_of_time.Jobs.Rows.{ScheduledJobKind, ScheduledJob, JobTable, Session, first, set_rows}

-- `max(int(seconds), 1)`
pub at_least_one : ℤ → ℕ
at_least_one (pos n) = if ltb n 1 then 1 else n
at_least_one (negsuc n) = 1

-- The arguments of `ensure`.
pub record JobRequest : Type 0 where
  pub job_key : String
  pub job_kind : ScheduledJobKind
  pub schedule_seconds : ℤ
  pub priority : ℤ
  pub payload : String
  pub next_run_at : ℕ
  pub enabled : Bool

pub data JobError : Type 0 where
  integrity_error : JobError

abbrev pub has_key : String → ScheduledJob → Bool
has_key key r = str_eq r.job_key key

-- The row that `ensure` adds.
pub new_job : Session → ℕ → JobRequest → ScheduledJob
new_job s id q = record {
  id = id;
  job_key = q.job_key;
  job_kind = q.job_kind;
  schedule_seconds = pos (at_least_one q.schedule_seconds);
  priority = q.priority;
  payload = q.payload;
  enabled = q.enabled;
  next_run_at = q.next_run_at;
  lease_owner = none;
  lease_until = none;
  last_started_at = none;
  last_succeeded_at = none;
  last_failed_at = none;
  consecutive_failures = 0;
  last_error_type = none;
  last_error_message = none;
  created_at = s.clock;
  updated_at = s.clock;
}

-- What `ensure` writes to a job that is there.
pub redefined : Session → JobRequest → ScheduledJob → ScheduledJob
redefined s q r = record r {
  job_kind = q.job_kind;
  schedule_seconds = pos (at_least_one q.schedule_seconds);
  priority = q.priority;
  payload = q.payload;
  enabled = q.enabled;
  updated_at = s.clock;
}

-- The insert checks the unique job_key against every row.
pub insert_job : ScheduledJob → JobTable → Result JobError JobTable
insert_job job t =
    if any (has_key job.job_key) t.rows
    then err integrity_error
    else ok (record { rows = t.rows ++ job ∷ []; next_id = suc t.next_id })

pub ensure : Session → JobRequest → JobTable → Result JobError (ScheduledJob × JobTable)
ensure s q t = elim (first (filter (λ r. has_key q.job_key r && not (s.uncommitted r)) t.rows)) [
  | none ↦
      let job = new_job s t.next_id q in
      elim (insert_job job t) [ ok t' ↦ ok (job, t') | err e ↦ err e ]
  | some job ↦ ok (redefined s q job, set_rows job.id (redefined s q) t)
]

-- `lease_owner IS NULL OR lease_until IS NULL OR lease_until <= now`
abbrev pub is_free : ℕ → ScheduledJob → Bool
is_free now r = elim (r.lease_owner) [
  | none ↦ true
  | some owner ↦ elim (r.lease_until) [ none ↦ true | some until ↦ leb until now ]
]

-- The WHERE of `lease_due`, and the rows that SKIP LOCKED passes over.
pub is_due_job : Session → ℕ → ScheduledJob → Bool
is_due_job s now r =
    r.enabled && (leb r.next_run_at now && (is_free now r && not (s.uncommitted r || s.locked r)))

-- `next_run_at ASC, id ASC`
pub runs_earlier : ScheduledJob → ScheduledJob → Bool
runs_earlier x y =
    ltb x.next_run_at y.next_run_at || x.next_run_at == y.next_run_at && ltb x.id y.id

-- `priority DESC, next_run_at ASC, id ASC`
pub goes_first : ScheduledJob → ScheduledJob → Bool
goes_first x y =
    ltb_ℤ y.priority x.priority
    || pos_part x.priority == pos_part y.priority
      && neg_part x.priority == neg_part y.priority
      && runs_earlier x y

pub leased_job : Session → String → (now : ℕ) → ℤ → ScheduledJob → ScheduledJob
leased_job s owner now lease_seconds r = record r {
  lease_owner = some owner;
  lease_until = some (now + at_least_one lease_seconds * second);
  last_started_at = some now;
  updated_at = s.clock;
}

pub lease_due :
    Session
    → (lease_owner : String) (now : ℕ) (lease_seconds : ℤ) → JobTable
    → Option ScheduledJob × JobTable
lease_due s owner now lease_seconds t = elim (pick goes_first (filter (is_due_job s now) t.rows)) [
  | none ↦ (none, t)
  | some job ↦ (
    some (leased_job s owner now lease_seconds job),
    set_rows job.id (leased_job s owner now lease_seconds) t,
  )
]

-- The first slot behind the last one that is not missed.
pub next_run : (next_run_at : ℕ) (schedule_seconds : ℤ) (now : ℕ) → ℕ
next_run next_run_at schedule_seconds now =
    let interval = at_least_one schedule_seconds * second in
    let next = next_run_at + interval in
    if leb next now then next + interval * ((now - next) / interval + 1) else next

-- What `mark_succeeded` writes to the row of `job`.
pub succeeded : Session → (now : ℕ) → (job : ScheduledJob) → ScheduledJob → ScheduledJob
succeeded s now job r = record r {
  next_run_at = next_run job.next_run_at job.schedule_seconds now;
  lease_owner = none;
  lease_until = none;
  last_succeeded_at = some now;
  consecutive_failures = 0;
  last_error_type = none;
  last_error_message = none;
  updated_at = s.clock;
}

pub mark_succeeded : Session → ScheduledJob → (now : ℕ) → JobTable → ScheduledJob × JobTable
mark_succeeded s job now t = (succeeded s now job job, set_rows job.id (succeeded s now job) t)

-- An exception: the name of its type and its text.
pub record PyError : Type 0 where
  pub type_name : String
  pub message : String

pub failed :
    Session
    → (now : ℕ) (retry_delay_seconds : ℤ) → PyError
    → (job : ScheduledJob) → ScheduledJob
    → ScheduledJob
failed s now delay error job r = record r {
  next_run_at = now + at_least_one delay * second;
  lease_owner = none;
  lease_until = none;
  last_failed_at = some now;
  consecutive_failures = suc job.consecutive_failures;
  last_error_type = some (cut 120 error.type_name);
  last_error_message = some (cut 2000 error.message);
  updated_at = s.clock;
}

pub mark_failed :
    Session
    → ScheduledJob
    → (now : ℕ) (retry_delay_seconds : ℤ) → PyError
    → JobTable
    → ScheduledJob × JobTable
mark_failed s job now delay error t =
    (failed s now delay error job job, set_rows job.id (failed s now delay error job) t)

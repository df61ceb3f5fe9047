-- ===== src/Jobs/Rows.antt =====
-- The table `ScheduledJob` of db/models.py and what a transaction sees of it.
use books_of_time.Base.{
  ℕ, Bool, Option, none, some, String, List, [], ◌∷◌, map, ◌==◌, if◌then◌else◌,
}
use books_of_time.Base.Int.{ℤ}

pub data ScheduledJobKind : Type 0 where
  uid_discovery : ScheduledJobKind
  video_snapshot_sweep : ScheduledJobKind
  daily_terminal_snapshot : ScheduledJobKind
  account_cookie_refresh : ScheduledJobKind
  operational_alert_evaluation : ScheduledJobKind
  snapshot_cohort_planning : ScheduledJobKind

pub record ScheduledJob : Type 0 where
  pub id : ℕ
  pub job_key : String
  pub job_kind : ScheduledJobKind
  pub schedule_seconds : ℤ
  pub priority : ℤ
  pub payload : String
  pub enabled : Bool
  pub next_run_at : ℕ
  pub lease_owner : Option String
  pub lease_until : Option ℕ
  pub last_started_at : Option ℕ
  pub last_succeeded_at : Option ℕ
  pub last_failed_at : Option ℕ
  pub consecutive_failures : ℕ
  pub last_error_type : Option String
  pub last_error_message : Option String
  pub created_at : ℕ
  pub updated_at : ℕ

-- The table, and the id that the next insert takes.
pub record JobTable : Type 0 where
  pub rows : List ScheduledJob
  pub next_id : ℕ

-- The server's clock, the rows that another transaction has inserted and not yet committed, and
-- those that another transaction has locked.
pub record Session : Type 0 where
  pub clock : ℕ
  pub uncommitted : ScheduledJob → Bool
  pub locked : ScheduledJob → Bool

-- The first row of a result.
abbrev pub first : List ScheduledJob → Option ScheduledJob
first [] = none
first (r ∷ rs) = some r

-- The UPDATE that `flush` sends for one row.
unfoldable pub set_rows : ℕ → (ScheduledJob → ScheduledJob) → JobTable → JobTable
set_rows id f t = record t { rows = map (λ r. if id == r.id then f r else r) t.rows }

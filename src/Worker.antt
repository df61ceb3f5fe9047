-- ===== src/Worker.antt =====
-- `Worker` of worker.py, with `CollectionRunRepository` and `CollectionCoverageRepository` of
-- db/repositories.py and `CoverageDraft` of coverage.py: one task leased, collected and recorded in
-- one transaction.
pub mod Run
pub mod Loop
pub mod Settled
pub mod Refused
mod Tests
use books_of_time.Base.{
  ℕ, zero, suc, ◌+◌, ◌*◌, Bool, true, false, not, ◌&&◌, ◌||◌, Option, none, some, String, List, [],
  ◌∷◌, ◌++◌, map, any, ◌==◌, if◌then◌else◌, Result, ok, err, ◌>>=◌, ◌>>◌,
}
use books_of_time.Base.Int.{ℤ, pos, leb_ℤ}
use books_of_time.Base.Text.{str_eq}
use books_of_time.Base.Time.{second}
use books_of_time.Base.Values.{Value, Entries, int, null, str, empty, entry}
use books_of_time.Queue.Types.{TaskKind, TaskStatus, CollectionTask, TaskTable, Transaction}
use books_of_time.Queue.Lease.{lease_next, recover_expired_leases, is_failed}
use books_of_time.Backoff.{
  BilibiliRequestType, RequestErrorKind, RequestFailure, RequestBackoffState, BackoffTable,
  record_failure, reset_all_success,
}
use books_of_time.Store.{CollectionRun, CollectionCoverageStat, Db, StoreError}
use books_of_time.Frontier.{FrontierState}
use books_of_time.Frontier.Anchors.{IsoText}
use books_of_time.Execution.{mark_task_started}
use books_of_time.Execution.Record.{record_task_succeeded, record_task_failed}

-- `CoverageDraft`
pub record CoverageDraft : Type 0 where
  pub task_kind : TaskKind
  pub target_type : String
  pub target_id : String
  pub pages_requested : ℕ
  pub pages_succeeded : ℕ
  pub items_observed : ℕ
  pub raw_payloads_saved : ℕ
  pub parse_errors : ℕ
  pub request_errors : ℕ
  pub frontier_reached : Option Bool
  pub frontier_missing : Option Bool
  pub truncated : Bool
  pub corrupted : Bool
  pub reason : Option String
  pub extra : Entries

-- `self.reason in {"time_budget", "frontier_missing"}`
abbrev pub is_partial_reason : Option String → Bool
is_partial_reason none = false
is_partial_reason (some reason) = str_eq reason "time_budget" || str_eq reason "frontier_missing"

-- `CoverageDraft.status`
unfoldable pub draft_status : CoverageDraft → String
draft_status draft =
    if draft.corrupted
    then "corrupted"
    else if is_partial_reason draft.reason || draft.truncated
    then "partial"
    else "succeeded"

-- `insert_from_draft`: the row, with the status.
unfoldable pub coverage_stat :
    CollectionTask
    → (run_id : String) → CoverageDraft
    → (status : String) (started_at finished_at : ℕ) → CollectionCoverageStat
coverage_stat task run_id draft status started_at finished_at = record {
  collection_task_id = task.id;
  snapshot_cohort_id = task.snapshot_cohort_id;
  snapshot_cohort_component_id = task.snapshot_cohort_component_id;
  comment_scan_run_id = task.comment_scan_run_id;
  run_id = run_id;
  task_kind = draft.task_kind;
  target_type = draft.target_type;
  target_id = draft.target_id;
  started_at = started_at;
  finished_at = finished_at;
  status = status;
  pages_requested = draft.pages_requested;
  pages_succeeded = draft.pages_succeeded;
  items_observed = draft.items_observed;
  raw_payloads_saved = draft.raw_payloads_saved;
  parse_errors = draft.parse_errors;
  request_errors = draft.request_errors;
  frontier_reached = draft.frontier_reached;
  frontier_missing = draft.frontier_missing;
  truncated = draft.truncated;
  corrupted = draft.corrupted;
  reason = draft.reason;
  extra = draft.extra;
  created_at = finished_at;
  updated_at = finished_at;
}

-- The draft of `insert_failed`.
abbrev pub failed_draft : CollectionTask → (reason : String) → Entries → CoverageDraft
failed_draft task reason extra = record {
  task_kind = task.kind;
  target_type = task.target_type;
  target_id = task.target_id;
  pages_requested = 0;
  pages_succeeded = 0;
  items_observed = 0;
  raw_payloads_saved = 0;
  parse_errors = 0;
  request_errors = 1;
  frontier_reached = none;
  frontier_missing = none;
  truncated = false;
  corrupted = false;
  reason = some reason;
  extra = extra;
}

-- The tables that the worker writes, with those of the backoff.
pub record WorkerDb : Type 0 where
  pub db : Db
  pub backoffs : BackoffTable

-- What a collector does: it returns a draft, or raises a RequestFailure or another exception,
-- whose type's name is given.
pub data Collected : Type 0 where
  drafted : CoverageDraft → Collected
  refused : (type_name : String) → RequestFailure → Collected
  raised : (type_name message : String) → Collected

abbrev pub Collector : Type 0
Collector = CollectionTask → WorkerDb → Collected × WorkerDb

-- The fields of `Worker`, and the rest of what it meets: the committed frontiers, and ISO text.
pub record Worker : Type 0 where
  pub collectors : TaskKind → Option Collector
  pub run_id : String
  pub lease_owner : String
  pub lease_seconds : ℕ
  pub retry_delay_seconds : ℕ
  pub request_backoff_defaults : RequestErrorKind → Option ℕ
  pub request_backoff_max_seconds : ℕ
  pub iso : IsoText
  pub sees : FrontierState → Bool

-- `get_or_create_running`, and the counters of the run.
unfoldable pub get_or_create_running :
    (run_id worker_id : String) (now : ℕ) → List CollectionRun → List CollectionRun
get_or_create_running run_id worker_id now runs =
    if any (λ (r : CollectionRun). str_eq r.run_id run_id) runs
    then runs
    else runs
      ++ record {
        run_id = run_id;
        worker_id = worker_id;
        started_at = now;
        finished_at = none;
        status = "running";
        tasks_started = 0;
        tasks_succeeded = 0;
        tasks_failed = 0;
        extra = empty;
        created_at = now;
        updated_at = now;
      }
        ∷ []

unfoldable pub run_task_started : (now : ℕ) → CollectionRun → CollectionRun
run_task_started now r = record r {
  tasks_started = suc r.tasks_started;
  status = "running";
  finished_at = none;
  updated_at = now;
}

unfoldable pub run_task_succeeded : (now : ℕ) → CollectionRun → CollectionRun
run_task_succeeded now r = record r {
  tasks_succeeded = suc r.tasks_succeeded;
  status = "succeeded";
  finished_at = some now;
  updated_at = now;
}

unfoldable pub run_task_failed : (now : ℕ) → CollectionRun → CollectionRun
run_task_failed now r = record r {
  tasks_failed = suc r.tasks_failed;
  status = "failed";
  finished_at = some now;
  updated_at = now;
}

unfoldable pub update_run :
    (run_id : String) → (CollectionRun → CollectionRun) → List CollectionRun → List CollectionRun
update_run run_id f runs = map (λ r. if str_eq r.run_id run_id then f r else r) runs

-- The flush of the worker's changes to its task.
unfoldable pub update_task : (id : ℕ) → (CollectionTask → CollectionTask) → TaskTable → TaskTable
update_task id f t = record t {
  rows = map (λ (r : CollectionTask). if r.id == id then f r else r) t.rows;
}

-- `task.status`, `lease_owner` and `lease_until` at the end of the task.
unfoldable pub settle : TaskStatus → CollectionTask → CollectionTask
settle status r = record r { status = status; lease_owner = none; lease_until = none }

-- The task after an exception: another try, or the end.
unfoldable pub retry_or_fail : (backoff_until : ℕ) → CollectionTask → CollectionTask
retry_or_fail backoff_until r =
    let tried = record r { retry_count = suc r.retry_count } in
    if leb_ℤ (pos (suc r.retry_count)) r.max_retries
    then record (settle TaskStatus.pending tried) { not_before = backoff_until }
    else settle TaskStatus.failed tried

-- ===== src/Execution/Failure.antt =====
-- `record_task_failed` of db/cohort_repositories.py, of a task whose scan is not one of the newest
-- comments.
use books_of_time.Base.{
  ℕ, Bool, true, false, ◌&&◌, Option, none, some, String, if◌then◌else◌, Result, ok, ◌>>=◌,
}
use books_of_time.Base.Text.{str_eq}
use books_of_time.Base.Time.{aware}
use books_of_time.Base.Values.{Value, str, null, get}
use books_of_time.Cohort.Types.{CohortComponentStatus}
use books_of_time.Queue.Types.{CollectionTask}
use books_of_time.Scan.Types.{CommentScanStatus, CommentScanRun, is_active_scan}
use books_of_time.Scan.{mark_failed}
use books_of_time.Execution.Recompute.{or_else, truthy}
use books_of_time.Execution.{Touched, load_linked, load_linked_scan, failed_extra, finish_component}
use books_of_time.Execution.Component.{sync_component_from_scan, add_coverage}
use books_of_time.Store.{
  SnapshotCohortComponent, CollectionCoverageStat, Db, StoreError, scan, lift,
}

-- A value of `extra` that counts as true, as text: the worker writes texts only.
abbrev pub text_of : Value → Option String
text_of (str text) = truthy (some text)
text_of _ = none

-- `coverage.extra.get("exception_type") or coverage.reason or "collector_error"`
abbrev pub error_type_of : CollectionCoverageStat → Option String
error_type_of coverage =
    or_else (text_of (get coverage.extra "exception_type" null))
      (or_else (truthy coverage.reason) (some "collector_error"))

-- `coverage.extra.get("message") or ""`
abbrev pub error_message_of : CollectionCoverageStat → Option String
error_message_of coverage = or_else (text_of (get coverage.extra "message" null)) (some "")

abbrev pub is_text : Option String → String → Bool
is_text none text = false
is_text (some s) text = str_eq s text

-- CORRUPTED for a parse error, else FAILED.
abbrev pub failed_status_of : CollectionCoverageStat → CommentScanStatus
failed_status_of coverage =
    if is_text coverage.reason "parse_error"
    then CommentScanStatus.corrupted
    else CommentScanStatus.failed

-- The scan of a task that has failed for good ends too.
unfoldable pub exhaust_scan :
    CommentScanRun
    → CollectionCoverageStat
    → (terminal : Bool) (finished_at : ℕ) → Db
    → Result StoreError (CommentScanRun × Db)
exhaust_scan run coverage terminal finished_at d =
    let failed = lift scan (
      mark_failed run.id "retry_exhausted" (aware finished_at) (error_type_of coverage)
        (error_message_of coverage) (failed_status_of coverage) true d.scans) in
    if terminal && is_active_scan run.status
    then (failed >>= λ done. ok (done.0, record d { scans = done.1 }))
    else ok (run, d)

-- The component after a failure of the task, the scan being under way or not.
unfoldable pub failed_from_scan :
    CommentScanRun
    → CollectionCoverageStat
    → (finished_at : ℕ) → SnapshotCohortComponent
    → SnapshotCohortComponent
failed_from_scan run coverage finished_at c =
    let synced = sync_component_from_scan run finished_at c in
    if is_active_scan run.status then record synced { failure_reason = coverage.reason } else synced

unfoldable pub failed_without_scan :
    CollectionCoverageStat
    → (terminal : Bool) (finished_at : ℕ) → SnapshotCohortComponent
    → SnapshotCohortComponent
failed_without_scan coverage terminal finished_at c = record (add_coverage c coverage) {
  failure_reason = coverage.reason;
  status = if terminal then CohortComponentStatus.failed else CohortComponentStatus.running;
  finished_at = if terminal then some finished_at else none;
}

unfoldable pub record_linked_failure :
    CollectionTask
    → CollectionCoverageStat
    → (terminal : Bool) (finished_at : ℕ) → Db
    → Result StoreError Touched
record_linked_failure task coverage terminal finished_at d = do
  linked ← load_linked task d
  elim linked [
    | none ↦ ok (none, d)
    | some (cohort, component) ↦ do
      run ← load_linked_scan task cohort component d
      extra ← failed_extra coverage.reason component.extra
      elim run [
        | some found ↦ do
          exhausted ← exhaust_scan found coverage terminal finished_at d
          finish_component cohort
              (failed_from_scan (exhausted.0) coverage finished_at
                (record component { extra = extra }))
              finished_at (exhausted.1)
        | none ↦
            finish_component cohort
              (failed_without_scan coverage terminal finished_at
                (record component { extra = extra }))
              finished_at d
      ]
  ]

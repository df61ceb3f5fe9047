-- ===== src/Execution/Component.antt =====
-- What the end of a task writes to a component, in db/cohort_repositories.py.
use books_of_time.Base.{
  ℕ, zero, suc, ◌+◌, ◌-◌, ◌/◌, Bool, true, false, Option, none, some, String, leb, if◌then◌else◌,
}
use books_of_time.Base.Int.{ℤ, pos, negsuc}
use books_of_time.Base.Text.{str_eq}
use books_of_time.Base.Time.{second}
use books_of_time.Cohort.Types.{CohortStatus, CohortComponentStatus}
use books_of_time.Scan.Types.{CommentScanStatus, CommentScanRun, is_active_scan}
use books_of_time.Execution.Recompute.{or_else, truthy}
use books_of_time.Store.{SnapshotCohort, SnapshotCohortComponent, CollectionCoverageStat}

unfoldable pub started_component : (now : ℕ) → SnapshotCohortComponent → SnapshotCohortComponent
started_component now c = record c {
  started_at = or_else c.started_at (some now);
  status = CohortComponentStatus.running;
  finished_at = none;
}

unfoldable pub started_cohort : (now : ℕ) → SnapshotCohort → SnapshotCohort
started_cohort now c = record c {
  status = CohortStatus.running;
  started_at = or_else c.started_at (some now);
  finished_at = none;
  updated_at = now;
}

-- `int((started - scheduled).total_seconds())`, which rounds to zero.
abbrev pub whole_seconds : (from until : ℕ) → ℤ
whole_seconds from until =
    if leb from until
    then pos ((until - from) / second)
    else elim ((from - until) / second) [ zero ↦ pos 0 | suc n ↦ negsuc n ]

-- `_add_coverage`
unfoldable pub add_coverage :
    SnapshotCohortComponent → CollectionCoverageStat → SnapshotCohortComponent
add_coverage c coverage = record c {
  requested_pages = c.requested_pages + coverage.pages_requested;
  succeeded_pages = c.succeeded_pages + coverage.pages_succeeded;
  items_observed = c.items_observed + coverage.items_observed;
  raw_payloads_saved = c.raw_payloads_saved + coverage.raw_payloads_saved;
}

-- `scan.status.value`
abbrev pub scan_status_value : CommentScanStatus → String
scan_status_value CommentScanStatus.planned = "planned"
scan_status_value CommentScanStatus.running = "running"
scan_status_value CommentScanStatus.paused = "paused"
scan_status_value CommentScanStatus.complete = "complete"
scan_status_value CommentScanStatus.partial = "partial"
scan_status_value CommentScanStatus.failed = "failed"
scan_status_value CommentScanStatus.corrupted = "corrupted"

-- The status of a component for that of its scan: RUNNING while this is under way, else `status_map`.
abbrev pub component_status : CommentScanStatus → CohortComponentStatus
component_status CommentScanStatus.complete = CohortComponentStatus.complete
component_status CommentScanStatus.partial = CohortComponentStatus.partial
component_status CommentScanStatus.failed = CohortComponentStatus.failed
component_status CommentScanStatus.corrupted = CohortComponentStatus.corrupted
component_status _ = CohortComponentStatus.running

abbrev pub is_complete_scan : CommentScanStatus → Bool
is_complete_scan CommentScanStatus.complete = true
is_complete_scan _ = false

-- `scan.outcome or scan.last_error_type or scan.status.value`
abbrev pub failure_of : CommentScanRun → Option String
failure_of run =
    or_else (truthy run.outcome)
      (or_else (truthy run.last_error_type) (some (scan_status_value run.status)))

-- `_sync_component_from_scan`
unfoldable pub sync_component_from_scan :
    CommentScanRun → (finished_at : ℕ) → SnapshotCohortComponent → SnapshotCohortComponent
sync_component_from_scan run finished_at c = record c {
  requested_pages = run.pages_requested;
  succeeded_pages = run.pages_succeeded;
  items_observed = run.items_observed;
  raw_payloads_saved = run.raw_payloads_saved;
  comment_scan_run_id = some run.id;
  status = component_status run.status;
  finished_at =
      if is_active_scan run.status then none else or_else run.finished_at (some finished_at);
  failure_reason =
      if is_active_scan run.status
      then none
      else if is_complete_scan run.status
      then none
      else failure_of run;
}

-- The end of a task without a scan, by the status of its coverage.
unfoldable pub covered_component :
    CollectionCoverageStat → (finished_at : ℕ) → SnapshotCohortComponent → SnapshotCohortComponent
covered_component coverage finished_at c = record (add_coverage c coverage) {
  status =
      if str_eq coverage.status "corrupted"
      then CohortComponentStatus.corrupted
      else if str_eq coverage.status "partial"
      then CohortComponentStatus.partial
      else CohortComponentStatus.complete;
  failure_reason =
      if str_eq coverage.status "corrupted"
      then or_else (truthy coverage.reason) (some "corrupted")
      else if str_eq coverage.status "partial"
      then or_else (truthy coverage.reason) (some "partial")
      else none;
  finished_at = some finished_at;
}

-- ===== src/Store/Samples.antt =====
-- A cohort with one component, its task, and a scan of the newest comments that has failed.
use books_of_time.Base.{true, false, none, some, [], ◌∷◌}
use books_of_time.Base.Values.{empty}
use books_of_time.Cohort.Types.{CollectionTier, CohortStatus, CohortComponentStatus}
use books_of_time.Queue.Types.{fetch_video_stats, CollectionTask}
use books_of_time.Queue.Samples.{task}
use books_of_time.Scan.Types.{CommentScanMode, CommentScanStatus, CommentScanRun}
use books_of_time.Scan.Samples.{planned_scan}
use books_of_time.Frontier.Samples.{frontiers}
use books_of_time.Store.{SnapshotCohort, SnapshotCohortComponent, CollectionCoverageStat, Db}

abbrev pub cohort : SnapshotCohort
cohort = record {
  id = 1;
  cohort_key = "BV1:routine:0";
  bvid = "BV1";
  scheduled_for = 10;
  reason = "routine";
  age_checkpoint_hours = none;
  desired_tier = CollectionTier.a;
  effective_tier = CollectionTier.a;
  policy_version = "v1";
  deadline = none;
  status = CohortStatus.planned;
  status_reason = none;
  started_at = none;
  finished_at = none;
  expected_component_count = 1;
  completed_component_count = 0;
  extra = empty;
  created_at = 5;
  updated_at = 5;
}

abbrev pub component : SnapshotCohortComponent
component = record {
  id = 5;
  cohort_id = 1;
  component_kind = "video_stats";
  required = true;
  status = CohortComponentStatus.pending;
  scheduled_for = 10;
  deadline = none;
  started_at = none;
  finished_at = none;
  skew_seconds = none;
  planned_pages = 1;
  requested_pages = 0;
  succeeded_pages = 0;
  items_observed = 0;
  raw_payloads_saved = 0;
  comment_scan_run_id = none;
  failure_reason = none;
  extra = empty;
}

abbrev pub cohort_task : CollectionTask
cohort_task = record task { snapshot_cohort_id = some 1; snapshot_cohort_component_id = some 5 }

abbrev pub failed_scan : CommentScanRun
failed_scan = record planned_scan {
  mode = CommentScanMode.incremental;
  status = CommentScanStatus.failed;
  outcome = some "retry_exhausted";
}

abbrev pub waiting : SnapshotCohortComponent
waiting = record component {
  component_kind = "latest_current_head";
  status = CohortComponentStatus.joined_active_task;
  comment_scan_run_id = some 1;
}

abbrev pub db : Db
db = record {
  tasks = record { rows = cohort_task ∷ []; next_id = 2 };
  scans = record { rows = failed_scan ∷ []; next_id = 2 };
  frontiers = frontiers;
  cohorts = cohort ∷ [];
  components = component ∷ [];
  states = [];
  runs = [];
  coverage = [];
}

abbrev pub failure : CollectionCoverageStat
failure = record {
  collection_task_id = 1;
  snapshot_cohort_id = some 1;
  snapshot_cohort_component_id = some 5;
  comment_scan_run_id = none;
  run_id = "run";
  task_kind = fetch_video_stats;
  target_type = "video";
  target_id = "BV1";
  started_at = 60;
  finished_at = 70;
  status = "failed";
  pages_requested = 0;
  pages_succeeded = 0;
  items_observed = 0;
  raw_payloads_saved = 0;
  parse_errors = 0;
  request_errors = 1;
  frontier_reached = none;
  frontier_missing = none;
  truncated = false;
  corrupted = false;
  reason = some "collector_exception";
  extra = empty;
  created_at = 70;
  updated_at = 70;
}

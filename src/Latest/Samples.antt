-- ===== src/Latest/Samples.antt =====
-- A plan for the newest comments of a video, and the tables it meets.
use books_of_time.Base.{none, some, [], ◌∷◌}
use books_of_time.Base.Values.{empty}
use books_of_time.Frontier.Anchors.{anchor_set}
use books_of_time.Frontier.Samples.{anchor, frontier, frontiers}
use books_of_time.Latest.Claim.{LatestTables}
use books_of_time.Latest.Plan.{LatestScanRunPlan}
use books_of_time.Scan.Samples.{planned_scan, no_scans}
use books_of_time.Scan.Types.{CommentScanMode, CommentScanStatus, CommentScanRun}
use books_of_time.Frontier.{FrontierState}
use books_of_time.Store.{Db}
use books_of_time.Store.Samples.{db, component, waiting}

abbrev pub plan : LatestScanRunPlan
plan = record {
  scan_key = "cohort:1:latest_current_head";
  bvid = "BV1";
  snapshot_cohort_id = some 1;
  parent_scan_run_id = none;
  mode = CommentScanMode.baseline_tail;
  policy_version = "v1";
  reason = some "routine";
  start_frontier_rpid = none;
  start_anchor_set = anchor_set [];
  start_cursor = none;
  extra = empty;
}

abbrev pub tables : LatestTables
tables = record { scans = no_scans; frontiers = frontiers }

-- A baseline that runs, which owns the frontier, and a component that waits for it.
abbrev pub baseline : CommentScanRun
baseline = record planned_scan {
  mode = CommentScanMode.baseline_tail;
  status = CommentScanStatus.running;
  start_frontier_rpid = some 9;
  start_anchor_set = anchor ∷ [];
}

abbrev pub owned : FrontierState
owned = record frontier { active_scan_run_id = some 1 }

abbrev pub baseline_db : Db
baseline_db = record db {
  scans = record { rows = baseline ∷ []; next_id = 2 };
  frontiers = record { rows = owned ∷ []; next_id = 2 };
  components = waiting ∷ component ∷ [];
}

-- ===== src/Scan/Samples.antt =====
-- A plan of two pages, and the scan that it gives.
use books_of_time.Base.{some, [], ok_or}
use books_of_time.Base.Int.{pos}
use books_of_time.Base.Values.{empty}
use books_of_time.Scan.Types.{CommentScanMode, CommentScanRun, ScanTable}
use books_of_time.Scan.Transitions.{run_scan, request_page, succeed_page, complete_scan}
use books_of_time.Scan.{HotScanRunPlan, new_hot_scan}

abbrev pub plan : HotScanRunPlan
plan = record {
  scan_key = "cohort:1:hot_core";
  bvid = "BV1";
  snapshot_cohort_id = some 1;
  mode = CommentScanMode.hot_core;
  target_pages = pos 2;
  start_page = pos 1;
  end_page = pos 2;
  policy_version = "v1";
  extra = empty;
}

abbrev pub no_scans : ScanTable
no_scans = record { rows = []; next_id = 1 }

abbrev pub planned_scan : CommentScanRun
planned_scan = new_hot_scan 1 10 plan

abbrev pub running_scan : CommentScanRun
running_scan = ok_or (run_scan 20 (some (pos 7)) planned_scan) planned_scan

abbrev pub requested_scan : CommentScanRun
requested_scan = ok_or (request_page 30 (pos 1) running_scan) planned_scan

abbrev pub succeeded_scan : CommentScanRun
succeeded_scan = ok_or (succeed_page 40 (pos 1) 20 1 requested_scan) planned_scan

abbrev pub complete : CommentScanRun
complete = ok_or (complete_scan 50 "target_reached" succeeded_scan) planned_scan

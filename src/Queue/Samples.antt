-- ===== src/Queue/Samples.antt =====
-- Tasks and tables for the tests.
use books_of_time.Base.{true, false, none, some, [], ◌∷◌}
use books_of_time.Base.Int.{pos}
use books_of_time.Base.Values.{empty}
use books_of_time.Queue.Types.{
  fetch_video_stats, TaskStatus, CollectionTask, TaskTable, Transaction,
}
use books_of_time.Queue.Enqueue.{EnqueueRequest}

-- A transaction at instant 100 that sees every row, and one that sees none.
abbrev pub alone : Transaction
alone = record { clock = 100; unseen = λ r. false }

abbrev pub blind : Transaction
blind = record { clock = 101; unseen = λ r. true }

abbrev pub request : EnqueueRequest
request = record {
  kind = fetch_video_stats;
  target_type = "video";
  target_id = "BV1";
  priority = pos 5;
  payload = empty;
  not_before = 50;
  budget_cost = pos 1;
  max_retries = pos 3;
  idempotency_key = some "stats:BV1";
  snapshot_cohort_id = none;
  snapshot_cohort_component_id = none;
  comment_scan_run_id = none;
  scan_slice_no = none;
  scan_slice_key = none;
}

abbrev pub slice_request : EnqueueRequest
slice_request = record request {
  idempotency_key = none;
  comment_scan_run_id = some 7;
  scan_slice_no = some (pos 0);
  scan_slice_key = some "7:hot_core:0";
}

abbrev pub task : CollectionTask
task = record {
  id = 1;
  kind = fetch_video_stats;
  target_type = "video";
  target_id = "BV1";
  idempotency_key = some "stats:BV1";
  priority = pos 5;
  budget_cost = pos 1;
  status = TaskStatus.pending;
  payload = empty;
  not_before = 50;
  lease_owner = none;
  lease_until = none;
  retry_count = 0;
  max_retries = pos 3;
  snapshot_cohort_id = none;
  snapshot_cohort_component_id = none;
  comment_scan_run_id = none;
  scan_slice_no = none;
  scan_slice_key = none;
  created_at = 10;
  updated_at = 10;
}

abbrev pub slice_task : CollectionTask
slice_task = record task {
  id = 2;
  idempotency_key = none;
  status = TaskStatus.running;
  lease_owner = some "worker-a";
  lease_until = some 90;
  comment_scan_run_id = some 7;
  scan_slice_no = some (pos 0);
  scan_slice_key = some "7:hot_core:0";
}

abbrev pub failed_task : CollectionTask
failed_task = record task { id = 3; status = TaskStatus.failed; retry_count = 4 }

abbrev pub table : TaskTable
table = record { rows = task ∷ slice_task ∷ []; next_id = 3 }

abbrev pub table_with_failed : TaskTable
table_with_failed = record { rows = task ∷ failed_task ∷ []; next_id = 4 }

abbrev pub empty_table : TaskTable
empty_table = record { rows = []; next_id = 1 }

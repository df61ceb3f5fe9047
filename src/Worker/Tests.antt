-- ===== src/Worker/Tests.antt =====
-- A worker whose collector raises, a task that fails for good, and the theorems on them.
use books_of_time.Base.{◌≡◌, refl, none, some, [], any, true, false, ok, err, ok_or}
use books_of_time.Base.Rows.{pick, sort_by}
use books_of_time.Base.Int.{◌+ℤ◌}
use books_of_time.Base.Values.{get, put}
use books_of_time.Cohort.Status.{aggregate_cohort_status, aggregate_required}
use books_of_time.Queue.Types.{CollectionTask}
use books_of_time.Queue.Table.{update_chosen}
use books_of_time.Queue.Samples.{alone}
use books_of_time.Queue.Lease.{
  is_due, leased, lease_next, is_expired, recover_expired_leases, more_urgent,
}
use books_of_time.Frontier.Samples.{iso}
use books_of_time.Execution.{
  load_linked_ids, load_linked_scan, failed_extra, finish_component, mark_task_started,
}
use books_of_time.Execution.Component.{add_coverage, started_component, started_cohort}
use books_of_time.Execution.Recompute.{recompute_cohort, components_of, recomputed}
use books_of_time.Execution.Failure.{failed_without_scan, record_linked_failure}
use books_of_time.Execution.Record.{load_latest_task_scan, record_task_failed}
use books_of_time.Store.{save_cohort, save_component}
use books_of_time.Store.{not_executable}
use books_of_time.Execution.{Touched}
use books_of_time.Worker.Refused.{run_once_refused}
use books_of_time.Store.Samples.{db, cohort_task, failure}
use books_of_time.Worker.{
  WorkerDb, raised, Worker, coverage_stat, get_or_create_running, update_run, update_task, settle,
  retry_or_fail, run_task_started, run_task_failed,
}
use books_of_time.Worker.Run.{
  recovered, start_task, end_failed, finish_task, execute_task, run_once,
}
use books_of_time.Worker.Settled.{is_unsettled, run_once-settled}

abbrev worker : Worker
worker = record {
  collectors = λ kind. some (λ task d. (raised "ValueError" "no", d));
  run_id = "run";
  lease_owner = "worker-a";
  lease_seconds = 120;
  retry_delay_seconds = 300;
  request_backoff_defaults = λ kind. none;
  request_backoff_max_seconds = 21600;
  iso = iso;
  sees = λ r. true;
}

abbrev before : WorkerDb
before = record { db = db; backoffs = [] }

abbrev after : WorkerDb
after = (ok_or (run_once worker alone 100 200 before) (true, before)).1

runs : run_once worker alone 100 200 before ≡ ok (true, after)
unfolding run_once start_task end_failed finish_task execute_task coverage_stat
    get_or_create_running update_run update_task settle retry_or_fail run_task_started
    run_task_failed mark_task_started started_component started_cohort record_task_failed
    load_latest_task_scan record_linked_failure load_linked_ids load_linked_scan failed_extra
    failed_without_scan add_coverage finish_component save_component recompute_cohort components_of
    recomputed save_cohort aggregate_cohort_status aggregate_required sort_by pick get put ◌+ℤ◌
    is_due leased lease_next is_expired recover_expired_leases more_urgent update_chosen
runs = refl

run_once-settled_example :
    (task : CollectionTask) × ((lease_next alone "worker-a" 100 120
        (recovered alone 100 db.tasks)).0
      ≡ some task)
    × (any (is_unsettled task.id) after.db.tasks.rows ≡ false)
run_once-settled_example = run_once-settled worker alone 100 200 before runs

abbrev failed_once : Touched
failed_once = ok_or (record_task_failed iso (λ r. true) cohort_task failure true 70 db) (none, db)

fails : record_task_failed iso (λ r. true) cohort_task failure true 70 db ≡ ok failed_once
unfolding record_task_failed load_latest_task_scan record_linked_failure load_linked_ids
    load_linked_scan failed_extra failed_without_scan add_coverage finish_component save_component
    recompute_cohort components_of recomputed save_cohort aggregate_cohort_status aggregate_required
    sort_by get put ◌+ℤ◌
fails = refl

-- The task is pending again, as after `retry_failed`.
abbrev tried_again : WorkerDb
tried_again = record { db = record (failed_once.1) { tasks = db.tasks }; backoffs = [] }

given_again :
    (lease_next alone "worker-a" 100 120 (recovered alone 100 tried_again.db.tasks)).0
    ≡ some (leased alone "worker-a" 100 120 cohort_task)
unfolding lease_next leased is_due more_urgent recover_expired_leases is_expired update_chosen pick
    sort_by
given_again = refl

run_once_refused_example : run_once worker alone 100 200 tried_again ≡ err not_executable
unfolding leased
run_once_refused_example =
    run_once_refused iso (λ r. true) cohort_task (leased alone "worker-a" 100 120 cohort_task)
      failure 70 1 db worker alone 100 200 tried_again refl refl fails refl refl given_again refl
      refl

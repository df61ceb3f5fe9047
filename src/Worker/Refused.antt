-- ===== src/Worker/Refused.antt =====
-- `run_once` on a task of a cohort whose work has failed for good.
use books_of_time.Base.{ℕ, ◌≡◌, Bool, true, none, some, arith, ok, err}
use books_of_time.Queue.Types.{CollectionTask, Transaction}
use books_of_time.Queue.Lease.{lease_next}
use books_of_time.Frontier.Anchors.{IsoText}
use books_of_time.Frontier.{FrontierState}
use books_of_time.Execution.{Touched}
use books_of_time.Execution.Record.{record_task_failed}
use books_of_time.Execution.Refused.{record_task_failed_refused}
use books_of_time.Store.{CollectionCoverageStat, Db, not_executable}
use books_of_time.Worker.{WorkerDb, Worker, run_task_started, get_or_create_running, update_run}
use books_of_time.Worker.Run.{recovered, start_task, run_once}

-- Once a task of a cohort that runs without a scan has failed for good, a call of `run_once` that
-- leases it again, or another task of its cohort and component, raises, as long as the cohorts and
-- the components are as the failure left them, whatever the tasks, the scans and the frontiers are.
pub run_once_refused :
    (iso : IsoText) (sees : FrontierState → Bool) (task again : CollectionTask)
    (coverage : CollectionCoverageStat) (finished_at cohort_id : ℕ) (d : Db) {out : Touched}
    (w : Worker) (tx : Transaction) (now ended_at : ℕ) (later : WorkerDb)
    → task.comment_scan_run_id ≡ none
    → task.snapshot_cohort_id ≡ some cohort_id
    → record_task_failed iso sees task coverage true finished_at d ≡ ok out
    → later.db.cohorts ≡ out.1.cohorts
    → later.db.components ≡ out.1.components
    → (lease_next tx w.lease_owner now w.lease_seconds (recovered tx now later.db.tasks)).0
      ≡ some again
    → again.snapshot_cohort_id ≡ task.snapshot_cohort_id
    → again.snapshot_cohort_component_id ≡ task.snapshot_cohort_component_id
    → run_once w tx now ended_at later ≡ err not_executable
unfolding run_once start_task
run_once_refused iso sees task again coverage finished_at cohort_id d w tx now ended_at later lone i
      h cohorts components given same_cohort same_component =
    let tasks =
      (lease_next tx w.lease_owner now w.lease_seconds (recovered tx now later.db.tasks)).1 in
    let started = record (later.db) {
      tasks = tasks;
      runs =
          update_run w.run_id (run_task_started now)
            (get_or_create_running w.run_id w.lease_owner now later.db.runs);
    } in
    let refused =
      record_task_failed_refused iso sees task again coverage finished_at now cohort_id d started
        lone i h same_cohort same_component cohorts components in
    ground arith

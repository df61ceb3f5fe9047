-- ===== src/Execution/Record.antt =====
-- The whole of `record_task_succeeded` and `record_task_failed` of db/cohort_repositories.py, with
-- `_terminalize_latest_task_failure`.
use books_of_time.Base.{
  ℕ, Bool, true, false, not, ◌&&◌, ◌||◌, Option, none, some, map, ◌==◌, if◌then◌else◌, Result, ok,
  err, raise_if, ◌>>=◌, ◌>>◌,
}
use books_of_time.Base.Int.{pos}
use books_of_time.Base.Text.{str_eq}
use books_of_time.Base.Time.{aware}
use books_of_time.Base.Values.{Value, int, null, get, put}
use books_of_time.Queue.Types.{CollectionTask, TaskTable}
use books_of_time.Scan.Types.{
  CommentScanRun, is_latest_mode, is_active_scan, frontier_version_conflict,
}
use books_of_time.Scan.Transitions.{first_with_id}
use books_of_time.Scan.{same_id}
use books_of_time.Frontier.Anchors.{IsoText}
use books_of_time.Frontier.{FrontierState, get_or_create, compare_and_swap}
use books_of_time.Latest.{mark_failed}
use books_of_time.Latest.Claim.{same_but_owner}
use books_of_time.Execution.Failure.{
  error_type_of, error_message_of, failed_status_of, record_linked_failure,
}
use books_of_time.Execution.{Touched, load_linked, failed_extra, record_linked_success}
use books_of_time.Execution.Component.{scan_status_value}
use books_of_time.Store.{
  SnapshotCohortComponent, CollectionCoverageStat, Db, StoreError, scan, scan_run_not_found,
  other_video, bad_frontier_version, save_component, lift,
}
use books_of_time.Execution.Consumers.{sync_latest_scan_consumers}

-- `_load_latest_task_scan`
unfoldable pub load_latest_task_scan :
    CollectionTask → Db → Result StoreError (Option CommentScanRun)
load_latest_task_scan task d = elim (task.comment_scan_run_id) [
  | none ↦ ok none
  | some id ↦ elim (first_with_id d.scans.rows id) [
    | none ↦ err scan_run_not_found
    | some run ↦
        if is_latest_mode run.mode
        then raise_if (not (str_eq run.bvid task.target_id)) other_video >> ok (some run)
        else ok none
  ]
]

-- `_task_component`
unfoldable pub task_component :
    CollectionTask → Db → Result StoreError (Option SnapshotCohortComponent)
task_component task d = load_linked task d >>= λ linked.
    ok (elim linked [ none ↦ none | some (cohort, component) ↦ some component ])

-- `task.payload["frontier_version"]`, with its checks.
abbrev pub frontier_version : Value → Result StoreError ℕ
frontier_version (int (pos n)) = ok n
frontier_version _ = err bad_frontier_version

abbrev pub is_owner : FrontierState → (id : ℕ) → Bool
is_owner state id = same_id state.active_scan_run_id (some id)

-- Another scan owns the frontier, or this one at another version.
abbrev pub is_taken : FrontierState → (id version : ℕ) → Bool
is_taken state id version =
    not (same_id state.active_scan_run_id none || is_owner state id)
    || is_owner state id && not (state.version == version)

-- The scan is ended where it is under way.
unfoldable pub end_scan :
    CommentScanRun
    → CollectionCoverageStat
    → (finished_at : ℕ) → Db
    → Result StoreError (CommentScanRun × Db)
end_scan run coverage finished_at d =
    let failed = lift scan (
      mark_failed run.id "retry_exhausted" (aware finished_at) (error_type_of coverage)
        (error_message_of coverage) (failed_status_of coverage) true d.scans) in
    if is_active_scan run.status
    then (failed >>= λ done. ok (done.0, record d { scans = done.1 }))
    else ok (run, d)

-- The payload of the task takes the new version.
unfoldable pub set_version : CollectionTask → (version : ℕ) → TaskTable → TaskTable
set_version task version t = record t {
  rows =
      map
        (λ (r : CollectionTask).
          if r.id == task.id
          then record r { payload = put r.payload "frontier_version" (int (pos version)) }
          else r)
        t.rows;
}

-- The frontier is given up, if the scan owns it.
unfoldable pub release_frontier :
    IsoText
    → CollectionTask
    → FrontierState
    → (version : ℕ) → CommentScanRun
    → CollectionCoverageStat
    → (finished_at : ℕ) → Db
    → Result StoreError Db
release_frontier iso task state version run coverage finished_at d =
    let swapped = lift scan (
      compare_and_swap iso state.id (pos version)
        (record (same_but_owner state none) {
          cursor = none;
          last_scan_at = some (aware finished_at);
          last_scan_status = some (scan_status_value (failed_status_of coverage));
          last_scan_pages = pos run.pages_succeeded;
          last_scan_truncated = true;
        })
        (aware finished_at) d.frontiers) in
    if is_owner state run.id
    then (swapped >>= λ s.
        ok (record d { frontiers = s.1; tasks = set_version task (s.0.version) d.tasks }))
    else ok d

-- The savepoint: a version conflict undoes it.
abbrev pub unless_conflict : Db → Result StoreError Db → Result StoreError Db
unless_conflict d (ok d') = ok d'
unless_conflict d (err (scan frontier_version_conflict)) = ok d
unless_conflict d (err e) = err e

unfoldable pub terminalize_owned :
    IsoText
    → CollectionTask
    → FrontierState
    → (version : ℕ) → CommentScanRun
    → CollectionCoverageStat
    → (finished_at : ℕ) → Db
    → Result StoreError Db
terminalize_owned iso task state version run coverage finished_at d =
    let ended = end_scan run coverage finished_at d >>= λ e.
    release_frontier iso task state version (e.0) coverage finished_at (e.1) in
    if is_taken state run.id version then ok d else unless_conflict d ended

-- `_terminalize_latest_task_failure`; `sees` are the frontiers that its query sees.
unfoldable pub terminalize_latest :
    IsoText
    → (sees : FrontierState → Bool) → CollectionTask
    → CommentScanRun
    → CollectionCoverageStat
    → (finished_at : ℕ) → Db
    → Result StoreError Db
terminalize_latest iso sees task run coverage finished_at d = do
  found ← lift scan (
      get_or_create sees
        (record { target_type = "video"; target_id = run.bvid; frontier_type = "latest_comments" })
        (aware finished_at) d.frontiers)
  version ← frontier_version (get task.payload "frontier_version" null)
  terminalize_owned iso task (found.0) version run coverage finished_at
      (record d { frontiers = found.1 })

-- `record_task_succeeded`
unfoldable pub record_task_succeeded :
    IsoText
    → CollectionTask
    → CollectionCoverageStat
    → (finished_at : ℕ) → Db
    → Result StoreError Touched
record_task_succeeded iso task coverage finished_at d = do
  latest ← load_latest_task_scan task d
  elim latest [
    | none ↦ record_linked_success task coverage finished_at d
    | some run ↦ do
      synced ← sync_latest_scan_consumers iso run.id (aware finished_at) d
      component ← task_component task (synced.1)
      ok (component, synced.1)
  ]

-- The count of failures of the task's component, if it has one.
unfoldable pub count_failure : CollectionTask → CollectionCoverageStat → Db → Result StoreError Db
count_failure task coverage d = task_component task d >>= λ component. elim component [
  | none ↦ ok d
  | some c ↦ do
    extra ← failed_extra coverage.reason c.extra
    ok (save_component (record c { extra = extra }) d)
]

abbrev pub when : Bool → Result StoreError Db → Db → Result StoreError Db
when true call d = call
when false call d = ok d

-- `record_task_failed`
unfoldable pub record_task_failed :
    IsoText
    → (sees : FrontierState → Bool) → CollectionTask
    → CollectionCoverageStat
    → (terminal : Bool) (finished_at : ℕ) → Db
    → Result StoreError Touched
record_task_failed iso sees task coverage terminal finished_at d = do
  latest ← load_latest_task_scan task d
  elim latest [
    | none ↦ record_linked_failure task coverage terminal finished_at d
    | some run ↦ do
      counted ← count_failure task coverage d
      ended ←
          when terminal (terminalize_latest iso sees task run coverage finished_at counted) counted
      synced ← sync_latest_scan_consumers iso run.id (aware finished_at) ended
      component ← task_component task (synced.1)
      ok (component, synced.1)
  ]

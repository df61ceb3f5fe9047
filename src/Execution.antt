-- ===== src/Execution.antt =====
-- `SnapshotCohortExecutionRepository` of db/cohort_repositories.py: what the tasks of a cohort make
-- of it. `Recompute` has the row of the cohort, `Consumers` the components that wait for a scan of
-- the newest comments.
pub mod Refused
pub mod Component
pub mod Record
pub mod Recompute
pub mod Failure
pub mod Chain
pub mod Consumers
pub mod Tasks
mod Tests
pub mod Waiting
pub mod Current
pub mod Payload
use books_of_time.Base.{
  ℕ, zero, suc, ◌+◌, ◌-◌, ◌/◌, Bool, true, false, not, ◌&&◌, ◌||◌, Option, none, some, String, List,
  [], ◌∷◌, leb, ◌==◌, if◌then◌else◌, Result, ok, err, raise_if, ◌>>=◌, ◌>>◌,
}
use books_of_time.Base.Int.{ℤ, pos, negsuc, ◌+ℤ◌}
use books_of_time.Base.Text.{str_eq}
use books_of_time.Base.Time.{Datetime, aware, second}
use books_of_time.Base.Values.{Value, Entries, int, null, str, bool, get, put}
use books_of_time.Cohort.Types.{CohortStatus, CohortComponentStatus}
use books_of_time.Queue.Types.{CollectionTask}
use books_of_time.Scan.Types.{CommentScanStatus, CommentScanRun, is_active_scan, scan_not_found}
use books_of_time.Scan.Transitions.{first_with_id}
use books_of_time.Scan.{mark_failed, same_id}
use books_of_time.Execution.Recompute.{recompute_cohort, or_else, truthy}
use books_of_time.Store.{
  SnapshotCohort, SnapshotCohortComponent, CollectionCoverageStat, Db, StoreError, scan,
  not_executable, no_request_start, one_id_only, component_not_found, cohort_not_found,
  inconsistent_link, shadow_cohort, other_scan_run, foreign_scan, bad_attempts, cohort_with_id,
  component_with_id, save_cohort, save_component, lift,
}
use books_of_time.Execution.Component.{
  covered_component, started_cohort, started_component, sync_component_from_scan, whole_seconds,
}

abbrev pub Linked : Type 0
Linked = Option (SnapshotCohort × SnapshotCohortComponent)

abbrev pub is_shadow_planned : CohortStatus → Bool
is_shadow_planned CohortStatus.shadow_planned = true
is_shadow_planned _ = false

abbrev pub find_linked : (cohort_id component_id : ℕ) → Db → Result StoreError Linked
find_linked cohort_id component_id d = elim (component_with_id d.components component_id) [
  | none ↦ err component_not_found
  | some component ↦ elim (cohort_with_id d.cohorts cohort_id) [
    | none ↦ err cohort_not_found
    | some cohort ↦
        raise_if (not (component.cohort_id == cohort.id)) inconsistent_link
        >> raise_if (is_shadow_planned cohort.status) shadow_cohort
        >> ok (some (cohort, component))
  ]
]

-- `_load_linked_ids`
unfoldable pub load_linked_ids : (cohort_id component_id : Option ℕ) → Db → Result StoreError Linked
load_linked_ids none none d = ok none
load_linked_ids (some cohort_id) (some component_id) d = find_linked cohort_id component_id d
load_linked_ids _ _ d = err one_id_only

-- `_load_linked`
abbrev pub load_linked : CollectionTask → Db → Result StoreError Linked
load_linked task d = load_linked_ids task.snapshot_cohort_id task.snapshot_cohort_component_id d

-- PENDING, RUNNING or JOINED_ACTIVE_TASK.
abbrev pub is_executable : CohortComponentStatus → Bool
is_executable CohortComponentStatus.pending = true
is_executable CohortComponentStatus.running = true
is_executable CohortComponentStatus.joined_active_task = true
is_executable _ = false

abbrev pub Touched : Type 0
Touched = Option SnapshotCohortComponent × Db

-- `mark_task_started`
unfoldable pub mark_task_started : CollectionTask → (now : ℕ) → Db → Result StoreError Touched
mark_task_started task now d = do
  linked ← load_linked task d
  elim linked [
    | none ↦ ok (none, d)
    | some (cohort, component) ↦
        raise_if (not (is_executable component.status)) not_executable
        >> ok (
          some (started_component now component),
          save_cohort (started_cohort now cohort)
              (save_component (started_component now component) d),
        )
  ]

-- What an HTTP attempt says of its cohort.
pub record HttpRequestAttempt : Type 0 where
  pub snapshot_cohort_id : Option ℕ
  pub snapshot_cohort_component_id : Option ℕ
  pub request_started_at : Option ℕ

-- `record_http_attempt_started`
unfoldable pub record_http_attempt_started : HttpRequestAttempt → Db → Result StoreError Touched
record_http_attempt_started attempt d = do
  linked ← load_linked_ids attempt.snapshot_cohort_id attempt.snapshot_cohort_component_id d
  elim linked [
    | none ↦ ok (none, d)
    | some (cohort, component) ↦ elim (attempt.request_started_at) [
      | none ↦ err no_request_start
      | some started ↦ elim (component.skew_seconds) [
        | some skew ↦ ok (some component, d)
        | none ↦
            let skewed = record component {
              skew_seconds = some (whole_seconds component.scheduled_for started);
            } in
            ok (some skewed, save_component skewed d)
      ]
    ]
  ]

-- `_load_linked_scan`
unfoldable pub load_linked_scan :
    CollectionTask
    → SnapshotCohort
    → SnapshotCohortComponent
    → Db
    → Result StoreError (Option CommentScanRun)
load_linked_scan task cohort component d = elim (task.comment_scan_run_id) [
  | none ↦ ok none
  | some id ↦ do
    raise_if (not (same_id component.comment_scan_run_id (some id))) other_scan_run
    elim (first_with_id d.scans.rows id) [
      | none ↦ err (scan scan_not_found)
      | some run ↦
          raise_if
            (not (same_id run.snapshot_cohort_id (some cohort.id) && str_eq run.bvid cohort.bvid))
            foreign_scan
          >> ok (some run)
    ]
]

-- The component is flushed, and the cohort computed again.
unfoldable pub finish_component :
    SnapshotCohort → SnapshotCohortComponent → (finished_at : ℕ) → Db → Result StoreError Touched
finish_component cohort component finished_at d =
    recompute_cohort cohort finished_at (save_component component d) >>= λ d'.
    ok (some component, d')

-- `record_task_succeeded`, of a task whose scan is not one of the newest comments.
unfoldable pub record_linked_success :
    CollectionTask → CollectionCoverageStat → (finished_at : ℕ) → Db → Result StoreError Touched
record_linked_success task coverage finished_at d = do
  linked ← load_linked task d
  elim linked [
    | none ↦ ok (none, d)
    | some (cohort, component) ↦ do
      run ← load_linked_scan task cohort component d
      elim run [
        | some run ↦
            finish_component cohort (sync_component_from_scan run finished_at component) finished_at
              d
        | none ↦
            finish_component cohort (covered_component coverage finished_at component) finished_at d
      ]
  ]

-- `int(extra.get("failure_attempts") or 0)`; the repository writes ints only.
abbrev pub attempts : Value → Result StoreError ℤ
attempts null = ok (pos 0)
attempts (int n) = ok n
attempts _ = err bad_attempts

abbrev pub reason_value : Option String → Value
reason_value none = null
reason_value (some text) = str text

-- The `extra` of a component after a failure.
unfoldable pub failed_extra : Option String → Entries → Result StoreError Entries
failed_extra reason extra = do
  n ← attempts (get extra "failure_attempts" null)
  ok (
      put (put extra "failure_attempts" (int (n +ℤ pos 1))) "last_failure_reason"
        (reason_value reason))

-- ===== src/Store.antt =====
-- The tables that the scans, the cohorts and the worker share: those of db/models.py for cohorts and
-- their components, runs and coverage, beside the tasks, the scans and the frontiers.
pub mod Keys
pub mod Samples
use books_of_time.Base.{
  ℕ, Bool, true, false, Option, none, some, String, List, [], ◌∷◌, map, ◌==◌, if◌then◌else◌, Result,
  ok, err,
}
use books_of_time.Base.Int.{ℤ}
use books_of_time.Base.Text.{str_eq}
use books_of_time.Base.Values.{Entries}
use books_of_time.Cohort.Types.{CohortStatus, CohortComponentStatus, CollectionTier, VideoLifeStage}
use books_of_time.Queue.Types.{TaskKind, TaskTable}
use books_of_time.Queue.Enqueue.{EnqueueError}
use books_of_time.Scan.Types.{ScanTable, ScanError}
use books_of_time.Frontier.{FrontierTable}

pub record SnapshotCohort : Type 0 where
  pub id : ℕ
  pub cohort_key : String
  pub bvid : String
  pub scheduled_for : ℕ
  pub reason : String
  pub age_checkpoint_hours : Option ℕ
  pub desired_tier : CollectionTier
  pub effective_tier : CollectionTier
  pub policy_version : String
  pub deadline : Option ℕ
  pub status : CohortStatus
  pub status_reason : Option String
  pub started_at : Option ℕ
  pub finished_at : Option ℕ
  pub expected_component_count : ℕ
  pub completed_component_count : ℕ
  pub extra : Entries
  pub created_at : ℕ
  pub updated_at : ℕ

pub record SnapshotCohortComponent : Type 0 where
  pub id : ℕ
  pub cohort_id : ℕ
  pub component_kind : String
  pub required : Bool
  pub status : CohortComponentStatus
  pub scheduled_for : ℕ
  pub deadline : Option ℕ
  pub started_at : Option ℕ
  pub finished_at : Option ℕ
  pub skew_seconds : Option ℤ
  pub planned_pages : ℕ
  pub requested_pages : ℕ
  pub succeeded_pages : ℕ
  pub items_observed : ℕ
  pub raw_payloads_saved : ℕ
  pub comment_scan_run_id : Option ℕ
  pub failure_reason : Option String
  pub extra : Entries

pub record VideoCollectionState : Type 0 where
  pub bvid : String
  pub desired_tier : CollectionTier
  pub effective_tier : CollectionTier
  pub candidate_downgrade_tier : Option CollectionTier
  pub consecutive_downgrade_count : ℕ
  pub pinned_tier : Option CollectionTier
  pub life_stage : VideoLifeStage
  pub schedule_anchor_at : ℕ
  pub next_due_at : Option ℕ
  pub last_planned_at : Option ℕ
  pub last_completed_cohort_at : Option ℕ
  pub last_checkpoint_hours : Option ℕ
  pub policy_version : String
  pub extra : Entries
  pub created_at : ℕ
  pub updated_at : ℕ

pub record CollectionRun : Type 0 where
  pub run_id : String
  pub worker_id : String
  pub started_at : ℕ
  pub finished_at : Option ℕ
  pub status : String
  pub tasks_started : ℕ
  pub tasks_succeeded : ℕ
  pub tasks_failed : ℕ
  pub extra : Entries
  pub created_at : ℕ
  pub updated_at : ℕ

pub record CollectionCoverageStat : Type 0 where
  pub collection_task_id : ℕ
  pub snapshot_cohort_id : Option ℕ
  pub snapshot_cohort_component_id : Option ℕ
  pub comment_scan_run_id : Option ℕ
  pub run_id : String
  pub task_kind : TaskKind
  pub target_type : String
  pub target_id : String
  pub started_at : ℕ
  pub finished_at : ℕ
  pub status : String
  pub pages_requested : ℕ
  pub pages_succeeded : ℕ
  pub items_observed : ℕ
  pub raw_payloads_saved : ℕ
  pub parse_errors : ℕ
  pub request_errors : ℕ
  pub frontier_reached : Option Bool
  pub frontier_missing : Option Bool
  pub truncated : Bool
  pub corrupted : Bool
  pub reason : Option String
  pub extra : Entries
  pub created_at : ℕ
  pub updated_at : ℕ

pub record Db : Type 0 where
  pub tasks : TaskTable
  pub scans : ScanTable
  pub frontiers : FrontierTable
  pub cohorts : List SnapshotCohort
  pub components : List SnapshotCohortComponent
  pub states : List VideoCollectionState
  pub runs : List CollectionRun
  pub coverage : List CollectionCoverageStat

-- The exceptions of the repositories on cohorts, and those of the repositories that they call.
pub data StoreError : Type 0 where
  scan : ScanError → StoreError
  queue : EnqueueError → StoreError
  not_executable no_request_start one_id_only component_not_found cohort_not_found : StoreError
  inconsistent_link shadow_cohort other_scan_run foreign_scan no_required_component : StoreError
  scan_run_not_found other_video incompatible_mode parent_cycle parent_incompatible : StoreError
  bad_head_captured_at naive_head_captured_at naive_instant bad_frontier_version : StoreError
  not_baseline_tail other_frontier incompatible_outcome other_owner : StoreError
  bad_attempts out_of_fuel : StoreError

abbrev pub cohort_with_id : List SnapshotCohort → (id : ℕ) → Option SnapshotCohort
cohort_with_id [] id = none
cohort_with_id (r ∷ rs) id =
    let later = cohort_with_id rs id in if r.id == id then some r else later

abbrev pub component_with_id :
    List SnapshotCohortComponent → (id : ℕ) → Option SnapshotCohortComponent
component_with_id [] id = none
component_with_id (r ∷ rs) id =
    let later = component_with_id rs id in if r.id == id then some r else later

-- The flush of a row that is there.
unfoldable pub save_cohort : SnapshotCohort → Db → Db
save_cohort c d = record d { cohorts = map (λ r. if r.id == c.id then c else r) d.cohorts }

unfoldable pub save_component : SnapshotCohortComponent → Db → Db
save_component c d = record d { components = map (λ r. if r.id == c.id then c else r) d.components }

-- A call of another repository: its exceptions pass on.
abbrev pub lift : {E : Type 0} {A : Type 0} → (E → StoreError) → Result E A → Result StoreError A
lift f (ok a) = ok a
lift f (err e) = err (f e)

-- ===== src/Execution/Refused.antt =====
-- A task of a cohort that has failed for good cannot be started again.
use books_of_time.Base.{
  ℕ, ◌≡◌, ◌≢◌, refl, ◌∙◌, inl, inr, Bool, true, false, none, some, Option-cases, Result-cases,
  arith, ok, err,
}
use books_of_time.Queue.Types.{CollectionTask}
use books_of_time.Execution.{
  Touched, load_linked, load_linked_ids, load_linked_scan, finish_component, mark_task_started,
  is_executable, is_shadow_planned, failed_extra,
}
use books_of_time.Execution.Component.{add_coverage}
use books_of_time.Execution.Failure.{failed_without_scan, record_linked_failure}
use books_of_time.Execution.Record.{load_latest_task_scan, record_task_failed}
use books_of_time.Frontier.Anchors.{IsoText}
use books_of_time.Frontier.{FrontierState}
use books_of_time.Store.{
  SnapshotCohort, SnapshotCohortComponent, CollectionCoverageStat, Db, StoreError, cohort_with_id,
  component_with_id, not_executable,
}
use books_of_time.Execution.Current.{
  cohort_with_id-id, component_with_id-id, finish_component-found, is_shadow_aggregate,
}

load_linked_elim :
    (task : CollectionTask) (d : Db) {cohort : SnapshotCohort} {component : SnapshotCohortComponent}
    → load_linked task d ≡ ok (some (cohort, component))
    → (task.snapshot_cohort_id ≡ some cohort.id)
      × (task.snapshot_cohort_component_id ≡ some component.id)
      × (cohort_with_id d.cohorts cohort.id ≡ some cohort)
      × (component_with_id d.components component.id ≡ some component)
      × (component.cohort_id ≡ cohort.id)
unfolding load_linked_ids
load_linked_elim task d {cohort} {component} h = elim (Option-cases (task.snapshot_cohort_id)) [
  | inl a ↦ absurd (ground arith)
  | inr (i, a) ↦ elim (Option-cases (task.snapshot_cohort_component_id)) [
    | inl b ↦ absurd (ground arith)
    | inr (j, b) ↦ elim (Option-cases (component_with_id d.components j)) [
      | inl x ↦ absurd (ground arith)
      | inr (x, e) ↦ elim (Option-cases (cohort_with_id d.cohorts i)) [
        | inl y ↦ absurd (ground arith)
        | inr (y, k) ↦
            let p = component_with_id-id d.components j e in
            let q = cohort_with_id-id d.cohorts i k in
            (ground arith, ground arith, ground arith, ground arith, ground arith)
      ]
    ]
  ]
]

-- A component that is there, of a cohort that is not a shadow, with a status that does not let it
-- run: its task cannot be started.
refused_of :
    (task : CollectionTask) (now : ℕ) (d : Db) (row : SnapshotCohort) (c : SnapshotCohortComponent)
    → task.snapshot_cohort_id ≡ some row.id
    → task.snapshot_cohort_component_id ≡ some c.id
    → cohort_with_id d.cohorts row.id ≡ some row
    → component_with_id d.components c.id ≡ some c
    → c.cohort_id ≡ row.id
    → is_shadow_planned row.status ≡ false
    → is_executable c.status ≡ false
    → mark_task_started task now d ≡ err not_executable
unfolding mark_task_started load_linked_ids
refused_of task now d row c a b f g same shadow ended = ground arith

-- The end of a failure without a scan.
module _ (task again : CollectionTask) (coverage : CollectionCoverageStat) (finished_at now : ℕ)
    (d later : Db) {out : Touched} (lone : task.comment_scan_run_id ≡ none)
    (same_cohort : again.snapshot_cohort_id ≡ task.snapshot_cohort_id)
    (same_component : again.snapshot_cohort_component_id ≡ task.snapshot_cohort_component_id)
    (cohorts : later.cohorts ≡ out.1.cohorts)
    (components : later.components ≡ out.1.components) where
  linked_failure_refused :
      (cohort : SnapshotCohort) (component : SnapshotCohortComponent)
      → load_linked task d ≡ ok (some (cohort, component))
      → record_linked_failure task coverage true finished_at d ≡ ok out
      → mark_task_started again now later ≡ err not_executable
  unfolding record_linked_failure load_linked_scan failed_without_scan add_coverage
  linked_failure_refused cohort component l h =
      elim (Result-cases (failed_extra coverage.reason component.extra)) [
        | inl (e, f) ↦ absurd (ground arith)
        | inr (extra, f) ↦
            let (i, j, there, found, same) = load_linked_elim task d l in
            let done =
              failed_without_scan coverage true finished_at (record component { extra = extra }) in
            let finished : finish_component cohort done finished_at d ≡ ok out = ground arith in
            let (row, kept, current, saved) =
              finish_component-found cohort done finished_at d there found finished in
            let id = cohort_with_id-id out.1.cohorts cohort.id kept in
            refused_of again now later row done (same_cohort ∙ ground arith) (same_component ∙ j)
              (rw cohorts (rw id kept)) (rw components saved) (ground arith)
              (is_shadow_aggregate finished_at out.1 row current) refl
      ]

failure_err :
    (task : CollectionTask) (coverage : CollectionCoverageStat) (finished_at : ℕ) (d : Db)
    (e : StoreError) {out : Touched}
    → load_linked task d ≡ err e
    → record_linked_failure task coverage true finished_at d ≢ ok out
unfolding record_linked_failure
failure_err task coverage finished_at d e l h = ground arith

-- Once a task of a cohort that runs without a scan has failed for good, `mark_task_started` refuses
-- it, and each task of its cohort and component, as long as the cohorts and the components are as the
-- failure left them.
pub record_task_failed_refused :
    (iso : IsoText) (sees : FrontierState → Bool) (task again : CollectionTask)
    (coverage : CollectionCoverageStat) (finished_at now cohort_id : ℕ) (d later : Db)
    {out : Touched}
    → task.comment_scan_run_id ≡ none
    → task.snapshot_cohort_id ≡ some cohort_id
    → record_task_failed iso sees task coverage true finished_at d ≡ ok out
    → again.snapshot_cohort_id ≡ task.snapshot_cohort_id
    → again.snapshot_cohort_component_id ≡ task.snapshot_cohort_component_id
    → later.cohorts ≡ out.1.cohorts
    → later.components ≡ out.1.components
    → mark_task_started again now later ≡ err not_executable
unfolding record_task_failed load_latest_task_scan load_linked_ids
record_task_failed_refused iso sees task again coverage finished_at now cohort_id d later {out} lone
      i h same_cohort same_component cohorts components =
    let g : record_linked_failure task coverage true finished_at d ≡ ok out = ground arith in
    elim (Result-cases (load_linked task d)) [
      | inl (e, l) ↦ absurd (failure_err task coverage finished_at d e l g)
      | inr (none, l) ↦ absurd (ground arith)
      | inr (some (cohort, component), l) ↦
          linked_failure_refused task again coverage finished_at now d later lone same_cohort
            same_component cohorts components cohort component l g
    ]

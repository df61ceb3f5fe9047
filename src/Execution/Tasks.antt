-- ===== src/Execution/Tasks.antt =====
-- The rows of the tasks through the repository of cohorts: of a task it writes the payload at most.
use books_of_time.Base.{
  ℕ, ◌≡◌, ◌∙◌, inl, inr, Bool, none, some, List, [], ◌∷◌, map, filter, any, if◌then◌else◌,
  Bool-cases, Option-cases, Result-cases, arith, ok,
}
use books_of_time.Base.Time.{Datetime, naive, aware}
use books_of_time.Queue.Types.{CollectionTask}
use books_of_time.Scan.Types.{CommentScanRun}
use books_of_time.Cohort.Status.{aggregate_cohort_status}
use books_of_time.Execution.Recompute.{recompute_cohort, components_of, outcome_of}
use books_of_time.Execution.Failure.{
  exhaust_scan, failed_from_scan, failed_without_scan, record_linked_failure,
}
use books_of_time.Execution.Chain.{latest_cumulative_counters}
use books_of_time.Execution.Consumers.{
  latest_head_captured_at, is_consumer, consumed, cohort_ids, recompute_all, sync_consumers,
  effective_latest_scan, linked_scan_ids, sync_latest_scan_consumers,
}
use books_of_time.Latest.{update_latest}
use books_of_time.Frontier.Anchors.{IsoText}
use books_of_time.Store.{
  scan, lift, SnapshotCohort, SnapshotCohortComponent, CollectionCoverageStat, Db, save_cohort,
  save_component, cohort_with_id,
}
use books_of_time.Execution.{
  Touched, load_linked, load_linked_scan, finish_component, record_linked_success, failed_extra,
}
use books_of_time.Execution.Component.{covered_component, sync_component_from_scan}

-- The tasks are as they were.
abbrev Keeps : Db → Db → Type 0
Keeps d d' = d'.tasks ≡ d.tasks

pub recompute_cohort-tasks :
    (cohort : SnapshotCohort) (finished_at : ℕ) (d : Db) {d' : Db}
    → recompute_cohort cohort finished_at d ≡ ok d'
    → d'.tasks ≡ d.tasks
unfolding recompute_cohort save_cohort
recompute_cohort-tasks cohort finished_at d h =
    elim (Result-cases
      (aggregate_cohort_status (map outcome_of (components_of cohort.id d.components)))) [
        | inl (e, a) ↦ absurd (ground arith)
        | inr (status, a) ↦ ground arith
      ]

finish_component-tasks :
    (cohort : SnapshotCohort) (component : SnapshotCohortComponent) (finished_at : ℕ) (d : Db)
    {out : Touched}
    → finish_component cohort component finished_at d ≡ ok out
    → out.1.tasks ≡ d.tasks
unfolding finish_component save_component
finish_component-tasks cohort component finished_at d {out} h =
    elim (Result-cases (recompute_cohort cohort finished_at (save_component component d))) [
      | inl (e, a) ↦ absurd (ground arith)
      | inr (d', a) ↦
          let kept = recompute_cohort-tasks cohort finished_at (save_component component d) a in
          ground arith
    ]

pub record_linked_success-tasks :
    (task : CollectionTask) (coverage : CollectionCoverageStat) (finished_at : ℕ) (d : Db)
    {out : Touched}
    → record_linked_success task coverage finished_at d ≡ ok out
    → out.1.tasks ≡ d.tasks
unfolding record_linked_success
record_linked_success-tasks task coverage finished_at d {out} h =
    elim (Result-cases (load_linked task d)) [
      | inl (e, l) ↦ absurd (ground arith)
      | inr (none, l) ↦ ground arith
      | inr (some (cohort, component), l) ↦
          elim (Result-cases (load_linked_scan task cohort component d)) [
            | inl (e, r) ↦ absurd (ground arith)
            | inr (none, r) ↦
                let done = covered_component coverage finished_at component in
                finish_component-tasks cohort done finished_at d {out = out} (ground arith)
            | inr (some run, r) ↦
                let done = sync_component_from_scan run finished_at component in
                finish_component-tasks cohort done finished_at d {out = out} (ground arith)
          ]
    ]

exhaust_scan-tasks :
    (run : CommentScanRun) (coverage : CollectionCoverageStat) (terminal : Bool) (finished_at : ℕ)
    (d : Db) {out : CommentScanRun × Db}
    → exhaust_scan run coverage terminal finished_at d ≡ ok out
    → out.1.tasks ≡ d.tasks
unfolding exhaust_scan
exhaust_scan-tasks run coverage terminal finished_at d h = grind arith

pub record_linked_failure-tasks :
    (task : CollectionTask) (coverage : CollectionCoverageStat) (terminal : Bool) (finished_at : ℕ)
    (d : Db) {out : Touched}
    → record_linked_failure task coverage terminal finished_at d ≡ ok out
    → out.1.tasks ≡ d.tasks
unfolding record_linked_failure
record_linked_failure-tasks task coverage terminal finished_at d {out} h =
    elim (Result-cases (load_linked task d)) [
      | inl (e, l) ↦ absurd (ground arith)
      | inr (none, l) ↦ ground arith
      | inr (some (cohort, component), l) ↦
          elim (Result-cases (load_linked_scan task cohort component d)) [
            | inl (e, r) ↦ absurd (ground arith)
            | inr (run, r) ↦ elim (Result-cases (failed_extra coverage.reason component.extra)) [
              | inl (e, f) ↦ absurd (ground arith)
              | inr (extra, f) ↦
                  let counted = record component { extra = extra } in
                  elim (Option-cases run) [
                    | inl n ↦
                        let done = failed_without_scan coverage terminal finished_at counted in
                        finish_component-tasks cohort done finished_at d {out = out} (ground arith)
                    | inr (found, n) ↦
                        elim (Result-cases (exhaust_scan found coverage terminal finished_at d)) [
                          | inl (e, x) ↦ absurd (ground arith)
                          | inr (ended, x) ↦
                              let done = failed_from_scan ended.0 coverage finished_at counted in
                              finish_component-tasks cohort done finished_at ended.1 {out = out}
                                (ground arith)
                              ∙ exhaust_scan-tasks found coverage terminal finished_at d x
                        ]
                  ]
            ]
          ]
    ]

recompute_all-tasks :
    (ids : List ℕ) (finished_at : ℕ) (d : Db) {d' : Db}
    → recompute_all ids finished_at d ≡ ok d'
    → d'.tasks ≡ d.tasks
unfolding recompute_all
recompute_all-tasks [] finished_at d h = ground arith
recompute_all-tasks (id ∷ ids) finished_at d {d'} h =
    elim (Option-cases (cohort_with_id d.cohorts id)) [
      | inl n ↦ absurd (ground arith)
      | inr (cohort, n) ↦ elim (Result-cases (recompute_cohort cohort finished_at d)) [
        | inl (e, r) ↦ absurd (ground arith)
        | inr (x, r) ↦
            let rest : recompute_all ids finished_at x ≡ ok d' = ground arith in
            recompute_all-tasks ids finished_at x rest
            ∙ recompute_cohort-tasks cohort finished_at d r
      ]
    ]

sync_consumers-tasks :
    (iso : IsoText) (run : CommentScanRun) (ids : List ℕ) (finished_at : ℕ) (d : Db) {out : ℕ × Db}
    → sync_consumers iso run ids finished_at d ≡ ok out
    → out.1.tasks ≡ d.tasks
unfolding sync_consumers
sync_consumers-tasks iso run ids finished_at d {out} h =
    elim (Result-cases (latest_cumulative_counters run d.scans.rows)) [
      | inl (e, c) ↦ absurd (ground arith)
      | inr (counters, c) ↦ elim (Result-cases (latest_head_captured_at iso run)) [
        | inl (e, k) ↦ absurd (ground arith)
        | inr (at, k) ↦
            let mid = record d {
              components =
                  map (λ c. if is_consumer ids c then consumed run counters at finished_at c else c)
                    d.components;
            } in
            let list = cohort_ids (filter (is_consumer ids) d.components) in
            elim (Result-cases (recompute_all list finished_at mid)) [
              | inl (e, r) ↦ absurd (ground arith)
              | inr (x, r) ↦ let kept = recompute_all-tasks list finished_at mid r in ground arith
            ]
      ]
    ]

pub sync_latest_scan_consumers-tasks :
    (iso : IsoText) (id : ℕ) (now : Datetime) (d : Db) {out : ℕ × Db}
    → sync_latest_scan_consumers iso id now d ≡ ok out
    → out.1.tasks ≡ d.tasks
unfolding sync_latest_scan_consumers
sync_latest_scan_consumers-tasks iso id (naive t) d h = absurd (ground arith)
sync_latest_scan_consumers-tasks iso id (aware t) d {out} h =
    elim (Result-cases (lift scan (update_latest id ok d.scans))) [
      | inl (e, l) ↦ absurd (ground arith)
      | inr (locked, l) ↦
          let run = effective_latest_scan locked.0 d.scans.rows in
          let ids = linked_scan_ids id run in
          elim (Bool-cases (any (is_consumer ids) d.components)) [
            | inr n ↦ ground arith
            | inl n ↦ sync_consumers-tasks iso run ids t d {out = out} (ground arith)
          ]
    ]

-- ===== src/Execution/Payload.antt =====
-- What a test of a task that does not look at its payload says after `record_task_succeeded` and
-- `record_task_failed`: what it said before.
use books_of_time.Base.{
  ℕ, ◌≡◌, refl, ◌∙◌, ap, inl, inr, Bool, true, false, none, some, List, [], ◌∷◌, map, any, ◌==◌,
  if◌then◌else◌, Bool-cases, Result-cases, arith, Result, ok, err,
}
use books_of_time.Base.Time.{aware}
use books_of_time.Base.Values.{Entries, int, put, get, null}
use books_of_time.Base.Int.{pos}
use books_of_time.Queue.Types.{CollectionTask, TaskTable}
use books_of_time.Scan.Types.{CommentScanRun, frontier_version_conflict}
use books_of_time.Frontier.Anchors.{IsoText}
use books_of_time.Frontier.{FrontierState, FrontierKey, get_or_create, compare_and_swap}
use books_of_time.Latest.Claim.{same_but_owner}
use books_of_time.Execution.{Touched, record_linked_success, failed_extra}
use books_of_time.Execution.Component.{scan_status_value}
use books_of_time.Execution.Failure.{failed_status_of, record_linked_failure}
use books_of_time.Execution.Consumers.{sync_latest_scan_consumers}
use books_of_time.Execution.Record.{
  load_latest_task_scan, task_component, record_task_succeeded, count_failure, terminalize_latest,
  terminalize_owned, end_scan, release_frontier, set_version, is_owner, is_taken, frontier_version,
  when, unless_conflict, record_task_failed,
}
use books_of_time.Execution.Tasks.{
  record_linked_success-tasks, record_linked_failure-tasks, sync_latest_scan_consumers-tasks,
}
use books_of_time.Store.{CollectionCoverageStat, Db, StoreError, scan, lift, save_component}

-- The savepoint that is undone leaves the tables as they were.
unless_conflict_err :
    (d : Db) (e : StoreError) {d' : Db} → unless_conflict d (err e) ≡ ok d' → d' ≡ d
unless_conflict_err d (scan frontier_version_conflict) h = ground arith
unless_conflict_err d e h = ground arith

module _ (p : CollectionTask → Bool)
    (ignores : (r : CollectionTask) (x : Entries) → p (record r { payload = x }) ≡ p r) where
  -- The test says the same of the tables.
  abbrev Same : Db → Db → Type 0
  Same d d' = any p d'.tasks.rows ≡ any p d.tasks.rows

  any-set_version :
      (task : CollectionTask) (version : ℕ) (rows : List CollectionTask)
      → any p (
          map
            (λ (r : CollectionTask).
              if r.id == task.id
              then record r { payload = put r.payload "frontier_version" (int (pos version)) }
              else r)
            rows)
        ≡ any p rows
  any-set_version task version [] = refl
  any-set_version task version (r ∷ rows) = elim (Bool-cases (r.id == task.id)) [
    | inl e ↦
        rw
          (
            e,
            ignores r (put r.payload "frontier_version" (int (pos version))),
            any-set_version task version rows,
          )
          refl
    | inr e ↦ rw (e, any-set_version task version rows) refl
  ]

  release_frontier-Same :
      (iso : IsoText) (task : CollectionTask) (state : FrontierState) (version : ℕ)
      (run : CommentScanRun) (coverage : CollectionCoverageStat) (finished_at : ℕ) (d : Db)
      {d' : Db}
      → release_frontier iso task state version run coverage finished_at d ≡ ok d'
      → Same d d'
  unfolding release_frontier set_version
  release_frontier-Same iso task state version run coverage finished_at d {d'} h =
      let u = record (same_but_owner state none) {
        cursor = none;
        last_scan_at = some (aware finished_at);
        last_scan_status = some (scan_status_value (failed_status_of coverage));
        last_scan_pages = pos run.pages_succeeded;
        last_scan_truncated = true;
      } in
      elim (Bool-cases (is_owner state run.id)) [
        | inr o ↦ let same : d' ≡ d = ground arith in rw same refl
        | inl o ↦
            elim (Result-cases (
              lift scan
                (compare_and_swap iso state.id (pos version) u (aware finished_at) d.frontiers))) [
                  | inl (e, s) ↦ absurd (ground arith)
                  | inr (swapped, s) ↦
                      let same : d' ≡ record d {
                        frontiers = swapped.1;
                        tasks = set_version task (swapped.0.version) d.tasks;
                      } =
                        ground arith in
                      rw same (any-set_version task (swapped.0.version) d.tasks.rows)
                ]
      ]

  end_scan-tasks :
      (run : CommentScanRun) (coverage : CollectionCoverageStat) (finished_at : ℕ) (d : Db)
      {out : CommentScanRun × Db}
      → end_scan run coverage finished_at d ≡ ok out
      → out.1.tasks ≡ d.tasks
  unfolding end_scan
  end_scan-tasks run coverage finished_at d h = grind arith

  terminalize_owned-Same :
      (iso : IsoText) (task : CollectionTask) (state : FrontierState) (version : ℕ)
      (run : CommentScanRun) (coverage : CollectionCoverageStat) (finished_at : ℕ) (d : Db)
      {d' : Db}
      → terminalize_owned iso task state version run coverage finished_at d ≡ ok d'
      → Same d d'
  unfolding terminalize_owned
  terminalize_owned-Same iso task state version run coverage finished_at d {d'} h =
      elim (Bool-cases (is_taken state run.id version)) [
        | inl t ↦ let same : d' ≡ d = ground arith in rw same refl
        | inr t ↦ elim (Result-cases (end_scan run coverage finished_at d)) [
          | inl (e, x) ↦ let same : d' ≡ d = unless_conflict_err d e (ground arith) in rw same refl
          | inr (ended, x) ↦
              elim (Result-cases
                (release_frontier iso task state version ended.0 coverage finished_at ended.1)) [
                  | inl (e, y) ↦
                      let same : d' ≡ d = unless_conflict_err d e (ground arith) in rw same refl
                  | inr (z, y) ↦
                      let same : d' ≡ z = ground arith in
                      rw same (
                        release_frontier-Same iso task state version ended.0 coverage finished_at
                          ended.1 y
                        ∙ ap (λ (t : TaskTable). any p t.rows)
                            (end_scan-tasks run coverage finished_at d x))
                ]
        ]
      ]

  terminalize_latest-Same :
      (iso : IsoText) (sees : FrontierState → Bool) (task : CollectionTask) (run : CommentScanRun)
      (coverage : CollectionCoverageStat) (finished_at : ℕ) (d : Db) {d' : Db}
      → terminalize_latest iso sees task run coverage finished_at d ≡ ok d'
      → Same d d'
  unfolding terminalize_latest
  terminalize_latest-Same iso sees task run coverage finished_at d {d'} h =
      let key : FrontierKey = record {
        target_type = "video";
        target_id = run.bvid;
        frontier_type = "latest_comments";
      } in
      elim (Result-cases (lift scan (get_or_create sees key (aware finished_at) d.frontiers))) [
        | inl (e, g) ↦ absurd (ground arith)
        | inr (found, g) ↦
            elim (Result-cases (frontier_version (get task.payload "frontier_version" null))) [
              | inl (e, v) ↦ absurd (ground arith)
              | inr (version, v) ↦
                  let ended : terminalize_owned iso task found.0 version run coverage finished_at
                        (record d { frontiers = found.1 })
                      ≡ ok d' =
                    ground arith in
                  terminalize_owned-Same iso task found.0 version run coverage finished_at
                    (record d { frontiers = found.1 }) ended
            ]
      ]

  count_failure-tasks :
      (task : CollectionTask) (coverage : CollectionCoverageStat) (d : Db) {d' : Db}
      → count_failure task coverage d ≡ ok d'
      → d'.tasks ≡ d.tasks
  unfolding count_failure save_component
  count_failure-tasks task coverage d h = elim (Result-cases (task_component task d)) [
    | inl (e, c) ↦ absurd (ground arith)
    | inr (none, c) ↦ ground arith
    | inr (some component, c) ↦ elim (Result-cases (failed_extra coverage.reason component.extra)) [
      | inl (e, f) ↦ absurd (ground arith)
      | inr (extra, f) ↦ ground arith
    ]
  ]

  when-Same :
      (terminal : Bool) (call : Result StoreError Db) (d : Db) {d' : Db}
      → ((x : Db) → call ≡ ok x → Same d x)
      → when terminal call d ≡ ok d'
      → Same d d'
  when-Same true call d {d'} same h = same d' h
  when-Same false call d {d'} same h = let e : d' ≡ d = ground arith in rw e refl

  pub record_task_succeeded-Same :
      (iso : IsoText) (task : CollectionTask) (coverage : CollectionCoverageStat) (finished_at : ℕ)
      (d : Db) {out : Touched}
      → record_task_succeeded iso task coverage finished_at d ≡ ok out
      → Same d out.1
  unfolding record_task_succeeded
  record_task_succeeded-Same iso task coverage finished_at d {out} h =
      elim (Result-cases (load_latest_task_scan task d)) [
        | inl (e, l) ↦ absurd (ground arith)
        | inr (none, l) ↦
            let g : record_linked_success task coverage finished_at d ≡ ok out = ground arith in
            ap (λ (t : TaskTable). any p t.rows)
              (record_linked_success-tasks task coverage finished_at d g)
        | inr (some run, l) ↦
            elim (Result-cases (sync_latest_scan_consumers iso run.id (aware finished_at) d)) [
              | inl (e, s) ↦ absurd (ground arith)
              | inr (synced, s) ↦ elim (Result-cases (task_component task synced.1)) [
                | inl (e, c) ↦ absurd (ground arith)
                | inr (component, c) ↦
                    let same : out.1 ≡ synced.1 = ground arith in
                    rw same (
                      ap (λ (t : TaskTable). any p t.rows)
                        (sync_latest_scan_consumers-tasks iso run.id (aware finished_at) d s))
              ]
            ]
      ]

  pub record_task_failed-Same :
      (iso : IsoText) (sees : FrontierState → Bool) (task : CollectionTask)
      (coverage : CollectionCoverageStat) (terminal : Bool) (finished_at : ℕ) (d : Db)
      {out : Touched}
      → record_task_failed iso sees task coverage terminal finished_at d ≡ ok out
      → Same d out.1
  unfolding record_task_failed
  record_task_failed-Same iso sees task coverage terminal finished_at d {out} h =
      elim (Result-cases (load_latest_task_scan task d)) [
        | inl (e, l) ↦ absurd (ground arith)
        | inr (none, l) ↦
            let g : record_linked_failure task coverage terminal finished_at d ≡ ok out =
              ground arith in
            ap (λ (t : TaskTable). any p t.rows)
              (record_linked_failure-tasks task coverage terminal finished_at d g)
        | inr (some run, l) ↦ elim (Result-cases (count_failure task coverage d)) [
          | inl (e, c) ↦ absurd (ground arith)
          | inr (counted, c) ↦
              let call = terminalize_latest iso sees task run coverage finished_at counted in
              elim (Result-cases (when terminal call counted)) [
                | inl (e, w) ↦ absurd (ground arith)
                | inr (ended, w) ↦
                    elim (Result-cases
                      (sync_latest_scan_consumers iso run.id (aware finished_at) ended)) [
                        | inl (e, s) ↦ absurd (ground arith)
                        | inr (synced, s) ↦ elim (Result-cases (task_component task synced.1)) [
                          | inl (e, k) ↦ absurd (ground arith)
                          | inr (component, k) ↦
                              let same : out.1 ≡ synced.1 = ground arith in
                              let last =
                                sync_latest_scan_consumers-tasks iso run.id (aware finished_at)
                                  ended s in
                              let first = count_failure-tasks task coverage d c in
                              let middle =
                                when-Same terminal call counted
                                  (λ x t.
                                    terminalize_latest-Same iso sees task run coverage finished_at
                                      counted t)
                                  w in
                              rw same (
                                ap (λ (t : TaskTable). any p t.rows) last
                                ∙ middle
                                ∙ ap (λ (t : TaskTable). any p t.rows) first)
                        ]
                      ]
              ]
        ]
      ]

-- ===== src/Execution/Consumers.antt =====
-- The components that wait for a scan of the newest comments, in db/cohort_repositories.py.
use books_of_time.Base.{
  ℕ, Bool, true, false, ◌&&◌, ◌||◌, Option, none, some, String, List, [], ◌∷◌, map, any, filter,
  length, ltb, leb, ◌==◌, if◌then◌else◌, Result, ok, err, ◌>>=◌,
}
use books_of_time.Base.Rows.{pick, sort_by}
use books_of_time.Base.Text.{str_eq}
use books_of_time.Base.Time.{Datetime, naive, aware}
use books_of_time.Base.Values.{null, str, get}
use books_of_time.Cohort.Types.{CohortComponentStatus}
use books_of_time.Scan.Types.{CommentScanMode, CommentScanStatus, CommentScanRun}
use books_of_time.Scan.{same_id}
use books_of_time.Frontier.Anchors.{IsoText}
use books_of_time.Latest.{update_latest}
use books_of_time.Execution.Recompute.{or_else, truthy, recompute_cohort}
use books_of_time.Execution.Chain.{Counters, latest_cumulative_counters}
use books_of_time.Execution.{is_executable}
use books_of_time.Execution.Component.{is_complete_scan}
use books_of_time.Store.{
  SnapshotCohortComponent, Db, StoreError, scan, bad_head_captured_at, naive_head_captured_at,
  naive_instant, cohort_not_found, cohort_with_id, lift,
}

abbrev pub is_baseline_tail : CommentScanMode → Bool
is_baseline_tail CommentScanMode.baseline_tail = true
is_baseline_tail _ = false

abbrev pub is_outcome : Option String → String → Bool
is_outcome none text = false
is_outcome (some s) text = str_eq s text

abbrev pub lower_id : CommentScanRun → CommentScanRun → Bool
lower_id x y = ltb x.id y.id

-- `_effective_latest_scan`: a tail that has been reached gives way to the scan that follows it.
unfoldable pub effective_latest_scan : CommentScanRun → List CommentScanRun → CommentScanRun
effective_latest_scan run rows =
    if is_baseline_tail run.mode
      && (is_complete_scan run.status && is_outcome run.outcome "tail_reached")
    then elim (pick lower_id
        (filter (λ (r : CommentScanRun). same_id r.parent_scan_run_id (some run.id)) rows)) [
          | none ↦ run
          | some child ↦ child
        ]
    else run

-- `_latest_head_captured_at`
unfoldable pub latest_head_captured_at : IsoText → CommentScanRun → Result StoreError (Option ℕ)
latest_head_captured_at iso run =
    if is_baseline_tail run.mode then ok none else elim (get run.extra "head_captured_at" null) [
      | null ↦ ok none
      | str text ↦ elim (iso.fromisoformat text) [
        | none ↦ err bad_head_captured_at
        | some (naive t) ↦ err naive_head_captured_at
        | some (aware t) ↦ ok (some t)
      ]
      | _ ↦ err bad_head_captured_at
    ]

abbrev pub is_before : (t : ℕ) → Option ℕ → Bool
is_before t none = true
is_before t (some u) = ltb t u

-- `_head_capture_satisfies`
unfoldable pub head_capture_satisfies : SnapshotCohortComponent → (captured_at : Option ℕ) → Bool
head_capture_satisfies c none = false
head_capture_satisfies c (some t) = leb c.scheduled_for t && is_before t c.deadline

abbrev pub is_latest_kind : String → Bool
is_latest_kind kind = str_eq kind "latest_current_head" || str_eq kind "latest_reconciliation"

-- `comment_scan_run_id.in_(linked_scan_ids)`, the rest of the WHERE with it.
abbrev pub is_linked : Option ℕ → List ℕ → Bool
is_linked none ids = false
is_linked (some id) ids = any (λ i. i == id) ids

unfoldable pub is_consumer : (ids : List ℕ) → SnapshotCohortComponent → Bool
is_consumer ids c =
    is_linked c.comment_scan_run_id ids
    && (is_latest_kind c.component_kind && is_executable c.status)

abbrev pub failure_or : (default : String) → CommentScanRun → Option String
failure_or default run =
    or_else (truthy run.outcome) (or_else (truthy run.last_error_type) (some default))

-- The loop body of `sync_latest_scan_consumers`.
unfoldable pub consumed :
    CommentScanRun
    → Counters
    → (captured_at : Option ℕ) (finished_at : ℕ) → SnapshotCohortComponent
    → SnapshotCohortComponent
consumed run counters captured_at finished_at c =
    let counted = record c {
      comment_scan_run_id = some run.id;
      requested_pages = counters.requested;
      succeeded_pages = counters.succeeded;
      items_observed = counters.items;
      raw_payloads_saved = counters.raw_payloads;
    } in
    if head_capture_satisfies c captured_at
    then record counted {
      status = CohortComponentStatus.complete;
      started_at = or_else c.started_at captured_at;
      finished_at = some finished_at;
      failure_reason = none;
    }
    else elim (run.status) [
      | CommentScanStatus.failed ↦ record counted {
        status = CohortComponentStatus.failed;
        finished_at = or_else run.finished_at (some finished_at);
        failure_reason = failure_or "failed" run;
      }
      | CommentScanStatus.corrupted ↦ record counted {
        status = CohortComponentStatus.corrupted;
        finished_at = or_else run.finished_at (some finished_at);
        failure_reason = failure_or "corrupted" run;
      }
      | _ ↦ record counted {
        status = CohortComponentStatus.joined_active_task;
        finished_at = none;
        failure_reason = none;
      }
    ]

-- `{scan.id, effective_scan.id}`, with the parent of the effective scan.
abbrev pub linked_scan_ids : (id : ℕ) → CommentScanRun → List ℕ
linked_scan_ids id run = elim (run.parent_scan_run_id) [
  | none ↦ id ∷ run.id ∷ []
  | some parent ↦ id ∷ run.id ∷ parent ∷ []
]

abbrev pub insert_id : ℕ → List ℕ → List ℕ
insert_id id ids = if any (λ i. i == id) ids then ids else id ∷ ids

-- `sorted(cohort_ids)`
unfoldable pub cohort_ids : List SnapshotCohortComponent → List ℕ
cohort_ids [] = []
cohort_ids (c ∷ cs) = sort_by ltb (insert_id c.cohort_id (cohort_ids cs))

unfoldable pub recompute_all : List ℕ → (finished_at : ℕ) → Db → Result StoreError Db
recompute_all [] finished_at d = ok d
recompute_all (id ∷ ids) finished_at d = elim (cohort_with_id d.cohorts id) [
  | none ↦ err cohort_not_found
  | some cohort ↦ recompute_cohort cohort finished_at d >>= λ d'. recompute_all ids finished_at d'
]

-- What is done once the components are found.
unfoldable pub sync_consumers :
    IsoText → CommentScanRun → (ids : List ℕ) (finished_at : ℕ) → Db → Result StoreError (ℕ × Db)
sync_consumers iso run ids finished_at d = do
  counters ← latest_cumulative_counters run d.scans.rows
  captured_at ← latest_head_captured_at iso run
  d' ← recompute_all (cohort_ids (filter (is_consumer ids) d.components)) finished_at (record d {
    components =
        map (λ c. if is_consumer ids c then consumed run counters captured_at finished_at c else c)
          d.components;
  })
  ok (length (filter (is_consumer ids) d.components), d')

abbrev pub sync_effective :
    IsoText → (id : ℕ) → CommentScanRun → (finished_at : ℕ) → Db → Result StoreError (ℕ × Db)
sync_effective iso id run finished_at d =
    let ids = linked_scan_ids id run in
    let synced = sync_consumers iso run ids finished_at d in
    if any (is_consumer ids) d.components then synced else ok (0, d)

-- `sync_latest_scan_consumers`; `lock` changes nothing.
unfoldable pub sync_latest_scan_consumers :
    IsoText → (scan_run_id : ℕ) → Datetime → Db → Result StoreError (ℕ × Db)
sync_latest_scan_consumers iso id (naive t) d = err naive_instant
sync_latest_scan_consumers iso id (aware t) d = do
  locked ← lift scan (update_latest id ok d.scans)
  sync_effective iso id (effective_latest_scan (locked.0) d.scans.rows) t d

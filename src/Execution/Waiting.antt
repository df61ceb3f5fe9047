-- ===== src/Execution/Waiting.antt =====
-- The components that wait for a scan of the newest comments, once it has failed.
use books_of_time.Base.{
  ℕ, ◌≡◌, refl, ◌∙◌, inl, inr, Bool, true, false, Option, List, [], ◌∷◌, map, any, filter,
  if◌then◌else◌, Bool-cases, Option-cases, Result-cases, arith, ok,
}
use books_of_time.Base.Time.{aware}
use books_of_time.Cohort.Status.{aggregate_cohort_status}
use books_of_time.Scan.Types.{CommentScanStatus, CommentScanRun, ScanTable}
use books_of_time.Frontier.Anchors.{IsoText}
use books_of_time.Latest.{update_latest}
use books_of_time.Execution.Recompute.{recompute_cohort, components_of, outcome_of}
use books_of_time.Execution.Chain.{Counters, latest_cumulative_counters}
use books_of_time.Execution.Consumers.{
  latest_head_captured_at, is_consumer, consumed, cohort_ids, recompute_all, sync_consumers,
  effective_latest_scan, linked_scan_ids, sync_latest_scan_consumers,
}
use books_of_time.Store.{SnapshotCohort, SnapshotCohortComponent, Db, save_cohort, cohort_with_id}

-- FAILED or CORRUPTED.
abbrev pub has_failed : CommentScanStatus → Bool
has_failed CommentScanStatus.failed = true
has_failed CommentScanStatus.corrupted = true
has_failed _ = false

recompute_cohort-components :
    (cohort : SnapshotCohort) (finished_at : ℕ) (d : Db) {d' : Db}
    → recompute_cohort cohort finished_at d ≡ ok d'
    → d'.components ≡ d.components
unfolding recompute_cohort save_cohort
recompute_cohort-components cohort finished_at d h =
    elim (Result-cases
      (aggregate_cohort_status (map outcome_of (components_of cohort.id d.components)))) [
        | inl (e, a) ↦ absurd (ground arith)
        | inr (status, a) ↦ ground arith
      ]

recompute_all-components :
    (ids : List ℕ) (finished_at : ℕ) (d : Db) {d' : Db}
    → recompute_all ids finished_at d ≡ ok d'
    → d'.components ≡ d.components
unfolding recompute_all
recompute_all-components [] finished_at d h = ground arith
recompute_all-components (id ∷ ids) finished_at d {d'} h =
    elim (Option-cases (cohort_with_id d.cohorts id)) [
      | inl n ↦ absurd (ground arith)
      | inr (cohort, n) ↦ elim (Result-cases (recompute_cohort cohort finished_at d)) [
        | inl (e, r) ↦ absurd (ground arith)
        | inr (x, r) ↦
            let rest : recompute_all ids finished_at x ≡ ok d' = ground arith in
            recompute_all-components ids finished_at x rest
            ∙ recompute_cohort-components cohort finished_at d r
      ]
    ]

module _ (run : CommentScanRun) (counters : Counters) (captured_at : Option ℕ) (finished_at : ℕ)
    (ids : List ℕ) (ended : has_failed run.status ≡ true) where
  consumed-is_consumer :
      (c : SnapshotCohortComponent)
      → is_consumer ids (consumed run counters captured_at finished_at c) ≡ false
  unfolding is_consumer consumed
  consumed-is_consumer c = ground arith

  none_left :
      (rows : List SnapshotCohortComponent)
      → any (is_consumer ids) (
          map
            (λ c. if is_consumer ids c then consumed run counters captured_at finished_at c else c)
            rows)
        ≡ false
  none_left [] = refl
  none_left (c ∷ rows) = elim (Bool-cases (is_consumer ids c)) [
    | inl e ↦ rw (e, consumed-is_consumer c, none_left rows) refl
    | inr e ↦ rw (e, e, none_left rows) refl
  ]

sync_consumers-none_left :
    (iso : IsoText) (run : CommentScanRun) (ids : List ℕ) (finished_at : ℕ) (d : Db) {out : ℕ × Db}
    → has_failed run.status ≡ true
    → sync_consumers iso run ids finished_at d ≡ ok out
    → any (is_consumer ids) out.1.components ≡ false
unfolding sync_consumers
sync_consumers-none_left iso run ids finished_at d {out} ended h =
    elim (Result-cases (latest_cumulative_counters run d.scans.rows)) [
      | inl (e, c) ↦ absurd (ground arith)
      | inr (counters, c) ↦ elim (Result-cases (latest_head_captured_at iso run)) [
        | inl (e, k) ↦ absurd (ground arith)
        | inr (at, k) ↦
            let rows =
              map (λ c. if is_consumer ids c then consumed run counters at finished_at c else c)
                d.components in
            let mid = record d { components = rows } in
            let list = cohort_ids (filter (is_consumer ids) d.components) in
            elim (Result-cases (recompute_all list finished_at mid)) [
              | inl (e, r) ↦ absurd (ground arith)
              | inr (x, r) ↦
                  let kept = recompute_all-components list finished_at mid r in
                  let same : out.1.components ≡ rows = ground arith in
                  rw same (none_left run counters at finished_at ids ended d.components)
            ]
      ]
    ]

-- Once a scan of the newest comments has failed, or is corrupted, the call of
-- `sync_latest_scan_consumers` that returns leaves no component that waits for it, for the scan that
-- took its place or for the parent of this one.
pub sync_latest_scan_consumers-none_left :
    (iso : IsoText) (id finished_at : ℕ) (d : Db) {locked : CommentScanRun} {scans : ScanTable}
    {out : ℕ × Db}
    → update_latest id ok d.scans ≡ ok (locked, scans)
    → has_failed (effective_latest_scan locked d.scans.rows).status ≡ true
    → sync_latest_scan_consumers iso id (aware finished_at) d ≡ ok out
    → any
        (is_consumer (linked_scan_ids id (effective_latest_scan locked d.scans.rows)))
        out.1.components
      ≡ false
unfolding sync_latest_scan_consumers
sync_latest_scan_consumers-none_left iso id finished_at d {locked} {out = out} l ended h =
    let run = effective_latest_scan locked d.scans.rows in
    let ids = linked_scan_ids id run in
    elim (Bool-cases (any (is_consumer ids) d.components)) [
      | inr n ↦ let same : out.1 ≡ d = ground arith in rw same n
      | inl n ↦
          let synced : sync_consumers iso run ids finished_at d ≡ ok out = ground arith in
          sync_consumers-none_left iso run ids finished_at d ended synced
    ]

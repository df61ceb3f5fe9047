-- ===== src/Execution/Tests.antt =====
-- A cohort that is computed again, a scan that has failed, and the theorems on them.
use books_of_time.Base.{ℕ, ◌≡◌, refl, ◌⊎◌, some, List, [], ◌∷◌, any, false, ok, err, ok_or}
use books_of_time.Base.Rows.{pick, sort_by}
use books_of_time.Base.Time.{aware}
use books_of_time.Base.Values.{get, put}
use books_of_time.Cohort.Status.{aggregate_cohort_status, aggregate_required}
use books_of_time.Scan.Types.{CommentScanRun}
use books_of_time.Scan.Transitions.{update_scan}
use books_of_time.Scan.{new_hot_scan}
use books_of_time.Frontier.Samples.{iso}
use books_of_time.Latest.{update_latest, require_latest}
use books_of_time.Execution.Recompute.{recompute_cohort, components_of, recomputed}
use books_of_time.Store.{StoreError}
use books_of_time.Execution.Chain.{
  BrokenChain, ParentChain, counters_of, totals, add_parents, latest_cumulative_counters,
  latest_cumulative_counters_ends,
}
use books_of_time.Execution.Consumers.{
  latest_head_captured_at, head_capture_satisfies, is_consumer, consumed, cohort_ids, recompute_all,
  sync_consumers, effective_latest_scan, linked_scan_ids, sync_latest_scan_consumers,
}
use books_of_time.Execution.Current.{IsCurrent, recompute_cohort-IsCurrent}
use books_of_time.Execution.Waiting.{sync_latest_scan_consumers-none_left}
use books_of_time.Store.{SnapshotCohort, Db, parent_cycle, save_cohort, cohort_with_id}
use books_of_time.Store.Samples.{cohort, component, failed_scan, waiting, db}

abbrev recomputed_db : Db
recomputed_db = ok_or (recompute_cohort cohort 100 db) db

recomputes : recompute_cohort cohort 100 db ≡ ok recomputed_db
unfolding recompute_cohort components_of recomputed save_cohort aggregate_cohort_status
    aggregate_required sort_by
recomputes = refl

recompute_cohort-IsCurrent_example :
    (row : SnapshotCohort) × (cohort_with_id recomputed_db.cohorts 1 ≡ some row)
    × IsCurrent 100 recomputed_db row
    × (recomputed_db.components ≡ component ∷ [])
recompute_cohort-IsCurrent_example = recompute_cohort-IsCurrent cohort 100 db refl recomputes

abbrev waiting_db : Db
waiting_db = record db { components = waiting ∷ [] }

abbrev synced : ℕ × Db
synced = ok_or (sync_latest_scan_consumers iso 1 (aware 90) waiting_db) (0, waiting_db)

locks : update_latest 1 ok waiting_db.scans ≡ ok (failed_scan, waiting_db.scans)
unfolding update_latest update_scan require_latest new_hot_scan
locks = refl

syncs : sync_latest_scan_consumers iso 1 (aware 90) waiting_db ≡ ok synced
unfolding sync_latest_scan_consumers update_latest update_scan require_latest effective_latest_scan
    sync_consumers latest_cumulative_counters add_parents latest_head_captured_at
    head_capture_satisfies is_consumer consumed cohort_ids recompute_all recompute_cohort
    components_of recomputed save_cohort aggregate_cohort_status aggregate_required sort_by pick get
    put new_hot_scan
syncs = refl

sync_latest_scan_consumers-none_left_example :
    any (is_consumer (linked_scan_ids 1 failed_scan)) synced.1.components ≡ false
unfolding effective_latest_scan
sync_latest_scan_consumers-none_left_example =
    sync_latest_scan_consumers-none_left iso 1 90 waiting_db locks refl syncs

-- A scan that follows itself, and one that follows another.
abbrev looped : CommentScanRun
looped = record failed_scan { parent_scan_run_id = some 1 }

cycle : latest_cumulative_counters looped (looped ∷ []) ≡ err parent_cycle
unfolding latest_cumulative_counters add_parents new_hot_scan
cycle = refl

abbrev follower : CommentScanRun
follower = record failed_scan { id = 2; parent_scan_run_id = some 1; pages_requested = 3 }

latest_cumulative_counters_ends_example :
    ((chain : List CommentScanRun) × ParentChain (failed_scan ∷ []) (some 1) chain
      × (latest_cumulative_counters follower (failed_scan ∷ [])
          ≡ ok (totals (counters_of follower) chain)))
    ⊎ ((e : StoreError) × BrokenChain (failed_scan ∷ []) (follower.id ∷ []) (some 1) e
        × (latest_cumulative_counters follower (failed_scan ∷ []) ≡ err e))
latest_cumulative_counters_ends_example =
    latest_cumulative_counters_ends follower (failed_scan ∷ [])

-- ===== src/Latest/HeadTests.antt =====
-- The end of a baseline, and the theorem on it.
use books_of_time.Base.{◌≡◌, refl, false, Option, none, some, any, map, ok, ok_or}
use books_of_time.Base.Int.{pos}
use books_of_time.Base.Rows.{pick}
use books_of_time.Base.Text.{is_blank, is_space, strip, strip_end, len}
use books_of_time.Base.Time.{aware}
use books_of_time.Base.Values.{put, get}
use books_of_time.Queue.Samples.{alone}
use books_of_time.Queue.Enqueue.{
  enqueue, validate_scan_slice_arguments, add_task, insert_task, new_task,
}
use books_of_time.Queue.Table.{find_scan_slice, conflict}
use books_of_time.Scan.Types.{same_slot}
use books_of_time.Scan.Transitions.{
  aware_now, update_scan, require_running, require_active, non_negative, bounded_required_text,
}
use books_of_time.Scan.{new_hot_scan, find_by_scan_key, insert_scan}
use books_of_time.Frontier.Anchors.{
  normalize_anchor, anchor_value, has_anchor_shape, positive_rpid, normalized_timestamp_text,
  timestamp_text, anchor_values, normalize_anchors, normalize_anchor_set, primary_anchor,
  first_anchor,
}
use books_of_time.Frontier.Samples.{iso, strokes}
use books_of_time.Frontier.{
  compare_and_swap, frontier_update_values, swapped, is_expected, swap_rows, new_frontier,
}
use books_of_time.Latest.{update_latest, require_latest}
use books_of_time.Latest.Claim.{LatestScanClaim, lock_frontier}
use books_of_time.Latest.Head.{
  waits_for, hand_over, hand_over_waiting, has_first_slice, owner_task, owner_component,
  head_request, enqueue_head,
}
use books_of_time.Latest.Tail.{
  complete_tail_and_create_head, complete_tail, completed_parent, save_scan, check_running,
  head_plan, head_scan, finish_baseline, give_to_head, after_tail,
}
use books_of_time.Store.Keys.{slice_key, decimal, decimal_on, head_sweep_key}
use books_of_time.Latest.Plan.{new_scan}
use books_of_time.Latest.Stranded.{is_stranded, handed, complete_tail_and_create_head-stranded}
use books_of_time.Latest.Samples.{baseline, owned, baseline_db}
use books_of_time.Store.{Db}

abbrev none_claimed : Option LatestScanClaim × Db
none_claimed = (none, baseline_db)

abbrev ended : Option LatestScanClaim × Db
ended =
    ok_or (complete_tail_and_create_head iso alone 1 1 (pos 0) (aware 20) baseline_db) none_claimed

abbrev head_claim : LatestScanClaim
head_claim = elim (ended.0) [
  | none ↦ record { scan = baseline; frontier_state = owned; created = false }
  | some c ↦ c
]

ends :
    complete_tail_and_create_head iso alone 1 1 (pos 0) (aware 20) baseline_db
    ≡ ok (some head_claim, ended.1)
unfolding complete_tail_and_create_head complete_tail completed_parent save_scan check_running
    head_plan head_scan finish_baseline give_to_head after_tail waits_for hand_over
    hand_over_waiting has_first_slice owner_task owner_component head_request enqueue_head
    update_latest update_scan require_latest lock_frontier require_running new_scan compare_and_swap
    frontier_update_values swapped is_expected swap_rows aware_now non_negative
    bounded_required_text is_blank is_space strip strip_end len normalize_anchor_set
    normalize_anchors anchor_values primary_anchor first_anchor find_by_scan_key insert_scan
    same_slot strokes put pick slice_key decimal decimal_on head_sweep_key enqueue
    validate_scan_slice_arguments new_frontier new_hot_scan require_active normalize_anchor
    anchor_value has_anchor_shape positive_rpid get normalized_timestamp_text timestamp_text
    find_scan_slice add_task insert_task conflict new_task
ends = refl

complete_tail_and_create_head-stranded_example :
    (any (is_stranded 1 head_claim.scan.id) ended.1.components ≡ false)
    × (ended.1.components ≡ map (handed 1 head_claim.scan.id) baseline_db.components)
complete_tail_and_create_head-stranded_example =
    complete_tail_and_create_head-stranded iso alone 1 1 (pos 0) (aware 20) baseline_db ends

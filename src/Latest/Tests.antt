-- ===== src/Latest/Tests.antt =====
-- A claim that creates a scan, and the theorem on it.
use books_of_time.Base.{◌≡◌, refl, some, true, false, ok, ok_or}
use books_of_time.Base.Int.{pos}
use books_of_time.Base.Text.{is_blank, is_space, strip, strip_end, len}
use books_of_time.Base.Time.{aware}
use books_of_time.Scan.Types.{same_slot}
use books_of_time.Scan.Transitions.{aware_now, non_negative, bounded_required_text}
use books_of_time.Scan.Samples.{planned_scan}
use books_of_time.Scan.{find_by_scan_key, insert_scan}
use books_of_time.Frontier.Anchors.{
  anchor_values, normalize_anchors, normalize_anchor_set, primary_anchor, first_anchor,
}
use books_of_time.Frontier.Samples.{iso, frontier}
use books_of_time.Frontier.{
  compare_and_swap, frontier_update_values, swapped, is_expected, swap_rows, new_frontier,
  frontier_with_id,
}
use books_of_time.Latest.Claim.{
  Claimed, lock_frontier, active_pointer, find_active_by_bvid, swap_owner, validate_parent,
  create_scan, claim_free, claim_unowned, claim_or_join,
}
use books_of_time.Latest.Plan.{validate_latest_plan, validate_frontier_identity, new_scan}
use books_of_time.Latest.Owner.{claim_or_join-owner}
use books_of_time.Latest.Samples.{plan, tables}

abbrev claimed : Claimed
claimed =
    ok_or (claim_or_join iso (λ r. true) plan 1 (pos 0) (aware 20) tables)
      (record { scan = planned_scan; frontier_state = frontier; created = false }, tables)

claims : claim_or_join iso (λ r. true) plan 1 (pos 0) (aware 20) tables ≡ ok claimed
unfolding claim_or_join validate_latest_plan validate_frontier_identity new_scan lock_frontier
    active_pointer find_active_by_bvid swap_owner validate_parent create_scan claim_free
    claim_unowned compare_and_swap frontier_update_values swapped is_expected swap_rows new_frontier
    aware_now non_negative bounded_required_text is_blank is_space strip strip_end len
    normalize_anchor_set normalize_anchors anchor_values primary_anchor first_anchor
    find_by_scan_key insert_scan same_slot
claims = refl

claim_or_join-owner_example :
    (claimed.0.frontier_state.active_scan_run_id ≡ some claimed.0.scan.id)
    × (frontier_with_id claimed.1.frontiers.rows 1 ≡ some claimed.0.frontier_state)
    × (claimed.0.frontier_state.target_id ≡ plan.bvid)
unfolding new_frontier
claim_or_join-owner_example =
    claim_or_join-owner iso (λ r. true) plan 1 (pos 0) (aware 20) tables (refl, tt) claims

-- ===== src/Frontier/Tests.antt =====
-- The anchors of a comment, two writers of one frontier, and the theorems on them.
use books_of_time.Base.{ℕ, ◌≤◌, ◌≡◌, ◌≢◌, refl, some, [], ◌∷◌, length, ok, err, ok_or}
use books_of_time.Base.Int.{pos}
use books_of_time.Base.Text.{len}
use books_of_time.Base.Time.{aware}
use books_of_time.Base.Values.{get}
use books_of_time.Scan.Types.{frontier_version_conflict}
use books_of_time.Scan.Transitions.{aware_now, non_negative}
use books_of_time.Frontier.Anchors.{
  positive_rpid, has_anchor_shape, anchor_value, anchor_values, anchor_set, timestamp_text, count,
  normalized_timestamp_text, first_anchors, anchors_from_comments, normalize_anchor,
  normalize_anchors, normalize_anchor_set,
}
use books_of_time.Frontier.Normal.{
  IsNormal, normalize_anchor_set-IsNormal, normalize_anchor_set_idempotent,
  anchors_from_comments-normalize,
}
use books_of_time.Frontier.Versions.{IsFrontierTable, stop, compare_and_swap_exclusive}
use books_of_time.Frontier.Register.{Registers, swap_register, registers, compare_and_swap-refines}
use books_of_time.Frontier.Samples.{
  strokes, iso, iso_reads, anchor, comment, frontier, frontiers, update,
}
use books_of_time.Frontier.{
  FrontierState, FrontierTable, compare_and_swap, frontier_update_values, swapped, is_expected,
  swap_rows, new_frontier,
}

from_comments : anchors_from_comments iso (comment ∷ comment ∷ []) ≡ ok (anchor ∷ [])
unfolding anchors_from_comments first_anchors positive_rpid timestamp_text strokes
from_comments = refl

anchors_from_comments-normalize_example :
    normalize_anchor_set iso (anchor_set (anchor ∷ [])) ≡ ok (anchor ∷ [])
anchors_from_comments-normalize_example =
    anchors_from_comments-normalize iso (comment ∷ comment ∷ []) iso_reads from_comments

normal : normalize_anchor_set iso (anchor_set (anchor ∷ [])) ≡ ok (anchor ∷ [])
unfolding normalize_anchor_set normalize_anchors normalize_anchor anchor_values anchor_value get
    has_anchor_shape positive_rpid normalized_timestamp_text timestamp_text strokes len
normal = refl

normalize_anchor_set_idempotent_example :
    normalize_anchor_set iso (anchor_set (anchor ∷ [])) ≡ ok (anchor ∷ [])
normalize_anchor_set_idempotent_example =
    normalize_anchor_set_idempotent iso (anchor_set (anchor ∷ [])) iso_reads normal

normalize_anchor_set-IsNormal_example :
    IsNormal iso [] (anchor ∷ [])
    × (length (anchor ∷ []) ≡ count (anchor_values (anchor ∷ [])))
    × (length (anchor ∷ []) ≤ 5)
normalize_anchor_set-IsNormal_example =
    normalize_anchor_set-IsNormal iso (anchor_values (anchor ∷ [])) normal

abbrev written : FrontierState × FrontierTable
written = ok_or (compare_and_swap iso 1 (pos 0) update (aware 30) frontiers) (frontier, frontiers)

writes : compare_and_swap iso 1 (pos 0) update (aware 30) frontiers ≡ ok written
unfolding compare_and_swap frontier_update_values swapped is_expected swap_rows new_frontier
    aware_now non_negative normalize_anchor_set normalize_anchors normalize_anchor anchor_values
    anchor_value get has_anchor_shape positive_rpid normalized_timestamp_text timestamp_text strokes
    len
writes = refl

second_refused :
    compare_and_swap iso 1 (pos 0) update (aware 40) written.1 ≡ err frontier_version_conflict
unfolding compare_and_swap frontier_update_values swapped is_expected swap_rows new_frontier
    aware_now non_negative normalize_anchor_set normalize_anchors normalize_anchor anchor_values
    anchor_value get has_anchor_shape positive_rpid normalized_timestamp_text timestamp_text strokes
    len
second_refused = refl

frontiers-IsFrontierTable : IsFrontierTable frontiers
unfolding new_frontier
frontiers-IsFrontierTable = record { unique = (refl, tt); fresh = refl }

compare_and_swap_exclusive_example :
    compare_and_swap iso 1 (pos 0) update (aware 40) written.1 ≢ ok (frontier, frontiers)
compare_and_swap_exclusive_example =
    compare_and_swap_exclusive iso 1 0 update update (aware 30) (aware 40) frontiers-IsFrontierTable
      writes (stop written.1)

compare_and_swap-refines_example :
    (m : Registers) × (swap_register 1 0 (some 4) (registers frontiers.rows) ≡ some m)
    × ((i : ℕ) → registers written.1.rows i ≡ m i)
compare_and_swap-refines_example =
    compare_and_swap-refines iso 1 0 update (aware 30) frontiers (refl, tt) writes

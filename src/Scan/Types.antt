-- ===== src/Scan/Types.antt =====
-- The table `comment_scan_runs` of db/models.py, and the enums of its columns.
use Prim.Native.Nat.{ℕ}
use books_of_time.Base.{Bool, true, false, ◌&&◌, ◌||◌, Option, String, List}
use books_of_time.Base.Int.{ℤ}
use books_of_time.Base.Text.{str_eq}
use books_of_time.Base.Values.{Entries}

pub data CommentScanMode : Type 0 where
  hot_core hot_deep baseline_tail baseline_head_sweep incremental : CommentScanMode
  full_reconciliation segmented_reconciliation reply_refresh visibility_probe : CommentScanMode

pub data CommentScanStatus : Type 0 where
  planned running paused complete partial failed corrupted : CommentScanStatus

-- An anchor: the RPID of a comment, and its time in ISO text.
pub record Anchor : Type 0 where
  pub rpid : ℕ
  pub platform_created_at : Option String

pub record CommentScanRun : Type 0 where
  pub id : ℕ
  pub scan_key : String
  pub bvid : String
  pub oid : Option ℤ
  pub snapshot_cohort_id : Option ℕ
  pub parent_scan_run_id : Option ℕ
  pub mode : CommentScanMode
  pub status : CommentScanStatus
  pub outcome : Option String
  pub started_at : Option ℕ
  pub finished_at : Option ℕ
  pub start_frontier_rpid : Option ℕ
  pub result_frontier_rpid : Option ℕ
  pub start_anchor_set : List Anchor
  pub result_anchor_set : List Anchor
  pub start_cursor : Option String
  pub result_cursor : Option String
  pub target_pages : Option ℤ
  pub next_page_number : Option ℤ
  pub pages_requested : ℕ
  pub pages_succeeded : ℕ
  pub items_observed : ℕ
  pub raw_payloads_saved : ℕ
  pub slice_count : ℕ
  pub truncated : Bool
  pub last_error_type : Option String
  pub last_error_message : Option String
  pub reason : Option String
  pub policy_version : String
  pub extra : Entries
  pub created_at : ℕ
  pub updated_at : ℕ

-- The table, and the id that the next insert takes.
pub record ScanTable : Type 0 where
  pub rows : List CommentScanRun
  pub next_id : ℕ

-- `_LATEST_MODES`
abbrev pub is_latest_mode : CommentScanMode → Bool
is_latest_mode CommentScanMode.baseline_tail = true
is_latest_mode CommentScanMode.baseline_head_sweep = true
is_latest_mode CommentScanMode.incremental = true
is_latest_mode CommentScanMode.full_reconciliation = true
is_latest_mode CommentScanMode.segmented_reconciliation = true
is_latest_mode _ = false

-- `_TERMINAL_STATUSES`
abbrev pub is_terminal : CommentScanStatus → Bool
is_terminal CommentScanStatus.complete = true
is_terminal CommentScanStatus.partial = true
is_terminal CommentScanStatus.failed = true
is_terminal CommentScanStatus.corrupted = true
is_terminal _ = false

abbrev pub is_running : CommentScanStatus → Bool
is_running CommentScanStatus.running = true
is_running _ = false

-- `_ACTIVE_STATUSES`
abbrev pub is_active_scan : CommentScanStatus → Bool
is_active_scan CommentScanStatus.planned = true
is_active_scan CommentScanStatus.running = true
is_active_scan CommentScanStatus.paused = true
is_active_scan _ = false

-- A scan of the newest comments that is under way.
abbrev pub is_active_latest : CommentScanRun → Bool
is_active_latest r = is_latest_mode r.mode && is_active_scan r.status

-- Two rows that `scan_key` or uq_comment_scan_runs_active_latest_bvid does not let stand together.
unfoldable pub same_slot : CommentScanRun → CommentScanRun → Bool
same_slot x y =
    str_eq x.scan_key y.scan_key || is_active_latest x && is_active_latest y && str_eq x.bvid y.bvid

-- The errors of the repositories of scans.
pub data ScanError : Type 0 where
  not_aware scan_not_found scan_terminal scan_not_running oid_changed oid_not_positive : ScanError
  no_page_range page_out_of_range unexpected_page success_without_request : ScanError
  negative_count empty_text text_too_long bad_failed_status : ScanError
  bad_mode bad_target_pages bad_start_page bad_end_page page_range_mismatch : ScanError
  other_identity integrity_error not_latest bad_scan_id : ScanError
  anchors_not_list too_many_anchors bad_anchor_shape bad_rpid repeated_rpid : ScanError
  bad_timestamp_type bad_timestamp naive_timestamp : ScanError
  frontier_not_found frontier_version_conflict bad_state_id bad_expected_version : ScanError
  other_anchor no_parent other_video_scan other_frontier_kind : ScanError

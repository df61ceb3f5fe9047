-- ===== src/Latest/Plan.antt =====
-- What a scan of the newest comments is planned with, in db/latest_scan_repositories.py: the plan, its
-- checks, and the row that it gives.
use books_of_time.Base.{
  ℕ, Bool, true, false, not, ◌&&◌, Option, none, some, String, List, [], ◌==◌, Result, ok, raise_if,
  ◌>>=◌, ◌>>◌,
}
use books_of_time.Base.Int.{ℤ}
use books_of_time.Base.Text.{str_eq, is_blank}
use books_of_time.Base.Values.{Value, Entries, dict, eq_value}
use books_of_time.Scan.Types.{
  Anchor, CommentScanMode, CommentScanStatus, CommentScanRun, ScanError, is_latest_mode, empty_text,
  bad_mode, bad_scan_id, bad_rpid, other_identity, other_anchor, other_video_scan,
  other_frontier_kind,
}
use books_of_time.Scan.Transitions.{bounded_required_text}
use books_of_time.Scan.{mode_code, same_id}
use books_of_time.Frontier.Anchors.{IsoText, normalize_anchor_set, anchor_set, primary_anchor}
use books_of_time.Frontier.{FrontierState, positive_id, positive_or_none}

-- `LatestScanRunPlan`; the anchors may be any value.
pub record LatestScanRunPlan : Type 0 where
  pub scan_key : String
  pub bvid : String
  pub snapshot_cohort_id : Option ℕ
  pub parent_scan_run_id : Option ℕ
  pub mode : CommentScanMode
  pub policy_version : String
  pub reason : Option String
  pub start_frontier_rpid : Option ℤ
  pub start_anchor_set : Value
  pub start_cursor : Option String
  pub extra : Entries

abbrev pub is_video_frontier : FrontierState → Bool
is_video_frontier state =
    str_eq state.target_type "video" && str_eq state.frontier_type "latest_comments"

-- The check of the reason in `_validate_latest_plan`.
abbrev pub bounded_reason : Option String → Result ScanError (Unit {0})
bounded_reason none = ok tt
bounded_reason (some reason) = bounded_required_text reason 64 >>= λ text. ok tt

-- `_validate_latest_plan`: the normalized anchors, and the RPID of the first.
unfoldable pub validate_latest_plan :
    IsoText → LatestScanRunPlan → Result ScanError (List Anchor × Option ℕ)
validate_latest_plan iso plan = do
  raise_if (is_blank plan.scan_key) empty_text
  raise_if (is_blank plan.bvid) empty_text
  raise_if (is_blank plan.policy_version) empty_text
  raise_if (not (is_latest_mode plan.mode)) bad_mode
  positive_id plan.snapshot_cohort_id bad_scan_id
  positive_id plan.parent_scan_run_id bad_scan_id
  rpid ← positive_or_none plan.start_frontier_rpid bad_rpid
  bounded_reason plan.reason
  anchors ← normalize_anchor_set iso plan.start_anchor_set
  primary ← primary_anchor iso (anchor_set anchors)
  raise_if (not (same_id primary.0 rpid)) other_anchor
  ok (anchors, rpid)

-- `_validate_frontier_identity`
unfoldable pub validate_frontier_identity :
    FrontierState → LatestScanRunPlan → Result ScanError (Unit {0})
validate_frontier_identity state plan =
    raise_if (not (is_video_frontier state)) other_frontier_kind
    >> raise_if (not (str_eq state.target_id plan.bvid)) other_video_scan

abbrev pub same_text : Option String → Option String → Bool
same_text none none = true
same_text (some s) (some t) = str_eq s t
same_text _ _ = false

-- `stored == expected` of `_validate_scan_identity`.
unfoldable pub is_same_latest_scan :
    CommentScanRun → LatestScanRunPlan → (anchors : List Anchor) (rpid : Option ℕ) → Bool
is_same_latest_scan scan plan anchors rpid =
    str_eq scan.bvid plan.bvid
    && (same_id scan.snapshot_cohort_id plan.snapshot_cohort_id
        && (same_id scan.parent_scan_run_id plan.parent_scan_run_id
            && (mode_code scan.mode == mode_code plan.mode
                && (str_eq scan.policy_version plan.policy_version
                    && (same_text scan.reason plan.reason
                        && (same_id scan.start_frontier_rpid rpid
                            && (eq_value (anchor_set scan.start_anchor_set) (anchor_set anchors)
                                && (same_text scan.start_cursor plan.start_cursor
                                    && eq_value (dict scan.extra) (dict plan.extra)))))))))

-- `_new_scan`
unfoldable pub new_scan :
    (id now : ℕ) → LatestScanRunPlan → (anchors : List Anchor) (rpid : Option ℕ) → CommentScanRun
new_scan id now plan anchors rpid = record {
  id = id;
  scan_key = plan.scan_key;
  bvid = plan.bvid;
  oid = none;
  snapshot_cohort_id = plan.snapshot_cohort_id;
  parent_scan_run_id = plan.parent_scan_run_id;
  mode = plan.mode;
  status = CommentScanStatus.planned;
  outcome = none;
  started_at = none;
  finished_at = none;
  start_frontier_rpid = rpid;
  result_frontier_rpid = none;
  start_anchor_set = anchors;
  result_anchor_set = [];
  start_cursor = plan.start_cursor;
  result_cursor = none;
  target_pages = none;
  next_page_number = none;
  pages_requested = 0;
  pages_succeeded = 0;
  items_observed = 0;
  raw_payloads_saved = 0;
  slice_count = 0;
  truncated = false;
  last_error_type = none;
  last_error_message = none;
  reason = plan.reason;
  policy_version = plan.policy_version;
  extra = plan.extra;
  created_at = now;
  updated_at = now;
}

-- `_validate_scan_identity`
unfoldable pub validate_scan_identity :
    CommentScanRun
    → LatestScanRunPlan
    → (anchors : List Anchor) (rpid : Option ℕ) → Result ScanError (Unit {0})
validate_scan_identity scan plan anchors rpid =
    raise_if (not (is_same_latest_scan scan plan anchors rpid)) other_identity

-- `_validate_join_identity`
unfoldable pub validate_join_identity :
    CommentScanRun
    → LatestScanRunPlan
    → (anchors : List Anchor) (rpid : Option ℕ) → Result ScanError (Unit {0})
validate_join_identity scan plan anchors rpid =
    raise_if
      (str_eq scan.scan_key plan.scan_key && not (is_same_latest_scan scan plan anchors rpid))
      other_identity

-- ===== src/Latest.antt =====
-- `LatestScanRunRepository` of db/latest_scan_repositories.py, on one scan: a scan of the newest
-- comments, whose row changes as that of a hot scan does but that it has no pages. `Claim` has who
-- owns the frontier of a video, `Tail` and `Head` what follows a baseline.
pub mod Plan
pub mod Claim
pub mod Owner
pub mod Head
pub mod Tail
pub mod Stranded
pub mod Samples
mod Tests
mod HeadTests
use books_of_time.Base.{
  ℕ, zero, suc, ◌+◌, Bool, true, false, not, ◌&&◌, Option, none, some, String, List, [], ◌∷◌, leb,
  ◌==◌, if◌then◌else◌, Result, ok, err, raise_if, ◌>>=◌, ◌>>◌,
}
use books_of_time.Base.Int.{ℤ, pos, leb_ℤ}
use books_of_time.Base.Time.{Datetime}
use books_of_time.Base.Values.{Value}
use books_of_time.Scan.Types.{
  Anchor, CommentScanStatus, CommentScanRun, ScanTable, ScanError, is_latest_mode, not_latest,
  bad_scan_id, oid_not_positive, success_without_request,
}
use books_of_time.Scan.Transitions.{
  aware_now, non_negative, require_active, require_running, update_scan, run_scan, pause_scan,
  complete_scan, fail_scan, check_failed_status,
}
use books_of_time.Frontier.Anchors.{IsoText, normalize_anchor_set, anchor_set, primary_anchor}

-- `_require_latest`
unfoldable pub require_latest : CommentScanRun → Result ScanError (Unit {0})
require_latest scan = raise_if (not (is_latest_mode scan.mode)) not_latest

-- `lock`, with the update that follows it.
unfoldable pub update_latest :
    (id : ℕ)
    → (CommentScanRun → Result ScanError CommentScanRun)
    → ScanTable
    → Result ScanError (CommentScanRun × ScanTable)
update_latest id f t = raise_if (id == 0) bad_scan_id >> update_scan require_latest id f t

-- The check that `mark_running` makes of an `oid`.
abbrev pub positive_oid : Option ℤ → Result ScanError (Unit {0})
positive_oid none = ok tt
positive_oid (some oid) = raise_if (leb_ℤ oid (pos 0)) oid_not_positive

unfoldable pub run_latest :
    (now : ℕ) (oid : Option ℤ) → CommentScanRun → Result ScanError CommentScanRun
run_latest now oid scan = require_active scan >> positive_oid oid >> run_scan now oid scan

-- `record_page_requested`
unfoldable pub request_latest : (now : ℕ) → CommentScanRun → Result ScanError CommentScanRun
request_latest now scan = do
  require_running scan
  ok (record scan { pages_requested = suc scan.pages_requested; updated_at = now })

-- What the end of a page brings.
pub record LatestPage : Type 0 where
  pub cursor : Option String
  pub anchors : List Anchor
  pub frontier_rpid : Option ℕ
  pub items : ℕ
  pub payloads : ℕ

-- `record_page_succeeded`: the first page that succeeds sets the anchors of the result.
unfoldable pub succeed_latest :
    (now : ℕ) → LatestPage → CommentScanRun → Result ScanError CommentScanRun
succeed_latest now page scan = do
  require_running scan
  raise_if (leb scan.pages_requested scan.pages_succeeded) success_without_request
  ok (record scan {
    pages_succeeded = suc scan.pages_succeeded;
    items_observed = scan.items_observed + page.items;
    raw_payloads_saved = scan.raw_payloads_saved + page.payloads;
    result_cursor = page.cursor;
    result_frontier_rpid =
        if scan.pages_succeeded == 0 then page.frontier_rpid else scan.result_frontier_rpid;
    result_anchor_set = if scan.pages_succeeded == 0 then page.anchors else scan.result_anchor_set;
    updated_at = now;
  })

abbrev pub Updated : Type 0
Updated = CommentScanRun × ScanTable

unfoldable pub mark_running :
    (id : ℕ) → Datetime → (oid : Option ℤ) → ScanTable → Result ScanError Updated
mark_running id now oid t = do instant ← aware_now now; update_latest id (run_latest instant oid) t

unfoldable pub record_page_requested : (id : ℕ) → Datetime → ScanTable → Result ScanError Updated
record_page_requested id now t = do
  instant ← aware_now now
  update_latest id (request_latest instant) t

unfoldable pub record_page_succeeded :
    IsoText
    → (id : ℕ) (result_cursor : Option String) (result_anchor_set : Value)
      (items_observed raw_payloads_saved : ℤ)
    → Datetime
    → ScanTable
    → Result ScanError Updated
record_page_succeeded iso id result_cursor result_anchor_set items_observed raw_payloads_saved now
      t =
    do
      instant ← aware_now now
      n ← non_negative items_observed
      m ← non_negative raw_payloads_saved
      anchors ← normalize_anchor_set iso result_anchor_set
      primary ← primary_anchor iso (anchor_set anchors)
      update_latest id
          (succeed_latest instant (record {
            cursor = result_cursor;
            anchors = anchors;
            frontier_rpid = primary.0;
            items = n;
            payloads = m;
          }))
          t

unfoldable pub mark_paused :
    (id : ℕ) (outcome : String) → Datetime → ScanTable → Result ScanError Updated
mark_paused id outcome now t = do
  instant ← aware_now now
  update_latest id (pause_scan instant outcome) t

unfoldable pub mark_complete :
    (id : ℕ) (outcome : String) → Datetime → ScanTable → Result ScanError Updated
mark_complete id outcome now t = do
  instant ← aware_now now
  update_latest id (complete_scan instant outcome) t

unfoldable pub mark_failed :
    (id : ℕ) (outcome : String)
    → Datetime
    → (error_type error_message : Option String) → CommentScanStatus
    → (truncated : Bool) → ScanTable
    → Result ScanError Updated
mark_failed id outcome now error_type error_message status truncated t = do
  instant ← aware_now now
  check_failed_status status
  update_latest id (fail_scan instant outcome error_type error_message status truncated) t

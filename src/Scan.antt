-- ===== src/Scan.antt =====
-- `CommentScanRunRepository` of db/comment_scan_repositories.py: a scan of hot comments, page by
-- page. `Types` has the table; `Transitions` what the operations write to the row, which the scans
-- of the newest comments share.
pub mod Types
pub mod Transitions
pub mod Progress
pub mod Identity
pub mod Samples
mod Tests
use books_of_time.Base.{
  ℕ, zero, suc, ◌+◌, Bool, true, false, not, ◌&&◌, ◌||◌, Option, none, some, String, List, [], ◌∷◌,
  ◌++◌, any, filter, ltb, leb, ◌==◌, if◌then◌else◌, Result, ok, err, raise_if, ◌>>=◌, ◌>>◌,
}
use books_of_time.Base.Int.{ℤ, pos, negsuc, ltb_ℤ, leb_ℤ, eq_ℤ, ◌+ℤ◌, pos_part, neg_part}
use books_of_time.Base.Text.{str_eq, is_blank}
use books_of_time.Base.Time.{Datetime}
use books_of_time.Base.Values.{Value, Entries, int, null, get, put}
use books_of_time.Scan.Types.{
  CommentScanMode, CommentScanStatus, CommentScanRun, ScanTable, ScanError, same_slot, not_aware,
  bad_mode, bad_target_pages, bad_start_page, bad_end_page, page_range_mismatch, other_identity,
  integrity_error, empty_text,
}
use books_of_time.Scan.Transitions.{
  aware_now, update_scan, run_scan, request_page, succeed_page, fail_page, pause_scan,
  complete_scan, fail_scan, check_failed_status, non_negative, anyone,
}

-- `HotScanRunPlan`
pub record HotScanRunPlan : Type 0 where
  pub scan_key : String
  pub bvid : String
  pub snapshot_cohort_id : Option ℕ
  pub mode : CommentScanMode
  pub target_pages : ℤ
  pub start_page : ℤ
  pub end_page : ℤ
  pub policy_version : String
  pub extra : Entries

abbrev pub is_hot_mode : CommentScanMode → Bool
is_hot_mode CommentScanMode.hot_core = true
is_hot_mode CommentScanMode.hot_deep = true
is_hot_mode _ = false

-- `end - start + 1`, compared with `pages` without a subtraction.
abbrev pub is_range_of : (pages start end : ℤ) → Bool
is_range_of pages start end = eq_ℤ (pages +ℤ start) (end +ℤ pos 1)

-- `_validate_hot_plan`
unfoldable pub validate_hot_plan : HotScanRunPlan → Result ScanError (Unit {0})
validate_hot_plan plan =
    raise_if (is_blank plan.scan_key) empty_text
    >> raise_if (is_blank plan.bvid) empty_text
    >> raise_if (is_blank plan.policy_version) empty_text
    >> raise_if (not (is_hot_mode plan.mode)) bad_mode
    >> raise_if (leb_ℤ plan.target_pages (pos 0)) bad_target_pages
    >> raise_if (leb_ℤ plan.start_page (pos 0)) bad_start_page
    >> raise_if (ltb_ℤ plan.end_page plan.start_page) bad_end_page
    >> raise_if (not (is_range_of plan.target_pages plan.start_page plan.end_page))
        page_range_mismatch

-- A number for each mode, to compare them.
abbrev pub mode_code : CommentScanMode → ℕ
mode_code CommentScanMode.hot_core = 0
mode_code CommentScanMode.hot_deep = 1
mode_code CommentScanMode.baseline_tail = 2
mode_code CommentScanMode.baseline_head_sweep = 3
mode_code CommentScanMode.incremental = 4
mode_code CommentScanMode.full_reconciliation = 5
mode_code CommentScanMode.segmented_reconciliation = 6
mode_code CommentScanMode.reply_refresh = 7
mode_code CommentScanMode.visibility_probe = 8

abbrev pub same_id : Option ℕ → Option ℕ → Bool
same_id none none = true
same_id (some m) (some n) = m == n
same_id _ _ = false

abbrev pub is_int : Value → ℤ → Bool
is_int (int m) n = eq_ℤ m n
is_int _ n = false

abbrev pub is_some_int : Option ℤ → ℤ → Bool
is_some_int none n = false
is_some_int (some m) n = eq_ℤ m n

-- `stored == expected` of `_validate_hot_identity`. A page of `extra` that is a bool or a float
-- would count as the int that it equals; the repository stores ints.
unfoldable pub is_same_hot_scan : CommentScanRun → HotScanRunPlan → Bool
is_same_hot_scan scan plan =
    str_eq scan.bvid plan.bvid
    && (same_id scan.snapshot_cohort_id plan.snapshot_cohort_id
        && (mode_code scan.mode == mode_code plan.mode
            && (is_some_int scan.target_pages plan.target_pages
                && (is_int (get scan.extra "start_page" null) plan.start_page
                    && (is_int (get scan.extra "end_page" null) plan.end_page
                        && str_eq scan.policy_version plan.policy_version)))))

abbrev pub Materialized : Type 0
Materialized = (CommentScanRun × Bool) × ScanTable

-- An existing scan is returned once it has passed `_validate_hot_identity`.
abbrev pub return_hot : HotScanRunPlan → CommentScanRun → ScanTable → Result ScanError Materialized
return_hot plan existing t =
    if is_same_hot_scan existing plan then ok ((existing, false), t) else err other_identity

-- The row that `materialize_hot` adds.
unfoldable pub new_hot_scan : (id now : ℕ) → HotScanRunPlan → CommentScanRun
new_hot_scan id now plan = record {
  id = id;
  scan_key = plan.scan_key;
  bvid = plan.bvid;
  oid = none;
  snapshot_cohort_id = plan.snapshot_cohort_id;
  parent_scan_run_id = none;
  mode = plan.mode;
  status = CommentScanStatus.planned;
  outcome = none;
  started_at = none;
  finished_at = none;
  start_frontier_rpid = none;
  result_frontier_rpid = none;
  start_anchor_set = [];
  result_anchor_set = [];
  start_cursor = none;
  result_cursor = none;
  target_pages = some plan.target_pages;
  next_page_number = some plan.start_page;
  pages_requested = 0;
  pages_succeeded = 0;
  items_observed = 0;
  raw_payloads_saved = 0;
  slice_count = 0;
  truncated = false;
  last_error_type = none;
  last_error_message = none;
  reason = none;
  policy_version = plan.policy_version;
  extra = put (put plan.extra "start_page" (int plan.start_page)) "end_page" (int plan.end_page);
  created_at = now;
  updated_at = now;
}

abbrev pub first_scan : List CommentScanRun → Option CommentScanRun
first_scan [] = none
first_scan (r ∷ rs) = some r

-- `_find_by_scan_key`, of the rows that the query sees.
unfoldable pub find_by_scan_key :
    (CommentScanRun → Bool) → String → List CommentScanRun → Option CommentScanRun
find_by_scan_key sees key rows = first_scan (filter (λ r. str_eq r.scan_key key && sees r) rows)

-- The insert in a savepoint: the unique indexes are checked against every row.
unfoldable pub insert_scan : CommentScanRun → ScanTable → Result ScanError ScanTable
insert_scan scan t =
    if any (same_slot scan) t.rows
    then err integrity_error
    else ok (record { rows = t.rows ++ scan ∷ []; next_id = suc t.next_id })

-- The insert and the handler of its IntegrityError. By then the other row is committed.
unfoldable pub add_hot_scan : HotScanRunPlan → (now : ℕ) → ScanTable → Result ScanError Materialized
add_hot_scan plan now t =
    let scan = new_hot_scan t.next_id now plan in
    elim (insert_scan scan t) [
      | ok t' ↦ ok ((scan, true), t')
      | err e ↦ elim (find_by_scan_key (λ r. true) plan.scan_key t.rows) [
        | none ↦ err integrity_error
        | some existing ↦ return_hot plan existing t
      ]
    ]

-- `sees` are the rows that are committed as the first query runs.
unfoldable pub materialize_hot :
    (sees : CommentScanRun → Bool)
    → HotScanRunPlan
    → Datetime
    → ScanTable
    → Result ScanError Materialized
materialize_hot sees plan now t = do
  validate_hot_plan plan
  instant ← aware_now now
  elim (find_by_scan_key sees plan.scan_key t.rows) [
    | some existing ↦ return_hot plan existing t
    | none ↦ add_hot_scan plan instant t
  ]

abbrev pub Updated : Type 0
Updated = CommentScanRun × ScanTable

unfoldable pub mark_running :
    (id : ℕ) → Datetime → (oid : Option ℤ) → ScanTable → Result ScanError Updated
mark_running id now oid t = do
  instant ← aware_now now
  update_scan anyone id (run_scan instant oid) t

unfoldable pub record_page_requested :
    (id : ℕ) (page : ℤ) → Datetime → ScanTable → Result ScanError Updated
record_page_requested id page now t = do
  instant ← aware_now now
  update_scan anyone id (request_page instant page) t

unfoldable pub record_page_succeeded :
    (id : ℕ) (page items payloads : ℤ) → Datetime → ScanTable → Result ScanError Updated
record_page_succeeded id page items payloads now t = do
  instant ← aware_now now
  n ← non_negative items
  m ← non_negative payloads
  update_scan anyone id (succeed_page instant page n m) t

unfoldable pub record_page_failed :
    (id : ℕ) (page : ℤ) (error_type error_message : String)
    → Datetime
    → ScanTable
    → Result ScanError Updated
record_page_failed id page error_type error_message now t = do
  instant ← aware_now now
  update_scan anyone id (fail_page instant page error_type error_message) t

unfoldable pub mark_paused :
    (id : ℕ) (outcome : String) → Datetime → ScanTable → Result ScanError Updated
mark_paused id outcome now t = do
  instant ← aware_now now
  update_scan anyone id (pause_scan instant outcome) t

unfoldable pub mark_complete :
    (id : ℕ) (outcome : String) → Datetime → ScanTable → Result ScanError Updated
mark_complete id outcome now t = do
  instant ← aware_now now
  update_scan anyone id (complete_scan instant outcome) t

unfoldable pub mark_failed :
    (id : ℕ) (outcome : String)
    → Datetime
    → (error_type error_message : Option String) → CommentScanStatus
    → (truncated : Bool) → ScanTable
    → Result ScanError Updated
mark_failed id outcome now error_type error_message status truncated t = do
  instant ← aware_now now
  check_failed_status status
  update_scan anyone id (fail_scan instant outcome error_type error_message status truncated) t

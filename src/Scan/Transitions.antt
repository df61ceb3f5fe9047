-- ===== src/Scan/Transitions.antt =====
-- What the operations on a scan write to its row, and the checks before: the code that
-- db/comment_scan_repositories.py and db/latest_scan_repositories.py have in common, and the pages
-- of a hot scan.
use books_of_time.Base.{
  ℕ, suc, ◌+◌, Bool, false, not, ◌||◌, Option, none, some, String, List, [], ◌∷◌, map, ltb, leb,
  ◌==◌, if◌then◌else◌, Result, ok, err, raise_if, ◌>>=◌, ◌>>◌,
}
use books_of_time.Base.Int.{ℤ, pos, negsuc, ltb_ℤ, eq_ℤ, ◌+ℤ◌}
use books_of_time.Base.Text.{is_blank, strip, len, cut}
use books_of_time.Base.Time.{Datetime, naive, aware}
use books_of_time.Base.Values.{int, null, get}
use books_of_time.Scan.Types.{
  CommentScanStatus, CommentScanRun, ScanTable, ScanError, is_terminal, is_running, not_aware,
  scan_not_found, scan_terminal, scan_not_running, oid_changed, no_page_range, page_out_of_range,
  unexpected_page, success_without_request, negative_count, empty_text, text_too_long,
  bad_failed_status,
}

-- `_require_aware`; the instant is what the callers go on with.
unfoldable pub aware_now : Datetime → Result ScanError ℕ
aware_now (naive t) = err not_aware
aware_now (aware t) = ok t

-- `_require_non_negative`
unfoldable pub non_negative : ℤ → Result ScanError ℕ
non_negative (pos n) = ok n
non_negative (negsuc n) = err negative_count

-- `_require_active`
unfoldable pub require_active : CommentScanRun → Result ScanError (Unit {0})
require_active scan = raise_if (is_terminal scan.status) scan_terminal

-- `_require_running`
unfoldable pub require_running : CommentScanRun → Result ScanError (Unit {0})
require_running scan =
    require_active scan >> raise_if (not (is_running scan.status)) scan_not_running

-- `_bounded_required_text`
unfoldable pub bounded_required_text : String → (limit : ℕ) → Result ScanError String
bounded_required_text value limit =
    if is_blank value
    then err empty_text
    else if ltb limit (len (strip value))
    then err text_too_long
    else ok (strip value)

-- `_bounded_optional_text`
abbrev pub bounded_optional_text : Option String → (limit : ℕ) → Option String
bounded_optional_text none limit = none
bounded_optional_text (some value) limit = some (cut limit value)

-- The query of `lock`, and the flush of what `f` makes of the row. `guard` is a check of the row.
abbrev pub anyone : CommentScanRun → Result ScanError (Unit {0})
anyone scan = ok tt

abbrev pub first_with_id : List CommentScanRun → (id : ℕ) → Option CommentScanRun
first_with_id [] id = none
first_with_id (r ∷ rs) id = let later = first_with_id rs id in if r.id == id then some r else later

unfoldable pub update_scan :
    (guard : CommentScanRun → Result ScanError (Unit {0})) (id : ℕ)
    → (CommentScanRun → Result ScanError CommentScanRun)
    → ScanTable
    → Result ScanError (CommentScanRun × ScanTable)
update_scan guard id f t = elim (first_with_id t.rows id) [
  | none ↦ err scan_not_found
  | some scan ↦ guard scan >> f scan >>= λ scan'.
      ok (scan', record t { rows = map (λ r. if r.id == id then scan' else r) t.rows })
]

-- The check of `oid` in `mark_running`, and its assignment.
unfoldable pub set_oid : Option ℤ → CommentScanRun → Result ScanError CommentScanRun
set_oid none scan = ok scan
set_oid (some oid) scan = elim (scan.oid) [
  | none ↦ ok (record scan { oid = some oid })
  | some old ↦ if eq_ℤ old oid then ok (record scan { oid = some oid }) else err oid_changed
]

abbrev pub or_now : Option ℕ → ℕ → Option ℕ
or_now none now = some now
or_now (some t) now = some t

-- `mark_running`
unfoldable pub run_scan :
    (now : ℕ) (oid : Option ℤ) → CommentScanRun → Result ScanError CommentScanRun
run_scan now oid scan = do
  require_active scan
  owned ← set_oid oid scan
  ok (record owned {
    slice_count = if is_running owned.status then owned.slice_count else suc owned.slice_count;
    status = CommentScanStatus.running;
    outcome = none;
    started_at = or_now owned.started_at now;
    finished_at = none;
    updated_at = now;
  })

-- `_hot_bounds`
unfoldable pub hot_bounds : CommentScanRun → Result ScanError (ℤ × ℤ)
hot_bounds scan = elim (get scan.extra "start_page" null) [
  | int start ↦ elim (get scan.extra "end_page" null) [
    | int end ↦ ok (start, end)
    | _ ↦ err no_page_range
  ]
  | _ ↦ err no_page_range
]

-- `scan.next_page_number == page`
abbrev pub is_next : Option ℤ → ℤ → Bool
is_next none page = false
is_next (some n) page = eq_ℤ n page

-- `_validate_current_page`
unfoldable pub validate_current_page : CommentScanRun → ℤ → Result ScanError (Unit {0})
validate_current_page scan page = do
  bounds ← hot_bounds scan
  raise_if (ltb_ℤ page bounds.0 || ltb_ℤ bounds.1 page) page_out_of_range
  raise_if (not (is_next scan.next_page_number page)) unexpected_page

-- `record_page_requested`
unfoldable pub request_page :
    (now : ℕ) (page : ℤ) → CommentScanRun → Result ScanError CommentScanRun
request_page now page scan = do
  require_running scan
  validate_current_page scan page
  ok (record scan { pages_requested = suc scan.pages_requested; updated_at = now })

-- `record_page_succeeded`
unfoldable pub succeed_page :
    (now : ℕ) (page : ℤ) (items payloads : ℕ) → CommentScanRun → Result ScanError CommentScanRun
succeed_page now page items payloads scan = do
  require_running scan
  validate_current_page scan page
  raise_if (leb scan.pages_requested scan.pages_succeeded) success_without_request
  ok (record scan {
    pages_succeeded = suc scan.pages_succeeded;
    items_observed = scan.items_observed + items;
    raw_payloads_saved = scan.raw_payloads_saved + payloads;
    next_page_number = some (page +ℤ pos 1);
    updated_at = now;
  })

-- `record_page_failed`
unfoldable pub fail_page :
    (now : ℕ) (page : ℤ) (error_type error_message : String)
    → CommentScanRun
    → Result ScanError CommentScanRun
fail_page now page error_type error_message scan = do
  require_running scan
  validate_current_page scan page
  ok (record scan {
    last_error_type = some (cut 120 error_type);
    last_error_message = some (cut 2000 error_message);
    updated_at = now;
  })

-- `mark_paused`
unfoldable pub pause_scan :
    (now : ℕ) (outcome : String) → CommentScanRun → Result ScanError CommentScanRun
pause_scan now outcome scan = do
  require_running scan
  text ← bounded_required_text outcome 64
  ok (record scan {
    status = CommentScanStatus.paused;
    outcome = some text;
    finished_at = none;
    updated_at = now;
  })

-- `mark_complete`
unfoldable pub complete_scan :
    (now : ℕ) (outcome : String) → CommentScanRun → Result ScanError CommentScanRun
complete_scan now outcome scan = do
  require_running scan
  text ← bounded_required_text outcome 64
  ok (record scan {
    status = CommentScanStatus.complete;
    outcome = some text;
    finished_at = some now;
    updated_at = now;
  })

-- The check of the status in `mark_failed`.
unfoldable pub check_failed_status : CommentScanStatus → Result ScanError (Unit {0})
check_failed_status CommentScanStatus.partial = ok tt
check_failed_status CommentScanStatus.failed = ok tt
check_failed_status CommentScanStatus.corrupted = ok tt
check_failed_status _ = err bad_failed_status

-- `mark_failed`, on the row.
unfoldable pub fail_scan :
    (now : ℕ) (outcome : String) (error_type error_message : Option String)
    (status : CommentScanStatus) (truncated : Bool)
    → CommentScanRun
    → Result ScanError CommentScanRun
fail_scan now outcome error_type error_message status truncated scan = do
  require_active scan
  text ← bounded_required_text outcome 64
  ok (record scan {
    status = status;
    outcome = some text;
    last_error_type = bounded_optional_text error_type 120;
    last_error_message = bounded_optional_text error_message 2000;
    truncated = truncated;
    finished_at = some now;
    updated_at = now;
  })

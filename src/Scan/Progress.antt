-- ===== src/Scan/Progress.antt =====
-- How far a scan of hot pages is: what its row says, kept by every operation, and the status that
-- it ends in.
use books_of_time.Base.{
  ℕ, suc, ◌+◌, ◌≤◌, ◌<◌, ◌≡◌, refl, Bool, true, Option, some, String, arith, ok, err, inl, inr,
  Result-cases,
}
use books_of_time.Base.Int.{ℤ, pos, ◌+ℤ◌, ◌≤ℤ◌, pos_part}
use books_of_time.Base.Values.{int, null, get, put, get-put, get-put_other}
use books_of_time.Scan.Types.{CommentScanStatus, CommentScanRun, is_terminal, scan_terminal}
use books_of_time.Scan.Transitions.{
  require_active, require_running, hot_bounds, validate_current_page, set_oid, run_scan,
  request_page, succeed_page, fail_page, pause_scan, complete_scan, fail_scan, check_failed_status,
}
use books_of_time.Scan.{HotScanRunPlan, validate_hot_plan, new_hot_scan}

-- The pages from `start` to `finish`: as many as succeeded are behind the scan, and the next one
-- follows them.
pub record IsHotScan (start finish : ℕ) (scan : CommentScanRun) : Type 0 where
  pub starts : get scan.extra "start_page" null ≡ int (pos start)
  pub ends : get scan.extra "end_page" null ≡ int (pos finish)
  pub counts : scan.pages_succeeded ≤ scan.pages_requested
  pub next : scan.next_page_number ≡ some (pos (start + scan.pages_succeeded))
  pub within : start + scan.pages_succeeded ≤ suc finish

-- An operation on the row that returns.
pub data ScanStep : CommentScanRun → CommentScanRun → Type 0 where
  runs :
      (now : ℕ) (oid : Option ℤ) {s t : CommentScanRun} → run_scan now oid s ≡ ok t → ScanStep s t
  requests :
      (now : ℕ) (page : ℤ) {s t : CommentScanRun} → request_page now page s ≡ ok t → ScanStep s t
  succeeds :
      (now : ℕ) (page : ℤ) (items payloads : ℕ) {s t : CommentScanRun}
      → succeed_page now page items payloads s ≡ ok t
      → ScanStep s t
  fails_page :
      (now : ℕ) (page : ℤ) (type message : String) {s t : CommentScanRun}
      → fail_page now page type message s ≡ ok t
      → ScanStep s t
  pauses :
      (now : ℕ) (outcome : String) {s t : CommentScanRun}
      → pause_scan now outcome s ≡ ok t
      → ScanStep s t
  completes :
      (now : ℕ) (outcome : String) {s t : CommentScanRun}
      → complete_scan now outcome s ≡ ok t
      → ScanStep s t
  fails :
      (now : ℕ) (outcome : String) (type message : Option String) (status : CommentScanStatus)
      (truncated : Bool) {s t : CommentScanRun}
      → check_failed_status status ≡ ok tt
      → fail_scan now outcome type message status truncated s ≡ ok t
      → ScanStep s t

pub data ScanSteps : CommentScanRun → CommentScanRun → Type 0 where
  stop : (s : CommentScanRun) → ScanSteps s s
  and_then : {s t u : CommentScanRun} → ScanSteps s t → ScanStep t u → ScanSteps s u

module _ (start finish : ℕ) {s t : CommentScanRun} where
  -- A step that leaves the counts, the next page and the range alone.
  keeps :
      IsHotScan start finish s
      → t.extra ≡ s.extra
      → t.pages_succeeded ≡ s.pages_succeeded
      → s.pages_requested ≤ t.pages_requested
      → t.next_page_number ≡ s.next_page_number
      → IsHotScan start finish t
  keeps h e c r n = record {
    starts = rw e h.starts;
    ends = rw e h.ends;
    counts = ground (arith, h.counts);
    next = ground (arith, h.next);
    within = ground (arith, h.within);
  }

  succeed_page-IsHotScan :
      (now : ℕ) (page : ℤ) (items payloads : ℕ)
      → succeed_page now page items payloads s ≡ ok t
      → IsHotScan start finish s
      → IsHotScan start finish t
  unfolding succeed_page require_running require_active validate_current_page hot_bounds ◌+ℤ◌
  succeed_page-IsHotScan now page items payloads e h =
      let a = h.starts in
      let b = h.ends in
      let c = h.next in
      record {
        starts = ground arith;
        ends = ground arith;
        counts = ground arith;
        next = ground arith;
        within = ground arith;
      }

  pub ScanStep-IsHotScan : ScanStep s t → IsHotScan start finish s → IsHotScan start finish t
  unfolding run_scan set_oid request_page fail_page pause_scan complete_scan fail_scan
      require_running require_active
  ScanStep-IsHotScan (runs now oid e) h =
      keeps h (ground arith) (ground arith) (ground arith) (ground arith)
  ScanStep-IsHotScan (requests now page e) h =
      keeps h (ground arith) (ground arith) (ground arith) (ground arith)
  ScanStep-IsHotScan (succeeds now page items payloads e) h =
      succeed_page-IsHotScan now page items payloads e h
  ScanStep-IsHotScan (fails_page now page type message e) h =
      keeps h (ground arith) (ground arith) (ground arith) (ground arith)
  ScanStep-IsHotScan (pauses now outcome e) h =
      keeps h (ground arith) (ground arith) (ground arith) (ground arith)
  ScanStep-IsHotScan (completes now outcome e) h =
      keeps h (ground arith) (ground arith) (ground arith) (ground arith)
  ScanStep-IsHotScan (fails now outcome type message status truncated c e) h =
      keeps h (ground arith) (ground arith) (ground arith) (ground arith)

pub ScanSteps-IsHotScan :
    (start finish : ℕ) {s t : CommentScanRun}
    → ScanSteps s t
    → IsHotScan start finish s
    → IsHotScan start finish t
ScanSteps-IsHotScan start finish (stop s) h = h
ScanSteps-IsHotScan start finish (and_then before step) h =
    ScanStep-IsHotScan start finish step (ScanSteps-IsHotScan start finish before h)

new_hot_scan-IsHotScan :
    (id now : ℕ) (plan : HotScanRunPlan)
    → validate_hot_plan plan ≡ ok tt
    → IsHotScan (pos_part plan.start_page) (pos_part plan.end_page) (new_hot_scan id now plan)
unfolding validate_hot_plan new_hot_scan
new_hot_scan-IsHotScan id now plan v = record {
  starts =
      let e = put plan.extra "start_page" (int plan.start_page) in
      let kept = get-put_other "end_page" (int plan.end_page) null "start_page" refl e in
      let there = get-put "start_page" (int plan.start_page) null plan.extra in ground arith;
  ends =
      let e = put plan.extra "start_page" (int plan.start_page) in
      let there = get-put "end_page" (int plan.end_page) null e in ground arith;
  counts = ground arith;
  next = ground arith;
  within = ground arith;
}

-- However many operations return on the row that `materialize_hot` adds for a plan, the pages that
-- succeeded are never more than those requested or than the target, and the next page is the one
-- after them, so that it is at most one past the last.
pub hot_scan_progress :
    (id now : ℕ) (plan : HotScanRunPlan) {s : CommentScanRun}
    → validate_hot_plan plan ≡ ok tt
    → ScanSteps (new_hot_scan id now plan) s
    → (s.pages_succeeded ≤ s.pages_requested)
      × (pos s.pages_succeeded ≤ℤ plan.target_pages)
      × (s.next_page_number ≡ some (plan.start_page +ℤ pos s.pages_succeeded))
unfolding validate_hot_plan ◌+ℤ◌
hot_scan_progress id now plan v steps =
    let h =
      ScanSteps-IsHotScan (pos_part plan.start_page) (pos_part plan.end_page) steps
        (new_hot_scan-IsHotScan id now plan v) in
    let n = h.next in let w = h.within in (h.counts, ground arith, ground arith)

-- A scan that has ended refuses every operation and says so.
pub terminal_refused :
    (scan : CommentScanRun) (now : ℕ) (oid : Option ℤ) (page : ℤ) (items payloads : ℕ)
    (type message paused completed failed : String) (type' message' : Option String)
    (status : CommentScanStatus) (truncated : Bool)
    → is_terminal scan.status ≡ true
    → (run_scan now oid scan ≡ err scan_terminal)
      × (request_page now page scan ≡ err scan_terminal)
      × (succeed_page now page items payloads scan ≡ err scan_terminal)
      × (fail_page now page type message scan ≡ err scan_terminal)
      × (pause_scan now paused scan ≡ err scan_terminal)
      × (complete_scan now completed scan ≡ err scan_terminal)
      × (fail_scan now failed type' message' status truncated scan ≡ err scan_terminal)
unfolding run_scan set_oid request_page succeed_page fail_page pause_scan complete_scan fail_scan
    require_running require_active
terminal_refused scan now oid page items payloads type message paused completed failed type'
      message' status truncated h =
    rw h (refl, refl, refl, refl, refl, refl, refl)

hot_bounds-get :
    (s : CommentScanRun) (start finish : ℤ)
    → hot_bounds s ≡ ok (start, finish)
    → (get s.extra "start_page" null ≡ int start) × (get s.extra "end_page" null ≡ int finish)
unfolding hot_bounds
hot_bounds-get s start finish h = (ground arith, ground arith)

-- The bounds that `validate_current_page` reads, and that it holds the page to.
hot_bounds_elim :
    (page : ℤ) (s : CommentScanRun)
    → validate_current_page s page ≡ ok tt
    → (start : ℤ) × (finish : ℤ) × (get s.extra "start_page" null ≡ int start)
      × (get s.extra "end_page" null ≡ int finish)
      × (start ≤ℤ page)
      × (page ≤ℤ finish)
unfolding validate_current_page
hot_bounds_elim page s e = elim (Result-cases (hot_bounds s)) [
  | inl (x, b) ↦ absurd (ground arith)
  | inr (bounds, b) ↦
      let (starts, ends) = hot_bounds-get s bounds.0 bounds.1 b in
      (bounds.0, bounds.1, starts, ends, ground arith, ground arith)
]

-- A page counts as succeeded only when it is the next one, lies in the range of the scan and has
-- been requested; the scan then moves on by one page.
pub succeed_page_elim :
    (now : ℕ) (page : ℤ) (items payloads : ℕ) (s : CommentScanRun) {t : CommentScanRun}
    → succeed_page now page items payloads s ≡ ok t
    → (s.status ≡ CommentScanStatus.running)
      × (s.next_page_number ≡ some page)
      × (s.pages_succeeded < s.pages_requested)
      × ((start : ℤ) × (finish : ℤ) × (get s.extra "start_page" null ≡ int start)
          × (get s.extra "end_page" null ≡ int finish)
          × (start ≤ℤ page)
          × (page ≤ℤ finish))
      × (t.next_page_number ≡ some (page +ℤ pos 1))
      × (t.pages_succeeded ≡ suc s.pages_succeeded)
unfolding succeed_page require_running require_active validate_current_page hot_bounds ◌+ℤ◌
succeed_page_elim now page items payloads s e = (
  ground arith,
  ground arith,
  ground arith,
  hot_bounds_elim page s (ground arith),
  ground arith,
  ground arith,
)

-- ===== src/Scan/Tests.antt =====
-- A scan of two pages, and the theorems on it.
use books_of_time.Base.{◌≤◌, ◌<◌, ◌≡◌, refl, true, false, none, some, [], ◌∷◌, suc, ok, err}
use books_of_time.Base.Int.{ℤ, pos, ◌+ℤ◌, ◌≤ℤ◌}
use books_of_time.Base.Text.{is_blank, is_space, strip, strip_end, len}
use books_of_time.Base.Time.{aware}
use books_of_time.Base.Values.{int, null, get, put}
use books_of_time.Scan.Types.{
  CommentScanStatus, ScanTable, is_terminal, scan_terminal, unexpected_page,
}
use books_of_time.Scan.Transitions.{
  aware_now, require_active, require_running, hot_bounds, validate_current_page, set_oid, run_scan,
  request_page, succeed_page, fail_page, pause_scan, complete_scan, fail_scan,
  bounded_required_text,
}
use books_of_time.Scan.Samples.{
  plan, no_scans, planned_scan, running_scan, requested_scan, succeeded_scan, complete,
}
use books_of_time.Scan.Progress.{
  ScanSteps, stop, and_then, runs, requests, succeeds, hot_scan_progress, terminal_refused,
  succeed_page_elim,
}
use books_of_time.Scan.Identity.{materialize_hot_twice}
use books_of_time.Scan.{
  validate_hot_plan, new_hot_scan, materialize_hot, find_by_scan_key, add_hot_scan, insert_scan,
}

valid : validate_hot_plan plan ≡ ok tt
unfolding validate_hot_plan is_blank is_space ◌+ℤ◌
valid = refl

-- The page that is asked for must be the next one.
second_page_first : request_page 30 (pos 2) running_scan ≡ err unexpected_page
unfolding new_hot_scan run_scan set_oid request_page require_running require_active
    validate_current_page hot_bounds get put
second_page_first = refl

steps : ScanSteps planned_scan succeeded_scan
unfolding new_hot_scan run_scan set_oid request_page succeed_page require_running require_active
    validate_current_page hot_bounds get put ◌+ℤ◌
steps =
    and_then
      (and_then (and_then (stop planned_scan) (runs 20 (some (pos 7)) refl))
        (requests 30 (pos 1) refl))
      (succeeds 40 (pos 1) 20 1 refl)

hot_scan_progress_example :
    (succeeded_scan.pages_succeeded ≤ succeeded_scan.pages_requested)
    × (pos succeeded_scan.pages_succeeded ≤ℤ pos 2)
    × (succeeded_scan.next_page_number ≡ some (pos 1 +ℤ pos succeeded_scan.pages_succeeded))
hot_scan_progress_example = hot_scan_progress 1 10 plan valid steps

success : succeed_page 40 (pos 1) 20 1 requested_scan ≡ ok succeeded_scan
unfolding new_hot_scan run_scan set_oid request_page succeed_page require_running require_active
    validate_current_page hot_bounds get put ◌+ℤ◌
success = refl

succeed_page_elim_example :
    (requested_scan.status ≡ CommentScanStatus.running)
    × (requested_scan.next_page_number ≡ some (pos 1))
    × (requested_scan.pages_succeeded < requested_scan.pages_requested)
    × ((start : ℤ) × (finish : ℤ) × (get requested_scan.extra "start_page" null ≡ int start)
        × (get requested_scan.extra "end_page" null ≡ int finish)
        × (start ≤ℤ pos 1)
        × (pos 1 ≤ℤ finish))
    × (succeeded_scan.next_page_number ≡ some (pos 1 +ℤ pos 1))
    × (succeeded_scan.pages_succeeded ≡ suc requested_scan.pages_succeeded)
succeed_page_elim_example = succeed_page_elim 40 (pos 1) 20 1 requested_scan success

ended : is_terminal complete.status ≡ true
unfolding new_hot_scan run_scan set_oid request_page succeed_page require_running require_active
    validate_current_page hot_bounds get put ◌+ℤ◌ complete_scan bounded_required_text is_blank
    is_space strip strip_end len
ended = refl

terminal_refused_example :
    (run_scan 60 none complete ≡ err scan_terminal)
    × (request_page 60 (pos 2) complete ≡ err scan_terminal)
    × (succeed_page 60 (pos 2) 1 1 complete ≡ err scan_terminal)
    × (fail_page 60 (pos 2) "timeout" "slow" complete ≡ err scan_terminal)
    × (pause_scan 60 "" complete ≡ err scan_terminal)
    × (complete_scan 60 "again" complete ≡ err scan_terminal)
    × (fail_scan 60 "late" none none CommentScanStatus.failed true complete ≡ err scan_terminal)
terminal_refused_example =
    terminal_refused complete 60 none (pos 2) 1 1 "timeout" "slow" "" "again" "late" none none
      CommentScanStatus.failed true ended

abbrev one_scan : ScanTable
one_scan = record { rows = planned_scan ∷ []; next_id = 2 }

materialized :
    materialize_hot (λ r. true) plan (aware 10) no_scans ≡ ok ((planned_scan, true), one_scan)
unfolding materialize_hot validate_hot_plan is_blank is_space aware_now find_by_scan_key
    add_hot_scan insert_scan new_hot_scan ◌+ℤ◌
materialized = refl

materialize_hot_twice_example :
    materialize_hot (λ r. true) plan (aware 90) one_scan ≡ ok ((planned_scan, false), one_scan)
materialize_hot_twice_example =
    materialize_hot_twice (λ r. true) plan (aware 10) 90 no_scans tt materialized

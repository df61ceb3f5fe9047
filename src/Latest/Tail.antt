-- ===== src/Latest/Tail.antt =====
-- `complete_tail_and_create_head` of db/latest_scan_repositories.py: a baseline that has reached its
-- tail gives way to a sweep of what came in since.
use books_of_time.Base.{
  ℕ, Bool, true, false, not, ◌||◌, Option, none, some, String, List, [], ◌∷◌, map, ◌==◌,
  if◌then◌else◌, is_some, Result, ok, raise_if, ◌>>=◌, ◌>>◌,
}
use books_of_time.Base.Int.{ℤ, pos, eq_ℤ}
use books_of_time.Base.Text.{str_eq}
use books_of_time.Base.Time.{Datetime, aware}
use books_of_time.Base.Values.{int, str, seq, dict, done, empty, entry, put}
use books_of_time.Queue.Types.{Transaction}
use books_of_time.Scan.Types.{
  Anchor, CommentScanMode, CommentScanStatus, CommentScanRun, ScanTable, frontier_version_conflict,
}
use books_of_time.Scan.Transitions.{aware_now, require_running}
use books_of_time.Scan.{same_id, find_by_scan_key, insert_scan}
use books_of_time.Frontier.Anchors.{IsoText, normalize_anchor_set, anchor_set}
use books_of_time.Frontier.{FrontierState, compare_and_swap}
use books_of_time.Latest.{update_latest}
use books_of_time.Latest.Plan.{LatestScanRunPlan, new_scan, validate_scan_identity}
use books_of_time.Latest.Claim.{LatestScanClaim, lock_frontier, same_but_owner, as_int}
use books_of_time.Store.Keys.{head_sweep_key}
use books_of_time.Store.{
  Db, StoreError, scan, lift, not_baseline_tail, other_frontier, incompatible_outcome, other_owner,
}
use books_of_time.Latest.Head.{enqueue_head}

abbrev pub is_tail : CommentScanMode → Bool
is_tail CommentScanMode.baseline_tail = true
is_tail _ = false

abbrev pub is_complete : CommentScanStatus → Bool
is_complete CommentScanStatus.complete = true
is_complete _ = false

abbrev pub is_tail_reached : Option String → Bool
is_tail_reached none = false
is_tail_reached (some outcome) = str_eq outcome "tail_reached"

-- The parent that is running completes.
unfoldable pub completed_parent : (now : ℕ) → CommentScanRun → CommentScanRun
completed_parent now parent = record parent {
  status = CommentScanStatus.complete;
  outcome = some "tail_reached";
  finished_at = some now;
  updated_at = now;
}

unfoldable pub save_scan : CommentScanRun → ScanTable → ScanTable
save_scan s t = record t {
  rows = map (λ (r : CommentScanRun). if r.id == s.id then s else r) t.rows;
}

-- The owner may be the parent or, after an interruption, its child.
abbrev pub is_allowed_owner : FrontierState → CommentScanRun → Option CommentScanRun → Bool
is_allowed_owner state parent none = same_id state.active_scan_run_id (some parent.id)
is_allowed_owner state parent (some child) =
    same_id state.active_scan_run_id (some parent.id)
    || same_id state.active_scan_run_id (some child.id)

-- The checks of a parent that is running, of the version and of the owner.
unfoldable pub check_running :
    FrontierState → CommentScanRun → (expected_version : ℤ) → Result StoreError (Unit {0})
check_running state parent expected_version =
    lift scan (require_running parent)
    >> raise_if (not (eq_ℤ (pos state.version) expected_version)) (scan frontier_version_conflict)
    >> raise_if (not (same_id state.active_scan_run_id (some parent.id)))
        (scan frontier_version_conflict)

-- The plan of the sweep.
unfoldable pub head_plan : CommentScanRun → (anchors : List Anchor) → LatestScanRunPlan
head_plan parent anchors = record {
  scan_key = head_sweep_key parent.scan_key;
  bvid = parent.bvid;
  snapshot_cohort_id = parent.snapshot_cohort_id;
  parent_scan_run_id = some parent.id;
  mode = CommentScanMode.baseline_head_sweep;
  policy_version = parent.policy_version;
  reason = parent.reason;
  start_frontier_rpid = as_int parent.start_frontier_rpid;
  start_anchor_set = anchor_set anchors;
  start_cursor = some "";
  extra = parent.extra;
}

-- The sweep that is there, or a new one.
unfoldable pub head_scan :
    (now : ℕ)
    → CommentScanRun
    → (anchors : List Anchor) (existing : Option CommentScanRun) → ScanTable
    → Result StoreError (CommentScanRun × ScanTable)
head_scan now parent anchors (some child) t =
    lift scan
      (validate_scan_identity child (head_plan parent anchors) anchors parent.start_frontier_rpid)
    >> ok (child, t)
head_scan now parent anchors none t =
    let child =
      record (new_scan t.next_id now (head_plan parent anchors) anchors
        parent.start_frontier_rpid) { oid = parent.oid } in
    lift scan (insert_scan child t) >>= λ t'. ok (child, t')

-- A baseline that started without a comment is complete: the frontier has no owner and no anchors.
-- `now` is in UTC, as its ISO text.
unfoldable pub finish_baseline :
    IsoText → FrontierState → CommentScanRun → (now : ℕ) → Db → Result StoreError Db
finish_baseline iso state parent now d =
    lift scan (
      compare_and_swap iso state.id (pos state.version)
        (record {
          frontier_rpid = none;
          frontier_time = none;
          frontier_anchor_set = anchor_set [];
          active_scan_run_id = none;
          cursor = none;
          last_scan_at = some (aware now);
          last_scan_status = some "baseline_complete";
          last_scan_pages = pos parent.pages_succeeded;
          last_scan_truncated = false;
          extra =
              put (put state.extra "baseline_status" (str "baseline_complete"))
                "baseline_completed_at" (str (iso.isoformat now));
        })
        (aware now) d.frontiers)
    >>= λ swapped. ok (record d { frontiers = swapped.1 })

-- The frontier is given to the sweep, unless it has it.
unfoldable pub give_to_head :
    IsoText
    → FrontierState
    → CommentScanRun
    → (now : ℕ) → Db
    → Result StoreError (FrontierState × Db)
give_to_head iso state child now d =
    let progress = dict (
      entry (some "scan_run_id") (int (pos child.id))
        (entry (some "seen_cursors") (seq done) empty)) in
    let swapped = lift scan (
      compare_and_swap iso state.id (pos state.version)
        (record (same_but_owner state (some child.id)) {
          cursor = some "";
          last_scan_at = some (aware now);
          last_scan_status = some "planned";
          last_scan_pages = pos 0;
          last_scan_truncated = false;
          extra =
              put (put state.extra "baseline_status" (str "baseline_tail_complete"))
                "latest_scan_progress" progress;
        })
        (aware now) d.frontiers) in
    if same_id state.active_scan_run_id (some child.id)
    then ok (state, d)
    else (swapped >>= λ s. ok (s.0, record d { frontiers = s.1 }))

-- From the anchors on; `existing` is the sweep that is there.
unfoldable pub after_tail :
    IsoText
    → Transaction
    → (now : ℕ) → FrontierState
    → (parent : CommentScanRun) (existing : Option CommentScanRun) → Db
    → Result StoreError (Option LatestScanClaim × Db)
after_tail iso tx now state parent existing d =
    lift scan (normalize_anchor_set iso (anchor_set parent.start_anchor_set)) >>= λ anchors.
    elim anchors [
      | [] ↦ finish_baseline iso state parent now d >>= λ d'. ok (none, d')
      | a ∷ rest ↦ do
        head ← head_scan now parent (a ∷ rest) existing d.scans
        given ← give_to_head iso state head.0 now (record d { scans = head.1 })
        enqueue_head tx now parent.id head.0 (not (is_some existing)) given.0 given.1
    ]

-- From the check of the mode on.
unfoldable pub complete_tail :
    IsoText
    → Transaction
    → (now : ℕ) (expected_version : ℤ) → FrontierState
    → (parent : CommentScanRun) → Db
    → Result StoreError (Option LatestScanClaim × Db)
complete_tail iso tx now expected_version state parent d =
    let existing = find_by_scan_key (λ r. true) (head_sweep_key parent.scan_key) d.scans.rows in
    let completed = completed_parent now parent in
    raise_if (not (is_tail parent.mode)) not_baseline_tail
    >> raise_if (not (str_eq state.target_id parent.bvid)) other_frontier
    >> (if is_complete parent.status
        then (raise_if (not (is_tail_reached parent.outcome)) incompatible_outcome
            >> elim (parent.start_anchor_set) [
              | [] ↦ ok (none, d)
              | a ∷ rest ↦
                  raise_if (not (is_allowed_owner state parent existing)) other_owner
                  >> after_tail iso tx now state parent existing d
            ])
        else (check_running state parent expected_version
            >> after_tail iso tx now state completed existing
                (record d { scans = save_scan completed d.scans })))

-- `complete_tail_and_create_head`
unfoldable pub complete_tail_and_create_head :
    IsoText
    → Transaction
    → (parent_scan_run_id : ℕ) (state_id : ℕ) (expected_version : ℤ) → Datetime
    → Db
    → Result StoreError (Option LatestScanClaim × Db)
complete_tail_and_create_head iso tx parent_scan_run_id state_id expected_version now d = do
  instant ← lift scan (aware_now now)
  state ← lift scan (lock_frontier state_id d.frontiers)
  locked ← lift scan (update_latest parent_scan_run_id (λ r. ok r) d.scans)
  complete_tail iso tx instant expected_version state locked.0 d

-- ===== src/Latest/Claim.antt =====
-- `claim_or_join` of db/latest_scan_repositories.py: the scan that owns the frontier of a video.
use books_of_time.Base.{
  ℕ, Bool, true, false, not, ◌&&◌, Option, none, some, String, List, [], ◌∷◌, if◌then◌else◌, Result,
  ok, err, raise_if, ◌>>=◌, ◌>>◌,
}
use books_of_time.Base.Int.{ℤ, pos, eq_ℤ, ltb_ℤ}
use books_of_time.Base.Text.{str_eq}
use books_of_time.Base.Time.{Datetime, aware}
use books_of_time.Scan.Types.{
  Anchor, CommentScanRun, ScanTable, ScanError, is_terminal, is_active_latest, integrity_error,
  frontier_not_found, frontier_version_conflict, bad_expected_version, no_parent, other_video_scan,
}
use books_of_time.Scan.Transitions.{aware_now, require_active, first_with_id}
use books_of_time.Scan.{find_by_scan_key, insert_scan}
use books_of_time.Frontier.Anchors.{IsoText, anchor_set}
use books_of_time.Frontier.{
  FrontierState, FrontierTable, FrontierStateUpdate, frontier_with_id, compare_and_swap,
}
use books_of_time.Latest.{require_latest}
use books_of_time.Latest.Plan.{
  LatestScanRunPlan, validate_latest_plan, validate_frontier_identity, new_scan,
  validate_scan_identity, validate_join_identity,
}

-- The tables that a claim reads and writes.
pub record LatestTables : Type 0 where
  pub scans : ScanTable
  pub frontiers : FrontierTable

-- `LatestScanClaim`
pub record LatestScanClaim : Type 0 where
  pub scan : CommentScanRun
  pub frontier_state : FrontierState
  pub created : Bool

-- `_lock_frontier`
unfoldable pub lock_frontier : (id : ℕ) → FrontierTable → Result ScanError FrontierState
lock_frontier id t = elim (frontier_with_id t.rows id) [
  | none ↦ err frontier_not_found
  | some state ↦ ok state
]

-- `_active_pointer`
unfoldable pub active_pointer : FrontierState → ScanTable → Result ScanError (Option CommentScanRun)
active_pointer state t = elim (state.active_scan_run_id) [
  | none ↦ ok none
  | some id ↦ elim (first_with_id t.rows id) [
    | none ↦ ok none
    | some scan ↦ do
      raise_if (not (str_eq scan.bvid state.target_id)) other_video_scan
      require_latest scan
      ok (if is_terminal scan.status then none else some scan)
  ]
]

-- `_find_active_by_bvid`; the unique index lets it find one row at most.
unfoldable pub find_active_by_bvid :
    (CommentScanRun → Bool) → String → List CommentScanRun → Option CommentScanRun
find_active_by_bvid sees bvid [] = none
find_active_by_bvid sees bvid (r ∷ rs) =
    let later = find_active_by_bvid sees bvid rs in
    if is_active_latest r && str_eq r.bvid bvid && sees r then some r else later

-- `_validate_parent`
unfoldable pub validate_parent : LatestScanRunPlan → ScanTable → Result ScanError (Unit {0})
validate_parent plan t = elim (plan.parent_scan_run_id) [
  | none ↦ ok tt
  | some id ↦ elim (first_with_id t.rows id) [
    | none ↦ err no_parent
    | some parent ↦
        raise_if (not (str_eq parent.bvid plan.bvid)) other_video_scan >> require_latest parent
  ]
]

abbrev pub as_int : Option ℕ → Option ℤ
as_int none = none
as_int (some n) = some (pos n)

abbrev pub as_aware : Option ℕ → Option Datetime
as_aware none = none
as_aware (some t) = some (aware t)

-- The update that writes back what the frontier has, with another owner.
abbrev pub same_but_owner : FrontierState → (owner : Option ℕ) → FrontierStateUpdate
same_but_owner state owner = record {
  frontier_rpid = as_int state.frontier_rpid;
  frontier_time = as_aware state.frontier_time;
  frontier_anchor_set = anchor_set state.frontier_anchor_set;
  active_scan_run_id = owner;
  cursor = state.cursor;
  last_scan_at = as_aware state.last_scan_at;
  last_scan_status = state.last_scan_status;
  last_scan_pages = pos state.last_scan_pages;
  last_scan_truncated = state.last_scan_truncated;
  extra = state.extra;
}

-- `_replace_owner`, and the one with a new scan.
unfoldable pub swap_owner :
    IsoText
    → FrontierState
    → FrontierStateUpdate
    → (now : Datetime) → LatestTables
    → Result ScanError (FrontierState × LatestTables)
swap_owner iso state u now d =
    compare_and_swap iso state.id (pos state.version) u now d.frontiers >>= λ swapped.
    ok (swapped.0, record d { frontiers = swapped.1 })

unfoldable pub replace_owner :
    IsoText
    → FrontierState
    → (owner : Option ℕ) (now : Datetime) → LatestTables
    → Result ScanError (FrontierState × LatestTables)
replace_owner iso state owner now d = swap_owner iso state (same_but_owner state owner) now d

abbrev pub Claimed : Type 0
Claimed = LatestScanClaim × LatestTables

module _ (iso : IsoText) (plan : LatestScanRunPlan) (anchors : List Anchor) (rpid : Option ℕ)
    (now : Datetime) where
  -- The frontier is given to a scan that is there.
  unfoldable pub give_to : CommentScanRun → FrontierState → LatestTables → Result ScanError Claimed
  give_to scan state d = do
    swapped ← replace_owner iso state (some scan.id) now d
    ok (record { scan = scan; frontier_state = swapped.0; created = false }, swapped.1)

  -- The handler of the IntegrityError.
  unfoldable pub join_winner : FrontierState → LatestTables → Result ScanError Claimed
  join_winner state d = elim (find_active_by_bvid (λ r. true) plan.bvid d.scans.rows) [
    | some winner ↦ validate_join_identity winner plan anchors rpid >> give_to winner state d
    | none ↦ elim (find_by_scan_key (λ r. true) plan.scan_key d.scans.rows) [
      | some winner ↦ validate_join_identity winner plan anchors rpid >> give_to winner state d
      | none ↦ err integrity_error
    ]
  ]

  -- The insert of a new scan, which is then given the frontier.
  unfoldable pub create_scan :
      (instant : ℕ) → FrontierState → LatestTables → Result ScanError Claimed
  create_scan instant state d =
      let scan = new_scan d.scans.next_id instant plan anchors rpid in
      elim (insert_scan scan d.scans) [
        | err e ↦ join_winner state d
        | ok scans ↦ do
          swapped ←
              swap_owner iso state
                (record (same_but_owner state (some scan.id)) {
                  cursor = plan.start_cursor;
                  last_scan_status = some "planned";
                  last_scan_pages = pos 0;
                  last_scan_truncated = false;
                })
                now (record d { scans = scans })
          ok (record { scan = scan; frontier_state = swapped.0; created = true }, swapped.1)
      ]

  -- What follows once the frontier has no owner that is under way.
  unfoldable pub claim_free :
      (sees : CommentScanRun → Bool) (instant : ℕ)
      → FrontierState
      → LatestTables
      → Result ScanError Claimed
  claim_free sees instant state d = elim (find_active_by_bvid sees plan.bvid d.scans.rows) [
    | some active ↦ validate_join_identity active plan anchors rpid >> give_to active state d
    | none ↦ elim (find_by_scan_key sees plan.scan_key d.scans.rows) [
      | some existing ↦
          validate_scan_identity existing plan anchors rpid
          >> require_active existing
          >> give_to existing state d
      | none ↦ validate_parent plan d.scans >> create_scan instant state d
    ]
  ]

  -- A pointer to a scan that is gone or has ended is cleared first.
  unfoldable pub claim_unowned :
      (sees : CommentScanRun → Bool) (instant : ℕ)
      → FrontierState
      → LatestTables
      → Result ScanError Claimed
  claim_unowned sees instant state d = elim (state.active_scan_run_id) [
    | none ↦ claim_free sees instant state d
    | some id ↦ do
      swapped ← replace_owner iso state none now d
      claim_free sees instant swapped.0 swapped.1
  ]

-- `claim_or_join`; `sees` are the scans that are committed as its queries run.
unfoldable pub claim_or_join :
    IsoText
    → (sees : CommentScanRun → Bool) → LatestScanRunPlan
    → (state_id : ℕ) (expected_version : ℤ) → Datetime
    → LatestTables
    → Result ScanError Claimed
claim_or_join iso sees plan state_id expected_version now d = do
  valid ← validate_latest_plan iso plan
  instant ← aware_now now
  raise_if (ltb_ℤ expected_version (pos 0)) bad_expected_version
  state ← lock_frontier state_id d.frontiers
  validate_frontier_identity state plan
  owner ← active_pointer state d.scans
  elim owner [
    | some scan ↦ do
      validate_join_identity scan plan (valid.0) (valid.1)
      ok (record { scan = scan; frontier_state = state; created = false }, d)
    | none ↦ do
      raise_if (not (eq_ℤ (pos state.version) expected_version)) frontier_version_conflict
      claim_unowned iso plan (valid.0) (valid.1) now sees instant state d
  ]

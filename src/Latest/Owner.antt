-- ===== src/Latest/Owner.antt =====
-- Who owns the frontier of a video after `claim_or_join`.
use books_of_time.Base.{
  ℕ, ◌≡◌, ap, sym, ◌∙◌, inl, inr, Bool, true, false, Option, none, some, List, [], ◌∷◌, ◌==◌,
  Bool-cases, Option-cases, Result-cases, arith, ok,
}
use books_of_time.Base.Int.{ℤ, pos}
use books_of_time.Base.Text.{str_eq_iff}
use books_of_time.Base.Time.{Datetime}
use books_of_time.Scan.Types.{Anchor, CommentScanRun, ScanTable}
use books_of_time.Scan.Transitions.{aware_now, first_with_id}
use books_of_time.Frontier.Anchors.{IsoText}
use books_of_time.Frontier.{
  FrontierState, FrontierTable, FrontierStateUpdate, frontier_with_id, compare_and_swap,
}
use books_of_time.Frontier.Versions.{IsUniqueId}
use books_of_time.Scan.{find_by_scan_key, insert_scan}
use books_of_time.Latest.Claim.{
  LatestTables, LatestScanClaim, lock_frontier, active_pointer, find_active_by_bvid, same_but_owner,
  swap_owner, replace_owner, give_to, join_winner, create_scan, claim_free, claim_unowned,
  claim_or_join,
}
use books_of_time.Latest.Plan.{
  LatestScanRunPlan, validate_latest_plan, validate_frontier_identity, new_scan,
}
use books_of_time.Frontier.Owner.{IsSwapped, compare_and_swap-owner}

-- The row is in the table, whose ids are distinct.
abbrev Held : FrontierState → LatestTables → Type 0
Held state d =
    IsUniqueId d.frontiers.rows × (frontier_with_id d.frontiers.rows state.id ≡ some state)

-- The frontier that had the row `state` has, in the table, the row of the claim, of the same target,
-- and its owner is the claim's scan.
abbrev Owns : (state : FrontierState) → LatestScanClaim → LatestTables → Type 0
Owns state c d =
    (c.frontier_state.active_scan_run_id ≡ some c.scan.id)
    × (frontier_with_id d.frontiers.rows state.id ≡ some c.frontier_state)
    × (c.frontier_state.target_id ≡ state.target_id)

swapped-Owns :
    (state : FrontierState) (scan : CommentScanRun) (s : FrontierState) (d : LatestTables)
    (created : Bool)
    → IsSwapped (some scan.id) state s d.frontiers
    → Owns state (record { scan = scan; frontier_state = s; created = created }) d
swapped-Owns state scan s d created w =
    (w.owner, ap (λ (n : ℕ). frontier_with_id d.frontiers.rows n) (sym w.id) ∙ w.there, w.target)

module _ (iso : IsoText) (plan : LatestScanRunPlan) (anchors : List Anchor) (rpid : Option ℕ)
    (now : Datetime) where
  swap_owner-owner :
      (state : FrontierState) (u : FrontierStateUpdate) (d : LatestTables) {s : FrontierState}
      {d' : LatestTables}
      → Held state d
      → swap_owner iso state u now d ≡ ok (s, d')
      → IsSwapped u.active_scan_run_id state s d'.frontiers
  unfolding swap_owner
  swap_owner-owner state u d {s} {d'} w h =
      elim (Result-cases (compare_and_swap iso state.id (pos state.version) u now d.frontiers)) [
        | inl (e, c) ↦ absurd (ground arith)
        | inr (r, c) ↦
            let same : s ≡ r.0 = ground arith in
            let after : d'.frontiers ≡ r.1 = ground arith in
            rw (same, after)
              (compare_and_swap-owner iso state (pos state.version) u now d.frontiers w.0 w.1 c)
      ]

  give_to-Owns :
      (scan : CommentScanRun) (state : FrontierState) (d : LatestTables) {c : LatestScanClaim}
      {d' : LatestTables}
      → Held state d
      → give_to iso plan anchors rpid now scan state d ≡ ok (c, d')
      → Owns state c d'
  unfolding give_to replace_owner
  give_to-Owns scan state d {c} {d'} w h =
      elim (Result-cases (swap_owner iso state (same_but_owner state (some scan.id)) now d)) [
        | inl (e, s) ↦ absurd (ground arith)
        | inr (r, s) ↦
            let mine = swap_owner-owner state (same_but_owner state (some scan.id)) d w s in
            let given : c ≡ record { scan = scan; frontier_state = r.0; created = false } =
              ground arith in
            let left : d' ≡ r.1 = ground arith in
            rw (given, left) (swapped-Owns state scan r.0 r.1 false mine)
      ]

  join_winner-Owns :
      (state : FrontierState) (d : LatestTables) {c : LatestScanClaim} {d' : LatestTables}
      → Held state d
      → join_winner iso plan anchors rpid now state d ≡ ok (c, d')
      → Owns state c d'
  unfolding join_winner
  join_winner-Owns state d {c} {d'} w h =
      elim (Option-cases (find_active_by_bvid (λ r. true) plan.bvid d.scans.rows)) [
        | inr (x, f) ↦
            let g : give_to iso plan anchors rpid now x state d ≡ ok (c, d') = ground arith in
            give_to-Owns x state d w g
        | inl f ↦ elim (Option-cases (find_by_scan_key (λ r. true) plan.scan_key d.scans.rows)) [
          | inr (x, k) ↦
              let g : give_to iso plan anchors rpid now x state d ≡ ok (c, d') = ground arith in
              give_to-Owns x state d w g
          | inl k ↦ absurd (ground arith)
        ]
      ]

  create_scan-Owns :
      (instant : ℕ) (state : FrontierState) (d : LatestTables) {c : LatestScanClaim}
      {d' : LatestTables}
      → Held state d
      → create_scan iso plan anchors rpid now instant state d ≡ ok (c, d')
      → Owns state c d'
  unfolding create_scan
  create_scan-Owns instant state d {c} {d'} w h =
      let scan = new_scan d.scans.next_id instant plan anchors rpid in
      elim (Result-cases (insert_scan scan d.scans)) [
        | inl (e, i) ↦
            let g : join_winner iso plan anchors rpid now state d ≡ ok (c, d') = ground arith in
            join_winner-Owns state d w g
        | inr (scans, i) ↦
            let u = record (same_but_owner state (some scan.id)) {
              cursor = plan.start_cursor;
              last_scan_status = some "planned";
              last_scan_pages = pos 0;
              last_scan_truncated = false;
            } in
            elim (Result-cases (swap_owner iso state u now (record d { scans = scans }))) [
              | inl (e, s) ↦ absurd (ground arith)
              | inr (r, s) ↦
                  let mine = swap_owner-owner state u (record d { scans = scans }) w s in
                  let given : c ≡ record { scan = scan; frontier_state = r.0; created = true } =
                    ground arith in
                  let left : d' ≡ r.1 = ground arith in
                  rw (given, left) (swapped-Owns state scan r.0 r.1 true mine)
            ]
      ]

  claim_free-Owns :
      (sees : CommentScanRun → Bool) (instant : ℕ) (state : FrontierState) (d : LatestTables)
      {c : LatestScanClaim} {d' : LatestTables}
      → Held state d
      → claim_free iso plan anchors rpid now sees instant state d ≡ ok (c, d')
      → Owns state c d'
  unfolding claim_free
  claim_free-Owns sees instant state d {c} {d'} w h =
      elim (Option-cases (find_active_by_bvid sees plan.bvid d.scans.rows)) [
        | inr (x, f) ↦
            let g : give_to iso plan anchors rpid now x state d ≡ ok (c, d') = ground arith in
            give_to-Owns x state d w g
        | inl f ↦ elim (Option-cases (find_by_scan_key sees plan.scan_key d.scans.rows)) [
          | inr (x, k) ↦
              let g : give_to iso plan anchors rpid now x state d ≡ ok (c, d') = ground arith in
              give_to-Owns x state d w g
          | inl k ↦
              let g : create_scan iso plan anchors rpid now instant state d ≡ ok (c, d') =
                ground arith in
              create_scan-Owns instant state d w g
        ]
      ]

  claim_unowned-Owns :
      (sees : CommentScanRun → Bool) (instant : ℕ) (state : FrontierState) (d : LatestTables)
      {c : LatestScanClaim} {d' : LatestTables}
      → Held state d
      → claim_unowned iso plan anchors rpid now sees instant state d ≡ ok (c, d')
      → Owns state c d'
  unfolding claim_unowned replace_owner
  claim_unowned-Owns sees instant state d {c} {d'} w h =
      elim (Option-cases (state.active_scan_run_id)) [
        | inl n ↦
            let g : claim_free iso plan anchors rpid now sees instant state d ≡ ok (c, d') =
              ground arith in
            claim_free-Owns sees instant state d w g
        | inr (i, n) ↦
            elim (Result-cases (swap_owner iso state (same_but_owner state none) now d)) [
              | inl (e, s) ↦ absurd (ground arith)
              | inr (r, s) ↦
                  let g : claim_free iso plan anchors rpid now sees instant r.0 r.1 ≡ ok (c, d') =
                    ground arith in
                  let cleared = swap_owner-owner state (same_but_owner state none) d w s in
                  let (owner, there, target) =
                    claim_free-Owns sees instant r.0 r.1 (cleared.unique, cleared.there) g in
                  (
                    owner,
                    ap (λ (n : ℕ). frontier_with_id d'.frontiers.rows n) (sym cleared.id) ∙ there,
                    target ∙ cleared.target,
                  )
            ]
      ]

pub first_with_id-id :
    (rows : List CommentScanRun) (i : ℕ) {scan : CommentScanRun}
    → first_with_id rows i ≡ some scan
    → scan.id ≡ i
first_with_id-id [] i h = absurd (ground arith)
first_with_id-id (r ∷ rows) i {scan} h = elim (Bool-cases (r.id == i)) [
  | inl e ↦ ground arith
  | inr e ↦ let f : first_with_id rows i ≡ some scan = ground arith in first_with_id-id rows i f
]

frontier_with_id-id :
    (rows : List FrontierState) (id : ℕ) {state : FrontierState}
    → frontier_with_id rows id ≡ some state
    → state.id ≡ id
frontier_with_id-id [] id h = absurd (ground arith)
frontier_with_id-id (r ∷ rows) id {state} h = elim (Bool-cases (r.id == id)) [
  | inl e ↦ ground arith
  | inr e ↦
      let f : frontier_with_id rows id ≡ some state = ground arith in frontier_with_id-id rows id f
]

active_pointer-id :
    (state : FrontierState) (t : ScanTable) {scan : CommentScanRun}
    → active_pointer state t ≡ ok (some scan)
    → state.active_scan_run_id ≡ some scan.id
unfolding active_pointer
active_pointer-id state t h = elim (Option-cases (state.active_scan_run_id)) [
  | inl n ↦ absurd (ground arith)
  | inr (i, n) ↦ elim (Option-cases (first_with_id t.rows i)) [
    | inl f ↦ absurd (ground arith)
    | inr (x, f) ↦ let same = first_with_id-id t.rows i f in ground arith
  ]
]

lock_frontier-there :
    (id : ℕ) (t : FrontierTable) {state : FrontierState}
    → lock_frontier id t ≡ ok state
    → (state.id ≡ id) × (frontier_with_id t.rows id ≡ some state)
unfolding lock_frontier
lock_frontier-there id t {state} h = elim (Option-cases (frontier_with_id t.rows id)) [
  | inl f ↦ absurd (ground arith)
  | inr (x, f) ↦
      let same : state ≡ x = ground arith in
      let there : frontier_with_id t.rows id ≡ some state = rw same f in
      (frontier_with_id-id t.rows id there, there)
]

-- A claim that returns gives the frontier of the video to the scan that it returns, whether it
-- joins a scan, takes one over or creates it, where the ids of the frontiers are distinct: the row
-- of the frontier in the table is the one returned, its target is the video of the plan, and its
-- owner is the scan.
pub claim_or_join-owner :
    (iso : IsoText) (sees : CommentScanRun → Bool) (plan : LatestScanRunPlan) (state_id : ℕ)
    (expected_version : ℤ) (now : Datetime) (d : LatestTables) {c : LatestScanClaim}
    {d' : LatestTables}
    → IsUniqueId d.frontiers.rows
    → claim_or_join iso sees plan state_id expected_version now d ≡ ok (c, d')
    → (c.frontier_state.active_scan_run_id ≡ some c.scan.id)
      × (frontier_with_id d'.frontiers.rows state_id ≡ some c.frontier_state)
      × (c.frontier_state.target_id ≡ plan.bvid)
unfolding claim_or_join validate_frontier_identity
claim_or_join-owner iso sees plan state_id expected_version now d {c} {d'} w h =
    elim (Result-cases (validate_latest_plan iso plan)) [
      | inl (e, v) ↦ absurd (ground arith)
      | inr (valid, v) ↦ elim (Result-cases (aware_now now)) [
        | inl (e, a) ↦ absurd (ground arith)
        | inr (n, a) ↦ elim (Result-cases (lock_frontier state_id d.frontiers)) [
          | inl (e, l) ↦ absurd (ground arith)
          | inr (state, l) ↦
              let (same, there) = lock_frontier-there state_id d.frontiers l in
              let video = (str_eq_iff state.target_id plan.bvid).0 (ground arith) in
              elim (Result-cases (active_pointer state d.scans)) [
                | inl (e, p) ↦ absurd (ground arith)
                | inr (none, p) ↦
                    let g : claim_unowned iso plan (valid.0) (valid.1) now sees n state d
                        ≡ ok (c, d') =
                      ground arith in
                    let held : frontier_with_id d.frontiers.rows state.id ≡ some state =
                      ap (λ (i : ℕ). frontier_with_id d.frontiers.rows i) same ∙ there in
                    let (owner, stored, target) =
                      claim_unowned-Owns iso plan (valid.0) (valid.1) now sees n state d (w, held)
                        g in
                    let found : frontier_with_id d'.frontiers.rows state_id
                        ≡ some c.frontier_state =
                      ap (λ (i : ℕ). frontier_with_id d'.frontiers.rows i) (sym same) ∙ stored in
                    (owner, found, target ∙ video)
                | inr (some x, p) ↦
                    let mine = active_pointer-id state d.scans p in
                    let kept : c.frontier_state ≡ state = ground arith in
                    let left : d' ≡ d = ground arith in
                    (ground arith, rw (kept, left) there, rw kept video)
              ]
        ]
      ]
    ]

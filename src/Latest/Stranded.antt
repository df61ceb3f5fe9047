-- ===== src/Latest/Stranded.antt =====
-- The components that waited for a baseline, once a sweep has followed it.
use books_of_time.Base.{
  ℕ, ◌≡◌, inl, inr, refl, sym, Bool, true, false, not, ◌&&◌, ◌||◌, Option, some, List, [], ◌∷◌, map,
  any, if◌then◌else◌, Bool-cases, Option-cases, Result-cases, arith, ok, is_some,
}
use books_of_time.Base.Int.{ℤ}
use books_of_time.Base.Time.{Datetime}
use books_of_time.Cohort.Types.{CohortComponentStatus}
use books_of_time.Queue.Types.{Transaction}
use books_of_time.Scan.Types.{CommentScanRun, ScanTable}
use books_of_time.Scan.Transitions.{aware_now, first_with_id, update_scan}
use books_of_time.Latest.{update_latest}
use books_of_time.Latest.Owner.{first_with_id-id}
use books_of_time.Scan.{same_id, find_by_scan_key}
use books_of_time.Store.Keys.{head_sweep_key}
use books_of_time.Frontier.Anchors.{IsoText, normalize_anchor_set, anchor_set}
use books_of_time.Frontier.{FrontierState}
use books_of_time.Latest.Claim.{LatestScanClaim, lock_frontier}
use books_of_time.Latest.Head.{
  waits_for, hand_over, hand_over_waiting, has_first_slice, enqueue_head,
}
use books_of_time.Latest.Tail.{
  is_complete, completed_parent, save_scan, head_scan, give_to_head, finish_baseline, after_tail,
  complete_tail, complete_tail_and_create_head,
}
use books_of_time.Store.{SnapshotCohortComponent, Db}

abbrev pub is_joined : CohortComponentStatus → Bool
is_joined CohortComponentStatus.joined_active_task = true
is_joined _ = false

-- Pending, running or joined.
abbrev is_open : CohortComponentStatus → Bool
is_open CohortComponentStatus.pending = true
is_open CohortComponentStatus.running = true
is_open CohortComponentStatus.joined_active_task = true
is_open _ = false

-- A component that waits for a scan that ends, or not as one that has joined a task.
abbrev pub is_stranded : (parent child : ℕ) → SnapshotCohortComponent → Bool
is_stranded parent child c =
    waits_for parent child c
    && not (same_id c.comment_scan_run_id (some child) && is_joined c.status)

-- The component as the sweep finds it: one that waited waits for the sweep, joined.
pub handed : (parent child : ℕ) → SnapshotCohortComponent → SnapshotCohortComponent
handed parent child c =
    if (same_id c.comment_scan_run_id (some parent) || same_id c.comment_scan_run_id (some child))
      && is_open c.status
    then record c {
      comment_scan_run_id = some child;
      status = CohortComponentStatus.joined_active_task;
    }
    else c

map-handed :
    (parent child : ℕ) (cs : List SnapshotCohortComponent)
    → map
        (λ (c : SnapshotCohortComponent). if waits_for parent child c then hand_over child c else c)
        cs
      ≡ map (handed parent child) cs
unfolding hand_over handed waits_for
map-handed parent child [] = refl
map-handed parent child (c ∷ cs) = ground (arith, map-handed parent child cs)

map-stranded :
    (parent child : ℕ) (cs : List SnapshotCohortComponent)
    → any (is_stranded parent child) (
        map
          (λ (c : SnapshotCohortComponent).
            if waits_for parent child c then hand_over child c else c)
          cs)
      ≡ false
unfolding hand_over
map-stranded parent child [] = refl
map-stranded parent child (c ∷ cs) = elim (Bool-cases (waits_for parent child c)) [
  | inl w ↦ ground (arith, map-stranded parent child cs)
  | inr w ↦ ground (arith, map-stranded parent child cs)
]

abbrev HandedOver : (parent child : ℕ) → Db → Db → Type 0
HandedOver parent child d d' =
    (any (is_stranded parent child) d'.components ≡ false)
    × (d'.components ≡ map (handed parent child) d.components)

enqueue_head-stranded :
    (tx : Transaction) (now parent : ℕ) (child : CommentScanRun) (created : Bool)
    (state : FrontierState) (d : Db) {c : LatestScanClaim} {d' : Db}
    → enqueue_head tx now parent child created state d ≡ ok (some c, d')
    → HandedOver parent c.scan.id d d'
unfolding enqueue_head hand_over_waiting
enqueue_head-stranded tx now parent child created state d {c} {d'} h =
    let none_left = map-stranded parent child.id d.components in
    let mapped = map-handed parent child.id d.components in
    elim (Bool-cases (any (has_first_slice child.id) d.tasks.rows)) [
      | inl f ↦ (ground arith, ground arith)
      | inr f ↦ (ground arith, ground arith)
    ]

give_to_head-components :
    (iso : IsoText) (state : FrontierState) (child : CommentScanRun) (now : ℕ) (d : Db)
    {r : FrontierState × Db}
    → give_to_head iso state child now d ≡ ok r
    → r.1.components ≡ d.components
unfolding give_to_head
give_to_head-components iso state child now d h = ground arith

after_tail-stranded :
    (iso : IsoText) (tx : Transaction) (now : ℕ) (state : FrontierState) (parent : CommentScanRun)
    (existing : Option CommentScanRun) (d : Db) {c : LatestScanClaim} {d' : Db}
    → after_tail iso tx now state parent existing d ≡ ok (some c, d')
    → HandedOver parent.id c.scan.id d d'
unfolding after_tail
after_tail-stranded iso tx now state parent existing d {c} {d'} h =
    elim (Result-cases (normalize_anchor_set iso (anchor_set parent.start_anchor_set))) [
      | inl (e, n) ↦ absurd (ground arith)
      | inr ([], n) ↦ elim (Result-cases (finish_baseline iso state parent now d)) [
        | inl (e, f) ↦ absurd (ground arith)
        | inr (r, f) ↦ absurd (ground arith)
      ]
      | inr (a ∷ rest, n) ↦ elim (Result-cases (head_scan now parent (a ∷ rest) existing d.scans)) [
        | inl (e, s) ↦ absurd (ground arith)
        | inr (head, s) ↦
            let d₁ = record d { scans = head.1 } in
            elim (Result-cases (give_to_head iso state head.0 now d₁)) [
              | inl (e, g) ↦ absurd (ground arith)
              | inr (given, g) ↦
                  let created = not (is_some existing) in
                  let rest : enqueue_head tx now parent.id head.0 created given.0 given.1
                      ≡ ok (some c, d') =
                    ground arith in
                  let kept = give_to_head-components iso state head.0 now d₁ g in
                  let (none_left, mapped) =
                    enqueue_head-stranded tx now parent.id head.0 created given.0 given.1 rest in
                  (none_left, rw kept at mapped)
            ]
      ]
    ]

complete_tail-stranded :
    (iso : IsoText) (tx : Transaction) (now : ℕ) (expected_version : ℤ) (state : FrontierState)
    (parent : CommentScanRun) (d : Db) {c : LatestScanClaim} {d' : Db}
    → complete_tail iso tx now expected_version state parent d ≡ ok (some c, d')
    → HandedOver parent.id c.scan.id d d'
unfolding complete_tail completed_parent
complete_tail-stranded iso tx now expected_version state parent d {c} {d'} h =
    let existing = find_by_scan_key (λ r. true) (head_sweep_key parent.scan_key) d.scans.rows in
    let completed = completed_parent now parent in
    let d₁ = record d { scans = save_scan completed d.scans } in
    elim (Bool-cases (is_complete parent.status)) [
      | inl s ↦
          let g : after_tail iso tx now state parent existing d ≡ ok (some c, d') = ground arith in
          after_tail-stranded iso tx now state parent existing d g
      | inr s ↦
          let g : after_tail iso tx now state completed existing d₁ ≡ ok (some c, d') =
            ground arith in
          after_tail-stranded iso tx now state completed existing d₁ g
    ]

lock-id :
    (id : ℕ) (t : ScanTable) {r : CommentScanRun × ScanTable}
    → update_latest id (λ s. ok s) t ≡ ok r
    → r.0.id ≡ id
unfolding update_latest update_scan
lock-id id t h = elim (Option-cases (first_with_id t.rows id)) [
  | inl f ↦ absurd (ground arith)
  | inr (x, f) ↦ let same = first_with_id-id t.rows id f in ground arith
]

-- Where the end of a baseline returns the sweep that follows it, each component that was pending,
-- running or joined, of the baseline or of the sweep, is now joined and waits for the sweep, every
-- other component is as it was, and none waits for the baseline any more. It holds of a baseline
-- that ends now and of one whose end was interrupted.
pub complete_tail_and_create_head-stranded :
    (iso : IsoText) (tx : Transaction) (parent_scan_run_id state_id : ℕ) (expected_version : ℤ)
    (now : Datetime) (d : Db) {c : LatestScanClaim} {d' : Db}
    → complete_tail_and_create_head iso tx parent_scan_run_id state_id expected_version now d
      ≡ ok (some c, d')
    → (any (is_stranded parent_scan_run_id c.scan.id) d'.components ≡ false)
      × (d'.components ≡ map (handed parent_scan_run_id c.scan.id) d.components)
unfolding complete_tail_and_create_head
complete_tail_and_create_head-stranded iso tx parent_scan_run_id state_id expected_version now d {c}
      {d'} h =
    elim (Result-cases (aware_now now)) [
      | inl (e, a) ↦ absurd (ground arith)
      | inr (n, a) ↦ elim (Result-cases (lock_frontier state_id d.frontiers)) [
        | inl (e, l) ↦ absurd (ground arith)
        | inr (state, l) ↦
            elim (Result-cases (update_latest parent_scan_run_id (λ s. ok s) d.scans)) [
              | inl (e, u) ↦ absurd (ground arith)
              | inr (locked, u) ↦
                  let g : complete_tail iso tx n expected_version state locked.0 d
                      ≡ ok (some c, d') =
                    ground arith in
                  let left = complete_tail-stranded iso tx n expected_version state locked.0 d g in
                  let same = lock-id parent_scan_run_id d.scans u in rw (sym same) left
            ]
      ]
    ]

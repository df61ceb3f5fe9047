-- ===== src/Latest/Head.antt =====
-- From the components on of `complete_tail_and_create_head` of db/latest_scan_repositories.py: those
-- who waited for the baseline wait for the sweep, whose first slice becomes a task.
use books_of_time.Base.{
  ℕ, Bool, true, false, ◌&&◌, ◌||◌, Option, none, some, List, [], ◌∷◌, map, filter, any, ltb,
  if◌then◌else◌, Result, ok, ◌>>=◌,
}
use books_of_time.Base.Int.{ℤ, pos}
use books_of_time.Base.Rows.{pick}
use books_of_time.Base.Values.{Value, Entries, null, int, bool, str, empty, put}
use books_of_time.Cohort.Types.{CohortComponentStatus}
use books_of_time.Queue.Types.{fetch_latest_comments, CollectionTask, Transaction}
use books_of_time.Queue.Enqueue.{EnqueueRequest, same_int, enqueue}
use books_of_time.Scan.Types.{CommentScanRun}
use books_of_time.Scan.{same_id}
use books_of_time.Frontier.{FrontierState}
use books_of_time.Latest.Claim.{LatestScanClaim}
use books_of_time.Store.Keys.{slice_key, mode_value}
use books_of_time.Store.{SnapshotCohortComponent, Db, StoreError, queue, lift}

abbrev pub first_of : {A : Type 0} → List A → Option A
first_of [] = none
first_of (x ∷ xs) = some x

-- The components that waited for the parent or the sweep wait for the sweep.
abbrev pub is_waiting : CohortComponentStatus → Bool
is_waiting CohortComponentStatus.pending = true
is_waiting CohortComponentStatus.running = true
is_waiting CohortComponentStatus.joined_active_task = true
is_waiting _ = false

unfoldable pub waits_for : (parent child : ℕ) → SnapshotCohortComponent → Bool
waits_for parent child c =
    (same_id c.comment_scan_run_id (some parent) || same_id c.comment_scan_run_id (some child))
    && is_waiting c.status

unfoldable pub hand_over : (child : ℕ) → SnapshotCohortComponent → SnapshotCohortComponent
hand_over child c = record c {
  comment_scan_run_id = some child;
  status = CohortComponentStatus.joined_active_task;
}

unfoldable pub hand_over_waiting : (parent child : ℕ) → Db → Db
hand_over_waiting parent child d = record d {
  components =
      map
        (λ (c : SnapshotCohortComponent). if waits_for parent child c then hand_over child c else c)
        d.components;
}

unfoldable pub has_first_slice : (child : ℕ) → CollectionTask → Bool
has_first_slice child t =
    same_id t.comment_scan_run_id (some child) && same_int t.scan_slice_no (some (pos 0))

-- The first task of the parent.
unfoldable pub owner_task : (parent : ℕ) → List CollectionTask → Option CollectionTask
owner_task parent rows =
    pick (λ (s : CollectionTask) (t : CollectionTask). ltb s.id t.id)
      (filter (λ (t : CollectionTask). same_id t.comment_scan_run_id (some parent)) rows)

-- The component of that task, if it is among those handed over, else the first of them.
unfoldable pub owner_component :
    Option CollectionTask → List SnapshotCohortComponent → Option SnapshotCohortComponent
owner_component none cs = first_of cs
owner_component (some task) cs =
    elim (first_of (
      filter
        (λ (c : SnapshotCohortComponent). same_id (some c.id) task.snapshot_cohort_component_id)
        cs)) [ some c ↦ some c | none ↦ first_of cs ]

abbrev pub oid_value : Option ℤ → Value
oid_value none = null
oid_value (some n) = int n

abbrev pub inherited : Option CollectionTask → Entries
inherited none = empty
inherited (some t) = t.payload

-- The task of the first slice of the sweep.
unfoldable pub head_request :
    (now : ℕ)
    → FrontierState
    → (child : CommentScanRun) → Option CollectionTask
    → Option SnapshotCohortComponent
    → EnqueueRequest
head_request now state child owner component =
    let key = slice_key child.id child.mode 0 in
    record {
      kind = fetch_latest_comments;
      target_type = "video";
      target_id = child.bvid;
      priority = elim owner [ none ↦ pos 100 | some t ↦ t.priority ];
      payload =
          put
            (put
              (put (put (put (inherited owner) "bvid" (str child.bvid)) "aid" (oid_value child.oid))
                "scan_mode" (str (mode_value child.mode)))
              "frontier_version" (int (pos state.version)))
            "current_head_required" (bool true);
      not_before = now;
      budget_cost = elim owner [ none ↦ pos 1 | some t ↦ t.budget_cost ];
      max_retries = elim owner [ none ↦ pos 3 | some t ↦ t.max_retries ];
      idempotency_key = some key;
      snapshot_cohort_id = elim owner [ none ↦ none | some t ↦ t.snapshot_cohort_id ];
      snapshot_cohort_component_id = elim component [ none ↦ none | some c ↦ some c.id ];
      comment_scan_run_id = some child.id;
      scan_slice_no = some (pos 0);
      scan_slice_key = some key;
    }

-- From the components on: the first slice of the sweep is a task, once.
unfoldable pub enqueue_head :
    Transaction
    → (now : ℕ) (parent : ℕ) (child : CommentScanRun) (created : Bool) → FrontierState
    → Db
    → Result StoreError (Option LatestScanClaim × Db)
enqueue_head tx now parent child created state d =
    let waiting = map (hand_over child.id) (filter (waits_for parent child.id) d.components) in
    let d' = hand_over_waiting parent child.id d in
    let owner = owner_task parent d.tasks.rows in
    let request = head_request now state child owner (owner_component owner waiting) in
    if any (has_first_slice child.id) d.tasks.rows
    then ok (some (record { scan = child; frontier_state = state; created = false }), d')
    else (lift queue (enqueue tx request d.tasks) >>= λ enqueued. ok (
      some (record { scan = child; frontier_state = state; created = created }),
      record d' { tasks = enqueued.1 },
    ))

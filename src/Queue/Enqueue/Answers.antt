-- ===== src/Queue/Enqueue/Answers.antt =====
-- What the task that `enqueue` returns has to do with the request.
use mathlib.Core.List.{Memᴰ}
use books_of_time.Base.{
  ℕ, ◌≡◌, refl, ◌⊎◌, inl, inr, Bool, true, false, Option, none, some, String, List, [], ◌∷◌, ◌++◌,
  Option-cases, Result-cases, arith, ok,
}
use books_of_time.Base.Int.{ℤ}
use books_of_time.Base.Text.{str_eq_iff}
use books_of_time.Base.Rows.{filter-Memᴰ, pick-Memᴰ}
use books_of_time.Queue.Types.{TaskStatus, CollectionTask, TaskTable, Transaction}
use books_of_time.Queue.Table.{
  is_active, eq_key, older, visible, is_active_with_key, find_active_idempotency_task,
  find_scan_slice,
}
use books_of_time.Queue.Enqueue.{
  EnqueueRequest, same_id, same_int, same_text, validate_scan_slice_owner,
  validate_idempotency_owner, new_task, insert_task, return_slice, recover_by_key, recover_conflict,
  add_task, enqueue,
}
use books_of_time.Queue.Enqueue.Outcome.{enqueue-Returned}

-- The task is the slice that the request asks for, of the same owners.
abbrev pub HasSlice : EnqueueRequest → CollectionTask → Type 0
HasSlice q task =
    (key : String) × (q.scan_slice_key ≡ some key)
    × (task.scan_slice_key ≡ some key)
    × (task.snapshot_cohort_id ≡ q.snapshot_cohort_id)
    × (task.snapshot_cohort_component_id ≡ q.snapshot_cohort_component_id)
    × (task.comment_scan_run_id ≡ q.comment_scan_run_id)
    × (task.scan_slice_no ≡ q.scan_slice_no)

-- An owner that the request names is that of the task.
abbrev pub IsOwner : (stored wanted : Option ℕ) → Type 0
IsOwner stored wanted = (wanted ≡ none) ⊎ (stored ≡ wanted)

-- The request has no slice, and the task is active under its idempotency key.
abbrev pub HasKey : EnqueueRequest → CollectionTask → Type 0
HasKey q task =
    (key : String) × (q.scan_slice_key ≡ none)
    × (q.idempotency_key ≡ some key)
    × (task.idempotency_key ≡ some key)
    × (is_active task.status ≡ true)
    × IsOwner task.snapshot_cohort_id q.snapshot_cohort_id
    × IsOwner task.snapshot_cohort_component_id q.snapshot_cohort_component_id

-- The row was there, or it is behind the others and new: pending, with the request's work.
abbrev pub IsStored : EnqueueRequest → (t : TaskTable) → CollectionTask → (t' : TaskTable) → Type 0
IsStored q t task t' =
    ((t' ≡ t) × Memᴰ task t.rows)
    ⊎ ((t'.rows ≡ t.rows ++ task ∷ [])
        × (task.id ≡ t.next_id)
        × (task.status ≡ TaskStatus.pending)
        × (task.lease_owner ≡ none)
        × (task.retry_count ≡ 0)
        × (task.kind ≡ q.kind)
        × (task.target_id ≡ q.target_id)
        × (task.payload ≡ q.payload)
        × (task.not_before ≡ q.not_before)
        × (task.priority ≡ q.priority)
        × (task.max_retries ≡ q.max_retries))

same_id_eq : (a b : Option ℕ) → same_id a b ≡ true → a ≡ b
same_id_eq a b h = ground arith

same_int_eq : (a b : Option ℤ) → same_int a b ≡ true → a ≡ b
same_int_eq a b h = ground arith

same_text_eq : (a : Option String) (key : String) → same_text a (some key) ≡ true → a ≡ some key
same_text_eq none key h = cc
same_text_eq (some s) key h = let e = (str_eq_iff s key).0 h in ground arith

eq_key_eq : (a : Option String) (key : String) → eq_key a key ≡ true → a ≡ some key
eq_key_eq none key h = cc
eq_key_eq (some s) key h = let e = (str_eq_iff s key).0 h in ground arith

slice_owner_elim :
    (q : EnqueueRequest) (task : CollectionTask) (key : String)
    → q.scan_slice_key ≡ some key
    → validate_scan_slice_owner task q key ≡ ok tt
    → HasSlice q task
unfolding validate_scan_slice_owner
slice_owner_elim q task key k h = (
  key,
  k,
  same_text_eq task.scan_slice_key key (ground arith),
  same_id_eq _ _ (ground arith),
  same_id_eq _ _ (ground arith),
  same_id_eq _ _ (ground arith),
  same_int_eq _ _ (ground arith),
)

key-IsOwner_elim :
    (q : EnqueueRequest) (task : CollectionTask)
    → validate_idempotency_owner task q ≡ ok tt
    → IsOwner task.snapshot_cohort_id q.snapshot_cohort_id
      × IsOwner task.snapshot_cohort_component_id q.snapshot_cohort_component_id
unfolding validate_idempotency_owner
key-IsOwner_elim q task h = (ground arith, ground arith)

active_elim :
    (tx : Transaction) (key : String) (skip : Bool) (rows : List CollectionTask)
    {task : CollectionTask}
    → find_active_idempotency_task tx key skip rows ≡ some task
    → (task.idempotency_key ≡ some key) × (is_active task.status ≡ true)
unfolding find_active_idempotency_task
active_elim tx key skip rows {task} h =
    let a = (filter-Memᴰ (is_active_with_key key) (visible tx skip rows) (pick-Memᴰ older _ h)).1 in
    (eq_key_eq task.idempotency_key key (ground arith), ground arith)

-- The task is the slice asked for, or the active task of the key, or the request has neither.
abbrev pub Answers : EnqueueRequest → CollectionTask → Type 0
Answers q task =
    HasSlice q task ⊎ (HasKey q task ⊎ ((q.scan_slice_key ≡ none) × (q.idempotency_key ≡ none)))

module _ (tx : Transaction) (q : EnqueueRequest) (t : TaskTable) where
  key-HasKey :
      (key : String) (skip : Bool) (r : CollectionTask)
      → q.scan_slice_key ≡ none
      → q.idempotency_key ≡ some key
      → find_active_idempotency_task tx key skip t.rows ≡ some r
      → validate_idempotency_owner r q ≡ ok tt
      → HasKey q r
  key-HasKey key skip r k i f v =
      let (a, b) = active_elim tx key skip t.rows f in
      let (c, d) = key-IsOwner_elim q r v in (key, k, i, a, b, c, d)

  new_task-Answers : (id : ℕ) → Answers q (new_task tx id q)
  unfolding new_task
  new_task-Answers id = elim (Option-cases q.scan_slice_key) [
    | inr (key, k) ↦ inl (key, k, k, refl, refl, refl, refl)
    | inl k ↦ elim (Option-cases q.idempotency_key) [
      | inr (key, i) ↦ inr (inl (key, k, i, i, refl, inr refl, inr refl))
      | inl i ↦ inr (inr (k, i))
    ]
  ]

module _ (tx : Transaction) (q : EnqueueRequest) (t : TaskTable) {task : CollectionTask}
    {t' : TaskTable} where
  return_slice-HasSlice :
      (key : String) (r : CollectionTask)
      → q.scan_slice_key ≡ some key
      → return_slice q key r t ≡ ok (task, t')
      → HasSlice q task
  return_slice-HasSlice key r k h = elim (Result-cases (validate_scan_slice_owner r q key)) [
    | inl (e, v) ↦ absurd (ground arith)
    | inr (tt, v) ↦ let same : task ≡ r = ground arith in rw same (slice_owner_elim q r key k v)
  ]

  recover_by_key-Answers : recover_by_key tx q t ≡ ok (task, t') → Answers q task
  unfolding recover_by_key
  recover_by_key-Answers h = elim (Option-cases q.idempotency_key) [
    | inl i ↦ absurd (ground arith)
    | inr (key, i) ↦ elim (Option-cases (find_active_idempotency_task tx key false t.rows)) [
      | inl f ↦ absurd (ground arith)
      | inr (r, f) ↦ elim (Result-cases (validate_idempotency_owner r q)) [
        | inl (e, v) ↦ absurd (ground arith)
        | inr (tt, v) ↦ elim (Option-cases q.scan_slice_key) [
          | inl k ↦
              let same : task ≡ r = ground arith in
              inr (inl (rw same (key-HasKey tx q t key false r k i f v)))
          | inr (slice, k) ↦
              let g : return_slice q slice r t ≡ ok (task, t') = ground arith in
              inl (return_slice-HasSlice slice r k g)
        ]
      ]
    ]
  ]

  recover_conflict-Answers : recover_conflict tx q t ≡ ok (task, t') → Answers q task
  unfolding recover_conflict
  recover_conflict-Answers h = elim (Option-cases q.scan_slice_key) [
    | inl k ↦ recover_by_key-Answers (ground arith)
    | inr (slice, k) ↦ elim (Option-cases (find_scan_slice tx slice false t.rows)) [
      | inl f ↦ recover_by_key-Answers (ground arith)
      | inr (r, f) ↦
          let g : return_slice q slice r t ≡ ok (task, t') = ground arith in
          inl (return_slice-HasSlice slice r k g)
    ]
  ]

  add_task-Answers : add_task tx q t ≡ ok (task, t') → Answers q task
  unfolding add_task
  add_task-Answers h = elim (Result-cases (insert_task (new_task tx t.next_id q) t)) [
    | inl (e, i) ↦ recover_conflict-Answers (ground arith)
    | inr (added, i) ↦
        let same : task ≡ new_task tx t.next_id q = ground arith in
        rw same (new_task-Answers tx q t t.next_id)
  ]

  enqueue-answered : enqueue tx q t ≡ ok (task, t') → Answers q task
  unfolding enqueue
  enqueue-answered h = elim (Option-cases q.scan_slice_key) [
    | inr (slice, k) ↦ elim (Option-cases (find_scan_slice tx slice true t.rows)) [
      | inl f ↦ add_task-Answers (ground arith)
      | inr (r, f) ↦
          let g : return_slice q slice r t ≡ ok (task, t') = ground arith in
          inl (return_slice-HasSlice slice r k g)
    ]
    | inl k ↦ elim (Option-cases q.idempotency_key) [
      | inl i ↦ inr (inr (k, i))
      | inr (key, i) ↦ elim (Option-cases (find_active_idempotency_task tx key true t.rows)) [
        | inl f ↦ add_task-Answers (ground arith)
        | inr (r, f) ↦ elim (Result-cases (validate_idempotency_owner r q)) [
          | inl (e, v) ↦ absurd (ground arith)
          | inr (tt, v) ↦
              let same : task ≡ r = ground arith in
              inr (inl (rw same (key-HasKey tx q t key true r k i f v)))
        ]
      ]
    ]
  ]

  -- The task that `enqueue` returns answers the request: with a scan slice key it has that key and
  -- the cohort, component, scan and slice number of the request; else, with an idempotency key, it
  -- is active under that key and has the cohort and the component that the request names. It was in
  -- the table, which is then left alone, or is one new row behind the others, pending and with the
  -- kind, target, payload, time, priority and number of retries of the request.
  pub enqueue-Answers : enqueue tx q t ≡ ok (task, t') → Answers q task × IsStored q t task t'
  unfolding new_task
  enqueue-Answers h = (
    enqueue-answered h,
    elim (enqueue-Returned tx q t h) [
      | inl (same, found) ↦ inl (same, found)
      | inr (e, c, added) ↦ inr (
        rw added refl,
        rw e refl,
        rw e refl,
        rw e refl,
        rw e refl,
        rw e refl,
        rw e refl,
        rw e refl,
        rw e refl,
        rw e refl,
        rw e refl,
      )
    ],
  )

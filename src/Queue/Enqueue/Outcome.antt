-- ===== src/Queue/Enqueue/Outcome.antt =====
-- What `enqueue` has done when it returns: it found a row, or it added one.

use mathlib.Core.List.{Memᴰ}
use books_of_time.Base.Rows.{filter-Memᴰ, pick-Memᴰ}
use books_of_time.Base.{
  String, some, Option-cases, not, true, suc, ◌≡◌, ◌⊎◌, inl, inr, Bool, false, List, [], ◌∷◌, ◌++◌,
  any, arith, ok,
}
use books_of_time.Queue.Types.{CollectionTask, TaskTable, Transaction}
use books_of_time.Queue.Table.{
  conflict, visible, first, older, has_slice_key, is_active_with_key, find_scan_slice,
  find_active_idempotency_task,
}
use books_of_time.Queue.Enqueue.{
  EnqueueRequest, new_task, insert_task, recover_by_key, recover_conflict, add_task, enqueue,
}

-- The task is the new one, added behind the rows, and conflicts with none of them.
abbrev pub Added : Transaction → EnqueueRequest → TaskTable → CollectionTask → TaskTable → Type 0
Added tx q t task t' =
    (task ≡ new_task tx t.next_id q)
    × (any (conflict task) t.rows ≡ false)
    × (t' ≡ record { rows = t.rows ++ task ∷ []; next_id = suc t.next_id })

-- The table is untouched and the task is one of its rows, or the task was added.
abbrev pub Returned : Transaction → EnqueueRequest → TaskTable → CollectionTask → TaskTable → Type 0
Returned tx q t task t' = ((t' ≡ t) × Memᴰ task t.rows) ⊎ Added tx q t task t'

-- One of the two queries found the task.
abbrev Found : Transaction → TaskTable → CollectionTask → Type 0
Found tx t task =
    (key : String) × (skip : Bool) × ((find_active_idempotency_task tx key skip t.rows ≡ some task)
      ⊎ (find_scan_slice tx key skip t.rows ≡ some task))

visible-Memᴰ :
    (tx : Transaction) (skip : Bool) (rows : List CollectionTask) {task : CollectionTask}
    → Memᴰ task (visible tx skip rows)
    → Memᴰ task rows
visible-Memᴰ tx false rows m = m
visible-Memᴰ tx true rows m = (filter-Memᴰ (λ r. not (tx.unseen r)) rows m).0

first-Memᴰ :
    (rows : List CollectionTask) {task : CollectionTask} → first rows ≡ some task → Memᴰ task rows
first-Memᴰ [] h = cc
first-Memᴰ (r ∷ rs) h = Memᴰ.head (ground arith)

module _ (tx : Transaction) (key : String) (skip : Bool) (rows : List CollectionTask)
    {task : CollectionTask} where
  find_scan_slice-Memᴰ : find_scan_slice tx key skip rows ≡ some task → Memᴰ task rows
  unfolding find_scan_slice
  find_scan_slice-Memᴰ h =
      visible-Memᴰ tx skip rows (filter-Memᴰ (has_slice_key key) _ (first-Memᴰ _ h)).0

  find_active_idempotency_task-Memᴰ :
      find_active_idempotency_task tx key skip rows ≡ some task → Memᴰ task rows
  unfolding find_active_idempotency_task
  find_active_idempotency_task-Memᴰ h =
      visible-Memᴰ tx skip rows (filter-Memᴰ (is_active_with_key key) _ (pick-Memᴰ older _ h)).0

Found-Memᴰ :
    (tx : Transaction) (t : TaskTable) {task : CollectionTask} → Found tx t task → Memᴰ task t.rows
Found-Memᴰ tx t (key, skip, inl e) = find_active_idempotency_task-Memᴰ tx key skip t.rows e
Found-Memᴰ tx t (key, skip, inr e) = find_scan_slice-Memᴰ tx key skip t.rows e

module _ (tx : Transaction) (q : EnqueueRequest) (t : TaskTable) {task : CollectionTask}
    {t' : TaskTable} where
  recover_by_key-Found : recover_by_key tx q t ≡ ok (task, t') → (t' ≡ t) × Found tx t task
  unfolding recover_by_key
  recover_by_key-Found h = elim (Option-cases q.idempotency_key) [
    | inl e ↦ absurd (ground arith)
    | inr (key, e) ↦ (ground arith, (key, false, inl (ground arith)))
  ]

  recover_conflict-Found : recover_conflict tx q t ≡ ok (task, t') → (t' ≡ t) × Found tx t task
  unfolding recover_conflict
  recover_conflict-Found h = elim (Option-cases q.scan_slice_key) [
    | inl e ↦ recover_by_key-Found (ground arith)
    | inr (key, e) ↦ elim (Option-cases (find_scan_slice tx key false t.rows)) [
      | inl f ↦ recover_by_key-Found (ground arith)
      | inr (r, f) ↦ (ground arith, (key, false, inr (ground arith)))
    ]
  ]

  add_task-Found :
      add_task tx q t ≡ ok (task, t') → ((t' ≡ t) × Found tx t task) ⊎ Added tx q t task t'
  unfolding add_task insert_task
  add_task-Found h = ground (arith, recover_conflict-Found)

  enqueue-Found :
      enqueue tx q t ≡ ok (task, t') → ((t' ≡ t) × Found tx t task) ⊎ Added tx q t task t'
  unfolding enqueue insert_task
  enqueue-Found h = elim (Option-cases q.scan_slice_key) [
    | inr (key, e) ↦ elim (Option-cases (find_scan_slice tx key true t.rows)) [
      | inl g ↦ add_task-Found (ground arith)
      | inr (r, g) ↦ inl (ground arith, (key, true, inr (ground arith)))
    ]
    | inl e ↦ elim (Option-cases q.idempotency_key) [
      | inl f ↦ inr (ground arith, ground arith, ground arith)
      | inr (key, f) ↦ elim (Option-cases (find_active_idempotency_task tx key true t.rows)) [
        | inl g ↦ add_task-Found (ground arith)
        | inr (r, g) ↦ inl (ground arith, (key, true, inl (ground arith)))
      ]
    ]
  ]

  -- `enqueue` that returns has left the table alone and returns one of its rows, or has added one
  -- row, the new task, that conflicts with no row of the table.
  pub enqueue-Returned : enqueue tx q t ≡ ok (task, t') → Returned tx q t task t'
  enqueue-Returned h = elim (enqueue-Found h) [
    | inl (same, found) ↦ inl (same, Found-Memᴰ tx t found)
    | inr added ↦ inr added
  ]

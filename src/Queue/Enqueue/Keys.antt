-- ===== src/Queue/Enqueue/Keys.antt =====
-- What the keys of `enqueue` promise: to enqueue again is to find the task that is there.
use mathlib.Core.List.{Memᴰ}
use books_of_time.Base.{◌≡◌, sym, true, false, Option, none, some, String, arith, ok, err, ◌>>◌}
use books_of_time.Base.Text.{str_eq, str_eq_iff}
use books_of_time.Queue.Types.{CollectionTask, TaskTable, Transaction}
use books_of_time.Queue.Table.{eq_key, same_key, conflict, has_slice_key, is_active_with_key}
use books_of_time.Queue.Table.Unique.{
  IsTable, any-mem, find_scan_slice_unique, find_active_idempotency_task_unique,
}
use books_of_time.Queue.Enqueue.{
  EnqueueRequest, integrity_error, new_task, insert_task, recover_by_key, recover_conflict,
  add_task, enqueue, validate_scan_slice_arguments, validate_scan_slice_owner,
  validate_idempotency_owner,
}

str_eq_refl : (a b : String) → str_eq a b ≡ true → str_eq b a ≡ true
str_eq_refl a b h = (str_eq_iff b a).1 (sym ((str_eq_iff a b).0 h))

eq_key_comm :
    (j k : Option String) (key : String) → j ≡ some key → eq_key k key ≡ true → same_key j k ≡ true
eq_key_comm none k key e h = cc
eq_key_comm (some i) none key e h = cc
eq_key_comm (some i) (some k) key e h = ground (arith, str_eq_iff k key, str_eq_iff i k)

module _ (tx : Transaction) (q : EnqueueRequest) (t : TaskTable) (v : IsTable t)
    (task : CollectionTask) (m : Memᴰ task t.rows) (key : String) where
  conflict-active_key :
      q.idempotency_key ≡ some key
      → is_active_with_key key task ≡ true
      → conflict (new_task tx t.next_id q) task ≡ true
  unfolding conflict new_task
  conflict-active_key k a = ground (arith, eq_key_comm q.idempotency_key task.idempotency_key key k)

  conflict-slice_key :
      q.scan_slice_key ≡ some key
      → has_slice_key key task ≡ true
      → conflict (new_task tx t.next_id q) task ≡ true
  unfolding conflict new_task
  conflict-slice_key k a = ground (arith, eq_key_comm q.scan_slice_key task.scan_slice_key key k a)

  insert_task-conflict :
      conflict (new_task tx t.next_id q) task ≡ true
      → insert_task (new_task tx t.next_id q) t ≡ err integrity_error
  unfolding insert_task
  insert_task-conflict c = ground (arith, any-mem (conflict (new_task tx t.next_id q)) m c)

  -- `enqueue` with the idempotency key of an active task adds nothing, whatever rows its queries
  -- pass over: where the request has no scan slice key, it returns that task if the cohort and the
  -- component that the request names are the task's, and else raises.
  pub enqueue_active_key :
      q.scan_slice_key ≡ none
      → q.idempotency_key ≡ some key
      → is_active_with_key key task ≡ true
      → enqueue tx q t
        ≡ (validate_scan_slice_arguments q >> (validate_idempotency_owner task q >> ok (task, t)))
  unfolding enqueue add_task recover_conflict recover_by_key
  enqueue_active_key s k a = ground (
    arith,
    insert_task-conflict (conflict-active_key k a),
    find_active_idempotency_task_unique tx key true v.unique m a,
    find_active_idempotency_task_unique tx key false v.unique m a,
  )

  -- `enqueue` with the scan slice key of a task, active or not, adds nothing, whatever rows its
  -- queries pass over: it returns that task if the cohort, the component, the scan and the slice
  -- number are the task's, and else raises.
  pub enqueue_slice_key :
      q.scan_slice_key ≡ some key
      → has_slice_key key task ≡ true
      → enqueue tx q t ≡ (
          validate_scan_slice_arguments q >> (validate_scan_slice_owner task q key >> ok (task, t)))
  unfolding enqueue add_task recover_conflict
  enqueue_slice_key k a = ground (
    arith,
    insert_task-conflict (conflict-slice_key k a),
    find_scan_slice_unique tx key true v.unique m a,
    find_scan_slice_unique tx key false v.unique m a,
  )

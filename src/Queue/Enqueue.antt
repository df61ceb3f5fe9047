-- ===== src/Queue/Enqueue.antt =====
-- `CollectionTaskRepository.enqueue` of db/repositories.py, with its validations.
pub mod Outcome
pub mod Answers
pub mod Keys
mod Tests
use books_of_time.Base.{
  ℕ, suc, ◌+◌, Bool, true, false, not, ◌&&◌, ◌||◌, Option, none, some, String, List, [], ◌∷◌, ◌++◌,
  any, ◌==◌, if◌then◌else◌, is_some, Result, ok, err, ◌>>=◌, ◌>>◌, raise_if,
}
use books_of_time.Base.Values.{Entries}
use books_of_time.Base.Int.{ℤ, pos, negsuc, pos_part, neg_part, ltb_ℤ}
use books_of_time.Base.Text.{str_eq, is_blank}
use books_of_time.Queue.Types.{TaskKind, TaskStatus, CollectionTask, TaskTable, Transaction}
use books_of_time.Queue.Table.{conflict, find_scan_slice, find_active_idempotency_task}

-- The arguments of `enqueue`.
pub record EnqueueRequest : Type 0 where
  pub kind : TaskKind
  pub target_type : String
  pub target_id : String
  pub priority : ℤ
  pub payload : Entries
  pub not_before : ℕ
  pub budget_cost : ℤ
  pub max_retries : ℤ
  pub idempotency_key : Option String
  pub snapshot_cohort_id : Option ℕ
  pub snapshot_cohort_component_id : Option ℕ
  pub comment_scan_run_id : Option ℕ
  pub scan_slice_no : Option ℤ
  pub scan_slice_key : Option String

-- The ValueErrors, by their messages, and the IntegrityError of the database.
pub data EnqueueError : Type 0 where
  negative_slice_no empty_slice_key slice_key_without_scan : EnqueueError
  slice_of_another_scan key_of_another_component integrity_error : EnqueueError

abbrev pub is_negative : Option ℤ → Bool
is_negative none = false
is_negative (some n) = ltb_ℤ n (pos 0)

-- `_validate_scan_slice_arguments`
unfoldable pub validate_scan_slice_arguments : EnqueueRequest → Result EnqueueError (Unit {0})
validate_scan_slice_arguments q = do
  raise_if (is_negative q.scan_slice_no) negative_slice_no
  elim (q.scan_slice_key) [
    | none ↦ ok tt
    | some key ↦
        raise_if (is_blank key) empty_slice_key
        >> raise_if (not (is_some q.comment_scan_run_id) || not (is_some q.scan_slice_no))
            slice_key_without_scan
  ]

-- Equality of nullable columns, NULL being equal to NULL as None is to None.
abbrev pub same_id : Option ℕ → Option ℕ → Bool
same_id none none = true
same_id (some m) (some n) = m == n
same_id _ _ = false

abbrev pub same_text : Option String → Option String → Bool
same_text none none = true
same_text (some s) (some t) = str_eq s t
same_text _ _ = false

abbrev pub same_int : Option ℤ → Option ℤ → Bool
same_int none none = true
same_int (some m) (some n) = pos_part m == pos_part n && neg_part m == neg_part n
same_int _ _ = false

-- `_validate_scan_slice_owner`
pub validate_scan_slice_owner :
    CollectionTask → EnqueueRequest → String → Result EnqueueError (Unit {0})
validate_scan_slice_owner task q key =
    raise_if
      (not (
        same_id task.snapshot_cohort_id q.snapshot_cohort_id
        && (same_id task.snapshot_cohort_component_id q.snapshot_cohort_component_id
            && (same_id task.comment_scan_run_id q.comment_scan_run_id
                && (same_int task.scan_slice_no q.scan_slice_no
                    && same_text task.scan_slice_key (some key))))))
      slice_of_another_scan

-- `wanted is not None and stored != wanted`
abbrev pub other_than : Option ℕ → Option ℕ → Bool
other_than stored none = false
other_than stored (some n) = not (same_id stored (some n))

-- `_validate_idempotency_owner`
pub validate_idempotency_owner : CollectionTask → EnqueueRequest → Result EnqueueError (Unit {0})
validate_idempotency_owner task q =
    raise_if
      (other_than task.snapshot_cohort_id q.snapshot_cohort_id
        || other_than task.snapshot_cohort_component_id q.snapshot_cohort_component_id)
      key_of_another_component

-- The row that `enqueue` adds.
unfoldable pub new_task : Transaction → ℕ → EnqueueRequest → CollectionTask
new_task tx id q = record {
  id = id;
  kind = q.kind;
  target_type = q.target_type;
  target_id = q.target_id;
  idempotency_key = q.idempotency_key;
  priority = q.priority;
  budget_cost = q.budget_cost;
  status = TaskStatus.pending;
  payload = q.payload;
  not_before = q.not_before;
  lease_owner = none;
  lease_until = none;
  retry_count = 0;
  max_retries = q.max_retries;
  snapshot_cohort_id = q.snapshot_cohort_id;
  snapshot_cohort_component_id = q.snapshot_cohort_component_id;
  comment_scan_run_id = q.comment_scan_run_id;
  scan_slice_no = q.scan_slice_no;
  scan_slice_key = q.scan_slice_key;
  created_at = tx.clock;
  updated_at = tx.clock;
}

-- `session.add(task)` and `flush`: the indexes are checked against every row.
unfoldable pub insert_task : CollectionTask → TaskTable → Result EnqueueError TaskTable
insert_task task t =
    if any (conflict task) t.rows
    then err integrity_error
    else ok (record { rows = t.rows ++ task ∷ []; next_id = suc t.next_id })

abbrev pub Enqueued : Type 0
Enqueued = CollectionTask × TaskTable

-- A task that is there is returned once it has passed its validation.
abbrev pub return_slice :
    EnqueueRequest → String → CollectionTask → TaskTable → Result EnqueueError Enqueued
return_slice q key task t = do validate_scan_slice_owner task q key; ok (task, t)

abbrev pub return_active :
    EnqueueRequest → CollectionTask → TaskTable → Result EnqueueError Enqueued
return_active q task t = do validate_idempotency_owner task q; ok (task, t)

-- The second half of the handler of the IntegrityError, and its `raise`.
unfoldable pub recover_by_key :
    Transaction → EnqueueRequest → TaskTable → Result EnqueueError Enqueued
recover_by_key tx q t = elim (q.idempotency_key) [
  | none ↦ err integrity_error
  | some key ↦ elim (find_active_idempotency_task tx key false t.rows) [
    | none ↦ err integrity_error
    | some existing ↦ validate_idempotency_owner existing q >> elim (q.scan_slice_key) [
      | none ↦ ok (existing, t)
      | some slice ↦ return_slice q slice existing t
    ]
  ]
]

-- The handler of the IntegrityError.
unfoldable pub recover_conflict :
    Transaction → EnqueueRequest → TaskTable → Result EnqueueError Enqueued
recover_conflict tx q t = elim (q.scan_slice_key) [
  | none ↦ recover_by_key tx q t
  | some slice ↦ elim (find_scan_slice tx slice false t.rows) [
    | none ↦ recover_by_key tx q t
    | some existing ↦ return_slice q slice existing t
  ]
]

-- The insert in a savepoint, and its handler.
unfoldable pub add_task : Transaction → EnqueueRequest → TaskTable → Result EnqueueError Enqueued
add_task tx q t =
    let task = new_task tx t.next_id q in
    elim (insert_task task t) [ ok t' ↦ ok (task, t') | err e ↦ recover_conflict tx q t ]

unfoldable pub enqueue : Transaction → EnqueueRequest → TaskTable → Result EnqueueError Enqueued
enqueue tx q t = validate_scan_slice_arguments q >> elim (q.scan_slice_key) [
  | some slice ↦ elim (find_scan_slice tx slice true t.rows) [
    | some existing ↦ return_slice q slice existing t
    | none ↦ add_task tx q t
  ]
  | none ↦ elim (q.idempotency_key) [
    | none ↦ insert_task (new_task tx t.next_id q) t >>= λ t'. ok (new_task tx t.next_id q, t')
    | some key ↦ elim (find_active_idempotency_task tx key true t.rows) [
      | some existing ↦ return_active q existing t
      | none ↦ add_task tx q t
    ]
  ]
]

-- ===== src/Queue/Enqueue/Tests.antt =====
-- Tasks that are enqueued twice, and the theorems at concrete inputs.
use mathlib.Core.List.{Memᴰ}
use books_of_time.Base.{◌≡◌, refl, [], ◌∷◌, ok, ◌>>◌}
use books_of_time.Base.Rows.{pick}
use books_of_time.Queue.Types.{CollectionTask, TaskTable}
use books_of_time.Queue.Samples.{
  alone, blind, request, slice_request, task, slice_task, table, empty_table,
}
use books_of_time.Queue.Table.{conflict, find_active_idempotency_task}
use books_of_time.Queue.Table.Unique.{clash, IsTable}
use books_of_time.Queue.Enqueue.{
  new_task, insert_task, add_task, enqueue, validate_scan_slice_arguments,
  validate_idempotency_owner, validate_scan_slice_owner,
}
use books_of_time.Queue.Enqueue.Answers.{Answers, IsStored, enqueue-Answers}
use books_of_time.Queue.Enqueue.Keys.{enqueue_active_key, enqueue_slice_key}

abbrev added : CollectionTask
added = record task { created_at = 100; updated_at = 100 }

abbrev one_row : TaskTable
one_row = record { rows = added ∷ []; next_id = 2 }

first_request : enqueue alone request empty_table ≡ ok (added, one_row)
unfolding enqueue validate_scan_slice_arguments add_task insert_task new_task
    find_active_idempotency_task pick
first_request = refl

table-IsTable : IsTable table
unfolding clash conflict
table-IsTable = record { unique = (refl, (refl, tt)); fresh = refl }

enqueue-Answers_example : Answers request added × IsStored request empty_table added one_row
enqueue-Answers_example = enqueue-Answers alone request empty_table first_request

enqueue_active_key_example : enqueue blind request table ≡ (
    validate_scan_slice_arguments request
    >> (validate_idempotency_owner task request >> ok (task, table)))
enqueue_active_key_example =
    enqueue_active_key blind request table table-IsTable task (Memᴰ.head refl) "stats:BV1" refl refl
      refl

enqueue_slice_key_example : enqueue blind slice_request table ≡ (
    validate_scan_slice_arguments slice_request
    >> (validate_scan_slice_owner slice_task slice_request "7:hot_core:0"
        >> ok (slice_task, table)))
enqueue_slice_key_example =
    enqueue_slice_key blind slice_request table table-IsTable slice_task
      (Memᴰ.tail (Memᴰ.head refl)) "7:hot_core:0" refl refl

-- ===== src/Queue/Lease/Tests.antt =====
-- Leases on concrete tables, and the theorems at concrete inputs.
use mathlib.Core.List.{Memᴰ}
use books_of_time.Base.{
  any, ok, ◌+◌, ◌*◌, ◌≤◌, ◌≡◌, ◌≢◌, refl, ◌⊎◌, false, none, some, [], ◌∷◌, map, filter, length,
  ◌==◌, if◌then◌else◌, arith, err,
}
use books_of_time.Base.Int.{◌<ℤ◌}
use books_of_time.Base.Rows.{pick, sort_by}
use books_of_time.Base.Time.{second}
use books_of_time.Queue.Types.{TaskStatus, CollectionTask, TaskTable}
use books_of_time.Queue.Samples.{
  alone, blind, task, slice_task, failed_task, table, table_with_failed,
}
use books_of_time.Queue.Table.{conflict, update_chosen}
use books_of_time.Queue.Table.Unique.{clash, IsTable}
use books_of_time.Queue.Lease.{
  is_due, more_urgent, leased, lease_next, is_expired, released, recover_expired_leases,
  is_retryable, retried, violates, integrity_error, retry_failed, list_tasks, listed_earlier,
  ends_earlier, touched_earlier,
}
use books_of_time.Queue.Lease.Choice.{lease_next-most_urgent, lease_next-IsTable}
use books_of_time.Queue.Lease.Exclusive.{stop, and_then, recovers, lease_next_exclusive}
use books_of_time.Queue.Lease.Recovery.{
  is_overdue, put_back, recover_expired_leases-map, is_lost, start_over, retry_failed-map,
}

table-IsTable : IsTable table
unfolding clash conflict
table-IsTable = record { unique = (refl, (refl, tt)); fresh = refl }

-- The lease of the second task ended at 90: at 100 it is pending again, and at 80 it is not.
recovery :
    (recover_expired_leases alone 100 10 table
      ≡ (1, record table { rows = task ∷ released alone 100 slice_task ∷ [] }))
    × (recover_expired_leases alone 80 10 table ≡ (0, table))
    × (recover_expired_leases blind 100 10 table ≡ (0, table))
unfolding recover_expired_leases is_expired released update_chosen ends_earlier sort_by
recovery = (refl, refl, refl)

-- The failed task shares its key with a pending one.
retry_refused : retry_failed alone 100 none none 10 table_with_failed ≡ err integrity_error
unfolding retry_failed is_retryable retried update_chosen touched_earlier sort_by violates conflict
retry_refused = refl

listed : list_tasks (some TaskStatus.running) 5 table ≡ slice_task ∷ []
unfolding list_tasks listed_earlier sort_by
listed = refl

lease_next-most_urgent_example :
    (x : CollectionTask) × (t' : TaskTable) × (lease_next alone "worker-b" 100 120 table
      ≡ (some x, t'))
    × (x.status ≡ TaskStatus.running)
    × (x.lease_owner ≡ some "worker-b")
    × (x.lease_until ≡ some (100 + 120 * second))
    × ((task.priority <ℤ x.priority)
        ⊎ ((task.priority ≡ x.priority) × (x.created_at ≤ task.created_at)))
lease_next-most_urgent_example =
    lease_next-most_urgent alone "worker-b" 100 120 table task (Memᴰ.head refl) refl (omega arith)
      refl

abbrev given : CollectionTask
given = record task {
  status = TaskStatus.running;
  lease_owner = some "worker-b";
  lease_until = some 120_000_100;
  updated_at = 100;
}

abbrev after_lease : TaskTable
after_lease = record table { rows = given ∷ slice_task ∷ [] }

lease_given : lease_next alone "worker-b" 100 120 table ≡ (some given, after_lease)
unfolding lease_next leased is_due more_urgent update_chosen pick
lease_given = refl

lease_next-IsTable_example :
    (r : CollectionTask) × Memᴰ r table.rows
    × (r.status ≡ TaskStatus.pending)
    × (r.not_before ≤ 100)
    × (alone.unseen r ≡ false)
    × (given ≡ leased alone "worker-b" 100 120 r)
    × (after_lease.rows ≡ map (λ x. if r.id == x.id then given else x) table.rows)
    × IsTable after_lease
lease_next-IsTable_example =
    lease_next-IsTable alone "worker-b" 100 120 table table-IsTable lease_given

recover_expired_leases-map_example :
    (recover_expired_leases alone 100 10 table ≡ (
      length (filter (is_overdue alone 100) table.rows),
      record table { rows = map (put_back alone 100) table.rows },
    ))
    × (any (is_overdue alone 100) (map (put_back alone 100) table.rows) ≡ false)
recover_expired_leases-map_example =
    recover_expired_leases-map alone 100 10 table table-IsTable (omega arith)

abbrev only_failed : TaskTable
only_failed = record { rows = failed_task ∷ []; next_id = 4 }

only_failed-IsTable : IsTable only_failed
only_failed-IsTable = record { unique = (refl, tt); fresh = refl }

abbrev retried_rows : TaskTable
retried_rows = record only_failed { rows = retried alone 100 failed_task ∷ [] }

retries : retry_failed alone 100 none none 10 only_failed ≡ ok (1, retried_rows)
unfolding retry_failed is_retryable retried update_chosen touched_earlier sort_by violates
retries = refl

retry_failed-map_example :
    (1 ≡ length (filter (is_lost alone none none) only_failed.rows))
    × (retried_rows
        ≡ record only_failed { rows = map (start_over alone 100 none none) only_failed.rows })
retry_failed-map_example =
    retry_failed-map alone 100 10 none none only_failed only_failed-IsTable (omega arith) retries

-- The lease of the second task is over, and a third worker gets it.
abbrev recovered : TaskTable
recovered = (recover_expired_leases alone 100 10 after_lease).1

abbrev given_next : CollectionTask
given_next = leased alone "worker-c" 110 120 (released alone 100 slice_task)

lease_given_next :
    lease_next alone "worker-c" 110 120 recovered
    ≡ (some given_next, (lease_next alone "worker-c" 110 120 recovered).1)
unfolding lease_next leased is_due more_urgent update_chosen pick recover_expired_leases is_expired
    released ends_earlier sort_by
lease_given_next = refl

lease_next_exclusive_example : given_next.id ≢ given.id
unfolding leased released
lease_next_exclusive_example =
    lease_next_exclusive alone alone "worker-b" "worker-c" 100 110 120 120 table table-IsTable
      lease_given (and_then (stop after_lease) (recovers alone 100 10 after_lease (omega arith)))
      lease_given_next

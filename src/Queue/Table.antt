-- ===== src/Queue/Table.antt =====
-- The constraints of the table `collection_tasks` in db/models.py, and the queries that look up
-- one row.
pub mod Unique
pub mod Updates
use books_of_time.Base.{
  ℕ, suc, ◌+◌, Bool, true, false, not, ◌&&◌, ◌||◌, Option, none, some, String, List, [], ◌∷◌, ◌++◌,
  any, filter, map, ltb, ◌==◌, if◌then◌else◌, is_some,
}
use books_of_time.Base.Text.{str_eq}
use books_of_time.Base.Rows.{pick}
use books_of_time.Queue.Types.{TaskStatus, CollectionTask, TaskTable, Transaction}

-- PENDING, RUNNING or BACKOFF.
abbrev pub is_active : TaskStatus → Bool
is_active TaskStatus.pending = true
is_active TaskStatus.running = true
is_active TaskStatus.backoff = true
is_active _ = false

-- `column = value`, which is not true of NULL.
abbrev pub eq_key : Option String → String → Bool
eq_key none k = false
eq_key (some j) k = str_eq j k

-- Two values of a column under a unique index.
abbrev pub same_key : Option String → Option String → Bool
same_key k none = false
same_key k (some j) = eq_key k j

-- Two rows that one of the unique indexes does not let stand together:
-- uq_collection_tasks_active_idempotency_key and uq_collection_tasks_scan_slice_key.
unfoldable pub conflict : CollectionTask → CollectionTask → Bool
conflict x y =
    same_key x.idempotency_key y.idempotency_key && (is_active x.status && is_active y.status)
    || same_key x.scan_slice_key y.scan_slice_key

-- `created_at, id`, ascending.
abbrev pub older : CollectionTask → CollectionTask → Bool
older x y = ltb x.created_at y.created_at || (x.created_at == y.created_at && ltb x.id y.id)

-- The rows that a query reads, by `skip_locked`.
abbrev pub visible : Transaction → (skip_locked : Bool) → List CollectionTask → List CollectionTask
visible tx false rows = rows
visible tx true rows = filter (λ r. not (tx.unseen r)) rows

abbrev pub has_slice_key : String → CollectionTask → Bool
has_slice_key key r = eq_key r.scan_slice_key key

abbrev pub is_active_with_key : String → CollectionTask → Bool
is_active_with_key key r = eq_key r.idempotency_key key && is_active r.status

-- The first row of a result, in the order of the table.
abbrev pub first : List CollectionTask → Option CollectionTask
first [] = none
first (r ∷ rs) = some r

-- `_find_scan_slice`
unfoldable pub find_scan_slice :
    Transaction → String → Bool → List CollectionTask → Option CollectionTask
find_scan_slice tx key skip_locked rows =
    first (filter (has_slice_key key) (visible tx skip_locked rows))

-- `_find_active_idempotency_task`
unfoldable pub find_active_idempotency_task :
    Transaction → String → Bool → List CollectionTask → Option CollectionTask
find_active_idempotency_task tx key skip_locked rows =
    pick older (filter (is_active_with_key key) (visible tx skip_locked rows))

-- The UPDATE that `flush` sends for the rows that were changed in memory.
abbrev pub is_chosen : List CollectionTask → CollectionTask → Bool
is_chosen chosen r = any (λ s. s.id == r.id) chosen

unfoldable pub update_chosen :
    List CollectionTask → (CollectionTask → CollectionTask) → TaskTable → TaskTable
update_chosen chosen f t = record t {
  rows = map (λ r. if is_chosen chosen r then f r else r) t.rows;
}

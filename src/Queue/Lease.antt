-- ===== src/Queue/Lease.antt =====
-- `lease_next`, `recover_expired_leases`, `retry_failed` and `list_tasks` of
-- `CollectionTaskRepository` in db/repositories.py.
pub mod Choice
pub mod Recovery
pub mod Held
pub mod Exclusive
mod Tests
use books_of_time.Base.{
  ℕ, ◌+◌, ◌*◌, Bool, true, false, not, ◌&&◌, ◌||◌, Option, none, some, String, List, [], ◌∷◌, map,
  any, filter, length, ltb, leb, ◌==◌, if◌then◌else◌, Result, ok, err,
}
use books_of_time.Base.Int.{ltb_ℤ, pos_part, neg_part}
use books_of_time.Base.Text.{str_eq}
use books_of_time.Base.Time.{second}
use books_of_time.Base.Rows.{pick, sort_by, take}
use books_of_time.Queue.Types.{
  TaskKind, kind_code, TaskStatus, CollectionTask, TaskTable, Transaction,
}
use books_of_time.Queue.Table.{older, conflict, update_chosen}

abbrev pub is_pending : TaskStatus → Bool
is_pending TaskStatus.pending = true
is_pending _ = false

abbrev pub is_running : TaskStatus → Bool
is_running TaskStatus.running = true
is_running _ = false

abbrev pub is_failed : TaskStatus → Bool
is_failed TaskStatus.failed = true
is_failed _ = false

-- The WHERE of `lease_next`, and its SKIP LOCKED.
unfoldable pub is_due : Transaction → ℕ → CollectionTask → Bool
is_due tx now r = is_pending r.status && leb r.not_before now && not (tx.unseen r)

-- `priority DESC, created_at ASC`
unfoldable pub more_urgent : CollectionTask → CollectionTask → Bool
more_urgent x y =
    ltb_ℤ y.priority x.priority
    || pos_part x.priority == pos_part y.priority
      && neg_part x.priority == neg_part y.priority
      && ltb x.created_at y.created_at

-- The row of a task that a worker has leased.
unfoldable pub leased : Transaction → String → ℕ → ℕ → CollectionTask → CollectionTask
leased tx owner now lease_seconds r = record r {
  status = TaskStatus.running;
  lease_owner = some owner;
  lease_until = some (now + lease_seconds * second);
  updated_at = tx.clock;
}

unfoldable pub lease_next :
    Transaction
    → (lease_owner : String) (now lease_seconds : ℕ) → TaskTable
    → Option CollectionTask × TaskTable
lease_next tx owner now lease_seconds t = elim (pick more_urgent (filter (is_due tx now) t.rows)) [
  | none ↦ (none, t)
  | some task ↦ (
    some (leased tx owner now lease_seconds task),
    update_chosen (task ∷ []) (leased tx owner now lease_seconds) t,
  )
]

abbrev pub is_past : Option ℕ → ℕ → Bool
is_past none now = false
is_past (some u) now = leb u now

-- The WHERE of `recover_expired_leases`, and its SKIP LOCKED.
unfoldable pub is_expired : Transaction → ℕ → CollectionTask → Bool
is_expired tx now r = is_running r.status && is_past r.lease_until now && not (tx.unseen r)

abbrev pub lease_end : CollectionTask → ℕ
lease_end r = elim (r.lease_until) [ none ↦ 0 | some u ↦ u ]

-- `lease_until ASC, id ASC`, of rows whose lease_until is not NULL.
unfoldable pub ends_earlier : CollectionTask → CollectionTask → Bool
ends_earlier x y = ltb (lease_end x) (lease_end y) || lease_end x == lease_end y && ltb x.id y.id

unfoldable pub released : Transaction → ℕ → CollectionTask → CollectionTask
released tx now r = record r {
  status = TaskStatus.pending;
  not_before = now;
  lease_owner = none;
  lease_until = none;
  updated_at = tx.clock;
}

unfoldable pub recover_expired_leases : Transaction → (now limit : ℕ) → TaskTable → ℕ × TaskTable
recover_expired_leases tx now limit t =
    let tasks = take limit (sort_by ends_earlier (filter (is_expired tx now) t.rows)) in
    (length tasks, update_chosen tasks (released tx now) t)

abbrev pub is_target : Option String → CollectionTask → Bool
is_target none r = true
is_target (some target) r = str_eq r.target_id target

abbrev pub is_kind : Option TaskKind → CollectionTask → Bool
is_kind none r = true
is_kind (some kind) r = kind_code r.kind == kind_code kind

-- The WHERE of `retry_failed`, and its SKIP LOCKED.
pub is_retryable : Transaction → Option String → Option TaskKind → CollectionTask → Bool
is_retryable tx target kind r =
    is_failed r.status && is_target target r && is_kind kind r && not (tx.unseen r)

-- `updated_at ASC, id ASC`
pub touched_earlier : CollectionTask → CollectionTask → Bool
touched_earlier x y = ltb x.updated_at y.updated_at || x.updated_at == y.updated_at && ltb x.id y.id

pub retried : Transaction → ℕ → CollectionTask → CollectionTask
retried tx now r = record r {
  status = TaskStatus.pending;
  not_before = now;
  lease_owner = none;
  lease_until = none;
  retry_count = 0;
  updated_at = tx.clock;
}

-- A unique index refuses the rows.
pub violates : List CollectionTask → Bool
violates [] = false
violates (x ∷ xs) = any (conflict x) xs || violates xs

pub data RetryError : Type 0 where
  integrity_error : RetryError

-- A failed task holds no key, a pending one does: `flush` raises where a key is taken by now.
pub retry_failed :
    Transaction
    → (now : ℕ) (target_id : Option String) (kind : Option TaskKind) (limit : ℕ) → TaskTable
    → Result RetryError (ℕ × TaskTable)
retry_failed tx now target kind limit t =
    let tasks =
      take limit (sort_by touched_earlier (filter (is_retryable tx target kind) t.rows)) in
    let t' = update_chosen tasks (retried tx now) t in
    if violates t'.rows then err integrity_error else ok (length tasks, t')

-- `priority DESC, created_at ASC, id ASC`
pub listed_earlier : CollectionTask → CollectionTask → Bool
listed_earlier x y =
    ltb_ℤ y.priority x.priority
    || pos_part x.priority == pos_part y.priority
      && neg_part x.priority == neg_part y.priority
      && older x y

abbrev pub has_status : Option TaskStatus → CollectionTask → Bool
has_status none r = true
has_status (some TaskStatus.pending) r = is_pending r.status
has_status (some TaskStatus.running) r = is_running r.status
has_status (some TaskStatus.failed) r = is_failed r.status
has_status (some TaskStatus.succeeded) r = elim (r.status) [
  | TaskStatus.succeeded ↦ true
  | _ ↦ false
]
has_status (some TaskStatus.backoff) r = elim (r.status) [ TaskStatus.backoff ↦ true | _ ↦ false ]

pub list_tasks : Option TaskStatus → (limit : ℕ) → TaskTable → List CollectionTask
list_tasks status limit t = take limit (sort_by listed_earlier (filter (has_status status) t.rows))

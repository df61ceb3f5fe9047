-- ===== src/Queue/Lease/Exclusive.antt =====
-- The calls of `CollectionTaskRepository` in sequence, by any transactions: a lease is exclusive
-- while calls of others come between.
use mathlib.Core.List.{Memᴰ}
use books_of_time.Base.{
  ℕ, ◌+◌, ◌*◌, ◌<◌, ◌≡◌, ◌≢◌, refl, sym, ap, true, false, Option, some, String, List, [], ◌∷◌, map,
  leb, ◌==◌, if◌then◌else◌, arith, ok,
}
use books_of_time.Base.Time.{second}
use books_of_time.Base.Rows.{map-Memᴰ, any-false-Memᴰ}
use books_of_time.Queue.Lease.Choice.{lease_next-IsTable}
use books_of_time.Queue.Types.{CollectionTask, TaskTable, TaskKind, Transaction}
use books_of_time.Queue.Table.Unique.{IsTable}
use books_of_time.Queue.Enqueue.{EnqueueRequest, enqueue}
use books_of_time.Queue.Lease.{leased, lease_next, recover_expired_leases, retry_failed}
use books_of_time.Queue.Lease.Held.{
  held, IsHeld, keeps, lease_next_differs, lease_next-IsHeld, recover_expired_leases-IsHeld,
  retry_failed-IsHeld, enqueue-IsHeld,
}

-- A call that returns. A recovery comes before the given instant.
pub data Step (until : ℕ) : TaskTable → TaskTable → Type 0 where
  enqueues :
      (tx : Transaction) (q : EnqueueRequest) {t t' : TaskTable} {task : CollectionTask}
      → enqueue tx q t ≡ ok (task, t')
      → Step until t t'
  leases :
      (tx : Transaction) (owner : String) (now lease_seconds : ℕ) (t : TaskTable)
      → Step until t (lease_next tx owner now lease_seconds t).1
  recovers :
      (tx : Transaction) (now limit : ℕ) (t : TaskTable)
      → now < until
      → Step until t (recover_expired_leases tx now limit t).1
  retries :
      (tx : Transaction) (now limit : ℕ) (target : Option String) (kind : Option TaskKind)
      {t t' : TaskTable} {n : ℕ}
      → retry_failed tx now target kind limit t ≡ ok (n, t')
      → Step until t t'

pub data Steps (until : ℕ) : TaskTable → TaskTable → Type 0 where
  stop : (t : TaskTable) → Steps until t t
  and_then : {s t u : TaskTable} → Steps until s t → Step until t u → Steps until s u

module _ (id until : ℕ) where
  Step-IsHeld : {t u : TaskTable} → Step until t u → IsHeld id until t → IsHeld id until u
  Step-IsHeld (enqueues tx q e) h = enqueue-IsHeld id until tx q _ e h
  Step-IsHeld (leases tx owner now lease_seconds t) h =
      lease_next-IsHeld id until tx owner now lease_seconds t h
  Step-IsHeld (recovers tx now limit t b) h =
      recover_expired_leases-IsHeld id until tx now limit t b h
  Step-IsHeld (retries tx now limit target kind e) h =
      retry_failed-IsHeld id until tx now limit target kind _ e h

  Steps-IsHeld : {t u : TaskTable} → Steps until t u → IsHeld id until t → IsHeld id until u
  Steps-IsHeld (stop t) h = h
  Steps-IsHeld (and_then s e) h = Step-IsHeld e (Steps-IsHeld s h)

keeps_given :
    (until : ℕ) (task : CollectionTask) (rows : List CollectionTask)
    → held until task ≡ true
    → keeps task.id until (map (λ x. if task.id == x.id then task else x) rows) ≡ true
keeps_given until task [] h = refl
keeps_given until task (r ∷ rows) h = ground (arith, keeps_given until task rows h)

lease_next_holds :
    (tx : Transaction) (owner : String) (now lease_seconds : ℕ) (t : TaskTable)
    {task : CollectionTask} {t' : TaskTable}
    → IsTable t
    → lease_next tx owner now lease_seconds t ≡ (some task, t')
    → IsHeld task.id (now + lease_seconds * second) t'
unfolding leased held
lease_next_holds tx owner now lease_seconds t {task} {t'} v e =
    let (r, m, p, b, u, given, left, v') = lease_next-IsTable tx owner now lease_seconds t v e in
    let same : task.id ≡ r.id = ap (λ (x : CollectionTask). x.id) given in
    let until = now + lease_seconds * second in
    let kept : held until task ≡ true = rw given (ground arith) in
    let hit : (if r.id == r.id then task else r) ≡ task = ground arith in
    let found = map-Memᴰ (λ (x : CollectionTask). if r.id == x.id then task else x) m in
    let image : Memᴰ task t'.rows = rw left (rw hit at found) in
    let below : leb t'.next_id task.id ≡ false =
      any-false-Memᴰ (λ (x : CollectionTask). leb t'.next_id x.id) v'.fresh image in
    (rw left (rw (sym same) (keeps_given until task t.rows kept)), ground arith)

-- A lease is exclusive until it ends: a task that was leased is not leased again while only calls
-- of the repository have come between, by whatever transactions and in whatever order, of which no
-- recovery came at or after the end of the lease.
pub lease_next_exclusive :
    (tx tx' : Transaction) (owner owner' : String) (now now' lease_seconds lease_seconds' : ℕ)
    (t : TaskTable) {task task' : CollectionTask} {t' u u' : TaskTable}
    → IsTable t
    → lease_next tx owner now lease_seconds t ≡ (some task, t')
    → Steps (now + lease_seconds * second) t' u
    → lease_next tx' owner' now' lease_seconds' u ≡ (some task', u')
    → task'.id ≢ task.id
lease_next_exclusive tx tx' owner owner' now now' ls ls' t {task} {task'} {t'} {u} v e s k same =
    let until = now + ls * second in
    let h = Steps-IsHeld task.id until s (lease_next_holds tx owner now ls t v e) in
    let d = lease_next_differs task.id until tx' owner' now' ls' u k h.0 in absurd (ground arith)

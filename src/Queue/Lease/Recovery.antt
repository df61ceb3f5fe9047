-- ===== src/Queue/Lease/Recovery.antt =====
-- What `recover_expired_leases` and `retry_failed` do to the table.
use mathlib.Core.List.{Memᴰ}
use mathlib.Core.Path.{fun_ext}
use books_of_time.Base.{
  ℕ, ◌≤◌, ◌≡◌, refl, sym, ap, ◌∙◌, inl, inr, Bool, true, false, not, ◌&&◌, Option, none, some,
  String, List, [], ◌∷◌, map, any, filter, length, leb, ◌==◌, if◌then◌else◌, Bool-cases, arith, ok,
  err,
}
use books_of_time.Base.Rows.{
  sort_by, take, take_of_length-le, length-take-le, length-sort_by, any-sort_by, any-take,
}
use books_of_time.Base.Text.{str_eq}
use books_of_time.Queue.Types.{
  kind_code, TaskStatus, TaskKind, CollectionTask, TaskTable, Transaction,
}
use books_of_time.Queue.Table.{is_chosen, update_chosen}
use books_of_time.Queue.Table.Unique.{IsUnique, IsTable}
use books_of_time.Queue.Table.Updates.{
  Keeps, is_chosen-filter, update_chosen-filter, update_chosen-IsTable,
}
use books_of_time.Queue.Lease.{
  is_running, is_failed, is_expired, ends_earlier, released, recover_expired_leases, is_retryable,
  touched_earlier, retried, violates, integrity_error, retry_failed,
}

-- A row that a query with a limit selected passes the test of the query.
is_chosen-query :
    (before : CollectionTask → CollectionTask → Bool) (p : CollectionTask → Bool) (limit : ℕ)
    {r : CollectionTask} {rows : List CollectionTask}
    → IsUnique rows
    → Memᴰ r rows
    → is_chosen (take limit (sort_by before (filter p rows))) r ≡ true
    → p r ≡ true
is_chosen-query before p limit {r} {rows} u m h =
    sym (is_chosen-filter p u m)
    ∙ (sym (any-sort_by before (λ s. s.id == r.id) (filter p rows))
        ∙ any-take (λ s. s.id == r.id) limit (sort_by before (filter p rows)) h)

-- A running task that no other transaction holds and whose lease is over.
abbrev pub is_overdue : Transaction → (now : ℕ) → CollectionTask → Bool
is_overdue tx now r =
    is_running r.status
    && elim (r.lease_until) [ none ↦ false | some until ↦ leb until now ]
    && not (tx.unseen r)

-- The task waits again, without a lease.
abbrev pub put_back : Transaction → (now : ℕ) → CollectionTask → CollectionTask
put_back tx now r =
    if is_overdue tx now r
    then record r {
      status = TaskStatus.pending;
      not_before = now;
      lease_owner = none;
      lease_until = none;
      updated_at = tx.clock;
    }
    else r

is_expired_eq : (tx : Transaction) (now : ℕ) → is_expired tx now ≡ is_overdue tx now
unfolding is_expired
is_expired_eq tx now = fun_ext (λ r. ground arith)

none_overdue :
    (tx : Transaction) (now : ℕ) (rows : List CollectionTask)
    → any (is_overdue tx now) (map (put_back tx now) rows) ≡ false
none_overdue tx now [] = refl
none_overdue tx now (r ∷ rows) = elim (Bool-cases (is_overdue tx now r)) [
  | inl e ↦ rw e (none_overdue tx now rows)
  | inr e ↦ rw (e, e) (none_overdue tx now rows)
]

module _ (tx : Transaction) (now limit : ℕ) (t : TaskTable) where
  abbrev expired : List CollectionTask
  expired = filter (is_expired tx now) t.rows

  recover_expired_leases-released :
      IsTable t
      → length expired ≤ limit
      → recover_expired_leases tx now limit t ≡ (
        length expired,
        record t { rows = map (λ r. if is_expired tx now r then released tx now r else r) t.rows },
      )
  unfolding recover_expired_leases
  recover_expired_leases-released v h =
      let sorted = sort_by ends_earlier expired in
      let all_taken = take_of_length-le limit sorted (rw (length-sort_by ends_earlier expired) h) in
      rw (all_taken, length-sort_by ends_earlier expired)
        (ap (λ (u : TaskTable). (length expired, u))
          (update_chosen-filter (is_expired tx now) sorted (released tx now) t v.unique
            (λ r. any-sort_by ends_earlier (λ s. s.id == r.id) expired)))

  -- In a table within its constraints, and with a limit that the number of overdue tasks does not
  -- exceed, every running task whose lease
  -- is over and that no other transaction holds is pending again, from now on and without a lease,
  -- every other row is as it was, and no overdue task is left; the number of the former is returned.
  pub recover_expired_leases-map :
      IsTable t
      → length (filter (is_overdue tx now) t.rows) ≤ limit
      → (recover_expired_leases tx now limit t ≡ (
        length (filter (is_overdue tx now) t.rows),
        record t { rows = map (put_back tx now) t.rows },
      ))
        × (any (is_overdue tx now) (map (put_back tx now) t.rows) ≡ false)
  unfolding released
  recover_expired_leases-map v h = (
    recover_expired_leases-released v (rw (is_expired_eq tx now) h)
        ∙ ap
            (λ (p : CollectionTask → Bool). (
              length (filter p t.rows),
              record t { rows = map (λ r. if p r then released tx now r else r) t.rows },
            ))
            (is_expired_eq tx now),
    none_overdue tx now t.rows,
  )

  released-Keeps : (r : CollectionTask) → is_expired tx now r ≡ true → Keeps (released tx now) r
  unfolding released is_expired
  released-Keeps r h = record { id = refl; key = refl; slice = refl; active = λ a. ground arith }

  -- Recovering never touches more rows than its limit, and keeps the constraints of the table.
  pub recover_expired_leases-IsTable :
      IsTable t
      → ((recover_expired_leases tx now limit t).0 ≤ limit)
        × IsTable (recover_expired_leases tx now limit t).1
  unfolding recover_expired_leases
  recover_expired_leases-IsTable v = (
    length-take-le limit (sort_by ends_earlier expired),
    update_chosen-IsTable (take limit (sort_by ends_earlier expired)) (released tx now) t v
        (λ r m c.
          released-Keeps r (is_chosen-query ends_earlier (is_expired tx now) limit v.unique m c)),
  )

-- A failed task of the target and the kind, if they are given, that no other transaction holds.
abbrev pub is_lost : Transaction → Option String → Option TaskKind → CollectionTask → Bool
is_lost tx target kind r =
    is_failed r.status
    && elim target [ none ↦ true | some wanted ↦ str_eq r.target_id wanted ]
    && elim kind [ none ↦ true | some wanted ↦ kind_code r.kind == kind_code wanted ]
    && not (tx.unseen r)

is_retryable_eq :
    (tx : Transaction) (target : Option String) (kind : Option TaskKind)
    → is_retryable tx target kind ≡ is_lost tx target kind
unfolding is_retryable
is_retryable_eq tx target kind = fun_ext (λ r. ground arith)

abbrev pub start_over :
    Transaction → (now : ℕ) → Option String → Option TaskKind → CollectionTask → CollectionTask
start_over tx now target kind r =
    if is_lost tx target kind r
    then record r {
      status = TaskStatus.pending;
      not_before = now;
      lease_owner = none;
      lease_until = none;
      retry_count = 0;
      updated_at = tx.clock;
    }
    else r

module _ (tx : Transaction) (now limit : ℕ) (target : Option String) (kind : Option TaskKind)
    (t : TaskTable) where
  abbrev retryable : List CollectionTask
  retryable = take limit (sort_by touched_earlier (filter (is_retryable tx target kind) t.rows))

  abbrev retried_table : TaskTable
  retried_table = update_chosen retryable (retried tx now) t

  retry_failed-violates :
      violates retried_table.rows ≡ true
      → retry_failed tx now target kind limit t ≡ err integrity_error
  unfolding retry_failed
  retry_failed-violates e = rw e

  retry_failed_fits :
      violates retried_table.rows ≡ false
      → retry_failed tx now target kind limit t ≡ ok (length retryable, retried_table)
  unfolding retry_failed
  retry_failed_fits e = rw e

  pub retry_failed-inv :
      (n : ℕ) (t' : TaskTable)
      → retry_failed tx now target kind limit t ≡ ok (n, t')
      → (violates retried_table.rows ≡ false) × (n ≡ length retryable) × (t' ≡ retried_table)
  retry_failed-inv n t' h = elim (Bool-cases (violates retried_table.rows)) [
    | inl e ↦ absurd (cc (retry_failed-violates e))
    | inr e ↦ (e, cc (retry_failed_fits e), cc (retry_failed_fits e))
  ]

  -- A retry that returns, in a table within its constraints and with a limit that the number of failed tasks of the target and the kind
  -- does not exceed, makes pending each of them that no other transaction holds, from now on,
  -- without a lease and with all its retries, leaves every other row as it was, and returns their
  -- number.
  pub retry_failed-map :
      {n : ℕ} {t' : TaskTable}
      → IsTable t
      → length (filter (is_lost tx target kind) t.rows) ≤ limit
      → retry_failed tx now target kind limit t ≡ ok (n, t')
      → (n ≡ length (filter (is_lost tx target kind) t.rows))
        × (t' ≡ record t { rows = map (start_over tx now target kind) t.rows })
  unfolding retried
  retry_failed-map {n} {t'} v h k =
      let (e, count, table) = retry_failed-inv n t' k in
      let lost = filter (is_retryable tx target kind) t.rows in
      let sorted = sort_by touched_earlier lost in
      let same = length-sort_by touched_earlier lost in
      let few : length lost ≤ limit = rw (is_retryable_eq tx target kind) h in
      let all_taken = take_of_length-le limit sorted (rw same few) in
      let updated =
        update_chosen-filter (is_retryable tx target kind) sorted (retried tx now) t v.unique
          (λ r. any-sort_by touched_earlier (λ s. s.id == r.id) lost) in
      let q = is_retryable_eq tx target kind in
      (
        rw (count, all_taken) same ∙ ap (λ (p : CollectionTask → Bool). length (filter p t.rows)) q,
        rw (table, all_taken) updated
            ∙ ap
                (λ (p : CollectionTask → Bool). record t {
                  rows = map (λ r. if p r then retried tx now r else r) t.rows;
                })
                q,
      )

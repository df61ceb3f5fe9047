-- ===== src/Queue/Lease/Held.antt =====
-- A task that is held by a lease stays so through the calls of `CollectionTaskRepository`, up to
-- the end of the lease.

use books_of_time.Base.{
  ℕ, ◌<◌, ◌≡◌, refl, sym, inl, inr, Bool, true, false, not, ◌&&◌, ◌||◌, Option, none, some, String,
  List, [], ◌∷◌, ◌++◌, map, any, all, filter, ◌==◌, if◌then◌else◌, Bool-cases, Option-cases, arith,
  ok,
}
use books_of_time.Base.Rows.{take, sort_by, pick, pick-any, any-sort_by, any-take}
use books_of_time.Queue.Lease.Choice.{lease_next-none, lease_next-some}
use books_of_time.Queue.Types.{CollectionTask, TaskTable, TaskKind, Transaction}
use books_of_time.Queue.Table.{is_chosen, update_chosen}
use books_of_time.Queue.Enqueue.{EnqueueRequest, new_task, enqueue}
use books_of_time.Queue.Enqueue.Outcome.{enqueue-Returned}
use books_of_time.Queue.Lease.Recovery.{retry_failed-inv}
use books_of_time.Queue.Lease.{
  is_running, is_due, more_urgent, leased, lease_next, is_expired, ends_earlier, released,
  recover_expired_leases, is_retryable, touched_earlier, retried, retry_failed,
}

-- A running row whose lease ends at the given instant.
unfoldable pub held : ℕ → CollectionTask → Bool
held until r =
    is_running r.status && elim (r.lease_until) [ none ↦ false | some end ↦ end == until ]

-- Every row with the id is held, and the id is taken.
abbrev pub IsHeld : (id until : ℕ) → TaskTable → Type 0
IsHeld id until t = (all (λ r. not (id == r.id) || held until r) t.rows ≡ true) × (id < t.next_id)

module _ (id until : ℕ) where
  abbrev pub keeps : List CollectionTask → Bool
  keeps rows = all (λ r. not (id == r.id) || held until r) rows

  -- A query that a held row does not satisfy finds no row with the id.
  not_found :
      (q : CollectionTask → Bool)
      → ((r : CollectionTask) → held until r ≡ true → q r ≡ false)
      → (rows : List CollectionTask) → keeps rows ≡ true
      → any (λ r. r.id == id) (filter q rows) ≡ false
  not_found q other [] h = refl
  not_found q other (r ∷ rows) h = ground (arith, other r, not_found q other rows)

  not_chosen :
      (before : CollectionTask → CollectionTask → Bool) (q : CollectionTask → Bool)
      → ((r : CollectionTask) → held until r ≡ true → q r ≡ false)
      → (limit : ℕ) (rows : List CollectionTask) → keeps rows ≡ true
      → any (λ r. r.id == id) (take limit (sort_by before (filter q rows))) ≡ false
  not_chosen before q other limit rows h = ground (
    arith,
    not_found q other rows h,
    any-sort_by before (λ (r : CollectionTask). r.id == id) (filter q rows),
    any-take (λ (r : CollectionTask). r.id == id) limit (sort_by before (filter q rows)),
  )

  keeps-map :
      (f : CollectionTask → CollectionTask) (chosen : List CollectionTask)
      → ((r : CollectionTask) → (f r).id ≡ r.id)
      → any (λ r. r.id == id) chosen ≡ false
      → (rows : List CollectionTask) → keeps rows ≡ true
      → keeps (map (λ r. if is_chosen chosen r then f r else r) rows) ≡ true
  keeps-map f chosen same none_chosen [] h = refl
  keeps-map f chosen same none_chosen (r ∷ rows) h = elim (Bool-cases (id == r.id)) [
    | inl e ↦
        let e' : id ≡ r.id = ground arith in
        let c : is_chosen chosen r ≡ false = rw (sym e') none_chosen in
        ground (arith, c, keeps-map f chosen same none_chosen rows)
    | inr e ↦ ground (arith, same r, keeps-map f chosen same none_chosen rows)
  ]

  update_chosen-IsHeld :
      (f : CollectionTask → CollectionTask) (chosen : List CollectionTask) (t : TaskTable)
      → ((r : CollectionTask) → (f r).id ≡ r.id)
      → any (λ r. r.id == id) chosen ≡ false
      → IsHeld id until t
      → IsHeld id until (update_chosen chosen f t)
  unfolding update_chosen
  update_chosen-IsHeld f chosen t same c h = (keeps-map f chosen same c t.rows h.0, h.1)

  module _ (tx : Transaction) where
    given_differs :
        (now : ℕ) (t : TaskTable) (r : CollectionTask)
        → pick more_urgent (filter (is_due tx now) t.rows) ≡ some r
        → keeps t.rows ≡ true
        → any (λ x. x.id == id) (r ∷ []) ≡ false
    unfolding is_due held
    given_differs now t r e h = ground (
      arith,
      not_found (is_due tx now) (λ x k. ground arith) t.rows h,
      pick-any more_urgent (λ (x : CollectionTask). x.id == id) (filter (is_due tx now) t.rows) r e,
    )

    pub lease_next-IsHeld :
        (owner : String) (now lease_seconds : ℕ) (t : TaskTable)
        → IsHeld id until t
        → IsHeld id until (lease_next tx owner now lease_seconds t).1
    unfolding leased
    lease_next-IsHeld owner now lease_seconds t h =
        elim (Option-cases (pick more_urgent (filter (is_due tx now) t.rows))) [
          | inl e ↦ rw (lease_next-none tx owner now lease_seconds t e) h
          | inr (r, e) ↦ rw (lease_next-some tx owner now lease_seconds t r e) (
              update_chosen-IsHeld (leased tx owner now lease_seconds) (r ∷ []) t (λ x. refl)
                (given_differs now t r e h.0) h)
        ]

    -- The next lease is of another task.
    pub lease_next_differs :
        (owner : String) (now lease_seconds : ℕ) (t : TaskTable) {task : CollectionTask}
        {t' : TaskTable}
        → lease_next tx owner now lease_seconds t ≡ (some task, t')
        → keeps t.rows ≡ true
        → (task.id == id) ≡ false
    unfolding lease_next leased
    lease_next_differs owner now lease_seconds t e h =
        elim (Option-cases (pick more_urgent (filter (is_due tx now) t.rows))) [
          | inl n ↦ absurd (ground arith)
          | inr (r, c) ↦ let d = given_differs now t r c h in ground arith
        ]

    pub recover_expired_leases-IsHeld :
        (now limit : ℕ) (t : TaskTable)
        → now < until
        → IsHeld id until t
        → IsHeld id until (recover_expired_leases tx now limit t).1
    unfolding recover_expired_leases released is_expired held
    recover_expired_leases-IsHeld now limit t b h =
        update_chosen-IsHeld (released tx now)
          (take limit (sort_by ends_earlier (filter (is_expired tx now) t.rows))) t (λ x. refl)
          (not_chosen ends_earlier (is_expired tx now) (λ x k. ground arith) limit t.rows h.0) h

    pub retry_failed-IsHeld :
        (now limit : ℕ) (target : Option String) (kind : Option TaskKind) (t : TaskTable) {n : ℕ}
        {t' : TaskTable}
        → retry_failed tx now target kind limit t ≡ ok (n, t')
        → IsHeld id until t
        → IsHeld id until t'
    unfolding retried is_retryable held
    retry_failed-IsHeld now limit target kind t e h =
        let (_, _, left) = retry_failed-inv tx now limit target kind t _ _ e in
        rw left (
          update_chosen-IsHeld (retried tx now)
            (take limit (sort_by touched_earlier (filter (is_retryable tx target kind) t.rows))) t
            (λ x. refl)
            (not_chosen touched_earlier (is_retryable tx target kind) (λ x k. ground arith) limit
              t.rows h.0)
            h)

    keeps-append :
        (rows : List CollectionTask) (r : CollectionTask)
        → (id == r.id) ≡ false
        → keeps rows ≡ true
        → keeps (rows ++ r ∷ []) ≡ true
    keeps-append [] r e h = ground arith
    keeps-append (x ∷ rows) r e h = ground (arith, keeps-append rows r e)

    pub enqueue-IsHeld :
        (q : EnqueueRequest) (t : TaskTable) {task : CollectionTask} {t' : TaskTable}
        → enqueue tx q t ≡ ok (task, t')
        → IsHeld id until t
        → IsHeld id until t'
    unfolding new_task
    enqueue-IsHeld q t {task} e h = elim (enqueue-Returned tx q t e) [
      | inl (same, m) ↦ rw same h
      | inr (a, c, left) ↦ rw left (keeps-append t.rows task (ground arith) h.0, omega (arith, h.1))
    ]

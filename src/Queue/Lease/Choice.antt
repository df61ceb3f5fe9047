-- ===== src/Queue/Lease/Choice.antt =====
-- Which task `lease_next` gives, and what it leaves in the table.
use mathlib.Core.List.{Memᴰ}
use books_of_time.Base.{
  ℕ, ◌+◌, ◌*◌, ◌≤◌, ◌≡◌, refl, ◌⊎◌, inl, inr, Bool, true, false, Option, none, some, String, List,
  [], ◌∷◌, map, any, filter, ◌==◌, if◌then◌else◌, Option-cases, arith,
}
use books_of_time.Base.Int.{◌<ℤ◌}
use books_of_time.Base.Time.{second}
use books_of_time.Base.Rows.{pick, pick_least, pick-Memᴰ, pick-some, filter-Memᴰ, Memᴰ-filter}
use books_of_time.Queue.Types.{TaskStatus, CollectionTask, TaskTable, Transaction}
use books_of_time.Queue.Table.{is_chosen, update_chosen}
use books_of_time.Queue.Table.Unique.{IsTable, any-mem}
use books_of_time.Queue.Table.Updates.{Keeps, id_unique, map-cong, update_chosen-IsTable}
use books_of_time.Queue.Lease.{is_due, more_urgent, leased, lease_next}

more_urgent_asym : (x y : CollectionTask) → more_urgent x y ≡ true → more_urgent y x ≡ false
unfolding more_urgent
more_urgent_asym x y h = ground arith

more_urgent_trans :
    (x y z : CollectionTask)
    → more_urgent y x ≡ false
    → more_urgent z y ≡ false
    → more_urgent z x ≡ false
unfolding more_urgent
more_urgent_trans x y z h k = ground arith

any-false-mem :
    (p : CollectionTask → Bool) {r : CollectionTask} {xs : List CollectionTask}
    → any p xs ≡ false
    → Memᴰ r xs
    → p r ≡ false
any-false-mem p a m = ground (arith, any-mem p m)

is_due_intro :
    (tx : Transaction) (now : ℕ) (r : CollectionTask)
    → r.status ≡ TaskStatus.pending
    → r.not_before ≤ now
    → tx.unseen r ≡ false
    → is_due tx now r ≡ true
unfolding is_due
is_due_intro tx now r s b u = ground arith

is_due_elim :
    (tx : Transaction) (now : ℕ) (r : CollectionTask)
    → is_due tx now r ≡ true
    → (r.status ≡ TaskStatus.pending) × (r.not_before ≤ now) × (tx.unseen r ≡ false)
unfolding is_due
is_due_elim tx now r h = ground arith

-- The row that the query of `lease_next` picks.
picked :
    (tx : Transaction) (now : ℕ) (rows : List CollectionTask) {task : CollectionTask}
    → pick more_urgent (filter (is_due tx now) rows) ≡ some task
    → Memᴰ task rows × (is_due tx now task ≡ true)
picked tx now rows e = filter-Memᴰ (is_due tx now) rows (pick-Memᴰ more_urgent _ e)

module _ (tx : Transaction) (owner : String) (now lease_seconds : ℕ) (t : TaskTable) where
  abbrev eligible : Option CollectionTask
  eligible = pick more_urgent (filter (is_due tx now) t.rows)

  abbrev lease : CollectionTask → CollectionTask
  lease = leased tx owner now lease_seconds

  pub lease_next-some :
      (r : CollectionTask)
      → eligible ≡ some r
      → lease_next tx owner now lease_seconds t ≡ (some (lease r), update_chosen (r ∷ []) lease t)
  unfolding lease_next
  lease_next-some r e = ground arith

  pub lease_next-none :
      pick more_urgent (filter (is_due tx now) t.rows) ≡ none
      → lease_next tx owner now lease_seconds t ≡ (none, t)
  unfolding lease_next
  lease_next-none e = ground arith

  lease_next_inv :
      (r task : CollectionTask) (t' : TaskTable)
      → eligible ≡ some r
      → lease_next tx owner now lease_seconds t ≡ (some task, t')
      → (task ≡ lease r) × (t' ≡ update_chosen (r ∷ []) lease t)
  lease_next_inv r task t' e h = (cc (lease_next-some r e), cc (lease_next-some r e))

  -- Where some row that the transaction may lock is pending and due, a task is leased: it is
  -- running, held by the owner up to the end of the lease, and no such row has a higher priority,
  -- or the same priority and an earlier creation.
  pub lease_next-most_urgent :
      (r : CollectionTask)
      → Memᴰ r t.rows
      → r.status ≡ TaskStatus.pending
      → r.not_before ≤ now
      → tx.unseen r ≡ false
      → (task : CollectionTask) × (t' : TaskTable) × (lease_next tx owner now lease_seconds t
          ≡ (some task, t'))
        × (task.status ≡ TaskStatus.running)
        × (task.lease_owner ≡ some owner)
        × (task.lease_until ≡ some (now + lease_seconds * second))
        × ((r.priority <ℤ task.priority)
            ⊎ ((r.priority ≡ task.priority) × (task.created_at ≤ r.created_at)))
  unfolding leased more_urgent
  lease_next-most_urgent r m s b u =
      let found = Memᴰ-filter (is_due tx now) m (is_due_intro tx now r s b u) in
      let (x, e) = pick-some more_urgent found in
      let least =
        any-false-mem (λ y. more_urgent y x)
          (pick_least more_urgent more_urgent_asym more_urgent_trans _ x e) found in
      (lease x, update_chosen (x ∷ []) lease t, lease_next-some x e, refl, refl, refl, ground arith)

  leased-Keeps : (r x : CollectionTask) → r ≡ x → is_due tx now r ≡ true → Keeps lease x
  unfolding leased is_due
  leased-Keeps r x e h = record { id = refl; key = refl; slice = refl; active = λ a. ground arith }

  -- A lease that is given is given to a pending row that was due and not held by another
  -- transaction; its row is the only one that changes, and the constraints of the table stay.
  pub lease_next-IsTable :
      {task : CollectionTask} {t' : TaskTable}
      → IsTable t
      → lease_next tx owner now lease_seconds t ≡ (some task, t')
      → (r : CollectionTask) × Memᴰ r t.rows
        × (r.status ≡ TaskStatus.pending)
        × (r.not_before ≤ now)
        × (tx.unseen r ≡ false)
        × (task ≡ leased tx owner now lease_seconds r)
        × (t'.rows ≡ map (λ x. if r.id == x.id then task else x) t.rows)
        × IsTable t'
  unfolding update_chosen
  lease_next-IsTable {task} {t'} v h = elim (Option-cases eligible) [
    | inl e ↦ absurd (cc (lease_next-none e))
    | inr (r, e) ↦
        let (m, due) = picked tx now t.rows e in
        let (given, left) = lease_next_inv r task t' e h in
        let (p, b, u) = is_due_elim tx now r due in
        let same = λ (x : CollectionTask) (n : Memᴰ x t.rows) (q : (r.id == x.id) ≡ true).
          id_unique v.unique m n q in
        let one =
          map-cong (λ x. if is_chosen (r ∷ []) x then lease x else x)
            (λ x. if r.id == x.id then task else x) t.rows
            (λ x n. ground (arith, given, same x n)) in
        (
          r,
          m,
          p,
          b,
          u,
          given,
          rw left one,
          rw left (
              update_chosen-IsTable (r ∷ []) lease t v
                (λ x n c. leased-Keeps r x (same x n (ground arith)) due)),
        )
  ]

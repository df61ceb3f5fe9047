-- ===== src/Jobs/Lease.antt =====
-- Which job `lease_due` gives, and what it writes.
use mathlib.Core.List.{Memᴰ}
use books_of_time.Base.{
  ℕ, ◌+◌, ◌*◌, ◌≤◌, ◌≡◌, refl, ap, ◌⊎◌, inl, inr, true, false, none, some, String, filter,
  Option-cases, arith,
}
use books_of_time.Base.Int.{ℤ, ◌<ℤ◌}
use books_of_time.Base.Time.{second}
use books_of_time.Base.Rows.{
  pick, pick_least, pick-Memᴰ, pick-some, filter-Memᴰ, Memᴰ-filter, any-false-Memᴰ,
}
use books_of_time.Jobs.Rows.{ScheduledJob, JobTable, Session, set_rows}
use books_of_time.Jobs.{
  at_least_one, is_free, is_due_job, runs_earlier, goes_first, leased_job, lease_due,
}

runs_earlier_asym : (x y : ScheduledJob) → runs_earlier x y ≡ true → runs_earlier y x ≡ false
unfolding runs_earlier
runs_earlier_asym x y h = ground arith

runs_earlier_trans :
    (x y z : ScheduledJob)
    → runs_earlier y x ≡ false
    → runs_earlier z y ≡ false
    → runs_earlier z x ≡ false
unfolding runs_earlier
runs_earlier_trans x y z h k = ground arith

goes_first_asym : (x y : ScheduledJob) → goes_first x y ≡ true → goes_first y x ≡ false
unfolding goes_first
goes_first_asym x y h = ground (arith, runs_earlier_asym x y)

goes_first_trans :
    (x y z : ScheduledJob)
    → goes_first y x ≡ false
    → goes_first z y ≡ false
    → goes_first z x ≡ false
unfolding goes_first
goes_first_trans x y z h k = ground (arith, runs_earlier_trans x y z)

is_due_intro :
    (s : Session) (now : ℕ) (r : ScheduledJob)
    → r.enabled ≡ true
    → r.next_run_at ≤ now
    → is_free now r ≡ true
    → s.uncommitted r ≡ false
    → s.locked r ≡ false
    → is_due_job s now r ≡ true
unfolding is_due_job
is_due_intro s now r e n f u l = ground arith

module _ (s : Session) (owner : String) (now : ℕ) (lease_seconds : ℤ) (t : JobTable) where
  abbrev lease : ScheduledJob → ScheduledJob
  lease = leased_job s owner now lease_seconds

  lease_due-some :
      (r : ScheduledJob)
      → pick goes_first (filter (is_due_job s now) t.rows) ≡ some r
      → lease_due s owner now lease_seconds t ≡ (some (lease r), set_rows r.id lease t)
  unfolding lease_due
  lease_due-some r e = ground arith

  lease_due-none :
      pick goes_first (filter (is_due_job s now) t.rows) ≡ none
      → lease_due s owner now lease_seconds t ≡ (none, t)
  unfolding lease_due
  lease_due-none e = ground arith

  -- Where some job is enabled, due, free and neither locked nor uncommitted, a job is leased: the
  -- owner holds it for the lease, of at least a second, and no such job has a higher priority, or
  -- the same priority and an earlier time to run.
  pub lease_due-goes_first :
      (r : ScheduledJob)
      → Memᴰ r t.rows
      → r.enabled ≡ true
      → r.next_run_at ≤ now
      → is_free now r ≡ true
      → s.uncommitted r ≡ false
      → s.locked r ≡ false
      → (job : ScheduledJob) × (t' : JobTable) × (lease_due s owner now lease_seconds t
          ≡ (some job, t'))
        × (job.lease_owner ≡ some owner)
        × (job.lease_until ≡ some (now + at_least_one lease_seconds * second))
        × (job.last_started_at ≡ some now)
        × ((r.priority <ℤ job.priority)
            ⊎ ((r.priority ≡ job.priority) × (job.next_run_at ≤ r.next_run_at)))
  unfolding leased_job goes_first runs_earlier
  lease_due-goes_first r m e n f u l =
      let found = Memᴰ-filter (is_due_job s now) m (is_due_intro s now r e n f u l) in
      let (x, c) = pick-some goes_first found in
      let least =
        any-false-Memᴰ (λ y. goes_first y x)
          (pick_least goes_first goes_first_asym goes_first_trans _ x c) found in
      (lease x, set_rows x.id lease t, lease_due-some x c, refl, refl, refl, ground arith)

  pub lease_due_nothing :
      {t' : JobTable} → lease_due s owner now lease_seconds t ≡ (none, t') → t' ≡ t
  lease_due_nothing {t'} h =
      elim (Option-cases (pick goes_first (filter (is_due_job s now) t.rows))) [
        | inl e ↦ cc (lease_due-none e)
        | inr (r, e) ↦ absurd (cc (lease_due-some r e))
      ]

  -- The job that is given was due, and only its row is written.
  pub lease_due_inv :
      {job : ScheduledJob} {t' : JobTable}
      → lease_due s owner now lease_seconds t ≡ (some job, t')
      → (r : ScheduledJob) × Memᴰ r t.rows
        × (is_due_job s now r ≡ true)
        × (job.id ≡ r.id)
        × (t' ≡ set_rows job.id lease t)
  unfolding leased_job
  lease_due_inv {job} {t'} h =
      elim (Option-cases (pick goes_first (filter (is_due_job s now) t.rows))) [
        | inl e ↦ absurd (cc (lease_due-none e))
        | inr (r, e) ↦
            let (m, due) = filter-Memᴰ (is_due_job s now) t.rows (pick-Memᴰ goes_first _ e) in
            let given : job ≡ lease r = cc (lease_due-some r e) in
            let left : t' ≡ set_rows r.id lease t = cc (lease_due-some r e) in
            let same : job.id ≡ r.id = ap (λ (x : ScheduledJob). x.id) given in
            (r, m, due, same, rw same left)
      ]

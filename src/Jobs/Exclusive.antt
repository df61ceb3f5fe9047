-- ===== src/Jobs/Exclusive.antt =====
-- For how long a job is not given again, while other jobs are leased, end, or are defined.

use books_of_time.Base.{
  ℕ, suc, ◌+◌, ◌*◌, ◌<◌, ◌≡◌, ◌≢◌, refl, inl, inr, Bool, true, false, not, ◌&&◌, ◌||◌, Option, none,
  some, String, List, [], ◌∷◌, ◌++◌, map, any, filter, leb, ◌==◌, if◌then◌else◌, Option-cases,
  arith, ok,
}
use books_of_time.Base.Int.{ℤ}
use books_of_time.Base.Time.{second}
use books_of_time.Base.Rows.{any-false-Memᴰ}
use books_of_time.Jobs.Rows.{ScheduledJob, JobTable, Session, set_rows}
use books_of_time.Jobs.{
  at_least_one, is_due_job, leased_job, lease_due, PyError, succeeded, mark_succeeded, failed,
  mark_failed, JobRequest, has_key, new_job, redefined, insert_job, first, ensure,
}
use books_of_time.Jobs.Lease.{lease_due_inv, lease_due_nothing}

-- Until `until` the row is not due: its next run comes no earlier, or its lease ends no earlier.
pub is_blocked : (until : ℕ) → ScheduledJob → Bool
is_blocked until r = leb until r.next_run_at || elim (r.lease_owner) [
  | none ↦ false
  | some owner ↦ elim (r.lease_until) [ none ↦ false | some end ↦ leb until end ]
]

-- A row of the id that may be given before.
pub is_open : (id until : ℕ) → ScheduledJob → Bool
is_open id until r = id == r.id && not (is_blocked until r)

-- Calls of the repository, by whichever sessions: leases before `until`, ends of other jobs, and
-- definitions of jobs.
pub data JobSteps (id until : ℕ) : JobTable → JobTable → Type 0 where
  stop : (t : JobTable) → JobSteps id until t t
  leases :
      (s : Session) (owner : String) (now : ℕ) (lease_seconds : ℤ) {t u v : JobTable}
      {job : Option ScheduledJob}
      → JobSteps id until t u
      → now < until
      → lease_due s owner now lease_seconds u ≡ (job, v)
      → JobSteps id until t v
  succeeds :
      (s : Session) (job : ScheduledJob) (now : ℕ) {t u : JobTable}
      → JobSteps id until t u
      → id ≢ job.id
      → JobSteps id until t (mark_succeeded s job now u).1
  fails :
      (s : Session) (job : ScheduledJob) (now : ℕ) (delay : ℤ) (error : PyError) {t u : JobTable}
      → JobSteps id until t u
      → id ≢ job.id
      → JobSteps id until t (mark_failed s job now delay error u).1
  ensures :
      (s : Session) (q : JobRequest) {t u v : JobTable} {job : ScheduledJob}
      → JobSteps id until t u
      → ensure s q u ≡ ok (job, v)
      → JobSteps id until t v

-- No row of the id is open, and the id is not one to come.
abbrev IsShut : (id until : ℕ) → JobTable → Type 0
IsShut id until t = (any (is_open id until) t.rows ≡ false) × (id < t.next_id)

module _ (id until : ℕ) where
  other_kept :
      (other : ℕ) (f : ScheduledJob → ScheduledJob) (rows : List ScheduledJob)
      → id ≢ other
      → ((r : ScheduledJob) → (f r).id ≡ r.id)
      → any (is_open id until) rows ≡ false
      → any (is_open id until) (map (λ r. if other == r.id then f r else r) rows) ≡ false
  unfolding is_open
  other_kept other f [] n k h = refl
  other_kept other f (r ∷ rows) n k h = ground (arith, k r, other_kept other f rows n k)

  set_rows-shut :
      (f : ScheduledJob → ScheduledJob) (other : ℕ) (rows : List ScheduledJob)
      → ((r : ScheduledJob) → is_blocked until (f r) ≡ true)
      → any (is_open other until) (map (λ r. if other == r.id then f r else r) rows) ≡ false
  unfolding is_open
  set_rows-shut f other [] b = refl
  set_rows-shut f other (r ∷ rows) b = ground (arith, b r, set_rows-shut f other rows b)

  redefined_kept :
      (s : Session) (q : JobRequest) (other : ℕ) (rows : List ScheduledJob)
      → any (is_open id until) rows ≡ false
      → any (is_open id until) (map (λ r. if other == r.id then redefined s q r else r) rows)
        ≡ false
  unfolding is_open redefined is_blocked
  redefined_kept s q other [] h = refl
  redefined_kept s q other (r ∷ rows) h = ground (arith, redefined_kept s q other rows)

  add_kept :
      (job : ScheduledJob) (rows : List ScheduledJob)
      → id < job.id
      → any (is_open id until) rows ≡ false
      → any (is_open id until) (rows ++ job ∷ []) ≡ false
  unfolding is_open
  add_kept job [] n h = ground arith
  add_kept job (r ∷ rows) n h = ground (arith, add_kept job rows n)

  -- A job that is given before `until` is another one.
  lease_due-other :
      (s : Session) (owner : String) (now : ℕ) (lease_seconds : ℤ) (t : JobTable)
      {job : ScheduledJob} {t' : JobTable}
      → any (is_open id until) t.rows ≡ false
      → now < until
      → lease_due s owner now lease_seconds t ≡ (some job, t')
      → id ≢ job.id
  unfolding is_open is_blocked is_due_job
  lease_due-other s owner now lease_seconds t h b k same =
      let (r, m, due, e, left) = lease_due_inv s owner now lease_seconds t k in
      let shut = any-false-Memᴰ (is_open id until) h m in absurd (ground arith)

  ensure-IsShut :
      (s : Session) (q : JobRequest) (t : JobTable) {job : ScheduledJob} {t' : JobTable}
      → IsShut id until t
      → ensure s q t ≡ ok (job, t')
      → IsShut id until t'
  unfolding ensure insert_job set_rows new_job
  ensure-IsShut s q t {job} {t'} (h, n) e =
      let found = first (filter (λ r. has_key q.job_key r && not (s.uncommitted r)) t.rows) in
      elim (Option-cases found) [
        | inl f ↦
            let added = new_job s t.next_id q in
            let grown : t' ≡ record { rows = t.rows ++ added ∷ []; next_id = suc t.next_id } =
              ground arith in
            rw grown (add_kept added t.rows n h, omega (arith, n))
        | inr (r, f) ↦
            let written : t' ≡ set_rows r.id (redefined s q) t = ground arith in
            rw written (redefined_kept s q r.id t.rows h, n)
      ]

  JobSteps-IsShut : {t u : JobTable} → IsShut id until t → JobSteps id until t u → IsShut id until u
  unfolding set_rows mark_succeeded mark_failed leased_job succeeded failed
  JobSteps-IsShut w (stop t) = w
  JobSteps-IsShut w (leases s owner now lease_seconds {u = u} {job = none} before b e) =
      rw (lease_due_nothing s owner now lease_seconds u e) (JobSteps-IsShut w before)
  JobSteps-IsShut w (leases s owner now lease_seconds {u = u} {job = some job} before b e) =
      let (h, n) = JobSteps-IsShut w before in
      let (r, m, due, same, left) = lease_due_inv s owner now lease_seconds u e in
      let other = lease_due-other s owner now lease_seconds u h b e in
      rw left
        (other_kept job.id (leased_job s owner now lease_seconds) u.rows other (λ x. refl) h, n)
  JobSteps-IsShut w (succeeds s job now {u = u} before other) =
      let (h, n) = JobSteps-IsShut w before in
      (other_kept job.id (succeeded s now job) u.rows other (λ x. refl) h, n)
  JobSteps-IsShut w (fails s job now delay error {u = u} before other) =
      let (h, n) = JobSteps-IsShut w before in
      (other_kept job.id (failed s now delay error job) u.rows other (λ x. refl) h, n)
  JobSteps-IsShut w (ensures s q {u = u} before e) =
      ensure-IsShut s q u (JobSteps-IsShut w before) e

  -- A row that was blocked stays so over the calls, and is not given.
  JobSteps-lease_due :
      (s : Session) (owner : String) (now : ℕ) (lease_seconds : ℤ) {t u v : JobTable}
      {job : ScheduledJob}
      → IsShut id until t
      → JobSteps id until t u
      → now < until
      → lease_due s owner now lease_seconds u ≡ (some job, v)
      → id ≢ job.id
  JobSteps-lease_due s owner now lease_seconds {u = u} w steps b e =
      lease_due-other s owner now lease_seconds u (JobSteps-IsShut w steps).0 b e

-- A lease is exclusive: until it ends, and while no call ends the job itself, the job, whose id is
-- below the next one, is not given again, whoever asks, however many jobs are leased meanwhile,
-- other jobs succeed or fail, and jobs are defined.
pub lease_due_exclusive :
    (s s' : Session) (owner owner' : String) (now now' : ℕ) (lease_seconds lease_seconds' : ℤ)
    (t : JobTable) {job job' : ScheduledJob} {t' u v : JobTable}
    → lease_due s owner now lease_seconds t ≡ (some job, t')
    → job.id < t.next_id
    → JobSteps job.id (now + at_least_one lease_seconds * second) t' u
    → now' < now + at_least_one lease_seconds * second
    → lease_due s' owner' now' lease_seconds' u ≡ (some job', v)
    → job.id ≢ job'.id
unfolding leased_job set_rows is_blocked
lease_due_exclusive s s' owner owner' now now' lease_seconds lease_seconds' t {job} {t' = t'} h n
      steps b k =
    let until = now + at_least_one lease_seconds * second in
    let (r, m, due, e, left) = lease_due_inv s owner now lease_seconds t h in
    let shut =
      set_rows-shut job.id until (leased_job s owner now lease_seconds) job.id t.rows
        (λ x. ground arith) in
    let w : IsShut job.id until t' = rw left (shut, n) in
    JobSteps-lease_due job.id until s' owner' now' lease_seconds' w steps b k

-- A job that has failed, whose id is below the next one, is not given again before its delay, of at
-- least a second, is over, however many jobs are leased meanwhile, other jobs succeed or fail, and
-- jobs are defined.
pub mark_failed-lease_due :
    (s s' : Session) (owner : String) (now now' : ℕ) (delay lease_seconds : ℤ) (error : PyError)
    (job : ScheduledJob) (t : JobTable) {job' : ScheduledJob} {u v : JobTable}
    → job.id < t.next_id
    → JobSteps job.id (now + at_least_one delay * second) (mark_failed s job now delay error t).1 u
    → now' < now + at_least_one delay * second
    → lease_due s' owner now' lease_seconds u ≡ (some job', v)
    → job.id ≢ job'.id
unfolding mark_failed failed set_rows is_blocked
mark_failed-lease_due s s' owner now now' delay lease_seconds error job t n steps b k =
    let until = now + at_least_one delay * second in
    let shut =
      set_rows-shut job.id until (failed s now delay error job) job.id t.rows (λ x. ground arith) in
    JobSteps-lease_due job.id until s' owner now' lease_seconds (shut, n) steps b k

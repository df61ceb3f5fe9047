-- ===== src/Jobs/Ensure.antt =====
-- What `ensure` does to the table of jobs.
use mathlib.Core.List.{Memᴰ}
use books_of_time.Base.{
  ℕ, suc, inl, inr, ◌⊎◌, ◌≡◌, refl, sym, ap, ◌∙◌, Bool, true, false, not, ◌&&◌, ◌||◌, some, String,
  List, [], ◌∷◌, ◌++◌, map, any, filter, ◌==◌, if◌then◌else◌, Bool-cases, arith, ok,
}
use books_of_time.Base.Text.{str_eq_iff}
use books_of_time.Jobs.Rows.{ScheduledJob, JobTable, Session, first, set_rows}
use books_of_time.Jobs.{JobRequest, has_key, new_job, redefined, insert_job, ensure}

-- No two rows share a job_key.
abbrev pub IsUniqueKey : List ScheduledJob → Type 0
IsUniqueKey [] = Unit {0}
IsUniqueKey (x ∷ xs) = (any (has_key x.job_key) xs ≡ false) × IsUniqueKey xs

has_key_intro : (key : String) (r : ScheduledJob) → r.job_key ≡ key → has_key key r ≡ true
has_key_intro key r h = (str_eq_iff r.job_key key).1 h

has_key_elim : (key : String) (r : ScheduledJob) → has_key key r ≡ true → r.job_key ≡ key
has_key_elim key r h = (str_eq_iff r.job_key key).0 h

any-key_mem :
    (key : String) {r : ScheduledJob} {xs : List ScheduledJob}
    → Memᴰ r xs
    → r.job_key ≡ key
    → any (has_key key) xs ≡ true
any-key_mem key {r} {xs = x ∷ xs} (Memᴰ.head e) h =
    rw (has_key_intro key x (ap (λ (y : ScheduledJob). y.job_key) (sym e) ∙ h)) refl
any-key_mem key (Memᴰ.tail m) h = ground (arith, any-key_mem key m h)

-- The lookup by the key of a row finds that row.
first_with_key :
    (key : String) (p : ScheduledJob → Bool) {r : ScheduledJob} {xs : List ScheduledJob}
    → IsUniqueKey xs
    → Memᴰ r xs
    → r.job_key ≡ key
    → p r ≡ true
    → first (filter (λ x. has_key key x && p x) xs) ≡ some r
first_with_key key p {r} u (Memᴰ.head e) h v = ground (arith, has_key_intro key r h)
first_with_key key p {r} {xs = x ∷ xs} u (Memᴰ.tail m) h v = elim (Bool-cases (has_key key x)) [
  | inl c ↦
      let same : r.job_key ≡ x.job_key = h ∙ sym (has_key_elim key x c) in
      absurd (ground (arith, any-key_mem x.job_key m same))
  | inr c ↦ ground (arith, first_with_key key p u.1 m h v)
]

-- `ensure` of a job that is there, and committed, redefines it, and writes only its row: it keeps
-- its next run, its lease and its count of failures, and no job is added.
ensure_existing :
    (s : Session) (q : JobRequest) (t : JobTable) (r : ScheduledJob)
    → IsUniqueKey t.rows
    → Memᴰ r t.rows
    → r.job_key ≡ q.job_key
    → s.uncommitted r ≡ false
    → (job : ScheduledJob) × (ensure s q t ≡ ok (job, set_rows r.id (redefined s q) t))
      × (job.id ≡ r.id)
      × (job.payload ≡ q.payload)
      × (job.next_run_at ≡ r.next_run_at)
      × (job.lease_until ≡ r.lease_until)
      × (job.consecutive_failures ≡ r.consecutive_failures)
unfolding ensure redefined
ensure_existing s q t r u m h c = (
  redefined s q r,
  ground (arith, first_with_key q.job_key (λ (x : ScheduledJob). not (s.uncommitted x)) u m h),
  refl,
  refl,
  refl,
  refl,
  refl,
)

any-key_append :
    (key : String) (xs : List ScheduledJob) (x : ScheduledJob)
    → any (has_key key) (xs ++ x ∷ []) ≡ (any (has_key key) xs || has_key key x)
any-key_append key [] x = ground arith
any-key_append key (y ∷ ys) x = ground (arith, any-key_append key ys x)

has_key_comm : (x y : ScheduledJob) → has_key x.job_key y ≡ true → has_key y.job_key x ≡ true
has_key_comm x y h = has_key_intro y.job_key x (sym (has_key_elim x.job_key y h))

IsUniqueKey-append :
    (xs : List ScheduledJob) (x : ScheduledJob)
    → IsUniqueKey xs
    → any (has_key x.job_key) xs ≡ false
    → IsUniqueKey (xs ++ x ∷ [])
IsUniqueKey-append [] x u h = (refl, tt)
IsUniqueKey-append (y ∷ ys) x u h = (
  ground (arith, any-key_append y.job_key ys x, has_key_comm y x),
  IsUniqueKey-append ys x u.1 (ground arith),
)

module _ (f : ScheduledJob → ScheduledJob) (id : ℕ)
    (keeps : (x : ScheduledJob) → (f x).job_key ≡ x.job_key) where
  any-key_map :
      (key : String) (xs : List ScheduledJob)
      → any (has_key key) (map (λ r. if id == r.id then f r else r) xs) ≡ any (has_key key) xs
  any-key_map key [] = refl
  any-key_map key (x ∷ xs) = elim (Bool-cases (id == x.id)) [
    | inl e ↦ rw (e, keeps x, any-key_map key xs) refl
    | inr e ↦ rw (e, any-key_map key xs) refl
  ]

  IsUniqueKey-map :
      (xs : List ScheduledJob)
      → IsUniqueKey xs
      → IsUniqueKey (map (λ r. if id == r.id then f r else r) xs)
  IsUniqueKey-map [] u = u
  IsUniqueKey-map (x ∷ xs) u = elim (Bool-cases (id == x.id)) [
    | inl e ↦ rw e (rw (keeps x, any-key_map x.job_key xs) u.0, IsUniqueKey-map xs u.1)
    | inr e ↦ rw e (rw (any-key_map x.job_key xs) u.0, IsUniqueKey-map xs u.1)
  ]

ensure_inv :
    (s : Session) (q : JobRequest) (t : JobTable) {job : ScheduledJob} {t' : JobTable}
    → ensure s q t ≡ ok (job, t')
    → (t' ≡ set_rows job.id (redefined s q) t)
      ⊎ ((any (has_key q.job_key) t.rows ≡ false)
          × (t' ≡ record { rows = t.rows ++ new_job s t.next_id q ∷ []; next_id = suc t.next_id }))
unfolding ensure insert_job new_job redefined
ensure_inv s q t h = ground arith

-- `ensure` that returns keeps the keys of the jobs unique.
pub ensure-IsUniqueKey :
    (s : Session) (q : JobRequest) (t : JobTable) {job : ScheduledJob} {t' : JobTable}
    → IsUniqueKey t.rows
    → ensure s q t ≡ ok (job, t')
    → IsUniqueKey t'.rows
unfolding new_job redefined set_rows
ensure-IsUniqueKey s q t {job} u h = elim (ensure_inv s q t h) [
  | inl e ↦ rw e (IsUniqueKey-map (redefined s q) job.id (λ x. refl) t.rows u)
  | inr (n, e) ↦ rw e (IsUniqueKey-append t.rows (new_job s t.next_id q) u n)
]

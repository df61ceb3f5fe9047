-- ===== src/Worker/Settled.antt =====
-- What `run_once` leaves of the task that it leased.
use books_of_time.Base.{
  ℕ, ◌+◌, ◌*◌, ◌≡◌, refl, ◌∙◌, inl, inr, Bool, true, false, not, ◌&&◌, ◌||◌, some, String, List, [],
  ◌∷◌, ◌++◌, map, any, ◌==◌, if◌then◌else◌, is_some, Option-cases, Result-cases, arith, ok,
}
use books_of_time.Base.Int.{pos, ltb_ℤ}
use books_of_time.Base.Time.{second}
use books_of_time.Base.Values.{Entries, entry, empty, str}
use books_of_time.Queue.Types.{CollectionTask, TaskStatus, Transaction}
use books_of_time.Queue.Lease.{is_pending, is_failed, lease_next}
use books_of_time.Backoff.{record_failure}
use books_of_time.Store.{Db}
use books_of_time.Execution.Record.{record_task_failed, record_task_succeeded}
use books_of_time.Execution.Payload.{record_task_failed-Same, record_task_succeeded-Same}
use books_of_time.Worker.{
  CoverageDraft, draft_status, coverage_stat, failed_draft, WorkerDb, Collected, drafted, refused,
  raised, Worker, run_task_failed, run_task_succeeded, update_run, update_task, settle,
  retry_or_fail,
}
use books_of_time.Worker.Run.{
  error_kind_value, refused_extra, exception_extra, task_kind_value, row_or, recovered, start_task,
  end_failed, end_succeeded, finish_task, execute_task, run_once,
}

abbrev has_ended : TaskStatus → Bool
has_ended TaskStatus.succeeded = true
has_ended TaskStatus.failed = true
has_ended _ = false

-- Nobody leases the row, and it has succeeded, has failed for good, or waits, as pending, for a try
-- that it still has.
abbrev is_settled : CollectionTask → Bool
is_settled r =
    not (is_some r.lease_owner || is_some r.lease_until)
    && (has_ended r.status || is_pending r.status && not (ltb_ℤ r.max_retries (pos r.retry_count)))

pub is_unsettled : (id : ℕ) → CollectionTask → Bool
is_unsettled id r = r.id == id && not (is_settled r)

unsettled-payload :
    (id : ℕ) (r : CollectionTask) (x : Entries)
    → is_unsettled id (record r { payload = x }) ≡ is_unsettled id r
unfolding is_unsettled
unsettled-payload id r x = refl

any-update_task :
    (id : ℕ) (f : CollectionTask → CollectionTask) (rows : List CollectionTask)
    → ((r : CollectionTask) → is_unsettled id (f r) ≡ false)
    → any (is_unsettled id) (map (λ (r : CollectionTask). if r.id == id then f r else r) rows)
      ≡ false
unfolding is_unsettled
any-update_task id f [] s = refl
any-update_task id f (r ∷ rows) s = ground (arith, s r, any-update_task id f rows s)

settle-settled :
    (id : ℕ) (status : TaskStatus) (r : CollectionTask)
    → has_ended status ≡ true
    → is_unsettled id (settle status r) ≡ false
unfolding is_unsettled settle
settle-settled id status r n = ground arith

retry_or_fail-settled :
    (id backoff_until : ℕ) (r : CollectionTask)
    → is_unsettled id (retry_or_fail backoff_until r) ≡ false
unfolding is_unsettled retry_or_fail settle
retry_or_fail-settled id backoff_until r = ground arith

module _ (w : Worker) (now finished_at : ℕ) (task : CollectionTask) where
  end_failed-settled :
      (reason : String) (extra : Entries) (f : CollectionTask → CollectionTask) (d : Db) {d' : Db}
      → ((r : CollectionTask) → is_unsettled task.id (f r) ≡ false)
      → end_failed w now finished_at reason extra f task d ≡ ok d'
      → any (is_unsettled task.id) d'.tasks.rows ≡ false
  unfolding end_failed update_task
  end_failed-settled reason extra f d {d'} s h =
      let coverage =
        coverage_stat task w.run_id (failed_draft task reason extra) "failed" now finished_at in
      let ended = f (row_or task d.tasks.rows) in
      let mid = record d {
        coverage = d.coverage ++ coverage ∷ [];
        runs = update_run w.run_id (run_task_failed finished_at) d.runs;
        tasks = update_task task.id f d.tasks;
      } in
      elim (Result-cases
        (record_task_failed w.iso w.sees ended coverage (is_failed ended.status) finished_at mid)) [
          | inl (e, r) ↦ absurd (ground arith)
          | inr (out, r) ↦
              let same : d' ≡ out.1 = ground arith in
              rw same (
                record_task_failed-Same (is_unsettled task.id) (unsettled-payload task.id) w.iso
                  w.sees ended coverage (is_failed ended.status) finished_at mid r
                ∙ any-update_task task.id f d.tasks.rows s)
        ]

  end_succeeded-settled :
      (draft : CoverageDraft) (d : Db) {d' : Db}
      → end_succeeded w now finished_at draft task d ≡ ok d'
      → any (is_unsettled task.id) d'.tasks.rows ≡ false
  unfolding end_succeeded update_task
  end_succeeded-settled draft d {d'} h =
      let coverage = coverage_stat task w.run_id draft (draft_status draft) now finished_at in
      let ended = settle TaskStatus.succeeded (row_or task d.tasks.rows) in
      let mid = record d {
        coverage = d.coverage ++ coverage ∷ [];
        runs = update_run w.run_id (run_task_succeeded finished_at) d.runs;
        tasks = update_task task.id (settle TaskStatus.succeeded) d.tasks;
      } in
      elim (Result-cases (record_task_succeeded w.iso ended coverage finished_at mid)) [
        | inl (e, r) ↦ absurd (ground arith)
        | inr (out, r) ↦
            let same : d' ≡ out.1 = ground arith in
            rw same (
              record_task_succeeded-Same (is_unsettled task.id) (unsettled-payload task.id) w.iso
                ended coverage finished_at mid r
              ∙ any-update_task task.id (settle TaskStatus.succeeded) d.tasks.rows
                  (λ r. settle-settled task.id TaskStatus.succeeded r refl))
      ]

  finish_task-settled :
      (c : Collected) (d : WorkerDb) {d' : WorkerDb}
      → finish_task w now finished_at task c d ≡ ok d'
      → any (is_unsettled task.id) d'.db.tasks.rows ≡ false
  unfolding finish_task
  finish_task-settled (drafted draft) d {d'} h =
      elim (Result-cases (end_succeeded w now finished_at draft task d.db)) [
        | inl (e, r) ↦ absurd (ground arith)
        | inr (x, r) ↦
            let same : d'.db ≡ x = ground arith in rw same (end_succeeded-settled draft d.db r)
      ]
  finish_task-settled (refused type_name failure) d {d'} h =
      let until =
        (record_failure "bilibili" "global" failure now w.request_backoff_defaults
          w.request_backoff_max_seconds d.backoffs).0.backoff_until in
      let extra = refused_extra type_name failure in
      elim (Result-cases (
        end_failed w now finished_at (error_kind_value failure.kind) extra (retry_or_fail until)
          task d.db)) [
            | inl (e, r) ↦ absurd (ground arith)
            | inr (x, r) ↦
                let same : d'.db ≡ x = ground arith in
                rw same (
                  end_failed-settled (error_kind_value failure.kind) extra (retry_or_fail until)
                    d.db (retry_or_fail-settled task.id until) r)
          ]
  finish_task-settled (raised type_name message) d {d'} h =
      let until = now + w.retry_delay_seconds * second in
      let extra = exception_extra type_name message empty in
      elim (Result-cases (
        end_failed w now finished_at "collector_exception" extra (retry_or_fail until) task d.db)) [
          | inl (e, r) ↦ absurd (ground arith)
          | inr (x, r) ↦
              let same : d'.db ≡ x = ground arith in
              rw same (
                end_failed-settled "collector_exception" extra (retry_or_fail until) d.db
                  (retry_or_fail-settled task.id until) r)
        ]

  execute_task-settled :
      (d : WorkerDb) {d' : WorkerDb}
      → execute_task w now finished_at task d ≡ ok d'
      → any (is_unsettled task.id) d'.db.tasks.rows ≡ false
  unfolding execute_task
  execute_task-settled d {d'} h = elim (Option-cases (w.collectors task.kind)) [
    | inr (collect, c) ↦
        let f : finish_task w now finished_at task ((collect task d).0) ((collect task d).1)
            ≡ ok d' =
          ground arith in
        finish_task-settled ((collect task d).0) ((collect task d).1) f
    | inl c ↦
        let extra = entry (some "task_kind") (str (task_kind_value task.kind)) empty in
        elim (Result-cases (
          end_failed w now finished_at "no_collector" extra (settle TaskStatus.failed) task d.db)) [
            | inl (e, r) ↦ absurd (ground arith)
            | inr (x, r) ↦
                let same : d'.db ≡ x = ground arith in
                rw same (
                  end_failed-settled "no_collector" extra (settle TaskStatus.failed) d.db
                    (λ r. settle-settled task.id TaskStatus.failed r refl) r)
          ]
  ]

-- A call of `run_once` that commits a task leaves it settled, whatever its collector did: nobody
-- leases a row of its id, and each has succeeded, or failed for good, or waits, as pending, for a
-- try that it still has. (A collector that deletes the row leaves none.)
pub run_once-settled :
    (w : Worker) (tx : Transaction) (now finished_at : ℕ) (d : WorkerDb) {d' : WorkerDb}
    → run_once w tx now finished_at d ≡ ok (true, d')
    → (task : CollectionTask) × ((lease_next tx w.lease_owner now w.lease_seconds
          (recovered tx now d.db.tasks)).0
        ≡ some task)
      × (any (is_unsettled task.id) d'.db.tasks.rows ≡ false)
unfolding run_once
run_once-settled w tx now finished_at d {d'} h =
    let tasks = recovered tx now d.db.tasks in
    let lease = lease_next tx w.lease_owner now w.lease_seconds tasks in
    elim (Option-cases (lease.0)) [
      | inl n ↦ absurd (ground arith)
      | inr (task, n) ↦
          let leased = record (d.db) { tasks = lease.1 } in
          elim (Result-cases (start_task w now task leased)) [
            | inl (e, s) ↦ absurd (ground arith)
            | inr (started, s) ↦
                let before = record d { db = started } in
                elim (Result-cases (execute_task w now finished_at task before)) [
                  | inl (e, x) ↦ absurd (ground arith)
                  | inr (ended, x) ↦
                      let same : d' ≡ ended = ground arith in
                      let settled = execute_task-settled w now finished_at task before x in
                      (task, n, rw same settled)
                ]
          ]
    ]

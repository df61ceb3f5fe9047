-- ===== src/Worker/Run.antt =====
-- `run_once` and `run_loop` of worker.py.
use books_of_time.Base.{
  ℕ, zero, suc, ◌+◌, ◌*◌, Bool, true, false, Option, none, some, String, List, [], ◌∷◌, ◌++◌, ◌==◌,
  if◌then◌else◌, Result, ok, ◌>>=◌,
}
use books_of_time.Base.Int.{pos}
use books_of_time.Base.Time.{second}
use books_of_time.Base.Values.{Value, Entries, int, null, str, empty, entry}
use books_of_time.Queue.Types.{TaskKind, TaskStatus, CollectionTask, TaskTable, Transaction}
use books_of_time.Queue.Lease.{lease_next, recover_expired_leases, is_failed}
use books_of_time.Backoff.{
  BilibiliRequestType, RequestErrorKind, RequestFailure, record_failure, reset_all_success,
}
use books_of_time.Store.{Db, StoreError}
use books_of_time.Execution.{mark_task_started}
use books_of_time.Execution.Record.{record_task_succeeded, record_task_failed}
use books_of_time.Worker.{
  CoverageDraft, draft_status, coverage_stat, failed_draft, WorkerDb, Collected, drafted, refused,
  raised, Worker, get_or_create_running, run_task_started, run_task_succeeded, run_task_failed,
  update_run, update_task, settle, retry_or_fail,
}

-- `kind.value` of a task, of a failure and of a request.
abbrev pub task_kind_value : TaskKind → String
task_kind_value TaskKind.fetch_video_info = "fetch_video_info"
task_kind_value TaskKind.fetch_video_stats = "fetch_video_stats"
task_kind_value TaskKind.fetch_hot_comments = "fetch_hot_comments"
task_kind_value TaskKind.fetch_latest_comments = "fetch_latest_comments"
task_kind_value TaskKind.fetch_comment_replies = "fetch_comment_replies"
task_kind_value TaskKind.fetch_media_asset = "fetch_media_asset"
task_kind_value TaskKind.discover_user_videos = "discover_user_videos"
task_kind_value TaskKind.analyze_similar_media = "analyze_similar_media"

abbrev pub error_kind_value : RequestErrorKind → String
error_kind_value RequestErrorKind.timeout = "timeout"
error_kind_value RequestErrorKind.network = "network"
error_kind_value RequestErrorKind.forbidden = "403"
error_kind_value RequestErrorKind.rate_limited = "429"
error_kind_value RequestErrorKind.captcha = "captcha"
error_kind_value RequestErrorKind.server_error = "5xx"
error_kind_value RequestErrorKind.parse_error = "parse_error"

abbrev pub request_type_value : BilibiliRequestType → String
request_type_value BilibiliRequestType.video_info = "video_info"
request_type_value BilibiliRequestType.video_stats = "video_stats"
request_type_value BilibiliRequestType.comment_hot = "comment_hot"
request_type_value BilibiliRequestType.comment_latest = "comment_latest"
request_type_value BilibiliRequestType.comment_reply = "comment_reply"
request_type_value BilibiliRequestType.media_image = "media_image"
request_type_value BilibiliRequestType.user_video_list = "user_video_list"
request_type_value BilibiliRequestType.search_video = "search_video"
request_type_value BilibiliRequestType.default = "default"

abbrev pub code_value : Option ℕ → Value
code_value none = null
code_value (some n) = int (pos n)

-- The `extra` of the coverage after an exception.
abbrev pub exception_extra : (type_name message : String) → Entries → Entries
exception_extra type_name message rest =
    entry (some "exception_type") (str type_name) (entry (some "message") (str message) rest)

abbrev pub refused_extra : (type_name : String) → RequestFailure → Entries
refused_extra type_name failure = exception_extra type_name failure.message (
    entry (some "request_type") (str (request_type_value failure.request_type))
      (entry (some "status_code") (code_value failure.status_code) empty))

-- The worker's task object: the row as it is now.
abbrev pub row_or : CollectionTask → List CollectionTask → CollectionTask
row_or task [] = task
row_or task (r ∷ rs) = let later = row_or task rs in if r.id == task.id then r else later

abbrev pub update_db : (Db → Db) → WorkerDb → WorkerDb
update_db f d = record d { db = f d.db }

-- The run and the task, once the task is leased.
unfoldable pub start_task : Worker → (now : ℕ) → CollectionTask → Db → Result StoreError Db
start_task w now task d =
    mark_task_started task now (record d {
      runs =
          update_run w.run_id (run_task_started now)
            (get_or_create_running w.run_id w.lease_owner now d.runs);
    })
    >>= λ started. ok (started.1)

-- The end of a task that failed: its coverage, its run, its row as `f` makes it, and its cohort.
unfoldable pub end_failed :
    Worker
    → (now finished_at : ℕ) (reason : String) → Entries
    → (f : CollectionTask → CollectionTask) → CollectionTask
    → Db
    → Result StoreError Db
end_failed w now finished_at reason extra f task d =
    let coverage =
      coverage_stat task w.run_id (failed_draft task reason extra) "failed" now finished_at in
    let tasks = update_task task.id f d.tasks in
    let ended = f (row_or task d.tasks.rows) in
    record_task_failed w.iso w.sees ended coverage (is_failed ended.status) finished_at (record d {
      coverage = d.coverage ++ coverage ∷ [];
      runs = update_run w.run_id (run_task_failed finished_at) d.runs;
      tasks = tasks;
    })
    >>= λ recorded. ok (recorded.1)

-- The end of a task that succeeded.
unfoldable pub end_succeeded :
    Worker → (now finished_at : ℕ) → CoverageDraft → CollectionTask → Db → Result StoreError Db
end_succeeded w now finished_at draft task d =
    let coverage = coverage_stat task w.run_id draft (draft_status draft) now finished_at in
    let ended = settle TaskStatus.succeeded (row_or task d.tasks.rows) in
    record_task_succeeded w.iso ended coverage finished_at (record d {
      coverage = d.coverage ++ coverage ∷ [];
      runs = update_run w.run_id (run_task_succeeded finished_at) d.runs;
      tasks = update_task task.id (settle TaskStatus.succeeded) d.tasks;
    })
    >>= λ recorded. ok (recorded.1)

-- What follows the call of the collector.
unfoldable pub finish_task :
    Worker
    → (now finished_at : ℕ) → CollectionTask
    → Collected
    → WorkerDb
    → Result StoreError WorkerDb
finish_task w now finished_at task (drafted draft) d =
    end_succeeded w now finished_at draft task d.db >>= λ db.
    ok (record { db = db; backoffs = reset_all_success "bilibili" "global" finished_at d.backoffs })
finish_task w now finished_at task (refused type_name failure) d =
    let (backoff, backoffs) =
      record_failure "bilibili" "global" failure now w.request_backoff_defaults
        w.request_backoff_max_seconds d.backoffs in
    end_failed w now finished_at (error_kind_value failure.kind) (refused_extra type_name failure)
      (retry_or_fail backoff.backoff_until) task d.db
    >>= λ db. ok (record { db = db; backoffs = backoffs })
finish_task w now finished_at task (raised type_name message) d =
    end_failed w now finished_at "collector_exception" (exception_extra type_name message empty)
      (retry_or_fail (now + w.retry_delay_seconds * second)) task d.db
    >>= λ db. ok (record d { db = db })

-- The leased task is given to the collector of its kind.
unfoldable pub execute_task :
    Worker → (now finished_at : ℕ) → CollectionTask → WorkerDb → Result StoreError WorkerDb
execute_task w now finished_at task d = elim (w.collectors task.kind) [
  | none ↦
      end_failed w now finished_at "no_collector"
        (entry (some "task_kind") (str (task_kind_value task.kind)) empty)
        (settle TaskStatus.failed) task d.db
      >>= λ db. ok (record d { db = db })
  | some collect ↦ finish_task w now finished_at task ((collect task d).0) ((collect task d).1)
]

-- The tasks as the transaction leaves them once the expired leases are taken back.
abbrev pub recovered : Transaction → (now : ℕ) → TaskTable → TaskTable
recovered tx now t = (recover_expired_leases tx now 100 t).1

-- `run_once`. Without a task the transaction is rolled back; an exception of a repository leaves it
-- to be rolled back.
unfoldable pub run_once :
    Worker → Transaction → (now finished_at : ℕ) → WorkerDb → Result StoreError (Bool × WorkerDb)
run_once w tx now finished_at d =
    let (given, tasks) =
      lease_next tx w.lease_owner now w.lease_seconds (recovered tx now d.db.tasks) in
    elim given [
      | none ↦ ok (false, d)
      | some task ↦ do
        started ← start_task w now task (record (d.db) { tasks = tasks })
        ended ← execute_task w now finished_at task (record d { db = started })
        ok (true, ended)
    ]

-- `run_loop` with `max_iterations`, from a state of the world that each call changes. `stop` is the
-- stop event, and the call tells whether it executed a task.
unfoldable pub run_loop :
    {S : Type 0} (run : S → Bool × S) (stop : S → Bool) (stop_when_idle : Bool) (max_iterations : ℕ)
    → S
    → ℕ × S
run_loop run stop stop_when_idle zero s = (0, s)
run_loop run stop stop_when_idle (suc n) s =
    let (executed, s') = run s in
    let (count, last) = run_loop run stop stop_when_idle n s' in
    if stop s
    then (0, s)
    else if executed
    then (suc count, last)
    else if stop_when_idle
    then (0, s')
    else (count, last)

-- ===== src/Lib.antt =====
-- books_of_time: the core of the collector, modelled and verified.
--
-- books_of_time watches videos of a platform and keeps snapshots of their numbers and comments. A
-- policy (books_of_time/domain/cohort_policy.py) decides what to collect of a video and when; the
-- decisions become rows of a task table, which workers lease, run and finish through the
-- repositories of books_of_time/db/repositories.py; failures of requests are answered by a delay
-- that grows with their number. A task may belong to a component of a cohort, the parts of one
-- snapshot, and to a scan of comments that goes on over several tasks: the repository of cohorts
-- (db/cohort_repositories.py) carries the end of a task over to its scan, its component and its
-- cohort. A scan of the newest comments owns the frontier of its video, a row written by
-- compare-and-swap.
--
-- Files and code:
--   Base         shared names and lemmas: errors as values (Base/Exceptions), integers over the
--                native numbers (Base/Int), instants and fractions (Base/Time), text (Base/Text),
--                queries on a table of rows (Base/Rows), permutations (Base/Perms), the values of
--                JSON and dicts (Base/Values)
--   Cohort       domain/cohort_policy.py. Types: its enums and dataclasses. Tier: desired_tier,
--                apply_tier_assessment, and apply_assessment of db/cohort_repositories.py, which
--                feeds each result to the next call. Status: aggregate_cohort_status. Timing:
--                windows, intervals, aligned slots, checkpoints. Stage: determine_life_stage,
--                component_kinds_for_stage, hot_page_plan
--   Config       CohortPolicy.from_config of domain/cohort_policy.py and its validators: Values has
--                the values of a configuration and their readers, Sections and Windows the readers
--                of its sections
--   Queue        CollectionTaskRepository of db/repositories.py over the table CollectionTask of
--                db/models.py. Table: the two unique indexes and the lookups. Enqueue: enqueue and
--                its validations. Lease: lease_next, recover_expired_leases, retry_failed,
--                list_tasks; Lease/Exclusive has the calls in sequence as a step relation
--   Jobs         ScheduledJobRepository of db/repositories.py over the table ScheduledJob (Jobs/Rows):
--                ensure, lease_due, mark_succeeded, mark_failed; Jobs/Exclusive has the calls of several
--                sessions as a step relation
--   Scan         CommentScanRunRepository of db/comment_scan_repositories.py over the table
--                CommentScanRun (Scan/Types). Transitions: what the operations write to a row, as
--                functions of the row, which the scans of the newest comments share. Progress: the
--                operations as a step relation; Identity: one scan for each key
--   Frontier     FrontierStateRepository of db/repositories.py; Frontier/Anchors is
--                domain/latest_frontier.py. Versions: the calls of several writers as a step
--                relation; Register: the registers that the rows refine
--   Latest       LatestScanRunRepository of db/latest_scan_repositories.py: the operations on a scan,
--                in Latest/Plan the plan of one, in Latest/Claim claim_or_join, and in Latest/Tail
--                and Latest/Head complete_tail_and_create_head; Stranded: the components that wait
--   Store        the tables of db/models.py for cohorts, components, runs and coverage, and all tables
--                together (Db); Keys: the keys of slices
--   Execution    SnapshotCohortExecutionRepository of db/cohort_repositories.py. Recompute:
--                _recompute_cohort; Failure: record_task_failed without a scan of the newest comments;
--                Consumers: the components that wait for such a scan; Record: the whole of
--                record_task_succeeded and record_task_failed; Chain: the loop over parent scans
--   Worker       worker.py (Worker/Run), with CollectionRunRepository and CollectionCoverageRepository
--                of db/repositories.py and coverage.py; the collectors are a parameter
--   Backoff      RequestBackoffRepository and _backoff_seconds of db/repositories.py, with the
--                failures of http/errors.py
--
-- Conventions. An instant is the number of microseconds since the year 1, as a native natural
-- number; a timedelta is an integer number of microseconds; the offset of a time zone is a
-- parameter, as are the zones that a host knows and the decimal digits of Unicode. A float
-- that the code only compares is a fraction with a positive denominator. A SELECT is a
-- function of the rows of the table; rows that another transaction has locked or not yet
-- committed are parameters of a transaction (`unseen`; `locked` and `uncommitted` for jobs).
-- ORDER BY with ties leaves them in the order of the table. A flush checks the unique indexes;
-- the foreign keys are taken to exist. The payload of a job is text, that of a task a dict. Columns of
-- JSON are Base/Values' dicts. `fromisoformat` and `isoformat` of datetime are a parameter, with the
-- hypothesis that the one reads what the other writes. An exception of a repository ends the
-- transaction, which is rolled back, so that an error has no table with it; a savepoint is undone to
-- the tables before it. Seconds of leases and delays are
-- natural numbers. The missed slots of a job are counted exactly, as the code's floats do for
-- spans below 2^32 seconds. Most loops of the modelled code are over a list or bounded by
-- arithmetic. The loop over the parents of a scan (Execution/Chain) runs on fuel, one more than the
-- rows of the table, which is enough because it visits no row twice; the digits of a number
-- (Store/Keys) on one more than the number.
--
-- Not modelled: the repositories that plan cohorts, repair_latest_consumers of the execution
-- repository, the cohort planner and the service, whose state machines stand on what is modelled
-- here; the collectors, which are a parameter of the worker; the other repositories, which insert
-- and look up rows; discovery, the rate limiter and the classification of responses; network,
-- files, accounts, media, the command line, migrations, parsing of responses, and statistics in
-- floats, latest_slice_seconds among them.
-- CohortPolicy.as_persisted_policy and the string keys of cohorts are formatting and left out.
pub mod Base
pub mod Cohort
pub mod Queue
pub mod Config
pub mod Jobs
pub mod Scan
pub mod Frontier
pub mod Latest
pub mod Store
pub mod Execution
pub mod Worker
pub mod Backoff

-- ===== src/Queue/Types.antt =====
-- The rows of the table `collection_tasks`, and the transaction that an operation runs in.
use books_of_time.Base.{ℕ, String, Bool, Option, List}
use books_of_time.Base.Values.{Entries}
use books_of_time.Base.Int.{ℤ}

pub data TaskKind : Type 0 where
  fetch_video_info fetch_video_stats fetch_hot_comments fetch_latest_comments : TaskKind
  fetch_comment_replies fetch_media_asset discover_user_videos analyze_similar_media : TaskKind

-- The place of a kind among the members of the enum; two kinds are equal where these are.
abbrev pub kind_code : TaskKind → ℕ
kind_code fetch_video_info = 0
kind_code fetch_video_stats = 1
kind_code fetch_hot_comments = 2
kind_code fetch_latest_comments = 3
kind_code fetch_comment_replies = 4
kind_code fetch_media_asset = 5
kind_code discover_user_videos = 6
kind_code analyze_similar_media = 7

pub data TaskStatus : Type 0 where
  pending running succeeded failed backoff : TaskStatus

-- The columns of a row, the times as instants.
pub record CollectionTask : Type 0 where
  pub id : ℕ
  pub kind : TaskKind
  pub target_type : String
  pub target_id : String
  pub idempotency_key : Option String
  pub priority : ℤ
  pub budget_cost : ℤ
  pub status : TaskStatus
  pub payload : Entries
  pub not_before : ℕ
  pub lease_owner : Option String
  pub lease_until : Option ℕ
  pub retry_count : ℕ
  pub max_retries : ℤ
  pub snapshot_cohort_id : Option ℕ
  pub snapshot_cohort_component_id : Option ℕ
  pub comment_scan_run_id : Option ℕ
  pub scan_slice_no : Option ℤ
  pub scan_slice_key : Option String
  pub created_at : ℕ
  pub updated_at : ℕ

-- The table, and the id that the next insert takes.
pub record TaskTable : Type 0 where
  pub rows : List CollectionTask
  pub next_id : ℕ

-- What a transaction meets: the server's clock, and the rows that a query with SKIP LOCKED passes
-- over, because another transaction has locked them or has not yet committed them.
pub record Transaction : Type 0 where
  pub clock : ℕ
  pub unseen : CollectionTask → Bool

-- ===== src/Backoff.antt =====
-- `RequestBackoffRepository` and `_backoff_seconds` of db/repositories.py, over the table
-- `request_backoff_states` of db/models.py, and the kinds of failure of http/errors.py.
pub mod Seconds
pub mod Streak
mod Tests
use books_of_time.Base.{
  ℕ, ◌+◌, ◌-◌, ◌*◌, ◌^◌, min, Bool, true, false, ◌&&◌, Option, none, some, String, List, [], ◌∷◌,
  ◌++◌, map, any, ◌==◌, if◌then◌else◌,
}
use books_of_time.Base.Text.{str_eq}
use books_of_time.Base.Time.{second}

-- `BilibiliRequestType` of domain/enums.py.
pub data BilibiliRequestType : Type 0 where
  video_info video_stats comment_hot comment_latest comment_reply media_image : BilibiliRequestType
  user_video_list search_video default : BilibiliRequestType

-- The place of a member in the enum; two members are equal where these are.
abbrev pub type_code : BilibiliRequestType → ℕ
type_code BilibiliRequestType.video_info = 0
type_code BilibiliRequestType.video_stats = 1
type_code BilibiliRequestType.comment_hot = 2
type_code BilibiliRequestType.comment_latest = 3
type_code BilibiliRequestType.comment_reply = 4
type_code BilibiliRequestType.media_image = 5
type_code BilibiliRequestType.user_video_list = 6
type_code BilibiliRequestType.search_video = 7
type_code BilibiliRequestType.default = 8

pub data RequestErrorKind : Type 0 where
  timeout network forbidden rate_limited captcha server_error parse_error : RequestErrorKind

pub record RequestFailure : Type 0 where
  pub kind : RequestErrorKind
  pub request_type : BilibiliRequestType
  pub message : String
  pub status_code : Option ℕ
  pub retry_after_seconds : Option ℕ

-- A row of `request_backoff_states`.
pub record RequestBackoffState : Type 0 where
  pub platform : String
  pub request_type : BilibiliRequestType
  pub scope : String
  pub error_kind : RequestErrorKind
  pub status_code : Option ℕ
  pub retry_after_seconds : Option ℕ
  pub fail_count : ℕ
  pub first_failed_at : ℕ
  pub last_failed_at : ℕ
  pub backoff_until : ℕ
  pub last_message : String
  pub created_at : ℕ
  pub updated_at : ℕ

abbrev pub or_default : Option ℕ → ℕ → ℕ
or_default none d = d
or_default (some n) d = n

-- `_backoff_seconds`. A count of zero or one gives the exponent zero, as `max(fail_count - 1, 0)`.
pub backoff_seconds :
    RequestFailure
    → (fail_count : ℕ) (default_seconds : RequestErrorKind → Option ℕ) (max_seconds : ℕ) → ℕ
backoff_seconds failure fail_count default_seconds max_seconds =
    let base =
      or_default failure.retry_after_seconds (or_default (default_seconds failure.kind) 300) in
    min (base * 2 ^ min (fail_count - 1) 5) max_seconds

-- The WHERE of the lookups.
abbrev pub is_in_scope : String → String → RequestBackoffState → Bool
is_in_scope platform scope r = str_eq r.platform platform && str_eq r.scope scope

abbrev pub is_for : String → String → BilibiliRequestType → RequestBackoffState → Bool
is_for platform scope type r =
    is_in_scope platform scope r && type_code r.request_type == type_code type

-- The row that `record_failure` adds where there is none.
pub first_failure : String → String → RequestFailure → ℕ → RequestBackoffState
first_failure platform scope failure now = record {
  platform = platform;
  request_type = failure.request_type;
  scope = scope;
  error_kind = failure.kind;
  status_code = failure.status_code;
  retry_after_seconds = failure.retry_after_seconds;
  fail_count = 0;
  first_failed_at = now;
  last_failed_at = now;
  backoff_until = now;
  last_message = failure.message;
  created_at = now;
  updated_at = now;
}

-- What `record_failure` writes to the row.
pub failed_again :
    RequestFailure
    → (now : ℕ) (default_seconds : RequestErrorKind → Option ℕ) (max_seconds : ℕ)
    → RequestBackoffState
    → RequestBackoffState
failed_again failure now default_seconds max_seconds r =
    let count = r.fail_count + 1 in
    let delay = backoff_seconds failure count default_seconds max_seconds in
    record r {
      fail_count = count;
      error_kind = failure.kind;
      status_code = failure.status_code;
      retry_after_seconds = failure.retry_after_seconds;
      last_failed_at = now;
      last_message = failure.message;
      backoff_until = now + delay * second;
      updated_at = now;
    }

abbrev pub BackoffTable : Type 0
BackoffTable = List RequestBackoffState

-- The first row that satisfies the test, and the table with it replaced; the row that is added
-- where none does.
pub upsert :
    (RequestBackoffState → Bool)
    → (RequestBackoffState → RequestBackoffState)
    → RequestBackoffState
    → BackoffTable
    → RequestBackoffState × BackoffTable
upsert p f new [] = (f new, f new ∷ [])
upsert p f new (r ∷ rs) =
    let (row, rest) = upsert p f new rs in if p r then (f r, f r ∷ rs) else (row, r ∷ rest)

unfoldable pub record_failure :
    (platform scope : String)
    → RequestFailure
    → (now : ℕ) (default_seconds : RequestErrorKind → Option ℕ) (max_seconds : ℕ) → BackoffTable
    → RequestBackoffState × BackoffTable
record_failure platform scope failure now default_seconds max_seconds =
    upsert (is_for platform scope failure.request_type)
      (failed_again failure now default_seconds max_seconds)
      (first_failure platform scope failure now)

pub reset : ℕ → RequestBackoffState → RequestBackoffState
reset now r = record r { fail_count = 0; backoff_until = now; updated_at = now }

-- The update of the first row that satisfies the test, if there is one.
pub update_first :
    (RequestBackoffState → Bool)
    → (RequestBackoffState → RequestBackoffState)
    → BackoffTable
    → BackoffTable
update_first p f [] = []
update_first p f (r ∷ rs) = let rest = update_first p f rs in if p r then f r ∷ rs else r ∷ rest

pub reset_success :
    (platform scope : String) → BilibiliRequestType → ℕ → BackoffTable → BackoffTable
reset_success platform scope type now = update_first (is_for platform scope type) (reset now)

unfoldable pub reset_all_success : (platform scope : String) → ℕ → BackoffTable → BackoffTable
reset_all_success platform scope now =
    map (λ r. if is_in_scope platform scope r then reset now r else r)

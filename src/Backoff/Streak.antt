-- ===== src/Backoff/Streak.antt =====
-- How a row of `request_backoff_states` counts the failures in a row.
use books_of_time.Base.{
  ℕ, ◌+◌, ◌*◌, ◌≡◌, ◌≢◌, refl, ap, ◌∙◌, inl, inr, Bool, true, false, Option, none, some, String,
  List, [], ◌∷◌, length, All, if◌then◌else◌, arith, Bool-cases,
}
use books_of_time.Base.Text.{str_eq_iff}
use books_of_time.Base.Time.{second}
use books_of_time.Backoff.{
  BilibiliRequestType, RequestFailure, RequestErrorKind, RequestBackoffState, BackoffTable, is_for,
  first_failure, failed_again, backoff_seconds, upsert, record_failure, reset, reset_all_success,
}

-- The row of a request type within a scope of a platform.
pub row_for : (RequestBackoffState → Bool) → BackoffTable → Option RequestBackoffState
row_for p [] = none
row_for p (r ∷ rs) = let rest = row_for p rs in if p r then some r else rest

abbrev count_in : Option RequestBackoffState → ℕ
count_in none = 0
count_in (some r) = r.fail_count

-- The failures in a row that are on record.
pub fail_count : (platform scope : String) → BilibiliRequestType → BackoffTable → ℕ
fail_count platform scope type t = count_in (row_for (is_for platform scope type) t)

abbrev or_row : Option RequestBackoffState → RequestBackoffState → RequestBackoffState
or_row none new = new
or_row (some r) new = r

module _ (p : RequestBackoffState → Bool) (f : RequestBackoffState → RequestBackoffState)
    (new : RequestBackoffState) (keeps : (r : RequestBackoffState) → p (f r) ≡ p r)
    (fits : p new ≡ true) where
  upsert-row_for :
      (t : BackoffTable)
      → let (row, t') = upsert p f new t in
        (row_for p t' ≡ some row) × (row ≡ f (or_row (row_for p t) new))
  unfolding upsert row_for
  upsert-row_for [] = (ground (arith, keeps new), refl)
  upsert-row_for (r ∷ rs) = elim (Bool-cases (p r)) [
    | inl e ↦ (ground (arith, keeps r), ground arith)
    | inr e ↦ let (found, made) = upsert-row_for rs in (ground arith, ground arith)
  ]

  upsert-other :
      (q : RequestBackoffState → Bool)
      → ((r : RequestBackoffState) → q (f r) ≡ q r)
      → ((r : RequestBackoffState) → p r ≡ true → q r ≡ false)
      → (t : BackoffTable) → row_for q (upsert p f new t).1 ≡ row_for q t
  unfolding upsert row_for
  upsert-other q same apart [] = ground (arith, same new, apart new fits)
  upsert-other q same apart (r ∷ rs) = ground (arith, same r, apart r, upsert-other q same apart rs)

module _ (platform scope : String) (default_seconds : RequestErrorKind → Option ℕ)
    (max_seconds : ℕ) where
  is_for_again :
      (type : BilibiliRequestType) (failure : RequestFailure) (now : ℕ) (r : RequestBackoffState)
      → is_for platform scope type (failed_again failure now default_seconds max_seconds r)
        ≡ is_for platform scope type r
  unfolding failed_again
  is_for_again type failure now r = refl

  is_for_first :
      (failure : RequestFailure) (now : ℕ)
      → is_for platform scope failure.request_type (first_failure platform scope failure now) ≡ true
  unfolding first_failure
  is_for_first failure now = ground (arith, str_eq_iff platform platform, str_eq_iff scope scope)

  is_for_apart :
      (type other : BilibiliRequestType) (r : RequestBackoffState)
      → type ≢ other
      → is_for platform scope type r ≡ true
      → is_for platform scope other r ≡ false
  is_for_apart type other r n h = ground arith

  count_first :
      (failure : RequestFailure) (now : ℕ) (o : Option RequestBackoffState)
      → (or_row o (first_failure platform scope failure now)).fail_count ≡ count_in o
  unfolding first_failure
  count_first failure now none = refl
  count_first failure now (some r) = refl

  failed_again_lem :
      (failure : RequestFailure) (now : ℕ) (r : RequestBackoffState)
      → let r' = failed_again failure now default_seconds max_seconds r in
        (r'.fail_count ≡ r.fail_count + 1)
        × (r'.backoff_until
            ≡ now + backoff_seconds failure r'.fail_count default_seconds max_seconds * second)
  unfolding failed_again
  failed_again_lem failure now r = (refl, refl)

  -- A failure adds one to the failures on record for its request type, the row that is returned
  -- says so and asks to wait for the delay of that many failures; the rows of every other request
  -- type stay as they are.
  pub record_failure-fail_count :
      (failure : RequestFailure) (now : ℕ) (other : BilibiliRequestType) (t : BackoffTable)
      → failure.request_type ≢ other
      → let (row, t') = record_failure platform scope failure now default_seconds max_seconds t in
        (row_for (is_for platform scope failure.request_type) t' ≡ some row)
        × (row.fail_count ≡ fail_count platform scope failure.request_type t + 1)
        × (row.backoff_until
            ≡ now + backoff_seconds failure row.fail_count default_seconds max_seconds * second)
        × (row_for (is_for platform scope other) t' ≡ row_for (is_for platform scope other) t)
  unfolding record_failure fail_count
  record_failure-fail_count failure now other t n =
      let p = is_for platform scope failure.request_type in
      let f = failed_again failure now default_seconds max_seconds in
      let new = first_failure platform scope failure now in
      let (found, made) =
        upsert-row_for p f new (is_for_again failure.request_type failure now)
          (is_for_first failure now) t in
      let (count, until) = failed_again_lem failure now (or_row (row_for p t) new) in
      (
        found,
        rw made (count ∙ ap (λ k. k + 1) (count_first failure now (row_for p t))),
        rw made until,
        upsert-other p f new (is_for_again failure.request_type failure now)
            (is_for_first failure now) (is_for platform scope other)
            (is_for_again other failure now) (λ r. is_for_apart failure.request_type other r n) t,
      )

  -- A row of failures, each with its time.
  pub record_failures : List (RequestFailure × ℕ) → BackoffTable → BackoffTable
  record_failures [] t = t
  record_failures ((failure, now) ∷ es) t =
      record_failures es (record_failure platform scope failure now default_seconds max_seconds t).1

  count_next :
      (failure : RequestFailure) (now : ℕ) (t : BackoffTable)
      → fail_count platform scope failure.request_type
          (record_failure platform scope failure now default_seconds max_seconds t).1
        ≡ fail_count platform scope failure.request_type t + 1
  unfolding fail_count record_failure
  count_next failure now t =
      let p = is_for platform scope failure.request_type in
      let f = failed_again failure now default_seconds max_seconds in
      let new = first_failure platform scope failure now in
      let (found, made) =
        upsert-row_for p f new (is_for_again failure.request_type failure now)
          (is_for_first failure now) t in
      let (count, until) = failed_again_lem failure now (or_row (row_for p t) new) in
      rw found (rw made (count ∙ ap (λ k. k + 1) (count_first failure now (row_for p t))))

  -- Failures of one request type in a row, whatever their kinds and times, add up.
  pub record_failures-fail_count :
      (type : BilibiliRequestType) (es : List (RequestFailure × ℕ)) (t : BackoffTable)
      → All (λ e. e.0.request_type ≡ type) es
      → fail_count platform scope type (record_failures es t)
        ≡ fail_count platform scope type t + length es
  unfolding record_failures
  record_failures-fail_count type [] t h = omega arith
  record_failures-fail_count type ((failure, now) ∷ es) t h =
      let t' = (record_failure platform scope failure now default_seconds max_seconds t).1 in
      let next : fail_count platform scope type t' ≡ fail_count platform scope type t + 1 =
        rw (← h.0) (count_next failure now t) in
      omega (arith, record_failures-fail_count type es t' h.1)

-- A success leaves no failure on record for any request type of the scope.
pub reset_all_success-fail_count :
    (platform scope : String) (type : BilibiliRequestType) (now : ℕ) (t : BackoffTable)
    → fail_count platform scope type (reset_all_success platform scope now t) ≡ 0
unfolding fail_count reset_all_success reset row_for
reset_all_success-fail_count platform scope type now [] = refl
reset_all_success-fail_count platform scope type now (r ∷ rs) =
    ground (arith, reset_all_success-fail_count platform scope type now rs)

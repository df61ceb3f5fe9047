-- ===== src/Backoff/Tests.antt =====
-- Failures with concrete kinds, and the theorems at concrete inputs.
use books_of_time.Base.{ℕ, ◌+◌, ◌*◌, ◌≡◌, refl, Option, none, some, List, [], ◌∷◌}
use books_of_time.Base.Time.{second}
use books_of_time.Backoff.{
  BilibiliRequestType, RequestErrorKind, RequestFailure, BackoffTable, timeout, captcha, is_for,
  backoff_seconds, record_failure,
}
use books_of_time.Backoff.Streak.{row_for, fail_count, record_failure-fail_count}

abbrev timed_out : RequestFailure
timed_out = record {
  kind = timeout;
  request_type = BilibiliRequestType.video_stats;
  message = "network request timed out";
  status_code = none;
  retry_after_seconds = none;
}

abbrev defaults : RequestErrorKind → Option ℕ
defaults timeout = some 60
defaults captcha = some 3600
defaults _ = none

delays :
    (backoff_seconds timed_out 1 defaults 21600 ≡ 60)
    × (backoff_seconds timed_out 4 defaults 21600 ≡ 480)
    × (backoff_seconds timed_out 40 defaults 21600 ≡ 1920)
    × (backoff_seconds (record timed_out { kind = captcha }) 4 defaults 21600 ≡ 21600)
unfolding backoff_seconds
delays = (refl, refl, refl, refl)

record_failure-fail_count_example :
    let t : BackoffTable = [] in
    let (row, t') = record_failure "bilibili" "global" timed_out 5 defaults 21600 t in
    (row_for (is_for "bilibili" "global" BilibiliRequestType.video_stats) t' ≡ some row)
    × (row.fail_count ≡ fail_count "bilibili" "global" BilibiliRequestType.video_stats t + 1)
    × (row.backoff_until ≡ 5 + backoff_seconds timed_out row.fail_count defaults 21600 * second)
    × (row_for (is_for "bilibili" "global" BilibiliRequestType.comment_hot) t'
        ≡ row_for (is_for "bilibili" "global" BilibiliRequestType.comment_hot) t)
record_failure-fail_count_example =
    record_failure-fail_count "bilibili" "global" defaults 21600 timed_out 5
      BilibiliRequestType.comment_hot [] (λ e. cc)

abbrev streak : List (RequestFailure × ℕ)
streak = (timed_out, 5) ∷ (record timed_out { kind = captcha }, 9) ∷ []

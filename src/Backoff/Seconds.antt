-- ===== src/Backoff/Seconds.antt =====
-- The delay that `_backoff_seconds` gives.
use books_of_time.Base.{ℕ, ◌-◌, ◌*◌, ◌^◌, ◌≤◌, ◌≡◌, min, Option, arith}
use books_of_time.Backoff.{RequestFailure, RequestErrorKind, or_default, backoff_seconds}
use native.Mathlib.Nat.{pow-le-pow_right}

-- The delay without the number of failures.
abbrev pub base_delay : RequestFailure → (RequestErrorKind → Option ℕ) → ℕ
base_delay failure default_seconds =
    or_default failure.retry_after_seconds (or_default (default_seconds failure.kind) 300)

module _ (failure : RequestFailure) (default_seconds : RequestErrorKind → Option ℕ)
    (max_seconds : ℕ) where
  -- The delay never exceeds the maximum, nor thirty-two times the base delay; it does not shrink
  -- from one failure to the next; and the first failure waits the base delay, unless the maximum
  -- is smaller.
  pub backoff_seconds_mono :
      (m n : ℕ)
      → m ≤ n
      → (backoff_seconds failure m default_seconds max_seconds
          ≤ backoff_seconds failure n default_seconds max_seconds)
        × (backoff_seconds failure n default_seconds max_seconds ≤ max_seconds)
        × (backoff_seconds failure n default_seconds max_seconds
            ≤ 32 * base_delay failure default_seconds)
        × (backoff_seconds failure 1 default_seconds max_seconds
            ≡ min (base_delay failure default_seconds) max_seconds)
  unfolding backoff_seconds
  backoff_seconds_mono m n h =
      let base = base_delay failure default_seconds in
      let a = 2 ^ min (m - 1) 5 in
      let b = 2 ^ min (n - 1) 5 in
      let grows : a ≤ b = pow-le-pow_right (omega arith) (omega arith) in
      let capped : b ≤ 32 = pow-le-pow_right (omega arith) {j = 5} (omega arith) in
      let more : base * a ≤ base * b = grind arith in
      let most : base * b ≤ 32 * base = grind arith in
      (omega arith, omega arith, omega arith, omega arith)

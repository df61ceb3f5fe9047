-- ===== src/Worker/Loop.antt =====
-- How often `run_loop` calls `run_once`.
use books_of_time.Base.{ℕ, zero, suc, ◌≤◌, Bool, arith}
use books_of_time.Worker.Run.{run_loop}

module _ {S : Type 0} (run : S → Bool × S) (stop : S → Bool) where
  -- `run_loop` with a limit counts at most as many executed tasks as the limit allows calls.
  pub run_loop_le :
      (stop_when_idle : Bool) (max_iterations : ℕ) (s : S)
      → (run_loop run stop stop_when_idle max_iterations s).0 ≤ max_iterations
  unfolding run_loop
  run_loop_le stop_when_idle zero s = omega arith
  run_loop_le stop_when_idle (suc n) s =
      let rest = run_loop_le stop_when_idle n (run s).1 in ground arith

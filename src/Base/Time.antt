-- ===== src/Base/Time.antt =====
-- Python's datetime and timedelta, and the float values that the program compares.
-- A timedelta is a ℤ of microseconds. An aware datetime is its instant, in microseconds since
-- 0001-01-01T00:00Z; a naive one is its wall clock time.
use Prim.Native.Nat.{ℕ, suc, ◌+◌, ◌*◌}
use mathlib.Core.Bool.{Bool, true, false}
use books_of_time.Base.Tests.{leb}
use books_of_time.Base.Int.{ℤ, pos, pos_part, neg_part}

pub data Datetime : Type 0 where
  naive : ℕ → Datetime
  aware : ℕ → Datetime

abbrev pub second : ℕ
second = 1_000_000

abbrev pub minute : ℕ
minute = 60_000_000

abbrev pub hour : ℕ
hour = 3_600_000_000

abbrev pub day : ℕ
day = 86_400_000_000

abbrev pub minutes : ℕ → ℤ
minutes n = pos (n * minute)

abbrev pub hours : ℕ → ℤ
hours n = pos (n * hour)

abbrev pub days : ℕ → ℤ
days n = pos (n * day)

-- A double is one of these; `finite n d` is the fraction n / (d + 1).
pub data Double : Type 0 where
  nan neg_inf inf : Double
  finite : ℤ → ℕ → Double

-- `x <= y`, false where either is not a number.
abbrev pub leb_double : Double → Double → Bool
leb_double nan y = false
leb_double neg_inf nan = false
leb_double neg_inf y = true
leb_double inf inf = true
leb_double inf y = false
leb_double (finite n d) nan = false
leb_double (finite n d) neg_inf = false
leb_double (finite n d) inf = true
leb_double (finite n d) (finite m e) =
    leb (pos_part n * suc e + neg_part m * suc d) (pos_part m * suc d + neg_part n * suc e)

-- ===== src/Config/Windows.antt =====
-- `_activity_windows` and `_clock_time` of domain/cohort_policy.py.
use Prim.Native.Char.{code}
use books_of_time.Base.{
  ℕ, ◌+◌, ◌-◌, ◌*◌, ◌&&◌, Option, none, some, String, List, [], ◌∷◌, any, leb, ◌==◌, if◌then◌else◌,
  Result, ok, err, raise_if, ◌>>=◌, ◌>>◌,
}
use books_of_time.Base.Text.{str_eq, is_blank}
use books_of_time.Cohort.Types.{ActivityWindow}
use books_of_time.Config.Values.{
  Value, Values, Host, ConfigError, null, str, seq, dict, done, next, empty, entry, get, mapping,
  sequence, windows_not_list, bad_window_name, window_name_twice, window_ends_equal, bad_clock_time,
}

unfoldable pub codes : String → List ℕ
codes String.[] = []
codes (String.◌∷◌ c s) = code c ∷ codes s

-- A digit of tens and one of ones, which `\d` lets be any decimal digit of Unicode.
unfoldable pub number : Host → (low high : ℕ) → (tens ones : ℕ) → Option ℕ
number host low high tens ones =
    if leb low tens && leb tens high
    then elim (host.decimal ones) [ none ↦ none | some d ↦ some (10 * (tens - 48) + d) ]
    else none

-- `[01]\d|2[0-3]`
unfoldable pub hour_of : Host → ℕ → ℕ → Option ℕ
hour_of host tens ones =
    if tens == 50 && (leb 48 ones && leb ones 51)
    then some (20 + (ones - 48))
    else number host 48 49 tens ones

-- `(?:[01]\d|2[0-3]):[0-5]\d`, as the minutes of the day.
unfoldable pub clock : Host → List ℕ → Option ℕ
clock host (h ∷ g ∷ colon ∷ m ∷ n ∷ []) = elim (hour_of host h g) [
  | none ↦ none
  | some hour ↦ elim (number host 48 53 m n) [
    | none ↦ none
    | some minute ↦ if colon == 58 then some (60 * hour + minute) else none
  ]
]
clock host _ = none

-- `_clock_time`
unfoldable pub clock_time : Host → Value → (boundary : String) → Result ConfigError ℕ
clock_time host (str text) boundary = elim (clock host (codes text)) [
  | none ↦ err (bad_clock_time boundary)
  | some t ↦ ok t
]
clock_time host _ boundary = err (bad_clock_time boundary)

unfoldable pub window_name : Value → Result ConfigError String
window_name (str name) = if is_blank name then err bad_window_name else ok name
window_name _ = err bad_window_name

-- The body of the loop.
unfoldable pub read_window :
    Host → (names : List String) → Value → Result ConfigError ActivityWindow
read_window host names raw = do
  window ← mapping raw "activity window"
  name ← window_name (get window "name" null)
  raise_if (any (str_eq name) names) window_name_twice
  start ← clock_time host (get window "start" null) "start"
  finish ← clock_time host (get window "end" null) "end"
  raise_if (start == finish) window_ends_equal
  ok (record { name = name; start = start; end = finish })

unfoldable pub read_windows :
    Host → (names : List String) → Values → Result ConfigError (List ActivityWindow)
read_windows host names done = ok []
read_windows host names (next raw raws) = do
  window ← read_window host names raw
  windows ← read_windows host (window.name ∷ names) raws
  ok (window ∷ windows)

abbrev window_entry : (name start end : String) → Value
window_entry name start finish = dict (
    entry (some "name") (str name)
      (entry (some "start") (str start) (entry (some "end") (str finish) empty)))

-- `_ACTIVITY_WINDOW_DEFAULTS`
abbrev pub activity_window_defaults : Value
activity_window_defaults = seq (
    next (window_entry "lunch" "11:30" "13:30") (
      next (window_entry "dinner" "17:30" "20:30")
        (next (window_entry "night" "21:30" "00:30") done)))

-- `_activity_windows`
unfoldable pub activity_windows : Host → Value → Result ConfigError (List ActivityWindow)
activity_windows host value = do
  activity ← mapping value "snapshot_cohorts.activity_windows"
  raws ← sequence (get activity "defaults" activity_window_defaults) windows_not_list
  read_windows host [] raws

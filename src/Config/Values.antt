-- ===== src/Config/Values.antt =====
-- The values of a configuration file, and the helpers of domain/cohort_policy.py that read them.
use Prim.Native.Char.{code}
use books_of_time.Base.{
  ℕ, suc, ◌+◌, ◌-◌, ◌*◌, ◌^◌, Bool, true, false, not, ◌&&◌, ◌||◌, Option, none, some, String, List,
  any, leb, ◌==◌, if◌then◌else◌, Result, ok, err,
}
use books_of_time.Base.Int.{ℤ, pos, negsuc}
use books_of_time.Base.Text.{str_eq}
use books_of_time.Base.Time.{Double, finite, leb_double, day}
use books_of_time.Cohort.Types.{Zone}
pub use books_of_time.Base.Values.{
  Value, Values, Entries, null, bool, int, float, str, seq, dict, other, done, next, empty, entry,
}
unfoldable pub use books_of_time.Base.Values.{get}
unfoldable pub use books_of_time.Base.Text.{strip, strip_end}

-- What Python brings along: the zones of the tz database, and the value of the characters that
-- Unicode has as decimal digits, by their code points.
pub record Host : Type 0 where
  pub zone : String → Option Zone
  pub decimal : ℕ → Option ℕ

-- The ValueErrors, and the OverflowError of `float` and `timedelta`.
pub data ConfigError : Type 0 where
  must_be_mapping : String → ConfigError
  not_positive : String → ConfigError
  not_non_negative : String → ConfigError
  unknown_keys : String → ConfigError
  not_boolean empty_policy_version bad_rollout_mode bad_timezone : ConfigError
  bad_checkpoint_hours checkpoint_hours_not_increasing : ConfigError
  bad_ratio views_not_descending comments_not_descending turnover_not_descending : ConfigError
  dormant_not_before_archive : ConfigError
  windows_not_list bad_window_name window_name_twice window_ends_equal : ConfigError
  bad_clock_time : String → ConfigError
  active_above_normal : String → ConfigError
  checkpoint_below_routine : ConfigError
  slice_not_below_lease : ConfigError
  overflow : ConfigError

-- `_mapping`
unfoldable pub mapping : Value → (path : String) → Result ConfigError Entries
mapping (dict entries) path = ok entries
mapping _ path = err (must_be_mapping path)

-- `bool(_unknown_keys(values, allowed))`
unfoldable pub has_unknown_keys : List String → Entries → Bool
has_unknown_keys allowed empty = false
has_unknown_keys allowed (entry none v rest) = true
has_unknown_keys allowed (entry (some k) v rest) =
    not (any (str_eq k) allowed) || has_unknown_keys allowed rest

-- The tests of `_positive_int` and `_non_negative_int` on the value.
unfoldable pub positive : Value → String → Result ConfigError ℕ
positive (int (pos (suc n))) path = ok (suc n)
positive _ path = err (not_positive path)

-- `_positive_int`
unfoldable pub positive_int :
    Entries → (key : String) (default : ℕ) (path : String) → Result ConfigError ℕ
positive_int m key default path = positive (get m key (int (pos default))) path

-- `_non_negative_int`
unfoldable pub non_negative_int : Value → String → Result ConfigError ℕ
non_negative_int (int (pos n)) path = ok n
non_negative_int _ path = err (not_non_negative path)

-- `float(value)` of an int raises from here on.
unfoldable pub is_too_large : ℕ → Bool
is_too_large n = leb (2 ^ 1024 - 2 ^ 970) n

unfoldable pub ratio_of : Double → Result ConfigError (Option Double)
ratio_of d =
    if leb_double (finite (pos 0) 0) d && leb_double d (finite (pos 1) 0)
    then ok (some d)
    else err bad_ratio

-- `_optional_ratio`
unfoldable pub optional_ratio : Value → Result ConfigError (Option Double)
optional_ratio null = ok none
optional_ratio (int (pos n)) = if is_too_large n then err overflow else ratio_of (finite (pos n) 0)
optional_ratio (int (negsuc n)) =
    if is_too_large (suc n) then err overflow else ratio_of (finite (negsuc n) 0)
optional_ratio (float d) = ratio_of d
optional_ratio _ = err bad_ratio

-- `timedelta(...)` of n units.
unfoldable pub timedelta : (unit n : ℕ) → Result ConfigError ℤ
timedelta unit n =
    if leb (1_000_000_000 * day) (n * unit) then err overflow else ok (pos (n * unit))

-- `isinstance(value, Sequence)`, and not a str or bytes.
unfoldable pub sequence : Value → ConfigError → Result ConfigError Values
sequence (seq values) e = ok values
sequence _ e = err e

unfoldable pub boolean : Value → Result ConfigError Bool
boolean (bool b) = ok b
boolean _ = err not_boolean

-- `casefold`, on the characters that fold to one lower case letter of ASCII out of those in
-- "shadow" and "live".
unfoldable pub fold_code : ℕ → ℕ
fold_code c = if leb 65 c && leb c 90 then c + 32 else if c == 0x17f then 115 else c

-- `text.casefold() == word`
unfoldable pub same_folded : (text word : String) → Bool
same_folded String.[] String.[] = true
same_folded (String.◌∷◌ c s) (String.◌∷◌ d w) = fold_code (code c) == code d && same_folded s w
same_folded _ _ = false

-- `x < y`
unfoldable pub ltb_double : Double → Double → Bool
ltb_double x y = leb_double x y && not (leb_double y x)

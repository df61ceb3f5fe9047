-- ===== src/Base/Values.antt =====
-- The values of JSON and of configuration files, as Python reads them, and a dict's `get` and
-- `update` of one key.
use books_of_time.Base.Tests.{if◌then◌else◌, ◌==◌}
use Prim.Native.String.{String}
use mathlib.Core.Path.{◌≡◌}
use mathlib.Core.Bool.{Bool, true, false, ◌&&◌}
use Prim.Native.Nat.{ℕ, suc}
use native.Mathlib.Omega.{arith}
use mathlib.Core.Option.{Option, none, some}
use books_of_time.Base.Int.{ℤ, pos}
use books_of_time.Base.Text.{str_eq, str_eq_iff}
use books_of_time.Base.Time.{Double, finite, leb_double}

-- `other` is a value of any further type, by its truth. A key of a mapping that is not a str is `none`.
mutual
  pub data Value : Type 0 where
    null : Value
    bool : Bool → Value
    int : ℤ → Value
    float : Double → Value
    str : String → Value
    seq : Values → Value
    dict : Entries → Value
    other : Bool → Value

  pub data Values : Type 0 where
    done : Values
    next : Value → Values → Values

  pub data Entries : Type 0 where
    empty : Entries
    entry : Option String → Value → Entries → Entries

-- `mapping.get(key, default)`
unfoldable pub get : Entries → String → Value → Value
get empty key default = default
get (entry none v rest) key default = get rest key default
get (entry (some k) v rest) key default =
    let found = get rest key default in if str_eq k key then v else found

-- `{**mapping, key: value}`: a key that is there keeps its place.
unfoldable pub put : Entries → String → Value → Entries
put empty key value = entry (some key) value empty
put (entry none v rest) key value = entry none v (put rest key value)
put (entry (some k) v rest) key value =
    let later = put rest key value in
    if str_eq k key then entry (some k) value rest else entry (some k) v later

module _ (key : String) (v default : Value) where
  pub get-put : (e : Entries) → get (put e key v) key default ≡ v
  unfolding get put
  get-put empty = ground (arith, str_eq_iff key key)
  get-put (entry none w rest) = ground (arith, get-put rest)
  get-put (entry (some k) w rest) = ground (arith, get-put rest)

  pub get-put_other :
      (other_key : String)
      → str_eq key other_key ≡ false
      → (e : Entries) → get (put e key v) other_key default ≡ get e other_key default
  unfolding get put
  get-put_other other_key h empty = ground arith
  get-put_other other_key h (entry none w rest) = ground (arith, get-put_other other_key h rest)
  get-put_other other_key h (entry (some k) w rest) =
      ground (arith, get-put_other other_key h rest, str_eq_iff k key)

-- The number that a value is for `==`, where a bool counts as 0 or 1.
abbrev pub number_of : Value → Option Double
number_of (bool true) = some (finite (pos 1) 0)
number_of (bool false) = some (finite (pos 0) 0)
number_of (int n) = some (finite n 0)
number_of (float x) = some x
number_of _ = none

abbrev pub same_number : Option Double → Option Double → Bool
same_number (some x) (some y) = leb_double x y && leb_double y x
same_number _ _ = false

abbrev pub size : Entries → ℕ
size empty = 0
size (entry key v rest) = suc (size rest)

abbrev pub find : Entries → String → Option Value
find empty key = none
find (entry none v rest) key = find rest key
find (entry (some k) v rest) key =
    let found = find rest key in if str_eq k key then some v else found

unfoldable mutual
  -- `a == b`; two dicts are equal whatever the order of their keys.
  pub eq_value : Value → Value → Bool
  eq_value null null = true
  eq_value (str a) (str b) = str_eq a b
  eq_value (seq xs) (seq ys) = eq_values xs ys
  eq_value (dict a) (dict b) = size a == size b && is_within a b
  eq_value a b = same_number (number_of a) (number_of b)

  pub eq_values : Values → Values → Bool
  eq_values done done = true
  eq_values (next a xs) (next b ys) = eq_value a b && eq_values xs ys
  eq_values _ _ = false

  pub is_within : Entries → Entries → Bool
  is_within empty others = true
  is_within (entry none v rest) others = false
  is_within (entry (some key) v rest) others = elim (find others key) [
    | none ↦ false
    | some w ↦ eq_value v w && is_within rest others
  ]

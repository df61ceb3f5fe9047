-- ===== src/Frontier.antt =====
-- `FrontierStateRepository` of db/repositories.py: the frontier of the newest comments of a video,
-- a row that is written by a compare-and-swap on its version. `Anchors` has
-- domain/latest_frontier.py.
pub mod Owner
pub mod Anchors
pub mod Normal
pub mod Versions
pub mod Register
pub mod Samples
mod Tests
use books_of_time.Base.{
  ℕ, zero, suc, Bool, true, false, ◌&&◌, ◌||◌, Option, none, some, String, List, [], ◌∷◌, ◌++◌, map,
  filter, any, length, ◌==◌, if◌then◌else◌, Result, ok, err, raise_if, ◌>>=◌, ◌>>◌,
}
use books_of_time.Base.Int.{ℤ, pos, negsuc, eq_ℤ, leb_ℤ, ltb_ℤ}
use books_of_time.Base.Text.{str_eq, is_blank}
use books_of_time.Base.Time.{Datetime}
use books_of_time.Base.Values.{Value, Entries, empty}
use books_of_time.Scan.Types.{
  Anchor, ScanError, bad_rpid, bad_scan_id, empty_text, integrity_error, negative_count,
  frontier_not_found, frontier_version_conflict, bad_state_id, bad_expected_version,
}
use books_of_time.Scan.Transitions.{aware_now, non_negative}
use books_of_time.Frontier.Anchors.{IsoText, normalize_anchor_set}

-- The table `frontier_states` of db/models.py.
pub record FrontierState : Type 0 where
  pub id : ℕ
  pub target_type : String
  pub target_id : String
  pub frontier_type : String
  pub frontier_rpid : Option ℕ
  pub frontier_time : Option ℕ
  pub frontier_anchor_set : List Anchor
  pub active_scan_run_id : Option ℕ
  pub version : ℕ
  pub cursor : Option String
  pub last_scan_at : Option ℕ
  pub last_scan_status : Option String
  pub last_scan_pages : ℕ
  pub last_scan_truncated : Bool
  pub extra : Entries
  pub created_at : ℕ
  pub updated_at : ℕ

pub record FrontierTable : Type 0 where
  pub rows : List FrontierState
  pub next_id : ℕ

-- `FrontierStateUpdate`
pub record FrontierStateUpdate : Type 0 where
  pub frontier_rpid : Option ℤ
  pub frontier_time : Option Datetime
  pub frontier_anchor_set : Value
  pub active_scan_run_id : Option ℕ
  pub cursor : Option String
  pub last_scan_at : Option Datetime
  pub last_scan_status : Option String
  pub last_scan_pages : ℤ
  pub last_scan_truncated : Bool
  pub extra : Entries

-- The values of the UPDATE.
pub record FrontierValues : Type 0 where
  pub frontier_rpid : Option ℕ
  pub frontier_time : Option ℕ
  pub frontier_anchor_set : List Anchor
  pub active_scan_run_id : Option ℕ
  pub cursor : Option String
  pub last_scan_at : Option ℕ
  pub last_scan_status : Option String
  pub last_scan_pages : ℕ
  pub last_scan_truncated : Bool
  pub extra : Entries

-- `value is not None and value <= 0` raises.
abbrev pub positive_or_none : Option ℤ → ScanError → Result ScanError (Option ℕ)
positive_or_none none e = ok none
positive_or_none (some (pos (suc n))) e = ok (some (suc n))
positive_or_none (some value) e = err e

abbrev pub positive_id : Option ℕ → ScanError → Result ScanError (Unit {0})
positive_id (some zero) e = err e
positive_id value e = ok tt

abbrev pub aware_or_none : Option Datetime → Result ScanError (Option ℕ)
aware_or_none none = ok none
aware_or_none (some value) = aware_now value >>= λ instant. ok (some instant)

-- `_frontier_update_values`
unfoldable pub frontier_update_values :
    IsoText → FrontierStateUpdate → Result ScanError FrontierValues
frontier_update_values iso u = do
  rpid ← positive_or_none u.frontier_rpid bad_rpid
  positive_id u.active_scan_run_id bad_scan_id
  time ← aware_or_none u.frontier_time
  at ← aware_or_none u.last_scan_at
  pages ← non_negative u.last_scan_pages
  anchors ← normalize_anchor_set iso u.frontier_anchor_set
  ok (record {
    frontier_rpid = rpid;
    frontier_time = time;
    frontier_anchor_set = anchors;
    active_scan_run_id = u.active_scan_run_id;
    cursor = u.cursor;
    last_scan_at = at;
    last_scan_status = u.last_scan_status;
    last_scan_pages = pages;
    last_scan_truncated = u.last_scan_truncated;
    extra = u.extra;
  })

-- What the UPDATE makes of a row.
unfoldable pub swapped : FrontierValues → (now : ℕ) → FrontierState → FrontierState
swapped v now r = record r {
  frontier_rpid = v.frontier_rpid;
  frontier_time = v.frontier_time;
  frontier_anchor_set = v.frontier_anchor_set;
  active_scan_run_id = v.active_scan_run_id;
  cursor = v.cursor;
  last_scan_at = v.last_scan_at;
  last_scan_status = v.last_scan_status;
  last_scan_pages = v.last_scan_pages;
  last_scan_truncated = v.last_scan_truncated;
  extra = v.extra;
  version = suc r.version;
  updated_at = now;
}

-- `FrontierState.id == state_id, FrontierState.version == expected_version`
unfoldable pub is_expected : (id : ℕ) → ℤ → FrontierState → Bool
is_expected id expected r = r.id == id && eq_ℤ (pos r.version) expected

abbrev pub frontier_with_id : List FrontierState → (id : ℕ) → Option FrontierState
frontier_with_id [] id = none
frontier_with_id (r ∷ rs) id =
    let later = frontier_with_id rs id in if r.id == id then some r else later

-- The UPDATE, its `rowcount`, and the query of the row after it.
unfoldable pub swap_rows :
    (id : ℕ)
    → ℤ
    → FrontierValues
    → (now : ℕ) → FrontierTable
    → Result ScanError (FrontierState × FrontierTable)
swap_rows id expected v now t =
    let rows = map (λ r. if is_expected id expected r then swapped v now r else r) t.rows in
    if length (filter (is_expected id expected) t.rows) == 1
    then elim (frontier_with_id rows id) [
      | none ↦ err frontier_not_found
      | some state ↦ ok (state, record t { rows = rows })
    ]
    else err frontier_version_conflict

-- `compare_and_swap`
unfoldable pub compare_and_swap :
    IsoText
    → (id : ℕ) (expected_version : ℤ) → FrontierStateUpdate
    → Datetime
    → FrontierTable
    → Result ScanError (FrontierState × FrontierTable)
compare_and_swap iso id expected_version u now t = do
  raise_if (id == 0) bad_state_id
  raise_if (ltb_ℤ expected_version (pos 0)) bad_expected_version
  instant ← aware_now now
  values ← frontier_update_values iso u
  swap_rows id expected_version values instant t

-- The key of a frontier.
pub record FrontierKey : Type 0 where
  pub target_type : String
  pub target_id : String
  pub frontier_type : String

-- The checks of the key in `get_or_create`.
unfoldable pub validate_frontier_key : FrontierKey → Result ScanError (Unit {0})
validate_frontier_key key =
    raise_if (is_blank key.target_type) empty_text
    >> raise_if (is_blank key.target_id) empty_text
    >> raise_if (is_blank key.frontier_type) empty_text

unfoldable pub has_frontier_key : FrontierKey → FrontierState → Bool
has_frontier_key key r =
    str_eq r.target_type key.target_type
    && (str_eq r.target_id key.target_id && str_eq r.frontier_type key.frontier_type)

abbrev pub first_frontier : List FrontierState → Option FrontierState
first_frontier [] = none
first_frontier (r ∷ rs) = some r

unfoldable pub find_frontier :
    (FrontierState → Bool) → FrontierKey → List FrontierState → Option FrontierState
find_frontier sees key rows = first_frontier (filter (λ r. has_frontier_key key r && sees r) rows)

unfoldable pub new_frontier : (id now : ℕ) → FrontierKey → FrontierState
new_frontier id now key = record {
  id = id;
  target_type = key.target_type;
  target_id = key.target_id;
  frontier_type = key.frontier_type;
  frontier_rpid = none;
  frontier_time = none;
  frontier_anchor_set = [];
  active_scan_run_id = none;
  version = 0;
  cursor = none;
  last_scan_at = none;
  last_scan_status = none;
  last_scan_pages = 0;
  last_scan_truncated = false;
  extra = empty;
  created_at = now;
  updated_at = now;
}

-- The insert, which the unique constraint on the key refuses where a row has it, and its handler.
unfoldable pub add_frontier :
    FrontierKey → (now : ℕ) → FrontierTable → Result ScanError (FrontierState × FrontierTable)
add_frontier key now t =
    if any (has_frontier_key key) t.rows
    then elim (find_frontier (λ r. true) key t.rows) [
      | none ↦ err integrity_error
      | some winner ↦ ok (winner, t)
    ]
    else let state = new_frontier t.next_id now key in
      ok (state, record { rows = t.rows ++ state ∷ []; next_id = suc t.next_id })

-- `get_or_create`; `sees` are the rows that are committed as its query runs.
unfoldable pub get_or_create :
    (sees : FrontierState → Bool)
    → FrontierKey
    → Datetime
    → FrontierTable
    → Result ScanError (FrontierState × FrontierTable)
get_or_create sees key now t = do
  validate_frontier_key key
  instant ← aware_now now
  elim (find_frontier sees key t.rows) [
    | some state ↦ ok (state, t)
    | none ↦ add_frontier key instant t
  ]

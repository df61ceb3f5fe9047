-- ===== src/Frontier/Anchors.antt =====
-- domain/latest_frontier.py: the anchors of a frontier, the newest comments that an earlier scan saw.
use books_of_time.Base.{
  ℕ, zero, suc, Bool, true, false, not, ◌&&◌, ◌||◌, Option, none, some, String, List, [], ◌∷◌, any,
  map, ltb, ◌==◌, Result, ok, err, raise_if, ◌>>=◌, ◌>>◌,
}
use books_of_time.Base.Int.{ℤ, pos, negsuc}
use books_of_time.Base.Text.{str_eq}
use books_of_time.Base.Time.{Datetime, naive, aware}
use books_of_time.Base.Values.{
  Value, Values, Entries, null, int, str, seq, dict, done, next, empty, entry, get,
}
use books_of_time.Scan.Types.{
  Anchor, ScanError, anchors_not_list, too_many_anchors, bad_anchor_shape, bad_rpid, repeated_rpid,
  bad_timestamp_type, bad_timestamp, naive_timestamp,
}

-- The methods of `datetime` for ISO text: `fromisoformat`, `astimezone(UTC).isoformat()` of an
-- instant, and `astimezone(UTC)`.
pub record IsoText : Type 0 where
  pub fromisoformat : String → Option Datetime
  pub isoformat : ℕ → String
  pub astimezone : Datetime → ℕ

-- `AnchorComment`
pub record AnchorComment : Type 0 where
  pub rpid : ℤ
  pub platform_created_at : Option Datetime

-- `MAX_FRONTIER_ANCHORS`
abbrev pub max_frontier_anchors : ℕ
max_frontier_anchors = 5

-- `_positive_rpid`
unfoldable pub positive_rpid : Value → Result ScanError ℕ
positive_rpid (int (pos (suc n))) = ok (suc n)
positive_rpid _ = err bad_rpid

abbrev pub is_seen : List ℕ → ℕ → Bool
is_seen seen rpid = any (λ s. s == rpid) seen

-- `set(item) == {"rpid", "platform_created_at"}`
abbrev pub has_only_anchor_keys : Entries → Bool
has_only_anchor_keys empty = true
has_only_anchor_keys (entry none v rest) = false
has_only_anchor_keys (entry (some key) v rest) =
    (str_eq key "rpid" || str_eq key "platform_created_at") && has_only_anchor_keys rest

abbrev pub has_key : Entries → String → Bool
has_key empty key = false
has_key (entry none v rest) key = has_key rest key
has_key (entry (some k) v rest) key = str_eq k key || has_key rest key

unfoldable pub has_anchor_shape : Entries → Bool
has_anchor_shape item =
    has_only_anchor_keys item && (has_key item "rpid" && has_key item "platform_created_at")

abbrev pub count : Values → ℕ
count done = 0
count (next v rest) = suc (count rest)

abbrev pub is_empty : List ℕ → Bool
is_empty [] = true
is_empty (x ∷ xs) = false

-- `rpid in retained`
abbrev pub is_one_of : List ℕ → ℤ → Bool
is_one_of retained (pos n) = is_seen retained n
is_one_of retained (negsuc n) = false

-- The dicts that the anchors are, in the code and in the columns of JSON.
abbrev pub text_value : Option String → Value
text_value none = null
text_value (some text) = str text

unfoldable pub anchor_value : Anchor → Value
anchor_value anchor = dict (
    entry (some "rpid") (int (pos anchor.rpid))
      (entry (some "platform_created_at") (text_value anchor.platform_created_at) empty))

unfoldable pub anchor_values : List Anchor → Values
anchor_values [] = done
anchor_values (anchor ∷ anchors) = next (anchor_value anchor) (anchor_values anchors)

abbrev pub anchor_set : List Anchor → Value
anchor_set anchors = seq (anchor_values anchors)

module _ (iso : IsoText) where
  -- `_timestamp_text`
  unfoldable pub timestamp_text : Option Datetime → Result ScanError (Option String)
  timestamp_text none = ok none
  timestamp_text (some (naive t)) = err naive_timestamp
  timestamp_text (some (aware t)) = ok (some (iso.isoformat t))

  -- `_normalized_timestamp_text`
  unfoldable pub normalized_timestamp_text : Value → Result ScanError (Option String)
  normalized_timestamp_text null = ok none
  normalized_timestamp_text (str text) = elim (iso.fromisoformat text) [
    | none ↦ err bad_timestamp
    | some parsed ↦ timestamp_text (some parsed)
  ]
  normalized_timestamp_text _ = err bad_timestamp_type

  -- The loop of `anchors_from_comments`; `room` is how many more anchors it takes.
  unfoldable pub first_anchors :
      (room : ℕ) (seen : List ℕ) → List AnchorComment → Result ScanError (List Anchor)
  first_anchors zero seen comments = ok []
  first_anchors (suc room) seen [] = ok []
  first_anchors (suc room) seen (comment ∷ comments) = do
    rpid ← positive_rpid (int comment.rpid)
    elim (is_seen seen rpid) [
      | true ↦ first_anchors (suc room) seen comments
      | false ↦ do
        time ← timestamp_text comment.platform_created_at
        rest ← first_anchors room (rpid ∷ seen) comments
        ok (record { rpid = rpid; platform_created_at = time } ∷ rest)
    ]

  -- `anchors_from_comments`
  unfoldable pub anchors_from_comments : List AnchorComment → Result ScanError (List Anchor)
  anchors_from_comments comments = first_anchors max_frontier_anchors [] comments

  -- The loop of `normalize_anchor_set`.
  unfoldable pub normalize_anchor : (seen : List ℕ) → Value → Result ScanError Anchor
  normalize_anchor seen (dict item) = do
    raise_if (not (has_anchor_shape item)) bad_anchor_shape
    rpid ← positive_rpid (get item "rpid" null)
    raise_if (is_seen seen rpid) repeated_rpid
    time ← normalized_timestamp_text (get item "platform_created_at" null)
    ok (record { rpid = rpid; platform_created_at = time })
  normalize_anchor seen _ = err bad_anchor_shape

  unfoldable pub normalize_anchors : (seen : List ℕ) → Values → Result ScanError (List Anchor)
  normalize_anchors seen done = ok []
  normalize_anchors seen (next item items) = do
    anchor ← normalize_anchor seen item
    rest ← normalize_anchors (anchor.rpid ∷ seen) items
    ok (anchor ∷ rest)

  -- `normalize_anchor_set`
  unfoldable pub normalize_anchor_set : Value → Result ScanError (List Anchor)
  normalize_anchor_set (seq items) =
      raise_if (ltb max_frontier_anchors (count items)) too_many_anchors
      >> normalize_anchors [] items
  normalize_anchor_set _ = err anchors_not_list

  -- `anchor_rpids`
  abbrev pub anchor_rpids : Value → Result ScanError (List ℕ)
  anchor_rpids anchors =
      normalize_anchor_set anchors >>= λ normalized. ok (map (λ (a : Anchor). a.rpid) normalized)

  -- `primary_anchor`
  unfoldable pub first_anchor : List Anchor → Result ScanError (Option ℕ × Option ℕ)
  first_anchor [] = ok (none, none)
  first_anchor (anchor ∷ anchors) = elim (anchor.platform_created_at) [
    | none ↦ ok (some anchor.rpid, none)
    | some text ↦ elim (iso.fromisoformat text) [
      | none ↦ err bad_timestamp
      | some parsed ↦ ok (some anchor.rpid, some (iso.astimezone parsed))
    ]
  ]

  unfoldable pub primary_anchor : Value → Result ScanError (Option ℕ × Option ℕ)
  primary_anchor anchors = normalize_anchor_set anchors >>= first_anchor

  -- `page_matches_anchor`
  unfoldable pub page_matches_anchor : List AnchorComment → Value → Result ScanError Bool
  page_matches_anchor comments anchors = do
    retained ← anchor_rpids anchors
    ok (not (is_empty retained) && any (λ (c : AnchorComment). is_one_of retained c.rpid) comments)

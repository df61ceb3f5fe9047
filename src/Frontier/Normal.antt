-- ===== src/Frontier/Normal.antt =====
-- Normal sets of anchors: what `anchors_from_comments` and `normalize_anchor_set` return, and what
-- `normalize_anchor_set` leaves as it is.
use books_of_time.Base.{
  ℕ, zero, suc, ◌≤◌, ◌≡◌, refl, ap, ◌⊎◌, inl, inr, false, Option, none, some, String, List, [], ◌∷◌,
  length, Bool-cases, Option-cases, Result-cases, arith, ok,
}
use books_of_time.Base.Int.{pos}
use books_of_time.Base.Time.{Datetime, naive, aware}
use books_of_time.Base.Values.{Value, Values, int, str, null, dict, seq, done, next, get}
use books_of_time.Scan.Types.{Anchor}
use books_of_time.Frontier.Anchors.{
  IsoText, AnchorComment, max_frontier_anchors, positive_rpid, is_seen, has_anchor_shape, count,
  anchor_value, anchor_values, anchor_set, timestamp_text, normalized_timestamp_text, first_anchors,
  anchors_from_comments, normalize_anchor, normalize_anchors, normalize_anchor_set,
}

positive_rpid_le : (v : Value) (n : ℕ) → positive_rpid v ≡ ok n → 1 ≤ n
unfolding positive_rpid
positive_rpid_le v n h = ground arith

positive_rpid_pos : (n : ℕ) → 1 ≤ n → positive_rpid (int (pos n)) ≡ ok n
unfolding positive_rpid
positive_rpid_pos (suc n) h = refl
positive_rpid_pos zero h = absurd (omega arith)

module _ (iso : IsoText) where
  -- A time that `isoformat` has written, or none.
  abbrev pub IsText : Option String → Type 0
  IsText text = (text ≡ none) ⊎ ((t : ℕ) × (text ≡ some (iso.isoformat t)))

  -- Positive RPIDs, none of them twice or in `seen`, with times as the code writes them.
  abbrev pub IsNormal : (seen : List ℕ) → List Anchor → Type 0
  IsNormal seen [] = Unit {0}
  IsNormal seen (a ∷ rest) =
      (1 ≤ a.rpid)
      × (is_seen seen a.rpid ≡ false)
      × IsText a.platform_created_at
      × IsNormal (a.rpid ∷ seen) rest

  timestamp_text-IsText :
      (d : Option Datetime) {text : Option String} → timestamp_text iso d ≡ ok text → IsText text
  unfolding timestamp_text
  timestamp_text-IsText none h = inl (ground arith)
  timestamp_text-IsText (some (naive t)) h = absurd (ground arith)
  timestamp_text-IsText (some (aware t)) h = inr (t, ground arith)

  normalized_timestamp_text-IsText :
      (v : Value) {text : Option String} → normalized_timestamp_text iso v ≡ ok text → IsText text
  unfolding normalized_timestamp_text
  normalized_timestamp_text-IsText null h = inl (ground arith)
  normalized_timestamp_text-IsText (str text) h = elim (Option-cases (iso.fromisoformat text)) [
    | inl e ↦ absurd (ground arith)
    | inr (d, e) ↦ timestamp_text-IsText (some d) (ground arith)
  ]
  normalized_timestamp_text-IsText v h = absurd (ground arith)

  first_anchors-IsNormal :
      (room : ℕ) (seen : List ℕ) (comments : List AnchorComment) {anchors : List Anchor}
      → first_anchors iso room seen comments ≡ ok anchors
      → IsNormal seen anchors × (length anchors ≤ room)
  unfolding first_anchors
  first_anchors-IsNormal zero seen comments {anchors} h =
      let e : anchors ≡ [] = ground arith in rw e (tt, omega arith)
  first_anchors-IsNormal (suc room) seen [] {anchors} h =
      let e : anchors ≡ [] = ground arith in rw e (tt, omega arith)
  first_anchors-IsNormal (suc room) seen (c ∷ cs) {anchors} h =
      elim (Result-cases (positive_rpid (int c.rpid))) [
        | inl (e, p) ↦ absurd (ground arith)
        | inr (n, p) ↦ elim (Bool-cases (is_seen seen n)) [
          | inl s ↦
              let (normal, short) = first_anchors-IsNormal (suc room) seen cs (ground arith) in
              (normal, short)
          | inr s ↦ elim (Result-cases (timestamp_text iso c.platform_created_at)) [
            | inl (e, t) ↦ absurd (ground arith)
            | inr (time, t) ↦ elim (Result-cases (first_anchors iso room (n ∷ seen) cs)) [
              | inl (e, r) ↦ absurd (ground arith)
              | inr (rest, r) ↦
                  let e : anchors ≡ record { rpid = n; platform_created_at = time } ∷ rest =
                    ground arith in
                  let (normal, short) = first_anchors-IsNormal room (n ∷ seen) cs r in
                  rw e (
                    (
                      positive_rpid_le (int c.rpid) n p,
                      s,
                      timestamp_text-IsText c.platform_created_at t,
                      normal,
                    ),
                    omega (arith, short),
                  )
            ]
          ]
        ]
      ]

  normalize_anchor_elim :
      (seen : List ℕ) (item : Value) {a : Anchor}
      → normalize_anchor iso seen item ≡ ok a
      → (1 ≤ a.rpid) × (is_seen seen a.rpid ≡ false) × IsText a.platform_created_at
  unfolding normalize_anchor
  normalize_anchor_elim seen (dict item) {a} h =
      elim (Result-cases (normalized_timestamp_text iso (get item "platform_created_at" null))) [
        | inl (e, t) ↦ absurd (ground arith)
        | inr (time, t) ↦
            let p : positive_rpid (get item "rpid" null) ≡ ok a.rpid = ground arith in
            let same : a.platform_created_at ≡ time = ground arith in
            (
              positive_rpid_le (get item "rpid" null) a.rpid p,
              ground arith,
              rw same (normalized_timestamp_text-IsText (get item "platform_created_at" null) t),
            )
      ]
  normalize_anchor_elim seen v h = absurd (ground arith)

  normalize_anchors-IsNormal :
      (seen : List ℕ) (items : Values) {anchors : List Anchor}
      → normalize_anchors iso seen items ≡ ok anchors
      → IsNormal seen anchors × (length anchors ≡ count items)
  unfolding normalize_anchors
  normalize_anchors-IsNormal seen done {anchors} h =
      let e : anchors ≡ [] = ground arith in rw e (tt, refl)
  normalize_anchors-IsNormal seen (next item items) {anchors} h =
      elim (Result-cases (normalize_anchor iso seen item)) [
        | inl (e, n) ↦ absurd (ground arith)
        | inr (a, n) ↦ elim (Result-cases (normalize_anchors iso (a.rpid ∷ seen) items)) [
          | inl (e, r) ↦ absurd (ground arith)
          | inr (rest, r) ↦
              let e : anchors ≡ a ∷ rest = ground arith in
              let (normal, short) = normalize_anchors-IsNormal (a.rpid ∷ seen) items r in
              let (p, s, t) = normalize_anchor_elim seen item n in
              rw e ((p, s, t, normal), omega (arith, short))
        ]
      ]

  module _ (reads : (t : ℕ) → iso.fromisoformat (iso.isoformat t) ≡ some (aware t)) where
    normalize_anchor_value :
        (seen : List ℕ) (a : Anchor)
        → 1 ≤ a.rpid
        → is_seen seen a.rpid ≡ false
        → IsText a.platform_created_at
        → normalize_anchor iso seen (anchor_value a) ≡ ok a
    unfolding normalize_anchor anchor_value has_anchor_shape positive_rpid get
        normalized_timestamp_text timestamp_text
    normalize_anchor_value seen a p s (inl e) = rw (positive_rpid_pos a.rpid p, s, e) refl
    normalize_anchor_value seen a p s (inr (t, e)) =
        rw (positive_rpid_pos a.rpid p, s, e, reads t) refl

    IsNormal-normalize_anchors :
        (seen : List ℕ) (anchors : List Anchor)
        → IsNormal seen anchors
        → normalize_anchors iso seen (anchor_values anchors) ≡ ok anchors
    unfolding normalize_anchors anchor_values
    IsNormal-normalize_anchors seen [] n = refl
    IsNormal-normalize_anchors seen (a ∷ rest) n =
        rw
          (
            normalize_anchor_value seen a n.0 n.1 n.2,
            IsNormal-normalize_anchors (a.rpid ∷ seen) rest n.3,
          )
          refl

    count-anchor_values : (anchors : List Anchor) → count (anchor_values anchors) ≡ length anchors
    unfolding anchor_values
    count-anchor_values [] = refl
    count-anchor_values (a ∷ rest) = ap (λ (n : ℕ). suc n) (count-anchor_values rest)

    IsNormal-normalize_anchor_set :
        (anchors : List Anchor)
        → IsNormal [] anchors
        → length anchors ≤ 5
        → normalize_anchor_set iso (anchor_set anchors) ≡ ok anchors
    unfolding normalize_anchor_set
    IsNormal-normalize_anchor_set anchors n short =
        let counts = count-anchor_values anchors in
        let normal = IsNormal-normalize_anchors [] anchors n in ground arith

-- What `normalize_anchor_set` accepts has at most five anchors, as many as it was given, with
-- positive RPIDs none of which is there twice, and times as `isoformat` writes them.
pub normalize_anchor_set-IsNormal :
    (iso : IsoText) (items : Values) {anchors : List Anchor}
    → normalize_anchor_set iso (seq items) ≡ ok anchors
    → IsNormal iso [] anchors × (length anchors ≡ count items) × (length anchors ≤ 5)
unfolding normalize_anchor_set
normalize_anchor_set-IsNormal iso items h =
    let (normal, same) = normalize_anchors-IsNormal iso [] items (ground arith) in
    (normal, same, ground arith)

-- Normalizing twice is normalizing once, where `fromisoformat` reads what `isoformat` writes.
pub normalize_anchor_set_idempotent :
    (iso : IsoText) (v : Value) {anchors : List Anchor}
    → ((t : ℕ) → iso.fromisoformat (iso.isoformat t) ≡ some (aware t))
    → normalize_anchor_set iso v ≡ ok anchors
    → normalize_anchor_set iso (anchor_set anchors) ≡ ok anchors
unfolding normalize_anchor_set
normalize_anchor_set_idempotent iso (seq items) {anchors} reads h =
    let (normal, same, short) = normalize_anchor_set-IsNormal iso items h in
    IsNormal-normalize_anchor_set iso reads anchors normal short
normalize_anchor_set_idempotent iso v reads h = absurd (ground arith)

-- The anchors that a page of comments gives are accepted as they are, at most five of them, where
-- `fromisoformat` reads what `isoformat` writes.
pub anchors_from_comments-normalize :
    (iso : IsoText) (comments : List AnchorComment) {anchors : List Anchor}
    → ((t : ℕ) → iso.fromisoformat (iso.isoformat t) ≡ some (aware t))
    → anchors_from_comments iso comments ≡ ok anchors
    → normalize_anchor_set iso (anchor_set anchors) ≡ ok anchors
unfolding anchors_from_comments
anchors_from_comments-normalize iso comments {anchors} reads h =
    let (normal, short) = first_anchors-IsNormal iso max_frontier_anchors [] comments h in
    IsNormal-normalize_anchor_set iso reads anchors normal short

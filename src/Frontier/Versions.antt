-- ===== src/Frontier/Versions.antt =====
-- What the version of a frontier gives: of the writers that read one version, one at most writes.
use books_of_time.Base.{
  ℕ, suc, ◌≡◌, ◌≢◌, refl, inl, inr, Bool, true, false, ◌&&◌, ◌||◌, List, [], ◌∷◌, ◌++◌, map, any,
  filter, length, leb, ◌==◌, if◌then◌else◌, Bool-cases, Option-cases, Result-cases, arith, ok, err,
}
use books_of_time.Base.Int.{ℤ, pos}
use books_of_time.Base.Time.{Datetime}
use books_of_time.Scan.Types.{frontier_version_conflict}
use books_of_time.Scan.Transitions.{aware_now}
use books_of_time.Frontier.Anchors.{IsoText}
use books_of_time.Frontier.{
  FrontierState, FrontierTable, FrontierStateUpdate, FrontierValues, FrontierKey,
  frontier_update_values, swapped, is_expected, frontier_with_id, swap_rows, compare_and_swap,
  has_frontier_key, find_frontier, new_frontier, add_frontier, get_or_create,
}

-- The ids are distinct and below `next_id`.
abbrev pub IsUniqueId : List FrontierState → Type 0
IsUniqueId [] = Unit {0}
IsUniqueId (x ∷ xs) = (any (λ (r : FrontierState). r.id == x.id) xs ≡ false) × IsUniqueId xs

pub record IsFrontierTable (t : FrontierTable) : Type 0 where
  pub unique : IsUniqueId t.rows
  pub fresh : any (λ (r : FrontierState). leb t.next_id r.id) t.rows ≡ false

-- A call of the repository that returns, by whichever transaction.
pub data FrontierStep (iso : IsoText) : FrontierTable → FrontierTable → Type 0 where
  swaps :
      (id : ℕ) (version : ℤ) (u : FrontierStateUpdate) (now : Datetime) {t t' : FrontierTable}
      {state : FrontierState}
      → compare_and_swap iso id version u now t ≡ ok (state, t')
      → FrontierStep iso t t'
  creates :
      (sees : FrontierState → Bool) (key : FrontierKey) (now : Datetime) {t t' : FrontierTable}
      {state : FrontierState}
      → get_or_create sees key now t ≡ ok (state, t')
      → FrontierStep iso t t'

pub data FrontierSteps (iso : IsoText) : FrontierTable → FrontierTable → Type 0 where
  stop : (t : FrontierTable) → FrontierSteps iso t t
  and_then :
      {t u v : FrontierTable} → FrontierSteps iso t u → FrontierStep iso u v → FrontierSteps iso t v

id_eq : (r : FrontierState) {id : ℕ} → (r.id == id) ≡ true → id ≡ r.id
id_eq r e = ground arith

module _ (id version : ℕ) where
  -- A row of the id that is at the version, or before it.
  unfoldable is_behind : FrontierState → Bool
  is_behind r = r.id == id && leb r.version version

  -- The id is taken, and its row has passed the version.
  HasPassed : FrontierTable → Type 0
  HasPassed t = (leb t.next_id id ≡ false) × (any is_behind t.rows ≡ false)

  any-behind_append :
      (rows : List FrontierState) (r : FrontierState)
      → any is_behind (rows ++ r ∷ []) ≡ (any is_behind rows || is_behind r)
  any-behind_append [] r = ground arith
  any-behind_append (x ∷ rows) r = ground (arith, any-behind_append rows r)

  -- No UPDATE brings a row back.
  any-behind_map :
      (i : ℕ) (expected : ℤ) (v : FrontierValues) (now : ℕ) (rows : List FrontierState)
      → any is_behind rows ≡ false
      → any is_behind (map (λ r. if is_expected i expected r then swapped v now r else r) rows)
        ≡ false
  unfolding is_behind is_expected swapped
  any-behind_map i expected v now [] h = refl
  any-behind_map i expected v now (r ∷ rows) h =
      ground (arith, any-behind_map i expected v now rows)

  none_expected :
      (rows : List FrontierState)
      → any is_behind rows ≡ false
      → length (filter (is_expected id (pos version)) rows) ≡ 0
  unfolding is_behind is_expected
  none_expected [] h = refl
  none_expected (r ∷ rows) h = ground (arith, none_expected rows)

  other_rows :
      (v : FrontierValues) (now : ℕ) (rows : List FrontierState)
      → any (λ (r : FrontierState). r.id == id) rows ≡ false
      → (length (filter (is_expected id (pos version)) rows) ≡ 0)
        × (any is_behind
              (map (λ r. if is_expected id (pos version) r then swapped v now r else r) rows)
            ≡ false)
  unfolding is_behind is_expected swapped
  other_rows v now [] h = (refl, refl)
  other_rows v now (r ∷ rows) h = let e = other_rows v now rows in (ground arith, ground arith)

  taken :
      (rows : List FrontierState) (next_id : ℕ)
      → any (λ (r : FrontierState). leb next_id r.id) rows ≡ false
      → length (filter (is_expected id (pos version)) rows) ≡ 1
      → leb next_id id ≡ false
  unfolding is_expected
  taken [] next_id f one = absurd (omega (arith, one))
  taken (r ∷ rows) next_id f one = ground (arith, taken rows next_id)

  -- The one row that the UPDATE finds goes one version on.
  swapped_passes :
      (v : FrontierValues) (now : ℕ) (rows : List FrontierState)
      → IsUniqueId rows
      → length (filter (is_expected id (pos version)) rows) ≡ 1
      → any is_behind
          (map (λ r. if is_expected id (pos version) r then swapped v now r else r) rows)
        ≡ false
  unfolding is_behind is_expected swapped
  swapped_passes v now [] u h = refl
  swapped_passes v now (r ∷ rows) u h = elim (Bool-cases (r.id == id)) [
    | inl e ↦
        let others : any (λ (x : FrontierState). x.id == id) rows ≡ false = rw (id_eq r e) u.0 in
        let rest = other_rows v now rows others in ground arith
    | inr e ↦ ground (arith, swapped_passes v now rows u.1)
  ]

  pub swap_rows_elim :
      (i : ℕ) (expected : ℤ) (v : FrontierValues) (now : ℕ) (t : FrontierTable)
      {state : FrontierState} {t' : FrontierTable}
      → swap_rows i expected v now t ≡ ok (state, t')
      → (t'.rows ≡ map (λ r. if is_expected i expected r then swapped v now r else r) t.rows)
        × (t'.next_id ≡ t.next_id)
        × (length (filter (is_expected i expected) t.rows) ≡ 1)
  unfolding swap_rows
  swap_rows_elim i expected v now t h =
      let rows = map (λ r. if is_expected i expected r then swapped v now r else r) t.rows in
      elim (Bool-cases (length (filter (is_expected i expected) t.rows) == 1)) [
        | inr e ↦ absurd (ground arith)
        | inl e ↦ elim (Option-cases (frontier_with_id rows i)) [
          | inl n ↦ absurd (ground arith)
          | inr (x, n) ↦ (ground arith, ground arith, ground arith)
        ]
      ]

  compare_and_swap_elim :
      (iso : IsoText) (i : ℕ) (expected : ℤ) (u : FrontierStateUpdate) (now : Datetime)
      (t : FrontierTable) {state : FrontierState} {t' : FrontierTable}
      → compare_and_swap iso i expected u now t ≡ ok (state, t')
      → (v : FrontierValues) × (n : ℕ) × (swap_rows i expected v n t ≡ ok (state, t'))
  unfolding compare_and_swap
  compare_and_swap_elim iso i expected u now t h = elim (Result-cases (aware_now now)) [
    | inl (e, a) ↦ absurd (ground arith)
    | inr (n, a) ↦ elim (Result-cases (frontier_update_values iso u)) [
      | inl (e, b) ↦ absurd (ground arith)
      | inr (v, b) ↦ (v, n, ground arith)
    ]
  ]

  add_frontier_passes :
      (key : FrontierKey) (now : ℕ) (t : FrontierTable) {state : FrontierState} {t' : FrontierTable}
      → add_frontier key now t ≡ ok (state, t')
      → HasPassed t
      → HasPassed t'
  unfolding add_frontier new_frontier HasPassed is_behind
  add_frontier_passes key now t {t'} h p = elim (Bool-cases (any (has_frontier_key key) t.rows)) [
    | inl e ↦ elim (Option-cases (find_frontier (λ r. true) key t.rows)) [
      | inl n ↦ absurd (ground arith)
      | inr (x, n) ↦ let same : t' ≡ t = ground arith in rw same p
    ]
    | inr e ↦
        let x = new_frontier t.next_id now key in
        let new : t' ≡ record { rows = t.rows ++ x ∷ []; next_id = suc t.next_id } = ground arith in
        rw new (ground arith, ground (arith, any-behind_append t.rows x))
  ]

  step_passes :
      (iso : IsoText) {t t' : FrontierTable} → FrontierStep iso t t' → HasPassed t → HasPassed t'
  unfolding HasPassed get_or_create
  step_passes iso {t} {t'} (swaps i expected u now e) p =
      let (v, n, f) = compare_and_swap_elim iso i expected u now t e in
      let (rows, next, one) = swap_rows_elim i expected v n t f in
      (rw next p.0, rw rows (any-behind_map i expected v n t.rows p.1))
  step_passes iso {t} {t'} (creates sees key now {state = state} e) p =
      elim (Result-cases (aware_now now)) [
        | inl (x, a) ↦ absurd (ground arith)
        | inr (n, a) ↦ elim (Option-cases (find_frontier sees key t.rows)) [
          | inl f ↦
              let added : add_frontier key n t ≡ ok (state, t') = ground arith in
              add_frontier_passes key n t added p
          | inr (x, f) ↦ let same : t' ≡ t = ground arith in rw same p
        ]
      ]

  steps_pass :
      (iso : IsoText) {t t' : FrontierTable} → FrontierSteps iso t t' → HasPassed t → HasPassed t'
  steps_pass iso (stop t) p = p
  steps_pass iso (and_then before step) p = step_passes iso step (steps_pass iso before p)

  swap_passes :
      (v : FrontierValues) (now : ℕ) (t : FrontierTable) {state : FrontierState}
      {t' : FrontierTable}
      → IsFrontierTable t
      → swap_rows id (pos version) v now t ≡ ok (state, t')
      → HasPassed t'
  unfolding HasPassed
  swap_passes v now t w h =
      let (rows, next, one) = swap_rows_elim id (pos version) v now t h in
      (
        rw next (taken t.rows t.next_id w.fresh one),
        rw rows (swapped_passes v now t.rows w.unique one),
      )

  passed_refused :
      (v : FrontierValues) (now : ℕ) (t : FrontierTable)
      → HasPassed t
      → swap_rows id (pos version) v now t ≡ err frontier_version_conflict
  unfolding HasPassed swap_rows
  passed_refused v now t p = ground (arith, none_expected t.rows)

-- Once a compare-and-swap has written a version of a frontier, no later one that expects this
-- version writes, whatever the other transactions do in between.
pub compare_and_swap_exclusive :
    (iso : IsoText) (id version : ℕ) (u u' : FrontierStateUpdate) (now later : Datetime)
    {t t' t'' last : FrontierTable} {state state' : FrontierState}
    → IsFrontierTable t
    → compare_and_swap iso id (pos version) u now t ≡ ok (state, t')
    → FrontierSteps iso t' t''
    → compare_and_swap iso id (pos version) u' later t'' ≢ ok (state', last)
compare_and_swap_exclusive iso id version u u' now later {t} {t''} w h steps k =
    let (v, n, f) = compare_and_swap_elim id version iso id (pos version) u now t h in
    let (v', n', g) = compare_and_swap_elim id version iso id (pos version) u' later t'' k in
    let passed = steps_pass id version iso steps (swap_passes id version v n t w f) in
    let refused = passed_refused id version v' n' t'' passed in absurd (ground arith)

-- ===== src/Frontier/Owner.antt =====
-- The owner that a compare-and-swap of a frontier leaves.
use books_of_time.Base.{
  ℕ, ◌≡◌, refl, ap, sym, ◌∙◌, inl, inr, false, some, List, [], ◌∷◌, map, any, filter, length, ◌==◌,
  if◌then◌else◌, Option, Bool-cases, Option-cases, Result-cases, arith, ok,
}
use books_of_time.Base.Int.{ℤ}
use books_of_time.Base.Time.{Datetime}
use books_of_time.Scan.Transitions.{aware_now}
use books_of_time.Frontier.Anchors.{IsoText}
use books_of_time.Frontier.{
  FrontierState, FrontierTable, FrontierStateUpdate, FrontierValues, frontier_update_values,
  swapped, is_expected, frontier_with_id, swap_rows, compare_and_swap,
}
use books_of_time.Frontier.Register.{update_values-owner}
use books_of_time.Frontier.Versions.{IsUniqueId}

module _ (id : ℕ) (expected : ℤ) (v : FrontierValues) (now : ℕ) where
  abbrev after : List FrontierState → List FrontierState
  after rows = map (λ r. if is_expected id expected r then swapped v now r else r) rows

  any-id_after :
      (i : ℕ) (rows : List FrontierState)
      → any (λ (r : FrontierState). r.id == i) (after rows)
        ≡ any (λ (r : FrontierState). r.id == i) rows
  unfolding swapped
  any-id_after i [] = refl
  any-id_after i (r ∷ rows) = ground (arith, any-id_after i rows)

  IsUniqueId-after : (rows : List FrontierState) → IsUniqueId rows → IsUniqueId (after rows)
  unfolding swapped
  IsUniqueId-after [] u = tt
  IsUniqueId-after (r ∷ rows) u = elim (Bool-cases (is_expected id expected r)) [
    | inl e ↦ rw e (rw (any-id_after r.id rows) u.0, IsUniqueId-after rows u.1)
    | inr e ↦ rw e (rw (any-id_after r.id rows) u.0, IsUniqueId-after rows u.1)
  ]

  none_expected_of_id :
      (rows : List FrontierState)
      → any (λ (r : FrontierState). r.id == id) rows ≡ false
      → length (filter (is_expected id expected) rows) ≡ 0
  unfolding is_expected
  none_expected_of_id [] h = refl
  none_expected_of_id (r ∷ rows) h = ground (arith, none_expected_of_id rows)

  found_after :
      (rows : List FrontierState) {old state : FrontierState}
      → IsUniqueId rows
      → frontier_with_id rows id ≡ some old
      → length (filter (is_expected id expected) rows) ≡ 1
      → frontier_with_id (after rows) id ≡ some state
      → (state.id ≡ id)
        × (state.active_scan_run_id ≡ v.active_scan_run_id)
        × (state.target_id ≡ old.target_id)
  unfolding swapped is_expected
  found_after [] u b one f = absurd (ground arith)
  found_after (r ∷ rows) {old} {state} u b one f = elim (Bool-cases (r.id == id)) [
    | inl e ↦
        let same : id ≡ r.id = ground arith in
        let others : any (λ (x : FrontierState). x.id == id) rows ≡ false = rw same u.0 in
        let zero_rest = none_expected_of_id rows others in
        (ground arith, ground arith, ground arith)
    | inr e ↦
        let b' : frontier_with_id rows id ≡ some old = ground arith in
        let one' : length (filter (is_expected id expected) rows) ≡ 1 = ground arith in
        let f' : frontier_with_id (after rows) id ≡ some state = ground arith in
        found_after rows u.1 b' one' f'
  ]

-- What a compare-and-swap of the row `old` leaves: the row that it returns is in the table.
pub record IsSwapped (wanted : Option ℕ) (old state : FrontierState) (t : FrontierTable)
    : Type 0 where
  pub owner : state.active_scan_run_id ≡ wanted
  pub id : state.id ≡ old.id
  pub target : state.target_id ≡ old.target_id
  pub unique : IsUniqueId t.rows
  pub there : frontier_with_id t.rows state.id ≡ some state

pub compare_and_swap-owner :
    (iso : IsoText) (old : FrontierState) (expected : ℤ) (u : FrontierStateUpdate) (now : Datetime)
    (t : FrontierTable) {state : FrontierState} {t' : FrontierTable}
    → IsUniqueId t.rows
    → frontier_with_id t.rows old.id ≡ some old
    → compare_and_swap iso old.id expected u now t ≡ ok (state, t')
    → IsSwapped u.active_scan_run_id old state t'
unfolding compare_and_swap swap_rows
compare_and_swap-owner iso old expected u now t {state} {t'} w found h =
    let id = old.id in
    elim (Result-cases (aware_now now)) [
      | inl (e, a) ↦ absurd (ground arith)
      | inr (n, a) ↦ elim (Result-cases (frontier_update_values iso u)) [
        | inl (e, b) ↦ absurd (ground arith)
        | inr (v, b) ↦
            let rows = map (λ r. if is_expected id expected r then swapped v n r else r) t.rows in
            elim (Bool-cases (length (filter (is_expected id expected) t.rows) == 1)) [
              | inr e ↦ absurd (ground arith)
              | inl e ↦ elim (Option-cases (frontier_with_id rows id)) [
                | inl f ↦ absurd (ground arith)
                | inr (x, f) ↦
                    let same : x ≡ state = ground arith in
                    let rest = found_after id expected v n t.rows w found (ground arith) f in
                    let value = update_values-owner iso u b in
                    let after : t'.rows ≡ rows = ground arith in
                    let (same_id, owner, target) = rest in
                    record {
                      owner =
                          sym (ap (λ (y : FrontierState). y.active_scan_run_id) same)
                          ∙ owner
                          ∙ value;
                      id = sym (ap (λ (y : FrontierState). y.id) same) ∙ same_id;
                      target = sym (ap (λ (y : FrontierState). y.target_id) same) ∙ target;
                      unique = rw after (IsUniqueId-after id expected v n t.rows w);
                      there =
                          rw (after, sym same)
                            (ap (λ (i : ℕ). frontier_with_id rows i) same_id ∙ f);
                    }
              ]
            ]
      ]
    ]

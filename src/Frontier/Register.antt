-- ===== src/Frontier/Register.antt =====
-- What the compare-and-swap of a frontier promises: a register for each id, that holds a version and
-- the scan that owns the frontier. The rows refine it.
use books_of_time.Base.{
  ℕ, suc, ◌≡◌, refl, ◌∙◌, ap, inl, inr, true, false, Option, none, some, List, [], ◌∷◌, map, any,
  filter, length, ◌==◌, if◌then◌else◌, Bool-cases, Result-cases, arith, ok,
}
use books_of_time.Base.Int.{pos}
use books_of_time.Base.Time.{Datetime}
use books_of_time.Scan.Transitions.{aware_now}
use books_of_time.Frontier.Anchors.{IsoText}
use books_of_time.Frontier.{
  FrontierState, FrontierTable, FrontierStateUpdate, FrontierValues, frontier_update_values,
  swapped, is_expected, frontier_with_id, swap_rows, compare_and_swap,
}
use books_of_time.Frontier.Versions.{IsUniqueId, swap_rows_elim}

-- The version of a register, and its owner.
abbrev pub Register : Type 0
Register = ℕ × Option ℕ

abbrev pub Registers : Type 0
Registers = ℕ → Option Register

-- A swap that finds the version it expects writes the owner and the next version; any other is
-- refused.
abbrev pub swap_held :
    (id version : ℕ) (owner : Option ℕ) → Registers → Option Register → Option Registers
swap_held id version owner m none = none
swap_held id version owner m (some held) =
    if held.0 == version
    then some (λ i. if i == id then some (suc version, owner) else m i)
    else none

pub swap_register : (id version : ℕ) (owner : Option ℕ) → Registers → Option Registers
swap_register id version owner m = swap_held id version owner m (m id)

-- The registers that the rows are.
abbrev pub register_of : Option FrontierState → Option Register
register_of none = none
register_of (some r) = some (r.version, r.active_scan_run_id)

pub registers : List FrontierState → Registers
registers rows id = register_of (frontier_with_id rows id)

module _ (id version : ℕ) (v : FrontierValues) (now : ℕ) where
  abbrev after : List FrontierState → List FrontierState
  after rows = map (λ r. if is_expected id (pos version) r then swapped v now r else r) rows

  other_kept :
      (i : ℕ) (rows : List FrontierState)
      → (i == id) ≡ false
      → frontier_with_id (after rows) i ≡ frontier_with_id rows i
  unfolding is_expected swapped
  other_kept i [] o = refl
  other_kept i (r ∷ rows) o = elim (Bool-cases (is_expected id (pos version) r)) [
    | inl e ↦ let rest = other_kept i rows o in ground arith
    | inr e ↦ let rest = other_kept i rows o in ground arith
  ]

  none_with_id :
      (rows : List FrontierState)
      → any (λ (r : FrontierState). r.id == id) rows ≡ false
      → length (filter (is_expected id (pos version)) rows) ≡ 0
  unfolding is_expected
  none_with_id [] h = refl
  none_with_id (r ∷ rows) h = ground (arith, none_with_id rows)

  own_written :
      (rows : List FrontierState)
      → IsUniqueId rows
      → length (filter (is_expected id (pos version)) rows) ≡ 1
      → (r : FrontierState) × (frontier_with_id rows id ≡ some r)
        × (r.version ≡ version)
        × (frontier_with_id (after rows) id ≡ some (swapped v now r))
  unfolding is_expected swapped
  own_written [] u one = absurd (omega (arith, one))
  own_written (r ∷ rows) u one = elim (Bool-cases (r.id == id)) [
    | inl e ↦
        let same : id ≡ r.id = ground arith in
        let others : any (λ (x : FrontierState). x.id == id) rows ≡ false = rw same u.0 in
        let zero_rest = none_with_id rows others in (r, ground arith, ground arith, ground arith)
    | inr e ↦
        let one' : length (filter (is_expected id (pos version)) rows) ≡ 1 = ground arith in
        let (x, f, g, k) = own_written rows u.1 one' in (x, ground arith, g, ground arith)
  ]

pub update_values-owner :
    (iso : IsoText) (u : FrontierStateUpdate) {v : FrontierValues}
    → frontier_update_values iso u ≡ ok v
    → v.active_scan_run_id ≡ u.active_scan_run_id
unfolding frontier_update_values
update_values-owner iso u h = grind arith

swapped_register :
    (v : FrontierValues) (now : ℕ) (r : FrontierState) {version : ℕ} {owner : Option ℕ}
    → r.version ≡ version
    → v.active_scan_run_id ≡ owner
    → register_of (some (swapped v now r)) ≡ some (suc version, owner)
unfolding swapped
swapped_register v now r e o = rw (e, o) refl

swap_register_own :
    (id version : ℕ) (owner held : Option ℕ) (m : Registers)
    → m id ≡ some (version, held)
    → swap_register id version owner m
      ≡ some (λ i. if i == id then some (suc version, owner) else m i)
unfolding swap_register
swap_register_own id version owner held m h =
    let same : (version == version) ≡ true = ground arith in rw (h, same) refl

-- A compare-and-swap that returns is a swap of the registers: the one of its id held the version it
-- expects, and holds the new owner and the next version; the others are as they were. The ids of the
-- frontiers are distinct.
pub compare_and_swap-refines :
    (iso : IsoText) (id version : ℕ) (u : FrontierStateUpdate) (now : Datetime) (t : FrontierTable)
    {state : FrontierState} {t' : FrontierTable}
    → IsUniqueId t.rows
    → compare_and_swap iso id (pos version) u now t ≡ ok (state, t')
    → (m : Registers) × (swap_register id version u.active_scan_run_id (registers t.rows) ≡ some m)
      × ((i : ℕ) → registers t'.rows i ≡ m i)
unfolding compare_and_swap registers
compare_and_swap-refines iso id version u now t {state} {t'} unique h =
    elim (Result-cases (aware_now now)) [
      | inl (e, a) ↦ absurd (ground arith)
      | inr (n, a) ↦ elim (Result-cases (frontier_update_values iso u)) [
        | inl (e, b) ↦ absurd (ground arith)
        | inr (v, b) ↦
            let g : swap_rows id (pos version) v n t ≡ ok (state, t') = ground arith in
            let (rows, next, one) = swap_rows_elim id version id (pos version) v n t g in
            let (r, f, e, k) = own_written id version v n t.rows unique one in
            let owner = update_values-owner iso u b in
            (
              λ i. if i == id then some (suc version, u.active_scan_run_id) else registers t.rows i,
              swap_register_own id version u.active_scan_run_id r.active_scan_run_id
                  (registers t.rows) (rw (f, e) refl),
              λ i. elim (Bool-cases (i == id)) [
                | inl s ↦
                    let same : i ≡ id = ground arith in
                    let there = ap register_of k ∙ swapped_register v n r e owner in
                    rw (s, rows, same) there
                | inr s ↦ rw (s, rows, other_kept id version v n i t.rows s) refl
              ],
            )
      ]
    ]

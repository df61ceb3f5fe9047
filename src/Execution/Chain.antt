-- ===== src/Execution/Chain.antt =====
-- `_latest_cumulative_counters` of db/cohort_repositories.py: the counts of a scan and of those that
-- it follows. Its loop is recursion on fuel; the fuel of `latest_cumulative_counters` is enough.
use books_of_time.Base.{
  ℕ, zero, suc, ◌+◌, ◌≤◌, ◌<◌, ◌≡◌, refl, ◌∙◌, ◌⊎◌, inl, inr, Bool, true, false, not, Option, none,
  some, List, [], ◌∷◌, any, filter, length, length-filter-le, ◌==◌, Bool-cases, Option-cases, arith,
  Result, ok, err, raise_if, ◌>>◌,
}
use books_of_time.Scan.Types.{CommentScanRun, is_latest_mode}
use books_of_time.Scan.Transitions.{first_with_id}
use books_of_time.Store.{
  StoreError, scan_run_not_found, parent_cycle, parent_incompatible, out_of_fuel,
}

pub record Counters : Type 0 where
  pub requested : ℕ
  pub succeeded : ℕ
  pub items : ℕ
  pub raw_payloads : ℕ

abbrev pub counters_of : CommentScanRun → Counters
counters_of s = record {
  requested = s.pages_requested;
  succeeded = s.pages_succeeded;
  items = s.items_observed;
  raw_payloads = s.raw_payloads_saved;
}

abbrev pub plus : Counters → CommentScanRun → Counters
plus c s = record {
  requested = c.requested + s.pages_requested;
  succeeded = c.succeeded + s.pages_succeeded;
  items = c.items + s.items_observed;
  raw_payloads = c.raw_payloads + s.raw_payloads_saved;
}

abbrev pub is_in : List ℕ → ℕ → Bool
is_in visited id = any (λ v. v == id) visited

-- The loop, with the ids it has visited.
unfoldable pub add_parents :
    (fuel : ℕ) (rows : List CommentScanRun) (visited : List ℕ)
    → Counters
    → (parent : Option ℕ) → Result StoreError Counters
add_parents fuel rows visited total none = ok total
add_parents zero rows visited total (some id) = err out_of_fuel
add_parents (suc fuel) rows visited total (some id) =
    raise_if (is_in visited id) parent_cycle >> elim (first_with_id rows id) [
      | none ↦ err scan_run_not_found
      | some parent ↦
          raise_if (not (is_latest_mode parent.mode)) parent_incompatible
          >> add_parents fuel rows (id ∷ visited) (plus total parent) parent.parent_scan_run_id
    ]

-- `_latest_cumulative_counters`
unfoldable pub latest_cumulative_counters :
    CommentScanRun → List CommentScanRun → Result StoreError Counters
latest_cumulative_counters scan rows =
    add_parents (suc (length rows)) rows (scan.id ∷ []) (counters_of scan) scan.parent_scan_run_id

-- The rows that the loop can still visit.
abbrev unvisited : List ℕ → List CommentScanRun → List CommentScanRun
unvisited visited rows = filter (λ (r : CommentScanRun). not (is_in visited r.id)) rows

unvisited_mono :
    (visited : List ℕ) (id : ℕ) (rows : List CommentScanRun)
    → length (unvisited (id ∷ visited) rows) ≤ length (unvisited visited rows)
unvisited_mono visited id [] = omega arith
unvisited_mono visited id (r ∷ rows) = ground (arith, unvisited_mono visited id rows)

-- A visit leaves fewer.
visit_less :
    (visited : List ℕ) (id : ℕ) (rows : List CommentScanRun) {parent : CommentScanRun}
    → is_in visited id ≡ false
    → first_with_id rows id ≡ some parent
    → length (unvisited (id ∷ visited) rows) < length (unvisited visited rows)
visit_less visited id [] n f = absurd (ground arith)
visit_less visited id (r ∷ rows) {parent} n f = elim (Bool-cases (r.id == id)) [
  | inl e ↦
      let rest = unvisited_mono visited id rows in
      let same : r.id ≡ id = ground arith in
      let old : is_in visited r.id ≡ false = rw same n in ground arith
  | inr e ↦
      let g : first_with_id rows id ≡ some parent = ground arith in
      let rest = visit_less visited id rows n g in ground arith
]

-- The scans that follow one another from a parent to the one that has none, all of them scans of
-- the newest comments.
pub data ParentChain (rows : List CommentScanRun) : Option ℕ → List CommentScanRun → Type 0 where
  ends : ParentChain rows none []
  follows :
      (id : ℕ) {parent : CommentScanRun} {rest : List CommentScanRun}
      → first_with_id rows id ≡ some parent
      → is_latest_mode parent.mode ≡ true
      → ParentChain rows parent.parent_scan_run_id rest
      → ParentChain rows (some id) (parent ∷ rest)

abbrev pub totals : Counters → List CommentScanRun → Counters
totals total [] = total
totals total (s ∷ rest) = totals (plus total s) rest

-- What is wrong with the parents of a scan, given the ids that were passed: some parent, reached over
-- scans of the newest comments, has been passed before, is not in the table, or is of another mode.
pub data BrokenChain (rows : List CommentScanRun) : List ℕ → Option ℕ → StoreError → Type 0 where
  comes_back :
      {visited : List ℕ} (id : ℕ)
      → is_in visited id ≡ true
      → BrokenChain rows visited (some id) parent_cycle
  is_gone :
      {visited : List ℕ} (id : ℕ)
      → first_with_id rows id ≡ none
      → BrokenChain rows visited (some id) scan_run_not_found
  is_foreign :
      {visited : List ℕ} (id : ℕ) {parent : CommentScanRun}
      → first_with_id rows id ≡ some parent
      → is_latest_mode parent.mode ≡ false
      → BrokenChain rows visited (some id) parent_incompatible
  passes :
      {visited : List ℕ} (id : ℕ) {parent : CommentScanRun} {e : StoreError}
      → first_with_id rows id ≡ some parent
      → is_latest_mode parent.mode ≡ true
      → BrokenChain rows (id ∷ visited) parent.parent_scan_run_id e
      → BrokenChain rows visited (some id) e

-- The ways that the loop ends.
abbrev Ends :
    List CommentScanRun → List ℕ → Counters → Option ℕ → Result StoreError Counters → Type 0
Ends rows visited total parent result =
    ((chain : List CommentScanRun) × ParentChain rows parent chain
      × (result ≡ ok (totals total chain)))
    ⊎ ((e : StoreError) × BrokenChain rows visited parent e × (result ≡ err e))

add_parents-Ends :
    (fuel : ℕ) (rows : List CommentScanRun) (visited : List ℕ) (total : Counters)
    (parent : Option ℕ)
    → length (unvisited visited rows) < fuel
    → Ends rows visited total parent (add_parents fuel rows visited total parent)
unfolding add_parents
add_parents-Ends zero rows visited total parent l = absurd (omega (arith, l))
add_parents-Ends (suc fuel) rows visited total none l = inl ([], ends, refl)
add_parents-Ends (suc fuel) rows visited total (some id) l = elim (Bool-cases (is_in visited id)) [
  | inl n ↦ inr (parent_cycle, comes_back id n, ground arith)
  | inr n ↦ elim (Option-cases (first_with_id rows id)) [
    | inl f ↦ inr (scan_run_not_found, is_gone id f, ground arith)
    | inr (p, f) ↦ elim (Bool-cases (is_latest_mode p.mode)) [
      | inr m ↦ inr (parent_incompatible, is_foreign id f m, ground arith)
      | inl m ↦
          let less = visit_less visited id rows n f in
          let more : length (unvisited (id ∷ visited) rows) < fuel = omega (arith, less, l) in
          let e : add_parents (suc fuel) rows visited total (some id)
              ≡ add_parents fuel rows (id ∷ visited) (plus total p) p.parent_scan_run_id =
            ground arith in
          elim (add_parents-Ends fuel rows (id ∷ visited) (plus total p) p.parent_scan_run_id
            more) [
              | inl (chain, c, r) ↦ inl (p ∷ chain, follows id f m c, e ∙ r)
              | inr (x, b, r) ↦ inr (x, passes id f m b, e ∙ r)
            ]
    ]
  ]
]

unvisited_le :
    (visited : List ℕ) (rows : List CommentScanRun) → length (unvisited visited rows) ≤ length rows
unvisited_le visited rows = length-filter-le (λ (r : CommentScanRun). not (is_in visited r.id)) rows

-- The loop over the parents ends: it returns the sums over the chain of parents, all of them scans of
-- the newest comments, up to a scan that has none, or raises because the chain, over such scans,
-- comes back to a scan (a cycle), leaves the table, or meets a scan of another mode, each with its
-- own exception. The fuel is never the reason.
pub latest_cumulative_counters_ends :
    (scan : CommentScanRun) (rows : List CommentScanRun)
    → ((chain : List CommentScanRun) × ParentChain rows scan.parent_scan_run_id chain
        × (latest_cumulative_counters scan rows ≡ ok (totals (counters_of scan) chain)))
      ⊎ ((e : StoreError) × BrokenChain rows (scan.id ∷ []) scan.parent_scan_run_id e
          × (latest_cumulative_counters scan rows ≡ err e))
unfolding latest_cumulative_counters
latest_cumulative_counters_ends scan rows =
    let le = unvisited_le (scan.id ∷ []) rows in
    add_parents-Ends (suc (length rows)) rows (scan.id ∷ []) (counters_of scan)
      scan.parent_scan_run_id (omega (arith, le))

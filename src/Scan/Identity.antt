-- ===== src/Scan/Identity.antt =====
-- One scan for each key: `materialize_hot` called again returns the scan that it returned before.
use books_of_time.Base.{
  ℕ, suc, ◌≡◌, refl, sym, ap, ◌⊎◌, inl, inr, Bool, true, false, some, String, List, [], ◌∷◌, ◌++◌,
  any, Bool-cases, Option-cases, Result-cases, arith, ok,
}
use books_of_time.Base.Text.{str_eq, str_eq_iff}
use books_of_time.Base.Time.{Datetime, aware}
use books_of_time.Base.Values.{int, null, put, get-put, get-put_other}
use books_of_time.Scan.Types.{CommentScanRun, ScanTable, same_slot}
use books_of_time.Scan.Transitions.{aware_now}
use books_of_time.Scan.{
  HotScanRunPlan, validate_hot_plan, is_same_hot_scan, new_hot_scan, find_by_scan_key, return_hot,
  insert_scan, add_hot_scan, materialize_hot,
}

-- No two rows share a key, and no two scans of the newest comments of one video are under way.
abbrev pub IsUniqueScan : List CommentScanRun → Type 0
IsUniqueScan [] = Unit {0}
IsUniqueScan (x ∷ xs) = (any (same_slot x) xs ≡ false) × IsUniqueScan xs

str_eq_comm : (a b : String) → str_eq a b ≡ str_eq b a
str_eq_comm a b = ground (arith, str_eq_iff a b, str_eq_iff b a)

same_slot_comm : (x y : CommentScanRun) → same_slot x y ≡ same_slot y x
unfolding same_slot
same_slot_comm x y = ground (arith, str_eq_comm x.scan_key y.scan_key, str_eq_comm x.bvid y.bvid)

same_slot_of_key :
    (key : String) (x y : CommentScanRun)
    → str_eq x.scan_key key ≡ true
    → str_eq y.scan_key key ≡ true
    → same_slot x y ≡ true
unfolding same_slot
same_slot_of_key key x y h k =
    ground (
      arith,
      str_eq_iff x.scan_key key,
      str_eq_iff y.scan_key key,
      str_eq_iff x.scan_key y.scan_key,
    )

module _ (sees : CommentScanRun → Bool) (key : String) where
  find-same_slot :
      (x y : CommentScanRun) (rows : List CommentScanRun)
      → find_by_scan_key sees key rows ≡ some x
      → str_eq y.scan_key key ≡ true
      → any (same_slot y) rows ≡ true
  unfolding find_by_scan_key
  find-same_slot x y [] h k = cc
  find-same_slot x y (r ∷ rows) h k = elim (Bool-cases (str_eq r.scan_key key)) [
    | inl e ↦ ground (arith, same_slot_of_key key y r k e)
    | inr e ↦ ground (arith, find-same_slot x y rows (ground arith) k)
  ]

  -- What a transaction sees under a key is the one row that has it.
  find_by_scan_key_unique :
      (x : CommentScanRun) (rows : List CommentScanRun)
      → IsUniqueScan rows
      → find_by_scan_key sees key rows ≡ some x
      → find_by_scan_key (λ r. true) key rows ≡ some x
  unfolding find_by_scan_key
  find_by_scan_key_unique x [] u h = cc
  find_by_scan_key_unique x (r ∷ rows) u h = elim (Bool-cases (str_eq r.scan_key key)) [
    | inr e ↦ ground (arith, find_by_scan_key_unique x rows u.1 (ground arith))
    | inl e ↦ elim (Bool-cases (sees r)) [
      | inl s ↦ ground arith
      | inr s ↦ absurd (
          let found : find_by_scan_key sees key rows ≡ some x = ground arith in
          ground (arith, find-same_slot x r rows found e, u.0))
    ]
  ]

find_by_scan_key_append :
    (x : CommentScanRun) (rows : List CommentScanRun)
    → any (same_slot x) rows ≡ false
    → find_by_scan_key (λ r. true) x.scan_key (rows ++ x ∷ []) ≡ some x
unfolding find_by_scan_key
find_by_scan_key_append x [] h = ground (arith, str_eq_iff x.scan_key x.scan_key)
find_by_scan_key_append x (r ∷ rows) h = ground (
  arith,
  str_eq_iff x.scan_key x.scan_key,
  same_slot_of_key x.scan_key x r,
  find_by_scan_key_append x rows,
)

new_hot_scan_same :
    (id now : ℕ) (plan : HotScanRunPlan) → is_same_hot_scan (new_hot_scan id now plan) plan ≡ true
unfolding is_same_hot_scan new_hot_scan
new_hot_scan_same id now plan =
    let e = put plan.extra "start_page" (int plan.start_page) in
    let kept = get-put_other "end_page" (int plan.end_page) null "start_page" refl e in
    let start = get-put "start_page" (int plan.start_page) null plan.extra in
    let end = get-put "end_page" (int plan.end_page) null e in
    ground
      (arith, str_eq_iff plan.bvid plan.bvid, str_eq_iff plan.policy_version plan.policy_version)

-- Which scan `add_hot_scan` returns, and the table after it.
add_hot_scan_elim :
    (plan : HotScanRunPlan) (now : ℕ) (t : ScanTable) {scan : CommentScanRun} {created : Bool}
    {t' : ScanTable}
    → add_hot_scan plan now t ≡ ok ((scan, created), t')
    → ((find_by_scan_key (λ r. true) plan.scan_key t.rows ≡ some scan)
        × (is_same_hot_scan scan plan ≡ true)
        × (t' ≡ t))
      ⊎ ((any (same_slot scan) t.rows ≡ false)
          × (scan ≡ new_hot_scan t.next_id now plan)
          × (t' ≡ record { rows = t.rows ++ scan ∷ []; next_id = suc t.next_id }))
unfolding add_hot_scan insert_scan
add_hot_scan_elim plan now t h =
    elim (Bool-cases (any (same_slot (new_hot_scan t.next_id now plan)) t.rows)) [
      | inl e ↦ elim (Option-cases (find_by_scan_key (λ r. true) plan.scan_key t.rows)) [
        | inl n ↦ absurd (ground arith)
        | inr (x, f) ↦ inl (ground arith, ground arith, ground arith)
      ]
      | inr e ↦ inr (ground arith, ground arith, ground arith)
    ]

found_new :
    (plan : HotScanRunPlan) (now : ℕ) (t : ScanTable) {scan : CommentScanRun} {created : Bool}
    {t' : ScanTable}
    → add_hot_scan plan now t ≡ ok ((scan, created), t')
    → (find_by_scan_key (λ r. true) plan.scan_key t'.rows ≡ some scan)
      × (is_same_hot_scan scan plan ≡ true)
unfolding new_hot_scan
found_new plan now t {scan} h = elim (add_hot_scan_elim plan now t h) [
  | inl (f, same, e) ↦ (rw e f, same)
  | inr (free, new, e) ↦
      let key = ap (λ (x : CommentScanRun). x.scan_key) new in
      let same = new_hot_scan_same t.next_id now plan in
      (rw (e, sym key) (find_by_scan_key_append scan t.rows free), rw new same)
]

found_old :
    (sees : CommentScanRun → Bool) (plan : HotScanRunPlan) (t : ScanTable) (x : CommentScanRun)
    {scan : CommentScanRun} {created : Bool} {t' : ScanTable}
    → IsUniqueScan t.rows
    → find_by_scan_key sees plan.scan_key t.rows ≡ some x
    → return_hot plan x t ≡ ok ((scan, created), t')
    → (find_by_scan_key (λ r. true) plan.scan_key t'.rows ≡ some scan)
      × (is_same_hot_scan scan plan ≡ true)
found_old sees plan t x u f h =
    let e = find_by_scan_key_unique sees plan.scan_key x t.rows u f in (ground arith, ground arith)

module _ (sees : CommentScanRun → Bool) (plan : HotScanRunPlan) (now : Datetime) (t : ScanTable)
    {scan : CommentScanRun} {created : Bool} {t' : ScanTable} (u : IsUniqueScan t.rows)
    (h : materialize_hot sees plan now t ≡ ok ((scan, created), t')) where
  -- After a call that returns, the scan is the one of the key, and has the plan's identity.
  materialize_hot-found :
      (validate_hot_plan plan ≡ ok tt)
      × (find_by_scan_key (λ r. true) plan.scan_key t'.rows ≡ some scan)
      × (is_same_hot_scan scan plan ≡ true)
  unfolding materialize_hot
  materialize_hot-found = elim (Result-cases (aware_now now)) [
    | inl (e, a) ↦ absurd (ground arith)
    | inr (n, a) ↦
        let valid : validate_hot_plan plan ≡ ok tt = ground arith in
        elim (Option-cases (find_by_scan_key sees plan.scan_key t.rows)) [
          | inl f ↦
              let added : add_hot_scan plan n t ≡ ok ((scan, created), t') = ground arith in
              let there = found_new plan n t added in (valid, there.0, there.1)
          | inr (x, f) ↦
              let returned : return_hot plan x t ≡ ok ((scan, created), t') = ground arith in
              let there = found_old sees plan t x u f returned in (valid, there.0, there.1)
        ]
  ]

-- The second of two calls with one plan returns the scan that the first returned, says that it has
-- not created it, and leaves the table as it was.
pub materialize_hot_twice :
    (sees : CommentScanRun → Bool) (plan : HotScanRunPlan) (now : Datetime) (later : ℕ)
    (t : ScanTable) {scan : CommentScanRun} {created : Bool} {t' : ScanTable}
    → IsUniqueScan t.rows
    → materialize_hot sees plan now t ≡ ok ((scan, created), t')
    → materialize_hot (λ r. true) plan (aware later) t' ≡ ok ((scan, false), t')
unfolding materialize_hot aware_now
materialize_hot_twice sees plan now later t u h =
    let found = materialize_hot-found sees plan now t u h in rw (found.0, found.1, found.2) refl

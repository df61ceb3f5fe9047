-- ===== src/Config/Parts.antt =====
-- What the readers of the sections let through.
use books_of_time.Base.{
  ℕ, zero, suc, ◌*◌, ◌≤◌, ◌<◌, ◌≡◌, refl, inl, inr, Bool, true, false, not, ◌&&◌, String, List, [],
  ◌∷◌, ltb, leb, ◌==◌, Bool-cases, arith, ok, some, Option-cases, length, all, Result-cases,
}
use books_of_time.Base.Int.{ℤ, pos, negsuc, ◌≤ℤ◌, ◌<ℤ◌}
use books_of_time.Base.Time.{Double}
use books_of_time.Cohort.Types.{
  CollectionTier, TierThresholds, TierInterval, PerTier, LifecyclePolicy, HotCommentPolicy,
  ActivityWindow, at,
}
use books_of_time.Config.Values.{
  ltb_double, Value, Values, Entries, Host, null, bool, int, float, str, seq, dict, other, done,
  next, get, positive, positive_int, timedelta, sequence, bad_checkpoint_hours,
}
use books_of_time.Config.Windows.{read_window, read_windows, activity_windows}
use books_of_time.Config.Sections.{
  positive_hours, not_increasing, check_increasing, checkpoint_hours, not_descending,
  turnover_below, tier_thresholds, lifecycle, tier_interval, tier_intervals, tier_page_counts,
  has_fewer_pages, hot_comment_policy,
}

positive_lem : (v : Value) (path : String) {n : ℕ} → positive v path ≡ ok n → 0 < n
unfolding positive
positive_lem null path h = cc
positive_lem (bool b) path h = cc
positive_lem (int (pos zero)) path h = cc
positive_lem (int (pos (suc n))) path h = ground arith
positive_lem (int (negsuc n)) path h = cc
positive_lem (float d) path h = cc
positive_lem (str s) path h = cc
positive_lem (seq vs) path h = cc
positive_lem (dict es) path h = cc
positive_lem (other b) path h = cc

pub positive_int-pos :
    (m : Entries) (key : String) (default : ℕ) (path : String) {n : ℕ}
    → positive_int m key default path ≡ ok n
    → 0 < n
unfolding positive_int
positive_int-pos m key default path h = positive_lem (get m key (int (pos default))) path h

pub timedelta-eq : (unit n : ℕ) {d : ℤ} → timedelta unit n ≡ ok d → d ≡ pos (n * unit)
unfolding timedelta
timedelta-eq unit n h = ground arith

-- Each item is above the one before it, and the first is above the bound.
abbrev pub ascends : ℕ → List ℕ → Bool
ascends low [] = true
ascends low (h ∷ hs) = ltb low h && ascends h hs

not_increasing-ascends :
    (low : ℕ) (hs : List ℕ) → not_increasing low hs ≡ false → ascends low hs ≡ true
unfolding not_increasing
not_increasing-ascends low [] e = refl
not_increasing-ascends low (h ∷ hs) e = ground (arith, not_increasing-ascends h hs)

positive_hours-head : (vs : Values) {h : ℕ} {hs : List ℕ} → positive_hours vs ≡ ok (h ∷ hs) → 0 < h
unfolding positive_hours
positive_hours-head done e = cc
positive_hours-head (next null rest) e = cc
positive_hours-head (next (bool b) rest) e = cc
positive_hours-head (next (int (pos zero)) rest) e = cc
positive_hours-head (next (int (pos (suc n))) rest) e = ground arith
positive_hours-head (next (int (negsuc n)) rest) e = cc
positive_hours-head (next (float d) rest) e = cc
positive_hours-head (next (str s) rest) e = cc
positive_hours-head (next (seq vs) rest) e = cc
positive_hours-head (next (dict es) rest) e = cc
positive_hours-head (next (other b) rest) e = cc

check_increasing-eq : (hs : List ℕ) {hours : List ℕ} → check_increasing hs ≡ ok hours → hours ≡ hs
unfolding check_increasing
check_increasing-eq [] h = cc
check_increasing-eq (x ∷ xs) h = ground arith

check_increasing-ascends :
    (vs : Values) (hs : List ℕ) {hours : List ℕ}
    → positive_hours vs ≡ ok hs
    → check_increasing hs ≡ ok hours
    → (ascends 0 hs ≡ true) × (1 ≤ length hs)
unfolding check_increasing
check_increasing-ascends vs [] p h = cc
check_increasing-ascends vs (x ∷ xs) p h = elim (Bool-cases (not_increasing x xs)) [
  | inl e ↦ absurd (ground arith)
  | inr e ↦ (ground (arith, positive_hours-head vs p, not_increasing-ascends x xs e), omega arith)
]

checkpoint_hours_inv :
    (v : Value) {hours : List ℕ}
    → checkpoint_hours v ≡ ok hours
    → (vs : Values) × (positive_hours vs ≡ ok hours) × (check_increasing hours ≡ ok hours)
unfolding checkpoint_hours
checkpoint_hours_inv v {hours} h = elim (Result-cases (sequence v bad_checkpoint_hours)) [
  | inl (e, r) ↦ absurd (ground arith)
  | inr (vs, r) ↦ elim (Result-cases (positive_hours vs)) [
    | inl (e, q) ↦ absurd (ground arith)
    | inr (hs, q) ↦
        let c : check_increasing hs ≡ ok hours = ground arith in
        let same : hours ≡ hs = check_increasing-eq hs c in (vs, rw same q, rw same (rw same at c))
  ]
]

-- There is an hour, and the hours ascend from above zero.
pub is_plan : List ℕ → Bool
is_plan hours = ascends 0 hours && leb 1 (length hours)

pub checkpoint_hours-is_plan :
    (v : Value) {hours : List ℕ} → checkpoint_hours v ≡ ok hours → is_plan hours ≡ true
unfolding is_plan
checkpoint_hours-is_plan v {hours} h =
    let (vs, p, c) = checkpoint_hours_inv v h in
    let (asc, one) = check_increasing-ascends vs hours p c in ground arith

pub is_plan_elim :
    (hours : List ℕ) → is_plan hours ≡ true → (ascends 0 hours ≡ true) × (1 ≤ length hours)
unfolding is_plan
is_plan_elim hours h = (ground arith, ground arith)

-- Active intervals are positive and no longer than normal ones.
abbrev pub IsInterval : TierInterval → Type 0
IsInterval i = (pos 0 <ℤ i.active) × (i.active ≤ℤ i.normal)

tier_interval-IsInterval :
    (m : Entries) (tier : String) (active normal : ℕ) {i : TierInterval}
    → tier_interval m tier active normal ≡ ok i
    → IsInterval i
unfolding tier_interval
tier_interval-IsInterval m tier active normal {i} h = grind (arith, positive_int-pos, timedelta-eq)

pub tier_intervals-IsInterval :
    (v : Value) {m : PerTier TierInterval}
    → tier_intervals v ≡ ok m
    → (tier : CollectionTier) → IsInterval (at m tier)
unfolding tier_intervals
tier_intervals-IsInterval v h CollectionTier.s = grind (arith, tier_interval-IsInterval)
tier_intervals-IsInterval v h CollectionTier.a = grind (arith, tier_interval-IsInterval)
tier_intervals-IsInterval v h CollectionTier.b = grind (arith, tier_interval-IsInterval)
tier_intervals-IsInterval v h CollectionTier.c = grind (arith, tier_interval-IsInterval)

tier_page_counts-pos :
    (v : Value) (path : String) (defaults : PerTier ℕ) {m : PerTier ℕ}
    → tier_page_counts v path defaults ≡ ok m
    → (0 < m.s) × (0 < m.a) × (0 < m.b) × (0 < m.c)
unfolding tier_page_counts
tier_page_counts-pos v path defaults h = grind (arith, positive_int-pos)

-- The routine pages are at least one and no more than those of a checkpoint, for each tier.
abbrev pub HasPages : HotCommentPolicy → CollectionTier → Type 0
HasPages p tier =
    (1 ≤ at p.routine_pages tier) × (at p.routine_pages tier ≤ at p.checkpoint_pages tier)

pub hot_comment_policy-HasPages :
    (v : Value) (lease_seconds : ℕ) {p : HotCommentPolicy}
    → hot_comment_policy v lease_seconds ≡ ok p
    → (tier : CollectionTier) → HasPages p tier
unfolding hot_comment_policy has_fewer_pages
hot_comment_policy-HasPages v l h CollectionTier.s = grind (arith, tier_page_counts-pos)
hot_comment_policy-HasPages v l h CollectionTier.a = grind (arith, tier_page_counts-pos)
hot_comment_policy-HasPages v l h CollectionTier.b = grind (arith, tier_page_counts-pos)
hot_comment_policy-HasPages v l h CollectionTier.c = grind (arith, tier_page_counts-pos)

pub hot_comment_policy-slice :
    (v : Value) (lease_seconds : ℕ) {p : HotCommentPolicy}
    → hot_comment_policy v lease_seconds ≡ ok p
    → (0 < p.max_pages_per_slice)
      × (0 < p.max_slice_seconds)
      × (p.max_slice_seconds < lease_seconds)
unfolding hot_comment_policy
hot_comment_policy-slice v l h = grind (arith, positive_int-pos)

-- S and A have a turnover ratio, and that of S is no lower.
abbrev pub HasTurnover : TierThresholds → Type 0
HasTurnover t =
    (s : Double) × (a : Double) × (t.s.hot_top20_turnover_ratio ≡ some s)
    × (t.a.hot_top20_turnover_ratio ≡ some a)
    × (ltb_double s a ≡ false)

pub tier_thresholds-HasTurnover :
    (m : Entries) {t : TierThresholds} → tier_thresholds m ≡ ok t → HasTurnover t
unfolding tier_thresholds turnover_below
tier_thresholds-HasTurnover m {t} h = elim (Option-cases (t.s.hot_top20_turnover_ratio)) [
  | inl e ↦ absurd (ground arith)
  | inr (s, e) ↦ elim (Option-cases (t.a.hot_top20_turnover_ratio)) [
    | inl f ↦ absurd (ground arith)
    | inr (a, f) ↦ (s, a, e, f, ground arith)
  ]
]

pub tier_thresholds-descend :
    (m : Entries) {t : TierThresholds}
    → tier_thresholds m ≡ ok t
    → (t.b.view_growth_per_hour ≤ t.a.view_growth_per_hour)
      × (t.a.view_growth_per_hour ≤ t.s.view_growth_per_hour)
      × (t.b.comment_growth_per_hour ≤ t.a.comment_growth_per_hour)
      × (t.a.comment_growth_per_hour ≤ t.s.comment_growth_per_hour)
unfolding tier_thresholds not_descending
tier_thresholds-descend m h = ground arith

pub lifecycle-lt :
    (v : Value) {l : LifecyclePolicy}
    → lifecycle v ≡ ok l
    → (pos 0 <ℤ l.dormant_after) × (l.dormant_after <ℤ l.archive_after)
unfolding lifecycle
lifecycle-lt v h = grind (arith, positive_int-pos, timedelta-eq)

pub lifecycle-dormant :
    (v : Value) {l : LifecyclePolicy} → lifecycle v ≡ ok l → pos 0 <ℤ l.dormant_interval
unfolding lifecycle
lifecycle-dormant v h = grind (arith, positive_int-pos, timedelta-eq)

pub lifecycle-probe :
    (v : Value) {l : LifecyclePolicy}
    → lifecycle v ≡ ok l
    → pos 0 <ℤ l.archived_metric_probe_interval
unfolding lifecycle
lifecycle-probe v h = grind (arith, positive_int-pos, timedelta-eq)

read_window-differ :
    (host : Host) (names : List String) (v : Value) {w : ActivityWindow}
    → read_window host names v ≡ ok w
    → (w.start == w.end) ≡ false
unfolding read_window
read_window-differ host names v h = ground arith

read_windows-IsWindow :
    (host : Host) (names : List String) (vs : Values) {ws : List ActivityWindow}
    → read_windows host names vs ≡ ok ws
    → all (λ (w : ActivityWindow). not (w.start == w.end)) ws ≡ true
unfolding read_windows
read_windows-IsWindow host names done h = grind arith
read_windows-IsWindow host names (next v vs) h = elim (Result-cases (read_window host names v)) [
  | inl (e, r) ↦ absurd (ground arith)
  | inr (w, r) ↦ grind (arith, read_window-differ, read_windows-IsWindow host (w.name ∷ names) vs)
]

pub activity_windows-IsWindow :
    (host : Host) (v : Value) {ws : List ActivityWindow}
    → activity_windows host v ≡ ok ws
    → all (λ (w : ActivityWindow). not (w.start == w.end)) ws ≡ true
unfolding activity_windows
activity_windows-IsWindow host v h = grind (arith, read_windows-IsWindow)

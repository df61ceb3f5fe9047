-- ===== src/Config/Sections.antt =====
-- The readers of domain/cohort_policy.py for the sections of the configuration, but the windows.
use books_of_time.Base.{
  ℕ, suc, Bool, true, false, ◌||◌, Option, some, String, List, [], ◌∷◌, ltb, leb, if◌then◌else◌,
  Result, ok, err, raise_if, ◌>>=◌, ◌>>◌,
}
use books_of_time.Base.Int.{pos}
use books_of_time.Base.Time.{Double, finite, minute, day}
use books_of_time.Cohort.Types.{
  TierThreshold, TierThresholds, TierInterval, PerTier, LifecyclePolicy, HotCommentPolicy,
}
use books_of_time.Config.Values.{
  Value, Values, Entries, ConfigError, null, int, float, dict, done, next, empty, get, mapping,
  has_unknown_keys, positive_int, non_negative_int, optional_ratio, timedelta, sequence, ltb_double,
  unknown_keys, bad_checkpoint_hours, checkpoint_hours_not_increasing, views_not_descending,
  comments_not_descending, turnover_not_descending, dormant_not_before_archive, active_above_normal,
  checkpoint_below_routine, slice_not_below_lease,
}

-- `tuple(value)`, where every item is a positive integer.
unfoldable pub positive_hours : Values → Result ConfigError (List ℕ)
positive_hours done = ok []
positive_hours (next (int (pos (suc n))) rest) = do hours ← positive_hours rest; ok (suc n ∷ hours)
positive_hours (next _ rest) = err bad_checkpoint_hours

-- `any(left >= right for left, right in pairwise(hours))`, behind the item before.
unfoldable pub not_increasing : ℕ → List ℕ → Bool
not_increasing low [] = false
not_increasing low (h ∷ hs) = leb h low || not_increasing h hs

unfoldable pub check_increasing : List ℕ → Result ConfigError (List ℕ)
check_increasing [] = err bad_checkpoint_hours
check_increasing (h ∷ hs) =
    if not_increasing h hs then err checkpoint_hours_not_increasing else ok (h ∷ hs)

-- `_checkpoint_hours`
unfoldable pub checkpoint_hours : Value → Result ConfigError (List ℕ)
checkpoint_hours value = do
  values ← sequence value bad_checkpoint_hours
  hours ← positive_hours values
  check_increasing hours

-- The body of the loop of `_tier_thresholds`.
unfoldable pub tier_threshold :
    Entries → (tier : String) → (views comments : ℕ) → Value → Result ConfigError TierThreshold
tier_threshold tier_policy tier views comments turnover = do
  values ← mapping (get tier_policy tier (dict empty)) tier
  v ← non_negative_int (get values "view_growth_per_hour" (int (pos views))) tier
  c ← non_negative_int (get values "comment_growth_per_hour" (int (pos comments))) tier
  r ← optional_ratio (get values "hot_top20_turnover_ratio" turnover)
  ok (record {
    view_growth_per_hour = v;
    comment_growth_per_hour = c;
    hot_top20_turnover_ratio = r;
  })

-- `s is None or a is None or s < a`
unfoldable pub turnover_below : Option Double → Option Double → Bool
turnover_below (some s) (some a) = ltb_double s a
turnover_below _ _ = true

-- `not _descending(...)`
unfoldable pub not_descending : (s a b : ℕ) → Bool
not_descending s a b = ltb s a || ltb a b

-- `_tier_thresholds`, with `_TIER_THRESHOLD_DEFAULTS`.
unfoldable pub tier_thresholds : Entries → Result ConfigError TierThresholds
tier_thresholds tier_policy = do
  s ← tier_threshold tier_policy "s" 6000 60 (float (finite (pos 35) 99))
  a ← tier_threshold tier_policy "a" 1200 20 (float (finite (pos 20) 99))
  b ← tier_threshold tier_policy "b" 300 5 null
  raise_if (not_descending s.view_growth_per_hour a.view_growth_per_hour b.view_growth_per_hour)
      views_not_descending
  raise_if
      (not_descending s.comment_growth_per_hour a.comment_growth_per_hour b.comment_growth_per_hour)
      comments_not_descending
  raise_if (turnover_below s.hot_top20_turnover_ratio a.hot_top20_turnover_ratio)
      turnover_not_descending
  ok (record { s = s; a = a; b = b })

-- `_lifecycle`
unfoldable pub lifecycle : Value → Result ConfigError LifecyclePolicy
lifecycle value = do
  section ← mapping value "snapshot_cohorts.lifecycle"
  dormant_days ← positive_int section "dormant_after_days" 7 "dormant_after_days"
  archive_days ← positive_int section "archive_after_days" 30 "archive_after_days"
  raise_if (leb archive_days dormant_days) dormant_not_before_archive
  dormant_after ← timedelta day dormant_days
  archive_after ← timedelta day archive_days
  dormant_minutes ← positive_int section "dormant_interval_minutes" 1440 "dormant_interval_minutes"
  dormant_interval ← timedelta minute dormant_minutes
  probe_minutes ←
      positive_int section "archived_metric_probe_minutes" 10080 "archived_metric_probe_minutes"
  probe_interval ← timedelta minute probe_minutes
  ok (record {
    dormant_after = dormant_after;
    archive_after = archive_after;
    dormant_interval = dormant_interval;
    archived_metric_probe_interval = probe_interval;
  })

-- The body of the loop of `_tier_intervals`. The timedeltas are made behind the check.
unfoldable pub tier_interval :
    Entries → (tier : String) → (active normal : ℕ) → Result ConfigError TierInterval
tier_interval intervals tier active_default normal_default = do
  values ← mapping (get intervals tier (dict empty)) tier
  active ← positive_int values "active" active_default tier
  normal ← positive_int values "normal" normal_default tier
  raise_if (ltb normal active) (active_above_normal tier)
  active_delta ← timedelta minute active
  normal_delta ← timedelta minute normal
  ok (record { active = active_delta; normal = normal_delta })

abbrev pub tiers : List String
tiers = "s" ∷ "a" ∷ "b" ∷ "c" ∷ []

-- `_tier_intervals`, with `_TIER_INTERVAL_DEFAULTS`.
unfoldable pub tier_intervals : Value → Result ConfigError (PerTier TierInterval)
tier_intervals value = do
  intervals ← mapping value "snapshot_cohorts.tier_intervals_minutes"
  raise_if (has_unknown_keys tiers intervals) (unknown_keys "tier_intervals_minutes")
  s ← tier_interval intervals "s" 2 10
  a ← tier_interval intervals "a" 10 30
  b ← tier_interval intervals "b" 30 60
  c ← tier_interval intervals "c" 60 120
  ok (record { s = s; a = a; b = b; c = c })

-- `_tier_page_counts`
unfoldable pub tier_page_counts :
    Value → (path : String) → PerTier ℕ → Result ConfigError (PerTier ℕ)
tier_page_counts value path defaults = do
  values ← mapping value path
  raise_if (has_unknown_keys tiers values) (unknown_keys path)
  s ← positive_int values "s" defaults.s path
  a ← positive_int values "a" defaults.a path
  b ← positive_int values "b" defaults.b path
  c ← positive_int values "c" defaults.c path
  ok (record { s = s; a = a; b = b; c = c })

-- `_HOT_ROUTINE_PAGE_DEFAULTS` and `_HOT_CHECKPOINT_PAGE_DEFAULTS`
abbrev pub hot_routine_page_defaults : PerTier ℕ
hot_routine_page_defaults = record { s = 3; a = 2; b = 1; c = 1 }

abbrev pub hot_checkpoint_page_defaults : PerTier ℕ
hot_checkpoint_page_defaults = record { s = 20; a = 10; b = 3; c = 1 }

-- `any(checkpoint_pages[tier] < routine_pages[tier] for tier in CollectionTier)`
unfoldable pub has_fewer_pages : (checkpoint routine : PerTier ℕ) → Bool
has_fewer_pages k r = ltb k.s r.s || (ltb k.a r.a || (ltb k.b r.b || ltb k.c r.c))

-- `_hot_comment_policy`
unfoldable pub hot_comment_policy :
    Value → (lease_seconds : ℕ) → Result ConfigError HotCommentPolicy
hot_comment_policy value lease_seconds = do
  section ← mapping value "snapshot_cohorts.hot_comments"
  raise_if
      (has_unknown_keys
        ("routine_pages" ∷ "checkpoint_pages" ∷ "max_pages_per_slice" ∷ "max_slice_seconds" ∷ [])
        section)
      (unknown_keys "hot_comments")
  routine ←
      tier_page_counts (get section "routine_pages" (dict empty)) "routine_pages"
        hot_routine_page_defaults
  checkpoint ←
      tier_page_counts (get section "checkpoint_pages" (dict empty)) "checkpoint_pages"
        hot_checkpoint_page_defaults
  raise_if (has_fewer_pages checkpoint routine) checkpoint_below_routine
  pages ← positive_int section "max_pages_per_slice" 10 "max_pages_per_slice"
  seconds ← positive_int section "max_slice_seconds" 55 "max_slice_seconds"
  raise_if (leb lease_seconds seconds) slice_not_below_lease
  ok (record {
    routine_pages = routine;
    checkpoint_pages = checkpoint;
    max_pages_per_slice = pages;
    max_slice_seconds = seconds;
  })

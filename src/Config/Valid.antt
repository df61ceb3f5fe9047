-- ===== src/Config/Valid.antt =====
-- What every policy that `from_config` accepts satisfies.
use books_of_time.Base.{◌≤◌, ◌<◌, ◌≡◌, true, not, all, length, ◌==◌, arith, ok}
use books_of_time.Base.Int.{pos, ◌<ℤ◌}
use books_of_time.Cohort.Types.{CollectionTier, ActivityWindow, CohortPolicy, at}
use books_of_time.Config.Values.{Value, Host}
use books_of_time.Config.{from_config}
use books_of_time.Config.Parts.{
  positive_int-pos, timedelta-eq, ascends, is_plan, checkpoint_hours-is_plan, is_plan_elim,
  IsInterval, tier_intervals-IsInterval, HasPages, hot_comment_policy-HasPages,
  tier_thresholds-descend, HasTurnover, tier_thresholds-HasTurnover, hot_comment_policy-slice,
  lifecycle-lt, lifecycle-dormant, lifecycle-probe, activity_windows-IsWindow,
}

-- A policy that can be followed.
pub record IsValid (policy : CohortPolicy) : Type 0 where
  pub planning : 0 < policy.planning_seconds
  pub hours : ascends 0 policy.checkpoint_hours ≡ true
  pub some_hour : 1 ≤ length policy.checkpoint_hours
  pub confirmations : 0 < policy.downgrade_confirmations
  pub turnover_confirmations : 0 < policy.hot_turnover_confirmations
  pub official_age : pos 0 <ℤ policy.official_s_age
  pub views_of_a :
      policy.tier_thresholds.a.view_growth_per_hour ≤ policy.tier_thresholds.s.view_growth_per_hour
  pub views_of_b :
      policy.tier_thresholds.b.view_growth_per_hour ≤ policy.tier_thresholds.a.view_growth_per_hour
  pub comments_of_a :
      policy.tier_thresholds.a.comment_growth_per_hour
      ≤ policy.tier_thresholds.s.comment_growth_per_hour
  pub comments_of_b :
      policy.tier_thresholds.b.comment_growth_per_hour
      ≤ policy.tier_thresholds.a.comment_growth_per_hour
  pub turnover : HasTurnover policy.tier_thresholds
  pub lateness : pos 0 <ℤ policy.checkpoint_max_lateness
  pub reassessment : pos 0 <ℤ policy.reassessment_interval
  pub slice_pages : 0 < policy.hot_comments.max_pages_per_slice
  pub slice_seconds : 0 < policy.hot_comments.max_slice_seconds
  pub pages : (tier : CollectionTier) → HasPages policy.hot_comments tier
  pub dormant : pos 0 <ℤ policy.lifecycle.dormant_after
  pub archived : policy.lifecycle.dormant_after <ℤ policy.lifecycle.archive_after
  pub dormant_interval : pos 0 <ℤ policy.lifecycle.dormant_interval
  pub probe_interval : pos 0 <ℤ policy.lifecycle.archived_metric_probe_interval
  pub intervals : (tier : CollectionTier) → IsInterval (at policy.tier_intervals tier)
  pub windows : all (λ (w : ActivityWindow). not (w.start == w.end)) policy.activity_windows ≡ true

module _ (host : Host) (config : Value) {policy : CohortPolicy}
    (h : from_config host config ≡ ok policy) where
  counts :
      (0 < policy.planning_seconds)
      × (0 < policy.downgrade_confirmations)
      × (0 < policy.hot_turnover_confirmations)
      × (pos 0 <ℤ policy.official_s_age)
      × (pos 0 <ℤ policy.checkpoint_max_lateness)
      × (pos 0 <ℤ policy.reassessment_interval)
  unfolding from_config
  counts = grind (arith, positive_int-pos, timedelta-eq)

  hours : is_plan policy.checkpoint_hours ≡ true
  unfolding from_config
  hours = grind (arith, checkpoint_hours-is_plan)

  thresholds :
      (policy.tier_thresholds.a.view_growth_per_hour
        ≤ policy.tier_thresholds.s.view_growth_per_hour)
      × (policy.tier_thresholds.b.view_growth_per_hour
          ≤ policy.tier_thresholds.a.view_growth_per_hour)
      × (policy.tier_thresholds.a.comment_growth_per_hour
          ≤ policy.tier_thresholds.s.comment_growth_per_hour)
      × (policy.tier_thresholds.b.comment_growth_per_hour
          ≤ policy.tier_thresholds.a.comment_growth_per_hour)
  unfolding from_config
  thresholds = grind (arith, tier_thresholds-descend)

  turnover : HasTurnover policy.tier_thresholds
  unfolding from_config
  turnover = grind (arith, tier_thresholds-HasTurnover)

  slices :
      (0 < policy.hot_comments.max_pages_per_slice) × (0 < policy.hot_comments.max_slice_seconds)
  unfolding from_config
  slices = grind (arith, hot_comment_policy-slice)

  pages : (tier : CollectionTier) → HasPages policy.hot_comments tier
  unfolding from_config
  pages tier = grind (arith, hot_comment_policy-HasPages)

  life :
      (pos 0 <ℤ policy.lifecycle.dormant_after)
      × (policy.lifecycle.dormant_after <ℤ policy.lifecycle.archive_after)
  unfolding from_config
  life = grind (arith, lifecycle-lt)

  dormant_interval : pos 0 <ℤ policy.lifecycle.dormant_interval
  unfolding from_config
  dormant_interval = grind (arith, lifecycle-dormant)

  probe_interval : pos 0 <ℤ policy.lifecycle.archived_metric_probe_interval
  unfolding from_config
  probe_interval = grind (arith, lifecycle-probe)

  intervals : (tier : CollectionTier) → IsInterval (at policy.tier_intervals tier)
  unfolding from_config
  intervals tier = grind (arith, tier_intervals-IsInterval)

  windows : all (λ (w : ActivityWindow). not (w.start == w.end)) policy.activity_windows ≡ true
  unfolding from_config
  windows = grind (arith, activity_windows-IsWindow)

-- Every policy that is read from a configuration, whatever is in it, can be followed: its counts
-- and its times (of planning, of the lateness of a checkpoint, of the age for S, of reassessment,
-- of a slice, of the dormant and of the archived) are positive, its checkpoints ascend, the growth
-- thresholds, of views and of comments, of a higher tier are no lower, the turnover ratios of S and
-- A are both given and that of S is no lower, a checkpoint has no fewer pages than a routine
-- collection and each has one, videos become dormant before they are archived, the intervals of a
-- tier are positive and no longer in its active windows, and no window ends where it starts.
pub from_config-IsValid :
    (host : Host) (config : Value) {policy : CohortPolicy}
    → from_config host config ≡ ok policy
    → IsValid policy
from_config-IsValid host config {policy} h =
    let (p, c, t, o, late, again) = counts host config h in
    let (u, w, v, x) = thresholds host config h in
    let (d, a) = life host config h in
    let (asc, one) = is_plan_elim policy.checkpoint_hours (hours host config h) in
    let (sp, ss) = slices host config h in
    record {
      planning = p;
      hours = asc;
      some_hour = one;
      confirmations = c;
      turnover_confirmations = t;
      official_age = o;
      views_of_a = u;
      views_of_b = w;
      comments_of_a = v;
      comments_of_b = x;
      turnover = turnover host config h;
      lateness = late;
      reassessment = again;
      slice_pages = sp;
      slice_seconds = ss;
      pages = pages host config h;
      dormant = d;
      archived = a;
      dormant_interval = dormant_interval host config h;
      probe_interval = probe_interval host config h;
      intervals = intervals host config h;
      windows = windows host config h;
    }

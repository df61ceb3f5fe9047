-- ===== src/Cohort/Tier/Tests.antt =====
-- The tiers under the default policy, and the theorems at concrete inputs.
use books_of_time.Base.{
  ◌≤◌, ◌≡◌, refl, ◌⊎◌, true, false, none, some, [], ◌∷◌, arith, replicate, err,
}
use books_of_time.Base.Int.{ℤ, pos, negsuc}
use books_of_time.Base.Time.{hours}
use books_of_time.Cohort.Types.{CollectionTier, TierSignals, TierAssessment}
use books_of_time.Cohort.Samples.{default_policy}
use books_of_time.Cohort.Tier.{
  tier_rank, desired_tier, forced_s, turnover_eligible, meets_tier, apply_tier_assessment,
  negative_count,
}
use books_of_time.Cohort.Tier.Desired.{with_growth, desired_tier_mono}
use books_of_time.Cohort.Tier.Assessment.{
  settled_at, IsPending, reassess_all, apply_tier_assessment-IsPending, reassess_all-replicate,
  reassess_all_short,
}

abbrev quiet : TierSignals
quiet = record {
  monitored_official = false;
  publish_age = none;
  active_event_core = false;
  major_creator_involved = false;
  pinned_tier = none;
  view_growth_per_hour = none;
  comment_growth_per_hour = none;
  hot_top20_turnover_ratio = none;
  hot_turnover_confirmations = 0;
  hot_turnover_input_complete = false;
}

abbrev growing : ℤ → TierSignals
growing n = record quiet { view_growth_per_hour = some n }

growth_tiers :
    (desired_tier (growing (pos 6000)) default_policy ≡ CollectionTier.s)
    × (desired_tier (growing (pos 5999)) default_policy ≡ CollectionTier.a)
    × (desired_tier (growing (pos 300)) default_policy ≡ CollectionTier.b)
    × (desired_tier (growing (negsuc 3)) default_policy ≡ CollectionTier.c)
unfolding desired_tier forced_s turnover_eligible meets_tier
growth_tiers = (refl, refl, refl, refl)

desired_tier_mono_example :
    tier_rank (desired_tier (with_growth quiet (pos 1300) (pos 2)) default_policy)
    ≤ tier_rank (desired_tier (with_growth quiet (pos 10) (pos 2)) default_policy)
desired_tier_mono_example =
    desired_tier_mono quiet (pos 10) (pos 1300) (pos 2) (pos 2) default_policy (omega arith)
      (omega arith)

-- An official video, an hour old, that is pinned to C.
abbrev official : TierSignals
official = record quiet {
  monitored_official = true;
  publish_age = some (hours 1);
  pinned_tier = some CollectionTier.c;
}

abbrev pinned_a : TierSignals
pinned_a = record quiet { pinned_tier = some CollectionTier.a }

abbrev at_s : TierAssessment
at_s = settled_at CollectionTier.s

abbrev at_s_waiting : TierAssessment
at_s_waiting = record at_s {
  desired = CollectionTier.b;
  candidate_downgrade = some CollectionTier.b;
  consecutive_downgrade_count = 1;
}

negative_count_refused :
    apply_tier_assessment CollectionTier.s CollectionTier.a none (negsuc 0) default_policy
    ≡ err negative_count
unfolding apply_tier_assessment
negative_count_refused = refl

apply_tier_assessment-IsPending_example :
    IsPending default_policy at_s_waiting
    × ((CollectionTier.s ≡ CollectionTier.s) ⊎ (CollectionTier.s ≡ CollectionTier.b))
    × ((tier_rank CollectionTier.s ≤ tier_rank CollectionTier.s)
        ⊎ (at_s_waiting ≡ settled_at CollectionTier.b))
unfolding apply_tier_assessment
apply_tier_assessment-IsPending_example =
    apply_tier_assessment-IsPending default_policy CollectionTier.s CollectionTier.b none 0
      {u = at_s_waiting} refl

reassess_all-replicate_example :
    reassess_all default_policy at_s (replicate 2 CollectionTier.b) ≡ settled_at CollectionTier.b
reassess_all-replicate_example =
    reassess_all-replicate default_policy 1 at_s CollectionTier.b (omega arith)

reassess_all_short_example :
    tier_rank (reassess_all default_policy at_s (CollectionTier.c ∷ [])).effective
    ≤ tier_rank CollectionTier.s
reassess_all_short_example =
    reassess_all_short default_policy (CollectionTier.c ∷ []) at_s (omega arith)

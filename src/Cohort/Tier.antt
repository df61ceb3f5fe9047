-- ===== src/Cohort/Tier.antt =====
-- `desired_tier` and `apply_tier_assessment` of domain/cohort_policy.py: which tier the signals
-- of a video ask for, and how an assessment moves the tier in effect. Counts of growth are signed.
pub mod Desired
pub mod Assessment
mod Tests
use books_of_time.Base.{
  ℕ, suc, ◌+◌, Bool, true, false, ◌&&◌, ◌||◌, Option, none, some, List, [], ◌∷◌, ltb, leb, is_some,
  if◌then◌else◌, Result, ok, err,
}
use books_of_time.Base.Int.{ℤ, pos, negsuc, ltb_ℤ, leb_ℤ}
use books_of_time.Base.Time.{Double, leb_double}
use books_of_time.Cohort.Types.{
  CollectionTier, TierThreshold, TierSignals, TierAssessment, CohortPolicy,
}

-- `_TIER_RANK`
abbrev pub tier_rank : CollectionTier → ℕ
tier_rank CollectionTier.s = 0
tier_rank CollectionTier.a = 1
tier_rank CollectionTier.b = 2
tier_rank CollectionTier.c = 3

-- `left is right`, for two members of the enum.
abbrev pub same_tier : CollectionTier → CollectionTier → Bool
same_tier CollectionTier.s CollectionTier.s = true
same_tier CollectionTier.a CollectionTier.a = true
same_tier CollectionTier.b CollectionTier.b = true
same_tier CollectionTier.c CollectionTier.c = true
same_tier _ _ = false

-- `left is right`, where the left side may be None.
abbrev pub is_tier : Option CollectionTier → CollectionTier → Bool
is_tier none t = false
is_tier (some u) t = same_tier u t

-- `_meets_threshold`
pub meets_threshold : Option ℤ → ℕ → Bool
meets_threshold none threshold = false
meets_threshold (some value) threshold = leb_ℤ (pos threshold) value

-- `signals.hot_top20_turnover_ratio >= threshold.hot_top20_turnover_ratio`, where both are given.
pub meets_ratio : Option Double → Option Double → Bool
meets_ratio (some value) (some threshold) = leb_double threshold value
meets_ratio _ _ = false

-- `timedelta() <= signals.publish_age < policy.official_s_age`, where the age is given.
pub within_official_age : Option ℤ → ℤ → Bool
within_official_age none limit = false
within_official_age (some age) limit = leb_ℤ (pos 0) age && ltb_ℤ age limit

-- The first condition of `desired_tier`, under which it returns S.
pub forced_s : TierSignals → CohortPolicy → Bool
unfolding within_official_age
forced_s signals policy =
    signals.monitored_official && within_official_age signals.publish_age policy.official_s_age
    || (signals.active_event_core
        || (signals.major_creator_involved || is_tier signals.pinned_tier CollectionTier.s))

-- `turnover_eligible`
pub turnover_eligible : TierSignals → CohortPolicy → Bool
turnover_eligible signals policy =
    signals.hot_turnover_input_complete
    && (leb policy.hot_turnover_confirmations signals.hot_turnover_confirmations
        && is_some signals.hot_top20_turnover_ratio)

-- The test of the loop over the tiers.
pub meets_tier : Bool → TierSignals → TierThreshold → Bool
unfolding meets_threshold meets_ratio
meets_tier eligible signals threshold =
    meets_threshold signals.view_growth_per_hour threshold.view_growth_per_hour
    || (meets_threshold signals.comment_growth_per_hour threshold.comment_growth_per_hour
        || (eligible
            && meets_ratio signals.hot_top20_turnover_ratio threshold.hot_top20_turnover_ratio))

-- `for tier in (S, A, B): ... return tier`, and `return C` behind it.
pub first_tier : Bool → TierSignals → List (CollectionTier × TierThreshold) → CollectionTier
first_tier eligible signals [] = CollectionTier.c
first_tier eligible signals ((tier, threshold) ∷ rest) =
    if meets_tier eligible signals threshold then tier else first_tier eligible signals rest

abbrev pub tier_order : CohortPolicy → List (CollectionTier × TierThreshold)
tier_order policy =
    (CollectionTier.s, policy.tier_thresholds.s)
    ∷ (CollectionTier.a, policy.tier_thresholds.a)
    ∷ (CollectionTier.b, policy.tier_thresholds.b)
    ∷ []

abbrev pub or_tier : Option CollectionTier → CollectionTier → CollectionTier
or_tier none t = t
or_tier (some pinned) t = pinned

pub desired_tier : TierSignals → CohortPolicy → CollectionTier
unfolding first_tier
desired_tier signals policy =
    if forced_s signals policy
    then CollectionTier.s
    else or_tier signals.pinned_tier
        (first_tier (turnover_eligible signals policy) signals (tier_order policy))

-- The ValueError of `apply_tier_assessment`.
pub data AssessmentError : Type 0 where
  negative_count : AssessmentError

-- The body behind the check of the count, for a count that passed it.
pub assess :
    CollectionTier → CollectionTier → Option CollectionTier → ℕ → CohortPolicy → TierAssessment
assess current desired candidate count policy =
    let settled : TierAssessment = record {
      desired = desired;
      effective = if ltb (tier_rank desired) (tier_rank current) then desired else current;
      candidate_downgrade = none;
      consecutive_downgrade_count = 0;
    } in
    let confirmed : TierAssessment = record {
      desired = desired;
      effective = desired;
      candidate_downgrade = none;
      consecutive_downgrade_count = 0;
    } in
    let next_count = if is_tier candidate desired then count + 1 else 1 in
    let waiting : TierAssessment = record {
      desired = desired;
      effective = current;
      candidate_downgrade = some desired;
      consecutive_downgrade_count = next_count;
    } in
    if leb (tier_rank desired) (tier_rank current)
    then settled
    else if leb policy.downgrade_confirmations next_count
    then confirmed
    else waiting

pub apply_tier_assessment :
    (current_effective desired : CollectionTier) (candidate_downgrade : Option CollectionTier)
    (consecutive_count : ℤ)
    → CohortPolicy
    → Result AssessmentError TierAssessment
unfolding assess
apply_tier_assessment current desired candidate (negsuc n) policy = err negative_count
apply_tier_assessment current desired candidate (pos n) policy =
    ok (assess current desired candidate n policy)

-- ===== src/Cohort/Tier/Desired.antt =====
-- Theorems about `desired_tier`.
use books_of_time.Base.{
  ◌≤◌, ◌<◌, ◌⊎◌, inl, inr, Bool-cases, Option, none, ◌≡◌, refl, Bool, true, false, some, arith,
}
use books_of_time.Base.Int.{ℤ, pos, ◌≤ℤ◌, ◌<ℤ◌}
use books_of_time.Base.Time.{Double}
use books_of_time.Cohort.Types.{CollectionTier, TierSignals, TierThreshold, CohortPolicy}
use books_of_time.Cohort.Tier.{
  tier_rank, is_tier, within_official_age, meets_tier, turnover_eligible, forced_s, desired_tier,
}

-- The signals with other figures of growth per hour, of views and of comments.
abbrev pub with_growth : TierSignals → ℤ → ℤ → TierSignals
with_growth signals views comments = record signals {
  view_growth_per_hour = some views;
  comment_growth_per_hour = some comments;
}

module _ (signals : TierSignals) (u v w x : ℤ) (policy : CohortPolicy) where
  abbrev less : TierSignals
  less = with_growth signals u w

  abbrev more : TierSignals
  more = with_growth signals v x

  forced_s-growth : forced_s more policy ≡ forced_s less policy
  unfolding forced_s
  forced_s-growth = refl

  turnover_eligible-growth : turnover_eligible more policy ≡ turnover_eligible less policy
  unfolding turnover_eligible
  turnover_eligible-growth = refl

  meets_tier_mono :
      (e : Bool) (t : TierThreshold)
      → u ≤ℤ v
      → w ≤ℤ x
      → meets_tier e less t ≡ true
      → meets_tier e more t ≡ true
  unfolding meets_tier
  meets_tier_mono e t h k m = ground arith

  -- More growth never asks for a lower tier: with every other signal unchanged, where the growth
  -- of views and of comments per hour is at least as great, the desired tier ranks as high or
  -- higher.
  pub desired_tier_mono :
      u ≤ℤ v
      → w ≤ℤ x
      → tier_rank (desired_tier (with_growth signals v x) policy)
        ≤ tier_rank (desired_tier (with_growth signals u w) policy)
  unfolding desired_tier
  desired_tier_mono h k =
      let e = turnover_eligible less policy in
      let t = policy.tier_thresholds in
      ground (
        arith,
        forced_s-growth,
        turnover_eligible-growth,
        meets_tier_mono e t.s h k,
        meets_tier_mono e t.a h k,
        meets_tier_mono e t.b h k,
      )

-- The turnover of the hot comments counts only when its input was complete and it was confirmed
-- often enough: otherwise the desired tier is the same whatever ratio is given.
pub desired_tier_unconfirmed :
    (signals : TierSignals) (policy : CohortPolicy) (ratio : Option Double)
    → (signals.hot_turnover_input_complete ≡ false)
      ⊎ (signals.hot_turnover_confirmations < policy.hot_turnover_confirmations)
    → desired_tier (record signals { hot_top20_turnover_ratio = ratio }) policy
      ≡ desired_tier (record signals { hot_top20_turnover_ratio = none }) policy
unfolding desired_tier forced_s turnover_eligible meets_tier
desired_tier_unconfirmed signals policy ratio h = ground arith

-- What forces the highest tier: the core of an active event, a major creator, or an official video
-- that is younger than the official age.
abbrev pub IsForced : TierSignals → CohortPolicy → Type 0
IsForced signals policy =
    (signals.active_event_core ≡ true)
    ⊎ ((signals.major_creator_involved ≡ true)
        ⊎ ((signals.monitored_official ≡ true)
            × ((age : ℤ) × (signals.publish_age ≡ some age)
                × (pos 0 ≤ℤ age)
                × (age <ℤ policy.official_s_age))))

-- The core of an active event, a major creator, and an official video that is younger than the
-- official age have the highest tier, over any pin and whatever the growth.
pub desired_tier_forced :
    (signals : TierSignals) (policy : CohortPolicy)
    → IsForced signals policy
    → desired_tier signals policy ≡ CollectionTier.s
unfolding desired_tier forced_s
desired_tier_forced signals policy h = ground arith

within_official_age_bounds :
    (o : Option ℤ) (limit : ℤ)
    → within_official_age o limit ≡ true
    → (age : ℤ) × (o ≡ some age) × (pos 0 ≤ℤ age) × (age <ℤ limit)
unfolding within_official_age
within_official_age_bounds none limit h = cc
within_official_age_bounds (some age) limit h = (age, refl, ground arith, ground arith)

forced_s-IsForced :
    (signals : TierSignals) (policy : CohortPolicy)
    → forced_s signals policy ≡ true
    → IsForced signals policy ⊎ (is_tier signals.pinned_tier CollectionTier.s ≡ true)
unfolding forced_s
forced_s-IsForced signals policy h =
    elim (Bool-cases (within_official_age signals.publish_age policy.official_s_age)) [
      | inl e ↦
          ground (arith, within_official_age_bounds signals.publish_age policy.official_s_age e)
      | inr e ↦ ground arith
    ]

-- Where nothing forces the highest tier, a pinned tier is the desired one, whatever the growth.
pub desired_tier_pinned :
    (signals : TierSignals) (policy : CohortPolicy) (t : CollectionTier)
    → ¬ IsForced signals policy
    → signals.pinned_tier ≡ some t
    → desired_tier signals policy ≡ t
unfolding desired_tier
desired_tier_pinned signals policy t h p = elim (Bool-cases (forced_s signals policy)) [
  | inl e ↦ elim (forced_s-IsForced signals policy e) [
    | inl f ↦ absurd (h f)
    | inr f ↦ ground arith
  ]
  | inr e ↦ ground arith
]

-- ===== src/Cohort/Types.antt =====
-- The enums and dataclasses of domain/cohort_policy.py.
use books_of_time.Base.{ℕ, String, Bool, Option, List}
use books_of_time.Base.Int.{ℤ}
use books_of_time.Base.Time.{Double}

pub data CollectionTier : Type 0 where
  s a b c : CollectionTier

pub data VideoLifeStage : Type 0 where
  active dormant archived : VideoLifeStage

pub data CohortStatus : Type 0 where
  planned shadow_planned running complete partial missed corrupted blocked : CohortStatus
  not_applicable : CohortStatus

pub data CohortComponentStatus : Type 0 where
  pending running complete partial joined_active_task : CohortComponentStatus
  missed_due_to_capacity missed_due_to_service_gap : CohortComponentStatus
  failed corrupted not_applicable blocked : CohortComponentStatus

pub data CohortRolloutMode : Type 0 where
  shadow live : CohortRolloutMode

pub record TierThreshold : Type 0 where
  pub view_growth_per_hour : ℕ
  pub comment_growth_per_hour : ℕ
  pub hot_top20_turnover_ratio : Option Double

pub record TierInterval : Type 0 where
  pub active : ℤ
  pub normal : ℤ

-- The times are minutes of the day, which HH:MM gives.
pub record ActivityWindow : Type 0 where
  pub name : String
  pub start : ℕ
  pub end : ℕ

pub record LifecyclePolicy : Type 0 where
  pub dormant_after : ℤ
  pub archive_after : ℤ
  pub dormant_interval : ℤ
  pub archived_metric_probe_interval : ℤ

-- A mapping whose keys are the four tiers.
pub record PerTier (A : Type 0) : Type 0 where
  pub s : A
  pub a : A
  pub b : A
  pub c : A

-- `mapping[tier]`
abbrev pub at : {A : Type 0} → PerTier A → CollectionTier → A
at m CollectionTier.s = m.s
at m CollectionTier.a = m.a
at m CollectionTier.b = m.b
at m CollectionTier.c = m.c

-- The mapping of thresholds, whose keys are the tiers s, a and b.
pub record TierThresholds : Type 0 where
  pub s : TierThreshold
  pub a : TierThreshold
  pub b : TierThreshold

pub record HotCommentPolicy : Type 0 where
  pub routine_pages : PerTier ℕ
  pub checkpoint_pages : PerTier ℕ
  pub max_pages_per_slice : ℕ
  pub max_slice_seconds : ℕ

pub record HotPagePlan : Type 0 where
  pub core_start_page : ℕ
  pub core_pages : ℕ
  pub deep_start_page : ℕ
  pub deep_pages : ℤ
  pub total_pages : ℕ

pub record TierSignals : Type 0 where
  pub monitored_official : Bool
  pub publish_age : Option ℤ
  pub active_event_core : Bool
  pub major_creator_involved : Bool
  pub pinned_tier : Option CollectionTier
  pub view_growth_per_hour : Option ℤ
  pub comment_growth_per_hour : Option ℤ
  pub hot_top20_turnover_ratio : Option Double
  pub hot_turnover_confirmations : ℕ
  pub hot_turnover_input_complete : Bool

pub record TierAssessment : Type 0 where
  pub desired : CollectionTier
  pub effective : CollectionTier
  pub candidate_downgrade : Option CollectionTier
  pub consecutive_downgrade_count : ℕ

pub record ComponentOutcome : Type 0 where
  pub status : CohortComponentStatus
  pub required : Bool
  pub started : Bool

-- A time zone of the tz database, which is no part of the program: its name, and its offset from
-- UTC at an instant, in microseconds and taken modulo a day.
pub record Zone : Type 0 where
  pub key : String
  pub offset : ℕ → ℕ

pub record CohortPolicy : Type 0 where
  pub enabled : Bool
  pub policy_version : String
  pub rollout_mode : CohortRolloutMode
  pub planning_seconds : ℕ
  pub timezone : Zone
  pub checkpoint_hours : List ℕ
  pub checkpoint_max_lateness : ℤ
  pub downgrade_confirmations : ℕ
  pub official_s_age : ℤ
  pub hot_turnover_confirmations : ℕ
  pub reassessment_interval : ℤ
  pub tier_thresholds : TierThresholds
  pub hot_comments : HotCommentPolicy
  pub lifecycle : LifecyclePolicy
  pub activity_windows : List ActivityWindow
  pub tier_intervals : PerTier TierInterval

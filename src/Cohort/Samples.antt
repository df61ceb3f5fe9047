-- ===== src/Cohort/Samples.antt =====
-- The policy of an empty configuration, which is the one that the tests run under.
use books_of_time.Base.{ℕ, some, none, true, [], ◌∷◌}
use books_of_time.Base.Int.{pos}
use books_of_time.Base.Time.{finite, minutes, hours, days}
use books_of_time.Cohort.Types.{
  CohortRolloutMode, TierInterval, Zone, HotCommentPolicy, CohortPolicy,
}

abbrev pub interval : ℕ → ℕ → TierInterval
interval active normal = record { active = minutes active; normal = minutes normal }

abbrev pub default_hot_comments : HotCommentPolicy
default_hot_comments = record {
  routine_pages = record { s = 3; a = 2; b = 1; c = 1 };
  checkpoint_pages = record { s = 20; a = 10; b = 3; c = 1 };
  max_pages_per_slice = 10;
  max_slice_seconds = 55;
}

-- Asia/Shanghai, with the offset of eight hours that it has today.
abbrev pub shanghai : Zone
shanghai = record { key = "Asia/Shanghai"; offset = λ t. 28_800_000_000 }

abbrev pub default_policy : CohortPolicy
default_policy = record {
  enabled = true;
  policy_version = "cohort-default-v2";
  rollout_mode = CohortRolloutMode.shadow;
  planning_seconds = 30;
  timezone = shanghai;
  checkpoint_hours = 6 ∷ 12 ∷ 18 ∷ 24 ∷ [];
  checkpoint_max_lateness = minutes 60;
  downgrade_confirmations = 2;
  official_s_age = hours 6;
  hot_turnover_confirmations = 2;
  reassessment_interval = minutes 60;
  tier_thresholds = record {
    s = record {
      view_growth_per_hour = 6000;
      comment_growth_per_hour = 60;
      hot_top20_turnover_ratio = some (finite (pos 35) 99);
    };
    a = record {
      view_growth_per_hour = 1200;
      comment_growth_per_hour = 20;
      hot_top20_turnover_ratio = some (finite (pos 20) 99);
    };
    b = record {
      view_growth_per_hour = 300;
      comment_growth_per_hour = 5;
      hot_top20_turnover_ratio = none;
    };
  };
  hot_comments = default_hot_comments;
  lifecycle = record {
    dormant_after = days 7;
    archive_after = days 30;
    dormant_interval = minutes 1440;
    archived_metric_probe_interval = minutes 10080;
  };
  activity_windows =
      record { name = "lunch"; start = 690; end = 810 }
      ∷ record { name = "dinner"; start = 1050; end = 1230 }
      ∷ record { name = "night"; start = 1290; end = 30 }
      ∷ [];
  tier_intervals = record {
    s = interval 2 10;
    a = interval 10 30;
    b = interval 30 60;
    c = interval 60 120;
  };
}

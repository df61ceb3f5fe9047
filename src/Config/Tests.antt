-- ===== src/Config/Tests.antt =====
-- The policies of concrete configurations.
use books_of_time.Base.{
  ◌-◌, ◌≡◌, refl, false, ◌&&◌, none, some, String, leb, if◌then◌else◌, ok, err,
}
use books_of_time.Base.Int.{pos}
use books_of_time.Base.Text.{str_eq, is_space, is_blank}
use books_of_time.Cohort.Types.{CohortRolloutMode, CohortPolicy}
use books_of_time.Cohort.Samples.{shanghai, default_policy}
use books_of_time.Config.Values.{
  Value, Host, null, int, str, seq, dict, done, next, empty, entry, get, mapping, has_unknown_keys,
  positive, positive_int, non_negative_int, is_too_large, ratio_of, optional_ratio, timedelta,
  sequence, boolean, strip_end, strip, fold_code, same_folded, ltb_double,
  checkpoint_hours_not_increasing, bad_rollout_mode,
}
use books_of_time.Config.Windows.{
  codes, number, hour_of, clock, clock_time, window_name, read_window, read_windows,
  activity_windows,
}
use books_of_time.Config.Sections.{
  positive_hours, not_increasing, check_increasing, checkpoint_hours, tier_threshold,
  turnover_below, not_descending, tier_thresholds, lifecycle, tier_interval, tier_intervals,
  tier_page_counts, has_fewer_pages, hot_comment_policy,
}
use books_of_time.Config.{
  from_config, config_or_empty, default_checkpoint_hours, policy_version, rollout_mode, timezone,
}
use books_of_time.Config.Valid.{IsValid, from_config-IsValid}

-- A host with one zone and the digits of ASCII.
abbrev host : Host
host = record {
  zone = λ name. if str_eq name "Asia/Shanghai" then some shanghai else none;
  decimal = λ c. if leb 48 c && leb c 57 then some (c - 48) else none;
}

abbrev disabled_policy : CohortPolicy
disabled_policy = record default_policy { enabled = false }

-- A configuration that only says how cohorts are planned.
abbrev config_with : String → Value → Value
config_with key value =
    dict (entry (some "snapshot_cohorts") (dict (entry (some key) value empty)) empty)

-- No configuration at all gives the default policy; a mode that does not exist, and checkpoints
-- that do not ascend, are refused.
read :
    (from_config host null ≡ ok disabled_policy)
    × (from_config host (config_with "rollout_mode" (str " Alive")) ≡ err bad_rollout_mode)
    × (from_config host
          (config_with "checkpoint_hours" (seq (next (int (pos 6)) (next (int (pos 6)) done))))
        ≡ err checkpoint_hours_not_increasing)
    × (rollout_mode (str " LIVE ") ≡ ok CohortRolloutMode.live)
unfolding from_config config_or_empty default_checkpoint_hours policy_version rollout_mode timezone
    get mapping has_unknown_keys positive positive_int non_negative_int is_too_large ratio_of
    optional_ratio timedelta sequence boolean strip_end strip fold_code same_folded ltb_double codes
    number hour_of clock clock_time window_name read_window read_windows activity_windows
    positive_hours not_increasing check_increasing checkpoint_hours tier_threshold turnover_below
    not_descending tier_thresholds lifecycle tier_interval tier_intervals tier_page_counts
    has_fewer_pages hot_comment_policy is_space is_blank
read = (refl, refl, refl, refl)

from_config-IsValid_example : IsValid disabled_policy
from_config-IsValid_example = from_config-IsValid host null read.0

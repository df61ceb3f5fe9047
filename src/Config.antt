-- ===== src/Config.antt =====
-- `CohortPolicy.from_config` of domain/cohort_policy.py: the policy of a configuration file.
-- `Values` has what such a file holds and the helpers that read it, `Sections` and `Windows` the
-- readers of its sections.
pub mod Values
pub mod Windows
pub mod Sections
pub mod Parts
pub mod Valid
mod Tests
use books_of_time.Base.{
  Bool, true, false, Option, none, some, ℕ, zero, String, List, [], ◌∷◌, ◌==◌, if◌then◌else◌,
  Result, ok, err, raise_if, ◌>>=◌, ◌>>◌,
}
use books_of_time.Base.Int.{ℤ, pos}
use books_of_time.Base.Text.{str_eq, is_blank}
use books_of_time.Base.Time.{Double, finite, minute, hour}
use books_of_time.Cohort.Types.{CohortRolloutMode, Zone, CohortPolicy}
use books_of_time.Config.Values.{
  Value, Entries, Host, ConfigError, null, bool, int, float, str, seq, dict, done, next, empty,
  other, get, mapping, has_unknown_keys, positive_int, timedelta, boolean, strip, same_folded,
  empty_policy_version, bad_rollout_mode, bad_timezone, unknown_keys,
}
use books_of_time.Config.Windows.{activity_windows}
use books_of_time.Config.Sections.{
  checkpoint_hours, tier_thresholds, lifecycle, tier_intervals, hot_comment_policy,
}

-- `config or {}`
pub config_or_empty : Value → Value
config_or_empty null = dict empty
config_or_empty (bool false) = dict empty
config_or_empty (int (pos zero)) = dict empty
config_or_empty (float (finite (pos zero) d)) = dict empty
config_or_empty (other false) = dict empty
config_or_empty (str String.[]) = dict empty
config_or_empty (seq done) = dict empty
config_or_empty v = v

pub policy_version : Value → Result ConfigError String
policy_version (str text) = if is_blank text then err empty_policy_version else ok (strip text)
policy_version _ = err empty_policy_version

pub rollout_mode : Value → Result ConfigError CohortRolloutMode
rollout_mode (str text) =
    let word = strip text in
    if same_folded word "shadow"
    then ok CohortRolloutMode.shadow
    else if same_folded word "live"
    then ok CohortRolloutMode.live
    else err bad_rollout_mode
rollout_mode _ = err bad_rollout_mode

-- `_timezone`
pub timezone : Host → Value → Result ConfigError Zone
timezone host (str text) = elim (host.zone text) [
  | none ↦ err bad_timezone
  | some zone ↦ if str_eq text "" then err bad_timezone else ok zone
]
timezone host _ = err bad_timezone

abbrev int_item : ℕ → Value
int_item n = int (pos n)

pub default_checkpoint_hours : Value
default_checkpoint_hours =
    seq (next (int_item 6) (next (int_item 12) (next (int_item 18) (next (int_item 24) done))))

pub from_config : Host → Value → Result ConfigError CohortPolicy
from_config host config = do
  root ← mapping (config_or_empty config) "config"
  section ← mapping (get root "snapshot_cohorts" (dict empty)) "snapshot_cohorts"
  enabled ← boolean (get section "enabled" (bool false))
  version ← policy_version (get section "policy_version" (str "cohort-default-v2"))
  mode ← rollout_mode (get section "rollout_mode" (str "shadow"))
  planning ← positive_int section "planning_seconds" 30 "planning_seconds"
  zone ← timezone host (get section "timezone" (str "Asia/Shanghai"))
  hours ← checkpoint_hours (get section "checkpoint_hours" default_checkpoint_hours)
  lateness_minutes ←
      positive_int section "checkpoint_max_lateness_minutes" 60 "checkpoint_max_lateness_minutes"
  lateness ← timedelta minute lateness_minutes
  confirmations ← positive_int section "downgrade_confirmations" 2 "downgrade_confirmations"
  tier_policy ← mapping (get section "tier_policy" (dict empty)) "snapshot_cohorts.tier_policy"
  raise_if
      (has_unknown_keys
        ("official_s_age_hours" ∷ "reassess_after_24h_minutes" ∷ "hot_turnover_confirmations" ∷ "s"
          ∷ "a" ∷ "b" ∷ [])
        tier_policy)
      (unknown_keys "tier_policy")
  official_hours ← positive_int tier_policy "official_s_age_hours" 6 "official_s_age_hours"
  official ← timedelta hour official_hours
  turnover ← positive_int tier_policy "hot_turnover_confirmations" 2 "hot_turnover_confirmations"
  reassess_minutes ←
      positive_int tier_policy "reassess_after_24h_minutes" 60 "reassess_after_24h_minutes"
  reassessment ← timedelta minute reassess_minutes
  thresholds ← tier_thresholds tier_policy
  scheduler ← mapping (get root "scheduler" (dict empty)) "scheduler"
  lease_seconds ← positive_int scheduler "lease_seconds" 120 "scheduler.lease_seconds"
  hot ← hot_comment_policy (get section "hot_comments" (dict empty)) lease_seconds
  life ← lifecycle (get section "lifecycle" (dict empty))
  windows ← activity_windows host (get section "activity_windows" (dict empty))
  intervals ← tier_intervals (get section "tier_intervals_minutes" (dict empty))
  ok (record {
    enabled = enabled;
    policy_version = version;
    rollout_mode = mode;
    planning_seconds = planning;
    timezone = zone;
    checkpoint_hours = hours;
    checkpoint_max_lateness = lateness;
    downgrade_confirmations = confirmations;
    official_s_age = official;
    hot_turnover_confirmations = turnover;
    reassessment_interval = reassessment;
    tier_thresholds = thresholds;
    hot_comments = hot;
    lifecycle = life;
    activity_windows = windows;
    tier_intervals = intervals;
  })

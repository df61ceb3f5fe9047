-- ===== src/Cohort/Stage.antt =====
-- `determine_life_stage`, `component_kinds_for_stage` and `hot_page_plan` of
-- domain/cohort_policy.py: what is collected of a video, and how many pages of its hot comments.
pub mod Extent
mod Tests
use books_of_time.Base.{
  ℕ, ◌+◌, Bool, true, false, not, ◌||◌, Option, none, some, String, List, [], ◌∷◌, ◌++◌,
  if◌then◌else◌,
}
use books_of_time.Base.Int.{ℤ, leb_ℤ, sub_ℕ}
use books_of_time.Cohort.Types.{VideoLifeStage, CollectionTier, CohortPolicy, HotPagePlan, at}

-- `value is True`
abbrev pub is_true : Option Bool → Bool
is_true none = false
is_true (some b) = b

pub determine_life_stage :
    (publish_age : ℤ) (low_growth_evidence : Option Bool)
    → CohortPolicy
    → (active_event operator_pinned renewed_growth : Bool) → VideoLifeStage
determine_life_stage age evidence policy active_event operator_pinned renewed_growth =
    if active_event || (operator_pinned || renewed_growth)
    then VideoLifeStage.active
    else if not (is_true evidence)
    then VideoLifeStage.active
    else if leb_ℤ policy.lifecycle.archive_after age
    then VideoLifeStage.archived
    else if leb_ℤ policy.lifecycle.dormant_after age
    then VideoLifeStage.dormant
    else VideoLifeStage.active

abbrev pub is_active_stage : VideoLifeStage → Bool
is_active_stage VideoLifeStage.active = true
is_active_stage _ = false

abbrev pub is_archived_stage : VideoLifeStage → Bool
is_archived_stage VideoLifeStage.archived = true
is_archived_stage _ = false

pub component_kinds_for_stage : VideoLifeStage → (frontier_complete : Bool) → List String
component_kinds_for_stage stage frontier_complete =
    let components = "video_metrics" ∷ "hot_core" ∷ [] in
    if is_archived_stage stage
    then "video_metrics" ∷ []
    else if is_active_stage stage || frontier_complete
    then components ++ "latest_current_head" ∷ []
    else components

pub hot_page_plan : CohortPolicy → CollectionTier → (include_deep dormant : Bool) → HotPagePlan
hot_page_plan policy tier include_deep dormant =
    let core_pages = if dormant then 1 else at policy.hot_comments.routine_pages tier in
    let total_pages =
      if dormant || not include_deep
      then core_pages
      else at policy.hot_comments.checkpoint_pages tier in
    record {
      core_start_page = 1;
      core_pages = core_pages;
      deep_start_page = core_pages + 1;
      deep_pages = sub_ℕ total_pages core_pages;
      total_pages = total_pages;
    }

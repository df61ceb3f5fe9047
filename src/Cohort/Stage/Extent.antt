-- ===== src/Cohort/Stage/Extent.antt =====
-- Theorems about the stage of a video, its components and its pages.
use books_of_time.Base.{
  ℕ, ◌+◌, ◌-◌, ◌≤◌, ◌≡◌, ◌⊎◌, Bool, true, false, Option, some, String, List, [], ◌∷◌, ◌++◌, refl,
  arith,
}
use books_of_time.Base.Int.{ℤ, pos, ◌≤ℤ◌}
use books_of_time.Cohort.Types.{VideoLifeStage, CollectionTier, CohortPolicy, at}
use books_of_time.Cohort.Stage.{determine_life_stage, component_kinds_for_stage, hot_page_plan}

abbrev pub stage_rank : VideoLifeStage → ℕ
stage_rank VideoLifeStage.active = 0
stage_rank VideoLifeStage.dormant = 1
stage_rank VideoLifeStage.archived = 2

-- A video only moves from active to dormant to archived as it gets older, its other signals being
-- the same; and it is active unless low growth is on record and nothing else keeps it active.
pub determine_life_stage_mono :
    (age age' : ℤ) (evidence : Option Bool) (policy : CohortPolicy) (event pinned renewed : Bool)
    → age ≤ℤ age'
    → (stage_rank (determine_life_stage age evidence policy event pinned renewed)
        ≤ stage_rank (determine_life_stage age' evidence policy event pinned renewed))
      × ((determine_life_stage age' evidence policy event pinned renewed ≡ VideoLifeStage.active)
          ⊎ ((evidence ≡ some true) × (event ≡ false) × (pinned ≡ false) × (renewed ≡ false)))
unfolding determine_life_stage
determine_life_stage_mono age age' evidence policy event pinned renewed h =
    (ground arith, ground arith)

-- An older video is collected in no more components: those of the later stage are a prefix of
-- those of the earlier one.
pub component_kinds_for_stage-prefix :
    (stage stage' : VideoLifeStage) (frontier_complete : Bool)
    → stage_rank stage ≤ stage_rank stage'
    → (rest : List String) × (component_kinds_for_stage stage frontier_complete
        ≡ component_kinds_for_stage stage' frontier_complete ++ rest)
unfolding component_kinds_for_stage
component_kinds_for_stage-prefix VideoLifeStage.active VideoLifeStage.active f h =
    ([], ground arith)
component_kinds_for_stage-prefix VideoLifeStage.dormant VideoLifeStage.dormant f h =
    ([], ground arith)
component_kinds_for_stage-prefix VideoLifeStage.archived VideoLifeStage.archived f h = ([], refl)
component_kinds_for_stage-prefix VideoLifeStage.active VideoLifeStage.dormant true h = ([], refl)
component_kinds_for_stage-prefix VideoLifeStage.active VideoLifeStage.dormant false h =
    ("latest_current_head" ∷ [], refl)
component_kinds_for_stage-prefix VideoLifeStage.active VideoLifeStage.archived f h =
    ("hot_core" ∷ "latest_current_head" ∷ [], ground arith)
component_kinds_for_stage-prefix VideoLifeStage.dormant VideoLifeStage.archived true h =
    ("hot_core" ∷ "latest_current_head" ∷ [], refl)
component_kinds_for_stage-prefix VideoLifeStage.dormant VideoLifeStage.archived false h =
    ("hot_core" ∷ [], refl)
component_kinds_for_stage-prefix _ _ f h = absurd (omega arith)

-- The core pages and the deep pages follow one another without a gap or an overlap, and together
-- they are the pages of the plan, where the policy asks for at least one routine page and for no
-- fewer pages at a checkpoint than routinely.
pub hot_page_plan_covers :
    (policy : CohortPolicy) (tier : CollectionTier) (include_deep dormant : Bool)
    → 1 ≤ at policy.hot_comments.routine_pages tier
    → at policy.hot_comments.routine_pages tier ≤ at policy.hot_comments.checkpoint_pages tier
    → let plan = hot_page_plan policy tier include_deep dormant in
      (deep : ℕ) × (plan.deep_pages ≡ pos deep)
      × (plan.core_start_page ≡ 1)
      × (1 ≤ plan.core_pages)
      × (plan.deep_start_page ≡ plan.core_start_page + plan.core_pages)
      × (plan.core_pages + deep ≡ plan.total_pages)
unfolding hot_page_plan
hot_page_plan_covers policy tier include_deep dormant h k =
    let plan = hot_page_plan policy tier include_deep dormant in
    (
      plan.total_pages - plan.core_pages,
      ground arith,
      refl,
      ground arith,
      omega arith,
      ground arith,
    )

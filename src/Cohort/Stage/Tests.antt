-- ===== src/Cohort/Stage/Tests.antt =====
-- The stages under the default policy, and the theorems at concrete inputs.
use books_of_time.Base.{ℕ, ◌+◌, ◌≤◌, ◌≡◌, true, false, some, refl, arith}
use books_of_time.Base.Int.{pos}
use books_of_time.Base.Time.{days}
use books_of_time.Cohort.Types.{VideoLifeStage, CollectionTier}
use books_of_time.Cohort.Samples.{default_policy}
use books_of_time.Cohort.Stage.{determine_life_stage, hot_page_plan}
use books_of_time.Cohort.Stage.Extent.{hot_page_plan_covers}

stages :
    (determine_life_stage (days 8) (some true) default_policy false false false
      ≡ VideoLifeStage.dormant)
    × (determine_life_stage (days 30) (some true) default_policy false false false
        ≡ VideoLifeStage.archived)
    × (determine_life_stage (days 30) (some false) default_policy false false false
        ≡ VideoLifeStage.active)
unfolding determine_life_stage
stages = (refl, refl, refl)

hot_page_plan_covers_example :
    let plan = hot_page_plan default_policy CollectionTier.s true false in
    (deep : ℕ) × (plan.deep_pages ≡ pos deep)
    × (plan.core_start_page ≡ 1)
    × (1 ≤ plan.core_pages)
    × (plan.deep_start_page ≡ plan.core_start_page + plan.core_pages)
    × (plan.core_pages + deep ≡ plan.total_pages)
hot_page_plan_covers_example =
    hot_page_plan_covers default_policy CollectionTier.s true false (omega arith) (omega arith)

-- ===== src/Cohort/Status/Tests.antt =====
-- Cohorts with concrete components.

use mathlib.Core.List.Perm
use books_of_time.Base.{◌≡◌, refl, ◌↔◌, ◌⊎◌, true, false, List, [], ◌∷◌, ok, err}
use books_of_time.Cohort.Types.{CohortStatus, CohortComponentStatus, ComponentOutcome}
use books_of_time.Cohort.Status.{aggregate_cohort_status, no_required_component}
use books_of_time.Cohort.Status.Kinds.{is_corrupted, is_active, is_pending}
use books_of_time.Cohort.Status.Outcomes.{
  some_required, some_started, is_not_pending, aggregate_cohort_status-running,
}
use books_of_time.Cohort.Status.Order.{aggregate_cohort_status-perm}

abbrev part : CohortComponentStatus → ComponentOutcome
part s = record { status = s; required = true; started = false }

abbrev optional : CohortComponentStatus → ComponentOutcome
optional s = record { status = s; required = false; started = false }

abbrev half_done : List ComponentOutcome
half_done = part CohortComponentStatus.complete ∷ part CohortComponentStatus.pending ∷ []

statuses :
    (aggregate_cohort_status half_done ≡ ok CohortStatus.running)
    × (aggregate_cohort_status (optional CohortComponentStatus.complete ∷ [])
        ≡ err no_required_component)
    × (aggregate_cohort_status
          (part CohortComponentStatus.blocked ∷ part CohortComponentStatus.not_applicable ∷ [])
        ≡ ok CohortStatus.blocked)
    × (aggregate_cohort_status (
          part CohortComponentStatus.missed_due_to_capacity
          ∷ part CohortComponentStatus.pending
          ∷ [])
        ≡ ok CohortStatus.missed)
unfolding aggregate_cohort_status
statuses = (refl, refl, refl, refl)

aggregate_cohort_status-perm_example :
    aggregate_cohort_status half_done
    ≡ aggregate_cohort_status
        (part CohortComponentStatus.pending ∷ part CohortComponentStatus.complete ∷ [])
aggregate_cohort_status-perm_example =
    aggregate_cohort_status-perm
      (Perm.swap (part CohortComponentStatus.pending) (part CohortComponentStatus.complete) [])

aggregate_cohort_status-running_example :
    (aggregate_cohort_status half_done ≡ ok CohortStatus.running) ↔ (
      (some_required is_corrupted half_done ≡ false)
      × ((some_required is_active half_done ≡ true)
          ⊎ ((some_started half_done ≡ true)
              × (some_required is_pending half_done ≡ true)
              × (some_required is_not_pending half_done ≡ true))))
aggregate_cohort_status-running_example = aggregate_cohort_status-running half_done

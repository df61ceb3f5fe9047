-- ===== src/Cohort/Status.antt =====
-- `aggregate_cohort_status` of domain/cohort_policy.py: the status of a cohort from its parts.
pub mod Kinds
pub mod Outcomes
pub mod Order
mod Tests
use books_of_time.Base.{
  Bool, true, false, not, ◌&&◌, ◌||◌, List, [], ◌∷◌, map, any, all, filter, if◌then◌else◌, Result,
  ok, err,
}
use books_of_time.Cohort.Types.{CohortStatus, CohortComponentStatus, ComponentOutcome}
use books_of_time.Cohort.Status.Kinds.{
  is_corrupted, is_active, is_pending, is_not_applicable, is_blocked, is_missed,
  is_complete_or_not_applicable, is_waiting, component_started,
}

-- The ValueError: at least one required component is needed.
pub data StatusError : Type 0 where
  no_required_component : StatusError

abbrev pub is_required : ComponentOutcome → Bool
is_required o = o.required

abbrev pub status_of : ComponentOutcome → CohortComponentStatus
status_of o = o.status

abbrev pub is_applicable : ComponentOutcome → Bool
is_applicable o = not (is_not_applicable o.status)

abbrev pub is_empty {ℓ} : {A : Type ℓ} → List A → Bool
is_empty [] = true
is_empty (x ∷ xs) = false

-- What follows the check that a required component is there.
unfoldable pub aggregate_required : List ComponentOutcome → CohortStatus
aggregate_required required =
    let statuses = map status_of required in
    let applicable = filter is_applicable required in
    let any_started = any component_started required in
    if any is_corrupted statuses
    then CohortStatus.corrupted
    else if any is_active statuses
    then CohortStatus.running
    else if all is_pending statuses
    then CohortStatus.planned
    else if all is_not_applicable statuses
    then CohortStatus.not_applicable
    else if not any_started
        && (not (is_empty applicable) && all is_blocked (map status_of applicable))
    then CohortStatus.blocked
    else if not any_started && any is_missed (map status_of applicable)
    then CohortStatus.missed
    else if all is_complete_or_not_applicable statuses
    then CohortStatus.complete
    else if any_started && any is_pending statuses
    then CohortStatus.running
    else if not any_started && all is_waiting statuses
    then CohortStatus.planned
    else CohortStatus.partial

unfoldable pub aggregate_cohort_status : List ComponentOutcome → Result StatusError CohortStatus
unfolding aggregate_required
aggregate_cohort_status outcomes =
    let required = filter is_required outcomes in
    if is_empty required then err no_required_component else ok (aggregate_required required)

-- ===== src/Cohort/Status/Kinds.antt =====
-- The sets of component statuses of domain/cohort_policy.py, as tests.
use books_of_time.Base.{Bool, true, false, ◌||◌}
use books_of_time.Cohort.Types.{CohortComponentStatus, ComponentOutcome}

abbrev pub is_corrupted : CohortComponentStatus → Bool
is_corrupted CohortComponentStatus.corrupted = true
is_corrupted _ = false

abbrev pub is_pending : CohortComponentStatus → Bool
is_pending CohortComponentStatus.pending = true
is_pending _ = false

abbrev pub is_not_applicable : CohortComponentStatus → Bool
is_not_applicable CohortComponentStatus.not_applicable = true
is_not_applicable _ = false

abbrev pub is_blocked : CohortComponentStatus → Bool
is_blocked CohortComponentStatus.blocked = true
is_blocked _ = false

-- `_ACTIVE_COMPONENT_STATUSES`
abbrev pub is_active : CohortComponentStatus → Bool
is_active CohortComponentStatus.running = true
is_active CohortComponentStatus.joined_active_task = true
is_active _ = false

-- `_MISSED_COMPONENT_STATUSES`
abbrev pub is_missed : CohortComponentStatus → Bool
is_missed CohortComponentStatus.missed_due_to_capacity = true
is_missed CohortComponentStatus.missed_due_to_service_gap = true
is_missed _ = false

-- `_IMPLICITLY_STARTED_COMPONENT_STATUSES`
abbrev pub is_implicitly_started : CohortComponentStatus → Bool
is_implicitly_started CohortComponentStatus.running = true
is_implicitly_started CohortComponentStatus.complete = true
is_implicitly_started CohortComponentStatus.partial = true
is_implicitly_started CohortComponentStatus.joined_active_task = true
is_implicitly_started CohortComponentStatus.failed = true
is_implicitly_started CohortComponentStatus.corrupted = true
is_implicitly_started _ = false

abbrev pub is_complete_or_not_applicable : CohortComponentStatus → Bool
is_complete_or_not_applicable CohortComponentStatus.complete = true
is_complete_or_not_applicable CohortComponentStatus.not_applicable = true
is_complete_or_not_applicable _ = false

-- PENDING, BLOCKED or NOT_APPLICABLE.
abbrev pub is_waiting : CohortComponentStatus → Bool
is_waiting CohortComponentStatus.pending = true
is_waiting CohortComponentStatus.blocked = true
is_waiting CohortComponentStatus.not_applicable = true
is_waiting _ = false

-- `_component_started`
abbrev pub component_started : ComponentOutcome → Bool
component_started o = o.started || is_implicitly_started o.status

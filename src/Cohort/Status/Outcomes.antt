-- ===== src/Cohort/Status/Outcomes.antt =====
-- Which components give which status of the cohort.
use books_of_time.Base.{
  ◌≡◌, refl, ◌↔◌, ◌⊎◌, Bool, true, false, not, ◌&&◌, ◌||◌, List, [], ◌∷◌, map, any, all, filter,
  arith, ok,
}
use books_of_time.Cohort.Types.{CohortStatus, CohortComponentStatus, ComponentOutcome}
use books_of_time.Cohort.Status.{is_required, status_of, is_empty, aggregate_cohort_status}
use books_of_time.Cohort.Status.Kinds.{
  is_corrupted, is_active, is_pending, is_not_applicable, is_complete_or_not_applicable,
  component_started,
}

abbrev pub is_complete : CohortComponentStatus → Bool
is_complete CohortComponentStatus.complete = true
is_complete _ = false

abbrev pub is_not_pending : CohortComponentStatus → Bool
is_not_pending x = not (is_pending x)

abbrev pub is_incomplete : CohortComponentStatus → Bool
is_incomplete x = not (is_complete_or_not_applicable x)

abbrev statuses : List ComponentOutcome → List CohortComponentStatus
statuses os = map status_of (filter is_required os)

-- Some required component has a status of the given kind.
abbrev pub some_required : (CohortComponentStatus → Bool) → List ComponentOutcome → Bool
some_required p [] = false
some_required p (o ∷ os) = o.required && p o.status || some_required p os

-- Some required component has started, by its flag or by its status.
abbrev pub some_started : List ComponentOutcome → Bool
some_started [] = false
some_started (o ∷ os) = o.required && component_started o || some_started os

any-filter_required :
    (p : CohortComponentStatus → Bool) (os : List ComponentOutcome)
    → any p (map status_of (filter is_required os)) ≡ some_required p os
any-filter_required p [] = refl
any-filter_required p (o ∷ os) = ground (arith, any-filter_required p os)

all-filter_required :
    (p : CohortComponentStatus → Bool) (os : List ComponentOutcome)
    → all p (map status_of (filter is_required os)) ≡ not (some_required (λ x. not (p x)) os)
all-filter_required p [] = refl
all-filter_required p (o ∷ os) = ground (arith, all-filter_required p os)

any_started-filter_required :
    (os : List ComponentOutcome) → any component_started (filter is_required os) ≡ some_started os
any_started-filter_required [] = refl
any_started-filter_required (o ∷ os) = ground (arith, any_started-filter_required os)

is_empty_of_any :
    (p : CohortComponentStatus → Bool) (os : List ComponentOutcome)
    → some_required p os ≡ true
    → is_empty (filter is_required os) ≡ false
is_empty_of_any p [] h = cc
is_empty_of_any p (o ∷ os) h = ground (arith, is_empty_of_any p os)

is_empty_of_started :
    (os : List ComponentOutcome) → some_started os ≡ true → is_empty (filter is_required os) ≡ false
is_empty_of_started [] h = cc
is_empty_of_started (o ∷ os) h = ground (arith, is_empty_of_started os)

-- A cohort is corrupted exactly when a required component is.
pub aggregate_cohort_status-corrupted :
    (os : List ComponentOutcome)
    → (aggregate_cohort_status os ≡ ok CohortStatus.corrupted)
      ↔ (some_required is_corrupted os ≡ true)
unfolding aggregate_cohort_status
aggregate_cohort_status-corrupted os = (
  ground (arith, any-filter_required is_corrupted os),
  ground (arith, any-filter_required is_corrupted os, is_empty_of_any is_corrupted os),
)

some_required_mono :
    (p q : CohortComponentStatus → Bool)
    → ((x : CohortComponentStatus) → p x ≡ true → q x ≡ true)
    → (os : List ComponentOutcome) → some_required p os ≡ true
    → some_required q os ≡ true
some_required_mono p q h [] m = m
some_required_mono p q h (o ∷ os) m = ground (arith, h o.status, some_required_mono p q h os)

some_started_complete :
    (os : List ComponentOutcome) → some_required is_complete os ≡ true → some_started os ≡ true
some_started_complete [] m = m
some_started_complete (o ∷ os) m = ground (arith, some_started_complete os)

-- The tests of `aggregate_required`, read off the components; `aggregate_cohort_status` is this
-- function of them.
record Reads (os : List ComponentOutcome) : Type 0 where
  corrupted : any is_corrupted (statuses os) ≡ some_required is_corrupted os
  active : any is_active (statuses os) ≡ some_required is_active os
  pending : any is_pending (statuses os) ≡ some_required is_pending os
  all_pending : all is_pending (statuses os) ≡ not (some_required is_not_pending os)
  all_complete :
      all is_complete_or_not_applicable (statuses os) ≡ not (some_required is_incomplete os)
  started : any component_started (filter is_required os) ≡ some_started os
  pending_applies : some_required is_pending os ≡ true → all is_not_applicable (statuses os) ≡ false
  pending_incomplete : some_required is_pending os ≡ true → some_required is_incomplete os ≡ true

reads : (os : List ComponentOutcome) → Reads os
reads os = record {
  corrupted = any-filter_required is_corrupted os;
  active = any-filter_required is_active os;
  pending = any-filter_required is_pending os;
  all_pending = all-filter_required is_pending os;
  all_complete = all-filter_required is_complete_or_not_applicable os;
  started = any_started-filter_required os;
  pending_applies = λ h. ground (
    arith,
    all-filter_required is_not_applicable os,
    some_required_mono is_pending (λ x. not (is_not_applicable x)) (λ x e. ground arith) os h,
  );
  pending_incomplete = some_required_mono is_pending is_incomplete (λ x e. ground arith) os;
}

-- A cohort runs exactly when no required component is corrupted, and one of them is active, or one
-- has started while one is pending and not all are.
pub aggregate_cohort_status-running :
    (os : List ComponentOutcome)
    → (aggregate_cohort_status os ≡ ok CohortStatus.running) ↔ (
        (some_required is_corrupted os ≡ false)
        × ((some_required is_active os ≡ true)
            ⊎ ((some_started os ≡ true)
                × (some_required is_pending os ≡ true)
                × (some_required is_not_pending os ≡ true))))
unfolding aggregate_cohort_status
aggregate_cohort_status-running os =
    let r = reads os in
    (ground arith, ground (arith, is_empty_of_any is_active os, is_empty_of_started os))

complete_facts :
    (os : List ComponentOutcome)
    → some_required is_complete os ≡ true
    → (some_required is_not_pending os ≡ true)
      × (all is_not_applicable (statuses os) ≡ false)
      × (some_started os ≡ true)
      × (is_empty (filter is_required os) ≡ false)
complete_facts os h = (
  some_required_mono is_complete is_not_pending (λ x e. ground arith) os h,
  ground (
    arith,
    all-filter_required is_not_applicable os,
    some_required_mono is_complete (λ x. not (is_not_applicable x)) (λ x e. ground arith) os h,
  ),
  some_started_complete os h,
  is_empty_of_any is_complete os h,
)

all_complete_facts :
    (os : List ComponentOutcome)
    → some_required is_incomplete os ≡ false
    → (some_required is_corrupted os ≡ false) × (some_required is_active os ≡ false)
all_complete_facts os h = (
  ground (arith, some_required_mono is_corrupted is_incomplete (λ x e. ground arith) os),
  ground (arith, some_required_mono is_active is_incomplete (λ x e. ground arith) os),
)

-- Where nothing required is incomplete, either all of it is not applicable or something is complete.
some_complete :
    (os : List ComponentOutcome)
    → some_required is_incomplete os ≡ false
    → all is_not_applicable (statuses os) ≡ false
    → some_required is_complete os ≡ true
some_complete [] h n = cc
some_complete (o ∷ os) h n = ground (arith, some_complete os)

-- A cohort is complete exactly when some required component is complete, and each of them is
-- complete or not applicable.
pub aggregate_cohort_status-complete :
    (os : List ComponentOutcome)
    → (aggregate_cohort_status os ≡ ok CohortStatus.complete)
      ↔ ((some_required is_complete os ≡ true) × (some_required is_incomplete os ≡ false))
unfolding aggregate_cohort_status
aggregate_cohort_status-complete os =
    let r = reads os in
    (ground (arith, some_complete os), ground (arith, complete_facts os, all_complete_facts os))

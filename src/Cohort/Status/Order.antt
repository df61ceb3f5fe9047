-- ===== src/Cohort/Status/Order.antt =====
-- The status of a cohort does not depend on the order of its components, nor on the components
-- that are not required.
use mathlib.Core.Logic.{∥∥₁_elim}
use mathlib.Core.List.{Perm, Permᴰ}
use mathlib.Core.List.Permᴰ
use books_of_time.Base.{
  ◌≡◌, refl, ap, ◌∙◌, Bool, List, [], ◌∷◌, filter, Result, Bool-cases, inl, inr,
}
use books_of_time.Base.Perms.{any-perm, all-perm, filter-perm}
use books_of_time.Cohort.Types.{CohortStatus, ComponentOutcome}
use books_of_time.Cohort.Status.{
  StatusError, is_required, status_of, is_applicable, is_empty, aggregate_required,
  aggregate_cohort_status,
}
use books_of_time.Cohort.Status.Kinds.{
  is_corrupted, is_active, is_pending, is_not_applicable, is_blocked, is_missed,
  is_complete_or_not_applicable, is_waiting, component_started,
}

is_empty-perm {ℓ} : {A : Type ℓ} {xs ys : List A} → Permᴰ xs ys → is_empty xs ≡ is_empty ys
is_empty-perm Permᴰ.nil = refl
is_empty-perm (Permᴰ.cons e d) = refl
is_empty-perm (Permᴰ.swap e f) = refl
is_empty-perm (Permᴰ.trans d f) = is_empty-perm d ∙ is_empty-perm f

aggregate_required-perm :
    {xs ys : List ComponentOutcome} → Permᴰ xs ys → aggregate_required xs ≡ aggregate_required ys
unfolding aggregate_required
aggregate_required-perm d =
    let statuses = Permᴰ.map status_of d in
    let applicable = filter-perm is_applicable d in
    let applied = Permᴰ.map status_of applicable in
    simp (
      any-perm is_corrupted statuses,
      any-perm is_active statuses,
      all-perm is_pending statuses,
      all-perm is_not_applicable statuses,
      any-perm component_started d,
      is_empty-perm applicable,
      all-perm is_blocked applied,
      any-perm is_missed applied,
      all-perm is_complete_or_not_applicable statuses,
      any-perm is_pending statuses,
      all-perm is_waiting statuses,
    )

aggregate_cohort_status-permᴰ :
    {xs ys : List ComponentOutcome}
    → Permᴰ xs ys
    → aggregate_cohort_status xs ≡ aggregate_cohort_status ys
unfolding aggregate_cohort_status
aggregate_cohort_status-permᴰ d =
    let required = filter-perm is_required d in
    simp (is_empty-perm required, aggregate_required-perm required)

result-set : IsSet (Result StatusError CohortStatus)
result-set = hlevel

-- Two lists of the same components, in whatever order, give the same status, or both raise.
pub aggregate_cohort_status-perm :
    {xs ys : List ComponentOutcome}
    → Perm xs ys
    → aggregate_cohort_status xs ≡ aggregate_cohort_status ys
aggregate_cohort_status-perm p = ∥∥₁_elim p (result-set _ _) (λ d. aggregate_cohort_status-permᴰ d)

filter-filter_self :
    (p : ComponentOutcome → Bool) (os : List ComponentOutcome)
    → filter p (filter p os) ≡ filter p os
filter-filter_self p [] = refl
filter-filter_self p (o ∷ os) = elim (Bool-cases (p o)) [
  | inl e ↦ rw (e, e) (ap (◌∷◌ o) (filter-filter_self p os))
  | inr e ↦ rw e (filter-filter_self p os)
]

-- Components that are not required change nothing: leaving them out gives the same status.
pub aggregate_cohort_status-filter :
    (os : List ComponentOutcome)
    → aggregate_cohort_status (filter is_required os) ≡ aggregate_cohort_status os
unfolding aggregate_cohort_status
aggregate_cohort_status-filter os = rw (filter-filter_self is_required os)

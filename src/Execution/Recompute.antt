-- ===== src/Execution/Recompute.antt =====
-- `_recompute_cohort` of db/cohort_repositories.py: what the components of a cohort make of its row.
use books_of_time.Base.{
  ℕ, suc, min, Bool, true, false, ◌&&◌, Option, none, some, String, List, [], ◌∷◌, map, filter,
  length, ltb, ◌==◌, if◌then◌else◌, is_some, Result, ok, err,
}
use books_of_time.Base.Rows.{sort_by}
use books_of_time.Base.Text.{str_eq}
use books_of_time.Cohort.Types.{CohortStatus, ComponentOutcome}
use books_of_time.Cohort.Status.Kinds.{is_complete_or_not_applicable}
use books_of_time.Cohort.Status.{aggregate_cohort_status}
use books_of_time.Store.{
  SnapshotCohort, SnapshotCohortComponent, VideoCollectionState, Db, StoreError,
  no_required_component, save_cohort,
}

abbrev pub earlier_id : SnapshotCohortComponent → SnapshotCohortComponent → Bool
earlier_id x y = ltb x.id y.id

-- The query of the components, by id.
unfoldable pub components_of :
    (cohort_id : ℕ) → List SnapshotCohortComponent → List SnapshotCohortComponent
components_of cohort_id components =
    sort_by earlier_id
      (filter (λ (c : SnapshotCohortComponent). c.cohort_id == cohort_id) components)

abbrev pub outcome_of : SnapshotCohortComponent → ComponentOutcome
outcome_of c = record { status = c.status; required = c.required; started = is_some c.started_at }

-- `cohort.started_at or min(…, default=None)`
abbrev pub earliest : List SnapshotCohortComponent → Option ℕ
earliest [] = none
earliest (c ∷ cs) =
    let rest = earliest cs in
    elim (c.started_at) [
      | none ↦ rest
      | some t ↦ elim rest [ none ↦ some t | some u ↦ some (min t u) ]
    ]

abbrev pub or_else {ℓ} : {A : Type ℓ} → Option A → Option A → Option A
or_else none other = other
or_else (some a) other = some a

-- A text that counts as true.
abbrev pub truthy : Option String → Option String
truthy none = none
truthy (some text) = if str_eq text "" then none else some text

abbrev pub first_reason : List SnapshotCohortComponent → Option String
first_reason [] = none
first_reason (c ∷ cs) = or_else (truthy c.failure_reason) (first_reason cs)

-- COMPLETE, PARTIAL, MISSED, CORRUPTED or NOT_APPLICABLE.
abbrev pub is_finished : CohortStatus → Bool
is_finished CohortStatus.complete = true
is_finished CohortStatus.partial = true
is_finished CohortStatus.missed = true
is_finished CohortStatus.corrupted = true
is_finished CohortStatus.not_applicable = true
is_finished _ = false

abbrev pub is_complete : CohortStatus → Bool
is_complete CohortStatus.complete = true
is_complete _ = false

-- `cohort.status_reason` for the new status.
abbrev pub reason_for : CohortStatus → List SnapshotCohortComponent → Option String → Option String
reason_for CohortStatus.complete components reason = none
reason_for CohortStatus.partial components reason = or_else (first_reason components) reason
reason_for CohortStatus.corrupted components reason = or_else (first_reason components) reason
reason_for _ components reason = reason

abbrev pub count_done : List SnapshotCohortComponent → ℕ
count_done [] = 0
count_done (c ∷ cs) =
    let rest = count_done cs in if is_complete_or_not_applicable c.status then suc rest else rest

-- What is written to the cohort.
unfoldable pub recomputed :
    CohortStatus
    → List SnapshotCohortComponent
    → (finished_at : ℕ) → SnapshotCohort
    → SnapshotCohort
recomputed status components finished_at cohort = record cohort {
  status = status;
  expected_component_count = length components;
  completed_component_count = count_done components;
  started_at = or_else cohort.started_at (earliest components);
  finished_at = if is_finished status then some finished_at else none;
  status_reason = reason_for status components cohort.status_reason;
  updated_at = finished_at;
}

abbrev pub is_later : (t : ℕ) → Option ℕ → Bool
is_later t none = true
is_later t (some u) = ltb u t

-- What a complete cohort writes to the state of its video.
unfoldable pub completed_state :
    (bvid : String) (finished_at : ℕ) → VideoCollectionState → VideoCollectionState
completed_state bvid finished_at s =
    if str_eq s.bvid bvid && is_later finished_at s.last_completed_cohort_at
    then record s { last_completed_cohort_at = some finished_at; updated_at = finished_at }
    else s

unfoldable pub recompute_cohort : SnapshotCohort → (finished_at : ℕ) → Db → Result StoreError Db
recompute_cohort cohort finished_at d =
    let components = components_of cohort.id d.components in
    elim (aggregate_cohort_status (map outcome_of components)) [
      | err e ↦ err no_required_component
      | ok status ↦
          let saved = save_cohort (recomputed status components finished_at cohort) d in
          ok (
            if is_complete status
            then record saved {
              states = map (completed_state cohort.bvid finished_at) saved.states;
            }
            else saved)
    ]

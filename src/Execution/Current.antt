-- ===== src/Execution/Current.antt =====
-- The row of a cohort agrees with its components once it is computed again.
use books_of_time.Base.{
  ℕ, ◌≡◌, refl, inl, inr, true, false, none, some, List, [], ◌∷◌, map, length, ◌==◌, if◌then◌else◌,
  Bool, false, filter, ltb, sym, Bool-cases, Result-cases, arith, ok,
}
use books_of_time.Base.Rows.{sort_by}
use books_of_time.Cohort.Types.{CohortComponentStatus, CohortStatus}
use books_of_time.Cohort.Status.{aggregate_cohort_status, aggregate_required}
use books_of_time.Execution.Recompute.{
  recompute_cohort, components_of, outcome_of, is_finished, recomputed, count_done,
}
use books_of_time.Execution.{Touched, finish_component, is_shadow_planned}
use books_of_time.Store.{
  SnapshotCohort, SnapshotCohortComponent, Db, save_cohort, save_component, cohort_with_id,
  component_with_id,
}

same_number : (n : ℕ) → (n == n) ≡ true
same_number n = ground arith

-- The row that is saved is the row that is found.
cohort_saved :
    (c : SnapshotCohort) (rows : List SnapshotCohort) {old : SnapshotCohort}
    → cohort_with_id rows c.id ≡ some old
    → cohort_with_id (map (λ (r : SnapshotCohort). if r.id == c.id then c else r) rows) c.id
      ≡ some c
cohort_saved c [] f = absurd (ground arith)
cohort_saved c (r ∷ rows) {old} f = elim (Bool-cases (r.id == c.id)) [
  | inl e ↦ rw (e, same_number c.id) refl
  | inr e ↦
      let rest : cohort_with_id rows c.id ≡ some old = ground arith in
      rw (e, e, cohort_saved c rows rest) refl
]

component_saved :
    (c : SnapshotCohortComponent) (rows : List SnapshotCohortComponent)
    {old : SnapshotCohortComponent}
    → component_with_id rows c.id ≡ some old
    → component_with_id
        (map (λ (r : SnapshotCohortComponent). if r.id == c.id then c else r) rows)
        c.id
      ≡ some c
component_saved c [] f = absurd (ground arith)
component_saved c (r ∷ rows) {old} f = elim (Bool-cases (r.id == c.id)) [
  | inl e ↦ rw (e, same_number c.id) refl
  | inr e ↦
      let rest : component_with_id rows c.id ≡ some old = ground arith in
      rw (e, e, component_saved c rows rest) refl
]

-- The components of the cohort, by their ids.
abbrev of_cohort : (id : ℕ) → List SnapshotCohortComponent → List SnapshotCohortComponent
of_cohort id cs =
    sort_by (λ (x : SnapshotCohortComponent) (y : SnapshotCohortComponent). ltb x.id y.id)
      (filter (λ (c : SnapshotCohortComponent). c.cohort_id == id) cs)

abbrev is_done : SnapshotCohortComponent → Bool
is_done c = elim (c.status) [
  | CohortComponentStatus.complete ↦ true
  | CohortComponentStatus.not_applicable ↦ true
  | _ ↦ false
]

-- A status that ends a cohort.
abbrev is_last : CohortStatus → Bool
is_last CohortStatus.complete = true
is_last CohortStatus.partial = true
is_last CohortStatus.missed = true
is_last CohortStatus.corrupted = true
is_last CohortStatus.not_applicable = true
is_last _ = false

-- The row says, since `at`, what the components of the cohort give: the status, how many there are,
-- how many are done, and that it has ended, if it has.
pub record IsCurrent (at : ℕ) (d : Db) (row : SnapshotCohort) : Type 0 where
  pub status :
      aggregate_cohort_status (map outcome_of (of_cohort row.id d.components)) ≡ ok row.status
  pub expected : row.expected_component_count ≡ length (of_cohort row.id d.components)
  pub completed :
      row.completed_component_count ≡ length (filter is_done (of_cohort row.id d.components))
  pub finished : row.finished_at ≡ (if is_last row.status then some at else none)

count_done_eq : (cs : List SnapshotCohortComponent) → count_done cs ≡ length (filter is_done cs)
count_done_eq [] = refl
count_done_eq (c ∷ cs) = ground (arith, count_done_eq cs)

components_of_eq :
    (id : ℕ) (cs : List SnapshotCohortComponent) → components_of id cs ≡ of_cohort id cs
unfolding components_of
components_of_eq id cs = refl

is_finished_eq : (s : CohortStatus) → is_finished s ≡ is_last s
is_finished_eq s = ground arith

-- `_recompute_cohort` that returns leaves in the row of the cohort, which is there, the status that
-- the components of the cohort give, their number, the number of those that are complete or not
-- applicable, and as its end the time given if the status is complete, partial, missed,
-- corrupted or not applicable, and else none. The components stay as they are.
pub recompute_cohort-IsCurrent :
    (cohort : SnapshotCohort) (finished_at : ℕ) (d : Db) {old : SnapshotCohort} {d' : Db}
    → cohort_with_id d.cohorts cohort.id ≡ some old
    → recompute_cohort cohort finished_at d ≡ ok d'
    → (row : SnapshotCohort) × (cohort_with_id d'.cohorts cohort.id ≡ some row)
      × IsCurrent finished_at d' row
      × (d'.components ≡ d.components)
unfolding recompute_cohort save_cohort recomputed
recompute_cohort-IsCurrent cohort finished_at d {old} {d'} f h =
    let components = components_of cohort.id d.components in
    elim (Result-cases (aggregate_cohort_status (map outcome_of components))) [
      | inl (e, a) ↦ absurd (ground arith)
      | inr (status, a) ↦
          let row = recomputed status components finished_at cohort in
          let cohorts : d'.cohorts
              ≡ map (λ (r : SnapshotCohort). if r.id == cohort.id then row else r) d.cohorts =
            ground arith in
          let same : d'.components ≡ d.components = ground arith in
          (
            row,
            rw cohorts (cohort_saved row d.cohorts f),
            record {
              status = rw (same, sym (components_of_eq cohort.id d.components)) a;
              expected = rw (same, sym (components_of_eq cohort.id d.components)) refl;
              completed =
                  rw (same, sym (components_of_eq cohort.id d.components))
                    (count_done_eq components);
              finished = rw (is_finished_eq status) refl;
            },
            same,
          )
    ]

pub is_shadow_aggregate :
    (at : ℕ) (d : Db) (row : SnapshotCohort)
    → IsCurrent at d row
    → is_shadow_planned row.status ≡ false
unfolding aggregate_cohort_status aggregate_required
is_shadow_aggregate at d row w = let s = w.status in ground arith

pub component_with_id-id :
    (rows : List SnapshotCohortComponent) (id : ℕ) {c : SnapshotCohortComponent}
    → component_with_id rows id ≡ some c
    → c.id ≡ id
component_with_id-id [] id f = absurd (ground arith)
component_with_id-id (r ∷ rows) id {c} f = elim (Bool-cases (r.id == id)) [
  | inl e ↦ ground arith
  | inr e ↦
      let rest : component_with_id rows id ≡ some c = ground arith in
      component_with_id-id rows id rest
]

pub cohort_with_id-id :
    (rows : List SnapshotCohort) (id : ℕ) {c : SnapshotCohort}
    → cohort_with_id rows id ≡ some c
    → c.id ≡ id
cohort_with_id-id [] id f = absurd (ground arith)
cohort_with_id-id (r ∷ rows) id {c} f = elim (Bool-cases (r.id == id)) [
  | inl e ↦ ground arith
  | inr e ↦
      let rest : cohort_with_id rows id ≡ some c = ground arith in cohort_with_id-id rows id rest
]

pub finish_component-found :
    (cohort : SnapshotCohort) (component : SnapshotCohortComponent) (finished_at : ℕ) (d : Db)
    {old : SnapshotCohort} {before : SnapshotCohortComponent} {out : Touched}
    → cohort_with_id d.cohorts cohort.id ≡ some old
    → component_with_id d.components component.id ≡ some before
    → finish_component cohort component finished_at d ≡ ok out
    → (row : SnapshotCohort) × (cohort_with_id out.1.cohorts cohort.id ≡ some row)
      × IsCurrent finished_at out.1 row
      × (component_with_id out.1.components component.id ≡ some component)
unfolding finish_component save_component
finish_component-found cohort component finished_at d {out = out} f g h =
    let saved = save_component component d in
    elim (Result-cases (recompute_cohort cohort finished_at saved)) [
      | inl (e, r) ↦ absurd (ground arith)
      | inr (d', r) ↦
          let same : out.1 ≡ d' = ground arith in
          let (row, there, current, kept) =
            recompute_cohort-IsCurrent cohort finished_at saved f r in
          (
            row,
            rw same there,
            rw same current,
            rw (same, kept) (component_saved component d.components g),
          )
    ]

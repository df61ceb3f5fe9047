-- ===== src/Cohort/Tier/Assessment.antt =====
-- Theorems about `apply_tier_assessment`, and about a row of assessments in which each starts from
-- what `VideoCollectionStateRepository.apply_assessment` stored of the one before it.
use books_of_time.Base.{
  ℕ, zero, suc, ◌+◌, ◌≤◌, ◌<◌, ◌≡◌, refl, ap, ◌∙◌, ◌⊎◌, inl, inr, Option, none, some, List, [], ◌∷◌,
  arith, length, replicate, ok,
}
use books_of_time.Base.Int.{pos}
use books_of_time.Cohort.Types.{CollectionTier, TierAssessment, CohortPolicy}
use books_of_time.Cohort.Tier.{tier_rank, assess, apply_tier_assessment}

-- One assessment from the stored state.
pub reassess : CohortPolicy → TierAssessment → CollectionTier → TierAssessment
unfolding assess
reassess policy t d =
    assess t.effective d t.candidate_downgrade t.consecutive_downgrade_count policy

pub reassess_all : CohortPolicy → TierAssessment → List CollectionTier → TierAssessment
reassess_all policy t [] = t
reassess_all policy t (d ∷ ds) = reassess_all policy (reassess policy t d) ds

-- The state in which nothing is pending.
abbrev pub settled_at : CollectionTier → TierAssessment
settled_at d = record {
  desired = d;
  effective = d;
  candidate_downgrade = none;
  consecutive_downgrade_count = 0;
}

-- What is stored between two assessments: no candidate and a count of zero, or a tier below the
-- one in effect that was asked for at least once and less often than has to be confirmed.
abbrev pub IsPendingWith : ℕ → CollectionTier → Option CollectionTier → ℕ → Type 0
IsPendingWith confirmations current none n = n ≡ 0
IsPendingWith confirmations current (some d) n =
    (tier_rank current < tier_rank d) × (0 < n) × (n < confirmations)

abbrev pub IsPending : CohortPolicy → TierAssessment → Type 0
IsPending policy t =
    IsPendingWith policy.downgrade_confirmations t.effective t.candidate_downgrade
      t.consecutive_downgrade_count

module _ (policy : CohortPolicy) where
  -- Whatever was stored before, an accepted assessment stores no candidate and a count of zero, or
  -- a candidate below the tier in effect whose count is at least one and below the number of
  -- confirmations. The tier in effect stays, or becomes the desired one; and where it becomes a
  -- lower one, the candidate and the count are cleared.
  pub apply_tier_assessment-IsPending :
      (current desired : CollectionTier) (candidate : Option CollectionTier) (n : ℕ)
      {u : TierAssessment}
      → apply_tier_assessment current desired candidate (pos n) policy ≡ ok u
      → IsPending policy u
        × ((u.effective ≡ current) ⊎ (u.effective ≡ desired))
        × ((tier_rank u.effective ≤ tier_rank current) ⊎ (u ≡ settled_at desired))
  unfolding apply_tier_assessment
  apply_tier_assessment-IsPending current desired candidate n h = ground arith

  -- The state while a downgrade to `d` waits for its confirmations.
  abbrev Waits : TierAssessment → CollectionTier → ℕ → Type 0
  Waits t d k =
      (t.candidate_downgrade ≡ some d)
      × (t.consecutive_downgrade_count ≡ k)
      × (tier_rank t.effective < tier_rank d)
      × (k < policy.downgrade_confirmations)

  reassess-settled_at : (d : CollectionTier) → reassess policy (settled_at d) d ≡ settled_at d
  unfolding reassess
  reassess-settled_at d = ground arith

  reassess_all-settled_at :
      (n : ℕ) (d : CollectionTier)
      → reassess_all policy (settled_at d) (replicate n d) ≡ settled_at d
  unfolding reassess_all
  reassess_all-settled_at zero d = refl
  reassess_all-settled_at (suc n) d =
      ap (λ t. reassess_all policy t (replicate n d)) (reassess-settled_at d)
      ∙ reassess_all-settled_at n d

  reassess_all_of_settled :
      (n : ℕ) (t : TierAssessment) (d : CollectionTier)
      → t ≡ settled_at d
      → reassess_all policy t (replicate n d) ≡ settled_at d
  reassess_all_of_settled n t d e = rw e (reassess_all-settled_at n d)

  reassess_waiting :
      (t : TierAssessment) (d : CollectionTier) (k : ℕ)
      → Waits t d k
      → (reassess policy t d ≡ settled_at d) ⊎ Waits (reassess policy t d) d (k + 1)
  unfolding reassess
  reassess_waiting t d k h = ground arith

  reassess_first :
      (t : TierAssessment) (d : CollectionTier)
      → let u = reassess policy t d in
        (u ≡ settled_at d)
        ⊎ (Waits u d u.consecutive_downgrade_count × (0 < u.consecutive_downgrade_count))
  unfolding reassess
  reassess_first t d = ground arith

  reassess_all_waiting :
      (n : ℕ) (t : TierAssessment) (d : CollectionTier) (k : ℕ)
      → Waits t d k
      → policy.downgrade_confirmations ≤ k + n
      → reassess_all policy t (replicate n d) ≡ settled_at d
  unfolding reassess_all
  reassess_all_waiting zero t d k w h = absurd (omega arith)
  reassess_all_waiting (suc n) t d k w h = elim (reassess_waiting t d k w) [
    | inl e ↦ reassess_all_of_settled n _ d e
    | inr v ↦ reassess_all_waiting n (reassess policy t d) d (k + 1) v (omega arith)
  ]

  -- Whatever was stored, when the same tier is desired in as many assessments in a row as the
  -- policy asks for, and at least once, it is the tier in effect and nothing is pending.
  pub reassess_all-replicate :
      (n : ℕ) (t : TierAssessment) (d : CollectionTier)
      → policy.downgrade_confirmations ≤ suc n
      → reassess_all policy t (replicate (suc n) d) ≡ settled_at d
  unfolding reassess_all
  reassess_all-replicate n t d h = elim (reassess_first t d) [
    | inl e ↦ reassess_all_of_settled n _ d e
    | inr (w, p) ↦ reassess_all_waiting n (reassess policy t d) d _ w (omega arith)
  ]

  reassess_keeps :
      (t : TierAssessment) (d : CollectionTier)
      → t.consecutive_downgrade_count + 1 < policy.downgrade_confirmations
      → let u = reassess policy t d in
        (tier_rank u.effective ≤ tier_rank t.effective)
        × (u.consecutive_downgrade_count ≤ t.consecutive_downgrade_count + 1)
  unfolding reassess
  reassess_keeps t d h = ground arith

  -- Fewer assessments than are still missing for a confirmation never lower the tier in effect,
  -- whatever tiers they desire.
  pub reassess_all_short :
      (ds : List CollectionTier) (t : TierAssessment)
      → t.consecutive_downgrade_count + length ds < policy.downgrade_confirmations
      → tier_rank (reassess_all policy t ds).effective ≤ tier_rank t.effective
  unfolding reassess_all
  reassess_all_short [] t h = omega arith
  reassess_all_short (d ∷ ds) t h =
      let (kept, counted) = reassess_keeps t d (omega arith) in
      omega (arith, reassess_all_short ds (reassess policy t d) (omega arith))

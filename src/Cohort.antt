-- ===== src/Cohort.antt =====
-- domain/cohort_policy.py: when a video is collected, how closely, and how a cohort's parts add
-- up to its status. `Types` has the enums and dataclasses; each other child follows a group of the
-- module's functions, and the theorems stand below it.
pub mod Types
pub mod Tier
pub mod Status
pub mod Timing
pub mod Stage
pub mod Samples

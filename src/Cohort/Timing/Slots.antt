-- ===== src/Cohort/Timing/Slots.antt =====
-- The slots that `next_aligned_slot` gives.
use books_of_time.Base.{
  ℕ, ◌+◌, ◌-◌, ◌*◌, ◌/◌, ◌≤◌, ◌<◌, ◌≡◌, ◌⊎◌, inl, inr, refl, Bool-cases, ltb, ltb→lt, arith, ok,
}
use books_of_time.Base.Int.{pos}
use books_of_time.Base.Time.{aware}
use books_of_time.Cohort.Timing.{slot_after, next_aligned_slot}

pub slot_after-lt : (a t i : ℕ) → 0 < i → a ≤ t → t < slot_after a t i
slot_after-lt a t i p h = grind arith

pub slot_after-le : (a t i : ℕ) → a ≤ t → slot_after a t i ≤ t + i
slot_after-le a t i h = grind arith

slot_after_least : (a t i k : ℕ) → 0 < i → a ≤ t → t < a + i * k → slot_after a t i ≤ a + i * k
slot_after_least a t i k p h l = grind arith

-- For aware times and a positive interval the result is a slot of the anchor, a whole number of
-- intervals behind it, that lies after now, and by no more than the interval where now is not
-- before the anchor.
pub next_aligned_slot-lt :
    (a t i : ℕ)
    → 0 < i
    → (r k : ℕ) × (next_aligned_slot (aware a) (aware t) (pos i) ≡ ok (aware r))
      × (r ≡ a + i * k)
      × (t < r)
      × ((r ≡ a) ⊎ (r ≤ t + i))
unfolding next_aligned_slot
next_aligned_slot-lt a t i p = elim (Bool-cases (ltb t a)) [
  | inl e ↦ (a, 0, ground arith, grind arith, ltb→lt t a e, inl refl)
  | inr e ↦
      let late : a ≤ t = ground arith in
      (
        slot_after a t i,
        (t - a) / i + 1,
        ground arith,
        refl,
        slot_after-lt a t i p late,
        inr (slot_after-le a t i late),
      )
]

-- The next aligned slot of a positive interval is the first one: no slot of the anchor that lies
-- after now comes before it.
pub next_aligned_slot_least :
    (a t i k : ℕ)
    → 0 < i
    → t < a + i * k
    → (r : ℕ) × (next_aligned_slot (aware a) (aware t) (pos i) ≡ ok (aware r)) × (r ≤ a + i * k)
unfolding next_aligned_slot
next_aligned_slot_least a t i k p h = elim (Bool-cases (ltb t a)) [
  | inl e ↦ (a, ground arith, omega arith)
  | inr e ↦
      let late : a ≤ t = ground arith in
      (slot_after a t i, ground arith, slot_after_least a t i k p late h)
]

-- ===== src/Base/Rows.antt =====
-- Queries on a table, a list of rows: ORDER BY with LIMIT, and the update of the rows that a test
-- selects. `before x y` holds where the ORDER BY puts x strictly before y; rows that it does not
-- tell apart keep the order of the table.
use Prim.Native.Nat.{ℕ, zero, suc, ◌≤◌}
use mathlib.Core.Path.{◌≡◌, refl, sym, ap, ◌∙◌}
use mathlib.Core.Logic.{inl, inr}
use mathlib.Core.Bool.{Bool, true, false, ◌||◌}
use mathlib.Core.Option.{Option, none, some}
use mathlib.Core.List.{List, [], ◌∷◌, map, Memᴰ}
use native.Mathlib.Omega.{arith}
use books_of_time.Base.Tests.{if◌then◌else◌, Bool-cases, Option-cases}
use books_of_time.Base.Lists.{length, any, filter}

module _ {ℓ} {A : Type ℓ} where
  abbrev pub take : ℕ → List A → List A
  take zero xs = []
  take (suc n) [] = []
  take (suc n) (x ∷ xs) = x ∷ take n xs

  pub length-take-le : (n : ℕ) (xs : List A) → length (take n xs) ≤ n
  length-take-le zero xs = omega arith
  length-take-le (suc n) [] = omega arith
  length-take-le (suc n) (x ∷ xs) = omega (arith, length-take-le n xs)

module _ {ℓ} {A : Type ℓ} (before : A → A → Bool) where
  abbrev pub nearer : A → Option A → A
  nearer x none = x
  nearer x (some y) = if before y x then y else x

  -- `ORDER BY … LIMIT 1`
  unfoldable pub pick : List A → Option A
  pick [] = none
  pick (x ∷ xs) = some (nearer x (pick xs))

  abbrev pub insert_by : A → List A → List A
  insert_by x [] = x ∷ []
  insert_by x (y ∷ ys) = if before y x then y ∷ insert_by x ys else x ∷ y ∷ ys

  -- `ORDER BY …`
  unfoldable pub sort_by : List A → List A
  sort_by [] = []
  sort_by (x ∷ xs) = insert_by x (sort_by xs)

  length-insert_by : (x : A) (ys : List A) → length (insert_by x ys) ≡ suc (length ys)
  length-insert_by x [] = refl
  length-insert_by x (y ∷ ys) = ground (arith, length-insert_by x ys)

  pub length-sort_by : (xs : List A) → length (sort_by xs) ≡ length xs
  unfolding sort_by
  length-sort_by [] = refl
  length-sort_by (x ∷ xs) = ground (arith, length-insert_by x (sort_by xs), length-sort_by xs)

  any-insert_by : (p : A → Bool) (x : A) (ys : List A) → any p (insert_by x ys) ≡ (p x || any p ys)
  any-insert_by p x [] = refl
  any-insert_by p x (y ∷ ys) = ground (arith, any-insert_by p x ys)

  pub any-sort_by : (p : A → Bool) (xs : List A) → any p (sort_by xs) ≡ any p xs
  unfolding sort_by
  any-sort_by p [] = refl
  any-sort_by p (x ∷ xs) = ground (arith, any-insert_by p x (sort_by xs), any-sort_by p xs)

  any-none : (p : A → Bool) (xs : List A) → pick xs ≡ none → any p xs ≡ false
  unfolding pick
  any-none p [] h = refl
  any-none p (x ∷ xs) h = cc

  any-false_mono :
      (p q : A → Bool)
      → ((x : A) → p x ≡ false → q x ≡ false)
      → (xs : List A) → any p xs ≡ false
      → any q xs ≡ false
  any-false_mono p q h [] m = refl
  any-false_mono p q h (x ∷ xs) m = ground (arith, h x, any-false_mono p q h xs)

  -- The row that is picked satisfies what every row does.
  pub pick-any :
      (p : A → Bool) (xs : List A) (x : A) → pick xs ≡ some x → p x ≡ true → any p xs ≡ true
  unfolding pick
  pick-any p [] x h t = cc
  pick-any p (y ∷ ys) x h t = elim (Option-cases (pick ys)) [
    | inl e ↦ ground arith
    | inr (z, e) ↦ ground (arith, pick-any p ys z e)
  ]

  module _ (asym : (x y : A) → before x y ≡ true → before y x ≡ false)
      (trans : (x y z : A) → before y x ≡ false → before z y ≡ false → before z x ≡ false) where
    -- What the ORDER BY puts first: no row is strictly before it.
    pub pick_least : (xs : List A) (x : A) → pick xs ≡ some x → any (λ y. before y x) xs ≡ false
    unfolding pick
    pick_least [] x h = cc
    pick_least (y ∷ ys) x h = elim (Option-cases (pick ys)) [
      | inl e ↦ ground (arith, any-none (λ w. before w y) ys e, asym y y)
      | inr (z, e) ↦ ground (
        arith,
        pick_least ys z e,
        asym z y,
        asym y y,
        λ (q : before z y ≡ false).
            any-false_mono (λ w. before w z) (λ w. before w y) (λ w r. trans y z w q r) ys,
      )
    ]

module _ {ℓ} {A : Type ℓ} where
  cons-Memᴰ :
      (p : A → Bool) {x y : A} {ys zs : List A}
      → p y ≡ true
      → (Memᴰ x zs → Memᴰ x ys × (p x ≡ true))
      → Memᴰ x (y ∷ zs)
      → Memᴰ x (y ∷ ys) × (p x ≡ true)
  cons-Memᴰ p h rest (Memᴰ.head e) = (Memᴰ.head e, ground arith)
  cons-Memᴰ p h rest (Memᴰ.tail n) = let (m, q) = rest n in (Memᴰ.tail m, q)

  -- A row of a result is a row of the table that passed the test.
  pub filter-Memᴰ :
      (p : A → Bool) {x : A} (xs : List A) → Memᴰ x (filter p xs) → Memᴰ x xs × (p x ≡ true)
  filter-Memᴰ p [] m = elim m [ ]
  filter-Memᴰ p {x} (y ∷ ys) m = elim (Bool-cases (p y)) [
    | inl e ↦ cons-Memᴰ p e (filter-Memᴰ p ys) (rw e at m)
    | inr e ↦ let (n, h) = filter-Memᴰ p ys (rw e at m) in (Memᴰ.tail n, h)
  ]

  pub pick-Memᴰ :
      (before : A → A → Bool) {x : A} (xs : List A) → pick before xs ≡ some x → Memᴰ x xs
  unfolding pick
  pick-Memᴰ before [] h = cc
  pick-Memᴰ before {x} (y ∷ ys) h = elim (Option-cases (pick before ys)) [
    | inl e ↦ Memᴰ.head (ground arith)
    | inr (z, e) ↦ elim (Bool-cases (before z y)) [
      | inl b ↦ Memᴰ.tail (pick-Memᴰ before ys (ground arith))
      | inr b ↦ Memᴰ.head (ground arith)
    ]
  ]

  pub map-Memᴰ {κ} :
      {B : Type κ} (f : A → B) {x : A} {xs : List A} → Memᴰ x xs → Memᴰ (f x) (map f xs)
  map-Memᴰ f (Memᴰ.head e) = Memᴰ.head (ap f e)
  map-Memᴰ f (Memᴰ.tail m) = Memᴰ.tail (map-Memᴰ f m)

  pub Memᴰ-filter :
      (p : A → Bool) {x : A} {xs : List A} → Memᴰ x xs → p x ≡ true → Memᴰ x (filter p xs)
  Memᴰ-filter p (Memᴰ.head e) h = rw (ap p (sym e) ∙ h) (Memᴰ.head e)
  Memᴰ-filter p {xs = y ∷ ys} (Memᴰ.tail m) h = elim (Bool-cases (p y)) [
    | inl e ↦ rw e (Memᴰ.tail (Memᴰ-filter p m h))
    | inr e ↦ rw e (Memᴰ-filter p m h)
  ]

  -- A query that some row satisfies picks a row.
  pub pick-some :
      (before : A → A → Bool) {x : A} {xs : List A}
      → Memᴰ x xs
      → (y : A) × (pick before xs ≡ some y)
  unfolding pick
  pick-some before {xs = []} m = elim m [ ]
  pick-some before {xs = y ∷ ys} (Memᴰ.head e) = (nearer before y (pick before ys), refl)
  pick-some before {xs = y ∷ ys} (Memᴰ.tail m) = (nearer before y (pick before ys), refl)

  pub any-false-Memᴰ :
      (p : A → Bool) {x : A} {xs : List A} → any p xs ≡ false → Memᴰ x xs → p x ≡ false
  any-false-Memᴰ p a (Memᴰ.head e) = ground arith
  any-false-Memᴰ p a (Memᴰ.tail m) = any-false-Memᴰ p (ground arith) m

  pub take_of_length-le : (limit : ℕ) (rows : List A) → length rows ≤ limit → take limit rows ≡ rows
  take_of_length-le (suc limit) (row ∷ rows) h =
      ap (◌∷◌ row) (take_of_length-le limit rows (omega arith))
  take_of_length-le (suc limit) [] h = refl
  take_of_length-le zero (row ∷ rows) h = absurd (omega arith)
  take_of_length-le zero [] h = refl

  pub any-take : (p : A → Bool) (n : ℕ) (xs : List A) → any p (take n xs) ≡ true → any p xs ≡ true
  any-take p zero xs h = cc
  any-take p (suc n) [] h = h
  any-take p (suc n) (x ∷ xs) h = ground (arith, any-take p n xs)

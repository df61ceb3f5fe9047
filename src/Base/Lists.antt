-- ===== src/Base/Lists.antt =====
-- Lists measured by native numbers, Python's `any` and `all`, and membership by a Boolean test.
use Prim.Native.Nat.{ℕ, zero, suc, ◌+◌, ◌≤◌}
use mathlib.Core.Path.{◌≡◌, refl}
use mathlib.Core.Bool.{Bool, true, false, not, ◌&&◌, ◌||◌}
use mathlib.Core.List.{List, [], ◌∷◌, ◌++◌, map}
use native.Mathlib.Omega.{arith}
use books_of_time.Base.Tests.{if◌then◌else◌}

module _ {ℓ} {A : Type ℓ} where
  abbrev pub length : List A → ℕ
  length [] = 0
  length (x ∷ xs) = suc (length xs)

  abbrev pub replicate : ℕ → A → List A
  replicate zero a = []
  replicate (suc n) a = a ∷ replicate n a

  -- `any(p(x) for x in xs)`
  abbrev pub any : (A → Bool) → List A → Bool
  any p [] = false
  any p (x ∷ xs) = p x || any p xs

  -- `all(p(x) for x in xs)`
  abbrev pub all : (A → Bool) → List A → Bool
  all p [] = true
  all p (x ∷ xs) = p x && all p xs

  -- `tuple(x for x in xs if p(x))`
  abbrev pub filter : (A → Bool) → List A → List A
  filter p [] = []
  filter p (x ∷ xs) = if p x then x ∷ filter p xs else filter p xs

  -- A predicate that holds of every element.
  abbrev pub All {κ} : (A → Type κ) → List A → Type κ
  All P [] = Unit
  All P (x ∷ xs) = P x × All P xs

  pub length-append : (xs ys : List A) → length (xs ++ ys) ≡ length xs + length ys
  length-append [] ys = omega arith
  length-append (x ∷ xs) ys = omega (arith, length-append xs ys)

  pub length-filter-le : (p : A → Bool) (xs : List A) → length (filter p xs) ≤ length xs
  length-filter-le p [] = omega arith
  length-filter-le p (x ∷ xs) = ground (arith, length-filter-le p xs)

module _ {ℓ} {A : Type ℓ} (p q : A → Bool) where
  pub any_mono :
      ((x : A) → p x ≡ true → q x ≡ true) → (xs : List A) → any p xs ≡ true → any q xs ≡ true
  any_mono h [] m = m
  any_mono h (x ∷ xs) m = ground (arith, h x, any_mono h xs)

  -- Where the tests exclude one another, `all` of one and `any` of the other do.
  pub all-any-false :
      ((x : A) → p x ≡ true → q x ≡ false) → (xs : List A) → all p xs ≡ true → any q xs ≡ false
  all-any-false h [] m = refl
  all-any-false h (x ∷ xs) m = ground (arith, h x, all-any-false h xs)

  pub any-all-false :
      ((x : A) → p x ≡ true → q x ≡ false) → (xs : List A) → any p xs ≡ true → all q xs ≡ false
  any-all-false h [] m = cc
  any-all-false h (x ∷ xs) m = ground (arith, h x, any-all-false h xs)

module _ {ℓ κ} {A : Type ℓ} {B : Type κ} (p : B → Bool) (f : A → B) where
  pub any-map : (xs : List A) → any p (map f xs) ≡ any (λ x. p (f x)) xs
  any-map [] = refl
  any-map (x ∷ xs) = ground (arith, any-map xs)

  pub all-map : (xs : List A) → all p (map f xs) ≡ all (λ x. p (f x)) xs
  all-map [] = refl
  all-map (x ∷ xs) = ground (arith, all-map xs)

pub all-not-any {ℓ} :
    {A : Type ℓ} (p : A → Bool) (xs : List A) → all p xs ≡ not (any (λ x. not (p x)) xs)
all-not-any p [] = refl
all-not-any p (x ∷ xs) = ground (arith, all-not-any p xs)

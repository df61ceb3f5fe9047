-- ===== src/Base/Perms.antt =====
-- What the list functions of `Lists` keep when a list is put in another order.
use mathlib.Core.Path.{◌≡◌, refl, ap, ◌∙◌}
use mathlib.Core.Bool.{Bool, true, false}
use mathlib.Core.List.{List, ◌∷◌, Permᴰ}
use mathlib.Core.List.Permᴰ
use native.Mathlib.Omega.{arith}
use books_of_time.Base.Tests.{if◌then◌else◌}
use books_of_time.Base.Lists.{any, all, filter}

module _ {ℓ} {A : Type ℓ} where
  abbrev keep : Bool → A → List A → List A
  keep t a l = if t then a ∷ l else l

  keep-perm :
      (t u : Bool) {a b : A} {l m : List A}
      → t ≡ u
      → a ≡ b
      → Permᴰ l m
      → Permᴰ (keep t a l) (keep u b m)
  keep-perm true true q e d = Permᴰ.cons e d
  keep-perm true false q e d = cc
  keep-perm false true q e d = cc
  keep-perm false false q e d = d

  keep_swap :
      (t u t' u' : Bool) {a b a' b' : A} (l : List A)
      → t ≡ u'
      → u ≡ t'
      → a ≡ b'
      → b ≡ a'
      → Permᴰ (keep t a (keep u b l)) (keep t' a' (keep u' b' l))
  keep_swap true true true true l q r e f = Permᴰ.swap e f
  keep_swap true false false true l q r e f = Permᴰ.cons e (Permᴰ.refl l)
  keep_swap false true true false l q r e f = Permᴰ.cons f (Permᴰ.refl l)
  keep_swap false false false false l q r e f = Permᴰ.refl l
  keep_swap t u t' u' l q r e f = absurd (cc)

module _ {ℓ} {A : Type ℓ} (p : A → Bool) where
  pub any-perm : {xs ys : List A} → Permᴰ xs ys → any p xs ≡ any p ys
  any-perm Permᴰ.nil = refl
  any-perm (Permᴰ.cons e d) = ground (arith, any-perm d)
  any-perm (Permᴰ.swap e f) = ground arith
  any-perm (Permᴰ.trans d f) = any-perm d ∙ any-perm f

  pub all-perm : {xs ys : List A} → Permᴰ xs ys → all p xs ≡ all p ys
  all-perm Permᴰ.nil = refl
  all-perm (Permᴰ.cons e d) = ground (arith, all-perm d)
  all-perm (Permᴰ.swap e f) = ground arith
  all-perm (Permᴰ.trans d f) = all-perm d ∙ all-perm f

  pub filter-perm : {xs ys : List A} → Permᴰ xs ys → Permᴰ (filter p xs) (filter p ys)
  filter-perm Permᴰ.nil = Permᴰ.nil
  filter-perm (Permᴰ.cons {a = a} {b = b} e d) = keep-perm (p a) (p b) (ap p e) e (filter-perm d)
  filter-perm (Permᴰ.swap {a = a} {b = b} {a' = a'} {b' = b'} {l = l} e f) =
      keep_swap (p a) (p b) (p a') (p b') (filter p l) (ap p e) (ap p f) e f
  filter-perm (Permᴰ.trans d f) = Permᴰ.trans (filter-perm d) (filter-perm f)

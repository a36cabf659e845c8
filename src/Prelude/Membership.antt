-- ===== src/Prelude/Membership.antt =====
-- Membership by a test, and what it says of `every`, `exists`, `keep` and `unique`.
use mathlib.Core.Path.{◌≡◌, refl}
use mathlib.Core.Logic.{inl, inr}
use mathlib.Core.Bool.{Bool, true, ◌&&◌}
use mathlib.Core.List.{List, [], ◌∷◌}
use native.Mathlib.Omega.{arith}
use cgull.Prelude.Tests.{||_iff, &&_iff}
use cgull.Prelude.Lists.{every, exists, keep}
use cgull.Prelude.Keys.{Eq, elem, unique, beq_refl}

module _ {ℓ} {A : Type ℓ} ⦃e : Eq A⦄ where
  pub every-elem :
      (p : A → Bool) (x : A) (xs : List A) → elem x xs ≡ true → every p xs ≡ true → p x ≡ true
  every-elem p x [] m h = cc
  every-elem p x (y ∷ xs) m h = ground (arith, e.beq_iff x y, every-elem p x xs)

  pub exists-elem :
      (p : A → Bool) (x : A) (xs : List A) → elem x xs ≡ true → p x ≡ true → exists p xs ≡ true
  exists-elem p x [] m h = cc
  exists-elem p x (y ∷ xs) m h = ground (arith, e.beq_iff x y, exists-elem p x xs)

  pub elem-cons_tail : (x y : A) (xs : List A) → elem x xs ≡ true → elem x (y ∷ xs) ≡ true
  elem-cons_tail x y xs m = ground arith

  pub every_intro :
      (p : A → Bool) (xs : List A) → ((x : A) → elem x xs ≡ true → p x ≡ true) → every p xs ≡ true
  every_intro p [] f = refl
  every_intro p (y ∷ xs) f = (&&_iff _ _).1 (
    f y ((||_iff _ _).1 (inl (beq_refl y))),
    every_intro p xs (λ x m. f x (elem-cons_tail x y xs m)),
  )

  pub exists_inv :
      (p : A → Bool) (xs : List A)
      → exists p xs ≡ true
      → (x : A) × (elem x xs ≡ true) × (p x ≡ true)
  exists_inv p [] h = cc
  exists_inv p (y ∷ xs) h = elim ((||_iff _ _).0 h) [
    | inl here ↦ (y, (||_iff _ _).1 (inl (beq_refl y)), here)
    | inr there ↦ let (x, m, px) = exists_inv p xs there in (x, elem-cons_tail x y xs m, px)
  ]

  pub elem-keep : (p : A → Bool) (x : A) (xs : List A) → elem x (keep p xs) ≡ (elem x xs && p x)
  elem-keep p x [] = refl
  elem-keep p x (y ∷ xs) = ground (arith, e.beq_iff x y, elem-keep p x xs)

  pub every-unique : (p : A → Bool) (xs : List A) → every p (unique xs) ≡ every p xs
  every-unique p [] = refl
  every-unique p (x ∷ xs) = ground (arith, every-unique p xs, every-elem p x (unique xs))

  pub exists-unique : (p : A → Bool) (xs : List A) → exists p (unique xs) ≡ exists p xs
  exists-unique p [] = refl
  exists-unique p (x ∷ xs) = ground (arith, exists-unique p xs, exists-elem p x (unique xs))

-- ===== src/Prelude/Keys.antt =====
-- Decidable keys: an interface for equality, membership in a list, and dictionaries as
-- association lists whose newest entry stands first.
use Prim.Native.Nat.{ℕ}
use Prim.Native.String.{String}
use Prim.Native.Char.{code}
use mathlib.Core.Path.{◌≡◌, refl}
use mathlib.Core.Logic.{◌↔◌, ◌⊎◌, inl, inr, ◌≢◌}
use mathlib.Core.Bool.{Bool, true, false, ◌&&◌, ◌||◌}
use mathlib.Core.List.{List, [], ◌∷◌, ◌++◌}
use mathlib.Core.Option.{Option, none, some}
use native.Mathlib.Omega.{arith}
use cgull.Prelude.Tests.{if◌then◌else◌, eqb, eqb_iff, Bool-cases}

-- A text is the list of its code points.
abbrev pub Text : Type 0
Text = List ℕ

abbrev pub codes : String → Text
codes String.[] = []
codes (String.◌∷◌ c s) = code c ∷ codes s

-- The Python `==` of a type.
pub record Eq {ℓ} (Key : Type ℓ) : Type ℓ where
  pub beq : Key → Key → Bool
  pub beq_iff : (j k : Key) → (beq j k ≡ true) ↔ (j ≡ k)

instance abbrev pub nat_eq : Eq ℕ
nat_eq = record { beq = eqb; beq_iff = eqb_iff }

infix 50 ◌==◌
abbrev pub ◌==◌ {ℓ} : {Key : Type ℓ} ⦃equality : Eq Key⦄ → Key → Key → Bool
◌==◌ ⦃equality⦄ = equality.beq

module _ {ℓ} {A : Type ℓ} ⦃e : Eq A⦄ where
  unfoldable pub list_beq : List A → List A → Bool
  list_beq [] [] = true
  list_beq (x ∷ xs) (y ∷ ys) = x == y && list_beq xs ys
  list_beq xs ys = false

  pub list_beq_iff : (xs ys : List A) → (list_beq xs ys ≡ true) ↔ (xs ≡ ys)
  unfolding list_beq
  list_beq_iff [] [] = (λ h. refl, λ h. refl)
  list_beq_iff [] (y ∷ ys) = (λ h. cc, λ h. cc)
  list_beq_iff (x ∷ xs) [] = (λ h. cc, λ h. cc)
  list_beq_iff (x ∷ xs) (y ∷ ys) = ground (arith, e.beq_iff x y, list_beq_iff xs ys)

instance abbrev pub text_eq : Eq Text
unfolding list_beq
text_eq = record { beq = list_beq; beq_iff = list_beq_iff }

module _ {ℓ} {A : Type ℓ} ⦃e : Eq A⦄ where
  pub beq_refl : (a : A) → (a == a) ≡ true
  beq_refl a = (e.beq_iff a a).1 refl

  abbrev pub elem : A → List A → Bool
  elem a [] = false
  elem a (x ∷ xs) = a == x || elem a xs

  -- One occurrence of each value: what iterating over `set(xs)` visits, in some order.
  abbrev pub unique : List A → List A
  unique [] = []
  unique (x ∷ xs) = let rest = unique xs in if elem x rest then rest else x ∷ rest

  pub elem-append : (a : A) (xs ys : List A) → elem a (xs ++ ys) ≡ (elem a xs || elem a ys)
  elem-append a [] ys = refl
  elem-append a (x ∷ xs) ys = ground (arith, elem-append a xs ys)

  pub elem-unique : (a : A) (xs : List A) → elem a (unique xs) ≡ elem a xs
  elem-unique a [] = refl
  elem-unique a (x ∷ xs) = ground (arith, elem-unique a xs, elem-unique x xs, e.beq_iff a x)

module _ {ℓ κ} {K : Type ℓ} {V : Type κ} ⦃e : Eq K⦄ where
  abbrev pub lookup : K → List (K × V) → Option V
  lookup k [] = none
  lookup k ((j, v) ∷ m) = if j == k then some v else lookup k m

  -- What a dictionary holds after `m[j] = v`.
  pub lookup-cons :
      (k j : K) (v : V) (m : List (K × V)) {w : V}
      → lookup k ((j, v) ∷ m) ≡ some w
      → ((j ≡ k) × (v ≡ w)) ⊎ (j ≢ k) × (lookup k m ≡ some w)
  lookup-cons k j v m h = elim (Bool-cases (j == k)) [
    | inl s ↦ inl ((e.beq_iff j k).0 s, ground arith)
    | inr d ↦ inr (λ q. cc ((e.beq_iff j k).1 q, d), ground arith)
  ]

  pub lookup-cons_self : (k : K) (v : V) (m : List (K × V)) → lookup k ((k, v) ∷ m) ≡ some v
  lookup-cons_self k v m = rw (beq_refl k)

  pub lookup-cons_ne :
      (k j : K) (v : V) (m : List (K × V)) → j ≢ k → lookup k ((j, v) ∷ m) ≡ lookup k m
  lookup-cons_ne k j v m d = elim (Bool-cases (j == k)) [
    | inl s ↦ absurd (d ((e.beq_iff j k).0 s))
    | inr f ↦ rw f
  ]

  pub lookup-cons_none :
      (k j : K) (v : V) (m : List (K × V)) → lookup k ((j, v) ∷ m) ≡ none → lookup k m ≡ none
  lookup-cons_none k j v m h = ground arith

module _ {ℓ κ} {A : Type ℓ} {B : Type κ} ⦃e : Eq A⦄ ⦃f : Eq B⦄ where
  pub pair_beq_iff : (p q : A × B) → ((p.0 == q.0 && p.1 == q.1) ≡ true) ↔ (p ≡ q)
  pair_beq_iff p q = ground (arith, e.beq_iff p.0 q.0, f.beq_iff p.1 q.1)

  instance abbrev pub pair_eq : Eq (A × B)
  pair_eq = record { beq = λ p q. p.0 == q.0 && p.1 == q.1; beq_iff = pair_beq_iff }

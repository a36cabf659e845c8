-- ===== src/Prelude/Lists.antt =====
-- Lists measured and indexed by native numbers, under the library's names.
use Prim.Native.Nat.{ℕ, zero, suc, ◌+◌, ◌<◌}
use mathlib.Core.Path.{◌≡◌, refl}
use mathlib.Core.Bool.{Bool, true, false, ◌&&◌, ◌||◌}
use mathlib.Core.List.{List, [], ◌∷◌, ◌++◌, map}
use mathlib.Core.Option.{Option, none, some}
use native.Mathlib.Omega.{arith}
use mathlib.Core.Logic.{inl, inr}
use cgull.Prelude.Tests.{if◌then◌else◌, Bool-cases}

module _ {ℓ} {A : Type ℓ} where
  abbrev pub length : List A → ℕ
  length [] = 0
  length (x ∷ xs) = suc (length xs)

  abbrev pub get_elem? : List A → ℕ → Option A
  get_elem? [] i = none
  get_elem? (x ∷ xs) zero = some x
  get_elem? (x ∷ xs) (suc i) = get_elem? xs i

  abbrev pub get_or : List A → ℕ → A → A
  get_or [] i d = d
  get_or (x ∷ xs) zero d = x
  get_or (x ∷ xs) (suc i) d = get_or xs i d

  -- Python's `all` and `any` of a test, and a comprehension with one test.
  abbrev pub every : (A → Bool) → List A → Bool
  every p [] = true
  every p (x ∷ xs) = p x && every p xs

  abbrev pub exists : (A → Bool) → List A → Bool
  exists p [] = false
  exists p (x ∷ xs) = p x || exists p xs

  abbrev pub keep : (A → Bool) → List A → List A
  keep p [] = []
  keep p (x ∷ xs) = let rest = keep p xs in if p x then x ∷ rest else rest

  pub length-append : (xs ys : List A) → length (xs ++ ys) ≡ length xs + length ys
  length-append [] ys = omega arith
  length-append (x ∷ xs) ys = omega (arith, length-append xs ys)

  pub get_or-append :
      (xs ys : List A) (i : ℕ) (d : A) → i < length xs → get_or (xs ++ ys) i d ≡ get_or xs i d
  get_or-append [] ys i d h = elim h [ ]
  get_or-append (x ∷ xs) ys zero d h = refl
  get_or-append (x ∷ xs) ys (suc i) d h = get_or-append xs ys i d (omega arith)

  pub get_or-append_last : (xs : List A) (x d : A) → get_or (xs ++ x ∷ []) (length xs) d ≡ x
  get_or-append_last [] x d = refl
  get_or-append_last (y ∷ xs) x d = get_or-append_last xs x d

  pub get_elem?-append :
      (xs ys : List A) (i : ℕ) → i < length xs → get_elem? (xs ++ ys) i ≡ get_elem? xs i
  get_elem?-append [] ys i h = elim h [ ]
  get_elem?-append (x ∷ xs) ys zero h = refl
  get_elem?-append (x ∷ xs) ys (suc i) h = get_elem?-append xs ys i (omega arith)

  pub get_elem?-append_last : (xs : List A) (x : A) → get_elem? (xs ++ x ∷ []) (length xs) ≡ some x
  get_elem?-append_last [] x = refl
  get_elem?-append_last (y ∷ xs) x = get_elem?-append_last xs x

  pub get_elem?-lt : (xs : List A) (i : ℕ) {x : A} → get_elem? xs i ≡ some x → i < length xs
  get_elem?-lt [] i h = cc
  get_elem?-lt (x ∷ xs) zero h = omega arith
  get_elem?-lt (x ∷ xs) (suc i) h = omega (arith, get_elem?-lt xs i h)

  pub get_elem?_total : (xs : List A) (i : ℕ) → i < length xs → (x : A) × (get_elem? xs i ≡ some x)
  get_elem?_total [] i h = elim h [ ]
  get_elem?_total (x ∷ xs) zero h = (x, refl)
  get_elem?_total (x ∷ xs) (suc i) h = get_elem?_total xs i (omega arith)

  pub get_elem?-get_or :
      (xs : List A) (i : ℕ) (d : A) {x : A} → get_elem? xs i ≡ some x → get_or xs i d ≡ x
  get_elem?-get_or [] i d h = cc
  get_elem?-get_or (x ∷ xs) zero d h = cc
  get_elem?-get_or (x ∷ xs) (suc i) d h = get_elem?-get_or xs i d h

  pub every-append :
      (p : A → Bool) (xs ys : List A) → every p (xs ++ ys) ≡ (every p xs && every p ys)
  every-append p [] ys = refl
  every-append p (x ∷ xs) ys = ground (arith, every-append p xs ys)

  pub exists-append :
      (p : A → Bool) (xs ys : List A) → exists p (xs ++ ys) ≡ (exists p xs || exists p ys)
  exists-append p [] ys = refl
  exists-append p (x ∷ xs) ys = ground (arith, exists-append p xs ys)

-- Every entry has the property.
abbrev pub All {ℓ κ} : {A : Type ℓ} → (A → Type κ) → List A → Type κ
All P [] = Unit
All P (x ∷ xs) = P x × All P xs

pub All-keep {ℓ κ} :
    {A : Type ℓ} (P Q : A → Type κ) (p : A → Bool) (xs : List A)
    → ((x : A) → P x → p x ≡ true → Q x)
    → All P xs
    → All Q (keep p xs)
All-keep P Q p [] f h = tt
All-keep P Q p (x ∷ xs) f h = elim (Bool-cases (p x)) [
  | inl in_ ↦ rw in_ (f x h.0 in_, All-keep P Q p xs f h.1)
  | inr out_ ↦ rw out_ (All-keep P Q p xs f h.1)
]

pub All-imp {ℓ κ} :
    {A : Type ℓ} (P Q : A → Type κ) (xs : List A) → ((x : A) → P x → Q x) → All P xs → All Q xs
All-imp P Q [] f h = tt
All-imp P Q (x ∷ xs) f h = (f x h.0, All-imp P Q xs f h.1)

pub All-map {ℓ κ μ} :
    {A : Type ℓ} {B : Type κ} (P : A → Type μ) (Q : B → Type μ) (f : A → B) (xs : List A)
    → ((x : A) → P x → Q (f x))
    → All P xs
    → All Q (map f xs)
All-map P Q f [] g h = tt
All-map P Q f (x ∷ xs) g h = (g x h.0, All-map P Q f xs g h.1)

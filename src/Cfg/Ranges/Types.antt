-- ===== src/Cfg/Ranges/Types.antt =====
-- What C's integer types hold, apart from the intervals of `integer_type_range` and
-- `_portable_char_range` of cgull/cfg/integer_ranges.py. Whether a type is signed is read from its
-- name, as the module does.
use mathlib.Core.Option
use cgull.Prelude.{
  ℕ, zero, suc, ◌-◌, ◌*◌, ◌^◌, ◌≤◌, ℤ, pos, ◌+ℤ◌, ◌≤ℤ◌, neg_ℤ, int_laws, [], ◌∷◌, Option, none,
  some, ◌≡◌, ◌↔◌, refl, sym, ap, subst, ◌∙◌, inl, inr, arith, if◌then◌else◌, Bool-cases,
  Option-cases, Text, codes, map,
}
use cgull.Cfg.Ranges.{
  IntegerRange, between, Context, one_of, lower_code, is_unsigned_name, is_signed_name,
  unsigned_range, signed_range, named_range, integer_type_range, portable_char_range,
}
use cgull.Cfg.Ranges.Bounds.{In}

pub data Sign : Type 0 where
  unsigned signed : Sign

-- The sign and the width in bytes of an integer type, where both are known.
abbrev pub layout : Option Text → Option ℕ → Option (Sign × ℕ)
layout none width = none
layout (some []) width = none
layout (some resolved) none = none
layout (some resolved) (some width) =
    if one_of ("char" ∷ "time_t" ∷ []) (map lower_code resolved)
    then none
    else if is_unsigned_name (map lower_code resolved)
    then some (unsigned, width)
    else if is_signed_name (map lower_code resolved)
    then some (signed, width)
    else none

abbrev pub layout_of : Context → Text → Option (Sign × ℕ)
layout_of c t = layout (c.resolved t) (c.byte_size t)

-- The type of the width holds the value: an unsigned one of b bits those from 0 below 2 ^ b, a signed
-- one those from - 2 ^ (b - 1) below 2 ^ (b - 1).
abbrev pub Holds : Sign × ℕ → ℤ → Type 0
Holds (unsigned, w) v = (pos 0 ≤ℤ v) × ((v +ℤ pos 1) ≤ℤ pos (2 ^ (w * 8)))
Holds (signed, w) v = (neg_ℤ (pos (2 ^ (w * 8 - 1))) ≤ℤ v) × ((v +ℤ pos 1) ≤ℤ pos (2 ^ (w * 8 - 1)))

-- Plain `char` may be of either sign.
abbrev pub HoldsEither : ℕ → ℤ → Type 0
HoldsEither w v = Holds (unsigned, w) v × Holds (signed, w) v

abbrev pub layout_range : Sign × ℕ → IntegerRange
layout_range (unsigned, w) = unsigned_range (w * 8)
layout_range (signed, w) = signed_range (w * 8)

pub pow-positive : (n : ℕ) → 1 ≤ 2 ^ n
pow-positive zero = omega arith
pow-positive (suc n) = let h = pow-positive n in omega arith

pow-pred-le : (n : ℕ) → 2 ^ (n - 1) ≤ 2 ^ n
pow-pred-le zero = omega arith
pow-pred-le (suc n) =
    let h = pow-positive n in
    let e : 2 ^ (suc n - 1) ≡ 2 ^ n = ap (λ k. 2 ^ k) (omega arith) in omega (arith, e)

pub layout_range-In : (p : Sign × ℕ) (v : ℤ) → In v (layout_range p) ↔ Holds p v
layout_range-In (unsigned, w) v =
    let h = pow-positive (w * 8) in (λ k. (k.0, omega int_laws), λ k. (k.0, omega int_laws))
layout_range-In (signed, w) v =
    let h = pow-positive (w * 8 - 1) in (λ k. (k.0, omega int_laws), λ k. (k.0, omega int_laws))

named_range-layout :
    (o : Option Text) (w : Option ℕ) → named_range o w ≡ Option.map layout_range (layout o w)
unfolding named_range
named_range-layout none w = refl
named_range-layout (some []) w = refl
named_range-layout (some (k ∷ ks)) none = refl
named_range-layout (some (k ∷ ks)) (some w) =
    let n = map lower_code (k ∷ ks) in
    elim (Bool-cases (one_of ("char" ∷ "time_t" ∷ []) n)) [
      | inl plain ↦ rw plain refl
      | inr other_name ↦ elim (Bool-cases (is_unsigned_name n)) [
        | inl up ↦ rw (other_name, up) refl
        | inr down ↦ elim (Bool-cases (is_signed_name n)) [
          | inl known ↦ rw (other_name, down, known) refl
          | inr unknown ↦ rw (other_name, down, unknown) refl
        ]
      ]
    ]

pub integer_type_range-layout :
    (c : Context) (t : Text) → integer_type_range c t ≡ Option.map layout_range (layout_of c t)
unfolding integer_type_range
integer_type_range-layout c t = named_range-layout (c.resolved t) (c.byte_size t)

-- What a type's range holds, the type holds, and the other way round.
pub integer_type_range-Holds :
    (c : Context) (t : Text) (r : IntegerRange)
    → integer_type_range c t ≡ some r
    → (p : Sign × ℕ) × (layout_of c t ≡ some p) × (r ≡ layout_range p)
integer_type_range-Holds c t r h = elim (Option-cases (layout_of c t)) [
  | inl unknown ↦
      absurd (let e = sym (integer_type_range-layout c t) ∙ h in let e1 = rw unknown at e in cc e1)
  | inr (p, known) ↦ (
    p,
    known,
    (let e = sym (integer_type_range-layout c t) ∙ h in let e1 = rw known at e in cc e1),
  )
]

-- The range of plain `char` is what both signs hold.
pub portable_char_range-Holds :
    (c : Context) (r : IntegerRange)
    → portable_char_range c ≡ some r
    → (w : ℕ) × (c.byte_size (codes "char") ≡ some w) × ((v : ℤ) → In v r ↔ HoldsEither w v)
unfolding portable_char_range
portable_char_range-Holds c r h = elim (Option-cases (c.byte_size (codes "char"))) [
  | inl unknown ↦ absurd (let h1 = rw (unknown, portable_char_range) at h in cc h1)
  | inr (w, known) ↦
      (w, known, λ v. subst (λ z. In v z ↔ HoldsEither w v) (same w known) (both w v))
]
  where
    char_range : ℕ → IntegerRange
    char_range w = between (pos 0) (pos (2 ^ (w * 8 - 1) - 1))

    same : (w : ℕ) → c.byte_size (codes "char") ≡ some w → char_range w ≡ r
    same w known = let h1 = rw (known, portable_char_range) at h in cc h1

    both : (w : ℕ) (v : ℤ) → In v (char_range w) ↔ HoldsEither w v
    both w v =
        let h = pow-positive (w * 8 - 1) in
        let k = pow-pred-le (w * 8) in
        (
          λ i. ((i.0, omega int_laws), (omega int_laws, omega int_laws)),
          λ i. (i.0.0, omega int_laws),
        )

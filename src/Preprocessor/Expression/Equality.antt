-- ===== src/Preprocessor/Expression/Equality.antt =====
-- The structural equality that frozen dataclasses have, and that sets and dictionaries use.
use cgull.Prelude.{
  Bool, true, false, ◌&&◌, ◌≡◌, refl, ap₂, ◌↔◌, &&_iff, arith, Eq, ◌==◌, text_eq, list_beq,
}
use cgull.Preprocessor.Expression.{
  Expression, constant, variable, defined, predicate, negation, conjunction, disjunction, Operands,
  nil, cons,
}

abbrev pub same_bool : Bool → Bool → Bool
same_bool true b = b
same_bool false true = false
same_bool false false = true

pub same_bool_iff : (b c : Bool) → (same_bool b c ≡ true) ↔ (b ≡ c)
same_bool_iff b c = ground arith

unfoldable mutual
  unfolding list_beq

  pub same : Expression → Expression → Bool
  same (constant b) (constant c) = same_bool b c
  same (variable n) (variable m) = n == m
  same (defined n) (defined m) = n == m
  same (predicate n) (predicate m) = n == m
  same (negation e) (negation f) = same e f
  same (conjunction es) (conjunction fs) = same_operands es fs
  same (disjunction es) (disjunction fs) = same_operands es fs
  same e f = false

  pub same_operands : Operands → Operands → Bool
  same_operands nil nil = true
  same_operands (cons e es) (cons f fs) = same e f && same_operands es fs
  same_operands es fs = false

mutual
  unfolding same

  structural_iff : (e f : Expression) → (same e f ≡ true) ↔ (e ≡ f)
  structural_iff (constant b) (constant c) = ground (arith, same_bool_iff b c)
  structural_iff (variable n) (variable m) = ground (arith, text_eq.beq_iff n m)
  structural_iff (defined n) (defined m) = ground (arith, text_eq.beq_iff n m)
  structural_iff (predicate n) (predicate m) = ground (arith, text_eq.beq_iff n m)
  structural_iff (negation e) (negation f) = ground (arith, structural_iff e f)
  structural_iff (conjunction es) (conjunction fs) = ground (arith, same_operands_iff es fs)
  structural_iff (disjunction es) (disjunction fs) = ground (arith, same_operands_iff es fs)
  structural_iff e f = (λ h. cc, λ h. cc)

  same_operands_iff : (es fs : Operands) → (same_operands es fs ≡ true) ↔ (es ≡ fs)
  same_operands_iff nil nil = (λ h. refl, λ h. refl)
  same_operands_iff (cons e es) (cons f fs) = (
    λ h.
        let (p, q) = (&&_iff _ _).0 h in
        ap₂ cons ((structural_iff e f).0 p) ((same_operands_iff es fs).0 q),
    λ p. (&&_iff _ _).1 ((structural_iff e f).1 (cc), (same_operands_iff es fs).1 (cc)),
  )
  same_operands_iff es fs = (λ h. cc, λ h. cc)

pub same_iff : (e f : Expression) → (same e f ≡ true) ↔ (e ≡ f)
same_iff = structural_iff

instance abbrev pub expression_eq : Eq Expression
unfolding same
expression_eq = record { beq = same; beq_iff = same_iff }

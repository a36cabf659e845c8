-- ===== src/Preprocessor/Expression/Size.antt =====
-- Normalisation does not make a condition larger.
use mathlib.Core.Option
use cgull.Prelude.{
  ℕ, ◌+◌, ◌≤◌, Bool, true, false, not, List, [], ◌∷◌, ◌++◌, Option, none, some, ◌≡◌, refl, inl, inr,
  arith, unique, keep, Bool-cases,
}
use cgull.Preprocessor.Expression.{
  Expression, constant, negation, Operands, nil, cons, to_list, from_list, expression_size,
  operands_size,
}
use cgull.Preprocessor.Expression.Equality.{expression_eq}
use cgull.Preprocessor.Expression.Order.{insert_by_key, sort_by_key}
use cgull.Preprocessor.Expression.Simplify.{
  negate_simplified, collect_and, collect_or, has_complement, absorbed_and, absorbed_or, finish_and,
  finish_or, reduce_and, reduce_or, returned_and, returned_or, join_and, join_or, simplify,
  simplify_each,
}

abbrev sizes : List Expression → ℕ
sizes [] = 0
sizes (e ∷ es) = expression_size e + sizes es

expression_size-pos : (e : Expression) → 1 ≤ expression_size e
unfolding expression_size
expression_size-pos (negation e) = omega arith
expression_size-pos e = omega arith

sizes-append : (xs ys : List Expression) → sizes (xs ++ ys) ≡ sizes xs + sizes ys
sizes-append [] ys = omega arith
sizes-append (x ∷ xs) ys = omega (arith, sizes-append xs ys)

sizes-to_list : (os : Operands) → sizes (to_list os) ≡ operands_size os
unfolding expression_size
sizes-to_list nil = refl
sizes-to_list (cons e os) = omega (arith, sizes-to_list os)

size-from_list : (es : List Expression) → operands_size (from_list es) ≡ sizes es
unfolding expression_size
size-from_list [] = refl
size-from_list (e ∷ es) = omega (arith, size-from_list es)

sizes-insert :
    (e : Expression) (es : List Expression)
    → sizes (insert_by_key e es) ≡ expression_size e + sizes es
unfolding insert_by_key
sizes-insert e [] = refl
sizes-insert e (x ∷ es) = ground (arith, sizes-insert e es)

sizes-sort : (es : List Expression) → sizes (sort_by_key es) ≡ sizes es
unfolding sort_by_key
sizes-sort [] = refl
sizes-sort (e ∷ es) = omega (arith, sizes-insert e (sort_by_key es), sizes-sort es)

sizes-keep : (q : Expression → Bool) (es : List Expression) → sizes (keep q es) ≤ sizes es
sizes-keep q [] = omega arith
sizes-keep q (e ∷ es) = ground (arith, sizes-keep q es)

sizes-unique : (es : List Expression) → sizes (unique es) ≤ sizes es
sizes-unique [] = omega arith
sizes-unique (e ∷ es) = ground (arith, sizes-unique es)

size-negate : (e : Expression) → expression_size (negate_simplified e) ≤ 1 + expression_size e
unfolding negate_simplified expression_size
size-negate (negation e) = omega arith
size-negate e = omega arith

size-finish_and : (es : List Expression) → expression_size (finish_and es) ≤ 1 + sizes es
unfolding finish_and expression_size
size-finish_and [] = omega arith
size-finish_and (e ∷ []) = omega arith
size-finish_and (e ∷ f ∷ es) =
    omega (arith, size-from_list (sort_by_key (e ∷ f ∷ es)), sizes-sort (e ∷ f ∷ es))

size-finish_or : (es : List Expression) → expression_size (finish_or es) ≤ 1 + sizes es
unfolding finish_or expression_size
size-finish_or [] = omega arith
size-finish_or (e ∷ []) = omega arith
size-finish_or (e ∷ f ∷ es) =
    omega (arith, size-from_list (sort_by_key (e ∷ f ∷ es)), sizes-sort (e ∷ f ∷ es))

size-reduce_and : (es : List Expression) → expression_size (reduce_and es) ≤ 1 + sizes es
unfolding reduce_and expression_size
size-reduce_and es = elim (Bool-cases (has_complement es)) [
  | inl c ↦ rw c (omega arith)
  | inr n ↦ rw n (
      omega (
        arith,
        size-finish_and (keep (λ e. not (absorbed_and es e)) es),
        sizes-keep (λ e. not (absorbed_and es e)) es,
      ))
]

size-reduce_or : (es : List Expression) → expression_size (reduce_or es) ≤ 1 + sizes es
unfolding reduce_or expression_size
size-reduce_or es = elim (Bool-cases (has_complement es)) [
  | inl c ↦ rw c (omega arith)
  | inr n ↦ rw n (
      omega (
        arith,
        size-finish_or (keep (λ e. not (absorbed_or es e)) es),
        sizes-keep (λ e. not (absorbed_or es e)) es,
      ))
]

abbrev collected : Option (List Expression) → ℕ
collected none = 0
collected (some os) = sizes os

collected-map :
    (xs : List Expression) (o : Option (List Expression))
    → collected (Option.map (λ r. xs ++ r) o) ≤ sizes xs + collected o
collected-map xs none = omega arith
collected-map xs (some r) = omega (arith, sizes-append xs r)

collected-push :
    (x : Expression) (o : Option (List Expression))
    → collected (Option.map (λ r. x ∷ r) o) ≤ expression_size x + collected o
collected-push x none = omega arith
collected-push x (some r) = omega arith

size-collect_and : (es : List Expression) → collected (collect_and es) ≤ sizes es
unfolding collect_and expression_size
size-collect_and [] = omega arith
size-collect_and (constant false ∷ es) = omega arith
size-collect_and (constant true ∷ es) = omega (arith, size-collect_and es)
size-collect_and (Expression.conjunction os ∷ es) =
    omega
      (arith, collected-map (to_list os) (collect_and es), sizes-to_list os, size-collect_and es)
size-collect_and (e ∷ es) = omega (arith, collected-push e (collect_and es), size-collect_and es)

size-collect_or : (es : List Expression) → collected (collect_or es) ≤ sizes es
unfolding collect_or expression_size
size-collect_or [] = omega arith
size-collect_or (constant true ∷ es) = omega arith
size-collect_or (constant false ∷ es) = omega (arith, size-collect_or es)
size-collect_or (Expression.disjunction os ∷ es) =
    omega (arith, collected-map (to_list os) (collect_or es), sizes-to_list os, size-collect_or es)
size-collect_or (e ∷ es) = omega (arith, collected-push e (collect_or es), size-collect_or es)

size-returned_and :
    (o : Option (List Expression)) → expression_size (returned_and o) ≤ 1 + collected o
unfolding expression_size
size-returned_and none = omega arith
size-returned_and (some os) = omega (arith, size-reduce_and (unique os), sizes-unique os)

size-returned_or :
    (o : Option (List Expression)) → expression_size (returned_or o) ≤ 1 + collected o
unfolding expression_size
size-returned_or none = omega arith
size-returned_or (some os) = omega (arith, size-reduce_or (unique os), sizes-unique os)

mutual
  unfolding simplify expression_size join_and join_or

  size_simplify : (e : Expression) → expression_size (simplify e) ≤ expression_size e
  size_simplify (negation e) = omega (arith, size-negate (simplify e), size_simplify e)
  size_simplify (Expression.conjunction os) =
      let es = simplify_each os in
      omega (arith, size-returned_and (collect_and es), size-collect_and es, sizes_simplify os)
  size_simplify (Expression.disjunction os) =
      let es = simplify_each os in
      omega (arith, size-returned_or (collect_or es), size-collect_or es, sizes_simplify os)
  size_simplify e = omega arith

  sizes_simplify : (os : Operands) → sizes (simplify_each os) ≤ operands_size os
  sizes_simplify nil = omega arith
  sizes_simplify (cons e os) = omega (arith, size_simplify e, sizes_simplify os)

-- The normal form is no larger than the condition.
pub size-simplify-le : (e : Expression) → expression_size (simplify e) ≤ expression_size e
size-simplify-le e = size_simplify e

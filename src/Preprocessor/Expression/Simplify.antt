-- ===== src/Preprocessor/Expression/Simplify.antt =====
-- `negate`, `conjunction`, `disjunction` and `simplify` of expressions.py. A constructor is
-- written with its type, `Expression.conjunction`, beside the function `conjunction`.
use mathlib.Core.Option
use cgull.Prelude.{
  Bool, true, false, not, List, [], ◌∷◌, ◌++◌, Option, none, some, elem, unique, keep, exists,
  if◌then◌else◌, map,
}
use cgull.Preprocessor.Expression.{
  Expression, constant, variable, defined, predicate, negation, Operands, nil, cons, to_list,
  from_list,
}
use cgull.Preprocessor.Expression.Equality.{expression_eq}
use cgull.Preprocessor.Expression.Order.{sort_by_key}

-- `negate` of an expression that is simplified already.
unfoldable pub negate_simplified : Expression → Expression
negate_simplified (constant b) = constant (not b)
negate_simplified (negation e) = e
negate_simplified e = negation e

-- The loops of `conjunction` and `disjunction` over simplified operands: `none` is the early
-- return, `some` the operands collected.
unfoldable pub collect_and : List Expression → Option (List Expression)
collect_and [] = some []
collect_and (constant false ∷ es) = none
collect_and (constant true ∷ es) = collect_and es
collect_and (Expression.conjunction os ∷ es) = Option.map (λ r. to_list os ++ r) (collect_and es)
collect_and (e ∷ es) = Option.map (λ r. e ∷ r) (collect_and es)

unfoldable pub collect_or : List Expression → Option (List Expression)
collect_or [] = some []
collect_or (constant true ∷ es) = none
collect_or (constant false ∷ es) = collect_or es
collect_or (Expression.disjunction os ∷ es) = Option.map (λ r. to_list os ++ r) (collect_or es)
collect_or (e ∷ es) = Option.map (λ r. e ∷ r) (collect_or es)

abbrev pub complement : Expression → Expression
complement (negation e) = e
complement e = negation e

-- Some operand stands beside its complement.
unfoldable pub has_complement : List Expression → Bool
has_complement es = exists (λ e. elem (complement e) es) es

-- A disjunction with a term among the operands of a conjunction, and the dual.
unfoldable pub absorbed_and : List Expression → Expression → Bool
absorbed_and es (Expression.disjunction os) = exists (λ t. elem t es) (to_list os)
absorbed_and es e = false

unfoldable pub absorbed_or : List Expression → Expression → Bool
absorbed_or es (Expression.conjunction os) = exists (λ t. elem t es) (to_list os)
absorbed_or es e = false

unfoldable pub finish_and : List Expression → Expression
finish_and [] = constant true
finish_and (e ∷ []) = e
finish_and es = Expression.conjunction (from_list (sort_by_key es))

unfoldable pub finish_or : List Expression → Expression
finish_or [] = constant false
finish_or (e ∷ []) = e
finish_or es = Expression.disjunction (from_list (sort_by_key es))

-- What `conjunction` does after its loop.
unfoldable pub reduce_and : List Expression → Expression
unfolding has_complement absorbed_and finish_and
reduce_and es =
    if has_complement es
    then constant false
    else finish_and (keep (λ e. not (absorbed_and es e)) es)

unfoldable pub reduce_or : List Expression → Expression
unfolding has_complement absorbed_or finish_or
reduce_or es =
    if has_complement es then constant true else finish_or (keep (λ e. not (absorbed_or es e)) es)

abbrev pub returned_and : Option (List Expression) → Expression
returned_and none = constant false
returned_and (some os) = reduce_and (unique os)

unfoldable pub join_and : List Expression → Expression
unfolding collect_and reduce_and
join_and es = returned_and (collect_and es)

abbrev pub returned_or : Option (List Expression) → Expression
returned_or none = constant true
returned_or (some os) = reduce_or (unique os)

unfoldable pub join_or : List Expression → Expression
unfolding collect_or reduce_or
join_or es = returned_or (collect_or es)

unfoldable mutual
  unfolding negate_simplified join_and join_or

  pub simplify : Expression → Expression
  simplify (constant b) = constant b
  simplify (variable n) = variable n
  simplify (defined n) = defined n
  simplify (predicate t) = predicate t
  simplify (negation e) = negate_simplified (simplify e)
  simplify (Expression.conjunction es) = join_and (simplify_each es)
  simplify (Expression.disjunction es) = join_or (simplify_each es)

  pub simplify_each : Operands → List Expression
  simplify_each nil = []
  simplify_each (cons e es) = simplify e ∷ simplify_each es

unfoldable pub negate : Expression → Expression
negate e = negate_simplified (simplify e)

unfoldable pub conjunction : List Expression → Expression
conjunction es = join_and (map simplify es)

unfoldable pub disjunction : List Expression → Expression
disjunction es = join_or (map simplify es)

-- ===== src/Preprocessor/Expression/Format.antt =====
-- `format_expression`, `ordered_atoms` and `expression_predicates` of
-- cgull/preprocessor/expressions.py.
use cgull.Prelude.{ℕ, Bool, List, [], ◌∷◌, ◌++◌, if◌then◌else◌, Text, codes, ltb, unique}
use cgull.Preprocessor.Expression.{
  Expression, constant, variable, defined, predicate, negation, conjunction, disjunction, Operands,
  nil, cons, expression_atoms,
}
use cgull.Preprocessor.Expression.Equality.{expression_eq}
use cgull.Preprocessor.Expression.Order.{sort_by_key}
use cgull.Preprocessor.Expression.Simplify.{simplify}

-- `_precedence`.
abbrev pub precedence : Expression → ℕ
precedence (predicate t) = 0
precedence (disjunction es) = 1
precedence (conjunction es) = 2
precedence (negation e) = 3
precedence e = 4

abbrev enclosed : Bool → Text → Text
enclosed low text = if low then codes "(" ++ text ++ codes ")" else text

unfoldable mutual
  -- `_format_expression`.
  pub format_with : Expression → ℕ → Text
  format_with (constant b) parent = enclosed (ltb 4 parent) (if b then codes "1" else codes "0")
  format_with (variable n) parent = enclosed (ltb 4 parent) n
  format_with (defined n) parent = enclosed (ltb 4 parent) (codes "defined(" ++ n ++ codes ")")
  format_with (predicate t) parent = enclosed (ltb 0 parent) t
  format_with (negation e) parent = enclosed (ltb 3 parent) (codes "!" ++ format_with e 3)
  format_with (conjunction es) parent = enclosed (ltb 2 parent) (format_joined (codes " && ") es 2)
  format_with (disjunction es) parent = enclosed (ltb 1 parent) (format_joined (codes " || ") es 1)

  -- `operator.join`.
  pub format_joined : Text → Operands → ℕ → Text
  format_joined operator nil level = []
  format_joined operator (cons e nil) level = format_with e level
  format_joined operator (cons e (cons f es)) level =
      format_with e level ++ operator ++ format_joined operator (cons f es) level

unfoldable pub format_expression : Expression → Text
unfolding format_with simplify
format_expression e = format_with (simplify e) 0

unfoldable pub ordered_atoms : Expression → List Expression
unfolding expression_atoms sort_by_key
ordered_atoms e = sort_by_key (unique (expression_atoms e))

abbrev texts : List Expression → List Text
texts [] = []
texts (predicate t ∷ es) = t ∷ texts es
texts (e ∷ es) = texts es

-- A set, as a list.
unfoldable pub expression_predicates : Expression → List Text
unfolding expression_atoms
expression_predicates e = texts (expression_atoms e)

-- ===== src/Preprocessor/Expression/Examples.antt =====
-- Runs of the normalisation of expressions.py, and its theorems at concrete conditions.
use cgull.Prelude.{
  some, ◌==◌, true, not, ◌∷◌, [], ◌≡◌, refl, arith, codes, every, exists, elem, ◌≤◌,
}
use cgull.Preprocessor.Expression.{
  Expression, constant, variable, defined, predicate, negation, nil, cons, Assignment, eval,
  expression_atoms, expression_size,
}
use cgull.Preprocessor.Expression.Atoms.{simplify-over, eval-eq_of_atoms}
use cgull.Preprocessor.Expression.Equality.{expression_eq, same}
use cgull.Preprocessor.Expression.Meaning.{eval-simplify, eval-connectives}
use cgull.Preprocessor.Expression.Simplify.{simplify, conjunction, disjunction, negate}
use cgull.Preprocessor.Expression.Format.{format_with}
use cgull.Preprocessor.Expression.Json.{
  is_macro_name, to_dict, from_dict, expression_to_dict, expression_from_dict,
}
use cgull.Preprocessor.Expression.RoundTrip.{valid_atom, expression_from_dict_lem}
use cgull.Preprocessor.Expression.Order.{sort_by_key}
use cgull.Preprocessor.Expression.Size.{size-simplify-le}

abbrev flag_a : Expression
flag_a = variable (codes "A")

abbrev has_a : Expression
has_a = defined (codes "A")

-- `A && (A || defined(A)) && A`, which absorption makes `A`.
abbrev wordy : Expression
wordy =
    Expression.conjunction
      (cons flag_a (cons (Expression.disjunction (cons flag_a (cons has_a nil))) (cons flag_a nil)))

simplify-wordy : simplify wordy ≡ flag_a
unfolding simplify sort_by_key same
simplify-wordy = refl

-- `A || !A` is a tautology, also under a double negation.
simplify-tautology :
    simplify
      (negation (negation (Expression.disjunction (cons flag_a (cons (negation flag_a) nil)))))
    ≡ constant true
unfolding simplify sort_by_key same
simplify-tautology = refl

abbrev only_a : Assignment
only_a x = x == flag_a

eval-simplify_example : eval only_a (simplify wordy) ≡ eval only_a wordy
eval-simplify_example = eval-simplify only_a wordy

eval-connectives_example :
    (eval only_a (negate flag_a) ≡ not (eval only_a flag_a))
    × (eval only_a (conjunction (flag_a ∷ has_a ∷ [])) ≡ every (eval only_a) (flag_a ∷ has_a ∷ []))
    × (eval only_a (disjunction (flag_a ∷ has_a ∷ [])) ≡ exists (eval only_a) (flag_a ∷ has_a ∷ []))
eval-connectives_example = eval-connectives only_a flag_a (flag_a ∷ has_a ∷ [])

size-simplify-le_example : expression_size (simplify wordy) ≤ expression_size wordy
size-simplify-le_example = size-simplify-le wordy

knows : every (λ x. elem x (flag_a ∷ has_a ∷ [])) (expression_atoms wordy) ≡ true
unfolding expression_atoms same
knows = refl

simplify-over_example :
    every (λ x. elem x (flag_a ∷ has_a ∷ [])) (expression_atoms (simplify wordy)) ≡ true
simplify-over_example = simplify-over (λ x. elem x (flag_a ∷ has_a ∷ [])) wordy knows

abbrev all_true : Assignment
all_true x = true

agrees : (x : Expression) → elem x (expression_atoms flag_a) ≡ true → only_a x ≡ all_true x
unfolding expression_atoms
agrees x h = ground (arith, expression_eq.beq_iff x flag_a)

eval-eq_of_atoms_example : eval only_a flag_a ≡ eval all_true flag_a
eval-eq_of_atoms_example = eval-eq_of_atoms only_a all_true flag_a agrees

expression_from_dict_lem_example :
    (from_dict (to_dict wordy) ≡ some wordy)
    × (r : Expression) × (expression_from_dict (expression_to_dict wordy) ≡ some r)
    × ((a : Assignment) → eval a r ≡ eval a wordy)
unfolding valid_atom is_macro_name expression_atoms
expression_from_dict_lem_example = expression_from_dict_lem wordy refl

-- A predicate is put in parentheses, which a name does not need.
format_negated :
    format_with
      (negation (Expression.disjunction (cons flag_a (cons (predicate (codes "X > 1")) nil))))
      0
    ≡ codes "!(A || (X > 1))"
unfolding format_with
format_negated = refl

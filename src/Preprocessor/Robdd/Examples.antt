-- ===== src/Preprocessor/Robdd/Examples.antt =====
-- Runs of the queries of robdd.py, and the theorems at concrete conditions.
use cgull.Prelude.{
  Bool, true, false, ◌∷◌, [], ◌++◌, List, Option, none, some, ◌≡◌, ◌↔◌, refl, codes, arith, map,
  every, elem, ◌≤◌, ◌<◌, length,
}
use cgull.Preprocessor.Exec.{ok}
use cgull.Preprocessor.Expression.{
  Expression, variable, defined, negation, nil, cons, Assignment, eval, expression_atoms,
  expression_size,
}
use cgull.Preprocessor.Expression.Equality.{expression_eq, same}
use cgull.Preprocessor.Robdd.{
  ResourceLimits, Manager, new_manager, initial, build, negate, apply, or,
}
use cgull.Preprocessor.Robdd.Answers.{ordered_of}
use cgull.Preprocessor.Robdd.Apply.{apply-Meets}
use cgull.Preprocessor.Robdd.Build.{build-Meets}
use cgull.Preprocessor.Robdd.BuildParts.{IsBuilt}
use cgull.Preprocessor.Robdd.Cofactors.{IsApplied}
use cgull.Preprocessor.Robdd.Exact.{
  equivalent_exact, equivalent_sound, satisfiable_exact, satisfiable_sound, implies_exact,
  implies_sound, queries_return, exact_simplify_returns,
}
use cgull.Preprocessor.Robdd.Initial.{initial-IsSound}
use cgull.Preprocessor.Robdd.Invariant.{Meets}
use cgull.Preprocessor.Robdd.Negate.{IsNegation, negate-Meets}
use cgull.Preprocessor.Robdd.Queries.{
  Witness, query_atoms, run_in, equivalent_in, equivalent, satisfiable_in, satisfiable, implies_in,
  implies, witness_in, witness_assignment, exact_simplify,
}
use cgull.Preprocessor.Robdd.Witnesses.{assigned, witness_assignment_sound, witness_exact}

abbrev default_limits : ResourceLimits
default_limits = record { max_atoms = 64; max_bdd_nodes = 100000; max_work = 500000 }

abbrev flag_a : Expression
flag_a = variable (codes "A")

abbrev has_b : Expression
has_b = defined (codes "B")

-- `!(A && defined(B))` and `!A || !defined(B)`.
abbrev not_both : Expression
not_both = negation (Expression.conjunction (cons flag_a (cons has_b nil)))

abbrev either_not : Expression
either_not = Expression.disjunction (cons (negation flag_a) (cons (negation has_b) nil))

-- `A && (defined(B) && !A)` is simplified away; `(A || B) && (!A && !B)` needs the diagram.
abbrev clash : Expression
clash = Expression.conjunction (
    cons (Expression.disjunction (cons flag_a (cons has_b nil)))
      (cons (negation flag_a) (cons (negation has_b) nil)))

abbrev asked : Expression → Expression → List Expression
asked left right = query_atoms (expression_atoms left ++ expression_atoms right)

de_morgan :
    run_in
      (new_manager (asked not_both either_not) default_limits)
      (equivalent_in not_both either_not)
    ≡ ok true
unfolding equivalent expression_atoms
de_morgan = refl

de_morgan_answer : equivalent not_both either_not default_limits ≡ ok true
unfolding equivalent expression_atoms
de_morgan_answer = refl

-- With no work allowed the answers are conservative.
exhausted :
    (equivalent not_both either_not (record default_limits { max_work = 0 }) ≡ ok false)
    × (satisfiable clash (record default_limits { max_work = 0 }) ≡ ok true)
    × (witness_assignment not_both (record default_limits { max_work = 0 }) ≡ ok none)
unfolding equivalent satisfiable witness_assignment expression_atoms
exhausted = (refl, refl, refl)

clash_run :
    run_in
      (new_manager (query_atoms (expression_atoms clash)) default_limits)
      (satisfiable_in clash)
    ≡ ok false
unfolding satisfiable expression_atoms
clash_run = refl

clash_answer : satisfiable clash default_limits ≡ ok false
unfolding satisfiable expression_atoms
clash_answer = refl

clash_no_witness :
    run_in (new_manager (query_atoms (expression_atoms clash)) default_limits) (witness_in clash)
    ≡ ok none
unfolding witness_assignment expression_atoms
clash_no_witness = refl

weaker :
    run_in
      (new_manager (asked (negation flag_a) not_both) default_limits)
      (implies_in (negation flag_a) not_both)
    ≡ ok true
unfolding implies expression_atoms
weaker = refl

weaker_answer : implies (negation flag_a) not_both default_limits ≡ ok true
unfolding implies expression_atoms
weaker_answer = refl

-- The false-first witness, in the order of the atoms: `Defined` before `Variable`.
abbrev first_witness : Witness
first_witness = (has_b, false) ∷ (flag_a, false) ∷ []

found_witness : witness_assignment not_both default_limits ≡ ok (some first_witness)
unfolding witness_assignment expression_atoms
found_witness = refl

-- `(A && B) || (A && !B)` becomes `A`.
abbrev redundant : Expression
redundant = Expression.disjunction (
    cons (Expression.conjunction (cons flag_a (cons has_b nil)))
      (cons (Expression.conjunction (cons flag_a (cons (negation has_b) nil))) nil))

exact_simplify_run : exact_simplify redundant default_limits ≡ ok flag_a
unfolding exact_simplify expression_atoms
exact_simplify_run = refl

equivalent_exact_example : (true ≡ true) ↔ ((a : Assignment) → eval a not_both ≡ eval a either_not)
equivalent_exact_example = equivalent_exact not_both either_not default_limits true de_morgan

abbrev all_false : Assignment
all_false x = false

equivalent_sound_example : eval all_false not_both ≡ eval all_false either_not
equivalent_sound_example =
    equivalent_sound not_both either_not default_limits de_morgan_answer all_false

satisfiable_exact_example : (false ≡ true) ↔ ((a : Assignment) × (eval a clash ≡ true))
satisfiable_exact_example = satisfiable_exact clash default_limits false clash_run

satisfiable_sound_example : eval all_false clash ≡ false
satisfiable_sound_example = satisfiable_sound clash default_limits clash_answer all_false

implies_exact_example :
    (true ≡ true) ↔ ((a : Assignment) → eval a (negation flag_a) ≡ true → eval a not_both ≡ true)
implies_exact_example = implies_exact (negation flag_a) not_both default_limits true weaker

premise_holds : eval all_false (negation flag_a) ≡ true
unfolding eval
premise_holds = refl

implies_sound_example : eval all_false not_both ≡ true
implies_sound_example =
    implies_sound (negation flag_a) not_both default_limits all_false weaker_answer premise_holds

queries_return_example :
    ((b : Bool) × (equivalent not_both clash default_limits ≡ ok b))
    × ((b : Bool) × (satisfiable not_both default_limits ≡ ok b))
    × ((b : Bool) × (implies not_both clash default_limits ≡ ok b))
    × ((w : Option Witness) × (witness_assignment not_both default_limits ≡ ok w))
queries_return_example = queries_return not_both clash default_limits

exact_simplify_returns_example :
    (c : Expression) × (exact_simplify redundant default_limits ≡ ok c)
    × ((a : Assignment) → eval a c ≡ eval a redundant)
    × (expression_size c ≤ expression_size redundant)
exact_simplify_returns_example = exact_simplify_returns redundant default_limits

witness_assignment_sound_example :
    (eval (assigned first_witness) not_both ≡ true)
    × (map (λ (p : Expression × Bool). p.0) first_witness ≡ ordered_of (expression_atoms not_both))
witness_assignment_sound_example =
    witness_assignment_sound not_both default_limits first_witness found_witness

witness_exact_example : eval all_false clash ≡ false
witness_exact_example = witness_exact clash default_limits clash_no_witness all_false

-- A new manager over two atoms.
abbrev two_atoms : List Expression
two_atoms = has_b ∷ flag_a ∷ []

abbrev fresh : Manager
fresh = initial two_atoms default_limits

knows : every (λ x. elem x two_atoms) (expression_atoms not_both) ≡ true
unfolding expression_atoms same
knows = refl

build-Meets_example : Meets two_atoms fresh (IsBuilt two_atoms not_both) (build not_both fresh)
build-Meets_example =
    build-Meets two_atoms not_both fresh knows (initial-IsSound two_atoms default_limits)

has_terminals : (0 < length fresh.nodes) × (1 < length fresh.nodes)
unfolding initial
has_terminals = omega arith

negate-Meets_example : Meets two_atoms fresh (IsNegation two_atoms 1) (negate 1 fresh)
negate-Meets_example =
    negate-Meets 1 fresh (initial-IsSound two_atoms default_limits) has_terminals.1

apply-Meets_example : Meets two_atoms fresh (IsApplied two_atoms or 0 1) (apply or 0 1 fresh)
apply-Meets_example =
    apply-Meets two_atoms or 0 1 fresh (initial-IsSound two_atoms default_limits) has_terminals.0
      has_terminals.1

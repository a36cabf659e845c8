-- ===== src/Preprocessor/Branches/Examples.antt =====
-- Runs of configuration_space.py, and the theorems at a concrete tree of directives.
use cgull.Prelude.{
  ℕ, true, false, List, [], ◌∷◌, Option, none, some, ◌≡◌, refl, String, codes, get_elem?, map,
}
use cgull.Preprocessor.Exec.{ok}
use cgull.Preprocessor.Expression.{Expression, defined, negation, Assignment, expression_atoms}
use cgull.Preprocessor.Expression.Equality.{expression_eq, same}
use cgull.Preprocessor.Robdd.{ResourceLimits}
use cgull.Preprocessor.Expression.Simplify.{
  conjunction, disjunction, negate, simplify, join_and, join_or, finish_and, finish_or,
}
use cgull.Preprocessor.Expression.Order.{sort_by_key}
use cgull.Preprocessor.Branches.{
  Directive, block, no_branch, branch, Blocks, no_block, another, satisfiable, unreachable,
  unsupported, BranchWitness, plain_result, derive_branch_witnesses,
}
use cgull.Preprocessor.Branches.Derived.{
  AllJudged, derive_returns, unreachable_never_processed, satisfiable_processed,
}
use cgull.Preprocessor.Branches.Processed.{process_blocks}
use cgull.Preprocessor.Branches.Readings.{reading}
use cgull.Preprocessor.Branches.Taken.{derive-process}

abbrev default_limits : ResourceLimits
default_limits = record { max_atoms = 64; max_bdd_nodes = 100000; max_work = 500000 }

abbrev has_a : Expression
has_a = defined (codes "A")

abbrev directive : String → ℕ → Option Expression → Directive
directive k n c = record { kind = codes k; offset = n; condition = c }

-- `#ifdef A`, within it `#ifndef A`, then `#else`.
abbrev inner : Blocks
inner =
    another (block (branch (directive "ifndef" 10 (some (negation has_a))) no_block no_branch))
      no_block

abbrev tree : Blocks
tree =
    another
      (block (
        branch (directive "ifdef" 0 (some has_a)) inner
          (branch (directive "else" 30 none) no_block no_branch)))
      no_block

abbrev results : List BranchWitness
unfolding derive_branch_witnesses conjunction disjunction negate simplify join_and join_or
    finish_and finish_or sort_by_key same expression_atoms
results = elim (derive_branch_witnesses default_limits tree) [ ok rs ↦ rs | _ ↦ [] ]

derived : derive_branch_witnesses default_limits tree ≡ ok results
unfolding derive_branch_witnesses conjunction disjunction negate simplify join_and join_or
    finish_and finish_or sort_by_key same expression_atoms
derived = refl

statuses :
    map (λ (r : BranchWitness). r.status) results ≡ satisfiable ∷ unreachable ∷ satisfiable ∷ []
unfolding derive_branch_witnesses conjunction disjunction negate simplify join_and join_or
    finish_and finish_or sort_by_key same expression_atoms
statuses = refl

abbrev all_false : Assignment
all_false x = false

derive-process_example : map (reading all_false) results ≡ process_blocks all_false true tree
derive-process_example = derive-process default_limits tree results all_false derived

-- With no work allowed the results say so.
abbrev no_work : ResourceLimits
no_work = record default_limits { max_work = 0 }

derive_returns_example :
    (out : List BranchWitness) × (derive_branch_witnesses no_work tree ≡ ok out) × AllJudged out
derive_returns_example = derive_returns no_work tree

abbrev second : BranchWitness
second = elim (get_elem? results 1) [
  | some r ↦ r
  | none ↦ plain_result (directive "if" 0 none) none unsupported
]

abbrev third : BranchWitness
third = elim (get_elem? results 2) [
  | some r ↦ r
  | none ↦ plain_result (directive "if" 0 none) none unsupported
]

second_at : get_elem? results 1 ≡ some second
unfolding derive_branch_witnesses conjunction disjunction negate simplify join_and join_or
    finish_and finish_or sort_by_key same expression_atoms
second_at = refl

second_dead : second.status ≡ unreachable
unfolding derive_branch_witnesses conjunction disjunction negate simplify join_and join_or
    finish_and finish_or sort_by_key same expression_atoms
second_dead = refl

third_at : get_elem? results 2 ≡ some third
unfolding derive_branch_witnesses conjunction disjunction negate simplify join_and join_or
    finish_and finish_or sort_by_key same expression_atoms
third_at = refl

third_live : third.status ≡ satisfiable
unfolding derive_branch_witnesses conjunction disjunction negate simplify join_and join_or
    finish_and finish_or sort_by_key same expression_atoms
third_live = refl

unreachable_never_processed_example :
    get_elem? (process_blocks all_false true tree) 1 ≡ some (second.directive, some false)
unreachable_never_processed_example =
    unreachable_never_processed default_limits tree results derived 1 second all_false second_at
      second_dead

satisfiable_processed_example :
    (a : Assignment) × (get_elem? (process_blocks a true tree) 2
      ≡ some (third.directive, some true))
satisfiable_processed_example =
    satisfiable_processed default_limits tree results derived 2 third third_at third_live

-- After a malformed condition the rest of the chain is left open.
abbrev broken : Blocks
broken =
    another
      (block (
        branch (directive "if" 0 none) inner
          (branch (directive "else" 30 none) no_block no_branch)))
      no_block

broken_statuses :
    derive_branch_witnesses default_limits broken
    ≡ ok (
        plain_result (directive "if" 0 none) none unsupported
        ∷ plain_result (directive "ifndef" 10 (some (negation has_a))) none unsupported
        ∷ plain_result (directive "else" 30 none) none unsupported
        ∷ [])
unfolding derive_branch_witnesses
broken_statuses = refl

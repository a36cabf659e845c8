-- ===== src/Preprocessor/Profiles/Examples.antt =====
-- Runs of profile_reduction.py's `_branch_possible`, and its theorem at a concrete profile.
use cgull.Prelude.{Bool, true, false, [], ◌∷◌, ◌≡◌, ◌↔◌, refl, codes, text_eq}
use cgull.Preprocessor.Exec.{Result, ok, raised}
use cgull.Preprocessor.Expression.{
  Expression, defined, predicate, negation, nil, cons, Assignment, eval, expression_atoms,
}
use cgull.Preprocessor.Expression.Equality.{same}
use cgull.Preprocessor.Expression.Order.{sort_by_key}
use cgull.Preprocessor.Profiles.{Flags, text, BranchModel, branch_possible, branch_model}
use cgull.Preprocessor.Profiles.Agreeing.{Agrees}
use cgull.Preprocessor.Profiles.Possible.{branch_possible_exact}
use cgull.Preprocessor.Robdd.{ResourceLimits, initial}

abbrev default_limits : ResourceLimits
default_limits = record { max_atoms = 64; max_bdd_nodes = 100000; max_work = 500000 }

-- `!defined(A) && LEVEL > 2`.
abbrev guarded : Expression
guarded =
    Expression.conjunction
      (cons (negation (defined (codes "A"))) (cons (predicate (codes "LEVEL > 2")) nil))

abbrev with_a : Flags
with_a = (codes "A", text (codes "1")) ∷ []

abbrev unmodelled : BranchModel
unmodelled = record { source_index = 0; offset = 7; bdd = initial [] default_limits; root = 0 }

abbrev is_ok : Result BranchModel → Bool
is_ok (ok m) = true
is_ok (raised f) = false

abbrev from_ok : Result BranchModel → BranchModel
from_ok (ok m) = m
from_ok (raised f) = unmodelled

from_ok_lem : (r : Result BranchModel) → is_ok r ≡ true → r ≡ ok (from_ok r)
from_ok_lem (ok m) h = refl
from_ok_lem (raised f) h = absurd (cc h)

abbrev guarded_model : BranchModel
guarded_model = from_ok (branch_model 0 7 guarded default_limits)

within_limits : is_ok (branch_model 0 7 guarded default_limits) ≡ true
unfolding branch_model expression_atoms same sort_by_key
within_limits = refl

compiled : branch_model 0 7 guarded default_limits ≡ ok guarded_model
compiled = from_ok_lem (branch_model 0 7 guarded default_limits) within_limits

-- The opaque predicate is free, so the branch may be active without `A`, and not with it.
verdicts :
    (branch_possible guarded_model [] ≡ ok true) × (branch_possible guarded_model with_a ≡ ok false)
unfolding branch_possible branch_model expression_atoms same sort_by_key
verdicts = (refl, refl)

branch_possible_exact_example :
    (b : Bool) × (branch_possible guarded_model with_a ≡ ok b)
    × ((b ≡ true) ↔ ((a : Assignment) × Agrees with_a a × (eval a guarded ≡ true)))
branch_possible_exact_example =
    branch_possible_exact 0 7 guarded default_limits with_a guarded_model compiled

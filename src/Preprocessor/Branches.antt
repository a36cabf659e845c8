-- ===== src/Preprocessor/Branches.antt =====
-- cgull/preprocessor/configuration_space.py: the condition under which each branch of the
-- conditional directives is entered, with a witness of it.
pub mod Processed
pub mod Readings
pub mod Taken
pub mod Solved
pub mod Derived
pub mod Examples
use cgull.Prelude.{
  ℕ, Bool, true, false, List, [], ◌∷◌, ◌++◌, Option, none, some, ◌≡◌, if◌then◌else◌, Text, codes,
  list_beq, nat_eq, eqb, map,
}
use cgull.Preprocessor.Exec.{
  Resource, Failure, limit_exceeded, assertion_error, type_error, Result, ok, raised, pure, raise,
  ◌>>=◌,
}
use cgull.Preprocessor.Expression.{
  Expression, constant, variable, defined, predicate, expression_atoms,
}
use cgull.Preprocessor.Expression.Simplify.{conjunction, disjunction, negate}
use cgull.Preprocessor.Robdd.{ResourceLimits, M, new_manager, build}
use cgull.Preprocessor.Robdd.Queries.{Witness, witness, run_in}

-- What `ConditionalDirective` holds that the module reads.
pub record Directive : Type 0 where
  pub kind : Text
  pub offset : ℕ
  pub condition : Option Expression

-- The tree of directives.py: the lists of branches and of child blocks are declared with it.
mutual
  pub data Block : Type 0 where
    block : Branches → Block

  pub data Branches : Type 0 where
    no_branch : Branches
    branch : Directive → Blocks → Branches → Branches

  pub data Blocks : Type 0 where
    no_block : Blocks
    another : Block → Blocks → Blocks

pub data WitnessStatus : Type 0 where
  satisfiable unreachable unsupported limit_reached : WitnessStatus

pub record WitnessAssignment : Type 0 where
  pub kind : Text
  pub key : Text
  pub value : Bool

-- The branch is given by its directive.
pub record BranchWitness : Type 0 where
  pub directive : Directive
  pub effective_condition : Option Expression
  pub status : WitnessStatus
  pub assignments : List WitnessAssignment
  pub limit_resource : Option Resource
  pub limit_value : Option ℕ
  pub limit_observed : Option ℕ

-- The constructor call with the defaults of the fields.
abbrev pub plain_result : Directive → Option Expression → WitnessStatus → BranchWitness
plain_result d c s = record {
  directive = d;
  effective_condition = c;
  status = s;
  assignments = [];
  limit_resource = none;
  limit_value = none;
  limit_observed = none;
}

-- `_assignment`.
unfoldable pub assignment : Expression → Bool → Result WitnessAssignment
assignment (defined n) b = ok (record { kind = codes "defined"; key = n; value = b })
assignment (variable n) b = ok (record { kind = codes "macro_value"; key = n; value = b })
assignment (predicate t) b = ok (record { kind = codes "predicate"; key = t; value = b })
assignment e b = raised type_error

abbrev pub then_result {ℓ κ} : {A : Type ℓ} {B : Type κ} → Result A → (A → Result B) → Result B
then_result (ok a) f = f a
then_result (raised e) f = raised e

unfoldable pub assign_all : Witness → Result (List WitnessAssignment)
unfolding assignment
assign_all [] = ok []
assign_all ((e, b) ∷ w) =
    then_result (assignment e b) λ x. then_result (assign_all w) λ xs. ok (x ∷ xs)

-- `assert witness is not None`.
abbrev pub assert_some : Option Witness → M (Option Witness)
assert_some none = raise assertion_error
assert_some (some w) = pure (some w)

-- The manager's part of `_solve`: `none` stands for the early return of an unreachable branch.
unfoldable pub solve_in : Expression → M (Option Witness)
unfolding build witness
solve_in e = do
  root ← build e
  if eqb root 0 then pure none else (do w ← witness root; assert_some w)

abbrev pub judged : Directive → Expression → Result (Option Witness) → Result BranchWitness
judged d e (ok none) = ok (plain_result d (some e) unreachable)
judged d e (ok (some w)) =
    then_result (assign_all w)
      λ xs. ok (record (plain_result d (some e) satisfiable) { assignments = xs })
judged d e (raised (limit_exceeded r l o)) = ok (record (plain_result d (some e) limit_reached) {
  limit_resource = some r;
  limit_value = some l;
  limit_observed = some o;
})
judged d e (raised f) = raised f

-- `_solve`.
unfoldable pub solve : Directive → Expression → ResourceLimits → Result BranchWitness
unfolding new_manager solve_in assign_all
solve d e limits = judged d e (run_in (new_manager (expression_atoms e) limits) (solve_in e))

-- `_append_unsupported`: what it appends to the results, for blocks and for the branches of one.
unfoldable mutual
  pub append_unsupported : Branches → List BranchWitness
  append_unsupported no_branch = []
  append_unsupported (branch d children rest) =
      plain_result d none unsupported
      ∷ (append_unsupported_each children ++ append_unsupported rest)

  pub append_unsupported_each : Blocks → List BranchWitness
  append_unsupported_each no_block = []
  append_unsupported_each (another (block bs) rest) =
      append_unsupported bs ++ append_unsupported_each rest

-- A result, what follows for the children, and what follows for the later branches.
abbrev pub chained :
    Result BranchWitness
    → Result (List BranchWitness)
    → Result (List BranchWitness)
    → Result (List BranchWitness)
chained r children rest =
    then_result r λ x. then_result children λ xs. then_result rest λ ys. ok (x ∷ (xs ++ ys))

unfoldable pub is_else : Directive → Bool
unfolding list_beq
is_else d = list_beq d.kind (codes "else")

-- `_walk_block`: what its loop appends to the results while `chain_supported` holds, from
-- `parent_context` and `covered`; once the chain is not supported, `append_unsupported` is what
-- the rest of the loop appends.
unfoldable mutual
  unfolding solve is_else append_unsupported conjunction disjunction negate

  pub walk_branches :
      ResourceLimits → Expression → Expression → Branches → Result (List BranchWitness)
  walk_branches limits context covered no_branch = ok []
  walk_branches limits context covered (branch d children rest) =
      let remaining = conjunction (context ∷ negate covered ∷ []) in
      elim (is_else d) [
        | true ↦
            chained (solve d remaining limits) (walk_blocks limits remaining children)
              (walk_branches limits context (constant true) rest)
        | false ↦ elim d.condition [
          | none ↦ ok (
              plain_result d none unsupported
              ∷ (append_unsupported_each children ++ append_unsupported rest))
          | some condition ↦
              let effective = conjunction (remaining ∷ condition ∷ []) in
              chained (solve d effective limits) (walk_blocks limits effective children)
                (walk_branches limits context (disjunction (covered ∷ condition ∷ [])) rest)
        ]
      ]

  pub walk_blocks : ResourceLimits → Expression → Blocks → Result (List BranchWitness)
  walk_blocks limits context no_block = ok []
  walk_blocks limits context (another (block bs) rest) =
      then_result (walk_branches limits context (constant false) bs)
        λ xs. then_result (walk_blocks limits context rest) λ ys. ok (xs ++ ys)

unfoldable pub derive_branch_witnesses : ResourceLimits → Blocks → Result (List BranchWitness)
unfolding walk_blocks
derive_branch_witnesses limits blocks = walk_blocks limits (constant true) blocks

-- ===== src/Preprocessor/Branches/Processed.antt =====
-- What a C preprocessor does with the conditional directives, apart from configuration_space.py:
-- an abstract description to hold the effective conditions against.
use cgull.Prelude.{Bool, true, false, not, ◌&&◌, List, [], ◌∷◌, ◌++◌, Option, none, some}
use cgull.Preprocessor.Expression.{Assignment, eval}
use cgull.Preprocessor.Branches.{
  Directive, block, Branches, no_branch, branch, Blocks, no_block, another, is_else,
}

-- A branch, and whether its group is processed; `none` where a malformed condition of the chain
-- leaves it open.
abbrev pub Visit : Type 0
Visit = Directive × Option Bool

unfoldable mutual
  pub visit_open : Branches → List Visit
  visit_open no_branch = []
  visit_open (branch d children rest) = (d, none) ∷ (visit_open_each children ++ visit_open rest)

  pub visit_open_each : Blocks → List Visit
  visit_open_each no_block = []
  visit_open_each (another (block bs) rest) = visit_open bs ++ visit_open_each rest

-- The branches of a chain in source order. `searching` holds while the chain's surroundings are
-- processed and no branch of it was: the next branch whose condition holds, or an `#else`, is
-- processed, with the blocks in it, and ends the search.
unfoldable mutual
  unfolding visit_open is_else eval

  pub process : Assignment → Bool → Branches → List Visit
  process a searching no_branch = []
  process a searching (branch d children rest) = elim (is_else d) [
    | true ↦ (d, some searching) ∷ (process_blocks a searching children ++ process a false rest)
    | false ↦ elim d.condition [
      | none ↦ (d, none) ∷ (visit_open_each children ++ visit_open rest)
      | some condition ↦
          let here = searching && eval a condition in
          (d, some here)
          ∷ (process_blocks a here children ++ process a (searching && not here) rest)
    ]
  ]

  pub process_blocks : Assignment → Bool → Blocks → List Visit
  process_blocks a searching no_block = []
  process_blocks a searching (another (block bs) rest) =
      process a searching bs ++ process_blocks a searching rest

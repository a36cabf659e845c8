-- ===== src/Preprocessor/Branches/Taken.antt =====
-- Under every assignment, the effective conditions of configuration_space.py say which branches a
-- preprocessor processes.
use mathlib.Core.List.{map-append}
use cgull.Prelude.{
  Bool, true, false, not, ◌&&◌, List, [], ◌∷◌, ◌++◌, none, some, ◌≡◌, ap, ap₂, sym, ◌∙◌, inl, inr,
  arith, Bool-cases, Option-cases, map,
}
use cgull.Preprocessor.Exec.{ok}
use cgull.Preprocessor.Expression.{Expression, constant, Assignment, eval}
use cgull.Preprocessor.Expression.Simplify.{conjunction, disjunction, negate}
use cgull.Preprocessor.Robdd.{ResourceLimits}
use cgull.Preprocessor.Branches.{
  Directive, block, Branches, no_branch, branch, Blocks, no_block, another, BranchWitness, is_else,
  unsupported, plain_result, solve, chained, append_unsupported, append_unsupported_each,
  walk_branches, walk_blocks, derive_branch_witnesses,
}
use cgull.Preprocessor.Branches.Processed.{visit_open, visit_open_each, process, process_blocks}
use cgull.Preprocessor.Branches.Readings.{
  then-ok, ok-inj, reading, unsupported-open, unsupported_each-open, chained-reading,
  eval-remaining, eval-both, searching_on, search_starts, search_ends,
}

module _ (a : Assignment) (searching : Bool) (d : Directive) (children : Blocks)
    (rest : Branches) where
  process-else :
      is_else d ≡ true
      → process a searching (branch d children rest)
        ≡ (d, some searching) ∷ (process_blocks a searching children ++ process a false rest)
  unfolding process
  process-else final = ground (arith, final)

  process-malformed :
      is_else d ≡ false
      → d.condition ≡ none
      → process a searching (branch d children rest)
        ≡ (d, none) ∷ (visit_open_each children ++ visit_open rest)
  unfolding process
  process-malformed other bad = ground (arith, other, bad)

  process-if :
      (c : Expression)
      → is_else d ≡ false
      → d.condition ≡ some c
      → process a searching (branch d children rest)
        ≡ (d, some (searching && eval a c))
          ∷ (process_blocks a (searching && eval a c) children
              ++ process a (searching && not (searching && eval a c)) rest)
  unfolding process
  process-if c other good = ground (arith, other, good)

module _ (limits : ResourceLimits) (context covered : Expression) (d : Directive)
    (children : Blocks) (rest : Branches) where
  pub walk-else :
      is_else d ≡ true
      → walk_branches limits context covered (branch d children rest) ≡ (
          let remaining = conjunction (context ∷ negate covered ∷ []) in
          chained
            (solve d remaining limits)
            (walk_blocks limits remaining children)
            (walk_branches limits context (constant true) rest))
  unfolding walk_branches
  walk-else final = ground (arith, final)

  pub walk-malformed :
      is_else d ≡ false
      → d.condition ≡ none
      → walk_branches limits context covered (branch d children rest)
        ≡ ok (
            plain_result d none unsupported
            ∷ (append_unsupported_each children ++ append_unsupported rest))
  unfolding walk_branches
  walk-malformed other bad = ground (arith, other, bad)

  pub walk-if :
      (c : Expression)
      → is_else d ≡ false
      → d.condition ≡ some c
      → walk_branches limits context covered (branch d children rest) ≡ (
          let effective = conjunction (conjunction (context ∷ negate covered ∷ []) ∷ c ∷ []) in
          chained
            (solve d effective limits)
            (walk_blocks limits effective children)
            (walk_branches limits context (disjunction (covered ∷ c ∷ [])) rest))
  unfolding walk_branches
  walk-if c other good = ground (arith, other, good)

module _ (limits : ResourceLimits) (a : Assignment) where
  -- What the results of a chain, and of blocks, say under the assignment.
  abbrev ChainFollows : Expression → Expression → Branches → Type 0
  ChainFollows context covered bs =
      (out : List BranchWitness)
      → walk_branches limits context covered bs ≡ ok out
      → map (reading a) out ≡ process a (eval a context && not (eval a covered)) bs

  abbrev BlocksFollow : Expression → Blocks → Type 0
  BlocksFollow context bs =
      (out : List BranchWitness)
      → walk_blocks limits context bs ≡ ok out
      → map (reading a) out ≡ process_blocks a (eval a context) bs

  module _ (context covered : Expression) (d : Directive) (children : Blocks)
      (rest : Branches) where
    abbrev here : Expression
    here = conjunction (context ∷ negate covered ∷ [])

    abbrev s : Bool
    s = eval a context && not (eval a covered)

    else_step :
        is_else d ≡ true
        → BlocksFollow here children
        → ChainFollows context (constant true) rest
        → ChainFollows context covered (branch d children rest)
    else_step final inner later out h =
        let h1 = sym (walk-else limits context covered d children rest final) ∙ h in
        let e = eval-remaining a context covered in
        chained-reading a limits d here (walk_blocks limits here children)
          (walk_branches limits context (constant true) rest) (process_blocks a s children)
          (process a false rest) out (λ xs q. inner xs q ∙ ap (λ b. process_blocks a b children) e)
          (λ ys q. later ys q ∙ ap (λ b. process a b rest) (search_ends a context)) h1
        ∙ ap (λ b. (d, some b) ∷ (process_blocks a s children ++ process a false rest)) e
        ∙ sym (process-else a s d children rest final)

    malformed_step :
        is_else d ≡ false
        → d.condition ≡ none
        → ChainFollows context covered (branch d children rest)
    malformed_step other bad out h =
        let h1 = sym (walk-malformed limits context covered d children rest other bad) ∙ h in
        ap (map (reading a)) (sym (ok-inj _ out h1))
        ∙ ap (λ vs. (d, none) ∷ vs)
            (map-append (reading a) (append_unsupported_each children) (append_unsupported rest)
              ∙ ap₂ ◌++◌ (unsupported_each-open a children) (unsupported-open a rest))
        ∙ sym (process-malformed a s d children rest other bad)

    if_step :
        (c : Expression)
        → is_else d ≡ false
        → d.condition ≡ some c
        → BlocksFollow (conjunction (here ∷ c ∷ [])) children
        → ChainFollows context (disjunction (covered ∷ c ∷ [])) rest
        → ChainFollows context covered (branch d children rest)
    if_step c other good inner later out h =
        let h1 = sym (walk-if limits context covered d children rest c other good) ∙ h in
        let effective = conjunction (here ∷ c ∷ []) in
        let e : eval a effective ≡ (s && eval a c) =
          eval-both a here c ∙ ap (λ b. b && eval a c) (eval-remaining a context covered) in
        let blocks = process_blocks a (s && eval a c) children in
        let after = process a (s && not (s && eval a c)) rest in
        chained-reading a limits d effective (walk_blocks limits effective children)
          (walk_branches limits context (disjunction (covered ∷ c ∷ [])) rest) blocks after out
          (λ xs q. inner xs q ∙ ap (λ b. process_blocks a b children) e)
          (λ ys q. later ys q ∙ ap (λ b. process a b rest) (searching_on a context covered c)) h1
        ∙ ap (λ b. (d, some b) ∷ (blocks ++ after)) e
        ∙ sym (process-if a s d children rest c other good)

  mutual
    unfolding walk_branches process

    walk-process : (context covered : Expression) (bs : Branches) → ChainFollows context covered bs
    walk-process context covered no_branch out h = sym (ap (map (reading a)) (ok-inj [] out h))
    walk-process context covered (branch d children rest) out h =
        let here = conjunction (context ∷ negate covered ∷ []) in
        elim (Bool-cases (is_else d)) [
          | inl final ↦
              else_step context covered d children rest final (walk_blocks-process here children)
                (walk-process context (constant true) rest) out h
          | inr other ↦ elim (Option-cases d.condition) [
            | inl bad ↦ malformed_step context covered d children rest other bad out h
            | inr (c, good) ↦
                if_step context covered d children rest c other good
                  (walk_blocks-process (conjunction (here ∷ c ∷ [])) children)
                  (walk-process context (disjunction (covered ∷ c ∷ [])) rest) out h
          ]
        ]

    walk_blocks-process : (context : Expression) (bs : Blocks) → BlocksFollow context bs
    walk_blocks-process context no_block out h = sym (ap (map (reading a)) (ok-inj [] out h))
    walk_blocks-process context (another (block bs) rest) out h =
        let (xs, qx, h1) = then-ok (walk_branches limits context (constant false) bs) _ out h in
        let (ys, qy, h2) = then-ok (walk_blocks limits context rest) _ out h1 in
        sym (ap (map (reading a)) (ok-inj _ out h2))
        ∙ map-append (reading a) xs ys
        ∙ ap₂ ◌++◌
            (walk-process context (constant false) bs xs qx
              ∙ ap (λ b. process a b bs) (search_starts a context))
            (walk_blocks-process context rest ys qy)

-- Under every assignment, evaluating the effective conditions of the results gives, branch by
-- branch in source order, whether a preprocessor processes the branch, and nothing for the
-- branches that a malformed condition leaves open.
pub derive-process :
    (limits : ResourceLimits) (bs : Blocks) (out : List BranchWitness) (a : Assignment)
    → derive_branch_witnesses limits bs ≡ ok out
    → map (reading a) out ≡ process_blocks a true bs
unfolding derive_branch_witnesses eval
derive-process limits bs out a h = walk_blocks-process limits a (constant true) bs out h

-- ===== src/Preprocessor/Branches/Derived.antt =====
-- `derive_branch_witnesses` returns a result for every branch, and what each says of the branch is
-- what a preprocessor does.
use mathlib.Core.Option
use cgull.Prelude.{
  ℕ, zero, suc, true, false, List, [], ◌∷◌, ◌++◌, some, ◌≡◌, refl, ap, sym, ◌∙◌, subst, inl, inr,
  Bool-cases, Option-cases, get_elem?, map,
}
use cgull.Preprocessor.Exec.{Result, ok}
use cgull.Preprocessor.Expression.{Expression, constant, Assignment, eval}
use cgull.Preprocessor.Expression.Simplify.{conjunction, disjunction, negate}
use cgull.Preprocessor.Robdd.{ResourceLimits}
use cgull.Preprocessor.Robdd.Witnesses.{assigned}
use cgull.Preprocessor.Branches.{
  Directive, block, Branches, no_branch, branch, Blocks, no_block, another, BranchWitness,
  satisfiable, unreachable, unsupported, is_else, solve, chained, append_unsupported,
  append_unsupported_each, walk_branches, walk_blocks, derive_branch_witnesses,
}
use cgull.Preprocessor.Branches.Processed.{process_blocks}
use cgull.Preprocessor.Branches.Readings.{reading}
use cgull.Preprocessor.Branches.Solved.{Judged, JudgedBy, Verdict, solve_returns}
use cgull.Preprocessor.Branches.Taken.{walk-else, walk-malformed, walk-if, derive-process}

-- Every result is judged right.
abbrev pub AllJudged : List BranchWitness → Type 0
AllJudged [] = Unit
AllJudged (r ∷ rs) = Judged r × AllJudged rs

AllJudged-append : (xs ys : List BranchWitness) → AllJudged xs → AllJudged ys → AllJudged (xs ++ ys)
AllJudged-append [] ys h k = k
AllJudged-append (x ∷ xs) ys h k = (h.0, AllJudged-append xs ys h.1 k)

AllJudged-get :
    (rs : List BranchWitness) (i : ℕ) (r : BranchWitness)
    → AllJudged rs
    → get_elem? rs i ≡ some r
    → Judged r
AllJudged-get [] i r h e = absurd (cc e)
AllJudged-get (x ∷ rs) zero r h e = subst Judged (cc e) h.0
AllJudged-get (x ∷ rs) (suc i) r h e = AllJudged-get rs i r h.1 e

mutual
  unfolding append_unsupported

  unsupported_judged : (bs : Branches) → AllJudged (append_unsupported bs)
  unsupported_judged no_branch = tt
  unsupported_judged (branch d children rest) = (
    refl,
    AllJudged-append (append_unsupported_each children) (append_unsupported rest)
        (unsupported_each_judged children) (unsupported_judged rest),
  )

  unsupported_each_judged : (bs : Blocks) → AllJudged (append_unsupported_each bs)
  unsupported_each_judged no_block = tt
  unsupported_each_judged (another (block bs) rest) =
      AllJudged-append (append_unsupported bs) (append_unsupported_each rest)
        (unsupported_judged bs) (unsupported_each_judged rest)

abbrev Returns : Result (List BranchWitness) → Type 0
Returns r = (out : List BranchWitness) × (r ≡ ok out) × AllJudged out

chained-Returns :
    (d : Directive) (e : Expression) (limits : ResourceLimits) (c t : Result (List BranchWitness))
    → Returns c
    → Returns t
    → Returns (chained (solve d e limits) c t)
chained-Returns d e limits c t (xs, cx, hx) (ys, ty, hy) =
    let (x, rx, h) = solve_returns d e limits in
    (x ∷ (xs ++ ys), rw (rx, cx, ty) refl, (h, AllJudged-append xs ys hx hy))

module _ (limits : ResourceLimits) where
  mutual
    unfolding walk_branches

    walk-Returns :
        (context covered : Expression) (bs : Branches)
        → Returns (walk_branches limits context covered bs)
    walk-Returns context covered no_branch = ([], refl, tt)
    walk-Returns context covered (branch d children rest) =
        let here = conjunction (context ∷ negate covered ∷ []) in
        elim (Bool-cases (is_else d)) [
          | inl final ↦
              subst Returns (sym (walk-else limits context covered d children rest final)) (
                chained-Returns d here limits _ _ (walk_blocks-Returns here children)
                  (walk-Returns context (constant true) rest))
          | inr other ↦ elim (Option-cases d.condition) [
            | inl bad ↦
                subst Returns
                  (sym (walk-malformed limits context covered d children rest other bad))
                  (_, refl, unsupported_judged (branch d children rest))
            | inr (c, good) ↦
                let effective = conjunction (here ∷ c ∷ []) in
                subst Returns (sym (walk-if limits context covered d children rest c other good)) (
                  chained-Returns d effective limits _ _ (walk_blocks-Returns effective children)
                    (walk-Returns context (disjunction (covered ∷ c ∷ [])) rest))
          ]
        ]

    walk_blocks-Returns :
        (context : Expression) (bs : Blocks) → Returns (walk_blocks limits context bs)
    walk_blocks-Returns context no_block = ([], refl, tt)
    walk_blocks-Returns context (another (block bs) rest) =
        let (xs, qx, hx) = walk-Returns context (constant false) bs in
        let (ys, qy, hy) = walk_blocks-Returns context rest in
        (xs ++ ys, rw (qx, qy) refl, AllJudged-append xs ys hx hy)

-- For every tree of directives and all limits, `derive_branch_witnesses` raises no exception, and
-- each result judges its effective condition right: an unreachable one is never true, and the
-- assignments of a satisfiable one make it true.
pub derive_returns :
    (limits : ResourceLimits) (bs : Blocks)
    → (out : List BranchWitness) × (derive_branch_witnesses limits bs ≡ ok out) × AllJudged out
unfolding derive_branch_witnesses
derive_returns limits bs = walk_blocks-Returns limits (constant true) bs

map-get {ℓ κ} :
    {A : Type ℓ} {B : Type κ} (f : A → B) (xs : List A) (i : ℕ) (x : A)
    → get_elem? xs i ≡ some x
    → get_elem? (map f xs) i ≡ some (f x)
map-get f [] i x h = absurd (cc h)
map-get f (y ∷ xs) zero x h = ap (Option.map f) h
map-get f (y ∷ xs) (suc i) x h = map-get f xs i x h

module _ (limits : ResourceLimits) (bs : Blocks) (out : List BranchWitness)
    (h : derive_branch_witnesses limits bs ≡ ok out) where
  all_judged : AllJudged out
  all_judged =
      let (rs, q, judged) = derive_returns limits bs in
      let same : rs ≡ out = cc (q, h) in subst AllJudged same judged

  visited :
      (i : ℕ) (r : BranchWitness) (a : Assignment)
      → get_elem? out i ≡ some r
      → get_elem? (process_blocks a true bs) i ≡ some (reading a r)
  visited i r a at =
      ap (λ vs. get_elem? vs i) (sym (derive-process limits bs out a h))
      ∙ map-get (reading a) out i r at

  Verdict-known :
      (r : BranchWitness) (e : Expression)
      → Judged r
      → r.effective_condition ≡ some e
      → Verdict e r.status r.assignments
  Verdict-known r e judged known = subst (λ o. JudgedBy o r) known judged

  -- A branch whose result is `UNREACHABLE` is processed under no assignment.
  pub unreachable_never_processed :
      (i : ℕ) (r : BranchWitness) (a : Assignment)
      → get_elem? out i ≡ some r
      → r.status ≡ unreachable
      → get_elem? (process_blocks a true bs) i ≡ some (r.directive, some false)
  unreachable_never_processed i r a at dead =
      let judged = AllJudged-get out i r all_judged at in
      elim (Option-cases r.effective_condition) [
        | inl open_ ↦
            let status : r.status ≡ unsupported = subst (λ o. JudgedBy o r) open_ judged in
            absurd (cc (status, dead))
        | inr (e, known) ↦
            let never : (a : Assignment) → eval a e ≡ false =
              subst (λ s. Verdict e s r.assignments) dead (Verdict-known r e judged known) in
            visited i r a at
            ∙ ap (λ o. some (r.directive, Option.map (eval a) o)) known
            ∙ ap (λ b. some (r.directive, some b)) (never a)
      ]

  -- A branch whose result is `SATISFIABLE` is processed under some assignment.
  pub satisfiable_processed :
      (i : ℕ) (r : BranchWitness)
      → get_elem? out i ≡ some r
      → r.status ≡ satisfiable
      → (a : Assignment) × (get_elem? (process_blocks a true bs) i ≡ some (r.directive, some true))
  satisfiable_processed i r at live =
      let judged = AllJudged-get out i r all_judged at in
      elim (Option-cases r.effective_condition) [
        | inl open_ ↦
            let status : r.status ≡ unsupported = subst (λ o. JudgedBy o r) open_ judged in
            absurd (cc (status, live))
        | inr (e, known) ↦
            let (w, _, holds) : Verdict e satisfiable r.assignments =
              subst (λ s. Verdict e s r.assignments) live (Verdict-known r e judged known) in
            (
              assigned w,
              visited i r (assigned w) at
                  ∙ ap (λ o. some (r.directive, Option.map (eval (assigned w)) o)) known
                  ∙ ap (λ b. some (r.directive, some b)) holds,
            )
      ]

-- ===== src/Preprocessor/Branches/Readings.antt =====
-- What the results of configuration_space.py say under an assignment, for each of the calls that
-- walk the conditional directives.
use mathlib.Core.Option
use mathlib.Core.List.{map-append}
use cgull.Prelude.{
  true, false, not, ◌&&◌, List, [], ◌∷◌, ◌++◌, Option, none, some, ◌≡◌, refl, ap, ap₂, sym, ◌∙◌,
  arith, map,
}
use cgull.Preprocessor.Exec.{limit_exceeded, Result, ok, raised}
use cgull.Preprocessor.Expression.{Expression, constant, Assignment, eval, expression_atoms}
use cgull.Preprocessor.Expression.Meaning.{eval-conjunction, eval-disjunction, eval-negate}
use cgull.Preprocessor.Expression.Simplify.{conjunction, disjunction, negate}
use cgull.Preprocessor.Robdd.{ResourceLimits, new_manager}
use cgull.Preprocessor.Robdd.Queries.{Witness, run_in}
use cgull.Preprocessor.Branches.{
  Directive, block, Branches, no_branch, branch, Blocks, no_block, another, BranchWitness,
  assign_all, then_result, judged, solve_in, solve, chained, append_unsupported,
  append_unsupported_each,
}
use cgull.Preprocessor.Branches.Processed.{Visit, visit_open, visit_open_each}

pub then-ok {ℓ κ} :
    {A : Type ℓ} {B : Type κ} (r : Result A) (f : A → Result B) (b : B)
    → then_result r f ≡ ok b
    → (a : A) × (r ≡ ok a) × (f a ≡ ok b)
then-ok (ok a) f b h = (a, refl, h)
then-ok (raised e) f b h = absurd (cc h)

pub ok-inj {ℓ} : {A : Type ℓ} (x y : A) → ok x ≡ ok y → x ≡ y
ok-inj x y h = cc h

-- What `chained` returns is put together from what its parts return.
pub chained-ok :
    (r : Result BranchWitness) (c t : Result (List BranchWitness)) (out : List BranchWitness)
    → chained r c t ≡ ok out
    → (x : BranchWitness) × (r ≡ ok x)
      × (xs : List BranchWitness) × (c ≡ ok xs)
      × (ys : List BranchWitness) × (t ≡ ok ys)
      × (x ∷ (xs ++ ys) ≡ out)
chained-ok r c t out h =
    let (x, rx, h1) = then-ok r _ out h in
    let (xs, cx, h2) = then-ok c _ out h1 in
    let (ys, ty, h3) = then-ok t _ out h2 in (x, rx, xs, cx, ys, ty, ok-inj _ out h3)

module _ (a : Assignment) where
  -- A result under the assignment.
  abbrev pub reading : BranchWitness → Visit
  reading r = (r.directive, Option.map (eval a) r.effective_condition)

  pub judged-reading :
      (d : Directive) (e : Expression) (o : Result (Option Witness)) (r : BranchWitness)
      → judged d e o ≡ ok r
      → reading r ≡ (d, some (eval a e))
  judged-reading d e (ok none) r h = sym (ap reading (ok-inj _ r h))
  judged-reading d e (ok (some w)) r h =
      let (xs, _, h1) = then-ok (assign_all w) _ r h in sym (ap reading (ok-inj _ r h1))
  judged-reading d e (raised (limit_exceeded x l o)) r h = sym (ap reading (ok-inj _ r h))
  judged-reading d e (raised f) r h = absurd (cc h)

  pub solve-reading :
      (limits : ResourceLimits) (d : Directive) (e : Expression) (r : BranchWitness)
      → solve d e limits ≡ ok r
      → reading r ≡ (d, some (eval a e))
  unfolding solve
  solve-reading limits d e r h =
      judged-reading d e (run_in (new_manager (expression_atoms e) limits) (solve_in e)) r h

  mutual
    unfolding append_unsupported visit_open

    pub unsupported-open : (bs : Branches) → map reading (append_unsupported bs) ≡ visit_open bs
    unsupported-open no_branch = refl
    unsupported-open (branch d children rest) =
        ap (λ vs. (d, none) ∷ vs)
          (map-append reading (append_unsupported_each children) (append_unsupported rest)
            ∙ ap₂ ◌++◌ (unsupported_each-open children) (unsupported-open rest))

    pub unsupported_each-open :
        (bs : Blocks) → map reading (append_unsupported_each bs) ≡ visit_open_each bs
    unsupported_each-open no_block = refl
    unsupported_each-open (another (block bs) rest) =
        map-append reading (append_unsupported bs) (append_unsupported_each rest)
        ∙ ap₂ ◌++◌ (unsupported-open bs) (unsupported_each-open rest)

  pub chained-reading :
      (limits : ResourceLimits) (d : Directive) (e : Expression) (c t : Result (List BranchWitness))
      (vs ws : List Visit) (out : List BranchWitness)
      → ((xs : List BranchWitness) → c ≡ ok xs → map reading xs ≡ vs)
      → ((ys : List BranchWitness) → t ≡ ok ys → map reading ys ≡ ws)
      → chained (solve d e limits) c t ≡ ok out
      → map reading out ≡ (d, some (eval a e)) ∷ (vs ++ ws)
  chained-reading limits d e c t vs ws out hc ht h =
      let (x, rx, xs, cx, ys, ty, whole) = chained-ok (solve d e limits) c t out h in
      ap (map reading) (sym whole)
      ∙ ap₂ (λ v l. v ∷ l) (solve-reading limits d e x rx)
          (map-append reading xs ys ∙ ap₂ ◌++◌ (hc xs cx) (ht ys ty))

  pub eval-remaining :
      (context covered : Expression)
      → eval a (conjunction (context ∷ negate covered ∷ []))
        ≡ (eval a context && not (eval a covered))
  eval-remaining context covered =
      eval-conjunction a (context ∷ negate covered ∷ []) ∙ rw (eval-negate a covered) (ground arith)

  pub eval-both : (x y : Expression) → eval a (conjunction (x ∷ y ∷ [])) ≡ (eval a x && eval a y)
  eval-both x y = eval-conjunction a (x ∷ y ∷ []) ∙ ground arith

  pub searching_on :
      (context covered c : Expression)
      → (eval a context && not (eval a (disjunction (covered ∷ c ∷ [])))) ≡ (
          (eval a context && not (eval a covered))
          && not ((eval a context && not (eval a covered)) && eval a c))
  searching_on context covered c =
      ap (λ b. eval a context && not b) (eval-disjunction a (covered ∷ c ∷ [])) ∙ ground arith

  -- A chain starts searching in its surroundings, and stops after an `#else`.
  pub search_starts :
      (context : Expression) → (eval a context && not (eval a (constant false))) ≡ eval a context
  unfolding eval
  search_starts context = ground arith

  pub search_ends :
      (context : Expression) → (eval a context && not (eval a (constant true))) ≡ false
  unfolding eval
  search_ends context = ground arith

-- ===== src/Preprocessor/Expression/Atoms.antt =====
-- Normalisation brings in no atom, and the value of a condition rests on its atoms alone.
use mathlib.Core.Option
use cgull.Prelude.{
  Bool, true, false, not, ◌&&◌, ◌||◌, List, [], ◌∷◌, ◌++◌, Option, none, some, ◌≡◌, refl, ap, ap₂,
  sym, ◌∙◌, inl, inr, arith, elem, unique, keep, every, Bool-cases, every_intro, every-unique,
  every-append, &&_iff,
}
use cgull.Preprocessor.Expression.{
  Expression, constant, negation, Operands, nil, cons, to_list, from_list, Assignment, eval,
  eval_all, eval_any, expression_atoms, operand_atoms,
}
use cgull.Preprocessor.Expression.Equality.{expression_eq, same_bool, same_bool_iff}
use cgull.Preprocessor.Expression.Meaning.{to_list-from_list, every-sort}
use cgull.Preprocessor.Expression.Order.{sort_by_key}
use cgull.Preprocessor.Expression.Simplify.{
  negate_simplified, collect_and, collect_or, has_complement, absorbed_and, absorbed_or, finish_and,
  finish_or, reduce_and, reduce_or, returned_and, returned_or, join_and, join_or, simplify,
  simplify_each,
}

module _ (p : Expression → Bool) where
  -- Every atom passes the test.
  abbrev pub over : Expression → Bool
  over e = every p (expression_atoms e)

  abbrev pub over_all : List Expression → Bool
  over_all es = every (λ e. every p (expression_atoms e)) es

  pub operands-over : (os : Operands) → every p (operand_atoms os) ≡ over_all (to_list os)
  unfolding expression_atoms
  operands-over nil = refl
  operands-over (cons e os) =
      every-append p (expression_atoms e) (operand_atoms os)
      ∙ ap (λ b. every p (expression_atoms e) && b) (operands-over os)

  pub negate_simplified-over : (e : Expression) → over (negate_simplified e) ≡ over e
  unfolding negate_simplified expression_atoms
  negate_simplified-over (constant b) = refl
  negate_simplified-over e = refl

  of_sorted :
      (es : List Expression) → every p (operand_atoms (from_list (sort_by_key es))) ≡ over_all es
  of_sorted es =
      operands-over (from_list (sort_by_key es))
      ∙ ap over_all (to_list-from_list (sort_by_key es))
      ∙ every-sort (λ e. every p (expression_atoms e)) es

  finish_and-over : (es : List Expression) → over (finish_and es) ≡ over_all es
  unfolding finish_and expression_atoms
  finish_and-over [] = refl
  finish_and-over (e ∷ []) = ground arith
  finish_and-over (e ∷ f ∷ es) = of_sorted (e ∷ f ∷ es)

  finish_or-over : (es : List Expression) → over (finish_or es) ≡ over_all es
  unfolding finish_or expression_atoms
  finish_or-over [] = refl
  finish_or-over (e ∷ []) = ground arith
  finish_or-over (e ∷ f ∷ es) = of_sorted (e ∷ f ∷ es)

  keep-over :
      (q : Expression → Bool) (es : List Expression)
      → over_all es ≡ true
      → over_all (keep q es) ≡ true
  keep-over q [] h = refl
  keep-over q (e ∷ es) h = ground (arith, keep-over q es)

  reduce_and-over : (es : List Expression) → over_all es ≡ true → over (reduce_and es) ≡ true
  unfolding reduce_and expression_atoms
  reduce_and-over es h = elim (Bool-cases (has_complement es)) [
    | inl c ↦ rw c
    | inr n ↦ rw n (
        finish_and-over (keep (λ e. not (absorbed_and es e)) es)
        ∙ keep-over (λ e. not (absorbed_and es e)) es h)
  ]

  reduce_or-over : (es : List Expression) → over_all es ≡ true → over (reduce_or es) ≡ true
  unfolding reduce_or expression_atoms
  reduce_or-over es h = elim (Bool-cases (has_complement es)) [
    | inl c ↦ rw c
    | inr n ↦ rw n (
        finish_or-over (keep (λ e. not (absorbed_or es e)) es)
        ∙ keep-over (λ e. not (absorbed_or es e)) es h)
  ]

  abbrev collected : Option (List Expression) → Bool
  collected none = true
  collected (some os) = over_all os

  collected-map :
      (xs : List Expression) (o : Option (List Expression))
      → over_all xs ≡ true
      → collected o ≡ true
      → collected (Option.map (λ r. xs ++ r) o) ≡ true
  collected-map xs none h k = refl
  collected-map xs (some r) h k =
      every-append (λ e. every p (expression_atoms e)) xs r ∙ (&&_iff _ _).1 (h, k)

  collected-push :
      (x : Expression) (o : Option (List Expression))
      → over x ≡ true
      → collected o ≡ true
      → collected (Option.map (λ r. x ∷ r) o) ≡ true
  collected-push x none h k = refl
  collected-push x (some r) h k = (&&_iff _ _).1 (h, k)

  collect_and-over : (es : List Expression) → over_all es ≡ true → collected (collect_and es) ≡ true
  unfolding collect_and expression_atoms
  collect_and-over [] h = refl
  collect_and-over (constant false ∷ es) h = refl
  collect_and-over (constant true ∷ es) h = collect_and-over es h
  collect_and-over (Expression.conjunction os ∷ es) h =
      let (here, there) = (&&_iff _ _).0 h in
      collected-map (to_list os) (collect_and es) (sym (operands-over os) ∙ here)
        (collect_and-over es there)
  collect_and-over (e ∷ es) h =
      let (here, there) = (&&_iff _ _).0 h in
      collected-push e (collect_and es) here (collect_and-over es there)

  collect_or-over : (es : List Expression) → over_all es ≡ true → collected (collect_or es) ≡ true
  unfolding collect_or expression_atoms
  collect_or-over [] h = refl
  collect_or-over (constant true ∷ es) h = refl
  collect_or-over (constant false ∷ es) h = collect_or-over es h
  collect_or-over (Expression.disjunction os ∷ es) h =
      let (here, there) = (&&_iff _ _).0 h in
      collected-map (to_list os) (collect_or es) (sym (operands-over os) ∙ here)
        (collect_or-over es there)
  collect_or-over (e ∷ es) h =
      let (here, there) = (&&_iff _ _).0 h in
      collected-push e (collect_or es) here (collect_or-over es there)

  returned_and-over :
      (o : Option (List Expression)) → collected o ≡ true → over (returned_and o) ≡ true
  returned_and-over none h = unfold expression_atoms in refl
  returned_and-over (some os) h =
      reduce_and-over (unique os) (every-unique (λ e. every p (expression_atoms e)) os ∙ h)

  returned_or-over :
      (o : Option (List Expression)) → collected o ≡ true → over (returned_or o) ≡ true
  returned_or-over none h = unfold expression_atoms in refl
  returned_or-over (some os) h =
      reduce_or-over (unique os) (every-unique (λ e. every p (expression_atoms e)) os ∙ h)

  mutual
    unfolding simplify expression_atoms join_and join_or

    simplify_Over : (e : Expression) → over e ≡ true → over (simplify e) ≡ true
    simplify_Over (negation e) h = negate_simplified-over (simplify e) ∙ simplify_Over e h
    simplify_Over (Expression.conjunction os) h =
        returned_and-over (collect_and (simplify_each os))
          (collect_and-over (simplify_each os) (simplify_each_Over os h))
    simplify_Over (Expression.disjunction os) h =
        returned_or-over (collect_or (simplify_each os))
          (collect_or-over (simplify_each os) (simplify_each_Over os h))
    simplify_Over e h = h

    simplify_each_Over :
        (os : Operands) → every p (operand_atoms os) ≡ true → over_all (simplify_each os) ≡ true
    simplify_each_Over nil h = refl
    simplify_each_Over (cons e os) h =
        let (here, there) =
          (&&_iff _ _).0 (sym (every-append p (expression_atoms e) (operand_atoms os)) ∙ h) in
        (&&_iff _ _).1 (simplify_Over e here, simplify_each_Over os there)

  -- What holds of the atoms of a condition holds of those of its normal form.
  pub simplify-over : (e : Expression) → over e ≡ true → over (simplify e) ≡ true
  simplify-over = simplify_Over

-- The test that two assignments agree at an atom.
abbrev agree : Assignment → Assignment → Expression → Bool
agree a b x = same_bool (a x) (b x)

mutual
  unfolding eval expression_atoms

  eval-agree : (a b : Assignment) (e : Expression) → over (agree a b) e ≡ true → eval a e ≡ eval b e
  eval-agree a b (constant c) h = refl
  eval-agree a b (negation e) h = ap not (eval-agree a b e h)
  eval-agree a b (Expression.conjunction os) h = eval_all-agree a b os h
  eval-agree a b (Expression.disjunction os) h = eval_any-agree a b os h
  eval-agree a b e h = (same_bool_iff _ _).0 ((&&_iff _ _).0 h).0

  eval_all-agree :
      (a b : Assignment) (os : Operands)
      → every (agree a b) (operand_atoms os) ≡ true
      → eval_all a os ≡ eval_all b os
  eval_all-agree a b nil h = refl
  eval_all-agree a b (cons e os) h =
      let (here, there) =
        (&&_iff _ _).0
          (sym (every-append (agree a b) (expression_atoms e) (operand_atoms os)) ∙ h) in
      ap₂ ◌&&◌ (eval-agree a b e here) (eval_all-agree a b os there)

  eval_any-agree :
      (a b : Assignment) (os : Operands)
      → every (agree a b) (operand_atoms os) ≡ true
      → eval_any a os ≡ eval_any b os
  eval_any-agree a b nil h = refl
  eval_any-agree a b (cons e os) h =
      let (here, there) =
        (&&_iff _ _).0
          (sym (every-append (agree a b) (expression_atoms e) (operand_atoms os)) ∙ h) in
      ap₂ ◌||◌ (eval-agree a b e here) (eval_any-agree a b os there)

-- Two assignments that agree on the atoms of a condition give it the same value.
pub eval-eq_of_atoms :
    (a b : Assignment) (e : Expression)
    → ((x : Expression) → elem x (expression_atoms e) ≡ true → a x ≡ b x)
    → eval a e ≡ eval b e
eval-eq_of_atoms a b e f =
    eval-agree a b e
      (every_intro (agree a b) (expression_atoms e) (λ x m. (same_bool_iff (a x) (b x)).1 (f x m)))

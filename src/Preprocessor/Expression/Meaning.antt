-- ===== src/Preprocessor/Expression/Meaning.antt =====
-- Normalisation keeps the Boolean meaning of a condition.
use mathlib.Core.Option
use cgull.Prelude.{
  map, Bool, true, false, not, ◌&&◌, ◌||◌, List, [], ◌∷◌, ◌++◌, Option, none, some, ◌≡◌, refl, ap,
  ap₂, sym, ◌∙◌, inl, inr, arith, elem, unique, keep, every, exists, Bool-cases, Bool-ext,
  every-elem, exists-elem, every_intro, exists_inv, elem-keep, every-unique, exists-unique,
  every-append, exists-append, &&_iff, ||_iff,
}
use cgull.Preprocessor.Expression.{
  Expression, constant, negation, Operands, nil, cons, to_list, from_list, Assignment, eval,
  eval_all, eval_any,
}
use cgull.Preprocessor.Expression.Equality.{expression_eq}
use cgull.Preprocessor.Expression.Order.{insert_by_key, sort_by_key}
use cgull.Preprocessor.Expression.Simplify.{
  negate, conjunction, disjunction, negate_simplified, collect_and, collect_or, complement,
  has_complement, absorbed_and, absorbed_or, finish_and, finish_or, reduce_and, reduce_or,
  returned_and, returned_or, join_and, join_or, simplify, simplify_each,
}

pub to_list-from_list : (es : List Expression) → to_list (from_list es) ≡ es
to_list-from_list [] = refl
to_list-from_list (e ∷ es) = ap (λ r. e ∷ r) (to_list-from_list es)

-- A test of all or of some members does not see the order that the sort gives them.
module _ (p : Expression → Bool) where
  every-insert :
      (e : Expression) (es : List Expression) → every p (insert_by_key e es) ≡ every p (e ∷ es)
  unfolding insert_by_key
  every-insert e [] = refl
  every-insert e (x ∷ es) = ground (arith, every-insert e es)

  pub every-sort : (es : List Expression) → every p (sort_by_key es) ≡ every p es
  unfolding sort_by_key
  every-sort [] = refl
  every-sort (e ∷ es) = every-insert e (sort_by_key es) ∙ ap (λ b. p e && b) (every-sort es)

  exists-insert :
      (e : Expression) (es : List Expression) → exists p (insert_by_key e es) ≡ exists p (e ∷ es)
  unfolding insert_by_key
  exists-insert e [] = refl
  exists-insert e (x ∷ es) = ground (arith, exists-insert e es)

  pub exists-sort : (es : List Expression) → exists p (sort_by_key es) ≡ exists p es
  unfolding sort_by_key
  exists-sort [] = refl
  exists-sort (e ∷ es) = exists-insert e (sort_by_key es) ∙ ap (λ b. p e || b) (exists-sort es)

module _ (a : Assignment) where
  pub eval_all-every : (os : Operands) → eval_all a os ≡ every (eval a) (to_list os)
  unfolding eval
  eval_all-every nil = refl
  eval_all-every (cons e os) = ap (λ b. eval a e && b) (eval_all-every os)

  pub eval_any-exists : (os : Operands) → eval_any a os ≡ exists (eval a) (to_list os)
  unfolding eval
  eval_any-exists nil = refl
  eval_any-exists (cons e os) = ap (λ b. eval a e || b) (eval_any-exists os)

  eval-negate_simplified : (e : Expression) → eval a (negate_simplified e) ≡ not (eval a e)
  unfolding negate_simplified eval
  eval-negate_simplified (negation e) = ground arith
  eval-negate_simplified e = refl

  eval-complement : (e : Expression) → eval a (complement e) ≡ not (eval a e)
  unfolding eval
  eval-complement (negation e) = ground arith
  eval-complement e = refl

  eval-conjunction_of :
      (es : List Expression) → eval a (Expression.conjunction (from_list es)) ≡ every (eval a) es
  unfolding eval
  eval-conjunction_of es =
      eval_all-every (from_list es) ∙ ap (every (eval a)) (to_list-from_list es)

  eval-disjunction_of :
      (es : List Expression) → eval a (Expression.disjunction (from_list es)) ≡ exists (eval a) es
  unfolding eval
  eval-disjunction_of es =
      eval_any-exists (from_list es) ∙ ap (exists (eval a)) (to_list-from_list es)

  eval-finish_and : (es : List Expression) → eval a (finish_and es) ≡ every (eval a) es
  unfolding finish_and eval
  eval-finish_and [] = refl
  eval-finish_and (e ∷ []) = ground arith
  eval-finish_and (e ∷ f ∷ es) =
      eval-conjunction_of (sort_by_key (e ∷ f ∷ es)) ∙ every-sort (eval a) (e ∷ f ∷ es)

  eval-finish_or : (es : List Expression) → eval a (finish_or es) ≡ exists (eval a) es
  unfolding finish_or eval
  eval-finish_or [] = refl
  eval-finish_or (e ∷ []) = ground arith
  eval-finish_or (e ∷ f ∷ es) =
      eval-disjunction_of (sort_by_key (e ∷ f ∷ es)) ∙ exists-sort (eval a) (e ∷ f ∷ es)

  complement_clash :
      (es : List Expression)
      → has_complement es ≡ true
      → (every (eval a) es ≡ false) × (exists (eval a) es ≡ true)
  unfolding has_complement
  complement_clash es h =
      let (e, m, c) = exists_inv (λ x. elem (complement x) es) es h in
      ground (
        arith,
        every-elem (eval a) e es m,
        every-elem (eval a) (complement e) es c,
        exists-elem (eval a) e es m,
        exists-elem (eval a) (complement e) es c,
        eval-complement e,
      )

  -- What absorption drops from a conjunction, the operands that stay imply.
  module _ (es : List Expression) where
    abbrev kept_and : List Expression
    kept_and = keep (λ e. not (absorbed_and es e)) es

    kept_and_holds :
        (e : Expression)
        → elem e es ≡ true
        → absorbed_and es e ≡ false
        → every (eval a) kept_and ≡ true
        → eval a e ≡ true
    kept_and_holds e m n k =
        every-elem (eval a) e kept_and (elem-keep (λ x. not (absorbed_and es x)) e es ∙ rw (m, n)) k

    abbrev kept_or : List Expression
    kept_or = keep (λ e. not (absorbed_or es e)) es

    kept_or_holds :
        (e : Expression)
        → elem e es ≡ true
        → absorbed_or es e ≡ false
        → eval a e ≡ true
        → exists (eval a) kept_or ≡ true
    kept_or_holds e m n k =
        exists-elem (eval a) e kept_or (elem-keep (λ x. not (absorbed_or es x)) e es ∙ rw (m, n)) k

    mutual
      unfolding absorbed_and absorbed_or eval

      implied :
          (e : Expression) → elem e es ≡ true → every (eval a) kept_and ≡ true → eval a e ≡ true
      implied (Expression.disjunction os) m k =
          elim (Bool-cases (exists (λ t. elem t es) (to_list os))) [
            | inl some_term ↦ implied_any os some_term k
            | inr none_term ↦ kept_and_holds (Expression.disjunction os) m none_term k
          ]
      implied e m k = kept_and_holds e m refl k

      implied_any :
          (os : Operands)
          → exists (λ t. elem t es) (to_list os) ≡ true
          → every (eval a) kept_and ≡ true
          → eval_any a os ≡ true
      implied_any nil h k = cc
      implied_any (cons e os) h k = elim ((||_iff _ _).0 h) [
        | inl m ↦ (||_iff _ _).1 (inl (implied e m k))
        | inr r ↦ (||_iff _ _).1 (inr (implied_any os r k))
      ]

    mutual
      unfolding absorbed_and absorbed_or eval

      covered :
          (e : Expression) → elem e es ≡ true → eval a e ≡ true → exists (eval a) kept_or ≡ true
      covered (Expression.conjunction os) m h =
          elim (Bool-cases (exists (λ t. elem t es) (to_list os))) [
            | inl some_term ↦ covered_all os some_term h
            | inr none_term ↦ kept_or_holds (Expression.conjunction os) m none_term h
          ]
      covered e m h = kept_or_holds e m refl h

      covered_all :
          (os : Operands)
          → exists (λ t. elem t es) (to_list os) ≡ true
          → eval_all a os ≡ true
          → exists (eval a) kept_or ≡ true
      covered_all nil h k = cc
      covered_all (cons e os) h k = elim ((||_iff _ _).0 h) [
        | inl m ↦ covered e m ((&&_iff _ _).0 k).0
        | inr r ↦ covered_all os r ((&&_iff _ _).0 k).1
      ]

    every-kept_and : every (eval a) kept_and ≡ every (eval a) es
    every-kept_and =
        Bool-ext _ _ (λ k. every_intro (eval a) es (λ x m. implied x m k))
          (λ h. every_intro (eval a) kept_and (λ x m.
            every-elem (eval a) x es
              ((&&_iff _ _).0 (sym (elem-keep (λ e. not (absorbed_and es e)) x es) ∙ m)).0 h))

    exists-kept_or : exists (eval a) kept_or ≡ exists (eval a) es
    exists-kept_or =
        Bool-ext _ _
          (λ k.
            let (x, m, h) = exists_inv (eval a) kept_or k in
            exists-elem (eval a) x es
              ((&&_iff _ _).0 (sym (elem-keep (λ e. not (absorbed_or es e)) x es) ∙ m)).0 h)
          (λ h. let (x, m, v) = exists_inv (eval a) es h in covered x m v)

  eval-reduce_and : (es : List Expression) → eval a (reduce_and es) ≡ every (eval a) es
  unfolding reduce_and
  eval-reduce_and es = elim (Bool-cases (has_complement es)) [
    | inl c ↦ rw c (unfold eval in sym (complement_clash es c).0)
    | inr n ↦ rw n (eval-finish_and (kept_and es) ∙ every-kept_and es)
  ]

  eval-reduce_or : (es : List Expression) → eval a (reduce_or es) ≡ exists (eval a) es
  unfolding reduce_or
  eval-reduce_or es = elim (Bool-cases (has_complement es)) [
    | inl c ↦ rw c (unfold eval in sym (complement_clash es c).1)
    | inr n ↦ rw n (eval-finish_or (kept_or es) ∙ exists-kept_or es)
  ]

  -- The loops: an early return means the operands decide the value, else they are collected.
  collected_and : Option (List Expression) → Bool
  collected_and none = false
  collected_and (some os) = every (eval a) os

  collected_and-map :
      (xs : List Expression) (o : Option (List Expression))
      → collected_and (Option.map (λ r. xs ++ r) o) ≡ (every (eval a) xs && collected_and o)
  unfolding collected_and
  collected_and-map xs none = ground arith
  collected_and-map xs (some r) = every-append (eval a) xs r

  collected_and-push :
      (x : Expression) (o : Option (List Expression))
      → collected_and (Option.map (λ r. x ∷ r) o) ≡ (eval a x && collected_and o)
  unfolding collected_and
  collected_and-push x none = ground arith
  collected_and-push x (some r) = refl

  collect_and_lem : (es : List Expression) → collected_and (collect_and es) ≡ every (eval a) es
  unfolding collect_and collected_and eval
  collect_and_lem [] = refl
  collect_and_lem (constant false ∷ es) = refl
  collect_and_lem (constant true ∷ es) = collect_and_lem es
  collect_and_lem (Expression.conjunction os ∷ es) =
      collected_and-map (to_list os) (collect_and es)
      ∙ ap₂ ◌&&◌ (sym (eval_all-every os)) (collect_and_lem es)
  collect_and_lem (e ∷ es) =
      collected_and-push e (collect_and es) ∙ ap (λ b. eval a e && b) (collect_and_lem es)

  collected_or : Option (List Expression) → Bool
  collected_or none = true
  collected_or (some os) = exists (eval a) os

  collected_or-map :
      (xs : List Expression) (o : Option (List Expression))
      → collected_or (Option.map (λ r. xs ++ r) o) ≡ (exists (eval a) xs || collected_or o)
  unfolding collected_or
  collected_or-map xs none = ground arith
  collected_or-map xs (some r) = exists-append (eval a) xs r

  collected_or-push :
      (x : Expression) (o : Option (List Expression))
      → collected_or (Option.map (λ r. x ∷ r) o) ≡ (eval a x || collected_or o)
  unfolding collected_or
  collected_or-push x none = ground arith
  collected_or-push x (some r) = refl

  collect_or_lem : (es : List Expression) → collected_or (collect_or es) ≡ exists (eval a) es
  unfolding collect_or collected_or eval
  collect_or_lem [] = refl
  collect_or_lem (constant true ∷ es) = refl
  collect_or_lem (constant false ∷ es) = collect_or_lem es
  collect_or_lem (Expression.disjunction os ∷ es) =
      collected_or-map (to_list os) (collect_or es)
      ∙ ap₂ ◌||◌ (sym (eval_any-exists os)) (collect_or_lem es)
  collect_or_lem (e ∷ es) =
      collected_or-push e (collect_or es) ∙ ap (λ b. eval a e || b) (collect_or_lem es)

  eval-returned_and : (o : Option (List Expression)) → eval a (returned_and o) ≡ collected_and o
  unfolding collected_and eval
  eval-returned_and none = refl
  eval-returned_and (some os) = eval-reduce_and (unique os) ∙ every-unique (eval a) os

  eval-join_and : (es : List Expression) → eval a (join_and es) ≡ every (eval a) es
  unfolding join_and
  eval-join_and es = eval-returned_and (collect_and es) ∙ collect_and_lem es

  eval-returned_or : (o : Option (List Expression)) → eval a (returned_or o) ≡ collected_or o
  unfolding collected_or eval
  eval-returned_or none = refl
  eval-returned_or (some os) = eval-reduce_or (unique os) ∙ exists-unique (eval a) os

  eval-join_or : (es : List Expression) → eval a (join_or es) ≡ exists (eval a) es
  unfolding join_or
  eval-join_or es = eval-returned_or (collect_or es) ∙ collect_or_lem es

  mutual
    unfolding simplify eval

    meaning_kept : (e : Expression) → eval a (simplify e) ≡ eval a e
    meaning_kept (negation e) = eval-negate_simplified (simplify e) ∙ ap not (meaning_kept e)
    meaning_kept (Expression.conjunction es) = eval-join_and (simplify_each es) ∙ every_simplify es
    meaning_kept (Expression.disjunction es) = eval-join_or (simplify_each es) ∙ exists_simplify es
    meaning_kept e = refl

    every_simplify : (es : Operands) → every (eval a) (simplify_each es) ≡ eval_all a es
    every_simplify nil = refl
    every_simplify (cons e es) = ap₂ ◌&&◌ (meaning_kept e) (every_simplify es)

    exists_simplify : (es : Operands) → exists (eval a) (simplify_each es) ≡ eval_any a es
    exists_simplify nil = refl
    exists_simplify (cons e es) = ap₂ ◌||◌ (meaning_kept e) (exists_simplify es)

  -- Simplifying a condition changes its value under no assignment.
  pub eval-simplify : (e : Expression) → eval a (simplify e) ≡ eval a e
  eval-simplify = meaning_kept

  pub eval-negate : (e : Expression) → eval a (negate e) ≡ not (eval a e)
  unfolding negate
  eval-negate e = eval-negate_simplified (simplify e) ∙ ap not (eval-simplify e)

  every-map : (es : List Expression) → every (eval a) (map simplify es) ≡ every (eval a) es
  every-map [] = refl
  every-map (e ∷ es) = ap₂ ◌&&◌ (eval-simplify e) (every-map es)

  exists-map : (es : List Expression) → exists (eval a) (map simplify es) ≡ exists (eval a) es
  exists-map [] = refl
  exists-map (e ∷ es) = ap₂ ◌||◌ (eval-simplify e) (exists-map es)

  -- The smart constructors have the meaning of the connectives.
  pub eval-conjunction : (es : List Expression) → eval a (conjunction es) ≡ every (eval a) es
  unfolding conjunction
  eval-conjunction es = eval-join_and (map simplify es) ∙ every-map es

  pub eval-disjunction : (es : List Expression) → eval a (disjunction es) ≡ exists (eval a) es
  unfolding disjunction
  eval-disjunction es = eval-join_or (map simplify es) ∙ exists-map es

  -- `negate`, `conjunction` and `disjunction` have the meaning of their connectives, however they
  -- normalise their arguments.
  pub eval-connectives :
      (e : Expression) (es : List Expression)
      → (eval a (negate e) ≡ not (eval a e))
        × (eval a (conjunction es) ≡ every (eval a) es)
        × (eval a (disjunction es) ≡ exists (eval a) es)
  eval-connectives e es = (eval-negate e, eval-conjunction es, eval-disjunction es)

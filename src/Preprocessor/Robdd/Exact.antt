-- ===== src/Preprocessor/Robdd/Exact.antt =====
-- The public query helpers of robdd.py, with the manager that each makes.
use cgull.Prelude.{
  ◌≤◌, Bool, true, false, ◌++◌, Option, none, some, ◌≡◌, ◌↔◌, refl, ap, sym, ◌∙◌, ◌⊎◌, inl, inr,
  arith, elem, ltb, Bool-cases, ltb→lt,
}
use cgull.Preprocessor.Exec.{ok}
use cgull.Preprocessor.Expression.{Expression, Assignment, eval, expression_atoms, expression_size}
use cgull.Preprocessor.Expression.Equality.{expression_eq}
use cgull.Preprocessor.Expression.Meaning.{eval-simplify}
use cgull.Preprocessor.Expression.Simplify.{simplify}
use cgull.Preprocessor.Expression.Size.{size-simplify-le}
use cgull.Preprocessor.Robdd.{ResourceLimits, new_manager, build}
use cgull.Preprocessor.Robdd.Answers.{
  ordered_of, ordered_of_lem, Known-left, Known-right, Known-own, Settles, run-Settles,
  on_limit-Settles, Equivalent, equivalent_in-Meets, Satisfiable, satisfiable_in-Meets, Implies,
  implies_in-Meets,
}
use cgull.Preprocessor.Robdd.Build.{build-Meets}
use cgull.Preprocessor.Robdd.BuildParts.{IsBuilt}
use cgull.Preprocessor.Robdd.Invariant.{Meets-bind, Meets-ok, Meets-weaken, Denotes}
use cgull.Preprocessor.Robdd.Queries.{
  Witness, witness_assignment, query_atoms, run_in, with_manager, equivalent_in, equivalent,
  satisfiable_in, satisfiable, implies_in, implies, canonical_in, canonical_or_none, choose_smaller,
  exact_simplify,
}
use cgull.Preprocessor.Robdd.Witnesses.{witness_assignment_returns}
use cgull.Preprocessor.Robdd.Reading.{expression_atoms-is_atom, to_expression-Meets}

settled-Equivalent :
    (left right : Expression) (limits : ResourceLimits)
    → Settles (Equivalent left right) (
        run_in
          (new_manager (query_atoms (expression_atoms left ++ expression_atoms right)) limits)
          (equivalent_in left right))
settled-Equivalent left right limits =
    let found = expression_atoms left ++ expression_atoms right in
    run-Settles (Equivalent left right) found limits (equivalent_in left right) (λ m s.
      equivalent_in-Meets (ordered_of found) (ordered_of_lem found).0 left right m
        (Known-left left (expression_atoms right)) (Known-right right (expression_atoms left)) s)

-- Where no resource limit is exceeded, the query answers `True` exactly for conditions with the
-- same value under every assignment.
pub equivalent_exact :
    (left right : Expression) (limits : ResourceLimits) (b : Bool)
    → run_in
        (new_manager (query_atoms (expression_atoms left ++ expression_atoms right)) limits)
        (equivalent_in left right)
      ≡ ok b
    → (b ≡ true) ↔ ((a : Assignment) → eval a left ≡ eval a right)
equivalent_exact left right limits b e = let h = settled-Equivalent left right limits in rw e at h

equivalent_returns :
    (left right : Expression) (limits : ResourceLimits)
    → (b : Bool) × (equivalent left right limits ≡ ok b)
      × (b ≡ true → (a : Assignment) → eval a left ≡ eval a right)
unfolding equivalent with_manager
equivalent_returns left right limits =
    let (b, e, q) =
      on_limit-Settles (Equivalent left right) false _ (settled-Equivalent left right limits) in
    (b, e, λ t. elim q [ inl exact ↦ exact.0 t | inr default ↦ absurd (cc (t, default)) ])

satisfiable_returns :
    (e : Expression) (limits : ResourceLimits)
    → (b : Bool) × (satisfiable e limits ≡ ok b) × (b ≡ false → (a : Assignment) → eval a e ≡ false)
unfolding satisfiable with_manager
satisfiable_returns e limits =
    let found = expression_atoms e in
    let settled = run-Settles (Satisfiable e) found limits (satisfiable_in e) (λ m s.
      satisfiable_in-Meets (ordered_of found) (ordered_of_lem found).0 e m (Known-own e) s) in
    let (b, r, q) = on_limit-Settles (Satisfiable e) true _ settled in
    (b, r, λ f. elim q [ inl exact ↦ exact.1 f | inr default ↦ absurd (cc (f, default)) ])

settled-Satisfiable :
    (e : Expression) (limits : ResourceLimits)
    → Settles
        (Satisfiable e)
        (run_in (new_manager (query_atoms (expression_atoms e)) limits) (satisfiable_in e))
settled-Satisfiable e limits =
    let found = expression_atoms e in
    run-Settles (Satisfiable e) found limits (satisfiable_in e)
      (λ m s. satisfiable_in-Meets (ordered_of found) (ordered_of_lem found).0 e m (Known-own e) s)

-- Where no resource limit is exceeded, the query answers `True` exactly if some assignment makes
-- the condition true.
pub satisfiable_exact :
    (e : Expression) (limits : ResourceLimits) (b : Bool)
    → run_in (new_manager (query_atoms (expression_atoms e)) limits) (satisfiable_in e) ≡ ok b
    → (b ≡ true) ↔ ((a : Assignment) × (eval a e ≡ true))
satisfiable_exact e limits b q =
    let h : Satisfiable e b = (let settled = settled-Satisfiable e limits in rw q at settled) in
    (
      h.0,
      λ (a, holds). elim (Bool-cases b) [
        | inl live ↦ live
        | inr dead ↦ absurd (cc (h.1 dead a, holds))
      ],
    )

settled-Implies :
    (p c : Expression) (limits : ResourceLimits)
    → Settles (Implies p c) (
        run_in
          (new_manager (query_atoms (expression_atoms p ++ expression_atoms c)) limits)
          (implies_in p c))
settled-Implies p c limits =
    let found = expression_atoms p ++ expression_atoms c in
    run-Settles (Implies p c) found limits (implies_in p c) (λ m s.
      implies_in-Meets (ordered_of found) (ordered_of_lem found).0 p c m
        (Known-left p (expression_atoms c)) (Known-right c (expression_atoms p)) s)

implies_returns :
    (p c : Expression) (limits : ResourceLimits)
    → (b : Bool) × (implies p c limits ≡ ok b)
      × (b ≡ true → (a : Assignment) → eval a p ≡ true → eval a c ≡ true)
unfolding implies with_manager
implies_returns p c limits =
    let (b, e, q) = on_limit-Settles (Implies p c) false _ (settled-Implies p c limits) in
    (b, e, λ t. elim q [ inl exact ↦ exact.0 t | inr default ↦ absurd (cc (t, default)) ])

-- Where no resource limit is exceeded, the query answers `True` exactly if every assignment that
-- makes the premise true makes the consequence true.
pub implies_exact :
    (p c : Expression) (limits : ResourceLimits) (b : Bool)
    → run_in
        (new_manager (query_atoms (expression_atoms p ++ expression_atoms c)) limits)
        (implies_in p c)
      ≡ ok b
    → (b ≡ true) ↔ ((a : Assignment) → eval a p ≡ true → eval a c ≡ true)
implies_exact p c limits b e = let h = settled-Implies p c limits in rw e at h

-- The meaning of the canonical form, where there is one.
abbrev SameMeaning : Expression → Option Expression → Type 0
SameMeaning e none = Unit
SameMeaning e (some c) = (a : Assignment) → eval a c ≡ eval a e

settled_canonical :
    (e : Expression) (limits : ResourceLimits)
    → Settles
        (SameMeaning e)
        (run_in (new_manager (query_atoms (expression_atoms e)) limits) (canonical_or_none e))
unfolding canonical_or_none canonical_in
settled_canonical e limits =
    let found = expression_atoms e in
    let ordered = ordered_of found in
    let atomic = λ (x : Expression) (h : elem x ordered ≡ true).
      expression_atoms-is_atom e x (sym ((ordered_of_lem found).1 x) ∙ h) in
    run-Settles (SameMeaning e) found limits (canonical_or_none e) (λ m s.
      Meets-bind m (λ c _. SameMeaning e (some c)) (λ o _. SameMeaning e o) (canonical_in e) _
        (Meets-bind m (IsBuilt ordered e) (λ c _. SameMeaning e (some c)) (build e) _
          (build-Meets ordered e m (Known-own e) s)
          λ n m1 s1 g1 d1.
            Meets-weaken m1 (λ c m'. Denotes ordered m'.nodes n c) (λ c _. SameMeaning e (some c)) _
              (λ c m' s' g d a. sym (d.meaning a) ∙ g.same _ n d1.lt ∙ d1.meaning a)
              (to_expression-Meets ordered atomic n m1 s1 d1.lt))
        (λ c m2 s2 g2 h. Meets-ok m2 (λ o _. SameMeaning e o) (some c) s2 h))

-- `exact_simplify` always returns an expression, whatever the limits, which has the value of the
-- given one under every assignment and is no larger.
pub exact_simplify_returns :
    (e : Expression) (limits : ResourceLimits)
    → (c : Expression) × (exact_simplify e limits ≡ ok c)
      × ((a : Assignment) → eval a c ≡ eval a e)
      × (expression_size c ≤ expression_size e)
unfolding exact_simplify with_manager
exact_simplify_returns e limits =
    let s = simplify e in
    let (o, r, q) = on_limit-Settles (SameMeaning s) none _ (settled_canonical s limits) in
    let (c, chosen, same, small) = pick o q in
    (
      c,
      ap (choose_smaller s) r ∙ chosen,
      λ a. same a ∙ eval-simplify a e,
      omega (arith, small, size-simplify-le e),
    )
  where
    pick :
        (o : Option Expression)
        → SameMeaning (simplify e) o ⊎ (o ≡ none)
        → (c : Expression) × (choose_smaller (simplify e) (ok o) ≡ ok c)
          × ((a : Assignment) → eval a c ≡ eval a (simplify e))
          × (expression_size c ≤ expression_size (simplify e))
    pick none q = (simplify e, refl, λ a. refl, omega arith)
    pick (some c) (inl same) =
        elim (Bool-cases (ltb (expression_size c) (expression_size (simplify e)))) [
          | inl smaller ↦ (c, rw smaller, same, omega (arith, ltb→lt _ _ smaller))
          | inr other ↦ (simplify e, rw other, λ a. refl, omega arith)
        ]
    pick (some c) (inr none_found) = absurd (cc none_found)

-- If `equivalent` answers `True`, whatever the limits, the conditions have the same value under
-- every assignment.
pub equivalent_sound :
    (left right : Expression) (limits : ResourceLimits)
    → equivalent left right limits ≡ ok true
    → (a : Assignment) → eval a left ≡ eval a right
equivalent_sound left right limits h =
    let (b, e, sound) = equivalent_returns left right limits in sound (ground arith)

-- If `satisfiable` answers `False`, whatever the limits, no assignment makes the condition true.
pub satisfiable_sound :
    (e : Expression) (limits : ResourceLimits)
    → satisfiable e limits ≡ ok false
    → (a : Assignment) → eval a e ≡ false
satisfiable_sound e limits h =
    let (b, r, sound) = satisfiable_returns e limits in sound (ground arith)

-- If `implies` answers `True`, whatever the limits, every assignment that makes the premise true
-- makes the consequence true.
pub implies_sound :
    (p c : Expression) (limits : ResourceLimits) (a : Assignment)
    → implies p c limits ≡ ok true
    → eval a p ≡ true
    → eval a c ≡ true
implies_sound p c limits a h holds =
    let (b, r, sound) = implies_returns p c limits in sound (ground arith) a holds

-- Whatever the limits, none of `equivalent`, `satisfiable`, `implies` and `witness_assignment`
-- raises an exception: each returns an answer.
pub queries_return :
    (left right : Expression) (limits : ResourceLimits)
    → ((b : Bool) × (equivalent left right limits ≡ ok b))
      × ((b : Bool) × (satisfiable left limits ≡ ok b))
      × ((b : Bool) × (implies left right limits ≡ ok b))
      × ((w : Option Witness) × (witness_assignment left limits ≡ ok w))
queries_return left right limits =
    let (b, e, _) = equivalent_returns left right limits in
    let (c, f, _) = satisfiable_returns left limits in
    let (d, g, _) = implies_returns left right limits in
    let (w, h, _) = witness_assignment_returns left limits in ((b, e), (c, f), (d, g), (w, h))

-- ===== src/Preprocessor/Branches/Solved.antt =====
-- `_solve` of configuration_space.py: it returns for every condition, whatever the limits, and its
-- verdict is right.
use cgull.Prelude.{
  Bool, true, false, List, [], ◌∷◌, Option, none, some, ◌≡◌, refl, ap, sym, ◌∙◌, subst, inl, inr,
  Bool-cases, elem, if◌then◌else◌, every, every_intro, eqb, map, unique, &&_iff,
}
use cgull.Preprocessor.Exec.{limit_exceeded, Result, ok, raised, pure, ◌>>=◌}
use cgull.Preprocessor.Expression.{
  Expression, constant, variable, defined, predicate, negation, Assignment, eval, expression_atoms,
}
use cgull.Preprocessor.Expression.Equality.{expression_eq}
use cgull.Preprocessor.Expression.Order.{sort_by_key}
use cgull.Preprocessor.Robdd.{ResourceLimits, Manager, new_manager, build}
use cgull.Preprocessor.Robdd.Answers.{Settles, manager-Settles}
use cgull.Preprocessor.Robdd.Build.{build-Meets}
use cgull.Preprocessor.Robdd.BuildParts.{Known, IsBuilt}
use cgull.Preprocessor.Robdd.Initial.{distinct, sort_unique_lem}
use cgull.Preprocessor.Robdd.Invariant.{IsSound, Meets, Meets-bind, Meets-ok}
use cgull.Preprocessor.Robdd.Queries.{Witness, witness, run_in}
use cgull.Preprocessor.Robdd.Reading.{is_atom, expression_atoms-is_atom}
use cgull.Preprocessor.Robdd.Witnesses.{assigned, IsWitness, Found, witness-Found, zero-IsWitness}
use cgull.Preprocessor.Branches.{
  Directive, WitnessStatus, satisfiable, unreachable, unsupported, limit_reached, WitnessAssignment,
  BranchWitness, assignment, assign_all, then_result, assert_some, solve_in, judged, solve,
  plain_result,
}

-- The status that a result gives a condition is right: the assignments of a satisfiable one are
-- those of a truth assignment that makes it true, and an unreachable one is never true.
abbrev pub Verdict : Expression → WitnessStatus → List WitnessAssignment → Type 0
Verdict e satisfiable xs = (w : Witness) × (assign_all w ≡ ok xs) × (eval (assigned w) e ≡ true)
Verdict e unreachable xs = (a : Assignment) → eval a e ≡ false
Verdict e unsupported xs = ⊥
Verdict e limit_reached xs = Unit

abbrev pub JudgedBy : Option Expression → BranchWitness → Type 0
JudgedBy none r = r.status ≡ unsupported
JudgedBy (some e) r = Verdict e r.status r.assignments

abbrev pub Judged : BranchWitness → Type 0
Judged r = JudgedBy r.effective_condition r

module _ (ordered : List Expression) (u : distinct ordered ≡ true) where
  solve_in-Meets :
      (e : Expression) (m : Manager)
      → Known ordered e
      → IsSound ordered m
      → Meets ordered m (λ o _. IsWitness ordered u e o) (solve_in e m)
  unfolding solve_in
  solve_in-Meets e m k s =
      let Q = λ (o : Option Witness) (_ : Manager). IsWitness ordered u e o in
      Meets-bind m (IsBuilt ordered e) Q (build e) _ (build-Meets ordered e m k s) λ n m1 s1 g1 d1.
        elim (Bool-cases (eqb n 0)) [
          | inl zero_root ↦
              rw zero_root (Meets-ok m1 Q none s1 (zero-IsWitness ordered u e n m1 s1 d1 zero_root))
          | inr live ↦
              subst
                (λ b.
                  Meets ordered m1 Q ((if b then pure none else (witness n >>= assert_some)) m1))
                (sym live)
                (Meets-bind m1 (λ o _. Found ordered u e o) Q (witness n) assert_some
                  (witness-Found ordered u e n m1 s1 d1 live)
                  λ o m2 s2 g2 (w, q, h). rw q (Meets-ok m2 Q (some w) s2 h))
        ]

assignment_total :
    (e : Expression) (b : Bool)
    → is_atom e ≡ true
    → (x : WitnessAssignment) × (assignment e b ≡ ok x)
unfolding assignment
assignment_total (constant b) v h = absurd (cc h)
assignment_total (variable n) v h = (_, refl)
assignment_total (defined n) v h = (_, refl)
assignment_total (predicate n) v h = (_, refl)
assignment_total (negation e) v h = absurd (cc h)
assignment_total (Expression.conjunction es) v h = absurd (cc h)
assignment_total (Expression.disjunction es) v h = absurd (cc h)

assign_all_total :
    (w : Witness)
    → every is_atom (map (λ (p : Expression × Bool). p.0) w) ≡ true
    → (xs : List WitnessAssignment) × (assign_all w ≡ ok xs)
unfolding assign_all
assign_all_total [] h = ([], refl)
assign_all_total ((e, b) ∷ w) h =
    let (first, others) = (&&_iff _ _).0 h in
    let (x, q) = assignment_total e b first in
    let (xs, r) = assign_all_total w others in (x ∷ xs, rw (q, r) refl)

settled_solve :
    (e : Expression) (limits : ResourceLimits)
    → Settles
        (IsWitness
          (sort_by_key (unique (expression_atoms e)))
          (sort_unique_lem (expression_atoms e)).0
          e)
        (run_in (new_manager (expression_atoms e) limits) (solve_in e))
settled_solve e limits =
    let found = expression_atoms e in
    let ordered = sort_by_key (unique found) in
    let (u, same) = sort_unique_lem found in
    manager-Settles (IsWitness ordered u e) found limits (solve_in e) (λ m s.
      solve_in-Meets ordered u e m (every_intro (λ x. elem x ordered) found (λ x h. same x ∙ h)) s)

-- `_solve` returns a result about the branch and the condition it is given, and its verdict is
-- right.
pub solve_returns :
    (d : Directive) (e : Expression) (limits : ResourceLimits)
    → (r : BranchWitness) × (solve d e limits ≡ ok r) × Judged r
unfolding solve
solve_returns d e limits =
    after (run_in (new_manager (expression_atoms e) limits) (solve_in e)) (settled_solve e limits)
  where
    after :
        (o : Result (Option Witness))
        → Settles
            (IsWitness
              (sort_by_key (unique (expression_atoms e)))
              (sort_unique_lem (expression_atoms e)).0
              e)
            o
        → (r : BranchWitness) × (judged d e o ≡ ok r) × Judged r
    after (ok none) h = (_, refl, h)
    after (ok (some w)) h =
        let found = expression_atoms e in
        let atomic =
          subst (λ l. every is_atom l ≡ true) (sym h.1)
            (every_intro is_atom (sort_by_key (unique found))
              (λ x k. expression_atoms-is_atom e x (sym ((sort_unique_lem found).1 x) ∙ k))) in
        let (xs, q) = assign_all_total w atomic in
        let r = record (plain_result d (some e) satisfiable) { assignments = xs } in
        (
          r,
          ap
              (λ l.
                then_result l
                  λ ys. ok (record (plain_result d (some e) satisfiable) { assignments = ys }))
              q,
          (w, q, h.0),
        )
    after (raised (limit_exceeded x l o)) h = (_, refl, tt)
    after (raised f) h = absurd h

-- ===== src/Preprocessor/Robdd/Build.antt =====
-- `build` returns a node with the meaning of the condition, and its recursion is no deeper than
-- the size of the condition.
use cgull.Prelude.{
  ℕ, zero, suc, ◌<◌, Bool, true, false, not, ◌&&◌, ◌||◌, List, [], ◌∷◌, Option, none, some, ◌≡◌,
  refl, ap, ◌∙◌, inl, inr, arith, if◌then◌else◌, get_elem?-lt, lookup, lookup-cons, &&_iff, elem,
  nat_eq,
}
use cgull.Preprocessor.Exec.{Result, or_else}
use cgull.Preprocessor.Expression.{
  Expression, constant, variable, defined, predicate, negation, Assignment, eval, eval_all,
  eval_any, expression_atoms, expression_size,
}
use cgull.Preprocessor.Expression.Atoms.{simplify-over}
use cgull.Preprocessor.Expression.Equality.{expression_eq}
use cgull.Preprocessor.Expression.Meaning.{eval-simplify}
use cgull.Preprocessor.Expression.Simplify.{simplify}
use cgull.Preprocessor.Expression.Size.{size-simplify-le}
use cgull.Preprocessor.Robdd.{
  Manager, M, and, or, consume, negate, build_simplified, build_fuel, build,
}
use cgull.Preprocessor.Robdd.Invariant.{
  numbered, Grows-refl, IsSound, Meets, Meets-bind, Meets-ok, Meets-weaken,
}
use cgull.Preprocessor.Robdd.Nodes.{consume-Meets}
use cgull.Preprocessor.Robdd.Negate.{IsNegation, negate-Meets}
use cgull.Preprocessor.Robdd.BuildParts.{
  IsBuilt, Known, IsValue, constant-IsBuilt, atom_node-Meets, operands-Meets,
}

module _ (ordered : List Expression) where
  IsSound-build :
      (m : Manager) (e : Expression) (n : ℕ)
      → IsSound ordered m
      → IsBuilt ordered e n m
      → IsSound ordered (record m { build_cache = (e, n) ∷ m.build_cache })
  IsSound-build m e n s h = record {
    same_atoms = s.same_atoms;
    table = s.table;
    nots = s.nots;
    terminals_negated = s.terminals_negated;
    terminals_read = s.terminals_read;
    applies = s.applies;
    builds = λ d x q. elim (lookup-cons d e n m.build_cache q) [
      | inl new ↦ rw (← new.0, ← new.1) h
      | inr old ↦ s.builds d x old.1
    ];
    reads = s.reads;
  }

  atom-Known :
      (e : Expression) → expression_atoms e ≡ e ∷ [] → Known ordered e → elem e ordered ≡ true
  atom-Known e q h = ((&&_iff _ _).0 (rw q at h)).0

  module _ (again : Expression → M ℕ) (bound : ℕ)
      (correct : (d : Expression) (m : Manager)
        → expression_size d < bound
        → Known ordered d
        → IsSound ordered m
        → Meets ordered m (IsBuilt ordered d) (again d m)) where
    of_value :
        (e : Expression) (f : Assignment → Bool) (m : Manager) (r : Result ℕ × Manager)
        → ((a : Assignment) → f a ≡ eval a e)
        → Meets ordered m (IsValue ordered f) r
        → Meets ordered m (IsBuilt ordered e) r
    of_value e f m r q =
        Meets-weaken m (IsValue ordered f) (IsBuilt ordered e) r
          (λ n m' s _ v. record { lt = v.lt; meaning = λ a. v.meaning a ∙ q a })

    build_simplified-Meets :
        (e : Expression) (m : Manager)
        → expression_size e < suc bound
        → Known ordered e
        → IsSound ordered m
        → Meets ordered m (IsBuilt ordered e) (build_simplified again e m)
    unfolding build_simplified expression_size expression_atoms eval
    build_simplified-Meets (constant b) m lt known s =
        Meets-ok m (IsBuilt ordered (constant b)) (if b then 1 else 0) s
          (constant-IsBuilt ordered m b s)
    build_simplified-Meets (variable n) m lt known s =
        atom_node-Meets ordered (variable n) m (λ a. refl) (atom-Known (variable n) refl known) s
    build_simplified-Meets (defined n) m lt known s =
        atom_node-Meets ordered (defined n) m (λ a. refl) (atom-Known (defined n) refl known) s
    build_simplified-Meets (predicate t) m lt known s =
        atom_node-Meets ordered (predicate t) m (λ a. refl) (atom-Known (predicate t) refl known) s
    build_simplified-Meets (negation e) m lt known s =
        Meets-bind m (IsBuilt ordered e) (IsBuilt ordered (negation e)) (again e) negate
          (correct e m (omega arith) known s)
          λ n m1 s1 g1 d1.
            Meets-weaken m1 (IsNegation ordered n) (IsBuilt ordered (negation e)) (negate n m1)
              (λ r m' s' g h. record {
                lt = h.lt;
                meaning = λ a.
                    h.meaning (numbered ordered a)
                    ∙ ap not (g.same (numbered ordered a) n d1.lt ∙ d1.meaning a);
              })
              (negate-Meets n m1 s1 d1.lt)
    build_simplified-Meets (Expression.conjunction es) m lt known s =
        of_value (Expression.conjunction es) (λ a. true && eval_all a es) m _ (λ a. ground arith)
          (operands-Meets ordered again bound correct and (λ a. true) 1 es m (omega arith) known s
            (record {
              lt = get_elem?-lt m.nodes 1 s.table.one_node;
              meaning = λ a. s.table.one_value (numbered ordered a);
            }))
    build_simplified-Meets (Expression.disjunction es) m lt known s =
        of_value (Expression.disjunction es) (λ a. false || eval_any a es) m _ (λ a. ground arith)
          (operands-Meets ordered again bound correct or (λ a. false) 0 es m (omega arith) known s
            (record {
              lt = get_elem?-lt m.nodes 0 s.table.zero_node;
              meaning = λ a. s.table.zero_value (numbered ordered a);
            }))

  cached_or_IsBuilt :
      (e : Expression) (m : Manager) (o : Option ℕ) (body : M ℕ)
      → lookup e m.build_cache ≡ o
      → IsSound ordered m
      → Meets ordered m (IsBuilt ordered e) (body m)
      → Meets ordered m (IsBuilt ordered e) (or_else o body m)
  cached_or_IsBuilt e m (some n) body q s h = Meets-ok m (IsBuilt ordered e) n s (s.builds e n q)
  cached_or_IsBuilt e m none body q s h = h

  build_fuel-Meets :
      (fuel : ℕ) (e : Expression) (m : Manager)
      → expression_size e < fuel
      → Known ordered e
      → IsSound ordered m
      → Meets ordered m (IsBuilt ordered e) (build_fuel fuel e m)
  unfolding build_fuel
  build_fuel-Meets zero e m lt known s = absurd (omega arith)
  build_fuel-Meets (suc fuel) e m lt known s =
      let simple = simplify e in
      Meets-weaken m (IsBuilt ordered simple) (IsBuilt ordered e) _
        (λ n m' _ _ d. record { lt = d.lt; meaning = λ a. d.meaning a ∙ eval-simplify a e })
        (cached_or_IsBuilt simple m (lookup simple m.build_cache) _ refl s (
          Meets-bind m (λ _ m'. m'.interned ≡ m.interned) (IsBuilt ordered simple) consume _
            (consume-Meets m s)
            λ _ m1 s1 g1 _.
              Meets-bind m1 (IsBuilt ordered simple) (IsBuilt ordered simple)
                (build_simplified (build_fuel fuel) simple) _
                (build_simplified-Meets (build_fuel fuel) fuel
                  (λ d m' l k s'. build_fuel-Meets fuel d m' l k s') simple m1
                  (omega (arith, size-simplify-le e)) (simplify-over (λ x. elem x ordered) e known)
                  s1)
                λ n m2 s2 g2 d2. record {
                  sound = IsSound-build m2 simple n s2 d2;
                  grows = Grows-refl m2.nodes;
                  result = d2;
                }))

  -- Of a condition over the atoms of a well-formed manager `build` returns a node with its
  -- meaning, or a resource limit is exceeded; the manager stays well formed either way.
  pub build-Meets :
      (e : Expression) (m : Manager)
      → Known ordered e
      → IsSound ordered m
      → Meets ordered m (IsBuilt ordered e) (build e m)
  unfolding build
  build-Meets e m known s = build_fuel-Meets (suc (expression_size e)) e m (omega arith) known s

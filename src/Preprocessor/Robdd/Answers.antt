-- ===== src/Preprocessor/Robdd/Answers.antt =====
-- The query helpers answer right, and conservatively where a resource limit is exceeded.
use cgull.Prelude.{
  ℕ, ◌<◌, Bool, true, false, not, ◌&&◌, List, ◌++◌, ◌≡◌, ◌↔◌, refl, sym, ◌∙◌, ◌⊎◌, inl, inr, arith,
  length, get_elem?-lt, elem, elem-append, every_intro, unique, eqb, eqb_iff, ltb, Bool-cases,
}
use cgull.Preprocessor.Exec.{limit_exceeded, Result, ok, raised}
use cgull.Preprocessor.Expression.{Expression, Assignment, eval, expression_atoms}
use cgull.Preprocessor.Expression.Equality.{expression_eq}
use cgull.Preprocessor.Expression.Order.{sort_by_key}
use cgull.Preprocessor.Robdd.{
  ResourceLimits, Manager, M, and, initial, new_manager, build, negate, apply,
}
use cgull.Preprocessor.Robdd.Apply.{apply-Meets}
use cgull.Preprocessor.Robdd.Assignments.{node-eq_iff, node_true}
use cgull.Preprocessor.Robdd.Build.{build-Meets}
use cgull.Preprocessor.Robdd.BuildParts.{Known, IsBuilt}
use cgull.Preprocessor.Robdd.Cofactors.{IsApplied}
use cgull.Preprocessor.Robdd.Initial.{distinct, initial-IsSound, sort_unique_lem}
use cgull.Preprocessor.Robdd.Invariant.{
  numbered, IsSound, Denotes-Grows, Meets, Meets-bind, Meets-ok, Holds,
}
use cgull.Preprocessor.Robdd.Negate.{IsNegation, negate-Meets}
use cgull.Preprocessor.Robdd.Queries.{
  query_atoms, on_limit, run_in, equivalent_in, satisfiable_in, implies_in,
}
use cgull.Preprocessor.Robdd.Values.{value}

-- The atoms that the manager of a query has.
abbrev pub ordered_of : List Expression → List Expression
ordered_of found = sort_by_key (unique (query_atoms found))

pub ordered_of_lem :
    (found : List Expression)
    → (distinct (ordered_of found) ≡ true)
      × ((x : Expression) → elem x (ordered_of found) ≡ elem x found)
unfolding query_atoms
ordered_of_lem found =
    let (u, same) = sort_unique_lem (query_atoms found) in
    (u, λ x. same x ∙ (sort_unique_lem found).1 x)

-- Of a part of the expressions asked about, the manager knows the atoms.
pub Known-left :
    (e : Expression) (rest : List Expression) → Known (ordered_of (expression_atoms e ++ rest)) e
Known-left e rest =
    every_intro (λ x. elem x (ordered_of (expression_atoms e ++ rest))) (expression_atoms e)
      (λ x h.
        (ordered_of_lem (expression_atoms e ++ rest)).1 x
        ∙ elem-append x (expression_atoms e) rest
        ∙ rw h)

pub Known-right :
    (e : Expression) (rest : List Expression) → Known (ordered_of (rest ++ expression_atoms e)) e
Known-right e rest =
    every_intro (λ x. elem x (ordered_of (rest ++ expression_atoms e))) (expression_atoms e)
      (λ x h.
        (ordered_of_lem (rest ++ expression_atoms e)).1 x
        ∙ elem-append x rest (expression_atoms e)
        ∙ rw h (ground arith))

pub Known-own : (e : Expression) → Known (ordered_of (expression_atoms e)) e
Known-own e =
    every_intro (λ x. elem x (ordered_of (expression_atoms e))) (expression_atoms e)
      (λ x h. (ordered_of_lem (expression_atoms e)).1 x ∙ h)

-- The result is one that has the property, or a resource limit is exceeded.
abbrev pub Settles : {A : Type 0} → (A → Type 0) → Result A → Type 0
Settles Q (ok a) = Q a
Settles Q (raised (limit_exceeded r l o)) = Unit
Settles Q (raised f) = ⊥

module _ {A : Type 0} (Q : A → Type 0) where
  Holds-Settles : (r : Result A) (m : Manager) → Holds (λ a _. Q a) r m → Settles Q r
  Holds-Settles (ok a) m h = h
  Holds-Settles (raised (limit_exceeded r l o)) m h = tt
  Holds-Settles (raised f) m h = absurd h

  -- A body run with a new manager.
  pub manager-Settles :
      (found : List Expression) (limits : ResourceLimits) (body : M A)
      → ((m : Manager)
          → IsSound (sort_by_key (unique found)) m
          → Meets (sort_by_key (unique found)) m (λ a _. Q a) (body m))
      → Settles Q (run_in (new_manager found limits) body)
  unfolding new_manager
  manager-Settles found limits body h =
      let ordered = sort_by_key (unique found) in
      elim (Bool-cases (ltb limits.max_atoms (length ordered))) [
        | inl over ↦ rw over tt
        | inr within ↦
            let start = initial ordered limits in
            rw within (
              Holds-Settles (body start).0 (body start).1
                (h start (initial-IsSound ordered limits)).result)
      ]

  pub run-Settles :
      (found : List Expression) (limits : ResourceLimits) (body : M A)
      → ((m : Manager)
          → IsSound (ordered_of found) m
          → Meets (ordered_of found) m (λ a _. Q a) (body m))
      → Settles Q (run_in (new_manager (query_atoms found) limits) body)
  run-Settles found limits body h = manager-Settles (query_atoms found) limits body h

  -- `except AnalysisLimitExceeded` turns the limit into the default answer.
  pub on_limit-Settles :
      (d : A) (r : Result A) → Settles Q r → (a : A) × (on_limit d r ≡ ok a) × (Q a ⊎ (a ≡ d))
  on_limit-Settles d (ok a) h = (a, refl, inl h)
  on_limit-Settles d (raised (limit_exceeded r l o)) h = (d, refl, inr refl)
  on_limit-Settles d (raised f) h = absurd h

-- What each query finds out where no limit is exceeded.
abbrev pub Equivalent : Expression → Expression → Bool → Type 0
Equivalent left right b = (b ≡ true) ↔ ((a : Assignment) → eval a left ≡ eval a right)

abbrev pub Satisfiable : Expression → Bool → Type 0
Satisfiable e b =
    (b ≡ true → (a : Assignment) × (eval a e ≡ true))
    × (b ≡ false → (a : Assignment) → eval a e ≡ false)

abbrev pub Implies : Expression → Expression → Bool → Type 0
Implies p c b = (b ≡ true) ↔ ((a : Assignment) → eval a p ≡ true → eval a c ≡ true)

module _ (ordered : List Expression) (u : distinct ordered ≡ true) where
  pub equivalent_in-Meets :
      (left right : Expression) (m : Manager)
      → Known ordered left
      → Known ordered right
      → IsSound ordered m
      → Meets ordered m (λ b _. Equivalent left right b) (equivalent_in left right m)
  unfolding equivalent_in
  equivalent_in-Meets left right m kl kr s =
      Meets-bind m (IsBuilt ordered left) (λ b _. Equivalent left right b) (build left) _
        (build-Meets ordered left m kl s)
        λ i m1 s1 g1 d1.
          Meets-bind m1 (IsBuilt ordered right) (λ b _. Equivalent left right b) (build right) _
            (build-Meets ordered right m1 kr s1)
            λ j m2 s2 g2 d2.
              let di = Denotes-Grows g2 d1 in
              let same = node-eq_iff s2 u i j di.lt d2.lt in
              Meets-ok m2 (λ b _. Equivalent left right b) (eqb i j) s2
                (
                  λ e a. sym (di.meaning a) ∙ same.0 ((eqb_iff i j).0 e) a ∙ d2.meaning a,
                  λ h. (eqb_iff i j).1 (same.1 (λ a. di.meaning a ∙ h a ∙ sym (d2.meaning a))),
                )

  zero_iff :
      (m : Manager) (n : ℕ)
      → IsSound ordered m
      → n < length m.nodes
      → (n ≡ 0) ↔ ((a : Assignment) → value (numbered ordered a) m.nodes n ≡ false)
  zero_iff m n s h =
      let lt = get_elem?-lt m.nodes 0 s.table.zero_node in
      let same = node-eq_iff s u n 0 h lt in
      (
        λ e a. same.0 e a ∙ s.table.zero_value (numbered ordered a),
        λ f. same.1 (λ a. f a ∙ sym (s.table.zero_value (numbered ordered a))),
      )

  pub satisfiable_in-Meets :
      (e : Expression) (m : Manager)
      → Known ordered e
      → IsSound ordered m
      → Meets ordered m (λ b _. Satisfiable e b) (satisfiable_in e m)
  unfolding satisfiable_in
  satisfiable_in-Meets e m k s =
      Meets-bind m (IsBuilt ordered e) (λ b _. Satisfiable e b) (build e) _
        (build-Meets ordered e m k s)
        λ n m1 s1 g1 d1.
          Meets-ok m1 (λ b _. Satisfiable e b) (not (eqb n 0)) s1
            (
              λ live.
                  let (a, v) = node_true s1 u n d1.lt (λ q. cc ((eqb_iff n 0).1 q, live)) in
                  (a, sym (d1.meaning a) ∙ v),
              λ dead a.
                  sym (d1.meaning a)
                  ∙ (zero_iff m1 n s1 d1.lt).0 ((eqb_iff n 0).0 (ground arith)) a,
            )

  pub implies_in-Meets :
      (p c : Expression) (m : Manager)
      → Known ordered p
      → Known ordered c
      → IsSound ordered m
      → Meets ordered m (λ b _. Implies p c b) (implies_in p c m)
  unfolding implies_in
  implies_in-Meets p c m kp kc s =
      Meets-bind m (IsBuilt ordered p) (λ b _. Implies p c b) (build p) _
        (build-Meets ordered p m kp s)
        λ i m1 s1 g1 d1.
          Meets-bind m1 (IsBuilt ordered c) (λ b _. Implies p c b) (build c) _
            (build-Meets ordered c m1 kc s1)
            λ j m2 s2 g2 d2.
              Meets-bind m2 (IsNegation ordered j) (λ b _. Implies p c b) (negate j) _
                (negate-Meets j m2 s2 d2.lt)
                λ n m3 s3 g3 n3.
                  let di3 = Denotes-Grows g3 (Denotes-Grows g2 d1) in
                  let dj3 = Denotes-Grows g3 d2 in
                  Meets-bind m3 (IsApplied ordered and i n) (λ b _. Implies p c b) (apply and i n) _
                    (apply-Meets ordered and i n m3 s3 di3.lt n3.lt)
                    λ x m4 s4 g4 a4.
                      let counter : (a : Assignment)
                          → value (numbered ordered a) m4.nodes x ≡ (eval a p && not (eval a c)) =
                        λ a.
                          a4.meaning (numbered ordered a)
                          ∙ rw
                              (
                                g4.same (numbered ordered a) i di3.lt,
                                g4.same (numbered ordered a) n n3.lt,
                                di3.meaning a,
                                n3.meaning (numbered ordered a),
                                dj3.meaning a,
                              )
                              refl in
                      let zero_means = zero_iff m4 x s4 a4.lt in
                      Meets-ok m4 (λ b _. Implies p c b) (eqb x 0) s4
                        (
                          λ e a h. ground (arith, zero_means.0 ((eqb_iff x 0).0 e) a, counter a),
                          λ f.
                              (eqb_iff x 0).1 (zero_means.1 (λ a. counter a ∙ ground (arith, f a))),
                        )

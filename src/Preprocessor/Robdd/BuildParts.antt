-- ===== src/Preprocessor/Robdd/BuildParts.antt =====
-- What `build` does with atoms and with the operands of a conjunction or a disjunction.
use mathlib.Core.Option
use cgull.Prelude.{
  ℕ, suc, ◌<◌, Bool, true, false, ◌&&◌, ◌||◌, List, [], ◌∷◌, Option, none, some, ◌≡◌, refl, ap, ap₂,
  sym, ◌∙◌, inl, inr, arith, if◌then◌else◌, length, get_elem?-lt, get_or, every, every-append,
  &&_iff, elem, Bool-cases, ◌==◌, nat_eq,
}
use cgull.Preprocessor.Expression.{
  Expression, constant, Operands, nil, cons, Assignment, eval, eval_all, eval_any, expression_atoms,
  operand_atoms, expression_size, operands_size,
}
use cgull.Preprocessor.Expression.Atoms.{over}
use cgull.Preprocessor.Expression.Equality.{expression_eq}
use cgull.Preprocessor.Robdd.{
  Manager, M, Operation, and, or, make_node, apply, index_of, atom_node, build_operands,
}
use cgull.Preprocessor.Robdd.Values.{value, level}
use cgull.Preprocessor.Robdd.Invariant.{
  operate, numbered, IsSound, Denotes, Meets, Meets-bind, Meets-ok, Meets-weaken,
}
use cgull.Preprocessor.Robdd.Nodes.{Chooses, make_node-Meets}
use cgull.Preprocessor.Robdd.Cofactors.{IsApplied}
use cgull.Preprocessor.Robdd.Apply.{apply-Meets}

if_true-false : (b : Bool) → (if b then true else false) ≡ b
if_true-false b = ground arith

shifted : (o : Option ℕ) {i : ℕ} → Option.map suc o ≡ some i → (j : ℕ) × (o ≡ some j) × (i ≡ suc j)
shifted none h = cc
shifted (some j) h = (j, refl, ground arith)

pub index_of-get_or :
    (e : Expression) (xs : List Expression) (i : ℕ) (d : Expression)
    → index_of e xs ≡ some i
    → (i < length xs) × (get_or xs i d ≡ e)
unfolding index_of
index_of-get_or e [] i d h = cc
index_of-get_or e (x ∷ xs) i d h = elim (Bool-cases (x == e)) [
  | inl here ↦ ground (arith, expression_eq.beq_iff x e)
  | inr later ↦
      let (j, q, p) = shifted (index_of e xs) (rw later at h) in
      let (lt, at) = index_of-get_or e xs j d q in rw p (omega arith, at)
]

pub index_of-elem :
    (e : Expression) (xs : List Expression) → elem e xs ≡ true → (i : ℕ) × (index_of e xs ≡ some i)
unfolding index_of
index_of-elem e [] h = cc
index_of-elem e (x ∷ xs) h = elim (Bool-cases (x == e)) [
  | inl here ↦ (0, rw here)
  | inr later ↦
      let (i, q) =
        index_of-elem e xs (ground (arith, expression_eq.beq_iff x e, expression_eq.beq_iff e x)) in
      (suc i, rw (later, q))
]

module _ (ordered : List Expression) where
  abbrev pub IsBuilt : Expression → ℕ → Manager → Type 0
  IsBuilt e n m = Denotes ordered m.nodes n e

  abbrev pub Known : Expression → Type 0
  Known e = over (λ x. elem x ordered) e ≡ true

  pub terminal_level :
      (m : Manager)
      → IsSound ordered m
      → (level (length ordered) m.nodes 0 ≡ length ordered)
        × (level (length ordered) m.nodes 1 ≡ length ordered)
  unfolding level
  terminal_level m s = (rw (s.table.zero_node), rw (s.table.one_node))

  pub constant-IsBuilt :
      (m : Manager) (b : Bool) → IsSound ordered m → IsBuilt (constant b) (if b then 1 else 0) m
  unfolding eval
  constant-IsBuilt m true s = record {
    lt = get_elem?-lt m.nodes 1 s.table.one_node;
    meaning = λ a. s.table.one_value (numbered ordered a);
  }
  constant-IsBuilt m false s = record {
    lt = get_elem?-lt m.nodes 0 s.table.zero_node;
    meaning = λ a. s.table.zero_value (numbered ordered a);
  }

  pub atom_node-Meets :
      (e : Expression) (m : Manager)
      → ((a : Assignment) → eval a e ≡ a e)
      → elem e ordered ≡ true
      → IsSound ordered m
      → Meets ordered m (IsBuilt e) (atom_node e m)
  unfolding atom_node
  atom_node-Meets e m atomic known s =
      let (i, q) = index_of-elem e ordered known in
      let (lt, at) = index_of-get_or e ordered i (constant false) q in
      let numbered_at : index_of e m.atom_list ≡ some i = ap (index_of e) s.same_atoms ∙ q in
      let (zero_level, one_level) = terminal_level m s in
      rw numbered_at (
        Meets-weaken m (λ r m'. Chooses (length ordered) m'.nodes i 0 1 r) (IsBuilt e)
          (make_node i 0 1 m)
          (λ r m' s' _ c. record {
            lt = c.lt;
            meaning = λ a.
                c.meaning (numbered ordered a)
                ∙ rw
                    (
                      at,
                      s'.table.one_value (numbered ordered a),
                      s'.table.zero_value (numbered ordered a),
                      atomic a,
                    )
                    (if_true-false (a e));
          })
          (make_node-Meets m i 0 1 s (record {
            atom_lt = lt;
            low_lt = get_elem?-lt m.nodes 0 s.table.zero_node;
            high_lt = get_elem?-lt m.nodes 1 s.table.one_node;
            low_level = omega arith;
            high_level = omega arith;
          })))

  -- The meaning of the operands under an operation.
  abbrev pub eval_operands : Operation → Assignment → Operands → Bool
  eval_operands and a es = eval_all a es
  eval_operands or a es = eval_any a es

  -- A node whose value the first part of a loop has established.
  pub record IsValue (f : Assignment → Bool) (n : ℕ) (m : Manager) : Type 0 where
    pub lt : n < length m.nodes
    pub meaning : (a : Assignment) → value (numbered ordered a) m.nodes n ≡ f a

  operate_cons :
      (op : Operation) (b : Bool) (a : Assignment) (e : Expression) (es : Operands)
      → operate op (operate op b (eval a e)) (eval_operands op a es)
        ≡ operate op b (eval_operands op a (cons e es))
  unfolding eval
  operate_cons and b a e es = ground arith
  operate_cons or b a e es = ground arith

  module _ (again : Expression → M ℕ) (bound : ℕ)
      (correct : (d : Expression) (m : Manager)
        → expression_size d < bound
        → Known d
        → IsSound ordered m
        → Meets ordered m (IsBuilt d) (again d m)) where
    pub operands-Meets :
        (op : Operation) (f : Assignment → Bool) (n : ℕ) (es : Operands) (m : Manager)
        → operands_size es < bound
        → every (λ x. elem x ordered) (operand_atoms es) ≡ true
        → IsSound ordered m
        → IsValue f n m
        → Meets ordered m
            (IsValue (λ a. operate op (f a) (eval_operands op a es)))
            (build_operands again op n es m)
    unfolding build_operands expression_size expression_atoms eval
    operands-Meets and f n nil m lt known s v =
        Meets-ok m (IsValue (λ a. f a && true)) n s
          (record { lt = v.lt; meaning = λ a. v.meaning a ∙ ground arith })
    operands-Meets or f n nil m lt known s v =
        Meets-ok m (IsValue (λ a. f a || false)) n s
          (record { lt = v.lt; meaning = λ a. v.meaning a ∙ ground arith })
    operands-Meets op f n (cons e es) m lt known s v =
        let (here, there) = (&&_iff _ _).0 (
          sym (every-append (λ x. elem x ordered) (expression_atoms e) (operand_atoms es))
          ∙ known) in
        Meets-bind m (IsBuilt e) (IsValue (λ a. operate op (f a) (eval_operands op a (cons e es))))
          (again e) _ (correct e m (omega arith) here s)
          λ r m1 s1 g1 d1.
            Meets-bind m1 (IsApplied ordered op n r)
              (IsValue (λ a. operate op (f a) (eval_operands op a (cons e es)))) (apply op n r) _
              (apply-Meets ordered op n r m1 s1 (omega (arith, v.lt, g1.longer)) d1.lt)
              λ x m2 s2 g2 a2.
                Meets-weaken m2
                  (IsValue (λ a. operate op (operate op (f a) (eval a e)) (eval_operands op a es)))
                  (IsValue (λ a. operate op (f a) (eval_operands op a (cons e es))))
                  (build_operands again op x es m2)
                  (λ y m' s' _ w. record {
                    lt = w.lt;
                    meaning = λ a. w.meaning a ∙ operate_cons op (f a) a e es;
                  })
                  (operands-Meets op (λ a. operate op (f a) (eval a e)) x es m2 (omega arith) there
                    s2
                    (record {
                      lt = a2.lt;
                      meaning = λ a.
                          a2.meaning (numbered ordered a)
                          ∙ ap₂ (operate op)
                              (g2.same (numbered ordered a) n (omega (arith, v.lt, g1.longer))
                                ∙ g1.same (numbered ordered a) n v.lt
                                ∙ v.meaning a)
                              (g2.same (numbered ordered a) r d1.lt ∙ d1.meaning a);
                    }))

-- ===== src/Preprocessor/Robdd/Reading.antt =====
-- Reading a diagram back: `to_expression` returns an expression with the node's meaning.
use cgull.Prelude.{
  ℕ, zero, suc, ◌≤◌, ◌<◌, Bool, true, false, ◌&&◌, ◌||◌, List, [], ◌∷◌, Option, none, some, ◌≡◌,
  refl, ap, sym, ◌∙◌, inl, inr, arith, if◌then◌else◌, length, get_elem?, get_elem?_total,
  get_elem?-lt, get_elem?-get_or, lookup, lookup-cons, lookup-cons_none, elem, every, every-elem,
  every-append, ◌==◌, nat_eq, Bool-cases, &&_iff,
}
use cgull.Preprocessor.Exec.{pure, update, ◌>>=◌, ◌>>◌, or_else}
use cgull.Preprocessor.Expression.{
  Expression, constant, variable, defined, predicate, negation, Operands, nil, cons, Assignment,
  eval, expression_atoms, operand_atoms,
}
use cgull.Preprocessor.Expression.Equality.{expression_eq}
use cgull.Preprocessor.Expression.Meaning.{eval-negate, eval-conjunction, eval-disjunction}
use cgull.Preprocessor.Expression.Simplify
use cgull.Preprocessor.Expression.Simplify.{conjunction, disjunction}
use cgull.Preprocessor.Robdd.{Node, Manager, M, consume, item}
use cgull.Preprocessor.Robdd.Invariant.{
  numbered, Grows-refl, IsSound, Denotes, Denotes-Grows, Meets, Meets-bind, Meets-ok,
}
use cgull.Preprocessor.Robdd.Nodes.{consume-Meets, item-Meets}
use cgull.Preprocessor.Robdd.Queries.{atom_at, combine, to_expression_fuel, to_expression}

-- A Boolean atom.
abbrev pub is_atom : Expression → Bool
is_atom (variable n) = true
is_atom (defined n) = true
is_atom (predicate t) = true
is_atom e = false

pub eval-atom : (a : Assignment) (e : Expression) → is_atom e ≡ true → eval a e ≡ a e
unfolding eval
eval-atom a (variable n) h = refl
eval-atom a (defined n) h = refl
eval-atom a (predicate t) h = refl
eval-atom a e h = cc

mutual
  unfolding expression_atoms

  atoms_are : (e : Expression) → every is_atom (expression_atoms e) ≡ true
  atoms_are (negation e) = atoms_are e
  atoms_are (Expression.conjunction es) = operand_atoms_are es
  atoms_are (Expression.disjunction es) = operand_atoms_are es
  atoms_are e = refl

  operand_atoms_are : (es : Operands) → every is_atom (operand_atoms es) ≡ true
  operand_atoms_are nil = refl
  operand_atoms_are (cons e es) =
      every-append is_atom (expression_atoms e) (operand_atoms es)
      ∙ (&&_iff _ _).1 (atoms_are e, operand_atoms_are es)

pub expression_atoms-is_atom :
    (e x : Expression) → elem x (expression_atoms e) ≡ true → is_atom x ≡ true
expression_atoms-is_atom e x h = every-elem is_atom x (expression_atoms e) h (atoms_are e)

module _ (a : Assignment) where
  both : (x y : Expression) → eval a (conjunction (x ∷ y ∷ [])) ≡ (eval a x && eval a y)
  both x y = eval-conjunction a (x ∷ y ∷ []) ∙ ground arith

  either : (x y : Expression) → eval a (disjunction (x ∷ y ∷ [])) ≡ (eval a x || eval a y)
  either x y = eval-disjunction a (x ∷ y ∷ []) ∙ ground arith

  eval-eq_constant : (e : Expression) (b : Bool) → (e == constant b) ≡ true → eval a e ≡ b
  eval-eq_constant e b h = unfold eval in ap (eval a) ((expression_eq.beq_iff e (constant b)).0 h)

  -- The expression of a node is the choice by its atom.
  eval-combine :
      (atom low high : Expression)
      → eval a (combine atom low high) ≡ (if eval a atom then eval a high else eval a low)
  unfolding combine
  eval-combine atom low high = elim (Bool-cases (low == constant false)) [
    | inl e ↦ rw e (both atom high ∙ ground (arith, eval-eq_constant low false e))
    | inr ne ↦ rw ne (elim (Bool-cases (high == constant false)) [
      | inl e ↦ rw e (
          both (Simplify.negate atom) low
          ∙ ground (arith, eval-negate a atom, eval-eq_constant high false e))
      | inr ne' ↦ rw ne' (elim (Bool-cases (low == constant true)) [
        | inl e ↦ rw e (
            either (Simplify.negate atom) high
            ∙ ground (arith, eval-negate a atom, eval-eq_constant low true e))
        | inr ne'' ↦ rw ne'' (elim (Bool-cases (high == constant true)) [
          | inl e ↦ rw e (either atom low ∙ ground (arith, eval-eq_constant high true e))
          | inr ne''' ↦ rw ne''' (
              either (conjunction (Simplify.negate atom ∷ low ∷ []))
                (conjunction (atom ∷ high ∷ []))
              ∙ ground (arith, both (Simplify.negate atom) low, both atom high, eval-negate a atom))
        ])
      ])
    ])
  ]

module _ (ordered : List Expression) where
  pub atom_at-Meets :
      (m : Manager) (i : ℕ)
      → IsSound ordered m
      → i < length ordered
      → Meets ordered m (λ e m'. get_elem? ordered i ≡ some e) (atom_at i m)
  unfolding atom_at
  atom_at-Meets m i s h =
      let (e, q) = get_elem?_total ordered i h in
      let at : get_elem? m.atom_list i ≡ some e = ap (λ l. get_elem? l i) s.same_atoms ∙ q in
      rw (at, atom_at) (Meets-ok m (λ e m'. get_elem? ordered i ≡ some e) e s q)

  IsSound-read :
      (m : Manager) (n : ℕ) (e : Expression)
      → IsSound ordered m
      → Denotes ordered m.nodes n e
      → IsSound ordered (record m { expression_cache = (n, e) ∷ m.expression_cache })
  IsSound-read m n e s h = record {
    same_atoms = s.same_atoms;
    table = s.table;
    nots = s.nots;
    terminals_negated = s.terminals_negated;
    applies = s.applies;
    builds = s.builds;
    terminals_read = λ j q. s.terminals_read j (lookup-cons_none j n e m.expression_cache q);
    reads = λ j d q. elim (lookup-cons j n e m.expression_cache q) [
      | inl new ↦ rw (← new.0, ← new.1) h
      | inr old ↦ s.reads j d old.1
    ];
  }

  abbrev IsRead : ℕ → Expression → Manager → Type 0
  IsRead n e m = Denotes ordered m.nodes n e

  of_children :
      (m : Manager) (n : ℕ) (k : Node) (atom low high : Expression)
      → IsSound ordered m
      → get_elem? m.nodes n ≡ some (some k)
      → get_elem? ordered k.atom_index ≡ some atom
      → is_atom atom ≡ true
      → IsRead k.low low m
      → IsRead k.high high m
      → IsRead n (combine atom low high) m
  of_children m n k atom low high s e at atomic l h = record {
    lt = get_elem?-lt m.nodes n e;
    meaning = λ a.
        (s.table.node n k e).branches (numbered ordered a)
        ∙ rw
            (
              get_elem?-get_or ordered k.atom_index (constant false) at,
              l.meaning a,
              h.meaning a,
              ← eval-atom a atom atomic,
            )
            (sym (eval-combine a atom low high));
  }

  module _ (atomic : (x : Expression) → elem x ordered ≡ true → is_atom x ≡ true) where
    elem_at :
        (xs : List Expression) (i : ℕ) (x : Expression) → get_elem? xs i ≡ some x → elem x xs ≡ true
    elem_at [] i x h = cc
    elem_at (y ∷ xs) zero x h = ground (arith, expression_eq.beq_iff x y)
    elem_at (y ∷ xs) (suc i) x h = ground (arith, elem_at xs i x)

    abbrev body : (ℕ → M Expression) → ℕ → M Expression
    body again n = do
      consume
      k ← item n
      atom ← atom_at k.atom_index
      low ← again k.low
      high ← again k.high
      let result = combine atom low high
      update (λ m. record m { expression_cache = (n, result) ∷ m.expression_cache })
      pure result

    body-Meets :
        (again : ℕ → M Expression) (n : ℕ) (m : Manager)
        → ((i : ℕ) (m' : Manager)
            → i < n
            → IsSound ordered m'
            → i < length m'.nodes
            → Meets ordered m' (IsRead i) (again i m'))
        → IsSound ordered m
        → n < length m.nodes
        → 2 ≤ n
        → Meets ordered m (IsRead n) (body again n m)
    body-Meets again n m correct s h two =
        Meets-bind m (λ _ m'. m'.interned ≡ m.interned) (IsRead n) consume _ (consume-Meets m s)
          λ _ m1 s1 g1 _.
            Meets-bind m1 (λ k m'. get_elem? m'.nodes n ≡ some (some k)) (IsRead n) (item n) _
              (item-Meets m1 n s1 (omega (arith, g1.longer)) two)
              λ k m2 s2 g2 e2.
                let node = s2.table.node n k e2 in
                let lt2 = get_elem?-lt m2.nodes n e2 in
                Meets-bind m2 (λ e m'. get_elem? ordered k.atom_index ≡ some e) (IsRead n)
                  (atom_at k.atom_index) _ (atom_at-Meets m2 k.atom_index s2 (node.atom_lt))
                  λ atom m3 s3 g3 at.
                    Meets-bind m3 (IsRead k.low) (IsRead n) (again k.low) _
                      (correct k.low m3 (node.low_lt) s3 (omega (arith, node.low_lt, g3.longer)))
                      λ low m4 s4 g4 l4.
                        Meets-bind m4 (IsRead k.high) (IsRead n) (again k.high) _
                          (correct k.high m4 (node.high_lt) s4
                            (omega (arith, node.high_lt, g3.longer, g4.longer)))
                          λ high m5 s5 g5 h5.
                            let e5 =
                              g5.kept n (omega (arith, g3.longer, g4.longer))
                              ∙ g4.kept n (omega (arith, g3.longer))
                              ∙ g3.kept n lt2
                              ∙ e2 in
                            let result =
                              of_children m5 n k atom low high s5 e5 at
                                (atomic atom (elem_at ordered k.atom_index atom at))
                                (Denotes-Grows g5 l4) h5 in
                            record {
                              sound = IsSound-read m5 n (combine atom low high) s5 result;
                              grows = Grows-refl m5.nodes;
                              result = result;
                            }

    cached_or_body :
        (again : ℕ → M Expression) (n : ℕ) (m : Manager) (o : Option Expression)
        → lookup n m.expression_cache ≡ o
        → IsSound ordered m
        → (2 ≤ n → Meets ordered m (IsRead n) (body again n m))
        → Meets ordered m (IsRead n) (or_else o (body again n) m)
    cached_or_body again n m (some e) q s h = Meets-ok m (IsRead n) e s (s.reads n e q)
    cached_or_body again n m none q s h = h (s.terminals_read n q)

    to_expression_fuel-Meets :
        (fuel n : ℕ) (m : Manager)
        → n < fuel
        → IsSound ordered m
        → n < length m.nodes
        → Meets ordered m (IsRead n) (to_expression_fuel fuel n m)
    unfolding to_expression_fuel
    to_expression_fuel-Meets zero n m lt s h = absurd (omega arith)
    to_expression_fuel-Meets (suc fuel) n m lt s h =
        cached_or_body (to_expression_fuel fuel) n m (lookup n m.expression_cache) refl s (
          body-Meets (to_expression_fuel fuel) n m
            (λ i m' l s' h'. to_expression_fuel-Meets fuel i m' (omega arith) s' h') s h)

    -- `to_expression` returns an expression with the meaning of the node.
    pub to_expression-Meets :
        (n : ℕ) (m : Manager)
        → IsSound ordered m
        → n < length m.nodes
        → Meets ordered m (IsRead n) (to_expression n m)
    unfolding to_expression
    to_expression-Meets n m s h = to_expression_fuel-Meets (suc n) n m (omega arith) s h

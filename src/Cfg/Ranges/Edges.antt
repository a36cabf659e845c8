-- ===== src/Cfg/Ranges/Edges.antt =====
-- The constraints of a condition in cgull/cfg/integer_ranges.py hold where the condition has the
-- truth value of the edge, and the edge's state is true there.
use cgull.Prelude.{
  ℤ, Bool, true, false, not, List, [], ◌∷◌, Option, none, some, ◌≡◌, ◌⊎◌, refl, sym, ap, ◌∙◌, subst,
  inl, inr, if◌then◌else◌, Bool-cases, Option-cases, Text, text_eq, elem, keep, lookup, All-keep,
}
use cgull.Cfg.Ranges.{IntegerRange, hull, Context}
use cgull.Cfg.Ranges.Bounds.{In, intersect-In, hull-In}
use cgull.Cfg.Ranges.Conditions.{
  bound_by, name_of, is_comparison, known_value, supported, reads_unstable, condition_truth,
  swapped, negated, Bounded, bounded, converts, bounded_constraint, comparison, add_combined,
  combine_constraints, constraints, current_range, combined_with, apply_constraints, merge_entry,
  merge, disproved, edge_state,
}
use cgull.Cfg.Ranges.Expressions.{
  State, put, is_zero, type_of, static_range, name_range, compare_op, expr_range,
}
use cgull.Cfg.Ranges.Meaning.{Values, Denotes, IsTrue}
use cgull.Cfg.Ranges.Sound.{All-lookup, expr_range-In}
use cgull.Cfg.Syntax.{
  logical_not, BinaryOperator, logical_and, logical_or, Node, id, unary_op, binary_op,
}
use cgull.Cfg.Ranges.Compared.{
  Truth, Held, put-Held, known-value, bound_range-Held, compare-swapped, compare-directed,
}

module _ (c : Context) (values : Values) where
  nothing-IsTrue : (s : State) → IsTrue c values s → IsTrue c values []
  nothing-IsTrue s h = record {
    held = tt;
    typed = h.typed;
    limits = h.limits;
    literals = h.literals;
  }

  -- The comparison that a bounded name stands for is true.
  Compares : Bool → Bounded → Type 0
  Compares b q = compare_op q.op (values.variables q.variable) q.value ≡ some b

  bound_by-Compares :
      (s : State) (b : Bool) (op : BinaryOperator) (l r : Node) (x y : ℤ) (q : Bounded)
      → IsTrue c values s
      → Denotes c values l x
      → Denotes c values r y
      → compare_op op x y ≡ some b
      → bound_by op l r (name_of l) (known_value (expr_range c [] r)) ≡ some q
      → Compares b q
  unfolding Denotes Compares compare_op
  bound_by-Compares s b op (id n) r x y q h d f e m =
      elim (Option-cases (known_value (expr_range c [] r))) [
        | inl unknown ↦ absurd (let m1 = rw unknown at m in cc m1)
        | inr (k, known) ↦
            let same : record {
              variable = n;
              value = k;
              op = op;
              variable_node = id n;
              bound_node = r;
            }
                ≡ q =
              (let m1 = rw known at m in cc m1) in
            let held = known-value c values [] r y k (nothing-IsTrue s h) f known in
            subst (Compares b) same (
              subst (λ z. compare_op op (values.variables n) z ≡ some b) held
                (subst (λ z. compare_op op z y ≡ some b) d e))
      ]
  bound_by-Compares s b op l r x y q h d f e m = absurd (cc m)

  bounded-Compares :
      (s : State) (b : Bool) (op : BinaryOperator) (l r : Node) (x y : ℤ) (q : Bounded)
      → IsTrue c values s
      → Denotes c values l x
      → Denotes c values r y
      → compare_op op x y ≡ some b
      → bounded c op l r ≡ some q
      → Compares b q
  unfolding bounded
  bounded-Compares s b op l r x y q h d f e m =
      elim (Option-cases (bound_by op l r (name_of l) (known_value (expr_range c [] r)))) [
        | inl no_left ↦
            bound_by-Compares s b (swapped op) r l y x q h f d (compare-swapped c values op x y ∙ e)
              (let m1 = rw (no_left, bounded) at m in m1)
        | inr (p, left) ↦
            bound_by-Compares s b op l r x y q h d f e
              (left ∙ (let m1 = rw (left, bounded) at m in m1))
      ]

  comparison-Held :
      (s : State) (b : Bool) (op : BinaryOperator) (l r : Node) (x y : ℤ)
      → IsTrue c values s
      → Denotes c values l x
      → Denotes c values r y
      → compare_op op x y ≡ some b
      → Held c values (comparison c op l r b)
  unfolding comparison bounded_constraint Compares
  comparison-Held s b op l r x y h d f e = elim (Bool-cases (is_comparison op)) [
    | inl compares ↦
        rw (compares, comparison)
          (elim (Option-cases (bounded c op l r)) [
            | inl unbounded ↦ rw (unbounded, bounded_constraint) tt
            | inr (q, found) ↦
                rw (found, bounded_constraint)
                  (constrained q (bounded-Compares s b op l r x y q h d f e found))
          ])
    | inr logical ↦ rw (logical, comparison) tt
  ]
    where
      constrained :
          (q : Bounded)
          → compare_op q.op (values.variables q.variable) q.value ≡ some b
          → Held c values (bounded_constraint c b (some q))
      constrained q m = elim (Bool-cases (converts c q.variable_node q.bound_node)) [
        | inl converted ↦ rw (converted, bounded_constraint) tt
        | inr direct ↦
            rw (direct, bounded_constraint)
              (bound_range-Held c values (if b then q.op else negated q.op) q.variable q.value
                (compare-directed c values q.op b (values.variables q.variable) q.value m))
      ]

  entry-In :
      (n : Text) (r : IntegerRange) (s : State)
      → Held c values s
      → lookup n s ≡ some r
      → In (values.variables n) r
  entry-In n r s h q = All-lookup (λ n r. In (values.variables n) r) n r s h q

  add_combined-Held :
      (s : State) (n : Text) (r : IntegerRange) (o : Option IntegerRange)
      → Held c values s
      → In (values.variables n) r
      → lookup n s ≡ o
      → Held c values (add_combined s n r o)
  unfolding add_combined
  add_combined-Held s n r none h k q = put-Held c values n r s k h
  add_combined-Held s n r (some prior) h k q =
      let both = intersect-In prior r (values.variables n) (entry-In n prior s h q) k in
      rw (both.1, add_combined) (put-Held c values n both.0 s both.2 h)

  combine_constraints-Held :
      (s t : State) → Held c values s → Held c values t → Held c values (combine_constraints s t)
  unfolding combine_constraints
  combine_constraints-Held s [] h k = h
  combine_constraints-Held s ((n, r) ∷ rest) h k =
      combine_constraints-Held (add_combined s n r (lookup n s)) rest
        (add_combined-Held s n r (lookup n s) h k.0 refl) k.1

  comparison-logical :
      (op : BinaryOperator) (l r : Node) (b : Bool)
      → is_comparison op ≡ false
      → Held c values (comparison c op l r b)
  unfolding comparison
  comparison-logical op l r b q = rw q tt

  pub constraints-Held :
      (s : State) (e : Node) (b : Bool)
      → IsTrue c values s
      → Truth c values e b
      → Held c values (constraints c e b)
  unfolding constraints Truth
  constraints-Held s (unary_op logical_not e) b h d = constraints-Held s e (not b) h d
  constraints-Held s (binary_op logical_and l r) true h d =
      combine_constraints-Held (constraints c l true) (constraints c r true)
        (constraints-Held s l true h d.0) (constraints-Held s r true h d.1)
  constraints-Held s (binary_op logical_and l r) false h d =
      comparison-logical logical_and l r false refl
  constraints-Held s (binary_op logical_or l r) true h d =
      comparison-logical logical_or l r true refl
  constraints-Held s (binary_op logical_or l r) false h d =
      combine_constraints-Held (constraints c l false) (constraints c r false)
        (constraints-Held s l false h d.0) (constraints-Held s r false h d.1)
  constraints-Held s (binary_op op l r) b h d = comparison-Held s b op l r d.0 d.1 h d.2 d.3 d.4
  constraints-Held s e b h d = tt

  combined_with-In :
      (s : State) (n : Text) (r : IntegerRange) (o : Option IntegerRange)
      → In (values.variables n) r
      → ((i : IntegerRange) → o ≡ some i → In (values.variables n) i)
      → (t : IntegerRange) × (combined_with r o ≡ some t) × In (values.variables n) t
  unfolding combined_with
  combined_with-In s n r none h k = (r, refl, h)
  combined_with-In s n r (some i) h k = intersect-In i r (values.variables n) (k i refl) h

  current_range-In :
      (s : State) (n : Text) (i : IntegerRange) (o : Option IntegerRange)
      → IsTrue c values s
      → lookup n s ≡ o
      → current_range c s n o ≡ some i
      → In (values.variables n) i
  unfolding current_range Denotes name_range static_range type_of
  current_range-In s n i (some r) h q m = entry-In n i s h.held (q ∙ m)
  current_range-In s n i none h q m = elim (Bool-cases c.has_context) [
    | inl context ↦
        expr_range-In c values s (id n) (values.variables n) i h refl
          (let m1 = rw (context, current_range) at m in m1)
    | inr without ↦ absurd (let m1 = rw (without, current_range) at m in cc m1)
  ]

  pub apply_constraints-IsTrue :
      (s cs : State)
      → IsTrue c values s
      → Held c values cs
      → (t : State) × (apply_constraints c s cs ≡ some t) × IsTrue c values t
  unfolding apply_constraints
  apply_constraints-IsTrue s [] h k = (s, refl, h)
  apply_constraints-IsTrue s ((n, r) ∷ rest) h k =
      let both =
        combined_with-In s n r (current_range c s n (lookup n s)) k.0
          (λ i. current_range-In s n i (lookup n s) h refl) in
      let next : IsTrue c values (put n both.0 s) = record {
        held = put-Held c values n both.0 s both.2 h.held;
        typed = h.typed;
        limits = h.limits;
        literals = h.literals;
      } in
      let after = apply_constraints-IsTrue (put n both.0 s) rest next k.1 in
      (after.0, rw (both.1, apply_constraints) after.1, after.2)

  merge_entry-Held :
      (n : Text) (r : IntegerRange) (o : Option IntegerRange) (rest : State)
      → ((i : IntegerRange) → o ≡ some i → In (values.variables n) (hull r i))
      → Held c values rest
      → Held c values (merge_entry n r o rest)
  unfolding merge_entry
  merge_entry-Held n r none rest h k = k
  merge_entry-Held n r (some i) rest h k = (h i refl, k)

  -- Where either of two states is true of the variables' values, the state merged from both is.
  pub merge-IsTrue :
      (s t : State) → IsTrue c values s ⊎ IsTrue c values t → IsTrue c values (merge s t)
  unfolding merge
  merge-IsTrue s t (inl h) = record {
    held = left s h.held;
    typed = h.typed;
    limits = h.limits;
    literals = h.literals;
  }
    where
      left : (s : State) → Held c values s → Held c values (merge s t)
      left [] k = tt
      left ((n, r) ∷ rest) k =
          merge_entry-Held n r (lookup n t) (merge rest t)
            (λ i q. hull-In r i (values.variables n) (inl k.0)) (left rest k.1)
  merge-IsTrue s t (inr h) = record {
    held = right s;
    typed = h.typed;
    limits = h.limits;
    literals = h.literals;
  }
    where
      right : (s : State) → Held c values (merge s t)
      right [] = tt
      right ((n, r) ∷ rest) =
          merge_entry-Held n r (lookup n t) (merge rest t)
            (λ i q. hull-In r i (values.variables n) (inr (entry-In n i t h.held q))) (right rest)

  -- In a state that is true of the variables' values, a truth value that is found for a condition
  -- is that of every value that the condition may have.
  pub condition_truth-Denotes :
      (unstable : List Text) (s : State) (e : Node) (v : ℤ) (b : Bool)
      → IsTrue c values s
      → Denotes c values e v
      → condition_truth c s unstable e ≡ some b
      → not (is_zero v) ≡ b
  unfolding condition_truth
  condition_truth-Denotes unstable s e v b h d q = elim (Bool-cases (supported e)) [
    | inr unknown ↦ absurd (let q1 = rw (unknown, condition_truth) at q in cc q1)
    | inl known ↦ elim (Bool-cases (reads_unstable unstable e)) [
      | inl reads ↦ absurd (let q1 = rw (known, reads, condition_truth) at q in cc q1)
      | inr stable ↦ elim (Option-cases (known_value (expr_range c s e))) [
        | inl open_ ↦ absurd (let q1 = rw (known, stable, open_, condition_truth) at q in cc q1)
        | inr (k, one) ↦
            let q1 = rw (known, stable, one, condition_truth) at q in
            ap (λ z. not (is_zero z)) (known-value c values s e v k h d one) ∙ (cc q1)
      ]
    ]
  ]

  undisproved :
      (o : Option Bool) (b : Bool) → ((p : Bool) → o ≡ some p → b ≡ p) → disproved o b ≡ false
  undisproved none b h = refl
  undisproved (some true) b h = rw (h true refl) refl
  undisproved (some false) b h = h false refl

  -- In a state that is true of the variables' values, where those are values of the variables' types,
  -- and each constant and named limit has the value that is read of it, the edge of a branch is not
  -- skipped if its condition has the branch's truth value both in C, where comparisons are made in
  -- the operands' common type, and over mathematical integers; and the state along the edge is true
  -- of the values: the constraints that the branch adds hold.
  pub edge_state-IsTrue :
      (unstable : List Text) (s : State) (e : Node) (v : ℤ) (b : Bool)
      → IsTrue c values s
      → Denotes c values e v
      → not (is_zero v) ≡ b
      → Truth c values e b
      → (t : State) × (edge_state c unstable s e b ≡ some t) × IsTrue c values t
  unfolding edge_state
  edge_state-IsTrue unstable s e v b h d q m =
      let kept =
        undisproved (condition_truth c s unstable e) b
          (λ p f. sym q ∙ condition_truth-Denotes unstable s e v p h d f) in
      rw kept (
        apply_constraints-IsTrue s (keep (λ p. not (elem p.0 unstable)) (constraints c e b)) h (
          All-keep (λ p. In (values.variables p.0) p.1) (λ p. In (values.variables p.0) p.1) _
            (constraints c e b) (λ p f _. f) (constraints-Held s e b h m)))

-- ===== src/Preprocessor/Robdd/Witnesses.antt =====
-- `witness` and `witness_assignment`: the walk from the root ends at the true terminal, and what it
-- passes makes the condition true.
use cgull.Prelude.{
  ℕ, zero, suc, ◌<◌, Bool, true, false, List, [], ◌∷◌, Option, none, some, ◌≡◌, ◌≢◌, refl, ap, sym,
  ◌∙◌, inl, inr, arith, if◌then◌else◌, length, get_elem?, get_elem?-lt, get_elem?-get_or, get_or,
  elem, lookup, lookup-cons_ne, lookup-cons_self, subst, ◌==◌, Bool-cases, eqb, eqb_iff, ltb,
  ltb→lt, map,
}
use cgull.Preprocessor.Exec.{ok}
use cgull.Preprocessor.Expression.{Expression, constant, Assignment, eval, expression_atoms}
use cgull.Preprocessor.Expression.Equality.{expression_eq}
use cgull.Preprocessor.Robdd.{
  ResourceLimits, Node, Manager, consume, item, build, index_of, new_manager,
}
use cgull.Preprocessor.Robdd.Answers.{
  ordered_of, ordered_of_lem, Known-own, Settles, run-Settles, on_limit-Settles,
}
use cgull.Preprocessor.Robdd.Assignments.{index_of-get_or_self, value-agree}
use cgull.Preprocessor.Robdd.Build.{build-Meets}
use cgull.Preprocessor.Robdd.BuildParts.{IsBuilt, Known}
use cgull.Preprocessor.Robdd.Initial.{distinct}
use cgull.Preprocessor.Robdd.Invariant.{
  numbered, IsSound, Denotes, Denotes-Grows, Meets, Meets-bind, Meets-ok, Meets-weaken,
}
use cgull.Preprocessor.Robdd.Nodes.{consume-Meets, item-Meets}
use cgull.Preprocessor.Robdd.Queries.{
  query_atoms, run_in, atom_at, Witness, witness_loop, or_false, value_or_false, fill, filled,
  witness, witness_in, witness_assignment, with_manager,
}
use cgull.Preprocessor.Robdd.Reading.{atom_at-Meets}
use cgull.Preprocessor.Robdd.Values.{value, level, level-node}

-- The assignment that a witness stands for.
abbrev pub assigned : Witness → Assignment
assigned w x = value_or_false x w

module _ (ordered : List Expression) (u : distinct ordered ≡ true) where
  -- Another atom's value is not touched.
  assigned_other :
      (i v : ℕ) (atom : Expression) (b : Bool) (w : Witness)
      → get_elem? ordered v ≡ some atom
      → i < v
      → numbered ordered (assigned ((atom, b) ∷ w)) i ≡ numbered ordered (assigned w) i
  assigned_other i v atom b w at lt = ap or_false (
      lookup-cons_ne (get_or ordered i (constant false)) atom b w λ e.
        let hv = get_elem?-lt ordered v at in
        let places : some v ≡ some i =
          sym (index_of-get_or_self ordered v (constant false) u hv)
          ∙ ap (λ x. index_of x ordered) (get_elem?-get_or ordered v (constant false) at ∙ e)
          ∙ index_of-get_or_self ordered i (constant false) u (omega arith) in
        absurd (ground arith))

  assigned_self :
      (v : ℕ) (atom : Expression) (b : Bool) (w : Witness)
      → get_elem? ordered v ≡ some atom
      → numbered ordered (assigned ((atom, b) ∷ w)) v ≡ b
  assigned_self v atom b w at =
      ap (λ x. or_false (lookup x ((atom, b) ∷ w))) (get_elem?-get_or ordered v (constant false) at)
      ∙ ap or_false (lookup-cons_self atom b w)

  -- From node `n` the walk ends at node 1, its assignments make the node true, and those of the
  -- atoms above the node are as before.
  record Walked (n : ℕ) (w : Witness) (r : ℕ × Witness) (m : Manager) : Type 0 where
    end : r.0 ≡ 1
    holds : value (numbered ordered (assigned r.1)) m.nodes n ≡ true
    kept :
        (i : ℕ)
        → i < level (length ordered) m.nodes n
        → numbered ordered (assigned r.1) i ≡ numbered ordered (assigned w) i

  terminal_walk :
      (n : ℕ) (w : Witness) (m : Manager)
      → IsSound ordered m
      → n < 2
      → n ≢ 0
      → Meets ordered m (Walked n w) (ok (n, w), m)
  terminal_walk n w m s lt ne =
      let one : n ≡ 1 = omega arith in
      Meets-ok m (Walked n w) (n, w) s
        (record {
          end = one;
          holds = rw one (s.table.one_value (numbered ordered (assigned w)));
          kept = λ i h. refl;
        })

  -- A step to the child that is not the false terminal.
  child_walk :
      (n : ℕ) (k : Node) (atom : Expression) (b : Bool) (w : Witness) (r : ℕ × Witness)
      (m : Manager)
      → IsSound ordered m
      → get_elem? m.nodes n ≡ some (some k)
      → get_elem? ordered k.atom_index ≡ some atom
      → Walked (if b then k.high else k.low) ((atom, b) ∷ w) r m
      → Walked n w r m
  child_walk n k atom b w r m s e at h =
      let node = s.table.node n k e in
      let above : k.atom_index < level (length ordered) m.nodes (if b then k.high else k.low) =
        child_above b in
      let own : numbered ordered (assigned r.1) k.atom_index ≡ b =
        h.kept k.atom_index above ∙ assigned_self k.atom_index atom b w at in
      record {
        end = h.end;
        holds = node.branches (numbered ordered (assigned r.1)) ∙ rw own (chosen b h.holds);
        kept = λ i l.
            let lt : i < k.atom_index = omega (arith, level-node (length ordered) m.nodes n k e) in
            h.kept i (omega arith) ∙ assigned_other i k.atom_index atom b w at lt;
      }
    where
      child_above :
          (c : Bool) → k.atom_index < level (length ordered) m.nodes (if c then k.high else k.low)
      child_above true = (s.table.node n k e).high_level
      child_above false = (s.table.node n k e).low_level

      chosen :
          (c : Bool)
          → value (numbered ordered (assigned r.1)) m.nodes (if c then k.high else k.low) ≡ true
          → (if c
              then value (numbered ordered (assigned r.1)) m.nodes k.high
              else value (numbered ordered (assigned r.1)) m.nodes k.low)
            ≡ true
      chosen true q = q
      chosen false q = q

  live_child : (i : ℕ) (k : Node) → k.low ≢ k.high → (if eqb k.low 0 then k.high else k.low) ≢ 0
  live_child i k ne = elim (Bool-cases (eqb k.low 0)) [
    | inl dead ↦ rw dead (λ q. ne ((eqb_iff k.low 0).0 dead ∙ sym q))
    | inr live ↦ rw live (λ q. cc ((eqb_iff k.low 0).1 q, live))
  ]

  child_lt :
      (n : ℕ) (k : Node) (b : Bool) → k.low < n → k.high < n → (if b then k.high else k.low) < n
  child_lt n k true l h = h
  child_lt n k false l h = l

  witness_loop-Meets :
      (fuel n : ℕ) (w : Witness) (m : Manager)
      → n < fuel
      → n ≢ 0
      → IsSound ordered m
      → n < length m.nodes
      → Meets ordered m (Walked n w) (witness_loop fuel n w m)
  unfolding witness_loop
  witness_loop-Meets zero n w m lt ne s h = absurd (omega arith)
  witness_loop-Meets (suc fuel) n w m lt ne s h = elim (Bool-cases (ltb n 2)) [
    | inl end ↦ rw end (terminal_walk n w m s (ltb→lt n 2 end) ne)
    | inr inner ↦ rw inner (
        Meets-bind m (λ _ m'. m'.interned ≡ m.interned) (Walked n w) consume _ (consume-Meets m s)
          λ _ m1 s1 g1 _.
            Meets-bind m1 (λ k m'. get_elem? m'.nodes n ≡ some (some k)) (Walked n w) (item n) _
              (item-Meets m1 n s1 (omega (arith, g1.longer)) (ground arith))
              λ k m2 s2 g2 e2.
                let node = s2.table.node n k e2 in
                let n2 = get_elem?-lt m2.nodes n e2 in
                Meets-bind m2 (λ e m'. get_elem? ordered k.atom_index ≡ some e) (Walked n w)
                  (atom_at k.atom_index) _ (atom_at-Meets ordered m2 k.atom_index s2 node.atom_lt)
                  λ atom m3 s3 g3 at.
                    let dead = eqb k.low 0 in
                    let child = if dead then k.high else k.low in
                    let below = child_lt n k dead node.low_lt node.high_lt in
                    Meets-weaken m3 (Walked child ((atom, dead) ∷ w)) (Walked n w)
                      (witness_loop fuel child ((atom, dead) ∷ w) m3)
                      (λ r m4 s4 g4 x.
                        child_walk n k atom dead w r m4 s4
                          (g4.kept n (omega (arith, g3.longer)) ∙ g3.kept n n2 ∙ e2) at x)
                      (witness_loop-Meets fuel child ((atom, dead) ∷ w) m3 (omega (arith, below))
                        (live_child n k node.reduced) s3 (omega (arith, below, g3.longer))))
  ]

  lookup-fill :
      (xs : List Expression) (w : Witness) (x : Expression)
      → elem x xs ≡ true
      → value_or_false x (fill xs w) ≡ value_or_false x w
  lookup-fill [] w x h = cc
  lookup-fill (y ∷ xs) w x h = elim (Bool-cases (y == x)) [
    | inl e ↦
        let q = (expression_eq.beq_iff y x).0 e in
        subst (λ z. value_or_false z (fill (y ∷ xs) w) ≡ value_or_false z w) q
          (ap or_false (lookup-cons_self y (value_or_false y w) (fill xs w)))
    | inr ne ↦
        ap or_false (
          lookup-cons_ne x y (value_or_false y w) (fill xs w)
            (λ q. cc ((expression_eq.beq_iff y x).1 q, ne)))
        ∙ lookup-fill xs w x (ground (arith, expression_eq.beq_iff x y, expression_eq.beq_iff y x))
  ]

  get_or-elem :
      (xs : List Expression) (i : ℕ) → i < length xs → elem (get_or xs i (constant false)) xs ≡ true
  get_or-elem [] i h = absurd (omega arith)
  get_or-elem (x ∷ xs) zero h = rw ((expression_eq.beq_iff x x).1 refl)
  get_or-elem (x ∷ xs) (suc i) h = ground (arith, get_or-elem xs i)

  -- A witness covers the atoms in their order, and makes the condition true.
  abbrev pub IsWitness : Expression → Option Witness → Type 0
  IsWitness e none = (a : Assignment) → eval a e ≡ false
  IsWitness e (some w) =
      (eval (assigned w) e ≡ true) × (map (λ (p : Expression × Bool). p.0) w ≡ ordered)

  map-fill :
      (xs : List Expression) (w : Witness) → map (λ (p : Expression × Bool). p.0) (fill xs w) ≡ xs
  map-fill [] w = refl
  map-fill (x ∷ xs) w = ap (λ l. x ∷ l) (map-fill xs w)

  -- The filled witness makes the condition true.
  fill-IsWitness :
      (e : Expression) (n : ℕ) (w : Witness) (m : Manager)
      → IsSound ordered m
      → Denotes ordered m.nodes n e
      → value (numbered ordered (assigned w)) m.nodes n ≡ true
      → IsWitness e (some (fill ordered w))
  fill-IsWitness e n w m s d h = (
    sym (d.meaning (assigned (fill ordered w)))
        ∙ value-agree s.table (suc n) n (numbered ordered (assigned (fill ordered w)))
            (numbered ordered (assigned w))
            (λ v l.
              lookup-fill ordered w (get_or ordered v (constant false)) (get_or-elem ordered v l))
            (omega arith) d.lt
        ∙ h,
    map-fill ordered w,
  )

  -- An assignment was found.
  abbrev pub Found : Expression → Option Witness → Type 0
  Found e o = (w : Witness) × (o ≡ some w) × IsWitness e (some w)

  filled-Found :
      (e : Expression) (n : ℕ) (r : ℕ × Witness) (m : Manager)
      → IsSound ordered m
      → Denotes ordered m.nodes n e
      → Walked n [] r m
      → Meets ordered m (λ o _. Found e o) (filled r m)
  filled-Found e n r m s d h = rw (h.end) (
      Meets-ok m (λ o _. Found e o) (some (fill m.atom_list r.1)) s
        (
          fill m.atom_list r.1,
          refl,
          subst (λ l. IsWitness e (some (fill l r.1))) (sym s.same_atoms)
              (fill-IsWitness e n r.1 m s d h.holds),
        ))

  -- Of a node other than 0 the walk finds an assignment.
  pub witness-Found :
      (e : Expression) (n : ℕ) (m : Manager)
      → IsSound ordered m
      → Denotes ordered m.nodes n e
      → eqb n 0 ≡ false
      → Meets ordered m (λ o _. Found e o) (witness n m)
  unfolding witness
  witness-Found e n m s d live = rw live (
      Meets-bind m (Walked n []) (λ o _. Found e o) (witness_loop (suc n) n []) filled
        (witness_loop-Meets (suc n) n [] m (omega arith) (λ q. cc ((eqb_iff n 0).1 q, live)) s d.lt)
        (λ r m1 s1 g1 h. filled-Found e n r m1 s1 (Denotes-Grows g1 d) h))

  -- Node 0 has no assignment.
  pub zero-IsWitness :
      (e : Expression) (n : ℕ) (m : Manager)
      → IsSound ordered m
      → Denotes ordered m.nodes n e
      → eqb n 0 ≡ true
      → IsWitness e none
  zero-IsWitness e n m s d zero_root a =
      sym (d.meaning a)
      ∙ ap (value (numbered ordered a) m.nodes) ((eqb_iff n 0).0 zero_root)
      ∙ s.table.zero_value (numbered ordered a)

  witness-Meets :
      (e : Expression) (n : ℕ) (m : Manager)
      → IsSound ordered m
      → Denotes ordered m.nodes n e
      → Meets ordered m (λ o _. IsWitness e o) (witness n m)
  unfolding witness
  witness-Meets e n m s d = elim (Bool-cases (eqb n 0)) [
    | inl zero_root ↦
        rw zero_root (Meets-ok m (λ o _. IsWitness e o) none s (zero-IsWitness e n m s d zero_root))
    | inr live ↦
        Meets-weaken m (λ o _. Found e o) (λ o _. IsWitness e o) (witness n m)
          (λ o m' s' g (w, q, h). subst (IsWitness e) (sym q) h) (witness-Found e n m s d live)
  ]

  pub witness_in-Meets :
      (e : Expression) (m : Manager)
      → Known ordered e
      → IsSound ordered m
      → Meets ordered m (λ o _. IsWitness e o) (witness_in e m)
  unfolding witness_in
  witness_in-Meets e m k s =
      Meets-bind m (IsBuilt ordered e) (λ o _. IsWitness e o) (build e) witness
        (build-Meets ordered e m k s) λ n m1 s1 g1 d1. witness-Meets e n m1 s1 d1

settled-IsWitness :
    (e : Expression) (limits : ResourceLimits)
    → Settles
        (IsWitness (ordered_of (expression_atoms e)) (ordered_of_lem (expression_atoms e)).0 e)
        (run_in (new_manager (query_atoms (expression_atoms e)) limits) (witness_in e))
settled-IsWitness e limits =
    let found = expression_atoms e in
    let u = (ordered_of_lem found).0 in
    run-Settles (IsWitness (ordered_of found) u e) found limits (witness_in e)
      (λ m s. witness_in-Meets (ordered_of found) u e m (Known-own e) s)

pub witness_assignment_returns :
    (e : Expression) (limits : ResourceLimits)
    → (o : Option Witness) × (witness_assignment e limits ≡ ok o)
      × ((w : Witness)
          → o ≡ some w
          → (eval (assigned w) e ≡ true)
            × (map (λ (p : Expression × Bool). p.0) w ≡ ordered_of (expression_atoms e)))
unfolding witness_assignment with_manager
witness_assignment_returns e limits =
    let found = expression_atoms e in
    let u = (ordered_of_lem found).0 in
    let (o, r, q) =
      on_limit-Settles (IsWitness (ordered_of found) u e) none _ (settled-IsWitness e limits) in
    (
      o,
      r,
      λ w here. elim q [
        | inl exact ↦ subst (IsWitness (ordered_of found) u e) here exact
        | inr default ↦ absurd (cc (here, default))
      ],
    )

-- An assignment that `witness_assignment` returns, whatever the limits, makes the condition true,
-- and names each atom of the condition in the order of the atoms.
pub witness_assignment_sound :
    (e : Expression) (limits : ResourceLimits) (w : Witness)
    → witness_assignment e limits ≡ ok (some w)
    → (eval (assigned w) e ≡ true)
      × (map (λ (p : Expression × Bool). p.0) w ≡ ordered_of (expression_atoms e))
witness_assignment_sound e limits w h =
    let (o, r, sound) = witness_assignment_returns e limits in sound w (ground arith)

-- Where no resource limit is exceeded, the query returns no assignment only for a condition that
-- is false under every assignment.
pub witness_exact :
    (e : Expression) (limits : ResourceLimits)
    → run_in (new_manager (query_atoms (expression_atoms e)) limits) (witness_in e) ≡ ok none
    → (a : Assignment) → eval a e ≡ false
witness_exact e limits q = let h = settled-IsWitness e limits in rw q at h

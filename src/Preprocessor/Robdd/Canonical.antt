-- ===== src/Preprocessor/Robdd/Canonical.antt =====
-- Roots are canonical for one order of the atoms: two nodes of a well-formed table with the same
-- value under every assignment are one node.
use cgull.Prelude.{
  ℕ, zero, suc, ◌≤◌, ◌<◌, Bool, true, false, List, Option, none, some, ◌≡◌, refl, ap, sym, ◌∙◌, ◌⊎◌,
  inl, inr, arith, if◌then◌else◌, length, get_elem?, get_elem?-lt, get_elem?_total, lookup, eqb,
  ltb, ltb→lt, Bool-cases,
}
use cgull.Preprocessor.Robdd.{Node, node_eq}
use cgull.Preprocessor.Robdd.Values.{value, level, level-node}
use cgull.Preprocessor.Robdd.Invariant.{IsTable}

-- The assignment with one atom changed.
abbrev pub assign : (ℕ → Bool) → ℕ → Bool → ℕ → Bool
assign a v b i = if eqb i v then b else a i

assign_self : (a : ℕ → Bool) (v : ℕ) (b : Bool) → assign a v b v ≡ b
assign_self a v b = ground arith

assign_other : (a : ℕ → Bool) (v : ℕ) (b : Bool) (i : ℕ) → v < i → assign a v b i ≡ a i
assign_other a v b i h = ground arith

module _ {count : ℕ} {ns : List (Option Node)} {interned : List (Node × ℕ)}
    (t : IsTable count ns interned) where
  pub node_cases :
      (i : ℕ)
      → i < length ns
      → ((i < 2) × (get_elem? ns i ≡ some none)) ⊎ ((k : Node) × (get_elem? ns i ≡ some (some k)))
  node_cases i h = go (get_elem?_total ns i h).0 (get_elem?_total ns i h).1
    where
      go :
          (o : Option Node)
          → get_elem? ns i ≡ some o
          → ((i < 2) × (get_elem? ns i ≡ some none))
            ⊎ ((k : Node) × (get_elem? ns i ≡ some (some k)))
      go none e = inl (t.terminal i e, e)
      go (some k) e = inr (k, e)

  terminal_level : (i : ℕ) → get_elem? ns i ≡ some none → level count ns i ≡ count
  unfolding level
  terminal_level i e = rw e

  level-le : (i : ℕ) → i < length ns → level count ns i ≤ count
  level-le i h = elim (node_cases i h) [
    | inl e ↦ omega (arith, terminal_level i e.1)
    | inr n ↦ omega (arith, level-node count ns i n.0 n.1, (t.node i n.0 n.1).atom_lt)
  ]

  terminal_value : (i : ℕ) (a b : ℕ → Bool) → i < 2 → value a ns i ≡ value b ns i
  terminal_value zero a b h = t.zero_value a ∙ sym (t.zero_value b)
  terminal_value (suc zero) a b h = t.one_value a ∙ sym (t.one_value b)
  terminal_value (suc (suc i)) a b h = absurd (omega arith)

  -- A node does not see an atom above its own.
  value-assign :
      (bound i v : ℕ) (a : ℕ → Bool) (b : Bool)
      → i < bound
      → i < length ns
      → v < level count ns i
      → value (assign a v b) ns i ≡ value a ns i
  value-assign zero i v a b lt h above = absurd (omega arith)
  value-assign (suc bound) i v a b lt h above = elim (node_cases i h) [
    | inl e ↦ terminal_value i (assign a v b) a (e.0)
    | inr n ↦
        let k = n.0 in
        let node = t.node i k n.1 in
        let own = level-node count ns i k n.1 in
        node.branches (assign a v b)
        ∙ rw
            (
              assign_other a v b k.atom_index (omega arith),
              value-assign bound k.high v a b (omega (arith, node.high_lt))
                  (omega (arith, node.high_lt)) (omega (arith, node.high_level)),
              value-assign bound k.low v a b (omega (arith, node.low_lt))
                  (omega (arith, node.low_lt)) (omega (arith, node.low_level)),
            )
            (sym (node.branches a))
  ]

  -- The values of the children, from the node's.
  pub low_value :
      (i : ℕ) (k : Node) (a : ℕ → Bool)
      → get_elem? ns i ≡ some (some k)
      → value (assign a k.atom_index false) ns i ≡ value a ns k.low
  low_value i k a e =
      let node = t.node i k e in
      let lt = get_elem?-lt ns i e in
      node.branches (assign a k.atom_index false)
      ∙ rw (assign_self a k.atom_index false) (
          value-assign (suc k.low) k.low k.atom_index a false (omega arith)
            (omega (arith, node.low_lt)) node.low_level)

  pub high_value :
      (i : ℕ) (k : Node) (a : ℕ → Bool)
      → get_elem? ns i ≡ some (some k)
      → value (assign a k.atom_index true) ns i ≡ value a ns k.high
  high_value i k a e =
      let node = t.node i k e in
      let lt = get_elem?-lt ns i e in
      node.branches (assign a k.atom_index true)
      ∙ rw (assign_self a k.atom_index true) (
          value-assign (suc k.high) k.high k.atom_index a true (omega arith)
            (omega (arith, node.high_lt)) node.high_level)

  -- A node that has the same values as one below its atom has equal children.
  below_own :
      (i j : ℕ) (k : Node) (a : ℕ → Bool)
      → get_elem? ns i ≡ some (some k)
      → j < length ns
      → k.atom_index < level count ns j
      → ((b : ℕ → Bool) → value b ns i ≡ value b ns j)
      → value a ns k.low ≡ value a ns k.high
  below_own i j k a e h above same =
      sym (low_value i k a e)
      ∙ same (assign a k.atom_index false)
      ∙ value-assign (suc j) j k.atom_index a false (omega arith) h above
      ∙ sym (value-assign (suc j) j k.atom_index a true (omega arith) h above)
      ∙ sym (same (assign a k.atom_index true))
      ∙ high_value i k a e

  terminals : (i j : ℕ) (a : ℕ → Bool) → i < 2 → j < 2 → value a ns i ≡ value a ns j → i ≡ j
  terminals zero zero a hi hj e = refl
  terminals zero (suc zero) a hi hj e = absurd (cc (e, t.zero_value a, t.one_value a))
  terminals (suc zero) zero a hi hj e = absurd (cc (e, t.zero_value a, t.one_value a))
  terminals (suc zero) (suc zero) a hi hj e = refl
  terminals i j a hi hj e = omega arith

  abbrev Same : ℕ → ℕ → Type 0
  Same i j = (b : ℕ → Bool) → value b ns i ≡ value b ns j

  abbrev Distinguishes : ℕ → Type 0
  Distinguishes bound =
      (i j : ℕ) → i < bound → j < bound → i < length ns → j < length ns → Same i j → i ≡ j

  no_skip :
      (bound i j : ℕ) (k : Node)
      → Distinguishes bound
      → i < suc bound
      → get_elem? ns i ≡ some (some k)
      → j < length ns
      → k.atom_index < level count ns j
      → Same i j
      → ⊥
  no_skip bound i j k ih lt e h above same =
      let node = t.node i k e in
      let hi = get_elem?-lt ns i e in
      node.reduced (
        ih k.low k.high (omega (arith, node.low_lt)) (omega (arith, node.high_lt))
          (omega (arith, node.low_lt)) (omega (arith, node.high_lt))
          (λ a. below_own i j k a e h above same))

  Same-atom :
      (bound i j : ℕ) (k l : Node)
      → Distinguishes bound
      → i < suc bound
      → j < suc bound
      → get_elem? ns i ≡ some (some k)
      → get_elem? ns j ≡ some (some l)
      → k.atom_index ≡ l.atom_index
      → Same i j
      → i ≡ j
  Same-atom bound i j k l ih lti ltj ek el q same =
      let nk = t.node i k ek in
      let nl = t.node j l el in
      let hi = get_elem?-lt ns i ek in
      let hj = get_elem?-lt ns j el in
      let lows =
        ih k.low l.low (omega (arith, nk.low_lt)) (omega (arith, nl.low_lt))
          (omega (arith, nk.low_lt)) (omega (arith, nl.low_lt))
          (λ a.
            sym (low_value i k a ek)
            ∙ rw q (same (assign a l.atom_index false) ∙ low_value j l a el)) in
      let highs =
        ih k.high l.high (omega (arith, nk.high_lt)) (omega (arith, nl.high_lt))
          (omega (arith, nk.high_lt)) (omega (arith, nl.high_lt))
          (λ a.
            sym (high_value i k a ek)
            ∙ rw q (same (assign a l.atom_index true) ∙ high_value j l a el)) in
      let one : k ≡ l = ground arith in
      cc (t.found i k ek, t.found j l el, ap (λ n. lookup n interned) one)

  step :
      (bound i j : ℕ)
      → Distinguishes bound
      → i < suc bound
      → j < suc bound
      → (hi : i < length ns) (hj : j < length ns) → Same i j
      → i ≡ j
  step bound i j ih lti ltj hi hj same = go (node_cases i hi) (node_cases j hj)
    where
      go :
          ((i < 2) × (get_elem? ns i ≡ some none)) ⊎ ((k : Node) × (get_elem? ns i ≡ some (some k)))
          → ((j < 2) × (get_elem? ns j ≡ some none))
            ⊎ ((k : Node) × (get_elem? ns j ≡ some (some k)))
          → i ≡ j
      go (inl a) (inl b) = terminals i j (λ _. false) (a.0) (b.0) (same (λ _. false))
      go (inl a) (inr (l, el)) = absurd (
          no_skip bound j i l ih ltj el hi
            (omega (arith, terminal_level i a.1, (t.node j l el).atom_lt)) (λ b. sym (same b)))
      go (inr (k, ek)) (inl b) = absurd (
          no_skip bound i j k ih lti ek hj
            (omega (arith, terminal_level j b.1, (t.node i k ek).atom_lt)) same)
      go (inr (k, ek)) (inr (l, el)) = elim (Bool-cases (ltb k.atom_index l.atom_index)) [
        | inl lower ↦ absurd (
            no_skip bound i j k ih lti ek hj
              (omega (arith, level-node count ns j l el, ltb→lt _ _ lower)) same)
        | inr not_lower ↦ elim (Bool-cases (ltb l.atom_index k.atom_index)) [
          | inl higher ↦ absurd (
              no_skip bound j i l ih ltj el hi
                (omega (arith, level-node count ns i k ek, ltb→lt _ _ higher)) (λ b. sym (same b)))
          | inr not_higher ↦ Same-atom bound i j k l ih lti ltj ek el (ground arith) same
        ]
      ]

  distinguishes : (bound : ℕ) → Distinguishes bound
  distinguishes zero i j lti ltj hi hj same = absurd (omega arith)
  distinguishes (suc bound) i j lti ltj hi hj same =
      step bound i j (distinguishes bound) lti ltj hi hj same

  -- Nodes with the same value under every assignment are the same node.
  pub node-eq_of_values :
      (i j : ℕ)
      → i < length ns
      → j < length ns
      → ((b : ℕ → Bool) → value b ns i ≡ value b ns j)
      → i ≡ j
  node-eq_of_values i j hi hj same = distinguishes (length ns) i j hi hj hi hj same

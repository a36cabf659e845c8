-- ===== src/Preprocessor/Robdd/Assignments.antt =====
-- Assignments of atoms and of their numbers: what nodes say under every assignment of the atoms
-- decides them, and a node other than 0 is true under some assignment.
use cgull.Prelude.{
  ℕ, zero, suc, ◌<◌, Bool, true, false, List, [], ◌∷◌, Option, none, some, ◌≡◌, ◌≢◌, ◌↔◌, ap, sym,
  ◌∙◌, inl, inr, arith, length, get_or, elem, ◌==◌, eqb, eqb_iff, Bool-cases, beq_refl,
}
use cgull.Preprocessor.Expression.{Expression, constant, Assignment}
use cgull.Preprocessor.Expression.Equality.{expression_eq}
use cgull.Preprocessor.Robdd.{Node, Manager, index_of}
use cgull.Preprocessor.Robdd.Canonical.{
  assign, node_cases, low_value, high_value, node-eq_of_values,
}
use cgull.Preprocessor.Robdd.Initial.{distinct}
use cgull.Preprocessor.Robdd.Invariant.{numbered, IsTable, IsSound}
use cgull.Preprocessor.Robdd.Values.{value}

get_or-elem :
    (xs : List Expression) (i : ℕ) (d : Expression) → i < length xs → elem (get_or xs i d) xs ≡ true
get_or-elem [] i d h = absurd (omega arith)
get_or-elem (x ∷ xs) zero d h = rw (beq_refl x)
get_or-elem (x ∷ xs) (suc i) d h = ground (arith, get_or-elem xs i d)

-- In a list without repetitions each place is found again.
pub index_of-get_or_self :
    (xs : List Expression) (i : ℕ) (d : Expression)
    → distinct xs ≡ true
    → i < length xs
    → index_of (get_or xs i d) xs ≡ some i
unfolding index_of
index_of-get_or_self [] i d u h = absurd (omega arith)
index_of-get_or_self (x ∷ xs) zero d u h = rw (beq_refl x)
index_of-get_or_self (x ∷ xs) (suc i) d u h =
    let rest : distinct xs ≡ true = ground arith in
    let new : elem x xs ≡ false = ground arith in
    let lt : i < length xs = omega arith in
    elim (Bool-cases (x == get_or xs i d)) [
      | inl e ↦ absurd (
          cc (
            new,
            get_or-elem xs i d lt,
            ap (λ y. elem y xs) ((expression_eq.beq_iff x (get_or xs i d)).0 e),
          ))
      | inr ne ↦ rw ne (rw (index_of-get_or_self xs i d rest lt))
    ]

-- The value at the atom's number.
abbrev at_number : (ℕ → Bool) → Option ℕ → Bool
at_number b none = false
at_number b (some i) = b i

pub from_numbers : List Expression → (ℕ → Bool) → Assignment
from_numbers ordered b x = at_number b (index_of x ordered)

pub numbered-from_numbers :
    (ordered : List Expression) (b : ℕ → Bool) (i : ℕ)
    → distinct ordered ≡ true
    → i < length ordered
    → numbered ordered (from_numbers ordered b) i ≡ b i
unfolding from_numbers
numbered-from_numbers ordered b i u h = rw (index_of-get_or_self ordered i (constant false) u h)

module _ {count : ℕ} {ns : List (Option Node)} {interned : List (Node × ℕ)}
    (t : IsTable count ns interned) where
  -- A value rests on the numbers of the atoms only.
  pub value-agree :
      (bound i : ℕ) (a b : ℕ → Bool)
      → ((v : ℕ) → v < count → a v ≡ b v)
      → i < bound
      → i < length ns
      → value a ns i ≡ value b ns i
  value-agree zero i a b same lt h = absurd (omega arith)
  value-agree (suc bound) i a b same lt h = elim (node_cases t i h) [
    | inl e ↦ terminal i e.0
    | inr n ↦
        let k = n.0 in
        let node = t.node i k n.1 in
        node.branches a
        ∙ rw
            (
              same k.atom_index node.atom_lt,
              value-agree bound k.high a b same (omega (arith, node.high_lt))
                  (omega (arith, node.high_lt)),
              value-agree bound k.low a b same (omega (arith, node.low_lt))
                  (omega (arith, node.low_lt)),
            )
            (sym (node.branches b))
  ]
    where
      terminal : (j : ℕ) → j < 2 → value a ns j ≡ value b ns j
      terminal zero h = t.zero_value a ∙ sym (t.zero_value b)
      terminal (suc zero) h = t.one_value a ∙ sym (t.one_value b)
      terminal (suc (suc j)) h = absurd (omega arith)

  -- Every node but 0 is true under some assignment.
  true_somewhere :
      (bound i : ℕ) → i < bound → i < length ns → i ≢ 0 → (b : ℕ → Bool) × (value b ns i ≡ true)
  true_somewhere zero i lt h ne = absurd (omega arith)
  true_somewhere (suc bound) i lt h ne = elim (node_cases t i h) [
    | inl e ↦ let one : i ≡ 1 = omega (arith, e.0) in (λ _. true, rw one (t.one_value (λ _. true)))
    | inr n ↦
        let k = n.0 in
        let node = t.node i k n.1 in
        elim (Bool-cases (eqb k.low 0)) [
          | inl dead ↦
              let (b, e) =
                true_somewhere bound k.high (omega (arith, node.high_lt))
                  (omega (arith, node.high_lt))
                  (λ q. node.reduced ((eqb_iff k.low 0).0 dead ∙ sym q)) in
              (assign b k.atom_index true, high_value t i k b n.1 ∙ e)
          | inr live ↦
              let (b, e) =
                true_somewhere bound k.low (omega (arith, node.low_lt)) (omega (arith, node.low_lt))
                  (λ q. cc ((eqb_iff k.low 0).1 q, live)) in
              (assign b k.atom_index false, low_value t i k b n.1 ∙ e)
        ]
  ]

module _ {ordered : List Expression} {m : Manager} (s : IsSound ordered m)
    (u : distinct ordered ≡ true) where
  value-from_numbers :
      (n : ℕ) (b : ℕ → Bool)
      → n < length m.nodes
      → value (numbered ordered (from_numbers ordered b)) m.nodes n ≡ value b m.nodes n
  value-from_numbers n b h =
      value-agree s.table (suc n) n (numbered ordered (from_numbers ordered b)) b
        (λ v l. numbered-from_numbers ordered b v u l) (omega arith) h

  -- Two nodes are one exactly when they have the same value under every assignment of the atoms.
  pub node-eq_iff :
      (i j : ℕ)
      → i < length m.nodes
      → j < length m.nodes
      → (i ≡ j) ↔ (
          (a : Assignment)
          → value (numbered ordered a) m.nodes i ≡ value (numbered ordered a) m.nodes j)
  node-eq_iff i j hi hj = (
    λ e a. ap (value (numbered ordered a) m.nodes) e,
    λ same. node-eq_of_values s.table i j hi hj (λ b.
        sym (value-from_numbers i b hi)
        ∙ same (from_numbers ordered b)
        ∙ value-from_numbers j b hj),
  )

  -- A node other than 0 is true under some assignment of the atoms.
  pub node_true :
      (i : ℕ)
      → i < length m.nodes
      → i ≢ 0
      → (a : Assignment) × (value (numbered ordered a) m.nodes i ≡ true)
  node_true i h ne =
      let (b, e) = true_somewhere s.table (suc i) i (omega arith) h ne in
      (from_numbers ordered b, value-from_numbers i b h ∙ e)

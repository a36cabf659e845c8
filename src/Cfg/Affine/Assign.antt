-- ===== src/Cfg/Affine/Assign.antt =====
-- Assignments, shifts and joins of affine facts keep them true of the values.
use mathlib.Core.Option
use cgull.Prelude.{
  ℤ, pos, ◌+ℤ◌, ◌-ℤ◌, neg_ℤ, int_laws, int_eq, false, not, ◌||◌, Option, none, some, ◌≡◌, refl, ap,
  sym, ◌∙◌, inl, inr, arith, Text, text_eq, ◌==◌, All-keep, Option-cases,
}
use cgull.Cfg.Syntax.{Node, id, constant, unary_op, binary_op, plus_sign, minus_sign, plus, minus}
use cgull.Cfg.Affine.{
  Affine, AffineFacts, forget, affine_rhs, affine_sum, based, name_of, integer, both, negated,
  typed_int, token_value,
}
use cgull.Cfg.Affine.Holds.{Values, ConstantHolds, RelationHolds, Holds}

-- The value of an expression, where it is made of constants, variables, signs, sums and
-- differences.
unfoldable pub value : Values → Node → Option ℤ
unfolding token_value
value values (id name) = some (values name)
value values (constant type text) = typed_int type (token_value text)
value values (unary_op plus_sign e) = value values e
value values (unary_op minus_sign e) = negated (value values e)
value values (binary_op plus l r) = both (λ x y. x +ℤ y) (value values l) (value values r)
value values (binary_op minus l r) = both (λ x y. x -ℤ y) (value values l) (value values r)
value values e = none

-- The variable has the value now, and no other has changed.
pub record Becomes (before : Values) (symbol : Text) (v : ℤ) (after : Values) : Type 0 where
  pub own : after symbol ≡ v
  pub others : (n : Text) → (n == symbol) ≡ false → after n ≡ before n

module _ (before after : Values) (symbol : Text)
    (others : (n : Text) → (n == symbol) ≡ false → after n ≡ before n) where
  pub forget-Holds : (facts : AffineFacts) → Holds before facts → Holds after (forget facts symbol)
  unfolding forget
  forget-Holds facts h = (
    All-keep (ConstantHolds before) (ConstantHolds after) (λ c. not (c.0 == symbol)) facts.constants
        (λ c q away. others c.0 (ground arith) ∙ q) h.0,
    All-keep (RelationHolds before) (RelationHolds after)
        (λ r. not (symbol == r.0 || symbol == r.1.0)) facts.relations
        (λ r q away.
          let first =
            others r.0 (ground (arith, text_eq.beq_iff r.0 symbol, text_eq.beq_iff symbol r.0)) in
          let second =
            others r.1.0
              (ground (arith, text_eq.beq_iff r.1.0 symbol, text_eq.beq_iff symbol r.1.0)) in
          (q.0, first ∙ q.1 ∙ ap (λ x. x +ℤ r.1.1) (sym second)))
        h.1,
  )

module _ (values : Values) where
  both-some :
      (f : ℤ → ℤ → ℤ) (x y : Option ℤ) (x' y' : Option ℤ) (v : ℤ)
      → ((w : ℤ) → x ≡ some w → x' ≡ some w)
      → ((w : ℤ) → y ≡ some w → y' ≡ some w)
      → both f x y ≡ some v
      → both f x' y' ≡ some v
  both-some f none y x' y' v h k e = absurd (cc e)
  both-some f (some x) none x' y' v h k e = absurd (cc e)
  both-some f (some x) (some y) x' y' v h k e = rw (h x refl, k y refl) e

  negated-some :
      (x x' : Option ℤ) (v : ℤ)
      → ((w : ℤ) → x ≡ some w → x' ≡ some w)
      → negated x ≡ some v
      → negated x' ≡ some v
  negated-some none x' v h e = absurd (cc e)
  negated-some (some x) x' v h e = rw (h x refl) e

  pub integer-value : (e : Node) (v : ℤ) → integer e ≡ some v → value values e ≡ some v
  unfolding integer value
  integer-value (constant type text) v h = h
  integer-value (unary_op plus_sign e) v h = integer-value e v h
  integer-value (unary_op minus_sign e) v h =
      negated-some (integer e) (value values e) v (λ w q. integer-value e w q) h
  integer-value (binary_op plus l r) v h =
      both-some (λ x y. x +ℤ y) (integer l) (integer r) (value values l) (value values r) v
        (λ w q. integer-value l w q) (λ w q. integer-value r w q) h
  integer-value (binary_op minus l r) v h =
      both-some (λ x y. x -ℤ y) (integer l) (integer r) (value values l) (value values r) v
        (λ w q. integer-value l w q) (λ w q. integer-value r w q) h
  integer-value e v h = absurd (cc h)

  -- What a base and an offset come to.
  abbrev pub affine_value : Affine → ℤ
  affine_value (none, k) = k
  affine_value (some base, k) = values base +ℤ k

  name_of-value :
      (e : Node) (name : Text) → name_of e ≡ some name → value values e ≡ some (values name)
  unfolding value
  name_of-value (id n) name h = ap (λ o. Option.map values o) h
  name_of-value e name h = absurd (cc h)

  based-value :
      (e : Node) (amount : Option ℤ) (p : Affine)
      → based (name_of e) amount ≡ some p
      → (k : ℤ) × (name : Text) × (amount ≡ some k)
        × (value values e ≡ some (values name))
        × (p ≡ (some name, k))
  based-value e amount p h = named (name_of e) refl amount h
    where
      named :
          (n : Option Text)
          → name_of e ≡ n
          → (o : Option ℤ) → based n o ≡ some p
          → (k : ℤ) × (name : Text) × (o ≡ some k)
            × (value values e ≡ some (values name))
            × (p ≡ (some name, k))
      named none q o h = absurd (cc h)
      named (some n) q none h = absurd (cc h)
      named (some n) q (some k) h = (k, n, refl, name_of-value e n q, cc h)

  affine_sum-value :
      (e : Node) (p : Affine) → affine_sum e ≡ some p → value values e ≡ some (affine_value p)
  unfolding integer value
  affine_sum-value (id name) p h =
      let q : (some name, pos 0) ≡ p = cc h in
      let zero_added : values name ≡ values name +ℤ pos 0 = omega int_laws in
      ap some (zero_added ∙ ap affine_value q)
  affine_sum-value (binary_op plus l r) p h = elim (Option-cases (based (name_of l) (integer r))) [
    | inr (p', e) ↦
        let (k, n, x, y, q) = based-value l (integer r) p' e in
        let same : p' ≡ p = (let h1 = rw e at h in cc h1) in
        rw (y, integer-value r k x) (ap (λ a. some (affine_value a)) (sym q ∙ same))
    | inl e ↦
        let h1 = rw e at h in
        let (k, n, x, y, q) = based-value r (integer l) p h1 in
        let sum : k +ℤ values n ≡ values n +ℤ k = omega int_laws in
        rw (integer-value l k x, y) (ap some (sum ∙ ap affine_value (sym q)))
  ]
  affine_sum-value (binary_op minus l r) p h =
      let (k, n, x, y, q) = based-value l (negated (integer r)) p h in
      elim (Option-cases (integer r)) [
        | inl e ↦ absurd (let x1 = rw e at x in cc x1)
        | inr (v, e) ↦
            let x1 : neg_ℤ v ≡ k = (let x2 = rw e at x in cc x2) in
            let difference : values n -ℤ v ≡ values n +ℤ neg_ℤ v = omega int_laws in
            rw (y, integer-value r v e)
              (ap some (difference ∙ ap (λ z. values n +ℤ z) x1 ∙ ap affine_value (sym q)))
      ]
  affine_sum-value e p h = absurd (cc h)

  pub affine_rhs-value :
      (e : Node) (p : Affine) → affine_rhs e ≡ some p → value values e ≡ some (affine_value p)
  unfolding affine_rhs
  affine_rhs-value e p h = elim (Option-cases (integer e)) [
    | inr (v, q) ↦
        let same : (none, v) ≡ p = (let h1 = rw (q, affine_rhs) at h in cc h1) in
        integer-value e v q ∙ ap (λ a. some (affine_value a)) same
    | inl q ↦ affine_sum-value e p (rw (q, affine_rhs) at h)
  ]

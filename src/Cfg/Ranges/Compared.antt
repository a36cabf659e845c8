-- ===== src/Cfg/Ranges/Compared.antt =====
-- The truth of a condition over mathematical integers, and the bound that a comparison with a
-- known value gives, for `_comparison` of cgull/cfg/integer_ranges.py.
use cgull.Prelude.{
  ◌+◌, pos_part, neg_part, ltb→lt, leb→le, eqb_ℤ_iff, ℤ, pos, ◌+ℤ◌, ◌-ℤ◌, ◌≤ℤ◌, leb_ℤ, ltb_ℤ,
  int_laws, Bool, true, false, not, some, ◌≡◌, ◌⊎◌, refl, ap, inl, inr, arith, if◌then◌else◌,
  Option-cases, Text, text_eq, All, All-keep,
}
use cgull.Cfg.Ranges.{IntegerRange, Context}
use cgull.Cfg.Ranges.Bounds.{In, singleton-In}
use cgull.Cfg.Ranges.Conditions.{known_value, swapped, negated, bound_range, named_range_of}
use cgull.Cfg.Ranges.Expressions.{State, put, is_zero, compare_op, expr_range}
use cgull.Cfg.Ranges.Meaning.{Values, Denotes, IsTrue}
use cgull.Cfg.Ranges.Sound.{expr_range-In}
use cgull.Cfg.Syntax.{
  logical_not, BinaryOperator, less, less_equal, greater, greater_equal, equal, not_equal,
  logical_and, logical_or, Node, unary_op, binary_op,
}

module _ (c : Context) (values : Values) where
  -- The condition has the truth value over mathematical integers.
  unfoldable pub Truth : Node → Bool → Type 0
  unfolding compare_op Denotes
  Truth (unary_op logical_not e) b = Truth e (not b)
  Truth (binary_op logical_and l r) true = Truth l true × Truth r true
  Truth (binary_op logical_and l r) false = Truth l false ⊎ Truth r false
  Truth (binary_op logical_or l r) true = Truth l true ⊎ Truth r true
  Truth (binary_op logical_or l r) false = Truth l false × Truth r false
  Truth (binary_op op l r) b =
      (x : ℤ) × (y : ℤ) × Denotes c values l x × Denotes c values r y × (compare_op op x y ≡ some b)
  Truth e b = (v : ℤ) × Denotes c values e v × (not (is_zero v) ≡ b)

  abbrev pub Held : State → Type 0
  Held s = All (λ p. In (values.variables p.0) p.1) s

  pub put-Held :
      (n : Text) (r : IntegerRange) (s : State)
      → In (values.variables n) r
      → Held s
      → Held (put n r s)
  put-Held n r s h k = (
    h,
    All-keep (λ p. In (values.variables p.0) p.1) (λ p. In (values.variables p.0) p.1) _ s
        (λ p q _. q) k,
  )

  pub known-value :
      (s : State) (e : Node) (v k : ℤ)
      → IsTrue c values s
      → Denotes c values e v
      → known_value (expr_range c s e) ≡ some k
      → v ≡ k
  known-value s e v k h d q = elim (Option-cases (expr_range c s e)) [
    | inl unknown ↦ absurd (let q1 = rw unknown at q in cc q1)
    | inr (r, known) ↦
        singleton-In r k v (let q1 = rw known at q in q1) (expr_range-In c values s e v r h d known)
  ]

  below : (x k : ℤ) → some (ltb_ℤ x k) ≡ some true → x ≤ℤ (k -ℤ pos 1)
  below x k h =
      let e = ltb→lt (pos_part x + neg_part k) (pos_part k + neg_part x) (cc h) in omega int_laws

  above : (x k : ℤ) → some (ltb_ℤ k x) ≡ some true → (k +ℤ pos 1) ≤ℤ x
  above x k h =
      let e = ltb→lt (pos_part k + neg_part x) (pos_part x + neg_part k) (cc h) in omega int_laws

  at_most : (x k : ℤ) → some (leb_ℤ x k) ≡ some true → x ≤ℤ k
  at_most x k h = leb→le (pos_part x + neg_part k) (pos_part k + neg_part x) (cc h)

  pub bound_range-Held :
      (op : BinaryOperator) (n : Text) (k : ℤ)
      → compare_op op (values.variables n) k ≡ some true
      → Held (named_range_of n (bound_range op k))
  unfolding compare_op
  bound_range-Held less n k h = ((tt, below (values.variables n) k h), tt)
  bound_range-Held less_equal n k h = ((tt, at_most (values.variables n) k h), tt)
  bound_range-Held greater n k h = ((above (values.variables n) k h, tt), tt)
  bound_range-Held greater_equal n k h = ((at_most k (values.variables n) h, tt), tt)
  bound_range-Held equal n k h =
      let e = (eqb_ℤ_iff (values.variables n) k).0 (cc h) in (rw e (omega arith, omega arith), tt)
  bound_range-Held op n k h = tt

  pub compare-swapped :
      (op : BinaryOperator) (x y : ℤ) → compare_op (swapped op) y x ≡ compare_op op x y
  unfolding compare_op
  compare-swapped less x y = refl
  compare-swapped less_equal x y = refl
  compare-swapped greater x y = refl
  compare-swapped greater_equal x y = refl
  compare-swapped equal x y = ap some (ground arith)
  compare-swapped not_equal x y = ap some (ground arith)
  compare-swapped op x y = refl

  compare-negated :
      (op : BinaryOperator) (x y : ℤ)
      → compare_op op x y ≡ some false
      → compare_op (negated op) x y ≡ some true
  unfolding compare_op
  compare-negated less x y h = ap some (ground arith)
  compare-negated less_equal x y h = ap some (ground arith)
  compare-negated greater x y h = ap some (ground arith)
  compare-negated greater_equal x y h = ap some (ground arith)
  compare-negated equal x y h = ap some (ground arith)
  compare-negated not_equal x y h = ap some (ground arith)
  compare-negated op x y h = absurd (cc h)

  pub compare-directed :
      (op : BinaryOperator) (b : Bool) (x y : ℤ)
      → compare_op op x y ≡ some b
      → compare_op (if b then op else negated op) x y ≡ some true
  compare-directed op true x y h = h
  compare-directed op false x y h = compare-negated op x y h

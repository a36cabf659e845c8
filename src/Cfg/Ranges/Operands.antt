-- ===== src/Cfg/Ranges/Operands.antt =====
-- The ranges that `_expr_range` of cgull/cfg/integer_ranges.py makes of those of the operands hold
-- the values that the operators give.
use mathlib.Core.Option
use cgull.Prelude.{
  ℕ, ℤ, pos, ◌+ℤ◌, ◌-ℤ◌, neg_ℤ, complement_ℤ, eqb_ℤ_iff, int_laws, Bool, true, false, Option, none,
  some, ◌≡◌, refl, sym, ap, ◌∙◌, subst, inl, inr, Bool-cases, Option-cases, Text, codes,
}
use cgull.Cfg.Ranges.{
  IntegerRange, singleton, fits_within, Context, integer_type_range, portable_char_range,
}
use cgull.Cfg.Ranges.Bounds.{AtLeast, AtMost, In, fits_within-In, singleton-In}
use cgull.Cfg.Ranges.Expressions.{
  truth_value, folded, fold_known, fold_or_spread, spread, sum_range, difference_range, sum_ends,
  difference_ends, binary_range, unary_range, on_single, cast_range, keep_if_fits, or_destination,
  is_char, is_zero,
}
use cgull.Cfg.Ranges.Folded.{Tells-truth_value, folded-Operated}
use cgull.Cfg.Ranges.Meaning.{Covers, exactly-In}
use cgull.Cfg.Ranges.Operators.{Operated, Signed, ConvertedTo}
use cgull.Cfg.Ranges.Types.{
  Sign, Holds, layout_of, layout_range, layout_range-In, integer_type_range-layout,
  portable_char_range-Holds,
}
use cgull.Cfg.Syntax.{
  UnaryOperator, plus_sign, minus_sign, complement, logical_not, BinaryOperator, plus, minus, Node,
}

module _ (c : Context) where
  Covers-neg :
      (r : IntegerRange) (x : ℤ) → In x r → Covers (unary_range minus_sign (some r)) (neg_ℤ x)
  Covers-neg r x h = (flip_low r.upper h.1, flip_high r.lower h.0)
    where
      flip_low : (u : Option ℤ) → AtMost u x → AtLeast (Option.map neg_ℤ u) (neg_ℤ x)
      flip_low none h = tt
      flip_low (some u) h = omega int_laws

      flip_high : (l : Option ℤ) → AtLeast l x → AtMost (Option.map neg_ℤ l) (neg_ℤ x)
      flip_high none h = tt
      flip_high (some l) h = omega int_laws

  Covers-single :
      (f : ℤ → ℤ) (r : IntegerRange) (x v : ℤ)
      → In x r
      → v ≡ f x
      → Covers (on_single f (singleton r)) v
  Covers-single f r x v h q = elim (Option-cases (singleton r)) [
    | inl wide ↦ rw wide tt
    | inr (k, one) ↦ rw one (exactly-In v (f k) (q ∙ ap f (singleton-In r k x one h)))
  ]

  pub Covers-unary :
      (op : UnaryOperator) (o : Option IntegerRange) (x v : ℤ)
      → Covers o x
      → Signed op x v
      → Covers (unary_range op o) v
  Covers-unary op none x v h q = tt
  Covers-unary plus_sign (some r) x v h q = subst (λ z. In z r) (sym q) h
  Covers-unary minus_sign (some r) x v h q =
      subst (λ z. Covers (unary_range minus_sign (some r)) z) (sym q) (Covers-neg r x h)
  Covers-unary complement (some r) x v h q = Covers-single complement_ℤ r x v h q
  Covers-unary logical_not (some r) x v h q =
      Covers-single (λ z. truth_value (is_zero z)) r x v h
        (Tells-truth_value (is_zero x) v (eqb_ℤ_iff x (pos 0)) q)
  Covers-unary op (some r) x v h q = tt

  sum_ends-In :
      (al au bl bu : Option ℤ) (x y : ℤ)
      → AtLeast al x
      → AtMost au x
      → AtLeast bl y
      → AtMost bu y
      → Covers (sum_ends al au bl bu) (x +ℤ y)
  sum_ends-In none au bl bu x y a b d e = tt
  sum_ends-In (some al) none bl bu x y a b d e = tt
  sum_ends-In (some al) (some au) none bu x y a b d e = tt
  sum_ends-In (some al) (some au) (some bl) none x y a b d e = tt
  sum_ends-In (some al) (some au) (some bl) (some bu) x y a b d e = (omega int_laws, omega int_laws)

  difference_ends-In :
      (al au bl bu : Option ℤ) (x y : ℤ)
      → AtLeast al x
      → AtMost au x
      → AtLeast bl y
      → AtMost bu y
      → Covers (difference_ends al au bl bu) (x -ℤ y)
  difference_ends-In none au bl bu x y a b d e = tt
  difference_ends-In (some al) none bl bu x y a b d e = tt
  difference_ends-In (some al) (some au) none bu x y a b d e = tt
  difference_ends-In (some al) (some au) (some bl) none x y a b d e = tt
  difference_ends-In (some al) (some au) (some bl) (some bu) x y a b d e =
      (omega int_laws, omega int_laws)

  Covers-spread :
      (op : BinaryOperator) (l r : Node) (a b : IntegerRange) (x y v : ℤ)
      → In x a
      → In y b
      → Operated c op l r x y v
      → Covers (spread op a b) v
  unfolding Operated
  Covers-spread plus l r a b x y v h k q =
      subst (Covers (sum_range a b)) (sym q)
        (sum_ends-In a.lower a.upper b.lower b.upper x y h.0 h.1 k.0 k.1)
  Covers-spread minus l r a b x y v h k q =
      subst (Covers (difference_range a b)) (sym q)
        (difference_ends-In a.lower a.upper b.lower b.upper x y h.0 h.1 k.0 k.1)
  Covers-spread op l r a b x y v h k q = tt

  Covers-fold :
      (op : BinaryOperator) (l r : Node) (a b : IntegerRange) (x y v : ℤ)
      → In x a
      → In y b
      → Operated c op l r x y v
      → Covers
          (fold_or_spread
            (fold_known (folded c op l r) (singleton a) (singleton b))
            (spread op a b))
          v
  Covers-fold op l r a b x y v h k q = known (singleton a) (singleton b) refl refl
    where
      chosen :
          (i j : ℤ)
          → singleton a ≡ some i
          → singleton b ≡ some j
          → (o : Option ℤ) → folded c op l r i j ≡ o
          → Covers (fold_or_spread o (spread op a b)) v
      chosen i j m n none e = Covers-spread op l r a b x y v h k q
      chosen i j m n (some f) e =
          let one = singleton-In a i x m h in
          let two = singleton-In b j y n k in
          exactly-In v f (
            folded-Operated c op l r i j v f
              (subst (λ z. Operated c op l r i z v) two
                (subst (λ z. Operated c op l r z y v) one q))
              e)

      known :
          (m n : Option ℤ)
          → singleton a ≡ m
          → singleton b ≡ n
          → Covers (fold_or_spread (fold_known (folded c op l r) m n) (spread op a b)) v
      known none n e f = Covers-spread op l r a b x y v h k q
      known (some i) none e f = Covers-spread op l r a b x y v h k q
      known (some i) (some j) e f = chosen i j e f (folded c op l r i j) refl

  pub Covers-binary :
      (op : BinaryOperator) (l r : Node) (a b : Option IntegerRange) (x y v : ℤ)
      → Covers a x
      → Covers b y
      → Operated c op l r x y v
      → Covers (binary_range c op l r a b) v
  unfolding binary_range
  Covers-binary op l r none b x y v h k q = tt
  Covers-binary op l r (some a) none x y v h k q = tt
  Covers-binary op l r (some a) (some b) x y v h k q = Covers-fold op l r a b x y v h k q

  Covers-kept :
      (source : Option IntegerRange) (d : IntegerRange) (w v : ℤ)
      → Covers source w
      → (In w d → v ≡ w)
      → Covers (keep_if_fits source (some d)) v
  unfolding keep_if_fits
  Covers-kept none d w v h q = tt
  Covers-kept (some r) d w v h q = elim (Bool-cases (fits_within r d)) [
    | inl fits ↦ rw fits (subst (λ z. In z r) (sym (q (fits_within-In r d w fits h))) h)
    | inr loose ↦ rw loose tt
  ]

  Covers-or :
      (o : Option IntegerRange) (d : IntegerRange) (v : ℤ)
      → Covers o v
      → In v d
      → In v (or_destination o d)
  Covers-or (some r) d v h k = h
  Covers-or none d v h k = k

  Covers-cast_known :
      (t : Text) (p : Sign × ℕ) (source : Option IntegerRange) (w v : ℤ)
      → Covers source w
      → Holds p v × (Holds p w → v ≡ w)
      → Covers (cast_range c t (some (layout_range p)) source) v
  unfolding cast_range
  Covers-cast_known t p source w v h q =
      let d = layout_range p in
      Covers-or (keep_if_fits source (some d)) d v
        (Covers-kept source d w v h (λ i. q.1 ((layout_range-In p w).0 i)))
        ((layout_range-In p v).1 q.0)

  Covers-cast_char :
      (o : Option ℕ) (source : Option IntegerRange) (w v : ℤ)
      → c.byte_size (codes "char") ≡ o
      → Covers source w
      → ConvertedTo none true o w v
      → Covers (keep_if_fits source (portable_char_range c)) v
  unfolding keep_if_fits
  Covers-cast_char o none w v e h q = tt
  Covers-cast_char o (some r) w v e h q = elim (Option-cases (portable_char_range c)) [
    | inl unknown ↦ rw unknown tt
    | inr (p, known) ↦
        let (k, size, both) = portable_char_range-Holds c p known in
        rw known (
          Covers-kept (some r) p w v h
            (λ i. subst (λ z. ConvertedTo none true z w v) (sym e ∙ size) q ((both w).0 i)))
  ]

  pub Covers-cast :
      (t : Text) (source : Option IntegerRange) (w v : ℤ)
      → Covers source w
      → ConvertedTo (layout_of c t) (is_char (c.resolved t)) (c.byte_size (codes "char")) w v
      → Covers (cast_range c t (integer_type_range c t) source) v
  unfolding cast_range
  Covers-cast t source w v h q = by_layout (layout_of c t) (is_char (c.resolved t)) refl refl q
    where
      by_layout :
          (o : Option (Sign × ℕ)) (plain : Bool)
          → layout_of c t ≡ o
          → is_char (c.resolved t) ≡ plain
          → ConvertedTo o plain (c.byte_size (codes "char")) w v
          → Covers (cast_range c t (integer_type_range c t) source) v
      by_layout (some p) plain e f q =
          rw (integer_type_range-layout c t, e) (Covers-cast_known t p source w v h q)
      by_layout none true e f q =
          rw (integer_type_range-layout c t, e, f)
            (Covers-cast_char (c.byte_size (codes "char")) source w v refl h q)
      by_layout none false e f q = rw (integer_type_range-layout c t, e, f) tt

-- ===== src/Cfg/Ranges/Folded.antt =====
-- The folding of two known operands by `_constant_predicate` and `_constant_binary` of
-- cgull/cfg/integer_ranges.py, against what C's operators give.
use mathlib.Core.Option
use cgull.Prelude.{
  ℕ, zero, suc, ◌+◌, ◌-◌, ◌*◌, ◌^◌, ℤ, pos, negsuc, ◌+ℤ◌, ◌-ℤ◌, ◌*ℤ◌, ◌≤ℤ◌, pos_part, neg_part,
  ltb→lt, ◌<◌, ◌≤◌, neg_ℤ, leb_ℤ, ltb_ℤ, eqb_ℤ, eqb_ℤ_iff, int_laws, Bool, true, false, not, ◌&&◌,
  ◌||◌, Option, none, some, ◌≡◌, ◌≢◌, ◌⊎◌, ◌↔◌, refl, sym, ap, ◌∙◌, subst, inl, inr, arith,
  if◌then◌else◌, Bool-cases, Option-cases, Text,
}
use cgull.Cfg.Ranges.{IntegerRange, Context}
use cgull.Cfg.Ranges.Expressions.{
  truth_value, is_zero, compare_op, converted, converted_in, common_range, compared, or_constant,
  constant_predicate, folded,
}
use cgull.Cfg.Ranges.Literals.{nonzero, c_div, constant_binary}
use cgull.Cfg.Ranges.Operators.{
  quotient, Tells, common_type, ReducedTo, layout_in, Compared, Operated,
}
use cgull.Cfg.Ranges.Types.{
  Sign, unsigned, signed, layout_range, pow-positive, integer_type_range-Holds,
}
use cgull.Cfg.Syntax.{
  BinaryOperator, plus, minus, times, divide, modulo, shift_left, shift_right, bit_and, bit_or,
  bit_xor, logical_and, logical_or, less, less_equal, greater, greater_equal, equal, not_equal,
  Node,
}

pub Tells-truth_value :
    {P : Type 0} (b : Bool) (v : ℤ) → (b ≡ true) ↔ P → Tells P v → v ≡ truth_value b
Tells-truth_value true v h k = k.0 (h.0 refl)
Tells-truth_value false v h k = k.1 (λ p. cc (h.1 p))

ltb_ℤ_iff : (a b : ℤ) → (ltb_ℤ a b ≡ true) ↔ ((a +ℤ pos 1) ≤ℤ b)
ltb_ℤ_iff a b = (
  λ h. (let k = ltb→lt (pos_part a + neg_part b) (pos_part b + neg_part a) h in omega int_laws),
  λ h.
      (let k : (pos_part a + neg_part b) < (pos_part b + neg_part a) = omega int_laws in
        ground arith),
)

not_iff : {P : Type 0} (d : Bool) → (d ≡ true) ↔ P → (not d ≡ true) ↔ ¬ P
not_iff true h = (λ k. absurd (cc k), λ k. absurd (k (h.0 refl)))
not_iff false h = (λ k p. cc (h.1 p), λ k. refl)

and_iff : {P Q : Type 0} (a b : Bool) → (a ≡ true) ↔ P → (b ≡ true) ↔ Q → (a && b ≡ true) ↔ (P × Q)
and_iff true b h k = (λ e. (h.0 refl, k.0 e), λ e. k.1 e.1)
and_iff false b h k = (λ e. absurd (cc e), λ e. h.1 e.0)

or_iff : {P Q : Type 0} (a b : Bool) → (a ≡ true) ↔ P → (b ≡ true) ↔ Q → (a || b ≡ true) ↔ (P ⊎ Q)
or_iff true b h k = (λ e. inl (h.0 refl), λ e. refl)
or_iff false b h k = (λ e. inr (k.0 e), λ e. elim e [ inl p ↦ absurd (cc (h.1 p)) | inr q ↦ k.1 q ])

c_div_lem : (x y : ℤ) → c_div x y ≡ quotient x y
unfolding c_div
c_div_lem (pos a) (pos b) = refl
c_div_lem (pos a) (negsuc b) = refl
c_div_lem (negsuc a) (pos b) = refl
c_div_lem (negsuc a) (negsuc b) = refl

kept_in :
    (l x y m n : ℤ) (u : ℕ)
    → is_zero l ≡ false
    → converted (some l) (some (pos u)) x y ≡ some (m, n)
    → (l ≤ℤ x) × (x ≤ℤ pos u) × (l ≤ℤ y) × (y ≤ℤ pos u) × (x ≡ m) × (y ≡ n)
kept_in l x y m n u z e =
    let e1 = rw z at e in
    elim (Bool-cases (leb_ℤ l x && leb_ℤ x (pos u) && leb_ℤ l y && leb_ℤ y (pos u))) [
      | inl all ↦
          let e2 = rw all at e1 in
          (ground arith, ground arith, ground arith, ground arith, cc e2, cc e2)
      | inr fails ↦ absurd (let e2 = rw fails at e1 in cc e2)
    ]

neg_is_zero : (n : ℕ) → 1 ≤ n → is_zero (neg_ℤ (pos n)) ≡ false
neg_is_zero n h = ground arith

ReducedTo-layout_range :
    (p : Sign × ℕ) (x y a b m n : ℤ)
    → converted_in (some (layout_range p)) x y ≡ some (m, n)
    → ReducedTo (some p) x a
    → ReducedTo (some p) y b
    → (a ≡ m) × (b ≡ n)
ReducedTo-layout_range (unsigned, w) x y a b m n e h k =
    let big = pow-positive (w * 8) in
    let top : 2 ^ (w * 8) - 1 + 1 ≡ 2 ^ (w * 8) = omega arith in
    let e1 = rw top at e in (h ∙ (cc e1), k ∙ (cc e1))
ReducedTo-layout_range (signed, w) x y a b m n e h k =
    let big = pow-positive (w * 8 - 1) in
    let (lx, ux, ly, uy, sx, sy) =
      kept_in (neg_ℤ (pos (2 ^ (w * 8 - 1)))) x y m n (2 ^ (w * 8 - 1) - 1)
        (neg_is_zero (2 ^ (w * 8 - 1)) big) e in
    (h (lx, omega int_laws) ∙ sx, k (ly, omega int_laws) ∙ sy)

common_range-layout :
    (c : Context) (l r : Option Text) (q : IntegerRange)
    → common_range c l r ≡ some q
    → (p : Sign × ℕ) × (layout_in c (common_type c l r) ≡ some p) × (q ≡ layout_range p)
unfolding common_range
common_range-layout c none r q h = absurd (cc h)
common_range-layout c (some l) none q h = absurd (cc h)
common_range-layout c (some l) (some r) q h = elim (Option-cases (c.usual_type l r)) [
  | inl unknown ↦ absurd (let h1 = rw (unknown, common_range) at h in cc h1)
  | inr (t, known) ↦
      let h1 = rw (known, common_range) at h in
      let found = integer_type_range-Holds c t q h1 in (found.0, rw known found.1, found.2)
]

compared-none :
    (op : BinaryOperator)
    → ((x y : ℤ) → compare_op op x y ≡ none)
    → (o : Option (ℤ × ℤ)) → compared op o ≡ none
unfolding compared
compared-none op h none = refl
compared-none op h (some (x, y)) = ap (Option.map truth_value) (h x y)

module _ (c : Context) where
  -- A comparison that is decided by an operation of the module.
  Decides : BinaryOperator → (ℤ → ℤ → Type 0) → Type 0
  Decides op related =
      (a b : ℤ) → (d : Bool) × (compare_op op a b ≡ some d) × ((d ≡ true) ↔ related a b)

  Compared-folded :
      (op : BinaryOperator) (related : ℤ → ℤ → Type 0) (l r : Node) (x y v k : ℤ)
      → Decides op related
      → Compared c l r related x y v
      → compared op
          (converted_in (common_range c (c.infer_integer_type l) (c.infer_integer_type r)) x y)
        ≡ some k
      → v ≡ k
  unfolding compared Decides
  Compared-folded op related l r x y v k decides (a, b, h, j, tells) e =
      by_range (common_range c (c.infer_integer_type l) (c.infer_integer_type r)) refl e
    where
      by_operands :
          (q : IntegerRange)
          → common_range c (c.infer_integer_type l) (c.infer_integer_type r) ≡ some q
          → (o : Option (ℤ × ℤ)) → converted_in (some q) x y ≡ o
          → compared op o ≡ some k
          → v ≡ k
      by_operands q known none f e = absurd (cc e)
      by_operands q known (some (m, n)) f e =
          let (p, at, same) = common_range-layout c _ _ q known in
          let both =
            ReducedTo-layout_range p x y a b m n
              (subst (λ z. converted_in (some z) x y ≡ some (m, n)) same f)
              (subst (λ z. ReducedTo z x a) at h) (subst (λ z. ReducedTo z y b) at j) in
          let (d, found, meaning) = decides a b in
          let found1 = subst (λ z. compare_op op z b ≡ some d) both.0 found in
          let found2 = subst (λ z. compare_op op m z ≡ some d) both.1 found1 in
          Tells-truth_value d v meaning tells ∙ (let e1 = rw found2 at e in cc e1)

      by_range :
          (o : Option IntegerRange)
          → common_range c (c.infer_integer_type l) (c.infer_integer_type r) ≡ o
          → compared op (converted_in o x y) ≡ some k
          → v ≡ k
      by_range none known e = absurd (cc e)
      by_range (some q) known e = by_operands q known (converted_in (some q) x y) refl e

  decides_less : Decides less (λ a b. (a +ℤ pos 1) ≤ℤ b)
  unfolding Decides compare_op
  decides_less a b = (ltb_ℤ a b, refl, ltb_ℤ_iff a b)

  decides_less_equal : Decides less_equal (λ a b. a ≤ℤ b)
  unfolding Decides compare_op
  decides_less_equal a b = (leb_ℤ a b, refl, (λ h. ground arith, λ h. ground arith))

  decides_greater : Decides greater (λ a b. (b +ℤ pos 1) ≤ℤ a)
  unfolding Decides compare_op
  decides_greater a b = (ltb_ℤ b a, refl, ltb_ℤ_iff b a)

  decides_greater_equal : Decides greater_equal (λ a b. b ≤ℤ a)
  unfolding Decides compare_op
  decides_greater_equal a b = (leb_ℤ b a, refl, (λ h. ground arith, λ h. ground arith))

  decides_equal : Decides equal (λ a b. a ≡ b)
  unfolding Decides compare_op
  decides_equal a b = (eqb_ℤ a b, refl, eqb_ℤ_iff a b)

  decides_not_equal : Decides not_equal (λ a b. a ≢ b)
  unfolding Decides compare_op
  decides_not_equal a b = (not (eqb_ℤ a b), refl, not_iff (eqb_ℤ a b) (eqb_ℤ_iff a b))

  nonzero_true : (x : ℤ) → (not (is_zero x) ≡ true) ↔ (x ≢ pos 0)
  nonzero_true x = not_iff (is_zero x) (eqb_ℤ_iff x (pos 0))

  predicate :
      (op : BinaryOperator) (related : ℤ → ℤ → Type 0) (l r : Node) (x y v k : ℤ)
      → Decides op related
      → Compared c l r related x y v
      → or_constant
          (if c.has_context
            then compared op (
                converted_in (common_range c (c.infer_integer_type l) (c.infer_integer_type r)) x y)
            else none)
          none
        ≡ some k
      → v ≡ k
  unfolding common_range
  predicate op related l r x y v k decides h e = elim (Bool-cases c.has_context) [
    | inr without ↦ absurd (let e1 = rw without at e in cc e1)
    | inl context ↦
        let e1 = rw context at e in
        Compared-folded op related l r x y v k decides h (
          unwrapped
            (compared op
              (converted_in (common_range c (c.infer_integer_type l) (c.infer_integer_type r)) x y))
            e1)
  ]
    where
      unwrapped : (o : Option ℤ) → or_constant o none ≡ some k → o ≡ some k
      unwrapped none e = e
      unwrapped (some d) e = e

  nonzero-some : (y k : ℤ) (o : Option ℤ) → nonzero y o ≡ some k → (y ≢ pos 0) × (o ≡ some k)
  nonzero-some (pos zero) k o e = absurd (cc e)
  nonzero-some (pos (suc n)) k o e = ((λ q. cc q), e)
  nonzero-some (negsuc n) k o e = ((λ q. cc q), e)

  -- The operators that are no comparison are folded by `_constant_binary`.
  arithmetic :
      (op : BinaryOperator) (l r : Node) (x y k : ℤ)
      → ((x y : ℤ) → compare_op op x y ≡ none)
      → or_constant
          (if c.has_context
            then compared op (
                converted_in (common_range c (c.infer_integer_type l) (c.infer_integer_type r)) x y)
            else none)
          (constant_binary op x y)
        ≡ some k
      → constant_binary op x y ≡ some k
  unfolding compared common_range
  arithmetic op l r x y k none_of e = elim (Bool-cases c.has_context) [
    | inr without ↦ (let e1 = rw without at e in e1)
    | inl context ↦
        let e1 = rw context at e in
        let silent =
          compared-none op none_of
            (converted_in (common_range c (c.infer_integer_type l) (c.infer_integer_type r)) x y) in
        (let e2 = rw silent at e1 in e2)
  ]

  -- What the module folds two known operands to is what the operator gives.
  pub folded-Operated :
      (op : BinaryOperator) (l r : Node) (x y v k : ℤ)
      → Operated c op l r x y v
      → folded c op l r x y ≡ some k
      → v ≡ k
  unfolding Operated folded constant_predicate constant_binary compare_op
  folded-Operated plus l r x y v k q e = q ∙ (cc (arithmetic plus l r x y k (λ x y. refl) e))
  folded-Operated minus l r x y v k q e = q ∙ (cc (arithmetic minus l r x y k (λ x y. refl) e))
  folded-Operated times l r x y v k q e = q ∙ (cc (arithmetic times l r x y k (λ x y. refl) e))
  folded-Operated divide l r x y v k q e =
      let (some_y, f) = nonzero-some y k _ (arithmetic divide l r x y k (λ x y. refl) e) in
      q some_y ∙ sym (c_div_lem x y) ∙ cc f
  folded-Operated modulo l r x y v k q e =
      let (some_y, f) = nonzero-some y k _ (arithmetic modulo l r x y k (λ x y. refl) e) in
      q some_y ∙ ap (λ z. x -ℤ z *ℤ y) (sym (c_div_lem x y)) ∙ cc f
  folded-Operated shift_left l r x (pos n) v k q e =
      q n refl ∙ (cc (arithmetic shift_left l r x (pos n) k (λ x y. refl) e))
  folded-Operated shift_left l r x (negsuc n) v k q e =
      absurd (cc (arithmetic shift_left l r x (negsuc n) k (λ x y. refl) e))
  folded-Operated shift_right l r x (pos n) v k q e =
      q n refl ∙ (cc (arithmetic shift_right l r x (pos n) k (λ x y. refl) e))
  folded-Operated shift_right l r x (negsuc n) v k q e =
      absurd (cc (arithmetic shift_right l r x (negsuc n) k (λ x y. refl) e))
  folded-Operated bit_and l r x y v k q e = q ∙ (cc (arithmetic bit_and l r x y k (λ x y. refl) e))
  folded-Operated bit_or l r x y v k q e = q ∙ (cc (arithmetic bit_or l r x y k (λ x y. refl) e))
  folded-Operated bit_xor l r x y v k q e = q ∙ (cc (arithmetic bit_xor l r x y k (λ x y. refl) e))
  folded-Operated logical_and l r x y v k q e =
      Tells-truth_value (not (is_zero x) && not (is_zero y)) v
        (and_iff (not (is_zero x)) (not (is_zero y)) (nonzero_true x) (nonzero_true y)) q
      ∙ cc e
  folded-Operated logical_or l r x y v k q e =
      Tells-truth_value (not (is_zero x) || not (is_zero y)) v
        (or_iff (not (is_zero x)) (not (is_zero y)) (nonzero_true x) (nonzero_true y)) q
      ∙ cc e
  folded-Operated less l r x y v k q e = predicate less _ l r x y v k decides_less q e
  folded-Operated less_equal l r x y v k q e =
      predicate less_equal _ l r x y v k decides_less_equal q e
  folded-Operated greater l r x y v k q e = predicate greater _ l r x y v k decides_greater q e
  folded-Operated greater_equal l r x y v k q e =
      predicate greater_equal _ l r x y v k decides_greater_equal q e
  folded-Operated equal l r x y v k q e = predicate equal _ l r x y v k decides_equal q e
  folded-Operated not_equal l r x y v k q e =
      predicate not_equal _ l r x y v k decides_not_equal q e

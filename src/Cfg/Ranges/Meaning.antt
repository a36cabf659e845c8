-- ===== src/Cfg/Ranges/Meaning.antt =====
-- The values that an expression may have, over mathematical integers, and the states
-- that are true of the variables, for cgull/cfg/integer_ranges.py.
use cgull.Prelude.{
  ℕ, ℤ, Option, none, some, ◌≡◌, ◌⊎◌, refl, sym, subst, arith, Text, codes, text_eq, All,
}
use cgull.Cfg.Ranges.{IntegerRange, exactly, Context}
use cgull.Cfg.Ranges.Bounds.{In}
use cgull.Cfg.Ranges.Expressions.{State, static_range, type_of, is_char}
use cgull.Cfg.Ranges.Literals.{named_limit, literal}
use cgull.Cfg.Ranges.Operators.{Operated, Signed, ConvertedTo}
use cgull.Cfg.Ranges.Types.{Sign, Holds, layout_of, layout_range-In, integer_type_range-Holds}
use cgull.Cfg.Syntax.{Node, id, constant, unary_op, binary_op, ternary_op, cast, other}

-- The values of the variables, and of the constants by their text.
pub record Values : Type 0 where
  pub variables : Text → ℤ
  pub constants : Text → ℤ

-- Every value of the expression is in the range, where there is one.
abbrev pub Covers : Option IntegerRange → ℤ → Type 0
Covers none v = Unit
Covers (some r) v = In v r

pub exactly-In : (v k : ℤ) → v ≡ k → In v (exactly k)
exactly-In v k h = rw h (omega arith, omega arith)

module _ (c : Context) (values : Values) where
  -- The expression may have the value.
  unfoldable pub Denotes : Node → ℤ → Type 0
  unfolding is_char
  Denotes (id n) v = v ≡ values.variables n
  Denotes (constant t x) v = v ≡ values.constants x
  Denotes (unary_op op e) v = (x : ℤ) × Denotes e x × Signed op x v
  Denotes (binary_op op l r) v =
      (x : ℤ) × (y : ℤ) × Denotes l x × Denotes r y × Operated c op l r x y v
  Denotes (ternary_op condition a b) v = Denotes a v ⊎ Denotes b v
  Denotes (cast t e) v =
      (x : ℤ) × Denotes e x
      × ConvertedTo (layout_of c t) (is_char (c.resolved t)) (c.byte_size (codes "char")) x v
  Denotes other v = Unit

  -- The state is true of the variables, whose values their types hold. Assumed of the reading of the
  -- source text: a constant and a named limit have the value that `_literal` and `_named_limit` give.
  pub record IsTrue (s : State) : Type 0 where
    pub held : All (λ p. In (values.variables p.0) p.1) s
    pub typed :
        (n t : Text) (p : Sign × ℕ)
        → c.infer_type (id n) ≡ some t
        → layout_of c t ≡ some p
        → Holds p (values.variables n)
    pub limits : (n : Text) (k : ℤ) → named_limit c n ≡ some k → values.variables n ≡ k
    pub literals : (x : Text) (k : ℤ) → literal c x ≡ some k → values.constants x ≡ k

  -- A variable's value is in the range of its type.
  pub typed-In :
      (s : State) (n : Text) (r : IntegerRange)
      → IsTrue s
      → static_range c (id n) ≡ some r
      → In (values.variables n) r
  unfolding static_range type_of
  typed-In s n r h q = by_type (c.infer_type (id n)) refl q
    where
      by_type :
          (o : Option Text)
          → c.infer_type (id n) ≡ o
          → type_of c o ≡ some r
          → In (values.variables n) r
      by_type none e q = absurd (cc q)
      by_type (some t) e q =
          let (p, known, same) = integer_type_range-Holds c t r q in
          subst (In (values.variables n)) (sym same)
            ((layout_range-In p (values.variables n)).1 (h.typed n t p e known))

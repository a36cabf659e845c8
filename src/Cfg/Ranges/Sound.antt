-- ===== src/Cfg/Ranges/Sound.antt =====
-- `_expr_range` of cgull/cfg/integer_ranges.py gives a range that holds every value that the
-- expression may have.
use cgull.Prelude.{
  ℤ, Option, none, some, ◌≡◌, ◌⊎◌, inl, inr, refl, sym, subst, ◌∙◌, Text, text_eq, lookup,
  lookup-cons, All, Eq, List, [], ◌∷◌, Option-cases,
}
use cgull.Cfg.Ranges.{IntegerRange, Context}
use cgull.Cfg.Ranges.Bounds.{In, intersect-In, hull-In}
use cgull.Cfg.Ranges.Expressions.{
  State, static_range, with_static, hull_both, name_range, expr_range,
}
use cgull.Cfg.Ranges.Literals.{named_limit, literal}
use cgull.Cfg.Ranges.Meaning.{Values, Denotes, IsTrue, typed-In, Covers, exactly-In}
use cgull.Cfg.Ranges.Operands.{Covers-unary, Covers-binary, Covers-cast}
use cgull.Cfg.Syntax.{Node, id, constant, unary_op, binary_op, ternary_op, cast, other}

pub All-lookup {ℓ κ μ} :
    {K : Type ℓ} {V : Type κ} ⦃e : Eq K⦄ (P : K → V → Type μ) (k : K) (v : V) (m : List (K × V))
    → All (λ p. P p.0 p.1) m
    → lookup k m ≡ some v
    → P k v
All-lookup P k v [] h q = absurd (cc q)
All-lookup ⦃e⦄ P k v ((j, w) ∷ m) h q = elim (lookup-cons k j w m q) [
  | inl (same, held) ↦ subst (λ z. P z v) same (subst (P j) held h.0)
  | inr (differs, rest) ↦ All-lookup P k v m h.1 rest
]

module _ (c : Context) (values : Values) where
  Held : Option IntegerRange → ℤ → Type 0
  Held o v = (r : IntegerRange) → o ≡ some r → In v r

  Covers-with_static :
      (fact static : Option IntegerRange) (v : ℤ)
      → Held fact v
      → Held static v
      → Covers (with_static fact static) v
  unfolding Held with_static
  Covers-with_static none none v h k = tt
  Covers-with_static none (some r) v h k = k r refl
  Covers-with_static (some r) none v h k = h r refl
  Covers-with_static (some r) (some t) v h k =
      let both = intersect-In r t v (h r refl) (k t refl) in rw both.1 both.2

  Covers-name :
      (s : State) (n : Text) (o : Option ℤ)
      → IsTrue c values s
      → named_limit c n ≡ o
      → Covers (name_range c s n o) (values.variables n)
  unfolding name_range Held
  Covers-name s n none h e =
      Covers-with_static (lookup n s) (static_range c (id n)) (values.variables n)
        (λ r. All-lookup (λ n r. In (values.variables n) r) n r s h.held)
        (λ r q. typed-In c values s n r h q)
  Covers-name s n (some k) h e = exactly-In (values.variables n) k (h.limits n k e)

  Covers-hull :
      (a b : Option IntegerRange) (v : ℤ) → Covers a v ⊎ Covers b v → Covers (hull_both a b) v
  unfolding hull_both
  Covers-hull none b v h = tt
  Covers-hull (some a) none v h = tt
  Covers-hull (some a) (some b) v h = hull-In a b v h

  pub expr_range-Covers :
      (s : State) (e : Node) (v : ℤ)
      → IsTrue c values s
      → Denotes c values e v
      → Covers (expr_range c s e) v
  unfolding expr_range Denotes
  expr_range-Covers s (id n) v h d =
      subst (Covers (expr_range c s (id n))) (sym d) (Covers-name s n (named_limit c n) h refl)
  expr_range-Covers s (constant t x) v h d = elim (Option-cases (literal c x)) [
    | inl unknown ↦ rw unknown tt
    | inr (k, known) ↦ rw known (exactly-In v k (d ∙ h.literals x k known))
  ]
  expr_range-Covers s (unary_op op e) v h (x, d, q) =
      Covers-unary c op (expr_range c s e) x v (expr_range-Covers s e x h d) q
  expr_range-Covers s (binary_op op l r) v h (x, y, d, f, q) =
      Covers-binary c op l r (expr_range c s l) (expr_range c s r) x y v
        (expr_range-Covers s l x h d) (expr_range-Covers s r y h f) q
  expr_range-Covers s (ternary_op e a b) v h (inl d) =
      Covers-hull (expr_range c s a) (expr_range c s b) v (inl (expr_range-Covers s a v h d))
  expr_range-Covers s (ternary_op e a b) v h (inr d) =
      Covers-hull (expr_range c s a) (expr_range c s b) v (inr (expr_range-Covers s b v h d))
  expr_range-Covers s (cast t e) v h (x, d, q) =
      Covers-cast c t (expr_range c s e) x v (expr_range-Covers s e x h d) q
  expr_range-Covers s other v h d = tt

  -- In a state that is true of the variables' values, where those are values of the variables' types,
  -- and each constant and named limit has the value that is read of it, the range that is computed
  -- for an expression holds every value that the expression may have over mathematical integers,
  -- where no operation wraps around: sums, differences and products are exact, quotients truncated
  -- with a remainder of the dividend's sign, the bit operators in two's complement, comparisons made
  -- in the operands' common type, a conversion gives a value of its type and keeps what the type
  -- holds, and a conditional gives either branch.
  pub expr_range-In :
      (s : State) (e : Node) (v : ℤ) (r : IntegerRange)
      → IsTrue c values s
      → Denotes c values e v
      → expr_range c s e ≡ some r
      → In v r
  expr_range-In s e v r h d k = subst (λ o. Covers o v) k (expr_range-Covers s e v h d)

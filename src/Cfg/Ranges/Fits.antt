-- ===== src/Cfg/Ranges/Fits.antt =====
-- `proves_expression_fits` of cgull/cfg/integer_ranges.py, at the state before an event.
use cgull.Prelude.{
  ◌⊎◌, inl, inr, ◌∙◌, subst, Bool-cases, codes, ℕ, ℤ, Bool, true, false, Option, none, some, ◌≡◌,
  refl, if◌then◌else◌, Text,
}
use cgull.Cfg.Ranges.{IntegerRange, fits_within, Context, integer_type_range, portable_char_range}
use cgull.Cfg.Ranges.Bounds.{In, fits_within-In}
use cgull.Cfg.Ranges.Expressions.{State, is_char, expr_range}
use cgull.Cfg.Ranges.Meaning.{Values, Denotes, IsTrue}
use cgull.Cfg.Ranges.Sound.{expr_range-In}
use cgull.Cfg.Ranges.Types.{
  Sign, Holds, HoldsEither, layout_of, layout_range-In, integer_type_range-Holds,
  portable_char_range-Holds,
}
use cgull.Cfg.Syntax.{Node}

unfoldable pub or_portable : Context → Text → Option IntegerRange → Option IntegerRange
unfolding is_char portable_char_range
or_portable c t (some d) = some d
or_portable c t none = if is_char (c.resolved t) then portable_char_range c else none

-- The destination's range; for plain `char` that of both signednesses.
unfoldable pub destination_range : Context → Text → Option IntegerRange
unfolding integer_type_range or_portable
destination_range c t = or_portable c t (integer_type_range c t)

abbrev fits_both : Option IntegerRange → Option IntegerRange → Bool
fits_both (some d) (some r) = fits_within r d
fits_both d r = false

unfoldable pub proves_expression_fits : Context → State → Node → Text → Bool
unfolding destination_range expr_range fits_within
proves_expression_fits c s e t = fits_both (destination_range c t) (expr_range c s e)

-- The type holds the value; plain `char` does where both signs hold it.
abbrev pub HeldBy : Context → Text → ℤ → Type 0
HeldBy c t v =
    ((p : Sign × ℕ) × (layout_of c t ≡ some p) × Holds p v)
    ⊎ (is_char (c.resolved t) ≡ true)
      × (w : ℕ) × (c.byte_size (codes "char") ≡ some w)
      × HoldsEither w v

destination_range-HeldBy :
    (c : Context) (t : Text) (d : IntegerRange) (v : ℤ)
    → destination_range c t ≡ some d
    → In v d
    → HeldBy c t v
unfolding destination_range or_portable
destination_range-HeldBy c t d v h i = by_type (integer_type_range c t) refl h
  where
    by_type :
        (o : Option IntegerRange)
        → integer_type_range c t ≡ o
        → or_portable c t o ≡ some d
        → HeldBy c t v
    by_type (some r) e q =
        let (p, known, same) = integer_type_range-Holds c t d (e ∙ q) in
        inl (p, known, (layout_range-In p v).0 (subst (In v) same i))
    by_type none e q = elim (Bool-cases (is_char (c.resolved t))) [
      | inr other_type ↦ absurd (let q1 = rw (other_type, or_portable) at q in cc q1)
      | inl plain ↦
          let q1 = rw (plain, or_portable) at q in
          let (w, size, both) = portable_char_range-Holds c d q1 in
          inr (plain, w, size, (both v).0 i)
    ]

-- Where the analysis proves that an expression fits a type, in a state that is true of the
-- variables' values, where those are values of the variables' types, and each constant and named
-- limit has the value that is read of it, the type holds every value that the expression may have
-- over mathematical integers, where no operation wraps around; plain `char` holds it of either sign.
pub proves_expression_fits_lem :
    (c : Context) (values : Values) (s : State) (e : Node) (t : Text) (v : ℤ)
    → IsTrue c values s
    → Denotes c values e v
    → proves_expression_fits c s e t ≡ true
    → HeldBy c t v
unfolding proves_expression_fits
proves_expression_fits_lem c values s e t v h m q =
    by_ranges (destination_range c t) (expr_range c s e) refl refl q
  where
    by_ranges :
        (o p : Option IntegerRange)
        → destination_range c t ≡ o
        → expr_range c s e ≡ p
        → fits_both o p ≡ true
        → HeldBy c t v
    by_ranges none p i j k = absurd (cc k)
    by_ranges (some d) none i j k = absurd (cc k)
    by_ranges (some d) (some r) i j k =
        destination_range-HeldBy c t d v i
          (fits_within-In r d v k (expr_range-In c values s e v r h m j))

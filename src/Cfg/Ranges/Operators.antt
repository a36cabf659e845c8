-- ===== src/Cfg/Ranges/Operators.antt =====
-- What C's operators and conversions give over mathematical integers, for the expressions that
-- cgull/cfg/integer_ranges.py bounds, apart from how that module folds and bounds them.
use Prim.Native.Nat.{◌/◌}
use cgull.Prelude.{
  ℕ, suc, ◌*◌, ◌^◌, ℤ, pos, negsuc, ◌+ℤ◌, ◌-ℤ◌, ◌*ℤ◌, ◌≤ℤ◌, neg_ℤ, and_ℤ, or_ℤ, xor_ℤ, complement_ℤ,
  shift_down, mod_ℤ, Bool, true, Option, none, some, ◌≡◌, ◌≢◌, ◌⊎◌, Text,
}
use cgull.Cfg.Ranges.{Context}
use cgull.Cfg.Ranges.Types.{Sign, unsigned, signed, Holds, HoldsEither, layout_of}
use cgull.Cfg.Syntax.{
  UnaryOperator, plus_sign, minus_sign, complement, logical_not, BinaryOperator, plus, minus, times,
  divide, modulo, shift_left, shift_right, bit_and, bit_or, bit_xor, logical_and, logical_or, less,
  less_equal, greater, greater_equal, equal, not_equal, Node,
}

-- The quotient of the magnitudes, negative where the signs differ.
abbrev pub quotient : ℤ → ℤ → ℤ
quotient (pos a) (pos b) = pos (a / b)
quotient (pos a) (negsuc b) = neg_ℤ (pos (a / suc b))
quotient (negsuc a) (pos b) = neg_ℤ (pos (suc a / b))
quotient (negsuc a) (negsuc b) = pos (suc a / suc b)

-- The value is 1 or 0 as the proposition holds or not.
abbrev pub Tells : Type 0 → ℤ → Type 0
Tells P v = (P → v ≡ pos 1) × (¬ P → v ≡ pos 0)

-- The type that the operands are compared in.
abbrev pub common_type : Context → Option Text → Option Text → Option Text
common_type c (some l) (some r) = c.usual_type l r
common_type c l r = none

-- A value as an operand of a type: reduced where the type is unsigned, kept by a signed one that
-- holds it.
abbrev pub ReducedTo : Option (Sign × ℕ) → ℤ → ℤ → Type 0
ReducedTo none x a = Unit
ReducedTo (some (unsigned, w)) x a = a ≡ mod_ℤ x (2 ^ (w * 8))
ReducedTo (some (signed, w)) x a = Holds (signed, w) x → a ≡ x

abbrev pub layout_in : Context → Option Text → Option (Sign × ℕ)
layout_in c none = none
layout_in c (some t) = layout_of c t

abbrev pub Compared : Context → Node → Node → (ℤ → ℤ → Type 0) → ℤ → ℤ → ℤ → Type 0
Compared c l r related x y v =
    let t = layout_in c (common_type c (c.infer_integer_type l) (c.infer_integer_type r)) in
    (a : ℤ) × (b : ℤ) × ReducedTo t x a × ReducedTo t y b × Tells (related a b) v

-- The value of an operator's result. Sums, differences and products are exact; a quotient is
-- truncated; nothing is said of a division by zero or of a shift by a negative amount.
unfoldable pub Operated : Context → BinaryOperator → Node → Node → ℤ → ℤ → ℤ → Type 0
Operated c plus l r x y v = v ≡ x +ℤ y
Operated c minus l r x y v = v ≡ x -ℤ y
Operated c times l r x y v = v ≡ x *ℤ y
Operated c divide l r x y v = y ≢ pos 0 → v ≡ quotient x y
Operated c modulo l r x y v = y ≢ pos 0 → v ≡ x -ℤ quotient x y *ℤ y
Operated c shift_left l r x y v = (n : ℕ) → y ≡ pos n → v ≡ x *ℤ pos (2 ^ n)
Operated c shift_right l r x y v = (n : ℕ) → y ≡ pos n → v ≡ shift_down x n
Operated c bit_and l r x y v = v ≡ and_ℤ x y
Operated c bit_or l r x y v = v ≡ or_ℤ x y
Operated c bit_xor l r x y v = v ≡ xor_ℤ x y
Operated c logical_and l r x y v = Tells ((x ≢ pos 0) × (y ≢ pos 0)) v
Operated c logical_or l r x y v = Tells ((x ≢ pos 0) ⊎ (y ≢ pos 0)) v
Operated c less l r x y v = Compared c l r (λ a b. (a +ℤ pos 1) ≤ℤ b) x y v
Operated c less_equal l r x y v = Compared c l r (λ a b. a ≤ℤ b) x y v
Operated c greater l r x y v = Compared c l r (λ a b. (b +ℤ pos 1) ≤ℤ a) x y v
Operated c greater_equal l r x y v = Compared c l r (λ a b. b ≤ℤ a) x y v
Operated c equal l r x y v = Compared c l r (λ a b. a ≡ b) x y v
Operated c not_equal l r x y v = Compared c l r (λ a b. a ≢ b) x y v

abbrev pub Signed : UnaryOperator → ℤ → ℤ → Type 0
Signed plus_sign x v = v ≡ x
Signed minus_sign x v = v ≡ neg_ℤ x
Signed complement x v = v ≡ complement_ℤ x
Signed logical_not x v = Tells (x ≡ pos 0) v
Signed op x v = Unit

-- A conversion keeps a value that its type holds, and gives one that the type holds; to plain
-- `char` it keeps a value that both signs hold, and of other types nothing is said.
abbrev pub ConvertedTo : Option (Sign × ℕ) → Bool → Option ℕ → ℤ → ℤ → Type 0
ConvertedTo (some p) is_plain w x v = Holds p v × (Holds p x → v ≡ x)
ConvertedTo none true (some w) x v = HoldsEither w x → v ≡ x
ConvertedTo none b w x v = Unit

-- ===== src/Prelude/Int.antt =====
-- Python's integers, over the native numbers. Sums and orders go through the two parts of an
-- integer, which are numbers.
use Prim.Native.Nat.{ℕ, zero, suc, ◌+◌, ◌-◌, ◌*◌, ◌≤◌, ◌^◌, ◌/◌, ◌%◌, bit_and, bit_or, bit_xor}
use mathlib.Core.Path.{◌≡◌}
use mathlib.Core.Logic.{◌↔◌}
use mathlib.Core.Bool.{Bool, true, ◌&&◌}
use native.Mathlib.Omega.{arith}
use cgull.Prelude.Tests.{if◌then◌else◌, leb, ltb, eqb}
use cgull.Prelude.Keys.{Eq}

-- `negsuc n` is -(n + 1).
pub data ℤ : Type 0 where
  pos : ℕ → ℤ
  negsuc : ℕ → ℤ

abbrev pub pos_part : ℤ → ℕ
pos_part (pos n) = n
pos_part (negsuc n) = 0

abbrev pub neg_part : ℤ → ℕ
neg_part (pos n) = 0
neg_part (negsuc n) = suc n

abbrev sub_ℕ : ℕ → ℕ → ℤ
sub_ℕ a b = if leb b a then pos (a - b) else negsuc (b - a - 1)

infixl 65 ◌+ℤ◌ ◌-ℤ◌
infixl 70 ◌*ℤ◌
infix 50 ◌≤ℤ◌
unfoldable pub ◌+ℤ◌ : ℤ → ℤ → ℤ
a +ℤ b = sub_ℕ (pos_part a + pos_part b) (neg_part a + neg_part b)

unfoldable pub ◌-ℤ◌ : ℤ → ℤ → ℤ
a -ℤ b = sub_ℕ (pos_part a + neg_part b) (neg_part a + pos_part b)

unfoldable pub ◌*ℤ◌ : ℤ → ℤ → ℤ
a *ℤ b =
    sub_ℕ (pos_part a * pos_part b + neg_part a * neg_part b)
      (pos_part a * neg_part b + neg_part a * pos_part b)

abbrev pub neg_ℤ : ℤ → ℤ
neg_ℤ (pos zero) = pos zero
neg_ℤ (pos (suc n)) = negsuc n
neg_ℤ (negsuc n) = pos (suc n)

abbrev pub ◌≤ℤ◌ : ℤ → ℤ → Type 0
a ≤ℤ b = pos_part a + neg_part b ≤ pos_part b + neg_part a

abbrev pub ltb_ℤ : ℤ → ℤ → Bool
ltb_ℤ a b = ltb (pos_part a + neg_part b) (pos_part b + neg_part a)

abbrev pub leb_ℤ : ℤ → ℤ → Bool
leb_ℤ a b = leb (pos_part a + neg_part b) (pos_part b + neg_part a)

abbrev pub eqb_ℤ : ℤ → ℤ → Bool
eqb_ℤ a b = eqb (pos_part a) (pos_part b) && eqb (neg_part a) (neg_part b)

pub eqb_ℤ_iff : (a b : ℤ) → (eqb_ℤ a b ≡ true) ↔ (a ≡ b)
eqb_ℤ_iff a b = ground arith

instance abbrev pub int_eq : Eq ℤ
int_eq = record { beq = eqb_ℤ; beq_iff = eqb_ℤ_iff }

-- Python's operators on integers of any sign, in two's complement.
abbrev pub and_ℤ : ℤ → ℤ → ℤ
and_ℤ (pos a) (pos b) = pos (bit_and a b)
and_ℤ (pos a) (negsuc b) = pos (a - bit_and a b)
and_ℤ (negsuc a) (pos b) = pos (b - bit_and a b)
and_ℤ (negsuc a) (negsuc b) = negsuc (bit_or a b)

abbrev pub or_ℤ : ℤ → ℤ → ℤ
or_ℤ (pos a) (pos b) = pos (bit_or a b)
or_ℤ (pos a) (negsuc b) = negsuc (b - bit_and a b)
or_ℤ (negsuc a) (pos b) = negsuc (a - bit_and a b)
or_ℤ (negsuc a) (negsuc b) = negsuc (bit_and a b)

abbrev pub xor_ℤ : ℤ → ℤ → ℤ
xor_ℤ (pos a) (pos b) = pos (bit_xor a b)
xor_ℤ (pos a) (negsuc b) = negsuc (bit_xor a b)
xor_ℤ (negsuc a) (pos b) = negsuc (bit_xor a b)
xor_ℤ (negsuc a) (negsuc b) = pos (bit_xor a b)

abbrev pub complement_ℤ : ℤ → ℤ
complement_ℤ (pos n) = negsuc n
complement_ℤ (negsuc n) = pos n

abbrev pub shift_down : ℤ → ℕ → ℤ
shift_down (pos n) k = pos (n / 2 ^ k)
shift_down (negsuc n) k = negsuc (n / 2 ^ k)

-- `%` by a positive modulus for a positive modulus.
abbrev pub mod_ℤ : ℤ → ℕ → ℤ
mod_ℤ (pos n) m = pos (n % m)
mod_ℤ (negsuc n) m = pos (m - 1 - n % m)

-- One lemma for each operation, with which the operations stay shut.
pub +ℤ_parts :
    (a b : ℤ)
    → pos_part (a +ℤ b) + neg_part a + neg_part b ≡ neg_part (a +ℤ b) + pos_part a + pos_part b
unfolding ◌+ℤ◌
+ℤ_parts a b = ground arith

pub -ℤ_parts :
    (a b : ℤ)
    → pos_part (a -ℤ b) + neg_part a + pos_part b ≡ neg_part (a -ℤ b) + pos_part a + neg_part b
unfolding ◌-ℤ◌
-ℤ_parts a b = ground arith

pub neg_ℤ_parts : (a : ℤ) → pos_part (neg_ℤ a) + pos_part a ≡ neg_part (neg_ℤ a) + neg_part a
neg_ℤ_parts a = ground arith

pub eq_of_parts : (a b : ℤ) → pos_part a + neg_part b ≡ pos_part b + neg_part a → a ≡ b
eq_of_parts a b h = ground arith

pub ruleset int_laws = (arith, +ℤ_parts, -ℤ_parts, neg_ℤ_parts, eq_of_parts)

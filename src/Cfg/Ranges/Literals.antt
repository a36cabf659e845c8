-- ===== src/Cfg/Ranges/Literals.antt =====
-- The named limits, the literals and the constant folding of cgull/cfg/integer_ranges.py.
use Prim.Native.Nat.{◌/◌}
use cgull.Prelude.{
  ℕ, zero, suc, ◌-◌, ◌^◌, ℤ, pos, negsuc, ◌+ℤ◌, ◌-ℤ◌, ◌*ℤ◌, neg_ℤ, and_ℤ, or_ℤ, xor_ℤ, shift_down,
  Bool, true, false, ◌&&◌, ◌||◌, List, [], ◌∷◌, ◌++◌, Option, none, some, if◌then◌else◌, Text,
  codes, String, nat_eq, eqb, leb, ltb, lookup, text_eq, map,
}
use cgull.Cfg.Literal.{int_base, is_octal}
use cgull.Cfg.Ranges.{IntegerRange, Context, integer_type_range, starts_with, lower_code, one_of}
use cgull.Cfg.Syntax.{
  BinaryOperator, plus, minus, times, divide, modulo, shift_left, shift_right, bit_and, bit_or,
  bit_xor,
}

-- What `_LIMIT_RE` matches, with the value of each name.
abbrev limits_of : ℕ → String → String → String → String → List (Text × ℤ)
limits_of bits umin umax smin smax =
    (codes umin, pos 0)
    ∷ (codes umax, pos (2 ^ bits - 1))
    ∷ (codes smin, neg_ℤ (pos (2 ^ (bits - 1))))
    ∷ (codes smax, pos (2 ^ (bits - 1) - 1))
    ∷ []

unfoldable pub fixed_limits : List (Text × ℤ)
fixed_limits =
    limits_of 8 "UINT8_MIN" "UINT8_MAX" "INT8_MIN" "INT8_MAX"
    ++ limits_of 16 "UINT16_MIN" "UINT16_MAX" "INT16_MIN" "INT16_MAX"
    ++ limits_of 32 "UINT32_MIN" "UINT32_MAX" "INT32_MIN" "INT32_MAX"
    ++ limits_of 64 "UINT64_MIN" "UINT64_MAX" "INT64_MIN" "INT64_MAX"

unfoldable pub limit_aliases : List (Text × Text)
limit_aliases =
    (codes "SCHAR_MAX", codes "signed char")
    ∷ (codes "UCHAR_MAX", codes "unsigned char")
    ∷ (codes "SHRT_MAX", codes "short")
    ∷ (codes "USHRT_MAX", codes "unsigned short")
    ∷ (codes "INT_MAX", codes "int")
    ∷ (codes "UINT_MAX", codes "unsigned int")
    ∷ (codes "LONG_MAX", codes "long")
    ∷ (codes "ULONG_MAX", codes "unsigned long")
    ∷ (codes "LLONG_MAX", codes "long long")
    ∷ (codes "ULLONG_MAX", codes "unsigned long long")
    ∷ (codes "SIZE_MAX", codes "size_t")
    ∷ (codes "SSIZE_MAX", codes "ssize_t")
    ∷ (codes "UINTPTR_MAX", codes "uintptr_t")
    ∷ (codes "INTPTR_MAX", codes "intptr_t")
    ∷ (codes "PTRDIFF_MAX", codes "ptrdiff_t")
    ∷ []

abbrev upper_of : Option IntegerRange → Option ℤ
upper_of none = none
upper_of (some r) = r.upper

abbrev alias_limit : Context → Option Text → Option ℤ
alias_limit c none = none
alias_limit c (some type_name) = upper_of (integer_type_range c type_name)

-- `_named_limit`.
unfoldable pub named_limit : Context → Text → Option ℤ
unfolding fixed_limits limit_aliases integer_type_range
named_limit c name = elim (lookup name fixed_limits) [
  | some v ↦ some v
  | none ↦ alias_limit c (lookup name limit_aliases)
]

-- The suffixes that `_literal` takes off.
abbrev is_suffix : Text → Bool
is_suffix text = one_of ("u" ∷ "ul" ∷ "ull" ∷ "l" ∷ "lu" ∷ "ll" ∷ "llu" ∷ []) (map lower_code text)

unfoldable pub drop_suffix : Text → Text
drop_suffix [] = []
drop_suffix (c ∷ cs) = let rest = drop_suffix cs in if is_suffix (c ∷ cs) then [] else c ∷ rest

abbrev is_blank : ℕ → Bool
is_blank c = eqb c 32 || (leb 9 c && leb c 13)

abbrev drop_front : Text → Text
drop_front [] = []
drop_front (c ∷ cs) = let rest = drop_front cs in if is_blank c then rest else c ∷ cs

abbrev drop_back : Text → Text
drop_back [] = []
drop_back (c ∷ cs) = elim (drop_back cs) [
  | [] ↦ if is_blank c then [] else c ∷ []
  | d ∷ ds ↦ c ∷ d ∷ ds
]

abbrev as_int : Option ℕ → Option ℤ
as_int none = none
as_int (some n) = some (pos n)

-- `int(text, 16)` and `int(text, 2)` of a text with the prefix.
abbrev number : Text → Option ℤ
unfolding int_base is_octal starts_with
number text =
    if starts_with (codes "0x") (map lower_code text)
    then as_int (int_base 16 (skip_two text))
    else if starts_with (codes "0b") (map lower_code text)
    then as_int (int_base 2 (skip_two text))
    else if is_octal text
    then as_int (int_base 8 text)
    else as_int (int_base 10 text)
  where
    skip_two : Text → Text
    skip_two (c ∷ d ∷ rest) = rest
    skip_two text = []

-- One ASCII character.
abbrev character_value : Option Text → Option ℤ
character_value (some (c ∷ [])) = if ltb c 128 then some (pos c) else none
character_value o = none

-- `_literal`.
unfoldable pub literal : Context → Text → Option ℤ
unfolding drop_suffix int_base is_octal starts_with
literal c text =
    if starts_with (codes "'") text
    then character_value (c.character text)
    else number (drop_suffix (drop_back (drop_front text)))

abbrev pub magnitude : ℤ → ℕ
magnitude (pos n) = n
magnitude (negsuc n) = suc n

abbrev is_negative : ℤ → Bool
is_negative (pos n) = false
is_negative (negsuc n) = true

abbrev same_sign : ℤ → ℤ → Bool
same_sign (pos a) (pos b) = true
same_sign (negsuc a) (negsuc b) = true
same_sign a b = false

-- `_c_div`.
unfoldable pub c_div : ℤ → ℤ → ℤ
c_div left right =
    let q = pos (magnitude left / magnitude right) in if same_sign left right then q else neg_ℤ q

abbrev pub nonzero : ℤ → Option ℤ → Option ℤ
nonzero (pos zero) o = none
nonzero v o = o

-- `_constant_binary`.
unfoldable pub constant_binary : BinaryOperator → ℤ → ℤ → Option ℤ
unfolding c_div
constant_binary plus left right = some (left +ℤ right)
constant_binary minus left right = some (left -ℤ right)
constant_binary times left right = some (left *ℤ right)
constant_binary divide left right = nonzero right (some (c_div left right))
constant_binary modulo left right = nonzero right (some (left -ℤ c_div left right *ℤ right))
constant_binary shift_left left (pos n) = some (left *ℤ pos (2 ^ n))
constant_binary shift_right left (pos n) = some (shift_down left n)
constant_binary bit_and left right = some (and_ℤ left right)
constant_binary bit_or left right = some (or_ℤ left right)
constant_binary bit_xor left right = some (xor_ℤ left right)
constant_binary op left right = none

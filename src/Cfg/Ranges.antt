-- ===== src/Cfg/Ranges.antt =====
-- cgull/cfg/integer_ranges.py: intervals of integers, the ranges of C's integer types, and the
-- values of literals.
pub mod Literals
pub mod Bounds
pub mod Types
pub mod Expressions
pub mod Operators
pub mod Folded
pub mod Meaning
pub mod Operands
pub mod Sound
pub mod Fits
pub mod Conditions
pub mod Compared
pub mod Edges
pub mod Transfer
pub mod Events
pub mod Steps
pub mod Analysis
pub mod Stable
pub mod Visits
mod Examples
use cgull.Prelude.{
  ℕ, zero, suc, ◌+◌, ◌-◌, ◌*◌, ◌^◌, ℤ, pos, negsuc, ◌-ℤ◌, neg_ℤ, leb_ℤ, ltb_ℤ, eqb_ℤ, Bool, true,
  false, not, ◌&&◌, ◌||◌, List, [], ◌∷◌, Option, none, some, if◌then◌else◌, Text, codes, String,
  list_beq, nat_eq, eqb, leb, ltb, exists, lookup, text_eq, map,
}
use cgull.Cfg.Literal.{int_base, is_octal}
use cgull.Cfg.Syntax.{Node}

-- Inclusive; `none` is an unbounded end.
pub record IntegerRange : Type 0 where
  pub lower : Option ℤ
  pub upper : Option ℤ

abbrev pub exactly : ℤ → IntegerRange
exactly v = record { lower = some v; upper = some v }

abbrev pub between : ℤ → ℤ → IntegerRange
between l u = record { lower = some l; upper = some u }

-- `is_singleton`, with the value.
abbrev pub single_of : Option ℤ → Option ℤ → Option ℤ
single_of (some l) (some u) = if eqb_ℤ l u then some l else none
single_of l u = none

abbrev pub singleton : IntegerRange → Option ℤ
singleton r = single_of r.lower r.upper

abbrev pub max_ℤ : ℤ → ℤ → ℤ
max_ℤ a b = if leb_ℤ a b then b else a

abbrev pub min_ℤ : ℤ → ℤ → ℤ
min_ℤ a b = if leb_ℤ a b then a else b

-- The tighter of two bounds, and the looser.
abbrev pub tighter : (ℤ → ℤ → ℤ) → Option ℤ → Option ℤ → Option ℤ
tighter f none b = b
tighter f a none = a
tighter f (some a) (some b) = some (f a b)

abbrev pub looser : (ℤ → ℤ → ℤ) → Option ℤ → Option ℤ → Option ℤ
looser f (some a) (some b) = some (f a b)
looser f a b = none

abbrev pub crossed : Option ℤ → Option ℤ → Bool
crossed (some l) (some u) = ltb_ℤ u l
crossed l u = false

unfoldable pub intersect : IntegerRange → IntegerRange → Option IntegerRange
intersect a b =
    let l = tighter max_ℤ a.lower b.lower in
    let u = tighter min_ℤ a.upper b.upper in
    if crossed l u then none else some (record { lower = l; upper = u })

unfoldable pub hull : IntegerRange → IntegerRange → IntegerRange
hull a b = record { lower = looser min_ℤ a.lower b.lower; upper = looser max_ℤ a.upper b.upper }

abbrev below_bound : Option ℤ → ℤ → Bool
below_bound none v = false
below_bound (some l) v = ltb_ℤ v l

abbrev above_bound : Option ℤ → ℤ → Bool
above_bound none v = false
above_bound (some u) v = ltb_ℤ u v

abbrev ends_fit : Option ℤ → Option ℤ → IntegerRange → Bool
ends_fit (some l) (some u) d =
    if below_bound d.lower l then false else if above_bound d.upper u then false else true
ends_fit l u d = false

unfoldable pub fits_within : IntegerRange → IntegerRange → Bool
fits_within r destination = ends_fit r.lower r.upper destination

abbrev widened : (ℤ → ℤ → Bool) → Option ℤ → Option ℤ → Option ℤ
widened moved (some p) (some c) = if moved p c then none else some c
widened moved p c = none

-- `_widen`.
unfoldable pub widen : IntegerRange → IntegerRange → IntegerRange
widen previous current = record {
  lower = widened (λ p c. ltb_ℤ c p) previous.lower current.lower;
  upper = widened (λ p c. ltb_ℤ p c) previous.upper current.upper;
}

-- What the module asks of the analysed unit: `_resolved_scalar_type`, `get_integer_type_byte_size`,
-- `infer_expr_type`, `infer_integer_expression_type` and `usual_arithmetic_type`, each `none` where
-- there is no answer or no context, whether there is a context, and Python's `ast.literal_eval` of
-- a character literal.
pub record Context : Type 0 where
  pub resolved : Text → Option Text
  pub byte_size : Text → Option ℕ
  pub infer_type : Node → Option Text
  pub infer_integer_type : Node → Option Text
  pub usual_type : Text → Text → Option Text
  pub has_context : Bool
  pub character : Text → Option Text

-- `text.lower()` of ASCII.
abbrev pub lower_code : ℕ → ℕ
lower_code c = if leb b'A' c && leb c b'Z' then c + 32 else c

unfoldable pub starts_with : Text → Text → Bool
starts_with [] text = true
starts_with (c ∷ cs) [] = false
starts_with (c ∷ cs) (d ∷ ds) = eqb c d && starts_with cs ds

abbrev pub one_of : List String → Text → Bool
unfolding list_beq
one_of names text = exists (λ s. list_beq (codes s) text) names

abbrev pub starts_with_any : List String → Text → Bool
unfolding starts_with
starts_with_any prefixes text = exists (λ s. starts_with (codes s) text) prefixes

abbrev pub is_unsigned_name : Text → Bool
is_unsigned_name n =
    starts_with_any ("unsigned" ∷ "uint" ∷ []) n || one_of ("size_t" ∷ "uintptr_t" ∷ []) n

abbrev pub is_signed_name : Text → Bool
is_signed_name n =
    starts_with_any ("signed" ∷ "int" ∷ "short" ∷ "long" ∷ []) n
    || one_of ("ssize_t" ∷ "intptr_t" ∷ "ptrdiff_t" ∷ []) n

abbrev pub unsigned_range : ℕ → IntegerRange
unsigned_range bits = between (pos 0) (pos (2 ^ bits - 1))

abbrev pub signed_range : ℕ → IntegerRange
signed_range bits = between (neg_ℤ (pos (2 ^ (bits - 1)))) (pos (2 ^ (bits - 1) - 1))

-- The range of a type from its resolved name and its width in bytes.
unfoldable pub named_range : Option Text → Option ℕ → Option IntegerRange
named_range none width = none
named_range (some []) width = none
named_range (some resolved) none = none
named_range (some resolved) (some width) =
    let n = map lower_code resolved in
    if one_of ("char" ∷ "time_t" ∷ []) n
    then none
    else if is_unsigned_name n
    then some (unsigned_range (width * 8))
    else if is_signed_name n
    then some (signed_range (width * 8))
    else none

-- `integer_type_range`.
unfoldable pub integer_type_range : Context → Text → Option IntegerRange
unfolding named_range
integer_type_range c type_name = named_range (c.resolved type_name) (c.byte_size type_name)

abbrev pub portable : Option ℕ → Option IntegerRange
portable none = none
portable (some width) = some (between (pos 0) (pos (2 ^ (width * 8 - 1) - 1)))

-- `_portable_char_range`.
unfoldable pub portable_char_range : Context → Option IntegerRange
portable_char_range c = portable (c.byte_size (codes "char"))

-- ===== src/Cfg/Ranges/Expressions.antt =====
-- `_expr_range`, `_condition_truth`, `_constraints`, `_apply` and `_merge` of
-- cgull/cfg/integer_ranges.py.
use mathlib.Core.Option
use cgull.Prelude.{
  ◌+◌, ℤ, pos, ◌+ℤ◌, ◌-ℤ◌, neg_ℤ, complement_ℤ, mod_ℤ, leb_ℤ, ltb_ℤ, eqb_ℤ, Bool, false, not, ◌&&◌,
  ◌||◌, List, ◌∷◌, Option, none, some, if◌then◌else◌, Text, codes, list_beq, nat_eq, text_eq, ◌==◌,
  lookup, keep,
}
use cgull.Cfg.Ranges.{
  IntegerRange, exactly, between, singleton, intersect, hull, fits_within, Context,
  integer_type_range, portable_char_range,
}
use cgull.Cfg.Ranges.Literals.{named_limit, literal, constant_binary}
use cgull.Cfg.Syntax.{
  UnaryOperator, plus_sign, minus_sign, complement, logical_not, BinaryOperator, plus, minus, less,
  less_equal, greater, greater_equal, equal, not_equal, logical_and, logical_or, Node, id, constant,
  unary_op, binary_op, ternary_op, cast, other,
}

abbrev pub State : Type 0
State = List (Text × IntegerRange)

-- `result[name] = value`.
abbrev pub put : Text → IntegerRange → State → State
put name r s = (name, r) ∷ keep (λ p. not (p.0 == name)) s

abbrev pub truth_value : Bool → ℤ
truth_value b = pos (if b then 1 else 0)

abbrev pub is_zero : ℤ → Bool
is_zero v = eqb_ℤ v (pos 0)

unfoldable pub compare_op : BinaryOperator → ℤ → ℤ → Option Bool
compare_op less x y = some (ltb_ℤ x y)
compare_op less_equal x y = some (leb_ℤ x y)
compare_op greater x y = some (ltb_ℤ y x)
compare_op greater_equal x y = some (leb_ℤ y x)
compare_op equal x y = some (eqb_ℤ x y)
compare_op not_equal x y = some (not (eqb_ℤ x y))
compare_op op x y = none

-- The operands in the range of their common type, where the conversion is defined.
abbrev pub converted : Option ℤ → Option ℤ → ℤ → ℤ → Option (ℤ × ℤ)
converted (some l) (some (pos u)) x y =
    if is_zero l
    then some (mod_ℤ x (u + 1), mod_ℤ y (u + 1))
    else if leb_ℤ l x && leb_ℤ x (pos u) && leb_ℤ l y && leb_ℤ y (pos u)
    then some (x, y)
    else none
converted l u x y = none

abbrev pub converted_in : Option IntegerRange → ℤ → ℤ → Option (ℤ × ℤ)
converted_in none x y = none
converted_in (some r) x y = converted r.lower r.upper x y

unfoldable pub common_range : Context → Option Text → Option Text → Option IntegerRange
unfolding integer_type_range
common_range c (some l) (some r) = elim (c.usual_type l r) [
  | some t ↦ integer_type_range c t
  | none ↦ none
]
common_range c l r = none

unfoldable pub compared : BinaryOperator → Option (ℤ × ℤ) → Option ℤ
unfolding compare_op
compared op none = none
compared op (some (x, y)) = Option.map truth_value (compare_op op x y)

-- `_constant_predicate`.
unfoldable pub constant_predicate : Context → BinaryOperator → Node → Node → ℤ → ℤ → Option ℤ
unfolding integer_type_range compare_op
constant_predicate c logical_and l r x y = some (truth_value (not (is_zero x) && not (is_zero y)))
constant_predicate c logical_or l r x y = some (truth_value (not (is_zero x) || not (is_zero y)))
constant_predicate c op l r x y =
    if c.has_context
    then compared op
        (converted_in (common_range c (c.infer_integer_type l) (c.infer_integer_type r)) x y)
    else none

abbrev pub or_constant : Option ℤ → Option ℤ → Option ℤ
or_constant (some k) o = some k
or_constant none o = o

-- The folding of two known operands.
unfoldable pub folded : Context → BinaryOperator → Node → Node → ℤ → ℤ → Option ℤ
unfolding constant_predicate constant_binary
folded c op l r x y = or_constant (constant_predicate c op l r x y) (constant_binary op x y)

abbrev pub fold_known : (ℤ → ℤ → Option ℤ) → Option ℤ → Option ℤ → Option ℤ
fold_known f (some x) (some y) = f x y
fold_known f x y = none

abbrev pub sum_ends : Option ℤ → Option ℤ → Option ℤ → Option ℤ → Option IntegerRange
sum_ends (some al) (some au) (some bl) (some bu) = some (between (al +ℤ bl) (au +ℤ bu))
sum_ends al au bl bu = none

abbrev pub sum_range : IntegerRange → IntegerRange → Option IntegerRange
sum_range a b = sum_ends a.lower a.upper b.lower b.upper

abbrev pub difference_ends : Option ℤ → Option ℤ → Option ℤ → Option ℤ → Option IntegerRange
difference_ends (some al) (some au) (some bl) (some bu) = some (between (al -ℤ bu) (au -ℤ bl))
difference_ends al au bl bu = none

abbrev pub difference_range : IntegerRange → IntegerRange → Option IntegerRange
difference_range a b = difference_ends a.lower a.upper b.lower b.upper

abbrev pub spread : BinaryOperator → IntegerRange → IntegerRange → Option IntegerRange
spread plus a b = sum_range a b
spread minus a b = difference_range a b
spread op a b = none

abbrev pub fold_or_spread : Option ℤ → Option IntegerRange → Option IntegerRange
fold_or_spread (some k) o = some (exactly k)
fold_or_spread none o = o

unfoldable pub binary_range :
    Context
    → BinaryOperator
    → Node
    → Node
    → Option IntegerRange
    → Option IntegerRange
    → Option IntegerRange
unfolding folded
binary_range c op l r (some a) (some b) =
    fold_or_spread (fold_known (folded c op l r) (singleton a) (singleton b)) (spread op a b)
binary_range c op l r a b = none

abbrev pub on_single : (ℤ → ℤ) → Option ℤ → Option IntegerRange
on_single f none = none
on_single f (some v) = some (exactly (f v))

abbrev pub unary_range : UnaryOperator → Option IntegerRange → Option IntegerRange
unary_range op none = none
unary_range plus_sign (some r) = some r
unary_range minus_sign (some r) =
    some (record { lower = Option.map neg_ℤ r.upper; upper = Option.map neg_ℤ r.lower })
unary_range complement (some r) = on_single complement_ℤ (singleton r)
unary_range logical_not (some r) = on_single (λ v. truth_value (is_zero v)) (singleton r)
unary_range op (some r) = none

unfoldable pub keep_if_fits : Option IntegerRange → Option IntegerRange → Option IntegerRange
unfolding fits_within
keep_if_fits (some source) (some d) = if fits_within source d then some source else none
keep_if_fits source d = none

abbrev pub or_destination : Option IntegerRange → IntegerRange → IntegerRange
or_destination (some r) d = r
or_destination none d = d

unfoldable pub is_char : Option Text → Bool
unfolding list_beq
is_char none = false
is_char (some t) = list_beq t (codes "char")

unfoldable pub cast_range :
    Context → Text → Option IntegerRange → Option IntegerRange → Option IntegerRange
unfolding portable_char_range list_beq fits_within
cast_range c t (some d) source = some (or_destination (keep_if_fits source (some d)) d)
cast_range c t none source =
    if is_char (c.resolved t) then keep_if_fits source (portable_char_range c) else none

unfoldable pub type_of : Context → Option Text → Option IntegerRange
unfolding integer_type_range
type_of c none = none
type_of c (some t) = integer_type_range c t

-- The range that the type of an expression gives.
unfoldable pub static_range : Context → Node → Option IntegerRange
unfolding integer_type_range
static_range c e = type_of c (c.infer_type e)

unfoldable pub with_static : Option IntegerRange → Option IntegerRange → Option IntegerRange
unfolding intersect
with_static none static = static
with_static (some fact) none = some fact
with_static (some fact) (some static) = intersect fact static

unfoldable pub hull_both : Option IntegerRange → Option IntegerRange → Option IntegerRange
unfolding hull
hull_both (some a) (some b) = some (hull a b)
hull_both a b = none

unfoldable pub name_range : Context → State → Text → Option ℤ → Option IntegerRange
unfolding integer_type_range intersect
name_range c s n (some k) = some (exactly k)
name_range c s n none = with_static (lookup n s) (static_range c (id n))

-- `_expr_range`.
unfoldable pub expr_range : Context → State → Node → Option IntegerRange
unfolding named_limit literal folded integer_type_range portable_char_range intersect hull
expr_range c s (cast t e) = cast_range c t (integer_type_range c t) (expr_range c s e)
expr_range c s (id n) = name_range c s n (named_limit c n)
expr_range c s (constant t x) = Option.map exactly (literal c x)
expr_range c s (unary_op op e) = unary_range op (expr_range c s e)
expr_range c s (binary_op op l r) = binary_range c op l r (expr_range c s l) (expr_range c s r)
expr_range c s (ternary_op condition a b) = hull_both (expr_range c s a) (expr_range c s b)
expr_range c s other = none

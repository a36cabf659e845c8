-- ===== src/Cfg/Ranges/Conditions.antt =====
-- `_condition_truth`, `_comparison`, `_constraints`, `_apply` and `_merge` of
-- cgull/cfg/integer_ranges.py, and the state of a branch's edge in `analyze_integer_ranges`.
use mathlib.Core.Option
use cgull.Prelude.{
  ℤ, pos, ◌+ℤ◌, ◌-ℤ◌, ltb_ℤ, Bool, true, false, not, ◌&&◌, ◌||◌, List, [], ◌∷◌, Option, none, some,
  if◌then◌else◌, Text, codes, text_eq, nat_eq, lookup, keep, elem,
}
use cgull.Cfg.Ranges.{
  IntegerRange, exactly, singleton, intersect, hull, Context, integer_type_range,
}
use cgull.Cfg.Ranges.Expressions.{State, put, is_zero, is_char, type_of, expr_range}
use cgull.Cfg.Syntax.{
  UnaryOperator, plus_sign, minus_sign, logical_not, BinaryOperator, less, less_equal, greater,
  greater_equal, equal, not_equal, logical_and, logical_or, Node, id, constant, unary_op, binary_op,
  ternary_op, cast, other,
}

abbrev pub is_comparison : BinaryOperator → Bool
is_comparison less = true
is_comparison less_equal = true
is_comparison greater = true
is_comparison greater_equal = true
is_comparison equal = true
is_comparison not_equal = true
is_comparison op = false

abbrev is_logical : BinaryOperator → Bool
is_logical logical_and = true
is_logical logical_or = true
is_logical op = false

-- `_condition_reads_unstable_storage`, on the nodes that have a name of their own.
unfoldable pub reads_unstable : List Text → Node → Bool
reads_unstable unstable (id n) = elem n unstable
reads_unstable unstable (constant t x) = false
reads_unstable unstable (unary_op op e) = reads_unstable unstable e
reads_unstable unstable (binary_op op l r) = reads_unstable unstable l || reads_unstable unstable r
reads_unstable unstable (ternary_op e a b) =
    reads_unstable unstable e || reads_unstable unstable a || reads_unstable unstable b
reads_unstable unstable (cast t e) = reads_unstable unstable e
reads_unstable unstable other = false

abbrev provable_unary : UnaryOperator → Bool
provable_unary logical_not = true
provable_unary plus_sign = true
provable_unary minus_sign = true
provable_unary op = false

-- `_branch_proof_expression_supported`.
unfoldable pub supported : Node → Bool
supported (id n) = true
supported (constant t x) = true
supported (unary_op op e) = provable_unary op && supported e
supported (binary_op op l r) = (is_comparison op || is_logical op) && (supported l && supported r)
supported e = false

abbrev pub known_value : Option IntegerRange → Option ℤ
known_value none = none
known_value (some r) = singleton r

-- `_condition_truth`.
unfoldable pub condition_truth : Context → State → List Text → Node → Option Bool
unfolding supported reads_unstable expr_range
condition_truth c s unstable e =
    if not (supported e)
    then none
    else if reads_unstable unstable e
    then none
    else Option.map (λ v. not (is_zero v)) (known_value (expr_range c s e))

abbrev pub swapped : BinaryOperator → BinaryOperator
swapped less = greater
swapped less_equal = greater_equal
swapped greater = less
swapped greater_equal = less_equal
swapped op = op

abbrev pub negated : BinaryOperator → BinaryOperator
negated less = greater_equal
negated less_equal = greater
negated greater = less_equal
negated greater_equal = less
negated equal = not_equal
negated not_equal = equal
negated op = op

abbrev pub name_of : Node → Option Text
name_of (id n) = some n
name_of e = none

-- A name, the known value that it is compared with, and the operator with the name on its left;
-- then the name's operand and the other.
pub record Bounded : Type 0 where
  pub variable : Text
  pub value : ℤ
  pub op : BinaryOperator
  pub variable_node : Node
  pub bound_node : Node

abbrev pub bound_by : BinaryOperator → Node → Node → Option Text → Option ℤ → Option Bounded
bound_by op e f (some n) (some v) =
    some (record { variable = n; value = v; op = op; variable_node = e; bound_node = f })
bound_by op e f n v = none

abbrev pub or_bounded : Option Bounded → Option Bounded → Option Bounded
or_bounded (some b) o = some b
or_bounded none o = o

unfoldable pub bounded : Context → BinaryOperator → Node → Node → Option Bounded
unfolding expr_range
bounded c op l r =
    or_bounded (bound_by op l r (name_of l) (known_value (expr_range c [] r)))
      (bound_by (swapped op) r l (name_of r) (known_value (expr_range c [] l)))

abbrev declared_type : Context → Node → Option Text
declared_type c (constant t x) = some t
declared_type c e = c.infer_type e

unfoldable pub resolves_to_char : Context → Option Text → Bool
unfolding is_char
resolves_to_char c none = false
resolves_to_char c (some t) = is_char (c.resolved t)

abbrev variable_range : Context → Option Text → Option IntegerRange
unfolding resolves_to_char integer_type_range type_of
variable_range c t =
    if resolves_to_char c t then integer_type_range c (codes "signed char") else type_of c t

-- A signed variable and an unsigned bound of a type with larger values.
abbrev ends_convert : Option ℤ → Option ℤ → Option ℤ → Option ℤ → Bool
ends_convert (some vl) (some vu) (some bl) (some bu) =
    ltb_ℤ vl (pos 0) && (is_zero bl && ltb_ℤ vu bu)
ends_convert vl vu bl bu = false

abbrev range_converts : Option IntegerRange → Option IntegerRange → Bool
range_converts (some v) (some b) = ends_convert v.lower v.upper b.lower b.upper
range_converts v b = false

unfoldable pub converts : Context → Node → Node → Bool
unfolding variable_range type_of
converts c e f =
    c.has_context
    && range_converts (variable_range c (c.infer_type e)) (type_of c (declared_type c f))

abbrev pub bound_range : BinaryOperator → ℤ → Option IntegerRange
bound_range less v = some (record { lower = none; upper = some (v -ℤ pos 1) })
bound_range less_equal v = some (record { lower = none; upper = some v })
bound_range greater v = some (record { lower = some (v +ℤ pos 1); upper = none })
bound_range greater_equal v = some (record { lower = some v; upper = none })
bound_range equal v = some (exactly v)
bound_range op v = none

abbrev pub named_range_of : Text → Option IntegerRange → State
named_range_of n none = []
named_range_of n (some r) = (n, r) ∷ []

unfoldable pub bounded_constraint : Context → Bool → Option Bounded → State
unfolding converts
bounded_constraint c truth none = []
bounded_constraint c truth (some b) =
    if converts c b.variable_node b.bound_node
    then []
    else named_range_of b.variable (bound_range (if truth then b.op else negated b.op) b.value)

-- `_comparison`.
unfoldable pub comparison : Context → BinaryOperator → Node → Node → Bool → State
unfolding bounded bounded_constraint
comparison c op l r truth =
    if is_comparison op then bounded_constraint c truth (bounded c op l r) else []

unfoldable pub add_combined : State → Text → IntegerRange → Option IntegerRange → State
unfolding intersect
add_combined result n r none = put n r result
add_combined result n r (some prior) = elim (intersect prior r) [
  | none ↦ result
  | some both ↦ put n both result
]

unfoldable pub combine_constraints : State → State → State
unfolding add_combined
combine_constraints result [] = result
combine_constraints result ((n, r) ∷ rest) =
    combine_constraints (add_combined result n r (lookup n result)) rest

abbrev pub conjoins : BinaryOperator → Bool → Bool
conjoins logical_and true = true
conjoins logical_or false = true
conjoins op truth = false

-- `_constraints`.
unfoldable pub constraints : Context → Node → Bool → State
unfolding comparison combine_constraints
constraints c (unary_op logical_not e) truth = constraints c e (not truth)
constraints c (binary_op op l r) truth = elim (conjoins op truth) [
  | true ↦ combine_constraints (constraints c l truth) (constraints c r truth)
  | false ↦ comparison c op l r truth
]
constraints c e truth = []

unfoldable pub current_range : Context → State → Text → Option IntegerRange → Option IntegerRange
unfolding expr_range
current_range c s n (some r) = some r
current_range c s n none = if c.has_context then expr_range c s (id n) else none

unfoldable pub combined_with : IntegerRange → Option IntegerRange → Option IntegerRange
unfolding intersect
combined_with r none = some r
combined_with r (some current) = intersect current r

-- `_apply`; `none` is an edge that cannot be taken.
unfoldable pub apply_constraints : Context → State → State → Option State
unfolding combined_with current_range
apply_constraints c s [] = some s
apply_constraints c s ((n, r) ∷ rest) = elim (combined_with r (current_range c s n (lookup n s))) [
  | none ↦ none
  | some both ↦ apply_constraints c (put n both s) rest
]

unfoldable pub merge_entry : Text → IntegerRange → Option IntegerRange → State → State
unfolding hull
merge_entry n r none rest = rest
merge_entry n r (some other_range) rest = (n, hull r other_range) ∷ rest

-- `_merge`.
unfoldable pub merge : State → State → State
unfolding merge_entry
merge [] right = []
merge ((n, r) ∷ rest) right = merge_entry n r (lookup n right) (merge rest right)

-- What proves a branch's edge dead.
abbrev pub disproved : Option Bool → Bool → Bool
disproved none branch_truth = false
disproved (some true) branch_truth = not branch_truth
disproved (some false) branch_truth = branch_truth

-- The state along the edge of a condition's branch, `none` where the edge is skipped.
unfoldable pub edge_state : Context → List Text → State → Node → Bool → Option State
unfolding condition_truth constraints apply_constraints
edge_state c unstable outgoing condition branch_truth =
    if disproved (condition_truth c outgoing unstable condition) branch_truth
    then none
    else apply_constraints c outgoing
        (keep (λ p. not (elem p.0 unstable)) (constraints c condition branch_truth))

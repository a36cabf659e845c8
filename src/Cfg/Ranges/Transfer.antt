-- ===== src/Cfg/Ranges/Transfer.antt =====
-- `_transfer` of cgull/cfg/integer_ranges.py: what an event of the control-flow graph does to the
-- ranges of the variables.
use cgull.Prelude.{
  ℤ, pos, negsuc, ◌+ℤ◌, Bool, true, false, not, ◌||◌, List, [], Option, none, some, if◌then◌else◌,
  Text, text_eq, ◌==◌, lookup, keep, elem,
}
use cgull.Cfg.Ranges.{IntegerRange, between, fits_within, Context, portable_char_range}
use cgull.Cfg.Ranges.Conditions.{resolves_to_char}
use cgull.Cfg.Ranges.Expressions.{State, put, expr_range}
use cgull.Cfg.Syntax.{
  increment, post_increment, decrement, post_decrement, AssignOperator, assign, Node, id, unary_op,
  Statement, decl, assignment, expression,
}

-- What an event of the graph has for the transfer; one without a syntax node has no statement.
pub record Event : Type 0 where
  pub is_unknown_control_flow : Bool
  pub node : Option Statement
  pub has_calls : Bool

-- `result.pop(name, None)`.
abbrev pub remove : Text → State → State
remove name s = keep (λ p. not (p.0 == name)) s

abbrev pub remove_all : List Text → State → State
remove_all names s = keep (λ p. not (elem p.0 names)) s

-- The fact is stored, or none is.
abbrev pub store : State → Text → Option IntegerRange → State
store s n none = remove n s
store s n (some r) = put n r s

abbrev pub initial_fact : Context → State → Option Node → Option IntegerRange
initial_fact c s none = none
initial_fact c s (some e) = expr_range c s e

abbrev pub assigned_fact : Context → State → AssignOperator → Node → Option IntegerRange
assigned_fact c s assign e = expr_range c s e
assigned_fact c s op e = none

abbrev pub step_ends : Option ℤ → Option ℤ → ℤ → Option IntegerRange
step_ends (some l) (some u) delta = some (between (l +ℤ delta) (u +ℤ delta))
step_ends l u delta = none

abbrev pub stepped : Option IntegerRange → ℤ → Option IntegerRange
stepped none delta = none
stepped (some r) delta = step_ends r.lower r.upper delta

-- The name that `++` or `--` changes, and by what.
abbrev pub step_of : Node → Option (Text × ℤ)
step_of (unary_op increment (id n)) = some (n, pos 1)
step_of (unary_op post_increment (id n)) = some (n, pos 1)
step_of (unary_op decrement (id n)) = some (n, negsuc 0)
step_of (unary_op post_decrement (id n)) = some (n, negsuc 0)
step_of e = none

abbrev pub step_fact : Context → State → Option (Text × ℤ) → Option (Text × Option IntegerRange)
step_fact c s none = none
step_fact c s (some (n, delta)) = some (n, stepped (expr_range c s (id n)) delta)

abbrev pub declared_fact :
    Context → State → Option Text → Option Node → Option (Text × Option IntegerRange)
declared_fact c s none init = none
declared_fact c s (some n) init = some (n, initial_fact c s init)

-- The name that is written, and the fact for it.
abbrev pub written_fact : Context → State → Statement → Option (Text × Option IntegerRange)
written_fact c s (decl d) = declared_fact c s d.name d.init
written_fact c s (assignment op (id n) e) = some (n, assigned_fact c s op e)
written_fact c s (expression e) = step_fact c s (step_of e)
written_fact c s node = none

abbrev pub fits_portable : Option IntegerRange → IntegerRange → Bool
fits_portable none r = false
fits_portable (some p) r = fits_within r p

-- A fact on a plain `char` is kept where both signednesses hold it.
unfoldable pub settle_char : Context → State → Text → Option IntegerRange → State
unfolding resolves_to_char fits_within portable_char_range
settle_char c s n none = s
settle_char c s n (some r) =
    if resolves_to_char c (c.infer_type (id n))
    then (if fits_portable (portable_char_range c) r then s else remove n s)
    else s

abbrev pub settle : Context → List Text → State → Text → State
settle c unstable s n = if elem n unstable then remove n s else settle_char c s n (lookup n s)

abbrev pub write : Context → List Text → State → Option (Text × Option IntegerRange) → State
write c unstable s none = s
write c unstable s (some (n, fact)) = settle c unstable (store s n fact) n

abbrev pub writes_through : Statement → Bool
writes_through (assignment op (id n) e) = false
writes_through (assignment op target e) = true
writes_through node = false

abbrev pub writes_exposed : Bool → Statement → Bool
writes_exposed has_calls node = has_calls || writes_through node

-- The part of `_transfer` after its early returns.
unfoldable pub transfer_statement :
    Context → List Text → List Text → Bool → Option Statement → State → State
unfolding expr_range settle_char
transfer_statement c exposed unstable has_calls none s = s
transfer_statement c exposed unstable has_calls (some node) s =
    let written = write c unstable s (written_fact c s node) in
    if writes_exposed has_calls node then remove_all exposed written else written

-- `_transfer`.
unfoldable pub transfer : Context → List Text → List Text → Event → State → State
unfolding transfer_statement
transfer c exposed unstable event s =
    if event.is_unknown_control_flow
    then []
    else transfer_statement c exposed unstable event.has_calls event.node s

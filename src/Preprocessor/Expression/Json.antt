-- ===== src/Preprocessor/Expression/Json.antt =====
-- `expression_to_dict` and `expression_from_dict` of cgull/preprocessor/expressions.py, with the
-- checks of the constructors' arguments. A JSON value is a data type; a dictionary is the list of
-- its fields.
use mathlib.Core.Option
use cgull.Prelude.{
  ℕ, Bool, false, not, ◌&&◌, ◌||◌, List, [], ◌∷◌, Option, none, some, if◌then◌else◌, Text, codes,
  text_eq, nat_eq, list_beq, ◌==◌, String, leb, eqb, elem, every, exists, lookup, map,
}
use cgull.Preprocessor.Expression.{
  Expression, constant, variable, defined, predicate, negation, conjunction, disjunction, Operands,
  nil, cons,
}
use cgull.Preprocessor.Expression.Simplify.{simplify}

mutual
  pub data Json : Type 0 where
    json_bool : Bool → Json
    json_text : Text → Json
    json_array : Items → Json
    json_object : Fields → Json
    json_other : Json

  pub data Items : Type 0 where
    no_item : Items
    item : Json → Items → Items

  pub data Fields : Type 0 where
    no_field : Fields
    field : Text → Json → Fields → Fields

-- `[A-Za-z_]`, and with digits.
abbrev is_name_start : ℕ → Bool
is_name_start c = (leb b'A' c && leb c b'Z') || ((leb b'a' c && leb c b'z') || eqb c b'_')

abbrev is_name_code : ℕ → Bool
is_name_code c = is_name_start c || (leb b'0' c && leb c b'9')

-- The test of `_name`.
unfoldable pub is_macro_name : Text → Bool
is_macro_name [] = false
is_macro_name (c ∷ cs) = is_name_start c && every is_name_code cs

-- What `str.strip` removes.
abbrev is_space : ℕ → Bool
is_space c =
    (leb 9 c && leb c 13)
    || ((leb 28 c && leb c 32)
        || ((leb 8192 c && leb c 8202)
            || elem c (133 ∷ 160 ∷ 5760 ∷ 8232 ∷ 8233 ∷ 8239 ∷ 8287 ∷ 12288 ∷ [])))

-- The test of `Predicate`.
unfoldable pub is_predicate_text : Text → Bool
is_predicate_text text = exists (λ c. not (is_space c)) text

-- The constructors, `none` where their checks raise a ValueError.
abbrev pub checked : Bool → Expression → Option Expression
checked valid e = if valid then some e else none

abbrev pub new_constant : Option Json → Option Expression
new_constant (some (json_bool b)) = some (constant b)
new_constant v = none

unfoldable pub new_variable : Option Json → Option Expression
unfolding is_macro_name
new_variable (some (json_text n)) = checked (is_macro_name n) (variable n)
new_variable v = none

unfoldable pub new_defined : Option Json → Option Expression
unfolding is_macro_name
new_defined (some (json_text n)) = checked (is_macro_name n) (defined n)
new_defined v = none

unfoldable pub new_predicate : Option Json → Option Expression
unfolding is_predicate_text
new_predicate (some (json_text t)) = checked (is_predicate_text t) (predicate t)
new_predicate v = none

abbrev pub tagged : String → Text → Json → Json
tagged kind name value =
    json_object (field (codes "kind") (json_text (codes kind)) (field name value no_field))

unfoldable mutual
  -- `_to_dict`.
  pub to_dict : Expression → Json
  to_dict (constant b) = tagged "constant" (codes "value") (json_bool b)
  to_dict (variable n) = tagged "variable" (codes "name") (json_text n)
  to_dict (defined n) = tagged "defined" (codes "name") (json_text n)
  to_dict (predicate t) = tagged "predicate" (codes "text") (json_text t)
  to_dict (negation e) = tagged "not" (codes "operand") (to_dict e)
  to_dict (conjunction es) = tagged "and" (codes "operands") (json_array (to_items es))
  to_dict (disjunction es) = tagged "or" (codes "operands") (json_array (to_items es))

  pub to_items : Operands → Items
  to_items nil = no_item
  to_items (cons e es) = item (to_dict e) (to_items es)

-- What is read of a field: its value, and what the value gives as an expression and as a list of
-- expressions.
pub record ReadField : Type 0 where
  pub value : Json
  pub expression : Option Expression
  pub operands : Option Operands

abbrev pub ReadFields : Type 0
ReadFields = List (Text × ReadField)

abbrev pub value_of : ReadFields → String → Option Json
value_of fs name = Option.map (λ f. f.value) (lookup (codes name) fs)

abbrev pub expression_of : Option ReadField → Option Expression
expression_of none = none
expression_of (some f) = f.expression

abbrev pub operands_of : Option ReadField → Option Operands
operands_of none = none
operands_of (some f) = f.operands

-- `set(data) == {"kind", name}`.
abbrev pub has_fields : ReadFields → String → Bool
has_fields fs name =
    let names = map (λ f. f.0) fs in
    every (λ n. n == codes "kind" || n == codes name) names
    && (elem (codes "kind") names && elem (codes name) names)

abbrev pub is_kind : Option Json → String → Bool
is_kind (some (json_text t)) kind = t == codes kind
is_kind v kind = false

-- The branches of `_from_dict` on a dictionary.
unfoldable pub from_fields : ReadFields → Option Expression
unfolding new_variable new_defined new_predicate list_beq
from_fields fs =
    let kind = value_of fs "kind" in
    if is_kind kind "constant" && has_fields fs "value"
    then new_constant (value_of fs "value")
    else if is_kind kind "variable" && has_fields fs "name"
    then new_variable (value_of fs "name")
    else if is_kind kind "defined" && has_fields fs "name"
    then new_defined (value_of fs "name")
    else if is_kind kind "predicate" && has_fields fs "text"
    then new_predicate (value_of fs "text")
    else if is_kind kind "not" && has_fields fs "operand"
    then Option.map negation (expression_of (lookup (codes "operand") fs))
    else if is_kind kind "and" && has_fields fs "operands"
    then Option.map conjunction (operands_of (lookup (codes "operands") fs))
    else if is_kind kind "or" && has_fields fs "operands"
    then Option.map disjunction (operands_of (lookup (codes "operands") fs))
    else none

abbrev pub cons_both : Option Expression → Option Operands → Option Operands
cons_both (some e) (some es) = some (cons e es)
cons_both e es = none

unfoldable mutual
  unfolding from_fields

  -- `_from_dict`; `none` is a ValueError.
  pub from_dict : Json → Option Expression
  from_dict (json_object fs) = from_fields (read_fields fs)
  from_dict v = none

  pub from_items : Items → Option Operands
  from_items no_item = some nil
  from_items (item v vs) = cons_both (from_dict v) (from_items vs)

  pub from_array : Json → Option Operands
  from_array (json_array vs) = from_items vs
  from_array v = none

  pub read_fields : Fields → ReadFields
  read_fields no_field = []
  read_fields (field n v rest) =
      (n, record { value = v; expression = from_dict v; operands = from_array v })
      ∷ read_fields rest

-- `expression_to_dict`.
unfoldable pub expression_to_dict : Expression → Json
unfolding simplify to_dict
expression_to_dict e = to_dict (simplify e)

-- `expression_from_dict`.
unfoldable pub expression_from_dict : Json → Option Expression
unfolding simplify from_dict
expression_from_dict data_ = Option.map simplify (from_dict data_)

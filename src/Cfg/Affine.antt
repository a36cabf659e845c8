-- ===== src/Cfg/Affine.antt =====
-- cgull/cfg/affine_relations.py: facts `a == b + C` and constants that hold at a program point. A
-- frozen set is the list of its elements.
pub mod Holds
pub mod Assign
pub mod Sound
pub mod Query
pub mod Examples
pub mod Transfer
use cgull.Prelude.{
  ℕ, ℤ, pos, negsuc, ◌+ℤ◌, ◌-ℤ◌, neg_ℤ, int_eq, Bool, true, false, not, ◌&&◌, ◌||◌, List, [], ◌∷◌,
  ◌++◌, Option, none, some, if◌then◌else◌, Text, text_eq, pair_eq, codes, ◌==◌, elem, keep, lookup,
  map, eqb,
}
use cgull.Preprocessor.Expression.Order.{compare_text, is_lt}
use cgull.Cfg.Literal.{int_any, int_base, is_octal, rstrip}
use cgull.Cfg.Syntax.{
  UnaryOperator, plus_sign, minus_sign, increment, post_increment, decrement, post_decrement,
  BinaryOperator, plus, minus, AssignOperator, assign, add_assign, subtract_assign, Node, id,
  constant, unary_op, binary_op, Declaration, Statement, decl_list, decl, assignment, expression,
}

abbrev pub Relation : Type 0
Relation = Text × (Text × ℤ)

-- `_canonical`.
unfoldable pub canonical : Text → Text → ℤ → Relation
canonical left right offset =
    if is_lt (compare_text left right)
    then (left, (right, offset))
    else (right, (left, neg_ℤ offset))

abbrev is_suffix : ℕ → Bool
is_suffix c = eqb c b'u' || eqb c b'U' || eqb c b'l' || eqb c b'L'

abbrev as_int : Option ℕ → Option ℤ
as_int none = none
as_int (some n) = some (pos n)

-- The text of a constant of type `int`.
unfoldable pub token_value : Text → Option ℤ
unfolding int_any int_base is_octal rstrip
token_value text =
    let token = rstrip is_suffix text in
    as_int (if is_octal token then int_base 8 token else int_any token)

abbrev pub both : (ℤ → ℤ → ℤ) → Option ℤ → Option ℤ → Option ℤ
both f (some x) (some y) = some (f x y)
both f x y = none

abbrev pub negated : Option ℤ → Option ℤ
negated none = none
negated (some x) = some (neg_ℤ x)

abbrev pub typed_int : Text → Option ℤ → Option ℤ
typed_int type value = if type == codes "int" then value else none

-- `_integer`.
unfoldable pub integer : Node → Option ℤ
unfolding token_value
integer (constant type text) = typed_int type (token_value text)
integer (unary_op plus_sign e) = integer e
integer (unary_op minus_sign e) = negated (integer e)
integer (binary_op plus l r) = both (λ x y. x +ℤ y) (integer l) (integer r)
integer (binary_op minus l r) = both (λ x y. x -ℤ y) (integer l) (integer r)
integer e = none

-- A base variable, if there is one, and an offset.
abbrev pub Affine : Type 0
Affine = Option Text × ℤ

-- `isinstance(node, c_ast.ID)`, with the name.
abbrev pub name_of : Node → Option Text
name_of (id name) = some name
name_of e = none

abbrev pub based : Option Text → Option ℤ → Option Affine
based (some name) (some amount) = some (some name, amount)
based name amount = none

abbrev first_of : Option Affine → Option Affine → Option Affine
first_of (some p) q = some p
first_of none q = q

-- `_affine_rhs` where the whole is no integer.
abbrev pub affine_sum : Node → Option Affine
affine_sum (id name) = some (some name, pos 0)
affine_sum (binary_op plus l r) =
    first_of (based (name_of l) (integer r)) (based (name_of r) (integer l))
affine_sum (binary_op minus l r) = based (name_of l) (negated (integer r))
affine_sum e = none

unfoldable pub affine_rhs : Node → Option Affine
unfolding integer
affine_rhs e = elim (integer e) [ some value ↦ some (none, value) | none ↦ affine_sum e ]

pub record AffineFacts : Type 0 where
  pub constants : List (Text × ℤ)
  pub relations : List Relation

abbrev pub no_facts : AffineFacts
no_facts = record { constants = []; relations = [] }

-- `AffineFacts.constant`.
abbrev pub constant_of : AffineFacts → Text → Option ℤ
constant_of facts symbol = lookup symbol facts.constants

abbrev find_offset : Text → Text → Text → List Relation → Option ℤ
find_offset left first second [] = none
find_offset left first second ((a, (b, stored)) ∷ rest) =
    if a == first && b == second
    then some (if left == first then stored else neg_ℤ stored)
    else find_offset left first second rest

abbrev or_difference : Option ℤ → Option ℤ → Option ℤ → Option ℤ
or_difference (some c) l r = some c
or_difference none l r = both (λ x y. x -ℤ y) l r

unfoldable pub offset : AffineFacts → Text → Text → Option ℤ
unfolding canonical
offset facts left right =
    let (first, (second, _)) = canonical left right (pos 0) in
    if left == right
    then some (pos 0)
    else or_difference (find_offset left first second facts.relations) (constant_of facts left)
        (constant_of facts right)

-- The loop of `symbols_related_to`, with the symbols seen.
abbrev related : Text → List Text → List Relation → List (Text × ℤ)
related symbol seen [] = []
related symbol seen ((first, (second, stored)) ∷ rest) =
    if first == symbol && not (elem second seen)
    then (second, stored) ∷ related symbol (second ∷ seen) rest
    else if second == symbol && not (elem first seen)
    then (first, neg_ℤ stored) ∷ related symbol (first ∷ seen) rest
    else related symbol seen rest

unfoldable pub symbols_related_to : AffineFacts → Text → List (Text × ℤ)
symbols_related_to facts symbol = (symbol, pos 0) ∷ related symbol (symbol ∷ []) facts.relations

unfoldable pub forget : AffineFacts → Text → AffineFacts
forget facts symbol = record {
  constants = keep (λ c. not (c.0 == symbol)) facts.constants;
  relations = keep (λ r. not (symbol == r.0 || symbol == r.1.0)) facts.relations;
}

-- `constants[symbol] = value` in the dictionary of the constants.
abbrev pub set_constant : Text → ℤ → List (Text × ℤ) → List (Text × ℤ)
set_constant symbol value cs = (symbol, value) ∷ keep (λ c. not (c.0 == symbol)) cs

-- `relations.add` for every other symbol with a known difference.
abbrev relate_all : Text → (ℤ → ℤ) → List (Text × ℤ) → List Relation → List Relation
relate_all symbol f [] rs = rs
relate_all symbol f ((other, value) ∷ rest) rs =
    let more = relate_all symbol f rest rs in
    if other == symbol then more else canonical symbol other (f value) ∷ more

abbrev pub assign_constant : Text → ℤ → AffineFacts → AffineFacts
assign_constant symbol value facts = record {
  constants = set_constant symbol value facts.constants;
  relations =
      relate_all symbol (λ v. value -ℤ v) (set_constant symbol value facts.constants)
        facts.relations;
}

abbrev pub assign_base : Text → Text → ℤ → AffineFacts → AffineFacts
assign_base symbol base amount facts = record {
  constants = elim (constant_of facts base) [
    | some v ↦ set_constant symbol (v +ℤ amount) facts.constants
    | none ↦ facts.constants
  ];
  relations =
      if base == symbol
      then facts.relations
      else relate_all symbol (λ c. amount +ℤ c) (symbols_related_to facts base)
          (canonical symbol base amount ∷ facts.relations);
}

-- `AffineFacts.assign`, with the right-hand side parsed.
abbrev pub assigned : AffineFacts → Text → Option Affine → AffineFacts
assigned facts symbol none = facts
assigned facts symbol (some (none, value)) = assign_constant symbol value facts
assigned facts symbol (some (some base, amount)) = assign_base symbol base amount facts

unfoldable pub assign_facts : AffineFacts → Text → Node → AffineFacts
unfolding forget affine_rhs symbols_related_to canonical
assign_facts facts symbol rhs = assigned (forget facts symbol) symbol (affine_rhs rhs)

abbrev pub shift_constant : Text → ℤ → Text × ℤ → Text × ℤ
shift_constant symbol amount (name, value) =
    (name, if name == symbol then value +ℤ amount else value)

abbrev pub shift_relation : Text → ℤ → Relation → Relation
shift_relation symbol amount (first, (second, c)) = (
  first,
  (second, if first == symbol then c +ℤ amount else if second == symbol then c -ℤ amount else c),
)

unfoldable pub shift : AffineFacts → Text → ℤ → AffineFacts
shift facts symbol amount = record {
  constants = map (shift_constant symbol amount) facts.constants;
  relations = map (shift_relation symbol amount) facts.relations;
}

unfoldable pub join_affine : AffineFacts → AffineFacts → AffineFacts
join_affine left right = record {
  constants = keep (λ c. elem c right.constants) left.constants;
  relations = keep (λ r. elem r right.relations) left.relations;
}

-- What one declaration does.
unfoldable pub declare : Declaration → AffineFacts → AffineFacts
unfolding assign_facts forget
declare d facts = elim d.name [
  | none ↦ facts
  | some name ↦ elim d.init [ some e ↦ assign_facts facts name e | none ↦ forget facts name ]
]

abbrev pub declare_all : List Declaration → AffineFacts → AffineFacts
unfolding declare
declare_all [] facts = facts
declare_all (d ∷ ds) facts = declare_all ds (declare d facts)

abbrev pub step_or_forget : AffineFacts → Text → Option ℤ → AffineFacts
unfolding shift forget
step_or_forget facts symbol (some amount) = shift facts symbol amount
step_or_forget facts symbol none = forget facts symbol

-- The node's own effect on the facts.
unfoldable pub transfer_node : Statement → AffineFacts → AffineFacts
unfolding declare shift forget assign_facts integer
transfer_node (decl_list ds) facts = declare_all ds facts
transfer_node (decl d) facts = declare d facts
transfer_node (assignment assign (id s) e) facts = assign_facts facts s e
transfer_node (assignment add_assign (id s) e) facts = step_or_forget facts s (integer e)
transfer_node (assignment subtract_assign (id s) e) facts =
    step_or_forget facts s (negated (integer e))
transfer_node (assignment op (id s) e) facts = forget facts s
transfer_node (expression (unary_op increment (id s))) facts = shift facts s (pos 1)
transfer_node (expression (unary_op post_increment (id s))) facts = shift facts s (pos 1)
transfer_node (expression (unary_op decrement (id s))) facts = shift facts s (negsuc 0)
transfer_node (expression (unary_op post_decrement (id s))) facts = shift facts s (negsuc 0)
transfer_node node facts = facts

abbrev named : Option Text → List Text
named none = []
named (some name) = name ∷ []

abbrev named_all : List Declaration → List Text
named_all [] = []
named_all (d ∷ ds) = named d.name ++ named_all ds

-- The set `handled`.
unfoldable pub handled : Statement → List Text
handled (decl_list ds) = named_all ds
handled (decl d) = named d.name
handled (assignment op (id s) e) = s ∷ []
handled (expression (unary_op increment (id s))) = s ∷ []
handled (expression (unary_op post_increment (id s))) = s ∷ []
handled (expression (unary_op decrement (id s))) = s ∷ []
handled (expression (unary_op post_decrement (id s))) = s ∷ []
handled node = []

-- The loop over `writes`.
unfoldable pub forget_writes : List Text → List Text → AffineFacts → AffineFacts
unfolding forget
forget_writes done [] facts = facts
forget_writes done (w ∷ ws) facts =
    forget_writes done ws (if elem w done then facts else forget facts w)

-- `transfer_affine`.
unfoldable pub transfer_affine : Statement → List Text → AffineFacts → Bool → AffineFacts
unfolding transfer_node handled forget_writes
transfer_affine node writes facts has_unknown_call =
    if has_unknown_call
    then no_facts
    else forget_writes (handled node) writes (transfer_node node facts)

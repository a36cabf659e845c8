-- ===== src/Cfg/Ranges/Examples.antt =====
-- Tests and concrete runs for cgull/cfg/integer_ranges.py.
use cgull.Prelude.{
  ℕ, ℤ, pos, negsuc, ◌+ℤ◌, true, false, not, [], ◌∷◌, Option, none, some, ◌≡◌, ◌⊎◌, refl, sym, inl,
  inr, arith, if◌then◌else◌, Bool-cases, subst, Text, codes, list_beq, nat_eq, text_eq, eqb,
  eqb_iff, list_beq_iff,
}
use cgull.Cfg.Literal.{digit, digits_from, int_base, is_octal}
use cgull.Cfg.Ranges.{
  IntegerRange, between, exactly, hull, widen, intersect, fits_within, Context, starts_with,
  named_range, integer_type_range,
}
use cgull.Cfg.Ranges.Analysis.{Graph, Work, visit}
use cgull.Cfg.Ranges.Bounds.{In, widen-hull}
use cgull.Cfg.Ranges.Conditions.{
  condition_truth, supported, reads_unstable, merge, edge_state, resolves_to_char,
}
use cgull.Cfg.Ranges.Compared.{Truth}
use cgull.Cfg.Ranges.Edges.{condition_truth-Denotes, edge_state-IsTrue, merge-IsTrue}
use cgull.Cfg.Ranges.Expressions.{
  State, is_zero, compare_op, constant_predicate, compared, folded, static_range, type_of,
  expr_range, name_range, with_static, binary_range, common_range, is_char,
}
use cgull.Cfg.Ranges.Fits.{
  destination_range, or_portable, HeldBy, proves_expression_fits, proves_expression_fits_lem,
}
use cgull.Cfg.Ranges.Literals.{
  fixed_limits, limit_aliases, named_limit, literal, drop_suffix, constant_binary,
}
use cgull.Cfg.Ranges.Meaning.{Values, Denotes, IsTrue}
use cgull.Cfg.Ranges.Operators.{Operated}
use cgull.Cfg.Ranges.Types.{Sign, signed, Holds, layout_of}
use cgull.Cfg.Ranges.Sound.{expr_range-In}
use cgull.Cfg.Ranges.Events.{Writes, is_followed, Happens}
use cgull.Cfg.Ranges.Steps.{transfer-IsTrue}
use cgull.Cfg.Ranges.Transfer.{Event, transfer}
use cgull.Cfg.Ranges.Visits.{Ready, Stable, visit-Stable}
use cgull.Cfg.Syntax.{Statement, Node, id, constant, binary_op, plus, less, assignment, assign}

abbrev x_name : Text
x_name = codes "x"

abbrev x_type : Node → Option Text
x_type (id n) = if list_beq n x_name then some (codes "int") else none
x_type e = none

-- One variable, of a type of two bytes.
abbrev unit : Context
unit = record {
  resolved = λ t. some t;
  byte_size = λ t. some 2;
  infer_type = x_type;
  infer_integer_type = λ e. none;
  usual_type = λ a b. none;
  has_context = true;
  character = λ t. none;
}

abbrev or_value : Option ℤ → ℤ → ℤ
or_value (some k) v = k
or_value none v = v

unfoldable values : ℕ → Values
unfolding named_limit literal list_beq
values k = record {
  variables = λ n. or_value (named_limit unit n) (if list_beq n x_name then pos k else pos 0);
  constants = λ x. or_value (literal unit x) (pos 0);
}

abbrev five : State
five = (x_name, between (pos 0) (pos 5)) ∷ []

values-typed :
    (k : ℕ)
    → Holds (signed, 2) ((values k).variables x_name)
    → (n t : Text) (p : Sign × ℕ) → x_type (id n) ≡ some t
    → layout_of unit t ≡ some p
    → Holds p ((values k).variables n)
unfolding list_beq starts_with
values-typed k h n t p q e = elim (Bool-cases (list_beq n x_name)) [
  | inl same ↦
      let named = (list_beq_iff n x_name).0 same in
      let int : codes "int" ≡ t = (let q1 = rw same at q in cc q1) in
      let known = subst (λ z. layout_of unit z ≡ some p) (sym int) e in
      let own : (signed, 2) ≡ p = cc known in
      subst (λ m. Holds p ((values k).variables m)) (sym named)
        (subst (λ z. Holds z ((values k).variables x_name)) own h)
  | inr differs ↦ absurd (let q1 = rw differs at q in cc q1)
]

values-limits :
    (k : ℕ) (n : Text) (v : ℤ) → named_limit unit n ≡ some v → (values k).variables n ≡ v
unfolding values
values-limits k n v q = rw q refl

values-literals : (k : ℕ) (x : Text) (v : ℤ) → literal unit x ≡ some v → (values k).constants x ≡ v
unfolding values
values-literals k x v q = rw q refl

nothing-IsTrue_5 : IsTrue unit (values 5) []
unfolding values named_limit list_beq ◌+ℤ◌
nothing-IsTrue_5 = record {
  held = tt;
  typed = values-typed 5 (omega arith, omega arith);
  limits = values-limits 5;
  literals = values-literals 5;
}

nothing-IsTrue_6 : IsTrue unit (values 6) []
unfolding values named_limit list_beq ◌+ℤ◌
nothing-IsTrue_6 = record {
  held = tt;
  typed = values-typed 6 (omega arith, omega arith);
  limits = values-limits 6;
  literals = values-literals 6;
}

five-IsTrue : IsTrue unit (values 5) five
unfolding values named_limit list_beq
five-IsTrue = record {
  held = ((omega arith, omega arith), tt);
  typed = nothing-IsTrue_5.typed;
  limits = nothing-IsTrue_5.limits;
  literals = nothing-IsTrue_5.literals;
}

abbrev ten : Node
ten = constant (codes "int") (codes "10")

ten-Denotes : Denotes unit (values 5) ten (pos 10)
unfolding Denotes values literal drop_suffix int_base is_octal starts_with digits_from digit
    list_beq
ten-Denotes = refl

expr_range-In_example : In (pos 15) (between (pos 10) (pos 15))
unfolding Denotes Operated values named_limit expr_range literal drop_suffix int_base is_octal
    starts_with digits_from digit list_beq name_range with_static static_range type_of
    integer_type_range named_range intersect binary_range folded constant_predicate common_range
    constant_binary ◌+ℤ◌
expr_range-In_example =
    expr_range-In unit (values 5) five (binary_op plus (id x_name) ten) (pos 15)
      (between (pos 10) (pos 15)) five-IsTrue (pos 5, pos 10, refl, ten-Denotes, refl) refl

abbrev zero_to_five : IntegerRange
zero_to_five = between (pos 0) (pos 5)

abbrev next_range : IntegerRange
next_range = widen zero_to_five (hull zero_to_five (between (pos 1) (pos 6)))

widen-hull_example :
    ((v : ℤ) → In v zero_to_five ⊎ In v (between (pos 1) (pos 6)) → In v next_range)
    × ((next_range.lower ≡ some (pos 0)) ⊎ (next_range.lower ≡ none))
    × ((next_range.upper ≡ some (pos 5)) ⊎ (next_range.upper ≡ none))
widen-hull_example = widen-hull zero_to_five (between (pos 1) (pos 6))

abbrev less_than_ten : Node
less_than_ten = binary_op less (id x_name) ten

abbrev exactly_five : State
exactly_five = (x_name, exactly (pos 5)) ∷ []

exactly_five-IsTrue : IsTrue unit (values 5) exactly_five
unfolding values named_limit list_beq
exactly_five-IsTrue = record {
  held = ((omega arith, omega arith), tt);
  typed = nothing-IsTrue_5.typed;
  limits = nothing-IsTrue_5.limits;
  literals = nothing-IsTrue_5.literals;
}

five_is_true : not (is_zero (pos 5)) ≡ true
unfolding condition_truth supported reads_unstable values Denotes named_limit expr_range list_beq
    name_range with_static static_range type_of integer_type_range named_range starts_with intersect
five_is_true =
    condition_truth-Denotes unit (values 5) [] exactly_five (id x_name) (pos 5) true
      exactly_five-IsTrue refl refl

edge_state-IsTrue_example :
    (t : State) × (edge_state unit [] five less_than_ten true ≡ some t) × IsTrue unit (values 5) t
unfolding Denotes Operated Truth values named_limit compare_op list_beq folded compared
    constant_predicate common_range constant_binary ◌+ℤ◌
edge_state-IsTrue_example =
    edge_state-IsTrue unit (values 5) [] five less_than_ten (pos 1) true five-IsTrue
      (
        pos 5,
        pos 10,
        refl,
        ten-Denotes,
        (pos 5, pos 10, tt, tt, (λ h. refl, λ h. absurd (h (omega arith)))),
      )
      refl (pos 5, pos 10, refl, ten-Denotes, refl)

five_merged : IsTrue unit (values 5) (merge five [])
five_merged = merge-IsTrue unit (values 5) five [] (inl five-IsTrue)

abbrev add_one : Statement
add_one =
    assignment assign (id x_name) (binary_op plus (id x_name) (constant (codes "int") (codes "1")))

abbrev add_one_event : Event
add_one_event = record { is_unknown_control_flow = false; node = some add_one; has_calls = true }

add_one-Happens : Happens unit (values 5) (values 6) [] true (some add_one)
unfolding Happens Writes Denotes Operated values named_limit list_beq literal drop_suffix int_base
    is_octal starts_with digits_from digit resolves_to_char is_char ◌+ℤ◌
add_one-Happens = record {
  writes = (pos 6, (pos 5, pos 1, refl, refl, refl), refl);
  keeps = λ n d e. elim (Bool-cases (list_beq n x_name)) [
    | inl same ↦ absurd (let d1 = rw same at d in cc d1)
    | inr differs ↦ rw (differs, values) refl
  ];
}

add_one_followed : (node : Statement) → some add_one ≡ some node → is_followed node ≡ true
add_one_followed node q =
    let same : add_one ≡ node = cc q in subst (λ z. is_followed z ≡ true) same refl

transfer-IsTrue_example : IsTrue unit (values 6) (transfer unit [] [] add_one_event five)
transfer-IsTrue_example =
    transfer-IsTrue unit (values 5) (values 6) [] [] add_one_event five five-IsTrue
      (λ known node q. add_one_followed node q) (λ known. add_one-Happens) nothing-IsTrue_6

proves_expression_fits_lem_example : HeldBy unit (codes "uint") (pos 5)
unfolding destination_range or_portable values Denotes named_limit expr_range list_beq name_range
    with_static static_range type_of integer_type_range named_range starts_with intersect
    fits_within proves_expression_fits
proves_expression_fits_lem_example =
    proves_expression_fits_lem unit (values 5) five (id x_name) (codes "uint") (pos 5) five-IsTrue
      refl refl

-- A loop that adds one to the variable while it is less than ten.
abbrev counting : Graph
counting n =
    if eqb n 0
    then record { event = add_one_event; condition = some less_than_ten; successors = 0 ∷ 1 ∷ [] }
    else record { event = add_one_event; condition = none; successors = [] }

abbrev at_entry : Work
at_entry = record { incoming = (0, five) ∷ []; facts_before = []; processed = []; queue = 0 ∷ [] }

at_entry-Stable : Stable unit [] [] counting at_entry
unfolding Stable
at_entry-Stable n p f = absurd (cc p)

at_entry-Ready : Ready at_entry
at_entry-Ready n q = elim (Bool-cases (eqb n 0)) [
  | inl same ↦ (five, let e = (eqb_iff n 0).0 same in rw e refl)
  | inr differs ↦ absurd (let q1 = rw differs at q in cc q1)
]

visit-Stable_example :
    (after : Work) × (visit unit [] [] counting 0 [] at_entry ≡ some after)
    × Stable unit [] [] counting after
    × Ready after
visit-Stable_example =
    visit-Stable unit [] [] counting 0 [] at_entry refl at_entry-Ready at_entry-Stable

octal_literal : literal unit (codes "017") ≡ some (pos 15)
unfolding literal drop_suffix int_base is_octal starts_with digits_from digit list_beq
octal_literal = refl

hex_literal : literal unit (codes "0x1FuL") ≡ some (pos 31)
unfolding literal drop_suffix int_base is_octal starts_with digits_from digit list_beq
hex_literal = refl

decimal_literal : literal unit (codes " 42l") ≡ some (pos 42)
unfolding literal drop_suffix int_base is_octal starts_with digits_from digit list_beq
decimal_literal = refl

read_limits :
    (named_limit unit (codes "INT8_MIN") ≡ some (negsuc 127))
    × (named_limit unit (codes "UINT16_MAX") ≡ some (pos 65535))
    × (named_limit unit (codes "INT_MAX") ≡ some (pos 32767))
    × (named_limit unit (codes "USHRT_MAX") ≡ some (pos 65535))
unfolding named_limit fixed_limits limit_aliases integer_type_range named_range starts_with list_beq
read_limits = (refl, refl, refl, refl)

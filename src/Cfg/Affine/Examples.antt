-- ===== src/Cfg/Affine/Examples.antt =====
-- Runs of the affine facts of cgull/cfg/affine_relations.py, and their theorems at an event.
use cgull.Prelude.{
  ℤ, pos, ◌+ℤ◌, ◌-ℤ◌, false, [], ◌∷◌, some, ◌≡◌, ◌⊎◌, refl, Text, codes, text_eq, list_beq,
  if◌then◌else◌, ◌==◌,
}
use cgull.Preprocessor.Expression.Order.{compare_text}
use cgull.Cfg.Syntax.{id, constant, binary_op, plus, assign, assignment, Statement}
use cgull.Cfg.Affine.{
  AffineFacts, no_facts, token_value, transfer_affine, join_affine, offset, canonical, integer,
  affine_rhs,
}
use cgull.Cfg.Affine.Assign.{value}
use cgull.Cfg.Affine.Holds.{Values, Holds}
use cgull.Cfg.Affine.Query.{join-offset}
use cgull.Cfg.Affine.Transfer.{Runs, transfer_affine-Holds}

abbrev i : Text
i = codes "i"

abbrev j : Text
j = codes "j"

-- `i = j + 010;`
abbrev step : Statement
step = assignment assign (id i) (binary_op plus (id j) (constant (codes "int") (codes "010")))

-- Where `j` is 2.
abbrev two : AffineFacts
two = record { constants = (j, pos 2) ∷ []; relations = [] }

abbrev moved : AffineFacts
moved = transfer_affine step (i ∷ []) two false

differences : (offset moved i j ≡ some (pos 8)) × (offset moved i i ≡ some (pos 0))
unfolding transfer_affine offset canonical compare_text affine_rhs integer list_beq ◌+ℤ◌ ◌-ℤ◌
differences = (refl, refl)

known_value : moved.constants ≡ (i, pos 10) ∷ (j, pos 2) ∷ []
unfolding transfer_affine canonical affine_rhs integer list_beq ◌+ℤ◌
known_value = refl

abbrev before : Values
before n = pos 2

abbrev after : Values
after n = if n == i then pos 10 else pos 2

two-Holds : Holds before two
two-Holds = ((refl, tt), tt)

step-Runs : Runs step (i ∷ []) before after
unfolding value list_beq ◌+ℤ◌ token_value
step-Runs = record {
  between = after;
  effect = (pos 10, λ w q. cc q, record { own = refl; others = λ n q. rw q refl });
  unwritten = λ n q. refl;
}

transfer_affine-Holds_example : Holds after moved
transfer_affine-Holds_example =
    transfer_affine-Holds step (i ∷ []) false before after two (λ q. step-Runs) two-Holds

join-offset_example :
    (Holds before two ⊎ Holds before no_facts → Holds before (join_affine two no_facts))
    × ((x y : Text) (c : ℤ) → Holds before two → offset two x y ≡ some c → before x ≡ before y +ℤ c)
join-offset_example = join-offset before two no_facts

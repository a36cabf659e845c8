-- ===== src/Cfg/Affine/Transfer.antt =====
-- `transfer_affine` of cgull/cfg/affine_relations.py: facts that hold before an event hold after
-- it.
use cgull.Prelude.{
  ℤ, pos, negsuc, ◌+ℤ◌, ◌-ℤ◌, neg_ℤ, int_laws, int_eq, Bool, true, false, not, ◌&&◌, List, [], ◌∷◌,
  Option, none, some, ◌≡◌, refl, ap, sym, ◌∙◌, inl, inr, arith, if◌then◌else◌, Text, text_eq,
  pair_eq, ◌==◌, elem, All-imp, Bool-cases,
}
use cgull.Cfg.Syntax.{
  Node, id, unary_op, increment, post_increment, decrement, post_decrement, assign, add_assign,
  subtract_assign, other_assign, Declaration, Statement, decl_list, decl, assignment, expression,
}
use cgull.Cfg.Affine.{
  AffineFacts, forget, shift, integer, negated, declare, declare_all, step_or_forget, transfer_node,
  handled, forget_writes, transfer_affine,
}
use cgull.Cfg.Affine.Assign.{Becomes, value, integer-value, forget-Holds}
use cgull.Cfg.Affine.Holds.{Values, ConstantHolds, RelationHolds, Holds}
use cgull.Cfg.Affine.Sound.{assign-Holds}
use cgull.Cfg.Affine.Query.{shift-Holds}

-- One declaration: its variable gets the value of the initializer, or any value.
abbrev pub Declares : Declaration → Values → Values → Type 0
Declares d before after = elim d.name [
  | none ↦ (n : Text) → after n ≡ before n
  | some name ↦
      (v : ℤ) × ((e : Node) → d.init ≡ some e → (w : ℤ) → value before e ≡ some w → v ≡ w)
      × Becomes before name v after
]

abbrev pub DeclaresAll : List Declaration → Values → Values → Type 0
DeclaresAll [] before after = (n : Text) → after n ≡ before n
DeclaresAll (d ∷ ds) before after =
    (between : Values) × Declares d before between × DeclaresAll ds between after

-- What the node itself does to the values: a variable that is assigned gets the value of the
-- right-hand side where that has one, and any value otherwise.
abbrev pub Effect : Statement → Values → Values → Type 0
Effect (decl_list ds) before after = DeclaresAll ds before after
Effect (decl d) before after = Declares d before after
Effect (assignment assign (id s) e) before after =
    (v : ℤ) × ((w : ℤ) → value before e ≡ some w → v ≡ w) × Becomes before s v after
Effect (assignment add_assign (id s) e) before after =
    (v : ℤ) × ((w : ℤ) → value before e ≡ some w → v ≡ before s +ℤ w) × Becomes before s v after
Effect (assignment subtract_assign (id s) e) before after =
    (v : ℤ) × ((w : ℤ) → value before e ≡ some w → v ≡ before s -ℤ w) × Becomes before s v after
Effect (assignment other_assign (id s) e) before after = (v : ℤ) × Becomes before s v after
Effect (expression (unary_op increment (id s))) before after =
    Becomes before s (before s +ℤ pos 1) after
Effect (expression (unary_op post_increment (id s))) before after =
    Becomes before s (before s +ℤ pos 1) after
Effect (expression (unary_op decrement (id s))) before after =
    Becomes before s (before s -ℤ pos 1) after
Effect (expression (unary_op post_decrement (id s))) before after =
    Becomes before s (before s -ℤ pos 1) after
Effect node before after = (n : Text) → after n ≡ before n

Holds-same :
    (before after : Values) (facts : AffineFacts)
    → ((n : Text) → after n ≡ before n)
    → Holds before facts
    → Holds after facts
Holds-same before after facts same h = (
  All-imp (ConstantHolds before) (ConstantHolds after) facts.constants (λ c q. same c.0 ∙ q) h.0,
  All-imp (RelationHolds before) (RelationHolds after) facts.relations
      (λ r q. (q.0, same r.0 ∙ q.1 ∙ ap (λ x. x +ℤ r.1.1) (sym (same r.1.0)))) h.1,
)

declare-Holds :
    (d : Declaration) (before after : Values) (facts : AffineFacts)
    → Declares d before after
    → Holds before facts
    → Holds after (declare d facts)
unfolding declare
declare-Holds d before after facts run h = named_case d.name d.init run
  where
    named_case :
        (n : Option Text) (i : Option Node)
        → Declares (record { name = n; init = i }) before after
        → Holds after (declare (record { name = n; init = i }) facts)
    named_case none i run = Holds-same before after facts run h
    named_case (some name) none (v, known, b) = forget-Holds before after name b.others facts h
    named_case (some name) (some e) (v, known, b) =
        assign-Holds before after name v e facts (λ w q. known e refl w q) b h

declare_all-Holds :
    (ds : List Declaration) (before after : Values) (facts : AffineFacts)
    → DeclaresAll ds before after
    → Holds before facts
    → Holds after (declare_all ds facts)
unfolding declare
declare_all-Holds [] before after facts run h = Holds-same before after facts run h
declare_all-Holds (d ∷ ds) before after facts (between, first, rest) h =
    declare_all-Holds ds between after (declare d facts) rest
      (declare-Holds d before between facts first h)

step-Holds :
    (before after : Values) (symbol : Text) (v : ℤ) (amount : Option ℤ) (facts : AffineFacts)
    → ((k : ℤ) → amount ≡ some k → v ≡ before symbol +ℤ k)
    → Becomes before symbol v after
    → Holds before facts
    → Holds after (step_or_forget facts symbol amount)
unfolding shift forget
step-Holds before after symbol v none facts known b h =
    forget-Holds before after symbol b.others facts h
step-Holds before after symbol v (some k) facts known b h =
    shift-Holds before after symbol k (record { own = b.own ∙ known k refl; others = b.others })
      facts h

negated-some : (o : Option ℤ) (k : ℤ) → negated o ≡ some k → (w : ℤ) × (o ≡ some w) × (neg_ℤ w ≡ k)
negated-some none k h = absurd (cc h)
negated-some (some w) k h = (w, refl, cc h)

back_one : (x : ℤ) → x -ℤ pos 1 ≡ x +ℤ negsuc 0
back_one x = omega int_laws

transfer_node-Holds :
    (node : Statement) (before after : Values) (facts : AffineFacts)
    → Effect node before after
    → Holds before facts
    → Holds after (transfer_node node facts)
unfolding transfer_node shift forget
transfer_node-Holds (decl_list ds) before after facts run h =
    declare_all-Holds ds before after facts run h
transfer_node-Holds (decl d) before after facts run h = declare-Holds d before after facts run h
transfer_node-Holds (assignment assign (id s) e) before after facts (v, known, b) h =
    assign-Holds before after s v e facts known b h
transfer_node-Holds (assignment add_assign (id s) e) before after facts (v, known, b) h =
    step-Holds before after s v (integer e) facts (λ k q. known k (integer-value before e k q)) b h
transfer_node-Holds (assignment subtract_assign (id s) e) before after facts (v, known, b) h =
    step-Holds before after s v (negated (integer e)) facts
      (λ k q.
        let (w, i, n) = negated-some (integer e) k q in
        let difference : before s -ℤ w ≡ before s +ℤ neg_ℤ w = omega int_laws in
        known w (integer-value before e w i) ∙ difference ∙ ap (λ z. before s +ℤ z) n)
      b h
transfer_node-Holds (assignment other_assign (id s) e) before after facts (v, b) h =
    forget-Holds before after s b.others facts h
transfer_node-Holds (expression (unary_op increment (id s))) before after facts b h =
    shift-Holds before after s (pos 1) b facts h
transfer_node-Holds (expression (unary_op post_increment (id s))) before after facts b h =
    shift-Holds before after s (pos 1) b facts h
transfer_node-Holds (expression (unary_op decrement (id s))) before after facts b h =
    shift-Holds before after s (negsuc 0)
      (record { own = b.own ∙ back_one (before s); others = b.others }) facts h
transfer_node-Holds (expression (unary_op post_decrement (id s))) before after facts b h =
    shift-Holds before after s (negsuc 0)
      (record { own = b.own ∙ back_one (before s); others = b.others }) facts h
transfer_node-Holds node before after facts run h = Holds-same before after facts run h

-- A run of an event: its node's effect, and then any change of the other variables that it
-- writes.
pub record Runs (node : Statement) (writes : List Text) (before after : Values) : Type 0 where
  pub between : Values
  pub effect : Effect node before between
  pub unwritten :
      (n : Text) → (elem n writes && not (elem n (handled node))) ≡ false → after n ≡ between n

forget_writes-Holds :
    (done ws : List Text) (before after : Values) (facts : AffineFacts)
    → ((n : Text) → (elem n ws && not (elem n done)) ≡ false → after n ≡ before n)
    → Holds before facts
    → Holds after (forget_writes done ws facts)
unfolding forget_writes
forget_writes-Holds done [] before after facts same h =
    Holds-same before after facts (λ n. same n refl) h
forget_writes-Holds done (w ∷ ws) before after facts same h = elim (Bool-cases (elem w done)) [
  | inl kept ↦
      rw (kept, forget_writes)
        (forget_writes-Holds done ws before after facts
          (λ n q. same n (ground (arith, q, kept, text_eq.beq_iff n w))) h)
  | inr lost ↦
      let mid : Values = λ n. if n == w then after n else before n in
      rw (lost, forget_writes)
        (forget_writes-Holds done ws mid after (forget facts w)
          (λ n q. elim (Bool-cases (n == w)) [
            | inl here ↦ rw here refl
            | inr there ↦ rw there (same n (ground (arith, q, there)))
          ])
          (forget-Holds before mid w (λ n q. rw q refl) facts h))
]

-- Facts that hold before an event hold after every run of it, where the event makes no unknown
-- call; after an unknown call no fact is left.
pub transfer_affine-Holds :
    (node : Statement) (writes : List Text) (has_unknown_call : Bool) (before after : Values)
    (facts : AffineFacts)
    → (has_unknown_call ≡ false → Runs node writes before after)
    → Holds before facts
    → Holds after (transfer_affine node writes facts has_unknown_call)
unfolding transfer_affine
transfer_affine-Holds node writes true before after facts run h = (tt, tt)
transfer_affine-Holds node writes false before after facts run h =
    let r = run refl in
    forget_writes-Holds (handled node) writes r.between after (transfer_node node facts) r.unwritten
      (transfer_node-Holds node before r.between facts r.effect h)

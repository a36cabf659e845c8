-- ===== src/Cfg/Affine/Holds.antt =====
-- What the affine facts of cgull/cfg/affine_relations.py say of the values of the variables, and
-- that the operations on facts keep them true. Values are mathematical integers.
use cgull.Prelude.{
  ℤ, ◌+ℤ◌, neg_ℤ, int_laws, int_eq, false, not, ◌&&◌, List, [], ◌∷◌, some, ◌≡◌, ◌≢◌, ap, sym, ◌∙◌,
  inl, inr, arith, if◌then◌else◌, Text, text_eq, pair_eq, ◌==◌, elem, lookup, lookup-cons, All,
  Bool-cases,
}
use cgull.Preprocessor.Expression.Order.{compare_text, is_lt}
use cgull.Cfg.Affine.{
  Relation, canonical, AffineFacts, symbols_related_to, related, find_offset, relate_all,
}

-- The values of the variables at a point of a run.
abbrev pub Values : Type 0
Values = Text → ℤ

abbrev pub ConstantHolds : Values → Text × ℤ → Type 0
ConstantHolds values c = values c.0 ≡ c.1

-- A relation is between two different variables.
abbrev pub RelationHolds : Values → Relation → Type 0
RelationHolds values r = ((r.0 == r.1.0) ≡ false) × (values r.0 ≡ values r.1.0 +ℤ r.1.1)

abbrev pub Holds : Values → AffineFacts → Type 0
Holds values facts =
    All (ConstantHolds values) facts.constants × All (RelationHolds values) facts.relations

pub apart_sym : (a b : Text) → (a == b) ≡ false → (b == a) ≡ false
apart_sym a b h = ground (arith, text_eq.beq_iff a b, text_eq.beq_iff b a)

swap_offset : (a b k : ℤ) → a ≡ b +ℤ k → b ≡ a +ℤ neg_ℤ k
swap_offset a b k h = rw h (omega int_laws)

module _ (values : Values) where
  pub canonical-Holds :
      (left right : Text) (k : ℤ)
      → (left == right) ≡ false
      → values left ≡ values right +ℤ k
      → RelationHolds values (canonical left right k)
  unfolding canonical
  canonical-Holds left right k ne h = elim (Bool-cases (is_lt (compare_text left right))) [
    | inl lt ↦ rw lt (ne, h)
    | inr ge ↦ rw ge (apart_sym left right ne, swap_offset (values left) (values right) k h)
  ]

  pub lookup-Holds :
      (cs : List (Text × ℤ)) (symbol : Text) (v : ℤ)
      → All (ConstantHolds values) cs
      → lookup symbol cs ≡ some v
      → values symbol ≡ v
  lookup-Holds [] symbol v h e = absurd (cc e)
  lookup-Holds ((name, w) ∷ cs) symbol v h e = elim (lookup-cons symbol name w cs e) [
    | inl (here, same) ↦ ap values (sym here) ∙ h.0 ∙ same
    | inr (_, later) ↦ lookup-Holds cs symbol v h.1 later
  ]

  pub find_offset-Holds :
      (left first second : Text) (rs : List Relation) (c : ℤ)
      → All (RelationHolds values) rs
      → find_offset left first second rs ≡ some c
      → (left ≡ first → values first ≡ values second +ℤ c)
        × (left ≢ first → values second ≡ values first +ℤ c)
  find_offset-Holds left first second [] c h e = absurd (cc e)
  find_offset-Holds left first second ((a, (b, k)) ∷ rs) c h e =
      elim (Bool-cases (a == first && b == second)) [
        | inr other ↦ find_offset-Holds left first second rs c h.1 (rw other at e)
        | inl this ↦
            let e1 : (if left == first then k else neg_ℤ k) ≡ c = ground (arith, this, e) in
            let pa : a ≡ first = ground (arith, this, text_eq.beq_iff a first) in
            let pb : b ≡ second = ground (arith, this, text_eq.beq_iff b second) in
            let own : values first ≡ values second +ℤ k =
              ap values (sym pa) ∙ h.0.1 ∙ ap (λ x. values x +ℤ k) pb in
            (
              λ q.
                  let c1 : k ≡ c = ground (arith, e1, (text_eq.beq_iff left first).1 q) in
                  own ∙ ap (λ x. values second +ℤ x) c1,
              λ ne.
                  let c1 : neg_ℤ k ≡ c = ground (arith, e1, text_eq.beq_iff left first, ne) in
                  swap_offset (values first) (values second) k own ∙ ap (λ x. values first +ℤ x) c1,
            )
      ]

  related-Holds :
      (symbol : Text) (seen : List Text) (rs : List Relation)
      → All (RelationHolds values) rs
      → All (λ (p : Text × ℤ). values symbol ≡ values p.0 +ℤ p.1) (related symbol seen rs)
  related-Holds symbol seen [] h = tt
  related-Holds symbol seen ((a, (b, k)) ∷ rs) h =
      elim (Bool-cases (a == symbol && not (elem b seen))) [
        | inl first ↦
            let q : a ≡ symbol = ground (arith, first, text_eq.beq_iff a symbol) in
            rw first (ap values (sym q) ∙ h.0.1, related-Holds symbol (b ∷ seen) rs h.1)
        | inr other ↦ elim (Bool-cases (b == symbol && not (elem a seen))) [
          | inl second ↦
              let q : b ≡ symbol = ground (arith, second, text_eq.beq_iff b symbol) in
              rw (other, second)
                (
                  ap values (sym q) ∙ swap_offset (values a) (values b) k h.0.1,
                  related-Holds symbol (a ∷ seen) rs h.1,
                )
          | inr neither ↦ rw (other, neither) (related-Holds symbol seen rs h.1)
        ]
      ]

  pub symbols_related_to-Holds :
      (facts : AffineFacts) (symbol : Text)
      → Holds values facts
      → All (λ (p : Text × ℤ). values symbol ≡ values p.0 +ℤ p.1) (symbols_related_to facts symbol)
  unfolding symbols_related_to
  symbols_related_to-Holds facts symbol h =
      (omega int_laws, related-Holds symbol (symbol ∷ []) facts.relations h.1)

  pub relate_all-Holds :
      (symbol : Text) (f : ℤ → ℤ) (ps : List (Text × ℤ)) (rs : List Relation)
      → All (λ (p : Text × ℤ). (p.0 == symbol) ≡ false → values symbol ≡ values p.0 +ℤ f p.1) ps
      → All (RelationHolds values) rs
      → All (RelationHolds values) (relate_all symbol f ps rs)
  unfolding canonical
  relate_all-Holds symbol f [] rs h k = k
  relate_all-Holds symbol f ((other, v) ∷ ps) rs h k = elim (Bool-cases (other == symbol)) [
    | inl same ↦ rw same (relate_all-Holds symbol f ps rs h.1 k)
    | inr ne ↦ rw ne (
      canonical-Holds symbol other (f v) (apart_sym other symbol ne) (h.0 ne),
      relate_all-Holds symbol f ps rs h.1 k,
    )
  ]

-- ===== src/Cfg/Affine/Query.antt =====
-- Shifts, joins and queries of affine facts.
use cgull.Prelude.{
  ℤ, pos, ◌+ℤ◌, ◌-ℤ◌, int_laws, int_eq, true, false, List, [], ◌∷◌, some, ◌≡◌, ◌≢◌, ◌⊎◌, refl, ap,
  sym, ◌∙◌, subst, inl, inr, arith, if◌then◌else◌, Text, text_eq, pair_eq, ◌==◌, elem, keep, lookup,
  All, All-keep, All-map, Bool-cases, Option-cases, Eq,
}
use cgull.Preprocessor.Expression.Order.{compare_text, is_lt}
use cgull.Cfg.Affine.{
  Relation, canonical, AffineFacts, offset, find_offset, shift, join_affine, shift_constant,
  shift_relation, both,
}
use cgull.Cfg.Affine.Assign.{Becomes}
use cgull.Cfg.Affine.Holds.{
  Values, ConstantHolds, RelationHolds, Holds, lookup-Holds, find_offset-Holds,
}

module _ (before after : Values) (symbol : Text) (amount : ℤ)
    (b : Becomes before symbol (before symbol +ℤ amount) after) where
  moved : (n : Text) → after n ≡ (if n == symbol then before n +ℤ amount else before n)
  moved n = elim (Bool-cases (n == symbol)) [
    | inl same ↦
        let q = (text_eq.beq_iff n symbol).0 same in
        rw same (ap after q ∙ b.own ∙ ap (λ x. before x +ℤ amount) (sym q))
    | inr other ↦ rw other (b.others n other)
  ]

  shift_constant-Holds :
      (c : Text × ℤ) → ConstantHolds before c → ConstantHolds after (shift_constant symbol amount c)
  shift_constant-Holds c h = moved c.0 ∙ ap (λ x. if c.0 == symbol then x +ℤ amount else x) h

  shift_relation-Holds :
      (r : Relation) → RelationHolds before r → RelationHolds after (shift_relation symbol amount r)
  shift_relation-Holds r (apart, h) = (
    apart,
    elim (Bool-cases (r.0 == symbol)) [
      | inl first ↦
          let away : (r.1.0 == symbol) ≡ false = ground (
            arith,
            text_eq.beq_iff r.0 symbol,
            text_eq.beq_iff r.1.0 symbol,
            text_eq.beq_iff r.0 r.1.0,
          ) in
          let left : after r.0 ≡ before r.0 +ℤ amount = rw first at (moved r.0) in
          let right : after r.1.0 ≡ before r.1.0 = rw away at (moved r.1.0) in
          rw (first, left, right, h) (omega int_laws)
      | inr away ↦
          let left : after r.0 ≡ before r.0 = rw away at (moved r.0) in
          elim (Bool-cases (r.1.0 == symbol)) [
            | inl second ↦
                let right : after r.1.0 ≡ before r.1.0 +ℤ amount = rw second at (moved r.1.0) in
                rw (away, second, left, right, h) (omega int_laws)
            | inr other ↦
                let right : after r.1.0 ≡ before r.1.0 = rw other at (moved r.1.0) in
                rw (away, other, left, right) h
          ]
    ],
  )

  pub shift-Holds :
      (facts : AffineFacts) → Holds before facts → Holds after (shift facts symbol amount)
  unfolding shift
  shift-Holds facts h = (
    All-map (ConstantHolds before) (ConstantHolds after) (shift_constant symbol amount)
        facts.constants shift_constant-Holds h.0,
    All-map (RelationHolds before) (RelationHolds after) (shift_relation symbol amount)
        facts.relations shift_relation-Holds h.1,
  )

All-elem {ℓ κ} :
    {A : Type ℓ} ⦃e : Eq A⦄ (P : A → Type κ) (x : A) (xs : List A)
    → All P xs
    → elem x xs ≡ true
    → P x
All-elem P x [] h m = absurd (cc m)
All-elem ⦃e⦄ P x (y ∷ xs) h m = elim (Bool-cases (x == y)) [
  | inl same ↦ subst P (sym ((e.beq_iff x y).0 same)) h.0
  | inr other ↦ All-elem P x xs h.1 (ground (arith, other, m))
]

keep-shared {ℓ κ} :
    {A : Type ℓ} ⦃e : Eq A⦄ (P : A → Type κ) (xs ys : List A)
    → All P ys
    → All P (keep (λ x. elem x ys) xs)
keep-shared P [] ys h = tt
keep-shared P (x ∷ xs) ys h = elim (Bool-cases (elem x ys)) [
  | inl shared ↦ rw shared (All-elem P x ys h shared, keep-shared P xs ys h)
  | inr missing ↦ rw missing (keep-shared P xs ys h)
]

difference-Holds :
    (values : Values) (cs : List (Text × ℤ)) (x y : Text) (c : ℤ)
    → All (ConstantHolds values) cs
    → both (λ a b. a -ℤ b) (lookup x cs) (lookup y cs) ≡ some c
    → values x ≡ values y +ℤ c
difference-Holds values cs x y c h e = elim (Option-cases (lookup x cs)) [
  | inl no_x ↦ absurd (let e1 = rw no_x at e in cc e1)
  | inr (v, vx) ↦ elim (Option-cases (lookup y cs)) [
    | inl no_y ↦ absurd (let e1 = rw (vx, no_y) at e in cc e1)
    | inr (w, wy) ↦
        let d : v -ℤ w ≡ c = (let e1 = rw (vx, wy) at e in cc e1) in
        let sum : v ≡ w +ℤ (v -ℤ w) = omega int_laws in
        rw (lookup-Holds values cs x v h vx, lookup-Holds values cs y w h wy)
          (sum ∙ ap (λ z. w +ℤ z) d)
  ]
]

offset-Holds :
    (values : Values) (facts : AffineFacts) (x y : Text) (c : ℤ)
    → Holds values facts
    → offset facts x y ≡ some c
    → values x ≡ values y +ℤ c
unfolding offset canonical
offset-Holds values facts x y c h e = elim (Bool-cases (x == y)) [
  | inl same ↦
      let zero_offset : pos 0 ≡ c = (let e1 = rw same at e in cc e1) in
      let q = (text_eq.beq_iff x y).0 same in
      let none_added : values y ≡ values y +ℤ pos 0 = omega int_laws in
      ap values q ∙ none_added ∙ ap (λ z. values y +ℤ z) zero_offset
  | inr other ↦ elim (Bool-cases (is_lt (compare_text x y))) [
    | inl lt ↦ elim (Option-cases (find_offset x x y facts.relations)) [
      | inr (k, f) ↦
          let q : k ≡ c = (let e1 = rw (other, lt, f) at e in cc e1) in
          (find_offset-Holds values x x y facts.relations k h.1 f).0 refl
          ∙ ap (λ z. values y +ℤ z) q
      | inl f ↦ difference-Holds values facts.constants x y c h.0 (rw (other, lt, f) at e)
    ]
    | inr ge ↦ elim (Option-cases (find_offset x y x facts.relations)) [
      | inr (k, f) ↦
          let q : k ≡ c = (let e1 = rw (other, ge, f) at e in cc e1) in
          let apart : x ≢ y = λ p. cc ((text_eq.beq_iff x y).1 p, other) in
          (find_offset-Holds values x y x facts.relations k h.1 f).1 apart
          ∙ ap (λ z. values y +ℤ z) q
      | inl f ↦ difference-Holds values facts.constants x y c h.0 (rw (other, ge, f) at e)
    ]
  ]
]

-- What holds on one of two paths holds of the joined facts, and an offset that is answered is one
-- between the values.
pub join-offset :
    (values : Values) (left right : AffineFacts)
    → (Holds values left ⊎ Holds values right → Holds values (join_affine left right))
      × ((x y : Text) (c : ℤ)
          → Holds values left
          → offset left x y ≡ some c
          → values x ≡ values y +ℤ c)
unfolding join_affine
join-offset values left right = (
  λ h. elim h [
    | inl l ↦ (
      All-keep (ConstantHolds values) (ConstantHolds values) (λ c. elem c right.constants)
          left.constants (λ c q m. q) l.0,
      All-keep (RelationHolds values) (RelationHolds values) (λ r. elem r right.relations)
          left.relations (λ r q m. q) l.1,
    )
    | inr r ↦ (
      keep-shared (ConstantHolds values) left.constants right.constants r.0,
      keep-shared (RelationHolds values) left.relations right.relations r.1,
    )
  ],
  λ x y c h e. offset-Holds values left x y c h e,
)

-- ===== src/Cfg/Affine/Sound.antt =====
-- `transfer_affine` of cgull/cfg/affine_relations.py: facts that hold before an event hold after
-- it.
use cgull.Prelude.{
  ℤ, ◌+ℤ◌, ◌-ℤ◌, int_laws, int_eq, false, not, List, [], ◌∷◌, Option, none, some, ◌≡◌, refl, ap,
  sym, ◌∙◌, subst, inl, inr, Text, text_eq, pair_eq, ◌==◌, keep, lookup, All, All-keep, All-imp,
  Bool-cases,
}
use cgull.Cfg.Syntax.{Node}
use cgull.Cfg.Affine.{
  canonical, Affine, AffineFacts, constant_of, symbols_related_to, forget, set_constant,
  assign_constant, assign_base, assigned, assign_facts, affine_rhs,
}
use cgull.Cfg.Affine.Assign.{Becomes, value, affine_rhs-value, forget-Holds}
use cgull.Cfg.Affine.Holds.{
  Values, ConstantHolds, Holds, canonical-Holds, lookup-Holds, symbols_related_to-Holds,
  relate_all-Holds, apart_sym,
}

lookup-keep-none :
    (symbol : Text) (cs : List (Text × ℤ))
    → lookup symbol (keep (λ c. not (c.0 == symbol)) cs) ≡ none
lookup-keep-none symbol [] = refl
lookup-keep-none symbol ((n, v) ∷ cs) = elim (Bool-cases (n == symbol)) [
  | inl same ↦ rw same (lookup-keep-none symbol cs)
  | inr other ↦ rw other (rw other (lookup-keep-none symbol cs))
]

module _ (after : Values) (symbol : Text) where
  set_constant-Holds :
      (v : ℤ) (cs : List (Text × ℤ))
      → after symbol ≡ v
      → All (ConstantHolds after) cs
      → All (ConstantHolds after) (set_constant symbol v cs)
  set_constant-Holds v cs q h = (
    q,
    All-keep (ConstantHolds after) (ConstantHolds after) (λ c. not (c.0 == symbol)) cs (λ c k _. k)
        h,
  )

  assign_constant-Holds :
      (v : ℤ) (facts : AffineFacts)
      → after symbol ≡ v
      → Holds after facts
      → Holds after (assign_constant symbol v facts)
  assign_constant-Holds v facts q h =
      let cs = set_constant-Holds v facts.constants q h.0 in
      (
        cs,
        relate_all-Holds after symbol (λ w. v -ℤ w) (set_constant symbol v facts.constants)
            facts.relations
            (All-imp (ConstantHolds after)
              (λ (p : Text × ℤ). (p.0 == symbol) ≡ false → after symbol ≡ after p.0 +ℤ (v -ℤ p.1))
              (set_constant symbol v facts.constants)
              (λ p k _.
                let sum : v ≡ p.1 +ℤ (v -ℤ p.1) = omega int_laws in
                q ∙ sum ∙ ap (λ x. x +ℤ (v -ℤ p.1)) (sym k))
              cs)
            h.1,
      )

  assign_base-Holds :
      (base : Text) (amount : ℤ) (facts : AffineFacts)
      → (base ≡ symbol → constant_of facts base ≡ none)
      → ((base == symbol) ≡ false → after symbol ≡ after base +ℤ amount)
      → Holds after facts
      → Holds after (assign_base symbol base amount facts)
  assign_base-Holds base amount facts fresh q h = elim (Bool-cases (base == symbol)) [
    | inl same ↦
        let unknown = fresh ((text_eq.beq_iff base symbol).0 same) in
        rw same (constants (constant_of facts base) (λ v e. absurd (cc (unknown, e))), h.1)
    | inr other ↦
        let now = q other in
        let related =
          relate_all-Holds after symbol (λ c. amount +ℤ c) (symbols_related_to facts base)
            (canonical symbol base amount ∷ facts.relations)
            (All-imp (λ (p : Text × ℤ). after base ≡ after p.0 +ℤ p.1)
              (λ (p : Text × ℤ).
                (p.0 == symbol) ≡ false → after symbol ≡ after p.0 +ℤ (amount +ℤ p.1))
              (symbols_related_to facts base)
              (λ p k _.
                let sum : after p.0 +ℤ p.1 +ℤ amount ≡ after p.0 +ℤ (amount +ℤ p.1) =
                  omega int_laws in
                now ∙ ap (λ x. x +ℤ amount) k ∙ sum)
              (symbols_related_to-Holds after facts base h))
            (canonical-Holds after symbol base amount (apart_sym base symbol other) now, h.1) in
        rw other (
          constants (constant_of facts base) (λ v e.
              now ∙ ap (λ x. x +ℤ amount) (lookup-Holds after facts.constants base v h.0 e)),
          related,
        )
  ]
    where
      constants :
          (o : Option ℤ)
          → ((v : ℤ) → o ≡ some v → after symbol ≡ v +ℤ amount)
          → All (ConstantHolds after) (elim o [
            | some v ↦ set_constant symbol (v +ℤ amount) facts.constants
            | none ↦ facts.constants
          ])
      constants none e = h.0
      constants (some v) e = set_constant-Holds (v +ℤ amount) facts.constants (e v refl) h.0

module _ (before after : Values) (symbol : Text) where
  pub assign-Holds :
      (v : ℤ) (rhs : Node) (facts : AffineFacts)
      → ((w : ℤ) → value before rhs ≡ some w → v ≡ w)
      → Becomes before symbol v after
      → Holds before facts
      → Holds after (assign_facts facts symbol rhs)
  unfolding assign_facts forget
  assign-Holds v rhs facts known b h = by_rhs (affine_rhs rhs) refl
    where
      kept : Holds after (forget facts symbol)
      kept = forget-Holds before after symbol b.others facts h

      by_rhs :
          (p : Option Affine)
          → affine_rhs rhs ≡ p
          → Holds after (assigned (forget facts symbol) symbol p)
      by_rhs none e = kept
      by_rhs (some (none, k)) e =
          assign_constant-Holds after symbol k (forget facts symbol)
            (b.own ∙ known k (affine_rhs-value before rhs (none, k) e)) kept
      by_rhs (some (some base, k)) e =
          assign_base-Holds after symbol base k (forget facts symbol)
            (λ q.
              subst (λ x. constant_of (forget facts symbol) x ≡ none) (sym q)
                (lookup-keep-none symbol facts.constants))
            (λ other.
              b.own
              ∙ known (before base +ℤ k) (affine_rhs-value before rhs (some base, k) e)
              ∙ ap (λ x. x +ℤ k) (sym (b.others base other)))
            kept

-- ===== src/Cfg/FixedPoint/Rounds.antt =====
-- One round, and the rounds on one component, of cgull/cfg/fixed_point.py: what is left when they
-- converge.
use cgull.Prelude.{
  ℕ, zero, suc, Bool, true, false, not, ◌&&◌, List, [], ◌∷◌, none, some, ◌≡◌, refl, sym, ◌∙◌, subst,
  fun_ext, inl, inr, if◌then◌else◌, Bool-cases, Eq, ◌==◌, beq_refl, Text, text_eq, lookup, elem,
  exists-elem,
}
use cgull.Cfg.FixedPoint.{
  FixedPointConfig, FiniteLattice, Facts, update, joined, updates, changed, iterate,
}

module _ {ℓ} {Fact : Type ℓ} ⦃equality : Eq Fact⦄ (lattice : FiniteLattice Fact)
    (transfer : Text → Facts Fact → FixedPointConfig → Fact) (config : FixedPointConfig) where
  -- The facts after a round.
  abbrev pub next_facts : Facts Fact → List Text → Facts Fact
  next_facts facts component = update facts (updates lattice transfer config facts component)

  lookup-updates :
      (facts : Facts Fact) (n : Text) (ns : List Text)
      → lookup n (updates lattice transfer config facts ns)
        ≡ (if elem n ns then some (joined lattice transfer config facts n) else none)
  lookup-updates facts n [] = refl
  lookup-updates facts n (m ∷ ms) = elim (Bool-cases (m == n)) [
    | inl same ↦
        subst
          (λ k.
            lookup k (updates lattice transfer config facts (m ∷ ms))
            ≡ (if elem k (m ∷ ms) then some (joined lattice transfer config facts k) else none))
          ((text_eq.beq_iff m n).0 same) (rw (beq_refl m) refl)
    | inr differs ↦ elim (Bool-cases (n == m)) [
      | inl same ↦
          absurd (
            let q = (text_eq.beq_iff m n).1 (sym ((text_eq.beq_iff n m).0 same)) in cc (q, differs))
      | inr apart ↦ rw (differs, apart) (lookup-updates facts n ms)
    ]
  ]

  pub next_facts_inside :
      (facts : Facts Fact) (n : Text) (ns : List Text)
      → elem n ns ≡ true
      → next_facts facts ns n ≡ joined lattice transfer config facts n
  next_facts_inside facts n ns m = rw (lookup-updates facts n ns, m) refl

  pub next_facts_outside :
      (facts : Facts Fact) (n : Text) (ns : List Text)
      → elem n ns ≡ false
      → next_facts facts ns n ≡ facts n
  next_facts_outside facts n ns m = rw (lookup-updates facts n ns, m) refl

  -- The facts of the component are what a further round gives.
  abbrev pub Fixed : List Text → Facts Fact → Type ℓ
  Fixed component facts =
      (n : Text) → elem n component ≡ true → joined lattice transfer config facts n ≡ facts n

  unchanged-Fixed :
      (facts : Facts Fact) (component : List Text)
      → changed lattice transfer config facts component ≡ false
      → Fixed component facts
  unchanged-Fixed facts component h n m =
      elim (Bool-cases (joined lattice transfer config facts n == facts n)) [
        | inl same ↦ (equality.beq_iff (joined lattice transfer config facts n) (facts n)).0 same
        | inr differs ↦ absurd (
            let e =
              exists-elem (λ k. not (joined lattice transfer config facts k == facts k)) n component
                m (rw differs refl) in
            cc (e, h))
      ]

  next_facts_unchanged :
      (facts : Facts Fact) (component : List Text)
      → changed lattice transfer config facts component ≡ false
      → next_facts facts component ≡ facts
  next_facts_unchanged facts component h = fun_ext (λ n. elim (Bool-cases (elem n component)) [
    | inl inside ↦
        next_facts_inside facts n component inside ∙ unchanged-Fixed facts component h n inside
    | inr outside ↦ next_facts_outside facts n component outside
  ])

  pub iterate-Fixed :
      (component : List Text) (left rounds : ℕ) (facts : Facts Fact)
      → (iterate lattice transfer config true component left rounds facts).converged ≡ true
      → Fixed component (iterate lattice transfer config true component left rounds facts).facts
  unfolding iterate
  iterate-Fixed component zero rounds facts h = absurd (cc h)
  iterate-Fixed component (suc left) rounds facts h =
      elim (Bool-cases (changed lattice transfer config facts component)) [
        | inl moved ↦
            rw (moved, iterate)
              (iterate-Fixed component left (suc rounds) (next_facts facts component)
                (rw (moved, iterate) at h))
        | inr still ↦
            rw (still, iterate)
              (subst (Fixed component) (sym (next_facts_unchanged facts component still))
                (unchanged-Fixed facts component still))
      ]

  pub iterate_outside :
      (recursive : Bool) (component : List Text) (left rounds : ℕ) (facts : Facts Fact) (n : Text)
      → elem n component ≡ false
      → (iterate lattice transfer config recursive component left rounds facts).facts n ≡ facts n
  unfolding iterate
  iterate_outside recursive component zero rounds facts n m = refl
  iterate_outside recursive component (suc left) rounds facts n m =
      elim (Bool-cases (recursive && not (changed lattice transfer config facts component))) [
        | inl done ↦ rw (done, iterate) (next_facts_outside facts n component m)
        | inr going ↦
            rw (going, iterate)
              (iterate_outside recursive component left (suc rounds) (next_facts facts component) n
                  m
                ∙ next_facts_outside facts n component m)
      ]

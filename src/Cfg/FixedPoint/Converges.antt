-- ===== src/Cfg/FixedPoint/Converges.antt =====
-- The engine of cgull/cfg/fixed_point.py, component by component: how the rounds on one end, and
-- how far its ranks can rise.
use cgull.Prelude.{
  ℕ, zero, suc, ◌+◌, ◌*◌, ◌≤◌, ◌<◌, Bool, true, false, not, ◌||◌, List, [], ◌∷◌, ◌++◌, ◌≡◌, ◌⊎◌,
  refl, sym, ap, ◌∙◌, subst, inl, inr, arith, if◌then◌else◌, Bool-cases, Eq, ◌==◌, beq_refl, Text,
  text_eq, elem, elem-cons_tail, length,
}
use cgull.Cfg.FixedPoint.{
  FixedPointConfig, FiniteLattice, CallGraph, Facts, FixedPointResult, joined, changed, iterate,
  is_recursive, budget, recorded, run_component, insert_name, sorted_names,
}
use cgull.Cfg.FixedPoint.Rounds.{
  next_facts, next_facts_inside, Fixed, iterate-Fixed, iterate_outside,
}
use cgull.Preprocessor.Expression.Order.{compare_text, is_lt}

length-insert_name : (n : Text) (ns : List Text) → length (insert_name n ns) ≡ suc (length ns)
unfolding insert_name
length-insert_name n [] = refl
length-insert_name n (m ∷ ms) = elim (Bool-cases (is_lt (compare_text m n))) [
  | inl before ↦ rw before (ap suc (length-insert_name n ms))
  | inr after ↦ rw after refl
]

pub length-sorted_names : (ns : List Text) → length (sorted_names ns) ≡ length ns
unfolding sorted_names
length-sorted_names [] = refl
length-sorted_names (n ∷ ns) =
    length-insert_name n (sorted_names ns) ∙ ap suc (length-sorted_names ns)

module _ {ℓ} {Fact : Type ℓ} ⦃equality : Eq Fact⦄ (lattice : FiniteLattice Fact)
    (transfer : Text → Facts Fact → FixedPointConfig → Fact) (config : FixedPointConfig) where
  -- The facts of a recursive component are what a further round would give; those of another are the
  -- earlier ones joined with what the transfer gives of the earlier ones.
  abbrev pub Evaluated : Bool → List Text → Facts Fact → Facts Fact → Type ℓ
  Evaluated true component before after = Fixed lattice transfer config component after
  Evaluated false component before after =
      (n : Text)
      → elem n component ≡ true
      → after n ≡ lattice.join (before n) (transfer n before config)

  -- After a component: no diagnostic was added, and the component was evaluated; or it is recursive,
  -- a diagnostic was added, and every fact of the component is unknown.
  pub Settled : CallGraph → FixedPointResult Fact → List Text → FixedPointResult Fact → Type ℓ
  Settled graph result component after =
      (after.diagnostics ≡ result.diagnostics)
        × Evaluated (is_recursive lattice transfer config graph component) component result.facts
            after.facts
      ⊎ (is_recursive lattice transfer config graph component ≡ true)
        × (rounds : ℕ) × (after.diagnostics
            ≡ result.diagnostics ++ record { functions = component; iterations = rounds } ∷ [])
        × ((n : Text)
            → elem n component ≡ true
            → (f : Fact) × (after.facts n ≡ lattice.unknown n f))

  pub converged-Evaluated :
      (component : List Text) (b : Bool) (facts : Facts Fact)
      → (iterate lattice transfer config b component
          (budget lattice transfer config b)
          0
          facts).converged
        ≡ true
      → Evaluated b component facts
          (iterate lattice transfer config b component
            (budget lattice transfer config b)
            0
            facts).facts
  unfolding iterate
  converged-Evaluated component true facts h =
      iterate-Fixed lattice transfer config component config.max_iterations_per_scc 0 facts h
  converged-Evaluated component false facts h =
      λ n m. next_facts_inside lattice transfer config facts n component m

  short_is_recursive :
      (component : List Text) (b : Bool) (facts : Facts Fact)
      → (iterate lattice transfer config b component
          (budget lattice transfer config b)
          0
          facts).converged
        ≡ false
      → b ≡ true
  unfolding iterate
  short_is_recursive component true facts h = refl
  short_is_recursive component false facts h = absurd (cc h)

  recorded-Settled :
      (graph : CallGraph) (result : FixedPointResult Fact) (component : List Text)
      → let b = is_recursive lattice transfer config graph component in
        Settled graph result component (
          recorded lattice transfer config result component (
            iterate lattice transfer config b component
              (budget lattice transfer config b)
              0
              result.facts))
  unfolding Settled
  recorded-Settled graph result component =
      let b = is_recursive lattice transfer config graph component in
      let r =
        iterate lattice transfer config b component (budget lattice transfer config b) 0
          result.facts in
      elim (Bool-cases r.converged) [
        | inl done ↦ rw done (inl (refl, converged-Evaluated component b result.facts done))
        | inr short ↦ rw short (
            inr (
              short_is_recursive component b result.facts short,
              r.rounds,
              refl,
              λ n m. (r.facts n, rw m refl),
            ))
      ]

  pub recorded_outside :
      (result : FixedPointResult Fact) (component : List Text) (left : ℕ) (b : Bool) (n : Text)
      → elem n component ≡ false
      → (recorded lattice transfer config result component
            (iterate lattice transfer config b component left 0 result.facts)).facts
          n
        ≡ result.facts n
  recorded_outside result component left b n m =
      elim (Bool-cases
        (iterate lattice transfer config b component left 0 result.facts).converged) [
          | inl done ↦
              rw done (iterate_outside lattice transfer config b component left 0 result.facts n m)
          | inr short ↦
              rw (short, m)
                (iterate_outside lattice transfer config b component left 0 result.facts n m)
        ]

  -- What the engine does to one component. Either it adds no diagnostic, and the facts of a recursive
  -- component are a fixed point, so that joining what the transfer gives changes none of them, while
  -- each fact of another component is the earlier one joined once with what the transfer gives of
  -- the earlier facts; or the component is recursive, the engine adds one diagnostic, which names it,
  -- and every fact of the component is an unknown of the lattice. Facts of other functions stay as
  -- they are.
  pub run_component-Settled :
      (graph : CallGraph) (result : FixedPointResult Fact) (raw : List Text)
      → Settled graph result
          (sorted_names raw)
          (run_component lattice transfer config graph result raw)
        × ((n : Text)
            → elem n (sorted_names raw) ≡ false
            → (run_component lattice transfer config graph result raw).facts n ≡ result.facts n)
  unfolding run_component
  run_component-Settled graph result raw =
      let component = sorted_names raw in
      let b = is_recursive lattice transfer config graph component in
      (
        recorded-Settled graph result component,
        recorded_outside result component (budget lattice transfer config b) b,
      )

  module _ (rank : Fact → ℕ) (low : (a : Fact) → rank a ≤ lattice.max_height)
      (rises : (a b : Fact) → (lattice.join a b ≡ a) ⊎ (rank a < rank (lattice.join a b))) where
    total : Facts Fact → List Text → ℕ
    total facts [] = 0
    total facts (n ∷ ns) = rank (facts n) + total facts ns

    total-le :
        (facts : Facts Fact) (ns : List Text) → total facts ns ≤ length ns * lattice.max_height
    unfolding total
    total-le facts [] = omega arith
    total-le facts (n ∷ ns) =
        let one = low (facts n) in let others = total-le facts ns in grind arith

    -- One where there is a change.
    abbrev gain : Bool → ℕ
    gain b = if b then 1 else 0

    gain-|| : (a b : Bool) → gain (a || b) ≤ gain a + gain b
    gain-|| true b = ground arith
    gain-|| false b = omega arith

    gain-le : (b : Bool) → gain b ≤ 1
    gain-le true = omega arith
    gain-le false = omega arith

    rank-join : (a b : Fact) → rank a + gain (not (lattice.join a b == a)) ≤ rank (lattice.join a b)
    rank-join a b = elim (rises a b) [
      | inl same ↦
          subst (λ z. rank a + gain (not (z == a)) ≤ rank z) (sym same)
            (rw (beq_refl a) (omega arith))
      | inr more ↦ let one = gain-le (not (lattice.join a b == a)) in omega arith
    ]

    total-next :
        (facts : Facts Fact) (component ns : List Text)
        → ((n : Text) → elem n ns ≡ true → elem n component ≡ true)
        → total facts ns + gain (changed lattice transfer config facts ns)
          ≤ total (next_facts lattice transfer config facts component) ns
    unfolding total
    total-next facts component [] h = omega arith
    total-next facts component (n ∷ ns) h =
        let step = rank-join (facts n) (transfer n facts config) in
        let rest = total-next facts component ns (λ m e. h m (elem-cons_tail m n ns e)) in
        let or_ =
          gain-|| (not (joined lattice transfer config facts n == facts n))
            (changed lattice transfer config facts ns) in
        rw
          (next_facts_inside lattice transfer config facts n component (h n (rw (beq_refl n) refl)))
          (omega arith)

    iterate-converges :
        (component : List Text) (left rounds : ℕ) (facts : Facts Fact)
        → length component * lattice.max_height < left + total facts component
        → (iterate lattice transfer config true component left rounds facts).converged ≡ true
    unfolding iterate
    iterate-converges component zero rounds facts h =
        absurd (let low = total-le facts component in omega arith)
    iterate-converges component (suc left) rounds facts h =
        elim (Bool-cases (changed lattice transfer config facts component)) [
          | inr still ↦ rw (still, iterate) refl
          | inl moved ↦
              let more = total-next facts component component (λ n m. m) in
              let more1 = rw moved at more in
              rw (moved, iterate)
                (iterate-converges component left (suc rounds)
                  (next_facts lattice transfer config facts component) (omega arith))
        ]

    pub rounds-converged :
        (component : List Text) (b : Bool) (facts : Facts Fact)
        → length component * lattice.max_height < config.max_iterations_per_scc
        → (iterate lattice transfer config b component
            (budget lattice transfer config b)
            0
            facts).converged
          ≡ true
    unfolding iterate
    rounds-converged component false facts h = refl
    rounds-converged component true facts h =
        iterate-converges component config.max_iterations_per_scc 0 facts (omega arith)

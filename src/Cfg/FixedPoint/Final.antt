-- ===== src/Cfg/FixedPoint/Final.antt =====
-- The result of `SCCFixedPointEngine.run` of cgull/cfg/fixed_point.py over all components.
use cgull.Prelude.{
  ℕ, zero, suc, ◌*◌, ◌≤◌, ◌<◌, Bool, true, false, not, ◌&&◌, ◌||◌, List, [], ◌∷◌, some, ◌≡◌, ◌⊎◌,
  refl, sym, ap, ◌∙◌, subst, inl, inr, arith, Bool-cases, Eq, ◌==◌, beq_refl, Text, text_eq, elem,
  length, All, ltb,
}
use cgull.Cfg.FixedPoint.{
  FixedPointConfig, FiniteLattice, CallGraph, Facts, FixedPointResult, changed, iterate,
  is_recursive, budget, run_component, run_components, run, insert_name, sorted_names,
}
use cgull.Cfg.FixedPoint.Converges.{
  Evaluated, converged-Evaluated, recorded_outside, rounds-converged, length-sorted_names,
}
use cgull.Cfg.FixedPoint.Rounds.{
  next_facts, next_facts_inside, next_facts_outside, Fixed, iterate_outside,
}
use cgull.Preprocessor.Expression.Order.{compare_text, is_lt}

elem-insert_name : (n m : Text) (ns : List Text) → elem n (insert_name m ns) ≡ elem n (m ∷ ns)
unfolding insert_name
elem-insert_name n m [] = refl
elem-insert_name n m (k ∷ ks) = elim (Bool-cases (is_lt (compare_text k m))) [
  | inl before ↦ let rest = elem-insert_name n m ks in rw before (rw rest (ground arith))
  | inr after ↦ rw after refl
]

elem-sorted_names : (n : Text) (ns : List Text) → elem n (sorted_names ns) ≡ elem n ns
unfolding sorted_names
elem-sorted_names n [] = refl
elem-sorted_names n (m ∷ ms) =
    elem-insert_name n m (sorted_names ms) ∙ ap (λ b. (n == m) || b) (elem-sorted_names n ms)

-- No function of a component, and no callee of one, is in a later component.
abbrev pub CalleesFirst : (Text → List Text) → List (List Text) → Type 0
CalleesFirst callees [] = Unit
CalleesFirst callees (raw ∷ rest) =
    ((n : Text)
      → elem n raw ≡ true
      → (m : Text) → elem m (n ∷ callees n) ≡ true
      → All (λ later. elem m later ≡ false) rest)
    × CalleesFirst callees rest

module _ {ℓ} {Fact : Type ℓ} ⦃equality : Eq Fact⦄ (lattice : FiniteLattice Fact)
    (transfer : Text → Facts Fact → FixedPointConfig → Fact) (config : FixedPointConfig) where
  -- Facts that agree on a function's callees give it the same transfer.
  abbrev pub ReadsCallees : CallGraph → Type ℓ
  ReadsCallees graph =
      (n : Text) (f g : Facts Fact)
      → ((m : Text) → elem m (graph.callees n) ≡ true → f m ≡ g m)
      → transfer n f config ≡ transfer n g config

  -- Joining what the transfer gives keeps the predicate.
  abbrev pub Kept : (Text → Fact → Type ℓ) → Type ℓ
  Kept p =
      (facts : Facts Fact)
      → ((n : Text) → p n (facts n))
      → (n : Text) → p n (lattice.join (facts n) (transfer n facts config))

  -- One that calls itself is recursive, so that the callees of another are outside of it.
  callee_outside :
      (graph : CallGraph) (component : List Text) (n m : Text)
      → is_recursive lattice transfer config graph component ≡ false
      → elem n component ≡ true
      → elem m (graph.callees n) ≡ true
      → elem m component ≡ false
  callee_outside graph [] n m h k q = absurd (cc k)
  callee_outside graph (x ∷ y ∷ rest) n m h k q = absurd (ground arith)
  callee_outside graph (x ∷ []) n m h k q = elim (Bool-cases (m == x)) [
    | inr differs ↦ rw differs refl
    | inl same ↦
        let e = (text_eq.beq_iff m x).0 same in
        let own = (text_eq.beq_iff n x).0 (elim (Bool-cases (n == x)) [
          | inl here ↦ here
          | inr there ↦ absurd (let k1 = rw there at k in cc k1)
        ]) in
        absurd (
          let q1 = subst (λ z. elem z (graph.callees n) ≡ true) e q in
          let q2 = subst (λ z. elem x (graph.callees z) ≡ true) own q1 in
          let h1 = rw q2 at h in cc h1)
  ]

  Evaluated-Fixed :
      (graph : CallGraph) (component : List Text) (before after : Facts Fact) (b : Bool)
      → ReadsCallees graph
      → ((a b : Fact) → lattice.join (lattice.join a b) b ≡ lattice.join a b)
      → ((n : Text) → elem n component ≡ false → after n ≡ before n)
      → is_recursive lattice transfer config graph component ≡ b
      → Evaluated lattice transfer config b component before after
      → Fixed lattice transfer config component after
  Evaluated-Fixed graph component before after true reads absorbs outside q h = h
  Evaluated-Fixed graph component before after false reads absorbs outside q h = λ n m.
      (let same =
          reads n after before (λ k e. outside k (callee_outside graph component n k q m e)) in
        ap (lattice.join (after n)) same
        ∙ ap (λ a. lattice.join a (transfer n before config)) (h n m)
        ∙ absorbs (before n) (transfer n before config)
        ∙ sym (h n m))

  iterate-Kept :
      (p : Text → Fact → Type ℓ) (b : Bool) (component : List Text) (left rounds : ℕ)
      (facts : Facts Fact)
      → Kept p
      → ((n : Text) → p n (facts n))
      → (n : Text) → p n ((iterate lattice transfer config b component left rounds facts).facts n)
  unfolding iterate
  iterate-Kept p b component zero rounds facts k h n = h n
  iterate-Kept p b component (suc left) rounds facts k h n =
      elim (Bool-cases (b && not (changed lattice transfer config facts component))) [
        | inl done ↦ rw (done, iterate) (round n)
        | inr going ↦
            rw (going, iterate)
              (iterate-Kept p b component left (suc rounds)
                (next_facts lattice transfer config facts component) k round n)
      ]
    where
      round : (n : Text) → p n (next_facts lattice transfer config facts component n)
      round n = elim (Bool-cases (elem n component)) [
        | inl inside ↦
            subst (p n) (sym (next_facts_inside lattice transfer config facts n component inside))
              (k facts h n)
        | inr outside ↦
            subst (p n) (sym (next_facts_outside lattice transfer config facts n component outside))
              (h n)
      ]

  run_component_outside :
      (graph : CallGraph) (result : FixedPointResult Fact) (raw : List Text) (n : Text)
      → elem n raw ≡ false
      → (run_component lattice transfer config graph result raw).facts n ≡ result.facts n
  unfolding run_component
  run_component_outside graph result raw n m =
      let b = is_recursive lattice transfer config graph (sorted_names raw) in
      recorded_outside lattice transfer config result (sorted_names raw)
        (budget lattice transfer config b) b n (elem-sorted_names n raw ∙ m)

  run_components_outside :
      (graph : CallGraph) (sccs : List (List Text)) (result : FixedPointResult Fact) (n : Text)
      → All (λ later. elem n later ≡ false) sccs
      → (run_components lattice transfer config graph result sccs).facts n ≡ result.facts n
  unfolding run_components
  run_components_outside graph [] result n h = refl
  run_components_outside graph (raw ∷ rest) result n h =
      run_components_outside graph rest (run_component lattice transfer config graph result raw) n
        h.1
      ∙ run_component_outside graph result raw n h.0

  module _ (rank : Fact → ℕ) (low : (a : Fact) → rank a ≤ lattice.max_height)
      (rises : (a b : Fact) → (lattice.join a b ≡ a) ⊎ (rank a < rank (lattice.join a b)))
      (absorbs : (a b : Fact) → lattice.join (lattice.join a b) b ≡ lattice.join a b)
      (graph : CallGraph) (reads : ReadsCallees graph) where
    -- What the ranks of a component can rise is less than its budget.
    abbrev pub Affordable : List Text → Type 0
    Affordable raw = length raw * lattice.max_height < config.max_iterations_per_scc

    -- After a component there is no new diagnostic, its facts are fixed, and what the rounds keep is
    -- kept.
    record Quiet (before after : FixedPointResult Fact) (raw : List Text) : Type (ℓ + 1) where
      pub diagnostics : after.diagnostics ≡ before.diagnostics
      pub fixed : Fixed lattice transfer config raw after.facts
      pub kept :
          (p : Text → Fact → Type ℓ)
          → Kept p
          → ((n : Text) → p n (before.facts n))
          → (n : Text) → p n (after.facts n)

    run_component-Quiet :
        (result : FixedPointResult Fact) (raw : List Text)
        → Affordable raw
        → Quiet result (run_component lattice transfer config graph result raw) raw
    unfolding run_component
    run_component-Quiet result raw h =
        let component = sorted_names raw in
        let b = is_recursive lattice transfer config graph component in
        let left = budget lattice transfer config b in
        let done =
          rounds-converged lattice transfer config rank low rises component b result.facts
            (rw (length-sorted_names raw) h) in
        let evaluated = converged-Evaluated lattice transfer config component b result.facts done in
        let fixed =
          Evaluated-Fixed graph component result.facts
            (iterate lattice transfer config b component left 0 result.facts).facts b reads absorbs
            (iterate_outside lattice transfer config b component left 0 result.facts) refl
            evaluated in
        record {
          diagnostics = rw done refl;
          fixed = λ n m. rw done (fixed n (elem-sorted_names n raw ∙ m));
          kept = λ p k q n. rw done (iterate-Kept p b component left 0 result.facts k q n);
        }

    run_components-Fixed :
        (sccs : List (List Text)) (result : FixedPointResult Fact)
        → All Affordable sccs
        → CalleesFirst graph.callees sccs
        → All
            (λ raw.
              Fixed lattice transfer config raw
                (run_components lattice transfer config graph result sccs).facts)
            sccs
    unfolding run_components
    run_components-Fixed [] result h o = tt
    run_components-Fixed (raw ∷ rest) result h o =
        let middle = run_component lattice transfer config graph result raw in
        let final = run_components lattice transfer config graph middle rest in
        (
          λ n m.
              (let later = λ (k : Text) (e : elem k (n ∷ graph.callees n) ≡ true).
                  run_components_outside graph rest middle k (o.0 n m k e) in
                let own = later n (rw (beq_refl n) refl) in
                let same = reads n final.facts middle.facts (λ k e. later k (ground arith)) in
                ap (lattice.join (final.facts n)) same
                ∙ ap (λ a. lattice.join a (transfer n middle.facts config)) own
                ∙ (run_component-Quiet result raw h.0).fixed n m
                ∙ sym own),
          run_components-Fixed rest middle h.1 o.1,
        )

    run_components-quiet :
        (sccs : List (List Text)) (result : FixedPointResult Fact)
        → All Affordable sccs
        → (run_components lattice transfer config graph result sccs).diagnostics
          ≡ result.diagnostics
    unfolding run_components
    run_components-quiet [] result h = refl
    run_components-quiet (raw ∷ rest) result h =
        run_components-quiet rest (run_component lattice transfer config graph result raw) h.1
        ∙ (run_component-Quiet result raw h.0).diagnostics

    run_components-Kept :
        (sccs : List (List Text)) (result : FixedPointResult Fact) (p : Text → Fact → Type ℓ)
        → All Affordable sccs
        → Kept p
        → ((n : Text) → p n (result.facts n))
        → (n : Text) → p n ((run_components lattice transfer config graph result sccs).facts n)
    unfolding run_components
    run_components-Kept [] result p h k q n = q n
    run_components-Kept (raw ∷ rest) result p h k q n =
        run_components-Kept rest (run_component lattice transfer config graph result raw) p h.1 k
          ((run_component-Quiet result raw h.0).kept p k q) n

    -- The engine returns without a diagnostic; the facts of every component are a fixed point, so
    -- that joining what the transfer gives of the final facts changes none of them; and every
    -- predicate that holds of the initial facts, and that a join with what the transfer gives keeps,
    -- holds of the final facts, so that none of them is degraded. The hypotheses: every fact has a
    -- rank of at most the domain's height, a join that changes a fact raises its rank, joining the
    -- same fact twice is joining it once, a function's transfer reads only its callees' facts, the
    -- height is positive, the bound on the iterations exceeds the number of functions of every
    -- component times the height, and no function of a component nor a callee of one is in a later
    -- component.
    pub run-converges :
        1 ≤ lattice.max_height
        → All Affordable graph.bottom_up_sccs
        → CalleesFirst graph.callees graph.bottom_up_sccs
        → (result : FixedPointResult Fact) × (run lattice transfer config graph ≡ some result)
          × (result.diagnostics ≡ [])
          × All (λ raw. Fixed lattice transfer config raw result.facts) graph.bottom_up_sccs
          × ((p : Text → Fact → Type ℓ)
              → Kept p
              → ((n : Text) → p n (lattice.bottom n))
              → (n : Text) → p n (result.facts n))
    unfolding run
    run-converges h a o = elim (Bool-cases (ltb lattice.max_height 1)) [
      | inl flat ↦ absurd (ground arith)
      | inr tall ↦ (
        run_components lattice transfer config graph
            (record { facts = lattice.bottom; diagnostics = []; iterations_by_scc = [] })
            graph.bottom_up_sccs,
        rw tall refl,
        run_components-quiet graph.bottom_up_sccs _ a,
        run_components-Fixed graph.bottom_up_sccs _ a o,
        λ p k q. run_components-Kept graph.bottom_up_sccs _ p a k q,
      )
    ]

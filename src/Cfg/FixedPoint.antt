-- ===== src/Cfg/FixedPoint.antt =====
-- cgull/cfg/fixed_point.py: facts for the functions of a call graph, one strongly connected
-- component after another, callees first.
pub mod Rounds
pub mod Converges
pub mod Final
mod Examples
use cgull.Prelude.{
  ℕ, zero, suc, ◌+◌, Bool, true, false, not, ◌&&◌, ◌||◌, List, [], ◌∷◌, ◌++◌, Option, none, some,
  if◌then◌else◌, Eq, ◌==◌, Text, text_eq, lookup, elem, exists, length, map, leb, ltb,
}
use cgull.Preprocessor.Expression.Order.{compare_text, is_lt}

pub record FixedPointConfig : Type 0 where
  pub max_iterations_per_scc : ℕ
  pub max_provenance : ℕ

-- `FixedPointConfig(...)`; `none` is the ValueError of its checks.
unfoldable pub checked_config : ℕ → ℕ → Option FixedPointConfig
checked_config iterations provenance =
    if ltb iterations 1
    then none
    else if ltb provenance 1
    then none
    else some (record { max_iterations_per_scc = iterations; max_provenance = provenance })

-- The message is left out: it repeats the bound.
pub record FixedPointDiagnostic : Type 0 where
  pub functions : List Text
  pub iterations : ℕ

-- What the engine asks of a domain.
pub record FiniteLattice {ℓ} (Fact : Type ℓ) : Type ℓ where
  pub max_height : ℕ
  pub bottom : Text → Fact
  pub join : Fact → Fact → Fact
  pub unknown : Text → Fact → Fact

-- The call graph: `bottom_up_sccs` lists the components, callees before callers.
pub record CallGraph : Type 0 where
  pub callees : Text → List Text
  pub bottom_up_sccs : List (List Text)

unfoldable pub insert_name : Text → List Text → List Text
unfolding compare_text
insert_name n [] = n ∷ []
insert_name n (m ∷ ms) =
    let rest = insert_name n ms in if is_lt (compare_text m n) then m ∷ rest else n ∷ m ∷ ms

-- `tuple(sorted(names))`.
unfoldable pub sorted_names : List Text → List Text
unfolding insert_name
sorted_names [] = []
sorted_names (n ∷ ns) = insert_name n (sorted_names ns)

-- The dictionary of facts, by its values at the functions' names.
abbrev pub Facts {ℓ} : Type ℓ → Type ℓ
Facts Fact = Text → Fact

abbrev pub or_fact {ℓ} : {Fact : Type ℓ} → Option Fact → Fact → Fact
or_fact (some f) g = f
or_fact none g = g

-- `facts.update(updates)`.
abbrev pub update {ℓ} : {Fact : Type ℓ} → Facts Fact → List (Text × Fact) → Facts Fact
update facts updates name = or_fact (lookup name updates) (facts name)

pub record FixedPointResult {ℓ} (Fact : Type ℓ) : Type ℓ where
  pub facts : Facts Fact
  pub diagnostics : List FixedPointDiagnostic
  pub iterations_by_scc : List (List Text × ℕ)

-- The rounds on one component: the facts, the number of rounds, and whether they converged.
pub record Iterated {ℓ} (Fact : Type ℓ) : Type ℓ where
  pub facts : Facts Fact
  pub rounds : ℕ
  pub converged : Bool

module _ {ℓ} {Fact : Type ℓ} ⦃equality : Eq Fact⦄ (lattice : FiniteLattice Fact)
    (transfer : Text → Facts Fact → FixedPointConfig → Fact) (config : FixedPointConfig) where
  abbrev pub joined : Facts Fact → Text → Fact
  joined snapshot name = lattice.join (snapshot name) (transfer name snapshot config)

  -- The updates of one round, all of them from the snapshot.
  abbrev pub updates : Facts Fact → List Text → List (Text × Fact)
  updates snapshot component = map (λ name. (name, joined snapshot name)) component

  abbrev pub changed : Facts Fact → List Text → Bool
  changed snapshot component =
      exists (λ name. not (joined snapshot name == snapshot name)) component

  -- The loop over `round_number`, with the rounds that the budget leaves.
  unfoldable pub iterate : Bool → List Text → ℕ → ℕ → Facts Fact → Iterated Fact
  iterate recursive component zero rounds facts = record {
    facts = facts;
    rounds = rounds;
    converged = not recursive;
  }
  iterate recursive component (suc left) rounds facts =
      elim (recursive && not (changed facts component)) [
        | true ↦ record {
          facts = update facts (updates facts component);
          rounds = suc rounds;
          converged = true;
        }
        | false ↦
            iterate recursive component left (suc rounds) (update facts (updates facts component))
      ]

  abbrev pub is_recursive : CallGraph → List Text → Bool
  is_recursive graph component =
      ltb 1 (length component) || exists (λ name. elem name (graph.callees name)) component

  abbrev pub budget : Bool → ℕ
  budget recursive = if recursive then config.max_iterations_per_scc else 1

  abbrev pub degraded : Facts Fact → List Text → Facts Fact
  degraded facts component name =
      if elem name component then lattice.unknown name (facts name) else facts name

  -- What the loop over the components does after the rounds on one.
  abbrev pub recorded : FixedPointResult Fact → List Text → Iterated Fact → FixedPointResult Fact
  recorded result component r = record {
    facts = if r.converged then r.facts else degraded r.facts component;
    diagnostics =
        if r.converged
        then result.diagnostics
        else result.diagnostics ++ record { functions = component; iterations = r.rounds } ∷ [];
    iterations_by_scc = (component, r.rounds) ∷ result.iterations_by_scc;
  }

  unfoldable pub run_component :
      CallGraph → FixedPointResult Fact → List Text → FixedPointResult Fact
  unfolding iterate sorted_names
  run_component graph result raw =
      let component = sorted_names raw in
      let recursive = is_recursive graph component in
      recorded result component (iterate recursive component (budget recursive) 0 result.facts)

  unfoldable pub run_components :
      CallGraph → FixedPointResult Fact → List (List Text) → FixedPointResult Fact
  unfolding run_component
  run_components graph result [] = result
  run_components graph result (raw ∷ rest) =
      run_components graph (run_component graph result raw) rest

  -- `SCCFixedPointEngine(graph, lattice, config).run(transfer)`; `none` is the ValueError for a
  -- domain without a height.
  unfoldable pub run : CallGraph → Option (FixedPointResult Fact)
  unfolding run_components
  run graph =
      if ltb lattice.max_height 1
      then none
      else some (
          run_components graph
            (record { facts = lattice.bottom; diagnostics = []; iterations_by_scc = [] })
            graph.bottom_up_sccs)

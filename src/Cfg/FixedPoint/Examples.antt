-- ===== src/Cfg/FixedPoint/Examples.antt =====
-- Concrete runs of cgull/cfg/fixed_point.py on a lattice of two facts.
use cgull.Prelude.{
  ℕ, ◌≤◌, ◌<◌, Bool, true, false, not, ◌||◌, [], ◌∷◌, some, ◌≡◌, ◌⊎◌, ◌↔◌, refl, ap, subst, All,
  Bool-cases, ◌==◌, beq_refl, inl, inr, arith, Eq, Text, codes, text_eq, nat_eq, elem, list_beq,
}
use cgull.Cfg.FixedPoint.{
  FixedPointConfig, FiniteLattice, CallGraph, Facts, FixedPointResult, run_component, run,
  sorted_names,
}
use cgull.Cfg.FixedPoint.Converges.{Settled, run_component-Settled}
use cgull.Cfg.FixedPoint.Final.{ReadsCallees, Kept, CalleesFirst, run-converges}
use cgull.Cfg.FixedPoint.Rounds.{Fixed}

same_bool : Bool → Bool → Bool
same_bool true b = b
same_bool false b = not b

same_bool_iff : (a b : Bool) → (same_bool a b ≡ true) ↔ (a ≡ b)
unfolding same_bool
same_bool_iff true true = (λ h. refl, λ h. refl)
same_bool_iff true false = (λ h. absurd (cc h), λ h. absurd (cc h))
same_bool_iff false true = (λ h. absurd (cc h), λ h. absurd (cc h))
same_bool_iff false false = (λ h. refl, λ h. refl)

instance abbrev bool_eq : Eq Bool
unfolding same_bool
bool_eq = record { beq = same_bool; beq_iff = same_bool_iff }

abbrev flags : FiniteLattice Bool
flags = record { max_height = 1; bottom = λ n. false; join = λ a b. a || b; unknown = λ n f. true }

-- `f` calls itself, and `g` calls it; a function is marked if it is `f` or calls a marked one.
abbrev f_name : Text
f_name = codes "f"

abbrev g_name : Text
g_name = codes "g"

abbrev calls : CallGraph
calls = record { callees = λ n. f_name ∷ []; bottom_up_sccs = (f_name ∷ []) ∷ (g_name ∷ []) ∷ [] }

abbrev marks : Text → Facts Bool → FixedPointConfig → Bool
marks n facts c = list_beq n f_name || facts f_name

abbrev four_rounds : FixedPointConfig
four_rounds = record { max_iterations_per_scc = 4; max_provenance = 1 }

abbrev at_start : FixedPointResult Bool
at_start = record { facts = λ n. false; diagnostics = []; iterations_by_scc = [] }

abbrev rank_flag : Bool → ℕ
rank_flag true = 1
rank_flag false = 0

rank_flag-le : (a : Bool) → rank_flag a ≤ 1
rank_flag-le true = omega arith
rank_flag-le false = omega arith

rank_flag-join : (a b : Bool) → ((a || b) ≡ a) ⊎ (rank_flag a < rank_flag (a || b))
rank_flag-join true b = inl refl
rank_flag-join false true = inr (omega arith)
rank_flag-join false false = inl refl

run_component-Settled_example :
    Settled flags marks four_rounds calls at_start
      (sorted_names (f_name ∷ []))
      (run_component flags marks four_rounds calls at_start (f_name ∷ []))
    × ((n : Text)
        → elem n (sorted_names (f_name ∷ [])) ≡ false
        → (run_component flags marks four_rounds calls at_start (f_name ∷ [])).facts n ≡ false)
run_component-Settled_example =
    run_component-Settled flags marks four_rounds calls at_start (f_name ∷ [])

marks-reads : ReadsCallees flags marks four_rounds calls
marks-reads n f g h = ap (λ b. list_beq n f_name || b) (h f_name (rw (beq_refl f_name) refl))

or_absorbs : (a b : Bool) → ((a || b) || b) ≡ (a || b)
or_absorbs true b = refl
or_absorbs false true = refl
or_absorbs false false = refl

abbrev first : Text → ℕ
first [] = 0
first (c ∷ cs) = c

f_is_not_g : (f_name == g_name) ≡ false
f_is_not_g = elim (Bool-cases (f_name == g_name)) [
  | inl same ↦
      absurd (let q : 102 ≡ 103 = ap first ((text_eq.beq_iff f_name g_name).0 same) in omega arith)
  | inr differs ↦ differs
]

alone : (n : Text) → elem n (f_name ∷ []) ≡ true → (n == f_name) ≡ true
alone n h = elim (Bool-cases (n == f_name)) [
  | inl same ↦ same
  | inr differs ↦ absurd (let h1 = rw differs at h in cc h1)
]

calls-CalleesFirst : CalleesFirst calls.callees calls.bottom_up_sccs
calls-CalleesFirst = (λ n h m k. (apart n m h k, tt), (λ n h m k. tt, tt))
  where
    apart :
        (n m : Text)
        → elem n (f_name ∷ []) ≡ true
        → elem m (n ∷ f_name ∷ []) ≡ true
        → elem m (g_name ∷ []) ≡ false
    apart n m h k = elim (Bool-cases (m == f_name)) [
      | inl same ↦ let e = (text_eq.beq_iff m f_name).0 same in rw (e, f_is_not_g) refl
      | inr differs ↦ absurd (
          let e = (text_eq.beq_iff n f_name).0 (alone n h) in
          let k1 = subst (λ z. elem m (z ∷ f_name ∷ []) ≡ true) e k in
          let k2 = rw differs at k1 in cc k2)
    ]

run-converges_example :
    (result : FixedPointResult Bool) × (run flags marks four_rounds calls ≡ some result)
    × (result.diagnostics ≡ [])
    × All (λ raw. Fixed flags marks four_rounds raw result.facts) calls.bottom_up_sccs
    × ((p : Text → Bool → Type 0)
        → Kept flags marks four_rounds p
        → ((n : Text) → p n false)
        → (n : Text) → p n (result.facts n))
run-converges_example =
    run-converges flags marks four_rounds rank_flag rank_flag-le rank_flag-join or_absorbs calls
      marks-reads (omega arith) (omega arith, (omega arith, tt)) calls-CalleesFirst

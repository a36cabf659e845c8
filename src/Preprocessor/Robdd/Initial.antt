-- ===== src/Preprocessor/Robdd/Initial.antt =====
-- A new manager is well formed, and its atoms are those that it was made for, each once.
use cgull.Prelude.{
  ℕ, zero, suc, ◌≤◌, ◌<◌, Bool, true, false, not, ◌&&◌, ◌||◌, List, [], ◌∷◌, Option, none, some,
  ◌≡◌, refl, ap, sym, ◌∙◌, inl, inr, arith, length, get_elem?, lookup, exists, elem, elem-unique,
  unique, nat_eq, Bool-cases,
}
use cgull.Preprocessor.Expression.{Expression, constant, eval}
use cgull.Preprocessor.Expression.Equality.{expression_eq}
use cgull.Preprocessor.Expression.Meaning.{exists-sort}
use cgull.Preprocessor.Expression.Order.{insert_by_key, sort_by_key}
use cgull.Preprocessor.Robdd.{Node, node_eq, ResourceLimits, initial}
use cgull.Preprocessor.Robdd.Values.{value, level}
use cgull.Preprocessor.Robdd.Invariant.{IsTable, Negates, Denotes, IsSound}

module _ (ordered : List Expression) where
  abbrev bare : List (Option Node)
  bare = none ∷ none ∷ []

  bare_cases : (i : ℕ) {o : Option Node} → get_elem? bare i ≡ some o → (i < 2) × (o ≡ none)
  bare_cases zero e = (omega arith, ground arith)
  bare_cases (suc zero) e = (omega arith, ground arith)
  bare_cases (suc (suc i)) e = cc

  bare-IsTable : IsTable (length ordered) bare []
  unfolding value
  bare-IsTable = record {
    zero_node = refl;
    one_node = refl;
    terminal = λ i e. (bare_cases i e).0;
    node = λ i k e. absurd (cc ((bare_cases i e).1));
    zero_value = λ a. refl;
    one_value = λ a. refl;
    listed = λ k i e. absurd (cc e);
    found = λ i k e. absurd (cc ((bare_cases i e).1));
  }

  bare-Negates :
      (n r : ℕ) → lookup n ((0, 1) ∷ (1, 0) ∷ []) ≡ some r → Negates (length ordered) bare n r
  unfolding value level
  bare-Negates zero r e =
      let q : r ≡ 1 = ground arith in
      rw q (record {
        arg_lt = omega arith;
        lt = omega arith;
        meaning = λ a. refl;
        above = omega arith;
      })
  bare-Negates (suc zero) r e =
      let q : r ≡ 0 = ground arith in
      rw q (record {
        arg_lt = omega arith;
        lt = omega arith;
        meaning = λ a. refl;
        above = omega arith;
      })
  bare-Negates (suc (suc n)) r e = absurd (ground arith)

  bare-Denotes :
      (n : ℕ) (e : Expression)
      → lookup n ((0, constant false) ∷ (1, constant true) ∷ []) ≡ some e
      → Denotes ordered bare n e
  unfolding value eval
  bare-Denotes zero e q =
      let p : e ≡ constant false = ground arith in
      rw p (record { lt = omega arith; meaning = λ a. refl })
  bare-Denotes (suc zero) e q =
      let p : e ≡ constant true = ground arith in
      rw p (record { lt = omega arith; meaning = λ a. refl })
  bare-Denotes (suc (suc n)) e q = absurd (ground arith)

  two_le : (n : ℕ) → lookup {K = ℕ} {V = ℕ} n ((0, 1) ∷ (1, 0) ∷ []) ≡ none → 2 ≤ n
  two_le n h = ground arith

  two_le_read : (n : ℕ) → lookup n ((0, constant false) ∷ (1, constant true) ∷ []) ≡ none → 2 ≤ n
  two_le_read n h = ground arith

  -- A new manager is well formed.
  pub initial-IsSound : (limits : ResourceLimits) → IsSound ordered (initial ordered limits)
  unfolding initial
  initial-IsSound limits = record {
    same_atoms = refl;
    table = bare-IsTable;
    nots = bare-Negates;
    terminals_negated = two_le;
    applies = λ op l r x e. absurd (cc e);
    builds = λ e n q. absurd (cc q);
    terminals_read = two_le_read;
    reads = bare-Denotes;
  }

-- No entry stands twice in the list.
abbrev pub distinct : List Expression → Bool
distinct [] = true
distinct (e ∷ es) = not (elem e es) && distinct es

distinct-unique : (es : List Expression) → distinct (unique es) ≡ true
distinct-unique [] = refl
distinct-unique (e ∷ es) = elim (Bool-cases (elem e (unique es))) [
  | inl old ↦ rw old (distinct-unique es)
  | inr new ↦ rw new (rw new (distinct-unique es))
]

elem-exists :
    (x : Expression) (es : List Expression) → elem x es ≡ exists (λ y. expression_eq.beq x y) es
elem-exists x [] = refl
elem-exists x (e ∷ es) = ap (λ b. expression_eq.beq x e || b) (elem-exists x es)

pub elem-sort : (x : Expression) (es : List Expression) → elem x (sort_by_key es) ≡ elem x es
elem-sort x es =
    elem-exists x (sort_by_key es)
    ∙ exists-sort (λ y. expression_eq.beq x y) es
    ∙ sym (elem-exists x es)

elem-insert :
    (x e : Expression) (es : List Expression) → elem x (insert_by_key e es) ≡ elem x (e ∷ es)
unfolding insert_by_key
elem-insert x e [] = refl
elem-insert x e (y ∷ es) = ground (arith, elem-insert x e es)

distinct-insert :
    (e : Expression) (es : List Expression) → distinct (insert_by_key e es) ≡ distinct (e ∷ es)
unfolding insert_by_key
distinct-insert e [] = refl
distinct-insert e (y ∷ es) = ground (
  arith,
  distinct-insert e es,
  elem-insert y e es,
  expression_eq.beq_iff y e,
  expression_eq.beq_iff e y,
)

distinct-sort : (es : List Expression) → distinct (sort_by_key es) ≡ distinct es
unfolding sort_by_key
distinct-sort [] = refl
distinct-sort (e ∷ es) =
    distinct-insert e (sort_by_key es)
    ∙ ap (λ b. not b && distinct (sort_by_key es)) (elem-sort e es)
    ∙ ap (λ b. not (elem e es) && b) (distinct-sort es)

-- Sorting the set of some atoms gives each of them, once.
pub sort_unique_lem :
    (es : List Expression)
    → (distinct (sort_by_key (unique es)) ≡ true)
      × ((x : Expression) → elem x (sort_by_key (unique es)) ≡ elem x es)
sort_unique_lem es = (
  distinct-sort (unique es) ∙ distinct-unique es,
  λ x. elem-sort x (unique es) ∙ elem-unique x es,
)

-- ===== src/Preprocessor/Robdd/Nodes.antt =====
-- `consume`, `item` and `make_node` keep a manager well formed, and what they return.
use cgull.Prelude.{
  ℕ, zero, suc, ◌+◌, ◌-◌, ◌≤◌, ◌<◌, Bool, List, [], ◌∷◌, ◌++◌, Option, none, some, ◌≡◌, ◌≢◌, refl,
  ap, ◌∙◌, subst, ◌⊎◌, inl, inr, arith, if◌then◌else◌, length, get_elem?, lookup,
  get_elem?-append_last, get_elem?-lt, get_elem?_total, lookup-cons, lookup-cons_self,
  lookup-cons_ne, Bool-cases, ltb, eqb, eqb_iff, nat_eq,
}
use cgull.Preprocessor.Exec.{◌>>=◌, or_else}
use cgull.Preprocessor.Expression.{Expression}
use cgull.Preprocessor.Robdd.{
  Node, node_eq, Manager, consume, item, push_node, intern_node, make_node,
}
use cgull.Preprocessor.Robdd.Values.{value, level, value-append_last}
use cgull.Preprocessor.Robdd.Invariant.{
  Grows, Grows-refl, Grows-push, level-Grows, IsNode, IsTable, Negates-Grows, Applies-Grows,
  Denotes-Grows, IsSound, Meets, Meets-bind, Meets-ok, Meets-weaken,
}

pub IsSound-budget :
    {ordered : List Expression} (m : Manager) (used : ℕ)
    → IsSound ordered m
    → IsSound ordered (record m { budget = used })
IsSound-budget m used s = record {
  same_atoms = s.same_atoms;
  table = s.table;
  nots = s.nots;
  terminals_negated = s.terminals_negated;
  terminals_read = s.terminals_read;
  applies = s.applies;
  builds = s.builds;
  reads = s.reads;
}

pub consume-Meets :
    {ordered : List Expression} (m : Manager)
    → IsSound ordered m
    → Meets ordered m (λ _ m'. m'.interned ≡ m.interned) (consume m)
unfolding consume
consume-Meets m s = elim (Bool-cases (ltb m.limits.max_work (m.budget + 1))) [
  | inl over ↦ rw over (record {
    sound = IsSound-budget m (m.budget + 1) s;
    grows = Grows-refl m.nodes;
    result = tt;
  })
  | inr within ↦ rw within (record {
    sound = IsSound-budget m (m.budget + 1) s;
    grows = Grows-refl m.nodes;
    result = refl;
  })
]

pub item-Meets :
    {ordered : List Expression} (m : Manager) (n : ℕ)
    → IsSound ordered m
    → n < length m.nodes
    → 2 ≤ n
    → Meets ordered m (λ k m'. get_elem? m'.nodes n ≡ some (some k)) (item n m)
unfolding item
item-Meets {ordered} m n s h two =
    go (get_elem?_total m.nodes n h).0 (get_elem?_total m.nodes n h).1
  where
    go :
        (o : Option Node)
        → get_elem? m.nodes n ≡ some o
        → Meets ordered m (λ k m'. get_elem? m'.nodes n ≡ some (some k)) (item n m)
    go none e = absurd (omega (arith, s.table.terminal n e))
    go (some k) e = rw (e, item) (record { sound = s; grows = Grows-refl m.nodes; result = e })

-- An entry of a list with one more element is an old one or the last.
elem_cases {ℓ} :
    {A : Type ℓ} (xs : List A) (x : A) (i : ℕ) {y : A}
    → get_elem? (xs ++ x ∷ []) i ≡ some y
    → (i < length xs) × (get_elem? xs i ≡ some y) ⊎ (i ≡ length xs) × (x ≡ y)
elem_cases [] x zero h = inr (refl, ground arith)
elem_cases [] x (suc i) h = cc
elem_cases (z ∷ xs) x zero h = inl (omega arith, h)
elem_cases (z ∷ xs) x (suc i) h = elim (elem_cases xs x i h) [
  | inl old ↦ inl (omega (arith, old.0), old.1)
  | inr last ↦ inr (ap suc last.0, last.1)
]

module _ (count : ℕ) (ns : List (Option Node)) where
  -- The children of a node to come: valid, and below the atom that it tests.
  pub record IsReady (v low high : ℕ) : Type 0 where
    pub atom_lt : v < count
    pub low_lt : low < length ns
    pub high_lt : high < length ns
    pub low_level : v < level count ns low
    pub high_level : v < level count ns high

  -- Node `r` is the choice by atom `v` between two nodes.
  pub record Chooses (v low high r : ℕ) : Type 0 where
    pub lt : r < length ns
    pub meaning : (a : ℕ → Bool) → value a ns r ≡ (if a v then value a ns high else value a ns low)
    pub above : v ≤ level count ns r

  pub IsNode-Chooses :
      (i : ℕ) (k : Node)
      → get_elem? ns i ≡ some (some k)
      → IsNode count ns i k
      → Chooses k.atom_index k.low k.high i
  unfolding level
  IsNode-Chooses i k e n = record {
    lt = get_elem?-lt ns i e;
    meaning = n.branches;
    above = rw e (omega arith);
  }

module _ {count : ℕ} {ns ns' : List (Option Node)} (g : Grows ns ns') where
  IsNode-Grows : (i : ℕ) (k : Node) → i < length ns → IsNode count ns i k → IsNode count ns' i k
  IsNode-Grows i k h n = record {
    low_lt = n.low_lt;
    high_lt = n.high_lt;
    reduced = n.reduced;
    low_level = omega (arith, n.low_level, level-Grows g count k.low (omega (arith, n.low_lt)));
    high_level = omega (arith, n.high_level, level-Grows g count k.high (omega (arith, n.high_lt)));
    atom_lt = n.atom_lt;
    branches = λ a.
        rw
          (
            g.same a i h,
            g.same a k.low (omega (arith, n.low_lt)),
            g.same a k.high (omega (arith, n.high_lt)),
          )
          (n.branches a);
  }

  pub IsReady-Grows : (v low high : ℕ) → IsReady count ns v low high → IsReady count ns' v low high
  IsReady-Grows v low high r = record {
    atom_lt = r.atom_lt;
    low_lt = omega (arith, r.low_lt, g.longer);
    high_lt = omega (arith, r.high_lt, g.longer);
    low_level = omega (arith, r.low_level, level-Grows g count low r.low_lt);
    high_level = omega (arith, r.high_level, level-Grows g count high r.high_lt);
  }

module _ {count : ℕ} (ns : List (Option Node)) (interned : List (Node × ℕ)) (k : Node)
    (t : IsTable count ns interned) (ready : IsReady count ns k.atom_index k.low k.high)
    (distinct : k.low ≢ k.high) (absent : lookup k interned ≡ none) where
  abbrev grown : List (Option Node)
  grown = ns ++ some k ∷ []

  pushed : Grows ns grown
  pushed = Grows-push ns (some k)

  pushed-IsNode : IsNode count grown (length ns) k
  pushed-IsNode = record {
    low_lt = ready.low_lt;
    high_lt = ready.high_lt;
    reduced = distinct;
    low_level = omega (arith, ready.low_level, level-Grows pushed count k.low ready.low_lt);
    high_level = omega (arith, ready.high_level, level-Grows pushed count k.high ready.high_lt);
    atom_lt = ready.atom_lt;
    branches = λ a.
        rw (pushed.same a k.low ready.low_lt, pushed.same a k.high ready.high_lt)
          (value-append_last a ns k);
  }

  pushed-IsTable : IsTable count grown ((k, length ns) ∷ interned)
  pushed-IsTable = record {
    zero_node = pushed.kept 0 (get_elem?-lt ns 0 t.zero_node) ∙ t.zero_node;
    one_node = pushed.kept 1 (get_elem?-lt ns 1 t.one_node) ∙ t.one_node;
    terminal = λ i e. elim (elem_cases ns (some k) i e) [
      | inl old ↦ t.terminal i old.1
      | inr last ↦ absurd (cc (last.1))
    ];
    node = λ i j e. elim (elem_cases ns (some k) i e) [
      | inl old ↦ IsNode-Grows pushed i j old.0 (t.node i j old.1)
      | inr last ↦
          let same_node : k ≡ j = ground (arith, last.1) in
          subst (λ n. IsNode count grown i n) same_node (rw (last.0) pushed-IsNode)
    ];
    zero_value = λ a. pushed.same a 0 (get_elem?-lt ns 0 t.zero_node) ∙ t.zero_value a;
    one_value = λ a. pushed.same a 1 (get_elem?-lt ns 1 t.one_node) ∙ t.one_value a;
    listed = λ j i e. elim (lookup-cons j k (length ns) interned e) [
      | inl new ↦ rw (← new.1, ← new.0) (get_elem?-append_last ns (some k))
      | inr old ↦
          let before = t.listed j i old.1 in pushed.kept i (get_elem?-lt ns i before) ∙ before
    ];
    found = λ i j e. elim (elem_cases ns (some k) i e) [
      | inl old ↦
          let before = t.found i j old.1 in
          lookup-cons_ne j k (length ns) interned (λ q. cc (absent, before, q)) ∙ before
      | inr last ↦
          let same_node : k ≡ j = ground (arith, last.1) in
          subst (λ n. lookup n ((k, length ns) ∷ interned) ≡ some i) same_node
            (rw (last.0) (lookup-cons_self k (length ns) interned))
    ];
  }

module _ {ordered : List Expression} (m : Manager) (k : Node) (s : IsSound ordered m) where
  push_node-Meets :
      IsReady (length ordered) m.nodes k.atom_index k.low k.high
      → k.low ≢ k.high
      → lookup k m.interned ≡ none
      → Meets ordered m (λ r m'. get_elem? m'.nodes r ≡ some (some k)) (push_node k m)
  unfolding push_node
  push_node-Meets ready distinct absent =
      elim (Bool-cases (ltb m.limits.max_bdd_nodes (length m.nodes - 1))) [
        | inl over ↦ rw over (record { sound = s; grows = Grows-refl m.nodes; result = tt })
        | inr within ↦
            let g = Grows-push m.nodes (some k) in
            rw within (record {
              sound = record {
                same_atoms = s.same_atoms;
                table = pushed-IsTable m.nodes m.interned k s.table ready distinct absent;
                terminals_negated = s.terminals_negated;
                terminals_read = s.terminals_read;
                nots = λ n r e. Negates-Grows g (s.nots n r e);
                applies = λ op l r x e. Applies-Grows g (s.applies op l r x e);
                builds = λ e n h. Denotes-Grows g (s.builds e n h);
                reads = λ n e h. Denotes-Grows g (s.reads n e h);
              };
              grows = g;
              result = get_elem?-append_last m.nodes (some k);
            })
      ]

  -- A triple that is interned is found again, and any other is pushed.
  intern_cases :
      (o : Option ℕ)
      → lookup k m.interned ≡ o
      → IsReady (length ordered) m.nodes k.atom_index k.low k.high
      → k.low ≢ k.high
      → ((m' : Manager)
          → IsSound ordered m'
          → Grows m.nodes m'.nodes
          → lookup k m'.interned ≡ none
          → Meets ordered m' (λ r m''. get_elem? m''.nodes r ≡ some (some k)) (push_node k m'))
      → Meets ordered m
          (λ r m'. get_elem? m'.nodes r ≡ some (some k))
          (or_else o (consume >>= λ _. push_node k) m)
  intern_cases (some i) e ready distinct push =
      Meets-ok m (λ r m'. get_elem? m'.nodes r ≡ some (some k)) i s (s.table.listed k i e)
  intern_cases none e ready distinct push =
      Meets-bind m (λ _ m'. m'.interned ≡ m.interned) (λ r m'. get_elem? m'.nodes r ≡ some (some k))
        consume (λ _. push_node k) (consume-Meets m s) (λ _ m' s' g i. push m' s' g (rw i e))

pub intern_node-Meets :
    {ordered : List Expression} (m : Manager) (k : Node)
    → IsSound ordered m
    → IsReady (length ordered) m.nodes k.atom_index k.low k.high
    → k.low ≢ k.high
    → Meets ordered m (λ r m'. get_elem? m'.nodes r ≡ some (some k)) (intern_node k m)
unfolding intern_node
intern_node-Meets m k s ready distinct =
    intern_cases m k s (lookup k m.interned) refl ready distinct (λ m' s' g absent.
      push_node-Meets m' k s' (IsReady-Grows g k.atom_index k.low k.high ready) distinct absent)

-- `_node` returns a node that chooses between its arguments.
pub make_node-Meets :
    {ordered : List Expression} (m : Manager) (v low high : ℕ)
    → IsSound ordered m
    → IsReady (length ordered) m.nodes v low high
    → Meets ordered m
        (λ r m'. Chooses (length ordered) m'.nodes v low high r)
        (make_node v low high m)
unfolding make_node
make_node-Meets {ordered} m v low high s ready = elim (Bool-cases (eqb low high)) [
  | inl e ↦ rw e (
      Meets-ok m (λ r m'. Chooses (length ordered) m'.nodes v low high r) low s
        (record {
          lt = ready.low_lt;
          meaning = λ a. rw (← (eqb_iff low high).0 e) (ground arith);
          above = omega (arith, ready.low_level);
        }))
  | inr ne ↦
      let k : Node = record { atom_index = v; low = low; high = high } in
      rw ne (
        Meets-weaken m (λ r m'. get_elem? m'.nodes r ≡ some (some k))
          (λ r m'. Chooses (length ordered) m'.nodes v low high r) (intern_node k m)
          (λ r m' s' _ e. IsNode-Chooses (length ordered) m'.nodes r k e (s'.table.node r k e))
          (intern_node-Meets m k s ready (λ q. cc ((eqb_iff low high).1 q, ne))))
]

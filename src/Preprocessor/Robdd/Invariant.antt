-- ===== src/Preprocessor/Robdd/Invariant.antt =====
-- The well-formedness of a manager: the node table is reduced, ordered and interned, and each
-- cache holds right results. `Meets` says of a call that the manager stays well formed and its
-- nodes stay as they are, whether the call returns or raises, and that it raises nothing but
-- `AnalysisLimitExceeded`.
use cgull.Prelude.{
  ℕ, ◌≤◌, ◌<◌, min, Bool, true, false, not, ◌&&◌, ◌||◌, List, Option, none, some, ◌≡◌, ◌≢◌, refl,
  ap, sym, ◌∙◌, arith, if◌then◌else◌, length, get_or, get_elem?, lookup, length-append,
  get_elem?-append, List, [], ◌∷◌, ◌++◌, nat_eq, pair_eq,
}
use cgull.Preprocessor.Exec.{limit_exceeded, Result, ok, raised, continue, ◌>>=◌}
use cgull.Preprocessor.Expression.{Expression, constant, Assignment, eval}
use cgull.Preprocessor.Expression.Equality.{expression_eq}
use cgull.Preprocessor.Robdd.{Node, node_eq, Operation, and, or, operation_eq, Manager, M}
use cgull.Preprocessor.Robdd.Values.{value, level, value-append}

abbrev pub operate : Operation → Bool → Bool → Bool
operate and b c = b && c
operate or b c = b || c

pub record Grows (ns ns' : List (Option Node)) : Type 0 where
  pub longer : length ns ≤ length ns'
  pub kept : (i : ℕ) → i < length ns → get_elem? ns' i ≡ get_elem? ns i
  pub same : (a : ℕ → Bool) (i : ℕ) → i < length ns → value a ns' i ≡ value a ns i

pub Grows-refl : (ns : List (Option Node)) → Grows ns ns
Grows-refl ns = record { longer = omega arith; kept = λ i h. refl; same = λ a i h. refl }

pub Grows-trans : {ns ns' ns'' : List (Option Node)} → Grows ns ns' → Grows ns' ns'' → Grows ns ns''
Grows-trans g h = record {
  longer = omega arith;
  kept = λ i l. h.kept i (omega arith) ∙ g.kept i l;
  same = λ a i l. h.same a i (omega arith) ∙ g.same a i l;
}

pub Grows-push : (ns : List (Option Node)) (n : Option Node) → Grows ns (ns ++ n ∷ [])
Grows-push ns n = record {
  longer = omega (arith, length-append ns (n ∷ []));
  kept = λ i l. get_elem?-append ns (n ∷ []) i l;
  same = λ a i l. value-append a ns n i l;
}

-- The assignment of the atoms' numbers that an assignment of atoms gives.
abbrev pub numbered : List Expression → Assignment → ℕ → Bool
numbered ordered a i = a (get_or ordered i (constant false))

module _ (count : ℕ) (ns : List (Option Node)) where
  -- Node `i` is the triple `k`: reduced, ordered, over earlier nodes.
  pub record IsNode (i : ℕ) (k : Node) : Type 0 where
    pub low_lt : k.low < i
    pub high_lt : k.high < i
    pub reduced : k.low ≢ k.high
    pub low_level : k.atom_index < level count ns k.low
    pub high_level : k.atom_index < level count ns k.high
    pub atom_lt : k.atom_index < count
    pub branches :
        (a : ℕ → Bool)
        → value a ns i ≡ (if a k.atom_index then value a ns k.high else value a ns k.low)

  pub record IsTable (interned : List (Node × ℕ)) : Type 0 where
    pub zero_node : get_elem? ns 0 ≡ some none
    pub one_node : get_elem? ns 1 ≡ some none
    pub terminal : (i : ℕ) → get_elem? ns i ≡ some none → i < 2
    pub node : (i : ℕ) (k : Node) → get_elem? ns i ≡ some (some k) → IsNode i k
    pub zero_value : (a : ℕ → Bool) → value a ns 0 ≡ false
    pub one_value : (a : ℕ → Bool) → value a ns 1 ≡ true
    pub listed : (k : Node) (i : ℕ) → lookup k interned ≡ some i → get_elem? ns i ≡ some (some k)
    pub found : (i : ℕ) (k : Node) → get_elem? ns i ≡ some (some k) → lookup k interned ≡ some i

  pub record Negates (n r : ℕ) : Type 0 where
    pub arg_lt : n < length ns
    pub lt : r < length ns
    pub meaning : (a : ℕ → Bool) → value a ns r ≡ not (value a ns n)
    pub above : level count ns n ≤ level count ns r

  pub record Applies (op : Operation) (left right r : ℕ) : Type 0 where
    pub left_lt : left < length ns
    pub right_lt : right < length ns
    pub lt : r < length ns
    pub meaning : (a : ℕ → Bool) → value a ns r ≡ operate op (value a ns left) (value a ns right)
    pub above : min (level count ns left) (level count ns right) ≤ level count ns r

-- Node `n` has the meaning of the expression.
pub record Denotes (ordered : List Expression) (ns : List (Option Node)) (n : ℕ) (e : Expression)
    : Type 0 where
  pub lt : n < length ns
  pub meaning : (a : Assignment) → value (numbered ordered a) ns n ≡ eval a e

module _ {ns ns' : List (Option Node)} (g : Grows ns ns') where
  pub level-Grows : (count i : ℕ) → i < length ns → level count ns' i ≡ level count ns i
  unfolding level
  level-Grows count i h = rw (g.kept i h)

  pub Negates-Grows : {count n r : ℕ} → Negates count ns n r → Negates count ns' n r
  Negates-Grows {count} {n} {r} h = record {
    arg_lt = omega arith;
    lt = omega arith;
    meaning = λ a. g.same a r h.lt ∙ h.meaning a ∙ ap not (sym (g.same a n h.arg_lt));
    above = omega (arith, level-Grows count n h.arg_lt, level-Grows count r h.lt);
  }

  pub Applies-Grows :
      {count : ℕ} {op : Operation} {l r x : ℕ}
      → Applies count ns op l r x
      → Applies count ns' op l r x
  Applies-Grows {count} {op} {l} {r} {x} h = record {
    left_lt = omega arith;
    right_lt = omega arith;
    lt = omega arith;
    meaning = λ a. rw (g.same a x h.lt, g.same a l h.left_lt, g.same a r h.right_lt) (h.meaning a);
    above = omega (
      arith,
      level-Grows count l h.left_lt,
      level-Grows count r h.right_lt,
      level-Grows count x h.lt,
    );
  }

  pub Denotes-Grows :
      {ordered : List Expression} {n : ℕ} {e : Expression}
      → Denotes ordered ns n e
      → Denotes ordered ns' n e
  Denotes-Grows {ordered} {n} {e} h = record {
    lt = omega arith;
    meaning = λ a. g.same (numbered ordered a) n h.lt ∙ h.meaning a;
  }

pub record IsSound (ordered : List Expression) (m : Manager) : Type 0 where
  pub same_atoms : m.atom_list ≡ ordered
  pub table : IsTable (length ordered) m.nodes m.interned
  pub nots : (n r : ℕ) → lookup n m.not_cache ≡ some r → Negates (length ordered) m.nodes n r
  pub terminals_negated : (n : ℕ) → lookup n m.not_cache ≡ none → 2 ≤ n
  pub applies :
      (op : Operation) (l r x : ℕ)
      → lookup (op, (l, r)) m.apply_cache ≡ some x
      → Applies (length ordered) m.nodes op l r x
  pub builds :
      (e : Expression) (n : ℕ) → lookup e m.build_cache ≡ some n → Denotes ordered m.nodes n e
  pub terminals_read : (n : ℕ) → lookup n m.expression_cache ≡ none → 2 ≤ n
  pub reads :
      (n : ℕ) (e : Expression) → lookup n m.expression_cache ≡ some e → Denotes ordered m.nodes n e

-- What the result of a call satisfies.
abbrev pub Holds : {A : Type 0} → (A → Manager → Type 0) → Result A → Manager → Type 0
Holds P (ok a) m = P a m
Holds P (raised (limit_exceeded r l o)) m = Unit
Holds P (raised f) m = ⊥

pub record Meets {A : Type 0} (ordered : List Expression) (m : Manager) (P : A → Manager → Type 0)
    (r : Result A × Manager) : Type 0 where
  pub sound : IsSound ordered r.1
  pub grows : Grows m.nodes r.1.nodes
  pub result : Holds P r.0 r.1

module _ {ordered : List Expression} {A B : Type 0} where
  continue-Meets :
      (m : Manager) (P : A → Manager → Type 0) (Q : B → Manager → Type 0) (r : Result A)
      (m' : Manager) (f : A → M B)
      → IsSound ordered m'
      → Grows m.nodes m'.nodes
      → Holds P r m'
      → ((a : A) (m'' : Manager)
          → IsSound ordered m''
          → Grows m.nodes m''.nodes
          → P a m''
          → Meets ordered m'' Q (f a m''))
      → Meets ordered m Q (continue r f m')
  continue-Meets m P Q (ok a) m' f s g h k =
      let q = k a m' s g h in
      record { sound = q.sound; grows = Grows-trans g q.grows; result = q.result }
  continue-Meets m P Q (raised (limit_exceeded r l o)) m' f s g h k = record {
    sound = s;
    grows = g;
    result = tt;
  }
  continue-Meets m P Q (raised e) m' f s g h k = absurd h

  -- The rest of a `do` block may use what the first call has established.
  pub Meets-bind :
      (m : Manager) (P : A → Manager → Type 0) (Q : B → Manager → Type 0) (x : M A) (f : A → M B)
      → Meets ordered m P (x m)
      → ((a : A) (m' : Manager)
          → IsSound ordered m'
          → Grows m.nodes m'.nodes
          → P a m'
          → Meets ordered m' Q (f a m'))
      → Meets ordered m Q ((x >>= f) m)
  Meets-bind m P Q x f h k = continue-Meets m P Q (x m).0 (x m).1 f h.sound h.grows h.result k

module _ {ordered : List Expression} {A : Type 0} where
  pub Meets-ok :
      (m : Manager) (P : A → Manager → Type 0) (a : A)
      → IsSound ordered m
      → P a m
      → Meets ordered m P (ok a, m)
  Meets-ok m P a s p = record { sound = s; grows = Grows-refl m.nodes; result = p }

-- A weaker claim on the result.
pub Meets-weaken :
    {ordered : List Expression} {A : Type 0} (m : Manager) (P Q : A → Manager → Type 0)
    (r : Result A × Manager)
    → ((a : A) (m' : Manager) → IsSound ordered m' → Grows m.nodes m'.nodes → P a m' → Q a m')
    → Meets ordered m P r
    → Meets ordered m Q r
Meets-weaken m P Q (ok a, m') f h = record {
  sound = h.sound;
  grows = h.grows;
  result = f a m' h.sound h.grows h.result;
}
Meets-weaken m P Q (raised (limit_exceeded r l o), m') f h = record {
  sound = h.sound;
  grows = h.grows;
  result = tt;
}
Meets-weaken m P Q (raised e, m') f h = absurd h.result

-- ===== src/Preprocessor/Profiles/Possible.antt =====
-- `_branch_possible` of profile_reduction.py answers whether some assignment that agrees with the
-- flags makes the condition true.
use cgull.Prelude.{
  ℕ, zero, suc, ◌≤◌, ◌<◌, Bool, true, false, List, [], ◌∷◌, Option, none, some, ◌≡◌, ◌↔◌, refl, ap,
  sym, ◌∙◌, subst, inl, inr, arith, if◌then◌else◌, length, get_elem?, get_elem?_total, lookup,
  lookup-cons, nat_eq, Bool-cases, Option-cases, every_intro, unique, ltb, elem,
}
use cgull.Preprocessor.Exec.{Result, ok, raised, Exec}
use cgull.Preprocessor.Expression.{Expression, Assignment, eval, expression_atoms}
use cgull.Preprocessor.Expression.Equality.{expression_eq}
use cgull.Preprocessor.Expression.Order.{sort_by_key}
use cgull.Preprocessor.Profiles.{
  Flags, BranchModel, atom_value, Memo, follow, possible, branch_possible, model_of, branch_model,
}
use cgull.Preprocessor.Profiles.Agreeing.{
  Agrees, Agrees-Follows, Live, free_iff, known_iff, one-Live, Live-iff,
}
use cgull.Preprocessor.Robdd.{ResourceLimits, Node, Manager, initial, build}
use cgull.Preprocessor.Robdd.Build.{build-Meets}
use cgull.Preprocessor.Robdd.BuildParts.{IsBuilt}
use cgull.Preprocessor.Robdd.Canonical.{node_cases}
use cgull.Preprocessor.Robdd.Initial.{initial-IsSound, sort_unique_lem}
use cgull.Preprocessor.Robdd.Invariant.{IsSound, IsNode, Denotes, Holds}

module _ (flags : Flags) (ordered : List Expression) (model : BranchModel)
    (s : IsSound ordered model.bdd) where
  abbrev ns : List (Option Node)
  ns = model.bdd.nodes

  abbrev IsLive : ℕ → Type 0
  IsLive n = Live flags ordered s.table n

  -- What the memo holds is right, and it holds the terminals.
  record IsMemo (memo : Memo) : Type 0 where
    right : (n : ℕ) (b : Bool) → lookup n memo ≡ some b → (b ≡ true) ↔ IsLive n
    terminals : (n : ℕ) → lookup n memo ≡ none → 2 ≤ n

  -- The call returns, and its answer is right.
  abbrev Answers : Type 0 → Result Bool × Memo → Type 0
  Answers P r = (b : Bool) × (memo : Memo) × (r ≡ (ok b, memo)) × IsMemo memo × ((b ≡ true) ↔ P)

  IsMemo-cons :
      (n : ℕ) (b : Bool) (memo : Memo)
      → ((b ≡ true) ↔ IsLive n)
      → IsMemo memo
      → IsMemo ((n, b) ∷ memo)
  IsMemo-cons n b memo h m = record {
    right = λ i c e. elim (lookup-cons i n b memo e) [
      | inl (here, same) ↦
          subst (λ j. (c ≡ true) ↔ IsLive j) here (subst (λ d. (d ≡ true) ↔ IsLive n) same h)
      | inr (_, old) ↦ m.right i c old
    ];
    terminals = λ i e. m.terminals i (ground (arith, e));
  }

  follow-Answers :
      (again : ℕ → Exec Memo Bool) (n : ℕ) (k : Node) (x : Expression) (memo : Memo)
      → get_elem? ns n ≡ some (some k)
      → get_elem? ordered k.atom_index ≡ some x
      → ((i : ℕ) (memo : Memo) → i < n → IsMemo memo → Answers (IsLive i) (again i memo))
      → IsMemo memo
      → Answers (IsLive n) (follow again k (atom_value flags x) memo)
  follow-Answers again n k x memo e at ih m = elim (Option-cases (atom_value flags x)) [
    | inl free ↦
        let split = free_iff flags ordered s.table n k x e at free in
        let (b, memo1, q, m1, l) = ih k.low memo node.low_lt m in
        let (c, memo2, q', m2, h) = ih k.high memo1 node.high_lt m1 in
        elim (Bool-cases b) [
          | inl up ↦
              (true, memo1, rw (free, q, up) refl, m1, (λ _. split.1 (inl (l.0 up)), λ _. refl))
          | inr down ↦ (
            c,
            memo2,
            rw (free, q, down) q',
            m2,
            (
              λ t. split.1 (inr (h.0 t)),
              λ live. elim (split.0 live) [
                | inl low ↦ absurd (cc (l.1 low, down))
                | inr high ↦ h.1 high
              ],
            ),
          )
        ]
    | inr (v, known) ↦
        let (b, memo1, q, m1, h) = ih (if v then k.high else k.low) memo (child v) m in
        let same = known_iff flags ordered s.table n k x v e at known in
        (b, memo1, rw known q, m1, (λ t. same.1 (h.0 t), λ live. h.1 (same.0 live)))
  ]
    where
      node : IsNode (length ordered) ns n k
      node = s.table.node n k e

      child : (v : Bool) → (if v then k.high else k.low) < n
      child true = node.high_lt
      child false = node.low_lt

  possible-Answers :
      (fuel n : ℕ) (memo : Memo)
      → n < fuel
      → n < length ns
      → IsMemo memo
      → Answers (IsLive n) (possible model flags fuel n memo)
  unfolding possible
  possible-Answers zero n memo lt h m = absurd (omega arith)
  possible-Answers (suc fuel) n memo lt h m = elim (Option-cases (lookup n memo)) [
    | inr (b, old) ↦ (b, memo, rw old refl, m, m.right n b old)
    | inl new ↦ elim (node_cases s.table n h) [
      | inl (small, _) ↦ absurd (omega (arith, m.terminals n new))
      | inr (k, e) ↦
          let node = s.table.node n k e in
          let (x, at) = get_elem?_total ordered k.atom_index node.atom_lt in
          let at' = ap (λ l. get_elem? l k.atom_index) s.same_atoms ∙ at in
          let (b, memo', q, m', live) =
            follow-Answers (possible model flags fuel) n k x memo e at
              (λ i memo1 l m1.
                possible-Answers fuel i memo1 (omega (arith, l)) (omega (arith, l)) m1)
              m in
          (b, (n, b) ∷ memo', rw (new, e, at', q) refl, IsMemo-cons n b memo' live m', live)
    ]
  ]

  start-IsMemo : IsMemo ((0, false) ∷ (1, true) ∷ [])
  start-IsMemo = record { right = right; terminals = terminals }
    where
      right :
          (n : ℕ) (b : Bool)
          → lookup n ((0, false) ∷ (1, true) ∷ []) ≡ some b
          → (b ≡ true) ↔ IsLive n
      right zero b h =
          (λ t. absurd (cc (h, t)), λ (a, _, holds). absurd (cc (sym holds ∙ s.table.zero_value a)))
      right (suc zero) b h = (λ _. one-Live flags ordered s.table, λ _. cc h)
      right (suc (suc n)) b h = absurd (ground arith)

      terminals : (n : ℕ) → lookup n ((0, false) ∷ (1, true) ∷ []) ≡ none → 2 ≤ n
      terminals zero h = absurd (cc h)
      terminals (suc zero) h = absurd (cc h)
      terminals (suc (suc n)) h = omega arith

-- What `branch_model` returns for a condition is a well-formed manager and a node with the
-- condition's meaning.
abbrev ordered_atoms : Expression → List Expression
ordered_atoms e = sort_by_key (unique (expression_atoms e))

abbrev Models : Expression → BranchModel → Type 0
Models e model =
    IsSound (ordered_atoms e) model.bdd × Denotes (ordered_atoms e) model.bdd.nodes model.root e

branch_model-Models :
    (index offset : ℕ) (e : Expression) (limits : ResourceLimits) (model : BranchModel)
    → branch_model index offset e limits ≡ ok model
    → Models e model
unfolding branch_model
branch_model-Models index offset e limits model h =
    let found = expression_atoms e in
    let ordered = ordered_atoms e in
    let (u, same) = sort_unique_lem found in
    elim (Bool-cases (ltb limits.max_atoms (length ordered))) [
      | inl over ↦ absurd (cc (rw over at h))
      | inr within ↦
          let start = initial ordered limits in
          let built =
            build-Meets ordered e start
              (every_intro (λ x. elem x ordered) found (λ x k. same x ∙ k))
              (initial-IsSound ordered limits) in
          after (build e start).0 (build e start).1 built.sound built.result (rw within at h)
    ]
  where
    after :
        (r : Result ℕ) (m : Manager)
        → IsSound (ordered_atoms e) m
        → Holds (IsBuilt (ordered_atoms e) e) r m
        → model_of index offset (r, m) ≡ ok model
        → Models e model
    after (ok n) m s d q =
        let same : record { source_index = index; offset = offset; bdd = m; root = n } ≡ model =
          cc q in
        subst (Models e) same (s, d)
    after (raised f) m s d q = absurd (cc q)

-- For every model of a condition that was compiled within the limits and all flags,
-- `_branch_possible` returns, and answers `True` exactly if the condition is true in some
-- configuration that the flags describe: a macro is defined as its flag says and not without one,
-- its value is true for a flag without a value and for a number other than 0, and free for a text.
pub branch_possible_exact :
    (index offset : ℕ) (e : Expression) (limits : ResourceLimits) (flags : Flags)
    (model : BranchModel)
    → branch_model index offset e limits ≡ ok model
    → (b : Bool) × (branch_possible model flags ≡ ok b)
      × ((b ≡ true) ↔ ((a : Assignment) × Agrees flags a × (eval a e ≡ true)))
unfolding branch_possible
branch_possible_exact index offset e limits flags model h =
    let ordered = ordered_atoms e in
    let (s, d) = branch_model-Models index offset e limits model h in
    let (b, memo, q, _, live) =
      possible-Answers flags ordered model s (suc model.root) model.root _ (omega arith) d.lt
        (start-IsMemo flags ordered model s) in
    let exact =
      Live-iff flags ordered s.table model.root (sort_unique_lem (expression_atoms e)).0 d.lt in
    (
      b,
      ap (λ r. r.0) q,
      (
        λ t.
            let (a, follows, holds) = exact.0 (live.0 t) in
            (a, (Agrees-Follows flags a).1 follows, sym (d.meaning a) ∙ holds),
        λ (a, agrees, holds).
            live.1 (exact.1 (a, (Agrees-Follows flags a).0 agrees, d.meaning a ∙ holds)),
      ),
    )

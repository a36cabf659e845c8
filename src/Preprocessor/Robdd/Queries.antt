-- ===== src/Preprocessor/Robdd/Queries.antt =====
-- The rest of robdd.py: reading a diagram back, witnesses, and the public query helpers, which
-- answer conservatively where a resource limit is exceeded.
use cgull.Prelude.{
  ℕ, zero, suc, Bool, true, false, not, List, [], ◌∷◌, ◌++◌, Option, none, some, ltb, eqb,
  if◌then◌else◌, lookup, get_elem?, ◌==◌, nat_eq, unique, map,
}
use cgull.Preprocessor.Exec.{
  limit_exceeded, index_error, recursion_error, Result, ok, raised, pure, raise, gets, update,
  ◌>>=◌, ◌>>◌, or_else,
}
use cgull.Preprocessor.Expression.{Expression, constant, expression_atoms, expression_size}
use cgull.Preprocessor.Expression.Equality.{expression_eq, same}
use cgull.Preprocessor.Expression.Order.{sort_by_key}
use cgull.Preprocessor.Expression.Simplify.{simplify, conjunction, disjunction}
use cgull.Preprocessor.Expression.Simplify
use cgull.Preprocessor.Robdd.{
  ResourceLimits, Manager, M, and, new_manager, consume, item, negate, apply, build,
}

-- `self.atoms[index]`.
unfoldable pub atom_at : ℕ → M Expression
atom_at i m = elim (get_elem? m.atom_list i) [ none ↦ (raised index_error, m) | some e ↦ (ok e, m) ]

-- The expression for a node, from those of its children.
unfoldable pub combine : Expression → Expression → Expression → Expression
unfolding conjunction disjunction Simplify.negate
combine atom low high =
    if low == constant false
    then conjunction (atom ∷ high ∷ [])
    else if high == constant false
    then conjunction (Simplify.negate atom ∷ low ∷ [])
    else if low == constant true
    then disjunction (Simplify.negate atom ∷ high ∷ [])
    else if high == constant true
    then disjunction (atom ∷ low ∷ [])
    else disjunction
        (conjunction (Simplify.negate atom ∷ low ∷ []) ∷ conjunction (atom ∷ high ∷ []) ∷ [])

unfoldable pub to_expression_fuel : ℕ → ℕ → M Expression
unfolding consume item atom_at combine
to_expression_fuel zero n = raise recursion_error
to_expression_fuel (suc fuel) n = do
  cached ← gets (λ m. lookup n m.expression_cache)
  or_else cached (do
    consume
    k ← item n
    atom ← atom_at k.atom_index
    low ← to_expression_fuel fuel k.low
    high ← to_expression_fuel fuel k.high
    let result = combine atom low high
    update (λ m. record m { expression_cache = (n, result) ∷ m.expression_cache })
    pure result)

unfoldable pub to_expression : ℕ → M Expression
unfolding to_expression_fuel
to_expression n = to_expression_fuel (suc n) n

abbrev pub Witness : Type 0
Witness = List (Expression × Bool)

-- The loop of `witness`, which walks down from the root and prefers the low branch.
unfoldable pub witness_loop : ℕ → ℕ → Witness → M (ℕ × Witness)
unfolding consume item atom_at
witness_loop zero n w = raise recursion_error
witness_loop (suc fuel) n w = if ltb n 2 then pure (n, w) else (do
  consume
  k ← item n
  atom ← atom_at k.atom_index
  let dead = eqb k.low 0
  witness_loop fuel (if dead then k.high else k.low) ((atom, dead) ∷ w))

abbrev pub or_false : Option Bool → Bool
or_false none = false
or_false (some b) = b

-- `assignment.get(atom, False)`.
abbrev pub value_or_false : Expression → Witness → Bool
value_or_false e w = or_false (lookup e w)

abbrev pub fill : List Expression → Witness → Witness
fill es w = map (λ e. (e, value_or_false e w)) es

abbrev pub filled : ℕ × Witness → M (Option Witness)
filled (n, w) m = (ok (if eqb n 0 then none else some (fill m.atom_list w)), m)

unfoldable pub witness : ℕ → M (Option Witness)
unfolding witness_loop
witness root = if eqb root 0 then pure none else (do r ← witness_loop (suc root) root []; filled r)

-- `_atoms` of several expressions.
unfoldable pub query_atoms : List Expression → List Expression
unfolding sort_by_key same
query_atoms found = sort_by_key (unique found)

-- `except AnalysisLimitExceeded`: any other exception goes on.
abbrev pub on_limit {ℓ} : {A : Type ℓ} → A → Result A → Result A
on_limit d (raised (limit_exceeded r l o)) = ok d
on_limit d r = r

abbrev pub run_in : {A : Type 0} → Result Manager → M A → Result A
run_in (ok m) body = (body m).0
run_in (raised f) body = raised f

-- A query: a manager over the atoms, the body, and the answer where a limit is exceeded.
unfoldable pub with_manager : {A : Type 0} → List Expression → ResourceLimits → A → M A → Result A
unfolding query_atoms new_manager
with_manager found limits d body = on_limit d (run_in (new_manager (query_atoms found) limits) body)

unfoldable pub equivalent_in : Expression → Expression → M Bool
unfolding build
equivalent_in left right = do l ← build left; r ← build right; pure (eqb l r)

unfoldable pub equivalent : Expression → Expression → ResourceLimits → Result Bool
unfolding with_manager equivalent_in
equivalent left right limits =
    with_manager (expression_atoms left ++ expression_atoms right) limits false
      (equivalent_in left right)

unfoldable pub satisfiable_in : Expression → M Bool
unfolding build
satisfiable_in e = do n ← build e; pure (not (eqb n 0))

unfoldable pub satisfiable : Expression → ResourceLimits → Result Bool
unfolding with_manager satisfiable_in
satisfiable e limits = with_manager (expression_atoms e) limits true (satisfiable_in e)

unfoldable pub implies_in : Expression → Expression → M Bool
unfolding build negate apply
implies_in premise consequence = do
  p ← build premise
  c ← build consequence
  n ← negate c
  counterexample ← apply and p n
  pure (eqb counterexample 0)

unfoldable pub implies : Expression → Expression → ResourceLimits → Result Bool
unfolding with_manager implies_in
implies premise consequence limits =
    with_manager (expression_atoms premise ++ expression_atoms consequence) limits false
      (implies_in premise consequence)

unfoldable pub witness_in : Expression → M (Option Witness)
unfolding build witness
witness_in e = do n ← build e; witness n

unfoldable pub witness_assignment : Expression → ResourceLimits → Result (Option Witness)
unfolding with_manager witness_in
witness_assignment e limits = with_manager (expression_atoms e) limits none (witness_in e)

unfoldable pub canonical_in : Expression → M Expression
unfolding build to_expression
canonical_in e = do n ← build e; to_expression n

unfoldable pub canonical_or_none : Expression → M (Option Expression)
unfolding canonical_in
canonical_or_none e = do c ← canonical_in e; pure (some c)

-- The smaller of the two forms; `none` stands for an exceeded limit.
abbrev pub choose_smaller : Expression → Result (Option Expression) → Result Expression
choose_smaller algebraic (raised f) = raised f
choose_smaller algebraic (ok none) = ok algebraic
choose_smaller algebraic (ok (some canonical)) =
    ok
      (if ltb (expression_size canonical) (expression_size algebraic) then canonical else algebraic)

unfoldable pub exact_simplify : Expression → ResourceLimits → Result Expression
unfolding with_manager canonical_or_none
exact_simplify e limits =
    let algebraic = simplify e in
    choose_smaller algebraic
      (with_manager (expression_atoms algebraic) limits none (canonical_or_none algebraic))

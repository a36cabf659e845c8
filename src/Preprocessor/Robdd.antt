-- ===== src/Preprocessor/Robdd.antt =====
-- cgull/preprocessor/robdd.py: the manager of reduced ordered binary decision diagrams.
pub mod Queries
pub mod Values
pub mod Invariant
pub mod Nodes
pub mod Negate
pub mod Cofactors
pub mod Apply
pub mod BuildParts
pub mod Build
pub mod Initial
pub mod Canonical
pub mod Assignments
pub mod Reading
pub mod Answers
pub mod Exact
pub mod Witnesses
pub mod Examples
use mathlib.Core.Option
use cgull.Prelude.{
  ℕ, zero, suc, ◌+◌, ◌-◌, ◌≡◌, Bool, true, false, ◌&&◌, ◌||◌, ◌↔◌, List, [], ◌∷◌, ◌++◌, Option,
  none, some, ltb, eqb, if◌then◌else◌, lookup, length, get_elem?, Eq, ◌==◌, nat_eq, pair_eq, unique,
  arith,
}
use cgull.Preprocessor.Exec.{
  atoms, bdd_nodes, work, limit_exceeded, key_error, index_error, assertion_error, recursion_error,
  Result, ok, raised, Exec, pure, raise, gets, update, ◌>>=◌, ◌>>◌, or_else,
}
use cgull.Preprocessor.Expression.{
  Expression, constant, variable, defined, predicate, negation, Operands, nil, cons,
  expression_size,
}
use cgull.Preprocessor.Expression.Equality.{expression_eq}
use cgull.Preprocessor.Expression.Order.{sort_by_key}
use cgull.Preprocessor.Expression.Simplify
use cgull.Preprocessor.Expression.Simplify.{simplify}

pub record ResourceLimits : Type 0 where
  pub max_atoms : ℕ
  pub max_bdd_nodes : ℕ
  pub max_work : ℕ

-- The triple `(atom_index, low, high)`.
pub record Node : Type 0 where
  pub atom_index : ℕ
  pub low : ℕ
  pub high : ℕ

abbrev pub node_beq : Node → Node → Bool
node_beq k j = eqb k.atom_index j.atom_index && (eqb k.low j.low && eqb k.high j.high)

pub node_beq_iff : (k j : Node) → (node_beq k j ≡ true) ↔ (k ≡ j)
node_beq_iff k j = ground arith

instance abbrev pub node_eq : Eq Node
node_eq = record { beq = node_beq; beq_iff = node_beq_iff }

pub data Operation : Type 0 where
  and or : Operation

abbrev pub operation_beq : Operation → Operation → Bool
operation_beq and and = true
operation_beq or or = true
operation_beq p q = false

pub operation_beq_iff : (p q : Operation) → (operation_beq p q ≡ true) ↔ (p ≡ q)
operation_beq_iff p q = ground arith

instance abbrev pub operation_eq : Eq Operation
operation_eq = record { beq = operation_beq; beq_iff = operation_beq_iff }

-- The fields of `BDD`; `order` is read off `atoms` by `index_of`, and `budget` is `_budget.work`.
pub record Manager : Type 0 where
  pub limits : ResourceLimits
  pub atom_list : List Expression
  pub nodes : List (Option Node)
  pub interned : List (Node × ℕ)
  pub budget : ℕ
  pub apply_cache : List ((Operation × (ℕ × ℕ)) × ℕ)
  pub not_cache : List (ℕ × ℕ)
  pub build_cache : List (Expression × ℕ)
  pub expression_cache : List (ℕ × Expression)

abbrev pub M : Type 0 → Type 0
M A = Exec Manager A

-- `BDD.__init__`: the atoms are sorted and numbered, and only the terminals 0 and 1 are there.
unfoldable pub initial : List Expression → ResourceLimits → Manager
initial ordered limits = record {
  limits = limits;
  atom_list = ordered;
  nodes = none ∷ none ∷ [];
  interned = [];
  budget = 0;
  apply_cache = [];
  not_cache = (0, 1) ∷ (1, 0) ∷ [];
  build_cache = [];
  expression_cache = (0, constant false) ∷ (1, constant true) ∷ [];
}

unfoldable pub new_manager : List Expression → ResourceLimits → Result Manager
unfolding initial
new_manager found limits =
    let ordered = sort_by_key (unique found) in
    if ltb limits.max_atoms (length ordered)
    then raised (limit_exceeded atoms limits.max_atoms (length ordered))
    else ok (initial ordered limits)

-- `_Budget.consume`.
unfoldable pub consume : M (Unit {0})
consume m =
    let used = m.budget + 1 in
    if ltb m.limits.max_work used
    then (raised (limit_exceeded work m.limits.max_work used), record m { budget = used })
    else (ok tt, record m { budget = used })

-- The end of `_node`: a triple that is not interned becomes the next node.
unfoldable pub push_node : Node → M ℕ
push_node key m =
    let observed = length m.nodes - 1 in
    let id = length m.nodes in
    if ltb m.limits.max_bdd_nodes observed
    then (raised (limit_exceeded bdd_nodes m.limits.max_bdd_nodes observed), m)
    else (ok id, record m { nodes = m.nodes ++ some key ∷ []; interned = (key, id) ∷ m.interned })

-- `_node` of different children.
unfoldable pub intern_node : Node → M ℕ
unfolding consume push_node
intern_node key = do
  existing ← gets (λ m. lookup key m.interned)
  or_else existing (do consume; push_node key)

-- `_node`.
unfoldable pub make_node : ℕ → ℕ → ℕ → M ℕ
unfolding intern_node
make_node v low high =
    if eqb low high
    then pure low
    else intern_node (record { atom_index = v; low = low; high = high })

-- `self.nodes[node]` with the assertion that it is no terminal.
unfoldable pub item : ℕ → M Node
item n m = elim (get_elem? m.nodes n) [
  | none ↦ (raised index_error, m)
  | some none ↦ (raised assertion_error, m)
  | some (some k) ↦ (ok k, m)
]

-- `negate` recurs on the children of a node, which have smaller numbers.
unfoldable pub negate_fuel : ℕ → ℕ → M ℕ
unfolding consume item make_node
negate_fuel zero n = raise recursion_error
negate_fuel (suc fuel) n = do
  cached ← gets (λ m. lookup n m.not_cache)
  or_else cached (do
    consume
    k ← item n
    low ← negate_fuel fuel k.low
    high ← negate_fuel fuel k.high
    result ← make_node k.atom_index low high
    update (λ m. record m { not_cache = (n, result) ∷ m.not_cache })
    pure result)

unfoldable pub negate : ℕ → M ℕ
unfolding negate_fuel
negate n = negate_fuel (suc n) n

-- The cases in which `apply` needs no recursion; `left` is at most `right`.
abbrev pub shortcut : Operation → ℕ → ℕ → Option ℕ
shortcut and left right =
    if eqb left 0 || eqb right 0
    then some 0
    else if eqb left 1
    then some right
    else if eqb left right
    then some left
    else none
shortcut or left right =
    if eqb left 1 || eqb right 1
    then some 1
    else if eqb left 0
    then some right
    else if eqb left right
    then some left
    else none

-- The cofactors of a node by a variable.
abbrev pub low_by : ℕ → ℕ → Node → ℕ
low_by v n k = if eqb k.atom_index v then k.low else n

abbrev pub high_by : ℕ → ℕ → Node → ℕ
high_by v n k = if eqb k.atom_index v then k.high else n

-- `apply` after the swap, with `self.apply` as an argument.
unfoldable pub apply_ordered : (ℕ → ℕ → M ℕ) → Operation → ℕ → ℕ → M ℕ
unfolding consume item make_node
apply_ordered again op left right = do
  cached ← gets (λ m. lookup (op, (left, right)) m.apply_cache)
  or_else cached (do
    consume
    or_else (shortcut op left right) (do
      l ← item left
      r ← item right
      let v = if ltb r.atom_index l.atom_index then r.atom_index else l.atom_index
      low ← again (low_by v left l) (low_by v right r)
      high ← again (high_by v left l) (high_by v right r)
      result ← make_node v low high
      update (λ m. record m { apply_cache = ((op, (left, right)), result) ∷ m.apply_cache })
      pure result))

unfoldable pub apply_fuel : ℕ → Operation → ℕ → ℕ → M ℕ
unfolding apply_ordered
apply_fuel zero op left right = raise recursion_error
apply_fuel (suc fuel) op left right =
    if ltb right left
    then apply_ordered (λ l r. apply_fuel fuel op l r) op right left
    else apply_ordered (λ l r. apply_fuel fuel op l r) op left right

unfoldable pub apply : Operation → ℕ → ℕ → M ℕ
unfolding apply_fuel
apply op left right = apply_fuel (suc (left + right)) op left right

-- `self.order[atom]`.
unfoldable pub index_of : Expression → List Expression → Option ℕ
index_of e [] = none
index_of e (x ∷ xs) = if x == e then some 0 else Option.map suc (index_of e xs)

abbrev pub number_node : Option ℕ → M ℕ
number_node none = raise key_error
number_node (some i) = make_node i 0 1

unfoldable pub atom_node : Expression → M ℕ
unfolding index_of make_node
atom_node e m = number_node (index_of e m.atom_list) m

-- The loops of `build` over operands, with `self.build` as an argument.
unfoldable pub build_operands : (Expression → M ℕ) → Operation → ℕ → Operands → M ℕ
unfolding apply
build_operands again op result nil = pure result
build_operands again op result (cons e es) = do
  node ← again e
  result' ← apply op result node
  build_operands again op result' es

-- `build` of a simplified expression that is not in the cache.
unfoldable pub build_simplified : (Expression → M ℕ) → Expression → M ℕ
unfolding atom_node negate build_operands
build_simplified again (constant b) = pure (if b then 1 else 0)
build_simplified again (variable n) = atom_node (variable n)
build_simplified again (defined n) = atom_node (defined n)
build_simplified again (predicate t) = atom_node (predicate t)
build_simplified again (negation e) = do node ← again e; negate node
build_simplified again (Expression.conjunction es) = build_operands again and 1 es
build_simplified again (Expression.disjunction es) = build_operands again or 0 es

unfoldable pub build_fuel : ℕ → Expression → M ℕ
unfolding consume build_simplified
build_fuel zero e = raise recursion_error
build_fuel (suc fuel) e = do
  let simple = simplify e
  cached ← gets (λ m. lookup simple m.build_cache)
  or_else cached (do
    consume
    result ← build_simplified (λ d. build_fuel fuel d) simple
    update (λ m. record m { build_cache = (simple, result) ∷ m.build_cache })
    pure result)

unfoldable pub build : Expression → M ℕ
unfolding build_fuel simplify expression_size
build e = build_fuel (suc (expression_size e)) e

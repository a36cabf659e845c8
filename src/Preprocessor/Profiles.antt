-- ===== src/Preprocessor/Profiles.antt =====
-- cgull/preprocessor/profile_reduction.py: a profile's flags as a partial assignment over the
-- diagram of a branch's condition.
pub mod Agreeing
pub mod Possible
pub mod Examples
use cgull.Prelude.{
  ℕ, zero, suc, Bool, true, false, not, List, [], ◌∷◌, Option, none, some, if◌then◌else◌, Text,
  text_eq, nat_eq, eqb, lookup, get_elem?,
}
use cgull.Preprocessor.Exec.{
  Result, ok, raised, index_error, assertion_error, recursion_error, Exec, pure, raise, gets,
  update, ◌>>=◌, ◌>>◌, or_else,
}
use cgull.Preprocessor.Expression.{Expression, variable, defined, expression_atoms}
use cgull.Preprocessor.Robdd.{ResourceLimits, Node, Manager, new_manager, build}

-- What a flag map holds: `None`, a truth value, an integer by its sign and magnitude, or a text.
pub data FlagValue : Type 0 where
  none_value : FlagValue
  truth : Bool → FlagValue
  integer : Bool → ℕ → FlagValue
  text : Text → FlagValue

abbrev pub Flags : Type 0
Flags = List (Text × FlagValue)

-- `_BranchModel`.
pub record BranchModel : Type 0 where
  pub source_index : ℕ
  pub offset : ℕ
  pub bdd : Manager
  pub root : ℕ

-- `_known_macro_value`, of what the map holds under the name.
unfoldable pub known_macro_value : Option FlagValue → Option Bool
known_macro_value none = some false
known_macro_value (some (truth b)) = some b
known_macro_value (some none_value) = some true
known_macro_value (some (integer negative n)) = some (not (eqb n 0))
known_macro_value (some (text t)) = none

abbrev pub is_defined : Option FlagValue → Bool
is_defined none = false
is_defined (some (truth b)) = b
is_defined (some v) = true

-- `_atom_value`.
unfoldable pub atom_value : Flags → Expression → Option Bool
unfolding known_macro_value
atom_value flags (defined n) = some (is_defined (lookup n flags))
atom_value flags (variable n) = known_macro_value (lookup n flags)
atom_value flags e = none

abbrev pub Memo : Type 0
Memo = List (ℕ × Bool)

-- `model.bdd.nodes[node]`, with the assertion that follows.
abbrev pub present : Option (Option Node) → Exec Memo Node
present none = raise index_error
present (some none) = raise assertion_error
present (some (some k)) = pure k

abbrev pub in_range : Option Expression → Exec Memo Expression
in_range none = raise index_error
in_range (some e) = pure e

-- The edges to follow: both, the second only where the first is not possible, or the known one.
abbrev pub follow : (ℕ → Exec Memo Bool) → Node → Option Bool → Exec Memo Bool
follow again k none = do first ← again k.low; if first then pure true else again k.high
follow again k (some value) = again (if value then k.high else k.low)

-- `possible`.
unfoldable pub possible : BranchModel → Flags → ℕ → ℕ → Exec Memo Bool
unfolding atom_value
possible model flags zero n = raise recursion_error
possible model flags (suc fuel) n = do
  cached ← gets (λ memo. lookup n memo)
  or_else cached (do
    k ← present (get_elem? model.bdd.nodes n)
    atom ← in_range (get_elem? model.bdd.atom_list k.atom_index)
    result ← follow (possible model flags fuel) k (atom_value flags atom)
    update (λ memo. (n, result) ∷ memo)
    pure result)

-- `_branch_possible`.
unfoldable pub branch_possible : BranchModel → Flags → Result Bool
unfolding possible
branch_possible model flags =
    (possible model flags (suc model.root) model.root ((0, false) ∷ (1, true) ∷ [])).0

-- The model of one branch: a manager over the atoms of its condition, and the condition's node.
abbrev pub model_of : ℕ → ℕ → Result ℕ × Manager → Result BranchModel
model_of index offset (ok n, m) =
    ok (record { source_index = index; offset = offset; bdd = m; root = n })
model_of index offset (raised f, m) = raised f

abbrev pub modelled : ℕ → ℕ → Expression → Result Manager → Result BranchModel
modelled index offset e (ok m) = model_of index offset (build e m)
modelled index offset e (raised f) = raised f

unfoldable pub branch_model : ℕ → ℕ → Expression → ResourceLimits → Result BranchModel
unfolding new_manager build
branch_model index offset e limits =
    modelled index offset e (new_manager (expression_atoms e) limits)

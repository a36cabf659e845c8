-- ===== src/Preprocessor/Expression.antt =====
-- cgull/preprocessor/expressions.py: symbolic conditions, their atoms, and the Boolean meaning
-- that the module's normalisation and queries speak of.
pub mod Equality
pub mod Order
pub mod Simplify
pub mod Meaning
pub mod Atoms
pub mod Size
pub mod Format
pub mod Json
pub mod RoundTrip
pub mod Examples
use cgull.Prelude.{ℕ, ◌+◌, Bool, true, false, not, ◌&&◌, ◌||◌, List, [], ◌∷◌, ◌++◌, Text}

-- A tuple of operands is a list of its own, declared with the expressions.
mutual
  pub data Expression : Type 0 where
    constant : Bool → Expression
    variable defined predicate : Text → Expression
    negation : Expression → Expression
    conjunction disjunction : Operands → Expression

  pub data Operands : Type 0 where
    nil : Operands
    cons : Expression → Operands → Operands

abbrev pub to_list : Operands → List Expression
to_list nil = []
to_list (cons e es) = e ∷ to_list es

abbrev pub from_list : List Expression → Operands
from_list [] = nil
from_list (e ∷ es) = cons e (from_list es)

-- A truth value for each atom; only its values at atoms are read.
abbrev pub Assignment : Type 0
Assignment = Expression → Bool

-- The Boolean meaning of a condition.
unfoldable mutual
  pub eval : Assignment → Expression → Bool
  eval a (constant b) = b
  eval a (variable n) = a (variable n)
  eval a (defined n) = a (defined n)
  eval a (predicate t) = a (predicate t)
  eval a (negation e) = not (eval a e)
  eval a (conjunction es) = eval_all a es
  eval a (disjunction es) = eval_any a es

  pub eval_all : Assignment → Operands → Bool
  eval_all a nil = true
  eval_all a (cons e es) = eval a e && eval_all a es

  pub eval_any : Assignment → Operands → Bool
  eval_any a nil = false
  eval_any a (cons e es) = eval a e || eval_any a es

-- The atoms, in the order of their occurrences; the source collects them in a set.
unfoldable mutual
  pub expression_atoms : Expression → List Expression
  expression_atoms (constant b) = []
  expression_atoms (variable n) = variable n ∷ []
  expression_atoms (defined n) = defined n ∷ []
  expression_atoms (predicate t) = predicate t ∷ []
  expression_atoms (negation e) = expression_atoms e
  expression_atoms (conjunction es) = operand_atoms es
  expression_atoms (disjunction es) = operand_atoms es

  pub operand_atoms : Operands → List Expression
  operand_atoms nil = []
  operand_atoms (cons e es) = expression_atoms e ++ operand_atoms es

-- `_expression_size` of robdd.py.
unfoldable mutual
  pub expression_size : Expression → ℕ
  expression_size (constant b) = 1
  expression_size (variable n) = 1
  expression_size (defined n) = 1
  expression_size (predicate t) = 1
  expression_size (negation e) = 1 + expression_size e
  expression_size (conjunction es) = 1 + operands_size es
  expression_size (disjunction es) = 1 + operands_size es

  pub operands_size : Operands → ℕ
  operands_size nil = 0
  operands_size (cons e es) = expression_size e + operands_size es

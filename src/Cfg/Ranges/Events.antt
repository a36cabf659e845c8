-- ===== src/Cfg/Ranges/Events.antt =====
-- What an event of the control-flow graph does to the variables, by the syntax of its statement and
-- apart from `_transfer` of cgull/cfg/integer_ranges.py.
use cgull.Prelude.{
  ℕ, codes, ℤ, pos, ◌+ℤ◌, ◌-ℤ◌, Bool, not, ◌&&◌, ◌||◌, ◌++◌, ◌∷◌, if◌then◌else◌, true, false, List,
  [], Option, none, some, ◌≡◌, Text, text_eq, elem,
}
use cgull.Cfg.Ranges.{Context}
use cgull.Cfg.Ranges.Conditions.{resolves_to_char}
use cgull.Cfg.Ranges.Meaning.{Values, Denotes}
use cgull.Cfg.Ranges.Types.{HoldsEither}
use cgull.Cfg.Syntax.{
  UnaryOperator, increment, post_increment, decrement, post_decrement, unary_op, Node, id, assign,
  Statement, decl_list, decl, assignment, expression,
}

abbrev pub is_name : Node → Bool
is_name (id n) = true
is_name e = false

abbrev pub is_step : UnaryOperator → Bool
is_step increment = true
is_step post_increment = true
is_step decrement = true
is_step post_decrement = true
is_step op = false

abbrev pub listed : Option Text → List Text
listed none = []
listed (some n) = n ∷ []

-- The variables that a statement names as what it changes.
abbrev pub targets : Statement → List Text
targets (decl_list []) = []
targets (decl_list (d ∷ ds)) = listed d.name ++ targets (decl_list ds)
targets (decl d) = listed d.name
targets (assignment op (id n) e) = n ∷ []
targets (expression (unary_op op (id n))) = if is_step op then n ∷ [] else []
targets node = []

-- An assignment to what is not a name, or `++` or `--` of it.
abbrev pub stores_through_pointer : Statement → Bool
stores_through_pointer (assignment op e value) = not (is_name e)
stores_through_pointer (expression (unary_op op e)) = is_step op && not (is_name e)
stores_through_pointer node = false

-- Not a list of declarations, nor `++` or `--` of what is not a name.
abbrev pub is_followed : Statement → Bool
is_followed (decl_list ds) = false
is_followed (expression (unary_op op e)) = not (is_step op) || is_name e
is_followed node = true

module _ (c : Context) (before after : Values) where
  -- The variable takes the value; one of type plain `char` does where both signednesses hold it.
  abbrev pub Takes : Text → ℤ → Type 0
  Takes n v = elim (resolves_to_char c (c.infer_type (id n))) [
    | true ↦ (w : ℕ) → c.byte_size (codes "char") ≡ some w → HoldsEither w v → after.variables n ≡ v
    | false ↦ after.variables n ≡ v
  ]

  abbrev pub Initialised : Text → Option Node → Type 0
  Initialised n none = Unit
  Initialised n (some e) = (v : ℤ) × Denotes c before e v × Takes n v

  abbrev pub Declared : Option Text → Option Node → Type 0
  Declared none init = Unit
  Declared (some n) init = Initialised n init

  -- What the statement gives the variable that it changes by name.
  unfoldable pub Writes : Statement → Type 0
  Writes (decl d) = Declared d.name d.init
  Writes (assignment assign (id n) e) = Initialised n (some e)
  Writes (expression (unary_op increment (id n))) = Takes n (before.variables n +ℤ pos 1)
  Writes (expression (unary_op post_increment (id n))) = Takes n (before.variables n +ℤ pos 1)
  Writes (expression (unary_op decrement (id n))) = Takes n (before.variables n -ℤ pos 1)
  Writes (expression (unary_op post_decrement (id n))) = Takes n (before.variables n -ℤ pos 1)
  Writes node = Unit

  -- A statement changes its targets, and other variables only through a pointer or in a call, and
  -- then only exposed ones.
  pub record Does (exposed : List Text) (has_calls : Bool) (node : Statement) : Type 0 where
    pub writes : Writes node
    pub keeps :
        (n : Text)
        → elem n (targets node) ≡ false
        → (has_calls || stores_through_pointer node ≡ true → elem n exposed ≡ false)
        → after.variables n ≡ before.variables n

  -- The event turns the variables' values from `before` to `after`; one without a syntax node
  -- changes none.
  unfoldable pub Happens : List Text → Bool → Option Statement → Type 0
  Happens exposed has_calls none = (n : Text) → after.variables n ≡ before.variables n
  Happens exposed has_calls (some node) = Does exposed has_calls node

-- ===== src/Preprocessor/Expression/RoundTrip.antt =====
-- Reading the JSON form of a condition, of cgull/preprocessor/expressions.py, gives it back.
use mathlib.Core.Option
use cgull.Prelude.{
  Bool, true, some, ◌≡◌, refl, ap, ap₂, sym, ◌∙◌, list_beq, every, every-append, &&_iff,
}
use cgull.Preprocessor.Expression.{
  Expression, constant, variable, defined, predicate, negation, conjunction, disjunction, Operands,
  nil, cons, Assignment, eval, expression_atoms, operand_atoms,
}
use cgull.Preprocessor.Expression.Atoms.{over, simplify-over}
use cgull.Preprocessor.Expression.Json.{
  is_macro_name, is_predicate_text, new_variable, new_defined, new_predicate, to_dict, to_items,
  cons_both, from_fields, from_dict, from_items, expression_to_dict, expression_from_dict,
}
use cgull.Preprocessor.Expression.Meaning.{eval-simplify}
use cgull.Preprocessor.Expression.Simplify.{simplify}

-- The atom is one that the constructors accept.
unfoldable pub valid_atom : Expression → Bool
valid_atom (variable n) = is_macro_name n
valid_atom (defined n) = is_macro_name n
valid_atom (predicate t) = is_predicate_text t
valid_atom e = true

mutual
  unfolding valid_atom expression_atoms to_dict from_dict from_fields new_variable new_defined
      new_predicate list_beq

  from_dict-to_dict : (e : Expression) → over valid_atom e ≡ true → from_dict (to_dict e) ≡ some e
  from_dict-to_dict (constant b) h = refl
  from_dict-to_dict (variable n) h = rw ((&&_iff (is_macro_name n) true).0 h).0 refl
  from_dict-to_dict (defined n) h = rw ((&&_iff (is_macro_name n) true).0 h).0 refl
  from_dict-to_dict (predicate t) h = rw ((&&_iff (is_predicate_text t) true).0 h).0 refl
  from_dict-to_dict (negation e) h = ap (Option.map negation) (from_dict-to_dict e h)
  from_dict-to_dict (conjunction es) h = ap (Option.map conjunction) (from_items-to_items es h)
  from_dict-to_dict (disjunction es) h = ap (Option.map disjunction) (from_items-to_items es h)

  from_items-to_items :
      (es : Operands)
      → every valid_atom (operand_atoms es) ≡ true
      → from_items (to_items es) ≡ some es
  from_items-to_items nil h = refl
  from_items-to_items (cons e es) h =
      let both =
        (&&_iff _ _).0
          (sym (every-append valid_atom (expression_atoms e) (operand_atoms es)) ∙ h) in
      ap₂ cons_both (from_dict-to_dict e both.0) (from_items-to_items es both.1)

-- A condition whose names and predicate texts the constructors accept is read back from its tagged
-- form as it was; read back from its canonical form, it is a condition with the same value under
-- every assignment.
pub expression_from_dict_lem :
    (e : Expression)
    → over valid_atom e ≡ true
    → (from_dict (to_dict e) ≡ some e)
      × (r : Expression) × (expression_from_dict (expression_to_dict e) ≡ some r)
      × ((a : Assignment) → eval a r ≡ eval a e)
unfolding expression_from_dict expression_to_dict
expression_from_dict_lem e h = (
  from_dict-to_dict e h,
  simplify (simplify e),
  ap (Option.map simplify) (from_dict-to_dict (simplify e) (simplify-over valid_atom e h)),
  λ a. eval-simplify a (simplify e) ∙ eval-simplify a e,
)

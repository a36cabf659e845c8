-- ===== src/Preprocessor/Expression/Order.antt =====
-- `_sort_key` of expressions.py and the sort by it. Python compares the keys, which are tuples,
-- from the left: first the tags, then the names, texts or operands' keys.
use Prim.Native.Nat.{compare, Ordering}
use cgull.Prelude.{Bool, true, false, List, [], ◌∷◌, Text, codes, if◌then◌else◌}
use cgull.Preprocessor.Expression.{
  Expression, constant, variable, defined, predicate, negation, conjunction, disjunction, Operands,
  nil, cons,
}

abbrev pub orderelse : Ordering → Ordering → Ordering
orderelse Ordering.eq o = o
orderelse o p = o

unfoldable pub compare_text : Text → Text → Ordering
compare_text [] [] = Ordering.eq
compare_text [] (y ∷ ys) = Ordering.lt
compare_text (x ∷ xs) [] = Ordering.gt
compare_text (x ∷ xs) (y ∷ ys) = orderelse (compare x y) (compare_text xs ys)

-- `False < True`.
abbrev compare_bool : Bool → Bool → Ordering
compare_bool false true = Ordering.lt
compare_bool true false = Ordering.gt
compare_bool b c = Ordering.eq

abbrev tag : Expression → Text
tag (constant b) = codes "constant"
tag (variable n) = codes "variable"
tag (defined n) = codes "defined"
tag (predicate t) = codes "predicate"
tag (negation e) = codes "not"
tag (conjunction es) = codes "and"
tag (disjunction es) = codes "or"

unfoldable mutual
  unfolding compare_text

  pub compare_key : Expression → Expression → Ordering
  compare_key (constant b) (constant c) = compare_bool b c
  compare_key (variable n) (variable m) = compare_text n m
  compare_key (defined n) (defined m) = compare_text n m
  compare_key (predicate n) (predicate m) = compare_text n m
  compare_key (negation e) (negation f) = compare_key e f
  compare_key (conjunction es) (conjunction fs) = compare_keys es fs
  compare_key (disjunction es) (disjunction fs) = compare_keys es fs
  compare_key e f = compare_text (tag e) (tag f)

  pub compare_keys : Operands → Operands → Ordering
  compare_keys nil nil = Ordering.eq
  compare_keys nil (cons f fs) = Ordering.lt
  compare_keys (cons e es) nil = Ordering.gt
  compare_keys (cons e es) (cons f fs) = orderelse (compare_key e f) (compare_keys es fs)

-- `sorted(xs, key=_sort_key)`, which is stable.
abbrev pub is_lt : Ordering → Bool
is_lt Ordering.lt = true
is_lt o = false

unfoldable pub insert_by_key : Expression → List Expression → List Expression
unfolding compare_key
insert_by_key e [] = e ∷ []
insert_by_key e (x ∷ xs) =
    let rest = insert_by_key e xs in if is_lt (compare_key x e) then x ∷ rest else e ∷ x ∷ xs

unfoldable pub sort_by_key : List Expression → List Expression
unfolding insert_by_key
sort_by_key [] = []
sort_by_key (e ∷ es) = insert_by_key e (sort_by_key es)

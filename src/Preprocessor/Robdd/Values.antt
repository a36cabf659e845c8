-- ===== src/Preprocessor/Robdd/Values.antt =====
-- What a node stands for: the value of each node of the table under an assignment of the atoms'
-- numbers, computed from the first node to the last.
use cgull.Prelude.{
  ℕ, ◌+◌, ◌<◌, Bool, false, List, [], ◌∷◌, ◌++◌, Option, none, some, ◌≡◌, refl, arith, eqb,
  if◌then◌else◌, length, get_or, get_elem?, length-append, get_or-append, get_or-append_last,
}
use cgull.Preprocessor.Robdd.{Node}

-- The value of one more node, over the values of those before it; a terminal's is its number.
abbrev pub entry : (ℕ → Bool) → List Bool → Option Node → Bool
entry a vs none = eqb (length vs) 1
entry a vs (some k) = if a k.atom_index then get_or vs k.high false else get_or vs k.low false

pub values_from : (ℕ → Bool) → List Bool → List (Option Node) → List Bool
values_from a vs [] = vs
values_from a vs (n ∷ ns) = values_from a (vs ++ entry a vs n ∷ []) ns

-- The value of a node.
unfoldable pub value : (ℕ → Bool) → List (Option Node) → ℕ → Bool
unfolding values_from
value a ns i = get_or (values_from a [] ns) i false

-- The number of the atom that a node tests; terminals stand below every atom.
abbrev level_of : ℕ → Option (Option Node) → ℕ
level_of count (some (some k)) = k.atom_index
level_of count o = count

unfoldable pub level : ℕ → List (Option Node) → ℕ → ℕ
level count ns i = level_of count (get_elem? ns i)

pub level-node :
    (count : ℕ) (ns : List (Option Node)) (i : ℕ) (k : Node)
    → get_elem? ns i ≡ some (some k)
    → level count ns i ≡ k.atom_index
unfolding level
level-node count ns i k e = rw e

module _ (a : ℕ → Bool) where
  length-values :
      (vs : List Bool) (ns : List (Option Node))
      → length (values_from a vs ns) ≡ length vs + length ns
  unfolding values_from
  length-values vs [] = omega arith
  length-values vs (n ∷ ns) =
      omega
        (arith, length-values (vs ++ entry a vs n ∷ []) ns, length-append vs (entry a vs n ∷ []))

  values-snoc :
      (vs : List Bool) (ns : List (Option Node)) (n : Option Node)
      → values_from a vs (ns ++ n ∷ [])
        ≡ values_from a vs ns ++ entry a (values_from a vs ns) n ∷ []
  unfolding values_from
  values-snoc vs [] n = refl
  values-snoc vs (m ∷ ns) n = values-snoc (vs ++ entry a vs m ∷ []) ns n

  -- One more node changes no value.
  pub value-append :
      (ns : List (Option Node)) (n : Option Node) (i : ℕ)
      → i < length ns
      → value a (ns ++ n ∷ []) i ≡ value a ns i
  unfolding value
  value-append ns n i h = rw (values-snoc [] ns n) (
      get_or-append (values_from a [] ns) (entry a (values_from a [] ns) n ∷ []) i false
        (omega (arith, length-values [] ns)))

  -- A new node tests its atom.
  pub value-append_last :
      (ns : List (Option Node)) (k : Node)
      → value a (ns ++ some k ∷ []) (length ns)
        ≡ (if a k.atom_index then value a ns k.high else value a ns k.low)
  unfolding value
  value-append_last ns k =
      let vs = values_from a [] ns in
      let e : length ns ≡ length vs = omega (arith, length-values [] ns) in
      rw (values-snoc [] ns (some k)) (rw e (get_or-append_last vs (entry a vs (some k)) false))

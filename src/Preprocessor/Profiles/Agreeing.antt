-- ===== src/Preprocessor/Profiles/Agreeing.antt =====
-- The configurations that a profile's flags describe, the assignments that follow `_atom_value`, and the nodes of a diagram that are true
-- under one of them.
use cgull.Prelude.{
  ◌≢◌, not, lookup, Text, text_eq, ℕ, suc, ◌<◌, Bool, true, false, List, Option, none, some, ◌≡◌,
  ◌↔◌, ◌⊎◌, refl, ap, sym, ◌∙◌, inl, inr, arith, if◌then◌else◌, length, get_or, get_elem?,
  get_elem?-get_or, get_elem?_total, eqb, eqb_iff, Bool-cases, Option-cases,
}
use cgull.Preprocessor.Expression.{Expression, constant, variable, defined, Assignment}
use cgull.Preprocessor.Profiles.{
  FlagValue, none_value, truth, integer, text, Flags, known_macro_value, is_defined, atom_value,
}
use cgull.Preprocessor.Robdd.{Node}
use cgull.Preprocessor.Robdd.Assignments.{from_numbers, numbered-from_numbers, value-agree}
use cgull.Preprocessor.Robdd.Canonical.{assign, low_value, high_value}
use cgull.Preprocessor.Robdd.Initial.{distinct}
use cgull.Preprocessor.Robdd.Invariant.{numbered, IsTable}
use cgull.Preprocessor.Robdd.Values.{value}

-- Whether a macro is defined, of what the flags hold under its name: a macro without a flag is not,
-- a flag that is a truth value says so, and every other flag defines it.
abbrev pub DefinedAs : Option FlagValue → Bool → Type 0
DefinedAs none b = b ≡ false
DefinedAs (some (truth t)) b = b ≡ t
DefinedAs (some v) b = b ≡ true

-- The truth of a macro's value: an undefined macro is 0, one that is defined without a value is 1,
-- a number is true unless it is 0, and a text says nothing.
abbrev pub TruthAs : Option FlagValue → Bool → Type 0
TruthAs none b = b ≡ false
TruthAs (some (truth t)) b = b ≡ t
TruthAs (some none_value) b = b ≡ true
TruthAs (some (integer negative n)) b = (b ≡ true) ↔ (n ≢ 0)
TruthAs (some (text t)) b = Unit

-- The assignment is one of the configurations that the flags describe.
pub record Agrees (flags : Flags) (a : Assignment) : Type 0 where
  pub definedness : (n : Text) → DefinedAs (lookup n flags) (a (defined n))
  pub truth_values : (n : Text) → TruthAs (lookup n flags) (a (variable n))

-- The assignment gives each atom that `_atom_value` decides its value.
abbrev pub Follows : Flags → Assignment → Type 0
Follows flags a = (x : Expression) (b : Bool) → atom_value flags x ≡ some b → a x ≡ b

is_defined-DefinedAs : (o : Option FlagValue) (b : Bool) → DefinedAs o b ↔ (b ≡ is_defined o)
is_defined-DefinedAs none b = (λ h. h, λ h. h)
is_defined-DefinedAs (some (truth t)) b = (λ h. h, λ h. h)
is_defined-DefinedAs (some none_value) b = (λ h. h, λ h. h)
is_defined-DefinedAs (some (integer negative n)) b = (λ h. h, λ h. h)
is_defined-DefinedAs (some (text t)) b = (λ h. h, λ h. h)

zero_lem : (n : ℕ) → n ≢ 0 → not (eqb n 0) ≡ true
zero_lem n h = elim (Bool-cases (eqb n 0)) [
  | inl same ↦ absurd (h ((eqb_iff n 0).0 same))
  | inr differs ↦ rw differs refl
]

nonzero : (n : ℕ) → not (eqb n 0) ≡ true → n ≢ 0
nonzero n h q = let same = (eqb_iff n 0).1 q in let e = rw same at h in absurd (cc e)

integer-TruthAs : (n : ℕ) (b : Bool) → (b ≡ true) ↔ (n ≢ 0) → b ≡ not (eqb n 0)
integer-TruthAs n b h = elim (Bool-cases (eqb n 0)) [
  | inl same ↦ elim (Bool-cases b) [
    | inl up ↦ absurd (h.0 up ((eqb_iff n 0).0 same))
    | inr down ↦ down ∙ sym (rw same refl)
  ]
  | inr differs ↦
      h.1 (λ q. let same = (eqb_iff n 0).1 q in cc (same, differs)) ∙ sym (rw differs refl)
]

known_macro_value-TruthAs :
    (o : Option FlagValue) (b : Bool)
    → TruthAs o b ↔ ((d : Bool) → known_macro_value o ≡ some d → b ≡ d)
unfolding known_macro_value
known_macro_value-TruthAs none b = (λ h d q. h ∙ cc q, λ h. h false refl)
known_macro_value-TruthAs (some (truth t)) b = (λ h d q. h ∙ cc q, λ h. h t refl)
known_macro_value-TruthAs (some none_value) b = (λ h d q. h ∙ cc q, λ h. h true refl)
known_macro_value-TruthAs (some (integer negative n)) b = (
  λ h d q. integer-TruthAs n b h ∙ cc q,
  λ h. (let e = h (not (eqb n 0)) refl in (λ t. nonzero n (sym e ∙ t), λ t. e ∙ zero_lem n t)),
)
known_macro_value-TruthAs (some (text t)) b = (λ h d q. absurd (cc q), λ h. tt)

-- The configurations that the flags describe are those that follow `_atom_value`.
pub Agrees-Follows : (flags : Flags) (a : Assignment) → Agrees flags a ↔ Follows flags a
unfolding atom_value
Agrees-Follows flags a = (
  λ h. follows h,
  λ h. record {
    definedness = λ n.
        (is_defined-DefinedAs (lookup n flags) (a (defined n))).1
          (h (defined n) (is_defined (lookup n flags)) refl);
    truth_values =
        λ n. (known_macro_value-TruthAs (lookup n flags) (a (variable n))).1 (h (variable n));
  },
)
  where
    follows : Agrees flags a → Follows flags a
    follows h (defined n) b q =
        (is_defined-DefinedAs (lookup n flags) (a (defined n))).0 (h.definedness n) ∙ cc q
    follows h (variable n) b q =
        (known_macro_value-TruthAs (lookup n flags) (a (variable n))).0 (h.truth_values n) b q
    follows h x b q = absurd (cc q)

module _ (flags : Flags) (ordered : List Expression) where
  -- The same of an assignment of the atoms' numbers.
  abbrev pub AgreesAt : (ℕ → Bool) → Type 0
  AgreesAt b =
      (v : ℕ) (x : Expression) (c : Bool)
      → get_elem? ordered v ≡ some x
      → atom_value flags x ≡ some c
      → b v ≡ c

  AgreesAt-assign :
      (b : ℕ → Bool) (v : ℕ) (x : Expression) (c : Bool)
      → get_elem? ordered v ≡ some x
      → atom_value flags x ≡ none
      → AgreesAt b
      → AgreesAt (assign b v c)
  AgreesAt-assign b v x c at free agrees w y d at' known = elim (Bool-cases (eqb w v)) [
    | inl here ↦
        let e : w ≡ v = (eqb_iff w v).0 here in
        let same : some y ≡ some x = sym at' ∙ ap (λ i. get_elem? ordered i) e ∙ at in
        absurd (cc (same, free, known))
    | inr other ↦ rw other (agrees w y d at' known)
  ]

module _ (flags : Flags) (ordered : List Expression) {ns : List (Option Node)}
    {interned : List (Node × ℕ)} (t : IsTable (length ordered) ns interned) where
  -- The node is true under an assignment that agrees with the flags.
  abbrev pub Live : ℕ → Type 0
  Live n = (b : ℕ → Bool) × AgreesAt flags ordered b × (value b ns n ≡ true)

  -- A node whose atom is free is live if a child is.
  pub free_iff :
      (n : ℕ) (k : Node) (x : Expression)
      → get_elem? ns n ≡ some (some k)
      → get_elem? ordered k.atom_index ≡ some x
      → atom_value flags x ≡ none
      → Live n ↔ (Live k.low ⊎ Live k.high)
  free_iff n k x e at free = (
    λ (b, agrees, holds).
        let split = sym ((t.node n k e).branches b) ∙ holds in
        elim (Bool-cases (b k.atom_index)) [
          | inl up ↦ inr (b, agrees, rw up at split)
          | inr down ↦ inl (b, agrees, rw down at split)
        ],
    λ child. elim child [
      | inl (b, agrees, holds) ↦ (
        assign b k.atom_index false,
        AgreesAt-assign flags ordered b k.atom_index x false at free agrees,
        low_value t n k b e ∙ holds,
      )
      | inr (b, agrees, holds) ↦ (
        assign b k.atom_index true,
        AgreesAt-assign flags ordered b k.atom_index x true at free agrees,
        high_value t n k b e ∙ holds,
      )
    ],
  )

  -- One whose atom the flags decide is live if the child on that side is.
  pub known_iff :
      (n : ℕ) (k : Node) (x : Expression) (c : Bool)
      → get_elem? ns n ≡ some (some k)
      → get_elem? ordered k.atom_index ≡ some x
      → atom_value flags x ≡ some c
      → Live n ↔ Live (if c then k.high else k.low)
  known_iff n k x c e at known = (
    λ (b, agrees, holds). (b, agrees, sym (branch b agrees) ∙ holds),
    λ (b, agrees, holds). (b, agrees, branch b agrees ∙ holds),
  )
    where
      side :
          (b : ℕ → Bool) (d : Bool)
          → (if d then value b ns k.high else value b ns k.low)
            ≡ value b ns (if d then k.high else k.low)
      side b true = refl
      side b false = refl

      branch :
          (b : ℕ → Bool)
          → AgreesAt flags ordered b
          → value b ns n ≡ value b ns (if c then k.high else k.low)
      branch b agrees =
          (t.node n k e).branches b
          ∙ ap (λ d. if d then value b ns k.high else value b ns k.low)
              (agrees k.atom_index x c at known)
          ∙ side b c

  -- The flags' value where they decide the atom, and the number's otherwise.
  abbrev decided : Option Bool → Bool → Bool
  decided none b = b
  decided (some c) b = c

  abbrev extended : (ℕ → Bool) → Assignment
  extended b x = decided (atom_value flags x) (from_numbers ordered b x)

  extended-Follows : (b : ℕ → Bool) → Follows flags (extended b)
  extended-Follows b x c known = ap (λ o. decided o (from_numbers ordered b x)) known

  numbered-extended :
      (b : ℕ → Bool) (v : ℕ)
      → distinct ordered ≡ true
      → AgreesAt flags ordered b
      → v < length ordered
      → numbered ordered (extended b) v ≡ b v
  numbered-extended b v u agrees lt =
      let x = get_or ordered v (constant false) in
      let (y, at) = get_elem?_total ordered v lt in
      let own = get_elem?-get_or ordered v (constant false) at in
      elim (Option-cases (atom_value flags x)) [
        | inl free ↦
            ap (λ o. decided o (from_numbers ordered b x)) free
            ∙ numbered-from_numbers ordered b v u lt
        | inr (c, known) ↦
            ap (λ o. decided o (from_numbers ordered b x)) known
            ∙ sym (agrees v y c at (ap (atom_value flags) (sym own) ∙ known))
      ]

  -- Some assignment agrees with the flags, so the true terminal is live.
  pub one-Live : Live 1
  one-Live =
      let a : Assignment = λ x. decided (atom_value flags x) false in
      (
        numbered ordered a,
        λ v x c at known.
            ap a (get_elem?-get_or ordered v (constant false) at) ∙ ap (λ o. decided o false) known,
        t.one_value (numbered ordered a),
      )

  -- A node is live exactly if it is true under an assignment of the atoms that agrees.
  pub Live-iff :
      (n : ℕ)
      → distinct ordered ≡ true
      → n < length ns
      → Live n ↔ ((a : Assignment) × Follows flags a × (value (numbered ordered a) ns n ≡ true))
  Live-iff n u lt = (
    λ (b, agrees, holds). (
      extended b,
      extended-Follows b,
      value-agree t (suc n) n (numbered ordered (extended b)) b
            (λ v l. numbered-extended b v u agrees l) (omega arith) lt
          ∙ holds,
    ),
    λ (a, agrees, holds). (
      numbered ordered a,
      λ v x c at known. ap a (get_elem?-get_or ordered v (constant false) at) ∙ agrees x c known,
      holds,
    ),
  )

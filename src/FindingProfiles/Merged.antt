-- ===== src/FindingProfiles/Merged.antt =====
-- What the two ways to add the focused skips of cgull/finding_profiles.py have in common.
use cgull.Prelude.{
  Bool, true, false, not, List, [], ◌∷◌, ◌++◌, Option, none, some, ◌≡◌, ◌⊎◌, refl, sym, ap, ap₂,
  ◌∙◌, subst, inl, inr, if◌then◌else◌, Bool-cases, Text, codes, text_eq, nat_eq, list_beq, ◌==◌,
  lookup, elem, keep, map,
}
use cgull.Baseline.{Severity}
use cgull.FindingProfiles.{
  Skips, focused_skips, ProfileError, Outcome, done, raised, validate_focused_profile, set_default,
  set_defaults, apply_focused_skips, or_reason, overlay, with_finding_profile,
}

abbrev pub or_else : Option Text → Option Text → Option Text
or_else (some r) o = some r
or_else none o = o

or_else_assoc : (a b d : Option Text) → or_else (or_else a b) d ≡ or_else a (or_else b d)
or_else_assoc (some r) b d = refl
or_else_assoc none b d = refl

or_else-none : (a : Option Text) → or_else a none ≡ a
or_else-none (some r) = refl
or_else-none none = refl

module _ (k : Text) where
  lookup-append : (xs ys : Skips) → lookup k (xs ++ ys) ≡ or_else (lookup k xs) (lookup k ys)
  lookup-append [] ys = refl
  lookup-append ((i, r) ∷ xs) ys = elim (Bool-cases (i == k)) [
    | inl same ↦ rw same refl
    | inr differs ↦ rw differs (lookup-append xs ys)
  ]

  lookup-set_default :
      (i r : Text) (o : Option Text) (m : Skips)
      → lookup i m ≡ o
      → lookup k (set_default i r o m) ≡ or_else (lookup k m) (lookup k ((i, r) ∷ []))
  lookup-set_default i r none m h = lookup-append m ((i, r) ∷ [])
  lookup-set_default i r (some held) m h = elim (Bool-cases (i == k)) [
    | inl same ↦
        let there = subst (λ z. lookup z m ≡ some held) ((text_eq.beq_iff i k).0 same) h in
        rw there refl
    | inr differs ↦ rw differs (sym (or_else-none (lookup k m)))
  ]

  lookup-set_defaults :
      (base m : Skips) → lookup k (set_defaults base m) ≡ or_else (lookup k m) (lookup k base)
  lookup-set_defaults [] m = sym (or_else-none (lookup k m))
  lookup-set_defaults ((i, r) ∷ rest) m =
      lookup-set_defaults rest (set_default i r (lookup i m) m)
      ∙ ap (λ z. or_else z (lookup k rest)) (lookup-set_default i r (lookup i m) m refl)
      ∙ or_else_assoc (lookup k m) (lookup k ((i, r) ∷ [])) (lookup k rest)
      ∙ ap (or_else (lookup k m)) (sym (lookup-append ((i, r) ∷ []) rest))

  reasons : Skips → Option Text → Option Text
  reasons over none = none
  reasons over (some r) = some (or_reason (lookup k over) r)

  lookup-reasons :
      (base over : Skips)
      → lookup k (map (λ p. (p.0, or_reason (lookup p.0 over) p.1)) base)
        ≡ reasons over (lookup k base)
  unfolding reasons
  lookup-reasons [] over = refl
  lookup-reasons ((i, r) ∷ rest) over = elim (Bool-cases (i == k)) [
    | inl same ↦
        rw same (ap (λ z. some (or_reason (lookup z over) r)) ((text_eq.beq_iff i k).0 same))
    | inr differs ↦ rw differs (lookup-reasons rest over)
  ]

  lookup-keep_others :
      (ids : List Text) (over : Skips)
      → lookup k (keep (λ p. not (elem p.0 ids)) over)
        ≡ (if elem k ids then none else lookup k over)
  lookup-keep_others ids [] = elim (Bool-cases (elem k ids)) [
    | inl in_ ↦ rw in_ refl
    | inr out_ ↦ rw out_ refl
  ]
  lookup-keep_others ids ((i, r) ∷ rest) = elim (Bool-cases (elem i ids)) [
    | inl in_ ↦ elim (Bool-cases (i == k)) [
      | inl same ↦
          let in_k = subst (λ z. elem z ids ≡ true) ((text_eq.beq_iff i k).0 same) in_ in
          rw (in_, in_k) (let ih = lookup-keep_others ids rest in rw in_k at ih)
      | inr differs ↦ rw (in_, differs) (lookup-keep_others ids rest)
    ]
    | inr out_ ↦ elim (Bool-cases (i == k)) [
      | inl same ↦
          let out_k = subst (λ z. elem z ids ≡ false) ((text_eq.beq_iff i k).0 same) out_ in
          rw (out_, same, out_k) refl
      | inr differs ↦ rw (out_, differs) (lookup-keep_others ids rest)
    ]
  ]

  is_held : Option Text → Bool
  is_held none = false
  is_held (some r) = true

  elem-keys : (base : Skips) → elem k (map (λ q. q.0) base) ≡ is_held (lookup k base)
  unfolding is_held
  elem-keys [] = refl
  elem-keys ((i, r) ∷ rest) = elim (Bool-cases (i == k)) [
    | inl same ↦
        let back = (text_eq.beq_iff k i).1 (sym ((text_eq.beq_iff i k).0 same)) in
        rw (same, back) refl
    | inr differs ↦ elim (Bool-cases (k == i)) [
      | inl same ↦ absurd (
          let back = (text_eq.beq_iff i k).1 (sym ((text_eq.beq_iff k i).0 same)) in
          cc (back, differs))
      | inr apart ↦ rw (differs, apart) (elem-keys rest)
    ]
  ]

  overlaid :
      (o p : Option Text)
      → or_else
          (elim o [ none ↦ none | some r ↦ some (or_reason p r) ])
          (if is_held o then none else p)
        ≡ or_else p o
  unfolding is_held
  overlaid none p = sym (or_else-none p)
  overlaid (some r) none = refl
  overlaid (some r) (some q) = refl

  lookup-overlay :
      (base over : Skips) → lookup k (overlay base over) ≡ or_else (lookup k over) (lookup k base)
  unfolding overlay reasons
  lookup-overlay base over =
      lookup-append (map (λ p. (p.0, or_reason (lookup p.0 over) p.1)) base)
        (keep (λ p. not (elem p.0 (map (λ q. q.0) base))) over)
      ∙ ap₂ or_else (lookup-reasons base over) (
          lookup-keep_others (map (λ q. q.0) base) over
          ∙ ap (λ b. if b then none else lookup k over) (elem-keys base))
      ∙ overlaid (lookup k base) (lookup k over)

-- Both ways to add the focused skips raise the same error, or both succeed, and then each rule has
-- the same reason in both results: the one that it had, or else that of the focused skips, and
-- none where neither has one.
pub focused_agree :
    (rules : List (Text × Severity)) (skipped : Skips)
    → ((e : ProfileError) × (apply_focused_skips rules skipped ≡ raised e)
        × (with_finding_profile rules skipped (some (codes "focused")) ≡ raised e))
      ⊎ (a : Skips) × (b : Skips) × (apply_focused_skips rules skipped ≡ done a)
        × (with_finding_profile rules skipped (some (codes "focused")) ≡ done b)
        × ((k : Text)
            → (lookup k a ≡ or_else (lookup k skipped) (lookup k focused_skips))
              × (lookup k b ≡ lookup k a))
unfolding apply_focused_skips with_finding_profile list_beq
focused_agree rules skipped = by_outcome (validate_focused_profile rules) refl
  where
    by_outcome :
        (o : Outcome (Unit {0}))
        → validate_focused_profile rules ≡ o
        → ((e : ProfileError) × (apply_focused_skips rules skipped ≡ raised e)
            × (with_finding_profile rules skipped (some (codes "focused")) ≡ raised e))
          ⊎ (a : Skips) × (b : Skips) × (apply_focused_skips rules skipped ≡ done a)
            × (with_finding_profile rules skipped (some (codes "focused")) ≡ done b)
            × ((k : Text)
                → (lookup k a ≡ or_else (lookup k skipped) (lookup k focused_skips))
                  × (lookup k b ≡ lookup k a))
    by_outcome (raised e) h =
        inl (e, rw (h, apply_focused_skips) refl, rw (h, with_finding_profile) refl)
    by_outcome (done u) h = inr (
      set_defaults focused_skips skipped,
      overlay focused_skips skipped,
      rw (h, apply_focused_skips) refl,
      rw (h, with_finding_profile) refl,
      λ k. (
        lookup-set_defaults k focused_skips skipped,
        lookup-overlay k focused_skips skipped ∙ sym (lookup-set_defaults k focused_skips skipped),
      ),
    )

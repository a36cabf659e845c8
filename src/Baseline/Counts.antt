-- ===== src/Baseline/Counts.antt =====
-- The findings that `apply_baseline` of cgull/baseline.py reports are the multiset difference of
-- the current ones and the baseline.
use cgull.Prelude.{
  ℕ, ◌+◌, ◌-◌, List, [], ◌∷◌, Option, ◌≡◌, refl, ap, inl, inr, arith, if◌then◌else◌, Text, text_eq,
  ◌==◌, Bool-cases,
}
use cgull.Baseline.{
  Issue, Counter, count, new_issues, current_counts, resolved_count, apply_baseline,
}

-- How many issues have the fingerprint.
abbrev pub occurrences : Text → List Issue → ℕ
occurrences k [] = 0
occurrences k (i ∷ is) = (if i.fingerprint == k then 1 else 0) + occurrences k is

new_issues-occurrences :
    (remaining : Counter) (is : List Issue) (k : Text)
    → occurrences k (new_issues remaining is) ≡ occurrences k is - count k remaining
unfolding new_issues
new_issues-occurrences remaining [] k = omega arith
new_issues-occurrences remaining (i ∷ is) k =
    let n = count i.fingerprint remaining in
    let same : i.fingerprint ≡ k → n ≡ count k remaining = λ q. ap (λ j. count j remaining) q in
    elim (Bool-cases (i.fingerprint == k)) [
      | inl e ↦
          let q = same ((text_eq.beq_iff i.fingerprint k).0 e) in
          ground (
            arith,
            e,
            q,
            new_issues-occurrences remaining is k,
            new_issues-occurrences ((i.fingerprint, n - 1) ∷ remaining) is k,
          )
      | inr d ↦ ground (
        arith,
        d,
        new_issues-occurrences remaining is k,
        new_issues-occurrences ((i.fingerprint, n - 1) ∷ remaining) is k,
      )
    ]

current_counts-count :
    (c : Counter) (is : List Issue) (k : Text)
    → count k (current_counts c is) ≡ count k c + occurrences k is
unfolding current_counts
current_counts-count c [] k = omega arith
current_counts-count c (i ∷ is) k =
    let n = count i.fingerprint c in
    let ih = current_counts-count ((i.fingerprint, n + 1) ∷ c) is k in
    elim (Bool-cases (i.fingerprint == k)) [
      | inl e ↦
          let q = ap (λ j. count j c) ((text_eq.beq_iff i.fingerprint k).0 e) in
          ground (arith, e, q, ih)
      | inr d ↦ ground (arith, d, ih)
    ]

-- What the baseline holds beyond the issues, entry by entry.
abbrev pub resolved : List Issue → Counter → ℕ
resolved is [] = 0
resolved is ((k, n) ∷ rest) = (n - occurrences k is) + resolved is rest

resolved_count-resolved :
    (is : List Issue) (baseline : Counter)
    → resolved_count (current_counts [] is) baseline ≡ resolved is baseline
unfolding resolved_count
resolved_count-resolved is [] = refl
resolved_count-resolved is ((k, n) ∷ rest) =
    omega (arith, current_counts-count [] is k, resolved_count-resolved is rest)

-- Of each fingerprint `apply_baseline` reports as many issues as there are beyond the baseline's
-- count, and its resolved count is the sum, over the baseline's entries, of what an entry counts
-- beyond the issues that have its fingerprint.
pub apply_baseline_lem :
    (is : List Issue) (total : ℕ) (baseline : Counter) (rules : Option ℕ) (k : Text)
    → (occurrences k (apply_baseline is total baseline rules).issues
        ≡ occurrences k is - count k baseline)
      × ((apply_baseline is total baseline rules).baseline_resolved_count ≡ resolved is baseline)
unfolding apply_baseline
apply_baseline_lem is total baseline rules k =
    (new_issues-occurrences baseline is k, resolved_count-resolved is baseline)

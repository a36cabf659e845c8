-- ===== src/Baseline.antt =====
-- cgull/baseline.py: `apply_baseline`, which leaves out the findings that a baseline accounts for.
pub mod Counts
pub mod Examples
use cgull.Prelude.{
  ℕ, ◌+◌, ◌-◌, Bool, true, false, List, [], ◌∷◌, Option, none, some, if◌then◌else◌, Text, text_eq,
  ltb, lookup, keep, length,
}

pub data Severity : Type 0 where
  high medium low info : Severity

-- What `apply_baseline` reads of an issue.
pub record Issue : Type 0 where
  pub fingerprint : Text
  pub impact : Severity

-- A `Counter`; a count is replaced by a newer entry in front.
abbrev pub Counter : Type 0
Counter = List (Text × ℕ)

abbrev pub or_zero : Option ℕ → ℕ
or_zero none = 0
or_zero (some n) = n

-- `counter.get(key, 0)`.
abbrev pub count : Text → Counter → ℕ
count k c = or_zero (lookup k c)

-- The loop over the issues: what it appends to `new_issues`.
unfoldable pub new_issues : Counter → List Issue → List Issue
new_issues remaining [] = []
new_issues remaining (i ∷ is) =
    let n = count i.fingerprint remaining in
    elim (ltb 0 n) [
      | true ↦ new_issues ((i.fingerprint, n - 1) ∷ remaining) is
      | false ↦ i ∷ new_issues remaining is
    ]

-- The loop's `current_counts`.
unfoldable pub current_counts : Counter → List Issue → Counter
current_counts c [] = c
current_counts c (i ∷ is) = current_counts ((i.fingerprint, count i.fingerprint c + 1) ∷ c) is

-- The loop over `baseline_counts.items()`.
unfoldable pub resolved_count : Counter → Counter → ℕ
resolved_count current [] = 0
resolved_count current ((k, n) ∷ rest) = (n - count k current) + resolved_count current rest

abbrev pub is_high : Severity → Bool
is_high high = true
is_high s = false

abbrev pub is_medium : Severity → Bool
is_medium medium = true
is_medium s = false

abbrev pub is_low : Severity → Bool
is_low low = true
is_low s = false

abbrev pub count_impact : (Severity → Bool) → List Issue → ℕ
count_impact p is = length (keep (λ i. p i.impact) is)

-- The fields of the new `ScanResult` that are not copied from the old one.
pub record Filtered : Type 0 where
  pub issues : List Issue
  pub total_issues_count : ℕ
  pub high_severity_count : ℕ
  pub medium_severity_count : ℕ
  pub low_severity_count : ℕ
  pub baseline_new_count : ℕ
  pub baseline_resolved_count : ℕ
  pub baseline_total_before_filter : ℕ
  pub baseline_rules_count : Option ℕ

unfoldable pub apply_baseline : List Issue → ℕ → Counter → Option ℕ → Filtered
unfolding new_issues current_counts resolved_count
apply_baseline issues total baseline rules =
    let new = new_issues baseline issues in
    record {
      issues = new;
      total_issues_count = length new;
      high_severity_count = count_impact is_high new;
      medium_severity_count = count_impact is_medium new;
      low_severity_count = count_impact is_low new;
      baseline_new_count = length new;
      baseline_resolved_count = resolved_count (current_counts [] issues) baseline;
      baseline_total_before_filter = total;
      baseline_rules_count = rules;
    }

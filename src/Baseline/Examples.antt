-- ===== src/Baseline/Examples.antt =====
-- A run of `apply_baseline` of cgull/baseline.py, and its theorem at it.
use cgull.Prelude.{◌-◌, List, [], ◌∷◌, none, ◌≡◌, refl, String, codes, list_beq}
use cgull.Baseline.{Severity, high, low, Issue, Counter, count, apply_baseline}
use cgull.Baseline.Counts.{occurrences, resolved, apply_baseline_lem}

abbrev issue : String → Severity → Issue
issue f s = record { fingerprint = codes f; impact = s }

-- Two findings with one fingerprint, of which the baseline knows one, and a new one.
abbrev found : List Issue
found = issue "a" high ∷ issue "a" high ∷ issue "b" low ∷ []

abbrev baseline : Counter
baseline = (codes "a", 1) ∷ (codes "c", 2) ∷ []

filtered_issues :
    (apply_baseline found 3 baseline none).issues ≡ issue "a" high ∷ issue "b" low ∷ []
unfolding apply_baseline list_beq
filtered_issues = refl

resolved_two : (apply_baseline found 3 baseline none).baseline_resolved_count ≡ 2
unfolding apply_baseline list_beq
resolved_two = refl

apply_baseline_lem_example :
    (occurrences (codes "a") (apply_baseline found 3 baseline none).issues
      ≡ occurrences (codes "a") found - count (codes "a") baseline)
    × ((apply_baseline found 3 baseline none).baseline_resolved_count ≡ resolved found baseline)
apply_baseline_lem_example = apply_baseline_lem found 3 baseline none (codes "a")

-- ===== src/FindingProfiles/Examples.antt =====
-- Concrete runs of cgull/finding_profiles.py.
use cgull.Prelude.{
  ◌+◌, List, [], ◌∷◌, some, ◌≡◌, ◌↔◌, ◌⊎◌, refl, true, Text, codes, text_eq, nat_eq, list_beq, ◌==◌,
  lookup, elem, keep, length,
}
use cgull.Baseline.{Severity, high, low, info}
use cgull.FindingProfiles.{
  Skips, focused_skips, focused_skip_ids, ProfileError, done, raised, validate_focused_profile,
  apply_focused_skips, with_finding_profile, classify_issue_bucket, count_security_vs_policy,
}
use cgull.FindingProfiles.Groups.{count_security_vs_policy_lem, validate_focused_profile_iff}
use cgull.FindingProfiles.Merged.{or_else, focused_agree}

-- The skipped rules are registered; one of them has a reason of its own.
abbrev registered_rules : List (Text × Severity)
registered_rules =
    (codes "CGULL-001", high)
    ∷ (codes "CGULL-018", low)
    ∷ (codes "CGULL-019", low)
    ∷ (codes "CGULL-025", info)
    ∷ []

abbrev own_skips : Skips
own_skips = (codes "CGULL-018", codes "goto is fine here") ∷ []

abbrev reported : List Text
reported = codes "CGULL-001" ∷ codes "CGULL-018" ∷ codes "CGULL-001" ∷ []

focused_agree_example :
    ((e : ProfileError) × (apply_focused_skips registered_rules own_skips ≡ raised e)
      × (with_finding_profile registered_rules own_skips (some (codes "focused")) ≡ raised e))
    ⊎ (a : Skips) × (b : Skips) × (apply_focused_skips registered_rules own_skips ≡ done a)
      × (with_finding_profile registered_rules own_skips (some (codes "focused")) ≡ done b)
      × ((k : Text)
          → (lookup k a ≡ or_else (lookup k own_skips) (lookup k focused_skips))
            × (lookup k b ≡ lookup k a))
focused_agree_example = focused_agree registered_rules own_skips

count_security_vs_policy_lem_example :
    (count_security_vs_policy reported ≡ (
      length (keep (λ i. classify_issue_bucket i == codes "security") reported),
      length (keep (λ i. classify_issue_bucket i == codes "policy") reported),
    ))
    × ((count_security_vs_policy reported).0 + (count_security_vs_policy reported).1 ≡ 3)
count_security_vs_policy_lem_example = count_security_vs_policy_lem reported

validate_focused_profile_iff_example : (validate_focused_profile registered_rules ≡ done tt) ↔ (
    (i : Text)
    → elem i focused_skip_ids ≡ true
    → (lookup i registered_rules ≡ some low) ⊎ (lookup i registered_rules ≡ some info))
validate_focused_profile_iff_example = validate_focused_profile_iff registered_rules

counts_reported : count_security_vs_policy reported ≡ (2, 1)
unfolding count_security_vs_policy list_beq
counts_reported = refl

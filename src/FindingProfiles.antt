-- ===== src/FindingProfiles.antt =====
-- cgull/finding_profiles.py: the rules that the focused profile skips, and the groups that a report
-- counts its findings by. Of a rule its impact is read, of an issue its rule's identity; the
-- registered rules, a dictionary by identity, are a parameter.
pub mod Merged
pub mod Groups
mod Examples
use cgull.Prelude.{
  ℕ, zero, suc, ◌+◌, Bool, true, false, not, ◌||◌, List, [], ◌∷◌, ◌++◌, Option, none, some,
  if◌then◌else◌, Text, codes, text_eq, nat_eq, list_beq, ◌==◌, lookup, elem, keep, map,
}
use cgull.Baseline.{Severity, high, medium, low, info}

abbrev pub Skips : Type 0
Skips = List (Text × Text)

unfoldable pub focused_skips : Skips
focused_skips =
    (codes "CGULL-018", codes "Focused profile: goto usage is project policy")
    ∷ (codes "CGULL-019", codes "Focused profile: explicit void style is project policy")
    ∷ (codes "CGULL-025", codes "Focused profile: assertion placement is project policy")
    ∷ []

unfoldable pub policy_quality_rules : List Text
policy_quality_rules =
    codes "CGULL-013"
    ∷ codes "CGULL-014"
    ∷ codes "CGULL-016"
    ∷ codes "CGULL-017"
    ∷ codes "CGULL-018"
    ∷ codes "CGULL-019"
    ∷ codes "CGULL-020"
    ∷ codes "CGULL-025"
    ∷ codes "CGULL-041"
    ∷ codes "CGULL-042"
    ∷ codes "CGULL-043"
    ∷ codes "CGULL-045"
    ∷ codes "CGULL-054"
    ∷ codes "CGULL-055"
    ∷ []

-- `tuple(FOCUSED_SKIPS.keys())`.
unfoldable pub focused_skip_ids : List Text
unfolding focused_skips
focused_skip_ids = map (λ p. p.0) focused_skips

-- The ValueErrors, with the identities that they name.
pub data ProfileError : Type 0 where
  unknown_rules unsafe_rules : List Text → ProfileError
  unknown_profile : Text → ProfileError

pub data Outcome {ℓ} (A : Type ℓ) : Type ℓ where
  done : A → Outcome A
  raised : ProfileError → Outcome A

abbrev pub is_missing : Option Severity → Bool
is_missing none = true
is_missing (some s) = false

abbrev pub is_unsafe : Option Severity → Bool
is_unsafe (some high) = true
is_unsafe (some medium) = true
is_unsafe o = false

abbrev pub refuse : List Text → List Text → Outcome (Unit {0})
refuse (i ∷ is) bad = raised (unknown_rules (i ∷ is))
refuse [] (i ∷ is) = raised (unsafe_rules (i ∷ is))
refuse [] [] = done tt

-- `merged.setdefault(rule_id, reason)`.
abbrev pub set_default : Text → Text → Option Text → Skips → Skips
set_default rule_id reason none merged = merged ++ (rule_id, reason) ∷ []
set_default rule_id reason (some held) merged = merged

abbrev pub set_defaults : Skips → Skips → Skips
set_defaults [] merged = merged
set_defaults ((rule_id, reason) ∷ rest) merged =
    set_defaults rest (set_default rule_id reason (lookup rule_id merged) merged)

abbrev pub after_validation {ℓ} : {A : Type ℓ} → Outcome (Unit {0}) → A → Outcome A
after_validation (done _) a = done a
after_validation (raised e) a = raised e

abbrev pub or_reason : Option Text → Text → Text
or_reason (some held) reason = held
or_reason none reason = reason

-- `{**base, **over}`.
unfoldable pub overlay : Skips → Skips → Skips
overlay base over =
    map (λ p. (p.0, or_reason (lookup p.0 over) p.1)) base
    ++ keep (λ p. not (elem p.0 (map (λ q. q.0) base))) over

module _ (rules : List (Text × Severity)) where
  unfoldable pub missing : List Text
  unfolding focused_skip_ids
  missing = keep (λ i. is_missing (lookup i rules)) focused_skip_ids

  unfoldable pub unsafe : List Text
  unfolding focused_skip_ids
  unsafe = keep (λ i. is_unsafe (lookup i rules)) focused_skip_ids

  unfoldable pub validate_focused_profile : Outcome (Unit {0})
  unfolding missing unsafe
  validate_focused_profile = refuse missing unsafe

  unfoldable pub apply_focused_skips : Skips → Outcome Skips
  unfolding validate_focused_profile focused_skips
  apply_focused_skips skipped_rules =
      after_validation validate_focused_profile (set_defaults focused_skips skipped_rules)

  -- `with_finding_profile`, by what it makes of the configuration's `skipped_rules`.
  unfoldable pub with_finding_profile : Skips → Option Text → Outcome Skips
  unfolding validate_focused_profile focused_skips overlay list_beq
  with_finding_profile skipped_rules none = done skipped_rules
  with_finding_profile skipped_rules (some profile) =
      if profile == codes "focused"
      then after_validation validate_focused_profile (overlay focused_skips skipped_rules)
      else if profile == codes "comprehensive"
      then done skipped_rules
      else raised (unknown_profile profile)

unfoldable pub is_policy_quality_rule : Text → Bool
unfolding policy_quality_rules
is_policy_quality_rule rule_id = elem rule_id policy_quality_rules

unfoldable pub classify_issue_bucket : Text → Text
unfolding is_policy_quality_rule
classify_issue_bucket rule_id =
    if is_policy_quality_rule rule_id then codes "policy" else codes "security"

-- The counts of the two groups: `security_correctness`, `policy_quality`.
abbrev pub count_issue : Bool → ℕ × ℕ → ℕ × ℕ
count_issue true (s, p) = (s, suc p)
count_issue false (s, p) = (suc s, p)

unfoldable pub count_issues : List Text → ℕ × ℕ → ℕ × ℕ
unfolding policy_quality_rules
count_issues [] counts = counts
count_issues (rule_id ∷ rest) counts =
    count_issues rest (count_issue (elem rule_id policy_quality_rules) counts)

unfoldable pub finding_group_counts : List Text → ℕ × ℕ
unfolding count_issues
finding_group_counts issues = count_issues issues (0, 0)

unfoldable pub count_security_vs_policy : List Text → ℕ × ℕ
unfolding finding_group_counts
count_security_vs_policy issues = finding_group_counts issues

-- ===== src/FindingProfiles/Groups.antt =====
-- When the focused profile of cgull/finding_profiles.py is refused, and what the report's groups
-- count.
use cgull.Prelude.{
  ℕ, suc, ◌+◌, Bool, true, false, not, List, [], ◌∷◌, Option, none, some, ◌≡◌, ◌↔◌, ◌⊎◌, refl, sym,
  ap, ap₂, ◌∙◌, inl, inr, arith, Bool-cases, Text, codes, text_eq, nat_eq, list_beq, ◌==◌, beq_refl,
  lookup, fun_ext, elem-cons_tail, elem-keep, elem, keep, length,
}
use cgull.Baseline.{Severity, high, medium, low, info}
use cgull.FindingProfiles.{
  focused_skip_ids, policy_quality_rules, done, is_missing, is_unsafe, missing, unsafe, refuse,
  validate_focused_profile, is_policy_quality_rule, classify_issue_bucket, count_issues,
  finding_group_counts, count_security_vs_policy,
}

count_issues-length :
    (issues : List Text) (s p : ℕ)
    → count_issues issues (s, p) ≡ (
      s + length (keep (λ i. not (is_policy_quality_rule i)) issues),
      p + length (keep is_policy_quality_rule issues),
    )
unfolding count_issues is_policy_quality_rule
count_issues-length [] s p = ap₂ (λ a b. (a, b)) (omega arith) (omega arith)
count_issues-length (i ∷ is) s p = elim (Bool-cases (elem i policy_quality_rules)) [
  | inl policy ↦
      rw policy (count_issues-length is s (suc p) ∙ ap₂ (λ a b. (a, b)) refl (omega arith))
  | inr security ↦
      rw security (count_issues-length is (suc s) p ∙ ap₂ (λ a b. (a, b)) (omega arith) refl)
]

label-security :
    (i : Text) → (classify_issue_bucket i == codes "security") ≡ not (is_policy_quality_rule i)
unfolding classify_issue_bucket list_beq
label-security i = elim (Bool-cases (is_policy_quality_rule i)) [
  | inl policy ↦ rw (policy, classify_issue_bucket) refl
  | inr security ↦ rw (security, classify_issue_bucket) refl
]

label-policy : (i : Text) → (classify_issue_bucket i == codes "policy") ≡ is_policy_quality_rule i
unfolding classify_issue_bucket list_beq
label-policy i = elim (Bool-cases (is_policy_quality_rule i)) [
  | inl policy ↦ rw (policy, classify_issue_bucket) refl
  | inr security ↦ rw (security, classify_issue_bucket) refl
]

length-keep-both :
    (p : Text → Bool) (is : List Text)
    → length (keep (λ i. not (p i)) is) + length (keep p is) ≡ length is
length-keep-both p [] = refl
length-keep-both p (i ∷ is) = elim (Bool-cases (p i)) [
  | inl in_ ↦ rw in_ (let ih = length-keep-both p is in omega arith)
  | inr out_ ↦ rw out_ (let ih = length-keep-both p is in omega arith)
]

keep-none :
    (p : Text → Bool) (is : List Text)
    → ((i : Text) → elem i is ≡ true → p i ≡ false)
    → keep p is ≡ []
keep-none p [] h = refl
keep-none p (i ∷ is) h =
    rw (h i (rw (beq_refl i) refl)) (keep-none p is (λ j m. h j (elem-cons_tail j i is m)))

none-keep :
    (p : Text → Bool) (is : List Text) (i : Text) → keep p is ≡ [] → elem i is ≡ true → p i ≡ false
none-keep p is i h m = elim (Bool-cases (p i)) [
  | inl in_ ↦ absurd (let e = elem-keep p i is in let e1 = rw (h, m, in_) at e in cc e1)
  | inr out_ ↦ out_
]

refused-none : (a b : List Text) → refuse a b ≡ done tt → (a ≡ []) × (b ≡ [])
refused-none [] [] h = (refl, refl)
refused-none [] (i ∷ is) h = absurd (cc h)
refused-none (i ∷ is) b h = absurd (cc h)

mild :
    (o : Option Severity)
    → is_missing o ≡ false
    → is_unsafe o ≡ false
    → (o ≡ some low) ⊎ (o ≡ some info)
mild none a b = absurd (cc a)
mild (some high) a b = absurd (cc b)
mild (some medium) a b = absurd (cc b)
mild (some low) a b = inl refl
mild (some info) a b = inr refl

registered : (o : Option Severity) → (o ≡ some low) ⊎ (o ≡ some info) → is_missing o ≡ false
registered o (inl h) = rw h refl
registered o (inr h) = rw h refl

harmless : (o : Option Severity) → (o ≡ some low) ⊎ (o ≡ some info) → is_unsafe o ≡ false
harmless o (inl h) = rw h refl
harmless o (inr h) = rw h refl

-- The report counts every issue once: the counts of the two groups are the numbers of the issues
-- that are labelled as security and as policy.
pub count_security_vs_policy_lem :
    (issues : List Text)
    → (count_security_vs_policy issues ≡ (
      length (keep (λ i. classify_issue_bucket i == codes "security") issues),
      length (keep (λ i. classify_issue_bucket i == codes "policy") issues),
    ))
      × ((count_security_vs_policy issues).0 + (count_security_vs_policy issues).1 ≡ length issues)
unfolding count_security_vs_policy finding_group_counts
count_security_vs_policy_lem issues =
    let counted : count_issues issues (0, 0) ≡ (
      length (keep (λ i. not (is_policy_quality_rule i)) issues),
      length (keep is_policy_quality_rule issues),
    ) =
      (count_issues-length issues 0 0 ∙ ap₂ (λ a b. (a, b)) (omega arith) (omega arith)) in
    (
      counted
          ∙ ap₂ (λ p q. (length (keep p issues), length (keep q issues)))
              (fun_ext (λ i. sym (label-security i))) (fun_ext (λ i. sym (label-policy i))),
      ap (λ c. c.0 + c.1) counted ∙ length-keep-both is_policy_quality_rule issues,
    )

-- The focused profile is valid exactly if each rule that it skips is registered with the impact low
-- or info.
pub validate_focused_profile_iff :
    (rules : List (Text × Severity))
    → (validate_focused_profile rules ≡ done tt) ↔ (
        (i : Text)
        → elem i focused_skip_ids ≡ true
        → (lookup i rules ≡ some low) ⊎ (lookup i rules ≡ some info))
unfolding validate_focused_profile missing unsafe
validate_focused_profile_iff rules = (
  λ h i m.
      (let nothing =
          refused-none (keep (λ i. is_missing (lookup i rules)) focused_skip_ids)
            (keep (λ i. is_unsafe (lookup i rules)) focused_skip_ids) h in
        mild (lookup i rules)
          (none-keep (λ i. is_missing (lookup i rules)) focused_skip_ids i nothing.0 m)
          (none-keep (λ i. is_unsafe (lookup i rules)) focused_skip_ids i nothing.1 m)),
  λ h.
      ap₂ refuse
        (keep-none (λ i. is_missing (lookup i rules)) focused_skip_ids
          (λ i m. registered (lookup i rules) (h i m)))
        (keep-none (λ i. is_unsafe (lookup i rules)) focused_skip_ids
          (λ i m. harmless (lookup i rules) (h i m))),
)

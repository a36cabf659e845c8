-- ===== src/Cfg/Ranges/Stable.antt =====
-- The states that the worklist of cgull/cfg/integer_ranges.py merges and widens are true wherever
-- one of those that they come from is.
use cgull.Prelude.{
  ℤ, Bool, true, false, [], ◌∷◌, Option, none, some, ◌≡◌, refl, sym, ap, subst, inl, inr, text_eq,
  nat_eq, eqb_ℤ_iff, lookup, &&_iff,
}
use cgull.Cfg.Ranges.{IntegerRange, Context}
use cgull.Cfg.Ranges.Analysis.{
  same_end, same_range, includes, widen_entry, widen_state, merged_state,
}
use cgull.Cfg.Ranges.Bounds.{AtLeast, AtMost, In, hull-In, widen-In}
use cgull.Cfg.Ranges.Compared.{Held}
use cgull.Cfg.Ranges.Conditions.{merge, merge_entry}
use cgull.Cfg.Ranges.Expressions.{State}
use cgull.Cfg.Ranges.Meaning.{Values}
use cgull.Cfg.Ranges.Sound.{All-lookup}

module _ (c : Context) (values : Values) where
  same_end-eq : (a b : Option ℤ) → same_end a b ≡ true → a ≡ b
  same_end-eq none none h = refl
  same_end-eq none (some b) h = absurd (cc h)
  same_end-eq (some a) none h = absurd (cc h)
  same_end-eq (some a) (some b) h = ap some ((eqb_ℤ_iff a b).0 h)

  pub includes-Held : (s t : State) → includes s t ≡ true → Held c values t → Held c values s
  includes-Held [] t h k = tt
  includes-Held ((n, r) ∷ rest) t h k =
      let both = (&&_iff (same_range r (lookup n t)) (includes rest t)).0 h in
      (entry (lookup n t) refl both.0, includes-Held rest t both.1 k)
    where
      entry :
          (o : Option IntegerRange)
          → lookup n t ≡ o
          → same_range r o ≡ true
          → In (values.variables n) r
      entry none e m = absurd (cc m)
      entry (some q) e m =
          let ends = (&&_iff (same_end r.lower q.lower) (same_end r.upper q.upper)).0 m in
          let held = All-lookup (λ n r. In (values.variables n) r) n q t k e in
          (
            subst (λ l. AtLeast l (values.variables n)) (sym (same_end-eq r.lower q.lower ends.0))
                held.0,
            subst (λ u. AtMost u (values.variables n)) (sym (same_end-eq r.upper q.upper ends.1))
                held.1,
          )

  merge-right : (s t : State) → Held c values t → Held c values (merge s t)
  unfolding merge merge_entry
  merge-right [] t h = tt
  merge-right ((n, r) ∷ rest) t h = entry (merge-right rest t h) (lookup n t) refl
    where
      entry :
          Held c values (merge rest t)
          → (o : Option IntegerRange) → lookup n t ≡ o
          → Held c values (merge_entry n r o (merge rest t))
      entry ih none e = ih
      entry ih (some q) e = (
        hull-In r q (values.variables n)
            (inr (All-lookup (λ n r. In (values.variables n) r) n q t h e)),
        ih,
      )

  merge-left : (s t : State) → Held c values s → Held c values (merge s t)
  unfolding merge merge_entry
  merge-left [] t h = tt
  merge-left ((n, r) ∷ rest) t h = entry (merge-left rest t h.1) (lookup n t)
    where
      entry :
          Held c values (merge rest t)
          → (o : Option IntegerRange) → Held c values (merge_entry n r o (merge rest t))
      entry ih none = ih
      entry ih (some q) = (hull-In r q (values.variables n) (inl h.0), ih)

  widen_state-Held : (s t : State) → Held c values t → Held c values (widen_state s t)
  unfolding widen_state widen_entry
  widen_state-Held [] t h = tt
  widen_state-Held ((n, r) ∷ rest) t h = entry (widen_state-Held rest t h) (lookup n t) refl
    where
      entry :
          Held c values (widen_state rest t)
          → (o : Option IntegerRange) → lookup n t ≡ o
          → Held c values (widen_entry n r o (widen_state rest t))
      entry ih none e = ih
      entry ih (some q) e = (
        widen-In r q (values.variables n) (All-lookup (λ n r. In (values.variables n) r) n q t h e),
        ih,
      )

  -- The new incoming state is true wherever the edge's is, and wherever the prior one was.
  pub merged_state-Held :
      (edge : State) (prior : Option State) (visited : Bool)
      → (Held c values edge → Held c values (merged_state edge prior visited))
        × ((p : State)
            → prior ≡ some p
            → Held c values p
            → Held c values (merged_state edge prior visited))
  unfolding merged_state
  merged_state-Held edge none visited = (λ h. h, λ p e h. absurd (cc e))
  merged_state-Held edge (some q) true = (
    λ h. widen_state-Held q (merge q edge) (merge-right q edge h),
    λ p e h. widen_state-Held q (merge q edge) (merge-left q edge (held p e h)),
  )
    where
      held : (p : State) → some q ≡ some p → Held c values p → Held c values q
      held p e h = let same : p ≡ q = cc e in subst (Held c values) same h
  merged_state-Held edge (some q) false = (
    λ h. merge-right q edge h,
    λ p e h. merge-left q edge (let same : p ≡ q = cc e in subst (Held c values) same h),
  )

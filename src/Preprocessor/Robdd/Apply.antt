-- ===== src/Preprocessor/Robdd/Apply.antt =====
-- `apply` returns a node for the conjunction or the disjunction of its arguments, and its
-- recursion is no deeper than the sum of their numbers.
use cgull.Prelude.{
  ℕ, zero, suc, ◌+◌, ◌≤◌, ◌<◌, List, ◌∷◌, Option, none, some, ◌≡◌, refl, ◌∙◌, ◌⊎◌, inl, inr, arith,
  if◌then◌else◌, length, get_elem?, get_elem?-lt, lookup, nat_eq, pair_eq, ltb, Bool-cases,
}
use cgull.Preprocessor.Exec.{pure, update, ◌>>=◌, ◌>>◌, or_else}
use cgull.Preprocessor.Expression.{Expression}
use cgull.Preprocessor.Robdd.{
  Node, Manager, M, Operation, operation_eq, consume, item, make_node, shortcut, low_by, high_by,
  apply_ordered, apply_fuel, apply,
}
use cgull.Preprocessor.Robdd.Invariant.{
  Grows-refl, Applies-Grows, IsSound, Meets, Meets-bind, Meets-ok, Meets-weaken,
}
use cgull.Preprocessor.Robdd.Nodes.{Chooses, consume-Meets, item-Meets, make_node-Meets}
use cgull.Preprocessor.Robdd.Cofactors.{
  IsApplied, shortcut-none, IsSound-apply, shortcut-IsApplied, IsApplied-comm, Both, Both-Grows,
  descends, IsReady-children, of_children,
}

-- `apply` of nodes on which it must recur, with the recursive calls as an argument.
abbrev cofactored : (ℕ → ℕ → M ℕ) → Operation → ℕ → ℕ → M ℕ
cofactored again op left right = do
  l ← item left
  r ← item right
  let v = if ltb r.atom_index l.atom_index then r.atom_index else l.atom_index
  low ← again (low_by v left l) (low_by v right r)
  high ← again (high_by v left l) (high_by v right r)
  result ← make_node v low high
  update (λ m. record m { apply_cache = ((op, (left, right)), result) ∷ m.apply_cache })
  pure result

least_cases :
    (l r : ℕ)
    → ((if ltb r l then r else l) ≤ l)
      × ((if ltb r l then r else l) ≤ r)
      × ((l ≡ (if ltb r l then r else l)) ⊎ (r ≡ (if ltb r l then r else l)))
least_cases l r = (ground arith, ground arith, ground arith)

module _ (ordered : List Expression) (again : ℕ → ℕ → M ℕ) (op : Operation) (left right : ℕ)
    (correct : (i j : ℕ) (m : Manager)
      → i + j < left + right
      → IsSound ordered m
      → i < length m.nodes
      → j < length m.nodes
      → Meets ordered m (IsApplied ordered op i j) (again i j m)) where
  -- The two recursive calls and the node that joins their results.
  joined-Meets :
      (v : ℕ) (l r : Node) (m : Manager)
      → v ≤ l.atom_index
      → v ≤ r.atom_index
      → (l.atom_index ≡ v) ⊎ (r.atom_index ≡ v)
      → IsSound ordered m
      → get_elem? m.nodes left ≡ some (some l)
      → get_elem? m.nodes right ≡ some (some r)
      → Meets ordered m (IsApplied ordered op left right) (
          (do
            low ← again (low_by v left l) (low_by v right r)
            high ← again (high_by v left l) (high_by v right r)
            result ← make_node v low high
            update
                (λ m'. record m' { apply_cache = ((op, (left, right)), result) ∷ m'.apply_cache })
            pure result)
            m)
  joined-Meets v l r m le_l le_r least s el er =
      let both : Both ordered op left right v l r le_l le_r least m = record {
        sound = s;
        at_left = el;
        at_right = er;
      } in
      let grow = Both-Grows ordered op left right v l r le_l le_r least in
      let d = descends ordered op left right v l r le_l le_r least m both in
      Meets-bind m (IsApplied ordered op (low_by v left l) (low_by v right r))
        (IsApplied ordered op left right) (again (low_by v left l) (low_by v right r)) _
        (correct (low_by v left l) (low_by v right r) m d.low_falls s d.left_low d.right_low)
        λ low m1 s1 g1 a1.
          let both1 = grow m m1 both s1 g1 in
          let d1 = descends ordered op left right v l r le_l le_r least m1 both1 in
          Meets-bind m1 (IsApplied ordered op (high_by v left l) (high_by v right r))
            (IsApplied ordered op left right) (again (high_by v left l) (high_by v right r)) _
            (correct (high_by v left l) (high_by v right r) m1 d1.high_falls s1 d1.left_high
              d1.right_high)
            λ high m2 s2 g2 a2.
              let both2 = grow m1 m2 both1 s2 g2 in
              let low2 = Applies-Grows g2 a1 in
              Meets-bind m2 (λ x m'. Chooses (length ordered) m'.nodes v low high x)
                (IsApplied ordered op left right) (make_node v low high) _
                (make_node-Meets m2 v low high s2 (
                  IsReady-children ordered op left right v l r le_l le_r least m2 low high both2
                    low2 a2))
                λ x m3 s3 g3 c3.
                  let applied =
                    of_children ordered op left right v l r le_l le_r least m3 low high x
                      (grow m2 m3 both2 s3 g3) (Applies-Grows g3 low2) (Applies-Grows g3 a2) c3 in
                  record {
                    sound = IsSound-apply ordered m3 op left right x s3 applied;
                    grows = Grows-refl m3.nodes;
                    result = applied;
                  }

  cofactored-Meets :
      (m : Manager)
      → IsSound ordered m
      → left < length m.nodes
      → right < length m.nodes
      → (2 ≤ left) × (2 ≤ right)
      → Meets ordered m (IsApplied ordered op left right) (cofactored again op left right m)
  cofactored-Meets m s hl hr two =
      Meets-bind m (λ l m'. get_elem? m'.nodes left ≡ some (some l))
        (IsApplied ordered op left right) (item left) _ (item-Meets m left s hl (two.0))
        λ l m1 s1 g1 el.
          Meets-bind m1 (λ r m'. get_elem? m'.nodes right ≡ some (some r))
            (IsApplied ordered op left right) (item right) _
            (item-Meets m1 right s1 (omega (arith, g1.longer)) (two.1))
            λ r m2 s2 g2 er.
              let (le_l, le_r, least) = least_cases l.atom_index r.atom_index in
              joined-Meets _ l r m2 le_l le_r least s2
                (g2.kept left (get_elem?-lt m1.nodes left el) ∙ el) er

  -- After `consume`: a shortcut, or the recursion.
  after_consume :
      (o : Option ℕ) (m : Manager)
      → shortcut op left right ≡ o
      → left ≤ right
      → IsSound ordered m
      → left < length m.nodes
      → right < length m.nodes
      → Meets ordered m
          (IsApplied ordered op left right)
          (or_else o (cofactored again op left right) m)
  after_consume (some x) m e le s hl hr =
      Meets-ok m (IsApplied ordered op left right) x s
        (shortcut-IsApplied ordered m op left right x s hl hr e)
  after_consume none m e le s hl hr = cofactored-Meets m s hl hr (shortcut-none op left right le e)

  after_cache :
      (o : Option ℕ) (m : Manager)
      → lookup (op, (left, right)) m.apply_cache ≡ o
      → left ≤ right
      → IsSound ordered m
      → left < length m.nodes
      → right < length m.nodes
      → Meets ordered m (IsApplied ordered op left right) (
          or_else o
            (do consume; or_else (shortcut op left right) (cofactored again op left right))
            m)
  after_cache (some x) m e le s hl hr =
      Meets-ok m (IsApplied ordered op left right) x s (s.applies op left right x e)
  after_cache none m e le s hl hr =
      Meets-bind m (λ _ m'. m'.interned ≡ m.interned) (IsApplied ordered op left right) consume _
        (consume-Meets m s)
        λ _ m1 s1 g1 _.
          after_consume (shortcut op left right) m1 refl le s1 (omega (arith, g1.longer))
            (omega (arith, g1.longer))

  apply_ordered-Meets :
      (m : Manager)
      → left ≤ right
      → IsSound ordered m
      → left < length m.nodes
      → right < length m.nodes
      → Meets ordered m (IsApplied ordered op left right) (apply_ordered again op left right m)
  unfolding apply_ordered
  apply_ordered-Meets m = after_cache (lookup (op, (left, right)) m.apply_cache) m refl

module _ (ordered : List Expression) where
  apply_fuel-Meets :
      (fuel : ℕ) (op : Operation) (left right : ℕ) (m : Manager)
      → left + right < fuel
      → IsSound ordered m
      → left < length m.nodes
      → right < length m.nodes
      → Meets ordered m (IsApplied ordered op left right) (apply_fuel fuel op left right m)
  unfolding apply_fuel
  apply_fuel-Meets zero op left right m f s hl hr = absurd (omega arith)
  apply_fuel-Meets (suc fuel) op left right m f s hl hr = elim (Bool-cases (ltb right left)) [
    | inl swapped ↦ rw swapped (
        Meets-weaken m (IsApplied ordered op right left) (IsApplied ordered op left right) _
          (λ x m' _ _ h. IsApplied-comm ordered m' op right left x h)
          (apply_ordered-Meets ordered (apply_fuel fuel op) op right left
            (λ i j m' h s' hi hj. apply_fuel-Meets fuel op i j m' (omega arith) s' hi hj) m
            (ground arith) s hr hl))
    | inr in_order ↦ rw in_order (
        apply_ordered-Meets ordered (apply_fuel fuel op) op left right
          (λ i j m' h s' hi hj. apply_fuel-Meets fuel op i j m' (omega arith) s' hi hj) m
          (ground arith) s hl hr)
  ]

  -- Of two nodes of a well-formed manager `apply` returns a node whose value is the conjunction
  -- (or disjunction) of theirs under every assignment, or a resource limit is exceeded; the
  -- manager stays well formed either way.
  pub apply-Meets :
      (op : Operation) (left right : ℕ) (m : Manager)
      → IsSound ordered m
      → left < length m.nodes
      → right < length m.nodes
      → Meets ordered m (IsApplied ordered op left right) (apply op left right m)
  unfolding apply
  apply-Meets op left right m s hl hr =
      apply_fuel-Meets (suc (left + right)) op left right m (omega arith) s hl hr

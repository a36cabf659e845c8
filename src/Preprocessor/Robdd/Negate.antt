-- ===== src/Preprocessor/Robdd/Negate.antt =====
-- `negate` returns a node for the complement, and its recursion is no deeper than the node's
-- number.
use cgull.Prelude.{
  ℕ, zero, suc, ◌≤◌, ◌<◌, List, ◌∷◌, Option, none, some, ◌≡◌, refl, ◌∙◌, inl, inr, arith, length,
  get_elem?, get_elem?-lt, lookup, lookup-cons, lookup-cons_none, nat_eq,
}
use cgull.Preprocessor.Exec.{pure, update, ◌>>=◌, ◌>>◌, or_else}
use cgull.Preprocessor.Expression.{Expression}
use cgull.Preprocessor.Robdd.{Node, Manager, M, consume, item, make_node, negate_fuel, negate}
use cgull.Preprocessor.Robdd.Values.{level-node}
use cgull.Preprocessor.Robdd.Invariant.{
  Grows-refl, Negates, Negates-Grows, IsSound, Meets, Meets-bind, Meets-ok,
}
use cgull.Preprocessor.Robdd.Nodes.{IsReady, Chooses, consume-Meets, item-Meets, make_node-Meets}

abbrev pub IsNegation : List Expression → ℕ → ℕ → Manager → Type 0
IsNegation ordered n r m = Negates (length ordered) m.nodes n r

-- `negate` of a node that is not in the cache, with the recursive calls as an argument.
abbrev body : (ℕ → M ℕ) → ℕ → M ℕ
body again n = do
  consume
  k ← item n
  low ← again k.low
  high ← again k.high
  result ← make_node k.atom_index low high
  update (λ m. record m { not_cache = (n, result) ∷ m.not_cache })
  pure result

module _ {ordered : List Expression} where
  -- A right entry in the cache.
  IsSound-not :
      (m : Manager) (n r : ℕ)
      → IsSound ordered m
      → Negates (length ordered) m.nodes n r
      → IsSound ordered (record m { not_cache = (n, r) ∷ m.not_cache })
  IsSound-not m n r s h = record {
    same_atoms = s.same_atoms;
    table = s.table;
    nots = λ j x e. elim (lookup-cons j n r m.not_cache e) [
      | inl new ↦ rw (← new.0, ← new.1) h
      | inr old ↦ s.nots j x old.1
    ];
    applies = s.applies;
    terminals_negated = λ j e. s.terminals_negated j (lookup-cons_none j n r m.not_cache e);
    terminals_read = s.terminals_read;
    builds = s.builds;
    reads = s.reads;
  }

  -- The complement of a choice.
  of_children :
      (m : Manager) (n : ℕ) (k : Node) (low high r : ℕ)
      → IsSound ordered m
      → get_elem? m.nodes n ≡ some (some k)
      → IsNegation ordered k.low low m
      → IsNegation ordered k.high high m
      → Chooses (length ordered) m.nodes k.atom_index low high r
      → IsNegation ordered n r m
  of_children m n k low high r s e l h c =
      let node = s.table.node n k e in
      record {
        arg_lt = get_elem?-lt m.nodes n e;
        lt = c.lt;
        meaning = λ a. c.meaning a ∙ rw (l.meaning a, h.meaning a, node.branches a) (ground arith);
        above = omega (arith, c.above, level-node (length ordered) m.nodes n k e);
      }

  IsReady-children :
      (m : Manager) (n : ℕ) (k : Node) (low high : ℕ)
      → IsSound ordered m
      → get_elem? m.nodes n ≡ some (some k)
      → IsNegation ordered k.low low m
      → IsNegation ordered k.high high m
      → IsReady (length ordered) m.nodes k.atom_index low high
  IsReady-children m n k low high s e l h =
      let node = s.table.node n k e in
      record {
        atom_lt = node.atom_lt;
        low_lt = l.lt;
        high_lt = h.lt;
        low_level = omega (arith, node.low_level, l.above);
        high_level = omega (arith, node.high_level, h.above);
      }

  module _ (again : ℕ → M ℕ) (n : ℕ)
      (correct : (i : ℕ) (m : Manager)
        → i < n
        → IsSound ordered m
        → i < length m.nodes
        → Meets ordered m (IsNegation ordered i) (again i m)) where
    body-Meets :
        (m : Manager)
        → IsSound ordered m
        → n < length m.nodes
        → 2 ≤ n
        → Meets ordered m (IsNegation ordered n) (body again n m)
    body-Meets m s h two =
        Meets-bind m (λ _ m'. m'.interned ≡ m.interned) (IsNegation ordered n) consume _
          (consume-Meets m s)
          λ _ m1 s1 g1 _.
            Meets-bind m1 (λ k m'. get_elem? m'.nodes n ≡ some (some k)) (IsNegation ordered n)
              (item n) _ (item-Meets m1 n s1 (omega (arith, g1.longer)) two)
              λ k m2 s2 g2 e2.
                let node = s2.table.node n k e2 in
                Meets-bind m2 (IsNegation ordered k.low) (IsNegation ordered n) (again k.low) _
                  (correct k.low m2 (node.low_lt) s2
                    (omega (arith, node.low_lt, g1.longer, g2.longer)))
                  λ low m3 s3 g3 l3.
                    Meets-bind m3 (IsNegation ordered k.high) (IsNegation ordered n) (again k.high)
                      _
                      (correct k.high m3 (node.high_lt) s3
                        (omega (arith, node.high_lt, g1.longer, g2.longer, g3.longer)))
                      λ high m4 s4 g4 h4.
                        let n4 =
                          g4.kept n (omega (arith, g1.longer, g2.longer, g3.longer))
                          ∙ g3.kept n (omega (arith, g1.longer, g2.longer))
                          ∙ e2 in
                        let l4 = Negates-Grows g4 l3 in
                        Meets-bind m4
                          (λ r m'. Chooses (length ordered) m'.nodes k.atom_index low high r)
                          (IsNegation ordered n) (make_node k.atom_index low high) _
                          (make_node-Meets m4 k.atom_index low high s4
                            (IsReady-children m4 n k low high s4 n4 l4 h4))
                          λ r m5 s5 g5 c5.
                            let n5 = g5.kept n (get_elem?-lt m4.nodes n n4) ∙ n4 in
                            let result =
                              of_children m5 n k low high r s5 n5 (Negates-Grows g5 l4)
                                (Negates-Grows g5 h4) c5 in
                            record {
                              sound = IsSound-not m5 n r s5 result;
                              grows = Grows-refl m5.nodes;
                              result = result;
                            }

  cached_or_body :
      (again : ℕ → M ℕ) (n : ℕ) (m : Manager) (o : Option ℕ)
      → lookup n m.not_cache ≡ o
      → IsSound ordered m
      → (2 ≤ n → Meets ordered m (IsNegation ordered n) (body again n m))
      → Meets ordered m (IsNegation ordered n) (or_else o (body again n) m)
  cached_or_body again n m (some r) e s h = Meets-ok m (IsNegation ordered n) r s (s.nots n r e)
  cached_or_body again n m none e s h = h (s.terminals_negated n e)

  pub negate_fuel-Meets :
      (fuel n : ℕ) (m : Manager)
      → n < fuel
      → IsSound ordered m
      → n < length m.nodes
      → Meets ordered m (IsNegation ordered n) (negate_fuel fuel n m)
  unfolding negate_fuel
  negate_fuel-Meets zero n m f s h = absurd (omega arith)
  negate_fuel-Meets (suc fuel) n m f s h =
      cached_or_body (negate_fuel fuel) n m (lookup n m.not_cache) refl s (
        body-Meets (negate_fuel fuel) n
          (λ i m' l s' h'. negate_fuel-Meets fuel i m' (omega arith) s' h') m s h)

  -- Of a node of a well-formed manager `negate` returns a node with the opposite value under
  -- every assignment, or the resource limit is exceeded; the manager stays well formed either way.
  pub negate-Meets :
      (n : ℕ) (m : Manager)
      → IsSound ordered m
      → n < length m.nodes
      → Meets ordered m (IsNegation ordered n) (negate n m)
  unfolding negate
  negate-Meets n m s h = negate_fuel-Meets (suc n) n m (omega arith) s h

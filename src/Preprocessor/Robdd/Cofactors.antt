-- ===== src/Preprocessor/Robdd/Cofactors.antt =====
-- The steps of `apply`: its shortcuts, the cofactors of its arguments by the first atom, and the
-- node that joins the results for them.
use cgull.Prelude.{
  ℕ, ◌+◌, ◌≤◌, ◌<◌, Bool, true, false, List, ◌∷◌, Option, none, some, ◌≡◌, ◌≢◌, refl, ap, ◌∙◌, ◌⊎◌,
  inl, inr, arith, if◌then◌else◌, length, get_elem?, get_elem?-lt, lookup-cons, nat_eq, pair_eq,
  eqb, eqb_iff, Bool-cases,
}
use cgull.Preprocessor.Expression.{Expression}
use cgull.Preprocessor.Robdd.{
  Node, Manager, Operation, and, or, operation_eq, shortcut, low_by, high_by,
}
use cgull.Preprocessor.Robdd.Values.{value, level, level-node}
use cgull.Preprocessor.Robdd.Invariant.{operate, Grows, IsNode, Applies, IsSound}
use cgull.Preprocessor.Robdd.Nodes.{IsReady, Chooses}

abbrev pub IsApplied : List Expression → Operation → ℕ → ℕ → ℕ → Manager → Type 0
IsApplied ordered op left right r m = Applies (length ordered) m.nodes op left right r

module _ (v n : ℕ) (k : Node) (count : ℕ) (ns : List (Option Node)) where
  -- The cofactors of node `n` by atom `v`, which stands at or above the atom of the node.
  pub record Splits : Type 0 where
    low_lt : low_by v n k < length ns
    high_lt : high_by v n k < length ns
    low_le : low_by v n k ≤ n
    high_le : high_by v n k ≤ n
    strictly : k.atom_index ≡ v → (low_by v n k < n) × (high_by v n k < n)
    low_level : v < level count ns (low_by v n k)
    high_level : v < level count ns (high_by v n k)
    meaning :
        (a : ℕ → Bool)
        → value a ns n ≡ (if a v then value a ns (high_by v n k) else value a ns (low_by v n k))

  pub splits : get_elem? ns n ≡ some (some k) → IsNode count ns n k → v ≤ k.atom_index → Splits
  splits e h le = elim (Bool-cases (eqb k.atom_index v)) [
    | inl here ↦
        let q = (eqb_iff k.atom_index v).0 here in
        let lt = get_elem?-lt ns n e in
        record {
          low_lt = rw here (omega (arith, h.low_lt));
          high_lt = rw here (omega (arith, h.high_lt));
          low_le = rw here (omega (arith, h.low_lt));
          high_le = rw here (omega (arith, h.high_lt));
          strictly = λ _. (rw here (h.low_lt), rw here (h.high_lt));
          low_level = rw here (omega (arith, h.low_level));
          high_level = rw here (omega (arith, h.high_level));
          meaning = λ a.
              rw here
                (h.branches a ∙ ap (λ t. if a t then value a ns k.high else value a ns k.low) q);
        }
    | inr other ↦
        let lt = get_elem?-lt ns n e in
        let ne : k.atom_index ≢ v = λ q. cc ((eqb_iff k.atom_index v).1 q, other) in
        record {
          low_lt = rw other lt;
          high_lt = rw other lt;
          low_le = rw other (omega arith);
          high_le = rw other (omega arith);
          strictly = λ q. absurd (ne q);
          low_level = rw other (omega (arith, level-node count ns n k e));
          high_level = rw other (omega (arith, level-node count ns n k e));
          meaning = λ a. rw other (ground arith);
        }
  ]

-- A shortcut returns one of the arguments.
shortcut_arg : (op : Operation) (l r x : ℕ) → shortcut op l r ≡ some x → (x ≡ l) ⊎ (x ≡ r)
shortcut_arg and l r x h = ground arith
shortcut_arg or l r x h = ground arith

shortcut_meaning :
    (f : ℕ → Bool) (op : Operation) (l r x : ℕ)
    → f 0 ≡ false
    → f 1 ≡ true
    → shortcut op l r ≡ some x
    → f x ≡ operate op (f l) (f r)
shortcut_meaning f and l r x z o h = ground arith
shortcut_meaning f or l r x z o h = ground arith

pub shortcut-none : (op : Operation) (l r : ℕ) → l ≤ r → shortcut op l r ≡ none → (2 ≤ l) × (2 ≤ r)
shortcut-none and l r le h = (ground arith, ground arith)
shortcut-none or l r le h = (ground arith, ground arith)

operate-if :
    (op : Operation) (b x y x' y' : Bool)
    → (if b then operate op x x' else operate op y y')
      ≡ operate op (if b then x else y) (if b then x' else y')
operate-if op true x y x' y' = refl
operate-if op false x y x' y' = refl

operate_comm : (op : Operation) (b c : Bool) → operate op b c ≡ operate op c b
operate_comm and b c = ground arith
operate_comm or b c = ground arith

module _ (ordered : List Expression) where
  pub IsSound-apply :
      (m : Manager) (op : Operation) (l r x : ℕ)
      → IsSound ordered m
      → IsApplied ordered op l r x m
      → IsSound ordered (record m { apply_cache = ((op, (l, r)), x) ∷ m.apply_cache })
  IsSound-apply m op l r x s h = record {
    same_atoms = s.same_atoms;
    table = s.table;
    nots = s.nots;
    terminals_negated = s.terminals_negated;
    terminals_read = s.terminals_read;
    applies = λ op' l' r' x' e. elim (lookup-cons (op', (l', r')) (op, (l, r)) x m.apply_cache e) [
      | inl new ↦ same_key op' l' r' x' new.0 new.1
      | inr old ↦ s.applies op' l' r' x' old.1
    ];
    builds = s.builds;
    reads = s.reads;
  }
    where
      same_key :
          (op' : Operation) (l' r' x' : ℕ)
          → ◌≡◌ {A = Operation × (ℕ × ℕ)} (op, (l, r)) (op', (l', r'))
          → x ≡ x'
          → IsApplied ordered op' l' r' x' m
      same_key op' l' r' x' p q =
          rw
            (
              ← ap (λ (t : Operation × (ℕ × ℕ)). t.0) p,
              ← ap (λ (t : Operation × (ℕ × ℕ)). t.1.0) p,
              ← ap (λ (t : Operation × (ℕ × ℕ)). t.1.1) p,
              ← q,
            )
            h

  pub shortcut-IsApplied :
      (m : Manager) (op : Operation) (l r x : ℕ)
      → IsSound ordered m
      → l < length m.nodes
      → r < length m.nodes
      → shortcut op l r ≡ some x
      → IsApplied ordered op l r x m
  shortcut-IsApplied m op l r x s hl hr e = record {
    left_lt = hl;
    right_lt = hr;
    lt = elim (shortcut_arg op l r x e) [ inl q ↦ rw q hl | inr q ↦ rw q hr ];
    meaning = λ a.
        shortcut_meaning (value a m.nodes) op l r x (s.table.zero_value a) (s.table.one_value a) e;
    above = elim (shortcut_arg op l r x e) [
      | inl q ↦ rw q (omega arith)
      | inr q ↦ rw q (omega arith)
    ];
  }

  pub IsApplied-comm :
      (m : Manager) (op : Operation) (l r x : ℕ)
      → IsApplied ordered op l r x m
      → IsApplied ordered op r l x m
  IsApplied-comm m op l r x h = record {
    left_lt = h.right_lt;
    right_lt = h.left_lt;
    lt = h.lt;
    meaning = λ a. h.meaning a ∙ operate_comm op (value a m.nodes l) (value a m.nodes r);
    above = omega (arith, h.above);
  }

  module _ (op : Operation) (left right v : ℕ) (l r : Node) (le_l : v ≤ l.atom_index)
      (le_r : v ≤ r.atom_index) (least : (l.atom_index ≡ v) ⊎ (r.atom_index ≡ v)) where
    -- Both arguments are the nodes that `item` read.
    pub record Both (m : Manager) : Type 0 where
      pub sound : IsSound ordered m
      pub at_left : get_elem? m.nodes left ≡ some (some l)
      pub at_right : get_elem? m.nodes right ≡ some (some r)

    left_splits : (m : Manager) → Both m → Splits v left l (length ordered) m.nodes
    left_splits m b =
        splits v left l (length ordered) m.nodes b.at_left (b.sound.table.node left l b.at_left)
          le_l

    right_splits : (m : Manager) → Both m → Splits v right r (length ordered) m.nodes
    right_splits m b =
        splits v right r (length ordered) m.nodes b.at_right (b.sound.table.node right r b.at_right)
          le_r

    pub Both-Grows :
        (m m' : Manager) → Both m → IsSound ordered m' → Grows m.nodes m'.nodes → Both m'
    Both-Grows m m' b s g = record {
      sound = s;
      at_left = g.kept left (get_elem?-lt m.nodes left b.at_left) ∙ b.at_left;
      at_right = g.kept right (get_elem?-lt m.nodes right b.at_right) ∙ b.at_right;
    }

    falls :
        (m : Manager)
        → Both m
        → (low_by v left l + low_by v right r < left + right)
          × (high_by v left l + high_by v right r < left + right)
    falls m b =
        let sl = left_splits m b in
        let sr = right_splits m b in
        elim least [
          | inl q ↦ (
            omega (arith, (sl.strictly q).0, sr.low_le),
            omega (arith, (sl.strictly q).1, sr.high_le),
          )
          | inr q ↦ (
            omega (arith, (sr.strictly q).0, sl.low_le),
            omega (arith, (sr.strictly q).1, sl.high_le),
          )
        ]

    -- The recursive calls are on smaller, valid nodes.
    pub record Descends (m : Manager) : Type 0 where
      pub low_falls : low_by v left l + low_by v right r < left + right
      pub high_falls : high_by v left l + high_by v right r < left + right
      pub left_low : low_by v left l < length m.nodes
      pub right_low : low_by v right r < length m.nodes
      pub left_high : high_by v left l < length m.nodes
      pub right_high : high_by v right r < length m.nodes

    pub descends : (m : Manager) → Both m → Descends m
    descends m b = record {
      low_falls = (falls m b).0;
      high_falls = (falls m b).1;
      left_low = (left_splits m b).low_lt;
      right_low = (right_splits m b).low_lt;
      left_high = (left_splits m b).high_lt;
      right_high = (right_splits m b).high_lt;
    }

    pub IsReady-children :
        (m : Manager) (low high : ℕ)
        → Both m
        → IsApplied ordered op (low_by v left l) (low_by v right r) low m
        → IsApplied ordered op (high_by v left l) (high_by v right r) high m
        → IsReady (length ordered) m.nodes v low high
    IsReady-children m low high b hl hh =
        let sl = left_splits m b in
        let sr = right_splits m b in
        record {
          atom_lt = omega (arith, (b.sound.table.node left l b.at_left).atom_lt);
          low_lt = hl.lt;
          high_lt = hh.lt;
          low_level = omega (arith, sl.low_level, sr.low_level, hl.above);
          high_level = omega (arith, sl.high_level, sr.high_level, hh.above);
        }

    pub of_children :
        (m : Manager) (low high x : ℕ)
        → Both m
        → IsApplied ordered op (low_by v left l) (low_by v right r) low m
        → IsApplied ordered op (high_by v left l) (high_by v right r) high m
        → Chooses (length ordered) m.nodes v low high x
        → IsApplied ordered op left right x m
    of_children m low high x b hl hh c =
        let sl = left_splits m b in
        let sr = right_splits m b in
        record {
          left_lt = get_elem?-lt m.nodes left b.at_left;
          right_lt = get_elem?-lt m.nodes right b.at_right;
          lt = c.lt;
          meaning = λ a.
              c.meaning a
              ∙ rw (hl.meaning a, hh.meaning a, sl.meaning a, sr.meaning a)
                  (operate-if op (a v) _ _ _ _);
          above = omega (
            arith,
            least,
            c.above,
            level-node (length ordered) m.nodes left l b.at_left,
            level-node (length ordered) m.nodes right r b.at_right,
          );
        }

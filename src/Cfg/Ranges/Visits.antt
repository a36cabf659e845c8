-- ===== src/Cfg/Ranges/Visits.antt =====
-- Every visit of the worklist of cgull/cfg/integer_ranges.py keeps what the finished analysis rests
-- on: the incoming state of each successor of a visited node that is not queued holds wherever the
-- state along the edge does. Every queued node has an incoming state.
use cgull.Prelude.{
  ℕ, suc, Bool, true, false, List, [], ◌∷◌, Option, none, some, ◌≡◌, ◌≢◌, refl, sym, ◌∙◌, subst,
  inl, inr, arith, Bool-cases, Text, text_eq, nat_eq, eqb_iff, beq_refl, ◌==◌, lookup,
  lookup-cons_self, lookup-cons_ne, elem, elem-append, &&_iff,
}
use cgull.Cfg.Ranges.{Context}
use cgull.Cfg.Ranges.Analysis.{
  Graph, includes, same_state, merged_state, Work, enqueue, is_unchanged_from, arrive, along,
  arrive_all, visit_from, visit,
}
use cgull.Cfg.Ranges.Compared.{Held}
use cgull.Cfg.Ranges.Expressions.{State}
use cgull.Cfg.Ranges.Meaning.{Values}
use cgull.Cfg.Ranges.Stable.{includes-Held, merged_state-Held}
use cgull.Cfg.Ranges.Transfer.{transfer}
use cgull.Cfg.Syntax.{Node}

elem-enqueue :
    (m s : ℕ) (queue : List ℕ) → elem m (enqueue s queue) ≡ false → (elem m queue ≡ false) × (s ≢ m)
elem-enqueue m s queue h = elim (Bool-cases (elem s queue)) [
  | inl in_ ↦
      let h1 = rw in_ at h in
      (h1, λ q. absurd (let i = subst (λ z. elem z queue ≡ true) q in_ in cc (i, h1)))
  | inr out_ ↦
      let h1 = rw out_ at h in let h2 = sym (elem-append m queue (s ∷ [])) ∙ h1 in ground arith
]

-- Every queued node has an incoming state.
abbrev pub Ready : Work → Type 0
Ready w = (n : ℕ) → elem n w.queue ≡ true → (s : State) × (lookup n w.incoming ≡ some s)

elem-enqueued :
    (m s : ℕ) (queue : List ℕ)
    → (s == m) ≡ false
    → elem m (enqueue s queue) ≡ true
    → elem m queue ≡ true
elem-enqueued m s queue d h = elim (Bool-cases (elem m queue)) [
  | inl in_ ↦ in_
  | inr out_ ↦ elim (Bool-cases (elem s queue)) [
    | inl known ↦ let h1 = rw known at h in h1
    | inr new ↦
        let h1 = rw new at h in let h2 = sym (elem-append m queue (s ∷ [])) ∙ h1 in ground arith
  ]
]

module _ (c : Context) where
  -- The second state is true wherever the first is.
  abbrev Implies : State → State → Type 0
  Implies s t = (values : Values) → Held c values s → Held c values t

  -- The incoming states only lose facts.
  abbrev Grows : Work → Work → Type 0
  Grows v w =
      (s : ℕ) (t : State)
      → lookup s v.incoming ≡ some t
      → (u : State) × (lookup s w.incoming ≡ some u) × Implies t u

  abbrev Covered : Work → Option State → ℕ → Type 0
  Covered w none s = Unit
  Covered w (some e) s = (t : State) × (lookup s w.incoming ≡ some t) × Implies e t

  -- A node that is not queued has the incoming state that it had.
  abbrev Keeps : Work → Work → Type 0
  Keeps v w =
      (m : ℕ)
      → elem m w.queue ≡ false
      → (elem m v.queue ≡ false) × (lookup m w.incoming ≡ lookup m v.incoming)

  record Arrives (v w : Work) : Type 0 where
    pub grows : Grows v w
    pub keeps : Keeps v w
    pub processed : w.processed ≡ v.processed

  Arrives-refl : (w : Work) → Arrives w w
  Arrives-refl w = record {
    grows = λ s t h. (t, h, λ values k. k);
    keeps = λ m h. (h, refl);
    processed = refl;
  }

  Arrives-trans : (u v w : Work) → Arrives u v → Arrives v w → Arrives u w
  Arrives-trans u v w a b = record {
    grows = λ s t h.
        (let first = a.grows s t h in
          let second = b.grows s first.0 first.1 in
          (second.0, second.1, λ values k. second.2 values (first.2 values k)));
    keeps = λ m h.
        (let last = b.keeps m h in let first = a.keeps m last.0 in (first.0, last.1 ∙ first.1));
    processed = b.processed ∙ a.processed;
  }

  Covered-Grows :
      (v w : Work) (o : Option State) (s : ℕ) → Grows v w → Covered v o s → Covered w o s
  Covered-Grows v w none s g h = tt
  Covered-Grows v w (some e) s g h =
      let next = g s h.0 h.1 in (next.0, next.1, λ values k. next.2 values (h.2 values k))

  unchanged-Covered :
      (s : ℕ) (e : State) (w : Work) (o : Option State) (visited : Bool)
      → lookup s w.incoming ≡ o
      → is_unchanged_from o (merged_state e o visited) ≡ true
      → Covered w (some e) s
  unfolding is_unchanged_from same_state
  unchanged-Covered s e w none visited q h = absurd (cc h)
  unchanged-Covered s e w (some p) visited q h =
      let both =
        (&&_iff (includes p (merged_state e (some p) visited))
            (includes (merged_state e (some p) visited) p)).0
          h in
      (
        p,
        q,
        λ values k.
            includes-Held c values p (merged_state e (some p) visited) both.0
              ((merged_state-Held c values e (some p) visited).0 k),
      )

  abbrev merged_at : ℕ → State → Work → State
  merged_at s e w = merged_state e (lookup s w.incoming) (elem s w.processed)

  abbrev arrived : ℕ → State → Work → Work
  arrived s e w = record {
    incoming = (s, merged_at s e w) ∷ w.incoming;
    facts_before = w.facts_before;
    processed = w.processed;
    queue = enqueue s w.queue;
  }

  arrived-Grows : (s : ℕ) (e : State) (w : Work) → Grows w (arrived s e w)
  arrived-Grows s e w m t h = elim (Bool-cases (s == m)) [
    | inl same ↦
        let q = (eqb_iff s m).0 same in
        (
          merged_at s e w,
          subst (λ z. lookup z ((s, merged_at s e w) ∷ w.incoming) ≡ some (merged_at s e w)) q
              (lookup-cons_self s (merged_at s e w) w.incoming),
          λ values k.
              (merged_state-Held c values e (lookup s w.incoming) (elem s w.processed)).1 t
                (subst (λ z. lookup z w.incoming ≡ some t) (sym q) h) k,
        )
    | inr differs ↦ (t, rw differs h, λ values k. k)
  ]

  arrive-Arrives :
      (s : ℕ) (o : Option State) (w : Work) → Arrives w (arrive s o w) × Covered (arrive s o w) o s
  unfolding arrive
  arrive-Arrives s none w = (Arrives-refl w, tt)
  arrive-Arrives s (some e) w =
      elim (Bool-cases (is_unchanged_from (lookup s w.incoming) (merged_at s e w))) [
        | inl same ↦
            rw (same, arrive)
              (
                Arrives-refl w,
                unchanged-Covered s e w (lookup s w.incoming) (elem s w.processed) refl same,
              )
        | inr moved ↦
            rw (moved, arrive)
              (
                record {
                  grows = arrived-Grows s e w;
                  keeps = λ m h.
                      (let apart = elem-enqueue m s w.queue h in
                        (apart.0, lookup-cons_ne m s (merged_at s e w) w.incoming apart.1));
                  processed = refl;
                },
                (
                  merged_at s e w,
                  lookup-cons_self s (merged_at s e w) w.incoming,
                  λ values k.
                      (merged_state-Held c values e (lookup s w.incoming) (elem s w.processed)).0 k,
                ),
              )
      ]

  arrive-Ready : (s : ℕ) (o : Option State) (w : Work) → Ready w → Ready (arrive s o w)
  unfolding arrive
  arrive-Ready s none w h = h
  arrive-Ready s (some e) w h =
      elim (Bool-cases (is_unchanged_from (lookup s w.incoming) (merged_at s e w))) [
        | inl same ↦ rw (same, arrive) h
        | inr moved ↦
            rw (moved, arrive)
              (λ m q. elim (Bool-cases (s == m)) [
                | inl here ↦ (merged_at s e w, rw here refl)
                | inr differs ↦
                    let old = h m (elem-enqueued m s w.queue differs q) in (old.0, rw differs old.1)
              ])
      ]

  arrive_all-Ready :
      (unstable : List Text) (condition : Option Node) (outgoing : State) (index : ℕ) (ss : List ℕ)
      (w : Work)
      → Ready w
      → Ready (arrive_all c unstable condition outgoing index ss w)
  unfolding arrive_all
  arrive_all-Ready unstable condition outgoing index [] w h = h
  arrive_all-Ready unstable condition outgoing index (s ∷ rest) w h =
      let o = along c unstable condition outgoing index in
      arrive_all-Ready unstable condition outgoing (suc index) rest (arrive s o w)
        (arrive-Ready s o w h)

  module _ (unstable : List Text) (condition : Option Node) (outgoing : State) where
    -- The successors' incoming states hold wherever the states along the edges do.
    unfoldable pub Edges : Work → ℕ → List ℕ → Type 0
    Edges w index [] = Unit
    Edges w index (s ∷ rest) =
        Covered w (along c unstable condition outgoing index) s × Edges w (suc index) rest

    Edges-Grows :
        (v w : Work) (index : ℕ) (ss : List ℕ) → Grows v w → Edges v index ss → Edges w index ss
    unfolding Edges
    Edges-Grows v w index [] g h = tt
    Edges-Grows v w index (s ∷ rest) g h = (
      Covered-Grows v w (along c unstable condition outgoing index) s g h.0,
      Edges-Grows v w (suc index) rest g h.1,
    )

    arrive_all-Edges :
        (index : ℕ) (ss : List ℕ) (w : Work)
        → Arrives w (arrive_all c unstable condition outgoing index ss w)
          × Edges (arrive_all c unstable condition outgoing index ss w) index ss
    unfolding arrive_all Edges
    arrive_all-Edges index [] w = (Arrives-refl w, tt)
    arrive_all-Edges index (s ∷ rest) w =
        let o = along c unstable condition outgoing index in
        let first = arrive-Arrives s o w in
        let later = arrive_all-Edges (suc index) rest (arrive s o w) in
        let last = arrive_all c unstable condition outgoing (suc index) rest (arrive s o w) in
        (
          Arrives-trans w (arrive s o w) last first.0 later.0,
          (Covered-Grows (arrive s o w) last o s later.0.grows first.1, later.1),
        )

  module _ (exposed unstable : List Text) (graph : Graph) where
    abbrev out_of : ℕ → State → State
    out_of n incoming = transfer c exposed unstable (graph n).event incoming

    -- The node has an incoming state, and what flows out of the node with it is covered by its
    -- successors'.
    unfoldable pub Settled : Work → ℕ → Type 0
    Settled w n =
        (s : State) × (lookup n w.incoming ≡ some s)
        × Edges unstable (graph n).condition (out_of n s) w 0 (graph n).successors

    unfoldable pub Stable : Work → Type 0
    Stable w = (n : ℕ) → elem n w.processed ≡ true → elem n w.queue ≡ false → Settled w n

    -- The worklist when the node's visit begins.
    abbrev begun : ℕ → List ℕ → State → Work → Work
    begun n rest s w = record {
      incoming = w.incoming;
      facts_before = (n, s) ∷ w.facts_before;
      processed = n ∷ w.processed;
      queue = rest;
    }

    abbrev left : ℕ → List ℕ → State → Work → Work
    left n rest s w =
        arrive_all c unstable (graph n).condition (out_of n s) 0 (graph n).successors
          (begun n rest s w)

    left-Stable :
        (n : ℕ) (rest : List ℕ) (s : State) (w : Work)
        → w.queue ≡ n ∷ rest
        → lookup n w.incoming ≡ some s
        → Stable w
        → Stable (left n rest s w)
    unfolding Stable Settled
    left-Stable n rest s w q k h m p f =
        let flown =
          arrive_all-Edges unstable (graph n).condition (out_of n s) 0 (graph n).successors
            (begun n rest s w) in
        let kept = flown.0.keeps m f in
        let seen = subst (λ ns. elem m ns ≡ true) flown.0.processed p in
        elim (Bool-cases (m == n)) [
          | inl same ↦ subst (Settled (left n rest s w)) (sym ((eqb_iff m n).0 same)) (
            s,
            subst (λ z. lookup z (left n rest s w).incoming ≡ lookup z w.incoming)
                  ((eqb_iff m n).0 same) kept.1
                ∙ k,
            flown.1,
          )
          | inr differs ↦
              let before = h m (let seen1 = rw differs at seen in seen1) (rw (q, differs) kept.0) in
              (
                before.0,
                kept.1 ∙ before.1,
                Edges-Grows unstable (graph m).condition (out_of m before.0) w (left n rest s w) 0
                    (graph m).successors flown.0.grows before.2,
              )
        ]

    -- A visit of the node at the front of the queue returns, with no `KeyError`, where every queued
    -- node has an incoming state, and every node queued afterwards has one. It keeps the worklist
    -- stable, where it was: every node that was visited and is not queued has an incoming state, and
    -- the incoming state of each successor is true of all values of the variables of which the state
    -- along the edge is true, unless the edge is skipped.
    pub visit-Stable :
        (n : ℕ) (rest : List ℕ) (w : Work)
        → w.queue ≡ n ∷ rest
        → Ready w
        → Stable w
        → (after : Work) × (visit c exposed unstable graph n rest w ≡ some after)
          × Stable after
          × Ready after
    unfolding visit visit_from
    visit-Stable n rest w q r h =
        let (s, k) = r n (rw (q, beq_refl n) refl) in
        (
          left n rest s w,
          rw (k, visit) refl,
          left-Stable n rest s w q k h,
          arrive_all-Ready unstable (graph n).condition (out_of n s) 0 (graph n).successors
              (begun n rest s w)
              (λ m e. r m (elim (Bool-cases (m == n)) [
                | inl same ↦ rw (q, same) refl
                | inr differs ↦ rw (q, differs) e
              ])),
        )

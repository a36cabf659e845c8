-- ===== src/Cfg/Ranges/Steps.antt =====
-- What an event does to the variables, apart from the code, and `_transfer` of
-- cgull/cfg/integer_ranges.py.
use cgull.Prelude.{
  ℤ, pos, negsuc, ◌+ℤ◌, ◌-ℤ◌, int_laws, Bool, ◌||◌, ◌∷◌, ap, ◌∙◌, true, false, List, [], Option,
  none, some, ◌≡◌, ◌≢◌, ◌⊎◌, refl, sym, subst, inl, inr, arith, Bool-cases, Text, text_eq, ◌==◌,
  beq_refl, elem, lookup, All, All-keep, All-imp,
}
use cgull.Cfg.Ranges.{IntegerRange, between, Context, portable_char_range}
use cgull.Cfg.Ranges.Bounds.{AtLeast, AtMost, In, fits_within-In}
use cgull.Cfg.Ranges.Compared.{Held}
use cgull.Cfg.Ranges.Conditions.{resolves_to_char}
use cgull.Cfg.Ranges.Expressions.{State, put, expr_range}
use cgull.Cfg.Ranges.Meaning.{Values, Denotes, IsTrue}
use cgull.Cfg.Ranges.Types.{portable_char_range-Holds}
use cgull.Cfg.Ranges.Sound.{expr_range-In}
use cgull.Cfg.Ranges.Transfer.{
  writes_through, transfer_statement, Event, remove, store, initial_fact, step_ends, stepped,
  step_of, step_fact, declared_fact, written_fact, fits_portable, settle_char, settle, write,
  writes_exposed, transfer,
}
use cgull.Cfg.Syntax.{
  increment, post_increment, decrement, post_decrement, unary_op, Node, id, assign, Statement,
  decl_list, decl, assignment, expression, no_statement,
}
use cgull.Cfg.Ranges.Events.{
  listed, targets, stores_through_pointer, is_followed, Takes, Initialised, Declared, Writes,
  Happens,
}

one_less : (x : ℤ) → x -ℤ pos 1 ≡ x +ℤ negsuc 0
one_less x = omega int_laws

abbrev written_name : Option (Text × Option IntegerRange) → Option Text
written_name none = none
written_name (some (n, fact)) = some n

targets-step_fact :
    (c : Context) (s : State) (e : Node)
    → targets (expression e) ≡ listed (written_name (step_fact c s (step_of e)))
targets-step_fact c s (unary_op increment (id n)) = refl
targets-step_fact c s (unary_op post_increment (id n)) = refl
targets-step_fact c s (unary_op decrement (id n)) = refl
targets-step_fact c s (unary_op post_decrement (id n)) = refl
targets-step_fact c s (unary_op op (id n)) = refl
targets-step_fact c s e = refl

targets-declared_fact :
    (c : Context) (s : State) (o : Option Text) (init : Option Node)
    → listed o ≡ listed (written_name (declared_fact c s o init))
targets-declared_fact c s none init = refl
targets-declared_fact c s (some n) init = refl

targets-written_fact :
    (c : Context) (s : State) (node : Statement)
    → is_followed node ≡ true
    → targets node ≡ listed (written_name (written_fact c s node))
targets-written_fact c s (decl d) h = targets-declared_fact c s d.name d.init
targets-written_fact c s (assignment op (id n) e) h = refl
targets-written_fact c s (assignment op e value) h = refl
targets-written_fact c s (expression e) h = targets-step_fact c s e
targets-written_fact c s (decl_list ds) h = absurd (cc h)
targets-written_fact c s no_statement h = refl

elem-listed : (o : Option Text) (n : Text) → o ≢ some n → elem n (listed o) ≡ false
elem-listed none n h = refl
elem-listed (some m) n h = elim (Bool-cases (elem n (m ∷ []))) [
  | inl same ↦ absurd (h (ap some (named m n same)))
  | inr differs ↦ differs
]
  where
    named : (m n : Text) → elem n (m ∷ []) ≡ true → m ≡ n
    named m n q = elim (Bool-cases (n == m)) [
      | inl same ↦ sym ((text_eq.beq_iff n m).0 same)
      | inr differs ↦ absurd (let q1 = rw differs at q in cc q1)
    ]

stores_through_lem :
    (node : Statement) → is_followed node ≡ true → stores_through_pointer node ≡ writes_through node
stores_through_lem (assignment op (id n) e) h = refl
stores_through_lem (assignment op e value) h = refl
stores_through_lem (expression (unary_op op e)) h = ground arith
stores_through_lem (expression e) h = refl
stores_through_lem (decl d) h = refl
stores_through_lem (decl_list ds) h = refl
stores_through_lem no_statement h = refl

module _ (c : Context) (before after : Values) where
  abbrev Stepped : Option (Text × ℤ) → Type 0
  Stepped none = Unit
  Stepped (some (n, delta)) = Takes c before after n (before.variables n +ℤ delta)

  Writes-Stepped : (e : Node) → Writes c before after (expression e) → Stepped (step_of e)
  unfolding Writes
  Writes-Stepped (unary_op increment (id n)) h = h
  Writes-Stepped (unary_op post_increment (id n)) h = h
  Writes-Stepped (unary_op decrement (id n)) h =
      subst (Takes c before after n) (one_less (before.variables n)) h
  Writes-Stepped (unary_op post_decrement (id n)) h =
      subst (Takes c before after n) (one_less (before.variables n)) h
  Writes-Stepped e h = tt

  -- A fact for the written variable holds the value that it takes.
  abbrev Fits : Text → Option IntegerRange → Type 0
  Fits n none = Unit
  Fits n (some r) = (v : ℤ) × In v r × Takes c before after n v

  Fits-In :
      (n : Text) (o : Option IntegerRange) (v : ℤ)
      → ((r : IntegerRange) → o ≡ some r → In v r)
      → Takes c before after n v
      → Fits n o
  Fits-In n none v h k = tt
  Fits-In n (some r) v h k = (v, h r refl, k)

  stepped-In :
      (o : Option IntegerRange) (x d : ℤ) (r : IntegerRange)
      → ((i : IntegerRange) → o ≡ some i → In x i)
      → stepped o d ≡ some r
      → In (x +ℤ d) r
  stepped-In none x d r h q = absurd (cc q)
  stepped-In (some i) x d r h q = ends i.lower i.upper (h i refl).0 (h i refl).1 q
    where
      ends : (l u : Option ℤ) → AtLeast l x → AtMost u x → step_ends l u d ≡ some r → In (x +ℤ d) r
      ends none u a b q = absurd (cc q)
      ends (some l) none a b q = absurd (cc q)
      ends (some l) (some u) a b q =
          let same : between (l +ℤ d) (u +ℤ d) ≡ r = cc q in
          subst (In (x +ℤ d)) same (omega int_laws, omega int_laws)

  abbrev FitsWritten : Option (Text × Option IntegerRange) → Type 0
  FitsWritten none = Unit
  FitsWritten (some (n, fact)) = Fits n fact

  initial_fact-Fits :
      (s : State) (n : Text) (o : Option Node)
      → IsTrue c before s
      → Initialised c before after n o
      → Fits n (initial_fact c s o)
  initial_fact-Fits s n none h k = tt
  initial_fact-Fits s n (some e) h (v, d, k) =
      Fits-In n (expr_range c s e) v (λ r. expr_range-In c before s e v r h d) k

  declared_fact-Fits :
      (s : State) (o : Option Text) (init : Option Node)
      → IsTrue c before s
      → Declared c before after o init
      → FitsWritten (declared_fact c s o init)
  declared_fact-Fits s none init h k = tt
  declared_fact-Fits s (some n) init h k = initial_fact-Fits s n init h k

  step_fact-Fits :
      (s : State) (o : Option (Text × ℤ))
      → IsTrue c before s
      → Stepped o
      → FitsWritten (step_fact c s o)
  unfolding Denotes
  step_fact-Fits s none h k = tt
  step_fact-Fits s (some (n, d)) h k =
      Fits-In n (stepped (expr_range c s (id n)) d) (before.variables n +ℤ d)
        (λ r.
          stepped-In (expr_range c s (id n)) (before.variables n) d r
            (λ i. expr_range-In c before s (id n) (before.variables n) i h refl))
        k

  written_fact-Fits :
      (s : State) (node : Statement)
      → IsTrue c before s
      → Writes c before after node
      → FitsWritten (written_fact c s node)
  unfolding Writes
  written_fact-Fits s (decl d) h k = declared_fact-Fits s d.name d.init h k
  written_fact-Fits s (assignment assign (id n) e) h k = initial_fact-Fits s n (some e) h k
  written_fact-Fits s (assignment op (id n) e) h k = tt
  written_fact-Fits s (assignment op target e) h k = tt
  written_fact-Fits s (expression e) h k = step_fact-Fits s (step_of e) h (Writes-Stepped e k)
  written_fact-Fits s (decl_list ds) h k = tt
  written_fact-Fits s no_statement h k = tt

  -- Entries for other names than the written one hold the variables' earlier values.
  abbrev Others : Text → Text × IntegerRange → Type 0
  Others n p = ((p.0 == n) ≡ false) × In (before.variables p.0) p.1

  abbrev Written : Text → Text × IntegerRange → Type 0
  Written n p = ((p.0 ≡ n) × In (after.variables n) p.1) ⊎ Others n p

  remove-Others : (n : Text) (s : State) → Held c before s → All (Others n) (remove n s)
  remove-Others n s h =
      All-keep (λ p. In (before.variables p.0) p.1) (Others n) _ s (λ p k q. (ground arith, k)) h

  settle_char-Others :
      (n : Text) (s : State) (o : Option IntegerRange)
      → All (Others n) s
      → All (Others n) (settle_char c s n o)
  unfolding settle_char
  settle_char-Others n s none h = h
  settle_char-Others n s (some r) h = elim (Bool-cases (resolves_to_char c (c.infer_type (id n)))) [
    | inl plain ↦ elim (Bool-cases (fits_portable (portable_char_range c) r)) [
      | inl fits ↦ rw (plain, fits, settle_char) h
      | inr loose ↦
          rw (plain, loose, settle_char) (All-keep (Others n) (Others n) _ s (λ p k q. k) h)
    ]
    | inr wide ↦ rw (wide, settle_char) h
  ]

  settle_char-Written :
      (n : Text) (r : IntegerRange) (s : State)
      → Fits n (some r)
      → Held c before s
      → All (Written n) (settle_char c (put n r s) n (some r))
  unfolding settle_char
  settle_char-Written n r s (v, h, k) m =
      elim (Bool-cases (resolves_to_char c (c.infer_type (id n)))) [
        | inl plain ↦ elim (Bool-cases (fits_portable (portable_char_range c) r)) [
          | inl fits ↦
              rw (plain, fits, settle_char)
                (inl (refl, chars plain (portable_char_range c) refl fits), others)
          | inr loose ↦ rw (plain, loose, settle_char) dropped
        ]
        | inr wide ↦ rw (wide, settle_char) (inl (refl, kept wide), others)
      ]
    where
      others : All (Written n) (remove n s)
      others = All-imp (Others n) (Written n) (remove n s) (λ p q. inr q) (remove-Others n s m)

      chars :
          resolves_to_char c (c.infer_type (id n)) ≡ true
          → (o : Option IntegerRange) → portable_char_range c ≡ o
          → fits_portable o r ≡ true
          → In (after.variables n) r
      chars plain none e f = absurd (cc f)
      chars plain (some p) e f =
          let taken = rw (plain, Takes) at k in
          subst (λ z. In z r)
            (sym (
              let (w, size, both) = portable_char_range-Holds c p e in
              taken w size ((both v).0 (fits_within-In r p v f h))))
            h

      kept : resolves_to_char c (c.infer_type (id n)) ≡ false → In (after.variables n) r
      kept wide = let taken = rw (wide, Takes) at k in subst (λ z. In z r) (sym taken) h

      dropped : All (Written n) (remove n (put n r s))
      dropped =
          rw (beq_refl n) (All-keep (Written n) (Written n) _ (remove n s) (λ p q _. q) others)

  settle-Written :
      (unstable : List Text) (n : Text) (o : Option IntegerRange) (s : State)
      → Fits n o
      → Held c before s
      → All (Written n) (settle c unstable (store s n o) n)
  settle-Written unstable n none s h m =
      All-imp (Others n) (Written n) _ (λ p q. inr q)
        (elim (Bool-cases (elem n unstable)) [
          | inl volatile ↦
              rw volatile
                (All-keep (Others n) (Others n) _ (remove n s) (λ p k q. k) (remove-Others n s m))
          | inr stable ↦
              rw stable
                (settle_char-Others n (remove n s) (lookup n (remove n s)) (remove-Others n s m))
        ])
  settle-Written unstable n (some r) s h m = elim (Bool-cases (elem n unstable)) [
    | inl volatile ↦
        rw (volatile, beq_refl n)
          (All-keep (Others n) (Written n) _ (remove n s) (λ p q _. inr q) (remove-Others n s m))
    | inr stable ↦ rw (stable, beq_refl n) (settle_char-Written n r s h m)
  ]

  abbrev WrittenBy : Option (Text × Option IntegerRange) → Text × IntegerRange → Type 0
  WrittenBy none p = In (before.variables p.0) p.1
  WrittenBy (some (n, fact)) p = Written n p

  write-WrittenBy :
      (unstable : List Text) (s : State) (o : Option (Text × Option IntegerRange))
      → Held c before s
      → FitsWritten o
      → All (WrittenBy o) (write c unstable s o)
  write-WrittenBy unstable s none h k = h
  write-WrittenBy unstable s (some (n, fact)) h k = settle-Written unstable n fact s k h

  moved-In :
      (o : Option (Text × Option IntegerRange)) (n : Text) (r : IntegerRange)
      → (written_name o ≢ some n → after.variables n ≡ before.variables n)
      → WrittenBy o (n, r)
      → In (after.variables n) r
  moved-In none n r h k = subst (λ z. In z r) (sym (h (λ q. cc q))) k
  moved-In (some (m, fact)) n r h (inl (q, k)) = subst (λ z. In (after.variables z) r) (sym q) k
  moved-In (some (m, fact)) n r h (inr (d, k)) =
      subst (λ z. In z r) (sym (h (λ q. differs (cc q)))) k
    where
      differs : m ≢ n
      differs q = let e = rw q at d in cc (e, beq_refl n)

  transfer_statement-Held :
      (exposed unstable : List Text) (has_calls : Bool) (o : Option Statement) (s : State)
      → IsTrue c before s
      → ((node : Statement) → o ≡ some node → is_followed node ≡ true)
      → Happens c before after exposed has_calls o
      → Held c after (transfer_statement c exposed unstable has_calls o s)
  unfolding transfer_statement Happens
  transfer_statement-Held exposed unstable has_calls none s h g e =
      All-imp (λ p. In (before.variables p.0) p.1) (λ p. In (after.variables p.0) p.1) s
        (λ p k. subst (λ z. In z p.1) (sym (e p.0)) k) h.held
  transfer_statement-Held exposed unstable has_calls (some node) s h g step =
      let f = g node refl in
      let fact = written_fact c s node in
      let written =
        write-WrittenBy unstable s fact h.held (written_fact-Fits s node h step.writes) in
      let same = targets-written_fact c s node f in
      let through = stores_through_lem node f in
      let named = λ (n : Text) (d : written_name fact ≢ some n).
        subst (λ ns. elem n ns ≡ false) (sym same) (elem-listed (written_name fact) n d) in
      elim (Bool-cases (writes_exposed has_calls node)) [
        | inl exposes ↦
            rw (exposes, transfer_statement)
              (All-keep (WrittenBy fact) (λ p. In (after.variables p.0) p.1) _
                (write c unstable s fact)
                (λ p k q.
                  moved-In fact p.0 p.1 (λ d. step.keeps p.0 (named p.0 d) (λ _. ground arith)) k)
                written)
        | inr local ↦
            rw (local, transfer_statement)
              (All-imp (WrittenBy fact) (λ p. In (after.variables p.0) p.1)
                (write c unstable s fact)
                (λ p k.
                  moved-In fact p.0 p.1
                    (λ d. step.keeps p.0 (named p.0 d) (λ q.
                      absurd
                        (let q1 = ap (λ b. has_calls || b) (sym through) ∙ q in cc (q1, local))))
                    k)
                written)
      ]

  -- An event turns a state that is true of the variables' earlier values into one that is true of
  -- the later values. The hypotheses, where the event's control flow is known: its statement is not
  -- a list of declarations, nor `++` or `--` of what is not a name, and changes nothing from within
  -- an operand; the value of its expression over mathematical integers, or the value one higher or
  -- lower for `++` or `--`, reaches the variable that it names unconverted (to plain `char`, where
  -- both signednesses hold it); it changes other variables only in a call or through a pointer, and
  -- only exposed ones; and an event without a syntax node changes nothing. The later values lie in
  -- the ranges of their types, and constants and named limits have the values that are read of them.
  pub transfer-IsTrue :
      (exposed unstable : List Text) (event : Event) (s : State)
      → IsTrue c before s
      → (event.is_unknown_control_flow ≡ false
          → (node : Statement) → event.node ≡ some node
          → is_followed node ≡ true)
      → (event.is_unknown_control_flow ≡ false
          → Happens c before after exposed event.has_calls event.node)
      → IsTrue c after []
      → IsTrue c after (transfer c exposed unstable event s)
  unfolding transfer
  transfer-IsTrue exposed unstable event s h f e a = record {
    held = elim (Bool-cases event.is_unknown_control_flow) [
      | inl unknown ↦ rw (unknown, transfer) tt
      | inr known ↦
          rw (known, transfer)
            (transfer_statement-Held exposed unstable event.has_calls event.node s h (f known)
              (e known))
    ];
    typed = a.typed;
    limits = a.limits;
    literals = a.literals;
  }

-- ===== src/Cfg/Ranges/Analysis.antt =====
-- The worklist of `analyze_integer_ranges` of cgull/cfg/integer_ranges.py.
use cgull.Prelude.{
  ℕ, suc, ℤ, Bool, true, false, ◌&&◌, List, [], ◌∷◌, ◌++◌, Option, none, some, if◌then◌else◌, Text,
  text_eq, nat_eq, eqb, ltb, eqb_ℤ, lookup, elem, every,
}
use cgull.Cfg.Ranges.{IntegerRange, widen, Context}
use cgull.Cfg.Ranges.Conditions.{edge_state, merge}
use cgull.Cfg.Ranges.Expressions.{State}
use cgull.Cfg.Ranges.Transfer.{Event, transfer}
use cgull.Cfg.Syntax.{Node}

-- A node of the graph: its event, what `_condition` gives of it, and its successors.
pub record CfgNode : Type 0 where
  pub event : Event
  pub condition : Option Node
  pub successors : List ℕ

abbrev pub Graph : Type 0
Graph = ℕ → CfgNode

abbrev pub States : Type 0
States = List (ℕ × State)

abbrev pub same_end : Option ℤ → Option ℤ → Bool
same_end none none = true
same_end (some a) (some b) = eqb_ℤ a b
same_end a b = false

abbrev pub same_range : IntegerRange → Option IntegerRange → Bool
same_range r none = false
same_range r (some q) = same_end r.lower q.lower && same_end r.upper q.upper

abbrev pub includes : State → State → Bool
includes s t = every (λ p. same_range p.1 (lookup p.0 t)) s

-- `prior == merged` on dictionaries.
unfoldable pub same_state : State → State → Bool
same_state s t = includes s t && includes t s

unfoldable pub widen_entry : Text → IntegerRange → Option IntegerRange → State → State
unfolding widen
widen_entry n prior none rest = rest
widen_entry n prior (some r) rest = (n, widen prior r) ∷ rest

-- The entries of both states, widened.
unfoldable pub widen_state : State → State → State
unfolding widen_entry
widen_state [] merged = []
widen_state ((n, r) ∷ rest) merged = widen_entry n r (lookup n merged) (widen_state rest merged)

-- What a successor's incoming state becomes.
unfoldable pub merged_state : State → Option State → Bool → State
unfolding merge widen_state
merged_state edge none visited = edge
merged_state edge (some prior) visited =
    if visited then widen_state prior (merge prior edge) else merge prior edge

-- The mutable state of the loop; `queue` is `work`, whose members are those of `queued`.
pub record Work : Type 0 where
  pub incoming : States
  pub facts_before : States
  pub processed : List ℕ
  pub queue : List ℕ

abbrev pub enqueue : ℕ → List ℕ → List ℕ
enqueue n queue = if elem n queue then queue else queue ++ n ∷ []

unfoldable pub is_unchanged_from : Option State → State → Bool
unfolding same_state
is_unchanged_from none merged = false
is_unchanged_from (some prior) merged = same_state prior merged

-- `none` is an edge that is skipped.
unfoldable pub arrive : ℕ → Option State → Work → Work
unfolding merged_state is_unchanged_from
arrive successor none work = work
arrive successor (some edge) work =
    let prior = lookup successor work.incoming in
    let merged = merged_state edge prior (elem successor work.processed) in
    if is_unchanged_from prior merged then work else record {
      incoming = (successor, merged) ∷ work.incoming;
      facts_before = work.facts_before;
      processed = work.processed;
      queue = enqueue successor work.queue;
    }

-- The state along the edge to the successor of the index.
unfoldable pub along : Context → List Text → Option Node → State → ℕ → Option State
unfolding edge_state
along c unstable none outgoing index = some outgoing
along c unstable (some condition) outgoing index =
    if ltb index 2 then edge_state c unstable outgoing condition (eqb index 0) else some outgoing

-- The loop over the successors.
unfoldable pub arrive_all : Context → List Text → Option Node → State → ℕ → List ℕ → Work → Work
unfolding along arrive
arrive_all c unstable condition outgoing index [] work = work
arrive_all c unstable condition outgoing index (successor ∷ rest) work =
    arrive_all c unstable condition outgoing (suc index) rest
      (arrive successor (along c unstable condition outgoing index) work)

unfoldable pub visit_from :
    Context → List Text → List Text → CfgNode → ℕ → List ℕ → Work → Option State → Option Work
unfolding arrive_all transfer
visit_from c exposed unstable node node_id rest work none = none
visit_from c exposed unstable node node_id rest work (some state) = some (
    arrive_all c unstable node.condition (transfer c exposed unstable node.event state) 0
      node.successors
      (record {
        incoming = work.incoming;
        facts_before = (node_id, state) ∷ work.facts_before;
        processed = node_id ∷ work.processed;
        queue = rest;
      }))

-- The loop's body for the node at the front of the queue; `none` is the `KeyError` of a node
-- without an incoming state.
unfoldable pub visit : Context → List Text → List Text → Graph → ℕ → List ℕ → Work → Option Work
unfolding visit_from
visit c exposed unstable graph node_id rest work =
    visit_from c exposed unstable (graph node_id) node_id rest work (lookup node_id work.incoming)

-- ===== src/Cfg/Domains/Joins.antt =====
-- What the states of cgull/cfg/domains.py say of a run of the program, and the joins as the least
-- states that allow what either path allows.
use cgull.Prelude.{Bool, true, false, ◌≡◌, arith}
use cgull.Cfg.Domains.{
  Nullness, unknown, null, non_null, maybe_null, Initialization, uninitialized, initialized,
  maybe_initialized, Allocation, not_allocated, allocated, freed, maybe_allocated, maybe_freed,
  meet_allocation,
}

-- The pointer may be null, or not null, where the state holds; `unknown` says nothing.
abbrev pub may_be_null : Nullness → Bool → Bool
may_be_null unknown b = true
may_be_null null b = b
may_be_null non_null true = false
may_be_null non_null false = true
may_be_null maybe_null b = true

-- The variable may be initialized, or not.
abbrev pub may_be_initialized : Initialization → Bool → Bool
may_be_initialized uninitialized true = false
may_be_initialized uninitialized false = true
may_be_initialized initialized b = b
may_be_initialized maybe_initialized b = true

-- What has happened to the memory of a pointer in a run.
pub data MemoryState : Type 0 where
  never live gone : MemoryState

abbrev pub may_be : Allocation → MemoryState → Bool
may_be not_allocated never = true
may_be allocated live = true
may_be freed gone = true
may_be maybe_allocated never = true
may_be maybe_allocated live = true
may_be maybe_freed s = true
may_be a s = false

-- The join of two allocation states allows what either allows, and every state that allows this
-- allows what the join does.
pub meet_allocation_least :
    (a b : Allocation)
    → ((s : MemoryState) → may_be a s ≡ true → may_be (meet_allocation a b) s ≡ true)
      × ((s : MemoryState) → may_be b s ≡ true → may_be (meet_allocation a b) s ≡ true)
      × ((c : Allocation)
          → ((s : MemoryState) → may_be a s ≡ true → may_be c s ≡ true)
          → ((s : MemoryState) → may_be b s ≡ true → may_be c s ≡ true)
          → (s : MemoryState) → may_be (meet_allocation a b) s ≡ true
          → may_be c s ≡ true)
unfolding meet_allocation
meet_allocation_least a b = (
  λ s h. ground arith,
  λ s h. ground arith,
  λ c f g s h. ground (arith, f never, f live, f gone, g never, g live, g gone),
)

-- ===== src/Cfg/Domains/Examples.antt =====
-- Runs of the joins of cgull/cfg/domains.py, and their theorems at concrete states.
use cgull.Prelude.{true, ◌≡◌, refl}
use cgull.Cfg.Domains.{
  unknown, null, non_null, maybe_null, Allocation, allocated, freed, maybe_freed, meet_nullness,
  meet_allocation,
}
use cgull.Cfg.Domains.Joins.{MemoryState, may_be, meet_allocation_least}

null_or_not : meet_nullness null non_null ≡ maybe_null
unfolding meet_nullness
null_or_not = refl

perhaps_freed : meet_allocation allocated freed ≡ maybe_freed
unfolding meet_allocation
perhaps_freed = refl

-- A path on which nothing is known is dropped.
unknown_dropped : meet_nullness unknown non_null ≡ non_null
unfolding meet_nullness
unknown_dropped = refl

meet_allocation_least_example :
    ((s : MemoryState)
      → may_be allocated s ≡ true
      → may_be (meet_allocation allocated freed) s ≡ true)
    × ((s : MemoryState)
        → may_be freed s ≡ true
        → may_be (meet_allocation allocated freed) s ≡ true)
    × ((c : Allocation)
        → ((s : MemoryState) → may_be allocated s ≡ true → may_be c s ≡ true)
        → ((s : MemoryState) → may_be freed s ≡ true → may_be c s ≡ true)
        → (s : MemoryState) → may_be (meet_allocation allocated freed) s ≡ true
        → may_be c s ≡ true)
meet_allocation_least_example = meet_allocation_least allocated freed

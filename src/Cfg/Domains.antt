-- ===== src/Cfg/Domains.antt =====
-- cgull/cfg/domains.py: the state domains, and how states are joined where paths meet.
pub mod Joins
pub mod Examples
use cgull.Prelude.{Bool, true, false, ◌&&◌, ◌||◌, not, if◌then◌else◌}

pub data Nullness : Type 0 where
  unknown null non_null maybe_null : Nullness

pub data Initialization : Type 0 where
  uninitialized initialized maybe_initialized : Initialization

pub data Allocation : Type 0 where
  not_allocated allocated freed maybe_allocated maybe_freed : Allocation

-- The comparisons `==` of the enumerations.
unfoldable pub is_nullness : Nullness → Nullness → Bool
is_nullness unknown unknown = true
is_nullness null null = true
is_nullness non_null non_null = true
is_nullness maybe_null maybe_null = true
is_nullness a b = false

unfoldable pub is_initialization : Initialization → Initialization → Bool
is_initialization uninitialized uninitialized = true
is_initialization initialized initialized = true
is_initialization maybe_initialized maybe_initialized = true
is_initialization a b = false

unfoldable pub is_allocation : Allocation → Allocation → Bool
is_allocation not_allocated not_allocated = true
is_allocation allocated allocated = true
is_allocation freed freed = true
is_allocation maybe_allocated maybe_allocated = true
is_allocation maybe_freed maybe_freed = true
is_allocation a b = false

unfoldable pub meet_nullness : Nullness → Nullness → Nullness
unfolding is_nullness
meet_nullness a b =
    if is_nullness a unknown
    then b
    else if is_nullness b unknown
    then a
    else if is_nullness a b
    then a
    else if (is_nullness a non_null && is_nullness b null)
        || (is_nullness a null && is_nullness b non_null)
    then maybe_null
    else if is_nullness a maybe_null || is_nullness b maybe_null
    then maybe_null
    else unknown

unfoldable pub meet_initialization : Initialization → Initialization → Initialization
unfolding is_initialization
meet_initialization a b =
    if is_initialization a b
    then a
    else if is_initialization a maybe_initialized || is_initialization b maybe_initialized
    then maybe_initialized
    else if (is_initialization a initialized && is_initialization b uninitialized)
        || (is_initialization a uninitialized && is_initialization b initialized)
    then maybe_initialized
    else a

unfoldable pub meet_allocation : Allocation → Allocation → Allocation
unfolding is_allocation
meet_allocation a b =
    if is_allocation a b
    then a
    else if is_allocation a maybe_freed || is_allocation b maybe_freed
    then maybe_freed
    else if is_allocation a freed || is_allocation b freed
    then maybe_freed
    else if is_allocation a maybe_allocated || is_allocation b maybe_allocated
    then maybe_allocated
    else if (is_allocation a allocated && is_allocation b not_allocated)
        || (is_allocation a not_allocated && is_allocation b allocated)
    then maybe_allocated
    else not_allocated

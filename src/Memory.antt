-- ===== src/Memory.antt =====
-- `memory::MemoryManager` (src/memory/memory_manager.cpp, include/memory/memory_manager.h): pools of blocks over
-- the system's allocator. A pointer is the address of a block's first byte, and 0 the null pointer.
pub mod Calls
pub mod Pools
pub mod History
pub mod Tests
use cloud_fly_prlatform.Prelude.{
  ℕ, zero, suc, ◌+◌, ◌-◌, ◌*◌, ◌%◌, ◌^◌, max, Bool, not, ◌&&◌, List, [], ◌∷◌, Option, some, none,
  if◌then◌else◌, ltb, leb, get_elem?, set, Outcome,
}
use cloud_fly_prlatform.Prelude.Maps.{nat_eq, Map}
use cloud_fly_prlatform.Prelude.Locks.{continue}
use cloud_fly_prlatform.Compute.Lanes.{load, store}
use cloud_fly_prlatform.Compute.Vectors.{strips}

abbrev pub manager_mutex : ℕ
manager_mutex = 0

abbrev pub pool_mutex : ℕ → ℕ
pool_mutex i = suc i

unfoldable pub max_pool_size : ℕ
max_pool_size = 1024 * 1024 * 1024

unfoldable pub max_block_size : ℕ
max_block_size = 1024 * 1024

unfoldable pub default_alignment : ℕ
default_alignment = 64

pub record MemoryStats : Type 0 where
  pub total_allocated : ℕ
  pub total_freed : ℕ
  pub peak_usage : ℕ
  pub current_usage : ℕ
  pub allocation_count : ℕ
  pub free_count : ℕ
  pub page_faults : ℕ
  pub cache_hits : ℕ
  pub cache_misses : ℕ

pub record MemoryBlock : Type 0 where
  pub ptr : ℕ
  pub size : ℕ
  pub alignment : ℕ
  pub is_used : Bool

pub record MemoryPool : Type 0 where
  pub blocks : List MemoryBlock
  pub total_size : ℕ
  pub used_size : ℕ

-- The blocks that the system's allocator has given: their bytes.
abbrev pub Memory : Type 0
Memory = Map ℕ (List ℕ)

-- `block_map` has a block's place for the pointer to it: the numbers of its pool and of the block there.
pub record MemoryManager : Type 0 where
  pub pools : List MemoryPool
  pub block_map : Map ℕ (ℕ × ℕ)
  pub memory_limit : ℕ
  pub stats : MemoryStats
  pub initialized : Bool
  pub memory : Memory

unfoldable pub no_stats : MemoryStats
no_stats = record {
  total_allocated = 0;
  total_freed = 0;
  peak_usage = 0;
  current_usage = 0;
  allocation_count = 0;
  free_count = 0;
  page_faults = 0;
  cache_hits = 0;
  cache_misses = 0;
}

unfoldable pub wrap : ℕ → ℕ
wrap n = n % 2 ^ 64

unfoldable pub update_stats : ℕ → ℕ → MemoryStats → MemoryStats
unfolding wrap
update_stats allocated freed stats =
    let total_allocated = wrap (stats.total_allocated + allocated) in
    let total_freed = wrap (stats.total_freed + freed) in
    let current_usage = wrap (total_allocated + (2 ^ 64 - total_freed)) in
    record stats {
      total_allocated = total_allocated;
      total_freed = total_freed;
      current_usage = current_usage;
      peak_usage = max stats.peak_usage current_usage;
      allocation_count = wrap (stats.allocation_count + (if ltb 0 allocated then 1 else 0));
      free_count = wrap (stats.free_count + (if ltb 0 freed then 1 else 0));
    }

-- The first block of a pool that is free and large enough, from the block `i` on.
unfoldable pub find_in_pool : ℕ → List MemoryBlock → ℕ → Option ℕ
find_in_pool size [] i = none
find_in_pool size (block ∷ blocks) i =
    let later = find_in_pool size blocks (suc i) in
    if not block.is_used && leb size block.size then some i else later

unfoldable pub find_from : ℕ → List MemoryPool → ℕ → Option (ℕ × ℕ)
unfolding find_in_pool
find_from size [] i = none
find_from size (pool ∷ pools) i =
    let later = find_from size pools (suc i) in
    elim (find_in_pool size pool.blocks 0) [ none ↦ later | some j ↦ some (i, j) ]

-- `std::sort` by the address.
unfoldable pub insert_block : MemoryBlock → List MemoryBlock → List MemoryBlock
insert_block a [] = a ∷ []
insert_block a (b ∷ blocks) =
    let rest = insert_block a blocks in if leb a.ptr b.ptr then a ∷ b ∷ blocks else b ∷ rest

unfoldable pub sort_blocks : List MemoryBlock → List MemoryBlock
unfolding insert_block
sort_blocks [] = []
sort_blocks (a ∷ blocks) = insert_block a (sort_blocks blocks)

unfoldable pub sort_pools : List MemoryPool → List MemoryPool
unfolding sort_blocks
sort_pools [] = []
sort_pools (pool ∷ pools) = record pool { blocks = sort_blocks pool.blocks } ∷ sort_pools pools

unfoldable pub block_at : ℕ × ℕ → List MemoryPool → Option MemoryBlock
block_at place pools = elim (get_elem? pools place.0) [
  | none ↦ none
  | some pool ↦ get_elem? pool.blocks place.1
]

unfoldable pub set_used : Bool → ℕ × ℕ → List MemoryPool → List MemoryPool
set_used used place pools = elim (get_elem? pools place.0) [
  | none ↦ pools
  | some pool ↦ elim (get_elem? pool.blocks place.1) [
    | none ↦ pools
    | some block ↦
        set pools place.0
          (record pool { blocks = set pool.blocks place.1 (record block { is_used = used }) })
  ]
]

unfoldable pub copy_at : ℕ → List ℕ → List ℕ → ℕ → Outcome (List ℕ)
unfolding load store
copy_at w source bytes i = continue (load w source i) (λ v. store v bytes i)

-- The copy, in registers of 16 bytes from 16 bytes on, with nothing for a last part.
unfoldable pub copy_bytes : ℕ → List ℕ → List ℕ → Outcome (List ℕ)
unfolding strips copy_at
copy_bytes size source target =
    if ltb size 16
    then copy_at size source target 0
    else strips (suc size) 16 (λ i bytes. copy_at 16 source bytes i) size 0 target

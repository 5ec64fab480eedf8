-- ===== src/Memory/Calls.antt =====
-- The member functions of `memory::MemoryManager` (src/memory/memory_manager.cpp), under its mutex.
use cloud_fly_prlatform.Prelude.{
  ℕ, suc, true, false, ◌||◌, ◌/◌, List, [], ◌∷◌, ◌++◌, Option, some, none, if◌then◌else◌, ltb, leb,
  ◌==◌, returns, fault,
}
use cloud_fly_prlatform.Prelude.Maps.{nat_eq, find, insert, erase}
use cloud_fly_prlatform.Prelude.Locks.{
  Guarded, continue, ◌>>=◌, ◌>>◌, lock_guard, pure, abort, found, modify, skip, gets,
}
use cloud_fly_prlatform.Memory.{
  manager_mutex, pool_mutex, max_pool_size, max_block_size, default_alignment, MemoryStats,
  MemoryBlock, MemoryPool, Memory, MemoryManager, no_stats, wrap, update_stats, find_from,
  sort_pools, block_at, set_used, copy_bytes,
}

abbrev pub Call : Type 0 → Type 0
Call = Guarded MemoryManager

-- `free`: of an address that the allocator has not given, or has got back, anything may come.
unfoldable pub deallocate_aligned : ℕ → Call (Unit {0})
deallocate_aligned ptr =
    if ptr == 0
    then skip
    else found (λ s. find ptr s.memory) (abort fault)
        λ bytes. modify (λ s. record s { memory = erase ptr s.memory })

-- `void copy(void* dst, const void* src, size_t size)` between the first bytes of two blocks.
unfoldable pub copy : ℕ → ℕ → ℕ → Call (Unit {0})
unfolding copy_bytes
copy dst src size =
    if (dst == 0) || ((src == 0) || (size == 0))
    then skip
    else found (λ s. find src s.memory) (abort fault)
        λ source.
          found (λ s. find dst s.memory) (abort fault)
            λ target. λ held s.
              continue (copy_bytes size source target)
                (λ bytes. returns (tt, record s { memory = insert dst bytes s.memory }))

unfoldable pub new_pool : MemoryPool
unfolding max_pool_size
new_pool = record { blocks = []; total_size = max_pool_size / 4; used_size = 0 }

-- `deallocateAligned` does nothing for a null pointer, and neither does the test before it.
unfoldable pub free_blocks : List MemoryBlock → Call (Unit {0})
unfolding deallocate_aligned
free_blocks [] = skip
free_blocks (block ∷ blocks) = deallocate_aligned block.ptr >> free_blocks blocks

unfoldable pub free_pools : List MemoryPool → ℕ → Call (Unit {0})
unfolding free_blocks
free_pools [] i = skip
free_pools (pool ∷ pools) i =
    lock_guard (pool_mutex i) (free_blocks pool.blocks) >> free_pools pools (suc i)

unfoldable pub cleanup_pools : Call (Unit {0})
unfolding free_pools
cleanup_pools =
    gets (λ s. s.pools)
    >>= (λ pools. free_pools pools 0)
    >> modify (λ s. record s { pools = []; block_map = [] })

unfoldable pub initialize : Call (Unit {0})
unfolding new_pool
initialize = lock_guard manager_mutex (
    modify (λ s. record s {
      pools =
          if s.initialized
          then s.pools
          else s.pools ++ (new_pool ∷ new_pool ∷ new_pool ∷ new_pool ∷ []);
      initialized = true;
    }))

unfoldable pub shutdown : Call (Unit {0})
unfolding cleanup_pools
shutdown = lock_guard manager_mutex (
    gets (λ s. s.initialized) >>= λ initialized.
    if initialized then cleanup_pools >> modify (λ s. record s { initialized = false }) else skip)

unfoldable pub set_memory_limit : ℕ → Call (Unit {0})
set_memory_limit limit = lock_guard manager_mutex (modify (λ s. record s { memory_limit = limit }))

unfoldable pub reset_stats : Call (Unit {0})
unfolding no_stats
reset_stats = modify (λ s. record s { stats = no_stats })

-- Each pool's mutex is taken and given back in turn, and is not held on entry.
unfoldable pub find_free_block : ℕ → Call (Option (ℕ × ℕ))
unfolding find_from
find_free_block size = gets (λ s. find_from size s.pools 0)

-- `posix_memalign` with an alignment and a size: a null pointer when it fails.
pub record System : Type 0 where
  pub posix_memalign : ℕ → ℕ → Memory → ℕ × Memory

module _ (system : System) where
  unfoldable pub allocate_aligned : ℕ → ℕ → Call ℕ
  allocate_aligned size alignment held s =
      let given = system.posix_memalign alignment size s.memory in
      returns (given.0, record s { memory = given.1 })

  unfoldable pub count_miss : MemoryStats → MemoryStats
  unfolding wrap
  count_miss stats = record stats { cache_misses = wrap (suc stats.cache_misses) }

  unfoldable pub use_block : ℕ → ℕ × ℕ → Call ℕ
  unfolding block_at set_used update_stats
  use_block size place =
      found (λ s. block_at place s.pools) (abort fault)
        λ block.
          modify (λ s. record s {
            pools = set_used true place s.pools;
            block_map = insert block.ptr place s.block_map;
            stats = update_stats size 0 s.stats;
          })
          >> pure block.ptr

  -- The cache is empty: `getFromCache` has no more than `return nullptr`.
  unfoldable pub allocate : ℕ → ℕ → Call ℕ
  unfolding count_miss allocate_aligned find_free_block use_block max_block_size sort_pools
  allocate size alignment =
      if size == 0
      then pure 0
      else if ltb max_block_size size
      then allocate_aligned size alignment
      else lock_guard manager_mutex (
          modify (λ s. record s { stats = count_miss s.stats }) >> find_free_block size >>= λ block.
          elim block [
            | some place ↦ use_block size place
            | none ↦
                modify (λ s. record s { pools = sort_pools s.pools })
                >> find_free_block size
                >>= λ block. elim block [
                  | some place ↦ use_block size place
                  | none ↦ allocate_aligned size alignment
                ]
          ])

  unfoldable pub deallocate : ℕ → Call (Unit {0})
  unfolding deallocate_aligned block_at set_used update_stats
  deallocate ptr =
      if ptr == 0
      then skip
      else lock_guard manager_mutex (
          found (λ s. find ptr s.block_map) (deallocate_aligned ptr)
            λ place.
              found (λ s. block_at place s.pools) (abort fault)
                λ block. modify (λ s. record s {
                  pools = set_used false place s.pools;
                  block_map = erase ptr s.block_map;
                  stats = update_stats 0 block.size s.stats;
                }))

  unfoldable pub reallocate : ℕ → ℕ → Call ℕ
  unfolding allocate deallocate copy allocate_aligned default_alignment block_at
  reallocate ptr new_size =
      if ptr == 0
      then allocate new_size default_alignment
      else if new_size == 0
      then deallocate ptr >> pure 0
      else lock_guard manager_mutex (
          found (λ s. find ptr s.block_map) (allocate_aligned new_size default_alignment)
            λ place.
              found (λ s. block_at place s.pools) (abort fault)
                λ block.
                  if leb new_size block.size
                  then pure ptr
                  else allocate new_size default_alignment >>= λ new_ptr.
                      if new_ptr == 0
                      then pure 0
                      else copy new_ptr ptr block.size >> deallocate ptr >> pure new_ptr)

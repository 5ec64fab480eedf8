-- ===== src/Memory/Pools.antt =====
-- No function of src/memory/memory_manager.cpp puts a block into a pool: what the manager does then.
use cloud_fly_prlatform.Prelude.{
  ℕ, suc, ◌*◌, ◌≤◌, ◌<◌, ◌≡◌, refl, ap, List, [], ◌∷◌, some, none, arith, if◌then◌else◌, ltb,
  returns, stops, deadlock, Bool-cases, inl, inr,
}
use cloud_fly_prlatform.Prelude.Maps.{nat_eq, find}
use cloud_fly_prlatform.Memory.{
  MemoryManager, MemoryPool, MemoryBlock, find_from, find_in_pool, sort_pools, sort_blocks,
  max_block_size, default_alignment, block_at,
}
use cloud_fly_prlatform.Memory.Calls.{
  System, allocate, deallocate, reallocate, allocate_aligned, deallocate_aligned, find_free_block,
  count_miss,
}

unfoldable pub NoBlocks : List MemoryPool → Type 0
NoBlocks [] = Unit {0}
NoBlocks (pool ∷ pools) = (pool.blocks ≡ []) × NoBlocks pools

pub record Unpooled (s : MemoryManager) : Type 0 where
  pub no_blocks : NoBlocks s.pools
  pub no_entries : s.block_map ≡ []

find_from-NoBlocks :
    (size : ℕ) (pools : List MemoryPool) (i : ℕ) → NoBlocks pools → find_from size pools i ≡ none
unfolding find_from find_in_pool NoBlocks
find_from-NoBlocks size [] i h = refl
find_from-NoBlocks size (pool ∷ pools) i (e, h) = rw e (find_from-NoBlocks size pools (suc i) h)

sort_pools-NoBlocks : (pools : List MemoryPool) → NoBlocks pools → NoBlocks (sort_pools pools)
unfolding sort_pools sort_blocks NoBlocks
sort_pools-NoBlocks [] h = tt
sort_pools-NoBlocks (pool ∷ pools) (e, h) = (ap sort_blocks e, sort_pools-NoBlocks pools h)

module _ (system : System) where
  pub after_allocate : ℕ → ℕ → MemoryManager → MemoryManager
  unfolding max_block_size
  after_allocate size alignment s =
      let memory = (system.posix_memalign alignment size s.memory).1 in
      if ltb max_block_size size then record s { memory = memory } else record s {
        memory = memory;
        pools = sort_pools s.pools;
        stats = count_miss system s.stats;
      }

  -- With no block in a pool, an allocation is one of the system's; the statistics count no more than a cache
  -- miss.
  pub allocate-Unpooled :
      (size alignment : ℕ) (s : MemoryManager)
      → Unpooled s
      → 0 < size
      → allocate system size alignment [] s
        ≡ returns
            ((system.posix_memalign alignment size s.memory).0, after_allocate size alignment s)
  unfolding allocate after_allocate allocate_aligned find_free_block
  allocate-Unpooled size alignment s u h = elim (Bool-cases (ltb max_block_size size)) [
    | inl big ↦ ground (arith, big, h)
    | inr small ↦
        let e1 = find_from-NoBlocks size s.pools 0 u.no_blocks in
        let e2 =
          find_from-NoBlocks size (sort_pools s.pools) 0
            (sort_pools-NoBlocks s.pools u.no_blocks) in
        ground (arith, small, h, e1, e2)
  ]

  pub after_allocate-Unpooled :
      (size alignment : ℕ) (s : MemoryManager)
      → Unpooled s
      → Unpooled (after_allocate size alignment s)
  unfolding after_allocate
  after_allocate-Unpooled size alignment s u = elim (Bool-cases (ltb max_block_size size)) [
    | inl big ↦ rw big (record { no_blocks = u.no_blocks; no_entries = u.no_entries })
    | inr small ↦
        rw small (record {
          no_blocks = sort_pools-NoBlocks s.pools u.no_blocks;
          no_entries = u.no_entries;
        })
  ]

  -- With no block in a pool, the reallocation of a pointer that is not null, to a size that is not 0, is a new
  -- allocation by the system: nothing is copied from the old block, and the old block is not freed.
  pub reallocate-Unpooled :
      (ptr new_size : ℕ) (s : MemoryManager)
      → Unpooled s
      → 0 < ptr
      → 0 < new_size
      → reallocate system ptr new_size [] s
        ≡ returns (
          (system.posix_memalign default_alignment new_size s.memory).0,
          record s { memory = (system.posix_memalign default_alignment new_size s.memory).1 },
        )
  unfolding reallocate allocate_aligned
  reallocate-Unpooled ptr new_size s u hp hn =
      let e : find ptr s.block_map ≡ none = ap (find ptr) u.no_entries in ground (arith, hp, hn, e)

  -- The reallocation of a block of a pool to a larger size of at most 1 MB locks the manager's mutex, and then
  -- locks it again in `allocate`: it never comes back.
  pub reallocate-deadlock :
      (ptr new_size : ℕ) (s : MemoryManager) (place : ℕ × ℕ) (block : MemoryBlock)
      → find ptr s.block_map ≡ some place
      → block_at place s.pools ≡ some block
      → 0 < ptr
      → block.size < new_size
      → new_size ≤ 1024 * 1024
      → reallocate system ptr new_size [] s ≡ stops deadlock
  unfolding reallocate allocate max_block_size
  reallocate-deadlock ptr new_size s place block e b hp hs hn = ground (arith, e, b, hp, hs, hn)

  pub deallocate-Unpooled :
      (ptr : ℕ) (s : MemoryManager)
      → Unpooled s
      → 0 < ptr
      → deallocate system ptr [] s ≡ deallocate_aligned ptr (0 ∷ []) s
  unfolding deallocate
  deallocate-Unpooled ptr s u hp =
      let e : find ptr s.block_map ≡ none = ap (find ptr) u.no_entries in ground (arith, hp, e)

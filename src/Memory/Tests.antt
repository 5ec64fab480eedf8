-- ===== src/Memory/Tests.antt =====
-- Runs of a `MemoryManager` (src/memory/memory_manager.cpp) over an allocator that gives one address after another.
use cloud_fly_prlatform.Prelude.{
  ℕ, suc, ◌*◌, ◌++◌, some, Bool-cases, inl, inr, ◌≡◌, refl, arith, true, List, [], ◌∷◌, replicate,
  length, returns, stops, deadlock,
}
use cloud_fly_prlatform.Prelude.Maps.{nat_eq, find}
use cloud_fly_prlatform.Memory.{Memory, MemoryManager, block_at, default_alignment, no_stats}
use cloud_fly_prlatform.Memory.Calls.{System, reallocate, reset_stats}
use cloud_fly_prlatform.Memory.Pools.{NoBlocks, Unpooled, reallocate-Unpooled, reallocate-deadlock}
use cloud_fly_prlatform.Memory.History.{
  Operation, perform, run, Follows, run-Unpooled, run-reallocate,
}

abbrev counting : System
counting = record {
  posix_memalign = λ alignment size memory.
      (4096 * suc (length memory), (4096 * suc (length memory), replicate size 0) ∷ memory);
}

abbrev fresh : MemoryManager
fresh = record {
  pools = [];
  block_map = [];
  memory_limit = 1073741824;
  stats = record {
    total_allocated = 0;
    total_freed = 0;
    peak_usage = 0;
    current_usage = 0;
    allocation_count = 0;
    free_count = 0;
    page_faults = 0;
    cache_hits = 0;
    cache_misses = 0;
  };
  initialized = true;
  memory = (4096, 1 ∷ 2 ∷ []) ∷ [];
}

fresh-Unpooled : Unpooled fresh
unfolding NoBlocks
fresh-Unpooled = record { no_blocks = tt; no_entries = refl }

-- The two bytes are not in the new block, and the old one is still there.
reallocate-Unpooled_runs :
    reallocate counting 4096 3 [] fresh
    ≡ returns (8192, record fresh { memory = (8192, 0 ∷ 0 ∷ 0 ∷ []) ∷ (4096, 1 ∷ 2 ∷ []) ∷ [] })
reallocate-Unpooled_runs =
    reallocate-Unpooled counting 4096 3 fresh fresh-Unpooled (omega arith) (omega arith)

abbrev pooled : MemoryManager
pooled = record fresh {
  pools =
      record {
        blocks = record { ptr = 4096; size = 2; alignment = 64; is_used = true } ∷ [];
        total_size = 268435456;
        used_size = 0;
      }
      ∷ [];
  block_map = (4096, (0, 0)) ∷ [];
}

reallocate-deadlock_runs : reallocate counting 4096 3 [] pooled ≡ stops deadlock
unfolding block_at
reallocate-deadlock_runs =
    reallocate-deadlock counting 4096 3 pooled (0, 0)
      (record { ptr = 4096; size = 2; alignment = 64; is_used = true }) refl refl (omega arith)
      (omega arith) (omega arith)

abbrev calls : List Operation
calls =
    Operation.initialization
    ∷ Operation.allocation 5 64
    ∷ Operation.deallocation 4096
    ∷ Operation.shutting_down
    ∷ []

run-Unpooled_example : Follows counting calls fresh (run counting calls fresh)
run-Unpooled_example = run-Unpooled counting calls fresh fresh-Unpooled

-- A system whose blocks stand one behind the other, each at an address above the number of those before.
abbrev stacking : System
stacking = record {
  posix_memalign = λ alignment size memory.
      (4096 * suc (length memory), memory ++ ((4096 * suc (length memory), replicate size 0) ∷ []));
}

find-append :
    (p : ℕ) (m n : Memory) (old : List ℕ) → find p m ≡ some old → find p (m ++ n) ≡ some old
find-append p [] n old e = absurd (ground (arith, e))
find-append p ((q, bytes) ∷ m) n old e = elim (Bool-cases (nat_eq.beq p q)) [
  | inl same ↦ ground (arith, same, e)
  | inr other ↦ ground (arith, other, e, find-append p m n old)
]

resets : run stacking (Operation.reset ∷ []) fresh ≡ returns fresh
unfolding run perform reset_stats no_stats
resets = refl

-- The old block keeps its two bytes, and the new one has zeros.
run-reallocate_example :
    (new : ℕ) × (u : MemoryManager) × (reallocate stacking 4096 3 [] fresh ≡ returns (new, u))
    × ((new, u.memory) ≡ stacking.posix_memalign default_alignment 3 fresh.memory)
    × (find 4096 u.memory ≡ some (1 ∷ 2 ∷ []))
    × Unpooled u
run-reallocate_example =
    run-reallocate stacking (Operation.reset ∷ []) fresh fresh 4096 3 (1 ∷ 2 ∷ [])
      (λ alignment n p memory old e. find-append p memory _ old e) fresh-Unpooled resets
      (omega arith) (omega arith) refl

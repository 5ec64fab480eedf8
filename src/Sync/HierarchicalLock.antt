-- ===== src/Sync/HierarchicalLock.antt =====
-- `HierarchicalLock` (src/sync/advanced_synchronization.cpp, include/sync/advanced_synchronization.h): locks by
-- number, threads by number, and each atomic access of a thread as a step. `current_hierarchy` is one
-- variable of each thread, for all locks.
pub mod Exclusion
pub mod Nesting
pub mod Tests
use cloud_fly_prlatform.Prelude.{ℕ, ◌≤◌, ◌<◌, ◌≡◌, ◌≢◌}
use cloud_fly_prlatform.Sync.LockFreeStack.{update}

-- Where a thread stands: outside the calls, in the loop of `lock`, after its exchange, or after the store of
-- `unlock`.
pub data Place : Type 0 where
  outside : Place
  spinning : (lock hierarchy : ℕ) → Place
  entering : (lock hierarchy : ℕ) → Place
  leaving : (lock : ℕ) → Place

pub record State : Type 0 where
  pub locks : ℕ → ℕ
  pub current_hierarchy : ℕ → ℕ
  pub places : ℕ → Place

-- What a step shows of the call that it ends.
pub data Event : Type 0 where
  silent : Event
  locked unlocked throws : ℕ → Event

abbrev pub goes : State → ℕ → Place → State
goes s i p = record s { places = update i p s.places }

-- The steps of the thread `i`.
pub data Step (i : ℕ) (s : State) : Event → State → Type 0 where
  lock_call :
      (k hierarchy : ℕ)
      → s.places i ≡ outside
      → s.current_hierarchy i < hierarchy
      → Step i s silent (goes s i (spinning k hierarchy))
  lock_throws :
      (k hierarchy : ℕ)
      → s.places i ≡ outside
      → hierarchy ≤ s.current_hierarchy i
      → Step i s (throws k) s
  -- `compare_exchange_weak` succeeds.
  lock_takes :
      (k hierarchy : ℕ)
      → s.places i ≡ spinning k hierarchy
      → s.locks k ≡ 0
      → Step i s silent (record s {
        locks = update k hierarchy s.locks;
        places = update i (entering k hierarchy) s.places;
      })
  -- It fails, for a lock that is held or by itself, and the loop goes on.
  lock_spins : (k hierarchy : ℕ) → s.places i ≡ spinning k hierarchy → Step i s silent s
  -- `current_hierarchy = hierarchy`
  lock_returns :
      (k hierarchy : ℕ)
      → s.places i ≡ entering k hierarchy
      → Step i s (locked k) (record s {
        current_hierarchy = update i hierarchy s.current_hierarchy;
        places = update i outside s.places;
      })
  unlock_throws : (k : ℕ) → s.places i ≡ outside → s.current_hierarchy i ≡ 0 → Step i s (throws k) s
  -- `lock_.store(0)`
  unlock_stores :
      (k : ℕ)
      → s.places i ≡ outside
      → s.current_hierarchy i ≢ 0
      → Step i s silent
          (record s { locks = update k 0 s.locks; places = update i (leaving k) s.places })
  -- `current_hierarchy = 0`
  unlock_returns :
      (k : ℕ)
      → s.places i ≡ leaving k
      → Step i s (unlocked k) (record s {
        current_hierarchy = update i 0 s.current_hierarchy;
        places = update i outside s.places;
      })

-- ===== src/Sync/HierarchicalLock/Tests.antt =====
-- Threads on locks of src/sync/advanced_synchronization.cpp.
use cloud_fly_prlatform.Prelude.{ℕ, ◌≡◌, ◌≢◌, refl, [], ◌∷◌, arith}
use cloud_fly_prlatform.Sync.LockFreeStack.{update}
use cloud_fly_prlatform.Sync.HierarchicalLock.{
  State, outside, silent, locked, unlocked, lock_call, lock_takes,
}
use cloud_fly_prlatform.Sync.HierarchicalLock.Nesting.{Run, Stuck, nested-Stuck}
use cloud_fly_prlatform.Sync.HierarchicalLock.Exclusion.{
  Holds, HoldsAt, Concerns, Reach, here, later, lock_excludes,
}

abbrev start : State
start = record { locks = λ k. 0; current_hierarchy = λ i. 0; places = λ i. outside }

nested-Stuck_example :
    (t : State) × Run start
      ((4, silent)
        ∷ (4, silent)
        ∷ (4, locked 1)
        ∷ (4, silent)
        ∷ (4, silent)
        ∷ (4, locked 2)
        ∷ (4, silent)
        ∷ (4, unlocked 2)
        ∷ [])
      t
    × (t.locks 1 ≡ 10)
    × Stuck t 4 1
nested-Stuck_example =
    nested-Stuck start 4 1 2 10 20 refl refl refl refl (λ e. omega arith) (omega arith)
      (omega arith)

taken : (t : State) × Reach 1 start t × Holds t 4
unfolding Concerns HoldsAt update
taken = (
  _,
  later {i = 4} (lock_takes 1 10 refl refl) refl
      (later {i = 4} (lock_call 1 10 refl (omega arith)) refl here),
  tt,
)

lock_excludes_example : (◌≡◌ {A = ℕ} 4 4) × (taken.0.locks 1 ≢ 0)
lock_excludes_example =
    lock_excludes 1 start taken.0 (λ i. refl) (λ i. refl) taken.1 4 4 taken.2 taken.2

-- ===== src/Core/MultiCoreBlockchain.antt =====
-- The work of the cores of `MultiCoreBlockchain` (src/core/blockchain/MultiCoreBlockchain.cpp,
-- include/core/blockchain/MultiCoreBlockchain.h): their queues, and what a failure does to them.
-- `TransactionQueue` and `BlockQueue` are not in the repository: they are queues that promise what `Queue` says.
pub mod Least
pub mod Work
pub mod Collected
pub mod Redistribution
pub mod Tests
use cloud_fly_prlatform.Prelude.{
  ℕ, zero, suc, ◌+◌, ◌-◌, ◌^◌, ◌≡◌, Bool, List, [], ◌∷◌, ◌++◌, Option, some, none, if◌then◌else◌,
  ltb, length,
}

pub record Queue (A : Type 0) : Type 1 where
  pub Q : Type 0
  pub push : A → Q → Q
  pub size : Q → ℕ
  pub drain : Q → List A × Q
  -- `pop` of a queue that is not empty.
  pub pop : Q → Option (A × Q)
  -- What is in the queue, the oldest first.
  pub contents : Q → List A
  pub contents-push : (a : A) (q : Q) → contents (push a q) ≡ contents q ++ (a ∷ [])
  pub size-length : (q : Q) → size q ≡ length (contents q)
  pub pop-none : (q : Q) → contents q ≡ [] → pop q ≡ none
  pub pop-some :
      (q : Q) (a : A) (rest : List A)
      → contents q ≡ a ∷ rest
      → (q' : Q) × (pop q ≡ some (a, q')) × (contents q' ≡ rest)
  pub drain-all : (q : Q) → (drain q).0 ≡ contents q
  pub drain-empties : (q : Q) → contents (drain q).1 ≡ []

module _ {Transaction Block : Type 0} (T : Queue Transaction) (B : Queue Block) where
  pub record Core : Type 0 where
    pub running : Bool
    pub paused : Bool
    pub tx_queue : T.Q
    pub block_queue : B.Q

  -- `cores_`; a queue is bounded by the memory, and the sum of two sizes does not wrap.
  abbrev pub Cores : Type 0
  Cores = List Core

  unfoldable pub load : Core → ℕ
  load c = T.size c.tx_queue + B.size c.block_queue

  -- The loop of `find_least_loaded_core`, from the core `i` on; no target is `static_cast<size_t>(-1)`.
  unfoldable pub least : Cores → ℕ → ℕ → Option ℕ → Option ℕ
  unfolding load
  least [] i min_load target = target
  least (c ∷ cores) i min_load target =
      let skipped = least cores (suc i) min_load target in
      let taken = least cores (suc i) (load c) (some i) in
      if c.running then (if ltb (load c) min_load then taken else skipped) else skipped

  unfoldable pub find_least_loaded_core : Cores → Option ℕ
  unfolding least
  find_least_loaded_core cores = least cores 0 (2 ^ 64 - 1) none

  -- `drain` on the queues of the cores that do not run: what they gave, and the cores after it.
  unfoldable pub collect : Cores → List Transaction × List Block × Cores
  collect [] = ([], [], [])
  collect (c ∷ cores) =
      let rest = collect cores in
      if c.running then (rest.0, rest.1, c ∷ rest.2) else (
        (T.drain c.tx_queue).0 ++ rest.0,
        (B.drain c.block_queue).0 ++ rest.1,
        record c { tx_queue = (T.drain c.tx_queue).1; block_queue = (B.drain c.block_queue).1 }
            ∷ rest.2,
      )

  unfoldable pub change : (Core → Core) → ℕ → Cores → Cores
  change f i [] = []
  change f zero (c ∷ cores) = f c ∷ cores
  change f (suc i) (c ∷ cores) = c ∷ change f i cores

  unfoldable pub push_tx : Transaction → Core → Core
  push_tx tx c = record c { tx_queue = T.push tx c.tx_queue }

  unfoldable pub push_block : Block → Core → Core
  push_block block c = record c { block_queue = B.push block c.block_queue }

  -- `if (target_core != static_cast<size_t>(-1)) cores_[target_core].….push(…)`
  unfoldable pub give : (Core → Core) → Cores → Cores
  unfolding find_least_loaded_core change
  give push cores = elim (find_least_loaded_core cores) [
    | none ↦ cores
    | some target_core ↦ change push target_core cores
  ]

  -- `for (const auto& item : failed_items) …`
  unfoldable pub give_all : {A : Type 0} → (A → Core → Core) → List A → Cores → Cores
  unfolding give
  give_all push [] cores = cores
  give_all push (item ∷ items) cores = give_all push items (give (push item) cores)

  unfoldable pub redistribute_work : Cores → Cores
  unfolding collect give_all push_tx push_block
  redistribute_work cores =
      let collected = collect cores in
      give_all push_block collected.1 (give_all push_tx collected.0 collected.2)

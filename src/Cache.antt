-- ===== src/Cache.antt =====
-- `AdaptiveCache` (include/cache/adaptive_cache.h), called by one thread at a time. The code names the queue
-- `LockFreeQueue`, and uses it as that of include/sync/lockfree_structures.h: `dequeue` throws on an empty queue.
pub mod Queue
pub mod Eviction
pub mod History
pub mod Backend
pub mod Tests
use cloud_fly_prlatform.Prelude.{
  ℕ, zero, suc, ◌+◌, ◌%◌, ◌^◌, List, [], ◌∷◌, ◌++◌, Option, some, none, leb, ltb, length,
  if◌then◌else◌, Outcome, returns, stops, diverge, thrown, ◌>>=◌,
}
use cloud_fly_prlatform.Prelude.Maps.{Eq, Map, find, insert, erase}

pub record CacheNode (K V : Type 0) : Type 0 where
  pub key : K
  pub value : V
  pub frequency : ℕ

pub record AdaptiveCache (K V : Type 0) : Type 0 where
  pub promotion_queue : List (CacheNode K V)
  pub cache_store : Map K (CacheNode K V)
  pub max_size : ℕ

module _ {K V : Type 0} ⦃eq : Eq K⦄ where
  abbrev pub new_cache : ℕ → AdaptiveCache K V
  new_cache size = record { promotion_queue = []; cache_store = []; max_size = size }

  -- The value, if the code answers `true`; the queue gets a copy of the node.
  unfoldable pub hit : K → AdaptiveCache K V → Option (CacheNode K V) → Option V × AdaptiveCache K V
  hit key c none = (none, c)
  hit key c (some old) =
      let node = record old { frequency = (old.frequency + 1) % 2 ^ 64 } in
      (
        some node.value,
        record c {
          promotion_queue = c.promotion_queue ++ (node ∷ []);
          cache_store = insert key node c.cache_store;
        },
      )

  unfoldable pub get : K → AdaptiveCache K V → Option V × AdaptiveCache K V
  unfolding hit
  get key c = hit key c (find key c.cache_store)

  -- `cache_store_.erase(promotion_queue_.dequeue().key)`
  unfoldable pub evict_from : List (CacheNode K V) → AdaptiveCache K V → Outcome (AdaptiveCache K V)
  evict_from [] c = stops thrown
  evict_from (node ∷ queue) c =
      returns (record c { promotion_queue = queue; cache_store = erase node.key c.cache_store })

  unfoldable pub evict : AdaptiveCache K V → Outcome (AdaptiveCache K V)
  unfolding evict_from
  evict c = evict_from c.promotion_queue c

  unfoldable pub store : K → V → AdaptiveCache K V → AdaptiveCache K V
  store key value c =
      let new_node : CacheNode K V = record { key = key; value = value; frequency = 1 } in
      record c {
        promotion_queue = c.promotion_queue ++ (new_node ∷ []);
        cache_store = insert key new_node c.cache_store;
      }

  unfoldable pub put : K → V → AdaptiveCache K V → Outcome (AdaptiveCache K V)
  unfolding evict store
  put key value c = do
    c' ← if leb c.max_size (length c.cache_store) then evict c else returns c
    returns (store key value c')

  -- `while (cache_store_.size() > new_size)`, on fuel.
  unfoldable pub shrink : ℕ → ℕ → AdaptiveCache K V → Outcome (AdaptiveCache K V)
  unfolding evict
  shrink zero new_size c = stops diverge
  shrink (suc fuel) new_size c =
      let again = evict c >>= shrink fuel new_size in
      if ltb new_size (length c.cache_store) then again else returns c

  unfoldable pub set_max_size : ℕ → AdaptiveCache K V → AdaptiveCache K V
  set_max_size new_size c = record c { max_size = new_size }

  -- The fuel is one more than the queue holds: each round takes a node from it. The code answers `true`.
  unfoldable pub reconfigure : ℕ → AdaptiveCache K V → Outcome (AdaptiveCache K V)
  unfolding set_max_size
  reconfigure new_size c = do
    c' ←
        if ltb new_size (length c.cache_store)
        then shrink (suc (length c.promotion_queue)) new_size c
        else returns c
    returns (set_max_size new_size c')

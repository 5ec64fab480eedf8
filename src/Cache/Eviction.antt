-- ===== src/Cache/Eviction.antt =====
-- `AdaptiveCache` (include/cache/adaptive_cache.h) under any calls, and what it gives up for a new entry.
use cloud_fly_prlatform.Prelude.{
  ℕ, zero, suc, ◌≤◌, ◌<◌, ◌≡◌, ◌≢◌, inl, inr, refl, sym, ap, ◌∙◌, some, arith, leb, ltb, length,
  Outcome, returns, ◌>>=◌, Bool-cases,
}
use cloud_fly_prlatform.Prelude.Maps.{Eq, Map, find, find-insert_self, find-insert_ne}
use cloud_fly_prlatform.Cache.{
  CacheNode, AdaptiveCache, hit, get, store, put, shrink, set_max_size, reconfigure,
}
use cloud_fly_prlatform.Cache.Queue.{Queued, store-Queued, Within, Evicted, evict-Evicted}

module _ {K V : Type 0} ⦃eq : Eq K⦄ where
  unfoldable pub Shrunk : ℕ → AdaptiveCache K V → Outcome (AdaptiveCache K V) → Type 0
  Shrunk new_size c o =
      (c' : AdaptiveCache K V) × (o ≡ returns c')
      × Queued c'
      × (c'.max_size ≡ c.max_size)
      × (length c'.cache_store ≤ new_size)
      × Within c'.cache_store c.cache_store

  Within-refl : (m : Map K (CacheNode K V)) → Within m m
  unfolding Within
  Within-refl m k n e = e

  Within-trans : (a b c : Map K (CacheNode K V)) → Within a b → Within b c → Within a c
  unfolding Within
  Within-trans a b c p q k n e = q k n (p k n e)

  shrink-Shrunk :
      (fuel new_size : ℕ) (c : AdaptiveCache K V)
      → length c.promotion_queue < fuel
      → Queued c
      → Shrunk new_size c (shrink fuel new_size c)
  unfolding shrink Shrunk Evicted
  shrink-Shrunk zero new_size c enough q = elim enough [ ]
  shrink-Shrunk (suc fuel) new_size c enough q =
      elim (Bool-cases (ltb new_size (length c.cache_store))) [
        | inl over ↦
            let (c1, e1, q1, m1, l1, w1) = evict-Evicted c new_size q (ground arith) in
            let (c2, e2, q2, m2, l2, w2) = shrink-Shrunk fuel new_size c1 (omega arith) q1 in
            (
              c2,
              rw over (ap (λ o. o >>= shrink fuel new_size) e1 ∙ e2),
              q2,
              m2 ∙ m1,
              l2,
              Within-trans c2.cache_store c1.cache_store c.cache_store w2 w1,
            )
        | inr fits ↦ (c, rw fits, q, refl, ground arith, Within-refl c.cache_store)
      ]

  -- Where every stored key is in the queue, `reconfigure` comes back with the new size as the bound, with no
  -- more entries than that, each of them an entry that was there, and every stored key is in the queue.
  pub reconfigure-Within :
      (new_size : ℕ) (c : AdaptiveCache K V)
      → Queued c
      → (c' : AdaptiveCache K V) × (reconfigure new_size c ≡ returns c')
        × Queued c'
        × (c'.max_size ≡ new_size)
        × (length c'.cache_store ≤ new_size)
        × Within c'.cache_store c.cache_store
  unfolding reconfigure Shrunk Queued
  reconfigure-Within new_size c q = elim (Bool-cases (ltb new_size (length c.cache_store))) [
    | inl over ↦
        let (c', e, q', m, l, w) =
          shrink-Shrunk (suc (length c.promotion_queue)) new_size c (omega arith) q in
        (
          record c' { max_size = new_size },
          rw over (ap (λ o. o >>= λ d. returns (set_max_size new_size d)) e),
          q',
          refl,
          l,
          w,
        )
    | inr fits ↦ (
      record c { max_size = new_size },
      rw fits,
      q,
      refl,
      ground arith,
      Within-refl c.cache_store,
    )
  ]

  -- A cache of a size above 0, each of whose stored keys is queued, takes a new entry: the call comes back, each
  -- stored key is queued, the key is stored with its value at frequency 1, and `get` answers the value. Every
  -- other entry is one that was there.
  pub put-get :
      (key : K) (value : V) (c : AdaptiveCache K V)
      → Queued c
      → 0 < c.max_size
      → (c' : AdaptiveCache K V) × (put key value c ≡ returns c')
        × Queued c'
        × (c'.max_size ≡ c.max_size)
        × (find key c'.cache_store ≡ some (record { key = key; value = value; frequency = 1 }))
        × ((get key c').0 ≡ some value)
        × ((k : K) (n : CacheNode K V)
            → k ≢ key
            → find k c'.cache_store ≡ some n
            → find k c.cache_store ≡ some n)
  unfolding put store get hit Evicted Within
  put-get key value c q room = elim (Bool-cases (leb c.max_size (length c.cache_store))) [
    | inl full ↦
        let (c1, e1, q1, m1, l1, w1) = evict-Evicted c 0 q (ground arith) in
        let node : CacheNode K V = record { key = key; value = value; frequency = 1 } in
        (
          store key value c1,
          rw full (ap (λ o. o >>= λ d. returns (store key value d)) e1),
          store-Queued key value c1 q1,
          m1,
          find-insert_self key node c1.cache_store,
          ap (λ o. (hit key (store key value c1) o).0) (find-insert_self key node c1.cache_store),
          λ k n ne e. w1 k n (sym (find-insert_ne k key node c1.cache_store ne) ∙ e),
        )
    | inr fits ↦
        let node : CacheNode K V = record { key = key; value = value; frequency = 1 } in
        (
          store key value c,
          rw fits,
          store-Queued key value c q,
          refl,
          find-insert_self key node c.cache_store,
          ap (λ o. (hit key (store key value c) o).0) (find-insert_self key node c.cache_store),
          λ k n ne e. sym (find-insert_ne k key node c.cache_store ne) ∙ e,
        )
  ]

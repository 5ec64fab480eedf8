-- ===== src/Cache/Queue.antt =====
-- The promotion queue of `AdaptiveCache` (include/cache/adaptive_cache.h) knows each key of the store.
use cloud_fly_prlatform.Prelude.{
  ℕ, suc, ◌+◌, ◌<◌, ◌≡◌, ◌⊎◌, inl, inr, refl, sym, ap, subst, ◌∙◌, ◌%◌, ◌^◌, List, [], ◌∷◌, ◌++◌,
  Option, some, none, arith, length, Outcome, returns,
}
use mathlib.Core.Option.{some-injective}
use cloud_fly_prlatform.Prelude.Maps.{
  Eq, key-cases, Map, beq_refl, find, insert, erase, find-insert_self, find-insert_ne,
  find-erase_self, find-erase_ne,
}
use cloud_fly_prlatform.Cache.{CacheNode, AdaptiveCache, hit, evict, evict_from, store}

module _ {K V : Type 0} ⦃eq : Eq K⦄ where
  -- The key of a node in the queue.
  unfoldable pub Listed : K → List (CacheNode K V) → Type 0
  Listed k [] = ⊥
  Listed k (node ∷ queue) = (node.key ≡ k) ⊎ Listed k queue

  Listed-append_left : (k : K) (xs ys : List (CacheNode K V)) → Listed k xs → Listed k (xs ++ ys)
  unfolding Listed
  Listed-append_left k [] ys h = elim h [ ]
  Listed-append_left k (x ∷ xs) ys (inl e) = inl e
  Listed-append_left k (x ∷ xs) ys (inr h) = inr (Listed-append_left k xs ys h)

  Listed-append_last :
      (xs : List (CacheNode K V)) (x : CacheNode K V) → Listed x.key (xs ++ (x ∷ []))
  unfolding Listed
  Listed-append_last [] x = inl refl
  Listed-append_last (y ∷ xs) x = inr (Listed-append_last xs x)

  -- A node is stored under its key, and its key is in the queue.
  unfoldable pub Queued : AdaptiveCache K V → Type 0
  Queued c =
      (k : K) (n : CacheNode K V)
      → find k c.cache_store ≡ some n
      → (n.key ≡ k) × Listed k c.promotion_queue

  -- What `get` and `put` do to a key.
  add-Queued :
      (c : AdaptiveCache K V) (k : K) (node : CacheNode K V)
      → node.key ≡ k
      → Queued c
      → Queued (record c {
        promotion_queue = c.promotion_queue ++ (node ∷ []);
        cache_store = insert k node c.cache_store;
      })
  unfolding Queued
  add-Queued c k node named q j n e = elim (key-cases j k) [
    | inl same ↦
        let n_is : n ≡ node = some-injective n node (
          sym e
          ∙ ap (λ i. find i (insert k node c.cache_store)) same
          ∙ find-insert_self k node c.cache_store) in
        (
          ap (λ (m : CacheNode K V). m.key) n_is ∙ named ∙ sym same,
          subst (λ i. Listed i (c.promotion_queue ++ (node ∷ []))) (named ∙ sym same)
              (Listed-append_last c.promotion_queue node),
        )
    | inr ne ↦
        let (key_is, listed) = q j n (sym (find-insert_ne j k node c.cache_store ne) ∙ e) in
        (key_is, Listed-append_left j c.promotion_queue (node ∷ []) listed)
  ]

  pub hit-Queued :
      (k : K) (c : AdaptiveCache K V) (o : Option (CacheNode K V))
      → find k c.cache_store ≡ o
      → Queued c
      → Queued (hit k c o).1
  unfolding hit Queued
  hit-Queued k c none e q = q
  hit-Queued k c (some old) e q =
      add-Queued c k (record old { frequency = (old.frequency + 1) % 2 ^ 64 }) (q k old e).0 q

  pub store-Queued : (k : K) (v : V) (c : AdaptiveCache K V) → Queued c → Queued (store k v c)
  unfolding store
  store-Queued k v c q = add-Queued c k (record { key = k; value = v; frequency = 1 }) refl q

  -- The entries of the first are entries of the second.
  unfoldable pub Within : Map K (CacheNode K V) → Map K (CacheNode K V) → Type 0
  Within m m' = (k : K) (n : CacheNode K V) → find k m ≡ some n → find k m' ≡ some n

  erase-Within : (k : K) (m : Map K (CacheNode K V)) → Within (erase k m) m
  unfolding Within
  erase-Within k m j n e = elim (key-cases j k) [
    | inl same ↦ absurd (
        let gone = ap (λ i. find i (erase k m)) same ∙ find-erase_self k m in
        ground (arith, e, gone))
    | inr ne ↦ sym (find-erase_ne j k m ne) ∙ e
  ]

  unfoldable pub Evicted : AdaptiveCache K V → Outcome (AdaptiveCache K V) → Type 0
  Evicted c o =
      (c' : AdaptiveCache K V) × (o ≡ returns c')
      × Queued c'
      × (c'.max_size ≡ c.max_size)
      × (suc (length c'.promotion_queue) ≡ length c.promotion_queue)
      × Within c'.cache_store c.cache_store

  evict_from-Evicted :
      (c : AdaptiveCache K V) (queue : List (CacheNode K V)) (k : K) (n : CacheNode K V)
      → c.promotion_queue ≡ queue
      → Queued c
      → find k c.cache_store ≡ some n
      → Evicted c (evict_from queue c)
  unfolding evict_from Queued Listed Evicted Within
  evict_from-Evicted c [] k n e q there = elim (subst (Listed k) e (q k n there).1) [ ]
  evict_from-Evicted c (node ∷ queue) k n e q there = (
    record c { promotion_queue = queue; cache_store = erase node.key c.cache_store },
    refl,
    (λ j m found.
        let old = erase-Within node.key c.cache_store j m found in
        (
          (q j m old).0,
          elim (subst (Listed j) e (q j m old).1) [
            | inl same ↦ absurd (
                let gone =
                  ap (λ i. find i (erase node.key c.cache_store)) (sym same)
                  ∙ find-erase_self node.key c.cache_store in
                ground (arith, found, gone))
            | inr listed ↦ listed
          ],
        )),
    refl,
    sym (ap length e),
    erase-Within node.key c.cache_store,
  )

  entry_of_length :
      (m : Map K (CacheNode K V)) (n : ℕ)
      → n < length m
      → (k : K) × (node : CacheNode K V) × (find k m ≡ some node)
  entry_of_length [] n h = absurd (omega arith)
  entry_of_length ((k, node) ∷ m) n h = (k, node, rw (beq_refl k))

  -- A store that is not empty can give an entry up.
  pub evict-Evicted :
      (c : AdaptiveCache K V) (n : ℕ) → Queued c → n < length c.cache_store → Evicted c (evict c)
  unfolding evict
  evict-Evicted c n q h =
      let (k, node, there) = entry_of_length c.cache_store n h in
      evict_from-Evicted c c.promotion_queue k node refl q there

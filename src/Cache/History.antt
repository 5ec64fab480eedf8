-- ===== src/Cache/History.antt =====
-- Sequences of calls of an `AdaptiveCache` (include/cache/adaptive_cache.h).
use cloud_fly_prlatform.Prelude.{
  ℕ, zero, suc, ◌+◌, ◌<◌, ◌≡◌, ◌≢◌, inl, inr, refl, sym, ap, ◌∙◌, ◌%◌, ◌^◌, List, [], ◌∷◌, ◌++◌,
  some, none, arith, length, replicate, Outcome, returns, ◌>>=◌, Option-cases,
}
use cloud_fly_prlatform.Prelude.Maps.{Eq, beq_refl, beq_ne, find}
use cloud_fly_prlatform.Cache.{
  CacheNode, AdaptiveCache, new_cache, get, evict, store, put, reconfigure,
}
use cloud_fly_prlatform.Cache.Queue.{Queued, hit-Queued}
use cloud_fly_prlatform.Cache.Eviction.{put-get, reconfigure-Within}

pub data Operation (K V : Type 0) : Type 0 where
  gets : K → Operation K V
  puts : K → V → Operation K V
  resizes : ℕ → Operation K V

module _ {K V : Type 0} ⦃eq : Eq K⦄ where
  unfoldable pub perform : Operation K V → AdaptiveCache K V → Outcome (AdaptiveCache K V)
  perform (gets k) c = returns (get k c).1
  perform (puts k v) c = put k v c
  perform (resizes n) c = reconfigure n c

  unfoldable pub run : List (Operation K V) → AdaptiveCache K V → Outcome (AdaptiveCache K V)
  unfolding perform
  run [] c = returns c
  run (op ∷ ops) c = perform op c >>= run ops

  -- No call makes the cache one of size 0.
  abbrev pub Positive : List (Operation K V) → Type 0
  Positive [] = Unit {0}
  Positive (resizes n ∷ ops) = (0 < n) × Positive ops
  Positive (gets k ∷ ops) = Positive ops
  Positive (puts k v ∷ ops) = Positive ops

  abbrev Ready : Outcome (AdaptiveCache K V) → Type 0
  Ready o = (c : AdaptiveCache K V) × (o ≡ returns c) × (0 < c.max_size) × Queued c

  get-max_size : (k : K) (c : AdaptiveCache K V) → (get k c).1.max_size ≡ c.max_size
  unfolding get
  get-max_size k c = elim (Option-cases (find k c.cache_store)) [
    | inl e ↦ rw e refl
    | inr (n, e) ↦ rw e refl
  ]

  perform-Ready :
      (op : Operation K V) (ops : List (Operation K V)) (c : AdaptiveCache K V)
      → Positive (op ∷ ops)
      → 0 < c.max_size
      → Queued c
      → Ready (perform op c) × Positive ops
  unfolding perform get
  perform-Ready (gets k) ops c p h q = (
    (
      (get k c).1,
      refl,
      (let same = get-max_size k c in omega arith),
      hit-Queued k c (find k c.cache_store) refl q,
    ),
    p,
  )
  perform-Ready (puts k v) ops c p h q =
      let (c', e, q', m, stored, found, others) = put-get k v c q h in ((c', e, omega arith, q'), p)
  perform-Ready (resizes n) ops c (pos, p) h q =
      let (c', e, q', m, l, w) = reconfigure-Within n c q in ((c', e, omega arith, q'), p)

  -- A cache that may hold an entry, with every stored key in its queue, comes back from any sequence of calls
  -- that does not make its size 0: none throws for an empty queue, no loop runs on, and every stored key is
  -- in the queue again.
  pub run-Queued :
      (ops : List (Operation K V)) (c : AdaptiveCache K V)
      → Positive ops
      → 0 < c.max_size
      → Queued c
      → (c' : AdaptiveCache K V) × (run ops c ≡ returns c') × (0 < c'.max_size) × Queued c'
  unfolding run
  run-Queued [] c p h q = (c, refl, h, q)
  run-Queued (op ∷ ops) c p h q =
      let ((c1, e1, h1, q1), p1) = perform-Ready op ops c p h q in
      let (c2, e2, h2, q2) = run-Queued ops c1 p1 h1 q1 in
      (c2, ap (λ o. o >>= run ops) e1 ∙ e2, h2, q2)

  -- A new cache of size 1 that is given a key, asked for it, and then given a second and a third key, where the
  -- three keys are different, holds two entries, whatever the values are.
  pub put-exceeds :
      (a b d : K) (u v w : V)
      → a ≢ b
      → a ≢ d
      → b ≢ d
      → (c : AdaptiveCache K V) × (run (puts a u ∷ gets a ∷ puts b v ∷ puts d w ∷ []) (new_cache 1)
          ≡ returns c)
        × (c.max_size ≡ 1)
        × (length c.cache_store ≡ 2)
  unfolding run put get evict store
  put-exceeds a b d u v w ab ad bd = (
    record {
      promotion_queue =
          record { key = b; value = v; frequency = 1 }
          ∷ record { key = d; value = w; frequency = 1 }
          ∷ [];
      cache_store =
          (b, record { key = b; value = v; frequency = 1 })
          ∷ (d, record { key = d; value = w; frequency = 1 })
          ∷ [];
      max_size = 1;
    },
    ground (arith, beq_refl a, beq_ne a b ab, beq_ne d b (λ e. bd (sym e))),
    refl,
    refl,
  )

  -- A cache of size 2 that holds `a` alone, which its queue was given first.
  abbrev holds_one : K → V → List (CacheNode K V) → CacheNode K V → AdaptiveCache K V
  holds_one a u queue node = record {
    promotion_queue = record { key = a; value = u; frequency = 1 } ∷ queue;
    cache_store = (a, node) ∷ [];
    max_size = 2;
  }

  gets-first :
      (n : ℕ) (a : K) (u : V) (queue : List (CacheNode K V)) (node : CacheNode K V)
      (ops : List (Operation K V))
      → (queue' : List (CacheNode K V)) × (node' : CacheNode K V) × (run
            (replicate n (gets a) ++ ops)
            (holds_one a u queue node)
          ≡ run ops (holds_one a u queue' node'))
  unfolding run get
  gets-first zero a u queue node ops = (queue, node, refl)
  gets-first (suc n) a u queue node ops =
      let node1 = record node { frequency = (node.frequency + 1) % 2 ^ 64 } in
      let (queue', node', e) = gets-first n a u (queue ++ (node1 ∷ [])) node1 ops in
      (queue', node', ground (arith, beq_refl a, e))

  -- The entry that is given up is the one that the queue was given first, however often it was used: in a
  -- cache of size 2 the key `a` makes room after any number of `get`s, and `b`, which was never read, stays.
  pub put-evicts_used :
      (n : ℕ) (a b d : K) (u v w : V)
      → a ≢ b
      → a ≢ d
      → b ≢ d
      → (c : AdaptiveCache K V) × (run
            (puts a u ∷ (replicate n (gets a) ++ (puts b v ∷ puts d w ∷ [])))
            (new_cache 2)
          ≡ returns c)
        × (find a c.cache_store ≡ none)
        × (find b c.cache_store ≡ some (record { key = b; value = v; frequency = 1 }))
  unfolding run put get evict store
  put-evicts_used n a b d u v w ab ad bd =
      let (queue, node, e) =
        gets-first n a u [] (record { key = a; value = u; frequency = 1 })
          (puts b v ∷ puts d w ∷ []) in
      let new_b : CacheNode K V = record { key = b; value = v; frequency = 1 } in
      let new_d : CacheNode K V = record { key = d; value = w; frequency = 1 } in
      (
        record {
          promotion_queue = (queue ++ (new_b ∷ [])) ++ (new_d ∷ []);
          cache_store = (b, new_b) ∷ (d, new_d) ∷ [];
          max_size = 2;
        },
        e
            ∙ ground (
              arith,
              beq_refl a,
              beq_ne a b ab,
              beq_ne b a (λ q. ab (sym q)),
              beq_ne d b (λ q. bd (sym q)),
            ),
        ground (arith, beq_ne a b ab, beq_ne a d ad),
        ground (arith, beq_refl b),
      )

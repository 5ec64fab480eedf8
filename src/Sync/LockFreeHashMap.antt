-- ===== src/Sync/LockFreeHashMap.antt =====
-- `LockFreeHashMap` (src/sync/lockfree_structures.cpp), called by one thread at a time: each bucket is a queue of
-- values. `std::hash` is a parameter; keys and values are of one type.
pub mod Tests
use cloud_fly_prlatform.Prelude.{
  ℕ, ◌%◌, ◌≡◌, ◌<◌, arith, Outcome, returns, stops, fault, refl, ap, ◌∙◌, List, [], ◌∷◌, ◌++◌,
  Option, some, none, if◌then◌else◌, ◌==◌, ==_iff,
}

module _ {T : Type 0} (hash : T → ℕ) (bucket_count : ℕ) where
  -- `buckets_`, by index.
  abbrev pub Buckets : Type 0
  Buckets = ℕ → List T

  unfoldable pub bucket_index : T → ℕ
  bucket_index key = hash key % bucket_count

  abbrev change : ℕ → List T → Buckets → Buckets
  change i chain buckets j = if j == i then chain else buckets j

  -- The remainder by a number of buckets of 0 is a fault.
  unfoldable pub in_bucket : {A : Type 0} → T → (ℕ → A) → Outcome A
  unfolding bucket_index
  in_bucket key f = if bucket_count == 0 then stops fault else returns (f (bucket_index key))

  unfoldable pub insert : T → T → Buckets → Outcome Buckets
  unfolding in_bucket
  insert key value buckets = in_bucket key λ i. change i (buckets i ++ (value ∷ [])) buckets

  -- `value = chain.dequeue()`, or `false` where that throws.
  unfoldable pub dequeue_from : ℕ → List T → Buckets → Option T × Buckets
  dequeue_from i [] buckets = (none, buckets)
  dequeue_from i (value ∷ chain) buckets = (some value, change i chain buckets)

  unfoldable pub find : T → Buckets → Outcome (Option T × Buckets)
  unfolding dequeue_from in_bucket
  find key buckets = in_bucket key (λ i. dequeue_from i (buckets i) buckets)

  in_bucket-at :
      {A : Type 0} (key : T) (f : ℕ → A)
      → 0 < bucket_count
      → in_bucket key f ≡ returns (f (bucket_index key))
  unfolding in_bucket
  in_bucket-at key f h = ground (arith, h)

  -- A key is found by any key of its bucket, once: in a map with a bucket at least, where the key's bucket is
  -- empty, after `insert key value` the first `find` of any key `other` of the same bucket answers `value`, and
  -- takes it away, so that the next `find`, of `key` too, finds nothing.
  pub insert-find_other :
      (key other value : T) (buckets : Buckets)
      → 0 < bucket_count
      → bucket_index other ≡ bucket_index key
      → buckets (bucket_index key) ≡ []
      → (filled : Buckets) × (after : Buckets) × (insert key value buckets ≡ returns filled)
        × (find other filled ≡ returns (some value, after))
        × (find key after ≡ returns (none, after))
        × (find other after ≡ returns (none, after))
  unfolding insert find
  insert-find_other key other value buckets pos same free =
      let i = bucket_index key in
      let filled : Buckets = change i (buckets i ++ (value ∷ [])) buckets in
      let at : filled i ≡ value ∷ [] = rw (free, (==_iff i i).1 refl) refl in
      let after : Buckets = change i [] filled in
      let gone : after i ≡ [] = rw ((==_iff i i).1 refl) refl in
      let search : Buckets → ℕ → Option T × Buckets = λ b k. dequeue_from k (b k) b in
      let found : search filled i ≡ (some value, after) = ap (λ c. dequeue_from i c filled) at in
      let nothing : search after i ≡ (none, after) = ap (λ c. dequeue_from i c after) gone in
      (
        filled,
        after,
        in_bucket-at key (λ k. change k (buckets k ++ (value ∷ [])) buckets) pos,
        in_bucket-at other (search filled) pos ∙ ap returns (ap (search filled) same ∙ found),
        in_bucket-at key (search after) pos ∙ ap returns nothing,
        in_bucket-at other (search after) pos ∙ ap returns (ap (search after) same ∙ nothing),
      )

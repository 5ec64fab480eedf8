-- ===== src/Sync/LockFreeHashMap/Tests.antt =====
-- A map of src/sync/lockfree_structures.cpp with eight buckets and numbers as keys.
use cloud_fly_prlatform.Prelude.{ℕ, ◌≡◌, refl, arith, returns, [], some, none}
use cloud_fly_prlatform.Sync.LockFreeHashMap.{
  Buckets, bucket_index, insert, find, insert-find_other,
}

abbrev identity : ℕ → ℕ
identity n = n

-- The keys 3 and 11 share a bucket.
insert-find_other_example :
    (filled : Buckets identity 8) × (after : Buckets identity 8) × (insert identity 8 3 30 (λ i. [])
      ≡ returns filled)
    × (find identity 8 11 filled ≡ returns (some 30, after))
    × (find identity 8 3 after ≡ returns (none, after))
    × (find identity 8 11 after ≡ returns (none, after))
unfolding bucket_index
insert-find_other_example = insert-find_other identity 8 3 11 30 (λ i. []) (omega arith) refl refl

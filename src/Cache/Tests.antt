-- ===== src/Cache/Tests.antt =====
-- The cache of include/cache/adaptive_cache.h with numbers as keys and values, and the mapped file.
use cloud_fly_prlatform.Prelude.{
  ℕ, inl, inr, ℕ_discrete, ◌≤◌, ◌<◌, ◌≡◌, ◌≢◌, refl, [], ◌∷◌, ◌++◌, some, none, arith, length,
  replicate, take, drop, returns, stops, fault,
}
use cloud_fly_prlatform.Prelude.Maps.{nat_eq, find}
use cloud_fly_prlatform.Cache.{CacheNode, AdaptiveCache, new_cache, get, put, shrink, reconfigure}
use cloud_fly_prlatform.Cache.Queue.{Queued, Within, Listed}
use cloud_fly_prlatform.Cache.Eviction.{put-get, reconfigure-Within}
use cloud_fly_prlatform.Cache.History.{
  gets, puts, resizes, run, run-Queued, put-exceeds, put-evicts_used,
}
use cloud_fly_prlatform.Cache.Backend.{NvmBackend, write, read, write-read, write-wraps}

abbrev empty : AdaptiveCache ℕ ℕ
empty = new_cache 2

empty-Queued : Queued empty
unfolding Queued
empty-Queued k n e = absurd (ground arith)

run-Queued_example :
    (c' : AdaptiveCache ℕ ℕ) × (run
        (puts 1 10 ∷ gets 1 ∷ puts 2 20 ∷ resizes 1 ∷ puts 3 30 ∷ [])
        empty
      ≡ returns c')
    × (0 < c'.max_size)
    × Queued c'
run-Queued_example =
    run-Queued (puts 1 10 ∷ gets 1 ∷ puts 2 20 ∷ resizes 1 ∷ puts 3 30 ∷ []) empty (omega arith)
      (omega arith) empty-Queued

put-get_example :
    (c' : AdaptiveCache ℕ ℕ) × (put 7 70 empty ≡ returns c')
    × Queued c'
    × (c'.max_size ≡ 2)
    × (find 7 c'.cache_store ≡ some (record { key = 7; value = 70; frequency = 1 }))
    × ((get 7 c').0 ≡ some 70)
    × ((k : ℕ) (n : CacheNode ℕ ℕ)
        → k ≢ 7
        → find k c'.cache_store ≡ some n
        → find k empty.cache_store ≡ some n)
put-get_example = put-get 7 70 empty empty-Queued (omega arith)

-- Two entries, of which the first was used.
abbrev pair : AdaptiveCache ℕ ℕ
pair = record {
  promotion_queue =
      record { key = 1; value = 10; frequency = 1 }
      ∷ record { key = 2; value = 20; frequency = 1 }
      ∷ record { key = 1; value = 10; frequency = 2 }
      ∷ [];
  cache_store =
      (1, record { key = 1; value = 10; frequency = 2 })
      ∷ (2, record { key = 2; value = 20; frequency = 1 })
      ∷ [];
  max_size = 2;
}

pair-Queued : Queued pair
unfolding Queued Listed
pair-Queued k n e = elim (ℕ_discrete 1 k) [
  | yes one ↦ (ground arith, inl one)
  | no other ↦ elim (ℕ_discrete 2 k) [
    | yes two ↦ (ground arith, inr (inl two))
    | no more ↦ absurd (ground arith)
  ]
]

reconfigure_runs :
    reconfigure 1 pair
    ≡ returns (record {
      promotion_queue =
          record { key = 2; value = 20; frequency = 1 }
          ∷ record { key = 1; value = 10; frequency = 2 }
          ∷ [];
      cache_store = (2, record { key = 2; value = 20; frequency = 1 }) ∷ [];
      max_size = 1;
    })
unfolding reconfigure shrink
reconfigure_runs = refl

reconfigure-Within_example :
    (c' : AdaptiveCache ℕ ℕ) × (reconfigure 1 pair ≡ returns c')
    × Queued c'
    × (c'.max_size ≡ 1)
    × (length c'.cache_store ≤ 1)
    × Within c'.cache_store pair.cache_store
reconfigure-Within_example = reconfigure-Within 1 pair pair-Queued

put-exceeds_example :
    (c : AdaptiveCache ℕ ℕ) × (run (puts 1 10 ∷ gets 1 ∷ puts 2 20 ∷ puts 3 30 ∷ []) (new_cache 1)
      ≡ returns c)
    × (c.max_size ≡ 1)
    × (length c.cache_store ≡ 2)
put-exceeds_example =
    put-exceeds 1 2 3 10 20 30 (λ e. omega arith) (λ e. omega arith) (λ e. omega arith)

put-evicts_used_example :
    (c : AdaptiveCache ℕ ℕ) × (run
        (puts 1 10 ∷ (replicate 5 (gets 1) ++ (puts 2 20 ∷ puts 3 30 ∷ [])))
        (new_cache 2)
      ≡ returns c)
    × (find 1 c.cache_store ≡ none)
    × (find 2 c.cache_store ≡ some (record { key = 2; value = 20; frequency = 1 }))
put-evicts_used_example =
    put-evicts_used 5 1 2 3 10 20 30 (λ e. omega arith) (λ e. omega arith) (λ e. omega arith)

abbrev four_bytes : NvmBackend
four_bytes = record { mapped = 1 ∷ 2 ∷ 3 ∷ 4 ∷ [] }

write-read_example :
    (b' : NvmBackend) × (write (8 ∷ 9 ∷ []) 1 four_bytes ≡ returns b')
    × (length b'.mapped ≡ 4)
    × (read 2 1 b' ≡ returns (8 ∷ 9 ∷ []))
    × (take 1 b'.mapped ≡ 1 ∷ [])
    × (drop 3 b'.mapped ≡ 4 ∷ [])
write-read_example = write-read (8 ∷ 9 ∷ []) 1 four_bytes (omega arith) (omega arith)

write-wraps_runs :
    (write (8 ∷ 9 ∷ []) 18446744073709551615 four_bytes ≡ stops fault)
    × (read 2 18446744073709551615 four_bytes ≡ stops fault)
write-wraps_runs =
    write-wraps (8 ∷ 9 ∷ []) 18446744073709551615 four_bytes (omega arith) (omega arith)
      (omega arith)

-- ===== src/Cache/Backend.antt =====
-- `NVMBackend` (src/cache/adaptive_cache.cpp): reads and writes of the mapped file. `pmem_memcpy` copies.
use cloud_fly_prlatform.Prelude.{
  ℕ, ◌+◌, ◌%◌, ◌^◌, ◌≤◌, ◌<◌, ◌≡◌, List, arith, ltb, leb, length, take, drop, if◌then◌else◌,
  Outcome, returns, stops, fault, thrown,
}
use cloud_fly_prlatform.Prelude.Slices.{
  slice, overwrite, slice-overwrite, take-overwrite, drop-overwrite, length-overwrite,
}

-- The bytes that are mapped; `mapped_size_` is how many.
pub record NvmBackend : Type 0 where
  pub mapped : List ℕ

-- `if (offset + size > mapped_size_) throw`, where the sum is a `size_t`; a copy past the end faults.
unfoldable pub checked : {A : Type 0} → ℕ → ℕ → NvmBackend → Outcome A → Outcome A
checked size offset b copy =
    if ltb (length b.mapped) ((offset + size) % 2 ^ 64)
    then stops thrown
    else if leb (offset + size) (length b.mapped)
    then copy
    else stops fault

unfoldable pub write : List ℕ → ℕ → NvmBackend → Outcome NvmBackend
unfolding checked
write bytes offset b =
    checked (length bytes) offset b (returns (record { mapped = overwrite b.mapped offset bytes }))

unfoldable pub read : ℕ → ℕ → NvmBackend → Outcome (List ℕ)
unfolding checked
read size offset b = checked size offset b (returns (slice b.mapped offset size))

-- A write that fits in a mapping of less than 2 ^ 64 bytes is read back, leaves the
-- mapping as long, and changes nothing before or after it.
pub write-read :
    (bytes : List ℕ) (offset : ℕ) (b : NvmBackend)
    → offset + length bytes ≤ length b.mapped
    → length b.mapped < 2 ^ 64
    → (b' : NvmBackend) × (write bytes offset b ≡ returns b')
      × (length b'.mapped ≡ length b.mapped)
      × (read (length bytes) offset b' ≡ returns bytes)
      × (take offset b'.mapped ≡ take offset b.mapped)
      × (drop (offset + length bytes) b'.mapped ≡ drop (offset + length bytes) b.mapped)
unfolding write read
write-read bytes offset b fits small =
    let same : length (overwrite b.mapped offset bytes) ≡ length b.mapped =
      length-overwrite b.mapped offset bytes in
    (
      record { mapped = overwrite b.mapped offset bytes },
      ground arith,
      same,
      ground (arith, slice-overwrite b.mapped offset bytes, same),
      take-overwrite b.mapped offset bytes offset (omega arith),
      drop-overwrite b.mapped offset bytes (offset + length bytes) (omega arith),
    )

-- The sum in the guard wraps around: a write far outside the mapping passes it, and faults.
pub write-wraps :
    (bytes : List ℕ) (offset : ℕ) (b : NvmBackend)
    → 2 ^ 64 ≤ offset + length bytes
    → offset + length bytes ≤ 2 ^ 64 + length b.mapped
    → length b.mapped < 2 ^ 64
    → (write bytes offset b ≡ stops fault) × (read (length bytes) offset b ≡ stops fault)
unfolding write read
write-wraps bytes offset b over under small = (ground arith, ground arith)

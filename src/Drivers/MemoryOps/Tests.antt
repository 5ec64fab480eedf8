-- ===== src/Drivers/MemoryOps/Tests.antt =====
-- The copy and alignment functions at concrete inputs.
use cloud_fly_prlatform.Prelude.{
  ◌+◌, ◌%◌, ◌≤◌, ◌<◌, ◌≡◌, refl, [], ◌∷◌, arith, returns, stops, fault, inl, replicate,
}
use cloud_fly_prlatform.Drivers.MemoryOps.{
  memcpy, memcpy_avx2, load, store, align_ptr, get_alignment_offset,
}
use cloud_fly_prlatform.Drivers.MemoryOps.Copy.{memcpy_avx2-memcpy, memcpy_avx2-misaligned}
use cloud_fly_prlatform.Drivers.MemoryOps.Alignment.{align_ptr-offset}

memcpy_runs : memcpy 2 (1 ∷ 2 ∷ 3 ∷ []) 1 (7 ∷ 8 ∷ []) 0 ≡ returns (1 ∷ 7 ∷ 8 ∷ [])
unfolding memcpy load store
memcpy_runs = refl

memcpy_outside : memcpy 3 (1 ∷ 2 ∷ 3 ∷ []) 1 (7 ∷ 8 ∷ 9 ∷ []) 0 ≡ stops fault
unfolding memcpy load store
memcpy_outside = refl

align_ptr_runs : (align_ptr 13 8 ≡ 16) × (get_alignment_offset 13 8 ≡ 3)
unfolding align_ptr get_alignment_offset
align_ptr_runs = (refl, refl)

memcpy_avx2-memcpy_runs :
    memcpy_avx2 64 128 40 (replicate 40 0) 0 (replicate 40 7) 0
    ≡ memcpy 40 (replicate 40 0) 0 (replicate 40 7) 0
memcpy_avx2-memcpy_runs =
    memcpy_avx2-memcpy 64 128 40 (replicate 40 0) 0 (replicate 40 7) 0 refl refl

memcpy_avx2_off_boundary : memcpy_avx2 64 128 32 (replicate 40 0) 5 (replicate 40 7) 0 ≡ stops fault
memcpy_avx2_off_boundary =
    memcpy_avx2-misaligned 64 128 32 (replicate 40 0) 5 (replicate 40 7) 0 (omega arith)
      (inl (omega arith))

align_ptr-offset_runs :
    (13 ≤ align_ptr 13 8)
    × (align_ptr 13 8 < 13 + 8)
    × (align_ptr 13 8 % 8 ≡ 0)
    × (13 + get_alignment_offset 13 8 ≡ align_ptr 13 8)
align_ptr-offset_runs = align_ptr-offset 3 13 (omega arith) (omega arith)

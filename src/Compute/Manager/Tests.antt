-- ===== src/Compute/Manager/Tests.antt =====
-- Runs of the kernels of src/compute/compute_manager.cpp, on bytes that are added modulo 256.
use cloud_fly_prlatform.Prelude.{ℕ, ◌+◌, ◌*◌, ◌≡◌, refl, arith, List, replicate, returns, ◌++◌}
use cloud_fly_prlatform.Compute.Lanes.{Written}
use cloud_fly_prlatform.Compute.Manager.{
  Element, float, int32, simd_add_avx2, simd_add_neon, simd_add_plain, simd_multiply_avx2,
  simd_multiply_neon, simd_multiply_plain, simd_sum_avx2, simd_sum_neon, simd_sum_plain,
  simd_dot_product_avx2, simd_dot_product_neon, simd_dot_product_plain,
}
use cloud_fly_prlatform.Compute.Manager.Kernels.{
  simd_multiply-plain, simd_add-plain, simd_add_avx2-Written, computed,
}
use cloud_fly_prlatform.Compute.Manager.Reductions.{simd_sum-total, simd_dot_product-total, total}
use cloud_fly_prlatform.Compute.Blocks.{simd}
use cloud_fly_prlatform.Compute.Lanes.{lanes, scalar_loop}
use cloud_fly_prlatform.Prelude.Slices.{overwrite}

abbrev ones : List ℕ
ones = replicate 18 1

abbrev threes : List ℕ
threes = replicate 18 3

abbrev blank : List ℕ
blank = replicate 18 0

simd_multiply-plain_runs :
    (simd_multiply_avx2 ◌+◌ ◌*◌ float ones threes 18 blank
      ≡ simd_multiply_plain ◌+◌ ◌*◌ ones threes 18 blank)
    × (simd_multiply_neon ◌+◌ ◌*◌ float ones threes 18 blank
        ≡ simd_multiply_plain ◌+◌ ◌*◌ ones threes 18 blank)
simd_multiply-plain_runs =
    simd_multiply-plain ◌+◌ ◌*◌ float ones threes 18 blank (omega arith) (omega arith) (omega arith)

simd_add-plain_runs :
    (simd_add_avx2 ◌+◌ ◌*◌ float ones threes 18 blank ≡ simd_add_plain ◌+◌ ◌*◌ ones threes 18 blank)
    × (simd_add_avx2 ◌+◌ ◌*◌ Element.double ones threes 18 blank
        ≡ simd_add_plain ◌+◌ ◌*◌ ones threes 18 blank)
    × (simd_add_neon ◌+◌ ◌*◌ int32 ones threes 18 blank
        ≡ simd_add_plain ◌+◌ ◌*◌ ones threes 18 blank)
simd_add-plain_runs =
    simd_add-plain ◌+◌ ◌*◌ int32 ones threes 18 blank (omega arith) (omega arith) (omega arith)

-- Half of the block of sixteen is left as it was.
simd_add_avx2_gap :
    simd_add_avx2 ◌+◌ ◌*◌ int32 ones threes 18 blank
    ≡ returns (replicate 8 4 ++ (replicate 8 0 ++ replicate 2 4))
unfolding simd_add_avx2 simd lanes scalar_loop overwrite
simd_add_avx2_gap = refl

simd_add_avx2-Written_example :
    (dst' : List ℕ) × (simd_add_avx2 ◌+◌ ◌*◌ int32 ones threes 18 blank ≡ returns dst')
    × Written ◌+◌ ones threes (computed ◌+◌ ◌*◌ 18) blank dst'
simd_add_avx2-Written_example =
    simd_add_avx2-Written ◌+◌ ◌*◌ ones threes 18 blank (omega arith) (omega arith) (omega arith)

simd_sum-total_runs :
    (simd_sum_avx2 ◌+◌ 0 float threes 18 ≡ returns 54)
    × (simd_sum_neon ◌+◌ 0 float threes 18 ≡ returns 54)
    × (simd_sum_plain ◌+◌ 0 threes 18 ≡ returns 54)
unfolding total
simd_sum-total_runs =
    simd_sum-total ◌+◌ 0 (λ x y z. omega arith) (λ x y. omega arith) (λ x. omega arith) float threes
      18 (omega arith)

simd_dot_product-total_example :
    (simd_dot_product_avx2 ◌+◌ ◌*◌ 0 float ones threes 18 ≡ returns 54)
    × (simd_dot_product_neon ◌+◌ ◌*◌ 0 float ones threes 18 ≡ returns 54)
    × (simd_dot_product_plain ◌+◌ ◌*◌ 0 ones threes 18 ≡ returns 54)
unfolding total
simd_dot_product-total_example =
    simd_dot_product-total ◌+◌ 0 (λ x y z. omega arith) (λ x y. omega arith) (λ x. omega arith) ◌*◌
      float ones threes 18 (omega arith) (omega arith)

-- ===== src/Compute/Manager.antt =====
-- `ComputeManager::simdAdd`, `simdMultiply`, `simdSum` and `simdDotProduct` of src/compute/compute_manager.cpp,
-- for x86_64, for aarch64 and for other processors. `T` is `float`, `double` or an integral type of 32 bits,
-- `dst` lies in another block of memory than the sources, and the arithmetic of `T` is a parameter.
pub mod Kernels
pub mod Reductions
pub mod Tests
use cloud_fly_prlatform.Prelude.{
  ℕ, zero, suc, ◌+◌, ◌-◌, List, [], ◌∷◌, leb, if◌then◌else◌, replicate, Outcome, returns, stops,
  diverge, ◌>>=◌, ◌>>◌,
}
use cloud_fly_prlatform.Compute.Lanes.{load, zip_with, scalar_loop}
use cloud_fly_prlatform.Compute.Blocks.{simd}

-- The cases of `if constexpr` on `T`.
pub data Element : Type 0 where
  float double int32 : Element

module _ {ℓ} {A : Type ℓ} (add mul : A → A → A) where
  unfoldable pub simd_add_avx2 : Element → List A → List A → ℕ → List A → Outcome (List A)
  simd_add_avx2 Element.float a b count dst = simd add 8 8 a b count dst
  simd_add_avx2 Element.double a b count dst = simd add 4 4 a b count dst
  simd_add_avx2 Element.int32 a b count dst = simd add 8 16 a b count dst

  unfoldable pub simd_multiply_avx2 : Element → List A → List A → ℕ → List A → Outcome (List A)
  simd_multiply_avx2 Element.float a b count dst = simd mul 8 8 a b count dst
  simd_multiply_avx2 Element.double a b count dst = simd mul 4 4 a b count dst
  simd_multiply_avx2 Element.int32 a b count dst = simd mul 8 8 a b count dst

  unfoldable pub simd_add_neon : Element → List A → List A → ℕ → List A → Outcome (List A)
  simd_add_neon Element.float a b count dst = simd add 4 4 a b count dst
  simd_add_neon Element.double a b count dst = simd add 2 2 a b count dst
  simd_add_neon Element.int32 a b count dst = simd add 4 4 a b count dst

  unfoldable pub simd_multiply_neon : Element → List A → List A → ℕ → List A → Outcome (List A)
  simd_multiply_neon Element.float a b count dst = simd mul 4 4 a b count dst
  simd_multiply_neon Element.double a b count dst = simd mul 2 2 a b count dst
  simd_multiply_neon Element.int32 a b count dst = simd mul 4 4 a b count dst

  unfoldable pub simd_add_plain : List A → List A → ℕ → List A → Outcome (List A)
  simd_add_plain a b count dst = scalar_loop add count a b 0 dst

  unfoldable pub simd_multiply_plain : List A → List A → ℕ → List A → Outcome (List A)
  simd_multiply_plain a b count dst = scalar_loop mul count a b 0 dst

-- The elements to add at an index, so many of them: what one round of a reduction loads.
abbrev pub Terms {ℓ} : Type ℓ → Type ℓ
Terms A = ℕ → ℕ → Outcome (List A)

module _ {ℓ} {A : Type ℓ} (add : A → A → A) where
  -- `for (int j = 0; j < w; ++j) result += temp[j];`
  unfoldable pub add_lanes : A → List A → A
  add_lanes result [] = result
  add_lanes result (x ∷ temp) = add_lanes (add result x) temp

  -- `for (; i + w <= count; i += w) sum = add(sum, …)`: where it stopped, and the register.
  unfoldable pub accumulate : ℕ → ℕ → Terms A → ℕ → ℕ → List A → Outcome (ℕ × List A)
  accumulate zero w terms count i sum = stops diverge
  accumulate (suc fuel) w terms count i sum =
      let rest = terms w i >>= λ v. accumulate fuel w terms count (i + w) (zip_with add sum v) in
      if leb (i + w) count then rest else returns (i, sum)

  -- `for (; i < count; ++i) result += …;`, where `k` elements are left.
  unfoldable pub accumulate_tail : ℕ → Terms A → ℕ → A → Outcome A
  unfolding add_lanes
  accumulate_tail zero terms i result = returns result
  accumulate_tail (suc k) terms i result =
      terms 1 i >>= λ v. accumulate_tail k terms (suc i) (add_lanes result v)

  unfoldable pub finish : Terms A → ℕ → A → ℕ × List A → Outcome A
  unfolding accumulate_tail add_lanes
  finish terms count zero_value stopped = do
    result ← accumulate_tail (count - stopped.0) terms stopped.0 zero_value
    returns (add_lanes result stopped.1)

  unfoldable pub reduce : ℕ → Terms A → ℕ → A → Outcome A
  unfolding accumulate finish
  reduce w terms count zero_value =
      accumulate (suc count) w terms count 0 (replicate w zero_value)
      >>= finish terms count zero_value

module _ {ℓ} {A : Type ℓ} (add : A → A → A) (zero_value : A) where
  abbrev pub elements : List A → Terms A
  elements xs w i = load w xs i

  unfoldable pub simd_sum_avx2 : Element → List A → ℕ → Outcome A
  simd_sum_avx2 Element.float xs count = reduce add 8 (elements xs) count zero_value
  simd_sum_avx2 Element.double xs count = reduce add 4 (elements xs) count zero_value
  simd_sum_avx2 Element.int32 xs count = reduce add 8 (elements xs) count zero_value

  unfoldable pub simd_sum_neon : Element → List A → ℕ → Outcome A
  simd_sum_neon Element.float xs count = reduce add 4 (elements xs) count zero_value
  simd_sum_neon Element.double xs count = reduce add 2 (elements xs) count zero_value
  simd_sum_neon Element.int32 xs count = reduce add 4 (elements xs) count zero_value

  unfoldable pub simd_sum_plain : List A → ℕ → Outcome A
  simd_sum_plain xs count = accumulate_tail add count (elements xs) 0 zero_value

module _ {ℓ} {A : Type ℓ} (add mul : A → A → A) (zero_value : A) where
  unfoldable pub products : List A → List A → Terms A
  unfolding load
  products a b w i = do va ← load w a i; vb ← load w b i; returns (zip_with mul va vb)

  unfoldable pub simd_dot_product_avx2 : Element → List A → List A → ℕ → Outcome A
  unfolding products
  simd_dot_product_avx2 Element.float a b count = reduce add 8 (products a b) count zero_value
  simd_dot_product_avx2 Element.double a b count = reduce add 4 (products a b) count zero_value
  simd_dot_product_avx2 Element.int32 a b count = reduce add 8 (products a b) count zero_value

  unfoldable pub simd_dot_product_neon : Element → List A → List A → ℕ → Outcome A
  unfolding products
  simd_dot_product_neon Element.float a b count = reduce add 4 (products a b) count zero_value
  simd_dot_product_neon Element.double a b count = reduce add 2 (products a b) count zero_value
  simd_dot_product_neon Element.int32 a b count = reduce add 4 (products a b) count zero_value

  unfoldable pub simd_dot_product_plain : List A → List A → ℕ → Outcome A
  unfolding products
  simd_dot_product_plain a b count = accumulate_tail add count (products a b) 0 zero_value

-- ===== src/Compute/Manager/Kernels.antt =====
-- What `simdAdd` and `simdMultiply` of src/compute/compute_manager.cpp compute on each processor.
use cloud_fly_prlatform.Prelude.{
  ℕ, ◌≤◌, ◌*◌, ◌/◌, ◌%◌, Bool, ◌&&◌, ◌||◌, leb, ltb, ◌≡◌, List, arith, length, returns,
}
use cloud_fly_prlatform.Compute.Lanes.{Written, Written-cong}
use native.Mathlib.Nat.{div-mul-le_self}
use cloud_fly_prlatform.Compute.Blocks.{simd-scalar_loop, simd-Written, hit_from}
use cloud_fly_prlatform.Compute.Manager.{
  Element, simd_add_avx2, simd_multiply_avx2, simd_add_neon, simd_multiply_neon, simd_add_plain,
  simd_multiply_plain,
}

module _ {ℓ} {A : Type ℓ} (add mul : A → A → A) where
  -- With `count` elements in all three arrays, multiplication with registers has the outcome of the plain
  -- loop, on x86_64 and on aarch64, for every element type.
  pub simd_multiply-plain :
      (element : Element) (a b : List A) (count : ℕ) (dst : List A)
      → count ≤ length a
      → count ≤ length b
      → count ≤ length dst
      → (simd_multiply_avx2 add mul element a b count dst
          ≡ simd_multiply_plain add mul a b count dst)
        × (simd_multiply_neon add mul element a b count dst
            ≡ simd_multiply_plain add mul a b count dst)
  unfolding simd_multiply_avx2 simd_multiply_neon simd_multiply_plain
  simd_multiply-plain Element.float a b count dst ha hb hd = (
    simd-scalar_loop mul 8 a b count dst (omega arith) ha hb hd,
    simd-scalar_loop mul 4 a b count dst (omega arith) ha hb hd,
  )
  simd_multiply-plain Element.double a b count dst ha hb hd = (
    simd-scalar_loop mul 4 a b count dst (omega arith) ha hb hd,
    simd-scalar_loop mul 2 a b count dst (omega arith) ha hb hd,
  )
  simd_multiply-plain Element.int32 a b count dst ha hb hd = (
    simd-scalar_loop mul 8 a b count dst (omega arith) ha hb hd,
    simd-scalar_loop mul 4 a b count dst (omega arith) ha hb hd,
  )

  -- With `count` elements in all three arrays, addition of floating-point elements with registers has the
  -- outcome of the plain loop on x86_64, and that of any elements on aarch64.
  pub simd_add-plain :
      (element : Element) (a b : List A) (count : ℕ) (dst : List A)
      → count ≤ length a
      → count ≤ length b
      → count ≤ length dst
      → (simd_add_avx2 add mul Element.float a b count dst ≡ simd_add_plain add mul a b count dst)
        × (simd_add_avx2 add mul Element.double a b count dst
            ≡ simd_add_plain add mul a b count dst)
        × (simd_add_neon add mul element a b count dst ≡ simd_add_plain add mul a b count dst)
  unfolding simd_add_avx2 simd_add_neon simd_add_plain
  simd_add-plain element a b count dst ha hb hd = (
    simd-scalar_loop add 8 a b count dst (omega arith) ha hb hd,
    simd-scalar_loop add 4 a b count dst (omega arith) ha hb hd,
    neon element,
  )
    where
      neon :
          (e : Element)
          → simd_add_neon add mul e a b count dst ≡ simd_add_plain add mul a b count dst
      neon Element.float = simd-scalar_loop add 4 a b count dst (omega arith) ha hb hd
      neon Element.double = simd-scalar_loop add 2 a b count dst (omega arith) ha hb hd
      neon Element.int32 = simd-scalar_loop add 4 a b count dst (omega arith) ha hb hd

  -- The places that the addition of integers of 32 bits on x86_64 fills: its loop goes on by sixteen elements and its
  -- register has eight.
  pub computed : ℕ → ℕ → Bool
  computed count j = ltb j count && (leb (count / 16 * 16) j || ltb (j % 16) 8)

  -- The addition of `count` integers of 32 bits on x86_64, where both operands and `dst` have as many elements,
  -- returns, with a sum where the element's number in its block of
  -- sixteen is below eight and after the last whole block; all other elements of `dst` are as they were.
  pub simd_add_avx2-Written :
      (a b : List A) (count : ℕ) (dst : List A)
      → count ≤ length a
      → count ≤ length b
      → count ≤ length dst
      → (dst' : List A) × (simd_add_avx2 add mul Element.int32 a b count dst ≡ returns dst')
        × Written add a b (computed count) dst dst'
  unfolding simd_add_avx2 hit_from computed
  simd_add_avx2-Written a b count dst ha hb hd =
      let (r, e, w) = simd-Written add 8 16 a b count dst (omega arith) (omega arith) ha hb hd in
      (
        r,
        e,
        Written-cong add (hit_from add 8 16 count 0) (computed count)
            (λ j. grind (arith, div-mul-le_self count 16)) w,
      )

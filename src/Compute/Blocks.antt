-- ===== src/Compute/Blocks.antt =====
-- The loops of `simdAdd` and `simdMultiply` of src/compute/compute_manager.cpp: registers while a whole
-- stride is left, then one element at a time.
use cloud_fly_prlatform.Prelude.{
  ℕ, zero, suc, ◌+◌, ◌-◌, ◌*◌, ◌/◌, ◌%◌, ◌≤◌, ◌<◌, ◌≡◌, ap, ◌∙◌, Bool, true, ◌&&◌, ◌||◌, List,
  arith, dec_lt, length, get_elem?, leb, ltb, if◌then◌else◌, Outcome, returns, stops, diverge,
  ◌>>=◌, Bool-cases, get_elem?_ext, sym, leb→le, inl, inr,
}
use cloud_fly_prlatform.Compute.Lanes.{
  lanes, scalar_loop, Written, Written-trans, Written-cong, between, both, lanes-Written,
  scalar_loop-Written,
}
use native.Mathlib.Nat.{
  div-eq-sub-div, mod-eq-sub-mod, div-eq_of_lt, mod-lt, div-mul-le_self, mod-eq_of_lt,
}

module _ {ℓ} {A : Type ℓ} (f : A → A → A) where
  -- `for (; i + stride <= count; i += stride)` with a register of `w` elements: where it stopped, and `dst`.
  unfoldable pub vector_loop : ℕ → ℕ → ℕ → List A → List A → ℕ → ℕ → List A → Outcome (ℕ × List A)
  vector_loop zero w stride a b count i dst = stops diverge
  vector_loop (suc fuel) w stride a b count i dst =
      let rest = lanes f w a b i dst >>= vector_loop fuel w stride a b count (i + stride) in
      if leb (i + stride) count then rest else returns (i, dst)

  abbrev remainder : List A → List A → ℕ → ℕ × List A → Outcome (List A)
  remainder a b count p = scalar_loop f (count - p.0) a b p.0 p.1

  unfoldable pub simd : ℕ → ℕ → List A → List A → ℕ → List A → Outcome (List A)
  unfolding vector_loop
  simd w stride a b count dst =
      vector_loop (suc count) w stride a b count 0 dst >>= remainder a b count

  -- The elements from `i` on that a loop with this register and this stride computes, and its remainder.
  unfoldable pub hit_from : ℕ → ℕ → ℕ → ℕ → ℕ → Bool
  hit_from w stride count i j =
      leb i j
      && (if ltb (j - i) ((count - i) / stride * stride)
          then ltb ((j - i) % stride) w
          else ltb j count)

  blocks-suc :
      (stride k : ℕ)
      → 0 < stride
      → stride ≤ k
      → k / stride * stride ≡ (k - stride) / stride * stride + stride
  blocks-suc stride k hs h = ap (λ q. q * stride) (div-eq-sub-div hs h) ∙ grind arith

  -- What is left of `hit_from` when the quotients and the remainders are named.
  hit : ℕ → ℕ → ℕ → ℕ → ℕ → ℕ → ℕ → Bool
  hit blocks lane w count i offset j =
      leb i j && (if ltb offset blocks then ltb lane w else ltb j count)

  hit-near :
      (w stride count i j blocks lane lane' : ℕ)
      → w ≤ stride
      → j < i + stride
      → (leb i j ≡ true → lane ≡ j - i)
      → (between f i (i + w) j || hit blocks lane' w count (i + stride) (j - i - stride) j)
        ≡ hit (blocks + stride) lane w count i (j - i) j
  unfolding hit between
  hit-near w stride count i j blocks lane lane' hw lt e = ground arith

  hit-far :
      (w stride count i j blocks lane : ℕ)
      → w ≤ stride
      → i + stride ≤ j
      → (between f i (i + w) j || hit blocks lane w count (i + stride) (j - i - stride) j)
        ≡ hit (blocks + stride) lane w count i (j - i) j
  unfolding hit between
  hit-far w stride count i j blocks lane hw ge = ground arith

  hit_from-step :
      (w stride count i j : ℕ)
      → 0 < stride
      → w ≤ stride
      → i + stride ≤ count
      → (between f i (i + w) j || hit_from w stride count (i + stride) j)
        ≡ hit_from w stride count i j
  unfolding hit_from hit
  hit_from-step w stride count i j hs hw h =
      let e = blocks-suc stride (count - i) hs (omega arith) in
      let m : count - (i + stride) ≡ count - i - stride = omega arith in
      let n : j - (i + stride) ≡ j - i - stride = omega arith in
      let blocks = (count - i - stride) / stride * stride in
      let lane = (j - i) % stride in
      let lane' = (j - i - stride) % stride in
      rw (e, m, n)
        (elim (dec_lt j (i + stride)) [
          | yes lt ↦
              hit-near w stride count i j blocks lane lane' hw lt
                (λ le. mod-eq_of_lt (omega (arith, leb→le i j le)))
          | no ge ↦
              rw (mod-eq-sub-mod {n = j - i} {m = stride} (omega arith))
                (hit-far w stride count i j blocks lane' hw (omega arith))
        ])

  hit_from-last :
      (w stride count i j : ℕ)
      → i ≤ count
      → count < i + stride
      → between f i (i + (count - i)) j ≡ hit_from w stride count i j
  unfolding hit_from between
  hit_from-last w stride count i j hi h =
      let e : (count - i) / stride ≡ 0 = div-eq_of_lt (omega arith) in rw e (ground arith)

  vector_loop-Written :
      (fuel w stride : ℕ) (a b : List A) (count i : ℕ) (dst : List A)
      → 0 < stride
      → w ≤ stride
      → count < fuel + i
      → i ≤ count
      → count ≤ length a
      → count ≤ length b
      → count ≤ length dst
      → (dst' : List A) × (vector_loop fuel w stride a b count i dst >>= remainder a b count
          ≡ returns dst')
        × Written f a b (hit_from w stride count i) dst dst'
  unfolding vector_loop
  vector_loop-Written zero w stride a b count i dst hs hw hf hi ha hb hd = absurd (omega arith)
  vector_loop-Written (suc fuel) w stride a b count i dst hs hw hf hi ha hb hd =
      elim (Bool-cases (leb (i + stride) count)) [
        | inl e ↦
            let le : i + stride ≤ count = leb→le (i + stride) count e in
            let (r1, e1, w1) =
              lanes-Written f w a b i dst (omega arith) (omega arith) (omega arith) in
            let (r2, e2, w2) =
              vector_loop-Written fuel w stride a b count (i + stride) r1 hs hw (omega arith) le ha
                hb (omega (arith, w1.same_length)) in
            (
              r2,
              rw (e, e1) e2,
              Written-cong f _ (hit_from w stride count i)
                  (λ j. hit_from-step w stride count i j hs hw le)
                  (Written-trans f (between f i (i + w)) (hit_from w stride count (i + stride)) w1
                    w2),
            )
        | inr e ↦
            let gt : count < i + stride = ground (arith, e) in
            let (r1, e1, w1) =
              scalar_loop-Written f (count - i) a b i dst (omega arith) (omega arith)
                (omega arith) in
            (
              r1,
              rw e e1,
              Written-cong f (between f i (i + (count - i))) (hit_from w stride count i)
                  (λ j. hit_from-last w stride count i j hi gt) w1,
            )
      ]

  -- The elements that are computed: all below `count` when the stride is the register's width.
  pub simd-Written :
      (w stride : ℕ) (a b : List A) (count : ℕ) (dst : List A)
      → 0 < stride
      → w ≤ stride
      → count ≤ length a
      → count ≤ length b
      → count ≤ length dst
      → (dst' : List A) × (simd w stride a b count dst ≡ returns dst')
        × Written f a b (hit_from w stride count 0) dst dst'
  unfolding simd
  simd-Written w stride a b count dst hs hw ha hb hd =
      vector_loop-Written (suc count) w stride a b count 0 dst hs hw (omega arith) (omega arith) ha
        hb hd

  hit_from-all : (w count j : ℕ) → 0 < w → hit_from w w count 0 j ≡ between f 0 (0 + count) j
  unfolding hit_from between
  hit_from-all w count j h = grind (arith, mod-lt j h, div-mul-le_self count w)

  -- The same result as one element at a time.
  pub simd-scalar_loop :
      (w : ℕ) (a b : List A) (count : ℕ) (dst : List A)
      → 0 < w
      → count ≤ length a
      → count ≤ length b
      → count ≤ length dst
      → simd w w a b count dst ≡ scalar_loop f count a b 0 dst
  simd-scalar_loop w a b count dst hw ha hb hd =
      let (r1, e1, w1) = simd-Written w w a b count dst hw (omega arith) ha hb hd in
      let (r2, e2, w2) =
        scalar_loop-Written f count a b 0 dst (omega arith) (omega arith) (omega arith) in
      let same : r1 ≡ r2 = get_elem?_ext r1 r2 (λ j.
        w1.elements j
        ∙ ap (λ t. if t then both f (get_elem? a j) (get_elem? b j) else get_elem? dst j)
            (hit_from-all w count j hw)
        ∙ sym (w2.elements j)) in
      e1 ∙ ap returns same ∙ sym e2

-- ===== src/Compute/Vectors/Strips.antt =====
-- The loops of src/core/drivers/compute_ops.c always take a whole register: they read and write as far as the
-- size rounded up to the register's width.
use cloud_fly_prlatform.Prelude.{
  ℕ, zero, suc, ◌+◌, ◌-◌, ◌*◌, ◌/◌, ◌%◌, ◌≤◌, ◌<◌, ◌≡◌, refl, sym, ap, ◌∙◌, ◌||◌, List, arith,
  length, get_elem?, get_elem?_ext, leb, min, if◌then◌else◌, returns, stops, fault, Bool-cases,
  dec_lt, false, leb→le, lt→ltb, inl, inr,
}
use cloud_fly_prlatform.Prelude.Slices.{slice, length-slice}
use cloud_fly_prlatform.Compute.Lanes.{
  lanes, load, store, zip_with, length-zip_with, Written, Written-trans, Written-cong, between,
  both, lanes-Written,
}
use cloud_fly_prlatform.Compute.Vectors.{
  Instructions, scalar, width, strips, elementwise, Floats, vector_add, vector_sub, vector_mul,
  vector_div,
}
use native.Mathlib.Nat.{
  div-add-mod', mod-lt, div-lt_iff_lt-mul, add-mul-div_right, div-eq_of_lt, le-mul_of_pos_right,
}

-- The least multiple of `w` that `size` does not exceed.
unfoldable pub rounded_up : ℕ → ℕ → ℕ
rounded_up w size = (size + (w - 1)) / w * w

width-positive : (instructions : Instructions) → 0 < width instructions
unfolding width
width-positive Instructions.avx2 = omega arith
width-positive Instructions.neon = omega arith
width-positive scalar = omega arith

module _ {ℓ} {A : Type ℓ} (f : A → A → A) where
  -- The elements that all three arrays have.
  unfoldable pub common : List A → List A → List A → ℕ
  common a b r = min (length a) (min (length b) (length r))

  lanes-fault :
      (w : ℕ) (a b : List A) (i : ℕ) (r : List A)
      → common a b r < i + w
      → lanes f w a b i r ≡ stops fault
  unfolding lanes load store common
  lanes-fault w a b i r h = elim (Bool-cases (leb (i + w) (length a))) [
    | inr ea ↦ rw ea refl
    | inl ea ↦ elim (Bool-cases (leb (i + w) (length b))) [
      | inr eb ↦ rw (ea, eb) refl
      | inl eb ↦
          let v = zip_with f (slice a i w) (slice b i w) in
          let hv : length v ≡ w =
            length-zip_with f (slice a i w) (slice b i w)
            ∙ omega (
              arith,
              length-slice a i w (leb→le (i + w) (length a) ea),
              length-slice b i w (leb→le (i + w) (length b) eb),
            ) in
          let er : leb (i + length v) (length r) ≡ false = ground (arith, ea, eb, hv, h) in
          rw (ea, eb, er) refl
    ]
  ]

  suc_blocks : (blocks w : ℕ) → suc blocks * w ≡ blocks * w + w
  suc_blocks blocks w = grind arith

  -- `blocks` registers from `i` on, up to `last`.
  strips-Written :
      (blocks fuel w : ℕ) (a b : List A) (size i last : ℕ) (r : List A)
      → blocks < fuel
      → i + blocks * w ≡ last
      → size ≤ last
      → last < size + w
      → last ≤ common a b r
      → (r' : List A) × (strips fuel w (lanes f w a b) size i r ≡ returns r')
        × Written f a b (between f i last) r r'
  unfolding strips common between
  strips-Written blocks zero w a b size i last r hf hb hs hl hc = elim hf [ ]
  strips-Written zero (suc fuel) w a b size i last r hf hb hs hl hc =
      let e : i ≡ last = grind arith in
      (r, ground (arith, e), record { same_length = refl; elements = λ j. ground (arith, e) })
  strips-Written (suc blocks) (suc fuel) w a b size i last r hf hb hs hl hc =
      let k = suc_blocks blocks w in
      let (r1, e1, w1) = lanes-Written f w a b i r (omega arith) (omega arith) (omega arith) in
      let (r2, e2, w2) =
        strips-Written blocks fuel w a b size (i + w) last r1 (omega arith) (omega arith) hs hl
          (omega (arith, w1.same_length)) in
      (
        r2,
        rw (lt→ltb i size (omega arith), e1) e2,
        Written-cong f {r' = r2} (λ j. between f i (i + w) j || between f (i + w) last j)
            (between f i last) (λ j. ground (arith, k, hb))
            (Written-trans f {r' = r1} {r'' = r2} (between f i (i + w)) (between f (i + w) last) w1
              w2),
      )

  strips-fault :
      (blocks fuel w : ℕ) (a b : List A) (size i last : ℕ) (r : List A)
      → blocks < fuel
      → i + blocks * w ≡ last
      → size ≤ last
      → last < size + w
      → i ≤ common a b r
      → common a b r < last
      → strips fuel w (lanes f w a b) size i r ≡ stops fault
  unfolding strips common
  strips-fault blocks zero w a b size i last r hf hb hs hl hi hc = elim hf [ ]
  strips-fault zero (suc fuel) w a b size i last r hf hb hs hl hi hc =
      let e : i ≡ last = grind arith in absurd (omega arith)
  strips-fault (suc blocks) (suc fuel) w a b size i last r hf hb hs hl hi hc =
      let k = suc_blocks blocks w in
      let t = lt→ltb i size (omega arith) in
      elim (dec_lt (common a b r) (i + w)) [
        | yes lt ↦ rw (t, lanes-fault w a b i r lt) refl
        | no ge ↦
            let (r1, e1, w1) =
              lanes-Written f w a b i r (omega arith) (omega arith) (omega arith) in
            rw (t, e1)
              (strips-fault blocks fuel w a b size (i + w) last r1 (omega arith) (omega arith) hs hl
                (omega (arith, w1.same_length)) (omega (arith, w1.same_length)))
      ]

  rounded_up-bounds :
      (w size : ℕ)
      → 0 < w
      → (size ≤ rounded_up w size)
        × (rounded_up w size < size + w)
        × ((size + (w - 1)) / w < suc size)
  unfolding rounded_up
  rounded_up-bounds w size hw =
      let q = div-add-mod' (size + (w - 1)) w in
      let m = mod-lt (size + (w - 1)) hw in
      (
        omega arith,
        omega arith,
        (div-lt_iff_lt-mul hw).1 (omega (arith, suc_blocks size w, le-mul_of_pos_right size hw)),
      )

  rounded_up_eq : (w size : ℕ) → 0 + (size + (w - 1)) / w * w ≡ rounded_up w size
  unfolding rounded_up
  rounded_up_eq w size = omega arith

  -- The loop of a kernel for vectors of `size` elements: where the arrays go on as far as the size rounded up
  -- to the register's width it returns, with the results in all places up to there and no other change.
  pub elementwise-Written :
      (instructions : Instructions) (a b r : List A) (size : ℕ)
      → rounded_up (width instructions) size ≤ common a b r
      → (r' : List A) × (elementwise f instructions a b r size ≡ returns r')
        × Written f a b (between f 0 (rounded_up (width instructions) size)) r r'
  unfolding elementwise
  elementwise-Written instructions a b r size h =
      let w = width instructions in
      let (h1, h2, h3) = rounded_up-bounds w size (width-positive instructions) in
      strips-Written ((size + (w - 1)) / w) (suc size) w a b size 0 (rounded_up w size) r h3
        (rounded_up_eq w size) h1 h2 h

  -- Where one of the arrays ends before the size rounded up to the register's width, the loop of a kernel
  -- accesses memory outside that array.
  pub elementwise-fault :
      (instructions : Instructions) (a b r : List A) (size : ℕ)
      → common a b r < rounded_up (width instructions) size
      → elementwise f instructions a b r size ≡ stops fault
  unfolding elementwise
  elementwise-fault instructions a b r size h =
      let w = width instructions in
      let (h1, h2, h3) = rounded_up-bounds w size (width-positive instructions) in
      strips-fault ((size + (w - 1)) / w) (suc size) w a b size 0 (rounded_up w size) r h3
        (rounded_up_eq w size) h1 h2 (omega arith) h

  rounded_up-multiple : (w size : ℕ) → 0 < w → size % w ≡ 0 → rounded_up w size ≡ size
  unfolding rounded_up
  rounded_up-multiple w size hw h =
      let q = size / w in
      let whole : q * w ≡ size = omega (arith, div-add-mod' size w) in
      let split : size + (w - 1) ≡ (w - 1) + q * w = omega arith in
      let small : (w - 1) / w ≡ 0 = div-eq_of_lt (omega arith) in
      let e : (size + (w - 1)) / w ≡ q =
        ap (λ n. n / w) split ∙ add-mul-div_right (w - 1) q hw ∙ omega (arith, small) in
      ap (λ k. k * w) e ∙ whole

  mod-width_scalar : (size : ℕ) → size % width scalar ≡ 0
  unfolding width
  mod-width_scalar size = omega arith

  pub elementwise-scalar :
      (instructions : Instructions) (a b r : List A) (size : ℕ)
      → size % width instructions ≡ 0
      → size ≤ common a b r
      → elementwise f instructions a b r size ≡ elementwise f scalar a b r size
  elementwise-scalar instructions a b r size hm h =
      let w = width instructions in
      let e = rounded_up-multiple w size (width-positive instructions) hm in
      let e1 : rounded_up (width scalar) size ≡ size =
        rounded_up-multiple (width scalar) size (width-positive scalar) (mod-width_scalar size) in
      let (r1, run1, w1) = elementwise-Written instructions a b r size (omega arith) in
      let (r2, run2, w2) = elementwise-Written scalar a b r size (omega arith) in
      let same : r1 ≡ r2 = get_elem?_ext r1 r2 (λ j.
        w1.elements j
        ∙ ap
            (λ k. if between f 0 k j then both f (get_elem? a j) (get_elem? b j) else get_elem? r j)
            (e ∙ sym e1)
        ∙ sym (w2.elements j)) in
      run1 ∙ ap returns same ∙ sym run2

-- For a size that is a multiple of the register's width, in arrays of at least that size, the kernels of the
-- four operations have the outcome of the code for a processor without registers.
pub vectors-scalar :
    (F : Floats) (instructions : Instructions) (a b r : List F.Float) (size : ℕ)
    → size % width instructions ≡ 0
    → size ≤ length a
    → size ≤ length b
    → size ≤ length r
    → (vector_add F instructions a b r size ≡ vector_add F scalar a b r size)
      × (vector_sub F instructions a b r size ≡ vector_sub F scalar a b r size)
      × (vector_mul F instructions a b r size ≡ vector_mul F scalar a b r size)
      × (vector_div F instructions a b r size ≡ vector_div F scalar a b r size)
unfolding vector_add vector_sub vector_mul vector_div common
vectors-scalar F instructions a b r size hm ha hb hr =
    let h : size ≤ common F.add a b r = omega arith in
    (
      elementwise-scalar F.add instructions a b r size hm h,
      elementwise-scalar F.sub instructions a b r size hm h,
      elementwise-scalar F.mul instructions a b r size hm h,
      elementwise-scalar F.div instructions a b r size hm h,
    )

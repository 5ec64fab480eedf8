-- ===== src/Compute/Manager/Reductions.antt =====
-- What `simdSum` and `simdDotProduct` of src/compute/compute_manager.cpp compute: the registers add the
-- elements in another order than the plain loop, which is the same where addition does not depend on it.
use cloud_fly_prlatform.Prelude.{
  ℕ, zero, suc, ◌+◌, ◌-◌, ◌≤◌, ◌<◌, ◌≡◌, refl, sym, ap, ◌∙◌, List, [], ◌∷◌, ◌++◌, arith, length,
  take, drop, ap₂, take-append-drop, leb, replicate, returns, ◌>>=◌, Bool-cases, leb→le, inl, inr,
}
use cloud_fly_prlatform.Prelude.Slices.{slice, length-slice, drop-drop, take-take, drop-take}
use cloud_fly_prlatform.Compute.Lanes.{zip_with, length-zip_with, load_eq}
use cloud_fly_prlatform.Compute.Manager.{
  Element, Terms, add_lanes, accumulate, accumulate_tail, finish, reduce, elements, products,
  simd_sum_avx2, simd_sum_neon, simd_sum_plain, simd_dot_product_avx2, simd_dot_product_neon,
  simd_dot_product_plain,
}

module _ {ℓ} {A : Type ℓ} where
  slice-add : (xs : List A) (i w k : ℕ) → slice xs i (w + k) ≡ slice xs i w ++ slice xs (i + w) k
  slice-add xs i w k =
      sym (take-append-drop w (slice xs i (w + k)))
      ∙ ap₂ ◌++◌ (take-take w (w + k) (drop i xs) (omega arith)) (
          drop-take w (w + k) (drop i xs)
          ∙ (let e : w + k - w ≡ k = omega arith in ap₂ take e (drop-drop i w xs)))

  zip_with-take :
      (f : A → A → A) (n : ℕ) (xs ys : List A)
      → zip_with f (take n xs) (take n ys) ≡ take n (zip_with f xs ys)
  zip_with-take f zero xs ys = refl
  zip_with-take f (suc n) [] ys = refl
  zip_with-take f (suc n) (x ∷ xs) [] = refl
  zip_with-take f (suc n) (x ∷ xs) (y ∷ ys) = ap (◌∷◌ (f x y)) (zip_with-take f n xs ys)

  zip_with-nil : (f : A → A → A) (xs : List A) → zip_with f xs [] ≡ []
  zip_with-nil f [] = refl
  zip_with-nil f (x ∷ xs) = refl

  zip_with-drop :
      (f : A → A → A) (n : ℕ) (xs ys : List A)
      → zip_with f (drop n xs) (drop n ys) ≡ drop n (zip_with f xs ys)
  zip_with-drop f zero xs ys = refl
  zip_with-drop f (suc n) [] ys = refl
  zip_with-drop f (suc n) (x ∷ xs) [] = zip_with-nil f (drop n xs)
  zip_with-drop f (suc n) (x ∷ xs) (y ∷ ys) = zip_with-drop f n xs ys

  length-replicate : (n : ℕ) (x : A) → length (replicate n x) ≡ n
  length-replicate zero x = refl
  length-replicate (suc n) x = ap suc (length-replicate n x)

-- Arithmetic in which the order of the terms of a sum does not count, as that of the integral types.
module _ {ℓ} {A : Type ℓ} (add : A → A → A) (zero_value : A)
    (add_assoc : (x y z : A) → add (add x y) z ≡ add x (add y z))
    (add_comm : (x y : A) → add x y ≡ add y x) (zero_add : (x : A) → add zero_value x ≡ x) where
  unfoldable pub total : List A → A
  total [] = zero_value
  total (x ∷ xs) = add x (total xs)

  add_zero : (x : A) → add x zero_value ≡ x
  add_zero x = add_comm x zero_value ∙ zero_add x

  add_lanes-total : (r : A) (xs : List A) → add_lanes add r xs ≡ add r (total xs)
  unfolding add_lanes total
  add_lanes-total r [] = sym (add_zero r)
  add_lanes-total r (x ∷ xs) = add_lanes-total (add r x) xs ∙ add_assoc r x (total xs)

  total-append : (xs ys : List A) → total (xs ++ ys) ≡ add (total xs) (total ys)
  unfolding total
  total-append [] ys = sym (zero_add (total ys))
  total-append (x ∷ xs) ys =
      ap (add x) (total-append xs ys) ∙ sym (add_assoc x (total xs) (total ys))

  total-replicate : (n : ℕ) → total (replicate n zero_value) ≡ zero_value
  unfolding total
  total-replicate zero = refl
  total-replicate (suc n) = zero_add (total (replicate n zero_value)) ∙ total-replicate n

  add_swap : (a b c d : A) → add (add a b) (add c d) ≡ add (add a c) (add b d)
  add_swap a b c d =
      add_assoc a b (add c d)
      ∙ ap (add a) (sym (add_assoc b c d) ∙ ap (λ t. add t d) (add_comm b c) ∙ add_assoc c b d)
      ∙ sym (add_assoc a c (add b d))

  total-zip_with :
      (xs ys : List A)
      → length xs ≡ length ys
      → total (zip_with add xs ys) ≡ add (total xs) (total ys)
  unfolding total
  total-zip_with [] [] h = sym (zero_add zero_value)
  total-zip_with [] (y ∷ ys) h = absurd (omega arith)
  total-zip_with (x ∷ xs) [] h = absurd (omega arith)
  total-zip_with (x ∷ xs) (y ∷ ys) h =
      ap (add (add x y)) (total-zip_with xs ys (omega arith)) ∙ add_swap x y (total xs) (total ys)

  module _ (terms : Terms A) (xs : List A) (count : ℕ)
      (serves : (w i : ℕ) → i + w ≤ count → terms w i ≡ returns (slice xs i w))
      (le : count ≤ length xs) where
    accumulate_tail-total :
        (k i : ℕ) (r : A)
        → i + k ≤ count
        → accumulate_tail add k terms i r ≡ returns (add r (total (slice xs i k)))
    unfolding accumulate_tail total
    accumulate_tail-total zero i r h = ap returns (sym (add_zero r))
    accumulate_tail-total (suc k) i r h =
        let e : 1 + k ≡ suc k = omega arith in
        let f : suc i ≡ i + 1 = omega arith in
        rw
          (
            serves 1 i (omega arith),
            accumulate_tail-total k (suc i) (add_lanes add r (slice xs i 1)) (omega arith),
            add_lanes-total r (slice xs i 1),
            sym e,
            slice-add xs i 1 k,
            total-append (slice xs i 1) (slice xs (i + 1) k),
            sym f,
          )
          (ap returns (add_assoc r (total (slice xs i 1)) (total (slice xs (suc i) k))))

    finish-total :
        (i : ℕ) (sum : List A)
        → i ≤ count
        → finish add terms count zero_value (i, sum)
          ≡ returns (add (total sum) (total (slice xs i (count - i))))
    unfolding finish
    finish-total i sum h =
        let rest = total (slice xs i (count - i)) in
        rw (accumulate_tail-total (count - i) i zero_value (omega arith), zero_add rest)
          (ap returns (add_lanes-total rest sum ∙ add_comm rest (total sum)))

    accumulate-total :
        (fuel w i : ℕ) (sum : List A)
        → 0 < w
        → length sum ≡ w
        → count < fuel + i
        → i ≤ count
        → (accumulate add fuel w terms count i sum >>= finish add terms count zero_value)
          ≡ returns (add (total sum) (total (slice xs i (count - i))))
    unfolding accumulate
    accumulate-total zero w i sum hw hl hf hi = absurd (omega arith)
    accumulate-total (suc fuel) w i sum hw hl hf hi = elim (Bool-cases (leb (i + w) count)) [
      | inl e ↦
          let h : i + w ≤ count = leb→le (i + w) count e in
          let v = slice xs i w in
          let hv : length v ≡ w = length-slice xs i w (omega arith) in
          let k : w + (count - (i + w)) ≡ count - i = omega arith in
          rw (e, serves w i h)
            (accumulate-total fuel w (i + w) (zip_with add sum v) hw
                (length-zip_with add sum v ∙ omega (arith, hl, hv)) (omega arith) h
              ∙ ap returns (
                  ap (λ t. add t (total (slice xs (i + w) (count - (i + w)))))
                    (total-zip_with sum v (hl ∙ sym hv))
                  ∙ add_assoc (total sum) (total v) (total (slice xs (i + w) (count - (i + w))))
                  ∙ ap (add (total sum)) (
                      sym (total-append v (slice xs (i + w) (count - (i + w))))
                      ∙ ap total (sym (slice-add xs i w (count - (i + w))) ∙ ap (slice xs i) k))))
      | inr e ↦ rw e (finish-total i sum hi)
    ]

    reduce-total :
        (w : ℕ) → 0 < w → reduce add w terms count zero_value ≡ returns (total (take count xs))
    unfolding reduce
    reduce-total w hw =
        accumulate-total (suc count) w 0 (replicate w zero_value) hw (length-replicate w zero_value)
          (omega arith) (omega arith)
        ∙ ap returns (
            ap (λ t. add t (total (slice xs 0 (count - 0)))) (total-replicate w)
            ∙ zero_add (total (slice xs 0 (count - 0)))
            ∙ (let k : count - 0 ≡ count = omega arith in ap (λ n. total (take n xs)) k))

    plain-total : accumulate_tail add count terms 0 zero_value ≡ returns (total (take count xs))
    plain-total =
        accumulate_tail-total count 0 zero_value (omega arith)
        ∙ ap returns (zero_add (total (take count xs)))

  -- The same of `simdSum`: with such an addition it returns the sum of `count` elements that can be read.
  pub simd_sum-total :
      (element : Element) (xs : List A) (count : ℕ)
      → count ≤ length xs
      → (simd_sum_avx2 add zero_value element xs count ≡ returns (total (take count xs)))
        × (simd_sum_neon add zero_value element xs count ≡ returns (total (take count xs)))
        × (simd_sum_plain add zero_value xs count ≡ returns (total (take count xs)))
  unfolding simd_sum_avx2 simd_sum_neon simd_sum_plain
  simd_sum-total element xs count h =
      let terms = elements add zero_value xs in
      let serves : (w i : ℕ) → i + w ≤ count → terms w i ≡ returns (slice xs i w) =
        λ w i hi. load_eq w xs i (omega arith) in
      let by = reduce-total terms xs count serves h in
      (
        elim element
            as (λ e. simd_sum_avx2 add zero_value e xs count ≡ returns (total (take count xs))) [
              | Element.float ↦ by 8 (omega arith)
              | Element.double ↦ by 4 (omega arith)
              | Element.int32 ↦ by 8 (omega arith)
            ],
        elim element
            as (λ e. simd_sum_neon add zero_value e xs count ≡ returns (total (take count xs))) [
              | Element.float ↦ by 4 (omega arith)
              | Element.double ↦ by 2 (omega arith)
              | Element.int32 ↦ by 4 (omega arith)
            ],
        plain-total terms xs count serves h,
      )

  products-serves :
      (mul : A → A → A) (a b : List A) (count w i : ℕ)
      → count ≤ length a
      → count ≤ length b
      → i + w ≤ count
      → products add mul zero_value a b w i ≡ returns (slice (zip_with mul a b) i w)
  unfolding products
  products-serves mul a b count w i ha hb hi =
      rw (load_eq w a i (omega arith), load_eq w b i (omega arith))
        (ap returns
          (zip_with-take mul w (drop i a) (drop i b) ∙ ap (take w) (zip_with-drop mul i a b)))

  -- With an addition that is associative and commutative and has `zero_value` as its unit, as that of the 32-bit
  -- integers (and not that of `float` and `double`, which rounds), and where all of `count` elements of both
  -- vectors can be read, `simdDotProduct` returns the sum of their products, with each processor's code and for
  -- each number of lanes.
  pub simd_dot_product-total :
      (mul : A → A → A) (element : Element) (a b : List A) (count : ℕ)
      → count ≤ length a
      → count ≤ length b
      → (simd_dot_product_avx2 add mul zero_value element a b count
          ≡ returns (total (take count (zip_with mul a b))))
        × (simd_dot_product_neon add mul zero_value element a b count
            ≡ returns (total (take count (zip_with mul a b))))
        × (simd_dot_product_plain add mul zero_value a b count
            ≡ returns (total (take count (zip_with mul a b))))
  unfolding simd_dot_product_avx2 simd_dot_product_neon simd_dot_product_plain
  simd_dot_product-total mul element a b count ha hb =
      let xs = zip_with mul a b in
      let terms = products add mul zero_value a b in
      let h : count ≤ length xs = omega (arith, length-zip_with mul a b) in
      let serves : (w i : ℕ) → i + w ≤ count → terms w i ≡ returns (slice xs i w) =
        λ w i hi. products-serves mul a b count w i ha hb hi in
      let by = reduce-total terms xs count serves h in
      (
        elim element
            as (λ e.
              simd_dot_product_avx2 add mul zero_value e a b count
              ≡ returns (total (take count xs))) [
                | Element.float ↦ by 8 (omega arith)
                | Element.double ↦ by 4 (omega arith)
                | Element.int32 ↦ by 8 (omega arith)
              ],
        elim element
            as (λ e.
              simd_dot_product_neon add mul zero_value e a b count
              ≡ returns (total (take count xs))) [
                | Element.float ↦ by 4 (omega arith)
                | Element.double ↦ by 2 (omega arith)
                | Element.int32 ↦ by 4 (omega arith)
              ],
        plain-total terms xs count serves h,
      )

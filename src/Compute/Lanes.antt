-- ===== src/Compute/Lanes.antt =====
-- Vector registers: loads, stores and lane-wise operations on arrays, as the loops of
-- src/compute/compute_manager.cpp and src/core/drivers/compute_ops.c use them. An array is the list of
-- the elements from its pointer to the end of its block; an access past that end is a fault.
use cloud_fly_prlatform.Prelude.{
  ℕ, zero, suc, ◌+◌, ◌≤◌, ◌≡◌, refl, sym, ap, ◌∙◌, Bool, ◌&&◌, ◌||◌, List, [], ◌∷◌, Option, some,
  none, arith, length, length-set, get_elem?, set, get_elem?-set_self, get_elem?-set_ne, leb, ltb,
  if◌then◌else◌, Outcome, returns, stops, fault, ◌>>=◌, ℕ_discrete, min,
}
use cloud_fly_prlatform.Prelude.Slices.{
  slice, overwrite, length-overwrite, length-slice, slice-suc, get_elem?-of_lt,
  get_elem?-overwrite_below,
}

module _ {ℓ} {A : Type ℓ} where
  -- `w` elements from index `i` on, into a register.
  unfoldable pub load : ℕ → List A → ℕ → Outcome (List A)
  load w xs i = if leb (i + w) (length xs) then returns (slice xs i w) else stops fault

  -- A register's elements, to the array from index `i` on.
  unfoldable pub store : List A → List A → ℕ → Outcome (List A)
  store v xs i = if leb (i + length v) (length xs) then returns (overwrite xs i v) else stops fault

  pub load_eq :
      (w : ℕ) (xs : List A) (i : ℕ) → i + w ≤ length xs → load w xs i ≡ returns (slice xs i w)
  unfolding load
  load_eq w xs i h = ground arith

  store_eq :
      (v xs : List A) (i : ℕ) → i + length v ≤ length xs → store v xs i ≡ returns (overwrite xs i v)
  unfolding store
  store_eq v xs i h = ground arith

  abbrev pub zip_with : (A → A → A) → List A → List A → List A
  zip_with f [] ys = []
  zip_with f (x ∷ xs) [] = []
  zip_with f (x ∷ xs) (y ∷ ys) = f x y ∷ zip_with f xs ys

  pub length-zip_with :
      (f : A → A → A) (xs ys : List A) → length (zip_with f xs ys) ≡ min (length xs) (length ys)
  length-zip_with f [] ys = omega arith
  length-zip_with f (x ∷ xs) [] = omega arith
  length-zip_with f (x ∷ xs) (y ∷ ys) = omega (arith, length-zip_with f xs ys)

module _ {ℓ} {A : Type ℓ} (f : A → A → A) where
  -- Two loads, the operation on each lane, and the store: `dst[i..i+w] = f(src1[..], src2[..])`.
  unfoldable pub lanes : ℕ → List A → List A → ℕ → List A → Outcome (List A)
  unfolding load store
  lanes w a b i r = do va ← load w a i; vb ← load w b i; store (zip_with f va vb) r i

  -- `for (; i < count; ++i) dst[i] = f(src1[i], src2[i]);`, where `k` elements are left.
  unfoldable pub scalar_loop : ℕ → List A → List A → ℕ → List A → Outcome (List A)
  unfolding lanes
  scalar_loop zero a b i r = returns r
  scalar_loop (suc k) a b i r = lanes 1 a b i r >>= scalar_loop k a b (suc i)

  -- The element that belongs at index `j`.
  abbrev pub both : Option A → Option A → Option A
  both (some x) (some y) = some (f x y)
  both (some x) none = none
  both none y = none

  -- `r'` is `r` with the results at the indices that `hit` picks.
  pub record Written (a b : List A) (hit : ℕ → Bool) (r r' : List A) : Type ℓ where
    pub same_length : length r' ≡ length r
    pub elements :
        (j : ℕ)
        → get_elem? r' j ≡ (if hit j then both (get_elem? a j) (get_elem? b j) else get_elem? r j)

  pub Written-trans :
      {a b r r' r'' : List A} (hit hit' : ℕ → Bool)
      → Written a b hit r r'
      → Written a b hit' r' r''
      → Written a b (λ j. hit j || hit' j) r r''
  Written-trans hit hit' u v = record {
    same_length = omega (arith, u.same_length, v.same_length);
    elements = λ j. ground (arith, u.elements j, v.elements j);
  }

  pub Written-cong :
      {a b r r' : List A} (hit hit' : ℕ → Bool)
      → ((j : ℕ) → hit j ≡ hit' j)
      → Written a b hit r r'
      → Written a b hit' r r'
  Written-cong hit hit' same u = record {
    same_length = u.same_length;
    elements = λ j. ground (arith, u.elements j, same j);
  }

  unfoldable pub between : ℕ → ℕ → ℕ → Bool
  between lo hi j = leb lo j && ltb j hi

  at_start :
      (w : ℕ) (a b r : List A) (i j : ℕ) (x y : A)
      → j ≡ i
      → get_elem? a i ≡ some x
      → get_elem? b i ≡ some y
      → i + suc w ≤ length r
      → get_elem?
          (overwrite (set r i (f x y)) (suc i) (zip_with f (slice a (suc i) w) (slice b (suc i) w)))
          j
        ≡ (if between i (i + suc w) j then both (get_elem? a j) (get_elem? b j) else get_elem? r j)
  unfolding between
  at_start w a b r i j x y e ex ey hr =
      let tail = zip_with f (slice a (suc i) w) (slice b (suc i) w) in
      ground (
        arith,
        e,
        ex,
        ey,
        get_elem?-overwrite_below (set r i (f x y)) (suc i) tail i (omega arith),
        get_elem?-set_self r i (f x y) (omega arith),
      )

  overwrite_elements :
      (w : ℕ) (a b r : List A) (i j : ℕ)
      → i + w ≤ length a
      → i + w ≤ length b
      → i + w ≤ length r
      → get_elem? (overwrite r i (zip_with f (slice a i w) (slice b i w))) j
        ≡ (if between i (i + w) j then both (get_elem? a j) (get_elem? b j) else get_elem? r j)
  unfolding overwrite between
  overwrite_elements zero a b r i j ha hb hr = ground arith
  overwrite_elements (suc w) a b r i j ha hb hr =
      let (x, ex) = get_elem?-of_lt a i (omega arith) in
      let (y, ey) = get_elem?-of_lt b i (omega arith) in
      let z = f x y in
      let tail = zip_with f (slice a (suc i) w) (slice b (suc i) w) in
      let start : get_elem? (overwrite r i (zip_with f (slice a i (suc w)) (slice b i (suc w)))) j
          ≡ get_elem? (overwrite (set r i z) (suc i) tail) j =
        rw (slice-suc a i w x ex, slice-suc b i w y ey) refl in
      start ∙ elim (ℕ_discrete j i) [
        | yes e ↦ at_start w a b r i j x y e ex ey hr
        | no ne ↦
            overwrite_elements w a b (set r i z) (suc i) j (omega arith) (omega arith)
              (omega (arith, length-set r i z))
            ∙ ground (arith, get_elem?-set_ne r {i = i} {j = j} z (λ e. ne (sym e)))
      ]

  -- Within the arrays, the registers compute the elements from `i` to `i + w`, and no others.
  pub lanes-Written :
      (w : ℕ) (a b : List A) (i : ℕ) (r : List A)
      → i + w ≤ length a
      → i + w ≤ length b
      → i + w ≤ length r
      → (r' : List A) × (lanes w a b i r ≡ returns r') × Written a b (between i (i + w)) r r'
  unfolding lanes
  lanes-Written w a b i r ha hb hr =
      let v = zip_with f (slice a i w) (slice b i w) in
      let e : length v ≡ w = omega (
        arith,
        length-zip_with f (slice a i w) (slice b i w),
        length-slice a i w ha,
        length-slice b i w hb,
      ) in
      let stored : lanes w a b i r ≡ returns (overwrite r i v) =
        rw (load_eq w a i ha, load_eq w b i hb, store_eq v r i (omega arith)) refl in
      (
        overwrite r i v,
        stored,
        record {
          same_length = length-overwrite r i v;
          elements = λ j. overwrite_elements w a b r i j ha hb hr;
        },
      )

  pub scalar_loop-Written :
      (k : ℕ) (a b : List A) (i : ℕ) (r : List A)
      → i + k ≤ length a
      → i + k ≤ length b
      → i + k ≤ length r
      → (r' : List A) × (scalar_loop k a b i r ≡ returns r') × Written a b (between i (i + k)) r r'
  unfolding scalar_loop between
  scalar_loop-Written zero a b i r ha hb hr =
      (r, refl, record { same_length = refl; elements = λ j. ground arith })
  scalar_loop-Written (suc k) a b i r ha hb hr =
      let (r1, e1, w1) = lanes-Written 1 a b i r (omega arith) (omega arith) (omega arith) in
      let (r2, e2, w2) =
        scalar_loop-Written k a b (suc i) r1 (omega arith) (omega arith)
          (omega (arith, w1.same_length)) in
      (
        r2,
        ap (λ m. m >>= scalar_loop k a b (suc i)) e1 ∙ e2,
        Written-cong (λ j. between i (i + 1) j || between (suc i) (suc i + k) j)
            (between i (i + suc k)) (λ j. ground arith)
            (Written-trans (between i (i + 1)) (between (suc i) (suc i + k)) w1 w2),
      )

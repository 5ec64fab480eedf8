-- ===== src/Prelude/Slices.antt =====
-- A range of a list, read and overwritten: what a copy between two blocks of memory does.
use native.Mathlib.Nat.{suc-add}
use cloud_fly_prlatform.Prelude.{
  ℕ, zero, suc, ◌+◌, ◌-◌, ◌≤◌, ◌<◌, ◌≡◌, refl, sym, ap, ◌∙◌, List, [], ◌∷◌, ◌++◌, none, some, max,
  min, take-append-drop, arith, length, get_elem?, set, take, drop, length-set, length-take,
  length-drop, get_elem?-set_self, get_elem?-set_ne,
}

module _ {ℓ} {A : Type ℓ} where
  -- The `n` elements from index `i` on.
  abbrev pub slice : List A → ℕ → ℕ → List A
  slice xs i n = take n (drop i xs)

  -- `ys` put over `xs` from index `i` on.
  unfoldable pub overwrite : List A → ℕ → List A → List A
  overwrite xs i [] = xs
  overwrite xs i (y ∷ ys) = overwrite (set xs i y) (suc i) ys

  pub length-overwrite :
      (xs : List A) (i : ℕ) (ys : List A) → length (overwrite xs i ys) ≡ length xs
  unfolding overwrite
  length-overwrite xs i [] = refl
  length-overwrite xs i (y ∷ ys) = length-overwrite (set xs i y) (suc i) ys ∙ length-set xs i y

  pub get_elem?-overwrite_below :
      (xs : List A) (i : ℕ) (ys : List A) (j : ℕ)
      → j < i
      → get_elem? (overwrite xs i ys) j ≡ get_elem? xs j
  unfolding overwrite
  get_elem?-overwrite_below xs i [] j h = refl
  get_elem?-overwrite_below xs i (y ∷ ys) j h =
      get_elem?-overwrite_below (set xs i y) (suc i) ys j (omega arith)
      ∙ get_elem?-set_ne xs y (omega arith)

  -- An element in range splits a range off.
  pub slice-suc :
      (xs : List A) (i n : ℕ) (x : A)
      → get_elem? xs i ≡ some x
      → slice xs i (suc n) ≡ x ∷ slice xs (suc i) n
  slice-suc [] i n x h = cc
  slice-suc (y ∷ ys) zero n x h = ground arith
  slice-suc (y ∷ ys) (suc i) n x h = slice-suc ys i n x h

  pub get_elem?-of_lt : (xs : List A) (i : ℕ) → i < length xs → (x : A) × (get_elem? xs i ≡ some x)
  get_elem?-of_lt [] i h = elim h [ ]
  get_elem?-of_lt (x ∷ xs) zero h = (x, refl)
  get_elem?-of_lt (x ∷ xs) (suc i) h = get_elem?-of_lt xs i (omega arith)

  pub get_elem?-of_ge : (xs : List A) (i : ℕ) → length xs ≤ i → get_elem? xs i ≡ none
  get_elem?-of_ge [] i h = refl
  get_elem?-of_ge (x ∷ xs) zero h = absurd (omega arith)
  get_elem?-of_ge (x ∷ xs) (suc i) h = get_elem?-of_ge xs i (omega arith)

  -- What was put over a range is read back from it.
  pub slice-overwrite :
      (xs : List A) (i : ℕ) (ys : List A)
      → i + length ys ≤ length xs
      → slice (overwrite xs i ys) i (length ys) ≡ ys
  unfolding overwrite
  slice-overwrite xs i [] h = refl
  slice-overwrite xs i (y ∷ ys) h =
      slice-suc (overwrite (set xs i y) (suc i) ys) i (length ys) y (
        get_elem?-overwrite_below (set xs i y) (suc i) ys i (omega arith)
        ∙ get_elem?-set_self xs i y (omega arith))
      ∙ ap (◌∷◌ y) (slice-overwrite (set xs i y) (suc i) ys (omega (arith, length-set xs i y)))

  take-set_above : (xs : List A) (i : ℕ) (y : A) (n : ℕ) → n ≤ i → take n (set xs i y) ≡ take n xs
  take-set_above xs i y zero h = refl
  take-set_above [] i y (suc n) h = refl
  take-set_above (x ∷ xs) zero y (suc n) h = absurd (omega arith)
  take-set_above (x ∷ xs) (suc i) y (suc n) h = ap (◌∷◌ x) (take-set_above xs i y n (omega arith))

  -- Below the range nothing changes.
  pub take-overwrite :
      (xs : List A) (i : ℕ) (ys : List A) (n : ℕ) → n ≤ i → take n (overwrite xs i ys) ≡ take n xs
  unfolding overwrite
  take-overwrite xs i [] n h = refl
  take-overwrite xs i (y ∷ ys) n h =
      take-overwrite (set xs i y) (suc i) ys n (omega arith) ∙ take-set_above xs i y n h

  drop-set_below : (xs : List A) (i : ℕ) (y : A) (n : ℕ) → i < n → drop n (set xs i y) ≡ drop n xs
  drop-set_below [] i y (suc n) h = refl
  drop-set_below xs i y zero h = elim h [ ]
  drop-set_below (x ∷ xs) zero y (suc n) h = refl
  drop-set_below (x ∷ xs) (suc i) y (suc n) h = drop-set_below xs i y n (omega arith)

  -- Above the range nothing changes.
  pub drop-overwrite :
      (xs : List A) (i : ℕ) (ys : List A) (n : ℕ)
      → i + length ys ≤ n
      → drop n (overwrite xs i ys) ≡ drop n xs
  unfolding overwrite
  drop-overwrite xs i [] n h = refl
  drop-overwrite xs i (y ∷ ys) n h =
      drop-overwrite (set xs i y) (suc i) ys n (omega arith) ∙ drop-set_below xs i y n (omega arith)

  pub length-slice : (xs : List A) (i n : ℕ) → i + n ≤ length xs → length (slice xs i n) ≡ n
  length-slice xs i n h = omega (arith, length-take n (drop i xs), length-drop i xs)

  pub take-take : (i s : ℕ) (xs : List A) → i ≤ s → take i (take s xs) ≡ take i xs
  take-take zero s xs h = refl
  take-take (suc i) zero xs h = absurd (omega arith)
  take-take (suc i) (suc s) [] h = refl
  take-take (suc i) (suc s) (x ∷ xs) h = ap (◌∷◌ x) (take-take i s xs (omega arith))

  pub drop-nil : (m : ℕ) → drop {A = A} m [] ≡ []
  drop-nil zero = refl
  drop-nil (suc m) = refl

  pub take-nil : (m : ℕ) → take {A = A} m [] ≡ []
  take-nil zero = refl
  take-nil (suc m) = refl

  pub drop-take : (m s : ℕ) (xs : List A) → drop m (take s xs) ≡ take (s - m) (drop m xs)
  drop-take zero s xs = ap (λ k. take k xs) (omega arith)
  drop-take (suc m) zero xs =
      let e : 0 ≡ 0 - suc m = omega arith in ap (λ k. take k (drop (suc m) xs)) e
  drop-take (suc m) (suc s) [] = sym (take-nil (suc s - suc m))
  drop-take (suc m) (suc s) (x ∷ xs) =
      let e : s - m ≡ suc s - suc m = omega arith in
      drop-take m s xs ∙ ap (λ k. take k (drop m xs)) e

  pub drop-drop : (m n : ℕ) (xs : List A) → drop n (drop m xs) ≡ drop (m + n) xs
  drop-drop zero n xs = ap (λ k. drop k xs) (omega arith)
  drop-drop (suc m) n [] = drop-nil n ∙ sym (drop-nil (suc m + n))
  drop-drop (suc m) n (x ∷ xs) = rw (suc-add m n) (drop-drop m n xs)

  pub take-append_ge :
      (s : ℕ) (xs ys : List A) → length xs ≤ s → take s (xs ++ ys) ≡ xs ++ take (s - length xs) ys
  take-append_ge s [] ys h = ap (λ k. take k ys) (omega arith)
  take-append_ge zero (x ∷ xs) ys h = absurd (omega arith)
  take-append_ge (suc s) (x ∷ xs) ys h =
      ap (◌∷◌ x) (take-append_ge s xs ys (omega arith) ∙ ap (λ k. xs ++ take k ys) (omega arith))

  -- `ys` put over `xs`, said with what lies before and after it.
  pub overwrite_eq :
      (xs : List A) (i : ℕ) (ys : List A)
      → i + length ys ≤ length xs
      → overwrite xs i ys ≡ take i xs ++ (ys ++ drop (i + length ys) xs)
  overwrite_eq xs i ys h =
      let zs = overwrite xs i ys in
      sym (take-append-drop i zs)
      ∙ ap (λ t. t ++ drop i zs) (take-overwrite xs i ys i (omega arith))
      ∙ ap (λ t. take i xs ++ t)
          (sym (take-append-drop (length ys) (drop i zs))
            ∙ ap (λ t. t ++ drop (length ys) (drop i zs)) (slice-overwrite xs i ys h)
            ∙ ap (λ t. ys ++ t)
                (drop-drop i (length ys) zs ∙ drop-overwrite xs i ys (i + length ys) (omega arith)))

  -- The first `s` elements with `ys` put over a part that begins among them.
  pub take-overwrite_over :
      (xs : List A) (i : ℕ) (ys : List A) (s t : ℕ)
      → i + length ys ≤ length xs
      → i ≤ s
      → t ≡ max s (i + length ys)
      → take t (overwrite xs i ys) ≡ take i (take s xs) ++ (ys ++ drop (i + length ys) (take s xs))
  take-overwrite_over xs i ys s t h hi e =
      let m = i + length ys in
      ap (take t) (overwrite_eq xs i ys h)
      ∙ take-append_ge t (take i xs) (ys ++ drop m xs) (omega (arith, length-take i xs))
      ∙ ap (λ k. take i xs ++ k)
          (take-append_ge (t - length (take i xs)) ys (drop m xs) (omega (arith, length-take i xs))
            ∙ ap (λ k. ys ++ k)
                (ap (λ k. take k (drop m xs)) (omega (arith, length-take i xs))
                  ∙ sym (drop-take m s xs)))
      ∙ ap (λ k. k ++ (ys ++ drop m (take s xs))) (sym (take-take i s xs hi))

  pub take-min : (m n : ℕ) (xs : List A) → take m (take n xs) ≡ take (min n m) xs
  take-min zero n xs = let e : 0 ≡ min n 0 = omega arith in ap (λ k. take k xs) e
  take-min (suc m) zero xs = let e : 0 ≡ min 0 (suc m) = omega arith in ap (λ k. take k xs) e
  take-min (suc m) (suc n) [] = sym (take-nil (min (suc n) (suc m)))
  take-min (suc m) (suc n) (x ∷ xs) =
      let e : suc (min n m) ≡ min (suc n) (suc m) = omega arith in
      ap (◌∷◌ x) (take-min m n xs) ∙ ap (λ k. take k (x ∷ xs)) e

  pub take_of_length-le : (n : ℕ) (xs : List A) → length xs ≤ n → take n xs ≡ xs
  take_of_length-le (suc k) (a ∷ rest) h = ap (λ l. a ∷ l) (take_of_length-le k rest (omega arith))
  take_of_length-le (suc k) [] h = refl
  take_of_length-le zero (a ∷ rest) h = absurd (omega arith)
  take_of_length-le zero [] h = refl

  pub take-append_of_length : (n : ℕ) (xs ys : List A) → length xs ≡ n → take n (xs ++ ys) ≡ xs
  take-append_of_length zero [] ys h = refl
  take-append_of_length zero (x ∷ xs) ys h = absurd (omega arith)
  take-append_of_length (suc n) [] ys h = absurd (omega arith)
  take-append_of_length (suc n) (x ∷ xs) ys h =
      ap (◌∷◌ x) (take-append_of_length n xs ys (omega arith))

  pub drop-append_of_length : (n : ℕ) (xs ys : List A) → length xs ≡ n → drop n (xs ++ ys) ≡ ys
  drop-append_of_length zero [] ys h = refl
  drop-append_of_length zero (x ∷ xs) ys h = absurd (omega arith)
  drop-append_of_length (suc n) [] ys h = absurd (omega arith)
  drop-append_of_length (suc n) (x ∷ xs) ys h = drop-append_of_length n xs ys (omega arith)

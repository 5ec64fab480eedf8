-- ===== src/Compute/Vectors.antt =====
-- The vector kernels of src/core/drivers/compute_ops.c, for AVX2, for NEON and for neither. Their loops go on
-- by a whole register while `i < size`, with nothing for a last part. `result` lies in another block than
-- the sources, but for the normalisation, and the arithmetic of `float` is a parameter.
pub mod Strips
pub mod Tests
use cloud_fly_prlatform.Prelude.{
  ℕ, zero, suc, ◌+◌, ◌*◌, ◌%◌, ◌^◌, List, [], ◌∷◌, map, ltb, if◌then◌else◌, Bool, replicate,
  Outcome, returns, stops, diverge, ◌>>=◌, ◌>>◌,
}
use cloud_fly_prlatform.Compute.Lanes.{load, store, lanes, zip_with}

-- What the compiler is told to use: `__AVX2__`, `__ARM_NEON` or neither.
pub data Instructions : Type 0 where
  avx2 neon scalar : Instructions

unfoldable pub width : Instructions → ℕ
width avx2 = 8
width neon = 4
width scalar = 1

-- `for (size_t i = 0; i < size; i += w)` on what a round changes, on fuel.
unfoldable pub strips {ℓ} : {S : Type ℓ} → ℕ → ℕ → (ℕ → S → Outcome S) → ℕ → ℕ → S → Outcome S
strips zero w step size i state = stops diverge
strips (suc fuel) w step size i state =
    let rest = step i state >>= strips fuel w step size (i + w) in
    if ltb i size then rest else returns state

module _ {ℓ} {A : Type ℓ} (f : A → A → A) where
  unfoldable pub elementwise : Instructions → List A → List A → List A → ℕ → Outcome (List A)
  unfolding width strips
  elementwise instructions a b result size =
      strips (suc size) (width instructions) (lanes f (width instructions) a b) size 0 result

-- `float`: its operations, and its order.
pub record Floats : Type 1 where
  pub Float : Type 0
  pub add : Float → Float → Float
  pub sub : Float → Float → Float
  pub mul : Float → Float → Float
  pub div : Float → Float → Float
  pub zero_value : Float
  pub one_value : Float
  pub sqrtf : Float → Float
  pub positive : Float → Bool

module _ (F : Floats) (instructions : Instructions) where
  unfoldable pub vector_add :
      List F.Float → List F.Float → List F.Float → ℕ → Outcome (List F.Float)
  unfolding elementwise
  vector_add a b result size = elementwise F.add instructions a b result size

  unfoldable pub vector_sub :
      List F.Float → List F.Float → List F.Float → ℕ → Outcome (List F.Float)
  unfolding elementwise
  vector_sub a b result size = elementwise F.sub instructions a b result size

  unfoldable pub vector_mul :
      List F.Float → List F.Float → List F.Float → ℕ → Outcome (List F.Float)
  unfolding elementwise
  vector_mul a b result size = elementwise F.mul instructions a b result size

  unfoldable pub vector_div :
      List F.Float → List F.Float → List F.Float → ℕ → Outcome (List F.Float)
  unfolding elementwise
  vector_div a b result size = elementwise F.div instructions a b result size

  -- The product with a register that holds `scale` in every lane; `source` is read at each step, since the
  -- normalisation passes one vector as both arguments.
  unfoldable pub scale_step :
      ℕ → (List F.Float → List F.Float) → F.Float → ℕ → List F.Float → Outcome (List F.Float)
  scale_step w source scale i result =
      load w (source result) i >>= λ va. store (map (λ x. F.mul x scale) va) result i

  unfoldable pub vector_scale : List F.Float → F.Float → List F.Float → ℕ → Outcome (List F.Float)
  unfolding width strips scale_step
  vector_scale a scale result size =
      strips (suc size) (width instructions) (scale_step (width instructions) (λ r. a) scale) size 0
        result

  unfoldable pub vector_scale_in_place : F.Float → List F.Float → ℕ → Outcome (List F.Float)
  unfolding width strips scale_step
  vector_scale_in_place scale vector size =
      strips (suc size) (width instructions) (scale_step (width instructions) (λ r. r) scale) size 0
        vector

  unfoldable pub sum_from : F.Float → List F.Float → F.Float
  sum_from sum [] = sum
  sum_from sum (x ∷ xs) = sum_from (F.add sum x) xs

  unfoldable pub dot_step :
      ℕ → List F.Float → List F.Float → ℕ → List F.Float → Outcome (List F.Float)
  unfolding load
  dot_step w a b i sum = do
    va ← load w a i
    vb ← load w b i
    returns (zip_with F.add sum (zip_with F.mul va vb))

  -- `temp[0] + temp[1] + …`, from the left.
  unfoldable pub horizontal : List F.Float → F.Float
  unfolding sum_from
  horizontal [] = F.zero_value
  horizontal (x ∷ temp) = sum_from x temp

  unfoldable pub vector_dot : List F.Float → List F.Float → ℕ → Outcome F.Float
  unfolding width strips dot_step horizontal
  vector_dot a b size =
      let w = width instructions in
      strips (suc size) w (dot_step w a b) size 0 (replicate w F.zero_value) >>= λ temp.
      returns (horizontal temp)

  -- `for (size_t i = 0; i < size; i++) sum += vector[i] * vector[i];`
  unfoldable pub vector_length : List F.Float → ℕ → Outcome F.Float
  unfolding strips dot_step horizontal
  vector_length vector size =
      strips (suc size) 1 (dot_step 1 vector vector) size 0 (F.zero_value ∷ []) >>= λ sum.
      returns (F.sqrtf (horizontal sum))

  unfoldable pub vector_normalize : List F.Float → ℕ → Outcome (List F.Float)
  unfolding vector_length vector_scale_in_place
  vector_normalize vector size = do
    length ← vector_length vector size
    if F.positive length
        then vector_scale_in_place (F.div F.one_value length) vector size
        else returns vector

  unfoldable pub matrix_add :
      List F.Float → List F.Float → List F.Float → ℕ → ℕ → Outcome (List F.Float)
  unfolding vector_add
  matrix_add a b result rows cols = vector_add a b result ((rows * cols) % 2 ^ 64)

  unfoldable pub matrix_sub :
      List F.Float → List F.Float → List F.Float → ℕ → ℕ → Outcome (List F.Float)
  unfolding vector_sub
  matrix_sub a b result rows cols = vector_sub a b result ((rows * cols) % 2 ^ 64)

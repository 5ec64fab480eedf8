-- ===== src/Drivers/Buffer/Invariant.antt =====
-- The well-formedness of a buffer, and that every operation that returns keeps it.
use cloud_fly_prlatform.Prelude.{
  ℕ, ◌≤◌, ◌<◌, ◌≡◌, refl, sym, ap, ◌∙◌, min, if◌then◌else◌, true, false, List, some, none, arith,
  length, take, ltb, length-take, returns, stops, Option-cases, inl, inr, ◌⊎◌, Bool-cases,
}
use cloud_fly_prlatform.Prelude.Slices.{overwrite, length-overwrite, slice-overwrite, take-min}
use cloud_fly_prlatform.Drivers.MemoryOps.{Build, word}
use cloud_fly_prlatform.Drivers.MemoryOps.Copy.{
  memcpy-overwrite, Fits, Fits-le, core_memcpy_aligned-memcpy,
}
use cloud_fly_prlatform.Drivers.Buffer.{
  Buffer, ok, failed, Malloc, Reply, move_into, resize, create,
}

pub record IsValid (b : Buffer) : Type 0 where
  pub stored : length b.bytes ≡ b.capacity
  pub filled : b.size ≤ b.capacity
  pub cursor : b.position ≤ b.size
  pub small : b.capacity < word

-- What is documented of `core_malloc`: a block has the size that was asked for.
pub record IsAllocator (malloc : Malloc) : Type 0 where
  pub sized : (n : ℕ) (block : List ℕ) → malloc n ≡ some block → length block ≡ n

-- The bytes that the buffer holds.
abbrev pub contents : Buffer → List ℕ
contents b = take b.size b.bytes

-- A returned buffer is well formed, whatever the code.
abbrev pub Keeps : Reply → Type 0
Keeps (returns (c, b)) = IsValid b
Keeps (stops s) = Unit {0}

-- The buffer after its block was replaced by one of `n` bytes.
abbrev pub moved : Buffer → ℕ → List ℕ → Buffer
moved b n block = record b {
  bytes = overwrite block 0 (take (min b.size n) b.bytes);
  capacity = n;
  size = min b.size n;
  position = min b.position n;
}

abbrev pub Moved : Buffer → ℕ → Buffer → Type 0
Moved b n b' =
    IsValid b'
    × (contents b' ≡ take n (contents b))
    × (b'.position ≡ min b.position n)
    × (b'.size ≡ min b.size n)
    × (b'.capacity ≡ n)
    × (b'.is_owner ≡ b.is_owner)

module _ (b : Buffer) (n : ℕ) (block : List ℕ) (v : IsValid b) (e : length block ≡ n) (at : Build)
    (whole : Fits at 0 0 (min b.size n)) where
  kept : length (take (min b.size n) b.bytes) ≡ min b.size n
  kept = omega (arith, length-take (min b.size n) b.bytes)

  move_into_eq : move_into at b n block ≡ returns (ok, moved b n block)
  unfolding move_into
  move_into_eq =
      let clip : (if ltb b.size n then b.size else n) ≡ min b.size n = ground arith in
      let clip_size : (if ltb n b.size then n else b.size) ≡ min b.size n = ground arith in
      let clip_position : (if ltb n b.position then n else b.position) ≡ min b.position n =
        ground arith in
      rw (
        clip,
        clip_size,
        clip_position,
        core_memcpy_aligned-memcpy at (min b.size n) block 0 b.bytes 0 whole,
        memcpy-overwrite (min b.size n) block 0 b.bytes 0 (omega arith) (omega arith),
      )

  moved-Moved : n < word → Moved b n (moved b n block)
  moved-Moved w =
      let ys = take (min b.size n) b.bytes in
      (
        omega (arith, length-overwrite block 0 ys),
        ap (λ t. take t (overwrite block 0 ys)) (sym kept)
            ∙ slice-overwrite block 0 ys (omega (arith, kept))
            ∙ sym (take-min n b.size b.bytes),
        refl,
        refl,
        refl,
        refl,
      )

-- `core_buffer_resize` at an owned buffer, when the allocator has a block, and the copy is of fewer than 32 bytes
-- or between blocks on 32-byte boundaries where the build uses AVX2: the buffer stays well formed, its capacity is
-- the new one, and contents, size and position are clipped to it.
pub resize-Moved :
    (at : Build) (malloc : Malloc) (b : Buffer) (n : ℕ) (block : List ℕ)
    → IsAllocator malloc
    → IsValid b
    → n < word
    → b.is_owner ≡ true
    → malloc n ≡ some block
    → Fits at 0 0 (min b.size n)
    → (b' : Buffer) × (resize at malloc b n ≡ returns (ok, b')) × Moved b n b'
unfolding resize
resize-Moved at malloc b n block a v w own got whole = (
  moved b n block,
  ground (arith, move_into_eq b n block v (a.sized n block got) at whole),
  moved-Moved b n block v (a.sized n block got) at whole w,
)

-- Otherwise it fails and leaves the buffer as it was.
pub resize-failed :
    (at : Build) (malloc : Malloc) (b : Buffer) (n : ℕ)
    → (b.is_owner ≡ false) ⊎ (malloc n ≡ none)
    → resize at malloc b n ≡ returns (failed, b)
unfolding resize
resize-failed at malloc b n h = ground arith

-- The outcomes of a resize whose copy fits, for its callers.
pub resize-cases :
    (at : Build) (malloc : Malloc) (b : Buffer) (n : ℕ)
    → IsAllocator malloc
    → IsValid b
    → n < word
    → Fits at 0 0 b.size
    → (resize at malloc b n ≡ returns (failed, b))
      ⊎ ((b' : Buffer) × (resize at malloc b n ≡ returns (ok, b')) × Moved b n b')
resize-cases at malloc b n a v w whole = elim (Bool-cases b.is_owner) [
  | inr other ↦ inl (resize-failed at malloc b n (inl other))
  | inl own ↦ elim (Option-cases (malloc n)) [
    | inl out ↦ inl (resize-failed at malloc b n (inr out))
    | inr (block, got) ↦ inr (
        resize-Moved at malloc b n block a v w own got
          (Fits-le at 0 0 (min b.size n) b.size (omega arith) whole))
  ]
]

-- What `core_buffer_create` gives is well formed and empty, with the capacity asked for.
pub create-IsValid :
    (malloc : Malloc) (n : ℕ) (b : Buffer)
    → IsAllocator malloc
    → n < word
    → create malloc n ≡ some b
    → IsValid b × (b.capacity ≡ n) × (b.size ≡ 0) × (b.is_owner ≡ true)
unfolding create
create-IsValid malloc n b a w e = elim (Option-cases (malloc n)) [
  | inl out ↦ absurd (ground (arith, out))
  | inr (block, got) ↦ ground (arith, got, a.sized n block)
]

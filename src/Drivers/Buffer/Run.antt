-- ===== src/Drivers/Buffer/Run.antt =====
-- Sequences of buffer operations: the invariant along any of them.
use cloud_fly_prlatform.Prelude.{
  ℕ, ◌+◌, ◌*◌, ◌%◌, ◌^◌, ◌≤◌, ◌<◌, ◌≡◌, refl, sym, subst, ap, ◌∙◌, List, [], ◌∷◌, length, arith,
  returns, stops, fault, Option-cases, if◌then◌else◌, Outcome, ◌>>=◌, inl, inr, ◌⊎◌, Outcome-cases,
  ltb, Bool-cases, leb, false, ◌==◌, take, length-take,
}
use cloud_fly_prlatform.Prelude.Slices.{
  overwrite, length-overwrite, slice-overwrite, take_of_length-le,
}
use cloud_fly_prlatform.Prelude.Powers.{two_pow_pos}
use cloud_fly_prlatform.Drivers.MemoryOps.{Build, scalar, core_memcpy_aligned, word, round_up}
use cloud_fly_prlatform.Drivers.MemoryOps.Copy.{
  memcpy-overwrite, memcpy-fault_dest, Fits, core_memcpy_aligned-memcpy, core_memcpy_aligned-cases,
}
use cloud_fly_prlatform.Drivers.MemoryOps.Alignment.{round_up_bounds}
use cloud_fly_prlatform.Drivers.Buffer.{
  Buffer, ok, failed, Malloc, Reply, move_into, grow, grow_fuel, resize, put, write, peek, read,
  skip, seek, rewind, clear, copy, align,
}
use cloud_fly_prlatform.Drivers.Buffer.Growth.{grow-bounds}
use cloud_fly_prlatform.Drivers.Buffer.Invariant.{
  IsValid, IsAllocator, Keeps, contents, resize-cases,
}
use cloud_fly_prlatform.Drivers.Buffer.Stream.{put-Wrote}

-- A call, with the caller's memory; each has the allocator and the addresses of the blocks as they are at that
-- time.
pub data Op : Type 0 where
  resizes : Build → Malloc → ℕ → Op
  writes : Build → Build → Malloc → List ℕ → ℕ → Op
  reads peeks : Build → List ℕ → ℕ → Op
  skips seeks : ℕ → Op
  rewinds clears : Op

-- The arguments that C callers may pass: the source holds the bytes, sizes are `size_t`.
abbrev pub Allowed : Op → Type 0
Allowed (resizes at malloc n) = IsAllocator malloc × (n < word)
Allowed (writes grown at malloc src n) = IsAllocator malloc × (n ≤ length src) × (n < word)
Allowed (reads at out n) = n < word
Allowed (peeks at out n) = n < word
Allowed (skips n) = n < word
Allowed (seeks n) = n < word
Allowed rewinds = Unit {0}
Allowed clears = Unit {0}

unfoldable pub step : Op → Buffer → Outcome Buffer
step (resizes at malloc n) b = resize at malloc b n >>= λ r. returns r.1
step (writes grown at malloc src n) b = write grown at malloc b src n >>= λ r. returns r.1
step (reads at out n) b = read at b out n >>= λ r. returns r.1
step (peeks at out n) b = peek at b out n >>= λ r. returns r.1
step (skips n) b = returns (skip b n).1
step (seeks p) b = returns (seek b p).1
step rewinds b = returns (rewind b).1
step clears b = returns (clear b)

unfoldable pub run : List Op → Buffer → Outcome Buffer
run [] b = returns b
run (op ∷ ops) b = step op b >>= run ops

put_scalar-Keeps :
    (b : Buffer) (src : List ℕ) (n : ℕ)
    → IsValid b
    → n ≤ length src
    → n < word
    → Keeps (put scalar b src n)
unfolding put core_memcpy_aligned
put_scalar-Keeps b src n v h w = elim (Bool-cases (leb (b.position + n) b.capacity)) [
  | inl fits ↦
      let (b', e, (v', _, _)) = put-Wrote scalar b src n v h (ground arith) tt in
      subst Keeps (sym e) v'
  | inr over ↦ rw (memcpy-fault_dest n b.bytes b.position src 0 (omega arith) (ground arith)) tt
]

put-Keeps :
    (at : Build) (b : Buffer) (src : List ℕ) (n : ℕ)
    → IsValid b
    → n ≤ length src
    → n < word
    → Keeps (put at b src n)
unfolding put
put-Keeps at b src n v h w = elim (core_memcpy_aligned-cases at n b.bytes b.position src 0) [
  | inr bad ↦ rw bad tt
  | inl good ↦ rw good (put_scalar-Keeps b src n v h w)
]

-- A resize ends like one without AVX2, or faults.
resize_scalar :
    (at : Build) (malloc : Malloc) (b : Buffer) (n : ℕ)
    → (resize at malloc b n ≡ resize scalar malloc b n) ⊎ (resize at malloc b n ≡ stops fault)
unfolding resize move_into core_memcpy_aligned
resize_scalar at malloc b n = elim (Bool-cases b.is_owner) [
  | inr other ↦ inl (rw other)
  | inl own ↦ elim (Option-cases (malloc n)) [
    | inl out ↦ inl (rw (own, out))
    | inr (block, got) ↦
        elim (core_memcpy_aligned-cases at (if ltb b.size n then b.size else n) block 0 b.bytes 0) [
          | inl good ↦ inl (rw (own, got, good))
          | inr bad ↦ inr (rw (own, got, bad))
        ]
  ]
]

resize-Keeps :
    (at : Build) (malloc : Malloc) (b : Buffer) (n : ℕ)
    → IsAllocator malloc
    → IsValid b
    → n < word
    → Keeps (resize at malloc b n)
resize-Keeps at malloc b n a v w = elim (resize_scalar at malloc b n) [
  | inr bad ↦ rw bad tt
  | inl good ↦ elim (resize-cases scalar malloc b n a v w tt) [
    | inl e ↦ rw (good, e) v
    | inr (b', e, (v', _, _, _, _, _)) ↦ rw (good, e) v'
  ]
]

write-Keeps :
    (grown at : Build) (malloc : Malloc) (b : Buffer) (src : List ℕ) (n : ℕ)
    → IsAllocator malloc
    → IsValid b
    → n ≤ length src
    → n < word
    → Keeps (write grown at malloc b src n)
unfolding write
write-Keeps grown at malloc b src n a v h w = elim (Bool-cases (n == 0)) [
  | inl none ↦ rw none v
  | inr some ↦ elim (Bool-cases (ltb b.capacity need)) [
    | inr room ↦ rw (some, room) (put-Keeps at b src n v h w)
    | inl over ↦ elim (Outcome-cases (grow grow_fuel need start)) [
      | inl (s, e) ↦ rw (some, over, e) tt
      | inr (r, e) ↦
          let bounds = grow-bounds grow_fuel need start r (omega arith) e in
          elim (resize_scalar grown malloc b r) [
            | inr bad ↦ rw (some, over, e, bad) tt
            | inl good ↦ elim (resize-cases scalar malloc b r a v bounds.1 tt) [
              | inl f ↦ rw (some, over, e, good, f) v
              | inr (b', f, (v', _, _, _, _, _)) ↦
                  rw (some, over, e, good, f) (put-Keeps at b' src n v' h w)
            ]
          ]
    ]
  ]
]
  where
    need : ℕ
    need = (b.position + n) % word

    start : ℕ
    start = b.capacity * 2 % word

Keeps-IsValid :
    (m : Reply) {b : Buffer} → Keeps m → (m >>= λ r. returns r.1) ≡ returns b → IsValid b
Keeps-IsValid (returns (c, b)) k e = subst IsValid (ground arith) k
Keeps-IsValid (stops s) k e = absurd (ground arith)

-- Every call that comes back, with any code, leaves a well-formed buffer.
pub step-IsValid :
    (op : Op) {b b' : Buffer} → IsValid b → Allowed op → step op b ≡ returns b' → IsValid b'
unfolding step read peek skip seek rewind clear
step-IsValid (resizes at malloc n) {b} v f e =
    Keeps-IsValid (resize at malloc b n) (resize-Keeps at malloc b n f.0 v f.1) e
step-IsValid (writes grown at malloc src n) {b} v f e =
    Keeps-IsValid (write grown at malloc b src n)
      (write-Keeps grown at malloc b src n f.0 v f.1 f.2) e
step-IsValid (reads at out n) {b} v f e =
    elim (Outcome-cases (core_memcpy_aligned at n out 0 b.bytes b.position)) [
      | inl (s, g) ↦ ground (arith, g)
      | inr (c, g) ↦ ground (arith, g)
    ]
step-IsValid (peeks at out n) {b} v f e =
    elim (Outcome-cases (core_memcpy_aligned at n out 0 b.bytes b.position)) [
      | inl (s, g) ↦ ground (arith, g)
      | inr (c, g) ↦ ground (arith, g)
    ]
step-IsValid (skips n) v f e = ground arith
step-IsValid (seeks p) v f e = ground arith
step-IsValid rewinds v f e = ground arith
step-IsValid clears v f e = ground arith

abbrev pub AllAllowed : List Op → Type 0
AllAllowed [] = Unit {0}
AllAllowed (op ∷ ops) = Allowed op × AllAllowed ops

-- After any calls of `core_buffer_resize`, `write`, `read`, `peek`, `skip`, `seek`, `rewind` and `clear`, in any
-- order, in either build and with any codes, with an allocator that gives blocks of the size asked for, sources
-- that hold the bytes, and sizes that are `size_t`, a well-formed buffer is well formed as long as every call has
-- come back.
pub run-IsValid :
    (ops : List Op) {b b' : Buffer}
    → IsValid b
    → AllAllowed ops
    → run ops b ≡ returns b'
    → IsValid b'
unfolding run
run-IsValid [] v f e = subst IsValid (ground arith) v
run-IsValid (op ∷ ops) {b} v f e = elim (Outcome-cases (step op b)) [
  | inl (s, g) ↦ absurd (ground (arith, g))
  | inr (b₁, g) ↦ run-IsValid ops (step-IsValid op v f.0 g) f.1 (rw g at e)
]

-- `core_buffer_copy` from a well-formed buffer, where the copies fit the build: it fails and leaves the destination as it was, or
-- the destination holds the source's contents, from the beginning.
pub copy_lem :
    (grown at : Build) (malloc : Malloc) (dest src : Buffer)
    → IsAllocator malloc
    → IsValid dest
    → IsValid src
    → Fits grown 0 0 dest.size
    → Fits at 0 0 src.size
    → (copy grown at malloc dest src ≡ returns (failed, dest))
      ⊎ ((b : Buffer) × (copy grown at malloc dest src ≡ returns (ok, b))
          × IsValid b
          × (contents b ≡ contents src)
          × (b.position ≡ 0))
unfolding copy
copy_lem grown at malloc dest src a vd vs old whole =
    elim (Bool-cases (ltb dest.capacity src.size)) [
      | inr fits ↦ inr (
        record dest { bytes = filled dest; size = src.size; position = 0 },
        rw (fits, fill dest vd (ground arith)),
        filled-IsValid dest vd (ground arith),
        filled-contents dest vd (ground arith),
        refl,
      )
      | inl over ↦ elim (resize-cases grown malloc dest src.size a vd (omega arith) old) [
        | inl e ↦ inl (rw (over, e))
        | inr (b₁, e, (v₁, _, _, _, capacity, _)) ↦ inr (
          record b₁ { bytes = filled b₁; size = src.size; position = 0 },
          rw (over, e, fill b₁ v₁ (omega arith)),
          filled-IsValid b₁ v₁ (omega arith),
          filled-contents b₁ v₁ (omega arith),
          refl,
        )
      ]
    ]
  where
    len : length (contents src) ≡ src.size
    len = omega (arith, length-take src.size src.bytes)

    filled : Buffer → List ℕ
    filled b = overwrite b.bytes 0 (contents src)

    fill :
        (b : Buffer)
        → IsValid b
        → src.size ≤ b.capacity
        → core_memcpy_aligned at src.size b.bytes 0 src.bytes 0 ≡ returns (filled b)
    fill b v h =
        core_memcpy_aligned-memcpy at src.size b.bytes 0 src.bytes 0 whole
        ∙ memcpy-overwrite src.size b.bytes 0 src.bytes 0 (omega arith) (omega arith)

    filled-IsValid :
        (b : Buffer)
        → IsValid b
        → src.size ≤ b.capacity
        → IsValid (record b { bytes = filled b; size = src.size; position = 0 })
    filled-IsValid b v h = omega (arith, length-overwrite b.bytes 0 (contents src))

    filled-contents :
        (b : Buffer) → IsValid b → src.size ≤ b.capacity → take src.size (filled b) ≡ contents src
    filled-contents b v h =
        ap (λ n. take n (filled b)) (sym len)
        ∙ slice-overwrite b.bytes 0 (contents src) (omega (arith, len))

-- `core_buffer_align` to a power of two, where rounding up does not wrap and a copy fits the build: it fails and leaves the
-- buffer as it was, or the size is the least multiple that holds the contents, the contents stand
-- at its beginning, and the buffer is well formed.
pub align_lem :
    (at : Build) (malloc : Malloc) (b : Buffer) (k : ℕ)
    → IsAllocator malloc
    → IsValid b
    → k < 64
    → b.size + 2 ^ k ≤ word
    → Fits at 0 0 b.size
    → (align at malloc b (2 ^ k) ≡ returns (failed, b))
      ⊎ ((b' : Buffer) × (align at malloc b (2 ^ k) ≡ returns (ok, b'))
          × IsValid b'
          × (b.size ≤ b'.size)
          × (b'.size < b.size + 2 ^ k)
          × (b'.size % 2 ^ k ≡ 0)
          × (take b.size b'.bytes ≡ contents b))
unfolding align
align_lem at malloc b k a v small fits old =
    let (low, high, whole) = round_up_bounds k b.size small fits in
    let r = round_up b.size (2 ^ k) in
    elim (Bool-cases (ltb b.capacity r)) [
      | inr room ↦
          inr (record b { size = r }, rw (nonzero, room), ground arith, low, high, whole, refl)
      | inl over ↦ elim (resize-cases at malloc b r a v (omega arith) old) [
        | inl e ↦ inl (rw (nonzero, over, e))
        | inr (b₁, e, (v₁, same, _, size, capacity, _)) ↦ inr (
          record b₁ { size = r },
          rw (nonzero, over, e),
          omega arith,
          low,
          high,
          whole,
          ap (λ n. take n b₁.bytes) (omega arith)
              ∙ same
              ∙ take_of_length-le r (contents b) (omega (arith, length-take b.size b.bytes)),
        )
      ]
    ]
  where
    nonzero : (2 ^ k == 0) ≡ false
    nonzero = ground (arith, two_pow_pos k)

-- ===== src/Drivers/Buffer/Stream.antt =====
-- The buffer as a stream: a sequence of bytes with a position in it.
use cloud_fly_prlatform.Prelude.{
  ℕ, ◌+◌, ◌*◌, ◌-◌, ◌%◌, ◌^◌, ◌≤◌, ◌<◌, ◌≡◌, refl, sym, ap, subst, ap₂, ◌∙◌, false, List, ◌++◌,
  arith, length, take, drop, ltb, ◌==◌, length-take, Outcome, returns, inl, inr, ◌⊎◌, Bool-cases,
  max, if◌then◌else◌,
}
use cloud_fly_prlatform.Prelude.Slices.{
  slice, overwrite, length-overwrite, slice-overwrite, length-slice, take-overwrite_over, drop-take,
  take-take, drop-overwrite, take_of_length-le, take-append_of_length, drop-append_of_length,
}
use cloud_fly_prlatform.Drivers.MemoryOps.{Build, word}
use cloud_fly_prlatform.Drivers.MemoryOps.Copy.{memcpy-overwrite, Fits, core_memcpy_aligned-memcpy}
use cloud_fly_prlatform.Drivers.Buffer.{
  Buffer, Code, ok, failed, Malloc, Reply, if_ok, resize, put, write, read, seek,
}
use cloud_fly_prlatform.Drivers.Buffer.Growth.{grow-returns}
use cloud_fly_prlatform.Drivers.Buffer.Invariant.{IsValid, IsAllocator, contents, resize-cases}

-- A sequence with `ys` written over it at `i`, longer where `ys` goes past its end.
abbrev pub spliced : List ℕ → ℕ → List ℕ → List ℕ
spliced xs i ys = take i xs ++ (ys ++ drop (i + length ys) xs)

-- `b'` is `b` after `src` was written at its position.
abbrev pub Wrote : Buffer → List ℕ → ℕ → Buffer → Type 0
Wrote b src n b' =
    IsValid b'
    × (contents b' ≡ spliced (contents b) b.position (take n src))
    × (b'.position ≡ b.position + n)

pub put-Wrote :
    (at : Build) (b : Buffer) (src : List ℕ) (n : ℕ)
    → IsValid b
    → n ≤ length src
    → b.position + n ≤ b.capacity
    → Fits at b.position 0 n
    → (b' : Buffer) × (put at b src n ≡ returns (ok, b')) × Wrote b src n b'
unfolding put
put-Wrote at b src n v h fits whole =
    let ys = take n src in
    let len : length ys ≡ n = omega (arith, length-take n src) in
    let end_ : (b.position + n) % word ≡ b.position + n = omega arith in
    let total = max b.size (b.position + n) in
    let total_eq : (if ltb b.size (b.position + n) then b.position + n else b.size) ≡ total =
      ground arith in
    (
      record b { bytes = overwrite b.bytes b.position ys; position = b.position + n; size = total },
      rw (
        core_memcpy_aligned-memcpy at n b.bytes b.position src 0 whole,
        memcpy-overwrite n b.bytes b.position src 0 (omega arith) (omega arith),
        end_,
        total_eq,
      ),
      (
        omega (arith, length-overwrite b.bytes b.position ys),
        take-overwrite_over b.bytes b.position ys b.size total (omega arith) (omega arith)
            (omega arith),
        refl,
      ),
    )

abbrev pub Writes : Buffer → List ℕ → ℕ → Reply → Type 0
Writes b src n r =
    ((r ≡ returns (failed, b)) × (b.capacity < b.position + n))
    ⊎ ((b' : Buffer) × (r ≡ returns (ok, b')) × Wrote b src n b')

-- A write that needs a larger block: the resize fails and so does it, or it writes.
write_grown :
    (grown at : Build) (malloc : Malloc) (b : Buffer) (src : List ℕ) (n r : ℕ)
    → IsAllocator malloc
    → IsValid b
    → n ≤ length src
    → b.capacity < b.position + n
    → b.position + n ≤ r
    → r < word
    → Fits grown 0 0 b.size
    → Fits at b.position 0 n
    → Writes b src n (if_ok (resize grown malloc b r) (λ b'. put at b' src n))
write_grown grown at malloc b src n r a v h over need w old whole =
    elim (resize-cases grown malloc b r a v w old) [
      | inl e ↦ inl (rw e, over)
      | inr (b₁, e, (v₁, same, position, size, capacity, own)) ↦
          let kept : contents b₁ ≡ contents b =
            same ∙ take_of_length-le r (contents b) (omega (arith, length-take b.size b.bytes)) in
          let at_ : b₁.position ≡ b.position = omega arith in
          let (b₂, f, (v₂, written, moved)) =
            put-Wrote at b₁ src n v₁ h (omega arith) (subst (λ p. Fits at p 0 n) (sym at_) whole) in
          inr (
            b₂,
            rw e f,
            (v₂, written ∙ ap₂ (λ xs p. spliced xs p (take n src)) kept at_, omega arith),
          )
    ]

-- `core_buffer_write` of `n` bytes, more than 0, from a source that holds them, at a well-formed buffer whose
-- capacity is not 0, up to half the address space, with an allocator that gives blocks of the size asked for, where
-- in a build with AVX2 each of its two copies (of the contents into a larger block, of the bytes to the position)
-- is of fewer than 32 bytes or between 32-byte boundaries: it returns; it fails, changing nothing, only where the
-- buffer has to grow; and where it succeeds the bytes stand at the old position, overwriting or extending the
-- contents, the position is behind them, and the buffer is well formed.
pub write_refines :
    (grown at : Build) (malloc : Malloc) (b : Buffer) (src : List ℕ) (n : ℕ)
    → IsAllocator malloc
    → IsValid b
    → 0 < n
    → n ≤ length src
    → 0 < b.capacity
    → b.position + n ≤ 2 ^ 63
    → Fits grown 0 0 b.size
    → Fits at b.position 0 n
    → Writes b src n (write grown at malloc b src n)
unfolding write
write_refines grown at malloc b src n a v pos h cap half old whole =
    elim (Bool-cases (ltb b.capacity (b.position + n))) [
      | inr fits ↦ rw (nonzero, narrow, fits) (inr (put-Wrote at b src n v h (ground arith) whole))
      | inl over ↦
          let (r, e, need, w) =
            grow-returns (b.position + n) (b.capacity * 2 % word) (ground arith) (omega arith)
              half in
          rw (nonzero, narrow, over, e)
            (write_grown grown at malloc b src n r a v h (ground arith) need w old whole)
    ]
  where
    nonzero : (n == 0) ≡ false
    nonzero = ground arith

    narrow : (b.position + n) % word ≡ b.position + n
    narrow = omega arith

abbrev pub Reads : Buffer → List ℕ → ℕ → Outcome (Code × Buffer × List ℕ) → Type 0
Reads b out n r =
    ((b.size < b.position + n) × (r ≡ returns (failed, b, out)))
    ⊎ ((b.position + n ≤ b.size)
        × ((out' : List ℕ) × (r ≡ returns (ok, record b { position = b.position + n }, out'))
            × (take n out' ≡ slice (contents b) b.position n)
            × (drop n out' ≡ drop n out)))

-- `core_buffer_read` of `n` bytes, more than 0, into memory `out` with room for them, at a well-formed buffer, with
-- no wrap of the position, where in a build with AVX2 there are fewer than 32 bytes or both ends of the copy are on
-- 32-byte boundaries: if the bytes are there it returns them, the rest of `out` stays, and the position goes behind
-- them; if not it fails and changes nothing.
pub read_refines :
    (at : Build) (b : Buffer) (out : List ℕ) (n : ℕ)
    → IsValid b
    → 0 < n
    → n ≤ length out
    → b.position + n < word
    → Fits at 0 b.position n
    → Reads b out n (read at b out n)
unfolding read
read_refines at b out n v pos h narrow whole =
    let bytes = slice b.bytes b.position n in
    elim (Bool-cases (ltb b.size (b.position + n))) [
      | inl short ↦ inl (ground arith, rw (nonzero, wide, short))
      | inr there ↦
          let fits : b.position + n ≤ b.size = ground arith in
          let len : length bytes ≡ n = length-slice b.bytes b.position n (omega arith) in
          inr (
            fits,
            (
              overwrite out 0 bytes,
              rw (
                nonzero,
                wide,
                there,
                core_memcpy_aligned-memcpy at n out 0 b.bytes b.position whole,
                memcpy-overwrite n out 0 b.bytes b.position (omega arith) (omega arith),
              ),
              ap (λ k. take k (overwrite out 0 bytes)) (sym len)
                  ∙ slice-overwrite out 0 bytes (omega arith)
                  ∙ sym (
                      ap (take n) (drop-take b.position b.size b.bytes)
                      ∙ take-take n (b.size - b.position) (drop b.position b.bytes) (omega arith)),
              drop-overwrite out 0 bytes n (omega arith),
            ),
          )
    ]
  where
    nonzero : (n == 0) ≡ false
    nonzero = ground arith

    wide : (b.position + n) % word ≡ b.position + n
    wide = omega arith

slice-spliced :
    (xs : List ℕ) (i : ℕ) (ys : List ℕ) (n : ℕ)
    → i ≤ length xs
    → length ys ≡ n
    → slice (spliced xs i ys) i n ≡ ys
slice-spliced xs i ys n h e =
    let rest = drop (i + length ys) xs in
    ap (take n) (drop-append_of_length i (take i xs) (ys ++ rest) (omega (arith, length-take i xs)))
    ∙ take-append_of_length n ys rest e

abbrev pub ReadsBack : Build → Buffer → ℕ → List ℕ → List ℕ → ℕ → Type 0
ReadsBack at b' position src out n =
    let back = record b' { position = position } in
    (seek b' position ≡ (ok, back))
    × ((out' : List ℕ) × (read at back out n
          ≡ returns (ok, record back { position = position + n }, out'))
        × (take n out' ≡ take n src))

Wrote-ReadsBack :
    (reads : Build) (b b' : Buffer) (src out : List ℕ) (n : ℕ)
    → IsValid b
    → 0 < n
    → n ≤ length src
    → n ≤ length out
    → Wrote b src n b'
    → Fits reads 0 b.position n
    → ReadsBack reads b' b.position src out n
unfolding seek
Wrote-ReadsBack reads b b' src out n v pos h ho (v', written, at) whole =
    let back = record b' { position = b.position } in
    elim (read_refines reads back out n (omega arith) pos ho (omega arith) whole) [
      | inl (short, _) ↦ absurd (omega arith)
      | inr (_, (out', r, got, _)) ↦ (
        ground arith,
        (
          out',
          r,
          got
              ∙ ap (λ xs. slice xs b.position n) written
              ∙ slice-spliced (contents b) b.position (take n src) n
                  (omega (arith, length-take b.size b.bytes)) (omega (arith, length-take n src)),
        ),
      )
    ]

-- What a successful `core_buffer_write` of `n` bytes wrote, under the conditions of `write_refines`, is read back by
-- `core_buffer_seek` to the old position and `core_buffer_read` of as many bytes into memory with room for them,
-- where in a build with AVX2 the copy of the read, too, is of fewer than 32 bytes or between 32-byte boundaries.
pub write-seek-read :
    (grown at reads : Build) (malloc : Malloc) (b b' : Buffer) (src out : List ℕ) (n : ℕ)
    → IsAllocator malloc
    → IsValid b
    → 0 < n
    → n ≤ length src
    → n ≤ length out
    → 0 < b.capacity
    → b.position + n ≤ 2 ^ 63
    → Fits grown 0 0 b.size
    → Fits at b.position 0 n
    → Fits reads 0 b.position n
    → write grown at malloc b src n ≡ returns (ok, b')
    → ReadsBack reads b' b.position src out n
write-seek-read grown at reads malloc b b' src out n a v pos h ho cap half old whole back e =
    elim (write_refines grown at malloc b src n a v pos h cap half old whole) [
      | inl (f, _) ↦ absurd (not_both (sym f ∙ e))
      | inr (b₁, f, w) ↦
          Wrote-ReadsBack reads b b' src out n v pos h ho
            (subst (Wrote b src n) (same b₁ (sym f ∙ e)) w) back
    ]
  where
    not_both : ¬ (◌≡◌ {A = Reply} (returns (failed, b)) (returns (ok, b')))
    not_both p = cc

    same : (b₁ : Buffer) → ◌≡◌ {A = Reply} (returns (ok, b₁)) (returns (ok, b')) → b₁ ≡ b'
    same b₁ p = cc

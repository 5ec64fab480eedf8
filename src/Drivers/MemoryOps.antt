-- ===== src/Drivers/MemoryOps.antt =====
-- src/core/drivers/memory_ops.c: the copy loops and the alignment functions. A block of memory is
-- the list of its bytes, and an access outside it is a fault.
pub mod Copy
pub mod Alignment
mod Tests
use Prim.Native.Nat.{bit_and}
use cloud_fly_prlatform.Prelude.{
  ℕ, zero, suc, ◌+◌, ◌-◌, ◌%◌, ◌^◌, ◌&&◌, List, [], ◌∷◌, none, some, length, get_elem?, set, ltb,
  leb, ◌==◌, if◌then◌else◌, Outcome, returns, stops, fault, diverge, ◌>>=◌,
}

unfoldable pub load : List ℕ → ℕ → Outcome ℕ
load xs i = elim (get_elem? xs i) [ none ↦ stops fault | some b ↦ returns b ]

unfoldable pub store : List ℕ → ℕ → ℕ → Outcome (List ℕ)
store xs i b = if ltb i (length xs) then returns (set xs i b) else stops fault

-- The scalar loop over `n` bytes, from `src` at index `s` to `dest` at index `d`.
unfoldable pub memcpy : ℕ → List ℕ → ℕ → List ℕ → ℕ → Outcome (List ℕ)
memcpy zero dest d src s = returns dest
memcpy (suc n) dest d src s = do
  b ← load src s
  dest' ← store dest d b
  memcpy n dest' (suc d) src (suc s)

unfoldable pub load_block : ℕ → List ℕ → ℕ → Outcome (List ℕ)
load_block zero src s = returns []
load_block (suc n) src s = do b ← load src s; bs ← load_block n src (suc s); returns (b ∷ bs)

unfoldable pub store_block : List ℕ → List ℕ → ℕ → Outcome (List ℕ)
store_block [] dest d = returns dest
store_block (b ∷ bs) dest d = do dest' ← store dest d b; store_block bs dest' (suc d)

-- The AVX2 loop: the aligned 32-byte load and store fault at an address that is no multiple of 32.
-- `da` and `sa` are the addresses of the two blocks, and `k` the fuel.
unfoldable pub copy_blocks : ℕ → ℕ → ℕ → ℕ → List ℕ → ℕ → List ℕ → ℕ → ℕ → Outcome (ℕ × List ℕ)
copy_blocks zero da sa n dest d src s i = stops diverge
copy_blocks (suc k) da sa n dest d src s i =
    let round : Outcome (ℕ × List ℕ) = do
      bytes ← load_block 32 src (s + i)
      dest' ← store_block bytes dest (d + i)
      copy_blocks k da sa n dest' d src s (i + 32)
    in let aligned = ((sa + s + i) % 32 == 0) && ((da + d + i) % 32 == 0) in
      let body = if aligned then round else stops fault in
      if leb (i + 32) n then body else returns (i, dest)

unfoldable pub memcpy_avx2 : ℕ → ℕ → ℕ → List ℕ → ℕ → List ℕ → ℕ → Outcome (List ℕ)
memcpy_avx2 da sa n dest d src s = do
  (i, dest') ← copy_blocks (suc n) da sa n dest d src s 0
  memcpy (n - i) dest' (d + i) src (s + i)

-- `core_memcpy_aligned` as it is compiled: without AVX2, or with it, from the block at one address to the block
-- at another.
pub data Build : Type 0 where
  scalar : Build
  avx2 : (da sa : ℕ) → Build

unfoldable pub core_memcpy_aligned : Build → ℕ → List ℕ → ℕ → List ℕ → ℕ → Outcome (List ℕ)
unfolding memcpy memcpy_avx2
core_memcpy_aligned scalar n dest d src s = memcpy n dest d src s
core_memcpy_aligned (avx2 da sa) n dest d src s = memcpy_avx2 da sa n dest d src s

abbrev pub word : ℕ
word = 2 ^ 64

-- `uintptr_t` and `size_t` have 64 bits: `~x` is `word - 1 - x`, and `x - 1` wraps at 0.
unfoldable pub complement : ℕ → ℕ
complement x = word - 1 - x

abbrev pub pred_word : ℕ → ℕ
pred_word x = (x + word - 1) % word

-- (x + alignment - 1) & ~(alignment - 1), the expression of `core_align_ptr` and `core_buffer_align`.
unfoldable pub round_up : ℕ → ℕ → ℕ
unfolding complement
round_up x alignment =
    bit_and (pred_word ((x + alignment) % word)) (complement (pred_word alignment))

unfoldable pub align_ptr : ℕ → ℕ → ℕ
unfolding round_up
align_ptr addr alignment = round_up addr alignment

unfoldable pub get_alignment_offset : ℕ → ℕ → ℕ
get_alignment_offset addr alignment =
    bit_and ((alignment + word - bit_and addr (pred_word alignment)) % word) (pred_word alignment)

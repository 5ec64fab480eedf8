-- ===== src/Drivers/MemoryOps/Copy.antt =====
-- What the copy loops do, and that the AVX2 loop does the same.
use native.Mathlib.Nat.{add-zero, suc-add, add-suc, add_assoc, sub-zero}
use cloud_fly_prlatform.Prelude.{
  ℕ, zero, suc, ◌+◌, ◌-◌, ◌%◌, ◌≤◌, ◌<◌, ◌≡◌, refl, ap, ◌∙◌, List, [], ◌∷◌, arith, length, ◌≢◌,
  get_elem?, set, length-set, returns, stops, fault, ◌>>=◌, Outcome, ltb, Bool-cases, inl, inr, leb,
  ◌⊎◌, Option-cases, >>=_cong, >>=_assoc, ==_iff, sym, none, some, dec_lt, ℕ_discrete, false,
}
use cloud_fly_prlatform.Prelude.Slices.{
  slice, overwrite, slice-suc, get_elem?-of_lt, get_elem?-of_ge,
}
use cloud_fly_prlatform.Drivers.MemoryOps.{
  Build, scalar, avx2, core_memcpy_aligned, load, store, memcpy, load_block, store_block,
  copy_blocks, memcpy_avx2,
}

-- In range, the loop puts the range of `src` over that of `dest`.
pub memcpy-overwrite :
    (n : ℕ) (dest : List ℕ) (d : ℕ) (src : List ℕ) (s : ℕ)
    → d + n ≤ length dest
    → s + n ≤ length src
    → memcpy n dest d src s ≡ returns (overwrite dest d (slice src s n))
unfolding memcpy load store overwrite
memcpy-overwrite zero dest d src s hd hs = refl
memcpy-overwrite (suc n) dest d src s hd hs =
    let (x, e) = get_elem?-of_lt src s (omega arith) in
    ground (
      arith,
      e,
      slice-suc src s n x e,
      length-set dest d x,
      memcpy-overwrite n (set dest d x) (suc d) src (suc s),
    )

-- Out of range of either block, it faults.
pub memcpy-fault_src :
    (n : ℕ) (dest : List ℕ) (d : ℕ) (src : List ℕ) (s : ℕ)
    → s ≤ length src
    → length src < s + n
    → memcpy n dest d src s ≡ stops fault
unfolding memcpy load store
memcpy-fault_src zero dest d src s h k = absurd (omega arith)
memcpy-fault_src (suc n) dest d src s h k = elim (Bool-cases (ltb s (length src))) [
  | inl e ↦
      let (x, f) = get_elem?-of_lt src s (ground arith) in
      ground (arith, f, memcpy-fault_src n (set dest d x) (suc d) src (suc s))
  | inr e ↦ ground (arith, get_elem?-of_ge src s)
]

pub memcpy-fault_dest :
    (n : ℕ) (dest : List ℕ) (d : ℕ) (src : List ℕ) (s : ℕ)
    → d ≤ length dest
    → length dest < d + n
    → memcpy n dest d src s ≡ stops fault
unfolding memcpy load store
memcpy-fault_dest zero dest d src s h k = absurd (omega arith)
memcpy-fault_dest (suc n) dest d src s h k = elim (Bool-cases (ltb s (length src))) [
  | inl e ↦
      let (x, f) = get_elem?-of_lt src s (ground arith) in
      ground (arith, f, length-set dest d x, memcpy-fault_dest n (set dest d x) (suc d) src (suc s))
  | inr e ↦ ground (arith, get_elem?-of_ge src s)
]

-- Copying `m` bytes and then `n` bytes is copying `m + n` bytes.
memcpy_add :
    (m n t : ℕ) (dest : List ℕ) (d : ℕ) (src : List ℕ) (s : ℕ)
    → t ≡ m + n
    → memcpy t dest d src s ≡ (memcpy m dest d src s >>= λ r. memcpy n r (d + m) src (s + m))
unfolding memcpy load store
memcpy_add zero n t dest d src s e = let e' : t ≡ n = omega arith in rw (e', add-zero d, add-zero s)
memcpy_add (suc m) n zero dest d src s e = absurd (omega arith)
memcpy_add (suc m) n (suc t) dest d src s e =
    rw (add-suc d m, ← suc-add d m, add-suc s m, ← suc-add s m)
      (elim (Option-cases (get_elem? src s)) [
        | inl f ↦ ground (arith, f)
        | inr (x, f) ↦
            ground (arith, f, memcpy_add m n t (set dest d x) (suc d) src (suc s) (omega arith))
      ])

load_block-cases :
    (n : ℕ) (src : List ℕ) (s : ℕ)
    → ((bs : List ℕ) × (load_block n src s ≡ returns bs)) ⊎ (load_block n src s ≡ stops fault)
unfolding load_block load
load_block-cases zero src s = inl ([], refl)
load_block-cases (suc n) src s = elim (get_elem?-cases src s) [
  | inl e ↦ inr (ground (arith, e))
  | inr (x, e) ↦ elim (load_block-cases n src (suc s)) [
    | inl (bs, f) ↦ inl (x ∷ bs, ground (arith, e, f))
    | inr f ↦ inr (ground (arith, e, f))
  ]
]
  where
    get_elem?-cases :
        (xs : List ℕ) (i : ℕ) → (get_elem? xs i ≡ none) ⊎ ((x : ℕ) × (get_elem? xs i ≡ some x))
    get_elem?-cases xs i = Option-cases (get_elem? xs i)

-- The block operations together are the scalar loop.
block_eq :
    (n : ℕ) (dest : List ℕ) (d : ℕ) (src : List ℕ) (s : ℕ)
    → (load_block n src s >>= λ bs. store_block bs dest d) ≡ memcpy n dest d src s
unfolding load_block store_block memcpy load store
block_eq zero dest d src s = refl
block_eq (suc n) dest d src s = elim (Option-cases (get_elem? src s)) [
  | inl e ↦ ground (arith, e)
  | inr (x, e) ↦ elim (load_block-cases n src (suc s)) [
    | inl (bs, f) ↦ ground (arith, e, f, block_eq n (set dest d x) (suc d) src (suc s))
    | inr f ↦ ground (arith, e, f, block_eq n (set dest d x) (suc d) src (suc s))
  ]
]

module _ (da sa : ℕ) where
  -- The block loop and the tail are one scalar copy.
  copy_blocks-memcpy :
      (k n : ℕ) (dest : List ℕ) (d : ℕ) (src : List ℕ) (s i : ℕ)
      → n < i + k
      → i ≤ n
      → (sa + s + i) % 32 ≡ 0
      → (da + d + i) % 32 ≡ 0
      → (copy_blocks k da sa n dest d src s i >>= λ r. memcpy (n - r.0) r.1 (d + r.0) src (s + r.0))
        ≡ memcpy (n - i) dest (d + i) src (s + i)
  unfolding copy_blocks
  copy_blocks-memcpy zero n dest d src s i h hi sm dm = absurd (omega arith)
  copy_blocks-memcpy (suc k) n dest d src s i h hi sm dm = elim (Bool-cases (leb (i + 32) n)) [
    | inl e ↦
        rw (e, (==_iff ((sa + s + i) % 32) 0).1 sm, (==_iff ((da + d + i) % 32) 0).1 dm)
          (>>=_assoc (load_block 32 src (s + i)) _ _
            ∙ >>=_cong (load_block 32 src (s + i)) (λ bs.
              >>=_assoc (store_block bs dest (d + i)) _ _
              ∙ >>=_cong (store_block bs dest (d + i)) (λ r.
                copy_blocks-memcpy k n r d src s (i + 32) (omega arith) (ground arith) (omega arith)
                  (omega arith)
                ∙ rw (← add_assoc d i 32, ← add_assoc s i 32)))
            ∙ sym (>>=_assoc (load_block 32 src (s + i)) _ _)
            ∙ ap (λ m. m >>= rest) (block_eq 32 dest (d + i) src (s + i))
            ∙ sym (memcpy_add 32 (n - (i + 32)) (n - i) dest (d + i) src (s + i) (ground arith)))
    | inr e ↦ rw e
  ]
    where
      rest : List ℕ → Outcome (List ℕ)
      rest r = memcpy (n - (i + 32)) r (d + i + 32) src (s + i + 32)

-- With both ranges on 32-byte boundaries the AVX2 copy is the scalar copy, faults included; so a
-- caller sees the same bytes from either build.
pub memcpy_avx2-memcpy :
    (da sa n : ℕ) (dest : List ℕ) (d : ℕ) (src : List ℕ) (s : ℕ)
    → (da + d) % 32 ≡ 0
    → (sa + s) % 32 ≡ 0
    → memcpy_avx2 da sa n dest d src s ≡ memcpy n dest d src s
unfolding memcpy_avx2
memcpy_avx2-memcpy da sa n dest d src s dm sm =
    copy_blocks-memcpy da sa (suc n) n dest d src s 0 (omega arith) (omega arith) (omega arith)
      (omega arith)
    ∙ ap (λ m. memcpy m dest (d + 0) src (s + 0)) (sub-zero n)
    ∙ rw (add-zero d, add-zero s)

-- A range that is off the boundary makes the AVX2 copy of 32 bytes or more fault.
pub memcpy_avx2-misaligned :
    (da sa n : ℕ) (dest : List ℕ) (d : ℕ) (src : List ℕ) (s : ℕ)
    → 32 ≤ n
    → ((da + d) % 32 ≢ 0) ⊎ ((sa + s) % 32 ≢ 0)
    → memcpy_avx2 da sa n dest d src s ≡ stops fault
unfolding memcpy_avx2 copy_blocks
memcpy_avx2-misaligned da sa n dest d src s h off = ground arith

-- The build without AVX2, or fewer than 32 bytes, or both ranges on 32-byte boundaries.
abbrev pub Fits : Build → ℕ → ℕ → ℕ → Type 0
Fits scalar d s n = Unit {0}
Fits (avx2 da sa) d s n = (n < 32) ⊎ (((da + d) % 32 ≡ 0) × ((sa + s) % 32 ≡ 0))

memcpy_avx2-short :
    (da sa n : ℕ) (dest : List ℕ) (d : ℕ) (src : List ℕ) (s : ℕ)
    → n < 32
    → memcpy_avx2 da sa n dest d src s ≡ memcpy n dest d src s
unfolding memcpy_avx2 copy_blocks
memcpy_avx2-short da sa n dest d src s h =
    let short : leb 32 n ≡ false = ground arith in rw (short, add-zero d, add-zero s, sub-zero n)

-- Where the copy fits, either build does what the scalar loop does.
pub core_memcpy_aligned-memcpy :
    (at : Build) (n : ℕ) (dest : List ℕ) (d : ℕ) (src : List ℕ) (s : ℕ)
    → Fits at d s n
    → core_memcpy_aligned at n dest d src s ≡ memcpy n dest d src s
unfolding core_memcpy_aligned
core_memcpy_aligned-memcpy scalar n dest d src s h = refl
core_memcpy_aligned-memcpy (avx2 da sa) n dest d src s (inl short) =
    memcpy_avx2-short da sa n dest d src s short
core_memcpy_aligned-memcpy (avx2 da sa) n dest d src s (inr (e, f)) =
    memcpy_avx2-memcpy da sa n dest d src s e f

-- Otherwise it faults.
pub core_memcpy_aligned-cases :
    (at : Build) (n : ℕ) (dest : List ℕ) (d : ℕ) (src : List ℕ) (s : ℕ)
    → (core_memcpy_aligned at n dest d src s ≡ memcpy n dest d src s)
      ⊎ (core_memcpy_aligned at n dest d src s ≡ stops fault)
unfolding core_memcpy_aligned
core_memcpy_aligned-cases scalar n dest d src s = inl refl
core_memcpy_aligned-cases (avx2 da sa) n dest d src s = elim (dec_lt n 32) [
  | yes short ↦ inl (memcpy_avx2-short da sa n dest d src s short)
  | no long ↦ elim (ℕ_discrete ((da + d) % 32) 0) [
    | no e ↦ inr (memcpy_avx2-misaligned da sa n dest d src s (omega arith) (inl e))
    | yes e ↦ elim (ℕ_discrete ((sa + s) % 32) 0) [
      | no f ↦ inr (memcpy_avx2-misaligned da sa n dest d src s (omega arith) (inr f))
      | yes f ↦ inl (memcpy_avx2-memcpy da sa n dest d src s e f)
    ]
  ]
]

-- A shorter copy between the same places fits too.
pub Fits-le : (at : Build) (d s m n : ℕ) → m ≤ n → Fits at d s n → Fits at d s m
Fits-le scalar d s m n le h = tt
Fits-le (avx2 da sa) d s m n le (inl short) = inl (omega arith)
Fits-le (avx2 da sa) d s m n le (inr even) = inr even

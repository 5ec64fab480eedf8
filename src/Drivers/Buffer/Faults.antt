-- ===== src/Drivers/Buffer/Faults.antt =====
-- Where the buffer's functions go wrong: a capacity of 0, a position that wraps, and cloning.
use cloud_fly_prlatform.Prelude.{
  ℕ, ◌+◌, ◌*◌, ◌%◌, ◌≤◌, ◌<◌, ◌≡◌, List, some, none, arith, returns, stops, fault, diverge,
  Option-cases, inl, inr, ◌⊎◌, ltb, ◌==◌, true, false,
}
use cloud_fly_prlatform.Drivers.MemoryOps.{Build, scalar, word}
use cloud_fly_prlatform.Drivers.MemoryOps.Copy.{memcpy-fault_src, memcpy-overwrite}
use cloud_fly_prlatform.Drivers.Buffer.{
  Buffer, failed, Malloc, live, create, clone, destroy, assign, write, read, grow_fuel,
}
use cloud_fly_prlatform.Drivers.Buffer.Growth.{grow-zero}
use cloud_fly_prlatform.Drivers.Buffer.Invariant.{IsValid, IsAllocator, create-IsValid}

-- A buffer that was created with capacity 0 cannot be written: the loop that doubles the capacity
-- never ends, for any number of bytes that does not wrap.
pub write-zero_capacity :
    (grown at : Build) (malloc : Malloc) (b : Buffer) (src : List ℕ) (n : ℕ)
    → IsValid b
    → b.capacity ≡ 0
    → 0 < n
    → n < word
    → write grown at malloc b src n ≡ stops diverge
unfolding write
write-zero_capacity grown at malloc b src n v e pos w =
    let zero_position : b.position ≡ 0 = omega arith in
    let need : (b.position + n) % word ≡ n = omega arith in
    rw (nonzero, need, over, doubled, grow-zero grow_fuel n pos)
  where
    nonzero : (n == 0) ≡ false
    nonzero = ground arith

    over : ltb b.capacity n ≡ true
    over = ground arith

    doubled : b.capacity * 2 % word ≡ 0
    doubled = omega arith

-- A read whose length makes `position + size` wrap to a number within the buffer passes the test for
-- available data and then reads outside the block, in the build without AVX2.
pub read_wrapped :
    (b : Buffer) (out : List ℕ) (n : ℕ)
    → IsValid b
    → 0 < n
    → word ≤ b.position + n
    → (b.position + n) % word ≤ b.size
    → read scalar b out n ≡ stops fault
unfolding read
read_wrapped b out n v pos wraps passes =
    ground (arith, memcpy-fault_src n out 0 b.bytes b.position (omega arith) (omega arith))

-- In the build without AVX2 `core_buffer_clone` never succeeds on a live destination. With a well-formed source it fails
-- exactly when no memory is left, and the destination stays; with memory at hand it stores into the
-- object that it has just given back.
pub clone-never_ok :
    (malloc : Malloc) (dest src : Buffer)
    → IsAllocator malloc
    → IsValid src
    → ((create malloc src.size ≡ none)
        × (clone scalar malloc (live dest) src ≡ returns (failed, live dest)))
      ⊎ ((fresh : Buffer) × (create malloc src.size ≡ some fresh)
          × (clone scalar malloc (live dest) src ≡ stops fault))
unfolding clone destroy assign
clone-never_ok malloc dest src a v = elim (Option-cases (create malloc src.size)) [
  | inl out ↦ inl (out, rw (out, clone))
  | inr (fresh, got) ↦
      let made = create-IsValid malloc src.size fresh a (omega arith) got in
      inr (
        fresh,
        got,
        rw (
          got,
          clone,
          memcpy-overwrite src.size fresh.bytes 0 src.bytes 0 (omega arith) (omega arith),
        ),
      )
]

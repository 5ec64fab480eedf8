-- ===== src/Drivers/Buffer/Tests.antt =====
-- The buffer at concrete inputs.
use cloud_fly_prlatform.Prelude.{
  ℕ, ◌+◌, ◌-◌, ◌%◌, ◌^◌, ◌≤◌, ◌<◌, ◌≡◌, ◌⊎◌, inl, refl, subst, List, [], ◌∷◌, some, none, true,
  arith, returns, stops, fault, diverge, replicate, length, length-replicate, take,
}
use cloud_fly_prlatform.Drivers.MemoryOps.{
  scalar, avx2, core_memcpy_aligned, memcpy, load, store, word,
}
use cloud_fly_prlatform.Drivers.Buffer.{
  Buffer, Malloc, ok, failed, live, create, write, put, grow, grow_fuel, resize, move_into, read,
  clone, copy, align, seek,
}
use cloud_fly_prlatform.Drivers.Buffer.Growth.{grow-returns, grow-fuel_enough, grow-zero}
use cloud_fly_prlatform.Drivers.Buffer.Invariant.{
  IsValid, IsAllocator, Moved, contents, resize-Moved,
}
use cloud_fly_prlatform.Drivers.Buffer.Stream.{
  Writes, Reads, ReadsBack, write_refines, read_refines, write-seek-read,
}
use cloud_fly_prlatform.Drivers.Buffer.Faults.{write-zero_capacity, read_wrapped, clone-never_ok}
use cloud_fly_prlatform.Drivers.Buffer.Run.{
  Op, writes, reads, seeks, step, run, run-IsValid, copy_lem, align_lem,
}

-- An allocator that always has memory, filled with 0.
abbrev alloc : Malloc
alloc n = some (replicate n 0)

alloc-IsAllocator : IsAllocator alloc
alloc-IsAllocator = record { sized = λ n block e. sized n block e }
  where
    sized : (n : ℕ) (block : List ℕ) → alloc n ≡ some block → length block ≡ n
    sized n block e =
        let same : replicate n 0 ≡ block = cc in
        subst (λ xs. length xs ≡ n) same (length-replicate n 0)

-- Three bytes of four, the position behind the first.
abbrev abc : Buffer
abc = record {
  bytes = 97 ∷ 98 ∷ 99 ∷ 0 ∷ [];
  capacity = 4;
  size = 3;
  position = 1;
  is_owner = true;
}

abbrev abc_grown : Buffer
abc_grown = record {
  bytes = 97 ∷ 1 ∷ 2 ∷ 3 ∷ 4 ∷ 5 ∷ 0 ∷ 0 ∷ [];
  capacity = 8;
  size = 6;
  position = 6;
  is_owner = true;
}

abbrev empty : Buffer
empty = record { bytes = []; capacity = 0; size = 0; position = 0; is_owner = true }

abbrev five : List ℕ
five = 1 ∷ 2 ∷ 3 ∷ 4 ∷ 5 ∷ []

abc-IsValid : IsValid abc
abc-IsValid = omega arith

empty-IsValid : IsValid empty
empty-IsValid = omega arith

write_grows : write scalar scalar alloc abc five 5 ≡ returns (ok, abc_grown)
unfolding write put grow resize move_into core_memcpy_aligned memcpy load store
write_grows = refl

create_runs : create alloc 0 ≡ some empty
unfolding create
create_runs = refl

grow_reaches_five : (r : ℕ) × (grow grow_fuel 100 8 ≡ returns r) × (100 ≤ r) × (r < word)
grow_reaches_five = grow-returns 100 8 (omega arith) (omega arith) (omega arith)

grow-fuel_enough_runs : grow (grow_fuel + 7) 100 0 ≡ stops diverge
grow-fuel_enough_runs =
    grow-fuel_enough 7 100 0 (omega arith) (grow-zero grow_fuel 100 (omega arith))

resize-Moved_example :
    (b : Buffer) × (resize (avx2 4096 8192) alloc abc 2 ≡ returns (ok, b)) × Moved abc 2 b
resize-Moved_example =
    resize-Moved (avx2 4096 8192) alloc abc 2 (0 ∷ 0 ∷ []) alloc-IsAllocator abc-IsValid
      (omega arith) refl refl (inl (omega arith))

write_refines_example :
    Writes abc five 5 (write (avx2 4096 8192) (avx2 8192 16384) alloc abc five 5)
write_refines_example =
    write_refines (avx2 4096 8192) (avx2 8192 16384) alloc abc five 5 alloc-IsAllocator abc-IsValid
      (omega arith) (omega arith) (omega arith) (omega arith) (inl (omega arith))
      (inl (omega arith))

read_refines_example : Reads abc (0 ∷ 0 ∷ []) 2 (read (avx2 4096 8192) abc (0 ∷ 0 ∷ []) 2)
read_refines_example =
    read_refines (avx2 4096 8192) abc (0 ∷ 0 ∷ []) 2 abc-IsValid (omega arith) (omega arith)
      (omega arith) (inl (omega arith))

write-seek-read_example : ReadsBack scalar abc_grown 1 five (0 ∷ 0 ∷ 0 ∷ 0 ∷ 0 ∷ []) 5
write-seek-read_example =
    write-seek-read scalar scalar scalar alloc abc abc_grown five (0 ∷ 0 ∷ 0 ∷ 0 ∷ 0 ∷ []) 5
      alloc-IsAllocator abc-IsValid (omega arith) (omega arith) (omega arith) (omega arith)
      (omega arith) tt tt tt write_grows

write-zero_capacity_runs : write scalar scalar alloc empty five 5 ≡ stops diverge
write-zero_capacity_runs =
    write-zero_capacity scalar scalar alloc empty five 5 empty-IsValid refl (omega arith)
      (omega arith)

read_wrapped_runs : read scalar abc five (2 ^ 64 - 1) ≡ stops fault
read_wrapped_runs =
    read_wrapped abc five (2 ^ 64 - 1) abc-IsValid (omega arith) (omega arith) (omega arith)

clone-never_ok_runs :
    ((create alloc 3 ≡ none) × (clone scalar alloc (live empty) abc ≡ returns (failed, live empty)))
    ⊎ ((fresh : Buffer) × (create alloc 3 ≡ some fresh)
        × (clone scalar alloc (live empty) abc ≡ stops fault))
clone-never_ok_runs = clone-never_ok alloc empty abc alloc-IsAllocator abc-IsValid

abbrev ops : List Op
ops = writes scalar scalar alloc five 5 ∷ seeks 0 ∷ reads scalar (0 ∷ 0 ∷ []) 2 ∷ []

run-IsValid_example : IsValid (record abc_grown { position = 2 })
unfolding run step write grow resize move_into core_memcpy_aligned memcpy load store put read seek
run-IsValid_example =
    run-IsValid ops abc-IsValid
      ((alloc-IsAllocator, omega arith, omega arith), (omega arith, (omega arith, tt))) runs
  where
    runs : run ops abc ≡ returns (record abc_grown { position = 2 })
    runs = refl

copy_lem_runs :
    (copy scalar scalar alloc empty abc ≡ returns (failed, empty))
    ⊎ ((b : Buffer) × (copy scalar scalar alloc empty abc ≡ returns (ok, b))
        × IsValid b
        × (contents b ≡ contents abc)
        × (b.position ≡ 0))
copy_lem_runs =
    copy_lem scalar scalar alloc empty abc alloc-IsAllocator empty-IsValid abc-IsValid tt tt

align_lem_runs :
    (align scalar alloc abc 8 ≡ returns (failed, abc))
    ⊎ ((b : Buffer) × (align scalar alloc abc 8 ≡ returns (ok, b))
        × IsValid b
        × (3 ≤ b.size)
        × (b.size < 3 + 8)
        × (b.size % 8 ≡ 0)
        × (take 3 b.bytes ≡ contents abc))
align_lem_runs =
    align_lem scalar alloc abc 3 alloc-IsAllocator abc-IsValid (omega arith) (omega arith) tt

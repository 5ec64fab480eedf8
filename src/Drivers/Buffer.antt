-- ===== src/Drivers/Buffer.antt =====
-- src/core/drivers/buffer_ops.c: the growable byte buffer `core_buffer_t`. A NULL pointer is `none`;
-- a function that updates `*buffer` returns the new buffer beside its code. `size_t` has 64 bits. A `Build`
-- is the build with the addresses of the blocks that a copy is between.
pub mod Growth
pub mod Invariant
pub mod Stream
pub mod Faults
pub mod Run
mod Tests
use cloud_fly_prlatform.Prelude.{
  ℕ, zero, suc, ◌+◌, ◌*◌, ◌%◌, Bool, true, false, not, List, [], Option, none, some, ltb, ◌==◌,
  if◌then◌else◌, Outcome, returns, stops, fault, diverge, ◌>>=◌,
}
use cloud_fly_prlatform.Drivers.MemoryOps.{Build, core_memcpy_aligned, word, round_up}

-- `core_buffer_t`; `bytes` is the block that its pointer `data` refers to.
pub record Buffer : Type 0 where
  pub bytes : List ℕ
  pub capacity : ℕ
  pub size : ℕ
  pub position : ℕ
  pub is_owner : Bool

-- The returned `int`: 0 and -1.
pub data Code : Type 0 where
  ok failed : Code

-- What `core_malloc` answers: NULL, or a block of indeterminate bytes.
abbrev pub Malloc : Type 0
Malloc = ℕ → Option (List ℕ)

abbrev pub sizeof_buffer : ℕ
sizeof_buffer = 40

abbrev pub Reply : Type 0
Reply = Outcome (Code × Buffer)

unfoldable pub create : Malloc → ℕ → Option Buffer
create malloc initial_capacity = elim (malloc sizeof_buffer) [
  | none ↦ none
  | some _ ↦ elim (malloc initial_capacity) [
    | none ↦ none
    | some block ↦ some (record {
      bytes = block;
      capacity = initial_capacity;
      size = 0;
      position = 0;
      is_owner = true;
    })
  ]
]

-- The new block once `core_malloc` has given it: copied into, and clipped to.
unfoldable pub move_into : Build → Buffer → ℕ → List ℕ → Reply
unfolding core_memcpy_aligned
move_into at b n block = do
  copied ← core_memcpy_aligned at (if ltb b.size n then b.size else n) block 0 b.bytes 0
  returns (
    ok,
    record b {
      bytes = copied;
      capacity = n;
      size = if ltb n b.size then n else b.size;
      position = if ltb n b.position then n else b.position;
    },
  )

-- `core_buffer_resize` past its NULL test.
unfoldable pub resize : Build → Malloc → Buffer → ℕ → Reply
resize at malloc b n =
    if not b.is_owner
    then returns (failed, b)
    else elim (malloc n) [ none ↦ returns (failed, b) | some block ↦ move_into at b n block ]

pub clear : Buffer → Buffer
clear b = record b { size = 0; position = 0 }

-- `while (new_capacity < need) new_capacity *= 2;` on fuel.
unfoldable pub grow : ℕ → ℕ → ℕ → Outcome ℕ
grow zero need c = stops diverge
grow (suc k) need c =
    let rest = grow k need (c * 2 % word) in if ltb c need then rest else returns c

abbrev pub grow_fuel : ℕ
grow_fuel = 65

-- The write itself, once the buffer is large enough.
unfoldable pub put : Build → Buffer → List ℕ → ℕ → Reply
unfolding core_memcpy_aligned
put at b src n = do
  copied ← core_memcpy_aligned at n b.bytes b.position src 0
  let position = (b.position + n) % word
  returns (
    ok,
    record b {
      bytes = copied;
      position = position;
      size = if ltb b.size position then position else b.size;
    },
  )

abbrev pub if_ok : Reply → (Buffer → Reply) → Reply
if_ok r f = r >>= λ (c, b). elim c [ ok ↦ f b | failed ↦ returns (failed, b) ]

-- `core_buffer_write` past its NULL tests; the first build is for the copy into a larger block.
unfoldable pub write : Build → Build → Malloc → Buffer → List ℕ → ℕ → Reply
write grown at malloc b src n =
    if n == 0
    then returns (failed, b)
    else if ltb b.capacity ((b.position + n) % word)
    then if_ok
        (grow grow_fuel ((b.position + n) % word) (b.capacity * 2 % word) >>= resize grown malloc b)
        (λ b'. put at b' src n)
    else put at b src n

-- `core_buffer_peek` and `core_buffer_read` return the caller's `data` too.
pub peek : Build → Buffer → List ℕ → ℕ → Outcome (Code × Buffer × List ℕ)
unfolding core_memcpy_aligned
peek at b out n =
    if n == 0
    then returns (failed, b, out)
    else if ltb b.size ((b.position + n) % word)
    then returns (failed, b, out)
    else core_memcpy_aligned at n out 0 b.bytes b.position >>= λ copied. returns (ok, b, copied)

unfoldable pub read : Build → Buffer → List ℕ → ℕ → Outcome (Code × Buffer × List ℕ)
unfolding core_memcpy_aligned
read at b out n =
    if n == 0
    then returns (failed, b, out)
    else if ltb b.size ((b.position + n) % word)
    then returns (failed, b, out)
    else core_memcpy_aligned at n out 0 b.bytes b.position >>= λ copied.
        returns (ok, record b { position = (b.position + n) % word }, copied)

pub skip : Buffer → ℕ → Code × Buffer
skip b n =
    if n == 0
    then (failed, b)
    else if ltb b.size ((b.position + n) % word)
    then (failed, b)
    else (ok, record b { position = (b.position + n) % word })

unfoldable pub seek : Buffer → ℕ → Code × Buffer
seek b position =
    if ltb b.size position then (failed, b) else (ok, record b { position = position })

pub rewind : Buffer → Code × Buffer
rewind b = (ok, record b { position = 0 })

-- `core_buffer_tell`, `core_buffer_size`, `core_buffer_capacity`, with their answer for NULL.
pub tell : Option Buffer → ℕ
tell none = 0
tell (some b) = b.position

pub is_empty : Option Buffer → Bool
is_empty none = true
is_empty (some b) = b.size == 0

pub is_full : Option Buffer → Bool
is_full none = false
is_full (some b) = b.size == b.capacity

pub copy : Build → Build → Malloc → Buffer → Buffer → Reply
unfolding core_memcpy_aligned
copy grown at malloc dest src =
    let fill = λ (b : Buffer). core_memcpy_aligned at src.size b.bytes 0 src.bytes 0 >>= λ copied.
    returns (ok, record b { bytes = copied; size = src.size; position = 0 }) in
    if ltb dest.capacity src.size then if_ok (resize grown malloc dest src.size) fill else fill dest

-- The object that a `core_buffer_t*` refers to: a buffer, or memory that was given back.
pub data Slot : Type 0 where
  live : Buffer → Slot
  freed : Slot

-- `core_buffer_destroy` gives back the block and the object itself.
pub destroy : Slot → Outcome Slot
destroy (live b) = returns freed
destroy freed = stops fault

-- `*dest = b`
pub assign : Slot → Buffer → Outcome Slot
assign (live _) b = returns (live b)
assign freed b = stops fault

pub clone : Build → Malloc → Slot → Buffer → Outcome (Code × Slot)
unfolding core_memcpy_aligned
clone at malloc dest src = elim (create malloc src.size) [
  | none ↦ returns (failed, dest)
  | some fresh ↦ do
    copied ← core_memcpy_aligned at src.size fresh.bytes 0 src.bytes 0
    gone ← destroy dest
    dest' ← assign gone (record fresh { bytes = copied; size = src.size; position = 0 })
    returns (ok, dest')
]

pub align : Build → Malloc → Buffer → ℕ → Reply
align at malloc b alignment =
    let aligned_size = round_up b.size alignment in
    let commit = λ (b' : Buffer). returns (ok, record b' { size = aligned_size }) in
    if alignment == 0
    then returns (failed, b)
    else if ltb b.capacity aligned_size
    then if_ok (resize at malloc b aligned_size) commit
    else commit b

-- ===== src/Drivers/Blockchain.antt =====
-- src/core/drivers/blockchain_ops.c and its header: hashing, transactions, blocks and chains. A hash
-- is the list of its bytes, a NULL pointer `none`. OpenSSL is the parameter `OpenSsl`.
pub mod Blocks
pub mod Difficulty
pub mod MerkleProof
pub mod Transactions
pub mod Chain
mod Tests
use cloud_fly_prlatform.Prelude.{
  ℕ, zero, suc, ◌+◌, ◌*◌, ◌-◌, ◌%◌, ◌/◌, Bool, true, false, ◌&&◌, List, [], ◌∷◌, ◌++◌, Option, none,
  some, take, ltb, leb, ◌==◌, if◌then◌else◌,
}
use cloud_fly_prlatform.Prelude.Int.{ℤ, pos, negsuc}
use cloud_fly_prlatform.Prelude.Slices.{slice, overwrite}

abbrev pub hash_size : ℕ
hash_size = 32

abbrev pub signature_size : ℕ
signature_size = 64

abbrev pub public_key_size : ℕ
public_key_size = 32

-- The C results 0 and -1.
abbrev pub success : ℤ
success = pos 0

abbrev pub failure : ℤ
failure = negsuc 0

-- `!x` of C.
abbrev pub is_zero : ℤ → Bool
is_zero (pos n) = n == 0
is_zero (negsuc n) = false

-- `core_memcmp(a, b, n) == 0` over whole arrays.
unfoldable pub bytes_eq : List ℕ → List ℕ → Bool
bytes_eq [] [] = true
bytes_eq [] (y ∷ ys) = false
bytes_eq (x ∷ xs) [] = false
bytes_eq (x ∷ xs) (y ∷ ys) = (x == y) && bytes_eq xs ys

-- `while ((byte & 0x80) == 0) { zero_bits++; byte <<= 1; }` on a byte, with eight rounds of fuel.
unfoldable pub leading_zeros : ℕ → ℕ → ℕ
leading_zeros zero byte = 0
leading_zeros (suc k) byte =
    let rest = leading_zeros k (byte * 2 % 256) in if ltb byte 128 then suc rest else 0

-- The loop of `core_blockchain_verify_hash` over the bytes.
unfoldable pub zero_bits : List ℕ → ℕ
zero_bits [] = 0
zero_bits (b ∷ bs) = let rest = zero_bits bs in if b == 0 then 8 + rest else leading_zeros 8 b

unfoldable pub verify_hash : List ℕ → ℕ → Bool
verify_hash hash difficulty = leb difficulty (zero_bits hash)

pub record Header : Type 0 where
  pub hash : List ℕ
  pub timestamp : ℕ
  pub nonce : ℕ
  pub previous_hash : List ℕ
  pub merkle_root : List ℕ
  pub difficulty : ℕ
  pub version : ℕ

pub record Transaction : Type 0 where
  pub hash : List ℕ
  pub signature : List ℕ
  pub public_key : List ℕ
  pub timestamp : ℕ
  pub version : ℕ
  pub kind : ℕ
  pub payload : ℕ
  pub payload_size : ℕ

-- A block with its `transactions[0..transaction_count)`.
pub record Block : Type 0 where
  pub header : Header
  pub transactions : List Transaction

-- What is called of OpenSSL: a call that can report an error answers `none` for it.
pub record OpenSsl : Type 1 where
  pub Key : Type 0
  pub Point : Type 0
  pub Num : Type 0
  pub sha256 : List ℕ → List ℕ
  pub new_key : Option Key
  pub bin2bn : List ℕ → Option Num
  pub bn2bin : Num → List ℕ
  pub set_private_key : Key → Num → Option Key
  pub new_point : Option Point
  pub point_mul : Num → Option Point
  pub set_public_key : Key → Point → Option Key
  pub do_sign : List ℕ → Key → Option (Num × Num)
  pub oct2point : List ℕ → Option Point
  pub sig_new : Bool
  pub do_verify : List ℕ → Num × Num → Key → ℤ
  pub generate_key : Key → Option Key
  pub private_key : Key → Option Num
  pub public_point : Key → Point
  -- `EC_POINT_point2oct` in compressed form into a buffer of that size: the size of what it wrote.
  pub point2oct : Point → ℕ → ℕ × List ℕ

infixl 5 ◌>>=◌ ◌>>◌
abbrev ◌>>=◌ {ℓ κ} : {A : Type ℓ} {B : Type κ} → Option A → (A → Option B) → Option B
none >>= f = none
some a >>= f = f a

abbrev ◌>>◌ {ℓ κ} : {A : Type ℓ} {B : Type κ} → Option A → Option B → Option B
m >> k = m >>= λ _. k

abbrev require : Bool → Option (Unit {0})
require true = some tt
require false = none

-- An error on the way makes the C functions return -1.
abbrev code_of : Option ℤ → ℤ
code_of none = failure
code_of (some c) = c

module _ (ssl : OpenSsl) where
  open ssl use {
    Key, Num, sha256, new_key, bin2bn, bn2bin, set_private_key, new_point, point_mul,
    set_public_key, do_sign, oct2point, sig_new, do_verify, generate_key, private_key, public_point,
    point2oct,
  }

  unfoldable pub hash_twice : List ℕ → List ℕ
  hash_twice bytes = sha256 (sha256 bytes)

  -- The key that `core_blockchain_sign` builds from the private one.
  unfoldable pub signing_key : List ℕ → Option Key
  signing_key secret = do
    key ← new_key
    bn ← bin2bn secret
    key' ← set_private_key key bn
    _ ← new_point
    pub_point ← point_mul bn
    set_public_key key' pub_point

  -- `core_blockchain_sign`: the code, and `signature` with the two numbers stored in it.
  unfoldable pub sign : List ℕ → List ℕ → List ℕ → ℤ × List ℕ
  unfolding signing_key
  sign bytes secret signature =
      let made : Option (Num × Num) = (do key ← signing_key secret; do_sign (sha256 bytes) key) in
      elim made [
        | none ↦ (failure, signature)
        | some (r, s) ↦ (success, overwrite (overwrite signature 0 (bn2bin r)) hash_size (bn2bin s))
      ]

  -- `core_blockchain_verify`
  unfoldable pub verify : List ℕ → List ℕ → List ℕ → ℤ
  verify bytes signature public_key = code_of (do
    key ← new_key
    _ ← new_point
    pub_point ← oct2point (take public_key_size public_key)
    key' ← set_public_key key pub_point
    require sig_new
    r ← bin2bn (slice signature 0 hash_size)
    s ← bin2bn (slice signature hash_size hash_size)
    some (do_verify (sha256 bytes) (r, s) key'))

  -- `core_blockchain_generate_keypair`: the code, and the bytes of the two keys.
  unfoldable pub generate_keypair : ℤ × List ℕ × List ℕ
  generate_keypair =
      let made : Option (Key × Num) = do
        key ← new_key
        key' ← generate_key key
        bn ← private_key key'
        some (key', bn)
      in elim made [
        | none ↦ (failure, [], [])
        | some (key, bn) ↦
            let (size, bytes) = point2oct (public_point key) public_key_size in
            (if size == public_key_size then success else failure, bytes, bn2bin bn)
      ]

  -- A number in this many bytes, the lowest first.
  unfoldable pub little_endian : ℕ → ℕ → List ℕ
  little_endian zero x = []
  little_endian (suc n) x = x % 256 ∷ little_endian n (x / 256)

  -- The 160 bytes of a `core_transaction_t`, field by field; no field needs padding.
  unfoldable pub object_bytes : Transaction → List ℕ
  unfolding little_endian
  object_bytes tx =
      tx.hash
      ++ (tx.signature
          ++ (tx.public_key
              ++ (little_endian 8 tx.timestamp
                  ++ (little_endian 4 tx.version
                      ++ (little_endian 4 tx.kind
                          ++ (little_endian 8 tx.payload ++ little_endian 8 tx.payload_size))))))

  -- The first `sizeof(core_transaction_t) - CORE_BLOCKCHAIN_SIGNATURE_SIZE`, that is 160 - 64, of them.
  unfoldable pub signed_bytes : Transaction → List ℕ
  unfolding object_bytes
  signed_bytes tx = take (160 - signature_size) (object_bytes tx)

  unfoldable pub transaction_sign : Transaction → List ℕ → ℤ × Transaction
  unfolding sign signed_bytes hash_twice
  transaction_sign tx secret =
      let hash = hash_twice (signed_bytes tx) in
      let (code, signature) = sign hash secret tx.signature in
      (code, record tx { hash = hash; signature = signature })

  unfoldable pub transaction_verify : Transaction → ℤ
  unfolding verify signed_bytes hash_twice bytes_eq
  transaction_verify tx =
      if bytes_eq (hash_twice (signed_bytes tx)) tx.hash
      then verify tx.hash tx.signature tx.public_key
      else failure

  -- `core_blockchain_verify_merkle_proof`: the loop from step `i` on.
  unfoldable pub climb : ℕ → List ℕ → List (List ℕ) → List ℕ
  unfolding hash_twice
  climb i current [] = current
  climb i current (p ∷ proof) =
      climb (suc i) (hash_twice (if i % 2 == 0 then current ++ p else p ++ current)) proof

  -- The result is an `int`: -1 for an empty proof, else the comparison with the root.
  unfoldable pub verify_merkle_proof : List ℕ → List ℕ → List (List ℕ) → ℤ
  unfolding climb bytes_eq
  verify_merkle_proof leaf_hash root_hash [] = failure
  verify_merkle_proof leaf_hash root_hash (p ∷ proof) =
      if bytes_eq (climb 0 leaf_hash (p ∷ proof)) root_hash then pos 1 else pos 0

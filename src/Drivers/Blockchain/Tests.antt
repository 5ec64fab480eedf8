-- ===== src/Drivers/Blockchain/Tests.antt =====
-- Blocks, chains and proofs at concrete inputs, with a small stand-in for OpenSSL.
use cloud_fly_prlatform.Prelude.{
  ℕ, ◌*◌, ◌^◌, ◌<◌, ◌≡◌, ◌≢◌, ◌↔◌, refl, true, returns, stops, fault, List, [], ◌∷◌, ◌++◌, none,
  some, length, arith, replicate, ltb, ◌==◌, if◌then◌else◌,
}
use cloud_fly_prlatform.Prelude.Int.{pos}
use cloud_fly_prlatform.Drivers.Blockchain.{
  OpenSsl, Header, Transaction, Block, success, failure, zero_bits, leading_zeros, verify_hash,
  climb, verify_merkle_proof, generate_keypair, transaction_verify,
}
use cloud_fly_prlatform.Drivers.Blockchain.Blocks.{
  all_verify, find_fork, block_verify, verify_chain, block_mine, mine_loop,
}
use cloud_fly_prlatform.Drivers.Blockchain.Difficulty.{number, verify_hash_iff}
use cloud_fly_prlatform.Drivers.Blockchain.MerkleProof.{
  Collision, HasHashSize, verify_merkle_proof-binds, verify_merkle_proof_iff,
}
use cloud_fly_prlatform.Drivers.Blockchain.Transactions.{
  HasCompressedPoints, transaction_verify-failure, all_verify-success,
}
use cloud_fly_prlatform.Drivers.Blockchain.Chain.{
  Accepted, verify_chain_iff, block_verify_iff, block_mine-Mined, FirstCommon,
  find_fork_from-FirstCommon,
}

-- A hash of 32 zero bytes, and the documented sizes of points.
abbrev demo : OpenSsl
demo = record {
  Key = Unit {0};
  Point = Unit {0};
  Num = List ℕ;
  sha256 = λ x. replicate 32 0;
  new_key = some tt;
  bin2bn = λ x. some x;
  bn2bin = λ x. x;
  set_private_key = λ k n. some k;
  new_point = some tt;
  point_mul = λ n. some tt;
  set_public_key = λ k p. some k;
  do_sign = λ h k. some (replicate 32 1, replicate 32 2);
  oct2point = λ bytes. if length bytes == 33 then some tt else none;
  sig_new = true;
  do_verify = λ h s k. pos 1;
  generate_key = λ k. some k;
  private_key = λ k. some [];
  public_point = λ k. tt;
  point2oct = λ p size. if ltb size 33 then (0, []) else (33, replicate 33 2);
}

demo-HasCompressedPoints : HasCompressedPoints demo
demo-HasCompressedPoints = record {
  writes = λ p size h. writes size h;
  reads = λ bytes h k. reads bytes k;
}
  where
    writes : (size : ℕ) → size < 33 → (demo.point2oct tt size).0 ≡ 0
    writes size h = ground arith

    reads : (bytes : List ℕ) → length bytes < 33 → demo.oct2point bytes ≡ none
    reads bytes h = ground arith

demo-HasHashSize : HasHashSize demo
demo-HasHashSize x = refl

abbrev zeros : List ℕ
zeros = replicate 32 0

abbrev header : Header
header = record {
  hash = zeros;
  timestamp = 7;
  nonce = 0;
  previous_hash = zeros;
  merkle_root = zeros;
  difficulty = 4;
  version = 1;
}

abbrev forged : Transaction
forged = record {
  hash = zeros;
  signature = replicate 64 9;
  public_key = zeros;
  timestamp = 1;
  version = 1;
  kind = 0;
  payload = 0;
  payload_size = 0;
}

abbrev block : Block
block = record { header = header; transactions = forged ∷ [] }

-- A block whose hash misses its difficulty.
abbrev bad : Block
bad = record {
  header = record header { hash = replicate 32 255; previous_hash = replicate 32 255 };
  transactions = [];
}

zero_bits_runs : zero_bits (0 ∷ 16 ∷ 255 ∷ []) ≡ 11
unfolding zero_bits leading_zeros
zero_bits_runs = refl

verify_hash_iff_example :
    (verify_hash (0 ∷ 16 ∷ 255 ∷ []) 11 ≡ true) ↔ (number (0 ∷ 16 ∷ 255 ∷ []) * 2 ^ 11 < 256 ^ 3)
verify_hash_iff_example =
    verify_hash_iff (0 ∷ 16 ∷ 255 ∷ []) 11 (omega arith, (omega arith, (omega arith, tt)))
      (omega arith)

two_leaves : replicate {A = ℕ} 32 1 ≢ replicate {A = ℕ} 32 2
two_leaves e = cc

accepts : (leaf : List ℕ) → verify_merkle_proof demo leaf zeros (zeros ∷ []) ≡ pos 1
unfolding verify_merkle_proof
accepts leaf = refl

verify_merkle_proof-binds_example : Collision demo
verify_merkle_proof-binds_example =
    verify_merkle_proof-binds demo (replicate 32 1) (replicate 32 2) zeros (zeros ∷ [])
      demo-HasHashSize refl refl two_leaves (accepts (replicate 32 1)) (accepts (replicate 32 2))

verify_merkle_proof_iff_runs :
    (verify_merkle_proof demo zeros zeros (zeros ∷ []) ≡ pos 1)
    ↔ (climb demo 0 zeros (zeros ∷ []) ≡ zeros)
verify_merkle_proof_iff_runs = verify_merkle_proof_iff demo zeros zeros zeros []

transaction_verify-failure_runs :
    (transaction_verify demo forged ≡ failure) × ((generate_keypair demo).0 ≡ failure)
transaction_verify-failure_runs =
    transaction_verify-failure demo forged demo-HasCompressedPoints refl

all_verify_runs : all_verify demo (forged ∷ []) ≡ success
all_verify_runs = all_verify-success demo (forged ∷ []) demo-HasCompressedPoints (refl, tt)

abbrev no_bytes : Block → List ℕ
no_bytes b = []

verify_chain_iff_example :
    (verify_chain demo no_bytes (some (bad ∷ bad ∷ [])) ≡ returns success)
    ↔ Accepted demo no_bytes (some (bad ∷ bad ∷ []))
verify_chain_iff_example = verify_chain_iff demo no_bytes (some (bad ∷ bad ∷ []))

bad_chain_accepted : verify_chain demo no_bytes (some (bad ∷ bad ∷ [])) ≡ returns success
unfolding verify_chain zero_bits leading_zeros
bad_chain_accepted = refl

-- A block with a transaction.
filled_chain_faults : verify_chain demo no_bytes (some (block ∷ [])) ≡ stops fault
unfolding verify_chain zero_bits
filled_chain_faults = refl

block_verify_iff_example :
    ((block_verify demo no_bytes block ≡ returns success)
      ↔ ((verify_hash zeros 4 ≡ true) × (block.transactions ≡ []) × (no_bytes block ≡ zeros)))
    × ((block_verify demo no_bytes block ≡ stops fault)
        ↔ ((verify_hash zeros 4 ≡ true) × (block.transactions ≢ [])))
block_verify_iff_example = block_verify_iff demo no_bytes block

abbrev encode : Header → List ℕ
encode h = h.hash ++ h.previous_hash

find_fork_from-FirstCommon_example :
    FirstCommon 0
      (bad ∷ block ∷ [])
      (block ∷ block ∷ [])
      (find_fork (bad ∷ block ∷ []) (block ∷ block ∷ []))
unfolding find_fork
find_fork_from-FirstCommon_example =
    find_fork_from-FirstCommon 0 (bad ∷ block ∷ []) (block ∷ block ∷ [])

block_mine-Mined_example : verify_hash zeros 4 ≡ true
block_mine-Mined_example = (block_mine-Mined demo encode block mined 4 9 runs).0
  where
    mined : Block
    mined = record block { header = record header { difficulty = 4; timestamp = 9 } }

    runs : block_mine demo encode block 4 9 ≡ (success, mined)
    runs = unfold block_mine mine_loop zero_bits in refl

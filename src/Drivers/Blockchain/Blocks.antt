-- ===== src/Drivers/Blockchain/Blocks.antt =====
-- The blocks and the chains of src/core/drivers/blockchain_ops.c.
use cloud_fly_prlatform.Prelude.{
  ℕ, zero, suc, ◌-◌, ◌^◌, Bool, not, List, [], ◌∷◌, ◌++◌, Option, none, some, if◌then◌else◌,
  Outcome, returns, stops, fault, ◌>>=◌,
}
use cloud_fly_prlatform.Prelude.Int.{ℤ}
use cloud_fly_prlatform.Drivers.Blockchain.{
  success, failure, is_zero, bytes_eq, verify_hash, Header, Transaction, Block, OpenSsl, hash_twice,
  transaction_verify,
}

module _ (ssl : OpenSsl) where
  unfoldable pub all_verify : List Transaction → ℤ
  unfolding transaction_verify
  all_verify [] = success
  all_verify (tx ∷ txs) =
      let rest = all_verify txs in if is_zero (transaction_verify ssl tx) then failure else rest

  -- `core_blockchain_build_merkle_tree` gives `block->merkle_tree[0][i]`, which is one byte, to a parameter that is
  -- a pointer: it writes the first leaf's hash through that byte as an address, which no object has. Without a
  -- transaction it returns at once.
  unfoldable pub build_merkle_tree : Block → Outcome Block
  build_merkle_tree block = elim block.transactions [ [] ↦ returns block | tx ∷ txs ↦ stops fault ]

  -- `calculated_root` of `core_block_verify` is never assigned: its bytes are the parameter `indeterminate`.
  module _ (indeterminate : Block → List ℕ) where
    unfoldable pub compare_root : Block → ℤ
    unfolding all_verify bytes_eq
    compare_root block =
        if not (bytes_eq (indeterminate block) block.header.merkle_root)
        then failure
        else all_verify block.transactions

    unfoldable pub block_verify : Block → Outcome ℤ
    unfolding verify_hash build_merkle_tree compare_root
    block_verify block =
        if not (verify_hash block.header.hash block.header.difficulty)
        then returns failure
        else build_merkle_tree block >>= λ built. returns (compare_root built)

    -- The loop of `core_blockchain_verify_chain` behind the block before.
    unfoldable pub verify_links : Block → List Block → Outcome ℤ
    unfolding block_verify
    verify_links previous [] = returns success
    verify_links previous (block ∷ blocks) =
        let rest = verify_links block blocks in
        if not (bytes_eq block.header.previous_hash previous.header.hash)
        then returns failure
        else block_verify block >>= λ code. if is_zero code then returns failure else rest

    unfoldable pub verify_chain : Option (List Block) → Outcome ℤ
    unfolding block_verify verify_links
    verify_chain none = returns failure
    verify_chain (some []) = returns failure
    verify_chain (some (block ∷ blocks)) =
        let rest = verify_links block blocks in
        block_verify block >>= λ code. if is_zero code then returns failure else rest

  -- `core_block_mine`: `encode` is the header as it lies in memory, its `hash` included, and `rounds`
  -- the nonces that are left.
  module _ (encode : Header → List ℕ) where
    unfoldable pub mine_loop : ℕ → Header → ℤ × Header
    unfolding hash_twice verify_hash
    mine_loop zero header = (failure, header)
    mine_loop (suc rounds) header =
        let header' = record header { hash = hash_twice ssl (encode header) } in
        let rest = mine_loop rounds (record header' { nonce = suc header'.nonce }) in
        if verify_hash header'.hash header'.difficulty then (success, header') else rest

    unfoldable pub block_mine : Block → ℕ → ℕ → ℤ × Block
    block_mine block difficulty now =
        let start = record block.header { difficulty = difficulty; timestamp = now; nonce = 0 } in
        let (code, header) = mine_loop (2 ^ 64 - 1) start in
        (code, record block { header = header })

-- `core_block_add_transaction`, where the new array can be allocated or not.
unfoldable pub add_transaction : Bool → Block → Transaction → ℤ × Block
add_transaction allocated block tx =
    if allocated
    then (success, record block { transactions = block.transactions ++ (tx ∷ []) })
    else (failure, block)

-- `core_blockchain_find_fork`: the loop from height `i` on.
unfoldable pub find_fork_from : ℕ → List Block → List Block → Option ℕ
unfolding bytes_eq
find_fork_from i [] blocks2 = none
find_fork_from i (b ∷ blocks1) [] = none
find_fork_from i (b ∷ blocks1) (c ∷ blocks2) =
    let rest = find_fork_from (suc i) blocks1 blocks2 in
    if bytes_eq b.header.hash c.header.hash then some i else rest

unfoldable pub find_fork : List Block → List Block → Option ℕ
unfolding find_fork_from
find_fork blocks1 blocks2 = find_fork_from 0 blocks1 blocks2

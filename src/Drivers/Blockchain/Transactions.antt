-- ===== src/Drivers/Blockchain/Transactions.antt =====
-- Signing and verifying transactions: what the code covers, and what it answers with OpenSSL's
-- documented encodings.
use cloud_fly_prlatform.Prelude.{
  ℕ, ◌≡◌, ◌≢◌, ◌<◌, refl, [], ◌∷◌, List, none, length, take, arith, inl, inr, Option-cases,
  length-take,
}
use cloud_fly_prlatform.Drivers.Blockchain.{
  OpenSsl, Transaction, failure, success, public_key_size, verify, generate_keypair,
  transaction_verify,
}
use cloud_fly_prlatform.Drivers.Blockchain.Blocks.{all_verify}

-- What OpenSSL documents of a point of secp256k1: compressed it takes 33 bytes, so that a smaller
-- buffer gets nothing and the size 0; and 33 or 65 bytes (or the one byte 0) are read as a point.
pub record HasCompressedPoints (ssl : OpenSsl) : Type 0 where
  pub writes : (p : ssl.Point) (size : ℕ) → size < 33 → (ssl.point2oct p size).0 ≡ 0
  pub reads : (bytes : List ℕ) → length bytes ≢ 1 → length bytes < 33 → ssl.oct2point bytes ≡ none

-- `core_blockchain_verify` with a public key of `CORE_BLOCKCHAIN_PUBLIC_KEY_SIZE` bytes.
verify-failure :
    (ssl : OpenSsl) (bytes signature public_key : List ℕ)
    → HasCompressedPoints ssl
    → length public_key ≡ public_key_size
    → verify ssl bytes signature public_key ≡ failure
unfolding verify
verify-failure ssl bytes signature key h sized =
    let len = length-take public_key_size key in
    let refused : ssl.oct2point (take public_key_size key) ≡ none =
      h.reads (take public_key_size key) (omega arith) (omega arith) in
    elim (Option-cases ssl.new_key) [
      | inl e ↦ rw e
      | inr (k, e) ↦ elim (Option-cases ssl.new_point) [
        | inl f ↦ rw (e, f)
        | inr (p, f) ↦ rw (e, f, refused)
      ]
    ]

generate_keypair-failure :
    (ssl : OpenSsl) → HasCompressedPoints ssl → (generate_keypair ssl).0 ≡ failure
unfolding generate_keypair
generate_keypair-failure ssl h = elim (Option-cases ssl.new_key) [
  | inl e ↦ ground (arith, e)
  | inr (k, e) ↦ elim (Option-cases (ssl.generate_key k)) [
    | inl f ↦ ground (arith, e, f)
    | inr (k', f) ↦ elim (Option-cases (ssl.private_key k')) [
      | inl g ↦ ground (arith, e, f, g)
      | inr (n, g) ↦
          ground (arith, e, f, g, h.writes (ssl.public_point k') public_key_size (omega arith))
    ]
  ]
]

-- With public keys of 32 bytes `core_transaction_verify` answers -1 for every transaction, correctly
-- signed or not, and `core_blockchain_generate_keypair` never succeeds.
pub transaction_verify-failure :
    (ssl : OpenSsl) (tx : Transaction)
    → HasCompressedPoints ssl
    → length tx.public_key ≡ public_key_size
    → (transaction_verify ssl tx ≡ failure) × ((generate_keypair ssl).0 ≡ failure)
transaction_verify-failure ssl tx h sized = (checked, keys)
  where
    checked : transaction_verify ssl tx ≡ failure
    checked =
        unfold transaction_verify in
        ground (arith, verify-failure ssl tx.hash tx.signature tx.public_key h sized)

    keys : (generate_keypair ssl).0 ≡ failure
    keys = generate_keypair-failure ssl h

abbrev pub HaveKeySize : List Transaction → Type 0
HaveKeySize [] = Unit {0}
HaveKeySize (tx ∷ txs) = (length tx.public_key ≡ public_key_size) × HaveKeySize txs

-- The loop of `core_block_verify` tests `!core_transaction_verify(tx)`, which the answer -1 passes: with
-- public keys of 32 bytes it accepts every list of transactions.
pub all_verify-success :
    (ssl : OpenSsl) (txs : List Transaction)
    → HasCompressedPoints ssl
    → HaveKeySize txs
    → all_verify ssl txs ≡ success
unfolding all_verify
all_verify-success ssl [] h sized = refl
all_verify-success ssl (tx ∷ txs) h sized =
    rw ((transaction_verify-failure ssl tx h sized.0).0, all_verify-success ssl txs h sized.1)

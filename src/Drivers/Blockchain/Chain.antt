-- ===== src/Drivers/Blockchain/Chain.antt =====
-- Blocks and chains: what their verification accepts, forks, and mining.
use cloud_fly_prlatform.Prelude.{
  ℕ, zero, suc, ◌+◌, ◌-◌, ◌^◌, ◌≤◌, ◌<◌, ◌≡◌, ◌≢◌, ◌↔◌, ◌⊎◌, refl, sym, ap, subst, true, List, [],
  ◌∷◌, Option, some, none, arith, inl, inr, Bool-cases, false, not, if◌then◌else◌, ◌∙◌, Outcome,
  returns, stops, fault, ◌>>=◌, List-cases,
}
use cloud_fly_prlatform.Prelude.Int.{ℤ}
use cloud_fly_prlatform.Drivers.Blockchain.{
  OpenSsl, Transaction, Block, Header, failure, success, is_zero, bytes_eq, hash_twice, verify_hash,
}
use cloud_fly_prlatform.Drivers.Blockchain.Blocks.{
  all_verify, build_merkle_tree, compare_root, find_fork_from, block_verify, verify_links,
  verify_chain, mine_loop, block_mine,
}
use cloud_fly_prlatform.Drivers.Blockchain.MerkleProof.{bytes_eq-eq, bytes_eq_refl}
use cloud_fly_prlatform.Drivers.Blockchain.Transactions.{}

module _ (ssl : OpenSsl) (indeterminate : Block → List ℕ) where
  abbrev verdict : Block → Outcome ℤ
  verdict = block_verify ssl indeterminate

  compare_root-empty :
      (b : Block)
      → b.transactions ≡ []
      → compare_root ssl indeterminate b
        ≡ (if bytes_eq (indeterminate b) b.header.merkle_root then success else failure)
  unfolding compare_root all_verify
  compare_root-empty b e = elim (Bool-cases (bytes_eq (indeterminate b) b.header.merkle_root)) [
    | inl same ↦ rw (same, e)
    | inr other ↦ rw other
  ]

  -- Behind the test of the hash.
  compared : Outcome Block → Outcome ℤ
  compared o = o >>= λ built. returns (compare_root ssl indeterminate built)

  verdict-meets :
      (b : Block)
      → verify_hash b.header.hash b.header.difficulty ≡ true
      → verdict b ≡ compared (build_merkle_tree ssl b)
  unfolding block_verify compared
  verdict-meets b meets =
      ap (λ t. if not t then returns failure else compared (build_merkle_tree ssl b)) meets

  verdict-empty :
      (b : Block)
      → verify_hash b.header.hash b.header.difficulty ≡ true
      → b.transactions ≡ []
      → verdict b ≡ returns (compare_root ssl indeterminate b)
  unfolding compared build_merkle_tree
  verdict-empty b meets e =
      verdict-meets b meets
      ∙ ap
          (λ (txs : List Transaction).
            compared (elim txs [ [] ↦ returns b | tx ∷ rest ↦ stops fault ]))
          e

  verdict-filled :
      (b : Block) (tx : Transaction) (txs : List Transaction)
      → verify_hash b.header.hash b.header.difficulty ≡ true
      → b.transactions ≡ tx ∷ txs
      → verdict b ≡ stops fault
  unfolding compared build_merkle_tree
  verdict-filled b tx txs meets e =
      verdict-meets b meets
      ∙ ap
          (λ (txs : List Transaction).
            compared (elim txs [ [] ↦ returns b | tx ∷ rest ↦ stops fault ]))
          e

  -- The four ways of `core_block_verify`.
  verdict-cases :
      (b : Block)
      → ((verify_hash b.header.hash b.header.difficulty ≡ false) × (verdict b ≡ returns failure))
        ⊎ ((verify_hash b.header.hash b.header.difficulty ≡ true)
            × (((b.transactions ≢ []) × (verdict b ≡ stops fault))
                ⊎ ((b.transactions ≡ [])
                    × (((indeterminate b ≡ b.header.merkle_root) × (verdict b ≡ returns success))
                        ⊎ ((indeterminate b ≢ b.header.merkle_root)
                            × (verdict b ≡ returns failure))))))
  unfolding block_verify
  verdict-cases b = elim (Bool-cases (verify_hash b.header.hash b.header.difficulty)) [
    | inr short ↦ inl (short, rw short)
    | inl meets ↦ inr (
      meets,
      elim (List-cases b.transactions) [
        | inr (tx, txs, e) ↦ inl ((λ none_. cc), verdict-filled b tx txs meets e)
        | inl e ↦
            let root = verdict-empty b meets e ∙ ap returns (compare_root-empty b e) in
            inr (
              e,
              elim (Bool-cases (bytes_eq (indeterminate b) b.header.merkle_root)) [
                | inl same ↦ inl (
                  bytes_eq-eq (indeterminate b) b.header.merkle_root same,
                  root ∙ ap (λ t. returns (if t then success else failure)) same,
                )
                | inr other ↦ inr (
                  (λ q.
                      cc (
                        ap (bytes_eq (indeterminate b)) q,
                        bytes_eq_refl (indeterminate b),
                        other,
                      )),
                  root ∙ ap (λ t. returns (if t then success else failure)) other,
                )
              ],
            )
      ],
    )
  ]

  -- Each block names the hash of the one before and fails its own verification.
  abbrev pub LinkedAndRejected : Block → List Block → Type 0
  LinkedAndRejected previous [] = Unit {0}
  LinkedAndRejected previous (b ∷ bs) =
      (b.header.previous_hash ≡ previous.header.hash)
      × (verdict b ≡ returns failure)
      × LinkedAndRejected b bs

  -- A chain of a block at least, whose first block fails its verification, and so do those after it.
  abbrev pub Accepted : Option (List Block) → Type 0
  Accepted none = ⊥
  Accepted (some []) = ⊥
  Accepted (some (b ∷ bs)) = (verdict b ≡ returns failure) × LinkedAndRejected b bs

  -- What comes after a call of `core_block_verify`.
  abbrev after : Outcome ℤ → Outcome ℤ → Outcome ℤ
  after o rest = o >>= λ code. if is_zero code then returns failure else rest

  after-success :
      (b : Block) (rest : Outcome ℤ)
      → after (verdict b) rest ≡ returns success
      → (verdict b ≡ returns failure) × (rest ≡ returns success)
  after-success b rest e = elim (verdict-cases b) [
    | inl (_, f) ↦ (f, sym (ap (λ o. after o rest) f) ∙ e)
    | inr (_, inl (_, f)) ↦ let g = sym (ap (λ o. after o rest) f) ∙ e in absurd (ground (arith, g))
    | inr (_, inr (_, inl (_, f))) ↦
        let g = sym (ap (λ o. after o rest) f) ∙ e in absurd (ground (arith, g))
    | inr (_, inr (_, inr (_, f))) ↦ (f, sym (ap (λ o. after o rest) f) ∙ e)
  ]

  links_there :
      (previous : Block) (bs : List Block)
      → verify_links ssl indeterminate previous bs ≡ returns success
      → LinkedAndRejected previous bs
  unfolding verify_links
  links_there previous [] h = tt
  links_there previous (b ∷ bs) h =
      elim (Bool-cases (bytes_eq b.header.previous_hash previous.header.hash)) [
        | inl linked ↦
            let (bad, rest) =
              after-success b (verify_links ssl indeterminate b bs) (rw linked at h) in
            (
              bytes_eq-eq b.header.previous_hash previous.header.hash linked,
              bad,
              links_there b bs rest,
            )
        | inr broken ↦ absurd (ground (arith, broken, h))
      ]

  links_back :
      (previous : Block) (bs : List Block)
      → LinkedAndRejected previous bs
      → verify_links ssl indeterminate previous bs ≡ returns success
  unfolding verify_links
  links_back previous [] h = refl
  links_back previous (b ∷ bs) (linked, bad, h) =
      let rest = verify_links ssl indeterminate b bs in
      let same : bytes_eq b.header.previous_hash previous.header.hash ≡ true =
        ap (bytes_eq b.header.previous_hash) (sym linked) ∙ bytes_eq_refl b.header.previous_hash in
      ap (λ t. if not t then returns failure else after (verdict b) rest) same
      ∙ ap (λ o. after o rest) bad
      ∙ links_back b bs h

-- `core_blockchain_verify_chain` tests `!core_block_verify(block)`, and 0 is the answer for a good block: it
-- accepts a chain exactly when it is not NULL and not empty, every block fails `core_block_verify`, and each
-- names the hash of the one before. So no chain with a good block is accepted.
pub verify_chain_iff :
    (ssl : OpenSsl) (indeterminate : Block → List ℕ) (chain : Option (List Block))
    → (verify_chain ssl indeterminate chain ≡ returns success) ↔ Accepted ssl indeterminate chain
unfolding verify_chain
verify_chain_iff ssl x none = ((λ h. ground (arith, h)), λ h. absurd h)
verify_chain_iff ssl x (some []) = ((λ h. ground (arith, h)), λ h. absurd h)
verify_chain_iff ssl x (some (b ∷ bs)) = (
  (λ h.
      let (bad, rest) = after-success ssl x b (verify_links ssl x b bs) h in
      (bad, links_there ssl x b bs rest)),
  λ h. ap (λ o. after ssl x o (verify_links ssl x b bs)) h.0 ∙ links_back ssl x b bs h.1,
)

-- `core_block_verify` accepts a block exactly when its hash meets its difficulty, it has no transactions, and the
-- bytes of the root that was never calculated happen to be those of the block's root. It faults exactly when the
-- hash meets the difficulty and the block has a transaction, where the Merkle tree is to be built.
pub block_verify_iff :
    (ssl : OpenSsl) (indeterminate : Block → List ℕ) (b : Block)
    → ((block_verify ssl indeterminate b ≡ returns success) ↔ (
        (verify_hash b.header.hash b.header.difficulty ≡ true)
        × (b.transactions ≡ [])
        × (indeterminate b ≡ b.header.merkle_root)))
      × ((block_verify ssl indeterminate b ≡ stops fault)
          ↔ ((verify_hash b.header.hash b.header.difficulty ≡ true) × (b.transactions ≢ [])))
block_verify_iff ssl x b = elim (verdict-cases ssl x b) [
  | inl (short, e) ↦ (
    (
      (λ h. let q = sym e ∙ h in absurd (ground (arith, q))),
      λ h. absurd (ground (arith, short, h)),
    ),
    (
      (λ h. let q = sym e ∙ h in absurd (ground (arith, q))),
      λ h. absurd (ground (arith, short, h)),
    ),
  )
  | inr (meets, inl (some_, e)) ↦ (
    ((λ h. let q = sym e ∙ h in absurd (ground (arith, q))), λ h. absurd (some_ h.1)),
    ((λ h. (meets, some_)), λ h. e),
  )
  | inr (meets, inr (none_, inl (same, e))) ↦ (
    ((λ h. (meets, none_, same)), λ h. e),
    ((λ h. let q = sym e ∙ h in absurd (ground (arith, q))), λ h. absurd (h.1 none_)),
  )
  | inr (meets, inr (none_, inr (other, e))) ↦ (
    ((λ h. let q = sym e ∙ h in absurd (ground (arith, q))), λ h. absurd (other h.2)),
    ((λ h. let q = sym e ∙ h in absurd (ground (arith, q))), λ h. absurd (h.1 none_)),
  )
]

-- What the loop of `core_blockchain_find_fork` answers from height `i` on.
abbrev pub FirstCommon : ℕ → List Block → List Block → Option ℕ → Type 0
FirstCommon i [] ys r = r ≡ none
FirstCommon i (x ∷ xs) [] r = r ≡ none
FirstCommon i (x ∷ xs) (y ∷ ys) r =
    ((x.header.hash ≡ y.header.hash) × (r ≡ some i))
    ⊎ ((x.header.hash ≢ y.header.hash) × FirstCommon (suc i) xs ys r)

-- From any height, the search for a fork answers with the first height at which the two chains have the
-- same hash, and with none when they differ at every height both have.
pub find_fork_from-FirstCommon :
    (i : ℕ) (xs ys : List Block) → FirstCommon i xs ys (find_fork_from i xs ys)
unfolding find_fork_from
find_fork_from-FirstCommon i [] ys = refl
find_fork_from-FirstCommon i (x ∷ xs) [] = refl
find_fork_from-FirstCommon i (x ∷ xs) (y ∷ ys) =
    elim (Bool-cases (bytes_eq x.header.hash y.header.hash)) [
      | inl e ↦ inl (bytes_eq-eq x.header.hash y.header.hash e, rw e)
      | inr e ↦ inr (
        (λ q. cc (ap (bytes_eq x.header.hash) q, bytes_eq_refl x.header.hash, e)),
        rw e (find_fork_from-FirstCommon (suc i) xs ys),
      )
    ]

module _ (ssl : OpenSsl) (encode : Header → List ℕ) where
  -- `h'` is what mining from `h` ends with: its hash meets the difficulty and is that of the header as
  -- it lay in memory before, with some older hash in it; only hash and nonce have changed.
  abbrev pub Mined : ℕ → Header → Header → Type 0
  Mined rounds h h' =
      (verify_hash h'.hash h'.difficulty ≡ true)
      × ((old : List ℕ) × (h'.hash ≡ hash_twice ssl (encode (record h' { hash = old }))))
      × (h.nonce ≤ h'.nonce)
      × (h'.nonce < h.nonce + rounds)
      × (h' ≡ record h { hash = h'.hash; nonce = h'.nonce })

  mine_loop-Mined :
      (rounds : ℕ) (h h' : Header)
      → mine_loop ssl encode rounds h ≡ (success, h')
      → Mined rounds h h'
  unfolding mine_loop
  mine_loop-Mined zero h h' e = absurd (ground arith)
  mine_loop-Mined (suc rounds) h h' e =
      let hash = hash_twice ssl (encode h) in
      elim (Bool-cases (verify_hash hash h.difficulty)) [
        | inl t ↦
            let same : record h { hash = hash } ≡ h' = ground (arith, t) in
            subst (Mined (suc rounds) h) same (t, (h.hash, refl), omega arith, omega arith, refl)
        | inr f ↦
            let next = record h { hash = hash; nonce = suc h.nonce } in
            let (meets, from, low, high, rest) =
              mine_loop-Mined rounds next h' (ground (arith, f)) in
            (meets, from, omega arith, omega arith, rest)
      ]

-- A block that `core_block_mine` reports as mined meets the difficulty that was asked for; its hash is
-- the double hash of the header as it lay in memory before, with some older hash in the place of the
-- new one; its nonce is below 2^64 - 1, and only difficulty, timestamp, nonce and hash have changed.
pub block_mine-Mined :
    (ssl : OpenSsl) (encode : Header → List ℕ) (block block' : Block) (difficulty now : ℕ)
    → block_mine ssl encode block difficulty now ≡ (success, block')
    → (verify_hash block'.header.hash difficulty ≡ true)
      × ((old : List ℕ) × (block'.header.hash
            ≡ hash_twice ssl (encode (record (block'.header) { hash = old }))))
      × (block'.header.nonce < 2 ^ 64 - 1)
      × (block'.header ≡ record (block.header) {
        hash = block'.header.hash;
        nonce = block'.header.nonce;
        difficulty = difficulty;
        timestamp = now;
      })
      × (block'.transactions ≡ block.transactions)
unfolding block_mine
block_mine-Mined ssl encode block block' difficulty now e =
    let start = record (block.header) { difficulty = difficulty; timestamp = now; nonce = 0 } in
    let mined : mine_loop ssl encode (2 ^ 64 - 1) start ≡ (success, block'.header) =
      λ i. ((e i).0, (e i).1.header) in
    let (meets, from, _, high, rest) =
      mine_loop-Mined ssl encode (2 ^ 64 - 1) start (block'.header) mined in
    (
      subst (λ d. verify_hash block'.header.hash d ≡ true) (ap (λ (h : Header). h.difficulty) rest)
          meets,
      from,
      omega arith,
      rest,
      sym (λ i. (e i).1.transactions),
    )

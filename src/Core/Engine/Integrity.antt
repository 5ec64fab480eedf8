-- ===== src/Core/Engine/Integrity.antt =====
-- `verify_blockchain_integrity` of `CoreEngine` (src/core/engine.cpp).
use cloud_fly_prlatform.Prelude.{
  ℕ, ◌-◌, ◌≤◌, ◌≡◌, ◌⊎◌, inl, inr, refl, sym, ap, ◌∙◌, Bool, true, false, not, List, [], ◌∷◌,
  Option, some, arith, if◌then◌else◌, Bool-cases, leb, ltb, ◌==◌, ==_iff, get_elem?,
}
use mathlib.Core.Option.{some-injective}
use cloud_fly_prlatform.Core.Engine.{
  Call, World, Block, CoreEngine, Attempt, returns, crashes, continue, ◌>>◌, caught, pure, when,
  call, handle_critical_failure, check_link, verify_block, verify_blocks, update_last,
  verify_blockchain_integrity,
}
use cloud_fly_prlatform.Core.Engine.Call.{
  get_state, read_last_verified, verify_signature, update_last_verified,
}
use cloud_fly_prlatform.Core.Engine.Failures.{Throws, handle_critical_failure-Throws}

-- Each link that may be looked at is in the state.
unfoldable pub InRange : List Block → List Block → Type 0
InRange all [] = Unit {0}
InRange all (block ∷ blocks) =
    ((before : Block) × (get_elem? all (block.height - 2) ≡ some before)) × InRange all blocks

module _ (w : World) (all : List Block) (last_height : ℕ) where
  -- The block is old, or has a good signature and, from height 2 on, the hash of the block two places below its
  -- height as its previous hash.
  unfoldable pub Verified : Block → Type 0
  Verified block =
      (block.height ≤ last_height)
      ⊎ ((w.signature block ≡ true)
          × ((block.height ≤ 1)
              ⊎ ((before : Block) × (get_elem? all (block.height - 2) ≡ some before)
                  × (block.prev_hash ≡ before.hash))))

  unfoldable pub AllVerified : List Block → Type 0
  unfolding Verified
  AllVerified [] = Unit {0}
  AllVerified (block ∷ blocks) = Verified block × AllVerified blocks

  -- A chain of tests: it comes back exactly where `P` holds, and throws elsewhere.
  abbrev Decides : Type 0 → Attempt (Unit {0}) → Type 0
  Decides P o =
      (P × ((e' : CoreEngine) × (o ≡ returns tt e')))
      ⊎ (¬ P × ((e' : CoreEngine) × (o ≡ Attempt.throws e')))

  throws_of :
      (e : CoreEngine) (o : Attempt (Unit {0}))
      → Throws e o
      → (e' : CoreEngine) × (o ≡ Attempt.throws e')
  unfolding Throws
  throws_of e (returns a e') t = elim t [ ]
  throws_of e (Attempt.throws e') t = (e', refl)
  throws_of e crashes t = elim t [ ]

  fails : (e : CoreEngine) → (e' : CoreEngine) × (handle_critical_failure w e ≡ Attempt.throws e')
  fails e = throws_of e (handle_critical_failure w e) (handle_critical_failure-Throws w e)

  module _ (quiet : (calls : List Call) (c : Call) → w.throws calls c ≡ false) where
    call_quiet :
        (c : Call) (e : CoreEngine) → call w c e ≡ returns tt (record e { calls = c ∷ e.calls })
    unfolding call
    call_quiet c e = rw (quiet e.calls c) refl

    link-Decides :
        (block before : Block) (e : CoreEngine)
        → Decides (block.prev_hash ≡ before.hash) (check_link w block (some before) e)
    unfolding check_link
    link-Decides block before e = elim (Bool-cases (block.prev_hash == before.hash)) [
      | inl same ↦ inl (
        (==_iff _ _).0 same,
        (e, ap (λ b. (if b then pure tt else handle_critical_failure w) e) same),
      )
      | inr other ↦
          let (e', t) = fails e in
          inr (
            (λ q. let c = (==_iff _ _).1 q in cc),
            (e', ap (λ b. (if b then pure tt else handle_critical_failure w) e) other ∙ t),
          )
    ]

    -- The body of the loop, with its tests and the block that is looked up as arguments.
    abbrev tests : Block → CoreEngine → Bool → Bool → Bool → Option Block → Attempt (Unit {0})
    tests block e old good linked before =
        (if old
            then pure tt
            else (call w verify_signature
                >> (when (not good) (handle_critical_failure w)
                    >> when linked (check_link w block before))))
          e

    verify_block-Decides :
        (block before : Block) (e : CoreEngine)
        → get_elem? all (block.height - 2) ≡ some before
        → Decides (Verified block) (verify_block w all last_height block e)
    unfolding verify_block Verified
    verify_block-Decides block before e there =
        let signed : CoreEngine = record e { calls = verify_signature ∷ e.calls } in
        elim (Bool-cases (leb block.height last_height)) [
          | inl old ↦ inl (
            inl (ground arith),
            (e, λ k. tests block e (old k) (w.signature block) (ltb 1 block.height) (there k)),
          )
          | inr new ↦ elim (Bool-cases (w.signature block)) [
            | inr bad ↦
                let (e', t) = fails signed in
                inr (
                  (λ v. elim v [ inl le ↦ absurd (ground arith) | inr (good, r) ↦ absurd (cc) ]),
                  (
                    e',
                    (λ k. tests block e (new k) (bad k) (ltb 1 block.height) (there k))
                        ∙ ap
                            (λ o. continue o (λ _.
                              handle_critical_failure w
                              >> when (ltb 1 block.height) (check_link w block (some before))))
                            (call_quiet verify_signature e)
                        ∙ ap
                            (λ o.
                              continue o
                                (λ _. when (ltb 1 block.height) (check_link w block (some before))))
                            t,
                  ),
                )
            | inl good ↦ elim (Bool-cases (ltb 1 block.height)) [
              | inr low ↦ inl (
                inr (good, inl (ground arith)),
                (
                  signed,
                  (λ k. tests block e (new k) (good k) (low k) (there k))
                      ∙ ap (λ o. continue o (λ _. pure tt)) (call_quiet verify_signature e),
                ),
              )
              | inl high ↦
                  let path : verify_block w all last_height block e
                      ≡ check_link w block (some before) signed =
                    (λ k. tests block e (new k) (good k) (high k) (there k))
                    ∙ ap (λ o. continue o (λ _. check_link w block (some before)))
                        (call_quiet verify_signature e) in
                  elim (link-Decides block before signed) [
                    | inl (same, (e', t)) ↦
                        inl (inr (good, inr (before, there, same)), (e', path ∙ t))
                    | inr (other, (e', t)) ↦ inr (
                      (λ v. elim v [
                        | inl le ↦ absurd (ground arith)
                        | inr (g, inl le) ↦ absurd (ground arith)
                        | inr (g, inr (b, at, same)) ↦ other (
                            same
                            ∙ ap (λ (x : Block). x.hash) (some-injective b before (sym at ∙ there)))
                      ]),
                      (e', path ∙ t),
                    )
                  ]
            ]
          ]
        ]

    verify_blocks-Decides :
        (blocks : List Block) (e : CoreEngine)
        → InRange all blocks
        → Decides (AllVerified blocks) (verify_blocks w all last_height blocks e)
    unfolding verify_blocks AllVerified InRange
    verify_blocks-Decides [] e r = inl (tt, (e, refl))
    verify_blocks-Decides (block ∷ blocks) e ((before, there), r) =
        elim (verify_block-Decides block before e there) [
          | inr (no_good, (e', t)) ↦ inr (
            (λ v. no_good v.0),
            (e', ap (λ o. continue o (λ _. verify_blocks w all last_height blocks)) t),
          )
          | inl (good, (e1, t)) ↦
              let path = ap (λ o. continue o (λ _. verify_blocks w all last_height blocks)) t in
              elim (verify_blocks-Decides blocks e1 r) [
                | inl (rest, (e', t')) ↦ inl ((good, rest), (e', path ∙ t'))
                | inr (no_rest, (e', t')) ↦ inr ((λ v. no_rest v.1), (e', path ∙ t'))
              ]
        ]

module _ (w : World) where
  -- Where no call of a component throws, the state has a block, and every link that may be looked at is in the
  -- state, the check comes
  -- back where every block above the last verified height has a good signature and, above height 1, the hash
  -- of the block before it as its previous hash, and throws where one has not.
  pub verify_blockchain_integrity-cases :
      (e : CoreEngine) (first : Block) (rest : List Block)
      → ((calls : List Call) (c : Call) → w.throws calls c ≡ false)
      → w.blocks (get_state ∷ e.calls) ≡ first ∷ rest
      → InRange (first ∷ rest) (first ∷ rest)
      → (AllVerified w
            (first ∷ rest)
            (w.last_verified (read_last_verified ∷ get_state ∷ e.calls))
            (first ∷ rest)
          × ((e' : CoreEngine) × (verify_blockchain_integrity w e ≡ returns tt e')))
        ⊎ (¬ AllVerified w
              (first ∷ rest)
              (w.last_verified (read_last_verified ∷ get_state ∷ e.calls))
              (first ∷ rest)
            × ((e' : CoreEngine) × (verify_blockchain_integrity w e ≡ Attempt.throws e')))
  unfolding verify_blockchain_integrity update_last
  verify_blockchain_integrity-cases e first rest quiet state range =
      let h = handle_critical_failure w in
      let bs : List Block = first ∷ rest in
      let e1 : CoreEngine = record e { calls = get_state ∷ e.calls } in
      let e2 : CoreEngine = record e { calls = read_last_verified ∷ get_state ∷ e.calls } in
      let height : ℕ = w.last_verified e2.calls in
      let ends : List Block → CoreEngine → Attempt (Unit {0}) = λ all e''.
        continue (verify_blocks w all (w.last_verified e''.calls) all e'')
          (λ _. update_last w all) in
      let path : verify_blockchain_integrity w e ≡ caught (ends bs e2) h =
        ap
          (λ o.
            caught
              (continue o
                (λ _ e'. continue (call w read_last_verified e') (λ _. ends (w.blocks e'.calls))))
              h)
          (call_quiet w bs height quiet get_state e)
        ∙ ap (λ o. caught (continue o (λ _. ends (w.blocks e1.calls))) h)
            (call_quiet w bs height quiet read_last_verified e1)
        ∙ ap (λ all. caught (ends all e2) h) state in
      elim (verify_blocks-Decides w bs height quiet bs e2 range) [
        | inl (good, (e', t)) ↦ inl (
          good,
          (
            _,
            path
                ∙ ap (λ o. caught (continue o (λ _. update_last w bs)) h) t
                ∙ ap (λ o. caught o h) (call_quiet w bs height quiet update_last_verified e'),
          ),
        )
        | inr (bad, (e', t)) ↦
            let (e'', t') = fails w bs height e' in
            inr (bad, (e'', path ∙ ap (λ o. caught (continue o (λ _. update_last w bs)) h) t ∙ t'))
      ]

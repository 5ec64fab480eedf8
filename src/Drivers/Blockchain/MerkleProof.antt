-- ===== src/Drivers/Blockchain/MerkleProof.antt =====
-- Merkle proofs: what a proof that is accepted binds.
use cloud_fly_prlatform.Prelude.{
  ℕ, suc, ◌%◌, ◌≡◌, ◌≢◌, refl, sym, ap, ap₂, ◌∙◌, true, List, [], ◌∷◌, ◌++◌, length, ◌==◌, arith,
  inl, inr, Bool-cases, if◌then◌else◌, ◌↔◌,
}
use cloud_fly_prlatform.Prelude.Int.{pos}
use cloud_fly_prlatform.Drivers.Blockchain.{
  OpenSsl, bytes_eq, hash_size, hash_twice, climb, verify_merkle_proof,
}

pub bytes_eq-eq : (xs ys : List ℕ) → bytes_eq xs ys ≡ true → xs ≡ ys
unfolding bytes_eq
bytes_eq-eq [] [] h = refl
bytes_eq-eq [] (y ∷ ys) h = cc
bytes_eq-eq (x ∷ xs) [] h = cc
bytes_eq-eq (x ∷ xs) (y ∷ ys) h = ground (arith, bytes_eq-eq xs ys)

pub bytes_eq_refl : (xs : List ℕ) → bytes_eq xs xs ≡ true
unfolding bytes_eq
bytes_eq_refl [] = refl
bytes_eq_refl (x ∷ xs) = ground (arith, bytes_eq_refl xs)

append_injective :
    (xs ys us vs : List ℕ) → length xs ≡ length us → xs ++ ys ≡ us ++ vs → (xs ≡ us) × (ys ≡ vs)
append_injective [] ys [] vs e h = (refl, h)
append_injective [] ys (u ∷ us) vs e h = absurd (omega arith)
append_injective (x ∷ xs) ys [] vs e h = absurd (omega arith)
append_injective (x ∷ xs) ys (u ∷ us) vs e h =
    let tails : xs ++ ys ≡ us ++ vs = cc in
    let heads : x ≡ u = cc in
    let (p, q) = append_injective xs ys us vs (omega arith) tails in (ap₂ ◌∷◌ heads p, q)

module _ (ssl : OpenSsl) where
  -- Two inputs that the double hash does not tell apart.
  abbrev pub Collision : Type 0
  Collision = (x : List ℕ) × (y : List ℕ) × (x ≢ y) × (hash_twice ssl x ≡ hash_twice ssl y)

  abbrev pub HasHashSize : Type 0
  HasHashSize = (x : List ℕ) → length (ssl.sha256 x) ≡ hash_size

  module _ (sized : HasHashSize) where
    -- Different nodes that reach one root along one path collide on the way.
    climb_binds :
        (i : ℕ) (x y : List ℕ) (proof : List (List ℕ))
        → length x ≡ length y
        → x ≢ y
        → climb ssl i x proof ≡ climb ssl i y proof
        → Collision
    unfolding climb
    climb_binds i x y [] e ne h = absurd (ne h)
    climb_binds i x y (p ∷ proof) e ne h =
        elim (Bool-cases (bytes_eq (hash_twice ssl jx) (hash_twice ssl jy))) [
          | inl same ↦ (jx, jy, joined, bytes_eq-eq (hash_twice ssl jx) (hash_twice ssl jy) same)
          | inr other ↦
              climb_binds (suc i) (hash_twice ssl jx) (hash_twice ssl jy) proof (lengths jx jy)
                (λ q.
                  cc
                    (bytes_eq_refl (hash_twice ssl jx), ap (bytes_eq (hash_twice ssl jx)) q, other))
                h
        ]
      where
        join : List ℕ → List ℕ
        join z = if i % 2 == 0 then z ++ p else p ++ z

        jx : List ℕ
        jx = join x

        jy : List ℕ
        jy = join y

        joined : jx ≢ jy
        joined q = elim (Bool-cases (i % 2 == 0)) [
          | inl left ↦ ne (append_injective x p y p e (rw left at q)).0
          | inr right ↦ ne (append_injective p x p y refl (rw right at q)).1
        ]

        lengths : (u v : List ℕ) → length (hash_twice ssl u) ≡ length (hash_twice ssl v)
        lengths u v = unfold hash_twice in (sized (ssl.sha256 u) ∙ sym (sized (ssl.sha256 v)))

    accepted :
        (leaf root : List ℕ) (proof : List (List ℕ))
        → verify_merkle_proof ssl leaf root proof ≡ pos 1
        → climb ssl 0 leaf proof ≡ root
    unfolding verify_merkle_proof
    accepted leaf root [] h = absurd (ground arith)
    accepted leaf root (p ∷ proof) h =
        bytes_eq-eq (climb ssl 0 leaf (p ∷ proof)) root (ground arith)

-- A root and a proof bind the leaf: if `core_blockchain_verify_merkle_proof` accepts two different
-- leaf hashes for them, two different inputs of the double hash have been found that it maps to one
-- value. The hash gives 32 bytes.
pub verify_merkle_proof-binds :
    (ssl : OpenSsl) (leaf leaf' root : List ℕ) (proof : List (List ℕ))
    → HasHashSize ssl
    → length leaf ≡ hash_size
    → length leaf' ≡ hash_size
    → leaf ≢ leaf'
    → verify_merkle_proof ssl leaf root proof ≡ pos 1
    → verify_merkle_proof ssl leaf' root proof ≡ pos 1
    → Collision ssl
verify_merkle_proof-binds ssl leaf leaf' root proof sized e e' ne h h' =
    climb_binds ssl sized 0 leaf leaf' proof (e ∙ sym e') ne
      (accepted ssl sized leaf root proof h ∙ sym (accepted ssl sized leaf' root proof h'))

-- For every leaf and every path of at least one step there is a root that is accepted, and only one.
pub verify_merkle_proof_iff :
    (ssl : OpenSsl) (leaf root p : List ℕ) (proof : List (List ℕ))
    → (verify_merkle_proof ssl leaf root (p ∷ proof) ≡ pos 1)
      ↔ (climb ssl 0 leaf (p ∷ proof) ≡ root)
unfolding verify_merkle_proof
verify_merkle_proof_iff ssl leaf root p proof =
    let top = climb ssl 0 leaf (p ∷ proof) in
    ((λ h. bytes_eq-eq top root (ground arith)), (λ h. rw (← h, bytes_eq_refl top)))

-- ===== src/Drivers/Blockchain/Difficulty.antt =====
-- The test of a hash against a difficulty, as an inequality on the number that the hash spells.
use native.Mathlib.Nat.{pow-suc, pow-le-pow_right, mul-le-mul_left, mul-le-mul_right}
use cloud_fly_prlatform.Prelude.{
  false, if◌then◌else◌, ℕ, zero, suc, ◌+◌, ◌*◌, ◌^◌, ◌≤◌, ◌<◌, ◌≡◌, ◌↔◌, refl, true, Bool, ◌&&◌,
  ◌||◌, List, [], ◌∷◌, length, leb, ◌==◌, arith, inl, inr, Bool-cases, ◌⊎◌,
}
use cloud_fly_prlatform.Prelude.Powers.{two_pow_pos, two_pow_add}
use cloud_fly_prlatform.Drivers.Blockchain.{leading_zeros, zero_bits, verify_hash}

-- 256 to the number of bytes.
abbrev pub weight : List ℕ → ℕ
weight [] = 1
weight (b ∷ bs) = 256 * weight bs

-- The number that the bytes spell, the first byte the highest.
abbrev pub number : List ℕ → ℕ
number [] = 0
number (b ∷ bs) = b * weight bs + number bs

abbrev pub AreBytes : List ℕ → Type 0
AreBytes [] = Unit {0}
AreBytes (b ∷ bs) = (b < 256) × AreBytes bs

weight_pos : (bs : List ℕ) → 0 < weight bs
weight_pos [] = omega arith
weight_pos (b ∷ bs) = omega (arith, weight_pos bs)

number-lt-weight : (bs : List ℕ) → AreBytes bs → number bs < weight bs
number-lt-weight [] h = omega arith
number-lt-weight (b ∷ bs) h =
    omega (arith, number-lt-weight bs h.1, mul-le-mul_right {m = suc b} {n = 256} (weight bs) h.0)

-- A test that every byte from `n - 1` down to 0 passes.
passes : (ℕ → Bool) → ℕ → Bool
passes test zero = true
passes test (suc byte) = let lower = passes test byte in if test byte then lower else false

passes-at : (test : ℕ → Bool) (byte n : ℕ) → passes test n ≡ true → byte < n → test byte ≡ true
unfolding passes
passes-at test byte (suc n) all h = ground (arith, passes-at test byte n)
passes-at test byte zero all h = elim h [ ]

-- For a byte above 0 with `z` leading zeros: 256 ≤ b * 2^(z+1) and (b + 1) * 2^z ≤ 256.
byte_table :
    passes
      (λ b.
        b == 0
        || (leb 256 (b * 2 ^ leading_zeros 8 b * 2) && leb ((b + 1) * 2 ^ leading_zeros 8 b) 256))
      256
    ≡ true
unfolding passes leading_zeros
byte_table = refl

byte_bounds :
    (b : ℕ)
    → 0 < b
    → b < 256
    → (256 ≤ b * 2 ^ leading_zeros 8 b * 2) × ((b + 1) * 2 ^ leading_zeros 8 b ≤ 256)
byte_bounds b pos h = ground (arith, passes-at _ b 256 byte_table h)

-- With `z` leading zero bits the number times 2^z fits, and, if it is not 0, times 2^(z+1) does not.
bounds :
    (bs : List ℕ)
    → AreBytes bs
    → (number bs * 2 ^ zero_bits bs < weight bs)
      × ((number bs ≡ 0) × (2 ^ zero_bits bs ≡ weight bs)
          ⊎ (weight bs ≤ number bs * 2 ^ zero_bits bs * 2))
unfolding zero_bits
bounds [] h = (omega arith, inl (omega arith, omega arith))
bounds (b ∷ bs) h = elim (Bool-cases (b == 0)) [
  | inl e ↦
      let (low, high) = bounds bs h.1 in
      let skip : b * weight bs ≡ 0 = ground arith in
      let power : 2 ^ (8 + zero_bits bs) ≡ 256 * 2 ^ zero_bits bs = two_pow_add 8 (zero_bits bs) in
      rw (e, skip, power)
        (
          omega arith,
          elim high [ inl (n, p) ↦ inl (omega arith, omega arith) | inr up ↦ inr (omega arith) ],
        )
  | inr e ↦
      let z = leading_zeros 8 b in
      let w = weight bs in
      let (up, low) = byte_bounds b (ground arith) h.0 in
      let small = number-lt-weight bs h.1 in
      rw e (
        omega (
          arith,
          mul-le-mul_right {m = suc (number bs)} {n = w} (2 ^ z) small,
          mul-le-mul_right {m = (b + 1) * 2 ^ z} {n = 256} w low,
          two_pow_pos z,
        ),
        inr (omega (arith, mul-le-mul_right {m = 256} {n = b * 2 ^ z * 2} w up)),
      )
]

weight_eq : (bs : List ℕ) → weight bs ≡ 256 ^ length bs
weight_eq [] = refl
weight_eq (b ∷ bs) = rw (pow-suc 256 (length bs)) (omega (arith, weight_eq bs))

-- `core_blockchain_verify_hash` accepts a hash at a difficulty of at most its number of bits exactly
-- when the number that the bytes spell, times 2^difficulty, stays below 256^length: for 32 bytes,
-- when it is below 2^(256 - difficulty).
pub verify_hash_iff :
    (hash : List ℕ) (difficulty : ℕ)
    → AreBytes hash
    → 2 ^ difficulty ≤ 256 ^ length hash
    → (verify_hash hash difficulty ≡ true) ↔ (number hash * 2 ^ difficulty < 256 ^ length hash)
unfolding verify_hash
verify_hash_iff hash d h most = (there, back)
  where
    there : leb d (zero_bits hash) ≡ true → number hash * 2 ^ d < 256 ^ length hash
    there e = omega (
      arith,
      weight_eq hash,
      (bounds hash h).0,
      mul-le-mul_left (number hash)
          (pow-le-pow_right {n = 2} (omega arith) {i = d} {j = zero_bits hash} (ground arith)),
    )

    back : number hash * 2 ^ d < 256 ^ length hash → leb d (zero_bits hash) ≡ true
    back lt = elim (Bool-cases (leb d (zero_bits hash))) [
      | inl e ↦ e
      | inr e ↦
          let power : 2 ^ zero_bits hash * 2 ≤ 2 ^ d = omega (
            arith,
            pow-suc 2 (zero_bits hash),
            pow-le-pow_right {n = 2} (omega arith) {i = suc (zero_bits hash)} {j = d}
                (ground arith),
          ) in
          elim (bounds hash h).1 [
            | inl (n, p) ↦ absurd (omega (arith, weight_eq hash, two_pow_pos (zero_bits hash)))
            | inr up ↦ absurd (omega (arith, weight_eq hash, mul-le-mul_left (number hash) power))
          ]
    ]

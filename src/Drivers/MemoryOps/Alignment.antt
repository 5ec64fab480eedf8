-- ===== src/Drivers/MemoryOps/Alignment.antt =====
-- The alignment functions at a power of two.
use Prim.Native.Nat.{bit_and}
use native.Mathlib.Nat.{mod-add-div', mod-lt, mod-eq-zero_of_dvd, mod-eq_of_lt, mod_self}
use native.Mathlib.Nat.{sub-zero, dvd-mul_left, div-eq_of_lt-le}
use cloud_fly_prlatform.Prelude.{
  ℕ, ◌+◌, ◌-◌, ◌*◌, ◌/◌, ◌%◌, ◌^◌, ◌≤◌, ◌<◌, ◌≡◌, ap, ◌∙◌, arith, ℕ_discrete,
}
use cloud_fly_prlatform.Prelude.Bits.{bit_and_low, bit_and_round_down}
use cloud_fly_prlatform.Prelude.Powers.{two_pow_pos, two_pow_lt}
use cloud_fly_prlatform.Drivers.MemoryOps.{
  word, pred_word, round_up, align_ptr, get_alignment_offset,
}

module _ (k x : ℕ) (small : k < 64) where
  pow_small : 2 ^ k < word
  pow_small = two_pow_lt k 64 small

  pred_word_pow : pred_word (2 ^ k) ≡ 2 ^ k - 1
  pred_word_pow = omega (arith, two_pow_pos k, pow_small)

  pub round_up_eq : x + 2 ^ k ≤ word → round_up x (2 ^ k) ≡ (x + (2 ^ k - 1)) / 2 ^ k * 2 ^ k
  unfolding round_up
  round_up_eq fits =
      ap (λ t. bit_and (pred_word ((x + 2 ^ k) % word)) (word - 1 - t)) pred_word_pow
      ∙ ap (λ t. bit_and t (word - 1 - (2 ^ k - 1))) (omega (arith, two_pow_pos k))
      ∙ bit_and_round_down k (x + (2 ^ k - 1)) (omega arith) (omega (arith, two_pow_pos k))

  offset_eq : get_alignment_offset x (2 ^ k) ≡ (2 ^ k - x % 2 ^ k) % 2 ^ k
  unfolding get_alignment_offset
  offset_eq =
      ap (λ t. bit_and ((2 ^ k + word - bit_and x t) % word) t) pred_word_pow
      ∙ bit_and_low k ((2 ^ k + word - bit_and x (2 ^ k - 1)) % word)
      ∙ ap (λ t. t % 2 ^ k)
          (omega (arith, bit_and_low k x, mod-lt x (two_pow_pos k), two_pow_pos k, pow_small))

  quotient : let q = (x + (2 ^ k - 1)) / 2 ^ k in x + (2 ^ k - x % 2 ^ k) % 2 ^ k ≡ q * 2 ^ k
  quotient = elim (ℕ_discrete (x % 2 ^ k) 0) [
    | yes e ↦ omega (
      arith,
      two_pow_pos k,
      mod-add-div' x (2 ^ k),
      ap (λ t. (2 ^ k - t) % 2 ^ k) e ∙ ap (λ t. t % 2 ^ k) (sub-zero (2 ^ k)) ∙ mod_self (2 ^ k),
      ap (λ t. t * 2 ^ k)
          (div-eq_of_lt-le {k = x / 2 ^ k} (2 ^ k) {m = x + (2 ^ k - 1)}
            (omega (arith, mod-add-div' x (2 ^ k)))
            (omega (arith, two_pow_pos k, mod-add-div' x (2 ^ k)))),
    )
    | no ne ↦ omega (
      arith,
      two_pow_pos k,
      mod-add-div' x (2 ^ k),
      mod-eq_of_lt {n = 2 ^ k - x % 2 ^ k} {m = 2 ^ k} (omega (arith, two_pow_pos k)),
      mod-lt x (two_pow_pos k),
      ap (λ t. t * 2 ^ k)
          (div-eq_of_lt-le {k = x / 2 ^ k + 1} (2 ^ k) {m = x + (2 ^ k - 1)}
            (omega (arith, mod-add-div' x (2 ^ k)))
            (omega (arith, two_pow_pos k, mod-lt x (two_pow_pos k), mod-add-div' x (2 ^ k)))),
    )
  ]

-- Rounding up to a power of two, where the sum does not wrap.
pub round_up_bounds :
    (k x : ℕ)
    → k < 64
    → x + 2 ^ k ≤ word
    → (x ≤ round_up x (2 ^ k)) × (round_up x (2 ^ k) < x + 2 ^ k) × (round_up x (2 ^ k) % 2 ^ k ≡ 0)
round_up_bounds k x small fits =
    let p = 2 ^ k in
    let e = round_up_eq k x small fits in
    let q = (x + (2 ^ k - 1)) / 2 ^ k in
    let split = mod-add-div' (x + (2 ^ k - 1)) (2 ^ k) in
    let bound = mod-lt (x + (2 ^ k - 1)) (two_pow_pos k) in
    (
      omega (arith, e, split, bound),
      omega (arith, e, split, two_pow_pos k),
      ap (λ t. t % p) e ∙ mod-eq-zero_of_dvd p (dvd-mul_left p q),
    )

-- `core_align_ptr` at a power of two whose sum with the address does not wrap: the least multiple
-- of the alignment that is not below the address, which `core_get_alignment_offset` reaches.
pub align_ptr-offset :
    (k x : ℕ)
    → k < 64
    → x + 2 ^ k ≤ word
    → (x ≤ align_ptr x (2 ^ k))
      × (align_ptr x (2 ^ k) < x + 2 ^ k)
      × (align_ptr x (2 ^ k) % 2 ^ k ≡ 0)
      × (x + get_alignment_offset x (2 ^ k) ≡ align_ptr x (2 ^ k))
unfolding align_ptr
align_ptr-offset k x small fits =
    let (low, high, whole) = round_up_bounds k x small fits in
    let at = round_up_eq k x small fits in
    (low, high, whole, omega (arith, at, offset_eq k x small, quotient k x small))

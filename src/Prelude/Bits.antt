-- ===== src/Prelude/Bits.antt =====
-- The native `bit_and` at masks: low bits, and the complement of low bits in a machine word.
use Prim.Native.Nat.{bit_and, digits, bit_and-bitwise}
use native.Mathlib.Nat.{
  pow-suc, pow-succ', mod-add-div', div-lt_iff_lt-mul, mod-eq_of_lt, div-div-eq-div-mul, mul_comm,
}
use cloud_fly_prlatform.Prelude.Powers.{two_pow_pos, two_pow_add}
use cloud_fly_prlatform.Prelude.{
  ℕ, zero, suc, ◌+◌, ◌-◌, ◌*◌, ◌/◌, ◌%◌, ◌^◌, ◌≤◌, ◌<◌, ◌≡◌, refl, sym, ap, ◌∙◌, arith, min,
}

-- What `bit_and` stands for: at most `fuel` binary digits, each the lesser of the two.
abbrev conj : ℕ → ℕ → ℕ → ℕ
conj fuel x y = digits (λ digit. zero) min fuel x y

conj_nothing : (fuel y : ℕ) → conj fuel 0 y ≡ 0
conj_nothing zero y = refl
conj_nothing (suc fuel) y = refl

conj_clear : (fuel x : ℕ) → conj fuel x 0 ≡ 0
conj_clear zero x = refl
conj_clear (suc fuel) zero = refl
conj_clear (suc fuel) (suc x) = omega (arith, conj_clear fuel (suc x / 2))

conj_spare : (x f g y : ℕ) → x ≤ f → f ≤ g → conj g x y ≡ conj f x y
conj_spare zero f g y h k = conj_nothing g y ∙ sym (conj_nothing f y)
conj_spare (suc x) (suc f) (suc g) y h k =
    omega (arith, conj_spare (suc x / 2) f g (y / 2) (omega arith) (omega arith))
conj_spare (suc x) zero g y h k = absurd (omega arith)
conj_spare (suc x) (suc f) zero y h k = absurd (omega arith)

-- The lowest digit, and the others.
pub bit_and_step : (x y : ℕ) → bit_and x y ≡ min (x % 2) (y % 2) + 2 * bit_and (x / 2) (y / 2)
bit_and_step zero y = omega (arith, bit_and-bitwise 0 y, bit_and-bitwise 0 (y / 2))
bit_and_step (suc x) y =
    let half = suc x / 2 in
    omega (
      arith,
      bit_and-bitwise (suc x) y,
      bit_and-bitwise half (y / 2),
      conj_spare half half x (y / 2) (omega arith) (omega arith),
    )

pub bit_and-zero : (x : ℕ) → bit_and x 0 ≡ 0
bit_and-zero x = bit_and-bitwise x 0 ∙ conj_clear x x

-- Quotient and remainder by `p * 2` through those by 2, for a product that is an unknown.
mod_double : (x p : ℕ) → 0 < p → x % (p * 2) ≡ (x / 2) % p * 2 + x % 2
mod_double x p h = omega (
  arith,
  mod-add-div' x (p * 2),
  mod-add-div' (x / 2) p,
  ap (λ t. t * (p * 2)) (div-div-eq-div-mul x 2 p ∙ ap (λ t. x / t) (mul_comm 2 p)),
)

-- x & (2^k - 1) is x % 2^k.
pub bit_and_low : (k x : ℕ) → bit_and x (2 ^ k - 1) ≡ x % 2 ^ k
bit_and_low zero x = omega (arith, bit_and-zero x)
bit_and_low (suc k) x = rw pow-suc (
    omega (
      arith,
      two_pow_pos k,
      mod_double x (2 ^ k) (two_pow_pos k),
      bit_and_step x (2 ^ k * 2 - 1),
      bit_and_low k (x / 2),
      ap (bit_and (x / 2)) (half (2 ^ k) (two_pow_pos k)),
    ))
  where
    half : (p : ℕ) → 0 < p → (p * 2 - 1) / 2 ≡ p - 1
    half p h = omega arith

-- The low k bits of a multiple of 2^k are clear.
pub bit_and_high : (k x m : ℕ) → bit_and x (m * 2 ^ k) ≡ bit_and (x / 2 ^ k) m * 2 ^ k
bit_and_high zero x m = omega (arith, ap (bit_and x) one, ap (λ t. bit_and t m) whole)
  where
    one : m * 2 ^ 0 ≡ m
    one = omega arith

    whole : x / 2 ^ 0 ≡ x
    whole = omega arith
bit_and_high (suc k) x m = omega (
  arith,
  double,
  ap (λ t. bit_and (x / 2 ^ suc k) m * t) (pow-suc 2 k),
  bit_and_step x (m * 2 ^ suc k),
  ap (bit_and (x / 2)) even,
  bit_and_high k (x / 2) m,
  ap (λ t. bit_and t m * 2 ^ k)
      (div-div-eq-div-mul x 2 (2 ^ k) ∙ ap (λ t. x / t) (sym (pow-succ' 2 k))),
)
  where
    double : m * 2 ^ suc k ≡ m * 2 ^ k * 2
    double = omega (arith, ap (λ t. m * t) (pow-suc 2 k))

    even : m * 2 ^ suc k / 2 ≡ m * 2 ^ k
    even = omega (arith, double)

complement_low : (w p q : ℕ) → w ≡ q * p → 0 < p → w - 1 - (p - 1) ≡ (q - 1) * p
complement_low w p zero e h = omega arith
complement_low w p (suc q) e h = omega (arith, ap (λ t. t * p) (pred q))
  where
    pred : (n : ℕ) → suc n - 1 ≡ n
    pred n = omega arith

-- x & ~(2^k - 1) in a 64-bit word: `x` rounded down to a multiple of 2^k.
pub bit_and_round_down :
    (k x : ℕ) → k ≤ 64 → x < 2 ^ 64 → bit_and x (2 ^ 64 - 1 - (2 ^ k - 1)) ≡ x / 2 ^ k * 2 ^ k
bit_and_round_down k x h hx = omega (
  arith,
  ap (bit_and x) mask,
  bit_and_high k x (2 ^ (64 - k) - 1),
  ap (λ t. t * 2 ^ k) (bit_and_low (64 - k) (x / 2 ^ k) ∙ mod-eq_of_lt small),
)
  where
    split : 2 ^ 64 ≡ 2 ^ (64 - k) * 2 ^ k
    split = let e : 64 ≡ 64 - k + k = omega arith in ap (λ t. 2 ^ t) e ∙ two_pow_add (64 - k) k

    mask : 2 ^ 64 - 1 - (2 ^ k - 1) ≡ (2 ^ (64 - k) - 1) * 2 ^ k
    mask = complement_low (2 ^ 64) (2 ^ k) (2 ^ (64 - k)) split (two_pow_pos k)

    small : x / 2 ^ k < 2 ^ (64 - k)
    small = (div-lt_iff_lt-mul (two_pow_pos k)).1 (omega (arith, split))

-- ===== src/Prelude/Powers.antt =====
-- Powers of two at variables.
use native.Mathlib.Nat.{pow-suc, add-suc, add-zero, pow-le-pow_right}
use cloud_fly_prlatform.Prelude.{ℕ, zero, suc, ◌+◌, ◌*◌, ◌^◌, ◌<◌, ◌≡◌, ap, arith}

pub two_pow_pos : (k : ℕ) → 0 < 2 ^ k
two_pow_pos zero = omega arith
two_pow_pos (suc k) = omega (arith, pow-suc 2 k, two_pow_pos k)

pub two_pow_add : (a b : ℕ) → 2 ^ (a + b) ≡ 2 ^ a * 2 ^ b
two_pow_add a zero = rw add-zero (omega arith)
two_pow_add a (suc b) =
    rw (add-suc, pow-suc 2 (a + b), pow-suc 2 b) (omega (arith, ap (λ t. t * 2) (two_pow_add a b)))

pub two_pow_lt : (a b : ℕ) → a < b → 2 ^ a < 2 ^ b
two_pow_lt a b h = omega (
  arith,
  pow-suc 2 a,
  two_pow_pos a,
  pow-le-pow_right {n = 2} (omega arith) {i = suc a} {j = b} h,
)

-- ===== src/Drivers/Buffer/Growth.antt =====
-- The loop of `core_buffer_write` that doubles the capacity.
use native.Mathlib.Nat.{pow-suc, suc-add, add-mul-mod_self_left, mod-add-div}
use cloud_fly_prlatform.Prelude.{
  ℕ, zero, suc, ◌+◌, ◌*◌, ◌/◌, ◌%◌, ◌^◌, ◌≤◌, ◌<◌, ◌≡◌, refl, sym, ap, ap₂, ◌∙◌, arith, returns,
  stops, diverge, ltb, inl, inr, Bool-cases,
}
use cloud_fly_prlatform.Drivers.MemoryOps.{word}
use cloud_fly_prlatform.Drivers.Buffer.{grow, grow_fuel}

grow_within :
    (f need c : ℕ)
    → 0 < c
    → c < word
    → need ≤ 2 ^ 63
    → need ≤ c * 2 ^ f
    → (r : ℕ) × (grow (suc f) need c ≡ returns r) × (need ≤ r) × (r < word)
unfolding grow
grow_within zero need c hc hw hn h = (c, ground arith, omega arith, hw)
grow_within (suc f) need c hc hw hn h = elim (Bool-cases (ltb c need)) [
  | inr e ↦ (c, rw e, ground arith, hw)
  | inl e ↦
      let wide : c * 2 % word ≡ c * 2 = ground arith in
      let (r, g, low, high) =
        grow_within f need (c * 2) (omega arith) (ground arith) hn (omega (arith, regroup f c)) in
      (r, rw e (ap (grow (suc f) need) wide ∙ g), low, high)
]
  where
    regroup : (f c : ℕ) → c * 2 ^ suc f ≡ c * 2 * 2 ^ f
    regroup f c = omega (arith, ap (λ t. c * t) (pow-suc 2 f))

-- From a capacity that is not 0, the doubling of `core_buffer_write` reaches any need up to half the
-- address space within the fuel, and the capacity it ends with fits in `size_t`.
pub grow-returns :
    (need c : ℕ)
    → 0 < c
    → c < word
    → need ≤ 2 ^ 63
    → (r : ℕ) × (grow grow_fuel need c ≡ returns r) × (need ≤ r) × (r < word)
grow-returns need c hc hw hn = grow_within 64 need c hc hw hn (omega arith)

-- A buffer of capacity 0 never gets there: doubling 0 goes on for ever.
pub grow-zero : (k need : ℕ) → 0 < need → grow k need 0 ≡ stops diverge
unfolding grow
grow-zero zero need h = refl
grow-zero (suc k) need h = ground (arith, grow-zero k need h)

mod_mul : (x p : ℕ) → x % word * p % word ≡ x * p % word
mod_mul x p =
    sym (add-mul-mod_self_left (x % word * p) word (x / word * p))
    ∙ ap (λ t. t % word) (omega (arith, ap (λ t. t * p) (mod-add-div x word)))

grow_add :
    (j k need c : ℕ)
    → c < word
    → grow j need c ≡ stops diverge
    → grow (j + k) need c ≡ grow k need (c * 2 ^ j % word)
unfolding grow
grow_add zero k need c hw h = ap₂ (λ m t. grow m need t) (omega arith) (omega arith)
grow_add (suc j) k need c hw h = elim (Bool-cases (ltb c need)) [
  | inr e ↦ ground (arith, e)
  | inl e ↦
      rw (suc-add j k, e)
        (grow_add j k need (c * 2 % word) (omega arith) (ground (arith, e))
          ∙ ap (grow k need) (
              mod_mul (c * 2) (2 ^ j)
              ∙ ap (λ t. t % word) (omega (arith, ap (λ t. c * t) (pow-suc 2 j)))))
]

-- The fuel loses nothing: where it runs out, the capacity has wrapped to 0 and the loop of the
-- source never ends, whatever the number of its rounds.
pub grow-fuel_enough :
    (k need c : ℕ)
    → c < word
    → grow grow_fuel need c ≡ stops diverge
    → grow (grow_fuel + k) need c ≡ stops diverge
unfolding grow
grow-fuel_enough k zero c hw h = absurd (needless c h)
  where
    needless : (c : ℕ) → ¬ (grow grow_fuel 0 c ≡ stops diverge)
    needless c h = ground arith
grow-fuel_enough k (suc need) c hw h =
    grow_add grow_fuel k (suc need) c hw h
    ∙ ap (grow k (suc need)) (omega arith)
    ∙ grow-zero k (suc need) (omega arith)

-- Whatever it returns is large enough, and a `size_t`.
pub grow-bounds : (k need c r : ℕ) → c < word → grow k need c ≡ returns r → (need ≤ r) × (r < word)
unfolding grow
grow-bounds zero need c r w e = absurd (ground arith)
grow-bounds (suc k) need c r w e = ground (arith, grow-bounds k need (c * 2 % word) r)

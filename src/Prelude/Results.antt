-- ===== src/Prelude/Results.antt =====
-- What a call of the C and C++ code can do: return a value, throw, or never come back properly.
use mathlib.Core.Path.{◌≡◌, refl}
use mathlib.Core.Logic.{◌⊎◌, inl, inr}

-- `fault` is an access outside an object or to a freed one, `deadlock` a `std::mutex` that the
-- thread already holds, `diverge` a loop that does not end, `thrown` an exception.
pub data Stop : Type 0 where
  fault deadlock diverge thrown : Stop

pub data Outcome {ℓ} (A : Type ℓ) : Type ℓ where
  returns : A → Outcome A
  stops : Stop → Outcome A

infixl 5 ◌>>=◌ ◌>>◌
abbrev pub ◌>>=◌ {ℓ κ} : {A : Type ℓ} {B : Type κ} → Outcome A → (A → Outcome B) → Outcome B
returns a >>= f = f a
stops s >>= f = stops s

abbrev pub ◌>>◌ {ℓ κ} : {A : Type ℓ} {B : Type κ} → Outcome A → Outcome B → Outcome B
m >> k = m >>= λ _. k

-- Inversion of a bind that returns.
pub >>=-eq-returns {ℓ κ} :
    {A : Type ℓ} {B : Type κ} (m : Outcome A) (f : A → Outcome B) {b : B}
    → (m >>= f) ≡ returns b
    → (a : A) × (m ≡ returns a) × (f a ≡ returns b)
>>=-eq-returns (returns a) f h = (a, refl, h)
>>=-eq-returns (stops s) f h = cc

pub >>=_cong {ℓ κ} :
    {A : Type ℓ} {B : Type κ} (m : Outcome A) {f g : A → Outcome B}
    → ((a : A) → f a ≡ g a)
    → (m >>= f) ≡ (m >>= g)
>>=_cong (returns a) h = h a
>>=_cong (stops s) h = refl

pub >>=_assoc {ℓ κ μ} :
    {A : Type ℓ} {B : Type κ} {C : Type μ} (m : Outcome A) (f : A → Outcome B) (g : B → Outcome C)
    → (m >>= f >>= g) ≡ (m >>= λ a. f a >>= g)
>>=_assoc (returns a) f g = refl
>>=_assoc (stops s) f g = refl

pub Outcome-cases {ℓ} :
    {A : Type ℓ} (m : Outcome A) → ((s : Stop) × (m ≡ stops s)) ⊎ ((a : A) × (m ≡ returns a))
Outcome-cases (returns a) = inr (a, refl)
Outcome-cases (stops s) = inl (s, refl)

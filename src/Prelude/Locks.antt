-- ===== src/Prelude/Locks.antt =====
-- Code under `std::mutex`es that are not recursive: a state is passed on, and the mutexes that the
-- running thread holds are known. A second `lock_guard` on one of them never gets it.
use Prim.Native.Nat.{ℕ}
use mathlib.Core.Bool.{Bool, false, ◌||◌}
use mathlib.Core.List.{List, [], ◌∷◌}
use mathlib.Core.Option.{Option, none, some}
use cloud_fly_prlatform.Prelude.Tests.{◌==◌, if◌then◌else◌}
use cloud_fly_prlatform.Prelude.Results.{Stop, deadlock, Outcome, returns, stops}

abbrev pub Guarded {ℓ κ} : Type ℓ → Type κ → Type (ℓ ⊔ κ)
Guarded S A = List ℕ → S → Outcome (A × S)

abbrev pub holds : ℕ → List ℕ → Bool
holds m [] = false
holds m (h ∷ hs) = (m == h) || holds m hs

-- What follows a call, on the value and the state it returned.
abbrev pub continue {ℓ κ} : {A : Type ℓ} {B : Type κ} → Outcome A → (A → Outcome B) → Outcome B
continue (returns a) f = f a
continue (stops s) f = stops s

module _ {ℓ κ μ} {S : Type ℓ} {A : Type κ} {B : Type μ} where
  infixl 5 ◌>>=◌ ◌>>◌
  abbrev pub ◌>>=◌ : Guarded S A → (A → Guarded S B) → Guarded S B
  m >>= f = λ held s. continue (m held s) (λ r. f r.0 held r.1)

  abbrev pub ◌>>◌ : Guarded S A → Guarded S B → Guarded S B
  m >> k = m >>= λ _. k

module _ {ℓ κ} {S : Type ℓ} {A : Type κ} where
  abbrev pub lock_guard : ℕ → Guarded S A → Guarded S A
  lock_guard m body held s =
      let locked = body (m ∷ held) s in if holds m held then stops deadlock else locked

  abbrev pub pure : A → Guarded S A
  pure a held s = returns (a, s)

  abbrev pub abort : Stop → Guarded S A
  abort reason held s = stops reason

  -- `if (it != end) …`: the body on the entry that was found, or the answer for no entry.
  abbrev pub found {μ} :
      {V : Type μ} → (S → Option V) → Guarded S A → (V → Guarded S A) → Guarded S A
  found look otherwise body held s = elim (look s) [
    | none ↦ otherwise held s
    | some v ↦ body v held s
  ]

module _ {ℓ} {S : Type ℓ} where
  abbrev pub modify : (S → S) → Guarded S (Unit {0})
  modify f held s = returns (tt, f s)

  abbrev pub skip : Guarded S (Unit {0})
  skip held s = returns (tt, s)

  abbrev pub gets {κ} : {A : Type κ} → (S → A) → Guarded S A
  gets f held s = returns (f s, s)

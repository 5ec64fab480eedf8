-- ===== src/Prelude/Members.antt =====
-- Which elements stand in a list, and what filtering it leaves.
use Prim.Native.Nat.{ℕ, zero, suc}
use mathlib.Core.Path.{◌≡◌, refl, ap}
use mathlib.Core.Logic.{◌↔◌, ◌⊎◌, inl, inr}
use mathlib.Core.Bool.{Bool, true, false}
use mathlib.Core.List.{List, ◌∷◌}
use mathlib.Core.Option.{some}
use cloud_fly_prlatform.Prelude.Tests.{if◌then◌else◌}
use cloud_fly_prlatform.Prelude.Lists.{get_elem?}

module _ {A : Type 0} where
  -- `a` stands in the list.
  abbrev pub Member : A → List A → Type 0
  Member a xs = (i : ℕ) × (get_elem? xs i ≡ some a)

  Member-cons : (a x : A) (xs : List A) → Member a (x ∷ xs) → (x ≡ a) ⊎ Member a xs
  Member-cons a x xs (zero, e) = inl (cc)
  Member-cons a x xs (suc i, e) = inr (i, e)

  -- A list that keeps `x` or does not, by a test.
  pub Member-if :
      (a x : A) (test : Bool) (xs ys : List A) {P : Type 0}
      → (Member a ys ↔ (Member a xs × P))
      → (test ≡ true → x ≡ a → ¬ P)
      → (test ≡ false → x ≡ a → P)
      → Member a (if test then ys else x ∷ ys) ↔ (Member a (x ∷ xs) × P)
  Member-if a x true xs ys tail gone kept = (
    (λ m. let ((i, e), p) = tail.0 m in ((suc i, e), p)),
    λ (m, p). elim (Member-cons a x xs m) [
      | inl e ↦ absurd (gone refl e p)
      | inr m' ↦ tail.1 (m', p)
    ],
  )
  Member-if a x false xs ys tail gone kept = (
    (λ m. elim (Member-cons a x ys m) [
      | inl e ↦ ((zero, ap some e), kept refl e)
      | inr m' ↦ let ((i, e), p) = tail.0 m' in ((suc i, e), p)
    ]),
    λ (m, p). elim (Member-cons a x xs m) [
      | inl e ↦ (zero, ap some e)
      | inr m' ↦ let (i, e) = tail.1 (m', p) in (suc i, e)
    ],
  )

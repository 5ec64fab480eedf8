-- ===== src/Prelude/Maps.antt =====
-- `std::unordered_map` as an association list, over keys with a decidable equality.
use Prim.Native.Nat.{ℕ, suc, ◌≤◌}
use Prim.Native.String.{String}
use mathlib.Core.Path.{◌≡◌, refl, ap}
use mathlib.Core.Logic.{◌≢◌, ◌↔◌, ◌⊎◌, inl, inr}
use mathlib.Core.Bool.{Bool, true, false}
use mathlib.Core.List.{List, [], ◌∷◌}
use mathlib.Core.Option.{Option, none, some}
use native.Mathlib.Omega.{arith}
use text.Mathlib.Text.{◌==◌ as str_eq}
use text.Mathlib.TextEquality.{eq_iff}
use cloud_fly_prlatform.Prelude.Tests.{◌==◌, ==_iff, if◌then◌else◌, Bool-cases}
use cloud_fly_prlatform.Prelude.Lists.{length}

pub record Eq {ℓ} (K : Type ℓ) : Type ℓ where
  pub beq : K → K → Bool
  pub beq_iff : (a b : K) → (beq a b ≡ true) ↔ (a ≡ b)

instance abbrev pub nat_eq : Eq ℕ
nat_eq = record { beq = ◌==◌; beq_iff = ==_iff }

instance abbrev pub string_eq : Eq String
string_eq = record { beq = str_eq; beq_iff = eq_iff }

abbrev pub Map {ℓ κ} : Type ℓ → Type κ → Type (ℓ ⊔ κ)
Map K V = List (K × V)

module _ {ℓ} {K : Type ℓ} ⦃eq : Eq K⦄ where
  pub beq_refl : (k : K) → eq.beq k k ≡ true
  beq_refl k = (eq.beq_iff k k).1 refl

  pub beq_ne : (j k : K) → j ≢ k → eq.beq j k ≡ false
  beq_ne j k h = elim (Bool-cases (eq.beq j k)) [
    | inl e ↦ absurd (h ((eq.beq_iff j k).0 e))
    | inr e ↦ e
  ]

  pub key-cases : (j k : K) → (j ≡ k) ⊎ (j ≢ k)
  key-cases j k = elim (Bool-cases (eq.beq j k)) [
    | inl e ↦ inl ((eq.beq_iff j k).0 e)
    | inr e ↦ inr (λ same. let on = (eq.beq_iff j k).1 same in cc)
  ]

module _ {ℓ κ} {K : Type ℓ} ⦃eq : Eq K⦄ {V : Type κ} where
  abbrev pub find : K → Map K V → Option V
  find k [] = none
  find k ((j, v) ∷ m) = if eq.beq k j then some v else find k m

  -- `m[k] = v`: the entry of a known key is overwritten, a new key is added.
  abbrev pub insert : K → V → Map K V → Map K V
  insert k v [] = (k, v) ∷ []
  insert k v ((j, w) ∷ m) =
      let rest = insert k v m in if eq.beq k j then (j, v) ∷ m else (j, w) ∷ rest

  abbrev pub erase : K → Map K V → Map K V
  erase k [] = []
  erase k ((j, w) ∷ m) = let rest = erase k m in if eq.beq k j then rest else (j, w) ∷ rest

  pub find-insert_self : (k : K) (v : V) (m : Map K V) → find k (insert k v m) ≡ some v
  find-insert_self k v [] = ground (arith, beq_refl k)
  find-insert_self k v ((j, w) ∷ m) = ground (arith, find-insert_self k v m)

  pub find-insert_ne : (j k : K) (v : V) (m : Map K V) → j ≢ k → find j (insert k v m) ≡ find j m
  find-insert_ne j k v [] h = ground (arith, beq_ne j k h)
  find-insert_ne j k v ((i, w) ∷ m) h = elim (Bool-cases (eq.beq k i)) [
    | inl e ↦
        ground (arith, e, (eq.beq_iff k i).0 e, beq_ne j k h, ap (eq.beq j) ((eq.beq_iff k i).0 e))
    | inr e ↦ ground (arith, e, find-insert_ne j k v m h)
  ]

  pub find-erase_self : (k : K) (m : Map K V) → find k (erase k m) ≡ none
  find-erase_self k [] = refl
  find-erase_self k ((j, w) ∷ m) = ground (arith, find-erase_self k m)

  pub find-erase_ne : (j k : K) (m : Map K V) → j ≢ k → find j (erase k m) ≡ find j m
  find-erase_ne j k [] h = refl
  find-erase_ne j k ((i, w) ∷ m) h = elim (Bool-cases (eq.beq k i)) [
    | inl e ↦
        ground (arith, e, find-erase_ne j k m h, beq_ne j k h, ap (eq.beq j) ((eq.beq_iff k i).0 e))
    | inr e ↦ ground (arith, e, find-erase_ne j k m h)
  ]

  pub length-insert_new :
      (k : K) (v : V) (m : Map K V) → find k m ≡ none → length (insert k v m) ≡ suc (length m)
  length-insert_new k v [] h = refl
  length-insert_new k v ((j, w) ∷ m) h = ground (arith, length-insert_new k v m)

  pub length-insert_old :
      (k : K) (v w : V) (m : Map K V) → find k m ≡ some w → length (insert k v m) ≡ length m
  length-insert_old k v w [] h = absurd (ground arith)
  length-insert_old k v w ((j, u) ∷ m) h = ground (arith, length-insert_old k v w m)

  pub length-erase : (k : K) (m : Map K V) → length (erase k m) ≤ length m
  length-erase k [] = omega arith
  length-erase k ((j, w) ∷ m) = ground (arith, length-erase k m)

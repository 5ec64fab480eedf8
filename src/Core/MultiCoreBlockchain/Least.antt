-- ===== src/Core/MultiCoreBlockchain/Least.antt =====
-- The core that `MultiCoreBlockchain::find_least_loaded_core` (src/core/blockchain/MultiCoreBlockchain.cpp) finds.
use cloud_fly_prlatform.Prelude.{
  ℕ, zero, suc, ◌+◌, ◌-◌, ◌^◌, ◌≤◌, ◌<◌, ◌≡◌, ◌⊎◌, inl, inr, refl, ap, ◌∙◌, true, false, [], ◌∷◌,
  Option, some, none, arith, ltb, get_elem?, Bool-cases, ltb→lt,
}
use cloud_fly_prlatform.Core.MultiCoreBlockchain.{
  Queue, Core, Cores, load, least, find_least_loaded_core,
}

module _ {Transaction Block : Type 0} (T : Queue Transaction) (B : Queue Block) where
  -- `m` is below no load of a running core.
  unfoldable pub NoneBelow : ℕ → Cores T B → Type 0
  NoneBelow m [] = Unit {0}
  NoneBelow m (c ∷ cores) = ((c.running ≡ true → m ≤ load T B c)) × NoneBelow m cores

  NoneBelow-le : (m n : ℕ) (cores : Cores T B) → m ≤ n → NoneBelow n cores → NoneBelow m cores
  unfolding NoneBelow
  NoneBelow-le m n [] h p = tt
  NoneBelow-le m n (c ∷ cores) h (p, q) = ((λ r. omega (arith, p r)), NoneBelow-le m n cores h q)

  -- Either no running core is below the bound, and the target stays, or the result is a running core with the
  -- smallest load.
  least-cases :
      (cores : Cores T B) (i min_load : ℕ) (target : Option ℕ)
      → (NoneBelow min_load cores × (least T B cores i min_load target ≡ target))
        ⊎ ((k : ℕ) × (c : Core T B) × (least T B cores i min_load target ≡ some (i + k))
            × (get_elem? cores k ≡ some c)
            × (c.running ≡ true)
            × (load T B c < min_load)
            × NoneBelow (load T B c) cores)
  unfolding least NoneBelow
  least-cases [] i m target = inl (tt, refl)
  least-cases (c ∷ cores) i m target = elim (Bool-cases c.running) [
    | inr off ↦ elim (least-cases cores (suc i) m target) [
      | inl (p, e) ↦ inl (((λ r. absurd (ground (arith, r, off))), p), ground (arith, off, e))
      | inr (k, d, e, at, run, lt, p) ↦ inr (
        suc k,
        d,
        (let moved : some (suc i + k) ≡ some (i + suc k) = ap some (omega arith) in
            rw off (e ∙ moved)),
        at,
        run,
        lt,
        ((λ r. absurd (ground (arith, r, off))), p),
      )
    ]
    | inl on ↦ elim (Bool-cases (ltb (load T B c) m)) [
      | inr ge ↦ elim (least-cases cores (suc i) m target) [
        | inl (p, e) ↦ inl (((λ r. ground (arith, ge)), p), ground (arith, on, ge, e))
        | inr (k, d, e, at, run, lt, p) ↦ inr (
          suc k,
          d,
          (let moved : some (suc i + k) ≡ some (i + suc k) = ap some (omega arith) in
              ground (arith, on, ge, e ∙ moved)),
          at,
          run,
          lt,
          ((λ r. ground (arith, ge, lt)), p),
        )
      ]
      | inl lt ↦ elim (least-cases cores (suc i) (load T B c) (some i)) [
        | inl (p, e) ↦ inr (
          zero,
          c,
          (let start : some i ≡ some (i + 0) = ap some (omega arith) in
              ground (arith, on, lt, e ∙ start)),
          refl,
          on,
          ltb→lt (load T B c) m lt,
          ((λ r. omega arith), p),
        )
        | inr (k, d, e, at, run, less, p) ↦ inr (
          suc k,
          d,
          (let moved : some (suc i + k) ≡ some (i + suc k) = ap some (omega arith) in
              ground (arith, on, lt, e ∙ moved)),
          at,
          run,
          omega (arith, ltb→lt (load T B c) m lt),
          ((λ r. omega arith), p),
        )
      ]
    ]
  ]

  unfoldable pub Bounded : Cores T B → Type 0
  Bounded [] = Unit {0}
  Bounded (c ∷ cores) = (load T B c < 2 ^ 64 - 1) × Bounded cores

  -- No core of the list runs.
  unfoldable pub NoneRuns : Cores T B → Type 0
  NoneRuns [] = Unit {0}
  NoneRuns (c ∷ cores) = (c.running ≡ false) × NoneRuns cores

  NoneBelow-NoneRuns :
      (cores : Cores T B) → Bounded cores → NoneBelow (2 ^ 64 - 1) cores → NoneRuns cores
  unfolding Bounded NoneBelow NoneRuns
  NoneBelow-NoneRuns [] b p = tt
  NoneBelow-NoneRuns (c ∷ cores) (lt, b) (p, q) = elim (Bool-cases c.running) [
    | inr off ↦ (off, NoneBelow-NoneRuns cores b q)
    | inl on ↦ let ge = p on in absurd (omega arith)
  ]

  -- The search over cores with fewer than 2^64 - 1 queued items finds nothing when no core runs; otherwise it
  -- finds a running core, and no running core has less in its queues.
  pub find_least_loaded_core-cases :
      (cores : Cores T B)
      → Bounded cores
      → ((find_least_loaded_core T B cores ≡ none) × NoneRuns cores)
        ⊎ ((k : ℕ) × (c : Core T B) × (find_least_loaded_core T B cores ≡ some k)
            × (get_elem? cores k ≡ some c)
            × (c.running ≡ true)
            × NoneBelow (load T B c) cores)
  unfolding find_least_loaded_core
  find_least_loaded_core-cases cores b = elim (least-cases cores 0 (2 ^ 64 - 1) none) [
    | inl (p, e) ↦ inl (e, NoneBelow-NoneRuns cores b p)
    | inr (k, c, e, at, run, lt, p) ↦
        inr (
          k,
          c,
          (let start : some (0 + k) ≡ some k = ap some (omega arith) in e ∙ start),
          at,
          run,
          p,
        )
  ]

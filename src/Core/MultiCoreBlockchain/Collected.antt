-- ===== src/Core/MultiCoreBlockchain/Collected.antt =====
-- What the first half of `MultiCoreBlockchain::redistribute_work` (src/core/blockchain/MultiCoreBlockchain.cpp)
-- takes out of the queues of the cores that do not run.
use cloud_fly_prlatform.Prelude.{
  ℕ, ◌+◌, ◌≡◌, inl, inr, refl, sym, ap, ◌∙◌, Bool, true, false, List, [], ◌∷◌, ◌++◌, arith,
  if◌then◌else◌, length, Bool-cases,
}
use cloud_fly_prlatform.Core.MultiCoreBlockchain.{Queue, Core, Cores, load, collect}
use cloud_fly_prlatform.Core.MultiCoreBlockchain.Work.{
  sum_of, count, sum_of-append, sum_of-zero, weigh, txs_that, blocks_that, stranded, some_runs,
}

module _ {Transaction Block : Type 0} (T : Queue Transaction) (B : Queue Block) where
  unfoldable pub drained : Core T B → Core T B
  drained c = record c {
    tx_queue = (T.drain c.tx_queue).1;
    block_queue = (B.drain c.block_queue).1;
  }

  collect-on :
      (c : Core T B) (cores : Cores T B)
      → c.running ≡ true
      → collect T B (c ∷ cores)
        ≡ ((collect T B cores).0, (collect T B cores).1, c ∷ (collect T B cores).2)
  unfolding collect
  collect-on c cores on = ground (arith, on)

  collect-off :
      (c : Core T B) (cores : Cores T B)
      → c.running ≡ false
      → collect T B (c ∷ cores) ≡ (
        (T.drain c.tx_queue).0 ++ (collect T B cores).0,
        (B.drain c.block_queue).0 ++ (collect T B cores).1,
        drained c ∷ (collect T B cores).2,
      )
  unfolding collect drained
  collect-off c cores off = ground (arith, off)

  unfoldable pub after_collect :
      (Core T B → ℕ)
      → (Transaction → ℕ)
      → (Block → ℕ)
      → List Transaction × List Block × Cores T B
      → ℕ
  unfolding weigh sum_of
  after_collect m d e x = weigh T B m x.2 + sum_of d x.0 + sum_of e x.1

  -- What `drain` gives is what is missing afterwards, for every measure of the two queues.
  pub collect-weigh :
      (m : Core T B → ℕ) (d : Transaction → ℕ) (e : Block → ℕ) (cores : Cores T B)
      → ((c : Core T B)
          → c.running ≡ false
          → m c
            ≡ m (drained c) + sum_of d (T.drain c.tx_queue).0 + sum_of e (B.drain c.block_queue).0)
      → weigh T B m cores ≡ after_collect m d e (collect T B cores)
  unfolding weigh sum_of after_collect collect
  collect-weigh m d e [] gives = omega arith
  collect-weigh m d e (c ∷ cores) gives = elim (Bool-cases c.running) [
    | inl on ↦
        omega (arith, collect-weigh m d e cores gives)
        ∙ sym (ap (after_collect m d e) (collect-on c cores on))
    | inr off ↦
        omega (
          arith,
          gives c off,
          collect-weigh m d e cores gives,
          sum_of-append d (T.drain c.tx_queue).0 (collect T B cores).0,
          sum_of-append e (B.drain c.block_queue).0 (collect T B cores).1,
        )
        ∙ sym (ap (after_collect m d e) (collect-off c cores off))
  ]

  pub some_runs-collect :
      (cores : Cores T B) → some_runs T B (collect T B cores).2 ≡ some_runs T B cores
  unfolding some_runs collect
  some_runs-collect [] = refl
  some_runs-collect (c ∷ cores) = ground (arith, some_runs-collect cores)

  pub sum_of-one : {A : Type 0} (xs : List A) → sum_of (λ x. 1) xs ≡ length xs
  unfolding sum_of
  sum_of-one [] = refl
  sum_of-one (x ∷ xs) = omega (arith, sum_of-one xs)

  pub txs_that-drained :
      (p : Transaction → Bool) (c : Core T B)
      → txs_that T B p c
        ≡ txs_that T B p (drained c)
          + sum_of (λ x. if p x then 1 else 0) (T.drain c.tx_queue).0
          + sum_of (λ x. 0) (B.drain c.block_queue).0
  unfolding txs_that drained count sum_of
  txs_that-drained p c =
      rw (T.drain-empties c.tx_queue, T.drain-all c.tx_queue)
        (omega (arith, sum_of-zero (B.drain c.block_queue).0))

  pub blocks_that-drained :
      (p : Block → Bool) (c : Core T B)
      → blocks_that T B p c
        ≡ blocks_that T B p (drained c)
          + sum_of (λ x. 0) (T.drain c.tx_queue).0
          + sum_of (λ x. if p x then 1 else 0) (B.drain c.block_queue).0
  unfolding blocks_that drained count sum_of
  blocks_that-drained p c =
      rw (B.drain-empties c.block_queue, B.drain-all c.block_queue)
        (omega (arith, sum_of-zero (T.drain c.tx_queue).0))

  pub load-drained_zero : (c : Core T B) → load T B (drained c) ≡ 0
  unfolding load drained
  load-drained_zero c = omega (
    arith,
    T.size-length (T.drain c.tx_queue).1,
    B.size-length (B.drain c.block_queue).1,
    ap length (T.drain-empties c.tx_queue),
    ap length (B.drain-empties c.block_queue),
  )

  pub load-drained :
      (c : Core T B)
      → load T B c
        ≡ load T B (drained c)
          + sum_of (λ x. 1) (T.drain c.tx_queue).0
          + sum_of (λ x. 1) (B.drain c.block_queue).0
  unfolding load
  load-drained c = omega (
    arith,
    load-drained_zero c,
    sum_of-one (T.drain c.tx_queue).0,
    sum_of-one (B.drain c.block_queue).0,
    ap length (T.drain-all c.tx_queue),
    ap length (B.drain-all c.block_queue),
    T.size-length c.tx_queue,
    B.size-length c.block_queue,
  )

  pub stranded_on : (c : Core T B) → c.running ≡ true → stranded T B c ≡ 0
  unfolding stranded
  stranded_on c on = ground (arith, on)

  stranded-drained : (c : Core T B) → stranded T B (drained c) ≡ 0
  unfolding stranded
  stranded-drained c = ground (arith, load-drained_zero c)

  pub stranded-collect : (cores : Cores T B) → weigh T B (stranded T B) (collect T B cores).2 ≡ 0
  unfolding weigh stranded collect
  stranded-collect [] = refl
  stranded-collect (c ∷ cores) = elim (Bool-cases c.running) [
    | inl on ↦
        ap (λ x. weigh T B (stranded T B) x.2) (collect-on c cores on)
        ∙ omega (arith, stranded-collect cores, stranded_on c on)
    | inr off ↦
        ap (λ x. weigh T B (stranded T B) x.2) (collect-off c cores off)
        ∙ omega (arith, stranded-collect cores, stranded-drained c)
  ]

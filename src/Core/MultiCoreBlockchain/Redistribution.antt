-- ===== src/Core/MultiCoreBlockchain/Redistribution.antt =====
-- What `MultiCoreBlockchain::redistribute_work` (src/core/blockchain/MultiCoreBlockchain.cpp) keeps, and when it
-- keeps nothing.
use cloud_fly_prlatform.Prelude.{
  ℕ, zero, suc, ◌+◌, ◌-◌, ◌^◌, ◌<◌, ◌≡◌, inl, inr, refl, sym, ap, ◌∙◌, Bool, true, false, List, [],
  ◌∷◌, some, none, arith, if◌then◌else◌, get_elem?, Bool-cases,
}
use mathlib.Core.Option.{some-injective}
use cloud_fly_prlatform.Core.MultiCoreBlockchain.{
  Queue, Core, Cores, load, collect, change, push_tx, push_block, give, give_all, redistribute_work,
}
use cloud_fly_prlatform.Core.MultiCoreBlockchain.Work.{
  sum_of, count, weigh, txs_that, blocks_that, stranded, some_runs, Bounded-of_weigh,
  give_all-weigh, one_more_tx, one_more_block, sum_of-zero, sum_of-append,
}
use cloud_fly_prlatform.Core.MultiCoreBlockchain.Collected.{
  after_collect, collect-weigh, some_runs-collect, sum_of-one, txs_that-drained,
  blocks_that-drained, load-drained, stranded-collect,
}
use cloud_fly_prlatform.Core.MultiCoreBlockchain.Least.{find_least_loaded_core-cases}

module _ {Transaction Block : Type 0} (T : Queue Transaction) (B : Queue Block) where
  -- A measure to which a transaction adds `d` and a block `e`, wherever they go.
  redistribute-weigh :
      (m : Core T B → ℕ) (d : Transaction → ℕ) (e : Block → ℕ) (cores : Cores T B)
      → ((tx : Transaction) (c : Core T B) → c.running ≡ true → m (push_tx T B tx c) ≡ m c + d tx)
      → ((b : Block) (c : Core T B) → c.running ≡ true → m (push_block T B b c) ≡ m c + e b)
      → some_runs T B cores ≡ true
      → weigh T B (load T B) cores < 2 ^ 64 - 1
      → weigh T B m (redistribute_work T B cores) ≡ after_collect T B m d e (collect T B cores)
  unfolding redistribute_work after_collect push_tx push_block
  redistribute-weigh m d e cores adds_tx adds_block run h =
      let txs = (collect T B cores).0 in
      let blocks = (collect T B cores).1 in
      let left = (collect T B cores).2 in
      let run1 : some_runs T B left ≡ true = some_runs-collect T B cores ∙ run in
      let all =
        collect-weigh T B (load T B) (λ x. 1) (λ x. 1) cores (λ c off. load-drained T B c) in
      let len_t = sum_of-one T B txs in
      let len_b = sum_of-one T B blocks in
      let (l1, r1) =
        give_all-weigh T B (push_tx T B) (λ a c. refl) (one_more_tx T B) (load T B) (λ x. 1) txs
          left (λ a c on. one_more_tx T B a c) run1 (omega arith) in
      let (w1, r2) =
        give_all-weigh T B (push_tx T B) (λ a c. refl) (one_more_tx T B) m d txs left adds_tx run1
          (omega arith) in
      let (w2, r3) =
        give_all-weigh T B (push_block T B) (λ a c. refl) (one_more_block T B) m e blocks
          (give_all T B (push_tx T B) txs left) adds_block r1 (omega arith) in
      omega (arith, w1, w2)

  adds_tx_tx :
      (p : Transaction → Bool) (tx : Transaction) (c : Core T B)
      → txs_that T B p (push_tx T B tx c) ≡ txs_that T B p c + (if p tx then 1 else 0)
  unfolding txs_that push_tx count sum_of
  adds_tx_tx p tx c =
      ap (sum_of (λ x. if p x then 1 else 0)) (T.contents-push tx c.tx_queue)
      ∙ sum_of-append (λ x. if p x then 1 else 0) (T.contents c.tx_queue) (tx ∷ [])
      ∙ omega arith

  adds_block_block :
      (p : Block → Bool) (b : Block) (c : Core T B)
      → blocks_that T B p (push_block T B b c) ≡ blocks_that T B p c + (if p b then 1 else 0)
  unfolding blocks_that push_block count sum_of
  adds_block_block p b c =
      ap (sum_of (λ x. if p x then 1 else 0)) (B.contents-push b c.block_queue)
      ∙ sum_of-append (λ x. if p x then 1 else 0) (B.contents c.block_queue) (b ∷ [])
      ∙ omega arith

  other_block :
      (p : Transaction → Bool) (b : Block) (c : Core T B)
      → txs_that T B p (push_block T B b c) ≡ txs_that T B p c + 0
  unfolding txs_that push_block
  other_block p b c = omega arith

  other_tx :
      (p : Block → Bool) (tx : Transaction) (c : Core T B)
      → blocks_that T B p (push_tx T B tx c) ≡ blocks_that T B p c + 0
  unfolding blocks_that push_tx
  other_tx p tx c = omega arith

  stranded_tx :
      (tx : Transaction) (c : Core T B)
      → c.running ≡ true
      → stranded T B (push_tx T B tx c) ≡ stranded T B c + 0
  unfolding stranded push_tx
  stranded_tx tx c on = ground (arith, on)

  stranded_block :
      (b : Block) (c : Core T B)
      → c.running ≡ true
      → stranded T B (push_block T B b c) ≡ stranded T B c + 0
  unfolding stranded push_block
  stranded_block b c on = ground (arith, on)

  -- With a core that runs, and fewer than 2^64 - 1 items in the queues, the redistribution keeps every
  -- transaction and every block (as many pass any test as before), and leaves none at a core that does not run.
  pub redistribute_work-conserves :
      (p : Transaction → Bool) (q : Block → Bool) (cores : Cores T B)
      → some_runs T B cores ≡ true
      → weigh T B (load T B) cores < 2 ^ 64 - 1
      → (weigh T B (txs_that T B p) (redistribute_work T B cores)
          ≡ weigh T B (txs_that T B p) cores)
        × (weigh T B (blocks_that T B q) (redistribute_work T B cores)
            ≡ weigh T B (blocks_that T B q) cores)
        × (weigh T B (stranded T B) (redistribute_work T B cores) ≡ 0)
  unfolding after_collect
  redistribute_work-conserves p q cores run h = (
    redistribute-weigh (txs_that T B p) (λ x. if p x then 1 else 0) (λ x. 0) cores
          (λ tx c on. adds_tx_tx p tx c) (λ b c on. other_block p b c) run h
        ∙ sym (
            collect-weigh T B (txs_that T B p) (λ x. if p x then 1 else 0) (λ x. 0) cores
              (λ c off. txs_that-drained T B p c)),
    redistribute-weigh (blocks_that T B q) (λ x. 0) (λ x. if q x then 1 else 0) cores
          (λ tx c on. other_tx q tx c) (λ b c on. adds_block_block q b c) run h
        ∙ sym (
            collect-weigh T B (blocks_that T B q) (λ x. 0) (λ x. if q x then 1 else 0) cores
              (λ c off. blocks_that-drained T B q c)),
    redistribute-weigh (stranded T B) (λ x. 0) (λ x. 0) cores (λ tx c on. stranded_tx tx c on)
          (λ b c on. stranded_block b c on) run h
        ∙ omega (
          arith,
          stranded-collect T B cores,
          sum_of-zero (collect T B cores).0,
          sum_of-zero (collect T B cores).1,
        ),
  )

  runs_at :
      (k : ℕ) (c : Core T B) (cores : Cores T B)
      → get_elem? cores k ≡ some c
      → c.running ≡ true
      → some_runs T B cores ≡ true
  unfolding some_runs
  runs_at k c [] at on = absurd (ground (arith, at))
  runs_at zero c (x ∷ cores) at on =
      let e : x.running ≡ true = ap (λ (y : Core T B). y.running) (some-injective x c at) ∙ on in
      ground (arith, e)
  runs_at (suc k) c (x ∷ cores) at on = ground (arith, runs_at k c cores at on)

  give_all-none :
      {A : Type 0} (push : A → Core T B → Core T B) (items : List A) (cores : Cores T B)
      → some_runs T B cores ≡ false
      → weigh T B (load T B) cores < 2 ^ 64 - 1
      → give_all T B push items cores ≡ cores
  unfolding give_all give
  give_all-none push [] cores off h = refl
  give_all-none push (a ∷ items) cores off h =
      elim (find_least_loaded_core-cases T B cores (Bounded-of_weigh T B cores h)) [
        | inl (e, none_runs) ↦
            ap
              (λ o.
                give_all T B push items
                  (elim o [ none ↦ cores | some j ↦ change T B (push a) j cores ]))
              e
            ∙ give_all-none push items cores off h
        | inr (k, c, e, at, on, least) ↦
            let run = runs_at k c cores at on in absurd (ground (arith, run, off))
      ]

  stranded-all :
      (cores : Cores T B)
      → some_runs T B cores ≡ false
      → weigh T B (stranded T B) cores ≡ weigh T B (load T B) cores
  unfolding some_runs weigh stranded
  stranded-all [] off = refl
  stranded-all (c ∷ cores) off = elim (Bool-cases c.running) [
    | inl on ↦ absurd (ground (arith, on, off))
    | inr here ↦
        let rest : some_runs T B cores ≡ false = ground (arith, here, off) in
        let zero_at : (if c.running then 0 else load T B c) ≡ load T B c = ground (arith, here) in
        omega (arith, stranded-all cores rest, zero_at)
  ]

  -- With no core that runs, and fewer than 2^64 - 1 items in the queues, the redistribution loses every
  -- transaction and every block: the queues are empty afterwards.
  pub redistribute_work-loses :
      (cores : Cores T B)
      → some_runs T B cores ≡ false
      → weigh T B (load T B) cores < 2 ^ 64 - 1
      → weigh T B (load T B) (redistribute_work T B cores) ≡ 0
  unfolding redistribute_work
  redistribute_work-loses cores off h =
      let left = (collect T B cores).2 in
      let txs = (collect T B cores).0 in
      let blocks = (collect T B cores).1 in
      let off' : some_runs T B left ≡ false = some_runs-collect T B cores ∙ off in
      let empty : weigh T B (load T B) left ≡ 0 =
        sym (stranded-all left off') ∙ stranded-collect T B cores in
      let e1 = give_all-none (push_tx T B) txs left off' (omega arith) in
      let e2 = give_all-none (push_block T B) blocks left off' (omega arith) in
      ap (λ cs. weigh T B (load T B) (give_all T B (push_block T B) blocks cs)) e1
      ∙ ap (weigh T B (load T B)) e2
      ∙ empty

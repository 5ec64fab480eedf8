-- ===== src/Core/MultiCoreBlockchain/Work.antt =====
-- What `MultiCoreBlockchain::redistribute_work` (src/core/blockchain/MultiCoreBlockchain.cpp) does with the
-- transactions and the blocks in the queues.
use cloud_fly_prlatform.Prelude.{
  ℕ, zero, suc, ◌+◌, ◌-◌, ◌^◌, ◌<◌, ◌≡◌, inl, inr, refl, sym, ap, subst, ◌∙◌, Bool, true, false,
  ◌||◌, List, [], ◌∷◌, ◌++◌, some, none, arith, if◌then◌else◌, length, length-append, get_elem?,
}
use mathlib.Core.Option.{some-injective}
use cloud_fly_prlatform.Core.MultiCoreBlockchain.{
  Queue, Core, Cores, load, change, push_tx, push_block, give, give_all,
}
use cloud_fly_prlatform.Core.MultiCoreBlockchain.Least.{
  Bounded, NoneRuns, find_least_loaded_core-cases,
}

unfoldable pub sum_of : {A : Type 0} → (A → ℕ) → List A → ℕ
sum_of d [] = 0
sum_of d (x ∷ xs) = d x + sum_of d xs

-- The elements of a list that pass a test.
unfoldable pub count : {A : Type 0} → (A → Bool) → List A → ℕ
unfolding sum_of
count p xs = sum_of (λ x. if p x then 1 else 0) xs

pub sum_of-append :
    {A : Type 0} (d : A → ℕ) (xs ys : List A) → sum_of d (xs ++ ys) ≡ sum_of d xs + sum_of d ys
unfolding sum_of
sum_of-append d [] ys = omega arith
sum_of-append d (x ∷ xs) ys = omega (arith, sum_of-append d xs ys)

pub sum_of-zero : {A : Type 0} (xs : List A) → sum_of (λ x. 0) xs ≡ 0
unfolding sum_of
sum_of-zero [] = refl
sum_of-zero (x ∷ xs) = omega (arith, sum_of-zero xs)

module _ {Transaction Block : Type 0} (T : Queue Transaction) (B : Queue Block) where
  -- A measure of a core, summed over the cores.
  unfoldable pub weigh : (Core T B → ℕ) → Cores T B → ℕ
  weigh m [] = 0
  weigh m (c ∷ cores) = m c + weigh m cores

  -- The queued transactions that pass a test, the blocks that do, and what waits at a core that does not run.
  unfoldable pub txs_that : (Transaction → Bool) → Core T B → ℕ
  unfolding count
  txs_that p c = count p (T.contents c.tx_queue)

  unfoldable pub blocks_that : (Block → Bool) → Core T B → ℕ
  unfolding count
  blocks_that p c = count p (B.contents c.block_queue)

  unfoldable pub stranded : Core T B → ℕ
  stranded c = if c.running then 0 else load T B c

  unfoldable pub some_runs : Cores T B → Bool
  some_runs [] = false
  some_runs (c ∷ cores) = c.running || some_runs cores

  pub Bounded-of_weigh :
      (cores : Cores T B) → weigh (load T B) cores < 2 ^ 64 - 1 → Bounded T B cores
  unfolding weigh Bounded
  Bounded-of_weigh [] h = tt
  Bounded-of_weigh (c ∷ cores) h = (omega arith, Bounded-of_weigh cores (omega arith))

  pub NoneRuns-some_runs : (cores : Cores T B) → NoneRuns T B cores → some_runs cores ≡ false
  unfolding some_runs NoneRuns
  NoneRuns-some_runs [] h = refl
  NoneRuns-some_runs (c ∷ cores) (off, h) = ground (arith, off, NoneRuns-some_runs cores h)

  pub weigh-change :
      (m : Core T B → ℕ) (f : Core T B → Core T B) (k d : ℕ) (c : Core T B) (cores : Cores T B)
      → get_elem? cores k ≡ some c
      → m (f c) ≡ m c + d
      → weigh m (change T B f k cores) ≡ weigh m cores + d
  unfolding weigh change
  weigh-change m f k d c [] at e = absurd (ground (arith, at))
  weigh-change m f zero d c (x ∷ cores) at e =
      let same : x ≡ c = some-injective x c at in
      let e' : m (f x) ≡ m x + d = subst (λ y. m (f y) ≡ m y + d) (sym same) e in omega arith
  weigh-change m f (suc k) d c (x ∷ cores) at e = omega (arith, weigh-change m f k d c cores at e)

  pub some_runs-change :
      (f : Core T B → Core T B) (k : ℕ) (cores : Cores T B)
      → ((c : Core T B) → (f c).running ≡ c.running)
      → some_runs (change T B f k cores) ≡ some_runs cores
  unfolding some_runs change
  some_runs-change f k [] kept = refl
  some_runs-change f zero (x ∷ cores) kept = ap (λ t. t || some_runs cores) (kept x)
  some_runs-change f (suc k) (x ∷ cores) kept =
      ap (λ t. x.running || t) (some_runs-change f k cores kept)

  -- With a core that runs, an item goes to such a core.
  pub give-target :
      (push : Core T B → Core T B) (cores : Cores T B)
      → some_runs cores ≡ true
      → weigh (load T B) cores < 2 ^ 64 - 1
      → (k : ℕ) × (c : Core T B) × (give T B push cores ≡ change T B push k cores)
        × (get_elem? cores k ≡ some c)
        × (c.running ≡ true)
  unfolding give
  give-target push cores run h =
      elim (find_least_loaded_core-cases T B cores (Bounded-of_weigh cores h)) [
        | inl (e, none_runs) ↦
            let off = NoneRuns-some_runs cores none_runs in absurd (ground (arith, run, off))
        | inr (k, c, e, at, on, least) ↦
            (k, c, ap (λ o. elim o [ none ↦ cores | some j ↦ change T B push j cores ]) e, at, on)
      ]

  -- Items that are given one after another, when one adds `d` to a measure of the running core that gets it.
  module _ {A : Type 0} (push : A → Core T B → Core T B)
      (keeps : (a : A) (c : Core T B) → (push a c).running ≡ c.running)
      (one_more : (a : A) (c : Core T B) → load T B (push a c) ≡ load T B c + 1) where
    pub give_all-weigh :
        (m : Core T B → ℕ) (d : A → ℕ) (items : List A) (cores : Cores T B)
        → ((a : A) (c : Core T B) → c.running ≡ true → m (push a c) ≡ m c + d a)
        → some_runs cores ≡ true
        → weigh (load T B) cores + length items < 2 ^ 64 - 1
        → (weigh m (give_all T B push items cores) ≡ weigh m cores + sum_of d items)
          × (some_runs (give_all T B push items cores) ≡ true)
    unfolding give_all sum_of
    give_all-weigh m d [] cores adds run h = (omega arith, run)
    give_all-weigh m d (a ∷ items) cores adds run h =
        let (k, c, e, at, on) = give-target (push a) cores run (omega arith) in
        let next = change T B (push a) k cores in
        let run' : some_runs next ≡ true = some_runs-change (push a) k cores (keeps a) ∙ run in
        let l = weigh-change (load T B) (push a) k 1 c cores at (one_more a c) in
        let w = weigh-change m (push a) k (d a) c cores at (adds a c on) in
        let (r, run'') = give_all-weigh m d items next adds run' (omega arith) in
        (
          ap (λ cs. weigh m (give_all T B push items cs)) e ∙ omega (arith, r, w),
          ap (λ cs. some_runs (give_all T B push items cs)) e ∙ run'',
        )

  pub one_more_tx : (tx : Transaction) (c : Core T B) → load T B (push_tx T B tx c) ≡ load T B c + 1
  unfolding load push_tx
  one_more_tx tx c = omega (
    arith,
    T.size-length (T.push tx c.tx_queue),
    ap length (T.contents-push tx c.tx_queue),
    length-append (T.contents c.tx_queue) (tx ∷ []),
    T.size-length c.tx_queue,
  )

  pub one_more_block : (b : Block) (c : Core T B) → load T B (push_block T B b c) ≡ load T B c + 1
  unfolding load push_block
  one_more_block b c = omega (
    arith,
    B.size-length (B.push b c.block_queue),
    ap length (B.contents-push b c.block_queue),
    length-append (B.contents c.block_queue) (b ∷ []),
    B.size-length c.block_queue,
  )

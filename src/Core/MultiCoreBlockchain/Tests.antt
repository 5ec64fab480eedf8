-- ===== src/Core/MultiCoreBlockchain/Tests.antt =====
-- The redistribution of work between two cores of `MultiCoreBlockchain`, with lists as queues.
use cloud_fly_prlatform.Prelude.{
  ℕ, ◌≡◌, ◌⊎◌, refl, arith, true, false, List, [], ◌∷◌, ◌++◌, some, none, length, get_elem?, leb,
}
use cloud_fly_prlatform.Core.MultiCoreBlockchain.{
  Queue, Core, Cores, load, find_least_loaded_core, redistribute_work,
}
use cloud_fly_prlatform.Core.MultiCoreBlockchain.Least.{
  Bounded, NoneRuns, NoneBelow, find_least_loaded_core-cases,
}
use cloud_fly_prlatform.Core.MultiCoreBlockchain.Work.{
  weigh, txs_that, blocks_that, stranded, some_runs,
}
use cloud_fly_prlatform.Core.MultiCoreBlockchain.Redistribution.{
  redistribute_work-conserves, redistribute_work-loses,
}

abbrev lists : Queue ℕ
lists = record {
  Q = List ℕ;
  push = λ a q. q ++ (a ∷ []);
  size = length;
  drain = λ q. (q, []);
  pop = λ q. elim q [ [] ↦ none | a ∷ rest ↦ some (a, rest) ];
  contents = λ q. q;
  contents-push = λ a q. refl;
  size-length = λ q. refl;
  pop-none = λ q e. rw e refl;
  pop-some = λ q a rest e. (rest, rw e refl, refl);
  drain-all = λ q. refl;
  drain-empties = λ q. refl;
}

abbrev two_cores : Cores lists lists
two_cores =
    record { running = false; paused = false; tx_queue = 1 ∷ 2 ∷ []; block_queue = 7 ∷ [] }
    ∷ record { running = true; paused = false; tx_queue = 3 ∷ []; block_queue = [] }
    ∷ []

abbrev stopped_core : Cores lists lists
stopped_core =
    record { running = false; paused = false; tx_queue = 1 ∷ 2 ∷ []; block_queue = 7 ∷ [] } ∷ []

redistribute_work_runs :
    redistribute_work lists lists two_cores
    ≡ record { running = false; paused = false; tx_queue = []; block_queue = [] }
      ∷ record { running = true; paused = false; tx_queue = 3 ∷ 1 ∷ 2 ∷ []; block_queue = 7 ∷ [] }
      ∷ []
unfolding redistribute_work
redistribute_work_runs = refl

find_least_loaded_core-cases_runs :
    ((find_least_loaded_core lists lists two_cores ≡ none) × NoneRuns lists lists two_cores)
    ⊎ ((k : ℕ) × (c : Core lists lists) × (find_least_loaded_core lists lists two_cores ≡ some k)
        × (get_elem? two_cores k ≡ some c)
        × (c.running ≡ true)
        × NoneBelow lists lists (load lists lists c) two_cores)
unfolding Bounded load
find_least_loaded_core-cases_runs =
    find_least_loaded_core-cases lists lists two_cores (omega arith, (omega arith, tt))

redistribute_work-conserves_example :
    (weigh lists lists (txs_that lists lists (leb 2)) (redistribute_work lists lists two_cores)
      ≡ weigh lists lists (txs_that lists lists (leb 2)) two_cores)
    × (weigh lists lists (blocks_that lists lists (leb 2)) (redistribute_work lists lists two_cores)
        ≡ weigh lists lists (blocks_that lists lists (leb 2)) two_cores)
    × (weigh lists lists (stranded lists lists) (redistribute_work lists lists two_cores) ≡ 0)
unfolding some_runs weigh load
redistribute_work-conserves_example =
    redistribute_work-conserves lists lists (leb 2) (leb 2) two_cores refl (omega arith)

redistribute_work-loses_runs :
    weigh lists lists (load lists lists) (redistribute_work lists lists stopped_core) ≡ 0
unfolding some_runs weigh load
redistribute_work-loses_runs = redistribute_work-loses lists lists stopped_core refl (omega arith)

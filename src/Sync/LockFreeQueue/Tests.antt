-- ===== src/Sync/LockFreeQueue/Tests.antt =====
-- A run of two threads on a `LockFreeQueue` (src/sync/lockfree_structures.cpp).
use cloud_fly_prlatform.Prelude.{ℕ, ◌≡◌, refl, List, [], ◌∷◌, false, inr, arith}
use cloud_fly_prlatform.Sync.LockFreeStack.{update}
use cloud_fly_prlatform.Sync.LockFreeQueue.{
  Label, silent, enqueues, dequeues, finds_empty, answers_empty, after_check, seen, new_node,
  load_tail, load_next, check_tail, append, swing_fails, call_dequeue, load_head, load_tail_again,
  load_head_next, answer_empty, lags, catch_up, has_next, read_value, take, delete,
}
use cloud_fly_prlatform.Sync.LockFreeQueue.Steps.{values}
use cloud_fly_prlatform.Sync.LockFreeQueue.Runs.{
  State, Sound, Run, done, step, Effects, queue-linearizes, one_node, one_node-Sound,
}

-- Thread 1 finds the queue empty; thread 0 enqueues 7; thread 1 answers, moves the tail on, and dequeues the 7.
abbrev labels : List (ℕ × Label ℕ)
labels =
    (1, silent)
    ∷ (1, silent)
    ∷ (1, silent)
    ∷ (1, finds_empty)
    ∷ (0, silent)
    ∷ (0, silent)
    ∷ (0, silent)
    ∷ (0, silent)
    ∷ (0, enqueues 7)
    ∷ (1, answers_empty)
    ∷ (1, silent)
    ∷ (1, silent)
    ∷ (1, silent)
    ∷ (1, silent)
    ∷ (1, silent)
    ∷ (1, silent)
    ∷ (1, silent)
    ∷ (1, silent)
    ∷ (1, silent)
    ∷ (1, silent)
    ∷ (1, silent)
    ∷ (1, dequeues 7)
    ∷ (1, silent)
    ∷ (0, silent)
    ∷ []

two_threads : (s : State ℕ) × Run false (one_node 0) labels s × (s.memory.head ≡ 1)
unfolding update seen after_check
two_threads = (
  _,
  step 1 _ _ _ _ _ _ call_dequeue (
      step 1 _ _ _ _ _ _ load_head (
        step 1 _ _ _ _ _ _ load_tail_again (
          step 1 _ _ _ _ _ _ (load_head_next _ refl) (
            step 0 _ _ _ _ _ _ (new_node 7 1 refl (inr (omega arith))) (
              step 0 _ _ _ _ _ _ load_tail (
                step 0 _ _ _ _ _ _ (load_next _ refl) (
                  step 0 _ _ _ _ _ _ (check_tail refl) (
                    step 0 _ _ _ _ _ _ (append 7 _ refl refl refl) (
                      step 1 _ _ _ _ _ _ (answer_empty refl refl) (
                        step 1 _ _ _ _ _ _ call_dequeue (
                          step 1 _ _ _ _ _ _ load_head (
                            step 1 _ _ _ _ _ _ load_tail_again (
                              step 1 _ _ _ _ _ _ (load_head_next _ refl) (
                                step 1 _ _ _ _ _ _ (lags refl refl) (
                                  step 1 _ _ _ _ _ _ (catch_up refl) (
                                    step 1 _ _ _ _ _ _ load_head (
                                      step 1 _ _ _ _ _ _ load_tail_again (
                                        step 1 _ _ _ _ _ _ (load_head_next _ refl) (
                                          step 1 _ _ _ _ _ _ (has_next refl (λ e. omega arith)) (
                                            step 1 _ _ _ _ _ _ (read_value _ refl) (
                                              step 1 _ _ _ _ _ _ (take _ refl refl) (
                                                step 1 _ _ _ _ _ _ delete (
                                                  step 0 _ _ _ _ _ _
                                                    (swing_fails (λ e. omega arith))
                                                    (done _)))))))))))))))))))))))),
  refl,
)

queue-linearizes_example :
    (w' : ℕ) × (nodes' : List (ℕ × ℕ)) × Sound two_threads.0 w' nodes'
    × Effects labels [] (values nodes')
queue-linearizes_example =
    queue-linearizes (one_node 0) two_threads.0 labels 0 [] (one_node-Sound 0) two_threads.1

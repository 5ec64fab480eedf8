-- ===== src/Sync/LockFreeStack/Tests.antt =====
-- Runs of two threads on a `LockFreeStack` (src/sync/lockfree_structures.cpp).
use cloud_fly_prlatform.Prelude.{
  ℕ, ◌≡◌, refl, List, [], ◌∷◌, some, none, true, false, inl, inr, arith,
}
use cloud_fly_prlatform.Sync.LockFreeStack.{
  State, Label, silent, pushes, pops, loaded, push_start, push_publish, pop_load, pop_next,
  pop_take, pop_delete, after_load, load_label, update,
}
use cloud_fly_prlatform.Sync.LockFreeStack.Invariant.{Good}
use cloud_fly_prlatform.Sync.LockFreeStack.Frames.{values}
use cloud_fly_prlatform.Sync.LockFreeStack.Refinement.{
  Run, done, next_step, Effects, run-linearizes, empty, empty-Good,
}

-- Thread 0 pushes 7 and loads the head for a pop; thread 1 pops the 7 and deletes its node, whose `next` thread 0
-- is then about to read.
abbrev labels : List (Label ℕ)
labels = silent ∷ pushes 7 ∷ silent ∷ silent ∷ silent ∷ pops 7 ∷ silent ∷ []

overtaken : (s : State ℕ) × Run false empty labels s × (s.threads 0 ≡ loaded 0) × (s.heap 0 ≡ none)
unfolding update load_label after_load
overtaken = (
  _,
  next_step 0 _ _ _ _ _ (push_start empty 7 0 refl refl (inr (omega arith))) (
      next_step 0 _ _ _ _ _ (push_publish _ 0 7 refl refl) (
        next_step 0 _ _ _ _ _ (pop_load _ refl) (
          next_step 1 _ _ _ _ _ (pop_load _ refl) (
            next_step 1 _ _ _ _ _ (pop_next _ 0 _ refl refl) (
              next_step 1 _ _ _ _ _ (pop_take _ 0 none _ refl refl refl)
                (next_step 1 _ _ _ _ _ (pop_delete _ 0 refl) (done _))))))),
  refl,
  refl,
)

-- Two nodes; thread 0 is about to exchange the upper for the lower; thread 1 pops both, deletes them, and pushes a
-- new node at the address of the upper. The exchange of thread 0 then succeeds.
abbrev reuse_labels : List (Label ℕ)
reuse_labels =
    silent
    ∷ pushes 7
    ∷ silent
    ∷ pushes 8
    ∷ silent
    ∷ silent
    ∷ silent
    ∷ silent
    ∷ pops 8
    ∷ silent
    ∷ silent
    ∷ silent
    ∷ pops 7
    ∷ silent
    ∷ silent
    ∷ pushes 9
    ∷ pops 9
    ∷ []

-- Where `new` may give the address of a deleted node, the head is then a deleted node.
reused : (s : State ℕ) × Run true empty reuse_labels s × (s.head ≡ some 0) × (s.heap 0 ≡ none)
unfolding update load_label after_load
reused = (
  _,
  next_step 0 _ _ _ _ _ (push_start empty 7 0 refl refl (inl refl)) (
      next_step 0 _ _ _ _ _ (push_publish _ 0 7 refl refl) (
        next_step 0 _ _ _ _ _ (push_start _ 8 1 refl refl (inl refl)) (
          next_step 0 _ _ _ _ _ (push_publish _ 1 8 refl refl) (
            next_step 0 _ _ _ _ _ (pop_load _ refl) (
              next_step 0 _ _ _ _ _ (pop_next _ 1 _ refl refl) (
                next_step 1 _ _ _ _ _ (pop_load _ refl) (
                  next_step 1 _ _ _ _ _ (pop_next _ 1 _ refl refl) (
                    next_step 1 _ _ _ _ _ (pop_take _ 1 (some 0) _ refl refl refl) (
                      next_step 1 _ _ _ _ _ (pop_delete _ 1 refl) (
                        next_step 1 _ _ _ _ _ (pop_load _ refl) (
                          next_step 1 _ _ _ _ _ (pop_next _ 0 _ refl refl) (
                            next_step 1 _ _ _ _ _ (pop_take _ 0 none _ refl refl refl) (
                              next_step 1 _ _ _ _ _ (pop_delete _ 0 refl) (
                                next_step 1 _ _ _ _ _ (push_start _ 9 1 refl refl (inl refl)) (
                                  next_step 1 _ _ _ _ _ (push_publish _ 1 9 refl refl) (
                                    next_step 0 _ _ _ _ _ (pop_take _ 1 (some 0) _ refl refl refl)
                                      (done _))))))))))))))))),
  refl,
  refl,
)

run-linearizes_example :
    (nodes' : List (ℕ × ℕ)) × Good overtaken.0 nodes' × Effects labels [] (values nodes')
run-linearizes_example = run-linearizes empty overtaken.0 labels [] empty-Good overtaken.1

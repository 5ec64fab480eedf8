-- ===== src/Sync/LockFreeQueue/Runs.antt =====
-- Any threads on a `LockFreeQueue` (src/sync/lockfree_structures.cpp), in any order.
use cloud_fly_prlatform.Prelude.{
  ℕ, ◌≡◌, Bool, false, inl, inr, refl, sym, ap, subst, List, [], ◌∷◌, some, none, arith, ℕ_discrete,
}
use mathlib.Core.Option.{some-injective}
use cloud_fly_prlatform.Sync.LockFreeStack.{Node, shared, update}
use cloud_fly_prlatform.Sync.LockFreeStack.Invariant.{
  update_same, update-other, Chain, Absent, Distinct,
}
use cloud_fly_prlatform.Sync.LockFreeQueue.{Memory, Local, idle, Label, Move}
use cloud_fly_prlatform.Sync.LockFreeQueue.Invariant.{taken, On, Relies, Good}
use cloud_fly_prlatform.Sync.LockFreeQueue.Evolution.{Relies-Evolves}
use cloud_fly_prlatform.Sync.LockFreeQueue.Chains.{update-cases}
use cloud_fly_prlatform.Sync.LockFreeQueue.Steps.{values, Effect, Move-Refines}

pub record State (V : Type 0) : Type 0 where
  pub memory : Memory V
  pub threads : ℕ → Local V

module _ {V : Type 0} where
  -- The nodes are as they should be, and each thread can rely on what it does.
  pub record Sound (s : State V) (w : V) (nodes : List (ℕ × V)) : Type 0 where
    pub good : Good s.memory w nodes
    pub relies : (i : ℕ) → Relies i s.memory (s.threads i)

  -- Steps of any threads in any order, with the thread of each and what it shows.
  pub data Run (reuses : Bool) : State V → List (ℕ × Label V) → State V → Type 0 where
    done : (s : State V) → Run reuses s [] s
    step :
        (i : ℕ) (s u : State V) (m : Memory V) (l : Local V) (label : Label V)
        (labels : List (ℕ × Label V))
        → Move reuses i s.memory (s.threads i) label m l
        → Run reuses (record { memory = m; threads = update i l s.threads }) labels u
        → Run reuses s ((i, label) ∷ labels) u

  -- The effects of one label after another.
  unfoldable pub Effects : List (ℕ × Label V) → List V → List V → Type 0
  unfolding Effect
  Effects [] xs zs = xs ≡ zs
  Effects ((i, l) ∷ ls) xs zs = (ys : List V) × Effect l xs ys × Effects ls ys zs

  move-Sound :
      (i : ℕ) (s : State V) (m : Memory V) (l : Local V) (label : Label V) (w : V)
      (nodes : List (ℕ × V))
      → Sound s w nodes
      → Move false i s.memory (s.threads i) label m l
      → (w' : V) × (nodes' : List (ℕ × V)) × Sound
          (record { memory = m; threads = update i l s.threads })
          w'
          nodes'
        × Effect label (values nodes) (values nodes')
  move-Sound i s m l label w nodes sound move =
      let (w', nodes', g, own, others, effect) =
        Move-Refines i s.memory (s.threads i) label m l w nodes sound.good move (sound.relies i) in
      (
        w',
        nodes',
        record {
          good = g;
          relies = λ j. elim (ℕ_discrete j i) [
            | yes same ↦
                subst (λ k. Relies k m (update i l s.threads k)) (sym same)
                  (subst (Relies i m) (sym (update_same i l s.threads)) own)
            | no ne ↦
                subst (Relies j m) (sym (update-other i l s.threads j ne))
                  (Relies-Evolves (others j ne) (s.threads j) (sound.relies j))
          ];
        },
        effect,
      )

  -- Where `new` gives no address a second time, after any steps of any threads, in any order, up to a read of a
  -- deleted node, on a queue whose nodes are as they should be, the nodes are
  -- so, each thread can rely on what it does, and the values are those that the enqueues and dequeues seen, one
  -- at a time and in that order, leave: an enqueue puts its value last, a dequeue takes the value that it
  -- returns from the front, and one that reads a null `next` does so while the queue is empty.
  pub queue-linearizes :
      (s u : State V) (labels : List (ℕ × Label V)) (w : V) (nodes : List (ℕ × V))
      → Sound s w nodes
      → Run false s labels u
      → (w' : V) × (nodes' : List (ℕ × V)) × Sound u w' nodes'
        × Effects labels (values nodes) (values nodes')
  unfolding Effects
  queue-linearizes s u labels w nodes sound (done t) = (w, nodes, sound, refl)
  queue-linearizes s u labels w nodes sound (step i t t' m l label rest move run) =
      let (w1, nodes1, sound1, e1) = move-Sound i s m l label w nodes sound move in
      let (w2, nodes2, sound2, e2) = queue-linearizes _ t' rest w1 nodes1 sound1 run in
      (w2, nodes2, sound2, (values nodes1, e1, e2))

  -- The state that the threads start from: one node, which holds no value of the queue.
  abbrev pub one_node : V → State V
  one_node w = record {
    memory = record {
      heap = update 0 (some (record { value = w; next = none; status = shared })) (λ a. none);
      head = 0;
      tail = 0;
      next_address = 1;
    };
    threads = λ i. idle;
  }

  pub one_node-Sound : (w : V) → Sound (one_node w) w []
  unfolding Relies taken Chain Distinct Absent On update
  one_node-Sound w = record {
    good = record {
      chain = (refl, none, refl, refl);
      distinct = (tt, tt);
      shared_on = λ a node at is. elim (update-cases 0 _ (λ b. none) a (some node) at) [
        | inl (same, e) ↦ inl (sym same)
        | inr (ne, e) ↦ absurd (ground (arith, e))
      ];
      taken_linked = λ a node at is. elim (update-cases 0 _ (λ b. none) a (some node) at) [
        | inl (same, e) ↦
            let s = ap (λ (x : Node V). taken x.status) (some-injective _ node e) in absurd (cc)
        | inr (ne, e) ↦ absurd (ground (arith, e))
      ];
      tail_on = inl refl;
      unused = λ a le. update-other 0 _ (λ b. none) a (λ e. omega arith);
    };
    relies = λ i. tt;
  }

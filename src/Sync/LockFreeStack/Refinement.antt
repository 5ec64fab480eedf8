-- ===== src/Sync/LockFreeStack/Refinement.antt =====
-- The steps of threads on a `LockFreeStack` (src/sync/lockfree_structures.cpp) are those of a stack of values:
-- each takes effect at its exchange.
use cloud_fly_prlatform.Prelude.{
  ℕ, ◌≡◌, Bool, false, arith, refl, sym, ap, subst, ◌∙◌, List, [], ◌∷◌, none,
}
use mathlib.Core.Option.{some-injective}
use cloud_fly_prlatform.Sync.LockFreeStack.{
  Node, idle, exchanging, State, Label, Step, push_start, push_publish, push_retry, pop_load,
  pop_next, pop_take, pop_retry, pop_delete,
}
use cloud_fly_prlatform.Sync.LockFreeStack.Invariant.{Chain, Distinct, Relies, Good}
use cloud_fly_prlatform.Sync.LockFreeStack.Frames.{values, Effect, Refines, goes-Good}
use cloud_fly_prlatform.Sync.LockFreeStack.Steps.{
  load-Refines, push_start-Good, push_publish-Good, push_retry-Good, pop_take-Good, pop_delete-Good,
}

module _ {V : Type 0} where
  -- Where `new` gives no address a second time, each step of a thread on a stack whose nodes are as they should be leaves the nodes so, and does to their
  -- values what its label says: a push puts its value on top, a pop takes the value that it returns from the
  -- top, a pop that answers `false` finds no value, and every other step changes nothing.
  pub Step-refines :
      (i : ℕ) (s s' : State V) (l : Label V) (nodes : List (ℕ × V))
      → Good s nodes
      → Step false i s l s'
      → (nodes' : List (ℕ × V)) × Good s' nodes' × Effect l (values nodes) (values nodes')
  unfolding Refines Relies Effect
  Step-refines i s s' l nodes g (push_start t v a e free new) =
      (nodes, push_start-Good i s nodes v a g (ground (arith, new)), refl)
  Step-refines i s s' l nodes g (push_publish t a v here at) =
      ((a, v) ∷ nodes, push_publish-Good i s nodes a v g at, refl)
  Step-refines i s s' l nodes g (push_retry t a v n here at) =
      (nodes, push_retry-Good i s nodes a v n g here at, refl)
  Step-refines i s s' l nodes g (pop_load t here) = load-Refines i s nodes s.head g refl
  Step-refines i s s' l nodes g (pop_retry t h n here) = load-Refines i s nodes s.head g refl
  Step-refines i s s' l nodes g (pop_next t h node here at) =
      let (lt, r) = subst (Relies i s.heap s.next_address) here (g.relies i) in
      (
        nodes,
        goes-Good i s nodes (exchanging h node.next) g
            (lt, λ x e. (r x e, ap (λ (y : Node V). y.next) (some-injective x node (sym e ∙ at)))),
        refl,
      )
  Step-refines i s s' l nodes g (pop_take t h n node here top at) =
      pop_take-Good i s h n nodes node g here top at
  Step-refines i s s' l nodes g (pop_delete t h here) =
      (nodes, pop_delete-Good i s nodes h g here, refl)

  -- Steps of any threads in any order, and what they show.
  pub data Run (reuses : Bool) : State V → List (Label V) → State V → Type 0 where
    done : (s : State V) → Run reuses s [] s
    next_step :
        (i : ℕ) (s t u : State V) (l : Label V) (ls : List (Label V))
        → Step reuses i s l t
        → Run reuses t ls u
        → Run reuses s (l ∷ ls) u

  -- The effects of one label after another.
  unfoldable pub Effects : List (Label V) → List V → List V → Type 0
  unfolding Effect
  Effects [] xs zs = xs ≡ zs
  Effects (l ∷ ls) xs zs = (ys : List V) × Effect l xs ys × Effects ls ys zs

  -- Where `new` gives no address a second time, after any steps of any threads, in any order, up to a read of a
  -- deleted node, on a stack whose nodes are as they should be, the nodes are so, and the values are those that the pushes and pops seen, one at a time and in that order, leave.
  pub run-linearizes :
      (s u : State V) (ls : List (Label V)) (nodes : List (ℕ × V))
      → Good s nodes
      → Run false s ls u
      → (nodes' : List (ℕ × V)) × Good u nodes' × Effects ls (values nodes) (values nodes')
  unfolding Effects
  run-linearizes s u ls nodes g (done t) = (nodes, g, refl)
  run-linearizes s u ls nodes g (next_step i t t' v l rest step steps) =
      let (nodes1, g1, e1) = Step-refines i s t' l nodes g step in
      let (nodes2, g2, e2) = run-linearizes t' u rest nodes1 g1 steps in
      (nodes2, g2, (values nodes1, e1, e2))

  -- A new stack, before any thread has called it.
  abbrev pub empty : State V
  empty = record { heap = λ a. none; head = none; next_address = 0; threads = λ i. idle }

  pub empty-Good : Good empty []
  unfolding Chain Distinct Relies
  empty-Good = record { chain = refl; distinct = tt; unused = λ a le. refl; relies = λ i. tt }

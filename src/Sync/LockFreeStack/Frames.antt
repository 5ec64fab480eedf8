-- ===== src/Sync/LockFreeStack/Frames.antt =====
-- What a step of one thread on a `LockFreeStack` (src/sync/lockfree_structures.cpp) leaves as it is: the other
-- threads, and the addresses not yet given.
use cloud_fly_prlatform.Prelude.{
  ℕ, ◌≤◌, ◌<◌, ◌≡◌, ◌≢◌, sym, ap, subst, ◌∙◌, true, List, [], ◌∷◌, Option, some, none, arith,
  dec_lt, ℕ_discrete, map,
}
use mathlib.Core.Option.{some-injective}
use cloud_fly_prlatform.Sync.LockFreeStack.{
  Status, private_to, taken_by, Node, Local, State, update, published, Label, silent, pushes, pops,
  finds_empty, goes,
}
use cloud_fly_prlatform.Sync.LockFreeStack.Invariant.{
  update_same, update-other, Heap, Relies, Good, Relies-update,
}

-- What is one thread's is not another's.
pub private-other : (i j : ℕ) → j ≢ i → (private_to i ≢ private_to j) × (private_to i ≢ taken_by j)
private-other i j ne = ((λ e. ne (let k : i ≡ j = cc in sym k)), λ e. cc)

pub taken-other : (i j : ℕ) → j ≢ i → (taken_by i ≢ private_to j) × (taken_by i ≢ taken_by j)
taken-other i j ne = ((λ e. cc), λ e. ne (let k : i ≡ j = cc in sym k))

pub shared-other : (j : ℕ) → (Status.shared ≢ private_to j) × (Status.shared ≢ taken_by j)
shared-other j = ((λ e. cc), λ e. cc)

module _ {V : Type 0} where
  abbrev pub values : List (ℕ × V) → List V
  values nodes = map (λ n. n.1) nodes

  -- What a step does to a stack of values.
  unfoldable pub Effect : Label V → List V → List V → Type 0
  Effect silent xs ys = xs ≡ ys
  Effect (pushes v) xs ys = ys ≡ v ∷ xs
  Effect (pops v) xs ys = xs ≡ v ∷ ys
  Effect finds_empty xs ys = (xs ≡ []) × (ys ≡ [])

  unfoldable pub Refines : List (ℕ × V) → Label V → State V → Type 0
  Refines nodes l s' =
      (nodes' : List (ℕ × V)) × Good s' nodes' × Effect l (values nodes) (values nodes')

  pub Relies-all :
      (i : ℕ) (heap : Heap V) (next_address : ℕ) (threads : ℕ → Local) (l : Local)
      → Relies i heap next_address l
      → ((j : ℕ) → j ≢ i → Relies j heap next_address (threads j))
      → (j : ℕ) → Relies j heap next_address (update i l threads j)
  Relies-all i heap na threads l own others j = elim (ℕ_discrete j i) [
    | yes e ↦
        subst (λ k. Relies k heap na (update i l threads k)) (sym e)
          (subst (Relies i heap na) (sym (update_same i l threads)) own)
    | no ne ↦ subst (Relies j heap na) (sym (update-other i l threads j ne)) (others j ne)
  ]

  pub below :
      (s : State V) (nodes : List (ℕ × V)) (a : ℕ) (node : Node V)
      → Good s nodes
      → s.heap a ≡ some node
      → a < s.next_address
  below s nodes a node g e = elim (dec_lt a s.next_address) [
    | yes lt ↦ lt
    | no ge ↦ let f = g.unused a (omega arith) in absurd (ground (arith, e, f))
  ]

  -- Thread `i` changes one node that is not another thread's.
  pub others-rely :
      (i : ℕ) (s : State V) (nodes : List (ℕ × V)) (a : ℕ) (old : Node V) (cell : Option (Node V))
      → Good s nodes
      → s.heap a ≡ some old
      → ((j : ℕ) → j ≢ i → (old.status ≢ private_to j) × (old.status ≢ taken_by j))
      → ((new : Node V)
          → cell ≡ some new
          → published old.status ≡ true
          → (published new.status ≡ true) × (old.next ≡ new.next))
      → (j : ℕ) → j ≢ i
      → Relies j (update a cell s.heap) s.next_address (s.threads j)
  others-rely i s nodes a old cell g at free keep j ne =
      let (np, nt) = free j ne in
      Relies-update j s.heap s.next_address s.next_address a cell (s.threads j) (omega arith)
        (λ w n e. np (ap (λ (x : Node V). x.status) (some-injective _ _ (sym at ∙ e))))
        (λ w n e. nt (ap (λ (x : Node V). x.status) (some-injective _ _ (sym at ∙ e))))
        (λ new lt e. (old, at, keep new e)) (g.relies j)

  pub still_unused :
      (s : State V) (nodes : List (ℕ × V)) (a : ℕ) (old : Node V) (cell : Option (Node V))
      → Good s nodes
      → s.heap a ≡ some old
      → (b : ℕ) → s.next_address ≤ b
      → update a cell s.heap b ≡ none
  still_unused s nodes a old cell g at b le =
      let lt = below s nodes a old g at in
      update-other a cell s.heap b (λ e. omega arith) ∙ g.unused b le

  -- Only the thread's own place changes.
  pub goes-Good :
      (i : ℕ) (s : State V) (nodes : List (ℕ × V)) (l : Local)
      → Good s nodes
      → Relies i s.heap s.next_address l
      → Good (goes s i l) nodes
  goes-Good i s nodes l g r = record {
    chain = g.chain;
    distinct = g.distinct;
    unused = g.unused;
    relies = Relies-all i s.heap s.next_address s.threads l r (λ j ne. g.relies j);
  }

-- ===== src/Sync/LockFreeStack/Invariant.antt =====
-- What holds of the nodes between any two steps of the threads on a `LockFreeStack`
-- (src/sync/lockfree_structures.cpp).
use cloud_fly_prlatform.Prelude.{
  ℕ, ◌≤◌, ◌<◌, ◌≡◌, ◌≢◌, sym, ap, ◌∙◌, true, List, [], ◌∷◌, Option, some, none, arith, ℕ_discrete,
}
use cloud_fly_prlatform.Sync.LockFreeStack.{
  Status, private_to, taken_by, Node, Local, idle, pushing, loaded, exchanging, deleting, State,
  update, published,
}

pub update_same : {A : Type 0} (x : ℕ) (a : A) (f : ℕ → A) → update x a f x ≡ a
unfolding update
update_same x a f = ground arith

pub update-other : {A : Type 0} (x : ℕ) (a : A) (f : ℕ → A) (y : ℕ) → y ≢ x → update x a f y ≡ f y
unfolding update
update-other x a f y h = ground (arith, h)

abbrev pub Heap : Type 0 → Type 0
Heap V = ℕ → Option (Node V)

module _ {V : Type 0} where
  -- From `head` on, the shared nodes at these addresses with these values, and then a null pointer.
  unfoldable pub Chain : Heap V → Option ℕ → List (ℕ × V) → Type 0
  Chain heap head [] = head ≡ none
  Chain heap head ((a, v) ∷ nodes) =
      (head ≡ some a)
      × (n : Option ℕ) × (heap a ≡ some (record { value = v; next = n; status = Status.shared }))
      × Chain heap n nodes

  unfoldable pub Absent : ℕ → List (ℕ × V) → Type 0
  Absent a [] = Unit {0}
  Absent a ((b, v) ∷ nodes) = (b ≢ a) × Absent a nodes

  unfoldable pub Distinct : List (ℕ × V) → Type 0
  unfolding Absent
  Distinct [] = Unit {0}
  Distinct ((a, v) ∷ nodes) = Absent a nodes × Distinct nodes

  -- What thread `i` may rely on, where it stands.
  unfoldable pub Relies : ℕ → Heap V → ℕ → Local → Type 0
  unfolding published
  Relies i heap next_address idle = Unit {0}
  Relies i heap next_address (pushing a) =
      (v : V) × (n : Option ℕ) × (heap a
        ≡ some (record { value = v; next = n; status = private_to i }))
  Relies i heap next_address (loaded h) =
      (h < next_address) × ((node : Node V) → heap h ≡ some node → published node.status ≡ true)
  Relies i heap next_address (exchanging h n) =
      (h < next_address)
      × ((node : Node V) → heap h ≡ some node → (published node.status ≡ true) × (node.next ≡ n))
  Relies i heap next_address (deleting h) =
      (v : V) × (n : Option ℕ) × (heap h
        ≡ some (record { value = v; next = n; status = taken_by i }))

  pub record Good (s : State V) (nodes : List (ℕ × V)) : Type 0 where
    pub chain : Chain s.heap s.head nodes
    pub distinct : Distinct nodes
    pub unused : (a : ℕ) → s.next_address ≤ a → s.heap a ≡ none
    pub relies : (i : ℕ) → Relies i s.heap s.next_address (s.threads i)

  -- A chain is not touched by a change elsewhere.
  pub Chain-update :
      (heap : Heap V) (head : Option ℕ) (nodes : List (ℕ × V)) (a : ℕ) (cell : Option (Node V))
      → Absent a nodes
      → Chain heap head nodes
      → Chain (update a cell heap) head nodes
  unfolding Chain Absent
  Chain-update heap head [] a cell out c = c
  Chain-update heap head ((b, v) ∷ nodes) a cell (ne, out) (e, n, at, c) =
      (e, n, update-other a cell heap b ne ∙ at, Chain-update heap n nodes a cell out c)

  -- A node that is not shared is not in the chain.
  pub Absent-of_status :
      (heap : Heap V) (head : Option ℕ) (nodes : List (ℕ × V)) (a : ℕ)
      → ((v : V) (n : Option ℕ)
          → heap a ≢ some (record { value = v; next = n; status = Status.shared }))
      → Chain heap head nodes
      → Absent a nodes
  unfolding Chain Absent
  Absent-of_status heap head [] a not_shared c = tt
  Absent-of_status heap head ((b, v) ∷ nodes) a not_shared (e, n, at, c) = (
    (λ same. not_shared v n (ap heap (sym same) ∙ at)),
    Absent-of_status heap n nodes a not_shared c,
  )

  read_update :
      (heap : Heap V) (a h : ℕ) (cell : Option (Node V)) (new : Node V)
      → h ≡ a
      → update a cell heap h ≡ some new
      → cell ≡ some new
  read_update heap a h cell new same e =
      sym (update_same a cell heap) ∙ ap (update a cell heap) (sym same) ∙ e

  -- A change by another thread, that leaves alone what is this thread's own, keeps what this thread relies on.
  pub Relies-update :
      (i : ℕ) (heap : Heap V) (next_address next_address' a : ℕ) (cell : Option (Node V))
      (l : Local)
      → next_address ≤ next_address'
      → ((v : V) (n : Option ℕ)
          → heap a ≢ some (record { value = v; next = n; status = private_to i }))
      → ((v : V) (n : Option ℕ)
          → heap a ≢ some (record { value = v; next = n; status = taken_by i }))
      → ((new : Node V)
          → a < next_address
          → cell ≡ some new
          → (old : Node V) × (heap a ≡ some old)
            × (published old.status ≡ true → (published new.status ≡ true) × (old.next ≡ new.next)))
      → Relies i heap next_address l
      → Relies i (update a cell heap) next_address' l
  unfolding Relies
  Relies-update i heap na na' a cell idle le np nt keep r = tt
  Relies-update i heap na na' a cell (pushing b) le np nt keep (v, n, at) =
      (v, n, update-other a cell heap b (λ e. np v n (ap heap (sym e) ∙ at)) ∙ at)
  Relies-update i heap na na' a cell (deleting b) le np nt keep (v, n, at) =
      (v, n, update-other a cell heap b (λ e. nt v n (ap heap (sym e) ∙ at)) ∙ at)
  Relies-update i heap na na' a cell (loaded h) le np nt keep (lt, r) = (
    omega arith,
    λ new e. elim (ℕ_discrete h a) [
      | yes same ↦
          let (old, at, on) = keep new (omega arith) (read_update heap a h cell new same e) in
          (on (r old (ap heap same ∙ at))).0
      | no ne ↦ r new (sym (update-other a cell heap h ne) ∙ e)
    ],
  )
  Relies-update i heap na na' a cell (exchanging h n) le np nt keep (lt, r) = (
    omega arith,
    λ new e. elim (ℕ_discrete h a) [
      | yes same ↦
          let (old, at, on) = keep new (omega arith) (read_update heap a h cell new same e) in
          let (pub_old, next_old) = r old (ap heap same ∙ at) in
          let (pub_new, links) = on pub_old in (pub_new, sym links ∙ next_old)
      | no ne ↦ r new (sym (update-other a cell heap h ne) ∙ e)
    ],
  )

-- ===== src/Sync/LockFreeQueue/Invariant.antt =====
-- What holds of the nodes of a `LockFreeQueue` (src/sync/lockfree_structures.cpp) between any two steps of the
-- threads, and what each thread may rely on where it stands.
use cloud_fly_prlatform.Prelude.{
  ℕ, ◌≤◌, ◌<◌, ◌≡◌, ◌≢◌, ◌⊎◌, Bool, true, false, List, [], ◌∷◌, Option, some, none,
}
use cloud_fly_prlatform.Sync.LockFreeStack.{Status, private_to, shared, taken_by, Node, published}
use cloud_fly_prlatform.Sync.LockFreeStack.Invariant.{Heap, Chain, Distinct}
use cloud_fly_prlatform.Sync.LockFreeQueue.{
  Memory, Local, idle, linking, linking_tail, linking_next, appending, helping, swinging, dequeuing,
  taking_head, taking_tail, taking_next, catching, reading, taking, deleting,
}

unfoldable pub taken : Status → Bool
taken (private_to i) = false
taken shared = false
taken (taken_by i) = true

module _ {V : Type 0} where
  -- The address of a node of the list.
  unfoldable pub On : ℕ → List (ℕ × V) → Type 0
  On a [] = ⊥
  On a ((b, v) ∷ nodes) = (b ≡ a) ⊎ On a nodes

  -- The new node of thread `i`.
  unfoldable pub Owns : ℕ → Heap V → ℕ → Type 0
  Owns i heap a =
      (v : V) × (heap a ≡ some (record { value = v; next = none; status = private_to i }))

  -- A node that was in the queue.
  unfoldable pub Known : Memory V → ℕ → Type 0
  unfolding published
  Known m a =
      (a < m.next_address) × ((node : Node V) → m.heap a ≡ some node → published node.status ≡ true)

  unfoldable pub Links : Memory V → ℕ → ℕ → Type 0
  Links m a b = (node : Node V) → m.heap a ≡ some node → node.next ≡ some b

  unfoldable pub LinksIf : Memory V → ℕ → Option ℕ → Type 0
  unfolding Links
  LinksIf m a none = Unit {0}
  LinksIf m a (some b) = Links m a b

  -- A node that is the head, or was and has been taken.
  unfoldable pub WasHead : Memory V → ℕ → Type 0
  unfolding taken
  WasHead m h = (m.head ≡ h) ⊎ ((node : Node V) → m.heap h ≡ some node → taken node.status ≡ true)

  -- The tail is past the head `h`.
  unfoldable pub Past : Memory V → ℕ → Type 0
  Past m h = m.head ≡ h → m.tail ≢ h

  unfoldable pub HasValue : Memory V → ℕ → V → Type 0
  HasValue m b v = (node : Node V) → m.heap b ≡ some node → node.value ≡ v

  unfoldable pub Relies : ℕ → Memory V → Local V → Type 0
  unfolding Owns Known Links LinksIf WasHead Past HasValue
  Relies i m idle = Unit {0}
  Relies i m (linking a) = Owns i m.heap a
  Relies i m (linking_tail a t) = Owns i m.heap a × Known m t
  Relies i m (linking_next a t n) = Owns i m.heap a × Known m t × LinksIf m t n
  Relies i m (appending a t) = Owns i m.heap a × Known m t
  Relies i m (helping a t b) = Owns i m.heap a × Known m t × Links m t b
  Relies i m (swinging a t) = Known m t × Links m t a
  Relies i m dequeuing = Unit {0}
  Relies i m (taking_head h) = Known m h × WasHead m h
  Relies i m (taking_tail h t) = Known m h × WasHead m h × (h ≢ t → Past m h)
  Relies i m (taking_next h t n) = Known m h × WasHead m h × (h ≢ t → Past m h) × LinksIf m h n
  Relies i m (catching t b) = Known m t × Links m t b
  Relies i m (reading h b) = Known m h × WasHead m h × Past m h × Links m h b
  Relies i m (taking h b v) =
      Known m h × WasHead m h × Past m h × Links m h b × (b < m.next_address) × HasValue m b v
  Relies i m (deleting h) =
      (v : V) × (n : Option ℕ) × (m.heap h
        ≡ some (record { value = v; next = n; status = taken_by i }))

  -- The nodes from the head on are `(m.head, w) ∷ nodes`: the first is not part of the queue's contents.
  pub record Good (m : Memory V) (w : V) (nodes : List (ℕ × V)) : Type 0 where
    pub chain : Chain m.heap (some m.head) ((m.head, w) ∷ nodes)
    pub distinct : Distinct ((m.head, w) ∷ nodes)
    pub shared_on :
        (a : ℕ) (node : Node V)
        → m.heap a ≡ some node
        → node.status ≡ shared
        → On a ((m.head, w) ∷ nodes)
    pub taken_linked :
        (a : ℕ) (node : Node V) → m.heap a ≡ some node → taken node.status ≡ true → node.next ≢ none
    pub tail_on : On m.tail ((m.head, w) ∷ nodes)
    pub unused : (a : ℕ) → m.next_address ≤ a → m.heap a ≡ none

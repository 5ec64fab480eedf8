-- ===== src/Sync/LockFreeQueue.antt =====
-- `LockFreeQueue` (src/sync/lockfree_structures.cpp and, with another answer for an empty queue,
-- src/sync/advanced_synchronization.cpp), with each atomic access of a thread as a step. Its nodes are those of
-- LockFreeStack. No constructor makes the first node: it is part of the state that the threads start from.
-- `new` gives an address that no node has at the time: where `reuses` is true that may be the address of a
-- deleted node, where it is false it is one that `new` has not given before. A thread that reads a deleted
-- node has no step: what the code does then is undefined.
pub mod Invariant
pub mod Evolution
pub mod Chains
pub mod Moves
pub mod Exchanges
pub mod Removal
pub mod Steps
pub mod Runs
pub mod Tests
use cloud_fly_prlatform.Prelude.{ℕ, suc, max, ◌≤◌, ◌⊎◌, ◌≡◌, ◌≢◌, Bool, true, Option, some, none}
use cloud_fly_prlatform.Sync.LockFreeStack.{private_to, shared, taken_by, Node, update}

pub record Memory (V : Type 0) : Type 0 where
  pub heap : ℕ → Option (Node V)
  pub head : ℕ
  pub tail : ℕ
  pub next_address : ℕ

-- Where a thread stands, with its local variables: `a` is the new node, `t` the loaded tail, `h` the loaded head.
pub data Local (V : Type 0) : Type 0 where
  idle : Local V
  linking : (a : ℕ) → Local V
  linking_tail : (a t : ℕ) → Local V
  linking_next : (a t : ℕ) (n : Option ℕ) → Local V
  appending : (a t : ℕ) → Local V
  helping : (a t b : ℕ) → Local V
  swinging : (a t : ℕ) → Local V
  dequeuing : Local V
  taking_head : (h : ℕ) → Local V
  taking_tail : (h t : ℕ) → Local V
  taking_next : (h t : ℕ) (n : Option ℕ) → Local V
  catching : (t b : ℕ) → Local V
  reading : (h b : ℕ) → Local V
  taking : (h b : ℕ) (v : V) → Local V
  deleting : (h : ℕ) → Local V

-- What a step shows. `dequeue` finds the queue empty where it reads a null `next`, and answers so later.
pub data Label (V : Type 0) : Type 0 where
  silent : Label V
  enqueues : V → Label V
  dequeues : V → Label V
  finds_empty : Label V
  answers_empty : Label V

module _ {V : Type 0} where
  -- `if (next == nullptr)` in `enqueue`.
  unfoldable pub after_check : ℕ → ℕ → Option ℕ → Local V
  after_check a t none = appending a t
  after_check a t (some b) = helping a t b

  unfoldable pub seen : Option ℕ → Label V
  seen none = finds_empty
  seen (some b) = silent

  abbrev pub grown : ℕ → ℕ → V → Memory V → Memory V
  grown i a v m = record m {
    heap = update a (some (record { value = v; next = none; status = private_to i })) m.heap;
    next_address = max m.next_address (suc a);
  }

  abbrev pub appended : ℕ → ℕ → V → Node V → Memory V → Memory V
  appended a t v last m = record m {
    heap =
        update t (some (record last { next = some a }))
          (update a (some (record { value = v; next = none; status = shared })) m.heap);
  }

  abbrev pub advanced : ℕ → ℕ → ℕ → Node V → Memory V → Memory V
  advanced i h b node m = record m {
    heap = update h (some (record node { status = taken_by i })) m.heap;
    head = b;
  }

  -- The steps of the thread `i`.
  pub data Move (reuses : Bool) (i : ℕ) (m : Memory V)
      : Local V → Label V → Memory V → Local V → Type 0 where
    -- `new Node{item, nullptr}`
    new_node :
        (v : V) (a : ℕ)
        → m.heap a ≡ none
        → (reuses ≡ true) ⊎ (m.next_address ≤ a)
        → Move reuses i m idle silent (grown i a v m) (linking a)
    load_tail : {a : ℕ} → Move reuses i m (linking a) silent m (linking_tail a m.tail)
    load_next :
        {a t : ℕ} (node : Node V)
        → m.heap t ≡ some node
        → Move reuses i m (linking_tail a t) silent m (linking_next a t node.next)
    check_tail :
        {a t : ℕ} {n : Option ℕ}
        → m.tail ≡ t
        → Move reuses i m (linking_next a t n) silent m (after_check a t n)
    tail_moved :
        {a t : ℕ} {n : Option ℕ}
        → m.tail ≢ t
        → Move reuses i m (linking_next a t n) silent m (linking a)
    -- `tail->next.compare_exchange_weak` succeeds.
    append :
        {a t : ℕ} (v : V) (last : Node V)
        → m.heap t ≡ some last
        → last.next ≡ none
        → m.heap a ≡ some (record { value = v; next = none; status = private_to i })
        → Move reuses i m (appending a t) (enqueues v) (appended a t v last m) (swinging a t)
    -- It fails, for another `next` or by itself.
    append_fails :
        {a t : ℕ} (node : Node V)
        → m.heap t ≡ some node
        → Move reuses i m (appending a t) silent m (linking a)
    help :
        {a t b : ℕ}
        → m.tail ≡ t
        → Move reuses i m (helping a t b) silent (record m { tail = b }) (linking a)
    help_fails : {a t b : ℕ} → m.tail ≢ t → Move reuses i m (helping a t b) silent m (linking a)
    swing :
        {a t : ℕ} → m.tail ≡ t → Move reuses i m (swinging a t) silent (record m { tail = a }) idle
    swing_fails : {a t : ℕ} → m.tail ≢ t → Move reuses i m (swinging a t) silent m idle
    call_dequeue : Move reuses i m idle silent m dequeuing
    load_head : Move reuses i m dequeuing silent m (taking_head m.head)
    load_tail_again : {h : ℕ} → Move reuses i m (taking_head h) silent m (taking_tail h m.tail)
    -- `head->next.load`
    load_head_next :
        {h t : ℕ} (node : Node V)
        → m.heap h ≡ some node
        → Move reuses i m (taking_tail h t) (seen node.next) m (taking_next h t node.next)
    head_moved :
        {h t : ℕ} {n : Option ℕ}
        → m.head ≢ h
        → Move reuses i m (taking_next h t n) silent m dequeuing
    answer_empty :
        {h t : ℕ} → m.head ≡ h → h ≡ t → Move reuses i m (taking_next h t none) answers_empty m idle
    look_again :
        {h t : ℕ} → m.head ≡ h → h ≢ t → Move reuses i m (taking_next h t none) silent m dequeuing
    lags :
        {h t b : ℕ}
        → m.head ≡ h
        → h ≡ t
        → Move reuses i m (taking_next h t (some b)) silent m (catching t b)
    catch_up :
        {t b : ℕ}
        → m.tail ≡ t
        → Move reuses i m (catching t b) silent (record m { tail = b }) dequeuing
    catch_fails : {t b : ℕ} → m.tail ≢ t → Move reuses i m (catching t b) silent m dequeuing
    has_next :
        {h t b : ℕ}
        → m.head ≡ h
        → h ≢ t
        → Move reuses i m (taking_next h t (some b)) silent m (reading h b)
    -- `next->data`
    read_value :
        {h b : ℕ} (node : Node V)
        → m.heap b ≡ some node
        → Move reuses i m (reading h b) silent m (taking h b node.value)
    -- `head_.compare_exchange_weak` succeeds.
    take :
        {h b : ℕ} {v : V} (node : Node V)
        → m.head ≡ h
        → m.heap h ≡ some node
        → Move reuses i m (taking h b v) (dequeues v) (advanced i h b node m) (deleting h)
    take_fails : {h b : ℕ} {v : V} → Move reuses i m (taking h b v) silent m dequeuing
    -- `delete head`
    delete :
        {h : ℕ}
        → Move reuses i m (deleting h) silent (record m { heap = update h none m.heap }) idle

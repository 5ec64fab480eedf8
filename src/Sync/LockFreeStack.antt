-- ===== src/Sync/LockFreeStack.antt =====
-- `LockFreeStack` (src/sync/lockfree_structures.cpp, include/sync/lockfree_structures.h), with the threads'
-- atomic accesses as the steps of a relation. `new` gives an address that no node has at the time: where
-- `reuses` is true that may be the address of a deleted node, where it is false it is one that `new` has not
-- given before. A thread that reads a deleted node has no step: what the code does then is undefined.
pub mod Invariant
pub mod Frames
pub mod Steps
pub mod Refinement
pub mod Tests
use cloud_fly_prlatform.Prelude.{
  ℕ, suc, max, ◌≤◌, ◌⊎◌, ◌≡◌, ◌==◌, Bool, true, false, Option, some, none, if◌then◌else◌,
}

-- Who has the node: the code does not store this. A node is its thread's until it is published, and again
-- when it has been taken off the stack.
pub data Status : Type 0 where
  private_to : ℕ → Status
  shared : Status
  taken_by : ℕ → Status

pub record Node (V : Type 0) : Type 0 where
  pub value : V
  pub next : Option ℕ
  pub status : Status

-- Where a thread stands in `push` or `pop`: a node that is to be published; a loaded head; the head and its
-- `next`, before the exchange; a node that is to be deleted.
pub data Local : Type 0 where
  idle : Local
  pushing : ℕ → Local
  loaded : ℕ → Local
  exchanging : ℕ → Option ℕ → Local
  deleting : ℕ → Local

pub record State (V : Type 0) : Type 0 where
  pub heap : ℕ → Option (Node V)
  pub head : Option ℕ
  pub next_address : ℕ
  pub threads : ℕ → Local

-- A function changed at one place.
unfoldable pub update : {A : Type 0} → ℕ → A → (ℕ → A) → ℕ → A
update x a f y = if y == x then a else f y

-- What a step does that a caller can see.
pub data Label (V : Type 0) : Type 0 where
  silent : Label V
  pushes : V → Label V
  pops : V → Label V
  finds_empty : Label V

unfoldable pub published : Status → Bool
published (private_to i) = false
published Status.shared = true
published (taken_by i) = true

-- A pop that has the head `h`, or none: the loop goes on, or ends with `false`.
unfoldable pub after_load : Option ℕ → Local
after_load none = idle
after_load (some h) = loaded h

unfoldable pub load_label : {V : Type 0} → Option ℕ → Label V
load_label none = finds_empty
load_label (some h) = silent

module _ {V : Type 0} where
  abbrev pub goes : State V → ℕ → Local → State V
  goes s i l = record s { threads = update i l s.threads }

  -- The steps of the thread `i`. `next_address` is above each address that `new` has given.
  pub data Step (reuses : Bool) (i : ℕ) : State V → Label V → State V → Type 0 where
    -- `new Node{value, head_.load()}`
    push_start :
        (s : State V) (v : V) (a : ℕ)
        → s.threads i ≡ idle
        → s.heap a ≡ none
        → (reuses ≡ true) ⊎ (s.next_address ≤ a)
        → Step reuses i s silent (record s {
          heap =
              update a (some (record { value = v; next = s.head; status = private_to i })) s.heap;
          next_address = max s.next_address (suc a);
          threads = update i (pushing a) s.threads;
        })
    -- The exchange succeeds.
    push_publish :
        (s : State V) (a : ℕ) (v : V)
        → s.threads i ≡ pushing a
        → s.heap a ≡ some (record { value = v; next = s.head; status = private_to i })
        → Step reuses i s (pushes v) (record s {
          heap =
              update a (some (record { value = v; next = s.head; status = Status.shared })) s.heap;
          head = some a;
          threads = update i idle s.threads;
        })
    -- It fails, for another head or by itself, and stores the head in `next`.
    push_retry :
        (s : State V) (a : ℕ) (v : V) (n : Option ℕ)
        → s.threads i ≡ pushing a
        → s.heap a ≡ some (record { value = v; next = n; status = private_to i })
        → Step reuses i s silent (record s {
          heap =
              update a (some (record { value = v; next = s.head; status = private_to i })) s.heap;
        })
    pop_load :
        (s : State V)
        → s.threads i ≡ idle
        → Step reuses i s (load_label s.head) (goes s i (after_load s.head))
    -- `old_head->next`
    pop_next :
        (s : State V) (h : ℕ) (node : Node V)
        → s.threads i ≡ loaded h
        → s.heap h ≡ some node
        → Step reuses i s silent (goes s i (exchanging h node.next))
    -- The exchange succeeds, and the value is read.
    pop_take :
        (s : State V) (h : ℕ) (n : Option ℕ) (node : Node V)
        → s.threads i ≡ exchanging h n
        → s.head ≡ some h
        → s.heap h ≡ some node
        → Step reuses i s (pops node.value) (record s {
          heap = update h (some (record node { status = taken_by i })) s.heap;
          head = n;
          threads = update i (deleting h) s.threads;
        })
    -- It fails, for another head or by itself, and loads the head.
    pop_retry :
        (s : State V) (h : ℕ) (n : Option ℕ)
        → s.threads i ≡ exchanging h n
        → Step reuses i s (load_label s.head) (goes s i (after_load s.head))
    -- `delete old_head`
    pop_delete :
        (s : State V) (h : ℕ)
        → s.threads i ≡ deleting h
        → Step reuses i s silent
            (record s { heap = update h none s.heap; threads = update i idle s.threads })

-- ===== src/Sync/LockFreeQueue/Moves.antt =====
-- Each change that a thread makes to a `LockFreeQueue` (src/sync/lockfree_structures.cpp) keeps its nodes as
-- they should be, and what other threads rely on.
use cloud_fly_prlatform.Prelude.{
  ℕ, ◌≤◌, ◌<◌, ◌≡◌, ◌⊎◌, inl, inr, refl, sym, ap, ◌∙◌, true, List, ◌∷◌, some, none, arith, dec_lt,
}
use mathlib.Core.Option.{some-injective}
use cloud_fly_prlatform.Sync.LockFreeStack.{Status, private_to, shared, taken_by, Node, published}
use cloud_fly_prlatform.Sync.LockFreeStack.Invariant.{
  update-other, Distinct, Chain-update, Absent-of_status,
}
use cloud_fly_prlatform.Sync.LockFreeQueue.{Memory, grown}
use cloud_fly_prlatform.Sync.LockFreeQueue.Invariant.{taken, On, Known, Links, WasHead, Past, Good}
use cloud_fly_prlatform.Sync.LockFreeQueue.Evolution.{Same, Evolves}
use cloud_fly_prlatform.Sync.LockFreeQueue.Chains.{On-shared, On-next, On-ne, update-cases}

module _ {V : Type 0} where
  pub Same-refl : (node : Node V) → Same node node
  unfolding Same
  Same-refl node = ((λ e. e), (λ e. e), refl, λ b e. e)

  pub below :
      (m : Memory V) (w : V) (nodes : List (ℕ × V)) (a : ℕ) (node : Node V)
      → Good m w nodes
      → m.heap a ≡ some node
      → a < m.next_address
  below m w nodes a node g e = elim (dec_lt a m.next_address) [
    | yes lt ↦ lt
    | no ge ↦ let f = g.unused a (omega arith) in absurd (ground (arith, e, f))
  ]

  -- A step that leaves the head and the tail.
  pub still :
      (j : ℕ) (m m' : Memory V)
      → m.next_address ≤ m'.next_address
      → m'.head ≡ m.head
      → m'.tail ≡ m.tail
      → ((a : ℕ) (node' : Node V)
          → a < m.next_address
          → m'.heap a ≡ some node'
          → (node : Node V) × (m.heap a ≡ some node) × Same node node')
      → ((a : ℕ) (node : Node V)
          → m.heap a ≡ some node
          → (node.status ≡ private_to j) ⊎ (node.status ≡ taken_by j)
          → m'.heap a ≡ some node)
      → Evolves j m m'
  unfolding Same WasHead Past
  still j m m' grows head tail keeps own = record {
    grows = grows;
    keeps = keeps;
    owned = λ a v at. own a _ at (inl refl);
    retired = λ a v n at. own a _ at (inr refl);
    heads = λ h lt was. elim was [
      | inl e ↦ inl (head ∙ e)
      | inr gone ↦
          inr (λ node' at'. let (node, at, (p, t, v, n)) = keeps h node' lt at' in t (gone node at))
    ];
    pasts = λ h lt was past e e'. past (sym head ∙ e) (sym tail ∙ e');
  }

  pub grown-Good :
      (i a : ℕ) (v : V) (m : Memory V) (w : V) (nodes : List (ℕ × V))
      → Good m w nodes
      → m.next_address ≤ a
      → Good (grown i a v m) w nodes
  unfolding taken
  grown-Good i a v m w nodes g above =
      let free : m.heap a ≡ none = g.unused a above in
      let new : Node V = record { value = v; next = none; status = private_to i } in
      record {
        chain =
            Chain-update m.heap (some m.head) ((m.head, w) ∷ nodes) a (some new)
              (Absent-of_status m.heap (some m.head) ((m.head, w) ∷ nodes) a
                (λ u n e. ground (arith, free, e)) g.chain)
              g.chain;
        distinct = g.distinct;
        shared_on = λ b node at is. elim (update-cases a (some new) m.heap b (some node) at) [
          | inl (same, e) ↦ let s = ap (λ (x : Node V). x.status) (some-injective new node e) in cc
          | inr (ne, e) ↦ g.shared_on b node e is
        ];
        taken_linked = λ b node at is. elim (update-cases a (some new) m.heap b (some node) at) [
          | inl (same, e) ↦
              let s = ap (λ (x : Node V). taken x.status) (some-injective new node e) in cc
          | inr (ne, e) ↦ g.taken_linked b node e is
        ];
        tail_on = g.tail_on;
        unused = λ b le.
            update-other a (some new) m.heap b (λ e. omega arith) ∙ g.unused b (omega arith);
      }

  pub grown-Evolves :
      (i j a : ℕ) (v : V) (m : Memory V) (w : V) (nodes : List (ℕ × V))
      → Good m w nodes
      → m.next_address ≤ a
      → Evolves j m (grown i a v m)
  grown-Evolves i j a v m w nodes g above =
      let free : m.heap a ≡ none = g.unused a above in
      let new : Node V = record { value = v; next = none; status = private_to i } in
      still j m (grown i a v m) (omega arith) refl refl
        (λ b node' lt at'. (
          node',
          sym (update-other a (some new) m.heap b (λ e. omega arith)) ∙ at',
          Same-refl node',
        ))
        (λ b node at own.
          update-other a (some new) m.heap b
            (λ e. let q = ap m.heap (sym e) ∙ at in ground (arith, free, q))
          ∙ at)

  pub swung-Good :
      (b : ℕ) (m : Memory V) (w : V) (nodes : List (ℕ × V))
      → Good m w nodes
      → Links m m.tail b
      → Good (record m { tail = b }) w nodes × On b nodes
  unfolding Links On
  swung-Good b m w nodes g links =
      let (v, n, at) =
        On-shared m.heap (some m.head) ((m.head, w) ∷ nodes) m.tail g.chain g.tail_on in
      let on : On b nodes =
        On-next m.heap (some m.head) m.head w nodes m.tail b _ g.chain g.tail_on at (links _ at) in
      (
        record {
          chain = g.chain;
          distinct = g.distinct;
          shared_on = g.shared_on;
          taken_linked = g.taken_linked;
          tail_on = inr on;
          unused = g.unused;
        },
        on,
      )

  pub swung-Evolves :
      (b j : ℕ) (m : Memory V) (w : V) (nodes : List (ℕ × V))
      → Good m w nodes
      → On b nodes
      → Evolves j m (record m { tail = b })
  unfolding WasHead Past Distinct
  swung-Evolves b j m w nodes g on = record {
    grows = omega arith;
    keeps = λ a node lt at. (node, at, Same-refl node);
    owned = λ a v at. at;
    retired = λ a v n at. at;
    heads = λ h lt was. was;
    pasts = λ h lt was past e same. On-ne m.head b nodes g.distinct.0 on (same ∙ sym e);
  }

  -- The node whose `next` is null is in the queue.
  pub last-shared :
      (m : Memory V) (w : V) (nodes : List (ℕ × V)) (t : ℕ) (last : Node V)
      → Good m w nodes
      → Known m t
      → m.heap t ≡ some last
      → last.next ≡ none
      → last.status ≡ shared
  unfolding Known published taken
  last-shared m w nodes t last g (lt, known) at ends =
      pick last.status refl (known last at) (λ e. g.taken_linked t last at e ends)
    where
      pick :
          (s : Status)
          → last.status ≡ s
          → published s ≡ true
          → (taken s ≡ true → ⊥)
          → last.status ≡ shared
      pick (private_to k) e p t = cc
      pick Status.shared e p t = e
      pick (taken_by k) e p t = absurd (t refl)

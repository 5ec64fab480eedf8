-- ===== src/Sync/LockFreeQueue/Evolution.antt =====
-- What a thread relies on in a `LockFreeQueue` (src/sync/lockfree_structures.cpp) outlasts the steps of others.
use cloud_fly_prlatform.Prelude.{ℕ, ◌≤◌, ◌<◌, ◌≡◌, sym, ◌∙◌, true, Option, some, none, arith}
use cloud_fly_prlatform.Sync.LockFreeStack.{private_to, taken_by, Node, published}
use cloud_fly_prlatform.Sync.LockFreeQueue.{
  Memory, Local, idle, linking, linking_tail, linking_next, appending, helping, swinging, dequeuing,
  taking_head, taking_tail, taking_next, catching, reading, taking, deleting,
}
use cloud_fly_prlatform.Sync.LockFreeQueue.Invariant.{
  taken, Owns, Known, Links, LinksIf, WasHead, Past, HasValue, Relies,
}

module _ {V : Type 0} where
  -- A node keeps its value, its `next` once that is there, and that it was published or taken.
  unfoldable pub Same : Node V → Node V → Type 0
  unfolding published taken
  Same node node' =
      (published node.status ≡ true → published node'.status ≡ true)
      × (taken node.status ≡ true → taken node'.status ≡ true)
      × (node.value ≡ node'.value)
      × ((b : ℕ) → node.next ≡ some b → node'.next ≡ some b)

  -- What thread `j` sees of a step of another thread.
  pub record Evolves (j : ℕ) (m m' : Memory V) : Type 0 where
    pub grows : m.next_address ≤ m'.next_address
    pub keeps :
        (a : ℕ) (node' : Node V)
        → a < m.next_address
        → m'.heap a ≡ some node'
        → (node : Node V) × (m.heap a ≡ some node) × Same node node'
    pub owned :
        (a : ℕ) (v : V)
        → m.heap a ≡ some (record { value = v; next = none; status = private_to j })
        → m'.heap a ≡ some (record { value = v; next = none; status = private_to j })
    pub retired :
        (a : ℕ) (v : V) (n : Option ℕ)
        → m.heap a ≡ some (record { value = v; next = n; status = taken_by j })
        → m'.heap a ≡ some (record { value = v; next = n; status = taken_by j })
    pub heads : (h : ℕ) → h < m.next_address → WasHead m h → WasHead m' h
    pub pasts : (h : ℕ) → h < m.next_address → WasHead m h → Past m h → Past m' h

  module _ {j : ℕ} {m m' : Memory V} (e : Evolves j m m') where
    Owns-Evolves : (a : ℕ) → Owns j m.heap a → Owns j m'.heap a
    unfolding Owns
    Owns-Evolves a (v, at) = (v, e.owned a v at)

    Known-Evolves : (a : ℕ) → Known m a → Known m' a
    unfolding Known Same
    Known-Evolves a (lt, k) = (
      (let g = e.grows in omega arith),
      λ node' at'. let (node, at, (p, t, v, n)) = e.keeps a node' lt at' in p (k node at),
    )

    Links-Evolves : (a b : ℕ) → Known m a → Links m a b → Links m' a b
    unfolding Known Links Same
    Links-Evolves a b (lt, k) links node' at' =
        let (node, at, (p, t, v, n)) = e.keeps a node' lt at' in n b (links node at)

    LinksIf-Evolves : (a : ℕ) (n : Option ℕ) → Known m a → LinksIf m a n → LinksIf m' a n
    unfolding LinksIf
    LinksIf-Evolves a none k l = tt
    LinksIf-Evolves a (some b) k l = Links-Evolves a b k l

    HasValue-Evolves : (b : ℕ) (v : V) → b < m.next_address → HasValue m b v → HasValue m' b v
    unfolding HasValue Same
    HasValue-Evolves b v lt has node' at' =
        let (node, at, (p, t, same, n)) = e.keeps b node' lt at' in sym same ∙ has node at

    pub Relies-Evolves : (l : Local V) → Relies j m l → Relies j m' l
    unfolding Relies Known
    Relies-Evolves idle r = tt
    Relies-Evolves (linking a) r = Owns-Evolves a r
    Relies-Evolves (linking_tail a t) (o, k) = (Owns-Evolves a o, Known-Evolves t k)
    Relies-Evolves (linking_next a t n) (o, k, l) =
        (Owns-Evolves a o, Known-Evolves t k, LinksIf-Evolves t n k l)
    Relies-Evolves (appending a t) (o, k) = (Owns-Evolves a o, Known-Evolves t k)
    Relies-Evolves (helping a t b) (o, k, l) =
        (Owns-Evolves a o, Known-Evolves t k, Links-Evolves t b k l)
    Relies-Evolves (swinging a t) (k, l) = (Known-Evolves t k, Links-Evolves t a k l)
    Relies-Evolves dequeuing r = tt
    Relies-Evolves (taking_head h) (k, w) = (Known-Evolves h k, e.heads h k.0 w)
    Relies-Evolves (taking_tail h t) (k, w, p) =
        (Known-Evolves h k, e.heads h k.0 w, λ ne. e.pasts h k.0 w (p ne))
    Relies-Evolves (taking_next h t n) (k, w, p, l) = (
      Known-Evolves h k,
      e.heads h k.0 w,
      (λ ne. e.pasts h k.0 w (p ne)),
      LinksIf-Evolves h n k l,
    )
    Relies-Evolves (catching t b) (k, l) = (Known-Evolves t k, Links-Evolves t b k l)
    Relies-Evolves (reading h b) (k, w, p, l) =
        (Known-Evolves h k, e.heads h k.0 w, e.pasts h k.0 w p, Links-Evolves h b k l)
    Relies-Evolves (taking h b v) (k, w, p, l, lt, has) = (
      Known-Evolves h k,
      e.heads h k.0 w,
      e.pasts h k.0 w p,
      Links-Evolves h b k l,
      (let g = e.grows in omega arith),
      HasValue-Evolves b v lt has,
    )
    Relies-Evolves (deleting h) (v, n, at) = (v, n, e.retired h v n at)

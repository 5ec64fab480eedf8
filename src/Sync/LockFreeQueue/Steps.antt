-- ===== src/Sync/LockFreeQueue/Steps.antt =====
-- Each step of a thread on a `LockFreeQueue` (src/sync/lockfree_structures.cpp) is one of a queue of values:
-- `enqueue` takes effect at the exchange of the last `next`, `dequeue` at that of the head.
use cloud_fly_prlatform.Prelude.{
  false, ◌≤◌, ℕ, ◌≡◌, ◌≢◌, inl, inr, refl, sym, ap, subst, ◌∙◌, List, [], ◌∷◌, ◌++◌, Option, some,
  none, arith, map,
}
use mathlib.Core.List.{map-append}
use mathlib.Core.Option.{some-injective}
use cloud_fly_prlatform.Sync.LockFreeStack.{Node, published}
use cloud_fly_prlatform.Sync.LockFreeStack.Invariant.{update_same, Chain}
use cloud_fly_prlatform.Sync.LockFreeQueue.{
  Memory, Local, idle, linking, linking_tail, linking_next, appending, helping, swinging, dequeuing,
  taking_head, taking_tail, taking_next, catching, reading, taking, deleting, Label, silent,
  enqueues, dequeues, finds_empty, answers_empty, after_check, seen, Move, new_node, load_tail,
  load_next, check_tail, tail_moved, append, append_fails, help, help_fails, swing, swing_fails,
  call_dequeue, load_head, load_tail_again, load_head_next, head_moved, answer_empty, look_again,
  lags, catch_up, catch_fails, has_next, read_value, take, take_fails, delete,
}
use cloud_fly_prlatform.Sync.LockFreeQueue.Invariant.{
  On, Owns, Known, Links, LinksIf, WasHead, Past, HasValue, Relies, Good,
}
use cloud_fly_prlatform.Sync.LockFreeQueue.Evolution.{Evolves}
use cloud_fly_prlatform.Sync.LockFreeQueue.Chains.{On-shared, Chain-end}
use cloud_fly_prlatform.Sync.LockFreeQueue.Moves.{
  Same-refl, below, still, grown-Good, grown-Evolves, swung-Good, swung-Evolves,
}
use cloud_fly_prlatform.Sync.LockFreeQueue.Exchanges.{appended-Good, appended-Evolves}
use cloud_fly_prlatform.Sync.LockFreeQueue.Removal.{
  next-first, advanced-Good, advanced-Evolves, deleted-Good, deleted-Evolves,
}

module _ {V : Type 0} where
  abbrev pub values : List (ℕ × V) → List V
  values nodes = map (λ n. n.1) nodes

  -- What a step does to a queue of values. The answer for an empty queue is given later than it is found.
  unfoldable pub Effect : Label V → List V → List V → Type 0
  Effect silent xs ys = xs ≡ ys
  Effect (enqueues v) xs ys = ys ≡ xs ++ (v ∷ [])
  Effect (dequeues v) xs ys = xs ≡ v ∷ ys
  Effect finds_empty xs ys = (xs ≡ []) × (ys ≡ [])
  Effect answers_empty xs ys = xs ≡ ys

  abbrev pub Refines : ℕ → Memory V → List (ℕ × V) → Label V → Memory V → Local V → Type 0
  Refines i m nodes label m' l' =
      (w' : V) × (nodes' : List (ℕ × V)) × Good m' w' nodes'
      × Relies i m' l'
      × ((j : ℕ) → j ≢ i → Evolves j m m')
      × Effect label (values nodes) (values nodes')

  unchanged : (j : ℕ) (m : Memory V) → Evolves j m m
  unchanged j m =
      still j m m (omega arith) refl refl (λ a node lt at. (node, at, Same-refl node))
        (λ a node at own. at)

  module _ (i : ℕ) (m : Memory V) (w : V) (nodes : List (ℕ × V)) (g : Good m w nodes) where
    -- A step that only looks.
    looks : (l' : Local V) → Relies i m l' → Refines i m nodes silent m l'
    unfolding Effect
    looks l' r = (w, nodes, g, r, (λ j ne. unchanged j m), refl)

    -- A node that is there and was published.
    Known-On : (t : ℕ) → On t ((m.head, w) ∷ nodes) → Known m t
    unfolding Known published
    Known-On t on =
        let (v, n, at) = On-shared m.heap (some m.head) ((m.head, w) ∷ nodes) t g.chain on in
        (
          below m w nodes t _ g at,
          λ node e. ap (λ (x : Node V). published x.status) (some-injective node _ (sym e ∙ at)),
        )

    LinksIf-next :
        (t : ℕ) (node : Node V) (n : Option ℕ)
        → m.heap t ≡ some node
        → node.next ≡ n
        → LinksIf m t n
    unfolding LinksIf Links
    LinksIf-next t node none at e = tt
    LinksIf-next t node (some b) at e =
        λ other at'. ap (λ (x : Node V). x.next) (some-injective other node (sym at' ∙ at)) ∙ e

    checks :
        (a t : ℕ) (n : Option ℕ)
        → Relies i m (linking_next a t n)
        → Refines i m nodes silent m (after_check a t n)
    unfolding Relies after_check LinksIf
    checks a t none (o, k, l) = looks (appending a t) (o, k)
    checks a t (some b) (o, k, l) = looks (helping a t b) (o, k, l)

    -- The tail goes on to the node after it.
    swings :
        (t b : ℕ) (l' : Local V)
        → m.tail ≡ t
        → Links m t b
        → (Relies i m l' → Relies i (record m { tail = b }) l')
        → Relies i m l'
        → Refines i m nodes silent (record m { tail = b }) l'
    unfolding Effect
    swings t b l' e links keep r =
        let (g', on) = swung-Good b m w nodes g (subst (λ x. Links m x b) (sym e) links) in
        (w, nodes, g', keep r, (λ j ne. swung-Evolves b j m w nodes g on), refl)

    -- A null `next` of a node that was the head: it is the head still, and nothing is after it.
    finds :
        (h : ℕ) (node : Node V) → WasHead m h → m.heap h ≡ some node → node.next ≡ none → nodes ≡ []
    unfolding WasHead Chain
    finds h node (inl top) at stop =
        let (e, n, at_h, c) = g.chain in
        let shape = some-injective node _ (sym at ∙ ap m.heap (sym top) ∙ at_h) in
        Chain-end m.heap n nodes c (sym (ap (λ (x : Node V). x.next) shape) ∙ stop)
    finds h node (inr gone) at stop = absurd (g.taken_linked h node at (gone node at) stop)

    next_reads :
        (h t : ℕ) (node : Node V) (n : Option ℕ)
        → Relies i m (taking_tail h t)
        → m.heap h ≡ some node
        → node.next ≡ n
        → Refines i m nodes (seen n) m (taking_next h t n)
    unfolding Effect Relies seen
    next_reads h t node none (k, was, past) at e =
        let stop = finds h node was at e in
        (
          w,
          nodes,
          g,
          (k, was, past, LinksIf-next h node none at e),
          (λ j ne. unchanged j m),
          (ap values stop, ap values stop),
        )
    next_reads h t node (some b) (k, was, past) at e =
        looks (taking_next h t (some b)) (k, was, past, LinksIf-next h node (some b) at e)

  pub Move-Refines :
      (i : ℕ) (m : Memory V) (l : Local V) (label : Label V) (m' : Memory V) (l' : Local V) (w : V)
      (nodes : List (ℕ × V))
      → Good m w nodes
      → Move false i m l label m' l'
      → Relies i m l
      → Refines i m nodes label m' l'
  unfolding Relies Effect Known WasHead Past HasValue Links LinksIf Owns On published
  Move-Refines i m l label m' l' w nodes g (new_node v a free new) r =
      let above : m.next_address ≤ a = ground (arith, new) in
      (
        w,
        nodes,
        grown-Good i a v m w nodes g above,
        (v, update_same a _ m.heap),
        (λ j ne. grown-Evolves i j a v m w nodes g above),
        refl,
      )
  Move-Refines i m (linking a) label m' l' w nodes g load_tail r =
      looks i m w nodes g (linking_tail a m.tail) (r, Known-On i m w nodes g m.tail g.tail_on)
  Move-Refines i m (linking_tail a t) label m' l' w nodes g (load_next node at) (o, k) =
      looks i m w nodes g (linking_next a t node.next)
        (o, k, LinksIf-next i m w nodes g t node node.next at refl)
  Move-Refines i m (linking_next a t n) label m' l' w nodes g (check_tail e) r =
      checks i m w nodes g a t n r
  Move-Refines i m (linking_next a t n) label m' l' w nodes g (tail_moved ne) r =
      looks i m w nodes g (linking a) r.0
  Move-Refines i m (appending a t) label m' l' w nodes g (append v last at ends own) (o, k) = (
    w,
    nodes ++ ((a, v) ∷ []),
    appended-Good i a t v last m w nodes g k at ends own,
    (
      (
        k.0,
        λ node e.
            ap (λ (x : Node V). published x.status)
              (some-injective node _
                (sym e ∙ update_same t (some (record last { next = some a })) _))
            ∙ k.1 last at,
      ),
      λ node e.
          ap (λ (x : Node V). x.next)
            (some-injective node _
              (sym e ∙ update_same t (some (record last { next = some a })) _)),
    ),
    (λ j ne. appended-Evolves i a t v last m w nodes g k at ends own j ne),
    map-append (λ (n : ℕ × V). n.1) nodes ((a, v) ∷ []),
  )
  Move-Refines i m (appending a t) label m' l' w nodes g (append_fails node at) (o, k) =
      looks i m w nodes g (linking a) o
  Move-Refines i m (helping a t b) label m' l' w nodes g (help e) (o, k, links) =
      swings i m w nodes g t b (linking a) e links (λ x. x) o
  Move-Refines i m (helping a t b) label m' l' w nodes g (help_fails e) (o, k, links) =
      looks i m w nodes g (linking a) o
  Move-Refines i m (swinging a t) label m' l' w nodes g (swing e) (k, links) =
      swings i m w nodes g t a idle e links (λ x. x) tt
  Move-Refines i m (swinging a t) label m' l' w nodes g (swing_fails e) r =
      looks i m w nodes g idle tt
  Move-Refines i m l label m' l' w nodes g call_dequeue r = looks i m w nodes g dequeuing tt
  Move-Refines i m l label m' l' w nodes g load_head r =
      looks i m w nodes g (taking_head m.head) (Known-On i m w nodes g m.head (inl refl), inl refl)
  Move-Refines i m (taking_head h) label m' l' w nodes g load_tail_again (k, was) =
      looks i m w nodes g (taking_tail h m.tail) (k, was, λ ne e same. ne (sym same))
  Move-Refines i m (taking_tail h t) label m' l' w nodes g (load_head_next node at) r =
      next_reads i m w nodes g h t node node.next r at refl
  Move-Refines i m (taking_next h t n) label m' l' w nodes g (head_moved ne) r =
      looks i m w nodes g dequeuing tt
  Move-Refines i m (taking_next h t n) label m' l' w nodes g (answer_empty e same) r =
      (w, nodes, g, tt, (λ j ne. unchanged j m), refl)
  Move-Refines i m (taking_next h t n) label m' l' w nodes g (look_again e ne) r =
      looks i m w nodes g dequeuing tt
  Move-Refines i m (taking_next h t (some b)) label m' l' w nodes g (lags e same)
        (k, was, past, links) =
      looks i m w nodes g (catching t b)
        (subst (Known m) same k, subst (λ x. Links m x b) same links)
  Move-Refines i m (catching t b) label m' l' w nodes g (catch_up e) (k, links) =
      swings i m w nodes g t b dequeuing e links (λ x. x) tt
  Move-Refines i m (catching t b) label m' l' w nodes g (catch_fails e) r =
      looks i m w nodes g dequeuing tt
  Move-Refines i m (taking_next h t (some b)) label m' l' w nodes g (has_next e ne)
        (k, was, past, links) =
      looks i m w nodes g (reading h b) (k, was, past ne, links)
  Move-Refines i m (reading h b) label m' l' w nodes g (read_value node at) (k, was, past, links) =
      looks i m w nodes g (taking h b node.value) (
        k,
        was,
        past,
        links,
        below m w nodes b node g at,
        λ other at'. ap (λ (x : Node V). x.value) (some-injective other node (sym at' ∙ at)),
      )
  Move-Refines i m (taking h b v) label m' l' w nodes g (take node top at)
        (k, was, past, links, lt, has) =
      let (rest, shape) = next-first m w nodes h b v node g top at links has in
      let g' = subst (Good m w) shape g in
      (
        v,
        rest,
        advanced-Good i h b v node m w rest g' top at past,
        (node.value, node.next, update_same h _ m.heap),
        (λ j ne. advanced-Evolves i h b v node m w rest g' top at j),
        ap values shape,
      )
  Move-Refines i m (taking h b v) label m' l' w nodes g take_fails r =
      looks i m w nodes g dequeuing tt
  Move-Refines i m (deleting h) label m' l' w nodes g delete (v, n, at) = (
    w,
    nodes,
    deleted-Good i h v n m w nodes g at,
    tt,
    (λ j ne. deleted-Evolves i j h v n m ne at),
    refl,
  )

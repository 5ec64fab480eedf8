-- ===== src/Sync/LockFreeQueue/Removal.antt =====
-- The exchange by which `dequeue` of a `LockFreeQueue` (src/sync/lockfree_structures.cpp) takes effect, and the
-- deletion of the node.
use cloud_fly_prlatform.Prelude.{
  ℕ, ◌≡◌, ◌≢◌, inl, inr, refl, sym, ap, subst, ◌∙◌, List, [], ◌∷◌, Option, some, none, arith,
}
use mathlib.Core.Option.{some-injective}
use cloud_fly_prlatform.Sync.LockFreeStack.{private_to, shared, taken_by, Node, update, published}
use cloud_fly_prlatform.Sync.LockFreeStack.Invariant.{
  update-other, Chain, Absent, Distinct, Chain-update, Absent-of_status,
}
use cloud_fly_prlatform.Sync.LockFreeQueue.{Memory, advanced}
use cloud_fly_prlatform.Sync.LockFreeQueue.Invariant.{
  taken, On, Links, WasHead, Past, HasValue, Good,
}
use cloud_fly_prlatform.Sync.LockFreeQueue.Evolution.{Same, Evolves}
use cloud_fly_prlatform.Sync.LockFreeQueue.Chains.{update-cases}
use cloud_fly_prlatform.Sync.LockFreeQueue.Moves.{Same-refl, below, still}
use cloud_fly_prlatform.Sync.LockFreeQueue.Exchanges.{status_of}

module _ {V : Type 0} where
  -- What the head's `next` is known to be comes first after it.
  pub next-first :
      (m : Memory V) (w : V) (nodes : List (ℕ × V)) (h b : ℕ) (v : V) (node : Node V)
      → Good m w nodes
      → m.head ≡ h
      → m.heap h ≡ some node
      → Links m h b
      → HasValue m b v
      → (rest : List (ℕ × V)) × (nodes ≡ (b, v) ∷ rest)
  unfolding Chain Links HasValue
  next-first m w [] h b v node g top at links has =
      let (e, n, at_h, c) = g.chain in
      let next_is = links _ (ap m.heap (sym top) ∙ at_h) in absurd (ground (arith, c, next_is))
  next-first m w ((d, u) ∷ rest) h b v node g top at links has =
      let (e, n, at_h, c) = g.chain in
      let next_is : n ≡ some b = links _ (ap m.heap (sym top) ∙ at_h) in
      let same : d ≡ b = some-injective d b (sym c.0 ∙ next_is) in
      let value_is : u ≡ v = has _ (ap m.heap (sym same) ∙ c.2) in
      (rest, ap (λ (p : ℕ × V). p ∷ rest) (λ k. (same k, value_is k)))

  -- The exchange of the head for the node after it.
  module _ (i h b : ℕ) (v : V) (node : Node V) (m : Memory V) (w : V) (rest : List (ℕ × V))
      (g : Good m w ((b, v) ∷ rest)) (top : m.head ≡ h) (at_h : m.heap h ≡ some node) where
    abbrev gone_node : Node V
    gone_node = record node { status = taken_by i }

    head_is :
        (n : Option ℕ) × (node ≡ record { value = w; next = n; status = shared }) × (n ≡ some b)
    unfolding Chain
    head_is =
        let (e, n, at, c) = g.chain in
        (n, some-injective node _ (sym at_h ∙ ap m.heap (sym top) ∙ at), c.0)

    was_shared : node.status ≡ shared
    was_shared = ap (λ (x : Node V). x.status) head_is.1

    pub advanced-Good : Past m h → Good (advanced i h b node m) v rest
    unfolding Chain Distinct On Past taken
    advanced-Good past = record {
      chain =
          let (e, n, at, c) = g.chain in
          Chain-update m.heap (some b) ((b, v) ∷ rest) h (some gone_node)
            (subst (λ x. Absent x ((b, v) ∷ rest)) top g.distinct.0)
            (subst (λ k. Chain m.heap k ((b, v) ∷ rest)) c.0 c);
      distinct = g.distinct.1;
      shared_on = λ x nd at is. elim (update-cases h (some gone_node) m.heap x (some nd) at) [
        | inl (same, e) ↦ let s = ap taken (status_of gone_node nd e ∙ is) in cc
        | inr (ne, e) ↦ elim (g.shared_on x nd e is) [
          | inl e' ↦ absurd (ne (sym e' ∙ top))
          | inr on ↦ on
        ]
      ];
      taken_linked = λ x nd at is. elim (update-cases h (some gone_node) m.heap x (some nd) at) [
        | inl (same, e) ↦ λ stop.
            let next_is : node.next ≡ some b = ap (λ (y : Node V). y.next) head_is.1 ∙ head_is.2 in
            let kept : node.next ≡ nd.next =
              ap (λ (y : Node V). y.next) (some-injective gone_node nd e) in
            ground (arith, next_is, kept, stop)
        | inr (ne, e) ↦ g.taken_linked x nd e is
      ];
      tail_on = elim g.tail_on [ inl e ↦ absurd (past top (sym e ∙ top)) | inr on ↦ on ];
      unused = λ x le.
          let lt = below m w ((b, v) ∷ rest) h node g at_h in
          update-other h (some gone_node) m.heap x (λ e. omega arith) ∙ g.unused x le;
    }

    pub advanced-Evolves : (j : ℕ) → Evolves j m (advanced i h b node m)
    unfolding Chain Distinct Absent On Same taken published WasHead Past
    advanced-Evolves j = record {
      grows = omega arith;
      keeps = λ x nd lt at. elim (update-cases h (some gone_node) m.heap x (some nd) at) [
        | inl (same, e) ↦
            let q = some-injective gone_node nd e in
            (
              node,
              ap m.heap same ∙ at_h,
              (
                (λ p. sym (ap (λ (y : Node V). published y.status) q)),
                (λ p. sym (ap (λ (y : Node V). taken y.status) q)),
                ap (λ (y : Node V). y.value) q,
                λ c l. sym (ap (λ (y : Node V). y.next) q) ∙ l,
              ),
            )
        | inr (ne, e) ↦ (nd, e, Same-refl nd)
      ];
      owned = λ x u at.
          update-other h (some gone_node) m.heap x (λ e.
            let s = sym (status_of _ node (sym at ∙ ap m.heap e ∙ at_h)) in
            let c = sym was_shared ∙ s in cc)
          ∙ at;
      retired = λ x u n at.
          update-other h (some gone_node) m.heap x (λ e.
            let s = sym (status_of _ node (sym at ∙ ap m.heap e ∙ at_h)) in
            let c = sym was_shared ∙ s in cc)
          ∙ at;
      heads = λ x lt was. inr (λ nd at.
          elim (update-cases h (some gone_node) m.heap x (some nd) at) [
            | inl (same, e) ↦ sym (ap taken (status_of gone_node nd e))
            | inr (ne, e) ↦ elim was [ inl e' ↦ absurd (ne (sym e' ∙ top)) | inr gone ↦ gone nd e ]
          ]);
      pasts = λ x lt was past e. elim was [
        | inl e' ↦ absurd (g.distinct.0.0 (e ∙ sym e'))
        | inr gone ↦
            let (t, n, at, c) = g.chain in let s = gone _ (ap m.heap (sym e) ∙ c.2) in absurd (cc)
      ];
    }

  pub deleted-Good :
      (i h : ℕ) (v : V) (n : Option ℕ) (m : Memory V) (w : V) (nodes : List (ℕ × V))
      → Good m w nodes
      → m.heap h ≡ some (record { value = v; next = n; status = taken_by i })
      → Good (record m { heap = update h none m.heap }) w nodes
  deleted-Good i h v n m w nodes g here = record {
    chain =
        Chain-update m.heap (some m.head) ((m.head, w) ∷ nodes) h none
          (Absent-of_status m.heap (some m.head) ((m.head, w) ∷ nodes) h
            (λ u k e. let s = status_of _ _ (sym here ∙ e) in cc) g.chain)
          g.chain;
    distinct = g.distinct;
    shared_on = λ b node at is. elim (update-cases h none m.heap b (some node) at) [
      | inl (same, e) ↦ absurd (ground (arith, e))
      | inr (ne, e) ↦ g.shared_on b node e is
    ];
    taken_linked = λ b node at is. elim (update-cases h none m.heap b (some node) at) [
      | inl (same, e) ↦ absurd (ground (arith, e))
      | inr (ne, e) ↦ g.taken_linked b node e is
    ];
    tail_on = g.tail_on;
    unused = λ b le.
        let lt = below m w nodes h _ g here in
        update-other h none m.heap b (λ e. omega arith) ∙ g.unused b le;
  }

  pub deleted-Evolves :
      (i j h : ℕ) (v : V) (n : Option ℕ) (m : Memory V)
      → j ≢ i
      → m.heap h ≡ some (record { value = v; next = n; status = taken_by i })
      → Evolves j m (record m { heap = update h none m.heap })
  deleted-Evolves i j h v n m other here =
      still j m (record m { heap = update h none m.heap }) (omega arith) refl refl
        (λ b node' lt at'. elim (update-cases h none m.heap b (some node') at') [
          | inl (same, e) ↦ absurd (ground (arith, e))
          | inr (ne, e) ↦ (node', e, Same-refl node')
        ])
        (λ b node at mine.
          update-other h none m.heap b (λ e.
            let s = sym (status_of node _ (sym at ∙ ap m.heap e ∙ here)) in
            elim mine [
              | inl p ↦ let c : taken_by i ≡ private_to j = s ∙ p in cc
              | inr p ↦
                  let c : taken_by i ≡ taken_by j = s ∙ p in other (let k : i ≡ j = cc in sym k)
            ])
          ∙ at)

-- ===== src/Sync/LockFreeQueue/Exchanges.antt =====
-- The exchange by which `enqueue` of a `LockFreeQueue` (src/sync/lockfree_structures.cpp) takes effect.
use cloud_fly_prlatform.Prelude.{
  ℕ, ◌≡◌, ◌≢◌, ◌⊎◌, inl, inr, refl, sym, ap, subst, ◌∙◌, List, [], ◌∷◌, ◌++◌, Option, some, none,
  arith,
}
use mathlib.Core.Option.{some-injective}
use cloud_fly_prlatform.Sync.LockFreeStack.{private_to, shared, taken_by, Node, update, published}
use cloud_fly_prlatform.Sync.LockFreeStack.Invariant.{update-other, Absent, Absent-of_status}
use cloud_fly_prlatform.Sync.LockFreeQueue.{Memory, appended}
use cloud_fly_prlatform.Sync.LockFreeQueue.Invariant.{taken, On, Known, Good}
use cloud_fly_prlatform.Sync.LockFreeQueue.Evolution.{Same, Evolves}
use cloud_fly_prlatform.Sync.LockFreeQueue.Chains.{
  On-append, On-append_last, Distinct-append, Chain-append, update-cases,
}
use cloud_fly_prlatform.Sync.LockFreeQueue.Moves.{Same-refl, below, still, last-shared}

module _ {V : Type 0} where
  pub status_of : (node : Node V) (x : Node V) → some node ≡ some x → node.status ≡ x.status
  status_of node x e = ap (λ (y : Node V). y.status) (some-injective node x e)

  -- The exchange of the last node's `next` for the new node `a`.
  module _ (i a t : ℕ) (v : V) (last : Node V) (m : Memory V) (w : V) (nodes : List (ℕ × V))
      (g : Good m w nodes) (known : Known m t) (at_t : m.heap t ≡ some last)
      (ends : last.next ≡ none)
      (own : m.heap a ≡ some (record { value = v; next = none; status = private_to i })) where
    abbrev fresh : Node V
    fresh = record { value = v; next = none; status = private_to i }

    abbrev published_node : Node V
    published_node = record { value = v; next = none; status = shared }

    abbrev linked : Node V
    linked = record last { next = some a }

    is_shared : last.status ≡ shared
    is_shared = last-shared m w nodes t last g known at_t ends

    t-On : On t ((m.head, w) ∷ nodes)
    t-On = g.shared_on t last at_t is_shared

    a-Absent : Absent a ((m.head, w) ∷ nodes)
    a-Absent =
        Absent-of_status m.heap (some m.head) ((m.head, w) ∷ nodes) a
          (λ u n e. let s = status_of fresh _ (sym own ∙ e) in cc) g.chain

    -- What is read after the exchange: the new node, the one before it, or what was there.
    appended-cases :
        (b : ℕ) (o : Option (Node V))
        → (appended a t v last m).heap b ≡ o
        → ((b ≡ t) × (some linked ≡ o))
          ⊎ (((b ≡ a) × (some published_node ≡ o)) ⊎ ((b ≢ t) × (b ≢ a) × (m.heap b ≡ o)))
    appended-cases b o e =
        elim (update-cases t (some linked) (update a (some published_node) m.heap) b o e) [
          | inl (same, is) ↦ inl (same, is)
          | inr (ne, e') ↦ elim (update-cases a (some published_node) m.heap b o e') [
            | inl (same, is) ↦ inr (inl (same, is))
            | inr (ne', e'') ↦ inr (inr (ne, ne', e''))
          ]
        ]

    elsewhere : (b : ℕ) → b ≢ t → b ≢ a → (appended a t v last m).heap b ≡ m.heap b
    elsewhere b nt na =
        update-other t (some linked) (update a (some published_node) m.heap) b nt
        ∙ update-other a (some published_node) m.heap b na

    pub appended-Good : Good (appended a t v last m) w (nodes ++ ((a, v) ∷ []))
    unfolding taken
    appended-Good = record {
      chain =
          Chain-append m.heap (some m.head) ((m.head, w) ∷ nodes) t a v last g.chain t-On at_t ends
            a-Absent;
      distinct = Distinct-append a v ((m.head, w) ∷ nodes) a-Absent g.distinct;
      shared_on = λ b node at is. elim (appended-cases b (some node) at) [
        | inl (same, e) ↦
            subst (λ x. On x ((m.head, w) ∷ (nodes ++ ((a, v) ∷ [])))) (sym same)
              (On-append t a v ((m.head, w) ∷ nodes) t-On)
        | inr (inl (same, e)) ↦
            subst (λ x. On x ((m.head, w) ∷ (nodes ++ ((a, v) ∷ [])))) (sym same)
              (On-append_last a v ((m.head, w) ∷ nodes))
        | inr (inr (nt, na, e)) ↦ On-append b a v ((m.head, w) ∷ nodes) (g.shared_on b node e is)
      ];
      taken_linked = λ b node at is. elim (appended-cases b (some node) at) [
        | inl (same, e) ↦ let s = ap taken (sym is_shared ∙ status_of linked node e) in cc
        | inr (inl (same, e)) ↦ let s = ap taken (status_of published_node node e) in cc
        | inr (inr (nt, na, e)) ↦ g.taken_linked b node e is
      ];
      tail_on = On-append m.tail a v ((m.head, w) ∷ nodes) g.tail_on;
      unused = λ b le.
          let lt_t = below m w nodes t last g at_t in
          let lt_a = below m w nodes a fresh g own in
          elsewhere b (λ e. omega arith) (λ e. omega arith) ∙ g.unused b le;
    }

    pub appended-Evolves : (j : ℕ) → j ≢ i → Evolves j m (appended a t v last m)
    unfolding Same taken published
    appended-Evolves j other =
        still j m (appended a t v last m) (omega arith) refl refl
          (λ b node' lt at'. elim (appended-cases b (some node') at') [
            | inl (same, e) ↦
                let q = some-injective linked node' e in
                (
                  last,
                  ap m.heap same ∙ at_t,
                  (
                    (λ p. sym (ap (λ (x : Node V). published x.status) q) ∙ p),
                    (λ p. sym (ap (λ (x : Node V). taken x.status) q) ∙ p),
                    ap (λ (x : Node V). x.value) q,
                    λ c l. absurd (ground (arith, ends, l)),
                  ),
                )
            | inr (inl (same, e)) ↦
                let q = some-injective published_node node' e in
                (
                  fresh,
                  ap m.heap same ∙ own,
                  (
                    (λ p. cc),
                    (λ p. cc),
                    ap (λ (x : Node V). x.value) q,
                    λ c l. absurd (ground (arith, l)),
                  ),
                )
            | inr (inr (nt, na, e)) ↦ (node', e, Same-refl node')
          ])
          (λ b node at mine.
            elsewhere b
              (λ e.
                let s = sym (status_of node last (sym at ∙ ap m.heap e ∙ at_t)) in
                elim mine [
                  | inl p ↦ let c = sym is_shared ∙ s ∙ p in cc
                  | inr p ↦ let c = sym is_shared ∙ s ∙ p in cc
                ])
              (λ e.
                let s = sym (status_of node fresh (sym at ∙ ap m.heap e ∙ own)) in
                elim mine [
                  | inl p ↦
                      let c : private_to i ≡ private_to j = s ∙ p in
                      other (let k : i ≡ j = cc in sym k)
                  | inr p ↦ let c : private_to i ≡ taken_by j = s ∙ p in cc
                ])
            ∙ at)

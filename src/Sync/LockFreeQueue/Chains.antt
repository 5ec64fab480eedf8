-- ===== src/Sync/LockFreeQueue/Chains.antt =====
-- The list of nodes of a `LockFreeQueue` (src/sync/lockfree_structures.cpp): where it ends, and how it grows.
use cloud_fly_prlatform.Prelude.{
  ℕ, ◌≡◌, ◌≢◌, ◌⊎◌, inl, inr, refl, sym, ap, subst, ◌∙◌, List, [], ◌∷◌, ◌++◌, Option, some, none,
  arith, ℕ_discrete,
}
use mathlib.Core.Option.{some-injective}
use cloud_fly_prlatform.Sync.LockFreeStack.{shared, Node, update}
use cloud_fly_prlatform.Sync.LockFreeStack.Invariant.{
  update_same, update-other, Heap, Chain, Absent, Distinct,
}
use cloud_fly_prlatform.Sync.LockFreeQueue.Invariant.{On}

module _ {V : Type 0} where
  pub On-shared :
      (heap : Heap V) (top : Option ℕ) (nodes : List (ℕ × V)) (a : ℕ)
      → Chain heap top nodes
      → On a nodes
      → (v : V) × (n : Option ℕ) × (heap a ≡ some (record { value = v; next = n; status = shared }))
  unfolding Chain On
  On-shared heap top [] a c on = elim on [ ]
  On-shared heap top ((b, v) ∷ nodes) a (e, n, at, c) (inl same) = (v, n, ap heap (sym same) ∙ at)
  On-shared heap top ((b, v) ∷ nodes) a (e, n, at, c) (inr on) = On-shared heap n nodes a c on

  -- The `next` of a node of the list is further on.
  pub On-next :
      (heap : Heap V) (top : Option ℕ) (a : ℕ) (v : V) (nodes : List (ℕ × V)) (t b : ℕ)
      (node : Node V)
      → Chain heap top ((a, v) ∷ nodes)
      → On t ((a, v) ∷ nodes)
      → heap t ≡ some node
      → node.next ≡ some b
      → On b nodes
  unfolding Chain On
  On-next heap top a v [] t b node (e, n, at, c) (inl same) here links =
      let shape = some-injective _ _ (sym here ∙ ap heap (sym same) ∙ at) in
      let linked = sym links ∙ ap (λ (x : Node V). x.next) shape ∙ c in
      absurd (ground (arith, linked))
  On-next heap top a v ((d, w) ∷ nodes) t b node (e, n, at, c) (inl same) here links =
      let shape = some-injective _ _ (sym here ∙ ap heap (sym same) ∙ at) in
      inl (some-injective d b (sym c.0 ∙ sym (ap (λ (x : Node V). x.next) shape) ∙ links))
  On-next heap top a v [] t b node (e, n, at, c) (inr on) here links = elim on [ ]
  On-next heap top a v ((d, w) ∷ nodes) t b node (e, n, at, c) (inr on) here links =
      inr (On-next heap n d w nodes t b node c on here links)

  pub On-ne : (a b : ℕ) (nodes : List (ℕ × V)) → Absent a nodes → On b nodes → b ≢ a
  unfolding Absent On
  On-ne a b [] out on same = elim on [ ]
  On-ne a b ((d, w) ∷ nodes) (ne, out) (inl e) same = ne (e ∙ same)
  On-ne a b ((d, w) ∷ nodes) (ne, out) (inr on) same = On-ne a b nodes out on same

  pub On-append :
      (a b : ℕ) (v : V) (nodes : List (ℕ × V)) → On a nodes → On a (nodes ++ ((b, v) ∷ []))
  unfolding On
  On-append a b v [] on = elim on [ ]
  On-append a b v ((d, w) ∷ nodes) (inl e) = inl e
  On-append a b v ((d, w) ∷ nodes) (inr on) = inr (On-append a b v nodes on)

  pub On-append_last : (a : ℕ) (v : V) (nodes : List (ℕ × V)) → On a (nodes ++ ((a, v) ∷ []))
  unfolding On
  On-append_last a v [] = inl refl
  On-append_last a v ((d, w) ∷ nodes) = inr (On-append_last a v nodes)

  Absent-append :
      (a b : ℕ) (v : V) (nodes : List (ℕ × V))
      → Absent a nodes
      → b ≢ a
      → Absent a (nodes ++ ((b, v) ∷ []))
  unfolding Absent
  Absent-append a b v [] out ne = (ne, tt)
  Absent-append a b v ((d, w) ∷ nodes) (ne', out) ne = (ne', Absent-append a b v nodes out ne)

  pub Distinct-append :
      (a : ℕ) (v : V) (nodes : List (ℕ × V))
      → Absent a nodes
      → Distinct nodes
      → Distinct (nodes ++ ((a, v) ∷ []))
  unfolding Distinct Absent
  Distinct-append a v [] out d = (tt, tt)
  Distinct-append a v ((b, w) ∷ nodes) (ne, out) (out_b, d) =
      (Absent-append b a v nodes out_b (λ e. ne (sym e)), Distinct-append a v nodes out d)

  pub Chain-end :
      (heap : Heap V) (top : Option ℕ) (nodes : List (ℕ × V))
      → Chain heap top nodes
      → top ≡ none
      → nodes ≡ []
  unfolding Chain
  Chain-end heap top [] c e = refl
  Chain-end heap top ((d, w) ∷ nodes) c e = let q = c.0 in absurd (ground (arith, e, q))

  -- The node at the end gets a successor.
  pub Chain-append :
      (heap : Heap V) (top : Option ℕ) (nodes : List (ℕ × V)) (t a : ℕ) (v : V) (last : Node V)
      → Chain heap top nodes
      → On t nodes
      → heap t ≡ some last
      → last.next ≡ none
      → Absent a nodes
      → Chain
          (update t
            (some (record last { next = some a }))
            (update a (some (record { value = v; next = none; status = shared })) heap))
          top
          (nodes ++ ((a, v) ∷ []))
  unfolding Chain On Absent
  Chain-append heap top [] t a v last c on here ends out = elim on [ ]
  Chain-append heap top ((d, w) ∷ nodes) t a v last (e, n, at, c) on here ends (ne, out) =
      let fresh : Node V = record { value = v; next = none; status = shared } in
      let linked : Node V = record last { next = some a } in
      let heap1 = update a (some fresh) heap in
      elim (ℕ_discrete d t) [
        | yes same ↦
            let shape : last ≡ record { value = w; next = n; status = shared } =
              some-injective last _ (sym here ∙ ap heap (sym same) ∙ at) in
            let stop : nodes ≡ [] =
              Chain-end heap n nodes c (sym (ap (λ (x : Node V). x.next) shape) ∙ ends) in
            let heap2 = update t (some linked) heap1 in
            (
              e,
              some a,
              ap heap2 same
                  ∙ update_same t (some linked) heap1
                  ∙ ap (λ (x : Node V). some (record x { next = some a })) shape,
              subst (λ ns. Chain heap2 (some a) (ns ++ ((a, v) ∷ []))) (sym stop)
                  (
                    refl,
                    none,
                    update-other t (some linked) heap1 a (λ q. ne (same ∙ sym q))
                        ∙ update_same a (some fresh) heap,
                    refl,
                  ),
            )
        | no other ↦ (
          e,
          n,
          update-other t (some linked) heap1 d other ∙ update-other a (some fresh) heap d ne ∙ at,
          Chain-append heap n nodes t a v last c
              (elim on [ inl e' ↦ absurd (other e') | inr on' ↦ on' ]) here ends out,
        )
      ]

-- What is read after a change at one place.
pub update-cases :
    {A : Type 0} (x : ℕ) (a : A) (f : ℕ → A) (y : ℕ) (o : A)
    → update x a f y ≡ o
    → ((y ≡ x) × (a ≡ o)) ⊎ ((y ≢ x) × (f y ≡ o))
update-cases x a f y o e = elim (ℕ_discrete y x) [
  | yes same ↦ inl (same, sym (update_same x a f) ∙ ap (update x a f) (sym same) ∙ e)
  | no ne ↦ inr (ne, sym (update-other x a f y ne) ∙ e)
]

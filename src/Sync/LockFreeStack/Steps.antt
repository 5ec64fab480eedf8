-- ===== src/Sync/LockFreeStack/Steps.antt =====
-- Each step of a thread on a `LockFreeStack` (src/sync/lockfree_structures.cpp) keeps the nodes as they should
-- be.
use cloud_fly_prlatform.Prelude.{
  ℕ, suc, max, ◌≤◌, ◌≡◌, refl, sym, ap, subst, ◌∙◌, List, [], ◌∷◌, Option, some, none, arith,
  ℕ_discrete,
}
use mathlib.Core.Option.{some-injective}
use cloud_fly_prlatform.Sync.LockFreeStack.{
  Status, private_to, taken_by, Node, idle, pushing, loaded, exchanging, deleting, State, update,
  published, pops, load_label, after_load, goes,
}
use cloud_fly_prlatform.Sync.LockFreeStack.Invariant.{
  update_same, update-other, Chain, Absent, Distinct, Relies, Good, Chain-update, Absent-of_status,
  Relies-update,
}
use cloud_fly_prlatform.Sync.LockFreeStack.Frames.{
  private-other, taken-other, shared-other, values, Effect, Refines, Relies-all, below, others-rely,
  still_unused, goes-Good,
}

module _ {V : Type 0} where
  -- `new` gives a node that nothing else knows of.
  pub push_start-Good :
      (i : ℕ) (s : State V) (nodes : List (ℕ × V)) (v : V) (a : ℕ)
      → Good s nodes
      → s.next_address ≤ a
      → Good
          (record s {
            heap =
                update a (some (record { value = v; next = s.head; status = private_to i })) s.heap;
            next_address = max s.next_address (suc a);
            threads = update i (pushing a) s.threads;
          })
          nodes
  unfolding Relies
  push_start-Good i s nodes v a g above =
      let free : s.heap a ≡ none = g.unused a above in
      let top = max s.next_address (suc a) in
      let new : Node V = record { value = v; next = s.head; status = private_to i } in
      let heap' = update a (some new) s.heap in
      record {
        chain =
            Chain-update s.heap s.head nodes a (some new)
              (Absent-of_status s.heap s.head nodes a (λ w n e. ground (arith, free, e)) g.chain)
              g.chain;
        distinct = g.distinct;
        unused = λ b le.
            update-other a (some new) s.heap b (λ e. omega arith) ∙ g.unused b (omega arith);
        relies =
            Relies-all i heap' top s.threads (pushing a)
              (v, s.head, update_same a (some new) s.heap)
              (λ j ne.
                Relies-update j s.heap s.next_address top a (some new) (s.threads j) (omega arith)
                  (λ w n e. ground (arith, free, e)) (λ w n e. ground (arith, free, e))
                  (λ n lt e. absurd (omega arith)) (g.relies j));
      }

  pub push_publish-Good :
      (i : ℕ) (s : State V) (nodes : List (ℕ × V)) (a : ℕ) (v : V)
      → Good s nodes
      → s.heap a ≡ some (record { value = v; next = s.head; status = private_to i })
      → Good
          (record s {
            heap =
                update a
                  (some (record { value = v; next = s.head; status = Status.shared }))
                  s.heap;
            head = some a;
            threads = update i idle s.threads;
          })
          ((a, v) ∷ nodes)
  unfolding Chain Distinct Relies published
  push_publish-Good i s nodes a v g at =
      let old : Node V = record { value = v; next = s.head; status = private_to i } in
      let new : Node V = record { value = v; next = s.head; status = Status.shared } in
      let out : Absent a nodes =
        Absent-of_status s.heap s.head nodes a (λ w n e. ground (arith, at, e)) g.chain in
      record {
        chain = (
          refl,
          s.head,
          update_same a (some new) s.heap,
          Chain-update s.heap s.head nodes a (some new) out g.chain,
        );
        distinct = (out, g.distinct);
        unused = still_unused s nodes a old (some new) g at;
        relies =
            Relies-all i (update a (some new) s.heap) s.next_address s.threads idle tt
              (others-rely i s nodes a old (some new) g at (private-other i) (λ x e t. cc));
      }

  pub push_retry-Good :
      (i : ℕ) (s : State V) (nodes : List (ℕ × V)) (a : ℕ) (v : V) (n : Option ℕ)
      → Good s nodes
      → s.threads i ≡ pushing a
      → s.heap a ≡ some (record { value = v; next = n; status = private_to i })
      → Good
          (record s {
            heap =
                update a (some (record { value = v; next = s.head; status = private_to i })) s.heap;
          })
          nodes
  unfolding Relies published
  push_retry-Good i s nodes a v n g here at =
      let old : Node V = record { value = v; next = n; status = private_to i } in
      let new : Node V = record { value = v; next = s.head; status = private_to i } in
      let out : Absent a nodes =
        Absent-of_status s.heap s.head nodes a (λ w n e. ground (arith, at, e)) g.chain in
      record {
        chain = Chain-update s.heap s.head nodes a (some new) out g.chain;
        distinct = g.distinct;
        unused = still_unused s nodes a old (some new) g at;
        relies = λ j. elim (ℕ_discrete j i) [
          | yes e ↦
              subst (λ k. Relies k (update a (some new) s.heap) s.next_address (s.threads k))
                (sym e)
                (subst (Relies i (update a (some new) s.heap) s.next_address) (sym here)
                  (v, s.head, update_same a (some new) s.heap))
          | no ne ↦ others-rely i s nodes a old (some new) g at (private-other i) (λ x e t. cc) j ne
        ];
      }

  -- A pop that has the head, or none.
  pub load-Refines :
      (i : ℕ) (s : State V) (nodes : List (ℕ × V)) (top : Option ℕ)
      → Good s nodes
      → s.head ≡ top
      → Refines nodes (load_label top) (goes s i (after_load top))
  unfolding Refines Chain Relies published after_load load_label Effect
  load-Refines i s [] none g e = ([], goes-Good i s [] idle g tt, (refl, refl))
  load-Refines i s [] (some h) g e = absurd (ground (arith, e, g.chain))
  load-Refines i s ((b, v) ∷ nodes) none g e = let c = g.chain.0 in absurd (ground (arith, e, c))
  load-Refines i s ((b, v) ∷ nodes) (some h) g e =
      let (top, n, at, c) = g.chain in
      let same : b ≡ h = some-injective b h (sym top ∙ e) in
      let at_h : s.heap h ≡ some (record { value = v; next = n; status = Status.shared }) =
        ap s.heap (sym same) ∙ at in
      let node : Node V = record { value = v; next = n; status = Status.shared } in
      (
        (b, v) ∷ nodes,
        goes-Good i s ((b, v) ∷ nodes) (loaded h) g (
          below s ((b, v) ∷ nodes) h node g at_h,
          λ x ex. ap (λ (y : Node V). published y.status) (some-injective x node (sym ex ∙ at_h)),
        ),
        refl,
      )

  pub pop_take-Good :
      (i : ℕ) (s : State V) (h : ℕ) (n : Option ℕ) (nodes : List (ℕ × V)) (node : Node V)
      → Good s nodes
      → s.threads i ≡ exchanging h n
      → s.head ≡ some h
      → s.heap h ≡ some node
      → Refines nodes (pops node.value) (record s {
        heap = update h (some (record node { status = taken_by i })) s.heap;
        head = n;
        threads = update i (deleting h) s.threads;
      })
  unfolding Refines Chain Distinct Relies published Effect
  pop_take-Good i s h n [] node g here top at = absurd (ground (arith, top, g.chain))
  pop_take-Good i s h n ((b, v) ∷ nodes) node g here top at =
      let (e, n0, at_b, c) = g.chain in
      let same : b ≡ h = some-injective b h (sym e ∙ top) in
      let shape : node ≡ record { value = v; next = n0; status = Status.shared } =
        some-injective node _ (sym at ∙ ap s.heap (sym same) ∙ at_b) in
      let (lt, r) = subst (Relies i s.heap s.next_address) here (g.relies i) in
      let (out, links) = r node at in
      let to_n : n0 ≡ n = sym (ap (λ (x : Node V). x.next) shape) ∙ links in
      let held : node.status ≡ Status.shared = ap (λ (x : Node V). x.status) shape in
      let new : Node V = record node { status = taken_by i } in
      (
        nodes,
        record {
          chain =
              Chain-update s.heap n nodes h (some new)
                (subst (λ k. Absent k nodes) same g.distinct.0)
                (subst (λ k. Chain s.heap k nodes) to_n c);
          distinct = g.distinct.1;
          unused = still_unused s ((b, v) ∷ nodes) h node (some new) g at;
          relies =
              Relies-all i (update h (some new) s.heap) s.next_address s.threads (deleting h)
                (node.value, node.next, update_same h (some new) s.heap)
                (others-rely i s ((b, v) ∷ nodes) h node (some new) g at
                  (λ j ne. (
                    (λ q. (shared-other j).0 (sym held ∙ q)),
                    λ q. (shared-other j).1 (sym held ∙ q),
                  ))
                  (λ x ex t.
                    let q : new ≡ x = some-injective new x ex in
                    (
                      sym (ap (λ (y : Node V). published y.status) q),
                      ap (λ (y : Node V). y.next) q,
                    )));
        },
        ap (λ (x : Node V). x.value ∷ values nodes) (sym shape),
      )

  pub pop_delete-Good :
      (i : ℕ) (s : State V) (nodes : List (ℕ × V)) (h : ℕ)
      → Good s nodes
      → s.threads i ≡ deleting h
      → Good (record s { heap = update h none s.heap; threads = update i idle s.threads }) nodes
  unfolding Relies published
  pop_delete-Good i s nodes h g here =
      let (v, n, at) = subst (Relies i s.heap s.next_address) here (g.relies i) in
      let old : Node V = record { value = v; next = n; status = taken_by i } in
      record {
        chain =
            Chain-update s.heap s.head nodes h none
              (Absent-of_status s.heap s.head nodes h (λ w m e. ground (arith, at, e)) g.chain)
              g.chain;
        distinct = g.distinct;
        unused = still_unused s nodes h old none g at;
        relies = Relies-all i (update h none s.heap) s.next_address s.threads idle tt (
            others-rely i s nodes h old none g at (taken-other i)
              (λ x e t. absurd (ground (arith, e))));
      }

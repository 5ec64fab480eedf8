-- ===== src/Sync/HierarchicalLock/Exclusion.antt =====
-- One lock of `HierarchicalLock` (src/sync/advanced_synchronization.cpp) that any number of threads use.
use cloud_fly_prlatform.Prelude.{ℕ, ◌<◌, ◌≡◌, ◌≢◌, refl, sym, ap, subst, ◌∙◌, arith, ℕ_discrete}
use cloud_fly_prlatform.Sync.LockFreeStack.{update}
use cloud_fly_prlatform.Sync.LockFreeStack.Invariant.{update_same, update-other}
use cloud_fly_prlatform.Sync.HierarchicalLock.{
  Place, outside, spinning, entering, leaving, State, Event, Step, lock_call, lock_throws,
  lock_takes, lock_spins, lock_returns, unlock_throws, unlock_stores, unlock_returns,
}

-- A thread has the lock from its exchange in `lock` to its store in `unlock`.
unfoldable pub HoldsAt : Place → ℕ → Type 0
HoldsAt outside current = current ≢ 0
HoldsAt (spinning k hierarchy) current = current ≢ 0
HoldsAt (entering k hierarchy) current = Unit {0}
HoldsAt (leaving k) current = ⊥

abbrev pub Holds : State → ℕ → Type 0
Holds s i = HoldsAt (s.places i) (s.current_hierarchy i)

unfoldable pub PositiveAt : Place → Type 0
PositiveAt outside = Unit {0}
PositiveAt (spinning k hierarchy) = 0 < hierarchy
PositiveAt (entering k hierarchy) = 0 < hierarchy
PositiveAt (leaving k) = Unit {0}

-- The call that the step belongs to is one of lock `k`.
unfoldable pub Concerns : (k : ℕ) {i : ℕ} {s t : State} {e : Event} → Step i s e t → Type 0
Concerns k (lock_call j h at up) = j ≡ k
Concerns k (lock_throws j h at down) = j ≡ k
Concerns k (lock_takes j h at free) = j ≡ k
Concerns k (lock_spins j h at) = j ≡ k
Concerns k (lock_returns j h at) = j ≡ k
Concerns k (unlock_throws j at zero_level) = j ≡ k
Concerns k (unlock_stores j at level) = j ≡ k
Concerns k (unlock_returns j at) = j ≡ k

module _ (k : ℕ) where
  pub record Exclusive (s : State) : Type 0 where
    pub held : (i : ℕ) → Holds s i → s.locks k ≢ 0
    pub unique : (i j : ℕ) → Holds s i → Holds s j → i ≡ j
    pub positive : (i : ℕ) → PositiveAt (s.places i)

  -- A step from `s` to `t` that changes the place and the level of thread `i` only.
  module _ (s t : State) (i : ℕ) (places : (j : ℕ) → j ≢ i → t.places j ≡ s.places j)
      (levels : (j : ℕ) → j ≢ i → t.current_hierarchy j ≡ s.current_hierarchy j) (x : Exclusive s)
      (p : PositiveAt (t.places i)) where
    others : (j : ℕ) → j ≢ i → Holds t j → Holds s j
    others j ne h =
        subst (HoldsAt (s.places j)) (levels j ne)
          (subst (λ q. HoldsAt q (t.current_hierarchy j)) (places j ne) h)

    stays_positive : (j : ℕ) → PositiveAt (t.places j)
    stays_positive j = elim (ℕ_discrete j i) [
      | yes same ↦ subst (λ q. PositiveAt (t.places q)) (sym same) p
      | no ne ↦ subst PositiveAt (sym (places j ne)) (x.positive j)
    ]

    -- Whoever holds the lock held it before, and the lock is as it was.
    keeps-Exclusive : t.locks k ≡ s.locks k → (Holds t i → Holds s i) → Exclusive t
    keeps-Exclusive same old = record {
      held = λ j h e. x.held j (back j h) (sym same ∙ e);
      unique = λ a b ha hb. x.unique a b (back a ha) (back b hb);
      positive = stays_positive;
    }
      where
        back : (j : ℕ) → Holds t j → Holds s j
        back j h = elim (ℕ_discrete j i) [
          | yes e ↦ subst (Holds s) (sym e) (old (subst (Holds t) e h))
          | no ne ↦ others j ne h
        ]

    -- Nobody but `i` can hold the lock now.
    only-Exclusive : ((j : ℕ) → j ≢ i → ¬ Holds s j) → (Holds t i → t.locks k ≢ 0) → Exclusive t
    only-Exclusive nobody set = record {
      held = λ j h. elim (ℕ_discrete j i) [
        | yes e ↦ set (subst (Holds t) e h)
        | no ne ↦ absurd (nobody j ne (others j ne h))
      ];
      unique = λ a b ha hb. is_i a ha ∙ sym (is_i b hb);
      positive = stays_positive;
    }
      where
        is_i : (j : ℕ) → Holds t j → j ≡ i
        is_i j h = elim (ℕ_discrete j i) [
          | yes e ↦ e
          | no ne ↦ absurd (nobody j ne (others j ne h))
        ]

  Step-Exclusive :
      {i : ℕ} {s t : State} {e : Event} (st : Step i s e t)
      → Concerns k st
      → Exclusive s
      → Exclusive t
  unfolding Concerns HoldsAt PositiveAt
  Step-Exclusive {i} {s} (lock_call j h at up) c x =
      let q = update i (spinning j h) s.places in
      let here : q i ≡ spinning j h = update_same i _ s.places in
      let c0 = s.current_hierarchy i in
      keeps-Exclusive s (record s { places = q }) i (λ a ne. update-other i _ s.places a ne)
        (λ a ne. refl) x (subst PositiveAt (sym here) (omega arith)) refl
        (λ held. subst (λ r. HoldsAt r c0) (sym at) (subst (λ r. HoldsAt r c0) here held))
  Step-Exclusive (lock_throws j h at down) c x = x
  Step-Exclusive {i} {s} (lock_takes j h at free) c x =
      let q = update i (entering j h) s.places in
      let here : q i ≡ entering j h = update_same i _ s.places in
      let pos : 0 < h = subst PositiveAt at (x.positive i) in
      only-Exclusive s (record s { locks = update j h s.locks; places = q }) i
        (λ a ne. update-other i _ s.places a ne) (λ a ne. refl) x (subst PositiveAt (sym here) pos)
        (λ a ne held. x.held a held (ap s.locks (sym c) ∙ free))
        (λ held e.
          let set : update j h s.locks k ≡ h =
            ap (update j h s.locks) (sym c) ∙ update_same j h s.locks in
          omega arith)
  Step-Exclusive (lock_spins j h at) c x = x
  Step-Exclusive {i} {s} (lock_returns j h at) c x =
      let q = update i outside s.places in
      let here : q i ≡ outside = update_same i _ s.places in
      keeps-Exclusive s
        (record s { current_hierarchy = update i h s.current_hierarchy; places = q }) i
        (λ a ne. update-other i _ s.places a ne) (λ a ne. update-other i _ s.current_hierarchy a ne)
        x (subst PositiveAt (sym here) tt) refl
        (λ held. subst (λ r. HoldsAt r (s.current_hierarchy i)) (sym at) tt)
  Step-Exclusive (unlock_throws j at low) c x = x
  Step-Exclusive {i} {s} (unlock_stores j at level) c x =
      let q = update i (leaving j) s.places in
      let here : q i ≡ leaving j = update_same i _ s.places in
      let mine : Holds s i = subst (λ r. HoldsAt r (s.current_hierarchy i)) (sym at) level in
      only-Exclusive s (record s { locks = update j 0 s.locks; places = q }) i
        (λ a ne. update-other i _ s.places a ne) (λ a ne. refl) x (subst PositiveAt (sym here) tt)
        (λ a ne held. ne (x.unique a i held mine))
        (λ held. absurd (subst (λ r. HoldsAt r (s.current_hierarchy i)) here held))
  Step-Exclusive {i} {s} (unlock_returns j at) c x =
      let q = update i outside s.places in
      let here : q i ≡ outside = update_same i _ s.places in
      let l = update i 0 s.current_hierarchy in
      keeps-Exclusive s (record s { current_hierarchy = l; places = q }) i
        (λ a ne. update-other i _ s.places a ne) (λ a ne. update-other i _ s.current_hierarchy a ne)
        x (subst PositiveAt (sym here) tt) refl
        (λ held.
          absurd (subst (λ r. HoldsAt r (l i)) here held (update_same i 0 s.current_hierarchy)))

  -- Steps of calls of lock `k` alone, by any threads in any order.
  pub data Reach (s : State) : State → Type 0 where
    here : Reach s s
    later :
        {i : ℕ} {t u : State} {e : Event} (st : Step i t e u)
        → Concerns k st
        → Reach s t
        → Reach s u

  -- Where threads use one lock only and none has it at first, never do two of them have it at a time; and the
  -- lock is not free while a thread has it.
  pub lock_excludes :
      (s t : State)
      → ((i : ℕ) → s.places i ≡ outside)
      → ((i : ℕ) → s.current_hierarchy i ≡ 0)
      → Reach s t
      → (i j : ℕ) → Holds t i
      → Holds t j
      → (i ≡ j) × (t.locks k ≢ 0)
  unfolding HoldsAt PositiveAt
  lock_excludes s t rest clear r i j hi hj = let x = all t r in (x.unique i j hi hj, x.held i hi)
    where
      nobody : (a : ℕ) → ¬ Holds s a
      nobody a h = subst (λ q. HoldsAt q (s.current_hierarchy a)) (rest a) h (clear a)

      all : (u : State) → Reach s u → Exclusive u
      all u here = record {
        held = λ a h. absurd (nobody a h);
        unique = λ a b ha hb. absurd (nobody a ha);
        positive = λ a. subst PositiveAt (sym (rest a)) tt;
      }
      all u (later st c r') = Step-Exclusive st c (all _ r')

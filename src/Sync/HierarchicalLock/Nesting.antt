-- ===== src/Sync/HierarchicalLock/Nesting.antt =====
-- Two locks of `HierarchicalLock` (src/sync/advanced_synchronization.cpp) held by one thread.
use cloud_fly_prlatform.Prelude.{
  ℕ, ◌⊎◌, inl, inr, refl, ◌<◌, ◌≡◌, ◌≢◌, sym, ◌∙◌, List, [], ◌∷◌, arith,
}
use cloud_fly_prlatform.Sync.LockFreeStack.{update}
use cloud_fly_prlatform.Sync.LockFreeStack.Invariant.{update_same, update-other}
use cloud_fly_prlatform.Sync.HierarchicalLock.{
  outside, spinning, entering, leaving, State, Event, goes, silent, locked, unlocked, throws, Step,
  lock_throws, lock_spins, lock_call, lock_takes, lock_returns, unlock_throws, unlock_stores,
  unlock_returns,
}

-- Steps of any threads in any order.
pub data Run : State → List (ℕ × Event) → State → Type 0 where
  done : {s : State} → Run s [] s
  next :
      {i : ℕ} {s t u : State} {e : Event} {es : List (ℕ × Event)}
      → Step i s e t
      → Run t es u
      → Run s ((i, e) ∷ es) u

-- What the thread `i` can do next: it begins a call of `lock`, or its call throws; `outer` stays as it is.
unfoldable pub Stuck : State → ℕ → ℕ → Type 0
Stuck t i outer =
    (e : Event) (u : State)
    → Step i t e u
    → (u.locks outer ≡ t.locks outer)
      × (((k : ℕ) × (hierarchy : ℕ) × (e ≡ silent) × (u ≡ goes t i (spinning k hierarchy)))
          ⊎ ((k : ℕ) × (e ≡ throws k) × (u ≡ t)))

-- A thread outside the calls whose level is 0 cannot unlock anything.
outside-Stuck :
    (t : State) (i outer : ℕ) → t.places i ≡ outside → t.current_hierarchy i ≡ 0 → Stuck t i outer
unfolding Stuck
outside-Stuck t i outer at clear e u (lock_call k hierarchy p h) =
    (refl, inl (k, hierarchy, refl, refl))
outside-Stuck t i outer at clear e u (lock_throws k hierarchy p h) = (refl, inr (k, refl, refl))
outside-Stuck t i outer at clear e u (lock_takes k hierarchy p free) = absurd (cc)
outside-Stuck t i outer at clear e u (lock_spins k hierarchy p) = absurd (cc)
outside-Stuck t i outer at clear e u (lock_returns k hierarchy p) = absurd (cc)
outside-Stuck t i outer at clear e u (unlock_throws k p c) = (refl, inr (k, refl, refl))
outside-Stuck t i outer at clear e u (unlock_stores k p c) = absurd (c clear)
outside-Stuck t i outer at clear e u (unlock_returns k p) = absurd (cc)

-- A thread that holds no lock and locks `outer` and then `inner`, two free locks, at rising levels above 0 and with
-- nobody else in the way, and unlocks
-- `inner`, has then `outer` locked and its own level at 0: whatever step it takes next begins a call of `lock` or
-- is a call that throws, and leaves `outer` as it is, so that no call of `unlock` succeeds.
pub nested-Stuck :
    (s : State) (i outer inner low high : ℕ)
    → s.places i ≡ outside
    → s.current_hierarchy i ≡ 0
    → s.locks outer ≡ 0
    → s.locks inner ≡ 0
    → outer ≢ inner
    → 0 < low
    → low < high
    → (t : State) × Run s
        ((i, silent)
          ∷ (i, silent)
          ∷ (i, locked outer)
          ∷ (i, silent)
          ∷ (i, silent)
          ∷ (i, locked inner)
          ∷ (i, silent)
          ∷ (i, unlocked inner)
          ∷ [])
        t
      × (t.locks outer ≡ low)
      × Stuck t i outer
nested-Stuck s i outer inner low high at clear free_outer free_inner ne pos up =
    let l1 = update outer low s.locks in
    let l2 = update inner high l1 in
    let c1 = update i low s.current_hierarchy in
    let c2 = update i high c1 in
    let p1 = update i (spinning outer low) s.places in
    let p2 = update i (entering outer low) p1 in
    let p3 = update i outside p2 in
    let p4 = update i (spinning inner high) p3 in
    let p5 = update i (entering inner high) p4 in
    let p6 = update i outside p5 in
    let p7 = update i (leaving inner) p6 in
    let now_low : c1 i ≡ low = update_same i low s.current_hierarchy in
    let now_high : c2 i ≡ high = update_same i high c1 in
    (
      _,
      next (lock_call outer low at (omega arith)) (
          next (lock_takes outer low (update_same i _ s.places) free_outer) (
            next (lock_returns outer low (update_same i _ p1)) (
              next (lock_call inner high (update_same i _ p2) (omega arith)) (
                next
                  (lock_takes inner high (update_same i _ p3)
                    (update-other outer low s.locks inner (λ e. ne (sym e)) ∙ free_inner))
                  (next (lock_returns inner high (update_same i _ p4)) (
                    next (unlock_stores inner (update_same i _ p5) (λ e. omega arith))
                      (next (unlock_returns inner (update_same i _ p6)) done))))))),
      update-other inner 0 l2 outer ne
          ∙ update-other inner high l1 outer ne
          ∙ update_same outer low s.locks,
      outside-Stuck _ i outer (update_same i _ p7) (update_same i 0 c2),
    )

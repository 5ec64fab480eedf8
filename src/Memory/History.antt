-- ===== src/Memory/History.antt =====
-- Any sequence of calls of a `MemoryManager` (src/memory/memory_manager.cpp).
use cloud_fly_prlatform.Prelude.{
  ℕ, zero, suc, ◌<◌, ◌≡◌, ◌⊎◌, inl, inr, refl, sym, ap, subst, ◌∙◌, true, false, List, [], ◌∷◌,
  ◌++◌, some, none, arith, if◌then◌else◌, Outcome, returns, stops, fault, ◌>>=◌, Bool-cases,
  Option-cases,
}
use cloud_fly_prlatform.Prelude.Locks.{continue}
use cloud_fly_prlatform.Prelude.Maps.{nat_eq, find, erase}
use cloud_fly_prlatform.Memory.{Memory, MemoryManager, MemoryPool, default_alignment}
use cloud_fly_prlatform.Memory.Calls.{
  System, allocate, deallocate, reallocate, deallocate_aligned, initialize, shutdown,
  set_memory_limit, reset_stats, cleanup_pools, free_pools, free_blocks, new_pool,
}
use cloud_fly_prlatform.Memory.Pools.{
  NoBlocks, Unpooled, allocate-Unpooled, after_allocate, after_allocate-Unpooled,
  reallocate-Unpooled, deallocate-Unpooled,
}

pub data Operation : Type 0 where
  allocation : ℕ → ℕ → Operation
  deallocation : ℕ → Operation
  reallocation : ℕ → ℕ → Operation
  limit : ℕ → Operation
  initialization shutting_down reset : Operation

-- The state that a call leaves.
abbrev left : {A : Type 0} → Outcome (A × MemoryManager) → Outcome MemoryManager
left (returns r) = returns r.1
left (stops reason) = stops reason

NoBlocks-append : (ps qs : List MemoryPool) → NoBlocks ps → NoBlocks qs → NoBlocks (ps ++ qs)
unfolding NoBlocks
NoBlocks-append [] qs h k = k
NoBlocks-append (p ∷ ps) qs (e, h) k = (e, NoBlocks-append ps qs h k)

free_pools-NoBlocks :
    (pools : List MemoryPool) (i : ℕ) (s : MemoryManager)
    → NoBlocks pools
    → free_pools pools i (0 ∷ []) s ≡ returns (tt, s)
unfolding free_pools free_blocks NoBlocks
free_pools-NoBlocks [] i s h = refl
free_pools-NoBlocks (pool ∷ pools) i s (e, h) =
    let rest = free_pools-NoBlocks pools (suc i) s h in rw e (ground (arith, rest))

module _ (system : System) where
  unfoldable pub perform : Operation → MemoryManager → Outcome MemoryManager
  perform (allocation size alignment) s = left (allocate system size alignment [] s)
  perform (deallocation ptr) s = left (deallocate system ptr [] s)
  perform (reallocation ptr size) s = left (reallocate system ptr size [] s)
  perform (limit n) s = left (set_memory_limit n [] s)
  perform initialization s = left (initialize [] s)
  perform shutting_down s = left (shutdown [] s)
  perform reset s = left (reset_stats [] s)

  unfoldable pub run : List Operation → MemoryManager → Outcome MemoryManager
  unfolding perform
  run [] s = returns s
  run (op ∷ ops) s = perform op s >>= run ops

  -- The call comes back with no block in a pool, or faults, and then `Cause` holds.
  Ends : Type 0 → Outcome MemoryManager → Type 0
  Ends Cause o = ((s : MemoryManager) × (o ≡ returns s) × Unpooled s) ⊎ (Cause × (o ≡ stops fault))

  -- An address that is not null and that the system has not given, or has got back.
  abbrev Absent : ℕ → MemoryManager → Type 0
  Absent ptr s = (0 < ptr) × (find ptr s.memory ≡ none)

  -- The call frees such an address.
  unfoldable pub FreesAbsent : Operation → MemoryManager → Type 0
  FreesAbsent (allocation size alignment) s = ⊥
  FreesAbsent (deallocation ptr) s = Absent ptr s
  FreesAbsent (reallocation ptr size) s = (size ≡ 0) × Absent ptr s
  FreesAbsent (limit n) s = ⊥
  FreesAbsent initialization s = ⊥
  FreesAbsent shutting_down s = ⊥
  FreesAbsent reset s = ⊥

  -- The calls come back one after another, each with no block in a pool, up to the end or to one that frees an
  -- absent address, where the outcome is the fault.
  unfoldable pub Follows : List Operation → MemoryManager → Outcome MemoryManager → Type 0
  unfolding perform FreesAbsent
  Follows [] s o = o ≡ returns s
  Follows (op ∷ ops) s o =
      ((t : MemoryManager) × (perform op s ≡ returns t) × Unpooled t × Follows ops t o)
      ⊎ (FreesAbsent op s × (o ≡ stops fault))

  free_absent :
      (ptr : ℕ) (s : MemoryManager)
      → find ptr s.memory ≡ none
      → 0 < ptr
      → deallocate_aligned ptr (0 ∷ []) s ≡ stops fault
  unfolding deallocate_aligned
  free_absent ptr s absent h = ground (arith, absent, h)

  free_present :
      (ptr : ℕ) (s : MemoryManager) (bytes : List ℕ)
      → find ptr s.memory ≡ some bytes
      → 0 < ptr
      → deallocate_aligned ptr (0 ∷ []) s ≡ returns (tt, record s { memory = erase ptr s.memory })
  unfolding deallocate_aligned
  free_present ptr s bytes there h = ground (arith, there, h)

  allocation-Ends :
      (size alignment : ℕ) (s : MemoryManager)
      → Unpooled s
      → Ends ⊥ (left (allocate system size alignment [] s))
  unfolding Ends allocate
  allocation-Ends zero alignment s u = inl (s, refl, u)
  allocation-Ends (suc n) alignment s u = inl (
    after_allocate system (suc n) alignment s,
    ap left (allocate-Unpooled system (suc n) alignment s u (omega arith)),
    after_allocate-Unpooled system (suc n) alignment s u,
  )

  deallocation-Ends :
      (ptr : ℕ) (s : MemoryManager)
      → Unpooled s
      → Ends (Absent ptr s) (left (deallocate system ptr [] s))
  unfolding Ends deallocate deallocate_aligned
  deallocation-Ends zero s u = inl (s, refl, u)
  deallocation-Ends (suc p) s u =
      let e = deallocate-Unpooled system (suc p) s u (omega arith) in
      elim (Option-cases (find (suc p) s.memory)) [
        | inl absent ↦ inr (
          (omega arith, absent),
          ap left e ∙ ap left (free_absent (suc p) s absent (omega arith)),
        )
        | inr (bytes, there) ↦ inl (
          record s { memory = erase (suc p) s.memory },
          ap left e ∙ ap left (free_present (suc p) s bytes there (omega arith)),
          record { no_blocks = u.no_blocks; no_entries = u.no_entries },
        )
      ]

  left-continue :
      (o : Outcome (Unit {0} × MemoryManager))
      → left {A = ℕ} (continue o (λ r. returns (0, r.1))) ≡ left o
  left-continue (returns r) = refl
  left-continue (stops reason) = refl

  free_by_size :
      (ptr : ℕ) (s : MemoryManager)
      → 0 < ptr
      → reallocate system ptr 0 [] s ≡ continue (deallocate system ptr [] s) (λ r. returns (0, r.1))
  unfolding reallocate
  free_by_size ptr s h = ground (arith, h)

  reallocation-Ends :
      (ptr size : ℕ) (s : MemoryManager)
      → Unpooled s
      → Ends ((size ≡ 0) × Absent ptr s) (left (reallocate system ptr size [] s))
  unfolding Ends reallocate
  reallocation-Ends zero size s u = elim (allocation-Ends size default_alignment s u) [
    | inl back ↦ inl back
    | inr (never, e) ↦ absurd never
  ]
  reallocation-Ends (suc p) zero s u =
      let same =
        ap left (free_by_size (suc p) s (omega arith))
        ∙ left-continue (deallocate system (suc p) [] s) in
      elim (deallocation-Ends (suc p) s u) [
        | inl (t, e, v) ↦ inl (t, same ∙ e, v)
        | inr (absent, e) ↦ inr ((refl, absent), same ∙ e)
      ]
  reallocation-Ends (suc p) (suc n) s u = inl (
    record s { memory = (system.posix_memalign default_alignment (suc n) s.memory).1 },
    ap left (reallocate-Unpooled system (suc p) (suc n) s u (omega arith) (omega arith)),
    record { no_blocks = u.no_blocks; no_entries = u.no_entries },
  )

  initialization-Ends : (s : MemoryManager) → Unpooled s → Ends ⊥ (left (initialize [] s))
  unfolding Ends initialize new_pool NoBlocks
  initialization-Ends s u = inl (
    _,
    refl,
    record {
      no_blocks =
          elim s.initialized
            as (λ b. NoBlocks (
              if b then s.pools else s.pools ++ (new_pool ∷ new_pool ∷ new_pool ∷ new_pool ∷ []))) [
                | true ↦ u.no_blocks
                | false ↦
                    NoBlocks-append s.pools (new_pool ∷ new_pool ∷ new_pool ∷ new_pool ∷ [])
                      u.no_blocks (refl, (refl, (refl, (refl, tt))))
              ];
      no_entries = u.no_entries;
    },
  )

  shutting_down-Ends : (s : MemoryManager) → Unpooled s → Ends ⊥ (left (shutdown [] s))
  unfolding Ends shutdown cleanup_pools NoBlocks
  shutting_down-Ends s u =
      let freed = free_pools-NoBlocks s.pools 0 s u.no_blocks in
      elim (Bool-cases s.initialized) [
        | inl on ↦ inl (
          record s { pools = []; block_map = []; initialized = false },
          ground (arith, on, freed),
          record { no_blocks = tt; no_entries = refl },
        )
        | inr off ↦ inl (s, ground (arith, off), u)
      ]

  perform-Ends :
      (op : Operation) (s : MemoryManager) → Unpooled s → Ends (FreesAbsent op s) (perform op s)
  unfolding perform Ends FreesAbsent set_memory_limit reset_stats
  perform-Ends (allocation size alignment) s u = allocation-Ends size alignment s u
  perform-Ends (deallocation ptr) s u = deallocation-Ends ptr s u
  perform-Ends (reallocation ptr size) s u = reallocation-Ends ptr size s u
  perform-Ends initialization s u = initialization-Ends s u
  perform-Ends shutting_down s u = shutting_down-Ends s u
  perform-Ends (limit n) s u =
      inl (_, refl, record { no_blocks = u.no_blocks; no_entries = u.no_entries })
  perform-Ends reset s u =
      inl (_, refl, record { no_blocks = u.no_blocks; no_entries = u.no_entries })

  -- Of any sequence of calls of `initialize`, `shutdown`, `setMemoryLimit`, `resetStats`, `allocate`,
  -- `deallocate` and `reallocate`, on a manager whose pools have no blocks, each returns and leaves it so, up to
  -- one that frees an address that is not null and that the system has not given, which faults; so none waits
  -- for a mutex that it holds.
  pub run-Unpooled :
      (ops : List Operation) (s : MemoryManager) → Unpooled s → Follows ops s (run ops s)
  unfolding run Ends Follows
  run-Unpooled [] s u = refl
  run-Unpooled (op ∷ ops) s u = elim (perform-Ends op s u) [
    | inl (s1, e, u1) ↦
        let same : run ops s1 ≡ (perform op s >>= run ops) = sym (ap (λ o. o >>= run ops) e) in
        inl (s1, e, u1, subst (Follows ops s1) same (run-Unpooled ops s1 u1))
    | inr (absent, e) ↦ inr (absent, ap (λ o. o >>= run ops) e)
  ]

  Follows-Unpooled :
      (ops : List Operation) (s t : MemoryManager) (o : Outcome MemoryManager)
      → Unpooled s
      → Follows ops s o
      → o ≡ returns t
      → Unpooled t
  unfolding Follows
  Follows-Unpooled [] s t o u f e =
      let same : ◌≡◌ {A = Outcome MemoryManager} (returns s) (returns t) = sym f ∙ e in
      let q : s ≡ t = cc in subst Unpooled q u
  Follows-Unpooled (op ∷ ops) s t o u f e = elim f [
    | inl (s1, e1, u1, rest) ↦ Follows-Unpooled ops s1 t o u1 rest e
    | inr (absent, stop) ↦
        let same : ◌≡◌ {A = Outcome MemoryManager} (stops fault) (returns t) = sym stop ∙ e in
        absurd (cc)
  ]

  -- After any sequence of calls of `initialize`, `shutdown`, `setMemoryLimit`, `resetStats`, `allocate`,
  -- `deallocate` and `reallocate` that returns, from a manager whose pools have no blocks, and with a system that
  -- leaves the blocks it has given as they are, the reallocation of such a block, by a pointer that is not null and
  -- to a size that is not 0, returns a block as the system has made it, with nothing copied; the old block keeps
  -- its bytes and is not freed, and the pools still have no blocks.
  pub run-reallocate :
      (ops : List Operation) (s t : MemoryManager) (ptr size : ℕ) (bytes : List ℕ)
      → ((alignment n p : ℕ) (memory : Memory) (old : List ℕ)
          → find p memory ≡ some old
          → find p (system.posix_memalign alignment n memory).1 ≡ some old)
      → Unpooled s
      → run ops s ≡ returns t
      → 0 < ptr
      → 0 < size
      → find ptr t.memory ≡ some bytes
      → (new : ℕ) × (u : MemoryManager) × (reallocate system ptr size [] t ≡ returns (new, u))
        × ((new, u.memory) ≡ system.posix_memalign default_alignment size t.memory)
        × (find ptr u.memory ≡ some bytes)
        × Unpooled u
  run-reallocate ops s t ptr size bytes keeps u e hp hs there =
      let v = Follows-Unpooled ops s t (run ops s) u (run-Unpooled ops s u) e in
      (
        _,
        _,
        reallocate-Unpooled system ptr size t v hp hs,
        refl,
        keeps default_alignment size ptr t.memory bytes there,
        record { no_blocks = v.no_blocks; no_entries = v.no_entries },
      )

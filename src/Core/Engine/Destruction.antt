-- ===== src/Core/Engine/Destruction.antt =====
-- The destructor of `CoreEngine` (src/core/engine.cpp).
use cloud_fly_prlatform.Prelude.{
  ℕ, ◌+◌, ◌≡◌, refl, sym, ap, subst, ◌∙◌, Bool, true, false, List, ◌∷◌, arith, if◌then◌else◌,
}
use cloud_fly_prlatform.Core.Engine.{
  Call, World, CoreEngine, Attempt, returns, M, continue, ◌>>◌, caught, pure, crash, when, call,
  save_recovery_state, cleanup_resources, exchange_running, emergency_stop, destroy,
}
use cloud_fly_prlatform.Core.Engine.Call.{
  reset_work_guard, stop_work_pool, stop_io_context, log_emergency_stop, join_work_pool,
  destroy_stream, unload_modules, unload_plugins, shutdown_smartnic, release_fpga, get_state,
  save_state,
}
use cloud_fly_prlatform.Core.Engine.Failures.{tally}

-- The release of the GPU stream.
unfoldable pub is_release : Call → ℕ
is_release destroy_stream = 1
is_release c = 0

module _ (w : World) where
  -- It comes back, runs as before, and has released the GPU stream `n` times.
  unfoldable pub Releases : ℕ → CoreEngine → Attempt (Unit {0}) → Type 0
  unfolding is_release tally
  Releases n e o =
      (e' : CoreEngine) × (o ≡ returns tt e')
      × (e'.running ≡ e.running)
      × (tally is_release e'.calls ≡ n + tally is_release e.calls)

  Releases-continue :
      (n m : ℕ) (e : CoreEngine) (o : Attempt (Unit {0})) (f : Unit {0} → M (Unit {0}))
      → Releases n e o
      → ((e' : CoreEngine) → Releases m e' (f tt e'))
      → Releases (n + m) e (continue o f)
  unfolding Releases
  Releases-continue n m e o f (e1, r1, run1, t1) k =
      let (e2, r2, run2, t2) = k e1 in
      (e2, ap (λ x. continue x f) r1 ∙ r2, run2 ∙ run1, omega arith)

  module _ (quiet : (calls : List Call) (c : Call) → w.throws calls c ≡ false) where
    call-Releases : (c : Call) (e : CoreEngine) → Releases (is_release c) e (call w c e)
    unfolding Releases call
    call-Releases c e = (record e { calls = c ∷ e.calls }, rw (quiet e.calls c) refl, refl, refl)

    when-Releases :
        (b : Bool) (m : M (Unit {0}))
        → ((e : CoreEngine) → Releases 0 e (m e))
        → (e : CoreEngine) → Releases 0 e (when b m e)
    unfolding Releases
    when-Releases true m h e = h e
    when-Releases false m h e = (e, refl, refl, omega arith)

    cleanup-Releases :
        w.gpu_enabled ≡ true → (e : CoreEngine) → Releases 1 e (cleanup_resources w e)
    unfolding cleanup_resources is_release
    cleanup-Releases gpu e = Releases-continue 0 1 e _ _ (call-Releases unload_modules e) (λ e1.
        Releases-continue 0 1 e1 _ _ (call-Releases unload_plugins e1) (λ e2.
          Releases-continue 0 1 e2 _ _
            (when-Releases w.dpdk_enabled _ (call-Releases shutdown_smartnic) e2)
            (λ e3. Releases-continue 0 1 e3 _ _ (call-Releases release_fpga e3) (λ e4.
              subst (λ b. Releases 1 e4 (when b (call w destroy_stream) e4)) (sym gpu)
                (call-Releases destroy_stream e4)))))

    save-Releases : (e : CoreEngine) → Releases 0 e (save_recovery_state w e)
    unfolding save_recovery_state is_release Releases
    save-Releases e =
        let (e', r, run, t) =
          Releases-continue 0 0 e _ _ (call-Releases get_state e) (call-Releases save_state) in
        (e', ap (λ o. caught o (pure tt)) r, run, t)

    stop-Releases :
        w.gpu_enabled ≡ true
        → (e : CoreEngine) → e.running ≡ true
        → Releases 1 (record e { running = false }) (emergency_stop w e)
    unfolding emergency_stop exchange_running is_release
    stop-Releases gpu e on =
        let off : CoreEngine = record e { running = false } in
        rw on (
          Releases-continue 0 1 off _ _ (call-Releases reset_work_guard off) (λ e1.
            Releases-continue 0 1 e1 _ _ (call-Releases stop_work_pool e1) (λ e2.
              Releases-continue 0 1 e2 _ _ (call-Releases stop_io_context e2) (λ e3.
                Releases-continue 0 1 e3 _ _ (save-Releases e3) (λ e4.
                  Releases-continue 1 0 e4 _ _ (cleanup-Releases gpu e4)
                    (call-Releases log_emergency_stop))))))

    -- Where no call throws, an engine with a GPU that is destroyed while it runs destroys its stream twice.
    pub destroy_twice :
        (e : CoreEngine)
        → w.gpu_enabled ≡ true
        → e.running ≡ true
        → e.shutdown_initiated ≡ false
        → (e' : CoreEngine) × (destroy w e ≡ returns tt e')
          × (e'.running ≡ false)
          × (tally is_release e'.calls ≡ 2 + tally is_release e.calls)
    unfolding destroy Releases is_release
    destroy_twice e gpu on fresh =
        let e0 : CoreEngine = record e { shutdown_initiated = true } in
        let after : Unit {0} → M (Unit {0}) =
          λ u. call w stop_work_pool >> (call w join_work_pool >> cleanup_resources w) in
        let (e', r, run, t) =
          Releases-continue 1 1 (record e0 { running = false }) (emergency_stop w e0) after
            (stop-Releases gpu e0 on)
            (λ e1. Releases-continue 0 1 e1 _ _ (call-Releases stop_work_pool e1) (λ e2.
              Releases-continue 0 1 e2 _ _ (call-Releases join_work_pool e2)
                (cleanup-Releases gpu))) in
        (
          e',
          ap
                (λ b.
                  if b
                  then returns tt e
                  else caught (continue (when e.running (emergency_stop w) e0) after) crash)
                fresh
              ∙ ap (λ b. caught (continue (when b (emergency_stop w) e0) after) crash) on
              ∙ ap (λ o. caught o crash) r,
          run,
          t,
        )

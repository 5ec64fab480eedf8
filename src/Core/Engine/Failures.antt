-- ===== src/Core/Engine/Failures.antt =====
-- What `CoreEngine` (src/core/engine.cpp) does when its components fail.
use cloud_fly_prlatform.Prelude.{
  ℕ, zero, suc, ◌+◌, ◌≡◌, inl, inr, refl, ◌∙◌, Bool, true, false, not, List, [], ◌∷◌, arith,
  Bool-cases,
}
use cloud_fly_prlatform.Core.Engine.{
  Call, cpu_usage, gpu_temperature, node_utilization, cluster_load, World, CoreEngine, Attempt,
  returns, crashes, M, continue, ◌>>◌, caught, pure, throw, when, call, save_recovery_state,
  handle_critical_failure, cleanup_resources, start_workers, check_system_health, scale_resources,
}
use cloud_fly_prlatform.Core.Engine.Call.{
  start_network, reset_work_guard, stop_scheduler, get_state, save_state, report_failure, stop_fpga,
  stop_smartnic, read_metrics, scale_up, disable_gpu, test_health, read_cluster_metrics, add_node,
  unload_modules, unload_plugins, shutdown_smartnic, release_fpga, destroy_stream, post_worker,
  start_consensus, start_scheduler, initialize_monitor, start_watching, post_maintenance,
  log_system_start,
}

-- The first calls of `start`, and of the two stops.
unfoldable pub is_start : Call → ℕ
is_start start_network = 1
is_start c = 0

unfoldable pub is_stop : Call → ℕ
is_stop reset_work_guard = 1
is_stop stop_scheduler = 1
is_stop c = 0

unfoldable pub tally : (Call → ℕ) → List Call → ℕ
tally weight [] = 0
tally weight (c ∷ calls) = weight c + tally weight calls

-- The engine runs as before, and has made no first call of a start or a stop.
pub record Kept (e e' : CoreEngine) : Type 0 where
  pub running : e'.running ≡ e.running
  pub starts : tally is_start e'.calls ≡ tally is_start e.calls
  pub stops : tally is_stop e'.calls ≡ tally is_stop e.calls

-- It comes back or throws, and the engine is kept.
unfoldable pub Ends : {A : Type 0} → CoreEngine → Attempt A → Type 0
Ends e (returns a e') = Kept e e'
Ends e (Attempt.throws e') = Kept e e'
Ends e crashes = ⊥

unfoldable pub Returns : {A : Type 0} → CoreEngine → Attempt A → Type 0
Returns e (returns a e') = Kept e e'
Returns e (Attempt.throws e') = ⊥
Returns e crashes = ⊥

unfoldable pub Throws : {A : Type 0} → CoreEngine → Attempt A → Type 0
Throws e (returns a e') = ⊥
Throws e (Attempt.throws e') = Kept e e'
Throws e crashes = ⊥

pub Kept-refl : (e : CoreEngine) → Kept e e
Kept-refl e = record { running = refl; starts = refl; stops = refl }

pub Kept-trans : (a b c : CoreEngine) → Kept a b → Kept b c → Kept a c
Kept-trans a b c x y = record {
  running = y.running ∙ x.running;
  starts = y.starts ∙ x.starts;
  stops = y.stops ∙ x.stops;
}

module _ {A : Type 0} where
  Ends-trans : (a b : CoreEngine) (o : Attempt A) → Kept a b → Ends b o → Ends a o
  unfolding Ends
  Ends-trans a b (returns x e) k h = Kept-trans a b e k h
  Ends-trans a b (Attempt.throws e) k h = Kept-trans a b e k h
  Ends-trans a b crashes k h = h

  Throws-trans : (a b : CoreEngine) (o : Attempt A) → Kept a b → Throws b o → Throws a o
  unfolding Throws
  Throws-trans a b (returns x e) k h = h
  Throws-trans a b (Attempt.throws e) k h = Kept-trans a b e k h
  Throws-trans a b crashes k h = h

  -- A handler that comes back makes the whole come back.
  caught-Returns :
      (e : CoreEngine) (o : Attempt A) (handler : M A)
      → Ends e o
      → ((e' : CoreEngine) → Returns e' (handler e'))
      → Returns e (caught o handler)
  unfolding Ends Returns
  caught-Returns e (returns x e') handler h k = h
  caught-Returns e (Attempt.throws e') handler h k = joined (handler e') (k e')
    where
      joined : (o : Attempt A) → Returns e' o → Returns e o
      joined (returns y e'') r = Kept-trans e e' e'' h r
      joined (Attempt.throws e'') r = r
      joined crashes r = r
  caught-Returns e crashes handler h k = elim h [ ]

  Returns-Ends : (e : CoreEngine) (o : Attempt A) → Returns e o → Ends e o
  unfolding Ends Returns
  Returns-Ends e (returns x e') h = h
  Returns-Ends e (Attempt.throws e') h = elim h [ ]
  Returns-Ends e crashes h = elim h [ ]

  Throws-Ends : (e : CoreEngine) (o : Attempt A) → Throws e o → Ends e o
  unfolding Ends Throws
  Throws-Ends e (returns x e') h = elim h [ ]
  Throws-Ends e (Attempt.throws e') h = h
  Throws-Ends e crashes h = elim h [ ]

module _ {A B : Type 0} where
  pub continue-Ends :
      (e : CoreEngine) (o : Attempt A) (f : A → M B)
      → Ends e o
      → ((a : A) (e' : CoreEngine) → Ends e' (f a e'))
      → Ends e (continue o f)
  unfolding Ends
  continue-Ends e (returns a e') f h k = Ends-trans e e' (f a e') h (k a e')
  continue-Ends e (Attempt.throws e') f h k = h
  continue-Ends e crashes f h k = h

  continue-Throws :
      (e : CoreEngine) (o : Attempt A) (f : A → M B)
      → Ends e o
      → ((a : A) (e' : CoreEngine) → Throws e' (f a e'))
      → Throws e (continue o f)
  unfolding Ends Throws
  continue-Throws e (returns a e') f h k = Throws-trans e e' (f a e') h (k a e')
  continue-Throws e (Attempt.throws e') f h k = h
  continue-Throws e crashes f h k = h

pure-Returns : (e : CoreEngine) → Returns e (pure tt e)
unfolding Returns
pure-Returns e = Kept-refl e

throw-Throws : (e : CoreEngine) → Throws e (throw {A = Unit {0}} e)
unfolding Throws
throw-Throws e = Kept-refl e

pub when-Ends :
    (b : Bool) (m : M (Unit {0}))
    → ((e : CoreEngine) → Ends e (m e))
    → (e : CoreEngine) → Ends e (when b m e)
unfolding Ends
when-Ends true m h e = h e
when-Ends false m h e = Kept-refl e

module _ (w : World) where
  pub call-Ends :
      (c : Call) → is_start c ≡ 0 → is_stop c ≡ 0 → (e : CoreEngine) → Ends e (call w c e)
  unfolding call Ends tally
  call-Ends c no_start no_stop e = elim (Bool-cases (w.throws e.calls c)) [
    | inl t ↦ rw t kept
    | inr f ↦ rw f kept
  ]
    where
      kept : Kept e (record e { calls = c ∷ e.calls })
      kept = record { running = refl; starts = omega arith; stops = omega arith }

  pub save_recovery_state-Returns : (e : CoreEngine) → Returns e (save_recovery_state w e)
  unfolding save_recovery_state is_start is_stop
  save_recovery_state-Returns e =
      caught-Returns e _ (pure tt)
        (continue-Ends e _ _ (call-Ends get_state refl refl e)
          (λ a e'. call-Ends save_state refl refl e'))
        pure-Returns

  pub save_recovery_state-Ends : (e : CoreEngine) → Ends e (save_recovery_state w e)
  save_recovery_state-Ends e = Returns-Ends e _ (save_recovery_state-Returns e)

  -- Whatever the components do, it throws.
  pub handle_critical_failure-Throws : (e : CoreEngine) → Throws e (handle_critical_failure w e)
  unfolding handle_critical_failure is_start is_stop
  handle_critical_failure-Throws e =
      continue-Throws e _ _ (Returns-Ends e _ (save_recovery_state-Returns e)) (λ _ e1.
        continue-Throws e1 _ _ (call-Ends report_failure refl refl e1) (λ _ e2.
          continue-Throws e2 _ _ (call-Ends stop_fpga refl refl e2) (λ _ e3.
            continue-Throws e3 _ _ (call-Ends stop_smartnic refl refl e3)
              (λ _ e4. throw-Throws e4))))

  handle_critical_failure-Ends : (e : CoreEngine) → Ends e (handle_critical_failure w e)
  handle_critical_failure-Ends e = Throws-Ends e _ (handle_critical_failure-Throws e)

  check_system_health-Returns : (e : CoreEngine) → Returns e (check_system_health w e)
  unfolding check_system_health is_start is_stop
  check_system_health-Returns e =
      caught-Returns e _ (pure tt)
        (continue-Ends e _ _ (call-Ends read_metrics refl refl e) (λ _ e1.
          continue-Ends e1 _ _
            (when-Ends (w.exceeds e1.calls cpu_usage 90) _ (call-Ends scale_up refl refl) e1)
            (λ _ e2.
              continue-Ends e2 _ _
                (when-Ends (w.exceeds e1.calls gpu_temperature 85) _
                  (call-Ends disable_gpu refl refl) e2)
                (λ _ e3. continue-Ends e3 _ _ (call-Ends test_health refl refl e3) (λ _ e4.
                  when-Ends (not (w.is_healthy e4.calls)) _ handle_critical_failure-Ends e4)))))
        pure-Returns

  pub check_system_health-Ends : (e : CoreEngine) → Ends e (check_system_health w e)
  check_system_health-Ends e = Returns-Ends e _ (check_system_health-Returns e)

  pub scale_resources-Ends : (e : CoreEngine) → Ends e (scale_resources w e)
  unfolding scale_resources is_start is_stop
  scale_resources-Ends e = continue-Ends e _ _ (call-Ends read_cluster_metrics refl refl e) (λ _ e1.
      continue-Ends e1 _ _
        (when-Ends (w.exceeds e1.calls node_utilization 80) _ (call-Ends scale_up refl refl) e1)
        (λ _ e2.
          when-Ends (w.exceeds e1.calls cluster_load 75) _ (call-Ends add_node refl refl) e2))

  pub cleanup_resources-Ends : (e : CoreEngine) → Ends e (cleanup_resources w e)
  unfolding cleanup_resources is_start is_stop
  cleanup_resources-Ends e = continue-Ends e _ _ (call-Ends unload_modules refl refl e) (λ _ e1.
      continue-Ends e1 _ _ (call-Ends unload_plugins refl refl e1) (λ _ e2.
        continue-Ends e2 _ _ (when-Ends _ _ (call-Ends shutdown_smartnic refl refl) e2) (λ _ e3.
          continue-Ends e3 _ _ (call-Ends release_fpga refl refl e3)
            (λ _ e4. when-Ends _ _ (call-Ends destroy_stream refl refl) e4))))

  start_workers-Ends : (n : ℕ) (e : CoreEngine) → Ends e (start_workers w n e)
  unfolding start_workers is_start is_stop
  start_workers-Ends zero e = Returns-Ends e _ (pure-Returns e)
  start_workers-Ends (suc n) e =
      continue-Ends e _ _ (call-Ends post_worker refl refl e) (λ _ e1. start_workers-Ends n e1)

  -- What `start` does after its first call.
  pub start_rest-Ends :
      (e : CoreEngine)
      → Ends e (
          (do
            call w start_consensus
            call w start_scheduler
            call w initialize_monitor
            call w start_watching
            call w post_maintenance
            start_workers w w.hardware_concurrency
            call w log_system_start)
            e)
  unfolding is_start is_stop
  start_rest-Ends e = continue-Ends e _ _ (call-Ends start_consensus refl refl e) (λ _ e1.
      continue-Ends e1 _ _ (call-Ends start_scheduler refl refl e1) (λ _ e2.
        continue-Ends e2 _ _ (call-Ends initialize_monitor refl refl e2) (λ _ e3.
          continue-Ends e3 _ _ (call-Ends start_watching refl refl e3) (λ _ e4.
            continue-Ends e4 _ _ (call-Ends post_maintenance refl refl e4) (λ _ e5.
              continue-Ends e5 _ _ (start_workers-Ends w.hardware_concurrency e5)
                (λ _ e6. call-Ends log_system_start refl refl e6))))))

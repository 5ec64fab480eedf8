-- ===== src/Core/Engine/Shutdown.antt =====
-- Starts and stops of a `CoreEngine` (src/core/engine.cpp).
use cloud_fly_prlatform.Prelude.{
  ◌+◌, ◌≡◌, ◌⊎◌, inl, inr, refl, ap, ◌∙◌, true, false, List, [], ◌∷◌, Option, some, none, arith,
  if◌then◌else◌, Bool-cases,
}
use cloud_fly_prlatform.Core.Engine.{
  Call, World, CoreEngine, Attempt, returns, crashes, M, continue, ◌>>◌, caught, throw, call,
  handle_critical_failure, start_all, exchange_running, start, emergency_stop, graceful_shutdown,
  check_system_health, scale_resources,
}
use cloud_fly_prlatform.Core.Engine.Call.{
  start_network, reset_work_guard, stop_scheduler, stop_work_pool, stop_io_context,
  log_emergency_stop, stop_consensus, shutdown_rest_server, disable_autoscaler, join_work_pool,
  log_graceful_shutdown,
}
use cloud_fly_prlatform.Core.Engine.Failures.{
  is_start, is_stop, tally, Kept, Kept-refl, Kept-trans, Ends, Throws, continue-Ends, call-Ends,
  start_rest-Ends, save_recovery_state-Ends, cleanup_resources-Ends, handle_critical_failure-Throws,
  check_system_health-Ends, scale_resources-Ends,
}

-- The state that a call of a member function leaves, by its caller's `catch` if it throws.
abbrev pub left : {A : Type 0} → Attempt A → Option CoreEngine
left (returns a e) = some e
left (Attempt.throws e) = some e
left crashes = none

pub data Operation : Type 0 where
  starting stopping shutting_down checking scaling : Operation

module _ (w : World) where
  unfoldable pub perform : Operation → CoreEngine → Option CoreEngine
  perform starting e = left (start w e)
  perform stopping e = left (emergency_stop w e)
  perform shutting_down e = left (graceful_shutdown w e)
  perform checking e = left (check_system_health w e)
  perform scaling e = left (scale_resources w e)

  unfoldable pub run : List Operation → CoreEngine → Option CoreEngine
  unfolding perform
  run [] e = some e
  run (op ∷ ops) e = elim (perform op e) [ none ↦ none | some e' ↦ run ops e' ]

  -- Each start that found the engine stopped has been ended once, unless the engine runs.
  unfoldable pub Balanced : CoreEngine → Type 0
  unfolding tally
  Balanced e = tally is_start e.calls ≡ tally is_stop e.calls + (if e.running then 1 else 0)

  abbrev Leaves : {A : Type 0} → Attempt A → Type 0
  Leaves o = (e' : CoreEngine) × (left o ≡ some e') × Balanced e'

  Kept-Balanced : (e e' : CoreEngine) → Kept e e' → Balanced e → Balanced e'
  unfolding Balanced
  Kept-Balanced e e' k b = rw k.running (omega (arith, k.starts, k.stops))

  ended : {A : Type 0} (e : CoreEngine) (o : Attempt A) → Ends e o → Balanced e → Leaves o
  unfolding Ends
  ended e (returns a e') k b = (e', refl, Kept-Balanced e e' k b)
  ended e (Attempt.throws e') k b = (e', refl, Kept-Balanced e e' k b)
  ended e crashes k b = elim k [ ]

  -- A first call of a start or a stop, and what ends after it.
  first-Ends :
      (c : Call) (e : CoreEngine) (m : M (Unit {0}))
      → ((e' : CoreEngine) → Ends e' (m e'))
      → Ends (record e { calls = c ∷ e.calls }) ((call w c >> m) e)
  unfolding call Ends
  first-Ends c e m h = elim (Bool-cases (w.throws e.calls c)) [
    | inl t ↦ rw t (Kept-refl (record e { calls = c ∷ e.calls }))
    | inr f ↦ rw f (h (record e { calls = c ∷ e.calls }))
  ]

  first :
      (c : Call) (e : CoreEngine) (m : M (Unit {0}))
      → ((e' : CoreEngine) → Ends e' (m e'))
      → Balanced (record e { calls = c ∷ e.calls })
      → Leaves ((call w c >> m) e)
  first c e m h b =
      ended (record e { calls = c ∷ e.calls }) ((call w c >> m) e) (first-Ends c e m h) b

  -- What handles a failed start: it throws too.
  start_fails :
      (e : CoreEngine) (o : Attempt (Unit {0}))
      → Ends e o
      → Ends e (caught o (handle_critical_failure w >> throw))
  unfolding Ends Throws
  start_fails e (returns a e') k = k
  start_fails e (Attempt.throws e') k =
      handled (handle_critical_failure w e') (handle_critical_failure-Throws w e')
    where
      handled :
          (o : Attempt (Unit {0})) → Throws e' o → Ends e (continue o (λ _. throw {A = Unit {0}}))
      handled (returns a e'') t = elim t [ ]
      handled (Attempt.throws e'') t = Kept-trans e e' e'' k t
      handled crashes t = elim t [ ]
  start_fails e crashes k = k

  start-Leaves : (e : CoreEngine) → Balanced e → Leaves (start w e)
  unfolding start start_all Balanced exchange_running call is_start is_stop
  start-Leaves e b = elim (Bool-cases e.running) [
    | inl on ↦ (record e { running = true }, rw on refl, rw on at b)
    | inr off ↦
        let on : CoreEngine = record e { running = true } in
        rw off (
          ended (record on { calls = start_network ∷ e.calls })
            (caught (start_all w on) (handle_critical_failure w >> throw))
            (start_fails (record on { calls = start_network ∷ e.calls }) (start_all w on)
              (first-Ends start_network on _ (start_rest-Ends w)))
            (let b' : tally is_start e.calls ≡ tally is_stop e.calls + 0 = (rw off at b) in
              omega arith))
  ]

  emergency_stop-Leaves : (e : CoreEngine) → Balanced e → Leaves (emergency_stop w e)
  unfolding emergency_stop Balanced exchange_running is_start is_stop
  emergency_stop-Leaves e b = elim (Bool-cases e.running) [
    | inl on ↦ rw on (
        first reset_work_guard (record e { running = false }) _
          (λ e1. continue-Ends e1 _ _ (call-Ends w stop_work_pool refl refl e1) (λ _ e2.
            continue-Ends e2 _ _ (call-Ends w stop_io_context refl refl e2) (λ _ e3.
              continue-Ends e3 _ _ (save_recovery_state-Ends w e3) (λ _ e4.
                continue-Ends e4 _ _ (cleanup_resources-Ends w e4)
                  (λ _ e5. call-Ends w log_emergency_stop refl refl e5)))))
          (let b' : tally is_start e.calls ≡ tally is_stop e.calls + 1 = (rw on at b) in
            omega arith))
    | inr off ↦ (record e { running = false }, rw off refl, rw off at b)
  ]

  graceful_shutdown-Leaves : (e : CoreEngine) → Balanced e → Leaves (graceful_shutdown w e)
  unfolding graceful_shutdown Balanced exchange_running is_start is_stop
  graceful_shutdown-Leaves e b = elim (Bool-cases e.running) [
    | inl on ↦ rw on (
        first stop_scheduler (record e { running = false }) _
          (λ e1. continue-Ends e1 _ _ (call-Ends w stop_consensus refl refl e1) (λ _ e2.
            continue-Ends e2 _ _ (call-Ends w shutdown_rest_server refl refl e2) (λ _ e3.
              continue-Ends e3 _ _ (call-Ends w disable_autoscaler refl refl e3) (λ _ e4.
                continue-Ends e4 _ _ (call-Ends w stop_work_pool refl refl e4) (λ _ e5.
                  continue-Ends e5 _ _ (call-Ends w join_work_pool refl refl e5)
                    (λ _ e6. call-Ends w log_graceful_shutdown refl refl e6))))))
          (let b' : tally is_start e.calls ≡ tally is_stop e.calls + 1 = (rw on at b) in
            omega arith))
    | inr off ↦ (record e { running = false }, rw off refl, rw off at b)
  ]

  perform-Balanced :
      (op : Operation) (e : CoreEngine)
      → Balanced e
      → (e' : CoreEngine) × (perform op e ≡ some e') × Balanced e'
  unfolding perform
  perform-Balanced starting e b = start-Leaves e b
  perform-Balanced stopping e b = emergency_stop-Leaves e b
  perform-Balanced shutting_down e b = graceful_shutdown-Leaves e b
  perform-Balanced checking e b = ended e (check_system_health w e) (check_system_health-Ends w e) b
  perform-Balanced scaling e b = ended e (scale_resources w e) (scale_resources-Ends w e) b

  -- Whatever the components answer or throw, any sequence of starts, stops, shutdowns, health checks and
  -- scalings ends, and keeps the balance: the starts that found the engine stopped are as many as the stops and
  -- shutdowns that found it running, and one more while it runs.
  pub run-Balanced :
      (ops : List Operation) (e : CoreEngine)
      → tally is_start e.calls ≡ tally is_stop e.calls + (if e.running then 1 else 0)
      → (e' : CoreEngine) × (run ops e ≡ some e')
        × (tally is_start e'.calls ≡ tally is_stop e'.calls + (if e'.running then 1 else 0))
  unfolding run Balanced
  run-Balanced [] e b = (e, refl, b)
  run-Balanced (op ∷ ops) e b =
      let (e1, r1, b1) = perform-Balanced op e b in
      let (e2, r2, b2) = run-Balanced ops e1 b1 in
      (e2, ap (λ o. elim o [ none ↦ none | some e' ↦ run ops e' ]) r1 ∙ r2, b2)

  started :
      (e : CoreEngine) (o : Attempt (Unit {0}))
      → Ends e o
      → (e' : CoreEngine) × ((o ≡ returns tt e') ⊎ (o ≡ Attempt.throws e'))
        × (e'.running ≡ e.running)
  unfolding Ends
  started e (returns a e') k = (e', inl refl, k.running)
  started e (Attempt.throws e') k = (e', inr refl, k.running)
  started e crashes k = elim k [ ]

  -- A start that throws leaves the engine marked as running, as one that comes back does: the next start does
  -- nothing at all.
  pub start-start :
      (e : CoreEngine)
      → (e' : CoreEngine) × ((start w e ≡ returns tt e') ⊎ (start w e ≡ Attempt.throws e'))
        × (e'.running ≡ true)
        × (start w e' ≡ returns tt e')
  unfolding start start_all exchange_running
  start-start e = elim (Bool-cases e.running) [
    | inl on ↦ (record e { running = true }, inl (rw on refl), refl, refl)
    | inr off ↦
        let on : CoreEngine = record e { running = true } in
        let first_call : CoreEngine = record on { calls = start_network ∷ e.calls } in
        let (e', ends, running) =
          started first_call (caught (start_all w on) (handle_critical_failure w >> throw)) (
            start_fails first_call (start_all w on)
              (first-Ends start_network on _ (start_rest-Ends w))) in
        (e', rw off ends, running, again e' running)
  ]
    where
      again : (e' : CoreEngine) → e'.running ≡ true → start w e' ≡ returns tt e'
      again e' on = rw on refl

-- ===== src/Core/LoadBalancer/Control.antt =====
-- The part of `LoadBalancer` that watches cores: health, thresholds, redistribution and the monitoring
-- thread.
use cloud_fly_prlatform.Prelude.{
  ℕ, zero, suc, Bool, false, ◌&&◌, ◌||◌, List, [], ◌∷◌, some, none, if◌then◌else◌, ◌==◌, diverge,
}
use cloud_fly_prlatform.Prelude.Maps.{nat_eq, Map, find, insert}
use cloud_fly_prlatform.Prelude.Locks.{
  ◌>>=◌, ◌>>◌, lock_guard, pure, abort, found, modify, skip, gets,
}
use cloud_fly_prlatform.Core.LoadBalancer.{
  Doubles, CoreMetrics, Engine, compute_engine, blockchain_engine, network_manager, storage_manager,
  EngineCall, optimizes, adjusts, cleans, Task, Call, metrics_mutex, task_mutex, no_core,
  call_if_present, for_each, hand_over, find_least_loaded_core,
}

module _ (d : Doubles) where
  unfoldable pub update_core_metrics : ℕ → CoreMetrics d → Call d (Unit {0})
  update_core_metrics core_id m =
      lock_guard metrics_mutex
        (modify (λ s. record s { core_metrics = insert core_id m s.core_metrics }))

  unfoldable pub is_core_healthy : ℕ → Call d Bool
  is_core_healthy core_id =
      lock_guard metrics_mutex
        (found (λ s. find core_id s.core_metrics) (pure false) λ m. pure m.is_healthy)

  on_engines : (Engine → ℕ → EngineCall) → ℕ → Call d (Unit {0})
  unfolding call_if_present
  on_engines f core_id =
      call_if_present d compute_engine (f compute_engine core_id)
      >> call_if_present d blockchain_engine (f blockchain_engine core_id)
      >> call_if_present d network_manager (f network_manager core_id)
      >> call_if_present d storage_manager (f storage_manager core_id)

  unfoldable pub optimize_core_performance : ℕ → Call d (Unit {0})
  unfolding on_engines
  optimize_core_performance = on_engines optimizes

  unfoldable pub adjust_core_resources : ℕ → Call d (Unit {0})
  unfolding on_engines
  adjust_core_resources = on_engines adjusts

  unfoldable pub cleanup_core : ℕ → Call d (Unit {0})
  unfolding on_engines
  cleanup_core = on_engines cleans

  unfoldable pub assigned_to : ℕ → Map ℕ Task → List ℕ
  assigned_to core_id [] = []
  assigned_to core_id ((task_id, task) ∷ tasks) =
      let rest = assigned_to core_id tasks in
      if task.assigned_core == core_id then task_id ∷ rest else rest

  -- One pass of the second loop; the task is there, its number has just been read.
  unfoldable pub move_task : ℕ → Call d (Unit {0})
  unfolding find_least_loaded_core hand_over
  move_task task_id = find_least_loaded_core d >>= λ target.
      if target == no_core
      then skip
      else found (λ s. find task_id s.tasks) skip
          λ task.
            modify (λ s. record s {
              tasks = insert task_id (record task { assigned_core = target }) s.tasks;
            })
            >> hand_over d task_id (record task { assigned_core = target })

  unfoldable pub redistribute_tasks : ℕ → Call d (Unit {0})
  unfolding assigned_to move_task for_each
  redistribute_tasks failed_core_id =
      lock_guard task_mutex
        (gets (λ s. assigned_to failed_core_id s.tasks) >>= λ failed. for_each d failed move_task)

  -- `mark_core_unhealthy` calls `handle_core_failure`, which calls `mark_core_unhealthy` again: `fuel`
  -- bounds how deep. The call of `handle_core_failure` is its body, three calls.
  unfoldable pub mark_core_unhealthy : ℕ → ℕ → Call d (Unit {0})
  unfolding redistribute_tasks cleanup_core
  mark_core_unhealthy zero core_id = abort diverge
  mark_core_unhealthy (suc fuel) core_id = lock_guard metrics_mutex (
      found (λ s. find core_id s.core_metrics) skip
        λ m.
          modify (λ s. record s {
            core_metrics = insert core_id (record m { is_healthy = false }) s.core_metrics;
          })
          >> (mark_core_unhealthy fuel core_id
              >> redistribute_tasks core_id
              >> cleanup_core core_id))

  unfoldable pub handle_core_failure : ℕ → ℕ → Call d (Unit {0})
  unfolding mark_core_unhealthy redistribute_tasks cleanup_core
  handle_core_failure fuel core_id =
      mark_core_unhealthy fuel core_id >> redistribute_tasks core_id >> cleanup_core core_id

  abbrev overloaded : CoreMetrics d → Bool
  overloaded c =
      d.lt d.zero_point_eight c.metrics.cpu_usage
      || (d.lt d.zero_point_eight c.metrics.memory_usage
          || d.lt d.zero_point_eight c.metrics.network_usage)

  unfoldable pub overloaded_cores : Map ℕ (CoreMetrics d) → List ℕ
  overloaded_cores [] = []
  overloaded_cores ((core_id, c) ∷ cores) =
      let rest = overloaded_cores cores in if overloaded c then core_id ∷ rest else rest

  unfoldable pub rebalance_load : Call d (Unit {0})
  unfolding overloaded_cores redistribute_tasks for_each
  rebalance_load =
      lock_guard metrics_mutex (
        gets (λ s. overloaded_cores s.core_metrics) >>= λ cores.
        for_each d cores redistribute_tasks)

  unfoldable pub adjust_resources : ℕ → Call d (Unit {0})
  unfolding optimize_core_performance adjust_core_resources rebalance_load
  adjust_resources core_id =
      lock_guard metrics_mutex (gets (λ s. find core_id s.core_metrics)) >>= elim [
        | none ↦ skip
        | some c ↦
            (if d.lt d.zero_point_eight c.metrics.cpu_usage
              then optimize_core_performance core_id
              else skip)
            >> (if d.lt d.zero_point_eight c.metrics.memory_usage
                then adjust_core_resources core_id
                else skip)
            >> (if d.lt d.zero_point_eight c.metrics.network_usage then rebalance_load else skip)
      ]

  -- The sum of the healthy cores' use of the processor, and their number.
  total_load : d.Double → ℕ → Map ℕ (CoreMetrics d) → d.Double × ℕ
  total_load total healthy [] = (total, healthy)
  total_load total healthy ((core_id, c) ∷ cores) =
      let counted = total_load (d.add total c.metrics.cpu_usage) (suc healthy) cores in
      let passed = total_load total healthy cores in if c.is_healthy then counted else passed

  far_from : d.Double → ℕ × CoreMetrics d → Call d (Unit {0})
  unfolding optimize_core_performance
  far_from average (core_id, c) =
      if c.is_healthy && d.lt d.zero_point_two (d.abs (d.sub c.metrics.cpu_usage average))
      then optimize_core_performance core_id
      else skip

  unfoldable pub optimize_distribution : Call d (Unit {0})
  unfolding total_load far_from for_each
  optimize_distribution = lock_guard metrics_mutex (
      gets (λ s. s.core_metrics) >>= λ cores.
      let (total, healthy) = total_load d.zero_point_zero 0 cores in
      if healthy == 0 then skip else for_each d cores (far_from (d.div_count total healthy)))

  unfoldable pub update_all : ℕ → List (CoreMetrics d) → Call d (Unit {0})
  unfolding update_core_metrics
  update_all i [] = skip
  update_all i (m ∷ ms) = update_core_metrics i m >> update_all (suc i) ms

  unfoldable pub check_core : ℕ → ℕ × CoreMetrics d → Call d (Unit {0})
  unfolding handle_core_failure adjust_resources
  check_core fuel (core_id, c) =
      if c.is_healthy then adjust_resources core_id else handle_core_failure fuel core_id

  -- One round of the monitoring thread's loop, after the wait. `system` is what `get_system_metrics`
  -- of the compute engine answers, each with `true` for its health; it is empty without that engine.
  -- The lock taken for the check of the cores is held to the end of the round.
  unfoldable pub monitor_cores : ℕ → List (CoreMetrics d) → Call d (Unit {0})
  unfolding update_all check_core for_each optimize_distribution
  monitor_cores fuel system =
      update_all 0 system
      >> lock_guard metrics_mutex (
          gets (λ s. s.core_metrics) >>= λ cores.
          for_each d cores (check_core fuel) >> optimize_distribution)

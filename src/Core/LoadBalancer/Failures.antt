-- ===== src/Core/LoadBalancer/Failures.antt =====
-- Core failures, the monitoring thread and rebalancing: where `metrics_mutex_` is locked twice.
use cloud_fly_prlatform.Prelude.{
  ℕ, suc, ◌+◌, ◌≡◌, ◌↔◌, ◌⊎◌, inl, inr, refl, List, [], ◌∷◌, some, none, arith, Option-cases,
  returns, stops, deadlock,
}
use cloud_fly_prlatform.Prelude.Maps.{Map, nat_eq, find}
use cloud_fly_prlatform.Core.LoadBalancer.{
  Doubles, CoreMetrics, LoadBalancer, for_each, find_least_loaded_core, metrics_mutex,
}
use cloud_fly_prlatform.Core.LoadBalancer.Control.{
  mark_core_unhealthy, handle_core_failure, adjust_resources, optimize_distribution,
  update_core_metrics, update_all, check_core, monitor_cores, assigned_to, move_task,
  redistribute_tasks, rebalance_load, overloaded_cores,
}

-- `mark_core_unhealthy` of a core with metrics waits for ever for the mutex that it holds, as it calls
-- itself through `handle_core_failure`; two calls deep are enough. Of any other core it changes nothing.
pub mark_core_unhealthy_lem :
    (d : Doubles) (fuel core_id : ℕ) (s : LoadBalancer d)
    → mark_core_unhealthy d (2 + fuel) core_id [] s
      ≡ elim (find core_id s.core_metrics) [ none ↦ returns (tt, s) | some c ↦ stops deadlock ]
unfolding mark_core_unhealthy
mark_core_unhealthy_lem d fuel core_id s = elim (Option-cases (find core_id s.core_metrics)) [
  | inl e ↦ ground (arith, e)
  | inr (c, e) ↦ ground (arith, e)
]

update_all-returns :
    (d : Doubles) (i : ℕ) (ms : List (CoreMetrics d)) (s : LoadBalancer d)
    → (s' : LoadBalancer d) × (update_all d i ms [] s ≡ returns (tt, s'))
unfolding update_all update_core_metrics
update_all-returns d i [] s = (s, refl)
update_all-returns d i (m ∷ ms) s = update_all-returns d (suc i) ms _

check_cores-deadlock :
    (d : Doubles) (fuel : ℕ) (cores : Map ℕ (CoreMetrics d)) (s : LoadBalancer d)
    → (for_each d cores (check_core d (suc fuel)) (metrics_mutex ∷ []) s ≡ stops deadlock)
      ⊎ (for_each d cores (check_core d (suc fuel)) (metrics_mutex ∷ []) s ≡ returns (tt, s))
unfolding for_each check_core handle_core_failure mark_core_unhealthy adjust_resources
check_cores-deadlock d fuel [] s = inr refl
check_cores-deadlock d fuel ((i, c) ∷ cores) s = inl (ground arith)

-- No round of the monitoring thread comes back, with or without cores: the lock for the check of the
-- cores is still held when `optimize_distribution` takes it again.
pub monitor_cores-deadlock :
    (d : Doubles) (fuel : ℕ) (system : List (CoreMetrics d)) (s : LoadBalancer d)
    → monitor_cores d (suc fuel) system [] s ≡ stops deadlock
unfolding monitor_cores optimize_distribution
monitor_cores-deadlock d fuel system s =
    let (s', e) = update_all-returns d 0 system s in
    elim (check_cores-deadlock d fuel s'.core_metrics s') [
      | inl q ↦ ground (arith, e, q)
      | inr q ↦ ground (arith, e, q)
    ]

module _ (d : Doubles) where
  -- None of the cores has a task.
  abbrev pub AllIdle : List ℕ → LoadBalancer d → Type 0
  AllIdle [] s = Unit {0}
  AllIdle (c ∷ cs) s = (assigned_to d c s.tasks ≡ []) × AllIdle cs s

  redistribute-cases :
      (c : ℕ) (s : LoadBalancer d)
      → ((assigned_to d c s.tasks ≡ [])
          × (redistribute_tasks d c (metrics_mutex ∷ []) s ≡ returns (tt, s)))
        ⊎ ((t : ℕ) × (ts : List ℕ) × (assigned_to d c s.tasks ≡ t ∷ ts)
            × (redistribute_tasks d c (metrics_mutex ∷ []) s ≡ stops deadlock))
  unfolding redistribute_tasks for_each move_task find_least_loaded_core
  redistribute-cases c s = by_tasks (assigned_to d c s.tasks) refl
    where
      by_tasks :
          (ts : List ℕ)
          → assigned_to d c s.tasks ≡ ts
          → ((assigned_to d c s.tasks ≡ [])
              × (redistribute_tasks d c (metrics_mutex ∷ []) s ≡ returns (tt, s)))
            ⊎ ((t : ℕ) × (ts : List ℕ) × (assigned_to d c s.tasks ≡ t ∷ ts)
                × (redistribute_tasks d c (metrics_mutex ∷ []) s ≡ stops deadlock))
      by_tasks [] e = inl (e, ground (arith, e))
      by_tasks (t ∷ ts) e = inr (t, ts, e, ground (arith, e))

  redistribute_all-cases :
      (cs : List ℕ) (s : LoadBalancer d)
      → (AllIdle cs s
          × (for_each d cs (redistribute_tasks d) (metrics_mutex ∷ []) s ≡ returns (tt, s)))
        ⊎ ((¬ AllIdle cs s)
            × (for_each d cs (redistribute_tasks d) (metrics_mutex ∷ []) s ≡ stops deadlock))
  unfolding for_each
  redistribute_all-cases [] s = inl (tt, refl)
  redistribute_all-cases (c ∷ cs) s = elim (redistribute-cases c s) [
    | inr (t, ts, e, q) ↦ inr ((λ (idle, _). absurd (ground (arith, e, idle))), ground (arith, q))
    | inl (idle, q) ↦ elim (redistribute_all-cases cs s) [
      | inl (all, r) ↦ inl ((idle, all), ground (arith, q, r))
      | inr (busy, r) ↦ inr ((λ (_, all). busy all), ground (arith, q, r))
    ]
  ]

-- `rebalance_load` either changes nothing or waits for ever for the mutex that it holds, and the first
-- exactly when no overloaded core has a task: it never moves one.
pub rebalance_load_iff :
    (d : Doubles) (s : LoadBalancer d)
    → ((rebalance_load d [] s ≡ returns (tt, s)) ↔ AllIdle d (overloaded_cores d s.core_metrics) s)
      × ((rebalance_load d [] s ≡ stops deadlock)
          ↔ (¬ AllIdle d (overloaded_cores d s.core_metrics) s))
unfolding rebalance_load
rebalance_load_iff d s = elim (redistribute_all-cases d (overloaded_cores d s.core_metrics) s) [
  | inl (idle, e) ↦ (
    ((λ _. idle), λ _. ground (arith, e)),
    ((λ q. absurd (ground (arith, e, q))), λ busy. absurd (busy idle)),
  )
  | inr (busy, e) ↦ (
    ((λ q. absurd (ground (arith, e, q))), λ idle. absurd (busy idle)),
    ((λ _. busy), λ _. ground (arith, e)),
  )
]

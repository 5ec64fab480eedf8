-- ===== src/Core/LoadBalancer/Tests.antt =====
-- The load balancer at concrete inputs, with natural numbers for `double`.
use cloud_fly_prlatform.Prelude.{
  ℕ, ◌+◌, ◌-◌, ◌*◌, ◌≡◌, ◌≢◌, ◌⊎◌, ◌↔◌, refl, true, false, [], ◌∷◌, ◌++◌, some, arith, ltb, returns,
  stops, deadlock,
}
use cloud_fly_prlatform.Prelude.Maps.{nat_eq, find}
use cloud_fly_prlatform.Core.LoadBalancer.{
  Doubles, CoreMetrics, LoadBalancer, Task, compute, compute_engine, submits, cancels, pending,
  cancelled, no_core, engine_of, find_least_loaded_core, submit_task, cancel_task, get_task_status,
}
use cloud_fly_prlatform.Core.LoadBalancer.Control.{
  mark_core_unhealthy, monitor_cores, rebalance_load, overloaded_cores, assigned_to,
}
use cloud_fly_prlatform.Core.LoadBalancer.Least.{
  IsStrictOrder, NoneBelow, LeastBelow, find_least_loaded_core-LeastBelow,
}
use cloud_fly_prlatform.Core.LoadBalancer.Failures.{
  AllIdle, mark_core_unhealthy_lem, monitor_cores-deadlock, rebalance_load_iff,
}
use cloud_fly_prlatform.Core.LoadBalancer.Tasks.{submit-cancel-calls}

-- Loads in tenths.
abbrev demo : Doubles
demo = record {
  Double = ℕ;
  add = ◌+◌;
  sub = ◌-◌;
  mul = ◌*◌;
  abs = λ a. a;
  div_count = λ a n. a;
  lt = ltb;
  greatest = 1000000;
  zero_point_zero = 0;
  zero_point_two = 2;
  zero_point_three = 3;
  zero_point_four = 4;
  zero_point_eight = 8;
}

demo-IsStrictOrder : IsStrictOrder demo
demo-IsStrictOrder = record { irrefl = irrefl; trans = trans }
  where
    irrefl : (a : ℕ) → ltb a a ≡ false
    irrefl a = ground arith

    trans : (a b c : ℕ) → ltb a b ≡ true → ltb b c ≡ true → ltb a c ≡ true
    trans a b c h k = ground arith

abbrev core : ℕ → CoreMetrics demo
core usage = record {
  metrics = record {
    cpu_usage = usage;
    memory_usage = usage;
    network_usage = usage;
    queue_size = 0;
    active_tasks = 0;
  };
  is_healthy = true;
}

abbrev job : Task
job = record { kind = compute; assigned_core = 3 }

abbrev balancer : LoadBalancer demo
balancer = record {
  present = λ e. true;
  calls = [];
  running = true;
  paused = false;
  tasks = (1, job) ∷ [];
  task_status = [];
  task_metrics = [];
  core_metrics =
      (0, core 5) ∷ (1, record (core 1) { is_healthy = false }) ∷ (2, core 2) ∷ (3, core 9) ∷ [];
}

finds_core_two : find_least_loaded_core demo [] balancer ≡ returns (2, balancer)
unfolding find_least_loaded_core
finds_core_two = refl

find_least_loaded_core-LeastBelow_example :
    (r : ℕ) × (find_least_loaded_core demo [] balancer ≡ returns (r, balancer))
    × (((r ≡ no_core) × NoneBelow demo 1000000 balancer.core_metrics)
        ⊎ LeastBelow demo 1000000 balancer.core_metrics r)
find_least_loaded_core-LeastBelow_example =
    find_least_loaded_core-LeastBelow demo balancer demo-IsStrictOrder

mark_core_unhealthy_lem_runs : mark_core_unhealthy demo 5 2 [] balancer ≡ stops deadlock
mark_core_unhealthy_lem_runs = mark_core_unhealthy_lem demo 3 2 balancer

monitor_cores-deadlock_runs :
    monitor_cores demo 1 [] [] (record balancer { core_metrics = [] }) ≡ stops deadlock
monitor_cores-deadlock_runs =
    monitor_cores-deadlock demo 0 [] (record balancer { core_metrics = [] })

rebalance_load_iff_runs :
    ((rebalance_load demo [] balancer ≡ returns (tt, balancer))
      ↔ AllIdle demo (overloaded_cores demo balancer.core_metrics) balancer)
    × ((rebalance_load demo [] balancer ≡ stops deadlock)
        ↔ (¬ AllIdle demo (overloaded_cores demo balancer.core_metrics) balancer))
rebalance_load_iff_runs = rebalance_load_iff demo balancer

overloaded_core_has_a_task : rebalance_load demo [] balancer ≡ stops deadlock
unfolding overloaded_cores assigned_to
overloaded_core_has_a_task =
    (rebalance_load_iff demo balancer).1.1 λ idle. absurd (ground (arith, idle.0))

submit-cancel-calls_runs :
    (id : ℕ) × (s1 : LoadBalancer demo) × (s2 : LoadBalancer demo) × (id ≡ 2)
    × (submit_task demo job [] balancer ≡ returns (id, s1))
    × (s1.calls ≡ submits compute_engine id job ∷ [])
    × (find id s1.tasks ≡ some job)
    × (get_task_status demo id [] s1 ≡ returns (pending, s1))
    × (cancel_task demo id [] s1 ≡ returns (tt, s2))
    × (s2.calls ≡ s1.calls ++ (cancels compute_engine id ∷ []))
    × (get_task_status demo id [] s2 ≡ returns (cancelled, s2))
submit-cancel-calls_runs =
    submit-cancel-calls demo job compute_engine 2 balancer finds_core_two two engine refl
  where
    two : ◌≢◌ {A = ℕ} 2 no_core
    two e = omega (arith, e)

    engine : engine_of demo compute ≡ some compute_engine
    engine = unfold engine_of in refl

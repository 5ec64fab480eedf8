-- ===== src/Core/LoadBalancer.antt =====
-- `LoadBalancer` (src/core/LoadBalancer.cpp, include/core/LoadBalancer.h): tasks handed to four engines,
-- and the health and load of cores, under three mutexes.
pub mod Control
pub mod Least
pub mod Failures
pub mod Tasks
pub mod Tests
use cloud_fly_prlatform.Prelude.{
  ℕ, zero, suc, ◌-◌, ◌^◌, Bool, true, false, ◌&&◌, List, [], ◌∷◌, ◌++◌, Option, some, none,
  if◌then◌else◌, ◌==◌, length, thrown, fault,
}
use cloud_fly_prlatform.Prelude.Maps.{nat_eq, Map, find, insert}
use cloud_fly_prlatform.Prelude.Locks.{
  Guarded, ◌>>=◌, ◌>>◌, lock_guard, pure, abort, found, modify, skip, gets,
}

abbrev pub state_mutex : ℕ
state_mutex = 0

abbrev pub task_mutex : ℕ
task_mutex = 1

abbrev pub metrics_mutex : ℕ
metrics_mutex = 2

-- `static_cast<size_t>(-1)`
abbrev pub no_core : ℕ
no_core = 2 ^ 64 - 1

-- `core/Task.h` is not in the repository: these are the values that its users name, and any other type.
pub data TaskType : Type 0 where
  compute blockchain network storage other : TaskType

pub data TaskStatus : Type 0 where
  pending cancelled unknown : TaskStatus

-- The four components that the balancer calls.
pub data Engine : Type 0 where
  compute_engine blockchain_engine network_manager storage_manager : Engine

pub record Task : Type 0 where
  pub kind : TaskType
  pub assigned_core : ℕ

-- What the balancer asks of an engine.
pub data EngineCall : Type 0 where
  submits : Engine → ℕ → Task → EngineCall
  cancels optimizes adjusts cleans : Engine → ℕ → EngineCall

-- `double`: `lt` is false on a NaN.
pub record Doubles : Type 1 where
  pub Double : Type 0
  pub add : Double → Double → Double
  pub sub : Double → Double → Double
  pub mul : Double → Double → Double
  pub abs : Double → Double
  pub div_count : Double → ℕ → Double
  pub lt : Double → Double → Bool
  pub greatest : Double
  pub zero_point_zero : Double
  pub zero_point_two : Double
  pub zero_point_three : Double
  pub zero_point_four : Double
  pub zero_point_eight : Double

module _ (d : Doubles) where
  pub record TaskMetrics : Type 0 where
    pub cpu_usage : d.Double
    pub memory_usage : d.Double
    pub network_usage : d.Double
    pub queue_size : ℕ
    pub active_tasks : ℕ

  -- The time of the last update is written and never read.
  pub record CoreMetrics : Type 0 where
    pub metrics : TaskMetrics
    pub is_healthy : Bool

  -- `present` tells which engine pointers are set; `calls` are the calls made on engines, oldest first.
  pub record LoadBalancer : Type 0 where
    pub present : Engine → Bool
    pub calls : List EngineCall
    pub running : Bool
    pub paused : Bool
    pub tasks : Map ℕ Task
    pub task_status : Map ℕ TaskStatus
    pub task_metrics : Map ℕ TaskMetrics
    pub core_metrics : Map ℕ CoreMetrics

  abbrev Call : Type 0 → Type 0
  Call = Guarded LoadBalancer

  emit : EngineCall → Call (Unit {0})
  emit c = modify (λ s. record s { calls = s.calls ++ (c ∷ []) })

  -- A call through a pointer, which faults on null.
  call_on : Engine → EngineCall → Call (Unit {0})
  unfolding emit
  call_on e c held s = (if s.present e then emit c else abort fault) held s

  -- `if (engine_) engine_->f(core_id)`
  call_if_present : Engine → EngineCall → Call (Unit {0})
  unfolding emit
  call_if_present e c held s = (if s.present e then emit c else skip) held s

  for_each : {A : Type 0} → List A → (A → Call (Unit {0})) → Call (Unit {0})
  for_each [] body = skip
  for_each (x ∷ xs) body = body x >> for_each xs body

  unfoldable pub start : Call (Unit {0})
  start = modify (λ s. record s { running = true })

  unfoldable pub stop : Call (Unit {0})
  stop held s =
      if s.running
      then (modify (λ s. record s { running = false }) >> lock_guard state_mutex skip) held s
      else skip held s

  unfoldable pub pause : Call (Unit {0})
  pause = lock_guard state_mutex (modify (λ s. record s { paused = true }))

  unfoldable pub resume : Call (Unit {0})
  resume = lock_guard state_mutex (modify (λ s. record s { paused = false }))

  unfoldable pub load : CoreMetrics → d.Double
  load c =
      d.add
        (d.add (d.mul c.metrics.cpu_usage d.zero_point_four)
          (d.mul c.metrics.memory_usage d.zero_point_three))
        (d.mul c.metrics.network_usage d.zero_point_three)

  -- The loop of `find_least_loaded_core`, on the best core and its load so far.
  unfoldable pub least : ℕ → d.Double → Map ℕ CoreMetrics → ℕ
  unfolding load
  least best min_load [] = best
  least best min_load ((core_id, c) ∷ cores) =
      let here = least core_id (load c) cores in
      let past = least best min_load cores in
      if c.is_healthy && d.lt (load c) min_load then here else past

  unfoldable pub find_least_loaded_core : Call ℕ
  unfolding least
  find_least_loaded_core =
      lock_guard metrics_mutex (gets (λ s. least no_core d.greatest s.core_metrics))

  -- The engine of a task, as the chain of `if`s picks it.
  unfoldable pub engine_of : TaskType → Option Engine
  engine_of compute = some compute_engine
  engine_of blockchain = some blockchain_engine
  engine_of network = some network_manager
  engine_of storage = some storage_manager
  engine_of other = none

  unfoldable pub hand_over : ℕ → Task → Call (Unit {0})
  unfolding engine_of call_on
  hand_over task_id task = elim (engine_of task.kind) [
    | none ↦ skip
    | some e ↦ call_on e (submits e task_id task)
  ]

  abbrev no_metrics : TaskMetrics
  no_metrics = record {
    cpu_usage = d.zero_point_zero;
    memory_usage = d.zero_point_zero;
    network_usage = d.zero_point_zero;
    queue_size = 0;
    active_tasks = 0;
  }

  unfoldable pub submit_task : Task → Call ℕ
  unfolding find_least_loaded_core hand_over
  submit_task task = lock_guard task_mutex do
    target_core ← find_least_loaded_core
    (if target_core == no_core then abort thrown else skip)
    count ← gets (λ s. length s.tasks)
    let task_id = suc count
    modify (λ s. record s {
      tasks = insert task_id task s.tasks;
      task_status = insert task_id pending s.task_status;
      task_metrics = insert task_id no_metrics s.task_metrics;
    })
    hand_over task_id task
    pure task_id

  unfoldable pub cancel_task : ℕ → Call (Unit {0})
  unfolding engine_of call_on
  cancel_task task_id = lock_guard task_mutex (
      found (λ s. find task_id s.tasks) skip
        λ task. do
          (elim (engine_of task.kind) [ none ↦ skip | some e ↦ call_on e (cancels e task_id) ])
          modify (λ s. record s { task_status = insert task_id cancelled s.task_status }))

  unfoldable pub get_task_status : ℕ → Call TaskStatus
  get_task_status task_id =
      lock_guard task_mutex (found (λ s. find task_id s.task_status) (pure unknown) pure)

  unfoldable pub update_task_metrics : ℕ → TaskMetrics → Call (Unit {0})
  update_task_metrics task_id m =
      lock_guard task_mutex
        (modify (λ s. record s { task_metrics = insert task_id m s.task_metrics }))

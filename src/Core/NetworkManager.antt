-- ===== src/Core/NetworkManager.antt =====
-- `NetworkManager` (src/core/NetworkManager.cpp, include/core/NetworkManager.h): connections, cores and
-- tasks under four mutexes.
pub mod Connections
pub mod Tests
use cloud_fly_prlatform.Prelude.{
  ℕ, zero, suc, ◌+◌, ◌%◌, Bool, true, false, not, List, [], ◌∷◌, ◌++◌, Option, some, none,
  if◌then◌else◌, ltb, ◌==◌, length, get_elem?, set, replicate, ◌-◌,
}
use cloud_fly_prlatform.Prelude.{fault, thrown}
use cloud_fly_prlatform.Prelude.Maps.{nat_eq, Map, find, insert, erase}
use cloud_fly_prlatform.Prelude.Locks.{
  Guarded, ◌>>=◌, ◌>>◌, lock_guard, pure, abort, found, modify, skip, gets,
}

-- The mutexes of the class.
abbrev pub state_mutex : ℕ
state_mutex = 0

abbrev pub connection_mutex : ℕ
connection_mutex = 1

abbrev pub task_mutex : ℕ
task_mutex = 2

abbrev pub metrics_mutex : ℕ
metrics_mutex = 3

-- `core/Task.h` is not in the repository: these are the states that its users name.
pub data TaskStatus : Type 0 where
  pending cancelled unknown : TaskStatus

-- What is only declared (`Connection`, `NetworkCore`, `Task`), the sockets, and `double`.
pub record Parts : Type 1 where
  pub Connection : Type 0
  pub Core : Type 0
  pub Task : Type 0
  pub Config : Type 0
  pub Double : Type 0
  -- `socket`: no descriptor on an error. `connect`: false on an error other than EINPROGRESS.
  pub os_socket : Option ℕ
  pub os_connect : ℕ → Config → Bool
  pub new_connection : ℕ → Config → Connection
  -- `Connection::send` and `Connection::receive`: the bytes counted, and the connection after it.
  pub conn_send : Connection → List ℕ → ℕ × Connection
  pub conn_receive : Connection → ℕ → ℕ × List ℕ × Connection
  pub conn_cleanup : Connection → Connection
  pub conn_optimize : Connection → Connection
  pub conn_recover : Connection → Bool × Connection
  pub conn_is_healthy : Connection → Bool
  pub conn_bandwidth_usage : Connection → Double
  pub conn_latency : Connection → Double
  pub conn_queued : Connection → ℕ
  pub conn_failed : Connection → ℕ
  pub new_core : Core
  pub core_submit : Core → ℕ → Task → Core
  pub core_cancel : Core → ℕ → Core
  pub double_zero : Double
  pub double_add : Double → Double → Double
  pub double_div : Double → ℕ → Double

module _ (p : Parts) where
  pub record NetworkMetrics : Type 0 where
    pub bandwidth_usage : p.Double
    pub latency : p.Double
    pub active_connections : ℕ
    pub queued_requests : ℕ
    pub failed_requests : ℕ

  pub record NetworkManager : Type 0 where
    pub cores : List (Option p.Core)
    pub running : Bool
    pub paused : Bool
    pub connections : Map ℕ p.Connection
    pub tasks : Map ℕ p.Task
    pub task_status : Map ℕ TaskStatus
    pub metrics : NetworkMetrics

  abbrev Call : Type 0 → Type 0
  Call = Guarded NetworkManager

  -- The caller sees the lifecycle flags only; the monitoring thread's rounds are `monitor_connections`.
  unfoldable pub start : Call (Unit {0})
  start = modify (λ s. record s { running = true })

  unfoldable pub pause : Call (Unit {0})
  pause = lock_guard state_mutex (modify (λ s. record s { paused = true }))

  unfoldable pub resume : Call (Unit {0})
  resume = lock_guard state_mutex (modify (λ s. record s { paused = false }))

  -- `cores_.resize(core_id + 1)` fills up with null pointers.
  unfoldable pub initialize_core : ℕ → Call (Unit {0})
  initialize_core core_id = modify λ s.
      let missing = suc core_id - length s.cores in
      record s { cores = set (s.cores ++ replicate missing none) core_id (some p.new_core) }

  -- `if (core_id < cores_.size() && cores_[core_id]) cores_[core_id]->f()`, for all calls of this form:
  -- start, stop, pause, resume, adjust_resources, optimize_performance, optimize_cache,
  -- configure_memory, backup_state, restore_state and cleanup.
  unfoldable pub on_core : (p.Core → p.Core) → ℕ → Call (Unit {0})
  on_core f core_id held s = elim (get_elem? s.cores core_id) [
    | none ↦ skip held s
    | some none ↦ skip held s
    | some (some c) ↦ modify (λ s. record s { cores = set s.cores core_id (some (f c)) }) held s
  ]

  unfoldable pub cleanup_connection : ℕ → Call (Unit {0})
  cleanup_connection connection_id = lock_guard connection_mutex (
      found (λ s. find connection_id s.connections) skip
        λ conn. modify (λ s. record s {
          connections = insert connection_id (p.conn_cleanup conn) s.connections;
        }))

  abbrev erase_connection : ℕ → Call (Unit {0})
  erase_connection connection_id =
      modify (λ s. record s { connections = erase connection_id s.connections })

  -- `for (auto& [id, conn] : connections_) cleanup_connection(id)`
  cleanup_all : Map ℕ p.Connection → Call (Unit {0})
  cleanup_all [] = skip
  cleanup_all ((connection_id, conn) ∷ connections) =
      cleanup_connection connection_id >> cleanup_all connections

  -- With the flag down, the wait on the condition ends at once.
  unfoldable pub stop : Call (Unit {0})
  unfolding cleanup_all
  stop held s =
      if s.running
      then (modify (λ s. record s { running = false })
            >> lock_guard state_mutex (
                lock_guard connection_mutex (
                  gets (λ s. s.connections)
                  >>= cleanup_all
                  >> modify (λ s. record s { connections = [] }))))
          held s
      else skip held s

  unfoldable pub connect : p.Config → Call ℕ
  connect config = elim p.os_socket [
    | none ↦ abort thrown
    | some sock ↦
        if not (p.os_connect sock config)
        then abort thrown
        else lock_guard connection_mutex do
          count ← gets (λ s. length s.connections)
          let connection_id = suc count
          modify (λ s. record s {
            connections = insert connection_id (p.new_connection sock config) s.connections;
          })
          pure connection_id
  ]

  unfoldable pub disconnect : ℕ → Call (Unit {0})
  unfolding cleanup_connection
  disconnect connection_id = lock_guard connection_mutex (
      found (λ s. find connection_id s.connections) skip
        λ conn. cleanup_connection connection_id >> erase_connection connection_id)

  unfoldable pub send : ℕ → List ℕ → Call ℕ
  send connection_id bytes = lock_guard connection_mutex (
      found (λ s. find connection_id s.connections) (pure 0)
        λ conn. do
          let (count, conn') = p.conn_send conn bytes
          modify (λ s. record s { connections = insert connection_id conn' s.connections })
          pure count)

  -- The count, and the bytes put into the caller's buffer.
  unfoldable pub receive : ℕ → ℕ → Call (ℕ × List ℕ)
  receive connection_id size = lock_guard connection_mutex (
      found (λ s. find connection_id s.connections) (pure (0, []))
        λ conn. do
          let (count, bytes, conn') = p.conn_receive conn size
          modify (λ s. record s { connections = insert connection_id conn' s.connections })
          pure (count, bytes))

  unfoldable pub send_all : List ℕ → Map ℕ p.Connection → Map ℕ p.Connection
  send_all bytes [] = []
  send_all bytes ((id, conn) ∷ conns) = (id, (p.conn_send conn bytes).1) ∷ send_all bytes conns

  unfoldable pub broadcast : List ℕ → Call (Unit {0})
  unfolding send_all
  broadcast bytes =
      lock_guard connection_mutex
        (modify (λ s. record s { connections = send_all bytes s.connections }))

  -- `task_id % cores_.size()`; with no core that divides by zero.
  target_core : ℕ → Call ℕ
  target_core task_id held s =
      if length s.cores == 0 then abort fault held s else pure (task_id % length s.cores) held s

  unfoldable pub submit_task : ℕ → p.Task → Call ℕ
  unfolding on_core target_core
  submit_task task_id task = lock_guard task_mutex do
    modify (λ s. record s {
      tasks = insert task_id task s.tasks;
      task_status = insert task_id pending s.task_status;
    })
    target ← target_core task_id
    on_core (λ c. p.core_submit c task_id task) target
    pure task_id

  unfoldable pub cancel_task : ℕ → Call (Unit {0})
  unfolding on_core target_core
  cancel_task task_id = lock_guard task_mutex (
      found (λ s. find task_id s.tasks) skip
        λ task. do
          target ← target_core task_id
          on_core (λ c. p.core_cancel c task_id) target
          modify (λ s. record s { task_status = insert task_id cancelled s.task_status }))

  unfoldable pub get_task_status : ℕ → Call TaskStatus
  get_task_status task_id =
      lock_guard task_mutex (found (λ s. find task_id s.task_status) (pure unknown) pure)

  unfoldable pub get_metrics : Call NetworkMetrics
  get_metrics = lock_guard metrics_mutex (gets (λ s. s.metrics))

  unfoldable pub update_metrics : NetworkMetrics → Call (Unit {0})
  update_metrics metrics = lock_guard metrics_mutex (modify (λ s. record s { metrics = metrics }))

  unfoldable pub handle_connection_failure : ℕ → Call (Unit {0})
  unfolding cleanup_connection
  handle_connection_failure connection_id = lock_guard connection_mutex (
      found (λ s. find connection_id s.connections) skip
        λ conn. do
          let (recovered, conn') = p.conn_recover conn
          modify (λ s. record s { connections = insert connection_id conn' s.connections })
          if recovered
              then skip
              else (cleanup_connection connection_id >> erase_connection connection_id))

  unfoldable pub optimize_connection : ℕ → Call (Unit {0})
  optimize_connection connection_id = lock_guard connection_mutex (
      found (λ s. find connection_id s.connections) skip
        λ conn. modify (λ s. record s {
          connections = insert connection_id (p.conn_optimize conn) s.connections;
        }))

  abbrev zero_metrics : NetworkMetrics
  zero_metrics = record {
    bandwidth_usage = p.double_zero;
    latency = p.double_zero;
    active_connections = 0;
    queued_requests = 0;
    failed_requests = 0;
  }

  sum_metrics : NetworkMetrics → Map ℕ p.Connection → NetworkMetrics
  sum_metrics m [] = m
  sum_metrics m ((connection_id, conn) ∷ connections) =
      sum_metrics
        record {
          bandwidth_usage = p.double_add m.bandwidth_usage (p.conn_bandwidth_usage conn);
          latency = p.double_add m.latency (p.conn_latency conn);
          active_connections = m.active_connections + 1;
          queued_requests = m.queued_requests + p.conn_queued conn;
          failed_requests = m.failed_requests + p.conn_failed conn;
        }
        connections

  normalize : NetworkMetrics → NetworkMetrics
  normalize m =
      if ltb 0 m.active_connections
      then record m {
        bandwidth_usage = p.double_div m.bandwidth_usage m.active_connections;
        latency = p.double_div m.latency m.active_connections;
      }
      else m

  check_health : Map ℕ p.Connection → Call (Unit {0})
  unfolding handle_connection_failure optimize_connection
  check_health [] = skip
  check_health ((connection_id, conn) ∷ connections) =
      (if p.conn_is_healthy conn
        then optimize_connection connection_id
        else handle_connection_failure connection_id)
      >> check_health connections

  -- One round of the monitoring thread's loop, after the wait.
  unfoldable pub monitor_connections : Call (Unit {0})
  unfolding sum_metrics normalize update_metrics check_health
  monitor_connections = do
    sum ← lock_guard connection_mutex (gets (λ s. sum_metrics zero_metrics s.connections))
    update_metrics (normalize sum)
    lock_guard connection_mutex (gets (λ s. s.connections) >>= check_health)

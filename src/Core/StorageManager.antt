-- ===== src/Core/StorageManager.antt =====
-- `StorageManager` (src/core/StorageManager.cpp, include/core/StorageManager.h): files, cores and tasks
-- under four mutexes.
pub mod Files
pub mod Cores
pub mod Clients
pub mod Tests
use cloud_fly_prlatform.Prelude.{
  ℕ, zero, suc, ◌+◌, ◌%◌, Bool, true, false, List, [], ◌∷◌, ◌++◌, Option, some, none, if◌then◌else◌,
  ltb, ◌==◌, length, get_elem?, set, replicate, ◌-◌,
}
use cloud_fly_prlatform.Prelude.{fault, thrown}
use cloud_fly_prlatform.Prelude.Maps.{nat_eq, Map, find, insert, erase}
use cloud_fly_prlatform.Prelude.Locks.{
  Guarded, ◌>>=◌, ◌>>◌, lock_guard, pure, abort, found, modify, skip, gets,
}

-- The mutexes of the class.
abbrev pub state_mutex : ℕ
state_mutex = 0

abbrev pub file_mutex : ℕ
file_mutex = 1

abbrev pub task_mutex : ℕ
task_mutex = 2

abbrev pub metrics_mutex : ℕ
metrics_mutex = 3

-- `core/Task.h` is not in the repository: these are the states that its users name.
pub data TaskStatus : Type 0 where
  pending cancelled unknown : TaskStatus

-- What is only declared (`File`, `StorageCore`, `Task`), the file system, and `double`.
pub record Parts : Type 1 where
  pub File : Type 0
  pub Core : Type 0
  pub Task : Type 0
  pub Config : Type 0
  pub FilePath : Type 0
  pub Double : Type 0
  -- `::open`: no file descriptor on an error.
  pub os_open : FilePath → Option ℕ
  pub new_file : ℕ → Config → File
  -- `File::read` and `File::write`: the bytes counted, and the file after it.
  pub file_read : File → ℕ → ℕ → ℕ × List ℕ × File
  pub file_write : File → List ℕ → ℕ → ℕ × File
  pub file_cleanup : File → File
  pub file_optimize : File → File
  pub file_recover : File → Bool × File
  pub file_is_healthy : File → Bool
  pub file_disk_usage : File → Double
  pub file_io_throughput : File → Double
  pub file_active : File → ℕ
  pub file_queued : File → ℕ
  pub file_failed : File → ℕ
  pub new_core : Core
  pub core_submit : Core → ℕ → Task → Core
  pub core_cancel : Core → ℕ → Core
  pub double_zero : Double
  pub double_add : Double → Double → Double
  pub double_div : Double → ℕ → Double

module _ (p : Parts) where
  pub record StorageMetrics : Type 0 where
    pub disk_usage : p.Double
    pub io_throughput : p.Double
    pub active_operations : ℕ
    pub queued_operations : ℕ
    pub failed_operations : ℕ

  pub record StorageManager : Type 0 where
    pub cores : List (Option p.Core)
    pub running : Bool
    pub paused : Bool
    pub files : Map ℕ p.File
    pub tasks : Map ℕ p.Task
    pub task_status : Map ℕ TaskStatus
    pub metrics : StorageMetrics

  abbrev Call : Type 0 → Type 0
  Call = Guarded StorageManager

  -- The caller sees the lifecycle flags only; the monitoring thread's rounds are `monitor_storage`.
  unfoldable pub start : Call (Unit {0})
  start = modify (λ s. record s { running = true })

  unfoldable pub pause : Call (Unit {0})
  pause = lock_guard state_mutex (modify (λ s. record s { paused = true }))

  unfoldable pub resume : Call (Unit {0})
  resume = lock_guard state_mutex (modify (λ s. record s { paused = false }))

  -- `cores_.resize(core_id + 1)` fills up with null pointers.
  unfoldable pub initialize_core : ℕ → Call (Unit {0})
  initialize_core core_id = modify λ s.
      let missing = suc core_id - length s.cores in
      record s { cores = set (s.cores ++ replicate missing none) core_id (some p.new_core) }

  -- `if (core_id < cores_.size() && cores_[core_id]) cores_[core_id]->f()`, for all calls of this form:
  -- start, stop, pause, resume, adjust_resources, optimize_performance, optimize_cache,
  -- configure_memory, compact_memory, backup_state, restore_state and cleanup.
  unfoldable pub on_core : (p.Core → p.Core) → ℕ → Call (Unit {0})
  on_core f core_id held s = elim (get_elem? s.cores core_id) [
    | none ↦ skip held s
    | some none ↦ skip held s
    | some (some c) ↦ modify (λ s. record s { cores = set s.cores core_id (some (f c)) }) held s
  ]

  unfoldable pub cleanup_file : ℕ → Call (Unit {0})
  cleanup_file file_id = lock_guard file_mutex (
      found (λ s. find file_id s.files) skip
        λ file. modify (λ s. record s { files = insert file_id (p.file_cleanup file) s.files }))

  abbrev erase_file : ℕ → Call (Unit {0})
  erase_file file_id = modify (λ s. record s { files = erase file_id s.files })

  -- `for (auto& [id, file] : files_) cleanup_file(id)`
  cleanup_all : Map ℕ p.File → Call (Unit {0})
  cleanup_all [] = skip
  cleanup_all ((file_id, file) ∷ files) = cleanup_file file_id >> cleanup_all files

  -- With the flag down, the wait on the condition ends at once.
  unfoldable pub stop : Call (Unit {0})
  unfolding cleanup_all
  stop held s =
      if s.running
      then (modify (λ s. record s { running = false })
            >> lock_guard state_mutex (
                lock_guard file_mutex
                  (gets (λ s. s.files) >>= cleanup_all >> modify (λ s. record s { files = [] }))))
          held s
      else skip held s

  unfoldable pub open_file : p.FilePath → p.Config → Call ℕ
  open_file path config = elim (p.os_open path) [
    | none ↦ abort thrown
    | some fd ↦ lock_guard file_mutex do
      count ← gets (λ s. length s.files)
      let file_id = suc count
      modify (λ s. record s { files = insert file_id (p.new_file fd config) s.files })
      pure file_id
  ]

  unfoldable pub close_file : ℕ → Call (Unit {0})
  unfolding cleanup_file
  close_file file_id =
      lock_guard file_mutex
        (found (λ s. find file_id s.files) skip λ file. cleanup_file file_id >> erase_file file_id)

  unfoldable pub delete_file : ℕ → Call (Unit {0})
  unfolding cleanup_file
  delete_file file_id =
      lock_guard file_mutex
        (found (λ s. find file_id s.files) skip λ file. cleanup_file file_id >> erase_file file_id)

  -- The count, and the bytes put into the caller's buffer.
  unfoldable pub read_file : ℕ → ℕ → ℕ → Call (ℕ × List ℕ)
  read_file file_id size offset = lock_guard file_mutex (
      found (λ s. find file_id s.files) (pure (0, []))
        λ file. do
          let (count, bytes, file') = p.file_read file size offset
          modify (λ s. record s { files = insert file_id file' s.files })
          pure (count, bytes))

  unfoldable pub write_file : ℕ → List ℕ → ℕ → Call ℕ
  write_file file_id bytes offset = lock_guard file_mutex (
      found (λ s. find file_id s.files) (pure 0)
        λ file. do
          let (count, file') = p.file_write file bytes offset
          modify (λ s. record s { files = insert file_id file' s.files })
          pure count)

  -- `task_id % cores_.size()`; with no core that divides by zero.
  target_core : ℕ → Call ℕ
  target_core task_id held s =
      if length s.cores == 0 then abort fault held s else pure (task_id % length s.cores) held s

  unfoldable pub submit_task : ℕ → p.Task → Call ℕ
  unfolding on_core target_core
  submit_task task_id task = lock_guard task_mutex do
    modify (λ s. record s {
      tasks = insert task_id task s.tasks;
      task_status = insert task_id pending s.task_status;
    })
    target ← target_core task_id
    on_core (λ c. p.core_submit c task_id task) target
    pure task_id

  unfoldable pub cancel_task : ℕ → Call (Unit {0})
  unfolding on_core target_core
  cancel_task task_id = lock_guard task_mutex (
      found (λ s. find task_id s.tasks) skip
        λ task. do
          target ← target_core task_id
          on_core (λ c. p.core_cancel c task_id) target
          modify (λ s. record s { task_status = insert task_id cancelled s.task_status }))

  unfoldable pub get_task_status : ℕ → Call TaskStatus
  get_task_status task_id =
      lock_guard task_mutex (found (λ s. find task_id s.task_status) (pure unknown) pure)

  unfoldable pub get_metrics : Call StorageMetrics
  get_metrics = lock_guard metrics_mutex (gets (λ s. s.metrics))

  unfoldable pub update_metrics : StorageMetrics → Call (Unit {0})
  update_metrics metrics = lock_guard metrics_mutex (modify (λ s. record s { metrics = metrics }))

  unfoldable pub handle_file_failure : ℕ → Call (Unit {0})
  unfolding cleanup_file
  handle_file_failure file_id = lock_guard file_mutex (
      found (λ s. find file_id s.files) skip
        λ file. do
          let (recovered, file') = p.file_recover file
          modify (λ s. record s { files = insert file_id file' s.files })
          if recovered then skip else (cleanup_file file_id >> erase_file file_id))

  unfoldable pub optimize_file : ℕ → Call (Unit {0})
  optimize_file file_id = lock_guard file_mutex (
      found (λ s. find file_id s.files) skip
        λ file. modify (λ s. record s { files = insert file_id (p.file_optimize file) s.files }))

  abbrev zero_metrics : StorageMetrics
  zero_metrics = record {
    disk_usage = p.double_zero;
    io_throughput = p.double_zero;
    active_operations = 0;
    queued_operations = 0;
    failed_operations = 0;
  }

  sum_metrics : StorageMetrics → Map ℕ p.File → StorageMetrics
  sum_metrics m [] = m
  sum_metrics m ((file_id, file) ∷ files) =
      sum_metrics
        record {
          disk_usage = p.double_add m.disk_usage (p.file_disk_usage file);
          io_throughput = p.double_add m.io_throughput (p.file_io_throughput file);
          active_operations = m.active_operations + p.file_active file;
          queued_operations = m.queued_operations + p.file_queued file;
          failed_operations = m.failed_operations + p.file_failed file;
        }
        files

  normalize : StorageMetrics → StorageMetrics
  normalize m =
      if ltb 0 m.active_operations
      then record m {
        disk_usage = p.double_div m.disk_usage m.active_operations;
        io_throughput = p.double_div m.io_throughput m.active_operations;
      }
      else m

  check_health : Map ℕ p.File → Call (Unit {0})
  unfolding handle_file_failure optimize_file
  check_health [] = skip
  check_health ((file_id, file) ∷ files) =
      (if p.file_is_healthy file then optimize_file file_id else handle_file_failure file_id)
      >> check_health files

  -- One round of the monitoring thread's loop, after the wait.
  unfoldable pub monitor_storage : Call (Unit {0})
  unfolding sum_metrics normalize update_metrics check_health
  monitor_storage = do
    sum ← lock_guard file_mutex (gets (λ s. sum_metrics zero_metrics s.files))
    update_metrics (normalize sum)
    lock_guard file_mutex (gets (λ s. s.files) >>= check_health)

-- ===== src/Core/StorageManager/Tests.antt =====
-- The storage manager at concrete inputs, with a file as its bytes and a core as its tasks' numbers.
use cloud_fly_prlatform.Prelude.{
  ℕ, ◌≡◌, ◌≢◌, ◌↔◌, refl, true, false, List, [], ◌∷◌, ◌++◌, some, none, length, arith, returns,
  stops, deadlock, fault, get_elem?, ltb, if◌then◌else◌, ◌==◌, take, drop,
}
use cloud_fly_prlatform.Prelude.Maps.{nat_eq, find}
use cloud_fly_prlatform.Prelude.Locks.{◌>>=◌}
use cloud_fly_prlatform.Core.StorageManager.{
  Parts, StorageManager, pending, cancelled, zero_metrics, open_file, close_file, delete_file, stop,
  initialize_core, submit_task, cancel_task, get_task_status, handle_file_failure, write_file,
  monitor_storage,
}
use cloud_fly_prlatform.Core.StorageManager.Files.{
  Returns, open-close, stop_iff, monitor_storage_iff, handle_file_failure_iff,
}
use cloud_fly_prlatform.Core.StorageManager.Cores.{
  initialized, initialize_core-get, submit-cancel, submit_task-no_cores,
}
use cloud_fly_prlatform.Core.StorageManager.Clients.{
  Numbered, Kept, Request, opens, writes, run, perform, run-Numbered,
}

abbrev demo : Parts
demo = record {
  File = List ℕ;
  Core = List ℕ;
  Task = ℕ;
  Config = Unit {0};
  FilePath = ℕ;
  Double = ℕ;
  os_open = λ path. if path == 0 then none else some path;
  new_file = λ fd config. [];
  file_read = λ f size offset. (length (take size (drop offset f)), take size (drop offset f), f);
  file_write = λ f bytes offset. (length bytes, take offset f ++ bytes);
  file_cleanup = λ f. f;
  file_optimize = λ f. f;
  file_recover = λ f. (ltb 0 (length f), f);
  file_is_healthy = λ f. true;
  file_disk_usage = length;
  file_io_throughput = length;
  file_active = λ f. 1;
  file_queued = λ f. 0;
  file_failed = λ f. 0;
  new_core = [];
  core_submit = λ c i t. i ∷ c;
  core_cancel = λ c i. [];
  double_zero = 0;
  double_add = λ a b. a;
  double_div = λ a n. a;
}

abbrev fresh : StorageManager demo
fresh = record {
  cores = [];
  running = true;
  paused = false;
  files = [];
  tasks = [];
  task_status = [];
  metrics = zero_metrics demo;
}

abbrev one_file : StorageManager demo
one_file = record fresh { files = (1, 5 ∷ []) ∷ []; cores = some [] ∷ [] }

open-close_runs :
    ((open_file demo 3 tt >>= close_file demo) [] fresh ≡ stops deadlock)
    × ((open_file demo 3 tt >>= delete_file demo) [] fresh ≡ stops deadlock)
open-close_runs = open-close demo 3 tt 3 fresh refl

stop_iff_runs : Returns (stop demo [] one_file) ↔ (one_file.files ≡ [])
stop_iff_runs = stop_iff demo one_file refl

monitor_storage_iff_runs : Returns (monitor_storage demo [] one_file) ↔ (one_file.files ≡ [])
monitor_storage_iff_runs = monitor_storage_iff demo one_file

handle_file_failure_iff_runs :
    (Returns (handle_file_failure demo 1 [] one_file) ↔ (true ≡ true))
    × ((handle_file_failure demo 1 [] one_file ≡ stops deadlock) ↔ (true ≡ false))
handle_file_failure_iff_runs = handle_file_failure_iff demo 1 (5 ∷ []) one_file refl

initialize_core-get_runs :
    (s' : StorageManager demo) × (initialize_core demo 2 [] one_file ≡ returns (tt, s'))
    × (get_elem? s'.cores 1 ≡ initialized [] 2 one_file.cores 1)
    × (s' ≡ record one_file { cores = s'.cores })
initialize_core-get_runs = initialize_core-get demo 2 1 one_file

submit-cancel_runs :
    (s1 : StorageManager demo) × (s2 : StorageManager demo) × (submit_task demo 7 9 [] one_file
      ≡ returns (7, s1))
    × (get_task_status demo 7 [] s1 ≡ returns (pending, s1))
    × (cancel_task demo 7 [] s1 ≡ returns (tt, s2))
    × (get_task_status demo 7 [] s2 ≡ returns (cancelled, s2))
    × (find 8 s1.task_status ≡ find 8 one_file.task_status)
    × (find 8 s2.task_status ≡ find 8 one_file.task_status)
submit-cancel_runs = submit-cancel demo 7 9 one_file (omega arith) 8 eight
  where
    eight : ◌≢◌ {A = ℕ} 8 7
    eight e = omega (arith, e)

submit_task-no_cores_runs : submit_task demo 7 9 [] fresh ≡ stops fault
submit_task-no_cores_runs = submit_task-no_cores demo 7 9 fresh refl

two_writes : List (Request demo)
two_writes = opens 3 tt ∷ writes 1 (8 ∷ 9 ∷ []) 0 ∷ opens 4 tt ∷ []

after : StorageManager demo
after = record fresh { files = (1, 8 ∷ 9 ∷ []) ∷ (2, []) ∷ [] }

run-Numbered_example : Kept demo fresh after
run-Numbered_example = run-Numbered demo two_writes fresh after none_yet runs
  where
    none_yet : Numbered {F = List ℕ} []
    none_yet i = ((λ (f, e). absurd (ground arith)), λ h. absurd (omega (arith, h.0, h.1)))

    runs : run demo two_writes [] fresh ≡ returns (tt, after)
    runs = unfold two_writes after run perform open_file write_file in refl

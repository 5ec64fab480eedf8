-- ===== src/Storage/Tests.antt =====
-- Runs of `storage::StorageManager` (src/storage/storage_manager.cpp).
use Prim.Native.String.{String}
use cloud_fly_prlatform.Prelude.{
  ℕ, ◌-◌, ◌^◌, ◌≡◌, ◌≢◌, ◌↔◌, refl, arith, true, false, List, [], ◌∷◌, some, none, returns,
}
use cloud_fly_prlatform.Prelude.Maps.{string_eq, find}
use cloud_fly_prlatform.Prelude.Members.{Member}
use cloud_fly_prlatform.Prelude.Locks.{◌>>◌}
use cloud_fly_prlatform.Storage.{
  Parts, StorageConfig, block, no_replication, Storage, StorageManager, write_data, read_data,
  delete_data, subtract, wrap,
}
use cloud_fly_prlatform.Storage.Services.{
  delete_backup, list_backups, delete_snapshot, list_snapshots,
}
use cloud_fly_prlatform.Storage.View.{Operation, all_active, run, view, after_all}
use cloud_fly_prlatform.Storage.Refinement.{run_refines, read_data-answer, answer}
use cloud_fly_prlatform.Storage.Accounting.{write-delete-used_size}
use cloud_fly_prlatform.Storage.Backups.{delete-list}

abbrev parts : Parts
parts = record { Double = ℕ; double_zero = 0; moved_from = λ bytes. [] }

abbrev config : StorageConfig
config = record {
  name = "disk";
  storage_type = block;
  storage_path = "/srv";
  size_mb = 1;
  replication = no_replication;
  replication_factor = 1;
  encryption_enabled = true;
  encryption_key = "secret";
  compression_enabled = false;
  compression_algorithm = "";
}

abbrev fresh : StorageManager parts
fresh = record { storages = []; monitoring_active = false; now = 5; elapsed = 1 }

abbrev disk : Storage parts
disk = record {
  config = config;
  stats = record {
    total_size = 1048576;
    used_size = 0;
    available_size = 1048576;
    read_operations = 0;
    write_operations = 0;
    read_latency_ms = 0;
    write_latency_ms = 0;
    last_updated = 5;
  };
  created_at = 5;
  is_active = true;
  entries = [];
  backups = "monday" ∷ "tuesday" ∷ "monday" ∷ [];
  snapshots = [];
}

abbrev with_disk : StorageManager parts
with_disk = record fresh { storages = ("disk", disk) ∷ [] }

abbrev calls : List Operation
calls =
    Operation.create config
    ∷ Operation.write "disk" "k" (1 ∷ 2 ∷ [])
    ∷ Operation.monitor
    ∷ Operation.drop_storage "other"
    ∷ []

run_refines_example :
    (s' : StorageManager parts) × (run parts calls [] fresh ≡ returns (tt, s'))
    × (view parts s' ≡ after_all calls (view parts fresh))
    × (all_active parts s'.storages ≡ true)
unfolding all_active
run_refines_example = run_refines parts calls fresh refl

abbrev encryption_on : List Operation
encryption_on = Operation.create config ∷ Operation.write "disk" "k" (1 ∷ 2 ∷ []) ∷ []

-- The view of a storage with encryption holds what was written.
after_all_runs : answer parts (after_all encryption_on (view parts fresh)) "disk" "k" ≡ 1 ∷ 2 ∷ []
unfolding answer after_all view
after_all_runs = refl

read_data-answer_runs :
    (s' : StorageManager parts) × (read_data parts "disk" "k" [] with_disk
      ≡ returns (answer parts (view parts with_disk) "disk" "k", s'))
    × (view parts s' ≡ view parts with_disk)
read_data-answer_runs = read_data-answer parts "disk" "k" with_disk

write-delete-used_size_example :
    (s' : StorageManager parts) × (st' : Storage parts) × ((write_data parts "disk" "k" (1 ∷ 2 ∷ [])
          >> delete_data parts "disk" "k")
        [] with_disk
      ≡ returns (tt, s'))
    × (find "disk" s'.storages ≡ some st')
    × (st'.stats.used_size ≡ 2 ^ 64 - 2)
    × (find "k" st'.entries ≡ none)
unfolding subtract wrap
write-delete-used_size_example =
    write-delete-used_size parts (λ bytes. refl) with_disk "disk" "k" (1 ∷ 2 ∷ []) disk refl
      (omega arith)

delete-list_runs :
    ((names : List String) × (s' : StorageManager parts) × ((delete_backup parts "disk" "monday"
            >> list_backups parts "disk")
          [] with_disk
        ≡ returns (names, s'))
      × (Member "tuesday" names
          ↔ (Member "tuesday" disk.backups × (◌≢◌ {A = String} "tuesday" "monday"))))
    × (names : List String) × (s' : StorageManager parts) × ((delete_snapshot parts "disk" "monday"
            >> list_snapshots parts "disk")
          [] with_disk
        ≡ returns (names, s'))
    × (Member "tuesday" names
        ↔ (Member "tuesday" disk.snapshots × (◌≢◌ {A = String} "tuesday" "monday")))
delete-list_runs = delete-list parts with_disk "disk" "monday" "tuesday" disk refl

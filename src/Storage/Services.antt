-- ===== src/Storage/Services.antt =====
-- The services of `storage::StorageManager` (src/storage/storage_manager.cpp) around the entries: backups, snapshots,
-- codecs, statistics and the monitoring thread.
use Prim.Native.String.{String}
use cloud_fly_prlatform.Prelude.{
  ℕ, true, false, List, [], ◌∷◌, ◌++◌, Option, some, none, if◌then◌else◌,
}
use cloud_fly_prlatform.Prelude.Maps.{string_eq, Map, find}
use cloud_fly_prlatform.Prelude.Locks.{◌>>◌, lock_guard, found, modify, skip}
use cloud_fly_prlatform.Storage.{
  storages_mutex, ReplicationStrategy, Parts, remove_name, StorageStats, Storage, Call, change, ask,
}

module _ (p : Parts) where
  -- `start_replication`, `stop_replication`, `restore_from_backup` and `restore_from_snapshot` look the
  -- storage up and do nothing with it.
  unfoldable pub look_up : String → Call p (Unit {0})
  look_up storage_name =
      lock_guard storages_mutex (found (λ s. find storage_name s.storages) skip λ st. skip)

  unfoldable pub update_replication_strategy : String → ReplicationStrategy → Call p (Unit {0})
  unfolding change
  update_replication_strategy storage_name strategy =
      change p storage_name
        λ s st. record st { config = record (st.config) { replication = strategy } }

  unfoldable pub create_backup : String → String → Call p (Unit {0})
  unfolding change
  create_backup storage_name backup_name =
      change p storage_name (λ s st. record st { backups = st.backups ++ (backup_name ∷ []) })

  unfoldable pub delete_backup : String → String → Call p (Unit {0})
  unfolding change remove_name
  delete_backup storage_name backup_name =
      change p storage_name (λ s st. record st { backups = remove_name backup_name st.backups })

  unfoldable pub list_backups : String → Call p (List String)
  unfolding ask
  list_backups storage_name = ask p storage_name [] (λ st. st.backups)

  unfoldable pub start_storage_monitoring : Call p (Unit {0})
  start_storage_monitoring = modify (λ s. record s { monitoring_active = true })

  unfoldable pub stop_storage_monitoring : Call p (Unit {0})
  stop_storage_monitoring = modify (λ s. record s { monitoring_active = false })

  -- `none` is the statistics that `StorageStats{}` makes.
  unfoldable pub get_storage_stats : String → Call p (Option (StorageStats p))
  unfolding ask
  get_storage_stats storage_name = ask p storage_name none (λ st. some st.stats)

  unfoldable pub enable_encryption : String → String → Call p (Unit {0})
  unfolding change
  enable_encryption storage_name key = change p storage_name λ s st. record st {
    config = record (st.config) { encryption_enabled = true; encryption_key = key };
  }

  unfoldable pub disable_encryption : String → Call p (Unit {0})
  unfolding change
  disable_encryption storage_name =
      change p storage_name
        λ s st. record st { config = record (st.config) { encryption_enabled = false } }

  unfoldable pub rotate_encryption_key : String → String → Call p (Unit {0})
  unfolding change
  rotate_encryption_key storage_name new_key =
      change p storage_name
        λ s st. record st { config = record (st.config) { encryption_key = new_key } }

  unfoldable pub enable_compression : String → String → Call p (Unit {0})
  unfolding change
  enable_compression storage_name algorithm = change p storage_name λ s st. record st {
    config = record (st.config) { compression_enabled = true; compression_algorithm = algorithm };
  }

  unfoldable pub disable_compression : String → Call p (Unit {0})
  unfolding change
  disable_compression storage_name =
      change p storage_name
        λ s st. record st { config = record (st.config) { compression_enabled = false } }

  unfoldable pub create_snapshot : String → String → Call p (Unit {0})
  unfolding change
  create_snapshot storage_name snapshot_name =
      change p storage_name (λ s st. record st { snapshots = st.snapshots ++ (snapshot_name ∷ []) })

  unfoldable pub delete_snapshot : String → String → Call p (Unit {0})
  unfolding change remove_name
  delete_snapshot storage_name snapshot_name =
      change p storage_name
        (λ s st. record st { snapshots = remove_name snapshot_name st.snapshots })

  unfoldable pub list_snapshots : String → Call p (List String)
  unfolding ask
  list_snapshots storage_name = ask p storage_name [] (λ st. st.snapshots)

  unfoldable pub touch_all : ℕ → Map String (Storage p) → Map String (Storage p)
  touch_all now [] = []
  touch_all now ((name, st) ∷ storages) =
      (name, record st { stats = record (st.stats) { last_updated = now } })
      ∷ touch_all now storages

  unfoldable pub update_storage_stats : Call p (Unit {0})
  unfolding touch_all
  update_storage_stats =
      lock_guard storages_mutex (modify (λ s. record s { storages = touch_all s.now s.storages }))

  unfoldable pub keep_active : Map String (Storage p) → Map String (Storage p)
  keep_active [] = []
  keep_active ((name, st) ∷ storages) =
      let rest = keep_active storages in if st.is_active then (name, st) ∷ rest else rest

  unfoldable pub cleanup_inactive_storages : Call p (Unit {0})
  unfolding keep_active
  cleanup_inactive_storages =
      lock_guard storages_mutex (modify (λ s. record s { storages = keep_active s.storages }))

  -- One round of the thread; `check_storage_health` only goes through the storages.
  unfoldable pub monitoring_worker : Call p (Unit {0})
  unfolding update_storage_stats cleanup_inactive_storages
  monitoring_worker = update_storage_stats >> cleanup_inactive_storages

-- ===== src/Storage.antt =====
-- `storage::StorageManager` (src/storage/storage_manager.cpp, include/storage/storage_manager.h): named
-- storages of keys and bytes, under one mutex.
pub mod Services
pub mod View
pub mod Accounting
pub mod Leads
pub mod Refinement
pub mod Backups
pub mod Tests
use Prim.Native.String.{String}
use cloud_fly_prlatform.Prelude.{
  ℕ, zero, suc, ◌+◌, ◌-◌, ◌*◌, ◌%◌, ◌^◌, Bool, true, false, List, [], ◌∷◌, some, none,
  if◌then◌else◌, length, map, thrown,
}
use cloud_fly_prlatform.Prelude.Maps.{string_eq, Map, find, insert, erase}
use cloud_fly_prlatform.Prelude.Locks.{
  Guarded, ◌>>◌, lock_guard, pure, abort, found, modify, skip, gets,
}

abbrev pub storages_mutex : ℕ
storages_mutex = 0

pub data StorageType : Type 0 where
  block file object : StorageType

pub data ReplicationStrategy : Type 0 where
  synchronous asynchronous no_replication : ReplicationStrategy

abbrev pub Bytes : Type 0
Bytes = List ℕ

pub record StorageConfig : Type 0 where
  pub name : String
  pub storage_type : StorageType
  pub storage_path : String
  pub size_mb : ℕ
  pub replication : ReplicationStrategy
  pub replication_factor : ℕ
  pub encryption_enabled : Bool
  pub encryption_key : String
  pub compression_enabled : Bool
  pub compression_algorithm : String

-- `double`, and what the library's move assignment leaves in the vector that it moves from.
pub record Parts : Type 1 where
  pub Double : Type 0
  pub double_zero : Double
  pub moved_from : Bytes → Bytes

-- The bodies of the codecs are empty.
unfoldable pub compress_data : Bytes → String → Bytes
compress_data bytes algorithm = bytes

unfoldable pub encrypt_data : Bytes → String → Bytes
encrypt_data bytes key = bytes

unfoldable pub decrypt_data : Bytes → String → Bytes
decrypt_data bytes key = bytes

unfoldable pub decompress_data : Bytes → String → Bytes
decompress_data bytes algorithm = bytes

unfoldable pub validate_storage_config : StorageConfig → Bool
validate_storage_config config = true

-- `size_t` and `uint64_t`.
unfoldable pub wrap : ℕ → ℕ
wrap n = n % 2 ^ 64

unfoldable pub subtract : ℕ → ℕ → ℕ
unfolding wrap
subtract a b = wrap (a + (2 ^ 64 - wrap b))

-- `std::remove` and `erase`: every name equal to this one goes.
unfoldable pub remove_name : String → List String → List String
remove_name name [] = []
remove_name name (x ∷ xs) =
    let rest = remove_name name xs in if string_eq.beq x name then rest else x ∷ rest

module _ (p : Parts) where
  pub record StorageStats : Type 0 where
    pub total_size : ℕ
    pub used_size : ℕ
    pub available_size : ℕ
    pub read_operations : ℕ
    pub write_operations : ℕ
    pub read_latency_ms : p.Double
    pub write_latency_ms : p.Double
    pub last_updated : ℕ

  pub record Storage : Type 0 where
    pub config : StorageConfig
    pub stats : StorageStats
    pub created_at : ℕ
    pub is_active : Bool
    pub entries : Map String Bytes
    pub backups : List String
    pub snapshots : List String

  -- `now` is the system's clock, `elapsed` what the high-resolution clock measures for an operation.
  pub record StorageManager : Type 0 where
    pub storages : Map String Storage
    pub monitoring_active : Bool
    pub now : ℕ
    pub elapsed : p.Double

  abbrev pub Call : Type 0 → Type 0
  Call = Guarded StorageManager

  -- `if (auto it = storages_.find(name); it != storages_.end()) …` for a change of the storage.
  unfoldable pub change : String → (StorageManager → Storage → Storage) → Call (Unit {0})
  change name f = lock_guard storages_mutex (
      found (λ s. find name s.storages) skip
        λ st. modify (λ s. record s { storages = insert name (f s st) s.storages }))

  -- The same, for an answer about the storage.
  unfoldable pub ask : {A : Type 0} → String → A → (Storage → A) → Call A
  ask name otherwise f =
      lock_guard storages_mutex
        (found (λ s. find name s.storages) (pure otherwise) λ st. pure (f st))

  -- `!validate_storage_config(config)` throws; `validate_storage_config` accepts everything.
  checked : StorageConfig → Call (Unit {0}) → Call (Unit {0})
  checked config body held s =
      let rest = body held s in if validate_storage_config config then rest else abort thrown held s

  unfoldable pub new_storage : StorageConfig → StorageManager → Storage
  unfolding wrap
  new_storage config s = record {
    config = config;
    stats = record {
      total_size = wrap (config.size_mb * 1024 * 1024);
      used_size = 0;
      available_size = wrap (config.size_mb * 1024 * 1024);
      read_operations = 0;
      write_operations = 0;
      read_latency_ms = p.double_zero;
      write_latency_ms = p.double_zero;
      last_updated = s.now;
    };
    created_at = s.now;
    is_active = true;
    entries = [];
    backups = [];
    snapshots = [];
  }

  unfoldable pub create_storage : StorageConfig → Call (Unit {0})
  unfolding checked validate_storage_config
  create_storage config = checked config (
      lock_guard storages_mutex (
        modify (λ s. record s { storages = insert config.name (new_storage config s) s.storages })))

  unfoldable pub delete_storage : String → Call (Unit {0})
  delete_storage name = lock_guard storages_mutex (
      found (λ s. find name s.storages) skip
        λ st. modify (λ s. record s { storages = erase name s.storages }))

  unfoldable pub update_storage : String → StorageConfig → Call (Unit {0})
  unfolding checked validate_storage_config change
  update_storage name new_config =
      checked new_config (change name (λ s st. record st { config = new_config }))

  unfoldable pub list_storages : Call (List StorageConfig)
  list_storages = lock_guard storages_mutex (gets (λ s. map (λ e. e.1.config) s.storages))

  -- What `write_data` stores.
  unfoldable pub processed : StorageConfig → Bytes → Bytes
  unfolding compress_data encrypt_data
  processed config bytes =
      let compressed =
        if config.compression_enabled
        then compress_data bytes config.compression_algorithm
        else bytes in
      if config.encryption_enabled
      then encrypt_data compressed config.encryption_key
      else compressed

  -- `used_size` grows by the size of `processed_data` after it has been moved into the map.
  unfoldable pub count_write : StorageManager → Bytes → StorageStats → StorageStats
  unfolding wrap subtract
  count_write s left stats =
      let used = wrap (stats.used_size + length left) in
      record stats {
        write_latency_ms = s.elapsed;
        write_operations = wrap (suc stats.write_operations);
        used_size = used;
        available_size = subtract stats.total_size used;
        last_updated = s.now;
      }

  -- The replication has an empty body.
  unfoldable pub write_data : String → String → Bytes → Call (Unit {0})
  unfolding change processed count_write
  write_data storage_name key bytes = change storage_name λ s st.
      let stored = processed st.config bytes in
      record st {
        entries = insert key stored st.entries;
        stats = count_write s (p.moved_from stored) st.stats;
      }

  -- What `read_data` makes of the stored bytes.
  unfoldable pub restored : StorageConfig → Bytes → Bytes
  unfolding decompress_data decrypt_data
  restored config bytes =
      let decrypted =
        if config.encryption_enabled then decrypt_data bytes config.encryption_key else bytes in
      if config.compression_enabled
      then decompress_data decrypted config.compression_algorithm
      else decrypted

  unfoldable pub count_read : StorageManager → StorageStats → StorageStats
  unfolding wrap
  count_read s stats = record stats {
    read_latency_ms = s.elapsed;
    read_operations = wrap (suc stats.read_operations);
    last_updated = s.now;
  }

  unfoldable pub read_data : String → String → Call Bytes
  unfolding restored count_read
  read_data storage_name key = lock_guard storages_mutex (
      found (λ s. find storage_name s.storages) (pure [])
        λ st.
          found (λ s. find key st.entries) (pure [])
            λ bytes.
              modify (λ s. record s {
                storages =
                    insert storage_name (record st { stats = count_read s st.stats }) s.storages;
              })
              >> pure (restored st.config bytes))

  unfoldable pub count_delete : StorageManager → Bytes → StorageStats → StorageStats
  unfolding subtract
  count_delete s bytes stats =
      let used = subtract stats.used_size (length bytes) in
      record stats {
        used_size = used;
        available_size = subtract stats.total_size used;
        last_updated = s.now;
      }

  unfoldable pub delete_data : String → String → Call (Unit {0})
  unfolding count_delete
  delete_data storage_name key = lock_guard storages_mutex (
      found (λ s. find storage_name s.storages) skip
        λ st.
          found (λ s. find key st.entries) skip
            λ bytes. modify (λ s. record s {
              storages =
                  insert storage_name
                    (record st {
                      entries = erase key st.entries;
                      stats = count_delete s bytes st.stats;
                    })
                    s.storages;
            }))

  unfoldable pub exists : String → String → Call Bool
  unfolding ask
  exists storage_name key =
      ask storage_name false λ st. elim (find key st.entries) [ none ↦ false | some bytes ↦ true ]

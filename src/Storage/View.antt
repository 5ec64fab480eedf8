-- ===== src/Storage/View.antt =====
-- What a storage manager of src/storage/storage_manager.cpp promises: a map from the storages' names to maps
-- from keys to bytes, which forgets the statistics, the configurations and the order of the entries.
use Prim.Native.String.{String}
use cloud_fly_prlatform.Prelude.{
  ℕ, ◌≡◌, refl, ap, ◌∙◌, Bool, true, ◌&&◌, List, [], ◌∷◌, Option, some, none, arith, if◌then◌else◌,
  Bool-cases, inl, inr,
}
use cloud_fly_prlatform.Prelude.Maps.{
  string_eq, Map, find, insert, erase, find-insert_self, find-insert_ne, find-erase_self,
  find-erase_ne,
}
use cloud_fly_prlatform.Prelude.Locks.{skip, ◌>>◌}
use cloud_fly_prlatform.Storage.{
  Parts, StorageConfig, ReplicationStrategy, Bytes, Storage, StorageManager, Call, create_storage,
  delete_storage, update_storage, write_data, read_data, delete_data,
}
use cloud_fly_prlatform.Storage.Services.{
  update_replication_strategy, create_backup, delete_backup, start_storage_monitoring,
  stop_storage_monitoring, enable_encryption, disable_encryption, rotate_encryption_key,
  enable_compression, disable_compression, create_snapshot, delete_snapshot, monitoring_worker,
  touch_all, keep_active,
}

-- A map that is asked for a key after an entry was put in or taken out.
module _ {ℓ} {V : Type ℓ} where
  pub find-insert :
      (j k : String) (v : V) (m : Map String V)
      → find j (insert k v m) ≡ (if string_eq.beq j k then some v else find j m)
  find-insert j k v m = elim (Bool-cases (string_eq.beq j k)) [
    | inl e ↦
        rw e
          (ap (λ i. find i (insert k v m)) ((string_eq.beq_iff j k).0 e) ∙ find-insert_self k v m)
    | inr e ↦ rw e (find-insert_ne j k v m (λ h. let t = (string_eq.beq_iff j k).1 h in cc))
  ]

  pub find-erase :
      (j k : String) (m : Map String V)
      → find j (erase k m) ≡ (if string_eq.beq j k then none else find j m)
  find-erase j k m = elim (Bool-cases (string_eq.beq j k)) [
    | inl e ↦
        rw e (ap (λ i. find i (erase k m)) ((string_eq.beq_iff j k).0 e) ∙ find-erase_self k m)
    | inr e ↦ rw e (find-erase_ne j k m (λ h. let t = (string_eq.beq_iff j k).1 h in cc))
  ]

abbrev pub Contents : Type 0
Contents = String → Option Bytes

abbrev pub View : Type 0
View = String → Option Contents

abbrev pub map_contents : (Contents → Contents) → Option Contents → Option Contents
map_contents g none = none
map_contents g (some m) = some (g m)

-- The calls that change the manager, and the rounds of its thread.
pub data Operation : Type 0 where
  create : StorageConfig → Operation
  drop_storage : String → Operation
  update : String → StorageConfig → Operation
  write : String → String → Bytes → Operation
  read_entry : String → String → Operation
  delete_entry : String → String → Operation
  set_replication : String → ReplicationStrategy → Operation
  backup drop_backup : String → String → Operation
  encrypt rotate_key compress : String → String → Operation
  keep_plain keep_whole : String → Operation
  snapshot drop_snapshot : String → String → Operation
  start_monitoring stop_monitoring monitor : Operation

-- What a call does to the view of one storage.
abbrev pub alter : String → (Contents → Contents) → View → View
alter name g v n = if string_eq.beq n name then map_contents g (v n) else v n

-- The abstract manager.
unfoldable pub after : Operation → View → View
after (create config) v n = if string_eq.beq n config.name then some (λ k. none) else v n
after (drop_storage name) v n = if string_eq.beq n name then none else v n
after (write name key bytes) v n =
    alter name (λ m k. if string_eq.beq k key then some bytes else m k) v n
after (delete_entry name key) v n =
    alter name (λ m k. if string_eq.beq k key then none else m k) v n
after op v n = v n

unfoldable pub after_all : List Operation → View → View
unfolding after
after_all [] v = v
after_all (op ∷ ops) v = after_all ops (after op v)

module _ (p : Parts) where
  unfoldable pub perform : Operation → Call p (Unit {0})
  perform (create config) = create_storage p config
  perform (drop_storage name) = delete_storage p name
  perform (update name config) = update_storage p name config
  perform (write name key bytes) = write_data p name key bytes
  perform (read_entry name key) = read_data p name key >> skip
  perform (delete_entry name key) = delete_data p name key
  perform (set_replication name strategy) = update_replication_strategy p name strategy
  perform (backup name b) = create_backup p name b
  perform (drop_backup name b) = delete_backup p name b
  perform (encrypt name key) = enable_encryption p name key
  perform (rotate_key name key) = rotate_encryption_key p name key
  perform (compress name algorithm) = enable_compression p name algorithm
  perform (keep_plain name) = disable_encryption p name
  perform (keep_whole name) = disable_compression p name
  perform (snapshot name b) = create_snapshot p name b
  perform (drop_snapshot name b) = delete_snapshot p name b
  perform start_monitoring = start_storage_monitoring p
  perform stop_monitoring = stop_storage_monitoring p
  perform monitor = monitoring_worker p

  unfoldable pub run : List Operation → Call p (Unit {0})
  unfolding perform
  run [] = skip
  run (op ∷ ops) = perform op >> run ops

  abbrev pub contents : Storage p → Contents
  contents st k = find k st.entries

  abbrev pub seen : Option (Storage p) → Option Contents
  seen none = none
  seen (some st) = some (contents st)

  unfoldable pub view : StorageManager p → View
  view s n = seen (find n s.storages)

  -- Every storage in the map is in use.
  unfoldable pub all_active : Map String (Storage p) → Bool
  all_active [] = true
  all_active ((name, st) ∷ storages) = st.is_active && all_active storages

  pub all_active-insert :
      (name : String) (st : Storage p) (m : Map String (Storage p))
      → st.is_active ≡ true
      → all_active m ≡ true
      → all_active (insert name st m) ≡ true
  unfolding all_active
  all_active-insert name st [] e h = ground (arith, e)
  all_active-insert name st ((n, x) ∷ m) e h = ground (arith, e, h, all_active-insert name st m e)

  pub all_active-erase :
      (name : String) (m : Map String (Storage p))
      → all_active m ≡ true
      → all_active (erase name m) ≡ true
  unfolding all_active
  all_active-erase name [] h = refl
  all_active-erase name ((n, x) ∷ m) h = ground (arith, h, all_active-erase name m)

  pub all_active-find :
      (name : String) (st : Storage p) (m : Map String (Storage p))
      → all_active m ≡ true
      → find name m ≡ some st
      → st.is_active ≡ true
  unfolding all_active
  all_active-find name st [] h e = cc
  all_active-find name st ((n, x) ∷ m) h e = ground (arith, h, e, all_active-find name st m)

  pub all_active-touch_all :
      (now : ℕ) (m : Map String (Storage p)) → all_active (touch_all p now m) ≡ all_active m
  unfolding all_active touch_all
  all_active-touch_all now [] = refl
  all_active-touch_all now ((n, x) ∷ m) = ap (λ t. x.is_active && t) (all_active-touch_all now m)

  pub keep_active_id : (m : Map String (Storage p)) → all_active m ≡ true → keep_active p m ≡ m
  unfolding all_active keep_active
  keep_active_id [] h = refl
  keep_active_id ((n, x) ∷ m) h = ground (arith, h, keep_active_id m)

  pub seen-touch_all :
      (now : ℕ) (m : Map String (Storage p)) (n : String)
      → seen (find n (touch_all p now m)) ≡ seen (find n m)
  unfolding touch_all
  seen-touch_all now [] n = refl
  seen-touch_all now ((j, x) ∷ m) n = ground (arith, seen-touch_all now m n)

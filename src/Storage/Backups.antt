-- ===== src/Storage/Backups.antt =====
-- The lists of names of backups and of snapshots that `storage::StorageManager`
-- (src/storage/storage_manager.cpp) keeps for a storage.
use Prim.Native.String.{String}
use cloud_fly_prlatform.Prelude.{◌≡◌, ◌≢◌, ◌↔◌, sym, ◌∙◌, List, [], ◌∷◌, some, arith, returns}
use cloud_fly_prlatform.Prelude.Maps.{string_eq, find, insert, find-insert_self}
use cloud_fly_prlatform.Prelude.Locks.{◌>>◌}
use cloud_fly_prlatform.Prelude.Members.{Member, Member-if}
use cloud_fly_prlatform.Storage.{Parts, Storage, StorageManager, change, ask, remove_name}
use cloud_fly_prlatform.Storage.Services.{
  delete_backup, list_backups, delete_snapshot, list_snapshots,
}

remove_name-Member :
    (name b : String) (names : List String)
    → Member b (remove_name name names) ↔ (Member b names × (b ≢ name))
unfolding remove_name
remove_name-Member name b [] =
    ((λ (i, e). absurd (ground arith)), λ ((i, e), _). absurd (ground arith))
remove_name-Member name b (x ∷ names) =
    Member-if b x (string_eq.beq x name) names (remove_name name names)
      (remove_name-Member name b names) (λ t e q. q (sym e ∙ (string_eq.beq_iff x name).0 t))
      (λ f e q. absurd (ground (arith, f, (string_eq.beq_iff x name).1 (e ∙ q))))

module _ (p : Parts) where
  -- Deleting a backup of a storage that is there, and listing its backups: the call returns those names from
  -- before that are not the deleted one, every occurrence of which is gone; the same holds of snapshots.
  pub delete-list :
      (s : StorageManager p) (name dropped b : String) (st : Storage p)
      → find name s.storages ≡ some st
      → ((names : List String) × (s' : StorageManager p) × ((delete_backup p name dropped
                >> list_backups p name)
              [] s
            ≡ returns (names, s'))
          × (Member b names ↔ (Member b st.backups × (b ≢ dropped))))
        × (names : List String) × (s' : StorageManager p) × ((delete_snapshot p name dropped
                >> list_snapshots p name)
              [] s
            ≡ returns (names, s'))
        × (Member b names ↔ (Member b st.snapshots × (b ≢ dropped)))
  unfolding delete_backup list_backups delete_snapshot list_snapshots change ask
  delete-list s name dropped b st e =
      let backed : Storage p = record st { backups = remove_name dropped st.backups } in
      let snapped : Storage p = record st { snapshots = remove_name dropped st.snapshots } in
      (
        (
          remove_name dropped st.backups,
          record s { storages = insert name backed s.storages },
          ground (arith, e, find-insert_self name backed s.storages),
          remove_name-Member dropped b st.backups,
        ),
        remove_name dropped st.snapshots,
        record s { storages = insert name snapped s.storages },
        ground (arith, e, find-insert_self name snapped s.storages),
        remove_name-Member dropped b st.snapshots,
      )

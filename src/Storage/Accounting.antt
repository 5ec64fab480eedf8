-- ===== src/Storage/Accounting.antt =====
-- The sizes that `storage::StorageManager` (src/storage/storage_manager.cpp) keeps: `write_data` counts the bytes
-- of a vector that it has moved from, `delete_data` those of the stored one.
use Prim.Native.String.{String}
use cloud_fly_prlatform.Prelude.{
  ℕ, ◌+◌, ◌^◌, ◌<◌, ◌≡◌, ap, ap₂, ◌∙◌, [], some, none, arith, length, returns,
}
use cloud_fly_prlatform.Prelude.Maps.{
  string_eq, find, insert, erase, find-insert_self, find-erase_self,
}
use cloud_fly_prlatform.Prelude.Locks.{◌>>◌, continue}
use cloud_fly_prlatform.Storage.{
  Parts, Bytes, StorageConfig, StorageStats, Storage, StorageManager, change, write_data,
  delete_data, processed, count_write, count_delete, subtract, wrap,
}
use cloud_fly_prlatform.Storage.Leads.{processed_eq}

module _ (p : Parts) (move_empties : (bytes : Bytes) → p.moved_from bytes ≡ []) where
  written : StorageManager p → Storage p → String → Bytes → Storage p
  written s st key bytes =
      let stored = processed p st.config bytes in
      record st {
        entries = insert key stored st.entries;
        stats = count_write p s (p.moved_from stored) st.stats;
      }

  write_data-put :
      (s : StorageManager p) (name key : String) (bytes : Bytes) (st : Storage p)
      → find name s.storages ≡ some st
      → write_data p name key bytes [] s
        ≡ returns (tt, record s { storages = insert name (written s st key bytes) s.storages })
  unfolding write_data change written
  write_data-put s name key bytes st e = ground (arith, e)

  deleted : StorageManager p → Storage p → String → Bytes → Storage p
  deleted s st key bytes = record st {
    entries = erase key st.entries;
    stats = count_delete p s bytes st.stats;
  }

  delete_data-put :
      (s : StorageManager p) (name key : String) (bytes : Bytes) (st : Storage p)
      → find name s.storages ≡ some st
      → find key st.entries ≡ some bytes
      → delete_data p name key [] s
        ≡ returns (tt, record s { storages = insert name (deleted s st key bytes) s.storages })
  unfolding delete_data deleted
  delete_data-put s name key bytes st e d = ground (arith, e, d)

  wrap_small : (n : ℕ) → n < 2 ^ 64 → wrap (n + 0) ≡ n
  unfolding wrap
  wrap_small n h = omega arith

  used_size-moved :
      (s : StorageManager p) (stats : StorageStats p) (config : StorageConfig) (bytes : Bytes)
      → stats.used_size < 2 ^ 64
      → (count_write p s (p.moved_from (processed p config bytes)) stats).used_size
        ≡ stats.used_size
  unfolding count_write
  used_size-moved s stats config bytes h =
      ap (λ b. wrap (stats.used_size + length b)) (move_empties (processed p config bytes))
      ∙ wrap_small stats.used_size h

  -- Where the move leaves an empty vector: an entry that is written and deleted again makes the used size
  -- smaller by the entry's length, modulo 2^64, though it was not counted.
  pub write-delete-used_size :
      (s : StorageManager p) (name key : String) (bytes : Bytes) (st : Storage p)
      → find name s.storages ≡ some st
      → st.stats.used_size < 2 ^ 64
      → (s' : StorageManager p) × (st' : Storage p) × ((write_data p name key bytes
              >> delete_data p name key)
            [] s
          ≡ returns (tt, s'))
        × (find name s'.storages ≡ some st')
        × (st'.stats.used_size ≡ subtract st.stats.used_size (length bytes))
        × (find key st'.entries ≡ none)
  unfolding written deleted count_delete
  write-delete-used_size s name key bytes st e hu =
      let st1 = written s st key bytes in
      let s1 : StorageManager p = record s { storages = insert name st1 s.storages } in
      let stored = processed p st.config bytes in
      let st2 = deleted s1 st1 key stored in
      let e1 : find name s1.storages ≡ some st1 = find-insert_self name st1 s.storages in
      let d1 : find key st1.entries ≡ some stored = find-insert_self key stored st.entries in
      (
        record s1 { storages = insert name st2 s1.storages },
        st2,
        ap (λ o. continue o (λ r. delete_data p name key [] r.1))
              (write_data-put s name key bytes st e)
            ∙ delete_data-put s1 name key stored st1 e1 d1,
        find-insert_self name st2 s1.storages,
        ap₂ subtract (used_size-moved s st.stats st.config bytes hu)
            (ap length (processed_eq p st.config bytes)),
        find-erase_self key st1.entries,
      )

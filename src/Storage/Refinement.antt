-- ===== src/Storage/Refinement.antt =====
-- Every call of `storage::StorageManager` (src/storage/storage_manager.cpp) does to the manager's view what the
-- abstract manager does, and returns.
use Prim.Native.String.{String}
use cloud_fly_prlatform.Prelude.{
  ◌≡◌, refl, ap, ◌∙◌, fun_ext, Bool, true, false, List, [], ◌∷◌, some, none, arith, returns,
  Bool-cases, Option-cases, inl, inr,
}
use cloud_fly_prlatform.Prelude.Maps.{string_eq, find, insert, erase}
use cloud_fly_prlatform.Prelude.Locks.{modify, continue}
use cloud_fly_prlatform.Storage.{
  Parts, StorageConfig, Bytes, Storage, StorageManager, new_storage, create_storage, delete_storage,
  update_storage, read_data, count_read, validate_storage_config,
}
use cloud_fly_prlatform.Storage.Services.{
  update_replication_strategy, create_backup, delete_backup, start_storage_monitoring,
  stop_storage_monitoring, enable_encryption, disable_encryption, rotate_encryption_key,
  enable_compression, disable_compression, create_snapshot, delete_snapshot, monitoring_worker,
  touch_all, keep_active, update_storage_stats, cleanup_inactive_storages,
}
use cloud_fly_prlatform.Storage.View.{
  find-insert, find-erase, View, Operation, after, after_all, perform, run, seen, view, all_active,
  all_active-insert, all_active-erase, all_active-touch_all, keep_active_id, seen-touch_all,
}
use cloud_fly_prlatform.Storage.Leads.{
  Leads, view-put, alter_id, change-same, restored_eq, write_data-Leads, delete_data-Leads,
  read_entry-Leads,
}

module _ (p : Parts) where
  create_storage-Leads :
      (config : StorageConfig) (s : StorageManager p)
      → all_active p s.storages ≡ true
      → Leads p (create_storage p config) s (after (Operation.create config) (view p s))
  unfolding Leads create_storage validate_storage_config view after new_storage
  create_storage-Leads config s act =
      let st = new_storage p config s in
      (
        record s { storages = insert config.name st s.storages },
        refl,
        fun_ext λ n.
            ap (seen p) (find-insert n config.name st s.storages)
            ∙ elim (Bool-cases (string_eq.beq n config.name)) [
              | inl t ↦ rw t refl
              | inr t ↦ rw t refl
            ],
        all_active-insert p config.name st s.storages refl act,
      )

  delete_storage-Leads :
      (name : String) (s : StorageManager p)
      → all_active p s.storages ≡ true
      → Leads p (delete_storage p name) s (after (Operation.drop_storage name) (view p s))
  unfolding Leads delete_storage view after
  delete_storage-Leads name s act = elim (Option-cases (find name s.storages)) [
    | inl e ↦ (
      s,
      ground (arith, e),
      fun_ext λ n. elim (Bool-cases (string_eq.beq n name)) [
        | inl t ↦
            let gone : find n s.storages ≡ none =
              ap (λ k. find k s.storages) ((string_eq.beq_iff n name).0 t) ∙ e in
            rw (t, gone) refl
        | inr t ↦ rw t refl
      ],
      act,
    )
    | inr (st, e) ↦ (
      record s { storages = erase name s.storages },
      ground (arith, e),
      fun_ext λ n.
          ap (seen p) (find-erase n name s.storages)
          ∙ elim (Bool-cases (string_eq.beq n name)) [ inl t ↦ rw t refl | inr t ↦ rw t refl ],
      all_active-erase p name s.storages act,
    )
  ]

  monitoring_worker-Leads :
      (s : StorageManager p)
      → all_active p s.storages ≡ true
      → Leads p (monitoring_worker p) s (view p s)
  unfolding Leads monitoring_worker update_storage_stats cleanup_inactive_storages view
  monitoring_worker-Leads s act =
      let touched = touch_all p s.now s.storages in
      let act' : all_active p touched ≡ true = all_active-touch_all p s.now s.storages ∙ act in
      let e = keep_active_id p touched act' in
      (
        record s { storages = keep_active p touched },
        refl,
        fun_ext λ n. ap (λ m. seen p (find n m)) e ∙ seen-touch_all p s.now s.storages n,
        ap (all_active p) e ∙ act',
      )

  flag-Leads :
      (flag : Bool) (s : StorageManager p)
      → all_active p s.storages ≡ true
      → Leads p (modify (λ s. record s { monitoring_active = flag })) s (view p s)
  unfolding Leads view
  flag-Leads flag s act = (record s { monitoring_active = flag }, refl, refl, act)

  -- Each call on a manager whose storages are all in use returns, changes the view as the abstract manager
  -- does, and leaves only storages in use.
  pub perform-Leads :
      (op : Operation) (s : StorageManager p)
      → all_active p s.storages ≡ true
      → Leads p (perform p op) s (after op (view p s))
  unfolding perform after update_storage validate_storage_config update_replication_strategy
      create_backup delete_backup enable_encryption rotate_encryption_key enable_compression
      disable_encryption disable_compression create_snapshot delete_snapshot
      start_storage_monitoring stop_storage_monitoring
  perform-Leads (Operation.create config) s act = create_storage-Leads config s act
  perform-Leads (Operation.drop_storage name) s act = delete_storage-Leads name s act
  perform-Leads (Operation.write name key bytes) s act = write_data-Leads p name key bytes s act
  perform-Leads (Operation.read_entry name key) s act = read_entry-Leads p name key s act
  perform-Leads (Operation.delete_entry name key) s act = delete_data-Leads p name key s act
  perform-Leads Operation.monitor s act = monitoring_worker-Leads s act
  perform-Leads (Operation.update name config) s act =
      change-same p name _ s act (λ st. refl) (λ st. refl)
  perform-Leads (Operation.set_replication name strategy) s act =
      change-same p name _ s act (λ st. refl) (λ st. refl)
  perform-Leads (Operation.backup name b) s act =
      change-same p name _ s act (λ st. refl) (λ st. refl)
  perform-Leads (Operation.drop_backup name b) s act =
      change-same p name _ s act (λ st. refl) (λ st. refl)
  perform-Leads (Operation.encrypt name key) s act =
      change-same p name _ s act (λ st. refl) (λ st. refl)
  perform-Leads (Operation.rotate_key name key) s act =
      change-same p name _ s act (λ st. refl) (λ st. refl)
  perform-Leads (Operation.compress name algorithm) s act =
      change-same p name _ s act (λ st. refl) (λ st. refl)
  perform-Leads (Operation.keep_plain name) s act =
      change-same p name _ s act (λ st. refl) (λ st. refl)
  perform-Leads (Operation.keep_whole name) s act =
      change-same p name _ s act (λ st. refl) (λ st. refl)
  perform-Leads (Operation.snapshot name b) s act =
      change-same p name _ s act (λ st. refl) (λ st. refl)
  perform-Leads (Operation.drop_snapshot name b) s act =
      change-same p name _ s act (λ st. refl) (λ st. refl)
  perform-Leads Operation.start_monitoring s act = flag-Leads true s act
  perform-Leads Operation.stop_monitoring s act = flag-Leads false s act

  -- A sequence of calls, and of rounds of the thread, on a manager whose storages are all in use returns, and
  -- does to the view what the abstract manager does; the storages left are all in use.
  pub run_refines :
      (ops : List Operation) (s : StorageManager p)
      → all_active p s.storages ≡ true
      → (s' : StorageManager p) × (run p ops [] s ≡ returns (tt, s'))
        × (view p s' ≡ after_all ops (view p s))
        × (all_active p s'.storages ≡ true)
  unfolding run after_all Leads
  run_refines [] s act = (s, refl, refl, act)
  run_refines (op ∷ ops) s act =
      let (s1, run1, view1, act1) = perform-Leads op s act in
      let (s2, run2, view2, act2) = run_refines ops s1 act1 in
      (
        s2,
        ap (λ o. continue o (λ r. run p ops [] r.1)) run1 ∙ run2,
        view2 ∙ ap (after_all ops) view1,
        act2,
      )

  -- What the abstract manager answers to a read: no bytes for what is not there.
  unfoldable pub answer : View → String → String → Bytes
  answer v name key = elim (v name) [
    | none ↦ []
    | some m ↦ elim (m key) [ none ↦ [] | some bytes ↦ bytes ]
  ]

  -- A read returns what the view holds, and the view stays.
  pub read_data-answer :
      (name key : String) (s : StorageManager p)
      → (s' : StorageManager p) × (read_data p name key [] s
          ≡ returns (answer (view p s) name key, s'))
        × (view p s' ≡ view p s)
  unfolding read_data answer view
  read_data-answer name key s = elim (Option-cases (find name s.storages)) [
    | inl e ↦ (s, ground (arith, e), refl)
    | inr (st, e) ↦ elim (Option-cases (find key st.entries)) [
      | inl d ↦ (s, ground (arith, e, d), refl)
      | inr (bytes, d) ↦
          let st' : Storage p = record st { stats = count_read p s st.stats } in
          (
            record s { storages = insert name st' s.storages },
            ground (arith, e, d, restored_eq p st.config bytes),
            view-put p name (λ m. m) s st st' e refl ∙ alter_id p name (view p s),
          )
    ]
  ]

-- ===== src/Storage/Leads.antt =====
-- Every call of `storage::StorageManager` (src/storage/storage_manager.cpp) on the entries of one storage does to
-- the manager's view what the abstract manager does, and returns.
use Prim.Native.String.{String}
use cloud_fly_prlatform.Prelude.{
  ◌≡◌, refl, ap, ◌∙◌, fun_ext, true, [], some, none, arith, if◌then◌else◌, returns, Bool-cases,
  Option-cases, inl, inr,
}
use cloud_fly_prlatform.Prelude.Maps.{string_eq, find, insert, erase}
use cloud_fly_prlatform.Prelude.Locks.{skip, ◌>>◌}
use cloud_fly_prlatform.Storage.{
  Parts, StorageConfig, Bytes, Storage, StorageManager, Call, change, write_data, read_data,
  delete_data, processed, restored, compress_data, encrypt_data, decompress_data, decrypt_data,
  count_delete, count_read,
}
use cloud_fly_prlatform.Storage.View.{
  find-insert, find-erase, Contents, View, Operation, alter, after, run, contents, seen, view,
  all_active, all_active-insert, all_active-find,
}

module _ (p : Parts) where
  -- The call returns, and leaves this view and only storages in use.
  unfoldable pub Leads : Call p (Unit {0}) → StorageManager p → View → Type 0
  Leads call s v =
      (s' : StorageManager p) × (call [] s ≡ returns (tt, s'))
      × (view p s' ≡ v)
      × (all_active p s'.storages ≡ true)

  -- No such storage, and the call changes nothing.
  absent-Leads :
      (call : Call p (Unit {0})) (name : String) (g : Contents → Contents) (s : StorageManager p)
      → all_active p s.storages ≡ true
      → find name s.storages ≡ none
      → call [] s ≡ returns (tt, s)
      → Leads call s (alter name g (view p s))
  unfolding Leads view
  absent-Leads call name g s act e run = (
    s,
    run,
    fun_ext λ n. elim (Bool-cases (string_eq.beq n name)) [
      | inl t ↦
          let same = (string_eq.beq_iff n name).0 t in
          let gone : find n s.storages ≡ none = ap (λ k. find k s.storages) same ∙ e in
          rw (t, gone) refl
      | inr t ↦ rw t refl
    ],
    act,
  )

  pub view-put :
      (name : String) (g : Contents → Contents) (s : StorageManager p) (st st' : Storage p)
      → find name s.storages ≡ some st
      → contents p st' ≡ g (contents p st)
      → view p (record s { storages = insert name st' s.storages }) ≡ alter name g (view p s)
  unfolding view
  view-put name g s st st' e to = fun_ext λ n.
      ap (seen p) (find-insert n name st' s.storages) ∙ elim (Bool-cases (string_eq.beq n name)) [
        | inl t ↦
            let same = (string_eq.beq_iff n name).0 t in
            let there : find n s.storages ≡ some st = ap (λ k. find k s.storages) same ∙ e in
            rw (t, there) (ap some to)
        | inr t ↦ rw t refl
      ]

  -- The storage is overwritten.
  put-Leads :
      (call : Call p (Unit {0})) (name : String) (g : Contents → Contents) (s : StorageManager p)
      (st st' : Storage p)
      → all_active p s.storages ≡ true
      → find name s.storages ≡ some st
      → call [] s ≡ returns (tt, record s { storages = insert name st' s.storages })
      → st'.is_active ≡ st.is_active
      → contents p st' ≡ g (contents p st)
      → Leads call s (alter name g (view p s))
  unfolding Leads view
  put-Leads call name g s st st' act e run kept to = (
    record s { storages = insert name st' s.storages },
    run,
    view-put name g s st st' e to,
    all_active-insert p name st' s.storages (kept ∙ all_active-find p name st s.storages act e) act,
  )

  -- The storage is there and the call changes nothing.
  kept-Leads :
      (call : Call p (Unit {0})) (name : String) (g : Contents → Contents) (s : StorageManager p)
      (st : Storage p)
      → all_active p s.storages ≡ true
      → find name s.storages ≡ some st
      → call [] s ≡ returns (tt, s)
      → contents p st ≡ g (contents p st)
      → Leads call s (alter name g (view p s))
  unfolding Leads view
  kept-Leads call name g s st act e run to = (
    s,
    run,
    fun_ext λ n. elim (Bool-cases (string_eq.beq n name)) [
      | inl t ↦
          let same = (string_eq.beq_iff n name).0 t in
          let there : find n s.storages ≡ some st = ap (λ k. find k s.storages) same ∙ e in
          rw (t, there) (ap some to)
      | inr t ↦ rw t refl
    ],
    act,
  )

  change-Leads :
      (name : String) (f : StorageManager p → Storage p → Storage p) (g : Contents → Contents)
      (s : StorageManager p)
      → all_active p s.storages ≡ true
      → ((st : Storage p) → (f s st).is_active ≡ st.is_active)
      → ((st : Storage p) → contents p (f s st) ≡ g (contents p st))
      → Leads (change p name f) s (alter name g (view p s))
  unfolding change
  change-Leads name f g s act kept to = elim (Option-cases (find name s.storages)) [
    | inl e ↦ absent-Leads (change p name f) name g s act e (ground (arith, e))
    | inr (st, e) ↦
        put-Leads (change p name f) name g s st (f s st) act e (ground (arith, e)) (kept st) (to st)
  ]

  pub alter_id : (name : String) (v : View) → alter name (λ m. m) v ≡ v
  alter_id name v = fun_ext λ n. elim (Bool-cases (string_eq.beq n name)) [
    | inl t ↦ rw t (elim (Option-cases (v n)) [ inl e ↦ rw e refl | inr (m, e) ↦ rw e refl ])
    | inr t ↦ rw t refl
  ]

  -- A change of what the view does not show.
  pub change-same :
      (name : String) (f : StorageManager p → Storage p → Storage p) (s : StorageManager p)
      → all_active p s.storages ≡ true
      → ((st : Storage p) → (f s st).is_active ≡ st.is_active)
      → ((st : Storage p) → (f s st).entries ≡ st.entries)
      → Leads (change p name f) s (view p s)
  unfolding Leads
  change-same name f s act kept same =
      let (s', run, seen', act') =
        change-Leads name f (λ m. m) s act kept (λ st. fun_ext λ k. ap (find k) (same st)) in
      (s', run, seen' ∙ alter_id name (view p s), act')

  pub processed_eq : (config : StorageConfig) (bytes : Bytes) → processed p config bytes ≡ bytes
  unfolding processed compress_data encrypt_data
  processed_eq config bytes = ground arith

  pub restored_eq : (config : StorageConfig) (bytes : Bytes) → restored p config bytes ≡ bytes
  unfolding restored decompress_data decrypt_data
  restored_eq config bytes = ground arith

  pub write_data-Leads :
      (name key : String) (bytes : Bytes) (s : StorageManager p)
      → all_active p s.storages ≡ true
      → Leads (write_data p name key bytes) s (after (Operation.write name key bytes) (view p s))
  unfolding write_data after
  write_data-Leads name key bytes s act =
      change-Leads name _ (λ m k. if string_eq.beq k key then some bytes else m k) s act
        (λ st. refl)
        λ st. fun_ext λ k.
          find-insert k key (processed p st.config bytes) st.entries
          ∙ ap (λ b. if string_eq.beq k key then some b else find k st.entries)
              (processed_eq st.config bytes)

  pub delete_data-Leads :
      (name key : String) (s : StorageManager p)
      → all_active p s.storages ≡ true
      → Leads (delete_data p name key) s (after (Operation.delete_entry name key) (view p s))
  unfolding delete_data after
  delete_data-Leads name key s act = elim (Option-cases (find name s.storages)) [
    | inl e ↦
        absent-Leads (delete_data p name key) name
          (λ m k. if string_eq.beq k key then none else m k) s act e (ground (arith, e))
    | inr (st, e) ↦ elim (Option-cases (find key st.entries)) [
      | inl d ↦
          kept-Leads (delete_data p name key) name
            (λ m k. if string_eq.beq k key then none else m k) s st act e (ground (arith, e, d))
            (fun_ext λ k. elim (Bool-cases (string_eq.beq k key)) [
              | inl t ↦ rw t (ap (λ j. find j st.entries) ((string_eq.beq_iff k key).0 t) ∙ d)
              | inr t ↦ rw t refl
            ])
      | inr (bytes, d) ↦
          put-Leads (delete_data p name key) name (λ m k. if string_eq.beq k key then none else m k)
            s st
            (record st { entries = erase key st.entries; stats = count_delete p s bytes st.stats })
            act e (ground (arith, e, d)) refl (fun_ext λ k. find-erase k key st.entries)
    ]
  ]

  pub read_entry-Leads :
      (name key : String) (s : StorageManager p)
      → all_active p s.storages ≡ true
      → Leads (read_data p name key >> skip) s (view p s)
  unfolding Leads read_data
  read_entry-Leads name key s act =
      let (s', run, seen', act') : Leads (read_data p name key >> skip) s
          (alter name (λ m. m) (view p s)) =
        elim (Option-cases (find name s.storages)) [
          | inl e ↦
              absent-Leads (read_data p name key >> skip) name (λ m. m) s act e (ground (arith, e))
          | inr (st, e) ↦ elim (Option-cases (find key st.entries)) [
            | inl d ↦
                kept-Leads (read_data p name key >> skip) name (λ m. m) s st act e
                  (ground (arith, e, d)) refl
            | inr (bytes, d) ↦
                put-Leads (read_data p name key >> skip) name (λ m. m) s st
                  (record st { stats = count_read p s st.stats }) act e (ground (arith, e, d)) refl
                  refl
          ]
        ] in
      (s', run, seen' ∙ alter_id name (view p s), act')

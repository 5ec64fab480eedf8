-- ===== src/Core/StorageManager/Clients.antt =====
-- Sequences of calls on the storage manager, by clients and its monitoring thread, and the files'
-- numbers.
use cloud_fly_prlatform.Prelude.{
  ℕ, suc, ◌≤◌, ◌≡◌, ◌↔◌, inl, inr, sym, subst, ap, ◌∙◌, List, [], ◌∷◌, some, none, length, arith,
  ◌==◌, ◌%◌, Option-cases, Bool-cases, ℕ_discrete, returns, Outcome-cases,
}
use cloud_fly_prlatform.Prelude.Maps.{
  Map, nat_eq, find, insert, find-insert_self, find-insert_ne, length-insert_new, length-insert_old,
}
use cloud_fly_prlatform.Prelude.Locks.{Guarded, ◌>>◌, skip}
use cloud_fly_prlatform.Core.StorageManager.{
  pending, task_mutex, Parts, StorageManager, start, pause, resume, stop, initialize_core, on_core,
  submit_task, cancel_task, target_core, open_file, close_file, delete_file, read_file, write_file,
  cleanup_file, handle_file_failure, optimize_file, monitor_storage,
}
use cloud_fly_prlatform.Core.StorageManager.Files.{
  monitor_storage-idle, stop_iff, monitor_storage_iff,
}
use cloud_fly_prlatform.Core.StorageManager.Cores.{on_core-cores}

-- The file numbers in use are 1 up to the count of files.
abbrev pub Numbered {ℓ} : {F : Type ℓ} → Map ℕ F → Type ℓ
Numbered {F = F} m = (i : ℕ) → ((f : F) × (find i m ≡ some f)) ↔ ((1 ≤ i) × (i ≤ length m))

insert_old-Numbered :
    {F : Type 0} (k : ℕ) (v w : F) (m : Map ℕ F)
    → find k m ≡ some w
    → Numbered m
    → Numbered (insert k v m)
insert_old-Numbered k v w m old ok i =
    let same = length-insert_old k v w m old in
    elim (ℕ_discrete i k) [
      | yes e ↦
          let here = (ok k).0 (w, old) in
          (
            (λ _. (omega (arith, e, here.0), omega (arith, e, here.1, same))),
            λ _. (v, subst (λ j. find j (insert k v m) ≡ some v) (sym e) (find-insert_self k v m)),
          )
      | no ne ↦
          let there = find-insert_ne i k v m ne in
          (
            (λ (f, q). let h = (ok i).0 (f, sym there ∙ q) in (h.0, omega (arith, h.1, same))),
            λ h. let (f, q) = (ok i).1 (h.0, omega (arith, h.1, same)) in (f, there ∙ q),
          )
    ]

insert_new-Numbered :
    {F : Type 0} (v : F) (m : Map ℕ F)
    → Numbered m
    → Numbered (insert (suc (length m)) v m)
      × (length (insert (suc (length m)) v m) ≡ suc (length m))
insert_new-Numbered {F = F} v m ok = (numbered, grown)
  where
    fresh : find (suc (length m)) m ≡ none
    fresh = elim (Option-cases (find (suc (length m)) m)) [
      | inl e ↦ e
      | inr found ↦ absurd (omega (arith, ((ok (suc (length m))).0 found).1))
    ]

    grown : length (insert (suc (length m)) v m) ≡ suc (length m)
    grown = length-insert_new (suc (length m)) v m fresh

    numbered : Numbered (insert (suc (length m)) v m)
    numbered i = elim (ℕ_discrete i (suc (length m))) [
      | yes e ↦ (
        (λ _. (omega (arith, e), omega (arith, e, grown))),
        λ _. (
          v,
          subst (λ j. find j (insert (suc (length m)) v m) ≡ some v) (sym e)
              (find-insert_self (suc (length m)) v m),
        ),
      )
      | no ne ↦
          let there = find-insert_ne i (suc (length m)) v m ne in
          (
            (λ (f, q). let h = (ok i).0 (f, sym there ∙ q) in (h.0, omega (arith, h.1, grown))),
            λ h. let (f, q) = (ok i).1 (h.0, omega (arith, h.1, grown)) in (f, there ∙ q),
          )
    ]

module _ (p : Parts) where
  pub data Request : Type 0 where
    starts pauses resumes halts monitors : Request
    opens : p.FilePath → p.Config → Request
    closes deletes fails optimizes cancels initializes : ℕ → Request
    reads : ℕ → ℕ → ℕ → Request
    writes : ℕ → List ℕ → ℕ → Request
    submits : ℕ → p.Task → Request
    controls : (p.Core → p.Core) → ℕ → Request

  unfoldable pub perform : Request → Guarded (StorageManager p) (Unit {0})
  perform starts = start p
  perform pauses = pause p
  perform resumes = resume p
  perform halts = stop p
  perform monitors = monitor_storage p
  perform (opens path config) = open_file p path config >> skip
  perform (closes i) = close_file p i
  perform (deletes i) = delete_file p i
  perform (fails i) = handle_file_failure p i
  perform (optimizes i) = optimize_file p i
  perform (cancels i) = cancel_task p i
  perform (initializes i) = initialize_core p i
  perform (reads i size offset) = read_file p i size offset >> skip
  perform (writes i bytes offset) = write_file p i bytes offset >> skip
  perform (submits i task) = submit_task p i task >> skip
  perform (controls f i) = on_core p f i

  unfoldable pub run : List Request → Guarded (StorageManager p) (Unit {0})
  unfolding perform
  run [] = skip
  run (r ∷ rs) = perform r >> run rs

-- The files' numbers are 1 up to their count in the state after, and no file has gone.
abbrev pub Kept : (p : Parts) → StorageManager p → StorageManager p → Type 0
Kept p s s' = Numbered s'.files × (length s.files ≤ length s'.files)

module _ (p : Parts) (s s' : StorageManager p) (ok : Numbered s.files) where
  Kept-same : s'.files ≡ s.files → Kept p s s'
  Kept-same e = (subst Numbered (sym e) ok, omega (arith, ap length e))

  Kept-old :
      (k : ℕ) (v w : p.File) → find k s.files ≡ some w → s'.files ≡ insert k v s.files → Kept p s s'
  Kept-old k v w old e = (
    subst Numbered (sym e) (insert_old-Numbered k v w s.files old ok),
    omega (arith, ap length e, length-insert_old k v w s.files old),
  )

  Kept-new : (v : p.File) → s'.files ≡ insert (suc (length s.files)) v s.files → Kept p s s'
  Kept-new v e =
      let (numbered, grown) = insert_new-Numbered v s.files ok in
      (subst Numbered (sym e) numbered, omega (arith, ap length e, grown))

  Kept-none : s'.files ≡ [] → s.files ≡ [] → Kept p s s'
  Kept-none e f = Kept-same (e ∙ sym f)

submitted : (p : Parts) → ℕ → p.Task → StorageManager p → StorageManager p
submitted p i task s = record s {
  tasks = insert i task s.tasks;
  task_status = insert i pending s.task_status;
}

perform-Numbered :
    (p : Parts) (r : Request p) (s s' : StorageManager p)
    → Numbered s.files
    → perform p r [] s ≡ returns (tt, s')
    → Kept p s s'
unfolding perform start pause resume stop initialize_core open_file close_file delete_file read_file
    write_file cleanup_file handle_file_failure optimize_file submitted submit_task cancel_task
    target_core
perform-Numbered p starts s s' ok h = Kept-same p s s' ok (ground (arith, h))
perform-Numbered p pauses s s' ok h = Kept-same p s s' ok (ground (arith, h))
perform-Numbered p resumes s s' ok h = Kept-same p s s' ok (ground (arith, h))
perform-Numbered p halts s s' ok h = elim (Bool-cases s.running) [
  | inl e ↦
      let none_open = (stop_iff p s e).0 ((tt, s'), h) in
      Kept-none p s s' ok (ground (arith, e, none_open, h)) none_open
  | inr e ↦ Kept-same p s s' ok (ground (arith, e, h))
]
perform-Numbered p monitors s s' ok h =
    let none_open = (monitor_storage_iff p s).0 ((tt, s'), h) in
    Kept-same p s s' ok (ground (arith, monitor_storage-idle p s none_open))
perform-Numbered p (opens path config) s s' ok h = elim (Option-cases (p.os_open path)) [
  | inl e ↦ absurd (ground (arith, e))
  | inr (fd, e) ↦ Kept-new p s s' ok (p.new_file fd config) (ground (arith, e))
]
perform-Numbered p (closes i) s s' ok h = elim (Option-cases (find i s.files)) [
  | inl e ↦ Kept-same p s s' ok (ground (arith, e))
  | inr (f, e) ↦ absurd (ground (arith, e))
]
perform-Numbered p (deletes i) s s' ok h = elim (Option-cases (find i s.files)) [
  | inl e ↦ Kept-same p s s' ok (ground (arith, e))
  | inr (f, e) ↦ absurd (ground (arith, e))
]
perform-Numbered p (fails i) s s' ok h = elim (Option-cases (find i s.files)) [
  | inl e ↦ Kept-same p s s' ok (ground (arith, e))
  | inr (f, e) ↦
      Kept-old p s s' ok i (p.file_recover f).1 f e
        (ground (arith, e, find-insert_self i (p.file_recover f).1 s.files))
]
perform-Numbered p (optimizes i) s s' ok h = elim (Option-cases (find i s.files)) [
  | inl e ↦ Kept-same p s s' ok (ground (arith, e))
  | inr (f, e) ↦ Kept-old p s s' ok i (p.file_optimize f) f e (ground (arith, e))
]
perform-Numbered p (cancels i) s s' ok h = elim (Bool-cases (length s.cores == 0)) [
  | inl e ↦ Kept-same p s s' ok (ground (arith, e, h))
  | inr e ↦
      let (cs, _, q) =
        on_core-cores p (λ c. p.core_cancel c i) (i % length s.cores) (task_mutex ∷ []) s in
      Kept-same p s s' ok (ground (arith, e, q, h))
]
perform-Numbered p (initializes i) s s' ok h = Kept-same p s s' ok (ground (arith, h))
perform-Numbered p (reads i size offset) s s' ok h = elim (Option-cases (find i s.files)) [
  | inl e ↦ Kept-same p s s' ok (ground (arith, e))
  | inr (f, e) ↦ Kept-old p s s' ok i (p.file_read f size offset).2 f e (ground (arith, e))
]
perform-Numbered p (writes i bytes offset) s s' ok h = elim (Option-cases (find i s.files)) [
  | inl e ↦ Kept-same p s s' ok (ground (arith, e))
  | inr (f, e) ↦ Kept-old p s s' ok i (p.file_write f bytes offset).1 f e (ground (arith, e))
]
perform-Numbered p (submits i task) s s' ok h = elim (Bool-cases (length s.cores == 0)) [
  | inl e ↦ Kept-same p s s' ok (ground (arith, e, h))
  | inr e ↦
      let (cs, _, q) =
        on_core-cores p (λ c. p.core_submit c i task) (i % length s.cores) (task_mutex ∷ [])
          (submitted p i task s) in
      Kept-same p s s' ok (ground (arith, e, q, h))
]
perform-Numbered p (controls f i) s s' ok h =
    let (cs, _, e) = on_core-cores p f i [] s in Kept-same p s s' ok (ground (arith, e))

-- Any requests that all come back keep the files numbered from 1 up to their count and none of them goes
-- away: so `open_file`, which takes the count plus one, never reuses a number.
pub run-Numbered :
    (p : Parts) (rs : List (Request p)) (s s' : StorageManager p)
    → Numbered s.files
    → run p rs [] s ≡ returns (tt, s')
    → Kept p s s'
unfolding run
run-Numbered p [] s s' ok h = Kept-same p s s' ok (ground (arith, h))
run-Numbered p (r ∷ rs) s s' ok h = elim (Outcome-cases (perform p r [] s)) [
  | inl (reason, e) ↦ absurd (ground (arith, e, h))
  | inr ((u, s1), e) ↦
      let (numbered, more) = perform-Numbered p r s s1 ok e in
      let (numbered', more') = run-Numbered p rs s1 s' numbered (ground (arith, e, h)) in
      (numbered', omega arith)
]

-- ===== src/Core/StorageManager/Files.antt =====
-- Files of the storage manager: which calls come back, with the mutex that `cleanup_file` locks again.
use cloud_fly_prlatform.Prelude.{
  ℕ, suc, ◌≡◌, ◌↔◌, inl, inr, refl, true, false, [], ◌∷◌, some, length, arith, Bool-cases, Outcome,
  returns, stops, deadlock,
}
use cloud_fly_prlatform.Prelude.Maps.{Map, nat_eq, find, insert, find-insert_self}
use cloud_fly_prlatform.Prelude.Locks.{◌>>=◌}
use cloud_fly_prlatform.Core.StorageManager.{
  Parts, StorageManager, open_file, close_file, delete_file, cleanup_file, cleanup_all,
  handle_file_failure, optimize_file, check_health, monitor_storage, stop, sum_metrics, normalize,
  zero_metrics, update_metrics,
}

-- Where the file system opens the path, closing or deleting the file right after `open_file` waits for
-- ever for the mutex that the call holds.
pub open-close :
    (p : Parts) (path : p.FilePath) (config : p.Config) (fd : ℕ) (s : StorageManager p)
    → p.os_open path ≡ some fd
    → ((open_file p path config >>= close_file p) [] s ≡ stops deadlock)
      × ((open_file p path config >>= delete_file p) [] s ≡ stops deadlock)
unfolding open_file close_file delete_file cleanup_file
open-close p path config fd s h =
    let there = find-insert_self (suc (length s.files)) (p.new_file fd config) s.files in
    (ground (arith, there), ground (arith, there))

abbrev pub Returns {ℓ} : {A : Type ℓ} → Outcome A → Type ℓ
Returns {A = A} m = (a : A) × (m ≡ returns a)

-- `stop` of a running manager comes back exactly when no file is open.
pub stop_iff :
    (p : Parts) (s : StorageManager p) → s.running ≡ true → Returns (stop p [] s) ↔ (s.files ≡ [])
unfolding stop cleanup_all cleanup_file
stop_iff p s running = (
  λ (_, e). there (s.files) refl e,
  λ none_open. ((tt, record s { running = false; files = [] }), ground (arith, none_open)),
)
  where
    there :
        {r : Unit {0} × StorageManager p} (files : Map ℕ p.File)
        → s.files ≡ files
        → stop p [] s ≡ returns r
        → files ≡ []
    there [] h e = refl
    there (f ∷ files) h e = absurd (ground arith)

pub monitor_storage-idle :
    (p : Parts) (s : StorageManager p)
    → s.files ≡ []
    → monitor_storage p [] s ≡ returns (tt, record s { metrics = zero_metrics p })
unfolding monitor_storage sum_metrics normalize update_metrics check_health
monitor_storage-idle p s none_open = ground (arith, none_open)

-- A round of the monitoring thread comes back exactly when no file is open.
pub monitor_storage_iff :
    (p : Parts) (s : StorageManager p) → Returns (monitor_storage p [] s) ↔ (s.files ≡ [])
unfolding monitor_storage sum_metrics normalize update_metrics check_health handle_file_failure
    optimize_file
monitor_storage_iff p s = (
  (λ (_, e). there (s.files) refl e),
  λ none_open. ((tt, record s { metrics = zero_metrics p }), monitor_storage-idle p s none_open),
)
  where
    there :
        {r : Unit {0} × StorageManager p} (files : Map ℕ p.File)
        → s.files ≡ files
        → monitor_storage p [] s ≡ returns r
        → files ≡ []
    there [] h e = refl
    there (f ∷ files) h e = absurd (ground arith)

-- The handler for the failure of an open file comes back exactly when the file recovers; it waits for
-- ever for the mutex that it holds exactly when the file does not.
pub handle_file_failure_iff :
    (p : Parts) (file_id : ℕ) (file : p.File) (s : StorageManager p)
    → find file_id s.files ≡ some file
    → (Returns (handle_file_failure p file_id [] s) ↔ ((p.file_recover file).0 ≡ true))
      × ((handle_file_failure p file_id [] s ≡ stops deadlock) ↔ ((p.file_recover file).0 ≡ false))
unfolding handle_file_failure cleanup_file
handle_file_failure_iff p file_id file s h =
    let there = find-insert_self file_id (p.file_recover file).1 s.files in
    elim (Bool-cases (p.file_recover file).0) [
      | inl e ↦ (
        (
          (λ _. e),
          λ _. (
            (tt, record s { files = insert file_id (p.file_recover file).1 s.files }),
            ground (arith, e),
          ),
        ),
        ((λ q. absurd (ground (arith, e))), λ q. absurd (ground (arith, e))),
      )
      | inr e ↦ (
        ((λ (_, q). absurd (ground (arith, e, there))), λ q. absurd (ground (arith, e))),
        ((λ q. e), λ q. ground (arith, e, there)),
      )
    ]

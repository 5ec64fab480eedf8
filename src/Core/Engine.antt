-- ===== src/Core/Engine.antt =====
-- `CoreEngine` (src/core/engine.cpp, include/core/engine.h): its run state, and the calls that it makes on the
-- components, none of which is in the repository. The log is left out. Where the code does not compile
-- (`catch (const std::execution&)`, a comma in the head of the loop of `start`), its plain meaning is taken.
pub mod Shutdown
pub mod Destruction
pub mod Failures
pub mod Integrity
pub mod Tests
use cloud_fly_prlatform.Prelude.{
  ℕ, zero, suc, ◌-◌, Bool, true, false, not, List, [], ◌∷◌, Option, some, none, leb, ltb, ◌==◌,
  get_elem?, if◌then◌else◌,
}

-- The calls on the components, in the source's order of functions.
pub data Call : Type 0 where
  start_network start_consensus start_scheduler initialize_monitor start_watching post_maintenance :
      Call
  post_worker log_system_start : Call
  reset_work_guard stop_work_pool stop_io_context log_emergency_stop : Call
  stop_scheduler stop_consensus shutdown_rest_server disable_autoscaler join_work_pool : Call
  log_graceful_shutdown : Call
  unload_modules unload_plugins shutdown_smartnic release_fpga destroy_stream : Call
  get_state save_state report_failure stop_fpga stop_smartnic : Call
  read_metrics scale_up disable_gpu test_health read_cluster_metrics add_node : Call
  read_last_verified verify_signature update_last_verified : Call

-- What `check_system_health` and `scale_resources` compare with a number.
pub data Gauge : Type 0 where
  cpu_usage gpu_temperature node_utilization cluster_load : Gauge

pub record Block : Type 0 where
  pub height : ℕ
  pub hash : ℕ
  pub prev_hash : ℕ

-- The components, as the calls made so far leave them: whether a call throws, and what it answers.
pub record World : Type 0 where
  pub throws : List Call → Call → Bool
  pub exceeds : List Call → Gauge → ℕ → Bool
  pub is_healthy : List Call → Bool
  pub blocks : List Call → List Block
  pub last_verified : List Call → ℕ
  pub signature : Block → Bool
  pub dpdk_enabled : Bool
  pub gpu_enabled : Bool
  pub hardware_concurrency : ℕ

-- `m_running`, `m_shutdown_initiated`, and the calls made, the latest first.
pub record CoreEngine : Type 0 where
  pub running : Bool
  pub shutdown_initiated : Bool
  pub calls : List Call

-- A call of a member function comes back, throws, or ends the program: it reads outside a vector, or calls
-- `std::terminate`.
pub data Attempt (A : Type 0) : Type 0 where
  returns : A → CoreEngine → Attempt A
  throws : CoreEngine → Attempt A
  crashes : Attempt A

abbrev pub M : Type 0 → Type 0
M A = CoreEngine → Attempt A

abbrev pub continue : {A B : Type 0} → Attempt A → (A → M B) → Attempt B
continue (returns a e) f = f a e
continue (Attempt.throws e) f = Attempt.throws e
continue crashes f = crashes

infixl 5 ◌>>=◌ ◌>>◌
abbrev pub ◌>>=◌ : {A B : Type 0} → M A → (A → M B) → M B
◌>>=◌ m f e = continue (m e) f

abbrev pub ◌>>◌ : {B : Type 0} → M (Unit {0}) → M B → M B
m >> k = m >>= λ _. k

-- `try { m } catch (const std::exception&) { handler }`
abbrev pub caught : {A : Type 0} → Attempt A → M A → Attempt A
caught (returns a e) handler = returns a e
caught (Attempt.throws e) handler = handler e
caught crashes handler = crashes

abbrev pub attempt : {A : Type 0} → M A → M A → M A
attempt m handler e = caught (m e) handler

abbrev pub pure : {A : Type 0} → A → M A
pure a e = returns a e

abbrev pub throw : {A : Type 0} → M A
throw e = Attempt.throws e

abbrev pub crash : {A : Type 0} → M A
crash e = crashes

abbrev pub when : Bool → M (Unit {0}) → M (Unit {0})
when true m = m
when false m = pure tt

module _ (w : World) where
  unfoldable pub call : Call → M (Unit {0})
  call c e =
      let e' : CoreEngine = record e { calls = c ∷ e.calls } in
      if w.throws e.calls c then Attempt.throws e' else returns tt e'

  -- What the components answer after the calls made.
  abbrev pub asks : {A : Type 0} → (List Call → A) → M A
  asks f e = returns (f e.calls) e

  unfoldable pub save_recovery_state : M (Unit {0})
  unfolding call
  save_recovery_state = attempt (do call get_state; call save_state) (pure tt)

  unfoldable pub handle_critical_failure : M (Unit {0})
  unfolding call save_recovery_state
  handle_critical_failure = do
    save_recovery_state
    call report_failure
    call stop_fpga
    call stop_smartnic
    throw

  unfoldable pub cleanup_resources : M (Unit {0})
  unfolding call
  cleanup_resources = do
    call unload_modules
    call unload_plugins
    when w.dpdk_enabled (call shutdown_smartnic)
    call release_fpga
    when w.gpu_enabled (call destroy_stream)

  unfoldable pub start_workers : ℕ → M (Unit {0})
  unfolding call
  start_workers zero = pure tt
  start_workers (suc n) = do call post_worker; start_workers n

  unfoldable pub start_all : M (Unit {0})
  unfolding call start_workers
  start_all = do
    call start_network
    call start_consensus
    call start_scheduler
    call initialize_monitor
    call start_watching
    call post_maintenance
    start_workers w.hardware_concurrency
    call log_system_start

  unfoldable pub exchange_running : Bool → M Bool
  exchange_running b e = returns e.running (record e { running = b })

  unfoldable pub start : M (Unit {0})
  unfolding exchange_running start_all handle_critical_failure
  start = do
    was_running ← exchange_running true
    if was_running then pure tt else attempt start_all (do handle_critical_failure; throw)

  unfoldable pub emergency_stop : M (Unit {0})
  unfolding exchange_running call save_recovery_state cleanup_resources
  emergency_stop = do
    was_running ← exchange_running false
    when was_running (do
      call reset_work_guard
      call stop_work_pool
      call stop_io_context
      save_recovery_state
      cleanup_resources
      call log_emergency_stop)

  unfoldable pub graceful_shutdown : M (Unit {0})
  unfolding exchange_running call
  graceful_shutdown = do
    was_running ← exchange_running false
    when was_running (do
      call stop_scheduler
      call stop_consensus
      call shutdown_rest_server
      call disable_autoscaler
      call stop_work_pool
      call join_work_pool
      call log_graceful_shutdown)

  unfoldable pub check_system_health : M (Unit {0})
  unfolding call handle_critical_failure
  check_system_health =
      attempt
        (do
          call read_metrics
          cpu_high ← asks (λ calls. w.exceeds calls cpu_usage 90)
          hot ← asks (λ calls. w.exceeds calls gpu_temperature 85)
          when cpu_high (call scale_up)
          when hot (call disable_gpu)
          call test_health
          healthy ← asks w.is_healthy
          when (not healthy) handle_critical_failure)
        (pure tt)

  unfoldable pub scale_resources : M (Unit {0})
  unfolding call
  scale_resources = do
    call read_cluster_metrics
    busy ← asks (λ calls. w.exceeds calls node_utilization 80)
    loaded ← asks (λ calls. w.exceeds calls cluster_load 75)
    when busy (call scale_up)
    when loaded (call add_node)

  -- The block before, `current_state.blocks[block.height - 2]`.
  unfoldable pub check_link : Block → Option Block → M (Unit {0})
  unfolding handle_critical_failure
  check_link block none = crash
  check_link block (some prev_block) =
      if block.prev_hash == prev_block.hash then pure tt else handle_critical_failure

  unfoldable pub verify_block : List Block → ℕ → Block → M (Unit {0})
  unfolding call check_link handle_critical_failure
  verify_block all last_height block = if leb block.height last_height then pure tt else do
    call verify_signature
    when (not (w.signature block)) handle_critical_failure
    when (ltb 1 block.height) (check_link block (get_elem? all (block.height - 2)))

  -- A call of `handle_critical_failure` throws, so the `return` after it is never reached.
  unfoldable pub verify_blocks : List Block → ℕ → List Block → M (Unit {0})
  unfolding verify_block
  verify_blocks all last_height [] = pure tt
  verify_blocks all last_height (block ∷ blocks) = do
    verify_block all last_height block
    verify_blocks all last_height blocks

  -- `blocks.back()`
  unfoldable pub update_last : List Block → M (Unit {0})
  unfolding call
  update_last [] = crash
  update_last (block ∷ blocks) = call update_last_verified

  unfoldable pub verify_blockchain_integrity : M (Unit {0})
  unfolding call verify_blocks update_last handle_critical_failure
  verify_blockchain_integrity =
      attempt
        (do
          call get_state
          blocks ← asks w.blocks
          call read_last_verified
          last_height ← asks w.last_verified
          verify_blocks blocks last_height blocks
          update_last blocks)
        handle_critical_failure

  -- The destructor: `emergency_stop` where the engine still runs, and the release of the resources.
  unfoldable pub destroy : M (Unit {0})
  unfolding emergency_stop call cleanup_resources
  destroy e =
      if e.shutdown_initiated
      then returns tt e
      else attempt
          (do
            when e.running emergency_stop
            call stop_work_pool
            call join_work_pool
            cleanup_resources)
          crash (record e { shutdown_initiated = true })

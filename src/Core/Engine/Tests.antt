-- ===== src/Core/Engine/Tests.antt =====
-- An engine of src/core/engine.cpp with components that answer alike at every call.
use cloud_fly_prlatform.Prelude.{
  ◌+◌, ◌≡◌, ◌⊎◌, refl, true, false, List, [], ◌∷◌, some, if◌then◌else◌,
}
use cloud_fly_prlatform.Core.Engine.{
  Call, World, Block, CoreEngine, Attempt, returns, start, destroy, check_system_health,
  verify_blockchain_integrity,
}
use cloud_fly_prlatform.Core.Engine.Call.{
  start_network, get_state, read_metrics, test_health, save_state, report_failure, stop_fpga,
  stop_smartnic,
}
use cloud_fly_prlatform.Core.Engine.Failures.{is_start, is_stop, tally}
use cloud_fly_prlatform.Core.Engine.Shutdown.{
  starting, stopping, shutting_down, checking, scaling, run, run-Balanced, start-start,
}
use cloud_fly_prlatform.Core.Engine.Destruction.{is_release, destroy_twice}
use cloud_fly_prlatform.Core.Engine.Integrity.{
  AllVerified, InRange, verify_blockchain_integrity-cases,
}

abbrev chain : List Block
chain =
    record { height = 1; hash = 11; prev_hash = 0 }
    ∷ record { height = 2; hash = 12; prev_hash = 11 }
    ∷ record { height = 3; hash = 13; prev_hash = 12 }
    ∷ []

-- No call throws.
abbrev quiet : World
quiet = record {
  throws = λ calls c. false;
  exceeds = λ calls gauge n. false;
  is_healthy = λ calls. false;
  blocks = λ calls. chain;
  last_verified = λ calls. 1;
  signature = λ block. true;
  dpdk_enabled = true;
  gpu_enabled = true;
  hardware_concurrency = 2;
}

-- The consensus engine cannot be started.
abbrev no_consensus : World
no_consensus = record quiet {
  throws = λ calls c. elim c [ Call.start_consensus ↦ true | _ ↦ false ];
}

abbrev stopped : CoreEngine
stopped = record { running = false; shutdown_initiated = false; calls = [] }

abbrev running : CoreEngine
running = record { running = true; shutdown_initiated = false; calls = start_network ∷ [] }

unhealthy :
    check_system_health quiet running
    ≡ returns tt (record running {
      calls =
          stop_smartnic ∷ stop_fpga ∷ report_failure ∷ save_state ∷ get_state ∷ test_health
          ∷ read_metrics ∷ start_network ∷ [];
    })
unfolding check_system_health
unhealthy = refl

run-Balanced_example :
    (e' : CoreEngine) × (run no_consensus
        (starting ∷ starting ∷ checking ∷ stopping ∷ scaling ∷ shutting_down ∷ [])
        stopped
      ≡ some e')
    × (tally is_start e'.calls ≡ tally is_stop e'.calls + (if e'.running then 1 else 0))
unfolding tally
run-Balanced_example =
    run-Balanced no_consensus
      (starting ∷ starting ∷ checking ∷ stopping ∷ scaling ∷ shutting_down ∷ []) stopped refl

start-start_example :
    (e' : CoreEngine) × ((start no_consensus stopped ≡ returns tt e')
      ⊎ (start no_consensus stopped ≡ Attempt.throws e'))
    × (e'.running ≡ true)
    × (start no_consensus e' ≡ returns tt e')
start-start_example = start-start no_consensus stopped

destroy_twice_example :
    (e' : CoreEngine) × (destroy quiet running ≡ returns tt e')
    × (e'.running ≡ false)
    × (tally is_release e'.calls ≡ 2 + tally is_release running.calls)
destroy_twice_example = destroy_twice quiet (λ calls c. refl) running refl refl refl

verify_blockchain_integrity-cases_example :
    (AllVerified quiet chain 1 chain
      × ((e' : CoreEngine) × (verify_blockchain_integrity quiet running ≡ returns tt e')))
    ⊎ (¬ AllVerified quiet chain 1 chain
        × ((e' : CoreEngine) × (verify_blockchain_integrity quiet running ≡ Attempt.throws e')))
unfolding InRange
verify_blockchain_integrity-cases_example =
    verify_blockchain_integrity-cases quiet running
      (record { height = 1; hash = 11; prev_hash = 0 })
      (record { height = 2; hash = 12; prev_hash = 11 }
        ∷ record { height = 3; hash = 13; prev_hash = 12 }
        ∷ [])
      (λ calls c. refl) refl ((_, refl), ((_, refl), ((_, refl), tt)))

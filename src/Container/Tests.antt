-- ===== src/Container/Tests.antt =====
-- The container manager at concrete inputs.
use Prim.Native.String.{String}
use cloud_fly_prlatform.Prelude.{
  ℕ, ◌≡◌, ◌≢◌, ◌↔◌, refl, true, false, [], ◌∷◌, some, returns, stops, deadlock, map, arith,
}
use cloud_fly_prlatform.Prelude.Maps.{string_eq, find}
use cloud_fly_prlatform.Container.{
  Doubles, ContainerManager, Container, ResourceLimits, created, running, paused, stopped,
  create_container, update_container_resources, start_container, stop_container, pause_container,
  resume_container, unmount_volume, monitoring_worker, refresh,
}
use cloud_fly_prlatform.Container.Lifecycle.{Enters, create_container-deadlock, lifecycle-Enters}
use cloud_fly_prlatform.Prelude.Members.{Member}
use cloud_fly_prlatform.Container.Cleanup.{unmount_volume-Member, monitoring_worker-Member}

abbrev demo : Doubles
demo = record { Double = ℕ; to_size = λ n. n; of_size = λ n. n; zero_point_zero = 0 }

abbrev limits : ResourceLimits demo
limits = record {
  cpu_limit = 1;
  memory_limit_mb = 2;
  disk_limit_mb = 3;
  network_bandwidth_mbps = 4;
}

abbrev web : Container demo
web = record {
  config = record {
    volumes = ("/a", "/data") ∷ ("/b", "/logs") ∷ [];
    resource_limits = limits;
    auto_restart = true;
    network_mode = "host";
  };
  stats = record {
    cpu_usage = 0;
    memory_usage = 0;
    disk_usage = 0;
    network_io = 0;
    state = created;
    last_updated = 0;
  };
  id = "web";
  created_at = 0;
  last_health_check = 0;
  is_healthy = true;
}

abbrev manager : ContainerManager demo
manager = record { containers = ("web", web) ∷ []; monitoring_active = false; now = 9 }

create_container-deadlock_runs :
    (create_container demo "web" "" web.stats web.config [] manager ≡ stops deadlock)
    × (update_container_resources demo "web" limits [] manager ≡ stops deadlock)
create_container-deadlock_runs =
    create_container-deadlock demo "web" "" web.stats web.config limits manager

lifecycle-Enters_runs :
    Enters demo (start_container demo) running "web" "db" manager
    × Enters demo (stop_container demo) stopped "web" "db" manager
    × Enters demo (pause_container demo) paused "web" "db" manager
    × Enters demo (resume_container demo) running "web" "db" manager
lifecycle-Enters_runs = lifecycle-Enters demo "web" "db" web manager refl other
  where
    other : ◌≢◌ {A = String} "db" "web"
    other e = absurd (ground (arith, (string_eq.beq_iff "db" "web").1 e))

unmount_volume-Member_runs :
    (c' : Container demo) × (s' : ContainerManager demo) × (unmount_volume demo "web" "/data" []
        manager
      ≡ returns (tt, s'))
    × (find "web" s'.containers ≡ some c')
    × (Member ("/b", "/logs") c'.config.volumes
        ↔ (Member ("/b", "/logs") web.config.volumes × ◌≢◌ {A = String} "/logs" "/data"))
unmount_volume-Member_runs = unmount_volume-Member demo "web" "/data" "/b" "/logs" web manager refl

monitoring_worker-Member_runs :
    (s' : ContainerManager demo) × (monitoring_worker demo [] manager ≡ returns (tt, s'))
    × (Member ("web", web) s'.containers ↔ (
        Member ("web", web) (map (refresh demo manager) manager.containers)
        × (web.stats.state ≢ stopped)))
monitoring_worker-Member_runs = monitoring_worker-Member demo "web" web manager

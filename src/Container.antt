-- ===== src/Container.antt =====
-- `ContainerManager` (src/container/container_manager.cpp, include/container/container_manager.h):
-- containers by their id, under one mutex.
pub mod Lifecycle
pub mod Cleanup
pub mod Tests
use Prim.Native.String.{String}
use cloud_fly_prlatform.Prelude.{
  ℕ, Bool, true, false, List, [], ◌∷◌, map, Option, some, none, if◌then◌else◌,
}
use cloud_fly_prlatform.Prelude.Maps.{string_eq, Map, find, insert, erase}
use cloud_fly_prlatform.Prelude.Locks.{
  Guarded, ◌>>=◌, ◌>>◌, lock_guard, pure, found, modify, skip, gets,
}

abbrev pub containers_mutex : ℕ
containers_mutex = 0

pub data ContainerState : Type 0 where
  created running paused stopped error : ContainerState

pub data ResourceType : Type 0 where
  cpu memory disk network : ResourceType

-- `double`, its conversions, and 0.0.
pub record Doubles : Type 1 where
  pub Double : Type 0
  pub to_size : Double → ℕ
  pub of_size : ℕ → Double
  pub zero_point_zero : Double

unfoldable pub is_stopped : ContainerState → Bool
is_stopped stopped = true
is_stopped created = false
is_stopped running = false
is_stopped paused = false
is_stopped error = false

-- The loop of `unmount_volume`.
unfoldable pub drop_volumes : String → Map String String → Map String String
drop_volumes container_path [] = []
drop_volumes container_path ((h, c) ∷ volumes) =
    let rest = drop_volumes container_path volumes in
    if string_eq.beq c container_path then rest else (h, c) ∷ rest

module _ (d : Doubles) where
  pub record ResourceLimits : Type 0 where
    pub cpu_limit : d.Double
    pub memory_limit_mb : ℕ
    pub disk_limit_mb : ℕ
    pub network_bandwidth_mbps : ℕ

  -- The fields that the manager reads or writes.
  pub record ContainerConfig : Type 0 where
    pub volumes : Map String String
    pub resource_limits : ResourceLimits
    pub auto_restart : Bool
    pub network_mode : String

  pub record ContainerStats : Type 0 where
    pub cpu_usage : d.Double
    pub memory_usage : ℕ
    pub disk_usage : ℕ
    pub network_io : ℕ
    pub state : ContainerState
    pub last_updated : ℕ

  pub record Container : Type 0 where
    pub config : ContainerConfig
    pub stats : ContainerStats
    pub id : String
    pub created_at : ℕ
    pub last_health_check : ℕ
    pub is_healthy : Bool

  -- `now` is the system's clock.
  pub record ContainerManager : Type 0 where
    pub containers : Map String Container
    pub monitoring_active : Bool
    pub now : ℕ

  abbrev Call : Type 0 → Type 0
  Call = Guarded ContainerManager

  -- `if (auto it = containers_.find(id); it != containers_.end()) …`, for a change of the container.
  change : String → (ContainerManager → Container → Container) → Call (Unit {0})
  change id f = lock_guard containers_mutex (
      found (λ s. find id s.containers) skip
        λ c. modify (λ s. record s { containers = insert id (f s c) s.containers }))

  -- The same, for an answer about the container.
  ask : {A : Type 0} → String → A → (Container → A) → Call A
  ask id otherwise f =
      lock_guard containers_mutex
        (found (λ s. find id s.containers) (pure otherwise) λ c. pure (f c))

  update_container_stats : ContainerManager → Container → Container
  update_container_stats s c = record c { stats = record (c.stats) { last_updated = s.now } }

  enter : ContainerState → String → Call (Unit {0})
  unfolding change update_container_stats
  enter state id =
      change id
        λ s c. update_container_stats s (record c { stats = record (c.stats) { state = state } })

  unfoldable pub start_container : String → Call (Unit {0})
  unfolding enter
  start_container = enter running

  unfoldable pub stop_container : String → Call (Unit {0})
  unfolding enter
  stop_container = enter stopped

  unfoldable pub pause_container : String → Call (Unit {0})
  unfolding enter
  pause_container = enter paused

  unfoldable pub resume_container : String → Call (Unit {0})
  unfolding enter
  resume_container = enter running

  unfoldable pub remove_container : String → Call (Unit {0})
  remove_container id =
      lock_guard containers_mutex (modify (λ s. record s { containers = erase id s.containers }))

  unfoldable pub get_container_state : String → Call ContainerState
  unfolding ask
  get_container_state id = ask id error (λ c. c.stats.state)

  -- `none` is the statistics that `ContainerStats{}` makes.
  unfoldable pub get_container_stats : String → Call (Option ContainerStats)
  unfolding ask
  get_container_stats id = ask id none (λ c. some c.stats)

  unfoldable pub list_containers : Call (List String)
  list_containers = lock_guard containers_mutex (gets (λ s. map (λ e. e.0) s.containers))

  set_limit : ResourceType → d.Double → ResourceLimits → ResourceLimits
  set_limit cpu limit r = record r { cpu_limit = limit }
  set_limit memory limit r = record r { memory_limit_mb = d.to_size limit }
  set_limit disk limit r = record r { disk_limit_mb = d.to_size limit }
  set_limit network limit r = record r { network_bandwidth_mbps = d.to_size limit }

  unfoldable pub set_resource_limits : String → ResourceType → d.Double → Call (Unit {0})
  unfolding change set_limit
  set_resource_limits id type limit = change id λ s c. record c {
    config = record (c.config) { resource_limits = set_limit type limit c.config.resource_limits };
  }

  -- The four calls that create and update end with.
  set_all : String → ResourceLimits → Call (Unit {0})
  unfolding set_resource_limits
  set_all id r =
      set_resource_limits id cpu r.cpu_limit
      >> set_resource_limits id memory (d.of_size r.memory_limit_mb)
      >> set_resource_limits id disk (d.of_size r.disk_limit_mb)
      >> set_resource_limits id network (d.of_size r.network_bandwidth_mbps)

  unfoldable pub update_container_resources : String → ResourceLimits → Call (Unit {0})
  unfolding set_all
  update_container_resources id r = lock_guard containers_mutex (
      found (λ s. find id s.containers) skip
        λ c.
          modify (λ s. record s {
            containers =
                insert id (record c { config = record (c.config) { resource_limits = r } })
                  s.containers;
          })
          >> set_all id r)

  -- `id` is what `generate_container_id` drew, and `stats` the statistics that were never set.
  -- The container is moved into the map, its id with it: `moved` is the id that is left behind.
  unfoldable pub create_container : String → String → ContainerStats → ContainerConfig → Call String
  unfolding set_all
  create_container id moved stats config = lock_guard containers_mutex (
      modify (λ s. record s {
        containers =
            insert id
              (record {
                config = config;
                stats = stats;
                id = id;
                created_at = s.now;
                last_health_check = s.now;
                is_healthy = true;
              })
              s.containers;
      })
      >> set_all moved config.resource_limits
      >> pure moved)

  unfoldable pub get_resource_usage : String → ResourceType → Call d.Double
  unfolding ask
  get_resource_usage id type = ask id d.zero_point_zero λ c. elim type [
    | cpu ↦ c.stats.cpu_usage
    | memory ↦ d.of_size c.stats.memory_usage
    | disk ↦ d.of_size c.stats.disk_usage
    | network ↦ d.of_size c.stats.network_io
  ]

  unfoldable pub is_container_healthy : String → Call Bool
  unfolding ask
  is_container_healthy id = ask id false (λ c. c.is_healthy)

  unfoldable pub configure_network : String → String → Call (Unit {0})
  unfolding change
  configure_network id mode =
      change id λ s c. record c { config = record (c.config) { network_mode = mode } }

  unfoldable pub mount_volume : String → String → String → Call (Unit {0})
  unfolding change
  mount_volume id host_path container_path = change id λ s c. record c {
    config = record (c.config) { volumes = insert host_path container_path c.config.volumes };
  }

  unfoldable pub unmount_volume : String → String → Call (Unit {0})
  unfolding change drop_volumes
  unmount_volume id container_path = change id λ s c. record c {
    config = record (c.config) { volumes = drop_volumes container_path c.config.volumes };
  }

  unfoldable pub cleanup_stopped : Map String Container → Map String Container
  unfolding is_stopped
  cleanup_stopped [] = []
  cleanup_stopped ((id, c) ∷ cs) =
      let rest = cleanup_stopped cs in if is_stopped c.stats.state then rest else (id, c) ∷ rest

  -- `check_container_health` is always true, so a round only refreshes the statistics and the health.
  pub refresh : ContainerManager → String × Container → String × Container
  unfolding update_container_stats
  refresh s (id, c) = (id, record (update_container_stats s c) { is_healthy = true })

  -- One round of the monitoring thread.
  unfoldable pub monitoring_worker : Call (Unit {0})
  unfolding refresh cleanup_stopped
  monitoring_worker =
      lock_guard containers_mutex
        (modify (λ s. record s { containers = cleanup_stopped (map (refresh s) s.containers) }))

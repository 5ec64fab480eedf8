-- ===== src/Container/Lifecycle.antt =====
-- Containers over their life: creation, states, volumes and the monitoring thread.
use Prim.Native.String.{String}
use cloud_fly_prlatform.Prelude.{
  ◌≡◌, ◌≢◌, inl, inr, refl, [], some, none, arith, Option-cases, returns, stops, deadlock,
}
use cloud_fly_prlatform.Prelude.Maps.{string_eq, find, insert, find-insert_self, find-insert_ne}
use cloud_fly_prlatform.Prelude.Locks.{Guarded}
use cloud_fly_prlatform.Container.{
  Doubles, ContainerManager, ContainerConfig, ContainerStats, Container, ContainerState,
  ResourceLimits, running, paused, stopped, change, ask, enter, update_container_stats,
  start_container, stop_container, pause_container, resume_container, get_container_state,
  create_container, update_container_resources, set_all, set_resource_limits,
}

-- No container is ever created, whatever its id and configuration: `create_container` waits for ever for
-- the mutex that it holds, and so does a change of the resources of a container that is there; of any
-- other container that changes nothing.
pub create_container-deadlock :
    (d : Doubles) (id moved : String) (stats : ContainerStats d) (config : ContainerConfig d)
    (r : ResourceLimits d) (s : ContainerManager d)
    → (create_container d id moved stats config [] s ≡ stops deadlock)
      × (update_container_resources d id r [] s
          ≡ elim (find id s.containers) [ none ↦ returns (tt, s) | some c ↦ stops deadlock ])
unfolding create_container update_container_resources set_all set_resource_limits change
create_container-deadlock d id moved stats config r s = (
  refl,
  elim (Option-cases (find id s.containers)) [
    | inl e ↦ ground (arith, e)
    | inr (c, e) ↦ ground (arith, e)
  ],
)

-- The state that an operation of the lifecycle leaves a container in.
abbrev pub Enters :
    (d : Doubles)
    → (String → Guarded (ContainerManager d) (Unit {0}))
    → ContainerState
    → String
    → String
    → ContainerManager d
    → Type 0
Enters d operation state id other s =
    (s' : ContainerManager d) × (operation id [] s ≡ returns (tt, s'))
    × (get_container_state d id [] s' ≡ returns (state, s'))
    × (find other s'.containers ≡ find other s.containers)

enter-Enters :
    (d : Doubles) (state : ContainerState) (id other : String) (c : Container d)
    (s : ContainerManager d)
    → find id s.containers ≡ some c
    → other ≢ id
    → Enters d (enter d state) state id other s
unfolding enter change ask update_container_stats get_container_state
enter-Enters d state id other c s there ne =
    let c' : Container d = record c {
      stats = record (c.stats) { state = state; last_updated = s.now };
    } in
    let now_there = find-insert_self id c' s.containers in
    (
      record s { containers = insert id c' s.containers },
      ground (arith, there),
      ground (arith, now_there),
      find-insert_ne other id c' s.containers ne,
    )

-- Whatever state a container that is there is in, starting, stopping, pausing and resuming it come back
-- and leave it running, stopped, paused and running; no other container changes.
pub lifecycle-Enters :
    (d : Doubles) (id other : String) (c : Container d) (s : ContainerManager d)
    → find id s.containers ≡ some c
    → other ≢ id
    → Enters d (start_container d) running id other s
      × Enters d (stop_container d) stopped id other s
      × Enters d (pause_container d) paused id other s
      × Enters d (resume_container d) running id other s
unfolding start_container stop_container pause_container resume_container
lifecycle-Enters d id other c s there ne = (
  enter-Enters d running id other c s there ne,
  enter-Enters d stopped id other c s there ne,
  enter-Enters d paused id other c s there ne,
  enter-Enters d running id other c s there ne,
)

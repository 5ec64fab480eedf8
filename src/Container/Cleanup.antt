-- ===== src/Container/Cleanup.antt =====
-- What leaves a container manager's lists: volumes that are unmounted, containers that have stopped.
use Prim.Native.String.{String}
use cloud_fly_prlatform.Prelude.{
  ◌≡◌, ◌≢◌, ◌↔◌, refl, sym, ◌∙◌, true, [], ◌∷◌, some, arith, returns, map,
}
use cloud_fly_prlatform.Prelude.Maps.{string_eq, Map, find, insert, find-insert_self}
use cloud_fly_prlatform.Prelude.Members.{Member, Member-if}
use cloud_fly_prlatform.Container.{
  Doubles, ContainerManager, Container, ContainerState, created, running, paused, stopped, error,
  change, drop_volumes, unmount_volume, cleanup_stopped, is_stopped, monitoring_worker, refresh,
}

drop_volumes-Member :
    (path h p : String) (volumes : Map String String)
    → Member (h, p) (drop_volumes path volumes) ↔ (Member (h, p) volumes × (p ≢ path))
unfolding drop_volumes
drop_volumes-Member path h p [] =
    ((λ (i, e). absurd (ground arith)), λ ((i, e), _). absurd (ground arith))
drop_volumes-Member path h p ((k, v) ∷ volumes) =
    Member-if (h, p) (k, v) (string_eq.beq v path) volumes (drop_volumes path volumes)
      (drop_volumes-Member path h p volumes)
      (λ t e q. q (sym (λ i. (e i).1) ∙ (string_eq.beq_iff v path).0 t))
      (λ f e q. absurd (ground (arith, f, (string_eq.beq_iff v path).1 ((λ i. (e i).1) ∙ q))))

-- `unmount_volume` of a container that is there comes back, and the container's volumes are then those
-- from before that were not mounted at the path.
pub unmount_volume-Member :
    (d : Doubles) (id path h p : String) (c : Container d) (s : ContainerManager d)
    → find id s.containers ≡ some c
    → (c' : Container d) × (s' : ContainerManager d) × (unmount_volume d id path [] s
        ≡ returns (tt, s'))
      × (find id s'.containers ≡ some c')
      × (Member (h, p) c'.config.volumes ↔ (Member (h, p) c.config.volumes × (p ≢ path)))
unfolding unmount_volume change
unmount_volume-Member d id path h p c s there =
    let c' : Container d = record c {
      config = record (c.config) { volumes = drop_volumes path c.config.volumes };
    } in
    (
      c',
      record s { containers = insert id c' s.containers },
      ground (arith, there),
      find-insert_self id c' s.containers,
      drop_volumes-Member path h p c.config.volumes,
    )

stopped_iff : (x : ContainerState) → (is_stopped x ≡ true) ↔ (x ≡ stopped)
unfolding is_stopped
stopped_iff created = ground arith
stopped_iff running = ground arith
stopped_iff paused = ground arith
stopped_iff stopped = ground arith
stopped_iff error = ground arith

module _ (d : Doubles) where
  cleanup-Member :
      (id : String) (c : Container d) (cs : Map String (Container d))
      → Member (id, c) (cleanup_stopped d cs) ↔ (Member (id, c) cs × (c.stats.state ≢ stopped))
  unfolding cleanup_stopped
  cleanup-Member id c [] = ((λ (i, e). absurd (ground arith)), λ ((i, e), _). absurd (ground arith))
  cleanup-Member id c ((j, k) ∷ cs) =
      Member-if (id, c) (j, k) (is_stopped k.stats.state) cs (cleanup_stopped d cs)
        (cleanup-Member id c cs)
        (λ t e q. q (sym (λ i. (e i).1.stats.state) ∙ (stopped_iff k.stats.state).0 t))
        (λ f e q.
          absurd
            (ground (arith, f, (stopped_iff k.stats.state).1 ((λ i. (e i).1.stats.state) ∙ q))))

-- A round of the monitoring thread comes back; the containers after it are the refreshed ones that are
-- not stopped, so a stopped container is there no more and no other is lost.
pub monitoring_worker-Member :
    (d : Doubles) (id : String) (c : Container d) (s : ContainerManager d)
    → (s' : ContainerManager d) × (monitoring_worker d [] s ≡ returns (tt, s'))
      × (Member (id, c) s'.containers
          ↔ (Member (id, c) (map (refresh d s) s.containers) × (c.stats.state ≢ stopped)))
unfolding monitoring_worker
monitoring_worker-Member d id c s = (
  record s { containers = cleanup_stopped d (map (refresh d s) s.containers) },
  refl,
  cleanup-Member d id c (map (refresh d s) s.containers),
)

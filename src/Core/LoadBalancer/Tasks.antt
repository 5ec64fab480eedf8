-- ===== src/Core/LoadBalancer/Tasks.antt =====
-- Tasks from submission to cancellation.
use cloud_fly_prlatform.Prelude.{
  ℕ, suc, ◌≡◌, ◌≢◌, refl, true, [], ◌∷◌, ◌++◌, some, arith, length, returns, stops, thrown,
}
use cloud_fly_prlatform.Prelude.Maps.{nat_eq, find, insert, find-insert_self}
use cloud_fly_prlatform.Core.LoadBalancer.{
  Doubles, LoadBalancer, Task, Engine, pending, cancelled, submits, cancels, no_core, engine_of,
  call_on, emit, hand_over, find_least_loaded_core, submit_task, cancel_task, get_task_status,
  no_metrics,
}

-- With a core to be found and the engine of the task's type there, `submit_task` answers one more than
-- the count of tasks and hands the task over to that engine as it came, not to the core found; it is
-- then pending, and cancelling it tells the same engine and makes it cancelled.
pub submit-cancel-calls :
    (d : Doubles) (task : Task) (e : Engine) (core : ℕ) (s : LoadBalancer d)
    → find_least_loaded_core d [] s ≡ returns (core, s)
    → core ≢ no_core
    → engine_of d task.kind ≡ some e
    → s.present e ≡ true
    → (id : ℕ) × (s1 : LoadBalancer d) × (s2 : LoadBalancer d) × (id ≡ suc (length s.tasks))
      × (submit_task d task [] s ≡ returns (id, s1))
      × (s1.calls ≡ s.calls ++ (submits e id task ∷ []))
      × (find id s1.tasks ≡ some task)
      × (get_task_status d id [] s1 ≡ returns (pending, s1))
      × (cancel_task d id [] s1 ≡ returns (tt, s2))
      × (s2.calls ≡ s1.calls ++ (cancels e id ∷ []))
      × (get_task_status d id [] s2 ≡ returns (cancelled, s2))
unfolding submit_task cancel_task get_task_status hand_over call_on emit find_least_loaded_core
submit-cancel-calls d task e core s least_e some_core engine there =
    let in1 = find-insert_self id task s.tasks in
    let st1 = find-insert_self id pending s.task_status in
    let st2 = find-insert_self id cancelled s1.task_status in
    (
      id,
      s1,
      s2,
      refl,
      ground (arith, engine, there, least_e),
      refl,
      in1,
      ground (arith, st1),
      ground (arith, in1, engine, there),
      refl,
      ground (arith, st2),
    )
  where
    id : ℕ
    id = suc (length s.tasks)

    s1 : LoadBalancer d
    s1 = record s {
      calls = s.calls ++ (submits e id task ∷ []);
      tasks = insert id task s.tasks;
      task_status = insert id pending s.task_status;
      task_metrics = insert id (no_metrics d) s.task_metrics;
    }

    s2 : LoadBalancer d
    s2 = record s1 {
      calls = s1.calls ++ (cancels e id ∷ []);
      task_status = insert id cancelled s1.task_status;
    }

-- With no core to be found `submit_task` throws, whatever the task.
pub submit_task-no_core :
    (d : Doubles) (task : Task) (s : LoadBalancer d)
    → find_least_loaded_core d [] s ≡ returns (no_core, s)
    → submit_task d task [] s ≡ stops thrown
unfolding submit_task find_least_loaded_core
submit_task-no_core d task s h = ground (arith, h)

-- ===== src/Core/NetworkManager/Tests.antt =====
-- The network manager at concrete inputs, with a connection as the bytes that it has sent.
use cloud_fly_prlatform.Prelude.{
  ℕ, ◌+◌, ◌≡◌, refl, true, false, List, [], ◌∷◌, ◌++◌, some, length, returns, stops, deadlock,
}
use cloud_fly_prlatform.Prelude.Maps.{nat_eq, find}
use cloud_fly_prlatform.Prelude.Locks.{◌>>=◌}
use cloud_fly_prlatform.Core.NetworkManager.{
  Parts, NetworkManager, zero_metrics, connect, disconnect, broadcast, monitor_connections, stop,
}
use cloud_fly_prlatform.Core.NetworkManager.Connections.{connect-disconnect, broadcast-send}

abbrev demo : Parts
demo = record {
  Connection = List ℕ;
  Core = List ℕ;
  Task = ℕ;
  Config = Unit {0};
  Double = ℕ;
  os_socket = some 3;
  os_connect = λ sock config. true;
  new_connection = λ sock config. [];
  conn_send = λ c bytes. (length bytes, c ++ bytes);
  conn_receive = λ c size. (0, [], c);
  conn_cleanup = λ c. c;
  conn_optimize = λ c. c;
  conn_recover = λ c. (false, c);
  conn_is_healthy = λ c. true;
  conn_bandwidth_usage = length;
  conn_latency = length;
  conn_queued = λ c. 0;
  conn_failed = λ c. 0;
  new_core = [];
  core_submit = λ c i t. i ∷ c;
  core_cancel = λ c i. [];
  double_zero = 0;
  double_add = ◌+◌;
  double_div = λ a n. a;
}

abbrev open_one : NetworkManager demo
open_one = record {
  cores = [];
  running = true;
  paused = false;
  connections = (1, 5 ∷ []) ∷ [];
  tasks = [];
  task_status = [];
  metrics = zero_metrics demo;
}

connect-disconnect_runs :
    ((connect demo tt >>= disconnect demo) [] open_one ≡ stops deadlock)
    × (monitor_connections demo [] open_one ≡ stops deadlock)
    × (stop demo [] open_one ≡ stops deadlock)
connect-disconnect_runs = connect-disconnect demo tt 3 open_one 1 (5 ∷ []) [] refl refl refl refl

broadcast-send_runs :
    (s' : NetworkManager demo) × (broadcast demo (6 ∷ 7 ∷ []) [] open_one ≡ returns (tt, s'))
    × (find 1 s'.connections ≡ some (5 ∷ 6 ∷ 7 ∷ []))
broadcast-send_runs = broadcast-send demo (6 ∷ 7 ∷ []) 1 open_one

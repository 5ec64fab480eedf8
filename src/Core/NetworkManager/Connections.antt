-- ===== src/Core/NetworkManager/Connections.antt =====
-- Connections of the network manager: which calls come back, and what a broadcast sends.
use cloud_fly_prlatform.Prelude.{
  ℕ, suc, ◌≡◌, refl, true, List, [], ◌∷◌, some, none, length, arith, returns, stops, deadlock,
}
use cloud_fly_prlatform.Prelude.Maps.{Map, nat_eq, find, find-insert_self}
use cloud_fly_prlatform.Prelude.Locks.{◌>>=◌}
use cloud_fly_prlatform.Core.NetworkManager.{
  Parts, NetworkManager, connect, disconnect, cleanup_connection, cleanup_all, stop, send_all,
  broadcast, monitor_connections, sum_metrics, normalize, update_metrics, check_health,
  handle_connection_failure, optimize_connection,
}

-- In a running manager with a connection open, where a socket can be opened and connected, disconnecting
-- right after `connect` waits for ever for the mutex that the call holds, and so do a round of the
-- monitoring thread and `stop`.
pub connect-disconnect :
    (p : Parts) (config : p.Config) (sock : ℕ) (s : NetworkManager p) (id : ℕ) (conn : p.Connection)
    (conns : Map ℕ p.Connection)
    → p.os_socket ≡ some sock
    → p.os_connect sock config ≡ true
    → s.connections ≡ (id, conn) ∷ conns
    → s.running ≡ true
    → ((connect p config >>= disconnect p) [] s ≡ stops deadlock)
      × (monitor_connections p [] s ≡ stops deadlock)
      × (stop p [] s ≡ stops deadlock)
unfolding connect disconnect cleanup_connection monitor_connections sum_metrics normalize
    update_metrics check_health handle_connection_failure optimize_connection stop cleanup_all
connect-disconnect p config sock s id conn conns opened connected e running =
    let there =
      find-insert_self (suc (length s.connections)) (p.new_connection sock config) s.connections in
    (ground (arith, there), ground arith, ground arith)

find-send_all :
    (p : Parts) (bytes : List ℕ) (id : ℕ) (conns : Map ℕ p.Connection)
    → find id (send_all p bytes conns)
      ≡ elim (find id conns) [ none ↦ none | some conn ↦ some (p.conn_send conn bytes).1 ]
unfolding send_all
find-send_all p bytes id [] = refl
find-send_all p bytes id ((j, conn) ∷ conns) = ground (arith, find-send_all p bytes id conns)

-- `broadcast` comes back, every open connection has then sent the bytes, and none is new or gone.
pub broadcast-send :
    (p : Parts) (bytes : List ℕ) (id : ℕ) (s : NetworkManager p)
    → (s' : NetworkManager p) × (broadcast p bytes [] s ≡ returns (tt, s'))
      × (find id s'.connections ≡ elim (find id s.connections) [
        | none ↦ none
        | some conn ↦ some (p.conn_send conn bytes).1
      ])
unfolding broadcast
broadcast-send p bytes id s = (
  record s { connections = send_all p bytes s.connections },
  refl,
  find-send_all p bytes id s.connections,
)

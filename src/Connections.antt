-- ===== src/Connections.antt =====
-- `NewConnection` of network/server.cc: a connection goes to the two network threads and to the
-- client list. What `_OnNewConnection` returns is a parameter.
pub mod Queued
use uhp_sql.Common.{ℕ, zero, suc, Bool, true, false, Option, none, some, if◌then◌else◌, ◌>>=◌}
use uhp_sql.Common.Int.{ℤ, pos, negsuc}
use uhp_sql.TaskManager.{Sockets, TaskManager, add_new}
use uhp_sql.NetThread.{Polled}
use uhp_sql.NetThread.Pool.{NetThreadPool, add_socket}

-- The same stream sockets as the client list and as the network threads see them.
module _ (S : Sockets) (P : Polled) (upcast : S.Socket → P.Socket) where
  pub record Connections : Type 0 where
    pub pool : NetThreadPool P
    pub tasks : TaskManager S

  -- The connection goes to the client list where the threads have taken it.
  unfoldable pub admit : Connections → S.Socket → Bool × NetThreadPool P → Connections
  admit v conn (added, pool) = record v {
    pool = pool;
    tasks = if added then add_new S v.tasks (some conn) else v.tasks;
  }

  unfoldable pub serve_connection : Connections → Option S.Socket → Option (Bool × Connections)
  unfolding admit
  serve_connection v none = some (true, v)
  serve_connection v (some conn) =
      add_socket P v.pool (upcast conn) 3 >>= λ r. some (false, admit v conn r)

  -- `NewConnection`: whether the descriptor is closed again, and the threads and clients
  -- afterwards. `none` is a failed `assert`.
  unfoldable pub new_connection : Connections → ℤ → Option S.Socket → Option (Bool × Connections)
  unfolding serve_connection
  new_connection v (negsuc zero) conn = some (false, v)
  new_connection v (negsuc (suc n)) conn = serve_connection v conn
  new_connection v (pos sock) conn = serve_connection v conn

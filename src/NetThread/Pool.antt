-- ===== src/NetThread/Pool.antt =====
-- `NetThreadPool` of network/net_thread_pool.cc: the two threads, and the calls passed on to them.
use uhp_sql.Common.{
  ℕ, Bool, true, false, Option, none, some, [], ◌==◌, bit_and, if◌then◌else◌, ◌>>=◌,
}
use uhp_sql.NetThread.{Polled, NetThread, add_task}

module _ (P : Polled) where
  -- A thread that has not been started, or was stopped, is a null pointer.
  pub record NetThreadPool : Type 0 where
    pub recv_thread : Option (NetThread P)
    pub send_thread : Option (NetThread P)

  -- A thread when it is made.
  abbrev pub new_thread : NetThread P
  new_thread = record { tasks = []; new_tasks = []; new_cnt = 0; loop_count = 0 }

  -- `StartAllThreads` up to the calls of `ExecuteTask`, and `StopAllThreads`.
  unfoldable pub start_all_threads : NetThreadPool → NetThreadPool
  start_all_threads p = record { recv_thread = some new_thread; send_thread = some new_thread }

  unfoldable pub stop_all_threads : NetThreadPool → NetThreadPool
  stop_all_threads p = record { recv_thread = none; send_thread = none }

  -- `AddSocket` of a thread that may be null, or the answer false.
  abbrev pub add_to : Option (NetThread P) → P.Socket → ℕ → Option (Bool × Option (NetThread P))
  add_to none s events = some (false, none)
  add_to (some t) s events = add_task P t s events >>= λ t'. some (true, some t')

  -- The part of `AddSocket` for writing.
  unfoldable pub add_writing : NetThreadPool → P.Socket → ℕ → Option (Bool × NetThreadPool)
  add_writing p s events =
      let added = add_to p.send_thread s 2 >>= λ r. some (r.0, record p { send_thread = r.1 }) in
      if bit_and events 2 == 0 then some (true, p) else added

  -- `AddSocket`, for EventTypeRead and for EventTypeWrite.
  unfoldable pub add_socket : NetThreadPool → P.Socket → ℕ → Option (Bool × NetThreadPool)
  unfolding add_writing
  add_socket p s events =
      let added = add_to p.recv_thread s 1 >>= λ r.
      (let p' = record p { recv_thread = r.1 } in
        let rest = add_writing p' s events in if r.0 then rest else some (false, p')) in
      if bit_and events 1 == 0 then add_writing p s events else added

  -- `ModSocket` of a thread that may be null.
  abbrev pub mod_at : Option (NetThread P) → P.World → P.Socket → ℕ → P.World
  mod_at none w s events = w
  mod_at (some t) w s events = P.mod_socket w s events

  unfoldable pub enable_read : NetThreadPool → P.World → P.Socket → P.World
  enable_read p w s = mod_at p.recv_thread w s 1

  unfoldable pub enable_write : NetThreadPool → P.World → P.Socket → P.World
  enable_write p w s = mod_at p.send_thread w s 2

  unfoldable pub disable_read : NetThreadPool → P.World → P.Socket → P.World
  disable_read p w s = mod_at p.recv_thread w s 0

  unfoldable pub disable_write : NetThreadPool → P.World → P.Socket → P.World
  disable_write p w s = mod_at p.send_thread w s 0

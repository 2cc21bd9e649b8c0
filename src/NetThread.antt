-- ===== src/NetThread.antt =====
-- The threads that receive and send, network/net_thread_pool.cc, one round of their loops at a time.
-- The sockets and the poller are an interface: what the loops call changes a world they do not see.
-- `none` is a failed `assert`. What `Poll` reports is a parameter of each round.
pub mod Drops
pub mod Pool
use uhp_sql.Common.{
  ℕ, zero, suc, ◌+◌, ◌*◌, ◌≡◌, Bool, true, false, not, ◌&&◌, ◌||◌, Option, none, some, List, [],
  ◌∷◌, ◌++◌, ltb, ◌==◌, bit_and, if◌then◌else◌, ◌>>=◌, length,
}

-- `OnReadable`, `OnWritable`, `Send` and `OnError` of a socket, `Invalid`, `epollOut_`, whether
-- its type is SocketType_Stream, and `AddSocket`, `ModSocket` and `DelSocket` of the poller on it.
pub record Polled : Type 1 where
  pub World : Type 0
  pub Socket : Type 0
  pub on_readable : World → Socket → Option (Bool × World)
  pub on_writable : World → Socket → Option (Bool × World)
  pub send : World → Socket → Option (Bool × World)
  pub on_error : World → Socket → World
  pub is_invalid : World → Socket → Bool
  pub epoll_out : World → Socket → Bool
  pub is_stream : Socket → Bool
  pub add_socket : World → Socket → ℕ → Bool × World
  pub mod_socket : World → Socket → ℕ → World
  pub del_socket : World → Socket → World

module _ (P : Polled) where
  pub record NetThread : Type 0 where
    pub tasks : List P.Socket
    pub new_tasks : List (P.Socket × ℕ)
    pub new_cnt : ℕ
    pub loop_count : ℕ

  -- `AddSocket`, with its `assert`.
  unfoldable pub add_task : NetThread → P.Socket → ℕ → Option NetThread
  add_task t s events =
      let added = record t {
        new_tasks = t.new_tasks ++ ((s, events) ∷ []);
        new_cnt = t.new_cnt + 1;
      } in
      if added.new_cnt == length added.new_tasks then some added else none

  -- `_AddSocket` of each new task: it becomes a task where the poller takes it.
  unfoldable pub register : List (P.Socket × ℕ) → P.World → List P.Socket → P.World × List P.Socket
  register [] w tasks = (w, tasks)
  register ((s, events) ∷ new) w tasks =
      let added = P.add_socket w s events in
      register new added.1 (if added.0 then tasks ++ (s ∷ []) else tasks)

  -- `_TryAddNewTasks`; `free` is the answer of `try_lock`.
  unfoldable pub try_add_new_tasks : Bool → P.World → NetThread → P.World × NetThread
  unfolding register
  try_add_new_tasks free w t =
      let added = register t.new_tasks w t.tasks in
      if ltb 0 t.new_cnt && free
      then (added.0, record t { tasks = added.1; new_tasks = []; new_cnt = 0 })
      else (w, t)

  -- `if (!call) sock->OnError();`
  abbrev pub or_error : P.Socket → Bool × P.World → P.World
  or_error s (true, w) = w
  or_error s (false, w) = P.on_error w s

  -- One fired event of the receiving thread: EventTypeWrite is asserted not to be there.
  unfoldable pub on_read_event : P.World → ℕ × P.Socket → Option P.World
  on_read_event w (events, s) =
      let read = P.on_readable w s >>= λ r. some (or_error s r) in
      if not (bit_and events 2 == 0)
      then none
      else ((if bit_and events 1 == 0 then some w else read) >>= λ w'.
          some (if bit_and events 4 == 0 then w' else P.on_error w' s))

  -- One fired event of the sending thread.
  unfoldable pub on_write_event : P.World → ℕ × P.Socket → Option P.World
  on_write_event w (events, s) =
      let written = P.on_writable w s >>= λ r. some (or_error s r) in
      if not (bit_and events 1 == 0)
      then none
      else ((if bit_and events 2 == 0 then some w else written) >>= λ w'.
          some (if bit_and events 4 == 0 then w' else P.on_error w' s))

  unfoldable pub each_event :
      (P.World → ℕ × P.Socket → Option P.World) → P.World → List (ℕ × P.Socket) → Option P.World
  each_event handle w [] = some w
  each_event handle w (e ∷ events) = handle w e >>= λ w'. each_event handle w' events

  -- `DisableRead` or `DisableWrite`, and `RemoveSocket`.
  unfoldable pub forget : P.World → P.Socket → P.World
  forget w s = P.del_socket (P.mod_socket w s 0) s

  -- The receiving thread's loop over its tasks: the invalid ones are removed.
  unfoldable pub drop_invalid : P.World → List P.Socket → P.World × List P.Socket
  unfolding forget
  drop_invalid w [] = (w, [])
  drop_invalid w (s ∷ tasks) =
      let gone = P.is_invalid w s in
      let rest = drop_invalid (if gone then forget w s else w) tasks in
      if gone then rest else (rest.0, s ∷ rest.1)

  -- What `Poll` returns, -1 or the events that fired.
  abbrev pub Answer : Type 0
  Answer = Option (List (ℕ × P.Socket))

  abbrev pub reported : Answer → List (ℕ × P.Socket)
  reported none = []
  reported (some fired) = fired

  -- `nReady == 0`.
  abbrev pub is_idle : Answer → Bool
  is_idle none = false
  is_idle (some []) = true
  is_idle (some (e ∷ fired)) = false

  -- A round of `RecvThread::Run`. It looks for invalid sockets when its count comes to 100000,
  -- which goes faster while nothing happens.
  unfoldable pub recv_round : Bool → Answer → P.World → NetThread → Option (P.World × NetThread)
  unfolding try_add_new_tasks on_read_event each_event drop_invalid
  recv_round free answer w t =
      let started = try_add_new_tasks free w t in
      let t' = started.1 in
      if length t'.tasks == 0
      then some (started.0, t')
      else (each_event on_read_event started.0 (reported answer) >>= λ w'.
          let count = (if is_idle answer then t'.loop_count * 2 else t'.loop_count) + 1 in
          let swept = drop_invalid w' t'.tasks in
          if ltb count 100000
          then some (w', record t' { loop_count = count })
          else some (swept.0, record t' { tasks = swept.1; loop_count = 0 }))

  -- What the sending thread does at one socket.
  unfoldable pub send_one : P.World → P.Socket → Option P.World
  send_one w s = if P.is_stream s then (P.send w s >>= λ r. some (or_error s r)) else some w

  -- Its loop over the tasks: how many wait to be written to, the world and the tasks kept.
  unfoldable pub send_each : ℕ → P.World → List P.Socket → Option (ℕ × P.World × List P.Socket)
  unfolding send_one forget
  send_each n_out w [] = some (n_out, w, [])
  send_each n_out w (s ∷ tasks) = send_one w s >>= λ w'.
      let gone = P.is_invalid w' s in
      let n_out' = if not gone && P.epoll_out w' s then n_out + 1 else n_out in
      send_each n_out' (if gone then forget w' s else w') tasks >>= λ rest.
      some (if gone then rest else (rest.0, rest.1, s ∷ rest.2))

  -- A round of `SendThread::Run`.
  unfoldable pub send_round : Bool → Answer → P.World → NetThread → Option (P.World × NetThread)
  unfolding try_add_new_tasks send_each on_write_event each_event
  send_round free answer w t =
      let started = try_add_new_tasks free w t in
      send_each 0 started.0 started.1.tasks >>= λ sent.
      let t' = record (started.1) { tasks = sent.2 } in
      let polled = each_event on_write_event sent.1 (reported answer) >>= λ w'. some (w', t') in
      if sent.0 == 0 then some (sent.1, t') else polled

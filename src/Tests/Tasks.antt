-- ===== src/Tests/Tasks.antt =====
-- The client list on sockets that turn invalid.
use uhp_sql.Common.{ℕ, ◌+◌, ◌≡◌, refl, true, false, ◌&&◌, some, none, List, [], ◌∷◌, ltb, ◌==◌}
use uhp_sql.TaskManager.{
  Sockets, key, find, insert, TaskManager, fresh, add_new, add_task, adopt, visit, sweep, take_new,
  do_msg_parse,
}
use uhp_sql.TaskManager.Invariant.{IsValid, is_found}
use uhp_sql.TaskManager.Lifecycle.{Event, connected, parsed, disconnected, logged, in_use, Agrees}
use uhp_sql.TaskManager.Runs.{
  add, serve, run, Served, run-Served, AreNew, AreHeld, take_new-Connected,
}
use uhp_sql.NetThread.Pool.{start_all_threads}
use uhp_sql.NetThread.Drops.{stream_socket}
use uhp_sql.Connections.{Connections}
use uhp_sql.Connections.Queued.{IsCounted, Queued, Admits, connect_all, connect_all-Admits}

-- Numbers for sockets. The world counts the calls; socket 7 turns invalid after three.
abbrev toy : Sockets
toy = record {
  World = ℕ;
  Socket = ℕ;
  get_id = λ s. s;
  is_invalid = λ w s. s == 7 && ltb 2 w;
  on_connect = λ w s. w + 1;
  on_disconnect = λ w s. w + 1;
  parse = λ w s. (ltb s 5, w + 1);
}

fresh-IsValid : IsValid (logged toy) (fresh (logged toy))
fresh-IsValid = record { ordered = tt; keyed = tt; not_null = tt; counted = refl }

fresh-Agrees : (k : ℕ) → Agrees toy [] [] k
unfolding in_use find
fresh-Agrees k = refl

run-Served_example : Served toy (
    run
      (logged toy)
      (add 7 ∷ add 3 ∷ serve false ∷ add 3 ∷ serve true ∷ serve true ∷ [])
      (0, [])
      (fresh (logged toy)))
run-Served_example =
    run-Served toy (add 7 ∷ add 3 ∷ serve false ∷ add 3 ∷ serve true ∷ serve true ∷ []) (0, [])
      (fresh (logged toy)) fresh-IsValid fresh-Agrees

-- Socket 7 has turned invalid when its turn comes.
served_twice :
    do_msg_parse
      (logged toy)
      true
      (0, [])
      (add_new (logged toy) (add_new (logged toy) (fresh (logged toy)) (some 7)) (some 3))
    ≡ some (
      true,
      (4, disconnected 7 ∷ parsed 3 ∷ connected 3 ∷ connected 7 ∷ []),
      record { tcp_sockets = (key 3, some 3) ∷ []; new_tasks = []; new_cnt = 0 },
    )
unfolding do_msg_parse take_new adopt sweep visit insert find key add_new
served_twice = refl

abbrev waiting : TaskManager (logged toy)
waiting = record {
  tcp_sockets = (2147483650, some 2) ∷ [];
  new_tasks = some 7 ∷ some 3 ∷ [];
  new_cnt = 2;
}

waiting-IsValid : IsValid (logged toy) waiting
unfolding key
waiting-IsValid = record {
  ordered = (tt, tt);
  keyed = ((2, refl), tt);
  not_null = ((7, refl), ((3, refl), tt));
  counted = refl;
}

waiting-AreNew : AreNew toy waiting.new_tasks waiting.tcp_sockets
unfolding find insert key add_task
waiting-AreNew = (refl, (refl, tt))

take_new-Connected_example :
    (w' : ℕ × List (Event ℕ)) × (t' : TaskManager (logged toy)) × (take_new
        (logged toy)
        true
        (1, connected 2 ∷ [])
        waiting
      ≡ some (w', t'))
    × (w'.1 ≡ connected 3 ∷ connected 7 ∷ connected 2 ∷ [])
    × (t'.new_tasks ≡ [])
    × AreHeld toy (some 7 ∷ some 3 ∷ []) t'.tcp_sockets
    × ((k : ℕ)
        → is_found (find k waiting.tcp_sockets) ≡ true
        → is_found (find k t'.tcp_sockets) ≡ true)
take_new-Connected_example =
    take_new-Connected toy (1, connected 2 ∷ []) waiting waiting-IsValid waiting-AreNew

-- A server whose threads have just been started.
abbrev started : Connections toy (stream_socket (λ c. none)) (λ s. s)
started = record {
  pool =
      start_all_threads (stream_socket (λ c. none))
        (record { recv_thread = none; send_thread = none });
  tasks = fresh toy;
}

started-Queued : Queued toy (stream_socket (λ c. none)) (λ s. s) [] started
unfolding start_all_threads IsCounted
started-Queued = record {
  recv = record { tasks = []; new_tasks = []; new_cnt = 0; loop_count = 0 };
  send = record { tasks = []; new_tasks = []; new_cnt = 0; loop_count = 0 };
  is_recv = refl;
  is_send = refl;
  recv_counted = refl;
  send_counted = refl;
  recv_tasks = refl;
  send_tasks = refl;
  client_tasks = refl;
}

connect_all-Admits_example :
    Admits toy
      (stream_socket (λ c. none))
      (λ s. s)
      (3 ∷ 4 ∷ [])
      (connect_all toy
        (stream_socket (λ c. none))
        (λ s. s)
        ((9, some 3) ∷ (10, none) ∷ (11, some 4) ∷ [])
        started)
connect_all-Admits_example =
    connect_all-Admits toy (stream_socket (λ c. none)) (λ s. s)
      ((9, some 3) ∷ (10, none) ∷ (11, some 4) ∷ []) [] started started-Queued

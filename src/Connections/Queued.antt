-- ===== src/Connections/Queued.antt =====
-- Every new connection waits for the same three parts of the server.
use uhp_sql.Common.{
  ℕ, ◌+◌, ◌≡◌, refl, sym, ap, ap₂, ◌∙◌, true, Option, none, some, List, [], ◌∷◌, ◌++◌, map,
  append-nil, append_assoc, arith, ◌==◌, ◌>>=◌, length, length-append,
}
use mathlib.Core.Path.{subst}
use uhp_sql.Common.Int.{pos}
use uhp_sql.TaskManager.{Sockets, TaskManager, add_new}
use uhp_sql.NetThread.{Polled, NetThread, add_task}
use uhp_sql.NetThread.Pool.{add_writing, add_socket}
use uhp_sql.Connections.{Connections, admit, serve_connection, new_connection}

module _ (P : Polled) where
  unfoldable pub IsCounted : NetThread P → Type 0
  IsCounted t = t.new_cnt ≡ length t.new_tasks

  -- A thread with one more new task.
  abbrev pub with_task : NetThread P → P.Socket → ℕ → NetThread P
  with_task t s events = record t {
    new_tasks = t.new_tasks ++ ((s, events) ∷ []);
    new_cnt = t.new_cnt + 1;
  }

  with_task-IsCounted :
      (t : NetThread P) (s : P.Socket) (events : ℕ) → IsCounted t → IsCounted (with_task t s events)
  unfolding IsCounted
  with_task-IsCounted t s events c = omega (arith, length-append t.new_tasks ((s, events) ∷ []))

  -- The `assert` of `AddSocket` holds.
  add_task_lem :
      (t : NetThread P) (s : P.Socket) (events : ℕ)
      → IsCounted t
      → add_task P t s events ≡ some (with_task t s events)
  unfolding add_task IsCounted
  add_task_lem t s events c =
      let holds : (t.new_cnt + 1 == length (t.new_tasks ++ ((s, events) ∷ []))) ≡ true =
        ground (arith, length-append t.new_tasks ((s, events) ∷ [])) in
      rw holds refl

module _ (S : Sockets) (P : Polled) (upcast : S.Socket → P.Socket) where
  -- Both threads run, and these connections, in this order, are what each of them and the client
  -- list have not taken over yet.
  pub record Queued (conns : List S.Socket) (v : Connections S P upcast) : Type 0 where
    pub recv : NetThread P
    pub send : NetThread P
    pub is_recv : v.pool.recv_thread ≡ some recv
    pub is_send : v.pool.send_thread ≡ some send
    pub recv_counted : IsCounted P recv
    pub send_counted : IsCounted P send
    pub recv_tasks : recv.new_tasks ≡ map (λ c. (upcast c, 1)) conns
    pub send_tasks : send.new_tasks ≡ map (λ c. (upcast c, 2)) conns
    pub client_tasks : v.tasks.new_tasks ≡ map (λ c. some c) conns

  -- The connections of a list of answers.
  abbrev pub made : List (Option S.Socket) → List S.Socket
  made [] = []
  made (none ∷ answers) = made answers
  made (some c ∷ answers) = c ∷ made answers

  -- What a call of `NewConnection` leaves.
  abbrev pub connect_one :
      Connections S P upcast → ℕ → Option S.Socket → Option (Connections S P upcast)
  connect_one v sock conn = new_connection S P upcast v (pos sock) conn >>= λ r. some r.1

  -- `NewConnection` of one descriptor after the other.
  pub connect_all :
      List (ℕ × Option S.Socket) → Connections S P upcast → Option (Connections S P upcast)
  connect_all [] v = some v
  connect_all ((sock, conn) ∷ rest) v = connect_one v sock conn >>= λ u. connect_all rest u

  -- A call that goes through to such a server.
  pub record Admits (conns : List S.Socket) (r : Option (Connections S P upcast)) : Type 0 where
    pub after : Connections S P upcast
    pub returns : r ≡ some after
    pub queued : Queued conns after

  map-snoc :
      {B : Type 0} (f : S.Socket → B) (xs : List S.Socket) (c : S.Socket)
      → map f (xs ++ (c ∷ [])) ≡ map f xs ++ (f c ∷ [])
  map-snoc f [] c = refl
  map-snoc f (x ∷ xs) c = ap (λ t. f x ∷ t) (map-snoc f xs c)

  -- The server with the pool of two threads written out.
  server : NetThread P → NetThread P → TaskManager S → Connections S P upcast
  server a b t = record { pool = record { recv_thread = some a; send_thread = some b }; tasks = t }

  server_eq :
      (conns : List S.Socket) (v : Connections S P upcast) (q : Queued conns v)
      → v ≡ server q.recv q.send v.tasks
  unfolding server
  server_eq conns v q =
      ap₂
        (λ (a b : Option (NetThread P)). record v {
          pool = record { recv_thread = a; send_thread = b };
        })
        q.is_recv q.is_send

  server-Admits :
      (conns : List S.Socket) (a b : NetThread P) (t : TaskManager S) (sock : ℕ) (c : S.Socket)
      → IsCounted P a
      → IsCounted P b
      → a.new_tasks ≡ map (λ c. (upcast c, 1)) conns
      → b.new_tasks ≡ map (λ c. (upcast c, 2)) conns
      → t.new_tasks ≡ map (λ c. some c) conns
      → Admits (conns ++ (c ∷ [])) (connect_one (server a b t) sock (some c))
  unfolding server new_connection serve_connection admit add_socket add_writing add_new
  server-Admits conns a b t sock c ca cb ra rb rt = record {
    after = server (with_task P a (upcast c) 1) (with_task P b (upcast c) 2) (add_new S t (some c));
    returns = rw (add_task_lem P a (upcast c) 1 ca, add_task_lem P b (upcast c) 2 cb) refl;
    queued = record {
      recv = with_task P a (upcast c) 1;
      send = with_task P b (upcast c) 2;
      is_recv = refl;
      is_send = refl;
      recv_counted = with_task-IsCounted P a (upcast c) 1 ca;
      send_counted = with_task-IsCounted P b (upcast c) 2 cb;
      recv_tasks =
          ap (λ l. l ++ ((upcast c, 1) ∷ [])) ra ∙ sym (map-snoc (λ c. (upcast c, 1)) conns c);
      send_tasks =
          ap (λ l. l ++ ((upcast c, 2) ∷ [])) rb ∙ sym (map-snoc (λ c. (upcast c, 2)) conns c);
      client_tasks = ap (λ l. l ++ (some c ∷ [])) rt ∙ sym (map-snoc (λ c. some c) conns c);
    };
  }

  new_connection-Admits :
      (conns : List S.Socket) (v : Connections S P upcast) (sock : ℕ) (c : S.Socket)
      → Queued conns v
      → Admits (conns ++ (c ∷ [])) (connect_one v sock (some c))
  new_connection-Admits conns v sock c q =
      subst (λ u. Admits (conns ++ (c ∷ [])) (connect_one u sock (some c)))
        (sym (server_eq conns v q))
        (server-Admits conns q.recv q.send v.tasks sock c q.recv_counted q.send_counted q.recv_tasks
          q.send_tasks q.client_tasks)

  -- Where there is no connection, the descriptor is closed and nothing changes.
  no_connection : (v : Connections S P upcast) (sock : ℕ) → connect_one v sock none ≡ some v
  unfolding new_connection serve_connection
  no_connection v sock = refl

  -- Whatever connections are made one after the other while both threads run, no `assert` fails,
  -- and each of the threads that receive and send and the client list is given all of them, and
  -- no others, in the order in which they were made, behind those that it had.
  pub connect_all-Admits :
      (answers : List (ℕ × Option S.Socket)) (conns : List S.Socket) (v : Connections S P upcast)
      → Queued conns v
      → Admits (conns ++ made (map (λ a. a.1) answers)) (connect_all answers v)
  unfolding connect_all
  connect_all-Admits [] conns v q =
      subst (λ l. Admits l (some v)) (sym (append-nil conns))
        (record { after = v; returns = refl; queued = q })
  connect_all-Admits ((sock, none) ∷ answers) conns v q =
      rw (no_connection v sock) (connect_all-Admits answers conns v q)
  connect_all-Admits ((sock, some c) ∷ answers) conns v q =
      let one = new_connection-Admits conns v sock c q in
      let rest : Admits ((conns ++ (c ∷ [])) ++ made (map (λ a. a.1) answers))
          (connect_all answers one.after) =
        connect_all-Admits answers (conns ++ (c ∷ [])) one.after one.queued in
      rw one.returns (
        subst (λ l. Admits l (connect_all answers one.after))
          (append_assoc conns (c ∷ []) (made (map (λ a. a.1) answers))) rest)

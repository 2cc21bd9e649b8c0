-- ===== src/TaskManager/Runs.antt =====
-- Runs of the manager: whatever is added and however often it is served, its map stays in order and
-- every socket goes through its life in order.
use uhp_sql.Common.{
  ℕ, ◌≡◌, refl, ap, ◌∙◌, Bool, true, false, not, ◌&&◌, ◌||◌, inl, inr, Bool-cases, Option, none,
  some, List, [], ◌∷◌, ◌++◌, arith, ltb, ◌==◌, ◌>>=◌, All, length, length-append,
}
use uhp_sql.TaskManager.{
  Sockets, key, find, insert, Ptr, TaskManager, add_new, add_task, adopt, sweep, take_new,
  do_msg_parse,
}
use uhp_sql.TaskManager.Invariant.{
  IsOrdered, insert-IsOrdered, is_found, insert-found, find-insert, IsValid,
}
use uhp_sql.TaskManager.Lifecycle.{
  Event, connected, logged, Agrees, adopt-Adopted, sweep-All, sweep-IsOrdered, sweep-Agrees,
}

-- Calls of `AddTask` with a socket, and of `DoMsgParse`, by the sockets of a run.
pub data Action (A : Type 0) : Type 0 where
  add : A → Action A
  serve : (free : Bool) → Action A

pub run :
    (S : Sockets)
    → List (Action S.Socket)
    → S.World
    → TaskManager S
    → Option (S.World × TaskManager S)
run S [] w t = some (w, t)
run S (add s ∷ actions) w t = run S actions w (add_new S t (some s))
run S (serve free ∷ actions) w t = do_msg_parse S free w t >>= λ r. run S actions r.1 r.2

module _ (S : Sockets) where
  -- A run that goes through, to a valid manager whose map agrees with what is recorded.
  pub record Served (r : Option ((S.World × List (Event S.Socket)) × TaskManager (logged S)))
      : Type 0 where
    pub world : S.World × List (Event S.Socket)
    pub manager : TaskManager (logged S)
    pub returns : r ≡ some (world, manager)
    pub valid : IsValid (logged S) manager
    pub agrees : (k : ℕ) → Agrees S world.1 manager.tcp_sockets k

  sockets_append :
      (tasks : List (Ptr (logged S))) (s : S.Socket)
      → All (λ p. (t : S.Socket) × (p ≡ some t)) tasks
      → All (λ p. (t : S.Socket) × (p ≡ some t)) (tasks ++ (some s ∷ []))
  sockets_append [] s a = ((s, refl), tt)
  sockets_append (p ∷ tasks) s (a, rest) = (a, sockets_append tasks s rest)

  add_new-IsValid :
      (t : TaskManager (logged S)) (s : S.Socket)
      → IsValid (logged S) t
      → IsValid (logged S) (add_new (logged S) t (some s))
  unfolding add_new
  add_new-IsValid t s v = record {
    ordered = v.ordered;
    keyed = v.keyed;
    not_null = sockets_append t.new_tasks s v.not_null;
    counted = omega (arith, v.counted, length-append t.new_tasks (some s ∷ []));
  }

  sweep-IsValid :
      (w : S.World × List (Event S.Socket)) (t : TaskManager (logged S))
      → IsValid (logged S) t
      → IsValid (logged S) (record t { tcp_sockets = (sweep (logged S) false w t.tcp_sockets).2 })
  sweep-IsValid w t v = record {
    ordered = sweep-IsOrdered S false w t.tcp_sockets v.ordered;
    keyed = sweep-All S _ false w t.tcp_sockets v.keyed;
    not_null = v.not_null;
    counted = v.counted;
  }

  take_new-Served :
      (free : Bool) (w : S.World × List (Event S.Socket)) (t : TaskManager (logged S))
      → IsValid (logged S) t
      → ((k : ℕ) → Agrees S w.1 t.tcp_sockets k)
      → Served (take_new (logged S) free w t)
  unfolding take_new
  take_new-Served free w t v e = elim (Bool-cases (ltb 0 t.new_cnt && free)) [
    | inl some_new ↦
        let taken = adopt-Adopted S t.new_tasks w t.tcp_sockets v.not_null v.ordered v.keyed in
        rw (some_new, taken.returns)
          (record {
            world = taken.world;
            manager = record { tcp_sockets = taken.sockets; new_tasks = []; new_cnt = 0 };
            returns = refl;
            valid = record {
              ordered = taken.ordered;
              keyed = taken.keyed;
              not_null = tt;
              counted = refl;
            };
            agrees = λ k. taken.agrees k (e k);
          })
    | inr none_new ↦
        rw none_new (record { world = w; manager = t; returns = refl; valid = v; agrees = e })
  ]

  -- Whatever sockets are added and whenever the manager is served, with its lock free or not, on a
  -- valid manager whose map agrees with what is recorded the run goes through to such a manager:
  -- under every key, sockets were connected while none was there, and were parsed and disconnected
  -- only while one was, and the map holds the keys of those connected and not disconnected yet.
  pub run-Served :
      (actions : List (Action S.Socket)) (w : S.World × List (Event S.Socket))
      (t : TaskManager (logged S))
      → IsValid (logged S) t
      → ((k : ℕ) → Agrees S w.1 t.tcp_sockets k)
      → Served (run (logged S) actions w t)
  unfolding run do_msg_parse add_new
  run-Served [] w t v e = record { world = w; manager = t; returns = refl; valid = v; agrees = e }
  run-Served (add s ∷ actions) w t v e =
      run-Served actions w (add_new (logged S) t (some s)) (add_new-IsValid t s v) e
  run-Served (serve free ∷ actions) w t v e =
      let taken = take_new-Served free w t v e in
      let world = taken.world in
      let manager = taken.manager in
      let valid = taken.valid in
      let swept = sweep (logged S) false world manager.tcp_sockets in
      rw taken.returns (
        run-Served actions swept.1 (record manager { tcp_sockets = swept.2 })
          (sweep-IsValid world manager valid)
          (λ k.
            sweep-Agrees S false world manager.tcp_sockets k valid.ordered valid.keyed
              (taken.agrees k)))

  -- The tasks are sockets, and their keys differ from each other and from those in the map.
  abbrev pub AreNew : List (Ptr (logged S)) → List (ℕ × Ptr (logged S)) → Type 0
  AreNew [] m = Unit
  AreNew (none ∷ tasks) m = ⊥
  AreNew (some s ∷ tasks) m =
      (is_found (find (key (S.get_id s)) m) ≡ false) × AreNew tasks (add_task (logged S) s m).1

  -- The events of connecting tasks in turn, the latest first, before those of `log`.
  abbrev pub connecting : List (Ptr (logged S)) → List (Event S.Socket) → List (Event S.Socket)
  connecting [] log = log
  connecting (none ∷ tasks) log = connecting tasks log
  connecting (some s ∷ tasks) log = connecting tasks (connected s ∷ log)

  -- All of the tasks are in the map.
  abbrev pub AreHeld : List (Ptr (logged S)) → List (ℕ × Ptr (logged S)) → Type 0
  AreHeld [] m = Unit
  AreHeld (none ∷ tasks) m = AreHeld tasks m
  AreHeld (some s ∷ tasks) m = (is_found (find (key (S.get_id s)) m) ≡ true) × AreHeld tasks m

  -- All new tasks are connected in turn, and all of them and what was there before is in the map.
  pub record Connected (tasks : List (Ptr (logged S))) (w : S.World × List (Event S.Socket))
      (m : List (ℕ × Ptr (logged S)))
      (r : Option ((S.World × List (Event S.Socket)) × List (ℕ × Ptr (logged S)))) : Type 0 where
    world : S.World × List (Event S.Socket)
    sockets : List (ℕ × Ptr (logged S))
    returns : r ≡ some (world, sockets)
    log : world.1 ≡ connecting tasks w.1
    held : AreHeld tasks sockets
    kept : (k : ℕ) → is_found (find k m) ≡ true → is_found (find k sockets) ≡ true

  adopt-Connected :
      (tasks : List (Ptr (logged S))) (w : S.World × List (Event S.Socket))
      (m : List (ℕ × Ptr (logged S)))
      → IsOrdered m
      → AreNew tasks m
      → Connected tasks w m (adopt (logged S) tasks w m)
  unfolding adopt add_task
  adopt-Connected [] w m o n = record {
    world = w;
    sockets = m;
    returns = refl;
    log = refl;
    held = tt;
    kept = λ k e. e;
  }
  adopt-Connected (none ∷ tasks) w m o n = absurd n
  adopt-Connected (some s ∷ tasks) w m o (new, n) =
      let k = key (S.get_id s) in
      let reported : (insert k (some s) m).0 ≡ true = insert-found k (some s) m o ∙ ap not new in
      let rest =
        adopt-Connected tasks ((logged S).on_connect w s) (insert k (some s) m).1
          (insert-IsOrdered k (some s) m o) n in
      rw reported (record {
        world = rest.world;
        sockets = rest.sockets;
        returns = rest.returns;
        log = rest.log;
        held = (rest.kept k (find-insert k k (some s) m ∙ ground arith), rest.held);
        kept = λ j e.
            rest.kept j (find-insert k j (some s) m ∙ ap (λ b. k == j || b) e ∙ ground arith);
      })

  -- Where the lock is free, sockets that are waiting under keys that are new and differ are all
  -- connected, each once and in the order in which they were added, before anything else happens:
  -- none waits any more, and their keys and those that were there are found in the map.
  pub take_new-Connected :
      (w : S.World × List (Event S.Socket)) (t : TaskManager (logged S))
      → IsValid (logged S) t
      → AreNew t.new_tasks t.tcp_sockets
      → (w' : S.World × List (Event S.Socket)) × (t' : TaskManager (logged S)) × (take_new
            (logged S)
            true
            w
            t
          ≡ some (w', t'))
        × (w'.1 ≡ connecting t.new_tasks w.1)
        × (t'.new_tasks ≡ [])
        × AreHeld t.new_tasks t'.tcp_sockets
        × ((k : ℕ)
            → is_found (find k t.tcp_sockets) ≡ true
            → is_found (find k t'.tcp_sockets) ≡ true)
  unfolding take_new
  take_new-Connected w t v n = elim (Bool-cases (ltb 0 t.new_cnt)) [
    | inl waiting ↦
        let c = adopt-Connected t.new_tasks w t.tcp_sockets v.ordered n in
        rw (waiting, c.returns)
          (
            c.world,
            record { tcp_sockets = c.sockets; new_tasks = []; new_cnt = 0 },
            refl,
            c.log,
            refl,
            c.held,
            c.kept,
          )
    | inr idle ↦
        let empty : t.new_tasks ≡ [] = nothing t.new_tasks (omega (arith, v.counted, ge idle)) in
        rw (idle) (w, t, refl, rw empty refl, empty, rw empty tt, λ k e. e)
  ]
    where
      ge : ltb 0 t.new_cnt ≡ false → t.new_cnt ≡ 0
      ge h = ground arith

      nothing : (tasks : List (Ptr (logged S))) → length tasks ≡ 0 → tasks ≡ []
      nothing [] h = refl
      nothing (p ∷ tasks) h = absurd (omega arith)

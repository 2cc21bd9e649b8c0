-- ===== src/TaskManager.antt =====
-- The server's list of clients, network/task_manager.cc. The sockets themselves are an interface: the
-- manager holds references to them and calls their methods, which change a world it does not see.
pub mod Invariant
pub mod Lifecycle
pub mod Runs
use uhp_sql.Common.{
  ℕ, suc, ◌+◌, ◌%◌, ◌^◌, Bool, true, false, not, ◌&&◌, Option, none, some, List, [], ◌∷◌, ◌++◌, ltb,
  ◌==◌, if◌then◌else◌, ◌>>=◌, length,
}

-- What the manager knows of sockets: `GetID`, which never changes, and `Invalid`, `OnConnect`,
-- `OnDisconnect` and `DoMsgParse` in the world they act on.
pub record Sockets : Type 1 where
  pub World : Type 0
  pub Socket : Type 0
  pub get_id : Socket → ℕ
  pub is_invalid : World → Socket → Bool
  pub on_connect : World → Socket → World
  pub on_disconnect : World → Socket → World
  pub parse : World → Socket → Bool × World

-- A key of the map is an `int`. It is kept as its distance from the least `int`, so that `<` is the
-- order of the map; `id` is converted to it modulo 2 ^ 32.
unfoldable pub key : ℕ → ℕ
key id = (id + 2 ^ 31) % 2 ^ 32

module _ {V : Type 0} where
  -- `std::map::find`.
  unfoldable pub find : ℕ → List (ℕ × V) → Option V
  find k [] = none
  find k ((i, v) ∷ m) = let rest = find k m in if i == k then some v else rest

  -- `std::map::insert`, and whether it inserted.
  unfoldable pub insert : ℕ → V → List (ℕ × V) → Bool × List (ℕ × V)
  insert k v [] = (true, (k, v) ∷ [])
  insert k v ((i, u) ∷ m) =
      let rest = insert k v m in
      if ltb k i
      then (true, (k, v) ∷ (i, u) ∷ m)
      else if k == i
      then (false, (i, u) ∷ m)
      else (rest.0, (i, u) ∷ rest.1)

module _ (S : Sockets) where
  -- A `PTCPSOCKET`, which may be null.
  abbrev pub Ptr : Type 0
  Ptr = Option S.Socket

  pub record TaskManager : Type 0 where
    pub tcp_sockets : List (ℕ × Ptr)
    pub new_tasks : List Ptr
    pub new_cnt : ℕ

  abbrev pub fresh : TaskManager
  fresh = record { tcp_sockets = []; new_tasks = []; new_cnt = 0 }

  unfoldable pub add_new : TaskManager → Ptr → TaskManager
  add_new t task = record t { new_tasks = t.new_tasks ++ (task ∷ []); new_cnt = t.new_cnt + 1 }

  or_null : Option Ptr → Ptr
  or_null none = none
  or_null (some p) = p

  -- `FindTCP`.
  unfoldable pub find_tcp : TaskManager → ℕ → Ptr
  unfolding or_null
  find_tcp t id = if ltb 0 id then or_null (find (key id) t.tcp_sockets) else none

  -- `_AddTask` of a task that is not null.
  unfoldable pub add_task : S.Socket → List (ℕ × Ptr) → Bool × List (ℕ × Ptr)
  add_task s m = insert (key (S.get_id s)) (some s) m

  -- The loop over the new tasks. A null task is dereferenced: `none`.
  unfoldable pub adopt : List Ptr → S.World → List (ℕ × Ptr) → Option (S.World × List (ℕ × Ptr))
  unfolding add_task
  adopt [] w m = some (w, m)
  adopt (none ∷ tasks) w m = none
  adopt (some s ∷ tasks) w m =
      let added = add_task s m in adopt tasks (if added.0 then S.on_connect w s else w) added.1

  -- What the loop over the map does at one socket.
  unfoldable pub visit : Bool → S.World → S.Socket → Bool × S.World
  visit busy w s =
      let parsed = S.parse w s in
      if S.is_invalid w s
      then (busy, S.on_disconnect w s)
      else (if parsed.0 && not busy then true else busy, parsed.1)

  -- The loop over the map: an entry that is null or invalid is removed.
  unfoldable pub sweep : Bool → S.World → List (ℕ × Ptr) → Bool × S.World × List (ℕ × Ptr)
  sweep busy w [] = (busy, w, [])
  sweep busy w ((k, none) ∷ m) = sweep busy w m
  sweep busy w ((k, some s) ∷ m) =
      let visited = visit busy w s in
      let rest = sweep visited.0 visited.1 m in
      if S.is_invalid w s then rest else (rest.0, rest.1, (k, some s) ∷ rest.2)

  -- `DoMsgParse`; `free` is the answer of `try_lock`.
  unfoldable pub take_new : Bool → S.World → TaskManager → Option (S.World × TaskManager)
  unfolding adopt
  take_new free w t =
      if ltb 0 t.new_cnt && free
      then (adopt t.new_tasks w t.tcp_sockets >>= λ r.
          some (r.0, record { tcp_sockets = r.1; new_tasks = []; new_cnt = 0 }))
      else some (w, t)

  unfoldable pub do_msg_parse : Bool → S.World → TaskManager → Option (Bool × S.World × TaskManager)
  unfolding take_new sweep
  do_msg_parse free w t = do
    (w', t') ← take_new free w t
    let swept = sweep false w' t'.tcp_sockets in
        some (swept.0, swept.1, record t' { tcp_sockets = swept.2 })

-- ===== src/ThreadPool.antt =====
-- The thread pool of network/thread_pool.cc. Threads that stand at the same place of
-- `_WorkerRoutine` are interchangeable, so the state counts them; every function below is what one
-- thread does while it holds the mutex. `condition_variable::wait` may wake up for no reason.
pub mod Runs
pub mod Order
pub mod Workers
pub mod Progress
pub mod Liveness
pub mod Signals
use uhp_sql.Common.{
  ℕ, zero, suc, ◌+◌, ◌-◌, ◌%◌, ◌^◌, ◌≤◌, ◌<◌, ◌≡◌, Bool, true, false, not, ◌&&◌, ◌||◌, List, [],
  ◌∷◌, ◌++◌, ltb, leb, ◌==◌, if◌then◌else◌,
}

module _ (A : Type 0) where
  -- A task of a caller, or the monitor's task that ends the thread that runs it.
  pub data Task : Type 0 where
    work : A → Task
    stop : Task

  pub record ThreadPool : Type 0 where
    pub max_idle : ℕ
    pub pending : ℕ
    pub waiters : ℕ
    pub shutdown : Bool
    pub tasks : List Task
    -- threads about to lock the mutex for their next task
    pub ready : ℕ
    -- threads blocked in `wait`, and those that `wait` has woken, about to lock the mutex again
    pub asleep : ℕ
    pub woken : ℕ
    -- tasks being run
    pub running : List A
    -- threads that took a `stop` and have not decremented `pendingStopSignal_` yet
    pub stopping : ℕ

module _ {A : Type 0} where
  -- The constructor; `cores` is `hardware_concurrency`.
  unfoldable pub new : ℕ → ThreadPool A
  new cores = record {
    max_idle = if ltb 1 cores then cores else 1;
    pending = 0;
    waiters = 0;
    shutdown = false;
    tasks = [];
    ready = 0;
    asleep = 0;
    woken = 0;
    running = [];
    stopping = 0;
  }

  unfoldable pub set_max_idle_thread : ℕ → ThreadPool A → ThreadPool A
  set_max_idle_thread m p = if ltb 0 m && leb m 256 then record p { max_idle = m } else p

  -- `notify_one`.
  unfoldable pub notify_one : ThreadPool A → ThreadPool A
  notify_one p =
      if p.asleep == 0 then p else record p { asleep = p.asleep - 1; woken = p.woken + 1 }

  -- `_CreateWorker`.
  unfoldable pub create_worker : ThreadPool A → ThreadPool A
  create_worker p = record p { ready = p.ready + 1 }

  -- `ExecuteTask`; without effect on a pool that is shut down.
  unfoldable pub execute_task : A → ThreadPool A → ThreadPool A
  unfolding notify_one create_worker
  execute_task a p =
      let queued = record p { tasks = p.tasks ++ (work a ∷ []) } in
      if p.shutdown then p else notify_one (if p.waiters == 0 then create_worker queued else queued)

  -- The part of `JoinAll` under the lock, with `notify_all`.
  unfoldable pub join_all : ThreadPool A → ThreadPool A
  join_all p =
      if p.shutdown then p else record p { shutdown = true; woken = p.woken + p.asleep; asleep = 0 }

  abbrev pub is_empty : List (Task A) → Bool
  is_empty [] = true
  is_empty (t ∷ tasks) = false

  -- What `wait` waits for.
  abbrev pub may_go : ThreadPool A → Bool
  may_go p = p.shutdown || not (is_empty p.tasks)

  -- The worker behind `wait`: it returns where there is no task, or takes the first one.
  abbrev pub take_task : ThreadPool A → List (Task A) → ThreadPool A
  take_task p [] = p
  take_task p (work a ∷ tasks) = record p { tasks = tasks; running = a ∷ p.running }
  take_task p (stop ∷ tasks) = record p { tasks = tasks; stopping = p.stopping + 1 }

  -- A ready worker locks the mutex and comes to `wait`.
  unfoldable pub enter : ThreadPool A → ThreadPool A
  enter p =
      let left = record p { ready = p.ready - 1 } in
      if may_go p
      then take_task left p.tasks
      else record left { waiters = p.waiters + 1; asleep = p.asleep + 1 }

  -- A woken worker locks the mutex and looks again.
  unfoldable pub resume : ThreadPool A → ThreadPool A
  resume p =
      let left = record p { woken = p.woken - 1 } in
      if may_go p
      then take_task (record left { waiters = p.waiters - 1 }) p.tasks
      else record left { asleep = p.asleep + 1 }

  -- A worker that was stopped leaves.
  unfoldable pub leave : ThreadPool A → ThreadPool A
  leave p = record p { stopping = p.stopping - 1; pending = (p.pending + (2 ^ 32 - 1)) % 2 ^ 32 }

  -- One round of the monitor's loop.
  unfoldable pub signal : ThreadPool A → ThreadPool A
  unfolding notify_one
  signal p =
      let q = notify_one (record p { tasks = p.tasks ++ (stop ∷ []) }) in
      record q { pending = (q.pending + 1) % 2 ^ 32 }

  -- `while (nw-- > maxIdleThread_)`.
  unfoldable pub signals : ℕ → ThreadPool A → ThreadPool A
  signals zero p = p
  signals (suc nw) p =
      let rest = signals nw (signal p) in if ltb p.max_idle (suc nw) then rest else p

  -- `_MonitorRoutine` once it has slept; `nw` is unsigned.
  unfoldable pub monitor : ThreadPool A → ThreadPool A
  unfolding signals
  monitor p = if p.shutdown then p else signals ((p.waiters + 2 ^ 32 - p.pending) % 2 ^ 32) p

-- ===== src/ThreadPool/Runs.antt =====
-- Interleavings of the callers, the workers and the monitor of a thread pool.
use uhp_sql.Common.{ℕ, suc, ◌+◌, ◌-◌, ◌<◌, ◌≡◌, List, [], ◌∷◌, ◌++◌, if◌then◌else◌}
use uhp_sql.ThreadPool.{
  Task, work, stop, ThreadPool, new, set_max_idle_thread, execute_task, join_all, may_go, enter,
  resume, leave, monitor,
}

module _ {A : Type 0} where
  -- The task that is first in the queue, where it is a caller's.
  abbrev pub front_work : List (Task A) → List A
  front_work [] = []
  front_work (work a ∷ tasks) = a ∷ []
  front_work (stop ∷ tasks) = []

  -- A step, with the tasks that it accepts and those that a worker takes. The monitor acts where
  -- `Allowed` says.
  pub data Step (Allowed : ThreadPool A → Type 0) (p : ThreadPool A)
      : List A → List A → ThreadPool A → Type 0 where
    execute : (a : A) → Step Allowed p (if p.shutdown then [] else a ∷ []) [] (execute_task a p)
    set_max : (m : ℕ) → Step Allowed p [] [] (set_max_idle_thread m p)
    join : Step Allowed p [] [] (join_all p)
    enters : 0 < p.ready → Step Allowed p [] (if may_go p then front_work p.tasks else []) (enter p)
    resumes :
        0 < p.woken → Step Allowed p [] (if may_go p then front_work p.tasks else []) (resume p)
    -- a wake-up without `notify`
    wakes :
        0 < p.asleep
        → Step Allowed p [] [] (record p { asleep = p.asleep - 1; woken = p.woken + 1 })
    finishes :
        (xs : List A) (a : A) (ys : List A)
        → p.running ≡ xs ++ a ∷ ys
        → Step Allowed p [] [] (record p { running = xs ++ ys; ready = p.ready + 1 })
    leaves : 0 < p.stopping → Step Allowed p [] [] (leave p)
    monitors : Allowed p → Step Allowed p [] [] (monitor p)

  -- The pools that a new one comes to, with the tasks accepted and those taken so far.
  pub data Reach (Allowed : ThreadPool A → Type 0) : List A → List A → ThreadPool A → Type 0 where
    start : (cores : ℕ) → Reach Allowed [] [] (new cores)
    later :
        {accepted taken more less : List A} {p q : ThreadPool A}
        → Reach Allowed accepted taken p
        → Step Allowed p more less q
        → Reach Allowed (accepted ++ more) (taken ++ less) q

  -- The callers' tasks in the queue.
  abbrev pub works : List (Task A) → List A
  works [] = []
  works (work a ∷ tasks) = a ∷ works tasks
  works (stop ∷ tasks) = works tasks

  -- How many of the tasks in the queue end a thread.
  abbrev pub stops : List (Task A) → ℕ
  stops [] = 0
  stops (work a ∷ tasks) = stops tasks
  stops (stop ∷ tasks) = suc (stops tasks)

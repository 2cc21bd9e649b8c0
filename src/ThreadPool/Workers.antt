-- ===== src/ThreadPool/Workers.antt =====
-- A task in the queue finds a thread: no wake-up is lost, and threads enough are left.
use uhp_sql.Common.{
  ℕ, suc, ◌+◌, ◌-◌, ◌^◌, ◌≤◌, ◌<◌, ◌≡◌, refl, ap, ◌∙◌, ◌⊎◌, Bool, true, false, not, ◌||◌, inl, inr,
  List, [], ◌∷◌, ◌++◌, arith, if_elim, ◌==◌, length, length-append,
}
use uhp_sql.ThreadPool.{
  Task, work, stop, ThreadPool, notify_one, execute_task, create_worker, is_empty, may_go,
  take_task, enter, resume,
}
use uhp_sql.ThreadPool.Runs.{stops}

module _ {A : Type 0} where
  -- The threads that have not been told to end, or are still running a caller's task.
  abbrev pub threads : ThreadPool A → ℕ
  threads p = p.ready + p.asleep + p.woken + length p.running

  pub record Inv (p : ThreadPool A) : Type 0 where
    pub waiting : p.waiters ≡ p.asleep + p.woken
    pub told : p.pending ≡ stops p.tasks + p.stopping
    pub small : p.pending < 2 ^ 32
    pub positive : 0 < p.max_idle
    -- where a thread sleeps, each task has one that was woken for it
    pub heard : (p.asleep ≡ 0) ⊎ (length p.tasks ≤ p.woken)
    pub alive : (length p.tasks ≡ 0) ⊎ (stops p.tasks < threads p)

  pub stops-append : (ts us : List (Task A)) → stops (ts ++ us) ≡ stops ts + stops us
  stops-append [] us = omega arith
  stops-append (work a ∷ ts) us = stops-append ts us
  stops-append (stop ∷ ts) us = omega (arith, stops-append ts us)

  stops-le : (ts : List (Task A)) → stops ts ≤ length ts
  stops-le [] = omega arith
  stops-le (work a ∷ ts) = omega (arith, stops-le ts)
  stops-le (stop ∷ ts) = omega (arith, stops-le ts)

  -- A task more in the queue, and a thread woken for it.
  pub notify_one-Inv :
      (p q : ThreadPool A) (t : Task A)
      → Inv p
      → q.tasks ≡ p.tasks ++ (t ∷ [])
      → q.waiters ≡ p.waiters
      → q.asleep ≡ p.asleep
      → q.woken ≡ p.woken
      → q.running ≡ p.running
      → q.stopping ≡ p.stopping
      → q.max_idle ≡ p.max_idle
      → p.ready ≤ q.ready
      → q.pending < 2 ^ 32
      → q.pending ≡ p.pending + stops (t ∷ [])
      → stops p.tasks + stops (t ∷ []) < threads q
      → Inv (notify_one q)
  unfolding notify_one
  notify_one-Inv p q t v e ew ea eo er es em hr small told enough =
      let counts = ap length e ∙ length-append p.tasks (t ∷ []) in
      let ends = ap stops e ∙ stops-append p.tasks (t ∷ []) in
      let run = ap length er in
      if_elim Inv (q.asleep == 0)
        (λ nobody. record {
          waiting = omega (arith, v.waiting);
          told = omega (arith, v.told);
          small = small;
          positive = omega (arith, v.positive);
          heard = inl (ground arith);
          alive = inr (omega arith);
        })
        (λ somebody. record {
          waiting = ground (arith, v.waiting);
          told = omega (arith, v.told);
          small = small;
          positive = omega (arith, v.positive);
          heard = let old = v.heard in inr (ground arith);
          alive = inr (ground arith);
        })

  -- A thread that is not counted any more takes the first task.
  take_task-Inv :
      (q : ThreadPool A) (tasks : List (Task A))
      → tasks ≡ q.tasks
      → q.waiters ≡ q.asleep + q.woken
      → q.pending ≡ stops tasks + q.stopping
      → q.pending < 2 ^ 32
      → 0 < q.max_idle
      → (q.asleep ≡ 0) ⊎ (length tasks ≤ suc q.woken)
      → (length tasks ≡ 0) ⊎ (stops tasks < suc (threads q))
      → Inv (take_task q tasks)
  take_task-Inv q [] e waiting told small positive heard alive =
      let empty = ap length e in
      let none = ap stops e in
      record {
        waiting = waiting;
        told = omega arith;
        small = small;
        positive = positive;
        heard = inr (omega arith);
        alive = inl (omega arith);
      }
  take_task-Inv q (work a ∷ tasks) e waiting told small positive heard alive = record {
    waiting = waiting;
    told = told;
    small = small;
    positive = positive;
    heard = ground arith;
    alive = inr (ground arith);
  }
  take_task-Inv q (stop ∷ tasks) e waiting told small positive heard alive = record {
    waiting = waiting;
    told = omega arith;
    small = small;
    positive = positive;
    heard = ground arith;
    alive = inr (ground arith);
  }

  no_task :
      (b : Bool) (tasks : List (Task A)) → (b || not (is_empty tasks)) ≡ false → length tasks ≡ 0
  no_task b [] e = refl
  no_task true (t ∷ tasks) e = absurd cc
  no_task false (t ∷ tasks) e = absurd cc

  pub enter-Inv : (p : ThreadPool A) → Inv p → 0 < p.ready → Inv (enter p)
  unfolding enter
  enter-Inv p v some_ready =
      let heard = v.heard in
      let alive = v.alive in
      if_elim Inv (may_go p)
        (λ go.
          take_task-Inv (record p { ready = p.ready - 1 }) p.tasks refl v.waiting v.told v.small
            v.positive (ground arith) (ground arith))
        (λ wait.
          let empty = no_task p.shutdown p.tasks wait in
          record {
            waiting = omega (arith, v.waiting);
            told = v.told;
            small = v.small;
            positive = v.positive;
            heard = inr (omega arith);
            alive = inl empty;
          })

  pub resume-Inv : (p : ThreadPool A) → Inv p → 0 < p.woken → Inv (resume p)
  unfolding resume
  resume-Inv p v some_woken =
      let heard = v.heard in
      let alive = v.alive in
      if_elim Inv (may_go p)
        (λ go.
          take_task-Inv (record p { woken = p.woken - 1; waiters = p.waiters - 1 }) p.tasks refl
            (omega (arith, v.waiting)) v.told v.small v.positive (ground arith) (ground arith))
        (λ wait.
          let empty = no_task p.shutdown p.tasks wait in
          record {
            waiting = omega (arith, v.waiting);
            told = v.told;
            small = v.small;
            positive = v.positive;
            heard = inr (omega arith);
            alive = inl empty;
          })

  pub execute_task-Inv : (a : A) (p : ThreadPool A) → Inv p → Inv (execute_task a p)
  unfolding execute_task create_worker
  execute_task-Inv a p v =
      let alive = v.alive in
      let none = stops-le p.tasks in
      let queued : ThreadPool A = record p { tasks = p.tasks ++ (work a ∷ []) } in
      if_elim Inv p.shutdown (λ down. v)
        (λ up.
          if_elim (λ (q : ThreadPool A). Inv (notify_one q)) (p.waiters == 0)
            (λ nobody.
              notify_one-Inv p (record queued { ready = p.ready + 1 }) (work a) v refl refl refl
                refl refl refl refl (omega arith) v.small (omega arith) (ground arith))
            (λ somebody.
              let waits = v.waiting in
              notify_one-Inv p queued (work a) v refl refl refl refl refl refl refl (omega arith)
                v.small (omega arith) (ground arith)))

-- ===== src/ThreadPool/Order.antt =====
-- The pool runs what it accepts in order.
use uhp_sql.Common.{
  ℕ, zero, suc, ◌+◌, ◌-◌, ◌^◌, ◌%◌, ◌≡◌, refl, sym, ap, ◌∙◌, inl, inr, Bool-cases, Bool, true,
  false, ◌&&◌, List, [], ◌∷◌, ◌++◌, append-nil, append_assoc, if◌then◌else◌, if_elim, ltb, leb,
  ◌==◌,
}
use uhp_sql.ThreadPool.{
  Task, work, stop, ThreadPool, new, set_max_idle_thread, notify_one, execute_task, create_worker,
  join_all, may_go, take_task, enter, resume, leave, signal, signals, monitor,
}
use uhp_sql.ThreadPool.Runs.{Step, Reach, front_work, works}

module _ {A : Type 0} where
  works-append : (ts us : List (Task A)) → works (ts ++ us) ≡ works ts ++ works us
  works-append [] us = refl
  works-append (work a ∷ ts) us = ap (λ t. a ∷ t) (works-append ts us)
  works-append (stop ∷ ts) us = works-append ts us

  take_task-works :
      (p : ThreadPool A) (tasks : List (Task A))
      → tasks ≡ p.tasks
      → front_work tasks ++ works (take_task p tasks).tasks ≡ works tasks
  take_task-works p [] e = ap works (sym e)
  take_task-works p (work a ∷ tasks) e = refl
  take_task-works p (stop ∷ tasks) e = refl

  notify_one-tasks : (p : ThreadPool A) → (notify_one p).tasks ≡ p.tasks
  unfolding notify_one
  notify_one-tasks p = elim (Bool-cases (p.asleep == 0)) [ inl e ↦ rw e refl | inr e ↦ rw e refl ]

  signal-works : (p : ThreadPool A) → works (signal p).tasks ≡ works p.tasks
  unfolding signal
  signal-works p =
      ap works (notify_one-tasks (record p { tasks = p.tasks ++ (stop ∷ []) }))
      ∙ works-append p.tasks (stop ∷ [])
      ∙ append-nil (works p.tasks)

  signals-works : (nw : ℕ) (p : ThreadPool A) → works (signals nw p).tasks ≡ works p.tasks
  unfolding signals
  signals-works zero p = refl
  signals-works (suc nw) p = elim (Bool-cases (ltb p.max_idle (suc nw))) [
    | inl more ↦ rw more (signals-works nw (signal p) ∙ signal-works p)
    | inr done ↦ rw done refl
  ]

  monitor-works : (p : ThreadPool A) → works (monitor p).tasks ≡ works p.tasks
  unfolding monitor
  monitor-works p =
      if_elim (λ (q : ThreadPool A). works q.tasks ≡ works p.tasks) p.shutdown (λ e. refl)
        (λ e. signals-works ((p.waiters + 2 ^ 32 - p.pending) % 2 ^ 32) p)

  -- A pool that is shut down is left as it is.
  unless_shutdown :
      (b : Bool) (a : A) (p q : ThreadPool A)
      → works q.tasks ≡ works p.tasks ++ (a ∷ [])
      → works (if b then p else q).tasks ≡ works p.tasks ++ (if b then [] else a ∷ [])
  unless_shutdown true a p q e = sym (append-nil (works p.tasks))
  unless_shutdown false a p q e = e

  execute_task-works :
      (a : A) (p : ThreadPool A)
      → works (execute_task a p).tasks ≡ works p.tasks ++ (if p.shutdown then [] else a ∷ [])
  unfolding execute_task create_worker
  execute_task-works a p =
      let queued : ThreadPool A = record p { tasks = p.tasks ++ (work a ∷ []) } in
      unless_shutdown p.shutdown a p _ (
        ap works (
          notify_one-tasks (if p.waiters == 0 then create_worker queued else queued)
          ∙ if_elim (λ (q : ThreadPool A). q.tasks ≡ queued.tasks) (p.waiters == 0) (λ e. refl)
              (λ e. refl))
        ∙ works-append p.tasks (work a ∷ []))

  -- A worker at `wait`, with what it takes.
  wait-works :
      (p left asleep : ThreadPool A) (b : Bool)
      → left.tasks ≡ p.tasks
      → asleep.tasks ≡ p.tasks
      → (if b then front_work p.tasks else [])
          ++ works (if b then take_task left p.tasks else asleep).tasks
        ≡ works p.tasks
  wait-works p left asleep true e e' = take_task-works left p.tasks (sym e)
  wait-works p left asleep false e e' = ap works e'

  pub Step-works :
      {Allowed : ThreadPool A → Type 0} {p q : ThreadPool A} {more less : List A}
      → Step Allowed p more less q
      → less ++ works q.tasks ≡ works p.tasks ++ more
  unfolding set_max_idle_thread join_all enter resume leave
  Step-works {p} (Step.execute a) = execute_task-works a p
  Step-works {p} (Step.set_max m) =
      if_elim (λ (q : ThreadPool A). works q.tasks ≡ works p.tasks ++ []) (ltb 0 m && leb m 256)
        (λ e. sym (append-nil (works p.tasks))) (λ e. sym (append-nil (works p.tasks)))
  Step-works {p} Step.join =
      if_elim (λ (q : ThreadPool A). works q.tasks ≡ works p.tasks ++ []) p.shutdown
        (λ e. sym (append-nil (works p.tasks))) (λ e. sym (append-nil (works p.tasks)))
  Step-works {p} (Step.enters h) =
      wait-works p _ _ (may_go p) refl refl ∙ sym (append-nil (works p.tasks))
  Step-works {p} (Step.resumes h) =
      wait-works p _ _ (may_go p) refl refl ∙ sym (append-nil (works p.tasks))
  Step-works {p} (Step.wakes h) = sym (append-nil (works p.tasks))
  Step-works {p} (Step.finishes xs a ys h) = sym (append-nil (works p.tasks))
  Step-works {p} (Step.leaves h) = sym (append-nil (works p.tasks))
  Step-works {p} (Step.monitors h) = monitor-works p ∙ sym (append-nil (works p.tasks))

  -- In every pool that a new one comes to, whatever the callers, the workers and the monitor do and
  -- in whichever order, the tasks that `ExecuteTask` accepted are those that workers took, with those
  -- in the queue behind them, in the order in which they were accepted. So each is taken at most
  -- once, and none before one that was accepted earlier.
  pub Reach-works :
      {Allowed : ThreadPool A → Type 0} {accepted taken : List A} {p : ThreadPool A}
      → Reach Allowed accepted taken p
      → accepted ≡ taken ++ works p.tasks
  unfolding new
  Reach-works (Reach.start cores) = refl
  Reach-works (Reach.later {accepted} {taken} {more} {less} {p} {q} r st) =
      ap (λ t. t ++ more) (Reach-works r)
      ∙ append_assoc taken (works p.tasks) more
      ∙ ap (λ t. taken ++ t) (sym (Step-works st))
      ∙ sym (append_assoc taken less (works q.tasks))

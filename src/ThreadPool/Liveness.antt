-- ===== src/ThreadPool/Liveness.antt =====
-- Whatever is in the queue can be taken.
use uhp_sql.Common.{
  ◌+◌, ◌-◌, ◌<◌, ◌≡◌, refl, sym, ap, ◌∙◌, ◌⊎◌, Bool, true, false, not, ◌||◌, inl, inr, List, [],
  ◌∷◌, ◌++◌, append-nil, append_assoc, arith, if◌then◌else◌, if_elim, length,
}
use mathlib.Core.Path.{subst}
use uhp_sql.ThreadPool.{Task, work, stop, ThreadPool, is_empty, may_go, take_task, enter, resume}
use uhp_sql.ThreadPool.Runs.{Step, Reach, front_work, works}
use uhp_sql.ThreadPool.Order.{Step-works, Reach-works}
use uhp_sql.ThreadPool.Workers.{Inv}
use uhp_sql.ThreadPool.Progress.{InTime, Step-Inv, Reach-Inv}

module _ {A : Type 0} where
  -- Steps of the workers alone: one that is ready or was woken by a `notify` locks the mutex, or a
  -- task ends. Nothing is accepted, nobody notifies, and no `wait` wakes up for no reason.
  pub data Working (p : ThreadPool A) : List A → ThreadPool A → Type 0 where
    enters : 0 < p.ready → Working p (if may_go p then front_work p.tasks else []) (enter p)
    resumes : 0 < p.woken → Working p (if may_go p then front_work p.tasks else []) (resume p)
    finishes :
        (xs : List A) (a : A) (ys : List A)
        → p.running ≡ xs ++ a ∷ ys
        → Working p [] (record p { running = xs ++ ys; ready = p.ready + 1 })

  pub data Onward (p : ThreadPool A) : List A → ThreadPool A → Type 0 where
    here : Onward p [] p
    onward :
        {taken less : List A} {q r : ThreadPool A}
        → Onward p taken q
        → Working q less r
        → Onward p (taken ++ less) r

  Working-Step : {p q : ThreadPool A} {less : List A} → Working p less q → Step (λ _. ⊥) p [] less q
  Working-Step (Working.enters h) = Step.enters h
  Working-Step (Working.resumes h) = Step.resumes h
  Working-Step (Working.finishes xs a ys h) = Step.finishes xs a ys h

  Onward-works :
      {p q : ThreadPool A} {taken : List A}
      → Onward p taken q
      → taken ++ works q.tasks ≡ works p.tasks
  Onward-works here = refl
  Onward-works {p} (onward {taken} {less} {q} {r} o st) =
      append_assoc taken less (works r.tasks)
      ∙ ap (λ t. taken ++ t) (Step-works (Working-Step st) ∙ append-nil (works q.tasks))
      ∙ Onward-works o

  -- A pool where threads have taken the first task.
  record Took (p : ThreadPool A) (tasks : List (Task A)) : Type 0 where
    taken : List A
    after : ThreadPool A
    steps :
        (before : ThreadPool A) (l : List A) → Onward before l p → Onward before (l ++ taken) after
    valid : Inv after
    left : after.tasks ≡ tasks

  busy :
      (b : Bool) (ts : List (Task A)) (t : Task A) (tasks : List (Task A))
      → ts ≡ t ∷ tasks
      → (b || not (is_empty ts)) ≡ true
  busy true ts t tasks e = refl
  busy false ts t tasks e = rw e refl

  take_task-tasks :
      (p : ThreadPool A) (ts : List (Task A)) (t : Task A) (tasks : List (Task A))
      → ts ≡ t ∷ tasks
      → (take_task p ts).tasks ≡ tasks
  take_task-tasks p [] t tasks e = absurd cc
  take_task-tasks p (work a ∷ ts) t tasks e = cc
  take_task-tasks p (stop ∷ ts) t tasks e = cc

  enter-Took :
      (p : ThreadPool A) (t : Task A) (tasks : List (Task A))
      → Inv p
      → p.tasks ≡ t ∷ tasks
      → 0 < p.ready
      → Took p tasks
  unfolding enter
  enter-Took p t tasks v e some_ready = record {
    taken = if may_go p then front_work p.tasks else [];
    after = enter p;
    steps = λ before l o. onward o (Working.enters some_ready);
    valid = Step-Inv v (Step.enters some_ready);
    left =
        if_elim (λ (q : ThreadPool A). q.tasks ≡ tasks) (may_go p)
          (λ go. take_task-tasks (record p { ready = p.ready - 1 }) p.tasks t tasks e)
          (λ wait. let go = busy p.shutdown p.tasks t tasks e in absurd cc);
  }

  resume-Took :
      (p : ThreadPool A) (t : Task A) (tasks : List (Task A))
      → Inv p
      → p.tasks ≡ t ∷ tasks
      → 0 < p.woken
      → Took p tasks
  unfolding resume
  resume-Took p t tasks v e some_woken = record {
    taken = if may_go p then front_work p.tasks else [];
    after = resume p;
    steps = λ before l o. onward o (Working.resumes some_woken);
    valid = Step-Inv v (Step.resumes some_woken);
    left =
        if_elim (λ (q : ThreadPool A). q.tasks ≡ tasks) (may_go p)
          (λ go.
            take_task-tasks (record p { woken = p.woken - 1; waiters = p.waiters - 1 }) p.tasks t
              tasks e)
          (λ wait. let go = busy p.shutdown p.tasks t tasks e in absurd cc);
  }

  -- A thread that is awake: it is about to lock the mutex, or runs a task.
  awake :
      (p : ThreadPool A) (t : Task A) (tasks : List (Task A))
      → Inv p
      → p.tasks ≡ t ∷ tasks
      → (0 < p.ready) ⊎ (0 < p.woken) ⊎ (0 < length p.running)
  awake p t tasks v e =
      let heard = v.heard in let alive = v.alive in let some = ap length e in ground arith

  finish-Took :
      (p : ThreadPool A) (t : Task A) (tasks : List (Task A)) (running : List A)
      → Inv p
      → p.tasks ≡ t ∷ tasks
      → p.running ≡ running
      → 0 < length running
      → Took p tasks
  finish-Took p t tasks [] v e h some = absurd (omega arith)
  finish-Took p t tasks (a ∷ running) v e h some =
      let freed : ThreadPool A = record p { running = running; ready = p.ready + 1 } in
      let took =
        enter-Took freed t tasks (Step-Inv v (Step.finishes [] a running h)) e (omega arith) in
      record {
        taken = took.taken;
        after = took.after;
        steps = λ before l o.
            subst (λ k. Onward before (k ++ took.taken) took.after) (append-nil l)
              (took.steps before (l ++ []) (onward o (Working.finishes [] a running h)));
        valid = took.valid;
        left = took.left;
      }

  take_first :
      (p : ThreadPool A) (t : Task A) (tasks : List (Task A))
      → Inv p
      → p.tasks ≡ t ∷ tasks
      → Took p tasks
  take_first p t tasks v e = elim (awake p t tasks v e) [
    | inl some_ready ↦ enter-Took p t tasks v e some_ready
    | inr (inl some_woken) ↦ resume-Took p t tasks v e some_woken
    | inr (inr some_running) ↦ finish-Took p t tasks p.running v e refl some_running
  ]

  drain :
      (tasks : List (Task A)) (before p : ThreadPool A) (l : List A)
      → Inv p
      → p.tasks ≡ tasks
      → Onward before l p
      → (taken : List A) × (q : ThreadPool A) × Onward before taken q × (q.tasks ≡ [])
  drain [] before p l v e o = (l, p, o, e)
  drain (t ∷ tasks) before p l v e o =
      let took = take_first p t tasks v e in
      drain tasks before took.after (l ++ took.taken) took.valid took.left (took.steps before l o)

  -- No task is stuck: from every pool that a new one comes to, whatever the callers and the workers
  -- did, also after `JoinAll`, as long as the monitor only looked while no more threads were told
  -- to end than waited, the workers can empty the queue by themselves, none of them waking up without
  -- a `notify` that was already made: together with those taken before, they take the tasks that
  -- were accepted, in order.
  pub Reach-drain :
      {accepted taken : List A} {p : ThreadPool A}
      → Reach InTime accepted taken p
      → (rest : List A) × (q : ThreadPool A) × Onward p rest q
        × (q.tasks ≡ [])
        × (accepted ≡ taken ++ rest)
  Reach-drain {accepted} {taken} {p} r =
      let (rest, q, steps, empty) = drain p.tasks p p [] (Reach-Inv r) refl here in
      let all : rest ≡ works p.tasks =
        sym (append-nil rest) ∙ ap (λ t. rest ++ works t) (sym empty) ∙ Onward-works steps in
      (rest, q, steps, empty, Reach-works r ∙ ap (λ t. taken ++ t) (sym all))

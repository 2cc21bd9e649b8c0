-- ===== src/Tests/Threads.antt =====
-- The thread pool: a run of a caller, a worker and the monitor, and one where the monitor comes too
-- late.
use uhp_sql.Common.{ℕ, ◌-◌, ◌^◌, ◌≤◌, ◌≡◌, refl, List, [], ◌∷◌, ◌++◌, arith, replicate}
use uhp_sql.ThreadPool.{
  stop, ThreadPool, new, notify_one, create_worker, execute_task, enter, resume, signal, signals,
  monitor,
}
use uhp_sql.ThreadPool.Runs.{Step, Reach, works}
use uhp_sql.ThreadPool.Order.{Reach-works}
use uhp_sql.ThreadPool.Signals.{monitor-Signalled, monitor-Signalled_wrap}
use uhp_sql.ThreadPool.Progress.{InTime}
use uhp_sql.ThreadPool.Liveness.{Onward, Reach-drain}

abbrev none : ThreadPool ℕ
none = new 1

-- Two tasks, each with a new thread, of which one takes the first.
abbrev two_queued : ThreadPool ℕ
two_queued = enter (execute_task 8 (execute_task 7 none))

two_queued-Reach : Reach InTime (7 ∷ 8 ∷ []) (7 ∷ []) two_queued
unfolding new execute_task create_worker notify_one enter
two_queued-Reach =
    Reach.later (Reach.later (Reach.later (Reach.start 1) (Step.execute 7)) (Step.execute 8))
      (Step.enters (omega arith))

Reach-works_example : 7 ∷ 8 ∷ [] ≡ (7 ∷ []) ++ works two_queued.tasks
Reach-works_example = Reach-works two_queued-Reach

Reach-drain_example :
    (rest : List ℕ) × (q : ThreadPool ℕ) × Onward two_queued rest q
    × (q.tasks ≡ [])
    × (7 ∷ 8 ∷ [] ≡ (7 ∷ []) ++ rest)
Reach-drain_example = Reach-drain two_queued-Reach

-- Four threads wait, one of them told to end.
abbrev waiting : ThreadPool ℕ
waiting = record none { waiters = 4; asleep = 4; pending = 1 }

monitor-Signalled_example :
    ((monitor (record none { waiters = 4; asleep = 4; pending = 1 })).tasks ≡ stop ∷ stop ∷ [])
    × (4 - (monitor (record none { waiters = 4; asleep = 4; pending = 1 })).pending ≤ 1)
    × ((monitor (record none { waiters = 4; asleep = 4; pending = 1 })).pending ≤ 4)
unfolding new
monitor-Signalled_example = monitor-Signalled waiting refl (omega arith) (omega arith)

abbrev all_told : ThreadPool ℕ
all_told = record none { pending = 2 }

monitor-Signalled_wrap_example : (monitor all_told).tasks ≡ [] ++ replicate (2 ^ 32 - 2 - 1) stop
unfolding new
monitor-Signalled_wrap_example = monitor-Signalled_wrap all_told refl (omega arith) (omega arith)

-- Three threads come to wait; two tasks and the monitor come before they wake up, and each takes
-- what is first in the queue. Then nobody waits while two are told to end.
abbrev three_wait : ThreadPool ℕ
three_wait =
    let working = enter (enter (enter (execute_task 3 (execute_task 2 (execute_task 1 none))))) in
    enter (enter (enter (record working { running = []; ready = 3 })))

abbrev too_late : ThreadPool ℕ
too_late = resume (resume (resume (monitor (execute_task 5 (execute_task 4 three_wait)))))

three_wait-Reach : Reach InTime (1 ∷ 2 ∷ 3 ∷ []) (1 ∷ 2 ∷ 3 ∷ []) three_wait
unfolding new execute_task create_worker notify_one enter
three_wait-Reach =
    let queued =
      Reach.later (Reach.later (Reach.later (Reach.start 1) (Step.execute 1)) (Step.execute 2))
        (Step.execute 3) in
    let working =
      Reach.later
        (Reach.later (Reach.later queued (Step.enters (omega arith))) (Step.enters (omega arith)))
        (Step.enters (omega arith)) in
    let done =
      Reach.later
        (Reach.later (Reach.later working (Step.finishes [] 3 (2 ∷ 1 ∷ []) refl))
          (Step.finishes [] 2 (1 ∷ []) refl))
        (Step.finishes [] 1 [] refl) in
    Reach.later
      (Reach.later (Reach.later done (Step.enters (omega arith))) (Step.enters (omega arith)))
      (Step.enters (omega arith))

too_late-Reach :
    Reach InTime (1 ∷ 2 ∷ 3 ∷ 4 ∷ 5 ∷ []) (1 ∷ 2 ∷ 3 ∷ 4 ∷ 5 ∷ []) too_late
    × (too_late.waiters ≡ 0)
    × (too_late.pending ≡ 2)
unfolding new execute_task create_worker notify_one enter resume monitor signals signal
too_late-Reach =
    let asked =
      Reach.later (Reach.later (Reach.later three_wait-Reach (Step.execute 4)) (Step.execute 5))
        (Step.monitors (omega arith, omega arith)) in
    (
      Reach.later
          (Reach.later (Reach.later asked (Step.resumes (omega arith)))
            (Step.resumes (omega arith)))
          (Step.resumes (omega arith)),
      refl,
      refl,
    )

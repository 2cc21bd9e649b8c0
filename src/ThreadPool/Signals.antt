-- ===== src/ThreadPool/Signals.antt =====
-- How many threads the monitor ends.
use uhp_sql.Common.{
  ℕ, zero, suc, ◌+◌, ◌-◌, ◌^◌, ◌%◌, ◌≤◌, ◌<◌, ◌≡◌, refl, sym, ap, ◌∙◌, true, false, [], ◌∷◌, ◌++◌,
  append-nil, append_assoc, arith, if_elim, ltb, ◌==◌, replicate,
}
use mathlib.Core.Path.{subst}
use uhp_sql.ThreadPool.{stop, ThreadPool, notify_one, signal, signals, monitor}

module _ {A : Type 0} where
  -- What the monitor leaves of the fields other than the threads in `wait`.
  pub record Signalled (n : ℕ) (p q : ThreadPool A) : Type 0 where
    pub tasks : q.tasks ≡ p.tasks ++ replicate n stop
    pub pending : q.pending ≡ (p.pending + n) % 2 ^ 32
    pub max_idle : q.max_idle ≡ p.max_idle

  pub signal-Signalled : (p : ThreadPool A) → Signalled 1 p (signal p)
  unfolding signal notify_one
  signal-Signalled p =
      if_elim
        (λ (q : ThreadPool A). Signalled 1 p (record q { pending = (q.pending + 1) % 2 ^ 32 }))
        (p.asleep == 0) (λ e. record { tasks = refl; pending = refl; max_idle = refl })
        (λ e. record { tasks = refl; pending = refl; max_idle = refl })

  Signalled-more :
      (n : ℕ) (p q r : ThreadPool A) → Signalled 1 p q → Signalled n q r → Signalled (suc n) p r
  Signalled-more n p q r one more = record {
    tasks =
        more.tasks
        ∙ ap (λ t. t ++ replicate n stop) one.tasks
        ∙ append_assoc p.tasks (stop ∷ []) (replicate n stop);
    pending = omega (arith, more.pending, one.pending);
    max_idle = more.max_idle ∙ one.max_idle;
  }

  none_needed : (p : ThreadPool A) (n : ℕ) → p.pending < 2 ^ 32 → n ≡ 0 → Signalled n p p
  none_needed p zero h e = record {
    tasks = sym (append-nil p.tasks);
    pending = omega arith;
    max_idle = refl;
  }
  none_needed p (suc n) h e = absurd (omega arith)

  signals-Signalled :
      (nw : ℕ) (p : ThreadPool A)
      → p.pending < 2 ^ 32
      → Signalled (nw - p.max_idle) p (signals nw p)
  unfolding signals
  signals-Signalled zero p h = none_needed p (0 - p.max_idle) h (omega arith)
  signals-Signalled (suc nw) p h =
      if_elim (Signalled (suc nw - p.max_idle) p) (ltb p.max_idle (suc nw))
        (λ more.
          let one = signal-Signalled p in
          let rest = signals-Signalled nw (signal p) (omega (arith, one.pending)) in
          subst (λ k. Signalled k p (signals nw (signal p)))
            (omega (arith, one.max_idle, above more))
            (Signalled-more (nw - (signal p).max_idle) p (signal p) _ one rest))
        (λ done. none_needed p (suc nw - p.max_idle) h (below done))
    where
      above : ltb p.max_idle (suc nw) ≡ true → p.max_idle < suc nw
      above e = ground arith

      below : ltb p.max_idle (suc nw) ≡ false → suc nw - p.max_idle ≡ 0
      below e = ground arith

  pub monitor_round :
      (p : ThreadPool A) (n : ℕ)
      → p.shutdown ≡ false
      → p.pending < 2 ^ 32
      → (p.waiters + 2 ^ 32 - p.pending) % 2 ^ 32 - p.max_idle ≡ n
      → Signalled n p (monitor p)
  unfolding monitor
  monitor_round p n up small e =
      if_elim (Signalled n p) p.shutdown (λ down. absurd cc)
        (λ _.
          subst (λ k. Signalled k p (signals ((p.waiters + 2 ^ 32 - p.pending) % 2 ^ 32) p)) e
            (signals-Signalled ((p.waiters + 2 ^ 32 - p.pending) % 2 ^ 32) p small))

  -- A round of the monitor on a pool that is not shut down, where no more threads are told to end
  -- than wait: as many tasks that end a thread go to the end of the queue as there are threads in
  -- `wait`, not told to end, beyond the maximum. Behind it at most the maximum of waiting threads
  -- are not told to end, and never more are told to end than wait.
  pub monitor-Signalled :
      (p : ThreadPool A)
      → p.shutdown ≡ false
      → p.pending ≤ p.waiters
      → p.waiters < 2 ^ 32
      → ((monitor p).tasks ≡ p.tasks ++ replicate (p.waiters - p.pending - p.max_idle) stop)
        × (p.waiters - (monitor p).pending ≤ p.max_idle)
        × ((monitor p).pending ≤ p.waiters)
  monitor-Signalled p up le small =
      let r = monitor_round p (p.waiters - p.pending - p.max_idle) up (omega arith) (omega arith) in
      (r.tasks, omega (arith, r.pending), omega (arith, r.pending))

  -- Where more threads are told to end than wait, the difference wraps round, and the monitor queues
  -- almost 2 ^ 32 tasks that end a thread: all but the difference and the maximum.
  pub monitor-Signalled_wrap :
      (p : ThreadPool A)
      → p.shutdown ≡ false
      → p.waiters < p.pending
      → p.pending < 2 ^ 32
      → (monitor p).tasks
        ≡ p.tasks ++ replicate (2 ^ 32 - (p.pending - p.waiters) - p.max_idle) stop
  monitor-Signalled_wrap p up lt small =
      (monitor_round p (2 ^ 32 - (p.pending - p.waiters) - p.max_idle) up small (omega arith)).tasks

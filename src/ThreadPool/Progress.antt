-- ===== src/ThreadPool/Progress.antt =====
-- What holds in every pool that is reached, as long as the monitor does not look while more threads
-- are told to end than wait.
use uhp_sql.Common.{
  ℕ, zero, suc, ◌+◌, ◌-◌, ◌^◌, ◌%◌, ◌≤◌, ◌<◌, ◌≡◌, refl, sym, ap, ◌∙◌, ◌⊎◌, Bool, true, false, ◌&&◌,
  inl, List, [], ◌∷◌, ◌++◌, arith, if◌then◌else◌, if_elim, ltb, leb, ◌==◌, length, length-append,
}
use mathlib.Core.Path.{subst}
use uhp_sql.ThreadPool.{
  stop, ThreadPool, new, set_max_idle_thread, notify_one, join_all, leave, signal, signals, monitor,
}
use uhp_sql.ThreadPool.Runs.{Step, Reach, stops}
use uhp_sql.ThreadPool.Signals.{signal-Signalled}
use uhp_sql.ThreadPool.Workers.{
  threads, Inv, notify_one-Inv, execute_task-Inv, enter-Inv, resume-Inv, stops-append,
}

module _ {A : Type 0} where
  signal_first :
      (b : Bool) (x y : ThreadPool A)
      → record (if b then x else y) { pending = ((if b then x else y).pending + 1) % 2 ^ 32 } ≡ (
          if b
          then record x { pending = (x.pending + 1) % 2 ^ 32 }
          else record y { pending = (y.pending + 1) % 2 ^ 32 })
  signal_first true x y = refl
  signal_first false x y = refl

  signal_eq :
      (p : ThreadPool A)
      → signal p
        ≡ notify_one
            (record p { tasks = p.tasks ++ (stop ∷ []); pending = (p.pending + 1) % 2 ^ 32 })
  unfolding signal notify_one
  signal_eq p = signal_first (p.asleep == 0) _ _

  signal-threads : (p : ThreadPool A) → threads (signal p) ≡ threads p
  unfolding signal notify_one
  signal-threads p =
      if_elim
        (λ (q : ThreadPool A).
          threads (record q { pending = (q.pending + 1) % 2 ^ 32 }) ≡ threads p)
        (p.asleep == 0) (λ e. refl) (λ e. ground arith)

  signal-Inv :
      (p : ThreadPool A)
      → Inv p
      → p.pending + 1 < 2 ^ 32
      → stops p.tasks + 1 < threads p
      → Inv (signal p)
  signal-Inv p v small enough = subst Inv (sym (signal_eq p)) (
      notify_one-Inv p
        (record p { tasks = p.tasks ++ (stop ∷ []); pending = (p.pending + 1) % 2 ^ 32 }) stop v
        refl refl refl refl refl refl refl (omega arith) (omega arith) (omega arith) enough)

  signals-Inv :
      (nw : ℕ) (p : ThreadPool A)
      → Inv p
      → (nw ≤ p.max_idle)
        ⊎ ((p.pending + (nw - p.max_idle) < 2 ^ 32)
            × (stops p.tasks + (nw - p.max_idle) < threads p))
      → Inv (signals nw p)
  unfolding signals
  signals-Inv zero p v h = v
  signals-Inv (suc nw) p v h =
      if_elim Inv (ltb p.max_idle (suc nw))
        (λ more.
          let one = signal-Signalled p in
          let told = ap stops one.tasks ∙ stops-append p.tasks (stop ∷ []) in
          let same = signal-threads p in
          let pending = one.pending in
          let max_idle = one.max_idle in
          signals-Inv nw (signal p) (signal-Inv p v (ground arith) (ground arith)) (ground arith))
        (λ done. v)

  -- The monitor looks while no more threads are told to end than wait, and fewer than 2 ^ 32 wait.
  abbrev pub InTime : ThreadPool A → Type 0
  InTime p = (p.pending ≤ p.waiters) × (p.waiters < 2 ^ 32)

  monitor-Inv : (p : ThreadPool A) → Inv p → InTime p → Inv (monitor p)
  unfolding monitor
  monitor-Inv p v (told, small) =
      let waits = v.waiting in
      let ends = v.told in
      let some_idle = v.positive in
      let idle : (p.waiters + 2 ^ 32 - p.pending) % 2 ^ 32 ≡ p.waiters - p.pending = omega arith in
      if_elim Inv p.shutdown (λ down. v)
        (λ up. signals-Inv ((p.waiters + 2 ^ 32 - p.pending) % 2 ^ 32) p v (ground arith))

  pub Step-Inv :
      {p q : ThreadPool A} {more less : List A} → Inv p → Step InTime p more less q → Inv q
  unfolding set_max_idle_thread join_all leave
  Step-Inv {p} v (Step.execute a) = execute_task-Inv a p v
  Step-Inv {p} v (Step.set_max m) =
      if_elim Inv (ltb 0 m && leb m 256)
        (λ fits. record {
          waiting = v.waiting;
          told = v.told;
          small = v.small;
          positive = ground arith;
          heard = v.heard;
          alive = v.alive;
        })
        (λ e. v)
  Step-Inv {p} v Step.join =
      let alive = v.alive in
      if_elim Inv p.shutdown (λ down. v)
        (λ up. record {
          waiting = omega (arith, v.waiting);
          told = v.told;
          small = v.small;
          positive = v.positive;
          heard = inl refl;
          alive = ground arith;
        })
  Step-Inv {p} v (Step.enters h) = enter-Inv p v h
  Step-Inv {p} v (Step.resumes h) = resume-Inv p v h
  Step-Inv {p} v (Step.wakes h) =
      let heard = v.heard in
      let alive = v.alive in
      record {
        waiting = omega (arith, v.waiting);
        told = v.told;
        small = v.small;
        positive = v.positive;
        heard = ground arith;
        alive = ground arith;
      }
  Step-Inv {p} v (Step.finishes xs a ys h) =
      let alive = v.alive in
      let counts = ap length h ∙ length-append xs (a ∷ ys) in
      let left = length-append xs ys in
      record {
        waiting = v.waiting;
        told = v.told;
        small = v.small;
        positive = v.positive;
        heard = v.heard;
        alive = ground arith;
      }
  Step-Inv {p} v (Step.leaves h) = record {
    waiting = v.waiting;
    told = omega (arith, v.told, v.small);
    small = omega (arith, v.told, v.small);
    positive = v.positive;
    heard = v.heard;
    alive = v.alive;
  }
  Step-Inv {p} v (Step.monitors h) = monitor-Inv p v h

  pub Reach-Inv :
      {accepted taken : List A} {p : ThreadPool A} → Reach InTime accepted taken p → Inv p
  unfolding new
  Reach-Inv (Reach.start cores) = record {
    waiting = refl;
    told = refl;
    small = omega arith;
    positive = ground arith;
    heard = inl refl;
    alive = inl refl;
  }
  Reach-Inv (Reach.later r st) = Step-Inv (Reach-Inv r) st

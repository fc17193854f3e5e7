-- ===== src/ThreadPool/Shutdown.antt =====
-- What `shutdown` leaves when its joins are done.
use mathlib.Core.List.{append-nil}
use edgy.Prelude.{
  ℕ, zero, suc, ◌≡◌, ◌==◌, Bool, true, false, if◌then◌else◌, List, [], ◌∷◌, ◌++◌, length, refl, sym,
  ap, ◌∙◌, arith,
}
use edgy.ThreadPool.{
  Worker, waiting, running, returned, Jobs, ThreadPool, take_job, next, work, submit, request_stop,
  all_returned, thread_pool, waiting_workers,
}
use edgy.ThreadPool.Order.{
  Event, submitted, worked, stopped, submit_or_throw, step, run, started, accepted, started-run,
}
use edgy.ThreadPool.Pending.{busy, run-pending}

module _ {J : Type 0} where
  -- The pool is stopped and no job waits.
  abbrev Drained : Jobs J → Type 0
  Drained s = (s.stop ≡ true) × (s.jobs ≡ [])

  -- A worker has returned only from a pool that is drained.
  Right : Worker J → Jobs J → Type 0
  Right waiting s = Unit
  Right (running job) s = Unit
  Right returned s = Drained s

  AllRight : List (Worker J) → Jobs J → Type 0
  AllRight [] s = Unit
  AllRight (w ∷ ws) s = Right w s × AllRight ws s

  Right-change : (w : Worker J) (s t : Jobs J) → (Drained s → Drained t) → Right w s → Right w t
  unfolding Right
  Right-change waiting s t f r = tt
  Right-change (running job) s t f r = tt
  Right-change returned s t f r = f r

  AllRight-change :
      (ws : List (Worker J)) (s t : Jobs J)
      → (Drained s → Drained t)
      → AllRight ws s
      → AllRight ws t
  unfolding AllRight
  AllRight-change [] s t f r = tt
  AllRight-change (w ∷ ws) s t f (r, rs) = (Right-change w s t f r, AllRight-change ws s t f rs)

  next-Drained : (w : Worker J) (s : Jobs J) → Drained s → Drained (next w s).1
  unfolding next take_job
  next-Drained waiting s (st, j) = rw j (by_stop s.stop st)
    where
      by_stop : (b : Bool) → b ≡ true → Drained (take_job (record s { jobs = []; stop = b })).1
      by_stop true e = (refl, refl)
      by_stop false e = absurd (ground arith)
  next-Drained (running job) s d = d
  next-Drained returned s d = d

  next-Right : (w : Worker J) (s : Jobs J) → Right w s → Right (next w s).0 (next w s).1
  unfolding Right next take_job
  next-Right waiting s r = from_jobs s.jobs s.stop
    where
      from_jobs :
          (jobs : List J) (b : Bool)
          → Right
              (take_job (record s { jobs = jobs; stop = b })).0
              (take_job (record s { jobs = jobs; stop = b })).1
      from_jobs [] true = (refl, refl)
      from_jobs [] false = tt
      from_jobs (job ∷ jobs) b = tt
  next-Right (running job) s r = tt
  next-Right returned s r = r

  work-Drained : (i : ℕ) (ws : List (Worker J)) (s : Jobs J) → Drained s → Drained (work i ws s).1
  unfolding work
  work-Drained i [] s d = d
  work-Drained zero (w ∷ ws) s d = next-Drained w s d
  work-Drained (suc i) (w ∷ ws) s d = work-Drained i ws s d

  work-AllRight :
      (i : ℕ) (ws : List (Worker J)) (s : Jobs J)
      → AllRight ws s
      → AllRight (work i ws s).0 (work i ws s).1
  unfolding work AllRight
  work-AllRight i [] s r = tt
  work-AllRight zero (w ∷ ws) s (r, rs) =
      (next-Right w s r, AllRight-change ws s (next w s).1 (next-Drained w s) rs)
  work-AllRight (suc i) (w ∷ ws) s (r, rs) =
      (Right-change w s (work i ws s).1 (work-Drained i ws s) r, work-AllRight i ws s rs)

  submit-Drained : (job : J) (s : Jobs J) → Drained s → Drained (submit_or_throw job s)
  unfolding submit_or_throw submit
  submit-Drained job s (st, j) = rw st (refl, j)

  step-AllRight :
      (p : ThreadPool J) (e : Event J)
      → AllRight p.workers p.shared
      → AllRight (step p e).workers (step p e).shared
  unfolding step request_stop
  step-AllRight p (submitted job) r =
      AllRight-change p.workers p.shared (submit_or_throw job p.shared)
        (submit-Drained job p.shared) r
  step-AllRight p (worked i) r = work-AllRight i p.workers p.shared r
  step-AllRight p stopped r =
      AllRight-change p.workers p.shared (request_stop p.shared) (λ d. (refl, d.1)) r

  run-AllRight :
      (p : ThreadPool J) (es : List (Event J))
      → AllRight p.workers p.shared
      → AllRight (run p es).workers (run p es).shared
  unfolding run
  run-AllRight p [] r = r
  run-AllRight p (e ∷ es) r = run-AllRight (step p e) es (step-AllRight p e r)

  length-work : (i : ℕ) (ws : List (Worker J)) (s : Jobs J) → length (work i ws s).0 ≡ length ws
  unfolding work
  length-work i [] s = refl
  length-work zero (w ∷ ws) s = refl
  length-work (suc i) (w ∷ ws) s = ap suc (length-work i ws s)

  length-run :
      (p : ThreadPool J) (es : List (Event J)) → length (run p es).workers ≡ length p.workers
  unfolding run step
  length-run p [] = refl
  length-run p (submitted job ∷ es) = length-run (step p (submitted job)) es
  length-run p (worked i ∷ es) =
      length-run (step p (worked i)) es ∙ length-work i p.workers p.shared
  length-run p (stopped ∷ es) = length-run (step p stopped) es

  waiting_workers-AllRight : (n : ℕ) (s : Jobs J) → AllRight (waiting_workers n) s
  unfolding AllRight Right waiting_workers
  waiting_workers-AllRight zero s = tt
  waiting_workers-AllRight (suc n) s = (tt, waiting_workers-AllRight n s)

module _ (J : Type 0) where
  new-AllRight : (n : ℕ) → AllRight {J = J} (thread_pool n).workers (thread_pool n).shared
  unfolding thread_pool
  new-AllRight n = waiting_workers-AllRight (if n == 0 then 1 else n) _

  new-some : (n : ℕ) → length (thread_pool {J = J} n).workers ≡ 0 → ⊥
  unfolding thread_pool waiting_workers
  new-some zero e = omega (arith, e)
  new-some (suc n) e = nonempty (suc n == 0) e
    where
      nonempty : (b : Bool) → length (waiting_workers {J = J} (if b then 1 else suc n)) ≡ 0 → ⊥
      nonempty true h = omega (arith, h)
      nonempty false h = omega (arith, h)

module _ {J : Type 0} where
  all_returned-Drained :
      (ws : List (Worker J)) (s : Jobs J)
      → (length ws ≡ 0 → ⊥)
      → AllRight ws s
      → all_returned ws ≡ true
      → Drained s
  unfolding AllRight Right all_returned
  all_returned-Drained [] s some_worker r h = absurd (some_worker refl)
  all_returned-Drained (waiting ∷ ws) s some_worker r h = absurd (ground arith)
  all_returned-Drained (running job ∷ ws) s some_worker r h = absurd (ground arith)
  all_returned-Drained (returned ∷ ws) s some_worker (r, rs) h = r

  busy-all_returned : (ws : List (Worker J)) → all_returned ws ≡ true → busy ws ≡ 0
  unfolding busy all_returned
  busy-all_returned [] h = refl
  busy-all_returned (waiting ∷ ws) h = absurd (ground arith)
  busy-all_returned (running job ∷ ws) h = absurd (ground arith)
  busy-all_returned (returned ∷ ws) h = busy-all_returned ws h

  -- When every worker of a pool has returned, as the joins of `shutdown` wait for, the pool is
  -- stopped, nothing is pending, and the jobs that have started are all those that were accepted, in
  -- order.
  pub shutdown-started :
      (n : ℕ) (es : List (Event J))
      → all_returned (run (thread_pool n) es).workers ≡ true
      → ((run (thread_pool n) es).shared.stop ≡ true)
        × ((run (thread_pool n) es).shared.pending ≡ 0)
        × (started (thread_pool n) es ≡ accepted (thread_pool n) es)
  unfolding thread_pool
  shutdown-started n es h =
      let d =
        all_returned-Drained (run (thread_pool n) es).workers (run (thread_pool n) es).shared
          (λ e. new-some J n (sym (length-run (thread_pool n) es) ∙ e))
          (run-AllRight (thread_pool n) es (new-AllRight J n)) h in
      (
        d.0,
        omega (
          arith,
          run-pending n es,
          busy-all_returned (run (thread_pool n) es).workers h,
          ap length d.1,
        ),
        sym (append-nil (started (thread_pool n) es))
            ∙ ap (λ q. started (thread_pool n) es ++ q) (sym d.1)
            ∙ started-run (thread_pool n) es,
      )

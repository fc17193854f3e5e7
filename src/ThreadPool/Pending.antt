-- ===== src/ThreadPool/Pending.antt =====
-- What `pending` counts.
use edgy.Prelude.{
  if◌then◌else◌, ◌==◌, refl, ℕ, zero, suc, ◌+◌, ◌%◌, ◌≡◌, Bool, true, false, if_keeps, List, [],
  ◌∷◌, length, length-append, arith,
}
use edgy.ThreadPool.{
  waiting_workers, thread_pool, Worker, waiting, running, returned, Jobs, ThreadPool, word,
  take_job, next, work, submit, request_stop,
}
use edgy.ThreadPool.Order.{Event, submitted, worked, stopped, submit_or_throw, step, run}

module _ {J : Type 0} where
  -- The workers that are in a job.
  unfoldable pub busy : List (Worker J) → ℕ
  busy [] = 0
  busy (waiting ∷ ws) = busy ws
  busy (running job ∷ ws) = suc (busy ws)
  busy (returned ∷ ws) = busy ws

  -- `pending` is right where `others` jobs run beside those of `ws`.
  abbrev Counts : ℕ → List (Worker J) × Jobs J → Type 0
  Counts others r = r.1.pending ≡ (length r.1.jobs + busy r.0 + others) % word

  work-Counts :
      (i : ℕ) (ws : List (Worker J)) (s : Jobs J) (others : ℕ)
      → Counts others (ws, s)
      → Counts others (work i ws s)
  unfolding work next take_job busy
  work-Counts i [] s others h = h
  work-Counts zero (waiting ∷ ws) s others h = from_jobs s.jobs h
    where
      from_jobs :
          (jobs : List J)
          → s.pending ≡ (length jobs + busy ws + others) % word
          → Counts others (work zero (waiting ∷ ws) (record s { jobs = jobs }))
      from_jobs [] g =
          if_keeps (λ (r : Worker J × Jobs J). Counts others (r.0 ∷ ws, r.1)) s.stop (λ _. g)
            (λ _. g)
      from_jobs (job ∷ jobs) g = omega (arith, g)
  work-Counts zero (running job ∷ ws) s others h = omega (arith, h)
  work-Counts zero (returned ∷ ws) s others h = h
  work-Counts (suc i) (waiting ∷ ws) s others h = work-Counts i ws s others h
  work-Counts (suc i) (returned ∷ ws) s others h = work-Counts i ws s others h
  work-Counts (suc i) (running job ∷ ws) s others h =
      let g = work-Counts i ws s (suc others) (omega (arith, h)) in omega (arith, g)

  step-Counts :
      (p : ThreadPool J) (e : Event J)
      → Counts 0 (p.workers, p.shared)
      → Counts 0 ((step p e).workers, (step p e).shared)
  unfolding step submit_or_throw submit request_stop
  step-Counts p (submitted job) h = by_stop p.shared.stop
    where
      by_stop :
          (b : Bool) → Counts 0 (p.workers, submit_or_throw job (record p.shared { stop = b }))
      by_stop true = h
      by_stop false = omega (arith, h, length-append p.shared.jobs (job ∷ []))
  step-Counts p (worked i) h = work-Counts i p.workers p.shared 0 h
  step-Counts p stopped h = h

  run-Counts :
      (p : ThreadPool J) (es : List (Event J))
      → Counts 0 (p.workers, p.shared)
      → Counts 0 ((run p es).workers, (run p es).shared)
  unfolding run
  run-Counts p [] h = h
  run-Counts p (e ∷ es) h = run-Counts (step p e) es (step-Counts p e h)

module _ (J : Type 0) where
  busy-waiting_workers : (n : ℕ) → busy (waiting_workers {J = J} n) ≡ 0
  unfolding busy waiting_workers
  busy-waiting_workers zero = refl
  busy-waiting_workers (suc n) = busy-waiting_workers n

  new-Counts : (n : ℕ) → Counts {J = J} 0 ((thread_pool n).workers, (thread_pool n).shared)
  unfolding thread_pool
  new-Counts n = omega (arith, busy-waiting_workers (if n == 0 then 1 else n))

module _ {J : Type 0} where
  -- Whatever happens to a new pool, `pending` is the number of the jobs that wait and of those that
  -- run, as a machine word.
  pub run-pending :
      (n : ℕ) (es : List (Event J))
      → (run (thread_pool n) es).shared.pending
        ≡ (length (run (thread_pool n) es).shared.jobs + busy (run (thread_pool n) es).workers)
          % word
  run-pending n es = omega (arith, run-Counts (thread_pool n) es (new-Counts J n))

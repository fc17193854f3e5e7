-- ===== src/ThreadPool/Order.antt =====
-- The jobs of the pool start in the order that they are submitted in.
use mathlib.Core.List.{append-nil, append_assoc}
use edgy.Prelude.{
  ℕ, zero, suc, ◌≡◌, Bool, true, false, if◌then◌else◌, if_keeps, List, [], ◌∷◌, ◌++◌, none, some,
  refl, sym, ap, ◌∙◌,
}
use edgy.ThreadPool.{
  Worker, waiting, running, returned, Jobs, ThreadPool, take_job, next, work, submit, request_stop,
}

-- What happens to the pool.
pub data Event (J : Type 0) : Type 0 where
  submitted : J → Event J
  worked : ℕ → Event J
  stopped : Event J

module _ {J : Type 0} where
  -- A submission that throws changes nothing.
  unfoldable pub submit_or_throw : J → Jobs J → Jobs J
  submit_or_throw job s = elim (submit job s) [ none ↦ s | some t ↦ t ]

  unfoldable pub step : ThreadPool J → Event J → ThreadPool J
  step p (submitted job) = record p { shared = submit_or_throw job p.shared }
  step p (worked i) = record {
    workers = (work i p.workers p.shared).0;
    shared = (work i p.workers p.shared).1;
  }
  step p stopped = record p { shared = request_stop p.shared }

  unfoldable pub run : ThreadPool J → List (Event J) → ThreadPool J
  run p [] = p
  run p (e ∷ es) = run (step p e) es

  -- The job that a step of worker `i` starts.
  unfoldable pub first : List J → List J
  first [] = []
  first (job ∷ jobs) = job ∷ []

  unfoldable pub starts : ℕ → List (Worker J) → Jobs J → List J
  starts i [] s = []
  starts zero (waiting ∷ ws) s = first s.jobs
  starts zero (running job ∷ ws) s = []
  starts zero (returned ∷ ws) s = []
  starts (suc i) (w ∷ ws) s = starts i ws s

  -- The jobs that a history starts, and those whose submission it accepts.
  unfoldable pub started : ThreadPool J → List (Event J) → List J
  started p [] = []
  started p (submitted job ∷ es) = started (step p (submitted job)) es
  started p (worked i ∷ es) = starts i p.workers p.shared ++ started (step p (worked i)) es
  started p (stopped ∷ es) = started (step p stopped) es

  unfoldable pub accepted : ThreadPool J → List (Event J) → List J
  accepted p [] = []
  accepted p (submitted job ∷ es) =
      (if p.shared.stop then [] else job ∷ []) ++ accepted (step p (submitted job)) es
  accepted p (worked i ∷ es) = accepted (step p (worked i)) es
  accepted p (stopped ∷ es) = accepted (step p stopped) es

  first-take_job : (s : Jobs J) → first s.jobs ++ (take_job s).1.jobs ≡ s.jobs
  unfolding first take_job
  first-take_job s = from_jobs s.jobs
    where
      from_jobs :
          (jobs : List J) → first jobs ++ (take_job (record s { jobs = jobs })).1.jobs ≡ jobs
      from_jobs [] =
          if_keeps (λ (r : Worker J × Jobs J). r.1.jobs ≡ []) s.stop (λ _. refl) (λ _. refl)
      from_jobs (job ∷ jobs) = refl

  starts-work :
      (i : ℕ) (ws : List (Worker J)) (s : Jobs J) → starts i ws s ++ (work i ws s).1.jobs ≡ s.jobs
  unfolding starts work next
  starts-work i [] s = refl
  starts-work zero (waiting ∷ ws) s = first-take_job s
  starts-work zero (running job ∷ ws) s = refl
  starts-work zero (returned ∷ ws) s = refl
  starts-work (suc i) (w ∷ ws) s = starts-work i ws s

  submit-jobs :
      (job : J) (s : Jobs J)
      → (submit_or_throw job s).jobs ≡ s.jobs ++ (if s.stop then [] else job ∷ [])
  unfolding submit_or_throw submit
  submit-jobs job s = by_stop s.stop
    where
      by_stop :
          (b : Bool)
          → (submit_or_throw job (record s { stop = b })).jobs
            ≡ s.jobs ++ (if b then [] else job ∷ [])
      by_stop true = sym (append-nil s.jobs)
      by_stop false = refl

  -- Whatever the submissions, the workers and a stop do in turn, jobs start in the order that they
  -- are accepted in, each once, and those that have not started wait in the queue.
  pub started-run :
      (p : ThreadPool J) (es : List (Event J))
      → started p es ++ (run p es).shared.jobs ≡ p.shared.jobs ++ accepted p es
  unfolding started run accepted step request_stop
  started-run p [] = sym (append-nil p.shared.jobs)
  started-run p (submitted job ∷ es) =
      started-run (step p (submitted job)) es
      ∙ ap (λ q. q ++ accepted (step p (submitted job)) es) (submit-jobs job p.shared)
      ∙ append_assoc p.shared.jobs (if p.shared.stop then [] else job ∷ [])
          (accepted (step p (submitted job)) es)
  started-run p (worked i ∷ es) =
      append_assoc (starts i p.workers p.shared) (started (step p (worked i)) es)
        (run (step p (worked i)) es).shared.jobs
      ∙ ap (λ q. starts i p.workers p.shared ++ q) (started-run (step p (worked i)) es)
      ∙ sym (
          append_assoc (starts i p.workers p.shared) (work i p.workers p.shared).1.jobs
            (accepted (step p (worked i)) es))
      ∙ ap (λ q. q ++ accepted (step p (worked i)) es) (starts-work i p.workers p.shared)
  started-run p (stopped ∷ es) = started-run (step p stopped) es

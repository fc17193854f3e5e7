-- ===== src/ThreadPool.antt =====
-- `ThreadPool`: each worker holds `mutex_` while it looks for a job, and so does `submit`, so each
-- is one step. A job is an opaque value; running it is what happens between two steps of a worker.
pub mod Order
pub mod Pending
pub mod Shutdown
use edgy.Prelude.{
  ℕ, zero, suc, ◌+◌, ◌-◌, ◌%◌, Bool, true, false, ◌==◌, if◌then◌else◌, List, [], ◌∷◌, ◌++◌, Option,
  none, some,
}

-- The size of `std::size_t`.
abbrev pub word : ℕ
word = 18446744073709551616

-- Where a worker's thread stands: at the wait, in a job, or returned.
pub data Worker (J : Type 0) : Type 0 where
  waiting : Worker J
  running : J → Worker J
  returned : Worker J

-- What the threads share.
pub record Jobs (J : Type 0) : Type 0 where
  pub jobs : List J
  pub stop : Bool
  pub pending : ℕ

pub record ThreadPool (J : Type 0) : Type 0 where
  pub workers : List (Worker J)
  pub shared : Jobs J

module _ {J : Type 0} where
  unfoldable pub waiting_workers : ℕ → List (Worker J)
  waiting_workers zero = []
  waiting_workers (suc n) = waiting ∷ waiting_workers n

  unfoldable pub thread_pool : ℕ → ThreadPool J
  unfolding waiting_workers
  thread_pool n = record {
    workers = waiting_workers (if n == 0 then 1 else n);
    shared = record { jobs = []; stop = false; pending = 0 };
  }

  -- A worker that waits: it goes on waiting, returns, or takes the first job.
  unfoldable pub take_job : Jobs J → Worker J × Jobs J
  take_job s = elim s.jobs [
    | [] ↦ if s.stop then (returned, s) else (waiting, s)
    | job ∷ jobs ↦ (running job, record s { jobs = jobs })
  ]

  -- The next step of a worker.
  unfoldable pub next : Worker J → Jobs J → Worker J × Jobs J
  unfolding take_job
  next waiting s = take_job s
  next (running job) s = (waiting, record s { pending = (s.pending + (word - 1)) % word })
  next returned s = (returned, s)

  -- The next step of worker `i`.
  unfoldable pub work : ℕ → List (Worker J) → Jobs J → List (Worker J) × Jobs J
  unfolding next
  work i [] s = ([], s)
  work zero (w ∷ ws) s = ((next w s).0 ∷ ws, (next w s).1)
  work (suc i) (w ∷ ws) s = let rest = work i ws s in (w ∷ rest.0, rest.1)

  -- `none` is the exception.
  unfoldable pub submit : J → Jobs J → Option (Jobs J)
  submit job s =
      if s.stop
      then none
      else some (record s { jobs = s.jobs ++ job ∷ []; pending = (s.pending + 1) % word })

  -- The locked part of `shutdown`. The joins that follow wait until every worker has returned.
  unfoldable pub request_stop : Jobs J → Jobs J
  request_stop s = record s { stop = true }

  unfoldable pub all_returned : List (Worker J) → Bool
  all_returned [] = true
  all_returned (waiting ∷ ws) = false
  all_returned (running job ∷ ws) = false
  all_returned (returned ∷ ws) = all_returned ws

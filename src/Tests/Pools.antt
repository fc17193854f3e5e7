-- ===== src/Tests/Pools.antt =====
-- A pool with two workers and three jobs, the last after the stop.
use edgy.Prelude.{ℕ, ◌≡◌, ◌++◌, true, List, [], ◌∷◌, refl}
use edgy.ThreadPool.{
  thread_pool, waiting_workers, all_returned, take_job, next, work, submit, request_stop,
}
use edgy.ThreadPool.Order.{
  first, starts, Event, submitted, worked, stopped, submit_or_throw, step, run, started, accepted,
  started-run,
}
use edgy.ThreadPool.Shutdown.{shutdown-started}

abbrev begin : List (Event ℕ)
begin = submitted 7 ∷ worked 1 ∷ submitted 8 ∷ stopped ∷ submitted 9 ∷ []

abbrev whole : List (Event ℕ)
whole = begin ++ worked 0 ∷ worked 1 ∷ worked 1 ∷ worked 0 ∷ worked 0 ∷ []

accepted_test : accepted (thread_pool 2) begin ≡ 7 ∷ 8 ∷ []
unfolding accepted thread_pool waiting_workers step submit_or_throw submit work next take_job
    request_stop
accepted_test = refl

started_test : started (thread_pool 2) begin ≡ 7 ∷ []
unfolding started thread_pool waiting_workers step submit_or_throw submit work next take_job
    request_stop starts first
started_test = refl

started-run_example :
    started (thread_pool 2) begin ++ (run (thread_pool 2) begin).shared.jobs
    ≡ (thread_pool 2).shared.jobs ++ accepted (thread_pool 2) begin
started-run_example = started-run (thread_pool 2) begin

shutdown-started_example :
    ((run (thread_pool 2) whole).shared.stop ≡ true)
    × ((run (thread_pool 2) whole).shared.pending ≡ 0)
    × (started (thread_pool 2) whole ≡ accepted (thread_pool 2) whole)
unfolding run thread_pool waiting_workers step submit_or_throw submit work next take_job
    request_stop all_returned
shutdown-started_example = shutdown-started 2 whole refl

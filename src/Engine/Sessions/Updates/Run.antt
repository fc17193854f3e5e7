-- ===== src/Engine/Sessions/Updates/Run.antt =====
-- At most one update of each session is under way.
use edgy.Engine.Sessions.Updates.Ends.{
  end_job-IsSingle, path_find_command-IsSingle, submit_job-IsSingle, updates_of-cons, allowed_le,
}
use edgy.Engine.Sessions.Updates.Events.{
  Event, called, asked, notified, began, ended, finished, dropped, published, turned, stopped, step,
  begin_job, stop_service, run, new_service,
}
use edgy.Prelude.{ℕ, ◌+◌, ◌≤◌, List, [], ◌∷◌, refl, arith}
use edgy.Containers.Eq.{nat_eq}
use edgy.Containers.HashMap.{find}
use edgy.ThreadPool.{request_stop}
use edgy.Engine.Sessions.{Session, CacheOps, finish_create, drop_connection}
use edgy.Engine.Sessions.Updates.{Job, ripple_path_find, Service}
use edgy.Engine.Sessions.Updates.Marks.{Laws, mark, finish_create-Kept, forget_conn_sessions-Kept}
use edgy.Engine.Sessions.Updates.Flying.{
  IsSingle, allowed, updates_of, updates_of-append, Kept-IsSingle, notify_subscriptions-IsSingle,
}

module _ {S C P Q J N : Type 0} {session : Session S Q J N} (laws : Laws session)
    (ops : CacheOps C) where
  begin_job-IsSingle :
      (s : Service S C P Q J) → IsSingle laws ops s → IsSingle laws ops (begin_job session ops s)
  unfolding begin_job
  begin_job-IsSingle s w = from_jobs s.pool.jobs (λ i. w.single i)
    where
      from_jobs :
          (jobs : List (Job P Q))
          → ((i : ℕ)
              → updates_of i jobs + updates_of i s.running
                ≤ allowed (mark laws (find i s.tables.sessions)))
          → IsSingle laws ops
              (begin_job session ops (record s { pool = record s.pool { jobs = jobs } }))
      from_jobs [] h = record { single = h; fresh = w.fresh }
      from_jobs (job ∷ jobs) h = record {
        single =
            λ i. omega (arith, h i, updates_of-append i s.running job, updates_of-cons i job jobs);
        fresh = w.fresh;
      }

  step-IsSingle :
      (s : Service S C P Q J) (e : Event N C P Q)
      → IsSingle laws ops s
      → IsSingle laws ops (step session ops s e)
  unfolding step stop_service drop_connection request_stop
  step-IsSingle s (called env sub conn push params) w =
      path_find_command-IsSingle laws ops env sub conn push params s w
  step-IsSingle s (asked params) w =
      submit_job-IsSingle laws ops (ripple_path_find params) s (λ id. unfold updates_of in refl) w
  step-IsSingle s (notified revalidate_only now) w =
      notify_subscriptions-IsSingle laws ops revalidate_only now s w
  step-IsSingle s began w = begin_job-IsSingle s w
  step-IsSingle s (ended env n) w = end_job-IsSingle laws ops env n s w
  step-IsSingle s (finished n) w =
      Kept-IsSingle laws ops (finish_create session ops n s.tables).0 s
        (finish_create-Kept laws ops n s.tables) w
  step-IsSingle s (dropped conn) w =
      Kept-IsSingle laws ops _ s (forget_conn_sessions-Kept laws ops conn s.tables) w
  step-IsSingle s (published cache) w = record { single = w.single; fresh = w.fresh }
  step-IsSingle s (turned ready) w = record { single = w.single; fresh = w.fresh }
  step-IsSingle s stopped w = record { single = w.single; fresh = w.fresh }

  run-IsSingle_from :
      (s : Service S C P Q J) (es : List (Event N C P Q))
      → IsSingle laws ops s
      → IsSingle laws ops (run session ops s es)
  unfolding run
  run-IsSingle_from s [] w = w
  run-IsSingle_from s (e ∷ es) w = run-IsSingle_from (step session ops s e) es (step-IsSingle s e w)

  -- Whatever happens to the service, a session has at most one update under way, in the queue of the
  -- pool or on a worker.
  pub run-single :
      (es : List (Event N C P Q)) (id : ℕ)
      → updates_of id (run session ops new_service es).pool.jobs
          + updates_of id (run session ops new_service es).running
        ≤ 1
  run-single es id = omega (
    arith,
    (run-IsSingle_from new_service es start).single id,
    allowed_le (mark laws (find id (run session ops new_service es).tables.sessions)),
  )
    where
      start : IsSingle {P = P} laws ops new_service
      start = unfold updates_of find in record { single = λ i. omega arith; fresh = λ i l. refl }

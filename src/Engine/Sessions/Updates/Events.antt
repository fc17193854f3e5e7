-- ===== src/Engine/Sessions/Updates/Events.antt =====
-- Histories of the commands, the notifications and the jobs of the pool: what the threads of `Engine`
-- and of its pool do, one step at a time.
use edgy.Prelude.{ℕ, zero, suc, Bool, true, false, Option, none, some, List, [], ◌∷◌, ◌++◌}
use edgy.Containers.Eq.{nat_eq}
use edgy.ThreadPool.{request_stop}
use edgy.Engine.Sessions.{Session, CacheOps, Subcommand, finish_create, drop_connection}
use edgy.Engine.Sessions.History.{no_sessions}
use edgy.Engine.Sessions.Updates.{
  Job, ripple_path_find, Service, notify_subscriptions, run_job, submit_job, path_find_command,
}

-- What happens to the service: a command, `notifySubscriptions` at a time, a worker that takes the
-- first job, the end of the `n`-th job that runs, the end of the `n`-th create, the loss of a
-- connection, a first ledger with its cache, a change of `ready_`, and the stop.
pub data Event (N C P Q : Type 0) : Type 0 where
  called : N → Option Subcommand → ℕ → P → Q → Event N C P Q
  asked : Q → Event N C P Q
  notified : Bool → ℕ → Event N C P Q
  began : Event N C P Q
  ended : N → ℕ → Event N C P Q
  finished : ℕ → Event N C P Q
  dropped : ℕ → Event N C P Q
  published : C → Event N C P Q
  turned : Bool → Event N C P Q
  stopped : Event N C P Q

module _ {P Q : Type 0} where
  unfoldable pub take_running : ℕ → List (Job P Q) → Option (Job P Q × List (Job P Q))
  take_running n [] = none
  take_running zero (job ∷ jobs) = some (job, jobs)
  take_running (suc n) (job ∷ jobs) = elim (take_running n jobs) [
    | none ↦ none
    | some (found, rest) ↦ some (found, job ∷ rest)
  ]

module _ {S C P Q J N : Type 0} (session : Session S Q J N) (ops : CacheOps C) where
  unfoldable pub begin_job : Service S C P Q J → Service S C P Q J
  begin_job s = elim s.pool.jobs [
    | [] ↦ s
    | job ∷ jobs ↦ record s {
      pool = record s.pool { jobs = jobs };
      running = s.running ++ job ∷ [];
    }
  ]

  unfoldable pub end_job : N → ℕ → Service S C P Q J → Service S C P Q J
  unfolding take_running run_job
  end_job env n s = elim (take_running n s.running) [
    | none ↦ s
    | some (job, rest) ↦ run_job session ops env job (record s { running = rest })
  ]

  -- `stop` stops the pool, whose workers still run the jobs that wait.
  unfoldable pub stop_service : Service S C P Q J → Service S C P Q J
  stop_service s = record s { stop = true; pool = request_stop s.pool }

  unfoldable pub step : Service S C P Q J → Event N C P Q → Service S C P Q J
  unfolding begin_job end_job stop_service
  step s (called env sub conn push params) =
      (path_find_command session ops env sub conn push params s).0
  step s (asked params) = (submit_job session ops (ripple_path_find params) s).0
  step s (notified revalidate_only now) = notify_subscriptions session ops revalidate_only now s
  step s began = begin_job s
  step s (ended env n) = end_job env n s
  step s (finished n) = record s { tables = (finish_create session ops n s.tables).0 }
  step s (dropped conn) = record s { tables = drop_connection session ops conn s.tables }
  step s (published cache) = record s { tables = record s.tables { cache = some cache } }
  step s (turned ready) = record s { ready = ready }
  step s stopped = stop_service s

  unfoldable pub run : Service S C P Q J → List (Event N C P Q) → Service S C P Q J
  unfolding step
  run s [] = s
  run s (e ∷ es) = run (step s e) es

abbrev pub new_service : {S C P Q J : Type 0} → Service S C P Q J
new_service = record {
  tables = no_sessions;
  pool = record { jobs = []; stop = false; pending = 0 };
  running = [];
  ready = false;
  stop = false;
}

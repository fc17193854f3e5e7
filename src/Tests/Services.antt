-- ===== src/Tests/Services.antt =====
-- Two subscriptions that are notified while their updates wait and run.
use edgy.Prelude.{ℕ, suc, ◌+◌, ◌≤◌, true, some, none, List, [], ◌∷◌}
use edgy.Containers.Eq.{nat_eq}
use edgy.Engine.Sessions.{CacheOps, Subcommand}
use edgy.Engine.Sessions.Updates.{Service, notify_subscriptions}
use edgy.Engine.Sessions.Updates.Deepen.{fulls, notify_subscriptions-fulls}
use edgy.Engine.Sessions.Updates.Flying.{updates_of}
use edgy.Engine.Sessions.Updates.Events.{
  Event, called, notified, began, ended, finished, dropped, published, turned, new_service, run,
}
use edgy.Engine.Sessions.Updates.Run.{run-single}
use edgy.PathSession.{Params, PathSession, Status}
use edgy.PathSession.Serves.{Seen, path_sessions, path_sessions-Laws}
use edgy.Tests.Data.{lib, pay, books}
use edgy.Tests.PathSessions.{rpc, cfg, cache, clock}

-- The cache counts what it is told.
abbrev counter : CacheOps ℕ
counter = record { release_session = λ id n. suc n; forget_session = λ id n. suc n }

abbrev view : Seen ℕ ℕ ℕ ℕ
view = record { books = books; cache = cache; clock = clock; now = 0 }

abbrev params : Params ℕ
params = record {
  source_account = some 1;
  destination_account = some 2;
  destination_amount = some 80;
  send_max = none;
  source_currencies = none;
  id = none;
  domain = none;
}

abbrev events : List (Event (Seen ℕ ℕ ℕ ℕ) ℕ ℕ (Params ℕ))
events =
    published 0
    ∷ turned true
    ∷ called view (some Subcommand.create) 5 50 params
    ∷ called view (some Subcommand.create) 6 60 params
    ∷ began
    ∷ began
    ∷ ended view 0
    ∷ ended view 0
    ∷ finished 1
    ∷ finished 0
    ∷ notified true 60000
    ∷ began
    ∷ notified true 61000
    ∷ ended view 0
    ∷ dropped 5
    ∷ notified true 62000
    ∷ []

abbrev after : Service (PathSession ℕ ℕ ℕ ℕ ℕ) ℕ ℕ (Params ℕ) (Status ℕ ℕ ℕ)
after = run (path_sessions lib pay rpc cfg 0) counter new_service events

run-single_example : updates_of 1 after.pool.jobs + updates_of 1 after.running ≤ 1
run-single_example = run-single (path_sessions-Laws lib pay rpc cfg 0) counter events 1

notify_subscriptions-fulls_example :
    fulls
      (notify_subscriptions (path_sessions lib pay rpc cfg 0) counter true 63000 after).pool.jobs
    ≤ fulls after.pool.jobs + 4
notify_subscriptions-fulls_example =
    notify_subscriptions-fulls (path_sessions lib pay rpc cfg 0) counter 63000 after

-- ===== src/Tests/Sessions.antt =====
-- Path requests of two connections. A session is whether it is closing and whether it is updated; its
-- request says whether it is valid.
use edgy.ThreadPool.Order.{step}
use edgy.Prelude.{ℕ_discrete, ℕ, suc, ◌≡◌, Bool, true, false, not, some, List, [], ◌∷◌, refl}
use edgy.Containers.Eq.{nat_eq}
use edgy.Containers.HashMap.{find}
use edgy.Engine.Sessions.{
  Session, CacheOps, Subcommand, run_path_find, finish_create, drop_connection, range, erase_conn,
}
use edgy.Engine.Sessions.Paired.{IsPaired, without}
use edgy.Engine.Sessions.History.{
  no_sessions, Event, requested, published, finished, run, run-IsPaired,
}
use edgy.Engine.Sessions.Drop.{closed_with, drop_connection_lem, finish_create-after_drop}

abbrev simple : Session (Bool × Bool) Bool ℕ ℕ
simple = record {
  create = λ env id one_shot valid. ((false, false), valid, id);
  do_close = λ o. ((true, o.1), 0);
  do_status = λ o. (o, 1);
  closing = λ o. o.0;
  should_deepen = λ now o. true;
  try_begin_update = λ o. (not o.1, (o.0, true));
  end_update = λ o. (o.0, false);
  do_update = λ env reval o. (o, some env);
}

-- The cache counts what it is told.
abbrev counter : CacheOps ℕ
counter = record { release_session = λ id n. suc n; forget_session = λ id n. suc n }

-- Connection 5 makes two requests and connection 6 one.
abbrev begun : List (Event ℕ ℕ ℕ Bool)
begun =
    published 0
    ∷ requested 0 true (some Subcommand.create) 5 50 true
    ∷ finished 0
    ∷ requested 0 true (some Subcommand.create) 6 60 true
    ∷ finished 0
    ∷ requested 0 true (some Subcommand.create) 5 51 true
    ∷ finished 0
    ∷ []

run-IsPaired_example : IsPaired (run simple counter no_sessions begun)
run-IsPaired_example = run-IsPaired simple counter begun

drop_connection_lem_example :
    (find 3 (drop_connection simple counter 5 (run simple counter no_sessions begun)).subs
      ≡ without 5 (find 3 (run simple counter no_sessions begun).subs))
    × (find 3 (drop_connection simple counter 5 (run simple counter no_sessions begun)).sessions
        ≡ closed_with simple counter 5
            (find 3 (run simple counter no_sessions begun).subs)
            (find 3 (run simple counter no_sessions begun).sessions))
drop_connection_lem_example =
    drop_connection_lem simple counter 5 3 (run simple counter no_sessions begun)
      (run-IsPaired simple counter begun)

finish_create-after_drop_example :
    let waiting =
      (run_path_find simple counter 0 true
        (some Subcommand.create)
        5
        52
        true
        (run simple counter no_sessions begun)).0 in
    let ended = (finish_create simple counter 0 (drop_connection simple counter 5 waiting)).0 in
    (find 4 ended.subs ≡ some (record { push = 52; conn_id = 5 }))
    × (range 5 ended.conn_to_session ≡ 4 ∷ [])
unfolding run step finish_create find range run_path_find erase_conn edgy.Containers.HashMap.assign
    edgy.Prelude.ℕ_discrete
finish_create-after_drop_example =
    finish_create-after_drop simple counter 0 5 52 true (run simple counter no_sessions begun) refl

-- ===== src/Engine/Sessions/History.antt =====
-- Histories of the commands of the connections.
use edgy.Prelude.{ℕ, inl, Bool, Option, none, some, List, [], ◌∷◌, refl, arith, if_keeps}
use edgy.Containers.Eq.{nat_eq}
use edgy.Containers.HashMap.{find, assign}
use edgy.Engine.Sessions.{
  Session, CacheOps, Sub, Tables, Reply, RpcError, Subcommand, range, close_at, close_all,
  close_path_find, status_of, begin_create, finish_create, run_path_find, drop_connection,
}
use edgy.Engine.Sessions.Paired.{IsPaired}
use edgy.Engine.Sessions.Keeps.{forget-IsPaired, begin_create-IsPaired, finish_create-IsPaired}

-- What happens to the tables: a request of a connection, with `ready_` at that time, the end of the
-- `n`-th create that waits, the loss of a connection, and a first ledger with its cache.
pub data Event (N C P Q : Type 0) : Type 0 where
  requested : N → Bool → Option Subcommand → ℕ → P → Q → Event N C P Q
  finished : ℕ → Event N C P Q
  dropped : ℕ → Event N C P Q
  published : C → Event N C P Q

abbrev pub no_sessions : {S C P J : Type 0} → Tables S C P J
no_sessions = record {
  sessions = [];
  subs = [];
  conn_to_session = [];
  next_id = 1;
  cache = none;
  creating = [];
}

module _ {S C P Q J N : Type 0} (session : Session S Q J N) (ops : CacheOps C) where
  unfoldable pub step : Tables S C P J → Event N C P Q → Tables S C P J
  step s (requested env ready sub conn push params) =
      (run_path_find session ops env ready sub conn push params s).0
  step s (finished n) = (finish_create session ops n s).0
  step s (dropped conn) = drop_connection session ops conn s
  step s (published cache) = record s { cache = some cache }

  unfoldable pub run : Tables S C P J → List (Event N C P Q) → Tables S C P J
  unfolding step
  run s [] = s
  run s (e ∷ es) = run (step s e) es

  -- The tables do not depend on what the sessions on the heap hold.
  on_heap-IsPaired :
      (heap : List (ℕ × S)) (s : Tables S C P J)
      → IsPaired s
      → IsPaired (record s { sessions = heap })
  on_heap-IsPaired heap s w = record {
    entered = w.entered;
    subscribed = w.subscribed;
    below = w.below;
    waiting = w.waiting;
    distinct = w.distinct;
  }

  close_all-IsPaired :
      (ids : List ℕ) (last : Reply J) (s : Tables S C P J)
      → IsPaired s
      → IsPaired (close_all session ops ids last s).0
  unfolding close_all
  close_all-IsPaired [] last s w = w
  close_all-IsPaired (id ∷ ids) last s w =
      from_sub (find id s.subs) last (close_all-IsPaired ids last s w) (λ next.
        close_all-IsPaired ids next (record s { sessions = close_at session id s.sessions })
          (on_heap-IsPaired _ s w))
    where
      from_sub :
          (o : Option (Sub P)) (last : Reply J)
          → IsPaired (close_all session ops ids last s).0
          → ((next : Reply J)
              → IsPaired
                  (close_all session ops ids next
                    (record s { sessions = close_at session id s.sessions })).0)
          → IsPaired
              (elim o as (λ _. Tables S C P J × Reply J) [
                | none ↦ close_all session ops ids last s
                | some sub ↦
                    close_all session ops ids
                      (elim (find id s.sessions) [
                        | none ↦ last
                        | some o ↦ Reply.status (session.do_close o).1
                      ])
                      (record s { sessions = close_at session id s.sessions })
              ]).0
      from_sub none last a b = a
      from_sub (some sub) last a b = b _

  status_of-IsPaired :
      (ids : List ℕ) (s : Tables S C P J) → IsPaired s → IsPaired (status_of session ops ids s).0
  unfolding status_of
  status_of-IsPaired [] s w = w
  status_of-IsPaired (id ∷ ids) s w =
      from_sub (find id s.subs) (find id s.sessions) (status_of-IsPaired ids s w)
    where
      from_sub :
          (o : Option (Sub P)) (found : Option S)
          → IsPaired (status_of session ops ids s).0
          → IsPaired
              (elim o as (λ _. Tables S C P J × Reply J) [
                | none ↦ status_of session ops ids s
                | some sub ↦ elim found [
                  | none ↦ (s, Reply.error RpcError.no_pf_request)
                  | some o ↦ (
                    record s { sessions = assign id (session.do_status o).0 s.sessions },
                    Reply.status (session.do_status o).1,
                  )
                ]
              ]).0
      from_sub none found a = a
      from_sub (some sub) none a = w
      from_sub (some sub) (some o) a = on_heap-IsPaired _ s w

  run_path_find-IsPaired :
      (env : N) (ready : Bool) (sub : Option Subcommand) (conn : ℕ) (push : P) (params : Q)
      (s : Tables S C P J)
      → IsPaired s
      → IsPaired (run_path_find session ops env ready sub conn push params s).0
  unfolding run_path_find close_path_find
  run_path_find-IsPaired env ready sub conn push params s w =
      if_keeps (λ (r : Tables S C P J × Option (Reply J)). IsPaired r.0) ready (λ _. of_sub sub)
        (λ _. w)
    where
      of_sub :
          (sub : Option Subcommand)
          → IsPaired
              (elim sub as (λ _. Tables S C P J × Option (Reply J)) [
                | none ↦ (s, some (Reply.error RpcError.invalid_params))
                | some Subcommand.create ↦ (begin_create session ops env conn push params s, none)
                | some Subcommand.close ↦ (
                  (close_path_find session ops conn s).0,
                  some (close_path_find session ops conn s).1,
                )
                | some Subcommand.status ↦
                    let r = status_of session ops (range conn s.conn_to_session) s in
                    (r.0, some r.1)
                | some Subcommand.other ↦ (s, some (Reply.error RpcError.invalid_params))
              ]).0
      of_sub none = w
      of_sub (some Subcommand.create) = begin_create-IsPaired session ops env conn push params s w
      of_sub (some Subcommand.close) =
          forget-IsPaired session ops conn _
            (close_all-IsPaired (range conn s.conn_to_session) _ s w)
      of_sub (some Subcommand.status) = status_of-IsPaired (range conn s.conn_to_session) s w
      of_sub (some Subcommand.other) = w

  step-IsPaired : (s : Tables S C P J) (e : Event N C P Q) → IsPaired s → IsPaired (step s e)
  unfolding step drop_connection
  step-IsPaired s (requested env ready sub conn push params) w =
      run_path_find-IsPaired env ready sub conn push params s w
  step-IsPaired s (finished n) w = finish_create-IsPaired session ops n s w
  step-IsPaired s (dropped conn) w = forget-IsPaired session ops conn s w
  step-IsPaired s (published cache) w = record {
    entered = w.entered;
    subscribed = w.subscribed;
    below = w.below;
    waiting = w.waiting;
    distinct = w.distinct;
  }

  run-IsPaired_from :
      (s : Tables S C P J) (es : List (Event N C P Q)) → IsPaired s → IsPaired (run s es)
  unfolding run
  run-IsPaired_from s [] w = w
  run-IsPaired_from s (e ∷ es) w = run-IsPaired_from (step s e) es (step-IsPaired s e w)

  no_sessions-IsPaired : IsPaired {S = S} {C = C} {P = P} {J = J} no_sessions
  unfolding range find
  no_sessions-IsPaired = record {
    entered = λ c. inl refl;
    subscribed = λ i sub f. absurd (ground arith);
    below = λ i sub f. absurd (ground arith);
    waiting = tt;
    distinct = tt;
  }

  -- Whatever requests, creates that end, lost connections and first ledgers follow one another, a connection has at
  -- most one session: the one that `connToSession_` has for it is in `subs_` under that connection,
  -- and each session of `subs_` is the one that `connToSession_` has for its connection.
  pub run-IsPaired : (es : List (Event N C P Q)) → IsPaired (run no_sessions es)
  run-IsPaired es = run-IsPaired_from no_sessions es no_sessions-IsPaired

-- ===== src/Engine/Sessions/Updates/Ends.antt =====
-- The end of a job, whichever it is, keeps at most one update of each session under way.
use edgy.Engine.Sessions.Updates.Events.{take_running, end_job}
use edgy.Prelude.{
  ℕ_discrete, ℕ, zero, suc, ◌+◌, ◌≡◌, ◌≤◌, Bool, true, false, if◌then◌else◌, if_keeps, Option, none,
  some, List, [], ◌∷◌, refl, sym, ap, ◌∙◌, arith, subst,
}
use edgy.Containers.Eq.{nat_eq}
use edgy.Containers.HashMap.{find}
use edgy.ThreadPool.{submit}
use edgy.Engine.Sessions.{
  Session, CacheOps, Tables, Reply, RpcError, Subcommand, range, begin_create, status_of,
  close_path_find, run_path_find,
}
use edgy.Engine.Sessions.Updates.{
  Update, Job, update, path_find, ripple_path_find, Service, set_session, run_update, run_job,
  submit_job, path_find_command, run_ripple_path_find,
}
use edgy.Engine.Sessions.Updates.Marks.{
  Laws, mark, mark-assign, status_of-Kept, close_path_find-Kept,
}
use edgy.Engine.Sessions.Updates.Flying.{
  IsSingle, allowed, updates_of, updates_of-append, Kept-IsSingle, begin_create-IsSingle,
}

pub allowed_le : (m : Option Bool) → allowed m ≤ 1
allowed_le none = omega arith
allowed_le (some true) = omega arith
allowed_le (some false) = omega arith

module _ {P Q : Type 0} where
  pub updates_of-cons :
      (id : ℕ) (job : Job P Q) (jobs : List (Job P Q))
      → updates_of id (job ∷ jobs) ≡ updates_of id (job ∷ []) + updates_of id jobs
  unfolding updates_of
  updates_of-cons id (update u) jobs = ground arith
  updates_of-cons id (path_find sub conn push params) jobs = omega arith
  updates_of-cons id (ripple_path_find params) jobs = omega arith

  -- A job that is taken out leaves the updates of the others.
  Sums : ℕ → List (Job P Q) → Option (Job P Q × List (Job P Q)) → Type 0
  Sums id jobs none = Unit
  Sums id jobs (some (job, rest)) =
      updates_of id jobs ≡ updates_of id (job ∷ []) + updates_of id rest

  updates_of-take_running :
      (id n : ℕ) (jobs rest : List (Job P Q)) (job : Job P Q)
      → take_running n jobs ≡ some (job, rest)
      → updates_of id jobs ≡ updates_of id (job ∷ []) + updates_of id rest
  unfolding take_running updates_of Sums
  updates_of-take_running id n [] rest job e = absurd (ground arith)
  updates_of-take_running id zero (j ∷ jobs) rest job e =
      subst (Sums id (j ∷ jobs)) e (updates_of-cons id j jobs)
  updates_of-take_running id (suc n) (j ∷ jobs) rest job e =
      from_rest (take_running n jobs) e (λ x xs g. updates_of-take_running id n jobs xs x g)
    where
      from_rest :
          (o : Option (Job P Q × List (Job P Q)))
          → elim o as (λ _. Option (Job P Q × List (Job P Q))) [
            | none ↦ none
            | some (found, left) ↦ some (found, j ∷ left)
          ]
            ≡ some (job, rest)
          → ((x : Job P Q) (xs : List (Job P Q))
              → o ≡ some (x, xs)
              → updates_of id jobs ≡ updates_of id (x ∷ []) + updates_of id xs)
          → updates_of id (j ∷ jobs) ≡ updates_of id (job ∷ []) + updates_of id rest
      from_rest none e k = absurd (ground arith)
      from_rest (some (x, xs)) e k =
          subst (Sums id (j ∷ jobs)) e
            (omega (arith, k x xs refl, updates_of-cons id j jobs, updates_of-cons id j xs))

module _ {S C P Q J N : Type 0} {session : Session S Q J N} (laws : Laws session)
    (ops : CacheOps C) where
  -- The update of a session that has one under way ends.
  run_update-IsSingle :
      (env : N) (u : Update P) (s : Service S C P Q J)
      → IsSingle laws ops (record s { running = update u ∷ s.running })
      → IsSingle laws ops (run_update session ops env u s)
  unfolding run_update set_session updates_of
  run_update-IsSingle env u s w = from_session (find u.id s.tables.sessions) refl
    where
      single :
          (o : S) (i : ℕ) (d : Dec (u.id ≡ i))
          → updates_of i s.pool.jobs + updates_of i s.running
            ≤ allowed (elim d as (λ _. Option Bool) [
              | yes _ ↦ some (laws.updating o)
              | no _ ↦ mark laws (find i s.tables.sessions)
            ])
      single o i (yes q) =
          ground (arith, w.single i, allowed_le (mark laws (find i s.tables.sessions)))
      single o i (no m) = ground (arith, w.single i)

      fresh :
          (x o : S) (i : ℕ)
          → find u.id s.tables.sessions ≡ some x
          → s.tables.next_id ≤ i
          → (d : Dec (u.id ≡ i))
          → elim d as (λ _. Option Bool) [
            | yes _ ↦ some (laws.updating o)
            | no _ ↦ mark laws (find i s.tables.sessions)
          ]
            ≡ none
      fresh x o i f l (yes q) = absurd (
          ground
            (arith, w.fresh i l, ap (mark laws) (ap (λ k. find k s.tables.sessions) (sym q) ∙ f)))
      fresh x o i f l (no m) = w.fresh i l

      placed :
          (x o : S)
          → find u.id s.tables.sessions ≡ some x
          → IsSingle laws ops (set_session session ops u.id o s)
      placed x o f = record {
        single = λ i.
            subst (λ k. updates_of i s.pool.jobs + updates_of i s.running ≤ allowed k)
              (sym (mark-assign laws u.id i o s.tables.sessions)) (single o i (ℕ_discrete u.id i));
        fresh = λ i l.
            mark-assign laws u.id i o s.tables.sessions ∙ fresh x o i f l (ℕ_discrete u.id i);
      }

      from_session :
          (o : Option S)
          → find u.id s.tables.sessions ≡ o
          → IsSingle laws ops (elim o as (λ _. Service S C P Q J) [
            | none ↦ s
            | some x ↦
                let updated =
                  if session.closing x then x else (session.do_update env u.reval x).0 in
                set_session session ops u.id (session.end_update updated) s
          ])
      from_session none f = record { single = λ i. ground (arith, w.single i); fresh = w.fresh }
      from_session (some x) f = placed x _ f

  run_path_find-IsSingle :
      (env : N) (ready : Bool) (sub : Option Subcommand) (conn : ℕ) (push : P) (params : Q)
      (s : Service S C P Q J)
      → IsSingle laws ops s
      → IsSingle laws ops (record s {
        tables = (run_path_find session ops env ready sub conn push params s.tables).0;
      })
  unfolding run_path_find
  run_path_find-IsSingle env ready sub conn push params s w =
      if_keeps
        (λ (r : Tables S C P J × Option (Reply J)). IsSingle laws ops (record s { tables = r.0 }))
        ready (λ _. of_sub sub) (λ _. w)
    where
      of_sub :
          (sub : Option Subcommand)
          → IsSingle laws ops (record s {
            tables =
                (elim sub as (λ _. Tables S C P J × Option (Reply J)) [
                  | none ↦ (s.tables, some (Reply.error RpcError.invalid_params))
                  | some Subcommand.create ↦
                      (begin_create session ops env conn push params s.tables, none)
                  | some Subcommand.close ↦ (
                    (close_path_find session ops conn s.tables).0,
                    some (close_path_find session ops conn s.tables).1,
                  )
                  | some Subcommand.status ↦
                      let r =
                        status_of session ops (range conn s.tables.conn_to_session) s.tables in
                      (r.0, some r.1)
                  | some Subcommand.other ↦ (s.tables, some (Reply.error RpcError.invalid_params))
                ]).0;
          })
      of_sub none = w
      of_sub (some Subcommand.create) = begin_create-IsSingle laws ops env conn push params s w
      of_sub (some Subcommand.close) =
          Kept-IsSingle laws ops (close_path_find session ops conn s.tables).0 s
            (close_path_find-Kept laws ops conn s.tables) w
      of_sub (some Subcommand.status) =
          Kept-IsSingle laws ops
            (status_of session ops (range conn s.tables.conn_to_session) s.tables).0 s
            (status_of-Kept laws ops (range conn s.tables.conn_to_session) s.tables) w
      of_sub (some Subcommand.other) = w

  run_job-IsSingle :
      (env : N) (job : Job P Q) (s : Service S C P Q J)
      → IsSingle laws ops (record s { running = job ∷ s.running })
      → IsSingle laws ops (run_job session ops env job s)
  unfolding run_job run_ripple_path_find updates_of
  run_job-IsSingle env (update u) s w = run_update-IsSingle env u s w
  run_job-IsSingle env (path_find sub conn push params) s w =
      run_path_find-IsSingle env s.ready sub conn push params s
        (record { single = w.single; fresh = w.fresh })
  run_job-IsSingle env (ripple_path_find params) s w =
      if_keeps (λ (r : Service S C P Q J × Option (Reply J)). IsSingle laws ops r.0) s.ready
        (λ _. record { single = w.single; fresh = λ i l. w.fresh i (omega (arith, l)) })
        (λ _. record { single = w.single; fresh = w.fresh })

  -- A job that is no update goes to the pool.
  pub submit_job-IsSingle :
      (job : Job P Q) (s : Service S C P Q J)
      → ((id : ℕ) → updates_of id (job ∷ []) ≡ 0)
      → IsSingle laws ops s
      → IsSingle laws ops (submit_job session ops job s).0
  unfolding submit_job submit
  submit_job-IsSingle job s none_of w = by_stop s.pool.stop
    where
      by_stop :
          (b : Bool)
          → IsSingle laws ops
              (submit_job session ops job (record s { pool = record s.pool { stop = b } })).0
      by_stop true = record { single = w.single; fresh = w.fresh }
      by_stop false = record {
        single = λ i. omega (arith, w.single i, updates_of-append i s.pool.jobs job, none_of i);
        fresh = w.fresh;
      }

  pub path_find_command-IsSingle :
      (env : N) (sub : Option Subcommand) (conn : ℕ) (push : P) (params : Q) (s : Service S C P Q J)
      → IsSingle laws ops s
      → IsSingle laws ops (path_find_command session ops env sub conn push params s).0
  unfolding path_find_command
  path_find_command-IsSingle env sub conn push params s w =
      of_sub sub (run_path_find-IsSingle env s.ready sub conn push params s w)
        (submit_job-IsSingle (path_find sub conn push params) s (λ id. none_of id) w)
    where
      none_of : (id : ℕ) → updates_of id (path_find sub conn push params ∷ []) ≡ 0
      none_of id = unfold updates_of in refl

      of_sub :
          (o : Option Subcommand)
          → IsSingle laws ops (record s {
            tables = (run_path_find session ops env s.ready sub conn push params s.tables).0;
          })
          → IsSingle laws ops (submit_job session ops (path_find sub conn push params) s).0
          → IsSingle laws ops
              (elim o as (λ _. Service S C P Q J × Option (Reply J)) [
                | some Subcommand.close ↦ (
                  record s {
                    tables =
                        (run_path_find session ops env s.ready sub conn push params s.tables).0;
                  },
                  (run_path_find session ops env s.ready sub conn push params s.tables).1,
                )
                | some Subcommand.status ↦ (
                  record s {
                    tables =
                        (run_path_find session ops env s.ready sub conn push params s.tables).0;
                  },
                  (run_path_find session ops env s.ready sub conn push params s.tables).1,
                )
                | _ ↦ submit_job session ops (path_find sub conn push params) s
              ]).0
      of_sub none a b = b
      of_sub (some Subcommand.create) a b = b
      of_sub (some Subcommand.close) a b = a
      of_sub (some Subcommand.status) a b = a
      of_sub (some Subcommand.other) a b = b

  pub end_job-IsSingle :
      (env : N) (n : ℕ) (s : Service S C P Q J)
      → IsSingle laws ops s
      → IsSingle laws ops (end_job session ops env n s)
  unfolding end_job
  end_job-IsSingle env n s w = from_taken (take_running n s.running) refl
    where
      from_taken :
          (o : Option (Job P Q × List (Job P Q)))
          → take_running n s.running ≡ o
          → IsSingle laws ops (elim o as (λ _. Service S C P Q J) [
            | none ↦ s
            | some (job, rest) ↦ run_job session ops env job (record s { running = rest })
          ])
      from_taken none e = w
      from_taken (some (job, rest)) e =
          run_job-IsSingle env job (record s { running = rest })
            (record {
              single = λ i. omega (
                arith,
                w.single i,
                updates_of-take_running i n s.running rest job e,
                updates_of-cons i job rest,
              );
              fresh = w.fresh;
            })

-- ===== src/Engine/Sessions/Updates.antt =====
-- The jobs that the path requests of `Engine` give to its pool: the requests themselves and the
-- updates of `notifySubscriptions`. A job runs in one step, when its worker is done with it.
pub mod Deepen
pub mod Marks
pub mod Flying
pub mod Events
pub mod Ends
pub mod Run
use edgy.Prelude.{
  ℕ, suc, ◌-◌, ltb, Bool, true, false, not, ◌&&◌, if◌then◌else◌, Option, none, some, List, [], ◌∷◌,
}
use edgy.Containers.Eq.{nat_eq}
use edgy.Containers.HashMap.{find, assign}
use edgy.ThreadPool.{Jobs, submit}
use edgy.Engine.Sessions.{
  Session, CacheOps, Sub, Tables, Reply, RpcError, Subcommand, run_path_find,
}

-- The job of an update: the id of the session that it shares, and what it captures.
pub record Update (P : Type 0) : Type 0 where
  pub id : ℕ
  pub push : P
  pub reval : Bool

pub data Job (P Q : Type 0) : Type 0 where
  update : Update P → Job P Q
  path_find : Option Subcommand → ℕ → P → Q → Job P Q
  ripple_path_find : Q → Job P Q

pub record Service (S C P Q J : Type 0) : Type 0 where
  pub tables : Tables S C P J
  pub pool : Jobs (Job P Q)
  pub running : List (Job P Q)
  pub ready : Bool
  pub stop : Bool

-- int deepenLeft
abbrev pub deepen_limit : ℕ
deepen_limit = 4

module _ {S Q J N : Type 0} (session : Session S Q J N) where
  -- Whether an update that is to revalidate searches in full.
  unfoldable pub deepens : Bool → ℕ → ℕ → S → Bool
  deepens revalidate_only now left o = revalidate_only && session.should_deepen now o && ltb 0 left

module _ {S C P Q J N : Type 0} (session : Session S Q J N) (ops : CacheOps C) where
  unfoldable pub set_session : ℕ → S → Service S C P Q J → Service S C P Q J
  set_session id o s = record s {
    tables = record s.tables { sessions = assign id o s.tables.sessions };
  }

  -- The subscriptions whose sessions are not closing.
  unfoldable pub live : List (ℕ × Sub P) → List (ℕ × S) → List (ℕ × Sub P)
  live [] sessions = []
  live ((id, sub) ∷ subs) sessions =
      let rest = live subs sessions in
      elim (find id sessions) [
        | none ↦ rest
        | some o ↦ if session.closing o then rest else (id, sub) ∷ rest
      ]

  -- The job is submitted, or the session is released where the pool throws.
  unfoldable pub send : Update P → S → Service S C P Q J → Service S C P Q J
  unfolding set_session
  send u begun s = elim (submit (Job.update u) s.pool) [
    | none ↦ set_session u.id (session.end_update begun) s
    | some pool ↦ record (set_session u.id begun s) { pool = pool }
  ]

  -- One subscription of the loop, whose session is `o`: how many may still deepen, and the state.
  unfoldable pub notify_session :
      Bool → ℕ → ℕ × Sub P → ℕ → S → Service S C P Q J → ℕ × Service S C P Q J
  notify_session revalidate_only now (id, sub) left o s =
      let (begun, o') = session.try_begin_update o in
      let deepen = deepens session revalidate_only now left o' in
      let u : Update P = record {
        id = id;
        push = sub.push;
        reval = revalidate_only && not deepen;
      } in
      if begun then (if deepen then left - 1 else left, send u o' s) else (left, s)

  unfoldable pub notify_one : Bool → ℕ → ℕ × Sub P → ℕ → Service S C P Q J → ℕ × Service S C P Q J
  unfolding notify_session deepens send
  notify_one revalidate_only now sub left s = elim (find sub.0 s.tables.sessions) [
    | none ↦ (left, s)
    | some o ↦ notify_session revalidate_only now sub left o s
  ]

  unfoldable pub notify_all :
      Bool → ℕ → List (ℕ × Sub P) → ℕ → Service S C P Q J → Service S C P Q J
  unfolding notify_one
  notify_all revalidate_only now [] left s = s
  notify_all revalidate_only now (sub ∷ subs) left s =
      let next = notify_one revalidate_only now sub left s in
      notify_all revalidate_only now subs next.0 next.1

  unfoldable pub notify_subscriptions : Bool → ℕ → Service S C P Q J → Service S C P Q J
  unfolding notify_all live
  notify_subscriptions revalidate_only now s =
      let notified =
        notify_all revalidate_only now (live s.tables.subs s.tables.sessions) deepen_limit s in
      if s.stop then s else elim s.tables.cache [ none ↦ s | some c ↦ notified ]

  -- The body of an update's job.
  unfoldable pub run_update : N → Update P → Service S C P Q J → Service S C P Q J
  unfolding set_session
  run_update env u s = elim (find u.id s.tables.sessions) [
    | none ↦ s
    | some o ↦
        let updated = if session.closing o then o else (session.do_update env u.reval o).0 in
        set_session u.id (session.end_update updated) s
  ]

  -- runRipplePathFind: its session is in no table. `none` is an exception.
  unfoldable pub run_ripple_path_find :
      N → Q → Service S C P Q J → Service S C P Q J × Option (Reply J)
  run_ripple_path_find env params s =
      let made = session.create env s.tables.next_id true params in
      let next = record s { tables = record s.tables { next_id = suc s.tables.next_id } } in
      if s.ready
      then (
        next,
        if made.1
            then elim (session.do_update env false made.0).1 [
              | none ↦ none
              | some reply ↦ some (Reply.status reply)
            ]
            else some (Reply.status made.2),
      )
      else (s, some (Reply.error RpcError.not_synced))

  unfoldable pub run_job : N → Job P Q → Service S C P Q J → Service S C P Q J
  unfolding run_update run_ripple_path_find
  run_job env (Job.update u) s = run_update env u s
  run_job env (Job.path_find sub conn push params) s = record s {
    tables = (run_path_find session ops env s.ready sub conn push params s.tables).0;
  }
  run_job env (Job.ripple_path_find params) s = (run_ripple_path_find env params s).0

  -- A job goes to the pool; where the pool is stopped, the reply is an internal error.
  unfoldable pub submit_job : Job P Q → Service S C P Q J → Service S C P Q J × Option (Reply J)
  submit_job job s = elim (submit job s.pool) [
    | none ↦ (s, some (Reply.error RpcError.internal))
    | some pool ↦ (record s { pool = pool }, none)
  ]

  -- pathFind: `close` and `status` are run by the caller.
  unfoldable pub path_find_command :
      N → Option Subcommand → ℕ → P → Q → Service S C P Q J → Service S C P Q J × Option (Reply J)
  unfolding submit_job
  path_find_command env sub conn push params s =
      let now = run_path_find session ops env s.ready sub conn push params s.tables in
      let later = submit_job (Job.path_find sub conn push params) s in
      elim sub [
        | some Subcommand.close ↦ (record s { tables = now.0 }, now.1)
        | some Subcommand.status ↦ (record s { tables = now.0 }, now.1)
        | _ ↦ later
      ]

-- ===== src/Engine/Sessions/Updates/Deepen.antt =====
-- How many full searches one close or tick starts.
use edgy.Prelude.{
  ℕ, suc, ◌+◌, ◌-◌, ◌≤◌, ◌≡◌, ltb, Bool, true, false, not, ◌&&◌, if◌then◌else◌, if_keeps, Option,
  none, some, List, [], ◌∷◌, ◌++◌, refl, arith,
}
use edgy.Containers.Eq.{nat_eq}
use edgy.Containers.HashMap.{find}
use edgy.ThreadPool.{submit}
use edgy.Engine.Sessions.{Session, CacheOps, Sub}
use edgy.Engine.Sessions.Updates.{
  notify_session, Update, Job, update, path_find, ripple_path_find, Service, deepen_limit,
  set_session, live, deepens, send, notify_one, notify_all, notify_subscriptions,
}

module _ {P Q : Type 0} where
  -- The updates of a queue that search in full.
  unfoldable pub fulls : List (Job P Q) → ℕ
  fulls [] = 0
  fulls (update u ∷ jobs) = if u.reval then fulls jobs else suc (fulls jobs)
  fulls (path_find sub conn push params ∷ jobs) = fulls jobs
  fulls (ripple_path_find params ∷ jobs) = fulls jobs

  fulls-append :
      (jobs : List (Job P Q)) (u : Update P)
      → fulls (jobs ++ update u ∷ []) ≡ (if u.reval then fulls jobs else suc (fulls jobs))
  unfolding fulls
  fulls-append [] u = refl
  fulls-append (update v ∷ jobs) u = ground (arith, fulls-append jobs u)
  fulls-append (path_find sub conn push params ∷ jobs) u = fulls-append jobs u
  fulls-append (ripple_path_find params ∷ jobs) u = fulls-append jobs u

module _ {S C P Q J N : Type 0} (session : Session S Q J N) (ops : CacheOps C) where
  fulls-send :
      (u : Update P) (o : S) (s : Service S C P Q J)
      → fulls (send session ops u o s).pool.jobs
        ≤ (if u.reval then fulls s.pool.jobs else suc (fulls s.pool.jobs))
  unfolding send submit set_session
  fulls-send u o s = by_stop s.pool.stop
    where
      by_stop :
          (b : Bool)
          → fulls (send session ops u o (record s { pool = record s.pool { stop = b } })).pool.jobs
            ≤ (if u.reval then fulls s.pool.jobs else suc (fulls s.pool.jobs))
      by_stop true = ground arith
      by_stop false = ground (arith, fulls-append s.pool.jobs u)

  fulls-notify_session :
      (now left : ℕ) (sub : ℕ × Sub P) (o : S) (s : Service S C P Q J)
      → fulls (notify_session session ops true now sub left o s).1.pool.jobs
          + (notify_session session ops true now sub left o s).0
        ≤ fulls s.pool.jobs + left
  unfolding notify_session deepens
  fulls-notify_session now left (id, sub) o s =
      if_keeps Less (session.try_begin_update o).0
        (λ _.
          sent (session.should_deepen now (session.try_begin_update o).1 && ltb 0 left)
            (session.try_begin_update o).1 (λ e. ground arith))
        (λ _. omega arith)
    where
      Less : ℕ × Service S C P Q J → Type 0
      Less r = fulls r.1.pool.jobs + r.0 ≤ fulls s.pool.jobs + left

      sent :
          (b : Bool) (o : S)
          → (b ≡ true → ltb 0 left ≡ true)
          → Less (
            if b then left - 1 else left,
            send session ops (record { id = id; push = sub.push; reval = not b }) o s,
          )
      sent true o h =
          ground
            (arith, h refl, fulls-send (record { id = id; push = sub.push; reval = false }) o s)
      sent false o h =
          omega (arith, fulls-send (record { id = id; push = sub.push; reval = true }) o s)

  fulls-notify_one :
      (now left : ℕ) (sub : ℕ × Sub P) (s : Service S C P Q J)
      → fulls (notify_one session ops true now sub left s).1.pool.jobs
          + (notify_one session ops true now sub left s).0
        ≤ fulls s.pool.jobs + left
  unfolding notify_one
  fulls-notify_one now left sub s = from_session (find sub.0 s.tables.sessions)
    where
      Less : ℕ × Service S C P Q J → Type 0
      Less r = fulls r.1.pool.jobs + r.0 ≤ fulls s.pool.jobs + left

      from_session :
          (o : Option S)
          → Less (elim o as (λ _. ℕ × Service S C P Q J) [
            | none ↦ (left, s)
            | some x ↦ notify_session session ops true now sub left x s
          ])
      from_session none = omega arith
      from_session (some o) = fulls-notify_session now left sub o s

  fulls-notify_all :
      (now left : ℕ) (subs : List (ℕ × Sub P)) (s : Service S C P Q J)
      → fulls (notify_all session ops true now subs left s).pool.jobs ≤ fulls s.pool.jobs + left
  unfolding notify_all
  fulls-notify_all now left [] s = omega arith
  fulls-notify_all now left (sub ∷ subs) s = omega (
    arith,
    fulls-notify_one now left sub s,
    fulls-notify_all now (notify_one session ops true now sub left s).0 subs
        (notify_one session ops true now sub left s).1,
  )

  -- A close or a tick, which only revalidates, starts at most four full searches, however many
  -- sessions there are and however many of them are due.
  pub notify_subscriptions-fulls :
      (now : ℕ) (s : Service S C P Q J)
      → fulls (notify_subscriptions session ops true now s).pool.jobs ≤ fulls s.pool.jobs + 4
  unfolding notify_subscriptions
  notify_subscriptions-fulls now s =
      if_keeps Less s.stop (λ _. omega arith) (λ _. of_cache s.tables.cache)
    where
      Less : Service S C P Q J → Type 0
      Less t = fulls t.pool.jobs ≤ fulls s.pool.jobs + 4

      of_cache :
          (c : Option C)
          → Less (elim c as (λ _. Service S C P Q J) [
            | none ↦ s
            | some x ↦
                notify_all session ops true now
                  (live session ops s.tables.subs s.tables.sessions)
                  deepen_limit
                  s
          ])
      of_cache none = omega arith
      of_cache (some c) =
          fulls-notify_all now deepen_limit (live session ops s.tables.subs s.tables.sessions) s

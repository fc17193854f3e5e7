-- ===== src/Engine/Sessions/Updates/Flying.antt =====
-- A session is never updated twice at once.
use edgy.Prelude.{
  ℕ_discrete, subst, ℕ, suc, ◌+◌, ◌==◌, ◌≡◌, ◌≤◌, Bool, true, false, not, if◌then◌else◌, if_keeps,
  Option, none, some, List, [], ◌∷◌, ◌++◌, refl, sym, ap, ◌∙◌, arith,
}
use edgy.Containers.Eq.{nat_eq}
use edgy.Containers.HashMap.{find, assign}
use edgy.ThreadPool.{submit}
use edgy.Engine.Sessions.{Session, CacheOps, Sub, Tables, begin_create}
use edgy.Engine.Sessions.Updates.{
  Update, Job, update, path_find, ripple_path_find, Service, set_session, live, send,
  notify_session, notify_one, notify_all, notify_subscriptions, deepen_limit,
}
use edgy.Engine.Sessions.Updates.Marks.{mark-assign, Laws, mark, Kept, assign-SameMarks}

module _ {P Q : Type 0} where
  -- The updates of the session `id` among these jobs.
  unfoldable pub updates_of : ℕ → List (Job P Q) → ℕ
  updates_of id [] = 0
  updates_of id (update u ∷ jobs) =
      if u.id == id then suc (updates_of id jobs) else updates_of id jobs
  updates_of id (path_find sub conn push params ∷ jobs) = updates_of id jobs
  updates_of id (ripple_path_find params ∷ jobs) = updates_of id jobs

  pub updates_of-append :
      (id : ℕ) (jobs : List (Job P Q)) (job : Job P Q)
      → updates_of id (jobs ++ job ∷ []) ≡ updates_of id jobs + updates_of id (job ∷ [])
  unfolding updates_of
  updates_of-append id [] job = omega arith
  updates_of-append id (update u ∷ jobs) job = ground (arith, updates_of-append id jobs job)
  updates_of-append id (path_find sub conn push params ∷ jobs) job = updates_of-append id jobs job
  updates_of-append id (ripple_path_find params ∷ jobs) job = updates_of-append id jobs job

-- The most updates that a session may have under way.
abbrev pub allowed : Option Bool → ℕ
allowed none = 0
allowed (some true) = 1
allowed (some false) = 0

module _ {S C P Q J N : Type 0} {session : Session S Q J N} (laws : Laws session)
    (ops : CacheOps C) where
  pub record IsSingle (s : Service S C P Q J) : Type 0 where
    pub single :
        (id : ℕ)
        → updates_of id s.pool.jobs + updates_of id s.running
          ≤ allowed (mark laws (find id s.tables.sessions))
    pub fresh : (id : ℕ) → s.tables.next_id ≤ id → mark laws (find id s.tables.sessions) ≡ none

  -- The tables may change, as long as they keep the marks.
  pub Kept-IsSingle :
      (t : Tables S C P J) (s : Service S C P Q J)
      → Kept laws ops s.tables t
      → IsSingle s
      → IsSingle (record s { tables = t })
  Kept-IsSingle t s (m, e) w = record {
    single = λ id.
        subst (λ o. updates_of id s.pool.jobs + updates_of id s.running ≤ allowed o) (sym (m id))
          (w.single id);
    fresh = λ id l. m id ∙ w.fresh id (omega (arith, l, e));
  }

  -- A session that is made is not being updated, and its id is new.
  pub begin_create-IsSingle :
      (env : N) (conn : ℕ) (push : P) (params : Q) (s : Service S C P Q J)
      → IsSingle s
      → IsSingle (record s { tables = begin_create session ops env conn push params s.tables })
  unfolding begin_create
  begin_create-IsSingle env conn push params s w = record {
    single = λ i.
        subst (λ o. updates_of i s.pool.jobs + updates_of i s.running ≤ allowed o)
          (sym (mark-assign laws s.tables.next_id i made s.tables.sessions))
          (one i (ℕ_discrete s.tables.next_id i));
    fresh = λ i l.
        mark-assign laws s.tables.next_id i made s.tables.sessions
        ∙ absent i l (ℕ_discrete s.tables.next_id i);
  }
    where
      made : S
      made = (session.create env s.tables.next_id false params).0

      one :
          (i : ℕ) (d : Dec (s.tables.next_id ≡ i))
          → updates_of i s.pool.jobs + updates_of i s.running
            ≤ allowed (elim d as (λ _. Option Bool) [
              | yes _ ↦ some (laws.updating made)
              | no _ ↦ mark laws (find i s.tables.sessions)
            ])
      one i (yes q) = omega (arith, w.single i, ap allowed (w.fresh i (omega (arith, q))))
      one i (no m) = w.single i

      absent :
          (i : ℕ)
          → suc s.tables.next_id ≤ i
          → (d : Dec (s.tables.next_id ≡ i))
          → elim d as (λ _. Option Bool) [
            | yes _ ↦ some (laws.updating made)
            | no _ ↦ mark laws (find i s.tables.sessions)
          ]
            ≡ none
      absent i l (yes q) = absurd (omega (arith, l, q))
      absent i l (no m) = w.fresh i (omega (arith, l))

  -- An update is sent for a session that had none.
  send-IsSingle :
      (u : Update P) (o o' : S) (s : Service S C P Q J)
      → IsSingle s
      → find u.id s.tables.sessions ≡ some o
      → laws.updating o ≡ false
      → laws.updating o' ≡ true
      → IsSingle (send session ops u o' s)
  unfolding send submit set_session updates_of
  send-IsSingle u o o' s w f idle busy = by_stop s.pool.stop
    where
      at_most : (b : Bool) → (if b then suc 0 else 0) ≤ 1
      at_most b = ground arith

      one :
          (i : ℕ) (d : Dec (u.id ≡ i))
          → updates_of i s.pool.jobs + updates_of {Q = Q} i (update u ∷ []) + updates_of i s.running
            ≤ allowed (elim d as (λ _. Option Bool) [
              | yes _ ↦ some (laws.updating o')
              | no _ ↦ mark laws (find i s.tables.sessions)
            ])
      one i (yes q) = omega (
        arith,
        w.single i,
        ap allowed (ap (mark laws) (ap (λ k. find k s.tables.sessions) (sym q) ∙ f) ∙ ap some idle),
        ap allowed (ap some busy),
        at_most (u.id == i),
      )
      one i (no m) = ground (arith, w.single i)

      cleared : IsSingle (set_session session ops u.id (session.end_update o') s)
      cleared =
          Kept-IsSingle
            (record s.tables { sessions = assign u.id (session.end_update o') s.tables.sessions }) s
            (
              assign-SameMarks laws u.id o (session.end_update o') s.tables.sessions f
                  (laws.end_clears o' ∙ sym idle),
              refl,
            )
            w

      by_stop :
          (b : Bool)
          → IsSingle (send session ops u o' (record s { pool = record s.pool { stop = b } }))
      by_stop true = record { single = cleared.single; fresh = cleared.fresh }
      by_stop false = record {
        single = λ i.
            subst
              (λ o.
                updates_of i (s.pool.jobs ++ update u ∷ []) + updates_of i s.running ≤ allowed o)
              (sym (mark-assign laws u.id i o' s.tables.sessions))
              (subst
                (λ n.
                  n + updates_of i s.running
                  ≤ allowed (elim (ℕ_discrete u.id i) as (λ _. Option Bool) [
                    | yes _ ↦ some (laws.updating o')
                    | no _ ↦ mark laws (find i s.tables.sessions)
                  ]))
                (sym (updates_of-append i s.pool.jobs (update u))) (one i (ℕ_discrete u.id i)));
        fresh = λ i l. mark-assign laws u.id i o' s.tables.sessions ∙ other i l (ℕ_discrete u.id i);
      }
        where
          other :
              (i : ℕ)
              → s.tables.next_id ≤ i
              → (d : Dec (u.id ≡ i))
              → elim d as (λ _. Option Bool) [
                | yes _ ↦ some (laws.updating o')
                | no _ ↦ mark laws (find i s.tables.sessions)
              ]
                ≡ none
          other i l (yes q) = absurd (
              ground (
                arith,
                w.fresh i l,
                ap (mark laws) (ap (λ k. find k s.tables.sessions) (sym q) ∙ f),
              ))
          other i l (no m) = w.fresh i l

  notify_session-IsSingle :
      (revalidate_only : Bool) (now : ℕ) (sub : ℕ × Sub P) (left : ℕ) (o : S)
      (s : Service S C P Q J)
      → IsSingle s
      → find sub.0 s.tables.sessions ≡ some o
      → IsSingle (notify_session session ops revalidate_only now sub left o s).1
  unfolding notify_session
  notify_session-IsSingle revalidate_only now (id, sub) left o s w f =
      if_keeps (λ (r : ℕ × Service S C P Q J). IsSingle r.1) (session.try_begin_update o).0
        (λ b.
          send-IsSingle _ o (session.try_begin_update o).1 s w f
            (was_idle (laws.updating o) (sym (laws.begin_new o) ∙ b)) (laws.begin_sets o))
        (λ _. w)
    where
      was_idle : (b : Bool) → not b ≡ true → b ≡ false
      was_idle true e = sym e
      was_idle false e = refl

  notify_one-IsSingle :
      (revalidate_only : Bool) (now : ℕ) (sub : ℕ × Sub P) (left : ℕ) (s : Service S C P Q J)
      → IsSingle s
      → IsSingle (notify_one session ops revalidate_only now sub left s).1
  unfolding notify_one
  notify_one-IsSingle revalidate_only now sub left s w =
      from_session (find sub.0 s.tables.sessions) refl
    where
      from_session :
          (o : Option S)
          → find sub.0 s.tables.sessions ≡ o
          → IsSingle
              (elim o as (λ _. ℕ × Service S C P Q J) [
                | none ↦ (left, s)
                | some x ↦ notify_session session ops revalidate_only now sub left x s
              ]).1
      from_session none f = w
      from_session (some o) f = notify_session-IsSingle revalidate_only now sub left o s w f

  notify_all-IsSingle :
      (revalidate_only : Bool) (now : ℕ) (subs : List (ℕ × Sub P)) (left : ℕ)
      (s : Service S C P Q J)
      → IsSingle s
      → IsSingle (notify_all session ops revalidate_only now subs left s)
  unfolding notify_all
  notify_all-IsSingle revalidate_only now [] left s w = w
  notify_all-IsSingle revalidate_only now (sub ∷ subs) left s w =
      notify_all-IsSingle revalidate_only now subs
        (notify_one session ops revalidate_only now sub left s).0
        (notify_one session ops revalidate_only now sub left s).1
        (notify_one-IsSingle revalidate_only now sub left s w)

  pub notify_subscriptions-IsSingle :
      (revalidate_only : Bool) (now : ℕ) (s : Service S C P Q J)
      → IsSingle s
      → IsSingle (notify_subscriptions session ops revalidate_only now s)
  unfolding notify_subscriptions
  notify_subscriptions-IsSingle revalidate_only now s w =
      if_keeps IsSingle s.stop (λ _. w) (λ _. of_cache s.tables.cache)
    where
      of_cache :
          (c : Option C)
          → IsSingle (elim c as (λ _. Service S C P Q J) [
            | none ↦ s
            | some x ↦
                notify_all session ops revalidate_only now
                  (live session ops s.tables.subs s.tables.sessions)
                  deepen_limit
                  s
          ])
      of_cache none = w
      of_cache (some c) =
          notify_all-IsSingle revalidate_only now (live session ops s.tables.subs s.tables.sessions)
            deepen_limit s w

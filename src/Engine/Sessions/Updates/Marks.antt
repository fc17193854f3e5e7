-- ===== src/Engine/Sessions/Updates/Marks.antt =====
-- Which sessions are being updated, and that no command on the tables changes it.
use edgy.Prelude.{
  ℕ_discrete, ℕ, ◌≡◌, Bool, true, false, not, if_keeps, Option, none, some, List, [], ◌∷◌, refl,
  sym, ap, ◌∙◌,
}
use edgy.Containers.Eq.{if_eq, nat_eq}
use edgy.Containers.HashMap.{remove, find, assign, find-assign}
use edgy.Engine.Sessions.{
  Session, CacheOps, Sub, Creating, Tables, Reply, RpcError, range, close_at, close_all, release,
  forget_session, forget_sessions, forget_conn_sessions, register, take_nth, finish_create,
  status_of, close_path_find,
}

-- What the engine relies on: the flag that `tryBeginUpdate` sets if it is clear, and that no method
-- but `endUpdate` clears.
pub record Laws {S Q J N : Type 0} (session : Session S Q J N) : Type 0 where
  pub updating : S → Bool
  pub create_idle :
      (env : N) (id : ℕ) (one_shot : Bool) (q : Q)
      → updating (session.create env id one_shot q).0 ≡ false
  pub close_keeps : (o : S) → updating (session.do_close o).0 ≡ updating o
  pub status_keeps : (o : S) → updating (session.do_status o).0 ≡ updating o
  pub update_keeps :
      (env : N) (reval : Bool) (o : S) → updating (session.do_update env reval o).0 ≡ updating o
  pub begin_new : (o : S) → (session.try_begin_update o).0 ≡ not (updating o)
  pub begin_sets : (o : S) → updating (session.try_begin_update o).1 ≡ true
  pub end_clears : (o : S) → updating (session.end_update o) ≡ false

module _ {S Q J N : Type 0} {session : Session S Q J N} (laws : Laws session) where
  -- Whether there is a session, and whether it is being updated.
  abbrev pub mark : Option S → Option Bool
  mark none = none
  mark (some o) = some (laws.updating o)

  abbrev pub SameMarks : List (ℕ × S) → List (ℕ × S) → Type 0
  SameMarks m n = (i : ℕ) → mark (find i n) ≡ mark (find i m)

  pub mark-assign :
      (id i : ℕ) (o : S) (m : List (ℕ × S))
      → mark (find i (assign id o m)) ≡ if_eq id i (some (laws.updating o)) (mark (find i m))
  mark-assign id i o m = ap mark (find-assign id i o m) ∙ by_key (ℕ_discrete id i)
    where
      by_key :
          (d : Dec (id ≡ i))
          → mark (elim d as (λ _. Option S) [ yes _ ↦ some o | no _ ↦ find i m ])
            ≡ elim d as (λ _. Option Bool) [
              | yes _ ↦ some (laws.updating o)
              | no _ ↦ mark (find i m)
            ]
      by_key (yes p) = refl
      by_key (no n) = refl

  pub assign-SameMarks :
      (id : ℕ) (o o' : S) (m : List (ℕ × S))
      → find id m ≡ some o
      → laws.updating o' ≡ laws.updating o
      → SameMarks m (assign id o' m)
  assign-SameMarks id o o' m f e i = ap mark (find-assign id i o' m) ∙ by_key (ℕ_discrete id i)
    where
      by_key :
          (d : Dec (id ≡ i))
          → mark (elim d as (λ _. Option S) [ yes _ ↦ some o' | no _ ↦ find i m ]) ≡ mark (find i m)
      by_key (yes p) = ap some e ∙ sym (ap mark (ap (λ k. find k m) (sym p) ∙ f))
      by_key (no n) = refl

  close_at-SameMarks : (id : ℕ) (m : List (ℕ × S)) → SameMarks m (close_at session id m)
  unfolding close_at
  close_at-SameMarks id m = from_found (find id m) refl
    where
      from_found :
          (o : Option S)
          → find id m ≡ o
          → SameMarks m (elim o as (λ _. List (ℕ × S)) [
            | none ↦ m
            | some x ↦ assign id (session.do_close x).0 m
          ])
      from_found none f = λ i. refl
      from_found (some x) f = assign-SameMarks id x (session.do_close x).0 m f (laws.close_keeps x)

module _ {S C P Q J N : Type 0} {session : Session S Q J N} (laws : Laws session)
    (ops : CacheOps C) where
  -- The second tables have the ids and the marks of the first.
  abbrev pub Kept : Tables S C P J → Tables S C P J → Type 0
  Kept s t = SameMarks laws s.sessions t.sessions × (t.next_id ≡ s.next_id)

  Kept-trans : (s t u : Tables S C P J) → Kept s t → Kept t u → Kept s u
  Kept-trans s t u (m, e) (n, f) = ((λ i. n i ∙ m i), f ∙ e)

  forget_session-Kept : (id : ℕ) (s : Tables S C P J) → Kept s (forget_session session ops id s)
  unfolding forget_session
  forget_session-Kept id s = from_sub (find id s.subs)
    where
      from_sub :
          (o : Option (Sub P))
          → Kept s (elim o as (λ _. Tables S C P J) [
            | none ↦ s
            | some sub ↦ record s {
              sessions = close_at session id s.sessions;
              cache = release ops id s.cache;
              subs = remove id s.subs;
            }
          ])
      from_sub none = ((λ i. refl), refl)
      from_sub (some sub) = (close_at-SameMarks laws id s.sessions, refl)

  forget_sessions-Kept :
      (ids : List ℕ) (s : Tables S C P J) → Kept s (forget_sessions session ops ids s)
  unfolding forget_sessions
  forget_sessions-Kept [] s = ((λ i. refl), refl)
  forget_sessions-Kept (id ∷ ids) s =
      Kept-trans s (forget_session session ops id s)
        (forget_sessions session ops ids (forget_session session ops id s))
        (forget_session-Kept id s) (forget_sessions-Kept ids (forget_session session ops id s))

  pub forget_conn_sessions-Kept :
      (c : ℕ) (s : Tables S C P J) → Kept s (forget_conn_sessions session ops c s)
  unfolding forget_conn_sessions
  forget_conn_sessions-Kept c s = forget_sessions-Kept (range c s.conn_to_session) s

  close_all-Kept :
      (ids : List ℕ) (last : Reply J) (s : Tables S C P J)
      → Kept s (close_all session ops ids last s).0
  unfolding close_all
  close_all-Kept [] last s = ((λ i. refl), refl)
  close_all-Kept (id ∷ ids) last s =
      from_sub (find id s.subs)
        (elim (find id s.sessions) [ none ↦ last | some o ↦ Reply.status (session.do_close o).1 ])
        (close_all-Kept ids last s)
        (λ next. close_all-Kept ids next (record s { sessions = close_at session id s.sessions }))
    where
      from_sub :
          (o : Option (Sub P)) (next : Reply J)
          → Kept s (close_all session ops ids last s).0
          → ((r : Reply J)
              → Kept
                  (record s { sessions = close_at session id s.sessions })
                  (close_all session ops ids r
                    (record s { sessions = close_at session id s.sessions })).0)
          → Kept s
              (elim o as (λ _. Tables S C P J × Reply J) [
                | none ↦ close_all session ops ids last s
                | some sub ↦
                    close_all session ops ids next
                      (record s { sessions = close_at session id s.sessions })
              ]).0
      from_sub none next a b = a
      from_sub (some sub) next a b =
          ((λ i. (b next).0 i ∙ close_at-SameMarks laws id s.sessions i), (b next).1)

  pub close_path_find-Kept :
      (c : ℕ) (s : Tables S C P J) → Kept s (close_path_find session ops c s).0
  unfolding close_path_find
  close_path_find-Kept c s =
      let last : Reply J = Reply.error RpcError.no_pf_request in
      let closed = close_all session ops (range c s.conn_to_session) last s in
      Kept-trans s closed.0 (forget_conn_sessions session ops c closed.0)
        (close_all-Kept (range c s.conn_to_session) last s) (forget_conn_sessions-Kept c closed.0)

  pub status_of-Kept : (ids : List ℕ) (s : Tables S C P J) → Kept s (status_of session ops ids s).0
  unfolding status_of
  status_of-Kept [] s = ((λ i. refl), refl)
  status_of-Kept (id ∷ ids) s =
      from_sub (find id s.subs) (find id s.sessions) refl (status_of-Kept ids s)
    where
      from_sub :
          (o : Option (Sub P)) (found : Option S)
          → find id s.sessions ≡ found
          → Kept s (status_of session ops ids s).0
          → Kept s
              (elim o as (λ _. Tables S C P J × Reply J) [
                | none ↦ status_of session ops ids s
                | some sub ↦ elim found [
                  | none ↦ (s, Reply.error RpcError.no_pf_request)
                  | some o ↦ (
                    record s { sessions = assign id (session.do_status o).0 s.sessions },
                    Reply.status (session.do_status o).1,
                  )
                ]
              ]).0
      from_sub none found f a = a
      from_sub (some sub) none f a = ((λ i. refl), refl)
      from_sub (some sub) (some o) f a = (
        assign-SameMarks laws id o (session.do_status o).0 s.sessions f (laws.status_keeps o),
        refl,
      )

  register-Kept : (c : Creating P J) (s : Tables S C P J) → Kept s (register session ops c s)
  unfolding register
  register-Kept c s =
      if_keeps (Kept s) c.valid (λ _. forget_conn_sessions-Kept c.conn_id s)
        (λ _. ((λ i. refl), refl))

  pub finish_create-Kept : (n : ℕ) (s : Tables S C P J) → Kept s (finish_create session ops n s).0
  unfolding finish_create
  finish_create-Kept n s = from_taken (take_nth n s.creating)
    where
      from_taken :
          (o : Option (Creating P J × List (Creating P J)))
          → Kept s
              (elim o as (λ _. Tables S C P J × Option J) [
                | none ↦ (s, none)
                | some (c, rest) ↦
                    (register session ops c (record s { creating = rest }), some c.status)
              ]).0
      from_taken none = ((λ i. refl), refl)
      from_taken (some (c, rest)) = register-Kept c (record s { creating = rest })

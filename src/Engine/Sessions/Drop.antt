-- ===== src/Engine/Sessions/Drop.antt =====
-- What the loss of a connection leaves, and what a create that ends after it does.
use edgy.Prelude.{
  false, subst, ℕ_discrete, ℕ, ◌==◌, ◌≡◌, inl, inr, true, if◌then◌else◌, Option, none, some, List,
  [], ◌∷◌, ◌++◌, length, refl, sym, ap, ◌∙◌, arith,
}
use edgy.Containers.Eq.{nat_eq, if_eq}
use edgy.Containers.HashMap.{find-assign_self, find, assign, find-assign}
use edgy.Engine.Sessions.{
  Session, CacheOps, Sub, Creating, Tables, range, close_at, forget_session, forget_sessions,
  forget_conn_sessions, drop_connection, finish_create, take_nth, register, run_path_find,
  begin_create, Subcommand,
}
use edgy.Engine.Sessions.Paired.{
  IsPaired, without, find-forget, forget-creating, forget-conn_to_session, range-append,
  range-erase_conn,
}

module _ {S Q J N : Type 0} (session : Session S Q J N) where
  -- `doClose` on a session, where there is one.
  abbrev pub closed : Option S → Option S
  closed none = none
  closed (some o) = some (session.do_close o).0

  find-close_at :
      (id j : ℕ) (m : List (ℕ × S))
      → find j (close_at session id m) ≡ if_eq id j (closed (find j m)) (find j m)
  unfolding close_at
  find-close_at id j m = from_found (find id m) refl
    where
      from_found :
          (o : Option S)
          → find id m ≡ o
          → find j (elim o as (λ _. List (ℕ × S)) [
            | none ↦ m
            | some x ↦ assign id (session.do_close x).0 m
          ])
            ≡ if_eq id j (closed (find j m)) (find j m)
      from_found none e = by_key (ℕ_discrete id j)
        where
          by_key :
              (d : Dec (id ≡ j))
              → find j m ≡ elim d as (λ _. Option S) [ yes _ ↦ closed (find j m) | no _ ↦ find j m ]
          by_key (yes p) =
              let g : find j m ≡ none = ap (λ k. find k m) (sym p) ∙ e in g ∙ sym (ap closed g)
          by_key (no n) = refl
      from_found (some x) e = find-assign id j _ m ∙ by_key (ℕ_discrete id j)
        where
          by_key :
              (d : Dec (id ≡ j))
              → elim d as (λ _. Option S) [ yes _ ↦ some (session.do_close x).0 | no _ ↦ find j m ]
                ≡ elim d as (λ _. Option S) [ yes _ ↦ closed (find j m) | no _ ↦ find j m ]
          by_key (yes p) = sym (ap closed (ap (λ k. find k m) (sym p) ∙ e))
          by_key (no n) = refl

module _ {S C P Q J N : Type 0} (session : Session S Q J N) (ops : CacheOps C) where
  -- What a session of the heap is after `c` is forgotten, by its entry in `subs_`.
  abbrev pub closed_with : ℕ → Option (Sub P) → Option S → Option S
  closed_with c none o = o
  closed_with c (some sub) o = if sub.conn_id == c then closed session o else o

  forget_session-sessions :
      (id j : ℕ) (sub : Sub P) (s : Tables S C P J)
      → find id s.subs ≡ some sub
      → find j (forget_session session ops id s).sessions
        ≡ if_eq id j (closed session (find j s.sessions)) (find j s.sessions)
  unfolding forget_session
  forget_session-sessions id j sub s e =
      rw (e, forget_session) (find-close_at session id j s.sessions)

  -- When a connection is lost, `subs_` keeps the sessions of the others and no more, and on the heap
  -- the sessions of the connection are closed, while the others are as before.
  pub drop_connection_lem :
      (c j : ℕ) (s : Tables S C P J)
      → IsPaired s
      → (find j (drop_connection session ops c s).subs ≡ without c (find j s.subs))
        × (find j (drop_connection session ops c s).sessions
            ≡ closed_with c (find j s.subs) (find j s.sessions))
  unfolding drop_connection forget_conn_sessions forget_sessions
  drop_connection_lem c j s w = (
    find-forget session ops c j s w,
    elim (w.entered c) [
      | inl e ↦ rw e (kept (find j s.subs) refl e)
      | inr (i, sub, r, f, q) ↦ rw r (
          forget_session-sessions i j sub s f
          ∙ changed i sub r f q (ℕ_discrete i j) (find j s.subs) refl)
    ],
  )
    where
      kept :
          (o : Option (Sub P))
          → find j s.subs ≡ o
          → range c s.conn_to_session ≡ []
          → find j s.sessions ≡ closed_with c o (find j s.sessions)
      kept none f e = refl
      kept (some sub) f e = elim (ℕ_discrete sub.conn_id c) [
        | yes q ↦ absurd (ground (arith, w.subscribed j sub f))
        | no n ↦ ground arith
      ]

      changed :
          (i : ℕ) (sub : Sub P)
          → range c s.conn_to_session ≡ i ∷ []
          → find i s.subs ≡ some sub
          → sub.conn_id ≡ c
          → (d : Dec (i ≡ j)) → (o : Option (Sub P)) → find j s.subs ≡ o
          → elim d as (λ _. Option S) [
            | yes _ ↦ closed session (find j s.sessions)
            | no _ ↦ find j s.sessions
          ]
            ≡ closed_with c o (find j s.sessions)
      changed i sub r f q (yes p) none g = absurd (ground (arith, ap (λ k. find k s.subs) p))
      changed i sub r f q (yes p) (some sub') g =
          ground (arith, w.subscribed j sub' g, ap (λ k. find k s.subs) p)
      changed i sub r f q (no n) none g = refl
      changed i sub r f q (no n) (some sub') g = elim (ℕ_discrete sub'.conn_id c) [
        | yes e ↦ absurd (ground (arith, w.subscribed j sub' g))
        | no m ↦ ground arith
      ]

  register-subs :
      (c : Creating P J) (s : Tables S C P J)
      → c.valid ≡ true
      → find c.id (register session ops c s).subs
        ≡ some (record { push = c.push; conn_id = c.conn_id })
  unfolding register
  register-subs c s v = rw v (find-assign_self c.id _ _)

  take_nth-last :
      (cs : List (Creating P J)) (c : Creating P J)
      → take_nth (length cs) (cs ++ c ∷ []) ≡ some (c, cs)
  unfolding take_nth
  take_nth-last [] c = refl
  take_nth-last (x ∷ cs) c = rw (take_nth-last cs c) refl

  register-range :
      (c : Creating P J) (s : Tables S C P J)
      → c.valid ≡ true
      → range c.conn_id (register session ops c s).conn_to_session ≡ c.id ∷ []
  unfolding register
  register-range c s v =
      rw
        (
          v,
          range-append c.conn_id c.conn_id c.id
              (forget_conn_sessions session ops c.conn_id s).conn_to_session,
          forget-conn_to_session session ops c.conn_id s,
          range-erase_conn c.conn_id c.conn_id s.conn_to_session,
        )
        (ground arith)

  -- A request begins while the engine is ready, its connection is lost, and then its search ends: if
  -- the request was valid, its session is subscribed all the same, as the one session of the connection
  -- that is gone.
  pub finish_create-after_drop :
      (env : N) (conn : ℕ) (push : P) (params : Q) (s : Tables S C P J)
      → (session.create env s.next_id false params).1 ≡ true
      → let begun =
          (run_path_find session ops env true (some Subcommand.create) conn push params s).0 in
        let dropped = drop_connection session ops conn begun in
        let ended = (finish_create session ops (length s.creating) dropped).0 in
        (find s.next_id ended.subs ≡ some (record { push = push; conn_id = conn }))
        × (range conn ended.conn_to_session ≡ s.next_id ∷ [])
  unfolding finish_create run_path_find begin_create drop_connection
  finish_create-after_drop env conn push params s v =
      let begun = begin_create session ops env conn push params s in
      let dropped = drop_connection session ops conn begun in
      let made = session.create env s.next_id false params in
      let c : Creating P J = record {
        id = s.next_id;
        conn_id = conn;
        push = push;
        valid = made.1;
        status = made.2;
      } in
      let taken : take_nth (length s.creating) dropped.creating ≡ some (c, s.creating) =
        ap (take_nth (length s.creating)) (forget-creating session ops conn begun)
        ∙ take_nth-last s.creating c in
      let left : Tables S C P J = record dropped { creating = s.creating } in
      subst
        (λ (o : Option (Creating P J × List (Creating P J))).
          let ended =
            (elim o as (λ _. Tables S C P J × Option J) [
              | none ↦ (dropped, none)
              | some (x, r) ↦
                  (register session ops x (record dropped { creating = r }), some x.status)
            ]).0 in
          (find s.next_id ended.subs ≡ some (record { push = push; conn_id = conn }))
          × (range conn ended.conn_to_session ≡ s.next_id ∷ []))
        (sym taken) (register-subs c left v, register-range c left v)

-- ===== src/Engine/Sessions/Keeps.antt =====
-- Every command on the path requests keeps their tables in agreement.
use edgy.Engine.Sessions.Waiting.{
  Distinct-append, take_nth-Distinct, take_nth-All, without-other, without-some,
}
use edgy.Prelude.{
  ℕ_discrete, ℕ, ◌==◌, ◌≡◌, ◌≢◌, ◌⊎◌, ◌<◌, inl, inr, if◌then◌else◌, if_keeps, Option, none, some,
  List, [], ◌∷◌, ◌++◌, All, All-append, All-map, refl, sym, ap, ◌∙◌, arith,
}
use edgy.Containers.Eq.{nat_eq}
use edgy.Containers.HashMap.{find-assign_self, find, assign, find-assign}
use edgy.Engine.Sessions.{
  Session, CacheOps, Sub, Creating, Tables, range, forget_conn_sessions, register, take_nth,
  finish_create, begin_create,
}
use edgy.Engine.Sessions.Paired.{
  IsPaired, without, find-forget, forget-next_id, forget-creating, forget-conn_to_session,
  range-append, range-erase_conn,
}

module _ {S C P Q J N : Type 0} (session : Session S Q J N) (ops : CacheOps C) where
  pub forget-IsPaired :
      (c : ℕ) (s : Tables S C P J) → IsPaired s → IsPaired (forget_conn_sessions session ops c s)
  forget-IsPaired c s w = record {
    entered = λ c'.
        rw (forget-conn_to_session session ops c s, range-erase_conn c' c s.conn_to_session)
          (entries c' (ℕ_discrete c c'));
    subscribed = λ i sub f.
        left i sub (without-some c (find i s.subs) sub (sym (find-forget session ops c i s w) ∙ f));
    below = λ i sub f. rw (forget-next_id session ops c s) (
        w.below i sub
          (without-some c (find i s.subs) sub (sym (find-forget session ops c i s w) ∙ f)).0);
    waiting =
        rw (forget-creating session ops c s, forget-next_id session ops c s)
          (All-map _ _ s.creating
            (λ d (l, n). (l, find-forget session ops c d.id s w ∙ ap (without c) n)) w.waiting);
    distinct = rw (forget-creating session ops c s) w.distinct;
  }
    where
      entries :
          (c' : ℕ)
          → Dec (c ≡ c')
          → ((if c == c' then [] else range c' s.conn_to_session) ≡ [])
            ⊎ ((i : ℕ) × (sub : Sub P) × ((if c == c' then [] else range c' s.conn_to_session)
                  ≡ i ∷ [])
                × (find i (forget_conn_sessions session ops c s).subs ≡ some sub)
                × (sub.conn_id ≡ c'))
      entries c' (yes p) = inl (ground arith)
      entries c' (no n) = elim (w.entered c') [
        | inl e ↦ inl (ground arith)
        | inr (i, sub, r, f, q) ↦ inr (
          i,
          sub,
          ground arith,
          find-forget session ops c i s w
              ∙ without-other c (find i s.subs) sub f (λ k. n (sym k ∙ q)),
          q,
        )
      ]

      left :
          (i : ℕ) (sub : Sub P)
          → (find i s.subs ≡ some sub) × (sub.conn_id ≢ c)
          → range sub.conn_id (forget_conn_sessions session ops c s).conn_to_session ≡ i ∷ []
      left i sub (f, n) =
          ap (range sub.conn_id) (forget-conn_to_session session ops c s)
          ∙ range-erase_conn sub.conn_id c s.conn_to_session
          ∙ other (w.subscribed i sub f)
        where
          other :
              range sub.conn_id s.conn_to_session ≡ i ∷ []
              → (if c == sub.conn_id then [] else range sub.conn_id s.conn_to_session) ≡ i ∷ []
          other r = ground (arith, n)

  -- The tables with an entry more, for a connection that has none.
  enter : ℕ → ℕ → P → Tables S C P J → Tables S C P J
  enter id conn push s = record s {
    subs = assign id (record { push = push; conn_id = conn }) s.subs;
    conn_to_session = s.conn_to_session ++ (conn, id) ∷ [];
  }

  enter-IsPaired :
      (id conn : ℕ) (push : P) (s : Tables S C P J)
      → IsPaired s
      → range conn s.conn_to_session ≡ []
      → id < s.next_id
      → find id s.subs ≡ none
      → All (λ d. d.id ≢ id) s.creating
      → IsPaired (enter id conn push s)
  unfolding enter
  enter-IsPaired id conn push s w r l new others = record {
    entered = λ c. rw (range-append c conn id s.conn_to_session) (entries c (ℕ_discrete conn c));
    subscribed = λ i sub f.
        range-append sub.conn_id conn id s.conn_to_session
        ∙ ranges i sub (ℕ_discrete id i) (sym (find-assign id i _ s.subs) ∙ f);
    below = λ i sub f. bound i sub (ℕ_discrete id i) (sym (find-assign id i _ s.subs) ∙ f);
    waiting = waiting s.creating w.waiting others;
    distinct = w.distinct;
  }
    where
      old_other : (i : ℕ) (sub : Sub P) → find i s.subs ≡ some sub → sub.conn_id ≢ conn
      old_other i sub f e =
          ground (arith, w.subscribed i sub f, r, ap (λ c. range c s.conn_to_session) e)

      found :
          (i : ℕ) (sub : Sub P)
          → find i s.subs ≡ some sub
          → find i (assign id (record { push = push; conn_id = conn }) s.subs) ≡ some sub
      found i sub f = find-assign id i _ s.subs ∙ differs (ℕ_discrete id i)
        where
          differs :
              (d : Dec (id ≡ i))
              → elim d as (λ _. Option (Sub P)) [
                | yes _ ↦ some (record { push = push; conn_id = conn })
                | no _ ↦ find i s.subs
              ]
                ≡ some sub
          differs (yes p) = absurd (ground (arith, new, f, ap (λ k. find k s.subs) p))
          differs (no n) = f

      entries :
          (c : ℕ)
          → Dec (conn ≡ c)
          → (range c s.conn_to_session ++ (if conn == c then id ∷ [] else []) ≡ [])
            ⊎ ((i : ℕ) × (sub : Sub P) × (range c s.conn_to_session
                    ++ (if conn == c then id ∷ [] else [])
                  ≡ i ∷ [])
                × (find i (assign id (record { push = push; conn_id = conn }) s.subs) ≡ some sub)
                × (sub.conn_id ≡ c))
      entries c (yes p) = inr (
        id,
        record { push = push; conn_id = conn },
        ground (arith, r, ap (λ k. range k s.conn_to_session) p),
        find-assign_self id _ s.subs,
        p,
      )
      entries c (no n) = elim (w.entered c) [
        | inl e ↦ inl (ground arith)
        | inr (i, sub, g, f, q) ↦ inr (i, sub, ground arith, found i sub f, q)
      ]

      ranges :
          (i : ℕ) (sub : Sub P) (d : Dec (id ≡ i))
          → elim d as (λ _. Option (Sub P)) [
            | yes _ ↦ some (record { push = push; conn_id = conn })
            | no _ ↦ find i s.subs
          ]
            ≡ some sub
          → range sub.conn_id s.conn_to_session ++ (if conn == sub.conn_id then id ∷ [] else [])
            ≡ i ∷ []
      ranges i sub (yes p) f = ground (
        arith,
        r,
        p,
        f,
        ap
            (λ (o : Option (Sub P)). elim o as (λ _. List ℕ) [
              | none ↦ []
              | some t ↦ range t.conn_id s.conn_to_session
            ])
            f,
      )
      ranges i sub (no n) f = ground (arith, w.subscribed i sub f, old_other i sub f)

      bound :
          (i : ℕ) (sub : Sub P) (d : Dec (id ≡ i))
          → elim d as (λ _. Option (Sub P)) [
            | yes _ ↦ some (record { push = push; conn_id = conn })
            | no _ ↦ find i s.subs
          ]
            ≡ some sub
          → i < s.next_id
      bound i sub (yes p) f = omega (arith, p, l)
      bound i sub (no n) f = w.below i sub f

      waiting :
          (cs : List (Creating P J))
          → All (λ c. (c.id < s.next_id) × (find c.id s.subs ≡ none)) cs
          → All (λ d. d.id ≢ id) cs
          → All
              (λ c.
                (c.id < s.next_id)
                × (find c.id (assign id (record { push = push; conn_id = conn }) s.subs) ≡ none))
              cs
      waiting [] h k = tt
      waiting (c ∷ cs) ((b, f), h) (n, k) =
          ((b, find-assign id c.id _ s.subs ∙ differs (ℕ_discrete id c.id)), waiting cs h k)
        where
          differs :
              (d : Dec (id ≡ c.id))
              → elim d as (λ _. Option (Sub P)) [
                | yes _ ↦ some (record { push = push; conn_id = conn })
                | no _ ↦ find c.id s.subs
              ]
                ≡ none
          differs (yes p) = absurd (n (sym p))
          differs (no m) = f

  -- A request enters the tables, where its id is in none of them.
  register-IsPaired :
      (c : Creating P J) (s : Tables S C P J)
      → IsPaired s
      → c.id < s.next_id
      → find c.id s.subs ≡ none
      → All (λ d. d.id ≢ c.id) s.creating
      → IsPaired (register session ops c s)
  unfolding register enter
  register-IsPaired c s w l new others =
      if_keeps IsPaired c.valid
        (λ _.
          enter-IsPaired c.id c.conn_id c.push (forget_conn_sessions session ops c.conn_id s)
            (forget-IsPaired c.conn_id s w)
            (ap (range c.conn_id) (forget-conn_to_session session ops c.conn_id s)
              ∙ range-erase_conn c.conn_id c.conn_id s.conn_to_session
              ∙ ground arith)
            (rw (forget-next_id session ops c.conn_id s) l)
            (find-forget session ops c.conn_id c.id s w ∙ ap (without c.conn_id) new)
            (rw (forget-creating session ops c.conn_id s) others))
        (λ _. w)

  pub begin_create-IsPaired :
      (env : N) (conn : ℕ) (push : P) (params : Q) (s : Tables S C P J)
      → IsPaired s
      → IsPaired (begin_create session ops env conn push params s)
  unfolding begin_create
  begin_create-IsPaired env conn push params s w = record {
    entered = w.entered;
    subscribed = w.subscribed;
    below = λ i sub f. omega (arith, w.below i sub f);
    waiting =
        All-append _ s.creating _
          (All-map _ _ s.creating (λ d (l, n). (omega (arith, l), n)) w.waiting)
          ((omega arith, absent (find s.next_id s.subs) refl), tt);
    distinct =
        Distinct-append s.creating _
          (All-map _ _ s.creating (λ d (l, n) e. absurd (omega (arith, l, e))) w.waiting)
          w.distinct;
  }
    where
      absent : (o : Option (Sub P)) → find s.next_id s.subs ≡ o → o ≡ none
      absent none f = refl
      absent (some sub) f = absurd (omega (arith, w.below s.next_id sub f))

  pub finish_create-IsPaired :
      (n : ℕ) (s : Tables S C P J) → IsPaired s → IsPaired (finish_create session ops n s).0
  unfolding finish_create
  finish_create-IsPaired n s w = from_taken (take_nth n s.creating) refl
    where
      from_taken :
          (o : Option (Creating P J × List (Creating P J)))
          → take_nth n s.creating ≡ o
          → IsPaired
              (elim o as (λ _. Tables S C P J × Option J) [
                | none ↦ (s, none)
                | some (c, rest) ↦
                    (register session ops c (record s { creating = rest }), some c.status)
              ]).0
      from_taken none e = w
      from_taken (some (c, rest)) e =
          let ((l, new), waiting) = take_nth-All _ n s.creating c rest e w.waiting in
          let (others, distinct) = take_nth-Distinct n s.creating c rest e w.distinct in
          register-IsPaired c (record s { creating = rest })
            (record {
              entered = w.entered;
              subscribed = w.subscribed;
              below = w.below;
              waiting = waiting;
              distinct = distinct;
            })
            l new others

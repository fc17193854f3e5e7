-- ===== src/Engine/Sessions/Paired.antt =====
-- The tables `subs_` and `connToSession_` agree, and a connection has at most one session.
use edgy.Prelude.{
  ℕ_discrete, ℕ, ◌==◌, ◌≡◌, ◌≢◌, ◌⊎◌, ◌<◌, inl, inr, if◌then◌else◌, Option, none, some, List, [],
  ◌∷◌, ◌++◌, All, refl, ap, ◌∙◌, arith,
}
use edgy.Containers.Eq.{nat_eq, if_eq}
use edgy.Containers.HashMap.{find, remove, find-remove}
use edgy.Engine.Sessions.{
  Session, CacheOps, Sub, Creating, Tables, range, erase_conn, close_at, release, forget_session,
  forget_sessions, forget_conn_sessions,
}

pub range-append :
    (c d i : ℕ) (m : List (ℕ × ℕ))
    → range c (m ++ (d, i) ∷ []) ≡ range c m ++ (if d == c then i ∷ [] else [])
unfolding range
range-append c d i [] = refl
range-append c d i ((e, j) ∷ m) = ground (arith, range-append c d i m)

pub range-erase_conn :
    (c d : ℕ) (m : List (ℕ × ℕ)) → range c (erase_conn d m) ≡ (if d == c then [] else range c m)
unfolding range erase_conn
range-erase_conn c d [] = ground arith
range-erase_conn c d ((e, j) ∷ m) = ground (arith, range-erase_conn c d m)

module _ {P : Type 0} where
  -- The entry of a table where the sessions of `c` are taken out.
  abbrev pub without : ℕ → Option (Sub P) → Option (Sub P)
  without c none = none
  without c (some sub) = if sub.conn_id == c then none else some sub

module _ {P J : Type 0} where
  -- No two creates have one id.
  abbrev pub Distinct : List (Creating P J) → Type 0
  Distinct [] = Unit
  Distinct (c ∷ cs) = All (λ d. d.id ≢ c.id) cs × Distinct cs

module _ {S C P J : Type 0} where
  pub record IsPaired (s : Tables S C P J) : Type 0 where
    -- what the multimap has of a connection
    pub entered :
        (c : ℕ)
        → (range c s.conn_to_session ≡ [])
          ⊎ ((i : ℕ) × (sub : Sub P) × (range c s.conn_to_session ≡ i ∷ [])
              × (find i s.subs ≡ some sub)
              × (sub.conn_id ≡ c))
    -- what the map has of a session
    pub subscribed :
        (i : ℕ) (sub : Sub P)
        → find i s.subs ≡ some sub
        → range sub.conn_id s.conn_to_session ≡ i ∷ []
    pub below : (i : ℕ) (sub : Sub P) → find i s.subs ≡ some sub → i < s.next_id
    pub waiting : All (λ c. (c.id < s.next_id) × (find c.id s.subs ≡ none)) s.creating
    pub distinct : Distinct s.creating

module _ {S C P Q J N : Type 0} (session : Session S Q J N) (ops : CacheOps C) where
  -- What forgetting leaves alone.
  Same : Tables S C P J → Tables S C P J → Type 0
  Same s t =
      (t.conn_to_session ≡ s.conn_to_session) × (t.next_id ≡ s.next_id) × (t.creating ≡ s.creating)

  forget_session-Same : (id : ℕ) (s : Tables S C P J) → Same s (forget_session session ops id s)
  unfolding Same forget_session
  forget_session-Same id s = from_sub (find id s.subs)
    where
      from_sub :
          (o : Option (Sub P))
          → Same s (elim o [
            | none ↦ s
            | some sub ↦ record s {
              sessions = close_at session id s.sessions;
              cache = release ops id s.cache;
              subs = remove id s.subs;
            }
          ])
      from_sub none = (refl, refl, refl)
      from_sub (some sub) = (refl, refl, refl)

  forget_sessions-Same :
      (ids : List ℕ) (s : Tables S C P J) → Same s (forget_sessions session ops ids s)
  unfolding Same forget_sessions
  forget_sessions-Same [] s = (refl, refl, refl)
  forget_sessions-Same (id ∷ ids) s =
      let (a, b, c) = forget_sessions-Same ids (forget_session session ops id s) in
      let (a', b', c') = forget_session-Same id s in (a ∙ a', b ∙ b', c ∙ c')

  pub forget-next_id :
      (c : ℕ) (s : Tables S C P J) → (forget_conn_sessions session ops c s).next_id ≡ s.next_id
  unfolding forget_conn_sessions Same
  forget-next_id c s = (forget_sessions-Same (range c s.conn_to_session) s).1

  pub forget-creating :
      (c : ℕ) (s : Tables S C P J) → (forget_conn_sessions session ops c s).creating ≡ s.creating
  unfolding forget_conn_sessions Same
  forget-creating c s = (forget_sessions-Same (range c s.conn_to_session) s).2

  pub forget-conn_to_session :
      (c : ℕ) (s : Tables S C P J)
      → (forget_conn_sessions session ops c s).conn_to_session ≡ erase_conn c s.conn_to_session
  unfolding forget_conn_sessions Same
  forget-conn_to_session c s =
      ap (erase_conn c) (forget_sessions-Same (range c s.conn_to_session) s).0

  forget_session-subs :
      (id j : ℕ) (s : Tables S C P J)
      → find j (forget_session session ops id s).subs ≡ if_eq id j none (find j s.subs)
  unfolding forget_session
  forget_session-subs id j s = ground (arith, find-remove id j s.subs)

  -- The tables lose the sessions of the connection, and no others.
  pub find-forget :
      (c j : ℕ) (s : Tables S C P J)
      → IsPaired s
      → find j (forget_conn_sessions session ops c s).subs ≡ without c (find j s.subs)
  unfolding forget_conn_sessions forget_sessions
  find-forget c j s w = elim (w.entered c) [
    | inl e ↦ rw e (kept (find j s.subs) refl e)
    | inr (i, sub, r, f, q) ↦
        rw r (forget_session-subs i j s ∙ dropped i sub r f q (ℕ_discrete i j) (find j s.subs) refl)
  ]
    where
      kept :
          (o : Option (Sub P))
          → find j s.subs ≡ o
          → range c s.conn_to_session ≡ []
          → o ≡ without c o
      kept none f e = refl
      kept (some sub) f e = elim (ℕ_discrete sub.conn_id c) [
        | yes q ↦ absurd (ground (arith, w.subscribed j sub f))
        | no n ↦ ground arith
      ]

      dropped :
          (i : ℕ) (sub : Sub P)
          → range c s.conn_to_session ≡ i ∷ []
          → find i s.subs ≡ some sub
          → sub.conn_id ≡ c
          → (d : Dec (i ≡ j)) → (o : Option (Sub P)) → find j s.subs ≡ o
          → elim d as (λ _. Option (Sub P)) [ yes _ ↦ none | no _ ↦ o ] ≡ without c o
      dropped i sub r f q (yes p) none g = refl
      dropped i sub r f q (yes p) (some sub') g =
          ground (arith, w.subscribed j sub' g, ap (λ k. find k s.subs) p)
      dropped i sub r f q (no n) none g = refl
      dropped i sub r f q (no n) (some sub') g = elim (ℕ_discrete sub'.conn_id c) [
        | yes e ↦ absurd (ground (arith, w.subscribed j sub' g))
        | no m ↦ ground arith
      ]

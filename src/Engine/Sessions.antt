-- ===== src/Engine/Sessions.antt =====
-- The path requests of `Engine` in src/edgy/engine.cpp: the tables `subs_` and `connToSession_`, which
-- `subMutex_` guards, and the commands that change them. A session is an object that the tables and
-- the jobs of the pool share, so the sessions stand on a heap by their `id_`, which is the key that
-- `subs_` has for them. The counters of the requests only count and are left out, and so are the
-- times.
pub mod Paired
pub mod Waiting
pub mod Keeps
pub mod History
pub mod Drop
pub mod Updates
use edgy.Prelude.{
  false, ℕ, zero, suc, ◌==◌, Bool, if◌then◌else◌, Option, none, some, List, [], ◌∷◌, ◌++◌,
}
use edgy.Containers.Eq.{nat_eq}
use edgy.Containers.HashMap.{find, assign, remove}

-- What the engine asks of `PathSession`, with the parameters `Q` of a request, the statuses `J` and what
-- a session sees of the ledger, the books and the clock, `N`. A
-- new session has run `doCreate`, which says whether the request is valid; its first arguments are the
-- id and `oneShot`. An update is for revalidation only or not, and may throw.
pub record Session (S Q J N : Type 0) : Type 0 where
  pub create : N → ℕ → Bool → Q → S × Bool × J
  pub do_close : S → S × J
  pub do_status : S → S × J
  pub closing : S → Bool
  pub should_deepen : ℕ → S → Bool
  pub try_begin_update : S → Bool × S
  pub end_update : S → S
  pub do_update : N → Bool → S → S × Option J

-- What the engine asks of `AssetCache`.
pub record CacheOps (C : Type 0) : Type 0 where
  pub release_session : ℕ → C → C
  pub forget_session : ℕ → C → C

-- Engine::Sub
pub record Sub (P : Type 0) : Type 0 where
  pub push : P
  pub conn_id : ℕ

-- A `create` between its `doCreate` and its entry in the tables, in which it holds no lock.
pub record Creating (P J : Type 0) : Type 0 where
  pub id : ℕ
  pub conn_id : ℕ
  pub push : P
  pub valid : Bool
  pub status : J

pub record Tables (S C P J : Type 0) : Type 0 where
  pub sessions : List (ℕ × S)
  pub subs : List (ℕ × Sub P)
  pub conn_to_session : List (ℕ × ℕ)
  pub next_id : ℕ
  pub cache : Option C
  pub creating : List (Creating P J)

-- The answers of `xrpl::rpcError` that the engine gives itself.
pub data RpcError : Type 0 where
  not_synced invalid_params no_pf_request internal : RpcError

pub data Reply (J : Type 0) : Type 0 where
  status : J → Reply J
  error : RpcError → Reply J

-- The values of `subcommand` that the engine tells apart.
pub data Subcommand : Type 0 where
  create close status other : Subcommand

-- equal_range(connId)
unfoldable pub range : ℕ → List (ℕ × ℕ) → List ℕ
range conn [] = []
range conn ((c, id) ∷ m) = let rest = range conn m in if c == conn then id ∷ rest else rest

-- connToSession_.erase(connId)
unfoldable pub erase_conn : ℕ → List (ℕ × ℕ) → List (ℕ × ℕ)
erase_conn conn [] = []
erase_conn conn ((c, id) ∷ m) =
    let rest = erase_conn conn m in if c == conn then rest else (c, id) ∷ rest

module _ {S Q J N : Type 0} (session : Session S Q J N) where
  -- doClose() on the session `id`
  unfoldable pub close_at : ℕ → List (ℕ × S) → List (ℕ × S)
  close_at id sessions = elim (find id sessions) [
    | none ↦ sessions
    | some o ↦ assign id (session.do_close o).0 sessions
  ]

-- The cache lets go of a session, where there is a cache.
unfoldable pub release : {C : Type 0} → CacheOps C → ℕ → Option C → Option C
release ops id none = none
release ops id (some c) = some (ops.forget_session id (ops.release_session id c))

module _ {P J : Type 0} where
  -- The thread of the `n`-th request goes on, as the scheduler chooses.
  unfoldable pub take_nth : ℕ → List (Creating P J) → Option (Creating P J × List (Creating P J))
  take_nth n [] = none
  take_nth zero (c ∷ cs) = some (c, cs)
  take_nth (suc n) (c ∷ cs) = elim (take_nth n cs) [
    | none ↦ none
    | some (found, rest) ↦ some (found, c ∷ rest)
  ]

module _ {S C P Q J N : Type 0} (session : Session S Q J N) (ops : CacheOps C) where
  unfoldable pub forget_session : ℕ → Tables S C P J → Tables S C P J
  unfolding close_at
  forget_session id s = elim (find id s.subs) [
    | none ↦ s
    | some sub ↦ record s {
      sessions = close_at session id s.sessions;
      cache = release ops id s.cache;
      subs = remove id s.subs;
    }
  ]

  unfoldable pub forget_sessions : List ℕ → Tables S C P J → Tables S C P J
  unfolding forget_session
  forget_sessions [] s = s
  forget_sessions (id ∷ ids) s = forget_sessions ids (forget_session id s)

  unfoldable pub forget_conn_sessions : ℕ → Tables S C P J → Tables S C P J
  unfolding forget_sessions
  forget_conn_sessions conn s =
      let s' = forget_sessions (range conn s.conn_to_session) s in
      record s' { conn_to_session = erase_conn conn s'.conn_to_session }

  -- `create`, up to the lock.
  unfoldable pub begin_create : N → ℕ → P → Q → Tables S C P J → Tables S C P J
  begin_create env conn push params s =
      let made = session.create env s.next_id false params in
      record s {
        next_id = suc s.next_id;
        sessions = assign s.next_id made.0 s.sessions;
        creating =
            s.creating
            ++ record {
              id = s.next_id;
              conn_id = conn;
              push = push;
              valid = made.1;
              status = made.2;
            }
              ∷ [];
      }

  -- `create`, from the lock on.
  unfoldable pub register : Creating P J → Tables S C P J → Tables S C P J
  unfolding forget_conn_sessions
  register c s =
      let s' : Tables S C P J = forget_conn_sessions c.conn_id s in
      let entered : Tables S C P J = record s' {
        subs = assign c.id (record { push = c.push; conn_id = c.conn_id }) s'.subs;
        conn_to_session = s'.conn_to_session ++ (c.conn_id, c.id) ∷ [];
      } in
      if c.valid then entered else s

  unfoldable pub finish_create : ℕ → Tables S C P J → Tables S C P J × Option J
  unfolding take_nth register
  finish_create n s = elim (take_nth n s.creating) [
    | none ↦ (s, none)
    | some (c, rest) ↦ (register c (record s { creating = rest }), some c.status)
  ]

  -- doClose() on each session of the connection; the reply is the last one's.
  unfoldable pub close_all : List ℕ → Reply J → Tables S C P J → Tables S C P J × Reply J
  unfolding close_at
  close_all [] last s = (s, last)
  close_all (id ∷ ids) last s = elim (find id s.subs) [
    | none ↦ close_all ids last s
    | some sub ↦
        close_all ids
          (elim (find id s.sessions) [ none ↦ last | some o ↦ Reply.status (session.do_close o).1 ])
          (record s { sessions = close_at session id s.sessions })
  ]

  unfoldable pub close_path_find : ℕ → Tables S C P J → Tables S C P J × Reply J
  unfolding close_all forget_conn_sessions
  close_path_find conn s =
      let closed =
        close_all (range conn s.conn_to_session) (Reply.error RpcError.no_pf_request) s in
      (forget_conn_sessions conn closed.0, closed.1)

  -- The status of the first session of the connection that is subscribed.
  unfoldable pub status_of : List ℕ → Tables S C P J → Tables S C P J × Reply J
  status_of [] s = (s, Reply.error RpcError.no_pf_request)
  status_of (id ∷ ids) s = elim (find id s.subs) [
    | none ↦ status_of ids s
    | some sub ↦ elim (find id s.sessions) [
      | none ↦ (s, Reply.error RpcError.no_pf_request)
      | some o ↦ (
        record s { sessions = assign id (session.do_status o).0 s.sessions },
        Reply.status (session.do_status o).1,
      )
    ]
  ]

  -- runPathFind: the state it leaves, and its reply unless it is a `create` that goes on.
  unfoldable pub run_path_find :
      N → Bool → Option Subcommand → ℕ → P → Q → Tables S C P J → Tables S C P J × Option (Reply J)
  unfolding begin_create close_path_find status_of
  run_path_find env ready sub conn push params s =
      if ready
      then elim sub [
        | none ↦ (s, some (Reply.error RpcError.invalid_params))
        | some Subcommand.create ↦ (begin_create env conn push params s, none)
        | some Subcommand.close ↦ ((close_path_find conn s).0, some (close_path_find conn s).1)
        | some Subcommand.status ↦
            let r = status_of (range conn s.conn_to_session) s in (r.0, some r.1)
        | some Subcommand.other ↦ (s, some (Reply.error RpcError.invalid_params))
      ]
      else (s, some (Reply.error RpcError.not_synced))

  -- The connection is lost.
  unfoldable pub drop_connection : ℕ → Tables S C P J → Tables S C P J
  unfolding forget_conn_sessions
  drop_connection conn s = forget_conn_sessions conn s

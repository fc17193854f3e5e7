-- ===== src/PathSession/Serves.antt =====
-- `PathSession` as the engine uses it.
use edgy.PathSession.Sources.{Clock}
use edgy.Prelude.{ℕ, ◌≡◌, Bool, true, false, not, some, refl, ap, arith}
use edgy.Containers.Eq.{Eq}
use edgy.Books.{Xrpl, Books}
use edgy.Graph.{Payments}
use edgy.PathSession.{Status, Params, Config, Rpc, Cache, PathSession}
use edgy.PathSession.Commands.{
  new_session, do_create, do_close, do_status, do_update, should_deepen, try_begin_update,
  end_update,
}
use edgy.PathSession.Commands.Keeps.{do_update-flags, do_create-flags}
use edgy.Engine.Sessions.{Session}
use edgy.Engine.Sessions.Updates.Marks.{Laws}

-- What a session sees at a call: the books, the cache and the clock.
pub record Seen (A T D L : Type 0) : Type 0 where
  pub books : Books A T D
  pub cache : Cache L
  pub clock : Clock
  pub now : ℕ

module _ {A T D E M L V : Type 0} ⦃a : Eq A⦄ ⦃t : Eq T⦄ ⦃d : Eq D⦄ ⦃e : Eq E⦄ (lib : Xrpl A T)
    (pay : Payments A D E M L) (rpc : Rpc A D E M L V) (cfg : Config) (zero_amount : M) where
  -- The engine never asks for a fast search.
  abbrev pub path_sessions :
      Session (PathSession A D E M V) (Params V) (Status E M V) (Seen A T D L)
  path_sessions = record {
    create = λ env id one_shot params.
        do_create lib pay rpc cfg env.books env.cache params env.clock
          (new_session lib pay rpc cfg id one_shot zero_amount env.now);
    do_close = do_close lib pay rpc cfg;
    do_status = do_status lib pay rpc cfg;
    closing = λ s. s.closing;
    should_deepen = should_deepen lib pay rpc cfg;
    try_begin_update = try_begin_update lib pay rpc cfg;
    end_update = end_update lib pay rpc cfg;
    do_update = λ env reval s.
        let r = do_update lib pay rpc cfg env.books env.cache false reval env.clock s in
        (r.0, some r.1);
  }

  -- A path session keeps what the engine relies on: it starts idle, only `tryBeginUpdate` and
  -- `endUpdate` change whether it is being updated, and the first of two that begin is let in.
  pub path_sessions-Laws : Laws path_sessions
  unfolding try_begin_update do_close do_status end_update new_session
  path_sessions-Laws = record {
    updating = λ s. s.updating;
    create_idle = λ env id one_shot q.
        ap (λ f. f.updating)
          (do_create-flags lib pay rpc cfg env.books env.cache q env.clock
            (new_session lib pay rpc cfg id one_shot zero_amount env.now));
    close_keeps = λ s. refl;
    status_keeps = λ s. refl;
    update_keeps = λ env reval s.
        ap (λ f. f.updating)
          (do_update-flags lib pay rpc cfg env.books env.cache false reval env.clock s);
    begin_new = λ s. begin_new s.updating s;
    begin_sets = λ s. begin_sets s;
    end_clears = λ s. refl;
  }
    where
      begin_new :
          (b : Bool) (s : PathSession A D E M V)
          → (try_begin_update lib pay rpc cfg (record s { updating = b })).0 ≡ not b
      begin_new true s = refl
      begin_new false s = refl

      begin_sets :
          (s : PathSession A D E M V) → (try_begin_update lib pay rpc cfg s).1.updating ≡ true
      begin_sets s = ground arith

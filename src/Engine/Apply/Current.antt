-- ===== src/Engine/Apply/Current.antt =====
-- While `dirty_` is clear, the published ledger holds what the builder holds: closes and ticks.
use edgy.Prelude.{
  ℕ, ◌+◌, ◌≡◌, ◌%◌, ◌++◌, Bool, true, false, not, ◌&&◌, ltb, leb, ◌==◌, if_keeps, Option, none,
  some, List, [], ◌∷◌, refl, sym, ap,
}
use edgy.Builder.{Header, Builder, Published, publish, freeze_base, set_header, set_open}
use edgy.Builder.Items.{Item}
use edgy.Ledger.{Ledger}
use edgy.Engine.Meta.{State}
use edgy.Engine.Apply.{
  ClosedMsg, ApplyStats, reset_stats, word32, revalidate, Output, Follower, number_of, throws,
  fill_header, publish_builder, close_with, send_closed, set_resync, apply_ledger_closed,
  mid_close_tick, chain_header, diverges,
}

abbrev pub served : {I : Type 0} → Option (Published I) → Option (Ledger I)
served none = none
served (some v) = some v.ledger

publish-again :
    {I : Type 0} (b : Builder I) → (publish (publish b).0).1.ledger ≡ (publish b).1.ledger
unfolding publish freeze_base
publish-again {I} b = of_frozen b.frozen
  where
    of_frozen :
        (f : Bool)
        → (publish (publish (record b { frozen = f })).0).1.ledger
          ≡ (publish (record b { frozen = f })).1.ledger
    of_frozen true = refl
    of_frozen false = refl

pub publish-set_open :
    {I : Type 0} (b : Builder I) (value : Bool)
    → (publish (set_open b value)).1.ledger ≡ (publish b).1.ledger
unfolding publish freeze_base set_open
publish-set_open {I} b value = of_frozen b.frozen
  where
    of_frozen :
        (f : Bool)
        → (publish (set_open (record b { frozen = f }) value)).1.ledger
          ≡ (publish (record b { frozen = f })).1.ledger
    of_frozen true = refl
    of_frozen false = refl

module _ {A T D W : Type 0} where
  -- The ledger that the builder would publish.
  abbrev pub current : State A T D W → Ledger (Item A D W)
  current s = (publish s.builder).1.ledger

  -- What is published is what the builder holds, unless it is marked dirty.
  unfoldable pub IsFresh : Follower A T D W → Type 0
  IsFresh s = s.dirty ≡ false → served s.published ≡ some (current s.state)

  pub publish_builder-current :
      (s : Follower A T D W)
      → served (publish_builder s).published ≡ some (current (publish_builder s).state)
  unfolding publish_builder
  publish_builder-current s = ap some (sym (publish-again s.state.builder))

  sent-IsFresh :
      (s : Follower A T D W) (sent : List Output) → IsFresh s → IsFresh (record s { sent = sent })
  unfolding IsFresh
  sent-IsFresh s sent w c = w c

  send_closed-IsFresh : (h : Header) (s : Follower A T D W) → IsFresh s → IsFresh (send_closed h s)
  unfolding send_closed
  send_closed-IsFresh h s w = if_keeps IsFresh s.has_handler (λ _. sent-IsFresh s _ w) (λ _. w)

  published-IsFresh :
      (s : Follower A T D W) (dirty : Bool) (prev : ℕ) (stats : ApplyStats)
      → IsFresh (record (publish_builder s) { dirty = dirty; prev_close_txs = prev; stats = stats })
  unfolding IsFresh
  published-IsFresh s dirty prev stats c = publish_builder-current s

  close_with-IsFresh :
      (msg : ClosedMsg) (h : Header) (s : Follower A T D W) → IsFresh (close_with msg h s).0
  unfolding close_with
  close_with-IsFresh msg h s =
      let opened = record s {
        state = record s.state { builder = set_open (set_header s.state.builder h) false };
        current_seq = h.seq;
      } in
      let done = record (publish_builder opened) {
        dirty = false;
        prev_close_txs = number_of msg.txn_count;
        stats = reset_stats;
      } in
      if_keeps (λ (r : Follower A T D W × Bool). IsFresh r.0) (throws msg.txn_count)
        (λ _. unfold publish_builder in published-IsFresh opened false s.prev_close_txs s.stats)
        (λ _. sent-IsFresh (send_closed h done) ((send_closed h done).sent ++ revalidate ∷ []) (
          send_closed-IsFresh h done
            (published-IsFresh opened false (number_of msg.txn_count) reset_stats)))

  set_resync-IsFresh : (b : Bool) (s : Follower A T D W) → IsFresh s → IsFresh (set_resync b s)
  unfolding set_resync IsFresh
  set_resync-IsFresh true s w c = w c
  set_resync-IsFresh false s w c = w c

  pub apply_ledger_closed-IsFresh :
      (msg : ClosedMsg) (s : Follower A T D W) → IsFresh s → IsFresh (apply_ledger_closed msg s).0
  unfolding apply_ledger_closed
  apply_ledger_closed-IsFresh msg s w =
      if_keeps (λ (r : Follower A T D W × Bool). IsFresh r.0) (not s.ready) (λ _. w)
        (λ _.
          if_keeps (λ (r : Follower A T D W × Bool). IsFresh r.0) (throws msg.ledger_index) (λ _. w)
            (λ _.
              if_keeps (λ (r : Follower A T D W × Bool). IsFresh r.0)
                (not (number_of msg.ledger_index == 0)
                  && leb (number_of msg.ledger_index) s.current_seq)
                (λ _. w) (λ _. of_header (fill_header msg s.state.builder.header))))
    where
      of_header :
          (o : Option Header)
          → IsFresh
              (elim o as (λ _. Follower A T D W × Bool) [
                | none ↦ (
                  set_resync
                      (not (number_of msg.ledger_index == 0)
                        && (not (s.current_seq == 0)
                            && ltb ((s.current_seq + 1) % word32) (number_of msg.ledger_index)))
                      s,
                  false,
                )
                | some h ↦ close_with msg (chain_header msg s.state.builder.header h) (
                    set_resync (diverges msg s.state.builder.header h) (
                      set_resync
                        (not (number_of msg.ledger_index == 0)
                          && (not (s.current_seq == 0)
                              && ltb ((s.current_seq + 1) % word32) (number_of msg.ledger_index)))
                        s))
              ]).0
      of_header none = set_resync-IsFresh _ s w
      of_header (some h) = close_with-IsFresh msg (chain_header msg s.state.builder.header h) (
          set_resync (diverges msg s.state.builder.header h) (
            set_resync
              (not (number_of msg.ledger_index == 0)
                && (not (s.current_seq == 0)
                    && ltb ((s.current_seq + 1) % word32) (number_of msg.ledger_index)))
              s))

  pub mid_close_tick-IsFresh :
      (pending size : ℕ) (live : Bool) (s : Follower A T D W)
      → IsFresh s
      → IsFresh (mid_close_tick pending size live s)
  unfolding mid_close_tick
  mid_close_tick-IsFresh pending size live s w =
      if_keeps IsFresh (ltb size pending) (λ _. w)
        (λ _.
          if_keeps IsFresh live
            (λ _. sent-IsFresh _ _ (if_keeps IsFresh s.dirty (λ _. refreshed) (λ _. w))) (λ _. w))
    where
      refreshed : IsFresh (publish_builder (record s { dirty = false }))
      refreshed =
          unfold publish_builder in
          published-IsFresh (record s { dirty = false }) false s.prev_close_txs s.stats

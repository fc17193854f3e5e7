-- ===== src/Engine/Apply/Fresh.antt =====
-- While `dirty_` is clear, the published ledger holds what the builder holds: transactions, and the
-- turns of the apply thread.
use edgy.Engine.Apply.Current.{
  served, current, IsFresh, publish-set_open, apply_ledger_closed-IsFresh, mid_close_tick-IsFresh,
  publish_builder-current,
}
use edgy.Prelude.{
  ℕ, ◌≡◌, Bool, true, false, ltb, if_keeps, Option, ◌&&◌, if◌then◌else◌, none, some, List, [], ◌∷◌,
  refl, sym, ap, ◌∙◌, arith, inl, inr,
}
use edgy.Containers.Eq.{Eq}
use edgy.Books.{Xrpl}
use edgy.Builder.{set_open}
use edgy.Builder.Items.{Codec}
use edgy.Engine.Meta.{MetaNode, Fields, State}
use edgy.Engine.Meta.Told.{apply_meta_node-Told}
use edgy.Engine.Stream.{JsonItem, StreamMetaStats, applied, no_stats, apply_json_affected_nodes}
use edgy.Engine.Stream.Count.{sound, totals, nodes as count, total-apply_json_affected_nodes}
use edgy.Engine.Stream.Touched.{
  Touched, Touched-trans, note-Touched, apply_json_affected_nodes-Touched,
}
use edgy.Engine.Apply.{
  HexMeta, JsonMeta, TxMsg, Message, Follower, empty, bad_hex, bad_meta, nodes, hex, object,
  neither, closed, transaction, mid_close_tick, apply_nodes, finish_tx, finish_json, without_meta,
  apply_hex, apply_meta, apply_transaction, accepts, apply_message, apply_batch,
}

-- What the apply thread does, and a change of `ready_` by the others: a batch, or a tick with the jobs
-- that wait, the workers, and whether a subscription is open.
pub data Turn (F : Type 0) : Type 0 where
  batch : List (Message F) → Turn F
  tick : ℕ → ℕ → Bool → Turn F
  turned : Bool → Turn F

-- The test of no node's type throws in the metadata, where that is JSON.
unfoldable pub sound_meta : {F : Type 0} → Option (JsonMeta F) → Bool
sound_meta none = true
sound_meta (some (hex h)) = true
sound_meta (some neither) = true
sound_meta (some (object items)) = sound items

unfoldable pub sound_message : {F : Type 0} → Message F → Bool
unfolding sound_meta
sound_message (closed msg) = true
sound_message (transaction msg) = sound_meta msg.meta

unfoldable pub all_sound : {F : Type 0} → List (Message F) → Bool
unfolding sound_message
all_sound [] = true
all_sound (m ∷ ms) = sound_message m && all_sound ms

unfoldable pub sound_turn : {F : Type 0} → Turn F → Bool
unfolding all_sound
sound_turn (batch ms) = all_sound ms
sound_turn (tick pending size live) = true
sound_turn (turned ready) = true

unfoldable pub sound_turns : {F : Type 0} → List (Turn F) → Bool
unfolding sound_turn
sound_turns [] = true
sound_turns (t ∷ ts) = sound_turn t && sound_turns ts

both : (b c : Bool) → (b && c) ≡ true → (b ≡ true) × (c ≡ true)
both true c h = (refl, h)
both false c h = absurd (ground (arith, h))

module _ {A T D F W : Type 0} ⦃a : Eq A⦄ ⦃t : Eq T⦄ ⦃d : Eq D⦄ (lib : Xrpl A T)
    (codec : Codec A D W) (fields : Fields A D F) where
  apply_nodes-Touched :
      (ns : List (MetaNode F)) (r : StreamMetaStats × State A T D W)
      → Touched r (apply_nodes lib codec fields ns r)
  unfolding apply_nodes
  apply_nodes-Touched [] r = inr (refl, refl)
  apply_nodes-Touched (node ∷ ns) (st, s) =
      Touched-trans (st, s) _ _ (note-Touched st s _ (apply_meta_node-Told lib codec fields node s))
        (apply_nodes-Touched ns _)

  finish_tx-IsFresh :
      (r : StreamMetaStats × State A T D W) (s : Follower A T D W)
      → Touched (no_stats lib codec fields, s.state) r
      → IsFresh s
      → IsFresh (finish_tx lib codec fields r s)
  unfolding finish_tx IsFresh applied
  finish_tx-IsFresh r s (inl l) w c = absurd (ground (arith, l, c))
  finish_tx-IsFresh r s (inr (p, e)) w c =
      w (ground (arith, p, c)) ∙ ap (λ x. some (current x)) (sym e)

  without_meta-IsFresh :
      (s : Follower A T D W) → IsFresh s → IsFresh (without_meta lib codec fields s)
  unfolding without_meta IsFresh
  without_meta-IsFresh s w c = w c

  finish_json-IsFresh :
      (items : List (JsonItem F)) (s : Follower A T D W)
      → sound items ≡ true
      → IsFresh s
      → IsFresh (
          finish_json lib codec fields (apply_json_affected_nodes lib codec fields items s.state) s)
  unfolding finish_json
  finish_json-IsFresh items s h w =
      of_outcome (apply_json_affected_nodes lib codec fields items s.state)
        (total-apply_json_affected_nodes lib codec fields items s.state)
        (apply_json_affected_nodes-Touched lib codec fields items s.state)
    where
      of_outcome :
          (r : Option StreamMetaStats × State A T D W)
          → totals r.0 ≡ (if sound items then some (count items) else none)
          → ((st : StreamMetaStats)
              → r.0 ≡ some st
              → Touched (no_stats lib codec fields, s.state) (st, r.1))
          → IsFresh (finish_json lib codec fields r s)
      of_outcome (none, state) q f = absurd (ground (arith, q, h))
      of_outcome (some st, state) q f = finish_tx-IsFresh (st, state) s (f st refl) w

  apply_hex-IsFresh :
      (h : HexMeta F) (s : Follower A T D W) → IsFresh s → IsFresh (apply_hex lib codec fields h s)
  unfolding apply_hex
  apply_hex-IsFresh empty s w = without_meta-IsFresh s w
  apply_hex-IsFresh bad_hex s w = without_meta-IsFresh s w
  apply_hex-IsFresh bad_meta s w = without_meta-IsFresh s w
  apply_hex-IsFresh (nodes ns) s w = finish_tx-IsFresh _ s (apply_nodes-Touched ns _) w

  apply_meta-IsFresh :
      (msg : TxMsg F) (s : Follower A T D W)
      → sound_meta msg.meta ≡ true
      → IsFresh s
      → IsFresh (apply_meta lib codec fields msg s)
  unfolding apply_meta sound_meta
  apply_meta-IsFresh msg s h w = of_meta msg.meta h
    where
      of_blob :
          (o : Option (HexMeta F))
          → IsFresh (elim o as (λ _. Follower A T D W) [
            | none ↦ without_meta lib codec fields s
            | some h ↦ apply_hex lib codec fields h s
          ])
      of_blob none = without_meta-IsFresh s w
      of_blob (some h) = apply_hex-IsFresh h s w

      of_meta :
          (o : Option (JsonMeta F))
          → sound_meta o ≡ true
          → IsFresh (elim o as (λ _. Follower A T D W) [
            | some (hex h) ↦ apply_hex lib codec fields h s
            | some (object items) ↦
                finish_json lib codec fields
                  (apply_json_affected_nodes lib codec fields items s.state)
                  s
            | some neither ↦ without_meta lib codec fields s
            | none ↦ elim msg.meta_blob [
              | none ↦ without_meta lib codec fields s
              | some h ↦ apply_hex lib codec fields h s
            ]
          ])
      of_meta (some (hex h)) k = apply_hex-IsFresh h s w
      of_meta (some (object items)) k = finish_json-IsFresh items s k w
      of_meta (some neither) k = without_meta-IsFresh s w
      of_meta none k = of_blob msg.meta_blob

  opened-IsFresh :
      (s : Follower A T D W)
      → IsFresh s
      → IsFresh (record s { state = record s.state { builder = set_open s.state.builder true } })
  unfolding IsFresh
  opened-IsFresh s w c = w c ∙ ap some (sym (publish-set_open s.state.builder true))

  apply_message-IsFresh :
      (m : Message F) (s : Follower A T D W)
      → sound_message m ≡ true
      → IsFresh s
      → IsFresh (apply_message lib codec fields m s).0
  unfolding apply_message apply_transaction sound_message
  apply_message-IsFresh (closed msg) s h w = apply_ledger_closed-IsFresh msg s w
  apply_message-IsFresh (transaction msg) s h w =
      if_keeps (λ (r : Follower A T D W × Bool). IsFresh r.0) (accepts lib codec fields msg s)
        (λ _. apply_meta-IsFresh msg _ h (opened-IsFresh s w)) (λ _. w)

  apply_batch-IsFresh :
      (ms : List (Message F)) (s : Follower A T D W)
      → all_sound ms ≡ true
      → IsFresh s
      → IsFresh (apply_batch lib codec fields ms s)
  unfolding apply_batch all_sound
  apply_batch-IsFresh [] s h w = w
  apply_batch-IsFresh (m ∷ ms) s h w =
      let (here, later) = both (sound_message m) (all_sound ms) h in
      let next = apply_message-IsFresh m s here w in
      if_keeps IsFresh (apply_message lib codec fields m s).1
        (λ _. apply_batch-IsFresh ms _ later next) (λ _. next)

  pub turn : Turn F → Follower A T D W → Follower A T D W
  turn (batch ms) s = apply_batch lib codec fields ms s
  turn (tick pending size live) s = mid_close_tick pending size live s
  turn (turned ready) s = record s { ready = ready }

  unfoldable pub run : List (Turn F) → Follower A T D W → Follower A T D W
  unfolding turn
  run [] s = s
  run (t ∷ ts) s = run ts (turn t s)

  turn-IsFresh :
      (t : Turn F) (s : Follower A T D W) → sound_turn t ≡ true → IsFresh s → IsFresh (turn t s)
  unfolding turn sound_turn
  turn-IsFresh (batch ms) s h w = apply_batch-IsFresh ms s h w
  turn-IsFresh (tick pending size live) s h w = mid_close_tick-IsFresh pending size live s w
  turn-IsFresh (turned ready) s h w = unfold IsFresh in w

  run-IsFresh :
      (ts : List (Turn F)) (s : Follower A T D W)
      → sound_turns ts ≡ true
      → IsFresh s
      → IsFresh (run ts s)
  unfolding run sound_turns
  run-IsFresh [] s h w = w
  run-IsFresh (t ∷ ts) s h w =
      let (here, later) = both (sound_turn t) (sound_turns ts) h in
      run-IsFresh ts (turn t s) later (turn-IsFresh t s here w)

  tick-current :
      (pending size : ℕ) (s : Follower A T D W)
      → IsFresh s
      → ltb size pending ≡ false
      → served (mid_close_tick pending size true s).published
        ≡ some (current (mid_close_tick pending size true s).state)
  unfolding mid_close_tick IsFresh
  tick-current pending size s w idle =
      if_keeps IsCurrent (ltb size pending) (λ busy. absurd (ground (arith, busy, idle)))
        (λ _.
          if_keeps IsCurrent s.dirty (λ _. publish_builder-current (record s { dirty = false })) w)
    where
      IsCurrent : Follower A T D W → Type 0
      IsCurrent r = served r.published ≡ some (current r.state)

  -- Whatever batches and ticks have run since a published ledger that was fresh, where the test of a
  -- node's type throws in none of their transactions, a tick that is not put off for the load of the
  -- pool, with a subscription open, leaves a published ledger that holds the objects of the builder, so
  -- the updates that it starts are priced on everything applied so far.
  pub run-current :
      (ts : List (Turn F)) (pending size : ℕ) (s : Follower A T D W)
      → sound_turns ts ≡ true
      → IsFresh s
      → ltb size pending ≡ false
      → served (mid_close_tick pending size true (run ts s)).published
        ≡ some (current (mid_close_tick pending size true (run ts s)).state)
  run-current ts pending size s h w idle =
      tick-current pending size (run ts s) (run-IsFresh ts s h w) idle

-- ===== src/Engine/Apply/Tally.antt =====
-- The count of transactions that `logSync` compares with the node's.
use edgy.Prelude.{
  map, ℕ, suc, ◌+◌, ◌≡◌, Bool, true, not, if◌then◌else◌, ◌&&◌, if_keeps, Option, none, some, List,
  [], ◌∷◌, length, refl, ap, ◌∙◌, arith, All, All-map, map,
}
use edgy.Containers.Eq.{Eq}
use edgy.Books.{Xrpl}
use edgy.Builder.{set_open}
use edgy.Builder.Items.{Codec}
use edgy.Engine.Meta.{Fields, State}
use edgy.Engine.Queue.{apply_txs_match_node, should_apply_stream_tx}
use edgy.Engine.Stream.{StreamMetaStats, apply_json_affected_nodes}
use edgy.Engine.Apply.{
  HexMeta, JsonMeta, TxMsg, Follower, empty, bad_hex, bad_meta, nodes, hex, object, neither,
  transaction, finish_tx, finish_json, without_meta, add_stats, throws, apply_hex, apply_meta,
  apply_transaction, accepts, apply_message, apply_batch, number_of,
}

module _ {A T D W : Type 0} where
  -- What is compared with the `txn_count` of the close before.
  abbrev pub tally : Follower A T D W → ℕ
  tally s = s.stats.txs + s.stats.no_meta

  -- What decides whether a transaction is accepted.
  abbrev gate : Follower A T D W → Bool × ℕ
  gate s = (s.ready, s.current_seq)

module _ {A T D F W : Type 0} ⦃a : Eq A⦄ ⦃t : Eq T⦄ ⦃d : Eq D⦄ (lib : Xrpl A T)
    (codec : Codec A D W) (fields : Fields A D F) where
  Counts : Follower A T D W → Follower A T D W → Type 0
  Counts s r = (tally r ≡ suc (tally s)) × (gate r ≡ gate s)

  finish_tx-Counts :
      (r : StreamMetaStats × State A T D W) (s : Follower A T D W)
      → Counts s (finish_tx lib codec fields r s)
  unfolding finish_tx add_stats Counts
  finish_tx-Counts r s = (omega arith, refl)

  without_meta-Counts : (s : Follower A T D W) → Counts s (without_meta lib codec fields s)
  unfolding without_meta Counts
  without_meta-Counts s = (omega arith, refl)

  finish_json-Counts :
      (r : Option StreamMetaStats × State A T D W) (s : Follower A T D W)
      → Counts s (finish_json lib codec fields r s)
  unfolding finish_json
  finish_json-Counts (none, state) s =
      unfold Counts in without_meta-Counts (record s { state = state })
  finish_json-Counts (some st, state) s = finish_tx-Counts (st, state) s

  apply_hex-Counts :
      (h : HexMeta F) (s : Follower A T D W) → Counts s (apply_hex lib codec fields h s)
  unfolding apply_hex
  apply_hex-Counts empty s = without_meta-Counts s
  apply_hex-Counts bad_hex s = without_meta-Counts s
  apply_hex-Counts bad_meta s = without_meta-Counts s
  apply_hex-Counts (nodes ns) s = finish_tx-Counts _ s

  apply_meta-Counts :
      (msg : TxMsg F) (s : Follower A T D W) → Counts s (apply_meta lib codec fields msg s)
  unfolding apply_meta
  apply_meta-Counts msg s = of_meta msg.meta
    where
      of_blob :
          (o : Option (HexMeta F))
          → Counts s (elim o as (λ _. Follower A T D W) [
            | none ↦ without_meta lib codec fields s
            | some h ↦ apply_hex lib codec fields h s
          ])
      of_blob none = without_meta-Counts s
      of_blob (some h) = apply_hex-Counts h s

      of_meta :
          (o : Option (JsonMeta F))
          → Counts s (elim o as (λ _. Follower A T D W) [
            | some (hex h) ↦ apply_hex lib codec fields h s
            | some (object items) ↦
                finish_json lib codec fields
                  (apply_json_affected_nodes lib codec fields items s.state)
                  s
            | some neither ↦ without_meta lib codec fields s
            | none ↦ elim msg.meta_blob [
              | none ↦ without_meta lib codec fields s
              | some h ↦ apply_hex lib codec fields h s
            ]
          ])
      of_meta (some (hex h)) = apply_hex-Counts h s
      of_meta (some (object items)) =
          finish_json-Counts (apply_json_affected_nodes lib codec fields items s.state) s
      of_meta (some neither) = without_meta-Counts s
      of_meta none = of_blob msg.meta_blob

  apply_transaction-Counts :
      (msg : TxMsg F) (s : Follower A T D W)
      → accepts lib codec fields msg s ≡ true
      → Counts s (apply_transaction lib codec fields msg s).0
        × ((apply_transaction lib codec fields msg s).1 ≡ true)
  unfolding apply_transaction Counts
  apply_transaction-Counts msg s h =
      if_keeps
        (λ (r : Follower A T D W × Bool).
          ((tally r.0 ≡ suc (tally s)) × (gate r.0 ≡ gate s)) × (r.1 ≡ true))
        (accepts lib codec fields msg s)
        (λ _.
          let opened = record s {
            state = record s.state { builder = set_open s.state.builder true };
          } in
          ((unfold Counts in apply_meta-Counts msg opened), refl))
        (λ bad. absurd (ground (arith, bad, h)))

  accepts-gate :
      (msg : TxMsg F) (s r : Follower A T D W)
      → gate r ≡ gate s
      → accepts lib codec fields msg r ≡ accepts lib codec fields msg s
  unfolding accepts
  accepts-gate msg s r q =
      ap
        (λ (g : Bool × ℕ).
          g.0
          && (not (throws msg.ledger_index)
              && (should_apply_stream_tx (number_of msg.ledger_index) g.1
                  && elim msg.validated [ none ↦ true | some b ↦ b ])))
        q

  tally-apply_batch :
      (msgs : List (TxMsg F)) (s : Follower A T D W)
      → All (λ msg. accepts lib codec fields msg s ≡ true) msgs
      → tally (apply_batch lib codec fields (map transaction msgs) s) ≡ length msgs + tally s
  unfolding apply_batch apply_message Counts
  tally-apply_batch [] s h = omega arith
  tally-apply_batch (msg ∷ msgs) s (h, hs) =
      let next = (apply_transaction lib codec fields msg s).0 in
      let rest = apply_batch lib codec fields (map transaction msgs) next in
      let ((counted, same), ends) = apply_transaction-Counts msg s h in
      ap (λ b. tally (if b then rest else next)) ends
      ∙ omega (
        arith,
        counted,
        tally-apply_batch msgs next (
            All-map _ (λ m. accepts lib codec fields m next ≡ true) msgs
              (λ m k. accepts-gate m s next same ∙ k) hs),
      )

  -- The transactions of a ledger that are accepted, one after another, are each counted once, as applied
  -- or as without metadata, whatever their metadata is: with the counters reset by a close, the count is
  -- that of the node and `logSync` finds the two in line.
  pub apply_batch-tally :
      (msgs : List (TxMsg F)) (s : Follower A T D W)
      → All (λ msg. accepts lib codec fields msg s ≡ true) msgs
      → tally s ≡ 0
      → apply_txs_match_node
          (apply_batch lib codec fields (map transaction msgs) s).stats.txs
          (apply_batch lib codec fields (map transaction msgs) s).stats.no_meta
          (length msgs)
        ≡ true
  unfolding apply_txs_match_node
  apply_batch-tally msgs s h z = ground (arith, z, tally-apply_batch msgs s h)

-- ===== src/Engine/Apply.antt =====
-- What the apply thread of `Engine` does with a batch: `applyLedgerClosed` and `applyTransaction`, with
-- `publishBuilder` as they call it, and `midCloseTick` between batches. The lines that `logSync` prints
-- are left out.
pub mod Current
pub mod Fresh
pub mod Chain
pub mod Tally
use edgy.Prelude.{
  ℕ, suc, ◌+◌, ◌%◌, ◌^◌, Bool, true, false, not, ◌&&◌, ltb, leb, ◌==◌, if◌then◌else◌, Option, none,
  some, List, [], ◌∷◌, ◌++◌,
}
use edgy.Containers.Eq.{Eq}
use edgy.Books.{Xrpl}
use edgy.Builder.{Header, Builder, Published, set_header, set_open, publish}
use edgy.Builder.Items.{Item, Codec}
use edgy.Engine.Meta.{MetaNode, Fields, State, apply_meta_node}
use edgy.Engine.Queue.{should_apply_stream_tx}
use edgy.Engine.Stream.{
  StreamMetaStats, JsonItem, note, applied, no_stats, apply_json_affected_nodes,
}

-- A member that is read as a number: an integer that is not negative, a negative one, on which
-- `asUInt` throws, a string with what `stoul` makes of it, or another value.
pub data Number : Type 0 where
  integral : ℕ → Number
  negative : Number
  text : Option ℕ → Number
  other : Number

-- The members of a `ledgerClosed` message. A hash is what a string parses to; `parent_hash` is also
-- asked whether it is a string, and `total_coins` may throw.
pub record ClosedMsg : Type 0 where
  pub ledger_index : Option Number
  pub ledger_hash : Option ℕ
  pub parent_hash : Option (Option ℕ)
  pub account_hash : Option ℕ
  pub transaction_hash : Option ℕ
  pub total_coins : Option (Option ℕ)
  pub txn_count : Option Number

-- Metadata as a string: empty, not hexadecimal, a blob that libxrpl throws on, or its nodes.
pub data HexMeta (F : Type 0) : Type 0 where
  empty bad_hex bad_meta : HexMeta F
  nodes : List (MetaNode F) → HexMeta F

-- The member `meta`.
pub data JsonMeta (F : Type 0) : Type 0 where
  hex : HexMeta F → JsonMeta F
  object : List (JsonItem F) → JsonMeta F
  neither : JsonMeta F

pub record TxMsg (F : Type 0) : Type 0 where
  pub ledger_index : Option Number
  pub validated : Option Bool
  pub meta : Option (JsonMeta F)
  pub meta_blob : Option (HexMeta F)

pub data Message (F : Type 0) : Type 0 where
  closed : ClosedMsg → Message F
  transaction : TxMsg F → Message F

-- The counters between two closes.
pub record ApplyStats : Type 0 where
  pub txs : ℕ
  pub no_meta : ℕ
  pub parse_fail : ℕ
  pub skipped : ℕ
  pub created : ℕ
  pub deleted : ℕ
  pub modified : ℕ
  pub incomplete : ℕ

-- resetApplyStats
abbrev pub reset_stats : ApplyStats
reset_stats = record {
  txs = 0;
  no_meta = 0;
  parse_fail = 0;
  skipped = 0;
  created = 0;
  deleted = 0;
  modified = 0;
  incomplete = 0;
}

-- What the thread sends: the number and the hash of a closed ledger to the handler, and
-- `notifySubscriptions(true)`.
pub data Output : Type 0 where
  ledger_closed : ℕ → ℕ → Output
  revalidate : Output

pub record Follower (A T D W : Type 0) : Type 0 where
  pub state : State A T D W
  pub published : Option (Published (Item A D W))
  pub has_handler : Bool
  pub ready : Bool
  pub need_resync : Bool
  pub dirty : Bool
  pub current_seq : ℕ
  pub prev_close_txs : ℕ
  pub stats : ApplyStats
  pub sent : List Output

abbrev pub word32 : ℕ
word32 = 2 ^ 32

-- The read of a number throws.
unfoldable pub throws : Option Number → Bool
throws (some negative) = true
throws (some (integral n)) = false
throws (some (text o)) = false
throws (some other) = false
throws none = false

-- A number of a message, 0 where there is none. Where the read of it throws it has no value, and this
-- one is not used.
unfoldable pub number_of : Option Number → ℕ
number_of none = 0
number_of (some (integral n)) = n
number_of (some negative) = 0
number_of (some (text (some n))) = n % word32
number_of (some (text none)) = 0
number_of (some other) = 0

-- The sequence that a message gives the header; `none` where it throws.
unfoldable pub fill_seq : Option Number → ℕ → Option ℕ
fill_seq none seq = some seq
fill_seq (some (integral n)) seq = some n
fill_seq (some negative) seq = none
fill_seq (some (text (some n))) seq = some (n % word32)
fill_seq (some (text none)) seq = none
fill_seq (some other) seq = some seq

or_else : Option ℕ → ℕ → ℕ
or_else none n = n
or_else (some m) n = m

fill_parent : Option (Option ℕ) → ℕ → ℕ
unfolding or_else
fill_parent none n = n
fill_parent (some m) n = or_else m n

unfoldable pub fill_drops : Option (Option ℕ) → ℕ → Option ℕ
fill_drops none n = some n
fill_drops (some m) n = m

-- fillHeaderFromLedgerJson
unfoldable pub fill_header : ClosedMsg → Header → Option Header
unfolding fill_seq or_else fill_parent fill_drops
fill_header msg h = elim (fill_seq msg.ledger_index h.seq) [
  | none ↦ none
  | some seq ↦ elim (fill_drops msg.total_coins h.drops) [
    | none ↦ none
    | some drops ↦ some (record {
      seq = seq;
      hash = or_else msg.ledger_hash h.hash;
      parent_hash = fill_parent msg.parent_hash h.parent_hash;
      account_hash = or_else msg.account_hash h.account_hash;
      tx_hash = or_else msg.transaction_hash h.tx_hash;
      drops = drops;
      validated = true;
      accepted = true;
    })
  ]
]

-- The header with its parent, where the message has none.
unfoldable pub chain_header : ClosedMsg → Header → Header → Header
chain_header msg prev h = elim msg.parent_hash [
  | some parent ↦ h
  | none ↦ if prev.hash == 0 then h else record h { parent_hash = prev.hash }
]

-- Whether the message names another parent than the ledger before.
unfoldable pub diverges : ClosedMsg → Header → Header → Bool
diverges msg prev h = elim msg.parent_hash [
  | none ↦ false
  | some parent ↦
      not (prev.seq == 0)
      && (not (prev.hash == 0) && (not (h.parent_hash == 0) && not (h.parent_hash == prev.hash)))
]

unfoldable pub add_stats : StreamMetaStats → ApplyStats → ApplyStats
add_stats n st = record st {
  parse_fail = st.parse_fail + n.parse_fail;
  skipped = st.skipped + n.skipped_unknown;
  created = st.created + n.created;
  deleted = st.deleted + n.deleted;
  modified = st.modified + n.modified;
  incomplete = st.incomplete + n.incomplete;
}

module _ {A T D W : Type 0} where
  -- publishBuilder(false)
  unfoldable pub publish_builder : Follower A T D W → Follower A T D W
  publish_builder s =
      let r = publish s.state.builder in
      record s { state = record s.state { builder = r.0 }; published = some r.1 }

  unfoldable pub set_resync : Bool → Follower A T D W → Follower A T D W
  set_resync b s = if b then record s { need_resync = true } else s

  -- ledgerClosedJson, for the handler
  unfoldable pub send_closed : Header → Follower A T D W → Follower A T D W
  send_closed h s =
      if s.has_handler then record s { sent = s.sent ++ ledger_closed h.seq h.hash ∷ [] } else s

  -- The part of a close after its header is known, and whether it does not throw.
  unfoldable pub close_with : ClosedMsg → Header → Follower A T D W → Follower A T D W × Bool
  unfolding publish_builder send_closed number_of throws
  close_with msg h s =
      let opened = record s {
        state = record s.state { builder = set_open (set_header s.state.builder h) false };
        current_seq = h.seq;
      } in
      let clean = record (publish_builder opened) { dirty = false } in
      let done = record clean { prev_close_txs = number_of msg.txn_count; stats = reset_stats } in
      let told = send_closed h done in
      if throws msg.txn_count
      then (clean, false)
      else (record told { sent = told.sent ++ revalidate ∷ [] }, true)

  -- The state that a message leaves, and whether it does not throw.
  unfoldable pub apply_ledger_closed : ClosedMsg → Follower A T D W → Follower A T D W × Bool
  unfolding number_of throws fill_header chain_header diverges set_resync close_with
  apply_ledger_closed msg s =
      let seq = number_of msg.ledger_index in
      let prev = s.state.builder.header in
      let gap =
        not (seq == 0) && (not (s.current_seq == 0) && ltb ((s.current_seq + 1) % word32) seq) in
      let s' = set_resync gap s in
      let result = elim (fill_header msg prev) as (λ _. Follower A T D W × Bool) [
        | none ↦ (s', false)
        | some h ↦ close_with msg (chain_header msg prev h) (set_resync (diverges msg prev h) s')
      ] in
      if not s.ready
      then (s, true)
      else if throws msg.ledger_index
      then (s, false)
      else if not (seq == 0) && leb seq s.current_seq
      then (s, true)
      else result

-- midCloseTick, by what the pool and the subscriptions show.
module _ {A T D W : Type 0} where
  unfoldable pub mid_close_tick : ℕ → ℕ → Bool → Follower A T D W → Follower A T D W
  unfolding publish_builder
  mid_close_tick pending size live s =
      let fresh = if s.dirty then publish_builder (record s { dirty = false }) else s in
      if ltb size pending
      then s
      else if live
      then record fresh { sent = fresh.sent ++ revalidate ∷ [] }
      else s

module _ {A T D F W : Type 0} ⦃a : Eq A⦄ ⦃t : Eq T⦄ ⦃d : Eq D⦄ (lib : Xrpl A T)
    (codec : Codec A D W) (fields : Fields A D F) where
  -- The nodes of a blob.
  unfoldable pub apply_nodes :
      List (MetaNode F) → StreamMetaStats × State A T D W → StreamMetaStats × State A T D W
  apply_nodes [] r = r
  apply_nodes (node ∷ rest) (st, s) =
      let r = apply_meta_node lib codec fields node s in apply_nodes rest (note r.0 st, r.1)

  -- A transaction is applied, with what was counted of its nodes.
  unfoldable pub finish_tx : StreamMetaStats × State A T D W → Follower A T D W → Follower A T D W
  finish_tx r s =
      let st = add_stats r.0 s.stats in
      record s {
        state = r.1;
        stats = record st { txs = suc st.txs };
        dirty = if applied r.0 == 0 then s.dirty else true;
      }

  unfoldable pub without_meta : Follower A T D W → Follower A T D W
  without_meta s = record s { stats = record s.stats { no_meta = suc s.stats.no_meta } }

  -- A transaction whose JSON metadata was gone through: where that has thrown, the state is kept as
  -- it was left, and nothing is counted but the transaction.
  unfoldable pub finish_json :
      Option StreamMetaStats × State A T D W → Follower A T D W → Follower A T D W
  unfolding finish_tx without_meta
  finish_json (none, state) s = without_meta (record s { state = state })
  finish_json (some st, state) s = finish_tx (st, state) s

  unfoldable pub apply_hex : HexMeta F → Follower A T D W → Follower A T D W
  unfolding apply_nodes finish_tx without_meta
  apply_hex empty s = without_meta s
  apply_hex bad_hex s = without_meta s
  apply_hex bad_meta s = without_meta s
  apply_hex (nodes ns) s = finish_tx (apply_nodes ns (no_stats lib codec fields, s.state)) s

  -- The metadata of a message, `meta` before `meta_blob`.
  unfoldable pub apply_meta : TxMsg F → Follower A T D W → Follower A T D W
  unfolding apply_hex finish_json without_meta
  apply_meta msg s = elim msg.meta [
    | some (hex h) ↦ apply_hex h s
    | some (object items) ↦ finish_json (apply_json_affected_nodes lib codec fields items s.state) s
    | some neither ↦ without_meta s
    | none ↦ elim msg.meta_blob [ none ↦ without_meta s | some h ↦ apply_hex h s ]
  ]

  -- Whether the number of a message can be read and is of this ledger or a later one, and it is not
  -- said to be invalid.
  unfoldable pub accepts : TxMsg F → Follower A T D W → Bool
  unfolding number_of throws
  accepts msg s =
      s.ready
      && (not (throws msg.ledger_index)
          && (should_apply_stream_tx (number_of msg.ledger_index) s.current_seq
              && elim msg.validated [ none ↦ true | some b ↦ b ]))

  -- The state that a message leaves, and whether it does not throw.
  unfoldable pub apply_transaction : TxMsg F → Follower A T D W → Follower A T D W × Bool
  unfolding apply_meta accepts throws
  apply_transaction msg s =
      let opened = record s {
        state = record s.state { builder = set_open s.state.builder true };
      } in
      if accepts msg s
      then (apply_meta msg opened, true)
      else (s, not (s.ready && throws msg.ledger_index))

  unfoldable pub apply_message : Message F → Follower A T D W → Follower A T D W × Bool
  unfolding apply_ledger_closed apply_transaction
  apply_message (closed msg) s = apply_ledger_closed msg s
  apply_message (transaction msg) s = apply_transaction msg s

  -- A message that throws ends the batch.
  unfoldable pub apply_batch : List (Message F) → Follower A T D W → Follower A T D W
  unfolding apply_message
  apply_batch [] s = s
  apply_batch (m ∷ ms) s =
      let r = apply_message m s in let rest = apply_batch ms r.0 in if r.1 then rest else r.0

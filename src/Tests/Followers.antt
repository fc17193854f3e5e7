-- ===== src/Tests/Followers.antt =====
-- Ledger 100 with its close and its transactions.
use edgy.Prelude.{
  Option, Bool, ℕ, ◌≡◌, ◌≢◌, ◌⊎◌, true, false, none, some, List, [], ◌∷◌, map, All, refl, arith,
}
use edgy.Containers.Eq.{nat_eq}
use edgy.Sle.{Sle}
use edgy.Builder.{Header}
use edgy.Engine.Queue.{apply_txs_match_node, should_apply_stream_tx}
use edgy.Engine.Apply.{
  ClosedMsg, TxMsg, Follower, reset_stats, integral, object, bad_hex, closed, transaction,
  number_of, throws, fill_seq, fill_drops, fill_header, chain_header, diverges, set_resync,
  send_closed, publish_builder, close_with, apply_ledger_closed, mid_close_tick, accepts,
  apply_batch,
}
use edgy.Engine.Apply.Current.{current, served, IsFresh}
use edgy.Engine.Apply.Fresh.{
  Turn, batch, tick, run, run-current, sound_turns, sound_turn, all_sound, sound_message,
  sound_meta,
}
use edgy.Engine.Stream.Count.{sound}
use edgy.Engine.Apply.Chain.{Next, apply_ledger_closed-Next}
use edgy.Engine.Apply.Tally.{apply_batch-tally}
use edgy.Engine.Snapshot.{
  Entry, Page, refused, page, answer, load_snapshot, header_of, load_types, load_type, load_entries,
}
use edgy.Engine.Snapshot.Synced.{Synced, load_snapshot-Synced}
use edgy.Tests.Data.{lib, level}
use edgy.Tests.Engines.{codec, fields, start, items}

abbrev header : Header
header = record {
  seq = 100;
  hash = 5;
  parent_hash = 4;
  account_hash = 0;
  tx_hash = 0;
  drops = 0;
  validated = true;
  accepted = true;
}

-- The snapshot is marked dirty.
abbrev follower : Follower ℕ ℕ ℕ (Sle ℕ ℕ)
follower = record {
  state = record start { builder = record start.builder { header = header } };
  published = none;
  has_handler = true;
  ready = true;
  need_resync = false;
  dirty = true;
  current_seq = 100;
  prev_close_txs = 0;
  stats = reset_stats;
  sent = [];
}

abbrev close : ClosedMsg
close = record {
  ledger_index = some (integral 101);
  ledger_hash = some 6;
  parent_hash = none;
  account_hash = none;
  transaction_hash = none;
  total_coins = none;
  txn_count = some (integral 2);
}

abbrev tx : TxMsg ℕ
tx = record {
  ledger_index = some (integral 100);
  validated = some true;
  meta = some (object items);
  meta_blob = none;
}

abbrev blind : TxMsg ℕ
blind = record tx { meta = none; meta_blob = some bad_hex }

in_line : (apply_ledger_closed close follower).0.need_resync ≡ false
unfolding apply_ledger_closed number_of throws fill_header fill_seq fill_drops chain_header diverges
    set_resync close_with publish_builder send_closed
in_line = refl

numbered : number_of close.ledger_index ≢ 0
unfolding number_of
numbered = ground arith

apply_ledger_closed-Next_example :
    ((apply_ledger_closed close follower).0 ≡ follower)
    ⊎ Next follower (apply_ledger_closed close follower).0
apply_ledger_closed-Next_example =
    apply_ledger_closed-Next close follower refl (ground arith) (omega arith) numbered in_line

dirty-IsFresh : IsFresh follower
unfolding IsFresh
dirty-IsFresh c = absurd (ground arith)

abbrev turns : List (Turn ℕ)
turns =
    batch (transaction tx ∷ closed close ∷ []) ∷ tick 0 2 true ∷ batch (transaction tx ∷ []) ∷ []

run-current_example :
    served (mid_close_tick 1 2 true (run lib codec fields turns follower)).published
    ≡ some (current (mid_close_tick 1 2 true (run lib codec fields turns follower)).state)
unfolding sound_turns sound_turn all_sound sound_message sound_meta sound
run-current_example = run-current lib codec fields turns 1 2 follower refl dirty-IsFresh refl

accepted : All (λ msg. accepts lib codec fields msg follower ≡ true) (tx ∷ blind ∷ [])
unfolding accepts number_of throws should_apply_stream_tx
accepted = (refl, (refl, tt))

apply_batch-tally_example :
    apply_txs_match_node
      (apply_batch lib codec fields (map transaction (tx ∷ blind ∷ [])) follower).stats.txs
      (apply_batch lib codec fields (map transaction (tx ∷ blind ∷ [])) follower).stats.no_meta
      2
    ≡ true
apply_batch-tally_example =
    apply_batch-tally lib codec fields (tx ∷ blind ∷ []) follower accepted refl

abbrev directory : ℕ → Option (Entry ℕ ℕ (Sle ℕ ℕ))
directory key = some (record {
  key = key;
  blob = record (level 11 0 none) { key = key };
  sle = some (record (level 11 0 none) { key = key });
})

-- Two pages of directories, and a type that the node does not know.
abbrev types : List (Bool × List (Page ℕ ℕ (Sle ℕ ℕ)))
types =
    (
      false,
      page (some (directory 42 ∷ none ∷ [])) true ∷ page (some (directory 43 ∷ [])) false ∷ [],
    )
    ∷ (true, refused ∷ [])
    ∷ []

snapshot_loaded : (load_snapshot lib codec (answer (some close)) types follower).0 ≡ true
unfolding load_snapshot header_of fill_header fill_seq fill_drops load_types load_type load_entries
snapshot_loaded = refl

load_snapshot-Synced_example :
    Synced lib codec (load_snapshot lib codec (answer (some close)) types follower).1
load_snapshot-Synced_example =
    load_snapshot-Synced lib codec (answer (some close)) types follower snapshot_loaded

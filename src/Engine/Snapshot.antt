-- ===== src/Engine/Snapshot.antt =====
-- `loadSnapshot` of src/edgy/engine.cpp. The answers of the node are given in their order; the text of
-- an error and the lines of progress are left out, and so is `firstSeq_`, which only the status shows.
pub mod Synced
use edgy.Prelude.{
  ℕ, suc, ◌==◌, Bool, true, false, not, ◌&&◌, if◌then◌else◌, Option, none, some, List, [], ◌∷◌,
}
use edgy.Containers.Eq.{Eq}
use edgy.Sle.{Sle}
use edgy.Books.{Xrpl, clear as clear_books}
use edgy.Books.Feed.{add_from_sle}
use edgy.Builder.{Header, Builder, clear, set_header}
use edgy.Builder.Items.{Item, Codec, upsert_raw}
use edgy.Engine.Meta.{State}
use edgy.Engine.Apply.{ClosedMsg, Follower, reset_stats, fill_header, publish_builder}

-- An item of `state` whose key and blob parse: the two, and the object where it decodes.
pub record Entry (A D W : Type 0) : Type 0 where
  pub key : ℕ
  pub blob : W
  pub sle : Option (Sle A D)

-- An answer to `ledger_data`: an error, or the items of `state`, where it is an array, and whether
-- there is a marker. An item that does not parse is none. `thrown` is a request that throws, as after a
-- stop.
pub data Page (A D W : Type 0) : Type 0 where
  thrown : Page A D W
  refused : Page A D W
  page : Option (List (Option (Entry A D W))) → Bool → Page A D W

-- The answer to `ledger`: an error, or the members of `ledger`, where there are some.
pub data LedgerAnswer : Type 0 where
  no_answer : LedgerAnswer
  answer : Option ClosedMsg → LedgerAnswer

-- The header of the answer; none where it throws.
unfoldable pub header_of : LedgerAnswer → Header → Option Header
header_of no_answer h = none
header_of (answer none) h = some h
header_of (answer (some msg)) h = fill_header msg h

abbrev pub no_header : Header
no_header = record {
  seq = 0;
  hash = 0;
  parent_hash = 0;
  account_hash = 0;
  tx_hash = 0;
  drops = 0;
  validated = false;
  accepted = false;
}

module _ {A T D W : Type 0} ⦃a : Eq A⦄ ⦃t : Eq T⦄ ⦃d : Eq D⦄ (lib : Xrpl A T)
    (codec : Codec A D W) where
  unfoldable pub load_entry : Entry A D W → State A T D W → State A T D W
  load_entry x s = record {
    builder = upsert_raw codec x.key x.blob x.sle s.builder;
    books = elim x.sle [ none ↦ s.books | some sle ↦ add_from_sle lib (some sle) s.books ];
  }

  -- The items of a page, and how many are loaded.
  unfoldable pub load_entries : List (Option (Entry A D W)) → State A T D W → ℕ × State A T D W
  unfolding load_entry
  load_entries [] s = (0, s)
  load_entries (none ∷ xs) s = load_entries xs s
  load_entries (some x ∷ xs) s = let rest = load_entries xs (load_entry x s) in (suc rest.0, rest.1)

  -- The pages of one type: whether it ends well, and the state.
  unfoldable pub load_type : Bool → Bool → List (Page A D W) → State A T D W → Bool × State A T D W
  unfolding load_entries
  load_type optional first [] s = (false, s)
  load_type optional first (thrown ∷ pages) s = (false, s)
  load_type optional first (refused ∷ pages) s = (optional, s)
  load_type optional first (page none marker ∷ pages) s =
      if first then (false, s) else (not marker, s)
  load_type optional first (page (some xs) marker ∷ pages) s =
      let batch = load_entries xs s in
      let rest = load_type optional false pages batch.1 in
      if not marker then (true, batch.1) else if batch.0 == 0 then (false, batch.1) else rest

  -- The types, each with whether it is optional and its pages.
  unfoldable pub load_types : List (Bool × List (Page A D W)) → State A T D W → Bool × State A T D W
  unfolding load_type
  load_types [] s = (true, s)
  load_types ((optional, pages) ∷ types) s =
      let r = load_type optional true pages s in
      let rest = load_types types r.1 in if r.0 then rest else r

  -- What is dropped before the first request.
  unfoldable pub forget_ledger : Follower A T D W → Follower A T D W
  forget_ledger s = record s {
    state = record { builder = clear s.state.builder; books = clear_books s.state.books };
    published = none;
    prev_close_txs = 0;
    stats = reset_stats;
  }

  -- Whether the snapshot is loaded, and the state.
  unfoldable pub load_snapshot :
      LedgerAnswer → List (Bool × List (Page A D W)) → Follower A T D W → Bool × Follower A T D W
  unfolding header_of forget_ledger load_types
  load_snapshot ledger types s =
      let cleared = forget_ledger s in
      elim (header_of ledger no_header) [
        | none ↦ (false, cleared)
        | some h ↦
            let r =
              load_types types
                (record cleared.state { builder = set_header cleared.state.builder h }) in
            let loaded = record cleared { state = r.1; current_seq = h.seq } in
            if r.0 then (true, publish_builder loaded) else (false, loaded)
      ]

-- ===== src/Engine/Stream.antt =====
-- `applyJsonAffectedNodes` of src/edgy/engine.cpp: the nodes of a transaction's metadata, as the stream
-- sends them, and what is counted of them.
pub mod Count
pub mod Keeps
pub mod Touched
use edgy.Prelude.{ℕ, suc, ◌+◌, Bool, true, false, if◌then◌else◌, Option, none, some, List, [], ◌∷◌}
use edgy.Containers.Eq.{Eq}
use edgy.Books.{Xrpl, Books}
use edgy.Books.Feed.{remove_from_sle}
use edgy.Builder.Items.{Codec, clone}
use edgy.Engine.Meta.{NodeKind, MetaNode, MetaApply, Fields, State, erase_at, apply_meta_node}

-- `StreamMetaStats`; a message has far fewer than 2 ^ 32 nodes, so the counters do not wrap.
pub record StreamMetaStats : Type 0 where
  pub created : ℕ
  pub modified : ℕ
  pub deleted : ℕ
  pub incomplete : ℕ
  pub none : ℕ
  pub parse_fail : ℕ
  pub skipped_unknown : ℕ

-- A JSON node: whether libxrpl knows its type, `none` where the test of it throws as on a negative
-- number, the key that its index parses to, and what it parses to.
pub record JsonNode (F : Type 0) : Type 0 where
  pub known : Option Bool
  pub key : Option ℕ
  pub parsed : Option (MetaNode F)

-- An item of AffectedNodes, by the three names that it may have objects under.
pub record JsonItem (F : Type 0) : Type 0 where
  pub created_node : Option (JsonNode F)
  pub modified_node : Option (JsonNode F)
  pub deleted_node : Option (JsonNode F)

unfoldable pub note : MetaApply → StreamMetaStats → StreamMetaStats
note MetaApply.created st = record st { created = suc st.created }
note MetaApply.modified st = record st { modified = suc st.modified }
note MetaApply.deleted st = record st { deleted = suc st.deleted }
note MetaApply.incomplete st = record st { incomplete = suc st.incomplete }
note MetaApply.nothing st = record st { none = suc st.none }

unfoldable pub applied : StreamMetaStats → ℕ
applied st = st.created + st.modified + st.deleted + st.incomplete

module _ {A T D F W : Type 0} ⦃a : Eq A⦄ ⦃t : Eq T⦄ ⦃d : Eq D⦄ (lib : Xrpl A T)
    (codec : Codec A D W) (fields : Fields A D F) where
  -- A deleted node of a type that libxrpl does not know is erased by its index.
  pub erase_unknown : ℕ → State A T D W → State A T D W
  erase_unknown key s = elim (clone codec key s.builder) [
    | none ↦ erase_at lib codec fields key s
    | some cur ↦
        erase_at lib codec fields key (record s { books = remove_from_sle lib (some cur) s.books })
  ]

  skip_unknown : Bool → Option ℕ → StreamMetaStats × State A T D W → StreamMetaStats × State A T D W
  unfolding erase_unknown
  skip_unknown true (some key) (st, s) =
      (record st { deleted = suc st.deleted }, erase_unknown key s)
  skip_unknown is_deleted key (st, s) = (record st { skipped_unknown = suc st.skipped_unknown }, s)

  -- The node's name is the field's that it is listed under.
  apply_parsed :
      NodeKind
      → Option (MetaNode F)
      → StreamMetaStats × State A T D W
      → StreamMetaStats × State A T D W
  unfolding note
  apply_parsed kind none (st, s) = (record st { parse_fail = suc st.parse_fail }, s)
  apply_parsed kind (some node) (st, s) =
      let r = apply_meta_node lib codec fields (record node { kind = kind }) s in (note r.0 st, r.1)

  -- A node, with what was counted before it. Where its test throws, the counts are lost and nothing
  -- more is done.
  apply_json_node :
      NodeKind
      → Bool
      → Option (JsonNode F)
      → Option StreamMetaStats × State A T D W
      → Option StreamMetaStats × State A T D W
  unfolding skip_unknown apply_parsed
  apply_json_node kind is_deleted none r = r
  apply_json_node kind is_deleted (some node) (none, s) = (none, s)
  apply_json_node kind is_deleted (some node) (some st, s) = elim node.known [
    | none ↦ (none, s)
    | some known ↦
        let r =
          if known
          then apply_parsed kind node.parsed (st, s)
          else skip_unknown is_deleted node.key (st, s) in
        (some r.0, r.1)
  ]

  apply_item :
      JsonItem F → Option StreamMetaStats × State A T D W → Option StreamMetaStats × State A T D W
  unfolding apply_json_node
  apply_item item r = apply_json_node NodeKind.deleted_node true item.deleted_node (
      apply_json_node NodeKind.modified_node false item.modified_node
        (apply_json_node NodeKind.created_node false item.created_node r))

  apply_items :
      List (JsonItem F)
      → Option StreamMetaStats × State A T D W
      → Option StreamMetaStats × State A T D W
  unfolding apply_item
  apply_items [] r = r
  apply_items (item ∷ items) r = apply_items items (apply_item item r)

  abbrev pub no_stats : StreamMetaStats
  no_stats = record {
    created = 0;
    modified = 0;
    deleted = 0;
    incomplete = 0;
    none = 0;
    parse_fail = 0;
    skipped_unknown = 0;
  }

  -- The nodes are the items of an array that are objects. What was counted, unless it throws, and
  -- the state that it leaves either way.
  pub apply_json_affected_nodes :
      List (JsonItem F) → State A T D W → Option StreamMetaStats × State A T D W
  unfolding apply_items
  apply_json_affected_nodes items s = apply_items items (some no_stats, s)

-- ===== src/Engine/Stream/Keeps.antt =====
-- The stream keeps the builder and the book graph in order.
use edgy.Prelude.{if◌then◌else◌, ℕ, Bool, true, false, Option, none, some, List, [], ◌∷◌}
use edgy.Containers.Eq.{Eq}
use edgy.Sle.{Sle}
use edgy.Books.{Xrpl}
use edgy.Books.Feed.{add_from_sle, remove_from_sle}
use edgy.Books.Consistent.{IsXrp, IsConsistent}
use edgy.Books.Reach.{step, step-IsConsistent, added, removed}
use edgy.Builder.{erase}
use edgy.Builder.Valid as Valid
use edgy.Builder.Valid.{put-IsValid, erase-IsValid}
use edgy.Builder.Items.{Codec, upsert, clone}
use edgy.Engine.Meta.{NodeKind, MetaNode, Fields, State, erase_at}
use edgy.Engine.Meta.Keeps.{apply_meta_node_keeps, erase_at_keeps}
use edgy.Engine.Stream.{
  StreamMetaStats, JsonNode, JsonItem, skip_unknown, erase_unknown, apply_parsed, apply_json_node,
  apply_item, apply_items, apply_json_affected_nodes,
}

module _ {ℓ} {A T D F W : Type 0} ⦃a : Eq A⦄ ⦃t : Eq T⦄ ⦃d : Eq D⦄ (lib : Xrpl A T)
    (codec : Codec A D W) (fields : Fields A D F) (I : State A T D W → Type ℓ)
    (removes : (sle : Sle A D) (s : State A T D W)
      → I s
      → I (record s { books = remove_from_sle lib (some sle) s.books }))
    (adds : (sle : Sle A D) (s : State A T D W)
      → I s
      → I (record s { books = add_from_sle lib (some sle) s.books }))
    (erases : (key : ℕ) (s : State A T D W) → I s → I (record s { builder = erase s.builder key }))
    (stores : (sle : Sle A D) (s : State A T D W)
      → I s
      → I (record s { builder = upsert codec (some sle) s.builder })) where
  erased : (key : ℕ) (s : State A T D W) → I s → I (erase_at lib codec fields key s)
  erased key s i = erase_at_keeps lib codec fields I removes adds erases stores key s i

  erase_unknown_keeps :
      (key : ℕ) (s : State A T D W) → I s → I (erase_unknown lib codec fields key s)
  unfolding erase_unknown
  erase_unknown_keeps key s i = from_clone (clone codec key s.builder)
    where
      from_clone :
          (o : Option (Sle A D))
          → I (elim o [
            | none ↦ erase_at lib codec fields key s
            | some cur ↦
                erase_at lib codec fields key
                  (record s { books = remove_from_sle lib (some cur) s.books })
          ])
      from_clone none = erased key s i
      from_clone (some cur) = erased key _ (removes cur s i)

  skip_unknown_keeps :
      (b : Bool) (key : Option ℕ) (r : StreamMetaStats × State A T D W)
      → I r.1
      → I (skip_unknown lib codec fields b key r).1
  unfolding skip_unknown
  skip_unknown_keeps true (some key) (st, s) i = erase_unknown_keeps key s i
  skip_unknown_keeps true none (st, s) i = i
  skip_unknown_keeps false key (st, s) i = i

  apply_parsed_keeps :
      (kind : NodeKind) (node : Option (MetaNode F)) (r : StreamMetaStats × State A T D W)
      → I r.1
      → I (apply_parsed lib codec fields kind node r).1
  unfolding apply_parsed
  apply_parsed_keeps kind none (st, s) i = i
  apply_parsed_keeps kind (some node) (st, s) i =
      apply_meta_node_keeps lib codec fields I removes adds erases stores _ s i

  apply_json_node_keeps :
      (kind : NodeKind) (b : Bool) (node : Option (JsonNode F))
      (r : Option StreamMetaStats × State A T D W)
      → I r.1
      → I (apply_json_node lib codec fields kind b node r).1
  unfolding apply_json_node
  apply_json_node_keeps kind b none r i = i
  apply_json_node_keeps kind b (some node) (none, s) i = i
  apply_json_node_keeps kind b (some node) (some st, s) i = of_known node.known
    where
      of_known :
          (o : Option Bool)
          → I
              (elim o as (λ _. Option StreamMetaStats × State A T D W) [
                | none ↦ (none, s)
                | some known ↦
                    let r =
                      if known
                      then apply_parsed lib codec fields kind node.parsed (st, s)
                      else skip_unknown lib codec fields b node.key (st, s) in
                    (some r.0, r.1)
              ]).1
      of_known none = i
      of_known (some true) = apply_parsed_keeps kind node.parsed (st, s) i
      of_known (some false) = skip_unknown_keeps b node.key (st, s) i

  apply_items_keeps :
      (items : List (JsonItem F)) (r : Option StreamMetaStats × State A T D W)
      → I r.1
      → I (apply_items lib codec fields items r).1
  unfolding apply_items apply_item
  apply_items_keeps [] r i = i
  apply_items_keeps (item ∷ items) r i =
      apply_items_keeps items (apply_item lib codec fields item r) (
        apply_json_node_keeps NodeKind.deleted_node true item.deleted_node _ (
          apply_json_node_keeps NodeKind.modified_node false item.modified_node _
            (apply_json_node_keeps NodeKind.created_node false item.created_node r i)))

  pub apply_json_affected_nodes_keeps :
      (items : List (JsonItem F)) (s : State A T D W)
      → I s
      → I (apply_json_affected_nodes lib codec fields items s).1
  unfolding apply_json_affected_nodes
  apply_json_affected_nodes_keeps items s i = apply_items_keeps items _ i

module _ {A T D F W : Type 0} ⦃a : Eq A⦄ ⦃t : Eq T⦄ ⦃d : Eq D⦄ (lib : Xrpl A T)
    (codec : Codec A D W) (fields : Fields A D F) (xrp : A) (native : IsXrp lib xrp) where
  -- the builder and the book graph are in order
  pub record InOrder (s : State A T D W) : Type 0 where
    pub builder_valid : Valid.IsValid s.builder
    pub books_consistent : IsConsistent lib xrp s.books

  -- Whatever a transaction's metadata holds, applying it keeps the builder's invariant, and the maps
  -- of the book graph consistent with each other, also where it throws midway.
  pub apply_json_affected_nodes-InOrder :
      (items : List (JsonItem F)) (s : State A T D W)
      → InOrder s
      → InOrder (apply_json_affected_nodes lib codec fields items s).1
  unfolding step upsert
  apply_json_affected_nodes-InOrder =
      apply_json_affected_nodes_keeps lib codec fields InOrder
        (λ sle s w. record {
          builder_valid = w.builder_valid;
          books_consistent =
              step-IsConsistent lib xrp native s.books (removed (some sle)) w.books_consistent;
        })
        (λ sle s w. record {
          builder_valid = w.builder_valid;
          books_consistent =
              step-IsConsistent lib xrp native s.books (added (some sle)) w.books_consistent;
        })
        (λ key s w. record {
          builder_valid = erase-IsValid s.builder w.builder_valid key;
          books_consistent = w.books_consistent;
        })
        (λ sle s w. record {
          builder_valid = put-IsValid s.builder w.builder_valid sle.key _;
          books_consistent = w.books_consistent;
        })

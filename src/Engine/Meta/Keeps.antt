-- ===== src/Engine/Meta/Keeps.antt =====
-- What the four changes of the state keep, a meta node keeps.
use edgy.Prelude.{ℕ, Option, none, some, List, if_keeps}
use edgy.Containers.Eq.{Eq}
use edgy.Sle.{Sle}
use edgy.Books.{Xrpl}
use edgy.Books.Feed.{add_from_sle, remove_from_sle}
use edgy.Builder.{erase}
use edgy.Builder.Items.{Codec, upsert, clone}
use edgy.Engine.Meta.{
  inner_of, apply_indexed, apply_meta_node, NodeKind, MetaNode, MetaApply, Fields, State,
  remove_old, erase_at, place, place_incomplete, place_complete, merge_node, merge,
  sle_from_meta_node, start_from, offer_complete, is_offer,
}

module _ {ℓ} {A T D F W : Type 0} ⦃a : Eq A⦄ ⦃t : Eq T⦄ ⦃d : Eq D⦄ (lib : Xrpl A T)
    (codec : Codec A D W) (fields : Fields A D F) (I : State A T D W → Type ℓ)
    (removes : (sle : Sle A D) (s : State A T D W)
      → I s
      → I (record s { books = remove_from_sle lib (some sle) s.books }))
    (adds : (sle : Sle A D) (s : State A T D W)
      → I s
      → I (record s { books = add_from_sle lib (some sle) s.books }))
    (erases : (key : ℕ) (s : State A T D W) → I s → I (record s { builder = erase s.builder key }))
    (stores : (sle : Sle A D) (s : State A T D W)
      → I s
      → I (record s { builder = upsert codec (some sle) s.builder })) where
  pub erase_at_keeps : (key : ℕ) (s : State A T D W) → I s → I (erase_at lib codec fields key s)
  unfolding erase_at
  erase_at_keeps key s i = erases key s i

  remove_old_keeps :
      (node : MetaNode F) (key : ℕ) (s : State A T D W)
      → I s
      → I (remove_old lib codec fields node key s)
  unfolding remove_old
  remove_old_keeps node key s i = from_clone (clone codec key s.builder)
    where
      from_fields :
          (o : Option (Sle A D))
          → I (elim o [
            | none ↦ s
            | some sle ↦ record s { books = remove_from_sle lib (some sle) s.books }
          ])
      from_fields none = i
      from_fields (some sle) = removes sle s i

      from_final :
          (o : Option (List F))
          → I (elim o [
            | none ↦ s
            | some inner ↦ elim (sle_from_meta_node fields node inner key) [
              | none ↦ s
              | some sle ↦ record s { books = remove_from_sle lib (some sle) s.books }
            ]
          ])
      from_final none = i
      from_final (some inner) = from_fields (sle_from_meta_node fields node inner key)

      from_clone :
          (o : Option (Sle A D))
          → I (elim o [
            | some cur ↦ record s { books = remove_from_sle lib (some cur) s.books }
            | none ↦ elim node.final_fields [
              | none ↦ s
              | some inner ↦ elim (sle_from_meta_node fields node inner key) [
                | none ↦ s
                | some sle ↦ record s { books = remove_from_sle lib (some sle) s.books }
              ]
            ]
          ])
      from_clone (some cur) = removes cur s i
      from_clone none = from_final node.final_fields

  place_keeps :
      (kind : NodeKind) (key : ℕ) (sle : Sle A D) (s : State A T D W)
      → I s
      → I (place lib codec fields kind key sle s).1
  unfolding place place_incomplete place_complete
  place_keeps kind key sle s i =
      if_keeps (λ (r : MetaApply × State A T D W). I r.1) (offer_complete sle)
        (λ _. stores sle _ (adds sle s i))
        (λ _.
          if_keeps I (is_offer sle) (λ _. erase_at_keeps key _ (removes sle s i))
            (λ _. stores sle _ (removes sle s i)))

  merge_node_keeps :
      (node : MetaNode F) (key : ℕ) (inner : List F) (s : State A T D W)
      → I s
      → I (merge_node lib codec fields node key inner s).1
  unfolding merge_node
  merge_node_keeps node key inner s i =
      placed (merge fields inner (start_from lib codec fields node key s))
    where
      placed :
          (o : Option (Sle A D))
          → I
              (elim o as (λ _. MetaApply × State A T D W) [
                | none ↦ (MetaApply.nothing, s)
                | some sle ↦ place lib codec fields node.kind key sle s
              ]).1
      placed none = i
      placed (some sle) = place_keeps node.kind key sle s i

  apply_indexed_keeps :
      (node : MetaNode F) (key : ℕ) (s : State A T D W)
      → I s
      → I (apply_indexed lib codec fields node key s).1
  unfolding apply_indexed
  apply_indexed_keeps node key s i = by_kind node.kind
    where
      merged :
          (o : Option (List F))
          → I
              (elim o as (λ _. MetaApply × State A T D W) [
                | none ↦ (MetaApply.nothing, s)
                | some inner ↦ merge_node lib codec fields node key inner s
              ]).1
      merged none = i
      merged (some inner) = merge_node_keeps node key inner s i

      by_kind :
          (k : NodeKind)
          → I
              (elim k as (λ _. MetaApply × State A T D W) [
                | NodeKind.deleted_node ↦ (
                  MetaApply.deleted,
                  erase_at lib codec fields key (remove_old lib codec fields node key s),
                )
                | _ ↦ elim (inner_of fields node) [
                  | none ↦ (MetaApply.nothing, s)
                  | some inner ↦ merge_node lib codec fields node key inner s
                ]
              ]).1
      by_kind NodeKind.deleted_node = erase_at_keeps key _ (remove_old_keeps node key s i)
      by_kind NodeKind.created_node = merged (inner_of fields node)
      by_kind NodeKind.modified_node = merged (inner_of fields node)
      by_kind NodeKind.other_node = merged (inner_of fields node)

  pub apply_meta_node_keeps :
      (node : MetaNode F) (s : State A T D W) → I s → I (apply_meta_node lib codec fields node s).1
  unfolding apply_meta_node
  apply_meta_node_keeps node s i = by_kind node.kind
    where
      indexed :
          (o : Option ℕ)
          → I
              (elim o as (λ _. MetaApply × State A T D W) [
                | none ↦ (MetaApply.nothing, s)
                | some key ↦ apply_indexed lib codec fields node key s
              ]).1
      indexed none = i
      indexed (some key) = apply_indexed_keeps node key s i

      by_kind :
          (k : NodeKind)
          → I
              (elim k as (λ _. MetaApply × State A T D W) [
                | NodeKind.other_node ↦ (MetaApply.nothing, s)
                | _ ↦ elim node.ledger_index [
                  | none ↦ (MetaApply.nothing, s)
                  | some key ↦ apply_indexed lib codec fields node key s
                ]
              ]).1
      by_kind NodeKind.other_node = i
      by_kind NodeKind.created_node = indexed node.ledger_index
      by_kind NodeKind.modified_node = indexed node.ledger_index
      by_kind NodeKind.deleted_node = indexed node.ledger_index

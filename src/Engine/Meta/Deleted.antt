-- ===== src/Engine/Meta/Deleted.antt =====
-- A deleted node takes its object out of the builder.
use edgy.Prelude.{ℕ, ◌≡◌, Option, none, some, List, refl, ap, ◌∙◌}
use edgy.Containers.Eq.{Eq, nat_eq, if_eq}
use edgy.Sle.{Sle}
use edgy.Books.{Xrpl}
use edgy.Books.Feed.{remove_from_sle}
use edgy.Builder.{erase, item_of}
use edgy.Builder.Valid.{IsValid}
use edgy.Builder.Contents.{item_of-erase}
use edgy.Builder.Items.{Codec, clone}
use edgy.Engine.Meta.{
  NodeKind, MetaNode, MetaApply, Fields, State, remove_old, erase_at, apply_indexed,
  apply_meta_node, sle_from_meta_node,
}

module _ {A T D F W : Type 0} ⦃a : Eq A⦄ ⦃t : Eq T⦄ ⦃d : Eq D⦄ (lib : Xrpl A T)
    (codec : Codec A D W) (fields : Fields A D F) where
  remove_old-builder :
      (node : MetaNode F) (key : ℕ) (s : State A T D W)
      → (remove_old lib codec fields node key s).builder ≡ s.builder
  unfolding remove_old
  remove_old-builder node key s = from_clone (clone codec key s.builder)
    where
      from_fields :
          (o : Option (Sle A D))
          → (elim o as (λ _. State A T D W) [
            | none ↦ s
            | some sle ↦ record s { books = remove_from_sle lib (some sle) s.books }
          ]).builder
            ≡ s.builder
      from_fields none = refl
      from_fields (some sle) = refl

      from_final :
          (o : Option (List F))
          → (elim o as (λ _. State A T D W) [
            | none ↦ s
            | some inner ↦ elim (sle_from_meta_node fields node inner key) [
              | none ↦ s
              | some sle ↦ record s { books = remove_from_sle lib (some sle) s.books }
            ]
          ]).builder
            ≡ s.builder
      from_final none = refl
      from_final (some inner) = from_fields (sle_from_meta_node fields node inner key)

      from_clone :
          (o : Option (Sle A D))
          → (elim o as (λ _. State A T D W) [
            | some cur ↦ record s { books = remove_from_sle lib (some cur) s.books }
            | none ↦ elim node.final_fields [
              | none ↦ s
              | some inner ↦ elim (sle_from_meta_node fields node inner key) [
                | none ↦ s
                | some sle ↦ record s { books = remove_from_sle lib (some sle) s.books }
              ]
            ]
          ]).builder
            ≡ s.builder
      from_clone (some cur) = refl
      from_clone none = from_final node.final_fields

  -- A deleted node is counted as such, its object is gone, and every other object is what it was,
  -- whether the object was there or not and whether its last fields parse or not.
  pub apply_meta_node-deleted :
      (node : MetaNode F) (key j : ℕ) (s : State A T D W)
      → IsValid s.builder
      → node.kind ≡ NodeKind.deleted_node
      → node.ledger_index ≡ some key
      → let r = apply_meta_node lib codec fields node s in
        (r.0 ≡ MetaApply.deleted) × (item_of r.1.builder j ≡ if_eq key j none (item_of s.builder j))
  unfolding apply_meta_node apply_indexed erase_at
  apply_meta_node-deleted node key j s w k i =
      rw (k, i)
        (
          refl,
          ap (λ b. item_of (erase b key) j) (remove_old-builder node key s)
              ∙ item_of-erase s.builder key j w,
        )

-- ===== src/Engine/Meta/Told.antt =====
-- A node that is told to do nothing changes nothing.
use edgy.Prelude.{◌⊎◌, ℕ, ◌≡◌, ◌≢◌, Option, none, some, List, arith, refl, inl, inr}
use edgy.Containers.Eq.{Eq}
use edgy.Sle.{Sle}
use edgy.Books.{Xrpl}
use edgy.Builder.Items.{Codec}
use edgy.Engine.Meta.{
  MetaApply, NodeKind, MetaNode, Fields, State, apply_meta_node, apply_indexed, merge_node, place,
  merge, start_from, inner_of, erase_at, remove_old,
}

module _ {A T D W : Type 0} where
  -- The outcome is not nothing, or the state is the same.
  abbrev pub Told : State A T D W → MetaApply × State A T D W → Type 0
  Told s r = (r.0 ≢ MetaApply.nothing) ⊎ (r.1 ≡ s)

module _ {A T D F W : Type 0} ⦃a : Eq A⦄ ⦃t : Eq T⦄ ⦃d : Eq D⦄ (lib : Xrpl A T)
    (codec : Codec A D W) (fields : Fields A D F) where
  place-Told :
      (kind : NodeKind) (key : ℕ) (sle : Sle A D) (s : State A T D W)
      → Told s (place lib codec fields kind key sle s)
  unfolding place
  place-Told kind key sle s = inl (ground arith)

  merge_node-Told :
      (node : MetaNode F) (key : ℕ) (inner : List F) (s : State A T D W)
      → Told s (merge_node lib codec fields node key inner s)
  unfolding merge_node
  merge_node-Told node key inner s =
      of_merged (merge fields inner (start_from lib codec fields node key s))
    where
      of_merged :
          (o : Option (Sle A D))
          → Told s (elim o as (λ _. MetaApply × State A T D W) [
            | none ↦ (MetaApply.nothing, s)
            | some sle ↦ place lib codec fields node.kind key sle s
          ])
      of_merged none = inr refl
      of_merged (some sle) = place-Told node.kind key sle s

  of_inner :
      (node : MetaNode F) (key : ℕ) (o : Option (List F)) (s : State A T D W)
      → Told s (elim o as (λ _. MetaApply × State A T D W) [
        | none ↦ (MetaApply.nothing, s)
        | some inner ↦ merge_node lib codec fields node key inner s
      ])
  of_inner node key none s = inr refl
  of_inner node key (some inner) s = merge_node-Told node key inner s

  apply_indexed-Told :
      (node : MetaNode F) (key : ℕ) (s : State A T D W)
      → Told s (apply_indexed lib codec fields node key s)
  unfolding apply_indexed
  apply_indexed-Told node key s = by_kind node.kind
    where
      by_kind :
          (k : NodeKind)
          → Told s (elim k as (λ _. MetaApply × State A T D W) [
            | NodeKind.deleted_node ↦ (
              MetaApply.deleted,
              erase_at lib codec fields key (remove_old lib codec fields node key s),
            )
            | _ ↦ elim (inner_of fields node) [
              | none ↦ (MetaApply.nothing, s)
              | some inner ↦ merge_node lib codec fields node key inner s
            ]
          ])
      by_kind NodeKind.deleted_node = inl (ground arith)
      by_kind NodeKind.created_node = of_inner node key (inner_of fields node) s
      by_kind NodeKind.modified_node = of_inner node key (inner_of fields node) s
      by_kind NodeKind.other_node = of_inner node key (inner_of fields node) s

  pub apply_meta_node-Told :
      (node : MetaNode F) (s : State A T D W) → Told s (apply_meta_node lib codec fields node s)
  unfolding apply_meta_node
  apply_meta_node-Told node s = by_kind node.kind
    where
      indexed :
          (o : Option ℕ)
          → Told s (elim o as (λ _. MetaApply × State A T D W) [
            | none ↦ (MetaApply.nothing, s)
            | some key ↦ apply_indexed lib codec fields node key s
          ])
      indexed none = inr refl
      indexed (some key) = apply_indexed-Told node key s

      by_kind :
          (k : NodeKind)
          → Told s (elim k as (λ _. MetaApply × State A T D W) [
            | NodeKind.other_node ↦ (MetaApply.nothing, s)
            | _ ↦ elim node.ledger_index [
              | none ↦ (MetaApply.nothing, s)
              | some key ↦ apply_indexed lib codec fields node key s
            ]
          ])
      by_kind NodeKind.other_node = inr refl
      by_kind NodeKind.created_node = indexed node.ledger_index
      by_kind NodeKind.modified_node = indexed node.ledger_index
      by_kind NodeKind.deleted_node = indexed node.ledger_index

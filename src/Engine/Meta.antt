-- ===== src/Engine/Meta.antt =====
-- `applyMetaNode` of src/edgy/engine.cpp: what a node of a transaction's metadata does to the builder
-- and to the book graph.
-- A node is what STParsedJSONObject makes of the JSON node that slimJsonMetaNode left; the object
-- fields of a node are objects.
pub mod Keeps
pub mod Deleted
pub mod Told
use edgy.Prelude.{
  ℕ, Bool, true, false, not, ◌&&◌, ◌==◌, if◌then◌else◌, Option, none, some, List, [], ◌∷◌,
}
use edgy.Containers.Eq.{Eq}
use edgy.Sle.{Sle, EntryType, present}
use edgy.Books.{Xrpl, Books}
use edgy.Books.Feed.{add_from_sle, remove_from_sle}
use edgy.Builder.{Builder, erase}
use edgy.Builder.Items.{Item, Codec, upsert, clone}

-- The name of a node.
pub data NodeKind : Type 0 where
  created_node modified_node deleted_node other_node : NodeKind

-- A parsed node, with fields of type F and the number of a ledger entry type.
pub record MetaNode (F : Type 0) : Type 0 where
  pub kind : NodeKind
  pub ledger_index : Option ℕ
  pub ledger_entry_type : Option ℕ
  pub new_fields : Option (List F)
  pub final_fields : Option (List F)

-- What libxrpl does with fields: whether they name an entry type, the same fields with one, the
-- object of them at a key, an empty object of an entry type, and setting one field. The last three
-- may throw.
pub record Fields (A D F : Type 0) : Type 0 where
  pub has_entry_type : List F → Bool
  pub set_entry_type : ℕ → List F → List F
  pub object : List F → ℕ → Option (Sle A D)
  pub empty_object : ℕ → ℕ → Option (Sle A D)
  pub lt_any : ℕ
  pub set : F → Sle A D → Option (Sle A D)

pub data MetaApply : Type 0 where
  nothing created modified deleted incomplete : MetaApply

-- present, and of an amount that is not zero
nonzero : Option ℕ → Bool
nonzero none = false
nonzero (some n) = not (n == 0)

module _ {A D : Type 0} where
  unfoldable pub offer_complete : Sle A D → Bool
  unfolding nonzero
  offer_complete sle = elim sle.entry_type [
    | EntryType.amm ↦
        present sle.lp_token_balance
        && (present sle.asset && (present sle.asset2 && nonzero sle.lp_token_balance))
    | EntryType.offer ↦
        present sle.taker_pays
        && (present sle.taker_gets
            && (present sle.book_directory
                && (present sle.account && (nonzero sle.taker_pays && nonzero sle.taker_gets))))
    | _ ↦ true
  ]

  is_offer : Sle A D → Bool
  is_offer sle = elim sle.entry_type [ EntryType.offer ↦ true | _ ↦ false ]

module _ {A D F : Type 0} (fields : Fields A D F) where
  -- sleFromMetaNode
  sle_from_meta_node : MetaNode F → List F → ℕ → Option (Sle A D)
  sle_from_meta_node node inner key = elim node.ledger_entry_type [
    | none ↦ fields.object inner key
    | some type ↦
        if fields.has_entry_type inner
        then fields.object inner key
        else fields.object (fields.set_entry_type type inner) key
  ]

  entry_type_of : MetaNode F → ℕ
  entry_type_of node = elim node.ledger_entry_type [ none ↦ fields.lt_any | some type ↦ type ]

  -- sle->set of each field
  set_all : List F → Sle A D → Option (Sle A D)
  set_all [] sle = some sle
  set_all (f ∷ fs) sle = elim (fields.set f sle) [ none ↦ none | some next ↦ set_all fs next ]

  merge : List F → Option (Sle A D) → Option (Sle A D)
  unfolding set_all
  merge inner none = none
  merge inner (some sle) = set_all inner sle

  inner_of : MetaNode F → Option (List F)
  inner_of node = elim node.kind [
    | NodeKind.created_node ↦ node.new_fields
    | NodeKind.modified_node ↦ node.final_fields
    | _ ↦ none
  ]

-- The builder and the book graph that a node is applied to.
pub record State (A T D W : Type 0) : Type 0 where
  pub builder : Builder (Item A D W)
  pub books : Books A T D

module _ {A T D F W : Type 0} ⦃a : Eq A⦄ ⦃t : Eq T⦄ ⦃d : Eq D⦄ (lib : Xrpl A T)
    (codec : Codec A D W) (fields : Fields A D F) where
  pub remove_old : MetaNode F → ℕ → State A T D W → State A T D W
  unfolding sle_from_meta_node
  remove_old node key s = elim (clone codec key s.builder) [
    | some cur ↦ record s { books = remove_from_sle lib (some cur) s.books }
    | none ↦ elim node.final_fields [
      | none ↦ s
      | some inner ↦ elim (sle_from_meta_node fields node inner key) [
        | none ↦ s
        | some sle ↦ record s { books = remove_from_sle lib (some sle) s.books }
      ]
    ]
  ]

  pub erase_at : ℕ → State A T D W → State A T D W
  erase_at key s = record s { builder = erase s.builder key }

  -- The object that the fields are set in: the current one, or an empty one.
  start_from : MetaNode F → ℕ → State A T D W → Option (Sle A D)
  unfolding entry_type_of
  start_from node key s = elim (clone codec key s.builder) [
    | some sle ↦ some sle
    | none ↦ fields.empty_object (entry_type_of fields node) key
  ]

  -- An object that is not a complete offer or AMM leaves the graph, an offer the builder as well.
  pub place_incomplete : ℕ → Sle A D → State A T D W → State A T D W
  unfolding erase_at is_offer
  place_incomplete key sle s =
      let s' : State A T D W = record s { books = remove_from_sle lib (some sle) s.books } in
      if is_offer sle
      then erase_at key s'
      else record s' { builder = upsert codec (some sle) s.builder }

  pub place_complete : Sle A D → State A T D W → State A T D W
  place_complete sle s = record {
    builder = upsert codec (some sle) s.builder;
    books = add_from_sle lib (some sle) s.books;
  }

  -- What is done with the merged object.
  pub place : NodeKind → ℕ → Sle A D → State A T D W → MetaApply × State A T D W
  unfolding place_incomplete place_complete
  place kind key sle s =
      if offer_complete sle
      then (
        elim kind [ NodeKind.created_node ↦ MetaApply.created | _ ↦ MetaApply.modified ],
        place_complete sle s,
      )
      else (MetaApply.incomplete, place_incomplete key sle s)

  -- A node whose fields throw changes nothing.
  pub merge_node : MetaNode F → ℕ → List F → State A T D W → MetaApply × State A T D W
  unfolding merge start_from place
  merge_node node key inner s = elim (merge fields inner (start_from node key s)) [
    | none ↦ (MetaApply.nothing, s)
    | some sle ↦ place node.kind key sle s
  ]

  pub apply_indexed : MetaNode F → ℕ → State A T D W → MetaApply × State A T D W
  unfolding remove_old erase_at merge_node inner_of
  apply_indexed node key s = elim node.kind [
    | NodeKind.deleted_node ↦ (MetaApply.deleted, erase_at key (remove_old node key s))
    | _ ↦ elim (inner_of fields node) [
      | none ↦ (MetaApply.nothing, s)
      | some inner ↦ merge_node node key inner s
    ]
  ]

  pub apply_meta_node : MetaNode F → State A T D W → MetaApply × State A T D W
  unfolding apply_indexed
  apply_meta_node node s = elim node.kind [
    | NodeKind.other_node ↦ (MetaApply.nothing, s)
    | _ ↦ elim node.ledger_index [
      | none ↦ (MetaApply.nothing, s)
      | some key ↦ apply_indexed node key s
    ]
  ]

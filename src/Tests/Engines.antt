-- ===== src/Tests/Engines.antt =====
-- Metadata with a deleted quality level, an offer that is modified and a node of an unknown type.
use edgy.Prelude.{
  ℕ_discrete, arith, ℕ, ◌≡◌, Bool, true, false, Option, none, some, List, [], ◌∷◌, refl,
}
use edgy.Containers.Eq.{nat_eq}
use edgy.Sle.{Sle}
use edgy.Books.{empty}
use edgy.Books.Consistent.{IsXrp, IsConsistent-empty}
use edgy.Builder.{item_of}
use edgy.Builder.History.{new, new-IsValid}
use edgy.Builder.Items.{Codec, upsert, clone, clone-upsert}
use edgy.Engine.Meta.{Fields, NodeKind, MetaNode, MetaApply, State, apply_meta_node}
use edgy.Engine.Meta.Deleted.{apply_meta_node-deleted}
use edgy.Engine.Stream.{JsonNode, JsonItem, apply_json_affected_nodes}
use edgy.Engine.Stream.Count.{totals, sound, nodes, total-apply_json_affected_nodes}
use edgy.Engine.Stream.Keeps.{InOrder, apply_json_affected_nodes-InOrder}
use edgy.Tests.Data.{lib, level}

-- A blob is the object itself.
abbrev pub codec : Codec ℕ ℕ (Sle ℕ ℕ)
codec = record {
  serialize = λ sle. sle;
  parse = λ blob key. some (record blob { key = key });
  copy = λ sle key. some (record sle { key = key });
}

-- A field sets the quality.
abbrev pub fields : Fields ℕ ℕ ℕ
fields = record {
  has_entry_type = λ fs. true;
  set_entry_type = λ type fs. fs;
  object = λ fs key. none;
  empty_object = λ type key. some (record (level 11 0 none) { key = key });
  lt_any = 0;
  set = λ f sle. some (record sle { exchange_rate = some f });
}

native : IsXrp lib 0
native = record { xrp_is_xrp = refl; only = λ x h. ground arith }

abbrev pub start : State ℕ ℕ ℕ (Sle ℕ ℕ)
start = record { builder = new; books = empty }

abbrev node : NodeKind → MetaNode ℕ
node kind = record {
  kind = kind;
  ledger_index = some 42;
  ledger_entry_type = some 100;
  new_fields = some (7 ∷ []);
  final_fields = some (9 ∷ []);
}

abbrev json : Bool → NodeKind → Option (JsonNode ℕ)
json known kind = some (record { known = some known; key = some 42; parsed = some (node kind) })

abbrev pub items : List (JsonItem ℕ)
items =
    record {
      created_node = json true NodeKind.created_node;
      modified_node = none;
      deleted_node = none;
    }
    ∷ record {
      created_node = none;
      modified_node = json true NodeKind.modified_node;
      deleted_node = none;
    }
    ∷ record {
      created_node = none;
      modified_node = none;
      deleted_node = json false NodeKind.deleted_node;
    }
    ∷ []

total-apply_json_affected_nodes_example :
    totals (apply_json_affected_nodes lib codec fields items start).0 ≡ some 3
unfolding nodes sound
total-apply_json_affected_nodes_example =
    total-apply_json_affected_nodes lib codec fields items start

apply_json_affected_nodes-InOrder_example :
    InOrder lib codec fields 0 native (apply_json_affected_nodes lib codec fields items start).1
apply_json_affected_nodes-InOrder_example =
    apply_json_affected_nodes-InOrder lib codec fields 0 native items start
      (record { builder_valid = new-IsValid; books_consistent = IsConsistent-empty lib 0 })

apply_meta_node-deleted_example :
    let r = apply_meta_node lib codec fields (node NodeKind.deleted_node) start in
    (r.0 ≡ MetaApply.deleted) × (item_of r.1.builder 42 ≡ none)
unfolding ℕ_discrete
apply_meta_node-deleted_example =
    apply_meta_node-deleted lib codec fields (node NodeKind.deleted_node) 42 42 start new-IsValid
      refl refl

clone-upsert_example :
    clone codec 42 (upsert codec (some (level 11 0 none)) new) ≡ some (level 11 0 none)
unfolding ℕ_discrete
clone-upsert_example = clone-upsert codec new (level 11 0 none) 42 new-IsValid

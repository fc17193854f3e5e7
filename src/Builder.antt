-- ===== src/Builder.antt =====
-- include/edgy/memory_ledger.hpp and src/edgy/memory_ledger.cpp: `LedgerBuilder`. Before the first
-- publication objects go to the base; after it the base is frozen and they go to the overlay.
-- `base_` and `overlay_` are set by the constructor and by `clear`, and nothing resets them, so the
-- tests for a null pointer are not modelled. `reserve` only sizes the table.
pub mod Freeze
pub mod Valid
pub mod Contents
pub mod History
pub mod Items
pub mod Cow
use edgy.Prelude.{
  ℕ, zero, suc, ◌+◌, ◌-◌, Bool, true, false, Option, none, some, List, [], ◌∷◌, if◌then◌else◌, leb,
  length,
}
use edgy.Containers.Eq.{nat_eq}
use edgy.Containers.HashMap.{find, assign, remove}
use edgy.Containers.OrderedMap.{keys, put as put_overlay}
use edgy.Ledger.{Base, Overlay, Ledger, is_some, size_loop}

-- The fields of `xrpl::LedgerHeader` that the code sets.
pub record Header : Type 0 where
  pub seq : ℕ
  pub hash : ℕ
  pub parent_hash : ℕ
  pub account_hash : ℕ
  pub tx_hash : ℕ
  pub drops : ℕ
  pub validated : Bool
  pub accepted : Bool

pub record Builder {ℓ} (I : Type ℓ) : Type ℓ where
  pub header : Header
  pub base : Base I
  pub overlay : Overlay I
  pub frozen : Bool
  pub open_ledger : Bool

-- What `publish` hands to the readers, without the fees and the rules.
pub record Published {ℓ} (I : Type ℓ) : Type ℓ where
  pub header : Header
  pub ledger : Ledger I
  pub open_ledger : Bool

-- std::ranges::sort on keys
pub insert_key : ℕ → List ℕ → List ℕ
insert_key k [] = k ∷ []
insert_key k (j ∷ ks) = let rest = insert_key k ks in if leb k j then k ∷ j ∷ ks else j ∷ rest

unfoldable pub sort_keys : List ℕ → List ℕ
unfolding insert_key
sort_keys [] = []
sort_keys (k ∷ ks) = insert_key k (sort_keys ks)

module _ {ℓ} {I : Type ℓ} where
  unfoldable pub set_header : Builder I → Header → Builder I
  set_header b h = record b { header = record h { validated = true; accepted = true } }

  unfoldable pub set_open : Builder I → Bool → Builder I
  set_open b value = record b { open_ledger = value }

  unfoldable pub freeze_base : Builder I → Builder I
  freeze_base b = if b.frozen then b else record b {
    base = record { items = b.base.items; sorted_keys = sort_keys (keys b.base.items) };
    frozen = true;
  }

  unfoldable pub put : Builder I → ℕ → I → Builder I
  put b key item =
      if b.frozen
      then record b { overlay = put_overlay key (some item) b.overlay }
      else record b { base = record b.base { items = assign key item b.base.items } }

  unfoldable pub erase : Builder I → ℕ → Builder I
  erase b key =
      if b.frozen
      then record b { overlay = put_overlay key none b.overlay }
      else record b { base = record b.base { items = remove key b.base.items } }

  unfoldable pub clear : Builder I → Builder I
  clear b = record b {
    base = record { items = []; sorted_keys = [] };
    overlay = [];
    frozen = false;
    open_ledger = false;
  }

  unfoldable pub contains : Builder I → ℕ → Bool
  contains b key = elim (find key b.overlay) [
    | some entry ↦ is_some entry
    | none ↦ is_some (find key b.base.items)
  ]

  -- The item that `clone` decodes.
  unfoldable pub item_of : Builder I → ℕ → Option I
  item_of b key = elim (find key b.overlay) [ some entry ↦ entry | none ↦ find key b.base.items ]

  unfoldable pub size : Builder I → ℕ
  size b = size_loop b.base.items b.overlay (length b.base.items)

  abbrev view_of : Builder I → Ledger I
  view_of b = record { base = b.base; overlay = b.overlay }

  -- The builder with its base frozen, and the view over what it holds.
  unfoldable pub publish : Builder I → Builder I × Published I
  unfolding freeze_base
  publish b =
      let b' = freeze_base b in
      (b', record { header = b'.header; ledger = view_of b'; open_ledger = b'.open_ledger })

-- ===== src/Books/Feed.antt =====
-- How ledger objects feed `LocalOrderBooks`: `addFromSle`, `removeFromSle` and `setup`. The root of
-- an offer directory stands for one quality level of a book, an AMM for a book in each direction.
-- An asset is built from a currency and an issuer, or from an MPT id, by libxrpl.
pub mod Keeps
pub mod Tips
use edgy.Containers.Eq.{Eq}
use edgy.Prelude.{if◌then◌else◌, ◌==◌, some, none, Option, ◌&&◌, false, true, Bool, ℕ}
use edgy.Books.{Xrpl, Books, Book, add_book, remove_book, set_quality}
use edgy.Sle.{Sle, EntryType, present}

module _ {A D : Type 0} where
  -- getFieldH256 of a field that is not present is zero
  root_or_zero : Sle A D → ℕ
  root_or_zero sle = elim sle.root_index [ none ↦ 0 | some root ↦ root ]

  is_dir_node : Sle A D → Bool
  is_dir_node sle = elim sle.entry_type [ EntryType.dir_node ↦ true | _ ↦ false ]

  pub is_amm : Sle A D → Bool
  is_amm sle = elim sle.entry_type [ EntryType.amm ↦ true | _ ↦ false ]

  -- The test of addFromSle and setup.
  unfoldable pub is_book_root : Sle A D → Bool
  unfolding is_dir_node root_or_zero
  is_book_root sle = is_dir_node sle && (present sle.exchange_rate && root_or_zero sle == sle.key)

  -- removeFromSle also asks that the root is present.
  unfoldable pub is_book_root_to_remove : Sle A D → Bool
  unfolding is_dir_node root_or_zero
  is_book_root_to_remove sle =
      is_dir_node sle
      && (present sle.exchange_rate && (present sle.root_index && root_or_zero sle == sle.key))

  -- makeBook with its default domain
  make_book : A → A → Book A D
  make_book x y = record { takes = x; gives = y; domain = none }

module _ {A T : Type 0} (lib : Xrpl A T) where
  open lib use {issue, mpt}

  -- One side of a book directory: the currency with its issuer, else the MPT, else nothing.
  side : Option ℕ → ℕ → Option ℕ → Option A
  side (some currency) issuer id = some (issue currency issuer)
  side none issuer (some id) = some (mpt id)
  side none issuer none = none

module _ {A T D : Type 0} (lib : Xrpl A T) where
  open lib use {get_quality}

  taker_pays_side : Sle A D → Option A
  unfolding side
  taker_pays_side sle = side lib sle.taker_pays_currency sle.taker_pays_issuer sle.taker_pays_mpt

  taker_gets_side : Sle A D → Option A
  unfolding side
  taker_gets_side sle = side lib sle.taker_gets_currency sle.taker_gets_issuer sle.taker_gets_mpt

  unfoldable pub book_of : Sle A D → Option (Book A D)
  unfolding taker_pays_side taker_gets_side
  book_of sle = elim (taker_pays_side sle) [
    | none ↦ none
    | some x ↦ elim (taker_gets_side sle) [
      | none ↦ none
      | some y ↦ some (record { takes = x; gives = y; domain = sle.domain_id })
    ]
  ]

  unfoldable pub quality_of : Sle A D → ℕ
  quality_of sle = elim sle.exchange_rate [ none ↦ get_quality sle.key | some q ↦ q ]

module _ {A T D : Type 0} ⦃a : Eq A⦄ ⦃t : Eq T⦄ ⦃d : Eq D⦄ (lib : Xrpl A T) where
  add_dir : Sle A D → Books A T D → Books A T D
  add_dir sle s = elim (book_of lib sle) [
    | none ↦ s
    | some book ↦ set_quality lib book (quality_of lib sle) (add_book lib book s)
  ]

  amm_books : Option A → Option A → Books A T D → Books A T D
  unfolding make_book
  amm_books (some x) (some y) s = add_book lib (make_book y x) (add_book lib (make_book x y) s)
  amm_books _ _ s = s

  -- An AMM with no LP token balance, or an empty one, is not a book.
  add_amm : Sle A D → Books A T D → Books A T D
  unfolding amm_books
  add_amm sle s = elim sle.lp_token_balance [
    | none ↦ s
    | some balance ↦ if balance == 0 then s else amm_books sle.asset sle.asset2 s
  ]

  unfoldable pub add_from_sle : Option (Sle A D) → Books A T D → Books A T D
  unfolding is_book_root add_dir is_amm add_amm
  add_from_sle none s = s
  add_from_sle (some sle) s =
      if is_book_root sle then add_dir sle s else if is_amm sle then add_amm sle s else s

  remove_dir : Sle A D → Books A T D → Books A T D
  remove_dir sle s = elim (book_of lib sle) [ none ↦ s | some book ↦ remove_book lib book s ]

  remove_amm : Option A → Option A → Books A T D → Books A T D
  unfolding make_book
  remove_amm (some x) (some y) s =
      remove_book lib (make_book y x) (remove_book lib (make_book x y) s)
  remove_amm _ _ s = s

  unfoldable pub remove_from_sle : Option (Sle A D) → Books A T D → Books A T D
  unfolding is_book_root_to_remove remove_dir is_amm remove_amm
  remove_from_sle none s = s
  remove_from_sle (some sle) s =
      if is_book_root_to_remove sle
      then remove_dir sle s
      else if is_amm sle
      then remove_amm sle.asset sle.asset2 s
      else s

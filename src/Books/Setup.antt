-- ===== src/Books/Setup.antt =====
-- `LocalOrderBooks::setup`, which builds the graph from all objects of a ledger and then puts it in
-- the place of the old one. Reading an AMM's asset that is not there throws: `none`.
pub mod AtMost
pub mod Least
use edgy.Prelude.{if◌then◌else◌, ltb, ◌∷◌, [], List, some, none, Option, ℕ}
use edgy.Books.{Books, Book, Xrpl, add_book, empty, book_eq, tips_of}
use edgy.Books.Feed.{book_of, quality_of, is_book_root, is_amm}
use edgy.Containers.Eq.{Eq}
use edgy.Containers.HashMap.{find, assign}
use edgy.Sle.{Sle}

module _ {ℓ} {K : Type ℓ} ⦃e : Eq K⦄ where
  -- auto [it, ins] = m.emplace(k, q); if (!ins && q < it->second) it->second = q
  unfoldable pub emplace_least : K → ℕ → List (K × ℕ) → List (K × ℕ)
  emplace_least k q m = elim (find k m) [
    | none ↦ assign k q m
    | some old ↦ if ltb q old then assign k q m else m
  ]

module _ {A T D : Type 0} ⦃a : Eq A⦄ ⦃t : Eq T⦄ ⦃d : Eq D⦄ (lib : Xrpl A T) where
  note_least : Book A D → ℕ → Books A T D → Books A T D
  note_least book q s = record s {
    tip_quality = emplace_least book q s.tip_quality;
    token_tip =
        let token = lib.path_asset book.takes in
        assign token (emplace_least book.gives q (tips_of token s.token_tip)) s.token_tip;
  }

  -- The quality of a domain's book is not kept.
  setup_book : Book A D → ℕ → Books A T D → Books A T D
  unfolding note_least
  setup_book book q s = elim book.domain [
    | some dom ↦ add_book lib book s
    | none ↦ note_least book q (add_book lib book s)
  ]

  setup_dir : Sle A D → Books A T D → Books A T D
  unfolding setup_book
  setup_dir sle s = elim (book_of lib sle) [
    | none ↦ s
    | some book ↦ setup_book book (quality_of lib sle) s
  ]

  setup_amm : Option A → Option A → Books A T D → Option (Books A T D)
  setup_amm (some x) (some y) s = some (
      add_book lib (record { takes = y; gives = x; domain = none })
        (add_book lib (record { takes = x; gives = y; domain = none }) s))
  setup_amm _ _ s = none

  setup_sle : Sle A D → Books A T D → Option (Books A T D)
  unfolding setup_dir setup_amm
  setup_sle sle s =
      if is_book_root sle
      then some (setup_dir sle s)
      else if is_amm sle
      then setup_amm sle.asset sle.asset2 s
      else some s

  setup_all : List (Sle A D) → Books A T D → Option (Books A T D)
  unfolding setup_sle
  setup_all [] s = some s
  setup_all (sle ∷ sles) s = elim (setup_sle sle s) [ none ↦ none | some s' ↦ setup_all sles s' ]

  -- The new graph; `none` where it throws, and the old graph then stays. Without a ledger the new
  -- graph is empty.
  unfoldable pub setup : Option (List (Sle A D)) → Books A T D → Option (Books A T D)
  unfolding setup_all
  setup none old = some empty
  setup (some sles) old = setup_all sles empty

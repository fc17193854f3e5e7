-- ===== src/Books/Feed/Keeps.antt =====
-- What the three changes of the graph keep, the ledger objects keep that are fed to it.
use edgy.Sle.{Sle}
use edgy.Prelude.{
  Option-cases, if◌then◌else◌, ◌==◌, some, none, Option, false, true, Bool, inr, inl, ℕ,
}
use edgy.Books.{Books, Book, Xrpl, add_book, set_quality, remove_book}
use edgy.Books.Feed.{
  add_from_sle, remove_from_sle, book_of, add_dir, remove_dir, amm_books, remove_amm, add_amm,
  is_amm, is_book_root, is_book_root_to_remove, quality_of,
}
use edgy.Containers.Eq.{Eq}

module _ {ℓ} {A T D : Type 0} ⦃a : Eq A⦄ ⦃t : Eq T⦄ ⦃d : Eq D⦄ (lib : Xrpl A T)
    (P : Books A T D → Type ℓ)
    (added : (b : Book A D) (s : Books A T D) → P s → P (add_book lib b s))
    (rated : (b : Book A D) (q : ℕ) (s : Books A T D) → P s → P (set_quality lib b q s))
    (removed : (b : Book A D) (s : Books A T D) → P s → P (remove_book lib b s)) where
  keeps_if : (c : Bool) (s u : Books A T D) → P s → P u → P (if c then s else u)
  keeps_if true s u p q = p
  keeps_if false s u p q = q

  add_dir_keeps : (sle : Sle A D) (s : Books A T D) → P s → P (add_dir lib sle s)
  unfolding add_dir
  add_dir_keeps sle s p = elim (Option-cases (book_of lib sle)) [
    | inl e ↦ rw (e, add_dir) p
    | inr (b, e) ↦ rw (e, add_dir) (rated b (quality_of lib sle) _ (added b s p))
  ]

  remove_dir_keeps : (sle : Sle A D) (s : Books A T D) → P s → P (remove_dir lib sle s)
  unfolding remove_dir
  remove_dir_keeps sle s p = elim (Option-cases (book_of lib sle)) [
    | inl e ↦ rw (e, remove_dir) p
    | inr (b, e) ↦ rw (e, remove_dir) (removed b s p)
  ]

  amm_books_keeps : (x y : Option A) (s : Books A T D) → P s → P (amm_books lib x y s)
  unfolding amm_books
  amm_books_keeps (some x) (some y) s p = added _ _ (added _ s p)
  amm_books_keeps (some x) none s p = p
  amm_books_keeps none y s p = p

  remove_amm_keeps : (x y : Option A) (s : Books A T D) → P s → P (remove_amm lib x y s)
  unfolding remove_amm
  remove_amm_keeps (some x) (some y) s p = removed _ _ (removed _ s p)
  remove_amm_keeps (some x) none s p = p
  remove_amm_keeps none y s p = p

  add_amm_keeps : (sle : Sle A D) (s : Books A T D) → P s → P (add_amm lib sle s)
  unfolding add_amm
  add_amm_keeps sle s p = elim (Option-cases sle.lp_token_balance) [
    | inl e ↦ rw (e, add_amm) p
    | inr (n, e) ↦
        rw (e, add_amm) (keeps_if (n == 0) s _ p (amm_books_keeps sle.asset sle.asset2 s p))
  ]

  pub add_from_sle_keeps :
      (sle : Option (Sle A D)) (s : Books A T D) → P s → P (add_from_sle lib sle s)
  unfolding add_from_sle
  add_from_sle_keeps none s p = p
  add_from_sle_keeps (some sle) s p =
      keeps_if (is_book_root sle) _ _ (add_dir_keeps sle s p)
        (keeps_if (is_amm sle) _ _ (add_amm_keeps sle s p) p)

  pub remove_from_sle_keeps :
      (sle : Option (Sle A D)) (s : Books A T D) → P s → P (remove_from_sle lib sle s)
  unfolding remove_from_sle
  remove_from_sle_keeps none s p = p
  remove_from_sle_keeps (some sle) s p =
      keeps_if (is_book_root_to_remove sle) _ _ (remove_dir_keeps sle s p)
        (keeps_if (is_amm sle) _ _ (remove_amm_keeps sle.asset sle.asset2 s p) p)

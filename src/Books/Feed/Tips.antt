-- ===== src/Books/Feed/Tips.antt =====
-- The tip that the search scores a book by.
use edgy.Prelude.{if◌then◌else◌, true, [], List, ◌≡◌, ℕ, ◌∙◌, ap, arith, some, none}
use edgy.Books.{tips_of, Books, Book, Xrpl, add_book, set_quality, book_eq}
use edgy.Books.Query.{tip_quality, better, known}
use edgy.Books.Feed.{add_from_sle, book_of, quality_of, is_book_root, add_dir}
use edgy.Sle.{Sle}
use edgy.Containers.Eq.{Eq}
use edgy.Containers.HashMap.{assign, find-assign_self, find}

module _ {A T : Type 0} ⦃a : Eq A⦄ ⦃t : Eq T⦄ where
  tips_of-assign :
      (token : T) (tips : List (A × ℕ)) (m : List (T × List (A × ℕ)))
      → tips_of token (assign token tips m) ≡ tips
  tips_of-assign token tips m =
      ap (λ o. elim o [ none ↦ [] | some found ↦ found ]) (find-assign_self token tips m)

better_self : (q : ℕ) → better (some q) q ≡ q
unfolding better
better_self q = ground arith

module _ {A T D : Type 0} ⦃a : Eq A⦄ ⦃t : Eq T⦄ ⦃d : Eq D⦄ (lib : Xrpl A T) where
  -- The quality that was noted last is the tip, whatever was known of the book or its token before.
  pub tip_quality-set_quality :
      (b : Book A D) (q : ℕ) (s : Books A T D)
      → tip_quality lib b.takes b.gives b.domain (set_quality lib b q s) ≡ q
  unfolding tip_quality set_quality known
  tip_quality-set_quality b q s =
      let token = lib.path_asset b.takes in
      let tips = assign b.gives q (tips_of token s.token_tip) in
      ap (λ found. better (find b.gives found) (known (find b (assign b q s.tip_quality))))
        (tips_of-assign token tips s.token_tip)
      ∙ ap (λ o. better o (known (find b (assign b q s.tip_quality))))
          (find-assign_self b.gives q (tips_of token s.token_tip))
      ∙ ap (λ o. better (some q) (known o)) (find-assign_self b q s.tip_quality)
      ∙ better_self q

  -- A quality level that is fed sets the tip of its book to its own quality, also where the tip
  -- was better: the last level that is fed counts, not the best.
  pub add_from_sle-tip :
      (sle : Sle A D) (b : Book A D) (s : Books A T D)
      → is_book_root sle ≡ true
      → book_of lib sle ≡ some b
      → tip_quality lib b.takes b.gives b.domain (add_from_sle lib (some sle) s)
        ≡ quality_of lib sle
  unfolding add_from_sle add_dir
  add_from_sle-tip sle b s root is_book =
      rw (root, if◌then◌else◌, add_dir, is_book)
        (tip_quality-set_quality b (quality_of lib sle) (add_book lib b s))

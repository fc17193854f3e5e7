-- ===== src/Books/Removal.antt =====
-- What adding and removing a book does to `hasBook`, and the books that a removal hides.
use edgy.Prelude.{Option-cases, arith, inr, inl, ◌≢◌, ap, none, ◌||◌, false, true, ◌≡◌}
use edgy.Books.{Books, Book, Xrpl, add_book, remove_book}
use edgy.Books.Query.{has_book}
use edgy.Containers.Eq.{if_eq, Eq, pair_eq}
use edgy.Containers.Adjacency.{linked, linked-link, linked-unlink}

module _ {A T D : Type 0} ⦃a : Eq A⦄ ⦃t : Eq T⦄ ⦃d : Eq D⦄ (lib : Xrpl A T) where
  -- After an open book is added, `hasBook` holds where it held before, and from every asset of the
  -- token that the book takes to the asset that it gives.
  has_book-add_book :
      (x y i o : A) (s : Books A T D)
      → has_book lib x y none (add_book lib (record { takes = i; gives = o; domain = none }) s) ≡ (
          has_book lib x y none s
          || if_eq (lib.path_asset i) (lib.path_asset x) (if_eq o y true false) false)
  unfolding has_book add_book
  has_book-add_book x y i o s = ground (
    arith,
    linked-link i x o y s.all_books,
    linked-link (lib.path_asset i) (lib.path_asset x) o y s.token_fwd,
    ap lib.path_asset {x = i} {y = x},
  )

  -- Where a book is removed, `hasBook` no longer holds of it, open or in its domain.
  pub has_book-remove_book :
      (b : Book A D) (s : Books A T D)
      → has_book lib b.takes b.gives b.domain (remove_book lib b s) ≡ false
  unfolding remove_book has_book
  has_book-remove_book b s = elim (Option-cases b.domain) [
    | inl e ↦ rw e (
        ground (
          arith,
          linked-unlink b.takes b.takes b.gives b.gives s.all_books,
          linked-unlink (lib.path_asset b.takes) (lib.path_asset b.takes) b.gives b.gives
              s.token_fwd,
        ))
    | inr (dom, e) ↦
        rw e (
          ground
            (arith, linked-unlink (b.takes, dom) (b.takes, dom) b.gives b.gives s.domain_books))
  ]

  -- The removal of an open book hides the books of its token's other assets: where assets `i` and `j`
  -- of one token both had a book to `o`, taking away that of `i` leaves the book of `j` in the map, and
  -- yet no third asset of the token has `hasBook` to `o` any more, though it had before.
  pub remove_book-hides :
      (i j x o : A) (s : Books A T D)
      → i ≢ j
      → lib.path_asset j ≡ lib.path_asset i
      → lib.path_asset x ≡ lib.path_asset i
      → linked (lib.path_asset i) o s.token_fwd ≡ true
      → linked j o s.all_books ≡ true
      → linked x o s.all_books ≡ false
      → let s' = remove_book lib (record { takes = i; gives = o; domain = none }) s in
        (has_book lib x o none s ≡ true)
        × (linked j o s'.all_books ≡ true)
        × (has_book lib x o none s' ≡ false)
  unfolding remove_book has_book
  remove_book-hides i j x o s ne pj px hf hj hx = (
    ground arith,
    ground (arith, linked-unlink i j o o s.all_books),
    ground (
      arith,
      linked-unlink i x o o s.all_books,
      linked-unlink (lib.path_asset i) (lib.path_asset x) o o s.token_fwd,
    ),
  )

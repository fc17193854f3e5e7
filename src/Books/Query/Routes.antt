-- ===== src/Books/Query/Routes.antt =====
-- What the search asks of the graph: `hasBook`, `neighbors` and `intermediates` agree.
use edgy.Containers.Adjacency.{linked, outs}
use edgy.Prelude.{
  Bool-cases, true, inr, inl, sym, false, Bool, arith, ◌∷◌, [], List, some, none, Option, ◌||◌,
  ◌&&◌, ◌∙◌, refl, ◌≡◌,
}
use edgy.Books.{Books, Xrpl}
use edgy.Books.Query.{has_book, neighbors, intermediates, forward, backward, common}
use edgy.Books.Consistent.{IsConsistent}
use edgy.Containers.Eq.{Eq, pair_eq}
use edgy.Containers.HashSet.{insert, contains-insert, contains, insert_all}

module _ {ℓ} {A : Type ℓ} ⦃e : Eq A⦄ where
  contains_nil : (y : A) → contains y [] ≡ false
  unfolding contains
  contains_nil y = refl

  contains-insert_all :
      (y : A) (xs s : List A) → contains y (insert_all xs s) ≡ contains y xs || contains y s
  unfolding insert_all contains
  contains-insert_all y [] s = refl
  contains-insert_all y (x ∷ xs) s =
      contains-insert_all y xs (insert x s) ∙ ground (arith, contains-insert x y s)

module _ {A : Type 0} ⦃e : Eq A⦄ where
  contains-common :
      (y : A) (xs ys : List A) → contains y (common xs ys) ≡ contains y xs && contains y ys
  unfolding common contains
  contains-common y [] ys = refl
  contains-common y (x ∷ xs) ys = ground (arith, contains-common y xs ys)

module _ {A T D : Type 0} ⦃a : Eq A⦄ ⦃t : Eq T⦄ ⦃d : Eq D⦄ (lib : Xrpl A T) where
  -- `neighbors` lists exactly the assets that a book leads to, by `hasBook`'s own measure.
  pub contains-neighbors :
      (x y : A) (domain : Option D) (s : Books A T D)
      → contains y (neighbors lib x domain s) ≡ has_book lib x y domain s
  unfolding neighbors has_book
  contains-neighbors x y none s = ground (
    arith,
    contains-insert_all y (outs (lib.path_asset x) s.token_fwd)
        (insert_all (outs x s.all_books) []),
    contains-insert_all y (outs x s.all_books) [],
    contains_nil y,
  )
  contains-neighbors x y (some dom) s =
      ground (arith, contains-insert_all y (outs (x, dom) s.domain_books) [], contains_nil y)

  -- The assets with a book that leads to `y`, as the reverse maps have it.
  unfoldable pub reached_from : A → A → Option D → Books A T D → Bool
  reached_from x y none s = linked y x s.reverse_books || linked (lib.path_asset y) x s.token_rev
  reached_from x y (some dom) s = linked (y, dom) x s.reverse_domain_books

  contains-forward :
      (x y : A) (domain : Option D) (s : Books A T D)
      → contains y (forward lib x domain s) ≡ has_book lib x y domain s
  unfolding forward has_book
  contains-forward x y none s = ground (
    arith,
    contains-insert_all y (outs (lib.path_asset x) s.token_fwd)
        (insert_all (outs x s.all_books) []),
    contains-insert_all y (outs x s.all_books) [],
    contains_nil y,
  )
  contains-forward x y (some dom) s = refl

  contains-backward :
      (x y : A) (domain : Option D) (s : Books A T D)
      → contains x (backward lib y domain s) ≡ reached_from x y domain s
  unfolding backward reached_from
  contains-backward x y none s = ground (
    arith,
    contains-insert_all x (outs (lib.path_asset y) s.token_rev)
        (insert_all (outs y s.reverse_books) []),
    contains-insert_all x (outs y s.reverse_books) [],
    contains_nil x,
  )
  contains-backward x y (some dom) s = refl

  -- `intermediates` lists exactly the assets that the source leads to and the reverse maps lead back
  -- to from the destination, whichever of the two sets is the smaller.
  pub contains-intermediates :
      (src dst m : A) (domain : Option D) (s : Books A T D)
      → contains m (intermediates lib src dst domain s)
        ≡ has_book lib src m domain s && reached_from m dst domain s
  unfolding intermediates
  contains-intermediates src dst m domain s = ground (
    arith,
    contains-forward src m domain s,
    contains-backward m dst domain s,
    contains-common m (forward lib src domain s) (backward lib dst domain s),
    contains-common m (backward lib dst domain s) (forward lib src domain s),
  )

  -- In a permissioned domain, over maps that agree, these are the assets with a book from the source
  -- and a book to the destination.
  intermediates_domain :
      (xrp src dst m : A) (dom : D) (s : Books A T D)
      → IsConsistent lib xrp s
      → contains m (intermediates lib src dst (some dom) s)
        ≡ has_book lib src m (some dom) s && has_book lib m dst (some dom) s
  unfolding has_book reached_from
  intermediates_domain xrp src dst m dom s w =
      ground (arith, contains-intermediates src dst m (some dom) s, w.domain_mirrored m dst dom)

  -- Where `hasBook` says so among the open books, there is a book of an asset with the token.
  pub has_book_sound :
      (xrp x y : A) (s : Books A T D)
      → IsConsistent lib xrp s
      → has_book lib x y none s ≡ true
      → (x' : A) × (lib.path_asset x' ≡ lib.path_asset x) × (linked x' y s.all_books ≡ true)
  unfolding has_book
  has_book_sound xrp x y s w h = elim (Bool-cases (linked x y s.all_books)) [
    | inl e ↦ (x, refl, e)
    | inr e ↦ w.token_sound (lib.path_asset x) y (ground arith)
  ]

  -- Where the reverse maps say so, there is a book into an asset with the token.
  pub reached_from_sound :
      (xrp x y : A) (s : Books A T D)
      → IsConsistent lib xrp s
      → reached_from x y none s ≡ true
      → (y' : A) × (lib.path_asset y' ≡ lib.path_asset y) × (linked x y' s.all_books ≡ true)
  unfolding reached_from
  reached_from_sound xrp x y s w h = elim (Bool-cases (linked y x s.reverse_books)) [
    | inl e ↦ (y, refl, ground (arith, w.mirrored x y))
    | inr e ↦
        let (y', p, l) = w.token_rev_sound (lib.path_asset y) x (ground arith) in
        (y', p, sym (w.mirrored x y') ∙ l)
  ]

  -- Among the open books, an intermediate has a book from some asset of the source's token and a book
  -- to some asset of the destination's token.
  intermediates_sound :
      (xrp src dst m : A) (s : Books A T D)
      → IsConsistent lib xrp s
      → contains m (intermediates lib src dst none s) ≡ true
      → ((x : A) × (lib.path_asset x ≡ lib.path_asset src) × (linked x m s.all_books ≡ true))
        × ((y : A) × (lib.path_asset y ≡ lib.path_asset dst) × (linked m y s.all_books ≡ true))
  intermediates_sound xrp src dst m s w h = (
    has_book_sound xrp src m s w (ground (arith, contains-intermediates src dst m none s)),
    reached_from_sound xrp m dst s w (ground (arith, contains-intermediates src dst m none s)),
  )

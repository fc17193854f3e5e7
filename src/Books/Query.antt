-- ===== src/Books/Query.antt =====
-- The queries of `LocalOrderBooks`. `domain` picks the books of a permissioned domain, or the open
-- ones where it is none.
pub mod Routes
use edgy.Containers.Eq.{Eq, pair_eq}
use edgy.Books.{Xrpl, book_eq, tips_of}
use edgy.Containers.Adjacency.{outs, linked}
use edgy.Containers.HashSet.{contains, insert_all}
use edgy.Containers.HashMap.{find}
use edgy.Prelude.{
  length, if◌then◌else◌, ltb, ◌∷◌, [], List, some, none, Option, ◌||◌, Bool, ◌^◌, ◌-◌, ℕ,
}
use edgy.Books.{tips_of, Books, Book}

-- kNoQuality, the largest uint64
abbrev pub no_quality : ℕ
no_quality = 2 ^ 64 - 1

unfoldable pub known : Option ℕ → ℕ
known none = no_quality
known (some q) = q

-- the tip of the token, where it is better
unfoldable pub better : Option ℕ → ℕ → ℕ
better none best = best
better (some q) best = if ltb q best then q else best

module _ {A : Type 0} ⦃a : Eq A⦄ where
  -- for (asset : smaller) if (larger.contains(asset)) out.push_back(asset)
  common : List A → List A → List A
  common [] larger = []
  common (x ∷ smaller) larger =
      let rest = common smaller larger in if contains x larger then x ∷ rest else rest

module _ {A T D : Type 0} ⦃a : Eq A⦄ ⦃t : Eq T⦄ ⦃d : Eq D⦄ (lib : Xrpl A T) where
  open lib use {path_asset}

  books_from : A → Option D → List A → List (Book A D)
  books_from x domain [] = []
  books_from x domain (y ∷ ys) =
      record { takes = x; gives = y; domain = domain } ∷ books_from x domain ys

  -- The outs of the map that the domain selects, without those of the token.
  direct : A → Option D → Books A T D → List A
  direct x none s = outs x s.all_books
  direct x (some dom) s = outs (x, dom) s.domain_books

  unfoldable pub get_books_by_taker_pays : A → Option D → Books A T D → List (Book A D)
  unfolding direct books_from
  get_books_by_taker_pays x domain s = books_from x domain (direct x domain s)

  unfoldable pub get_book_size : A → Option D → Books A T D → ℕ
  unfolding direct
  get_book_size x domain s = length (direct x domain s)

  unfoldable pub is_book_to_xrp : A → Option D → Books A T D → Bool
  is_book_to_xrp x none s = contains x s.xrp_books
  is_book_to_xrp x (some dom) s = contains (x, dom) s.xrp_domain_books

  unfoldable pub has_book : A → A → Option D → Books A T D → Bool
  has_book x y none s = linked x y s.all_books || linked (path_asset x) y s.token_fwd
  has_book x y (some dom) s = linked (x, dom) y s.domain_books

  forward : A → Option D → Books A T D → List A
  forward x none s =
      insert_all (outs (path_asset x) s.token_fwd) (insert_all (outs x s.all_books) [])
  forward x (some dom) s = outs (x, dom) s.domain_books

  backward : A → Option D → Books A T D → List A
  backward y none s =
      insert_all (outs (path_asset y) s.token_rev) (insert_all (outs y s.reverse_books) [])
  backward y (some dom) s = outs (y, dom) s.reverse_domain_books

  unfoldable pub intermediates : A → A → Option D → Books A T D → List A
  unfolding forward backward common
  intermediates src dst domain s =
      let fwd = forward src domain s in
      let rev = backward dst domain s in
      if ltb (length rev) (length fwd) then common rev fwd else common fwd rev

  unfoldable pub neighbors : A → Option D → Books A T D → List A
  neighbors x none s =
      insert_all (outs (path_asset x) s.token_fwd) (insert_all (outs x s.all_books) [])
  neighbors x (some dom) s = insert_all (outs (x, dom) s.domain_books) []

  unfoldable pub tip_quality : A → A → Option D → Books A T D → ℕ
  unfolding known better
  tip_quality x y domain s =
      better (find y (tips_of (path_asset x) s.token_tip))
        (known (find (record { takes = x; gives = y; domain = domain }) s.tip_quality))

module _ {A T D : Type 0} where
  unfoldable pub book_count : Books A T D → ℕ
  book_count s = length s.tip_quality

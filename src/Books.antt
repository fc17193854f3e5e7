-- ===== src/Books.antt =====
-- include/edgy/order_books.hpp and src/edgy/order_books.cpp: `LocalOrderBooks`, the book graph, as
-- the xrpld build compiles it. Each method holds `lock_` throughout, so a call is one step.
-- `Asset`, `PathAsset` and `Domain` are types of libxrpl and parameters here.
pub mod Query
pub mod Feed
pub mod Tokens
pub mod Consistent
pub mod Reach
pub mod Setup
pub mod Removal
use edgy.Prelude.{ℕ, Bool, true, false, Option, none, some, List, [], ◌∷◌, if◌then◌else◌}
use edgy.Containers.Eq.{Eq, pair_eq}
use edgy.Containers.HashSet.{insert, erase}
use edgy.Containers.HashMap.{find, assign, remove}
use edgy.Containers.Adjacency.{Adjacency, link, unlink}

-- What the code calls of libxrpl: `PathAsset{asset}`, `isXRP`, the assets of an issue and of an MPT
-- id, and `getQuality` of a directory's key.
pub record Xrpl (A T : Type 0) : Type 0 where
  pub path_asset : A → T
  pub is_xrp : A → Bool
  pub issue : ℕ → ℕ → A
  pub mpt : ℕ → A
  pub get_quality : ℕ → ℕ

-- xrpl::Book: `takes` is its `in` and `gives` its `out`.
pub record Book (A D : Type 0) : Type 0 where
  pub takes : A
  pub gives : A
  pub domain : Option D

pub record Books (A T D : Type 0) : Type 0 where
  pub all_books : Adjacency A A
  pub reverse_books : Adjacency A A
  pub domain_books : Adjacency (A × D) A
  pub reverse_domain_books : Adjacency (A × D) A
  pub xrp_books : List A
  pub xrp_domain_books : List (A × D)
  pub token_fwd : Adjacency T A
  pub token_rev : Adjacency T A
  pub tip_quality : List (Book A D × ℕ)
  pub token_tip : List (T × List (A × ℕ))

module _ {A D : Type 0} ⦃a : Eq A⦄ ⦃d : Eq D⦄ where
  unfoldable pub book_dec : Discrete (Book A D)
  book_dec = hlevel (a.dec, d.dec)

  instance abbrev pub book_eq : Eq (Book A D)
  book_eq = record { dec = book_dec }

abbrev pub empty : {A T D : Type 0} → Books A T D
empty = record {
  all_books = [];
  reverse_books = [];
  domain_books = [];
  reverse_domain_books = [];
  xrp_books = [];
  xrp_domain_books = [];
  token_fwd = [];
  token_rev = [];
  tip_quality = [];
  token_tip = [];
}

unfoldable pub clear : {A T D : Type 0} → Books A T D → Books A T D
clear s = empty

module _ {A T : Type 0} ⦃a : Eq A⦄ ⦃t : Eq T⦄ where
  -- The tips of one token's books; `tokenTip_[token]` makes the empty map.
  abbrev pub tips_of : T → List (T × List (A × ℕ)) → List (A × ℕ)
  tips_of token m = elim (find token m) [ none ↦ [] | some tips ↦ tips ]

  store_tips : T → List (A × ℕ) → List (T × List (A × ℕ)) → List (T × List (A × ℕ))
  store_tips token [] m = remove token m
  store_tips token (e ∷ tips) m = assign token (e ∷ tips) m

  unfoldable pub drop_tip : T → A → List (T × List (A × ℕ)) → List (T × List (A × ℕ))
  unfolding store_tips
  drop_tip token out m = elim (find token m) [
    | none ↦ m
    | some tips ↦ store_tips token (remove out tips) m
  ]

module _ {A T D : Type 0} ⦃a : Eq A⦄ ⦃t : Eq T⦄ ⦃d : Eq D⦄ (lib : Xrpl A T) where
  open lib use {path_asset, is_xrp}

  add_domain_book : A → A → D → Books A T D → Books A T D
  add_domain_book x y dom s = record s {
    domain_books = link (x, dom) y s.domain_books;
    reverse_domain_books = link (y, dom) x s.reverse_domain_books;
    xrp_domain_books = if is_xrp y then insert (x, dom) s.xrp_domain_books else s.xrp_domain_books;
  }

  add_open_book : A → A → Books A T D → Books A T D
  add_open_book x y s = record s {
    all_books = link x y s.all_books;
    reverse_books = link y x s.reverse_books;
    token_fwd = link (path_asset x) y s.token_fwd;
    token_rev = link (path_asset y) x s.token_rev;
    xrp_books = if is_xrp y then insert x s.xrp_books else s.xrp_books;
  }

  -- addBookUnlocked; addOrderBook is the same under the lock
  unfoldable pub add_book : Book A D → Books A T D → Books A T D
  unfolding add_domain_book add_open_book
  add_book book s = elim book.domain [
    | some dom ↦ add_domain_book book.takes book.gives dom s
    | none ↦ add_open_book book.takes book.gives s
  ]

  -- setQualityUnlocked, which noteQualityUnlocked calls
  unfoldable pub set_quality : Book A D → ℕ → Books A T D → Books A T D
  set_quality book quality s = record s {
    tip_quality = assign book quality s.tip_quality;
    token_tip =
        let token = path_asset book.takes in
        assign token (assign book.gives quality (tips_of token s.token_tip)) s.token_tip;
  }

  remove_domain_book : Book A D → D → Books A T D → Books A T D
  remove_domain_book book dom s = record s {
    domain_books = unlink (book.takes, dom) book.gives s.domain_books;
    reverse_domain_books = unlink (book.gives, dom) book.takes s.reverse_domain_books;
    xrp_domain_books =
        if is_xrp book.gives
        then erase (book.takes, dom) s.xrp_domain_books
        else s.xrp_domain_books;
    tip_quality = remove book s.tip_quality;
  }

  remove_open_book : Book A D → Books A T D → Books A T D
  remove_open_book book s = record s {
    all_books = unlink book.takes book.gives s.all_books;
    reverse_books = unlink book.gives book.takes s.reverse_books;
    token_fwd = unlink (path_asset book.takes) book.gives s.token_fwd;
    token_rev = unlink (path_asset book.gives) book.takes s.token_rev;
    xrp_books = if is_xrp book.gives then erase book.takes s.xrp_books else s.xrp_books;
    tip_quality = remove book s.tip_quality;
    token_tip = drop_tip (path_asset book.takes) book.gives s.token_tip;
  }

  -- removeBookUnlocked
  unfoldable pub remove_book : Book A D → Books A T D → Books A T D
  unfolding remove_domain_book remove_open_book
  remove_book book s = elim book.domain [
    | some dom ↦ remove_domain_book book dom s
    | none ↦ remove_open_book book s
  ]

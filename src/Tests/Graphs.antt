-- ===== src/Tests/Graphs.antt =====
-- The book graph of the test data.
use edgy.Sle.{Sle}
use edgy.Books.Setup.{setup}
use edgy.Containers.Adjacency.{linked, link, outs}
use edgy.Books.Feed.{add_from_sle, quality_of, book_of, is_book_root}
use edgy.Books.Feed.Tips.{add_from_sle-tip}
use edgy.Books.Removal.{remove_book-hides, has_book-remove_book}
use edgy.Prelude.{ℕ_discrete, false, true, ◌≢◌, ℕ, ◌≡◌, none, some, List, [], ◌∷◌, refl, arith}
use edgy.Containers.Eq.{nat_eq, pair_eq}
use edgy.Containers.HashSet.{contains, insert}
use edgy.Containers.HashMap.{find, assign}
use edgy.Books.{Books, add_book, remove_book, empty, book_eq}
use edgy.Books.Query.{tip_quality, neighbors, has_book}
use edgy.Books.Query.Routes.{contains-neighbors}
use edgy.Books.Consistent.{IsXrp, IsConsistent}
use edgy.Books.Reach.{Change, added, removed, run, run-IsConsistent}
use edgy.Tests.Data.{lib, open_book, books, level}

native : IsXrp lib 0
native = record { xrp_is_xrp = refl; only = λ x h. ground arith }

-- By way of XRP, in the open and in domain 5.
abbrev history : List (Change ℕ ℕ)
history =
    added (some (level 11 0 none))
    ∷ added (some (level 0 21 none))
    ∷ added (some (level 11 0 (some 5)))
    ∷ added (some (level 0 21 (some 5)))
    ∷ added (some (level 12 21 none))
    ∷ removed (some (level 12 21 none))
    ∷ []

abbrev market : Books ℕ ℕ ℕ
market = run lib empty history

run-IsConsistent_example : IsConsistent lib 0 market
run-IsConsistent_example = run-IsConsistent lib 0 native history

market-IsConsistent : IsConsistent lib 0 market
market-IsConsistent = run-IsConsistent lib 0 native history

contains-neighbors_example : contains 0 (neighbors lib 13 none books) ≡ has_book lib 13 0 none books
contains-neighbors_example = contains-neighbors lib 13 0 none books

has_book-remove_book_example :
    has_book lib 11 0 none (remove_book lib (open_book 11 0) books) ≡ false
has_book-remove_book_example = has_book-remove_book lib (open_book 11 0) books

remove_book-hides_example :
    let s' = remove_book lib (open_book 11 0) books in
    (has_book lib 13 0 none books ≡ true)
    × (linked 12 0 s'.all_books ≡ true)
    × (has_book lib 13 0 none s' ≡ false)
unfolding add_book link outs find assign insert contains ℕ_discrete
remove_book-hides_example = remove_book-hides lib 11 12 13 0 books distinct refl refl refl refl refl
  where
    distinct : ◌≢◌ {A = ℕ} 11 12
    distinct e = omega (arith, e)

add_from_sle-tip_example :
    tip_quality lib 11 0 none (add_from_sle lib (some (level 11 0 none)) market) ≡ 7
unfolding is_book_root book_of quality_of
add_from_sle-tip_example = add_from_sle-tip lib (level 11 0 none) (open_book 11 0) market refl refl

-- Two quality levels of one book, of quality 7 and 3.
abbrev two_levels : List (Sle ℕ ℕ)
two_levels = level 11 0 none ∷ record (level 11 0 none) { exchange_rate = some 3 } ∷ []

abbrev set_up : Books ℕ ℕ ℕ
set_up = elim (setup lib (some two_levels) books) [ none ↦ empty | some s ↦ s ]

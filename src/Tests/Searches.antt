-- ===== src/Tests/Searches.antt =====
-- A search over the graph of the test data, and its budgets.
use edgy.Prelude.{ℕ, ◌≤◌, ◌≡◌, some, All, map, length, refl, arith}
use edgy.Containers.Eq.{nat_eq, list_eq}
use edgy.Graph.{FastPathResult}
use edgy.Graph.Chain.{IsPayable}
use edgy.Graph.Ranking.{hop_currency_key, src_max_amount, min_dst_amount}
use edgy.Graph.Ranking.Liquid.{IsLiquid}
use edgy.Graph.Finder.{search}
use edgy.Graph.Finder.Choice.{Distinct, ShortFirst}
use edgy.Graph.Finder.Results.{
  IsRoute, search_total, search-Payable, search-Route, search-Liquid, search-ShortFirst,
  search-Distinct,
}
use edgy.Tests.Data.{lib, pay, books, req, open_book}
use edgy.Books.{empty}
use edgy.Books.Consistent.{IsXrp, IsConsistent, IsConsistent-empty, IsConsistent-add_book}

search_total_example : (r : FastPathResult ℕ) × (search lib pay books req ≡ some r)
search_total_example = search_total lib pay books req

abbrev result : FastPathResult ℕ
result = (search_total lib pay books req).0

found : search lib pay books req ≡ some result
found = (search_total lib pay books req).1

search-Payable_example : (length result.paths ≤ 6) × All IsPayable result.paths
search-Payable_example = search-Payable lib pay books req result found

native : IsXrp lib 0
native = record { xrp_is_xrp = refl; only = λ x h. ground arith }

books-IsConsistent : IsConsistent lib 0 books
books-IsConsistent = IsConsistent-add_book lib 0 native (open_book 0 21) _ (
    IsConsistent-add_book lib 0 native (open_book 12 0) _
      (IsConsistent-add_book lib 0 native (open_book 11 0) empty (IsConsistent-empty lib 0)))

search-Route_example : All (IsRoute lib pay books req) result.paths
search-Route_example = search-Route lib pay books req 0 result books-IsConsistent refl found

search-Liquid_example :
    All (IsLiquid pay req 7 (src_max_amount pay req lib) (min_dst_amount pay req)) result.paths
search-Liquid_example = search-Liquid lib pay books req 7 result refl found

search-ShortFirst_example : ShortFirst result.paths
search-ShortFirst_example = search-ShortFirst lib pay books req result found

search-Distinct_example : Distinct (map (hop_currency_key pay req) result.paths)
search-Distinct_example = search-Distinct lib pay books req result found

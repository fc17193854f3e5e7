-- ===== src/Graph.antt =====
-- include/edgy/graph.hpp and src/edgy/graph.cpp: the path search over the book graph, with
-- src/edgy's include/edgy/compat.hpp as far as the search uses it. A path is the list of its
-- elements and a path set the list of its paths.
-- What libxrpl computes is a parameter: the path elements, the amounts and RippleCalc.
pub mod Budget
pub mod Candidates
pub mod Walk
pub mod Ranking
pub mod Finder
pub mod Chain
use edgy.Prelude.{ℕ, Bool, Option, List}
use edgy.Graph.Budget.{SearchBudget}

-- One run of RippleCalc: an exception, a result other than tesSUCCESS, or what was paid and taken.
pub data Calc (M : Type 0) : Type 0 where
  threw : Calc M
  failed : Calc M
  delivered : M → M → Calc M

-- What the search calls of libxrpl, on assets A, path elements E, amounts M and ledgers L;
-- accounts and currencies are numbers.
pub record Payments (A D E M L : Type 0) : Type 0 where
  pub xrp : A
  pub equal_tokens : A → A → Bool
  pub book_element : A → E
  pub element_key : E → List ℕ
  pub get_issuer : A → ℕ
  pub is_xrp_account : ℕ → Bool
  pub xrp_account : ℕ
  pub currency_of : A → Option ℕ
  pub one_of_issue : ℕ → ℕ → M
  pub one_of_mpt : A → M
  pub asset : M → A
  pub largest_amount : M → M
  pub divide : M → ℕ → M
  pub get_rate : M → M → ℕ
  pub same : M → M → Bool
  pub less : M → M → Bool
  pub ripple_calculate : L → M → M → ℕ → ℕ → List E → Option D → Calc M

-- The arguments of `FastPathFinder::search`. `go n` is what the n-th call of the callback
-- returns, and always true where the callback is empty.
pub record Request (A D E M L : Type 0) : Type 0 where
  pub ledger : Option L
  pub src : ℕ
  pub dst : ℕ
  pub src_asset : A
  pub dst_amount : M
  pub send_max : Option M
  pub domain : Option D
  pub extra : List (List E)
  pub convert_all : Bool
  pub budget : SearchBudget
  pub go : ℕ → Bool

-- `FastPathResult` without its times.
pub record FastPathResult (E : Type 0) : Type 0 where
  pub paths : List (List E)
  pub discovered : List (List E)
  pub candidates : ℕ
  pub ranked : ℕ
  pub depth : ℕ

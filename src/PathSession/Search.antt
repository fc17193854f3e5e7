-- ===== src/PathSession/Search.antt =====
-- `PathSession::findPaths`: for the sources of a request, one search or one pricing for each.
pub mod Each
pub mod Order
use edgy.PathSession.Pricing.{capped_paths, revalidate_all, price, context_at}
use edgy.PathSession.Sources.{order_sources, depth_now, sources_of, Clock}
use edgy.Containers.HashSet.{contains}
use edgy.Prelude.{
  ℕ, zero, suc, ◌==◌, leb, min, Bool, true, false, not, ◌||◌, if◌then◌else◌, Option, none, some,
  List, [], ◌∷◌, ◌++◌, length,
}
use edgy.Containers.Eq.{Eq}
use edgy.Containers.HashMap.{find, assign}
use edgy.Books.{Xrpl, Books}
use edgy.Graph.{Payments, Request, Calc}
use edgy.Graph.Budget.{ℤ, SearchBudget, for_depth, depth_for}
use edgy.Graph.Candidates.{sort}
use edgy.Graph.Finder.{search}
use edgy.Graph.Ranking.{path_find_max_paths}
use edgy.PathSession.{PathAsset, Alternative, Config, Rpc, Cache, PathSession}
use edgy.PathSession.Parse.{insert_asset, max_src_cur, asset_for}

-- What `findPaths` leaves: its result, whether it has searched in full, and the alternatives.
pub record Found (S E M : Type 0) : Type 0 where
  pub session : S
  pub ok : Bool
  pub did_full_search : Bool
  pub alternatives : List (Alternative E M)

module _ {A T D E M L V : Type 0} ⦃a : Eq A⦄ ⦃t : Eq T⦄ ⦃d : Eq D⦄ ⦃e : Eq E⦄ (lib : Xrpl A T)
    (pay : Payments A D E M L) (rpc : Rpc A D E M L V) (cfg : Config) where
  -- The arguments of the search for one source.
  request_for :
      L → ℕ → ℕ → A → M → SearchBudget → (ℕ → Bool) → PathSession A D E M V → Request A D E M L
  unfolding context_at
  request_for ledger src dst asset amount budget go s = record {
    ledger = some ledger;
    src = src;
    dst = dst;
    src_asset = asset;
    dst_amount = amount;
    send_max = s.send_max;
    domain = s.domain;
    extra = context_at lib pay rpc cfg asset s;
    convert_all = s.convert_all;
    budget = budget;
    go = go;
  }

  -- The paths of the search for one source. A search always has a result.
  unfoldable pub search_paths : Books A T D → Request A D E M L → List (List E)
  unfolding capped_paths
  search_paths books req = elim (search lib pay books req) [
    | none ↦ []
    | some found ↦ capped_paths found.paths
  ]

  -- One source: its paths are remembered, and its entry, if there is one, is added.
  unfoldable pub search_source :
      Books A T D
      → L
      → ℕ
      → ℕ
      → M
      → SearchBudget
      → (ℕ → Bool)
      → A
      → PathSession A D E M V
      → PathSession A D E M V × Option (Alternative E M)
  unfolding request_for search_paths price
  search_source books ledger src dst amount budget go asset s =
      let paths = search_paths books (request_for ledger src dst asset amount budget go s) in
      (
        record s { context = assign asset paths s.context },
        price lib pay rpc cfg ledger src dst asset amount paths s,
      )

  -- The entries with paths and those without.
  unfoldable pub file_entry :
      Option (Alternative E M)
      → List (Alternative E M) × List (Alternative E M)
      → List (Alternative E M) × List (Alternative E M)
  file_entry none (with_paths, default_only) = (with_paths, default_only)
  file_entry (some alternative) (with_paths, default_only) = elim alternative.paths_computed [
    | [] ↦ (with_paths, default_only ++ alternative ∷ [])
    | p ∷ ps ↦ (with_paths ++ alternative ∷ [], default_only)
  ]

  unfoldable pub search_each :
      Books A T D
      → L
      → ℕ
      → ℕ
      → M
      → SearchBudget
      → Clock
      → ℕ
      → List A
      → List (Alternative E M) × List (Alternative E M)
      → PathSession A D E M V
      → PathSession A D E M V × (List (Alternative E M) × List (Alternative E M))
  unfolding search_source file_entry
  search_each books ledger src dst amount budget clock n [] filed s = (s, filed)
  search_each books ledger src dst amount budget clock n (asset ∷ assets) filed s =
      let r = search_source books ledger src dst amount budget (clock.go n) asset s in
      let rest =
        search_each books ledger src dst amount budget clock (suc n) assets (file_entry r.1 filed)
          r.0 in
      if clock.go_source n then rest else (s, filed)

  unfoldable pub full_search :
      Books A T D
      → Cache L
      → Bool
      → Clock
      → ℕ
      → ℕ
      → List A
      → PathSession A D E M V
      → Found (PathSession A D E M V) E M
  unfolding depth_now order_sources search_each
  full_search books cache force_fast clock src dst sources s =
      let budget = for_depth (depth_now lib pay rpc cfg force_fast clock.search_age s) in
      let amount = rpc.convert_amount s.dst_amount s.convert_all in
      let r =
        search_each books cache.ledger src dst amount budget clock 0
          (order_sources lib pay rpc cfg sources s) ([], [])
          (record s { last_depth = ℤ.pos budget.depth }) in
      record {
        session = record r.0 { searches_done = suc r.0.searches_done };
        ok = true;
        did_full_search = true;
        alternatives = r.1.0 ++ r.1.1;
      }

  -- The result where the known paths were priced again.
  unfoldable pub priced :
      List (Alternative E M) → PathSession A D E M V → Found (PathSession A D E M V) E M
  priced alternatives s = record {
    session = s;
    ok = true;
    did_full_search = false;
    alternatives = alternatives;
  }

  -- Where the sources are known.
  unfoldable pub find_from :
      Books A T D
      → Cache L
      → Bool
      → Bool
      → Bool
      → Clock
      → ℕ
      → ℕ
      → List A
      → PathSession A D E M V
      → Found (PathSession A D E M V) E M
  unfolding full_search revalidate_all priced
  find_from books cache full allow_escalate force_fast clock src dst sources s =
      let live =
        revalidate_all lib pay rpc cfg cache.ledger sources
          (rpc.convert_amount s.dst_amount s.convert_all) s in
      let searched = full_search books cache force_fast clock src dst sources s in
      if full then searched else elim live [
        | x ∷ xs ↦ priced (x ∷ xs) s
        | [] ↦ if allow_escalate then searched else priced [] s
      ]

  unfoldable pub find_paths :
      Books A T D
      → Cache L
      → Bool
      → Bool
      → Bool
      → Clock
      → ℕ
      → ℕ
      → PathSession A D E M V
      → Found (PathSession A D E M V) E M
  unfolding sources_of find_from
  find_paths books cache full allow_escalate force_fast clock src dst s =
      elim (sources_of lib pay rpc cfg cache force_fast clock src dst s) [
        | none ↦ record { session = s; ok = false; did_full_search = false; alternatives = [] }
        | some (sources, cut) ↦
            find_from books cache full allow_escalate force_fast clock src dst sources
              (record s { truncated = cut })
      ]

-- ===== src/PathSession/Search/Order.antt =====
-- The order of the alternatives of a full search, and what their paths are.
use edgy.PathSession.Pricing.{take_paths, capped_paths, price, max_amount, entry}
use edgy.PathSession.Sources.{order_sources, depth_now, Clock}
use edgy.Prelude.{
  true, ℕ, zero, suc, ◌≡◌, ◌≢◌, ◌≤◌, Bool, if_keeps, Option, none, some, List, [], ◌∷◌, ◌++◌, All,
  All-append, length, refl, arith, inl, inr, Option-cases, subst, sym,
}
use edgy.Containers.Eq.{Eq}
use edgy.Books.{Xrpl, Books}
use edgy.Graph.{Payments, Request, Calc}
use edgy.Graph.Budget.{ℤ, SearchBudget, for_depth}
use edgy.Graph.Chain.{IsPayable}
use edgy.Graph.Finder.{search}
use edgy.Graph.Finder.Results.{search-Payable}
use edgy.PathSession.{Alternative, Config, Rpc, Cache, PathSession}
use edgy.PathSession.Search.{search_paths, search_source, file_entry, search_each, full_search}

module _ {E : Type 0} where
  -- At most six paths, each of one to eight elements.
  abbrev pub Fits : List (List E) → Type 0
  Fits paths = (length paths ≤ 6) × All IsPayable paths

  length-take_paths : (n : ℕ) (paths : List (List E)) → length (take_paths n paths) ≤ n
  unfolding take_paths
  length-take_paths n [] = omega arith
  length-take_paths zero (p ∷ ps) = omega arith
  length-take_paths (suc n) (p ∷ ps) = omega (arith, length-take_paths n ps)

  All-take_paths :
      (P : List E → Type 0) (n : ℕ) (paths : List (List E))
      → All P paths
      → All P (take_paths n paths)
  unfolding take_paths
  All-take_paths P n [] h = tt
  All-take_paths P zero (p ∷ ps) h = tt
  All-take_paths P (suc n) (p ∷ ps) h = (h.0, All-take_paths P n ps h.1)

module _ {E M : Type 0} where
  abbrev pub WithPaths : Alternative E M → Type 0
  WithPaths x = (x.paths_computed ≢ []) × Fits x.paths_computed

  abbrev pub ByDefault : Alternative E M → Type 0
  ByDefault x = x.paths_computed ≡ []

  -- Those with paths come before those that pay by the default path.
  pub PathsFirst : List (Alternative E M) → Type 0
  PathsFirst alternatives =
      (xs ys : List (Alternative E M)) × (alternatives ≡ xs ++ ys)
      × All WithPaths xs
      × All ByDefault ys

  FitsEntry : Option (Alternative E M) → Type 0
  FitsEntry none = Unit
  FitsEntry (some x) = Fits x.paths_computed

  Filed : List (Alternative E M) × List (Alternative E M) → Type 0
  Filed filed = All WithPaths filed.0 × All ByDefault filed.1

  appended-PathsFirst :
      (filed : List (Alternative E M) × List (Alternative E M))
      → Filed filed
      → PathsFirst (filed.0 ++ filed.1)
  unfolding PathsFirst Filed
  appended-PathsFirst filed w = (filed.0, filed.1, refl, w.0, w.1)

none-Filed : (E M : Type 0) → Filed {E = E} {M = M} ([], [])
unfolding Filed
none-Filed E M = (tt, tt)

pub none-PathsFirst : (E M : Type 0) → PathsFirst {E = E} {M = M} []
unfolding PathsFirst
none-PathsFirst E M = ([], [], refl, tt, tt)

module _ {A T D E M L V : Type 0} ⦃a : Eq A⦄ ⦃t : Eq T⦄ ⦃d : Eq D⦄ ⦃e : Eq E⦄ (lib : Xrpl A T)
    (pay : Payments A D E M L) (rpc : Rpc A D E M L V) (cfg : Config) where
  search_paths-Fits :
      (books : Books A T D) (req : Request A D E M L)
      → Fits (search_paths lib pay rpc cfg books req)
  unfolding search_paths capped_paths
  search_paths-Fits books req = elim (Option-cases (search lib pay books req)) [
    | inl q ↦ rw (q, search_paths) (omega arith, tt)
    | inr (found, q) ↦
        rw (q, search_paths)
          (
            length-take_paths 6 found.paths,
            All-take_paths IsPayable 6 found.paths (search-Payable lib pay books req found q).1,
          )
  ]

  price-Fits :
      (ledger : L) (src dst : ℕ) (asset : A) (amount : M) (paths : List (List E))
      (s : PathSession A D E M V)
      → Fits paths
      → FitsEntry (price lib pay rpc cfg ledger src dst asset amount paths s)
  unfolding price FitsEntry entry
  price-Fits ledger src dst asset amount paths s f = of_calc (
      rpc.calculate ledger true s.convert_all (max_amount lib pay rpc cfg src asset s) amount dst
        src paths s.domain)
    where
      of_calc :
          (c : Calc M)
          → FitsEntry (elim c as (λ _. Option (Alternative E M)) [
            | Calc.threw ↦ none
            | Calc.failed ↦ none
            | Calc.delivered amount_out amount_in ↦
                some (entry lib pay rpc cfg src asset paths amount_in amount_out s)
          ])
      of_calc Calc.threw = tt
      of_calc Calc.failed = tt
      of_calc (Calc.delivered amount_out amount_in) = f

  file_entry-Filed :
      (o : Option (Alternative E M)) (filed : List (Alternative E M) × List (Alternative E M))
      → FitsEntry o
      → Filed filed
      → Filed (file_entry lib pay rpc cfg o filed)
  unfolding file_entry FitsEntry Filed
  file_entry-Filed none filed f w = w
  file_entry-Filed (some x) filed f w = of_paths x.paths_computed refl f
    where
      of_paths :
          (paths : List (List E))
          → x.paths_computed ≡ paths
          → Fits paths
          → Filed (elim paths as (λ _. List (Alternative E M) × List (Alternative E M)) [
            | [] ↦ (filed.0, filed.1 ++ x ∷ [])
            | p ∷ ps ↦ (filed.0 ++ x ∷ [], filed.1)
          ])
      of_paths [] q g = (w.0, All-append ByDefault filed.1 (x ∷ []) w.1 (q, tt))
      of_paths (p ∷ ps) q g = (
        All-append WithPaths filed.0 (x ∷ []) w.0
            (((λ z. absurd (ground (arith, z, q))), subst Fits (sym q) g), tt),
        w.1,
      )

  search_each-Filed :
      (books : Books A T D) (ledger : L) (src dst : ℕ) (amount : M) (budget : SearchBudget)
      (clock : Clock) (n : ℕ) (assets : List A)
      (filed : List (Alternative E M) × List (Alternative E M)) (s : PathSession A D E M V)
      → Filed filed
      → Filed
          (search_each lib pay rpc cfg books ledger src dst amount budget clock n assets filed s).1
  unfolding search_each search_source
  search_each-Filed books ledger src dst amount budget clock n [] filed s w = w
  search_each-Filed books ledger src dst amount budget clock n (asset ∷ assets) filed s w =
      if_keeps
        (λ (r : PathSession A D E M V × (List (Alternative E M) × List (Alternative E M))).
          Filed r.1)
        (clock.go_source n)
        (λ _. search_each-Filed books ledger src dst amount budget clock (suc n) assets _ _ (
          file_entry-Filed _ filed
            (price-Fits ledger src dst asset amount _ s (search_paths-Fits books _)) w))
        (λ _. w)

  -- The alternatives of a full search.
  pub full_search-PathsFirst :
      (books : Books A T D) (cache : Cache L) (fast : Bool) (clock : Clock) (src dst : ℕ)
      (sources : List A) (s : PathSession A D E M V)
      → PathsFirst
          (full_search lib pay rpc cfg books cache fast clock src dst sources s).alternatives
  unfolding full_search
  full_search-PathsFirst books cache fast clock src dst sources s =
      let budget = for_depth (depth_now lib pay rpc cfg fast clock.search_age s) in
      appended-PathsFirst _ (
        search_each-Filed books cache.ledger src dst (rpc.convert_amount s.dst_amount s.convert_all)
          budget clock 0 (order_sources lib pay rpc cfg sources s) ([], [])
          (record s { last_depth = ℤ.pos budget.depth }) (none-Filed E M))

-- ===== src/Graph/Finder/Results.antt =====
-- What a search returns.
use edgy.Prelude.{
  arith, ℕ, ◌≤◌, ◌≡◌, List, [], ◌∷◌, map, All, All-map, Option, none, some, length, refl, subst,
  sym, ap, ◌∙◌,
}
use mathlib.Core.Option.{some-injective}
use edgy.Containers.Eq.{Eq, nat_eq, list_eq}
use edgy.Books.{Xrpl, Books}
use edgy.Graph.{Payments, Request, FastPathResult}
use edgy.Graph.Budget.{max_path_count}
use edgy.Graph.Chain.{IsPayable, Joined, Traded, Joined-Traded}
use edgy.Books.Consistent.{IsConsistent}
use edgy.Graph.Candidates.{short_candidates, add_extra, book_path, dst_asset}
use edgy.Graph.Candidates.Keeps.{add_extra-All}
use edgy.Graph.Candidates.Routes.{short_candidates-All}
use edgy.Graph.Walk.{long_candidates}
use edgy.Graph.Walk.Keeps.{long_candidates-Found}
use edgy.Graph.Walk.Total.{long_candidates-Ends}
use edgy.Graph.Ranking.{rank_all, path_at, hop_currency_key, src_max_amount, min_dst_amount}
use edgy.Graph.Ranking.Liquid.{IsLiquid, rank_all-Stands}
use edgy.Graph.Finder.{search, select, with_candidates, no_result}
use edgy.Graph.Finder.Choice.{Distinct, ShortFirst, select-Payable, select-ShortFirst}
use edgy.Graph.Finder.Keys.{select-Distinct}

none_is_not : {X : Type 0} (x : X) → none ≡ some x → ⊥
none_is_not x e = ground arith

module _ {A T D E M L : Type 0} ⦃a : Eq A⦄ ⦃t : Eq T⦄ ⦃d : Eq D⦄ ⦃e : Eq E⦄ (lib : Xrpl A T)
    (pay : Payments A D E M L) (books : Books A T D) (req : Request A D E M L) where
  -- A search returns a result, whatever the callback says and whether there is a ledger or not.
  pub search_total : (r : FastPathResult E) × (search lib pay books req ≡ some r)
  unfolding search
  search_total = from_ledger req.ledger
    where
      from_ledger :
          (l : Option L)
          → (r : FastPathResult E) × (elim l [
            | none ↦ some (no_result lib pay books req 0)
            | some ledger ↦
                elim (long_candidates lib pay books req (short_candidates lib pay books req)) [
                  | none ↦ none
                  | some found ↦ some (
                      with_candidates lib pay books req ledger found.0
                        (add_extra found.1 req.extra))
                ]
          ]
              ≡ some r)
      from_ledger none = (_, refl)
      from_ledger (some ledger) =
          let ends = long_candidates-Ends lib pay books req (short_candidates lib pay books req) in
          (
            _,
            ap
                (λ o. elim o [
                  | none ↦ none
                  | some found ↦ some (
                      with_candidates lib pay books req ledger found.0
                        (add_extra found.1 req.extra))
                ])
                ends.1,
          )

  -- What holds of the paths that are left where there is no ledger or no candidate, and of those
  -- that are chosen among candidates with Q, holds of the result.
  search_keeps {ℓ κ} :
      (K : List (List E) → Type ℓ) (Q : List E → Type κ)
      → ((hops : List A)
          → Joined lib books req.domain req.src_asset hops (dst_asset lib pay books req)
          → IsPayable (book_path lib pay books req hops)
          → Q (book_path lib pay books req hops))
      → All (λ path. IsPayable path → Q path) req.extra
      → K []
      → ((ledger : L) (calls : ℕ) (candidates : List (List E))
          → req.ledger ≡ some ledger
          → All Q candidates
          → K
              (select pay req candidates (
                rank_all pay req ledger
                  (src_max_amount pay req lib)
                  (min_dst_amount pay req)
                  calls
                  candidates)).paths)
      → (r : FastPathResult E) → search lib pay books req ≡ some r
      → K r.paths
  unfolding search
  search_keeps K Q route extra empty chosen r found = from_ledger req.ledger refl found
    where
      selected :
          (ledger : L) (calls : ℕ) (candidates : List (List E))
          → req.ledger ≡ some ledger
          → All Q candidates
          → K (with_candidates lib pay books req ledger calls candidates).paths
      selected ledger calls [] l qs = empty
      selected ledger calls (path ∷ paths) l qs = chosen ledger calls (path ∷ paths) l qs

      from_walk :
          (ledger : L) (o : Option (ℕ × List (List E)))
          → req.ledger ≡ some ledger
          → long_candidates lib pay books req (short_candidates lib pay books req) ≡ o
          → elim o [
            | none ↦ none
            | some found ↦
                some
                  (with_candidates lib pay books req ledger found.0 (add_extra found.1 req.extra))
          ]
            ≡ some r
          → K r.paths
      from_walk ledger none l w f = absurd (none_is_not r f)
      from_walk ledger (some found) l w f =
          subst (λ (u : FastPathResult E). K u.paths) (some-injective _ _ f)
            (selected ledger found.0 (add_extra found.1 req.extra) l (
              add_extra-All Q found.1 req.extra extra (
                long_candidates-Found lib pay books req Q route _
                  (short_candidates-All lib pay books req Q route) found w)))

      from_ledger :
          (l : Option L)
          → req.ledger ≡ l
          → elim l [
            | none ↦ some (no_result lib pay books req 0)
            | some ledger ↦
                elim (long_candidates lib pay books req (short_candidates lib pay books req)) [
                  | none ↦ none
                  | some found ↦ some (
                      with_candidates lib pay books req ledger found.0
                        (add_extra found.1 req.extra))
                ]
          ]
            ≡ some r
          → K r.paths
      from_ledger none l f =
          subst (λ (u : FastPathResult E). K u.paths) (some-injective _ _ f) empty
      from_ledger (some ledger) l f = from_walk ledger _ l refl f

  anything : (Q : List E → Type 0) (paths : List (List E)) → All (λ p. Q p → Q p) paths
  anything Q [] = tt
  anything Q (p ∷ ps) = ((λ h. h), anything Q ps)

  -- A search returns at most six paths, each of one to eight elements, as a payment asks.
  pub search-Payable :
      (r : FastPathResult E)
      → search lib pay books req ≡ some r
      → (length r.paths ≤ max_path_count) × All IsPayable r.paths
  search-Payable r found =
      search_keeps (λ paths. (length paths ≤ max_path_count) × All IsPayable paths) IsPayable
        (λ hops j p. p) (anything IsPayable req.extra) (omega arith, tt)
        (λ ledger calls candidates l qs.
          let ok = select-Payable pay req candidates IsPayable _ (
            All-map _ (λ rank. IsPayable (path_at rank.index candidates)) _ (λ rank p. p.0)
              (rank_all-Stands pay req ledger _ _ IsPayable calls candidates qs)) in
          (ok.0, All-map _ IsPayable _ (λ p h. h.1) ok.1))
        r found

  -- The paths of one and two hops come first.
  pub search-ShortFirst :
      (r : FastPathResult E) → search lib pay books req ≡ some r → ShortFirst r.paths
  search-ShortFirst =
      search_keeps ShortFirst IsPayable (λ hops j p. p) (anything IsPayable req.extra)
        ([], [], refl, tt, tt)
        (λ ledger calls candidates l qs. select-ShortFirst pay req candidates _)

  -- No two paths of a result visit the same currencies in the same order.
  pub search-Distinct :
      (r : FastPathResult E)
      → search lib pay books req ≡ some r
      → Distinct (map (hop_currency_key pay req) r.paths)
  search-Distinct =
      search_keeps (λ paths. Distinct (map (hop_currency_key pay req) paths)) IsPayable
        (λ hops j p. p) (anything IsPayable req.extra) tt
        (λ ledger calls candidates l qs. select-Distinct pay req candidates _)

  -- RippleCalc delivers over each path that is returned, on the ledger of the search and for its
  -- amounts.
  pub search-Liquid :
      (ledger : L) (r : FastPathResult E)
      → req.ledger ≡ some ledger
      → search lib pay books req ≡ some r
      → All (IsLiquid pay req ledger (src_max_amount pay req lib) (min_dst_amount pay req)) r.paths
  search-Liquid ledger r l found =
      search_keeps (All (Liquid ledger)) IsPayable (λ hops j p. p) (anything IsPayable req.extra) tt
        (λ other calls candidates o qs.
          subst
            (λ x.
              All (Liquid x)
                (select pay req candidates (
                  rank_all pay req other (src_max_amount pay req lib) (min_dst_amount pay req) calls
                    candidates)).paths)
            (some-injective _ _ (sym o ∙ l))
            (All-map _ (Liquid other) _ (λ p h. h.1)
              (select-Payable pay req candidates (Liquid other) _ (
                All-map _ (λ rank. Liquid other (path_at rank.index candidates)) _ (λ rank p. p.1)
                  (rank_all-Stands pay req other _ _ IsPayable calls candidates qs))).1))
        r found
    where
      Liquid : L → List E → Type 0
      Liquid x = IsLiquid pay req x (src_max_amount pay req lib) (min_dst_amount pay req)

  -- A path of steps that the graph has, from the source to the destination.
  abbrev Found : List E → Type 0
  Found path =
      (hops : List A) × (path ≡ book_path lib pay books req hops)
      × Joined lib books req.domain req.src_asset hops (dst_asset lib pay books req)

  search-Found :
      (r : FastPathResult E)
      → req.extra ≡ []
      → search lib pay books req ≡ some r
      → All Found r.paths
  search-Found r none_extra found =
      search_keeps (All Found) Found (λ hops j p. (hops, refl, j))
        (subst (λ ps. All (λ p. IsPayable p → Found p) ps) (sym none_extra) tt) tt
        (λ ledger calls candidates l qs.
          All-map _ Found _ (λ p h. h.1)
            (select-Payable pay req candidates Found _ (
              All-map _ (λ rank. Found (path_at rank.index candidates)) _ (λ rank p. p.0)
                (rank_all-Stands pay req ledger _ _ Found calls candidates qs))).1)
        r found

  -- a path of books from the source to the destination
  abbrev pub IsRoute : List E → Type 0
  IsRoute path =
      (hops : List A) × (path ≡ book_path lib pay books req hops)
      × Traded lib books req.domain req.src_asset hops (dst_asset lib pay books req)

  -- Over maps that agree, and where the caller adds no path, each path that is returned leads from the
  -- source asset to the destination asset. For each of its steps there is a book: in a domain, the book
  -- of the step's two assets; among the open books, a book of these two in which another asset with the
  -- same token, as the same currency of another issuer, may stand for one of them.
  pub search-Route :
      (xrp : A) (r : FastPathResult E)
      → IsConsistent lib xrp books
      → req.extra ≡ []
      → search lib pay books req ≡ some r
      → All IsRoute r.paths
  search-Route xrp r w none_extra found =
      All-map Found IsRoute r.paths
        (λ p (hops, q, j). (
          hops,
          q,
          Joined-Traded lib books xrp w req.domain req.src_asset (dst_asset lib pay books req) hops
              j,
        ))
        (search-Found r none_extra found)

-- ===== src/Graph/Candidates/Routes.antt =====
-- The candidates of one to three hops are chains of books from the source to the destination.
use edgy.Prelude.{
  if_keeps, ◌/◌, if◌then◌else◌, ◌∙◌, sym, ℕ, Bool, true, false, ◌≡◌, List, [], ◌∷◌, map, All,
  All-append, inl, inr, refl, ◌&&◌, arith,
}
use edgy.Containers.Eq.{Eq}
use edgy.Containers.HashSet.{contains-All}
use edgy.Books.{Xrpl, Books}
use edgy.Books.Query.{has_book, intermediates}
use edgy.Books.Query.Routes.{contains-intermediates, reached_from}
use edgy.Graph.{Payments, Request}
use edgy.Graph.Chain.{IsPayable, Hop, Joined}
use edgy.Graph.Candidates.{
  book_path, dst_asset, pair_candidates, short_candidates, to_xrp, from_xrp, pairs, xrp_pairs,
  direct_pairs, exists_book, Scored, scored, skip_pair, skip_hub,
}
use edgy.Graph.Candidates.Keeps.{add_path-All, add_all-All, each_mid_keeps, sort-All}

and_both : (b c : Bool) → b && c ≡ true → (b ≡ true) × (c ≡ true)
and_both b c h = (ground arith, ground arith)

module _ {ℓ} {A T D E M L : Type 0} ⦃a : Eq A⦄ ⦃t : Eq T⦄ ⦃d : Eq D⦄ ⦃e : Eq E⦄ (lib : Xrpl A T)
    (pay : Payments A D E M L) (books : Books A T D) (req : Request A D E M L) (Q : List E → Type ℓ)
    (route : (hops : List A)
      → Joined lib books req.domain req.src_asset hops (dst_asset lib pay books req)
      → IsPayable (book_path lib pay books req hops)
      → Q (book_path lib pay books req hops)) where
  abbrev Reaches : List A → Type 0
  Reaches hops = Joined lib books req.domain req.src_asset hops (dst_asset lib pay books req)

  abbrev Between : A → A → A → Type 0
  Between x y mid = Hop lib books req.domain x mid × Hop lib books req.domain mid y

  mids-Between : (x y : A) → All (Between x y) (intermediates lib x y req.domain books)
  mids-Between x y =
      contains-All (Between x y) (intermediates lib x y req.domain books)
        (λ mid h. both mid (contains-intermediates lib x y mid req.domain books) h)
    where
      both :
          {i : Bool} (mid : A)
          → i ≡ has_book lib x mid req.domain books && reached_from lib mid y req.domain books
          → i ≡ true
          → Between x y mid
      both mid p h = let s = and_both _ _ (sym p ∙ h) in (inl s.0, inr s.1)

  one_if :
      (b : Bool) (p : Scored A)
      → (b ≡ true → Reaches p.hops)
      → All (λ q. Reaches q.hops) (if b then p ∷ [] else [])
  one_if true p h = (h refl, tt)
  one_if false p h = tt

  direct_pairs-Reaches : All (λ p. Reaches p.hops) (direct_pairs lib pay books req)
  unfolding direct_pairs scored exists_book
  direct_pairs-Reaches = one_if _ _ (λ h. (inl h, refl))

  xrp_pairs-Reaches : All (λ p. Reaches p.hops) (xrp_pairs lib pay books req)
  unfolding xrp_pairs scored exists_book
  xrp_pairs-Reaches =
      one_if _ _ (λ h. let hs = and_both _ _ (and_both _ _ h).1 in (inl hs.0, (inl hs.1, refl)))

  pairs-Reaches : All (λ p. Reaches p.hops) (pairs lib pay books req).1
  unfolding pairs scored
  pairs-Reaches =
      each_mid_keeps req.go (skip_pair lib pay books req) req.budget.two_hop _
        (Between req.src_asset (dst_asset lib pay books req)) (All (λ p. Reaches p.hops))
        (λ mid s h ps. All-append _ s _ ps ((h.0, (h.1, refl)), tt))
        (intermediates lib req.src_asset (dst_asset lib pay books req) req.domain books) 0 0 _
        (mids-Between _ _)
        (All-append _ (direct_pairs lib pay books req) _ direct_pairs-Reaches xrp_pairs-Reaches)

  paths_of :
      (ps : List (Scored A))
      → All (λ p. Reaches p.hops) ps
      → All (λ path. IsPayable path → Q path) (map (λ p. book_path lib pay books req p.hops) ps)
  paths_of [] h = tt
  paths_of (p ∷ ps) h = (route p.hops h.0, paths_of ps h.1)

  pair_candidates-All : All Q (pair_candidates lib pay books req).1
  unfolding pair_candidates
  pair_candidates-All =
      add_all-All Q [] _ (paths_of _ (sort-All _ (λ p. Reaches p.hops) _ pairs-Reaches)) tt

  to_xrp-All :
      (found : ℕ × List (List E)) → All Q found.1 → All Q (to_xrp lib pay books req found).1
  unfolding to_xrp exists_book
  to_xrp-All (k, set) qs =
      if_keeps (λ (r : ℕ × List (List E)). All Q r.1) _
        (λ h.
          each_mid_keeps req.go (skip_hub lib pay books req) (req.budget.two_hop / 2) _
            (Between req.src_asset pay.xrp) (All Q)
            (λ mid s m. add_path-All Q s _ (
              route (mid ∷ pay.xrp ∷ dst_asset lib pay books req ∷ [])
                (m.0, (m.1, (inl (and_both _ _ (and_both _ _ h).1).1, refl)))))
            (intermediates lib req.src_asset pay.xrp req.domain books) 0 k set (mids-Between _ _)
            qs)
        (λ _. qs)

  from_xrp-All :
      (found : ℕ × List (List E)) → All Q found.1 → All Q (from_xrp lib pay books req found).1
  unfolding from_xrp exists_book
  from_xrp-All (k, set) qs =
      if_keeps (λ (r : ℕ × List (List E)). All Q r.1) _
        (λ h.
          each_mid_keeps req.go (skip_hub lib pay books req) (req.budget.two_hop / 2) _
            (Between pay.xrp (dst_asset lib pay books req)) (All Q)
            (λ mid s m. add_path-All Q s _ (
              route (pay.xrp ∷ mid ∷ dst_asset lib pay books req ∷ [])
                (inl (and_both _ _ (and_both _ _ h).1).1, (m.0, (m.1, refl)))))
            (intermediates lib pay.xrp (dst_asset lib pay books req) req.domain books) 0 k set
            (mids-Between _ _) qs)
        (λ _. qs)

  pub short_candidates-All : All Q (short_candidates lib pay books req).1
  unfolding short_candidates
  short_candidates-All = from_xrp-All _ (to_xrp-All _ pair_candidates-All)

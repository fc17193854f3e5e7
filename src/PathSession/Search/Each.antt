-- ===== src/PathSession/Search/Each.antt =====
-- What the loop over the sources changes of a session: the paths that it remembers.
use edgy.PathSession.Sources.{Clock}
use edgy.Prelude.{ℕ, suc, ◌≡◌, if_keeps, List, [], ◌∷◌, refl, ◌∙◌}
use edgy.Containers.Eq.{Eq}
use edgy.Books.{Xrpl, Books}
use edgy.Graph.{Payments}
use edgy.Graph.Budget.{SearchBudget}
use edgy.PathSession.{Alternative, Config, Rpc, PathSession}
use edgy.PathSession.Search.{search_each, search_source}

module _ {A T D E M L V : Type 0} ⦃a : Eq A⦄ ⦃t : Eq T⦄ ⦃d : Eq D⦄ ⦃e : Eq E⦄ (lib : Xrpl A T)
    (pay : Payments A D E M L) (rpc : Rpc A D E M L V) (cfg : Config) where
  pub search_each_keeps :
      {X : Type 0} (f : PathSession A D E M V → X)
      → ((s : PathSession A D E M V) (context : List (A × List (List E)))
          → f (record s { context = context }) ≡ f s)
      → (books : Books A T D) (ledger : L) (src dst : ℕ) (amount : M) (budget : SearchBudget)
        (clock : Clock) (n : ℕ) (assets : List A)
        (filed : List (Alternative E M) × List (Alternative E M)) (s : PathSession A D E M V)
      → f (search_each lib pay rpc cfg books ledger src dst amount budget clock n assets filed s).0
        ≡ f s
  unfolding search_each search_source
  search_each_keeps f k books ledger src dst amount budget clock n [] filed s = refl
  search_each_keeps f k books ledger src dst amount budget clock n (asset ∷ assets) filed s =
      if_keeps
        (λ (r : PathSession A D E M V × (List (Alternative E M) × List (Alternative E M))).
          f r.0 ≡ f s)
        (clock.go_source n)
        (λ _.
          search_each_keeps f k books ledger src dst amount budget clock (suc n) assets _ _ ∙ k s _)
        (λ _. refl)

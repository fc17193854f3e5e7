-- ===== src/PathSession/Pricing.antt =====
-- What one source pays: `revalidatePaths` of `PathSession`, and the calculation at the end of a search.
use edgy.Prelude.{ℕ, zero, suc, true, false, not, if◌then◌else◌, Option, none, some, List, [], ◌∷◌}
use edgy.Containers.Eq.{Eq}
use edgy.Containers.HashMap.{find}
use edgy.Books.{Xrpl}
use edgy.Graph.{Payments, Calc}
use edgy.Graph.Ranking.{path_find_max_paths}
use edgy.PathSession.{Alternative, Config, Rpc, PathSession}

-- The first `n` paths of a set.
unfoldable pub take_paths : {E : Type 0} → ℕ → List (List E) → List (List E)
take_paths n [] = []
take_paths zero (p ∷ ps) = []
take_paths (suc n) (p ∷ ps) = p ∷ take_paths n ps

-- cappedPaths
unfoldable pub capped_paths : {E : Type 0} → List (List E) → List (List E)
unfolding take_paths
capped_paths paths = take_paths path_find_max_paths paths

module _ {A T D E M L V : Type 0} ⦃a : Eq A⦄ ⦃t : Eq T⦄ ⦃d : Eq D⦄ ⦃e : Eq E⦄ (lib : Xrpl A T)
    (pay : Payments A D E M L) (rpc : Rpc A D E M L V) (cfg : Config) where
  -- context_[asset]
  unfoldable pub context_at : A → PathSession A D E M V → List (List E)
  context_at asset s = elim (find asset s.context) [ none ↦ [] | some paths ↦ paths ]

  -- The account that a payment of this asset comes from.
  unfoldable pub source_account : ℕ → A → ℕ
  source_account src asset =
      if not (pay.is_xrp_account (pay.get_issuer asset))
      then pay.get_issuer asset
      else if lib.is_xrp asset
      then pay.xrp_account
      else src

  -- The most that may be sent.
  unfoldable pub max_amount : ℕ → A → PathSession A D E M V → M
  max_amount src asset s = elim s.send_max [
    | some m ↦ m
    | none ↦ elim (pay.currency_of asset) [
      | some c ↦ pay.one_of_issue c (source_account src asset)
      | none ↦ pay.one_of_mpt asset
    ]
  ]

  -- The entry for a payment that RippleCalc delivers.
  unfoldable pub entry : ℕ → A → List (List E) → M → M → PathSession A D E M V → Alternative E M
  entry src asset paths amount_in amount_out s = record {
    source_amount = rpc.force_issue_account amount_in (source_account src asset);
    paths_computed = paths;
    destination_amount = if s.convert_all then some amount_out else none;
    paths_canonical = s.one_shot;
  }

  -- Whether `paths` still pay, with the entry if they do.
  revalidate_paths : L → A → List (List E) → M → PathSession A D E M V → Option (Alternative E M)
  unfolding max_amount entry capped_paths
  revalidate_paths ledger asset [] amount s = none
  revalidate_paths ledger asset (p ∷ ps) amount s = elim s.src [
    | none ↦ none
    | some src ↦ elim s.dst [
      | none ↦ none
      | some dst ↦
          elim (rpc.calculate ledger false s.convert_all (max_amount src asset s) amount dst src
            (p ∷ ps) s.domain) [
              | Calc.threw ↦ none
              | Calc.failed ↦ none
              | Calc.delivered amount_out amount_in ↦
                  some (entry src asset (capped_paths (p ∷ ps)) amount_in amount_out s)
            ]
    ]
  ]

  unfoldable pub revalidate_all : L → List A → M → PathSession A D E M V → List (Alternative E M)
  unfolding context_at revalidate_paths
  revalidate_all ledger [] amount s = []
  revalidate_all ledger (asset ∷ assets) amount s =
      let rest = revalidate_all ledger assets amount s in
      elim (revalidate_paths ledger asset (context_at asset s) amount s) [
        | none ↦ rest
        | some alternative ↦ alternative ∷ rest
      ]

  -- The entry of one source, where RippleCalc delivers over its paths or by default.
  unfoldable pub price :
      L → ℕ → ℕ → A → M → List (List E) → PathSession A D E M V → Option (Alternative E M)
  unfolding max_amount entry
  price ledger src dst asset amount paths s =
      elim (rpc.calculate ledger true s.convert_all (max_amount src asset s) amount dst src paths
        s.domain) [
          | Calc.threw ↦ none
          | Calc.failed ↦ none
          | Calc.delivered amount_out amount_in ↦
              some (entry src asset paths amount_in amount_out s)
        ]

-- ===== src/PathSession/Sources.antt =====
-- The sources of a request, as `findPaths` chooses and orders them.
pub mod Limits
use edgy.Containers.HashSet.{contains}
use edgy.Prelude.{
  false, true, ℕ, ◌==◌, leb, min, Bool, not, ◌||◌, if◌then◌else◌, Option, none, some, List, [], ◌∷◌,
  length,
}
use edgy.Containers.Eq.{Eq}
use edgy.Books.{Xrpl}
use edgy.Graph.{Payments}
use edgy.Graph.Budget.{ℤ, for_depth, depth_for}
use edgy.Graph.Candidates.{sort}
use edgy.PathSession.{PathAsset, Config, Rpc, Cache, PathSession}
use edgy.PathSession.Parse.{insert_asset, max_src_cur, asset_for}

-- What the clock shows in one call: the age of the session when the sources are chosen and when the
-- search starts, and what the callback returns before the n-th source, and to the search of the n-th
-- source at its k-th call.
pub record Clock : Type 0 where
  pub source_age : ℕ
  pub search_age : ℕ
  pub go_source : ℕ → Bool
  pub go : ℕ → ℕ → Bool

module _ {A T D E M L V : Type 0} ⦃a : Eq A⦄ ⦃t : Eq T⦄ ⦃d : Eq D⦄ ⦃e : Eq E⦄ (lib : Xrpl A T)
    (pay : Payments A D E M L) (rpc : Rpc A D E M L V) (cfg : Config) where
  -- Whether a token may be a source: on one account, only one that is not the destination's.
  unfoldable pub eligible : Bool → PathAsset → PathSession A D E M V → Bool
  eligible same_account token s =
      not same_account || not (rpc.same_token token (pay.asset s.dst_amount))

  -- The asset that the account has the token as.
  unfoldable pub own_asset : PathAsset → ℕ → A
  unfolding asset_for
  own_asset token src =
      let issuer : ℕ = elim token [
        | PathAsset.currency k ↦ if k == 0 then pay.xrp_account else src
        | PathAsset.mpt k ↦ src
      ] in
      asset_for lib pay rpc token issuer

  -- The sources that an account has of itself, and whether the soft limit cuts them; `none` where
  -- there are as many as the hard limit before another token that may be one.
  unfoldable pub auto_sources :
      ℕ → ℕ → Bool → List PathAsset → PathSession A D E M V → List A → ℕ → Option (List A × Bool)
  unfolding insert_asset own_asset eligible
  auto_sources hard_max soft_max same_account [] s found src = some (found, false)
  auto_sources hard_max soft_max same_account (token ∷ tokens) s found src =
      let skip = auto_sources hard_max soft_max same_account tokens s found src in
      let next =
        auto_sources hard_max soft_max same_account tokens s
          (insert_asset rpc.asset_less (own_asset token src) found) src in
      if eligible same_account token s
      then if leb hard_max (length found)
        then none
        else if leb soft_max (length found)
        then some (found, true)
        else next
      else skip

  -- The depth that a search of this age uses.
  unfoldable pub depth_now : Bool → ℕ → PathSession A D E M V → ℤ
  depth_now force_fast age s =
      if force_fast
      then cfg.search_fast
      else ℤ.pos (depth_for s.one_shot (ℤ.pos s.searches_done) age cfg.search_fast cfg.search)

  -- The tokens that the account holds, in the order that they are tried in.
  abbrev pub own_tokens : Cache L → ℕ → List PathAsset
  own_tokens cache src = sort rpc.source_before (cache.source_assets src)

  -- The most sources that a search takes of the account itself.
  unfoldable pub hard_max_of : Bool → Clock → PathSession A D E M V → ℕ
  unfolding depth_now
  hard_max_of force_fast clock s =
      min (for_depth (depth_now force_fast clock.source_age s)).auto_sources max_src_cur

  -- The sources of the request, in the order of assets, and whether they are cut.
  unfoldable pub sources_of :
      Cache L → Bool → Clock → ℕ → ℕ → PathSession A D E M V → Option (List A × Bool)
  unfolding hard_max_of auto_sources
  sources_of cache force_fast clock src dst s =
      let hard_max = hard_max_of force_fast clock s in
      let soft_max = hard_max in
      let auto = auto_sources hard_max soft_max (src == dst) (own_tokens cache src) s [] src in
      elim s.source_assets [
        | x ∷ xs ↦ some (x ∷ xs, false)
        | [] ↦ elim s.send_max [ some m ↦ some (pay.asset m ∷ [], false) | none ↦ auto ]
      ]

  -- `send_max` comes first, if it is a source.
  without_asset : A → List A → List A
  without_asset x [] = []
  without_asset x (y ∷ ys) =
      let rest = without_asset x ys in elim (a.dec y x) [ yes _ ↦ rest | no _ ↦ y ∷ rest ]

  unfoldable pub order_sources : List A → PathSession A D E M V → List A
  unfolding without_asset
  order_sources sources s = elim s.send_max [
    | none ↦ sources
    | some m ↦
        if contains (pay.asset m) sources
        then pay.asset m ∷ without_asset (pay.asset m) sources
        else sources
  ]

-- ===== src/PathSession/Sources/Limits.antt =====
-- The limits of `findPaths` on the sources that an account has of itself.
use edgy.Prelude.{
  ℕ, suc, ◌≡◌, ◌<◌, ◌≤◌, leb, Bool, true, false, if◌then◌else◌, Option, none, some, List, [], ◌∷◌,
  length, arith,
}
use edgy.Containers.Eq.{Eq}
use edgy.Books.{Xrpl}
use edgy.Graph.{Payments}
use edgy.PathSession.{PathAsset, Config, Rpc, PathSession}
use edgy.PathSession.Parse.{insert_asset}
use edgy.PathSession.Sources.{auto_sources, eligible, own_asset}

length-insert_asset :
    {A : Type 0} (less : A → A → Bool) (x : A) (xs : List A)
    → length (insert_asset less x xs) ≤ suc (length xs)
unfolding insert_asset
length-insert_asset less x [] = omega arith
length-insert_asset less x (y ∷ ys) = ground (arith, length-insert_asset less x ys)

module _ {A T D E M L V : Type 0} ⦃a : Eq A⦄ ⦃t : Eq T⦄ ⦃d : Eq D⦄ ⦃e : Eq E⦄ (lib : Xrpl A T)
    (pay : Payments A D E M L) (rpc : Rpc A D E M L V) (cfg : Config) where
  -- All assets that an account may pay from, with those in `found`: no limit is looked at.
  unfoldable pub own_assets : Bool → List PathAsset → PathSession A D E M V → List A → ℕ → List A
  unfolding insert_asset own_asset eligible
  own_assets same [] s found src = found
  own_assets same (token ∷ tokens) s found src =
      let skip = own_assets same tokens s found src in
      let next =
        own_assets same tokens s
          (insert_asset rpc.asset_less (own_asset lib pay rpc cfg token src) found) src in
      if eligible lib pay rpc cfg same token s then next else skip

  -- An account with more assets than the hard limit has no sources.
  pub auto_sources-over :
      (hard_max soft_max : ℕ) (same : Bool) (tokens : List PathAsset) (s : PathSession A D E M V)
      (found : List A) (src : ℕ)
      → hard_max ≤ soft_max
      → length found ≤ hard_max
      → hard_max < length (own_assets same tokens s found src)
      → auto_sources lib pay rpc cfg hard_max soft_max same tokens s found src ≡ none
  unfolding auto_sources own_assets
  auto_sources-over hard_max soft_max same [] s found src l h over = absurd (omega (arith, h, over))
  auto_sources-over hard_max soft_max same (token ∷ tokens) s found src l h over =
      let x = own_asset lib pay rpc cfg token src in
      let bound = length-insert_asset rpc.asset_less x found in
      elim_test (eligible lib pay rpc cfg same token s) _ _
        (λ under.
          auto_sources-over hard_max soft_max same tokens s (insert_asset rpc.asset_less x found)
            src l (omega (arith, under, bound)))
        (auto_sources-over hard_max soft_max same tokens s found src l h) over
    where
      elim_test :
          (b : Bool) (ns ss : List A) {next skip : Option (List A × Bool)}
          → (length found < hard_max → hard_max < length ns → next ≡ none)
          → (hard_max < length ss → skip ≡ none)
          → hard_max < length (if b then ns else ss)
          → (if b
              then if leb hard_max (length found)
                then none
                else if leb soft_max (length found)
                then some (found, true)
                else next
              else skip)
            ≡ none
      elim_test true ns ss f g o = ground (arith, f, g, o, l)
      elim_test false ns ss f g o = g o

  -- Where the soft limit is no lower than the hard one, it cuts nothing.
  pub auto_sources-uncut :
      (hard_max soft_max : ℕ) (same : Bool) (tokens : List PathAsset) (s : PathSession A D E M V)
      (found : List A) (src : ℕ)
      → hard_max ≤ soft_max
      → (sources : List A) (cut : Bool)
      → auto_sources lib pay rpc cfg hard_max soft_max same tokens s found src ≡ some (sources, cut)
      → cut ≡ false
  unfolding auto_sources
  auto_sources-uncut hard_max soft_max same [] s found src l sources cut q = ground (arith, q)
  auto_sources-uncut hard_max soft_max same (token ∷ tokens) s found src l sources cut q =
      let x = own_asset lib pay rpc cfg token src in
      elim_test (eligible lib pay rpc cfg same token s)
        (auto_sources-uncut hard_max soft_max same tokens s (insert_asset rpc.asset_less x found)
          src l sources cut)
        (auto_sources-uncut hard_max soft_max same tokens s found src l sources cut) q
    where
      elim_test :
          (b : Bool) {next skip : Option (List A × Bool)}
          → (next ≡ some (sources, cut) → cut ≡ false)
          → (skip ≡ some (sources, cut) → cut ≡ false)
          → (if b
              then if leb hard_max (length found)
                then none
                else if leb soft_max (length found)
                then some (found, true)
                else next
              else skip)
            ≡ some (sources, cut)
          → cut ≡ false
      elim_test true f g o = ground (arith, f, o, l)
      elim_test false f g o = g o

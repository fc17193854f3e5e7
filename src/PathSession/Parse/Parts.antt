-- ===== src/PathSession/Parse/Parts.antt =====
-- What holds of `source_currencies` holds by three facts: of what may be set, of an error, and of one
-- part after another.
use edgy.Prelude.{
  length, ◌==◌, ◌&&◌, not, ltb, ◌||◌, ℕ, Bool, true, false, if◌then◌else◌, if_keeps, Option, none,
  some, List, [], ◌∷◌,
}
use edgy.Books.{Xrpl}
use edgy.Graph.{Payments}
use edgy.PathSession.{PathAsset, PathError, SourceCurrency, Params, Rpc, PathSession}
use edgy.PathSession.Parse.{
  max_src_cur, fail, add_asset, add_with_max, asset_for, place_asset, parse_source_currency,
  parse_each, parse_source_currencies, token_of, named_issuer, issuer_for,
}

module _ {A T D E M L V : Type 0} (lib : Xrpl A T) (pay : Payments A D E M L)
    (rpc : Rpc A D E M L V) (Q : PathSession A D E M V → PathSession A D E M V × Bool → Type 0)
    (sets : (s : PathSession A D E M V) (assets : List A)
      → Q s (record s { source_assets = assets }, true))
    (fails : (s : PathSession A D E M V) (code : PathError) → Q s (fail lib pay rpc code s))
    (after : (s s' : PathSession A D E M V) (r : PathSession A D E M V × Bool)
      → Q s (s', true)
      → Q s' r
      → Q s r) where
  add_with_max-holds :
      (token : PathAsset) (issuer src : ℕ) (m : M) (s : PathSession A D E M V)
      → Q s (add_with_max lib pay rpc token issuer src m s, true)
  unfolding add_with_max add_asset
  add_with_max-holds (PathAsset.mpt k) issuer src m s = sets s _
  add_with_max-holds (PathAsset.currency k) issuer src m s =
      if_keeps
        (λ (s' : PathSession A D E M V). Q s (add_asset lib pay rpc (lib.issue k src) s', true))
        (not (issuer == src)) (λ _. sets s _)
        (λ _.
          if_keeps
            (λ (s' : PathSession A D E M V). Q s (add_asset lib pay rpc (lib.issue k src) s', true))
            (not (rpc.issuer_of m == src)) (λ _. sets s _) (λ _. sets s _))

  place_asset-holds :
      (token : PathAsset) (issuer src : ℕ) (s : PathSession A D E M V)
      → Q s (place_asset lib pay rpc token issuer src s)
  unfolding place_asset
  place_asset-holds token issuer src s = of_max s.send_max
    where
      of_max :
          (o : Option M)
          → Q s (elim o as (λ _. PathSession A D E M V × Bool) [
            | none ↦ (add_asset lib pay rpc (asset_for lib pay rpc token issuer) s, true)
            | some m ↦
                if rpc.same_token token (pay.asset m)
                then if not (issuer == src)
                    && not (rpc.issuer_of m == src)
                    && not (issuer == rpc.issuer_of m)
                  then fail lib pay rpc PathError.src_isr_malformed s
                  else (add_with_max lib pay rpc token issuer src m s, true)
                else (s, true)
          ])
      of_max none = unfold add_asset in sets s _
      of_max (some m) =
          if_keeps (Q s) (rpc.same_token token (pay.asset m))
            (λ _.
              if_keeps (Q s)
                (not (issuer == src)
                  && not (rpc.issuer_of m == src)
                  && not (issuer == rpc.issuer_of m))
                (λ _. fails s _) (λ _. add_with_max-holds token issuer src m s))
            (λ _. sets s s.source_assets)

  parse_source_currency-holds :
      (src : ℕ) (c : SourceCurrency V) (s : PathSession A D E M V)
      → Q s (parse_source_currency lib pay rpc src c s)
  unfolding parse_source_currency
  parse_source_currency-holds src c s =
      if_keeps (Q s) c.valid (λ _. of_token (token_of lib pay rpc c)) (λ _. fails s _)
    where
      of_issuer :
          (token : PathAsset) (o : Option ℕ)
          → Q s (elim o as (λ _. PathSession A D E M V × Bool) [
            | none ↦ fail lib pay rpc PathError.src_cur_malformed s
            | some issuer ↦ place_asset lib pay rpc token issuer src s
          ])
      of_issuer token none = fails s _
      of_issuer token (some issuer) = place_asset-holds token issuer src s

      of_name :
          (token : PathAsset) (o : Option ℕ)
          → Q s (elim o as (λ _. PathSession A D E M V × Bool) [
            | none ↦ fail lib pay rpc PathError.src_isr_malformed s
            | some named ↦ elim (issuer_for lib pay rpc token named src) [
              | none ↦ fail lib pay rpc PathError.src_cur_malformed s
              | some issuer ↦ place_asset lib pay rpc token issuer src s
            ]
          ])
      of_name token none = fails s _
      of_name token (some named) = of_issuer token (issuer_for lib pay rpc token named src)

      of_token :
          (o : Option PathAsset)
          → Q s (elim o as (λ _. PathSession A D E M V × Bool) [
            | none ↦ fail lib pay rpc PathError.src_cur_malformed s
            | some token ↦ elim (named_issuer lib pay rpc c) [
              | none ↦ fail lib pay rpc PathError.src_isr_malformed s
              | some named ↦ elim (issuer_for lib pay rpc token named src) [
                | none ↦ fail lib pay rpc PathError.src_cur_malformed s
                | some issuer ↦ place_asset lib pay rpc token issuer src s
              ]
            ]
          ])
      of_token none = fails s _
      of_token (some token) = of_name token (named_issuer lib pay rpc c)

  parse_each-holds :
      (src : ℕ) (cs : List (SourceCurrency V)) (s : PathSession A D E M V)
      → Q s (parse_each lib pay rpc src cs s)
  unfolding parse_each
  parse_each-holds src [] s = sets s s.source_assets
  parse_each-holds src (c ∷ cs) s =
      going (parse_source_currency lib pay rpc src c s) (parse_source_currency-holds src c s)
        (λ s'. parse_each-holds src cs s')
    where
      going :
          (r : PathSession A D E M V × Bool)
          → Q s r
          → ((s' : PathSession A D E M V) → Q s' (parse_each lib pay rpc src cs s'))
          → Q s (if r.1 then parse_each lib pay rpc src cs r.0 else r)
      going (s', true) h k = after s s' _ h (k s')
      going (s', false) h k = h

  pub parse_source_currencies-holds :
      (p : Params V) (s : PathSession A D E M V) → Q s (parse_source_currencies lib pay rpc p s)
  unfolding parse_source_currencies
  parse_source_currencies-holds p s = of_given p.source_currencies
    where
      of_given :
          (o : Option (Option (List (SourceCurrency V))))
          → Q s (elim o as (λ _. PathSession A D E M V × Bool) [
            | none ↦ (s, true)
            | some none ↦ fail lib pay rpc PathError.src_cur_malformed s
            | some (some cs) ↦
                let src : ℕ = elim s.src [ none ↦ 0 | some a ↦ a ] in
                if length cs == 0 || ltb max_src_cur (length cs)
                then fail lib pay rpc PathError.src_cur_malformed s
                else parse_each lib pay rpc src cs (record s { source_assets = [] })
          ])
      of_given none = sets s s.source_assets
      of_given (some none) = fails s _
      of_given (some (some cs)) =
          if_keeps (Q s) (length cs == 0 || ltb max_src_cur (length cs)) (λ _. fails s _)
            (λ _. after s (record s { source_assets = [] }) _ (sets s []) (parse_each-holds _ cs _))

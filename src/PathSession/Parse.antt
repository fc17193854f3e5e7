-- ===== src/PathSession/Parse.antt =====
-- `PathSession::parseJson`. Each part leaves the session as it has set it so far, and says whether to
-- go on; where it does not, it has set the status to an error.
pub mod Keeps
pub mod Refuse
pub mod Parts
use edgy.Prelude.{
  ℕ, ◌==◌, ltb, Bool, true, false, not, ◌&&◌, ◌||◌, if◌then◌else◌, Option, none, some, List, [],
  ◌∷◌, length,
}
use edgy.Books.{Xrpl}
use edgy.Graph.{Payments}
use edgy.PathSession.{PathAsset, PathError, SourceCurrency, Params, rpc_error, Rpc, PathSession}

-- rpc::tuning::kMaxSrcCur
abbrev pub max_src_cur : ℕ
max_src_cur = 18

-- What is read of a member, where there is one.
abbrev pub read : {V X : Type 0} → Option V → (V → Option X) → Option X
read none f = none
read (some v) f = f v

module _ {A : Type 0} (less : A → A → Bool) where
  -- std::set<Asset>::insert
  unfoldable pub insert_asset : A → List A → List A
  insert_asset a [] = a ∷ []
  insert_asset a (x ∷ xs) =
      let rest = insert_asset a xs in
      if less a x then a ∷ x ∷ xs else if less x a then x ∷ rest else x ∷ xs

module _ {A T D E M L V : Type 0} (lib : Xrpl A T) (pay : Payments A D E M L)
    (rpc : Rpc A D E M L V) where
  -- The part of a parse.
  abbrev pub Part : Type 0
  Part = PathSession A D E M V → PathSession A D E M V × Bool

  unfoldable pub fail : PathError → Part
  fail e s = (record s { status = rpc_error e }, false)

  -- Each part runs where those before it go on.
  run_parts : List Part → Part
  run_parts [] s = (s, true)
  run_parts (f ∷ fs) s = let rest = run_parts fs (f s).0 in if (f s).1 then rest else f s

  parse_members : Params V → Part
  unfolding fail
  parse_members p s = elim p.source_account [
    | none ↦ fail PathError.src_act_missing s
    | some a ↦ elim p.destination_account [
      | none ↦ fail PathError.dst_act_missing s
      | some b ↦ elim p.destination_amount [
        | none ↦ fail PathError.dst_amt_missing s
        | some m ↦ (s, true)
      ]
    ]
  ]

  parse_source : Params V → Part
  unfolding fail
  parse_source p s = elim (read p.source_account rpc.parse_account) [
    | none ↦ fail PathError.src_act_malformed (record s { src = none })
    | some a ↦ (record s { src = some a }, true)
  ]

  parse_destination : Params V → Part
  unfolding fail
  parse_destination p s = elim (read p.destination_account rpc.parse_account) [
    | none ↦ fail PathError.dst_act_malformed (record s { dst = none })
    | some a ↦ (record s { dst = some a }, true)
  ]

  -- The amount, and whether it asks for all that can be converted.
  parse_amount : Params V → Part
  unfolding fail
  parse_amount p s = elim (read p.destination_amount rpc.parse_amount) [
    | none ↦ fail PathError.dst_amt_malformed s
    | some m ↦
        let s' = record s { dst_amount = m; convert_all = rpc.is_convert_all m } in
        if not (rpc.valid_asset (pay.asset m)) || not (rpc.is_convert_all m) && not (rpc.positive m)
        then fail PathError.dst_amt_malformed s'
        else (s', true)
  ]

  parse_send_max : Params V → Part
  unfolding fail
  parse_send_max p s = elim p.send_max [
    | none ↦ (s, true)
    | some v ↦
        let bad = fail PathError.sendmax_malformed s in
        if s.convert_all
        then elim (rpc.parse_amount v) [
          | none ↦ bad
          | some m ↦
              if not (rpc.valid_asset (pay.asset m))
                || not (rpc.positive m) && not (rpc.is_convert_all m)
              then bad
              else (record s { send_max = some m }, true)
        ]
        else fail PathError.dst_amt_malformed s
  ]

  -- The token of an entry, where it has one.
  token_of : SourceCurrency V → Option PathAsset
  token_of c = elim c.currency [
    | some v ↦ read (rpc.parse_currency v) (λ k. some (PathAsset.currency k))
    | none ↦ read (read c.mpt_issuance_id rpc.parse_mpt) (λ k. some (PathAsset.mpt k))
  ]

  -- The issuer that an entry names; 0 where it names none. `none` where it is malformed.
  named_issuer : SourceCurrency V → Option ℕ
  named_issuer c = elim c.issuer [
    | none ↦ some 0
    | some v ↦ elim c.mpt_issuance_id [ some m ↦ none | none ↦ rpc.parse_issuer v ]
  ]

  -- The issuer of the asset: XRP has none, and the source is the issuer where none is named.
  issuer_for : PathAsset → ℕ → ℕ → Option ℕ
  issuer_for (PathAsset.mpt k) issuer src = some issuer
  issuer_for (PathAsset.currency k) issuer src =
      if k == 0
      then if issuer == 0 then some 0 else none
      else some (if issuer == 0 then src else issuer)

  unfoldable pub add_asset : A → PathSession A D E M V → PathSession A D E M V
  add_asset a s = record s { source_assets = insert_asset rpc.asset_less a s.source_assets }

  -- An entry's assets where `send_max` is of its token.
  add_with_max : PathAsset → ℕ → ℕ → M → PathSession A D E M V → PathSession A D E M V
  unfolding add_asset
  add_with_max (PathAsset.mpt k) issuer src m s = add_asset (lib.mpt k) s
  add_with_max (PathAsset.currency k) issuer src m s =
      let s' =
        if not (issuer == src)
        then add_asset (lib.issue k issuer) s
        else if not (rpc.issuer_of m == src)
        then add_asset (lib.issue k (rpc.issuer_of m)) s
        else s in
      add_asset (lib.issue k src) s'

  unfoldable pub asset_for : PathAsset → ℕ → A
  asset_for (PathAsset.currency k) issuer = lib.issue k issuer
  asset_for (PathAsset.mpt k) issuer = lib.mpt k

  place_asset : PathAsset → ℕ → ℕ → Part
  unfolding fail add_with_max asset_for
  place_asset token issuer src s = elim s.send_max [
    | none ↦ (add_asset (asset_for token issuer) s, true)
    | some m ↦
        if rpc.same_token token (pay.asset m)
        then if not (issuer == src)
            && not (rpc.issuer_of m == src)
            && not (issuer == rpc.issuer_of m)
          then fail PathError.src_isr_malformed s
          else (add_with_max token issuer src m s, true)
        else (s, true)
  ]

  parse_source_currency : ℕ → SourceCurrency V → Part
  unfolding fail token_of named_issuer issuer_for place_asset
  parse_source_currency src c s =
      let bad = fail PathError.src_cur_malformed s in
      if c.valid
      then elim (token_of c) [
        | none ↦ bad
        | some token ↦ elim (named_issuer c) [
          | none ↦ fail PathError.src_isr_malformed s
          | some named ↦ elim (issuer_for token named src) [
            | none ↦ bad
            | some issuer ↦ place_asset token issuer src s
          ]
        ]
      ]
      else bad

  parse_each : ℕ → List (SourceCurrency V) → Part
  unfolding parse_source_currency
  parse_each src [] s = (s, true)
  parse_each src (c ∷ cs) s =
      let r = parse_source_currency src c s in
      let rest = parse_each src cs r.0 in if r.1 then rest else r

  pub parse_source_currencies : Params V → Part
  unfolding fail parse_each
  parse_source_currencies p s = elim p.source_currencies [
    | none ↦ (s, true)
    | some none ↦ fail PathError.src_cur_malformed s
    | some (some cs) ↦
        let src : ℕ = elim s.src [ none ↦ 0 | some a ↦ a ] in
        if length cs == 0 || ltb max_src_cur (length cs)
        then fail PathError.src_cur_malformed s
        else parse_each src cs (record s { source_assets = [] })
  ]

  parse_domain : Params V → Part
  unfolding fail
  parse_domain p s =
      let s' = record s { request_id = elim p.id [ none ↦ s.request_id | some v ↦ some v ] } in
      elim p.domain [
        | none ↦ (s', true)
        | some v ↦ elim (rpc.parse_domain v) [
          | none ↦ fail PathError.domain_malformed s'
          | some num ↦ (record s' { domain = some num }, true)
        ]
      ]

  -- The parts in their order.
  parts : Params V → List Part
  unfolding parse_members parse_source parse_destination parse_amount parse_send_max
      parse_source_currencies parse_domain
  parts p =
      parse_members p
      ∷ parse_source p
      ∷ parse_destination p
      ∷ parse_amount p
      ∷ parse_send_max p
      ∷ parse_source_currencies p
      ∷ parse_domain p
      ∷ []

  unfoldable pub parse_json : Params V → Part
  unfolding parts run_parts
  parse_json p = run_parts (parts p)

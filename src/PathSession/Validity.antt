-- ===== src/PathSession/Validity.antt =====
-- `PathSession::isValid`: whether the accounts and the amount of a request stand in the ledger.
use edgy.Prelude.{
  ℕ, ◌-◌, ◌==◌, ltb, Bool, true, false, not, ◌&&◌, ◌||◌, if◌then◌else◌, Option, none, some, [], ◌∷◌,
}
use edgy.Containers.Eq.{Eq}
use edgy.Books.{Xrpl}
use edgy.Graph.{Payments}
use edgy.PathSession.{
  PathAsset, PathError, Status, rpc_error, Config, Destination, Rpc, Cache, PathSession,
}

module _ {A T D E M L V : Type 0} ⦃a : Eq A⦄ ⦃t : Eq T⦄ ⦃d : Eq D⦄ ⦃e : Eq E⦄ (lib : Xrpl A T)
    (pay : Payments A D E M L) (rpc : Rpc A D E M L V) (cfg : Config) where
  -- setClosedLedgerIdentity
  unfoldable pub set_identity : L → Status E M V → Status E M V
  set_identity view st =
      let h = rpc.header view in
      if not (rpc.is_open view)
      then record st { ledger = some (h.hash, h.seq) }
      else if ltb 0 h.seq && not (h.parent_hash == 0)
      then record st { ledger = some (h.parent_hash, h.seq - 1) }
      else st

  unfoldable pub is_given : Option M → Bool
  is_given none = false
  is_given (some m) = true

  unfoldable pub reject : PathError → PathSession A D E M V → PathSession A D E M V × Bool
  reject e s = (record s { status = rpc_error e }, false)

  -- The part of `isValid` after the destination is read.
  unfoldable pub check_destination :
      Cache L → ℕ → Option Destination → PathSession A D E M V → PathSession A D E M V × Bool
  unfolding reject set_identity
  check_destination cache dst none s =
      let st = record s.status { destination_currencies = some (PathAsset.currency 0 ∷ []) } in
      if not (rpc.native s.dst_amount)
      then reject PathError.act_not_found s
      else if not s.convert_all && rpc.below_reserve cache.ledger s.dst_amount
      then reject PathError.dst_amt_malformed s
      else (record s { status = set_identity cache.ledger st }, true)
  check_destination cache dst (some found) s =
      let st = record s.status {
        destination_currencies = some (cache.dest_assets dst (not found.disallow_xrp));
        destination_tag = some found.require_tag;
      } in
      (record s { status = set_identity cache.ledger st }, true)

  unfoldable pub is_valid : Cache L → PathSession A D E M V → PathSession A D E M V × Bool
  unfolding reject check_destination is_given
  is_valid cache s = elim s.src [
    | none ↦ (s, false)
    | some src ↦ elim s.dst [
      | none ↦ (s, false)
      | some dst ↦
          if not s.convert_all && (is_given s.send_max || not (rpc.positive s.dst_amount))
          then reject PathError.dst_amt_malformed s
          else if not (rpc.account_exists cache.ledger src)
          then reject PathError.src_act_not_found s
          else check_destination cache dst (rpc.read_destination cache.ledger dst) s
    ]
  ]

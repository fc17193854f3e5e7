-- ===== src/Graph/Ranking.antt =====
-- The ranking of `FastPathFinder::search`: RippleCalc of the first candidates with different keys,
-- in the order that they are then chosen in.
pub mod Liquid
use edgy.Prelude.{
  zero, ℕ, suc, ◌+◌, Bool, true, false, ltb, ◌==◌, not, min, max, if◌then◌else◌, none, some, List,
  [], ◌∷◌, ◌++◌, length,
}
use edgy.Containers.Eq.{nat_eq, list_eq}
use edgy.Containers.HashSet.{contains, insert}
use edgy.Books.{Xrpl}
use edgy.Graph.{Payments, Request, Calc, threw, failed, delivered}
use edgy.Graph.Budget.{max_path_length}
use edgy.Graph.Candidates.{sort}

-- rpc::tuning::kPathFindMaxPaths
abbrev pub path_find_max_paths : ℕ
path_find_max_paths = 6

-- candidates[index]; an index of a rank is one of a candidate
pub path_at : {E : Type 0} → ℕ → List (List E) → List E
path_at index [] = []
path_at zero (path ∷ paths) = path
path_at (suc index) (path ∷ paths) = path_at index paths

pub record Rank (M : Type 0) : Type 0 where
  pub quality : ℕ
  pub liquidity : M
  pub length : ℕ
  pub index : ℕ

-- The state of the ranking loop: how many calls of the callback were made and paths ranked, the
-- keys and the ranks.
pub record Ranked (M : Type 0) : Type 0 where
  pub calls : ℕ
  pub count : ℕ
  pub keys : List (List ℕ)
  pub ranks : List (Rank M)

module _ {A D E M L : Type 0} (pay : Payments A D E M L) (req : Request A D E M L) where
  open pay use {
    element_key, get_issuer, is_xrp_account, currency_of, one_of_issue, one_of_mpt, get_rate, same,
    less,
  }

  -- The text of each element with a slash, 47, after it.
  pub hop_currency_key : List E → List ℕ
  hop_currency_key [] = []
  hop_currency_key (el ∷ path) = element_key el ++ 47 ∷ hop_currency_key path

  module _ {T : Type 0} (lib : Xrpl A T) where
    source_account : ℕ
    source_account =
        let issuer = get_issuer req.src_asset in
        if not (is_xrp_account issuer)
        then issuer
        else if lib.is_xrp req.src_asset
        then pay.xrp_account
        else req.src

    pub src_max_amount : M
    unfolding source_account
    src_max_amount = elim req.send_max [
      | some amount ↦ amount
      | none ↦ elim (currency_of req.src_asset) [
        | some currency ↦ one_of_issue currency source_account
        | none ↦ one_of_mpt req.src_asset
      ]
    ]

  pub min_dst_amount : M
  min_dst_amount =
      if req.convert_all
      then pay.largest_amount req.dst_amount
      else pay.divide req.dst_amount (max 1 (path_find_max_paths + 2))

  -- The order of the ranks.
  pub rank_before : Rank M → Rank M → Bool
  rank_before x y =
      if not req.convert_all
      then if x.quality == y.quality then by_liquidity x y else ltb x.quality y.quality
      else by_liquidity x y
    where
      by_length : Rank M → Rank M → Bool
      by_length x y = if x.length == y.length then ltb x.index y.index else ltb x.length y.length

      by_liquidity : Rank M → Rank M → Bool
      by_liquidity x y =
          if same x.liquidity y.liquidity then by_length x y else less y.liquidity x.liquidity

  module _ (ledger : L) (max_amount dst_amount : M) where
    -- What RippleCalc says of the path, which stands at `index`.
    note_rank : ℕ → List E → Calc M → List (Rank M) → List (Rank M)
    note_rank index path threw ranks = ranks
    note_rank index path failed ranks = ranks
    note_rank index path (delivered out taken) ranks =
        ranks
        ++ record {
          quality = get_rate out taken;
          liquidity = out;
          length = length path;
          index = index;
        }
          ∷ []

    rank_path : ℕ → List E → Ranked M → Ranked M
    unfolding note_rank
    rank_path index path s = record s {
      count = suc s.count;
      keys = insert (hop_currency_key path) s.keys;
      ranks =
          note_rank index path
            (pay.ripple_calculate ledger max_amount dst_amount req.dst req.src path req.domain)
            s.ranks;
    }

    skip_path : List E → List (List ℕ) → Bool
    skip_path path keys =
        if ltb max_path_length (length path) then true else contains (hop_currency_key path) keys

    -- The loop over the candidates from `index` on, of which at most `limit` are ranked.
    rank_loop : ℕ → List (List E) → ℕ → Ranked M → Ranked M
    rank_loop limit [] index s = s
    rank_loop limit (path ∷ paths) index s = elim (ltb s.count limit) [
      | false ↦ s
      | true ↦ elim (req.go s.calls) [
        | false ↦ record s { calls = suc s.calls }
        | true ↦ elim (skip_path path s.keys) [
          | true ↦ rank_loop limit paths (suc index) (record s { calls = suc s.calls })
          | false ↦
              rank_loop limit paths (suc index)
                (rank_path index path (record s { calls = suc s.calls }))
        ]
      ]
    ]

    pub rank_all : ℕ → List (List E) → List (Rank M)
    unfolding rank_loop rank_before sort
    rank_all calls candidates =
        sort rank_before
          (rank_loop (min (length candidates) req.budget.rank) candidates 0
            (record { calls = calls; count = 0; keys = []; ranks = [] })).ranks

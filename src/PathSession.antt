-- ===== src/PathSession.antt =====
-- include/edgy/session.hpp and src/edgy/session.cpp: `PathSession`, one path request. The JSON that it
-- reads and writes is records with the members that the code names; the rewriting of native amounts
-- for Xahau is left out, and so are the log and the loading of trust lines, whose outcome a `Cache`
-- shows.
pub mod Parse
pub mod Pricing
pub mod Sources
pub mod Search
pub mod Validity
pub mod Commands
pub mod Serves
use edgy.Prelude.{some, false, ℕ, Bool, Option, none, List, []}
use edgy.Builder.{Header}
use edgy.Graph.{Calc}
use edgy.Graph.Budget.{ℤ}

-- xrpl::PathAsset
pub data PathAsset : Type 0 where
  currency : ℕ → PathAsset
  mpt : ℕ → PathAsset

-- The answers of `xrpl::rpcError`.
pub data PathError : Type 0 where
  src_act_missing dst_act_missing dst_amt_missing : PathError
  src_act_malformed dst_act_malformed dst_amt_malformed sendmax_malformed : PathError
  src_cur_malformed src_isr_malformed domain_malformed : PathError
  src_act_not_found act_not_found internal : PathError

-- PathWarn
pub data PathWarn : Type 0 where
  lines_partial revalidate_failed source_currencies_truncated lines_budget : PathWarn

-- An entry of `source_currencies`: whether libxrpl finds it valid, and its members.
pub record SourceCurrency (V : Type 0) : Type 0 where
  pub valid : Bool
  pub currency : Option V
  pub mpt_issuance_id : Option V
  pub issuer : Option V

-- The parameters of a request. `source_currencies` is an array, or it is something else.
pub record Params (V : Type 0) : Type 0 where
  pub source_account : Option V
  pub destination_account : Option V
  pub destination_amount : Option V
  pub send_max : Option V
  pub source_currencies : Option (Option (List (SourceCurrency V)))
  pub id : Option V
  pub domain : Option V

-- An entry of `alternatives`.
pub record Alternative (E M : Type 0) : Type 0 where
  pub source_amount : M
  pub paths_computed : List (List E)
  pub destination_amount : Option M
  pub paths_canonical : Bool

-- The members of a status.
pub record Status (E M V : Type 0) : Type 0 where
  pub error : Option PathError
  pub closed : Bool
  pub success : Bool
  pub id : Option V
  pub accounts : Option (ℕ × ℕ)
  pub destination_amount : Option M
  pub destination_currencies : Option (List PathAsset)
  pub destination_tag : Option Bool
  pub ledger : Option (ℕ × ℕ)
  pub full_reply : Option Bool
  pub alternatives : Option (List (Alternative E M))
  pub warning : Option PathWarn

abbrev pub empty_status : {E M V : Type 0} → Status E M V
empty_status = record {
  error = none;
  closed = false;
  success = false;
  id = none;
  accounts = none;
  destination_amount = none;
  destination_currencies = none;
  destination_tag = none;
  ledger = none;
  full_reply = none;
  alternatives = none;
  warning = none;
}

-- xrpl::rpcError
abbrev pub rpc_error : {E M V : Type 0} → PathError → Status E M V
rpc_error e = record empty_status { error = some e }

-- The settings that a session reads.
pub record Config : Type 0 where
  pub search : ℤ
  pub search_fast : ℤ

-- The account of the destination, as far as it is read.
pub record Destination : Type 0 where
  pub disallow_xrp : Bool
  pub require_tag : Bool

-- What a session calls of libxrpl beside what the search does, on values `V`, amounts `M`, assets `A`,
-- path elements `E` and ledgers `L`. `is_present` is the truth of a value.
pub record Rpc (A D E M L V : Type 0) : Type 0 where
  pub is_present : V → Bool
  pub parse_account : V → Option ℕ
  pub parse_amount : V → Option M
  pub parse_currency : V → Option ℕ
  pub parse_mpt : V → Option ℕ
  pub parse_issuer : V → Option ℕ
  pub parse_domain : V → Option D
  pub valid_asset : A → Bool
  pub is_convert_all : M → Bool
  pub positive : M → Bool
  pub native : M → Bool
  pub issuer_of : M → ℕ
  pub convert_amount : M → Bool → M
  pub force_issue_account : M → ℕ → M
  pub same_token : PathAsset → A → Bool
  pub asset_less : A → A → Bool
  pub source_before : PathAsset → PathAsset → Bool
  pub is_open : L → Bool
  pub header : L → Header
  pub account_exists : L → ℕ → Bool
  pub read_destination : L → ℕ → Option Destination
  pub below_reserve : L → M → Bool
  pub calculate : L → Bool → Bool → M → M → ℕ → ℕ → List (List E) → Option D → Calc M

-- What `AssetCache` shows at a call.
pub record Cache (L : Type 0) : Type 0 where
  pub ledger : L
  pub source_assets : ℕ → List PathAsset
  pub dest_assets : ℕ → Bool → List PathAsset
  pub over_budget : Bool
  pub incomplete_lines : Bool
  pub line_epoch : ℕ

pub record PathSession (A D E M V : Type 0) : Type 0 where
  pub id : ℕ
  pub one_shot : Bool
  pub request_id : Option V
  pub status : Status E M V
  pub src : Option ℕ
  pub dst : Option ℕ
  pub dst_amount : M
  pub send_max : Option M
  pub source_assets : List A
  pub context : List (A × List (List E))
  pub domain : Option D
  pub convert_all : Bool
  pub truncated : Bool
  pub last_success : Bool
  pub last_full_search_index : ℕ
  pub last_line_epoch : ℕ
  pub closing : Bool
  pub updating : Bool
  pub created_at : ℕ
  pub searches_done : ℕ
  pub last_depth : ℤ

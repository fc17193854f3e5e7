-- ===== src/Sle.antt =====
-- What the code reads of a ledger object (`xrpl::SLE`): its type, its key and the fields named in
-- src/edgy/memory_ledger.cpp, src/edgy/order_books.cpp and src/edgy/engine.cpp. A field that is not
-- present is `none`. An amount is kept as its size: `signum()` is 0 exactly at size 0.
use edgy.Prelude.{ℕ, Bool, true, false, Option, none, some}

pub data EntryType : Type 0 where
  offer amm dir_node fee_settings amendments other : EntryType

pub record Sle (Asset Domain : Type 0) : Type 0 where
  pub entry_type : EntryType
  pub key : ℕ
  pub exchange_rate : Option ℕ
  pub root_index : Option ℕ
  pub taker_pays_currency : Option ℕ
  pub taker_pays_issuer : ℕ
  pub taker_pays_mpt : Option ℕ
  pub taker_gets_currency : Option ℕ
  pub taker_gets_issuer : ℕ
  pub taker_gets_mpt : Option ℕ
  pub domain_id : Option Domain
  pub lp_token_balance : Option ℕ
  pub asset : Option Asset
  pub asset2 : Option Asset
  pub taker_pays : Option ℕ
  pub taker_gets : Option ℕ
  pub book_directory : Option ℕ
  pub account : Option ℕ

-- sle.isFieldPresent(f)
abbrev pub present {ℓ} : {A : Type ℓ} → Option A → Bool
present none = false
present (some a) = true

-- keepDecoded: the objects whose decoded form stays beside the blob
unfoldable pub keep_decoded : {A D : Type 0} → Sle A D → Bool
keep_decoded sle = elim sle.entry_type [
  | EntryType.offer ↦ true
  | EntryType.amm ↦ true
  | EntryType.fee_settings ↦ true
  | EntryType.amendments ↦ true
  | EntryType.dir_node ↦ present sle.exchange_rate
  | EntryType.other ↦ false
]

-- ===== src/Tests/Data.antt =====
-- Assets, books and ledger objects for the tests. An asset is ten times its currency plus its
-- issuer; XRP is 0.
use edgy.Containers.Eq.{nat_eq}
use edgy.Prelude.{Option, ℕ, ◌+◌, ◌*◌, ◌/◌, ◌%◌, ◌^◌, ◌==◌, true, false, none, some, [], ◌∷◌, ltb}
use edgy.Sle.{Sle, EntryType}
use edgy.Books.{Xrpl, Books, Book, add_book, empty}
use edgy.Graph.{Payments, Request, delivered}
use edgy.Graph.Budget.{SearchBudget}

abbrev pub lib : Xrpl ℕ ℕ
lib = record {
  path_asset = λ x. x / 10;
  is_xrp = λ x. x == 0;
  issue = λ currency issuer. currency * 10 + issuer;
  mpt = λ id. id;
  get_quality = λ key. key % 2 ^ 64;
}

abbrev pub open_book : ℕ → ℕ → Book ℕ ℕ
open_book x y = record { takes = x; gives = y; domain = none }

-- The same currency from two issuers is traded for XRP, and XRP for another currency.
abbrev pub books : Books ℕ ℕ ℕ
books =
    add_book lib (open_book 0 21)
      (add_book lib (open_book 12 0) (add_book lib (open_book 11 0) empty))

-- A quality level, with quality 7, of the book of two assets.
abbrev pub level : ℕ → ℕ → Option ℕ → Sle ℕ ℕ
level x y domain = record {
  entry_type = EntryType.dir_node;
  key = 42;
  exchange_rate = some 7;
  root_index = some 42;
  taker_pays_currency = some (x / 10);
  taker_pays_issuer = x % 10;
  taker_pays_mpt = none;
  taker_gets_currency = some (y / 10);
  taker_gets_issuer = y % 10;
  taker_gets_mpt = none;
  domain_id = domain;
  lp_token_balance = none;
  asset = none;
  asset2 = none;
  taker_pays = none;
  taker_gets = none;
  book_directory = none;
  account = none;
}

-- RippleCalc that pays five for ten over every path.
abbrev pub pay : Payments ℕ ℕ ℕ ℕ ℕ
pay = record {
  xrp = 0;
  equal_tokens = λ x y. x / 10 == y / 10;
  book_element = λ x. x;
  element_key = λ x. x / 10 ∷ [];
  get_issuer = λ x. x % 10;
  is_xrp_account = λ x. x == 0;
  xrp_account = 0;
  currency_of = λ x. some (x / 10);
  one_of_issue = λ currency issuer. 1;
  one_of_mpt = λ x. 1;
  asset = λ amount. 21;
  largest_amount = λ amount. 1000;
  divide = λ amount n. amount / n;
  get_rate = λ out taken. taken / out;
  same = λ x y. x == y;
  less = ltb;
  ripple_calculate = λ ledger most least dst src path domain. delivered 5 10;
}

abbrev pub wide : SearchBudget
wide = record {
  depth = 4;
  max_hops = 8;
  two_hop = 128;
  expand = 48;
  branch = 10;
  rank = 12;
  auto_sources = 18;
}

-- A payment of 80 in 21 from 11, on ledger 7.
abbrev pub req : Request ℕ ℕ ℕ ℕ ℕ
req = record {
  ledger = some 7;
  src = 1;
  dst = 2;
  src_asset = 11;
  dst_amount = 80;
  send_max = none;
  domain = none;
  extra = [];
  convert_all = false;
  budget = wide;
  go = λ n. true;
}

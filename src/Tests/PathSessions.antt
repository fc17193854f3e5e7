-- ===== src/Tests/PathSessions.antt =====
-- A payment of 80 in 21 from 11, as a subscription. Every value is the account, the amount or the
-- currency of its number, and RippleCalc pays five for ten over every path.
use edgy.PathSession.Sources.{
  Clock, sources_of, own_tokens, hard_max_of, own_asset, eligible, depth_now,
}
use edgy.PathSession.Sources.Limits.{own_assets}
use edgy.Prelude.{
  none, ℕ, ◌≡◌, ◌≤◌, ◌<◌, length, ◌==◌, true, false, some, [], ◌∷◌, map, ltb, refl, arith,
}
use edgy.Graph.Candidates.{sort}
use edgy.Containers.Eq.{nat_eq}
use edgy.Graph.{delivered}
use edgy.Graph.Budget.{pos, depth_for, for_depth}
use edgy.PathSession.{Params, PathAsset, PathError, rpc_error, Config, Rpc, Cache, PathSession}
use edgy.PathSession.Parse.Keeps.{fixed}
use edgy.PathSession.Commands.{
  do_create, update_valid, new_session, should_deepen, exceeds, spread_age,
}
use edgy.PathSession.Parse.{parse_json, insert_asset, asset_for}
use edgy.PathSession.Search.Order.{PathsFirst}
use edgy.PathSession.Commands.Listed.{listed, update-PathsFirst}
use edgy.PathSession.Commands.Uncut.{SaysUncut, update-uncut, update-over_limit}
use edgy.PathSession.Commands.Refused.{do_create-refused}
use edgy.PathSession.Parse.Refuse.{IsError}
use edgy.PathSession.Commands.Answers.{update-revalidates}
use edgy.PathSession.Commands.Deepens.{update-deepens}
use edgy.PathSession.Serves.{path_sessions, path_sessions-Laws}
use edgy.Engine.Sessions.Updates.Marks.{Laws}
use edgy.Tests.Data.{lib, pay, books}

abbrev pub rpc : Rpc ℕ ℕ ℕ ℕ ℕ ℕ
rpc = record {
  is_present = λ v. true;
  parse_account = λ v. some v;
  parse_amount = λ v. some v;
  parse_currency = λ v. some v;
  parse_mpt = λ v. some v;
  parse_issuer = λ v. some v;
  parse_domain = λ v. some v;
  valid_asset = λ x. true;
  is_convert_all = λ m. m == 1;
  positive = λ m. ltb 0 m;
  native = λ m. false;
  issuer_of = λ m. 1;
  convert_amount = λ m all. m;
  force_issue_account = λ m account. m;
  same_token = λ t x. false;
  asset_less = ltb;
  source_before = λ x y. true;
  is_open = λ l. false;
  header = λ l. record {
    seq = l;
    hash = 0;
    parent_hash = 0;
    account_hash = 0;
    tx_hash = 0;
    drops = 0;
    validated = true;
    accepted = true;
  };
  account_exists = λ l account. true;
  read_destination = λ l account. some (record { disallow_xrp = false; require_tag = false });
  below_reserve = λ l m. false;
  calculate = λ l def all most amount dst src paths domain. delivered 5 10;
}

abbrev pub cfg : Config
cfg = record { search = pos 3; search_fast = pos 1 }

abbrev pub cache : Cache ℕ
cache = record {
  ledger = 7;
  source_assets = λ account. [];
  dest_assets = λ account xrp. [];
  over_budget = false;
  incomplete_lines = false;
  line_epoch = 0;
}

-- A minute after the start.
abbrev pub clock : Clock
clock = record { source_age = 60000; search_age = 60000; go_source = λ n. true; go = λ n k. true }

abbrev session : PathSession ℕ ℕ ℕ ℕ ℕ
session = record (new_session lib pay rpc cfg 1 false 0 0) {
  src = some 1;
  dst = some 2;
  dst_amount = 80;
  source_assets = 11 ∷ [];
}

update-revalidates_example :
    fixed (update_valid lib pay rpc cfg books cache false true clock 1 2 session).0 ≡ fixed session
update-revalidates_example = update-revalidates lib pay rpc cfg books cache false clock 1 2 session

due : should_deepen lib pay rpc cfg 60000 session ≡ true
unfolding should_deepen exceeds spread_age new_session depth_for
due = refl

early : spread_age lib pay rpc cfg 60000 session ≤ 60000
unfolding spread_age new_session
early = omega arith

sourced : sources_of lib pay rpc cfg cache false clock 1 2 session ≡ some (11 ∷ [], false)
unfolding sources_of new_session
sourced = refl

update-deepens_example :
    (n : ℕ) × ((update_valid lib pay rpc cfg books cache false false clock 1 2 session).0.last_depth
      ≡ pos n)
    × (exceeds lib pay rpc cfg n session.last_depth ≡ true)
update-deepens_example =
    update-deepens lib pay rpc cfg books cache clock 60000 1 2 (11 ∷ []) false session due early
      sourced

path_sessions-Laws_example : Laws (path_sessions lib pay rpc cfg 0)
path_sessions-Laws_example = path_sessions-Laws lib pay rpc cfg 0

update-PathsFirst_example : PathsFirst (
    listed lib pay rpc cfg
      (update_valid lib pay rpc cfg books cache false false clock 1 2 session).1)
update-PathsFirst_example = update-PathsFirst lib pay rpc cfg books cache false clock 1 2 session

update-uncut_example :
    ((update_valid lib pay rpc cfg books cache false true clock 1 2 session).0.truncated ≡ false)
    × SaysUncut lib pay rpc cfg
        (update_valid lib pay rpc cfg books cache false true clock 1 2 session).1
unfolding new_session
update-uncut_example = update-uncut lib pay rpc cfg books cache false true clock 1 2 session refl

-- An account with more assets than a fast search of its sources allows.
abbrev rich : Cache ℕ
rich = record cache {
  source_assets = λ account.
      map PathAsset.currency
        (1 ∷ 2 ∷ 3 ∷ 4 ∷ 5 ∷ 6 ∷ 7 ∷ 8 ∷ 9 ∷ 10 ∷ 11 ∷ 12 ∷ 13 ∷ 14 ∷ 15 ∷ 16 ∷ 17 ∷ 18 ∷ 19 ∷ []);
}

abbrev open_session : PathSession ℕ ℕ ℕ ℕ ℕ
open_session = record session { source_assets = [] }

too_many :
    hard_max_of lib pay rpc cfg false clock open_session
    < length
        (own_assets lib pay rpc cfg false (own_tokens lib pay rpc cfg rich 1) open_session [] 1)
unfolding hard_max_of new_session sort for_depth depth_for own_assets own_asset eligible
    insert_asset asset_for depth_now own_tokens
too_many = omega arith

update-over_limit_example :
    ((update_valid lib pay rpc cfg books rich false false clock 1 2 open_session).1
      ≡ rpc_error PathError.internal)
    × (fixed (update_valid lib pay rpc cfg books rich false false clock 1 2 open_session).0
        ≡ fixed open_session)
unfolding new_session
update-over_limit_example =
    update-over_limit lib pay rpc cfg books rich false false clock 1 2 open_session refl refl
      too_many

-- A request without a destination.
abbrev aimless : Params ℕ
aimless = record {
  source_account = some 1;
  destination_account = none;
  destination_amount = some 80;
  send_max = none;
  source_currencies = none;
  id = none;
  domain = none;
}

refused :
    (do_create lib pay rpc cfg books cache aimless clock
      (new_session lib pay rpc cfg 1 false 0 0)).1
    ≡ false
unfolding do_create parse_json
refused = refl

do_create-refused_example :
    IsError lib pay rpc
      (do_create lib pay rpc cfg books cache aimless clock
        (new_session lib pay rpc cfg 1 false 0 0)).2
    × ((do_create lib pay rpc cfg books cache aimless clock
          (new_session lib pay rpc cfg 1 false 0 0)).0.status
        ≡ (do_create lib pay rpc cfg books cache aimless clock
            (new_session lib pay rpc cfg 1 false 0 0)).2)
do_create-refused_example =
    do_create-refused lib pay rpc cfg books cache aimless clock
      (new_session lib pay rpc cfg 1 false 0 0) refused

-- ===== src/PathSession/Commands.antt =====
-- The commands of `PathSession`: `doCreate`, `doClose`, `doStatus`, `doUpdate`, and the flags that the
-- engine sets.
pub mod Keeps
pub mod Answers
pub mod Deepens
pub mod Listed
pub mod Uncut
pub mod Refused
use edgy.PathSession.Validity.{set_identity, is_valid}
use edgy.PathSession.Sources.{Clock}
use edgy.Prelude.{
  ℕ, ◌-◌, ◌*◌, ◌%◌, ◌==◌, ltb, Bool, true, false, not, ◌&&◌, ◌||◌, if◌then◌else◌, Option, none,
  some, List, [], ◌∷◌,
}
use edgy.Containers.Eq.{Eq}
use edgy.Books.{Xrpl, Books}
use edgy.Graph.{Payments}
use edgy.Graph.Budget.{ℤ, depth_for}
use edgy.PathSession.{
  PathAsset, PathError, PathWarn, Params, Alternative, Status, empty_status, rpc_error, Config,
  Destination, Rpc, Cache, PathSession,
}
use edgy.PathSession.Parse.{parse_json}
use edgy.PathSession.Search.{Found, find_paths}

-- setPathFindNotice
unfoldable pub set_notice : {E M V : Type 0} → PathWarn → Status E M V → Status E M V
set_notice code st = elim st.error [
  | some e ↦ st
  | none ↦ elim st.warning [ some w ↦ st | none ↦ record st { warning = some code } ]
]

module _ {A T D E M L V : Type 0} ⦃a : Eq A⦄ ⦃t : Eq T⦄ ⦃d : Eq D⦄ ⦃e : Eq E⦄ (lib : Xrpl A T)
    (pay : Payments A D E M L) (rpc : Rpc A D E M L V) (cfg : Config) where
  -- The constructor, at a time.
  unfoldable pub new_session : ℕ → Bool → M → ℕ → PathSession A D E M V
  new_session id one_shot zero_amount now = record {
    id = id;
    one_shot = one_shot;
    request_id = none;
    status = empty_status;
    src = none;
    dst = none;
    dst_amount = zero_amount;
    send_max = none;
    source_assets = [];
    context = [];
    domain = none;
    convert_all = false;
    truncated = false;
    last_success = false;
    last_full_search_index = 0;
    last_line_epoch = 0;
    closing = false;
    updating = false;
    created_at = now;
    searches_done = 0;
    last_depth = cfg.search_fast;
  }

  -- `a` is greater than `b`.
  unfoldable pub exceeds : ℕ → ℤ → Bool
  exceeds n (ℤ.pos m) = ltb m n
  exceeds n (ℤ.negsuc m) = true

  -- The age in milliseconds, less the share of the session in the spread.
  unfoldable pub spread_age : ℕ → PathSession A D E M V → ℕ
  spread_age now s = now - s.created_at - s.id % 20 * 150

  unfoldable pub should_deepen : ℕ → PathSession A D E M V → Bool
  unfolding exceeds spread_age
  should_deepen now s =
      if s.one_shot || s.closing
      then false
      else exceeds (depth_for false (ℤ.pos 0) (spread_age now s) cfg.search_fast cfg.search)
          s.last_depth

  unfoldable pub try_begin_update : PathSession A D E M V → Bool × PathSession A D E M V
  try_begin_update s = if s.updating then (false, s) else (true, record s { updating = true })

  unfoldable pub end_update : PathSession A D E M V → PathSession A D E M V
  end_update s = record s { updating = false }

  -- The status of an update before the search.
  unfoldable pub new_status : Cache L → ℕ → ℕ → PathSession A D E M V → Status E M V
  unfolding set_identity
  new_status cache src dst s = set_identity lib pay rpc cfg cache.ledger (record empty_status {
    destination_currencies = if s.one_shot then some (cache.dest_assets dst true) else none;
    accounts = some (src, dst);
    destination_amount = some s.dst_amount;
    full_reply = some false;
    id = elim s.request_id [ none ↦ none | some v ↦ if rpc.is_present v then some v else none ];
  })

  -- The alternatives that a subscription was sent last, if there are any.
  last_alternatives : PathSession A D E M V → List (Alternative E M)
  last_alternatives s = elim s.status.alternatives [ none ↦ [] | some xs ↦ xs ]

  -- The session after a full search.
  unfoldable pub note_full : Bool → Cache L → PathSession A D E M V → PathSession A D E M V
  note_full did_full cache s =
      if did_full
      then record s {
        last_full_search_index = (rpc.header cache.ledger).seq;
        last_line_epoch = cache.line_epoch;
      }
      else s

  -- The status with the alternatives, or with the last ones where none is left.
  unfoldable pub with_alternatives :
      Cache L
      → Status E M V
      → Found (PathSession A D E M V) E M
      → PathSession A D E M V × Status E M V
  unfolding last_alternatives note_full set_notice
  with_alternatives cache st found =
      let s = note_full found.did_full_search cache found.session in
      elim found.alternatives [
        | x ∷ xs ↦ (
          record s { last_success = true },
          record st { full_reply = some found.did_full_search; alternatives = some (x ∷ xs) },
        )
        | [] ↦
            let nothing : PathSession A D E M V × Status E M V = (
              record s { last_success = false },
              record st { full_reply = some found.did_full_search; alternatives = some [] },
            ) in
            if not s.one_shot && not found.did_full_search
            then elim (last_alternatives s) [
              | [] ↦ nothing
              | y ∷ ys ↦ (
                record s { last_success = false },
                record (set_notice PathWarn.revalidate_failed
                    (record st { full_reply = some false })) { alternatives = some (y ∷ ys) },
              )
            ]
            else nothing
      ]

  unfoldable pub after_search :
      Cache L
      → Status E M V
      → Found (PathSession A D E M V) E M
      → PathSession A D E M V × Status E M V
  unfolding with_alternatives
  after_search cache st found = if found.ok then with_alternatives cache st found else (
    record (note_full found.did_full_search cache found.session) { last_success = false },
    rpc_error PathError.internal,
  )

  unfoldable pub add_notices : Cache L → PathSession A D E M V → Status E M V → Status E M V
  unfolding set_notice
  add_notices cache s st =
      if s.truncated
      then set_notice PathWarn.source_currencies_truncated st
      else if cache.over_budget && cache.incomplete_lines
      then set_notice PathWarn.lines_budget st
      else if cache.incomplete_lines
      then set_notice PathWarn.lines_partial st
      else st

  -- doUpdate, from the search on.
  unfoldable pub update_valid :
      Books A T D
      → Cache L
      → Bool
      → Bool
      → Clock
      → ℕ
      → ℕ
      → PathSession A D E M V
      → PathSession A D E M V × Status E M V
  unfolding new_status after_search add_notices
  update_valid books cache fast revalidate_only clock src dst s =
      let full = not revalidate_only in
      let r =
        after_search cache (new_status cache src dst s)
          (find_paths lib pay rpc cfg books cache full full fast clock src dst s) in
      let st = add_notices cache r.0 r.1 in (record r.0 { status = st }, st)

  unfoldable pub do_update :
      Books A T D
      → Cache L
      → Bool
      → Bool
      → Clock
      → PathSession A D E M V
      → PathSession A D E M V × Status E M V
  unfolding is_valid update_valid
  do_update books cache fast revalidate_only clock s =
      let (s', ok) = is_valid lib pay rpc cfg cache s in
      let refused : PathSession A D E M V × Status E M V = (s', s'.status) in
      if ok
      then elim s'.src [
        | none ↦ refused
        | some src ↦ elim s'.dst [
          | none ↦ refused
          | some dst ↦ update_valid books cache fast revalidate_only clock src dst s'
        ]
      ]
      else refused

  unfoldable pub do_create :
      Books A T D
      → Cache L
      → Params V
      → Clock
      → PathSession A D E M V
      → PathSession A D E M V × Bool × Status E M V
  unfolding is_valid do_update
  do_create books cache params clock s =
      let (parsed, ok) = parse_json lib pay rpc params s in
      let (checked, valid) = is_valid lib pay rpc cfg cache parsed in
      let updated = do_update books cache false false clock checked in
      if ok
      then if not s.one_shot && valid
        then (updated.0, true, updated.1)
        else (checked, valid, checked.status)
      else (parsed, false, parsed.status)

  unfoldable pub do_close : PathSession A D E M V → PathSession A D E M V × Status E M V
  do_close s =
      let st = record s.status { closed = true } in (record s { closing = true; status = st }, st)

  unfoldable pub do_status : PathSession A D E M V → PathSession A D E M V × Status E M V
  do_status s = let st = record s.status { success = true } in (record s { status = st }, st)

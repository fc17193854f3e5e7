-- ===== src/PathSession/Commands/Keeps.antt =====
-- What an update of a session leaves alone: who it is, and the flags that the engine sets.
use edgy.PathSession.Validity.{is_given, is_valid, check_destination, reject}
use edgy.PathSession.Sources.{Clock, sources_of, order_sources}
use edgy.PathSession.Search.Each.{search_each_keeps}
use edgy.Prelude.{
  if◌then◌else◌, ◌||◌, ◌&&◌, ℕ, ◌≡◌, Bool, true, false, not, if_keeps, Option, none, some, List, [],
  ◌∷◌, refl, ap, ◌∙◌, arith,
}
use edgy.Containers.Eq.{Eq}
use edgy.Books.{Xrpl, Books}
use edgy.Graph.{Payments}
use edgy.PathSession.{
  Alternative, Status, Params, Config, Rpc, Cache, PathSession, Destination, PathError,
}
use edgy.PathSession.Parse.{parse_json}
use edgy.PathSession.Parse.Keeps.{Fixed, fixed, parse_json-fixed}
use edgy.PathSession.Search.{Found, find_paths, find_from, full_search, priced}
use edgy.PathSession.Commands.{
  update_valid, do_update, do_create, after_search, with_alternatives, note_full, new_status,
}

pub record Flags : Type 0 where
  pub id : ℕ
  pub one_shot : Bool
  pub closing : Bool
  pub updating : Bool
  pub created_at : ℕ

abbrev pub flags : {A D E M V : Type 0} → PathSession A D E M V → Flags
flags s = record {
  id = s.id;
  one_shot = s.one_shot;
  closing = s.closing;
  updating = s.updating;
  created_at = s.created_at;
}

abbrev pub flags_of : {A E : Type 0} → Fixed A E → Flags
flags_of s = record {
  id = s.id;
  one_shot = s.one_shot;
  closing = s.closing;
  updating = s.updating;
  created_at = s.created_at;
}

module _ {A T D E M L V : Type 0} ⦃a : Eq A⦄ ⦃t : Eq T⦄ ⦃d : Eq D⦄ ⦃e : Eq E⦄ (lib : Xrpl A T)
    (pay : Payments A D E M L) (rpc : Rpc A D E M L V) (cfg : Config) where
  check_destination-fixed :
      (cache : Cache L) (dst : ℕ) (o : Option Destination) (s : PathSession A D E M V)
      → fixed (check_destination lib pay rpc cfg cache dst o s).0 ≡ fixed s
  unfolding check_destination reject
  check_destination-fixed cache dst none s =
      if_keeps F (not (rpc.native s.dst_amount)) (λ _. refl)
        (λ _.
          if_keeps F (not s.convert_all && rpc.below_reserve cache.ledger s.dst_amount) (λ _. refl)
            (λ _. refl))
    where
      F : PathSession A D E M V × Bool → Type 0
      F r = fixed r.0 ≡ fixed s
  check_destination-fixed cache dst (some found) s = refl

  is_valid-fixed :
      (cache : Cache L) (s : PathSession A D E M V)
      → fixed (is_valid lib pay rpc cfg cache s).0 ≡ fixed s
  unfolding is_valid reject
  is_valid-fixed cache s = of_accounts s.src s.dst
    where
      F : PathSession A D E M V × Bool → Type 0
      F r = fixed r.0 ≡ fixed s

      of_accounts :
          (src dst : Option ℕ)
          → F (elim src as (λ _. PathSession A D E M V × Bool) [
            | none ↦ (s, false)
            | some x ↦ elim dst [
              | none ↦ (s, false)
              | some y ↦
                  let max_given : Bool = elim s.send_max [ none ↦ false | some m ↦ true ] in
                  if not s.convert_all && (max_given || not (rpc.positive s.dst_amount))
                  then reject lib pay rpc cfg PathError.dst_amt_malformed s
                  else if not (rpc.account_exists cache.ledger x)
                  then reject lib pay rpc cfg PathError.src_act_not_found s
                  else check_destination lib pay rpc cfg cache y
                      (rpc.read_destination cache.ledger y)
                      s
            ]
          ])
      of_accounts none dst = refl
      of_accounts (some x) none = refl
      of_accounts (some x) (some y) =
          if_keeps F
            (not s.convert_all
              && (is_given lib pay rpc cfg s.send_max || not (rpc.positive s.dst_amount)))
            (λ _. refl)
            (λ _.
              if_keeps F (not (rpc.account_exists cache.ledger x)) (λ _. refl)
                (λ _. check_destination-fixed cache y (rpc.read_destination cache.ledger y) s))

  full_search-flags :
      (books : Books A T D) (cache : Cache L) (force_fast : Bool) (clock : Clock) (src dst : ℕ)
      (sources : List A) (s : PathSession A D E M V)
      → flags (full_search lib pay rpc cfg books cache force_fast clock src dst sources s).session
        ≡ flags s
  unfolding full_search
  full_search-flags books cache force_fast clock src dst sources s =
      search_each_keeps lib pay rpc cfg flags (λ s c. refl) books cache.ledger src dst _ _ clock 0
        (order_sources lib pay rpc cfg sources s) _ _

  find_paths-flags :
      (books : Books A T D) (cache : Cache L) (full allow_escalate force_fast : Bool)
      (clock : Clock) (src dst : ℕ) (s : PathSession A D E M V)
      → flags
          (find_paths lib pay rpc cfg books cache full allow_escalate force_fast clock src dst
            s).session
        ≡ flags s
  unfolding find_paths find_from priced
  find_paths-flags books cache full allow_escalate force_fast clock src dst s =
      of_sources (sources_of lib pay rpc cfg cache force_fast clock src dst s)
    where
      F : Found (PathSession A D E M V) E M → Type 0
      F r = flags r.session ≡ flags s

      of_live :
          (cut : Bool) (sources : List A) (live : List (Alternative E M))
          → F (elim live as (λ _. Found (PathSession A D E M V) E M) [
            | x ∷ xs ↦ priced lib pay rpc cfg (x ∷ xs) (record s { truncated = cut })
            | [] ↦
                if allow_escalate
                then full_search lib pay rpc cfg books cache force_fast clock src dst sources
                    (record s { truncated = cut })
                else priced lib pay rpc cfg [] (record s { truncated = cut })
          ])
      of_live cut sources (x ∷ xs) = refl
      of_live cut sources [] =
          if_keeps F allow_escalate
            (λ _.
              full_search-flags books cache force_fast clock src dst sources
                (record s { truncated = cut }))
            (λ _. refl)

      of_sources :
          (o : Option (List A × Bool))
          → F (elim o as (λ _. Found (PathSession A D E M V) E M) [
            | none ↦ record { session = s; ok = false; did_full_search = false; alternatives = [] }
            | some (sources, cut) ↦
                find_from lib pay rpc cfg books cache full allow_escalate force_fast clock src dst
                  sources
                  (record s { truncated = cut })
          ])
      of_sources none = refl
      of_sources (some (sources, cut)) =
          if_keeps F full
            (λ _.
              full_search-flags books cache force_fast clock src dst sources
                (record s { truncated = cut }))
            (λ _. of_live cut sources _)

  note_full-flags :
      (did_full : Bool) (cache : Cache L) (s : PathSession A D E M V)
      → flags (note_full lib pay rpc cfg did_full cache s) ≡ flags s
  unfolding note_full
  note_full-flags true cache s = refl
  note_full-flags false cache s = refl

  with_alternatives-flags :
      (cache : Cache L) (st : Status E M V) (found : Found (PathSession A D E M V) E M)
      → flags (with_alternatives lib pay rpc cfg cache st found).0 ≡ flags found.session
  unfolding with_alternatives
  with_alternatives-flags cache st found =
      of_alternatives found.alternatives ∙ note_full-flags found.did_full_search cache found.session
    where
      of_alternatives :
          (alternatives : List (Alternative E M))
          → flags
              (with_alternatives lib pay rpc cfg cache st
                (record found { alternatives = alternatives })).0
            ≡ flags (note_full lib pay rpc cfg found.did_full_search cache found.session)
      of_alternatives (x ∷ xs) = refl
      of_alternatives [] = ground arith

  after_search-flags :
      (cache : Cache L) (st : Status E M V) (found : Found (PathSession A D E M V) E M)
      → flags (after_search lib pay rpc cfg cache st found).0 ≡ flags found.session
  unfolding after_search
  after_search-flags cache st found =
      if_keeps (λ (r : PathSession A D E M V × Status E M V). flags r.0 ≡ flags found.session)
        found.ok (λ _. with_alternatives-flags cache st found)
        (λ _. note_full-flags found.did_full_search cache found.session)

  update_valid-flags :
      (books : Books A T D) (cache : Cache L) (fast revalidate_only : Bool) (clock : Clock)
      (src dst : ℕ) (s : PathSession A D E M V)
      → flags (update_valid lib pay rpc cfg books cache fast revalidate_only clock src dst s).0
        ≡ flags s
  unfolding update_valid
  update_valid-flags books cache fast revalidate_only clock src dst s =
      after_search-flags cache (new_status lib pay rpc cfg cache src dst s) (
        find_paths lib pay rpc cfg books cache (not revalidate_only) (not revalidate_only) fast
          clock src dst s)
      ∙ find_paths-flags books cache (not revalidate_only) (not revalidate_only) fast clock src dst
          s

  pub do_update-flags :
      (books : Books A T D) (cache : Cache L) (fast revalidate_only : Bool) (clock : Clock)
      (s : PathSession A D E M V)
      → flags (do_update lib pay rpc cfg books cache fast revalidate_only clock s).0 ≡ flags s
  unfolding do_update
  do_update-flags books cache fast revalidate_only clock s =
      if_keeps F checked.1 (λ _. of_accounts checked.0.src checked.0.dst) (λ _. kept)
    where
      checked : PathSession A D E M V × Bool
      checked = is_valid lib pay rpc cfg cache s

      F : PathSession A D E M V × Status E M V → Type 0
      F r = flags r.0 ≡ flags s

      kept : flags checked.0 ≡ flags s
      kept = ap flags_of (is_valid-fixed cache s)

      of_accounts :
          (src dst : Option ℕ)
          → F (elim src as (λ _. PathSession A D E M V × Status E M V) [
            | none ↦ (checked.0, checked.0.status)
            | some x ↦ elim dst [
              | none ↦ (checked.0, checked.0.status)
              | some y ↦
                  update_valid lib pay rpc cfg books cache fast revalidate_only clock x y checked.0
            ]
          ])
      of_accounts none dst = kept
      of_accounts (some x) none = kept
      of_accounts (some x) (some y) =
          update_valid-flags books cache fast revalidate_only clock x y checked.0 ∙ kept

  pub do_create-flags :
      (books : Books A T D) (cache : Cache L) (params : Params V) (clock : Clock)
      (s : PathSession A D E M V)
      → flags (do_create lib pay rpc cfg books cache params clock s).0 ≡ flags s
  unfolding do_create
  do_create-flags books cache params clock s =
      if_keeps F parsed.1
        (λ _.
          if_keeps F (not s.one_shot && checked.1)
            (λ _. do_update-flags books cache false false clock checked.0 ∙ kept) (λ _. kept))
        (λ _. ap flags_of (parse_json-fixed lib pay rpc params s))
    where
      parsed : PathSession A D E M V × Bool
      parsed = parse_json lib pay rpc params s

      checked : PathSession A D E M V × Bool
      checked = is_valid lib pay rpc cfg cache parsed.0

      F : PathSession A D E M V × Bool × Status E M V → Type 0
      F r = flags r.0 ≡ flags s

      kept : flags checked.0 ≡ flags s
      kept = ap flags_of (is_valid-fixed cache parsed.0 ∙ parse_json-fixed lib pay rpc params s)

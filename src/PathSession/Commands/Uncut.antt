-- ===== src/PathSession/Commands/Uncut.antt =====
-- The limits on the source assets of an account.
use edgy.PathSession.Validity.{set_identity}
use edgy.PathSession.Sources.{Clock, sources_of, own_tokens, hard_max_of}
use edgy.PathSession.Sources.Limits.{own_assets, auto_sources-over, auto_sources-uncut}
use edgy.Prelude.{
  max, ℕ, ◌==◌, ◌<◌, length, ◌≡◌, ◌≢◌, Bool, false, not, if◌then◌else◌, if_keeps, Option, none,
  some, List, [], ◌∷◌, refl, ap, ◌∙◌, arith,
}
use edgy.Containers.Eq.{Eq}
use edgy.Books.{Xrpl, Books}
use edgy.Graph.{Payments}
use edgy.PathSession.{
  Alternative, Status, PathWarn, PathError, rpc_error, Config, Rpc, Cache, PathSession,
}
use edgy.PathSession.Search.{Found, find_paths, find_from, full_search, priced}
use edgy.PathSession.Parse.Keeps.{fixed}
use edgy.PathSession.Commands.Answers.{after_search-fixed}
use edgy.PathSession.Search.Each.{search_each_keeps}
use edgy.PathSession.Commands.{
  update_valid, after_search, with_alternatives, note_full, new_status, add_notices, set_notice,
}

module _ {A T D E M L V : Type 0} ⦃a : Eq A⦄ ⦃t : Eq T⦄ ⦃d : Eq D⦄ ⦃e : Eq E⦄ (lib : Xrpl A T)
    (pay : Payments A D E M L) (rpc : Rpc A D E M L V) (cfg : Config) where
  -- Nothing is said of sources that are cut.
  abbrev pub SaysUncut : Status E M V → Type 0
  SaysUncut st = st.warning ≢ some PathWarn.source_currencies_truncated

  full_search-uncut :
      (books : Books A T D) (cache : Cache L) (fast : Bool) (clock : Clock) (src dst : ℕ)
      (sources : List A) (s : PathSession A D E M V)
      → (full_search lib pay rpc cfg books cache fast clock src dst sources s).session.truncated
        ≡ s.truncated
  unfolding full_search
  full_search-uncut books cache fast clock src dst sources s =
      search_each_keeps lib pay rpc cfg (λ r. r.truncated) (λ r c. refl) books cache.ledger src dst
        _ _ clock 0 _ _ _

  -- Sources are never cut, since the soft limit is the hard one.
  sources_of-uncut :
      (cache : Cache L) (fast : Bool) (clock : Clock) (src dst : ℕ) (s : PathSession A D E M V)
      (sources : List A) (cut : Bool)
      → sources_of lib pay rpc cfg cache fast clock src dst s ≡ some (sources, cut)
      → cut ≡ false
  unfolding sources_of
  sources_of-uncut cache fast clock src dst s sources cut = of_explicit s.source_assets s.send_max (
      auto_sources-uncut lib pay rpc cfg limit limit (src == dst)
        (own_tokens lib pay rpc cfg cache src) s [] src (omega arith) sources cut)
    where
      limit : ℕ
      limit = hard_max_of lib pay rpc cfg fast clock s

      of_explicit :
          (xs : List A) (max : Option M) {auto : Option (List A × Bool)}
          → (auto ≡ some (sources, cut) → cut ≡ false)
          → (elim xs as (λ _. Option (List A × Bool)) [
            | x ∷ xs ↦ some (x ∷ xs, false)
            | [] ↦ elim max [ some m ↦ some (pay.asset m ∷ [], false) | none ↦ auto ]
          ])
            ≡ some (sources, cut)
          → cut ≡ false
      of_explicit (x ∷ xs) max f q = ground (arith, q)
      of_explicit [] (some m) f q = ground (arith, q)
      of_explicit [] none f q = f q

  find_from-uncut :
      (books : Books A T D) (cache : Cache L) (full escalate fast : Bool) (clock : Clock)
      (src dst : ℕ) (sources : List A) (s : PathSession A D E M V)
      → (find_from lib pay rpc cfg books cache full escalate fast clock src dst sources
          s).session.truncated
        ≡ s.truncated
  unfolding find_from priced
  find_from-uncut books cache full escalate fast clock src dst sources s =
      if_keeps Keeps full (λ _. full_search-uncut books cache fast clock src dst sources s)
        (λ _. of_live _)
    where
      Keeps : Found (PathSession A D E M V) E M → Type 0
      Keeps r = r.session.truncated ≡ s.truncated

      of_live :
          (live : List (Alternative E M))
          → Keeps (elim live as (λ _. Found (PathSession A D E M V) E M) [
            | x ∷ xs ↦ priced lib pay rpc cfg (x ∷ xs) s
            | [] ↦
                if escalate
                then full_search lib pay rpc cfg books cache fast clock src dst sources s
                else priced lib pay rpc cfg [] s
          ])
      of_live (x ∷ xs) = refl
      of_live [] =
          if_keeps Keeps escalate (λ _. full_search-uncut books cache fast clock src dst sources s)
            (λ _. refl)

  find_paths-uncut :
      (books : Books A T D) (cache : Cache L) (full escalate fast : Bool) (clock : Clock)
      (src dst : ℕ) (s : PathSession A D E M V)
      → s.truncated ≡ false
      → (find_paths lib pay rpc cfg books cache full escalate fast clock src dst
          s).session.truncated
        ≡ false
  unfolding find_paths
  find_paths-uncut books cache full escalate fast clock src dst s h =
      of_sources (sources_of lib pay rpc cfg cache fast clock src dst s)
        (sources_of-uncut cache fast clock src dst s)
    where
      of_sources :
          (o : Option (List A × Bool))
          → ((sources : List A) (cut : Bool) → o ≡ some (sources, cut) → cut ≡ false)
          → (elim o as (λ _. Found (PathSession A D E M V) E M) [
            | none ↦ record { session = s; ok = false; did_full_search = false; alternatives = [] }
            | some (sources, cut) ↦
                find_from lib pay rpc cfg books cache full escalate fast clock src dst sources
                  (record s { truncated = cut })
          ]).session.truncated
            ≡ false
      of_sources none u = h
      of_sources (some (sources, cut)) u =
          find_from-uncut books cache full escalate fast clock src dst sources
            (record s { truncated = cut })
          ∙ u sources cut refl

  note_full-uncut :
      (did_full : Bool) (cache : Cache L) (s : PathSession A D E M V)
      → (note_full lib pay rpc cfg did_full cache s).truncated ≡ s.truncated
  unfolding note_full
  note_full-uncut did_full cache s = ground arith

  with_alternatives-uncut :
      (cache : Cache L) (st : Status E M V) (found : Found (PathSession A D E M V) E M)
      → st.warning ≡ none
      → ((with_alternatives lib pay rpc cfg cache st found).0.truncated ≡ found.session.truncated)
        × SaysUncut (with_alternatives lib pay rpc cfg cache st found).1
  unfolding with_alternatives set_notice
  with_alternatives-uncut cache st found h =
      ground (arith, h, note_full-uncut found.did_full_search cache found.session)

  set_identity-warning :
      (view : L) (st : Status E M V) → (set_identity lib pay rpc cfg view st).warning ≡ st.warning
  unfolding set_identity
  set_identity-warning view st = ground arith

  new_status-warning :
      (cache : Cache L) (src dst : ℕ) (s : PathSession A D E M V)
      → (new_status lib pay rpc cfg cache src dst s).warning ≡ none
  unfolding new_status
  new_status-warning cache src dst s = set_identity-warning cache.ledger _

  after_search-uncut :
      (cache : Cache L) (st : Status E M V) (found : Found (PathSession A D E M V) E M)
      → st.warning ≡ none
      → ((after_search lib pay rpc cfg cache st found).0.truncated ≡ found.session.truncated)
        × SaysUncut (after_search lib pay rpc cfg cache st found).1
  unfolding after_search
  after_search-uncut cache st found h =
      if_keeps
        (λ (r : PathSession A D E M V × Status E M V).
          (r.0.truncated ≡ found.session.truncated) × SaysUncut r.1)
        found.ok (λ _. with_alternatives-uncut cache st found h)
        (λ _.
          (note_full-uncut found.did_full_search cache found.session, λ q. absurd (ground arith)))

  add_notices-uncut :
      (cache : Cache L) (s : PathSession A D E M V) (st : Status E M V)
      → s.truncated ≡ false
      → SaysUncut st
      → SaysUncut (add_notices lib pay rpc cfg cache s st)
  unfolding add_notices set_notice
  add_notices-uncut cache s st h w = ground arith

  add_notices-error :
      (cache : Cache L) (s : PathSession A D E M V) (code : PathError)
      → add_notices lib pay rpc cfg cache s (rpc_error code) ≡ rpc_error code
  unfolding add_notices set_notice
  add_notices-error cache s code = ground arith

  -- The soft cap on the source assets is never at work: an update of a session whose sources were not
  -- cut does not cut them and gives no warning of it.
  pub update-uncut :
      (books : Books A T D) (cache : Cache L) (fast reval : Bool) (clock : Clock) (src dst : ℕ)
      (s : PathSession A D E M V)
      → s.truncated ≡ false
      → ((update_valid lib pay rpc cfg books cache fast reval clock src dst s).0.truncated ≡ false)
        × SaysUncut (update_valid lib pay rpc cfg books cache fast reval clock src dst s).1
  unfolding update_valid
  update-uncut books cache fast reval clock src dst s h =
      let full = not reval in
      let st = new_status lib pay rpc cfg cache src dst s in
      let found = find_paths lib pay rpc cfg books cache full full fast clock src dst s in
      let r = after_search lib pay rpc cfg cache st found in
      let (kept, says) = after_search-uncut cache st found (new_status-warning cache src dst s) in
      let uncut = kept ∙ find_paths-uncut books cache full full fast clock src dst s h in
      (uncut, add_notices-uncut cache r.0 r.1 uncut says)

  over_limit :
      (books : Books A T D) (cache : Cache L) (full escalate fast : Bool) (clock : Clock)
      (src dst : ℕ) (st : Status E M V) (s : PathSession A D E M V)
      → sources_of lib pay rpc cfg cache fast clock src dst s ≡ none
      → (after_search lib pay rpc cfg cache st
          (find_paths lib pay rpc cfg books cache full escalate fast clock src dst s)).1
        ≡ rpc_error PathError.internal
  unfolding find_paths after_search
  over_limit books cache full escalate fast clock src dst st s q = rw (q, find_paths) refl

  find_paths-over_limit :
      (books : Books A T D) (cache : Cache L) (full escalate fast : Bool) (clock : Clock)
      (src dst : ℕ) (s : PathSession A D E M V)
      → sources_of lib pay rpc cfg cache fast clock src dst s ≡ none
      → (find_paths lib pay rpc cfg books cache full escalate fast clock src dst s).session ≡ s
  unfolding find_paths
  find_paths-over_limit books cache full escalate fast clock src dst s q = rw (q, find_paths) refl

  sources_of-over :
      (cache : Cache L) (fast : Bool) (clock : Clock) (src dst : ℕ) (s : PathSession A D E M V)
      → s.source_assets ≡ []
      → s.send_max ≡ none
      → hard_max_of lib pay rpc cfg fast clock s
        < length (
            own_assets lib pay rpc cfg (src == dst) (own_tokens lib pay rpc cfg cache src) s [] src)
      → sources_of lib pay rpc cfg cache fast clock src dst s ≡ none
  unfolding sources_of
  sources_of-over cache fast clock src dst s x m over = of_none s.source_assets s.send_max x m (
      auto_sources-over lib pay rpc cfg limit limit (src == dst)
        (own_tokens lib pay rpc cfg cache src) s [] src (omega arith) (omega arith) over)
    where
      limit : ℕ
      limit = hard_max_of lib pay rpc cfg fast clock s

      of_none :
          (xs : List A) (max : Option M) {auto : Option (List A × Bool)}
          → xs ≡ []
          → max ≡ none
          → auto ≡ none
          → (elim xs as (λ _. Option (List A × Bool)) [
            | x ∷ xs ↦ some (x ∷ xs, false)
            | [] ↦ elim max [ some m ↦ some (pay.asset m ∷ [], false) | none ↦ auto ]
          ])
            ≡ none
      of_none (x ∷ xs) max p q r = absurd (ground (arith, p))
      of_none [] (some m) p q r = absurd (ground (arith, q))
      of_none [] none p q r = r

  -- Where a request names no sources and no `send_max`, and the account has more assets that it may pay
  -- from than the search depth of the session allows, an update searches nothing and prices nothing:
  -- its answer is an internal error, and the session keeps the paths that it remembers, its depth and
  -- the number of its searches.
  pub update-over_limit :
      (books : Books A T D) (cache : Cache L) (fast reval : Bool) (clock : Clock) (src dst : ℕ)
      (s : PathSession A D E M V)
      → s.source_assets ≡ []
      → s.send_max ≡ none
      → hard_max_of lib pay rpc cfg fast clock s
        < length (
            own_assets lib pay rpc cfg (src == dst) (own_tokens lib pay rpc cfg cache src) s [] src)
      → ((update_valid lib pay rpc cfg books cache fast reval clock src dst s).1
          ≡ rpc_error PathError.internal)
        × (fixed (update_valid lib pay rpc cfg books cache fast reval clock src dst s).0 ≡ fixed s)
  unfolding update_valid
  update-over_limit books cache fast reval clock src dst s x m over =
      let q = sources_of-over cache fast clock src dst s x m over in
      let full = not reval in
      let st = new_status lib pay rpc cfg cache src dst s in
      let found = find_paths lib pay rpc cfg books cache full full fast clock src dst s in
      let r = after_search lib pay rpc cfg cache st found in
      (
        ap (add_notices lib pay rpc cfg cache r.0)
              (over_limit books cache full full fast clock src dst st s q)
            ∙ add_notices-error cache r.0 PathError.internal,
        after_search-fixed lib pay rpc cfg cache st found
            ∙ ap fixed (find_paths-over_limit books cache full full fast clock src dst s q),
      )

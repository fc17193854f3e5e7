-- ===== src/PathSession/Commands/Listed.antt =====
-- What an update that searches lists.
use edgy.PathSession.Sources.{Clock, sources_of}
use edgy.Prelude.{
  ℕ, ◌≡◌, Bool, true, false, if_keeps, Option, none, some, List, [], refl, sym, ◌∙◌, arith, subst,
}
use edgy.Containers.Eq.{Eq}
use edgy.Books.{Xrpl, Books}
use edgy.Graph.{Payments}
use edgy.PathSession.{Alternative, Status, PathWarn, Config, Rpc, Cache, PathSession}
use edgy.PathSession.Search.{Found, find_paths, find_from, full_search}
use edgy.PathSession.Search.Order.{PathsFirst, full_search-PathsFirst, none-PathsFirst}
use edgy.PathSession.Commands.{
  update_valid, after_search, with_alternatives, new_status, add_notices, set_notice,
}

module _ {A T D E M L V : Type 0} ⦃a : Eq A⦄ ⦃t : Eq T⦄ ⦃d : Eq D⦄ ⦃e : Eq E⦄ (lib : Xrpl A T)
    (pay : Payments A D E M L) (rpc : Rpc A D E M L V) (cfg : Config) where
  -- A search in full says so where it succeeds.
  Searched : Found (PathSession A D E M V) E M → Type 0
  Searched r = (r.ok ≡ true → r.did_full_search ≡ true) × PathsFirst r.alternatives

  find_paths-Searched :
      (books : Books A T D) (cache : Cache L) (fast : Bool) (clock : Clock) (src dst : ℕ)
      (s : PathSession A D E M V)
      → Searched (find_paths lib pay rpc cfg books cache true true fast clock src dst s)
  unfolding find_paths find_from Searched
  find_paths-Searched books cache fast clock src dst s =
      of_sources (sources_of lib pay rpc cfg cache fast clock src dst s)
    where
      of_sources :
          (o : Option (List A × Bool))
          → Searched (elim o as (λ _. Found (PathSession A D E M V) E M) [
            | none ↦ record { session = s; ok = false; did_full_search = false; alternatives = [] }
            | some (sources, cut) ↦
                find_from lib pay rpc cfg books cache true true fast clock src dst sources
                  (record s { truncated = cut })
          ])
      of_sources none = ((λ q. absurd (ground arith)), none-PathsFirst E M)
      of_sources (some (sources, cut)) = (
        (λ q. unfold full_search in refl),
        full_search-PathsFirst lib pay rpc cfg books cache fast clock src dst sources
            (record s { truncated = cut }),
      )

  Lists : Status E M V → Type 0
  Lists st =
      (alternatives : List (Alternative E M))
      → st.alternatives ≡ some alternatives
      → PathsFirst alternatives

  set_notice-alternatives :
      (code : PathWarn) (st : Status E M V) → (set_notice code st).alternatives ≡ st.alternatives
  unfolding set_notice
  set_notice-alternatives code st = ground arith

  add_notices-alternatives :
      (cache : Cache L) (s : PathSession A D E M V) (st : Status E M V)
      → (add_notices lib pay rpc cfg cache s st).alternatives ≡ st.alternatives
  unfolding add_notices
  add_notices-alternatives cache s st = ground (
    arith,
    set_notice-alternatives PathWarn.source_currencies_truncated st,
    set_notice-alternatives PathWarn.lines_budget st,
    set_notice-alternatives PathWarn.lines_partial st,
  )

  with_alternatives-full :
      (cache : Cache L) (st : Status E M V) (found : Found (PathSession A D E M V) E M)
      → found.did_full_search ≡ true
      → (with_alternatives lib pay rpc cfg cache st found).1.alternatives ≡ some found.alternatives
  unfolding with_alternatives
  with_alternatives-full cache st found h = ground (arith, h)

  after_search-Lists :
      (cache : Cache L) (st : Status E M V) (found : Found (PathSession A D E M V) E M)
      → Searched found
      → Lists (after_search lib pay rpc cfg cache st found).1
  unfolding after_search Lists Searched
  after_search-Lists cache st found w =
      if_keeps (λ (r : PathSession A D E M V × Status E M V). Lists r.1) found.ok
        (λ ok alternatives q.
          subst PathsFirst (ground (arith, q, with_alternatives-full cache st found (w.0 ok))) w.1)
        (λ bad alternatives q. absurd (ground arith))

  -- The alternatives of an answer, if it has some.
  abbrev pub listed : Status E M V → List (Alternative E M)
  listed st = elim st.alternatives [ none ↦ [] | some alternatives ↦ alternatives ]

  listed-PathsFirst :
      (o : Option (List (Alternative E M)))
      → ((alternatives : List (Alternative E M)) → o ≡ some alternatives → PathsFirst alternatives)
      → PathsFirst
          (elim o as (λ _. List (Alternative E M)) [ none ↦ [] | some alternatives ↦ alternatives ])
  listed-PathsFirst none h = none-PathsFirst E M
  listed-PathsFirst (some alternatives) h = h alternatives refl

  -- The alternatives that an update with a full search answers come in the order that clients rely on,
  -- which read the first one only: those with paths before those that pay by the default path. Each has
  -- at most six paths, and a path has one to eight elements.
  pub update-PathsFirst :
      (books : Books A T D) (cache : Cache L) (fast : Bool) (clock : Clock) (src dst : ℕ)
      (s : PathSession A D E M V)
      → PathsFirst (listed (update_valid lib pay rpc cfg books cache fast false clock src dst s).1)
  unfolding update_valid Lists
  update-PathsFirst books cache fast clock src dst s =
      let st = new_status lib pay rpc cfg cache src dst s in
      let found = find_paths lib pay rpc cfg books cache true true fast clock src dst s in
      let r = after_search lib pay rpc cfg cache st found in
      listed-PathsFirst (add_notices lib pay rpc cfg cache r.0 r.1).alternatives (λ alternatives q.
        after_search-Lists cache st found (find_paths-Searched books cache fast clock src dst s)
          alternatives (sym (add_notices-alternatives cache r.0 r.1) ∙ q))

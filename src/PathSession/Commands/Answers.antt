-- ===== src/PathSession/Commands/Answers.antt =====
-- What an update answers.
use edgy.PathSession.Pricing.{revalidate_all}
use edgy.PathSession.Sources.{Clock, sources_of}
use edgy.Prelude.{
  ℕ, ◌≡◌, Bool, true, false, if_keeps, Option, none, some, List, [], ◌∷◌, refl, ◌∙◌, arith,
}
use edgy.Containers.Eq.{Eq}
use edgy.Books.{Xrpl, Books}
use edgy.Graph.{Payments}
use edgy.PathSession.{Alternative, Status, Config, Rpc, Cache, PathSession}
use edgy.PathSession.Parse.Keeps.{fixed}
use edgy.PathSession.Search.{Found, find_paths, find_from, priced}
use edgy.PathSession.Commands.{update_valid, after_search, with_alternatives, note_full, new_status}

module _ {A T D E M L V : Type 0} ⦃a : Eq A⦄ ⦃t : Eq T⦄ ⦃d : Eq D⦄ ⦃e : Eq E⦄ (lib : Xrpl A T)
    (pay : Payments A D E M L) (rpc : Rpc A D E M L V) (cfg : Config) where
  -- The rest of an answer keeps who the session is and what it has searched.
  note_full-fixed :
      (did_full : Bool) (cache : Cache L) (s : PathSession A D E M V)
      → fixed (note_full lib pay rpc cfg did_full cache s) ≡ fixed s
  unfolding note_full
  note_full-fixed true cache s = refl
  note_full-fixed false cache s = refl

  with_alternatives-fixed :
      (cache : Cache L) (st : Status E M V) (found : Found (PathSession A D E M V) E M)
      → fixed (with_alternatives lib pay rpc cfg cache st found).0 ≡ fixed found.session
  unfolding with_alternatives
  with_alternatives-fixed cache st found =
      of_alternatives found.alternatives ∙ note_full-fixed found.did_full_search cache found.session
    where
      of_alternatives :
          (alternatives : List (Alternative E M))
          → fixed
              (with_alternatives lib pay rpc cfg cache st
                (record found { alternatives = alternatives })).0
            ≡ fixed (note_full lib pay rpc cfg found.did_full_search cache found.session)
      of_alternatives (x ∷ xs) = refl
      of_alternatives [] = ground arith

  pub after_search-fixed :
      (cache : Cache L) (st : Status E M V) (found : Found (PathSession A D E M V) E M)
      → fixed (after_search lib pay rpc cfg cache st found).0 ≡ fixed found.session
  unfolding after_search
  after_search-fixed cache st found =
      if_keeps (λ (r : PathSession A D E M V × Status E M V). fixed r.0 ≡ fixed found.session)
        found.ok (λ _. with_alternatives-fixed cache st found)
        (λ _. note_full-fixed found.did_full_search cache found.session)

  -- A pricing searches nothing.
  find_paths-priced :
      (books : Books A T D) (cache : Cache L) (force_fast : Bool) (clock : Clock) (src dst : ℕ)
      (s : PathSession A D E M V)
      → (fixed
            (find_paths lib pay rpc cfg books cache false false force_fast clock src dst s).session
          ≡ fixed s)
        × ((find_paths lib pay rpc cfg books cache false false force_fast clock src dst
              s).did_full_search
            ≡ false)
  unfolding find_paths find_from priced
  find_paths-priced books cache force_fast clock src dst s =
      of_sources (sources_of lib pay rpc cfg cache force_fast clock src dst s)
    where
      F : Found (PathSession A D E M V) E M → Type 0
      F r = (fixed r.session ≡ fixed s) × (r.did_full_search ≡ false)

      of_live :
          (cut : Bool) (live : List (Alternative E M))
          → F (elim live as (λ _. Found (PathSession A D E M V) E M) [
            | x ∷ xs ↦ priced lib pay rpc cfg (x ∷ xs) (record s { truncated = cut })
            | [] ↦ priced lib pay rpc cfg [] (record s { truncated = cut })
          ])
      of_live cut (x ∷ xs) = (refl, refl)
      of_live cut [] = (refl, refl)

      of_sources :
          (o : Option (List A × Bool))
          → F (elim o as (λ _. Found (PathSession A D E M V) E M) [
            | none ↦ record { session = s; ok = false; did_full_search = false; alternatives = [] }
            | some (sources, cut) ↦
                find_from lib pay rpc cfg books cache false false force_fast clock src dst sources
                  (record s { truncated = cut })
          ])
      of_sources none = (refl, refl)
      of_sources (some (sources, cut)) = of_live cut (
          revalidate_all lib pay rpc cfg cache.ledger sources
            (rpc.convert_amount s.dst_amount s.convert_all) (record s { truncated = cut }))

  -- An update that only revalidates searches nothing: the remembered paths, the depth and the number
  -- of searches stay as they are.
  pub update-revalidates :
      (books : Books A T D) (cache : Cache L) (fast : Bool) (clock : Clock) (src dst : ℕ)
      (s : PathSession A D E M V)
      → fixed (update_valid lib pay rpc cfg books cache fast true clock src dst s).0 ≡ fixed s
  unfolding update_valid
  update-revalidates books cache fast clock src dst s =
      after_search-fixed cache (new_status lib pay rpc cfg cache src dst s)
        (find_paths lib pay rpc cfg books cache false false fast clock src dst s)
      ∙ (find_paths-priced books cache fast clock src dst s).0

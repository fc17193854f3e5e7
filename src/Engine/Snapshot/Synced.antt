-- ===== src/Engine/Snapshot/Synced.antt =====
-- What a snapshot leaves.
use edgy.Prelude.{
  ◌≡◌, Bool, true, false, if◌then◌else◌, if_keeps, Option, none, some, List, [], ◌∷◌, refl, ap, ◌∙◌,
  arith,
}
use edgy.Containers.Eq.{Eq}
use edgy.Books.{Xrpl}
use edgy.Builder.{Header, put, set_header}
use edgy.Builder.Items.{Codec, upsert_raw}
use edgy.Engine.Meta.{State}
use edgy.Engine.Apply.{Follower, publish_builder}
use edgy.Engine.Apply.Current.{current, served, publish_builder-current}
use edgy.Engine.Apply.Chain.{publish-header}
use edgy.Engine.Apply.Tally.{tally}
use edgy.Engine.Snapshot.{
  Entry, Page, thrown, refused, page, LedgerAnswer, load_entry, load_entries, load_type, load_types,
  header_of, no_header, forget_ledger, load_snapshot,
}

module _ {A T D W : Type 0} ⦃a : Eq A⦄ ⦃t : Eq T⦄ ⦃d : Eq D⦄ (lib : Xrpl A T)
    (codec : Codec A D W) where
  load_entry-header :
      (x : Entry A D W) (s : State A T D W)
      → (load_entry lib codec x s).builder.header ≡ s.builder.header
  unfolding load_entry upsert_raw put
  load_entry-header x s = ground arith

  load_entries-header :
      (xs : List (Option (Entry A D W))) (s : State A T D W)
      → (load_entries lib codec xs s).1.builder.header ≡ s.builder.header
  unfolding load_entries
  load_entries-header [] s = refl
  load_entries-header (none ∷ xs) s = load_entries-header xs s
  load_entries-header (some x ∷ xs) s =
      load_entries-header xs (load_entry lib codec x s) ∙ load_entry-header x s

  load_type-header :
      (optional first : Bool) (pages : List (Page A D W)) (s : State A T D W)
      → (load_type lib codec optional first pages s).1.builder.header ≡ s.builder.header
  unfolding load_type
  load_type-header optional first [] s = refl
  load_type-header optional first (thrown ∷ pages) s = refl
  load_type-header optional first (refused ∷ pages) s = refl
  load_type-header optional first (page none marker ∷ pages) s = ground arith
  load_type-header optional first (page (some xs) marker ∷ pages) s =
      let batch = load_entries lib codec xs s in
      ground (arith, load_entries-header xs s, load_type-header optional false pages batch.1)

  load_types-header :
      (types : List (Bool × List (Page A D W))) (s : State A T D W)
      → (load_types lib codec types s).1.builder.header ≡ s.builder.header
  unfolding load_types
  load_types-header [] s = refl
  load_types-header ((optional, pages) ∷ types) s =
      let r = load_type lib codec optional true pages s in
      ground (arith, load_type-header optional true pages s, load_types-header types r.1)

  -- What the theorems on closes, ticks and counts suppose.
  pub Synced : Follower A T D W → Type 0
  Synced s =
      (s.state.builder.header.seq ≡ s.current_seq)
      × (served s.published ≡ some (current s.state))
      × (tally s ≡ 0)

  -- A snapshot that is loaded leaves the builder with the header of the current ledger, a published
  -- ledger that holds the objects of the builder, and no transaction counted, whatever the pages hold
  -- and however the optional types end.
  pub load_snapshot-Synced :
      (ledger : LedgerAnswer) (types : List (Bool × List (Page A D W))) (s : Follower A T D W)
      → (load_snapshot lib codec ledger types s).0 ≡ true
      → Synced (load_snapshot lib codec ledger types s).1
  unfolding load_snapshot
  load_snapshot-Synced ledger types s = of_header (header_of ledger no_header)
    where
      cleared : Follower A T D W
      cleared = forget_ledger lib codec s

      loading : Header → Bool × State A T D W
      loading h =
          load_types lib codec types
            (record cleared.state { builder = set_header cleared.state.builder h })

      loaded : Header → Follower A T D W
      loaded h = record cleared { state = (loading h).1; current_seq = h.seq }

      IsDone : Bool × Follower A T D W → Type 0
      IsDone r = r.0 ≡ true → Synced r.1

      published : (h : Header) → Synced (publish_builder (loaded h))
      published h =
          unfold Synced publish_builder forget_ledger set_header in
          (
            ap (λ x. x.seq) (publish-header (loading h).1.builder ∙ load_types-header types _),
            publish_builder-current (loaded h),
            refl,
          )

      of_header :
          (o : Option Header)
          → IsDone (elim o as (λ _. Bool × Follower A T D W) [
            | none ↦ (false, cleared)
            | some h ↦
                if (loading h).0 then (true, publish_builder (loaded h)) else (false, loaded h)
          ])
      of_header none q = absurd (ground arith)
      of_header (some h) q =
          if_keeps IsDone (loading h).0 (λ _ r. published h) (λ _ r. absurd (ground (arith, r))) q

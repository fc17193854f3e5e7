-- ===== src/Engine/Stream/Touched.antt =====
-- Metadata that is counted as nothing applied changes nothing.
use edgy.Prelude.{
  if◌then◌else◌, ◌⊎◌, ℕ, ◌≡◌, ◌<◌, Bool, true, false, Option, none, some, List, [], ◌∷◌, arith,
  refl, inl, inr, ◌∙◌, subst,
}
use edgy.Containers.Eq.{Eq}
use edgy.Books.{Xrpl}
use edgy.Builder.Items.{Codec}
use edgy.Engine.Meta.{MetaApply, NodeKind, MetaNode, Fields, State}
use edgy.Engine.Meta.Told.{Told, apply_meta_node-Told}
use edgy.Engine.Stream.{
  StreamMetaStats, JsonNode, JsonItem, note, applied, skip_unknown, apply_parsed, apply_json_node,
  apply_item, apply_items, apply_json_affected_nodes, no_stats,
}

module _ {A T D W : Type 0} where
  -- More is counted as applied, or the state is the same.
  abbrev pub Touched : StreamMetaStats × State A T D W → StreamMetaStats × State A T D W → Type 0
  Touched r r' = (applied r.0 < applied r'.0) ⊎ ((applied r.0 ≡ applied r'.0) × (r'.1 ≡ r.1))

  pub Touched-trans :
      (r r' r'' : StreamMetaStats × State A T D W) → Touched r r' → Touched r' r'' → Touched r r''
  Touched-trans r r' r'' (inl l) (inl m) = inl (omega (arith, l, m))
  Touched-trans r r' r'' (inl l) (inr (q, e)) = inl (omega (arith, l, q))
  Touched-trans r r' r'' (inr (p, f)) (inl m) = inl (omega (arith, p, m))
  Touched-trans r r' r'' (inr (p, f)) (inr (q, e)) = inr (p ∙ q, e ∙ f)

  pub note-Touched :
      (st : StreamMetaStats) (s : State A T D W) (r : MetaApply × State A T D W)
      → Told s r
      → Touched (st, s) (note r.0 st, r.1)
  unfolding note applied
  note-Touched st s (MetaApply.nothing, s') (inl n) = absurd (n refl)
  note-Touched st s (MetaApply.nothing, s') (inr q) = inr (omega arith, q)
  note-Touched st s (MetaApply.created, s') h = inl (omega arith)
  note-Touched st s (MetaApply.modified, s') h = inl (omega arith)
  note-Touched st s (MetaApply.deleted, s') h = inl (omega arith)
  note-Touched st s (MetaApply.incomplete, s') h = inl (omega arith)

module _ {A T D F W : Type 0} ⦃a : Eq A⦄ ⦃t : Eq T⦄ ⦃d : Eq D⦄ (lib : Xrpl A T)
    (codec : Codec A D W) (fields : Fields A D F) where
  skip_unknown-Touched :
      (b : Bool) (key : Option ℕ) (r : StreamMetaStats × State A T D W)
      → Touched r (skip_unknown lib codec fields b key r)
  unfolding skip_unknown applied
  skip_unknown-Touched true (some key) (st, s) = inl (omega arith)
  skip_unknown-Touched true none (st, s) = inr (omega arith, refl)
  skip_unknown-Touched false key (st, s) = inr (omega arith, refl)

  apply_parsed-Touched :
      (kind : NodeKind) (node : Option (MetaNode F)) (r : StreamMetaStats × State A T D W)
      → Touched r (apply_parsed lib codec fields kind node r)
  unfolding apply_parsed applied
  apply_parsed-Touched kind none (st, s) = inr (omega arith, refl)
  apply_parsed-Touched kind (some node) (st, s) =
      note-Touched st s _ (apply_meta_node-Told lib codec fields (record node { kind = kind }) s)

  -- What was counted before, where it goes on to the end.
  Went : Option StreamMetaStats × State A T D W → Option StreamMetaStats × State A T D W → Type 0
  Went r r' =
      (st' : StreamMetaStats)
      → r'.0 ≡ some st'
      → (st : StreamMetaStats) × (r.0 ≡ some st) × Touched (st, r.1) (st', r'.1)

  Went-trans :
      (r r' r'' : Option StreamMetaStats × State A T D W) → Went r r' → Went r' r'' → Went r r''
  unfolding Went
  Went-trans r r' r'' f g st'' e'' =
      let (st', e', h') = g st'' e'' in
      let (st, e, h) = f st' e' in (st, e, Touched-trans (st, r.1) (st', r'.1) (st'', r''.1) h h')

  apply_json_node-Went :
      (kind : NodeKind) (b : Bool) (node : Option (JsonNode F))
      (r : Option StreamMetaStats × State A T D W)
      → Went r (apply_json_node lib codec fields kind b node r)
  unfolding apply_json_node Went
  apply_json_node-Went kind b none r = λ st' e. (st', e, inr (refl, refl))
  apply_json_node-Went kind b (some node) (none, s) = λ st' e. absurd (ground (arith, e))
  apply_json_node-Went kind b (some node) (some st, s) = of_known node.known
    where
      same :
          (r : StreamMetaStats × State A T D W) (st' : StreamMetaStats)
          → Touched (st, s) r
          → some r.0 ≡ some st'
          → Touched (st, s) (st', r.1)
      same r st' h e = subst (λ x. Touched (st, s) (x, r.1)) (ground (arith, e)) h

      of_known :
          (o : Option Bool)
          → (st' : StreamMetaStats)
          → (elim o as (λ _. Option StreamMetaStats × State A T D W) [
            | none ↦ (none, s)
            | some known ↦
                let r =
                  if known
                  then apply_parsed lib codec fields kind node.parsed (st, s)
                  else skip_unknown lib codec fields b node.key (st, s) in
                (some r.0, r.1)
          ]).0
            ≡ some st'
          → (st0 : StreamMetaStats) × (some st ≡ some st0)
            × Touched
                (st0, s)
                (
                  st',
                  (elim o as (λ _. Option StreamMetaStats × State A T D W) [
                    | none ↦ (none, s)
                    | some known ↦
                        let r =
                          if known
                          then apply_parsed lib codec fields kind node.parsed (st, s)
                          else skip_unknown lib codec fields b node.key (st, s) in
                        (some r.0, r.1)
                  ]).1,
                )
      of_known none st' e = absurd (ground (arith, e))
      of_known (some true) st' e =
          (st, refl, same _ st' (apply_parsed-Touched kind node.parsed (st, s)) e)
      of_known (some false) st' e =
          (st, refl, same _ st' (skip_unknown-Touched b node.key (st, s)) e)

  apply_items-Went :
      (items : List (JsonItem F)) (r : Option StreamMetaStats × State A T D W)
      → Went r (apply_items lib codec fields items r)
  unfolding apply_items apply_item
  apply_items-Went [] r = unfold Went in λ st' e. (st', e, inr (refl, refl))
  apply_items-Went (item ∷ items) r =
      let c = apply_json_node lib codec fields NodeKind.created_node false item.created_node r in
      let m = apply_json_node lib codec fields NodeKind.modified_node false item.modified_node c in
      let x = apply_json_node lib codec fields NodeKind.deleted_node true item.deleted_node m in
      Went-trans r c _ (apply_json_node-Went NodeKind.created_node false item.created_node r) (
        Went-trans c m _ (apply_json_node-Went NodeKind.modified_node false item.modified_node c) (
          Went-trans m x _ (apply_json_node-Went NodeKind.deleted_node true item.deleted_node m)
            (apply_items-Went items x)))

  pub apply_json_affected_nodes-Touched :
      (items : List (JsonItem F)) (s : State A T D W) (st : StreamMetaStats)
      → (apply_json_affected_nodes lib codec fields items s).0 ≡ some st
      → Touched
          (no_stats lib codec fields, s)
          (st, (apply_json_affected_nodes lib codec fields items s).1)
  unfolding apply_json_affected_nodes Went
  apply_json_affected_nodes-Touched items s st e =
      let (st0, q, h) = apply_items-Went items (some (no_stats lib codec fields), s) st e in
      subst
        (λ x.
          Touched (x, s)
            (st, (apply_items lib codec fields items (some (no_stats lib codec fields), s)).1))
        (ground (arith, q)) h

-- ===== src/Engine/Stream/Count.antt =====
-- Every node of the stream is counted once.
use edgy.Prelude.{
  ℕ, ◌+◌, ◌≡◌, ◌&&◌, if◌then◌else◌, ap, refl, ◌∙◌, Bool, true, false, Option, none, some, List, [],
  ◌∷◌, arith,
}
use edgy.Containers.Eq.{Eq}
use edgy.Books.{Xrpl}
use edgy.Builder.Items.{Codec}
use edgy.Engine.Meta.{MetaApply, NodeKind, MetaNode, Fields, State}
use edgy.Engine.Stream.{
  StreamMetaStats, JsonNode, JsonItem, note, skip_unknown, apply_parsed, apply_json_node,
  apply_item, apply_items, apply_json_affected_nodes, no_stats,
}

-- all that is counted
abbrev pub total : StreamMetaStats → ℕ
total st =
    st.created + st.modified + st.deleted + st.incomplete + st.none + st.parse_fail
    + st.skipped_unknown

one : {X : Type 0} → Option X → ℕ
one none = 0
one (some x) = 1

-- How many nodes the items hold.
unfoldable pub nodes : {F : Type 0} → List (JsonItem F) → ℕ
unfolding one
nodes [] = 0
nodes (item ∷ items) =
    one item.created_node + one item.modified_node + one item.deleted_node + nodes items

-- Whether the test of the node's type does not throw.
sound_node : {F : Type 0} → Option (JsonNode F) → Bool
sound_node none = true
sound_node (some node) = elim node.known [ none ↦ false | some known ↦ true ]

-- No test throws.
unfoldable pub sound : {F : Type 0} → List (JsonItem F) → Bool
unfolding sound_node
sound [] = true
sound (item ∷ items) =
    sound_node item.created_node
    && (sound_node item.modified_node && (sound_node item.deleted_node && sound items))

abbrev pub totals : Option StreamMetaStats → Option ℕ
totals none = none
totals (some st) = some (total st)

-- More that is counted, unless it throws.
plus : Option ℕ → ℕ → Bool → Option ℕ
plus none n b = none
plus (some m) n b = if b then some (m + n) else none

plus-plus : (o : Option ℕ) (n m : ℕ) (b c : Bool) → plus (plus o n b) m c ≡ plus o (n + m) (b && c)
unfolding plus
plus-plus none n m b c = refl
plus-plus (some k) n m true true = ap some (omega arith)
plus-plus (some k) n m true false = refl
plus-plus (some k) n m false c = refl

total-note : (k : MetaApply) (st : StreamMetaStats) → total (note k st) ≡ total st + 1
unfolding note
total-note MetaApply.created st = omega arith
total-note MetaApply.modified st = omega arith
total-note MetaApply.deleted st = omega arith
total-note MetaApply.incomplete st = omega arith
total-note MetaApply.nothing st = omega arith

module _ {A T D F W : Type 0} ⦃a : Eq A⦄ ⦃t : Eq T⦄ ⦃d : Eq D⦄ (lib : Xrpl A T)
    (codec : Codec A D W) (fields : Fields A D F) where
  total-skip_unknown :
      (b : Bool) (key : Option ℕ) (r : StreamMetaStats × State A T D W)
      → total (skip_unknown lib codec fields b key r).0 ≡ total r.0 + 1
  unfolding skip_unknown
  total-skip_unknown true (some key) (st, s) = omega arith
  total-skip_unknown true none (st, s) = omega arith
  total-skip_unknown false key (st, s) = omega arith

  total-apply_parsed :
      (kind : NodeKind) (node : Option (MetaNode F)) (r : StreamMetaStats × State A T D W)
      → total (apply_parsed lib codec fields kind node r).0 ≡ total r.0 + 1
  unfolding apply_parsed
  total-apply_parsed kind none (st, s) = omega arith
  total-apply_parsed kind (some node) (st, s) = total-note _ st

  totals-apply_json_node :
      (kind : NodeKind) (b : Bool) (node : Option (JsonNode F))
      (r : Option StreamMetaStats × State A T D W)
      → totals (apply_json_node lib codec fields kind b node r).0
        ≡ plus (totals r.0) (one node) (sound_node node)
  unfolding apply_json_node one plus sound_node
  totals-apply_json_node kind b none (none, s) = refl
  totals-apply_json_node kind b none (some st, s) = ap some (omega arith)
  totals-apply_json_node kind b (some node) (none, s) = refl
  totals-apply_json_node kind b (some node) (some st, s) = of_known node.known
    where
      of_known :
          (o : Option Bool)
          → totals
              (elim o as (λ _. Option StreamMetaStats × State A T D W) [
                | none ↦ (none, s)
                | some known ↦
                    let r =
                      if known
                      then apply_parsed lib codec fields kind node.parsed (st, s)
                      else skip_unknown lib codec fields b node.key (st, s) in
                    (some r.0, r.1)
              ]).0
            ≡ (if elim o as (λ _. Bool) [ none ↦ false | some known ↦ true ]
                then some (total st + 1)
                else none)
      of_known none = refl
      of_known (some true) = ap some (total-apply_parsed kind node.parsed (st, s))
      of_known (some false) = ap some (total-skip_unknown b node.key (st, s))

  totals-apply_item :
      (item : JsonItem F) (r : Option StreamMetaStats × State A T D W)
      → totals (apply_item lib codec fields item r).0
        ≡ plus
            (plus
              (plus (totals r.0) (one item.created_node) (sound_node item.created_node))
              (one item.modified_node)
              (sound_node item.modified_node))
            (one item.deleted_node)
            (sound_node item.deleted_node)
  unfolding apply_item
  totals-apply_item item r =
      let c = apply_json_node lib codec fields NodeKind.created_node false item.created_node r in
      let m = apply_json_node lib codec fields NodeKind.modified_node false item.modified_node c in
      totals-apply_json_node NodeKind.deleted_node true item.deleted_node m
      ∙ ap (λ o. plus o (one item.deleted_node) (sound_node item.deleted_node))
          (totals-apply_json_node NodeKind.modified_node false item.modified_node c
            ∙ ap (λ o. plus o (one item.modified_node) (sound_node item.modified_node))
                (totals-apply_json_node NodeKind.created_node false item.created_node r))

  totals-apply_items :
      (items : List (JsonItem F)) (r : Option StreamMetaStats × State A T D W)
      → totals (apply_items lib codec fields items r).0
        ≡ plus (totals r.0) (nodes items) (sound items)
  unfolding apply_items nodes sound
  totals-apply_items [] (none, s) = unfold plus in refl
  totals-apply_items [] (some st, s) = unfold plus in ap some (omega arith)
  totals-apply_items (item ∷ items) r =
      let c = one item.created_node in
      let m = one item.modified_node in
      let x = one item.deleted_node in
      let n = nodes items in
      let bc = sound_node item.created_node in
      let bm = sound_node item.modified_node in
      let bx = sound_node item.deleted_node in
      totals-apply_items items (apply_item lib codec fields item r)
      ∙ ap (λ o. plus o n (sound items)) (totals-apply_item item r)
      ∙ plus-plus (plus (plus (totals r.0) c bc) m bm) x n bx (sound items)
      ∙ plus-plus (plus (totals r.0) c bc) m (x + n) bm (bx && sound items)
      ∙ plus-plus (totals r.0) c (m + (x + n)) bc (bm && (bx && sound items))
      ∙ ap (λ (k : ℕ). plus (totals r.0) k (bc && (bm && (bx && sound items)))) (omega arith)

  -- Every node is counted exactly once: as created, modified, deleted, incomplete or without
  -- effect, as failed to parse, or as skipped. Where the test of a node's type throws, nothing is
  -- counted.
  pub total-apply_json_affected_nodes :
      (items : List (JsonItem F)) (s : State A T D W)
      → totals (apply_json_affected_nodes lib codec fields items s).0
        ≡ (if sound items then some (nodes items) else none)
  unfolding apply_json_affected_nodes
  total-apply_json_affected_nodes items s =
      totals-apply_items items (some (no_stats lib codec fields), s)
      ∙ (unfold plus in ap (λ k. if sound items then some k else none) (omega arith))

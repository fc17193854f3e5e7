-- ===== src/Builder/Contents.antt =====
-- What a builder and its views promise: a finite map from keys to objects. The map forgets whether
-- an object lies in the base or in the overlay, and when the base was frozen.
use edgy.Containers.Eq.{nat_eq, if_eq}
use edgy.Containers.HashMap.{find, find-remove, find-assign}
use edgy.Containers.OrderedMap.{keys, Ascends, find-put}
use edgy.Prelude.{List, ◌∙◌, Bool-cases, arith, some, none, Option, inr, inl, refl, ◌≡◌, ℕ}
use edgy.Builder.{sort_keys, freeze_base, put, clear, erase, publish, item_of, Builder}
use edgy.Builder
use edgy.Builder.Valid.{IsValid}
use edgy.Builder.Freeze.{
  length-keys, length-sort_keys, Distinct, contains-keys, contains-sort_keys, sort_keys-Ascends,
}
use edgy.Ledger.Succ
use edgy.Ledger.{Overlay, find_item, is_some}

module _ {ℓ} {I : Type ℓ} where
  pub item_of-put :
      (b : Builder I) (key j : ℕ) (item : I)
      → IsValid b
      → item_of (put b key item) j ≡ if_eq key j (some item) (item_of b j)
  unfolding item_of put
  item_of-put b key j item w = elim (Bool-cases b.frozen) [
    | inl e ↦ rw e (ground (arith, find-put {V = Option I} key j (some item) b.overlay))
    | inr e ↦ rw (e, w.fresh e) (unfold find in find-assign key j item b.base.items)
  ]

  pub item_of-erase :
      (b : Builder I) (key j : ℕ)
      → IsValid b
      → item_of (erase b key) j ≡ if_eq key j none (item_of b j)
  unfolding item_of erase
  item_of-erase b key j w = elim (Bool-cases b.frozen) [
    | inl e ↦ rw e (ground (arith, find-put {V = Option I} key j none b.overlay))
    | inr e ↦ rw (e, w.fresh e) (unfold find in find-remove key j b.base.items)
  ]

  pub item_of-clear : (b : Builder I) (j : ℕ) → item_of (clear b) j ≡ none
  unfolding item_of clear find
  item_of-clear b j = refl

  pub item_of-freeze_base : (b : Builder I) (j : ℕ) → item_of (freeze_base b) j ≡ item_of b j
  unfolding item_of freeze_base
  item_of-freeze_base b j = ground arith

  pub contains-item_of : (b : Builder I) (j : ℕ) → Builder.contains b j ≡ is_some (item_of b j)
  unfolding Builder.contains item_of
  contains-item_of b j = ground arith

  -- A published view reads the objects that the builder held, and is in order for `succ`.
  pub find_item-publish : (b : Builder I) (j : ℕ) → find_item (publish b).1.ledger j ≡ item_of b j
  unfolding publish find_item item_of
  find_item-publish b j = elim (Bool-cases b.frozen) [ inl e ↦ rw e | inr e ↦ rw e ]

  view-IsValid :
      (items : List (ℕ × I)) (ks : List ℕ) (os : Overlay I)
      → ks ≡ sort_keys (keys items)
      → Distinct (keys items)
      → Ascends 0 (keys os)
      → Succ.IsValid (record { base = record { items = items; sorted_keys = ks }; overlay = os })
  view-IsValid items ks os e d a = record {
    rising = rw e (sort_keys-Ascends (keys items) d);
    indexed = λ j. rw e (contains-sort_keys j (keys items) ∙ contains-keys j items);
    counted = rw e (length-sort_keys (keys items) ∙ length-keys items);
    in_order = a;
  }

  pub publish-IsValid : (b : Builder I) → IsValid b → Succ.IsValid (publish b).1.ledger
  unfolding publish
  publish-IsValid b w = elim (Bool-cases b.frozen) [
    | inl e ↦ rw e (view-IsValid b.base.items _ b.overlay (w.sorted e) w.distinct w.in_order)
    | inr e ↦ rw e (view-IsValid b.base.items _ b.overlay refl w.distinct w.in_order)
  ]

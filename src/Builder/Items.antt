-- ===== src/Builder/Items.antt =====
-- How `LedgerBuilder` keeps ledger objects: as a blob, with the decoded object beside some of them.
-- The serializer of libxrpl is a parameter.
use edgy.Prelude.{arith, ℕ, Bool, true, false, if◌then◌else◌, Option, none, some, ◌≡◌, ap, ◌∙◌}
use edgy.Containers.Eq.{nat_eq, if_eq}
use edgy.Sle.{Sle, keep_decoded}
use edgy.Builder.{Builder, put, item_of}
use edgy.Builder.Valid.{IsValid}
use edgy.Builder.Contents.{item_of-put}

-- Writing an object, reading one at a key, and copying one to a key; the last two may throw.
pub record Codec (A D W : Type 0) : Type 0 where
  pub serialize : Sle A D → W
  pub parse : W → ℕ → Option (Sle A D)
  pub copy : Sle A D → ℕ → Option (Sle A D)

-- MemoryLedger::Item
pub record Item (A D W : Type 0) : Type 0 where
  pub blob : W
  pub sle : Option (Sle A D)

module _ {A D W : Type 0} (codec : Codec A D W) where
  unfoldable pub upsert : Option (Sle A D) → Builder (Item A D W) → Builder (Item A D W)
  upsert none b = b
  upsert (some sle) b = put b sle.key (record { blob = codec.serialize sle; sle = some sle })

  kept : Option (Sle A D) → Option (Sle A D)
  kept none = none
  kept (some sle) = if keep_decoded sle then some sle else none

  unfoldable pub upsert_raw : ℕ → W → Option (Sle A D) → Builder (Item A D W) → Builder (Item A D W)
  unfolding kept
  upsert_raw key blob decoded b = put b key (record { blob = blob; sle = kept decoded })

  -- The copy that `clone` makes of an item, none where it throws.
  pub decode : ℕ → Item A D W → Option (Sle A D)
  decode key item = elim item.sle [
    | some sle ↦ codec.copy sle key
    | none ↦ codec.parse item.blob key
  ]

  unfoldable pub clone : ℕ → Builder (Item A D W) → Option (Sle A D)
  unfolding decode
  clone key b = elim (item_of b key) [ none ↦ none | some item ↦ decode key item ]

  decode_at : ℕ → Option (Item A D W) → Option (Sle A D)
  decode_at key o = elim o [ none ↦ none | some item ↦ decode key item ]

  decode_at-if_eq :
      (i j : ℕ) (item : Item A D W) (o : Option (Item A D W))
      → decode_at j (if_eq i j (some item) o) ≡ if_eq i j (decode j item) (decode_at j o)
  unfolding decode_at
  decode_at-if_eq i j item o = ground arith

  -- After an object is stored, a clone at its key is a copy of it, and one at another key what it
  -- was before.
  pub clone-upsert :
      (b : Builder (Item A D W)) (sle : Sle A D) (j : ℕ)
      → IsValid b
      → clone j (upsert (some sle) b) ≡ if_eq sle.key j (codec.copy sle j) (clone j b)
  unfolding clone upsert decode item_of decode_at
  clone-upsert b sle j w =
      let item : Item A D W = record { blob = codec.serialize sle; sle = some sle } in
      ap (decode_at j) (item_of-put b sle.key j item w)
      ∙ decode_at-if_eq sle.key j item (item_of b j)

  -- After a blob is stored, a clone at its key is a copy of the object that came with it, where
  -- that is of a type that is kept decoded, and what the blob reads as otherwise.
  clone-upsert_raw :
      (b : Builder (Item A D W)) (key : ℕ) (blob : W) (decoded : Option (Sle A D)) (j : ℕ)
      → IsValid b
      → clone j (upsert_raw key blob decoded b)
        ≡ if_eq key j
            (elim decoded [
              | none ↦ codec.parse blob j
              | some sle ↦ if keep_decoded sle then codec.copy sle j else codec.parse blob j
            ])
            (clone j b)
  unfolding clone upsert_raw decode kept item_of decode_at
  clone-upsert_raw b key blob none j w =
      let item : Item A D W = record { blob = blob; sle = none } in
      ap (decode_at j) (item_of-put b key j item w) ∙ decode_at-if_eq key j item (item_of b j)
  clone-upsert_raw b key blob (some sle) j w = by_kind (keep_decoded sle)
    where
      by_kind :
          (k : Bool)
          → decode_at j
              (item_of (put b key (record { blob = blob; sle = if k then some sle else none })) j)
            ≡ if_eq key j (if k then codec.copy sle j else codec.parse blob j) (clone j b)
      by_kind true =
          let item : Item A D W = record { blob = blob; sle = some sle } in
          ap (decode_at j) (item_of-put b key j item w) ∙ decode_at-if_eq key j item (item_of b j)
      by_kind false =
          let item : Item A D W = record { blob = blob; sle = none } in
          ap (decode_at j) (item_of-put b key j item w) ∙ decode_at-if_eq key j item (item_of b j)

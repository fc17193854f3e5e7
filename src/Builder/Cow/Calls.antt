-- ===== src/Builder/Cow/Calls.antt =====
-- Histories of builder calls over the shared cells, readers that let their views go included.
use edgy.Ledger.{Overlay, Base}
use edgy.Containers.OrderedMap.{put as put_overlay}
use edgy.Prelude.{
  if◌then◌else◌, some, none, true, ◌≡◌, All-map, length-append, arith, ◌∷◌, [], List, refl, ℕ,
}
use edgy.Builder.Cow
use edgy.Builder.Cow.{
  write_base, cow_overlay, drop_item, drop_at, write_overlay, index, set_item, Shared, Handle, seen,
  base_at, overlay_at,
}
use edgy.Builder.Cow.Isolation.{
  All-drop_at, cow_overlay-Inv, write_overlay-Inv, write_base-Inv, write-Kept, Inv-if, Kept-if,
  base_write-Kept, at-append, Inv, Safe, Kept,
}

pub data Call {ℓ} (I : Type ℓ) : Type ℓ where
  puts : ℕ → I → Call I
  erases : ℕ → Call I
  publishes : Call I
  clears : Call I
  releases : ℕ → Call I

module _ {ℓ} {I : Type ℓ} where
  unfoldable pub step : Shared I → Call I → Shared I
  step s (puts key item) = Cow.put s key item
  step s (erases key) = Cow.erase s key
  step s publishes = Cow.publish s
  step s clears = Cow.clear s
  step s (releases i) = Cow.release s i

  unfoldable pub run : Shared I → List (Call I) → Shared I
  unfolding step
  run s [] = s
  run s (c ∷ cs) = run (step s c) cs

  freeze_base-Kept : (s : Shared I) → Inv s → Kept s (Cow.freeze_base s)
  unfolding Cow.freeze_base seen
  freeze_base-Kept s w =
      Kept-if s s _ s.frozen (λ e. All-map (Safe s) _ s.views (λ h p. refl) w.safe)
        (λ e. unfold seen in base_write-Kept s index e w)

  frozen-Inv : (t : Shared I) → Inv t → Inv (record t { frozen = true })
  frozen-Inv t w = record {
    own_base = w.own_base;
    own_overlay = w.own_overlay;
    safe =
        All-map (Safe t) _ t.views
          (λ h p. record { in_bases = p.in_bases; in_overlays = p.in_overlays; apart = λ e. cc })
          w.safe;
  }

  view-Inv :
      (t : Shared I)
      → t.frozen ≡ true
      → Inv t
      → Inv (record t { views = record { base = t.base; overlay = t.overlay } ∷ t.views })
  view-Inv t f w = record {
    own_base = w.own_base;
    own_overlay = w.own_overlay;
    safe = (
      record { in_bases = w.own_base; in_overlays = w.own_overlay; apart = λ e. ground arith },
      All-map (Safe t) _ t.views
          (λ h p. record { in_bases = p.in_bases; in_overlays = p.in_overlays; apart = p.apart })
          w.safe,
    );
  }

  frozen-freeze_base : (s : Shared I) → (Cow.freeze_base s).frozen ≡ true
  unfolding Cow.freeze_base
  frozen-freeze_base s = ground arith

  release-Inv : (s : Shared I) (i : ℕ) → Inv s → Inv (Cow.release s i)
  unfolding Cow.release
  release-Inv s i w = record {
    own_base = w.own_base;
    own_overlay = w.own_overlay;
    safe =
        All-map (Safe s) _ (drop_at i s.views)
          (λ h p. record { in_bases = p.in_bases; in_overlays = p.in_overlays; apart = p.apart })
          (All-drop_at (Safe s) i s.views w.safe);
  }

  write-Inv :
      (s : Shared I) (f : Base I → Base I) (g : Overlay I → Overlay I)
      → Inv s
      → Inv (if s.frozen then write_overlay (cow_overlay s) g else write_base s f)
  write-Inv s f g w =
      Inv-if _ _ s.frozen (λ e. write_overlay-Inv (cow_overlay s) g (cow_overlay-Inv s w))
        (λ e. write_base-Inv s f w)

  freeze_base-Inv : (s : Shared I) → Inv s → Inv (Cow.freeze_base s)
  unfolding Cow.freeze_base
  freeze_base-Inv s w = Inv-if s _ s.frozen (λ e. w) (λ e. frozen-Inv _ (write_base-Inv s index w))

  clear-Kept : (s : Shared I) → Inv s → Kept s (Cow.clear s)
  unfolding Cow.clear seen
  clear-Kept s w =
      All-map (Safe s) _ s.views
        (λ h p. rw (
          at-append _ h.base s.heap.bases (_ ∷ []) p.in_bases,
          at-append [] h.overlay s.heap.overlays ([] ∷ []) p.in_overlays,
        ))
        w.safe

  clear-Inv : (s : Shared I) → Inv s → Inv (Cow.clear s)
  unfolding Cow.clear
  clear-Inv s w =
      let b = length-append s.heap.bases (record { items = []; sorted_keys = [] } ∷ []) in
      let o = length-append s.heap.overlays ([] ∷ []) in
      record {
        own_base = omega (arith, b);
        own_overlay = omega (arith, o);
        safe =
            All-map (Safe s) _ s.views
              (λ h p. record {
                in_bases = omega (arith, b, p.in_bases);
                in_overlays = omega (arith, o, p.in_overlays);
                apart = λ e q. absurd (let i = p.in_bases in omega arith);
              })
              w.safe;
      }

  publish-Inv : (s : Shared I) → Inv s → Inv (Cow.publish s)
  unfolding Cow.publish
  publish-Inv s w = view-Inv (Cow.freeze_base s) (frozen-freeze_base s) (freeze_base-Inv s w)

  pub step-Inv : (s : Shared I) (c : Call I) → Inv s → Inv (step s c)
  unfolding step Cow.put Cow.erase
  step-Inv s (puts key item) w = write-Inv s (set_item key item) (put_overlay key (some item)) w
  step-Inv s (erases key) w = write-Inv s (drop_item key) (put_overlay key none) w
  step-Inv s publishes w = publish-Inv s w
  step-Inv s clears w = clear-Inv s w
  step-Inv s (releases i) w = release-Inv s i w

  -- Whatever a builder that shares its cells with readers does next, each of them still sees the
  -- view that it saw before.
  pub step-Kept : (s : Shared I) (c : Call I) → Inv s → Kept s (step s c)
  unfolding step Cow.put Cow.erase Cow.publish Cow.release seen
  step-Kept s (puts key item) w = write-Kept s (set_item key item) (put_overlay key (some item)) w
  step-Kept s (erases key) w = write-Kept s (drop_item key) (put_overlay key none) w
  step-Kept s publishes w = freeze_base-Kept s w
  step-Kept s clears w = clear-Kept s w
  step-Kept s (releases i) w = All-map (Safe s) _ s.views (λ h p. refl) w.safe

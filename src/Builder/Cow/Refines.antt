-- ===== src/Builder/Cow/Refines.antt =====
-- The builder over shared cells does what the builder over values does.
use edgy.Ledger.{Overlay, Base}
use edgy.Builder.{Builder, Header}
use edgy.Prelude.{
  All, if◌then◌else◌, some, none, true, Bool, inr, inl, subst, false, ◌∙◌, ap, length, arith, ◌++◌,
  ◌∷◌, [], List, ◌⊎◌, refl, ◌≡◌, ◌<◌, suc, zero, ℕ,
}
use edgy.Builder
use edgy.Builder.Cow
use edgy.Builder.Cow.{
  drop_item, set_item, held, index, Shared, Handle, seen, base_at, overlay_at, at, set_at,
  write_base, write_overlay, cow_overlay,
}
use edgy.Builder.Cow.Isolation.{cow_overlay-Inv, Inv}
use edgy.Builder.Cow.Calls.{step-Kept, step-Inv, step, run}
use edgy.Builder.Cow.Calls
use edgy.Containers.OrderedMap.{put as put_overlay}

module _ {ℓ} {A : Type ℓ} where
  at-set_at_self :
      (d : A) (i : ℕ) (v : A) (xs : List A) → i < length xs → at d (set_at i v xs) i ≡ v
  at-set_at_self d i v [] h = absurd (omega arith)
  at-set_at_self d zero v (x ∷ xs) h = refl
  at-set_at_self d (suc i) v (x ∷ xs) h = at-set_at_self d i v xs (omega arith)

  at-append_self : (d v : A) (xs : List A) → at d (xs ++ v ∷ []) (length xs) ≡ v
  at-append_self d v [] = refl
  at-append_self d v (x ∷ xs) = at-append_self d v xs

-- `h` is among the views.
abbrev pub Holds : Handle → List Handle → Type 0
Holds h [] = ⊥
Holds h (x ∷ xs) = (x ≡ h) ⊎ Holds h xs

module _ {ℓ} {I : Type ℓ} where
  -- The builder's value, read through its two pointers.
  abbrev pub value : Header → Shared I → Builder I
  value h s = record {
    header = h;
    base = base_at s.heap s.base;
    overlay = overlay_at s.heap s.overlay;
    frozen = s.frozen;
    open_ledger = false;
  }

  -- The same call on the value.
  abbrev pub on_value : Calls.Call I → Builder I → Builder I
  on_value (Calls.puts key item) b = Builder.put b key item
  on_value (Calls.erases key) b = Builder.erase b key
  on_value Calls.publishes b = (Builder.publish b).0
  on_value Calls.clears b = Builder.clear b
  on_value (Calls.releases i) b = b

  value-cow_overlay : (h : Header) (s : Shared I) → value h (cow_overlay s) ≡ value h s
  unfolding cow_overlay
  value-cow_overlay h s = go (held s.overlay s.views)
    where
      go :
          (b : Bool)
          → value h (
              if b
              then record s {
                heap = record s.heap {
                  overlays = s.heap.overlays ++ overlay_at s.heap s.overlay ∷ [];
                };
                overlay = length s.heap.overlays;
              }
              else s)
            ≡ value h s
      go true = rw (at-append_self [] (overlay_at s.heap s.overlay) s.heap.overlays)
      go false = refl

  value-write_overlay :
      (h : Header) (t : Shared I) (g : Overlay I → Overlay I)
      → Inv t
      → value h (write_overlay t g) ≡ record (value h t) { overlay = g (value h t).overlay }
  unfolding write_overlay
  value-write_overlay h t g w =
      rw (
        at-set_at_self [] t.overlay (g (overlay_at t.heap t.overlay)) t.heap.overlays w.own_overlay)

  value-write_base :
      (h : Header) (t : Shared I) (f : Base I → Base I)
      → Inv t
      → value h (write_base t f) ≡ record (value h t) { base = f (value h t).base }
  unfolding write_base
  value-write_base h t f w =
      rw (at-set_at_self _ t.base (f (base_at t.heap t.base)) t.heap.bases w.own_base)

  value-write :
      (h : Header) (s : Shared I) (f : Base I → Base I) (g : Overlay I → Overlay I)
      → Inv s
      → value h (if s.frozen then write_overlay (cow_overlay s) g else write_base s f) ≡ (
          if s.frozen
          then record (value h s) { overlay = g (value h s).overlay }
          else record (value h s) { base = f (value h s).base })
  value-write h s f g w = go s.frozen
    where
      go :
          (b : Bool)
          → value h (if b then write_overlay (cow_overlay s) g else write_base s f) ≡ (
              if b
              then record (value h s) { overlay = g (value h s).overlay }
              else record (value h s) { base = f (value h s).base })
      go true =
          value-write_overlay h (cow_overlay s) g (cow_overlay-Inv s w)
          ∙ ap (λ (b : Builder I). record b { overlay = g b.overlay }) (value-cow_overlay h s)
      go false = value-write_base h s f w

  value-freeze_base :
      (h : Header) (s : Shared I)
      → Inv s
      → value h (Cow.freeze_base s) ≡ Builder.freeze_base (value h s)
  unfolding Cow.freeze_base Builder.freeze_base
  value-freeze_base h s w = go s.frozen
    where
      go :
          (b : Bool)
          → value h (if b then s else record (write_base s index) { frozen = true }) ≡ (
              if b
              then value h s
              else record (value h s) { base = index (value h s).base; frozen = true })
      go true = refl
      go false = ap (λ (b : Builder I). record b { frozen = true }) (value-write_base h s index w)

  value-clear : (h : Header) (s : Shared I) → value h (Cow.clear s) ≡ Builder.clear (value h s)
  unfolding Cow.clear Builder.clear
  value-clear h s = rw (at-append_self _ _ s.heap.bases, at-append_self [] [] s.heap.overlays)

  -- Each call on the shared cells has, for the builder, the effect of the call on values, and
  -- letting a view go has none.
  pub value-step :
      (h : Header) (s : Shared I) (c : Calls.Call I)
      → Inv s
      → value h (step s c) ≡ on_value c (value h s)
  unfolding step Cow.put Cow.erase Cow.publish Cow.release Builder.put Builder.erase Builder.publish
  value-step h s (Calls.puts key item) w =
      value-write h s (set_item key item) (put_overlay key (some item)) w
  value-step h s (Calls.erases key) w = value-write h s (drop_item key) (put_overlay key none) w
  value-step h s Calls.publishes w = value-freeze_base h s w
  value-step h s Calls.clears w = value-clear h s
  value-step h s (Calls.releases i) w = refl

  Kept-at :
      (s t : Shared I) (h : Handle) (hs : List Handle)
      → All (λ x. seen t x ≡ seen s x) hs
      → Holds h hs
      → seen t h ≡ seen s h
  Kept-at s t h [] k m = absurd m
  Kept-at s t h (x ∷ hs) k (inl e) = subst (λ y. seen t y ≡ seen s y) e k.0
  Kept-at s t h (x ∷ hs) k (inr m) = Kept-at s t h hs k.1 m

  -- The reader keeps its view through the whole history.
  abbrev pub Stays : Handle → Shared I → List (Calls.Call I) → Type 0
  Stays h s [] = Unit
  Stays h s (c ∷ cs) = Holds h (step s c).views × Stays h (step s c) cs

  -- While a reader keeps its view, no history of builder calls, other readers' releases included,
  -- changes what it sees through it.
  pub seen-run :
      (s : Shared I) (h : Handle) (cs : List (Calls.Call I))
      → Inv s
      → Holds h s.views
      → Stays h s cs
      → seen (run s cs) h ≡ seen s h
  unfolding run
  seen-run s h [] w m st = refl
  seen-run s h (c ∷ cs) w m st =
      seen-run (step s c) h cs (step-Inv s c w) st.0 st.1
      ∙ Kept-at s (step s c) h s.views (step-Kept s c w) m

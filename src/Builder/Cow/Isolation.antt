-- ===== src/Builder/Cow/Isolation.antt =====
-- A published view never changes, whatever the builder does afterwards.
use edgy.Ledger.{Overlay, Base}
use edgy.Prelude.{
  length-append, Bool, if◌then◌else◌, true, ◌∙◌, All-map, All, length, Bool-cases, arith, ◌++◌, ◌∷◌,
  [], List, false, inr, inl, ◌≢◌, ap, refl, ◌≡◌, ◌<◌, suc, zero, ℕ,
}
use edgy.Builder.Cow.{
  cow_overlay, write_overlay, drop_at, write_base, Shared, Handle, base_at, overlay_at, seen, held,
  at, set_at,
}

module _ {ℓ} {A : Type ℓ} where
  pub length-set_at : (i : ℕ) (v : A) (xs : List A) → length (set_at i v xs) ≡ length xs
  length-set_at i v [] = refl
  length-set_at zero v (x ∷ xs) = refl
  length-set_at (suc i) v (x ∷ xs) = ap suc (length-set_at i v xs)

  pub at-set_at_ne :
      (d : A) (i j : ℕ) (v : A) (xs : List A) → i ≢ j → at d (set_at i v xs) j ≡ at d xs j
  at-set_at_ne d i j v [] h = refl
  at-set_at_ne d zero zero v (x ∷ xs) h = absurd (h refl)
  at-set_at_ne d zero (suc j) v (x ∷ xs) h = refl
  at-set_at_ne d (suc i) zero v (x ∷ xs) h = refl
  at-set_at_ne d (suc i) (suc j) v (x ∷ xs) h = at-set_at_ne d i j v xs (λ e. h (ap suc e))

  pub at-append : (d : A) (j : ℕ) (xs ys : List A) → j < length xs → at d (xs ++ ys) j ≡ at d xs j
  at-append d j [] ys h = absurd (omega arith)
  at-append d zero (x ∷ xs) ys h = refl
  at-append d (suc j) (x ∷ xs) ys h = at-append d j xs ys (omega arith)

  pub All-drop_at {κ} : (P : A → Type κ) (i : ℕ) (xs : List A) → All P xs → All P (drop_at i xs)
  All-drop_at P i [] h = tt
  All-drop_at P zero (x ∷ xs) h = h.1
  All-drop_at P (suc i) (x ∷ xs) h = (h.0, All-drop_at P i xs h.1)

not_held : (a : ℕ) (hs : List Handle) → held a hs ≡ false → All (λ h. a ≢ h.overlay) hs
unfolding held
not_held a [] e = tt
not_held a (h ∷ hs) e = (ground arith, not_held a hs (ground arith))

module _ {ℓ} {I : Type ℓ} where
  -- A handle points into the heap, and the base that it holds is not the builder's own unfrozen one.
  pub record Safe (s : Shared I) (h : Handle) : Type 0 where
    pub in_bases : h.base < length s.heap.bases
    pub in_overlays : h.overlay < length s.heap.overlays
    pub apart : s.frozen ≡ false → s.base ≢ h.base

  pub record Inv (s : Shared I) : Type 0 where
    pub own_base : s.base < length s.heap.bases
    pub own_overlay : s.overlay < length s.heap.overlays
    pub safe : All (Safe s) s.views

  seen-write_base :
      (s : Shared I) (f : Base I → Base I) (h : Handle)
      → s.base ≢ h.base
      → seen (write_base s f) h ≡ seen s h
  unfolding seen write_base
  seen-write_base s f h n =
      rw (at-set_at_ne _ s.base h.base (f (base_at s.heap s.base)) s.heap.bases n)

  seen-write_overlay :
      (s : Shared I) (f : Overlay I → Overlay I) (h : Handle)
      → s.overlay ≢ h.overlay
      → seen (write_overlay s f) h ≡ seen s h
  unfolding seen write_overlay
  seen-write_overlay s f h n =
      rw (at-set_at_ne _ s.overlay h.overlay (f (overlay_at s.heap s.overlay)) s.heap.overlays n)

  -- `cowOverlay` leaves a view as it is, and its overlay is then nobody else's.
  cow_overlay-apart :
      (s : Shared I) (h : Handle)
      → s.overlay < length s.heap.overlays
      → Safe s h
      → (held s.overlay s.views ≡ false → s.overlay ≢ h.overlay)
      → (seen (cow_overlay s) h ≡ seen s h) × ((cow_overlay s).overlay ≢ h.overlay)
  unfolding cow_overlay seen
  cow_overlay-apart s h own p n = elim (Bool-cases (held s.overlay s.views)) [
    | inl e ↦ rw e (
      rw (at-append [] h.overlay s.heap.overlays (overlay_at s.heap s.overlay ∷ []) p.in_overlays),
      λ eq. absurd (let b = p.in_overlays in omega arith),
    )
    | inr e ↦ rw e (refl, n e)
  ]

  -- The views of `s` after a call that made `t` of it.
  abbrev pub Kept : Shared I → Shared I → Type ℓ
  Kept s t = All (λ h. seen t h ≡ seen s h) s.views

  unheld :
      (s : Shared I) → All (λ h. held s.overlay s.views ≡ false → s.overlay ≢ h.overlay) s.views
  unheld s = elim (Bool-cases (held s.overlay s.views)) [
    | inl e ↦ fill s.views e
    | inr e ↦
        All-map (λ h. s.overlay ≢ h.overlay) _ s.views (λ h n x. n) (not_held s.overlay s.views e)
  ]
    where
      fill :
          (hs : List Handle)
          → held s.overlay s.views ≡ true
          → All (λ h. held s.overlay s.views ≡ false → s.overlay ≢ h.overlay) hs
      fill [] e = tt
      fill (h ∷ hs) e = (λ f. absurd (let g = e in ground arith), fill hs e)

  overlay_write-Kept :
      (s : Shared I) (f : Overlay I → Overlay I) → Inv s → Kept s (write_overlay (cow_overlay s) f)
  overlay_write-Kept s f w = go s.views w.safe (unheld s)
    where
      go :
          (hs : List Handle)
          → All (Safe s) hs
          → All (λ h. held s.overlay s.views ≡ false → s.overlay ≢ h.overlay) hs
          → All (λ h. seen (write_overlay (cow_overlay s) f) h ≡ seen s h) hs
      go [] p n = tt
      go (h ∷ hs) p n =
          let (same, apart) = cow_overlay-apart s h w.own_overlay p.0 n.0 in
          (seen-write_overlay (cow_overlay s) f h apart ∙ same, go hs p.1 n.1)

  pub base_write-Kept :
      (s : Shared I) (f : Base I → Base I) → s.frozen ≡ false → Inv s → Kept s (write_base s f)
  base_write-Kept s f e w =
      All-map (Safe s) _ s.views (λ h p. seen-write_base s f h (p.apart e)) w.safe

  pub Kept-if :
      (s t u : Shared I) (b : Bool)
      → (b ≡ true → Kept s t)
      → (b ≡ false → Kept s u)
      → Kept s (if b then t else u)
  Kept-if s t u true kt ku = kt refl
  Kept-if s t u false kt ku = ku refl

  pub Inv-if :
      (t u : Shared I) (b : Bool)
      → (b ≡ true → Inv t)
      → (b ≡ false → Inv u)
      → Inv (if b then t else u)
  Inv-if t u true kt ku = kt refl
  Inv-if t u false kt ku = ku refl

  pub write-Kept :
      (s : Shared I) (f : Base I → Base I) (g : Overlay I → Overlay I)
      → Inv s
      → Kept s (if s.frozen then write_overlay (cow_overlay s) g else write_base s f)
  write-Kept s f g w =
      Kept-if s _ _ s.frozen (λ e. overlay_write-Kept s g w) (λ e. base_write-Kept s f e w)

  pub write_base-Inv : (s : Shared I) (f : Base I → Base I) → Inv s → Inv (write_base s f)
  unfolding write_base
  write_base-Inv s f w = record {
    own_base =
        omega (arith, length-set_at s.base (f (base_at s.heap s.base)) s.heap.bases, w.own_base);
    own_overlay = w.own_overlay;
    safe =
        All-map (Safe s) _ s.views
          (λ h p. record {
            in_bases =
                omega (
                  arith,
                  length-set_at s.base (f (base_at s.heap s.base)) s.heap.bases,
                  p.in_bases,
                );
            in_overlays = p.in_overlays;
            apart = p.apart;
          })
          w.safe;
  }

  pub write_overlay-Inv :
      (s : Shared I) (f : Overlay I → Overlay I) → Inv s → Inv (write_overlay s f)
  unfolding write_overlay
  write_overlay-Inv s f w =
      let e = length-set_at s.overlay (f (overlay_at s.heap s.overlay)) s.heap.overlays in
      record {
        own_base = w.own_base;
        own_overlay = omega (arith, e, w.own_overlay);
        safe =
            All-map (Safe s) _ s.views
              (λ h p. record {
                in_bases = p.in_bases;
                in_overlays = omega (arith, e, p.in_overlays);
                apart = p.apart;
              })
              w.safe;
      }

  pub cow_overlay-Inv : (s : Shared I) → Inv s → Inv (cow_overlay s)
  unfolding cow_overlay
  cow_overlay-Inv s w =
      let e = length-append s.heap.overlays (overlay_at s.heap s.overlay ∷ []) in
      Inv-if _ s (held s.overlay s.views)
        (λ x. record {
          own_base = w.own_base;
          own_overlay = omega (arith, e);
          safe =
              All-map (Safe s) _ s.views
                (λ h p. record {
                  in_bases = p.in_bases;
                  in_overlays = omega (arith, e, p.in_overlays);
                  apart = p.apart;
                })
                w.safe;
        })
        (λ x. w)

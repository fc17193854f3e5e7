-- ===== src/Books/Consistent.antt =====
-- The maps of `LocalOrderBooks` tell one story: every reverse map mirrors its forward map, a token
-- leads only where one of its assets leads, and the XRP sets are the books that pay out XRP.
use edgy.Containers.HashMap.{find}
use edgy.Prelude.{refl, ℕ, false, Option-cases, inr, inl, arith, true, ◌≡◌}
use edgy.Books.{empty, set_quality, remove_book, Books, Book, Xrpl, add_book, book_eq}
use edgy.Books.Tokens.{Sound, Sound-link, Sound-unlink, linked-link_domain, linked-unlink_domain}
use edgy.Containers.Eq.{if_eq-pair, Eq, pair_eq}
use edgy.Containers.Adjacency.{outs, linked, linked-link, linked-unlink}
use edgy.Containers.HashSet.{contains-erase, contains-insert, contains}

-- XRP is one asset.
pub record IsXrp {A T : Type 0} (lib : Xrpl A T) (xrp : A) : Type 0 where
  pub xrp_is_xrp : lib.is_xrp xrp ≡ true
  pub only : (x : A) → lib.is_xrp x ≡ true → x ≡ xrp

module _ {A T D : Type 0} ⦃a : Eq A⦄ ⦃t : Eq T⦄ ⦃d : Eq D⦄ (lib : Xrpl A T) (xrp : A) where
  pub record IsConsistent (s : Books A T D) : Type 0 where
    pub mirrored : (x y : A) → linked y x s.reverse_books ≡ linked x y s.all_books
    pub domain_mirrored :
        (x y : A) (dom : D)
        → linked (y, dom) x s.reverse_domain_books ≡ linked (x, dom) y s.domain_books
    pub to_xrp : (x : A) → contains x s.xrp_books ≡ linked x xrp s.all_books
    pub domain_to_xrp :
        (x : A) (dom : D)
        → contains (x, dom) s.xrp_domain_books ≡ linked (x, dom) xrp s.domain_books
    pub token_sound : Sound lib.path_asset s.token_fwd s.all_books
    pub token_rev_sound : Sound lib.path_asset s.token_rev s.reverse_books

  add_mirrored :
      (b : Book A D) (s : Books A T D)
      → IsConsistent s
      → (x y : A)
      → linked y x (add_book lib b s).reverse_books ≡ linked x y (add_book lib b s).all_books
  unfolding add_book
  add_mirrored b s w x y = ground (
    arith,
    w.mirrored x y,
    linked-link b.takes x b.gives y s.all_books,
    linked-link b.gives y b.takes x s.reverse_books,
  )

  add_domain_mirrored :
      (b : Book A D) (s : Books A T D)
      → IsConsistent s
      → (x y : A) (dom : D)
      → linked (y, dom) x (add_book lib b s).reverse_domain_books
        ≡ linked (x, dom) y (add_book lib b s).domain_books
  unfolding add_book
  add_domain_mirrored b s w x y dom = elim (Option-cases b.domain) [
    | inl e ↦ rw e (w.domain_mirrored x y dom)
    | inr (e, p) ↦ rw p (
        ground (
          arith,
          w.domain_mirrored x y dom,
          linked-link_domain b.takes x e dom b.gives y s.domain_books,
          linked-link_domain b.gives y e dom b.takes x s.reverse_domain_books,
        ))
  ]

  module _ (native : IsXrp lib xrp) where
    add_to_xrp :
        (b : Book A D) (s : Books A T D)
        → IsConsistent s
        → (x : A)
        → contains x (add_book lib b s).xrp_books ≡ linked x xrp (add_book lib b s).all_books
    unfolding add_book
    add_to_xrp b s w x = ground (
      arith,
      w.to_xrp x,
      native.xrp_is_xrp,
      native.only b.gives,
      contains-insert b.takes x s.xrp_books,
      linked-link b.takes x b.gives xrp s.all_books,
    )

    remove_to_xrp :
        (b : Book A D) (s : Books A T D)
        → IsConsistent s
        → (x : A)
        → contains x (remove_book lib b s).xrp_books ≡ linked x xrp (remove_book lib b s).all_books
    unfolding remove_book
    remove_to_xrp b s w x = ground (
      arith,
      w.to_xrp x,
      native.xrp_is_xrp,
      native.only b.gives,
      contains-erase b.takes x s.xrp_books,
      linked-unlink b.takes x b.gives xrp s.all_books,
    )

    add_domain_to_xrp :
        (b : Book A D) (s : Books A T D)
        → IsConsistent s
        → (x : A) (dom : D)
        → contains (x, dom) (add_book lib b s).xrp_domain_books
          ≡ linked (x, dom) xrp (add_book lib b s).domain_books
    unfolding add_book
    add_domain_to_xrp b s w x dom = elim (Option-cases b.domain) [
      | inl e ↦ rw e (w.domain_to_xrp x dom)
      | inr (e, p) ↦ rw p (
          ground (
            arith,
            w.domain_to_xrp x dom,
            native.xrp_is_xrp,
            native.only b.gives,
            contains-insert {A = A × D} (b.takes, e) (x, dom) s.xrp_domain_books,
            if_eq-pair b.takes x e dom true (contains (x, dom) s.xrp_domain_books),
            linked-link_domain b.takes x e dom b.gives xrp s.domain_books,
          ))
    ]

    remove_domain_to_xrp :
        (b : Book A D) (s : Books A T D)
        → IsConsistent s
        → (x : A) (dom : D)
        → contains (x, dom) (remove_book lib b s).xrp_domain_books
          ≡ linked (x, dom) xrp (remove_book lib b s).domain_books
    unfolding remove_book
    remove_domain_to_xrp b s w x dom = elim (Option-cases b.domain) [
      | inl e ↦ rw e (w.domain_to_xrp x dom)
      | inr (e, p) ↦ rw p (
          ground (
            arith,
            w.domain_to_xrp x dom,
            native.xrp_is_xrp,
            native.only b.gives,
            contains-erase {A = A × D} (b.takes, e) (x, dom) s.xrp_domain_books,
            if_eq-pair b.takes x e dom false (contains (x, dom) s.xrp_domain_books),
            linked-unlink_domain b.takes x e dom b.gives xrp s.domain_books,
          ))
    ]

  remove_mirrored :
      (b : Book A D) (s : Books A T D)
      → IsConsistent s
      → (x y : A)
      → linked y x (remove_book lib b s).reverse_books ≡ linked x y (remove_book lib b s).all_books
  unfolding remove_book
  remove_mirrored b s w x y = ground (
    arith,
    w.mirrored x y,
    linked-unlink b.takes x b.gives y s.all_books,
    linked-unlink b.gives y b.takes x s.reverse_books,
  )

  remove_domain_mirrored :
      (b : Book A D) (s : Books A T D)
      → IsConsistent s
      → (x y : A) (dom : D)
      → linked (y, dom) x (remove_book lib b s).reverse_domain_books
        ≡ linked (x, dom) y (remove_book lib b s).domain_books
  unfolding remove_book
  remove_domain_mirrored b s w x y dom = elim (Option-cases b.domain) [
    | inl e ↦ rw e (w.domain_mirrored x y dom)
    | inr (e, p) ↦ rw p (
        ground (
          arith,
          w.domain_mirrored x y dom,
          linked-unlink_domain b.takes x e dom b.gives y s.domain_books,
          linked-unlink_domain b.gives y e dom b.takes x s.reverse_domain_books,
        ))
  ]

  pub IsConsistent-add_book :
      IsXrp lib xrp
      → (b : Book A D) (s : Books A T D) → IsConsistent s
      → IsConsistent (add_book lib b s)
  IsConsistent-add_book native b s w = record {
    mirrored = add_mirrored b s w;
    domain_mirrored = add_domain_mirrored b s w;
    to_xrp = add_to_xrp native b s w;
    domain_to_xrp = add_domain_to_xrp native b s w;
    token_sound =
        unfold add_book in
        elim (Option-cases b.domain) [
          | inl e ↦
              rw e (Sound-link lib.path_asset b.takes b.gives s.token_fwd s.all_books w.token_sound)
          | inr (e, p) ↦ rw p w.token_sound
        ];
    token_rev_sound =
        unfold add_book in
        elim (Option-cases b.domain) [
          | inl e ↦ rw e (
              Sound-link lib.path_asset b.gives b.takes s.token_rev s.reverse_books
                w.token_rev_sound)
          | inr (e, p) ↦ rw p w.token_rev_sound
        ];
  }

  pub IsConsistent-remove_book :
      IsXrp lib xrp
      → (b : Book A D) (s : Books A T D) → IsConsistent s
      → IsConsistent (remove_book lib b s)
  IsConsistent-remove_book native b s w = record {
    mirrored = remove_mirrored b s w;
    domain_mirrored = remove_domain_mirrored b s w;
    to_xrp = remove_to_xrp native b s w;
    domain_to_xrp = remove_domain_to_xrp native b s w;
    token_sound =
        unfold remove_book in
        elim (Option-cases b.domain) [
          | inl e ↦
              rw e
                (Sound-unlink lib.path_asset b.takes b.gives s.token_fwd s.all_books w.token_sound)
          | inr (e, p) ↦ rw p w.token_sound
        ];
    token_rev_sound =
        unfold remove_book in
        elim (Option-cases b.domain) [
          | inl e ↦ rw e (
              Sound-unlink lib.path_asset b.gives b.takes s.token_rev s.reverse_books
                w.token_rev_sound)
          | inr (e, p) ↦ rw p w.token_rev_sound
        ];
  }

  pub IsConsistent-set_quality :
      (b : Book A D) (q : ℕ) (s : Books A T D)
      → IsConsistent s
      → IsConsistent (set_quality lib b q s)
  unfolding set_quality
  IsConsistent-set_quality b q s w = record {
    mirrored = w.mirrored;
    domain_mirrored = w.domain_mirrored;
    to_xrp = w.to_xrp;
    domain_to_xrp = w.domain_to_xrp;
    token_sound = w.token_sound;
    token_rev_sound = w.token_rev_sound;
  }

  pub IsConsistent-empty : IsConsistent empty
  unfolding outs contains find
  IsConsistent-empty = record {
    mirrored = λ x y. refl;
    domain_mirrored = λ x y dom. refl;
    to_xrp = λ x. refl;
    domain_to_xrp = λ x dom. refl;
    token_sound = λ token y h. absurd (let g = h in ground arith);
    token_rev_sound = λ token y h. absurd (let g = h in ground arith);
  }

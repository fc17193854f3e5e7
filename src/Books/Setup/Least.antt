-- ===== src/Books/Setup/Least.antt =====
-- `setup` keeps the best quality that the ledger has of a book.
use edgy.Prelude.{
  ℕ, ◌≤◌, ◌≡◌, Bool, true, Option, none, some, List, [], ◌∷◌, ◌++◌, if◌then◌else◌, refl, sym, ap,
  ◌∙◌, subst, arith, if_keeps,
}
use edgy.Containers.Eq.{Eq}
use edgy.Containers.HashMap.{find}
use edgy.Sle.{Sle}
use edgy.Books.{Books, Book, Xrpl, add_book, empty, book_eq, tips_of}
use edgy.Books.Query.{tip_quality, known, better}
use edgy.Books.Feed.{book_of, quality_of, is_book_root, is_amm}
use edgy.Books.Setup.{note_least, setup_book, setup_dir, setup_amm, setup_sle, setup_all, setup}
use edgy.Books.Setup.AtMost.{AtMost, emplace_least-AtMost, emplace_least-AtMost_self}

module _ {A T D : Type 0} ⦃a : Eq A⦄ ⦃t : Eq T⦄ ⦃d : Eq D⦄ (lib : Xrpl A T) where
  -- The graph knows a quality of the book that is no worse.
  Noted : Book A D → ℕ → Books A T D → Type 0
  Noted b q s = AtMost (find b s.tip_quality) q

  add_book-tips : (b : Book A D) (s : Books A T D) → (add_book lib b s).tip_quality ≡ s.tip_quality
  unfolding add_book
  add_book-tips b s = by_domain b.domain
    where
      by_domain :
          (o : Option D) → (add_book lib (record b { domain = o }) s).tip_quality ≡ s.tip_quality
      by_domain none = refl
      by_domain (some dom) = refl

  setup_book-Noted :
      (c b : Book A D) (q p : ℕ) (s : Books A T D) → Noted b p s → Noted b p (setup_book lib c q s)
  unfolding setup_book note_least Noted
  setup_book-Noted c b q p s n = by_domain c.domain
    where
      still : AtMost (find b (add_book lib c s).tip_quality) p
      still = subst (λ m. AtMost (find b m) p) (sym (add_book-tips c s)) n

      by_domain :
          (o : Option D)
          → AtMost
              (find b
                (elim o as (λ _. Books A T D) [
                  | some dom ↦ add_book lib c s
                  | none ↦ note_least lib c q (add_book lib c s)
                ]).tip_quality)
              p
      by_domain none = emplace_least-AtMost c b q p (add_book lib c s).tip_quality still
      by_domain (some dom) = still

  setup_book-Noted_self :
      (b : Book A D) (q : ℕ) (s : Books A T D) → b.domain ≡ none → Noted b q (setup_book lib b q s)
  unfolding setup_book note_least Noted
  setup_book-Noted_self b q s e =
      subst
        (λ o.
          AtMost
            (find b
              (elim o as (λ _. Books A T D) [
                | some dom ↦ add_book lib b s
                | none ↦ note_least lib b q (add_book lib b s)
              ]).tip_quality)
            q)
        (sym e) (emplace_least-AtMost_self b q (add_book lib b s).tip_quality)

  setup_dir-Noted_self :
      (sle : Sle A D) (b : Book A D) (s : Books A T D)
      → book_of lib sle ≡ some b
      → b.domain ≡ none
      → Noted b (quality_of lib sle) (setup_dir lib sle s)
  unfolding setup_dir
  setup_dir-Noted_self sle b s book e =
      subst
        (λ o.
          Noted b (quality_of lib sle)
            (elim o [ none ↦ s | some c ↦ setup_book lib c (quality_of lib sle) s ]))
        (sym book) (setup_book-Noted_self b (quality_of lib sle) s e)

  setup_dir-Noted :
      (sle : Sle A D) (b : Book A D) (p : ℕ) (s : Books A T D)
      → Noted b p s
      → Noted b p (setup_dir lib sle s)
  unfolding setup_dir
  setup_dir-Noted sle b p s n = from_book (book_of lib sle)
    where
      from_book :
          (o : Option (Book A D))
          → Noted b p (elim o [ none ↦ s | some book ↦ setup_book lib book (quality_of lib sle) s ])
      from_book none = n
      from_book (some c) = setup_book-Noted c b (quality_of lib sle) p s n

  -- what holds of the graph where one is made
  Then : Option (Books A T D) → (Books A T D → Type 0) → Type 0
  Then none P = Unit
  Then (some s) P = P s

  setup_amm-Noted :
      (x y : Option A) (b : Book A D) (p : ℕ) (s : Books A T D)
      → Noted b p s
      → Then (setup_amm lib x y s) (Noted b p)
  unfolding setup_amm Then Noted
  setup_amm-Noted (some x) (some y) b p s n =
      subst (λ m. AtMost (find b m) p) (sym (add_book-tips _ _ ∙ add_book-tips _ s)) n
  setup_amm-Noted (some x) none b p s n = tt
  setup_amm-Noted none y b p s n = tt

  setup_sle-Noted :
      (sle : Sle A D) (b : Book A D) (p : ℕ) (s : Books A T D)
      → Noted b p s
      → Then (setup_sle lib sle s) (Noted b p)
  unfolding setup_sle Then
  setup_sle-Noted sle b p s n =
      if_keeps (λ o. Then o (Noted b p)) (is_book_root sle) (λ _. setup_dir-Noted sle b p s n)
        (λ _.
          if_keeps (λ o. Then o (Noted b p)) (is_amm sle)
            (λ _. setup_amm-Noted sle.asset sle.asset2 b p s n) (λ _. n))

  setup_all-Noted :
      (sles : List (Sle A D)) (b : Book A D) (p : ℕ) (s : Books A T D)
      → Noted b p s
      → Then (setup_all lib sles s) (Noted b p)
  unfolding setup_all Then
  setup_all-Noted [] b p s n = n
  setup_all-Noted (sle ∷ sles) b p s n =
      from_sle (setup_sle lib sle s) (setup_sle-Noted sle b p s n)
        (λ s'. setup_all-Noted sles b p s')
    where
      from_sle :
          (o : Option (Books A T D))
          → Then o (Noted b p)
          → ((s' : Books A T D) → Noted b p s' → Then (setup_all lib sles s') (Noted b p))
          → Then (elim o [ none ↦ none | some s' ↦ setup_all lib sles s' ]) (Noted b p)
      from_sle none h k = tt
      from_sle (some s') h k = k s' h

  setup_sle-root :
      (sle : Sle A D) (s : Books A T D)
      → is_book_root sle ≡ true
      → setup_sle lib sle s ≡ some (setup_dir lib sle s)
  unfolding setup_sle
  setup_sle-root sle s root =
      ap
        (λ (c : Bool).
          if c
          then some (setup_dir lib sle s)
          else if is_amm sle
          then setup_amm lib sle.asset sle.asset2 s
          else some s)
        root

  setup_all-reads :
      (before after : List (Sle A D)) (sle : Sle A D) (b : Book A D) (s : Books A T D)
      → is_book_root sle ≡ true
      → book_of lib sle ≡ some b
      → b.domain ≡ none
      → Then (setup_all lib (before ++ sle ∷ after) s) (Noted b (quality_of lib sle))
  unfolding setup_all setup_sle Then
  setup_all-reads [] after sle b s root book e =
      subst
        (λ o.
          Then (elim o [ none ↦ none | some s' ↦ setup_all lib after s' ])
            (Noted b (quality_of lib sle)))
        (sym (setup_sle-root sle s root))
        (setup_all-Noted after b (quality_of lib sle) (setup_dir lib sle s)
          (setup_dir-Noted_self sle b s book e))
  setup_all-reads (other ∷ before) after sle b s root book e =
      from_sle (setup_sle lib other s) (λ s'. setup_all-reads before after sle b s' root book e)
    where
      from_sle :
          (o : Option (Books A T D))
          → ((s' : Books A T D)
              → Then (setup_all lib (before ++ sle ∷ after) s') (Noted b (quality_of lib sle)))
          → Then
              (elim o [ none ↦ none | some s' ↦ setup_all lib (before ++ sle ∷ after) s' ])
              (Noted b (quality_of lib sle))
      from_sle none k = tt
      from_sle (some s') k = k s'

  tip_quality-Noted :
      (b : Book A D) (q : ℕ) (s : Books A T D)
      → Noted b q s
      → tip_quality lib b.takes b.gives b.domain s ≤ q
  unfolding tip_quality Noted better known
  tip_quality-Noted b q s (v, f, l) =
      subst
        (λ o. better (find b.gives (tips_of (lib.path_asset b.takes) s.token_tip)) (known o) ≤ q)
        (sym f) (lower (find b.gives (tips_of (lib.path_asset b.takes) s.token_tip)))
    where
      lower : (o : Option ℕ) → better o v ≤ q
      lower none = l
      lower (some t) = ground (arith, l)

  -- Where a ledger is set up, the tip of an open book is no worse than the quality of any of its
  -- directories, wherever the ledger lists it.
  setup-tip_quality :
      (before after : List (Sle A D)) (sle : Sle A D) (b : Book A D) (old s : Books A T D)
      → is_book_root sle ≡ true
      → book_of lib sle ≡ some b
      → b.domain ≡ none
      → setup lib (some (before ++ sle ∷ after)) old ≡ some s
      → tip_quality lib b.takes b.gives b.domain s ≤ quality_of lib sle
  unfolding setup Then
  setup-tip_quality before after sle b old s root book e made =
      tip_quality-Noted b (quality_of lib sle) s (
        subst (λ o. Then o (Noted b (quality_of lib sle))) made
          (setup_all-reads before after sle b empty root book e))

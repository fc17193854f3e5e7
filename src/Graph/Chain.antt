-- ===== src/Graph/Chain.antt =====
-- Chains of assets in which each one has a book into the next, as `hasBook` and the reverse maps take
-- it, and what that says of the books.
use edgy.Prelude.{
  Option, refl, true, ◌≡◌, ◌≤◌, ◌<◌, ◌⊎◌, List, [], ◌∷◌, ◌++◌, length, subst, sym, ◌∙◌, some, none,
  inl, inr,
}
use edgy.Containers.Eq.{Eq, pair_eq}
use edgy.Books.{Xrpl, Books}
use edgy.Books.Query.{has_book}
use edgy.Books.Query.Routes.{reached_from, has_book_sound, reached_from_sound}
use edgy.Books.Consistent.{IsConsistent}
use edgy.Containers.Adjacency.{linked}
use edgy.Graph.Budget.{max_path_length}

-- What Payment allows: a path of one to eight elements.
abbrev pub IsPayable : {E : Type 0} → List E → Type 0
IsPayable path = (0 < length path) × (length path ≤ max_path_length)

module _ {A T D : Type 0} ⦃a : Eq A⦄ ⦃t : Eq T⦄ ⦃d : Eq D⦄ (lib : Xrpl A T) (books : Books A T D)
    (domain : Option D) where
  -- What `hasBook` says of `x` and `y`, or the reverse maps do. Both also take an open book of another
  -- asset with the token of `x`, or into one with the token of `y`.
  abbrev pub Hop : A → A → Type 0
  Hop x y = (has_book lib x y domain books ≡ true) ⊎ (reached_from lib x y domain books ≡ true)

  -- The hops lead from `x` to `y`.
  abbrev pub Joined : A → List A → A → Type 0
  Joined x [] y = x ≡ y
  Joined x (hop ∷ hops) y = Hop x hop × Joined hop hops y

  pub Joined-append :
      (x y z : A) (hops : List A) → Joined x hops y → Hop y z → Joined x (hops ++ z ∷ []) z
  Joined-append x y z [] e h = (subst (λ w. Hop w z) (sym e) h, refl)
  Joined-append x y z (hop ∷ hops) j h = (j.0, Joined-append hop y z hops j.1 h)

  -- A book of `x` into `y`: in a domain the very book, and among the open ones a book of an asset with
  -- the token of `x` into `y`, or a book of `x` into an asset with the token of `y`.
  unfoldable pub HasBook : A → A → Type 0
  HasBook x y = elim domain [
    | some dom ↦ linked (x, dom) y books.domain_books ≡ true
    | none ↦
        ((x' : A) × (lib.path_asset x' ≡ lib.path_asset x) × (linked x' y books.all_books ≡ true))
        ⊎ ((y' : A) × (lib.path_asset y' ≡ lib.path_asset y) × (linked x y' books.all_books ≡ true))
  ]

  -- The books lead from `x` to `y`.
  abbrev pub Traded : A → List A → A → Type 0
  Traded x [] y = x ≡ y
  Traded x (hop ∷ hops) y = HasBook x hop × Traded hop hops y

module _ {A T D : Type 0} ⦃a : Eq A⦄ ⦃t : Eq T⦄ ⦃d : Eq D⦄ (lib : Xrpl A T) (books : Books A T D)
    (xrp : A) (w : IsConsistent lib xrp books) where
  Hop-HasBook :
      (domain : Option D) (x y : A) → Hop lib books domain x y → HasBook lib books domain x y
  unfolding HasBook has_book reached_from
  Hop-HasBook none x y (inl h) = inl (has_book_sound lib xrp x y books w (unfold has_book in h))
  Hop-HasBook none x y (inr h) =
      inr (reached_from_sound lib xrp x y books w (unfold reached_from in h))
  Hop-HasBook (some dom) x y (inl h) = h
  Hop-HasBook (some dom) x y (inr h) = sym (w.domain_mirrored x y dom) ∙ h

  pub Joined-Traded :
      (domain : Option D) (x y : A) (hops : List A)
      → Joined lib books domain x hops y
      → Traded lib books domain x hops y
  Joined-Traded domain x y [] e = e
  Joined-Traded domain x y (hop ∷ hops) j =
      (Hop-HasBook domain x hop j.0, Joined-Traded domain hop y hops j.1)

-- ===== src/Books/Tokens.antt =====
-- The adjacency maps of `LocalOrderBooks` that are keyed by a token or by an asset with a domain.
use edgy.Prelude.{false, ◌∙◌, arith, true, ◌≡◌}
use edgy.Containers.Eq.{if_eq, if_eq-pair, Eq, pair_eq}
use edgy.Containers.Adjacency.{link, unlink, Adjacency, linked, linked-link, linked-unlink}

module _ {A T : Type 0} ⦃a : Eq A⦄ ⦃t : Eq T⦄ (f : A → T) where
  -- What a token leads to, one of its assets leads to.
  abbrev pub Sound : Adjacency T A → Adjacency A A → Type 0
  Sound m n =
      (token : T) (y : A)
      → linked token y m ≡ true
      → (x : A) × (f x ≡ token) × (linked x y n ≡ true)

  pub Sound-link :
      (x y : A) (m : Adjacency T A) (n : Adjacency A A)
      → Sound m n
      → Sound (link (f x) y m) (link x y n)
  Sound-link x y m n w token z h = elim (t.dec (f x) token) [
    | yes p ↦ elim (a.dec y z) [
      | yes q ↦ (x, p, ground (arith, linked-link x x y z n))
      | no q ↦ old (ground (arith, linked-link (f x) token y z m))
    ]
    | no p ↦ old (ground (arith, linked-link (f x) token y z m))
  ]
    where
      old : linked token z m ≡ true → (u : A) × (f u ≡ token) × (linked u z (link x y n) ≡ true)
      old k = let (u, e, l) = w token z k in (u, e, ground (arith, linked-link x u y z n))

  pub Sound-unlink :
      (x y : A) (m : Adjacency T A) (n : Adjacency A A)
      → Sound m n
      → Sound (unlink (f x) y m) (unlink x y n)
  Sound-unlink x y m n w token z h =
      let (u, e, l) = w token z (ground (arith, linked-unlink (f x) token y z m)) in
      (u, e, ground (arith, linked-unlink x u y z n, linked-unlink (f x) token y z m))

module _ {A D : Type 0} ⦃a : Eq A⦄ ⦃d : Eq D⦄ where
  -- The laws of the domain maps, with the key taken apart.
  pub linked-link_domain :
      (x z : A) (d e : D) (y w : A) (m : Adjacency (A × D) A)
      → linked (z, e) w (link (x, d) y m)
        ≡ if_eq x z
            (if_eq d e (if_eq y w true (linked (z, e) w m)) (linked (z, e) w m))
            (linked (z, e) w m)
  linked-link_domain x z d e y w m = linked-link (x, d) (z, e) y w m ∙ if_eq-pair x z d e _ _

  pub linked-unlink_domain :
      (x z : A) (d e : D) (y w : A) (m : Adjacency (A × D) A)
      → linked (z, e) w (unlink (x, d) y m)
        ≡ if_eq x z
            (if_eq d e (if_eq y w false (linked (z, e) w m)) (linked (z, e) w m))
            (linked (z, e) w m)
  linked-unlink_domain x z d e y w m = linked-unlink (x, d) (z, e) y w m ∙ if_eq-pair x z d e _ _

-- ===== src/Engine/Sessions/Waiting.antt =====
-- The creates that wait for the lock, and an entry that is taken out of the tables.
use edgy.Prelude.{
  ℕ, zero, suc, ◌≡◌, ◌≢◌, Option, none, some, List, [], ◌∷◌, ◌++◌, All, All-append, refl, sym,
  subst, arith,
}
use edgy.Containers.Eq.{nat_eq}
use edgy.Engine.Sessions.{Sub, Creating, take_nth}
use edgy.Engine.Sessions.Paired.{Distinct, without}

module _ {P : Type 0} where
  -- What is left where `c` is taken out is of another connection.
  pub without-some :
      (c : ℕ) (o : Option (Sub P)) (sub : Sub P)
      → without c o ≡ some sub
      → (o ≡ some sub) × (sub.conn_id ≢ c)
  without-some c none sub e = absurd (ground arith)
  without-some c (some old) sub e = (ground arith, λ q. ground arith)

  pub without-other :
      (c : ℕ) (o : Option (Sub P)) (sub : Sub P)
      → o ≡ some sub
      → sub.conn_id ≢ c
      → without c o ≡ some sub
  without-other c none sub e n = absurd (ground arith)
  without-other c (some old) sub e n = ground arith

module _ {P J : Type 0} where
  pub take_nth-All {κ} :
      (F : Creating P J → Type κ) (n : ℕ) (cs : List (Creating P J)) (c : Creating P J)
      (rest : List (Creating P J))
      → take_nth n cs ≡ some (c, rest)
      → All F cs
      → F c × All F rest
  unfolding take_nth
  take_nth-All F n [] c rest e h = absurd (ground arith)
  take_nth-All F zero (d ∷ ds) c rest e (h, hs) =
      subst (λ o. elim o as (λ _. Type _) [ none ↦ Unit | some (x, xs) ↦ F x × All F xs ]) e (h, hs)
  take_nth-All F (suc n) (d ∷ ds) c rest e (h, hs) =
      from_rest (take_nth n ds) refl e (λ x xs g. take_nth-All F n ds x xs g hs)
    where
      from_rest :
          (o : Option (Creating P J × List (Creating P J)))
          → take_nth n ds ≡ o
          → elim o as (λ _. Option (Creating P J × List (Creating P J))) [
            | none ↦ none
            | some (found, left) ↦ some (found, d ∷ left)
          ]
            ≡ some (c, rest)
          → ((x : Creating P J) (xs : List (Creating P J))
              → take_nth n ds ≡ some (x, xs)
              → F x × All F xs)
          → F c × All F rest
      from_rest none g e k = absurd (ground arith)
      from_rest (some (x, xs)) g e k =
          let (a, b) = k x xs g in
          subst (λ o. elim o as (λ _. Type _) [ none ↦ Unit | some (y, ys) ↦ F y × All F ys ]) e
            (a, (h, b))

  pub take_nth-Distinct :
      (n : ℕ) (cs : List (Creating P J)) (c : Creating P J) (rest : List (Creating P J))
      → take_nth n cs ≡ some (c, rest)
      → Distinct cs
      → All (λ d. d.id ≢ c.id) rest × Distinct rest
  unfolding take_nth
  take_nth-Distinct n [] c rest e h = absurd (ground arith)
  take_nth-Distinct zero (d ∷ ds) c rest e (h, hs) =
      subst
        (λ o. elim o as (λ _. Type 0) [
          | none ↦ Unit
          | some (x, xs) ↦ All (λ y. y.id ≢ x.id) xs × Distinct xs
        ])
        e (h, hs)
  take_nth-Distinct (suc n) (d ∷ ds) c rest e (h, hs) = from_rest (take_nth n ds) e (λ x xs g.
      let (a, b) = take_nth-Distinct n ds x xs g hs in
      let (p, q) = take_nth-All (λ y. y.id ≢ d.id) n ds x xs g h in ((λ r. p (sym r), a), (q, b)))
    where
      from_rest :
          (o : Option (Creating P J × List (Creating P J)))
          → elim o as (λ _. Option (Creating P J × List (Creating P J))) [
            | none ↦ none
            | some (found, left) ↦ some (found, d ∷ left)
          ]
            ≡ some (c, rest)
          → ((x : Creating P J) (xs : List (Creating P J))
              → o ≡ some (x, xs)
              → All (λ y. y.id ≢ x.id) (d ∷ xs) × Distinct (d ∷ xs))
          → All (λ y. y.id ≢ c.id) rest × Distinct rest
      from_rest none e k = absurd (ground arith)
      from_rest (some (x, xs)) e k =
          subst
            (λ o. elim o as (λ _. Type 0) [
              | none ↦ Unit
              | some (y, ys) ↦ All (λ z. z.id ≢ y.id) ys × Distinct ys
            ])
            e (k x xs refl)

  pub Distinct-append :
      (cs : List (Creating P J)) (c : Creating P J)
      → All (λ d. d.id ≢ c.id) cs
      → Distinct cs
      → Distinct (cs ++ c ∷ [])
  Distinct-append [] c h d = (tt, tt)
  Distinct-append (x ∷ cs) c (n, h) (f, d) =
      (All-append _ cs (c ∷ []) f ((λ e. n (sym e)), tt), Distinct-append cs c h d)

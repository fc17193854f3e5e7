-- ===== src/Books/Setup/AtMost.antt =====
-- The minimum that `emplaceLeast` keeps, in `setup`.
use edgy.Prelude.{
  ℕ, ◌≤◌, ◌≡◌, inl, inr, true, Option, none, some, Option-cases, List, if◌then◌else◌, ltb, refl,
  sym, ap, ◌∙◌, subst, arith, if_keeps,
}
use edgy.Containers.Eq.{Eq}
use edgy.Containers.HashMap.{find, assign, find-assign, find-assign_self}
use edgy.Books.Setup.{emplace_least}

-- a quality is known, and no worse than `q`
abbrev pub AtMost : Option ℕ → ℕ → Type 0
AtMost o q = (v : ℕ) × (o ≡ some v) × (v ≤ q)

module _ {K : Type 0} ⦃e : Eq K⦄ where
  pub emplace_least-AtMost_self :
      (k : K) (q : ℕ) (m : List (K × ℕ)) → AtMost (find k (emplace_least k q m)) q
  unfolding emplace_least
  emplace_least-AtMost_self k q m = elim (Option-cases (find k m)) [
    | inl n ↦
        subst
          (λ o.
            AtMost
              (find k
                (elim o [ none ↦ assign k q m | some old ↦ if ltb q old then assign k q m else m ]))
              q)
          (sym n) (q, find-assign_self k q m, omega arith)
    | inr (old, s) ↦
        subst
          (λ o.
            AtMost
              (find k
                (elim o [ none ↦ assign k q m | some old ↦ if ltb q old then assign k q m else m ]))
              q)
          (sym s) (chosen old s)
  ]
    where
      chosen :
          (old : ℕ)
          → find k m ≡ some old
          → AtMost (find k (if ltb q old then assign k q m else m)) q
      chosen old s =
          if_keeps (λ (n : List (K × ℕ)). AtMost (find k n) q) (ltb q old)
            (λ _. (q, find-assign_self k q m, omega arith)) (λ c. (old, s, ground arith))

  assign-AtMost :
      (k j : K) (q p : ℕ) (m : List (K × ℕ))
      → (k ≡ j → q ≤ p)
      → AtMost (find j m) p
      → AtMost (find j (assign k q m)) p
  assign-AtMost k j q p m h a =
      subst (λ o. AtMost o p) (sym (find-assign k j q m)) (by_key (e.dec k j))
    where
      by_key : (d : Dec (k ≡ j)) → AtMost (elim d [ yes _ ↦ some q | no _ ↦ find j m ]) p
      by_key (yes s) = (q, refl, h s)
      by_key (no n) = a

  pub emplace_least-AtMost :
      (k j : K) (q p : ℕ) (m : List (K × ℕ))
      → AtMost (find j m) p
      → AtMost (find j (emplace_least k q m)) p
  unfolding emplace_least
  emplace_least-AtMost k j q p m (v, f, l) = from_find (find k m) refl
    where
      same : (o : Option ℕ) → find k m ≡ o → k ≡ j → o ≡ some v
      same o g s = sym g ∙ ap (λ i. find i m) s ∙ f

      better_than : (old : ℕ) → ltb q old ≡ true → some old ≡ some v → q ≤ p
      better_than old c w = ground (arith, w, l)

      from_find :
          (o : Option ℕ)
          → find k m ≡ o
          → AtMost
              (find j
                (elim o [ none ↦ assign k q m | some old ↦ if ltb q old then assign k q m else m ]))
              p
      from_find none g =
          assign-AtMost k j q p m (λ s. absurd (impossible (same none g s))) (v, f, l)
        where
          impossible : none ≡ some v → ⊥
          impossible w = ground (arith, w)
      from_find (some old) g =
          if_keeps (λ (n : List (K × ℕ)). AtMost (find j n) p) (ltb q old)
            (λ c. assign-AtMost k j q p m (λ s. better_than old c (same (some old) g s)) (v, f, l))
            (λ _. (v, f, l))

-- ===== src/Graph/Candidates/Keeps.antt =====
-- The candidates of the loops are payable chains of books from the source to the destination.
use edgy.Prelude.{
  elim_keeps, Bool-cases, ◌==◌, ltb, arith, ◌||◌, inr, inl, ℕ, suc, Bool, List, [], ◌∷◌, length,
  All, All-append, leb,
}
use edgy.Containers.Eq.{Eq, list_eq}
use edgy.Containers.HashSet.{contains}
use edgy.Graph.Candidates.{sort, insert_by, add_path, path_set_push, add_all, add_extra, each_mid}
use edgy.Graph.Chain.{IsPayable}
use edgy.Graph.Budget.{max_path_length}

module _ {ℓ} {X : Type 0} (before : X → X → Bool) (P : X → Type ℓ) where
  insert_by-All : (x : X) (xs : List X) → P x → All P xs → All P (insert_by before x xs)
  unfolding insert_by
  insert_by-All x [] p ps = (p, tt)
  insert_by-All x (y ∷ ys) p ps = elim (Bool-cases (before y x)) [
    | inl e ↦ rw e (ps.0, insert_by-All x ys p ps.1)
    | inr e ↦ rw e (p, ps)
  ]

  pub sort-All : (xs : List X) → All P xs → All P (sort before xs)
  unfolding sort
  sort-All [] ps = tt
  sort-All (x ∷ xs) ps = insert_by-All x (sort before xs) ps.0 (sort-All xs ps.1)

module _ {ℓ} {E : Type 0} ⦃e : Eq E⦄ (Q : List E → Type ℓ) where
  -- A path is added only where it is payable.
  pub add_path-All :
      (set : List (List E)) (path : List E)
      → (IsPayable path → Q path)
      → All Q set
      → All Q (add_path set path)
  unfolding add_path path_set_push
  add_path-All set path q qs =
      elim (Bool-cases (length path == 0 || ltb max_path_length (length path))) [
        | inl c ↦ rw c qs
        | inr c ↦ elim (Bool-cases (leb 256 (length set))) [
          | inl f ↦ rw (c, f) qs
          | inr f ↦ elim (Bool-cases (contains path set)) [
            | inl g ↦ rw (c, f, g) qs
            | inr g ↦
                rw (c, f, g) (All-append Q set (path ∷ []) qs (q (ground arith, ground arith), tt))
          ]
        ]
      ]

  pub add_all-All :
      (set paths : List (List E))
      → All (λ path. IsPayable path → Q path) paths
      → All Q set
      → All Q (add_all set paths)
  unfolding add_all
  add_all-All set [] ps qs = qs
  add_all-All set (path ∷ paths) ps qs =
      add_all-All (add_path set path) paths ps.1 (add_path-All set path ps.0 qs)

  pub add_extra-All :
      (set extra : List (List E))
      → All (λ path. IsPayable path → Q path) extra
      → All Q set
      → All Q (add_extra set extra)
  unfolding add_extra
  add_extra-All set [] ps qs = qs
  add_extra-All set (path ∷ paths) ps qs = elim (Bool-cases (leb (length path) max_path_length)) [
    | inl c ↦ rw c (add_extra-All (add_path set path) paths ps.1 (add_path-All set path ps.0 qs))
    | inr c ↦ rw c (add_extra-All set paths ps.1 qs)
  ]

module _ {ℓ κ} {A S : Type 0} (go : ℕ → Bool) (skip : A → Bool) (limit : ℕ) (act : A → S → S)
    (P : A → Type κ) (I : S → Type ℓ)
    (keeps : (mid : A) (s : S) → P mid → I s → I (act mid s)) where
  pub each_mid_keeps :
      (mids : List A) (n k : ℕ) (s : S)
      → All P mids
      → I s
      → I (each_mid go skip limit act mids n k s).1
  unfolding each_mid
  each_mid_keeps [] n k s ps i = i
  each_mid_keeps (mid ∷ mids) n k s ps i =
      elim_keeps (λ (r : ℕ × S). I r.1) (go k)
        (λ _.
          elim_keeps (λ (r : ℕ × S). I r.1) (skip mid) (λ _. each_mid_keeps mids n (suc k) s ps.1 i)
            (λ _.
              elim_keeps (λ (r : ℕ × S). I r.1) (leb limit (suc n)) (λ _. keeps mid s ps.0 i)
                (λ _. each_mid_keeps mids (suc n) (suc k) (act mid s) ps.1 (keeps mid s ps.0 i))))
        (λ _. i)

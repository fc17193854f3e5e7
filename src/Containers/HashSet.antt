-- ===== src/Containers/HashSet.antt =====
-- `hash_set<A>`: its values without repetition. The order in which the code visits a hash set is
-- not specified; here it is the order of the list.
use edgy.Prelude.{All, ◌≡◌, refl, Bool, true, false, List, [], ◌∷◌, arith}
use edgy.Containers.Eq.{Eq, if_eq}

module _ {ℓ} {A : Type ℓ} ⦃e : Eq A⦄ where
  unfoldable pub contains : A → List A → Bool
  contains a [] = false
  contains a (x ∷ xs) = elim (e.dec x a) [ yes _ ↦ true | no _ ↦ contains a xs ]

  unfoldable pub insert : A → List A → List A
  insert a [] = a ∷ []
  insert a (x ∷ xs) = elim (e.dec x a) [ yes _ ↦ x ∷ xs | no _ ↦ x ∷ insert a xs ]

  unfoldable pub erase : A → List A → List A
  erase a [] = []
  erase a (x ∷ xs) = let rest = erase a xs in elim (e.dec x a) [ yes _ ↦ rest | no _ ↦ x ∷ rest ]

  -- merged.insert(first, last)
  unfoldable pub insert_all : List A → List A → List A
  insert_all [] s = s
  insert_all (x ∷ xs) s = insert_all xs (insert x s)

  pub contains-insert :
      (a b : A) (s : List A) → contains b (insert a s) ≡ if_eq a b true (contains b s)
  unfolding contains insert
  contains-insert a b [] = refl
  contains-insert a b (x ∷ xs) = ground (arith, contains-insert a b xs)

  pub contains-erase :
      (a b : A) (s : List A) → contains b (erase a s) ≡ if_eq a b false (contains b s)
  unfolding contains erase
  contains-erase a b [] = ground arith
  contains-erase a b (x ∷ xs) = ground (arith, contains-erase a b xs)

  pub contains-All {κ} :
      (P : A → Type κ) (s : List A) → ((x : A) → contains x s ≡ true → P x) → All P s
  unfolding contains
  contains-All P [] h = tt
  contains-All P (x ∷ xs) h =
      (h x (ground arith), contains-All P xs (λ y g. h y (ground (arith, g))))

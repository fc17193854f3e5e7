-- ===== src/Containers/Adjacency.antt =====
-- `hash_map<K, hash_set<A>>`, the adjacency lists of the book graph. A missing key stands for the
-- empty set, and a set that becomes empty leaves the map.
use edgy.Prelude.{◌≡◌, Bool, true, false, none, some, List, [], ◌∷◌, inl, inr, arith, Option-cases}
use edgy.Containers.Eq.{Eq, if_eq}
use edgy.Containers.HashSet.{contains, insert, erase, contains-insert, contains-erase}
use edgy.Containers.HashMap.{find, assign, remove, find-assign, find-remove}

abbrev pub Adjacency {ℓ} : Type ℓ → Type ℓ → Type ℓ
Adjacency K A = List (K × List A)

module _ {ℓ} {K A : Type ℓ} ⦃k : Eq K⦄ ⦃a : Eq A⦄ where
  -- The set that `m.find(k)` points to, empty where it is the end of the map.
  unfoldable pub outs : K → Adjacency K A → List A
  outs x m = elim (find x m) [ none ↦ [] | some s ↦ s ]

  -- m[x].insert(y)
  unfoldable pub link : K → A → Adjacency K A → Adjacency K A
  link x y m = assign x (insert y (outs x m)) m

  store : K → List A → Adjacency K A → Adjacency K A
  store x [] m = remove x m
  store x (y ∷ s) m = assign x (y ∷ s) m

  -- it->second.erase(y); if (it->second.empty()) m.erase(it)
  unfoldable pub unlink : K → A → Adjacency K A → Adjacency K A
  unfolding store
  unlink x y m = elim (find x m) [ none ↦ m | some s ↦ store x (erase y s) m ]

  abbrev pub linked : K → A → Adjacency K A → Bool
  linked x y m = contains y (outs x m)

  pub linked-link :
      (x z : K) (y w : A) (m : Adjacency K A)
      → linked z w (link x y m) ≡ if_eq x z (if_eq y w true (linked z w m)) (linked z w m)
  unfolding link outs
  linked-link x z y w m =
      ground (arith, find-assign x z (insert y (outs x m)) m, contains-insert y w (outs x m))

  outs-store :
      (x z : K) (s : List A) (m : Adjacency K A) → outs z (store x s m) ≡ if_eq x z s (outs z m)
  unfolding store outs
  outs-store x z [] m = ground (arith, find-remove x z m)
  outs-store x z (y ∷ s) m = ground (arith, find-assign x z (y ∷ s) m)

  find→outs : (x : K) {s : List A} (m : Adjacency K A) → find x m ≡ some s → outs x m ≡ s
  unfolding outs
  find→outs x m h = ground arith

  none→outs : (x : K) (m : Adjacency K A) → find x m ≡ none → outs x m ≡ []
  unfolding outs
  none→outs x m h = ground arith

  outs-unlink :
      (x z : K) (y : A) (m : Adjacency K A)
      → outs z (unlink x y m) ≡ if_eq x z (erase y (outs x m)) (outs z m)
  unfolding unlink
  outs-unlink x z y m = elim (Option-cases (find x m)) [
    | inl e ↦ rw (e, unlink) (unfold erase in ground (arith, none→outs x m e))
    | inr (s, e) ↦ rw (e, unlink) (ground (arith, find→outs x m e, outs-store x z (erase y s) m))
  ]

  pub linked-unlink :
      (x z : K) (y w : A) (m : Adjacency K A)
      → linked z w (unlink x y m) ≡ if_eq x z (if_eq y w false (linked z w m)) (linked z w m)
  linked-unlink x z y w m = ground (arith, outs-unlink x z y m, contains-erase y w (outs x m))

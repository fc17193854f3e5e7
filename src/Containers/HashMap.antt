-- ===== src/Containers/HashMap.antt =====
-- `hash_map<K, V>` as an association list with one entry for each key.
use edgy.Prelude.{◌∙◌, ◌≡◌, refl, Option, none, some, List, [], ◌∷◌, arith}
use edgy.Containers.Eq.{Eq, if_eq}

module _ {ℓ κ} {K : Type ℓ} {V : Type κ} ⦃e : Eq K⦄ where
  -- m.find(k)
  unfoldable pub find : K → List (K × V) → Option V
  find k [] = none
  find k ((j, v) ∷ m) = elim (e.dec j k) [ yes _ ↦ some v | no _ ↦ find k m ]

  -- m[k] = v
  unfoldable pub assign : K → V → List (K × V) → List (K × V)
  assign k v [] = (k, v) ∷ []
  assign k v ((j, w) ∷ m) = elim (e.dec j k) [ yes _ ↦ (k, v) ∷ m | no _ ↦ (j, w) ∷ assign k v m ]

  -- m.erase(k)
  unfoldable pub remove : K → List (K × V) → List (K × V)
  remove k [] = []
  remove k ((j, w) ∷ m) =
      let rest = remove k m in elim (e.dec j k) [ yes _ ↦ rest | no _ ↦ (j, w) ∷ rest ]

  pub find-assign :
      (k j : K) (v : V) (m : List (K × V)) → find j (assign k v m) ≡ if_eq k j (some v) (find j m)
  unfolding find assign
  find-assign k j v [] = refl
  find-assign k j v ((i, w) ∷ m) = ground (arith, find-assign k j v m)

  pub find-remove : (k j : K) (m : List (K × V)) → find j (remove k m) ≡ if_eq k j none (find j m)
  unfolding find remove
  find-remove k j [] = ground arith
  find-remove k j ((i, w) ∷ m) = ground (arith, find-remove k j m)

  pub find-assign_self : (k : K) (v : V) (m : List (K × V)) → find k (assign k v m) ≡ some v
  find-assign_self k v m = find-assign k k v m ∙ same
    where
      same : if_eq k k (some v) (find k m) ≡ some v
      same = elim (e.dec k k) as (λ x. elim x [ yes _ ↦ some v | no _ ↦ find k m ] ≡ some v) [
        | yes p ↦ refl
        | no n ↦ absurd (n refl)
      ]

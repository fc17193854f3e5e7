-- ===== src/Builder/Freeze.antt =====
-- `freezeBase` turns the keys of the snapshot into the rising vector that `succ` searches.
use edgy.Ledger.{is_some}
use edgy.Containers.Eq.{nat_eq, if_eq}
use edgy.Builder.{sort_keys, insert_key}
use edgy.Containers.HashMap.{assign, remove, find}
use edgy.Prelude.{[], refl, true, suc, arith, ◌∙◌, ap, false, ◌≡◌, ◌≤◌, length, ◌∷◌, ℕ, List}
use edgy.Containers.OrderedMap.{Ascends, keys}
use edgy.Containers.HashSet.{contains}

-- No key occurs twice.
abbrev pub Distinct : List ℕ → Type 0
Distinct [] = Unit
Distinct (k ∷ ks) = (contains k ks ≡ false) × Distinct ks

insert_key-Ascends :
    (lo k : ℕ) (ks : List ℕ)
    → lo ≤ k
    → contains k ks ≡ false
    → Ascends lo ks
    → Ascends lo (insert_key k ks)
unfolding insert_key contains
insert_key-Ascends lo k [] h n a = (h, tt)
insert_key-Ascends lo k (j ∷ ks) h n a = ground (arith, insert_key-Ascends (suc j) k ks)

contains-insert_key :
    (k j : ℕ) (ks : List ℕ) → contains j (insert_key k ks) ≡ if_eq k j true (contains j ks)
unfolding insert_key contains
contains-insert_key k j [] = refl
contains-insert_key k j (i ∷ ks) = ground (arith, contains-insert_key k j ks)

length-insert_key : (k : ℕ) (ks : List ℕ) → length (insert_key k ks) ≡ suc (length ks)
unfolding insert_key
length-insert_key k [] = refl
length-insert_key k (j ∷ ks) = ground (arith, length-insert_key k ks)

pub contains-sort_keys : (j : ℕ) (ks : List ℕ) → contains j (sort_keys ks) ≡ contains j ks
unfolding sort_keys contains
contains-sort_keys j [] = refl
contains-sort_keys j (k ∷ ks) =
    contains-insert_key k j (sort_keys ks) ∙ ground (arith, contains-sort_keys j ks)

pub sort_keys-Ascends : (ks : List ℕ) → Distinct ks → Ascends 0 (sort_keys ks)
unfolding sort_keys
sort_keys-Ascends [] d = tt
sort_keys-Ascends (k ∷ ks) d =
    insert_key-Ascends 0 k (sort_keys ks) (omega arith) (contains-sort_keys k ks ∙ d.0)
      (sort_keys-Ascends ks d.1)

pub length-sort_keys : (ks : List ℕ) → length (sort_keys ks) ≡ length ks
unfolding sort_keys
length-sort_keys [] = refl
length-sort_keys (k ∷ ks) = omega (arith, length-insert_key k (sort_keys ks), length-sort_keys ks)

module _ {ℓ} {V : Type ℓ} where
  pub length-keys : (m : List (ℕ × V)) → length (keys m) ≡ length m
  length-keys [] = refl
  length-keys ((j, v) ∷ m) = ap suc (length-keys m)

  pub contains-keys : (k : ℕ) (m : List (ℕ × V)) → contains k (keys m) ≡ is_some (find k m)
  unfolding find contains
  contains-keys k [] = refl
  contains-keys k ((j, v) ∷ m) = ground (arith, contains-keys k m)

  contains-keys-assign :
      (k j : ℕ) (v : V) (m : List (ℕ × V))
      → contains j (keys (assign k v m)) ≡ if_eq k j true (contains j (keys m))
  unfolding assign contains
  contains-keys-assign k j v [] = refl
  contains-keys-assign k j v ((i, w) ∷ m) = ground (arith, contains-keys-assign k j v m)

  contains-keys-remove :
      (k j : ℕ) (m : List (ℕ × V))
      → contains j (keys (remove k m)) ≡ if_eq k j false (contains j (keys m))
  unfolding remove contains
  contains-keys-remove k j [] = ground arith
  contains-keys-remove k j ((i, w) ∷ m) = ground (arith, contains-keys-remove k j m)

  pub assign-Distinct :
      (k : ℕ) (v : V) (m : List (ℕ × V)) → Distinct (keys m) → Distinct (keys (assign k v m))
  unfolding assign contains
  assign-Distinct k v [] d = (refl, tt)
  assign-Distinct k v ((j, w) ∷ m) d =
      ground (arith, assign-Distinct k v m d.1, contains-keys-assign k j v m)

  pub remove-Distinct :
      (k : ℕ) (m : List (ℕ × V)) → Distinct (keys m) → Distinct (keys (remove k m))
  unfolding remove contains
  remove-Distinct k [] d = tt
  remove-Distinct k ((j, w) ∷ m) d =
      ground (arith, remove-Distinct k m d.1, contains-keys-remove k j m)

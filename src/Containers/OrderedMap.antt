-- ===== src/Containers/OrderedMap.antt =====
-- `std::map` keyed by numbers and sorted key vectors: entries by rising key.
use Prim.Native.Nat.{compare, Ordering}
use edgy.Prelude.{
  ℕ, ◌≤◌, ◌<◌, ◌≡◌, refl, false, none, some, List, [], ◌∷◌, arith, ltb, if◌then◌else◌, suc,
}
use edgy.Containers.Eq.{if_eq, nat_eq}
use edgy.Containers.HashMap.{find}
use edgy.Containers.HashSet.{contains}

-- `lo` is at most every key, and the keys rise strictly.
abbrev pub Ascends : ℕ → List ℕ → Type 0
Ascends lo [] = Unit
Ascends lo (k ∷ ks) = (lo ≤ k) × Ascends (suc k) ks

abbrev pub keys {ℓ} : {V : Type ℓ} → List (ℕ × V) → List ℕ
keys [] = []
keys ((k, _) ∷ m) = k ∷ keys m

-- v.upper_bound(key), as the rest of the sequence from there
unfoldable pub keys_above : ℕ → List ℕ → List ℕ
keys_above key [] = []
keys_above key (k ∷ ks) = if ltb key k then k ∷ ks else keys_above key ks

pub Ascends-weaken : {lo lo' : ℕ} (ks : List ℕ) → lo' ≤ lo → Ascends lo ks → Ascends lo' ks
Ascends-weaken [] h a = tt
Ascends-weaken (k ∷ ks) h a = (omega arith, a.1)

pub contains_below : (j lo : ℕ) (ks : List ℕ) → Ascends lo ks → j < lo → contains j ks ≡ false
unfolding contains
contains_below j lo [] a h = refl
contains_below j lo (k ∷ ks) a h = ground (arith, contains_below j (suc k) ks a.1)

pub keys_above-Ascends :
    (key lo : ℕ) (ks : List ℕ) → Ascends lo ks → Ascends (suc key) (keys_above key ks)
unfolding keys_above
keys_above-Ascends key lo [] a = tt
keys_above-Ascends key lo (k ∷ ks) a = ground (arith, keys_above-Ascends key (suc k) ks a.1)

pub contains-keys_above :
    (j key : ℕ) (ks : List ℕ) → key < j → contains j (keys_above key ks) ≡ contains j ks
unfolding keys_above contains
contains-keys_above j key [] h = refl
contains-keys_above j key (k ∷ ks) h = ground (arith, contains-keys_above j key ks)

module _ {ℓ} {V : Type ℓ} where
  -- m[k] = v
  unfoldable pub put : ℕ → V → List (ℕ × V) → List (ℕ × V)
  put k v [] = (k, v) ∷ []
  put k v ((j, w) ∷ m) = elim (compare k j) [
    | Ordering.lt ↦ (k, v) ∷ (j, w) ∷ m
    | Ordering.eq ↦ (k, v) ∷ m
    | Ordering.gt ↦ (j, w) ∷ put k v m
  ]

  -- m.upper_bound(key)
  unfoldable pub above : ℕ → List (ℕ × V) → List (ℕ × V)
  above key [] = []
  above key ((k, v) ∷ m) = if ltb key k then (k, v) ∷ m else above key m

  pub find-put :
      (k j : ℕ) (v : V) (m : List (ℕ × V)) → find j (put k v m) ≡ if_eq k j (some v) (find j m)
  unfolding find put
  find-put k j v [] = refl
  find-put k j v ((i, w) ∷ m) = ground (arith, find-put k j v m)

  pub put-Ascends :
      (lo k : ℕ) (v : V) (m : List (ℕ × V))
      → lo ≤ k
      → Ascends lo (keys m)
      → Ascends lo (keys (put k v m))
  unfolding put
  put-Ascends lo k v [] h a = (h, tt)
  put-Ascends lo k v ((j, w) ∷ m) h a = ground (arith, put-Ascends (suc j) k v m)

  pub above-Ascends :
      (key lo : ℕ) (m : List (ℕ × V)) → Ascends lo (keys m) → Ascends (suc key) (keys (above key m))
  unfolding above
  above-Ascends key lo [] a = tt
  above-Ascends key lo ((k, v) ∷ m) a = ground (arith, above-Ascends key (suc k) m a.1)

  pub find-above : (j key : ℕ) (m : List (ℕ × V)) → key < j → find j (above key m) ≡ find j m
  unfolding above find
  find-above j key [] h = refl
  find-above j key ((k, v) ∷ m) h = ground (arith, find-above j key m)

  pub find_below : (j lo : ℕ) (m : List (ℕ × V)) → Ascends lo (keys m) → j < lo → find j m ≡ none
  unfolding find
  find_below j lo [] a h = refl
  find_below j lo ((k, v) ∷ m) a h = ground (arith, find_below j (suc k) m a.1)

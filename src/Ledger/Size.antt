-- ===== src/Ledger/Size.antt =====
-- `MemoryLedger::size` counts the objects that the loop over the view visits.
use edgy.Containers.HashMap.{find}
use edgy.Containers.Eq.{nat_eq, if_eq}
use edgy.Containers.HashSet.{contains}
use edgy.Containers.OrderedMap.{find_below, keys, contains_below, Ascends-weaken, Ascends}
use mathlib.Core.Path.{ap₂}
use edgy.Prelude.{
  sym, some, none, Option, ◌∙◌, ap, length, if◌then◌else◌, ◌==◌, ltb, arith, ◌∷◌, [], List, false,
  true, refl, ◌≡◌, ◌≤◌, ◌+◌, suc, ℕ,
}
use edgy.Ledger.{adjust, Ledger, Overlay, is_some, size_loop, size, live}
use edgy.Ledger.Succ.{IsValid}

add_key : ℕ → List ℕ → List ℕ
add_key k [] = k ∷ []
add_key k (j ∷ ks) =
    let rest = add_key k ks in if ltb k j then k ∷ j ∷ ks else if k == j then j ∷ ks else j ∷ rest

drop_key : ℕ → List ℕ → List ℕ
drop_key k [] = []
drop_key k (j ∷ ks) = let rest = drop_key k ks in if k == j then ks else j ∷ rest

add_key-Ascends : (lo k : ℕ) (ks : List ℕ) → lo ≤ k → Ascends lo ks → Ascends lo (add_key k ks)
unfolding add_key
add_key-Ascends lo k [] h a = (h, tt)
add_key-Ascends lo k (j ∷ ks) h a = ground (arith, add_key-Ascends (suc j) k ks)

drop_key-Ascends : (lo k : ℕ) (ks : List ℕ) → Ascends lo ks → Ascends lo (drop_key k ks)
unfolding drop_key
drop_key-Ascends lo k [] a = tt
drop_key-Ascends lo k (j ∷ ks) a =
    ground (arith, drop_key-Ascends (suc j) k ks, Ascends-weaken {lo = suc j} {lo' = lo} ks)

contains-add_key :
    (k j : ℕ) (ks : List ℕ) → contains j (add_key k ks) ≡ if_eq k j true (contains j ks)
unfolding add_key contains
contains-add_key k j [] = refl
contains-add_key k j (i ∷ ks) = ground (arith, contains-add_key k j ks)

contains-drop_key :
    (k j lo : ℕ) (ks : List ℕ)
    → Ascends lo ks
    → contains j (drop_key k ks) ≡ if_eq k j false (contains j ks)
unfolding drop_key contains
contains-drop_key k j lo [] a = ground arith
contains-drop_key k j lo (i ∷ ks) a =
    ground (arith, contains-drop_key k j (suc i) ks a.1, contains_below j (suc i) ks a.1)

length-add_key :
    (k lo : ℕ) (ks : List ℕ)
    → Ascends lo ks
    → length (add_key k ks) ≡ (if contains k ks then length ks else length ks + 1)
unfolding add_key contains
length-add_key k lo [] a = omega arith
length-add_key k lo (i ∷ ks) a =
    ground (arith, length-add_key k (suc i) ks a.1, contains_below k (suc i) ks a.1)

length-drop_key :
    (k : ℕ) (ks : List ℕ)
    → (if contains k ks then length (drop_key k ks) + 1 else length (drop_key k ks)) ≡ length ks
unfolding drop_key contains
length-drop_key k [] = refl
length-drop_key k (i ∷ ks) = ground (arith, length-drop_key k ks)

-- Two rising lists with the same keys are the same list.
Ascends-ext :
    (lo : ℕ) (js ks : List ℕ)
    → Ascends lo js
    → Ascends lo ks
    → ((i : ℕ) → contains i js ≡ contains i ks)
    → js ≡ ks
unfolding contains
Ascends-ext lo [] [] a b h = refl
Ascends-ext lo [] (k ∷ ks) a b h = ground (arith, h k)
Ascends-ext lo (j ∷ js) [] a b h = ground (arith, h j)
Ascends-ext lo (j ∷ js) (k ∷ ks) a b h =
    ap₂ ◌∷◌ same (Ascends-ext (suc j) js ks a.1 (let e = same in ground arith) tails)
  where
    same : j ≡ k
    same =
        ground (arith, h j, h k, contains_below j (suc k) ks b.1, contains_below k (suc j) js a.1)

    tails : (i : ℕ) → contains i js ≡ contains i ks
    tails i =
        ground (arith, same, h i, contains_below i (suc j) js a.1, contains_below i (suc k) ks b.1)

module _ {ℓ} {I : Type ℓ} where
  edit : ℕ → Option I → List ℕ → List ℕ
  edit k none ks = drop_key k ks
  edit k (some item) ks = add_key k ks

  edits : Overlay I → List ℕ → List ℕ
  edits [] ks = ks
  edits ((k, v) ∷ os) ks = edits os (edit k v ks)

  edit-Ascends : (k : ℕ) (v : Option I) (ks : List ℕ) → Ascends 0 ks → Ascends 0 (edit k v ks)
  unfolding edit
  edit-Ascends k none ks a = drop_key-Ascends 0 k ks a
  edit-Ascends k (some item) ks a = add_key-Ascends 0 k ks (omega arith) a

  contains-edit :
      (k j : ℕ) (v : Option I) (ks : List ℕ)
      → Ascends 0 ks
      → contains j (edit k v ks) ≡ if_eq k j (is_some v) (contains j ks)
  unfolding edit
  contains-edit k j none ks a = contains-drop_key k j 0 ks a
  contains-edit k j (some item) ks a = contains-add_key k j ks

  edits-Ascends : (os : Overlay I) (ks : List ℕ) → Ascends 0 ks → Ascends 0 (edits os ks)
  unfolding edits
  edits-Ascends [] ks a = a
  edits-Ascends ((k, v) ∷ os) ks a = edits-Ascends os (edit k v ks) (edit-Ascends k v ks a)

  contains-edits :
      (os : Overlay I) (ks : List ℕ) (lo j : ℕ)
      → Ascends lo (keys os)
      → Ascends 0 ks
      → contains j (edits os ks)
        ≡ elim (find j os) [ some entry ↦ is_some entry | none ↦ contains j ks ]
  unfolding edits find
  contains-edits [] ks lo j o a = refl
  contains-edits ((k, v) ∷ os) ks lo j o a =
      contains-edits os (edit k v ks) (suc k) j o.1 (edit-Ascends k v ks a)
      ∙ ground (arith, contains-edit k j v ks a, find_below j (suc k) os o.1)

  adjust-edit :
      (items : List (ℕ × I)) (k : ℕ) (v : Option I) (ks : List ℕ)
      → Ascends 0 ks
      → contains k ks ≡ is_some (find k items)
      → adjust items k v (length ks) ≡ length (edit k v ks)
  unfolding adjust edit
  adjust-edit items k none ks a h = ground (arith, length-drop_key k ks)
  adjust-edit items k (some item) ks a h = ground (arith, length-add_key k 0 ks a)

  size_loop-edits :
      (items : List (ℕ × I)) (os : Overlay I) (ks : List ℕ) (lo : ℕ)
      → Ascends lo (keys os)
      → Ascends 0 ks
      → ((j : ℕ) → lo ≤ j → contains j ks ≡ is_some (find j items))
      → size_loop items os (length ks) ≡ length (edits os ks)
  unfolding size_loop edits
  size_loop-edits items [] ks lo o a h = refl
  size_loop-edits items ((k, v) ∷ os) ks lo o a h =
      ap (size_loop items os) (adjust-edit items k v ks a (h k o.0))
      ∙ size_loop-edits items os (edit k v ks) (suc k) o.1 (edit-Ascends k v ks a)
          (λ j hj. ground (arith, contains-edit k j v ks a, h j))

  -- The size of a published view is the number of its live keys, whatever mix of base and overlay
  -- they lie in.
  size-length :
      (v : Ledger I) (ks : List ℕ)
      → IsValid v
      → Ascends 0 ks
      → ((j : ℕ) → contains j ks ≡ live v j)
      → size v ≡ length ks
  unfolding size live
  size-length v ks w a h =
      ap (size_loop v.base.items v.overlay) (sym w.counted)
      ∙ size_loop-edits v.base.items v.overlay v.base.sorted_keys 0 w.in_order w.rising
          (λ j hj. w.indexed j)
      ∙ ap length (
          Ascends-ext 0 (edits v.overlay v.base.sorted_keys) ks
            (edits-Ascends v.overlay v.base.sorted_keys w.rising) a
            (λ j.
              contains-edits v.overlay v.base.sorted_keys 0 j w.in_order w.rising
              ∙ ground (arith, h j, w.indexed j)))

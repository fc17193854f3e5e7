-- ===== src/Ledger/Walk.antt =====
-- The loop over `ledger->sles`: `slesBegin`, `increment` until `equal` to `slesEnd`.
use edgy.Containers.HashMap.{find}
use edgy.Ledger.Succ.{succ-Least, IsValid, Least}
use edgy.Prelude.{
  inr, ◌∙◌, inl, ltb, ap, Bool-cases, Bool, refl, sym, ◌≡◌, not, ℕ, zero, suc, ◌+◌, ◌≤◌, ◌<◌, true,
  false, Option, none, some, List, [], ◌∷◌, arith, length,
}
use edgy.Containers.Eq.{nat_eq}
use edgy.Containers.HashSet.{contains}
use edgy.Containers.OrderedMap.{Ascends-weaken, keys, Ascends, keys_above, above, contains_below}
use edgy.Ledger.{sles_begin, is_some, succ, live, Ledger, SlesIter, increment, iter_equal}

abbrev pub sles_end : SlesIter
sles_end = record { current = none; end = true }

visit : Option ℕ → List ℕ → List ℕ
visit none rest = rest
visit (some k) rest = k ∷ rest

module _ {ℓ} {I : Type ℓ} where
  -- The keys that the loop visits; `none` where the rounds do not suffice.
  unfoldable pub walk : Ledger I → ℕ → SlesIter → Option (List ℕ)
  unfolding visit increment iter_equal
  walk v zero it = none
  walk v (suc rounds) it = elim (iter_equal it sles_end) [
    | true ↦ some []
    | false ↦ elim (walk v rounds (increment v it)) [
      | none ↦ none
      | some rest ↦ some (visit it.current rest)
    ]
  ]

  -- What the loop can still meet above `key`.
  ahead : Ledger I → ℕ → ℕ
  ahead v key = length (keys_above key v.base.sorted_keys) + length (above key v.overlay)

-- The value of a test as a number.
abbrev bit : Bool → ℕ
bit true = 1
bit false = 0

keys_above_all : (k : ℕ) (ks : List ℕ) → Ascends (suc k) ks → keys_above k ks ≡ ks
unfolding keys_above
keys_above_all k [] a = refl
keys_above_all k (x ∷ ks) a = ground arith

length-keys_above-le : (k : ℕ) (ks : List ℕ) → length (keys_above k ks) ≤ length ks
unfolding keys_above
length-keys_above-le k [] = omega arith
length-keys_above-le k (x ∷ ks) = ground (arith, length-keys_above-le k ks)

-- Going on from `k` loses `k` itself.
length-keys_above :
    (j k lo : ℕ) (ks : List ℕ)
    → Ascends lo ks
    → j < k
    → length (keys_above k ks) + bit (contains k ks) ≤ length (keys_above j ks)
unfolding keys_above contains
length-keys_above j k lo [] a h = omega arith
length-keys_above j k lo (x ∷ ks) a h = ground (
  arith,
  length-keys_above j k (suc x) ks a.1,
  length-keys_above x k (suc x) ks a.1,
  keys_above_all x ks a.1,
  contains_below k (suc x) ks a.1,
)

module _ {ℓ} {V : Type ℓ} where
  length_keys : (m : List (ℕ × V)) → length m ≡ length (keys m)
  length_keys [] = refl
  length_keys ((j, v) ∷ m) = ap suc (length_keys m)

  length-above-keys :
      (k : ℕ) (m : List (ℕ × V)) → length (above k m) ≡ length (keys_above k (keys m))
  unfolding above keys_above
  length-above-keys k [] = refl
  length-above-keys k ((j, v) ∷ m) = elim (Bool-cases (ltb k j)) [
    | inl e ↦ rw e (length_keys ((j, v) ∷ m))
    | inr e ↦ rw e (length-above-keys k m)
  ]

  is_some-find : (k : ℕ) (m : List (ℕ × V)) → is_some (find k m) ≡ contains k (keys m)
  unfolding find contains
  is_some-find k [] = refl
  is_some-find k ((j, v) ∷ m) = ground (arith, is_some-find k m)

  length-above :
      (j k lo : ℕ) (m : List (ℕ × V))
      → Ascends lo (keys m)
      → j < k
      → length (above k m) + bit (is_some (find k m)) ≤ length (above j m)
  length-above j k lo m a h =
      rw (length-above-keys k m, length-above-keys j m, is_some-find k m)
        (length-keys_above j k lo (keys m) a h)

abbrev iter_at : Option ℕ → SlesIter
iter_at o = record { current = o; end = not (is_some o) }

module _ {ℓ} {I : Type ℓ} where
  ahead_falls :
      (v : Ledger I) (j k : ℕ) → IsValid v → j < k → live v k ≡ true → ahead v k < ahead v j
  unfolding ahead live
  ahead_falls v j k w h l = ground (
    arith,
    w.indexed k,
    length-keys_above j k 0 v.base.sorted_keys w.rising h,
    length-above j k 0 v.overlay w.in_order h,
  )

  -- `ks` rises and holds the live keys from `lo` on, and no others.
  abbrev pub Lists : Ledger I → ℕ → List ℕ → Type 0
  Lists v lo ks = Ascends lo ks × ((j : ℕ) → lo ≤ j → contains j ks ≡ live v j)

  Lists-cons :
      (v : Ledger I) (lo k : ℕ) (ks : List ℕ)
      → Least (live v) lo none (some k)
      → Lists v (suc k) ks
      → Lists v lo (k ∷ ks)
  unfolding contains
  Lists-cons v lo k ks l h =
      ((l.0, h.0), λ j hj. ground (arith, l.3 j hj, contains_below j (suc k) ks h.0, h.1 j))

  Lists-nil : (v : Ledger I) (lo : ℕ) → Least (live v) lo none none → Lists v lo []
  unfolding contains
  Lists-nil v lo l = (tt, λ j hj. sym (l j hj refl))

  walk_above :
      (v : Ledger I) (rounds key : ℕ)
      → IsValid v
      → ahead v key < rounds
      → (ks : List ℕ) × (walk v rounds (iter_at (succ v key none)) ≡ some ks) × Lists v (suc key) ks
  unfolding walk
  walk_above v zero key w h = absurd (omega arith)
  walk_above v (suc rounds) key w h =
      go (succ v key none) (succ-Least v key none w) (λ k f. walk_above v rounds k w (omega arith))
    where
      go :
          (o : Option ℕ)
          → Least (live v) (suc key) none o
          → ((k : ℕ)
              → ahead v k < ahead v key
              → (ks : List ℕ) × (walk v rounds (iter_at (succ v k none)) ≡ some ks)
                × Lists v (suc k) ks)
          → (ks : List ℕ) × (walk v (suc rounds) (iter_at o) ≡ some ks) × Lists v (suc key) ks
      go none l again = ([], refl, Lists-nil v (suc key) l)
      go (some k) l again =
          let (ks, e, h') = again k (ahead_falls v key k w l.0 l.1) in
          (k ∷ ks, rw e refl, Lists-cons v (suc key) k ks l h')

  ahead-le : (v : Ledger I) (key : ℕ) → ahead v key ≤ length v.base.sorted_keys + length v.overlay
  unfolding ahead
  ahead-le v key = omega (
    arith,
    length-keys_above-le key v.base.sorted_keys,
    length-keys_above-le key (keys v.overlay),
    length-above-keys key v.overlay,
    length_keys v.overlay,
  )

  Lists-zero : (v : Ledger I) (ks : List ℕ) → live v 0 ≡ false → Lists v 1 ks → Lists v 0 ks
  Lists-zero v ks dead l = (Ascends-weaken ks (omega arith) l.0, each)
    where
      each : (j : ℕ) → 0 ≤ j → contains j ks ≡ live v j
      each zero h = contains_below 0 1 ks l.0 (omega arith) ∙ sym dead
      each (suc j) h = l.1 (suc j) (omega arith)

  walk-Lists_zero :
      (v : Ledger I) (rounds : ℕ)
      → IsValid v
      → length v.base.sorted_keys + length v.overlay < rounds
      → (ks : List ℕ) × (walk v (suc rounds) (sles_begin v) ≡ some ks) × Lists v 0 ks
  unfolding sles_begin
  walk-Lists_zero v rounds w h = elim (Bool-cases (live v 0)) [
    | inl e ↦
        let (ks, p, l) = walk_above v rounds 0 w (omega (arith, ahead-le v 0)) in
        rw e (
          0 ∷ ks,
          unfold walk in rw p,
          Lists-cons v 0 0 ks (omega arith, e, refl, λ j a b. absurd (omega arith)) l,
        )
    | inr e ↦
        let (ks, p, l) = walk_above v (suc rounds) 0 w (omega (arith, ahead-le v 0)) in
        rw e (ks, p, Lists-zero v ks e l)
  ]

  -- The loop over a published view ends within one round more than its keys and overlay entries
  -- (with one for the start), and visits the live keys, each once, in rising order.
  pub walk-Lists :
      (v : Ledger I) (rounds : ℕ)
      → IsValid v
      → length v.base.sorted_keys + length v.overlay + 1 < rounds
      → (ks : List ℕ) × (walk v rounds (sles_begin v) ≡ some ks)
        × Ascends 0 ks
        × ((j : ℕ) → contains j ks ≡ live v j)
  walk-Lists v zero w h = absurd (omega arith)
  walk-Lists v (suc rounds) w h =
      let (ks, e, l) = walk-Lists_zero v rounds w (omega arith) in
      (ks, e, l.0, λ j. l.1 j (omega arith))

-- ===== src/Ledger/Succ.antt =====
-- `MemoryLedger::succ` finds the least live key above its argument.
use edgy.Prelude.{
  length, ℕ, suc, ◌≤◌, ◌<◌, ◌≡◌, refl, Bool, true, false, Option, none, some, List, [], ◌∷◌, arith,
  Bool-cases, inl, inr, dec_le, leb, leb→le, ◌∙◌, if◌then◌else◌,
}
use edgy.Containers.Eq.{nat_eq}
use edgy.Containers.HashSet.{contains}
use edgy.Containers.HashMap.{find}
use edgy.Containers.OrderedMap.{
  Ascends, keys, keys_above, above, contains_below, find_below, keys_above-Ascends, above-Ascends,
  contains-keys_above, find-above,
}
use edgy.Ledger.{
  Overlay, Ledger, past, is_some, succ_loop, skip, succ, live, accept, accept_overlay,
}

-- `alive` holds at the least key from `lo` on, and the limit lets it through.
abbrev pub Least : (ℕ → Bool) → ℕ → Option ℕ → Option ℕ → Type 0
Least alive lo last (some k) =
    (lo ≤ k)
    × (alive k ≡ true)
    × (past last k ≡ false)
    × ((j : ℕ) → lo ≤ j → j < k → alive j ≡ false)
Least alive lo last none = (j : ℕ) → lo ≤ j → past last j ≡ false → alive j ≡ false

-- Below a refused candidate the limit may let keys through, at it and above it none.
past_mono : (last : Option ℕ) (j k : ℕ) → past last k ≡ true → past last j ≡ false → j < k
past_mono none j k h g = cc
past_mono (some l) j k h g = ground arith

accept-Least :
    (alive : ℕ → Bool) (lo : ℕ) (last : Option ℕ) (k : ℕ)
    → lo ≤ k
    → alive k ≡ true
    → ((j : ℕ) → lo ≤ j → j < k → alive j ≡ false)
    → Least alive lo last (if past last k then none else some k)
accept-Least alive lo last k h live dead = elim (Bool-cases (past last k)) [
  | inl e ↦ rw e (λ j hj p. dead j hj (past_mono last j k e p))
  | inr e ↦ rw e (h, live, e, dead)
]

-- Nothing lives up to `k`, and above it `rest` stands for the same keys.
pass-Least :
    (alive rest : ℕ → Bool) (lo : ℕ) (last : Option ℕ) (k : ℕ) (r : Option ℕ)
    → lo ≤ k
    → ((j : ℕ) → lo ≤ j → j ≤ k → alive j ≡ false)
    → ((j : ℕ) → k < j → alive j ≡ rest j)
    → Least rest (suc k) last r
    → Least alive lo last (if past last k then none else r)
pass-Least alive rest lo last k r h dead same least = elim (Bool-cases (past last k)) [
  | inl e ↦ rw e (λ j hj p. let below = past_mono last j k e p in dead j hj (omega arith))
  | inr e ↦ rw e (go r least)
]
  where
    go : (r : Option ℕ) → Least rest (suc k) last r → Least alive lo last r
    go none l = λ j hj p. elim (dec_le j k) [
      | yes low ↦ dead j hj low
      | no high ↦ same j (omega arith) ∙ l j (omega arith) p
    ]
    go (some m) l = (
      omega (arith, l.0),
      same m l.0 ∙ l.1,
      l.2,
      λ j hj jm. elim (dec_le j k) [
        | yes low ↦ dead j hj low
        | no high ↦ same j (omega arith) ∙ l.3 j (omega arith) jm
      ],
    )

skip-Ascends : (k : ℕ) (bs : List ℕ) → Ascends k bs → Ascends (suc k) (skip k bs)
unfolding skip
skip-Ascends k [] a = tt
skip-Ascends k (b ∷ bs) a = ground arith

contains-skip : (j k : ℕ) (bs : List ℕ) → k < j → contains j (skip k bs) ≡ contains j bs
unfolding skip contains
contains-skip j k [] h = refl
contains-skip j k (b ∷ bs) h = ground arith

Least-same :
    (alive rest : ℕ → Bool) (lo : ℕ) (last r : Option ℕ)
    → ((j : ℕ) → lo ≤ j → alive j ≡ rest j)
    → Least rest lo last r
    → Least alive lo last r
Least-same alive rest lo last none same l = λ j hj p. same j hj ∙ l j hj p
Least-same alive rest lo last (some k) same l =
    (l.0, same k l.0 ∙ l.1, l.2, λ j hj jk. same j hj ∙ l.3 j hj jk)

module _ {ℓ} {I : Type ℓ} where
  -- What the two iterators still stand for.
  alive_at : List ℕ → Overlay I → ℕ → Bool
  alive_at bs os j = elim (find j os) [ some entry ↦ is_some entry | none ↦ contains j bs ]

  -- The candidate is an overlay entry, not above any base key that is left.
  overlay-Least :
      (last : Option ℕ) (lo k : ℕ) (bs : List ℕ) (v : Option I) (os : Overlay I) (r : Option ℕ)
      → Ascends k bs
      → Ascends lo (keys ((k, v) ∷ os))
      → Least (alive_at (skip k bs) os) (suc k) last r
      → Least (alive_at bs ((k, v) ∷ os)) lo last (accept_overlay last k v r)
  unfolding accept_overlay alive_at find
  overlay-Least last lo k bs none os r a b least =
      pass-Least _ (alive_at (skip k bs) os) lo last k r b.0
        (λ j hj jk. ground (arith, contains_below j k bs a, find_below j (suc k) os b.1))
        (λ j kj. ground (arith, contains-skip j k bs kj)) least
  overlay-Least last lo k bs (some item) os r a b least =
      accept-Least _ lo last k b.0 (ground arith)
        (λ j hj jk. ground (arith, contains_below j k bs a, find_below j (suc k) os b.1))

  -- The candidate is a base key, below every overlay key that is left.
  base-Least :
      (last : Option ℕ) (lo x : ℕ) (bs : List ℕ) (os : Overlay I)
      → Ascends lo (x ∷ bs)
      → Ascends (suc x) (keys os)
      → Least (alive_at (x ∷ bs) os) lo last (accept last x)
  unfolding accept alive_at contains
  base-Least last lo x bs os a b =
      accept-Least _ lo last x a.0 (ground (arith, find_below x (suc x) os b))
        (λ j hj jx. ground (arith, contains_below j (suc x) bs a.1, find_below j (suc x) os b))

  succ_loop-Least :
      (last : Option ℕ) (lo : ℕ) (bs : List ℕ) (os : Overlay I)
      → Ascends lo bs
      → Ascends lo (keys os)
      → Least (alive_at bs os) lo last (succ_loop last bs os)
  unfolding succ_loop
  succ_loop-Least last lo [] [] a b = unfold alive_at find contains in λ j hj p. refl
  succ_loop-Least last lo (x ∷ bs) [] a b = base-Least last lo x bs [] a tt
  succ_loop-Least last lo [] ((k, v) ∷ os) a b =
      overlay-Least last lo k [] v os _ tt b
        (unfold skip in succ_loop-Least last (suc k) [] os tt b.1)
  succ_loop-Least last lo (x ∷ bs) ((k, v) ∷ os) a b = elim (Bool-cases (leb k x)) [
    | inl e ↦
        let a' : Ascends k (x ∷ bs) = (leb→le k x e, a.1) in
        rw e (
          overlay-Least last lo k (x ∷ bs) v os _ a' b
            (succ_loop-Least last (suc k) (skip k (x ∷ bs)) os (skip-Ascends k (x ∷ bs) a') b.1))
    | inr e ↦ rw e (base-Least last lo x bs ((k, v) ∷ os) a (ground arith, b.1))
  ]

-- What a builder establishes of a view that it publishes: the key vector rises and holds the keys
-- of the snapshot, as many as there are, and the overlay is in order.
pub record IsValid {ℓ} {I : Type ℓ} (v : Ledger I) : Type ℓ where
  pub rising : Ascends 0 v.base.sorted_keys
  pub indexed : (j : ℕ) → contains j v.base.sorted_keys ≡ is_some (find j v.base.items)
  pub counted : length v.base.sorted_keys ≡ length v.base.items
  pub in_order : Ascends 0 (keys v.overlay)

module _ {ℓ} {I : Type ℓ} where
  live-alive_at :
      (v : Ledger I)
      → IsValid v
      → (key j : ℕ) → key < j
      → live v j ≡ alive_at (keys_above key v.base.sorted_keys) (above key v.overlay) j
  unfolding live alive_at
  live-alive_at v w key j h = ground (
    arith,
    w.indexed j,
    find-above j key v.overlay h,
    contains-keys_above j key v.base.sorted_keys h,
  )

  -- For a published view, `succ key last` is the least live key above `key` if that is below
  -- `last`, and is none exactly where no live key lies between them.
  pub succ-Least :
      (v : Ledger I) (key : ℕ) (last : Option ℕ)
      → IsValid v
      → Least (live v) (suc key) last (succ v key last)
  unfolding succ
  succ-Least v key last w = Least-same (live v) _ (suc key) last _ (live-alive_at v w key) (
      succ_loop-Least last (suc key) (keys_above key v.base.sorted_keys) (above key v.overlay)
        (keys_above-Ascends key 0 v.base.sorted_keys w.rising)
        (above-Ascends key 0 v.overlay w.in_order))

-- ===== src/Ledger.antt =====
-- include/edgy/memory_ledger.hpp and src/edgy/memory_ledger.cpp: `MemoryLedger`, the published view.
-- The objects of the snapshot are in `base`, the changes since then in `overlay`. The header, the
-- fees and the rules are values that the view only hands out.
pub mod Succ
pub mod Walk
pub mod Size
use edgy.Prelude.{
  ℕ, suc, ◌-◌, ◌+◌, Bool, true, false, not, Option, none, some, List, [], ◌∷◌, ltb, leb, ◌==◌,
  if◌then◌else◌, length,
}
use edgy.Containers.Eq.{nat_eq}
use edgy.Containers.HashSet.{contains}
use edgy.Containers.HashMap.{find}
use edgy.Containers.OrderedMap.{keys_above, above}

-- MemoryLedger::Base, without its decode lock
pub record Base {ℓ} (I : Type ℓ) : Type ℓ where
  pub items : List (ℕ × I)
  pub sorted_keys : List ℕ

-- MemoryLedger::Overlay: `none` stands for an object deleted since the snapshot.
abbrev pub Overlay {ℓ} : Type ℓ → Type ℓ
Overlay I = List (ℕ × Option I)

pub record Ledger {ℓ} (I : Type ℓ) : Type ℓ where
  pub base : Base I
  pub overlay : Overlay I

abbrev pub is_some {ℓ} : {A : Type ℓ} → Option A → Bool
is_some none = false
is_some (some a) = true

-- The limit `last` of `succ`: candidates from it on are refused.
abbrev pub past : Option ℕ → ℕ → Bool
past none cand = false
past (some l) cand = leb l cand

-- The iterator state of SlesIter.
pub record SlesIter : Type 0 where
  pub current : Option ℕ
  pub end : Bool

-- A candidate from the base.
accept : Option ℕ → ℕ → Option ℕ
accept last cand = if past last cand then none else some cand

-- ++bit, where the base and the overlay both hold the candidate
skip : ℕ → List ℕ → List ℕ
skip cand [] = []
skip cand (b ∷ bs) = if b == cand then bs else b ∷ bs

module _ {ℓ} {I : Type ℓ} where
  -- A candidate from the overlay: a deleted one is passed over.
  accept_overlay : Option ℕ → ℕ → Option I → Option ℕ → Option ℕ
  accept_overlay last cand none rest = if past last cand then none else rest
  accept_overlay last cand (some item) rest = if past last cand then none else some cand

  -- The loop of `succ`, from the two iterators on. Each round that goes on consumes an overlay entry.
  pub succ_loop : Option ℕ → List ℕ → Overlay I → Option ℕ
  unfolding accept accept_overlay skip
  succ_loop last [] [] = none
  succ_loop last (b ∷ bs) [] = accept last b
  succ_loop last [] ((k, v) ∷ os) = accept_overlay last k v (succ_loop last [] os)
  succ_loop last (b ∷ bs) ((k, v) ∷ os) =
      let rest = succ_loop last (skip k (b ∷ bs)) os in
      if leb k b then accept_overlay last k v rest else accept last b

  unfoldable pub succ : Ledger I → ℕ → Option ℕ → Option ℕ
  unfolding succ_loop
  succ v key last = succ_loop last (keys_above key v.base.sorted_keys) (above key v.overlay)

  unfoldable pub find_item : Ledger I → ℕ → Option I
  find_item v key = elim (find key v.overlay) [ some entry ↦ entry | none ↦ find key v.base.items ]

  unfoldable pub live : Ledger I → ℕ → Bool
  unfolding find_item
  live v key = is_some (find_item v key)

  unfoldable pub first_key : Ledger I → Option ℕ
  unfolding live succ
  first_key v = if live v 0 then some 0 else succ v 0 none

  unfoldable pub sles_begin : Ledger I → SlesIter
  unfolding first_key
  sles_begin v = let first = first_key v in record { current = first; end = not (is_some first) }

  unfoldable pub sles_upper_bound : Ledger I → ℕ → SlesIter
  unfolding succ
  sles_upper_bound v key =
      let next = succ v key none in record { current = next; end = not (is_some next) }

  advance_from : Ledger I → Option ℕ → SlesIter
  unfolding succ
  advance_from v none = record { current = none; end = true }
  advance_from v (some key) =
      let next = succ v key none in record { current = next; end = not (is_some next) }

  unfoldable pub increment : Ledger I → SlesIter → SlesIter
  unfolding advance_from
  increment v it =
      if it.end then record { current = none; end = true } else advance_from v it.current

  -- `n` after the overlay entry of `key`
  adjust : List (ℕ × I) → ℕ → Option I → ℕ → ℕ
  adjust items key (some item) n = if is_some (find key items) then n else n + 1
  adjust items key none n = if is_some (find key items) then n - 1 else n

  pub size_loop : List (ℕ × I) → Overlay I → ℕ → ℕ
  unfolding adjust
  size_loop items [] n = n
  size_loop items ((k, v) ∷ os) n = size_loop items os (adjust items k v n)

  unfoldable pub size : Ledger I → ℕ
  unfolding size_loop
  size v = size_loop v.base.items v.overlay (length v.base.items)

  unfoldable pub overlay_size : Ledger I → ℕ
  overlay_size v = length v.overlay

-- SlesIter::equal
unfoldable pub iter_equal : SlesIter → SlesIter → Bool
iter_equal a b = if a.end then b.end else if b.end then false else same_key a.current b.current
  where
    same_key : Option ℕ → Option ℕ → Bool
    same_key none none = true
    same_key (some j) (some k) = j == k
    same_key _ _ = false

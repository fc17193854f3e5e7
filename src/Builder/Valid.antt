-- ===== src/Builder/Valid.antt =====
-- The invariant of `LedgerBuilder`, and that every operation keeps it.
use edgy.Containers.OrderedMap.{keys, Ascends, put-Ascends}
use edgy.Prelude.{true, refl, none, Option, some, [], false, arith, ◌≡◌, ℕ}
use edgy.Builder.{sort_keys, freeze_base, clear, Builder}
use edgy.Builder.Freeze.{remove-Distinct, assign-Distinct, Distinct}
use edgy.Builder

pub record IsValid {ℓ} {I : Type ℓ} (b : Builder I) : Type ℓ where
  pub fresh : b.frozen ≡ false → b.overlay ≡ []
  pub in_order : Ascends 0 (keys b.overlay)
  pub distinct : Distinct (keys b.base.items)
  pub sorted : b.frozen ≡ true → b.base.sorted_keys ≡ sort_keys (keys b.base.items)

module _ {ℓ} {I : Type ℓ} (b : Builder I) (w : IsValid b) where
  pub put-IsValid : (key : ℕ) (item : I) → IsValid (Builder.put b key item)
  unfolding Builder.put
  put-IsValid key item = ground (
    arith,
    put-Ascends 0 key (some item) b.overlay,
    assign-Distinct key item b.base.items w.distinct,
  )

  pub erase-IsValid : (key : ℕ) → IsValid (Builder.erase b key)
  unfolding Builder.erase
  erase-IsValid key = ground (
    arith,
    put-Ascends {V = Option I} 0 key none b.overlay,
    remove-Distinct key b.base.items w.distinct,
  )

  pub freeze_base-IsValid : IsValid (freeze_base b)
  unfolding freeze_base
  freeze_base-IsValid = ground arith

  pub clear-IsValid : IsValid (clear b)
  unfolding clear
  clear-IsValid = record { fresh = λ e. refl; in_order = tt; distinct = tt; sorted = λ e. cc }

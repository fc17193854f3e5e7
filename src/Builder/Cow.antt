-- ===== src/Builder/Cow.antt =====
-- The sharing behind `LedgerBuilder`: the base and the overlay are `shared_ptr`s that the published
-- views hold too. `cowOverlay` copies the overlay only while someone else holds it, and a frozen
-- base is never written. A cell is an object on the heap, an address its place in the list.
pub mod Isolation
pub mod Calls
pub mod Refines
use edgy.Containers.Eq.{nat_eq}
use edgy.Containers.HashMap.{remove, assign}
use edgy.Ledger.{Ledger, Overlay, Base}
use edgy.Prelude.{
  length, if◌then◌else◌, ◌==◌, ◌++◌, ◌∷◌, [], List, some, none, ◌||◌, false, true, Bool, suc, zero,
  ℕ,
}
use edgy.Builder.{sort_keys}
use edgy.Containers.OrderedMap.{keys, put as put_overlay}

pub record Heap {ℓ} (I : Type ℓ) : Type ℓ where
  pub bases : List (Base I)
  pub overlays : List (Overlay I)

-- A view holds a base and an overlay for as long as a reader keeps it.
pub record Handle : Type 0 where
  pub base : ℕ
  pub overlay : ℕ

pub record Shared {ℓ} (I : Type ℓ) : Type ℓ where
  pub heap : Heap I
  pub base : ℕ
  pub overlay : ℕ
  pub frozen : Bool
  pub views : List Handle

module _ {ℓ} {A : Type ℓ} where
  abbrev pub at : A → List A → ℕ → A
  at d [] i = d
  at d (x ∷ xs) zero = x
  at d (x ∷ xs) (suc i) = at d xs i

  abbrev pub set_at : ℕ → A → List A → List A
  set_at i v [] = []
  set_at zero v (x ∷ xs) = v ∷ xs
  set_at (suc i) v (x ∷ xs) = x ∷ set_at i v xs

  abbrev pub drop_at : ℕ → List A → List A
  drop_at i [] = []
  drop_at zero (x ∷ xs) = xs
  drop_at (suc i) (x ∷ xs) = x ∷ drop_at i xs

-- overlay_.use_count() > 1
unfoldable pub held : ℕ → List Handle → Bool
held a [] = false
held a (h ∷ hs) = h.overlay == a || held a hs

module _ {ℓ} {I : Type ℓ} where
  abbrev empty_base : Base I
  empty_base = record { items = []; sorted_keys = [] }

  abbrev pub base_at : Heap I → ℕ → Base I
  base_at h a = at empty_base h.bases a

  abbrev pub overlay_at : Heap I → ℕ → Overlay I
  overlay_at h a = at [] h.overlays a

  unfoldable pub write_base : Shared I → (Base I → Base I) → Shared I
  write_base s f = record s {
    heap = record s.heap { bases = set_at s.base (f (base_at s.heap s.base)) s.heap.bases };
  }

  unfoldable pub write_overlay : Shared I → (Overlay I → Overlay I) → Shared I
  write_overlay s f = record s {
    heap = record s.heap {
      overlays = set_at s.overlay (f (overlay_at s.heap s.overlay)) s.heap.overlays;
    };
  }

  -- The keys of the base, sorted.
  abbrev pub index : Base I → Base I
  index b = record b { sorted_keys = sort_keys (keys b.items) }

  -- base_->items[key] = item; base_->items.erase(key)
  abbrev pub set_item : ℕ → I → Base I → Base I
  set_item key item b = record b { items = assign key item b.items }

  abbrev pub drop_item : ℕ → Base I → Base I
  drop_item key b = record b { items = remove key b.items }

  unfoldable pub cow_overlay : Shared I → Shared I
  cow_overlay s =
      if held s.overlay s.views
      then record s {
        heap = record s.heap { overlays = s.heap.overlays ++ overlay_at s.heap s.overlay ∷ [] };
        overlay = length s.heap.overlays;
      }
      else s

  unfoldable pub freeze_base : Shared I → Shared I
  unfolding write_base
  freeze_base s = if s.frozen then s else record (write_base s index) { frozen = true }

  unfoldable pub put : Shared I → ℕ → I → Shared I
  unfolding write_base write_overlay cow_overlay
  put s key item =
      if s.frozen
      then write_overlay (cow_overlay s) (put_overlay key (some item))
      else write_base s (set_item key item)

  unfoldable pub erase : Shared I → ℕ → Shared I
  unfolding write_base write_overlay cow_overlay
  erase s key =
      if s.frozen
      then write_overlay (cow_overlay s) (put_overlay key none)
      else write_base s (drop_item key)

  unfoldable pub clear : Shared I → Shared I
  clear s = record s {
    heap = record {
      bases = s.heap.bases ++ empty_base ∷ [];
      overlays = s.heap.overlays ++ [] ∷ [];
    };
    base = length s.heap.bases;
    overlay = length s.heap.overlays;
    frozen = false;
  }

  unfoldable pub publish : Shared I → Shared I
  unfolding freeze_base
  publish s =
      let s' = freeze_base s in
      record s' { views = record { base = s'.base; overlay = s'.overlay } ∷ s'.views }

  -- The reader of the `i`-th view lets it go.
  unfoldable pub release : Shared I → ℕ → Shared I
  release s i = record s { views = drop_at i s.views }

  -- What a reader sees through its handle.
  unfoldable pub seen : Shared I → Handle → Ledger I
  seen s h = record { base = base_at s.heap h.base; overlay = overlay_at s.heap h.overlay }

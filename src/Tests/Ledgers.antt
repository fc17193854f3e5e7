-- ===== src/Tests/Ledgers.antt =====
-- MemoryLedger on a small view: a base of three objects, one of them deleted, and one added.
use edgy.Prelude.{refl, ℕ, ◌≡◌, none, some, List, [], ◌∷◌, arith}
use edgy.Containers.Eq.{nat_eq}
use edgy.Containers.HashSet.{contains}
use edgy.Containers.HashMap.{find}
use edgy.Containers.OrderedMap.{Ascends}
use edgy.Ledger.{Ledger, live, succ, sles_begin}
use edgy.Ledger.Succ.{IsValid, Least, succ-Least}
use edgy.Ledger.Walk.{walk, walk-Lists}

abbrev view : Ledger ℕ
view = record {
  base = record { items = (3, 30) ∷ (5, 50) ∷ (9, 90) ∷ []; sorted_keys = 3 ∷ 5 ∷ 9 ∷ [] };
  overlay = (4, some 40) ∷ (5, none) ∷ [];
}

view-IsValid : IsValid view
unfolding contains find
view-IsValid = record {
  rising = (omega arith, (omega arith, (omega arith, tt)));
  indexed = λ j. ground arith;
  counted = refl;
  in_order = (omega arith, (omega arith, tt));
}

succ-Least_example : Least (live view) 5 (some 9) (succ view 4 (some 9))
succ-Least_example = succ-Least view 4 (some 9) view-IsValid

walk-Lists_example :
    (ks : List ℕ) × (walk view 7 (sles_begin view) ≡ some ks)
    × Ascends 0 ks
    × ((j : ℕ) → contains j ks ≡ live view j)
walk-Lists_example = walk-Lists view 7 view-IsValid (omega arith)

-- ===== src/Tests/Builders.antt =====
-- LedgerBuilder on a short history, as a value and with its shared pointers.
use edgy.Prelude.{inl, ℕ, ◌≡◌, none, List, [], ◌∷◌, true, false, refl, arith}
use edgy.Ledger.{find_item}
use edgy.Builder.{publish, Header}
use edgy.Builder.History.{Call, puts, erases, publishes, run, new, effects, publish-effects}
use edgy.Builder.Cow.{Shared, seen, put, clear, held, write_overlay, cow_overlay}
use edgy.Builder.Cow.Isolation.{Inv}
use edgy.Builder.Cow.Calls as Calls
use edgy.Builder.Cow.Calls.{step-Kept}
use edgy.Builder.Cow.Refines.{value-step, seen-run, value, on_value}

abbrev history : List (Call ℕ)
history = puts 3 30 ∷ puts 5 50 ∷ publishes ∷ erases 5 ∷ puts 4 40 ∷ []

publish-effects_example :
    find_item (publish (run new history)).1.ledger 4 ≡ effects (λ k. none) history 4
publish-effects_example = publish-effects history 4

-- One view is held, over the builder's own base and overlay.
abbrev shared : Shared ℕ
shared = record {
  heap = record {
    bases = record { items = (3, 30) ∷ []; sorted_keys = 3 ∷ [] } ∷ [];
    overlays = [] ∷ [];
  };
  base = 0;
  overlay = 0;
  frozen = true;
  views = record { base = 0; overlay = 0 } ∷ [];
}

shared-Inv : Inv shared
shared-Inv = record {
  own_base = omega arith;
  own_overlay = omega arith;
  safe = (
    record { in_bases = omega arith; in_overlays = omega arith; apart = λ e. absurd (frozen e) },
    tt,
  );
}
  where
    frozen : true ≡ false → ⊥
    frozen e = ground (arith, e)

abbrev header : Header
header = record {
  seq = 7;
  hash = 1;
  parent_hash = 2;
  account_hash = 3;
  tx_hash = 4;
  drops = 5;
  validated = true;
  accepted = true;
}

value-step_example :
    value header (Calls.step shared (Calls.erases 3))
    ≡ on_value (Calls.erases 3) (value header shared)
value-step_example = value-step header shared (Calls.erases 3) shared-Inv

seen-run_example :
    seen (Calls.run shared (Calls.puts 4 40 ∷ Calls.clears ∷ [])) (record { base = 0; overlay = 0 })
    ≡ seen shared (record { base = 0; overlay = 0 })
unfolding Calls.step put clear held write_overlay cow_overlay
seen-run_example =
    seen-run shared (record { base = 0; overlay = 0 }) (Calls.puts 4 40 ∷ Calls.clears ∷ [])
      shared-Inv (inl refl) (inl refl, (inl refl, tt))

-- ===== src/Builder/History.antt =====
-- Any history of builder calls, against the finite map that the calls describe.
use edgy.Containers.HashMap.{find}
use edgy.Ledger.{find_item}
use edgy.Containers.Eq.{nat_eq, if_eq}
use edgy.Builder.Valid.{IsValid, clear-IsValid, freeze_base-IsValid, erase-IsValid, put-IsValid}
use edgy.Builder.Contents.{
  publish-IsValid, find_item-publish, item_of-freeze_base, item_of-clear, item_of-erase,
  item_of-put,
}
use edgy.Prelude.{arith, ◌∷◌, [], List, some, none, Option, false, Bool, ◌∙◌, refl, ◌≡◌, ℕ}
use edgy.Builder.{clear, erase, set_open, set_header, publish, item_of, put, Builder, Header}
use edgy.Ledger.Succ

-- The calls that change a builder. A history gives the newest call last.
pub data Call {ℓ} (I : Type ℓ) : Type ℓ where
  puts : ℕ → I → Call I
  erases : ℕ → Call I
  sets_header : Header → Call I
  sets_open : Bool → Call I
  publishes : Call I
  clears : Call I

module _ {ℓ} {I : Type ℓ} where
  unfoldable pub step : Builder I → Call I → Builder I
  step b (puts key item) = put b key item
  step b (erases key) = erase b key
  step b (sets_header h) = set_header b h
  step b (sets_open value) = set_open b value
  step b publishes = (publish b).0
  step b clears = clear b

  unfoldable pub run : Builder I → List (Call I) → Builder I
  unfolding step
  run b [] = b
  run b (c ∷ cs) = run (step b c) cs

  -- The same calls on a map.
  abbrev pub effect : (ℕ → Option I) → Call I → ℕ → Option I
  effect m (puts key item) = λ j. if_eq key j (some item) (m j)
  effect m (erases key) = λ j. if_eq key j none (m j)
  effect m (sets_header h) = m
  effect m (sets_open value) = m
  effect m publishes = m
  effect m clears = λ j. none

  abbrev pub effects : (ℕ → Option I) → List (Call I) → ℕ → Option I
  effects m [] = m
  effects m (c ∷ cs) = effects (effect m c) cs

  step-IsValid : (b : Builder I) (c : Call I) → IsValid b → IsValid (step b c)
  unfolding step
  step-IsValid b (puts key item) w = put-IsValid b w key item
  step-IsValid b (erases key) w = erase-IsValid b w key
  step-IsValid b (sets_header h) w = unfold set_header in ground arith
  step-IsValid b (sets_open value) w = unfold set_open in ground arith
  step-IsValid b publishes w = unfold publish in freeze_base-IsValid b w
  step-IsValid b clears w = clear-IsValid b w

  step-effect :
      (b : Builder I) (m : ℕ → Option I) (c : Call I)
      → IsValid b
      → ((j : ℕ) → item_of b j ≡ m j)
      → (j : ℕ) → item_of (step b c) j ≡ effect m c j
  unfolding step
  step-effect b m (puts key item) w h j = ground (arith, item_of-put b key j item w, h j)
  step-effect b m (erases key) w h j = ground (arith, item_of-erase b key j w, h j)
  step-effect b m (sets_header x) w h j = unfold set_header item_of in h j
  step-effect b m (sets_open value) w h j = unfold set_open item_of in h j
  step-effect b m publishes w h j = unfold publish in item_of-freeze_base b j ∙ h j
  step-effect b m clears w h j = item_of-clear b j

  pub run-IsValid : (b : Builder I) (cs : List (Call I)) → IsValid b → IsValid (run b cs)
  unfolding run
  run-IsValid b [] w = w
  run-IsValid b (c ∷ cs) w = run-IsValid (step b c) cs (step-IsValid b c w)

  run-effects :
      (b : Builder I) (m : ℕ → Option I) (cs : List (Call I))
      → IsValid b
      → ((j : ℕ) → item_of b j ≡ m j)
      → (j : ℕ) → item_of (run b cs) j ≡ effects m cs j
  unfolding run
  run-effects b m [] w h = h
  run-effects b m (c ∷ cs) w h =
      run-effects (step b c) (effect m c) cs (step-IsValid b c w) (step-effect b m c w h)

  -- LedgerBuilder's constructor, with the header of zeros
  unfoldable pub new : Builder I
  new = record {
    header = record {
      seq = 0;
      hash = 0;
      parent_hash = 0;
      account_hash = 0;
      tx_hash = 0;
      drops = 0;
      validated = false;
      accepted = false;
    };
    base = record { items = []; sorted_keys = [] };
    overlay = [];
    frozen = false;
    open_ledger = false;
  }

  pub new-IsValid : IsValid new
  unfolding new
  new-IsValid = record { fresh = λ e. refl; in_order = tt; distinct = tt; sorted = λ e. cc }

  item_of-new : (j : ℕ) → item_of new j ≡ none
  unfolding new item_of find
  item_of-new j = refl

  -- After any history of calls, the view that is published then reads, at each key, what the
  -- history says of it: the last object put there, and nothing after an erase or a clear.
  pub publish-effects :
      (cs : List (Call I)) (j : ℕ)
      → find_item (publish (run new cs)).1.ledger j ≡ effects (λ k. none) cs j
  publish-effects cs j =
      find_item-publish (run new cs) j ∙ run-effects new (λ k. none) cs new-IsValid item_of-new j

  -- Such a view is in order, so that `succ`, the walk and the size can be relied on.
  publish-run-IsValid : (cs : List (Call I)) → Succ.IsValid (publish (run new cs)).1.ledger
  publish-run-IsValid cs = publish-IsValid (run new cs) (run-IsValid new cs new-IsValid)

-- ===== src/Books/Reach.antt =====
-- The graph after any sequence of ledger objects that were added, removed or cleared away.
use edgy.Books.Feed.Keeps.{remove_from_sle_keeps, add_from_sle_keeps}
use edgy.Books.Consistent.{
  IsConsistent-empty, IsConsistent-remove_book, IsConsistent-set_quality, IsConsistent-add_book,
  IsConsistent, IsXrp,
}
use edgy.Sle.{Sle}
use edgy.Prelude.{◌∷◌, [], List, Option}
use edgy.Books.Feed.{add_from_sle, remove_from_sle}
use edgy.Books
use edgy.Books.{Books, Book, Xrpl, empty}
use edgy.Containers.Eq.{Eq}

pub data Change (A D : Type 0) : Type 0 where
  added : Option (Sle A D) → Change A D
  removed : Option (Sle A D) → Change A D
  cleared : Change A D

module _ {A T D : Type 0} ⦃a : Eq A⦄ ⦃t : Eq T⦄ ⦃d : Eq D⦄ (lib : Xrpl A T) where
  unfoldable pub step : Books A T D → Change A D → Books A T D
  step s (added sle) = add_from_sle lib sle s
  step s (removed sle) = remove_from_sle lib sle s
  step s cleared = Books.clear s

  unfoldable pub run : Books A T D → List (Change A D) → Books A T D
  unfolding step
  run s [] = s
  run s (c ∷ cs) = run (step s c) cs

  module _ (xrp : A) (native : IsXrp lib xrp) where
    pub step-IsConsistent :
        (s : Books A T D) (c : Change A D)
        → IsConsistent lib xrp s
        → IsConsistent lib xrp (step s c)
    unfolding step
    step-IsConsistent s (added sle) w =
        add_from_sle_keeps lib (IsConsistent lib xrp) (IsConsistent-add_book lib xrp native)
          (IsConsistent-set_quality lib xrp) (IsConsistent-remove_book lib xrp native) sle s w
    step-IsConsistent s (removed sle) w =
        remove_from_sle_keeps lib (IsConsistent lib xrp) (IsConsistent-add_book lib xrp native)
          (IsConsistent-set_quality lib xrp) (IsConsistent-remove_book lib xrp native) sle s w
    step-IsConsistent s cleared w = unfold Books.clear in IsConsistent-empty lib xrp

    run_keeps-IsConsistent :
        (s : Books A T D) (cs : List (Change A D))
        → IsConsistent lib xrp s
        → IsConsistent lib xrp (run s cs)
    unfolding run
    run_keeps-IsConsistent s [] w = w
    run_keeps-IsConsistent s (c ∷ cs) w =
        run_keeps-IsConsistent (step s c) cs (step-IsConsistent s c w)

    -- From the empty graph on, whatever ledger objects are added and removed, the maps agree: the
    -- reverse maps mirror the forward maps, open and by domain, the XRP sets hold the assets with a
    -- book that pays XRP, and a token leads only where one of its assets leads.
    pub run-IsConsistent : (cs : List (Change A D)) → IsConsistent lib xrp (run empty cs)
    run-IsConsistent cs = run_keeps-IsConsistent empty cs (IsConsistent-empty lib xrp)
